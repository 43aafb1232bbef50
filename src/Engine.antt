-- ===== src/Engine.antt =====
-- nrdot-config-engine/engine_v2.go: validation, generation and the history of the configurations. Every
-- method that changes the state holds the lock while it does. The validator, the generator, the YAML
-- encoder and the hash are parameters; logging is left out.
pub mod Hooks
pub mod Log
pub mod History
use nrdot_host.Common.{
  ℕ, suc, ◌+◌, ◌-◌, List, [], ◌∷◌, ◌++◌, map, length, drop, ◌==◌, leb, ltb, Bool, true, false, ◌||◌,
  Option, none, some, if◌then◌else◌, Str, str_eq, codes, ℕ_discrete,
}
use nrdot_host.Common.Dict.{insert, delete}
use mathlib.Core.List.{lookup}
use nrdot_host.Engine.Hooks.{Hook, ConfigChangeEvent}

-- What the engine calls: the schema validator and the generator (nrdot-config-engine/internal), which
-- evaluate a JSON schema and templates and are left open here, yaml and crypto/sha256. `to_yaml` reads
-- JSON and writes it as YAML.
pub record Library (C O : Type 0) : Type 0 where
  pub validate : Str → Option C
  pub generate : C → Option (O × List Str)
  pub encode : O → Option Str
  pub to_yaml : Str → Option Str
  pub calculate_hash : Str → Str

pub data EngineError : Type 0 where
  validation_failed generation_failed encode_failed unsupported_format no_configuration :
      EngineError
  version_not_found : ℕ → EngineError

pub data Result (A : Type 0) : Type 0 where
  ok : A → Result A
  failed : EngineError → Result A

pub record ConfigVersion : Type 0 where
  pub version : ℕ
  pub applied_at : ℕ
  pub source : Str
  pub author : Str
  pub description : Str
  pub hash : Str
  pub size : ℕ
  pub metadata : List (Str × Str)

pub record VersionRecord : Type 0 where
  pub version : ConfigVersion
  pub user_config : Str

pub record EngineV2 (C : Type 0) : Type 0 where
  pub versions : List ConfigVersion
  pub version_map : List (ℕ × VersionRecord)
  pub current_version : ℕ
  pub current_config : Option C
  pub current_otel : Str
  pub max_versions : ℕ
  pub enable_backup : Bool
  pub hooks : List Hook
  -- The events that the hooks were notified of.
  pub notified : List ConfigChangeEvent

pub record ConfigV2 : Type 0 where
  pub max_versions : ℕ
  pub enable_backup : Bool

unfoldable pub new_engine_v2 : {C : Type 0} → ConfigV2 → EngineV2 C
new_engine_v2 cfg = record {
  versions = [];
  version_map = [];
  current_version = 0;
  current_config = none;
  current_otel = [];
  max_versions = if leb cfg.max_versions 0 then 10 else cfg.max_versions;
  enable_backup = cfg.enable_backup;
  hooks = [];
  notified = [];
}

pub record GeneratedConfig : Type 0 where
  pub otel_config : Str
  pub hash : Str
  pub generated_at : ℕ
  pub templates : List Str

pub record ConfigUpdate : Type 0 where
  pub config : Str
  pub format : Str
  pub source : Str
  pub author : Str
  pub description : Str
  pub metadata : List (Str × Str)
  pub dry_run : Bool

-- `valid` is the validation result, where there is one.
pub record ConfigResult : Type 0 where
  pub success : Bool
  pub version : ℕ
  pub valid : Option Bool
  pub applied_at : ℕ

pub record ConfigDiff : Type 0 where
  pub old_version : ℕ
  pub new_version : ℕ
  pub modified : List Str

-- The oldest version goes, from the list and from the map.
abbrev pub drop_oldest : {C : Type 0} → List ConfigVersion → EngineV2 C → EngineV2 C
drop_oldest [] e = e
drop_oldest (old_version ∷ rest) e = record e {
  versions = rest;
  version_map = delete ℕ_discrete old_version.version e.version_map;
}

unfoldable pub trim : {C : Type 0} → EngineV2 C → EngineV2 C
trim e = if ltb e.max_versions (length e.versions) then drop_oldest e.versions e else e

abbrev pub version_event : ℕ → ConfigChangeEvent
version_event new_version = record {
  config_path = [];
  old_version = new_version - 1;
  new_version = new_version;
}

abbrev pub new_record : ℕ → ConfigUpdate → Str → ℕ → VersionRecord
new_record now update hash new_version = record {
  version = record {
    version = new_version;
    applied_at = now;
    source = update.source;
    author = update.author;
    description = update.description;
    hash = hash;
    size = length update.config;
    metadata = update.metadata;
  };
  user_config = update.config;
}

abbrev pub append_record : {C : Type 0} → VersionRecord → EngineV2 C → EngineV2 C
append_record r e = record e {
  versions = e.versions ++ (r.version ∷ []);
  version_map = insert ℕ_discrete r.version.version r e.version_map;
  current_version = r.version.version;
}

abbrev pub notify : {C : Type 0} → ConfigChangeEvent → EngineV2 C → EngineV2 C
notify event e = record e { notified = e.notified ++ (event ∷ []) }

-- `ApplyConfig` from the new version on. Errors of the hooks are only logged.
unfoldable pub add_version :
    {C : Type 0} → ℕ → ConfigUpdate → GeneratedConfig → EngineV2 C → EngineV2 C
unfolding trim
add_version now update generated e =
    let new_version = e.current_version + 1 in
    notify (version_event new_version)
      (trim (append_record (new_record now update generated.hash new_version) e))

module _ {C O : Type 0} (lib : Library C O) where
  abbrev store_generated :
      ℕ → C → List Str → Option Str → EngineV2 C → EngineV2 C × Result GeneratedConfig
  store_generated now validated templates none e = (e, failed encode_failed)
  store_generated now validated templates (some otel_yaml) e =
      let generated : GeneratedConfig = record {
        otel_config = otel_yaml;
        hash = lib.calculate_hash otel_yaml;
        generated_at = now;
        templates = templates;
      } in
      (record e { current_config = some validated; current_otel = otel_yaml }, ok generated)

  abbrev encode_generated :
      ℕ → C → Option (O × List Str) → EngineV2 C → EngineV2 C × Result GeneratedConfig
  encode_generated now validated none e = (e, failed generation_failed)
  encode_generated now validated (some (otel, templates)) e =
      store_generated now validated templates (lib.encode otel) e

  abbrev pub generate_validated : ℕ → Option C → EngineV2 C → EngineV2 C × Result GeneratedConfig
  generate_validated now none e = (e, failed validation_failed)
  generate_validated now (some validated) e =
      encode_generated now validated (lib.generate validated) e

  unfoldable pub process_user_config : ℕ → Str → EngineV2 C → EngineV2 C × Result GeneratedConfig
  process_user_config now user_config e = generate_validated now (lib.validate user_config) e

  abbrev pub generate_config : ℕ → Str → EngineV2 C → EngineV2 C × Result GeneratedConfig
  generate_config now user_config e = process_user_config now user_config e

  abbrev validate_json : Option Str → Option C
  validate_json none = none
  validate_json (some yaml_data) = lib.validate yaml_data

  -- `none` is an error.
  unfoldable pub validate_user_config : Str → Str → Option C
  validate_user_config config format =
      if str_eq format (codes "yaml") || str_eq format (codes "yml")
      then lib.validate config
      else (if str_eq format (codes "json") then validate_json (lib.to_yaml config) else none)

  -- The end of `ApplyConfig`, on what the generation gave.
  abbrev pub apply_generated :
      ℕ
      → ConfigUpdate
      → EngineV2 C × Result GeneratedConfig
      → EngineV2 C × ConfigResult × Option EngineError
  apply_generated now update (e, failed err) =
      (e, record { success = false; version = 0; valid = none; applied_at = 0 }, some err)
  apply_generated now update (e, ok generated) = (
    add_version now update generated e,
    record { success = true; version = e.current_version + 1; valid = some true; applied_at = now },
    none,
  )

  abbrev pub apply_validated :
      ℕ → ConfigUpdate → Option C → EngineV2 C → EngineV2 C × ConfigResult × Option EngineError
  apply_validated now update none e =
      (e, record { success = false; version = 0; valid = some false; applied_at = 0 }, none)
  apply_validated now update (some _) e =
      if update.dry_run
      then (e, record { success = true; version = 0; valid = some true; applied_at = 0 }, none)
      else apply_generated now update (process_user_config now update.config e)

  unfoldable pub apply_config :
      ℕ → ConfigUpdate → EngineV2 C → EngineV2 C × ConfigResult × Option EngineError
  unfolding process_user_config add_version
  apply_config now update e =
      apply_validated now update (validate_user_config update.config update.format) e

  abbrev pub import_config :
      ℕ → Str → Str → EngineV2 C → EngineV2 C × ConfigResult × Option EngineError
  import_config now source bytes e =
      apply_config now
        (record {
          config = bytes;
          format = codes "yaml";
          source = source;
          author = [];
          description = [];
          metadata = [];
          dry_run = false;
        })
        e

  abbrev pub validate_config : Str → Bool
  validate_config config = elim (lib.validate config) [ none ↦ false | some _ ↦ true ]

abbrev pub get_current_config : {C : Type 0} → EngineV2 C → Result C
get_current_config e = elim e.current_config [ none ↦ failed no_configuration | some c ↦ ok c ]

-- A limit of 0 stands for no limit.
unfoldable pub get_config_history : {C : Type 0} → ℕ → EngineV2 C → List ConfigVersion
get_config_history limit e =
    let n = if leb limit 0 || ltb (length e.versions) limit then length e.versions else limit in
    drop (length e.versions - n) e.versions

unfoldable pub get_version_history : {C : Type 0} → ℕ → EngineV2 C → List ConfigVersion
get_version_history limit e = drop (length e.versions - limit) e.versions

-- Only looks for the version.
unfoldable pub has_version : List ConfigVersion → ℕ → Bool
has_version [] version = false
has_version (v ∷ vs) version =
    let r = has_version vs version in if v.version == version then true else r

unfoldable pub rollback_config : {C : Type 0} → ℕ → EngineV2 C → EngineV2 C × Option EngineError
unfolding has_version
rollback_config version e =
    if has_version e.versions version then (e, none) else (e, some (version_not_found version))

abbrev diff_records : ℕ → ℕ → Option VersionRecord → Option VersionRecord → Result ConfigDiff
diff_records old_version new_version none ver2 = failed (version_not_found old_version)
diff_records old_version new_version (some ver1) none = failed (version_not_found new_version)
diff_records old_version new_version (some ver1) (some ver2) = ok (record {
  old_version = old_version;
  new_version = new_version;
  modified = if str_eq ver1.user_config ver2.user_config then [] else codes "configuration" ∷ [];
})

unfoldable pub diff_configs : {C : Type 0} → ℕ → ℕ → EngineV2 C → Result ConfigDiff
diff_configs old_version new_version e =
    diff_records old_version new_version (lookup ℕ_discrete old_version e.version_map)
      (lookup ℕ_discrete new_version e.version_map)

abbrev pub export_record : Str → ℕ → Option VersionRecord → Result Str
export_record format current none = failed (version_not_found current)
export_record format current (some ver) =
    if str_eq format (codes "yaml") || str_eq format []
    then ok ver.user_config
    else failed unsupported_format

unfoldable pub export_config : {C : Type 0} → Str → EngineV2 C → Result Str
export_config format e =
    if e.current_version == 0
    then failed no_configuration
    else export_record format e.current_version (lookup ℕ_discrete e.current_version e.version_map)

unfoldable pub register_hook : {C : Type 0} → Hook → EngineV2 C → EngineV2 C
register_hook hook e = record e { hooks = e.hooks ++ (hook ∷ []) }
