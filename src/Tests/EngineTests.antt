-- ===== src/Tests/EngineTests.antt =====
-- The configuration engine and the supervisor at concrete inputs.
use nrdot_host.Common.{
  ◌≡◌, refl, List, [], ◌∷◌, false, Option, none, some, Str, codes, Str-discrete, str_eq, ℕ_discrete,
}
use nrdot_host.Engine.{
  Library, ConfigV2, ConfigUpdate, ok, apply_config, get_version_history, export_config,
  new_engine_v2, validate_user_config,
}
use nrdot_host.Engine.Log.{suffix, versions_of}
use nrdot_host.Engine.History.{
  Call, apply, generate, rollback, run, log_of, max_of, accepted, get_version_history_lem,
  export_config-apply_config, apply_config_refused,
}

abbrev validate_text : Str → Option Str
validate_text [] = none
validate_text (c ∷ s) = some (c ∷ s)

-- A validator that refuses the empty text, as the schema does, which requires an object.
abbrev library : Library Str Str
library = record {
  validate = validate_text;
  generate = λ c. some (c, []);
  encode = λ o. some o;
  to_yaml = λ text. some text;
  calculate_hash = λ text. text;
}

abbrev update_of : Str → ConfigUpdate
update_of text = record {
  config = text;
  format = codes "yaml";
  source = codes "api";
  author = [];
  description = [];
  metadata = [];
  dry_run = false;
}

abbrev two_versions : ConfigV2
two_versions = record { max_versions = 2; enable_backup = false }

abbrev calls : List Call
calls =
    apply 1 (update_of (codes "a"))
    ∷ apply 2 (update_of [])
    ∷ generate 3 (codes "x")
    ∷ apply 4 (update_of (codes "b"))
    ∷ rollback 1
    ∷ apply 5 (update_of (codes "c"))
    ∷ []

get_version_history_lem_example :
    get_version_history 1 (run library calls (new_engine_v2 two_versions))
    ≡ suffix 1 (versions_of (suffix (max_of two_versions) (log_of library 0 calls)))
get_version_history_lem_example = get_version_history_lem library two_versions calls 1

accepts : accepted library (update_of (codes "d")) ≡ some (codes "d")
unfolding validate_user_config str_eq Str-discrete ℕ_discrete
accepts = refl

export_config-apply_config_example :
    export_config
      (codes "yaml")
      (apply_config library 6
        (update_of (codes "d"))
        (run library calls (new_engine_v2 two_versions))).0
    ≡ ok (codes "d")
export_config-apply_config_example =
    export_config-apply_config library two_versions calls 6 (update_of (codes "d")) (codes "d")
      accepts

refuses_empty : accepted library (update_of []) ≡ none
unfolding validate_user_config str_eq Str-discrete ℕ_discrete
refuses_empty = refl

apply_config_refused_example :
    ((apply_config library 6 (update_of []) (run library calls (new_engine_v2 two_versions))).0
      ≡ run library calls (new_engine_v2 two_versions))
    × ((apply_config library 6
          (update_of [])
          (run library calls (new_engine_v2 two_versions))).1.version
        ≡ 0)
apply_config_refused_example =
    apply_config_refused library 6 (update_of []) (run library calls (new_engine_v2 two_versions))
      refuses_empty
