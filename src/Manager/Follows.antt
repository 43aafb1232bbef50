-- ===== src/Manager/Follows.antt =====
-- What the processing of a configuration does to the history of nrdot-config-engine/manager.go, and what
-- the hooks are told of it.
use nrdot_host.Common.{
  ◌≡◌, refl, sym, ap, ◌∙◌, List, [], ◌∷◌, ◌++◌, map, false, if_split, Option, none, some, Str,
  arith,
}
use mathlib.Core.List.{append_assoc, append-nil}
use nrdot_host.Engine.Log.{suffix, map-append}
use nrdot_host.Manager.Suffix.{suffix-suffix, map-suffix, trim_versions_lem, of_version, of_event}
use nrdot_host.Manager.{
  ConfigVersion, ChangeEvent, FirstEngine, Tools, Disk, ProcessError, publish, write_config,
  write_marshalled, marshal_config, process_valid, process_data, process_config, Manager,
  add_version, record_processed,
}

-- The history has the last of a list of changes.
abbrev pub Told : List ChangeEvent → Manager → Type 0
Told log m = map of_version m.versions ≡ suffix m.max_versions (map of_event log)

-- A configuration that is processed without an error is told to the hooks; one that fails is not.
abbrev pub Outcome : FirstEngine → Str → FirstEngine × Option ProcessError → Type 0
Outcome e path (e', none) =
    (e'.dry_run ≡ false)
    × ((x : ChangeEvent) × (e'.notified ≡ e.notified ++ (x ∷ []))
        × (of_event x ≡ (path, e'.current_version)))
Outcome e path (e', some err) = (e'.dry_run ≡ false) × (e'.notified ≡ e.notified)

module _ (disk : Disk) (path : Str) (e : FirstEngine) (live : e.dry_run ≡ false) where
  write_config-Outcome : (bytes : Str) → Outcome e path (write_config disk path bytes e)
  unfolding write_config publish
  write_config-Outcome bytes =
      let w = disk.write_file bytes e.otel_config in
      if_split (Outcome e path) w.1 _ _ (λ b. (live, (_, refl, refl))) (λ b. (live, refl))

  write_marshalled-Outcome : (o : Option Str) → Outcome e path (write_marshalled disk path o e)
  write_marshalled-Outcome none = (live, refl)
  write_marshalled-Outcome (some bytes) =
      if_split (Outcome e path) disk.mkdir_all _ _ (λ b. write_config-Outcome bytes)
        (λ b. (live, refl))

  module _ {C O : Type 0} (tools : Tools C O) where
    marshal_config-Outcome : (o : Option O) → Outcome e path (marshal_config tools disk path o e)
    marshal_config-Outcome none = (live, refl)
    marshal_config-Outcome (some o) = write_marshalled-Outcome (tools.marshal o)

    process_valid-Outcome : (o : Option C) → Outcome e path (process_valid tools disk path o e)
    process_valid-Outcome none = (live, refl)
    process_valid-Outcome (some c) =
        if_split (Outcome e path) e.dry_run _ _ (λ b. absurd (ground (arith, b, live)))
          (λ b. marshal_config-Outcome (tools.generate c))

    process_data-Outcome : (o : Option Str) → Outcome e path (process_data tools disk path o e)
    process_data-Outcome none = (live, refl)
    process_data-Outcome (some bytes) = process_valid-Outcome (tools.validate_yaml bytes)

    pub process_config-Outcome : Outcome e path (process_config tools disk path e)
    unfolding process_config
    process_config-Outcome = process_data-Outcome (disk.read_file path)

-- From one state to another: the hooks were told of new changes, and the history follows these.
abbrev pub Follows : Manager → Manager → Type 0
Follows m m' =
    (m'.engine.dry_run ≡ false)
    × ((new : List ChangeEvent) × (m'.engine.notified ≡ m.engine.notified ++ new)
        × ((log : List ChangeEvent) → Told log m → Told (log ++ new) m'))

pub Follows-self : (m : Manager) → m.engine.dry_run ≡ false → Follows m m
Follows-self m l = (
  l,
  (
    [],
    sym (append-nil m.engine.notified),
    λ log t. t ∙ ap (λ es. suffix m.max_versions (map of_event es)) (sym (append-nil log)),
  ),
)

pub Follows-trans : (a b c : Manager) → Follows a b → Follows b c → Follows a c
Follows-trans a b c (l, (x, p, f)) (k, (y, q, g)) = (
  k,
  (
    x ++ y,
    q ∙ ap (λ es. es ++ y) p ∙ append_assoc a.engine.notified x y,
    λ log t.
        g (log ++ x) (f log t)
        ∙ ap (λ es. suffix c.max_versions (map of_event es)) (append_assoc log x y),
  ),
)

pub record_processed-Follows :
    (disk : Disk) (path : Str) (m : Manager) (r : FirstEngine × Option ProcessError)
    → Outcome m.engine path r
    → Follows m (record_processed disk path m r).0
unfolding add_version
record_processed-Follows disk path m (e, some err) (l, o) = (
  l,
  (
    [],
    o ∙ sym (append-nil m.engine.notified),
    λ log t. t ∙ ap (λ es. suffix m.max_versions (map of_event es)) (sym (append-nil log)),
  ),
)
record_processed-Follows disk path m (e, none) (l, (x, o, p)) =
    let n = m.max_versions in
    let v : ConfigVersion = record {
      version = e.current_version;
      timestamp = disk.now path;
      config_path = path;
      generated_files = [];
    } in
    (
      l,
      (
        x ∷ [],
        o,
        λ es t.
            ap (map of_version) (trim_versions_lem n (m.versions ++ (v ∷ [])))
            ∙ map-suffix of_version n (m.versions ++ (v ∷ []))
            ∙ ap (suffix n) (map-append of_version m.versions (v ∷ []))
            ∙ ap (λ ps. suffix n (ps ++ (of_version v ∷ []))) t
            ∙ suffix-suffix n (map of_event es) (of_version v)
            ∙ ap (λ q. suffix n (map of_event es ++ (q ∷ []))) (sym p)
            ∙ ap (suffix n) (sym (map-append of_event es (x ∷ []))),
      ),
    )
