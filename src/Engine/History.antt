-- ===== src/Engine/History.antt =====
-- The engine after any sequence of calls: its history is the end of the log of what was applied.
use nrdot_host.Common.{
  ℕ, suc, ◌≤◌, ◌≡◌, refl, sym, ap, subst, ◌∙◌, ◌⊎◌, inl, inr, List, [], ◌∷◌, ◌++◌, length,
  length-append, false, if_both, if_true, if_false, Bool-cases, Option, none, some, ◌>>=◌,
  Option-cases, if◌then◌else◌, ◌==◌, leb, Str, Str-discrete, str_eq, codes, ℕ_discrete, arith,
}
use mathlib.Core.List.{lookup, append_assoc, append-nil}
use nrdot_host.Engine.Hooks.{Hook}
use nrdot_host.Engine.{
  Library, EngineV2, ConfigV2, ConfigUpdate, ConfigResult, EngineError, validation_failed,
  generation_failed, encode_failed, GeneratedConfig, VersionRecord, ok, failed, new_engine_v2,
  new_record, add_version, process_user_config, validate_user_config, apply_config, apply_generated,
  rollback_config, has_version, register_hook, get_version_history, export_record, export_config,
}
use nrdot_host.Engine.Log.{
  Implements, add_version-Implements, suffix, versions_of, keyed, drop_nil, lookup-current,
}

pub data Call : Type 0 where
  apply : ℕ → ConfigUpdate → Call
  generate : ℕ → Str → Call
  rollback : ℕ → Call
  register : Hook → Call

-- The log from its next number on: an update with a hash is in it.
abbrev extend : ℕ → ConfigUpdate → ℕ → (ℕ → List VersionRecord) → Option Str → List VersionRecord
extend now update n rest none = rest n
extend now update n rest (some hash) = new_record now update hash (suc n) ∷ rest (suc n)

-- How many versions an engine keeps.
abbrev pub max_of : ConfigV2 → ℕ
max_of cfg = if leb cfg.max_versions 0 then 10 else cfg.max_versions

module _ {C O : Type 0} (lib : Library C O) where
  abbrev pub step : Call → EngineV2 C → EngineV2 C
  step (apply now update) e = (apply_config lib now update e).0
  step (generate now text) e = (process_user_config lib now text e).0
  step (rollback version) e = (rollback_config version e).0
  step (register hook) e = register_hook hook e

  abbrev pub run : List Call → EngineV2 C → EngineV2 C
  run [] e = e
  run (c ∷ cs) e = run cs (step c e)

  -- The hash of what is generated from a text.
  abbrev pub generated_hash : Str → Option Str
  generated_hash text = lib.validate text >>= λ c.
      lib.generate c >>= λ o. lib.encode o.0 >>= λ y. some (lib.calculate_hash y)

  -- An update that is not a dry run is accepted if its text is valid in its format, and generates.
  abbrev pub accepted : ConfigUpdate → Option Str
  accepted update =
      if update.dry_run
      then none
      else (validate_user_config lib update.config update.format >>= λ _.
          generated_hash update.config)

  -- The records of the accepted updates, numbered from `n + 1` on.
  abbrev pub log_of : ℕ → List Call → List VersionRecord
  log_of n [] = []
  log_of n (apply now update ∷ cs) = extend now update n (λ m. log_of m cs) (accepted update)
  log_of n (generate _ _ ∷ cs) = log_of n cs
  log_of n (rollback _ ∷ cs) = log_of n cs
  log_of n (register _ ∷ cs) = log_of n cs

  abbrev stored : C → Str → EngineV2 C → EngineV2 C
  stored c otel e = record e { current_config = some c; current_otel = otel }

  abbrev Processed : ℕ → Str → EngineV2 C → Type 0
  Processed now text e =
      ((err : EngineError) × (process_user_config lib now text e ≡ (e, failed err))
        × (generated_hash text ≡ none))
      ⊎ ((c : C) × (otel : Str) × (g : GeneratedConfig) × (process_user_config lib now text e
            ≡ (stored c otel e, ok g))
          × (generated_hash text ≡ some g.hash))

  process_user_config_cases : (now : ℕ) (text : Str) (e : EngineV2 C) → Processed now text e
  unfolding process_user_config
  process_user_config_cases now text e = elim (Option-cases (lib.validate text)) [
    | inl p ↦ inl (validation_failed, rw p refl, rw p refl)
    | inr (c, p) ↦ elim (Option-cases (lib.generate c)) [
      | inl q ↦ inl (generation_failed, rw (p, q) refl, rw (p, q) refl)
      | inr ((o, ts), q) ↦ elim (Option-cases (lib.encode o)) [
        | inl r ↦ inl (encode_failed, rw (p, q, r) refl, rw (p, q, r) refl)
        | inr (y, r) ↦ inr (
          c,
          y,
          record {
            otel_config = y;
            hash = lib.calculate_hash y;
            generated_at = now;
            templates = ts;
          },
          rw (p, q, r) refl,
          rw (p, q, r) refl,
        )
      ]
    ]
  ]

  -- An update that is not accepted changes nothing; one that is adds a version.
  abbrev Applied : ℕ → ConfigUpdate → EngineV2 C → Type 0
  Applied now update e =
      (((apply_config lib now update e).0 ≡ e)
        × ((apply_config lib now update e).1.version ≡ 0)
        × (accepted update ≡ none))
      ⊎ ((c : C) × (otel : Str) × (g : GeneratedConfig) × ((apply_config lib now update e).0
            ≡ add_version now update g (stored c otel e))
          × (accepted update ≡ some g.hash))

  accepted_live :
      (update : ConfigUpdate) (v : C)
      → validate_user_config lib update.config update.format ≡ some v
      → update.dry_run ≡ false
      → accepted update ≡ generated_hash update.config
  accepted_live update v p d = if_false update.dry_run _ _ d ∙ (rw p refl)

  apply_config_live :
      (now : ℕ) (update : ConfigUpdate) (e : EngineV2 C) (v : C)
      → validate_user_config lib update.config update.format ≡ some v
      → update.dry_run ≡ false
      → apply_config lib now update e
        ≡ apply_generated lib now update (process_user_config lib now update.config e)
  unfolding apply_config
  apply_config_live now update e v p d = rw p (if_false update.dry_run _ _ d)

  abbrev outcome_state : EngineV2 C × ConfigResult × Option EngineError → EngineV2 C
  outcome_state o = o.0

  abbrev outcome_version : EngineV2 C × ConfigResult × Option EngineError → ℕ
  outcome_version o = o.1.version

  apply_config_cases : (now : ℕ) (update : ConfigUpdate) (e : EngineV2 C) → Applied now update e
  unfolding apply_config
  apply_config_cases now update e =
      elim (Option-cases (validate_user_config lib update.config update.format)) [
        | inl p ↦
            inl (rw p refl, rw p refl, rw p (if_both (λ o. o ≡ none) update.dry_run _ _ refl refl))
        | inr (v, p) ↦ elim (Bool-cases update.dry_run) [
          | inl d ↦ inl (
            rw p (ap outcome_state (if_true update.dry_run _ _ d)),
            rw p (ap outcome_version (if_true update.dry_run _ _ d)),
            if_true update.dry_run _ _ d,
          )
          | inr d ↦ elim (process_user_config_cases now update.config e) [
            | inl (err, q, h) ↦ inl (
              ap outcome_state
                  (apply_config_live now update e v p d ∙ ap (apply_generated lib now update) q),
              ap outcome_version
                  (apply_config_live now update e v p d ∙ ap (apply_generated lib now update) q),
              accepted_live update v p d ∙ h,
            )
            | inr (c, otel, g, q, h) ↦ inr (
              c,
              otel,
              g,
              ap outcome_state
                  (apply_config_live now update e v p d ∙ ap (apply_generated lib now update) q),
              accepted_live update v p d ∙ h,
            )
          ]
        ]
      ]

  length-snoc :
      (log : List VersionRecord) (r : VersionRecord) → length (log ++ (r ∷ [])) ≡ suc (length log)
  length-snoc log r = omega (arith, length-append log (r ∷ []))

  run-Implements_from :
      (calls : List Call) (m : ℕ) (e : EngineV2 C) (log : List VersionRecord)
      → Implements m e log
      → Implements m (run calls e) (log ++ log_of (length log) calls)
  unfolding process_user_config rollback_config register_hook
  run-Implements_from [] m e log h = subst (Implements m e) (sym (append-nil log)) h
  run-Implements_from (apply now update ∷ cs) m e log h =
      let after : EngineV2 C → Option Str → Type 0 = λ e' o.
        Implements m (run cs e') (log ++ extend now update (length log) (λ m. log_of m cs) o) in
      elim (apply_config_cases now update e) [
        | inl (s, _, a) ↦
            subst (after (apply_config lib now update e).0) (sym a)
              (subst (λ e'. after e' none) (sym s) (run-Implements_from cs m e log h))
        | inr (c, otel, g, s, a) ↦
            let r : VersionRecord = new_record now update g.hash (suc (length log)) in
            let e' : EngineV2 C = add_version now update g (stored c otel e) in
            subst (after (apply_config lib now update e).0) (sym a) (
              subst (λ e'. after e' (some g.hash)) (sym s)
                (subst (Implements m (run cs e'))
                  (append_assoc log (r ∷ []) (log_of (length (log ++ (r ∷ []))) cs)
                    ∙ ap (λ n. log ++ (r ∷ log_of n cs)) (length-snoc log r))
                  (run-Implements_from cs m e' (log ++ (r ∷ []))
                    (add_version-Implements now update g m (stored c otel e) log h))))
      ]
  run-Implements_from (generate now text ∷ cs) m e log h =
      elim (process_user_config_cases now text e) [
        | inl (err, q, _) ↦
            subst (λ o. Implements m (run cs o.0) (log ++ log_of (length log) cs)) (sym q)
              (run-Implements_from cs m e log h)
        | inr (c, otel, g, q, _) ↦
            subst (λ o. Implements m (run cs o.0) (log ++ log_of (length log) cs)) (sym q)
              (run-Implements_from cs m (stored c otel e) log h)
      ]
  run-Implements_from (rollback version ∷ cs) m e log h =
      run-Implements_from cs m (rollback_config version e).0 log (
        if_both {A = EngineV2 C × Option EngineError} (λ o. Implements m o.0 log)
          (has_version e.versions version) _ _ h h)
  run-Implements_from (register hook ∷ cs) m e log h =
      run-Implements_from cs m (register_hook hook e) log h

  new_engine_v2-Implements :
      (cfg : ConfigV2) → Implements {C = C} (max_of cfg) (new_engine_v2 cfg) []
  unfolding new_engine_v2
  new_engine_v2-Implements cfg = (
    refl,
    (ground arith, refl, tt, ap versions_of (sym (drop_nil _)), ap keyed (sym (drop_nil _))),
  )

  pub run-Implements :
      (cfg : ConfigV2) (calls : List Call)
      → Implements (max_of cfg) (run calls (new_engine_v2 cfg)) (log_of 0 calls)
  run-Implements cfg calls =
      run-Implements_from calls (max_of cfg) (new_engine_v2 cfg) [] (new_engine_v2-Implements cfg)

  -- After any calls, the version history is the end of the list of all updates that were accepted,
  -- numbered from 1 on: of the last ones that the engine keeps, as many as are asked for.
  pub get_version_history_lem :
      (cfg : ConfigV2) (calls : List Call) (limit : ℕ)
      → get_version_history limit (run calls (new_engine_v2 cfg))
        ≡ suffix limit (versions_of (suffix (max_of cfg) (log_of 0 calls)))
  unfolding get_version_history
  get_version_history_lem cfg calls limit =
      let h : Implements (max_of cfg) (run calls (new_engine_v2 cfg)) (log_of 0 calls) =
        run-Implements cfg calls in
      ap (suffix limit) (h.1.3 ∙ ap (λ m. versions_of (suffix m (log_of 0 calls))) h.0)

  export_config_current :
      (e : EngineV2 C) (r : VersionRecord)
      → lookup ℕ_discrete e.current_version e.version_map ≡ some r
      → 1 ≤ e.current_version
      → export_config (codes "yaml") e ≡ ok r.user_config
  unfolding export_config str_eq Str-discrete ℕ_discrete
  export_config_current e r l pos =
      if_false (e.current_version == 0) _ _ (ground (arith, pos))
      ∙ ap (export_record (codes "yaml") e.current_version) l

  -- A new version is exported as it was applied, whatever calls came before.
  pub export_config-apply_config :
      (cfg : ConfigV2) (calls : List Call) (now : ℕ) (update : ConfigUpdate) (hash : Str)
      → accepted update ≡ some hash
      → export_config (codes "yaml") (apply_config lib now update (run calls (new_engine_v2 cfg))).0
        ≡ ok update.config
  export_config-apply_config cfg calls now update hash a =
      let e : EngineV2 C = run calls (new_engine_v2 cfg) in
      elim (apply_config_cases now update e) [
        | inl (_, _, b) ↦ absurd (ground (arith, a, b))
        | inr (c, otel, g, s, _) ↦
            let e' : EngineV2 C = add_version now update g (stored c otel e) in
            let h =
              add_version-Implements now update g (max_of cfg) (stored c otel e) (log_of 0 calls)
                (run-Implements cfg calls) in
            subst (λ e'. export_config (codes "yaml") e' ≡ ok update.config) (sym s)
              (export_config_current e' _ (lookup-current (max_of cfg) e' (log_of 0 calls) _ h) (
                omega (
                  arith,
                  h.1.1,
                  length-snoc (log_of 0 calls)
                      (new_record now update g.hash (suc (length (log_of 0 calls)))),
                )))
      ]

  -- An update that is not accepted, as a dry run is not, gets no version and leaves the engine as it was.
  pub apply_config_refused :
      (now : ℕ) (update : ConfigUpdate) (e : EngineV2 C)
      → accepted update ≡ none
      → ((apply_config lib now update e).0 ≡ e) × ((apply_config lib now update e).1.version ≡ 0)
  apply_config_refused now update e a = elim (apply_config_cases now update e) [
    | inl (s, v, _) ↦ (s, v)
    | inr (c, otel, g, _, b) ↦ absurd (ground (arith, a, b))
  ]
