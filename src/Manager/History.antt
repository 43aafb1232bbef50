-- ===== src/Manager/History.antt =====
-- The version history of nrdot-config-engine/manager.go, and what the engine told its hooks.
use nrdot_host.Common.{
  ℕ, ◌≡◌, refl, sym, ap, ◌∙◌, List, [], ◌∷◌, ◌++◌, map, length, drop, true, false, not, Bool,
  if_split, Option, none, some, Str,
}
use mathlib.Core.List.{append_assoc, append-nil}
use nrdot_host.Engine.Log.{suffix, drop_nil}
use nrdot_host.Manager.Suffix.{of_version, of_event}
use nrdot_host.Manager.Follows.{
  Told, Outcome, Follows, Follows-self, Follows-trans, record_processed-Follows,
  process_config-Outcome,
}
use nrdot_host.Manager.{
  ChangeEvent, FirstEngine, Tools, Disk, ProcessError, process_config, Manager, new_manager,
  StartError, process_file, process_files, config_files, process_walked, process_stat,
  process_initial_config, process_paths, start_manager, handle_file_change, stop_manager,
  version_history, Command, on_start, on_stop, on_change, perform, perform_all,
}

drop-length : (xs ys : List ChangeEvent) → drop (length xs) (xs ++ ys) ≡ ys
drop-length [] ys = refl
drop-length (x ∷ xs) ys = drop-length xs ys

module _ {C O : Type 0} (tools : Tools C O) where
  process_file-Follows :
      (disk : Disk) (path : Str) (m : Manager)
      → m.engine.dry_run ≡ false
      → Follows m (process_file tools disk path m).0
  unfolding process_file
  process_file-Follows disk path m h =
      record_processed-Follows disk path m (process_config tools disk path m.engine)
        (process_config-Outcome disk path m.engine h tools)

  process_files-Follows :
      (disk : Disk) (paths : List Str) (m : Manager)
      → m.engine.dry_run ≡ false
      → Follows m (process_files tools disk paths m)
  unfolding process_files
  process_files-Follows disk [] m h = Follows-self m h
  process_files-Follows disk (path ∷ paths) m h =
      let first = process_file-Follows disk path m h in
      Follows-trans m (process_file tools disk path m).0
        (process_files tools disk paths (process_file tools disk path m).0) first
        (process_files-Follows disk paths (process_file tools disk path m).0 first.0)

  process_stat-Follows :
      (disk : Disk) (path : Str) (o : Option Bool) (m : Manager)
      → m.engine.dry_run ≡ false
      → Follows m (process_stat tools disk path o m).0
  process_stat-Follows disk path none m h = Follows-self m h
  process_stat-Follows disk path (some false) m h = process_file-Follows disk path m h
  process_stat-Follows disk path (some true) m h =
      elim (disk.walk path) as (λ w. Follows m (process_walked tools disk w m).0) [
        | none ↦ Follows-self m h
        | some paths ↦ process_files-Follows disk (config_files paths) m h
      ]

  process_paths-Follows :
      (paths : List (Disk × Str)) (m : Manager)
      → m.engine.dry_run ≡ false
      → Follows m (process_paths tools paths m)
  unfolding process_paths process_initial_config
  process_paths-Follows [] m h = Follows-self m h
  process_paths-Follows ((disk, path) ∷ paths) m h =
      let first = process_stat-Follows disk path (disk.is_dir path) m h in
      Follows-trans m (process_stat tools disk path (disk.is_dir path) m).0
        (process_paths tools paths (process_stat tools disk path (disk.is_dir path) m).0) first
        (process_paths-Follows paths (process_stat tools disk path (disk.is_dir path) m).0 first.0)

  start-Follows :
      (paths : List (Disk × Str)) (m : Manager)
      → m.engine.dry_run ≡ false
      → Follows m (start_manager tools paths m).0
  unfolding start_manager
  start-Follows paths m h =
      if_split (λ (r : Manager × Option StartError). Follows m r.0) m.running _ _
        (λ b. Follows-self m h) (λ b. process_paths-Follows paths (record m { running = true }) h)

  stop-Told :
      (closed : Bool) (m : Manager) (log : List ChangeEvent)
      → (m.engine.dry_run ≡ false) × Told log m
      → ((stop_manager closed m).0.engine.dry_run ≡ false) × Told log (stop_manager closed m).0
  unfolding stop_manager
  stop-Told closed m log h =
      if_split (λ (r : Manager × Bool). (r.0.engine.dry_run ≡ false) × Told log r.0) (not m.running)
        _ _ (λ b. h)
        (λ b.
          if_split (λ (r : Manager × Bool). (r.0.engine.dry_run ≡ false) × Told log r.0)
            (not closed) _ _ (λ b. h) (λ b. h))

  Outcome-live :
      (e : FirstEngine) (path : Str) (r : FirstEngine × Option ProcessError)
      → Outcome e path r
      → r.0.dry_run ≡ false
  Outcome-live e path (e', none) h = h.0
  Outcome-live e path (e', some err) h = h.0

  change-live :
      (disk : Disk) (path : Str) (m : Manager)
      → m.engine.dry_run ≡ false
      → (handle_file_change tools disk path m).engine.dry_run ≡ false
  unfolding handle_file_change
  change-live disk path m h =
      Outcome-live m.engine path (process_config tools disk path m.engine)
        (process_config-Outcome disk path m.engine h tools)

  change-Told :
      (disk : Disk) (path : Str) (m : Manager) (log : List ChangeEvent)
      → Told log m
      → Told log (handle_file_change tools disk path m)
  unfolding handle_file_change
  change-Told disk path m log t = t

  -- The changes that the hooks are told of during the starts, one after the other, and not those that
  -- they are told of when a watched file changes.
  abbrev pub told_at_starts : List Command → Manager → List ChangeEvent
  told_at_starts [] m = []
  told_at_starts (on_start paths ∷ cs) m =
      let m' = perform tools (on_start paths) m in
      drop (length m.engine.notified) m'.engine.notified ++ told_at_starts cs m'
  told_at_starts (on_stop closed ∷ cs) m = told_at_starts cs (perform tools (on_stop closed) m)
  told_at_starts (on_change disk path ∷ cs) m =
      told_at_starts cs (perform tools (on_change disk path) m)

  perform_all-Told :
      (cs : List Command) (m : Manager) (log : List ChangeEvent)
      → (m.engine.dry_run ≡ false) × Told log m
      → Told (log ++ told_at_starts cs m) (perform_all tools cs m)
  perform_all-Told [] m log (l, t) =
      t ∙ ap (λ es. suffix m.max_versions (map of_event es)) (sym (append-nil log))
  perform_all-Told (on_start paths ∷ cs) m log (l, t) =
      let m' = (start_manager tools paths m).0 in
      let (k, (new, p, f)) = start-Follows paths m l in
      let is_new : drop (length m.engine.notified) m'.engine.notified ≡ new =
        ap (drop (length m.engine.notified)) p ∙ drop-length m.engine.notified new in
      let last = perform_all tools cs m' in
      perform_all-Told cs m' (log ++ new) (k, f log t)
      ∙ ap (λ es. suffix last.max_versions (map of_event es))
          (append_assoc log new (told_at_starts cs m')
            ∙ ap (λ es. log ++ (es ++ told_at_starts cs m')) (sym is_new))
  perform_all-Told (on_stop closed ∷ cs) m log h =
      perform_all-Told cs (stop_manager closed m).0 log (stop-Told closed m log h)
  perform_all-Told (on_change disk path ∷ cs) m log (l, t) =
      perform_all-Told cs (handle_file_change tools disk path m) log
        (change-live disk path m l, change-Told disk path m log t)

-- After any starts, stops and changes of watched files, whatever fails, the version history of a new
-- manager that is not a dry run has, with path and version, exactly the last of the changes that the
-- hooks were told of during the starts, as many as the manager keeps. Those that the hooks were told of
-- when a file changed are not among them.
pub version_history_lem :
    {C O : Type 0} (tools : Tools C O) (max : ℕ) (cs : List Command)
    → let first = new_manager max false in
      let m = perform_all tools cs first in
      map of_version (version_history m)
      ≡ suffix m.max_versions (map of_event (told_at_starts tools cs first))
unfolding version_history new_manager
version_history_lem tools max cs =
    perform_all-Told tools cs (new_manager max false) [] (refl, sym (drop_nil _))
