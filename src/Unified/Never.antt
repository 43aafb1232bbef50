-- ===== src/Unified/Never.antt =====
-- The collector is configured from no user configuration: what follows where the validator refuses that.
use nrdot_host.Common.{ℕ, ◌≡◌, sym, ap, subst, List, [], ◌∷◌, map, if_both, Option, none, some, Str}
use nrdot_host.Engine.{
  Library, EngineV2, ConfigResult, EngineError, Result, ok, failed, validation_failed,
  generate_validated, process_user_config, apply_config, get_current_config,
}
use nrdot_host.Unified.Process.{Exit, kill_with, end_child}
use nrdot_host.Unified.{
  UnifiedSupervisor, SupervisorError, StartEnv, start_generated, start_collector, stop_collector,
  stop_if, restart_collector, stop_quietly, check_health, check_collector, load_configuration,
  load_result, file_update, start_supervisor, start_loaded, supervisor_apply_config, collector_runs,
}
use nrdot_host.Unified.Reload.{
  ReloadStrategy, blue_green, graceful, in_place, rolling, ReloadEnv, ReloadResult, Reloaded,
  first_result, reload_collector, strategy_reload_collector, by_strategy, blue_green_reload,
  reload_current, reload_generated, graceful_reload, graceful_from, graceful_started,
  rollback_start, in_place_reload, note_reload, handle_reload, answer_reload, count_request,
  handle_restart, answer_restart,
}
use nrdot_host.Unified.Calls.{
  Call, start_all, start_one, stop_one, check, apply, reload, request_reload, request_restart,
  end_context, end_process, step, run,
}

-- There is no collector, and no process.
abbrev pub Idle : {C : Type 0} → UnifiedSupervisor C → Type 0
Idle s = (s.collector ≡ none) × (s.os.children ≡ [])

module _ {C O : Type 0} (lib : Library C O) (refuses : lib.validate [] ≡ none) where
  process_user_config_nil :
      (now : ℕ) (e : EngineV2 C) → process_user_config lib now [] e ≡ (e, failed validation_failed)
  unfolding process_user_config
  process_user_config_nil now e = ap (λ o. generate_validated lib now o e) refuses

  start_collector-Idle :
      (context : ℕ) (env : StartEnv) (s : UnifiedSupervisor C)
      → Idle s
      → Idle (start_collector lib context env s).0
  unfolding start_collector
  start_collector-Idle context env s h =
      if_both {A = UnifiedSupervisor C × Option SupervisorError} (λ o. Idle o.0)
        (collector_runs s.collector s.os) _ _ h
        (subst (λ o. Idle (start_generated lib context env o s).0)
          (sym (process_user_config_nil env.now s.config_engine)) h)

  stop_collector-Idle :
      (exit : Exit) (s : UnifiedSupervisor C) → Idle s → Idle (stop_collector lib exit s).0
  unfolding stop_collector
  stop_collector-Idle exit s h = subst (λ oc. Idle (stop_if lib exit oc s).0) (sym h.0) h

  restart_collector-Idle :
      (exit : Exit) (context : ℕ) (env : StartEnv) (s : UnifiedSupervisor C)
      → Idle s
      → Idle (restart_collector lib exit context env s).0
  unfolding restart_collector
  restart_collector-Idle exit context env s h =
      start_collector-Idle context env (stop_quietly lib exit s.collector s)
        (subst (λ oc. Idle (stop_quietly lib exit oc s)) (sym h.0) h)

  check_health-Idle :
      (context : ℕ) (env : StartEnv) (s : UnifiedSupervisor C)
      → Idle s
      → Idle (check_health lib context env s)
  unfolding check_health
  check_health-Idle context env s h =
      subst (λ oc. Idle (check_collector lib context env oc s)) (sym h.0) h

  load_result-Idle :
      (s : UnifiedSupervisor C) (o : EngineV2 C × ConfigResult × Option EngineError)
      → Idle s
      → Idle (load_result lib s o).0
  load_result-Idle s (e, result, some _) h = h
  load_result-Idle s (e, result, none) h =
      if_both {A = UnifiedSupervisor C × Option SupervisorError} (λ o. Idle o.0) result.success _ _
        h h

  load_configuration-Idle :
      (now : ℕ) (file : Option Str) (s : UnifiedSupervisor C)
      → Idle s
      → Idle (load_configuration lib now file s).0
  unfolding load_configuration
  load_configuration-Idle now none s h = h
  load_configuration-Idle now (some bytes) s h =
      load_result-Idle s (apply_config lib now (file_update bytes) s.config_engine) h

  start_loaded-Idle :
      (context : ℕ) (env : StartEnv) (o : UnifiedSupervisor C × Option SupervisorError)
      → Idle o.0
      → Idle (start_loaded lib context env o).0
  start_loaded-Idle context env (s, some err) h = h
  start_loaded-Idle context env (s, none) h = start_collector-Idle context env s h

  graceful_started-Idle :
      (context : ℕ) (env : ReloadEnv) (result : ReloadResult)
      (o : UnifiedSupervisor C × Option SupervisorError)
      → Idle o.0
      → Idle (graceful_started lib context env result o).0
  unfolding rollback_start
  graceful_started-Idle context env result (s, some err) h =
      start_collector-Idle context env.rollback s h
  graceful_started-Idle context env result (s, none) h = h

  reload_current-Idle :
      (context : ℕ) (env : ReloadEnv) (result : ReloadResult) (o : Result C)
      (s : UnifiedSupervisor C)
      → Idle s
      → Idle (reload_current lib context env result o s).0
  reload_current-Idle context env result (failed _) s h = h
  reload_current-Idle context env result (ok _) s h =
      subst (λ o. Idle (reload_generated lib context env result o s).0)
        (sym (process_user_config_nil env.now s.config_engine)) h

  by_strategy-Idle :
      (strategy : ReloadStrategy) (context : ℕ) (env : ReloadEnv) (result : ReloadResult)
      (s : UnifiedSupervisor C)
      → Idle s
      → Idle (by_strategy lib strategy context env result s).0
  unfolding graceful_reload in_place_reload blue_green_reload
  by_strategy-Idle blue_green context env result s h =
      reload_current-Idle context env result (get_current_config s.config_engine) s h
  by_strategy-Idle graceful context env result s h =
      subst (λ oc. Idle (graceful_from lib context env result oc s).0) (sym h.0)
        (graceful_started-Idle context env result (start_collector lib context env.first_start s)
          (start_collector-Idle context env.first_start s h))
  by_strategy-Idle in_place context env result s h =
      if_both {A = Reloaded C} (λ o. Idle o.0) (collector_runs s.collector s.os) _ _
        (reload_current-Idle context env result (get_current_config s.config_engine) s h) h
  by_strategy-Idle rolling context env result s h = h

  note_reload-Idle : (env : ReloadEnv) (o : Reloaded C) → Idle o.0 → Idle (note_reload lib env o).0
  note_reload-Idle env (s, result, some err) h = h
  note_reload-Idle env (s, none, none) h = h
  note_reload-Idle env (s, some result, none) h = h

  reload_collector-Idle :
      (strategy : ReloadStrategy) (context : ℕ) (env : ReloadEnv) (s : UnifiedSupervisor C)
      → Idle s
      → Idle (reload_collector lib strategy context env s).0
  unfolding reload_collector strategy_reload_collector
  reload_collector-Idle strategy context env s h =
      note_reload-Idle env (strategy_reload_collector lib strategy context env s)
        (by_strategy-Idle strategy context env (first_result lib s) s h)

  answer_reload-Idle : (o : Reloaded C) → Idle o.0 → Idle (answer_reload lib o).0
  answer_reload-Idle (s, result, some err) h = h
  answer_reload-Idle (s, result, none) h = h

  answer_restart-Idle :
      (o : UnifiedSupervisor C × Option SupervisorError) → Idle o.0 → Idle (answer_restart lib o).0
  answer_restart-Idle (s, some err) h = h
  answer_restart-Idle (s, none) h = h

  step-Idle : (c : Call) (s : UnifiedSupervisor C) → Idle s → Idle (step lib c s)
  unfolding handle_reload handle_restart start_supervisor supervisor_apply_config
  step-Idle (start_all context env file) s h =
      start_loaded-Idle context env (load_configuration lib env.now file s)
        (load_configuration-Idle env.now file s h)
  step-Idle (start_one context env) s h = start_collector-Idle context env s h
  step-Idle (stop_one exit) s h = stop_collector-Idle exit s h
  step-Idle (check context env) s h = check_health-Idle context env s h
  step-Idle (apply now update) s h = h
  step-Idle (reload strategy context env) s h = reload_collector-Idle strategy context env s h
  step-Idle (request_reload context env) s h =
      answer_reload-Idle (reload_collector lib blue_green context env (count_request lib s))
        (reload_collector-Idle blue_green context env (count_request lib s) h)
  step-Idle (request_restart exit context env) s h =
      answer_restart-Idle (restart_collector lib exit context env (count_request lib s))
        (restart_collector-Idle exit context env (count_request lib s) h)
  step-Idle (end_context context) s h = (h.0, ap (map (kill_with context)) h.1)
  step-Idle (end_process pid) s h = (h.0, ap (map (end_child pid)) h.1)

  -- If the validator refuses an empty text, a supervisor without a collector never starts one, whatever
  -- is called and whatever configuration is applied.
  pub run-Idle : (calls : List Call) (s : UnifiedSupervisor C) → Idle s → Idle (run lib calls s)
  run-Idle [] s h = h
  run-Idle (c ∷ cs) s h = run-Idle cs (step lib c s) (step-Idle c s h)
