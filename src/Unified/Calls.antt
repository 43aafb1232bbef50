-- ===== src/Unified/Calls.antt =====
-- The supervisor after any sequence of calls, requests, ends of contexts and ends of processes.
use nrdot_host.Common.{
  ℕ, ◌≡◌, refl, sym, ap, subst, ◌∙◌, List, [], ◌∷◌, map, if_split, if_both, Option, none, some,
  ◌==◌, Str,
}
use nrdot_host.Engine.{Library, EngineV2, ConfigUpdate, ConfigResult, EngineError, apply_config}
use nrdot_host.Unified.Process.{
  Child, Os, CollectorProcess, ProcessError, Exit, kill_with, end_child, context_ends, process_ends,
  stop, is_running,
}
use nrdot_host.Unified.{
  UnifiedSupervisor, SupervisorError, StartEnv, start_collector, stop_collector, restart_collector,
  check_health, load_configuration, load_result, file_update, start_supervisor, start_loaded,
  supervisor_apply_config, collector_runs,
}
use nrdot_host.Unified.Owned.{
  OwnedBy, Owned, OwnedIn, start_collector-OwnedIn, stop_collector-OwnedIn,
  restart_collector-OwnedIn, check_health-OwnedIn, stop-OwnedBy,
}
use nrdot_host.Unified.BlueGreen.{Done-OwnedIn, blue_green_reload-Done}
use nrdot_host.Unified.Reload.{
  ReloadStrategy, blue_green, graceful, in_place, rolling, ReloadEnv, ReloadResult, Reloaded,
  reload_collector, strategy_reload_collector, by_strategy, blue_green_reload, graceful_reload,
  graceful_from, graceful_started, graceful_stopped, rollback_start, first_result, in_place_reload,
  note_reload, handle_reload, answer_reload, count_request, handle_restart, answer_restart,
}

pub data Call : Type 0 where
  start_all : ℕ → StartEnv → Option Str → Call
  start_one : ℕ → StartEnv → Call
  stop_one : Exit → Call
  check : ℕ → StartEnv → Call
  apply : ℕ → ConfigUpdate → Call
  reload : ReloadStrategy → ℕ → ReloadEnv → Call
  request_reload : ℕ → ReloadEnv → Call
  request_restart : Exit → ℕ → StartEnv → Call
  end_context : ℕ → Call
  end_process : ℕ → Call

abbrev pub in_os : {C : Type 0} → (Os → Os) → UnifiedSupervisor C → UnifiedSupervisor C
in_os f s = record s { os = f s.os }

module _ {C O : Type 0} (lib : Library C O) where
  abbrev pub step : Call → UnifiedSupervisor C → UnifiedSupervisor C
  step (start_all context env file) s = (start_supervisor lib context env file s).0
  step (start_one context env) s = (start_collector lib context env s).0
  step (stop_one exit) s = (stop_collector lib exit s).0
  step (check context env) s = check_health lib context env s
  step (apply now update) s = (supervisor_apply_config lib now update s).0
  step (reload strategy context env) s = (reload_collector lib strategy context env s).0
  step (request_reload context env) s = (handle_reload lib context env s).0
  step (request_restart exit context env) s = (handle_restart lib exit context env s).0
  step (end_context context) s = in_os (context_ends context) s
  step (end_process pid) s = in_os (process_ends pid) s

  abbrev pub run : List Call → UnifiedSupervisor C → UnifiedSupervisor C
  run [] s = s
  run (c ∷ cs) s = run cs (step c s)

-- What keeps the identifiers of the children keeps whose they are.
map-OwnedBy :
    (f : Child → Child) (cmd : Option ℕ) (os : Os)
    → ((child : Child) → (f child).pid ≡ child.pid)
    → OwnedBy cmd os
    → OwnedBy cmd (record os { children = map f os.children })
map-OwnedBy f none os k h = ap (map f) h
map-OwnedBy f (some pid) os k (lt, (child, cs, p)) = (lt, (f child, ap (map f) cs, k child ∙ p))

map-Owned :
    (f : Child → Child) (oc : Option CollectorProcess) (os : Os)
    → ((child : Child) → (f child).pid ≡ child.pid)
    → Owned oc os
    → Owned oc (record os { children = map f os.children })
map-Owned f none os k h = ap (map f) h
map-Owned f (some c) os k h = map-OwnedBy f c.cmd os k h

kill_with_pid : (context : ℕ) (child : Child) → (kill_with context child).pid ≡ child.pid
kill_with_pid context child =
    if_both {A = Child} (λ c. c.pid ≡ child.pid) (child.context == context) _ _ refl refl

end_child_pid : (pid : ℕ) (child : Child) → (end_child pid child).pid ≡ child.pid
end_child_pid pid child =
    if_both {A = Child} (λ c. c.pid ≡ child.pid) (child.pid == pid) _ _ refl refl

module _ {C O : Type 0} (lib : Library C O) where
  load_result-OwnedIn :
      (s : UnifiedSupervisor C) (o : EngineV2 C × ConfigResult × Option EngineError)
      → OwnedIn s
      → OwnedIn (load_result lib s o).0
  load_result-OwnedIn s (e, result, some _) h = h
  load_result-OwnedIn s (e, result, none) h =
      if_both {A = UnifiedSupervisor C × Option SupervisorError} (λ o. OwnedIn o.0) result.success _
        _ h h

  load_configuration-OwnedIn :
      (now : ℕ) (file : Option Str) (s : UnifiedSupervisor C)
      → OwnedIn s
      → OwnedIn (load_configuration lib now file s).0
  unfolding load_configuration
  load_configuration-OwnedIn now none s h = h
  load_configuration-OwnedIn now (some bytes) s h =
      load_result-OwnedIn s (apply_config lib now (file_update bytes) s.config_engine) h

  start_loaded-OwnedIn :
      (context : ℕ) (env : StartEnv) (o : UnifiedSupervisor C × Option SupervisorError)
      → OwnedIn o.0
      → OwnedIn (start_loaded lib context env o).0
  start_loaded-OwnedIn context env (s, some err) h = h
  start_loaded-OwnedIn context env (s, none) h = start_collector-OwnedIn lib context env s h

  graceful_started-OwnedIn :
      (context : ℕ) (env : ReloadEnv) (result : ReloadResult)
      (o : UnifiedSupervisor C × Option SupervisorError)
      → OwnedIn o.0
      → OwnedIn (graceful_started lib context env result o).0
  unfolding rollback_start
  graceful_started-OwnedIn context env result (s, some err) h =
      start_collector-OwnedIn lib context env.rollback s h
  graceful_started-OwnedIn context env result (s, none) h = h

  graceful_stopped-OwnedIn :
      (context : ℕ) (env : ReloadEnv) (result : ReloadResult) (s : UnifiedSupervisor C)
      (o : CollectorProcess × Os × Option ProcessError)
      → OwnedBy o.0.cmd o.1
      → OwnedIn (graceful_stopped lib context env result s o).0
  graceful_stopped-OwnedIn context env result s (c, os, some err) h = h
  graceful_stopped-OwnedIn context env result s (c, os, none) h =
      graceful_started-OwnedIn context env result _
        (start_collector-OwnedIn lib context env.first_start _ h)

  graceful_from-OwnedIn :
      (context : ℕ) (env : ReloadEnv) (result : ReloadResult) (oc : Option CollectorProcess)
      (s : UnifiedSupervisor C)
      → oc ≡ s.collector
      → OwnedIn s
      → OwnedIn (graceful_from lib context env result oc s).0
  graceful_from-OwnedIn context env result none s e h =
      graceful_started-OwnedIn context env result _
        (start_collector-OwnedIn lib context env.first_start s h)
  graceful_from-OwnedIn context env result (some c) s e h =
      let own : OwnedBy c.cmd s.os = subst (λ oc. Owned oc s.os) (sym e) h in
      if_split {A = Reloaded C} (λ o. OwnedIn o.0) (is_running c s.os) _ _
        (λ r.
          graceful_stopped-OwnedIn context env result s (stop env.stop_old c s.os)
            (stop-OwnedBy env.stop_old c s.os own r))
        (λ _.
          graceful_started-OwnedIn context env result _
            (start_collector-OwnedIn lib context env.first_start s h))

  blue_green_reload-OwnedIn :
      (context : ℕ) (env : ReloadEnv) (result : ReloadResult) (s : UnifiedSupervisor C)
      → OwnedIn s
      → OwnedIn (blue_green_reload lib context env result s).0
  blue_green_reload-OwnedIn context env result s h =
      Done-OwnedIn context s (blue_green_reload lib context env result s)
        (blue_green_reload-Done lib context env result s h) h

  by_strategy-OwnedIn :
      (strategy : ReloadStrategy) (context : ℕ) (env : ReloadEnv) (result : ReloadResult)
      (s : UnifiedSupervisor C)
      → OwnedIn s
      → OwnedIn (by_strategy lib strategy context env result s).0
  unfolding graceful_reload in_place_reload
  by_strategy-OwnedIn blue_green context env result s h =
      blue_green_reload-OwnedIn context env result s h
  by_strategy-OwnedIn graceful context env result s h =
      graceful_from-OwnedIn context env result s.collector s refl h
  by_strategy-OwnedIn in_place context env result s h =
      if_both {A = Reloaded C} (λ o. OwnedIn o.0) (collector_runs s.collector s.os) _ _
        (blue_green_reload-OwnedIn context env result s h) h
  by_strategy-OwnedIn rolling context env result s h = h

  note_reload-OwnedIn :
      (env : ReloadEnv) (o : Reloaded C) → OwnedIn o.0 → OwnedIn (note_reload lib env o).0
  note_reload-OwnedIn env (s, result, some err) h = h
  note_reload-OwnedIn env (s, none, none) h = h
  note_reload-OwnedIn env (s, some result, none) h = h

  reload_collector-OwnedIn :
      (strategy : ReloadStrategy) (context : ℕ) (env : ReloadEnv) (s : UnifiedSupervisor C)
      → OwnedIn s
      → OwnedIn (reload_collector lib strategy context env s).0
  unfolding reload_collector strategy_reload_collector
  reload_collector-OwnedIn strategy context env s h =
      note_reload-OwnedIn env (strategy_reload_collector lib strategy context env s)
        (by_strategy-OwnedIn strategy context env (first_result lib s) s h)

  answer_reload-OwnedIn : (o : Reloaded C) → OwnedIn o.0 → OwnedIn (answer_reload lib o).0
  answer_reload-OwnedIn (s, result, some err) h = h
  answer_reload-OwnedIn (s, result, none) h = h

  answer_restart-OwnedIn :
      (o : UnifiedSupervisor C × Option SupervisorError)
      → OwnedIn o.0
      → OwnedIn (answer_restart lib o).0
  answer_restart-OwnedIn (s, some err) h = h
  answer_restart-OwnedIn (s, none) h = h

  step-OwnedIn : (c : Call) (s : UnifiedSupervisor C) → OwnedIn s → OwnedIn (step lib c s)
  unfolding handle_reload handle_restart start_supervisor supervisor_apply_config
  step-OwnedIn (start_all context env file) s h =
      start_loaded-OwnedIn context env (load_configuration lib env.now file s)
        (load_configuration-OwnedIn env.now file s h)
  step-OwnedIn (start_one context env) s h = start_collector-OwnedIn lib context env s h
  step-OwnedIn (stop_one exit) s h = stop_collector-OwnedIn lib exit s h
  step-OwnedIn (check context env) s h = check_health-OwnedIn lib context env s h
  step-OwnedIn (apply now update) s h = h
  step-OwnedIn (reload strategy context env) s h = reload_collector-OwnedIn strategy context env s h
  step-OwnedIn (request_reload context env) s h =
      answer_reload-OwnedIn (reload_collector lib blue_green context env (count_request lib s))
        (reload_collector-OwnedIn blue_green context env (count_request lib s) h)
  step-OwnedIn (request_restart exit context env) s h =
      answer_restart-OwnedIn (restart_collector lib exit context env (count_request lib s))
        (restart_collector-OwnedIn lib exit context env (count_request lib s) h)
  step-OwnedIn (end_context context) s h =
      map-Owned (kill_with context) s.collector s.os (kill_with_pid context) h
  step-OwnedIn (end_process pid) s h =
      map-Owned (end_child pid) s.collector s.os (end_child_pid pid) h

  -- If at first the children are the collector's process, or none, they are after any sequence of calls
  -- that are made one after the other, whatever fails: no process is left behind.
  pub run-OwnedIn :
      (calls : List Call) (s : UnifiedSupervisor C) → OwnedIn s → OwnedIn (run lib calls s)
  run-OwnedIn [] s h = h
  run-OwnedIn (c ∷ cs) s h = run-OwnedIn cs (step lib c s) (step-OwnedIn c s h)
