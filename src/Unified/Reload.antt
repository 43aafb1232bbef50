-- ===== src/Unified/Reload.antt =====
-- nrdot-supervisor/reload_strategy.go, and the reload and restart requests of supervisor_v2.go.
use nrdot_host.Common.{
  ℕ, zero, suc, [], ◌∷◌, Bool, true, false, Option, none, some, if◌then◌else◌, Str,
}
use nrdot_host.Engine.{
  Library, EngineV2, GeneratedConfig, Result, ok, failed, process_user_config, get_current_config,
}
use nrdot_host.Unified.Process.{
  config_new_yaml, Os, write_file, CollectorProcess, ProcessError, Spawn, start, Exit, stop,
  is_running, context_ends,
}
use nrdot_host.Unified.{
  UnifiedSupervisor, SupervisorError, no_config, generate_failed, write_failed, unhealthy_collector,
  no_collector, unsupported_strategy, process_failed, Write, written, not_written, StartEnv,
  collector_runs, new_collector, start_collector, restart_collector,
}

pub data ReloadStrategy : Type 0 where
  blue_green graceful in_place rolling : ReloadStrategy

pub record ReloadResult : Type 0 where
  pub success : Bool
  pub old_version : ℕ
  pub new_version : ℕ

-- What is met at a reload: `ticks` is the number of ticks before the context of the health check ends,
-- and `removed` whether the new configuration file can be removed.
pub record ReloadEnv : Type 0 where
  pub now : ℕ
  pub write : Write
  pub spawn : Spawn
  pub ticks : ℕ
  pub stop_new : Exit
  pub stop_old : Exit
  pub removed : Bool
  pub first_start : StartEnv
  pub rollback : StartEnv

-- `false` is the error of the context.
unfoldable pub wait_for_health : ℕ → CollectorProcess → Os → Bool
wait_for_health zero c os = false
wait_for_health (suc ticks) c os =
    let r = wait_for_health ticks c os in if is_running c os then true else r

abbrev pub Reloaded : Type 0 → Type 0
Reloaded C = UnifiedSupervisor C × Option ReloadResult × Option SupervisorError

abbrev pub refused :
    {C : Type 0} → ReloadResult → SupervisorError → UnifiedSupervisor C → Reloaded C
refused result err s = (s, some (record result { success = false }), some err)

-- `defer os.Remove(tmpConfig)`: its error is ignored, and the file stays then.
abbrev pub remove_new_config : Bool → Os → Os
remove_new_config removed os =
    write_file config_new_yaml (if removed then none else os.new_config_file) os

abbrev pub stop_old_collector : Exit → Option CollectorProcess → Os → Os
stop_old_collector exit none os = os
stop_old_collector exit (some c) os = if is_running c os then (stop exit c os).1 else os

abbrev pub switch :
    {C : Type 0}
    → ReloadEnv
    → ReloadResult
    → CollectorProcess
    → Os
    → UnifiedSupervisor C
    → Reloaded C
switch env result new os s =
    let version = suc s.status.config_version in
    (
      record s {
        collector = some new;
        status = record s.status { config_version = version; last_config_load = env.now };
        os = remove_new_config env.removed (stop_old_collector env.stop_old s.collector os);
      },
      some (record result { success = true; new_version = version }),
      none,
    )

abbrev pub judge_new :
    {C : Type 0}
    → ReloadEnv
    → ReloadResult
    → CollectorProcess × Os × Option ProcessError
    → UnifiedSupervisor C
    → Reloaded C
judge_new env result (new, os, some err) s =
    refused result (process_failed err) (record s { os = remove_new_config env.removed os })
judge_new env result (new, os, none) s =
    if wait_for_health env.ticks new os
    then switch env result new os s
    else refused result unhealthy_collector
        (record s { os = remove_new_config env.removed (stop env.stop_new new os).1 })

abbrev pub start_new :
    {C : Type 0} → ℕ → ReloadEnv → ReloadResult → Str → Write → UnifiedSupervisor C → Reloaded C
start_new context env result text (not_written left) s =
    (record s { os = write_file config_new_yaml left s.os }, none, some write_failed)
start_new context env result text written s =
    judge_new env result
      (start context env.spawn (new_collector config_new_yaml (config_new_yaml ∷ []))
        (write_file config_new_yaml (some text) s.os))
      s

module _ {C O : Type 0} (lib : Library C O) where
  abbrev pub reload_generated :
      ℕ
      → ReloadEnv
      → ReloadResult
      → EngineV2 C × Result GeneratedConfig
      → UnifiedSupervisor C
      → Reloaded C
  reload_generated context env result (e, failed _) s =
      refused result generate_failed (record s { config_engine = e })
  reload_generated context env result (e, ok generated) s =
      start_new context env result generated.otel_config env.write (record s { config_engine = e })

  abbrev pub reload_current :
      ℕ → ReloadEnv → ReloadResult → Result C → UnifiedSupervisor C → Reloaded C
  reload_current context env result (failed _) s = refused result no_config s
  reload_current context env result (ok _) s =
      reload_generated context env result (process_user_config lib env.now [] s.config_engine) s

  unfoldable pub blue_green_reload : ℕ → ReloadEnv → ReloadResult → UnifiedSupervisor C → Reloaded C
  unfolding wait_for_health start stop is_running
  blue_green_reload context env result s =
      reload_current context env result (get_current_config s.config_engine) s

  unfoldable pub rollback_start : ℕ → StartEnv → UnifiedSupervisor C → UnifiedSupervisor C
  unfolding start_collector
  rollback_start context env s = (start_collector lib context env s).0

  abbrev pub graceful_started :
      ℕ → ReloadEnv → ReloadResult → UnifiedSupervisor C × Option SupervisorError → Reloaded C
  graceful_started context env result (s, some err) =
      refused result err (rollback_start context env.rollback s)
  graceful_started context env result (s, none) =
      (s, some (record result { success = true; new_version = s.status.config_version }), none)

  abbrev pub graceful_stopped :
      ℕ
      → ReloadEnv
      → ReloadResult
      → UnifiedSupervisor C
      → CollectorProcess × Os × Option ProcessError
      → Reloaded C
  graceful_stopped context env result s (c, os, some err) =
      refused result (process_failed err) (record s { collector = some c; os = os })
  graceful_stopped context env result s (c, os, none) =
      graceful_started context env result
        (start_collector lib context env.first_start (record s { collector = some c; os = os }))

  abbrev pub graceful_from :
      ℕ → ReloadEnv → ReloadResult → Option CollectorProcess → UnifiedSupervisor C → Reloaded C
  graceful_from context env result none s =
      graceful_started context env result (start_collector lib context env.first_start s)
  graceful_from context env result (some c) s =
      if is_running c s.os
      then graceful_stopped context env result s (stop env.stop_old c s.os)
      else graceful_started context env result (start_collector lib context env.first_start s)

  unfoldable pub graceful_reload : ℕ → ReloadEnv → ReloadResult → UnifiedSupervisor C → Reloaded C
  unfolding rollback_start start_collector stop is_running
  graceful_reload context env result s = graceful_from context env result s.collector s

  unfoldable pub in_place_reload : ℕ → ReloadEnv → ReloadResult → UnifiedSupervisor C → Reloaded C
  unfolding blue_green_reload is_running
  in_place_reload context env result s =
      if collector_runs s.collector s.os
      then blue_green_reload context env result s
      else refused result no_collector s

  abbrev pub first_result : UnifiedSupervisor C → ReloadResult
  first_result s = record {
    success = false;
    old_version = s.status.config_version;
    new_version = 0;
  }

  abbrev pub by_strategy :
      ReloadStrategy → ℕ → ReloadEnv → ReloadResult → UnifiedSupervisor C → Reloaded C
  by_strategy blue_green context env result s = blue_green_reload context env result s
  by_strategy graceful context env result s = graceful_reload context env result s
  by_strategy in_place context env result s = in_place_reload context env result s
  by_strategy rolling context env result s = refused result unsupported_strategy s

  unfoldable pub strategy_reload_collector :
      ReloadStrategy → ℕ → ReloadEnv → UnifiedSupervisor C → Reloaded C
  unfolding blue_green_reload graceful_reload in_place_reload
  strategy_reload_collector strategy context env s =
      by_strategy strategy context env (first_result s) s

  -- The version of the result is taken over.
  abbrev pub note_reload : ReloadEnv → Reloaded C → Reloaded C
  note_reload env (s, result, some err) = (s, result, some err)
  note_reload env (s, none, none) = (s, none, none)
  note_reload env (s, some result, none) = (
    record s {
      status = record s.status { config_version = result.new_version; last_config_load = env.now };
    },
    some result,
    none,
  )

  -- `UnifiedSupervisor.ReloadCollector`
  unfoldable pub reload_collector :
      ReloadStrategy → ℕ → ReloadEnv → UnifiedSupervisor C → Reloaded C
  unfolding strategy_reload_collector
  reload_collector strategy context env s =
      note_reload env (strategy_reload_collector strategy context env s)

  abbrev pub count_request : UnifiedSupervisor C → UnifiedSupervisor C
  count_request s = record s {
    metrics = record s.metrics { total_requests = suc s.metrics.total_requests };
  }

  abbrev pub answer_reload : Reloaded C → UnifiedSupervisor C × Option ReloadResult
  answer_reload (s, result, some err) = (
    record s { metrics = record s.metrics { failed_reloads = suc s.metrics.failed_reloads } },
    none,
  )
  answer_reload (s, result, none) = (
    record s { metrics = record s.metrics { config_reloads = suc s.metrics.config_reloads } },
    result,
  )

  -- `none` is the answer with status 500. `context` is the context of the request.
  unfoldable pub handle_reload :
      ℕ → ReloadEnv → UnifiedSupervisor C → UnifiedSupervisor C × Option ReloadResult
  unfolding reload_collector
  handle_reload context env s =
      answer_reload (reload_collector blue_green context env (count_request s))

  abbrev pub answer_restart :
      UnifiedSupervisor C × Option SupervisorError → UnifiedSupervisor C × Bool
  answer_restart (s, some err) = (s, false)
  answer_restart (s, none) = (
    record s {
      metrics = record s.metrics { collector_restarts = suc s.metrics.collector_restarts };
    },
    true,
  )

  unfoldable pub handle_restart :
      Exit → ℕ → StartEnv → UnifiedSupervisor C → UnifiedSupervisor C × Bool
  unfolding restart_collector
  handle_restart exit context env s =
      answer_restart (restart_collector lib exit context env (count_request s))

  -- A request as the HTTP server serves it: its context ends when the handler returns.
  abbrev pub serve_reload : ℕ → ReloadEnv → UnifiedSupervisor C → UnifiedSupervisor C
  serve_reload context env s =
      let after = (handle_reload context env s).0 in
      record after { os = context_ends context after.os }
