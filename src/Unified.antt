-- ===== src/Unified.antt =====
-- nrdot-supervisor/supervisor_v2.go: the supervisor that holds the configuration engine and the
-- collector's process. Logging, events and the HTTP server are left out; what the file system, the
-- process and the clock do comes in with each call.
pub mod Process
pub mod Reload
pub mod Owned
pub mod BlueGreen
pub mod Calls
pub mod Never
use nrdot_host.Common.{
  ℕ, suc, ◌+◌, List, [], ◌∷◌, Bool, true, false, not, Option, none, some, if◌then◌else◌, Str, codes,
}
use nrdot_host.Engine.{
  Library, EngineV2, ConfigV2, ConfigUpdate, ConfigResult, EngineError, GeneratedConfig, Result, ok,
  failed, new_engine_v2, process_user_config, apply_config,
}
use nrdot_host.Unified.Process.{
  ConfigPath, config_yaml, config_new_yaml, Os, write_file, CollectorProcess, ProcessError, Spawn,
  start, Exit, stop, is_running,
}

pub data CollectorState : Type 0 where
  stopped running : CollectorState

pub record CollectorStatus : Type 0 where
  pub state : CollectorState
  pub config_version : ℕ
  pub start_time : ℕ
  pub last_config_load : ℕ

pub record Metrics : Type 0 where
  pub total_requests : ℕ
  pub config_reloads : ℕ
  pub failed_reloads : ℕ
  pub collector_restarts : ℕ
  pub collector_running : Bool

pub record UnifiedSupervisor (C : Type 0) : Type 0 where
  pub config_engine : EngineV2 C
  pub collector : Option CollectorProcess
  pub status : CollectorStatus
  pub metrics : Metrics
  pub os : Os

pub data SupervisorError : Type 0 where
  collector_running no_config generate_failed write_failed unhealthy_collector no_collector
        unsupported_strategy read_config_failed invalid_config :
      SupervisorError
  process_failed : ProcessError → SupervisorError

unfoldable pub new_unified_supervisor : {C : Type 0} → ℕ → Os → UnifiedSupervisor C
new_unified_supervisor now os = record {
  config_engine = new_engine_v2 (record { max_versions = 20; enable_backup = true });
  collector = none;
  status = record { state = stopped; config_version = 0; start_time = now; last_config_load = 0 };
  metrics = record {
    total_requests = 0;
    config_reloads = 0;
    failed_reloads = 0;
    collector_restarts = 0;
    collector_running = false;
  };
  os = os;
}

-- A file is written, or holds something else after an error.
pub data Write : Type 0 where
  written : Write
  not_written : Option Str → Write

-- What is met at a start of the collector.
pub record StartEnv : Type 0 where
  pub now : ℕ
  pub write : Write
  pub spawn : Spawn

abbrev pub collector_runs : Option CollectorProcess → Os → Bool
collector_runs none os = false
collector_runs (some c) os = is_running c os

abbrev pub new_collector : ConfigPath → List ConfigPath → CollectorProcess
new_collector path args = record {
  config_path = path;
  args = args;
  memory_limit = 0;
  shutdown_timeout = 0;
  cmd = none;
}

abbrev pub file_update : Str → ConfigUpdate
file_update bytes = record {
  config = bytes;
  format = codes "yaml";
  source = codes "file";
  author = codes "supervisor";
  description = [];
  metadata = [];
  dry_run = false;
}

module _ {C O : Type 0} (lib : Library C O) where
  abbrev pub note_start :
      ℕ
      → UnifiedSupervisor C
      → CollectorProcess × Os × Option ProcessError
      → UnifiedSupervisor C × Option SupervisorError
  note_start now s (c, os, some err) =
      (record s { collector = some c; os = os }, some (process_failed err))
  note_start now s (c, os, none) = (
    record s {
      collector = some c;
      os = os;
      status = record s.status { state = running; start_time = now };
      metrics = record s.metrics { collector_running = true };
    },
    none,
  )

  abbrev pub start_written :
      ℕ
      → StartEnv
      → Str
      → Write
      → UnifiedSupervisor C
      → UnifiedSupervisor C × Option SupervisorError
  start_written context env text (not_written left) s =
      (record s { os = write_file config_yaml left s.os }, some write_failed)
  start_written context env text written s = note_start env.now s (
      start context env.spawn (new_collector config_yaml [])
        (write_file config_yaml (some text) s.os))

  abbrev pub start_generated :
      ℕ
      → StartEnv
      → EngineV2 C × Result GeneratedConfig
      → UnifiedSupervisor C
      → UnifiedSupervisor C × Option SupervisorError
  start_generated context env (e, failed _) s =
      (record s { config_engine = e }, some generate_failed)
  start_generated context env (e, ok generated) s =
      start_written context env generated.otel_config env.write (record s { config_engine = e })

  -- The configuration is generated from no user configuration (`nil`).
  unfoldable pub start_collector :
      ℕ → StartEnv → UnifiedSupervisor C → UnifiedSupervisor C × Option SupervisorError
  unfolding is_running start
  start_collector context env s =
      if collector_runs s.collector s.os
      then (s, some collector_running)
      else start_generated context env (process_user_config lib env.now [] s.config_engine) s

  abbrev pub note_stop :
      UnifiedSupervisor C
      → CollectorProcess × Os × Option ProcessError
      → UnifiedSupervisor C × Option SupervisorError
  note_stop s (c, os, some err) =
      (record s { collector = some c; os = os }, some (process_failed err))
  note_stop s (c, os, none) = (
    record s {
      collector = some c;
      os = os;
      status = record s.status { state = stopped };
      metrics = record s.metrics { collector_running = false };
    },
    none,
  )

  abbrev pub stop_if :
      Exit
      → Option CollectorProcess
      → UnifiedSupervisor C
      → UnifiedSupervisor C × Option SupervisorError
  stop_if exit none s = (s, none)
  stop_if exit (some c) s = if is_running c s.os then note_stop s (stop exit c s.os) else (s, none)

  unfoldable pub stop_collector :
      Exit → UnifiedSupervisor C → UnifiedSupervisor C × Option SupervisorError
  unfolding is_running stop
  stop_collector exit s = stop_if exit s.collector s

  -- The collector is stopped, without a change of the status; an error is only logged.
  abbrev pub stop_quietly :
      Exit → Option CollectorProcess → UnifiedSupervisor C → UnifiedSupervisor C
  stop_quietly exit none s = s
  stop_quietly exit (some c) s =
      if is_running c s.os
      then (let stopped_collector = stop exit c s.os in
          record s { collector = some stopped_collector.0; os = stopped_collector.1 })
      else s

  unfoldable pub restart_collector :
      Exit → ℕ → StartEnv → UnifiedSupervisor C → UnifiedSupervisor C × Option SupervisorError
  unfolding start_collector is_running stop
  restart_collector exit context env s =
      start_collector context env (stop_quietly exit s.collector s)

  abbrev pub check_collector :
      ℕ → StartEnv → Option CollectorProcess → UnifiedSupervisor C → UnifiedSupervisor C
  check_collector context env none s = s
  check_collector context env (some c) s =
      if is_running c s.os then s else (start_collector context env s).0

  unfoldable pub check_health : ℕ → StartEnv → UnifiedSupervisor C → UnifiedSupervisor C
  unfolding start_collector is_running
  check_health context env s = check_collector context env s.collector s

  abbrev pub load_result :
      UnifiedSupervisor C
      → EngineV2 C × ConfigResult × Option EngineError
      → UnifiedSupervisor C × Option SupervisorError
  load_result s (e, result, some _) = (record s { config_engine = e }, some invalid_config)
  load_result s (e, result, none) =
      if result.success
      then (
        record s {
          config_engine = e;
          status = record s.status { config_version = result.version };
        },
        none,
      )
      else (record s { config_engine = e }, some invalid_config)

  -- `none` is an error of the file.
  unfoldable pub load_configuration :
      ℕ → Option Str → UnifiedSupervisor C → UnifiedSupervisor C × Option SupervisorError
  load_configuration now none s = (s, some read_config_failed)
  load_configuration now (some bytes) s =
      load_result s (apply_config lib now (file_update bytes) s.config_engine)

  abbrev pub start_loaded :
      ℕ
      → StartEnv
      → UnifiedSupervisor C × Option SupervisorError
      → UnifiedSupervisor C × Option SupervisorError
  start_loaded context env (s, some err) = (s, some err)
  start_loaded context env (s, none) = start_collector context env s

  -- `Start` up to the loops. The path of the configuration is not empty.
  unfoldable pub start_supervisor :
      ℕ → StartEnv → Option Str → UnifiedSupervisor C → UnifiedSupervisor C × Option SupervisorError
  unfolding load_configuration start_collector
  start_supervisor context env file s = start_loaded context env (load_configuration env.now file s)

  unfoldable pub supervisor_apply_config :
      ℕ
      → ConfigUpdate
      → UnifiedSupervisor C
      → UnifiedSupervisor C × ConfigResult × Option EngineError
  supervisor_apply_config now update s =
      let outcome = apply_config lib now update s.config_engine in
      (record s { config_engine = outcome.0 }, outcome.1, outcome.2)

pub data HealthState : Type 0 where
  healthy degraded unhealthy : HealthState

pub record HealthStatus : Type 0 where
  pub state : HealthState
  pub readiness_probe : Bool
  pub liveness_probe : Bool
  pub collector : HealthState

unfoldable pub get_collector_health_state : {C : Type 0} → UnifiedSupervisor C → HealthState
unfolding is_running
get_collector_health_state s = if collector_runs s.collector s.os then healthy else unhealthy

abbrev pub overall : HealthState → HealthStatus
overall healthy = record {
  state = healthy;
  readiness_probe = true;
  liveness_probe = true;
  collector = healthy;
}
overall other = record {
  state = degraded;
  readiness_probe = false;
  liveness_probe = true;
  collector = other;
}

unfoldable pub get_health : {C : Type 0} → UnifiedSupervisor C → HealthStatus
unfolding get_collector_health_state
get_health s = overall (get_collector_health_state s)
