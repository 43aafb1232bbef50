-- ===== src/Tests/UnifiedTests.antt =====
-- The supervisor of the second version at concrete inputs.
use nrdot_host.Common.{refl, List, [], ◌∷◌, true, none, some, Str, codes, arith}
use nrdot_host.Engine.{Library, EngineV2}
use nrdot_host.Unified.Process.{
  Child, CollectorProcess, config_yaml, spawned, no_start, on_exit, on_timeout,
}
use nrdot_host.Unified.{UnifiedSupervisor, StartEnv, written, running, new_collector}
use nrdot_host.Unified.Reload.{ReloadEnv, graceful}
use nrdot_host.Unified.Owned.{OwnedIn}
use nrdot_host.Unified.Calls.{
  Call, start_one, stop_one, check, reload, request_reload, request_restart, end_context,
  end_process, run, run-OwnedIn,
}
use nrdot_host.Unified.Never.{Idle, run-Idle}

-- A validator that accepts every text, and one that accepts none.
abbrev lenient : Library Str Str
lenient = record {
  validate = λ text. some text;
  generate = λ c. some (c, []);
  encode = λ o. some o;
  to_yaml = λ text. some text;
  calculate_hash = λ text. text;
}

abbrev strict : Library Str Str
strict = record lenient { validate = λ text. none }

abbrev engine : EngineV2 Str
engine = record {
  versions = [];
  version_map = [];
  current_version = 0;
  current_config = some (codes "a");
  current_otel = codes "a";
  max_versions = 20;
  enable_backup = true;
  hooks = [];
  notified = [];
}

abbrev collector : CollectorProcess
collector = record (new_collector config_yaml []) { cmd = some 7 }

abbrev child : Child
child = record { pid = 7; context = 1; alive = true; configs = config_yaml ∷ [] }

abbrev one_process : UnifiedSupervisor Str
one_process = record {
  config_engine = engine;
  collector = some collector;
  status = record { state = running; config_version = 3; start_time = 0; last_config_load = 0 };
  metrics = record {
    total_requests = 0;
    config_reloads = 0;
    failed_reloads = 0;
    collector_restarts = 0;
    collector_running = true;
  };
  os = record { children = child ∷ []; next_pid = 8; config_file = none; new_config_file = none };
}

abbrev start_env : StartEnv
start_env = record { now = 9; write = written; spawn = spawned }

abbrev reload_env : ReloadEnv
reload_env = record {
  now = 10;
  write = written;
  spawn = spawned;
  ticks = 2;
  stop_new = on_exit;
  stop_old = on_timeout;
  removed = true;
  first_start = record start_env { spawn = no_start };
  rollback = start_env;
}

abbrev calls : List Call
calls =
    request_reload 2 reload_env
    ∷ end_context 2
    ∷ reload graceful 1 reload_env
    ∷ end_process 9
    ∷ check 1 start_env
    ∷ request_restart on_exit 3 start_env
    ∷ stop_one on_timeout
    ∷ start_one 1 start_env
    ∷ []

run-OwnedIn_example : OwnedIn (run lenient calls one_process)
run-OwnedIn_example = run-OwnedIn lenient calls one_process (omega arith, (child, refl, refl))

abbrev no_process : UnifiedSupervisor Str
no_process = record one_process { collector = none; os = record one_process.os { children = [] } }

run-Idle_example : Idle (run strict calls no_process)
run-Idle_example = run-Idle strict refl calls no_process (refl, refl)
