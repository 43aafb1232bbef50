-- ===== src/Unified/Process.antt =====
-- nrdot-supervisor/collector.go: the collector's process, and of the operating system what the process
-- manager uses: its children and the two configuration files in the working directory.
use nrdot_host.Common.{
  ℕ, suc, ◌*◌, ◌%◌, ◌^◌, List, [], ◌∷◌, map, ◌==◌, ltb, Bool, true, false, ◌&&◌, Option, none, some,
  if◌then◌else◌, Str,
}

-- `config.yaml` and `config-new.yaml`.
pub data ConfigPath : Type 0 where
  config_yaml config_new_yaml : ConfigPath

-- A process that was started and not yet waited for. One that has ended stays, not alive. A context that
-- ends kills the processes that were started with it.
pub record Child : Type 0 where
  pub pid : ℕ
  pub context : ℕ
  pub alive : Bool
  pub configs : List ConfigPath

pub record Os : Type 0 where
  pub children : List Child
  pub next_pid : ℕ
  pub config_file : Option Str
  pub new_config_file : Option Str

abbrev pub write_file : ConfigPath → Option Str → Os → Os
write_file config_yaml text os = record os { config_file = text }
write_file config_new_yaml text os = record os { new_config_file = text }

unfoldable pub has_child : ℕ → List Child → Bool
has_child pid [] = false
has_child pid (child ∷ rest) = let r = has_child pid rest in if child.pid == pid then true else r

-- `Wait` takes the process out of the children.
unfoldable pub reap : ℕ → List Child → List Child
reap pid [] = []
reap pid (child ∷ rest) = let r = reap pid rest in if child.pid == pid then r else child ∷ r

abbrev pub kill_with : ℕ → Child → Child
kill_with context child = if child.context == context then record child { alive = false } else child

-- The end of a context, and of a process by itself.
abbrev pub context_ends : ℕ → Os → Os
context_ends context os = record os { children = map (kill_with context) os.children }

abbrev pub end_child : ℕ → Child → Child
end_child pid child = if child.pid == pid then record child { alive = false } else child

abbrev pub process_ends : ℕ → Os → Os
process_ends pid os = record os { children = map (end_child pid) os.children }

pub record CollectorProcess : Type 0 where
  pub config_path : ConfigPath
  pub args : List ConfigPath
  pub memory_limit : ℕ
  pub shutdown_timeout : ℕ
  pub cmd : Option ℕ

pub data ProcessError : Type 0 where
  already_running stdout_failed stderr_failed start_failed not_running read_failed : ProcessError

-- What the pipes and the start of the command do.
pub data Spawn : Type 0 where
  no_stdout no_stderr no_start spawned : Spawn

abbrev pub child_of : ℕ → CollectorProcess → Os → Child
child_of context c os = record {
  pid = os.next_pid;
  context = context;
  alive = true;
  configs = c.config_path ∷ c.args;
}

abbrev pub spawn_child :
    ℕ → Spawn → CollectorProcess → Os → CollectorProcess × Os × Option ProcessError
spawn_child context no_stdout c os = (c, os, some stdout_failed)
spawn_child context no_stderr c os = (c, os, some stderr_failed)
spawn_child context no_start c os = (c, os, some start_failed)
spawn_child context spawned c os = (
  record c { cmd = some os.next_pid },
  record os { children = child_of context c os ∷ os.children; next_pid = suc os.next_pid },
  none,
)

abbrev pub is_some {ℓ} : {A : Type ℓ} → Option A → Bool
is_some none = false
is_some (some _) = true

unfoldable pub start :
    ℕ → Spawn → CollectorProcess → Os → CollectorProcess × Os × Option ProcessError
start context spawn c os =
    if is_some c.cmd then (c, os, some already_running) else spawn_child context spawn c os

-- The process is waited for, and forgotten.
abbrev pub reaped : ℕ → CollectorProcess → Os → CollectorProcess × Os × Option ProcessError
reaped pid c os = (record c { cmd = none }, record os { children = reap pid os.children }, none)

abbrev pub kill_cmd : Option ℕ → CollectorProcess → Os → CollectorProcess × Os × Option ProcessError
kill_cmd none c os = (c, os, none)
kill_cmd (some pid) c os = reaped pid c os

abbrev pub force_kill : CollectorProcess → Os → CollectorProcess × Os × Option ProcessError
force_kill c os = kill_cmd c.cmd c os

-- What comes first after the signal: the end of the context, the exit of the process, or the timeout.
pub data Exit : Type 0 where
  on_context on_exit on_timeout : Exit

abbrev pub stop_child :
    Exit → ℕ → CollectorProcess → Os → CollectorProcess × Os × Option ProcessError
stop_child on_context pid c os = force_kill c os
stop_child on_exit pid c os = reaped pid c os
stop_child on_timeout pid c os = force_kill c os

abbrev pub stop_cmd :
    Option ℕ → Exit → CollectorProcess → Os → CollectorProcess × Os × Option ProcessError
stop_cmd none exit c os = (c, os, none)
stop_cmd (some pid) exit c os = stop_child exit pid c os

unfoldable pub stop : Exit → CollectorProcess → Os → CollectorProcess × Os × Option ProcessError
stop exit c os = stop_cmd c.cmd exit c os

abbrev pub signalled : Option ℕ → Os → Bool
signalled none os = false
signalled (some pid) os = has_child pid os.children

-- A process that has ended and was not waited for still takes the signal 0.
unfoldable pub is_running : CollectorProcess → Os → Bool
unfolding has_child
is_running c os = signalled c.cmd os

unfoldable pub wait : CollectorProcess → Os → CollectorProcess × Os
wait c os = elim c.cmd [
  | none ↦ (c, os)
  | some pid ↦ (record c { cmd = none }, record os { children = reap pid os.children })
]

-- `rss` is what is read of `/proc`, in pages.
unfoldable pub get_memory_usage : Option ℕ → ℕ → CollectorProcess → Option ℕ
get_memory_usage rss page_size c =
    if is_some c.cmd
    then elim rss [ none ↦ none | some r ↦ some ((r * page_size) % 2 ^ 64) ]
    else none

abbrev pub exceeds : ℕ → Option ℕ → Option (Bool × ℕ)
exceeds limit none = none
exceeds limit (some usage) = some (ltb 0 limit && ltb limit usage, usage)

unfoldable pub check_memory_limit : Option ℕ → ℕ → CollectorProcess → Option (Bool × ℕ)
unfolding get_memory_usage
check_memory_limit rss page_size c = exceeds c.memory_limit (get_memory_usage rss page_size c)
