-- ===== src/Unified/Owned.antt =====
-- The supervisor's children: what a start and a stop of the collector do to them.
use nrdot_host.Common.{
  ℕ, ◌<◌, ◌≤◌, ◌≡◌, ◌≢◌, refl, sym, ap, subst, ◌∙◌, inl, inr, List, [], ◌∷◌, true, false, if_split,
  if_both, Option, none, some, Option-cases, Str, arith,
}
use nrdot_host.Engine.{Library, EngineV2, Result, ok, failed, GeneratedConfig}
use nrdot_host.Unified.Process.{
  Child, Os, CollectorProcess, ProcessError, ConfigPath, config_yaml, write_file, has_child, reap,
  start, stop, Spawn, spawned, no_stdout, no_stderr, no_start, Exit, on_context, on_exit,
  on_timeout, is_running, child_of, signalled, reaped, kill_cmd, stop_cmd,
}
use nrdot_host.Unified.{
  UnifiedSupervisor, SupervisorError, StartEnv, Write, written, not_written, collector_runs,
  new_collector, note_start, start_written, start_generated, start_collector, stop_collector,
  restart_collector, check_health, note_stop, stop_if, stop_quietly, check_collector,
}

-- The children are the one process, or none.
abbrev pub OwnedBy : Option ℕ → Os → Type 0
OwnedBy none os = os.children ≡ []
OwnedBy (some pid) os =
    (pid < os.next_pid) × ((child : Child) × (os.children ≡ child ∷ []) × (child.pid ≡ pid))

abbrev pub Owned : Option CollectorProcess → Os → Type 0
Owned none os = os.children ≡ []
Owned (some c) os = OwnedBy c.cmd os

pub OwnedBy-same :
    (cmd : Option ℕ) (os os' : Os)
    → os'.children ≡ os.children
    → os.next_pid ≤ os'.next_pid
    → OwnedBy cmd os
    → OwnedBy cmd os'
OwnedBy-same none os os' c n h = c ∙ h
OwnedBy-same (some pid) os os' c n (lt, (child, e, p)) = (omega (arith, n, lt), (child, c ∙ e, p))

pub Owned-same :
    (oc : Option CollectorProcess) (os os' : Os)
    → os'.children ≡ os.children
    → os.next_pid ≤ os'.next_pid
    → Owned oc os
    → Owned oc os'
Owned-same none os os' c n h = c ∙ h
Owned-same (some c) os os' cs n h = OwnedBy-same c.cmd os os' cs n h

pub has_child_own :
    (pid : ℕ) (child : Child) (rest : List Child)
    → child.pid ≡ pid
    → has_child pid (child ∷ rest) ≡ true
unfolding has_child
has_child_own pid child rest e = ground (arith, e)

-- The collector that owns the children runs, if there are any.
pub is_running-OwnedBy :
    (c : CollectorProcess) (os : Os) (pid : ℕ)
    → OwnedBy c.cmd os
    → c.cmd ≡ some pid
    → is_running c os ≡ true
unfolding is_running
is_running-OwnedBy c os pid h e =
    let (_, (child, cs, p)) = subst (λ m. OwnedBy m os) e h in
    ap (λ m. signalled m os) e ∙ ap (has_child pid) cs ∙ has_child_own pid child [] p

pub stopped-OwnedBy :
    (c : CollectorProcess) (os : Os) → OwnedBy c.cmd os → is_running c os ≡ false → c.cmd ≡ none
stopped-OwnedBy c os h r = elim (Option-cases c.cmd) [
  | inl e ↦ e
  | inr (pid, e) ↦ absurd (ground (arith, r, is_running-OwnedBy c os pid h e))
]

-- A process that has not been waited for is, after a stop.
pub stop_started :
    (exit : Exit) (c : CollectorProcess) (os : Os) (pid : ℕ)
    → c.cmd ≡ some pid
    → stop exit c os ≡ reaped pid c os
unfolding stop
stop_started on_context c os pid e =
    ap (λ m. stop_cmd m on_context c os) e ∙ ap (λ m. kill_cmd m c os) e
stop_started on_exit c os pid e = ap (λ m. stop_cmd m on_exit c os) e
stop_started on_timeout c os pid e =
    ap (λ m. stop_cmd m on_timeout c os) e ∙ ap (λ m. kill_cmd m c os) e

pub reap_own :
    (pid : ℕ) (child : Child) (rest : List Child)
    → child.pid ≡ pid
    → reap pid (child ∷ rest) ≡ reap pid rest
unfolding reap
reap_own pid child rest e = ground (arith, e)

pub reap_other :
    (pid : ℕ) (child : Child) (rest : List Child)
    → child.pid ≢ pid
    → reap pid (child ∷ rest) ≡ child ∷ reap pid rest
unfolding reap
reap_other pid child rest e = ground (arith, e)

-- The collector that owns the children leaves none after a stop.
abbrev pub Stopped : CollectorProcess × Os × Option ProcessError → Type 0
Stopped (c, os, err) = (c.cmd ≡ none) × (os.children ≡ []) × (err ≡ none)

pub stop-Stopped :
    (exit : Exit) (c : CollectorProcess) (os : Os) (pid : ℕ)
    → OwnedBy c.cmd os
    → c.cmd ≡ some pid
    → Stopped (stop exit c os)
unfolding reap
stop-Stopped exit c os pid h e =
    let (_, (child, cs, p)) = subst (λ m. OwnedBy m os) e h in
    subst Stopped (sym (stop_started exit c os pid e))
      (refl, ap (reap pid) cs ∙ reap_own pid child [] p, refl)

pub start-OwnedBy :
    (context : ℕ) (spawn : Spawn) (path : ConfigPath) (args : List ConfigPath) (os : Os)
    → os.children ≡ []
    → OwnedBy
        (start context spawn (new_collector path args) os).0.cmd
        (start context spawn (new_collector path args) os).1
unfolding start
start-OwnedBy context no_stdout path args os h = h
start-OwnedBy context no_stderr path args os h = h
start-OwnedBy context no_start path args os h = h
start-OwnedBy context spawned path args os h = (
  omega arith,
  (
    child_of context (new_collector path args) os,
    ap (λ cs. child_of context (new_collector path args) os ∷ cs) h,
    refl,
  ),
)

pub not_running-Owned :
    (oc : Option CollectorProcess) (os : Os)
    → Owned oc os
    → collector_runs oc os ≡ false
    → os.children ≡ []
not_running-Owned none os h r = h
not_running-Owned (some c) os h r = subst (λ m. OwnedBy m os) (stopped-OwnedBy c os h r) h

abbrev pub OwnedIn : {C : Type 0} → UnifiedSupervisor C → Type 0
OwnedIn s = Owned s.collector s.os

-- A collector that runs has a process.
pub running-OwnedBy :
    (c : CollectorProcess) (os : Os)
    → OwnedBy c.cmd os
    → is_running c os ≡ true
    → (pid : ℕ) × (c.cmd ≡ some pid)
unfolding is_running
running-OwnedBy c os h r = elim (Option-cases c.cmd) [
  | inl e ↦ absurd (ground (arith, r, ap (λ m. signalled m os) e))
  | inr (pid, e) ↦ (pid, e)
]

pub Stopped-OwnedBy :
    (o : CollectorProcess × Os × Option ProcessError) → Stopped o → OwnedBy o.0.cmd o.1
Stopped-OwnedBy (c, os, err) (n, cs, _) = subst (λ m. OwnedBy m os) (sym n) cs

pub stop-OwnedBy :
    (exit : Exit) (c : CollectorProcess) (os : Os)
    → OwnedBy c.cmd os
    → is_running c os ≡ true
    → OwnedBy (stop exit c os).0.cmd (stop exit c os).1
stop-OwnedBy exit c os h r =
    let (pid, e) = running-OwnedBy c os h r in
    Stopped-OwnedBy (stop exit c os) (stop-Stopped exit c os pid h e)

module _ {C O : Type 0} (lib : Library C O) where
  note_start-OwnedIn :
      (now : ℕ) (s : UnifiedSupervisor C) (o : CollectorProcess × Os × Option ProcessError)
      → OwnedBy o.0.cmd o.1
      → OwnedIn (note_start lib now s o).0
  note_start-OwnedIn now s (c, os, some err) h = h
  note_start-OwnedIn now s (c, os, none) h = h

  start_written-OwnedIn :
      (context : ℕ) (env : StartEnv) (text : Str) (write : Write) (s : UnifiedSupervisor C)
      → OwnedIn s
      → s.os.children ≡ []
      → OwnedIn (start_written lib context env text write s).0
  start_written-OwnedIn context env text (not_written left) s h cs =
      Owned-same s.collector s.os _ refl (omega arith) h
  start_written-OwnedIn context env text written s h cs =
      note_start-OwnedIn env.now s _ (
        start-OwnedBy context env.spawn config_yaml [] (write_file config_yaml (some text) s.os) cs)

  start_generated-OwnedIn :
      (context : ℕ) (env : StartEnv) (o : EngineV2 C × Result GeneratedConfig)
      (s : UnifiedSupervisor C)
      → OwnedIn s
      → s.os.children ≡ []
      → OwnedIn (start_generated lib context env o s).0
  start_generated-OwnedIn context env (e, failed _) s h cs = h
  start_generated-OwnedIn context env (e, ok generated) s h cs =
      start_written-OwnedIn context env generated.otel_config env.write
        (record s { config_engine = e }) h cs

  pub start_collector-OwnedIn :
      (context : ℕ) (env : StartEnv) (s : UnifiedSupervisor C)
      → OwnedIn s
      → OwnedIn (start_collector lib context env s).0
  unfolding start_collector
  start_collector-OwnedIn context env s h =
      if_split {A = UnifiedSupervisor C × Option SupervisorError} (λ o. OwnedIn o.0)
        (collector_runs s.collector s.os) _ _ (λ _. h)
        (λ r. start_generated-OwnedIn context env _ s h (not_running-Owned s.collector s.os h r))

  note_stop-OwnedIn :
      (s : UnifiedSupervisor C) (o : CollectorProcess × Os × Option ProcessError)
      → OwnedBy o.0.cmd o.1
      → OwnedIn (note_stop lib s o).0
  note_stop-OwnedIn s (c, os, some err) h = h
  note_stop-OwnedIn s (c, os, none) h = h

  stop_if-OwnedIn :
      (exit : Exit) (oc : Option CollectorProcess) (s : UnifiedSupervisor C)
      → oc ≡ s.collector
      → OwnedIn s
      → OwnedIn (stop_if lib exit oc s).0
  stop_if-OwnedIn exit none s e h = h
  stop_if-OwnedIn exit (some c) s e h =
      let own : OwnedBy c.cmd s.os = subst (λ oc. Owned oc s.os) (sym e) h in
      if_split {A = UnifiedSupervisor C × Option SupervisorError} (λ o. OwnedIn o.0)
        (is_running c s.os) _ _
        (λ r. note_stop-OwnedIn s (stop exit c s.os) (stop-OwnedBy exit c s.os own r)) (λ _. h)

  pub stop_collector-OwnedIn :
      (exit : Exit) (s : UnifiedSupervisor C) → OwnedIn s → OwnedIn (stop_collector lib exit s).0
  unfolding stop_collector
  stop_collector-OwnedIn exit s h = stop_if-OwnedIn exit s.collector s refl h

  stop_quietly-OwnedIn :
      (exit : Exit) (oc : Option CollectorProcess) (s : UnifiedSupervisor C)
      → oc ≡ s.collector
      → OwnedIn s
      → OwnedIn (stop_quietly lib exit oc s)
  stop_quietly-OwnedIn exit none s e h = h
  stop_quietly-OwnedIn exit (some c) s e h =
      let own : OwnedBy c.cmd s.os = subst (λ oc. Owned oc s.os) (sym e) h in
      if_split {A = UnifiedSupervisor C} OwnedIn (is_running c s.os) _ _
        (λ r. stop-OwnedBy exit c s.os own r) (λ _. h)

  pub restart_collector-OwnedIn :
      (exit : Exit) (context : ℕ) (env : StartEnv) (s : UnifiedSupervisor C)
      → OwnedIn s
      → OwnedIn (restart_collector lib exit context env s).0
  unfolding restart_collector
  restart_collector-OwnedIn exit context env s h =
      start_collector-OwnedIn context env _ (stop_quietly-OwnedIn exit s.collector s refl h)

  check_collector-OwnedIn :
      (context : ℕ) (env : StartEnv) (oc : Option CollectorProcess) (s : UnifiedSupervisor C)
      → OwnedIn s
      → OwnedIn (check_collector lib context env oc s)
  check_collector-OwnedIn context env none s h = h
  check_collector-OwnedIn context env (some c) s h =
      if_both {A = UnifiedSupervisor C} OwnedIn (is_running c s.os) _ _ h
        (start_collector-OwnedIn context env s h)

  pub check_health-OwnedIn :
      (context : ℕ) (env : StartEnv) (s : UnifiedSupervisor C)
      → OwnedIn s
      → OwnedIn (check_health lib context env s)
  unfolding check_health
  check_health-OwnedIn context env s h = check_collector-OwnedIn context env s.collector s h
