-- ===== src/Unified/BlueGreen.antt =====
-- The blue-green reload: what it leaves on every branch.
use nrdot_host.Common.{
  ℕ, suc, ◌≤◌, ◌≡◌, refl, sym, ap, subst, ◌∙◌, List, [], ◌∷◌, true, false, if_split, if_true,
  if_false, Option, none, some, Str, arith,
}
use nrdot_host.Engine.{
  Library, EngineV2, Result, ok, failed, GeneratedConfig, process_user_config, get_current_config,
}
use nrdot_host.Unified.Process.{
  Child, Os, CollectorProcess, ProcessError, config_new_yaml, write_file, has_child, reap, start,
  Spawn, spawned, no_stdout, no_stderr, no_start, Exit, is_running, signalled, reaped,
}
use nrdot_host.Unified.{UnifiedSupervisor, Write, written, not_written, new_collector}
use nrdot_host.Unified.Owned.{
  OwnedBy, Owned, OwnedIn, reap_own, reap_other, has_child_own, stop_started, Owned-same,
}
use nrdot_host.Unified.Reload.{
  ReloadEnv, ReloadResult, Reloaded, wait_for_health, judge_new, start_new, reload_generated,
  reload_current, blue_green_reload, stop_old_collector,
}

abbrev pub new_process : {C : Type 0} → UnifiedSupervisor C → CollectorProcess
new_process s = record (new_collector config_new_yaml (config_new_yaml ∷ [])) {
  cmd = some s.os.next_pid;
}

abbrev pub new_child : {C : Type 0} → ℕ → UnifiedSupervisor C → Child
new_child context s = record {
  pid = s.os.next_pid;
  context = context;
  alive = true;
  configs = config_new_yaml ∷ config_new_yaml ∷ [];
}

-- Nothing has changed for the collector.
abbrev pub Kept : {C : Type 0} → UnifiedSupervisor C → UnifiedSupervisor C → Type 0
Kept s s' =
    (s'.collector ≡ s.collector)
    × (s'.status ≡ s.status)
    × (s'.os.children ≡ s.os.children)
    × (s.os.next_pid ≤ s'.os.next_pid)

-- The new process is the only one.
abbrev pub Switched : {C : Type 0} → ℕ → UnifiedSupervisor C → UnifiedSupervisor C → Type 0
Switched context s s' =
    (s'.collector ≡ some (new_process s))
    × (s'.os.children ≡ new_child context s ∷ [])
    × (s'.status.config_version ≡ suc s.status.config_version)
    × (s'.status.state ≡ s.status.state)
    × (s'.os.next_pid ≡ suc s.os.next_pid)

-- After an error the old collector is kept; else the new one has taken its place.
abbrev pub Done : {C : Type 0} → ℕ → UnifiedSupervisor C → Reloaded C → Type 0
Done context s (s', result, some err) = Kept s s'
Done context s (s', none, none) = ⊥
Done context s (s', some result, none) =
    Switched context s s'
    × (result.success ≡ true)
    × (result.new_version ≡ s'.status.config_version)

reap_older :
    (oc : Option CollectorProcess) (os : Os)
    → Owned oc os
    → reap os.next_pid os.children ≡ os.children
unfolding reap
reap_older none os h = ap (reap os.next_pid) h ∙ sym h
reap_older (some c) os h = older c.cmd os h
  where
    older : (cmd : Option ℕ) (os : Os) → OwnedBy cmd os → reap os.next_pid os.children ≡ os.children
    older none os h = ap (reap os.next_pid) h ∙ sym h
    older (some pid) os (lt, (child, cs, p)) =
        ap (reap os.next_pid) cs ∙ reap_other os.next_pid child [] (ground (arith, lt, p)) ∙ sym cs

has_child_behind :
    (pid : ℕ) (x : Child) (rest : List Child)
    → has_child pid rest ≡ true
    → has_child pid (x ∷ rest) ≡ true
unfolding has_child
has_child_behind pid x rest h = ground (arith, h)

stop_old_cmd :
    (exit : Exit) (c : CollectorProcess) (cmd : Option ℕ) (os os2 : Os) (new : Child)
    → c.cmd ≡ cmd
    → OwnedBy cmd os
    → new.pid ≡ os.next_pid
    → os2.children ≡ new ∷ os.children
    → ((stop_old_collector exit (some c) os2).children ≡ new ∷ [])
      × ((stop_old_collector exit (some c) os2).next_pid ≡ os2.next_pid)
unfolding is_running reap
stop_old_cmd exit c none os os2 new e h p cs =
    let off : is_running c os2 ≡ false = ap (λ m. signalled m os2) e in
    let same : stop_old_collector exit (some c) os2 ≡ os2 = if_false (is_running c os2) _ _ off in
    (ap (λ o. o.children) same ∙ cs ∙ ap (λ r. new ∷ r) h, ap (λ o. o.next_pid) same)
stop_old_cmd exit c (some pid) os os2 new e (lt, (child, old, q)) p cs =
    let all : os2.children ≡ new ∷ child ∷ [] = cs ∙ ap (λ r. new ∷ r) old in
    let on : is_running c os2 ≡ true =
      ap (λ m. signalled m os2) e
      ∙ ap (has_child pid) all
      ∙ has_child_behind pid new (child ∷ []) (has_child_own pid child [] q) in
    let gone : stop_old_collector exit (some c) os2 ≡ (reaped pid c os2).1 =
      if_true (is_running c os2) _ _ on ∙ ap (λ o. o.1) (stop_started exit c os2 pid e) in
    (
      ap (λ o. o.children) gone
          ∙ ap (reap pid) all
          ∙ reap_other pid new (child ∷ []) (ground (arith, lt, p))
          ∙ ap (λ r. new ∷ r) (reap_own pid child [] q),
      ap (λ o. o.next_pid) gone,
    )

stop_old-Owned :
    (exit : Exit) (oc : Option CollectorProcess) (os os2 : Os) (new : Child)
    → Owned oc os
    → new.pid ≡ os.next_pid
    → os2.children ≡ new ∷ os.children
    → ((stop_old_collector exit oc os2).children ≡ new ∷ [])
      × ((stop_old_collector exit oc os2).next_pid ≡ os2.next_pid)
stop_old-Owned exit none os os2 new h p cs = (cs ∙ ap (λ r. new ∷ r) h, refl)
stop_old-Owned exit (some c) os os2 new h p cs = stop_old_cmd exit c c.cmd os os2 new refl h p cs

-- A process that was just started takes the signal, so that the first tick ends the wait.
pub wait_for_health_started :
    (ticks : ℕ) (c : CollectorProcess) (os : Os)
    → is_running c os ≡ true
    → wait_for_health (suc ticks) c os ≡ true
unfolding wait_for_health
wait_for_health_started ticks c os h = if_true (is_running c os) _ _ h

module _ {C : Type 0} (context : ℕ) (env : ReloadEnv) (result : ReloadResult)
    (s : UnifiedSupervisor C) where
  abbrev before : Str → Os
  before text = write_file config_new_yaml (some text) s.os

  abbrev both : Str → Os
  both text = record (before text) {
    children = new_child context s ∷ s.os.children;
    next_pid = suc s.os.next_pid;
  }

  judge_new-Done :
      (spawn : Spawn) (text : Str)
      → OwnedIn s
      → Done context s (
          judge_new env result
            (start context spawn
              (new_collector config_new_yaml (config_new_yaml ∷ []))
              (before text))
            s)
  unfolding start
  judge_new-Done no_stdout text h = (refl, refl, refl, omega arith)
  judge_new-Done no_stderr text h = (refl, refl, refl, omega arith)
  judge_new-Done no_start text h = (refl, refl, refl, omega arith)
  judge_new-Done spawned text h =
      if_split {A = Reloaded C} (Done context s)
        (wait_for_health env.ticks (new_process s) (both text)) _ _
        (λ _.
          let (cs, next) =
            stop_old-Owned env.stop_old s.collector s.os (both text) (new_child context s) h refl
              refl in
          ((refl, cs, refl, refl, next), refl, refl))
        (λ _.
          let gone = stop_started env.stop_new (new_process s) (both text) s.os.next_pid refl in
          (
            refl,
            refl,
            ap {A = CollectorProcess × Os × Option ProcessError} (λ o. o.1.children) gone
                ∙ reap_own s.os.next_pid (new_child context s) s.os.children refl
                ∙ reap_older s.collector s.os h,
            omega (
              arith,
              ap {A = CollectorProcess × Os × Option ProcessError} (λ o. o.1.next_pid) gone,
            ),
          ))

  start_new-Done :
      (text : Str) (write : Write)
      → OwnedIn s
      → Done context s (start_new context env result text write s)
  start_new-Done text (not_written left) h = (refl, refl, refl, omega arith)
  start_new-Done text written h = judge_new-Done env.spawn text h

module _ {C O : Type 0} (lib : Library C O) where
  Done-engine :
      (context : ℕ) (s : UnifiedSupervisor C) (e : EngineV2 C) (o : Reloaded C)
      → Done context (record s { config_engine = e }) o
      → Done context s o
  Done-engine context s e (s', result, some err) h = h
  Done-engine context s e (s', none, none) h = h
  Done-engine context s e (s', some result, none) h = h

  reload_generated-Done :
      (context : ℕ) (env : ReloadEnv) (result : ReloadResult)
      (o : EngineV2 C × Result GeneratedConfig) (s : UnifiedSupervisor C)
      → OwnedIn s
      → Done context s (reload_generated lib context env result o s)
  reload_generated-Done context env result (e, failed _) s h = (refl, refl, refl, omega arith)
  reload_generated-Done context env result (e, ok generated) s h =
      Done-engine context s e
        (start_new context env result generated.otel_config env.write
          (record s { config_engine = e }))
        (start_new-Done context env result (record s { config_engine = e }) generated.otel_config
          env.write h)

  reload_current-Done :
      (context : ℕ) (env : ReloadEnv) (result : ReloadResult) (o : Result C)
      (s : UnifiedSupervisor C)
      → OwnedIn s
      → Done context s (reload_current lib context env result o s)
  reload_current-Done context env result (failed _) s h = (refl, refl, refl, omega arith)
  reload_current-Done context env result (ok _) s h =
      reload_generated-Done context env result (process_user_config lib env.now [] s.config_engine)
        s h

  -- Where the children are the collector's process, or none: a blue-green reload that returns an error
  -- leaves the collector, its process and the status as they were; one that returns none has put the new
  -- process, the only one then, in the place of the old, with the next version.
  pub blue_green_reload-Done :
      (context : ℕ) (env : ReloadEnv) (result : ReloadResult) (s : UnifiedSupervisor C)
      → OwnedIn s
      → Done context s (blue_green_reload lib context env result s)
  unfolding blue_green_reload
  blue_green_reload-Done context env result s h =
      reload_current-Done context env result (get_current_config s.config_engine) s h

-- A reload that is done leaves the children as the collector's.
pub Done-OwnedIn :
    {C : Type 0} (context : ℕ) (s : UnifiedSupervisor C) (o : Reloaded C)
    → Done context s o
    → OwnedIn s
    → OwnedIn o.0
Done-OwnedIn context s (s', result, some err) (c, _, cs, next) h =
    subst (λ oc. Owned oc s'.os) (sym c) (Owned-same s.collector s.os s'.os cs next h)
Done-OwnedIn context s (s', none, none) d h = elim d [ ]
Done-OwnedIn context s (s', some result, none) ((c, cs, _, _, next), _, _) h =
    subst (λ oc. Owned oc s'.os) (sym c) (omega (arith, next), (new_child context s, cs, refl))
