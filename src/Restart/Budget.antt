-- ===== src/Restart/Budget.antt =====
-- supervisor.go: the retries are a budget for the supervisor's whole life. Every restart follows a
-- recorded failure, so the three successes in a row that would refill it never come.
use nrdot_host.Common.{
  ℕ, suc, ◌+◌, ◌≡◌, ◌≤◌, ◌<◌, min, sym, subst, List, [], ◌∷◌, Bool, true, false, arith, length, ltb,
  leb, ◌&&◌, if◌then◌else◌, Bool-cases, inl, inr,
}
use nrdot_host.Restart.{
  Policy, never, on_failure, always, other, Config, ExponentialBackoff, Strategy, never_strategy,
  always_strategy, exponential, create, strategy_next_delay, strategy_record_failure,
  strategy_record_success,
}
use nrdot_host.Restart.Supervisor.{
  Outcome, cancelled, not_started, unhealthy, healthy, Supervisor, new, start_collector,
  handle_collector_failure, supervise, run,
}

-- After `failures` failures: which retries are spent, and no more restarts than retries.
pub record Spent (max_retries failures : ℕ) (e : ExponentialBackoff) (restarts : ℕ) : Type 0 where
  pub budget : e.max_retries ≡ max_retries
  pub successes : e.consecutive_success ≤ 1
  pub spent : e.retry_count ≡ min failures max_retries
  pub covered : restarts ≤ e.retry_count

abbrev SpentBy : ℕ → ℕ → Supervisor → Strategy → Type 0
SpentBy m n s (exponential e) = Spent m n e s.restarts
SpentBy m n s _ = ⊥

abbrev pub IsSpent : ℕ → ℕ → Supervisor → Type 0
IsSpent m n s = SpentBy m n s s.strategy

abbrev at : ExponentialBackoff → Bool → ℕ → Supervisor
at e running k = record { strategy = exponential e; collector_running = running; restarts = k }

-- The backoff after a granted restart with `successes` successes since the failure.
abbrev spend : ExponentialBackoff → ℕ → ExponentialBackoff
spend e successes = record e {
  retry_count = e.retry_count + 1;
  current_delay =
      if ltb e.max_delay (e.multiply e.current_delay)
      then e.max_delay
      else e.multiply e.current_delay;
  consecutive_success = successes;
}

-- Where a granted restart ends.
abbrev granted : Outcome → ExponentialBackoff → ℕ → Supervisor
granted cancelled e k = at (spend e 0) false k
granted healthy e k = at (spend e 1) true (k + 1)
granted _ e k = at (spend e 0) false (k + 1)

exhausted : ExponentialBackoff → Bool
exhausted e = ltb 0 e.max_retries && leb e.max_retries e.retry_count

handle-exhausted :
    (o : Outcome) (e : ExponentialBackoff) (running : Bool) (k : ℕ)
    → exhausted e ≡ true
    → handle_collector_failure o (at e running k)
      ≡ at (record e { consecutive_success = 0 }) running k
unfolding handle_collector_failure strategy_next_delay strategy_record_failure exhausted
handle-exhausted o e running k h = ground arith

handle-granted :
    (o : Outcome) (e : ExponentialBackoff) (running : Bool) (k : ℕ)
    → exhausted e ≡ false
    → handle_collector_failure o (at e running k) ≡ granted o e k
unfolding handle_collector_failure strategy_next_delay strategy_record_failure
    strategy_record_success exhausted
handle-granted cancelled e running k h = ground arith
handle-granted not_started e running k h = ground arith
handle-granted unhealthy e running k h = ground arith
handle-granted healthy e running k h = ground arith

granted-IsSpent :
    (m n : ℕ) (o : Outcome) (e : ExponentialBackoff) (k : ℕ)
    → exhausted e ≡ false
    → 0 < m
    → Spent m n e k
    → IsSpent m (suc n) (granted o e k)
unfolding exhausted
granted-IsSpent m n cancelled e k h pos s = ground arith
granted-IsSpent m n not_started e k h pos s = ground arith
granted-IsSpent m n unhealthy e k h pos s = ground arith
granted-IsSpent m n healthy e k h pos s = ground arith

exhausted-IsSpent :
    (m n : ℕ) (e : ExponentialBackoff) (running : Bool) (k : ℕ)
    → exhausted e ≡ true
    → Spent m n e k
    → IsSpent m (suc n) (at (record e { consecutive_success = 0 }) running k)
unfolding exhausted
exhausted-IsSpent m n e running k h s = ground arith

handle-IsSpent :
    (m n : ℕ) (o : Outcome) (s : Strategy) (running : Bool) (k : ℕ)
    → 0 < m
    → IsSpent m n (record { strategy = s; collector_running = running; restarts = k })
    → IsSpent m (suc n) (
        handle_collector_failure o
          (record { strategy = s; collector_running = running; restarts = k }))
handle-IsSpent m n o (exponential e) running k pos h = elim (Bool-cases (exhausted e)) [
  | inl x ↦
      subst (IsSpent m (suc n)) (sym (handle-exhausted o e running k x))
        (exhausted-IsSpent m n e running k x h)
  | inr x ↦
      subst (IsSpent m (suc n)) (sym (handle-granted o e running k x))
        (granted-IsSpent m n o e k x pos h)
]
handle-IsSpent m n o never_strategy running k pos h = elim h [ ]
handle-IsSpent m n o (always_strategy d) running k pos h = elim h [ ]

supervise-IsSpent :
    (m n : ℕ) (os : List Outcome) (s : Supervisor)
    → 0 < m
    → IsSpent m n s
    → IsSpent m (n + length os) (supervise os s)
unfolding supervise
supervise-IsSpent m n [] s pos h = rw (let q : n + 0 ≡ n = omega arith in q) h
supervise-IsSpent m n (o ∷ os) s pos h =
    rw (let q : n + suc (length os) ≡ suc n + length os = omega arith in q) (
      supervise-IsSpent m (suc n) os (handle_collector_failure o s) pos
        (handle-IsSpent m n o s.strategy s.collector_running s.restarts pos h))

-- The policies that use the backoff.
abbrev pub backs_off : Policy → Bool
backs_off on_failure = true
backs_off (other _) = true
backs_off _ = false

first-IsSpent :
    (p : Policy) (c : Config) (first : Outcome)
    → backs_off p ≡ true
    → IsSpent c.max_retries 0 (start_collector first (new (record c { policy = p })))
unfolding start_collector new strategy_record_success create
first-IsSpent never c o h = cc
first-IsSpent always c o h = cc
first-IsSpent on_failure c cancelled h = ground arith
first-IsSpent on_failure c not_started h = ground arith
first-IsSpent on_failure c unhealthy h = ground arith
first-IsSpent on_failure c healthy h = ground arith
first-IsSpent (other x) c cancelled h = ground arith
first-IsSpent (other x) c not_started h = ground arith
first-IsSpent (other x) c unhealthy h = ground arith
first-IsSpent (other x) c healthy h = ground arith

module _ (c : Config) (policy : backs_off c.policy ≡ true) (pos : 0 < c.max_retries)
    (first : Outcome) (os : List Outcome) where
  run-IsSpent : IsSpent c.max_retries (length os) (run c first os)
  unfolding run
  run-IsSpent =
      let all : 0 + length os ≡ length os = omega arith in
      subst (λ n. IsSpent c.max_retries n (supervise os (start_collector first (new c)))) all
        (supervise-IsSpent c.max_retries 0 os (start_collector first (new c)) pos
          (first-IsSpent c.policy c first policy))

  spent_restarts :
      (s : Strategy) (r : Supervisor)
      → SpentBy c.max_retries (length os) r s
      → r.restarts ≤ c.max_retries
  spent_restarts (exponential e) r h = omega (arith, h.spent, h.covered)
  spent_restarts never_strategy r h = elim h [ ]
  spent_restarts (always_strategy d) r h = elim h [ ]

  spent_refuses :
      (s : Strategy) (r : Supervisor)
      → SpentBy c.max_retries (length os) r s
      → (strategy_next_delay s).2 ≡ ltb (length os) c.max_retries
  unfolding strategy_next_delay
  spent_refuses (exponential e) r h = ground (arith, h.spent, h.budget)
  spent_refuses never_strategy r h = elim h [ ]
  spent_refuses (always_strategy d) r h = elim h [ ]

  -- In its whole life a supervisor that backs off, with a number of retries that is not zero, restarts
  -- the collector at most that many times, and grants the next restart exactly while it has seen fewer
  -- failures than that, however many restarts have ended healthy.
  pub run_budget :
      ((run c first os).restarts ≤ c.max_retries)
      × ((strategy_next_delay (run c first os).strategy).2 ≡ ltb (length os) c.max_retries)
  run_budget = (
    spent_restarts (run c first os).strategy (run c first os) run-IsSpent,
    spent_refuses (run c first os).strategy (run c first os) run-IsSpent,
  )
