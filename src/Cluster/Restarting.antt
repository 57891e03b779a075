-- ===== src/Cluster/Restarting.antt =====
-- actix-cluster/src/supervision.rs: the failures that are reported to a supervisor, one after another.
use actix_pura.Prelude.{
  ℕ, suc, ◌+◌, ◌≤◌, ◌≡◌, refl, ap, ◌∙◌, String, Option, none, some, List, [], ◌∷◌, if◌then◌else◌,
  unwrap_or, ltb, Bool-cases, inl, inr, arith, All,
}
use actix_pura.Cluster.Supervision.{
  SupervisionStrategy, DistributedSupervisor, SupervisorActor, ReportFailure, as_secs, reset_count,
  restart_actor, relocate_actor, take_over, handle_failure, report_failure, report_failures,
  restart, stop, resume, escalate, relocate, matching, start_actor, started, new_supervisor_actor,
}
use actix_pura.Cluster.Budget.{applied, recent, Counts, Until, strategy-Answers}

Until-later : (now later : ℕ) (ts : List ℕ) → Until now ts → now ≤ later → Until later ts
Until-later now later [] u h = tt
Until-later now later (t ∷ ts) u h = omega (arith, u, h)

module _ {A : Type 0} where
  -- What is answered by a budget of restarts alone, where `ts` are the times of the restarts so far.
  unfoldable pub budgeted :
      (max_restarts secs : ℕ) → List (ReportFailure A) → List ℕ → List (Option A)
  budgeted max_restarts secs [] ts = []
  budgeted max_restarts secs (r ∷ rs) ts =
      let refused = none ∷ budgeted max_restarts secs rs ts in
      let restarted = some r.fresh ∷ budgeted max_restarts secs rs (r.handled ∷ ts) in
      if ltb (recent secs r.handled ts) max_restarts then restarted else refused

  -- The clock does not go back.
  abbrev pub Ordered : ℕ → List (ReportFailure A) → Type 0
  Ordered now [] = Unit
  Ordered now (r ∷ rs) = (now ≤ r.handled) × Ordered r.handled rs

  take_over_strategy :
      (s : DistributedSupervisor A) (r : Option A × DistributedSupervisor A)
      → (take_over s r).1.strategy ≡ s.strategy
  unfolding take_over
  take_over_strategy s (none, t) = refl
  take_over_strategy s (some a, t) = refl

  reset_count_strategy :
      (window now : ℕ) (s : DistributedSupervisor A)
      → (reset_count window now s).strategy ≡ s.strategy
  unfolding reset_count
  reset_count_strategy window now s = ground arith

  keeps_strategy :
      (strategy : SupervisionStrategy) (e : String) (now : ℕ) (fresh : A)
      (s : DistributedSupervisor A)
      → (handle_failure strategy e now fresh s).1.strategy ≡ s.strategy
  unfolding handle_failure restart_actor relocate_actor
  keeps_strategy stop e now fresh s = refl
  keeps_strategy resume e now fresh s = refl
  keeps_strategy escalate e now fresh s = refl
  keeps_strategy (restart max_restarts window delay) e now fresh s =
      ground (arith, reset_count_strategy window now s)
  keeps_strategy (relocate placement max_relocations delay) e now fresh s = ground arith
  keeps_strategy (matching default matchers) e now fresh s = take_over_strategy s _

module _ {A : Type 0} (max_restarts window delay : ℕ) (e : String) where
  pub report_failures_answers :
      (rs : List (ReportFailure A)) (ts : List ℕ) (now : ℕ) (w : SupervisorActor A)
      → applied w.supervisor.strategy e ≡ restart max_restarts window delay
      → Counts max_restarts (as_secs window) ts w.supervisor
      → Until now ts
      → Ordered now rs
      → (report_failures e rs w).0 ≡ budgeted max_restarts (as_secs window) rs ts
  unfolding report_failures report_failure budgeted
  report_failures_answers [] ts now w is c u o = refl
  report_failures_answers (r ∷ rs) ts now w is c u o =
      let later = Until-later now r.handled ts u o.0 in
      let step =
        strategy-Answers max_restarts window delay r.handled r.fresh ts w.supervisor c later
          w.supervisor.strategy e is in
      let w' = (report_failure e r w).1 in
      let is' : applied w'.supervisor.strategy e ≡ restart max_restarts window delay =
        ap (λ x. applied x e)
          (keeps_strategy w.supervisor.strategy e r.handled r.fresh w.supervisor)
        ∙ is in
      elim (Bool-cases (ltb (recent (as_secs window) r.handled ts) max_restarts)) [
        | inl more ↦
            let counts = rw more at step.counts in
            rw (step.answers, more)
              (ap (λ l. some r.fresh ∷ l)
                (report_failures_answers rs (r.handled ∷ ts) r.handled w' is' counts (omega arith)
                  o.1))
        | inr spent ↦
            let counts = rw spent at step.counts in
            rw (step.answers, spent)
              (ap (λ l. none ∷ l) (report_failures_answers rs ts r.handled w' is' counts later o.1))
      ]

  -- To failures that are reported to a supervisor from its start on, by a clock that does not go
  -- back, it answers as a budget of restarts says: the actor is restarted if, and only if, fewer
  -- restarts than the most that are allowed have come before without a gap of more than the window.
  -- The restarting strategy is its own, or the one that matching the type of the errors comes to.
  pub report_failures_lem :
      (path node : String) (own : SupervisionStrategy) (strategy : Option SupervisionStrategy)
      (first : A) (rs : List (ReportFailure A))
      → applied (unwrap_or own strategy) e ≡ restart max_restarts window delay
      → Ordered 0 rs
      → (report_failures e rs (started first (new_supervisor_actor path node own strategy))).0
        ≡ budgeted max_restarts (as_secs window) rs []
  unfolding started start_actor
  report_failures_lem path node own strategy first rs is o =
      report_failures_answers rs [] 0 (started first (new_supervisor_actor path node own strategy))
        is (record { last = refl; count = refl; bound = omega arith }) tt o

-- How many are answered with a restarted actor.
abbrev pub restarts : {A : Type 0} → List (Option A) → ℕ
restarts [] = 0
restarts (none ∷ rest) = restarts rest
restarts (some a ∷ rest) = suc (restarts rest)

-- All are handled within one period of that many seconds.
abbrev pub Within : {A : Type 0} (secs from : ℕ) → List (ReportFailure A) → Type 0
Within secs from rs = All (λ r. (from ≤ r.handled) × (r.handled ≤ from + secs)) rs
