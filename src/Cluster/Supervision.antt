-- ===== src/Cluster/Supervision.antt =====
-- actix-cluster/src/supervision.rs: what a supervisor does when the actor it supervises fails. An
-- address is of any type `A`; the one that a started actor has is given.
use actix_pura.Prelude.{
  ℕ, ◌+◌, ◌-◌, ◌/◌, String, Option, none, some, List, [], ◌∷◌, ◌++◌, if◌then◌else◌, str_eq,
  unwrap_or, leb, ltb, length,
}
use actix_pura.Cluster.Placement.{PlacementStrategy}

-- A `Duration` is a number of nanoseconds. The matchers of a strategy are a list that holds
-- strategies.
mutual
  pub data SupervisionStrategy : Type 0 where
    restart : (max_restarts window delay : ℕ) → SupervisionStrategy
    stop escalate resume : SupervisionStrategy
    relocate : PlacementStrategy → (max_relocations delay : ℕ) → SupervisionStrategy
    matching :
        (default : SupervisionStrategy) (matchers : SupervisionMatchers) → SupervisionStrategy

  pub data SupervisionMatchers : Type 0 where
    end : SupervisionMatchers
    matcher :
        (error_type : String) (strategy : SupervisionStrategy)
        → SupervisionMatchers
        → SupervisionMatchers

abbrev pub as_secs : ℕ → ℕ
as_secs d = d / 1000000000

abbrev pub default_strategy : SupervisionStrategy
default_strategy = restart 10 60000000000 100000000

pub record FailureInfo : Type 0 where
  pub actor_path : String
  pub node_id : String
  pub time : ℕ
  pub error : String
  pub error_type : String
  pub restart_count : ℕ
  pub failure_id : String

-- `DistributedSupervisor`, without the factory.
pub record DistributedSupervisor (A : Type 0) : Type 0 where
  pub strategy : SupervisionStrategy
  pub restart_count : ℕ
  pub last_restart : Option ℕ
  pub actor_path : String
  pub addr : Option A
  pub node_id : String

-- `now - last` on 64 bits, which wraps when the clock went back.
abbrev pub elapsed : ℕ → ℕ → ℕ
elapsed now last = if leb last now then now - last else now + 18446744073709551616 - last

module _ {A : Type 0} where
  -- `DistributedSupervisor::new`, where `own` is the strategy of the actor.
  abbrev pub new_supervisor :
      (path node : String) (own : SupervisionStrategy)
      → Option SupervisionStrategy
      → DistributedSupervisor A
  new_supervisor path node own strategy = record {
    strategy = unwrap_or own strategy;
    restart_count = 0;
    last_restart = none;
    actor_path = path;
    addr = none;
    node_id = node;
  }

  -- `start`
  unfoldable pub start_actor : A → DistributedSupervisor A → DistributedSupervisor A
  start_actor fresh s = record s { addr = some fresh }

  -- The count after the check of the window.
  unfoldable pub reset_count : ℕ → ℕ → DistributedSupervisor A → DistributedSupervisor A
  reset_count window now s = elim s.last_restart [
    | none ↦ s
    | some last ↦
        if ltb (as_secs window) (elapsed now last) then record s { restart_count = 0 } else s
  ]

  unfoldable pub restart_actor :
      ℕ → ℕ → A → DistributedSupervisor A → Option A × DistributedSupervisor A
  restart_actor max_restarts now fresh s = if leb max_restarts s.restart_count then (none, s) else (
    some fresh,
    record s { restart_count = s.restart_count + 1; last_restart = some now; addr = some fresh },
  )

  unfoldable pub relocate_actor :
      ℕ → A → DistributedSupervisor A → Option A × DistributedSupervisor A
  relocate_actor max_relocations fresh s =
      if leb max_relocations s.restart_count
      then (none, s)
      else (some fresh, record s { restart_count = s.restart_count + 1; addr = some fresh })

  -- What is taken over from the temporary supervisor of a matched strategy.
  unfoldable pub take_over :
      DistributedSupervisor A
      → Option A × DistributedSupervisor A
      → Option A × DistributedSupervisor A
  take_over s (none, t) = (none, s)
  take_over s (some a, t) = (
    some a,
    record s { restart_count = t.restart_count; last_restart = t.last_restart; addr = t.addr },
  )

-- `handle_failure` by a strategy, at a time, where `error_type` is the name of the type `&dyn Error`.
-- `handle_matched` is the same by the first matcher of that type.
unfoldable mutual
  pub handle_failure :
      {A : Type 0}
      → SupervisionStrategy
      → String
      → ℕ
      → A
      → DistributedSupervisor A
      → Option A × DistributedSupervisor A
  handle_failure stop error_type now fresh s = (none, s)
  handle_failure resume error_type now fresh s = (s.addr, s)
  handle_failure (restart max_restarts window delay) error_type now fresh s =
      restart_actor max_restarts now fresh (reset_count window now s)
  handle_failure (relocate placement max_relocations delay) error_type now fresh s =
      relocate_actor max_relocations fresh s
  handle_failure escalate error_type now fresh s = (none, s)
  handle_failure (matching default matchers) error_type now fresh s = take_over s (
      unwrap_or (handle_failure default error_type now fresh s)
        (handle_matched matchers error_type now fresh s))

  pub handle_matched :
      {A : Type 0}
      → SupervisionMatchers
      → String
      → ℕ
      → A
      → DistributedSupervisor A
      → Option (Option A × DistributedSupervisor A)
  handle_matched end error_type now fresh s = none
  handle_matched (matcher e strategy matchers) error_type now fresh s =
      let rest = handle_matched matchers error_type now fresh s in
      if str_eq e error_type then some (handle_failure strategy error_type now fresh s) else rest

-- `SupervisorActor`
pub record SupervisorActor (A : Type 0) : Type 0 where
  pub supervisor : DistributedSupervisor A
  pub last_failure : Option ℕ
  pub failure_history : List FailureInfo

-- `ReportFailure`, and what is outside: the clock, which is read three times, an identifier, and an
-- address.
pub record ReportFailure (A : Type 0) : Type 0 where
  pub error : String
  pub failure_id : String
  pub seen : ℕ
  pub recorded : ℕ
  pub handled : ℕ
  pub fresh : A

-- `remove(0)` when there are more than ten.
unfoldable pub limit_history : List FailureInfo → List FailureInfo
limit_history [] = []
limit_history (i ∷ is) = if ltb 10 (length (i ∷ is)) then is else i ∷ is

module _ {A : Type 0} where
  unfoldable pub new_failure_info : String → ReportFailure A → DistributedSupervisor A → FailureInfo
  new_failure_info error_type r s = record {
    actor_path = s.actor_path;
    node_id = s.node_id;
    time = r.recorded;
    error = r.error;
    error_type = error_type;
    restart_count = s.restart_count;
    failure_id = r.failure_id;
  }

  -- `SupervisorActor::new`, and `started`.
  abbrev pub new_supervisor_actor :
      (path node : String) (own : SupervisionStrategy)
      → Option SupervisionStrategy
      → SupervisorActor A
  new_supervisor_actor path node own strategy = record {
    supervisor = new_supervisor path node own strategy;
    last_failure = none;
    failure_history = [];
  }

  unfoldable pub started : A → SupervisorActor A → SupervisorActor A
  started fresh w = record w { supervisor = start_actor fresh w.supervisor }

  unfoldable pub report_failure :
      String → ReportFailure A → SupervisorActor A → Option A × SupervisorActor A
  report_failure error_type r w =
      let info = new_failure_info error_type r w.supervisor in
      let (answer, s) =
        handle_failure w.supervisor.strategy error_type r.handled r.fresh w.supervisor in
      (
        answer,
        record {
          supervisor = s;
          last_failure = some r.seen;
          failure_history = limit_history (w.failure_history ++ (info ∷ []));
        },
      )

  -- Failures, one after another, and what is answered to them.
  unfoldable pub report_failures :
      String → List (ReportFailure A) → SupervisorActor A → List (Option A) × SupervisorActor A
  report_failures error_type [] w = ([], w)
  report_failures error_type (r ∷ rs) w =
      let (answer, w') = report_failure error_type r w in
      let (answers, w'') = report_failures error_type rs w' in (answer ∷ answers, w'')
