-- ===== src/Cluster/Failing.antt =====
-- actix-cluster/src/supervision.rs and migration.rs: the theorems at a concrete supervisor and manager.
use actix_pura.Prelude.{
  ◌≡◌, refl, ℕ, none, some, true, false, List, [], ◌∷◌, String-discrete, str_eq, arith,
}
use actix_pura.Cluster.Supervision.{
  SupervisionStrategy, restart, stop, matching, matcher, end, ReportFailure, report_failures,
  started, new_supervisor_actor,
}
use actix_pura.Cluster.Migration.{
  MigrationCall, migrate, receive_response, complete, load_balancing, default_options,
  MigrationManager, get_migration_status, migration_calls,
}
use actix_pura.Cluster.Migrating.{status_after_all, migration_calls_status}
use actix_pura.Cluster.Budget.{applied}
use actix_pura.Cluster.Restarting.{budgeted, report_failures_lem}

abbrev failure : ℕ → ℕ → ReportFailure ℕ
failure t a = record {
  error = "error";
  failure_id = "failure";
  seen = t;
  recorded = t;
  handled = t;
  fresh = a;
}

-- Two restarts in ten seconds, for errors of the one type that there is.
abbrev nested : SupervisionStrategy
nested =
    matching (restart 10 60000000000 0)
      (matcher "Other" stop (matcher "&dyn Error" (restart 2 10000000000 0) end))

abbrev reports : List (ReportFailure ℕ)
reports = failure 5 1 ∷ failure 12 2 ∷ failure 14 3 ∷ failure 30 4 ∷ []

report_failures_lem_example :
    (report_failures "&dyn Error" reports
      (started 0 (new_supervisor_actor "a" "node" nested none))).0
    ≡ budgeted 2 10 reports []
unfolding applied String-discrete str_eq
report_failures_lem_example =
    report_failures_lem 2 10000000000 0 "&dyn Error" "a" "node" nested none 0 reports refl
      (omega arith, (omega arith, (omega arith, (omega arith, tt))))

-- A migration is recorded, rejected, and accepted late.
abbrev moves : List MigrationCall
moves =
    migrate "m" "/user/a" "other" load_balancing default_options
    ∷ receive_response (record { request_id = "m"; accepted = false; rejection_reason = none })
    ∷ complete "n"
    ∷ receive_response (record { request_id = "m"; accepted = true; rejection_reason = none })
    ∷ []

abbrev manager : MigrationManager ℕ
manager = record { local_node_id = "node"; transport = some 0; active_migrations = [] }

migration_calls_status_example :
    get_migration_status "m" (migration_calls (λ p. true) (λ t n x. true) moves manager)
    ≡ status_after_all {T = ℕ}
        (λ p. true)
        (λ t n x. true)
        (some 0)
        "m"
        moves
        (get_migration_status "m" manager)
migration_calls_status_example =
    migration_calls_status (λ p. true) (λ t n x. true) (some 0) "m" moves manager refl
