-- ===== src/Cluster/Migration.antt =====
-- actix-cluster/src/migration.rs: `MigrationManager` and its table of migrations.
use actix_pura.Prelude.{
  ℕ, String, Bool, true, Option, none, some, List, [], ◌∷◌, ◌++◌, if◌then◌else◌, str_eq, find,
}

pub data MigrationStatus : Type 0 where
  in_progress completed failed : MigrationStatus

pub data MigrationReason : Type 0 where
  load_balancing node_failure locality_optimization application_request : MigrationReason

-- The timeout is a number of seconds.
pub record MigrationOptions : Type 0 where
  pub preserve_state : Bool
  pub keep_original : Bool
  pub timeout : ℕ
  pub priority : ℕ

abbrev pub default_options : MigrationOptions
default_options = record { preserve_state = true; keep_original = true; timeout = 30; priority = 5 }

pub record MigrationRequest : Type 0 where
  pub id : String
  pub source_node : String
  pub target_node : String
  pub actor_path : String
  pub actor_type : String
  pub reason : MigrationReason
  pub options : MigrationOptions

pub record MigrationResponse : Type 0 where
  pub request_id : String
  pub accepted : Bool
  pub rejection_reason : Option String

-- What is put into an envelope.
pub data MigrationMessage : Type 0 where
  migration_request : MigrationRequest → MigrationMessage
  migration_response : MigrationResponse → MigrationMessage

-- `ClusterError`, as far as the manager gives it; `not_sent` is one of the serializer or the transport.
pub data MigrationError : Type 0 where
  actor_not_found unknown_request : String → MigrationError
  transport_not_set not_sent : MigrationError

-- `ClusterResult`
pub data MigrationResult : Type 0 where
  migrating : String → MigrationResult
  done : MigrationResult
  error : MigrationError → MigrationResult

pub record MigrationManager (T : Type 0) : Type 0 where
  pub local_node_id : String
  pub transport : Option T
  pub active_migrations : List (String × MigrationStatus)

-- `position` of the identifier, and the status written there.
unfoldable pub set_status :
    String
    → MigrationStatus
    → List (String × MigrationStatus)
    → Option (List (String × MigrationStatus))
set_status id status [] = none
set_status id status ((j, old) ∷ table) =
    let rest = set_status id status table in
    if str_eq j id
    then some ((j, status) ∷ table)
    else elim rest [ none ↦ none | some table' ↦ some ((j, old) ∷ table') ]

module _ {T : Type 0} where
  abbrev pub new_manager : String → MigrationManager T
  new_manager node = record { local_node_id = node; transport = none; active_migrations = [] }

  unfoldable pub set_transport : T → MigrationManager T → MigrationManager T
  set_transport t m = record m { transport = some t }

  unfoldable pub push_migration : String → MigrationManager T → MigrationManager T
  push_migration id m = record m {
    active_migrations = m.active_migrations ++ ((id, in_progress) ∷ []);
  }

  -- The status of a known migration.
  unfoldable pub update_migration :
      String → MigrationStatus → MigrationManager T → MigrationResult × MigrationManager T
  update_migration id status m = elim (set_status id status m.active_migrations) [
    | none ↦ (error (unknown_request id), m)
    | some table ↦ (done, record m { active_migrations = table })
  ]

  unfoldable pub handle_migration_response :
      MigrationResponse → MigrationManager T → MigrationResult × MigrationManager T
  handle_migration_response response m =
      update_migration response.request_id (if response.accepted then in_progress else failed) m

  unfoldable pub complete_migration :
      String → MigrationManager T → MigrationResult × MigrationManager T
  complete_migration id m = update_migration id completed m

  unfoldable pub fail_migration : String → MigrationManager T → MigrationResult × MigrationManager T
  fail_migration id m = update_migration id failed m

  -- `send` tells whether the transport takes a message for a node.
  module _ (send : T → String → MigrationMessage → Bool) where
    -- `migrate_actor`, with a fresh identifier, where `found` tells whether the registry has an actor
    -- at a path.
    unfoldable pub migrate_actor :
        (found : String → Bool)
        → (fresh actor_path target : String) → MigrationReason
        → MigrationOptions
        → MigrationManager T
        → MigrationResult × MigrationManager T
    migrate_actor found fresh actor_path target reason options m =
        let request : MigrationRequest = record {
          id = fresh;
          source_node = m.local_node_id;
          target_node = target;
          actor_path = actor_path;
          actor_type = "unknown";
          reason = reason;
          options = options;
        } in
        let m' = push_migration fresh m in
        if found actor_path
        then elim m.transport [
          | none ↦ (error transport_not_set, m')
          | some t ↦
              if send t target (migration_request request)
              then (migrating fresh, m')
              else (error not_sent, m')
        ]
        else (error (actor_not_found actor_path), m)

    -- `handle_migration_request`, which accepts every request.
    unfoldable pub handle_migration_request :
        MigrationRequest → MigrationManager T → MigrationResult × MigrationManager T
    handle_migration_request request m =
        let response : MigrationResponse = record {
          request_id = request.id;
          accepted = true;
          rejection_reason = none;
        } in
        elim m.transport [
          | none ↦ (error transport_not_set, m)
          | some t ↦
              if send t request.source_node (migration_response response)
              then (done, push_migration request.id m)
              else (error not_sent, m)
        ]

  unfoldable pub get_migration_status : String → MigrationManager T → Option MigrationStatus
  get_migration_status id m = elim (find (λ e. str_eq e.0 id) m.active_migrations) [
    | none ↦ none
    | some e ↦ some e.1
  ]

-- What reaches a manager.
pub data MigrationCall : Type 0 where
  migrate : (fresh actor_path target : String) → MigrationReason → MigrationOptions → MigrationCall
  receive_request : MigrationRequest → MigrationCall
  receive_response : MigrationResponse → MigrationCall
  complete : String → MigrationCall
  fail : String → MigrationCall

module _ {T : Type 0} (found : String → Bool) (send : T → String → MigrationMessage → Bool) where
  unfoldable pub migration_call :
      MigrationCall → MigrationManager T → MigrationResult × MigrationManager T
  migration_call (migrate fresh actor_path target reason options) m =
      migrate_actor send found fresh actor_path target reason options m
  migration_call (receive_request request) m = handle_migration_request send request m
  migration_call (receive_response response) m = handle_migration_response response m
  migration_call (complete id) m = complete_migration id m
  migration_call (fail id) m = fail_migration id m

  unfoldable pub migration_calls : List MigrationCall → MigrationManager T → MigrationManager T
  migration_calls [] m = m
  migration_calls (c ∷ cs) m = migration_calls cs (migration_call c m).1
