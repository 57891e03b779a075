-- ===== src/Cluster/Migrating.antt =====
-- actix-cluster/src/migration.rs: the status of a migration is that of the last message about it.
use actix_pura.Prelude.{
  ◌≡◌, refl, ap, ◌∙◌, String, Bool, true, false, Option, none, some, List, [], ◌∷◌, ◌++◌,
  if◌then◌else◌, str_eq, str_eq→eq, find, Option-cases, Bool-cases, inl, inr, arith,
}
use mathlib.Core.Path.{subst}
use actix_pura.Cluster.Migration.{
  MigrationStatus, in_progress, completed, failed, MigrationRequest, MigrationMessage,
  migration_response, MigrationManager, set_status, push_migration, update_migration, migrate_actor,
  handle_migration_request, handle_migration_response, complete_migration, fail_migration,
  get_migration_status, MigrationCall, migrate, receive_request, receive_response, complete, fail,
  migration_call, migration_calls,
}

-- The status in a table.
abbrev pub status_in : String → List (String × MigrationStatus) → Option MigrationStatus
status_in id table = elim (find (λ e. str_eq e.0 id) table) [ none ↦ none | some e ↦ some e.1 ]

-- A migration that is recorded is in progress, unless it was recorded before.
abbrev pub recorded : Option MigrationStatus → Option MigrationStatus
recorded none = some in_progress
recorded (some s) = some s

-- A migration that is known gets a status.
abbrev pub changed : MigrationStatus → Option MigrationStatus → Option MigrationStatus
changed new none = none
changed new (some s) = some new

status_in-append :
    (id j : String) (table : List (String × MigrationStatus))
    → status_in id (table ++ ((j, in_progress) ∷ []))
      ≡ (if str_eq j id then recorded (status_in id table) else status_in id table)
status_in-append id j [] = ground arith
status_in-append id j ((k, s) ∷ table) = ground (arith, status_in-append id j table)

status_of_unknown :
    (id : String) (new : MigrationStatus) (table : List (String × MigrationStatus))
    → set_status id new table ≡ none
    → status_in id table ≡ none
unfolding set_status
status_of_unknown id new [] h = refl
status_of_unknown id new ((k, s) ∷ table) h = ground (arith, status_of_unknown id new table)

status_of_known :
    (id j : String) (new : MigrationStatus) (table : List (String × MigrationStatus))
    {table' : List (String × MigrationStatus)}
    → set_status j new table ≡ some table'
    → status_in id table'
      ≡ (if str_eq j id then changed new (status_in id table) else status_in id table)
unfolding set_status str_eq
status_of_known id j new [] h = cc
status_of_known id j new ((k, s) ∷ table) {table'} h =
    elim (Option-cases (set_status j new table)) [
      | inl out ↦ ground (arith, rw out at h)
      | inr (rest, e) ↦ ground (arith, rw e at h, status_of_known id j new table e)
    ]

module _ {T : Type 0} where
  get_migration_status_lem :
      (id : String) (m : MigrationManager T)
      → get_migration_status id m ≡ status_in id m.active_migrations
  unfolding get_migration_status
  get_migration_status_lem id m = refl

  update_migration_status :
      (id j : String) (new : MigrationStatus) (m : MigrationManager T)
      → get_migration_status id (update_migration j new m).1 ≡ (
          if str_eq j id
          then changed new (get_migration_status id m)
          else get_migration_status id m)
  unfolding update_migration get_migration_status
  update_migration_status id j new m = elim (Option-cases (set_status j new m.active_migrations)) [
    | inl e ↦
        rw (e, update_migration)
          (elim (Bool-cases (str_eq j id)) [
            | inl same ↦
                let out =
                  subst (λ i. status_in i m.active_migrations ≡ none) (str_eq→eq j id same)
                    (status_of_unknown j new m.active_migrations e) in
                rw (same, out) refl
            | inr other ↦ rw other refl
          ])
    | inr (table, e) ↦ rw (e, update_migration) (status_of_known id j new m.active_migrations e)
  ]

  push_migration_status :
      (id j : String) (m : MigrationManager T)
      → get_migration_status id (push_migration j m)
        ≡ (if str_eq j id then recorded (get_migration_status id m) else get_migration_status id m)
  unfolding push_migration get_migration_status
  push_migration_status id j m = status_in-append id j m.active_migrations

module _ {T : Type 0} (found : String → Bool) (send : T → String → MigrationMessage → Bool)
    (transport : Option T) (id : String) where
  -- The answer to a request goes out.
  abbrev pub answered : MigrationRequest → Bool
  answered r = elim transport [
    | none ↦ false
    | some t ↦ send t r.source_node (
        migration_response (record { request_id = r.id; accepted = true; rejection_reason = none }))
  ]

  -- What a call makes of the status of the migration `id`.
  abbrev pub status_after : MigrationCall → Option MigrationStatus → Option MigrationStatus
  status_after (migrate fresh actor_path target reason options) s =
      if found actor_path then (if str_eq fresh id then recorded s else s) else s
  status_after (receive_request r) s =
      if answered r then (if str_eq r.id id then recorded s else s) else s
  status_after (receive_response r) s =
      if str_eq r.request_id id then changed (if r.accepted then in_progress else failed) s else s
  status_after (complete j) s = if str_eq j id then changed completed s else s
  status_after (fail j) s = if str_eq j id then changed failed s else s

  abbrev pub status_after_all : List MigrationCall → Option MigrationStatus → Option MigrationStatus
  status_after_all [] s = s
  status_after_all (c ∷ cs) s = status_after_all cs (status_after c s)

  call_status :
      (c : MigrationCall) (m : MigrationManager T)
      → m.transport ≡ transport
      → get_migration_status id (migration_call found send c m).1
        ≡ status_after c (get_migration_status id m)
  unfolding migration_call migrate_actor handle_migration_request handle_migration_response
      complete_migration fail_migration
  call_status (migrate fresh actor_path target reason options) m h =
      ground (arith, push_migration_status id fresh m)
  call_status (receive_request r) m h = ground (arith, push_migration_status id r.id m, h)
  call_status (receive_response r) m h = update_migration_status id r.request_id _ m
  call_status (complete j) m h = update_migration_status id j completed m
  call_status (fail j) m h = update_migration_status id j failed m

  call_transport :
      (c : MigrationCall) (m : MigrationManager T)
      → (migration_call found send c m).1.transport ≡ m.transport
  unfolding migration_call migrate_actor handle_migration_request handle_migration_response
      complete_migration fail_migration update_migration push_migration
  call_transport (migrate fresh actor_path target reason options) m = ground arith
  call_transport (receive_request r) m = ground arith
  call_transport (receive_response r) m = ground arith
  call_transport (complete j) m = ground arith
  call_transport (fail j) m = ground arith

  -- Whatever a manager of migrations is asked and told, the status of a migration is the one that
  -- the calls about it bring about, in their order: it is in progress from its record on, then what
  -- the last response or end of it says, and other migrations do not change it. A request of
  -- another node is recorded when its answer goes out, an own request when the actor is found, also
  -- when it is not sent.
  pub migration_calls_status :
      (cs : List MigrationCall) (m : MigrationManager T)
      → m.transport ≡ transport
      → get_migration_status id (migration_calls found send cs m)
        ≡ status_after_all cs (get_migration_status id m)
  unfolding migration_calls
  migration_calls_status [] m h = refl
  migration_calls_status (c ∷ cs) m h =
      migration_calls_status cs (migration_call found send c m).1 (call_transport c m ∙ h)
      ∙ ap (status_after_all cs) (call_status c m h)
