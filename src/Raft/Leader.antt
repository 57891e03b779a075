-- ===== src/Raft/Leader.antt =====
-- trading/src/consensus/raft.rs: elections, replication and commitment. A handler returns the
-- node and what it asks of the outside, in order. A request struct that the source builds beside
-- a `send_message` call is a function here (`vote_request`, `heartbeat`, `replication`).
use actix_pura.Prelude.{
  ℕ, zero, suc, ◌+◌, ◌-◌, ◌*◌, String, Bool, true, false, Option, none, some, List, [], ◌∷◌, ◌++◌,
  ◌&&◌, ltb, leb, ◌==◌, if◌then◌else◌, length, is_empty, unwrap_or, add64, sub64, String-discrete,
  ite,
}
use actix_pura.Prelude.Dict.{lookup, insert}
use actix_pura.Raft.Types.{
  RaftNodeState, LogEntry, RaftRequest, RaftResponse, RaftNode, StateMachine, Effect, Outside,
  ClientResult, request_vote, append_entries, append_response, is_leader, is_candidate,
  send_message, cancel_future, run_later, run_interval, success, redirect,
}
use actix_pura.Raft.Log.{last_index, last_term, next_log_index, entry_at, prev_term, entries_from}

-- `contains`
abbrev pub contains_node : String → List String → Bool
contains_node i [] = false
contains_node i (j ∷ l) = ite (String-discrete i j) true (contains_node i l)

-- `filter(|node_id| node_id != &self.node_id)`
abbrev pub without_node : String → List String → List String
without_node i [] = []
without_node i (j ∷ l) = ite (String-discrete i j) (without_node i l) (j ∷ without_node i l)

-- `for node_id in nodes { map.insert(node_id, v) }`
abbrev pub insert_each : List String → ℕ → List (String × ℕ) → List (String × ℕ)
insert_each [] v d = d
insert_each (i ∷ l) v d = insert_each l v (insert i v d)

-- A timer that is set is cancelled.
abbrev pub cancelled : Option ℕ → List Effect
cancelled none = []
cancelled (some h) = cancel_future h ∷ []

-- `match_index.values().filter(|&&idx| idx >= i).count()`
unfoldable pub count_from : ℕ → List (String × ℕ) → ℕ
count_from i [] = 0
count_from i ((_, m) ∷ d) = (if leb i m then 1 else 0) + count_from i d

-- `manager.send_message` to each of some nodes, if there is a manager.
unfoldable pub send_each : String → Bool → List String → List Effect
send_each kind false l = []
send_each kind true [] = []
send_each kind true (i ∷ l) = send_message i kind ∷ send_each kind true l

module _ {C S : Type 0} where
  -- `add_cluster_node`; `none` is the error.
  unfoldable pub add_cluster_node : String → RaftNode C S → Option (RaftNode C S)
  add_cluster_node i n =
      if contains_node i n.cluster_nodes
      then none
      else ite (String-discrete i n.node_id) none (
          some (record n {
            cluster_nodes = n.cluster_nodes ++ i ∷ [];
            next_index = insert i 1 n.next_index;
            match_index = insert i 0 n.match_index;
          }))

  -- Every other node is taken to lack all that follows the leader's log.
  unfoldable pub init_replication : RaftNode C S → RaftNode C S
  init_replication n = record n {
    next_index = insert_each n.cluster_nodes (next_log_index n.log) n.next_index;
    match_index = insert_each n.cluster_nodes 0 n.match_index;
  }

  -- `set_cluster_nodes`
  unfoldable pub set_cluster_nodes : List String → RaftNode C S → RaftNode C S
  unfolding init_replication
  set_cluster_nodes l n =
      let n' = record n { cluster_nodes = without_node n.node_id l } in
      if is_leader n.state then init_replication n' else n'

  -- `reset_election_timeout`
  unfoldable pub reset_election_timeout : Outside → RaftNode C S → RaftNode C S × List Effect
  reset_election_timeout o n = (
    record n {
      election_timeout = o.random_timeout;
      last_heartbeat = o.now;
      election_timer = some o.handle;
    },
    cancelled n.election_timer ++ run_later o.random_timeout ∷ [],
  )

  -- The request that a candidate makes.
  unfoldable pub vote_request : RaftNode C S → RaftRequest C
  vote_request n = request_vote n.current_term n.node_id (last_index n.log) (last_term n.log)

  -- `start_election`
  unfoldable pub start_election : Outside → RaftNode C S → RaftNode C S × List Effect
  start_election o n =
      if is_leader n.state
      then (n, [])
      else (let n' = record n {
        state = RaftNodeState.candidate;
        current_term = add64 n.current_term 1;
        voted_for = some n.node_id;
      } in
          let (m, es) = reset_election_timeout o n' in
          (m, es ++ send_each "raft.request_vote" n.cluster_manager n.cluster_nodes))

  -- The closure of the election timer.
  unfoldable pub election_due : Outside → RaftNode C S → RaftNode C S × List Effect
  election_due o n =
      if is_leader n.state
      then (n, [])
      else if leb n.election_timeout (o.now - n.last_heartbeat)
      then start_election o n
      else (n, [])

  -- The request that carries no entries.
  unfoldable pub heartbeat : String → RaftNode C S → RaftRequest C
  heartbeat i n =
      let prev = sub64 (unwrap_or 1 (lookup i n.next_index)) 1 in
      append_entries n.current_term n.node_id prev (prev_term prev n.log) [] n.commit_index

  -- `send_heartbeats`
  unfoldable pub send_heartbeats : RaftNode C S → List Effect
  send_heartbeats n =
      if is_leader n.state
      then send_each "raft.append_entries" n.cluster_manager n.cluster_nodes
      else []

  -- `become_leader`
  unfoldable pub become_leader : Outside → RaftNode C S → RaftNode C S × List Effect
  become_leader o n =
      let n' =
        init_replication
          (record n { state = RaftNodeState.leader; current_leader_id = some n.node_id }) in
      if is_candidate n.state
      then (
        record n' { election_timer = none; heartbeat_timer = some o.handle },
        cancelled n.election_timer
            ++ (send_heartbeats n' ++ run_interval n.config.heartbeat_interval ∷ []),
      )
      else (n, [])

  -- The request of `replicate_log_to_follower`.
  unfoldable pub replication : String → RaftNode C S → RaftRequest C
  replication i n =
      let next = unwrap_or 1 (lookup i n.next_index) in
      let prev = sub64 next 1 in
      append_entries n.current_term n.node_id prev (prev_term prev n.log) (entries_from next n.log)
        n.commit_index

  -- `replicate_log_to_follower`, to each of some nodes.
  unfoldable pub replicate_to : List String → RaftNode C S → List Effect
  replicate_to l n =
      if is_leader n.state then send_each "raft.append_entries" n.cluster_manager l else []

  -- The entry that a command becomes, at the end of the leader's log.
  abbrev pub command_entry : C → RaftNode C S → LogEntry C
  command_entry c n = record { term = n.current_term; index = next_log_index n.log; command = c }

  unfoldable pub append_command : C → RaftNode C S → RaftNode C S
  append_command c n = record n { log = n.log ++ command_entry c n ∷ [] }

module _ {C S : Type 0} (m : StateMachine C S) where
  -- The effect of one entry, or of none, on the state machine.
  abbrev pub run_entry : Option (LogEntry C) → S → S
  run_entry none s = s
  run_entry (some e) s = m.update_applied e.index e.term (m.apply e.command s)

  -- The body of the loop of `apply_committed_entries`.
  unfoldable pub apply_next : RaftNode C S → RaftNode C S
  apply_next n =
      let i = add64 n.last_applied 1 in
      record n { last_applied = i; state_machine = run_entry (entry_at i n.log) n.state_machine }

  -- `while last_applied < commit_index`; `none` when the fuel runs out.
  unfoldable pub apply_loop : ℕ → RaftNode C S → Option (RaftNode C S)
  apply_loop zero n = none
  apply_loop (suc k) n =
      let rest = apply_loop k (apply_next n) in
      if ltb n.last_applied n.commit_index then rest else some n

  -- `apply_committed_entries`, with fuel for one test more than there are indexes to apply.
  unfoldable pub apply_committed_entries : RaftNode C S → RaftNode C S
  apply_committed_entries n = unwrap_or n (apply_loop (suc (n.commit_index - n.last_applied)) n)

  -- `handle_client_command`; `unknown` is the leader id "unknown".
  unfoldable pub handle_client_command :
      C → RaftNode C S → ClientResult × RaftNode C S × List Effect
  handle_client_command c n =
      let next = next_log_index n.log in
      let n' = append_command c n in
      if is_leader n.state
      then (if is_empty n.cluster_nodes
          then (
            success n.node_id next,
            apply_committed_entries (record n' { commit_index = next }),
            [],
          )
          else (success n.node_id next, n', replicate_to n.cluster_nodes n'))
      else (redirect (unwrap_or "unknown" n.current_leader_id), n, [])

  -- One round of the loop that looks for an entry to commit.
  unfoldable pub try_commit : LogEntry C → RaftNode C S → RaftNode C S
  try_commit e n =
      if e.term == n.current_term && ltb n.commit_index e.index
      then (if ltb (length n.cluster_nodes + 1) ((count_from e.index n.match_index + 1) * 2)
          then apply_committed_entries (record n { commit_index = e.index })
          else n)
      else n

  unfoldable pub commit_loop : List (LogEntry C) → RaftNode C S → RaftNode C S
  commit_loop [] n = n
  commit_loop (e ∷ l) n = commit_loop l (try_commit e n)

  -- An answer of the current term: commit what a majority has, or step back by one and retry.
  unfoldable pub handle_answer : String → Bool → ℕ → RaftNode C S → RaftNode C S × List Effect
  handle_answer i true matched n = (
    commit_loop n.log (record n {
      match_index = insert i matched n.match_index;
      next_index = insert i (add64 matched 1) n.next_index;
    }),
    [],
  )
  handle_answer i false matched n =
      let next = unwrap_or 1 (lookup i n.next_index) in
      let n' = record n { next_index = insert i (next - 1) n.next_index } in
      if ltb 1 next then (n', replicate_to (i ∷ []) n') else (n, [])

  -- `handle_append_entries_response`
  unfoldable pub handle_append_entries_response :
      String → RaftResponse → RaftNode C S → RaftNode C S × List Effect
  handle_append_entries_response i (append_response term ok matched) n =
      if ltb n.current_term term
      then (
        record n {
          current_term = term;
          state = RaftNodeState.follower;
          voted_for = none;
          current_leader_id = none;
          heartbeat_timer = none;
        },
        cancelled n.heartbeat_timer,
      )
      else handle_answer i ok matched n
  handle_append_entries_response i _ n = (n, [])
