-- ===== src/Raft/Examples.antt =====
-- trading/src/consensus/raft.rs: the theorems at concrete nodes, and runs of the handlers.
use actix_pura.Prelude.{
  ◌⊎◌, ℕ, ◌+◌, ◌<◌, ◌≡◌, refl, String, true, false, some, none, List, [], ◌∷◌, ◌++◌, arith, inr,
  String-discrete,
}
use actix_pura.Prelude.Dict.{lookup, insert}
use actix_pura.Raft.Types.{
  RaftNode, RaftNodeState, LogEntry, StateMachine, RaftRequest, default_config, append_entries,
  append_response,
}
use actix_pura.Raft.Log.{truncate, has_index, entries_from, log_consistent, merge_entries, entry_at}
use actix_pura.Raft.Rpc.{
  handle_request, handle_request_vote, handle_append_entries, step_down, accept_entries,
  advance_commit, heard_from,
}
use actix_pura.Raft.Leader.{
  replication, handle_answer, commit_loop, try_commit, count_from, apply_loop, apply_next,
  append_command, handle_append_entries_response, apply_committed_entries, handle_client_command,
}
use actix_pura.Raft.Steps.{here, next, request}
use actix_pura.Raft.Ordered.{IsAscending}
use actix_pura.Raft.Applying.{run_range, apply_committed_entries_lem}
use actix_pura.Raft.Voting.{one_vote_per_term}
use actix_pura.Raft.Shape.{Reach-IsAscending}
use actix_pura.Raft.Matching.{replication-append_entries}
use mathlib.Core.List.{Memᴰ}
use actix_pura.Raft.Majority.{MostHold, response_commits_held}

-- A machine that keeps the commands.
abbrev machine : StateMachine ℕ (List ℕ)
machine = record { apply = λ c s. s ++ c ∷ []; update_applied = λ i t s. s }

abbrev entry : ℕ → ℕ → LogEntry ℕ
entry t i = record { term = t; index = i; command = i + 100 }

abbrev node : RaftNode ℕ (List ℕ)
node = record {
  node_id = "a";
  current_term = 0;
  voted_for = none;
  log = [];
  commit_index = 0;
  last_applied = 0;
  next_index = [];
  match_index = [];
  state = RaftNodeState.follower;
  current_leader_id = none;
  last_heartbeat = 0;
  election_timeout = 200;
  config = default_config;
  cluster_nodes = "b" ∷ "c" ∷ [];
  state_machine = [];
  cluster_manager = false;
  heartbeat_timer = none;
  election_timer = none;
}

abbrev voter : RaftNode ℕ (List ℕ)
voter = record node { current_term = 1; voted_for = some "b"; last_heartbeat = 1 }

abbrev leading : RaftNode ℕ (List ℕ)
leading = record node {
  current_term = 2;
  state = RaftNodeState.leader;
  log = entry 1 1 ∷ entry 2 2 ∷ entry 2 3 ∷ [];
  next_index = ("b", 2) ∷ ("c", 1) ∷ [];
  match_index = ("b", 1) ∷ ("c", 0) ∷ [];
}

-- It agrees with the leader up to index 1, and holds an entry of its own.
abbrev behind : RaftNode ℕ (List ℕ)
behind = record node { node_id = "b"; current_term = 1; log = entry 1 1 ∷ entry 1 2 ∷ [] }

-- It holds three committed entries.
abbrev ahead : RaftNode ℕ (List ℕ)
ahead = record node {
  current_term = 2;
  log = entry 1 1 ∷ entry 2 2 ∷ entry 2 3 ∷ [];
  commit_index = 3;
}

abbrev heartbeat_of_b : RaftRequest ℕ
heartbeat_of_b = append_entries 1 "b" 0 0 [] 0

one_vote_per_term_example : ◌≡◌ {A = String} "b" "b"
unfolding handle_request handle_request_vote handle_append_entries step_down accept_entries
    advance_commit heard_from merge_entries log_consistent String-discrete
one_vote_per_term_example =
    one_vote_per_term machine 1 3 1 1 1 0 0 0 0 "b" "b" node voter
      (handle_request 2 heartbeat_of_b voter).1
      (record voter { current_leader_id = some "b"; last_heartbeat = 3 }) refl
      (next here (request 2 heartbeat_of_b)) refl

Reach-IsAscending_example :
    IsAscending
      (handle_request 1
        (append_entries 1 "b" 0 0 (entry 1 2 ∷ entry 1 1 ∷ entry 1 2 ∷ []) 0)
        node).1.log
Reach-IsAscending_example =
    Reach-IsAscending machine {n = node} tt
      (next here (request 1 (append_entries 1 "b" 0 0 (entry 1 2 ∷ entry 1 1 ∷ entry 1 2 ∷ []) 0)))

replication-append_entries_example :
    let (r, g) = handle_append_entries 5 (replication "b" leading) behind in
    (g.log ≡ leading.log) × (r ≡ append_response 2 true 3)
unfolding lookup String-discrete entries_from truncate has_index
replication-append_entries_example =
    replication-append_entries 5 "b" leading behind 1 refl (omega arith) refl (omega arith)
      (omega arith) (omega arith) refl (inr refl)

apply_committed_entries_lem_example :
    (apply_loop machine 9 ahead ≡ some (apply_committed_entries machine ahead))
    × ((apply_committed_entries machine ahead).last_applied ≡ 3)
    × ((apply_committed_entries machine ahead).state_machine ≡ run_range machine ahead.log 3 0 [])
apply_committed_entries_lem_example =
    apply_committed_entries_lem machine 9 ahead (omega arith) (omega arith) (omega arith)

-- The answer of one of two followers makes a majority of three.
commits_runs :
    (handle_append_entries_response machine "b" (append_response 2 true 3) leading).0.commit_index
    ≡ 3
unfolding handle_append_entries_response handle_answer commit_loop try_commit count_from
    apply_committed_entries apply_loop apply_next insert String-discrete entry_at
commits_runs = refl

-- A leader on its own commits a command at once, and runs it.
alone_runs :
    (handle_client_command machine 7
      (record leading { cluster_nodes = []; commit_index = 3; last_applied = 3 })).1.state_machine
    ≡ 7 ∷ []
unfolding handle_client_command append_command apply_committed_entries apply_loop apply_next
    entry_at
alone_runs = refl

-- The answer of one of two followers makes a majority of three.
response_commits_held_example :
    let n = record leading {
      match_index = insert "b" 3 leading.match_index;
      next_index = insert "b" 4 leading.next_index;
    } in
    let k = (handle_append_entries_response machine "b" (append_response 2 true 3) leading).0 in
    (k.commit_index ≡ leading.commit_index)
    ⊎ ((e : LogEntry ℕ) × Memᴰ e leading.log
        × (e.term ≡ leading.current_term)
        × (leading.commit_index < e.index)
        × (k.commit_index ≡ e.index)
        × MostHold e.index n)
unfolding lookup String-discrete
response_commits_held_example =
    response_commits_held machine "b" 2 3 leading (omega arith) (Memᴰ.head refl)
      (Memᴰ.head refl, refl, (Memᴰ.tail (Memᴰ.head refl), refl, tt))
