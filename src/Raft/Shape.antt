-- ===== src/Raft/Shape.antt =====
-- trading/src/consensus/raft.rs: the order of the log is an invariant of every step.
use actix_pura.Prelude.{
  ℕ, suc, ◌+◌, ◌<◌, ◌≡◌, ◌⊎◌, refl, ◌∙◌, String, Bool, true, false, List, [], ◌∷◌, ◌++◌, arith,
  u64_mod, inl, inr, some,
}
use actix_pura.Raft.Types.{
  LogEntry, RaftNode, RaftRequest, RaftResponse, StateMachine, Outside, request_vote,
  append_entries, install_snapshot, vote_response, append_response, snapshot_response,
}
use actix_pura.Raft.Log.{last_index, next_log_index, merge_entries}
use actix_pura.Raft.Rpc.{
  step_down, advance_commit, accept_entries, heard_from, handle_append_entries, handle_request_vote,
  handle_request,
}
use actix_pura.Raft.Actor.{with_cluster_manager, started, handle_cluster_message}
use actix_pura.Raft.Leader.{
  add_cluster_node, set_cluster_nodes, election_due, become_leader, handle_client_command,
  handle_append_entries_response, start_election, reset_election_timeout, try_commit, commit_loop,
  handle_answer, command_entry, append_command, init_replication,
}
use actix_pura.Raft.Steps.{
  attach, start, notice, Step, request, response, command, timer, elected, join, configure, Reach,
  here, next,
}
use actix_pura.Raft.Applying.{apply-Untouched}
use actix_pura.Raft.Ordered.{IsAscending, merge-IsAscending, snoc-IsAscending}

next_log_index_lem :
    {C : Type 0} (l : List (LogEntry C))
    → suc (last_index l) < u64_mod
    → next_log_index l ≡ last_index l + 1
next_log_index_lem [] h = omega arith
next_log_index_lem (e ∷ []) h = omega arith
next_log_index_lem (e ∷ x ∷ l) h = next_log_index_lem (x ∷ l) h

module _ {C S : Type 0} where
  step_down_log : (t : ℕ) (n : RaftNode C S) → (step_down t n).log ≡ n.log
  unfolding step_down
  step_down_log t n = ground arith

  append_log :
      (now t : ℕ) (l : String) (p pt : ℕ) (es : List (LogEntry C)) (c : ℕ) (n : RaftNode C S)
      → let k = (handle_append_entries now (append_entries t l p pt es c) n).1 in
        (k.log ≡ n.log) ⊎ (k.log ≡ (merge_entries p es n.log).0)
  unfolding handle_append_entries accept_entries advance_commit heard_from
  append_log now t l p pt es c n = ground (arith, step_down_log t n)

  vote_log :
      (now t : ℕ) (d : String) (i p : ℕ) (n : RaftNode C S)
      → (handle_request_vote now (request_vote t d i p) n).1.log ≡ n.log
  unfolding handle_request_vote
  vote_log now t d i p n = ground (arith, step_down_log t n)

  -- A request from another node, whatever its entries are, leaves the log in ascending order.
  pub request-IsAscending :
      (now : ℕ) (r : RaftRequest C) (n : RaftNode C S)
      → IsAscending n.log
      → IsAscending (handle_request now r n).1.log
  unfolding handle_request
  request-IsAscending now (request_vote t c i p) n a = rw (vote_log now t c i p n) a
  request-IsAscending now (install_snapshot t l i p d) n a = a
  request-IsAscending now (append_entries t l p pt es c) n a =
      elim (append_log now t l p pt es c n) [
        | inl same ↦ rw same a
        | inr merged ↦ rw merged (merge-IsAscending p es n.log a)
      ]

  timer_log : (o : Outside) (n : RaftNode C S) → (election_due o n).0.log ≡ n.log
  unfolding election_due start_election reset_election_timeout
  timer_log o n = ground arith

  elected_log : (o : Outside) (n : RaftNode C S) → (become_leader o n).0.log ≡ n.log
  unfolding become_leader init_replication
  elected_log o n = ground arith

module _ {C S : Type 0} (m : StateMachine C S) where
  command_log :
      (c : C) (n : RaftNode C S)
      → ((handle_client_command m c n).1.log ≡ n.log)
        ⊎ ((handle_client_command m c n).1.log ≡ n.log ++ command_entry c n ∷ [])
  unfolding handle_client_command append_command
  command_log c n =
      let k = record (append_command c n) { commit_index = next_log_index n.log } in
      ground (arith, (apply-Untouched m k).log)

  command-IsAscending :
      (c : C) (n : RaftNode C S)
      → suc (last_index n.log) < u64_mod
      → IsAscending n.log
      → IsAscending (handle_client_command m c n).1.log
  command-IsAscending c n h a = elim (command_log c n) [
    | inl same ↦ rw same a
    | inr longer ↦
        rw longer
          (snoc-IsAscending (command_entry c n) n.log a (omega (arith, next_log_index_lem n.log h)))
  ]

  try_commit_log : (e : LogEntry C) (n : RaftNode C S) → (try_commit m e n).log ≡ n.log
  unfolding try_commit
  try_commit_log e n = ground (arith, (apply-Untouched m (record n { commit_index = e.index })).log)

  commit_loop_log : (l : List (LogEntry C)) (n : RaftNode C S) → (commit_loop m l n).log ≡ n.log
  unfolding commit_loop
  commit_loop_log [] n = refl
  commit_loop_log (e ∷ l) n = commit_loop_log l (try_commit m e n) ∙ try_commit_log e n

  answer_log :
      (i : String) (ok : Bool) (matched : ℕ) (n : RaftNode C S)
      → (handle_answer m i ok matched n).0.log ≡ n.log
  unfolding handle_answer
  answer_log i true matched n = commit_loop_log n.log _
  answer_log i false matched n = ground arith

  response_log :
      (i : String) (r : RaftResponse) (n : RaftNode C S)
      → (handle_append_entries_response m i r n).0.log ≡ n.log
  unfolding handle_append_entries_response
  response_log i (append_response t ok matched) n = ground (arith, answer_log i ok matched n)
  response_log i (vote_response t g) n = refl
  response_log i (snapshot_response t g) n = refl

  join_log : (i : String) (n k : RaftNode C S) → add_cluster_node i n ≡ some k → k.log ≡ n.log
  unfolding add_cluster_node
  join_log i n k h = ground arith

  configure_log : (l : List String) (n : RaftNode C S) → (set_cluster_nodes l n).log ≡ n.log
  unfolding set_cluster_nodes
  configure_log l n = ground arith

  attach_log : (n : RaftNode C S) → (with_cluster_manager n).log ≡ n.log
  unfolding with_cluster_manager
  attach_log n = refl

  started_log : (o : Outside) (n : RaftNode C S) → (started o n).0.log ≡ n.log
  unfolding started reset_election_timeout
  started_log o n = refl

  notice_log :
      (now : ℕ) (t : String) (n : RaftNode C S) → (handle_cluster_message now t n).log ≡ n.log
  unfolding handle_cluster_message
  notice_log now t n = ground arith

  Step-IsAscending : {n k : RaftNode C S} → Step m n k → IsAscending n.log → IsAscending k.log
  Step-IsAscending {n} (request now r) a = request-IsAscending now r n a
  Step-IsAscending {n} (response i r) a = rw (response_log i r n) a
  Step-IsAscending {n} (command c h) a = command-IsAscending c n h a
  Step-IsAscending {n} (timer o h) a = rw (timer_log o n) a
  Step-IsAscending {n} (elected o) a = rw (elected_log o n) a
  Step-IsAscending {n} {k} (join i e) a = rw (join_log i n k e) a
  Step-IsAscending {n} attach a = rw (attach_log n) a
  Step-IsAscending {n} (start o) a = rw (started_log o n) a
  Step-IsAscending {n} (notice now t) a = rw (notice_log now t n) a
  Step-IsAscending {n} (configure l) a = rw (configure_log l n) a

  -- From a log in strictly ascending order no sequence of messages (with any entries), timers,
  -- commands and configurations leads to a log that has an index twice or out of order, provided
  -- that no timer fires while the term is 2^64 - 1 and no command comes while the last index of the
  -- log is 2^64 - 1.
  pub Reach-IsAscending : {n k : RaftNode C S} → IsAscending n.log → Reach m n k → IsAscending k.log
  Reach-IsAscending a here = a
  Reach-IsAscending a (next r s) = Step-IsAscending s (Reach-IsAscending a r)
