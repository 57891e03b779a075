-- ===== src/Raft/Rpc.antt =====
-- trading/src/consensus/raft.rs: the handlers of requests from other nodes.
use actix_pura.Prelude.{
  ℕ, String, Bool, true, false, Option, none, some, List, ◌&&◌, ◌||◌, ltb, leb, ◌==◌, if◌then◌else◌,
  min, String-discrete, ite,
}
use actix_pura.Raft.Types.{
  RaftNodeState, LogEntry, RaftRequest, RaftResponse, RaftNode, request_vote, append_entries,
  install_snapshot, vote_response, append_response, snapshot_response,
}
use actix_pura.Raft.Log.{last_index, last_term, log_consistent, merge_entries}

-- `voted_for.is_some() && voted_for.as_ref() != Some(&candidate_id)`
abbrev pub voted_for_other : String → Option String → Bool
voted_for_other candidate none = false
voted_for_other candidate (some c) = ite (String-discrete c candidate) false true

-- `log_is_up_to_date`
abbrev pub log_is_up_to_date : {C : Type 0} → ℕ → ℕ → List (LogEntry C) → Bool
log_is_up_to_date index term l =
    ltb (last_term l) term || (term == last_term l && leb (last_index l) index)

module _ {C S : Type 0} where
  -- A larger term makes the node a follower of that term.
  unfoldable pub step_down : ℕ → RaftNode C S → RaftNode C S
  step_down term n =
      if ltb n.current_term term
      then record n { current_term = term; state = RaftNodeState.follower; voted_for = none }
      else n

  -- `leader_commit > commit_index`
  unfoldable pub advance_commit : ℕ → RaftNode C S → RaftNode C S
  advance_commit leader_commit n =
      if ltb n.commit_index leader_commit
      then record n { commit_index = min leader_commit (last_index n.log) }
      else n

  -- The end of `append_entries`, once the logs agree.
  unfoldable pub accept_entries :
      ℕ → List (LogEntry C) → ℕ → RaftNode C S → RaftResponse × RaftNode C S
  accept_entries prev entries leader_commit n =
      let (l, m) = merge_entries prev entries n.log in
      let n' = advance_commit leader_commit (record n { log = l }) in
      (append_response n'.current_term true m, n')

  -- The leader is known and was heard from.
  unfoldable pub heard_from : String → ℕ → RaftNode C S → RaftNode C S
  heard_from leader_id now n = record n { current_leader_id = some leader_id; last_heartbeat = now }

  -- `append_entries`
  unfoldable pub handle_append_entries :
      ℕ → RaftRequest C → RaftNode C S → RaftResponse × RaftNode C S
  handle_append_entries now (append_entries term leader_id prev prev_term entries commit) n =
      let n' = heard_from leader_id now (step_down term n) in
      if ltb term n.current_term
      then (append_response n.current_term false 0, n)
      else if log_consistent prev prev_term n'.log
      then accept_entries prev entries commit n'
      else (append_response n'.current_term false 0, n')
  handle_append_entries now _ n = (append_response n.current_term false 0, n)

  -- `handle_request_vote`
  unfoldable pub handle_request_vote :
      ℕ → RaftRequest C → RaftNode C S → RaftResponse × RaftNode C S
  handle_request_vote now (request_vote term candidate index last) n =
      let n' = step_down term n in
      if ltb term n.current_term
      then (vote_response n.current_term false, n)
      else if voted_for_other candidate n'.voted_for
      then (vote_response n'.current_term false, n')
      else if log_is_up_to_date index last n'.log
      then (
        vote_response n'.current_term true,
        record n' { voted_for = some candidate; last_heartbeat = now },
      )
      else (vote_response n'.current_term false, n')
  handle_request_vote now _ n = (vote_response n.current_term false, n)

  -- `Handler<RaftRequestMessage>::handle`
  unfoldable pub handle_request : ℕ → RaftRequest C → RaftNode C S → RaftResponse × RaftNode C S
  handle_request now (request_vote t c i l) n = handle_request_vote now (request_vote t c i l) n
  handle_request now (append_entries t l i p es c) n =
      handle_append_entries now (append_entries t l i p es c) n
  handle_request now (install_snapshot t l i p d) n = (snapshot_response n.current_term false, n)
