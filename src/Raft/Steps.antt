-- ===== src/Raft/Steps.antt =====
-- trading/src/consensus/raft.rs: every way in which a node changes, as one step relation, so that
-- an invariant holds after any sequence of messages, timers and commands.
use actix_pura.Prelude.{ℕ, suc, ◌<◌, ◌≡◌, String, List, some, u64_mod}
use actix_pura.Raft.Types.{RaftRequest, RaftResponse, RaftNode, StateMachine, Outside}
use actix_pura.Raft.Log.{last_index}
use actix_pura.Raft.Rpc.{handle_request}
use actix_pura.Raft.Actor.{with_cluster_manager, started, handle_cluster_message}
use actix_pura.Raft.Leader.{
  add_cluster_node, set_cluster_nodes, election_due, become_leader, handle_client_command,
  handle_append_entries_response,
}

-- The term and the indices are below the largest `u64` before a step adds one to them.
pub data Step {C S : Type 0} (m : StateMachine C S) : RaftNode C S → RaftNode C S → Type 0 where
  request : {n : RaftNode C S} (now : ℕ) (r : RaftRequest C) → Step m n (handle_request now r n).1
  response :
      {n : RaftNode C S} (i : String) (r : RaftResponse)
      → Step m n (handle_append_entries_response m i r n).0
  command :
      {n : RaftNode C S} (c : C)
      → suc (last_index n.log) < u64_mod
      → Step m n (handle_client_command m c n).1
  timer :
      {n : RaftNode C S} (o : Outside)
      → suc n.current_term < u64_mod
      → Step m n (election_due o n).0
  elected : {n : RaftNode C S} (o : Outside) → Step m n (become_leader o n).0
  join : {n k : RaftNode C S} (i : String) → add_cluster_node i n ≡ some k → Step m n k
  attach : {n : RaftNode C S} → Step m n (with_cluster_manager n)
  start : {n : RaftNode C S} (o : Outside) → Step m n (started o n).0
  notice :
      {n : RaftNode C S} (now : ℕ) (message_type : String)
      → Step m n (handle_cluster_message now message_type n)
  configure : {n : RaftNode C S} (l : List String) → Step m n (set_cluster_nodes l n)

pub data Reach {C S : Type 0} (m : StateMachine C S) (n : RaftNode C S)
    : RaftNode C S → Type 0 where
  here : Reach m n n
  next : {k l : RaftNode C S} → Reach m n k → Step m k l → Reach m n l
