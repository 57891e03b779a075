-- ===== src/Raft/Actor.antt =====
-- trading/src/consensus/raft.rs: the node as an actor, and its messages from the cluster.
use actix_pura.Prelude.{ℕ, String, true, List, [], ◌∷◌, ◌++◌, if◌then◌else◌, ite, String-discrete}
use actix_pura.Raft.Types.{RaftNode, Effect, register_actor_path, Outside}
use actix_pura.Raft.Leader.{reset_election_timeout}

module _ {C S : Type 0} where
  unfoldable pub with_cluster_manager : RaftNode C S → RaftNode C S
  with_cluster_manager n = record n { cluster_manager = true }

  -- `Actor::started`
  unfoldable pub started : Outside → RaftNode C S → RaftNode C S × List Effect
  started o n =
      let (n', es) = reset_election_timeout o n in
      (n', (if n.cluster_manager then register_actor_path n.node_id ∷ [] else []) ++ es)

  -- `Handler<ClusterMessage>::handle`, of the type of the message; the answer is always `Success`.
  unfoldable pub handle_cluster_message : ℕ → String → RaftNode C S → RaftNode C S
  handle_cluster_message now message_type n =
      ite (String-discrete message_type "raft.append_entries") (record n { last_heartbeat = now }) n
