-- ===== src/Raft/Types.antt =====
-- trading/src/consensus/raft.rs: the data of a node. A command and a state machine are type
-- parameters; an instant and a duration are counts of milliseconds, a timer handle is a number.
use actix_pura.Prelude.{ℕ, String, Bool, Option, none, List, []}

-- `RaftNodeState`
pub data RaftNodeState : Type 0 where
  follower candidate leader : RaftNodeState

abbrev pub is_leader : RaftNodeState → Bool
is_leader RaftNodeState.leader = Bool.true
is_leader _ = Bool.false

abbrev pub is_candidate : RaftNodeState → Bool
is_candidate RaftNodeState.candidate = Bool.true
is_candidate _ = Bool.false

pub record RaftConfig : Type 0 where
  pub election_timeout_min : ℕ
  pub election_timeout_max : ℕ
  pub heartbeat_interval : ℕ
  pub replication_parallelism : ℕ

-- `RaftConfig::default`
abbrev pub default_config : RaftConfig
default_config = record {
  election_timeout_min = 150;
  election_timeout_max = 300;
  heartbeat_interval = 50;
  replication_parallelism = 5;
}

pub record LogEntry (C : Type 0) : Type 0 where
  pub term : ℕ
  pub index : ℕ
  pub command : C

-- `RaftRequestMessage`
pub data RaftRequest (C : Type 0) : Type 0 where
  -- term, candidate_id, last_log_index, last_log_term
  request_vote : ℕ → String → ℕ → ℕ → RaftRequest C
  -- term, leader_id, prev_log_index, prev_log_term, entries, leader_commit
  append_entries : ℕ → String → ℕ → ℕ → List (LogEntry C) → ℕ → RaftRequest C
  -- term, leader_id, last_included_index, last_included_term, data
  install_snapshot : ℕ → String → ℕ → ℕ → List ℕ → RaftRequest C

-- `RaftResponseMessage`
pub data RaftResponse : Type 0 where
  -- term, vote_granted
  vote_response : ℕ → Bool → RaftResponse
  -- term, success, match_index
  append_response : ℕ → Bool → ℕ → RaftResponse
  -- term, success
  snapshot_response : ℕ → Bool → RaftResponse

-- `ClientCommandResult`; every success carries no result and some leader.
pub data ClientResult : Type 0 where
  -- leader_id, applied_index
  success : String → ℕ → ClientResult
  -- leader_id
  redirect : String → ClientResult

-- `RaftNodeActor`. Of the cluster manager only its presence matters here.
pub record RaftNode (C S : Type 0) : Type 0 where
  pub node_id : String
  pub current_term : ℕ
  pub voted_for : Option String
  pub log : List (LogEntry C)
  pub commit_index : ℕ
  pub last_applied : ℕ
  pub next_index : List (String × ℕ)
  pub match_index : List (String × ℕ)
  pub state : RaftNodeState
  pub current_leader_id : Option String
  pub last_heartbeat : ℕ
  pub election_timeout : ℕ
  pub config : RaftConfig
  pub cluster_nodes : List String
  pub state_machine : S
  pub cluster_manager : Bool
  pub heartbeat_timer : Option ℕ
  pub election_timer : Option ℕ

-- What the node uses of its state machine (`StateMachine::apply`, whose answer is only logged,
-- and `update_applied`).
pub record StateMachine (C S : Type 0) : Type 0 where
  pub apply : C → S → S
  pub update_applied : ℕ → ℕ → S → S

-- What a handler asks of the actor context and of the cluster manager.
pub data Effect : Type 0 where
  send_message : String → String → Effect
  cancel_future : ℕ → Effect
  run_later : ℕ → Effect
  run_interval : ℕ → Effect
  register_actor_path : String → Effect

-- What a handler takes from outside: the time, a random timeout and a fresh timer handle.
pub record Outside : Type 0 where
  pub now : ℕ
  pub random_timeout : ℕ
  pub handle : ℕ

-- `RaftNodeActor::new`
unfoldable pub new_node : {C S : Type 0} → String → RaftConfig → S → Outside → RaftNode C S
new_node id c machine o = record {
  node_id = id;
  current_term = 0;
  voted_for = none;
  log = [];
  commit_index = 0;
  last_applied = 0;
  next_index = [];
  match_index = [];
  state = RaftNodeState.follower;
  current_leader_id = none;
  last_heartbeat = o.now;
  election_timeout = o.random_timeout;
  config = c;
  cluster_nodes = [];
  state_machine = machine;
  cluster_manager = Bool.false;
  heartbeat_timer = none;
  election_timer = none;
}
