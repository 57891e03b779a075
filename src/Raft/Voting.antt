-- ===== src/Raft/Voting.antt =====
-- trading/src/consensus/raft.rs: terms never fall, and a node has one vote in a term.
use actix_pura.Prelude.{
  String-discrete, if_pos, if_neg, ℕ, suc, ◌≤◌, ◌<◌, ◌≡◌, refl, ◌∙◌, String, some, List, [], ◌∷◌,
  true, arith, ltb, u64_mod, if_both, is_empty, Bool, false, Bool-cases, inl, inr,
}
use actix_pura.Raft.Types.{
  RaftNode, RaftRequest, RaftResponse, LogEntry, is_leader, StateMachine, Outside, request_vote,
  append_entries, install_snapshot, vote_response, append_response, snapshot_response,
}
use actix_pura.Raft.Rpc.{
  step_down, advance_commit, accept_entries, heard_from, handle_append_entries, handle_request_vote,
  handle_request,
}
use actix_pura.Raft.Actor.{with_cluster_manager, started, handle_cluster_message}
use actix_pura.Raft.Leader.{
  add_cluster_node, init_replication, set_cluster_nodes, election_due, become_leader,
  handle_client_command, append_command, handle_append_entries_response, start_election,
  reset_election_timeout, apply_committed_entries, try_commit, commit_loop, handle_answer,
}
use actix_pura.Raft.Steps.{
  attach, start, notice, Step, request, response, command, timer, elected, join, configure, Reach,
  here, next,
}
use actix_pura.Raft.Applying.{apply-Untouched}

-- The term has not fallen, and in the same term a vote that was given stands.
pub record KeepsVote {C S : Type 0} (n k : RaftNode C S) : Type 0 where
  pub term : n.current_term ≤ k.current_term
  pub vote :
      (c : String) → n.current_term ≡ k.current_term → n.voted_for ≡ some c → k.voted_for ≡ some c

module _ {C S : Type 0} where
  KeepsVote-refl : (n : RaftNode C S) → KeepsVote n n
  KeepsVote-refl n = record { term = omega arith; vote = λ c e v. v }

  KeepsVote-trans : (n k l : RaftNode C S) → KeepsVote n k → KeepsVote k l → KeepsVote n l
  KeepsVote-trans n k l a b = record {
    term = omega (arith, a.term, b.term);
    vote = λ c e v.
        b.vote c (omega (arith, a.term, b.term)) (a.vote c (omega (arith, a.term, b.term)) v);
  }

  -- A node with the same term and vote.
  KeepsVote-of_eq :
      (n k : RaftNode C S)
      → k.current_term ≡ n.current_term
      → k.voted_for ≡ n.voted_for
      → KeepsVote n k
  KeepsVote-of_eq n k t v = record { term = omega arith; vote = λ c e h. v ∙ h }

  step_down-KeepsVote : (t : ℕ) (n : RaftNode C S) → KeepsVote n (step_down t n)
  unfolding step_down
  step_down-KeepsVote t n = record { term = ground arith; vote = λ c e h. ground arith }

  accept-KeepsVote :
      (l : String) (now p : ℕ) (es : List (LogEntry C)) (c : ℕ) (n : RaftNode C S)
      → KeepsVote n (accept_entries p es c (heard_from l now n)).1
  unfolding accept_entries advance_commit heard_from
  accept-KeepsVote l now p es c n = KeepsVote-of_eq n _ (ground arith) (ground arith)

  heard-KeepsVote : (l : String) (now : ℕ) (n : RaftNode C S) → KeepsVote n (heard_from l now n)
  unfolding heard_from
  heard-KeepsVote l now n = KeepsVote-of_eq n _ refl refl

  append-KeepsVote :
      (now t : ℕ) (l : String) (i p : ℕ) (es : List (LogEntry C)) (c : ℕ) (n : RaftNode C S)
      → KeepsVote n (handle_append_entries now (append_entries t l i p es c) n).1
  unfolding handle_append_entries
  append-KeepsVote now t l i p es c n =
      if_both (λ (r : RaftResponse × RaftNode C S). KeepsVote n r.1) (ltb t n.current_term)
        (KeepsVote-refl n)
        (if_both (λ (r : RaftResponse × RaftNode C S). KeepsVote n r.1) _
          (KeepsVote-trans n (step_down t n) _ (step_down-KeepsVote t n)
            (accept-KeepsVote l now i es c (step_down t n)))
          (KeepsVote-trans n (step_down t n) _ (step_down-KeepsVote t n)
            (heard-KeepsVote l now (step_down t n))))

  vote-KeepsVote :
      (now t : ℕ) (c : String) (i p : ℕ) (n : RaftNode C S)
      → KeepsVote n (handle_request_vote now (request_vote t c i p) n).1
  unfolding handle_request_vote step_down
  vote-KeepsVote now t c i p n = record { term = ground arith; vote = λ w e h. ground arith }

  request-KeepsVote :
      (now : ℕ) (r : RaftRequest C) (n : RaftNode C S) → KeepsVote n (handle_request now r n).1
  unfolding handle_request
  request-KeepsVote now (request_vote t c i p) n = vote-KeepsVote now t c i p n
  request-KeepsVote now (append_entries t l i p es c) n = append-KeepsVote now t l i p es c n
  request-KeepsVote now (install_snapshot t l i p d) n = KeepsVote-refl n

  timer-KeepsVote :
      (o : Outside) (n : RaftNode C S)
      → suc n.current_term < u64_mod
      → KeepsVote n (election_due o n).0
  unfolding election_due start_election reset_election_timeout
  timer-KeepsVote o n h = record { term = ground arith; vote = λ w e v. ground arith }

  elected-KeepsVote : (o : Outside) (n : RaftNode C S) → KeepsVote n (become_leader o n).0
  unfolding become_leader init_replication
  elected-KeepsVote o n = KeepsVote-of_eq n _ (ground arith) (ground arith)

module _ {C S : Type 0} (m : StateMachine C S) where
  apply-KeepsVote :
      (n k : RaftNode C S)
      → k.current_term ≡ n.current_term
      → k.voted_for ≡ n.voted_for
      → KeepsVote n (apply_committed_entries m k)
  apply-KeepsVote n k t v =
      let u = apply-Untouched m k in KeepsVote-of_eq n _ (u.current_term ∙ t) (u.voted_for ∙ v)

  command-KeepsVote : (c : C) (n : RaftNode C S) → KeepsVote n (handle_client_command m c n).1
  unfolding handle_client_command append_command
  command-KeepsVote c n = elim (Bool-cases (is_leader n.state)) [
    | inr other ↦ rw other (KeepsVote-refl n)
    | inl leads ↦ elim (Bool-cases (is_empty n.cluster_nodes)) [
      | inl alone ↦ rw (leads, alone) (apply-KeepsVote n _ refl refl)
      | inr more ↦ rw (leads, more) (KeepsVote-of_eq n _ refl refl)
    ]
  ]

  try_commit-KeepsVote : (e : LogEntry C) (n : RaftNode C S) → KeepsVote n (try_commit m e n)
  unfolding try_commit
  try_commit-KeepsVote e n =
      if_both (KeepsVote n) _
        (if_both (KeepsVote n) _ (apply-KeepsVote n _ refl refl) (KeepsVote-refl n))
        (KeepsVote-refl n)

  commit_loop-KeepsVote :
      (l : List (LogEntry C)) (n : RaftNode C S) → KeepsVote n (commit_loop m l n)
  unfolding commit_loop
  commit_loop-KeepsVote [] n = KeepsVote-refl n
  commit_loop-KeepsVote (e ∷ l) n =
      KeepsVote-trans n (try_commit m e n) _ (try_commit-KeepsVote e n)
        (commit_loop-KeepsVote l (try_commit m e n))

  answer-KeepsVote :
      (i : String) (ok : Bool) (matched : ℕ) (n : RaftNode C S)
      → KeepsVote n (handle_answer m i ok matched n).0
  unfolding handle_answer
  answer-KeepsVote i true matched n =
      KeepsVote-trans n _ _ (KeepsVote-of_eq n _ refl refl) (commit_loop-KeepsVote n.log _)
  answer-KeepsVote i false matched n = KeepsVote-of_eq n _ (ground arith) (ground arith)

  response-KeepsVote :
      (i : String) (r : RaftResponse) (n : RaftNode C S)
      → KeepsVote n (handle_append_entries_response m i r n).0
  unfolding handle_append_entries_response
  response-KeepsVote i (vote_response t g) n = KeepsVote-refl n
  response-KeepsVote i (snapshot_response t g) n = KeepsVote-refl n
  response-KeepsVote i (append_response t ok matched) n = elim (Bool-cases (ltb n.current_term t)) [
    | inl newer ↦ rw newer (record { term = ground arith; vote = λ w e v. ground arith })
    | inr same ↦ rw same (answer-KeepsVote i ok matched n)
  ]

  join-KeepsVote : (i : String) (n k : RaftNode C S) → add_cluster_node i n ≡ some k → KeepsVote n k
  unfolding add_cluster_node
  join-KeepsVote i n k h = KeepsVote-of_eq n k (ground arith) (ground arith)

  configure-KeepsVote : (l : List String) (n : RaftNode C S) → KeepsVote n (set_cluster_nodes l n)
  unfolding set_cluster_nodes
  configure-KeepsVote l n = KeepsVote-of_eq n _ (ground arith) (ground arith)

  attach-KeepsVote : (n : RaftNode C S) → KeepsVote n (with_cluster_manager n)
  unfolding with_cluster_manager
  attach-KeepsVote n = record { term = omega arith; vote = λ c e v. v }

  started-KeepsVote : (o : Outside) (n : RaftNode C S) → KeepsVote n (started o n).0
  unfolding started reset_election_timeout
  started-KeepsVote o n = record { term = omega arith; vote = λ c e v. v }

  notice-KeepsVote :
      (now : ℕ) (t : String) (n : RaftNode C S) → KeepsVote n (handle_cluster_message now t n)
  unfolding handle_cluster_message
  notice-KeepsVote now t n = elim (String-discrete t "raft.append_entries") [
    | yes p ↦ rw (if_pos _ p) (record { term = omega arith; vote = λ c e v. v })
    | no p ↦ rw (if_neg _ p) (KeepsVote-refl n)
  ]

  Step-KeepsVote : {n k : RaftNode C S} → Step m n k → KeepsVote n k
  Step-KeepsVote {n} (request now r) = request-KeepsVote now r n
  Step-KeepsVote {n} (response i r) = response-KeepsVote i r n
  Step-KeepsVote {n} (command c h) = command-KeepsVote c n
  Step-KeepsVote {n} (timer o h) = timer-KeepsVote o n h
  Step-KeepsVote {n} (elected o) = elected-KeepsVote o n
  Step-KeepsVote {n} {k} (join i e) = join-KeepsVote i n k e
  Step-KeepsVote {n} attach = attach-KeepsVote n
  Step-KeepsVote {n} (start o) = started-KeepsVote o n
  Step-KeepsVote {n} (notice now t) = notice-KeepsVote now t n
  Step-KeepsVote {n} (configure l) = configure-KeepsVote l n

  -- Whatever messages, timers and commands a node handles, its term does not fall, and as long as
  -- the term is the same a vote that it has given stands.
  pub Reach-KeepsVote : {n k : RaftNode C S} → Reach m n k → KeepsVote n k
  Reach-KeepsVote {n} here = KeepsVote-refl n
  Reach-KeepsVote {n} (next {k = k} {l = l} r s) =
      KeepsVote-trans n k l (Reach-KeepsVote r) (Step-KeepsVote s)

  granted_vote :
      (now t : ℕ) (c : String) (i p v : ℕ) (n k : RaftNode C S)
      → handle_request_vote now (request_vote t c i p) n ≡ (vote_response v true, k)
      → (v ≡ k.current_term) × (k.voted_for ≡ some c) × (n.current_term ≤ v)
  unfolding handle_request_vote step_down
  granted_vote now t c i p v n k h = ground arith

  granted_for :
      (now t : ℕ) (c d : String) (i p v : ℕ) (n k : RaftNode C S)
      → handle_request_vote now (request_vote t c i p) n ≡ (vote_response v true, k)
      → n.current_term ≡ v
      → n.voted_for ≡ some d
      → d ≡ c
  unfolding handle_request_vote step_down
  granted_for now t c d i p v n k h e g = ground arith

  -- A node that grants its vote twice in one term, with any sequence of messages, timers, commands
  -- and configurations in between, grants it to the same candidate, provided that no timer fires
  -- while its term is 2^64 - 1 and no command comes while the last index of its log is 2^64 - 1.
  pub one_vote_per_term :
      (now later t u v i p j q : ℕ) (c d : String) (n k l z : RaftNode C S)
      → handle_request_vote now (request_vote t c i p) n ≡ (vote_response v true, k)
      → Reach m k l
      → handle_request_vote later (request_vote u d j q) l ≡ (vote_response v true, z)
      → c ≡ d
  one_vote_per_term now later t u v i p j q c d n k l z first between second =
      let (at_k, voted, _) = granted_vote now t c i p v n k first in
      let (_, _, upper) = granted_vote later u d j q v l z second in
      let kept = Reach-KeepsVote between in
      let same : k.current_term ≡ l.current_term = omega (arith, kept.term) in
      granted_for later u d c j q v l z second (omega arith) (kept.vote c same voted)
