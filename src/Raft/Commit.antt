-- ===== src/Raft/Commit.antt =====
-- trading/src/consensus/raft.rs: what a leader may commit, and what a follower may lose.
use mathlib.Core.List.{Memᴰ}
use actix_pura.Prelude.{
  ℕ, ◌+◌, ◌*◌, ◌≤◌, ◌<◌, ◌≡◌, ◌⊎◌, refl, ◌∙◌, String, true, false, List, [], ◌∷◌, arith, ltb, inl,
  inr, length, add64,
}
use actix_pura.Prelude.Dict.{insert}
use actix_pura.Raft.Types.{LogEntry, RaftNode, StateMachine, append_response}
use actix_pura.Raft.Leader.{
  count_from, try_commit, commit_loop, handle_answer, handle_append_entries_response,
}
use actix_pura.Raft.Applying.{apply-Untouched, apply_commit}

not_later : (t u : ℕ) → t ≤ u → ltb u t ≡ false
not_later t u h = ground arith

-- With the node itself, the nodes that are counted as holding the log up to `i` are more than half as
-- many as the cluster has. Nodes that have left the cluster are counted as well.
abbrev pub HasMajority : {C S : Type 0} → ℕ → RaftNode C S → Type 0
HasMajority i n = length n.cluster_nodes + 1 < (count_from i n.match_index + 1) * 2

-- The commit index stands, or has moved up to an entry of the list that is of the current term and
-- that enough nodes are counted for.
pub data Commits {C S : Type 0} (l : List (LogEntry C)) (n k : RaftNode C S) : Type 0 where
  same : k.commit_index ≡ n.commit_index → Commits l n k
  moved :
      (e : LogEntry C)
      → Memᴰ e l
      → e.term ≡ n.current_term
      → n.commit_index < e.index
      → k.commit_index ≡ e.index
      → HasMajority e.index n
      → Commits l n k

module _ {C S : Type 0} (m : StateMachine C S) where
  -- What the search for entries to commit reads.
  abbrev SameView : RaftNode C S → RaftNode C S → Type 0
  SameView n k =
      (k.current_term ≡ n.current_term)
      × (k.match_index ≡ n.match_index)
      × (k.cluster_nodes ≡ n.cluster_nodes)

  try_commit-SameView : (e : LogEntry C) (n : RaftNode C S) → SameView n (try_commit m e n)
  unfolding try_commit
  try_commit-SameView e n =
      let u = apply-Untouched m (record n { commit_index = e.index }) in
      ground (arith, u.current_term, u.match_index, u.cluster_nodes)

  try_commit_cases :
      (e : LogEntry C) (n : RaftNode C S)
      → ((try_commit m e n).commit_index ≡ n.commit_index)
        ⊎ ((e.term ≡ n.current_term)
            × (n.commit_index < e.index)
            × ((try_commit m e n).commit_index ≡ e.index)
            × HasMajority e.index n)
  unfolding try_commit
  try_commit_cases e n = ground (arith, apply_commit m (record n { commit_index = e.index }))

  commit_loop-Commits : (l : List (LogEntry C)) (n : RaftNode C S) → Commits l n (commit_loop m l n)
  unfolding commit_loop
  commit_loop-Commits [] n = same refl
  commit_loop-Commits (e ∷ l) n =
      join (commit_loop-Commits l (try_commit m e n)) (try_commit_cases e n)
        (try_commit-SameView e n)
    where
      join :
          {k z : RaftNode C S}
          → Commits l k z
          → (k.commit_index ≡ n.commit_index)
            ⊎ ((e.term ≡ n.current_term)
                × (n.commit_index < e.index)
                × (k.commit_index ≡ e.index)
                × HasMajority e.index n)
          → SameView n k
          → Commits (e ∷ l) n z
      join (same s) (inl t) v = same (s ∙ t)
      join (same s) (inr (t, u, w, x)) v = moved e (Memᴰ.head refl) t u (s ∙ w) x
      join (moved d i t u w x) c v =
          moved d (Memᴰ.tail i) (t ∙ v.0) (ground arith) w (rw (← v.1, ← v.2) x)

  -- When a follower answers, in no later term, that it holds the log up to some index, the leader's
  -- commit index stands, or moves up to an entry of its log that is of its own term and for which
  -- enough nodes are counted, the new answer among them.
  pub response-Commits :
      (i : String) (t matched : ℕ) (n : RaftNode C S)
      → t ≤ n.current_term
      → Commits n.log
          (record n {
            match_index = insert i matched n.match_index;
            next_index = insert i (add64 matched 1) n.next_index;
          })
          (handle_append_entries_response m i (append_response t true matched) n).0
  unfolding handle_append_entries_response handle_answer
  response-Commits i t matched n h = rw (not_later t n.current_term h) (commit_loop-Commits n.log _)
