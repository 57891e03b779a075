-- ===== src/Raft/Majority.antt =====
-- trading/src/consensus/raft.rs: when the leader keeps what it knows of the nodes of its cluster only, it
-- commits what more than half of them hold.
use mathlib.Core.List.{Memᴰ}
use actix_pura.Prelude.{
  ℕ, ◌+◌, ◌*◌, ◌≤◌, ◌<◌, ◌≡◌, ◌⊎◌, refl, ap, ◌∙◌, String, Option, none, some, true, List, [], ◌∷◌,
  arith, leb, inl, inr, length, if◌then◌else◌, String-discrete, if_pos, if_neg, add64,
}
use actix_pura.Prelude.Dict.{lookup, insert, lookup-insert_other}
use actix_pura.Raft.Types.{LogEntry, RaftNode, StateMachine, append_response}
use actix_pura.Raft.Leader.{count_from, handle_append_entries_response}
use actix_pura.Raft.Commit.{same, moved, response-Commits}

-- One, if the node is known to hold the log up to `i`.
abbrev pub holds : ℕ → Option ℕ → ℕ
holds i none = 0
holds i (some m) = if leb i m then 1 else 0

-- How many of the nodes are known to hold the log up to `i`.
unfoldable pub holders : ℕ → List String → List (String × ℕ) → ℕ
holders i [] d = 0
holders i (j ∷ l) d = holds i (lookup j d) + holders i l d

-- Each entry is of another one of the nodes.
abbrev pub Knows : List String → List (String × ℕ) → Type 0
Knows l [] = Unit
Knows l ((k, m) ∷ d) = Memᴰ k l × (lookup k d ≡ none) × Knows l d

-- With the leader itself, more than half of the cluster's nodes are known to hold the log up to `i`.
abbrev pub MostHold : {C S : Type 0} → ℕ → RaftNode C S → Type 0
MostHold i n = length n.cluster_nodes + 1 < (holders i n.cluster_nodes n.match_index + 1) * 2

holders_more :
    (i : ℕ) (k : String) (m : ℕ) (l : List String) (d : List (String × ℕ))
    → lookup k d ≡ none
    → holders i l d ≤ holders i l ((k, m) ∷ d)
unfolding holders lookup
holders_more i k m [] d new = omega arith
holders_more i k m (j ∷ l) d new = elim (String-discrete k j) [
  | yes p ↦ ground (arith, p, new, holders_more i k m l d new)
  | no p ↦ ground (arith, p, holders_more i k m l d new)
]

holders_counted :
    (i : ℕ) (k : String) (m : ℕ) (l : List String) (d : List (String × ℕ))
    → lookup k d ≡ none
    → Memᴰ k l
    → holds i (some m) + holders i l d ≤ holders i l ((k, m) ∷ d)
unfolding holders lookup
holders_counted i k m [] d new there = elim there [ ]
holders_counted i k m (j ∷ l) d new (Memᴰ.head e) = elim (String-discrete k j) [
  | yes p ↦ ground (arith, p, new, holders_more i k m l d new)
  | no p ↦ absurd (ground (arith, p, e))
]
holders_counted i k m (j ∷ l) d new (Memᴰ.tail t) = elim (String-discrete k j) [
  | yes p ↦ ground (arith, p, new, holders_more i k m l d new)
  | no p ↦ ground (arith, p, holders_counted i k m l d new t)
]

count_from-le-holders :
    (i : ℕ) (l : List String) (d : List (String × ℕ)) → Knows l d → count_from i d ≤ holders i l d
unfolding count_from
count_from-le-holders i l [] h = omega arith
count_from-le-holders i l ((k, m) ∷ d) (there, new, h) =
    omega (arith, holders_counted i k m l d new there, count_from-le-holders i l d h)

Knows-insert :
    (j : String) (v : ℕ) (l : List String) (d : List (String × ℕ))
    → Memᴰ j l
    → Knows l d
    → Knows l (insert j v d)
unfolding insert lookup
Knows-insert j v l [] there h = (there, refl, tt)
Knows-insert j v l ((k, m) ∷ d) there (of_k, new, h) = elim (String-discrete j k) [
  | yes p ↦ rw (if_pos (String-discrete j k) p _ _) (there, ap (λ x. lookup x d) p ∙ new, h)
  | no p ↦
      rw (if_neg (String-discrete j k) p _ _)
        (of_k, lookup-insert_other j k v d p ∙ new, Knows-insert j v l d there h)
]

module _ {C S : Type 0} (m : StateMachine C S) where
  -- When a node of the cluster answers, in no later term, that it holds the log up to some index,
  -- and the leader keeps a match index of other nodes of the cluster only, one for each, then its
  -- commit index stands, or moves up to an entry of its log that is of its own term and that more
  -- than half of the cluster's nodes, the leader among them, are known to hold, the new answer
  -- counted.
  pub response_commits_held :
      (i : String) (t matched : ℕ) (n : RaftNode C S)
      → t ≤ n.current_term
      → Memᴰ i n.cluster_nodes
      → Knows n.cluster_nodes n.match_index
      → (let n' = record n {
        match_index = insert i matched n.match_index;
        next_index = insert i (add64 matched 1) n.next_index;
      } in
          let k = (handle_append_entries_response m i (append_response t true matched) n).0 in
          (k.commit_index ≡ n.commit_index)
          ⊎ ((e : LogEntry C) × Memᴰ e n.log
              × (e.term ≡ n.current_term)
              × (n.commit_index < e.index)
              × (k.commit_index ≡ e.index)
              × MostHold e.index n'))
  response_commits_held i t matched n h there knows = elim (response-Commits m i t matched n h) [
    | same s ↦ inl s
    | moved e at term above here most ↦ inr (
      e,
      at,
      term,
      above,
      here,
      omega (
        arith,
        most,
        count_from-le-holders e.index n.cluster_nodes (insert i matched n.match_index)
            (Knows-insert i matched n.cluster_nodes n.match_index there knows),
      ),
    )
  ]
