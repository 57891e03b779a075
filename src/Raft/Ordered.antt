-- ===== src/Raft/Ordered.antt =====
-- trading/src/consensus/raft.rs: a log stays in strictly ascending order of its indices.
use actix_pura.Prelude.{
  ℕ, ◌≤◌, ◌<◌, ◌≡◌, refl, ◌∙◌, false, List, [], ◌∷◌, ◌++◌, arith, ◌||◌, ◌==◌, Bool-cases, inl, inr,
}
use actix_pura.Raft.Types.{LogEntry}
use actix_pura.Raft.Log.{
  last_index, has_index, truncate, push_missing, insert_by_index, sort_by_index, merge_entries,
}

module _ {C : Type 0} where
  -- Every index is above `i`, and each is above the one before it.
  abbrev pub Above : ℕ → List (LogEntry C) → Type 0
  Above i [] = Unit
  Above i (e ∷ l) = (i < e.index) × Above e.index l

  abbrev pub IsAscending : List (LogEntry C) → Type 0
  IsAscending [] = Unit
  IsAscending (e ∷ l) = Above e.index l

  -- No index is used twice.
  abbrev IsDistinct : List (LogEntry C) → Type 0
  IsDistinct [] = Unit
  IsDistinct (e ∷ l) = (has_index e.index l ≡ false) × IsDistinct l

  pub Above-mono : (i j : ℕ) (l : List (LogEntry C)) → j ≤ i → Above i l → Above j l
  Above-mono i j [] h a = tt
  Above-mono i j (e ∷ l) h a = (omega arith, a.1)

  pub Above-IsAscending : (i : ℕ) (l : List (LogEntry C)) → Above i l → IsAscending l
  Above-IsAscending i [] a = tt
  Above-IsAscending i (e ∷ l) a = a.1

  pub has_index-Above :
      (i j : ℕ) (l : List (LogEntry C)) → j ≤ i → Above i l → has_index j l ≡ false
  unfolding has_index
  has_index-Above i j [] h a = refl
  has_index-Above i j (e ∷ l) h a = ground (arith, has_index-Above e.index j l)

  IsAscending-IsDistinct : (l : List (LogEntry C)) → IsAscending l → IsDistinct l
  IsAscending-IsDistinct [] a = tt
  IsAscending-IsDistinct (e ∷ l) a = (
    has_index-Above e.index e.index l (omega arith) a,
    IsAscending-IsDistinct l (Above-IsAscending e.index l a),
  )

  pub truncate-Above : (b i : ℕ) (l : List (LogEntry C)) → Above i l → Above i (truncate b l)
  unfolding truncate
  truncate-Above b i [] a = tt
  truncate-Above b i (e ∷ l) a =
      ground (arith, truncate-Above b e.index l a.1, Above-mono e.index i (truncate b l))

  pub truncate-IsAscending :
      (b : ℕ) (l : List (LogEntry C)) → IsAscending l → IsAscending (truncate b l)
  unfolding truncate
  truncate-IsAscending b [] a = tt
  truncate-IsAscending b (e ∷ l) a =
      ground (arith, truncate-Above b e.index l a, Above-IsAscending e.index (truncate b l))

  has_index-append :
      (i : ℕ) (l : List (LogEntry C)) (e : LogEntry C)
      → has_index i (l ++ e ∷ []) ≡ (has_index i l || e.index == i)
  unfolding has_index
  has_index-append i [] e = ground arith
  has_index-append i (x ∷ l) e = ground (arith, has_index-append i l e)

  IsDistinct-snoc :
      (l : List (LogEntry C)) (e : LogEntry C)
      → has_index e.index l ≡ false
      → IsDistinct l
      → IsDistinct (l ++ e ∷ [])
  unfolding has_index
  IsDistinct-snoc [] e h d = (refl, tt)
  IsDistinct-snoc (x ∷ l) e h d = ground (arith, has_index-append x.index l e, IsDistinct-snoc l e)

  push_missing-IsDistinct :
      (es l : List (LogEntry C)) (m : ℕ) → IsDistinct l → IsDistinct (push_missing es l m).0
  unfolding push_missing
  push_missing-IsDistinct [] l m d = d
  push_missing-IsDistinct (e ∷ es) l m d = elim (Bool-cases (has_index e.index l)) [
    | inl old ↦ rw (old, IsDistinct) (push_missing-IsDistinct es l m d)
    | inr new ↦
        rw (new, IsDistinct)
          (push_missing-IsDistinct es (l ++ e ∷ []) e.index (IsDistinct-snoc l e new d))
  ]

  has_index-insert :
      (i : ℕ) (e : LogEntry C) (l : List (LogEntry C))
      → has_index i (insert_by_index e l) ≡ (e.index == i || has_index i l)
  unfolding has_index insert_by_index
  has_index-insert i e [] = ground arith
  has_index-insert i e (x ∷ l) = ground (arith, has_index-insert i e l)

  has_index-sort : (i : ℕ) (l : List (LogEntry C)) → has_index i (sort_by_index l) ≡ has_index i l
  unfolding has_index sort_by_index
  has_index-sort i [] = refl
  has_index-sort i (e ∷ l) =
      ground (arith, has_index-insert i e (sort_by_index l), has_index-sort i l)

  insert-Above :
      (i : ℕ) (e : LogEntry C) (l : List (LogEntry C))
      → i < e.index
      → has_index e.index l ≡ false
      → Above i l
      → Above i (insert_by_index e l)
  unfolding has_index insert_by_index
  insert-Above i e [] h d a = (h, tt)
  insert-Above i e (x ∷ l) h d a = ground (arith, insert-Above x.index e l)

  insert-IsAscending :
      (e : LogEntry C) (l : List (LogEntry C))
      → has_index e.index l ≡ false
      → IsAscending l
      → IsAscending (insert_by_index e l)
  unfolding has_index insert_by_index
  insert-IsAscending e [] d a = tt
  insert-IsAscending e (x ∷ l) d a = ground (arith, insert-Above x.index e l)

  sort-IsAscending : (l : List (LogEntry C)) → IsDistinct l → IsAscending (sort_by_index l)
  unfolding sort_by_index
  sort-IsAscending [] d = tt
  sort-IsAscending (e ∷ l) d =
      insert-IsAscending e (sort_by_index l) (has_index-sort e.index l ∙ d.0)
        (sort-IsAscending l d.1)

  pub merge-IsAscending :
      (p : ℕ) (es l : List (LogEntry C)) → IsAscending l → IsAscending (merge_entries p es l).0
  unfolding merge_entries
  merge-IsAscending p [] l a = a
  merge-IsAscending p (e ∷ es) l a = sort-IsAscending _ (
      push_missing-IsDistinct (e ∷ es) (truncate p l) p
        (IsAscending-IsDistinct _ (truncate-IsAscending p l a)))

  Above-last :
      (i : ℕ) (e : LogEntry C) (l : List (LogEntry C)) → Above i (e ∷ l) → i < last_index (e ∷ l)
  Above-last i e [] a = a.0
  Above-last i e (x ∷ l) a = omega (arith, Above-last e.index x l a.1)

  -- The entry that a leader appends stands above all others.
  snoc-Above :
      (i : ℕ) (e : LogEntry C) (l : List (LogEntry C))
      → i < e.index
      → Above i l
      → last_index l < e.index
      → Above i (l ++ e ∷ [])
  snoc-Above i e [] h a d = (h, tt)
  snoc-Above i e (x ∷ []) h a d = (a.0, (d, tt))
  snoc-Above i e (x ∷ y ∷ l) h a d =
      let below = Above-last x.index y l a.1 in
      (a.0, snoc-Above x.index e (y ∷ l) (omega arith) a.1 d)

  pub snoc-IsAscending :
      (e : LogEntry C) (l : List (LogEntry C))
      → IsAscending l
      → last_index l < e.index
      → IsAscending (l ++ e ∷ [])
  snoc-IsAscending e [] a d = tt
  snoc-IsAscending e (x ∷ []) a d = (d, tt)
  snoc-IsAscending e (x ∷ y ∷ l) a d =
      let below = Above-last x.index y l a in snoc-Above x.index e (y ∷ l) (omega arith) a d
