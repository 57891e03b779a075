-- ===== src/Raft/Matching.antt =====
-- trading/src/consensus/raft.rs: what a follower's log is after an `AppendEntries` that it accepts,
-- and that the request which a leader makes brings the follower's log up to the leader's.
use actix_pura.Prelude.{
  ℕ, zero, suc, ◌+◌, ◌≤◌, ◌<◌, ◌≡◌, refl, sym, ap, ◌∙◌, String, Bool, true, false, List, [], ◌∷◌,
  ◌++◌, arith, ◌⊎◌, ◌||◌, ◌&&◌, ◌==◌, inl, inr, map_or, last, any, u64_mod, sub64, unwrap_or,
}
use mathlib.Core.List.{append_assoc, append-nil}
use actix_pura.Prelude.Dict.{lookup}
use actix_pura.Raft.Types.{LogEntry, RaftNode, append_entries, append_response}
use actix_pura.Raft.Log.{
  last_index, has_index, entry_at, truncate, entries_from, push_missing, insert_by_index,
  sort_by_index, merge_entries, log_consistent, prev_term,
}
use actix_pura.Raft.Rpc.{
  step_down, heard_from, advance_commit, accept_entries, handle_append_entries,
}
use actix_pura.Raft.Leader.{replication}
use actix_pura.Raft.Ordered.{Above, IsAscending, Above-mono, Above-IsAscending}

or_true : (a b : Bool) → b ≡ true → (a || b) ≡ true
or_true a b h = ground arith

module _ {C : Type 0} where
  insert_below :
      (e : LogEntry C) (l : List (LogEntry C)) → Above e.index l → insert_by_index e l ≡ e ∷ l
  unfolding insert_by_index
  insert_below e [] a = refl
  insert_below e (x ∷ l) a = ground arith

  -- Sorting an ascending log changes nothing.
  sort_of_IsAscending : (l : List (LogEntry C)) → IsAscending l → sort_by_index l ≡ l
  unfolding sort_by_index
  sort_of_IsAscending [] a = refl
  sort_of_IsAscending (e ∷ l) a =
      rw (sort_of_IsAscending l (Above-IsAscending e.index l a)) (insert_below e l a)

  -- An entry that stands behind all of an ascending log is missing from it.
  missing_of_Above :
      (i : ℕ) (l es : List (LogEntry C)) (e : LogEntry C)
      → Above i (l ++ e ∷ es)
      → (i < e.index) × (has_index e.index l ≡ false)
  unfolding has_index
  missing_of_Above i [] es e a = (a.0, refl)
  missing_of_Above i (x ∷ l) es e a = ground (arith, missing_of_Above x.index l es e a.1)

  missing :
      (l es : List (LogEntry C)) (e : LogEntry C)
      → IsAscending (l ++ e ∷ es)
      → has_index e.index l ≡ false
  unfolding has_index
  missing [] es e a = refl
  missing (x ∷ l) es e a = ground (arith, missing_of_Above x.index l es e a)

  last_cons :
      (m : ℕ) (e : LogEntry C) (es : List (LogEntry C))
      → map_or e.index (λ x. x.index) (last es) ≡ map_or m (λ x. x.index) (last (e ∷ es))
  last_cons m e [] = refl
  last_cons m e (x ∷ es) = sym (last_cons e.index x es) ∙ last_cons m x es

  -- So the loop pushes every entry, and ends at the last.
  push_all :
      (es l : List (LogEntry C)) (m : ℕ)
      → IsAscending (l ++ es)
      → push_missing es l m ≡ (l ++ es, map_or m (λ e. e.index) (last es))
  unfolding push_missing
  push_all [] l m a = rw append-nil
  push_all (e ∷ es) l m a = rw (missing l es e a) (
      push_all es (l ++ e ∷ []) e.index (rw (append_assoc l (e ∷ []) es) a)
      ∙ ground (arith, append_assoc l (e ∷ []) es, last_cons m e es))

  truncate_append-Above :
      (i p : ℕ) (l es : List (LogEntry C))
      → i ≤ p
      → Above i l
      → Above p es
      → Above i (truncate p l ++ es)
  unfolding truncate
  truncate_append-Above i p [] es h a b = Above-mono p i es h b
  truncate_append-Above i p (e ∷ l) es h a b = ground (
    arith,
    truncate_append-Above e.index p l es,
    truncate_append-Above i p l es h (Above-mono e.index i l (omega arith) a.1) b,
  )

  truncate_append-IsAscending :
      (p : ℕ) (l es : List (LogEntry C))
      → IsAscending l
      → Above p es
      → IsAscending (truncate p l ++ es)
  unfolding truncate
  truncate_append-IsAscending p [] es a b = Above-IsAscending p es b
  truncate_append-IsAscending p (e ∷ l) es a b = ground (
    arith,
    truncate_append-Above e.index p l es,
    truncate_append-IsAscending p l es (Above-IsAscending e.index l a) b,
  )

  merge_entries_lem :
      (p : ℕ) (e : LogEntry C) (es l : List (LogEntry C))
      → IsAscending l
      → Above p (e ∷ es)
      → merge_entries p (e ∷ es) l ≡ (truncate p l ++ e ∷ es, last_index (e ∷ es))
  unfolding merge_entries
  merge_entries_lem p e es l a b =
      let ordered = truncate_append-IsAscending p l (e ∷ es) a b in
      ground (
        arith,
        push_all (e ∷ es) (truncate p l) p ordered,
        sort_of_IsAscending (truncate p l ++ e ∷ es) ordered,
        last_cons 0 e es,
        last_cons p e es,
      )

  truncate-Above : (p : ℕ) (l : List (LogEntry C)) → Above p l → truncate p l ≡ []
  unfolding truncate
  truncate-Above p [] a = refl
  truncate-Above p (e ∷ l) a =
      ground (arith, truncate-Above p l (Above-mono e.index p l (omega arith) a.1))

  entries_from_next : (p : ℕ) (l : List (LogEntry C)) → Above p l → entries_from (p + 1) l ≡ l
  unfolding entries_from
  entries_from_next p [] a = refl
  entries_from_next p (e ∷ l) a =
      ground (arith, entries_from_next p l (Above-mono e.index p l (omega arith) a.1))

  entries_from-Above :
      (p : ℕ) (l : List (LogEntry C)) → IsAscending l → Above p (entries_from (p + 1) l)
  unfolding entries_from
  entries_from-Above p [] a = tt
  entries_from-Above p (e ∷ l) a = ground (
    arith,
    entries_from-Above p l (Above-IsAscending e.index l a),
    entries_from_next p l,
    Above-mono e.index p l,
  )

  -- What is kept and what is sent make up the log.
  truncate-append-entries_from :
      (p : ℕ) (l : List (LogEntry C)) → IsAscending l → truncate p l ++ entries_from (p + 1) l ≡ l
  unfolding truncate entries_from
  truncate-append-entries_from p [] a = refl
  truncate-append-entries_from p (e ∷ l) a = ground (
    arith,
    truncate-append-entries_from p l (Above-IsAscending e.index l a),
    truncate-Above p l,
    entries_from_next p l,
    Above-mono e.index p l,
  )

  -- A test of the indices up to `p` sees only what truncation keeps.
  any-truncate :
      (p t : ℕ) (l : List (LogEntry C))
      → any (λ e. e.index == p && e.term == t) l
        ≡ any (λ e. e.index == p && e.term == t) (truncate p l)
  unfolding truncate
  any-truncate p t [] = refl
  any-truncate p t (e ∷ l) = ground (arith, any-truncate p t l)

  any-entry_at :
      (p : ℕ) (l : List (LogEntry C))
      → has_index p l ≡ true
      → any (λ e. e.index == p && e.term == map_or 0 (λ x. x.term) (entry_at p l)) l ≡ true
  unfolding has_index entry_at
  any-entry_at p [] h = cc
  any-entry_at p (e ∷ l) h = ground (arith, any-entry_at p l)

  agree_any :
      (p t : ℕ) (l k : List (LogEntry C))
      → truncate p l ≡ truncate p k
      → any (λ e. e.index == p && e.term == t) l ≡ any (λ e. e.index == p && e.term == t) k
  agree_any p t l k h =
      any-truncate p t l ∙ ap (any (λ e. e.index == p && e.term == t)) h ∙ sym (any-truncate p t k)

  prev_term_pos :
      (p : ℕ) (l : List (LogEntry C))
      → prev_term (suc p) l ≡ map_or 0 (λ x. x.term) (entry_at (suc p) l)
  unfolding prev_term
  prev_term_pos p l = ground arith

  -- Logs that agree up to `p` pass the follower's check with the leader's term at `p`.
  log_consistent_of_agree :
      (p : ℕ) (l k : List (LogEntry C))
      → truncate p l ≡ truncate p k
      → (p ≡ 0) ⊎ (has_index p k ≡ true)
      → log_consistent p (prev_term p k) l ≡ true
  unfolding log_consistent
  log_consistent_of_agree zero l k h c = refl
  log_consistent_of_agree (suc p) l k h (inl z) = absurd (omega arith)
  log_consistent_of_agree (suc p) l k h (inr has) =
      rw (prev_term_pos p k)
        (or_true (suc p == 0) _ (agree_any (suc p) _ l k h ∙ any-entry_at (suc p) k has))

module _ {C S : Type 0} where
  -- A follower whose log is in strictly ascending order and that accepts, in a term that it has not
  -- passed, entries which ascend from the place where its log agrees keeps its entries up to that
  -- place and drops all others; the new entries follow in their order, and it answers with the
  -- index of the last one.
  pub append_entries_log :
      (now t : ℕ) (leader : String) (p pt c : ℕ) (e : LogEntry C) (es : List (LogEntry C))
      (n : RaftNode C S)
      → n.current_term ≤ t
      → log_consistent p pt n.log ≡ true
      → IsAscending n.log
      → Above p (e ∷ es)
      → let (r, k) = handle_append_entries now (append_entries t leader p pt (e ∷ es) c) n in
        (k.log ≡ truncate p n.log ++ e ∷ es) × (r ≡ append_response t true (last_index (e ∷ es)))
  unfolding handle_append_entries accept_entries advance_commit heard_from step_down
  append_entries_log now t leader p pt c e es n newer agree a b =
      let merged = merge_entries_lem p e es n.log a b in ground (arith, merged)

  -- The request that a leader makes for a follower whose log agrees up to the entry before the
  -- first one sent, in a term that the follower has not passed and with at least one entry to send,
  -- leaves the follower with the leader's whole log, when both logs are in strictly ascending
  -- order.
  pub replication-append_entries :
      (now : ℕ) (i : String) (k f : RaftNode C S) (p : ℕ) {e : LogEntry C} {es : List (LogEntry C)}
      → unwrap_or 1 (lookup i k.next_index) ≡ p + 1
      → p + 1 < u64_mod
      → entries_from (p + 1) k.log ≡ e ∷ es
      → f.current_term ≤ k.current_term
      → IsAscending k.log
      → IsAscending f.log
      → truncate p f.log ≡ truncate p k.log
      → (p ≡ 0) ⊎ (has_index p k.log ≡ true)
      → let (r, g) = handle_append_entries now (replication i k) f in
        (g.log ≡ k.log) × (r ≡ append_response k.current_term true (last_index (e ∷ es)))
  unfolding replication
  replication-append_entries now i k f p {e} {es} next bound sent newer ak af agree known =
      let prev : sub64 (p + 1) 1 ≡ p = omega arith in
      let done =
        append_entries_log now k.current_term k.node_id p (prev_term p k.log) k.commit_index e es f
          newer (log_consistent_of_agree p f.log k.log agree known) af
          (rw sent at (entries_from-Above p k.log ak)) in
      rw (next, prev, sent)
        (done.0 ∙ rw (agree, ← sent) (truncate-append-entries_from p k.log ak), done.1)
