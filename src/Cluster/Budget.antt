-- ===== src/Cluster/Budget.antt =====
-- actix-cluster/src/supervision.rs: a supervisor that restarts keeps to a budget of restarts, also when
-- it comes to restart by matching the type of the error.
use actix_pura.Prelude.{
  some_same, ℕ, suc, ◌-◌, ◌≤◌, ◌≡◌, refl, ap, ◌∙◌, String, true, false, Option, none, some, List,
  [], ◌∷◌, if◌then◌else◌, str_eq, unwrap_or, leb, ltb, Option-cases, Bool-cases, inl, inr, arith,
}
use actix_pura.Cluster.Supervision.{
  SupervisionStrategy, SupervisionMatchers, DistributedSupervisor, as_secs, elapsed, reset_count,
  restart_actor, take_over, handle_failure, handle_matched, restart, stop, escalate, resume,
  relocate, matching, end, matcher,
}

-- The strategy that is applied in the end to errors of a type.
unfoldable mutual
  pub applied : SupervisionStrategy → String → SupervisionStrategy
  applied (matching default matchers) e = unwrap_or (applied default e) (applied_matcher matchers e)
  applied stop e = stop
  applied resume e = resume
  applied escalate e = escalate
  applied (restart max_restarts window delay) e = restart max_restarts window delay
  applied (relocate placement max_relocations delay) e = relocate placement max_relocations delay

  pub applied_matcher : SupervisionMatchers → String → Option SupervisionStrategy
  applied_matcher end e = none
  applied_matcher (matcher t strategy matchers) e =
      let rest = applied_matcher matchers e in
      if str_eq t e then some (applied strategy e) else rest

-- Of the times of restarts, the latest first, how many come before `now` without a gap of more than
-- `secs` seconds.
unfoldable pub recent : ℕ → ℕ → List ℕ → ℕ
recent secs now [] = 0
recent secs now (t ∷ ts) = let more = recent secs t ts in if leb (now - t) secs then suc more else 0

-- All restarts of the last run of restarts without such a gap.
abbrev pub burst : ℕ → List ℕ → ℕ
burst secs [] = 0
burst secs (t ∷ ts) = suc (recent secs t ts)

abbrev pub newest : List ℕ → Option ℕ
newest [] = none
newest (t ∷ ts) = some t

-- The restarts `ts` are those that the supervisor counts.
pub record Counts {A : Type 0} (max_restarts secs : ℕ) (ts : List ℕ) (s : DistributedSupervisor A)
    : Type 0 where
  pub last : s.last_restart ≡ newest ts
  pub count : s.restart_count ≡ burst secs ts
  pub bound : burst secs ts ≤ max_restarts

-- No restart is later than `now`.
abbrev pub Until : ℕ → List ℕ → Type 0
Until now [] = Unit
Until now (t ∷ ts) = t ≤ now

-- What a restarting supervisor answers to a failure at `now`, and what it counts then.
pub record Answers {A : Type 0} (max_restarts secs now : ℕ) (fresh : A) (ts : List ℕ)
    (r : Option A × DistributedSupervisor A) : Type 0 where
  pub answers : r.0 ≡ (if ltb (recent secs now ts) max_restarts then some fresh else none)
  pub counts :
      Counts max_restarts secs (if ltb (recent secs now ts) max_restarts then now ∷ ts else ts) r.1

recent-le-burst : (secs now : ℕ) (ts : List ℕ) → recent secs now ts ≤ burst secs ts
unfolding recent
recent-le-burst secs now [] = omega arith
recent-le-burst secs now (t ∷ ts) = ground arith

module _ {A : Type 0} where
  reset_last :
      (window now : ℕ) (s : DistributedSupervisor A)
      → (reset_count window now s).last_restart ≡ s.last_restart
  unfolding reset_count
  reset_last window now s = elim (Option-cases s.last_restart) [
    | inl e ↦ rw (e, reset_count) e
    | inr (t, e) ↦
        rw (e, reset_count)
          (elim (Bool-cases (ltb (as_secs window) (elapsed now t))) [
            | inl late ↦ rw late e
            | inr soon ↦ rw soon e
          ])
  ]

  -- After the check of the window the count is that of the recent restarts.
  reset_count_lem :
      (max_restarts window now : ℕ) (ts : List ℕ) (s : DistributedSupervisor A)
      → Counts max_restarts (as_secs window) ts s
      → Until now ts
      → (reset_count window now s).restart_count ≡ recent (as_secs window) now ts
  unfolding reset_count recent
  reset_count_lem max_restarts window now [] s c h = rw (c.last, reset_count) c.count
  reset_count_lem max_restarts window now (t ∷ ts) s c h =
      rw (c.last, reset_count) (ground (arith, c.count, h))

  restart-Answers :
      (max_restarts window now : ℕ) (fresh : A) (ts : List ℕ) (s : DistributedSupervisor A)
      → Counts max_restarts (as_secs window) ts s
      → Until now ts
      → Answers max_restarts
          (as_secs window)
          now
          fresh
          ts
          (restart_actor max_restarts now fresh (reset_count window now s))
  unfolding restart_actor
  restart-Answers max_restarts window now fresh ts s c h =
      let count = reset_count_lem max_restarts window now ts s c h in
      let at_most = recent-le-burst (as_secs window) now ts in
      elim (Bool-cases (ltb (recent (as_secs window) now ts) max_restarts)) [
        | inl more ↦
            let free : leb max_restarts (reset_count window now s).restart_count ≡ false =
              rw count (ground (arith, more)) in
            rw (free, restart_actor)
              (record {
                answers = rw more refl;
                counts = rw more (record {
                  last = refl;
                  count = omega (arith, count);
                  bound = ground (arith, more);
                });
              })
        | inr spent ↦
            let full : leb max_restarts (reset_count window now s).restart_count ≡ true =
              rw count (ground (arith, spent)) in
            rw (full, restart_actor)
              (record {
                answers = rw spent refl;
                counts = rw spent (record {
                  last = reset_last window now s ∙ c.last;
                  count = ground (arith, count, at_most, spent, c.bound);
                  bound = c.bound;
                });
              })
      ]

  take_over-Answers :
      (max_restarts secs now : ℕ) (fresh : A) (ts : List ℕ) (s : DistributedSupervisor A)
      (r : Option A × DistributedSupervisor A)
      → Counts max_restarts secs ts s
      → Answers max_restarts secs now fresh ts r
      → Answers max_restarts secs now fresh ts (take_over s r)
  unfolding take_over
  take_over-Answers max_restarts secs now fresh ts s (none, t) c h =
      elim (Bool-cases (ltb (recent secs now ts) max_restarts)) [
        | inl more ↦ let e = rw more at h.answers in cc
        | inr spent ↦ record { answers = h.answers; counts = rw spent c }
      ]
  take_over-Answers max_restarts secs now fresh ts s (some a, t) c h = record {
    answers = h.answers;
    counts = record { last = h.counts.last; count = h.counts.count; bound = h.counts.bound };
  }

  matched_none :
      (matchers : SupervisionMatchers) (e : String) (now : ℕ) (fresh : A)
      (s : DistributedSupervisor A)
      → applied_matcher matchers e ≡ none
      → handle_matched matchers e now fresh s ≡ none
  unfolding applied_matcher handle_matched
  matched_none end e now fresh s h = refl
  matched_none (matcher t strategy matchers) e now fresh s h =
      ground (arith, matched_none matchers e now fresh s)

module _ {A : Type 0} (max_restarts window delay now : ℕ) (fresh : A) (ts : List ℕ)
    (s : DistributedSupervisor A) (c : Counts max_restarts (as_secs window) ts s)
    (h : Until now ts) where
  mutual
    unfolding applied handle_failure

    pub strategy-Answers :
        (strategy : SupervisionStrategy) (e : String)
        → applied strategy e ≡ restart max_restarts window delay
        → Answers max_restarts (as_secs window) now fresh ts (handle_failure strategy e now fresh s)
    strategy-Answers stop e is = cc
    strategy-Answers resume e is = cc
    strategy-Answers escalate e is = cc
    strategy-Answers (relocate placement max_relocations d) e is = cc
    strategy-Answers (restart m w d) e is =
        let same : restart m w d ≡ restart max_restarts window delay = is in
        let (em, ew) : (m ≡ max_restarts) × (w ≡ window) = (cc, cc) in
        rw (em, ew) (restart-Answers max_restarts window now fresh ts s c h)
    strategy-Answers (matching default matchers) e is =
        elim (Option-cases (applied_matcher matchers e)) [
          | inl unmatched ↦
              rw (matched_none matchers e now fresh s unmatched, handle_failure)
                (take_over-Answers max_restarts (as_secs window) now fresh ts s _ c
                  (strategy-Answers default e (rw (unmatched, applied) at is)))
          | inr (strategy, found) ↦
              let (r, took, ok) =
                matcher-Answers matchers e (found ∙ ap some (rw (found, applied) at is)) in
              rw (took, handle_failure)
                (take_over-Answers max_restarts (as_secs window) now fresh ts s r c ok)
        ]

    matcher-Answers :
        (matchers : SupervisionMatchers) (e : String)
        → applied_matcher matchers e ≡ some (restart max_restarts window delay)
        → (r : Option A × DistributedSupervisor A) × (handle_matched matchers e now fresh s
            ≡ some r)
          × Answers max_restarts (as_secs window) now fresh ts r
    matcher-Answers end e is = cc
    matcher-Answers (matcher t strategy matchers) e is = elim (Bool-cases (str_eq t e)) [
      | inl same ↦ (
        handle_failure strategy e now fresh s,
        rw same refl,
        strategy-Answers strategy e (some_same (rw (same, applied_matcher) at is)),
      )
      | inr other ↦
          let (r, took, ok) = matcher-Answers matchers e (rw (other, applied_matcher) at is) in
          (r, rw other took, ok)
    ]
