-- ===== src/Cluster/Pointwise.antt =====
-- actix-cluster/src/sync/mod.rs: the comparison of clocks is the order of all their counters.
use actix_pura.Prelude.{
  ℕ, ◌≤◌, ◌<◌, ◌≡◌, refl, String, Bool, true, false, ◌||◌, ◌&&◌, not, none, some, [], ◌∷◌, arith,
  ltb, is_some, inl, inr, Bool-cases, Option-cases, String-discrete, ite,
}
use actix_pura.Prelude.Dict.{lookup}
use actix_pura.Cluster.Clock.{
  VectorClock, ClockRelation, relation, get, some_above, some_below, some_missing, compare,
}

-- A node has one counter.
abbrev pub IsMap : VectorClock → Type 0
IsMap [] = Unit
IsMap ((n, v) ∷ c) = (lookup n c ≡ none) × IsMap c

-- No counter of the first clock is above that of the second.
infix 50 ◌⊑◌
abbrev pub ◌⊑◌ : VectorClock → VectorClock → Type 0
c ⊑ o = (n : String) → get n c ≤ get n o

pub get_cons :
    (n m : String) (v : ℕ) (c : VectorClock)
    → get n ((m, v) ∷ c) ≡ ite (String-discrete n m) v (get n c)
unfolding get lookup
get_cons n m v c = ground arith

get_nil : (n : String) → get n [] ≡ 0
unfolding get lookup
get_nil n = refl

get_missing : (n : String) (c : VectorClock) → lookup n c ≡ none → get n c ≡ 0
unfolding get
get_missing n c h = ground arith

get_found : (n : String) (v : ℕ) (c : VectorClock) → lookup n c ≡ some v → get n c ≡ v
unfolding get
get_found n v c h = ground arith

above_get : (c o : VectorClock) (n : String) → some_above c o ≡ false → get n c ≤ get n o
unfolding some_above
above_get [] o n h = omega (arith, get_nil n)
above_get ((m, v) ∷ c) o n h = ground (arith, get_cons n m v c, above_get c o n)

below_get :
    (c o : VectorClock) (n : String) (v : ℕ)
    → some_below c o ≡ false
    → lookup n c ≡ some v
    → get n o ≤ v
unfolding some_below lookup
below_get [] o n v h e = cc
below_get ((m, w) ∷ c) o n v h e = ground (arith, below_get c o n v)

missing_get :
    (c o : VectorClock) (n : String) → some_missing c o ≡ false → lookup n c ≡ none → get n o ≡ 0
unfolding some_missing
missing_get c [] n h e = get_nil n
missing_get c ((m, v) ∷ o) n h e = ground (arith, get_cons n m v o, missing_get c o n)

-- A place where the first clock is ahead of the second.
Ahead : VectorClock → VectorClock → Type 0
Ahead c o = (n : String) × (get n o < get n c)

not_le_of_Ahead : (c o : VectorClock) → Ahead c o → ¬ (c ⊑ o)
unfolding Ahead
not_le_of_Ahead c o (n, h) le = absurd (omega (arith, le n))

above-Ahead : (c o : VectorClock) → IsMap c → some_above c o ≡ true → Ahead c o
unfolding some_above Ahead
above-Ahead [] o h e = cc
above-Ahead ((m, v) ∷ c) o h e = elim (Bool-cases (ltb (get m o) v)) [
  | inl head ↦ (m, ground (arith, get_cons m m v c))
  | inr rest ↦
      let (n, lt) = above-Ahead c o h.1 (ground arith) in
      (n, ground (arith, get_cons n m v c, get_missing m c h.0))
]

below_at :
    (c o : VectorClock)
    → IsMap c
    → some_below c o ≡ true
    → (n : String) × (w : ℕ) × (lookup n c ≡ some w) × (w < get n o)
unfolding some_below lookup
below_at [] o h e = cc
below_at ((m, v) ∷ c) o h e = elim (Bool-cases (ltb v (get m o))) [
  | inl head ↦ (m, v, ground arith, ground arith)
  | inr rest ↦
      let (n, w, found, lt) = below_at c o h.1 (ground arith) in (n, w, ground (arith, h.0), lt)
]

below-Ahead : (c o : VectorClock) → IsMap c → some_below c o ≡ true → Ahead o c
unfolding Ahead
below-Ahead c o h e =
    let (n, w, found, lt) = below_at c o h e in (n, omega (arith, get_found n w c found))

missing-Ahead : (c o : VectorClock) → IsMap o → some_missing c o ≡ true → Ahead o c
unfolding some_missing Ahead
missing-Ahead c [] h e = cc
missing-Ahead c ((m, v) ∷ o) h e = elim (Bool-cases (not (is_some (lookup m c)) && ltb 0 v)) [
  | inl head ↦ (m, ground (arith, get_cons m m v o, get_missing m c))
  | inr rest ↦
      let (n, lt) = missing-Ahead c o h.1 (ground arith) in
      (n, ground (arith, get_cons n m v o, get_missing m o h.0))
]

-- What each verdict says of the two clocks.
abbrev pub Verdict : ClockRelation → VectorClock → VectorClock → Type 0
Verdict ClockRelation.equal c o = (c ⊑ o) × (o ⊑ c)
Verdict ClockRelation.less c o = (c ⊑ o) × ¬ (o ⊑ c)
Verdict ClockRelation.greater c o = ¬ (c ⊑ o) × (o ⊑ c)
Verdict ClockRelation.concurrent c o = ¬ (c ⊑ o) × ¬ (o ⊑ c)

-- The two flags of `compare` decide the order of the clocks in both directions.
below_flag : VectorClock → VectorClock → Bool
below_flag c o = some_below c o || some_missing c o

le_of_flag : (c o : VectorClock) → below_flag c o ≡ false → o ⊑ c
unfolding below_flag
le_of_flag c o h n = elim (Option-cases (lookup n c)) [
  | inl gone ↦ omega (arith, missing_get c o n (ground arith) gone)
  | inr (v, e) ↦
      let le : get n o ≤ v = below_get c o n v (ground arith) e in omega (arith, get_found n v c e)
]

flag-Ahead : (c o : VectorClock) → IsMap c → IsMap o → below_flag c o ≡ true → Ahead o c
unfolding below_flag
flag-Ahead c o h k e = elim (Bool-cases (some_below c o)) [
  | inl below ↦ below-Ahead c o h below
  | inr not_below ↦ missing-Ahead c o k (ground arith)
]

Verdict-of_flags :
    (c o : VectorClock) (a b : Bool)
    → IsMap c
    → IsMap o
    → some_above c o ≡ a
    → below_flag c o ≡ b
    → Verdict (relation a b) c o
Verdict-of_flags c o false false h k e d = ((λ n. above_get c o n e), le_of_flag c o d)
Verdict-of_flags c o true false h k e d =
    (not_le_of_Ahead c o (above-Ahead c o h e), le_of_flag c o d)
Verdict-of_flags c o false true h k e d =
    ((λ n. above_get c o n e), not_le_of_Ahead o c (flag-Ahead c o h k d))
Verdict-of_flags c o true true h k e d =
    (not_le_of_Ahead c o (above-Ahead c o h e), not_le_of_Ahead o c (flag-Ahead c o h k d))

-- For clocks with one counter for each node the verdict of `compare` says exactly how they stand to
-- each other in the order of all counters, a missing one being 0: equal, below, above, or neither.
pub compare-Verdict : (c o : VectorClock) → IsMap c → IsMap o → Verdict (compare c o) c o
unfolding compare below_flag
compare-Verdict c o h k = Verdict-of_flags c o _ _ h k refl refl
