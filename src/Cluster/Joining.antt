-- ===== src/Cluster/Joining.antt =====
-- actix-cluster/src/sync/mod.rs: merging, as the join of clocks, and the resolvers.
use actix_pura.Prelude.{
  ℕ, ◌+◌, ◌<◌, ◌≡◌, refl, sym, ◌∙◌, String, none, [], ◌∷◌, arith, unwrap_or, add64, u64_mod,
  String-discrete, ite, if_pos, if_neg,
}
use mathlib.Core.Quot.{Setoid, Quotient, Quotient-set}
use mathlib.Core.Quot.Quotient
use actix_pura.Prelude.Dict.{lookup, insert, lookup-insert}
use actix_pura.Cluster.Clock.{
  VectorClock, ClockRelation, greater, get, increment, merge, max, compare, chosen, resolve_clock,
}
use actix_pura.Cluster.Pointwise.{IsMap, ◌⊑◌, get_cons, Verdict, compare-Verdict}

IsMap-insert : (n : String) (v : ℕ) (c : VectorClock) → IsMap c → IsMap (insert n v c)
unfolding insert lookup
IsMap-insert n v [] h = (refl, tt)
IsMap-insert n v ((m, w) ∷ c) h = elim (String-discrete n m) [
  | yes p ↦ rw (if_pos _ p) (rw p h.0, h.1)
  | no p ↦ rw (if_neg _ p) (ground (arith, lookup-insert n m v c, h.0), IsMap-insert n v c h.1)
]

pub get-insert :
    (n m : String) (v : ℕ) (c : VectorClock)
    → get m (insert n v c) ≡ ite (String-discrete n m) v (get m c)
unfolding get
get-insert n m v c = ground (arith, lookup-insert n m v c)

-- Setting and counting keep one counter for each node.
pub increment-IsMap : (n : String) (c : VectorClock) → IsMap c → IsMap (increment n c)
unfolding increment
increment-IsMap n c h = IsMap-insert n _ c h

pub merge-IsMap : (c o : VectorClock) → IsMap c → IsMap (merge c o)
unfolding merge
merge-IsMap c [] h = h
merge-IsMap c ((n, v) ∷ o) h =
    merge-IsMap (insert n (max (unwrap_or 0 (lookup n c)) v) c) o (IsMap-insert n _ c h)

get_unwrap : (n : String) (c : VectorClock) → unwrap_or 0 (lookup n c) ≡ get n c
unfolding get
get_unwrap n c = refl

get-none : (n : String) (c : VectorClock) → lookup n c ≡ none → get n c ≡ 0
unfolding get
get-none n c h = ground arith

-- A merge has, for each node, the larger of the two counters.
pub get-merge :
    (n : String) (c o : VectorClock) → IsMap o → get n (merge c o) ≡ max (get n c) (get n o)
unfolding merge lookup
get-merge n c [] h = ground (arith, get-none n [] refl)
get-merge n c ((m, v) ∷ o) h =
    let w = max (unwrap_or 0 (lookup m c)) v in
    ground (
      arith,
      get-merge n (insert m w c) o h.1,
      get-insert m n w c,
      get_cons n m v o,
      get_unwrap m c,
      get-none m o h.0,
    )

-- Clocks up to the counters that can be read.
abbrev pub Clock : Type 0
Clock = (c : VectorClock) × IsMap c

abbrev pub SameCounts : Clock → Clock → Type 0
SameCounts x y = (n : String) → get n x.0 ≡ get n y.0

abbrev pub join : Clock → Clock → Clock
join x y = (merge x.0 y.0, merge-IsMap x.0 y.0 x.1)

abbrev counts : Setoid {0, 0} Clock
counts = record {
  r = SameCounts;
  iseqv = record {
    refl = λ x n. refl;
    symm = λ x y h n. sym (h n);
    trans = λ x y z h k n. h n ∙ k n;
  };
}

abbrev pub Counts : Type 0
Counts = Quotient counts

abbrev pub ⟦◌⟧ : Clock → Counts
⟦ x ⟧ = Quotient.mk counts x

join_congr :
    (x y x' y' : Clock) → SameCounts x x' → SameCounts y y' → SameCounts (join x y) (join x' y')
join_congr x y x' y' p q n =
    ground (arith, get-merge n x.0 y.0 y.1, get-merge n x'.0 y'.0 y'.1, p n, q n)

infixl 65 ◌⊔◌
pub ◌⊔◌ : Counts → Counts → Counts
◌⊔◌ =
    Quotient.lift₂ counts counts (Quotient-set counts) (λ x y. ⟦ join x y ⟧)
      (λ x y x' y' p q. Quotient.sound counts (join_congr x y x' y' p q))

pub mk-join : (x y : Clock) → ⟦ join x y ⟧ ≡ ⟦ x ⟧ ⊔ ⟦ y ⟧
unfolding ◌⊔◌
mk-join x y = sym (Quotient.lift₂-mk counts counts (Quotient-set counts) _ _ x y)

join_comm : (x y : Clock) → SameCounts (join x y) (join y x)
join_comm x y n = ground (arith, get-merge n x.0 y.0 y.1, get-merge n y.0 x.0 x.1)

join_idem : (x : Clock) → SameCounts (join x x) x
join_idem x n = ground (arith, get-merge n x.0 x.0 x.1)

join_assoc : (x y z : Clock) → SameCounts (join (join x y) z) (join x (join y z))
join_assoc x y z n = ground (
  arith,
  get-merge n (merge x.0 y.0) z.0 z.1,
  get-merge n x.0 y.0 y.1,
  get-merge n x.0 (merge y.0 z.0) (merge-IsMap y.0 z.0 y.1),
  get-merge n y.0 z.0 z.1,
)

⊔_comm : (a b : Counts) → a ⊔ b ≡ b ⊔ a
⊔_comm a b =
    Quotient.induction_on₂ counts counts {motive = λ a b. a ⊔ b ≡ b ⊔ a}
      (λ a b. Quotient-set counts _ _) a b
      (λ x y. simp (← mk-join) (Quotient.sound counts (join_comm x y)))

⊔_idem : (a : Counts) → a ⊔ a ≡ a
⊔_idem a =
    Quotient.induction_on counts {motive = λ a. a ⊔ a ≡ a} (λ a. Quotient-set counts _ _) a
      (λ x. simp (← mk-join) (Quotient.sound counts (join_idem x)))

⊔_assoc : (a b c : Counts) → a ⊔ b ⊔ c ≡ a ⊔ (b ⊔ c)
⊔_assoc a b c =
    Quotient.induction_on₃ counts counts counts {motive = λ a b c. a ⊔ b ⊔ c ≡ a ⊔ (b ⊔ c)}
      (λ a b c. Quotient-set counts _ _) a b c
      (λ x y z. simp (← mk-join) (Quotient.sound counts (join_assoc x y z)))

-- Up to the counters that can be read, merging is the join of a semilattice: it is commutative,
-- associative and idempotent, so replicas that exchange their clocks agree in any order.
pub merge_semilattice :
    (x y : Clock) (a b c : Counts)
    → (⟦ join x y ⟧ ≡ ⟦ x ⟧ ⊔ ⟦ y ⟧) × (a ⊔ b ≡ b ⊔ a) × (a ⊔ b ⊔ c ≡ a ⊔ (b ⊔ c)) × (a ⊔ a ≡ a)
merge_semilattice x y a b c = (mk-join x y, ⊔_comm a b, ⊔_assoc a b c, ⊔_idem a)

-- A merge is above both clocks, and below each that is above both.
pub merge_least :
    (c o u : VectorClock)
    → IsMap o
    → (c ⊑ merge c o) × (o ⊑ merge c o) × (c ⊑ u → o ⊑ u → merge c o ⊑ u)
merge_least c o u h = (
  (λ n. ground (arith, get-merge n c o h)),
  (λ n. ground (arith, get-merge n c o h)),
  (λ p q n. ground (arith, get-merge n c o h, p n, q n)),
)

-- A clock strictly below another.
abbrev pub Below : VectorClock → VectorClock → Type 0
Below c o = (c ⊑ o) × ¬ (o ⊑ c)

greater_of :
    (r : ClockRelation) (c o : VectorClock) → Verdict r c o → ¬ (c ⊑ o) → o ⊑ c → r ≡ greater
greater_of ClockRelation.equal c o v h k = absurd (h v.0)
greater_of ClockRelation.less c o v h k = absurd (h v.0)
greater_of ClockRelation.greater c o v h k = refl
greater_of ClockRelation.concurrent c o v h k = absurd (v.1 k)

get-increment :
    (n m : String) (c : VectorClock)
    → get m (increment n c) ≡ ite (String-discrete n m) (add64 (get n c) 1) (get m c)
unfolding increment
get-increment n m c =
    ground (arith, get-insert n m (add64 (unwrap_or 0 (lookup n c)) 1) c, get_unwrap n c)

get-increment_self :
    (n : String) (c : VectorClock) → get n c + 1 < u64_mod → get n (increment n c) ≡ get n c + 1
get-increment_self n c room = ground (arith, get-increment n n c)

le-increment : (n : String) (c : VectorClock) → get n c + 1 < u64_mod → c ⊑ increment n c
le-increment n c room m = elim (String-discrete n m) [
  | yes p ↦ rw (← p) (omega (arith, get-increment_self n c room))
  | no p ↦ rw (get-increment n m c, if_neg _ p) (omega arith)
]

-- Counting up, short of 2^64, gives a clock that `compare` calls greater.
pub compare-increment :
    (n : String) (c : VectorClock)
    → IsMap c
    → get n c + 1 < u64_mod
    → compare (increment n c) c ≡ greater
compare-increment n c h room =
    greater_of _ (increment n c) c (compare-Verdict _ c (increment-IsMap n c h) h)
      (λ le. absurd (omega (arith, le n, get-increment_self n c room))) (le-increment n c room)

module _ {ℓ} {T : Type ℓ} (clock : T → VectorClock) where
  chosen_keeps :
      (r : ClockRelation) (local remote : T)
      → Verdict r (clock local) (clock remote)
      → ¬ (Below (clock (chosen r local remote)) (clock local))
        × ¬ (Below (clock (chosen r local remote)) (clock remote))
  chosen_keeps ClockRelation.equal local remote v = ((λ b. b.1 b.0), (λ b. b.1 v.1))
  chosen_keeps ClockRelation.less local remote v = ((λ b. v.1 b.0), (λ b. b.1 b.0))
  chosen_keeps ClockRelation.greater local remote v = ((λ b. b.1 b.0), (λ b. v.0 b.0))
  chosen_keeps ClockRelation.concurrent local remote v = ((λ b. b.1 b.0), (λ b. v.0 b.0))

  -- The version that the resolver keeps is older than neither of the two, when their clocks have
  -- one counter for each node.
  pub resolve_clock_keeps :
      (local remote : T)
      → IsMap (clock local)
      → IsMap (clock remote)
      → ¬ (Below (clock (resolve_clock clock local remote)) (clock local))
        × ¬ (Below (clock (resolve_clock clock local remote)) (clock remote))
  unfolding resolve_clock
  resolve_clock_keeps local remote h k =
      chosen_keeps _ local remote (compare-Verdict (clock local) (clock remote) h k)
