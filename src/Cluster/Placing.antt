-- ===== src/Cluster/Placing.antt =====
-- actix-cluster/src/placement.rs: whatever the strategy, an actor is placed on a node that is there.
use actix_pura.Prelude.{
  ℕ, zero, suc, ◌%◌, ◌≡◌, ◌⊎◌, ◌≢◌, refl, sym, ap, String, Bool, true, false, Option, none, some,
  List, [], ◌∷◌, if◌then◌else◌, ltb, ◌==◌, is_some, length, is_empty, Has, All, arith, inl, inr,
  Bool-cases, Option-cases, String-discrete,
}
use actix_pura.Prelude.Dict.{lookup, lookup-insert}
use mathlib.Core.Path.{subst}
use actix_pura.Cluster.Placement.{
  PlacementStrategy, ClusterError, no_nodes_available, too_few_nodes, least_loop, Selector, Facts,
  Placement, Outcome, ok, err, panic, >>=-ok, index_at, contains, local, first_such, group_node,
  in_group, replicas_loop, select_random_node, select_specific_node, select_round_robin_node,
  select_least_loaded_node, closest_unused, select_redundant_nodes, replicas_of, keep_replicas,
  select_replica, select_with_local_affinity, select_node,
}
use actix_pura.Cluster.Hash.{hash_string}
use actix_pura.Cluster.Choosing.{least_of_all, least_node}

-- A node that was kept as a replica.
abbrev pub Kept : Placement → ℕ → Type 0
Kept p n = (path : String) × (ns : List ℕ) × (lookup path p.redundant_nodes ≡ some ns) × Has n ns

-- `Old` are the nodes that were kept as replicas before.
module _ (s : Selector) (Old : ℕ → Type 0) where
  abbrev pub IsActive : ℕ → Type 0
  IsActive n = Has n s.active_nodes

  abbrev pub Good : ℕ → Type 0
  Good n = IsActive n ⊎ Old n

  -- Each list of replicas that is kept names active nodes and old ones only.
  abbrev pub KeepsGood : Placement → Type 0
  KeepsGood p =
      (path : String) (ns : List ℕ) → lookup path p.redundant_nodes ≡ some ns → All Good ns

  -- Where a strategy may place an actor.
  abbrev pub MayTake : PlacementStrategy → ℕ → Type 0
  MayTake (PlacementStrategy.node k) n = (n ≡ k) × (is_some (s.node_info n) ≡ true)
  MayTake (PlacementStrategy.local_affinity fallback group) n = IsActive n ⊎ MayTake fallback n
  MayTake PlacementStrategy.random n = IsActive n
  MayTake PlacementStrategy.round_robin n = IsActive n
  MayTake PlacementStrategy.least_loaded n = IsActive n
  MayTake (PlacementStrategy.redundant replicas) n = Good n

  index_at-Has : (ns : List ℕ) (i n : ℕ) → index_at ns i ≡ ok n → Has n ns
  index_at-Has ns i n h = (i, ground arith)

  index_at-All : (ns : List ℕ) (n : ℕ) → All Good ns → index_at ns 0 ≡ ok n → Good n
  index_at-All [] n a h = cc
  index_at-All (m ∷ ns) n a h = let e : m ≡ n = cc in subst Good e a.0

  contains-Has : (x : ℕ) (ns : List ℕ) → contains s x ns ≡ true → Has x ns
  contains-Has x [] h = cc
  contains-Has x (n ∷ ns) h = elim (Bool-cases (x == n)) [
    | inl same ↦ (zero, ap some (ground arith))
    | inr other ↦ let (i, at) = contains-Has x ns (ground arith) in (suc i, at)
  ]

  first_such-Has :
      (test : Facts → Bool) (ns : List ℕ) (n : ℕ) → first_such s test ns ≡ some n → Has n ns
  unfolding first_such
  first_such-Has test [] n h = cc
  first_such-Has test (m ∷ ns) n h = elim (Option-cases (s.node_info m)) [
    | inl unknown ↦ let (i, at) = first_such-Has test ns n (ground arith) in (suc i, at)
    | inr (i, known) ↦ elim (Bool-cases (test i)) [
      | inl passed ↦ (zero, ground arith)
      | inr failed ↦ let (k, at) = first_such-Has test ns n (ground arith) in (suc k, at)
    ]
  ]

  if_ok :
      {A : Type 0} (t : Bool) (o : Outcome A) (e : Outcome A) (a : A)
      → (if t then o else e) ≡ ok a
      → e ≢ ok a
      → o ≡ ok a
  if_ok true o e a h k = h
  if_ok false o e a h k = absurd (k h)

  replicas_inv :
      (base replicas left i : ℕ) (used ns : List ℕ)
      → replicas_loop s base replicas (suc left) i used ≡ ok ns
      → (n : ℕ) × (ms : List ℕ) × IsActive n
        × (replicas_loop s base replicas left (suc i) ((closest_unused s base i used).1 ∷ used)
            ≡ ok ms)
        × (ns ≡ n ∷ ms)
  unfolding replicas_loop
  replicas_inv base replicas left i used ns h =
      let best = closest_unused s base i used in
      let body = if_ok best.2 _ _ ns h (λ e. cc) in
      let (n, e, at) = >>=-ok _ (index_at s.active_nodes best.1) body in
      let (ms, e', rest) =
        >>=-ok _ (replicas_loop s base replicas left (suc i) (best.1 ∷ used)) e in
      (n, ms, index_at-Has s.active_nodes best.1 n at, rest, cc)

  replicas-Good :
      (base replicas left i : ℕ) (used ns : List ℕ)
      → replicas_loop s base replicas left i used ≡ ok ns
      → All Good ns
  replicas-Good base replicas zero i used ns h =
      unfold replicas_loop in let e : [] ≡ ns = cc in subst (All Good) e tt
  replicas-Good base replicas (suc left) i used ns h =
      let (n, ms, active, rest, e) = replicas_inv base replicas left i used ns h in
      subst (All Good) (sym e) (
        inl active,
        replicas-Good base replicas left (suc i) ((closest_unused s base i used).1 ∷ used) ms rest,
      )

  select_redundant-Good :
      (path : String) (replicas : ℕ) (ns : List ℕ)
      → select_redundant_nodes s path replicas ≡ ok ns
      → All Good ns
  unfolding select_redundant_nodes
  select_redundant-Good path replicas ns h =
      replicas-Good (hash_string path) replicas replicas 0 [] ns (ground arith)

  -- A result that leaves only active and old nodes among the replicas kept, and is good where it is a value.
  abbrev pub Leaves {ℓ} : {A : Type ℓ} → (A → Type 0) → Outcome A × Placement → Type ℓ
  Leaves {A = A} P r = KeepsGood r.1 × ((a : A) → r.0 ≡ ok a → P a)

  keep_replicas-Good :
      (path : String) (p : Placement) (o : Outcome (List ℕ))
      → KeepsGood p
      → ((ns : List ℕ) → o ≡ ok ns → All Good ns)
      → Leaves (All Good) (keep_replicas s path p o)
  unfolding keep_replicas
  keep_replicas-Good path p (ok ns) k a = (
    (λ path' ms h. elim (String-discrete path path') [
      | yes same ↦ a ms (ground (arith, lookup-insert path path' ns p.redundant_nodes))
      | no other ↦ k path' ms (ground (arith, lookup-insert path path' ns p.redundant_nodes))
    ]),
    a,
  )
  keep_replicas-Good path p (err e) k a = (k, (λ ns h. cc))
  keep_replicas-Good path p panic k a = (k, (λ ns h. cc))

  Leaves-eq {ℓ} :
      {A : Type ℓ} (P : A → Type 0) (r q : Outcome A × Placement) → r ≡ q → Leaves P q → Leaves P r
  Leaves-eq P r q e l = subst (Leaves P) (sym e) l

  -- A refusal changes nothing.
  Leaves-err {ℓ} :
      {A : Type ℓ} (P : A → Type 0) (p : Placement) (e : ClusterError)
      → KeepsGood p
      → Leaves P (err e, p)
  Leaves-err P p e k = (k, (λ n h. cc))

  replicas_of-Good :
      (path : String) (replicas : ℕ) (p : Placement)
      → KeepsGood p
      → Leaves (All Good) (replicas_of s path replicas p)
  unfolding replicas_of
  replicas_of-Good path replicas p k = elim (Option-cases (lookup path p.redundant_nodes)) [
    | inl new ↦
        Leaves-eq (All Good) (replicas_of s path replicas p)
          (keep_replicas s path p (select_redundant_nodes s path replicas)) (ground arith)
          (keep_replicas-Good path p (select_redundant_nodes s path replicas) k
            (select_redundant-Good path replicas))
    | inr (ns, known) ↦
        Leaves-eq (All Good) (replicas_of s path replicas p) ((ok ns, p)) (ground arith)
          (k, (λ ms h. let e : ns ≡ ms = cc in subst (All Good) e (k path ns known)))
  ]

  replica-Good :
      (path : String) (replicas : ℕ) (p : Placement)
      → KeepsGood p
      → Leaves Good (select_replica s path replicas p)
  unfolding select_replica
  replica-Good path replicas p k =
      let r = replicas_of s path replicas p in
      let (keeps, good) = replicas_of-Good path replicas p k in
      elim (Bool-cases (is_empty s.active_nodes)) [
        | inl empty ↦ rw empty (Leaves-err Good p no_nodes_available k)
        | inr some_node ↦ elim (Bool-cases (ltb (length s.active_nodes) replicas)) [
          | inl few ↦
              rw (some_node, few)
                (Leaves-err Good p (too_few_nodes replicas (length s.active_nodes)) k)
          | inr enough ↦
              rw (some_node, enough)
                (keeps, λ n h. let (ns, at, e) = >>=-ok _ r.0 h in index_at-All ns n (good ns e) at)
        ]
      ]

  group-IsActive : (group : Option String) (n : ℕ) → group_node s group ≡ some n → IsActive n
  unfolding group_node
  group-IsActive none n h = cc
  group-IsActive (some g) n h = first_such-Has (in_group s g) s.active_nodes n h

  affinity-IsActive :
      (group : Option String) (P : ℕ → Type 0) (fallback : Outcome ℕ × Placement) (p : Placement)
      → KeepsGood p
      → Leaves P fallback
      → Leaves (λ n. IsActive n ⊎ P n) (select_with_local_affinity s group fallback p)
  unfolding select_with_local_affinity
  affinity-IsActive group P fallback p k f = elim (Bool-cases (is_empty s.active_nodes)) [
    | inl empty ↦
        Leaves-eq (λ n. IsActive n ⊎ P n) (select_with_local_affinity s group fallback p)
          ((err no_nodes_available, p)) (ground arith)
          (Leaves-err (λ n. IsActive n ⊎ P n) p no_nodes_available k)
    | inr some_node ↦ elim (Bool-cases (contains s local s.active_nodes)) [
      | inl here ↦
          Leaves-eq (λ n. IsActive n ⊎ P n) (select_with_local_affinity s group fallback p)
            ((ok local, p)) (ground arith)
            (k, (λ n h. inl (subst IsActive (cc) (contains-Has local s.active_nodes here))))
      | inr away ↦ elim (Option-cases (group_node s group)) [
        | inl alone ↦
            Leaves-eq (λ n. IsActive n ⊎ P n) (select_with_local_affinity s group fallback p)
              (fallback) (ground arith) (f.0, (λ n h. inr (f.1 n h)))
        | inr (m, found) ↦
            Leaves-eq (λ n. IsActive n ⊎ P n) (select_with_local_affinity s group fallback p)
              ((ok m, p)) (ground arith)
              (k, (λ n h. inl (subst IsActive (cc) (group-IsActive group m found))))
      ]
    ]
  ]

  pure_active :
      (o : Outcome ℕ) (P : ℕ → Type 0) (p : Placement)
      → KeepsGood p
      → ((n : ℕ) → o ≡ ok n → P n)
      → Leaves P (o, p)
  pure_active o P p k h = (k, h)

  random-IsActive : (n : ℕ) → select_random_node s ≡ ok n → IsActive n
  unfolding select_random_node
  random-IsActive n h =
      index_at-Has s.active_nodes (s.gen_range (length s.active_nodes)) n (ground arith)

  round_robin-IsActive :
      (p : Placement) → KeepsGood p → Leaves IsActive (select_round_robin_node s p)
  unfolding select_round_robin_node
  round_robin-IsActive p k = elim (Bool-cases (is_empty s.active_nodes)) [
    | inl empty ↦ rw empty (Leaves-err IsActive p no_nodes_available k)
    | inr some_node ↦
        rw some_node (
          k,
          (λ n h. index_at-Has s.active_nodes (p.round_robin_index % length s.active_nodes) n h),
        )
  ]

  specific_known :
      (m n : ℕ) → select_specific_node s m ≡ ok n → (n ≡ m) × (is_some (s.node_info n) ≡ true)
  unfolding select_specific_node
  specific_known m n h = elim (Bool-cases (is_some (s.node_info m))) [
    | inl known ↦ let e : m ≡ n = ground arith in (sym e, rw (← e) known)
    | inr unknown ↦ absurd (ground arith)
  ]

  List-cases : (ns : List ℕ) → (ns ≡ []) ⊎ ((n : ℕ) × (ms : List ℕ) × (ns ≡ n ∷ ms))
  List-cases [] = inl refl
  List-cases (n ∷ ms) = inr (n, ms, refl)

  least_loaded-IsActive : (n : ℕ) → select_least_loaded_node s ≡ ok n → IsActive n
  least_loaded-IsActive n h = elim (List-cases s.active_nodes) [
    | inl empty ↦ unfold select_least_loaded_node in absurd (ground arith)
    | inr (m, ms, e) ↦
        let same : least_loop s (m ∷ ms) m 255 ≡ n = cc (least_node s m ms e) in
        subst IsActive same (least_of_all s m ms e)
  ]

  place :
      (path : String) (strategy : PlacementStrategy) (p : Placement)
      → KeepsGood p
      → Leaves (MayTake strategy) (select_node s path strategy p)
  unfolding select_node
  place path PlacementStrategy.random p k =
      pure_active (select_random_node s) IsActive p k random-IsActive
  place path PlacementStrategy.round_robin p k = round_robin-IsActive p k
  place path PlacementStrategy.least_loaded p k =
      pure_active (select_least_loaded_node s) IsActive p k least_loaded-IsActive
  place path (PlacementStrategy.node n) p k =
      pure_active (select_specific_node s n) (λ m. (m ≡ n) × (is_some (s.node_info m) ≡ true)) p k
        (specific_known n)
  place path (PlacementStrategy.redundant replicas) p k = replica-Good path replicas p k
  place path (PlacementStrategy.local_affinity fallback group) p k =
      affinity-IsActive group (MayTake fallback) (select_node s path fallback p) p k
        (place path fallback p k)

All-Kept : (p : Placement) (s : Selector) → KeepsGood s (Kept p) p
All-Kept p s path ns at = each ns (λ n h. (path, ns, at, h))
  where
    each : (ms : List ℕ) → ((n : ℕ) → Has n ms → Kept p n) → All (Good s (Kept p)) ms
    each [] h = tt
    each (m ∷ ms) h = (inr (h m (zero, refl)), each ms (λ n i. h n (suc i.0, i.1)))

-- A node that is given is active, or the known one that the strategy names, or, for a strategy with
-- replicas, one that was kept as a replica before, which may have left since; and the lists of
-- replicas that are kept afterwards name only nodes that are active or were kept before.
pub select_node_placed :
    (s : Selector) (path : String) (strategy : PlacementStrategy) (p : Placement)
    → Leaves s (Kept p) (MayTake s (Kept p) strategy) (select_node s path strategy p)
select_node_placed s path strategy p = place s (Kept p) path strategy p (All-Kept p s)
