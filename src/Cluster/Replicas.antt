-- ===== src/Cluster/Replicas.antt =====
-- actix-cluster/src/placement.rs: the replicas of an actor stand on different nodes.
use actix_pura.Prelude.{
  ℕ, zero, suc, ◌+◌, ◌-◌, ◌≤◌, ◌<◌, ◌≡◌, ◌⊎◌, refl, ap, String, Bool, true, false, some, List, [],
  ◌∷◌, if◌then◌else◌, ltb, length, nonempty, get_elem?, get_elem?_in, arith, inl, inr, Bool-cases,
  u64_mod, add64,
}
use actix_pura.Cluster.Hash.{distance, hash_string}
use actix_pura.Cluster.Placement.{
  Selector, ok, contains, unused_step, unused_loop, closest_unused, replicas_loop,
  select_redundant_nodes,
}

abbrev none_seen : ℕ
none_seen = u64_mod - 1

module _ (s : Selector) where
  -- The node's hash is not an end of the range, so that no distance is the greatest one.
  abbrev pub IsInner : List ℕ → Type 0
  IsInner [] = Unit
  IsInner (n ∷ ns) =
      (0 < hash_string (s.node_text n)) × (hash_string (s.node_text n) + 1 < u64_mod) × IsInner ns

  -- The number of unused positions among `count` from an index on.
  free : ℕ → ℕ → List ℕ → ℕ
  free index zero used = 0
  free index (suc count) used =
      (if contains s index used then 0 else 1) + free (suc index) count used

  free_all : (index count : ℕ) → free index count [] ≡ count
  unfolding free
  free_all index zero = refl
  free_all index (suc count) = omega (arith, free_all (suc index) count)

  free_outside :
      (x index count : ℕ) (used : List ℕ)
      → x < index
      → free index count (x ∷ used) ≡ free index count used
  unfolding free
  free_outside x index zero used h = refl
  free_outside x index (suc count) used h = ground (arith, free_outside x (suc index) count used)

  free_less :
      (x index count : ℕ) (used : List ℕ)
      → contains s x used ≡ false
      → index ≤ x
      → x < index + count
      → free index count (x ∷ used) + 1 ≡ free index count used
  unfolding free
  free_less x index zero used h le lt = absurd (omega arith)
  free_less x index (suc count) used h le lt =
      ground (arith, free_less x (suc index) count used, free_outside x (suc index) count used)

  -- What the loop over the nodes keeps: a node that was found is unused and in range, and without one
  -- the distance is still the greatest.
  Kept : ℕ → List ℕ → ℕ × ℕ × Bool → Type 0
  Kept size used (least, selected, true) = (contains s selected used ≡ false) × (selected < size)
  Kept size used (least, selected, false) = least ≡ none_seen

  distance-lt : (h k : ℕ) → 0 < h → h + 1 < u64_mod → k < u64_mod → distance h k < none_seen
  unfolding distance
  distance-lt h k lo hi lt = ground arith

  module _ (hash size : ℕ) (used : List ℕ) (below : hash < u64_mod) where
    step_keeps :
        (index n : ℕ) (best : ℕ × ℕ × Bool)
        → 0 < hash_string (s.node_text n)
        → hash_string (s.node_text n) + 1 < u64_mod
        → index < size
        → Kept size used best
        → Kept size used (unused_step s hash used index n best)
    unfolding unused_step Kept
    step_keeps index n (least, selected, true) lo hi lt k =
        elim (Bool-cases (contains s index used)) [
          | inl seen ↦ rw seen k
          | inr new ↦ elim (Bool-cases (ltb (distance (hash_string (s.node_text n)) hash) least)) [
            | inl nearer ↦ rw (new, nearer) (new, lt)
            | inr farther ↦ rw (new, farther) k
          ]
        ]
    step_keeps index n (least, selected, false) lo hi lt k =
        let near : distance (hash_string (s.node_text n)) hash < least =
          omega (arith, distance-lt (hash_string (s.node_text n)) hash lo hi below) in
        let nearer : ltb (distance (hash_string (s.node_text n)) hash) least ≡ true =
          ground arith in
        elim (Bool-cases (contains s index used)) [
          | inl seen ↦ rw seen k
          | inr new ↦ rw (new, nearer) (new, lt)
        ]

    unused_keeps :
        (index : ℕ) (ns : List ℕ) (best : ℕ × ℕ × Bool)
        → IsInner ns
        → index + length ns ≡ size
        → Kept size used best
        → Kept size used (unused_loop s hash used index ns best)
    unfolding unused_loop
    unused_keeps index [] best inner e k = k
    unused_keeps index (n ∷ ns) best inner e k =
        unused_keeps (suc index) ns (unused_step s hash used index n best) inner.2 (omega arith)
          (step_keeps index n best inner.0 inner.1 (omega arith) k)

    step_found :
        (index n : ℕ) (best : ℕ × ℕ × Bool)
        → (best.2 ≡ true) ⊎ (contains s index used ≡ false)
        → (unused_step s hash used index n best).2 ≡ true
    unfolding unused_step
    step_found index n (least, selected, found) h = elim (Bool-cases (contains s index used)) [
      | inl seen ↦ rw seen (elim h [ inl f ↦ f | inr new ↦ cc ])
      | inr new ↦ elim (Bool-cases (ltb (distance (hash_string (s.node_text n)) hash) least)) [
        | inl nearer ↦ rw (new, nearer)
        | inr farther ↦ rw (new, farther)
      ]
    ]

    unused_found :
        (index : ℕ) (ns : List ℕ) (best : ℕ × ℕ × Bool)
        → (best.2 ≡ true) ⊎ (0 < free index (length ns) used)
        → (unused_loop s hash used index ns best).2 ≡ true
    unfolding unused_loop free
    unused_found index [] best (inl f) = f
    unused_found index [] best (inr h) = elim h [ ]
    unused_found index (n ∷ ns) best (inl f) =
        unused_found (suc index) ns (unused_step s hash used index n best)
          (inl (step_found index n best (inl f)))
    unused_found index (n ∷ ns) best (inr h) = elim (Bool-cases (contains s index used)) [
      | inl seen ↦
          unused_found (suc index) ns (unused_step s hash used index n best) (inr (ground arith))
      | inr new ↦
          unused_found (suc index) ns (unused_step s hash used index n best)
            (inl (step_found index n best (inr new)))
    ]

  -- Positions in range, each different from those before it and from those in use.
  abbrev pub Fresh : ℕ → List ℕ → List ℕ → Type 0
  Fresh size used [] = Unit
  Fresh size used (x ∷ xs) = (contains s x used ≡ false) × (x < size) × Fresh size (x ∷ used) xs

  -- The nodes at these positions.
  abbrev pub Stand : List ℕ → List ℕ → Type 0
  Stand [] [] = Unit
  Stand (x ∷ xs) (n ∷ ns) = (get_elem? s.active_nodes x ≡ some n) × Stand xs ns
  Stand [] (n ∷ ns) = ⊥
  Stand (x ∷ xs) [] = ⊥

  Kept-found :
      (size : ℕ) (used : List ℕ) (best : ℕ × ℕ × Bool)
      → best.2 ≡ true
      → Kept size used best
      → (contains s best.1 used ≡ false) × (best.1 < size)
  unfolding Kept
  Kept-found size used (least, selected, true) f k = k
  Kept-found size used (least, selected, false) f k = cc

  -- The search for a replica finds an unused node, and the rest follows.
  replicas_step :
      (base replicas left i n : ℕ) (used ns : List ℕ)
      → (closest_unused s base i used).2 ≡ true
      → get_elem? s.active_nodes (closest_unused s base i used).1 ≡ some n
      → replicas_loop s base replicas left (suc i) ((closest_unused s base i used).1 ∷ used) ≡ ok ns
      → replicas_loop s base replicas (suc left) i used ≡ ok (n ∷ ns)
  unfolding replicas_loop
  replicas_step base replicas left i n used ns found at rest = ground arith

  replicas_found :
      (base replicas left i : ℕ) (used : List ℕ)
      → IsInner s.active_nodes
      → left ≤ free 0 (length s.active_nodes) used
      → (xs ns : List ℕ) × (replicas_loop s base replicas left i used ≡ ok ns)
        × (length ns ≡ left)
        × Fresh (length s.active_nodes) used xs
        × Stand xs ns
  unfolding replicas_loop
  replicas_found base replicas zero i used inner h = ([], [], refl, refl, tt, tt)
  replicas_found base replicas (suc left) i used inner h =
      let size = length s.active_nodes in
      let best = closest_unused s base i used in
      let found : best.2 ≡ true =
        unfold closest_unused in
        unused_found (add64 base i) size used (omega arith) 0 s.active_nodes (none_seen, 0, false)
          (inr (omega arith)) in
      let kept : Kept size used best =
        unfold closest_unused Kept in
        unused_keeps (add64 base i) size used (omega arith) 0 s.active_nodes (none_seen, 0, false)
          inner (omega arith) refl in
      let (new, lt) = Kept-found size used best found kept in
      let (n, at) = get_elem?_in s.active_nodes best.1 lt in
      let (xs, ns, rest, len, fresh, stand) =
        replicas_found base replicas left (suc i) (best.1 ∷ used) inner
          (omega (arith, free_less best.1 0 size used new (omega arith) (omega arith))) in
      (
        best.1 ∷ xs,
        n ∷ ns,
        replicas_step base replicas left i n used ns found at rest,
        ap suc len,
        (new, lt, fresh),
        (at, stand),
      )

  -- When there are as many active nodes as replicas are asked for, and no node's hash is at an end
  -- of the range, the choice gives that many nodes, which stand at different places among the
  -- active ones.
  pub select_redundant_nodes_lem :
      (path : String) (replicas : ℕ)
      → IsInner s.active_nodes
      → 0 < length s.active_nodes
      → replicas ≤ length s.active_nodes
      → (xs ns : List ℕ) × (select_redundant_nodes s path replicas ≡ ok ns)
        × (length ns ≡ replicas)
        × Fresh (length s.active_nodes) [] xs
        × Stand xs ns
  unfolding select_redundant_nodes
  select_redundant_nodes_lem path replicas inner some_node h =
      let (xs, ns, e, len, fresh, stand) =
        replicas_found (hash_string path) replicas replicas 0 [] inner
          (omega (arith, free_all 0 (length s.active_nodes))) in
      (xs, ns, ground (arith, nonempty s.active_nodes), len, fresh, stand)
