-- ===== src/Cluster/Choosing.antt =====
-- actix-cluster/src/placement.rs: the turns of round robin, and the node with the least load.
use actix_pura.Prelude.{
  ℕ, zero, suc, ◌+◌, ◌-◌, ◌%◌, ◌≤◌, ◌<◌, ◌≡◌, ◌⊎◌, refl, sym, ap, ◌∙◌, true, false, none, some,
  List, [], ◌∷◌, if◌then◌else◌, ltb, leb, length, nonempty, get_elem?, Has, arith, inl, inr,
  Option-cases, Bool-cases, u64_mod, add64,
}
use mathlib.Core.Path.{subst}
use native.Mathlib.Nat.{mod-eq_of_lt, mod-add-mod, mod-lt, mod-eq-sub-mod}
use actix_pura.Cluster.Placement.{
  Selector, Facts, Placement, Outcome, ok, index_at, select_round_robin_node, least_loop,
  select_least_loaded_node,
}

-- What the k-th of a row of calls of round robin gives.
unfoldable pub turn : Selector → ℕ → Placement → Outcome ℕ
turn s zero p = (select_round_robin_node s p).0
turn s (suc k) p = turn s k (select_round_robin_node s p).1

-- The places up to position j from the one whose turn it is.
unfoldable pub wait : ℕ → ℕ → ℕ → ℕ
wait n r j = if leb (r % n) j then j - r % n else n + j - r % n

wait_lem : (n r j : ℕ) → j < n → (r + wait n r j) % n ≡ j
unfolding wait
wait_lem n r j h = elim (Bool-cases (leb (r % n) j)) [
  | inl before ↦
      rw before
        (sym (mod-add-mod r n (j - r % n)) ∙ ap (λ (x : ℕ). x % n) (ground arith) ∙ mod-eq_of_lt h)
  | inr past ↦
      let lt : r % n < n = mod-lt r (omega arith) in
      let e : r % n + (n + j - r % n) ≡ n + j = omega arith in
      let sub : n + j - n ≡ j = omega arith in
      rw past (
        sym (mod-add-mod r n (n + j - r % n))
        ∙ rw e (mod-eq-sub-mod (omega arith) ∙ rw sub (mod-eq_of_lt h)))
]

wait-lt : (n r j : ℕ) → j < n → wait n r j < n
unfolding wait
wait-lt n r j h = ground (arith, mod-lt r {m = n} (omega arith))

module _ (s : Selector) where
  index_at_in : (ns : List ℕ) (i n : ℕ) → get_elem? ns i ≡ some n → index_at ns i ≡ ok n
  index_at_in ns i n h = ground arith

  round_robin_step :
      (p : Placement)
      → 0 < length s.active_nodes
      → select_round_robin_node s p ≡ (
        index_at s.active_nodes (p.round_robin_index % length s.active_nodes),
        record p { round_robin_index = add64 p.round_robin_index 1 % length s.active_nodes },
      )
  unfolding select_round_robin_node
  round_robin_step p h = rw (nonempty s.active_nodes h)

  -- The k-th call gives the node k places on, round the list.
  turn_at :
      (k n : ℕ) (p : Placement)
      → length s.active_nodes < u64_mod
      → 0 < length s.active_nodes
      → p.round_robin_index + 1 < u64_mod
      → get_elem? s.active_nodes ((p.round_robin_index + k) % length s.active_nodes) ≡ some n
      → turn s k p ≡ ok n
  unfolding turn
  turn_at zero n p small some_node room at =
      let e : p.round_robin_index + 0 ≡ p.round_robin_index = omega arith in
      ap (λ x. x.0) (round_robin_step p some_node) ∙ index_at_in s.active_nodes _ n (rw (← e) at)
  turn_at (suc k) n p small some_node room at =
      let m = length s.active_nodes in
      let i = p.round_robin_index in
      let e : add64 i 1 ≡ i + 1 = mod-eq_of_lt room in
      let r : (add64 i 1 % m + k) % m ≡ (i + suc k) % m =
        rw e (mod-add-mod (i + 1) m k ∙ ap (λ (x : ℕ). x % m) (omega arith)) in
      let lt : add64 i 1 % m < m = mod-lt (add64 i 1) some_node in
      ap (λ x. turn s k x.1) (round_robin_step p some_node)
      ∙ (turn_at k n (record p { round_robin_index = add64 i 1 % m }) small some_node (omega arith)
          (rw r at))

  -- Every active node has its turn: as long as the active nodes stay the same, the node at any
  -- position among the n of them is given by one of the next n calls, counts being below 2^64.
  pub round_robin_turns :
      (j n : ℕ) (p : Placement)
      → length s.active_nodes < u64_mod
      → p.round_robin_index + 1 < u64_mod
      → get_elem? s.active_nodes j ≡ some n
      → j < length s.active_nodes
      → (k : ℕ) × (k < length s.active_nodes) × (turn s k p ≡ ok n)
  round_robin_turns j n p small room at h = (
    wait (length s.active_nodes) p.round_robin_index j,
    wait-lt (length s.active_nodes) p.round_robin_index j h,
    turn_at _ n p small (omega arith) room
        (rw (wait_lem (length s.active_nodes) p.round_robin_index j h) at),
  )

  -- A node whose load is known and at most a given one.
  abbrev pub AtMost : ℕ → ℕ → Type 0
  AtMost n load = (i : Facts) × (s.node_info n ≡ some i) × (i.load ≤ load)

  Has-later : (m n : ℕ) (ns : List ℕ) → Has m ns → Has m (n ∷ ns)
  Has-later m n ns (i, h) = (suc i, h)

  least_skip :
      (n best least : ℕ) (ns : List ℕ)
      → s.node_info n ≡ none
      → least_loop s (n ∷ ns) best least ≡ least_loop s ns best least
  unfolding least_loop
  least_skip n best least ns h = ground arith

  least_take :
      (n best least : ℕ) (ns : List ℕ) (i : Facts)
      → s.node_info n ≡ some i
      → ltb i.load least ≡ true
      → least_loop s (n ∷ ns) best least ≡ least_loop s ns n i.load
  unfolding least_loop
  least_take n best least ns i h t = ground arith

  least_keep :
      (n best least : ℕ) (ns : List ℕ) (i : Facts)
      → s.node_info n ≡ some i
      → ltb i.load least ≡ false
      → least_loop s (n ∷ ns) best least ≡ least_loop s ns best least
  unfolding least_loop
  least_keep n best least ns i h t = ground arith

  -- The loop ends with the node it began with, or with a lighter one that it met.
  LeastOf : List ℕ → ℕ → ℕ → ℕ → Type 0
  LeastOf ns best least r =
      (r ≡ best) ⊎ (Has r ns × ((i : Facts) × (s.node_info r ≡ some i) × (i.load < least)))

  least_later :
      (n : ℕ) (ns : List ℕ) (best least r : ℕ)
      → LeastOf ns best least r
      → LeastOf (n ∷ ns) best least r
  unfolding LeastOf
  least_later n ns best least r (inl same) = inl same
  least_later n ns best least r (inr (h, l)) = inr (Has-later _ n ns h, l)

  least_from : (ns : List ℕ) (best least : ℕ) → LeastOf ns best least (least_loop s ns best least)
  unfolding least_loop LeastOf
  least_from [] best least = inl refl
  least_from (n ∷ ns) best least = elim (Option-cases (s.node_info n)) [
    | inl unknown ↦
        rw (least_skip n best least ns unknown)
          (least_later n ns best least _ (least_from ns best least))
    | inr (i, known) ↦ elim (Bool-cases (ltb i.load least)) [
      | inl lighter ↦
          rw (least_take n best least ns i known lighter) (elim (least_from ns n i.load) [
            | inl same ↦ inr ((zero, ap some (sym same)), (i, rw same known, ground arith))
            | inr (h, (j, e, lt)) ↦ inr (Has-later _ n ns h, (j, e, ground arith))
          ])
      | inr heavier ↦
          rw (least_keep n best least ns i known heavier)
            (least_later n ns best least _ (least_from ns best least))
    ]
  ]

  least_below :
      (ns : List ℕ) (best least m k : ℕ) (i : Facts)
      → get_elem? ns k ≡ some m
      → s.node_info m ≡ some i
      → i.load < least
      → AtMost (least_loop s ns best least) i.load
  unfolding LeastOf
  least_below [] best least m k i at e lt = cc
  least_below (n ∷ ns) best least m zero i at e lt =
      let known : s.node_info n ≡ some i = cc in
      rw (least_take n best least ns i known (ground arith)) (elim (least_from ns n i.load) [
        | inl same ↦ (i, rw same known, omega arith)
        | inr (h, (j, e', lt')) ↦ (j, e', omega arith)
      ])
  least_below (n ∷ ns) best least m (suc k) i at e lt = elim (Option-cases (s.node_info n)) [
    | inl unknown ↦
        rw (least_skip n best least ns unknown) (least_below ns best least m k i at e lt)
    | inr (j, known) ↦ elim (Bool-cases (ltb j.load least)) [
      | inr heavier ↦
          rw (least_keep n best least ns j known heavier) (least_below ns best least m k i at e lt)
      | inl lighter ↦
          rw (least_take n best least ns j known lighter) (elim (Bool-cases (ltb i.load j.load)) [
            | inl below ↦ least_below ns n j.load m k i at e (ground arith)
            | inr above ↦ elim (least_from ns n j.load) [
              | inl same ↦ (j, rw same known, ground arith)
              | inr (h, (x, e', lt')) ↦ (x, e', ground arith)
            ]
          ])
    ]
  ]

  pub least_of_all :
      (n : ℕ) (ns : List ℕ)
      → s.active_nodes ≡ n ∷ ns
      → Has (least_loop s (n ∷ ns) n 255) s.active_nodes
  unfolding LeastOf
  least_of_all n ns e = elim (least_from (n ∷ ns) n 255) [
    | inl same ↦
        subst (λ xs. Has (least_loop s (n ∷ ns) n 255) xs) (sym e) (zero, ap some (sym same))
    | inr (h, l) ↦ subst (λ xs. Has (least_loop s (n ∷ ns) n 255) xs) (sym e) h
  ]

  pub least_node :
      (n : ℕ) (ns : List ℕ)
      → s.active_nodes ≡ n ∷ ns
      → select_least_loaded_node s ≡ ok (least_loop s (n ∷ ns) n 255)
  unfolding select_least_loaded_node
  least_node n ns e = rw e

  -- The least loaded node is an active one, given whenever there is one, and its load is known and
  -- at most that of any active node below the load of 255.
  pub select_least_loaded_node_lem :
      (n : ℕ) × (ns : List ℕ) × (s.active_nodes ≡ n ∷ ns)
      → (r : ℕ) × (select_least_loaded_node s ≡ ok r)
        × Has r s.active_nodes
        × ((m : ℕ) (i : Facts)
            → Has m s.active_nodes
            → s.node_info m ≡ some i
            → i.load < 255
            → AtMost r i.load)
  select_least_loaded_node_lem (n, ns, e) = (
    least_loop s (n ∷ ns) n 255,
    least_node n ns e,
    least_of_all n ns e,
    (λ m i (k, at) known lt. least_below (n ∷ ns) n 255 m k i (rw (← e) at) known lt),
  )
