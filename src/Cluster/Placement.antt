-- ===== src/Cluster/Placement.antt =====
-- actix-cluster/src/placement.rs: the choice of a node for an actor. A node's identifier is the number
-- that its UUID is, the local node's being nil; the selector of nodes and the random number are given,
-- and do not change during a call.
use actix_pura.Prelude.{
  ℕ, zero, suc, ◌-◌, ◌%◌, ◌≡◌, refl, String, Bool, true, false, Option, none, some, List, [], ◌∷◌,
  ◌++◌, if◌then◌else◌, ltb, ◌==◌, is_some, length, is_empty, any, get_elem?, add64, u64_mod,
}
use actix_pura.Prelude.Dict.{lookup, insert}
use actix_pura.Cluster.Hash.{bytes, starts_with, hash_string, distance}

-- `PlacementStrategy`
pub data PlacementStrategy : Type 0 where
  random : PlacementStrategy
  node : ℕ → PlacementStrategy
  round_robin : PlacementStrategy
  least_loaded : PlacementStrategy
  redundant : ℕ → PlacementStrategy
  local_affinity : PlacementStrategy → Option String → PlacementStrategy

-- `ClusterError`, as far as placement gives it; an invalid operation has the numbers of its message.
pub data ClusterError : Type 0 where
  no_nodes_available : ClusterError
  node_not_found : ℕ → ClusterError
  too_few_nodes : ℕ → ℕ → ClusterError
  not_enough_unique : ℕ → ClusterError

-- `ClusterResult`, and a panic of an index out of range.
pub data Outcome {ℓ} (A : Type ℓ) : Type ℓ where
  ok : A → Outcome A
  err : ClusterError → Outcome A
  panic : Outcome A

infixl 5 ◌>>=◌
abbrev pub ◌>>=◌ {ℓ κ} : {A : Type ℓ} {B : Type κ} → Outcome A → (A → Outcome B) → Outcome B
ok a >>= f = f a
err e >>= f = err e
panic >>= f = panic

-- A chain that gives a value got one from its first step.
pub >>=-ok {ℓ κ} :
    {A : Type ℓ} {B : Type κ} (next : A → Outcome B) (first : Outcome A) {b : B}
    → (first >>= next) ≡ ok b
    → (a : A) × (next a ≡ ok b) × (first ≡ ok a)
>>=-ok next panic e = cc
>>=-ok next (err _) e = cc
>>=-ok next (ok a) e = (a, e, refl)

-- The fields of `NodeInfo` that placement reads.
pub record Facts : Type 0 where
  pub name : String
  pub capabilities : List String
  pub load : ℕ

-- `NodeSelector`, the text of an identifier, and the number that `gen_range` draws below a bound.
pub record Selector : Type 0 where
  pub active_nodes : List ℕ
  pub node_info : ℕ → Option Facts
  pub node_text : ℕ → String
  pub gen_range : ℕ → ℕ

-- `PlacementStrategyImpl`, less the selector.
pub record Placement : Type 0 where
  pub round_robin_index : ℕ
  pub consistent_hash_nodes : List (ℕ × ℕ)
  pub redundant_nodes : List (String × List ℕ)

-- `PlacementStrategyImpl::new`
abbrev pub new_placement : Placement
new_placement = record { round_robin_index = 0; consistent_hash_nodes = []; redundant_nodes = [] }

-- `nodes[index]`
abbrev pub index_at : List ℕ → ℕ → Outcome ℕ
index_at nodes i = elim (get_elem? nodes i) [ none ↦ panic | some n ↦ ok n ]

-- `NodeId::local`
abbrev pub local : ℕ
local = 0

module _ (s : Selector) where
  unfoldable pub select_specific_node : ℕ → Outcome ℕ
  select_specific_node n = if is_some (s.node_info n) then ok n else err (node_not_found n)

  unfoldable pub select_random_node : Outcome ℕ
  select_random_node =
      if is_empty s.active_nodes
      then err no_nodes_available
      else index_at s.active_nodes (s.gen_range (length s.active_nodes))

  unfoldable pub select_round_robin_node : Placement → Outcome ℕ × Placement
  select_round_robin_node p = if is_empty s.active_nodes then (err no_nodes_available, p) else (
    index_at s.active_nodes (p.round_robin_index % length s.active_nodes),
    record p { round_robin_index = add64 p.round_robin_index 1 % length s.active_nodes },
  )

  -- The loop over the nodes, with the best node so far and its load.
  unfoldable pub least_loop : List ℕ → ℕ → ℕ → ℕ
  least_loop [] best least = best
  least_loop (n ∷ ns) best least = elim (s.node_info n) [
    | none ↦ least_loop ns best least
    | some i ↦
        let lighter = least_loop ns n i.load in
        let same = least_loop ns best least in if ltb i.load least then lighter else same
  ]

  unfoldable pub select_least_loaded_node : Outcome ℕ
  unfolding least_loop
  select_least_loaded_node = elim (s.active_nodes) [
    | [] ↦ err no_nodes_available
    | n ∷ ns ↦ ok (least_loop (n ∷ ns) n 255)
  ]

  -- The loop over the nodes, with the closest node so far and its distance.
  unfoldable pub closest_loop : ℕ → List ℕ → ℕ → ℕ → ℕ
  closest_loop hash [] closest least = closest
  closest_loop hash (n ∷ ns) closest least =
      let d = distance (hash_string (s.node_text n)) hash in
      let nearer = closest_loop hash ns n d in
      let same = closest_loop hash ns closest least in if ltb d least then nearer else same

  unfoldable pub select_consistent_hash_node : String → Outcome ℕ
  unfolding closest_loop
  select_consistent_hash_node path = elim (s.active_nodes) [
    | [] ↦ err no_nodes_available
    | n ∷ ns ↦ ok (closest_loop (hash_string path) (n ∷ ns) n (u64_mod - 1))
  ]

  -- The first of the nodes whose information passes a test.
  unfoldable pub first_such : (Facts → Bool) → List ℕ → Option ℕ
  first_such test [] = none
  first_such test (n ∷ ns) = elim (s.node_info n) [
    | none ↦ first_such test ns
    | some i ↦ if test i then some n else first_such test ns
  ]

  unfoldable pub select_locality_node : String → Outcome ℕ
  unfolding first_such
  select_locality_node path =
      if is_empty s.active_nodes
      then err no_nodes_available
      else elim (first_such (λ i. starts_with (bytes path) (bytes i.name)) s.active_nodes) [
        | some n ↦ ok n
        | none ↦ select_consistent_hash_node path
      ]

  -- `used_indices.contains`
  abbrev pub contains : ℕ → List ℕ → Bool
  contains x used = any (λ y. x == y) used

  -- One round of the loop over the nodes: the least distance, its position and whether any node was
  -- unused, with the node at a position looked at.
  unfoldable pub unused_step : ℕ → List ℕ → ℕ → ℕ → ℕ × ℕ × Bool → ℕ × ℕ × Bool
  unused_step hash used index n (least, selected, found) =
      let d = distance (hash_string (s.node_text n)) hash in
      if contains index used
      then (least, selected, found)
      else if ltb d least
      then (d, index, true)
      else (least, selected, true)

  unfoldable pub unused_loop : ℕ → List ℕ → ℕ → List ℕ → ℕ × ℕ × Bool → ℕ × ℕ × Bool
  unfolding unused_step
  unused_loop hash used index [] best = best
  unused_loop hash used index (n ∷ ns) best =
      unused_loop hash used (suc index) ns (unused_step hash used index n best)

  -- The search for replica i.
  unfoldable pub closest_unused : ℕ → ℕ → List ℕ → ℕ × ℕ × Bool
  unfolding unused_loop
  closest_unused base i used =
      unused_loop (add64 base i) used 0 s.active_nodes (u64_mod - 1, 0, false)

  -- The loop over the replicas: those left, those chosen, and the positions in use.
  unfoldable pub replicas_loop : ℕ → ℕ → ℕ → ℕ → List ℕ → Outcome (List ℕ)
  replicas_loop base replicas zero i used = ok []
  replicas_loop base replicas (suc left) i used =
      let best = closest_unused base i used in
      if best.2
      then (index_at s.active_nodes best.1 >>= λ n.
          replicas_loop base replicas left (suc i) (best.1 ∷ used) >>= λ ns. ok (n ∷ ns))
      else err (not_enough_unique replicas)

  unfoldable pub select_redundant_nodes : String → ℕ → Outcome (List ℕ)
  unfolding replicas_loop
  select_redundant_nodes path replicas =
      if is_empty s.active_nodes
      then err no_nodes_available
      else if ltb (length s.active_nodes) replicas
      then err (too_few_nodes replicas (length s.active_nodes))
      else replicas_loop (hash_string path) replicas replicas 0 []

  -- A new list of replicas is kept under its path.
  unfoldable pub keep_replicas :
      String → Placement → Outcome (List ℕ) → Outcome (List ℕ) × Placement
  keep_replicas path p (ok ns) =
      (ok ns, record p { redundant_nodes = insert path ns p.redundant_nodes })
  keep_replicas path p (err e) = (err e, p)
  keep_replicas path p panic = (panic, p)

  -- The list of replicas of a path: the one kept from before, or a new one.
  unfoldable pub replicas_of : String → ℕ → Placement → Outcome (List ℕ) × Placement
  unfolding keep_replicas
  replicas_of path replicas p = elim (lookup path p.redundant_nodes) [
    | some ns ↦ (ok ns, p)
    | none ↦ keep_replicas path p (select_redundant_nodes path replicas)
  ]

  -- The case `Redundant` of `select_node`; `nodes[0]` panics on an empty list.
  unfoldable pub select_replica : String → ℕ → Placement → Outcome ℕ × Placement
  unfolding replicas_of
  select_replica path replicas p =
      if is_empty s.active_nodes
      then (err no_nodes_available, p)
      else if ltb (length s.active_nodes) replicas
      then (err (too_few_nodes replicas (length s.active_nodes)), p)
      else (let r = replicas_of path replicas p in ((r.0 >>= λ ns. index_at ns 0), r.1))

  -- Where an actor of the group is, by the prefix of its path.
  abbrev pub in_group : String → Facts → Bool
  in_group group i =
      any (λ c. starts_with (bytes c) (bytes "/user/" ++ (bytes group ++ bytes "/"))) i.capabilities

  unfoldable pub group_node : Option String → Option ℕ
  unfolding first_such
  group_node none = none
  group_node (some group) = first_such (in_group group) s.active_nodes

  -- The fallback is the call of `select_node` that comes last.
  unfoldable pub select_with_local_affinity :
      Option String → Outcome ℕ × Placement → Placement → Outcome ℕ × Placement
  unfolding group_node
  select_with_local_affinity group fallback p =
      if is_empty s.active_nodes
      then (err no_nodes_available, p)
      else if contains local s.active_nodes
      then (ok local, p)
      else elim (group_node group) [ some n ↦ (ok n, p) | none ↦ fallback ]

  unfoldable pub select_node : String → PlacementStrategy → Placement → Outcome ℕ × Placement
  unfolding select_specific_node select_random_node select_round_robin_node select_least_loaded_node
      select_replica select_with_local_affinity
  select_node path random p = (select_random_node, p)
  select_node path round_robin p = select_round_robin_node p
  select_node path least_loaded p = (select_least_loaded_node, p)
  select_node path (node n) p = (select_specific_node n, p)
  select_node path (redundant replicas) p = select_replica path replicas p
  select_node path (local_affinity fallback group) p =
      select_with_local_affinity group (select_node path fallback p) p
