-- ===== src/Cluster/Examples.antt =====
-- actix-cluster/src: the theorems at concrete clocks, nodes and registries, and runs.
use actix_pura.Prelude.{
  ℕ, ◌%◌, ◌<◌, ◌≡◌, refl, String, Option, some, List, [], ◌∷◌, arith, true, false, length,
  String-discrete,
}
use actix_pura.Prelude.Dict.{lookup as get}
use actix_pura.Cluster.Clock.{VectorClock, compare}
use actix_pura.Cluster.Pointwise.{IsMap, Verdict, compare-Verdict}
use actix_pura.Cluster.Joining.{Clock, ⟦◌⟧, ◌⊔◌, join, merge_semilattice}
use actix_pura.Cluster.Placement.{
  Placement, PlacementStrategy, Selector, Facts, new_placement, ok, panic, select_node,
  select_redundant_nodes,
}
use actix_pura.Cluster.Choosing.{turn, round_robin_turns}
use actix_pura.Cluster.Placing.{Kept, Leaves, MayTake, select_node_placed}
use actix_pura.Cluster.Registry.{
  ActorRegistry, ActorPath, local_ref, new_registry, lookup, set_max_cache_size,
}
use actix_pura.Cluster.Coherence.{Call}

-- Two replicas that have each written once since they last met.
abbrev mine : VectorClock
mine = ("a", 2) ∷ ("b", 1) ∷ []

abbrev theirs : VectorClock
theirs = ("a", 1) ∷ ("b", 2) ∷ []

mine-IsMap : IsMap mine
unfolding get String-discrete
mine-IsMap = (refl, (refl, tt))

theirs-IsMap : IsMap theirs
unfolding get String-discrete
theirs-IsMap = (refl, (refl, tt))

compare-Verdict_example : Verdict (compare mine theirs) mine theirs
compare-Verdict_example = compare-Verdict mine theirs mine-IsMap theirs-IsMap

abbrev x : Clock
x = (mine, mine-IsMap)

abbrev y : Clock
y = (theirs, theirs-IsMap)

merge_semilattice_example :
    (⟦ join x y ⟧ ≡ ⟦ x ⟧ ⊔ ⟦ y ⟧)
    × (⟦ x ⟧ ⊔ ⟦ y ⟧ ≡ ⟦ y ⟧ ⊔ ⟦ x ⟧)
    × (⟦ x ⟧ ⊔ ⟦ y ⟧ ⊔ ⟦ x ⟧ ≡ ⟦ x ⟧ ⊔ (⟦ y ⟧ ⊔ ⟦ x ⟧))
    × (⟦ x ⟧ ⊔ ⟦ x ⟧ ≡ ⟦ x ⟧)
merge_semilattice_example = merge_semilattice x y ⟦ x ⟧ ⟦ y ⟧ ⟦ x ⟧

abbrev self : VectorClock → VectorClock
self c = c

-- Three nodes, of which two are loaded.
abbrev facts : ℕ → Facts
facts n = record { name = "node"; capabilities = []; load = n }

abbrev info : ℕ → Option Facts
info n = some (facts (90 % n))

abbrev text : ℕ → String
text n = "node"

abbrev selector : Selector
selector = record {
  active_nodes = 7 ∷ 4 ∷ 9 ∷ [];
  node_info = info;
  node_text = text;
  gen_range = λ n. 0;
}

round_robin_turns_example :
    (k : ℕ) × (k < length selector.active_nodes) × (turn selector k new_placement ≡ ok 9)
round_robin_turns_example =
    round_robin_turns selector 2 9 new_placement (omega arith) (omega arith) refl (omega arith)

-- The list that is kept has a node that is no longer active.
abbrev held : Placement
held = record new_placement { redundant_nodes = ("/user/a", 9 ∷ 1 ∷ []) ∷ [] }

select_node_placed_example :
    Leaves selector
      (Kept held)
      (MayTake selector (Kept held) (PlacementStrategy.redundant 2))
      (select_node selector "/user/a" (PlacementStrategy.redundant 2) held)
select_node_placed_example =
    select_node_placed selector "/user/a" (PlacementStrategy.redundant 2) held

-- No replicas are asked for, and the index of the first one panics.
redundant_zero :
    (select_node selector "/user/a" (PlacementStrategy.redundant 0) new_placement).0 ≡ panic
unfolding select_node select_redundant_nodes get
redundant_zero = refl

abbrev started : ActorRegistry
started = record (new_registry 1 60) { transport = some true }

abbrev worker : ActorPath
worker = record { node_id = 2; path = "worker" }

-- The remote worker is looked up and cached, and then a local one takes its path.
abbrev history : List Call
history =
    Call.add_remote worker 2
    ∷ Call.look false "worker" 5
    ∷ Call.add_local "worker" 8
    ∷ Call.look true "worker" 9
    ∷ []

abbrev full : ActorRegistry
full = record (new_registry 1 60) {
  lookup_cache =
      ("new", (local_ref 1, 9)) ∷ ("old", (local_ref 2, 3)) ∷ ("older", (local_ref 3, 1)) ∷ [];
}

-- A limit of one keeps the reference of the oldest lookup, and drops the newest.
keeps_oldest : (set_max_cache_size 1 full).lookup_cache ≡ ("older", (local_ref 3, 1)) ∷ []
unfolding set_max_cache_size
keeps_oldest = refl
