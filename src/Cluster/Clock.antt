-- ===== src/Cluster/Clock.antt =====
-- actix-cluster/src/sync/mod.rs: vector clocks, and the resolvers of conflicting versions. A node's
-- identifier is a text, a time a count of the smallest unit.
use actix_pura.Prelude.{
  ℕ, ◌+◌, String, Bool, true, false, ◌||◌, ◌&&◌, List, [], ◌∷◌, if◌then◌else◌, ltb, leb, is_some,
  not, unwrap_or, add64,
}
use actix_pura.Prelude.Dict.{lookup, insert}

-- `VectorClockRelation`
pub data ClockRelation : Type 0 where
  greater less concurrent equal : ClockRelation

-- `VectorClock`, its counters by node.
abbrev pub VectorClock : Type 0
VectorClock = List (String × ℕ)

-- `std::cmp::max`
abbrev pub max : ℕ → ℕ → ℕ
max a b = if leb b a then a else b

-- `VectorClock::new`
abbrev pub new_clock : VectorClock
new_clock = []

unfoldable pub get : String → VectorClock → ℕ
get n c = unwrap_or 0 (lookup n c)

unfoldable pub increment : String → VectorClock → VectorClock
increment n c = insert n (add64 (unwrap_or 0 (lookup n c)) 1) c

unfoldable pub set : String → ℕ → VectorClock → VectorClock
set n v c = insert n v c

-- `merge`: the loop over the counters of the other clock.
unfoldable pub merge : VectorClock → VectorClock → VectorClock
merge c [] = c
merge c ((n, v) ∷ o) = merge (insert n (max (unwrap_or 0 (lookup n c)) v) c) o

-- The flags of `compare`: some counter is above, or below, that of the other clock, and some counter
-- of the other clock is missing here.
unfoldable pub some_above : VectorClock → VectorClock → Bool
some_above [] o = false
some_above ((n, v) ∷ c) o = ltb (get n o) v || some_above c o

unfoldable pub some_below : VectorClock → VectorClock → Bool
some_below [] o = false
some_below ((n, v) ∷ c) o = ltb v (get n o) || some_below c o

unfoldable pub some_missing : VectorClock → VectorClock → Bool
some_missing c [] = false
some_missing c ((n, v) ∷ o) = (not (is_some (lookup n c)) && ltb 0 v) || some_missing c o

abbrev pub relation : Bool → Bool → ClockRelation
relation false false = equal
relation true false = greater
relation false true = less
relation true true = concurrent

unfoldable pub compare : VectorClock → VectorClock → ClockRelation
compare c o = relation (some_above c o) (some_below c o || some_missing c o)

-- `LastWriteWinsResolver::resolve`: `duration_since` fails where the remote time is the earlier one.
unfoldable pub resolve_last_write {ℓ} : {T : Type ℓ} → (T → ℕ) → ℕ → T → T → T
resolve_last_write timestamp tolerance local remote =
    if leb (timestamp local) (timestamp remote)
      && ltb (timestamp local + tolerance) (timestamp remote)
    then remote
    else local

-- `VectorClockResolver::resolve`
abbrev pub chosen {ℓ} : {T : Type ℓ} → ClockRelation → T → T → T
chosen ClockRelation.less local remote = remote
chosen _ local remote = local

unfoldable pub resolve_clock {ℓ} : {T : Type ℓ} → (T → VectorClock) → T → T → T
resolve_clock clock local remote = chosen (compare (clock local) (clock remote)) local remote
