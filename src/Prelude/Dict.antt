-- ===== src/Prelude/Dict.antt =====
-- `HashMap<String, V>` as an association list, with its reading and writing by key.
use mathlib.Core.Path.{◌≡◌, refl, ap}
use mathlib.Core.Logic.{ite}
use mathlib.Core.Option.{Option, none, some}
use mathlib.Core.List.{List, [], ◌∷◌}
use Prim.Native.String.{String}
use native.Mathlib.Omega.{arith}
use mathlib.Core.Logic.{◌≢◌, if_pos, if_neg}
use actix_pura.Prelude.Text.{String-discrete}
use actix_pura.Prelude.Lists.{All}
use mathlib.Core.Path.{subst}

module _ {ℓ} {V : Type ℓ} where
  -- `get`
  unfoldable pub lookup : String → List (String × V) → Option V
  lookup k [] = none
  lookup k ((j, v) ∷ d) = ite (String-discrete k j) (some v) (lookup k d)

  -- `insert`
  unfoldable pub insert : String → V → List (String × V) → List (String × V)
  insert k v [] = (k, v) ∷ []
  insert k v ((j, w) ∷ d) = ite (String-discrete k j) ((k, v) ∷ d) ((j, w) ∷ insert k v d)

  -- `remove`
  unfoldable pub remove : String → List (String × V) → List (String × V)
  remove k [] = []
  remove k ((j, w) ∷ d) = ite (String-discrete k j) (remove k d) ((j, w) ∷ remove k d)

  pub lookup-insert :
      (k j : String) (v : V) (d : List (String × V))
      → lookup j (insert k v d) ≡ ite (String-discrete k j) (some v) (lookup j d)
  unfolding lookup insert
  lookup-insert k j v [] = ground arith
  lookup-insert k j v ((i, w) ∷ d) = ground (arith, lookup-insert k j v d)

  pub lookup-insert_other :
      (k j : String) (v : V) (d : List (String × V)) → k ≢ j → lookup j (insert k v d) ≡ lookup j d
  lookup-insert_other k j v d h = rw (lookup-insert k j v d) (if_neg (String-discrete k j) h _ _)

  pub lookup-insert_self :
      (k : String) (v : V) (d : List (String × V)) → lookup k (insert k v d) ≡ some v
  lookup-insert_self k v d = rw (lookup-insert k k v d) (if_pos (String-discrete k k) refl _ _)

  pub lookup-remove :
      (k j : String) (d : List (String × V))
      → lookup j (remove k d) ≡ ite (String-discrete k j) none (lookup j d)
  unfolding lookup remove
  lookup-remove k j [] = ground arith
  lookup-remove k j ((i, w) ∷ d) = ground (arith, lookup-remove k j d)

  -- Removing a key that is not there, and a key that was just put there, changes nothing.
  pub remove_missing : (k : String) (d : List (String × V)) → lookup k d ≡ none → remove k d ≡ d
  unfolding lookup remove
  remove_missing k [] h = refl
  remove_missing k ((i, w) ∷ d) h = ground (arith, remove_missing k d)

  pub remove-insert :
      (k : String) (v : V) (d : List (String × V)) → lookup k d ≡ none → remove k (insert k v d) ≡ d
  unfolding lookup insert remove
  remove-insert k v [] h = ground arith
  remove-insert k v ((i, w) ∷ d) h = ground (arith, remove-insert k v d)

-- Predicates over all entries.
module _ {ℓ κ} {V : Type ℓ} (P : String × V → Type κ) where
  pub All_lookup :
      (k : String) (v : V) (d : List (String × V)) → All P d → lookup k d ≡ some v → P (k, v)
  unfolding lookup
  All_lookup k v [] a h = cc
  All_lookup k v ((j, w) ∷ d) a h = elim (String-discrete k j) [
    | yes same ↦ let e : w ≡ v = ground arith in let pair : (j, w) ≡ (k, v) = cc in subst P pair a.0
    | no other ↦ All_lookup k v d a.1 (ground arith)
  ]

  pub All-insert :
      (k : String) (v : V) (d : List (String × V)) → All P d → P (k, v) → All P (insert k v d)
  unfolding insert
  All-insert k v [] a p = (p, tt)
  All-insert k v ((j, w) ∷ d) a p = elim (String-discrete k j) [
    | yes same ↦ rw (if_pos _ same) (p, a.1)
    | no other ↦ rw (if_neg _ other) (a.0, All-insert k v d a.1 p)
  ]

  pub All-remove :
      (k : String) (d : List (String × V)) → All P d → All (λ e. P e × (k ≢ e.0)) (remove k d)
  unfolding remove
  All-remove k [] a = tt
  All-remove k ((j, w) ∷ d) a = elim (String-discrete k j) [
    | yes same ↦ rw (if_pos _ same) (All-remove k d a.1)
    | no other ↦ rw (if_neg _ other) ((a.0, other), All-remove k d a.1)
  ]

-- All values changed alike.
module _ {ℓ κ} {V : Type ℓ} {W : Type κ} (f : V → W) where
  abbrev pub map_values : List (String × V) → List (String × W)
  map_values [] = []
  map_values ((k, v) ∷ d) = (k, f v) ∷ map_values d

  abbrev pub map_option : Option V → Option W
  map_option none = none
  map_option (some v) = some (f v)

  pub map_values-insert :
      (k : String) (v : V) (d : List (String × V))
      → map_values (insert k v d) ≡ insert k (f v) (map_values d)
  unfolding insert
  map_values-insert k v [] = refl
  map_values-insert k v ((j, w) ∷ d) = elim (String-discrete k j) [
    | yes same ↦ rw (if_pos (String-discrete k j) same, if_pos (String-discrete k j) same)
    | no other ↦
        rw (if_neg (String-discrete k j) other, if_neg (String-discrete k j) other)
          (ap (λ (l : List (String × W)). (j, f w) ∷ l) (map_values-insert k v d))
  ]

  pub lookup-map_values :
      (k : String) (d : List (String × V)) → lookup k (map_values d) ≡ map_option (lookup k d)
  unfolding lookup
  lookup-map_values k [] = refl
  lookup-map_values k ((j, w) ∷ d) = elim (String-discrete k j) [
    | yes same ↦ rw (if_pos (String-discrete k j) same, if_pos (String-discrete k j) same)
    | no other ↦
        rw (if_neg (String-discrete k j) other, if_neg (String-discrete k j) other)
          (lookup-map_values k d)
  ]
