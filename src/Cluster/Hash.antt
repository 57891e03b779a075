-- ===== src/Cluster/Hash.antt =====
-- actix-cluster/src/placement.rs: `hash_string`, over the bytes of a text.
use Prim.Native.String.{String}
use Prim.Native.Char.{code}
use actix_pura.Prelude.{
  ℕ, ◌+◌, ◌-◌, ◌*◌, ◌/◌, ◌%◌, ◌<◌, Bool, true, false, List, [], ◌∷◌, ◌++◌, arith, if◌then◌else◌,
  ltb, ◌==◌, u64_mod, add64,
}

-- The UTF-8 bytes of a code point.
abbrev utf8 : ℕ → List ℕ
utf8 c =
    if ltb c 128
    then c ∷ []
    else if ltb c 2048
    then (192 + c / 64) ∷ (128 + c % 64) ∷ []
    else if ltb c 65536
    then (224 + c / 4096) ∷ (128 + c / 64 % 64) ∷ (128 + c % 64) ∷ []
    else (240 + c / 262144) ∷ (128 + c / 4096 % 64) ∷ (128 + c / 64 % 64) ∷ (128 + c % 64) ∷ []

-- `str::bytes`
unfoldable pub bytes : String → List ℕ
bytes String.[] = []
bytes (String.◌∷◌ c s) = utf8 (code c) ++ bytes s

-- `str::starts_with`, on the bytes.
unfoldable pub starts_with : List ℕ → List ℕ → Bool
starts_with s [] = true
starts_with [] (p ∷ ps) = false
starts_with (c ∷ s) (p ∷ ps) = if c == p then starts_with s ps else false

-- The loop of `hash_string`: `hash.wrapping_mul(31).wrapping_add(b)`.
unfoldable pub hash_from : ℕ → List ℕ → ℕ
hash_from h [] = h
hash_from h (b ∷ bs) = hash_from (add64 (h * 31 % u64_mod) b) bs

unfoldable pub hash_string : String → ℕ
unfolding hash_from bytes
hash_string s = hash_from 0 (bytes s)

-- The distance between two hashes.
unfoldable pub distance : ℕ → ℕ → ℕ
distance node_hash hash = if ltb hash node_hash then node_hash - hash else hash - node_hash

hash_from-lt : (h : ℕ) (bs : List ℕ) → h < u64_mod → hash_from h bs < u64_mod
unfolding hash_from
hash_from-lt h [] lt = lt
hash_from-lt h (b ∷ bs) lt = hash_from-lt (add64 (h * 31 % u64_mod) b) bs (omega arith)

pub hash_string-lt : (s : String) → hash_string s < u64_mod
unfolding hash_string
hash_string-lt s = hash_from-lt 0 (bytes s) (omega arith)
