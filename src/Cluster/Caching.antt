-- ===== src/Cluster/Caching.antt =====
-- actix-cluster/src/registry.rs: a lookup through the cache finds what the registry has.
use actix_pura.Prelude.{
  ℕ, ◌-◌, ◌≡◌, ◌⊎◌, inl, inr, refl, sym, ap, ◌∙◌, String, Bool, true, false, ◌&&◌, Option, none,
  some, if◌then◌else◌, if_both, ltb, leb, length, add64, All, All-filter, All-mono, arith,
  Option-cases, Bool-cases,
}
use actix_pura.Prelude.Dict.{lookup as get, remove, All_lookup, All-insert, All-remove}
use mathlib.Core.Path.{subst}
use actix_pura.Cluster.Registry.{
  ActorRef, local_ref, remote_ref, Cache, ActorRegistry, remote_at, remote_by_path, clean_cache,
  oldest, evict, remember, remote_found, lookup_by_path, lookup_registered, cached, lookup_cached,
  lookup,
}

-- The reference to a remote actor, if the transport is there and started.
abbrev pub reference : String → Option Bool → Option ℕ → Option ActorRef
reference path (some true) (some n) = some (remote_ref n path)
reference path _ _ = none

-- What the registry has for a path, the cache left aside: the local actor; else, with a transport, the
-- remote one under the local node's identifier; else the first remote one with the path.
abbrev pub find_remote : String → Option Bool → Option ℕ → Option ℕ → Option ActorRef
find_remote path t (some n) other = reference path t (some n)
find_remote path t none other = reference path t other

abbrev pub find_actor : String → Option ℕ → Option ActorRef → Option ActorRef
find_actor path (some a) other = some (local_ref a)
find_actor path none other = other

unfoldable pub search : String → ActorRegistry → Option ActorRef
search path r = find_actor path (get path r.local_actors) (
    find_remote path r.transport
      (remote_at (record { node_id = r.local_node_id; path = path }) r.remote_actors)
      (remote_by_path path r.remote_actors))

-- Each cached reference is what the registry has for its path.
abbrev pub IsCoherent : ActorRegistry → Type 0
IsCoherent r = All (λ e. search e.0 r ≡ some e.1.0) r.lookup_cache

remote_found_lem :
    (path : String) (now n : ℕ) (b : Bool) (r : ActorRegistry)
    → (remote_found path now n b r).0 ≡ reference path (some b) (some n)
unfolding remember
remote_found_lem path now n true r = refl
remote_found_lem path now n false r = refl

lookup_by_path_lem :
    (path : String) (now : ℕ) (r : ActorRegistry)
    → (lookup_by_path path now r).0
      ≡ reference path r.transport (remote_by_path path r.remote_actors)
unfolding lookup_by_path
lookup_by_path_lem path now r =
    ground (arith, λ (n : ℕ) (b : Bool). remote_found_lem path now n b r)

-- What a lookup past the cache returns, and that it leaves the registry as it is or remembers what the
-- registry has.
abbrev pub Answers : String → ℕ → ActorRegistry → Option ActorRef × ActorRegistry → Type 0
Answers path now r x =
    (x.0 ≡ search path r)
    × ((x.1 ≡ r)
        ⊎ ((ref : ActorRef) × (search path r ≡ some ref) × (x.1 ≡ (remember path now ref r).1)))

Answers-remember :
    (path : String) (now : ℕ) (r : ActorRegistry) (ref : ActorRef)
    → search path r ≡ some ref
    → Answers path now r (remember path now ref r)
unfolding remember
Answers-remember path now r ref h = (sym h, inr (ref, h, refl))

Answers-remote :
    (path : String) (now n : ℕ) (b : Bool) (r : ActorRegistry)
    → search path r ≡ reference path (some b) (some n)
    → Answers path now r (remote_found path now n b r)
Answers-remote path now n true r h = Answers-remember path now r (remote_ref n path) h
Answers-remote path now n false r h = (sym h, inl refl)

Answers-none :
    (path : String) (now : ℕ) (r : ActorRegistry)
    → search path r ≡ none
    → Answers path now r (none, r)
Answers-none path now r h = (sym h, inl refl)

module _ (path : String) (now : ℕ) (r : ActorRegistry) where
  Answers-at :
      (x y : Option ActorRef × ActorRegistry) → x ≡ y → Answers path now r y → Answers path now r x
  Answers-at x y e a = subst (Answers path now r) (sym e) a

  own : Option ℕ
  own = remote_at (record { node_id = r.local_node_id; path = path }) r.remote_actors

  Answers-by_path :
      search path r ≡ reference path r.transport (remote_by_path path r.remote_actors)
      → Answers path now r (lookup_by_path path now r)
  Answers-by_path h = elim (Option-cases (remote_by_path path r.remote_actors)) [
    | inl gone ↦
        Answers-at (lookup_by_path path now r) (none, r) (unfold lookup_by_path in ground arith)
          (Answers-none path now r (ground arith))
    | inr (n, there) ↦ elim (Option-cases (r.transport)) [
      | inl unset ↦
          Answers-at (lookup_by_path path now r) (none, r) (unfold lookup_by_path in ground arith)
            (Answers-none path now r (ground arith))
      | inr (b, set) ↦
          Answers-at (lookup_by_path path now r) (remote_found path now n b r)
            (unfold lookup_by_path in ground arith) (Answers-remote path now n b r (ground arith))
    ]
  ]

  pub Answers-registered : Answers path now r (lookup_registered path now r)
  Answers-registered = elim (Option-cases (get path r.local_actors)) [
    | inr (a, here) ↦
        Answers-at (lookup_registered path now r) (remember path now (local_ref a) r)
          (unfold lookup_registered in ground arith)
          (Answers-remember path now r (local_ref a) (unfold search in ground arith))
    | inl away ↦ elim (Option-cases own) [
      | inl other ↦
          Answers-at (lookup_registered path now r) (lookup_by_path path now r)
            (unfold lookup_registered own in ground arith)
            (Answers-by_path (unfold search own in ground arith))
      | inr (n, mine) ↦ elim (Option-cases (r.transport)) [
        | inl unset ↦
            Answers-at (lookup_registered path now r) (lookup_by_path path now r)
              (unfold lookup_registered own in ground arith)
              (Answers-by_path (unfold search own in ground arith))
        | inr (b, set) ↦
            Answers-at (lookup_registered path now r) (remote_found path now n b r)
              (unfold lookup_registered own in ground arith)
              (Answers-remote path now n b r (unfold search own in ground arith))
      ]
    ]
  ]

evict-All :
    (P : String × (ActorRef × ℕ) → Type 0) (max_size : ℕ) (c : Cache)
    → All P c
    → All P (evict max_size c)
unfolding evict
evict-All P max_size c a =
    if_both (All P) (ltb 0 max_size && leb max_size (length c)) (dropped (oldest c)) a
  where
    dropped :
        (o : Option (String × (ActorRef × ℕ))) → All P (elim o [ none ↦ c | some e ↦ remove e.0 c ])
    dropped none = a
    dropped (some e) = All-mono (λ d p. p.0) (remove e.0 c) (All-remove P e.0 c a)

-- A coherent cache, and nothing but cache and counters changed since an earlier state.
abbrev pub Keeps : ActorRegistry → ActorRegistry → Type 0
Keeps r q = IsCoherent q × ((other : String) → search other q ≡ search other r)

-- An answer of the registry: what it has, with the cache left coherent and nothing else changed.
abbrev pub Finds : String → ActorRegistry → Option ActorRef × ActorRegistry → Type 0
Finds path r x = (x.0 ≡ search path r) × (Keeps r x.1)

search_cache :
    (other : String) (r : ActorRegistry) (c : Cache)
    → search other (record r { lookup_cache = c }) ≡ search other r
unfolding search
search_cache other r c = refl

remember-Keeps :
    (path : String) (now : ℕ) (ref : ActorRef) (r : ActorRegistry)
    → search path r ≡ some ref
    → IsCoherent r
    → Keeps r (remember path now ref r).1
unfolding remember
remember-Keeps path now ref r h c =
    let p = λ (e : String × (ActorRef × ℕ)). search e.0 r ≡ some e.1.0 in
    let kept = All-insert p path (ref, now) _ (evict-All p r.max_cache_size r.lookup_cache c) h in
    if_both (Keeps r) r.cache_enabled ((unfold search in kept), λ other. search_cache other r _)
      (c, λ other. refl)

clean_cache-Keeps : (now : ℕ) (r : ActorRegistry) → IsCoherent r → Keeps r (clean_cache now r)
unfolding clean_cache search
clean_cache-Keeps now r c = (All-filter _ _ r.lookup_cache c, λ other. refl)

Answers-Finds :
    (path : String) (now : ℕ) (r : ActorRegistry) (x : Option ActorRef × ActorRegistry)
    → IsCoherent r
    → Answers path now r x
    → Finds path r x
Answers-Finds path now r x c (e, inl same) = (e, subst (Keeps r) (sym same) (c, λ other. refl))
Answers-Finds path now r x c (e, inr (ref, h, same)) =
    (e, subst (Keeps r) (sym same) (remember-Keeps path now ref r h c))

cached-search :
    (path : String) (now : ℕ) (r : ActorRegistry) (ref : ActorRef)
    → IsCoherent r
    → cached path now r ≡ some ref
    → search path r ≡ some ref
unfolding cached
cached-search path now r ref c h = elim (Option-cases (get path r.lookup_cache)) [
  | inl gone ↦ absurd (ground arith)
  | inr ((found, time), there) ↦
      let young = ltb (now - time) r.cache_ttl in
      let all =
        All_lookup (λ (e : String × (ActorRef × ℕ)). search e.0 r ≡ some e.1.0) path (found, time)
          r.lookup_cache c there in
      elim (Bool-cases young) [
        | inl yes_young ↦ let e : found ≡ ref = ground arith in all ∙ ap some e
        | inr old ↦ absurd (ground arith)
      ]
]

Finds-at :
    (path : String) (r : ActorRegistry) (x y : Option ActorRef × ActorRegistry)
    → x ≡ y
    → Finds path r y
    → Finds path r x
Finds-at path r x y e f = subst (Finds path r) (sym e) f

cached-Finds :
    (path : String) (now : ℕ) (r : ActorRegistry)
    → IsCoherent r
    → Finds path r (lookup_cached path now r)
cached-Finds path now r c = elim (Option-cases (cached path now r)) [
  | inr (ref, hit) ↦
      let counted = record r { cache_hits = add64 r.cache_hits 1 } in
      Finds-at path r (lookup_cached path now r) (some ref, counted)
        (unfold lookup_cached in ground arith)
        (unfold search in (sym (cached-search path now r ref c hit), (c, λ other. refl)))
  | inl miss ↦
      let counted = record r { cache_misses = add64 r.cache_misses 1 } in
      Finds-at path r (lookup_cached path now r) (lookup_registered path now counted)
        (unfold lookup_cached in ground arith)
        (unfold search in
          Answers-Finds path now counted (lookup_registered path now counted) c
            (Answers-registered path now counted))
]

-- In a registry whose cache is coherent a lookup, cleaning the cache or not, gives what the registry
-- has, and leaves the cache coherent and the registry the same for every other lookup.
pub lookup-Finds :
    (clean : Bool) (path : String) (now : ℕ) (r : ActorRegistry)
    → IsCoherent r
    → Finds path r (lookup clean path now r)
unfolding lookup
lookup-Finds clean path now r c =
    let (coherent, same) = if_both (Keeps r) clean (clean_cache-Keeps now r c) (c, λ other. refl) in
    let (e, (kept, after)) =
      cached-Finds path now (if clean then clean_cache now r else r) coherent in
    if_both (Finds path r) r.cache_enabled
      (e ∙ same path, (kept, λ other. after other ∙ same other))
      (Answers-Finds path now r _ c (Answers-registered path now r))
