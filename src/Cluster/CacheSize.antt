-- ===== src/Cluster/CacheSize.antt =====
-- actix-cluster/src/registry.rs: the size of the cache.
use actix_pura.Prelude.{
  ℕ, zero, suc, ◌+◌, ◌-◌, ◌≤◌, ◌<◌, ◌≡◌, inl, inr, sym, String, Bool, ◌&&◌, Option, none, some,
  List, [], ◌∷◌, if◌then◌else◌, if_both, ltb, leb, is_some, length, add64, filter, take, arith,
  Option-cases, Bool-cases,
}
use actix_pura.Prelude.Dict.{lookup as get, insert, remove}
use actix_pura.Cluster.Registry.{
  ActorRef, Cache, ActorRegistry, RegistryError, sort_entries, set_max_cache_size, enable_cache,
  disable_cache, clear_cache, clean_cache, register_local, register_remote, deregister_local,
  deregister_remote, set_cache_ttl, lookup, remote_at, oldest, evict, remember, lookup_registered,
  cached, lookup_cached,
}
use mathlib.Core.Path.{subst}
use actix_pura.Cluster.Caching.{Answers, Answers-registered}
use actix_pura.Cluster.Coherence.{Call, call, calls}

length-insert : (k : String) (v : ActorRef × ℕ) (c : Cache) → length (insert k v c) ≤ length c + 1
unfolding insert
length-insert k v [] = omega arith
length-insert k v ((j, w) ∷ c) = ground (arith, length-insert k v c)

length-remove : (k : String) (c : Cache) → length (remove k c) ≤ length c
unfolding remove
length-remove k [] = omega arith
length-remove k ((j, w) ∷ c) = ground (arith, length-remove k c)

length-filter : (p : String × (ActorRef × ℕ) → Bool) (c : Cache) → length (filter p c) ≤ length c
length-filter p [] = omega arith
length-filter p (e ∷ c) = ground (arith, length-filter p c)

length-take : (n : ℕ) (c : Cache) → length (take n c) ≤ n
length-take zero c = omega arith
length-take (suc n) [] = omega arith
length-take (suc n) (e ∷ c) = omega (arith, length-take n c)

remove_head :
    (d : String × (ActorRef × ℕ)) (c : Cache) → length (remove d.0 (d ∷ c)) < length (d ∷ c)
unfolding remove
remove_head d c = ground (arith, length-remove d.0 c)

remove_later :
    (k : String) (d : String × (ActorRef × ℕ)) (c : Cache)
    → length (remove k c) < length c
    → length (remove k (d ∷ c)) < length (d ∷ c)
unfolding remove
remove_later k d c h = ground arith

-- Removing the oldest entry makes room.
remove-oldest :
    (c : Cache) (e : String × (ActorRef × ℕ)) → oldest c ≡ some e → length (remove e.0 c) < length c
unfolding oldest
remove-oldest [] e h = cc
remove-oldest (d ∷ c) e h = elim (Option-cases (oldest c)) [
  | inl alone ↦ let same : d ≡ e = ground arith in rw (← same) (remove_head d c)
  | inr (f, found) ↦ elim (Bool-cases (leb d.1.1 f.1.1)) [
    | inl older ↦ let same : d ≡ e = ground arith in rw (← same) (remove_head d c)
    | inr younger ↦
        let same : f ≡ e = ground arith in
        rw (← same) (remove_later f.0 d c (remove-oldest c f found))
  ]
]

oldest-some : (c : Cache) → 0 < length c → (e : String × (ActorRef × ℕ)) × (oldest c ≡ some e)
unfolding oldest
oldest-some [] h = elim h [ ]
oldest-some (d ∷ c) h = elim (Option-cases (oldest c)) [
  | inl alone ↦ (d, ground arith)
  | inr (f, found) ↦ elim (Bool-cases (leb d.1.1 f.1.1)) [
    | inl older ↦ (d, ground arith)
    | inr younger ↦ (f, ground arith)
  ]
]

-- The cache within its size, where there is a limit.
abbrev pub IsBounded : ActorRegistry → Type 0
IsBounded r = 0 < r.max_cache_size → length r.lookup_cache ≤ r.max_cache_size

evict-lt : (n : ℕ) (c : Cache) → 0 < n → length c ≤ n → length (evict n c) < n
unfolding evict
evict-lt n c h le = elim (Bool-cases (ltb 0 n && leb n (length c))) [
  | inr room ↦ rw room (ground arith)
  | inl full ↦
      let (e, found) = oldest-some c (ground arith) in
      rw (full, found) (omega (arith, remove-oldest c e found))
]

remember-IsBounded :
    (path : String) (now : ℕ) (ref : ActorRef) (r : ActorRegistry)
    → IsBounded r
    → IsBounded (remember path now ref r).1
unfolding remember
remember-IsBounded path now ref r b =
    let c = evict r.max_cache_size r.lookup_cache in
    if_both IsBounded r.cache_enabled
      (λ h.
        omega (
          arith,
          evict-lt r.max_cache_size r.lookup_cache h (b h),
          length-insert path (ref, now) c,
        ))
      b

Answers-IsBounded :
    (path : String) (now : ℕ) (r : ActorRegistry) (x : Option ActorRef × ActorRegistry)
    → IsBounded r
    → Answers path now r x
    → IsBounded x.1
Answers-IsBounded path now r x b (e, inl same) = subst IsBounded (sym same) b
Answers-IsBounded path now r x b (e, inr (ref, h, same)) =
    subst IsBounded (sym same) (remember-IsBounded path now ref r b)

cached-IsBounded :
    (path : String) (now : ℕ) (r : ActorRegistry)
    → IsBounded r
    → IsBounded (lookup_cached path now r).1
unfolding lookup_cached
cached-IsBounded path now r b = found (cached path now r)
  where
    found :
        (o : Option ActorRef)
        → IsBounded
            (elim o as (λ _. Option ActorRef × ActorRegistry) [
              | some ref ↦ (some ref, record r { cache_hits = add64 r.cache_hits 1 })
              | none ↦
                  lookup_registered path now (record r { cache_misses = add64 r.cache_misses 1 })
            ]).1
    found (some ref) = b
    found none =
        let counted = record r { cache_misses = add64 r.cache_misses 1 } in
        Answers-IsBounded path now counted (lookup_registered path now counted) b
          (Answers-registered path now counted)

clean_cache-IsBounded : (now : ℕ) (r : ActorRegistry) → IsBounded r → IsBounded (clean_cache now r)
unfolding clean_cache
clean_cache-IsBounded now r b h =
    let p = λ (e : String × (ActorRef × ℕ)). ltb (now - e.1.1) r.cache_ttl in
    omega (arith, length-filter p r.lookup_cache, b h)

lookup-IsBounded :
    (cleaned : Bool) (path : String) (now : ℕ) (r : ActorRegistry)
    → IsBounded r
    → IsBounded (lookup cleaned path now r).1
unfolding lookup
lookup-IsBounded cleaned path now r b =
    if_both (λ (x : Option ActorRef × ActorRegistry). IsBounded x.1) r.cache_enabled
      (cached-IsBounded path now (if cleaned then clean_cache now r else r)
        (if_both IsBounded cleaned (clean_cache-IsBounded now r b) b))
      (Answers-IsBounded path now r (lookup_registered path now r) b
        (Answers-registered path now r))

abbrev Answer : Type 0
Answer = Option RegistryError × ActorRegistry

call-IsBounded : (k : Call) (r : ActorRegistry) → IsBounded r → IsBounded (call k r)
unfolding call
call-IsBounded (Call.add_local path actor) r b =
    unfold register_local in
    if_both (λ (x : Answer). IsBounded x.1) (is_some (get path r.local_actors)) b
      (λ h. omega (arith, length-remove path r.lookup_cache, b h))
call-IsBounded (Call.add_remote a n) r b =
    unfold register_remote in λ h. omega (arith, length-remove a.path r.lookup_cache, b h)
call-IsBounded (Call.drop_local path) r b =
    unfold deregister_local in
    if_both (λ (x : Answer). IsBounded x.1) (is_some (get path r.local_actors))
      (λ h. omega (arith, length-remove path r.lookup_cache, b h)) b
call-IsBounded (Call.drop_remote a) r b =
    unfold deregister_remote in
    if_both (λ (x : Answer). IsBounded x.1) (is_some (remote_at a r.remote_actors))
      (λ h. omega (arith, length-remove a.path r.lookup_cache, b h)) b
call-IsBounded (Call.look cleaned path now) r b = lookup-IsBounded cleaned path now r b
call-IsBounded (Call.resize n) r b =
    unfold set_max_cache_size in
    λ h. elim (Bool-cases (ltb 0 n && ltb n (length r.lookup_cache))) [
      | inl more ↦ rw more (length-take n (sort_entries r.lookup_cache))
      | inr fits ↦ rw fits (ground arith)
    ]
call-IsBounded Call.enable r b = unfold enable_cache in b
call-IsBounded Call.disable r b = unfold disable_cache in λ h. omega arith
call-IsBounded Call.clear r b = unfold clear_cache in λ h. omega arith
call-IsBounded (Call.clean now) r b = clean_cache-IsBounded now r b
call-IsBounded (Call.time_to_live ttl) r b = unfold set_cache_ttl in b

-- Over any sequence of calls the cache stays within its size, where there is a limit.
pub calls-IsBounded : (ks : List Call) (r : ActorRegistry) → IsBounded r → IsBounded (calls ks r)
unfolding calls
calls-IsBounded [] r b = b
calls-IsBounded (k ∷ ks) r b = calls-IsBounded ks (call k r) (call-IsBounded k r b)
