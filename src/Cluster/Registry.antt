-- ===== src/Cluster/Registry.antt =====
-- actix-cluster/src/registry.rs: the registry of actors and the cache of its lookups. A local actor is
-- a number that stands for its reference; the transport is not set, or set and started or not. A map
-- is iterated in the order of its list, and a lookup reads the clock once.
use actix_pura.Prelude.{
  ℕ, ◌-◌, String, Bool, true, false, ◌&&◌, Option, none, some, List, [], ◌∷◌, if◌then◌else◌, ltb,
  leb, ◌==◌, is_some, length, filter, add64, str_eq, take,
}
use actix_pura.Prelude.Dict.{lookup as get, insert, remove}

-- `Box<dyn ActorRef>`: a `LocalActorRef`, or a `RemoteActorRef` with its node and path.
pub data ActorRef : Type 0 where
  local_ref : ℕ → ActorRef
  remote_ref : ℕ → String → ActorRef

-- `ActorPath`
pub record ActorPath : Type 0 where
  pub node_id : ℕ
  pub path : String

-- A cached reference and the time of its lookup.
abbrev pub Cache : Type 0
Cache = List (String × (ActorRef × ℕ))

-- `ActorRegistry`, less the pending discoveries.
pub record ActorRegistry : Type 0 where
  pub local_node_id : ℕ
  pub local_actors : List (String × ℕ)
  pub remote_actors : List (ActorPath × ℕ)
  pub transport : Option Bool
  pub lookup_cache : Cache
  pub cache_ttl : ℕ
  pub cache_hits : ℕ
  pub cache_misses : ℕ
  pub max_cache_size : ℕ
  pub cache_enabled : Bool

-- `ClusterError`, as far as the registry gives it.
pub data RegistryError : Type 0 where
  actor_already_registered : String → RegistryError
  actor_not_found : String → RegistryError

-- `ActorRegistry::new`, with the seconds of the time to live.
abbrev pub new_registry : ℕ → ℕ → ActorRegistry
new_registry local_node_id ttl = record {
  local_node_id = local_node_id;
  local_actors = [];
  remote_actors = [];
  transport = none;
  lookup_cache = [];
  cache_ttl = ttl;
  cache_hits = 0;
  cache_misses = 0;
  max_cache_size = 1000;
  cache_enabled = true;
}

-- `==` on `ActorPath`
abbrev pub same_path : ActorPath → ActorPath → Bool
same_path a b = (a.node_id == b.node_id) && str_eq a.path b.path

-- `remote_actors.get`, `insert` and `remove`.
unfoldable pub remote_at : ActorPath → List (ActorPath × ℕ) → Option ℕ
remote_at a [] = none
remote_at a ((b, n) ∷ m) = if same_path a b then some n else remote_at a m

unfoldable pub insert_remote : ActorPath → ℕ → List (ActorPath × ℕ) → List (ActorPath × ℕ)
insert_remote a n [] = (a, n) ∷ []
insert_remote a n ((b, k) ∷ m) = if same_path a b then (b, n) ∷ m else (b, k) ∷ insert_remote a n m

unfoldable pub remove_remote : ActorPath → List (ActorPath × ℕ) → List (ActorPath × ℕ)
remove_remote a [] = []
remove_remote a ((b, k) ∷ m) =
    if same_path a b then remove_remote a m else (b, k) ∷ remove_remote a m

-- The loop over the remote actors, which looks at the path only.
unfoldable pub remote_by_path : String → List (ActorPath × ℕ) → Option ℕ
remote_by_path path [] = none
remote_by_path path ((b, n) ∷ m) = if str_eq b.path path then some n else remote_by_path path m

-- `sort_by`, which is stable, on the times of the entries.
unfoldable pub insert_entry : String × (ActorRef × ℕ) → Cache → Cache
insert_entry e [] = e ∷ []
insert_entry e (d ∷ c) = if leb e.1.1 d.1.1 then e ∷ d ∷ c else d ∷ insert_entry e c

unfoldable pub sort_entries : Cache → Cache
unfolding insert_entry
sort_entries [] = []
sort_entries (e ∷ c) = insert_entry e (sort_entries c)

unfoldable pub set_max_cache_size : ℕ → ActorRegistry → ActorRegistry
unfolding sort_entries
set_max_cache_size max_size r = record r {
  max_cache_size = max_size;
  lookup_cache =
      if ltb 0 max_size && ltb max_size (length r.lookup_cache)
      then take max_size (sort_entries r.lookup_cache)
      else r.lookup_cache;
}

unfoldable pub enable_cache : ActorRegistry → ActorRegistry
enable_cache r = record r { cache_enabled = true }

unfoldable pub disable_cache : ActorRegistry → ActorRegistry
disable_cache r = record r { cache_enabled = false; lookup_cache = [] }

unfoldable pub clear_cache : ActorRegistry → ActorRegistry
clear_cache r = record r { lookup_cache = []; cache_hits = 0; cache_misses = 0 }

unfoldable pub clean_cache : ℕ → ActorRegistry → ActorRegistry
clean_cache now r = record r {
  lookup_cache = filter (λ e. ltb (now - e.1.1) r.cache_ttl) r.lookup_cache;
}

unfoldable pub register_local : String → ℕ → ActorRegistry → Option RegistryError × ActorRegistry
register_local path actor r =
    if is_some (get path r.local_actors) then (some (actor_already_registered path), r) else (
      none,
      record r {
        local_actors = insert path actor r.local_actors;
        lookup_cache = remove path r.lookup_cache;
      },
    )

unfoldable pub register_remote : ActorPath → ℕ → ActorRegistry → ActorRegistry
register_remote a n r = record r {
  remote_actors = insert_remote a n r.remote_actors;
  lookup_cache = remove a.path r.lookup_cache;
}

unfoldable pub deregister_local : String → ActorRegistry → Option RegistryError × ActorRegistry
deregister_local path r =
    if is_some (get path r.local_actors)
    then (
      none,
      record r {
        local_actors = remove path r.local_actors;
        lookup_cache = remove path r.lookup_cache;
      },
    )
    else (some (actor_not_found path), r)

unfoldable pub deregister_remote : ActorPath → ActorRegistry → Option RegistryError × ActorRegistry
unfolding remote_at remove_remote
deregister_remote a r =
    if is_some (remote_at a r.remote_actors)
    then (
      none,
      record r {
        remote_actors = remove_remote a r.remote_actors;
        lookup_cache = remove a.path r.lookup_cache;
      },
    )
    else (some (actor_not_found a.path), r)

-- `min_by_key` over the times gives the first least one.
unfoldable pub oldest : Cache → Option (String × (ActorRef × ℕ))
oldest [] = none
oldest (e ∷ c) = elim (oldest c) [
  | none ↦ some e
  | some d ↦ if leb e.1.1 d.1.1 then some e else some d
]

-- Room for one entry, when the cache is full.
unfoldable pub evict : ℕ → Cache → Cache
unfolding oldest
evict max_size c =
    if ltb 0 max_size && leb max_size (length c)
    then elim (oldest c) [ none ↦ c | some e ↦ remove e.0 c ]
    else c

-- A reference that was found is returned, and cached when the cache is enabled.
unfoldable pub remember : String → ℕ → ActorRef → ActorRegistry → Option ActorRef × ActorRegistry
unfolding evict
remember path now ref r = (
  some ref,
  if r.cache_enabled
      then record r {
        lookup_cache = insert path (ref, now) (evict r.max_cache_size r.lookup_cache);
      }
      else r,
)

-- A remote actor on a node, when the transport is started.
abbrev pub remote_found : String → ℕ → ℕ → Bool → ActorRegistry → Option ActorRef × ActorRegistry
remote_found path now n true r = remember path now (remote_ref n path) r
remote_found path now n false r = (none, r)

-- The search by path only; there is no reference without a transport.
unfoldable pub lookup_by_path : String → ℕ → ActorRegistry → Option ActorRef × ActorRegistry
unfolding remote_by_path remember
lookup_by_path path now r = elim (remote_by_path path r.remote_actors) [
  | none ↦ (none, r)
  | some n ↦ elim (r.transport) [
    | none ↦ (none, r)
    | some started ↦ remote_found path now n started r
  ]
]

-- The local actors, then the remote ones under the local node's identifier, then those by path; with
-- no transport the second finds nothing.
unfoldable pub lookup_registered : String → ℕ → ActorRegistry → Option ActorRef × ActorRegistry
unfolding lookup_by_path remote_at
lookup_registered path now r = elim (get path r.local_actors) [
  | some actor ↦ remember path now (local_ref actor) r
  | none ↦ elim (remote_at (record { node_id = r.local_node_id; path = path }) r.remote_actors) [
    | none ↦ lookup_by_path path now r
    | some n ↦ elim (r.transport) [
      | none ↦ lookup_by_path path now r
      | some started ↦ remote_found path now n started r
    ]
  ]
]

-- The cached reference of a path, when it is young enough.
unfoldable pub cached : String → ℕ → ActorRegistry → Option ActorRef
cached path now r = elim (get path r.lookup_cache) [
  | none ↦ none
  | some (ref, time) ↦ if ltb (now - time) r.cache_ttl then some ref else none
]

-- The part of `lookup` that follows the cleaning of the cache.
unfoldable pub lookup_cached : String → ℕ → ActorRegistry → Option ActorRef × ActorRegistry
unfolding cached lookup_registered
lookup_cached path now r = elim (cached path now r) [
  | some ref ↦ (some ref, record r { cache_hits = add64 r.cache_hits 1 })
  | none ↦ lookup_registered path now (record r { cache_misses = add64 r.cache_misses 1 })
]

-- `lookup`; a cleaning is drawn at random.
unfoldable pub lookup : Bool → String → ℕ → ActorRegistry → Option ActorRef × ActorRegistry
unfolding lookup_cached clean_cache
lookup clean path now r =
    if r.cache_enabled
    then lookup_cached path now (if clean then clean_cache now r else r)
    else lookup_registered path now r

-- `set_transport`, `set_cache_ttl`
unfoldable pub set_transport : Bool → ActorRegistry → ActorRegistry
set_transport started r = record r { transport = some started }

unfoldable pub set_cache_ttl : ℕ → ActorRegistry → ActorRegistry
set_cache_ttl ttl r = record r { cache_ttl = ttl }
