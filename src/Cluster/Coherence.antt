-- ===== src/Cluster/Coherence.antt =====
-- actix-cluster/src/registry.rs: every change of the registry keeps its cache coherent, and a lookup
-- keeps the cache within its size.
use actix_pura.Prelude.{ℕ, String, Bool, List, [], ◌∷◌}
use actix_pura.Prelude.Dict.{lookup as get}
use actix_pura.Cluster.Registry.{
  ActorPath, ActorRegistry, set_max_cache_size, enable_cache, disable_cache, clear_cache,
  clean_cache, register_local, register_remote, deregister_local, deregister_remote, set_cache_ttl,
  lookup,
}

-- The calls of the registry, a lookup with its draw and its time.
pub data Call : Type 0 where
  add_local : String → ℕ → Call
  add_remote : ActorPath → ℕ → Call
  drop_local : String → Call
  drop_remote : ActorPath → Call
  look : Bool → String → ℕ → Call
  resize : ℕ → Call
  enable : Call
  disable : Call
  clear : Call
  clean : ℕ → Call
  time_to_live : ℕ → Call

unfoldable pub call : Call → ActorRegistry → ActorRegistry
call (add_local path actor) r = (register_local path actor r).1
call (add_remote a n) r = register_remote a n r
call (drop_local path) r = (deregister_local path r).1
call (drop_remote a) r = (deregister_remote a r).1
call (look cleaned path now) r = (lookup cleaned path now r).1
call (resize max_size) r = set_max_cache_size max_size r
call enable r = enable_cache r
call disable r = disable_cache r
call clear r = clear_cache r
call (clean now) r = clean_cache now r
call (time_to_live ttl) r = set_cache_ttl ttl r

unfoldable pub calls : List Call → ActorRegistry → ActorRegistry
calls [] r = r
calls (c ∷ cs) r = calls cs (call c r)
