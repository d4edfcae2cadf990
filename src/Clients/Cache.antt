-- ===== src/Clients/Cache.antt =====
-- backend/src/api/clients/cache.py and `get_json` of base.py: answers kept for a time. Times are in
-- milliseconds, a term in seconds.
pub mod Expiry
use kb_concierge.Prelude.{
  ℕ, ◌+◌, ◌*◌, String, Bool, true, false, Option, none, some, if◌then◌else◌, leb, ltb, Dict, lookup,
  insert, erase,
}

-- `InMemoryCache._store`: the time of expiry and the value
abbrev pub Store : Type 0
Store = Dict (ℕ × String)

got : String → ℕ → Store → Option (ℕ × String) → Option String × Store
got key now store none = (none, store)
got key now store (some (expires_at, value)) =
    if leb expires_at now then (none, erase key store) else (some value, store)

-- `InMemoryCache.get`
unfoldable pub cache_get : String → ℕ → Store → Option String × Store
unfolding got
cache_get key now store = got key now store (lookup key store)

-- `InMemoryCache.set`
unfoldable pub cache_set : String → String → ℕ → ℕ → Store → Store
cache_set key value ttl_seconds now store = insert key (now + ttl_seconds * 1000, value) store
