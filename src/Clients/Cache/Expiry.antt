-- ===== src/Clients/Cache/Expiry.antt =====
-- What a cache gives back.
use kb_concierge.Prelude.{
  ℕ, ◌+◌, ◌*◌, ◌≡◌, String, none, some, arith, eq_iff, ltb, if◌then◌else◌, lookup-insert, lookup,
  str_eq,
}
use kb_concierge.Clients.Cache.{Store, cache_get, cache_set, got}

-- A value that was set is given back until its term has passed, and not from then on; what is kept
-- under another key is given back as before.
pub cache_get-set :
    (k j v : String) (ttl t now : ℕ) (store : Store)
    → ((cache_get k now (cache_set k v ttl t store)).0
        ≡ (if ltb now (t + ttl * 1000) then some v else none))
      × (lookup j (cache_set k v ttl t store)
          ≡ (if str_eq k j then some (t + ttl * 1000, v) else lookup j store))
unfolding cache_get got cache_set
cache_get-set k j v ttl t now store = (
  ground (arith, eq_iff k k, lookup-insert k k (t + ttl * 1000, v) store),
  lookup-insert k j (t + ttl * 1000, v) store,
)
