-- ===== src/Cache/Counting.antt =====
-- The counter that src/cache.c reports as a metric.
use dumphfdl.Common.{ℕ, ◌+◌, ◌^◌, ◌<◌, ◌≡◌, leb, arith}
use dumphfdl.LaHash.{LaHash}
use dumphfdl.Cache.{
  Entry, Cache, cache_create, cache_entry_create, cache_entry_delete, cache_expire,
}

module _ {K V : Type 0} (h : LaHash K (Entry V)) where
  -- The counter is exact.
  abbrev pub IsCounted : Cache h → Type 0
  IsCounted c = c.num_entries ≡ h.count c.table

  pub cache_create-IsCounted : (ttl interval now : ℕ) → IsCounted (cache_create h ttl interval now)
  unfolding cache_create
  cache_create-IsCounted ttl interval now = ground (arith, h.count-new)

  pub cache_entry_create-IsCounted :
      (c : Cache h) (key : K) (value : V) (t : ℕ)
      → h.count c.table + 1 < 2 ^ 32
      → IsCounted c
      → IsCounted (cache_entry_create h c key value t).0
  unfolding cache_entry_create
  cache_entry_create-IsCounted c key value t small v =
      ground (arith, h.count-insert c.table key (record { created_time = t; value = value }))

  pub cache_entry_delete-IsCounted :
      (c : Cache h) (key : K) → IsCounted c → IsCounted (cache_entry_delete h c key).0
  unfolding cache_entry_delete
  cache_entry_delete-IsCounted c key v = ground (arith, h.count-remove c.table key)

  pub cache_expire-IsCounted :
      (c : Cache h) (now : ℕ) → IsCounted c → IsCounted (cache_expire h c now).0
  unfolding cache_expire
  cache_expire-IsCounted c now v =
      ground (arith, h.count-foreach_remove c.table (λ k e. leb (e.created_time + c.ttl) now))
