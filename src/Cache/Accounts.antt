-- ===== src/Cache/Accounts.antt =====
-- The counter of entries over sequences of calls into src/cache.c.
use dumphfdl.Common.{ℕ, ◌+◌, ◌^◌, ◌≤◌, ◌<◌, arith, List, [], ◌∷◌, length}
use dumphfdl.LaHash.{LaHash}
use dumphfdl.Cache.{
  Entry, Cache, cache_create, cache_entry_create, cache_entry_delete, cache_expire,
  is_cache_entry_expired,
}
use dumphfdl.Cache.Counting.{
  IsCounted, cache_create-IsCounted, cache_entry_create-IsCounted, cache_entry_delete-IsCounted,
  cache_expire-IsCounted,
}
use dumphfdl.Cache.History.{Call, create, delete, expire, step, run}

module _ {K V : Type 0} (h : LaHash K (Entry V)) where
  step-IsCounted :
      (c : Cache h) (call : Call K V)
      → h.count c.table + 1 < 2 ^ 32
      → IsCounted h c
      → IsCounted h (step h c call)
  unfolding step
  step-IsCounted c (create k v t) small p = cache_entry_create-IsCounted h c k v t small p
  step-IsCounted c (delete k) small p = cache_entry_delete-IsCounted h c k p
  step-IsCounted c (expire now) small p = cache_expire-IsCounted h c now p

  count-step-le :
      (c : Cache h) (call : Call K V) → h.count (step h c call).table ≤ h.count c.table + 1
  unfolding step cache_entry_create cache_entry_delete cache_expire
  count-step-le c (create k v t) =
      ground (arith, h.count-insert c.table k (record { created_time = t; value = v }))
  count-step-le c (delete k) = ground (arith, h.count-remove c.table k)
  count-step-le c (expire now) =
      ground (arith, h.count-foreach_remove c.table (λ k e. is_cache_entry_expired c.ttl now e))

  count-run-le :
      (c : Cache h) (calls : List (Call K V))
      → h.count (run h c calls).table ≤ h.count c.table + length calls
  unfolding run
  count-run-le c [] = omega arith
  count-run-le c (call ∷ calls) =
      omega (arith, count-step-le (run h c calls) call, count-run-le c calls)

  IsCounted-from :
      (c : Cache h) (calls : List (Call K V))
      → IsCounted h c
      → h.count c.table + length calls < 2 ^ 32
      → IsCounted h (run h c calls)
  unfolding run
  IsCounted-from c [] p small = p
  IsCounted-from c (call ∷ calls) p small =
      step-IsCounted (run h c calls) call (omega (arith, count-run-le c calls))
        (IsCounted-from c calls p (omega arith))

  -- After any sequence of fewer than 2^32 calls on a new cache, the reported number of entries is
  -- the number of entries that the table holds: no replacement, failed removal or expiration
  -- makes the counter drift, stop at 0 or wrap.
  pub run-IsCounted :
      (ttl interval now : ℕ) (calls : List (Call K V))
      → length calls < 2 ^ 32
      → IsCounted h (run h (cache_create h ttl interval now) calls)
  unfolding cache_create
  run-IsCounted ttl interval now calls small =
      IsCounted-from (cache_create h ttl interval now) calls
        (cache_create-IsCounted h ttl interval now) (omega (arith, h.count-new))
