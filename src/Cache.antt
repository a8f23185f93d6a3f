-- ===== src/Cache.antt =====
-- src/cache.c: a cache over a hash table, whose entries expire. What time(NULL) returns is an
-- argument of each operation. The destructors and the name, used in metrics only, are left out.
pub mod Counting
pub mod History
pub mod Accounts
use dumphfdl.Common.{ℕ, ◌+◌, ◌-◌, ◌%◌, ◌^◌, ◌≤◌, Bool, Option, none, some, if◌then◌else◌, ltb, leb}
use dumphfdl.LaHash.{LaHash}

-- struct cache_entry
pub record Entry (V : Type 0) : Type 0 where
  pub created_time : ℕ
  pub value : V

-- CACHE_ENTRY_COUNT_ADD(cache, n) for n ≥ 0 and for -n, on a uint32_t counter.
unfoldable pub count_up : ℕ → ℕ → ℕ
count_up num_entries n = (num_entries + n) % 2 ^ 32

unfoldable pub count_down : ℕ → ℕ → ℕ
count_down num_entries n = if ltb num_entries n then 0 else num_entries - n

-- An entry that cache_entry_lookup no longer returns.
abbrev pub is_stale : {V : Type 0} → ℕ → ℕ → Entry V → Bool
is_stale ttl now e = ltb (e.created_time + ttl) now

-- The callback: `created_time <= current_timestamp - ttl`, in signed arithmetic.
abbrev pub is_cache_entry_expired : {V : Type 0} → ℕ → ℕ → Entry V → Bool
is_cache_entry_expired ttl now e = leb (e.created_time + ttl) now

-- The `entry` that cache_entry_lookup found, unless it has expired.
abbrev pub fresh_value : {V : Type 0} → ℕ → ℕ → Option (Entry V) → Option V
fresh_value ttl now none = none
fresh_value ttl now (some e) = if is_stale ttl now e then none else some e.value

module _ {K V : Type 0} (h : LaHash K (Entry V)) where
  -- struct cache
  pub record Cache : Type 0 where
    pub table : h.Table
    pub last_expiration_time : ℕ
    pub ttl : ℕ
    pub expiration_interval : ℕ
    pub num_entries : ℕ

  unfoldable pub cache_create : ℕ → ℕ → ℕ → Cache
  cache_create ttl expiration_interval now = record {
    table = h.new;
    last_expiration_time = now;
    ttl = ttl;
    expiration_interval = expiration_interval;
    num_entries = 0;
  }

  unfoldable pub cache_entry_create : Cache → K → V → ℕ → Cache × Bool
  unfolding count_up
  cache_entry_create c key value created_time =
      let entry : Entry V = record { created_time = created_time; value = value } in
      let (table, result) = h.insert c.table key entry in
      (
        record c {
          table = table;
          num_entries = if result then c.num_entries else count_up c.num_entries 1;
        },
        result,
      )

  unfoldable pub cache_entry_delete : Cache → K → Cache × Bool
  unfolding count_down
  cache_entry_delete c key =
      let (table, result) = h.remove c.table key in
      (
        record c {
          table = table;
          num_entries = if result then count_down c.num_entries 1 else c.num_entries;
        },
        result,
      )

  unfoldable pub cache_entry_lookup : Cache → K → ℕ → Option V
  cache_entry_lookup c key now = fresh_value c.ttl now (h.lookup c.table key)

  unfoldable pub cache_expire : Cache → ℕ → Cache × ℕ
  unfolding count_down
  cache_expire c now =
      if leb (c.last_expiration_time + c.expiration_interval) now
      then (let (table, expired_cnt) =
            h.foreach_remove c.table (λ k e. is_cache_entry_expired c.ttl now e) in
          (
            record c {
              table = table;
              last_expiration_time = now;
              num_entries = count_down c.num_entries expired_cnt;
            },
            expired_cnt,
          ))
      else (c, 0)
