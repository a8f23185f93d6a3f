-- ===== src/AcCache.antt =====
-- src/ac_cache.c: two caches that map a frequency and an aircraft ID to an ICAO address, and back.
-- What each call of time(NULL) returns is an argument. The hash functions only choose a bucket.
pub mod Pairing
pub mod Delete
pub mod Create
pub mod Slots
pub mod Logoff
use dumphfdl.Common.{
  ℕ, ◌≡◌, ◌↔◌, Bool, true, false, ◌&&◌, not, Option, none, some, if◌then◌else◌, ◌==◌, arith, List,
}
use dumphfdl.LaHash.{LaHash}
use dumphfdl.Cache.{
  Entry, Cache, cache_create, cache_entry_create, cache_entry_delete, cache_entry_lookup,
  cache_expire,
}

-- struct ac_cache_fwd_key; a frequency is the bit pattern of an int32_t.
pub record FwdKey : Type 0 where
  pub freq : ℕ
  pub id : ℕ

-- struct ac_cache_entry
pub record AcCacheEntry : Type 0 where
  pub callsign : Option (List ℕ)
  pub icao_address : ℕ

-- struct ac_cache_inv_entry
pub record InvEntry : Type 0 where
  pub freq : ℕ
  pub id : ℕ

abbrev pub ac_cache_expiration_interval : ℕ
ac_cache_expiration_interval = 309

abbrev pub ac_cache_fwd_key_compare : FwdKey → FwdKey → Bool
ac_cache_fwd_key_compare k1 k2 = k1.freq == k2.freq && k1.id == k2.id

-- struct ac_cache_inv_key holds an address only.
abbrev pub ac_cache_inv_key_compare : ℕ → ℕ → Bool
ac_cache_inv_key_compare k1 k2 = k1 == k2

pub ac_cache_fwd_key_compare_iff : (a b : FwdKey) → (ac_cache_fwd_key_compare a b ≡ true) ↔ (a ≡ b)
ac_cache_fwd_key_compare_iff a b = ground arith

module _ (f : LaHash FwdKey (Entry AcCacheEntry)) (i : LaHash ℕ (Entry InvEntry)) where
  -- struct ac_cache
  pub record AcCache : Type 0 where
    pub fwd_cache : Cache f
    pub inv_cache : Cache i

  unfoldable pub ac_cache_create : ℕ → ℕ → ℕ → AcCache
  ac_cache_create ac_cache_ttl now1 now2 = record {
    fwd_cache = cache_create f ac_cache_ttl ac_cache_expiration_interval now1;
    inv_cache = cache_create i ac_cache_ttl ac_cache_expiration_interval now2;
  }

  unfoldable pub ac_cache_fwd_entry_create : AcCache → FwdKey → ℕ → ℕ → AcCache
  ac_cache_fwd_entry_create c key icao_address created_time =
      let entry : AcCacheEntry = record { callsign = none; icao_address = icao_address } in
      record c { fwd_cache = (cache_entry_create f c.fwd_cache key entry created_time).0 }

  unfoldable pub ac_cache_inv_entry_create : AcCache → FwdKey → ℕ → ℕ → AcCache
  ac_cache_inv_entry_create c key icao_address created_time =
      let entry : InvEntry = record { freq = key.freq; id = key.id } in
      record c { inv_cache = (cache_entry_create i c.inv_cache icao_address entry created_time).0 }

  -- Both removals of ac_cache_entry_perform_delete.
  unfoldable pub delete_both : AcCache → ℕ → InvEntry → AcCache × Bool
  delete_both c icao_address e =
      let fwd_key : FwdKey = record { freq = e.freq; id = e.id } in
      let (inv_cache, inv_done) = cache_entry_delete i c.inv_cache icao_address in
      let (fwd_cache, fwd_done) = cache_entry_delete f c.fwd_cache fwd_key in
      (record { fwd_cache = fwd_cache; inv_cache = inv_cache }, inv_done && fwd_done)

  unfoldable pub ac_cache_entry_perform_delete : AcCache → ℕ → ℕ → Bool → ℕ → AcCache × Bool
  ac_cache_entry_perform_delete c freq icao_address check_frequency now =
      elim (cache_entry_lookup i c.inv_cache icao_address now) [
        | none ↦ (c, false)
        | some e ↦
            if check_frequency && not (e.freq == freq)
            then (c, false)
            else delete_both c icao_address e
      ]

  unfoldable pub ac_cache_entry_delete : AcCache → ℕ → ℕ → ℕ → AcCache × Bool
  ac_cache_entry_delete c freq icao_address now =
      ac_cache_entry_perform_delete c freq icao_address true now

  -- The periodic expiration at the head of ac_cache_entry_lookup.
  unfoldable pub expire_both : AcCache → ℕ → AcCache
  expire_both c now = record {
    fwd_cache = (cache_expire f c.fwd_cache now).0;
    inv_cache = (cache_expire i c.inv_cache now).0;
  }

  -- `now1` is read for the expiration and `now2` in cache_entry_lookup.
  unfoldable pub ac_cache_entry_lookup : AcCache → FwdKey → ℕ → ℕ → AcCache × Option AcCacheEntry
  ac_cache_entry_lookup c key now1 now2 =
      let c' = expire_both c now1 in (c', cache_entry_lookup f c'.fwd_cache key now2)

  -- The two deletions at the head of ac_cache_entry_create.
  unfoldable pub make_room : AcCache → FwdKey → ℕ → Option AcCacheEntry → ℕ → ℕ → AcCache
  make_room c key icao_address found now3 now4 =
      let c' : AcCache = elim found [
        | none ↦ c
        | some entry ↦ (ac_cache_entry_perform_delete c key.freq entry.icao_address false now3).0
      ] in
      (ac_cache_entry_perform_delete c' key.freq icao_address false now4).0

  -- The times are those of the lookup's two reads, of the two deletions, and `now`.
  unfoldable pub ac_cache_entry_create : AcCache → FwdKey → ℕ → ℕ → ℕ → ℕ → ℕ → ℕ → AcCache
  ac_cache_entry_create c key icao_address now1 now2 now3 now4 now =
      let (c1, found) = ac_cache_entry_lookup c key now1 now2 in
      let c2 = make_room c1 key icao_address found now3 now4 in
      let c3 = ac_cache_fwd_entry_create c2 key icao_address now in
      ac_cache_inv_entry_create c3 key icao_address now
