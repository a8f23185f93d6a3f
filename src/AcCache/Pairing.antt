-- ===== src/AcCache/Pairing.antt =====
-- The two caches of src/ac_cache.c as inverse maps: the invariant, its passage through time and
-- through an expiration.
use dumphfdl.Common.{ℕ, ◌+◌, ◌≤◌, ◌≡◌, refl, Option, none, some, if◌then◌else◌, leb, arith}
use dumphfdl.LaHash.{LaHash, keep_unless}
use dumphfdl.Cache.{Entry, cache_create, cache_expire, is_cache_entry_expired}
use dumphfdl.AcCache.{FwdKey, AcCacheEntry, InvEntry, AcCache, ac_cache_create, expire_both}

-- What the inverse cache holds for a forward entry, and the other way round.
abbrev pub inv_of : FwdKey → ℕ → Entry InvEntry
inv_of k t = record { created_time = t; value = record { freq = k.freq; id = k.id } }

abbrev pub fwd_of : ℕ → ℕ → Entry AcCacheEntry
fwd_of a t = record { created_time = t; value = record { callsign = none; icao_address = a } }

abbrev pub key_of : InvEntry → FwdKey
key_of e = record { freq = e.freq; id = e.id }

module _ (f : LaHash FwdKey (Entry AcCacheEntry)) (i : LaHash ℕ (Entry InvEntry)) where
  abbrev pub fwd : AcCache f i → FwdKey → Option (Entry AcCacheEntry)
  fwd c k = f.lookup c.fwd_cache.table k

  abbrev pub inv : AcCache f i → ℕ → Option (Entry InvEntry)
  inv c a = i.lookup c.inv_cache.table a

  -- Both caches expire entries alike.
  pub record InStep (c : AcCache f i) : Type 0 where
    pub same_ttl : c.inv_cache.ttl ≡ c.fwd_cache.ttl
    pub same_interval : c.inv_cache.expiration_interval ≡ c.fwd_cache.expiration_interval
    pub same_time : c.inv_cache.last_expiration_time ≡ c.fwd_cache.last_expiration_time

  -- Every entry that is not stale at `now` has its counterpart, of the same age.
  pub record IsPaired (now : ℕ) (c : AcCache f i) : Type 0 where
    pub in_step : InStep c
    pub to_inv :
        (k : FwdKey) (e : Entry AcCacheEntry)
        → fwd c k ≡ some e
        → now ≤ e.created_time + c.fwd_cache.ttl
        → inv c e.value.icao_address ≡ some (inv_of k e.created_time)
    pub to_fwd :
        (a : ℕ) (e : Entry InvEntry)
        → inv c a ≡ some e
        → now ≤ e.created_time + c.fwd_cache.ttl
        → fwd c (key_of e.value) ≡ some (fwd_of a e.created_time)

  pub IsPaired-later :
      (now later : ℕ) (c : AcCache f i) → now ≤ later → IsPaired now c → IsPaired later c
  IsPaired-later now later c le p = record {
    in_step = p.in_step;
    to_inv = λ k e h live. p.to_inv k e h (omega arith);
    to_fwd = λ a e h live. p.to_fwd a e h (omega arith);
  }

  pub ac_cache_create-IsPaired :
      (ttl start now : ℕ) → IsPaired now (ac_cache_create f i ttl start start)
  unfolding ac_cache_create cache_create
  ac_cache_create-IsPaired ttl start now = record {
    in_step = record { same_ttl = refl; same_interval = refl; same_time = refl };
    to_inv = λ k e h live. absurd (ground (arith, f.lookup-new k));
    to_fwd = λ a e h live. absurd (ground (arith, i.lookup-new a));
  }

  pub fwd-expire_both :
      (c : AcCache f i) (t : ℕ) (k : FwdKey)
      → fwd (expire_both f i c t) k ≡ (
          if leb (c.fwd_cache.last_expiration_time + c.fwd_cache.expiration_interval) t
          then keep_unless (is_cache_entry_expired c.fwd_cache.ttl t) (fwd c k)
          else fwd c k)
  unfolding expire_both cache_expire
  fwd-expire_both c t k = ground (
    arith,
    f.lookup-foreach_remove c.fwd_cache.table (λ j e. is_cache_entry_expired c.fwd_cache.ttl t e) k,
  )

  inv-expire_both :
      (c : AcCache f i) (t a : ℕ)
      → inv (expire_both f i c t) a ≡ (
          if leb (c.inv_cache.last_expiration_time + c.inv_cache.expiration_interval) t
          then keep_unless (is_cache_entry_expired c.inv_cache.ttl t) (inv c a)
          else inv c a)
  unfolding expire_both cache_expire
  inv-expire_both c t a = ground (
    arith,
    i.lookup-foreach_remove c.inv_cache.table (λ j e. is_cache_entry_expired c.inv_cache.ttl t e) a,
  )

  pub ttl-expire_both :
      (c : AcCache f i) (t : ℕ) → (expire_both f i c t).fwd_cache.ttl ≡ c.fwd_cache.ttl
  unfolding expire_both cache_expire
  ttl-expire_both c t = ground arith

  expire_both-InStep : (c : AcCache f i) (t : ℕ) → InStep c → InStep (expire_both f i c t)
  unfolding expire_both cache_expire
  expire_both-InStep c t p = ground arith

  pub expire_both-IsPaired :
      (now t : ℕ) (c : AcCache f i) → IsPaired now c → IsPaired now (expire_both f i c t)
  expire_both-IsPaired now t c p = record {
    in_step = expire_both-InStep c t p.in_step;
    to_inv = λ k e h live. ground (
      arith,
      fwd-expire_both c t k,
      inv-expire_both c t e.value.icao_address,
      ttl-expire_both c t,
      p.to_inv k e,
      p.in_step,
    );
    to_fwd = λ a e h live. ground (
      arith,
      inv-expire_both c t a,
      fwd-expire_both c t (key_of e.value),
      ttl-expire_both c t,
      p.to_fwd a e,
      p.in_step,
    );
  }
