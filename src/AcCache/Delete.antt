-- ===== src/AcCache/Delete.antt =====
-- ac_cache_entry_perform_delete keeps the caches paired and removes an aircraft from both.
use dumphfdl.Common.{
  ℕ, ◌+◌, ◌≤◌, ◌<◌, ◌≡◌, ◌⊎◌, inl, inr, refl, false, none, some, if◌then◌else◌, ltb, arith,
  Option-cases, Bool-cases,
}
use dumphfdl.LaHash.{LaHash}
use dumphfdl.Cache.{Entry, cache_entry_delete, cache_entry_lookup}
use dumphfdl.AcCache.{
  FwdKey, AcCacheEntry, InvEntry, AcCache, delete_both, ac_cache_entry_perform_delete,
}
use dumphfdl.AcCache.Pairing.{inv_of, key_of, fwd, inv, InStep, IsPaired}

module _ (f : LaHash FwdKey (Entry AcCacheEntry)) (i : LaHash ℕ (Entry InvEntry)) where
  -- Nothing that a lookup at `now` or later could return.
  abbrev pub Gone : ℕ → AcCache f i → ℕ → Type 0
  Gone now c a =
      (e : Entry InvEntry) → inv f i c a ≡ some e → e.created_time + c.fwd_cache.ttl < now

  abbrev pub GoneKey : ℕ → AcCache f i → FwdKey → Type 0
  GoneKey now c k =
      (e : Entry AcCacheEntry) → fwd f i c k ≡ some e → e.created_time + c.fwd_cache.ttl < now

  pub fwd-delete_both :
      (c : AcCache f i) (a : ℕ) (e : InvEntry) (k : FwdKey)
      → fwd f i (delete_both f i c a e).0 k ≡ (if f.same (key_of e) k then none else fwd f i c k)
  unfolding delete_both cache_entry_delete
  fwd-delete_both c a e k = f.lookup-remove c.fwd_cache.table (key_of e) k

  pub inv-delete_both :
      (c : AcCache f i) (a : ℕ) (e : InvEntry) (a' : ℕ)
      → inv f i (delete_both f i c a e).0 a' ≡ (if i.same a a' then none else inv f i c a')
  unfolding delete_both cache_entry_delete
  inv-delete_both c a e a' = i.lookup-remove c.inv_cache.table a a'

  pub ttl-delete_both :
      (c : AcCache f i) (a : ℕ) (e : InvEntry)
      → (delete_both f i c a e).0.fwd_cache.ttl ≡ c.fwd_cache.ttl
  unfolding delete_both cache_entry_delete
  ttl-delete_both c a e = refl

  delete_both-InStep :
      (c : AcCache f i) (a : ℕ) (e : InvEntry) → InStep f i c → InStep f i (delete_both f i c a e).0
  unfolding delete_both cache_entry_delete
  delete_both-InStep c a e p = ground arith

  pub delete_both-IsPaired :
      (now : ℕ) (c : AcCache f i) (a : ℕ) (e : Entry InvEntry)
      → IsPaired f i now c
      → inv f i c a ≡ some e
      → now ≤ e.created_time + c.fwd_cache.ttl
      → IsPaired f i now (delete_both f i c a e.value).0
  delete_both-IsPaired now c a e p found fresh = record {
    in_step = delete_both-InStep c a e.value p.in_step;
    to_inv = λ k x h live. ground (
      arith,
      fwd-delete_both c a e.value k,
      inv-delete_both c a e.value x.value.icao_address,
      ttl-delete_both c a e.value,
      p.to_inv k x,
      f.same_iff (key_of e.value) k,
      i.same_iff a x.value.icao_address,
    );
    to_fwd = λ a' x h live. ground (
      arith,
      fwd-delete_both c a e.value (key_of x.value),
      inv-delete_both c a e.value a',
      ttl-delete_both c a e.value,
      p.to_fwd a' x,
      p.to_fwd a e,
      f.same_iff (key_of e.value) (key_of x.value),
      i.same_iff a a',
    );
  }

  -- An unchecked deletion finds nothing that is fresh, or removes what it finds from both caches.
  pub perform_delete_cases :
      (now : ℕ) (c : AcCache f i) (freq a : ℕ)
      → InStep f i c
      → (Gone now c a × (ac_cache_entry_perform_delete f i c freq a false now ≡ (c, false)))
        ⊎ ((e : Entry InvEntry) × (inv f i c a ≡ some e)
            × (now ≤ e.created_time + c.fwd_cache.ttl)
            × (ac_cache_entry_perform_delete f i c freq a false now ≡ delete_both f i c a e.value))
  unfolding ac_cache_entry_perform_delete cache_entry_lookup
  perform_delete_cases now c freq a s = elim (Option-cases (inv f i c a)) [
    | inl absent ↦ inl (λ e h. ground arith, ground arith)
    | inr (e, found) ↦ elim (Bool-cases (ltb (e.created_time + c.inv_cache.ttl) now)) [
      | inl old ↦ inl (λ x h. ground (arith, s.same_ttl), ground arith)
      | inr fresh ↦ inr (e, found, ground (arith, s.same_ttl), ground arith)
    ]
  ]

  module _ (now : ℕ) (c : AcCache f i) (freq a : ℕ) (p : IsPaired f i now c) where
    pub perform_delete-IsPaired :
        IsPaired f i now (ac_cache_entry_perform_delete f i c freq a false now).0
    perform_delete-IsPaired = elim (perform_delete_cases now c freq a p.in_step) [
      | inl (_, e) ↦ rw e p
      | inr (x, found, fresh, e) ↦ rw e (delete_both-IsPaired now c a x p found fresh)
    ]

    pub ttl-perform_delete :
        (ac_cache_entry_perform_delete f i c freq a false now).0.fwd_cache.ttl ≡ c.fwd_cache.ttl
    ttl-perform_delete = elim (perform_delete_cases now c freq a p.in_step) [
      | inl (_, e) ↦ rw e
      | inr (x, found, fresh, e) ↦ rw e (ttl-delete_both c a x.value)
    ]

    -- The address is gone from the inverse cache.
    pub perform_delete-Gone : Gone now (ac_cache_entry_perform_delete f i c freq a false now).0 a
    perform_delete-Gone = elim (perform_delete_cases now c freq a p.in_step) [
      | inl (gone, e) ↦ rw e gone
      | inr (x, found, fresh, e) ↦
          rw e (λ y h. ground (arith, inv-delete_both c a x.value a, i.same_iff a a))
    ]

    -- What was gone stays gone.
    pub perform_delete-GoneKey_of :
        (k : FwdKey)
        → GoneKey now c k
        → GoneKey now (ac_cache_entry_perform_delete f i c freq a false now).0 k
    perform_delete-GoneKey_of k g = elim (perform_delete_cases now c freq a p.in_step) [
      | inl (gone, e) ↦ rw e g
      | inr (x, found, fresh, e) ↦
          rw e
            (λ y h. ground (arith, fwd-delete_both c a x.value k, ttl-delete_both c a x.value, g y))
    ]

    -- The slot that the address had is gone from the forward cache.
    pub perform_delete-GoneKey :
        (k : FwdKey) (x : Entry AcCacheEntry)
        → fwd f i c k ≡ some x
        → x.value.icao_address ≡ a
        → GoneKey now (ac_cache_entry_perform_delete f i c freq a false now).0 k
    perform_delete-GoneKey k x h same = elim (perform_delete_cases now c freq a p.in_step) [
      | inl (gone, e) ↦ rw e (λ y hy. ground (arith, p.to_inv k x, gone (inv_of k x.created_time)))
      | inr (z, found, fresh, e) ↦ rw e (λ y hy. ground (
        arith,
        p.to_inv k x,
        fwd-delete_both c a z.value k,
        ttl-delete_both c a z.value,
        f.same_iff (key_of z.value) k,
      ))
    ]
