-- ===== src/AcCache/Logoff.antt =====
-- ac_cache_entry_delete, which deletes only on the frequency that the aircraft is logged on to.
use dumphfdl.Common.{
  ℕ, ◌+◌, ◌≤◌, ◌≡◌, ◌∙◌, sym, ◌≢◌, ◌⊎◌, inl, inr, true, false, ◌==◌, some, if◌then◌else◌, ltb,
  arith, Option-cases, Bool-cases,
}
use dumphfdl.LaHash.{LaHash}
use dumphfdl.Cache.{Entry, cache_entry_lookup, cache_entry_delete}
use dumphfdl.AcCache.{
  FwdKey, AcCacheEntry, InvEntry, AcCache, ac_cache_entry_perform_delete, delete_both,
  ac_cache_entry_delete,
}
use dumphfdl.AcCache.Pairing.{inv_of, key_of, fwd, inv, InStep, IsPaired}
use dumphfdl.AcCache.Delete.{Gone, perform_delete-IsPaired}
use dumphfdl.AcCache.Slots.{slot, without, slot-perform_delete}

module _ (f : LaHash FwdKey (Entry AcCacheEntry)) (i : LaHash ℕ (Entry InvEntry)) where
  -- A checked deletion finds nothing, or a slot on another frequency, or acts as an unchecked one.
  delete_cases :
      (now : ℕ) (c : AcCache f i) (freq a : ℕ)
      → InStep f i c
      → (Gone f i now c a × (ac_cache_entry_delete f i c freq a now ≡ (c, false)))
        ⊎ ((e : Entry InvEntry) × (inv f i c a ≡ some e)
            × (now ≤ e.created_time + c.fwd_cache.ttl)
            × ((e.value.freq == freq) ≡ false)
            × (ac_cache_entry_delete f i c freq a now ≡ (c, false)))
        ⊎ ((e : Entry InvEntry) × (inv f i c a ≡ some e)
            × (now ≤ e.created_time + c.fwd_cache.ttl)
            × ((e.value.freq == freq) ≡ true)
            × (ac_cache_entry_delete f i c freq a now ≡ delete_both f i c a e.value)
            × (ac_cache_entry_perform_delete f i c freq a false now ≡ delete_both f i c a e.value))
  unfolding ac_cache_entry_delete ac_cache_entry_perform_delete cache_entry_lookup
  delete_cases now c freq a s = elim (Option-cases (inv f i c a)) [
    | inl absent ↦ inl (λ e h. ground arith, ground arith)
    | inr (e, found) ↦ elim (Bool-cases (ltb (e.created_time + c.inv_cache.ttl) now)) [
      | inl old ↦ inl (λ x h. ground (arith, s.same_ttl), ground arith)
      | inr fresh ↦ elim (Bool-cases (e.value.freq == freq)) [
        | inl same ↦ inr (
            inr (
              e,
              found,
              ground (arith, s.same_ttl),
              same,
              ground (arith, s.same_ttl),
              ground (arith, s.same_ttl),
            ))
        | inr other ↦
            inr (inl (e, found, ground (arith, s.same_ttl), other, ground (arith, s.same_ttl)))
      ]
    ]
  ]

  delete_both_done :
      (now : ℕ) (c : AcCache f i) (a : ℕ) (e : Entry InvEntry)
      → IsPaired f i now c
      → inv f i c a ≡ some e
      → now ≤ e.created_time + c.fwd_cache.ttl
      → (delete_both f i c a e.value).1 ≡ true
  unfolding delete_both cache_entry_delete
  delete_both_done now c a e p found live = ground (
    arith,
    i.remove_found c.inv_cache.table a,
    f.remove_found c.fwd_cache.table (key_of e.value),
    p.to_fwd a e,
  )

  -- A slot on another frequency than that of the aircraft's inverse entry does not show it.
  elsewhere :
      (now : ℕ) (c : AcCache f i) (a t : ℕ) (j : FwdKey)
      → IsPaired f i now c
      → now ≤ t
      → ((e : Entry InvEntry) → inv f i c a ≡ some e → e.value.freq ≢ j.freq)
      → without a (slot f i c t j) ≡ slot f i c t j
  elsewhere now c a t j p le away = elim (Option-cases (fwd f i c j)) [
    | inl absent ↦ ground arith
    | inr (x, h) ↦ ground (arith, p.to_inv j x, away (inv_of j x.created_time))
  ]

  Gone-everywhere :
      (now : ℕ) (c : AcCache f i) (a t : ℕ) (j : FwdKey)
      → IsPaired f i now c
      → now ≤ t
      → Gone f i now c a
      → without a (slot f i c t j) ≡ slot f i c t j
  Gone-everywhere now c a t j p le gone = elim (Option-cases (fwd f i c j)) [
    | inl absent ↦ ground arith
    | inr (x, h) ↦ ground (arith, p.to_inv j x, gone (inv_of j x.created_time))
  ]

  -- A logoff keeps the caches paired: afterwards too, every fresh entry of one has its counterpart
  -- of the same age in the other.
  pub ac_cache_entry_delete-IsPaired :
      (c : AcCache f i) (freq a now : ℕ)
      → IsPaired f i now c
      → IsPaired f i now (ac_cache_entry_delete f i c freq a now).0
  ac_cache_entry_delete-IsPaired c freq a now p = elim (delete_cases now c freq a p.in_step) [
    | inl (gone, e) ↦ rw e p
    | inr (inl (x, found, live, other, e)) ↦ rw e p
    | inr (inr (x, found, live, same, e, e')) ↦
        rw (e, ← e') (perform_delete-IsPaired f i now c freq a p)
  ]

  -- A logoff on paired caches, as seen from then on: the aircraft leaves the slot that showed it on this frequency;
  -- a slot on another frequency, or that shows another aircraft, does not change.
  pub slot-ac_cache_entry_delete :
      (c : AcCache f i) (freq a now t : ℕ) (j : FwdKey)
      → now ≤ t
      → IsPaired f i now c
      → slot f i (ac_cache_entry_delete f i c freq a now).0 t j
        ≡ (if j.freq == freq then without a (slot f i c t j) else slot f i c t j)
  slot-ac_cache_entry_delete c freq a now t j le p = elim (delete_cases now c freq a p.in_step) [
    | inl (gone, e) ↦ rw e (ground (arith, Gone-everywhere now c a t j p le gone))
    | inr (inl (x, found, live, other, e)) ↦ rw e (elim (Bool-cases (j.freq == freq)) [
      | inl here ↦ rw here (sym (elsewhere now c a t j p le (λ y hy. ground arith)))
      | inr there ↦ rw there
    ])
    | inr (inr (x, found, live, same, e, e')) ↦
        rw (e, ← e')
          (slot-perform_delete f i now c freq a t j p le ∙ elim (Bool-cases (j.freq == freq)) [
            | inl here ↦ rw here
            | inr there ↦ rw there (elsewhere now c a t j p le (λ y hy. ground arith))
          ])
  ]

  -- On paired caches, the result tells whether anything was deleted: false with the caches left as they were, or
  -- true, and then some slot on this frequency showed the aircraft.
  pub ac_cache_entry_delete_result :
      (c : AcCache f i) (freq a now : ℕ)
      → IsPaired f i now c
      → (ac_cache_entry_delete f i c freq a now ≡ (c, false))
        ⊎ (((ac_cache_entry_delete f i c freq a now).1 ≡ true)
            × ((id : ℕ) × (slot f i c now (record { freq = freq; id = id }) ≡ some a)))
  ac_cache_entry_delete_result c freq a now p = elim (delete_cases now c freq a p.in_step) [
    | inl (gone, e) ↦ inl e
    | inr (inl (x, found, live, other, e)) ↦ inl e
    | inr (inr (x, found, live, same, e, e')) ↦
        inr (
          rw e (delete_both_done now c a x p found live),
          (x.value.id, ground (arith, p.to_fwd a x)),
        )
  ]
