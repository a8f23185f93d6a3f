-- ===== src/AcCache/Slots.antt =====
-- The view that src/ac_cache.c gives of the channels: which aircraft holds which slot. A logon and
-- a logoff are described exactly, as functions of the view before.
use dumphfdl.Common.{
  ℕ, ◌+◌, ◌≤◌, ◌<◌, ◌≡◌, ◌∙◌, inl, inr, false, ◌==◌, Option, none, some, if◌then◌else◌, ltb, arith,
  Option-cases, Bool-cases, ap,
}
use dumphfdl.LaHash.{LaHash}
use dumphfdl.Cache.{Entry, cache_entry_lookup}
use dumphfdl.AcCache.{
  FwdKey, AcCacheEntry, InvEntry, AcCache, ac_cache_entry_perform_delete, expire_both, make_room,
  ac_cache_entry_create, ac_cache_entry_lookup,
}
use dumphfdl.AcCache.Pairing.{
  inv_of, fwd_of, key_of, fwd, IsPaired, IsPaired-later, expire_both-IsPaired, ttl-expire_both,
  fwd-expire_both,
}
use dumphfdl.AcCache.Delete.{
  perform_delete_cases, perform_delete-IsPaired, ttl-perform_delete, fwd-delete_both,
  ttl-delete_both,
}
use dumphfdl.AcCache.Create.{put_pair, fwd-put_pair, ttl-put_pair, found_cases}

-- The address that a forward entry shows at a time.
abbrev pub shown : ℕ → ℕ → Option (Entry AcCacheEntry) → Option ℕ
shown ttl t none = none
shown ttl t (some e) = if ltb (e.created_time + ttl) t then none else some e.value.icao_address

-- A slot after an aircraft has left.
abbrev pub without : ℕ → Option ℕ → Option ℕ
without a none = none
without a (some b) = if b == a then none else some b

module _ (f : LaHash FwdKey (Entry AcCacheEntry)) (i : LaHash ℕ (Entry InvEntry)) where
  abbrev pub slot : AcCache f i → ℕ → FwdKey → Option ℕ
  slot c t j = shown c.fwd_cache.ttl t (fwd f i c j)

  slot-expire_both :
      (c : AcCache f i) (t1 t : ℕ) (j : FwdKey)
      → t1 < t
      → slot (expire_both f i c t1) t j ≡ slot c t j
  slot-expire_both c t1 t j lt =
      ground (arith, fwd-expire_both f i c t1 j, ttl-expire_both f i c t1)

  slot-put_pair :
      (c : AcCache f i) (k : FwdKey) (a now t : ℕ) (j : FwdKey)
      → slot (put_pair f i c k a now) t j
        ≡ (if f.same k j then shown c.fwd_cache.ttl t (some (fwd_of a now)) else slot c t j)
  slot-put_pair c k a now t j =
      ground (arith, fwd-put_pair f i c k a now j, ttl-put_pair f i c k a now)

  pub slot-perform_delete :
      (now : ℕ) (c : AcCache f i) (freq a t : ℕ) (j : FwdKey)
      → IsPaired f i now c
      → now ≤ t
      → slot (ac_cache_entry_perform_delete f i c freq a false now).0 t j ≡ without a (slot c t j)
  slot-perform_delete now c freq a t j p le =
      elim (perform_delete_cases f i now c freq a p.in_step) [
        | inl (gone, e) ↦ rw e (elim (Option-cases (fwd f i c j)) [
          | inl absent ↦ ground arith
          | inr (x, h) ↦ ground (arith, p.to_inv j x, gone (inv_of j x.created_time))
        ])
        | inr (z, found, fresh, e) ↦ rw e (elim (Option-cases (fwd f i c j)) [
          | inl absent ↦
              ground (arith, fwd-delete_both f i c a z.value j, ttl-delete_both f i c a z.value)
          | inr (x, h) ↦ elim (Bool-cases (f.same (key_of z.value) j)) [
            | inl same ↦
                let there : fwd f i c (key_of z.value) ≡ fwd f i c j =
                  ap (λ s. fwd f i c s) ((f.same_iff (key_of z.value) j).0 same) in
                ground (
                  arith,
                  fwd-delete_both f i c a z.value j,
                  ttl-delete_both f i c a z.value,
                  p.to_fwd a z,
                )
            | inr other ↦ ground (
              arith,
              fwd-delete_both f i c a z.value j,
              ttl-delete_both f i c a z.value,
              p.to_inv j x,
              f.same_iff (key_of z.value) j,
            )
          ]
        ])
      ]

  -- No other slot shows the aircraft that a fresh slot shows.
  slot_unique :
      (now : ℕ) (c : AcCache f i) (k : FwdKey) (x : Entry AcCacheEntry) (t : ℕ) (j : FwdKey)
      → IsPaired f i now c
      → fwd f i c k ≡ some x
      → now ≤ x.created_time + c.fwd_cache.ttl
      → now ≤ t
      → f.same k j ≡ false
      → without x.value.icao_address (slot c t j) ≡ slot c t j
  slot_unique now c k x t j p h live le other = elim (Option-cases (fwd f i c j)) [
    | inl absent ↦ ground arith
    | inr (y, hy) ↦ ground (arith, p.to_inv j y, p.to_inv k x, f.same_iff k j)
  ]

  slot-make_room :
      (c : AcCache f i) (k : FwdKey) (a now2 now3 now4 t : ℕ) (j : FwdKey)
      → now2 ≤ now3
      → now3 ≤ now4
      → now4 ≤ t
      → IsPaired f i now2 c
      → f.same k j ≡ false
      → slot (make_room f i c k a (cache_entry_lookup f c.fwd_cache k now2) now3 now4) t j
        ≡ without a (slot c t j)
  unfolding make_room
  slot-make_room c k a now2 now3 now4 t j le23 le34 le4 p other = elim (found_cases f i c k now2) [
    | inl (nothing, g) ↦ rw nothing (
        slot-perform_delete now4 c k.freq a t j (IsPaired-later f i now2 now4 c (omega arith) p)
          le4)
    | inr (x, h, live, found) ↦
        let p3 = IsPaired-later f i now2 now3 c le23 p in
        let b = x.value.icao_address in
        let c' = (ac_cache_entry_perform_delete f i c k.freq b false now3).0 in
        let p4 =
          IsPaired-later f i now3 now4 c' le34 (perform_delete-IsPaired f i now3 c k.freq b p3) in
        rw found (
          slot-perform_delete now4 c' k.freq a t j p4 le4
          ∙ ap (without a) (
              slot-perform_delete now3 c k.freq b t j p3 (omega arith)
              ∙ slot_unique now2 c k x t j p h live (omega arith) other))
  ]

  ttl-make_room :
      (c : AcCache f i) (k : FwdKey) (a now2 now3 now4 : ℕ)
      → now2 ≤ now3
      → now3 ≤ now4
      → IsPaired f i now2 c
      → (make_room f i c k a (cache_entry_lookup f c.fwd_cache k now2) now3 now4).fwd_cache.ttl
        ≡ c.fwd_cache.ttl
  unfolding make_room
  ttl-make_room c k a now2 now3 now4 le23 le34 p = elim (found_cases f i c k now2) [
    | inl (nothing, g) ↦
        rw nothing
          (ttl-perform_delete f i now4 c k.freq a (IsPaired-later f i now2 now4 c (omega arith) p))
    | inr (x, h, live, found) ↦
        let p3 = IsPaired-later f i now2 now3 c le23 p in
        let b = x.value.icao_address in
        let c' = (ac_cache_entry_perform_delete f i c k.freq b false now3).0 in
        let p4 =
          IsPaired-later f i now3 now4 c' le34 (perform_delete-IsPaired f i now3 c k.freq b p3) in
        rw found
          (ttl-perform_delete f i now4 c' k.freq a p4 ∙ ttl-perform_delete f i now3 c k.freq b p3)
  ]

  -- A logon on paired caches, under a clock that does not go back, as seen at its end or later
  -- and in a later second than its first reading of the clock: the slot shows the aircraft until
  -- its time to live has passed, any other slot that showed this aircraft shows nothing, and no
  -- other slot changes.
  pub slot-ac_cache_entry_create :
      (c : AcCache f i) (k : FwdKey) (a now1 now2 now3 now4 now t : ℕ) (j : FwdKey)
      → now1 ≤ now2
      → now2 ≤ now3
      → now3 ≤ now4
      → now4 ≤ now
      → now ≤ t
      → now1 < t
      → IsPaired f i now1 c
      → slot (ac_cache_entry_create f i c k a now1 now2 now3 now4 now) t j ≡ (
          if f.same k j
          then (if ltb (now + c.fwd_cache.ttl) t then none else some a)
          else without a (slot c t j))
  unfolding ac_cache_entry_create ac_cache_entry_lookup
  slot-ac_cache_entry_create c k a now1 now2 now3 now4 now t j le12 le23 le34 le4 le lt p =
      let c1 = expire_both f i c now1 in
      let p2 = IsPaired-later f i now1 now2 c1 le12 (expire_both-IsPaired f i now1 now1 c p) in
      let found = cache_entry_lookup f c1.fwd_cache k now2 in
      let c2 = make_room f i c1 k a found now3 now4 in
      let put = slot-put_pair c2 k a now t j in
      let same_ttl =
        ttl-make_room c1 k a now2 now3 now4 le23 le34 p2 ∙ ttl-expire_both f i c now1 in
      elim (Bool-cases (f.same k j)) [
        | inl same ↦ ground (arith, put, same_ttl)
        | inr other ↦ ground (
          arith,
          put,
          slot-make_room c1 k a now2 now3 now4 t j le23 le34 (omega arith) p2 other,
          slot-expire_both c now1 t j lt,
        )
      ]
