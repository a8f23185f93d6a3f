-- ===== src/AcCache/Create.antt =====
-- ac_cache_entry_create keeps the caches paired: the slot and the aircraft are cleared first.
use dumphfdl.Common.{
  ℕ, ◌+◌, ◌≤◌, ◌≡◌, ◌⊎◌, inl, inr, refl, false, none, some, if◌then◌else◌, ltb, arith, Option-cases,
  Bool-cases, ap,
}
use dumphfdl.LaHash.{LaHash}
use dumphfdl.Cache.{Entry, cache_entry_create, cache_entry_lookup}
use dumphfdl.AcCache.{
  FwdKey, AcCacheEntry, InvEntry, AcCache, ac_cache_entry_perform_delete, ac_cache_fwd_entry_create,
  ac_cache_inv_entry_create, expire_both, make_room, ac_cache_entry_create, ac_cache_entry_lookup,
}
use dumphfdl.AcCache.Pairing.{
  inv_of, fwd_of, key_of, fwd, inv, InStep, IsPaired, IsPaired-later, expire_both-IsPaired,
}
use dumphfdl.AcCache.Delete.{
  Gone, GoneKey, perform_delete-IsPaired, perform_delete-Gone, perform_delete-GoneKey,
  perform_delete-GoneKey_of,
}

module _ (f : LaHash FwdKey (Entry AcCacheEntry)) (i : LaHash ℕ (Entry InvEntry)) where
  -- The last two calls of ac_cache_entry_create.
  abbrev pub put_pair : AcCache f i → FwdKey → ℕ → ℕ → AcCache f i
  put_pair c k a now =
      ac_cache_inv_entry_create f i (ac_cache_fwd_entry_create f i c k a now) k a now

  pub fwd-put_pair :
      (c : AcCache f i) (k : FwdKey) (a now : ℕ) (j : FwdKey)
      → fwd f i (put_pair c k a now) j ≡ (if f.same k j then some (fwd_of a now) else fwd f i c j)
  unfolding ac_cache_inv_entry_create ac_cache_fwd_entry_create cache_entry_create
  fwd-put_pair c k a now j = f.lookup-insert c.fwd_cache.table k (fwd_of a now) j

  pub inv-put_pair :
      (c : AcCache f i) (k : FwdKey) (a now : ℕ) (b : ℕ)
      → inv f i (put_pair c k a now) b ≡ (if i.same a b then some (inv_of k now) else inv f i c b)
  unfolding ac_cache_inv_entry_create ac_cache_fwd_entry_create cache_entry_create
  inv-put_pair c k a now b = i.lookup-insert c.inv_cache.table a (inv_of k now) b

  pub ttl-put_pair :
      (c : AcCache f i) (k : FwdKey) (a now : ℕ)
      → (put_pair c k a now).fwd_cache.ttl ≡ c.fwd_cache.ttl
  unfolding ac_cache_inv_entry_create ac_cache_fwd_entry_create cache_entry_create
  ttl-put_pair c k a now = refl

  put_pair-InStep :
      (c : AcCache f i) (k : FwdKey) (a now : ℕ) → InStep f i c → InStep f i (put_pair c k a now)
  unfolding ac_cache_inv_entry_create ac_cache_fwd_entry_create cache_entry_create
  put_pair-InStep c k a now p = ground arith

  put_pair-IsPaired :
      (now : ℕ) (c : AcCache f i) (k : FwdKey) (a : ℕ)
      → IsPaired f i now c
      → Gone f i now c a
      → GoneKey f i now c k
      → IsPaired f i now (put_pair c k a now)
  put_pair-IsPaired now c k a p gone gone_key = record {
    in_step = put_pair-InStep c k a now p.in_step;
    to_inv = λ j x h live. elim (Bool-cases (f.same k j)) [
      | inl same ↦
          let moved : inv_of k now ≡ inv_of j now =
            ap (λ s. inv_of s now) ((f.same_iff k j).0 same) in
          ground (
            arith,
            fwd-put_pair c k a now j,
            inv-put_pair c k a now x.value.icao_address,
            i.same_iff a x.value.icao_address,
          )
      | inr other ↦ ground (
        arith,
        fwd-put_pair c k a now j,
        inv-put_pair c k a now x.value.icao_address,
        ttl-put_pair c k a now,
        p.to_inv j x,
        gone (inv_of j x.created_time),
        i.same_iff a x.value.icao_address,
      )
    ];
    to_fwd = λ b x h live. ground (
      arith,
      inv-put_pair c k a now b,
      fwd-put_pair c k a now (key_of x.value),
      ttl-put_pair c k a now,
      p.to_fwd b x,
      gone_key (fwd_of b x.created_time),
      f.same_iff k (key_of x.value),
      i.same_iff a b,
    );
  }

  -- What cache_entry_lookup found, or the slot holds nothing fresh.
  pub found_cases :
      (c : AcCache f i) (k : FwdKey) (now : ℕ)
      → ((cache_entry_lookup f c.fwd_cache k now ≡ none) × GoneKey f i now c k)
        ⊎ ((x : Entry AcCacheEntry) × (fwd f i c k ≡ some x)
            × (now ≤ x.created_time + c.fwd_cache.ttl)
            × (cache_entry_lookup f c.fwd_cache k now ≡ some x.value))
  unfolding cache_entry_lookup
  found_cases c k now = elim (Option-cases (fwd f i c k)) [
    | inl absent ↦ inl (ground arith, λ e h. ground arith)
    | inr (e, found) ↦ elim (Bool-cases (ltb (e.created_time + c.fwd_cache.ttl) now)) [
      | inl old ↦ inl (ground arith, λ x h. ground arith)
      | inr fresh ↦ inr (e, found, ground arith, ground arith)
    ]
  ]

  -- After the two deletions neither the slot nor the address is in use.
  pub record IsClear (now : ℕ) (c : AcCache f i) (k : FwdKey) (a : ℕ) : Type 0 where
    pub paired : IsPaired f i now c
    pub gone : Gone f i now c a
    pub gone_key : GoneKey f i now c k

  IsClear-one :
      (c : AcCache f i) (k : FwdKey) (a now4 : ℕ)
      → IsPaired f i now4 c
      → GoneKey f i now4 c k
      → IsClear now4 (ac_cache_entry_perform_delete f i c k.freq a false now4).0 k a
  IsClear-one c k a now4 p g = record {
    paired = perform_delete-IsPaired f i now4 c k.freq a p;
    gone = perform_delete-Gone f i now4 c k.freq a p;
    gone_key = perform_delete-GoneKey_of f i now4 c k.freq a p k g;
  }

  pub make_room-IsClear :
      (c : AcCache f i) (k : FwdKey) (a now2 now3 now4 : ℕ)
      → now2 ≤ now3
      → now3 ≤ now4
      → IsPaired f i now2 c
      → IsClear now4 (make_room f i c k a (cache_entry_lookup f c.fwd_cache k now2) now3 now4) k a
  unfolding make_room
  make_room-IsClear c k a now2 now3 now4 le23 le34 p = elim (found_cases c k now2) [
    | inl (nothing, g) ↦ rw nothing (
        IsClear-one c k a now4 (IsPaired-later f i now2 now4 c (omega arith) p)
          (λ e h. omega (arith, g e h)))
    | inr (x, h, live, found) ↦
        let p3 = IsPaired-later f i now2 now3 c le23 p in
        let b = x.value.icao_address in
        let c' = (ac_cache_entry_perform_delete f i c k.freq b false now3).0 in
        rw found (
          IsClear-one c' k a now4
            (IsPaired-later f i now3 now4 c' le34 (perform_delete-IsPaired f i now3 c k.freq b p3))
            (λ e q. omega (arith, perform_delete-GoneKey f i now3 c k.freq b p3 k x h refl e q)))
  ]

  IsClear-later :
      (now later : ℕ) (c : AcCache f i) (k : FwdKey) (a : ℕ)
      → now ≤ later
      → IsClear now c k a
      → IsClear later c k a
  IsClear-later now later c k a le q = record {
    paired = IsPaired-later f i now later c le q.paired;
    gone = λ e h. omega (arith, q.gone e h);
    gone_key = λ e h. omega (arith, q.gone_key e h);
  }

  -- A logon keeps the caches paired: whatever the slot or the aircraft was bound to before, after
  -- it every fresh forward entry has its inverse entry and every fresh inverse entry has its
  -- forward entry, of the same age. The clock may advance between the calls, and may not go back.
  pub ac_cache_entry_create-IsPaired :
      (c : AcCache f i) (k : FwdKey) (a now1 now2 now3 now4 now : ℕ)
      → now1 ≤ now2
      → now2 ≤ now3
      → now3 ≤ now4
      → now4 ≤ now
      → IsPaired f i now1 c
      → IsPaired f i now (ac_cache_entry_create f i c k a now1 now2 now3 now4 now)
  unfolding ac_cache_entry_create ac_cache_entry_lookup
  ac_cache_entry_create-IsPaired c k a now1 now2 now3 now4 now le12 le23 le34 le4 p =
      let c1 = expire_both f i c now1 in
      let p1 = expire_both-IsPaired f i now1 now1 c p in
      let p2 = IsPaired-later f i now1 now2 c1 le12 p1 in
      let found = cache_entry_lookup f c1.fwd_cache k now2 in
      let c2 = make_room f i c1 k a found now3 now4 in
      let q =
        IsClear-later now4 now c2 k a le4 (make_room-IsClear c1 k a now2 now3 now4 le23 le34 p2) in
      put_pair-IsPaired now c2 k a q.paired q.gone q.gone_key
