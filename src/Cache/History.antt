-- ===== src/Cache/History.antt =====
-- Sequences of calls into src/cache.c, against a map that forgets nothing by itself.
use dumphfdl.Common.{
  ℕ, ◌+◌, ◌≤◌, ◌<◌, ◌≡◌, ◌≢◌, ◌⊎◌, inl, inr, Option-cases, Bool-cases, Option, none, some,
  if◌then◌else◌, arith, refl, List, [], ◌∷◌,
}
use dumphfdl.LaHash.{LaHash}
use dumphfdl.Cache.{
  Entry, Cache, cache_create, cache_entry_create, cache_entry_delete, cache_expire,
  cache_entry_lookup, fresh_value, is_cache_entry_expired,
}

pub data Call (K V : Type 0) : Type 0 where
  create : K → V → ℕ → Call K V
  delete : K → Call K V
  expire : ℕ → Call K V

module _ {K V : Type 0} (h : LaHash K (Entry V)) where
  unfoldable pub step : Cache h → Call K V → Cache h
  step c (create k v t) = (cache_entry_create h c k v t).0
  step c (delete k) = (cache_entry_delete h c k).0
  step c (expire now) = (cache_expire h c now).0

  -- The latest call first.
  unfoldable pub run : Cache h → List (Call K V) → Cache h
  unfolding step
  run c [] = c
  run c (call ∷ calls) = step (run c calls) call

  -- The entry that the calls leave under a key when nothing expires.
  unfoldable pub latest : List (Call K V) → K → Option (Entry V)
  latest [] j = none
  latest (create k v t ∷ calls) j =
      if h.same k j then some (record { created_time = t; value = v }) else latest calls j
  latest (delete k ∷ calls) j = if h.same k j then none else latest calls j
  latest (expire now ∷ calls) j = latest calls j

  -- Every expiration so far happened before `now`.
  abbrev pub ExpiredBefore : ℕ → List (Call K V) → Type 0
  ExpiredBefore now [] = Unit
  ExpiredBefore now (expire t ∷ calls) = (t < now) × ExpiredBefore now calls
  ExpiredBefore now (call ∷ calls) = ExpiredBefore now calls

  ttl-step : (c : Cache h) (call : Call K V) → (step c call).ttl ≡ c.ttl
  unfolding step cache_entry_create cache_entry_delete cache_expire
  ttl-step c (create k v t) = refl
  ttl-step c (delete k) = refl
  ttl-step c (expire now) = ground arith

  ttl-run : (c : Cache h) (calls : List (Call K V)) → (run c calls).ttl ≡ c.ttl
  unfolding run
  ttl-run c [] = refl
  ttl-run c (call ∷ calls) = ground (arith, ttl-step (run c calls) call, ttl-run c calls)

  -- An expiration before `now` removes nothing that a lookup at `now` would return.
  lookup-cache_expire :
      (c : Cache h) (t now : ℕ) (k : K)
      → t < now
      → cache_entry_lookup h (cache_expire h c t).0 k now ≡ cache_entry_lookup h c k now
  unfolding cache_entry_lookup cache_expire
  lookup-cache_expire c t now k lt =
      ground (arith, h.lookup-foreach_remove c.table (λ k e. is_cache_entry_expired c.ttl t e) k)

  lookup-cache_entry_create :
      (c : Cache h) (j : K) (v : V) (t : ℕ) (k : K) (now : ℕ)
      → cache_entry_lookup h (cache_entry_create h c j v t).0 k now ≡ (
          if h.same j k
          then fresh_value c.ttl now (some (record { created_time = t; value = v }))
          else cache_entry_lookup h c k now)
  unfolding cache_entry_lookup cache_entry_create
  lookup-cache_entry_create c j v t k now =
      ground (arith, h.lookup-insert c.table j (record { created_time = t; value = v }) k)

  lookup-cache_entry_delete :
      (c : Cache h) (j k : K) (now : ℕ)
      → cache_entry_lookup h (cache_entry_delete h c j).0 k now
        ≡ (if h.same j k then none else cache_entry_lookup h c k now)
  unfolding cache_entry_lookup cache_entry_delete
  lookup-cache_entry_delete c j k now = ground (arith, h.lookup-remove c.table j k)

  lookup-cache_create :
      (ttl interval start now : ℕ) (k : K)
      → cache_entry_lookup h (cache_create h ttl interval start) k now ≡ none
  unfolding cache_entry_lookup cache_create
  lookup-cache_create ttl interval start now k = ground (arith, h.lookup-new k)

  -- Expirations in earlier seconds than a lookup make no difference to it.
  lookup-run_before :
      (ttl interval start now : ℕ) (calls : List (Call K V)) (k : K)
      → ExpiredBefore now calls
      → cache_entry_lookup h (run (cache_create h ttl interval start) calls) k now
        ≡ fresh_value ttl now (latest calls k)
  unfolding run latest cache_create
  lookup-run_before ttl interval start now [] k p = lookup-cache_create ttl interval start now k
  lookup-run_before ttl interval start now (create j v t ∷ calls) k p = ground (
    arith,
    lookup-cache_entry_create (run (cache_create h ttl interval start) calls) j v t k now,
    ttl-run (cache_create h ttl interval start) calls,
    lookup-run_before ttl interval start now calls k p,
  )
  lookup-run_before ttl interval start now (delete j ∷ calls) k p = ground (
    arith,
    lookup-cache_entry_delete (run (cache_create h ttl interval start) calls) j k now,
    lookup-run_before ttl interval start now calls k p,
  )
  lookup-run_before ttl interval start now (expire t ∷ calls) k p =
      rw (lookup-cache_expire (run (cache_create h ttl interval start) calls) t now k p.0)
        (lookup-run_before ttl interval start now calls k p.1)

  -- Every expiration so far happened at `now` or before.
  abbrev pub ExpiredBy : ℕ → List (Call K V) → Type 0
  ExpiredBy now [] = Unit
  ExpiredBy now (expire t ∷ calls) = (t ≤ now) × ExpiredBy now calls
  ExpiredBy now (call ∷ calls) = ExpiredBy now calls

  -- An entry is not exactly as old as the time to live.
  abbrev pub OffEdge : ℕ → ℕ → Option (Entry V) → Type 0
  OffEdge ttl now none = Unit
  OffEdge ttl now (some e) = e.created_time + ttl ≢ now

  -- The table has no other entry under a key than the latest one.
  table-latest :
      (c : Cache h) (calls : List (Call K V)) (k : K) (e : Entry V)
      → h.lookup c.table k ≡ none
      → h.lookup (run c calls).table k ≡ some e
      → latest calls k ≡ some e
  unfolding run step latest cache_entry_create cache_entry_delete cache_expire
  table-latest c [] k e new there = absurd (ground (arith, new, there))
  table-latest c (create j v t ∷ calls) k e new there = ground (
    arith,
    there,
    table-latest c calls k e new,
    h.lookup-insert (run c calls).table j (record { created_time = t; value = v }) k,
  )
  table-latest c (delete j ∷ calls) k e new there =
      ground (arith, there, table-latest c calls k e new, h.lookup-remove (run c calls).table j k)
  table-latest c (expire t ∷ calls) k e new there = ground (
    arith,
    there,
    table-latest c calls k e new,
    h.lookup-foreach_remove (run c calls).table
        (λ k e. is_cache_entry_expired (run c calls).ttl t e) k,
  )

  lookup-cache_expire_by :
      (c : Cache h) (t now : ℕ) (k : K)
      → t ≤ now
      → OffEdge c.ttl now (h.lookup c.table k)
      → cache_entry_lookup h (cache_expire h c t).0 k now ≡ cache_entry_lookup h c k now
  unfolding cache_entry_lookup cache_expire
  lookup-cache_expire_by c t now k le off =
      let kept = h.lookup-foreach_remove c.table (λ k e. is_cache_entry_expired c.ttl t e) k in
      elim (Option-cases (h.lookup c.table k)) [
        | inl missing ↦ ground (arith, missing, kept)
        | inr (e, there) ↦
            let apart : e.created_time + c.ttl ≢ now = rw there at off in
            ground (arith, there, kept, apart, le)
      ]

  off_table :
      (ttl interval start now : ℕ) (calls : List (Call K V)) (k : K)
      → OffEdge ttl now (latest calls k)
      → OffEdge
          (run (cache_create h ttl interval start) calls).ttl
          now
          (h.lookup (run (cache_create h ttl interval start) calls).table k)
  unfolding cache_create
  off_table ttl interval start now calls k off =
      let c = cache_create h ttl interval start in
      elim (Option-cases (h.lookup (run c calls).table k)) [
        | inl missing ↦ rw missing _
        | inr (e, there) ↦
            let last = table-latest c calls k e (h.lookup-new k) there in
            let apart : e.created_time + ttl ≢ now = rw last at off in
            rw (there, ttl-run c calls) apart
      ]

  lookup-run_off :
      (ttl interval start now : ℕ) (calls : List (Call K V)) (k : K)
      → ExpiredBy now calls
      → OffEdge ttl now (latest calls k)
      → cache_entry_lookup h (run (cache_create h ttl interval start) calls) k now
        ≡ fresh_value ttl now (latest calls k)
  unfolding run latest cache_create
  lookup-run_off ttl interval start now [] k p off = lookup-cache_create ttl interval start now k
  lookup-run_off ttl interval start now (create j v t ∷ calls) k p off =
      let c = run (cache_create h ttl interval start) calls in
      let created = lookup-cache_entry_create c j v t k now in
      elim (Bool-cases (h.same j k)) [
        | inl is ↦ ground (arith, created, is, ttl-run (cache_create h ttl interval start) calls)
        | inr other ↦ ground (
          arith,
          created,
          other,
          lookup-run_off ttl interval start now calls k p (rw other at off),
        )
      ]
  lookup-run_off ttl interval start now (delete j ∷ calls) k p off =
      let c = run (cache_create h ttl interval start) calls in
      let deleted = lookup-cache_entry_delete c j k now in
      elim (Bool-cases (h.same j k)) [
        | inl is ↦ ground (arith, deleted, is)
        | inr other ↦ ground (
          arith,
          deleted,
          other,
          lookup-run_off ttl interval start now calls k p (rw other at off),
        )
      ]
  lookup-run_off ttl interval start now (expire t ∷ calls) k p off =
      rw
        (lookup-cache_expire_by (run (cache_create h ttl interval start) calls) t now k p.0
          (off_table ttl interval start now calls k off))
        (lookup-run_off ttl interval start now calls k p.1 off)

  -- A lookup after any sequence of calls on a new cache returns the value last stored under the key,
  -- unless it was deleted since or is older than the time to live. Expirations make no difference,
  -- if none has a later time than the lookup, and either all have an earlier one, or the value is
  -- not exactly as old as the time to live. At that age an expiration in the same second removes an
  -- entry that the lookup would still have returned.
  pub lookup-run :
      (ttl interval start now : ℕ) (calls : List (Call K V)) (k : K)
      → ExpiredBy now calls
      → ExpiredBefore now calls ⊎ OffEdge ttl now (latest calls k)
      → cache_entry_lookup h (run (cache_create h ttl interval start) calls) k now
        ≡ fresh_value ttl now (latest calls k)
  lookup-run ttl interval start now calls k p (inl before) =
      lookup-run_before ttl interval start now calls k before
  lookup-run ttl interval start now calls k p (inr off) =
      lookup-run_off ttl interval start now calls k p off
