-- ===== src/Tests/Caches.antt =====
-- Runs of the caches.
use dumphfdl.Common.{
  inl, ℕ, ◌+◌, ◌≡◌, none, some, List, [], ◌∷◌, ◌==◌, ==_iff, ltb, if◌then◌else◌, arith,
}
use dumphfdl.LaHash.{LaHash}
use dumphfdl.LaHash.Assoc.{assoc}
use dumphfdl.Cache.{Entry, cache_create, cache_entry_lookup, fresh_value}
use dumphfdl.Cache.History.{Call, create, delete, expire, run, latest, lookup-run}
use dumphfdl.AcCache.{
  FwdKey, AcCache, ac_cache_create, ac_cache_entry_create, ac_cache_entry_delete,
}
use dumphfdl.AcCache.Pairing.{IsPaired, ac_cache_create-IsPaired}
use dumphfdl.AcCache.Create.{ac_cache_entry_create-IsPaired}
use dumphfdl.AcCache.Slots.{slot, without, slot-ac_cache_entry_create}
use dumphfdl.AcCache.Logoff.{slot-ac_cache_entry_delete}
use dumphfdl.Tests.Instance.{fwd_hash, inv_hash}

abbrev numbers : LaHash ℕ (Entry ℕ)
numbers = assoc (λ a b. a == b) ==_iff

abbrev calls : List (Call ℕ ℕ)
calls = create 3 8 50 ∷ expire 40 ∷ delete 3 ∷ create 3 7 10 ∷ []

lookup-run_example :
    cache_entry_lookup numbers (run numbers (cache_create numbers 60 30 0) calls) 3 100
    ≡ fresh_value 60 100 (latest numbers calls 3)
lookup-run_example = lookup-run numbers 60 30 0 100 calls 3 (omega arith, _) (inl (omega arith, _))

abbrev slot_a : FwdKey
slot_a = record { freq = 11384000; id = 7 }

abbrev slot_b : FwdKey
slot_b = record { freq = 11384000; id = 9 }

abbrev empty : AcCache fwd_hash inv_hash
empty = ac_cache_create fwd_hash inv_hash 14400 0 0

abbrev logged_on : AcCache fwd_hash inv_hash
logged_on = ac_cache_entry_create fwd_hash inv_hash empty slot_a 0x4b1234 10 10 10 10 10

empty-IsPaired : IsPaired fwd_hash inv_hash 10 empty
empty-IsPaired = ac_cache_create-IsPaired fwd_hash inv_hash 14400 0 10

ac_cache_entry_create-IsPaired_example : IsPaired fwd_hash inv_hash 10 logged_on
ac_cache_entry_create-IsPaired_example =
    ac_cache_entry_create-IsPaired fwd_hash inv_hash empty slot_a 0x4b1234 10 10 10 10 10
      (omega arith) (omega arith) (omega arith) (omega arith) empty-IsPaired

paired : IsPaired fwd_hash inv_hash 10 logged_on
paired =
    ac_cache_entry_create-IsPaired fwd_hash inv_hash empty slot_a 0x4b1234 10 10 10 10 10
      (omega arith) (omega arith) (omega arith) (omega arith) empty-IsPaired

-- The aircraft moves to another slot of the channel.
slot-ac_cache_entry_create_example :
    slot fwd_hash inv_hash
      (ac_cache_entry_create fwd_hash inv_hash logged_on slot_b 0x4b1234 10 10 11 11 12)
      400
      slot_a
    ≡ (if fwd_hash.same slot_b slot_a
        then (if ltb (12 + logged_on.fwd_cache.ttl) 400 then none else some 0x4b1234)
        else without 0x4b1234 (slot fwd_hash inv_hash logged_on 400 slot_a))
slot-ac_cache_entry_create_example =
    slot-ac_cache_entry_create fwd_hash inv_hash logged_on slot_b 0x4b1234 10 10 11 11 12 400 slot_a
      (omega arith) (omega arith) (omega arith) (omega arith) (omega arith) (omega arith) paired

slot-ac_cache_entry_delete_example :
    slot fwd_hash inv_hash
      (ac_cache_entry_delete fwd_hash inv_hash logged_on 11384000 0x4b1234 10).0
      20
      slot_a
    ≡ (if slot_a.freq == 11384000
        then without 0x4b1234 (slot fwd_hash inv_hash logged_on 20 slot_a)
        else slot fwd_hash inv_hash logged_on 20 slot_a)
slot-ac_cache_entry_delete_example =
    slot-ac_cache_entry_delete fwd_hash inv_hash logged_on 11384000 0x4b1234 10 20 slot_a
      (omega arith) paired
