-- ===== src/Tests/Instance.antt =====
-- The parts put together for a run: la_hash as an association list, and the services as the
-- aircraft cache and the store of system table PDUs, at a fixed time. ACARS is not parsed.
use dumphfdl.Common.{ℕ, false, Option, none, some}
use dumphfdl.LaHash.{LaHash}
use dumphfdl.LaHash.Assoc.{assoc}
use dumphfdl.Cache.{Entry}
use dumphfdl.AcCache.{
  FwdKey, AcCacheEntry, InvEntry, ac_cache_fwd_key_compare, ac_cache_fwd_key_compare_iff,
  ac_cache_inv_key_compare, AcCache, ac_cache_create, ac_cache_entry_create, ac_cache_entry_delete,
}
use dumphfdl.Common.{==_iff}
use dumphfdl.Pdu.{Config}
use dumphfdl.Services.{Services}
use dumphfdl.Systable.{PduSet, Decoded, systable_store_pdu, reassemble, systable_decode}

abbrev pub fwd_hash : LaHash FwdKey (Entry AcCacheEntry)
fwd_hash = assoc ac_cache_fwd_key_compare ac_cache_fwd_key_compare_iff

abbrev pub inv_hash : LaHash ℕ (Entry InvEntry)
inv_hash = assoc ac_cache_inv_key_compare ==_iff

abbrev pub World : Type 0
World = AcCache fwd_hash inv_hash × Option PduSet

-- A set that is complete is decoded and forgotten.
unfoldable pub process : World → World × Option Decoded
unfolding reassemble systable_decode
process w = elim (reassemble w.1) [
  | none ↦ (w, none)
  | some message ↦ ((w.0, none), systable_decode message)
]

abbrev pub services : Services
services = record {
  World = World;
  SystableMsg = Decoded;
  AcarsMsg = Unit {0};
  ac_cache_entry_create = λ w freq id icao_address. (
    ac_cache_entry_create fwd_hash inv_hash w.0 (record { freq = freq; id = id }) icao_address 100
        100 100 100 100,
    w.1,
  );
  ac_cache_entry_delete = λ w freq icao_address.
      ((ac_cache_entry_delete fwd_hash inv_hash w.0 freq icao_address 100).0, w.1);
  systable_store_pdu = λ w version idx pdu_set_len contents.
      (w.0, systable_store_pdu w.1 version idx pdu_set_len contents);
  systable_process_pdu_set = process;
  la_acars_parse_and_reassemble = λ w bytes direction. (w, none);
}

abbrev pub empty_world : World
empty_world = (ac_cache_create fwd_hash inv_hash 14400 0 0, none)

abbrev pub config : Config
config = record { output_mpdus = false; output_corrupted_pdus = false }
