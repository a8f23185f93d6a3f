-- ===== src/Services.antt =====
-- What the LPDU and HFNPDU parsers call besides one another, as one parameter: the aircraft cache
-- (src/ac_cache.c, src/globals.c), the system table (src/systable.c), each under its lock, and the
-- ACARS parser of libacars, with its reassembly context and the time of reception. A call may
-- change the world; what it is made of is left open.
use dumphfdl.Common.{ℕ, Option, List}
use dumphfdl.Pdu.{Direction}

pub record Services : Type 1 where
  pub World : Type 0
  pub SystableMsg : Type 0
  pub AcarsMsg : Type 0
  -- freq, id, icao_address
  pub ac_cache_entry_create : World → ℕ → ℕ → ℕ → World
  -- freq, icao_address
  pub ac_cache_entry_delete : World → ℕ → ℕ → World
  -- version, idx, pdu_set_len, contents
  pub systable_store_pdu : World → ℕ → ℕ → ℕ → List ℕ → World
  pub systable_process_pdu_set : World → World × Option SystableMsg
  pub la_acars_parse_and_reassemble : World → List ℕ → Direction → World × Option AcarsMsg
