-- ===== src/Systable/Process.antt =====
-- systable_process_pdu_set of src/systable.c: what becomes of the stored PDUs and the current table.
use dumphfdl.Common.{
  ℕ, Bool, true, false, ◌&&◌, ◌||◌, not, Option, none, some, ◌>>=◌, List, if◌then◌else◌,
}
use dumphfdl.Util.{plus}
use dumphfdl.Systable.{Decoded, PduSet, reassemble, systable_decode, systable_is_newer}
use dumphfdl.Systable.Stations.{
  Libconfig, SystableErrCode, Cached, cached, failed, systable_populate_stations_cache,
}
use dumphfdl.Systable.Lookup.{Values, Table, systable_get_version}
use dumphfdl.Systable.Update.{
  Writer, systable_generate_config, systable_copy_station_names, systable_save_config,
}

-- struct systable_err
pub data SystableErr : Type 0 where
  code : SystableErrCode → SystableErr
  libconfig : SystableErr

abbrev pub version_of : Option PduSet → ℕ
version_of none = 0
version_of (some ps) = ps.version

module _ (lc : Libconfig) (v : Values lc) (wr : Writer lc v) where
  -- struct systable. Of `new`, only the set of PDUs outlives a call; both tables have the same path.
  pub record Systable : Type 0 where
    pub current : Table lc v
    pub savefile_path : Option (List ℕ)
    pub pdu_set : Option PduSet
    pub err : SystableErr

  -- A table that cannot be populated is dropped.
  unfoldable pub populated : Systable → wr.Config → Cached lc → Systable
  populated st cfg (cached stations) = record st {
    current = record { cfg = wr.root cfg; stations = stations; available = true };
  }
  populated st cfg (failed error) = record st { err = code error }

  unfoldable pub saved : Systable → wr.Config → Systable
  saved st cfg =
      if systable_save_config lc v wr cfg st.savefile_path
      then st
      else record st { err = libconfig }

  -- From the generated configuration on.
  unfoldable pub generated : Systable → wr.Config × Bool → Option Systable
  unfolding populated saved
  generated st (cfg, false) = some st
  generated st (cfg, true) =
      systable_copy_station_names lc v wr cfg st.current.stations >>= λ (named : wr.Config).
      systable_populate_stations_cache lc (wr.root named) >>= λ r.
      some (populated (saved st named) named r)

  -- The condition of the update.
  unfoldable pub is_update : Systable → ℕ → Decoded → Bool
  is_update st version sc =
      not sc.err
      && (not st.current.available
          || systable_is_newer (systable_get_version lc v (some st.current)) (plus version))

  unfoldable pub updated : Systable → ℕ → Decoded → Option Systable
  unfolding generated is_update
  updated st version sc =
      if is_update st version sc
      then generated st (systable_generate_config lc v wr wr.config_init version sc.gs_list)
      else some st

  -- The message of a complete set.
  unfoldable pub received : Systable → List ℕ → Option (Systable × Option (ℕ × Decoded))
  unfolding updated
  received st buf = systable_decode buf >>= λ sc.
      let version = version_of st.pdu_set in
      updated (record st { pdu_set = none }) version sc >>= λ (st' : Systable).
      some (st', some (version, sc))

  unfoldable pub systable_process_pdu_set : Systable → Option (Systable × Option (ℕ × Decoded))
  unfolding received
  systable_process_pdu_set st = elim (reassemble st.pdu_set) [
    | none ↦ some (st, none)
    | some buf ↦ received st buf
  ]
