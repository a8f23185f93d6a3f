-- ===== src/Systable/Format.antt =====
-- src/systable.c: the JSON formatter of a decoded system table.
use dumphfdl.Common.{
  ℕ, ◌≡◌, refl, Bool, true, false, none, some, List, [], ◌∷◌, ◌++◌, if◌then◌else◌,
}
use dumphfdl.Json.{
  degrees, Event, Frame, array, scan, object_start, object_end, array_start, array_end,
  append_int64, append_bool, append_double, calls, ◌▸◌,
}
use dumphfdl.Json.Nesting.{Runs, Runs-calls, Runs-seq, Fills, Fills-of, Fills-seq}
use dumphfdl.Format.{Lookups, Format}
use dumphfdl.Systable.{GsData, Decoded}

module _ (l : Lookups) where
  -- The loop over the frequencies, of which there are as many as freq_cnt.
  unfoldable pub freqs_json : List (ℕ × ℕ) → List (Event l.Double)
  freqs_json [] = []
  freqs_json ((freq, slot) ∷ rest) =
      (object_start none
        ∷ append_int64 "freq" freq
        ∷ append_int64 "master_frame_slot" slot
        ∷ object_end
        ∷ [])
      ++ freqs_json rest

  unfoldable pub systable_gs_data_format_json : GsData → Format l
  systable_gs_data_format_json d =
      calls (
        object_start none
        ∷ append_int64 "id" d.gs_id
        ∷ append_bool "utc_sync" d.utc_sync
        ∷ object_start (some "location")
        ∷ append_double "lat" (degrees d.lat)
        ∷ append_double "lon" (degrees d.lon)
        ∷ object_end
        ∷ append_int64 "spdu_version" d.spdu_version
        ∷ array_start "freqs"
        ∷ [])
      ▸ calls (freqs_json d.frequencies)
      ▸ calls (array_end ∷ object_end ∷ [])

  -- The loop over the list of stations.
  unfoldable pub gs_list_json : List GsData → Format l
  gs_list_json [] = calls []
  gs_list_json (d ∷ rest) = systable_gs_data_format_json d ▸ gs_list_json rest

  -- The version comes from the set of PDUs.
  unfoldable pub systable_complete_format_json : ℕ → Decoded → Format l
  systable_complete_format_json version sc =
      calls (append_bool "err" sc.err ∷ [])
      ▸ (if sc.err
          then calls []
          else calls (append_int64 "version" version ∷ array_start "ground_stations" ∷ [])
            ▸ gs_list_json sc.gs_list
            ▸ calls (array_end ∷ []))

  freqs_json-scan :
      (fs : List Frame) (freqs : List (ℕ × ℕ))
      → scan (array ∷ fs) (freqs_json freqs) ≡ some (array ∷ fs)
  unfolding freqs_json
  freqs_json-scan fs [] = refl
  freqs_json-scan fs ((freq, slot) ∷ rest) = freqs_json-scan fs rest

  gs_list_json-Runs :
      (fs : List Frame) (gs_list : List GsData)
      → Runs (array ∷ fs) (gs_list_json gs_list) (array ∷ fs)
  unfolding gs_list_json systable_gs_data_format_json
  gs_list_json-Runs fs [] = Runs-calls [] refl
  gs_list_json-Runs fs (d ∷ rest) =
      Runs-seq
        (Runs-seq (Runs-calls _ refl)
          (Runs-seq (Runs-calls _ (freqs_json-scan _ d.frequencies)) (Runs-calls _ refl)))
        (gs_list_json-Runs fs rest)

  after_err :
      (fs : List Frame) (b : Bool) (version : ℕ) (gs_list : List GsData)
      → Fills fs ("err" ∷ []) (
          if b
          then calls []
          else calls (append_int64 "version" version ∷ array_start "ground_stations" ∷ [])
            ▸ gs_list_json gs_list
            ▸ calls (array_end ∷ []))
  after_err fs true version gs_list = Fills-of (Runs-calls [] refl)
  after_err fs false version gs_list =
      Fills-of
        (Runs-seq (Runs-calls _ refl) (Runs-seq (gs_list_json-Runs _ gs_list) (Runs-calls _ refl)))

  -- The JSON of a decoded system table is well-formed within the object that libacars opens for it.
  pub systable_complete_format_json-Fills :
      (fs : List Frame) (version : ℕ) (sc : Decoded)
      → Fills fs [] (systable_complete_format_json version sc)
  unfolding systable_complete_format_json
  systable_complete_format_json-Fills fs version sc =
      Fills-seq (Runs-calls _ refl) (after_err fs sc.err version sc.gs_list)
