-- ===== src/Mpdu/Nesting.antt =====
-- The JSON of an MPDU (src/mpdu.c) is well-formed.
use dumphfdl.Common.{ℕ, ◌≡◌, some, refl, Bool, true, false, List, [], ◌∷◌, if◌then◌else◌, not}
use dumphfdl.Pdu.{Direction, uplink_pdu, downlink_pdu}
use dumphfdl.Json.{Frame, array, calls}
use dumphfdl.Json.Nesting.{
  RunsOr, RunsOr-of, RunsOr-calls, RunsOr-seq, FillsOr, FillsOr-of, FillsOr-seq,
}
use dumphfdl.Format.{Lookups}
use dumphfdl.Format.Nesting.{Unanswered, gs_id_format_json-Runs, ac_id_format_json-Runs}
use dumphfdl.Mpdu.{MpduDst, HfdlMpdu}
use dumphfdl.Mpdu.Format.{dsts_json, addresses_json, mpdu_format_json}

-- An address that the aircraft cache holds.
abbrev pub IsCached : Lookups → ℕ → Type 0
IsCached l a =
    (w : l.World) × (freq : ℕ) × (id : ℕ) × ((l.ac_cache_entry_lookup w freq id).1 ≡ some a)

module _ (l : Lookups) where
  dsts_json-Runs :
      (fs : List Frame) (freq : ℕ) (dsts : List MpduDst)
      → RunsOr (Unanswered l (IsCached l)) (array ∷ fs) (dsts_json l freq dsts) (array ∷ fs)
  unfolding dsts_json
  dsts_json-Runs fs freq [] = RunsOr-calls [] refl
  dsts_json-Runs fs freq (dst ∷ rest) = RunsOr-seq (RunsOr-calls _ refl) (
      RunsOr-seq
        (ac_id_format_json-Runs l (IsCached l) (array ∷ fs) "dst" [] freq dst.dst_id
          (λ w a e. (w, freq, dst.dst_id, e)) refl)
        (RunsOr-seq (RunsOr-calls _ refl) (dsts_json-Runs fs freq rest)))

  addresses_json-Fills :
      (fs : List Frame) (direction : Direction) (mpdu : HfdlMpdu)
      → FillsOr (Unanswered l (IsCached l)) fs ("err" ∷ []) (addresses_json l direction mpdu)
  addresses_json-Fills fs uplink_pdu mpdu =
      FillsOr-seq (RunsOr-of (gs_id_format_json-Runs l fs "src" _ mpdu.header.src_id refl)) (
        FillsOr-of (
          RunsOr-seq (RunsOr-calls _ refl) (
            RunsOr-seq (dsts_json-Runs _ mpdu.header.freq mpdu.dst_aircraft)
              (RunsOr-calls _ refl))))
  addresses_json-Fills fs downlink_pdu mpdu =
      FillsOr-seq
        (ac_id_format_json-Runs l (IsCached l) fs "src" _ mpdu.header.freq mpdu.header.src_id
          (λ w a e. (w, mpdu.header.freq, mpdu.header.src_id, e)) refl)
        (FillsOr-of (RunsOr-of (gs_id_format_json-Runs l fs "dst" _ mpdu.header.dst_id refl)))

  after_err :
      (fs : List Frame) (b : Bool) (mpdu : HfdlMpdu)
      → FillsOr
          (Unanswered l (IsCached l))
          fs
          ("err" ∷ [])
          (if b then calls [] else addresses_json l mpdu.header.direction mpdu)
  after_err fs true mpdu = FillsOr-of (RunsOr-calls [] refl)
  after_err fs false mpdu = addresses_json-Fills fs mpdu.header.direction mpdu

  -- The JSON of an MPDU, within the object that libacars opens for it, is well-formed, unless
  -- the aircraft database gives a null pointer for some aircraft of the cache: each object and array
  -- is closed, members of objects have labels and elements of arrays have none, and no label comes
  -- twice in an object.
  pub mpdu_format_json-Fills :
      (fs : List Frame) (mpdu : HfdlMpdu)
      → FillsOr (Unanswered l (IsCached l)) fs [] (mpdu_format_json l mpdu)
  unfolding mpdu_format_json
  mpdu_format_json-Fills fs mpdu =
      FillsOr-seq (RunsOr-calls _ refl) (after_err fs (not mpdu.header.crc_ok) mpdu)
