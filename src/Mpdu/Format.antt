-- ===== src/Mpdu/Format.antt =====
-- src/mpdu.c: the JSON formatter.
use dumphfdl.Common.{ℕ, not, none, List, [], ◌∷◌, if◌then◌else◌}
use dumphfdl.Pdu.{Direction, uplink_pdu, downlink_pdu}
use dumphfdl.Json.{
  object_start, object_end, array_start, array_end, append_int64, append_bool, calls, ◌▸◌,
}
use dumphfdl.Format.{Lookups, Format, gs_id_format_json, ac_id_format_json}
use dumphfdl.Mpdu.{MpduDst, HfdlMpdu}

module _ (l : Lookups) where
  -- The loop over the list of destinations.
  unfoldable pub dsts_json : ℕ → List MpduDst → Format l
  dsts_json freq [] = calls []
  dsts_json freq (dst ∷ rest) =
      calls (object_start none ∷ [])
      ▸ ac_id_format_json l "dst" freq dst.dst_id
      ▸ calls (append_int64 "lpdu_cnt" dst.lpdu_cnt ∷ object_end ∷ [])
      ▸ dsts_json freq rest

  abbrev pub addresses_json : Direction → HfdlMpdu → Format l
  addresses_json uplink_pdu mpdu =
      gs_id_format_json l "src" mpdu.header.src_id
      ▸ calls (array_start "dsts" ∷ [])
      ▸ dsts_json mpdu.header.freq mpdu.dst_aircraft
      ▸ calls (array_end ∷ [])
  addresses_json downlink_pdu mpdu =
      ac_id_format_json l "src" mpdu.header.freq mpdu.header.src_id
      ▸ gs_id_format_json l "dst" mpdu.header.dst_id

  unfoldable pub mpdu_format_json : HfdlMpdu → Format l
  mpdu_format_json mpdu =
      calls (append_bool "err" (not mpdu.header.crc_ok) ∷ [])
      ▸ (if not mpdu.header.crc_ok then calls [] else addresses_json mpdu.header.direction mpdu)
