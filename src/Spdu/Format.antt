-- ===== src/Spdu/Format.antt =====
-- src/spdu.c: the JSON formatter.
use Prim.Native.String.{String}
use dumphfdl.Common.{ℕ, not, Option, none, some, List, [], ◌∷◌, get_elem?, if◌then◌else◌}
use dumphfdl.Json.{
  literal, object_start, object_end, array_start, array_end, append_int64, append_bool,
  append_string, calls, ◌▸◌, fault,
}
use dumphfdl.Format.{Lookups, Format, gs_id_format_json, freq_list_format_json}
use dumphfdl.Spdu.{GsStatus, Squitter, HfdlSpdu}

abbrev pub change_note_descr : List String
change_note_descr =
    "None" ∷ "Channel down" ∷ "Upcoming frequency change" ∷ "Ground station down" ∷ []

module _ (l : Lookups) where
  unfoldable pub gs_status_format_json : GsStatus → Format l
  gs_status_format_json gs =
      calls (object_start none ∷ [])
      ▸ gs_id_format_json l "gs" gs.id
      ▸ calls (append_bool "utc_sync" gs.utc_sync ∷ [])
      ▸ freq_list_format_json l "freqs" gs.id gs.freqs_in_use
      ▸ calls (object_end ∷ [])

  -- A change note past the end of the table is a fault.
  abbrev pub change_note_json : Option String → Format l
  change_note_json none = fault
  change_note_json (some descr) = calls (append_string "change_note" (literal descr) ∷ [])

  abbrev pub fields_json : ℕ → Squitter → Format l
  fields_json src_id f =
      gs_id_format_json l "src" src_id
      ▸ calls (
          append_int64 "spdu_version" f.version
          ∷ append_bool "rls" f.rls_in_use
          ∷ append_bool "iso" f.iso8208_supported
          ∷ [])
      ▸ change_note_json (get_elem? change_note_descr f.change_note)
      ▸ calls (
          append_int64 "frame_index" f.frame_index
          ∷ append_int64 "frame_offset" f.frame_offset
          ∷ append_int64 "min_priority" f.min_priority
          ∷ append_int64 "systable_version" f.systable_version
          ∷ array_start "gs_status"
          ∷ [])
      ▸ gs_status_format_json f.gs_data0
      ▸ gs_status_format_json f.gs_data1
      ▸ gs_status_format_json f.gs_data2
      ▸ calls (array_end ∷ [])

  -- spdu_parse fills in the fields wherever the sum is right.
  abbrev pub good_json : ℕ → Option Squitter → Format l
  good_json src_id none = fault
  good_json src_id (some f) = fields_json src_id f

  unfoldable pub spdu_format_json : HfdlSpdu → Format l
  unfolding gs_status_format_json
  spdu_format_json spdu =
      calls (append_bool "err" (not spdu.crc_ok) ∷ [])
      ▸ (if not spdu.crc_ok then calls [] else good_json spdu.src_id spdu.fields)
