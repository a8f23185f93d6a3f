-- ===== src/Format.antt =====
-- The JSON formatters of src/util.c that those of the PDUs share: ground stations, aircraft and lists
-- of frequencies. What they look up is a parameter: the system table, the aircraft cache and the
-- aircraft database, each under its lock, and the floating point numbers of libconfig.
pub mod Nesting
use Prim.Native.String.{String}
use dumphfdl.Common.{
  ℕ, zero, suc, ◌+◌, ◌-◌, ◌/◌, ◌%◌, ◌^◌, Bool, true, false, Option, none, some, List, [], ◌∷◌, take,
  ◌++◌, ◌==◌, if◌then◌else◌,
}
use dumphfdl.Util.Hex.{hex_string}
use dumphfdl.AcData.{AcDataEntry}
use dumphfdl.Json.{
  Str, literal, octets, double, Event, object_start, object_end, array_start, array_end,
  append_int64, append_double, append_string, Out, calls, ◌▸◌, ask, fault,
}

abbrev pub gs_max_freq_cnt : ℕ
gs_max_freq_cnt = 20

-- Config.ac_data_details of src/globals.h
pub data AcDataDetails : Type 0 where
  ac_details_normal ac_details_verbose : AcDataDetails

pub record Lookups : Type 1 where
  pub World : Type 0
  pub Double : Type 0
  pub is_positive : Double → Bool
  pub systable_get_station_name : World → ℕ → Option (List ℕ)
  pub systable_get_station_frequency : World → ℕ → ℕ → Double
  -- The ICAO address of the entry for a frequency and an ID.
  pub ac_cache_entry_lookup : World → ℕ → ℕ → World × Option ℕ
  pub ac_data_entry_lookup : World → ℕ → World × Option AcDataEntry
  -- la_dict_search of libacars
  pub la_dict_search : List (ℕ × String) → ℕ → Option String
  pub ac_data_available : Bool
  pub ac_data_details : AcDataDetails

module _ (l : Lookups) where
  abbrev pub Format : Type 0
  Format = Out l.World l.Double

  -- What a dictionary says of a code, or else a text that stands for all others.
  unfoldable pub described : List (ℕ × String) → String → ℕ → Str
  described dict other code = elim (l.la_dict_search dict code) [
    | none ↦ literal other
    | some descr ↦ literal descr
  ]

  -- SAFE_JSON_APPEND_STRING of src/util.h
  unfoldable pub safe_json_append_string : String → Option (List ℕ) → List (Event l.Double)
  safe_json_append_string n none = []
  safe_json_append_string n (some val) = append_string n (octets val) ∷ []

  unfoldable pub gs_id_format_json : String → ℕ → Format
  unfolding safe_json_append_string
  gs_id_format_json label gs_id =
      ask (λ w. (w, l.systable_get_station_name w gs_id))
        λ gs_name.
          calls (
            object_start (some label)
            ∷ append_string "type" (literal "Ground station")
            ∷ append_int64 "id" gs_id
            ∷ [])
          ▸ calls (safe_json_append_string "name" gs_name)
          ▸ calls (object_end ∷ [])

  abbrev pub normal_json : AcDataEntry → List (Event l.Double)
  unfolding safe_json_append_string
  normal_json ac =
      safe_json_append_string "regnr" ac.registration
      ++ (safe_json_append_string "typecode" ac.icaotypecode
          ++ safe_json_append_string "opercode" ac.operatorflagcode)

  abbrev pub verbose_json : AcDataDetails → AcDataEntry → List (Event l.Double)
  unfolding safe_json_append_string
  verbose_json ac_details_normal ac = []
  verbose_json ac_details_verbose ac =
      safe_json_append_string "manuf" ac.manufacturer
      ++ (safe_json_append_string "model" ac.type_name
          ++ safe_json_append_string "owner" ac.registeredowners)

  -- A null entry is dereferenced.
  abbrev pub entry_json : Option AcDataEntry → Format
  entry_json none = fault
  entry_json (some ac) = calls (normal_json ac ++ verbose_json l.ac_data_details ac)

  unfoldable pub ac_data_format_json : String → ℕ → Format
  ac_data_format_json label addr =
      calls
        (object_start (some label) ∷ append_string "icao" (octets (take 6 (hex_string addr))) ∷ [])
      ▸ (if l.ac_data_available
          then ask (λ w. l.ac_data_entry_lookup w addr) entry_json
          else calls [])
      ▸ calls (object_end ∷ [])

  abbrev pub ac_info : Option ℕ → Format
  ac_info none = calls []
  ac_info (some icao_address) = ac_data_format_json "ac_info" icao_address

  unfoldable pub ac_id_format_json : String → ℕ → ℕ → Format
  unfolding ac_data_format_json
  ac_id_format_json label freq ac_id =
      ask (λ w. l.ac_cache_entry_lookup w freq ac_id)
        λ entry.
          calls (
            object_start (some label)
            ∷ append_string "type" (literal "Aircraft")
            ∷ append_int64 "id" ac_id
            ∷ [])
          ▸ ac_info entry
          ▸ calls (object_end ∷ [])

  abbrev pub freq_json : l.Double → List (Event l.Double)
  freq_json f = if l.is_positive f then append_double "freq" (double f) ∷ [] else []

  -- The loop of freq_list_format_json from index i on, with its rounds left.
  unfoldable pub freq_list_loop : ℕ → ℕ → l.World → ℕ → ℕ → List (Event l.Double)
  freq_list_loop zero i w gs_id freqs = []
  freq_list_loop (suc rounds) i w gs_id freqs =
      (if freqs / 2 ^ i % 2 == 1
        then (object_start none
              ∷ append_int64 "id" i
              ∷ freq_json (l.systable_get_station_frequency w gs_id i)
            ++ object_end ∷ [])
        else [])
      ++ freq_list_loop rounds (suc i) w gs_id freqs

  unfoldable pub freq_list_format_json : String → ℕ → ℕ → Format
  freq_list_format_json label gs_id freqs =
      ask (λ w. (w, w))
        λ w.
          calls
            (array_start label ∷ freq_list_loop gs_max_freq_cnt 0 w gs_id freqs ++ array_end ∷ [])
