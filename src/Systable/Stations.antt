-- ===== src/Systable/Stations.antt =====
-- src/systable.c: the checks of a system table that is read from a file, and the array of its stations.
-- libconfig is a parameter: its settings, and what its functions say of one.
use dumphfdl.Common.{
  ℕ, Bool, true, false, ltb, ◌&&◌, ◌+◌, if◌then◌else◌, Option, none, some, ◌>>=◌, is_some, List, [],
  ◌∷◌, get_elem?, set, replicate,
}
use dumphfdl.Util.{Signed, plus, minus}

pub data Key : Type 0 where
  version_key stations_key id_key name_key lat_key lon_key frequencies_key : Key

pub data SettingType : Type 0 where
  string_type float_type int_type other_type : SettingType

pub record Libconfig : Type 1 where
  pub Setting : Type 0
  pub is_group : Setting → Bool
  pub is_list : Setting → Bool
  pub is_number : Setting → Bool
  pub type_of : Setting → SettingType
  pub lookup_int : Setting → Key → Option Signed
  pub get_member : Setting → Key → Option Setting
  -- What config_setting_get_elem returns for the indices from 0 on, up to the null pointer.
  pub elems : Setting → List Setting

-- enum systable_err_code, but for the errors of libconfig itself.
pub data SystableErrCode : Type 0 where
  st_err_ok st_err_version_missing st_err_version_out_of_range st_err_stations_missing
        st_err_station_wrong_type st_err_station_id_missing st_err_station_id_out_of_range
        st_err_station_id_duplicate st_err_station_name_wrong_type st_err_station_coordinate_missing
        st_err_station_coordinate_wrong_type st_err_frequencies_missing
        st_err_frequency_wrong_type :
      SystableErrCode

abbrev pub station_id_max : ℕ
station_id_max = 127

abbrev pub systable_version_max : ℕ
systable_version_max = 4095

-- FAIL_IF: the second check where the first one passes.
abbrev pub fail_if : SystableErrCode → SystableErrCode → SystableErrCode
fail_if st_err_ok rest = rest
fail_if err rest = err

-- Neither below 0 nor above the bound.
abbrev pub in_range : Option Signed → ℕ → SystableErrCode → SystableErrCode → SystableErrCode
in_range none bound missing out_of_range = missing
in_range (some (minus n)) bound missing out_of_range = out_of_range
in_range (some (plus n)) bound missing out_of_range =
    if ltb bound n then out_of_range else st_err_ok

abbrev pub is_string : SettingType → Bool
is_string string_type = true
is_string type = false

abbrev pub is_float : SettingType → Bool
is_float float_type = true
is_float type = false

module _ (lc : Libconfig) where
  unfoldable pub systable_validate_version : lc.Setting → SystableErrCode
  systable_validate_version cfg =
      in_range (lc.lookup_int cfg version_key) systable_version_max st_err_version_missing
        st_err_version_out_of_range

  unfoldable pub systable_validate_station_id : lc.Setting → SystableErrCode
  systable_validate_station_id station =
      in_range (lc.lookup_int station id_key) station_id_max st_err_station_id_missing
        st_err_station_id_out_of_range

  abbrev pub checked_name : Option lc.Setting → SystableErrCode
  checked_name none = st_err_ok
  checked_name (some name) =
      if is_string (lc.type_of name) then st_err_ok else st_err_station_name_wrong_type

  abbrev pub checked_coordinates : Option lc.Setting → Option lc.Setting → SystableErrCode
  checked_coordinates none none = st_err_ok
  checked_coordinates none (some lon) = st_err_station_coordinate_missing
  checked_coordinates (some lat) none = st_err_station_coordinate_missing
  checked_coordinates (some lat) (some lon) =
      if is_float (lc.type_of lat) && is_float (lc.type_of lon)
      then st_err_ok
      else st_err_station_coordinate_wrong_type

  abbrev pub checked_numbers : List lc.Setting → SystableErrCode
  checked_numbers [] = st_err_ok
  checked_numbers (frequency ∷ rest) =
      if lc.is_number frequency then checked_numbers rest else st_err_frequency_wrong_type

  abbrev pub checked_frequencies : Option lc.Setting → SystableErrCode
  checked_frequencies none = st_err_frequencies_missing
  checked_frequencies (some frequencies) =
      if lc.is_list frequencies
      then checked_numbers (lc.elems frequencies)
      else st_err_frequencies_missing

  unfoldable pub systable_validate_station : lc.Setting → SystableErrCode
  unfolding systable_validate_station_id
  systable_validate_station station =
      if lc.is_group station
      then (fail_if (systable_validate_station_id station) (
          fail_if (checked_name (lc.get_member station name_key)) (
            fail_if
              (checked_coordinates (lc.get_member station lat_key) (lc.get_member station lon_key))
              (checked_frequencies (lc.get_member station frequencies_key)))))
      else st_err_station_wrong_type

  unfoldable pub validate_each : List lc.Setting → SystableErrCode
  validate_each [] = st_err_ok
  validate_each (station ∷ rest) = fail_if (systable_validate_station station) (validate_each rest)

  abbrev pub checked_stations : Option lc.Setting → SystableErrCode
  checked_stations none = st_err_stations_missing
  checked_stations (some stations) =
      if lc.is_list stations then validate_each (lc.elems stations) else st_err_stations_missing

  unfoldable pub systable_validate : lc.Setting → SystableErrCode
  unfolding systable_validate_version
  systable_validate cfg =
      fail_if (systable_validate_version cfg) (checked_stations (lc.get_member cfg stations_key))

  -- Without an integer the id stays 0; a negative one is outside the array.
  abbrev pub array_index : Option Signed → Option ℕ
  array_index none = some 0
  array_index (some (plus n)) = some n
  array_index (some (minus n)) = none

  -- st->stations, or the error that ends the loop; `none` is an access outside the array.
  pub data Cached : Type 0 where
    cached : List (Option lc.Setting) → Cached
    failed : SystableErrCode → Cached

  unfoldable pub add_stations : List (Option lc.Setting) → List lc.Setting → Option Cached
  add_stations array [] = some (cached array)
  add_stations array (station ∷ rest) = array_index (lc.lookup_int station id_key) >>= λ (id : ℕ).
      get_elem? array id >>= λ (old : Option lc.Setting).
      if is_some old
      then some (failed st_err_station_id_duplicate)
      else add_stations (set array id (some station)) rest

  abbrev pub populate : Option lc.Setting → Option Cached
  populate none = some (failed st_err_stations_missing)
  populate (some stations) = add_stations (replicate (station_id_max + 1) none) (lc.elems stations)

  unfoldable pub systable_populate_stations_cache : lc.Setting → Option Cached
  systable_populate_stations_cache cfg = populate (lc.get_member cfg stations_key)

  -- systable_read_from_file, behind the reading of the file.
  abbrev pub read_checked : SystableErrCode → lc.Setting → Option Cached
  read_checked st_err_ok cfg = systable_populate_stations_cache cfg
  read_checked err cfg = some (failed err)

  unfoldable pub systable_read : lc.Setting → Option Cached
  systable_read cfg = read_checked (systable_validate cfg) cfg
