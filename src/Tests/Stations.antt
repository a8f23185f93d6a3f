-- ===== src/Tests/Stations.antt =====
-- A run of the reading of a system table: setting 0 is the file, 1 its list of the stations 2 and 3, and
-- 4 the empty list of frequencies of both.
use dumphfdl.Common.{
  ℕ, ◌+◌, ◌≡◌, ◌⊎◌, refl, false, true, ◌==◌, ◌||◌, if◌then◌else◌, Option, none, some, List, [], ◌∷◌,
}
use dumphfdl.Util.{Signed, plus}
use dumphfdl.Systable.{reassemble}
use dumphfdl.Systable.Stations.{
  Libconfig, Key, version_key, stations_key, id_key, frequencies_key, other_type, SystableErrCode,
  cached, failed, systable_read, systable_validate, systable_validate_version, validate_each,
  systable_validate_station, systable_validate_station_id, systable_populate_stations_cache,
  add_stations,
}
use dumphfdl.Systable.Update.{Writer}
use dumphfdl.Systable.Process.{libconfig, Systable}
use dumphfdl.Systable.Lookup.{Values, AreNamed, systable_get_station_name-read}
use dumphfdl.Systable.Caching.{AreFound, systable_read_lem}

abbrev ids : ℕ → Key → Option Signed
ids s version_key = some (plus 51)
ids s id_key = some (plus (s + 5))
ids s key = none

abbrev members : ℕ → Key → Option ℕ
members s stations_key = some 1
members s frequencies_key = some 4
members s key = none

abbrev file : Libconfig
file = record {
  Setting = ℕ;
  is_group = λ s. (s == 2) || (s == 3);
  is_list = λ s. (s == 1) || (s == 4);
  is_number = λ s. false;
  type_of = λ s. other_type;
  lookup_int = ids;
  get_member = members;
  elems = λ s. if s == 1 then 2 ∷ 3 ∷ [] else [];
}

systable_read_lem_example :
    ((err : SystableErrCode) × (systable_read file 0 ≡ some (failed err)))
    ⊎ ((stations : ℕ) × (array : List (Option ℕ)) × (members 0 stations_key ≡ some stations)
        × (systable_read file 0 ≡ some (cached array))
        × AreFound file (file.elems stations) array)
systable_read_lem_example = systable_read_lem file 0

abbrev values : Values file
values = record {
  Double = Signed;
  of_int = λ n. n;
  config_setting_get_float = λ s. plus 0;
  config_setting_get_int = λ s. plus s;
  config_setting_lookup_string = λ s key. some (s ∷ []);
}

-- Station 7 is setting 2, and station 8 is setting 3.
file_read : (array : List (Option ℕ)) × (systable_read file 0 ≡ some (cached array))
unfolding systable_read systable_validate systable_validate_version validate_each
    systable_validate_station systable_validate_station_id systable_populate_stations_cache
    add_stations
file_read = (_, refl)

systable_get_station_name-read_example :
    AreNamed file values
      (record { cfg = 0; stations = file_read.0; available = true })
      (file.elems 1)
systable_get_station_name-read_example =
    systable_get_station_name-read file values 0 1 file_read.0 file_read.1 refl

abbrev writer : Writer file values
writer = record {
  Config = ℕ;
  Handle = ℕ;
  config_init = 0;
  config_root_setting = λ c. some 0;
  config_lookup = λ c key. none;
  config_setting_add = λ c h key type. (c, some 0);
  config_setting_set_int = λ c h n. (c, true);
  config_setting_set_float = λ c h x. (c, true);
  config_setting_set_float_elem = λ c h f. (c, true);
  config_setting_set_string = λ c h name. c;
  config_write_file = λ c path. true;
  setting = λ c h. 0;
  root = λ c. 0;
  elems = λ c h. [];
  config_setting_get_string = λ s. none;
  is_near = λ a b. false;
}

-- One PDU, of two octets: a message without a station, in the version that the current table has.
abbrev store : Systable file values writer
store = record {
  current = record { cfg = 0; stations = []; available = true };
  savefile_path = none;
  pdu_set = some (record { version = 51; pdus = some (1 ∷ 2 ∷ []) ∷ [] });
  err = libconfig;
}

whole : reassemble store.pdu_set ≡ some (1 ∷ 2 ∷ [])
unfolding reassemble
whole = refl
