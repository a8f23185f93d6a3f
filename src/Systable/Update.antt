-- ===== src/Systable/Update.antt =====
-- src/systable.c: what a received system table does to the current one. The functions of libconfig that
-- build and write a configuration are a parameter; a setting is named by a handle, and what it holds
-- depends on the configuration.
use dumphfdl.Common.{
  ℕ, Bool, true, false, ◌&&◌, Option, none, some, ◌>>=◌, List, [], ◌∷◌, get_elem?, if◌then◌else◌,
}
use dumphfdl.Util.{Signed, plus, minus}
use dumphfdl.Systable.{GsData}
use dumphfdl.Systable.Stations.{
  Libconfig, Key, version_key, stations_key, id_key, name_key, lat_key, lon_key, frequencies_key,
  is_float,
}
use dumphfdl.Systable.Lookup.{Values}

pub data NodeType : Type 0 where
  int_node float_node string_node list_node group_node : NodeType

pub record Writer (lc : Libconfig) (v : Values lc) : Type 1 where
  pub Config : Type 0
  pub Handle : Type 0
  pub config_init : Config
  pub config_root_setting : Config → Option Handle
  pub config_lookup : Config → Key → Option Handle
  pub config_setting_add : Config → Handle → Option Key → NodeType → Config × Option Handle
  pub config_setting_set_int : Config → Handle → ℕ → Config × Bool
  pub config_setting_set_float : Config → Handle → Signed → Config × Bool
  -- Appends a frequency, given in Hz, in kHz.
  pub config_setting_set_float_elem : Config → Handle → ℕ → Config × Bool
  pub config_setting_set_string : Config → Option Handle → List ℕ → Config
  pub config_write_file : Config → List ℕ → Bool
  -- What a setting, the root or an element of a list holds.
  pub setting : Config → Handle → lc.Setting
  pub root : Config → lc.Setting
  pub elems : Config → Handle → List Handle
  pub config_setting_get_string : lc.Setting → Option (List ℕ)
  -- fabs(a - b) < 1.0
  pub is_near : v.Double → v.Double → Bool

module _ (lc : Libconfig) (v : Values lc) (wr : Writer lc v) where
  -- FAIL_IF: a failed call ends the function with false.
  abbrev pub if_added :
      wr.Config × Option wr.Handle → (wr.Config → wr.Handle → wr.Config × Bool) → wr.Config × Bool
  if_added (c, none) k = (c, false)
  if_added (c, some h) k = k c h

  abbrev pub if_done : wr.Config × Bool → (wr.Config → wr.Config × Bool) → wr.Config × Bool
  if_done (c, false) k = (c, false)
  if_done (c, true) k = k c

  -- The loop over the frequencies of a station.
  unfoldable pub generate_frequencies : wr.Config → wr.Handle → List (ℕ × ℕ) → wr.Config × Bool
  generate_frequencies c freqs [] = (c, true)
  generate_frequencies c freqs ((freq, slot) ∷ rest) =
      if_done (wr.config_setting_set_float_elem c freqs freq)
        λ c1. generate_frequencies c1 freqs rest

  unfoldable pub systable_generate_station_config :
      wr.Config → GsData → wr.Handle → wr.Config × Bool
  unfolding generate_frequencies
  systable_generate_station_config c gs_data gs_list =
      if_added (wr.config_setting_add c gs_list none group_node) λ c gs.
        if_added (wr.config_setting_add c gs (some id_key) int_node) λ c s.
          if_done (wr.config_setting_set_int c s gs_data.gs_id) λ c.
            if_added (wr.config_setting_add c gs (some lat_key) float_node) λ c s.
              if_done (wr.config_setting_set_float c s gs_data.lat) λ c.
                if_added (wr.config_setting_add c gs (some lon_key) float_node) λ c s.
                  if_done (wr.config_setting_set_float c s gs_data.lon) λ c.
                    if_added (wr.config_setting_add c gs (some frequencies_key) list_node)
                      λ c freqs. generate_frequencies c freqs gs_data.frequencies

  -- The loop over the stations.
  unfoldable pub generate_stations : wr.Config → wr.Handle → List GsData → wr.Config × Bool
  unfolding systable_generate_station_config
  generate_stations c stations [] = (c, true)
  generate_stations c stations (d ∷ rest) =
      if_done (systable_generate_station_config c d stations)
        λ c1. generate_stations c1 stations rest

  unfoldable pub systable_generate_config : wr.Config → ℕ → List GsData → wr.Config × Bool
  unfolding generate_stations
  systable_generate_config cfg version gs_list =
      if_added (cfg, wr.config_root_setting cfg)
        λ c root. if_added (wr.config_setting_add c root (some version_key) int_node) λ c s.
          if_done (wr.config_setting_set_int c s version) λ c.
            if_added (wr.config_setting_add c root (some stations_key) list_node)
              λ c stations. generate_stations c stations gs_list

  -- get_coord: a member that is a float.
  abbrev pub float_of : Option lc.Setting → Option v.Double
  float_of none = none
  float_of (some s) = if is_float (lc.type_of s) then some (v.config_setting_get_float s) else none

  abbrev pub are_near : Option v.Double → Option v.Double → Bool
  are_near (some a) (some b) = wr.is_near a b
  are_near a b = false

  unfoldable pub systable_station_locations_match : lc.Setting → lc.Setting → Bool
  systable_station_locations_match s1 s2 =
      are_near (float_of (lc.get_member s1 lat_key)) (float_of (lc.get_member s2 lat_key))
      && are_near (float_of (lc.get_member s1 lon_key)) (float_of (lc.get_member s2 lon_key))

  -- The name of the station at an index of the old array, if the locations match.
  unfoldable pub old_name : lc.Setting → Option lc.Setting → Option (List ℕ)
  unfolding systable_station_locations_match
  old_name station none = none
  old_name station (some old) =
      if systable_station_locations_match station old
      then (lc.get_member old name_key >>= wr.config_setting_get_string)
      else none

  -- `stations[id]` for an id of the new table; the outer none is an access outside the array.
  abbrev pub old_station : List (Option lc.Setting) → Option Signed → Option (Option lc.Setting)
  old_station stations none = some none
  old_station stations (some (plus id)) = get_elem? stations id
  old_station stations (some (minus n)) = none

  abbrev pub set_name : wr.Config → wr.Handle → Option (List ℕ) → wr.Config
  set_name c station none = c
  set_name c station (some name) =
      let r = wr.config_setting_add c station (some name_key) string_node in
      wr.config_setting_set_string r.0 r.1 name

  -- The loop over the stations of the new table.
  unfoldable pub copy_names :
      wr.Config → List (Option lc.Setting) → List wr.Handle → Option wr.Config
  unfolding old_name
  copy_names c stations [] = some c
  copy_names c stations (h ∷ rest) =
      old_station stations (lc.lookup_int (wr.setting c h) id_key) >>= λ (old : Option lc.Setting).
      copy_names (set_name c h (old_name (wr.setting c h) old)) stations rest

  abbrev pub names_from : wr.Config → List (Option lc.Setting) → Option wr.Handle → Option wr.Config
  unfolding copy_names
  names_from dst stations none = some dst
  names_from dst stations (some h) =
      if lc.is_list (wr.setting dst h) then copy_names dst stations (wr.elems dst h) else some dst

  unfoldable pub systable_copy_station_names :
      wr.Config → List (Option lc.Setting) → Option wr.Config
  systable_copy_station_names dst stations =
      names_from dst stations (wr.config_lookup dst stations_key)

  -- No path to save to is not an error.
  unfoldable pub systable_save_config : wr.Config → Option (List ℕ) → Bool
  systable_save_config cfg none = true
  systable_save_config cfg (some savefile_path) = wr.config_write_file cfg savefile_path
