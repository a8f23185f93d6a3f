-- ===== src/Systable/Lookup.antt =====
-- src/systable.c: the look-ups in the current table. What libconfig reads of a setting is a parameter.
use dumphfdl.Common.{
  ℕ, ◌≡◌, refl, Bool, true, false, ◌&&◌, Option, none, some, ◌>>=◌, List, [], ◌∷◌, get_elem?, ltb,
  if◌then◌else◌, Bool-cases, inl, inr, arith,
}
use dumphfdl.Util.{Signed, plus, minus}
use dumphfdl.Systable.Stations.{
  Libconfig, Key, version_key, stations_key, id_key, name_key, frequencies_key, SettingType,
  float_type, int_type, string_type, other_type, station_id_max, cached, systable_read,
}
use dumphfdl.Systable.Caching.{AreFound, systable_read_lem}

pub record Values (lc : Libconfig) : Type 1 where
  pub Double : Type 0
  pub of_int : Signed → Double
  pub config_setting_get_float : lc.Setting → Double
  pub config_setting_get_int : lc.Setting → Signed
  pub config_setting_lookup_string : lc.Setting → Key → Option (List ℕ)

module _ (lc : Libconfig) (v : Values lc) where
  -- The members of struct _systable that the look-ups read.
  pub record Table : Type 0 where
    pub cfg : lc.Setting
    pub stations : List (Option lc.Setting)
    pub available : Bool

  abbrev pub systable_is_available : Option Table → Bool
  systable_is_available none = false
  systable_is_available (some st) = st.available

  abbrev pub or_default : Signed → Option Signed → Signed
  or_default d none = d
  or_default d (some version) = version

  -- -1 if there is no table or no version in it.
  unfoldable pub systable_get_version : Option Table → Signed
  systable_get_version none = minus 0
  systable_get_version (some st) =
      if st.available then or_default (minus 0) (lc.lookup_int st.cfg version_key) else minus 0

  -- `stations[id]` where the table is available and id is in the range that is tested; the outer
  -- none is a read outside the array.
  unfoldable pub station_at : Option Table → Signed → Option (Option lc.Setting)
  station_at none id = some none
  station_at (some st) (minus n) = some none
  station_at (some st) (plus id) =
      if st.available && ltb id station_id_max then get_elem? st.stations id else some none

  unfoldable pub systable_get_station_name : Option Table → Signed → Option (Option (List ℕ))
  unfolding station_at
  systable_get_station_name st id = station_at st id >>= λ (o : Option lc.Setting). elim o [
    | none ↦ some none
    | some station ↦ some (v.config_setting_lookup_string station name_key)
  ]

  abbrev pub number : SettingType → lc.Setting → v.Double
  number float_type freq = v.config_setting_get_float freq
  number int_type freq = v.of_int (v.config_setting_get_int freq)
  number string_type freq = v.of_int (minus 0)
  number other_type freq = v.of_int (minus 0)

  abbrev pub frequency : Option lc.Setting → v.Double
  frequency none = v.of_int (minus 0)
  frequency (some freq) = number (lc.type_of freq) freq

  -- -1.0 where there is no such frequency. A station without a list of frequencies makes
  -- config_setting_get_elem read a null pointer.
  unfoldable pub systable_get_station_frequency : Option Table → Signed → ℕ → Option v.Double
  unfolding station_at
  systable_get_station_frequency st gs_id freq_id =
      station_at st gs_id >>= λ (o : Option lc.Setting). elim o [
        | none ↦ some (v.of_int (minus 0))
        | some station ↦ lc.get_member station frequencies_key >>= λ frequencies.
            some (frequency (get_elem? (lc.elems frequencies) freq_id))
      ]

  -- Each station of the list is named under its id, but for the greatest.
  abbrev pub AreNamed : Table → List lc.Setting → Type 0
  AreNamed st [] = Unit
  AreNamed st (station ∷ rest) =
      ((id : ℕ) × (lc.lookup_int station id_key ≡ some (plus id))
        × (systable_get_station_name (some st) (plus id)
            ≡ some (if ltb id 127 then v.config_setting_lookup_string station name_key else none)))
      × AreNamed st rest

  name-found :
      (cfg station : lc.Setting) (array : List (Option lc.Setting)) (id : ℕ)
      → get_elem? array id ≡ some (some station)
      → systable_get_station_name
          (some (record { cfg = cfg; stations = array; available = true }))
          (plus id)
        ≡ some (if ltb id 127 then v.config_setting_lookup_string station name_key else none)
  unfolding systable_get_station_name station_at
  name-found cfg station array id e = elim (Bool-cases (ltb id 127)) [
    | inl small ↦ rw (small, e) refl
    | inr great ↦ rw great refl
  ]

  AreFound-AreNamed :
      (cfg : lc.Setting) (array : List (Option lc.Setting)) (stations : List lc.Setting)
      → AreFound lc stations array
      → AreNamed (record { cfg = cfg; stations = array; available = true }) stations
  AreFound-AreNamed cfg array [] h = _
  AreFound-AreNamed cfg array (station ∷ rest) ((id, e, at), h) =
      ((id, e, name-found cfg station array id at), AreFound-AreNamed cfg array rest h)

  -- In a table that was read without an error, the name of every station is found under its id,
  -- except that a station with id 127, which is valid and stored, is never found.
  pub systable_get_station_name-read :
      (cfg stations : lc.Setting) (array : List (Option lc.Setting))
      → systable_read lc cfg ≡ some (cached array)
      → lc.get_member cfg stations_key ≡ some stations
      → AreNamed (record { cfg = cfg; stations = array; available = true }) (lc.elems stations)
  systable_get_station_name-read cfg stations array e listed = elim (systable_read_lem lc cfg) [
    | inl (err, e') ↦ absurd (ground (arith, e, e'))
    | inr (s, a, e1, e2, found) ↦
        let same_list : s ≡ stations = ground (arith, e1, listed) in
        let same_array : a ≡ array = ground (arith, e2, e) in
        AreFound-AreNamed cfg array (lc.elems stations) (rw (same_list, same_array) at found)
  ]
