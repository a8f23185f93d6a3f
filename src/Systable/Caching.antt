-- ===== src/Systable/Caching.antt =====
-- What the checks of src/systable.c give for the array of stations.
use dumphfdl.Common.{
  ℕ, ◌+◌, ◌≡◌, ◌<◌, ◌≤◌, ◌⊎◌, refl, ap, sym, ◌∙◌, arith, inl, inr, Bool-cases, Option, none, some,
  Option-cases, List, [], ◌∷◌, length, length-set, length-replicate, replicate, get_elem?, set,
  get_or, get_elem?-lt, get_elem?-set_self, get_elem?-set_ne,
}
use dumphfdl.Util.{Signed, plus, minus}
use dumphfdl.Systable.Stations.{
  Libconfig, id_key, stations_key, SystableErrCode, st_err_ok, st_err_version_missing,
  st_err_version_out_of_range, st_err_stations_missing, st_err_station_wrong_type,
  st_err_station_id_missing, st_err_station_id_out_of_range, st_err_station_id_duplicate,
  st_err_station_name_wrong_type, st_err_station_coordinate_missing,
  st_err_station_coordinate_wrong_type, st_err_frequencies_missing, st_err_frequency_wrong_type,
  station_id_max, fail_if, systable_validate_station_id, systable_validate_station, validate_each,
  checked_stations, systable_validate, systable_validate_version, cached, failed, add_stations,
  systable_populate_stations_cache, read_checked, systable_read,
}

clash : {A : Type 0} (s : A) → some none ≡ some (some s) → ⊥
clash s e = ground (arith, e)

fail_if_ok : (a b : SystableErrCode) → fail_if a b ≡ st_err_ok → (a ≡ st_err_ok) × (b ≡ st_err_ok)
fail_if_ok st_err_ok b e = (refl, e)
fail_if_ok st_err_version_missing b e = absurd (ground (arith, e))
fail_if_ok st_err_version_out_of_range b e = absurd (ground (arith, e))
fail_if_ok st_err_stations_missing b e = absurd (ground (arith, e))
fail_if_ok st_err_station_wrong_type b e = absurd (ground (arith, e))
fail_if_ok st_err_station_id_missing b e = absurd (ground (arith, e))
fail_if_ok st_err_station_id_out_of_range b e = absurd (ground (arith, e))
fail_if_ok st_err_station_id_duplicate b e = absurd (ground (arith, e))
fail_if_ok st_err_station_name_wrong_type b e = absurd (ground (arith, e))
fail_if_ok st_err_station_coordinate_missing b e = absurd (ground (arith, e))
fail_if_ok st_err_station_coordinate_wrong_type b e = absurd (ground (arith, e))
fail_if_ok st_err_frequencies_missing b e = absurd (ground (arith, e))
fail_if_ok st_err_frequency_wrong_type b e = absurd (ground (arith, e))

module _ (lc : Libconfig) where
  -- Every station has an id of the array.
  abbrev pub HaveIds : List lc.Setting → Type 0
  HaveIds [] = Unit
  HaveIds (station ∷ rest) =
      ((id : ℕ) × (id ≤ station_id_max) × (lc.lookup_int station id_key ≡ some (plus id)))
      × HaveIds rest

  -- Every station stands in the array under its id.
  abbrev pub AreFound : List lc.Setting → List (Option lc.Setting) → Type 0
  AreFound [] array = Unit
  AreFound (station ∷ rest) array =
      ((id : ℕ) × (lc.lookup_int station id_key ≡ some (plus id))
        × (get_elem? array id ≡ some (some station)))
      × AreFound rest array

  -- The error of two stations with one id, or an array that keeps what stood in it.
  record IsAdded (array : List (Option lc.Setting)) (stations : List lc.Setting)
      (after : List (Option lc.Setting)) : Type 0 where
    kept :
        (id : ℕ) (station : lc.Setting)
        → get_elem? array id ≡ some (some station)
        → get_elem? after id ≡ some (some station)
    found : AreFound stations after

  Added : List (Option lc.Setting) → List lc.Setting → Type 0
  Added array stations =
      (add_stations lc array stations ≡ some (failed st_err_station_id_duplicate))
      ⊎ ((after : List (Option lc.Setting)) × (add_stations lc array stations ≡ some (cached after))
          × IsAdded array stations after)

  add_stations_cases :
      (stations : List lc.Setting) (array : List (Option lc.Setting))
      → length array ≡ station_id_max + 1
      → HaveIds stations
      → Added array stations
  unfolding add_stations Added
  add_stations_cases [] array long ids =
      inr (array, refl, record { kept = λ id s e. e; found = tt })
  add_stations_cases (station ∷ rest) array long ((id, small, named), ids) =
      let inside : id < length array = omega (arith, small, long) in
      let old = get_or array id none in
      let there : get_elem? array id ≡ some old = get_elem?-lt array id none inside in
      let put = set array id (some station) in
      elim (Option-cases old) [
        | inr (other, taken) ↦ inl (rw (named, there, taken) refl)
        | inl free ↦
            elim (add_stations_cases rest put (length-set array id (some station) ∙ long) ids) [
              | inl duplicate ↦ inl (rw (named, there, free) duplicate)
              | inr (after, added, h) ↦ inr (
                after,
                rw (named, there, free) added,
                record {
                  kept = λ id2 s e. h.kept id2 s (
                      get_elem?-set_ne array id id2 (some station) (λ same.
                        clash s
                          (sym (there ∙ ap some free) ∙ ap (λ (i : ℕ). get_elem? array i) same ∙ e))
                      ∙ e);
                  found = (
                    (
                      id,
                      named,
                      h.kept id station (get_elem?-set_self array id (some station) inside),
                    ),
                    h.found,
                  );
                },
              )
            ]
      ]

  valid_id :
      (station : lc.Setting)
      → systable_validate_station_id lc station ≡ st_err_ok
      → (id : ℕ) × (id ≤ station_id_max) × (lc.lookup_int station id_key ≡ some (plus id))
  unfolding systable_validate_station_id
  valid_id station ok = by_value (lc.lookup_int station id_key) refl
    where
      by_value :
          (value : Option Signed)
          → lc.lookup_int station id_key ≡ value
          → (id : ℕ) × (id ≤ station_id_max) × (lc.lookup_int station id_key ≡ some (plus id))
      by_value none e = absurd (ground (arith, e, ok))
      by_value (some (minus n)) e = absurd (ground (arith, e, ok))
      by_value (some (plus n)) e = (n, ground (arith, e, ok), e)

  valid_ids :
      (stations : List lc.Setting) → validate_each lc stations ≡ st_err_ok → HaveIds stations
  unfolding validate_each systable_validate_station
  valid_ids [] ok = tt
  valid_ids (station ∷ rest) ok =
      let (first, others) =
        fail_if_ok (systable_validate_station lc station) (validate_each lc rest) ok in
      elim (Bool-cases (lc.is_group station)) [
        | inl group ↦ (
          valid_id station
              (fail_if_ok (systable_validate_station_id lc station) _ (rw group at first)).0,
          valid_ids rest others,
        )
        | inr other ↦ absurd (ground (arith, first, other))
      ]

  read_cases :
      (err : SystableErrCode) (cfg : lc.Setting)
      → (err ≡ st_err_ok) ⊎ (read_checked lc err cfg ≡ some (failed err))
  read_cases st_err_ok cfg = inl refl
  read_cases st_err_version_missing cfg = inr refl
  read_cases st_err_version_out_of_range cfg = inr refl
  read_cases st_err_stations_missing cfg = inr refl
  read_cases st_err_station_wrong_type cfg = inr refl
  read_cases st_err_station_id_missing cfg = inr refl
  read_cases st_err_station_id_out_of_range cfg = inr refl
  read_cases st_err_station_id_duplicate cfg = inr refl
  read_cases st_err_station_name_wrong_type cfg = inr refl
  read_cases st_err_station_coordinate_missing cfg = inr refl
  read_cases st_err_station_coordinate_wrong_type cfg = inr refl
  read_cases st_err_frequencies_missing cfg = inr refl
  read_cases st_err_frequency_wrong_type cfg = inr refl

  -- The array of a valid table, or the error of a duplicate id.
  Read : lc.Setting → Type 0
  Read cfg =
      ((err : SystableErrCode) × (systable_read lc cfg ≡ some (failed err)))
      ⊎ ((stations : lc.Setting) × (array : List (Option lc.Setting)) × (lc.get_member cfg
              stations_key
            ≡ some stations)
          × (systable_read lc cfg ≡ some (cached array))
          × AreFound (lc.elems stations) array)

  Read-valid :
      (cfg stations : lc.Setting)
      → systable_validate lc cfg ≡ st_err_ok
      → lc.get_member cfg stations_key ≡ some stations
      → validate_each lc (lc.elems stations) ≡ st_err_ok
      → Read cfg
  unfolding systable_read systable_populate_stations_cache Read Added
  Read-valid cfg stations ok there valid =
      elim (add_stations_cases (lc.elems stations) (replicate (station_id_max + 1) none)
        (length-replicate {A = Option lc.Setting} (station_id_max + 1) none)
        (valid_ids (lc.elems stations) valid)) [
          | inl duplicate ↦ inl (st_err_station_id_duplicate, rw (ok, there) duplicate)
          | inr (array, added, h) ↦ inr (stations, array, there, rw (ok, there) added, h.found)
        ]

  -- Reading a table ends with an error or with an array, and never accesses the array of stations
  -- outside its bounds: what the checks let pass is all that the array relies on. Where it ends with
  -- an array, each station of the table has an id and stands in the array under it.
  pub systable_read_lem :
      (cfg : lc.Setting)
      → ((err : SystableErrCode) × (systable_read lc cfg ≡ some (failed err)))
        ⊎ ((stations : lc.Setting) × (array : List (Option lc.Setting)) × (lc.get_member cfg
                stations_key
              ≡ some stations)
            × (systable_read lc cfg ≡ some (cached array))
            × AreFound (lc.elems stations) array)
  unfolding systable_read systable_validate Read
  systable_read_lem cfg = elim (read_cases (systable_validate lc cfg) cfg) [
    | inr bad ↦ inl (systable_validate lc cfg, bad)
    | inl ok ↦
        let checked =
          (fail_if_ok (systable_validate_version lc cfg)
            (checked_stations lc (lc.get_member cfg stations_key)) ok).1 in
        elim (Option-cases (lc.get_member cfg stations_key)) [
          | inl missing ↦ absurd (ground (arith, checked, missing))
          | inr (stations, there) ↦
              let listed = rw there at checked in
              elim (Bool-cases (lc.is_list stations)) [
                | inl list ↦ Read-valid cfg stations ok there (rw list at listed)
                | inr other ↦ absurd (ground (arith, listed, other))
              ]
        ]
  ]
