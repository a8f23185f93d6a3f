-- ===== src/Systable/Replacing.antt =====
-- systable_process_pdu_set of src/systable.c: which tables take the place of the current one.
use dumphfdl.Common.{
  ℕ, ◌≡◌, ◌⊎◌, refl, Bool, true, false, Option, none, some, List, Bool-cases, Option-cases, inl,
  inr, arith, Ensures, Ensures->>=,
}
use dumphfdl.Util.{plus}
use dumphfdl.Systable.{Decoded, reassemble, systable_decode, systable_is_newer}
use dumphfdl.Systable.Stations.{Libconfig, Cached, cached, failed, systable_populate_stations_cache}
use dumphfdl.Systable.Lookup.{Values, systable_get_version}
use dumphfdl.Systable.Update.{Writer, systable_generate_config, systable_copy_station_names}
use dumphfdl.Systable.Process.{
  Systable, populated, saved, generated, is_update, updated, received, version_of,
  systable_process_pdu_set,
}

ensured {ℓ κ} :
    {A : Type ℓ} {P Q : A → Type κ}
    → ((a : A) → P a → Q a)
    → (m : Option A) → Ensures P m
    → Ensures Q m
ensured h none p = _
ensured h (some a) p = h a p

module _ (lc : Libconfig) (v : Values lc) (wr : Writer lc v) where
  -- The current table is that of a configuration, whose stations stand under their ids.
  abbrev pub IsNew : Systable lc v wr → Type 0
  IsNew st' =
      (cfg : wr.Config) × (stations : List (Option lc.Setting)) × (systable_populate_stations_cache
          lc (wr.root cfg)
        ≡ some (cached stations))
      × (st'.current ≡ record { cfg = wr.root cfg; stations = stations; available = true })

  -- The table is kept, or replaced by one that was decoded without an error, where there was none
  -- or the received version is newer.
  abbrev pub Replaces : Systable lc v wr → ℕ → Decoded → Systable lc v wr → Type 0
  Replaces st version sc st' =
      (st'.current ≡ st.current)
      ⊎ ((sc.err ≡ false)
          × ((st.current.available ≡ false)
              ⊎ (systable_is_newer (systable_get_version lc v (some st.current)) (plus version)
                  ≡ true))
          × IsNew st')

  abbrev pub Outcome : Systable lc v wr → Systable lc v wr × Option (ℕ × Decoded) → Type 0
  Outcome st (st', result) =
      ((reassemble st.pdu_set ≡ none) × (st' ≡ st) × (result ≡ none))
      ⊎ ((buf : List ℕ) × (sc : Decoded) × (reassemble st.pdu_set ≡ some buf)
          × (systable_decode buf ≡ some sc)
          × (result ≡ some (version_of st.pdu_set, sc))
          × (st'.pdu_set ≡ none)
          × Replaces st (version_of st.pdu_set) sc st')

  abbrev Keeps : Systable lc v wr → Systable lc v wr → Type 0
  Keeps st st' = (st'.pdu_set ≡ st.pdu_set) × ((st'.current ≡ st.current) ⊎ IsNew st')

  populated_lem :
      (st : Systable lc v wr) (cfg : wr.Config) (r : Cached lc)
      → systable_populate_stations_cache lc (wr.root cfg) ≡ some r
      → Keeps st (populated lc v wr (saved lc v wr st cfg) cfg r)
  unfolding populated saved
  populated_lem st cfg (cached stations) e = (ground arith, inr (cfg, stations, e, refl))
  populated_lem st cfg (failed error) e = (ground arith, inl (ground arith))

  generated_lem :
      (st : Systable lc v wr) (g : wr.Config × Bool) → Ensures (Keeps st) (generated lc v wr st g)
  unfolding generated
  generated_lem st (cfg, false) = (refl, inl refl)
  generated_lem st (cfg, true) =
      elim (Option-cases (systable_copy_station_names lc v wr cfg st.current.stations)) [
        | inl e ↦ rw e _
        | inr (named, e) ↦
            rw e (elim (Option-cases (systable_populate_stations_cache lc (wr.root named))) [
              | inl e' ↦ rw e' _
              | inr (r, e') ↦ rw e' (populated_lem st named r e')
            ])
      ]

  abbrev Updates : Systable lc v wr → ℕ → Decoded → Systable lc v wr → Type 0
  Updates st version sc st' = (st'.pdu_set ≡ st.pdu_set) × Replaces st version sc st'

  is_update_lem :
      (st : Systable lc v wr) (version : ℕ) (sc : Decoded)
      → is_update lc v wr st version sc ≡ true
      → (sc.err ≡ false)
        × ((st.current.available ≡ false)
            ⊎ (systable_is_newer (systable_get_version lc v (some st.current)) (plus version)
                ≡ true))
  unfolding is_update
  is_update_lem st version sc e = ground (arith, e)

  updated_lem :
      (st : Systable lc v wr) (version : ℕ) (sc : Decoded)
      → Ensures (Updates st version sc) (updated lc v wr st version sc)
  unfolding updated
  updated_lem st version sc = elim (Bool-cases (is_update lc v wr st version sc)) [
    | inr kept ↦ rw kept (refl, inl refl)
    | inl due ↦
        let (sound, newer) = is_update_lem st version sc due in
        rw due (
          ensured {P = Keeps st} {Q = Updates st version sc}
            (λ st' keeps. (keeps.0, replaces sound newer st' keeps.1)) _
            (generated_lem st (systable_generate_config lc v wr wr.config_init version sc.gs_list)))
  ]
    where
      replaces :
          sc.err ≡ false
          → (st.current.available ≡ false)
            ⊎ (systable_is_newer (systable_get_version lc v (some st.current)) (plus version)
                ≡ true)
          → (st' : Systable lc v wr) → (st'.current ≡ st.current) ⊎ IsNew st'
          → Replaces st version sc st'
      replaces sound newer st' (inl same) = inl same
      replaces sound newer st' (inr new) = inr (sound, newer, new)

  received_lem :
      (st : Systable lc v wr) (buf : List ℕ)
      → reassemble st.pdu_set ≡ some buf
      → Ensures (Outcome st) (received lc v wr st buf)
  unfolding received
  received_lem st buf whole = elim (Option-cases (systable_decode buf)) [
    | inl e ↦ rw e _
    | inr (sc, e) ↦ rw e (
        Ensures->>= (Updates (record st { pdu_set = none }) (version_of st.pdu_set) sc) (Outcome st)
          _ _ (updated_lem (record st { pdu_set = none }) (version_of st.pdu_set) sc)
          (λ st' u. inr (buf, sc, whole, e, refl, u.0, u.1)))
  ]

  process_of :
      (st : Systable lc v wr) (o : Option (List ℕ))
      → reassemble st.pdu_set ≡ o
      → Ensures
          (Outcome st)
          (elim o [ none ↦ some (st, none) | some buf ↦ received lc v wr st buf ])
  process_of st none e = inl (e, refl, refl)
  process_of st (some buf) e = received_lem st buf e

  -- Whatever libconfig does: as long as a PDU of the set is missing, nothing changes. A complete set
  -- is taken out of the store, decoded as the version that it was stored under, and reported. The
  -- current table is then kept, or, if the message was decoded without an error and there was no
  -- table or an older one, replaced by an available one whose array of stations was filled without
  -- an error; no other table takes its place.
  pub systable_process_pdu_set_result :
      (st : Systable lc v wr) → Ensures (Outcome st) (systable_process_pdu_set lc v wr st)
  unfolding systable_process_pdu_set
  systable_process_pdu_set_result st = process_of st (reassemble st.pdu_set) refl
