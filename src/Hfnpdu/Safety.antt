-- ===== src/Hfnpdu/Safety.antt =====
-- The parsers of src/hfnpdu.c read nothing outside the PDU.
use dumphfdl.Common.{
  ℕ, zero, suc, ◌+◌, ◌*◌, ◌≤◌, ◌≡◌, refl, some, List, [], ◌∷◌, length, ◌==◌, ltb, leb, Bool-cases,
  inl, inr, arith, Safe, Safe->>=, Safe-peek,
}
use dumphfdl.Util.{copy_octets}
use dumphfdl.Util.Fields.{extract_uint16_t-total, copy_octets-total}
use dumphfdl.Pdu.{Direction}
use dumphfdl.Services.{Services}
use dumphfdl.Hfnpdu.Data.{PropFreqs, too_short}
use dumphfdl.Hfnpdu.{
  systable_parse, systable_request_parse, location_at, mpdu_stats_at, performance_data_parse,
  prop_freqs_at, prop_freqs_loop, frequency_data_parse, performance_data_fields, system_table_case,
  hfnpdu_switch, hfnpdu_parse,
}

systable_parse-Safe : (buf : List ℕ) → Safe (systable_parse buf)
unfolding systable_parse
systable_parse-Safe buf = elim (Bool-cases (ltb (length buf) 5)) [
  | inl short ↦ (too_short, ground arith)
  | inr long ↦ rw long (
      Safe->>= _ _ (Safe-peek buf 2 (ground arith)) λ b2.
        Safe->>= _ _ (Safe-peek buf 3 (ground arith))
          λ b3. Safe->>= _ _ (Safe-peek buf 4 (ground arith)) λ b4. (_, refl))
]

systable_request_parse-Safe : (buf : List ℕ) → Safe (systable_request_parse buf)
unfolding systable_request_parse
systable_request_parse-Safe buf = elim (Bool-cases (ltb (length buf) 4)) [
  | inl short ↦ (too_short, ground arith)
  | inr long ↦
      rw long (Safe->>= _ _ (extract_uint16_t-total buf 2 (ground arith)) λ request_data. (_, refl))
]

location_at-Safe : (buf : List ℕ) (pos : ℕ) → pos + 5 ≤ length buf → Safe (location_at buf pos)
unfolding location_at
location_at-Safe buf pos h = Safe->>= _ _ (Safe-peek buf pos (omega arith)) λ b0.
    Safe->>= _ _ (Safe-peek buf (pos + 1) (omega arith)) λ b1.
      Safe->>= _ _ (Safe-peek buf (pos + 2) (omega arith)) λ b2.
        Safe->>= _ _ (Safe-peek buf (pos + 3) (omega arith))
          λ b3. Safe->>= _ _ (Safe-peek buf (pos + 4) (omega arith)) λ b4. (_, refl)

mpdu_stats_at-Safe : (buf : List ℕ) (pos : ℕ) → pos + 4 ≤ length buf → Safe (mpdu_stats_at buf pos)
unfolding mpdu_stats_at
mpdu_stats_at-Safe buf pos h = Safe->>= _ _ (Safe-peek buf pos (omega arith)) λ a.
    Safe->>= _ _ (Safe-peek buf (pos + 1) (omega arith)) λ b.
      Safe->>= _ _ (Safe-peek buf (pos + 2) (omega arith))
        λ c. Safe->>= _ _ (Safe-peek buf (pos + 3) (omega arith)) λ d. (_, refl)

prop_freqs_at-Safe : (buf : List ℕ) (pos : ℕ) → pos + 6 ≤ length buf → Safe (prop_freqs_at buf pos)
unfolding prop_freqs_at
prop_freqs_at-Safe buf pos h = Safe->>= _ _ (Safe-peek buf pos (omega arith)) λ b0.
    Safe->>= _ _ (Safe-peek buf (pos + 1) (omega arith)) λ b1.
      Safe->>= _ _ (Safe-peek buf (pos + 2) (omega arith)) λ b2.
        Safe->>= _ _ (Safe-peek buf (pos + 3) (omega arith)) λ b3.
          Safe->>= _ _ (Safe-peek buf (pos + 4) (omega arith))
            λ b4. Safe->>= _ _ (Safe-peek buf (pos + 5) (omega arith)) λ b5. (_, refl)

flight_id-Safe : (buf : List ℕ) → 8 ≤ length buf → Safe (copy_octets 6 buf 2)
flight_id-Safe buf h = let r = copy_octets-total 6 buf 2 (omega arith) in (r.0, r.1)

performance_data_fields-Safe : (buf : List ℕ) → 47 ≤ length buf → Safe (performance_data_fields buf)
unfolding performance_data_fields
performance_data_fields-Safe buf h = Safe->>= _ _ (flight_id-Safe buf (omega arith)) λ flight_id.
    Safe->>= _ _ (location_at-Safe buf 8 (omega arith)) λ location.
      Safe->>= _ _ (extract_uint16_t-total buf 13 (omega arith)) λ time.
        Safe->>= _ _ (Safe-peek buf 15 (omega arith)) λ version.
          Safe->>= _ _ (Safe-peek buf 16 (omega arith)) λ flight_leg.
            Safe->>= _ _ (Safe-peek buf 17 (omega arith)) λ gs_id.
              Safe->>= _ _ (Safe-peek buf 18 (omega arith)) λ freq_id.
                Safe->>= _ _ (extract_uint16_t-total buf 19 (omega arith)) λ prev_search.
                  Safe->>= _ _ (extract_uint16_t-total buf 21 (omega arith)) λ cur_search.
                    Safe->>= _ _ (extract_uint16_t-total buf 23 (omega arith)) λ prev_disabled.
                      Safe->>= _ _ (extract_uint16_t-total buf 25 (omega arith)) λ cur_disabled.
                        Safe->>= _ _ (mpdu_stats_at-Safe buf 27 (omega arith)) λ mpdus_rx.
                          Safe->>= _ _ (mpdu_stats_at-Safe buf 31 (omega arith)) λ mpdus_rx_errs.
                            Safe->>= _ _ (extract_uint16_t-total buf 35 (omega arith)) λ spdus_rx.
                              Safe->>= _ _ (Safe-peek buf 37 (omega arith)) λ spdus_rx_errs.
                                Safe->>= _ _ (mpdu_stats_at-Safe buf 38 (omega arith)) λ mpdus_tx.
                                  Safe->>= _ _ (mpdu_stats_at-Safe buf 42 (omega arith))
                                    λ mpdus_delivered.
                                      Safe->>= _ _ (Safe-peek buf 46 (omega arith))
                                        λ freq_change_code. (_, refl)

performance_data_parse-Safe : (buf : List ℕ) → Safe (performance_data_parse buf)
unfolding performance_data_parse
performance_data_parse-Safe buf = elim (Bool-cases (ltb (length buf) 47)) [
  | inl short ↦ (too_short, ground arith)
  | inr long ↦
      rw long (Safe->>= _ _ (performance_data_fields-Safe buf (ground arith)) λ result. (_, refl))
]

-- However long the PDU is, the loop reads whole entries only, and consumes what it read.
prop_freqs_loop-Safe :
    (rounds : ℕ) (buf : List ℕ) (pos : ℕ)
    → (r : List PropFreqs × ℕ) × (prop_freqs_loop rounds buf pos ≡ some r)
      × (length r.0 ≤ rounds)
      × (r.1 ≡ pos + 6 * length r.0)
unfolding prop_freqs_loop
prop_freqs_loop-Safe zero buf pos = (([], pos), refl, omega arith, omega arith)
prop_freqs_loop-Safe (suc rounds) buf pos = elim (Bool-cases (leb (pos + 6) (length buf))) [
  | inr no_room ↦ (([], pos), rw no_room refl, omega arith, omega arith)
  | inl room ↦
      let (entry, e) = prop_freqs_at-Safe buf pos (ground arith) in
      let (r, e', le, count) = prop_freqs_loop-Safe rounds buf (pos + 6) in
      ((entry ∷ r.0, r.1), rw (room, e, e') refl, omega arith, omega arith)
]

frequency_data_parse-Safe : (buf : List ℕ) → Safe (frequency_data_parse buf)
unfolding frequency_data_parse
frequency_data_parse-Safe buf = elim (Bool-cases (ltb (length buf) 15)) [
  | inl short ↦ (too_short, ground arith)
  | inr long ↦ rw long (
      Safe->>= _ _ (flight_id-Safe buf (ground arith)) λ flight_id.
        Safe->>= _ _ (location_at-Safe buf 8 (ground arith)) λ location.
          Safe->>= _ _ (extract_uint16_t-total buf 13 (ground arith)) λ time.
            let (r, e, _, _) = prop_freqs_loop-Safe 6 buf 15 in
            Safe->>= _ _ (r, e) λ entries. (_, refl))
]

module _ (s : Services) where
  system_table_case-Safe : (w : s.World) (buf : List ℕ) → Safe (system_table_case s w buf)
  unfolding system_table_case
  system_table_case-Safe w buf = Safe->>= _ _ (systable_parse-Safe buf) λ r. (_, refl)

  hfnpdu_switch-Safe :
      (w : s.World) (buf : List ℕ) (direction : Direction) (type_id : ℕ)
      → Safe (hfnpdu_switch s w buf direction type_id)
  unfolding hfnpdu_switch
  hfnpdu_switch-Safe w buf direction type_id = elim (Bool-cases (type_id == 0xd0)) [
    | inl is ↦ rw is (system_table_case-Safe w buf)
    | inr other ↦ rw other (elim (Bool-cases (type_id == 0xd1)) [
      | inl is ↦ rw is (Safe->>= _ _ (performance_data_parse-Safe buf) λ r. (_, refl))
      | inr other ↦ rw other (elim (Bool-cases (type_id == 0xd2)) [
        | inl is ↦ rw is (Safe->>= _ _ (systable_request_parse-Safe buf) λ r. (_, refl))
        | inr other ↦ rw other (elim (Bool-cases (type_id == 0xd5)) [
          | inl is ↦ rw is (Safe->>= _ _ (frequency_data_parse-Safe buf) λ r. (_, refl))
          | inr other ↦ rw other (elim (Bool-cases (type_id == 0xff)) [
            | inl is ↦ rw is (_, refl)
            | inr other ↦ rw other (_, refl)
          ])
        ])
      ])
    ])
  ]

  -- Whatever the PDU holds and however short it is, parsing it reads no octet outside it: every
  -- length check covers the reads behind it, those of the frequency loop included.
  pub hfnpdu_parse-Safe :
      (w : s.World) (buf : List ℕ) (direction : Direction) → Safe (hfnpdu_parse s w buf direction)
  unfolding hfnpdu_parse
  hfnpdu_parse-Safe w [] direction = (_, refl)
  hfnpdu_parse-Safe w (b0 ∷ rest) direction = elim (Bool-cases (b0 == 0xff)) [
    | inr no_hfnpdu ↦ rw no_hfnpdu (_, refl)
    | inl is ↦ rw is (elim (Bool-cases (ltb (length (b0 ∷ rest)) 2)) [
      | inl short ↦ rw short (_, refl)
      | inr long ↦ rw long (
          Safe->>= _ _ (Safe-peek (b0 ∷ rest) 1 (ground arith))
            λ type_id. hfnpdu_switch-Safe w (b0 ∷ rest) direction type_id)
    ])
  ]
