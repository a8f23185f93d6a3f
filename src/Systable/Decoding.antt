-- ===== src/Systable/Decoding.antt =====
-- The decoder of a system table in src/systable.c.
use dumphfdl.Common.{
  ℕ, zero, suc, ◌+◌, ◌*◌, ◌/◌, ◌%◌, ◌^◌, ◌≤◌, ◌<◌, ◌≡◌, ◌⊎◌, refl, ap, true, false, none, some,
  List, [], ◌∷◌, ◌++◌, length, drop, length-drop, ◌==◌, ltb, leb, Bool-cases, inl, inr, arith, Safe,
  Safe->>=, Safe-peek,
}
use dumphfdl.Util.{coordinate, low_field, high_field}
use dumphfdl.Systable.{
  GsData, failed, complete, systable_decode_frequency, frequencies_loop, systable_decode_gs,
  Decoded, decode_loop, systable_decode,
}

-- The wire form of a frequency: its decimal digits above the tens, two in an octet.
abbrev pub frequency_octets : ℕ → List ℕ
frequency_octets hundreds =
    (hundreds % 10 + hundreds / 10 % 10 * 16)
    ∷ (hundreds / 100 % 10 + hundreds / 1000 % 10 * 16)
    ∷ (hundreds / 10000 % 10 + hundreds / 100000 % 10 * 16)
    ∷ []

-- Every multiple of 100 Hz below 100 MHz comes back from its six digits, two in an octet.
pub systable_decode_frequency-octets :
    (hundreds : ℕ) (rest : List ℕ)
    → hundreds < 1000000
    → systable_decode_frequency (frequency_octets hundreds ++ rest) 0 ≡ some (hundreds * 100)
unfolding systable_decode_frequency
systable_decode_frequency-octets hundreds rest h = ap some (omega arith)

systable_decode_frequency-Safe :
    (buf : List ℕ) (pos : ℕ) → pos + 3 ≤ length buf → Safe (systable_decode_frequency buf pos)
unfolding systable_decode_frequency
systable_decode_frequency-Safe buf pos h = Safe->>= _ _ (Safe-peek buf pos (omega arith)) λ b0.
    Safe->>= _ _ (Safe-peek buf (pos + 1) (omega arith))
      λ b1. Safe->>= _ _ (Safe-peek buf (pos + 2) (omega arith)) λ b2. (_, refl)

-- The loop stops at the end of the message, or reads every frequency within it.
frequencies_loop-result :
    (cnt : ℕ) (buf : List ℕ) (pos : ℕ)
    → pos ≤ length buf
    → (frequencies_loop cnt buf pos ≡ some none)
      ⊎ ((l : List (ℕ × ℕ)) × (frequencies_loop cnt buf pos ≡ some (some l))
          × (length l ≡ cnt)
          × (pos + cnt * 4 ≤ length buf))
unfolding frequencies_loop
frequencies_loop-result zero buf pos h = inr ([], refl, refl, omega (arith, h))
frequencies_loop-result (suc cnt) buf pos h = elim (Bool-cases (leb (pos + 3 + 1) (length buf))) [
  | inr short ↦ inl (rw short refl)
  | inl long ↦
      let (freq, e0) = systable_decode_frequency-Safe buf pos (ground (arith, long)) in
      let (b, e1) = Safe-peek buf (pos + 3) (ground (arith, long)) in
      elim (frequencies_loop-result cnt buf (pos + 4) (ground (arith, long))) [
        | inl stop ↦ inl (rw (long, e0, e1, stop) refl)
        | inr (l, e, n, le) ↦
            inr ((freq, b % 2 ^ 4) ∷ l, rw (long, e0, e1, e) refl, ap suc n, omega (arith, le))
      ]
]

-- A station: as many frequencies as it counts, 20 at most, the capacity of its arrays.
abbrev pub IsStation : GsData → Type 0
IsStation d = (length d.frequencies ≡ d.freq_cnt) × (d.freq_cnt ≤ 20)

-- From a message of eight octets or more, a station is refused, or is sound and takes seven octets
-- or more, none past the end.
systable_decode_gs_result :
    (buf : List ℕ)
    → 8 ≤ length buf
    → (systable_decode_gs buf ≡ some failed)
      ⊎ ((d : GsData) × (n : ℕ) × (systable_decode_gs buf ≡ some (complete d n))
          × (7 ≤ n)
          × (n ≤ length buf)
          × IsStation d)
unfolding systable_decode_gs
systable_decode_gs_result buf h =
    let (b0, e0) = Safe-peek buf 0 (omega arith) in
    let (b1, e1) = Safe-peek buf 1 (omega arith) in
    let (b2, e2) = Safe-peek buf 2 (omega arith) in
    let (b3, e3) = Safe-peek buf 3 (omega arith) in
    let (b4, e4) = Safe-peek buf 4 (omega arith) in
    let (b5, e5) = Safe-peek buf 5 (omega arith) in
    let (b6, e6) = Safe-peek buf 6 (omega arith) in
    let cnt = b6 / 2 ^ 3 % 2 ^ 5 in
    elim (Bool-cases (ltb 20 cnt)) [
      | inl many ↦ inl (rw (e0, e1, e2, e3, e4, e5, e6, many) refl)
      | inr few ↦ elim (frequencies_loop-result cnt buf 7 (omega arith)) [
        | inl stop ↦ inl (rw (e0, e1, e2, e3, e4, e5, e6, few, stop) refl)
        | inr (l, e, n, le) ↦ inr (
          record {
            gs_id = b0 % 2 ^ 7;
            utc_sync = b0 / 2 ^ 7 % 2 == 1;
            lat = coordinate (low_field b1 b2 b3);
            lon = coordinate (high_field b3 b4 b5);
            spdu_version = b6 % 2 ^ 3;
            freq_cnt = cnt;
            frequencies = l;
          },
          7 + cnt * 4,
          rw (e0, e1, e2, e3, e4, e5, e6, few, e) refl,
          omega arith,
          le,
          (n, ground (arith, few)),
        )
      ]
    ]

abbrev pub AllStations : List GsData → Type 0
AllStations [] = Unit
AllStations (d ∷ l) = IsStation d × AllStations l

all-append :
    (l : List GsData) (d : GsData) → AllStations l → IsStation d → AllStations (l ++ d ∷ [])
all-append [] d all h = (h, _)
all-append (x ∷ l) d all h = (all.0, all-append l d all.1 h)

decode_loop-result :
    (fuel : ℕ) (buf : List ℕ) (gs_list : List GsData)
    → length buf < fuel
    → AllStations gs_list
    → (r : Decoded) × (decode_loop fuel buf gs_list ≡ some r) × AllStations r.gs_list
unfolding decode_loop
decode_loop-result zero buf gs_list h all = absurd (omega arith)
decode_loop-result (suc fuel) buf gs_list h all = elim (Bool-cases (leb 8 (length buf))) [
  | inr short ↦ (record { gs_list = gs_list; err = false }, rw short refl, all)
  | inl long ↦ elim (systable_decode_gs_result buf (ground (arith, long))) [
    | inl stop ↦ (record { gs_list = gs_list; err = true }, rw (long, stop) refl, all)
    | inr (d, n, e, min, le, is) ↦
        let (r, e', all') =
          decode_loop-result fuel (drop n buf) (gs_list ++ d ∷ [])
            (omega (arith, length-drop n buf, min, le, h)) (all-append gs_list d all is) in
        (r, rw (long, e) e', all')
  ]
]

-- Decoding a message of at least one octet, of any length and contents, passes its ASSERTs and ends,
-- reads no octet outside the message, and lists only stations with as many frequencies as they count, 20 at most.
pub systable_decode-total :
    (buf : List ℕ)
    → 0 < length buf
    → (r : Decoded) × (systable_decode buf ≡ some r) × AllStations r.gs_list
unfolding systable_decode
systable_decode-total buf h =
    let filled : (length buf == 0) ≡ false = ground (arith, h) in
    rw filled (decode_loop-result (suc (length buf)) buf [] (omega arith) _)
