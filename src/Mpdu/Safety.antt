-- ===== src/Mpdu/Safety.antt =====
-- The parser of src/mpdu.c reads nothing outside the MPDU.
use dumphfdl.Common.{
  ℕ, zero, suc, ◌+◌, ◌/◌, ◌%◌, ◌^◌, ◌≤◌, ◌<◌, ◌≡◌, ◌∙◌, ◌⊎◌, refl, ap, some, byte_at, byte_at-lt,
  peek-lt, IsOctets, List, length, take, drop, ltb, leb, Bool-cases, inl, inr, arith, Safe,
  Safe->>=, Safe-peek, Option-cases,
}
use dumphfdl.Pdu.{HdrData, Config}
use dumphfdl.Pdu.Check.{fcs_check-total}
use dumphfdl.Services.{Services}
use dumphfdl.Lpdu.{Tree}
use dumphfdl.Lpdu.Safety.{lpdu_parse-Safe}
use dumphfdl.Mpdu.{
  Scan, too_short, scanned, scan_aircraft, append_node, aircraft_cnt, is_downlink, parse_lpdu_list,
  Uplink, uplink_loop, mpdu_good, header_len, mpdu_parse,
}

Scan-cases : (scan : Scan) → (scan ≡ too_short) ⊎ ((n : ℕ) × (scan ≡ scanned n))
Scan-cases too_short = inl refl
Scan-cases (scanned n) = inr (n, refl)

scan_aircraft-Safe : (i : ℕ) (buf : List ℕ) (hdr_len : ℕ) → Safe (scan_aircraft i buf hdr_len)
unfolding scan_aircraft
scan_aircraft-Safe zero buf hdr_len = (_, refl)
scan_aircraft-Safe (suc i) buf hdr_len = elim (Bool-cases (ltb (length buf) (hdr_len + 2))) [
  | inl short ↦ rw short (_, refl)
  | inr long ↦ rw long (
      Safe->>= _ _ (Safe-peek buf (hdr_len + 1) (ground arith))
        λ b. scan_aircraft-Safe i buf (hdr_len + 2 + b / 2 ^ 4))
]

-- A step of the scan that succeeds read an octet of the buffer.
scan_aircraft-step :
    (i : ℕ) (buf : List ℕ) (hdr_len n : ℕ)
    → scan_aircraft (suc i) buf hdr_len ≡ some (scanned n)
    → (hdr_len + 2 ≤ length buf)
      × (scan_aircraft i buf (hdr_len + 2 + byte_at buf (hdr_len + 1) / 2 ^ 4) ≡ some (scanned n))
unfolding scan_aircraft
scan_aircraft-step i buf hdr_len n e = elim (Bool-cases (ltb (length buf) (hdr_len + 2))) [
  | inl short ↦ absurd (ground (arith, short, e))
  | inr long ↦
      let lt : hdr_len + 1 < length buf = ground (arith, long) in
      (omega arith, ground (arith, long, peek-lt buf (hdr_len + 1) lt, e))
]

scan_aircraft-le :
    (i : ℕ) (buf : List ℕ) (hdr_len n : ℕ)
    → scan_aircraft i buf hdr_len ≡ some (scanned n)
    → hdr_len ≤ n
unfolding scan_aircraft
scan_aircraft-le zero buf hdr_len n e = ground (arith, e)
scan_aircraft-le (suc i) buf hdr_len n e =
    let (_, rest) = scan_aircraft-step i buf hdr_len n e in
    let le = scan_aircraft-le i buf _ n rest in omega (arith, le)

module _ (s : Services) (config : Config) where
  parse_lpdu_list-Safe :
      (j : ℕ) (buf : List ℕ) (lpdu_len_ptr data_ptr consumed : ℕ) (header : HdrData) (w : s.World)
      (lpdu_list : List (Tree s))
      → lpdu_len_ptr + j ≤ length buf
      → Safe (parse_lpdu_list s config j buf lpdu_len_ptr data_ptr consumed header w lpdu_list)
  unfolding parse_lpdu_list
  parse_lpdu_list-Safe zero buf lp dp consumed header w l h = (_, refl)
  parse_lpdu_list-Safe (suc j) buf lp dp consumed header w l h =
      Safe->>= _ _ (Safe-peek buf lp (omega arith)) λ b.
        elim (Bool-cases (leb (dp + (b + 1)) (length buf))) [
          | inl fits ↦ rw fits (
              Safe->>= _ _ (lpdu_parse-Safe s config w (take (b + 1) (drop dp buf)) header) λ r.
                parse_lpdu_list-Safe j buf (lp + 1) (dp + (b + 1)) (consumed + (b + 1)) header r.0
                  (append_node l r.1) (omega arith))
          | inr truncated ↦ rw truncated (_, refl)
        ]

  -- The second loop over the aircraft meets the same counts as the first.
  uplink_loop-Safe :
      (i : ℕ) (buf : List ℕ) (hdrptr dataptr n : ℕ) (u : Uplink s config)
      → IsOctets buf
      → scan_aircraft i buf hdrptr ≡ some (scanned n)
      → n ≤ length buf
      → Safe (uplink_loop s config i buf hdrptr dataptr u)
  unfolding uplink_loop
  uplink_loop-Safe zero buf hdrptr dataptr n u octets e h = (_, refl)
  uplink_loop-Safe (suc i) buf hdrptr dataptr n u octets e h =
      let (le, rest) = scan_aircraft-step i buf hdrptr n e in
      let cnt = byte_at buf (hdrptr + 1) / 2 ^ 4 % 2 ^ 4 in
      let small : byte_at buf (hdrptr + 1) / 2 ^ 4 ≡ cnt =
        omega (arith, byte_at-lt buf (hdrptr + 1) octets) in
      let rest' : scan_aircraft i buf (hdrptr + 2 + cnt) ≡ some (scanned n) = rw (← small) rest in
      let le' = scan_aircraft-le i buf _ n rest' in
      Safe->>= _ _ (Safe-peek buf hdrptr (omega arith)) λ dst_id.
        rw (peek-lt buf (hdrptr + 1) (omega (arith, le))) (
          Safe->>= _ _
            (parse_lpdu_list-Safe cnt buf (hdrptr + 2) dataptr 0 _ u.world u.lpdu_list
              (omega (arith, le', h)))
            λ p. elim (Option-cases p.consumed_octets) [
              | inl truncated ↦ rw truncated (_, refl)
              | inr (m, whole) ↦
                  rw whole
                    (uplink_loop-Safe i buf (hdrptr + 2 + cnt) (dataptr + m) n _ octets rest' h)
            ])

  header_len-Safe : (buf : List ℕ) (b0 : ℕ) → Safe (header_len buf b0)
  unfolding header_len
  header_len-Safe buf b0 = elim (Bool-cases (is_downlink b0)) [
    | inl down ↦ rw down (_, refl)
    | inr up ↦ rw up (scan_aircraft-Safe (aircraft_cnt b0) buf 2)
  ]

  mpdu_good-Safe :
      (buf : List ℕ) (b0 n : ℕ) (u : Uplink s config)
      → IsOctets buf
      → header_len buf b0 ≡ some (scanned n)
      → n + 2 ≤ length buf
      → Safe (mpdu_good s config buf b0 n u)
  unfolding mpdu_good header_len
  mpdu_good-Safe buf b0 n u octets e h = elim (Bool-cases (is_downlink b0)) [
    | inl down ↦
        let n' : n ≡ 6 + b0 / 2 ^ 2 % 2 ^ 4 = ground (arith, down, e) in
        rw down (
          Safe->>= _ _ (Safe-peek buf 2 (omega (arith, n'))) λ src_id.
            Safe->>= _ _ (Safe-peek buf 1 (omega (arith, n'))) λ b1.
              Safe->>= _ _
                (parse_lpdu_list-Safe (b0 / 2 ^ 2 % 2 ^ 4) buf 6 (n + 2) 0 _ u.world u.lpdu_list
                  (omega (arith, n')))
                λ p. (_, refl))
    | inr up ↦
        let scan : scan_aircraft (aircraft_cnt b0) buf 2 ≡ some (scanned n) =
          ground (arith, up, e) in
        let le = scan_aircraft-le (aircraft_cnt b0) buf 2 n scan in
        rw up (
          Safe->>= _ _ (Safe-peek buf 1 (omega (arith, le)))
            λ b1. uplink_loop-Safe (aircraft_cnt b0) buf 2 (n + 2) n _ octets scan (omega arith))
  ]

  -- Whatever octets a non-empty MPDU holds, parsing its header, its LPDUs and what they carry reads no
  -- octet outside it: the counts and the lengths that it declares are checked first.
  pub mpdu_parse-Safe :
      (w : s.World) (buf : List ℕ) (freq : ℕ)
      → IsOctets buf
      → 0 < length buf
      → Safe (mpdu_parse s config w buf freq)
  unfolding mpdu_parse
  mpdu_parse-Safe w buf freq octets h =
      let b0 = byte_at buf 0 in
      let (scan, e) = header_len-Safe buf b0 in
      elim (Scan-cases scan) [
        | inl short ↦ rw (peek-lt buf 0 h, e, short) (_, refl)
        | inr (n, is) ↦
            rw (peek-lt buf 0 h, e, is)
              (elim (Bool-cases (ltb (length buf) (n + 2))) [
                | inl short ↦ rw short (_, refl)
                | inr long ↦ rw long (
                    Safe->>= _ _ (fcs_check-total buf n (ground arith)) λ crc_ok.
                      elim (Bool-cases crc_ok) [
                        | inl good ↦ rw good (
                            Safe->>= _ _
                              (mpdu_good-Safe buf b0 n _ octets (e ∙ ap some is) (ground arith))
                              λ u. (_, refl))
                        | inr bad ↦ rw bad (_, refl)
                      ])
              ])
      ]
