-- ===== src/Lpdu/Safety.antt =====
-- The parser of src/lpdu.c reads nothing outside the LPDU.
use dumphfdl.Common.{
  ℕ, ◌+◌, ◌-◌, ◌≤◌, ◌<◌, refl, List, length, take, drop, length-take, ltb, Bool-cases, inl, inr,
  arith, Safe, Safe->>=, Safe-peek, Option-cases,
}
use dumphfdl.Util.{parse_icao_hex}
use dumphfdl.Pdu.{HdrData, Config}
use dumphfdl.Pdu.Check.{fcs_check-total}
use dumphfdl.Services.{Services}
use dumphfdl.Hfnpdu.Safety.{hfnpdu_parse-Safe}
use dumphfdl.Lpdu.{
  logon_confirm_parse, logon_request_parse, logoff_request_parse, is_unnumbered, is_logoff,
  is_confirm, is_request, lpdu_switch, lpdu_good, lpdu_parse,
}

parse_icao_hex-Safe :
    (buf : List ℕ) (pos : ℕ) → pos + 3 ≤ length buf → Safe (parse_icao_hex buf pos)
unfolding parse_icao_hex
parse_icao_hex-Safe buf pos h = Safe->>= _ _ (Safe-peek buf pos (omega arith)) λ b0.
    Safe->>= _ _ (Safe-peek buf (pos + 1) (omega arith))
      λ b1. Safe->>= _ _ (Safe-peek buf (pos + 2) (omega arith)) λ b2. (_, refl)

logon_confirm_parse-Safe : (buf : List ℕ) → Safe (logon_confirm_parse buf)
unfolding logon_confirm_parse
logon_confirm_parse-Safe buf = elim (Bool-cases (ltb (length buf) 8)) [
  | inl short ↦ rw short (_, refl)
  | inr long ↦ rw long (
      Safe->>= _ _ (parse_icao_hex-Safe buf 1 (ground arith))
        λ icao_address. Safe->>= _ _ (Safe-peek buf 4 (ground arith)) λ ac_id. (_, refl))
]

logon_request_parse-Safe : (buf : List ℕ) → Safe (logon_request_parse buf)
unfolding logon_request_parse
logon_request_parse-Safe buf = elim (Bool-cases (ltb (length buf) 4)) [
  | inl short ↦ rw short (_, refl)
  | inr long ↦
      rw long (Safe->>= _ _ (parse_icao_hex-Safe buf 1 (ground arith)) λ icao_address. (_, refl))
]

logoff_request_parse-Safe : (buf : List ℕ) → Safe (logoff_request_parse buf)
unfolding logoff_request_parse
logoff_request_parse-Safe buf = elim (Bool-cases (ltb (length buf) 5)) [
  | inl short ↦ rw short (_, refl)
  | inr long ↦ rw long (
      Safe->>= _ _ (parse_icao_hex-Safe buf 1 (ground arith))
        λ icao_address. Safe->>= _ _ (Safe-peek buf 4 (ground arith)) λ reason_code. (_, refl))
]

module _ (s : Services) where
  lpdu_switch-Safe :
      (w : s.World) (buf : List ℕ) (freq type_id : ℕ) → Safe (lpdu_switch s w buf freq type_id)
  unfolding lpdu_switch
  lpdu_switch-Safe w buf freq type_id = elim (Bool-cases (is_unnumbered type_id)) [
    | inl is ↦ rw is (_, refl)
    | inr other ↦ rw other (elim (Bool-cases (is_logoff type_id)) [
      | inl is ↦ rw is (Safe->>= _ _ (logoff_request_parse-Safe buf) λ r. (_, refl))
      | inr other ↦ rw other (elim (Bool-cases (is_confirm type_id)) [
        | inl is ↦ rw is (Safe->>= _ _ (logon_confirm_parse-Safe buf) λ r. (_, refl))
        | inr other ↦ rw other (elim (Bool-cases (is_request type_id)) [
          | inl is ↦ rw is (Safe->>= _ _ (logon_request_parse-Safe buf) λ r. (_, refl))
          | inr other ↦ rw other (_, refl)
        ])
      ])
    ])
  ]

  lpdu_good-Safe :
      (w : s.World) (pdu buf : List ℕ) (header : HdrData)
      → 0 < length buf
      → Safe (lpdu_good s w pdu buf header)
  unfolding lpdu_good
  lpdu_good-Safe w pdu buf header h = Safe->>= _ _ (Safe-peek buf 0 h) λ type_id.
      Safe->>= _ _ (lpdu_switch-Safe w buf header.freq type_id) λ r.
        elim (Option-cases r.1.consumed_len) [
          | inl failed ↦ rw failed (_, refl)
          | inr (n, consumed) ↦ rw consumed (elim (Bool-cases (ltb n (length buf))) [
            | inl more ↦ rw more (
                Safe->>= _ _ (hfnpdu_parse-Safe s r.0 (drop n buf) header.direction) λ q. (_, refl))
            | inr whole ↦ rw whole (_, refl)
          ])
        ]

  -- Whatever the LPDU holds and however short it is, parsing it, its sum and the HFNPDU in it
  -- reads no octet outside it.
  pub lpdu_parse-Safe :
      (config : Config) (w : s.World) (buf : List ℕ) (header : HdrData)
      → Safe (lpdu_parse s config w buf header)
  unfolding lpdu_parse
  lpdu_parse-Safe config w buf header = elim (Bool-cases (ltb (length buf) 3)) [
    | inl short ↦ rw short (_, refl)
    | inr long ↦ rw long (
        Safe->>= _ _ (fcs_check-total buf (length buf - 2) (ground arith)) λ crc_ok.
          elim (Bool-cases crc_ok) [
            | inl good ↦ rw good (
                Safe->>= _ _
                  (lpdu_good-Safe w buf (take (length buf - 2) buf) header
                    (ground (arith, length-take (length buf - 2) buf)))
                  λ r. (_, refl))
            | inr bad ↦ rw bad (_, refl)
          ])
  ]
