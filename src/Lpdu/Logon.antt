-- ===== src/Lpdu/Logon.antt =====
-- What an LPDU does to the aircraft cache (src/lpdu.c).
use dumphfdl.Common.{
  ℕ, ◌+◌, ◌-◌, ◌^◌, ◌<◌, ◌≡◌, ◌⊎◌, inl, inr, refl, ap, ◌∙◌, true, false, none, some, ◌>>=◌, List,
  [], ◌∷◌, ◌++◌, length, ltb, if◌then◌else◌, Bool-cases, arith, length-append, take-append,
}
use dumphfdl.Util.{parse_icao_hex}
use dumphfdl.Util.Reverse.{icao_octets, parse_icao_hex-icao_octets}
use dumphfdl.Pdu.{HdrData, Config, hfdl_pdu_fcs_check}
use dumphfdl.Pdu.Check.{frame}
use dumphfdl.Services.{Services}
use dumphfdl.Hfnpdu.{Node}
use dumphfdl.Lpdu.Data.{LpduData, logon_confirm, logoff_request, LpduNode}
use dumphfdl.Lpdu.{
  logon_confirm_parse, logoff_request_parse, is_unnumbered, is_logoff, is_confirm, apply_logoff,
  apply_logon, lpdu_switch, lpdu_good, lpdu_parse, finish, bad_lpdu,
}

module _ (s : Services) where
  -- An LPDU that is too short for a type and a sum, or whose sum does not match, leaves the
  -- aircraft cache and the system table alone, and its LPDU is reported as faulty or, by
  -- default, not at all.
  pub lpdu_parse-bad :
      (config : Config) (w : s.World) (buf : List ℕ) (header : HdrData)
      → (length buf < 3) ⊎ (hfdl_pdu_fcs_check buf (length buf - 2) ≡ some false)
      → lpdu_parse s config w buf header
        ≡ some (w, (if config.output_corrupted_pdus then some (bad_lpdu s buf header) else none))
  unfolding lpdu_parse
  lpdu_parse-bad config w buf header (inl short) = ground arith
  lpdu_parse-bad config w buf header (inr bad) = elim (Bool-cases (ltb (length buf) 3)) [
    | inl short ↦ ground arith
    | inr long ↦ rw (long, bad) (ground arith)
  ]

  -- A frame that passes is parsed without its sum.
  lpdu_parse-good :
      (config : Config) (w : s.World) (body : List ℕ) (lo hi : ℕ) (header : HdrData)
      → 0 < length body
      → hfdl_pdu_fcs_check (frame body lo hi []) (length body) ≡ some true
      → lpdu_parse s config w (frame body lo hi []) header
        ≡ (lpdu_good s w (frame body lo hi []) body header >>= λ r. some (r.0, finish s config r.1))
  unfolding lpdu_parse
  lpdu_parse-good config w body lo hi header nonempty good =
      let n : length (frame body lo hi []) ≡ length body + 2 = length-append body (lo ∷ hi ∷ []) in
      let n' : length (frame body lo hi []) - 2 ≡ length body = omega (arith, n) in
      let long : ltb (length (frame body lo hi [])) 3 ≡ false = ground (arith, n) in
      rw (long, n', good, take-append body (lo ∷ hi ∷ [])) refl

  confirm-other : (t : ℕ) → is_confirm t ≡ true → (is_unnumbered t ≡ false) × (is_logoff t ≡ false)
  confirm-other t h = ground arith

  logoff-other : (t : ℕ) → is_logoff t ≡ true → is_unnumbered t ≡ false
  logoff-other t h = ground arith

  -- An LPDU that carries a type, an address and further octets.
  abbrev pub with_address : ℕ → ℕ → List ℕ → List ℕ
  with_address t a rest = t ∷ (icao_octets a ++ rest)

  address_lem :
      (t a : ℕ) (rest : List ℕ) → a < 2 ^ 24 → parse_icao_hex (with_address t a rest) 1 ≡ some a
  unfolding parse_icao_hex
  address_lem t a rest h = parse_icao_hex-icao_octets a rest h

  abbrev pub good_lpdu : List ℕ → HdrData → ℕ → LpduData → LpduNode (Node s)
  good_lpdu pdu header t contents = record {
    msg = record {
      pdu = pdu;
      mpdu_header = header;
      type_id = t;
      crc_ok = true;
      err = false;
      contents = contents;
    };
    next = none;
  }

  logon_good :
      (w : s.World) (pdu : List ℕ) (header : HdrData) (t a id b5 b6 b7 : ℕ)
      → is_confirm t ≡ true
      → a < 2 ^ 24
      → lpdu_good s w pdu (with_address t a (id ∷ b5 ∷ b6 ∷ b7 ∷ [])) header
        ≡ some (
          s.ac_cache_entry_create w header.freq id a,
          good_lpdu pdu header t (logon_confirm a id),
        )
  unfolding lpdu_good lpdu_switch logon_confirm_parse apply_logon
  logon_good w pdu header t a id b5 b6 b7 is h =
      rw
        (
          (confirm-other t is).0,
          (confirm-other t is).1,
          is,
          address_lem t a (id ∷ b5 ∷ b6 ∷ b7 ∷ []) h,
        )
        refl

  logoff_good :
      (w : s.World) (pdu : List ℕ) (header : HdrData) (t a reason : ℕ)
      → is_logoff t ≡ true
      → a < 2 ^ 24
      → lpdu_good s w pdu (with_address t a (reason ∷ [])) header
        ≡ some (
          s.ac_cache_entry_delete w header.freq a,
          good_lpdu pdu header t (logoff_request a reason),
        )
  unfolding lpdu_good lpdu_switch logoff_request_parse apply_logoff
  logoff_good w pdu header t a reason is h =
      rw (logoff-other t is, is, address_lem t a (reason ∷ []) h) refl

  -- A logon confirmation of eight octets whose sum is right has one effect: the aircraft with the
  -- 24-bit address of the LPDU gets the identifier that follows it, on the channel of the MPDU.
  pub lpdu_parse-logon :
      (config : Config) (w : s.World) (header : HdrData) (t a id b5 b6 b7 lo hi : ℕ)
      → is_confirm t ≡ true
      → a < 2 ^ 24
      → hfdl_pdu_fcs_check (frame (with_address t a (id ∷ b5 ∷ b6 ∷ b7 ∷ [])) lo hi []) 8
        ≡ some true
      → lpdu_parse s config w (frame (with_address t a (id ∷ b5 ∷ b6 ∷ b7 ∷ [])) lo hi []) header
        ≡ some (
          s.ac_cache_entry_create w header.freq id a,
          some (
              good_lpdu
                (frame (with_address t a (id ∷ b5 ∷ b6 ∷ b7 ∷ [])) lo hi [])
                header
                t
                (logon_confirm a id)),
        )
  lpdu_parse-logon config w header t a id b5 b6 b7 lo hi is h good =
      let body = with_address t a (id ∷ b5 ∷ b6 ∷ b7 ∷ []) in
      lpdu_parse-good config w body lo hi header (omega arith) good
      ∙ ap (λ m. m >>= λ r. some (r.0, finish s config r.1))
          (logon_good w (frame body lo hi []) header t a id b5 b6 b7 is h)

  -- A logoff request, or a denial, of five octets whose sum is right has one effect: the aircraft
  -- with the address of the LPDU is removed from the channel of the MPDU.
  pub lpdu_parse-logoff :
      (config : Config) (w : s.World) (header : HdrData) (t a reason lo hi : ℕ)
      → is_logoff t ≡ true
      → a < 2 ^ 24
      → hfdl_pdu_fcs_check (frame (with_address t a (reason ∷ [])) lo hi []) 5 ≡ some true
      → lpdu_parse s config w (frame (with_address t a (reason ∷ [])) lo hi []) header
        ≡ some (
          s.ac_cache_entry_delete w header.freq a,
          some (
              good_lpdu
                (frame (with_address t a (reason ∷ [])) lo hi [])
                header
                t
                (logoff_request a reason)),
        )
  lpdu_parse-logoff config w header t a reason lo hi is h good =
      let body = with_address t a (reason ∷ []) in
      lpdu_parse-good config w body lo hi header (omega arith) good
      ∙ ap (λ m. m >>= λ r. some (r.0, finish s config r.1))
          (logoff_good w (frame body lo hi []) header t a reason is h)
