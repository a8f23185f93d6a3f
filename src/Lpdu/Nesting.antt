-- ===== src/Lpdu/Nesting.antt =====
-- The JSON of every LPDU that the parser of src/lpdu.c returns is well-formed.
use dumphfdl.Common.{
  ℕ, ◌≡◌, refl, ◌⊎◌, Bool, true, false, Option, none, some, List, [], ◌∷◌, if◌then◌else◌, not, ◌&&◌,
  ltb, length, take, ◌-◌, Bool-cases, Option-cases, peek, Ensures, Ensures->>=, Ensures-at, inl,
  inr, arith,
}
use dumphfdl.Pdu.{Direction, uplink_pdu, downlink_pdu, HdrData, Config, hfdl_pdu_fcs_check}
use dumphfdl.Services.{Services}
use dumphfdl.Json.{Frame, object}
use dumphfdl.Json.Nesting.{
  RunsOr, RunsOr-of, RunsOr-calls, RunsOr-seq, FillsOr, FillsOr-of, FillsOr-seq,
}
use dumphfdl.Format.{Lookups}
use dumphfdl.Format.Nesting.{
  Unanswered, gs_id_format_json-Runs, ac_id_format_json-Runs, ac_data_format_json-Runs,
}
use dumphfdl.Lpdu.Data.{LpduData, no_data, logon_request, logon_confirm, logoff_request, LpduMsg}
use dumphfdl.Lpdu.{
  is_logoff, is_confirm, is_request, lpdu_switch, lpdu_good, lpdu_parse, Tree, finish, bad_lpdu,
  logon_confirm_parse, logon_request_parse, logoff_request_parse,
}
use dumphfdl.Lpdu.Format.{
  addresses_json, logoff_json, confirm_json, request_json, contents_json, lpdu_format_json,
}

-- The union holds the member of the type.
abbrev pub is_logoff_data : LpduData → Bool
is_logoff_data (logoff_request a r) = true
is_logoff_data other = false

abbrev pub is_confirm_data : LpduData → Bool
is_confirm_data (logon_confirm a i) = true
is_confirm_data other = false

abbrev pub is_request_data : LpduData → Bool
is_request_data (logon_request a) = true
is_request_data other = false

abbrev pub fits_type : ℕ → LpduData → Bool
fits_type t contents =
    if is_logoff t
    then is_logoff_data contents
    else if is_confirm t
    then is_confirm_data contents
    else if is_request t
    then is_request_data contents
    else true

logoff_fits :
    (buf : List ℕ) → Ensures (λ r. is_logoff_data r.contents ≡ true) (logoff_request_parse buf)
unfolding logoff_request_parse
logoff_fits buf = ground arith

confirm_fits :
    (buf : List ℕ) → Ensures (λ r. is_confirm_data r.contents ≡ true) (logon_confirm_parse buf)
unfolding logon_confirm_parse
confirm_fits buf = ground arith

request_fits :
    (buf : List ℕ) → Ensures (λ r. is_request_data r.contents ≡ true) (logon_request_parse buf)
unfolding logon_request_parse
request_fits buf = ground arith

module _ (s : Services) where
  lpdu_switch_fits :
      (w : s.World) (buf : List ℕ) (freq t : ℕ)
      → Ensures (λ r. fits_type t r.1.contents ≡ true) (lpdu_switch s w buf freq t)
  unfolding lpdu_switch
  lpdu_switch_fits w buf freq t =
      ground (arith, logoff_fits buf, confirm_fits buf, request_fits buf)

  abbrev MsgFits : s.World × Tree s → Type 0
  MsgFits r = fits_type r.1.msg.type_id r.1.msg.contents ≡ true

  lpdu_good_fits :
      (w : s.World) (pdu buf : List ℕ) (header : HdrData)
      → Ensures MsgFits (lpdu_good s w pdu buf header)
  unfolding lpdu_good
  lpdu_good_fits w pdu buf header = elim (Option-cases (peek buf 0)) [
    | inl e ↦ rw e _
    | inr (t, e) ↦ rw e (
        Ensures->>= (λ r. fits_type t r.1.contents ≡ true) MsgFits _ _
          (lpdu_switch_fits w buf header.freq t) (λ r p. ground (arith, p)))
  ]

  -- `finish` and a bad sum keep the match: an erroneous LPDU has no member.
  abbrev pub NodeFits : s.World × Option (Tree s) → Type 0
  NodeFits (w, none) = Unit
  NodeFits (w, some node) = fits_type node.msg.type_id node.msg.contents ≡ true

  finish_fits :
      (config : Config) (w : s.World) (node : Tree s)
      → fits_type node.msg.type_id node.msg.contents ≡ true
      → NodeFits (w, finish s config node)
  finish_fits config w node p =
      elim (Bool-cases (node.msg.err && not config.output_corrupted_pdus)) [
        | inl dropped ↦ rw dropped _
        | inr kept ↦ rw kept p
      ]

  -- Whatever the LPDU holds, the union of the node that is returned holds the member that belongs to
  -- its type: an address with a reason for a logoff or a denial, one with an ID for a confirmation,
  -- an address alone for a request.
  pub lpdu_parse-NodeFits :
      (config : Config) (w : s.World) (buf : List ℕ) (header : HdrData)
      → Ensures NodeFits (lpdu_parse s config w buf header)
  unfolding lpdu_parse
  lpdu_parse-NodeFits config w buf header = elim (Bool-cases (ltb (length buf) 3)) [
    | inl short ↦ rw short (finish_fits config w (bad_lpdu s buf header) refl)
    | inr long ↦ rw long (elim (Option-cases (hfdl_pdu_fcs_check buf (length buf - 2))) [
      | inl e ↦ rw e _
      | inr (true, e) ↦ rw e (
          Ensures->>= MsgFits NodeFits _ _ (lpdu_good_fits w buf (take (length buf - 2) buf) header)
            (λ r p. finish_fits config r.0 r.1 p))
      | inr (false, e) ↦ rw e (finish_fits config w (bad_lpdu s buf header) refl)
    ])
  ]

-- The address in the union, and the ID of the aircraft in the header.
abbrev pub address_of : LpduData → Option ℕ
address_of no_data = none
address_of (logon_request a) = some a
address_of (logon_confirm a i) = some a
address_of (logoff_request a reason) = some a

abbrev pub aircraft_id : Direction → HdrData → ℕ
aircraft_id uplink_pdu header = header.dst_id
aircraft_id downlink_pdu header = header.src_id

module _ (l : Lookups) (Q : ℕ → Type 0) where
  addresses_json-Runs :
      (fs : List Frame) (direction : Direction) (header : HdrData)
      → ((w : l.World) (a : ℕ)
          → (l.ac_cache_entry_lookup w header.freq (aircraft_id direction header)).1 ≡ some a
          → Q a)
      → RunsOr
          (Unanswered l Q)
          (object ("err" ∷ []) ∷ fs)
          (addresses_json l direction header)
          (object ("dst" ∷ "src" ∷ "err" ∷ []) ∷ fs)
  addresses_json-Runs fs uplink_pdu header cached =
      RunsOr-seq (RunsOr-of (gs_id_format_json-Runs l fs "src" _ header.src_id refl))
        (ac_id_format_json-Runs l Q fs "dst" _ header.freq header.dst_id cached refl)
  addresses_json-Runs fs downlink_pdu header cached =
      RunsOr-seq (ac_id_format_json-Runs l Q fs "src" _ header.freq header.src_id cached refl)
        (RunsOr-of (gs_id_format_json-Runs l fs "dst" _ header.dst_id refl))

  logoff_json-Fills :
      (fs : List Frame) (t : ℕ) (c : LpduData)
      → is_logoff_data c ≡ true
      → ((a : ℕ) → address_of c ≡ some a → Q a)
      → FillsOr (Unanswered l Q) fs ("type" ∷ "dst" ∷ "src" ∷ "err" ∷ []) (logoff_json l t c)
  logoff_json-Fills fs t no_data h carried = absurd (ground (arith, h))
  logoff_json-Fills fs t (logon_request a) h carried = absurd (ground (arith, h))
  logoff_json-Fills fs t (logon_confirm a i) h carried = absurd (ground (arith, h))
  logoff_json-Fills fs t (logoff_request a r) h carried = FillsOr-of (
      RunsOr-seq (ac_data_format_json-Runs l Q fs "ac_info" _ a (carried a refl) refl)
        (RunsOr-calls _ refl))

  confirm_json-Fills :
      (fs : List Frame) (c : LpduData)
      → is_confirm_data c ≡ true
      → ((a : ℕ) → address_of c ≡ some a → Q a)
      → FillsOr (Unanswered l Q) fs ("type" ∷ "dst" ∷ "src" ∷ "err" ∷ []) (confirm_json l c)
  confirm_json-Fills fs no_data h carried = absurd (ground (arith, h))
  confirm_json-Fills fs (logon_request a) h carried = absurd (ground (arith, h))
  confirm_json-Fills fs (logon_confirm a i) h carried = FillsOr-of (
      RunsOr-seq (ac_data_format_json-Runs l Q fs "ac_info" _ a (carried a refl) refl)
        (RunsOr-calls _ refl))
  confirm_json-Fills fs (logoff_request a r) h carried = absurd (ground (arith, h))

  request_json-Fills :
      (fs : List Frame) (c : LpduData)
      → is_request_data c ≡ true
      → ((a : ℕ) → address_of c ≡ some a → Q a)
      → FillsOr (Unanswered l Q) fs ("type" ∷ "dst" ∷ "src" ∷ "err" ∷ []) (request_json l c)
  request_json-Fills fs no_data h carried = absurd (ground (arith, h))
  request_json-Fills fs (logon_request a) h carried =
      FillsOr-of (ac_data_format_json-Runs l Q fs "ac_info" _ a (carried a refl) refl)
  request_json-Fills fs (logon_confirm a i) h carried = absurd (ground (arith, h))
  request_json-Fills fs (logoff_request a r) h carried = absurd (ground (arith, h))

  contents_json-Fills :
      (fs : List Frame) (t : ℕ) (c : LpduData)
      → fits_type t c ≡ true
      → ((a : ℕ) → address_of c ≡ some a → Q a)
      → FillsOr (Unanswered l Q) fs ("type" ∷ "dst" ∷ "src" ∷ "err" ∷ []) (contents_json l t c)
  contents_json-Fills fs t c fits carried = elim (Bool-cases (is_logoff t)) [
    | inl is ↦ rw is (logoff_json-Fills fs t c (rw is at fits) carried)
    | inr other ↦ rw other (elim (Bool-cases (is_confirm t)) [
      | inl is ↦ rw is (confirm_json-Fills fs c (rw (other, is) at fits) carried)
      | inr other1 ↦ rw other1 (elim (Bool-cases (is_request t)) [
        | inl is ↦ rw is (request_json-Fills fs c (rw (other, other1, is) at fits) carried)
        | inr other2 ↦ rw other2 (FillsOr-of (RunsOr-calls [] refl))
      ])
    ])
  ]

-- An aircraft that the formatter looks up: the one whose address the LPDU carries, or the one with
-- the frequency and the ID of the LPDU in the aircraft cache.
abbrev pub IsShown : (l : Lookups) → LpduMsg → ℕ → Type 0
IsShown l msg a =
    (address_of msg.contents ≡ some a)
    ⊎ ((w : l.World) × ((l.ac_cache_entry_lookup w msg.mpdu_header.freq
            (aircraft_id msg.mpdu_header.direction msg.mpdu_header)).1
          ≡ some a))

module _ (l : Lookups) where
  lpdu_format_json-Fills :
      (fs : List Frame) (msg : LpduMsg)
      → fits_type msg.type_id msg.contents ≡ true
      → FillsOr (Unanswered l (IsShown l msg)) fs [] (lpdu_format_json l msg)
  unfolding lpdu_format_json
  lpdu_format_json-Fills fs msg fits = elim (Bool-cases msg.err) [
    | inl bad ↦ rw bad (FillsOr-of (RunsOr-calls _ refl))
    | inr good ↦ rw good (
        FillsOr-seq (RunsOr-calls _ refl) (
          FillsOr-seq
            (addresses_json-Runs l (IsShown l msg) fs msg.mpdu_header.direction msg.mpdu_header
              (λ w a e. inr (w, e)))
            (FillsOr-seq (RunsOr-calls _ refl) (
              contents_json-Fills l (IsShown l msg) fs msg.type_id msg.contents fits
                (λ a e. inl e)))))
  ]

  -- For every LPDU that lpdu_parse returns, whatever its octets are and whatever the look-ups give,
  -- the JSON formatter either makes an undefined access, and then the aircraft database gives a null
  -- pointer for the address in the LPDU or for that of its aircraft in the cache, or its output is well-formed within the object that libacars opens
  -- for it: each object and array is closed, members of objects have labels and elements of arrays
  -- have none, no label comes twice in an object, and the member of the union that is read is the one
  -- filled in.
  pub lpdu_parse-Fills :
      (s : Services) (config : Config) (w w' : s.World) (buf : List ℕ) (header : HdrData)
      (node : Tree s) (fs : List Frame)
      → lpdu_parse s config w buf header ≡ some (w', some node)
      → FillsOr (Unanswered l (IsShown l node.msg)) fs [] (lpdu_format_json l node.msg)
  lpdu_parse-Fills s config w w' buf header node fs e =
      lpdu_format_json-Fills fs node.msg
        (Ensures-at (NodeFits s) _ (w', some node) (lpdu_parse-NodeFits s config w buf header) e)
