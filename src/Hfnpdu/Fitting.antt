-- ===== src/Hfnpdu/Fitting.antt =====
-- hfnpdu_parse and hfnpdu_format_json of src/hfnpdu.c together.
use dumphfdl.Common.{
  ℕ, ◌≡◌, refl, Bool, true, Option, none, some, List, [], ◌∷◌, not, ◌||◌, ◌==◌, ltb, length, peek,
  Bool-cases, Option-cases, Ensures, Ensures-all, Ensures-at, inl, inr, arith,
}
use dumphfdl.Pdu.{Direction}
use dumphfdl.Services.{Services}
use dumphfdl.Json.{Frame}
use dumphfdl.Json.Nesting.{Fills}
use dumphfdl.Format.{Lookups}
use dumphfdl.Hfnpdu.Data.{
  HfnpduData, perf_data, HfnpduMsg, Parsed, too_short, parsed, Next, hfnpdu, PerfData, FreqData,
  zero_perf_data, zero_freq_data, freq_data, systable_request_data,
}
use dumphfdl.Hfnpdu.{
  Node, filled, systable_parse, performance_data_parse, systable_request_parse,
  frequency_data_parse, system_table_case, hfnpdu_switch, hfnpdu_parse,
}
use dumphfdl.Hfnpdu.Format.{hfnpdu_format_json}
use dumphfdl.Hfnpdu.Nesting.{fits_type, hfnpdu_format_json-Fills}

-- The frequency index of performance data is one that a 32-bit word can be shifted by.
abbrev pub is_indexed : HfnpduData → Bool
is_indexed (perf_data d) = ltb d.freq_id 32
is_indexed other = true

abbrev msg_fits : HfnpduMsg → Bool
msg_fits msg = not (is_indexed msg.contents) || fits_type msg.type_id msg.contents

module _ (s : Services) where
  abbrev NodeFits : s.World × Option (Node s) → Type 0
  NodeFits (w, some (hfnpdu msg next)) = msg_fits msg ≡ true
  NodeFits (w, other) = Unit

  perf_fits :
      (t : ℕ) (w : s.World) (r : Parsed PerfData)
      → t == 0xd1 ≡ true
      → NodeFits (w, some (hfnpdu (filled t zero_perf_data perf_data r) none))
  perf_fits t w too_short is = ground arith
  perf_fits t w (parsed d n) is = ground arith

  request_fits :
      (t : ℕ) (w : s.World) (r : Parsed ℕ)
      → t == 0xd2 ≡ true
      → NodeFits (w, some (hfnpdu (filled t 0 systable_request_data r) none))
  request_fits t w too_short is = ground arith
  request_fits t w (parsed d n) is = ground arith

  freq_fits :
      (t : ℕ) (w : s.World) (r : Parsed FreqData)
      → t == 0xd5 ≡ true
      → NodeFits (w, some (hfnpdu (filled t zero_freq_data freq_data r) none))
  freq_fits t w too_short is = ground arith
  freq_fits t w (parsed d n) is = ground arith

  system_table_fits : (w : s.World) (buf : List ℕ) → Ensures NodeFits (system_table_case s w buf)
  unfolding system_table_case
  system_table_fits w buf = elim (Option-cases (systable_parse buf)) [
    | inl e ↦ rw e _
    | inr (too_short, e) ↦ rw e refl
    | inr (parsed d n, e) ↦
        rw e (elim (Bool-cases (ltb n (length buf))) [
          | inl more ↦ rw more refl
          | inr all ↦ rw all refl
        ])
  ]

  hfnpdu_switch_fits :
      (w : s.World) (buf : List ℕ) (direction : Direction) (t : ℕ)
      → Ensures NodeFits (hfnpdu_switch s w buf direction t)
  unfolding hfnpdu_switch
  hfnpdu_switch_fits w buf direction t = elim (Bool-cases (t == 0xd0)) [
    | inl is ↦ rw is (system_table_fits w buf)
    | inr other ↦ rw other (elim (Bool-cases (t == 0xd1)) [
      | inl is ↦
          rw is (Ensures-all NodeFits (performance_data_parse buf) _ (λ r. perf_fits t w r is))
      | inr other1 ↦ rw other1 (elim (Bool-cases (t == 0xd2)) [
        | inl is ↦
            rw is (Ensures-all NodeFits (systable_request_parse buf) _ (λ r. request_fits t w r is))
        | inr other2 ↦ rw other2 (elim (Bool-cases (t == 0xd5)) [
          | inl is ↦
              rw is (Ensures-all NodeFits (frequency_data_parse buf) _ (λ r. freq_fits t w r is))
          | inr other3 ↦ rw other3 (elim (Bool-cases (t == 0xff)) [
            | inl is ↦ rw is refl
            | inr other4 ↦ rw other4 (ground arith)
          ])
        ])
      ])
    ])
  ]

  hfnpdu_parse_fits :
      (w : s.World) (buf : List ℕ) (direction : Direction)
      → Ensures NodeFits (hfnpdu_parse s w buf direction)
  unfolding hfnpdu_parse
  hfnpdu_parse_fits w [] direction = _
  hfnpdu_parse_fits w (b0 ∷ rest) direction = elim (Bool-cases (b0 == 0xff)) [
    | inr other ↦ rw other _
    | inl is ↦ rw is (elim (Bool-cases (ltb (length (b0 ∷ rest)) 2)) [
      | inl short ↦ rw short _
      | inr long ↦ rw long (
          Ensures-all NodeFits (peek (b0 ∷ rest) 1) _
            (λ t. hfnpdu_switch_fits w (b0 ∷ rest) direction t))
    ])
  ]

-- The JSON of every HFNPDU that hfnpdu_parse returns is well-formed within the object that libacars
-- opens for it, whatever its octets are and whatever the look-ups give, unless it is performance data
-- with a frequency index of 32 or more: each object and array is closed, members of objects have
-- labels and elements of arrays have none, no label comes twice in an object, and the member of the
-- union that is read is the one filled in.
pub hfnpdu_parse-Fills :
    (s : Services) (l : Lookups) (w w' : s.World) (buf : List ℕ) (direction : Direction)
    (msg : HfnpduMsg) (next : Option (Next s.SystableMsg s.AcarsMsg)) (fs : List Frame)
    → hfnpdu_parse s w buf direction ≡ some (w', some (hfnpdu msg next))
    → is_indexed msg.contents ≡ true
    → Fills fs [] (hfnpdu_format_json l msg)
hfnpdu_parse-Fills s l w w' buf direction msg next fs e indexed =
    let fits : msg_fits msg ≡ true =
      Ensures-at (NodeFits s) _ (w', some (hfnpdu msg next)) (hfnpdu_parse_fits s w buf direction)
        e in
    hfnpdu_format_json-Fills l fs msg (rw indexed at fits)
