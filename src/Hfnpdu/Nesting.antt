-- ===== src/Hfnpdu/Nesting.antt =====
-- The JSON of an HFNPDU (src/hfnpdu.c) is well-formed.
use Prim.Native.String.{String}
use dumphfdl.Common.{
  ℕ, zero, suc, ◌*◌, ◌%◌, ◌^◌, ◌≤◌, some, ◌≡◌, refl, none, Bool, true, false, List, [], ◌∷◌, ltb,
  ◌==◌, if◌then◌else◌, Bool-cases, inl, inr, arith,
}
use dumphfdl.Json.{Frame, object, array, is_used, object_end, calls, ◌▸◌, defined}
use dumphfdl.Json.Nesting.{
  Runs, Runs-calls, Runs-seq, Runs-ask, Runs-defined, Runs-both, Fills, Fills-of, Fills-seq,
}
use dumphfdl.Util.{shift_left}
use dumphfdl.Format.{Lookups, freq_json}
use dumphfdl.Format.Nesting.{gs_id_format_json-Runs, freq_list_format_json-Runs}
use dumphfdl.Hfnpdu.Data.{
  PerfData, PropFreqs, FreqData, HfnpduData, no_data, perf_data, freq_data, systable_request_data,
  systable_data, HfnpduMsg,
}
use dumphfdl.Hfnpdu.Format.{
  frequency_json, performance_data_format_json, systable_format_json, systable_request_format_json,
  propagating_freqs_format_json, propagating_freqs_loop, frequency_data_format_json, contents_json,
  hfnpdu_format_json, zero_prop_freqs, as_systable_data, as_perf_data, as_systable_request_data,
  as_freq_data,
}

-- The union holds the member of the type, and the index of the frequency is one that a 32-bit word
-- can be shifted by.
abbrev pub is_systable_data : HfnpduData → Bool
is_systable_data (systable_data d) = true
is_systable_data other = false

abbrev pub is_perf_data : HfnpduData → Bool
is_perf_data (perf_data d) = ltb d.freq_id 32
is_perf_data other = false

abbrev pub is_request_data : HfnpduData → Bool
is_request_data (systable_request_data d) = true
is_request_data other = false

abbrev pub is_freq_data : HfnpduData → Bool
is_freq_data (freq_data d) = true
is_freq_data other = false

abbrev pub fits_type : ℕ → HfnpduData → Bool
fits_type t contents =
    if t == 0xd0
    then is_systable_data contents
    else if t == 0xd1
    then is_perf_data contents
    else if t == 0xd2
    then is_request_data contents
    else if t == 0xd5
    then is_freq_data contents
    else true

shift_small : (n : ℕ) → ltb n 32 ≡ true → shift_left 1 n ≡ some (1 * 2 ^ n % 2 ^ 32)
unfolding shift_left
shift_small n small = rw small refl

shift_far : (n : ℕ) → 32 ≤ n → shift_left 1 n ≡ none
unfolding shift_left
shift_far n far = let e : ltb n 32 ≡ false = ground (arith, far) in rw e refl

module _ (l : Lookups) (fs : List Frame) where
  freq-closes :
      (gs : List Frame) (f : l.Double)
      → Runs
          (object ("id" ∷ []) ∷ gs)
          (calls {W = l.World} (freq_json l f) ▸ calls (object_end ∷ []))
          gs
  freq-closes gs f = Runs-both _ _ (ground arith)

  frequency_json-Runs :
      (ks : List String) (gs_id freq_id : ℕ)
      → ltb freq_id 32 ≡ true
      → is_used "frequency" ks ≡ false
      → Runs (object ks ∷ fs) (frequency_json l gs_id freq_id) (object ("frequency" ∷ ks) ∷ fs)
  frequency_json-Runs ks gs_id freq_id small fresh =
      Runs-seq {gs = object [] ∷ object ("frequency" ∷ ks) ∷ fs} (Runs-calls _ (rw fresh refl)) (
        Runs-seq
          (Runs-defined (shift_left 1 freq_id) (1 * 2 ^ freq_id % 2 ^ 32) _
            (shift_small freq_id small) (Runs-calls _ refl))
          (Runs-ask _ _ (freq-closes _)))

  performance_data_format_json-Fills :
      (pdu : PerfData)
      → ltb pdu.freq_id 32 ≡ true
      → Fills fs ("type" ∷ "err" ∷ []) (performance_data_format_json l pdu)
  unfolding performance_data_format_json
  performance_data_format_json-Fills pdu small = Fills-seq (Runs-calls _ refl) (
      Fills-seq (gs_id_format_json-Runs l fs "gs" _ pdu.gs_id refl) (
        Fills-seq (frequency_json-Runs _ pdu.gs_id pdu.freq_id small refl)
          (Fills-of (Runs-calls _ refl))))

  propagating_freqs_format_json-Runs :
      (d : PropFreqs) → Runs (array ∷ fs) (propagating_freqs_format_json l d) (array ∷ fs)
  unfolding propagating_freqs_format_json
  propagating_freqs_format_json-Runs d = Runs-seq (Runs-calls _ refl) (
      Runs-seq (gs_id_format_json-Runs l (array ∷ fs) "gs" [] d.gs_id refl) (
        Runs-seq (freq_list_format_json-Runs l _ "listening_on_freqs" _ d.gs_id d.tuned_freqs refl)
          (Runs-seq (freq_list_format_json-Runs l _ "heard_on_freqs" _ d.gs_id d.prop_freqs refl)
            (Runs-calls _ refl))))

  propagating_freqs_loop-Runs :
      (n : ℕ) (entries : List PropFreqs)
      → Runs (array ∷ fs) (propagating_freqs_loop l n entries) (array ∷ fs)
  unfolding propagating_freqs_loop
  propagating_freqs_loop-Runs zero entries = Runs-calls [] refl
  propagating_freqs_loop-Runs (suc n) [] =
      Runs-seq (propagating_freqs_format_json-Runs zero_prop_freqs)
        (propagating_freqs_loop-Runs n [])
  propagating_freqs_loop-Runs (suc n) (entry ∷ entries) =
      Runs-seq (propagating_freqs_format_json-Runs entry) (propagating_freqs_loop-Runs n entries)

module _ (l : Lookups) (fs : List Frame) where
  frequency_data_format_json-Fills :
      (pdu : FreqData) → Fills fs ("type" ∷ "err" ∷ []) (frequency_data_format_json l pdu)
  unfolding frequency_data_format_json
  frequency_data_format_json-Fills pdu = Fills-of (
      Runs-seq (Runs-calls _ refl) (
        Runs-seq (propagating_freqs_loop-Runs l _ pdu.propagating_freqs_cnt pdu.propagating_freqs)
          (Runs-calls _ refl)))

  case_systable :
      (c : HfnpduData)
      → is_systable_data c ≡ true
      → Fills fs ("type" ∷ "err" ∷ []) (as_systable_data l c)
  unfolding systable_format_json
  case_systable no_data h = absurd (ground (arith, h))
  case_systable (perf_data d) h = absurd (ground (arith, h))
  case_systable (freq_data d) h = absurd (ground (arith, h))
  case_systable (systable_request_data d) h = absurd (ground (arith, h))
  case_systable (systable_data d) h = Fills-of (Runs-calls _ refl)

  case_perf :
      (c : HfnpduData) → is_perf_data c ≡ true → Fills fs ("type" ∷ "err" ∷ []) (as_perf_data l c)
  case_perf no_data h = absurd (ground (arith, h))
  case_perf (perf_data d) h = performance_data_format_json-Fills l fs d h
  case_perf (freq_data d) h = absurd (ground (arith, h))
  case_perf (systable_request_data d) h = absurd (ground (arith, h))
  case_perf (systable_data d) h = absurd (ground (arith, h))

  case_request :
      (c : HfnpduData)
      → is_request_data c ≡ true
      → Fills fs ("type" ∷ "err" ∷ []) (as_systable_request_data l c)
  unfolding systable_request_format_json
  case_request no_data h = absurd (ground (arith, h))
  case_request (perf_data d) h = absurd (ground (arith, h))
  case_request (freq_data d) h = absurd (ground (arith, h))
  case_request (systable_request_data d) h = Fills-of (Runs-calls _ refl)
  case_request (systable_data d) h = absurd (ground (arith, h))

  case_freq :
      (c : HfnpduData) → is_freq_data c ≡ true → Fills fs ("type" ∷ "err" ∷ []) (as_freq_data l c)
  case_freq no_data h = absurd (ground (arith, h))
  case_freq (perf_data d) h = absurd (ground (arith, h))
  case_freq (freq_data d) h = frequency_data_format_json-Fills d
  case_freq (systable_request_data d) h = absurd (ground (arith, h))
  case_freq (systable_data d) h = absurd (ground (arith, h))

  contents_json-Fills :
      (t : ℕ) (contents : HfnpduData)
      → fits_type t contents ≡ true
      → Fills fs ("type" ∷ "err" ∷ []) (contents_json l t contents)
  contents_json-Fills t contents fits = elim (Bool-cases (t == 0xd0)) [
    | inl is ↦ rw is (case_systable contents (rw is at fits))
    | inr other ↦ rw other (elim (Bool-cases (t == 0xd1)) [
      | inl is ↦ rw is (case_perf contents (rw (other, is) at fits))
      | inr other1 ↦ rw other1 (elim (Bool-cases (t == 0xd2)) [
        | inl is ↦ rw is (case_request contents (rw (other, other1, is) at fits))
        | inr other2 ↦ rw other2 (elim (Bool-cases (t == 0xd5)) [
          | inl is ↦ rw is (case_freq contents (rw (other, other1, other2, is) at fits))
          | inr other3 ↦ rw other3 (Fills-of (Runs-calls [] refl))
        ])
      ])
    ])
  ]

  -- The JSON of an HFNPDU, within the object that libacars opens for it, is well-formed, whatever
  -- the look-ups give: each object and array is closed, members of objects have labels and elements
  -- of arrays have none, and no label comes twice in an object. The union holds the member of the
  -- type, and a frequency index of performance data is below 32.
  pub hfnpdu_format_json-Fills :
      (msg : HfnpduMsg)
      → fits_type msg.type_id msg.contents ≡ true
      → Fills fs [] (hfnpdu_format_json l msg)
  unfolding hfnpdu_format_json
  hfnpdu_format_json-Fills msg fits = elim (Bool-cases msg.err) [
    | inl bad ↦ rw bad (Fills-of (Runs-calls _ refl))
    | inr good ↦
        rw good (Fills-seq (Runs-calls _ refl) (contents_json-Fills msg.type_id msg.contents fits))
  ]

  -- With a frequency index of 32 or more, formatting performance data shifts a 32-bit word too far,
  -- which C leaves undefined: this is reached, whatever the other fields are.
  pub performance_data_format_json-shift :
      (pdu : PerfData) (w : l.World)
      → 32 ≤ pdu.freq_id
      → performance_data_format_json l pdu w ≡ none
  unfolding performance_data_format_json ◌▸◌ calls defined
  performance_data_format_json-shift pdu w h =
      let (r, e, n) = gs_id_format_json-Runs l fs "gs" [] pdu.gs_id refl w in
      rw (e, shift_far pdu.freq_id h) refl
