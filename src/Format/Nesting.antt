-- ===== src/Format/Nesting.antt =====
-- The shared formatters of src/util.c keep a JSON document well-formed.
use Prim.Native.String.{String}
use dumphfdl.Common.{
  ℕ, zero, suc, ◌≡◌, refl, ◌∙◌, Bool, true, false, Option, none, some, List, [], ◌∷◌, ◌++◌,
  if◌then◌else◌, arith, ◌⊎◌, inl, inr,
}
use dumphfdl.AcData.{AcDataEntry}
use dumphfdl.Json.{
  Event, fault, Frame, object, array, is_used, scan, calls, ◌▸◌, ask, object_end, array_end,
}
use dumphfdl.Json.Nesting.{
  Runs, Runs-calls, Runs-seq, Runs-ask, Runs-both, scan-append, RunsOr, RunsOr-of, RunsOr-calls,
  RunsOr-seq, RunsOr-ask,
}
use dumphfdl.Format.{
  Lookups, safe_json_append_string, gs_id_format_json, entry_json, ac_data_format_json, ac_info,
  ac_id_format_json, freq_list_loop, freq_list_format_json, gs_max_freq_cnt, normal_json,
  verbose_json, AcDataDetails,
}

-- The look-up of one of some aircraft gives a null pointer, as ac_data_entry_lookup does when a query
-- fails or the address has more than six digits.
abbrev pub Unanswered : Lookups → (ℕ → Type 0) → Type 0
Unanswered l Q = (w : l.World) × (addr : ℕ) × Q addr × ((l.ac_data_entry_lookup w addr).1 ≡ none)

module _ (l : Lookups) where
  gs_name-closes :
      (fs : List Frame) (name : Option (List ℕ))
      → scan
          (object ("id" ∷ "type" ∷ []) ∷ fs)
          (safe_json_append_string l "name" name ++ object_end ∷ [])
        ≡ some fs
  unfolding safe_json_append_string
  gs_name-closes fs none = refl
  gs_name-closes fs (some name) = refl

  -- A ground station is one member of the open object.
  pub gs_id_format_json-Runs :
      (fs : List Frame) (label : String) (ks : List String) (gs_id : ℕ)
      → is_used label ks ≡ false
      → Runs (object ks ∷ fs) (gs_id_format_json l label gs_id) (object (label ∷ ks) ∷ fs)
  unfolding gs_id_format_json
  gs_id_format_json-Runs fs label ks gs_id fresh = Runs-ask _ _ λ gs_name.
      Runs-seq (Runs-calls _ (rw fresh refl))
        (Runs-both _ _ (gs_name-closes (object (label ∷ ks) ∷ fs) gs_name))

  details-closes :
      (fs : List Frame) (d : AcDataDetails) (ac : AcDataEntry)
      → scan
          (object ("icao" ∷ []) ∷ fs)
          ((normal_json l ac ++ verbose_json l d ac) ++ object_end ∷ [])
        ≡ some fs
  unfolding safe_json_append_string
  details-closes fs d ac = ground arith

  freq_list_loop-scan :
      (fs : List Frame) (rounds i gs_id freqs : ℕ) (w : l.World)
      → scan (array ∷ fs) (freq_list_loop l rounds i w gs_id freqs) ≡ some (array ∷ fs)
  unfolding freq_list_loop
  freq_list_loop-scan fs zero i gs_id freqs w = refl
  freq_list_loop-scan fs (suc rounds) i gs_id freqs w =
      ground (arith, freq_list_loop-scan fs rounds (suc i) gs_id freqs w)

  -- And so is a list of frequencies.
  pub freq_list_format_json-Runs :
      (fs : List Frame) (label : String) (ks : List String) (gs_id freqs : ℕ)
      → is_used label ks ≡ false
      → Runs (object ks ∷ fs) (freq_list_format_json l label gs_id freqs) (object (label ∷ ks) ∷ fs)
  unfolding freq_list_format_json
  freq_list_format_json-Runs fs label ks gs_id freqs fresh = Runs-ask _ _ λ w. Runs-calls _ (
      rw fresh (
        scan-append (array ∷ object (label ∷ ks) ∷ fs)
          (freq_list_loop l gs_max_freq_cnt 0 w gs_id freqs) (array_end ∷ [])
        ∙ rw (freq_list_loop-scan (object (label ∷ ks) ∷ fs) gs_max_freq_cnt 0 gs_id freqs w) refl))

module _ (l : Lookups) (Q : ℕ → Type 0) where
  entry_json-closes :
      (fs : List Frame) (w : l.World) (addr : ℕ) (o : Option AcDataEntry) (w' : l.World)
      → Q addr
      → (l.ac_data_entry_lookup w addr).1 ≡ o
      → (((entry_json l o ▸ calls (object_end ∷ [])) w' ≡ none) × Unanswered l Q)
        ⊎ ((r : l.World × List (Event l.Double)) × ((entry_json l o ▸ calls (object_end ∷ [])) w'
              ≡ some r)
            × (scan (object ("icao" ∷ []) ∷ fs) r.1 ≡ some fs))
  unfolding ◌▸◌ fault
  entry_json-closes fs w addr none w' looked e = inl (refl, (w, addr, looked, e))
  entry_json-closes fs w addr (some ac) w' looked e =
      inr (Runs-both _ _ (details-closes l fs l.ac_data_details ac) w')

  entry_if_available :
      (fs : List Frame) (b : Bool) (addr : ℕ)
      → Q addr
      → RunsOr
          (Unanswered l Q)
          (object ("icao" ∷ []) ∷ fs)
          ((if b then ask (λ w. l.ac_data_entry_lookup w addr) (entry_json l) else calls [])
            ▸ calls (object_end ∷ []))
          fs
  unfolding ◌▸◌ ask
  entry_if_available fs false addr looked = RunsOr-of (Runs-both [] _ refl)
  entry_if_available fs true addr looked =
      λ w. let r = l.ac_data_entry_lookup w addr in entry_json-closes fs w addr r.1 r.0 looked refl

  -- So is what is known of an aircraft, if its look-up gives an entry.
  pub ac_data_format_json-Runs :
      (fs : List Frame) (label : String) (ks : List String) (addr : ℕ)
      → Q addr
      → is_used label ks ≡ false
      → RunsOr
          (Unanswered l Q)
          (object ks ∷ fs)
          (ac_data_format_json l label addr)
          (object (label ∷ ks) ∷ fs)
  unfolding ac_data_format_json
  ac_data_format_json-Runs fs label ks addr looked fresh =
      RunsOr-seq (RunsOr-calls _ (rw fresh refl))
        (entry_if_available _ l.ac_data_available addr looked)

  ac_info-closes :
      (fs : List Frame) (entry : Option ℕ)
      → ((a : ℕ) → entry ≡ some a → Q a)
      → RunsOr
          (Unanswered l Q)
          (object ("id" ∷ "type" ∷ []) ∷ fs)
          (ac_info l entry ▸ calls (object_end ∷ []))
          fs
  ac_info-closes fs none looked = RunsOr-of (Runs-both [] _ refl)
  ac_info-closes fs (some addr) looked =
      RunsOr-seq (ac_data_format_json-Runs fs "ac_info" _ addr (looked addr refl) refl)
        (RunsOr-calls _ refl)

  -- And so is an aircraft with an ID.
  pub ac_id_format_json-Runs :
      (fs : List Frame) (label : String) (ks : List String) (freq ac_id : ℕ)
      → ((w : l.World) (a : ℕ) → (l.ac_cache_entry_lookup w freq ac_id).1 ≡ some a → Q a)
      → is_used label ks ≡ false
      → RunsOr
          (Unanswered l Q)
          (object ks ∷ fs)
          (ac_id_format_json l label freq ac_id)
          (object (label ∷ ks) ∷ fs)
  unfolding ac_id_format_json
  ac_id_format_json-Runs fs label ks freq ac_id looked fresh = RunsOr-ask _ _ λ w.
      RunsOr-seq (RunsOr-calls _ (rw fresh refl))
        (ac_info-closes _ (l.ac_cache_entry_lookup w freq ac_id).1 (looked w))
