-- ===== src/Spdu/Nesting.antt =====
-- The JSON of every SPDU that the parser of src/spdu.c returns is well-formed.
use dumphfdl.Common.{
  ◌==◌, ℕ, ◌≡◌, refl, Bool, true, false, not, ◌||◌, Option, none, some, List, [], ◌∷◌, get_elem?,
  length, get_elem?-lt, get_or, if◌then◌else◌, ltb, Bool-cases, Option-cases, inl, inr, arith,
  Ensures, Ensures->>=, Ensures-at,
}
use dumphfdl.Pdu.{Config, hfdl_pdu_fcs_check}
use dumphfdl.Json.{Frame, array, calls}
use dumphfdl.Json.Nesting.{Runs, Runs-calls, Runs-seq, Fills, Fills-of, Fills-seq}
use dumphfdl.Format.{Lookups}
use dumphfdl.Format.Nesting.{gs_id_format_json-Runs, freq_list_format_json-Runs}
use dumphfdl.Spdu.{GsStatus, Squitter, HfdlSpdu, squitter_fields, spdu_end, bad_spdu, spdu_parse}
use dumphfdl.Spdu.Format.{
  change_note_descr, gs_status_format_json, fields_json, good_json, spdu_format_json,
}

-- The fields are filled in, with a change note of the table, if the sum is right.
abbrev note_fits : Option Squitter → Bool
note_fits none = false
note_fits (some f) = ltb f.change_note 4

abbrev SpduFits : Option HfdlSpdu → Type 0
SpduFits none = Unit
SpduFits (some spdu) = not spdu.crc_ok || note_fits spdu.fields ≡ true

squitter_fields_fits :
    (buf : List ℕ) → Ensures (λ (f : Squitter). ltb f.change_note 4 ≡ true) (squitter_fields buf)
unfolding squitter_fields
squitter_fields_fits buf = ground arith

end_fits :
    (config : Config) (spdu : HfdlSpdu)
    → not spdu.crc_ok || note_fits spdu.fields ≡ true
    → SpduFits (spdu_end config spdu)
end_fits config spdu p = elim (Bool-cases (spdu.crc_ok || config.output_corrupted_pdus)) [
  | inl kept ↦ rw kept p
  | inr dropped ↦ rw dropped _
]

spdu_parse_fits : (config : Config) (buf : List ℕ) → Ensures SpduFits (spdu_parse config buf)
unfolding spdu_parse
spdu_parse_fits config buf = elim (Bool-cases (length buf == 0)) [
  | inl empty ↦ rw empty _
  | inr filled ↦ rw filled (elim (Bool-cases (ltb (length buf) 66)) [
    | inl short ↦ rw short (end_fits config (bad_spdu buf) refl)
    | inr long ↦ rw long (elim (Option-cases (hfdl_pdu_fcs_check buf 64)) [
      | inl e ↦ rw e _
      | inr (true, e) ↦ rw e (
          Ensures->>= (λ (f : Squitter). ltb f.change_note 4 ≡ true) SpduFits _ _
            (squitter_fields_fits buf)
            (λ f p.
              end_fits config
                (record { pdu = buf; crc_ok = true; src_id = f.gs_data0.id; fields = some f }) p))
      | inr (false, e) ↦ rw e (end_fits config (bad_spdu buf) refl)
    ])
  ])
]

module _ (l : Lookups) (fs : List Frame) where
  gs_status_format_json-Runs :
      (gs : GsStatus) → Runs (array ∷ fs) (gs_status_format_json l gs) (array ∷ fs)
  unfolding gs_status_format_json
  gs_status_format_json-Runs gs = Runs-seq (Runs-calls _ refl) (
      Runs-seq (gs_id_format_json-Runs l (array ∷ fs) "gs" [] gs.id refl) (
        Runs-seq (Runs-calls _ refl) (
          Runs-seq (freq_list_format_json-Runs l _ "freqs" _ gs.id gs.freqs_in_use refl)
            (Runs-calls _ refl))))

module _ (l : Lookups) (fs : List Frame) where
  fields_json-Fills :
      (src_id : ℕ) (f : Squitter)
      → ltb f.change_note 4 ≡ true
      → Fills fs ("err" ∷ []) (fields_json l src_id f)
  fields_json-Fills src_id f small =
      let listed : get_elem? change_note_descr f.change_note
          ≡ some (get_or change_note_descr f.change_note "None") =
        get_elem?-lt change_note_descr f.change_note "None" (ground (arith, small)) in
      rw listed (
        Fills-seq (gs_id_format_json-Runs l fs "src" _ src_id refl) (
          Fills-seq (Runs-calls _ refl) (
            Fills-seq (Runs-calls _ refl) (
              Fills-of (
                Runs-seq (Runs-calls _ refl) (
                  Runs-seq (gs_status_format_json-Runs l _ f.gs_data0) (
                    Runs-seq (gs_status_format_json-Runs l _ f.gs_data1) (
                      Runs-seq (gs_status_format_json-Runs l _ f.gs_data2)
                        (Runs-calls _ refl)))))))))

  after_err :
      (b : Bool) (src_id : ℕ) (o : Option Squitter)
      → b || note_fits o ≡ true
      → Fills fs ("err" ∷ []) (if b then calls [] else good_json l src_id o)
  after_err true src_id o p = Fills-of (Runs-calls [] refl)
  after_err false src_id none p = absurd (ground (arith, p))
  after_err false src_id (some f) p = fields_json-Fills src_id f p

  -- Every SPDU that spdu_parse returns has well-formed JSON within the object that libacars opens
  -- for it, whatever its octets are: each object and array is closed, members of objects have
  -- labels and elements of arrays have none, no label comes twice in an object, and the change note
  -- is one of the table.
  pub spdu_parse-Fills :
      (config : Config) (buf : List ℕ) (spdu : HfdlSpdu)
      → spdu_parse config buf ≡ some (some spdu)
      → Fills fs [] (spdu_format_json l spdu)
  unfolding spdu_format_json
  spdu_parse-Fills config buf spdu e =
      let p = Ensures-at SpduFits _ (some spdu) (spdu_parse_fits config buf) e in
      Fills-seq (Runs-calls _ refl) (after_err (not spdu.crc_ok) spdu.src_id spdu.fields p)
