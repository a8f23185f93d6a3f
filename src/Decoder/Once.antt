-- ===== src/Decoder/Once.antt =====
-- How the decoder thread of src/pdu.c serves its formatters.
use dumphfdl.Common.{
  ℕ, ◌≡◌, refl, ap, arith, inl, inr, ◌⊎◌, Bool, Bool-cases, Option-cases, true, false,
  if◌then◌else◌, Option, none, some, ◌>>=◌, List, [], ◌∷◌,
}
use dumphfdl.Pdu.{Config}
use dumphfdl.Services.{Services}
use dumphfdl.Decoder.{
  FmtrIntype, fmtr_intype_unknown, fmtr_intype_decoded_frame, fmtr_intype_raw_frame,
  decoding_not_done, Metadata, Fmtr, push_msg, push_decoded, status_of, Decoding, Node, decode_pdu,
  decoded_once, push_if, run_fmtr, run_fmtrs, process_pdu,
}

module _ (s : Services) (config : Config) (Text : Type 0) (hwm : Option ℕ) where
  abbrev pub Formatter : Type 0
  Formatter = Fmtr s.World (Node s config) Text

  abbrev is_decoded : FmtrIntype → Bool
  is_decoded fmtr_intype_decoded_frame = true
  is_decoded intype = false

  -- Whether a formatter wants decoded frames.
  abbrev pub any_decoded : List Formatter → Bool
  any_decoded [] = false
  any_decoded (fmtr ∷ fmtr_list) = if is_decoded fmtr.intype then true else any_decoded fmtr_list

  -- What a formatter hands to its outputs for a PDU and the messages in it.
  unfoldable pub handed :
      FmtrIntype
      → Metadata
      → List ℕ
      → List (Node s config)
      → s.World
      → Formatter
      → Option (s.World × Formatter)
  handed fmtr_intype_decoded_frame metadata pdu messages w fmtr =
      push_decoded hwm metadata w messages fmtr
  handed fmtr_intype_raw_frame metadata pdu messages w fmtr =
      some (w, push_msg hwm (fmtr.format_raw_msg metadata pdu) fmtr)
  handed fmtr_intype_unknown metadata pdu messages w fmtr = some (w, fmtr)

  -- The formatters one after the other, in their order, for the same messages.
  unfoldable pub handed_all :
      Metadata
      → List ℕ
      → List (Node s config)
      → s.World
      → List Formatter
      → Option (s.World × List Formatter)
  handed_all metadata pdu messages w [] = some (w, [])
  handed_all metadata pdu messages w (fmtr ∷ fmtr_list) =
      handed fmtr.intype metadata pdu messages w fmtr >>= λ (r : s.World × Formatter).
      handed_all metadata pdu messages r.0 fmtr_list >>= λ (q : s.World × List Formatter).
      some (q.0, r.1 ∷ q.1)

  -- The state of the loop once these messages have been decoded.
  abbrev having : s.World → List (Node s config) → Decoding s.World (Node s config)
  having w messages = record { world = w; status = status_of messages; lpdu_list = messages }

  push_if-status_of :
      (metadata : Metadata) (w : s.World) (messages : List (Node s config)) (fmtr : Formatter)
      → push_if s config (status_of messages) hwm metadata w messages fmtr
        ≡ push_decoded hwm metadata w messages fmtr
  unfolding push_decoded
  push_if-status_of metadata w [] fmtr = refl
  push_if-status_of metadata w (m ∷ messages) fmtr = refl

  decoded_once-having :
      (metadata : Metadata) (pdu : List ℕ) (w : s.World) (messages : List (Node s config))
      → decoded_once s config (status_of messages) metadata pdu (having w messages)
        ≡ some (having w messages)
  unfolding decoded_once
  decoded_once-having metadata pdu w [] = refl
  decoded_once-having metadata pdu w (m ∷ messages) = refl

  -- The state of the loop behind a formatter, and behind several.
  abbrev behind :
      List (Node s config)
      → Option (s.World × Formatter)
      → Option (Formatter × Decoding s.World (Node s config))
  behind messages result = result >>= λ (r : s.World × Formatter). some (r.1, having r.0 messages)

  abbrev behind_all :
      List (Node s config)
      → Option (s.World × List Formatter)
      → Option (List Formatter × Decoding s.World (Node s config))
  behind_all messages result =
      result >>= λ (r : s.World × List Formatter). some (r.1, having r.0 messages)

  run_fmtr-having :
      (intype : FmtrIntype) (metadata : Metadata) (pdu : List ℕ) (w : s.World)
      (messages : List (Node s config)) (fmtr : Formatter)
      → run_fmtr s config hwm metadata pdu intype fmtr (having w messages)
        ≡ behind messages (handed intype metadata pdu messages w fmtr)
  unfolding run_fmtr handed
  run_fmtr-having fmtr_intype_decoded_frame metadata pdu w messages fmtr =
      rw (decoded_once-having metadata pdu w messages, push_if-status_of metadata w messages fmtr)
        refl
  run_fmtr-having fmtr_intype_raw_frame metadata pdu w messages fmtr = refl
  run_fmtr-having fmtr_intype_unknown metadata pdu w messages fmtr = refl

  run_fmtrs-having :
      (metadata : Metadata) (pdu : List ℕ) (w : s.World) (messages : List (Node s config))
      (fmtr_list : List Formatter)
      → run_fmtrs s config hwm metadata pdu fmtr_list (having w messages)
        ≡ behind_all messages (handed_all metadata pdu messages w fmtr_list)
  unfolding run_fmtrs handed_all
  run_fmtrs-having metadata pdu w messages [] = refl
  run_fmtrs-having metadata pdu w messages (fmtr ∷ fmtr_list) =
      let run = run_fmtr-having fmtr.intype metadata pdu w messages fmtr in
      elim (Option-cases (handed fmtr.intype metadata pdu messages w fmtr)) [
        | inl bad ↦ rw (run, bad) refl
        | inr ((w1, fmtr1), good) ↦
            let rest = run_fmtrs-having metadata pdu w1 messages fmtr_list in
            elim (Option-cases (handed_all metadata pdu messages w1 fmtr_list)) [
              | inl bad ↦ rw (run, good, rest, bad) refl
              | inr (r, good') ↦ rw (run, good, rest, good') refl
            ]
      ]

  fresh : s.World → Decoding s.World (Node s config)
  fresh w = record { world = w; status = decoding_not_done; lpdu_list = [] }

  outcome :
      Option (List Formatter × Decoding s.World (Node s config)) → Option (s.World × List Formatter)
  outcome result =
      result >>= λ (r : List Formatter × Decoding s.World (Node s config)). some (r.1.world, r.0)

  -- A formatter in front of others that does not make use of the messages.
  in_front :
      (x : Formatter) (result : Option (List Formatter × Decoding s.World (Node s config)))
      → outcome (
          result >>= λ (r : List Formatter × Decoding s.World (Node s config)). some (x ∷ r.0, r.1))
        ≡ (outcome result >>= λ (r : s.World × List Formatter). some (r.0, x ∷ r.1))
  unfolding outcome
  in_front x none = refl
  in_front x (some r) = refl

  abbrev Served : Metadata → List ℕ → s.World → List Formatter → Type 0
  Served metadata pdu w fmtr_list =
      outcome (run_fmtrs s config hwm metadata pdu fmtr_list (fresh w)) ≡ (
        if any_decoded fmtr_list
        then (decode_pdu s config w metadata pdu >>= λ (decoded : s.World × List (Node s config)).
            handed_all metadata pdu decoded.1 decoded.0 fmtr_list)
        else handed_all metadata pdu [] w fmtr_list)

  run_decoded-bad :
      (intype : FmtrIntype) (metadata : Metadata) (pdu : List ℕ) (w : s.World) (fmtr : Formatter)
      → intype ≡ fmtr_intype_decoded_frame
      → decode_pdu s config w metadata pdu ≡ none
      → run_fmtr s config hwm metadata pdu intype fmtr (fresh w) ≡ none
  unfolding run_fmtr decoded_once fresh
  run_decoded-bad intype metadata pdu w fmtr e bad = rw (e, bad) refl

  run_decoded-good :
      (intype : FmtrIntype) (metadata : Metadata) (pdu : List ℕ) (w w1 : s.World)
      (messages : List (Node s config)) (fmtr : Formatter)
      → intype ≡ fmtr_intype_decoded_frame
      → decode_pdu s config w metadata pdu ≡ some (w1, messages)
      → run_fmtr s config hwm metadata pdu intype fmtr (fresh w)
        ≡ behind messages (handed intype metadata pdu messages w1 fmtr)
  unfolding run_fmtr decoded_once fresh handed
  run_decoded-good intype metadata pdu w w1 messages fmtr e good =
      rw (e, good, push_if-status_of metadata w1 messages fmtr) refl

  Served-decoded :
      (metadata : Metadata) (pdu : List ℕ) (w : s.World) (fmtr : Formatter)
      (fmtr_list : List Formatter)
      → fmtr.intype ≡ fmtr_intype_decoded_frame
      → Served metadata pdu w (fmtr ∷ fmtr_list)
  unfolding run_fmtrs outcome handed_all
  Served-decoded metadata pdu w fmtr fmtr_list e =
      let wanted : is_decoded fmtr.intype ≡ true = ap is_decoded e in
      elim (Option-cases (decode_pdu s config w metadata pdu)) [
        | inl bad ↦ rw (wanted, bad, run_decoded-bad fmtr.intype metadata pdu w fmtr e bad) refl
        | inr ((w1, messages), good) ↦
            let run = run_decoded-good fmtr.intype metadata pdu w w1 messages fmtr e good in
            elim (Option-cases (handed fmtr.intype metadata pdu messages w1 fmtr)) [
              | inl bad ↦ rw (wanted, good, run, bad) refl
              | inr ((w2, fmtr2), served) ↦
                  let rest = run_fmtrs-having metadata pdu w2 messages fmtr_list in
                  elim (Option-cases (handed_all metadata pdu messages w2 fmtr_list)) [
                    | inl bad ↦ rw (wanted, good, run, served, rest, bad) refl
                    | inr (r, all) ↦ rw (wanted, good, run, served, rest, all) refl
                  ]
            ]
      ]

  Served-other :
      (metadata : Metadata) (pdu : List ℕ) (w : s.World) (fmtr x : Formatter)
      (fmtr_list : List Formatter)
      → is_decoded fmtr.intype ≡ false
      → ((messages : List (Node s config)) (w' : s.World)
          → handed fmtr.intype metadata pdu messages w' fmtr ≡ some (w', x))
      → run_fmtr s config hwm metadata pdu fmtr.intype fmtr (fresh w) ≡ some (x, fresh w)
      → Served metadata pdu w fmtr_list
      → Served metadata pdu w (fmtr ∷ fmtr_list)
  unfolding run_fmtrs handed_all
  Served-other metadata pdu w fmtr x fmtr_list other same run rest =
      rw (run, in_front x (run_fmtrs s config hwm metadata pdu fmtr_list (fresh w)), rest, other)
        (elim (Bool-cases (any_decoded fmtr_list)) [
          | inr none_does ↦ rw (none_does, same [] w) refl
          | inl one_does ↦ rw one_does (elim (Option-cases (decode_pdu s config w metadata pdu)) [
            | inl bad ↦ rw bad refl
            | inr ((w1, messages), good) ↦ rw (good, same messages w1) refl
          ])
        ])

  -- What is handed on does not depend on the messages, where they are not wanted.
  run_other :
      (intype : FmtrIntype) (metadata : Metadata) (pdu : List ℕ) (w : s.World) (fmtr : Formatter)
      → is_decoded intype ≡ false
      → (x : Formatter) × ((messages : List (Node s config)) (w' : s.World)
          → handed intype metadata pdu messages w' fmtr ≡ some (w', x))
        × (run_fmtr s config hwm metadata pdu intype fmtr (fresh w) ≡ some (x, fresh w))
  unfolding run_fmtr handed
  run_other fmtr_intype_decoded_frame metadata pdu w fmtr e = absurd (ground (arith, e))
  run_other fmtr_intype_raw_frame metadata pdu w fmtr e = (_, (λ messages w'. refl), refl)
  run_other fmtr_intype_unknown metadata pdu w fmtr e = (_, (λ messages w'. refl), refl)

  decoded_or_not :
      (intype : FmtrIntype) → (intype ≡ fmtr_intype_decoded_frame) ⊎ (is_decoded intype ≡ false)
  decoded_or_not fmtr_intype_decoded_frame = inl refl
  decoded_or_not fmtr_intype_raw_frame = inr refl
  decoded_or_not fmtr_intype_unknown = inr refl

  run_fmtrs-fresh :
      (metadata : Metadata) (pdu : List ℕ) (w : s.World) (fmtr_list : List Formatter)
      → Served metadata pdu w fmtr_list
  unfolding run_fmtrs outcome fresh handed_all
  run_fmtrs-fresh metadata pdu w [] = refl
  run_fmtrs-fresh metadata pdu w (fmtr ∷ fmtr_list) = elim (decoded_or_not fmtr.intype) [
    | inl e ↦ Served-decoded metadata pdu w fmtr fmtr_list e
    | inr other ↦
        let (x, same, run) = run_other fmtr.intype metadata pdu w fmtr other in
        Served-other metadata pdu w fmtr x fmtr_list other same run
          (run_fmtrs-fresh metadata pdu w fmtr_list)
  ]

  pub process_pdu_once :
      (w : s.World) (metadata : Metadata) (pdu : List ℕ) (fmtr_list : List Formatter)
      → process_pdu s config hwm w metadata pdu fmtr_list ≡ (
          if any_decoded fmtr_list
          then (decode_pdu s config w metadata pdu >>= λ (decoded : s.World × List (Node s config)).
              handed_all metadata pdu decoded.1 decoded.0 fmtr_list)
          else handed_all metadata pdu [] w fmtr_list)
  unfolding process_pdu outcome fresh
  process_pdu_once w metadata pdu fmtr_list = run_fmtrs-fresh metadata pdu w fmtr_list
