-- ===== src/Decoder/Shutdown.antt =====
-- That the decoder thread of src/pdu.c meets no fault, and how it stops.
use dumphfdl.Common.{
  ℕ, ◌%◌, ◌≡◌, ◌<◌, ◌⊎◌, refl, ◌∙◌, inl, inr, Bool-cases, Option-cases, true, false, ◌==◌, Option,
  none, some, peek-lt, byte_at, List, [], ◌∷◌, ◌++◌, length, Safe, IsOctets,
}
use dumphfdl.Pdu.{Config}
use dumphfdl.Services.{Services}
use dumphfdl.Mpdu.Safety.{mpdu_parse-Safe}
use dumphfdl.Spdu.{spdu_parse}
use dumphfdl.Spdu.Fields.{spdu_parse_result}
use dumphfdl.Decoder.{
  FmtrIntype, fmtr_intype_unknown, fmtr_intype_decoded_frame, fmtr_intype_raw_frame, Metadata,
  HfdlPduQEntry, Node, push_msg, push_decoded, decode_pdu, process_pdu, shutdown_fmtrs,
  DecoderState, pdu_decoder_thread,
}
use dumphfdl.Decoder.Once.{Formatter, any_decoded, handed, handed_all, process_pdu_once}

-- A PDU of at least one octet, and no order to shut down.
pub record IsFrame (q : HfdlPduQEntry) : Type 0 where
  pub octets : IsOctets q.pdu
  pub some_octets : 0 < length q.pdu
  pub no_order : q.ordered_shutdown ≡ false

abbrev pub AreFrames : List HfdlPduQEntry → Type 0
AreFrames [] = Unit
AreFrames (q ∷ queue) = IsFrame q × AreFrames queue

spdu_parse-Safe :
    (config : Config) (pdu : List ℕ) → IsOctets pdu → 0 < length pdu → Safe (spdu_parse config pdu)
spdu_parse-Safe config pdu octets h = elim (spdu_parse_result config pdu octets h) [
  | inl (_, e) ↦ (_, e)
  | inr (_, _, e) ↦ (_, e)
]

module _ (s : Services) (config : Config) (Text : Type 0) (hwm : Option ℕ) where
  decode_pdu-Safe :
      (w : s.World) (metadata : Metadata) (pdu : List ℕ)
      → IsOctets pdu
      → 0 < length pdu
      → Safe (decode_pdu s config w metadata pdu)
  unfolding decode_pdu
  decode_pdu-Safe w metadata pdu octets h =
      let (mpdu, good) = mpdu_parse-Safe s config w pdu metadata.freq octets h in
      let (spdu, good') = spdu_parse-Safe config pdu octets h in
      rw (peek-lt pdu 0 h) (elim (Bool-cases (byte_at pdu 0 % 2 == 1)) [
        | inl odd ↦ rw (odd, good) (_, refl)
        | inr even ↦ rw (even, good') (_, refl)
      ])

  abbrev pub IsIn : Node s config → List (Node s config) → Type 0
  IsIn m [] = ⊥
  IsIn m (x ∷ xs) = (m ≡ x) ⊎ IsIn m xs

  -- A message that one of the PDUs holds.
  abbrev pub Holds : List HfdlPduQEntry → Node s config → Type 0
  Holds [] m = ⊥
  Holds (q ∷ queue) m =
      ((w w' : s.World) × (messages : List (Node s config)) × (decode_pdu s config w q.metadata
            q.pdu
          ≡ some (w', messages))
        × IsIn m messages)
      ⊎ Holds queue m

  -- A formatter of decoded frames makes an undefined access for one of some messages.
  abbrev pub IsFaulty : (Node s config → Type 0) → Formatter s config Text hwm → Type 0
  IsFaulty M fmtr =
      (fmtr.intype ≡ fmtr_intype_decoded_frame)
      × ((w : s.World) × (metadata : Metadata) × (message : Node s config) × M message
          × (fmtr.format_decoded_msg w metadata message ≡ none))

  abbrev pub AnyFaulty : (Node s config → Type 0) → List (Formatter s config Text hwm) → Type 0
  AnyFaulty M [] = ⊥
  AnyFaulty M (fmtr ∷ fmtr_list) = IsFaulty M fmtr ⊎ AnyFaulty M fmtr_list

  intype-push_msg :
      (msg : Option Text) (fmtr : Formatter s config Text hwm)
      → (push_msg hwm msg fmtr).intype ≡ fmtr.intype
  unfolding push_msg
  intype-push_msg none fmtr = refl
  intype-push_msg (some msg) fmtr = refl

  module _ (M : Node s config → Type 0) where
    IsFaulty-push_msg :
        (msg : Option Text) (fmtr : Formatter s config Text hwm)
        → IsFaulty M (push_msg hwm msg fmtr)
        → IsFaulty M fmtr
    unfolding push_msg
    IsFaulty-push_msg none fmtr f = f
    IsFaulty-push_msg (some msg) fmtr f = f

    push_decoded_or :
        (metadata : Metadata) (w : s.World) (messages : List (Node s config))
        (fmtr : Formatter s config Text hwm)
        → ((m : Node s config) → IsIn m messages → M m)
        → fmtr.intype ≡ fmtr_intype_decoded_frame
        → ((r : s.World × Formatter s config Text hwm) × (push_decoded hwm metadata w messages fmtr
              ≡ some r)
            × (IsFaulty M r.1 → IsFaulty M fmtr))
          ⊎ IsFaulty M fmtr
    unfolding push_decoded
    push_decoded_or metadata w [] fmtr all is = inl ((w, fmtr), refl, λ f. f)
    push_decoded_or metadata w (m ∷ messages) fmtr all is =
        elim (Option-cases (fmtr.format_decoded_msg w metadata m)) [
          | inl bad ↦ inr (is, (w, metadata, m, all m (inl refl), bad))
          | inr ((w1, text), good) ↦
              elim (push_decoded_or metadata w1 messages (push_msg hwm text fmtr)
                (λ x h. all x (inr h)) (intype-push_msg text fmtr ∙ is)) [
                  | inl (r, e, back) ↦ inl (r, rw good e, λ f. IsFaulty-push_msg text fmtr (back f))
                  | inr f ↦ inr (IsFaulty-push_msg text fmtr f)
                ]
        ]

    handed_or :
        (intype : FmtrIntype) (metadata : Metadata) (pdu : List ℕ) (messages : List (Node s config))
        (w : s.World) (fmtr : Formatter s config Text hwm)
        → ((m : Node s config) → IsIn m messages → M m)
        → fmtr.intype ≡ intype
        → ((r : s.World × Formatter s config Text hwm) × (handed s config Text hwm intype metadata
                pdu messages w fmtr
              ≡ some r)
            × (IsFaulty M r.1 → IsFaulty M fmtr))
          ⊎ IsFaulty M fmtr
    unfolding handed
    handed_or fmtr_intype_decoded_frame metadata pdu messages w fmtr all is =
        push_decoded_or metadata w messages fmtr all is
    handed_or fmtr_intype_raw_frame metadata pdu messages w fmtr all is =
        inl (_, refl, IsFaulty-push_msg (fmtr.format_raw_msg metadata pdu) fmtr)
    handed_or fmtr_intype_unknown metadata pdu messages w fmtr all is = inl (_, refl, λ f. f)

    Served :
        Option (s.World × List (Formatter s config Text hwm))
        → List (Formatter s config Text hwm)
        → Type 0
    Served result fmtr_list =
        ((r : s.World × List (Formatter s config Text hwm)) × (result ≡ some r)
          × (AnyFaulty M r.1 → AnyFaulty M fmtr_list))
        ⊎ AnyFaulty M fmtr_list

    handed_all_or :
        (metadata : Metadata) (pdu : List ℕ) (messages : List (Node s config)) (w : s.World)
        (fmtr_list : List (Formatter s config Text hwm))
        → ((m : Node s config) → IsIn m messages → M m)
        → Served (handed_all s config Text hwm metadata pdu messages w fmtr_list) fmtr_list
    unfolding handed_all Served
    handed_all_or metadata pdu messages w [] all = inl ((w, []), refl, λ f. f)
    handed_all_or metadata pdu messages w (fmtr ∷ fmtr_list) all =
        elim (handed_or fmtr.intype metadata pdu messages w fmtr all refl) [
          | inr f ↦ inr (inl f)
          | inl (r, e, back) ↦ elim (handed_all_or metadata pdu messages r.0 fmtr_list all) [
            | inr f ↦ inr (inr f)
            | inl (q, e', back') ↦ inl (
              (q.0, r.1 ∷ q.1),
              rw (e, e') refl,
              λ f. elim f [ inl g ↦ inl (back g) | inr g ↦ inr (back' g) ],
            )
          ]
        ]

    process_pdu_or :
        (w : s.World) (q : HfdlPduQEntry) (queue : List HfdlPduQEntry)
        (fmtr_list : List (Formatter s config Text hwm))
        → IsFrame q
        → ((m : Node s config) → Holds (q ∷ queue) m → M m)
        → Served (process_pdu s config hwm w q.metadata q.pdu fmtr_list) fmtr_list
    process_pdu_or w q queue fmtr_list h all =
        let (decoded, good) = decode_pdu-Safe w q.metadata q.pdu h.octets h.some_octets in
        rw (process_pdu_once s config Text hwm w q.metadata q.pdu fmtr_list)
          (elim (Bool-cases (any_decoded s config Text hwm fmtr_list)) [
            | inl wanted ↦
                rw (wanted, good)
                  (handed_all_or q.metadata q.pdu decoded.1 decoded.0 fmtr_list
                    (λ m there. all m (inl (w, decoded.0, decoded.1, good, there))))
            | inr unwanted ↦
                rw unwanted
                  (handed_all_or q.metadata q.pdu [] w fmtr_list (λ m there. absurd there))
          ])

    thread_or :
        (before after : List HfdlPduQEntry) (order : HfdlPduQEntry) (d : DecoderState s config Text)
        → AreFrames before
        → order.ordered_shutdown ≡ true
        → ((m : Node s config) → Holds before m → M m)
        → ((d1 : DecoderState s config Text) × (pdu_decoder_thread s config hwm before d ≡ some d1)
            × (pdu_decoder_thread s config hwm (before ++ order ∷ after) d
                ≡ some (record d1 {
                  fmtr_list = shutdown_fmtrs s config hwm d1.fmtr_list;
                  active = false;
                })))
          ⊎ AnyFaulty M d.fmtr_list
    unfolding pdu_decoder_thread Served
    thread_or [] after order d frames ordered all = inl (d, refl, rw ordered refl)
    thread_or (q ∷ before) after order d (frame, frames) ordered all =
        elim (process_pdu_or d.world q before d.fmtr_list frame all) [
          | inr f ↦ inr f
          | inl (done, good, back) ↦
              elim (thread_or before after order (record d { world = done.0; fmtr_list = done.1 })
                frames ordered (λ m there. all m (inr there))) [
                  | inr f ↦ inr (back f)
                  | inl (d1, e, stopped) ↦
                      inl (d1, rw (frame.no_order, good) e, rw (frame.no_order, good) stopped)
                ]
        ]

  -- For PDUs of at least one octet each, in front of a shutdown order: unless a formatter of decoded
  -- frames makes an undefined access for a message that one of them holds, they are all processed,
  -- without an access outside any of them and without a failed ASSERT. Then the order is passed on
  -- to every output, the thread is no longer active, and nothing behind the order is processed.
  pub pdu_decoder_thread_lem :
      (before after : List HfdlPduQEntry) (order : HfdlPduQEntry) (d : DecoderState s config Text)
      → AreFrames before
      → order.ordered_shutdown ≡ true
      → ((d1 : DecoderState s config Text) × (pdu_decoder_thread s config hwm before d ≡ some d1)
          × (pdu_decoder_thread s config hwm (before ++ order ∷ after) d
              ≡ some (record d1 {
                fmtr_list = shutdown_fmtrs s config hwm d1.fmtr_list;
                active = false;
              })))
        ⊎ AnyFaulty (Holds before) d.fmtr_list
  pdu_decoder_thread_lem before after order d frames ordered =
      thread_or (Holds before) before after order d frames ordered (λ m there. there)
