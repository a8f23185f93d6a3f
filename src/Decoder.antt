-- ===== src/Decoder.antt =====
-- src/pdu.c: the decoder thread, which takes PDUs from its queue, has them parsed, and hands what the
-- formatters make of them to the outputs. A formatter is what its functions do: one of decoded frames
-- reads and changes the state that it shares with the parsers, may make an undefined access, and
-- returns a text or nothing. `none` is a failed ASSERT or an undefined access.
pub mod Once
pub mod Shutdown
use dumphfdl.Common.{
  ℕ, zero, suc, ◌%◌, Bool, true, false, ◌==◌, if◌then◌else◌, Option, none, some, ◌>>=◌, peek, List,
  [], ◌∷◌, map,
}
use dumphfdl.Pdu.{Config}
use dumphfdl.Services.{Services}
use dumphfdl.Lpdu.{Tree}
use dumphfdl.Mpdu.{MpduNode, mpdu_parse}
use dumphfdl.Spdu.{HfdlSpdu, spdu_parse}
use dumphfdl.Outputs.{QEntry, OutputCtx, push_all, shutdown_entry}

pub data FmtrIntype : Type 0 where
  fmtr_intype_unknown fmtr_intype_decoded_frame fmtr_intype_raw_frame : FmtrIntype

pub data DecodingStatus : Type 0 where
  decoding_not_done decoding_success decoding_failure : DecodingStatus

-- What one element of the list that a parser returns is.
pub data Message (A : Type 0) : Type 0 where
  mpdu_message : MpduNode A → Message A
  spdu_message : HfdlSpdu → Message A

-- The metadata of a PDU, with its frequency.
pub record Metadata : Type 0 where
  pub freq : ℕ
  pub bit_rate : ℕ

pub record HfdlPduQEntry : Type 0 where
  pub metadata : Metadata
  pub pdu : List ℕ
  pub ordered_shutdown : Bool

-- fmtr_instance_t with the two functions of its descriptor. No formatter of the source has the
-- second.
pub record Fmtr (World Node Text : Type 0) : Type 0 where
  pub intype : FmtrIntype
  pub format_decoded_msg : World → Metadata → Node → Option (World × Option Text)
  pub format_raw_msg : Metadata → List ℕ → Option Text
  pub outputs : List (OutputCtx Text)

abbrev pub spdu_list : {A : Type 0} → Option HfdlSpdu → List (Message A)
spdu_list none = []
spdu_list (some spdu) = spdu_message spdu ∷ []

-- A serialized message, or none, for the outputs of a formatter.
unfoldable pub push_msg :
    {World Node Text : Type 0}
    → Option ℕ
    → Option Text
    → Fmtr World Node Text
    → Fmtr World Node Text
push_msg hwm none fmtr = fmtr
push_msg hwm (some msg) fmtr = record fmtr {
  outputs = push_all hwm (record { msg = some msg; ordered_shutdown = false }) fmtr.outputs;
}

-- The loop over the list that a parser has returned.
unfoldable pub push_decoded :
    {World Node Text : Type 0}
    → Option ℕ
    → Metadata
    → World
    → List Node
    → Fmtr World Node Text
    → Option (World × Fmtr World Node Text)
unfolding push_msg
push_decoded hwm metadata w [] fmtr = some (w, fmtr)
push_decoded {World} {Node} {Text} hwm metadata w (lpdu ∷ lpdu_list) fmtr =
    fmtr.format_decoded_msg w metadata lpdu >>= λ (formatted : World × Option Text).
    push_decoded hwm metadata formatted.0 lpdu_list (push_msg hwm formatted.1 fmtr)

-- An empty list is the null pointer.
abbrev pub status_of : {Node : Type 0} → List Node → DecodingStatus
status_of [] = decoding_failure
status_of (lpdu ∷ lpdu_list) = decoding_success

-- The state of the loop over the formatters.
pub record Decoding (World Node : Type 0) : Type 0 where
  pub world : World
  pub status : DecodingStatus
  pub lpdu_list : List Node

module _ (s : Services) (config : Config) where
  abbrev pub Node : Type 0
  Node = Message (Tree s)

  unfoldable pub decode_pdu : s.World → Metadata → List ℕ → Option (s.World × List Node)
  decode_pdu w metadata pdu = peek pdu 0 >>= λ b0.
      if b0 % 2 == 1
      then (mpdu_parse s config w pdu metadata.freq
          >>= λ (parsed : s.World × List (MpduNode (Tree s))).
              some (parsed.0, map mpdu_message parsed.1))
      else (spdu_parse config pdu >>= λ (spdu : Option HfdlSpdu). some (w, spdu_list spdu))

  -- Decodes the PDU unless that has been done.
  unfoldable pub decoded_once :
      DecodingStatus → Metadata → List ℕ → Decoding s.World Node → Option (Decoding s.World Node)
  decoded_once decoding_not_done metadata pdu d =
      decode_pdu d.world metadata pdu >>= λ (decoded : s.World × List Node).
      some (record { world = decoded.0; status = status_of decoded.1; lpdu_list = decoded.1 })
  decoded_once status metadata pdu d = some d

  abbrev pub push_if :
      {Text : Type 0}
      → DecodingStatus
      → Option ℕ
      → Metadata
      → s.World
      → List Node
      → Fmtr s.World Node Text
      → Option (s.World × Fmtr s.World Node Text)
  push_if decoding_success hwm metadata w lpdu_list fmtr =
      push_decoded hwm metadata w lpdu_list fmtr
  push_if status hwm metadata w lpdu_list fmtr = some (w, fmtr)

  unfoldable pub run_fmtr :
      {Text : Type 0}
      → Option ℕ
      → Metadata
      → List ℕ
      → FmtrIntype
      → Fmtr s.World Node Text
      → Decoding s.World Node
      → Option (Fmtr s.World Node Text × Decoding s.World Node)
  unfolding decoded_once
  run_fmtr {Text} hwm metadata pdu fmtr_intype_decoded_frame fmtr d =
      decoded_once d.status metadata pdu d >>= λ (d1 : Decoding s.World Node).
      push_if d1.status hwm metadata d1.world d1.lpdu_list fmtr
      >>= λ (pushed : s.World × Fmtr s.World Node Text).
          some (pushed.1, record d1 { world = pushed.0 })
  run_fmtr hwm metadata pdu fmtr_intype_raw_frame fmtr d =
      some (push_msg hwm (fmtr.format_raw_msg metadata pdu) fmtr, d)
  run_fmtr hwm metadata pdu fmtr_intype_unknown fmtr d = some (fmtr, d)

  unfoldable pub run_fmtrs :
      {Text : Type 0}
      → Option ℕ
      → Metadata
      → List ℕ
      → List (Fmtr s.World Node Text)
      → Decoding s.World Node
      → Option (List (Fmtr s.World Node Text) × Decoding s.World Node)
  unfolding run_fmtr
  run_fmtrs hwm metadata pdu [] d = some ([], d)
  run_fmtrs hwm metadata pdu (fmtr ∷ fmtr_list) d = do
    (fmtr1, d1) ← run_fmtr hwm metadata pdu fmtr.intype fmtr d
    (fmtr_list1, d2) ← run_fmtrs hwm metadata pdu fmtr_list d1
    some (fmtr1 ∷ fmtr_list1, d2)

  -- The handling of a PDU from the queue.
  unfoldable pub process_pdu :
      {Text : Type 0}
      → Option ℕ
      → s.World
      → Metadata
      → List ℕ
      → List (Fmtr s.World Node Text)
      → Option (s.World × List (Fmtr s.World Node Text))
  unfolding run_fmtrs
  process_pdu hwm w metadata pdu fmtr_list = do
    (fmtr_list1, d) ←
        run_fmtrs hwm metadata pdu fmtr_list
          (record { world = w; status = decoding_not_done; lpdu_list = [] })
    some (d.world, fmtr_list1)

  -- shutdown_outputs(fmtr_list)
  unfoldable pub shutdown_fmtrs :
      {Text : Type 0} → Option ℕ → List (Fmtr s.World Node Text) → List (Fmtr s.World Node Text)
  shutdown_fmtrs hwm [] = []
  shutdown_fmtrs hwm (fmtr ∷ fmtr_list) =
      record fmtr { outputs = push_all hwm shutdown_entry fmtr.outputs }
      ∷ shutdown_fmtrs hwm fmtr_list

  pub record DecoderState (Text : Type 0) : Type 0 where
    pub world : s.World
    pub fmtr_list : List (Fmtr s.World Node Text)
    pub active : Bool

  -- The thread over the entries of its queue, in their order. Behind a shutdown order none is taken.
  unfoldable pub pdu_decoder_thread :
      {Text : Type 0}
      → Option ℕ
      → List HfdlPduQEntry
      → DecoderState Text
      → Option (DecoderState Text)
  pdu_decoder_thread hwm [] d = some d
  pdu_decoder_thread hwm (q ∷ queue) d =
      if q.ordered_shutdown
      then some (record d { fmtr_list = shutdown_fmtrs hwm d.fmtr_list; active = false })
      else (process_pdu hwm d.world q.metadata q.pdu d.fmtr_list
          >>= λ (done : s.World × List (Fmtr s.World Node _)).
              pdu_decoder_thread hwm queue (record d { world = done.0; fmtr_list = done.1 }))
