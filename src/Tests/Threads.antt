-- ===== src/Tests/Threads.antt =====
-- Runs of the decoder thread with a squitter's formatter and of an output thread whose driver fails
-- twice before each delivery.
use dumphfdl.Common.{
  ℕ, zero, suc, ◌≡◌, ◌<◌, ◌⊎◌, refl, arith, Bool, true, false, Option, none, some, List, [], ◌∷◌,
  ◌++◌,
}
use dumphfdl.Outputs.{OutputCtx, shutdown_entry}
use dumphfdl.Outputs.Thread.{Driver, Thread, running, stopped, rounds}
use dumphfdl.Outputs.Delivery.{
  entry, IsLogged, IsRecovering, IsAccounted, running-IsAccounted, output_thread_finishes,
}
use dumphfdl.Decoder.{
  fmtr_intype_decoded_frame, fmtr_intype_raw_frame, Metadata, HfdlPduQEntry, Fmtr, Node,
  shutdown_fmtrs, DecoderState, pdu_decoder_thread,
}
use dumphfdl.Decoder.Shutdown.{AnyFaulty, Holds, pdu_decoder_thread_lem}
use dumphfdl.Tests.Instance.{World, services, empty_world, config}

flaky_produce : ℕ → List ℕ → Option ℕ → (ℕ × List ℕ) × Bool
flaky_produce (suc failures) log m = ((failures, log), true)
flaky_produce zero log none = ((2, log), false)
flaky_produce zero log (some m) = ((2, log ++ m ∷ []), false)

abbrev flaky : Driver ℕ
flaky = record {
  Priv = ℕ × List ℕ;
  init = λ p. (p, false);
  produce = λ p m. flaky_produce p.0 p.1 m;
  handle_shutdown = λ p. p;
  handle_failure = λ p. p;
}

flaky_kept :
    (failures : ℕ) (log : List ℕ) (m : ℕ)
    → (flaky_produce failures log (some m)).1 ≡ true
    → (flaky_produce failures log (some m)).0.1 ≡ log
unfolding flaky_produce
flaky_kept zero log m e = absurd (ground (arith, e))
flaky_kept (suc failures) log m e = refl

flaky_added :
    (failures : ℕ) (log : List ℕ) (m : ℕ)
    → (flaky_produce failures log (some m)).1 ≡ false
    → (flaky_produce failures log (some m)).0.1 ≡ log ++ m ∷ []
unfolding flaky_produce
flaky_added zero log m e = refl
flaky_added (suc failures) log m e = absurd (ground (arith, e))

flaky_closer :
    (failures : ℕ) (log : List ℕ) (m : ℕ)
    → (flaky_produce failures log (some m)).1 ≡ true
    → (flaky_produce failures log (some m)).0.0 < failures
unfolding flaky_produce
flaky_closer zero log m e = absurd (ground (arith, e))
flaky_closer (suc failures) log m e = omega arith

flaky-IsLogged : IsLogged flaky
flaky-IsLogged = record {
  log = λ p. p.1;
  kept = λ p m e. flaky_kept p.0 p.1 m e;
  added = λ p m e. flaky_added p.0 p.1 m e;
  at_shutdown = λ p. refl;
}

flaky-IsRecovering : IsRecovering flaky
flaky-IsRecovering = record { patience = λ p. p.0; closer = λ p m e. flaky_closer p.0 p.1 m e }

abbrev waiting : OutputCtx ℕ
waiting = record { q = entry 7 ∷ entry 8 ∷ shutdown_entry ∷ []; active = true }

abbrev busy_thread : Thread flaky
busy_thread = record { ctx = waiting; priv = (2, []) }

abbrev to_deliver : List ℕ
to_deliver = 7 ∷ 8 ∷ []

running-IsAccounted_example :
    IsAccounted flaky flaky-IsLogged to_deliver (rounds flaky 4 (running busy_thread))
unfolding flaky-IsLogged
running-IsAccounted_example = running-IsAccounted flaky flaky-IsLogged 4 to_deliver busy_thread refl

output_thread_finishes_example :
    (n : ℕ) × (t1 : Thread flaky) × (rounds flaky n (running busy_thread) ≡ stopped t1)
    × (t1.priv.1 ≡ to_deliver)
unfolding flaky-IsLogged
output_thread_finishes_example =
    output_thread_finishes flaky flaky-IsLogged flaky-IsRecovering to_deliver busy_thread refl

-- A formatter of raw frames and one of decoded frames, which counts octets and messages.
abbrev raw : Fmtr World (Node services config) ℕ
raw = record {
  intype = fmtr_intype_raw_frame;
  format_decoded_msg = λ w metadata message. some (w, none);
  format_raw_msg = λ metadata pdu. some 1;
  outputs = record { q = []; active = true } ∷ [];
}

abbrev decoded : Fmtr World (Node services config) ℕ
decoded = record {
  intype = fmtr_intype_decoded_frame;
  format_decoded_msg = λ w metadata message. some (w, some 2);
  format_raw_msg = λ metadata pdu. none;
  outputs = record { q = []; active = true } ∷ [];
}

abbrev metadata : Metadata
metadata = record { freq = 11384000; bit_rate = 300 }

abbrev short_squitter : List ℕ
short_squitter = 0 ∷ 5 ∷ []

abbrev frame_entry : HfdlPduQEntry
frame_entry = record { metadata = metadata; pdu = short_squitter; ordered_shutdown = false }

abbrev order : HfdlPduQEntry
order = record { metadata = metadata; pdu = []; ordered_shutdown = true }

abbrev start : DecoderState services config ℕ
start = record { world = empty_world; fmtr_list = raw ∷ decoded ∷ []; active = true }

pdu_decoder_thread_lem_example :
    ((d1 : DecoderState services config ℕ) × (pdu_decoder_thread services config
          (some 10)
          (frame_entry ∷ [])
          start
        ≡ some d1)
      × (pdu_decoder_thread services config (some 10) (frame_entry ∷ order ∷ frame_entry ∷ []) start
          ≡ some (record d1 {
            fmtr_list = shutdown_fmtrs services config (some 10) d1.fmtr_list;
            active = false;
          })))
    ⊎ AnyFaulty services config ℕ
        (some 10)
        (Holds services config ℕ (some 10) (frame_entry ∷ []))
        start.fmtr_list
pdu_decoder_thread_lem_example =
    pdu_decoder_thread_lem services config ℕ (some 10) (frame_entry ∷ []) (frame_entry ∷ []) order
      start (record { octets = ground arith; some_octets = omega arith; no_order = refl }, tt) refl
