-- ===== src/Outputs.antt =====
-- src/output-common.c: the queues between the decoder and the outputs. A queue of glib is a list, its
-- head the next entry to leave.
pub mod Queues
pub mod Thread
pub mod Delivery
use dumphfdl.Common.{
  ℕ, Bool, true, false, ◌&&◌, ◌||◌, not, Option, none, some, List, [], ◌∷◌, ◌++◌, length, leb,
  if◌then◌else◌,
}

-- output_qentry_t: the message, and whether its flags order a shutdown.
pub record QEntry (M : Type 0) : Type 0 where
  pub msg : Option M
  pub ordered_shutdown : Bool

-- output_ctx_t of an output.
pub record OutputCtx (M : Type 0) : Type 0 where
  pub q : List (QEntry M)
  pub active : Bool

module _ {M : Type 0} where
  -- The high water mark is none for OUTPUT_QUEUE_HWM_NONE.
  abbrev pub overflow : Option ℕ → List (QEntry M) → Bool
  overflow none q = false
  overflow (some output_queue_hwm) q = leb output_queue_hwm (length q)

  unfoldable pub output_queue_push : Option ℕ → QEntry M → OutputCtx M → OutputCtx M
  output_queue_push hwm qentry ctx =
      if qentry.ordered_shutdown || (ctx.active && not (overflow hwm ctx.q))
      then record ctx { q = ctx.q ++ qentry ∷ [] }
      else ctx

  unfoldable pub output_queue_drain : OutputCtx M → OutputCtx M
  output_queue_drain ctx = record ctx { q = [] }

  -- la_list_foreach(outputs, output_queue_push, &qentry)
  unfoldable pub push_all : Option ℕ → QEntry M → List (OutputCtx M) → List (OutputCtx M)
  unfolding output_queue_push
  push_all hwm qentry [] = []
  push_all hwm qentry (ctx ∷ outputs) =
      output_queue_push hwm qentry ctx ∷ push_all hwm qentry outputs

  abbrev pub shutdown_entry : QEntry M
  shutdown_entry = record { msg = none; ordered_shutdown = true }

  -- A formatter is the list of its outputs.
  unfoldable pub shutdown_outputs : Option ℕ → List (List (OutputCtx M)) → List (List (OutputCtx M))
  unfolding push_all
  shutdown_outputs hwm [] = []
  shutdown_outputs hwm (outputs ∷ fmtr_list) =
      push_all hwm shutdown_entry outputs ∷ shutdown_outputs hwm fmtr_list

  abbrev pub any_active : List (OutputCtx M) → Bool
  any_active [] = false
  any_active (ctx ∷ outputs) = if ctx.active then true else any_active outputs

  unfoldable pub output_thread_is_any_running : List (List (OutputCtx M)) → Bool
  output_thread_is_any_running [] = false
  output_thread_is_any_running (outputs ∷ fmtr_list) =
      if any_active outputs then true else output_thread_is_any_running fmtr_list
