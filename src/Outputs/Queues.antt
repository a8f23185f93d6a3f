-- ===== src/Outputs/Queues.antt =====
-- What the queues of src/output-common.c hold, and how a shutdown reaches every output.
use dumphfdl.Common.{
  ℕ, ◌≡◌, ◌≤◌, refl, ap, Bool, true, false, ◌&&◌, not, Option, some, List, [], ◌∷◌, ◌++◌, length,
  length-append, map, leb, if◌then◌else◌, Bool-cases, inl, inr, arith,
}
use dumphfdl.Outputs.{
  QEntry, OutputCtx, output_queue_push, push_all, shutdown_entry, shutdown_outputs, any_active,
  output_thread_is_any_running,
}

module _ {M : Type 0} where
  -- A message never makes a queue longer than its high water mark: it joins the end of the queue of
  -- an active output below the mark, and in every other case the output is left as it was.
  pub output_queue_push_bound :
      (hwm : ℕ) (qentry : QEntry M) (ctx : OutputCtx M)
      → qentry.ordered_shutdown ≡ false
      → length ctx.q ≤ hwm
      → (length (output_queue_push (some hwm) qentry ctx).q ≤ hwm)
        × (output_queue_push (some hwm) qentry ctx ≡ (
            if ctx.active && not (leb hwm (length ctx.q))
            then record ctx { q = ctx.q ++ qentry ∷ [] }
            else ctx))
  unfolding output_queue_push
  output_queue_push_bound hwm qentry ctx message small = (
    (elim (Bool-cases (ctx.active && not (leb hwm (length ctx.q)))) [
      | inl room ↦
          rw (message, room) (ground (arith, room, length-append ctx.q (qentry ∷ []), small))
      | inr none_left ↦ rw (message, none_left) small
    ]),
    rw message refl,
  )

  -- The output with the shutdown order behind everything in its queue.
  abbrev pub ordered : OutputCtx M → OutputCtx M
  ordered ctx = record ctx { q = ctx.q ++ shutdown_entry ∷ [] }

  push_all-shutdown_entry :
      (hwm : Option ℕ) (outputs : List (OutputCtx M))
      → (push_all hwm shutdown_entry outputs ≡ map ordered outputs)
        × (any_active (map ordered outputs) ≡ any_active outputs)
  unfolding push_all output_queue_push
  push_all-shutdown_entry hwm [] = (refl, refl)
  push_all-shutdown_entry hwm (ctx ∷ outputs) =
      let (e, a) = push_all-shutdown_entry hwm outputs in
      (ap (◌∷◌ (ordered ctx)) e, ap (λ (b : Bool). if ctx.active then true else b) a)

  -- A shutdown puts its order at the end of the queue of every output of every formatter, active or
  -- not and over the mark or not, behind the messages that are there, and stops none by itself.
  pub shutdown_outputs_lem :
      (hwm : Option ℕ) (fmtr_list : List (List (OutputCtx M)))
      → (shutdown_outputs hwm fmtr_list ≡ map (map ordered) fmtr_list)
        × (output_thread_is_any_running (shutdown_outputs hwm fmtr_list)
            ≡ output_thread_is_any_running fmtr_list)
  unfolding shutdown_outputs output_thread_is_any_running
  shutdown_outputs_lem hwm [] = (refl, refl)
  shutdown_outputs_lem hwm (outputs ∷ fmtr_list) =
      let (e, a) = push_all-shutdown_entry hwm outputs in
      let (es, as') = shutdown_outputs_lem hwm fmtr_list in (rw (e, es) refl, rw (e, a, as') refl)
