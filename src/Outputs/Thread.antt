-- ===== src/Outputs/Thread.antt =====
-- src/output-common.c: the thread of an output. The driver of the output is a parameter: what it keeps,
-- and its calls. A shutdown order is an entry without a message.
use dumphfdl.Common.{ℕ, zero, suc, Bool, false, if◌then◌else◌, Option, List, [], ◌∷◌}
use dumphfdl.Outputs.{QEntry, OutputCtx, output_queue_drain}

-- output_descriptor_t: what the thread calls of it. `produce` says whether it failed.
pub record Driver (M : Type 0) : Type 1 where
  pub Priv : Type 0
  pub init : Priv → Priv × Bool
  pub produce : Priv → Option M → Priv × Bool
  pub handle_shutdown : Priv → Priv
  pub handle_failure : Priv → Priv

module _ {M : Type 0} (driver : Driver M) where
  pub record Thread : Type 0 where
    pub ctx : OutputCtx M
    pub priv : driver.Priv

  pub data Status : Type 0 where
    running : Thread → Status
    stopped : Thread → Status

  -- Behind the loop.
  unfoldable pub shut_down : Thread → Thread
  shut_down t = record {
    ctx = record t.ctx { active = false };
    priv = driver.handle_shutdown t.priv;
  }

  -- A failed delivery puts the entry back at the front of the queue.
  unfoldable pub deliver : QEntry M → List (QEntry M) → Thread → Thread
  deliver q rest t =
      let (priv, failed) = driver.produce t.priv q.msg in
      record { ctx = record t.ctx { q = if failed then q ∷ rest else rest }; priv = priv }

  -- One round of the loop; with an empty queue the thread waits.
  unfoldable pub round : List (QEntry M) → Thread → Status
  unfolding shut_down deliver
  round [] t = running t
  round (q ∷ rest) t =
      if q.ordered_shutdown
      then stopped (shut_down (record t { ctx = record t.ctx { q = rest } }))
      else running (deliver q rest t)

  abbrev pub next : Status → Status
  next (running t) = round t.ctx.q t
  next (stopped t) = stopped t

  unfoldable pub rounds : ℕ → Status → Status
  rounds zero status = status
  rounds (suc n) status = rounds n (next status)

  unfoldable pub failed_start : Thread → Thread
  failed_start t = record {
    ctx = output_queue_drain (record t.ctx { active = false });
    priv = driver.handle_failure t.priv;
  }

  -- The start of the thread, up to its loop.
  unfoldable pub output_thread : Thread → Status
  unfolding failed_start
  output_thread t =
      let (priv, failed) = driver.init t.priv in
      if failed
      then stopped (failed_start (record t { priv = priv }))
      else running (record t { priv = priv })
