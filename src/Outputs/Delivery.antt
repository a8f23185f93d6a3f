-- ===== src/Outputs/Delivery.antt =====
-- What the thread of an output in src/output-common.c does with the messages of its queue.
use dumphfdl.Common.{
  append_assoc, append_nil, ℕ, zero, suc, ◌<◌, ◌≤◌, ◌≡◌, refl, ap, sym, ◌∙◌, arith, true, false,
  Bool-cases, inl, inr, some, List, [], ◌∷◌, ◌++◌, map,
}
use dumphfdl.Outputs.{QEntry, shutdown_entry}
use dumphfdl.Outputs.Thread.{
  Driver, Thread, Status, running, stopped, shut_down, deliver, round, next, rounds,
}

module _ {M : Type 0} where
  abbrev pub entry : M → QEntry M
  entry m = record { msg = some m; ordered_shutdown = false }

  -- A driver that keeps a log of what it has delivered: a failed call adds nothing to it, and one
  -- that does not fail adds its message.
  pub record IsLogged (driver : Driver M) : Type 0 where
    pub log : driver.Priv → List M
    pub kept :
        (p : driver.Priv) (m : M)
        → (driver.produce p (some m)).1 ≡ true
        → log (driver.produce p (some m)).0 ≡ log p
    pub added :
        (p : driver.Priv) (m : M)
        → (driver.produce p (some m)).1 ≡ false
        → log (driver.produce p (some m)).0 ≡ log p ++ m ∷ []
    pub at_shutdown : (p : driver.Priv) → log (driver.handle_shutdown p) ≡ log p

  -- A driver that does not fail forever: each failure in a row brings its recovery closer.
  pub record IsRecovering (driver : Driver M) : Type 0 where
    pub patience : driver.Priv → ℕ
    pub closer :
        (p : driver.Priv) (m : M)
        → (driver.produce p (some m)).1 ≡ true
        → patience (driver.produce p (some m)).0 < patience p

  module _ (driver : Driver M) (logged : IsLogged driver) where
    rounds-stopped : (n : ℕ) (t : Thread driver) → rounds driver n (stopped t) ≡ stopped t
    unfolding rounds
    rounds-stopped zero t = refl
    rounds-stopped (suc n) t = rounds-stopped n t

    -- The thread waits for these messages before the shutdown order, or has stopped behind them.
    pub data IsWaiting (left : List M) (t : Thread driver) : Status driver → Type 0 where
      still : t.ctx.q ≡ map entry left ++ shutdown_entry ∷ [] → IsWaiting left t (running t)
      done : t.ctx.q ≡ [] → t.ctx.active ≡ false → left ≡ [] → IsWaiting left t (stopped t)

    -- What has been delivered, with what waits behind it.
    pub record IsAccounted (msgs : List M) (status : Status driver) : Type 0 where
      pub left : List M
      pub thread : Thread driver
      pub waiting : IsWaiting left thread status
      pub all : logged.log thread.priv ++ left ≡ msgs

    module _ (msgs : List M) where
      deliver-IsAccounted :
          (m : M) (left : List M) (t : Thread driver)
          → logged.log t.priv ++ m ∷ left ≡ msgs
          → IsAccounted msgs
              (running (deliver driver (entry m) (map entry left ++ shutdown_entry ∷ []) t))
      unfolding deliver
      deliver-IsAccounted m left t all = elim (Bool-cases (driver.produce t.priv (some m)).1) [
        | inl failed ↦ record {
          left = m ∷ left;
          thread = deliver driver (entry m) (map entry left ++ shutdown_entry ∷ []) t;
          waiting = still (rw failed refl);
          all = rw (logged.kept t.priv m failed) all;
        }
        | inr delivered ↦ record {
          left = left;
          thread = deliver driver (entry m) (map entry left ++ shutdown_entry ∷ []) t;
          waiting = still (rw delivered refl);
          all =
              rw (logged.added t.priv m delivered, append_assoc (logged.log t.priv) (m ∷ []) left)
                all;
        }
      ]

      next_waiting :
          (left : List M) (t : Thread driver)
          → t.ctx.q ≡ map entry left ++ shutdown_entry ∷ []
          → logged.log t.priv ++ left ≡ msgs
          → IsAccounted msgs (next driver (running t))
      unfolding round shut_down
      next_waiting [] t q all = rw q (record {
        left = [];
        thread = shut_down driver (record t { ctx = record t.ctx { q = [] } });
        waiting = done refl refl refl;
        all = rw (logged.at_shutdown t.priv) all;
      })
      next_waiting (m ∷ left) t q all = rw q (deliver-IsAccounted m left t all)

      step_waiting :
          (left : List M) (t : Thread driver) (status : Status driver)
          → IsWaiting left t status
          → logged.log t.priv ++ left ≡ msgs
          → IsAccounted msgs (next driver status)
      step_waiting left t _ (still q) all = next_waiting left t q all
      step_waiting left t _ (done q inactive none_left) all = record {
        left = left;
        thread = t;
        waiting = done q inactive none_left;
        all = all;
      }

      rounds-IsAccounted :
          (n : ℕ) (status : Status driver)
          → IsAccounted msgs status
          → IsAccounted msgs (rounds driver n status)
      unfolding rounds
      rounds-IsAccounted zero status h = h
      rounds-IsAccounted (suc n) status h =
          rounds-IsAccounted n (next driver status)
            (step_waiting h.left h.thread status h.waiting h.all)

    -- Whatever the driver does and however often it fails, after any number of rounds the log of the
    -- driver, followed by the messages that wait, is its log at the start followed by the messages of
    -- the queue: none is lost, delivered twice or overtaken, and the thread stops only behind the
    -- last one, with its output no longer active.
    pub running-IsAccounted :
        (n : ℕ) (msgs : List M) (t : Thread driver)
        → t.ctx.q ≡ map entry msgs ++ shutdown_entry ∷ []
        → IsAccounted (logged.log t.priv ++ msgs) (rounds driver n (running t))
    running-IsAccounted n msgs t q =
        rounds-IsAccounted (logged.log t.priv ++ msgs) n (running t)
          (record { left = msgs; thread = t; waiting = still q; all = refl })

    module _ (recovering : IsRecovering driver) where
      finishes :
          (left : List M) (k : ℕ) (t : Thread driver)
          → recovering.patience t.priv ≤ k
          → t.ctx.q ≡ map entry left ++ shutdown_entry ∷ []
          → (n : ℕ) × (t1 : Thread driver) × (rounds driver n (running t) ≡ stopped t1)
            × (logged.log t1.priv ≡ logged.log t.priv ++ left)
      unfolding rounds round deliver shut_down
      finishes [] k t patient q = (
        1,
        shut_down driver (record t { ctx = record t.ctx { q = [] } }),
        rw q refl,
        logged.at_shutdown t.priv ∙ sym (append_nil (logged.log t.priv)),
      )
      finishes (m ∷ left) zero t patient q =
          let rest = map entry left ++ shutdown_entry ∷ [] in
          let t1 = deliver driver (entry m) rest t in
          elim (Bool-cases (driver.produce t.priv (some m)).1) [
            | inl failed ↦ absurd (omega (arith, recovering.closer t.priv m failed, patient))
            | inr delivered ↦
                let (n, t2, e, log) =
                  finishes left (recovering.patience t1.priv) t1 (omega arith)
                    (rw delivered refl) in
                (
                  suc n,
                  t2,
                  rw q e,
                  log
                      ∙ ap (λ (l : List M). l ++ left) (logged.added t.priv m delivered)
                      ∙ append_assoc (logged.log t.priv) (m ∷ []) left,
                )
          ]
      finishes (m ∷ left) (suc k) t patient q =
          let rest = map entry left ++ shutdown_entry ∷ [] in
          let t1 = deliver driver (entry m) rest t in
          elim (Bool-cases (driver.produce t.priv (some m)).1) [
            | inl failed ↦
                let (n, t2, e, log) =
                  finishes (m ∷ left) k t1
                    (omega (arith, recovering.closer t.priv m failed, patient)) (rw failed refl) in
                (
                  suc n,
                  t2,
                  rw q e,
                  log ∙ ap (λ (l : List M). l ++ m ∷ left) (logged.kept t.priv m failed),
                )
            | inr delivered ↦
                let (n, t2, e, log) =
                  finishes left (recovering.patience t1.priv) t1 (omega arith)
                    (rw delivered refl) in
                (
                  suc n,
                  t2,
                  rw q e,
                  log
                      ∙ ap (λ (l : List M). l ++ left) (logged.added t.priv m delivered)
                      ∙ append_assoc (logged.log t.priv) (m ∷ []) left,
                )
          ]

      -- With a driver that recovers from each failure after finitely many tries, the thread stops after
      -- finitely many rounds, and by then every message of the queue has been delivered, in its order.
      pub output_thread_finishes :
          (msgs : List M) (t : Thread driver)
          → t.ctx.q ≡ map entry msgs ++ shutdown_entry ∷ []
          → (n : ℕ) × (t1 : Thread driver) × (rounds driver n (running t) ≡ stopped t1)
            × (logged.log t1.priv ≡ logged.log t.priv ++ msgs)
      output_thread_finishes msgs t q = finishes msgs (recovering.patience t.priv) t (omega arith) q
