-- ===== src/Pool/Closing.antt =====
-- `Stop` closes the queue only when nobody can use it any more.
use sync_vault.Base.{
  ℕ, ◌+◌, ◌≡◌, refl, sym, ap, ◌∙◌, Bool, true, false, List, [], ◌∷◌, ◌++◌, length, arith,
  Bool-cases, inl, inr,
}
use sync_vault.Pool.{
  Phase, idle, gone, took, working, failing, reported, leaving, StopPhase, not_called, flagged,
  awaiting, joined, finished, WorkerPool, new_worker_pool, AllGone, Event, WorkerStep, cancels,
  drains, receives, begins, succeeds, fails, counts_error, ends, counts_task, Step, works, checks,
  gives_up, sends, hands_over, context_ends, flags, stop_cancels, joins, closes, Run, stays,
  goes_on, count_accepted,
}
use sync_vault.Pool.Accounts.{holding, active, tally, new_worker_pool-IsCounted_after}

abbrev pub began : StopPhase → Bool
began not_called = false
began _ = true

-- The workers have ended.
abbrev pub ended : StopPhase → Bool
ended joined = true
ended finished = true
ended _ = false

abbrev pub is_finished : StopPhase → Bool
is_finished finished = true
is_finished _ = false

began_finished : (p : StopPhase) → is_finished p ≡ true → began p ≡ true
began_finished finished h = refl
began_finished not_called h = cc
began_finished flagged h = refl
began_finished awaiting h = refl
began_finished joined h = refl

module _ {T : Type 0} where
  pub record IsOrdered (s : WorkerPool T) : Type 0 where
    pub stopping : s.stopped ≡ began s.stop
    pub closing : s.closed ≡ is_finished s.stop
    pub workers_gone : ended s.stop ≡ true → AllGone s.phases
    pub nobody_waits : s.closed ≡ true → s.waiting ≡ []

  AllGone-append : (b a : List (Phase T)) → AllGone (b ++ a) → AllGone a
  AllGone-append [] a h = h
  AllGone-append (gone ∷ b) a h = AllGone-append b a h
  AllGone-append (idle ∷ b) a h = absurd h
  AllGone-append (took t ∷ b) a h = absurd h
  AllGone-append (working t ∷ b) a h = absurd h
  AllGone-append (failing ∷ b) a h = absurd h
  AllGone-append (reported ∷ b) a h = absurd h
  AllGone-append (leaving ∷ b) a h = absurd h

  -- A worker moves on only while not all have ended, and changes only the workers and the counters.
  WorkerStep-IsOrdered :
      (b a : List (Phase T)) (s t : WorkerPool T) → WorkerStep b a s t → IsOrdered s → IsOrdered t
  WorkerStep-IsOrdered b a _ _ (cancels s c) h = record {
    stopping = h.stopping;
    closing = h.closing;
    workers_gone = λ e. absurd (AllGone-append b (idle ∷ a) (h.workers_gone e));
    nobody_waits = h.nobody_waits;
  }
  WorkerStep-IsOrdered b a _ _ (drains s c e) h = record {
    stopping = h.stopping;
    closing = h.closing;
    workers_gone = λ e. absurd (AllGone-append b (idle ∷ a) (h.workers_gone e));
    nobody_waits = h.nobody_waits;
  }
  WorkerStep-IsOrdered b a _ _ (receives s t ts) h = record {
    stopping = h.stopping;
    closing = h.closing;
    workers_gone = λ e. absurd (AllGone-append b (idle ∷ a) (h.workers_gone e));
    nobody_waits = h.nobody_waits;
  }
  WorkerStep-IsOrdered b a _ _ (begins s t) h = record {
    stopping = h.stopping;
    closing = h.closing;
    workers_gone = λ e. absurd (AllGone-append b ((took t) ∷ a) (h.workers_gone e));
    nobody_waits = h.nobody_waits;
  }
  WorkerStep-IsOrdered b a _ _ (succeeds s t) h = record {
    stopping = h.stopping;
    closing = h.closing;
    workers_gone = λ e. absurd (AllGone-append b ((working t) ∷ a) (h.workers_gone e));
    nobody_waits = h.nobody_waits;
  }
  WorkerStep-IsOrdered b a _ _ (fails s t) h = record {
    stopping = h.stopping;
    closing = h.closing;
    workers_gone = λ e. absurd (AllGone-append b ((working t) ∷ a) (h.workers_gone e));
    nobody_waits = h.nobody_waits;
  }
  WorkerStep-IsOrdered b a _ _ (counts_error s) h = record {
    stopping = h.stopping;
    closing = h.closing;
    workers_gone = λ e. absurd (AllGone-append b (failing ∷ a) (h.workers_gone e));
    nobody_waits = h.nobody_waits;
  }
  WorkerStep-IsOrdered b a _ _ (ends s) h = record {
    stopping = h.stopping;
    closing = h.closing;
    workers_gone = λ e. absurd (AllGone-append b (reported ∷ a) (h.workers_gone e));
    nobody_waits = h.nobody_waits;
  }
  WorkerStep-IsOrdered b a _ _ (counts_task s) h = record {
    stopping = h.stopping;
    closing = h.closing;
    workers_gone = λ e. absurd (AllGone-append b (leaving ∷ a) (h.workers_gone e));
    nobody_waits = h.nobody_waits;
  }

  not_nil : (b : List T) (t : T) (a : List T) → b ++ (t ∷ a) ≡ [] → ⊥
  not_nil [] t a h = cc
  not_nil (u ∷ b) t a h = cc

  Step-IsOrdered : (s t : WorkerPool T) (e : Event) → Step s e t → IsOrdered s → IsOrdered t
  Step-IsOrdered s t _ (works b a _ _ w) h = WorkerStep-IsOrdered b a s t w h
  Step-IsOrdered _ _ _ (checks s n o) h = record {
    stopping = h.stopping;
    closing = h.closing;
    workers_gone = h.workers_gone;
    nobody_waits = λ q. absurd (
        let r : true ≡ false = sym (h.stopping ∙ began_finished s.stop (sym h.closing ∙ q)) ∙ o in
        cc r);
  }
  Step-IsOrdered _ _ _ (gives_up s b a t c) h = record {
    stopping = h.stopping;
    closing = h.closing;
    workers_gone = h.workers_gone;
    nobody_waits = λ q. absurd (not_nil b t a (h.nobody_waits q));
  }
  Step-IsOrdered _ _ _ (sends s b a t o r) h = record {
    stopping = h.stopping;
    closing = h.closing;
    workers_gone = h.workers_gone;
    nobody_waits = λ q. absurd (not_nil b t a (h.nobody_waits q));
  }
  Step-IsOrdered _ _ _ (hands_over s b a t before after o e) h = record {
    stopping = h.stopping;
    closing = h.closing;
    workers_gone = λ q. absurd (AllGone-append before (idle ∷ after) (h.workers_gone q));
    nobody_waits = λ q. absurd (not_nil b t a (h.nobody_waits q));
  }
  Step-IsOrdered _ _ _ (context_ends s) h = record {
    stopping = h.stopping;
    closing = h.closing;
    workers_gone = h.workers_gone;
    nobody_waits = h.nobody_waits;
  }
  Step-IsOrdered _ _ _ (flags s e) h = record {
    stopping = refl;
    closing = h.closing ∙ ap is_finished e;
    workers_gone = λ q. cc;
    nobody_waits = h.nobody_waits;
  }
  Step-IsOrdered _ _ _ (stop_cancels s e) h = record {
    stopping = h.stopping ∙ ap began e;
    closing = h.closing ∙ ap is_finished e;
    workers_gone = λ q. cc;
    nobody_waits = h.nobody_waits;
  }
  Step-IsOrdered _ _ _ (joins s e g) h = record {
    stopping = h.stopping ∙ ap began e;
    closing = h.closing ∙ ap is_finished e;
    workers_gone = λ q. g;
    nobody_waits = h.nobody_waits;
  }
  Step-IsOrdered _ _ _ (closes s e n) h = record {
    stopping = h.stopping ∙ ap began e;
    closing = refl;
    workers_gone = λ q. h.workers_gone (ap ended e);
    nobody_waits = λ q. n;
  }

  Run-IsOrdered : (s t : WorkerPool T) (es : List Event) → Run s es t → IsOrdered s → IsOrdered t
  Run-IsOrdered _ _ _ (stays s) h = h
  Run-IsOrdered _ _ _ (goes_on s t u e es st r) h =
      Run-IsOrdered t u es r (Step-IsOrdered s t e st h)

  new_worker_pool-IsOrdered : (n q : ℕ) → IsOrdered (new_worker_pool {T = T} n q)
  unfolding new_worker_pool
  new_worker_pool-IsOrdered n q = record {
    stopping = refl;
    closing = refl;
    workers_gone = λ h. cc;
    nobody_waits = λ h. refl;
  }

  -- No submitter ever sends on the closed queue: while a task waits to be sent, the queue is open,
  -- however `Submit`, `Stop` and the workers are interleaved.
  pub open_while_waiting :
      (n q : ℕ) (s : WorkerPool T) (es : List Event) (t : T) (ts : List T)
      → Run (new_worker_pool n q) es s
      → s.waiting ≡ t ∷ ts
      → s.closed ≡ false
  open_while_waiting n q s es t ts r w =
      let v = Run-IsOrdered (new_worker_pool n q) s es r (new_worker_pool-IsOrdered n q) in
      elim (Bool-cases s.closed) [
        | inl c ↦ absurd (let q : t ∷ ts ≡ [] = sym w ∙ v.nobody_waits c in cc q)
        | inr c ↦ c
      ]

  tally_gone : (f : Phase T → ℕ) (ws : List (Phase T)) → f gone ≡ 0 → AllGone ws → tally f ws ≡ 0
  unfolding tally
  tally_gone f [] z h = refl
  tally_gone f (gone ∷ ws) z h = omega (arith, z, tally_gone f ws z h)
  tally_gone f (idle ∷ ws) z h = absurd h
  tally_gone f (took t ∷ ws) z h = absurd h
  tally_gone f (working t ∷ ws) z h = absurd h
  tally_gone f (failing ∷ ws) z h = absurd h
  tally_gone f (reported ∷ ws) z h = absurd h
  tally_gone f (leaving ∷ ws) z h = absurd h

  -- Once `Stop` has returned no job is active, and each task that was accepted is counted as done
  -- or is left in the queue.
  pub stopped_counts :
      (n q : ℕ) (s : WorkerPool T) (es : List Event)
      → Run (new_worker_pool n q) es s
      → s.stop ≡ finished
      → (s.active_jobs ≡ 0) × (s.task_count + length s.task_queue ≡ count_accepted es)
  stopped_counts n q s es r e =
      let v = Run-IsOrdered (new_worker_pool n q) s es r (new_worker_pool-IsOrdered n q) in
      let all_gone = v.workers_gone (ap ended e) in
      let counts = new_worker_pool-IsCounted_after n q s es r in
      (
        counts.0.actives ∙ tally_gone active s.phases refl all_gone,
        omega (arith, counts.1, tally_gone holding s.phases refl all_gone),
      )
