-- ===== src/Pool/Accounts.antt =====
-- No task is lost or counted twice, whatever the order of the steps.
use sync_vault.Base.{
  ℕ, zero, suc, ◌+◌, ◌≤◌, ◌≡◌, refl, sym, List, [], ◌∷◌, ◌++◌, length, length-append, arith,
}
use sync_vault.Pool.{
  Phase, idle, gone, took, working, failing, reported, leaving, WorkerPool, new_worker_pool,
  idle_workers, Event, accepts, internal, WorkerStep, cancels, drains, receives, begins, succeeds,
  fails, counts_error, ends, counts_task, Step, works, checks, gives_up, sends, hands_over,
  context_ends, flags, stop_cancels, joins, closes, Run, stays, goes_on, count_accepted,
}

abbrev pub accepted : Event → ℕ
accepted accepts = 1
accepted internal = 0

module _ {T : Type 0} where
  -- A sum over the workers.
  unfoldable pub tally : (Phase T → ℕ) → List (Phase T) → ℕ
  tally f [] = 0
  tally f (w ∷ ws) = f w + tally f ws

  pub tally-append :
      (f : Phase T → ℕ) (b a : List (Phase T)) → tally f (b ++ a) ≡ tally f b + tally f a
  unfolding tally
  tally-append f [] a = omega arith
  tally-append f (w ∷ b) a = omega (arith, tally-append f b a)

  tally-worker :
      (f : Phase T → ℕ) (b a : List (Phase T)) (w : Phase T)
      → tally f (b ++ (w ∷ a)) ≡ f w + (tally f b + tally f a)
  unfolding tally
  tally-worker f b a w = omega (arith, tally-append f b (w ∷ a))

  -- A worker that has a task which is not counted yet.
  abbrev pub holding : Phase T → ℕ
  holding idle = 0
  holding gone = 0
  holding _ = 1

  -- A worker that counts among the active jobs.
  abbrev pub active : Phase T → ℕ
  active (working t) = 1
  active failing = 1
  active reported = 1
  active _ = 0

  -- A worker whose task has run and may have failed.
  abbrev pub ended : Phase T → ℕ
  ended reported = 1
  ended leaving = 1
  ended _ = 0

  -- The tasks that are done, in hand, or queued.
  abbrev pub load : WorkerPool T → ℕ
  load s = s.task_count + (tally holding s.phases + length s.task_queue)

  pub record IsCounted (s : WorkerPool T) : Type 0 where
    pub actives : s.active_jobs ≡ tally active s.phases
    pub errors : s.error_count ≤ s.task_count + tally ended s.phases

  -- What a sum over the workers becomes when one of them moves on.
  moved :
      (f : Phase T → ℕ) (b a : List (Phase T)) (w v : Phase T)
      → tally f (b ++ (v ∷ a)) + f w ≡ tally f (b ++ (w ∷ a)) + f v
  moved f b a w v = omega (arith, tally-worker f b a w, tally-worker f b a v)

  WorkerStep-IsCounted :
      (b a : List (Phase T)) (s t : WorkerPool T)
      → WorkerStep b a s t
      → IsCounted s
      → IsCounted t × (load t ≡ load s)
  WorkerStep-IsCounted b a _ _ (cancels s c) h =
      ground
        (arith, moved holding b a idle gone, moved active b a idle gone, moved ended b a idle gone)
  WorkerStep-IsCounted b a _ _ (drains s c e) h =
      ground
        (arith, moved holding b a idle gone, moved active b a idle gone, moved ended b a idle gone)
  WorkerStep-IsCounted b a _ _ (receives s t ts) h = ground (
    arith,
    moved holding b a idle (took t),
    moved active b a idle (took t),
    moved ended b a idle (took t),
  )
  WorkerStep-IsCounted b a _ _ (begins s t) h = ground (
    arith,
    moved holding b a (took t) (working t),
    moved active b a (took t) (working t),
    moved ended b a (took t) (working t),
  )
  WorkerStep-IsCounted b a _ _ (succeeds s t) h = ground (
    arith,
    moved holding b a (working t) reported,
    moved active b a (working t) reported,
    moved ended b a (working t) reported,
  )
  WorkerStep-IsCounted b a _ _ (fails s t) h = ground (
    arith,
    moved holding b a (working t) failing,
    moved active b a (working t) failing,
    moved ended b a (working t) failing,
  )
  WorkerStep-IsCounted b a _ _ (counts_error s) h = ground (
    arith,
    moved holding b a failing reported,
    moved active b a failing reported,
    moved ended b a failing reported,
  )
  WorkerStep-IsCounted b a _ _ (ends s) h = ground (
    arith,
    moved holding b a reported leaving,
    moved active b a reported leaving,
    moved ended b a reported leaving,
  )
  WorkerStep-IsCounted b a _ _ (counts_task s) h = ground (
    arith,
    moved holding b a leaving idle,
    moved active b a leaving idle,
    moved ended b a leaving idle,
  )

  Step-IsCounted :
      (s t : WorkerPool T) (e : Event)
      → Step s e t
      → IsCounted s
      → IsCounted t × (load t ≡ load s + accepted e)
  Step-IsCounted s t _ (works b a _ _ w) h =
      let r = WorkerStep-IsCounted b a s t w h in (r.0, omega (arith, r.1))
  Step-IsCounted _ _ _ (checks s t n) h =
      (record { actives = h.actives; errors = h.errors }, omega arith)
  Step-IsCounted _ _ _ (gives_up s b a t c) h =
      (record { actives = h.actives; errors = h.errors }, omega arith)
  Step-IsCounted _ _ _ (sends s b a t c r) h = (
    record { actives = h.actives; errors = h.errors },
    omega (arith, length-append s.task_queue (t ∷ [])),
  )
  Step-IsCounted _ _ _ (hands_over s b a t before after c e) h = ground (
    arith,
    moved holding before after idle (took t),
    moved active before after idle (took t),
    moved ended before after idle (took t),
  )
  Step-IsCounted _ _ _ (context_ends s) h =
      (record { actives = h.actives; errors = h.errors }, omega arith)
  Step-IsCounted _ _ _ (flags s e) h =
      (record { actives = h.actives; errors = h.errors }, omega arith)
  Step-IsCounted _ _ _ (stop_cancels s e) h =
      (record { actives = h.actives; errors = h.errors }, omega arith)
  Step-IsCounted _ _ _ (joins s e g) h =
      (record { actives = h.actives; errors = h.errors }, omega arith)
  Step-IsCounted _ _ _ (closes s e n) h =
      (record { actives = h.actives; errors = h.errors }, omega arith)

  pub Run-IsCounted :
      (s t : WorkerPool T) (es : List Event)
      → Run s es t
      → IsCounted s
      → IsCounted t × (load t ≡ load s + count_accepted es)
  unfolding count_accepted
  Run-IsCounted _ _ _ (stays s) h = (h, omega arith)
  Run-IsCounted _ _ _ (goes_on s t u accepts es st r) h =
      let one = Step-IsCounted s t accepts st h in
      let rest = Run-IsCounted t u es r one.0 in (rest.0, omega (arith, one.1, rest.1))
  Run-IsCounted _ _ _ (goes_on s t u internal es st r) h =
      let one = Step-IsCounted s t internal st h in
      let rest = Run-IsCounted t u es r one.0 in (rest.0, omega (arith, one.1, rest.1))

  tally-idle_workers : (f : Phase T → ℕ) (n : ℕ) → f idle ≡ 0 → tally f (idle_workers n) ≡ 0
  unfolding tally
  tally-idle_workers f zero h = refl
  tally-idle_workers f (suc n) h = omega (arith, h, tally-idle_workers f n h)

  new_worker_pool-IsCounted :
      (n q : ℕ) → IsCounted (new_worker_pool {T = T} n q) × (load (new_worker_pool {T = T} n q) ≡ 0)
  unfolding new_worker_pool
  new_worker_pool-IsCounted n q = (
    record { actives = sym (tally-idle_workers active n refl); errors = omega arith },
    omega (arith, tally-idle_workers holding n refl),
  )

  -- In every state that a pool can reach: the active jobs are the workers that run a task, there
  -- are no more errors than tasks that have run, and each accepted task is done, in the hands of
  -- one worker, or in the queue.
  pub new_worker_pool-IsCounted_after :
      (n q : ℕ) (s : WorkerPool T) (es : List Event)
      → Run (new_worker_pool n q) es s
      → IsCounted s
        × (s.task_count + (tally holding s.phases + length s.task_queue) ≡ count_accepted es)
  new_worker_pool-IsCounted_after n q s es r =
      let start = new_worker_pool-IsCounted n q in
      let rest = Run-IsCounted (new_worker_pool n q) s es r start.0 in
      (rest.0, omega (arith, rest.1, start.1))
