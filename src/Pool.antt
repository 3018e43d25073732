-- ===== src/Pool.antt =====
-- WorkerPool of internal/pool/worker.go, as a step relation: a step is one atomic operation of a
-- worker, of a submitter or of `Stop`, in any order. The counters are not bounded here.
pub mod Accounts
pub mod Closing
use sync_vault.Base.{
  ℕ, zero, suc, ◌+◌, ◌-◌, ◌<◌, ◌≡◌, Bool, true, false, List, [], ◌∷◌, ◌++◌, length,
}

-- Where a worker stands in its loop: before it has taken a task, with a task that it has taken,
-- while it runs it, with a task that failed, and before each of the two counters at the end.
pub data Phase (T : Type 0) : Type 0 where
  idle gone : Phase T
  took working : T → Phase T
  failing reported leaving : Phase T

-- Where `Stop` stands.
pub data StopPhase : Type 0 where
  not_called flagged awaiting joined finished : StopPhase

-- `waiting` are the tasks of the submitters that have passed the check of `stopped` and hold the
-- read lock.
pub record WorkerPool (T : Type 0) : Type 0 where
  pub phases : List (Phase T)
  pub task_queue : List T
  pub queue_size : ℕ
  pub waiting : List T
  pub task_count : ℕ
  pub error_count : ℕ
  pub active_jobs : ℕ
  pub cancelled : Bool
  pub stopped : Bool
  pub closed : Bool
  pub stop : StopPhase

abbrev pub idle_workers : {T : Type 0} → ℕ → List (Phase T)
idle_workers zero = []
idle_workers (suc n) = idle ∷ idle_workers n

-- `NewWorkerPool` and `Start`.
unfoldable pub new_worker_pool : {T : Type 0} → ℕ → ℕ → WorkerPool T
new_worker_pool workers queue_size = record {
  phases = idle_workers workers;
  task_queue = [];
  queue_size = queue_size;
  waiting = [];
  task_count = 0;
  error_count = 0;
  active_jobs = 0;
  cancelled = false;
  stopped = false;
  closed = false;
  stop = not_called;
}

abbrev pub AllGone : {T : Type 0} → List (Phase T) → Type 0
AllGone [] = Unit
AllGone (gone ∷ ws) = AllGone ws
AllGone (_ ∷ ws) = ⊥

-- Whether a step accepts a task.
pub data Event : Type 0 where
  accepts internal : Event

unfoldable pub count_accepted : List Event → ℕ
count_accepted [] = 0
count_accepted (accepts ∷ es) = suc (count_accepted es)
count_accepted (internal ∷ es) = count_accepted es

module _ {T : Type 0} where
  abbrev pub with_worker : WorkerPool T → List (Phase T) → Phase T → List (Phase T) → WorkerPool T
  with_worker s before w after = record s { phases = before ++ (w ∷ after) }

  -- One worker, which stands between two lists of others.
  pub data WorkerStep (b a : List (Phase T)) : WorkerPool T → WorkerPool T → Type 0 where
    cancels :
        (s : WorkerPool T)
        → s.cancelled ≡ true
        → WorkerStep b a (with_worker s b idle a) (with_worker s b gone a)
    drains :
        (s : WorkerPool T)
        → s.closed ≡ true
        → s.task_queue ≡ []
        → WorkerStep b a (with_worker s b idle a) (with_worker s b gone a)
    receives :
        (s : WorkerPool T) (t : T) (ts : List T)
        → WorkerStep b a
            (with_worker (record s { task_queue = t ∷ ts }) b idle a)
            (with_worker (record s { task_queue = ts }) b (took t) a)
    begins :
        (s : WorkerPool T) (t : T)
        → WorkerStep b a
            (with_worker s b (took t) a)
            (with_worker (record s { active_jobs = s.active_jobs + 1 }) b (working t) a)
    succeeds :
        (s : WorkerPool T) (t : T)
        → WorkerStep b a (with_worker s b (working t) a) (with_worker s b reported a)
    fails :
        (s : WorkerPool T) (t : T)
        → WorkerStep b a (with_worker s b (working t) a) (with_worker s b failing a)
    counts_error :
        (s : WorkerPool T)
        → WorkerStep b a
            (with_worker s b failing a)
            (with_worker (record s { error_count = s.error_count + 1 }) b reported a)
    ends :
        (s : WorkerPool T)
        → WorkerStep b a
            (with_worker s b reported a)
            (with_worker (record s { active_jobs = s.active_jobs - 1 }) b leaving a)
    counts_task :
        (s : WorkerPool T)
        → WorkerStep b a
            (with_worker s b leaving a)
            (with_worker (record s { task_count = s.task_count + 1 }) b idle a)

  pub data Step : WorkerPool T → Event → WorkerPool T → Type 0 where
    works : (b a : List (Phase T)) (s t : WorkerPool T) → WorkerStep b a s t → Step s internal t
    -- A submitter that finds the pool stopped returns an error and changes nothing.
    checks :
        (s : WorkerPool T) (t : T)
        → s.stopped ≡ false
        → Step s internal (record s { waiting = t ∷ s.waiting })
    gives_up :
        (s : WorkerPool T) (b a : List T) (t : T)
        → s.cancelled ≡ true
        → Step (record s { waiting = b ++ (t ∷ a) }) internal (record s { waiting = b ++ a })
    sends :
        (s : WorkerPool T) (b a : List T) (t : T)
        → s.closed ≡ false
        → length s.task_queue < s.queue_size
        → Step
            (record s { waiting = b ++ (t ∷ a) })
            accepts
            (record s { waiting = b ++ a; task_queue = s.task_queue ++ (t ∷ []) })
    -- A task goes straight to a worker that waits on an empty queue.
    hands_over :
        (s : WorkerPool T) (b a : List T) (t : T) (before after : List (Phase T))
        → s.closed ≡ false
        → s.task_queue ≡ []
        → Step
            (with_worker (record s { waiting = b ++ (t ∷ a) }) before idle after)
            accepts
            (with_worker (record s { waiting = b ++ a }) before (took t) after)
    context_ends : (s : WorkerPool T) → Step s internal (record s { cancelled = true })
    flags :
        (s : WorkerPool T)
        → s.stop ≡ not_called
        → Step s internal (record s { stopped = true; stop = flagged })
    stop_cancels :
        (s : WorkerPool T)
        → s.stop ≡ flagged
        → Step s internal (record s { cancelled = true; stop = awaiting })
    joins :
        (s : WorkerPool T)
        → s.stop ≡ awaiting
        → AllGone s.phases
        → Step s internal (record s { stop = joined })
    -- The write lock is had only while no submitter holds the read lock.
    closes :
        (s : WorkerPool T)
        → s.stop ≡ joined
        → s.waiting ≡ []
        → Step s internal (record s { closed = true; stop = finished })

  pub data Run : WorkerPool T → List Event → WorkerPool T → Type 0 where
    stays : (s : WorkerPool T) → Run s [] s
    goes_on :
        (s t u : WorkerPool T) (e : Event) (es : List Event)
        → Step s e t
        → Run t es u
        → Run s (e ∷ es) u
