-- ===== src/Tests/Pools.antt =====
-- A pool of one worker, to which a task is sent before it is stopped.
use sync_vault.Base.{ℕ, ◌+◌, ◌≡◌, refl, true, false, List, [], ◌∷◌, length, arith}
use sync_vault.Pool.{
  WorkerPool, new_worker_pool, gone, Event, accepts, internal, finished, joined, awaiting, flagged,
  works, cancels, checks, sends, flags, stop_cancels, joins, closes, Run, stays, goes_on,
  count_accepted,
}
use sync_vault.Pool.Accounts.{IsCounted, tally, holding, new_worker_pool-IsCounted_after}
use sync_vault.Pool.Closing.{open_while_waiting, stopped_counts}

abbrev fresh : WorkerPool ℕ
fresh = new_worker_pool 1 2

abbrev waits : WorkerPool ℕ
waits = record fresh { waiting = 7 ∷ [] }

abbrev queued : WorkerPool ℕ
queued = record fresh { task_queue = 7 ∷ [] }

abbrev stops : WorkerPool ℕ
stops = record queued { stopped = true; stop = flagged }

abbrev calls_off : WorkerPool ℕ
calls_off = record stops { cancelled = true; stop = awaiting }

abbrev left : WorkerPool ℕ
left = record calls_off { phases = gone ∷ [] }

abbrev joined_pool : WorkerPool ℕ
joined_pool = record left { stop = joined }

abbrev closed_pool : WorkerPool ℕ
closed_pool = record joined_pool { closed = true; stop = finished }

one_check : Run fresh (internal ∷ []) waits
unfolding new_worker_pool
one_check = goes_on fresh waits waits internal [] (checks fresh 7 refl) (stays waits)

abbrev events : List Event
events = internal ∷ accepts ∷ internal ∷ internal ∷ internal ∷ internal ∷ internal ∷ []

whole_run : Run fresh events closed_pool
unfolding new_worker_pool
whole_run = goes_on fresh waits closed_pool _ _ (checks fresh 7 refl) (
    goes_on waits queued closed_pool _ _ (sends fresh [] [] 7 refl (omega arith)) (
      goes_on queued stops closed_pool _ _ (flags queued refl) (
        goes_on stops calls_off closed_pool _ _ (stop_cancels stops refl) (
          goes_on calls_off left closed_pool _ _
            (works [] [] calls_off left (cancels calls_off refl))
            (goes_on left joined_pool closed_pool _ _ (joins left refl tt) (
              goes_on joined_pool closed_pool closed_pool _ _ (closes joined_pool refl refl)
                (stays closed_pool)))))))

open_while_waiting_example : waits.closed ≡ false
open_while_waiting_example = open_while_waiting 1 2 waits (internal ∷ []) 7 [] one_check refl

stopped_counts_example :
    (closed_pool.active_jobs ≡ 0)
    × (closed_pool.task_count + length closed_pool.task_queue ≡ count_accepted events)
stopped_counts_example = stopped_counts 1 2 closed_pool events whole_run refl

new_worker_pool-IsCounted_after_example :
    IsCounted closed_pool
    × (closed_pool.task_count + (tally holding closed_pool.phases + length closed_pool.task_queue)
        ≡ count_accepted events)
new_worker_pool-IsCounted_after_example =
    new_worker_pool-IsCounted_after 1 2 closed_pool events whole_run
