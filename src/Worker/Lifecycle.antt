-- ===== src/Worker/Lifecycle.antt =====
-- cmd/worker/main.go: main, and Run, work and Stop of the worker pool, from the start of the
-- process to its end. What Dequeue and processJob do is in the modules Queue and Worker/Process;
-- here they only return.
use web_gobbler.Prelude.{ℕ, zero, suc, ◌-◌, ℤ, to_ℕ, Bool, true, false, List, [], ◌∷◌, ◌++◌, ◌≡◌}

-- Where a worker stands in work: at the top of the loop, in Dequeue, in the second after an error,
-- in processJob, or returned.
pub data Phase : Type 0 where
  at_poll in_dequeue in_pause in_job stopped : Phase

-- Where main stands: before New, Migrate and New of the store and the queue, in the loop of Run
-- with so many workers to come, waiting for a signal, in the Wait of Stop, after Stop, with the
-- queue closed, at its end with the database closed too, or at os.Exit(1), which runs no deferred
-- call.
pub data Main : Type 0 where
  at_start has_db migrated serving stopping joined queue_closed returned exited : Main
  spawning : ℕ → Main

-- `cancelled` is the end of the pool's context, `wg` the counter of its wait group.
pub record Process : Type 0 where
  pub main : Main
  pub cancelled : Bool
  pub wg : ℕ
  pub workers : List Phase
  pub db_open : Bool
  pub queue_open : Bool

abbrev pub at_boot : Process
at_boot = record {
  main = at_start;
  cancelled = false;
  wg = 0;
  workers = [];
  db_open = false;
  queue_open = false;
}

-- One move of work, by whether its context has ended.
pub data Turn (done : Bool) : Phase → Phase → Type 0 where
  see_done : done ≡ true → Turn done at_poll stopped
  poll : done ≡ false → Turn done at_poll in_dequeue
  dequeue_fails : Turn done in_dequeue in_pause
  dequeue_empty : Turn done in_dequeue at_poll
  dequeue_job : Turn done in_dequeue in_job
  pause_over : Turn done in_pause at_poll
  pause_cut : done ≡ true → Turn done in_pause stopped
  job_over : Turn done in_job at_poll

-- The deferred wg.Done().
abbrev pub done_after : Phase → ℕ → ℕ
done_after stopped wg = wg - 1
done_after _ wg = wg

module _ (concurrency : ℤ) where
  pub data Step (p : Process) : Process → Type 0 where
    open_db : p.main ≡ at_start → Step p (record p { main = has_db; db_open = true })
    no_db : p.main ≡ at_start → Step p (record p { main = exited })
    migrate : p.main ≡ has_db → Step p (record p { main = migrated })
    no_migration : p.main ≡ has_db → Step p (record p { main = exited })
    open_queue :
        p.main ≡ migrated
        → Step p (record p { main = spawning (to_ℕ concurrency); queue_open = true })
    no_queue : p.main ≡ migrated → Step p (record p { main = exited })
    -- Run: wg.Add(1) and the worker.
    spawn :
        (k : ℕ)
        → p.main ≡ spawning (suc k)
        → Step p
            (record p { main = spawning k; wg = suc p.wg; workers = p.workers ++ at_poll ∷ [] })
    serve : p.main ≡ spawning zero → Step p (record p { main = serving })
    -- A signal, and the cancel of Stop.
    signal : p.main ≡ serving → Step p (record p { main = stopping; cancelled = true })
    -- The Wait of Stop.
    join : p.main ≡ stopping → p.wg ≡ 0 → Step p (record p { main = joined })
    -- The deferred calls, the last one first.
    close_queue : p.main ≡ joined → Step p (record p { main = queue_closed; queue_open = false })
    close_db : p.main ≡ queue_closed → Step p (record p { main = returned; db_open = false })
    work :
        (before after : List Phase) {ph ph' : Phase}
        → p.workers ≡ before ++ ph ∷ after
        → Turn p.cancelled ph ph'
        → Step p (record p { wg = done_after ph' p.wg; workers = before ++ ph' ∷ after })

  pub data Run (p : Process) : Process → Type 0 where
    here : Run p p
    next : {s t : Process} → Run p s → Step s t → Run p t

  abbrev pub steps : {p t : Process} → Run p t → ℕ
  steps here = 0
  steps (next r st) = suc (steps r)
