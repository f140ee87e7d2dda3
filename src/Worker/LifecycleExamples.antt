-- ===== src/Worker/LifecycleExamples.antt =====
-- A worker process with one worker (cmd/worker/main.go, main), and a job at its end.
use mathlib.Core.List.Memᴰ
use web_gobbler.Prelude.{◌+◌, ◌*◌, ◌≤◌, ℤ, pos, true, [], ◌∷◌, length, ◌≡◌, refl, ◌⊎◌}
use web_gobbler.Worker.Process.{Setting}
use web_gobbler.Worker.Examples.{setting}
use web_gobbler.Worker.Lifecycle.{
  at_poll, stopped, stopping, returned, Process, at_boot, see_done, Run, here, next, steps, open_db,
  migrate, open_queue, spawn, serve, signal, work,
}
use web_gobbler.Worker.Shutdown.{workers_find_open}
use web_gobbler.Worker.Ending.{CanMove, shutdown_ends}

abbrev one : ℤ
one = pos 1

-- Main has started its worker.
abbrev started : Process
started = record {
  main = stopping;
  cancelled = true;
  wg = 1;
  workers = at_poll ∷ [];
  db_open = true;
  queue_open = true;
}

started-Run : Run one at_boot started
started-Run =
    next
      (next
        (next (next (next (next here (open_db refl)) (migrate refl)) (open_queue refl))
          (spawn 0 refl))
        (serve refl))
      (signal refl)

workers_find_open_example : (started.db_open ≡ true) × (started.queue_open ≡ true)
workers_find_open_example = workers_find_open one started-Run (Memᴰ.head refl) (λ e. cc e)

abbrev ended : Process
ended = record started { wg = 0; workers = stopped ∷ [] }

ended-Run : Run one started ended
ended-Run = next here (work [] [] refl (see_done refl))

shutdown_ends_example :
    (steps one ended-Run ≤ 3 * length started.workers + 3)
    × ((ended.main ≡ returned) ⊎ CanMove one ended)
shutdown_ends_example = shutdown_ends one started-Run refl ended-Run

abbrev ending : Setting
ending = record setting { table_after = λ db. record db { faults = true ∷ [] } }
