-- ===== src/System/Rounds.antt =====
-- A worker that goes round the loop of work (cmd/worker/main.go) with nobody else at the table or
-- the queue: Dequeue, and processJob for a message.
use web_gobbler.Prelude.{ℕ, zero, suc, Bool, true, if◌then◌else◌}
use web_gobbler.Queue.Redis.{Redis, PayloadCodec, Dequeued, taken, timed_out, failed, dequeue}
use web_gobbler.Store.Types.{Time}
use web_gobbler.Store.Table.{Db}
use web_gobbler.Worker.Retry.{Pool}
use web_gobbler.Worker.Process.{Metrics, Handled, panicked, handled, Setting, process_job}

-- Each round has two instants, the one of its claim and the one of its update. `down` is whether
-- the process has ended by a panic.
pub record Working : Type 0 where
  pub db : Db
  pub redis : Redis
  pub metrics : Metrics
  pub clock : Time
  pub down : Bool

module _ (setting : Setting) (pool : Pool) (q : PayloadCodec) where
  -- A panic ends the process.
  abbrev pub after_run : Handled → Working → Working
  after_run (panicked db) s = record s { db = db; clock = suc (suc s.clock); down = true }
  after_run (handled db m) s = record s { db = db; metrics = m; clock = suc (suc s.clock) }

  abbrev pub after_dequeue : Dequeued → Working → Working
  after_dequeue (taken payload) s =
      after_run (process_job setting pool payload s.clock (suc s.clock) s.db s.metrics) s
  after_dequeue timed_out s = s
  after_dequeue failed s = s

  -- One round of work, of a process that has not ended.
  unfoldable pub work_round : Working → Working
  unfolding dequeue process_job
  work_round s =
      let (answer, redis) = dequeue q s.redis in
      if s.down then s else after_dequeue answer (record s { redis = redis })

  unfoldable pub work_rounds : ℕ → Working → Working
  work_rounds zero s = s
  work_rounds (suc n) s = work_rounds n (work_round s)
