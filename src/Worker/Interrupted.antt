-- ===== src/Worker/Interrupted.antt =====
-- A job that a worker runs when the pool's context ends (cmd/worker/main.go, Stop): UpdateJob is
-- called with the same context, so that its statement is refused.
use web_gobbler.Prelude.{true, some, List, [], ◌∷◌, All, false, ◌≡◌, refl}
use web_gobbler.Queue.{JobPayload}
use web_gobbler.Store.Types.{Uuid, Time}
use web_gobbler.Store.Table.{Row, Db}
use web_gobbler.Store.Jobs.{claim_job}
use web_gobbler.Store.Laws.{IsSound, row_of, claimed}
use web_gobbler.Store.History.{Call, times_taken}
use web_gobbler.Store.Kept.{finishes, after_calls}
use web_gobbler.Worker.Retry.{Pool}
use web_gobbler.Worker.Process.{Metrics, Handled, handled, Setting}

module _ (setting : Setting) (pool : Pool) (payload : JobPayload) (id : Uuid)
    (claim_time end_time : Time) (db : Db) (m : Metrics)
    (ended : (d : Db) → setting.table_after d ≡ record d { faults = true ∷ [] })
    (sound : IsSound db) (parsed : setting.parse_uuid payload.job_id ≡ some id) where
  abbrev claimed_db : Db
  claimed_db = (claim_job id claim_time db).1

  -- The job is left as its claim made it, and nobody takes it again.
  pub record Stuck (r : Row) (h : Handled) : Type 0 where
    pub table : Db
    pub metrics : Metrics
    pub outcome : h ≡ handled table metrics
    pub unchanged : table.rows ≡ claimed_db.rows
    pub row : row_of id table ≡ some (claimed claim_time r)
    pub never : (ks : List Call) → times_taken setting.codec id ks table ≡ 0
    pub kept :
        (ks : List Call)
        → All (λ k. finishes id k ≡ false) ks
        → row_of id (after_calls setting.codec id (claimed claim_time r) refl ks table)
          ≡ some (claimed claim_time r)
