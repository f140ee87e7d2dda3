-- ===== src/System.antt =====
-- The API and the workers together: the table, the queue, and what each worker is doing, with every
-- call of the store or the queue as one step. The steps of requests and workers come in any order.
-- Handlers are internal/api/handlers.go, workers are cmd/worker/main.go (work and processJob).
pub mod Looks
pub mod Runners
pub mod Calm
pub mod Messages
pub mod Waiting
pub mod Progress
pub mod Backend
pub mod Serving
pub mod Requests
pub mod Working
pub mod Traffic
pub mod Rounds
pub mod Drained
pub mod RequestsExamples
pub mod EndToEnd
pub mod Examples
use web_gobbler.Prelude.{
  ℕ, ℤ, String, Bool, true, false, Option, none, some, List, [], ◌∷◌, ◌++◌, ◌≡◌, ◌==◌,
  if◌then◌else◌,
}
use web_gobbler.Scraper.{Result}
use web_gobbler.Queue.{JobPayload}
use web_gobbler.Queue.Redis.{
  Redis, PayloadCodec, Dequeued, taken, timed_out, failed, enqueue, dequeue, queue_depth, ping,
}
use web_gobbler.Store.Types.{Uuid, Time, StoreError, Reply, ok, err, Codec}
use web_gobbler.Store.Table.{Row, Db}
use web_gobbler.Store.Jobs.{
  NewJob, create_job, get_job, claim_job, update_job, cancel_job, ping_store,
}
use web_gobbler.Store.Listing.{list_jobs}
use web_gobbler.Store.History.{final_status}
use web_gobbler.Worker.Process.{partial}

-- Where a worker stands in its loop: before Dequeue, with a message and before ClaimJob, with a
-- claimed job and before UpdateJob, or with its process gone.
pub data Doing : Type 0 where
  free : Doing
  holding : JobPayload → Doing
  running : Uuid → Doing
  dead : Doing

-- `posting` are the messages of requests that are between CreateJob and Enqueue.
pub record System : Type 0 where
  pub db : Db
  pub redis : Redis
  pub posting : List JobPayload
  pub workers : ℕ → Doing

abbrev pub set_worker : ℕ → Doing → (ℕ → Doing) → ℕ → Doing
set_worker i d workers j = if j == i then d else workers j

-- What processJob goes on with after ClaimJob.
abbrev pub after_claim : Uuid → Reply Bool → Doing
after_claim id (ok true) = running id
after_claim id (ok false) = free
after_claim id (err e) = free

abbrev pub IsNotTaken : Dequeued → Type 0
IsNotTaken (taken p) = ⊥
IsNotTaken timed_out = Unit
IsNotTaken failed = Unit

-- What handleJobResult hands to UpdateJob: a result without a message, or a message and what is
-- kept of a result, with the retries that calculateRetries counts.
pub data Reported : Bool → Option Result → Option String → ℕ → Type 0 where
  with_result : (r : Result) → Reported true (some r) none 0
  with_error : (p : Option Result) (text : String) → Reported false (partial p) (some text) 1

-- Before the first request and with all workers free, over any table and queue.
abbrev pub start : Db → Redis → System
start db redis = record { db = db; redis = redis; posting = []; workers = λ i. free }

module _ (c : Codec) (q : PayloadCodec) (parse : String → Option Uuid) where
  pub data Step (s : System) : System → Type 0 where
    -- acceptJob: CreateJob, and then Enqueue.
    create :
        (id : Uuid) (now : Time) {db : Db} (job : NewJob) (p : JobPayload)
        → create_job c id now job s.db ≡ (ok (id, now), db)
        → parse p.job_id ≡ some id
        → Step s (record s { db = db; posting = p ∷ s.posting })
    create_fails :
        (id : Uuid) (now : Time) {db : Db} (e : StoreError) (job : NewJob)
        → create_job c id now job s.db ≡ (err e, db)
        → Step s (record s { db = db })
    send :
        (before after : List JobPayload) (p : JobPayload)
        → s.posting ≡ before ++ p ∷ after
        → Step s (record s { redis = (enqueue q p s.redis).1; posting = before ++ after })
    -- HandleDeleteJob, and HandleGetJob or the cancelCheck of a crawl.
    cancel : (id : Uuid) (now : Time) → Step s (record s { db = (cancel_job id now s.db).1 })
    read : (id : Uuid) → Step s (record s { db = (get_job c id s.db).1 })
    -- HandleListJobs, HandleHealth, and acceptJob's QueueDepth.
    list :
        (order : List Row → List Row) (page limit : ℤ) (filter : String)
        → Step s (record s { db = (list_jobs c order page limit filter s.db).1 })
    ping_db : Step s (record s { db = (ping_store s.db).1 })
    depth : Step s (record s { redis = (queue_depth s.redis).1 })
    ping_redis : Step s (record s { redis = (ping s.redis).1 })
    -- work: Dequeue.
    take :
        (i : ℕ) {p : JobPayload} {redis : Redis}
        → s.workers i ≡ free
        → dequeue q s.redis ≡ (taken p, redis)
        → Step s (record s { redis = redis; workers = set_worker i (holding p) s.workers })
    wait :
        (i : ℕ) (answer : Dequeued) {redis : Redis}
        → s.workers i ≡ free
        → dequeue q s.redis ≡ (answer, redis)
        → IsNotTaken answer
        → Step s (record s { redis = redis })
    -- processJob: a message without an identifier, ClaimJob, UpdateJob, and the early return of the
    -- rate limiter's error.
    reject :
        (i : ℕ) (p : JobPayload)
        → s.workers i ≡ holding p
        → parse p.job_id ≡ none
        → Step s (record s { workers = set_worker i free s.workers })
    claim :
        (i : ℕ) (p : JobPayload) (id : Uuid) (now : Time)
        → s.workers i ≡ holding p
        → parse p.job_id ≡ some id
        → Step s (record s {
          db = (claim_job id now s.db).1;
          workers = set_worker i (after_claim id (claim_job id now s.db).0) s.workers;
        })
    finish :
        (i : ℕ) (id : Uuid) (done : Bool) (result : Option Result) (error_msg : Option String)
        (retries : ℕ) (now : Time)
        → s.workers i ≡ running id
        → Reported done result error_msg retries
        → Step s (record s {
          db = (update_job c id (final_status done) result error_msg retries now s.db).1;
          workers = set_worker i free s.workers;
        })
    leave :
        (i : ℕ) (id : Uuid)
        → s.workers i ≡ running id
        → Step s (record s { workers = set_worker i free s.workers })

  -- The end of a worker's process, at any point: what it holds or runs goes with it.
  pub data Crash (s : System) : System → Type 0 where
    die : (i : ℕ) → Crash s (record s { workers = set_worker i dead s.workers })

  pub data Reach (db : Db) (redis : Redis) : System → Type 0 where
    here : Reach db redis (start db redis)
    next : {s t : System} → Reach db redis s → Step s t → Reach db redis t
    crash : {s t : System} → Reach db redis s → Crash s t → Reach db redis t
