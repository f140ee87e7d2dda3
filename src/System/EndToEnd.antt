-- ===== src/System/EndToEnd.antt =====
-- A scrape from its request to its result: HandleScrape, Dequeue, processJob and HandleGetJob on
-- one table and one queue, with nothing else going on.
use web_gobbler.Prelude.{
  ℕ, suc, String, Option, none, some, List, [], ◌∷◌, ◌≡◌, refl, sym, ap, subst, ◌∙◌, arith,
}
use web_gobbler.Scraper.{Net, Result}
use web_gobbler.Queue.{JobPayload, kind_scrape}
use web_gobbler.Queue.Redis
use web_gobbler.Queue.Redis.{
  Redis, PayloadCodec, Dequeued, taken, enqueue, dequeue, queue_depth, pop_last,
}
use web_gobbler.Store.Types.{Uuid, Time, JobOptions, ok, Codec, IsFaithful}
use web_gobbler.Store.Table.{Row, Db, select_id}
use web_gobbler.Store.Jobs.{
  NewJob, new_row, create_job, row_job, get_job, claim_job, encode_options,
}
use web_gobbler.Store.Laws.{IsSound, row_of, claim_answer}
use web_gobbler.Store.Reads.{CanWrite, get_job_calm}
use web_gobbler.Worker.Retry.{Pool}
use web_gobbler.Worker.Process.{Metrics, handled, Setting, run_kind, process_job}
use web_gobbler.Worker.Jobs.{completed_row, process_job-completes}
use web_gobbler.Api.Types.{ScrapeRequest, JobResponse, job_body, Response}
use web_gobbler.Api.Validator.{Strings, validate_scrape_request}
use web_gobbler.Api.Backend.{Serving, Uuids}
use web_gobbler.Api.Convert.{
  request_to_job_options, to_payload_options, extract_or, job_to_response,
}
use web_gobbler.Api.Handlers.{handle_scrape, handle_get_job}
use web_gobbler.System.Backend.{Site, site_backend}
use web_gobbler.System.Calm.{new_row-IsSound}

-- What acceptJob stores and queues of a scrape request.
abbrev pub stored_options : ScrapeRequest → Option JobOptions
stored_options req = some (request_to_job_options req.options)

abbrev pub scrape_job : ScrapeRequest → NewJob
scrape_job req = record {
  url = req.url;
  extract = extract_or ("links" ∷ []) req.extract;
  options = stored_options req;
}

abbrev pub scrape_payload : Uuids → Uuid → ScrapeRequest → JobPayload
scrape_payload ids id req = record {
  job_id = ids.format id;
  kind = kind_scrape;
  url = req.url;
  extract = extract_or ("links" ∷ []) req.extract;
  options = to_payload_options (stored_options req);
}

module _ (c : Codec) (q : PayloadCodec) (fresh : ℕ → Uuid) (order : List Row → List Row)
    (ids : Uuids) (net : Net) (strings : Strings) (req : ScrapeRequest) (s : Serving Site) where
  abbrev id : Uuid
  id = fresh s.backend.made

  abbrev accepted : Response × Serving Site
  accepted = handle_scrape (site_backend c q fresh order) ids net strings (some req) s

  -- The request is accepted: the row and the message are there.
  scrape_accepted :
      IsSound s.backend.db
      → row_of id s.backend.db ≡ none
      → CanWrite c (stored_options req)
      → s.backend.redis.faults ≡ []
      → {text : String} → q.marshal (scrape_payload ids id req) ≡ some text
      → validate_scrape_request net strings req ≡ none
      → (accepted.0.code ≡ 202)
        × (accepted.1.backend.redis ≡ record { items = text ∷ s.backend.redis.items; faults = [] })
        × ((column : Option String) × (accepted.1.backend.db ≡ record {
          rows = new_row id s.backend.clock (scrape_job req) column ∷ s.backend.db.rows;
          faults = [];
        }))
  unfolding handle_scrape create_job enqueue queue_depth
  scrape_accepted sound free (text', w) still {text} e valid =
      let written : encode_options c (stored_options req) ≡ some (some text') =
        rw (w, encode_options) refl in
      let created : create_job c id s.backend.clock (scrape_job req) s.backend.db ≡ (
        ok (id, s.backend.clock),
        record {
          rows = new_row id s.backend.clock (scrape_job req) (some text') ∷ s.backend.db.rows;
          faults = [];
        },
      ) =
        ground (arith, written, free, sound.no_faults) in
      (
        ground (arith, created, e, still, valid),
        ground (arith, created, e, still, valid),
        (some text', ground (arith, created, e, still, valid)),
      )

-- What a client is shown of a job that a worker completed.
shown_completed :
    (c : Codec) (x : Result) (end_time : Time) (r : Row) {text : String}
    → IsFaithful c
    → c.marshal_result x ≡ some text
    → let shown = job_to_response (row_job c (completed_row c x end_time r)) in
      (shown.job_id ≡ r.id) × (shown.status ≡ "completed") × (shown.results ≡ some x)
unfolding job_to_response row_job
shown_completed c x end_time r {text} faithful e =
    (refl, refl, ground (arith, e, faithful.result_back x text e))

module _ (setting : Setting) (pool : Pool) (q : PayloadCodec) (fresh : ℕ → Uuid)
    (order : List Row → List Row) (ids : Uuids) (net : Net) (strings : Strings)
    (req : ScrapeRequest) (s : Serving Site) (m : Metrics) (claim_time end_time : Time) where
  abbrev c : Codec
  c = setting.codec

  abbrev job : Uuid
  job = fresh s.backend.made

  abbrev payload : JobPayload
  payload = scrape_payload ids job req

  abbrev after_request : Response × Serving Site
  after_request = handle_scrape (site_backend c q fresh order) ids net strings (some req) s

  -- What the site makes of a request: it is accepted, its message is the next one that a worker
  -- gets, the worker handles it, and the client then reads its result.
  pub record Served (x : Result) : Type 0 where
    pub redis : Redis
    pub table : Db
    pub shown : JobResponse
    pub code : after_request.0.code ≡ 202
    pub message : dequeue q after_request.1.backend.redis ≡ (taken payload, redis)
    pub done :
        process_job setting pool payload claim_time end_time after_request.1.backend.db m
        ≡ handled table (record m {
          completed_jobs = suc m.completed_jobs;
          durations = x.duration_ms ∷ m.durations;
        })
    pub answer :
        (handle_get_job
          (site_backend c q fresh order)
          ids
          (ids.format job)
          (record after_request.1 {
            backend = record after_request.1.backend { db = table; redis = redis };
          })).0
        ≡ record { code = 200; body = job_body shown }
    pub about : shown.job_id ≡ job
    pub status : shown.status ≡ "completed"
    pub results : shown.results ≡ some x

  -- A scrape request that is valid, on an empty queue and a sound table without a row of the new
  -- identifier, whose options, message and result can be written and read back, with no command
  -- refused, no change of the table by others, and a worker whose scrape succeeds: it is answered
  -- 202, the next Dequeue gives its message and leaves the queue empty, processJob on that message
  -- counts one completed job with the duration of the result, and HandleGetJob on the identifier
  -- answers 200 with the job, completed, and with exactly that result.
  pub scrape_to_result :
      (x : Result) {text written : String}
      → IsFaithful c
      → Redis.IsFaithful q
      → IsSound s.backend.db
      → row_of job s.backend.db ≡ none
      → CanWrite c (stored_options req)
      → s.backend.redis ≡ record { items = []; faults = [] }
      → q.marshal payload ≡ some text
      → validate_scrape_request net strings req ≡ none
      → ids.parse (ids.format job) ≡ some job
      → setting.parse_uuid (ids.format job) ≡ some job
      → ((d : Db) → setting.table_after d ≡ d)
      → c.marshal_result x ≡ some written
      → run_kind setting pool payload job (claim_job job claim_time after_request.1.backend.db).1
        ≡ some (record { result = some x; error = none })
      → Served x
  scrape_to_result x {text} {written} faithful whole sound free can empty e valid named parsed quiet
        w run =
      let (code, redis_then, stored) =
        scrape_accepted c q fresh order ids net strings req s sound free can
          (ap (λ r. r.faults) empty) e valid in
      let (column, db_then) = stored in
      let row = new_row job s.backend.clock (scrape_job req) column in
      let sound_then : IsSound after_request.1.backend.db =
        subst IsSound (sym db_then)
          (new_row-IsSound c job s.backend.clock (scrape_job req) s.backend.db sound column free) in
      let there : row_of job after_request.1.backend.db ≡ some row =
        ap (row_of job) db_then ∙ unfold select_id in ground arith in
      let ended =
        process_job-completes setting pool payload job claim_time end_time
          after_request.1.backend.db m quiet sound_then parsed (ap claim_answer there) x run in
      let kept : row_of job ended.table ≡ some (completed_row c x end_time row) =
        ground (arith, ended.changes job, there) in
      let read : (get_job c job ended.table).0 ≡ ok (row_job c (completed_row c x end_time row)) =
        get_job_calm c job ended.table ended.sound.no_faults kept in
      let (about, status, results) = shown_completed c x end_time row faithful w in
      record {
        redis = record { items = []; faults = [] };
        table = ended.table;
        shown = job_to_response (row_job c (completed_row c x end_time row));
        code = code;
        message =
            ap (dequeue q)
              (redis_then ∙ ap (λ r. record { items = text ∷ r.items; faults = [] }) empty)
            ∙ unfold dequeue pop_last in ground (arith, whole.back payload text e);
        done = ended.outcome;
        answer = unfold handle_get_job in ground (arith, named, read);
        about = about;
        status = status;
        results = results;
      }
