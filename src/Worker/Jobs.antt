-- ===== src/Worker/Jobs.antt =====
-- A dequeued job from its claim to its end (cmd/worker/main.go, processJob), on a sound table that
-- only this worker changes meanwhile.
use web_gobbler.Prelude.{
  suc, String, true, false, Option, none, some, ◌∷◌, ◌≡◌, refl, ap, ◌∙◌, arith, inl, inr,
  Option-cases,
}
use web_gobbler.Scraper.{Error, Result, blank_result}
use web_gobbler.Crawl.Frontier.{Returned}
use web_gobbler.Queue.{JobPayload}
use web_gobbler.Store.Types.{Uuid, Time, completed, failed, Codec, result_to_json}
use web_gobbler.Store.Table.{Row, Db}
use web_gobbler.Store.Jobs.{claim_job, or_keep, updated_row, update_job}
use web_gobbler.Store.Laws.{
  IsSound, row_of, Changes, Unchanged, claimed, claim_answer, claim_job_lem, update_job_lem,
  Changes-idle, Changes-after,
}
use web_gobbler.Worker.Retry.{Pool, calculate_retries}
use web_gobbler.Worker.Process.{
  Metrics, Handled, handled, Setting, partial, count_http_error, handle_job_result, run_kind,
  process_job,
}

-- A column that is written again, if there is something to write.
abbrev pub rewritten : Option String → Option String → Option String
rewritten none old = old
rewritten (some text) old = some text

-- The row of a completed job: status, result with its status and duration, no retries and the end;
-- the message, and all that the request gave, as before.
abbrev pub completed_row : Codec → Result → Time → Row → Row
completed_row c x end_time r = record r {
  status = completed;
  result = rewritten (c.marshal_result x) r.result;
  http_status = some x.http_status;
  retries_used = 0;
  duration_ms = some x.duration_ms;
  updated_at = end_time;
  completed_at = some end_time;
}

-- The row of a failed job without a result, and with one, of which only status and duration are
-- kept.
abbrev pub failed_row : Codec → Option Result → String → Time → Row → Row
failed_row c none message end_time r = record r {
  status = failed;
  error_msg = some message;
  retries_used = 1;
  updated_at = end_time;
  completed_at = some end_time;
}
failed_row c (some x) message end_time r = record r {
  status = failed;
  result =
      rewritten
        (c.marshal_result
          (record blank_result { http_status = x.http_status; duration_ms = x.duration_ms }))
        r.result;
  error_msg = some message;
  http_status = some x.http_status;
  retries_used = 1;
  duration_ms = some x.duration_ms;
  updated_at = end_time;
  completed_at = some end_time;
}

or_keep-rewritten : (new old : Option String) → or_keep new old ≡ rewritten new old
or_keep-rewritten none old = refl
or_keep-rewritten (some text) old = refl

updated_row-completed :
    (c : Codec) (x : Result) (claim_time end_time : Time) (r : Row)
    → updated_row c completed (some x) none 0 end_time (claimed claim_time r)
      ≡ completed_row c x end_time r
unfolding updated_row result_to_json
updated_row-completed c x claim_time end_time r =
    ap (λ text. record (completed_row c x end_time r) { result = text })
      (or_keep-rewritten (c.marshal_result x) r.result)

updated_row-failed :
    (c : Codec) (p : Option Result) (message : String) (claim_time end_time : Time) (r : Row)
    → updated_row c failed (partial p) (some message) 1 end_time (claimed claim_time r)
      ≡ failed_row c p message end_time r
unfolding updated_row result_to_json
updated_row-failed c none message claim_time end_time r = refl
updated_row-failed c (some x) message claim_time end_time r =
    ap (λ text. record (failed_row c (some x) message end_time r) { result = text })
      (or_keep-rewritten _ r.result)

-- A change described in another way.
Changes-same :
    (id : Uuid) (f g : Row → Row) (db db' : Db)
    → ((r : Row) → f r ≡ g r)
    → Changes id f db db'
    → Changes id g db db'
Changes-same id f g db db' same changes j = elim (Option-cases (row_of j db)) [
  | inl e ↦ ground (arith, changes j, e)
  | inr (r, e) ↦ ground (arith, changes j, e, same r)
]

-- The end of a job: the table has the row `f` makes of it, and the counters have moved.
pub record Ended (h : Handled) (id : Uuid) (f : Row → Row) (db : Db) (m : Metrics) : Type 0 where
  pub table : Db
  pub outcome : h ≡ handled table m
  pub changes : Changes id f db table
  pub sound : IsSound table

module _ (setting : Setting) (pool : Pool) (payload : JobPayload) (id : Uuid)
    (claim_time end_time : Time) (db : Db) (m : Metrics)
    (quiet : (d : Db) → setting.table_after d ≡ d) (sound : IsSound db)
    (parsed : setting.parse_uuid payload.job_id ≡ some id) where
  abbrev run : Handled
  run = process_job setting pool payload claim_time end_time db m

  abbrev claimed_db : Db
  claimed_db = (claim_job id claim_time db).1

  -- A job that is missing or not queued is left alone: no row changes and no counter moves.
  pub process_job-skips :
      claim_answer (row_of id db) ≡ false
      → (table : Db) × (run ≡ handled table m) × Unchanged db table
  unfolding process_job
  process_job-skips idle =
      let (answer, changes, kept) = claim_job_lem id db sound claim_time in
      (
        claimed_db,
        ground (arith, parsed, answer),
        Changes-idle id (claimed claim_time) db claimed_db idle changes,
      )

  -- What the worker does once the job is claimed.
  process_job-claimed :
      claim_answer (row_of id db) ≡ true
      → {r : Returned} → run_kind setting pool payload id claimed_db ≡ some r
      → run
        ≡ handle_job_result setting.codec setting.error_text id end_time r.result r.error
            (calculate_retries r.result r.error)
            claimed_db
            m
  unfolding process_job
  process_job-claimed queued_there {r} e =
      let (answer, changes, kept) = claim_job_lem id db sound claim_time in
      ground (arith, parsed, answer, quiet claimed_db)

  -- On a sound table none of whose statements fails and that nobody else changes meanwhile, a
  -- queued job whose kind of run returns a result and no error ends completed: the row has the
  -- status, that result with its HTTP status and duration, no retries and the time of its end, and
  -- keeps its other columns; one completed job and its duration are counted; no other row changes.
  pub process_job-completes :
      claim_answer (row_of id db) ≡ true
      → (x : Result)
      → run_kind setting pool payload id claimed_db
        ≡ some (record { result = some x; error = none })
      → Ended run id (completed_row setting.codec x end_time) db (record m {
        completed_jobs = suc m.completed_jobs;
        durations = x.duration_ms ∷ m.durations;
      })
  process_job-completes there x e =
      let (answer, changes, kept) = claim_job_lem id db sound claim_time in
      let (answer', changes', kept') =
        update_job_lem id claimed_db kept setting.codec completed (some x) none 0 end_time in
      record {
        table = (update_job setting.codec id completed (some x) none 0 end_time claimed_db).1;
        outcome = process_job-claimed there e ∙ unfold handle_job_result calculate_retries in refl;
        changes =
            Changes-same id _ (completed_row setting.codec x end_time) db
              (update_job setting.codec id completed (some x) none 0 end_time claimed_db).1
              (updated_row-completed setting.codec x claim_time end_time)
              (Changes-after id (claimed claim_time) _ db claimed_db
                (update_job setting.codec id completed (some x) none 0 end_time claimed_db).1 there
                changes changes');
        sound = kept';
      }

  -- On a sound table none of whose statements fails and that nobody else changes meanwhile, a
  -- queued job whose kind of run returns an error ends failed: the row has the status, the error's
  -- text, the HTTP status and duration of the result where there is one, one retry and the time of
  -- its end, and keeps its other columns; one failed job is counted; no other row changes.
  pub process_job-fails :
      claim_answer (row_of id db) ≡ true
      → (p : Option Result) (e : Error)
      → run_kind setting pool payload id claimed_db ≡ some (record { result = p; error = some e })
      → Ended run id (failed_row setting.codec p (setting.error_text e) end_time) db (record m {
        failed_jobs = suc m.failed_jobs;
        http_errors = count_http_error e m.http_errors;
      })
  process_job-fails there p e returned =
      let message = setting.error_text e in
      let (answer, changes, kept) = claim_job_lem id db sound claim_time in
      let (answer', changes', kept') =
        update_job_lem id claimed_db kept setting.codec failed (partial p) (some message) 1
          end_time in
      record {
        table =
            (update_job setting.codec id failed (partial p) (some message) 1 end_time claimed_db).1;
        outcome = process_job-claimed there returned ∙ handled_failure p;
        changes =
            Changes-same id _ (failed_row setting.codec p message end_time) db
              (update_job setting.codec id failed (partial p) (some message) 1 end_time
                claimed_db).1
              (updated_row-failed setting.codec p message claim_time end_time)
              (Changes-after id (claimed claim_time) _ db claimed_db
                (update_job setting.codec id failed (partial p) (some message) 1 end_time
                  claimed_db).1
                there changes changes');
        sound = kept';
      }
    where
      handled_failure :
          (p : Option Result)
          → handle_job_result setting.codec setting.error_text id end_time p
              (some e)
              (calculate_retries p (some e))
              claimed_db
              m
            ≡ handled
                (update_job setting.codec id failed
                  (partial p)
                  (some (setting.error_text e))
                  1
                  end_time
                  claimed_db).1
                (record m {
                  failed_jobs = suc m.failed_jobs;
                  http_errors = count_http_error e m.http_errors;
                })
      handled_failure none = unfold handle_job_result calculate_retries in refl
      handled_failure (some r) = unfold handle_job_result calculate_retries in refl
