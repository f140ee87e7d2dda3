-- ===== src/Store/Reads.antt =====
-- What GetJob reads after CreateJob and UpdateJob (internal/store/store.go), through the JSON
-- columns.
use web_gobbler.Prelude.{ℕ, String, Option, none, some, [], ◌∷◌, ◌≡◌, refl, ap, ◌∙◌, arith}
use web_gobbler.Scraper.{Result}
use web_gobbler.Store.Types.{
  Uuid, Time, queued, completed, failed, JobOptions, Job, ok, Codec, IsFaithful, result_to_json,
  parse_options_json,
}
use web_gobbler.Store.Table.{Row, Db, select_id}
use web_gobbler.Store.Jobs.{
  NewJob, new_row, create_job, row_job, get_job, updated_row, update_job, column_text,
  encode_options,
}
use web_gobbler.Store.Laws.{IsSound, row_of, update_job_lem}

pub get_job_calm :
    (c : Codec) (id : Uuid) (db : Db) {r : Row}
    → db.faults ≡ []
    → row_of id db ≡ some r
    → (get_job c id db).0 ≡ ok (row_job c r)
unfolding get_job
get_job_calm c id db calm e = ground (arith, calm, e)

-- The options of a new job are written, or there are none.
abbrev pub CanWrite : Codec → Option JobOptions → Type 0
CanWrite c none = Unit
CanWrite c (some o) = (s : String) × (c.marshal_options o ≡ some s)

-- A new job, as its client asked for it.
abbrev pub fresh_job : Uuid → Time → NewJob → Job
fresh_job id now job = record {
  id = id;
  url = job.url;
  extract = job.extract;
  options = job.options;
  status = queued;
  result = none;
  error_msg = none;
  http_status = none;
  retries_used = 0;
  duration_ms = none;
  created_at = now;
  updated_at = now;
  completed_at = none;
}

-- The result of a job that handleJobResult completes, and of one that it fails.
abbrev pub completed_job : Result → ℕ → Time → Job → Job
completed_job x retries now j = record j {
  status = completed;
  result = some x;
  http_status = some x.http_status;
  duration_ms = some x.duration_ms;
  retries_used = retries;
  completed_at = some now;
  updated_at = now;
}

abbrev pub failed_job : String → ℕ → Time → Job → Job
failed_job message retries now j = record j {
  status = failed;
  error_msg = some message;
  retries_used = retries;
  completed_at = some now;
  updated_at = now;
}

module _ (c : Codec) (faithful : IsFaithful c) (id : Uuid) (now : Time) (db : Db)
    (sound : IsSound db) where
  options-back :
      (o : Option JobOptions)
      → CanWrite c o
      → (column : Option String) × (encode_options c o ≡ some column)
        × (parse_options_json c (column_text c column) ≡ o)
  unfolding parse_options_json
  options-back none h = (none, refl, refl)
  options-back (some o) (s, e) =
      (some s, rw (e, encode_options) refl, ground (arith, faithful.options_back o s e))

  -- A job that is created under a free id is read back as it was given, queued, with no result, no
  -- error and no retries, and with the time of its creation.
  pub get_job-create_job :
      (job : NewJob)
      → row_of id db ≡ none
      → CanWrite c job.options
      → ((create_job c id now job db).0 ≡ ok (id, now))
        × ((get_job c id (create_job c id now job db).1).0 ≡ ok (fresh_job id now job))
  unfolding create_job
  get_job-create_job job free writable =
      let (column, encoded, back) = options-back job.options writable in
      let e : create_job c id now job db
          ≡ (ok (id, now), record { rows = new_row id now job column ∷ db.rows; faults = [] }) =
        ground (arith, sound.no_faults) in
      let row = new_row id now job column in
      let selected : select_id id (row ∷ db.rows) ≡ some row = unfold select_id in ground arith in
      let read : row_job c row ≡ fresh_job id now job = unfold row_job in ground (arith, back) in
      (
        ap (λ d. d.0) e,
        ap (λ d. (get_job c id d.1).0) e ∙ get_job_calm c id _ refl selected ∙ ap ok read,
      )

  -- A job that a worker completes is read back completed, with the result and its status and
  -- duration, the retries, and the time of completion; the rest is as it was.
  pub get_job-completed :
      (x : Result) (retries : ℕ) (r : Row) {s : String}
      → row_of id db ≡ some r
      → c.marshal_result x ≡ some s
      → (get_job c id (update_job c id completed (some x) none retries now db).1).0
        ≡ ok (completed_job x retries now (row_job c r))
  get_job-completed x retries r {s} there writable =
      let (answer, changes, kept) =
        update_job_lem id db sound c completed (some x) none retries now in
      let selected : row_of id (update_job c id completed (some x) none retries now db).1
          ≡ some (updated_row c completed (some x) none retries now r) =
        ground (arith, changes id) in
      let read : row_job c (updated_row c completed (some x) none retries now r)
          ≡ completed_job x retries now (row_job c r) =
        unfold row_job updated_row result_to_json in
        ground (arith, faithful.result_back x s writable) in
      get_job_calm c id _ kept.no_faults selected ∙ ap ok read

  -- A job that a worker fails without a result is read back failed, with the message, the retries
  -- and the time; the rest is as it was.
  pub get_job-failed :
      (message : String) (retries : ℕ) (r : Row)
      → row_of id db ≡ some r
      → (get_job c id (update_job c id failed none (some message) retries now db).1).0
        ≡ ok (failed_job message retries now (row_job c r))
  get_job-failed message retries r there =
      let (answer, changes, kept) =
        update_job_lem id db sound c failed none (some message) retries now in
      let selected : row_of id (update_job c id failed none (some message) retries now db).1
          ≡ some (updated_row c failed none (some message) retries now r) =
        ground (arith, changes id) in
      let read : row_job c (updated_row c failed none (some message) retries now r)
          ≡ failed_job message retries now (row_job c r) =
        unfold row_job updated_row result_to_json in ground arith in
      get_job_calm c id _ kept.no_faults selected ∙ ap ok read
