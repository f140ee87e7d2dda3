-- ===== src/Store/Jobs.antt =====
-- internal/store/store.go: the operations on jobs. The instant of a statement and the identifier
-- that gen_random_uuid() gives are arguments.
use web_gobbler.Prelude.{
  ℕ, String, Bool, true, false, not, ◌||◌, Option, none, some, List, ◌∷◌, ◌==◌, ltb, if◌then◌else◌,
}
use web_gobbler.Scraper.{Result}
use web_gobbler.Store.Types.{
  Uuid, Time, JobStatus, queued, processing, completed, failed, is_status, JobOptions, Job,
  not_found, cannot_cancel, db_failed, Reply, ok, err, Codec, result_to_json, parse_result_json,
  parse_options_json,
}
use web_gobbler.Store.Table.{Row, Db, next_fault, has_id, is_row, update_where, select_id}

-- What CreateJob takes of a job.
pub record NewJob : Type 0 where
  pub url : String
  pub extract : List String
  pub options : Option JobOptions

-- The row of `INSERT INTO jobs (url, extract, options, status)`, by the column defaults.
abbrev pub new_row : Uuid → Time → NewJob → Option String → Row
new_row id now job options = record {
  id = id;
  url = job.url;
  extract = job.extract;
  options = options;
  status = queued;
  result = none;
  error_msg = none;
  http_status = none;
  retries_used = 0;
  duration_ms = none;
  created_at = now;
  updated_at = now;
  completed_at = none;
}

-- The driver's encoding of `job.Options`: NULL for nil; `none` outside is its error.
abbrev pub encode_options : Codec → Option JobOptions → Option (Option String)
encode_options c none = some none
encode_options c (some o) = elim (c.marshal_options o) [ none ↦ none | some s ↦ some (some s) ]

abbrev pub is_taken : Uuid → List Row → Bool
is_taken id rows = elim (select_id id rows) [ none ↦ false | some r ↦ true ]

-- CreateJob; the value is the id and the creation time.
unfoldable pub create_job : Codec → Uuid → Time → NewJob → Db → Reply (Uuid × Time) × Db
unfolding select_id
create_job c id now job db = elim (encode_options c job.options) [
  | none ↦ (err db_failed, db)
  | some options ↦
      let (fault, db') = next_fault db in
      if fault || is_taken id db'.rows
      then (err db_failed, db')
      else (ok (id, now), record db' { rows = new_row id now job options ∷ db'.rows })
]

-- `column::TEXT`
abbrev pub column_text : Codec → Option String → Option String
column_text c none = none
column_text c (some s) = some (c.jsonb s)

-- A scanned row, its JSON columns parsed.
unfoldable pub row_job : Codec → Row → Job
unfolding parse_result_json parse_options_json
row_job c r = record {
  id = r.id;
  url = r.url;
  extract = r.extract;
  options = parse_options_json c (column_text c r.options);
  status = r.status;
  result = parse_result_json c (column_text c r.result);
  error_msg = r.error_msg;
  http_status = r.http_status;
  retries_used = r.retries_used;
  duration_ms = r.duration_ms;
  created_at = r.created_at;
  updated_at = r.updated_at;
  completed_at = r.completed_at;
}

-- GetJob
unfoldable pub get_job : Codec → Uuid → Db → Reply Job × Db
get_job c id db =
    let (fault, db') = next_fault db in
    if fault then (err db_failed, db') else elim (select_id id db'.rows) [
      | none ↦ (err (not_found id), db')
      | some r ↦ (ok (row_job c r), db')
    ]

-- Ping
unfoldable pub ping_store : Db → Bool × Db
ping_store db = let (fault, db') = next_fault db in (not fault, db')

-- ClaimJob
unfoldable pub claim_job : Uuid → Time → Db → Reply Bool × Db
claim_job id now db =
    let (fault, db') = next_fault db in
    let (affected, rows) =
      update_where (is_row id queued) (λ r. record r { status = processing; updated_at = now })
        db'.rows in
    if fault then (err db_failed, db') else (ok (ltb 0 affected), record db' { rows = rows })

-- `CASE WHEN $n IS NOT NULL THEN $n ELSE column END`
abbrev pub or_keep {ℓ} : {A : Type ℓ} → Option A → Option A → Option A
or_keep none old = old
or_keep (some new) old = some new

abbrev pub or_keep_number : Option ℕ → ℕ → ℕ
or_keep_number none old = old
or_keep_number (some new) old = new

abbrev pub is_final : JobStatus → Bool
is_final status = is_status status failed || is_status status completed

abbrev pub http_status_of : Option Result → Option ℕ
http_status_of none = none
http_status_of (some x) = some x.http_status

abbrev pub duration_of : Option Result → Option ℕ
duration_of none = none
duration_of (some x) = some x.duration_ms

-- The assignments of UpdateJob.
unfoldable pub updated_row :
    Codec → JobStatus → Option Result → Option String → ℕ → Time → Row → Row
updated_row c status result error_msg retries_used now r = record r {
  status = status;
  result = or_keep (result_to_json c result) r.result;
  error_msg = or_keep error_msg r.error_msg;
  http_status = or_keep (http_status_of result) r.http_status;
  duration_ms = or_keep (duration_of result) r.duration_ms;
  retries_used =
      or_keep_number (if is_final status then some retries_used else none) r.retries_used;
  completed_at = or_keep (if is_final status then some now else none) r.completed_at;
  updated_at = now;
}

-- UpdateJob
unfoldable pub update_job :
    Codec → Uuid → JobStatus → Option Result → Option String → ℕ → Time → Db → Reply (Unit {0}) × Db
unfolding updated_row
update_job c id status result error_msg retries_used now db =
    let (fault, db') = next_fault db in
    let (affected, rows) =
      update_where (has_id id) (updated_row c status result error_msg retries_used now) db'.rows in
    if fault
    then (err db_failed, db')
    else if affected == 0
    then (err (not_found id), record db' { rows = rows })
    else (ok tt, record db' { rows = rows })

-- CancelJob: a second statement reads the status where the first affects no row.
unfoldable pub cancel_job : Uuid → Time → Db → Reply (Unit {0}) × Db
cancel_job id now db =
    let (fault, db') = next_fault db in
    let (affected, rows) =
      update_where (is_row id queued)
        (λ r. record r { status = failed; error_msg = some "cancelled"; updated_at = now })
        db'.rows in
    let done : Db = record db' { rows = rows } in
    if fault
    then (err db_failed, db')
    else if ltb 0 affected
    then (ok tt, done)
    else let (fault', db'') = next_fault done in
      if fault' then (err db_failed, db'') else elim (select_id id db''.rows) [
        | none ↦ (err (not_found id), db'')
        | some r ↦ (err (cannot_cancel r.status), db'')
      ]
