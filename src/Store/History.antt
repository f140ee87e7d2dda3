-- ===== src/Store/History.antt =====
-- Any interleaving of statements that workers and API handlers send to the jobs table
-- (internal/store/store.go), as a list of calls.
use web_gobbler.Prelude.{
  ℕ, ◌+◌, ◌≤◌, String, Bool, true, false, ◌&&◌, Option, none, some, List, [], ◌∷◌, ◌≡◌, refl, ap,
  inl, inr, arith, ◌==◌, ltb, Bool-cases, Option-cases, ◌||◌, ◌⊎◌, if◌then◌else◌,
}
use web_gobbler.Scraper.{Result}
use web_gobbler.Store.Types.{
  Uuid, Time, JobStatus, queued, processing, completed, failed, is_status, Reply, ok, err, Codec,
}
use web_gobbler.Store.Table.{Row, Db, next_fault, has_id, is_row, update_where, select_id}
use web_gobbler.Store.Table.Laws.{
  count, affected-eq-count, count-update_le, count-update_eq, count-update_zero, count_mono,
  count-select_id, count-select_id-some,
}
use web_gobbler.Store.Jobs.{
  NewJob, new_row, create_job, claim_job, updated_row, update_job, cancel_job, encode_options,
  is_taken,
}

-- A call of the store. An update is the worker's, whose status is completed or failed.
pub data Call : Type 0 where
  create : Uuid → Time → NewJob → Call
  claim : Uuid → Time → Call
  finish : (id : Uuid) (done : Bool) → Option Result → Option String → ℕ → Time → Call
  cancel : Uuid → Time → Call

-- The status of handleJobResult: completed without an error, failed with one.
abbrev pub final_status : Bool → JobStatus
final_status true = completed
final_status false = failed

abbrev is_ok {ℓ} : {A : Type ℓ} → Reply A → Bool
is_ok (ok a) = true
is_ok (err e) = false

abbrev is_true : Reply Bool → Bool
is_true (ok b) = b
is_true (err e) = false

-- The call took the job: ClaimJob returned true, or CancelJob no error.
abbrev pub takes : Uuid → Call → Db → Bool
takes id (create j now job) db = false
takes id (claim j now) db = j == id && is_true (claim_job j now db).0
takes id (finish j done result error_msg retries now) db = false
takes id (cancel j now) db = j == id && is_ok (cancel_job j now db).0

abbrev one : Bool → ℕ
one true = 1
one false = 0

module _ (c : Codec) where
  abbrev pub call : Call → Db → Db
  call (create id now job) db = (create_job c id now job db).1
  call (claim id now) db = (claim_job id now db).1
  call (finish id done result error_msg retries now) db =
      (update_job c id (final_status done) result error_msg retries now db).1
  call (cancel id now) db = (cancel_job id now db).1

  -- How many calls of a history took the job.
  unfoldable pub times_taken : Uuid → List Call → Db → ℕ
  times_taken id [] db = 0
  times_taken id (k ∷ ks) db = one (takes id k db) + times_taken id ks (call k db)

-- 1 while the job may still be taken: it does not exist yet, or has a queued row.
abbrev pub chance : Uuid → List Row → ℕ
chance id rows =
    if count (has_id id) rows == 0 then 1 else if count (is_row id queued) rows == 0 then 0 else 1

-- An update of the queued rows of a job that leaves none queued uses up its chance.
module _ (set : Row → Row) (same_id : (r : Row) → (set r).id ≡ r.id)
    (leaves : (r : Row) → is_status (set r).status queued ≡ false) where
  take-chance :
      (id j : Uuid) (rows : List Row)
      → one (j == id && ltb 0 (update_where (is_row j queued) set rows).0)
          + chance id (update_where (is_row j queued) set rows).1
        ≤ chance id rows
  take-chance id j rows =
      let ids =
        count-update_eq (is_row j queued) set (has_id id) (λ r h. ground (arith, same_id r)) rows in
      let within = count_mono (is_row id queued) (has_id id) (λ r h. ground arith) rows in
      let fewer =
        count-update_le (is_row j queued) set (is_row id queued) (λ r h. ground (arith, leaves r))
          rows in
      elim (Bool-cases (j == id)) [
        | inl e ↦
            let same : j ≡ id = ground arith in
            let none_left =
              count-update_zero (is_row j queued) set (is_row id queued)
                (λ r h. ground (arith, leaves r)) (λ r h. ground arith) rows in
            ground (
              arith,
              ids,
              within,
              none_left,
              affected-eq-count (is_row j queued) set rows,
              ap (λ i. count (is_row i queued) rows) same,
            )
        | inr e ↦ rw e (ground (arith, ids, within, fewer))
      ]

claim_job-chance :
    (id j : Uuid) (now : Time) (db : Db)
    → one (j == id && is_true (claim_job j now db).0) + chance id (claim_job j now db).1.rows
      ≤ chance id db.rows
unfolding claim_job
claim_job-chance id j now db = ground (
  arith,
  take-chance (λ r. record r { status = processing; updated_at = now }) (λ r. refl) (λ r. refl) id j
      db.rows,
)

cancel_job-chance :
    (id j : Uuid) (now : Time) (db : Db)
    → one (j == id && is_ok (cancel_job j now db).0) + chance id (cancel_job j now db).1.rows
      ≤ chance id db.rows
unfolding cancel_job
cancel_job-chance id j now db = ground (
  arith,
  take-chance (λ r. record r { status = failed; error_msg = some "cancelled"; updated_at = now })
      (λ r. refl) (λ r. refl) id j db.rows,
)

pub final_status-not_queued : (done : Bool) → is_status (final_status done) queued ≡ false
final_status-not_queued true = refl
final_status-not_queued false = refl

module _ (c : Codec) where
  update_job-chance :
      (id j : Uuid) (done : Bool) (result : Option Result) (error_msg : Option String) (retries : ℕ)
      (now : Time) (db : Db)
      → chance id (update_job c j (final_status done) result error_msg retries now db).1.rows
        ≤ chance id db.rows
  unfolding update_job
  update_job-chance id j done result error_msg retries now db =
      let set = updated_row c (final_status done) result error_msg retries now in
      ground (
        arith,
        count-update_eq (has_id j) set (has_id id) (λ r h. refl) db.rows,
        count-update_le (has_id j) set (is_row id queued)
            (λ r h. ground (arith, final_status-not_queued done)) db.rows,
      )

  pub create_job-cases :
      (j : Uuid) (now : Time) (job : NewJob) (db : Db)
      → ((create_job c j now job db).1.rows ≡ db.rows)
        ⊎ ((options : Option String) × (select_id j db.rows ≡ none)
            × ((create_job c j now job db).1.rows ≡ new_row j now job options ∷ db.rows))
  unfolding create_job
  create_job-cases j now job db = elim (Option-cases (encode_options c job.options)) [
    | inl e ↦ inl (ground arith)
    | inr (options, e) ↦
        elim (Bool-cases ((next_fault db).0 || is_taken j (next_fault db).1.rows)) [
          | inl bad ↦ inl (ground arith)
          | inr good ↦ inr (options, ground arith, ground arith)
        ]
  ]

  create_job-chance :
      (id j : Uuid) (now : Time) (job : NewJob) (db : Db)
      → chance id (create_job c j now job db).1.rows ≤ chance id db.rows
  create_job-chance id j now job db = elim (create_job-cases j now job db) [
    | inl e ↦ rw e (omega arith)
    | inr (options, free, e) ↦ rw e (unfold count in ground (arith, count-select_id j db.rows free))
  ]

  pub call-chance :
      (id : Uuid) (k : Call) (db : Db)
      → one (takes id k db) + chance id (call c k db).rows ≤ chance id db.rows
  call-chance id (create j now job) db = omega (arith, create_job-chance id j now job db)
  call-chance id (claim j now) db = claim_job-chance id j now db
  call-chance id (finish j done result error_msg retries now) db =
      omega (arith, update_job-chance id j done result error_msg retries now db)
  call-chance id (cancel j now) db = cancel_job-chance id j now db

  -- A claim that succeeds uses the job's only chance.
  pub claim-spends :
      (id : Uuid) (now : Time) (db : Db)
      → (claim_job id now db).0 ≡ ok true
      → (chance id db.rows ≡ 1) × (chance id (claim_job id now db).1.rows ≡ 0)
  claim-spends id now db h = ground (arith, h, claim_job-chance id id now db)

  times_taken-chance :
      (id : Uuid) (ks : List Call) (db : Db) → times_taken c id ks db ≤ chance id db.rows
  unfolding times_taken
  times_taken-chance id [] db = omega arith
  times_taken-chance id (k ∷ ks) db =
      omega (arith, call-chance id k db, times_taken-chance id ks (call c k db))

  -- In any order of calls, with any failures of the database, a job is taken once at most: two
  -- workers never both claim it, and it is never both claimed and cancelled.
  pub taken_once : (id : Uuid) (ks : List Call) (db : Db) → times_taken c id ks db ≤ 1
  taken_once id ks db = ground (arith, times_taken-chance id ks db)

  -- A job that has a row which is not queued is never taken.
  pub never_taken :
      (id : Uuid) (ks : List Call) (db : Db) {r : Row}
      → select_id id db.rows ≡ some r
      → count (is_row id queued) db.rows ≡ 0
      → times_taken c id ks db ≡ 0
  never_taken id ks db h k =
      ground (arith, times_taken-chance id ks db, count-select_id-some id db.rows h)
