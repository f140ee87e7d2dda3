-- ===== src/Store/Laws.antt =====
-- What the operations of internal/store/store.go answer and do, on a database with unique ids none
-- of whose statements fails.
use mathlib.Core.Option
use web_gobbler.Prelude.{
  ℕ, String, Bool, true, false, Option, none, some, List, [], ◌≡◌, refl, ap, inl, inr, arith, ◌==◌,
  ltb, Bool-cases, Option-cases, if◌then◌else◌,
}
use web_gobbler.Scraper.{Result}
use web_gobbler.Store.Types.{
  Uuid, Time, JobStatus, queued, processing, failed, is_status, not_found, cannot_cancel, Reply, ok,
  err, Codec,
}
use web_gobbler.Store.Table.{Row, Db, has_id, is_row, update_where, select_id, IsKeyed}
use web_gobbler.Store.Table.Laws.{
  affected-eq-count, select_id-update_id, IsKeyed-update, count_mono, count-is_row, count-select_id,
  count-select_id-some, select_id-update_has,
}
use web_gobbler.Store.Jobs.{claim_job, updated_row, update_job, cancel_job}

-- A database whose statements succeed and whose ids are unique.
pub record IsSound (db : Db) : Type 0 where
  pub no_faults : db.faults ≡ []
  pub keyed : IsKeyed db.rows

-- The row of an id.
abbrev pub row_of : Uuid → Db → Option Row
row_of id db = select_id id db.rows

-- The row of one id is changed by `f`, and no other is.
abbrev pub Changes : Uuid → (Row → Row) → Db → Db → Type 0
Changes id f db db' =
    (j : Uuid) → row_of j db' ≡ (if j == id then Option.map f (row_of j db) else row_of j db)

abbrev pub Unchanged : Db → Db → Type 0
Unchanged db db' = (j : Uuid) → row_of j db' ≡ row_of j db

abbrev pub claimed : Time → Row → Row
claimed now r = record r { status = processing; updated_at = now }

abbrev pub cancelled : Time → Row → Row
cancelled now r = record r { status = failed; error_msg = some "cancelled"; updated_at = now }

-- A change of a queued row alone.
abbrev pub if_queued : (Row → Row) → Row → Row
if_queued f r = if is_status r.status queued then f r else r

-- The answer of ClaimJob.
abbrev pub claim_answer : Option Row → Bool
claim_answer none = false
claim_answer (some r) = is_status r.status queued

-- The answer of CancelJob.
abbrev pub cancel_answer : Uuid → Option Row → Reply (Unit {0})
cancel_answer id none = err (not_found id)
cancel_answer id (some r) =
    if is_status r.status queued then ok tt else err (cannot_cancel r.status)

-- What CancelJob reports of the row that its second statement reads.
abbrev status_reply : Uuid → Option Row → Reply (Unit {0})
status_reply id none = err (not_found id)
status_reply id (some r) = err (cannot_cancel r.status)

-- The answer of UpdateJob.
abbrev pub update_answer : Uuid → Option Row → Reply (Unit {0})
update_answer id none = err (not_found id)
update_answer id (some r) = ok tt

module _ (id : Uuid) (db : Db) (sound : IsSound db) where
  -- How many rows the statements of ClaimJob and CancelJob affect.
  queued-affected :
      (set : Row → Row)
      → ltb 0 (update_where (is_row id queued) set db.rows).0 ≡ claim_answer (row_of id db)
  queued-affected set = elim (Option-cases (row_of id db)) [
    | inl e ↦ ground (
      arith,
      affected-eq-count (is_row id queued) set db.rows,
      count_mono (is_row id queued) (has_id id) (λ r h. ground arith) db.rows,
      count-select_id id db.rows e,
    )
    | inr (r, e) ↦ rw e (
        rw (affected-eq-count (is_row id queued) set db.rows)
          (count-is_row id queued db.rows sound.keyed e))
  ]

  -- What the update of CancelJob and ClaimJob leaves.
  queued-Changes :
      (set : Row → Row) (faults : List Bool)
      → ((r : Row) → (set r).id ≡ r.id)
      → Changes id
          (if_queued set)
          db
          (record { rows = (update_where (is_row id queued) set db.rows).1; faults = faults })
  queued-Changes set faults same_id j =
      select_id-update_id id (λ r. is_status r.status queued) set same_id j db.rows

  -- ClaimJob answers whether the job is queued; a queued job becomes processing, with the time of
  -- the statement, and nothing else in the table changes.
  pub claim_job_lem :
      (now : Time)
      → ((claim_job id now db).0 ≡ ok (claim_answer (row_of id db)))
        × Changes id (if_queued (claimed now)) db (claim_job id now db).1
        × IsSound (claim_job id now db).1
  unfolding claim_job
  claim_job_lem now =
      let e : claim_job id now db ≡ (
        ok (ltb 0 (update_where (is_row id queued) (claimed now) db.rows).0),
        record { rows = (update_where (is_row id queued) (claimed now) db.rows).1; faults = [] },
      ) =
        ground (arith, sound.no_faults) in
      rw e (
        ap ok (queued-affected (claimed now)),
        queued-Changes (claimed now) [] (λ r. refl),
        record {
          no_faults = refl;
          keyed = IsKeyed-update _ (claimed now) (λ r. refl) db.rows sound.keyed;
        },
      )

  -- CancelJob succeeds for a queued job, which becomes failed with the message "cancelled"; a job
  -- of another status is reported with it, a missing one as such; nothing else in the table
  -- changes.
  pub cancel_job_lem :
      (now : Time)
      → ((cancel_job id now db).0 ≡ cancel_answer id (row_of id db))
        × Changes id (if_queued (cancelled now)) db (cancel_job id now db).1
        × IsSound (cancel_job id now db).1
  unfolding cancel_job
  cancel_job_lem now =
      let after = update_where (is_row id queued) (cancelled now) db.rows in
      let e : cancel_job id now db ≡ (
        (if ltb 0 after.0 then ok tt else status_reply id (select_id id after.1)),
        record { rows = after.1; faults = [] },
      ) =
        ground (arith, sound.no_faults) in
      rw e (
        elim (Option-cases (row_of id db)) [
          | inl none_there ↦ ground (
            arith,
            queued-affected (cancelled now),
            queued-Changes (cancelled now) [] (λ r. refl) id,
          )
          | inr (r, there) ↦ ground (
            arith,
            queued-affected (cancelled now),
            queued-Changes (cancelled now) [] (λ r. refl) id,
          )
        ],
        queued-Changes (cancelled now) [] (λ r. refl),
        record {
          no_faults = refl;
          keyed = IsKeyed-update _ (cancelled now) (λ r. refl) db.rows sound.keyed;
        },
      )

  -- UpdateJob reports a missing job, and otherwise changes its row, and no other, as `updated_row`
  -- says.
  pub update_job_lem :
      (c : Codec) (status : JobStatus) (result : Option Result) (error_msg : Option String)
      (retries : ℕ) (now : Time)
      → ((update_job c id status result error_msg retries now db).0
          ≡ update_answer id (row_of id db))
        × Changes id
            (updated_row c status result error_msg retries now)
            db
            (update_job c id status result error_msg retries now db).1
        × IsSound (update_job c id status result error_msg retries now db).1
  unfolding update_job
  update_job_lem c status result error_msg retries now =
      let set = updated_row c status result error_msg retries now in
      let after = update_where (has_id id) set db.rows in
      let e : update_job c id status result error_msg retries now db ≡ (
        (if after.0 == 0 then err (not_found id) else ok tt),
        record { rows = after.1; faults = [] },
      ) =
        ground (arith, sound.no_faults) in
      rw e (
        elim (Option-cases (row_of id db)) [
          | inl none_there ↦ ground (
            arith,
            affected-eq-count (has_id id) set db.rows,
            count-select_id id db.rows none_there,
          )
          | inr (r, there) ↦ ground (
            arith,
            affected-eq-count (has_id id) set db.rows,
            count-select_id-some id db.rows there,
          )
        ],
        (λ j. select_id-update_has id set (λ r. refl) j db.rows),
        record { no_faults = refl; keyed = IsKeyed-update _ set (λ r. refl) db.rows sound.keyed },
      )

-- A change of queued rows leaves a table alone in which the job is not queued.
pub Changes-idle :
    (id : Uuid) (f : Row → Row) (db db' : Db)
    → claim_answer (row_of id db) ≡ false
    → Changes id (if_queued f) db db'
    → Unchanged db db'
Changes-idle id f db db' idle changes j = elim (Bool-cases (j == id)) [
  | inl e ↦
      let same : j ≡ id = ground arith in
      elim (Option-cases (row_of j db)) [
        | inl missing ↦ ground (arith, changes j)
        | inr (r, there) ↦ ground (arith, changes j, ap (λ i. claim_answer (row_of i db)) same)
      ]
  | inr e ↦ ground (arith, changes j)
]

-- Of a queued job, a change after a change of queued rows.
pub Changes-after :
    (id : Uuid) (f g : Row → Row) (db db' db'' : Db)
    → claim_answer (row_of id db) ≡ true
    → Changes id (if_queued f) db db'
    → Changes id g db' db''
    → Changes id (λ r. g (f r)) db db''
Changes-after id f g db db' db'' there changes changes' j = elim (Bool-cases (j == id)) [
  | inl e ↦
      let same : j ≡ id = ground arith in
      elim (Option-cases (row_of j db)) [
        | inl missing ↦ ground (arith, changes j, changes' j)
        | inr (r, found) ↦
            ground (arith, changes j, changes' j, ap (λ i. claim_answer (row_of i db)) same)
      ]
  | inr e ↦ ground (arith, changes j, changes' j)
]
