-- ===== src/Store/Kept.antt =====
-- What becomes of the row of a job that is not queued (internal/store/store.go): of all calls of
-- the store, only UpdateJob of that job changes it.
use web_gobbler.Prelude.{
  ℕ, String, Option, sym, Bool, false, some, List, [], ◌∷◌, ◌≡◌, refl, ap, ◌∙◌, inl, inr, arith,
  ◌==◌, All, Bool-cases, List-cases, Option-cases, ltb,
}
use web_gobbler.Store.Types.{Uuid, Time, JobStatus, queued, processing, failed, is_status, Codec}
use web_gobbler.Store.Table.{Row, Db, has_id, is_row, next_fault, update_where, select_id}
use web_gobbler.Store.Table.Laws.{select_id-id}
use web_gobbler.Scraper.{Result}
use web_gobbler.Store.Jobs.{create_job, claim_job, updated_row, update_job, cancel_job}
use web_gobbler.Store.History.{
  Call, create, claim, finish, cancel, call, final_status, create_job-cases,
}

-- Whether a call is an UpdateJob of the job.
abbrev pub finishes : Uuid → Call → Bool
finishes id (create j now job) = false
finishes id (claim j now) = false
finishes id (finish j done result error_msg retries now) = j == id
finishes id (cancel j now) = false

-- An update that leaves out the row of an id.
select_id-left_out :
    (id : Uuid) (test : Row → Bool) (set : Row → Row) (rows : List Row) {r : Row}
    → ((x : Row) → (set x).id ≡ x.id)
    → select_id id rows ≡ some r
    → test r ≡ false
    → select_id id (update_where test set rows).1 ≡ some r
unfolding select_id update_where
select_id-left_out id test set [] same_id h out = cc h
select_id-left_out id test set (x ∷ rows) {r} same_id h out = elim (Bool-cases (has_id id x)) [
  | inl e ↦ ground (arith, e, h, out)
  | inr e ↦ elim (Bool-cases (test x)) [
    | inl t ↦ ground (
      arith,
      e,
      t,
      h,
      same_id x,
      select_id-left_out id test set rows same_id (ground (arith, e, h)) out,
    )
    | inr t ↦
        ground
          (arith, e, t, h, select_id-left_out id test set rows same_id (ground (arith, e, h)) out)
  ]
]

-- Whether a statement fails, and what it then leaves.
next_fault-cases : (db : Db) → (next_fault db).1.rows ≡ db.rows
next_fault-cases db = elim (List-cases db.faults) [
  | inl e ↦ ground (arith, e)
  | inr (b, bs, e) ↦ ground (arith, e)
]

module _ (c : Codec) (id : Uuid) (r : Row) (settled : is_status r.status queued ≡ false) where
  abbrev Holds : Db → Type 0
  Holds db = select_id id db.rows ≡ some r

  -- The calls one after the other.
  abbrev pub after_calls : List Call → Db → Db
  after_calls [] db = db
  after_calls (k ∷ ks) db = after_calls ks (call c k db)

  left_out :
      (test : Row → Bool) (set : Row → Row) (db : Db)
      → ((x : Row) → (set x).id ≡ x.id)
      → test r ≡ false
      → Holds db
      → select_id id (update_where test set (next_fault db).1.rows).1 ≡ some r
  left_out test set db same_id out h =
      ap (λ rows. select_id id (update_where test set rows).1) (next_fault-cases db)
      ∙ select_id-left_out id test set db.rows same_id h out

  same_rows : (db db' : Db) → db'.rows ≡ db.rows → Holds db → Holds db'
  same_rows db db' e h = ap (select_id id) e ∙ h

  claim_job-Holds : (j : Uuid) (now : Time) (db : Db) → Holds db → Holds (claim_job j now db).1
  unfolding claim_job
  claim_job-Holds j now db h =
      let kept =
        left_out (is_row j queued) (λ x. record x { status = processing; updated_at = now }) db
          (λ x. refl) (ground (arith, settled)) h in
      elim (Bool-cases (next_fault db).0) [
        | inl e ↦ rw e (same_rows db (next_fault db).1 (next_fault-cases db) h)
        | inr e ↦ rw e kept
      ]

  update_job-Holds :
      (j : Uuid) (status : JobStatus) (result : Option Result) (error_msg : Option String)
      (retries : ℕ) (now : Time) (db : Db)
      → (j == id) ≡ false
      → Holds db
      → Holds (update_job c j status result error_msg retries now db).1
  unfolding update_job updated_row
  update_job-Holds j status result error_msg retries now db other h =
      let own : r.id ≡ id = select_id-id id db.rows h in
      let kept =
        left_out (has_id j) (updated_row c status result error_msg retries now) db (λ x. refl)
          (ground (arith, other, own)) h in
      let affected =
        (update_where (has_id j) (updated_row c status result error_msg retries now)
          (next_fault db).1.rows).0 in
      elim (Bool-cases (next_fault db).0) [
        | inl e ↦ rw e (same_rows db (next_fault db).1 (next_fault-cases db) h)
        | inr e ↦ elim (Bool-cases (affected == 0)) [
          | inl missing ↦ rw (e, missing) kept
          | inr there ↦ rw (e, there) kept
        ]
      ]

  cancel_job-Holds : (j : Uuid) (now : Time) (db : Db) → Holds db → Holds (cancel_job j now db).1
  unfolding cancel_job
  cancel_job-Holds j now db h =
      let set : Row → Row =
        λ x. record x { status = failed; error_msg = some "cancelled"; updated_at = now } in
      let done : Db = record (next_fault db).1 {
        rows = (update_where (is_row j queued) set (next_fault db).1.rows).1;
      } in
      let kept = left_out (is_row j queued) set db (λ x. refl) (ground (arith, settled)) h in
      let later = same_rows done (next_fault done).1 (next_fault-cases done) kept in
      let affected = (update_where (is_row j queued) set (next_fault db).1.rows).0 in
      elim (Bool-cases (next_fault db).0) [
        | inl e ↦ rw e (same_rows db (next_fault db).1 (next_fault-cases db) h)
        | inr e ↦ elim (Bool-cases (ltb 0 affected)) [
          | inl some_done ↦ rw (e, some_done) kept
          | inr none_done ↦ elim (Bool-cases (next_fault done).0) [
            | inl e' ↦ rw (e, none_done, e') later
            | inr e' ↦ elim (Option-cases (select_id j (next_fault done).1.rows)) [
              | inl missing ↦ rw (e, none_done, e', missing) later
              | inr (x, there) ↦ rw (e, none_done, e', there) later
            ]
          ]
        ]
      ]

  call-Holds : (k : Call) (db : Db) → finishes id k ≡ false → Holds db → Holds (call c k db)
  unfolding select_id
  call-Holds (create j now job) db other h = elim (create_job-cases c j now job db) [
    | inl e ↦ same_rows db (create_job c j now job db).1 e h
    | inr (options, free, e) ↦ elim (Bool-cases (j == id)) [
      | inl same ↦
          let at : j ≡ id = ground arith in cc (sym (ap (λ i. select_id i db.rows) at) ∙ free, h)
      | inr apart ↦ ap (select_id id) e ∙ ground (arith, apart, h)
    ]
  ]
  call-Holds (claim j now) db other h = claim_job-Holds j now db h
  call-Holds (finish j done result error_msg retries now) db other h =
      update_job-Holds j (final_status done) result error_msg retries now db other h
  call-Holds (cancel j now) db other h = cancel_job-Holds j now db h

  -- A row that is not queued is the same after any calls but UpdateJob of its job.
  pub row_kept :
      (ks : List Call) (db : Db)
      → Holds db
      → All (λ k. finishes id k ≡ false) ks
      → Holds (after_calls ks db)
  row_kept [] db h others = h
  row_kept (k ∷ ks) db h (other, others) =
      row_kept ks (call c k db) (call-Holds k db other h) others
