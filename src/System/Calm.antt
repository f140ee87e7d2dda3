-- ===== src/System/Calm.antt =====
-- The calls of the store and the queue while no command is refused.
use web_gobbler.Prelude.{
  String, true, false, Option, none, some, List, [], ◌∷◌, ◌++◌, ◌≡◌, ◌≢◌, refl, sym, ap, subst, ◌∙◌,
  ◌⊎◌, inl, inr, arith, ◌==◌, All, Bool-cases, Option-cases,
}
use web_gobbler.Queue.{JobPayload}
use web_gobbler.Queue.Redis.{
  Redis, PayloadCodec, IsFaithful, Dequeued, timed_out, dequeued_of, enqueue, dequeue,
}
use web_gobbler.Queue.Refines.{contents, pop_last-contents}
use web_gobbler.Store.Types.{Uuid, Time, queued, is_status, StoreError, db_failed, ok, err, Codec}
use web_gobbler.Store.Table.{Row, Db, select_id}
use web_gobbler.Store.Jobs.{NewJob, new_row, create_job, encode_options}
use web_gobbler.Store.Laws.{IsSound, row_of, Changes, claim_answer}

-- A change that queues no row.
abbrev pub QueuesNone : (Row → Row) → Type 0
QueuesNone f = (r : Row) → is_status (f r).status queued ≡ true → is_status r.status queued ≡ true

pub Changes-queued :
    (id : Uuid) (f : Row → Row) (db db' : Db)
    → QueuesNone f
    → Changes id f db db'
    → (j : Uuid) → claim_answer (row_of j db') ≡ true
    → claim_answer (row_of j db) ≡ true
Changes-queued id f db db' none_queued changes j h = elim (Option-cases (row_of j db)) [
  | inl e ↦ ground (arith, changes j)
  | inr (r, e) ↦ ground (arith, changes j, none_queued r)
]

-- A change that leaves no row queued.
pub Changes-settled :
    (id : Uuid) (f : Row → Row) (db db' : Db)
    → ((r : Row) → is_status (f r).status queued ≡ false)
    → Changes id f db db'
    → claim_answer (row_of id db') ≡ false
Changes-settled id f db db' settles changes = elim (Option-cases (row_of id db)) [
  | inl e ↦ ground (arith, changes id)
  | inr (r, e) ↦ ground (arith, changes id, settles r)
]

free-All : (id : Uuid) (rows : List Row) → select_id id rows ≡ none → All (λ s. id ≢ s.id) rows
unfolding select_id
free-All id [] h = tt
free-All id (r ∷ rs) h = (λ e. ground arith, free-All id rs (ground arith))

module _ (c : Codec) (id : Uuid) (now : Time) (job : NewJob) (db : Db) (sound : IsSound db) where
  create_job-calm :
      (create_job c id now job db ≡ (err db_failed, db))
      ⊎ ((options : Option String) × (row_of id db ≡ none)
          × (create_job c id now job db ≡ (
            ok (id, now),
            record { rows = new_row id now job options ∷ db.rows; faults = [] },
          )))
  unfolding create_job
  create_job-calm = elim (Option-cases (encode_options c job.options)) [
    | inl e ↦ inl (ground (arith, e))
    | inr (o, e) ↦ elim (Option-cases (row_of id db)) [
      | inl there ↦ inr (o, there, ground (arith, e, there, sound.no_faults))
      | inr (r, there) ↦ inl (ground (arith, e, there, sound.no_faults))
    ]
  ]

  pub new_row-IsSound :
      (options : Option String)
      → row_of id db ≡ none
      → IsSound (record { rows = new_row id now job options ∷ db.rows; faults = [] })
  new_row-IsSound o there = record {
    no_faults = refl;
    keyed = (free-All id db.rows there, sound.keyed);
  }

  new_row-queued :
      (options : Option String) (j : Uuid)
      → claim_answer (select_id j (new_row id now job options ∷ db.rows)) ≡ true
      → (j ≡ id) ⊎ (claim_answer (row_of j db) ≡ true)
  unfolding select_id
  new_row-queued o j h = elim (Bool-cases (id == j)) [
    | inl e ↦ inl (ground arith)
    | inr e ↦ inr (ground (arith, h, e))
  ]

  pub create_job-ok :
      {db' : Db}
      → create_job c id now job db ≡ (ok (id, now), db')
      → IsSound db'
        × ((j : Uuid)
            → claim_answer (row_of j db') ≡ true
            → (j ≡ id) ⊎ (claim_answer (row_of j db) ≡ true))
  create_job-ok {db'} h = elim create_job-calm [
    | inl e ↦ cc (ap (λ a. a.0) (sym e ∙ h))
    | inr (o, there, e) ↦
        subst
          (λ d.
            IsSound d
            × ((j : Uuid)
                → claim_answer (row_of j d) ≡ true
                → (j ≡ id) ⊎ (claim_answer (row_of j db) ≡ true)))
          (ap (λ a. a.1) (sym e ∙ h)) (new_row-IsSound o there, new_row-queued o)
  ]

  pub create_job-err :
      {db' : Db} {e : StoreError} → create_job c id now job db ≡ (err e, db') → db ≡ db'
  create_job-err h = elim create_job-calm [
    | inl e ↦ ap (λ a. a.1) (sym e ∙ h)
    | inr (o, there, e) ↦ cc (ap (λ a. a.0) (sym e ∙ h))
  ]

module _ (q : PayloadCodec) (r : Redis) (still : r.faults ≡ []) where
  pub enqueue-calm :
      IsFaithful q
      → (p : JobPayload) {text : String} → q.marshal p ≡ some text
      → ((enqueue q p r).1.faults ≡ [])
        × (contents q (enqueue q p r).1.items ≡ contents q r.items ++ some p ∷ [])
  unfolding enqueue
  enqueue-calm faithful p {text} e = ground (arith, e, still, faithful.back p text e)

  -- Dequeue leaves an empty queue as it is, and takes the oldest message of any other.
  pub dequeue-calm :
      {answer : Dequeued} {r' : Redis}
      → dequeue q r ≡ (answer, r')
      → (r'.faults ≡ [])
        × (((contents q r.items ≡ contents q r'.items) × (answer ≡ timed_out))
            ⊎ ((m : Option JobPayload) × (contents q r.items ≡ m ∷ contents q r'.items)
                × (answer ≡ dequeued_of m)))
  unfolding dequeue
  dequeue-calm {answer} {r'} h = elim (pop_last-contents q r.items) [
    | inl (e, empty) ↦
        let done : dequeue q r ≡ (timed_out, r) = ground (arith, e, still) in
        let same = sym h ∙ done in
        (
          rw (ap (λ a. a.1) same) still,
          inl (sym (ap (λ a. contents q a.1.items) same), ap (λ a. a.0) same),
        )
    | inr (text, rest, e, first) ↦
        let done : dequeue q r
            ≡ (dequeued_of (q.unmarshal text), record { items = rest; faults = [] }) =
          ground (arith, e, still) in
        let same = sym h ∙ done in
        (
          ap (λ a. a.1.faults) same,
          inr (
            q.unmarshal text,
            first ∙ ap (λ ms. q.unmarshal text ∷ ms) (sym (ap (λ a. contents q a.1.items) same)),
            ap (λ a. a.0) same,
          ),
        )
  ]
