-- ===== src/System/Runners.antt =====
-- Who runs a job, when the API and the workers go on in any order.
use web_gobbler.Prelude.{
  ℕ, ◌≤◌, String, Bool, true, false, Option, ◌≡◌, ◌≢◌, refl, sym, ap, subst, ◌∙◌, ◌⊎◌, inl, inr,
  arith, ◌==◌, Bool-cases,
}
use web_gobbler.Queue.Redis.{PayloadCodec, Redis}
use web_gobbler.Store.Types.{Uuid, Time, Reply, ok, err, Codec}
use web_gobbler.Store.Table.{Db}
use web_gobbler.Store.Jobs.{get_job, claim_job, ping_store}
use web_gobbler.Store.Listing.{list_jobs}
use web_gobbler.System.Looks.{Looked, get_job-Looked, list_jobs-Looked, ping_store-Looked}
use web_gobbler.Store.History.{Call, chance, call-chance, claim-spends}
use web_gobbler.System.{
  Doing, free, holding, running, dead, System, set_worker, after_claim, Step, create, create_fails,
  send, cancel, read, list, ping_db, depth, ping_redis, take, wait, reject, claim, finish, leave,
  die, Reach, here, next, crash,
}

abbrev Workers : Type 0
Workers = ℕ → Doing

-- Each job that runs in the second did in the first, by the same worker.
abbrev Fewer : Workers → Workers → Type 0
Fewer w v = (i : ℕ) (id : Uuid) → v i ≡ running id → w i ≡ running id

pub set_worker-cases :
    (i : ℕ) (d e : Doing) (w : Workers) (j : ℕ)
    → set_worker i d w j ≡ e
    → ((j ≡ i) × (d ≡ e)) ⊎ (w j ≡ e)
set_worker-cases i d e w j h = elim (Bool-cases (j == i)) [
  | inl same ↦ inl (ground arith, ground (arith, h, same))
  | inr other ↦ inr (ground (arith, h, other))
]

-- A worker that does not run then.
set_worker-Fewer :
    (i : ℕ) (d : Doing) (w : Workers) → ((id : Uuid) → d ≢ running id) → Fewer w (set_worker i d w)
set_worker-Fewer i d w off j id h = elim (set_worker-cases i d (running id) w j h) [
  | inl (at, on) ↦ absurd (off id on)
  | inr before ↦ before
]

-- A job that runs can be taken no more, and one worker alone runs it.
pub record Inv (s : System) : Type 0 where
  pub spent : (i : ℕ) (id : Uuid) → s.workers i ≡ running id → chance id s.db.rows ≡ 0
  pub alone : (i j : ℕ) (id : Uuid) → s.workers i ≡ running id → s.workers j ≡ running id → i ≡ j

-- A step after which no job has more chances, and none runs anew.
Inv-Fewer :
    (s t : System)
    → Inv s
    → ((id : Uuid) → chance id t.db.rows ≤ chance id s.db.rows)
    → Fewer s.workers t.workers
    → Inv t
Inv-Fewer s t v less fewer = record {
  spent = λ i id h. omega (arith, less id, v.spent i id (fewer i id h));
  alone = λ i j id h k. v.alone i j id (fewer i id h) (fewer j id k);
}

after_claim-running :
    (id k : Uuid) (answer : Reply Bool)
    → after_claim id answer ≡ running k
    → (answer ≡ ok true) × (id ≡ k)
after_claim-running id k (ok true) h = (refl, cc)
after_claim-running id k (ok false) h = cc
after_claim-running id k (err e) h = cc

module _ (c : Codec) (q : PayloadCodec) (parse : String → Option Uuid) where
  claim-Inv :
      (s : System) (i : ℕ) (id : Uuid) (now : Time)
      → Inv s
      → Inv (record s {
        db = (claim_job id now s.db).1;
        workers = set_worker i (after_claim id (claim_job id now s.db).0) s.workers;
      })
  claim-Inv s i id now v = record {
    spent = λ j k h. elim (set_worker-cases i (after_claim id answer) (running k) s.workers j h) [
      | inl (at, on) ↦ (won k on).1
      | inr before ↦ omega (arith, v.spent j k before, spends k)
    ];
    alone = λ j j' k h h'.
        elim (set_worker-cases i (after_claim id answer) (running k) s.workers j h) [
          | inl (at, on) ↦
              elim (set_worker-cases i (after_claim id answer) (running k) s.workers j' h') [
                | inl (at', on') ↦ at ∙ sym at'
                | inr before ↦ absurd (omega (arith, (won k on).0, v.spent j' k before))
              ]
          | inr before ↦
              elim (set_worker-cases i (after_claim id answer) (running k) s.workers j' h') [
                | inl (at', on') ↦ absurd (omega (arith, (won k on').0, v.spent j k before))
                | inr before' ↦ v.alone j j' k before before'
              ]
        ];
  }
    where
      answer : Reply Bool
      answer = (claim_job id now s.db).0

      spends : (k : Uuid) → chance k (claim_job id now s.db).1.rows ≤ chance k s.db.rows
      spends k = omega (arith, call-chance c k (Call.claim id now) s.db)

      won :
          (k : Uuid)
          → after_claim id answer ≡ running k
          → (chance k s.db.rows ≡ 1) × (chance k (claim_job id now s.db).1.rows ≡ 0)
      won k on =
          let (yes_taken, same) = after_claim-running id k answer on in
          subst (λ j. (chance j s.db.rows ≡ 1) × (chance j (claim_job id now s.db).1.rows ≡ 0)) same
            (claim-spends c id now s.db yes_taken)

  looks : (s : System) (db : Db) → Inv s → Looked s.db db → Inv (record s { db = db })
  looks s db v look =
      Inv-Fewer s (record s { db = db }) v (λ k. rw look.rows (omega arith)) (λ i k h. h)

  Step-Inv : {s t : System} → Step c q parse s t → Inv s → Inv t
  Step-Inv {s} (create id now {db} job p e named) v =
      Inv-Fewer s _ v
        (λ k.
          subst (λ d. chance k d.rows ≤ chance k s.db.rows) (ap (λ a. a.1) e)
            (omega (arith, call-chance c k (Call.create id now job) s.db)))
        (λ i k h. h)
  Step-Inv {s} (create_fails id now {db} x job e) v =
      Inv-Fewer s _ v
        (λ k.
          subst (λ d. chance k d.rows ≤ chance k s.db.rows) (ap (λ a. a.1) e)
            (omega (arith, call-chance c k (Call.create id now job) s.db)))
        (λ i k h. h)
  Step-Inv {s} (send before after p e) v = Inv-Fewer s _ v (λ id. omega arith) (λ i id h. h)
  Step-Inv {s} (cancel id now) v =
      Inv-Fewer s _ v (λ k. omega (arith, call-chance c k (Call.cancel id now) s.db)) (λ i k h. h)
  Step-Inv {s} (read id) v = looks s (get_job c id s.db).1 v (get_job-Looked c s.db id)
  Step-Inv {s} (list order page limit filter) v =
      looks s (list_jobs c order page limit filter s.db).1 v
        (list_jobs-Looked c s.db order page limit filter)
  Step-Inv {s} ping_db v = looks s (ping_store s.db).1 v (ping_store-Looked s.db)
  Step-Inv {s} depth v = Inv-Fewer s _ v (λ id. omega arith) (λ i id h. h)
  Step-Inv {s} ping_redis v = Inv-Fewer s _ v (λ id. omega arith) (λ i id h. h)
  Step-Inv {s} (take i {p} f e) v =
      Inv-Fewer s _ v (λ id. omega arith) (set_worker-Fewer i (holding p) s.workers (λ id h. cc))
  Step-Inv {s} (wait i x f e a) v = Inv-Fewer s _ v (λ id. omega arith) (λ i id h. h)
  Step-Inv {s} (reject i p f e) v =
      Inv-Fewer s _ v (λ id. omega arith) (set_worker-Fewer i free s.workers (λ id h. cc))
  Step-Inv {s} (claim i p id now f e) v = claim-Inv s i id now v
  Step-Inv {s} (finish i id done result msg retries now f told) v =
      Inv-Fewer s _ v
        (λ k. omega (arith, call-chance c k (Call.finish id done result msg retries now) s.db))
        (set_worker-Fewer i free s.workers (λ k h. cc))
  Step-Inv {s} (leave i id f) v =
      Inv-Fewer s _ v (λ id. omega arith) (set_worker-Fewer i free s.workers (λ id h. cc))

  Reach-Inv : {db : Db} {redis : Redis} {s : System} → Reach c q parse db redis s → Inv s
  Reach-Inv here = record { spent = λ i id h. cc; alone = λ i j id h k. cc }
  Reach-Inv (next r st) = Step-Inv st (Reach-Inv r)
  Reach-Inv (crash {s} r (die i)) =
      Inv-Fewer s _ (Reach-Inv r) (λ id. omega arith)
        (set_worker-Fewer i dead s.workers (λ id h. cc))

  -- However the API, the workers and crashes interleave, whatever messages are queued twice and
  -- whichever statements fail: no two workers run one job at a time.
  pub one_runner :
      {db : Db} {redis : Redis} {s : System}
      → Reach c q parse db redis s
      → (i j : ℕ) (id : Uuid) → s.workers i ≡ running id
      → s.workers j ≡ running id
      → i ≡ j
  one_runner r = (Reach-Inv r).alone
