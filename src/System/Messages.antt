-- ===== src/System/Messages.antt =====
-- Where the messages of a job are, the runs in which no process dies and no command is refused, and
-- the steps of the table or of one worker in them.
use web_gobbler.Prelude.{
  ℕ, String, true, Option, none, some, [], Memᴰ, ◌≡◌, ◌≢◌, refl, sym, ap, ◌∙◌, inl, inr, arith,
  ◌==◌, Bool-cases,
}
use web_gobbler.Queue.{JobPayload}
use web_gobbler.Queue.Redis.{PayloadCodec, taken, dequeued_of}
use web_gobbler.Queue.Refines.{contents}
use web_gobbler.Store.Types.{Uuid, Codec}
use web_gobbler.Store.Table.{Db}
use web_gobbler.Store.Laws.{IsSound, row_of, claim_answer}
use web_gobbler.System.{Doing, holding, System, set_worker, Step, start, IsNotTaken}

module _ (c : Codec) (q : PayloadCodec) (parse : String → Option Uuid) where
  -- A message that names the job is with a request, in the queue, or in a worker's hands.
  pub data Waiting (id : Uuid) (s : System) : Type 0 where
    posted : (p : JobPayload) → parse p.job_id ≡ some id → Memᴰ p s.posting → Waiting id s
    sent :
        (p : JobPayload)
        → parse p.job_id ≡ some id
        → Memᴰ (some p) (contents q s.redis.items)
        → Waiting id s
    held :
        (p : JobPayload)
        → parse p.job_id ≡ some id
        → (i : ℕ) → s.workers i ≡ holding p
        → Waiting id s

  abbrev pub CanSend : JobPayload → Type 0
  CanSend p = (text : String) × (q.marshal p ≡ some text)

  -- The steps from an empty table and queue, no statement or command refused and no process ended,
  -- of requests whose messages can be written.
  pub data CalmReach : System → Type 0 where
    calm_here :
        CalmReach (start (record { rows = []; faults = [] }) (record { items = []; faults = [] }))
    calm_next :
        {s t : System}
        → CalmReach s
        → Step c q parse s t
        → ((p : JobPayload) → Memᴰ p t.posting → CanSend p)
        → CalmReach t

  pub record IsCalm (s : System) : Type 0 where
    pub sound : IsSound s.db
    pub still : s.redis.faults ≡ []
    pub waiting : (id : Uuid) → claim_answer (row_of id s.db) ≡ true → Waiting id s

  -- A step that leaves every message where a worker or a later one finds it.
  abbrev Keeps : System → System → Type 0
  Keeps s t = (id : Uuid) → Waiting id s → claim_answer (row_of id t.db) ≡ true → Waiting id t

  -- A worker that holds nothing goes on to something.
  pub held-other :
      (s : System) (i : ℕ) (d : Doing) (id : Uuid) (p : JobPayload) (j : ℕ)
      → s.workers i ≢ holding p
      → s.workers j ≡ holding p
      → set_worker i d s.workers j ≡ holding p
  held-other s i d id p j empty h = elim (Bool-cases (j == i)) [
    | inl e ↦ let same : j ≡ i = ground arith in absurd (empty (ap s.workers (sym same) ∙ h))
    | inr e ↦ rw e h
  ]

  -- A step of the table alone, or of a worker that holds nothing.
  keeps-hands :
      (s : System) (i : ℕ) (d : Doing) (db : Db) (id : Uuid)
      → ((p : JobPayload) → parse p.job_id ≡ some id → s.workers i ≢ holding p)
      → Waiting id s
      → Waiting id (record s { db = db; workers = set_worker i d s.workers })
  keeps-hands s i d db id empty (posted p n m) = posted p n m
  keeps-hands s i d db id empty (sent p n m) = sent p n m
  keeps-hands s i d db id empty (held p n j h) = held p n j (held-other s i d id p j (empty p n) h)

  keeps-table :
      (s : System) (db : Db) (id : Uuid) → Waiting id s → Waiting id (record s { db = db })
  keeps-table s db id (posted p n m) = posted p n m
  keeps-table s db id (sent p n m) = sent p n m
  keeps-table s db id (held p n i h) = held p n i h

  -- A step of the table, and of one worker, that queues no row.
  pub IsCalm-table :
      (s : System) (db : Db)
      → IsCalm s
      → IsSound db
      → ((j : Uuid) → claim_answer (row_of j db) ≡ true → claim_answer (row_of j s.db) ≡ true)
      → IsCalm (record s { db = db })
  IsCalm-table s db v sound queues = record {
    sound = sound;
    still = v.still;
    waiting = λ j h. keeps-table s db j (v.waiting j (queues j h));
  }

  pub IsCalm-hands :
      (s : System) (i : ℕ) (d : Doing) (db : Db)
      → IsCalm s
      → IsSound db
      → ((j : Uuid)
          → claim_answer (row_of j db) ≡ true
          → (claim_answer (row_of j s.db) ≡ true)
            × ((p : JobPayload) → parse p.job_id ≡ some j → s.workers i ≢ holding p))
      → IsCalm (record s { db = db; workers = set_worker i d s.workers })
  IsCalm-hands s i d db v sound queues = record {
    sound = sound;
    still = v.still;
    waiting = λ j h.
        let (before, empty) = queues j h in keeps-hands s i d db j empty (v.waiting j before);
  }

  pub dequeued-taken :
      (m : Option JobPayload) (p : JobPayload) → taken p ≡ dequeued_of m → m ≡ some p
  dequeued-taken none p h = cc
  dequeued-taken (some x) p h = cc

  pub dequeued-none : (m : Option JobPayload) → IsNotTaken (dequeued_of m) → m ≡ none
  dequeued-none none off = refl
  dequeued-none (some x) off = elim off [ ]

  pub holding-injective : (p p' : JobPayload) → holding p ≡ holding p' → p ≡ p'
  holding-injective p p' h = cc
