-- ===== src/System/Waiting.antt =====
-- Where the message of a queued job is, while no process dies and no command is refused.
use mathlib.Core.List.Memᴰ
use web_gobbler.Prelude.{
  ℕ, String, true, Option, some, List, [], ◌∷◌, ◌++◌, Memᴰ, ◌≡◌, refl, sym, ap, subst, ◌∙◌, ◌⊎◌,
  inl, inr, arith,
}
use mathlib.Core.Option.{some-injective}
use web_gobbler.Queue.{JobPayload}
use web_gobbler.Queue.Redis.{
  Redis, PayloadCodec, IsFaithful, Dequeued, taken, enqueue, dequeue, queue_depth, ping,
}
use web_gobbler.Queue.Refines.{contents}
use web_gobbler.Store.Types.{Uuid, Time, queued, Codec}
use web_gobbler.Store.Table.{Row, Db, select_id, IsKeyed}
use web_gobbler.Store.Jobs.{get_job, claim_job, update_job, cancel_job, ping_store, updated_row}
use web_gobbler.Store.Listing.{list_jobs}
use web_gobbler.Store.Laws.{
  IsSound, row_of, if_queued, claimed, cancelled, claim_answer, claim_job_lem, cancel_job_lem,
  update_job_lem,
}
use web_gobbler.Store.History.{final_status, final_status-not_queued}
use web_gobbler.System.{
  free, holding, System, set_worker, after_claim, Step, create, create_fails, send, cancel, read,
  list, ping_db, depth, ping_redis, take, wait, reject, claim, finish, leave, IsNotTaken,
}
use web_gobbler.System.Looks.{
  Looked, LookedAt, get_job-Looked, list_jobs-Looked, ping_store-Looked, queue_depth-LookedAt,
  ping-LookedAt,
}
use web_gobbler.System.Calm.{
  Changes-queued, Changes-settled, create_job-ok, create_job-err, enqueue-calm, dequeue-calm,
}
use web_gobbler.System.Messages.{
  Waiting, posted, sent, held, CanSend, CalmReach, calm_here, calm_next, IsCalm, held-other,
  IsCalm-table, IsCalm-hands, dequeued-taken, dequeued-none, holding-injective,
}

module _ (c : Codec) (q : PayloadCodec) (parse : String → Option Uuid) where
  module _ (faithful : IsFaithful q) where
    create-IsCalm :
        (s : System) (p : JobPayload) (id : Uuid) (db : Db)
        → IsCalm c q parse s
        → parse p.job_id ≡ some id
        → IsSound db
          × ((j : Uuid)
              → claim_answer (row_of j db) ≡ true
              → (j ≡ id) ⊎ (claim_answer (row_of j s.db) ≡ true))
        → IsCalm c q parse (record s { db = db; posting = p ∷ s.posting })
    create-IsCalm s p id db v named (sound, queues) = record {
      sound = sound;
      still = v.still;
      waiting = λ j h. elim (queues j h) [
        | inl new ↦ posted p (named ∙ ap some (sym new)) (Memᴰ.head refl)
        | inr old ↦ more j (v.waiting j old)
      ];
    }
      where
        more :
            (j : Uuid)
            → Waiting c q parse j s
            → Waiting c q parse j (record s { db = db; posting = p ∷ s.posting })
        more j (posted p' n m) = posted p' n (Memᴰ.tail m)
        more j (sent p' n m) = sent p' n m
        more j (held p' n i h) = held p' n i h

    send-IsCalm :
        (s : System) (before after : List JobPayload) (p : JobPayload)
        → IsCalm c q parse s
        → ((p : JobPayload) → Memᴰ p s.posting → CanSend c q parse p)
        → s.posting ≡ before ++ p ∷ after
        → IsCalm c q parse (record s { redis = (enqueue q p s.redis).1; posting = before ++ after })
    send-IsCalm s before after p v writes e =
        let (text, w) =
          writes p (subst (Memᴰ p) (sym e) (Memᴰ.append_right before (Memᴰ.head refl))) in
        let (still, there) = enqueue-calm q s.redis v.still faithful p w in
        record { sound = v.sound; still = still; waiting = λ j h. moves there j (v.waiting j h) }
      where
        after_it : JobPayload → System
        after_it x = record s { redis = (enqueue q p s.redis).1; posting = before ++ after }

        moves :
            contents q (enqueue q p s.redis).1.items ≡ contents q s.redis.items ++ some p ∷ []
            → (j : Uuid) → Waiting c q parse j s
            → Waiting c q parse j (after_it p)
        moves there j (posted p' n m) = elim (Memᴰ.append_cases before (subst (Memᴰ p') e m)) [
          | inl early ↦ posted p' n (Memᴰ.append_left after early)
          | inr late ↦ elim (Memᴰ.cases_cons late) [
            | inl same ↦ sent p' n (
                subst (Memᴰ (some p')) (sym there)
                  (Memᴰ.append_right (contents q s.redis.items) (Memᴰ.head (ap some same))))
            | inr later ↦ posted p' n (Memᴰ.append_right before later)
          ]
        ]
        moves there j (sent p' n m) =
            sent p' n (subst (Memᴰ (some p')) (sym there) (Memᴰ.append_left (some p ∷ []) m))
        moves there j (held p' n i h) = held p' n i h

    take-IsCalm :
        (s : System) (i : ℕ) (p : JobPayload) (redis : Redis)
        → IsCalm c q parse s
        → s.workers i ≡ free
        → dequeue q s.redis ≡ (taken p, redis)
        → IsCalm c q parse
            (record s { redis = redis; workers = set_worker i (holding p) s.workers })
    take-IsCalm s i p redis v idle e =
        let (still, there) = dequeue-calm q s.redis v.still e in
        record {
          sound = v.sound;
          still = still;
          waiting = λ j h. elim there [
            | inl (same, none_taken) ↦ cc none_taken
            | inr (m, first, answer) ↦
                moves
                  (first
                    ∙ ap (λ o. o ∷ contents q redis.items) (dequeued-taken c q parse m p answer))
                  j (v.waiting j h)
          ];
        }
      where
        later : System
        later = record s { redis = redis; workers = set_worker i (holding p) s.workers }

        moves :
            contents q s.redis.items ≡ some p ∷ contents q redis.items
            → (j : Uuid) → Waiting c q parse j s
            → Waiting c q parse j later
        moves first j (posted p' n m) = posted p' n m
        moves first j (sent p' n m) = elim (Memᴰ.cases_cons (subst (Memᴰ (some p')) first m)) [
          | inl same ↦ held p' n i (ground (arith, some-injective _ _ same))
          | inr rest ↦ sent p' n rest
        ]
        moves first j (held p' n k h) =
            held p' n k (held-other c q parse s i (holding p) j p' k (λ on. cc (idle, on)) h)

    wait-IsCalm :
        (s : System) (i : ℕ) (answer : Dequeued) (redis : Redis)
        → IsCalm c q parse s
        → dequeue q s.redis ≡ (answer, redis)
        → IsNotTaken answer
        → IsCalm c q parse (record s { redis = redis })
    wait-IsCalm s i answer redis v e off =
        let (still, there) = dequeue-calm q s.redis v.still e in
        record {
          sound = v.sound;
          still = still;
          waiting = λ j h. elim there [
            | inl (same, timeout) ↦ moves (λ p m. subst (Memᴰ (some p)) same m) j (v.waiting j h)
            | inr (m, first, unread) ↦
                let gone = dequeued-none c q parse m (subst IsNotTaken unread off) in
                moves
                  (λ p there'. elim (Memᴰ.cases_cons (subst (Memᴰ (some p)) first there')) [
                    | inl same ↦ cc (same, gone)
                    | inr rest ↦ rest
                  ])
                  j (v.waiting j h)
          ];
        }
      where
        moves :
            ((p : JobPayload)
              → Memᴰ (some p) (contents q s.redis.items)
              → Memᴰ (some p) (contents q redis.items))
            → (j : Uuid) → Waiting c q parse j s
            → Waiting c q parse j (record s { redis = redis })
        moves keep j (posted p' n m) = posted p' n m
        moves keep j (sent p' n m) = sent p' n (keep p' m)
        moves keep j (held p' n k h) = held p' n k h

    claim-IsCalm :
        (s : System) (i : ℕ) (p : JobPayload) (id : Uuid) (now : Time)
        → IsCalm c q parse s
        → s.workers i ≡ holding p
        → parse p.job_id ≡ some id
        → IsCalm c q parse (record s {
          db = (claim_job id now s.db).1;
          workers = set_worker i (after_claim id (claim_job id now s.db).0) s.workers;
        })
    claim-IsCalm s i p id now v h named =
        let (answer, changes, kept) = claim_job_lem id s.db v.sound now in
        let db = (claim_job id now s.db).1 in
        let settled =
          Changes-settled id (if_queued (claimed now)) s.db db (λ r. ground arith) changes in
        IsCalm-hands c q parse s i (after_claim id (claim_job id now s.db).0) db v kept
          λ j queued_then. (
            Changes-queued id (if_queued (claimed now)) s.db db (λ r e. ground arith) changes j
                queued_then,
            λ p' names on.
                let same : p ≡ p' = holding-injective c q parse p p' (sym h ∙ on) in
                let at : id ≡ j =
                  some-injective _ _ (sym named ∙ ap (λ x. parse x.job_id) same ∙ names) in
                cc (settled, subst (λ k. claim_answer (row_of k db) ≡ true) (sym at) queued_then),
          )

    looks :
        (s : System) (db : Db)
        → IsCalm c q parse s
        → Looked s.db db
        → IsCalm c q parse (record s { db = db })
    looks s db v look =
        IsCalm-table c q parse s db v
          (record {
            no_faults = look.calm v.sound.no_faults;
            keyed = subst IsKeyed (sym look.rows) v.sound.keyed;
          })
          (λ j h. subst (λ rows. claim_answer (select_id j rows) ≡ true) look.rows h)

    looks_at :
        (s : System) (redis : Redis)
        → IsCalm c q parse s
        → LookedAt s.redis redis
        → IsCalm c q parse (record s { redis = redis })
    looks_at s redis v look = record {
      sound = v.sound;
      still = look.calm v.still;
      waiting = λ j h. moves j (v.waiting j h);
    }
      where
        moves :
            (j : Uuid) → Waiting c q parse j s → Waiting c q parse j (record s { redis = redis })
        moves j (posted p n m) = posted p n m
        moves j (sent p n m) =
            sent p n (subst (λ l. Memᴰ (some p) (contents q l)) (sym look.items) m)
        moves j (held p n k h) = held p n k h

    Step-IsCalm :
        {s t : System}
        → Step c q parse s t
        → ((p : JobPayload) → Memᴰ p s.posting → CanSend c q parse p)
        → IsCalm c q parse s
        → IsCalm c q parse t
    Step-IsCalm {s} (create id now {db} job p e named) w v =
        create-IsCalm s p id db v named (create_job-ok c id now job s.db v.sound e)
    Step-IsCalm {s} (create_fails id now {db} x job e) w v =
        let same = create_job-err c id now job s.db v.sound e in
        IsCalm-table c q parse s db v (subst IsSound same v.sound)
          (λ j h. subst (λ d. claim_answer (row_of j d) ≡ true) (sym same) h)
    Step-IsCalm {s} (send before after p e) w v = send-IsCalm s before after p v w e
    Step-IsCalm {s} (cancel id now) w v =
        let (answer, changes, kept) = cancel_job_lem id s.db v.sound now in
        IsCalm-table c q parse s (cancel_job id now s.db).1 v kept (
          Changes-queued id (if_queued (cancelled now)) s.db (cancel_job id now s.db).1
            (λ r e. ground arith) changes)
    Step-IsCalm {s} (read id) w v = looks s (get_job c id s.db).1 v (get_job-Looked c s.db id)
    Step-IsCalm {s} (list order page limit filter) w v =
        looks s (list_jobs c order page limit filter s.db).1 v
          (list_jobs-Looked c s.db order page limit filter)
    Step-IsCalm {s} ping_db w v = looks s (ping_store s.db).1 v (ping_store-Looked s.db)
    Step-IsCalm {s} depth w v = looks_at s (queue_depth s.redis).1 v (queue_depth-LookedAt s.redis)
    Step-IsCalm {s} ping_redis w v = looks_at s (ping s.redis).1 v (ping-LookedAt s.redis)
    Step-IsCalm {s} (take i {p} {redis} f e) w v = take-IsCalm s i p redis v f e
    Step-IsCalm {s} (wait i x {redis} f e a) w v = wait-IsCalm s i x redis v e a
    Step-IsCalm {s} (reject i p f e) w v = IsCalm-hands c q parse s i free s.db v v.sound λ j h. (
      h,
      λ p' names on.
          let same : p ≡ p' = holding-injective c q parse p p' (sym f ∙ on) in
          cc (sym e ∙ ap (λ x. parse x.job_id) same ∙ names),
    )
    Step-IsCalm {s} (claim i p id now f e) w v = claim-IsCalm s i p id now v f e
    Step-IsCalm {s} (finish i id done result msg retries now f told) w v =
        let (answer, changes, kept) =
          update_job_lem id s.db v.sound c (final_status done) result msg retries now in
        IsCalm-hands c q parse s i free
          (update_job c id (final_status done) result msg retries now s.db).1 v kept
          λ j h. (
            Changes-queued id (updated_row c (final_status done) result msg retries now) s.db
                (update_job c id (final_status done) result msg retries now s.db).1
                (λ r e. unfold updated_row in ground (arith, e, final_status-not_queued done))
                changes j h,
            λ p' names on. cc (f, on),
          )
    Step-IsCalm {s} (leave i id f) w v =
        IsCalm-hands c q parse s i free s.db v v.sound λ j h. (h, λ p' names on. cc (f, on))

    pub CalmReach-CanSend :
        {s : System}
        → CalmReach c q parse s
        → (p : JobPayload) → Memᴰ p s.posting
        → CanSend c q parse p
    CalmReach-CanSend calm_here p there = absurd (Memᴰ.not-nil there)
    CalmReach-CanSend (calm_next r st w) p there = w p there

    pub CalmReach-IsCalm : {s : System} → CalmReach c q parse s → IsCalm c q parse s
    CalmReach-IsCalm calm_here = record {
      sound = record { no_faults = refl; keyed = tt };
      still = refl;
      waiting = λ id h. unfold select_id in cc h;
    }
    CalmReach-IsCalm (calm_next r st w) = Step-IsCalm st (CalmReach-CanSend r) (CalmReach-IsCalm r)

    -- No job is lost: as long as no process ends and no statement or command is refused, and
    -- the messages of the requests can be written, each queued
    -- job has a message that names it, with a request about to queue it, in the queue, or in the
    -- hands of a worker about to claim it.
    pub no_lost_job :
        {s : System} {r : Row} (id : Uuid)
        → CalmReach c q parse s
        → row_of id s.db ≡ some r
        → r.status ≡ queued
        → Waiting c q parse id s
    no_lost_job id reach there now =
        (CalmReach-IsCalm reach).waiting id (ground (arith, there, now))
