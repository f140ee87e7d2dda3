-- ===== src/System/Drained.antt =====
-- As many rounds of a worker as the queue has messages (cmd/worker/main.go, work) leave no job
-- queued.
use mathlib.Core.List.Memᴰ
use mathlib.Core.Option.{some-injective}
use web_gobbler.Prelude.{
  refl, ℕ, zero, suc, ◌⊎◌, String, Bool, true, false, Option, none, some, List, [], ◌∷◌, Memᴰ,
  length, ◌≡◌, ◌≢◌, sym, ap, subst, ◌∙◌, inl, inr, arith, Bool-cases, Option-cases,
}
use web_gobbler.Scraper.{Error, Result}
use web_gobbler.Queue.{JobPayload}
use web_gobbler.Queue.Redis.{PayloadCodec}
use web_gobbler.Queue.Refines.{contents}
use web_gobbler.Store.Types.{Uuid, Time}
use web_gobbler.Store.Table.{Db}
use web_gobbler.Store.Jobs.{claim_job, update_job, updated_row}
use web_gobbler.Store.Laws.{
  IsSound, row_of, if_queued, claimed, claim_answer, claim_job_lem, update_job_lem,
}
use web_gobbler.Store.History.{final_status, final_status-not_queued}
use web_gobbler.Worker.Retry.{Pool, calculate_retries}
use web_gobbler.Worker.Process.{
  Metrics, Handled, panicked, handled, Setting, partial, run_kind, handle_job_result, process_job,
}
use web_gobbler.System.Calm.{Changes-queued, Changes-settled}
use web_gobbler.System.Progress.{dequeue-head}
use web_gobbler.System.Working.{table_of}
use web_gobbler.System.Rounds.{Working, after_run, work_round, work_rounds}

abbrev IsQueued : Uuid → Db → Type 0
IsQueued j db = claim_answer (row_of j db) ≡ true

-- The job is no longer queued, and no job is queued anew.
record Settled (id : Uuid) (db db' : Db) : Type 0 where
  pub sound : IsSound db'
  pub fewer : (j : Uuid) → IsQueued j db' → IsQueued j db
  pub gone : ¬ IsQueued id db'

claim-Settled :
    (id : Uuid) (now : Time) (db : Db) → IsSound db → Settled id db (claim_job id now db).1
claim-Settled id now db sound =
    let (answer, changes, kept) = claim_job_lem id db sound now in
    let settled =
      Changes-settled id (if_queued (claimed now)) db (claim_job id now db).1 (λ r. ground arith)
        changes in
    record {
      sound = kept;
      fewer =
          Changes-queued id (if_queued (claimed now)) db (claim_job id now db).1
            (λ r e. ground arith) changes;
      gone = λ h. cc (h, settled);
    }

module _ (setting : Setting) (id : Uuid) (now : Time) where
  update-Settled :
      (done : Bool) (result : Option Result) (text : Option String) (retries : ℕ) (db d : Db)
      → Settled id db d
      → Settled id db (update_job setting.codec id (final_status done) result text retries now d).1
  update-Settled done result text retries db d v =
      let (answer, changes, kept) =
        update_job_lem id d v.sound setting.codec (final_status done) result text retries now in
      let back =
        Changes-queued id (updated_row setting.codec (final_status done) result text retries now) d
          (update_job setting.codec id (final_status done) result text retries now d).1
          (λ r e. unfold updated_row in ground (arith, e, final_status-not_queued done)) changes in
      record { sound = kept; fewer = λ j h. v.fewer j (back j h); gone = λ h. v.gone (back id h) }

  handle_job_result-Settled :
      (r : Option Result) (e : Option Error) (retries : ℕ) (m : Metrics) (db d : Db)
      → Settled id db d
      → Settled id db
          (table_of (handle_job_result setting.codec setting.error_text id now r e retries d m))
  unfolding handle_job_result
  handle_job_result-Settled none none retries m db d v = v
  handle_job_result-Settled (some r) none retries m db d v =
      update-Settled true (some r) none retries db d v
  handle_job_result-Settled r (some e) retries m db d v =
      update-Settled false (partial r) (some (setting.error_text e)) retries db d v

module _ (setting : Setting) (pool : Pool) (quiet : (d : Db) → setting.table_after d ≡ d) where
  abbrev left : JobPayload → Time → Time → Metrics → Db → Db
  left payload now end_time m db = table_of (process_job setting pool payload now end_time db m)

  process_job-Settled :
      (payload : JobPayload) (id : Uuid) (now end_time : Time) (m : Metrics) (db : Db)
      → IsSound db
      → setting.parse_uuid payload.job_id ≡ some id
      → Settled id db (left payload now end_time m db)
  unfolding process_job
  process_job-Settled payload id now end_time m db sound named =
      let v = claim-Settled id now db sound in
      let (answer, changes, kept) = claim_job_lem id db sound now in
      let db₁ : Db = (claim_job id now db).1 in
      elim (Bool-cases (claim_answer (row_of id db))) [
        | inr lost ↦ subst (Settled id db) (sym (ground (arith, named, answer, lost))) v
        | inl won ↦ elim (Option-cases (run_kind setting pool payload id db₁)) [
          | inl stopped ↦
              subst (Settled id db) (sym (ground (arith, named, answer, won, stopped, quiet db₁))) v
          | inr (r, ran) ↦
              let retries = calculate_retries r.result r.error in
              let same : process_job setting pool payload now end_time db m
                  ≡ handle_job_result setting.codec setting.error_text id end_time r.result r.error
                      retries db₁ m =
                ground (arith, named, answer, won, ran, quiet db₁) in
              subst (Settled id db) (ap table_of (sym same))
                (handle_job_result-Settled setting id end_time r.result r.error retries m db db₁ v)
        ]
      ]

  -- A message with no identifier is left alone, and any other settles its job.
  process_job-fewer :
      (payload : JobPayload) (now end_time : Time) (m : Metrics) (db : Db)
      → IsSound db
      → IsSound (left payload now end_time m db)
        × ((j : Uuid)
            → IsQueued j (left payload now end_time m db)
            → IsQueued j db × (setting.parse_uuid payload.job_id ≢ some j))
  unfolding process_job
  process_job-fewer payload now end_time m db sound =
      elim (Option-cases (setting.parse_uuid payload.job_id)) [
        | inl unnamed ↦
            let same : left payload now end_time m db ≡ db = ground (arith, unnamed) in
            (
              subst IsSound (sym same) sound,
              λ j h. (subst (IsQueued j) same h, λ named. cc (unnamed, named)),
            )
        | inr (id, named) ↦
            let v = process_job-Settled payload id now end_time m db sound named in
            (
              v.sound,
              λ j h. (
                v.fewer j h,
                λ names. v.gone (
                    subst (λ k. IsQueued k (left payload now end_time m db))
                      (some-injective _ _ (sym names ∙ named)) h),
              ),
            )
      ]

  module _ (q : PayloadCodec) where
    -- A message in the list that names the job.
    abbrev pub Named : Uuid → List (Option JobPayload) → Type 0
    Named id ms = (m : JobPayload) × (setting.parse_uuid m.job_id ≡ some id) × Memᴰ (some m) ms

    -- Each queued job has a message, and nothing is refused.
    pub record Covered (ms : List (Option JobPayload)) (s : Working) : Type 0 where
      pub sound : IsSound s.db
      pub still : s.redis.faults ≡ []
      pub list : contents q s.redis.items ≡ ms
      pub named : (id : Uuid) → IsQueued id s.db → Named id ms
      pub up : s.down ≡ false

    -- processJob panics for the message, on some table.
    abbrev pub Panics : JobPayload → Type 0
    Panics m =
        (now end_time : Time) × (metrics : Metrics) × (db after : Db) × (process_job setting pool m
            now end_time db metrics
          ≡ panicked after)

    -- The process has ended by the panic of one of the messages.
    abbrev pub Ended : List (Option JobPayload) → Working → Type 0
    Ended ms s = (s.down ≡ true) × (m : JobPayload) × Memᴰ (some m) ms × Panics m

    Named-rest :
        (id : Uuid) (m : Option JobPayload) (rest : List (Option JobPayload))
        → Named id (m ∷ rest)
        → ((x : JobPayload) → m ≡ some x → setting.parse_uuid x.job_id ≢ some id)
        → Named id rest
    Named-rest id m rest (x, named, there) other = elim (Memᴰ.cases_cons there) [
      | inl same ↦ absurd (other x (sym same) named)
      | inr later ↦ (x, named, later)
    ]

    after_run-cases :
        (m : JobPayload) (h : Handled) (s : Working) (rest : List (Option JobPayload))
        → s.down ≡ false
        → (h ≡ process_job setting pool m s.clock (suc s.clock) s.db s.metrics)
        → IsSound (table_of h)
        → s.redis.faults ≡ []
        → contents q s.redis.items ≡ rest
        → ((id : Uuid) → IsQueued id (table_of h) → Named id rest)
        → Covered rest (after_run setting pool q h s)
          ⊎ (((after_run setting pool q h s).down ≡ true) × Panics m)
    after_run-cases m (panicked db) s rest up ran sound still e named =
        inr (refl, (s.clock, suc s.clock, s.metrics, s.db, db, sym ran))
    after_run-cases m (handled db metrics) s rest up ran sound still e named =
        inl (record { sound = sound; still = still; list = e; named = named; up = up })

    abbrev Head : Option JobPayload → Working → Type 0
    Head m s = (s.down ≡ true) × (x : JobPayload) × (m ≡ some x) × Panics x

    round-cases :
        (m : Option JobPayload) (rest : List (Option JobPayload)) (s : Working)
        → Covered (m ∷ rest) s
        → Covered rest (work_round setting pool q s) ⊎ Head m (work_round setting pool q s)
    unfolding work_round
    round-cases none rest s v =
        let (redis, taken_off, left_over, still) =
          dequeue-head setting.codec q setting.parse_uuid s.redis v.still v.list in
        rw (v.up, taken_off)
          (inl (record {
            sound = v.sound;
            still = still;
            list = left_over;
            named = λ id h. Named-rest id none rest (v.named id h) (λ x e. cc e);
            up = refl;
          }))
    round-cases (some m) rest s v =
        let (redis, taken_off, left_over, still) =
          dequeue-head setting.codec q setting.parse_uuid s.redis v.still v.list in
        let (sound, fewer) = process_job-fewer m s.clock (suc s.clock) s.metrics s.db v.sound in
        let outcome = process_job setting pool m s.clock (suc s.clock) s.db s.metrics in
        let after : Working = after_run setting pool q outcome (record s { redis = redis }) in
        let same : work_round setting pool q s ≡ after = ground (arith, v.up, taken_off) in
        elim (after_run-cases m outcome (record s { redis = redis }) rest v.up refl sound still
          left_over
          (λ id h.
            let (before, other) = fewer id h in
            Named-rest id (some m) rest (v.named id before) (λ x e names.
              other (ap (λ y. setting.parse_uuid y.job_id) (some-injective _ _ e) ∙ names)))) [
                | inl covered ↦ inl (subst (Covered rest) (sym same) covered)
                | inr (down, panics) ↦ inr (ap (λ t. t.down) same ∙ down, m, refl, panics)
              ]

    rounds_down :
        (n : ℕ) (s : Working) → s.down ≡ true → (work_rounds setting pool q n s).down ≡ true
    unfolding work_rounds work_round
    rounds_down zero s h = h
    rounds_down (suc n) s h = rounds_down n (work_round setting pool q s) (rw h refl)

    rounds-cases :
        (ms : List (Option JobPayload)) (s : Working)
        → Covered ms s
        → Covered [] (work_rounds setting pool q (length ms) s)
          ⊎ Ended ms (work_rounds setting pool q (length ms) s)
    unfolding work_rounds
    rounds-cases [] s v = inl v
    rounds-cases (m ∷ rest) s v = elim (round-cases m rest s v) [
      | inr (down, x, same, panics) ↦ inr (
        rounds_down (length rest) (work_round setting pool q s) down,
        x,
        Memᴰ.head (sym same),
        panics,
      )
      | inl covered ↦ elim (rounds-cases rest (work_round setting pool q s) covered) [
        | inl done ↦ inl done
        | inr (down, x, there, panics) ↦ inr (down, x, Memᴰ.tail there, panics)
      ]
    ]

    -- What rounds have come to: no job is queued, or the process has ended.
    abbrev pub Drained : List (Option JobPayload) → Working → Type 0
    Drained ms s =
        ((s.down ≡ false) × ((id : Uuid) → claim_answer (row_of id s.db) ≡ false)) ⊎ Ended ms s

    -- Where no statement or command fails and the jobs of a run are changed by its worker alone: if
    -- each queued job has a message in the queue that names it, then after as many rounds of a
    -- worker as there are messages no job is queued, unless processJob panicked for one of the
    -- messages, which ends the process.
    pub work_rounds-drain :
        (ms : List (Option JobPayload)) (s : Working)
        → Covered ms s
        → Drained ms (work_rounds setting pool q (length ms) s)
    work_rounds-drain ms s v = elim (rounds-cases ms s v) [
      | inr ended ↦ inr ended
      | inl done ↦ inl (
        done.up,
        λ id.
            elim (Bool-cases
              (claim_answer (row_of id (work_rounds setting pool q (length ms) s).db))) [
                | inl there ↦ let (m, names, mem) = done.named id there in absurd (Memᴰ.not-nil mem)
                | inr none_there ↦ none_there
              ],
      )
    ]
