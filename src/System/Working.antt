-- ===== src/System/Working.antt =====
-- processJob of cmd/worker/main.go as steps of the system, with what others do while the job runs.
use web_gobbler.Prelude.{
  ℕ, Bool, true, false, Option, none, some, ◌≡◌, refl, sym, ap, subst, ◌∙◌, ◌⊎◌, inl, inr, arith,
  Option-cases,
}
use web_gobbler.Scraper.{Error, Result}
use web_gobbler.Queue.{JobPayload}
use web_gobbler.Queue.Redis.{PayloadCodec}
use web_gobbler.Store.Types.{Uuid, Time, Reply, ok, err}
use web_gobbler.Store.Table.{Db}
use web_gobbler.Store.Jobs.{claim_job}
use web_gobbler.Worker.Retry.{Pool, calculate_retries}
use web_gobbler.Worker.Process.{
  Metrics, Handled, panicked, handled, Setting, partial, run_kind, handle_job_result, process_job,
}
use web_gobbler.Worker.Publish.{publish}
use web_gobbler.System.{
  with_result, with_error, free, holding, running, System, set_worker, after_claim, reject, claim,
  finish, leave, depth,
}
use web_gobbler.System.Progress.{Later, stay, go, set_worker_same}

abbrev pub table_of : Handled → Db
table_of (panicked db) = db
table_of (handled db m) = db

module _ (setting : Setting) (pool : Pool) (q : PayloadCodec) where
  abbrev pub Goes : System → System → Type 0
  Goes = Later setting.codec q setting.parse_uuid

  pub Goes-append : {s t u : System} → Goes s t → Goes t u → Goes s u
  Goes-append stay later = later
  Goes-append (go st first) later = go st (Goes-append first later)

  -- A tick of the publisher of the queue's depth.
  publish-Goes :
      (put : ℕ → Bool) (gauge : ℕ) (s : System)
      → Goes s (record s { redis = (publish put (s.redis, gauge)).0 })
  unfolding publish
  publish-Goes put gauge s = go depth stay

  -- The worker has done with the job: it is free, or its process ends by a panic.
  abbrev pub Done : ℕ → Handled → System → Type 0
  Done i outcome t =
      (t.workers i ≡ free) ⊎ ((outcome ≡ panicked t.db) × (id : Uuid) × (t.workers i ≡ running id))

  -- The system after the worker's claim.
  abbrev pub claimed : System → ℕ → Uuid → Time → System
  claimed s i id now = record s {
    db = (claim_job id now s.db).1;
    workers = set_worker i (after_claim id (claim_job id now s.db).0) s.workers;
  }

  -- Some steps of others, from the claim to the end of the run, that make the table what the run
  -- says.
  pub record Meanwhile (s : System) (i : ℕ) (id : Uuid) (now : Time) : Type 0 where
    pub later : System
    pub steps : Goes (claimed s i id now) later
    pub table : later.db ≡ setting.table_after (claim_job id now s.db).1
    pub still : later.workers i ≡ (claimed s i id now).workers i

  abbrev pub Ends : System → ℕ → Handled → Type 0
  Ends s i outcome = (t : System) × Goes s t × (t.db ≡ table_of outcome) × Done i outcome t

  -- handleJobResult, from a state in which the worker runs the job.
  handle_job_result-Ends :
      (s : System) (i : ℕ) (id : Uuid) (now : Time) (r : Option Result) (e : Option Error)
      (m : Metrics)
      → s.workers i ≡ running id
      → Ends s i (
          handle_job_result setting.codec setting.error_text id now r e
            (calculate_retries r e)
            s.db
            m)
  unfolding handle_job_result calculate_retries
  handle_job_result-Ends s i id now none none m on = (s, stay, refl, inr (refl, id, on))
  handle_job_result-Ends s i id now (some r) none m on = (
    _,
    go (finish i id true (some r) none 0 now on (with_result r)) stay,
    refl,
    inl (set_worker_same i free s.workers),
  )
  handle_job_result-Ends s i id now none (some e) m on = (
    _,
    go
        (finish i id false none (some (setting.error_text e)) 1 now on
          (with_error none (setting.error_text e)))
        stay,
    refl,
    inl (set_worker_same i free s.workers),
  )
  handle_job_result-Ends s i id now (some r) (some e) m on = (
    _,
    go
        (finish i id false (partial (some r)) (some (setting.error_text e)) 1 now on
          (with_error (some r) (setting.error_text e)))
        stay,
    refl,
    inl (set_worker_same i free s.workers),
  )

  Ends-along : {s : System} {i : ℕ} {a b : Handled} → Ends s i a → b ≡ a → Ends s i b
  Ends-along {s} {i} ends same = subst (Ends s i) (sym same) ends

  Ends-after : {s u : System} {i : ℕ} {a : Handled} → Goes s u → Ends u i a → Ends s i a
  Ends-after steps (t, later, table, done) = (t, Goes-append steps later, table, done)

  pub answer-cases : (a : Reply Bool) → (a ≡ ok true) ⊎ (a ≡ ok false) ⊎ ((e : _) × (a ≡ err e))
  answer-cases (ok true) = inl refl
  answer-cases (ok false) = inr (inl refl)
  answer-cases (err e) = inr (inr (e, refl))

  -- The run of a claimed job.
  run-Ends :
      (s : System) (i : ℕ) (payload : JobPayload) (id : Uuid) (now end_time : Time) (m : Metrics)
      → s.workers i ≡ holding payload
      → setting.parse_uuid payload.job_id ≡ some id
      → (claim_job id now s.db).0 ≡ ok true
      → Meanwhile s i id now
      → Ends s i (process_job setting pool payload now end_time s.db m)
  unfolding process_job
  run-Ends s i payload id now end_time m on named won others =
      let on' : others.later.workers i ≡ running id =
        others.still ∙ set_worker_same i _ s.workers ∙ ap (after_claim id) won in
      Ends-after (go (claim i payload id now on named) others.steps)
        (elim (Option-cases (run_kind setting pool payload id (claim_job id now s.db).1)) [
          | inl stopped ↦ (
            _,
            go (leave i id on') stay,
            others.table ∙ ground (arith, named, won, stopped),
            inl (set_worker_same i free others.later.workers),
          )
          | inr (r, ran) ↦
              Ends-along
                (subst
                  (λ db. Ends others.later i (
                    handle_job_result setting.codec setting.error_text id end_time r.result r.error
                      (calculate_retries r.result r.error) db m))
                  others.table
                  (handle_job_result-Ends others.later i id end_time r.result r.error m on'))
                (ground (arith, named, won, ran))
        ])

  -- A worker that holds a message goes through processJob by steps of the system: from the state
  -- before it, with the steps of others during the run between its claim and its update, to a state
  -- with the table that processJob leaves, in which the worker is free, or, where processJob
  -- panics, still runs the job.
  pub process_job-Ends :
      (s : System) (i : ℕ) (payload : JobPayload) (now end_time : Time) (m : Metrics)
      → s.workers i ≡ holding payload
      → ((id : Uuid)
          → setting.parse_uuid payload.job_id ≡ some id
          → (claim_job id now s.db).0 ≡ ok true
          → Meanwhile s i id now)
      → Ends s i (process_job setting pool payload now end_time s.db m)
  unfolding process_job
  process_job-Ends s i payload now end_time m on others =
      elim (Option-cases (setting.parse_uuid payload.job_id)) [
        | inl unnamed ↦ (
          _,
          go (reject i payload on unnamed) stay,
          ground (arith, unnamed),
          inl (set_worker_same i free s.workers),
        )
        | inr (id, named) ↦ elim (answer-cases (claim_job id now s.db).0) [
          | inl won ↦ run-Ends s i payload id now end_time m on named won (others id named won)
          | inr (inl lost) ↦ (
            _,
            go (claim i payload id now on named) stay,
            ground (arith, named, lost),
            inl (set_worker_same i _ s.workers ∙ ap (after_claim id) lost),
          )
          | inr (inr (e, failed)) ↦ (
            _,
            go (claim i payload id now on named) stay,
            ground (arith, named, failed),
            inl (set_worker_same i _ s.workers ∙ ap (after_claim id) failed),
          )
        ]
      ]
