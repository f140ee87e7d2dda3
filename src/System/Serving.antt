-- ===== src/System/Serving.antt =====
-- Every request to the API, over internal/store and internal/queue, as steps of the system.
use mathlib.Core.List.Memᴰ
use web_gobbler.Prelude.{
  ℕ, ℤ, pos, String, Bool, true, false, Option, none, some, List, [], ◌∷◌, Memᴰ, ◌||◌, ◌≡◌, refl,
  sym, subst, ◌⊎◌, inl, inr, arith, Bool-cases, Option-cases,
}
use web_gobbler.Queue.{JobPayload}
use web_gobbler.Queue.Redis.{PayloadCodec, enqueue}
use web_gobbler.Store.Types.{Uuid, Time, StoreError, db_failed, ok, err, Codec}
use web_gobbler.Store.Table.{Row, Db, next_fault}
use web_gobbler.Store.Jobs.{NewJob, new_row, create_job, encode_options, is_taken}
use web_gobbler.Store.Listing.{page_or_one, limit_or_20}
use web_gobbler.Extract.{Extractor}
use web_gobbler.Api.Types.{RequestOptions, ExtractRequest, Response}
use web_gobbler.Api.Validator.{Strings, Invalid}
use web_gobbler.Api.Listing.{query_or, refused, handle_list_jobs}
use web_gobbler.Api.Extraction.{extract_problem, handle_extract}
use web_gobbler.Api.Backend.{Serving, Uuids}
use web_gobbler.Api.Convert.{request_to_job_options, to_payload_options}
use web_gobbler.Api.Handlers.{accept_job, checked, handle_get_job, handle_delete_job, handle_health}
use web_gobbler.System.{
  Doing, System, Step, create, create_fails, send, cancel, read, list, ping_db, depth, ping_redis,
}
use web_gobbler.System.Backend.{Site, site_backend}
use web_gobbler.System.Progress.{Later, stay, go}

module _ (c : Codec) (q : PayloadCodec) (parse : String → Option Uuid)
    (Ok : JobPayload → Type 0) where
  -- Some steps, after each of which the messages of the requests are as they should be.
  pub data Passes : System → System → Type 0 where
    rest : {s : System} → Passes s s
    pass :
        {s t u : System}
        → Step c q parse s t
        → ((m : JobPayload) → Memᴰ m t.posting → Ok m)
        → Passes t u
        → Passes s u

  pub Passes-Later : {s t : System} → Passes s t → Later c q parse s t
  Passes-Later rest = stay
  Passes-Later (pass st kept later) = go st (Passes-Later later)

module _ (c : Codec) (q : PayloadCodec) (fresh : ℕ → Uuid) (order : List Row → List Row)
    (ids : Uuids) (posting : List JobPayload) (workers : ℕ → Doing) where
  -- The system with the table and the queue of the site.
  abbrev pub at : Serving Site → System
  at s = record { db = s.backend.db; redis = s.backend.redis; posting = posting; workers = workers }

  -- What acceptJob queues.
  abbrev pub message : String → String → List String → Option RequestOptions → ℕ → JobPayload
  message kind url extract opts n = record {
    job_id = ids.format (fresh n);
    kind = kind;
    url = url;
    extract = extract;
    options = to_payload_options (some (request_to_job_options opts));
  }

  -- CreateJob's outcome.
  create_job-cases :
      (id : Uuid) (now : Time) (job : NewJob) (db : Db)
      → ((db' : Db) × (create_job c id now job db ≡ (ok (id, now), db')))
        ⊎ ((e : StoreError) × (db' : Db) × (create_job c id now job db ≡ (err e, db')))
  unfolding create_job
  create_job-cases id now job db = elim (Option-cases (encode_options c job.options)) [
    | inl e ↦ inr (db_failed, db, ground (arith, e))
    | inr (o, e) ↦ elim (Bool-cases ((next_fault db).0 || is_taken id (next_fault db).1.rows)) [
      | inl refused ↦ inr (db_failed, (next_fault db).1, ground (arith, e, refused))
      | inr taken ↦ inl (
        record (next_fault db).1 { rows = new_row id now job o ∷ (next_fault db).1.rows },
        ground (arith, e, taken),
      )
    ]
  ]

  module _ (Ok : JobPayload → Type 0) (fine : (m : JobPayload) → Memᴰ m posting → Ok m) where
    abbrev pub Goes : System → System → Type 0
    Goes = Passes c q ids.parse Ok

    pub along : {s t u : System} → Goes s t → u ≡ t → Goes s u
    along steps same = subst (Goes _) (sym same) steps

    -- acceptJob: CreateJob, Enqueue and QueueDepth.
    pub accept_job-Goes :
        ((n : ℕ) → ids.parse (ids.format (fresh n)) ≡ some (fresh n))
        → (kind url : String) (extract : List String) (opts : Option RequestOptions)
        → ((n : ℕ) → Ok (message kind url extract opts n))
        → (s : Serving Site)
        → Goes (at s) (at (accept_job (site_backend c q fresh order) ids kind url extract opts s).1)
    unfolding accept_job
    accept_job-Goes back kind url extract opts allowed s =
        elim (create_job-cases id now job s.backend.db) [
          | inr (x, db, e) ↦
              along (pass (create_fails id now x job e) fine rest) (ground (arith, e))
          | inl (db, e) ↦ elim (Bool-cases (enqueue q payload s.backend.redis).0) [
            | inl sent ↦
                along
                  (pass (create id now job payload e (back s.backend.made)) posted
                    (pass (send [] posting payload refl) fine (pass depth fine rest)))
                  (ground (arith, e, sent))
            | inr kept ↦
                along
                  (pass (create id now job payload e (back s.backend.made)) posted
                    (pass (send [] posting payload refl) fine rest))
                  (ground (arith, e, kept))
          ]
        ]
      where
        id : Uuid
        id = fresh s.backend.made

        now : Time
        now = s.backend.clock

        job : NewJob
        job = record { url = url; extract = extract; options = some (request_to_job_options opts) }

        payload : JobPayload
        payload = message kind url extract opts s.backend.made

        posted : (m : JobPayload) → Memᴰ m (payload ∷ posting) → Ok m
        posted m there = elim (Memᴰ.cases_cons there) [
          | inl same ↦ subst Ok (sym same) (allowed s.backend.made)
          | inr later ↦ fine m later
        ]

    -- The checks of a request before its job is accepted.
    pub checked-Goes :
        {R : Type 0} (strings : Strings) (validate : R → Option Invalid)
        (run : R → Serving Site → Response × Serving Site)
        → (body : Option R)
        → ((req : R) → body ≡ some req → (s : Serving Site) → Goes (at s) (at (run req s).1))
        → (s : Serving Site)
        → Goes
            (at s)
            (at (checked (site_backend c q fresh order) ids strings validate run body s).1)
    checked-Goes strings validate run none steps s = rest
    checked-Goes strings validate run (some req) steps s = elim (Option-cases (validate req)) [
      | inl e ↦ along (steps req refl s) (ground (arith, e))
      | inr (x, e) ↦ along rest (ground (arith, e))
    ]

    pub list_jobs-Goes :
        (atoi : String → ℤ) (page limit : Option String) (filter : String) (s : Serving Site)
        → Goes
            (at s)
            (at (handle_list_jobs (site_backend c q fresh order) atoi page limit filter s).1)
    unfolding handle_list_jobs
    list_jobs-Goes atoi page limit filter s = elim (Bool-cases (refused filter)) [
      | inl e ↦ along rest (ground (arith, e))
      | inr e ↦
          along
            (pass
              (list order (pos (page_or_one (atoi (query_or page "1"))))
                (pos (limit_or_20 (atoi (query_or limit "20")))) filter)
              fine rest)
            (ground (arith, e))
    ]

    pub get_job-Goes :
        (text : String) (s : Serving Site)
        → Goes (at s) (at (handle_get_job (site_backend c q fresh order) ids text s).1)
    unfolding handle_get_job
    get_job-Goes text s = elim (Option-cases (ids.parse text)) [
      | inl e ↦ along rest (ground (arith, e))
      | inr (id, e) ↦ along (pass (read id) fine rest) (ground (arith, e))
    ]

    pub delete_job-Goes :
        (text : String) (s : Serving Site)
        → Goes (at s) (at (handle_delete_job (site_backend c q fresh order) ids text s).1)
    unfolding handle_delete_job
    delete_job-Goes text s = elim (Option-cases (ids.parse text)) [
      | inl e ↦ along rest (ground (arith, e))
      | inr (id, e) ↦ along (pass (cancel id s.backend.clock) fine rest) (ground (arith, e))
    ]

    pub health-Goes :
        (s : Serving Site) → Goes (at s) (at (handle_health (site_backend c q fresh order) ids s).1)
    unfolding handle_health
    health-Goes s = pass ping_db fine (pass ping_redis fine rest)

    pub extract-Goes :
        {E : Type 0} (trim_space : String → String) (enabled : Bool) (x : Option (Extractor E))
        (text : String) (body : Option ExtractRequest) (s : Serving Site) (e : E)
        → Goes (at s) (
            at
              (handle_extract
                (site_backend c q fresh order)
                ids
                trim_space
                enabled
                x
                text
                body
                s
                e).1.0)
    unfolding handle_extract
    extract-Goes trim_space enabled none text body s e = rest
    extract-Goes trim_space false (some x) text body s e = rest
    extract-Goes trim_space true (some x) text body s e = elim (Option-cases (ids.parse text)) [
      | inl none_read ↦ along rest (ground (arith, none_read))
      | inr (id, named) ↦ elim (Option-cases body) [
        | inl unread ↦ along rest (ground (arith, named, unread))
        | inr (req, there) ↦ elim (Option-cases (extract_problem trim_space req)) [
          | inl sound ↦ along (pass (read id) fine rest) (ground (arith, named, there, sound))
          | inr (answer, bad) ↦ along rest (ground (arith, named, there, bad))
        ]
      ]
    ]
