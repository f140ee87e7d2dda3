-- ===== src/System/Traffic.antt =====
-- The API process from an empty table and queue on, before any worker starts (cmd/api/main.go).
use mathlib.Core.List.Memᴰ
use web_gobbler.Prelude.{ℕ, some, List, [], ◌∷◌, Memᴰ, ◌≡◌}
use web_gobbler.Queue.{JobPayload}
use web_gobbler.Queue.Redis.{PayloadCodec, IsFaithful}
use web_gobbler.Queue.Refines.{contents}
use web_gobbler.Store.Types.{Uuid, queued, Codec}
use web_gobbler.Store.Table.{Row}
use web_gobbler.Store.Laws.{row_of}
use web_gobbler.Server.{Request, Parts, Live, serve}
use web_gobbler.System.{Doing, free, System}
use web_gobbler.System.Backend.{Site}
use web_gobbler.System.Messages.{
  CalmReach, calm_here, calm_next, CanSend, Waiting, posted, sent, held,
}
use web_gobbler.System.Waiting.{no_lost_job}
use web_gobbler.System.Serving.{Passes, rest, pass, at}
use web_gobbler.System.Requests.{p, Posts, serve-Passes}

-- Requests one after the other.
abbrev pub serve_all :
    {S E L R : Type 0} → Parts S E L R → List (Request R) → Live S E L → Live S E L
serve_all parts [] x = x
serve_all parts (req ∷ reqs) x = serve_all parts reqs (serve parts req x).1

abbrev pub empty_site : Site
empty_site = record {
  db = record { rows = []; faults = [] };
  redis = record { items = []; faults = [] };
  clock = 0;
  made = 0;
}

abbrev pub empty_live : {E L : Type 0} → E → Live Site E L
empty_live e = record {
  serving = record { backend = empty_site; depth_gauge = 0; queued_jobs = 0 };
  llm = e;
  visitors = [];
  log = [];
}

module _ (c : Codec) (q : PayloadCodec) (fresh : ℕ → Uuid) (order : List Row → List Row)
    {E L R : Type 0} (parts : Parts Site E L R)
    (back : (n : ℕ) → parts.ids.parse (parts.ids.format (fresh n)) ≡ some (fresh n)) where
  abbrev pub no_workers : ℕ → Doing
  no_workers i = free

  abbrev pub process : Parts Site E L R
  process = p c q fresh order [] no_workers parts back

  abbrev seen : Live Site E L → System
  seen x = at c q fresh order process.ids [] no_workers x.serving

  Passes-CalmReach :
      {s t : System}
      → CalmReach c q parts.ids.parse s
      → Passes c q parts.ids.parse (CanSend c q parts.ids.parse) s t
      → CalmReach c q parts.ids.parse t
  Passes-CalmReach reach rest = reach
  Passes-CalmReach reach (pass st writes later) = Passes-CalmReach (calm_next reach st writes) later

  -- The messages that requests may queue can be written.
  abbrev pub Writes : Type 0
  Writes = Posts c q fresh order [] no_workers parts back (CanSend c q parts.ids.parse)

  serve_all-CalmReach :
      Writes
      → (reqs : List (Request R)) (x : Live Site E L) → CalmReach c q parts.ids.parse (seen x)
      → CalmReach c q parts.ids.parse (seen (serve_all process reqs x))
  serve_all-CalmReach writes [] x reach = reach
  serve_all-CalmReach writes (req ∷ reqs) x reach =
      serve_all-CalmReach writes reqs (serve process req x).1 (
        Passes-CalmReach reach (
          serve-Passes c q fresh order [] no_workers parts back (CanSend c q parts.ids.parse)
            (λ m there. absurd (Memᴰ.not-nil there)) writes req x))

  in_queue :
      (id : Uuid) (x : Live Site E L)
      → Waiting c q parts.ids.parse id (seen x)
      → (m : JobPayload) × (parts.ids.parse m.job_id ≡ some id)
        × Memᴰ (some m) (contents q x.serving.backend.redis.items)
  in_queue id x (posted m named there) = absurd (Memᴰ.not-nil there)
  in_queue id x (sent m named there) = (m, named, there)
  in_queue id x (held m named i h) = cc h

  -- After any requests to an API that began with an empty table and queue, where no statement or
  -- command fails, identifiers are read back as they are written, and the messages of requests can
  -- be written and are then read back: each job that is queued in the table has a message in the
  -- queue that names it.
  pub requests_queue_jobs :
      IsFaithful q
      → Writes
      → (reqs : List (Request R)) (e : E) (id : Uuid) {r : Row}
      → let x = serve_all process reqs (empty_live e) in
        row_of id x.serving.backend.db ≡ some r
        → r.status ≡ queued
        → (m : JobPayload) × (parts.ids.parse m.job_id ≡ some id)
          × Memᴰ (some m) (contents q x.serving.backend.redis.items)
  requests_queue_jobs faithful writes reqs e id there now =
      in_queue id (serve_all process reqs (empty_live e)) (
        no_lost_job c q parts.ids.parse faithful id
          (serve_all-CalmReach writes reqs (empty_live e) calm_here) there now)
