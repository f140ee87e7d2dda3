-- ===== src/System/Backend.antt =====
-- The store and the queue behind the handlers: internal/store and internal/queue fill the
-- interfaces that internal/api is written against (cmd/api/main.go hands them to NewHandler).
use web_gobbler.Prelude.{ℕ, suc, List}
use web_gobbler.Queue.Redis
use web_gobbler.Queue.Redis.{Redis, PayloadCodec}
use web_gobbler.Store.Types.{Uuid, Time, Codec}
use web_gobbler.Store.Table.{Row, Db}
use web_gobbler.Store.Jobs.{create_job, get_job, cancel_job, ping_store}
use web_gobbler.Store.Listing.{list_jobs}
use web_gobbler.Api.Backend.{Backend}

-- The table, the queue, the time, and how many identifiers the database has made.
pub record Site : Type 0 where
  pub db : Db
  pub redis : Redis
  pub clock : Time
  pub made : ℕ

-- A statement is made at an instant, and no two are made at one.
abbrev after : {A : Type 0} → A × Db → Site → A × Site
after (answer, db) s = (answer, record s { db = db; clock = suc s.clock })

abbrev sent : {A : Type 0} → A × Redis → Site → A × Site
sent (answer, redis) s = (answer, record s { redis = redis })

abbrev made_one : {A : Type 0} → A × Site → A × Site
made_one (answer, s) = (answer, record s { made = suc s.made })

-- `fresh` are the identifiers of gen_random_uuid(), `order` is what ORDER BY does.
abbrev pub site_backend : Codec → PayloadCodec → (ℕ → Uuid) → (List Row → List Row) → Backend Site
site_backend c q fresh order = record {
  create_job = λ job s. made_one (after (create_job c (fresh s.made) s.clock job s.db) s);
  get_job = λ id s. after (get_job c id s.db) s;
  list_jobs = λ page limit filter s. after (list_jobs c order page limit filter s.db) s;
  cancel_job = λ id s. after (cancel_job id s.clock s.db) s;
  ping_store = λ s. after (ping_store s.db) s;
  enqueue = λ payload s. sent (Redis.enqueue q payload s.redis) s;
  queue_depth = λ s. sent (Redis.queue_depth s.redis) s;
  ping_queue = λ s. sent (Redis.ping s.redis) s;
}
