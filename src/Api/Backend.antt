-- ===== src/Api/Backend.antt =====
-- internal/api/handlers.go: the interfaces Store and Queue that the handlers are written against,
-- on a state that the operations share.
use web_gobbler.Prelude.{ℕ, ℤ, String, Bool, Option, List}
use web_gobbler.Queue.{JobPayload}
use web_gobbler.Store.Types.{Uuid, Time, Job, Reply}
use web_gobbler.Store.Jobs.{NewJob}

-- A Boolean tells whether an operation without a value succeeded.
pub record Backend (S : Type 0) : Type 0 where
  pub create_job : NewJob → S → Reply (Uuid × Time) × S
  pub get_job : Uuid → S → Reply Job × S
  pub list_jobs : ℤ → ℤ → String → S → Reply (List Job × ℕ) × S
  pub cancel_job : Uuid → S → Reply (Unit {0}) × S
  pub ping_store : S → Bool × S
  pub enqueue : JobPayload → S → Bool × S
  pub queue_depth : S → Option ℕ × S
  pub ping_queue : S → Bool × S

-- The state of the API process: the backend's, the gauge of the queue's depth, and the counter of
-- queued jobs.
pub record Serving (S : Type 0) : Type 0 where
  pub backend : S
  pub depth_gauge : ℕ
  pub queued_jobs : ℕ

-- How github.com/google/uuid reads and writes identifiers.
pub record Uuids : Type 0 where
  pub parse : String → Option Uuid
  pub format : Uuid → String
