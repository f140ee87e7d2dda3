-- ===== src/Boot.antt =====
-- The beginning of both processes (cmd/api/main.go, cmd/worker/main.go): the environment, the log
-- level, and the connections to the database (internal/store/store.go, New and migrate.go) and to
-- Redis (internal/queue/queue.go, New).
pub mod Connected
pub mod Settings
pub mod Examples
use web_gobbler.Prelude.{
  String, str_eq, Bool, true, false, not, ◌||◌, Option, none, some, if◌then◌else◌,
}
use web_gobbler.Store.Connect.{
  PoolConfig, Server, ConnectError, Left, Connection, opened, refused, out_of_fuel, new_store,
}

-- getEnv, on os.Getenv, empty where a variable is not set.
unfoldable pub get_env : (String → String) → String → String → String
get_env getenv key fallback = if str_eq (getenv key) "" then fallback else getenv key

abbrev or_else {ℓ} : {A : Type ℓ} → Option A → A → A
or_else none fallback = fallback
or_else (some a) fallback = a

-- getEnvInt and getEnvFloat, by what fmt.Sscanf or strconv.Atoi makes of a text.
unfoldable pub get_env_read {ℓ} :
    {A : Type ℓ} → (String → Option A) → (String → String) → String → A → A
get_env_read read getenv key fallback =
    if str_eq (getenv key) "" then fallback else or_else (read (getenv key)) fallback

pub data Level : Type 0 where
  debug info warn errors : Level

-- setupLogger
unfoldable pub level_of : String → Level
level_of text =
    if str_eq text "DEBUG"
    then debug
    else if str_eq text "INFO"
    then info
    else if str_eq text "WARN"
    then warn
    else if str_eq text "ERROR"
    then errors
    else info

-- go-redis: whether a URL parses, and whether the server behind it answers a ping.
pub record RedisServer : Type 0 where
  pub parses : String → Bool
  pub answers : String → Bool

pub data QueueError : Type 0 where
  bad_url no_answer : QueueError

pub data Dialled : Type 0 where
  dialled : String → Dialled
  not_dialled : QueueError → Left → Dialled

-- queue.New
unfoldable pub new_queue : RedisServer → String → Dialled
new_queue redis url =
    if not (redis.parses url)
    then not_dialled bad_url Left.unmade
    else if not (redis.answers url)
    then not_dialled no_answer Left.closed
    else dialled url

-- The outside of a starting process; `migrates` is whether the statement of Migrate succeeds.
pub record Outside : Type 0 where
  pub getenv : String → String
  pub server : Server
  pub migrates : Bool
  pub redis : RedisServer

-- Why main calls os.Exit(1).
pub data Reason : Type 0 where
  no_urls no_schema : Reason
  no_store : ConnectError → Reason
  no_queue : QueueError → Reason

pub data Start : Type 0 where
  started : PoolConfig → String → Start
  exits : Reason → Start
  unfinished : Start

module _ (o : Outside) where
  abbrev pub database_url : String
  database_url = o.getenv "DATABASE_URL"

  abbrev pub redis_url : String
  redis_url = o.getenv "REDIS_URL"

  abbrev start_queue : PoolConfig → Dialled → Start
  start_queue config (dialled url) = started config url
  start_queue config (not_dialled e left) = exits (no_queue e)

  abbrev pub start_store : Connection → Start
  start_store (opened config) =
      if not o.migrates then exits no_schema else start_queue config (new_queue o.redis redis_url)
  start_store (refused e left) = exits (no_store e)
  start_store out_of_fuel = unfinished

  -- Both mains, up to the queue.
  unfoldable pub start_up : Start
  unfolding new_queue new_store
  start_up =
      if str_eq database_url "" || str_eq redis_url ""
      then exits no_urls
      else start_store (new_store o.server database_url)
