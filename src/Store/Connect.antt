-- ===== src/Store/Connect.antt =====
-- internal/store/store.go: New, which pings the database until it answers, for a minute.
use web_gobbler.Prelude.{ℕ, zero, suc, ◌+◌, ◌≤◌, String, Bool, not, ltb, if◌then◌else◌}

-- The settings of the pool, the time in milliseconds.
pub record PoolConfig : Type 0 where
  pub url : String
  pub max_conns : ℕ
  pub connect_timeout : ℕ

-- pgxpool and the surroundings of the loop: whether the URL parses, whether a pool is made, whether
-- a ping is answered, whether the context has ended after it or ends in the pause that follows, and
-- the milliseconds from the start of the loop to the look at the clock after it.
pub record Server : Type 0 where
  pub parses : String → Bool
  pub makes_pool : PoolConfig → Bool
  pub ping : ℕ → Bool
  pub ctx_err : ℕ → Bool
  pub ctx_done : ℕ → Bool
  pub elapsed_ms : ℕ → ℕ

pub data ConnectError : Type 0 where
  bad_config no_pool ctx_ended ping_failed : ConnectError

-- What New leaves behind where it fails.
pub data Left : Type 0 where
  unmade closed : Left

pub data Connection : Type 0 where
  opened : PoolConfig → Connection
  refused : ConnectError → Left → Connection
  out_of_fuel : Connection

abbrev pub pool_config : String → PoolConfig
pool_config url = record { url = url; max_conns = 10; connect_timeout = 5000 }

module _ (srv : Server) where
  unfoldable pub ping_loop : PoolConfig → ℕ → ℕ → Connection
  ping_loop config zero n = out_of_fuel
  ping_loop config (suc fuel) n =
      let rest = ping_loop config fuel (suc n) in
      if srv.ping n
      then opened config
      else if srv.ctx_err n
      then refused ctx_ended closed
      else if ltb 60_000 (srv.elapsed_ms n)
      then refused ping_failed closed
      else if srv.ctx_done n
      then refused ctx_ended closed
      else rest

  -- The pause is half a second, so that 121 pings take more than a minute.
  abbrev pub most_pings : ℕ
  most_pings = 122

  -- New
  unfoldable pub new_store : String → Connection
  unfolding ping_loop
  new_store url =
      if not (srv.parses url)
      then refused bad_config unmade
      else if not (srv.makes_pool (pool_config url))
      then refused no_pool unmade
      else ping_loop (pool_config url) most_pings 0

  -- time.After(500 * time.Millisecond) between one look at the clock and the next.
  abbrev pub Pauses : Type 0
  Pauses = (n : ℕ) → srv.elapsed_ms n + 500 ≤ srv.elapsed_ms (suc n)
