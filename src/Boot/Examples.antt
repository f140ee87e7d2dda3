-- ===== src/Boot/Examples.antt =====
-- A database that answers the third ping, and a process that connects to it (store.New and main).
use web_gobbler.Prelude.{◌*◌, str_eq, true, false, not, ltb, ◌≡◌, refl, arith, pos, none}
use web_gobbler.Store.Connect.{Server, Pauses}
use web_gobbler.Store.Connecting.{HowItEnds, new_store_lem}
use web_gobbler.Boot.{Outside, start_up, info}
use web_gobbler.Boot.Connected.{Explained, start_up_lem}
use web_gobbler.Boot.Settings.{worker_settings}

abbrev slow_server : Server
slow_server = record {
  parses = λ url. not (str_eq url "bad");
  makes_pool = λ config. true;
  ping = λ n. ltb 1 n;
  ctx_err = λ n. false;
  ctx_done = λ n. false;
  elapsed_ms = λ n. 500 * n;
}

slow_server-Pauses : Pauses slow_server
slow_server-Pauses n = omega arith

new_store_lem_example : HowItEnds slow_server "postgres://db"
new_store_lem_example = new_store_lem slow_server slow_server-Pauses "postgres://db"

abbrev composed : Outside
composed = record {
  getenv = λ key. key;
  server = slow_server;
  migrates = true;
  redis = record { parses = λ url. true; answers = λ url. true };
}

start_up_lem_example : Explained composed (start_up composed)
start_up_lem_example = start_up_lem composed slow_server-Pauses

-- The worker's settings where no variable is set.
default_settings :
    ((worker_settings (λ s. none) (λ key. "")).concurrency ≡ pos 5)
    × ((worker_settings (λ s. none) (λ key. "")).level ≡ info)
unfolding worker_settings
default_settings = (refl, refl)
