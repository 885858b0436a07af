-- ===== src/Tests/Serve.antt =====
-- internal/server at concrete inputs: whole requests, and a server that starts.
use windows_llmmanager.Base.{
  ℕ, ◌≡◌, ◌⊎◌, refl, string_eq, List, [], ◌∷◌, ◌++◌, Bool, true, none, some,
}
use windows_llmmanager.Base.Dict.{lookup}
use windows_llmmanager.Base.Int
use windows_llmmanager.Base.Outcome.{ok}
use windows_llmmanager.Api.{Bytes}
use windows_llmmanager.Text.{codes, trim_space, trim_left, trim_right}
use windows_llmmanager.Config.{Host, Config, default_config, first_error, validate}
use windows_llmmanager.Config.Bounds.{validate-IsUsable}
use windows_llmmanager.Jobs.Defs.{new_manager}
use windows_llmmanager.Powershell.Session.{new_session_manager}
use windows_llmmanager.Powershell.Owned.{IsAlive}
use windows_llmmanager.Powershell.Runner.{new_runner}
use windows_llmmanager.Security.Auth.{token_auth, load_token}
use windows_llmmanager.Security.Blocklist.{new_blocklist}
use windows_llmmanager.Security.RateLimiter.{new_limiter}
use windows_llmmanager.Updater.Host.{Stat, not_there}
use windows_llmmanager.Server.Handlers.{handle_kill_switch}
use windows_llmmanager.Server.Serve.{post_session, Server, Incoming, serve, Admitted, serve-guarded}
use windows_llmmanager.Server.Sound.{Drawn}
use windows_llmmanager.Server.Start.{new_server, new_state, start, close_sessions}
use windows_llmmanager.Server.Steps.{Reach, here, next, serves}
use windows_llmmanager.Agent.Service.{
  ServiceEvent, requested, interrogate, stop, service_loop, execute, reports_stop, Phase,
  jobs_closed, ShuttingDown, IsClosed, execute-stops,
}

abbrev any_json : Bytes → Bool
any_json b = true

abbrev marshal : List Bytes → Bytes
marshal lines = codes "[]"

abbrev digest : Bytes → Bytes
digest b = b

abbrev server : Server
server = record {
  gate = record {
    blocklist = new_blocklist 3;
    limiter = new_limiter 5 10;
    auth = token_auth digest (codes "secret");
    threshold = 3;
    written = [];
  };
  state = record {
    kill_file = not_there;
    runner = new_runner;
    jobs = new_manager 2 3 (Int.pos 100);
    sessions = new_session_manager 2 (Int.pos 1000);
    written = [];
  };
  long_timeout = 7200;
  update_interval = Int.pos 20;
  started_at = 0;
}

abbrev incoming : Incoming
incoming = record {
  ip = "10.0.0.1";
  now = 7;
  header = codes "Bearer secret";
  request = post_session (some "a") true;
}

serve-guarded_example :
    ((serve any_json marshal digest incoming server).0.state ≡ server.state)
    ⊎ Admitted any_json marshal digest incoming server.gate
serve-guarded_example = serve-guarded any_json marshal digest incoming server

abbrev host : Host
host = record {
  splits_host_port = λ address. true;
  parses_ip = λ address. true;
  join = λ names. "C:/agent/file";
}

abbrev defaults : Config
defaults = default_config host "C:/agent"

defaults-valid : validate host defaults ≡ none
unfolding validate first_error default_config string_eq
defaults-valid = refl

abbrev token : Bytes
token = codes "0123456789abcdef0123456789abcdef0123456789abcdef"

abbrev started : Stat → Server
started kill_file = record {
  gate = record {
    blocklist = new_blocklist 5;
    limiter = new_limiter 10 20;
    auth = token_auth digest token;
    threshold = 5;
    written = [];
  };
  state = new_state defaults kill_file;
  long_timeout = 7200;
  update_interval = Int.pos 20;
  started_at = 5;
}

starts :
    (kill_file : Stat)
    → new_server digest defaults (some token) true kill_file 5 ≡ ok (started kill_file)
unfolding new_server load_token trim_space trim_left trim_right default_config
starts kill_file = refl

abbrev session_request : Incoming
session_request = record {
  ip = "10.0.0.1";
  now = 7;
  header = codes "Bearer " ++ token;
  request = post_session (some "a") true;
}

-- A server that has been asked for a session.
abbrev running : Server
running = (serve any_json marshal digest session_request (started not_there)).0

Drawn-at_start : (kill_file : Stat) → Drawn session_request.request (started kill_file).state
unfolding new_state new_session_manager lookup
Drawn-at_start kill_file = refl

-- The same request, sent once the kill switch is armed.
abbrev armed : Server
armed = record running { state = (handle_kill_switch true running.state).0 }

-- Armed, but the file is removed, and a request for a session is served.
abbrev disarmed : Server
disarmed = record armed { state = record armed.state { kill_file = not_there } }

abbrev served_disarmed : Server
served_disarmed = (serve any_json marshal digest session_request disarmed).0

to_running : Reach any_json marshal digest true (started not_there) running
to_running = next here (serves session_request (Drawn-at_start not_there))

abbrev events : List (Server × ServiceEvent)
events = (started not_there, requested interrogate) ∷ (running, requested stop) ∷ []

stop_reported : reports_stop (execute (ok (started not_there)) (start true true) events).0 ≡ true
unfolding execute service_loop reports_stop start
stop_reported = refl

execute-stops_example :
    (p : Server) × ((execute (ok (started not_there)) (start true true) events).1
      ≡ some (record { code = 0; shuts_down = some p }))
    × ((phase : Phase) (q : Server) → ShuttingDown any_json marshal digest p phase q → IsClosed p q)
    × ((q : Server)
        → ShuttingDown any_json marshal digest p jobs_closed q
        → (process : ℕ) → ¬ IsAlive (close_sessions q.state).sessions.machine process)
execute-stops_example =
    execute-stops any_json marshal digest defaults (some token) true not_there 5 (start true true)
      (started not_there) events (validate-IsUsable host defaults defaults-valid) (starts not_there)
      (here, (to_running, tt)) stop_reported
