-- ===== src/Server/Start.antt =====
-- internal/server/server.go: `New`, which builds the server from its configuration, `Start` by what can
-- fail in it, and the calls of `Shutdown`. TLS and the HTTP server are not modelled.
use windows_llmmanager.Base.{ℕ, string_eq, [], Bool, not, Option, none, some, if◌then◌else◌}
use windows_llmmanager.Base.Int.{pos_part}
use windows_llmmanager.Base.Outcome.{Outcome, ok, err}
use windows_llmmanager.Api.{Bytes}
use windows_llmmanager.Config.{Config, job_retention, idle_timeout}
use windows_llmmanager.Jobs.Defs.{new_manager}
use windows_llmmanager.Jobs.Ops.{block_and_cancel_all, close}
use windows_llmmanager.Powershell.Session.{new_session_manager, kill_all}
use windows_llmmanager.Powershell.Runner.{new_runner, kill_active, block_and_kill_all}
use windows_llmmanager.Security.Auth.{loaded, refused, load_token}
use windows_llmmanager.Security.Blocklist.{new_blocklist}
use windows_llmmanager.Security.RateLimiter.{new_limiter}
use windows_llmmanager.Updater.Host.{Stat}
use windows_llmmanager.Server.Requests.{State, is_killed}
use windows_llmmanager.Server.Serve.{Server}

pub data StartError : Type 0 where
  no_token no_audit_log : StartError

-- The parts of `New` that the kill switch stops where its file is there.
unfoldable pub new_state : Config → Stat → State
unfolding is_killed block_and_cancel_all block_and_kill_all
new_state c kill_file =
    let jobs =
      new_manager (pos_part c.max_async_jobs) (pos_part c.max_job_results) (job_retention c) in
    let killed = is_killed kill_file in
    record {
      kill_file = kill_file;
      runner = if killed then block_and_kill_all new_runner else new_runner;
      jobs = if killed then (block_and_cancel_all "kill_switch" jobs).0 else jobs;
      sessions = new_session_manager (pos_part c.max_sessions) (idle_timeout c);
      written = [];
    }

-- `New`, given the token's file, whether the directory of the audit log can be made, and the state of
-- the kill switch's file. The numbers of a configuration that `Validate` accepts are not negative.
unfoldable pub new_server :
    (Bytes → Bytes) → Config → Option Bytes → Bool → Stat → ℕ → Outcome StartError Server
unfolding load_token new_state
new_server sha256 c token audit_log kill_file now = elim (load_token sha256 token) [
  | refused _ ↦ err no_token
  | loaded auth ↦
      if audit_log
      then ok (record {
        gate = record {
          blocklist = new_blocklist (pos_part c.auth_failures_before_block);
          limiter = new_limiter (pos_part c.rate_limit_per_sec) (pos_part c.rate_limit_burst);
          auth = auth;
          threshold = pos_part c.auth_failures_before_block;
          written = [];
        };
        state = new_state c kill_file;
        long_timeout = pos_part c.long_command_timeout_sec;
        update_interval = c.update_check_interval_min;
        started_at = now;
      })
      else err no_audit_log
]

pub data ListenError : Type 0 where
  no_keypair no_listener : ListenError

-- `Start`, given whether the key pair can be loaded and the port be bound.
unfoldable pub start : Bool → Bool → Option ListenError
start loads binds =
    if not loads then some no_keypair else if not binds then some no_listener else none

-- What `Start` sends when the HTTP server ends with an error: none for the one that says it was closed.
unfoldable pub sent_error : Bool → Bytes → Option Bytes
sent_error was_closed e = if was_closed then none else some e

-- What `Shutdown` calls, one after another, before `httpServer.Shutdown`: requests are served until then,
-- and those that have begun go on behind it.
unfoldable pub close_jobs : State → State
unfolding close
close_jobs s = record s { jobs = close s.jobs }

unfoldable pub close_sessions : State → State
unfolding kill_all
close_sessions s = record s { sessions = kill_all s.sessions }

unfoldable pub kill_runs : State → State
unfolding kill_active
kill_runs s = record s { runner = kill_active s.runner }
