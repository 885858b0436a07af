-- ===== src/Server/Braked.antt =====
-- internal/server/server.go: once the kill switch is armed, no sequence of requests starts anything.
use windows_llmmanager.Base.{ℕ, ◌≡◌, refl, String, string_eq, List, [], Bool, true, false, arith}
use windows_llmmanager.Base.Dict.{lookup}
use windows_llmmanager.Api.{Bytes}
use windows_llmmanager.Jobs.Defs.{Manager}
use windows_llmmanager.Jobs.Ops.{block_and_cancel_all}
use windows_llmmanager.Jobs.Steps.{Reach, here, next, gets, cancels, blocks}
use windows_llmmanager.Powershell.Session.{SessionManager, kill_all, abort_all, delete}
use windows_llmmanager.Powershell.Owned.{IsAlive}
use windows_llmmanager.Powershell.Leaks
use windows_llmmanager.Powershell.Runner.{block_and_kill_all, kill_active}
use windows_llmmanager.Server.Requests.{State, is_killed, killswitch_active}
use windows_llmmanager.Server.Handlers.{
  handle_job_create, handle_job_get, handle_job_cancel, handle_session_create,
  handle_session_delete, handle_kill_switch,
}
use windows_llmmanager.Server.Exec.{
  handle_exec, handle_session_exec, handle_session_restart, handle_health,
}
use windows_llmmanager.Server.Parts.{job_cancel_parts, session_info_parts}
use windows_llmmanager.Server.Serve.{
  Request, post_exec, post_job, get_job, delete_job, post_session, post_session_exec,
  post_session_restart, get_session_info, delete_session, get_health, get_blocklist,
  delete_blocklist, post_kill_switch, Server, handle,
}

-- The kill switch is armed, and since then nothing has been started: `m` is the job manager at that
-- time.
pub record IsBraked (m : Manager) (s : State) : Type 0 where
  pub killed : is_killed s.kill_file ≡ true
  pub runner_blocked : s.runner.blocked ≡ true
  pub reached : Reach m s.jobs
  pub no_sessions : s.sessions.sessions ≡ []
  pub none_alive : (q : ℕ) → ¬ IsAlive s.sessions.machine q

-- It depends on four parts of the state.
IsBraked-parts :
    (m : Manager) (s t : State)
    → t.kill_file ≡ s.kill_file
    → t.runner ≡ s.runner
    → t.sessions ≡ s.sessions
    → Reach m t.jobs
    → IsBraked m s
    → IsBraked m t
IsBraked-parts m s t k r e j b = record {
  killed = rw k b.killed;
  runner_blocked = rw r b.runner_blocked;
  reached = j;
  no_sessions = rw e b.no_sessions;
  none_alive = rw e b.none_alive;
}

pub cancel_same :
    (id : String) (s : State)
    → ((handle_job_cancel id s).0.kill_file ≡ s.kill_file)
      × ((handle_job_cancel id s).0.runner ≡ s.runner)
unfolding handle_job_cancel
cancel_same id s = ground arith

session_delete_none :
    (id : String) (s : State) → s.sessions.sessions ≡ [] → (handle_session_delete id s).0 ≡ s
unfolding handle_session_delete delete lookup
session_delete_none id s e = ground arith

kill_all_empty : (m : SessionManager) → m.sessions ≡ [] → (kill_all m).machine ≡ m.machine
unfolding kill_all abort_all
kill_all_empty m e = rw e refl

kill_switch-IsBraked :
    (m : Manager) (writes : Bool) (s : State)
    → IsBraked m s
    → IsBraked m (handle_kill_switch writes s).0
unfolding handle_kill_switch is_killed block_and_kill_all kill_active
kill_switch-IsBraked m false s b = b
kill_switch-IsBraked m true s b = record {
  killed = refl;
  runner_blocked = refl;
  reached = next b.reached (blocks "kill_switch");
  no_sessions = unfold kill_all in refl;
  none_alive = rw (kill_all_empty s.sessions b.no_sessions) b.none_alive;
}

-- The requests that start something.
abbrev pub starts_something : Request → Bool
starts_something (post_exec body c) = true
starts_something (post_job body id) = true
starts_something (post_session id starts) = true
starts_something (post_session_exec id body c starts elapsed_ms) = true
starts_something (post_session_restart id starts) = true
starts_something _ = false

module _ (json_valid : Bytes → Bool) (marshal_lines : List Bytes → Bytes) where
  -- They are refused while the kill switch is armed, and change nothing.
  pub handle_refused :
      (request : Request) (now : ℕ) (s : Server)
      → is_killed s.state.kill_file ≡ true
      → starts_something request ≡ true
      → handle json_valid marshal_lines request now s ≡ (s, killswitch_active)
  unfolding handle handle_exec handle_job_create handle_session_create handle_session_exec
      handle_session_restart
  handle_refused (post_exec body c) now s k t = rw (k, handle_exec) refl
  handle_refused (post_job body id) now s k t = rw (k, handle_job_create) refl
  handle_refused (post_session id starts) now s k t = rw (k, handle_session_create) refl
  handle_refused (post_session_exec id body c starts elapsed_ms) now s k t =
      rw (k, handle_session_exec) refl
  handle_refused (post_session_restart id starts) now s k t = rw (k, handle_session_restart) refl
  handle_refused (get_job id) now s k t = cc
  handle_refused (delete_job id) now s k t = cc
  handle_refused (get_session_info id) now s k t = cc
  handle_refused (delete_session id) now s k t = cc
  handle_refused get_health now s k t = cc
  handle_refused get_blocklist now s k t = cc
  handle_refused (delete_blocklist ip) now s k t = cc
  handle_refused (post_kill_switch writes) now s k t = cc

module _ (json_valid : Bytes → Bool) (marshal_lines : List Bytes → Bytes) (m : Manager) where
  refused-IsBraked :
      (request : Request) (now : ℕ) (s : Server)
      → IsBraked m s.state
      → starts_something request ≡ true
      → IsBraked m (handle json_valid marshal_lines request now s).0.state
  refused-IsBraked request now s b t =
      rw (handle_refused json_valid marshal_lines request now s b.killed t) b

  pub handle-IsBraked :
      (request : Request) (now : ℕ) (s : Server)
      → IsBraked m s.state
      → IsBraked m (handle json_valid marshal_lines request now s).0.state
  unfolding handle
  handle-IsBraked (post_exec body c) now s b = refused-IsBraked (post_exec body c) now s b refl
  handle-IsBraked (post_job body id) now s b = refused-IsBraked (post_job body id) now s b refl
  handle-IsBraked (get_job id) now s b =
      unfold handle_job_get in
      record {
        killed = b.killed;
        runner_blocked = b.runner_blocked;
        reached = next b.reached (gets id now);
        no_sessions = b.no_sessions;
        none_alive = b.none_alive;
      }
  handle-IsBraked (delete_job id) now s b =
      let (e, j) = job_cancel_parts id s.state in
      let (k, r) = cancel_same id s.state in
      IsBraked-parts m s.state (handle_job_cancel id s.state).0 k r e
        (rw j (next b.reached (cancels id "operator"))) b
  handle-IsBraked (post_session id starts) now s b =
      refused-IsBraked (post_session id starts) now s b refl
  handle-IsBraked (post_session_exec id body c starts elapsed_ms) now s b =
      refused-IsBraked (post_session_exec id body c starts elapsed_ms) now s b refl
  handle-IsBraked (post_session_restart id starts) now s b =
      refused-IsBraked (post_session_restart id starts) now s b refl
  handle-IsBraked (get_session_info id) now s b = rw (session_info_parts id now s.state) b
  handle-IsBraked (delete_session id) now s b = rw (session_delete_none id s.state b.no_sessions) b
  handle-IsBraked get_health now s b = unfold handle_health in b
  handle-IsBraked get_blocklist now s b = b
  handle-IsBraked (delete_blocklist ip) now s b = b
  handle-IsBraked (post_kill_switch writes) now s b = kill_switch-IsBraked m writes s.state b

pub arm-IsBraked :
    (s : State)
    → Leaks.IsValid s.sessions
    → IsBraked (block_and_cancel_all "kill_switch" s.jobs).0 (handle_kill_switch true s).0
unfolding handle_kill_switch is_killed block_and_kill_all kill_active
arm-IsBraked s w = record {
  killed = refl;
  runner_blocked = refl;
  reached = here;
  no_sessions = (Leaks.kill_all_lem s.sessions w).1;
  none_alive = (Leaks.kill_all_lem s.sessions w).0;
}
