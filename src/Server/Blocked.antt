-- ===== src/Server/Blocked.antt =====
-- internal/server/server.go: what stays blocked behind the kill switch, whatever becomes of its file.
use windows_llmmanager.Base.{
  ℕ, ◌≡◌, ◌≢◌, inl, inr, refl, Option, some, String, string_eq, List, Bool, true, false, arith,
}
use windows_llmmanager.Api.{Bytes, ExecRequest, JobRequest}
use windows_llmmanager.Jobs.Defs.{Manager}
use windows_llmmanager.Jobs.Steps.{Reach, next, submits, gets, cancels, blocks}
use windows_llmmanager.Powershell.Runner.{block_and_kill_all, kill_active}
use windows_llmmanager.Powershell.Results.{Course}
use windows_llmmanager.Server.Requests.{Decoded, State}
use windows_llmmanager.Server.Handlers.{
  handle_job_create, handle_job_get, handle_session_create, handle_session_delete,
  handle_kill_switch,
}
use windows_llmmanager.Server.Exec.{
  ExecCourse, handle_exec, handle_session_exec, handle_session_restart, handle_health,
}
use windows_llmmanager.Server.Parts.{
  job_create_parts, job_cancel_parts, session_create_parts, session_delete_parts,
  session_exec_parts, handle_exec_parts, session_restart_parts, session_info_parts,
}
use windows_llmmanager.Server.Sound.{Drawn}
use windows_llmmanager.Server.Serve.{
  Request, post_exec, post_job, get_job, delete_job, post_session, post_session_exec,
  post_session_restart, get_session_info, delete_session, get_health, get_blocklist,
  delete_blocklist, post_kill_switch, Server, handle,
}
use windows_llmmanager.Server.Braked.{IsBraked, cancel_same}

-- What stays whatever happens to the file of the kill switch: the runner is blocked, and the jobs are
-- those of `m`, a manager that `BlockAndCancelAll` has blocked.
pub record IsBlocked (m : Manager) (s : State) : Type 0 where
  pub runner_blocked : s.runner.blocked ≡ true
  pub reached : Reach m s.jobs

pub IsBraked-IsBlocked : {m : Manager} {s : State} → IsBraked m s → IsBlocked m s
IsBraked-IsBlocked b = record { runner_blocked = b.runner_blocked; reached = b.reached }

job_create_runner :
    (long_timeout : ℕ) (body : Decoded JobRequest) (id : Option String) (now : ℕ) (s : State)
    → (handle_job_create long_timeout body id now s).0.runner ≡ s.runner
unfolding handle_job_create
job_create_runner long_timeout body id now s = ground arith

session_create_runner :
    (id : Option String) (starts : Bool) (now : ℕ) (s : State)
    → (handle_session_create id starts now s).0.runner ≡ s.runner
unfolding handle_session_create
session_create_runner id starts now s = ground arith

session_restart_runner :
    (id : String) (starts : Bool) (now : ℕ) (s : State)
    → (handle_session_restart id starts now s).0.runner ≡ s.runner
unfolding handle_session_restart
session_restart_runner id starts now s = ground arith

session_delete_runner : (id : String) (s : State) → (handle_session_delete id s).0.runner ≡ s.runner
unfolding handle_session_delete
session_delete_runner id s = ground arith

module _ (json_valid : Bytes → Bool) (marshal_lines : List Bytes → Bytes) where
  exec_runner :
      (body : Decoded ExecRequest) (c : Course) (s : State)
      → (handle_exec json_valid marshal_lines body c s).0.runner ≡ s.runner
  unfolding handle_exec
  exec_runner body c s = ground arith

  session_exec_runner :
      (id : String) (body : Decoded ExecRequest) (c : ExecCourse) (starts : Bool)
      (now elapsed_ms : ℕ) (s : State)
      → (handle_session_exec json_valid marshal_lines id body c starts now elapsed_ms s).0.runner
        ≡ s.runner
  unfolding handle_session_exec
  session_exec_runner id body c starts now elapsed_ms s = ground arith

  job_create-Reach :
      (m : Manager) (long_timeout : ℕ) (body : Decoded JobRequest) (id : Option String) (now : ℕ)
      (s : State)
      → id ≢ some ""
      → Reach m s.jobs
      → Reach m (handle_job_create long_timeout body id now s).0.jobs
  job_create-Reach m long_timeout body id now s ne r =
      let (_, moved) = job_create_parts long_timeout body id now s in
      elim moved [
        | inl j ↦ rw j r
        | inr (timeout, j) ↦ rw j (next r (submits id now timeout true ne))
      ]

  -- Whatever the state of the kill switch's file, a handler does to the jobs what methods of the
  -- manager do.
  pub handle-Reach :
      (m : Manager) (request : Request) (now : ℕ) (s : Server)
      → Drawn request s.state
      → Reach m s.state.jobs
      → Reach m (handle json_valid marshal_lines request now s).0.state.jobs
  unfolding handle
  handle-Reach m (post_exec body c) now s d r =
      rw (handle_exec_parts json_valid marshal_lines body c s.state).1 r
  handle-Reach m (post_job body id) now s d r =
      job_create-Reach m s.long_timeout body id now s.state d r
  handle-Reach m (get_job id) now s d r = unfold handle_job_get in next r (gets id now)
  handle-Reach m (delete_job id) now s d r =
      rw (job_cancel_parts id s.state).1 (next r (cancels id "operator"))
  handle-Reach m (post_session id starts) now s d r =
      rw (session_create_parts id starts now s.state).0 r
  handle-Reach m (post_session_exec id body c starts elapsed_ms) now s d r =
      rw (session_exec_parts json_valid marshal_lines id body c starts now elapsed_ms s.state).0 r
  handle-Reach m (post_session_restart id starts) now s d r =
      rw (session_restart_parts id starts now s.state).0 r
  handle-Reach m (get_session_info id) now s d r = rw (session_info_parts id now s.state) r
  handle-Reach m (delete_session id) now s d r = rw (session_delete_parts id s.state).0 r
  handle-Reach m get_health now s d r = unfold handle_health in r
  handle-Reach m get_blocklist now s d r = r
  handle-Reach m (delete_blocklist ip) now s d r = r
  handle-Reach m (post_kill_switch false) now s d r = unfold handle_kill_switch in r
  handle-Reach m (post_kill_switch true) now s d r =
      unfold handle_kill_switch in next r (blocks "kill_switch")

  -- No handler unblocks the runner.
  pub handle-runner :
      (request : Request) (now : ℕ) (s : Server)
      → s.state.runner.blocked ≡ true
      → (handle json_valid marshal_lines request now s).0.state.runner.blocked ≡ true
  unfolding handle
  handle-runner (post_exec body c) now s b = rw (exec_runner body c s.state) b
  handle-runner (post_job body id) now s b =
      rw (job_create_runner s.long_timeout body id now s.state) b
  handle-runner (get_job id) now s b = unfold handle_job_get in b
  handle-runner (delete_job id) now s b = rw (cancel_same id s.state).1 b
  handle-runner (post_session id starts) now s b =
      rw (session_create_runner id starts now s.state) b
  handle-runner (post_session_exec id body c starts elapsed_ms) now s b =
      rw (session_exec_runner id body c starts now elapsed_ms s.state) b
  handle-runner (post_session_restart id starts) now s b =
      rw (session_restart_runner id starts now s.state) b
  handle-runner (get_session_info id) now s b = rw (session_info_parts id now s.state) b
  handle-runner (delete_session id) now s b = rw (session_delete_runner id s.state) b
  handle-runner get_health now s b = unfold handle_health in b
  handle-runner get_blocklist now s b = b
  handle-runner (delete_blocklist ip) now s b = b
  handle-runner (post_kill_switch false) now s b = unfold handle_kill_switch in b
  handle-runner (post_kill_switch true) now s b =
      unfold handle_kill_switch block_and_kill_all kill_active in refl
