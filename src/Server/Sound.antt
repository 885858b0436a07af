-- ===== src/Server/Sound.antt =====
-- internal/server/server.go: every request leaves the jobs and the sessions well-formed.
use windows_llmmanager.Base.{
  ℕ, ◌≡◌, ◌≢◌, inl, inr, String, string_eq, List, Bool, true, false, Option, none, some, arith,
}
use windows_llmmanager.Base.Dict.{lookup}
use windows_llmmanager.Base.Outcome.{Outcome-cases}
use windows_llmmanager.Api.{Bytes, JobRequest}
use windows_llmmanager.Jobs.Steady
use windows_llmmanager.Jobs.Steps
use windows_llmmanager.Powershell.Session.{SessionManager, create, begin_exec}
use windows_llmmanager.Powershell.Leaks
use windows_llmmanager.Server.Requests.{Decoded, State}
use windows_llmmanager.Server.Handlers.{
  handle_job_create, handle_job_get, handle_job_cancel, handle_session_create, handle_kill_switch,
}
use windows_llmmanager.Server.Exec.{
  ExecCourse, exec_event, no_id, write_fails, context_ends, frame_fails, frame_read, run_in_session,
  exec, handle_exec, handle_health,
}
use windows_llmmanager.Server.Serve.{
  Request, post_exec, post_job, get_job, delete_job, post_session, post_session_exec,
  post_session_restart, get_session_info, delete_session, get_health, get_blocklist,
  delete_blocklist, post_kill_switch, Server, handle,
}
use windows_llmmanager.Server.Parts.{
  after, job_create_parts, job_cancel_parts, session_create_parts, session_delete_parts,
  session_exec_parts, handle_exec_parts, session_restart_parts, session_info_parts,
}

pub record IsSound (s : State) : Type 0 where
  pub jobs : Steady.IsSteady s.jobs
  pub sessions : Leaks.IsValid s.sessions

-- The identifiers that a request draws are not empty, and that of a session is new.
abbrev pub Drawn : Request → State → Type 0
Drawn (post_job body id) s = id ≢ some ""
Drawn (post_session (some id) starts) s = lookup id s.sessions.sessions ≡ none
Drawn _ s = Unit {0}

IsSound-parts :
    (s t : State) → t.sessions ≡ s.sessions → Steady.IsSteady t.jobs → IsSound s → IsSound t
IsSound-parts s t e j v = record { jobs = j; sessions = rw e v.sessions }

IsSound-same : (s t : State) → t.sessions ≡ s.sessions → t.jobs ≡ s.jobs → IsSound s → IsSound t
IsSound-same s t e j v = record { jobs = rw j v.jobs; sessions = rw e v.sessions }

handle_job_create-IsSound :
    (long_timeout : ℕ) (body : Decoded JobRequest) (id : Option String) (now : ℕ) (s : State)
    → id ≢ some ""
    → IsSound s
    → IsSound (handle_job_create long_timeout body id now s).0
handle_job_create-IsSound long_timeout body id now s ne v =
    let (same, moved) = job_create_parts long_timeout body id now s in
    let t = (handle_job_create long_timeout body id now s).0 in
    elim moved [
      | inl e ↦ IsSound-same s t same e v
      | inr (timeout, e) ↦
          IsSound-parts s t same
            (rw e (Steady.Step-IsSteady v.jobs (Steps.submits id now timeout true ne))) v
    ]

create-IsValid :
    (id : Option String) (starts : Bool) (now : ℕ) (s : State)
    → Drawn (post_session id starts) s
    → Leaks.IsValid s.sessions
    → Leaks.IsValid (create id starts now s.sessions).0
unfolding create
create-IsValid (some id) starts now s fresh v =
    Leaks.Step-IsValid (Leaks.creates id starts now s.sessions fresh) v
create-IsValid none starts now s fresh v = ground arith

module _ (json_valid : Bytes → Bool) (marshal_lines : List Bytes → Bytes) where
  run_in_session-IsValid :
      (a p : ℕ) (format : String) (c : ExecCourse) (starts : Bool) (now elapsed_ms : ℕ)
      (m : SessionManager)
      → Leaks.IsValid m
      → Leaks.IsValid (
          after m
            (run_in_session json_valid marshal_lines a p format c starts now elapsed_ms
              m.machine).0)
  unfolding run_in_session
  run_in_session-IsValid a p format no_id starts now elapsed_ms m v = v
  run_in_session-IsValid a p format write_fails starts now elapsed_ms m v =
      Leaks.Step-IsValid (Leaks.settles a p (exec_event write_fails) starts now m) v
  run_in_session-IsValid a p format context_ends starts now elapsed_ms m v =
      Leaks.Step-IsValid (Leaks.settles a p (exec_event context_ends) starts now m) v
  run_in_session-IsValid a p format frame_fails starts now elapsed_ms m v =
      Leaks.Step-IsValid (Leaks.settles a p (exec_event frame_fails) starts now m) v
  run_in_session-IsValid a p format (frame_read r) starts now elapsed_ms m v =
      Leaks.Step-IsValid (Leaks.settles a p (exec_event (frame_read r)) starts now m) v

  exec-IsValid :
      (a : ℕ) (format : String) (c : ExecCourse) (starts : Bool) (now elapsed_ms : ℕ)
      (m : SessionManager)
      → Leaks.IsValid m
      → Leaks.IsValid
          (after m (exec json_valid marshal_lines a format c starts now elapsed_ms m.machine).0)
  unfolding exec
  exec-IsValid a format c starts now elapsed_ms m v =
      let m1 = (begin_exec a now m.machine).0 in
      let v1 : Leaks.IsValid (after m m1) = Leaks.Step-IsValid (Leaks.begins a now m) v in
      elim (Outcome-cases (begin_exec a now m.machine).1) [
        | inr (e, b) ↦ rw (b, exec) v1
        | inl (p, b) ↦
            let v2 = run_in_session-IsValid a p format c starts now elapsed_ms (after m m1) v1 in
            let m2 =
              (run_in_session json_valid marshal_lines a p format c starts now elapsed_ms m1).0 in
            rw (b, exec) (Leaks.Step-IsValid (Leaks.ends a now (after m m2)) v2)
      ]

  kill_switch-IsSound :
      (writes : Bool) (s : State) → IsSound s → IsSound (handle_kill_switch writes s).0
  unfolding handle_kill_switch
  kill_switch-IsSound false s v = v
  kill_switch-IsSound true s v = record {
    jobs = Steady.Step-IsSteady v.jobs (Steps.blocks "kill_switch");
    sessions = Leaks.Step-IsValid (Leaks.kills_all s.sessions) v.sessions;
  }

  -- Whatever a handler does, it leaves the jobs and the sessions well-formed.
  pub handle-IsSound :
      (request : Request) (now : ℕ) (s : Server)
      → Drawn request s.state
      → IsSound s.state
      → IsSound (handle json_valid marshal_lines request now s).0.state
  unfolding handle
  handle-IsSound (post_exec body c) now s d v =
      let (same, kept) = handle_exec_parts json_valid marshal_lines body c s.state in
      IsSound-same s.state (handle_exec json_valid marshal_lines body c s.state).0 same kept v
  handle-IsSound (post_job body id) now s d v =
      handle_job_create-IsSound s.long_timeout body id now s.state d v
  handle-IsSound (get_job id) now s d v =
      unfold handle_job_get in
      record { jobs = Steady.Step-IsSteady v.jobs (Steps.gets id now); sessions = v.sessions }
  handle-IsSound (delete_job id) now s d v =
      let (same, e) = job_cancel_parts id s.state in
      IsSound-parts s.state (handle_job_cancel id s.state).0 same
        (rw e (Steady.Step-IsSteady v.jobs (Steps.cancels id "operator"))) v
  handle-IsSound (post_session id starts) now s d v =
      let (kept, moved) = session_create_parts id starts now s.state in
      elim moved [
        | inl e ↦ IsSound-same s.state (handle_session_create id starts now s.state).0 e kept v
        | inr e ↦ record {
          jobs = rw kept v.jobs;
          sessions = rw e (create-IsValid id starts now s.state d v.sessions);
        }
      ]
  handle-IsSound (post_session_exec id body c starts elapsed_ms) now s d v =
      let (kept, moved) =
        session_exec_parts json_valid marshal_lines id body c starts now elapsed_ms s.state in
      elim moved [
        | inl e ↦ record { jobs = rw kept v.jobs; sessions = rw e v.sessions }
        | inr (a, format, e) ↦ record {
          jobs = rw kept v.jobs;
          sessions =
              rw e (exec-IsValid a format c starts now elapsed_ms s.state.sessions v.sessions);
        }
      ]
  handle-IsSound (post_session_restart id starts) now s d v =
      let (kept, moved) = session_restart_parts id starts now s.state in
      elim moved [
        | inl e ↦ record { jobs = rw kept v.jobs; sessions = rw e v.sessions }
        | inr (a, e) ↦ record {
          jobs = rw kept v.jobs;
          sessions =
              rw e (Leaks.Step-IsValid (Leaks.restarts a starts now s.state.sessions) v.sessions);
        }
      ]
  handle-IsSound (get_session_info id) now s d v = rw (session_info_parts id now s.state) v
  handle-IsSound (delete_session id) now s d v =
      let (kept, e) = session_delete_parts id s.state in
      record {
        jobs = rw kept v.jobs;
        sessions = rw e (Leaks.Step-IsValid (Leaks.deletes id s.state.sessions) v.sessions);
      }
  handle-IsSound get_health now s d v = unfold handle_health in v
  handle-IsSound get_blocklist now s d v = v
  handle-IsSound (delete_blocklist ip) now s d v = v
  handle-IsSound (post_kill_switch writes) now s d v = kill_switch-IsSound writes s.state v
