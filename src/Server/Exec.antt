-- ===== src/Server/Exec.antt =====
-- internal/server/server.go: the handlers that run commands, those that report, and those of the
-- blocklist. What a command meets on its way is a parameter, as in Powershell/Results.
use windows_llmmanager.Base.{
  ℕ, ◌-◌, ◌/◌, String, string_eq, List, Bool, false, Option, none, some, length, get_elem?,
  if◌then◌else◌,
}
use windows_llmmanager.Base.Int.{ℤ}
use windows_llmmanager.Base.Outcome.{ok, err}
use windows_llmmanager.Api.{Bytes, ExecRequest, ExecutionResult}
use windows_llmmanager.Config.{second}
use windows_llmmanager.Jobs.Ops.{active_count}
use windows_llmmanager.Powershell.Frame.{FramedResult}
use windows_llmmanager.Powershell.Session.{
  Session, Machine, SessionError, random_failed, shell_exited, exec_timed_out, ExecEvent,
  write_failed, timed_out, frame_failed, framed, get_session, begin_exec, settle_exec, end_exec,
  restart_locked,
}
use windows_llmmanager.Powershell.Results.{
  RunnerError, Course, empty_result, timeout_result, shell_exited_result, to_api_result,
  run_command,
}
use windows_llmmanager.Powershell.Results
use windows_llmmanager.Security.Blocklist.{Blocklist, list, remove}
use windows_llmmanager.Server.Requests.{
  Response, respond, answer, execution_body, info_body, health_body, blocked_body, SessionInfo,
  command_executed, Decoded, State, audit, is_killed, killswitch_active, decode_exec_request,
}

-- What `Session.Exec` meets: the id, then the write and the frame.
pub data ExecCourse : Type 0 where
  no_id write_fails context_ends frame_fails : ExecCourse
  frame_read : FramedResult → ExecCourse

abbrev pub exec_event : ExecCourse → ExecEvent
exec_event write_fails = write_failed
exec_event context_ends = timed_out
exec_event frame_fails = frame_failed
exec_event _ = framed

-- Whether the session was restarted, by the error that says so.
abbrev pub is_restarted : Option SessionError → Bool
is_restarted (some (shell_exited restarted)) = restarted
is_restarted (some (exec_timed_out restarted)) = restarted
is_restarted _ = false

-- The sessions' machine after a step of it.
abbrev pub set_machine : Machine → State → State
set_machine machine s = let m = s.sessions in record s { sessions = record m { machine = machine } }

module _ (json_valid : Bytes → Bool) (marshal_lines : List Bytes → Bytes) where
  unfoldable pub exec_result : String → ℕ → ExecCourse → Option SessionError → ExecutionResult
  unfolding timeout_result shell_exited_result to_api_result
  exec_result format elapsed_ms no_id e = empty_result
  exec_result format elapsed_ms write_fails e =
      shell_exited_result format elapsed_ms (is_restarted e)
  exec_result format elapsed_ms context_ends e = timeout_result format elapsed_ms (is_restarted e)
  exec_result format elapsed_ms frame_fails e =
      shell_exited_result format elapsed_ms (is_restarted e)
  exec_result format elapsed_ms (frame_read r) e =
      to_api_result json_valid marshal_lines r elapsed_ms false

  -- From the id on, in the session at an address, whose process is `p`.
  unfoldable pub run_in_session :
      ℕ
      → ℕ
      → String
      → ExecCourse
      → Bool
      → ℕ
      → ℕ
      → Machine
      → Machine × ExecutionResult × Option SessionError
  unfolding settle_exec exec_result
  run_in_session a p format no_id starts now elapsed_ms m = (m, empty_result, some random_failed)
  run_in_session a p format c starts now elapsed_ms m =
      let (m', e) = settle_exec a p (exec_event c) starts now m in
      (m', exec_result format elapsed_ms c e, e)

  -- `Session.Exec`
  unfoldable pub exec :
      ℕ
      → String
      → ExecCourse
      → Bool
      → ℕ
      → ℕ
      → Machine
      → Machine × ExecutionResult × Option SessionError
  unfolding begin_exec run_in_session end_exec
  exec a format c starts now elapsed_ms m =
      let (m1, found) = begin_exec a now m in
      elim found [
        | err e ↦ (m1, empty_result, some e)
        | ok p ↦
            let (m2, result, e) = run_in_session a p format c starts now elapsed_ms m1 in
            (end_exec a now m2, result, e)
      ]

  abbrev pub with_execution : ℕ → String → ExecutionResult → Response
  with_execution status code result = record {
    status = status;
    code = code;
    body = execution_body result;
  }

  unfoldable pub exec_response : ExecutionResult → Option RunnerError → Response
  exec_response result none = answer 200 (execution_body result)
  exec_response result (some e) = elim e [
    | Results.blocked ↦ respond 423 "killswitch_active"
    | Results.timed_out ↦ with_execution 504 "command_timeout" result
    | _ ↦ respond 500 "shell_failure"
  ]

  -- `handleExec`. The first test of `blocked` finds the runner as it is; the second may find it
  -- blocked meanwhile.
  unfoldable pub handle_exec : Decoded ExecRequest → Course → State → State × Response
  unfolding is_killed decode_exec_request run_command exec_response
  handle_exec body c s =
      if is_killed s.kill_file then (s, killswitch_active) else elim (decode_exec_request body) [
        | err e ↦ (s, e)
        | ok r ↦
            let course = record c { blocked_first = s.runner.blocked } in
            let (result, error) = run_command json_valid marshal_lines r.format course in
            (audit (command_executed "exec" "" r.command result) s, exec_response result error)
      ]

  unfoldable pub session_exec_response : ExecutionResult → Option SessionError → Response
  session_exec_response result none = answer 200 (execution_body result)
  session_exec_response result (some e) = elim e [
    | exec_timed_out _ ↦ with_execution 504 "command_timeout" result
    | shell_exited _ ↦ with_execution 409 "session_process_exited" result
    | _ ↦ respond 500 "session_exec_failed"
  ]

  -- `handleSessionExec`
  unfoldable pub handle_session_exec :
      String → Decoded ExecRequest → ExecCourse → Bool → ℕ → ℕ → State → State × Response
  unfolding is_killed get_session decode_exec_request exec session_exec_response
  handle_session_exec id body c starts now elapsed_ms s =
      if is_killed s.kill_file then (s, killswitch_active) else elim (get_session id s.sessions) [
        | err _ ↦ (s, respond 404 "session_not_found")
        | ok a ↦ elim (decode_exec_request body) [
          | err e ↦ (s, e)
          | ok r ↦
              let (machine, result, error) =
                exec a r.format c starts now elapsed_ms s.sessions.machine in
              (
                audit (command_executed "session" id r.command result) (set_machine machine s),
                session_exec_response result error,
              )
        ]
      ]

-- `Info` of a session at a time.
unfoldable pub session_info : ℕ → Session → SessionInfo
session_info now session = record {
  session_id = session.id;
  created_at = session.created_at;
  last_used_at = session.last_used;
  uptime_sec = (now - session.created_at) / second;
  busy = session.busy;
}

abbrev pub info_response : ℕ → Option Session → Response
info_response now none = respond 200 ""
info_response now (some session) = answer 200 (info_body (session_info now session))

-- `handleSessionRestart`
unfoldable pub handle_session_restart : String → Bool → ℕ → State → State × Response
unfolding is_killed get_session restart_locked session_info
handle_session_restart id starts now s =
    if is_killed s.kill_file then (s, killswitch_active) else elim (get_session id s.sessions) [
      | err _ ↦ (s, respond 404 "session_not_found")
      | ok a ↦
          let (machine, restarted) = restart_locked a starts now s.sessions.machine in
          (
            set_machine machine s,
            if restarted
                then info_response now (get_elem? machine.heap a)
                else respond 500 "session_restart_failed",
          )
    ]

-- `handleSessionInfo`
unfoldable pub handle_session_info : String → ℕ → State → State × Response
unfolding get_session session_info
handle_session_info id now s = elim (get_session id s.sessions) [
  | err _ ↦ (s, respond 404 "session_not_found")
  | ok a ↦ (s, info_response now (get_elem? s.sessions.machine.heap a))
]

-- `handleHealth`
unfoldable pub handle_health : ℤ → ℕ → ℕ → State → State × Response
unfolding is_killed active_count
handle_health interval started_at now s = (
  s,
  answer 200 (
      health_body (record {
        braked = is_killed s.kill_file;
        uptime_sec = (now - started_at) / second;
        open_sessions = length s.sessions.sessions;
        active_jobs = active_count s.jobs;
        update_check_interval_min = interval;
        kill_switch_armed = is_killed s.kill_file;
      })),
)

-- `handleBlocklistGet`
unfoldable pub handle_blocklist_get : Blocklist → Blocklist × Response
unfolding list
handle_blocklist_get b = (b, answer 200 (blocked_body (list b)))

-- `handleBlocklistDelete`, given the address that the path's value is, if it is one.
unfoldable pub handle_blocklist_delete : Option String → Blocklist → Blocklist × Response
unfolding remove
handle_blocklist_delete none b = (b, respond 400 "invalid_ip")
handle_blocklist_delete (some ip) b =
    let (b', removed) = remove ip b in
    (b', if removed then respond 204 "" else respond 404 "ip_not_blocked")
