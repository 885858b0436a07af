-- ===== src/Server/Requests.antt =====
-- internal/server/server.go: answers, the parts of the server that the handlers change, and the checks
-- that every request passes first. The JSON decoder is a parameter, by what it can come to.
use windows_llmmanager.Base.{
  ℕ, String, string_eq, ◌==◌, List, [], ◌∷◌, ◌++◌, Bool, true, false, not, ◌&&◌, Option, none, some,
  length, eqb, if◌then◌else◌,
}
use windows_llmmanager.Base.Int.{ℤ, quo_ℤ}
use windows_llmmanager.Base.Outcome.{Outcome, ok, err}
use windows_llmmanager.Api.{
  Bytes, JobRequest, ExecRequest, ExecutionResult, format_json, format_lines,
}
use windows_llmmanager.Text.{trim_space}
use windows_llmmanager.Config.{second}
use windows_llmmanager.Jobs.Defs.{Status, Snapshot, Manager}
use windows_llmmanager.Powershell.Session.{SessionManager}
use windows_llmmanager.Powershell.Runner.{Runner}
use windows_llmmanager.Security.Blocklist.{BlockEntry}
use windows_llmmanager.Updater.Host.{Stat, there, not_there, stat_fails}

-- `api.JobResponse`, with times as numbers.
pub record JobResponse : Type 0 where
  pub job_id : String
  pub status : Status
  pub created_at : ℕ
  pub started_at : ℕ
  pub completed_at : Option ℕ
  pub timeout_sec : ℤ
  pub execution : Option ExecutionResult
  pub error : String
  pub cancel_reason : String

-- `api.SessionInfoResponse`
pub record SessionInfo : Type 0 where
  pub session_id : String
  pub created_at : ℕ
  pub last_used_at : ℕ
  pub uptime_sec : ℕ
  pub busy : Bool

-- `api.HealthResponse`, without the version.
pub record Health : Type 0 where
  pub braked : Bool
  pub uptime_sec : ℕ
  pub open_sessions : ℕ
  pub active_jobs : ℕ
  pub update_check_interval_min : ℤ
  pub kill_switch_armed : Bool

pub data Body : Type 0 where
  nothing : Body
  execution_body : ExecutionResult → Body
  job_body : JobResponse → Body
  session_body : String → ℕ → Body
  info_body : SessionInfo → Body
  health_body : Health → Body
  blocked_body : List BlockEntry → Body
  armed_body : ℕ → Body

-- An answer: its status, the code of its error, and what it carries.
pub record Response : Type 0 where
  pub status : ℕ
  pub code : String
  pub body : Body

abbrev pub respond : ℕ → String → Response
respond status code = record { status = status; code = code; body = nothing }

abbrev pub answer : ℕ → Body → Response
answer status body = record { status = status; code = ""; body = body }

-- `jobResponse`
unfoldable pub job_response : Snapshot → JobResponse
job_response s = record {
  job_id = s.job_id;
  status = s.status;
  created_at = s.created_at;
  started_at = s.started_at;
  completed_at = if eqb s.completed_at 0 then none else some s.completed_at;
  timeout_sec = quo_ℤ s.timeout second;
  execution = s.execution;
  error = s.error;
  cancel_reason = s.cancel_reason;
}

-- The audit events of the handlers, without the request's id, address and fingerprint.
pub data Audited : Type 0 where
  command_executed : String → String → Bytes → ExecutionResult → Audited
  job_submitted : String → ℤ → Audited
  job_cancel_requested : String → Audited
  job_finished : String → Status → Audited
  killswitch_armed : Audited

-- What the two calls of `Decode` come to.
pub data Decoded (A : Type 0) : Type 0 where
  too_large malformed trailing : Decoded A
  decoded : A → Decoded A

-- The parts of the server that the handlers change.
pub record State : Type 0 where
  pub kill_file : Stat
  pub runner : Runner
  pub jobs : Manager
  pub sessions : SessionManager
  pub written : List Audited

-- `isKilled`
unfoldable pub is_killed : Stat → Bool
is_killed there = true
is_killed not_there = false
is_killed stat_fails = true

abbrev pub killswitch_active : Response
killswitch_active = respond 423 "killswitch_active"

-- `writeAudit`
abbrev pub audit : Audited → State → State
audit event s = record s { written = s.written ++ event ∷ [] }

-- The checks on a decoded request, which exec and job requests share.
unfoldable pub check_request : Bytes → String → Option Response
unfolding trim_space
check_request command format =
    if eqb (length (trim_space command)) 0
    then some (respond 400 "empty_command")
    else if not (format == format_json) && not (format == format_lines)
    then some (respond 400 "invalid_format")
    else none

abbrev pub checked_request : {A : Type 0} → A → Option Response → Outcome Response A
checked_request r none = ok r
checked_request r (some e) = err e

unfoldable pub decode_exec_request : Decoded ExecRequest → Outcome Response ExecRequest
unfolding check_request
decode_exec_request too_large = err (respond 413 "request_too_large")
decode_exec_request malformed = err (respond 400 "invalid_json")
decode_exec_request trailing = err (respond 400 "invalid_json")
decode_exec_request (decoded r) = checked_request r (check_request r.command r.format)

unfoldable pub decode_job_request : Decoded JobRequest → Outcome Response JobRequest
unfolding check_request
decode_job_request too_large = err (respond 413 "request_too_large")
decode_job_request malformed = err (respond 400 "invalid_json")
decode_job_request trailing = err (respond 400 "invalid_json")
decode_job_request (decoded r) = checked_request r (check_request r.command r.format)
