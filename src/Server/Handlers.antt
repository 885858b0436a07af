-- ===== src/Server/Handlers.antt =====
-- internal/server/server.go: the handlers of jobs, of the kill switch, and of the making and the end of
-- sessions.
use windows_llmmanager.Base.{
  ℕ, zero, String, string_eq, Bool, true, not, ◌||◌, Option, none, some, if◌then◌else◌, get_elem?,
}
use windows_llmmanager.Base.Int.{ℤ, pos, ltb_ℤ}
use windows_llmmanager.Base.Outcome.{ok, err}
use windows_llmmanager.Api.{JobRequest}
use windows_llmmanager.Config.{second, duration}
use windows_llmmanager.Jobs.Defs.{Snapshot, limit, blocked, not_found, not_running, Result}
use windows_llmmanager.Jobs.Ops.{submit, get, cancel, block_and_cancel_all}
use windows_llmmanager.Powershell.Session.{session_limit, create, kill_all, delete}
use windows_llmmanager.Powershell.Runner.{block_and_kill_all}
use windows_llmmanager.Updater.Host.{there}
use windows_llmmanager.Server.Requests.{
  Response, respond, answer, job_body, session_body, armed_body, job_response, job_submitted,
  job_cancel_requested, job_finished, killswitch_armed, Decoded, State, audit, is_killed,
  killswitch_active, decode_job_request,
}

-- `timeout_sec`, which defaults to the configured bound.
unfoldable pub job_timeout : ℕ → ℤ → ℤ
job_timeout long_timeout (pos zero) = pos long_timeout
job_timeout long_timeout t = t

unfoldable pub submit_response : Result Snapshot → Response
unfolding job_response
submit_response (Result.ok snapshot) = answer 202 (job_body (job_response snapshot))
submit_response (Result.err e) = elim e [
  | limit ↦ respond 409 "job_limit"
  | blocked ↦ respond 423 "killswitch_active"
  | _ ↦ respond 500 "job_start_failed"
]

-- `handleJobCreate`, given the bytes that `randomID` draws and the time.
unfoldable pub handle_job_create :
    ℕ → Decoded JobRequest → Option String → ℕ → State → State × Response
unfolding is_killed decode_job_request job_timeout submit submit_response
handle_job_create long_timeout body id now s =
    if is_killed s.kill_file then (s, killswitch_active) else elim (decode_job_request body) [
      | err e ↦ (s, e)
      | ok r ↦
          let t = job_timeout long_timeout r.timeout_sec in
          if ltb_ℤ t (pos 1) || ltb_ℤ (pos long_timeout) t
          then (s, respond 400 "invalid_timeout")
          else let (jobs, result) = submit id now (duration second t) true s.jobs in
            let after = record s { jobs = jobs } in
            (
              elim result [
                | Result.ok snapshot ↦ audit (job_submitted snapshot.job_id t) after
                | Result.err _ ↦ after
              ],
              submit_response result,
            )
    ]

unfoldable pub handle_job_get : String → ℕ → State → State × Response
unfolding get job_response
handle_job_get id now s =
    let (jobs, result) = get id now s.jobs in
    (
      record s { jobs = jobs },
      elim result [
        | Result.ok snapshot ↦ answer 200 (job_body (job_response snapshot))
        | Result.err e ↦ elim e [
          | not_found ↦ respond 404 "job_not_found"
          | _ ↦ respond 500 "job_status_failed"
        ]
      ],
    )

abbrev pub audit_cancel : Option Snapshot → State → State
audit_cancel none s = s
audit_cancel (some snapshot) s = audit (job_cancel_requested snapshot.job_id) s

abbrev pub with_job : ℕ → String → Option Snapshot → Response
with_job status code none = respond status code
with_job status code (some snapshot) = record {
  status = status;
  code = code;
  body = job_body (job_response snapshot);
}

unfoldable pub handle_job_cancel : String → State → State × Response
handle_job_cancel id s =
    let (jobs, snapshot, error) = cancel id "operator" s.jobs in
    let after = record s { jobs = jobs } in
    (
      elim error [ none ↦ audit_cancel snapshot after | some _ ↦ after ],
      elim error [
        | none ↦ with_job 202 "" snapshot
        | some e ↦ elim e [
          | not_found ↦ respond 404 "job_not_found"
          | not_running ↦ with_job 409 "job_not_running" snapshot
          | _ ↦ respond 500 "job_cancel_failed"
        ]
      ],
    )

unfoldable pub handle_session_create : Option String → Bool → ℕ → State → State × Response
unfolding is_killed create
handle_session_create id starts now s =
    if is_killed s.kill_file
    then (s, killswitch_active)
    else let (sessions, result) = create id starts now s.sessions in
      (
        record s { sessions = sessions },
        elim result [
          | ok a ↦ elim (get_elem? sessions.machine.heap a) [
            | none ↦ respond 201 ""
            | some session ↦ answer 201 (session_body session.id session.created_at)
          ]
          | err e ↦ elim e [
            | session_limit ↦ respond 409 "session_limit"
            | _ ↦ respond 500 "session_start_failed"
          ]
        ],
      )

unfoldable pub handle_session_delete : String → State → State × Response
unfolding delete
handle_session_delete id s =
    let (sessions, deleted) = delete id s.sessions in
    if deleted
    then (record s { sessions = sessions }, respond 204 "")
    else (record s { sessions = sessions }, respond 404 "session_not_found")

-- `handleKillSwitch`, given whether the file can be written.
unfoldable pub handle_kill_switch : Bool → State → State × Response
unfolding block_and_cancel_all kill_all block_and_kill_all
handle_kill_switch writes s =
    if not writes
    then (s, respond 500 "killswitch_write_failed")
    else let (jobs, jobs_killed) = block_and_cancel_all "kill_switch" s.jobs in
      (
        audit killswitch_armed (record s {
          kill_file = there;
          runner = block_and_kill_all s.runner;
          jobs = jobs;
          sessions = kill_all s.sessions;
        }),
        answer 200 (armed_body jobs_killed),
      )

-- The callback of a job that has ended.
unfoldable pub on_job_done : Snapshot → State → State
on_job_done final s = audit (job_finished final.job_id final.status) s
