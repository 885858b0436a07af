-- ===== src/Server/Parts.antt =====
-- internal/server/server.go: what each handler does to the jobs and the sessions.
use windows_llmmanager.Base.{
  ℕ, ◌≡◌, ◌⊎◌, inl, inr, refl, String, string_eq, List, Bool, true, ◌||◌, Option, Bool-cases, arith,
}
use windows_llmmanager.Base.Int.{ℤ, pos, ltb_ℤ}
use windows_llmmanager.Base.Outcome.{Outcome-cases}
use windows_llmmanager.Api.{Bytes, ExecRequest, JobRequest}
use windows_llmmanager.Config.{second, duration}
use windows_llmmanager.Jobs.Ops.{submit, cancel}
use windows_llmmanager.Jobs.Defs.{Snapshot, Result}
use windows_llmmanager.Jobs.Defs
use windows_llmmanager.Powershell.Session.{
  Machine, SessionManager, get_session, create, delete, restart_locked,
}
use windows_llmmanager.Powershell.Results.{Course}
use windows_llmmanager.Server.Requests.{
  Decoded, State, audit, job_submitted, is_killed, decode_job_request, decode_exec_request,
}
use windows_llmmanager.Server.Handlers.{
  job_timeout, handle_job_create, handle_job_cancel, handle_session_create, handle_session_delete,
}
use windows_llmmanager.Server.Exec.{
  ExecCourse, exec, handle_exec, handle_session_exec, handle_session_restart, handle_session_info,
}

-- The manager that a step of one of its sessions leaves.
abbrev pub after : SessionManager → Machine → SessionManager
after m machine = record m { machine = machine }

submitted_parts :
    (result : Result Snapshot) (t : ℤ) (s : State)
    → let p : State = elim result [
      | Defs.ok snapshot ↦ audit (job_submitted snapshot.job_id t) s
      | Defs.err _ ↦ s
    ] in
      (p.sessions ≡ s.sessions) × (p.jobs ≡ s.jobs)
submitted_parts (Defs.ok snapshot) t s = (refl, refl)
submitted_parts (Defs.err e) t s = (refl, refl)

pub job_create_parts :
    (long_timeout : ℕ) (body : Decoded JobRequest) (id : Option String) (now : ℕ) (s : State)
    → let p = (handle_job_create long_timeout body id now s).0 in
      (p.sessions ≡ s.sessions)
      × ((p.jobs ≡ s.jobs) ⊎ ((t : ℤ) × (p.jobs ≡ (submit id now t true s.jobs).0)))
unfolding handle_job_create
job_create_parts long_timeout body id now s = elim (Bool-cases (is_killed s.kill_file)) [
  | inl k ↦ rw (k, handle_job_create) (refl, inl refl)
  | inr k ↦ elim (Outcome-cases (decode_job_request body)) [
    | inr (e, d) ↦ rw (k, d, handle_job_create) (refl, inl refl)
    | inl (r, d) ↦
        let t = job_timeout long_timeout r.timeout_sec in
        elim (Bool-cases (ltb_ℤ t (pos 1) || ltb_ℤ (pos long_timeout) t)) [
          | inl f ↦ rw (k, d, f, handle_job_create) (refl, inl refl)
          | inr f ↦
              let (jobs, result) = submit id now (duration second t) true s.jobs in
              let (same, left) = submitted_parts result t (record s { jobs = jobs }) in
              rw (k, d, f, handle_job_create) (same, inr (duration second t, left))
        ]
  ]
]

pub job_cancel_parts :
    (id : String) (s : State)
    → ((handle_job_cancel id s).0.sessions ≡ s.sessions)
      × ((handle_job_cancel id s).0.jobs ≡ (cancel id "operator" s.jobs).0)
unfolding handle_job_cancel
job_cancel_parts id s = ground arith

pub session_create_parts :
    (id : Option String) (starts : Bool) (now : ℕ) (s : State)
    → let p = (handle_session_create id starts now s).0 in
      (p.jobs ≡ s.jobs)
      × ((p.sessions ≡ s.sessions) ⊎ (p.sessions ≡ (create id starts now s.sessions).0))
unfolding handle_session_create
session_create_parts id starts now s = ground arith

pub session_delete_parts :
    (id : String) (s : State)
    → ((handle_session_delete id s).0.jobs ≡ s.jobs)
      × ((handle_session_delete id s).0.sessions ≡ (delete id s.sessions).0)
unfolding handle_session_delete
session_delete_parts id s = ground arith

pub session_restart_parts :
    (id : String) (starts : Bool) (now : ℕ) (s : State)
    → let p = (handle_session_restart id starts now s).0 in
      (p.jobs ≡ s.jobs)
      × ((p.sessions ≡ s.sessions)
          ⊎ ((a : ℕ) × (p.sessions
                ≡ after s.sessions (restart_locked a starts now s.sessions.machine).0)))
unfolding handle_session_restart
session_restart_parts id starts now s = elim (Bool-cases (is_killed s.kill_file)) [
  | inl k ↦ rw (k, handle_session_restart) (refl, inl refl)
  | inr k ↦ elim (Outcome-cases (get_session id s.sessions)) [
    | inr (e, g) ↦ rw (k, g, handle_session_restart) (refl, inl refl)
    | inl (a, g) ↦ rw (k, g, handle_session_restart) (refl, inr (a, refl))
  ]
]

pub session_info_parts : (id : String) (now : ℕ) (s : State) → (handle_session_info id now s).0 ≡ s
unfolding handle_session_info
session_info_parts id now s = ground arith

module _ (json_valid : Bytes → Bool) (marshal_lines : List Bytes → Bytes) where
  pub session_exec_parts :
      (id : String) (body : Decoded ExecRequest) (c : ExecCourse) (starts : Bool)
      (now elapsed_ms : ℕ) (s : State)
      → let p =
          (handle_session_exec json_valid marshal_lines id body c starts now elapsed_ms s).0 in
        (p.jobs ≡ s.jobs)
        × ((p.sessions ≡ s.sessions)
            ⊎ ((a : ℕ) × (format : String) × (p.sessions
                  ≡ after s.sessions
                      (exec json_valid marshal_lines a format c starts now elapsed_ms
                        s.sessions.machine).0)))
  unfolding handle_session_exec
  session_exec_parts id body c starts now elapsed_ms s = elim (Bool-cases (is_killed s.kill_file)) [
    | inl k ↦ rw (k, handle_session_exec) (refl, inl refl)
    | inr k ↦ elim (Outcome-cases (get_session id s.sessions)) [
      | inr (e, g) ↦ rw (k, g, handle_session_exec) (refl, inl refl)
      | inl (a, g) ↦ elim (Outcome-cases (decode_exec_request body)) [
        | inr (e, d) ↦ rw (k, g, d, handle_session_exec) (refl, inl refl)
        | inl (r, d) ↦ rw (k, g, d, handle_session_exec) (refl, inr (a, r.format, refl))
      ]
    ]
  ]

  pub handle_exec_parts :
      (body : Decoded ExecRequest) (c : Course) (s : State)
      → ((handle_exec json_valid marshal_lines body c s).0.sessions ≡ s.sessions)
        × ((handle_exec json_valid marshal_lines body c s).0.jobs ≡ s.jobs)
  unfolding handle_exec
  handle_exec_parts body c s = ground arith
