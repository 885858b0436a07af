-- ===== src/Server/Brake.antt =====
-- internal/server/server.go: what the kill switch stops, and what a job request must be.
use windows_llmmanager.Base.{
  ℕ, ◌≤◌, ◌≡◌, ◌≢◌, inl, inr, refl, sym, ◌∙◌, String, string_eq, Bool, true, false, ◌||◌, Option,
  some, Bool-cases, arith,
}
use windows_llmmanager.Base.Dict.{lookup}
use windows_llmmanager.Base.Int.{ℤ, pos, negsuc, ltb_ℤ}
use windows_llmmanager.Base.Outcome.{ok, err, Outcome-cases}
use windows_llmmanager.Api.{JobRequest}
use windows_llmmanager.Jobs.Ops.{running_at}
use windows_llmmanager.Jobs.Steady
use windows_llmmanager.Jobs.Blocked.{runs_on_at, block_and_cancel_all_final}
use windows_llmmanager.Jobs.Steps.{here}
use windows_llmmanager.Powershell.Owned.{IsAlive}
use windows_llmmanager.Powershell.Leaks
use windows_llmmanager.Server.Requests.{
  Response, Decoded, too_large, malformed, trailing, decoded, check_request, State, is_killed,
  killswitch_active, decode_job_request,
}
use windows_llmmanager.Server.Handlers.{
  job_timeout, handle_job_create, handle_session_create, handle_kill_switch,
}

-- Once the kill switch is written on well-formed jobs and sessions, new jobs and sessions are
-- refused with 423 and change nothing, no child process of a session lives, and each job that the
-- manager holds has ended, or it is being cancelled and its context is cancelled.
pub handle_kill_switch-brakes :
    (s : State)
    → Steady.IsSteady s.jobs
    → Leaks.IsValid s.sessions
    → let p = (handle_kill_switch true s).0 in
      ((long_timeout : ℕ) (body : Decoded JobRequest) (id : Option String) (now : ℕ)
        → handle_job_create long_timeout body id now p ≡ (p, killswitch_active))
      × ((id : Option String) (starts : Bool) (now : ℕ)
          → handle_session_create id starts now p ≡ (p, killswitch_active))
      × ((q : ℕ) → ¬ IsAlive p.sessions.machine q)
      × ((id : String) (a : ℕ)
          → lookup id p.jobs.jobs ≡ some a
          → (running_at p.jobs.heap a ≡ false) × (runs_on_at p.jobs.heap a ≡ false))
unfolding handle_kill_switch handle_job_create handle_session_create is_killed
handle_kill_switch-brakes s v w = (
  λ long_timeout body id now. refl,
  λ id starts now. refl,
  (Leaks.kill_all_lem s.sessions w).0,
  (block_and_cancel_all_final "kill_switch" s.jobs v here).2,
)

decode_job_request-err :
    (body : Decoded JobRequest) (e : Response) → decode_job_request body ≡ err e → e.status ≢ 202
unfolding decode_job_request check_request
decode_job_request-err too_large e d = ground arith
decode_job_request-err malformed e d = ground arith
decode_job_request-err trailing e d = ground arith
decode_job_request-err (decoded r) e d = ground arith

-- A job request is accepted only while the kill switch is off, with a request that decodes, and
-- under a timeout of at least one second and at most the configured bound.
pub handle_job_create-accepted :
    (long_timeout : ℕ) (body : Decoded JobRequest) (id : Option String) (now : ℕ) (s : State)
    → (handle_job_create long_timeout body id now s).1.status ≡ 202
    → (is_killed s.kill_file ≡ false)
      × (r : JobRequest) × (decode_job_request body ≡ ok r)
      × (t : ℕ) × (job_timeout long_timeout r.timeout_sec ≡ pos t)
      × (1 ≤ t)
      × (t ≤ long_timeout)
unfolding handle_job_create
handle_job_create-accepted long_timeout body id now s h =
    elim (Bool-cases (is_killed s.kill_file)) [
      | inl k ↦ absurd (ne_423 (sym (rw (handle_job_create, k) refl) ∙ h))
      | inr k ↦ elim (Outcome-cases (decode_job_request body)) [
        | inr (e, d) ↦
            absurd (decode_job_request-err body e d (sym (rw (handle_job_create, k, d) refl) ∙ h))
        | inl (r, d) ↦ elim (Bool-cases (out_of_range (job_timeout long_timeout r.timeout_sec))) [
          | inl b ↦ absurd (ne_400 (sym (rw (handle_job_create, k, d, b) refl) ∙ h))
          | inr b ↦
              (let (t, e, low, high) = in_range (job_timeout long_timeout r.timeout_sec) b in
                (k, r, d, t, e, low, high))
        ]
      ]
    ]
  where
    ne_423 : ◌≢◌ {A = ℕ} 423 202
    ne_423 e = absurd (omega arith)

    ne_400 : ◌≢◌ {A = ℕ} 400 202
    ne_400 e = absurd (omega arith)

    out_of_range : ℤ → Bool
    out_of_range t = ltb_ℤ t (pos 1) || ltb_ℤ (pos long_timeout) t

    in_range :
        (t : ℤ) → out_of_range t ≡ false → (n : ℕ) × (t ≡ pos n) × (1 ≤ n) × (n ≤ long_timeout)
    in_range (pos n) b = (n, refl, ground arith, ground arith)
    in_range (negsuc n) b = absurd (ground arith)
