-- ===== src/Server/Serve.antt =====
-- internal/server/server.go: a request on its way through `securityMiddleware` and the routes of `New`
-- to its handler. Requests are served one after another.
use windows_llmmanager.Base.{
  ℕ, ◌≡◌, ◌⊎◌, inl, inr, refl, String, string_eq, List, Bool, true, false, Option, none, some,
}
use windows_llmmanager.Base.Int.{ℤ}
use windows_llmmanager.Api.{Bytes, ExecRequest, JobRequest}
use windows_llmmanager.Powershell.Results.{Course}
use windows_llmmanager.Security.Auth.{authenticate}
use windows_llmmanager.Security.Blocklist.{Blocklist, is_blocked}
use windows_llmmanager.Security.RateLimiter.{allow}
use windows_llmmanager.Server.Gate.{
  Gate, Verdict, dropped, rate_limited, unauthorized, passed, security_middleware,
  security_middleware-passed,
}
use windows_llmmanager.Server.Requests.{Response, respond, Decoded, State}
use windows_llmmanager.Server.Handlers.{
  handle_job_create, handle_job_get, handle_job_cancel, handle_session_create,
  handle_session_delete, handle_kill_switch,
}
use windows_llmmanager.Server.Exec.{
  ExecCourse, handle_exec, handle_session_exec, handle_session_restart, handle_session_info,
  handle_health, handle_blocklist_get, handle_blocklist_delete,
}

-- The routes of `New`, each with the values of its path, its body, and what its handler meets.
pub data Request : Type 0 where
  post_exec : Decoded ExecRequest → Course → Request
  post_job : Decoded JobRequest → Option String → Request
  get_job : String → Request
  delete_job : String → Request
  post_session : Option String → Bool → Request
  post_session_exec : String → Decoded ExecRequest → ExecCourse → Bool → ℕ → Request
  post_session_restart : String → Bool → Request
  get_session_info : String → Request
  delete_session : String → Request
  get_health : Request
  get_blocklist : Request
  delete_blocklist : Option String → Request
  post_kill_switch : Bool → Request

pub record Server : Type 0 where
  pub gate : Gate
  pub state : State
  pub long_timeout : ℕ
  pub update_interval : ℤ
  pub started_at : ℕ

-- A request as the middleware sees it: its address, its time, and its Authorization header.
pub record Incoming : Type 0 where
  pub ip : String
  pub now : ℕ
  pub header : Bytes
  pub request : Request

-- A verdict hands the request on, or it does not.
pub Verdict-cases :
    (v : Verdict)
    → (v ≡ passed) ⊎ ((v ≡ dropped) ⊎ ((v ≡ rate_limited) ⊎ ((n : ℕ) × (v ≡ unauthorized n))))
Verdict-cases passed = inl refl
Verdict-cases dropped = inr (inl refl)
Verdict-cases rate_limited = inr (inr (inl refl))
Verdict-cases (unauthorized n) = inr (inr (inr (n, refl)))

abbrev pub on_state : Server → State × Response → Server × Response
on_state s (state, response) = (record s { state = state }, response)

abbrev pub on_blocklist : Server → Blocklist × Response → Server × Response
on_blocklist s (b, response) =
    let g = s.gate in (record s { gate = record g { blocklist = b } }, response)

module _ (json_valid : Bytes → Bool) (marshal_lines : List Bytes → Bytes) where
  unfoldable pub handle : Request → ℕ → Server → Server × Response
  handle (post_exec body c) now s = on_state s (handle_exec json_valid marshal_lines body c s.state)
  handle (post_job body id) now s =
      on_state s (handle_job_create s.long_timeout body id now s.state)
  handle (get_job id) now s = on_state s (handle_job_get id now s.state)
  handle (delete_job id) now s = on_state s (handle_job_cancel id s.state)
  handle (post_session id starts) now s = on_state s (handle_session_create id starts now s.state)
  handle (post_session_exec id body c starts elapsed_ms) now s =
      on_state s
        (handle_session_exec json_valid marshal_lines id body c starts now elapsed_ms s.state)
  handle (post_session_restart id starts) now s =
      on_state s (handle_session_restart id starts now s.state)
  handle (get_session_info id) now s = on_state s (handle_session_info id now s.state)
  handle (delete_session id) now s = on_state s (handle_session_delete id s.state)
  handle get_health now s = on_state s (handle_health s.update_interval s.started_at now s.state)
  handle get_blocklist now s = on_blocklist s (handle_blocklist_get s.gate.blocklist)
  handle (delete_blocklist ip) now s = on_blocklist s (handle_blocklist_delete ip s.gate.blocklist)
  handle (post_kill_switch writes) now s = on_state s (handle_kill_switch writes s.state)

  module _ (sha256 : Bytes → Bytes) where
    -- The middleware lets the request through.
    abbrev pub Admitted : Incoming → Gate → Type 0
    Admitted req g =
        (is_blocked g.blocklist req.ip ≡ false)
        × ((allow req.ip req.now g.limiter).1 ≡ true)
        × (authenticate sha256 g.auth req.header ≡ true)

    -- A request and its answer, which a blocked address does not get.
    unfoldable pub serve : Incoming → Server → Server × Option Response
    serve req s =
        let (gate, verdict) = security_middleware sha256 req.ip req.now req.header s.gate in
        let s' = record s { gate = gate } in
        elim verdict [
          | dropped ↦ (s', none)
          | rate_limited ↦ (s', some (respond 429 "rate_limited"))
          | unauthorized _ ↦ (s', some (respond 401 "auth_failed"))
          | passed ↦ let (s'', response) = handle req.request req.now s' in (s'', some response)
        ]

    -- Whatever holds of the handlers' state and of what a handler makes of it holds of what a request
    -- leaves.
    pub serve-state {ℓ} :
        (P : State → Type ℓ) (req : Incoming) (s : Server)
        → P s.state
        → ((g : Gate)
            → (security_middleware sha256 req.ip req.now req.header s.gate).1 ≡ passed
            → P (handle req.request req.now (record s { gate = g })).0.state)
        → P (serve req s).0.state
    unfolding serve
    serve-state P req s same handled =
        let (g, v) = security_middleware sha256 req.ip req.now req.header s.gate in
        elim (Verdict-cases v) [
          | inl e ↦ rw (e, serve) (handled g e)
          | inr (inl e) ↦ rw (e, serve) same
          | inr (inr (inl e)) ↦ rw (e, serve) same
          | inr (inr (inr (n, e))) ↦ rw (e, serve) same
        ]

    -- A request reaches jobs, sessions, the runner, the kill switch and the handlers' audit log only if
    -- its address is not blocked, the rate limiter lets it through and it bears the token; else all of
    -- them are as they were.
    pub serve-guarded :
        (req : Incoming) (s : Server) → ((serve req s).0.state ≡ s.state) ⊎ Admitted req s.gate
    serve-guarded req s =
        serve-state (λ state. (state ≡ s.state) ⊎ Admitted req s.gate) req s (inl refl)
          (λ g e. inr ((security_middleware-passed sha256 req.ip req.now req.header s.gate).0 e))
