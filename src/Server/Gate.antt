-- ===== src/Server/Gate.antt =====
-- internal/server/server.go: `securityMiddleware`, which every request passes before its handler. The
-- blocklist, the rate limiter and the token are those of internal/security; SHA-256 is a parameter.
use windows_llmmanager.Base.{
  ℕ, ◌-◌, ◌≡◌, ◌↔◌, inl, inr, String, string_eq, ◌==◌, List, [], ◌∷◌, ◌++◌, Bool, true, false, not,
  if◌then◌else◌, Bool-cases, arith,
}
use windows_llmmanager.Api.{Bytes}
use windows_llmmanager.Security.Auth.{TokenAuth, authenticate}
use windows_llmmanager.Security.Blocklist.{Blocklist, is_blocked, record_failure, record_success}
use windows_llmmanager.Security.RateLimiter.{RateLimiter, allow}
use windows_llmmanager.Security.Standing.{
  Standing, fail, succeed, standing, standing-record_failure, standing-record_success,
}

-- The audit events that it writes, with their details.
pub data GateEvent : Type 0 where
  blocked_request_dropped : GateEvent
  auth_failed : ℕ → Bool → GateEvent
  ip_auto_blocked : ℕ → GateEvent

pub record Gate : Type 0 where
  pub blocklist : Blocklist
  pub limiter : RateLimiter
  pub auth : TokenAuth
  pub threshold : ℕ
  pub written : List (String × GateEvent)

-- What becomes of a request: its connection is closed without an answer, it is answered 429 or 401
-- (with `attempts_before_block`), or it is handed on.
pub data Verdict : Type 0 where
  dropped rate_limited passed : Verdict
  unauthorized : ℕ → Verdict

module _ (sha256 : Bytes → Bytes) where
  -- The answer to a request without the token.
  unfoldable pub refuse : String → ℕ → Gate → Gate × Verdict
  unfolding record_failure
  refuse ip now g =
      let (blocklist, count, blocked) = record_failure ip now g.blocklist in
      let banned_event = if blocked then (ip, ip_auto_blocked count) ∷ [] else [] in
      (
        record g {
          blocklist = blocklist;
          written = g.written ++ (ip, auth_failed count blocked) ∷ banned_event;
        },
        unauthorized (g.threshold - count),
      )

  unfoldable pub security_middleware : String → ℕ → Bytes → Gate → Gate × Verdict
  unfolding is_blocked allow authenticate refuse record_success
  security_middleware ip now header g =
      if is_blocked g.blocklist ip
      then (record g { written = g.written ++ (ip, blocked_request_dropped) ∷ [] }, dropped)
      else let (limiter, allowed) = allow ip now g.limiter in
        let limited = record g { limiter = limiter } in
        if not allowed
        then (limited, rate_limited)
        else if not (authenticate sha256 g.auth header)
        then refuse ip now limited
        else (record limited { blocklist = record_success ip g.blocklist }, passed)

  -- A request is handed on exactly if its address is not blocked, the rate limiter lets it through,
  -- and it bears the token.
  pub security_middleware-passed :
      (ip : String) (now : ℕ) (header : Bytes) (g : Gate)
      → ((security_middleware ip now header g).1 ≡ passed) ↔ (
          (is_blocked g.blocklist ip ≡ false)
          × ((allow ip now g.limiter).1 ≡ true)
          × (authenticate sha256 g.auth header ≡ true))
  unfolding security_middleware refuse
  security_middleware-passed ip now header g = elim (Bool-cases (is_blocked g.blocklist ip)) [
    | inl b ↦ rw (security_middleware, b) (ground arith)
    | inr b ↦ elim (Bool-cases (allow ip now g.limiter).1) [
      | inr a ↦ rw (security_middleware, b, a) (ground arith)
      | inl a ↦ elim (Bool-cases (authenticate sha256 g.auth header)) [
        | inr t ↦ rw (security_middleware, b, a, t) (ground arith)
        | inl t ↦ rw (security_middleware, b, a, t) (ground arith)
      ]
    ]
  ]

  -- What a verdict does to the standing of the address.
  unfoldable pub after_verdict : ℕ → Verdict → Standing → Standing
  after_verdict threshold dropped s = s
  after_verdict threshold rate_limited s = s
  after_verdict threshold passed s = succeed s
  after_verdict threshold (unauthorized _) s = fail threshold s

  -- A request moves the standing of its own address only, as its verdict says: a refused one is a
  -- failure, one that is handed on is a success, and one that is dropped or rate-limited is neither.
  pub security_middleware-standing :
      (j ip : String) (now : ℕ) (header : Bytes) (g : Gate)
      → let (after, verdict) = security_middleware ip now header g in
        standing j after.blocklist ≡ (
          if j == ip
          then after_verdict g.blocklist.threshold verdict (standing j g.blocklist)
          else standing j g.blocklist)
  unfolding security_middleware refuse after_verdict
  security_middleware-standing j ip now header g = elim (Bool-cases (is_blocked g.blocklist ip)) [
    | inl b ↦ rw (security_middleware, b) (ground arith)
    | inr b ↦ elim (Bool-cases (allow ip now g.limiter).1) [
      | inr a ↦ rw (security_middleware, b, a) (ground arith)
      | inl a ↦ elim (Bool-cases (authenticate sha256 g.auth header)) [
        | inr t ↦ rw (security_middleware, b, a, t) (standing-record_failure j ip now g.blocklist)
        | inl t ↦ rw (security_middleware, b, a, t) (standing-record_success j ip g.blocklist)
      ]
    ]
  ]
