-- ===== src/Tests/Security.antt =====
-- internal/security and the middleware at concrete inputs.
use windows_llmmanager.Base.{
  ◌+◌, ◌-◌, ◌*◌, ◌≤◌, ◌≡◌, ◌↔◌, String, string_eq, ◌==◌, List, [], ◌∷◌, ◌++◌, true, false,
  if◌then◌else◌, arith,
}
use windows_llmmanager.Api.{Bytes}
use windows_llmmanager.Text.{codes, trim_space}
use windows_llmmanager.Security.Blocklist.{Blocklist, new_blocklist, is_blocked}
use windows_llmmanager.Security.Standing.{standing, fails, step, address, meaning, standing-step}
use windows_llmmanager.Security.RateLimiter.{new_limiter, token, allow}
use windows_llmmanager.Security.Rates.{Request, Within, served, served-le}
use windows_llmmanager.Security.Auth.{authenticate, bearer, token_auth, authenticate_iff}
use windows_llmmanager.Server.Gate.{
  Gate, passed, security_middleware, after_verdict, security_middleware-passed,
  security_middleware-standing,
}

abbrev ip : String
ip = "203.0.113.7"

abbrev fresh : Blocklist
fresh = new_blocklist 3

-- A stand-in for SHA-256.
abbrev digest : Bytes → Bytes
digest s = s

abbrev gate : Gate
gate = record {
  blocklist = fresh;
  limiter = new_limiter 5 10;
  auth = token_auth digest (codes "secret");
  threshold = 3;
  written = [];
}

standing-step_example : standing ip (step fresh (fails ip 7)) ≡ (
    if ip == address (fails ip 7)
    then meaning fresh.threshold (fails ip 7) (standing ip fresh)
    else standing ip fresh)
standing-step_example = standing-step ip fresh (fails ip 7)

abbrev requests : List Request
requests = (ip, 1) ∷ ("198.51.100.1", 2) ∷ (ip, 3) ∷ []

requests-Within : Within 0 5 requests
requests-Within = (omega arith, (omega arith, (omega arith, omega arith)))

served-le_example : served ip requests (new_limiter 5 10) * token ≤ 10 * token + (5 - 0) * 5
served-le_example = served-le ip requests 0 5 5 10 requests-Within

abbrev header : Bytes
header = codes "Bearer secret"

authenticate_iff_example : (authenticate digest gate.auth header ≡ true) ↔ (
    (rest : Bytes) × (header ≡ bearer digest ++ rest) × (gate.auth.hash ≡ digest (trim_space rest)))
authenticate_iff_example = authenticate_iff digest gate.auth header

security_middleware-passed_example : ((security_middleware digest ip 7 header gate).1 ≡ passed) ↔ (
    (is_blocked gate.blocklist ip ≡ false)
    × ((allow ip 7 gate.limiter).1 ≡ true)
    × (authenticate digest gate.auth header ≡ true))
security_middleware-passed_example = security_middleware-passed digest ip 7 header gate

security_middleware-standing_example :
    let (after, verdict) = security_middleware digest ip 7 (codes "Bearer wrong") gate in
    standing ip after.blocklist ≡ (
      if ip == ip
      then after_verdict digest gate.blocklist.threshold verdict (standing ip gate.blocklist)
      else standing ip gate.blocklist)
security_middleware-standing_example =
    security_middleware-standing digest ip ip 7 (codes "Bearer wrong") gate
