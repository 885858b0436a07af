-- ===== src/Security/Standing.antt =====
-- internal/security/blocklist.go: what the blocklist promises about one address, and that the two
-- maps implement it.
use windows_llmmanager.Base.{
  ℕ, ◌+◌, ◌<◌, ◌≡◌, ◌≢◌, refl, ap, ◌∙◌, String, string_eq, ◌==◌, List, [], ◌∷◌, map, Bool, true,
  false, Option, none, some, length, leb, ltb, if◌then◌else◌, arith, All,
}
use windows_llmmanager.Base.Dict.{lookup, insert, lookup-insert, lookup-erase}
use windows_llmmanager.Security.Blocklist.{
  BlockEntry, Blocklist, or_zero, is_blocked, record_failure, record_success, remove,
}

-- The specification: an address is free, with the failures since its last success, or banned.
pub data Standing : Type 0 where
  free : ℕ → Standing
  banned : ℕ → Standing

abbrev pub fail : ℕ → Standing → Standing
fail threshold (free n) = if leb threshold (n + 1) then banned (n + 1) else free (n + 1)
fail threshold (banned n) = banned n

abbrev pub succeed : Standing → Standing
succeed (free n) = free 0
succeed (banned n) = banned n

abbrev pub standing_of : Option BlockEntry → Option ℕ → Standing
standing_of (some entry) _ = banned entry.failed_attempts
standing_of none count = free (or_zero count)

unfoldable pub standing : String → Blocklist → Standing
standing ip b = standing_of (lookup ip b.blocked) (lookup ip b.failures)

pub standing-record_failure :
    (j ip : String) (now : ℕ) (b : Blocklist)
    → standing j (record_failure ip now b).0
      ≡ (if j == ip then fail b.threshold (standing j b) else standing j b)
unfolding standing record_failure
standing-record_failure j ip now b = ground (
  arith,
  lookup-insert j ip (or_zero (lookup ip b.failures) + 1) b.failures,
  lookup-erase j ip (insert ip (or_zero (lookup ip b.failures) + 1) b.failures),
  lookup-insert j ip
      (record { ip = ip; blocked_at = now; failed_attempts = or_zero (lookup ip b.failures) + 1 })
      b.blocked,
)

pub standing-record_success :
    (j ip : String) (b : Blocklist)
    → standing j (record_success ip b) ≡ (if j == ip then succeed (standing j b) else standing j b)
unfolding standing record_success
standing-record_success j ip b = ground (arith, lookup-erase j ip b.failures)

standing-remove :
    (j ip : String) (b : Blocklist)
    → standing j (remove ip b).0 ≡ (if j == ip then free 0 else standing j b)
unfolding standing remove
standing-remove j ip b = ground (arith, lookup-erase j ip b.failures, lookup-erase j ip b.blocked)

-- The calls that change the blocklist: a failed and a successful login, and the operator's removal.
pub data Call : Type 0 where
  fails : String → ℕ → Call
  succeeds removes : String → Call

pub step : Blocklist → Call → Blocklist
step b (fails ip now) = (record_failure ip now b).0
step b (succeeds ip) = record_success ip b
step b (removes ip) = (remove ip b).0

abbrev pub address : Call → String
address (fails ip _) = ip
address (succeeds ip) = ip
address (removes ip) = ip

abbrev pub meaning : ℕ → Call → Standing → Standing
meaning threshold (fails _ _) s = fail threshold s
meaning threshold (succeeds _) s = succeed s
meaning threshold (removes _) s = free 0

-- The blocklist implements the specification: a call moves the standing of its own address as
-- specified, and the standing of no other.
pub standing-step :
    (j : String) (b : Blocklist) (c : Call)
    → standing j (step b c)
      ≡ (if j == address c then meaning b.threshold c (standing j b) else standing j b)
unfolding step
standing-step j b (fails ip now) = standing-record_failure j ip now b
standing-step j b (succeeds ip) = standing-record_success j ip b
standing-step j b (removes ip) = standing-remove j ip b

pub run : Blocklist → List Call → Blocklist
run b [] = b
run b (c ∷ cs) = run (step b c) cs

threshold-step : (b : Blocklist) (c : Call) → (step b c).threshold ≡ b.threshold
unfolding step record_failure record_success remove
threshold-step b (fails ip now) = ground arith
threshold-step b (succeeds ip) = refl
threshold-step b (removes ip) = refl

abbrev pub is_banned : Standing → Bool
is_banned (free _) = false
is_banned (banned _) = true

abbrev pub attempts : Standing → ℕ
attempts (free n) = n
attempts (banned n) = n

pub is_blocked-standing :
    (b : Blocklist) (ip : String) → is_blocked b ip ≡ is_banned (standing ip b)
unfolding is_blocked standing
is_blocked-standing b ip = ground arith

-- `RecordFailure` returns the attempts and the ban that it leaves.
pub record_failure-standing :
    (ip : String) (now : ℕ) (b : Blocklist)
    → let (after, count, blocked) = record_failure ip now b in
      (count ≡ attempts (standing ip after)) × (blocked ≡ is_blocked after ip)
unfolding record_failure standing is_blocked
record_failure-standing ip now b = ground (
  arith,
  lookup-insert ip ip (or_zero (lookup ip b.failures) + 1) b.failures,
  lookup-erase ip ip (insert ip (or_zero (lookup ip b.failures) + 1) b.failures),
  lookup-insert ip ip
      (record { ip = ip; blocked_at = now; failed_attempts = or_zero (lookup ip b.failures) + 1 })
      b.blocked,
)

-- A ban stays, whatever happens at any address, until the operator removes it.
pub run_banned :
    (ip : String) (n : ℕ) (cs : List Call) (b : Blocklist)
    → standing ip b ≡ banned n
    → All (λ c. c ≢ removes ip) cs
    → (standing ip (run b cs) ≡ banned n) × (is_blocked (run b cs) ip ≡ true)
unfolding run
run_banned ip n [] b e _ = (e, is_blocked-standing b ip ∙ ap is_banned e)
run_banned ip n (c ∷ cs) b e (ne, rest) = run_banned ip n cs (step b c) (stays c ne) rest
  where
    stays : (c : Call) → c ≢ removes ip → standing ip (step b c) ≡ banned n
    stays (fails k now) ne = ground (arith, standing-step ip b (fails k now))
    stays (succeeds k) ne = ground (arith, standing-step ip b (succeeds k))
    stays (removes k) ne = ground (arith, standing-step ip b (removes k))

fails-ne-removes : (ip : String) (nows : List ℕ) → All (λ c. c ≢ removes ip) (map (fails ip) nows)
fails-ne-removes ip [] = tt
fails-ne-removes ip (now ∷ nows) = ((λ e. cc), fails-ne-removes ip nows)

-- An address that is free with `k` failures counted, `k` below the threshold, is banned by the
-- failure that makes them as many as the threshold, and by none before it; the ban records just
-- that many.
pub standing-run_fails :
    (nows : List ℕ) (k : ℕ) (ip : String) (b : Blocklist)
    → standing ip b ≡ free k
    → k < b.threshold
    → standing ip (run b (map (fails ip) nows))
      ≡ (if ltb (length nows + k) b.threshold then free (length nows + k) else banned b.threshold)
unfolding run
standing-run_fails [] k ip b e lt = ground arith
standing-run_fails (now ∷ nows) k ip b e lt = ground (
  arith,
  standing-step ip b (fails ip now),
  threshold-step b (fails ip now),
  standing-run_fails nows (k + 1) ip (step b (fails ip now)),
  run_banned ip (k + 1) (map (fails ip) nows) (step b (fails ip now)),
  fails-ne-removes ip nows,
)
