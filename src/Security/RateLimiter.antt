-- ===== src/Security/RateLimiter.antt =====
-- internal/security/ratelimit.go. Tokens are counted exactly, in billionths of a token, where the
-- program has a float64: a nanosecond then refills `rate` of them. Times are in nanoseconds; they may
-- step back between two calls, since the caller reads the clock before it takes the lock.
use windows_llmmanager.Base.{
  ℕ, ◌*◌, String, string_eq, [], Bool, not, Option, none, some, if◌then◌else◌,
}
use windows_llmmanager.Base.Dict.{Dict, lookup, insert}
use windows_llmmanager.Base.Int.{ℤ, pos, sub_ℕ, ◌+ℤ◌, ◌-ℤ◌, ◌*ℤ◌, ltb_ℤ}

pub record Bucket : Type 0 where
  pub tokens : ℤ
  pub last : ℕ

pub record RateLimiter : Type 0 where
  pub rate : ℕ
  pub capacity : ℕ
  pub buckets : Dict String Bucket

abbrev pub token : ℕ
token = 1000000000

unfoldable pub new_limiter : ℕ → ℕ → RateLimiter
new_limiter per_second burst = record { rate = per_second; capacity = burst; buckets = [] }

abbrev pub or_full : ℕ → ℕ → Option Bucket → Bucket
or_full capacity now none = record { tokens = pos (capacity * token); last = now }
or_full capacity now (some b) = b

-- The elapsed time at the rate, no more than the capacity.
unfoldable pub refill : ℕ → ℕ → ℕ → Bucket → ℤ
refill rate capacity now b =
    let filled = b.tokens +ℤ sub_ℕ now b.last *ℤ pos rate in
    if ltb_ℤ (pos (capacity * token)) filled then pos (capacity * token) else filled

unfoldable pub spend : ℤ → ℕ → Bucket × Bool
spend tokens now =
    let allowed = not (ltb_ℤ tokens (pos token)) in
    (record { tokens = if allowed then tokens -ℤ pos token else tokens; last = now }, allowed)

unfoldable pub allow : String → ℕ → RateLimiter → RateLimiter × Bool
allow ip now r =
    let b = or_full r.capacity now (lookup ip r.buckets) in
    let (b', allowed) = spend (refill r.rate r.capacity now b) now in
    (record r { buckets = insert ip b' r.buckets }, allowed)
