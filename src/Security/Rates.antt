-- ===== src/Security/Rates.antt =====
-- internal/security/ratelimit.go: how many requests of one address get through.
use windows_llmmanager.Base.{
  ℕ, zero, suc, ◌+◌, ◌-◌, ◌*◌, ◌≤◌, ◌≡◌, ◌≢◌, ◌⊎◌, inl, inr, refl, sym, ◌∙◌, subst, String,
  string_eq, ◌==◌, List, [], ◌∷◌, ◌&&◌, none, some, leb, ltb, if◌then◌else◌, arith,
}
use windows_llmmanager.Base.Dict.{lookup, insert, lookup-insert}
use windows_llmmanager.Base.Int.{pos, ◌+ℤ◌, ◌-ℤ◌, ◌*ℤ◌}
use windows_llmmanager.Security.RateLimiter.{
  RateLimiter, token, new_limiter, or_full, refill, spend, allow,
}

-- The tokens of a call, in natural numbers, when time has not stepped back.
unfoldable pub level : ℕ → ℕ → ℕ → ℕ → ℕ
level rate capacity elapsed t =
    if ltb (capacity * token) (t + elapsed * rate) then capacity * token else t + elapsed * rate

refill-level :
    (rate capacity now t last : ℕ)
    → last ≤ now
    → refill rate capacity now (record { tokens = pos t; last = last })
      ≡ pos (level rate capacity (now - last) t)
unfolding refill level ◌+ℤ◌ ◌*ℤ◌
refill-level rate capacity now t last le = ground arith

spend-pos :
    (u now : ℕ)
    → spend (pos u) now
      ≡ (record { tokens = pos (if leb token u then u - token else u); last = now }, leb token u)
unfolding spend ◌-ℤ◌
spend-pos u now = ground arith

abbrev pub after : ℕ → ℕ
after u = if leb token u then u - token else u

-- The limiter after a call that found `u` tokens.
abbrev charge : String → ℕ → ℕ → RateLimiter → RateLimiter
charge ip u now r = record r {
  buckets = insert ip (record { tokens = pos (after u); last = now }) r.buckets;
}

-- The address has `t` tokens, counted at `last`: in its bucket, or as a newcomer.
abbrev pub Has : String → ℕ → ℕ → RateLimiter → Type 0
Has ip t last r =
    (lookup ip r.buckets ≡ some (record { tokens = pos t; last = last }))
    ⊎ ((lookup ip r.buckets ≡ none) × (t ≡ r.capacity * token))

allow-some :
    (ip : String) (now t last : ℕ) (r : RateLimiter)
    → lookup ip r.buckets ≡ some (record { tokens = pos t; last = last })
    → last ≤ now
    → let u = level r.rate r.capacity (now - last) t in
      allow ip now r ≡ (charge ip u now r, leb token u)
unfolding allow
allow-some ip now t last r e le =
    rw
      (
        e,
        allow,
        refill-level r.rate r.capacity now t last le,
        spend-pos (level r.rate r.capacity (now - last) t) now,
      )
      refl

allow-none :
    (ip : String) (now : ℕ) (r : RateLimiter)
    → lookup ip r.buckets ≡ none
    → let u = level r.rate r.capacity (now - now) (r.capacity * token) in
      allow ip now r ≡ (charge ip u now r, leb token u)
unfolding allow
allow-none ip now r e =
    rw
      (
        e,
        allow,
        refill-level r.rate r.capacity now (r.capacity * token) now (omega arith),
        spend-pos (level r.rate r.capacity (now - now) (r.capacity * token)) now,
      )
      refl

-- A request: who, and when.
abbrev pub Request : Type 0
Request = String × ℕ

-- How many requests of the address `j` are let through.
pub served : String → List Request → RateLimiter → ℕ
served j [] r = 0
served j ((ip, now) ∷ rest) r =
    let (r', allowed) = allow ip now r in
    let others = served j rest r' in if ip == j && allowed then suc others else others

-- Requests in the order of their times, from `start` to `end`.
abbrev pub Within : ℕ → ℕ → List Request → Type 0
Within start end [] = start ≤ end
Within start end ((_, now) ∷ rest) = (start ≤ now) × Within now end rest

-- The elapsed times add up.
elapsed : (a b c r : ℕ) → a ≤ b → b ≤ c → (b - a) * r + (c - b) * r ≡ (c - a) * r
elapsed a b c r p q = grind arith

level-le : (rate capacity e t : ℕ) → level rate capacity e t ≤ t + e * rate
unfolding level
level-le rate capacity e t = ground arith

level-zero : (rate capacity t : ℕ) → t ≤ capacity * token → level rate capacity 0 t ≡ t
unfolding level
level-zero rate capacity t h = ground arith

no_time : (n r : ℕ) → (n - n) * r ≡ 0
no_time n r = let e : n - n ≡ 0 = omega arith in rw e (omega arith)

-- One call of an address that has `t` tokens.
allow-Has :
    (ip : String) (now t last : ℕ) (r : RateLimiter)
    → Has ip t last r
    → last ≤ now
    → (u : ℕ) × (u ≤ t + (now - last) * r.rate)
      × (allow ip now r ≡ (charge ip u now r, leb token u))
allow-Has ip now t last r (inl e) le = (
  level r.rate r.capacity (now - last) t,
  level-le r.rate r.capacity (now - last) t,
  allow-some ip now t last r e le,
)
allow-Has ip now t last r (inr (e, f)) le = (
  level r.rate r.capacity (now - now) (r.capacity * token),
  omega (arith, level-le r.rate r.capacity (now - now) (r.capacity * token), no_time now r.rate, f),
  allow-none ip now r e,
)

allow-Has_other :
    (j ip : String) (now t last : ℕ) (r : RateLimiter)
    → ip ≢ j
    → Has j t last r
    → Has j t last (allow ip now r).0
unfolding allow
allow-Has_other j ip now t last r ne h = ground (
  arith,
  lookup-insert j ip
      (spend (refill r.rate r.capacity now (or_full r.capacity now (lookup ip r.buckets))) now).0
      r.buckets,
)

rate-allow : (ip : String) (now : ℕ) (r : RateLimiter) → (allow ip now r).0.rate ≡ r.rate
unfolding allow
rate-allow ip now r = refl

Has-charge : (ip : String) (u now : ℕ) (r : RateLimiter) → Has ip (after u) now (charge ip u now r)
Has-charge ip u now r =
    inl (
      ground (arith, lookup-insert ip ip (record { tokens = pos (after u); last = now }) r.buckets))

spend_step :
    (u t n now last end rate : ℕ)
    → last ≤ now
    → now ≤ end
    → u ≤ t + (now - last) * rate
    → n * token ≤ after u + (end - now) * rate
    → (if leb token u then suc n else n) * token ≤ t + (end - last) * rate
spend_step u t n now last end rate le ne b ih = ground (arith, elapsed last now end rate le ne)

Within-le : (reqs : List Request) (start end : ℕ) → Within start end reqs → start ≤ end
Within-le [] start end w = w
Within-le ((_, now) ∷ rest) start end (s, w) = omega (arith, Within-le rest now end w)

-- What gets through in a time costs no more than the tokens that were there at its start and those
-- that the time brought.
served_bound :
    (j : String) (reqs : List Request) (t last start end : ℕ) (r : RateLimiter)
    → Has j t last r
    → last ≤ start
    → Within start end reqs
    → served j reqs r * token ≤ t + (end - last) * r.rate
unfolding served
served_bound j [] t last start end r h le w = omega arith
served_bound j ((ip, now) ∷ rest) t last start end r h le (s, w) = elim (string_eq.dec ip j) [
  | yes same ↦
      let (u, bound, e) =
        allow-Has ip now t last r (subst (λ x. Has x t last r) (sym same) h) (omega arith) in
      rw e (
        ground (
          arith,
          same,
          spend_step u t (served j rest (charge ip u now r)) now last end r.rate,
          Within-le rest now end w,
          served_bound j rest (after u) now now end (charge ip u now r)
              (subst (λ x. Has x (after u) now (charge ip u now r)) same (Has-charge ip u now r))
              (omega arith) w,
        ))
  | no differ ↦ ground (
    arith,
    rate-allow ip now r,
    served_bound j rest t last now end (allow ip now r).0
        (allow-Has_other j ip now t last r differ h) (omega arith) w,
  )
]

-- Of the requests that one address makes, in order of time, from `start` to `end`, at most the
-- burst and what the rate brings in that time get through, whatever other addresses do meanwhile.
pub served-le :
    (j : String) (reqs : List Request) (start end per_second burst : ℕ)
    → Within start end reqs
    → served j reqs (new_limiter per_second burst) * token
      ≤ burst * token + (end - start) * per_second
unfolding new_limiter lookup
served-le j reqs start end per_second burst w =
    served_bound j reqs (burst * token) start start end (new_limiter per_second burst)
      (inr (refl, refl)) (omega arith) w

abbrev pub at_once : String → ℕ → ℕ → List Request
at_once j now zero = []
at_once j now (suc n) = (j, now) ∷ at_once j now n

level_now :
    (rate capacity now k : ℕ)
    → k ≤ capacity
    → level rate capacity (now - now) (k * token) ≡ k * token
level_now rate capacity now k le =
    let e : now - now ≡ 0 = omega arith in rw e (level-zero rate capacity (k * token) (omega arith))

allow_now :
    (j : String) (k now : ℕ) (r : RateLimiter)
    → Has j (k * token) now r
    → k ≤ r.capacity
    → allow j now r ≡ (charge j (k * token) now r, leb token (k * token))
allow_now j k now r (inl e) le =
    allow-some j now (k * token) now r e (omega arith)
    ∙ rw (level_now r.rate r.capacity now k le) refl
allow_now j k now r (inr (e, f)) le =
    allow-none j now r e ∙ rw (level_now r.rate r.capacity now r.capacity (omega arith), ← f) refl

after_tokens : (k : ℕ) → after (k * token) ≡ (k - 1) * token
after_tokens k = ground arith

served_full :
    (j : String) (n k now : ℕ) (r : RateLimiter)
    → Has j (k * token) now r
    → k ≤ r.capacity
    → served j (at_once j now n) r ≡ (if ltb n k then n else k)
unfolding served
served_full j zero k now r h le = ground arith
served_full j (suc n) k now r h le = rw (allow_now j k now r h le) (
    ground (
      arith,
      served_full j n (k - 1) now (charge j (k * token) now r)
          (subst (λ t. Has j t now (charge j (k * token) now r)) (after_tokens k)
            (Has-charge j (k * token) now r))
          (omega arith),
    ))

-- A newcomer's requests at one moment all get through up to the burst, and no more.
pub served-at_once :
    (j : String) (n now per_second burst : ℕ)
    → served j (at_once j now n) (new_limiter per_second burst) ≡ (if ltb n burst then n else burst)
unfolding new_limiter lookup
served-at_once j n now per_second burst =
    served_full j n burst now (new_limiter per_second burst) (inr (refl, refl)) (omega arith)
