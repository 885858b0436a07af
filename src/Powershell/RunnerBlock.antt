-- ===== src/Powershell/RunnerBlock.antt =====
-- internal/powershell/runner.go: no child process outlives a block for longer than its own start.
use windows_llmmanager.Base.{
  ℕ, ◌<◌, ◌≡◌, ◌⊎◌, refl, string_eq, List, [], ◌∷◌, Bool, true, false, none, some, get_elem?, set,
  length, arith, nat_eq, get_elem?-set-some, get_elem?-append-some,
}
use windows_llmmanager.Base.Dict.{Dict, lookup, lookup-insert, lookup-erase}
use windows_llmmanager.Powershell.Runner.{
  Runner, new_runner, check_blocked, start, enter, leave, kill_each, kill_active,
  block_and_kill_all,
}

-- The steps of the runs and of the callers that stop them.
pub data Step : Runner → Runner → Type 0 where
  checks : (r : Runner) → Step r (check_blocked r).0
  starts : (does : Bool) (r : Runner) → 0 < r.cleared → Step r (start does r)
  enters : (p : ℕ) (r : Runner) → lookup p r.starting ≡ some tt → Step r (enter p r).0
  leaves : (p : ℕ) (r : Runner) → lookup p r.active ≡ some tt → Step r (leave p r)
  kills : (r : Runner) → Step r (kill_active r)
  blocks : (r : Runner) → Step r (block_and_kill_all r)

pub data Reach : Runner → Runner → Type 0 where
  here : (r : Runner) → Reach r r
  next : {r s t : Runner} → Reach r s → Step s t → Reach r t

unfoldable pub IsAlive : Runner → ℕ → Type 0
IsAlive r p = get_elem? r.alive p ≡ some true

-- A live child is starting, or, unless the runner is blocked, active.
unfoldable pub IsHeld : Runner → Type 0
IsHeld r =
    (p : ℕ)
    → IsAlive r p
    → (lookup p r.starting ≡ some tt) ⊎ ((r.blocked ≡ false) × (lookup p r.active ≡ some tt))

kill_each-some :
    (d : Dict ℕ (Unit {0})) (alive : List Bool) (p : ℕ)
    → get_elem? (kill_each d alive) p ≡ some true
    → (get_elem? alive p ≡ some true) × (lookup p d ≡ none)
unfolding kill_each lookup
kill_each-some [] alive p h = (h, refl)
kill_each-some ((q, _) ∷ d) alive p h =
    ground
      (arith, kill_each-some d (set alive q false) p h, get_elem?-set-some alive q p false true)

Step-IsHeld : {r s : Runner} → Step r s → IsHeld r → IsHeld s
unfolding IsHeld IsAlive check_blocked start enter leave kill_active block_and_kill_all
Step-IsHeld (checks r) held p h = ground (arith, held p)
Step-IsHeld (starts does r room) held p h = ground (
  arith,
  held p,
  get_elem?-append-some r.alive p true true,
  lookup-insert p (length r.alive) tt r.starting,
)
Step-IsHeld (enters q r known) held p h = ground (
  arith,
  held p,
  get_elem?-set-some r.alive q p false true,
  lookup-erase p q r.starting,
  lookup-insert p q tt r.active,
)
Step-IsHeld (leaves q r known) held p h =
    ground (arith, held p, get_elem?-set-some r.alive q p false true, lookup-erase p q r.active)
Step-IsHeld (kills r) held p h = ground (arith, held p, kill_each-some r.active r.alive p h)
Step-IsHeld (blocks r) held p h = ground (arith, held p, kill_each-some r.active r.alive p h)

Reach-IsHeld : {r s : Runner} → Reach r s → IsHeld r → IsHeld s
Reach-IsHeld (here r) held = held
Reach-IsHeld (next c step) held = Step-IsHeld step (Reach-IsHeld c held)

new_runner-IsHeld : IsHeld new_runner
unfolding IsHeld IsAlive new_runner
new_runner-IsHeld p h = absurd (ground arith)

Step-blocked : {r s : Runner} → Step r s → r.blocked ≡ true → s.blocked ≡ true
unfolding check_blocked start enter leave kill_active block_and_kill_all
Step-blocked (checks r) b = ground arith
Step-blocked (starts does r room) b = ground arith
Step-blocked (enters q r known) b = ground arith
Step-blocked (leaves q r known) b = b
Step-blocked (kills r) b = b
Step-blocked (blocks r) b = refl

Reach-blocked : {r s : Runner} → Reach r s → r.blocked ≡ true → s.blocked ≡ true
Reach-blocked (here r) b = b
Reach-blocked (next c step) b = Step-blocked step (Reach-blocked c b)

block_and_kill_all-blocked : (r : Runner) → (block_and_kill_all r).blocked ≡ true
unfolding block_and_kill_all kill_active
block_and_kill_all-blocked r = refl

enter-killed :
    (r : Runner) (p : ℕ) → r.blocked ≡ true → ((enter p r).1 ≡ false) × ¬ IsAlive (enter p r).0 p
unfolding enter IsAlive
enter-killed r p b = rw (b) (refl, λ h. ground (arith, get_elem?-set-some r.alive p p false true h))

-- From `BlockAndKillAll` on, whatever follows: no run finds the runner unblocked, every child that
-- lives is one that its run has started and not entered yet, and entering it kills it and fails the
-- run.
pub block_and_kill_all-final :
    {r s : Runner}
    → Reach new_runner r
    → Reach (block_and_kill_all r) s
    → ((check_blocked s).1 ≡ false)
      × ((p : ℕ) → IsAlive s p → lookup p s.starting ≡ some tt)
      × ((p : ℕ) → ((enter p s).1 ≡ false) × ¬ IsAlive (enter p s).0 p)
unfolding IsHeld check_blocked
block_and_kill_all-final {r} {s} before after = (
  rw (is_blocked) refl,
  λ p h. ground (arith, held p h, is_blocked),
  λ p. enter-killed s p is_blocked,
)
  where
    is_blocked : s.blocked ≡ true
    is_blocked = Reach-blocked after (block_and_kill_all-blocked r)

    held : IsHeld s
    held = Reach-IsHeld after (Step-IsHeld (blocks r) (Reach-IsHeld before new_runner-IsHeld))
