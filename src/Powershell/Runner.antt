-- ===== src/Powershell/Runner.antt =====
-- internal/powershell/runner.go: the child processes of `Runner.Run` under the runner's mutex. A run
-- reads `blocked`, starts its child outside the lock, and enters it into `active` in a second critical
-- section, so calls of `Run`, `KillAll` and `BlockAndKillAll` interleave as the steps below. A child
-- process is a number; `KillAll` and `BlockAndKillAll` kill in the step that collects.
use windows_llmmanager.Base.{
  ℕ, ◌+◌, ◌-◌, string_eq, List, [], ◌∷◌, ◌++◌, Bool, true, false, set, length, if◌then◌else◌,
  nat_eq,
}
use windows_llmmanager.Base.Dict.{Dict, insert, erase}

-- Beside the fields of the source: `cleared` counts the runs that have found the runner unblocked and
-- not started their child, `starting` holds the children that are started and not entered, and `alive`
-- says of every child whether it lives.
pub record Runner : Type 0 where
  pub active : Dict ℕ (Unit {0})
  pub blocked : Bool
  pub cleared : ℕ
  pub starting : Dict ℕ (Unit {0})
  pub alive : List Bool

unfoldable pub new_runner : Runner
new_runner = record { active = []; blocked = false; cleared = 0; starting = []; alive = [] }

-- `Run` up to the first unlock, and whether it goes on.
unfoldable pub check_blocked : Runner → Runner × Bool
check_blocked r = if r.blocked then (r, false) else (record r { cleared = r.cleared + 1 }, true)

-- `startChild`, which may fail.
unfoldable pub start : Bool → Runner → Runner
start starts r =
    if starts
    then record r {
      cleared = r.cleared - 1;
      starting = insert (length r.alive) tt r.starting;
      alive = r.alive ++ true ∷ [];
    }
    else record r { cleared = r.cleared - 1 }

-- The second critical section: the child is killed if the runner has been blocked.
unfoldable pub enter : ℕ → Runner → Runner × Bool
enter p r =
    if r.blocked
    then (record r { starting = erase p r.starting; alive = set r.alive p false }, false)
    else (record r { starting = erase p r.starting; active = insert p tt r.active }, true)

-- The deferred end of `Run`.
unfoldable pub leave : ℕ → Runner → Runner
leave p r = record r { active = erase p r.active; alive = set r.alive p false }

-- The loop that kills the collected processes.
unfoldable pub kill_each : Dict ℕ (Unit {0}) → List Bool → List Bool
kill_each [] alive = alive
kill_each ((p, _) ∷ d) alive = kill_each d (set alive p false)

unfoldable pub kill_active : Runner → Runner
unfolding kill_each
kill_active r = record r { alive = kill_each r.active r.alive }

unfoldable pub block_and_kill_all : Runner → Runner
unfolding kill_active
block_and_kill_all r = kill_active (record r { blocked = true })
