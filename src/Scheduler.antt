-- ===== src/Scheduler.antt =====
-- internal/updatescheduler/scheduler.go: the periodic start of the updater. The goroutines interleave
-- at the mutex, so a launch is two steps: up to `launcher.Start`, and behind it.
use windows_llmmanager.Base.{
  ℕ, ◌+◌, ◌-◌, ◌≤◌, ◌<◌, ◌≡◌, string_eq, Bool, true, false, if◌then◌else◌, arith,
}
use windows_llmmanager.Base.Int.{ℤ, pos, ltb_ℤ}

-- `running`, whether the loop is inside `launcher.Start`, and the updater processes that it started
-- and that have not ended.
pub record Scheduler : Type 0 where
  pub running : Bool
  pub launching : Bool
  pub processes : ℕ

unfoldable pub new_scheduler : Scheduler
new_scheduler = record { running = false; launching = false; processes = 0 }

-- `Start` runs the loop only where the interval is positive.
unfoldable pub is_enabled : ℤ → Bool
is_enabled interval = ltb_ℤ (pos 0) interval

-- `launch` up to the call of `launcher.Start`.
unfoldable pub begin_launch : Scheduler → Scheduler
begin_launch s = if s.running then s else record s { running = true; launching = true }

-- `launch` from the return of `launcher.Start` on.
unfoldable pub finish_launch : Bool → Scheduler → Scheduler
finish_launch started s =
    if started
    then record s { launching = false; processes = s.processes + 1 }
    else record s { launching = false; running = false }

-- The goroutine of a process, from the return of `process.Wait` on.
unfoldable pub process_ends : Scheduler → Scheduler
process_ends s = record s { running = false; processes = s.processes - 1 }

-- A launch begins only while the loop is not inside one, and a process ends only if there is one.
pub data Step : Scheduler → Scheduler → Type 0 where
  begins : (s : Scheduler) → s.launching ≡ false → Step s (begin_launch s)
  finishes :
      (started : Bool) (s : Scheduler) → s.launching ≡ true → Step s (finish_launch started s)
  process_exits : (s : Scheduler) → 0 < s.processes → Step s (process_ends s)

pub data Reach : Scheduler → Scheduler → Type 0 where
  here : (s : Scheduler) → Reach s s
  next : {s t u : Scheduler} → Reach s t → Step t u → Reach s u

-- While `running` is set, there is one launch or one process, and otherwise none.
pub IsCounted : Scheduler → Type 0
IsCounted s = (if s.launching then 1 else 0) + s.processes ≡ (if s.running then 1 else 0)

Step-IsCounted : {s t : Scheduler} → Step s t → IsCounted s → IsCounted t
unfolding IsCounted begin_launch finish_launch process_ends
Step-IsCounted (begins s idle) v = ground arith
Step-IsCounted (finishes started s busy) v = ground arith
Step-IsCounted (process_exits s some_process) v = ground arith

Reach-IsCounted : {s t : Scheduler} → Reach s t → IsCounted s → IsCounted t
Reach-IsCounted (here s) v = v
Reach-IsCounted (next r st) v = Step-IsCounted st (Reach-IsCounted r v)

-- However launches, failures to launch and ends of processes follow each other, there is never more
-- than one updater process, and while there is one, a tick starts nothing.
pub Reach-one_process :
    {s : Scheduler}
    → Reach new_scheduler s
    → (s.processes ≤ 1) × ((0 < s.processes) → begin_launch s ≡ s)
unfolding new_scheduler IsCounted begin_launch
Reach-one_process {s} r =
    let v : IsCounted s = Reach-IsCounted r (omega arith) in (ground arith, λ p. ground arith)
