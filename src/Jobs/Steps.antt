-- ===== src/Jobs/Steps.antt =====
-- internal/jobs/manager.go: the steps of the manager, over every interleaving of the methods and of
-- the goroutines that run the jobs.
use windows_llmmanager.Base.Int.{ℤ}
use windows_llmmanager.Base.{ℕ, ◌<◌, ◌≡◌, ◌≢◌, String, string_eq, Bool, true, Option, some}
use windows_llmmanager.Api.{ExecutionResult}
use windows_llmmanager.Jobs.Defs.{Manager, RunError}
use windows_llmmanager.Jobs.Ops.{
  active_at, submit, run, get, cancel, cancel_all, block_and_cancel_all,
}
use windows_llmmanager.Jobs.Invariant.{IsValid}
use windows_llmmanager.Jobs.Methods.{
  submit-IsValid, run-IsValid, get-IsValid, cancel-IsValid, cancel_all-IsValid,
  block_and_cancel_all-IsValid,
}

-- One call of a method, or the end of one goroutine. A goroutine ends once, so its job is still
-- active; the clock is past Go's zero time, and a random identifier is not empty.
pub data Step (m : Manager) : Manager → Type 0 where
  submits :
      (id : Option String) (now : ℕ) (timeout : ℤ) (has_on_done : Bool)
      → id ≢ some ""
      → Step m (submit id now timeout has_on_done m).0
  finishes :
      (a : ℕ) (result : ExecutionResult) (run_err : Option RunError) (now : ℕ)
      → active_at m.heap a ≡ true
      → 0 < now
      → Step m (run a result run_err now m).0
  gets : (id : String) (now : ℕ) → Step m (get id now m).0
  cancels : (id reason : String) → Step m (cancel id reason m).0
  cancels_all : (reason : String) → Step m (cancel_all reason m).0
  blocks : (reason : String) → Step m (block_and_cancel_all reason m).0

pub data Reach (m : Manager) : Manager → Type 0 where
  here : Reach m m
  next : {p q : Manager} → Reach m p → Step p q → Reach m q

pub Step-IsValid : {m p : Manager} → IsValid m → Step m p → IsValid p
Step-IsValid {m} v (submits id now timeout has_on_done ne) =
    submit-IsValid id now timeout has_on_done m v ne
Step-IsValid {m} v (finishes a result run_err now _ t) = run-IsValid a result run_err now m v t
Step-IsValid {m} v (gets id now) = get-IsValid id now m v
Step-IsValid {m} v (cancels id reason) = cancel-IsValid id reason m v
Step-IsValid {m} v (cancels_all reason) = cancel_all-IsValid reason m v
Step-IsValid {m} v (blocks reason) = block_and_cancel_all-IsValid reason m v

-- Any sequence of steps from a valid manager leads to a valid one: identifiers are unique, the map has
-- no dangling address, statuses agree with completion times, and no limit is exceeded.
pub Reach-IsValid : {m p : Manager} → IsValid m → Reach m p → IsValid p
Reach-IsValid v here = v
Reach-IsValid v (next r s) = Step-IsValid (Reach-IsValid v r) s
