-- ===== src/Jobs/Defs.antt =====
-- internal/jobs/manager.go: statuses, snapshots, jobs, the manager and its errors.
use windows_llmmanager.Base.Int.{ℤ}
use windows_llmmanager.Base.{ℕ, String, List, [], Bool, true, false, Option, eqb}
use windows_llmmanager.Base.Dict.{Dict}
use windows_llmmanager.Api.{ExecutionResult}

pub data Status : Type 0 where
  running cancelling completed failed timed_out cancelled : Status

-- `errors.New` values of the package, and what `randomID` returns when the source of randomness fails.
pub data Error : Type 0 where
  limit not_found not_running blocked random_failed : Error

pub data Result {ℓ} (A : Type ℓ) : Type ℓ where
  ok : A → Result A
  err : Error → Result A

pub record Snapshot : Type 0 where
  pub job_id : String
  pub status : Status
  pub created_at : ℕ
  pub started_at : ℕ
  pub completed_at : ℕ
  pub timeout : ℤ
  pub execution : Option ExecutionResult
  pub error : String
  pub cancel_reason : String

-- `ctx_cancelled` records that the job's `context.CancelFunc` was called, `has_on_done` that the
-- callback is not nil.
pub record Job : Type 0 where
  pub snapshot : Snapshot
  pub ctx_cancelled : Bool
  pub has_on_done : Bool

abbrev pub Heap : Type 0
Heap = List Job

pub record Manager : Type 0 where
  pub jobs : Dict String ℕ
  pub heap : Heap
  pub max_active : ℕ
  pub max_results : ℕ
  pub retention : ℤ
  pub blocked : Bool

-- `runErr` as `run` tells it apart: `errors.Is(runErr, powershell.ErrTimedOut)`, or its message.
pub data RunError : Type 0 where
  run_timed_out : RunError
  run_failed : String → RunError

abbrev pub is_running : Status → Bool
is_running running = true
is_running _ = false

abbrev pub is_active : Status → Bool
is_active running = true
is_active cancelling = true
is_active _ = false

-- `CompletedAt.IsZero()`
abbrev pub is_zero : ℕ → Bool
is_zero t = eqb t 0

unfoldable pub new_manager : ℕ → ℕ → ℤ → Manager
new_manager max_active max_results retention = record {
  jobs = [];
  heap = [];
  max_active = max_active;
  max_results = max_results;
  retention = retention;
  blocked = false;
}
