-- ===== src/Jobs/Steady.antt =====
-- internal/jobs/manager.go: a manager none of whose callers has still to cancel a context.
use windows_llmmanager.Base.{
  ℕ, ◌≤◌, inl, inr, refl, string_eq, [], ◌∷◌, none, some, get_elem?, Option-cases, All, All-append,
}
use windows_llmmanager.Base.Int.{ℤ}
use windows_llmmanager.Jobs.Defs.{Manager, new_manager}
use windows_llmmanager.Jobs.Ops.{
  submit, get, run, add_job, new_job, prune_expired_locked, prune_capacity_locked, cancel_all,
  block_and_cancel_all,
}
use windows_llmmanager.Jobs.Heaps.{IsSignalled}
use windows_llmmanager.Jobs.Invariant.{IsValid, new_manager-IsValid}
use windows_llmmanager.Jobs.Methods.{submit_cases, cancel_cases}
use windows_llmmanager.Jobs.Signals.{
  IsSignalled-finish_job, IsSignalled-cancelled, IsSignalled-call_cancels,
}
use windows_llmmanager.Jobs.Steps.{
  Step, submits, finishes, gets, cancels, cancels_all, blocks, Reach, here, next, Step-IsValid,
}

-- A well-formed manager in which the context of each job that is being cancelled is cancelled, so that
-- no call of `Cancel` or of `CancelAll` stands between its unlocking and the cancels that it makes then.
pub record IsSteady (m : Manager) : Type 0 where
  pub valid : IsValid m
  pub signalled : All IsSignalled m.heap

Step-IsSignalled : {m p : Manager} → All IsSignalled m.heap → Step m p → All IsSignalled p.heap
unfolding submit get run add_job new_job prune_expired_locked prune_capacity_locked cancel_all
    block_and_cancel_all
Step-IsSignalled {m} s (submits none now timeout has_on_done ne) = s
Step-IsSignalled {m} s (submits (some id) now timeout has_on_done ne) =
    submit_cases (λ p. All IsSignalled p.heap) id now timeout has_on_done m s
      (λ _. All-append IsSignalled m.heap (new_job id now timeout has_on_done ∷ []) s (refl, tt))
Step-IsSignalled {m} s (finishes a result run_err now _ _) =
    elim (Option-cases (get_elem? m.heap a)) [
      | inl e ↦ rw (e, run) s
      | inr (j, e) ↦ rw (e, run) (IsSignalled-finish_job m.heap a j result run_err now s)
    ]
Step-IsSignalled {m} s (gets id now) = s
Step-IsSignalled {m} s (cancels id reason) =
    cancel_cases (λ p. All IsSignalled p.heap) id reason m s
      λ a j e f r. IsSignalled-cancelled m.heap a j reason s
Step-IsSignalled {m} s (cancels_all reason) = IsSignalled-call_cancels reason m.jobs m.heap s
Step-IsSignalled {m} s (blocks reason) = IsSignalled-call_cancels reason m.jobs m.heap s

pub Step-IsSteady : {m p : Manager} → IsSteady m → Step m p → IsSteady p
Step-IsSteady v t = record {
  valid = Step-IsValid v.valid t;
  signalled = Step-IsSignalled v.signalled t;
}

pub Reach-IsSteady : {m p : Manager} → IsSteady m → Reach m p → IsSteady p
Reach-IsSteady v here = v
Reach-IsSteady v (next r t) = Step-IsSteady (Reach-IsSteady v r) t

pub new_manager-IsSteady :
    (max_active max_results : ℕ) (retention : ℤ)
    → max_active ≤ max_results
    → IsSteady (new_manager max_active max_results retention)
unfolding new_manager
new_manager-IsSteady max_active max_results retention c = record {
  valid = new_manager-IsValid max_active max_results retention c;
  signalled = tt;
}
