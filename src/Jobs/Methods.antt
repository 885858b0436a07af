-- ===== src/Jobs/Methods.antt =====
-- internal/jobs/manager.go: every method of the manager and every goroutine keeps it well formed.
use windows_llmmanager.Base.Int.{ℤ}
use windows_llmmanager.Base.{
  ℕ, suc, ◌<◌, ◌≡◌, ◌≢◌, inl, inr, refl, ap, String, string_eq, [], Bool, true, Option, none, some,
  get_elem?, set, length, Bool-cases, Option-cases, arith,
}
use windows_llmmanager.Base.Dict.{lookup}
use windows_llmmanager.Api.{ExecutionResult}
use windows_llmmanager.Jobs.Defs.{Job, Manager, RunError, is_running}
use windows_llmmanager.Jobs.Ops.{
  active_locked, prune_expired_locked, prune_capacity_locked, new_job, add_job, submit, finish_job,
  run, get, mark_cancelling, call_cancel, cancel, mark_all, call_cancels, cancel_all,
  block_and_cancel_all,
}
use windows_llmmanager.Jobs.Count.{count_active-shrink}
use windows_llmmanager.Jobs.Heaps.{
  Keeps-trans, Keeps-cancelled, Keeps-call_cancels, Keeps-mark_all, Keeps-finish_job,
}
use windows_llmmanager.Jobs.Invariant.{
  IsValid, IsValid-Keeps, prune_expired-IsValid, prune_capacity_room, prune_capacity-IsValid,
  add_job-IsValid,
}

-- The manager that `submit` leaves, by the branch that it takes.
pub submit_cases {ℓ} :
    (P : Manager → Type ℓ) (id : String) (now : ℕ) (timeout : ℤ) (has_on_done : Bool) (m : Manager)
    → P (prune_expired_locked now m)
    → (active_locked (prune_expired_locked now m) < m.max_active
        → P (
            add_job
              (new_job id now timeout has_on_done)
              (prune_capacity_locked (prune_expired_locked now m))))
    → P (submit (some id) now timeout has_on_done m).0
unfolding submit prune_expired_locked
submit_cases P id now timeout has_on_done m refused accepted = ground arith

pub submit-IsValid :
    (id : Option String) (now : ℕ) (timeout : ℤ) (has_on_done : Bool) (m : Manager)
    → IsValid m
    → id ≢ some ""
    → IsValid (submit id now timeout has_on_done m).0
unfolding submit prune_expired_locked prune_capacity_locked active_locked
submit-IsValid none now timeout has_on_done m v ne = v
submit-IsValid (some id) now timeout has_on_done m v ne =
    submit_cases IsValid id now timeout has_on_done m w λ lt.
      add_job-IsValid (new_job id now timeout has_on_done) (prune_capacity_locked p)
        (prune_capacity-IsValid p w) (λ e. ne (ap some e)) refl
        (omega (arith, lt, count_active-shrink (suc (length p.jobs)) m.heap m.max_results p.jobs))
        (prune_capacity_room p w lt)
  where
    p : Manager
    p = prune_expired_locked now m

    w : IsValid p
    w = prune_expired-IsValid now m v

pub run-IsValid :
    (a : ℕ) (result : ExecutionResult) (run_err : Option RunError) (now : ℕ) (m : Manager)
    → IsValid m
    → 0 < now
    → IsValid (run a result run_err now m).0
unfolding run
run-IsValid a result run_err now m v t = elim (Option-cases (get_elem? m.heap a)) [
  | inl e ↦ rw (e, run) v
  | inr (j, e) ↦
      rw (e, run)
        (IsValid-Keeps m (set m.heap a (finish_job result run_err now j)) v
          (Keeps-finish_job m.heap a j result run_err now e t))
]

pub get-IsValid : (id : String) (now : ℕ) (m : Manager) → IsValid m → IsValid (get id now m).0
unfolding get
get-IsValid id now m v = prune_expired-IsValid now m v

-- The manager that `cancel` leaves: changed only if the job is there and running.
pub cancel_cases {ℓ} :
    (P : Manager → Type ℓ) (id reason : String) (m : Manager)
    → P m
    → ((a : ℕ) (j : Job)
        → lookup id m.jobs ≡ some a
        → get_elem? m.heap a ≡ some j
        → is_running j.snapshot.status ≡ true
        → P (record m { heap = set m.heap a (call_cancel (mark_cancelling reason j)) }))
    → P (cancel id reason m).0
unfolding cancel
cancel_cases P id reason m refused accepted = elim (Option-cases (lookup id m.jobs)) [
  | inl e ↦ rw (e, cancel) refused
  | inr (a, e) ↦ elim (Option-cases (get_elem? m.heap a)) [
    | inl f ↦ rw (e, cancel, f) refused
    | inr (j, f) ↦ elim (Bool-cases (is_running j.snapshot.status)) [
      | inl r ↦ rw (e, cancel, f, r) (accepted a j e f r)
      | inr r ↦ rw (e, cancel, f, r) refused
    ]
  ]
]

pub cancel-IsValid : (id reason : String) (m : Manager) → IsValid m → IsValid (cancel id reason m).0
cancel-IsValid id reason m v = cancel_cases IsValid id reason m v λ a j e f r.
    IsValid-Keeps m (set m.heap a (call_cancel (mark_cancelling reason j))) v
      (Keeps-cancelled m.heap a j reason f r)

pub cancel_all-IsValid :
    (reason : String) (m : Manager) → IsValid m → IsValid (cancel_all reason m).0
unfolding cancel_all
cancel_all-IsValid reason m v =
    IsValid-Keeps m
      (call_cancels (mark_all reason m.jobs m.heap []).1 (mark_all reason m.jobs m.heap []).0) v
      (Keeps-trans (Keeps-mark_all reason m.jobs m.heap []) (Keeps-call_cancels _ _))

pub IsValid-blocked : (m : Manager) → IsValid m → IsValid (record m { blocked = true })
unfolding active_locked
IsValid-blocked m v = record {
  unique = v.unique;
  named = v.named;
  linked = v.linked;
  coherent = v.coherent;
  active_bounded = v.active_bounded;
  size_bounded = v.size_bounded;
  configured = v.configured;
}

pub block_and_cancel_all-IsValid :
    (reason : String) (m : Manager) → IsValid m → IsValid (block_and_cancel_all reason m).0
unfolding block_and_cancel_all
block_and_cancel_all-IsValid reason m v =
    cancel_all-IsValid reason (record m { blocked = true }) (IsValid-blocked m v)
