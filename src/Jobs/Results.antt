-- ===== src/Jobs/Results.antt =====
-- internal/jobs/manager.go: what the methods return, and what a later `Get` sees.
use windows_llmmanager.Base.Int.{ltb_ℤ, sub_ℕ, ℤ}
use windows_llmmanager.Base.{
  ℕ, ◌<◌, ◌≡◌, inl, inr, refl, ◌∙◌, String, string_eq, [], ◌∷◌, ◌++◌, Bool, true, false, not,
  Option, none, some, get_elem?, set, length, if◌then◌else◌, Bool-cases, Option-cases, arith,
  get_elem?-set_self, get_elem?-append_new,
}
use windows_llmmanager.Base.Dict.{Dict, lookup, NodupKeys, lookup-insert, insert-NodupKeys}
use windows_llmmanager.Api.{ExecutionResult}
use windows_llmmanager.Jobs.Defs.{
  cancelled, not_found, not_running, ok, err, Job, Heap, Manager, RunError, is_running,
}
use windows_llmmanager.Jobs.Ops.{
  completed_at, active_locked, is_expired, drop_expired, prune_expired_locked,
  prune_capacity_locked, new_job, add_job, submit, finish_job, run, get, mark_cancelling,
  call_cancel, cancel,
}
use windows_llmmanager.Jobs.Eviction.{shrink-NodupKeys}
use windows_llmmanager.Jobs.Expiry.{lookup-drop_expired, drop_expired-NodupKeys}
use windows_llmmanager.Jobs.Invariant.{IsValid}

-- `get` returns the job that the map has, unless its retention has run out.
get_kept :
    (id : String) (a : ℕ) (j : Job) (now : ℕ) (m : Manager)
    → NodupKeys m.jobs
    → lookup id m.jobs ≡ some a
    → get_elem? m.heap a ≡ some j
    → is_expired m.heap now m.retention a ≡ false
    → (get id now m).1 ≡ ok j.snapshot
unfolding get prune_expired_locked
get_kept id a j now m u l e live =
    rw ((lookup-drop_expired m.heap now m.retention m.jobs id a u).1 (l, live), get, e) refl

get_gone :
    (id : String) (now : ℕ) (m : Manager)
    → lookup id (drop_expired m.heap now m.retention m.jobs) ≡ none
    → (get id now m).1 ≡ err not_found
unfolding get prune_expired_locked
get_gone id now m e = rw (e, get)

drop_expired_gone :
    (h : Heap) (now : ℕ) (retention : ℤ) (d : Dict String ℕ) (k : String) (a : ℕ)
    → NodupKeys d
    → lookup k d ≡ some a
    → is_expired h now retention a ≡ true
    → lookup k (drop_expired h now retention d) ≡ none
drop_expired_gone h now retention d k a u l x =
    elim (Option-cases (lookup k (drop_expired h now retention d))) [
      | inl e ↦ e
      | inr (b, e) ↦ absurd (ground (arith, (lookup-drop_expired h now retention d k b u).0 e))
    ]

completed_at-set :
    (h : Heap) (a : ℕ) (old new : Job)
    → get_elem? h a ≡ some old
    → completed_at (set h a new) a ≡ new.snapshot.completed_at
unfolding completed_at
completed_at-set h a old new e = rw (get_elem?-set_self h a new old e, completed_at)

is_expired-set :
    (h : Heap) (a now later : ℕ) (retention : ℤ) (old new : Job)
    → get_elem? h a ≡ some old
    → new.snapshot.completed_at ≡ now
    → 0 < now
    → is_expired (set h a new) later retention a ≡ not (ltb_ℤ (sub_ℕ later now) retention)
unfolding is_expired
is_expired-set h a now later retention old new e f t =
    ground (arith, completed_at-set h a old new e)

-- `get` after the job at `a` was replaced by one that finished at `now`.
get_finished :
    (id : String) (a now later : ℕ) (old new : Job) (m : Manager)
    → NodupKeys m.jobs
    → lookup id m.jobs ≡ some a
    → get_elem? m.heap a ≡ some old
    → new.snapshot.completed_at ≡ now
    → 0 < now
    → (get id later (record m { heap = set m.heap a new })).1
      ≡ (if ltb_ℤ (sub_ℕ later now) m.retention then ok new.snapshot else err not_found)
get_finished id a now later old new m u l e f t =
    elim (Bool-cases (ltb_ℤ (sub_ℕ later now) m.retention)) [
      | inl early ↦ rw early (
          get_kept id a new later (record m { heap = set m.heap a new }) u l
            (get_elem?-set_self m.heap a new old e)
            (is_expired-set m.heap a now later m.retention old new e f t ∙ ground arith))
      | inr late ↦ rw late (
          get_gone id later (record m { heap = set m.heap a new })
            (drop_expired_gone (set m.heap a new) later m.retention m.jobs id a u l
              (is_expired-set m.heap a now later m.retention old new e f t ∙ ground arith)))
    ]

-- In a well-formed manager, a job of the map whose run ends at a time after 0 can be read until its
-- retention has run out, and not from then on.
pub get-run :
    (id : String) (a : ℕ) (j : Job) (result : ExecutionResult) (run_err : Option RunError)
    (now later : ℕ) (m : Manager)
    → IsValid m
    → lookup id m.jobs ≡ some a
    → get_elem? m.heap a ≡ some j
    → 0 < now
    → (get id later (run a result run_err now m).0).1 ≡ (
        if ltb_ℤ (sub_ℕ later now) m.retention
        then ok (finish_job result run_err now j).snapshot
        else err not_found)
unfolding run
get-run id a j result run_err now later m v l e t =
    rw (e, run)
      (get_finished id a now later j (finish_job result run_err now j) m v.unique l e
        (unfold finish_job in refl) t)

abbrev pub Accepts : ℕ → Manager → Type 0
Accepts now m = (m.blocked ≡ false) × (active_locked (prune_expired_locked now m) < m.max_active)

submit_accepted :
    (id : String) (now : ℕ) (timeout : ℤ) (has_on_done : Bool) (m : Manager)
    → Accepts now m
    → submit (some id) now timeout has_on_done m ≡ (
      add_job
          (new_job id now timeout has_on_done)
          (prune_capacity_locked (prune_expired_locked now m)),
      ok (new_job id now timeout has_on_done).snapshot,
    )
unfolding submit prune_expired_locked
submit_accepted id now timeout has_on_done m (unblocked, free) = ground arith

get-add_job :
    (j : Job) (later : ℕ) (m : Manager)
    → NodupKeys m.jobs
    → j.snapshot.completed_at ≡ 0
    → (get j.snapshot.job_id later (add_job j m)).1 ≡ ok j.snapshot
unfolding add_job
get-add_job j later m u z =
    get_kept j.snapshot.job_id (length m.heap) j later (add_job j m)
      (insert-NodupKeys j.snapshot.job_id (length m.heap) m.jobs u)
      (ground (arith, lookup-insert j.snapshot.job_id j.snapshot.job_id (length m.heap) m.jobs))
      (get_elem?-append_new m.heap j) (unfinished later)
  where
    unfinished : (t : ℕ) → is_expired (m.heap ++ j ∷ []) t m.retention (length m.heap) ≡ false
    unfinished t =
        unfold is_expired completed_at in
        rw (get_elem?-append_new m.heap j, completed_at) (ground arith)

-- A well-formed manager that is not blocked and has a free slot takes a new job, and from then on
-- `get` finds it running, at any time until it ends.
pub get-submit :
    (id : String) (now : ℕ) (timeout : ℤ) (later : ℕ) (has_on_done : Bool) (m : Manager)
    → IsValid m
    → Accepts now m
    → ((submit (some id) now timeout has_on_done m).1
        ≡ ok (new_job id now timeout has_on_done).snapshot)
      × ((get id later (submit (some id) now timeout has_on_done m).0).1
          ≡ ok (new_job id now timeout has_on_done).snapshot)
unfolding prune_capacity_locked prune_expired_locked new_job
get-submit id now timeout later has_on_done m v a =
    rw (submit_accepted id now timeout has_on_done m a) (
      refl,
      get-add_job (new_job id now timeout has_on_done) later
          (prune_capacity_locked (prune_expired_locked now m))
          (shrink-NodupKeys _ m.heap m.max_results _
            (drop_expired-NodupKeys m.heap now m.retention m.jobs v.unique))
          refl,
    )

cancel_running :
    (id reason : String) (a : ℕ) (j : Job) (m : Manager)
    → lookup id m.jobs ≡ some a
    → get_elem? m.heap a ≡ some j
    → is_running j.snapshot.status ≡ true
    → (cancel id reason m).0
      ≡ record m { heap = set m.heap a (call_cancel (mark_cancelling reason j)) }
unfolding cancel
cancel_running id reason a j m l e r = rw (l, cancel, e, r) refl

cancel_not_running :
    (id reason : String) (a : ℕ) (j : Job) (m : Manager)
    → lookup id m.jobs ≡ some a
    → get_elem? m.heap a ≡ some j
    → is_running j.snapshot.status ≡ false
    → cancel id reason m ≡ (m, some j.snapshot, some not_running)
unfolding cancel
cancel_not_running id reason a j m l e r = rw (l, cancel, e, r) refl

run_at :
    (a : ℕ) (j : Job) (result : ExecutionResult) (run_err : Option RunError) (now : ℕ) (m : Manager)
    → get_elem? m.heap a ≡ some j
    → (run a result run_err now m).0
      ≡ record m { heap = set m.heap a (finish_job result run_err now j) }
unfolding run
run_at a j result run_err now m e = rw (e, run) refl

-- In a well-formed manager, a running job of the map that is cancelled refuses a second
-- cancellation, with the first one's reason left in place, and ends as cancelled whatever its
-- runner returns: where the run ends at a time after 0, `get` shows, until the retention has run
-- out, that reason and the runner's result without its timeout mark.
pub get-run-cancel :
    (id reason other : String) (a : ℕ) (j : Job) (result : ExecutionResult)
    (run_err : Option RunError) (now later : ℕ) (m : Manager)
    → IsValid m
    → lookup id m.jobs ≡ some a
    → get_elem? m.heap a ≡ some j
    → is_running j.snapshot.status ≡ true
    → 0 < now
    → ltb_ℤ (sub_ℕ later now) m.retention ≡ true
    → let c = (cancel id reason m).0 in
      (cancel id other c ≡ (c, some (mark_cancelling reason j).snapshot, some not_running))
      × ((get id later (run a result run_err now c).0).1
          ≡ ok (record j.snapshot {
            status = cancelled;
            cancel_reason = reason;
            completed_at = now;
            execution = some (record result { timed_out = false });
          }))
unfolding mark_cancelling call_cancel finish_job
get-run-cancel id reason other a j result run_err now later m v l e r t lt =
    rw (cancel_running id reason a j m l e r) (
      cancel_not_running id other a marked c l at_a refl,
      rw (run_at a marked result run_err now c at_a) (
          get_finished id a now later marked (finish_job result run_err now marked) c v.unique l
            at_a refl t
          ∙ rw lt refl),
    )
  where
    marked : Job
    marked = call_cancel (mark_cancelling reason j)

    c : Manager
    c = record m { heap = set m.heap a marked }

    at_a : get_elem? c.heap a ≡ some marked
    at_a = get_elem?-set_self m.heap a marked j e
