-- ===== src/Jobs/Ops.antt =====
-- internal/jobs/manager.go: the methods of the manager.
use windows_llmmanager.Base.Int.{ltb_ℤ, sub_ℕ, ℤ}
use windows_llmmanager.Base.{
  ℕ, suc, String, string_eq, ◌==◌, List, [], ◌∷◌, ◌++◌, Bool, true, false, Option, none, some,
  get_elem?, set, leb, ltb, not, ◌&&◌, ◌||◌, zero, length, if◌then◌else◌,
}
use windows_llmmanager.Base.Dict.{Dict, lookup, insert, erase}
use windows_llmmanager.Api.{ExecutionResult}
use windows_llmmanager.Jobs.Defs.{
  Status, running, cancelling, completed, failed, timed_out, cancelled, Error, limit, not_found,
  not_running, blocked, random_failed, Result, ok, err, Snapshot, Job, Heap, Manager, RunError,
  run_timed_out, run_failed, is_running, is_active, is_zero,
}

-- The condition of `activeLocked` at one pointer of the map.
unfoldable pub active_at : Heap → ℕ → Bool
active_at h a = elim (get_elem? h a) [ none ↦ false | some j ↦ is_active j.snapshot.status ]

unfoldable pub running_at : Heap → ℕ → Bool
running_at h a = elim (get_elem? h a) [ none ↦ false | some j ↦ is_running j.snapshot.status ]

unfoldable pub completed_at : Heap → ℕ → ℕ
completed_at h a = elim (get_elem? h a) [ none ↦ 0 | some j ↦ j.snapshot.completed_at ]

unfoldable pub count_active : Heap → Dict String ℕ → ℕ
count_active h [] = 0
count_active h ((_, a) ∷ d) =
    let rest = count_active h d in if active_at h a then suc rest else rest

unfoldable pub active_locked : Manager → ℕ
active_locked m = count_active m.heap m.jobs

-- `!CompletedAt.IsZero() && now.Sub(CompletedAt) >= m.retention`
unfoldable pub is_expired : Heap → ℕ → ℤ → ℕ → Bool
unfolding completed_at
is_expired h now retention a =
    not (is_zero (completed_at h a)) && not (ltb_ℤ (sub_ℕ now (completed_at h a)) retention)

unfoldable pub drop_expired : Heap → ℕ → ℤ → Dict String ℕ → Dict String ℕ
drop_expired h now retention [] = []
drop_expired h now retention ((id, a) ∷ d) =
    let rest = drop_expired h now retention d in
    if is_expired h now retention a then rest else (id, a) ∷ rest

unfoldable pub prune_expired_locked : ℕ → Manager → Manager
unfolding drop_expired
prune_expired_locked now m = record m { jobs = drop_expired m.heap now m.retention m.jobs }

-- The inner loop of `pruneCapacityLocked`, over its variables `oldestID` and `oldest`.
unfoldable pub replaces_oldest : Heap → ℕ → String → ℕ → Bool
replaces_oldest h a oldest_id oldest =
    not (is_zero (completed_at h a)) && (oldest_id == "" || ltb (completed_at h a) oldest)

unfoldable pub find_oldest : Heap → Dict String ℕ → String → ℕ → String
find_oldest h [] oldest_id oldest = oldest_id
find_oldest h ((id, a) ∷ d) oldest_id oldest =
    let newer = find_oldest h d id (completed_at h a) in
    let same = find_oldest h d oldest_id oldest in
    if replaces_oldest h a oldest_id oldest then newer else same

-- The outer loop, on fuel: a round that goes on has deleted an entry.
unfoldable pub shrink : ℕ → Heap → ℕ → Dict String ℕ → Dict String ℕ
shrink zero h max_results d = d
shrink (suc fuel) h max_results d =
    let oldest_id = find_oldest h d "" 0 in
    let rest = shrink fuel h max_results (erase oldest_id d) in
    if leb max_results (length d) then (if oldest_id == "" then d else rest) else d

unfoldable pub prune_capacity_locked : Manager → Manager
prune_capacity_locked m = record m {
  jobs = shrink (suc (length m.jobs)) m.heap m.max_results m.jobs;
}

unfoldable pub new_job : String → ℕ → ℤ → Bool → Job
new_job id now timeout has_on_done = record {
  snapshot = record {
    job_id = id;
    status = running;
    created_at = now;
    started_at = now;
    completed_at = 0;
    timeout = timeout;
    execution = none;
    error = "";
    cancel_reason = "";
  };
  ctx_cancelled = false;
  has_on_done = has_on_done;
}

-- `m.jobs[id] = j` for the job that `&job{...}` allocates.
unfoldable pub add_job : Job → Manager → Manager
add_job j m = record m {
  jobs = insert j.snapshot.job_id (length m.heap) m.jobs;
  heap = m.heap ++ j ∷ [];
}

-- `Submit` behind `randomID`, whose result is the first argument.
unfoldable pub submit : Option String → ℕ → ℤ → Bool → Manager → Manager × Result Snapshot
unfolding new_job
submit none now timeout has_on_done m = (m, err random_failed)
submit (some id) now timeout has_on_done m =
    let p = prune_expired_locked now m in
    if p.blocked
    then (p, err blocked)
    else if leb p.max_active (active_locked p)
    then (p, err limit)
    else let j = new_job id now timeout has_on_done in
      (add_job j (prune_capacity_locked p), ok j.snapshot)

-- What `run` does with the job once the runner has returned.
unfoldable pub final_status : Status → Option RunError → Status
final_status cancelling _ = cancelled
final_status _ (some run_timed_out) = timed_out
final_status _ (some (run_failed _)) = failed
final_status _ none = completed

abbrev pub final_error : Status → Option RunError → String → String
final_error cancelling _ old = old
final_error _ (some (run_failed message)) old = message
final_error _ _ old = old

abbrev pub final_result : Status → ExecutionResult → ExecutionResult
final_result cancelling r = record r { timed_out = false }
final_result _ r = r

unfoldable pub finish_job : ExecutionResult → Option RunError → ℕ → Job → Job
unfolding final_status
finish_job result run_err now j = record j {
  snapshot = record snapshot {
    status = final_status status run_err;
    error = final_error status run_err error;
    completed_at = now;
    execution = some (final_result status result);
  };
  ctx_cancelled = true;
}
  where
    open j use {snapshot, snapshot.{status, error}}

-- The goroutine `run` of the job at address `a`, from the return of `m.runner.Run` on, with the
-- snapshot that it hands to `onDone`.
unfoldable pub run : ℕ → ExecutionResult → Option RunError → ℕ → Manager → Manager × Option Snapshot
unfolding finish_job
run a result run_err now m = elim (get_elem? m.heap a) [
  | none ↦ (m, none)
  | some j ↦
      let final = finish_job result run_err now j in
      (record m { heap = set m.heap a final }, if j.has_on_done then some final.snapshot else none)
]

unfoldable pub get : String → ℕ → Manager → Manager × Result Snapshot
get id now m =
    let p = prune_expired_locked now m in
    (
      p,
      elim (lookup id p.jobs) [
        | none ↦ err not_found
        | some a ↦ elim (get_elem? p.heap a) [ none ↦ err not_found | some j ↦ ok j.snapshot ]
      ],
    )

unfoldable pub mark_cancelling : String → Job → Job
mark_cancelling reason j = record j {
  snapshot = record snapshot { status = cancelling; cancel_reason = reason };
}
  where
    open j use {snapshot}

unfoldable pub call_cancel : Job → Job
call_cancel j = record j { ctx_cancelled = true }

-- Beside the error `Cancel` returns the snapshot, the zero `Snapshot` (here `none`) if there is no job.
unfoldable pub cancel : String → String → Manager → Manager × Option Snapshot × Option Error
unfolding mark_cancelling call_cancel
cancel id reason m = elim (lookup id m.jobs) [
  | none ↦ (m, none, some not_found)
  | some a ↦ elim (get_elem? m.heap a) [
    | none ↦ (m, none, some not_found)
    | some j ↦
        if is_running j.snapshot.status
        then (let marked = mark_cancelling reason j in
            (record m { heap = set m.heap a (call_cancel marked) }, some marked.snapshot, none))
        else (m, some j.snapshot, some not_running)
  ]
]

-- The loop over the map in `CancelAll` and `BlockAndCancelAll`, and the contexts that it collects.
unfoldable pub mark_all : String → Dict String ℕ → Heap → List ℕ → Heap × List ℕ
mark_all reason [] h cancels = (h, cancels)
mark_all reason ((_, a) ∷ d) h cancels = elim (get_elem? h a) [
  | none ↦ mark_all reason d h cancels
  | some j ↦
      let skip = mark_all reason d h cancels in
      let mark = mark_all reason d (set h a (mark_cancelling reason j)) (cancels ++ a ∷ []) in
      if is_running j.snapshot.status then mark else skip
]

unfoldable pub call_cancels : List ℕ → Heap → Heap
call_cancels [] h = h
call_cancels (a ∷ rest) h = elim (get_elem? h a) [
  | none ↦ call_cancels rest h
  | some j ↦ call_cancels rest (set h a (call_cancel j))
]

unfoldable pub cancel_all : String → Manager → Manager × ℕ
cancel_all reason m =
    let (marked, cancels) = mark_all reason m.jobs m.heap [] in
    (record m { heap = call_cancels cancels marked }, length cancels)

unfoldable pub block_and_cancel_all : String → Manager → Manager × ℕ
unfolding cancel_all
block_and_cancel_all reason m = cancel_all reason (record m { blocked = true })

unfoldable pub active_count : Manager → ℕ
active_count m = active_locked m

unfoldable pub close : Manager → Manager
unfolding block_and_cancel_all
close m = (block_and_cancel_all "server_shutdown" m).0
