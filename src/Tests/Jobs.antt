-- ===== src/Tests/Jobs.antt =====
-- internal/jobs/manager.go at concrete inputs.
use windows_llmmanager.Base.{
  ℕ, ◌≤◌, ◌<◌, ◌≡◌, ◌≢◌, refl, String, string_eq, [], ◌∷◌, Bool, true, false, Option, none, some,
  get_elem?, length, if◌then◌else◌, arith,
}
use windows_llmmanager.Base.Dict.{Dict, lookup, insert, erase, NodupKeys}
use windows_llmmanager.Api.{ExecutionResult}
use windows_llmmanager.Jobs.Defs.{
  cancelled, not_found, not_running, blocked, ok, err, Job, Heap, Manager, run_timed_out,
  is_running, new_manager,
}
use windows_llmmanager.Jobs.Ops.{
  active_at, running_at, completed_at, count_active, active_locked, is_expired, drop_expired,
  prune_expired_locked, replaces_oldest, find_oldest, shrink, prune_capacity_locked, new_job,
  add_job, submit, finish_job, run, get, mark_cancelling, cancel, block_and_cancel_all,
}
use windows_llmmanager.Jobs.Eviction.{shrink_oldest_first}
use windows_llmmanager.Jobs.Invariant.{IsValid, new_manager-IsValid, prune_capacity_room}
use windows_llmmanager.Jobs.Steps.{Step, submits, finishes, Reach, here, next, Reach-IsValid}
use windows_llmmanager.Jobs.Steady.{IsSteady, new_manager-IsSteady, Reach-IsSteady}
use windows_llmmanager.Jobs.Lifecycle.{Becomes, Reach-Evolves}
use windows_llmmanager.Jobs.Results.{Accepts, get-run, get-submit, get-run-cancel}
use windows_llmmanager.Jobs.Blocked.{runs_on_at, block_and_cancel_all_final}
use windows_llmmanager.Base.Int.{ltb_ℤ, pos, sub_ℕ, ℤ}

abbrev empty : Manager
empty = new_manager 2 3 (pos 100)

abbrev one_job : Manager
one_job = (submit (some "a") 5 (pos 60) true empty).0

abbrev job_a : Job
job_a = new_job "a" 5 (pos 60) true

abbrev outcome : ExecutionResult
outcome = record {
  success = true;
  exit_code = pos 0;
  format = "lines";
  output = [];
  raw_output = [];
  stderr = [];
  truncated = false;
  timed_out = false;
  duration_ms = 7;
  session_restarted = false;
}

abbrev finished : Manager
finished = (run 0 outcome none 9 one_job).0

name_a : ◌≢◌ {A = Option String} (some "a") (some "")
name_a e = absurd (cc)

to_one_job : Reach empty one_job
to_one_job = next here (submits (some "a") 5 (pos 60) true name_a)

empty-IsValid : IsValid empty
empty-IsValid = new_manager-IsValid 2 3 (pos 100) (omega arith)

one_job-IsValid : IsValid one_job
one_job-IsValid = Reach-IsValid empty-IsValid to_one_job

one_job-lookup : lookup "a" one_job.jobs ≡ some 0
unfolding submit prune_expired_locked drop_expired active_locked count_active add_job
    prune_capacity_locked shrink new_job new_manager insert lookup string_eq
one_job-lookup = refl

one_job-heap : get_elem? one_job.heap 0 ≡ some job_a
unfolding submit prune_expired_locked drop_expired active_locked count_active add_job
    prune_capacity_locked shrink new_job new_manager insert lookup string_eq
one_job-heap = refl

Reach-IsValid_example : IsValid one_job
Reach-IsValid_example = Reach-IsValid empty-IsValid to_one_job

one_job-active : active_at one_job.heap 0 ≡ true
unfolding submit prune_expired_locked drop_expired active_locked count_active add_job
    prune_capacity_locked shrink new_job new_manager insert lookup string_eq active_at
one_job-active = refl

to_finished : Step one_job finished
to_finished = finishes 0 outcome none 9 one_job-active (omega arith)

one_job-Accepts : Accepts 6 one_job
unfolding submit prune_expired_locked drop_expired active_locked count_active add_job
    prune_capacity_locked shrink new_job new_manager insert lookup string_eq active_at is_expired
one_job-Accepts = (refl, omega arith)

one_job-room : active_locked one_job < one_job.max_active
unfolding submit prune_expired_locked drop_expired active_locked count_active add_job
    prune_capacity_locked shrink new_job new_manager insert lookup string_eq active_at
one_job-room = omega arith

one_job-running : is_running job_a.snapshot.status ≡ true
unfolding new_job
one_job-running = refl

later : ltb_ℤ (sub_ℕ 50 9) one_job.retention ≡ true
unfolding submit prune_expired_locked drop_expired active_locked count_active add_job
    prune_capacity_locked shrink new_job new_manager insert lookup string_eq active_at
later = refl

Reach-Evolves_example : (j : Job) × (get_elem? finished.heap 0 ≡ some j) × Becomes job_a j
Reach-Evolves_example = Reach-Evolves (next here to_finished) 0 job_a one_job-heap

get-run_example : (get "a" 50 (run 0 outcome none 9 one_job).0).1 ≡ (
    if ltb_ℤ (sub_ℕ 50 9) one_job.retention
    then ok (finish_job outcome none 9 job_a).snapshot
    else err not_found)
get-run_example =
    get-run "a" 0 job_a outcome none 9 50 one_job one_job-IsValid one_job-lookup one_job-heap
      (omega arith)

get-run-cancel_example :
    let c = (cancel "a" "operator" one_job).0 in
    (cancel "a" "again" c ≡ (c, some (mark_cancelling "operator" job_a).snapshot, some not_running))
    × ((get "a" 50 (run 0 outcome (some run_timed_out) 9 c).0).1
        ≡ ok (record job_a.snapshot {
          status = cancelled;
          cancel_reason = "operator";
          completed_at = 9;
          execution = some (record outcome { timed_out = false });
        }))
get-run-cancel_example =
    get-run-cancel "a" "operator" "again" 0 job_a outcome (some run_timed_out) 9 50 one_job
      one_job-IsValid one_job-lookup one_job-heap one_job-running (omega arith) later

get-submit_example :
    ((submit (some "b") 6 (pos 60) false one_job).1 ≡ ok (new_job "b" 6 (pos 60) false).snapshot)
    × ((get "b" 7 (submit (some "b") 6 (pos 60) false one_job).0).1
        ≡ ok (new_job "b" 6 (pos 60) false).snapshot)
get-submit_example = get-submit "b" 6 (pos 60) 7 false one_job one_job-IsValid one_job-Accepts

prune_capacity_room_example : length (prune_capacity_locked one_job).jobs < one_job.max_results
prune_capacity_room_example = prune_capacity_room one_job one_job-IsValid one_job-room

one_job-IsSteady : IsSteady one_job
one_job-IsSteady = Reach-IsSteady (new_manager-IsSteady 2 3 (pos 100) (omega arith)) to_one_job

block_and_cancel_all_final_example :
    let p = (block_and_cancel_all "stop" one_job).0 in
    ((id : String) (now : ℕ) (timeout : ℤ) (has_on_done : Bool)
      → (submit (some id) now timeout has_on_done p).1 ≡ err blocked)
    × (length p.heap ≡ length one_job.heap)
    × ((id : String) (a : ℕ)
        → lookup id p.jobs ≡ some a
        → (running_at p.heap a ≡ false) × (runs_on_at p.heap a ≡ false))
block_and_cancel_all_final_example = block_and_cancel_all_final "stop" one_job one_job-IsSteady here

-- Two finished jobs, where there is room for one result: the older one goes.
abbrev two_finished : Heap
two_finished =
    finish_job outcome none 9 job_a ∷ finish_job outcome none 8 (new_job "b" 6 (pos 60) true) ∷ []

abbrev both : Dict String ℕ
both = ("a", 0) ∷ ("b", 1) ∷ []

both_unique : NodupKeys both
unfolding lookup string_eq
both_unique = (refl, (refl, tt))

both_named : (◌≢◌ {A = String} "a" "") × ((◌≢◌ {A = String} "b" "") × Unit {0})
both_named = ((λ e. cc), ((λ e. cc), tt))

older_goes : lookup "b" (shrink 3 two_finished 2 both) ≡ none
unfolding shrink lookup erase find_oldest replaces_oldest finish_job new_job string_eq completed_at
older_goes = refl

newer_stays : lookup "a" (shrink 3 two_finished 2 both) ≡ some 0
unfolding shrink lookup erase find_oldest replaces_oldest finish_job new_job string_eq completed_at
newer_stays = refl

newer_finished : completed_at two_finished 0 ≢ 0
unfolding completed_at finish_job new_job
newer_finished e = absurd (omega arith)

older_known : lookup "b" both ≡ some 1
unfolding lookup string_eq
older_known = refl

shrink_oldest_first_example : completed_at two_finished 1 ≤ completed_at two_finished 0
shrink_oldest_first_example =
    shrink_oldest_first 3 two_finished 2 both "b" "a" 1 0 both_unique both_named older_known
      older_goes newer_stays newer_finished
