-- ===== src/Jobs/Blocked.antt =====
-- internal/jobs/manager.go: what a manager can still do after `BlockAndCancelAll`.
use windows_llmmanager.Base.Int.{ℤ}
use windows_llmmanager.Base.{
  ℕ, ◌≡◌, inl, inr, refl, sym, ap, ◌∙◌, String, string_eq, List, [], ◌∷◌, ◌++◌, Bool, true, false,
  not, ◌&&◌, All, none, some, get_elem?, set, length, Option-cases, arith, length-set,
}
use windows_llmmanager.Base.Dict.{Dict, lookup, AllEntries-lookup}
use windows_llmmanager.Jobs.Defs.{is_active, blocked, err, Job, Heap, Manager}
use windows_llmmanager.Jobs.Ops.{
  running_at, prune_expired_locked, submit, finish_job, run, get, mark_cancelling, call_cancel,
  mark_all, call_cancels, cancel_all, block_and_cancel_all,
}
use windows_llmmanager.Jobs.Heaps.{IsSignalled, All-get_elem?, id_at, Keeps-mark_all}
use windows_llmmanager.Jobs.Expiry.{lookup-drop_expired}
use windows_llmmanager.Jobs.Invariant.{IsValid, Linked}
use windows_llmmanager.Jobs.Methods.{cancel_cases, block_and_cancel_all-IsValid, IsValid-blocked}
use windows_llmmanager.Jobs.Steps.{
  Step, submits, finishes, gets, cancels, cancels_all, blocks, Reach, here, next, Reach-IsValid,
}
use windows_llmmanager.Jobs.Steady.{IsSteady, Step-IsSteady, Reach-IsSteady}
use windows_llmmanager.Jobs.Lifecycle.{Reach-Evolves, Evolves-call_cancels}
use windows_llmmanager.Jobs.Stop.{
  count_running, length-mark_all, mark_all-stops, stays_stopped, running_at-some,
}

length-mark_all_heap :
    (reason : String) (d : Dict String ℕ) (h : Heap) (out : List ℕ)
    → length (mark_all reason d h out).0 ≡ length h
unfolding mark_all
length-mark_all_heap reason [] h out = refl
length-mark_all_heap reason ((k, a) ∷ d) h out = elim (Option-cases (get_elem? h a)) [
  | inl e ↦ rw (e, mark_all) (length-mark_all_heap reason d h out)
  | inr (j, e) ↦
      rw (e, mark_all)
        (ground (
          arith,
          length-set h a (mark_cancelling reason j),
          length-mark_all_heap reason d h out,
          length-mark_all_heap reason d (set h a (mark_cancelling reason j)) (out ++ a ∷ []),
        ))
]

length-call_cancels : (cancels : List ℕ) (h : Heap) → length (call_cancels cancels h) ≡ length h
unfolding call_cancels
length-call_cancels [] h = refl
length-call_cancels (a ∷ rest) h = elim (Option-cases (get_elem? h a)) [
  | inl e ↦ rw (e, call_cancels) (length-call_cancels rest h)
  | inr (j, e) ↦
      rw (e, call_cancels)
        (length-call_cancels rest (set h a (call_cancel j)) ∙ length-set h a (call_cancel j))
]

length-cancel_all :
    (reason : String) (m : Manager) → length (cancel_all reason m).0.heap ≡ length m.heap
unfolding cancel_all
length-cancel_all reason m = length-call_cancels _ _ ∙ length-mark_all_heap reason m.jobs m.heap []

-- An allocated job is in the heap.
allocated : (h : Heap) (id : String) (a : ℕ) → Linked h id a → (j : Job) × (get_elem? h a ≡ some j)
unfolding id_at
allocated h id a l = elim (Option-cases (get_elem? h a)) [
  | inl e ↦ absurd (ground arith)
  | inr (j, e) ↦ (j, e)
]

-- On a well-formed manager `CancelAll` reports how many jobs were running, keeps the map, and
-- leaves no job of it running.
pub cancel_all_lem :
    (reason : String) (m : Manager)
    → IsValid m
    → let (p, n) = cancel_all reason m in
      (n ≡ count_running m.heap m.jobs)
      × (p.jobs ≡ m.jobs)
      × ((id : String) (a : ℕ) → lookup id m.jobs ≡ some a → running_at p.heap a ≡ false)
unfolding cancel_all
cancel_all_lem reason m v = (
  omega (arith, length-mark_all reason m.jobs m.heap [] v.unique v.linked),
  refl,
  λ id a l. stopped id a l (allocated marked id a (linked id a l)),
)
  where
    marked : Heap
    marked = (mark_all reason m.jobs m.heap []).0

    linked : (id : String) (a : ℕ) → lookup id m.jobs ≡ some a → Linked marked id a
    linked id a l =
        (Keeps-mark_all reason m.jobs m.heap []).ids a
        ∙ AllEntries-lookup (Linked m.heap) id m.jobs a v.linked l

    stopped :
        (id : String) (a : ℕ)
        → lookup id m.jobs ≡ some a
        → (j : Job) × (get_elem? marked a ≡ some j)
        → running_at (cancel_all reason m).0.heap a ≡ false
    stopped id a l (j, e) = ground (
      arith,
      stays_stopped marked _ a j (Evolves-call_cancels (mark_all reason m.jobs m.heap []).1 marked)
          e,
      running_at-some marked a j e,
      mark_all-stops reason m.jobs m.heap [] id a v.linked l,
    )

-- What a step of a blocked manager can do to it: it stays blocked, makes no job, and adds no entry.
pub record Shrinks (m p : Manager) : Type 0 where
  pub still_blocked : p.blocked ≡ true
  pub no_new_job : length p.heap ≡ length m.heap
  pub no_new_entry : (id : String) (a : ℕ) → lookup id p.jobs ≡ some a → lookup id m.jobs ≡ some a

Shrinks-prune :
    (now : ℕ) (m : Manager) → IsValid m → m.blocked ≡ true → Shrinks m (prune_expired_locked now m)
unfolding prune_expired_locked
Shrinks-prune now m v b = record {
  still_blocked = b;
  no_new_job = refl;
  no_new_entry =
      λ id a l. ((lookup-drop_expired m.heap now m.retention m.jobs id a v.unique).0 l).0;
}

Shrinks-heap :
    (m p : Manager)
    → p.blocked ≡ true
    → p.jobs ≡ m.jobs
    → length p.heap ≡ length m.heap
    → Shrinks m p
Shrinks-heap m p b e l = record {
  still_blocked = b;
  no_new_job = l;
  no_new_entry = λ id a f. ap (lookup id) (sym e) ∙ f;
}

submit_blocked :
    (id : String) (now : ℕ) (timeout : ℤ) (has_on_done : Bool) (m : Manager)
    → m.blocked ≡ true
    → submit (some id) now timeout has_on_done m ≡ (prune_expired_locked now m, err blocked)
unfolding submit prune_expired_locked
submit_blocked id now timeout has_on_done m b = ground arith

Step-Shrinks : {m p : Manager} → IsValid m → m.blocked ≡ true → Step m p → Shrinks m p
unfolding submit get run block_and_cancel_all
Step-Shrinks {m} v b (submits none now timeout has_on_done ne) = Shrinks-heap m m b refl refl
Step-Shrinks {m} v b (submits (some id) now timeout has_on_done ne) =
    rw (submit_blocked id now timeout has_on_done m b) (Shrinks-prune now m v b)
Step-Shrinks {m} v b (finishes a result run_err now t _) =
    elim (Option-cases (get_elem? m.heap a)) [
      | inl e ↦ rw (e, run) (Shrinks-heap m m b refl refl)
      | inr (j, e) ↦
          rw (e, run)
            (Shrinks-heap m _ b refl (length-set m.heap a (finish_job result run_err now j)))
    ]
Step-Shrinks {m} v b (gets id now) = Shrinks-prune now m v b
Step-Shrinks {m} v b (cancels id reason) =
    cancel_cases (Shrinks m) id reason m (Shrinks-heap m m b refl refl) λ a j e f r.
      Shrinks-heap m _ b refl (length-set m.heap a (call_cancel (mark_cancelling reason j)))
Step-Shrinks {m} v b (cancels_all reason) =
    Shrinks-heap m _ (unfold cancel_all in b) (unfold cancel_all in refl)
      (length-cancel_all reason m)
Step-Shrinks {m} v b (blocks reason) =
    Shrinks-heap m _ (unfold cancel_all in refl) (unfold cancel_all in refl)
      (length-cancel_all reason (record m { blocked = true }))

Reach-Shrinks : {m p : Manager} → IsValid m → m.blocked ≡ true → Reach m p → Shrinks m p
Reach-Shrinks {m} v b here = Shrinks-heap m m b refl refl
Reach-Shrinks v b (next r s) =
    let before = Reach-Shrinks v b r in
    let after = Step-Shrinks (Reach-IsValid v r) before.still_blocked s in
    record {
      still_blocked = after.still_blocked;
      no_new_job = after.no_new_job ∙ before.no_new_job;
      no_new_entry = λ id a l. before.no_new_entry id a (after.no_new_entry id a l);
    }

block_lem :
    (reason : String) (m : Manager)
    → IsValid m
    → let (p, n) = block_and_cancel_all reason m in
      (n ≡ count_running m.heap m.jobs)
      × (p.jobs ≡ m.jobs)
      × ((id : String) (a : ℕ) → lookup id p.jobs ≡ some a → running_at p.heap a ≡ false)
unfolding block_and_cancel_all cancel_all
block_lem reason m v = cancel_all_lem reason (record m { blocked = true }) (IsValid-blocked m v)

-- The job has not ended, and nothing has asked its run to end.
unfoldable pub runs_on_at : Heap → ℕ → Bool
runs_on_at h a = elim (get_elem? h a) [
  | none ↦ false
  | some j ↦ is_active j.snapshot.status && not j.ctx_cancelled
]

-- A job that is not running has ended or is being cancelled, and then its context is cancelled.
runs_on_at-signalled :
    (h : Heap) (a : ℕ) → All IsSignalled h → running_at h a ≡ false → runs_on_at h a ≡ false
unfolding runs_on_at
runs_on_at-signalled h a s r = elim (Option-cases (get_elem? h a)) [
  | inl e ↦ rw (e, runs_on_at)
  | inr (j, e) ↦
      rw (e, runs_on_at)
        (ground (arith, running_at-some h a j e, All-get_elem? IsSignalled h a j e s))
]

-- After `BlockAndCancelAll` of a well-formed manager, where no call of `Cancel` or `CancelAll` has still
-- to cancel a context, whatever happens next: every submission is refused, no job is ever made, and each
-- job that the map holds has ended, or it is being cancelled and its context is cancelled.
pub block_and_cancel_all_final :
    (reason : String) (m : Manager) {p : Manager}
    → IsSteady m
    → Reach (block_and_cancel_all reason m).0 p
    → ((id : String) (now : ℕ) (timeout : ℤ) (has_on_done : Bool)
        → (submit (some id) now timeout has_on_done p).1 ≡ err blocked)
      × (length p.heap ≡ length m.heap)
      × ((id : String) (a : ℕ)
          → lookup id p.jobs ≡ some a
          → (running_at p.heap a ≡ false) × (runs_on_at p.heap a ≡ false))
unfolding block_and_cancel_all
block_and_cancel_all_final reason m {p} v r = (
  λ id now timeout has_on_done.
      rw (submit_blocked id now timeout has_on_done p shrinks.still_blocked),
  shrinks.no_new_job ∙ length-cancel_all reason (record m { blocked = true }),
  λ id a l.
      let none_runs = ends id a l in
      (
        none_runs,
        runs_on_at-signalled p.heap a (Reach-IsSteady (Step-IsSteady v (blocks reason)) r).signalled
            none_runs,
      ),
)
  where
    q : Manager
    q = (block_and_cancel_all reason m).0

    valid : IsValid q
    valid = block_and_cancel_all-IsValid reason m v.valid

    shrinks : Shrinks q p
    shrinks = Reach-Shrinks valid (unfold cancel_all in refl) r

    stopped :
        (id : String) (a : ℕ)
        → lookup id q.jobs ≡ some a
        → (j : Job) × (get_elem? q.heap a ≡ some j)
        → running_at p.heap a ≡ false
    stopped id a l (j, e) =
        stays_stopped q.heap p.heap a j (Reach-Evolves r) e
          (sym (running_at-some q.heap a j e) ∙ (block_lem reason m v.valid).2 id a l)

    ends : (id : String) (a : ℕ) → lookup id p.jobs ≡ some a → running_at p.heap a ≡ false
    ends id a l = stopped id a (shrinks.no_new_entry id a l) (
        allocated q.heap id a (
          AllEntries-lookup (Linked q.heap) id q.jobs a valid.linked (shrinks.no_new_entry id a l)))
