-- ===== src/Jobs/Lifecycle.antt =====
-- internal/jobs/manager.go: the state machine of one job.
use windows_llmmanager.Base.{
  ℕ, ◌≡◌, inl, inr, refl, ◌∙◌, subst, String, string_eq, List, [], ◌∷◌, ◌++◌, true, false, Option,
  none, some, get_elem?, set, Bool-cases, Option-cases, arith, get_elem?-set_self, get_elem?-set_ne,
  get_elem?-append_old,
}
use windows_llmmanager.Base.Dict.{Dict}
use windows_llmmanager.Api.{ExecutionResult}
use windows_llmmanager.Jobs.Defs.{
  Status, running, cancelling, completed, failed, timed_out, cancelled, Job, Heap, Manager,
  RunError, run_timed_out, run_failed, is_running, is_active,
}
use windows_llmmanager.Jobs.Ops.{
  active_at, prune_expired_locked, prune_capacity_locked, new_job, add_job, submit, final_status,
  finish_job, run, get, mark_cancelling, call_cancel, mark_all, call_cancels, cancel_all,
  block_and_cancel_all,
}
use windows_llmmanager.Jobs.Methods.{submit_cases, cancel_cases}
use native.Mathlib.Decide.{ℕ_discrete}
use windows_llmmanager.Jobs.Steps.{
  Step, submits, finishes, gets, cancels, cancels_all, blocks, Reach, here, next,
}

-- The state machine of a status, and its reflexive and transitive closure.
pub data Edge : Status → Status → Type 0 where
  asks : Edge running cancelling
  completes : Edge running completed
  fails : Edge running failed
  times_out : Edge running timed_out
  gives_up : Edge cancelling cancelled

pub data Leads : Status → Status → Type 0 where
  stay : {s : Status} → Leads s s
  go : {s t u : Status} → Edge s t → Leads t u → Leads s u

Leads-trans : {s t u : Status} → Leads s t → Leads t u → Leads s u
Leads-trans stay q = q
Leads-trans (go e p) q = go e (Leads-trans p q)

-- What may become of a job: its status moves along the edges, its identity and times of creation
-- and start stay, its context once cancelled stays so, and once it has finished nothing of its
-- snapshot changes.
pub record Becomes (j j' : Job) : Type 0 where
  pub leads : Leads j.snapshot.status j'.snapshot.status
  pub job_id : j'.snapshot.job_id ≡ j.snapshot.job_id
  pub created_at : j'.snapshot.created_at ≡ j.snapshot.created_at
  pub started_at : j'.snapshot.started_at ≡ j.snapshot.started_at
  pub timeout : j'.snapshot.timeout ≡ j.snapshot.timeout
  pub cancelled_stays : j.ctx_cancelled ≡ true → j'.ctx_cancelled ≡ true
  pub frozen : is_active j.snapshot.status ≡ false → j'.snapshot ≡ j.snapshot

Becomes-refl : (j : Job) → Becomes j j
Becomes-refl j = record {
  leads = stay;
  job_id = refl;
  created_at = refl;
  started_at = refl;
  timeout = refl;
  cancelled_stays = λ c. c;
  frozen = λ _. refl;
}

Becomes-trans : (i j k : Job) → Becomes i j → Becomes j k → Becomes i k
Becomes-trans i j k p q = record {
  leads = Leads-trans p.leads q.leads;
  job_id = q.job_id ∙ p.job_id;
  created_at = q.created_at ∙ p.created_at;
  started_at = q.started_at ∙ p.started_at;
  timeout = q.timeout ∙ p.timeout;
  cancelled_stays = λ c. q.cancelled_stays (p.cancelled_stays c);
  frozen = λ f. q.frozen (ground (arith, p.frozen f)) ∙ p.frozen f;
}

-- Every job of the heap is still there, and has become what it may.
abbrev pub Evolves : Heap → Heap → Type 0
Evolves h h' =
    (a : ℕ) (j : Job)
    → get_elem? h a ≡ some j
    → (j' : Job) × (get_elem? h' a ≡ some j') × Becomes j j'

Evolves-refl : (h : Heap) → Evolves h h
Evolves-refl h a j e = (j, e, Becomes-refl j)

pub Evolves-trans : (h i k : Heap) → Evolves h i → Evolves i k → Evolves h k
Evolves-trans h i k p q a j e =
    let (j', e', b) = p a j e in
    let (j'', e'', c) = q a j' e' in (j'', e'', Becomes-trans j j' j'' b c)

Evolves-set :
    (h : Heap) (a : ℕ) (old new : Job)
    → get_elem? h a ≡ some old
    → Becomes old new
    → Evolves h (set h a new)
Evolves-set h a old new e b c j f = elim (ℕ_discrete a c) [
  | yes p ↦ (
    new,
    rw (← p) (get_elem?-set_self h a new old e),
    subst (λ x. Becomes x new) (ground arith) b,
  )
  | no n ↦ (j, get_elem?-set_ne h a c new n ∙ f, Becomes-refl j)
]

Evolves-append : (h : Heap) (j : Job) → Evolves h (h ++ j ∷ [])
Evolves-append h j a i e = (i, get_elem?-append_old h (j ∷ []) a i e, Becomes-refl i)

pub Becomes-mark_cancelling :
    (j : Job) (reason : String)
    → is_running j.snapshot.status ≡ true
    → Becomes j (mark_cancelling reason j)
unfolding mark_cancelling
Becomes-mark_cancelling j reason r = record {
  leads = subst (λ s. Leads s cancelling) (ground arith) (go asks stay);
  job_id = refl;
  created_at = refl;
  started_at = refl;
  timeout = refl;
  cancelled_stays = λ c. c;
  frozen = λ f. absurd (ground arith);
}

Becomes-call_cancel : (j : Job) → Becomes j (call_cancel j)
unfolding call_cancel
Becomes-call_cancel j = record {
  leads = stay;
  job_id = refl;
  created_at = refl;
  started_at = refl;
  timeout = refl;
  cancelled_stays = λ c. refl;
  frozen = λ _. refl;
}

Leads-final_status :
    (s : Status) (run_err : Option RunError) → is_active s ≡ true → Leads s (final_status s run_err)
unfolding final_status
Leads-final_status running none _ = go completes stay
Leads-final_status running (some run_timed_out) _ = go times_out stay
Leads-final_status running (some (run_failed message)) _ = go fails stay
Leads-final_status cancelling run_err _ = go gives_up stay
Leads-final_status completed run_err a = absurd (cc)
Leads-final_status failed run_err a = absurd (cc)
Leads-final_status timed_out run_err a = absurd (cc)
Leads-final_status cancelled run_err a = absurd (cc)

Becomes-finish_job :
    (j : Job) (result : ExecutionResult) (run_err : Option RunError) (now : ℕ)
    → is_active j.snapshot.status ≡ true
    → Becomes j (finish_job result run_err now j)
unfolding finish_job
Becomes-finish_job j result run_err now a = record {
  leads = Leads-final_status j.snapshot.status run_err a;
  job_id = refl;
  created_at = refl;
  started_at = refl;
  timeout = refl;
  cancelled_stays = λ c. refl;
  frozen = λ f. absurd (ground arith);
}

pub Evolves-mark_all :
    (reason : String) (d : Dict String ℕ) (h : Heap) (out : List ℕ)
    → Evolves h (mark_all reason d h out).0
unfolding mark_all
Evolves-mark_all reason [] h out = Evolves-refl h
Evolves-mark_all reason ((k, a) ∷ d) h out = elim (Option-cases (get_elem? h a)) [
  | inl e ↦ rw (e, mark_all) (Evolves-mark_all reason d h out)
  | inr (j, e) ↦ elim (Bool-cases (is_running j.snapshot.status)) [
    | inl r ↦
        rw (e, mark_all, r)
          (Evolves-trans h (set h a (mark_cancelling reason j)) _
            (Evolves-set h a j _ e (Becomes-mark_cancelling j reason r))
            (Evolves-mark_all reason d (set h a (mark_cancelling reason j)) (out ++ a ∷ [])))
    | inr r ↦ rw (e, mark_all, r) (Evolves-mark_all reason d h out)
  ]
]

pub Evolves-call_cancels : (cancels : List ℕ) (h : Heap) → Evolves h (call_cancels cancels h)
unfolding call_cancels
Evolves-call_cancels [] h = Evolves-refl h
Evolves-call_cancels (a ∷ rest) h = elim (Option-cases (get_elem? h a)) [
  | inl e ↦ rw (e, call_cancels) (Evolves-call_cancels rest h)
  | inr (j, e) ↦
      rw (e, call_cancels)
        (Evolves-trans h (set h a (call_cancel j)) _ (Evolves-set h a j _ e (Becomes-call_cancel j))
          (Evolves-call_cancels rest (set h a (call_cancel j))))
]

pub Evolves-cancel_all :
    (reason : String) (m : Manager) → Evolves m.heap (cancel_all reason m).0.heap
unfolding cancel_all
Evolves-cancel_all reason m =
    Evolves-trans m.heap (mark_all reason m.jobs m.heap []).0 _
      (Evolves-mark_all reason m.jobs m.heap []) (Evolves-call_cancels _ _)

Evolves-run :
    (a : ℕ) (result : ExecutionResult) (run_err : Option RunError) (now : ℕ) (m : Manager)
    → active_at m.heap a ≡ true
    → Evolves m.heap (run a result run_err now m).0.heap
unfolding run active_at
Evolves-run a result run_err now m t = elim (Option-cases (get_elem? m.heap a)) [
  | inl e ↦ rw (e, run) (Evolves-refl m.heap)
  | inr (j, e) ↦
      rw (e, run)
        (Evolves-set m.heap a j _ e
          (Becomes-finish_job j result run_err now (rw (e, active_at) at t)))
]

-- Whatever happens, each job moves along the edges of the state machine, keeps its identity and its
-- times, a cancelled context stays so, and once it has finished its snapshot never changes again.
pub Step-Evolves : {m p : Manager} → Step m p → Evolves m.heap p.heap
unfolding submit get block_and_cancel_all prune_expired_locked prune_capacity_locked add_job
Step-Evolves {m} (submits none now timeout has_on_done ne) = Evolves-refl m.heap
Step-Evolves {m} (submits (some id) now timeout has_on_done ne) =
    submit_cases (λ p. Evolves m.heap p.heap) id now timeout has_on_done m (Evolves-refl m.heap)
      (λ _. Evolves-append m.heap (new_job id now timeout has_on_done))
Step-Evolves {m} (finishes a result run_err now t _) = Evolves-run a result run_err now m t
Step-Evolves {m} (gets id now) = Evolves-refl m.heap
Step-Evolves {m} (cancels id reason) =
    cancel_cases (λ p. Evolves m.heap p.heap) id reason m (Evolves-refl m.heap)
      λ a j e f r. Evolves-set m.heap a j _ f (
        Becomes-trans j (mark_cancelling reason j) _ (Becomes-mark_cancelling j reason r)
          (Becomes-call_cancel (mark_cancelling reason j)))
Step-Evolves {m} (cancels_all reason) = Evolves-cancel_all reason m
Step-Evolves {m} (blocks reason) = Evolves-cancel_all reason (record m { blocked = true })

-- Over any sequence of steps every job is still there, its status has moved along the edges from
-- running over cancelling to an end, its identity and times of start are the same, its context is
-- cancelled if it was, and if it had ended, its snapshot is the same.
pub Reach-Evolves : {m p : Manager} → Reach m p → Evolves m.heap p.heap
Reach-Evolves {m} here = Evolves-refl m.heap
Reach-Evolves (next r s) = Evolves-trans _ _ _ (Reach-Evolves r) (Step-Evolves s)
