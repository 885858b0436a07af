-- ===== src/Jobs/Heaps.antt =====
-- internal/jobs/manager.go: the changes that the methods make to the jobs themselves.
use windows_llmmanager.Base.{
  ℕ, zero, suc, ◌<◌, ◌≡◌, inl, inr, refl, ◌∙◌, subst, String, string_eq, List, [], ◌∷◌, ◌++◌, Bool,
  true, false, not, ◌&&◌, Option, none, some, get_elem?, set, length, Bool-cases, Option-cases,
  arith, All,
}
use windows_llmmanager.Base.Dict.{Dict}
use windows_llmmanager.Api.{ExecutionResult}
use windows_llmmanager.Jobs.Defs.{Status, Job, Heap, RunError, is_running, is_active, is_zero}
use windows_llmmanager.Jobs.Ops.{
  active_at, final_status, finish_job, mark_cancelling, call_cancel, mark_all, call_cancels,
}
use windows_llmmanager.Jobs.Count.{active_at-set}

unfoldable pub id_at : Heap → ℕ → Option String
id_at h a = elim (get_elem? h a) [ none ↦ none | some j ↦ some j.snapshot.job_id ]

-- A job has a completion time exactly if its status is a final one.
abbrev pub IsCoherent : Job → Type 0
IsCoherent j = is_zero j.snapshot.completed_at ≡ is_active j.snapshot.status

-- A cancellation was asked for, but the context of the job is not cancelled.
abbrev pub is_waiting : Job → Bool
is_waiting j =
    is_active j.snapshot.status && not (is_running j.snapshot.status) && not j.ctx_cancelled

-- The context of a job that is being cancelled is cancelled.
abbrev pub IsSignalled : Job → Type 0
IsSignalled j = is_waiting j ≡ false

-- The changes that a method may make to jobs: no identity changes, and no finished job is revived.
pub record Keeps (h h' : Heap) : Type 0 where
  pub ids : (b : ℕ) → id_at h' b ≡ id_at h b
  pub inactive : (b : ℕ) → active_at h' b ≡ true → active_at h b ≡ true
  pub coherent : All IsCoherent h → All IsCoherent h'

pub Keeps-refl : (h : Heap) → Keeps h h
Keeps-refl h = record { ids = λ b. refl; inactive = λ b t. t; coherent = λ c. c }

pub Keeps-trans : {h i k : Heap} → Keeps h i → Keeps i k → Keeps h k
Keeps-trans p q = record {
  ids = λ b. q.ids b ∙ p.ids b;
  inactive = λ b t. p.inactive b (q.inactive b t);
  coherent = λ c. q.coherent (p.coherent c);
}

pub id_at-set :
    (h : Heap) (a : ℕ) (old new : Job)
    → get_elem? h a ≡ some old
    → new.snapshot.job_id ≡ old.snapshot.job_id
    → (b : ℕ) → id_at (set h a new) b ≡ id_at h b
unfolding id_at
id_at-set [] a old new e f b = refl
id_at-set (x ∷ h) zero old new e f zero = ground arith
id_at-set (x ∷ h) zero old new e f (suc b) = refl
id_at-set (x ∷ h) (suc a) old new e f zero = refl
id_at-set (x ∷ h) (suc a) old new e f (suc b) = id_at-set h a old new e f b

pub id_at-append :
    (h : Heap) (j : Job) (b : ℕ) (id : String)
    → id_at h b ≡ some id
    → id_at (h ++ j ∷ []) b ≡ some id
unfolding id_at
id_at-append [] j b id e = ground arith
id_at-append (x ∷ h) j zero id e = e
id_at-append (x ∷ h) j (suc b) id e = id_at-append h j b id e

pub id_at-append_new :
    (h : Heap) (j : Job) → id_at (h ++ j ∷ []) (length h) ≡ some j.snapshot.job_id
unfolding id_at
id_at-append_new [] j = refl
id_at-append_new (x ∷ h) j = id_at-append_new h j

pub id_at-lt : (h : Heap) (b : ℕ) (id : String) → id_at h b ≡ some id → b < length h
unfolding id_at
id_at-lt [] b id e = ground arith
id_at-lt (x ∷ h) zero id e = omega arith
id_at-lt (x ∷ h) (suc b) id e = omega (arith, id_at-lt h b id e)

pub All-set {ℓ κ} :
    {A : Type ℓ} (P : A → Type κ) (xs : List A) (i : ℕ) (v : A)
    → P v
    → All P xs
    → All P (set xs i v)
All-set P [] i v p r = tt
All-set P (x ∷ xs) zero v p r = (p, r.1)
All-set P (x ∷ xs) (suc i) v p r = (r.0, All-set P xs i v p r.1)

pub All-get_elem? {ℓ κ} :
    {A : Type ℓ} (P : A → Type κ) (xs : List A) (i : ℕ) (v : A)
    → get_elem? xs i ≡ some v
    → All P xs
    → P v
All-get_elem? P [] i v e r = absurd (cc)
All-get_elem? P (x ∷ xs) zero v e r = subst P (ground arith) r.0
All-get_elem? P (x ∷ xs) (suc i) v e r = All-get_elem? P xs i v e r.1

pub Keeps-set :
    (h : Heap) (a : ℕ) (old new : Job)
    → get_elem? h a ≡ some old
    → new.snapshot.job_id ≡ old.snapshot.job_id
    → (is_active new.snapshot.status ≡ true → is_active old.snapshot.status ≡ true)
    → (IsCoherent old → IsCoherent new)
    → Keeps h (set h a new)
Keeps-set h a old new e f g c = record {
  ids = id_at-set h a old new e f;
  inactive = active_at-set h a old new e g;
  coherent = λ r. All-set IsCoherent h a new (c (All-get_elem? IsCoherent h a old e r)) r;
}

pub Keeps-mark_cancelling :
    (h : Heap) (a : ℕ) (j : Job) (reason : String)
    → get_elem? h a ≡ some j
    → is_running j.snapshot.status ≡ true
    → Keeps h (set h a (mark_cancelling reason j))
unfolding mark_cancelling
Keeps-mark_cancelling h a j reason e r =
    Keeps-set h a j (mark_cancelling reason j) e refl (ground arith) (ground arith)

pub Keeps-cancelled :
    (h : Heap) (a : ℕ) (j : Job) (reason : String)
    → get_elem? h a ≡ some j
    → is_running j.snapshot.status ≡ true
    → Keeps h (set h a (call_cancel (mark_cancelling reason j)))
unfolding mark_cancelling call_cancel
Keeps-cancelled h a j reason e r =
    Keeps-set h a j (call_cancel (mark_cancelling reason j)) e refl (ground arith) (ground arith)

pub Keeps-call_cancel :
    (h : Heap) (a : ℕ) (j : Job) → get_elem? h a ≡ some j → Keeps h (set h a (call_cancel j))
unfolding call_cancel
Keeps-call_cancel h a j e = Keeps-set h a j (call_cancel j) e refl (λ t. t) (λ t. t)

pub Keeps-call_cancels : (cancels : List ℕ) (h : Heap) → Keeps h (call_cancels cancels h)
unfolding call_cancels
Keeps-call_cancels [] h = Keeps-refl h
Keeps-call_cancels (a ∷ rest) h = elim (Option-cases (get_elem? h a)) [
  | inl e ↦ rw (e, call_cancels) (Keeps-call_cancels rest h)
  | inr (j, e) ↦
      rw (e, call_cancels)
        (Keeps-trans (Keeps-call_cancel h a j e)
          (Keeps-call_cancels rest (set h a (call_cancel j))))
]

pub Keeps-mark_all :
    (reason : String) (d : Dict String ℕ) (h : Heap) (cancels : List ℕ)
    → Keeps h (mark_all reason d h cancels).0
unfolding mark_all
Keeps-mark_all reason [] h cancels = Keeps-refl h
Keeps-mark_all reason ((k, a) ∷ d) h cancels = elim (Option-cases (get_elem? h a)) [
  | inl e ↦ rw (e, mark_all) (Keeps-mark_all reason d h cancels)
  | inr (j, e) ↦ elim (Bool-cases (is_running j.snapshot.status)) [
    | inl r ↦
        rw (e, mark_all, r)
          (Keeps-trans (Keeps-mark_cancelling h a j reason e r) (Keeps-mark_all reason d _ _))
    | inr r ↦ rw (e, mark_all, r) (Keeps-mark_all reason d h cancels)
  ]
]

pub final_status-inactive :
    (s : Status) (run_err : Option RunError) → is_active (final_status s run_err) ≡ false
unfolding final_status
final_status-inactive s run_err = ground arith

-- The goroutine of a job that is still active ends it.
pub Keeps-finish_job :
    (h : Heap) (a : ℕ) (j : Job) (result : ExecutionResult) (run_err : Option RunError) (now : ℕ)
    → get_elem? h a ≡ some j
    → 0 < now
    → Keeps h (set h a (finish_job result run_err now j))
unfolding finish_job
Keeps-finish_job h a j result run_err now e t =
    Keeps-set h a j (finish_job result run_err now j) e refl
      (λ u. absurd (cc (final_status-inactive j.snapshot.status run_err)))
      (λ _. ground (arith, final_status-inactive j.snapshot.status run_err))
