-- ===== src/Jobs/Signals.antt =====
-- internal/jobs/manager.go: every method cancels the context of each job whose cancellation it asks for.
use windows_llmmanager.Base.{
  ℕ, suc, ◌≡◌, ◌≢◌, inl, inr, refl, sym, ◌∙◌, String, List, [], ◌∷◌, ◌++◌, true, is_listed, Option,
  some, get_elem?, set, Bool-cases, Option-cases, arith, All, get_elem?-set_self, get_elem?-set_ne,
}
use windows_llmmanager.Base.Dict.{Dict}
use windows_llmmanager.Api.{ExecutionResult}
use windows_llmmanager.Jobs.Defs.{Job, Heap, RunError, is_running}
use windows_llmmanager.Jobs.Ops.{finish_job, mark_cancelling, call_cancel, mark_all, call_cancels}
use windows_llmmanager.Jobs.Heaps.{
  is_waiting, IsSignalled, All-set, All-get_elem?, final_status-inactive,
}
use native.Mathlib.Decide.{ℕ_discrete}

pub IsSignalled-finish_job :
    (h : Heap) (a : ℕ) (j : Job) (result : ExecutionResult) (run_err : Option RunError) (now : ℕ)
    → All IsSignalled h
    → All IsSignalled (set h a (finish_job result run_err now j))
unfolding finish_job
IsSignalled-finish_job h a j result run_err now s =
    All-set IsSignalled h a (finish_job result run_err now j)
      (ground (arith, final_status-inactive j.snapshot.status run_err)) s

pub IsSignalled-cancelled :
    (h : Heap) (a : ℕ) (j : Job) (reason : String)
    → All IsSignalled h
    → All IsSignalled (set h a (call_cancel (mark_cancelling reason j)))
unfolding mark_cancelling call_cancel
IsSignalled-cancelled h a j reason s =
    All-set IsSignalled h a (call_cancel (mark_cancelling reason j)) refl s

is_listed-append :
    (b a : ℕ) (out : List ℕ) → is_listed b out ≡ true → is_listed b (out ++ a ∷ []) ≡ true
is_listed-append b a [] l = absurd (cc)
is_listed-append b a (x ∷ out) l = ground (arith, is_listed-append b a out)

is_listed-append_self : (a : ℕ) (out : List ℕ) → is_listed a (out ++ a ∷ []) ≡ true
is_listed-append_self a [] = ground arith
is_listed-append_self a (x ∷ out) = ground (arith, is_listed-append_self a out)

-- Only contexts that are collected are still to be cancelled.
abbrev IsCollected : Heap → List ℕ → Type 0
IsCollected h cancels =
    (b : ℕ) (j : Job) → get_elem? h b ≡ some j → is_waiting j ≡ true → is_listed b cancels ≡ true

mark_all-IsCollected :
    (reason : String) (d : Dict String ℕ) (h : Heap) (out : List ℕ)
    → IsCollected h out
    → let (marked, cancels) = mark_all reason d h out in IsCollected marked cancels
unfolding mark_all
mark_all-IsCollected reason [] h out c = c
mark_all-IsCollected reason ((k, a) ∷ d) h out c = elim (Option-cases (get_elem? h a)) [
  | inl e ↦ rw (e, mark_all) (mark_all-IsCollected reason d h out c)
  | inr (j, e) ↦ elim (Bool-cases (is_running j.snapshot.status)) [
    | inl r ↦
        rw (e, mark_all, r)
          (mark_all-IsCollected reason d (set h a (mark_cancelling reason j)) (out ++ a ∷ [])
            λ b i f w. elim (ℕ_discrete a b) [
              | yes p ↦ rw (← p) (is_listed-append_self a out)
              | no n ↦
                  is_listed-append b a out
                    (c b i (sym (get_elem?-set_ne h a b (mark_cancelling reason j) n) ∙ f) w)
            ])
    | inr r ↦ rw (e, mark_all, r) (mark_all-IsCollected reason d h out c)
  ]
]

set-IsSignalled :
    (h : Heap) (a b : ℕ) (j i : Job)
    → get_elem? h a ≡ some j
    → a ≡ b
    → get_elem? (set h a (call_cancel j)) b ≡ some i
    → is_waiting i ≢ true
unfolding call_cancel
set-IsSignalled h a b j i e p f w =
    absurd (ground (arith, get_elem?-set_self h a (call_cancel j) j e))

is_listed-uncons :
    (a b : ℕ) (rest : List ℕ) → a ≢ b → is_listed b (a ∷ rest) ≡ true → is_listed b rest ≡ true
is_listed-uncons a b rest n l = ground arith

call_cancels-IsCollected :
    (cancels : List ℕ) (h : Heap) → IsCollected h cancels → IsCollected (call_cancels cancels h) []
unfolding call_cancels
call_cancels-IsCollected [] h c = c
call_cancels-IsCollected (a ∷ rest) h c = elim (Option-cases (get_elem? h a)) [
  | inl e ↦
      rw (e, call_cancels) (call_cancels-IsCollected rest h λ b i f w. ground (arith, c b i f w))
  | inr (j, e) ↦
      rw (e, call_cancels)
        (call_cancels-IsCollected rest (set h a (call_cancel j)) λ b i f w. elim (ℕ_discrete a b) [
          | yes p ↦ absurd (set-IsSignalled h a b j i e p f w)
          | no n ↦
              is_listed-uncons a b rest n
                (c b i (sym (get_elem?-set_ne h a b (call_cancel j) n) ∙ f) w)
        ])
]

All-IsSignalled : (h : Heap) → IsCollected h [] → All IsSignalled h
All-IsSignalled [] c = tt
All-IsSignalled (j ∷ h) c = (
  elim (Bool-cases (is_waiting j)) [ inl w ↦ absurd (cc (c 0 j refl w)) | inr w ↦ w ],
  All-IsSignalled h (λ b i f w. c (suc b) i f w),
)

pub IsSignalled-call_cancels :
    (reason : String) (d : Dict String ℕ) (h : Heap)
    → All IsSignalled h
    → let (marked, cancels) = mark_all reason d h [] in
      All IsSignalled (call_cancels cancels marked)
IsSignalled-call_cancels reason d h s = All-IsSignalled _ (
    call_cancels-IsCollected _ _ (
      mark_all-IsCollected reason d h []
        λ b j e w. absurd (cc (All-get_elem? IsSignalled h b j e s))))
