-- ===== src/Jobs/Stop.antt =====
-- internal/jobs/manager.go: `CancelAll`, `BlockAndCancelAll` and what a blocked manager can still do.
use windows_llmmanager.Base.{
  ℕ, suc, ◌+◌, ◌≡◌, ◌≢◌, inl, inr, refl, sym, ap, ◌∙◌, String, string_eq, List, [], ◌∷◌, ◌++◌, true,
  false, none, some, get_elem?, set, length, if◌then◌else◌, Bool-cases, Option-cases, arith,
  get_elem?-set_self, get_elem?-set_ne, length-append,
}
use windows_llmmanager.Base.Dict.{Dict, lookup, NodupKeys, AllEntries, AllEntries-mono}
use windows_llmmanager.Jobs.Defs.{Status, Job, Heap, is_running}
use windows_llmmanager.Jobs.Ops.{running_at, mark_cancelling, mark_all}
use windows_llmmanager.Jobs.Heaps.{id_at, id_at-set}
use windows_llmmanager.Jobs.Invariant.{Linked}
use windows_llmmanager.Jobs.Lifecycle.{
  Leads, stay, go, asks, completes, fails, times_out, gives_up, Evolves, Evolves-mark_all,
}

-- How many jobs of the map are running, that is, neither finished nor being cancelled.
pub count_running : Heap → Dict String ℕ → ℕ
count_running h [] = 0
count_running h ((_, a) ∷ d) =
    let rest = count_running h d in if running_at h a then suc rest else rest

abbrev NotAt : ℕ → String → ℕ → Type 0
NotAt a _ b = a ≢ b

running_at-set_ne :
    (h : Heap) (a b : ℕ) (j : Job) → a ≢ b → running_at (set h a j) b ≡ running_at h b
unfolding running_at
running_at-set_ne h a b j ne = rw (get_elem?-set_ne h a b j ne, running_at)

count_running-set :
    (h : Heap) (a : ℕ) (j : Job) (d : Dict String ℕ)
    → AllEntries (NotAt a) d
    → count_running (set h a j) d ≡ count_running h d
unfolding count_running
count_running-set h a j [] _ = refl
count_running-set h a j ((k, b) ∷ d) (ne, r) =
    ground (arith, count_running-set h a j d r, running_at-set_ne h a b j ne)

-- Two entries of the map never share a job: a job knows its own name.
distinct :
    (h : Heap) (id : String) (a : ℕ) (d : Dict String ℕ)
    → id_at h a ≡ some id
    → lookup id d ≡ none
    → AllEntries (Linked h) d
    → AllEntries (NotAt a) d
unfolding lookup
distinct h id a [] _ _ _ = tt
distinct h id a ((k, b) ∷ d) e n (l, r) =
    ((λ p. ground (arith, ap (id_at h) p)), distinct h id a d e (ground arith) r)

pub running_at-some :
    (h : Heap) (a : ℕ) (j : Job)
    → get_elem? h a ≡ some j
    → running_at h a ≡ is_running j.snapshot.status
unfolding running_at
running_at-some h a j e = rw (e, running_at)

running_at-none : (h : Heap) (a : ℕ) → get_elem? h a ≡ none → running_at h a ≡ false
unfolding running_at
running_at-none h a e = rw (e, running_at)

-- Nothing becomes running again.
Leads-running : {s t : Status} → Leads s t → is_running t ≡ true → is_running s ≡ true
Leads-running stay r = r
Leads-running (go asks p) r = refl
Leads-running (go completes p) r = refl
Leads-running (go fails p) r = refl
Leads-running (go times_out p) r = refl
Leads-running (go gives_up p) r = absurd (ground (arith, Leads-running p r))

pub running_at-Evolves :
    (h h' : Heap) (a : ℕ) (j : Job)
    → Evolves h h'
    → get_elem? h a ≡ some j
    → running_at h' a ≡ true
    → running_at h a ≡ true
running_at-Evolves h h' a j ev e r =
    let (j', e', b) = ev a j e in
    running_at-some h a j e ∙ Leads-running b.leads (sym (running_at-some h' a j' e') ∙ r)

Linked-set :
    (h : Heap) (a : ℕ) (old new : Job) (d : Dict String ℕ)
    → get_elem? h a ≡ some old
    → new.snapshot.job_id ≡ old.snapshot.job_id
    → AllEntries (Linked h) d
    → AllEntries (Linked (set h a new)) d
Linked-set h a old new d e f =
    AllEntries-mono (Linked h) (Linked (set h a new)) d (λ k b l. id_at-set h a old new e f b ∙ l)

-- The loop marks every running job, and collects each once.
pub length-mark_all :
    (reason : String) (d : Dict String ℕ) (h : Heap) (out : List ℕ)
    → NodupKeys d
    → AllEntries (Linked h) d
    → length (mark_all reason d h out).1 ≡ length out + count_running h d
unfolding mark_all count_running
length-mark_all reason [] h out _ _ = omega arith
length-mark_all reason ((k, a) ∷ d) h out (fresh, u) (l, ls) = elim (Option-cases (get_elem? h a)) [
  | inl e ↦
      rw (e, mark_all) (ground (arith, running_at-none h a e, length-mark_all reason d h out u ls))
  | inr (j, e) ↦ elim (Bool-cases (is_running j.snapshot.status)) [
    | inl r ↦
        rw (e, mark_all, r)
          (ground (
            arith,
            running_at-some h a j e,
            length-append out (a ∷ []),
            count_running-set h a (mark_cancelling reason j) d (distinct h k a d l fresh ls),
            length-mark_all reason d (set h a (mark_cancelling reason j)) (out ++ a ∷ []) u (
                Linked-set h a j (mark_cancelling reason j) d e (unfold mark_cancelling in refl)
                  ls),
          ))
    | inr r ↦
        rw (e, mark_all, r)
          (ground (arith, running_at-some h a j e, length-mark_all reason d h out u ls))
  ]
]

pub stays_stopped :
    (h h' : Heap) (a : ℕ) (j : Job)
    → Evolves h h'
    → get_elem? h a ≡ some j
    → is_running j.snapshot.status ≡ false
    → running_at h' a ≡ false
stays_stopped h h' a j ev e r = elim (Bool-cases (running_at h' a)) [
  | inl s ↦ absurd (ground (arith, running_at-Evolves h h' a j ev e s, running_at-some h a j e))
  | inr s ↦ s
]

pub mark_all-stops :
    (reason : String) (d : Dict String ℕ) (h : Heap) (out : List ℕ) (x : String) (b : ℕ)
    → AllEntries (Linked h) d
    → lookup x d ≡ some b
    → running_at (mark_all reason d h out).0 b ≡ false
unfolding mark_all lookup
mark_all-stops reason [] h out x b _ f = absurd (cc)
mark_all-stops reason ((k, a) ∷ d) h out x b (l, ls) f = elim (Option-cases (get_elem? h a)) [
  | inl e ↦ absurd (unfold id_at in ground arith)
  | inr (j, e) ↦ elim (Bool-cases (is_running j.snapshot.status)) [
    | inl r ↦
        rw (e, mark_all, r)
          (let marked = set h a (mark_cancelling reason j) in
            let ls' =
              Linked-set h a j (mark_cancelling reason j) d e (unfold mark_cancelling in refl) ls in
            ground (
              arith,
              stays_stopped marked (mark_all reason d marked (out ++ a ∷ [])).0 a
                  (mark_cancelling reason j) (Evolves-mark_all reason d marked (out ++ a ∷ []))
                  (get_elem?-set_self h a (mark_cancelling reason j) j e)
                  (unfold mark_cancelling in refl),
              mark_all-stops reason d marked (out ++ a ∷ []) x b ls',
            ))
    | inr r ↦
        rw (e, mark_all, r)
          (ground (
            arith,
            stays_stopped h (mark_all reason d h out).0 a j (Evolves-mark_all reason d h out) e r,
            mark_all-stops reason d h out x b ls,
          ))
  ]
]
