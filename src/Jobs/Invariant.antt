-- ===== src/Jobs/Invariant.antt =====
-- internal/jobs/manager.go: the well-formedness of the manager, and that pruning and adding a job
-- keep it.
use windows_llmmanager.Base.Int.{ℤ}
use windows_llmmanager.Base.{
  ℕ, suc, ◌≤◌, ◌<◌, ◌≡◌, ◌≢◌, inl, inr, refl, ◌∙◌, String, string_eq, [], ◌∷◌, ◌++◌, some,
  get_elem?, length, Option-cases, arith, All, All-append,
}
use windows_llmmanager.Base.Dict.{
  Dict, NodupKeys, insert-NodupKeys, length-insert, AllEntries, AllEntries-mono, AllEntries-insert,
}
use windows_llmmanager.Jobs.Defs.{Job, Heap, Manager, new_manager}
use windows_llmmanager.Jobs.Ops.{
  active_at, completed_at, count_active, active_locked, prune_expired_locked, shrink,
  prune_capacity_locked, add_job,
}
use windows_llmmanager.Jobs.Count.{
  count_active_mono, count_active-insert, count_active-drop_expired, count_active-shrink,
  count_active-append,
}
use windows_llmmanager.Jobs.Heaps.{
  id_at, IsCoherent, Keeps, id_at-append, id_at-append_new, id_at-lt, All-get_elem?,
}
use windows_llmmanager.Jobs.Oldest.{HasId, IsUnfinished}
use windows_llmmanager.Jobs.Eviction.{
  shrink_room, AllEntries-shrink, shrink-NodupKeys, length-shrink,
}
use windows_llmmanager.Jobs.Expiry.{
  AllEntries-drop_expired, drop_expired-NodupKeys, length-drop_expired,
}

-- The entry of the map points to a job of that name.
abbrev pub Linked : Heap → String → ℕ → Type 0
Linked h id a = id_at h a ≡ some id

pub record IsValid (m : Manager) : Type 0 where
  pub unique : NodupKeys m.jobs
  pub named : AllEntries HasId m.jobs
  pub linked : AllEntries (Linked m.heap) m.jobs
  pub coherent : All IsCoherent m.heap
  pub active_bounded : active_locked m ≤ m.max_active
  pub size_bounded : length m.jobs ≤ m.max_results
  pub configured : m.max_active ≤ m.max_results

pub new_manager-IsValid :
    (max_active max_results : ℕ) (retention : ℤ)
    → max_active ≤ max_results
    → IsValid (new_manager max_active max_results retention)
unfolding new_manager active_locked count_active
new_manager-IsValid max_active max_results retention c = record {
  unique = tt;
  named = tt;
  linked = tt;
  coherent = tt;
  active_bounded = omega arith;
  size_bounded = omega arith;
  configured = c;
}

Linked-Keeps :
    (h h' : Heap) (d : Dict String ℕ)
    → Keeps h h'
    → AllEntries (Linked h) d
    → AllEntries (Linked h') d
Linked-Keeps h h' d k = AllEntries-mono (Linked h) (Linked h') d (λ id a l. k.ids a ∙ l)

pub IsValid-Keeps :
    (m : Manager) (h : Heap) → IsValid m → Keeps m.heap h → IsValid (record m { heap = h })
unfolding active_locked
IsValid-Keeps m h v k = record {
  unique = v.unique;
  named = v.named;
  linked = Linked-Keeps m.heap h m.jobs k v.linked;
  coherent = k.coherent v.coherent;
  active_bounded = omega (arith, count_active_mono m.heap h m.jobs k.inactive, v.active_bounded);
  size_bounded = v.size_bounded;
  configured = v.configured;
}

pub prune_expired-IsValid :
    (now : ℕ) (m : Manager) → IsValid m → IsValid (prune_expired_locked now m)
unfolding prune_expired_locked active_locked
prune_expired-IsValid now m v = record {
  unique = drop_expired-NodupKeys m.heap now m.retention m.jobs v.unique;
  named = AllEntries-drop_expired HasId m.heap now m.retention m.jobs v.named;
  linked = AllEntries-drop_expired (Linked m.heap) m.heap now m.retention m.jobs v.linked;
  coherent = v.coherent;
  active_bounded =
      omega (arith, count_active-drop_expired m.heap now m.retention m.jobs, v.active_bounded);
  size_bounded = omega (arith, length-drop_expired m.heap now m.retention m.jobs, v.size_bounded);
  configured = v.configured;
}

-- The entries of the map that have not finished are the active ones, so they can be counted.
count_unfinished :
    (h : Heap) (d : Dict String ℕ)
    → All IsCoherent h
    → AllEntries (Linked h) d
    → AllEntries (IsUnfinished h) d
    → count_active h d ≡ length d
unfolding count_active active_at completed_at id_at
count_unfinished h [] c l u = refl
count_unfinished h ((id, a) ∷ d) c (l, ls) (u, us) = elim (Option-cases (get_elem? h a)) [
  | inl e ↦ ground arith
  | inr (j, e) ↦ ground (arith, All-get_elem? IsCoherent h a j e c, count_unfinished h d c ls us)
]

-- In a well-formed manager where fewer jobs are active than allowed, the eviction ends with room for one more
-- result.
pub prune_capacity_room :
    (m : Manager)
    → IsValid m
    → active_locked m < m.max_active
    → length (prune_capacity_locked m).jobs < m.max_results
unfolding prune_capacity_locked active_locked
prune_capacity_room m v lt =
    elim (shrink_room (suc (length m.jobs)) m.heap m.max_results m.jobs (omega arith) v.named) [
      | inl room ↦ room
      | inr all ↦ omega (
        arith,
        count_unfinished m.heap left v.coherent
            (AllEntries-shrink (Linked m.heap) (suc (length m.jobs)) m.heap m.max_results m.jobs
              v.linked)
            all,
        count_active-shrink (suc (length m.jobs)) m.heap m.max_results m.jobs,
        v.configured,
      )
    ]
  where
    left : Dict String ℕ
    left = shrink (suc (length m.jobs)) m.heap m.max_results m.jobs

pub prune_capacity-IsValid : (m : Manager) → IsValid m → IsValid (prune_capacity_locked m)
unfolding prune_capacity_locked active_locked
prune_capacity-IsValid m v = record {
  unique = shrink-NodupKeys fuel m.heap m.max_results m.jobs v.unique;
  named = AllEntries-shrink HasId fuel m.heap m.max_results m.jobs v.named;
  linked = AllEntries-shrink (Linked m.heap) fuel m.heap m.max_results m.jobs v.linked;
  coherent = v.coherent;
  active_bounded =
      omega (arith, count_active-shrink fuel m.heap m.max_results m.jobs, v.active_bounded);
  size_bounded = omega (arith, length-shrink fuel m.heap m.max_results m.jobs, v.size_bounded);
  configured = v.configured;
}
  where
    fuel : ℕ
    fuel = suc (length m.jobs)

pub add_job-IsValid :
    (j : Job) (m : Manager)
    → IsValid m
    → j.snapshot.job_id ≢ ""
    → IsCoherent j
    → active_locked m < m.max_active
    → length m.jobs < m.max_results
    → IsValid (add_job j m)
unfolding add_job active_locked
add_job-IsValid j m v id c busy room = record {
  unique = insert-NodupKeys j.snapshot.job_id (length m.heap) m.jobs v.unique;
  named = AllEntries-insert HasId j.snapshot.job_id (length m.heap) m.jobs id v.named;
  linked =
      AllEntries-insert (Linked (m.heap ++ j ∷ [])) j.snapshot.job_id (length m.heap) m.jobs
        (id_at-append_new m.heap j)
        (AllEntries-mono (Linked m.heap) (Linked (m.heap ++ j ∷ [])) m.jobs
          (λ k a l. id_at-append m.heap j a k l) v.linked);
  coherent = All-append IsCoherent m.heap (j ∷ []) v.coherent (c, tt);
  active_bounded = omega (
    arith,
    count_active-insert (m.heap ++ j ∷ []) j.snapshot.job_id (length m.heap) m.jobs,
    count_active-append m.heap j m.jobs (
        AllEntries-mono (Linked m.heap) (λ _ a. a < length m.heap) m.jobs
          (λ k a l. id_at-lt m.heap a k l) v.linked),
  );
  size_bounded = omega (arith, length-insert j.snapshot.job_id (length m.heap) m.jobs);
  configured = v.configured;
}
