-- ===== src/Jobs/Count.antt =====
-- internal/jobs/manager.go: `activeLocked` under the changes that the methods make to the map and
-- to the jobs.
use windows_llmmanager.Base.Int.{ℤ}
use windows_llmmanager.Base.{
  ℕ, zero, suc, ◌+◌, ◌≤◌, ◌<◌, ◌≡◌, refl, String, string_eq, [], ◌∷◌, ◌++◌, true, some, get_elem?,
  set, length, arith,
}
use windows_llmmanager.Base.Dict.{Dict, insert, erase, AllEntries}
use windows_llmmanager.Jobs.Defs.{Job, Heap, is_active}
use windows_llmmanager.Jobs.Ops.{active_at, count_active, drop_expired, find_oldest, shrink}

pub count_active_mono :
    (h h' : Heap) (d : Dict String ℕ)
    → ((a : ℕ) → active_at h' a ≡ true → active_at h a ≡ true)
    → count_active h' d ≤ count_active h d
unfolding count_active
count_active_mono h h' [] f = omega arith
count_active_mono h h' ((id, a) ∷ d) f = ground (arith, count_active_mono h h' d f, f a)

pub count_active-erase :
    (h : Heap) (k : String) (d : Dict String ℕ) → count_active h (erase k d) ≤ count_active h d
unfolding count_active erase
count_active-erase h k [] = omega arith
count_active-erase h k ((id, a) ∷ d) = ground (arith, count_active-erase h k d)

pub count_active-insert :
    (h : Heap) (k : String) (b : ℕ) (d : Dict String ℕ)
    → count_active h (insert k b d) ≤ count_active h d + 1
unfolding count_active insert
count_active-insert h k b [] = ground arith
count_active-insert h k b ((id, a) ∷ d) = ground (arith, count_active-insert h k b d)

pub count_active-drop_expired :
    (h : Heap) (now : ℕ) (retention : ℤ) (d : Dict String ℕ)
    → count_active h (drop_expired h now retention d) ≤ count_active h d
unfolding count_active drop_expired
count_active-drop_expired h now retention [] = omega arith
count_active-drop_expired h now retention ((id, a) ∷ d) =
    ground (arith, count_active-drop_expired h now retention d)

pub count_active-shrink :
    (fuel : ℕ) (h : Heap) (max_results : ℕ) (d : Dict String ℕ)
    → count_active h (shrink fuel h max_results d) ≤ count_active h d
unfolding shrink
count_active-shrink zero h max_results d = omega arith
count_active-shrink (suc fuel) h max_results d = ground (
  arith,
  count_active-shrink fuel h max_results (erase (find_oldest h d "" 0) d),
  count_active-erase h (find_oldest h d "" 0) d,
)

pub active_at-append :
    (h : Heap) (j : Job) (a : ℕ) → a < length h → active_at (h ++ j ∷ []) a ≡ active_at h a
unfolding active_at
active_at-append [] j a lt = absurd (omega arith)
active_at-append (x ∷ h) j zero lt = refl
active_at-append (x ∷ h) j (suc a) lt = active_at-append h j a (omega arith)

pub count_active-append :
    (h : Heap) (j : Job) (d : Dict String ℕ)
    → AllEntries (λ _ a. a < length h) d
    → count_active (h ++ j ∷ []) d ≡ count_active h d
unfolding count_active
count_active-append h j [] _ = refl
count_active-append h j ((id, a) ∷ d) (lt, r) =
    ground (arith, count_active-append h j d r, active_at-append h j a lt)

-- Rewriting one job, if it does not make it active, makes no other active.
pub active_at-set :
    (h : Heap) (a : ℕ) (old new : Job)
    → get_elem? h a ≡ some old
    → (is_active new.snapshot.status ≡ true → is_active old.snapshot.status ≡ true)
    → (b : ℕ) → active_at (set h a new) b ≡ true
    → active_at h b ≡ true
unfolding active_at
active_at-set [] a old new e f b t = ground arith
active_at-set (x ∷ h) zero old new e f zero t = ground arith
active_at-set (x ∷ h) zero old new e f (suc b) t = t
active_at-set (x ∷ h) (suc a) old new e f zero t = t
active_at-set (x ∷ h) (suc a) old new e f (suc b) t = active_at-set h a old new e f b t
