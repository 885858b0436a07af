-- ===== src/Jobs/Eviction.antt =====
-- internal/jobs/manager.go: what `pruneCapacityLocked` evicts.
use windows_llmmanager.Base.{
  ℕ, zero, suc, ◌≤◌, ◌<◌, ◌≡◌, ◌≢◌, ◌⊎◌, String, string_eq, none, some, length, arith,
}
use windows_llmmanager.Base.Dict.{
  Dict, lookup, erase, NodupKeys, lookup-erase, erase-NodupKeys, length-erase-le, length-erase-lt,
  AllEntries, AllEntries-erase,
}
use windows_llmmanager.Jobs.Defs.{Heap}
use windows_llmmanager.Jobs.Ops.{completed_at, find_oldest, shrink}
use windows_llmmanager.Jobs.Oldest.{
  HasId, IsUnfinished, find_oldest-empty, oldest_time-le_entry, find_oldest_time, lookup-empty,
  lookup-find_oldest,
}

-- The loop ends with room in the map, or with nothing in it that has finished.
pub shrink_room :
    (fuel : ℕ) (h : Heap) (max_results : ℕ) (d : Dict String ℕ)
    → length d < fuel
    → AllEntries HasId d
    → (length (shrink fuel h max_results d) < max_results)
      ⊎ AllEntries (IsUnfinished h) (shrink fuel h max_results d)
unfolding shrink
shrink_room zero h max_results d f n = absurd (omega arith)
shrink_room (suc fuel) h max_results d f n = ground (
  arith,
  find_oldest-empty h d n,
  lookup-find_oldest h d "" 0,
  length-erase-lt (find_oldest h d "" 0) d,
  shrink_room fuel h max_results (erase (find_oldest h d "" 0) d),
  AllEntries-erase HasId (find_oldest h d "" 0) d n,
)

-- The loop deletes no unfinished job.
pub shrink_keeps :
    (fuel : ℕ) (h : Heap) (max_results : ℕ) (d : Dict String ℕ) (k : String) (b : ℕ)
    → NodupKeys d
    → AllEntries HasId d
    → lookup k d ≡ some b
    → completed_at h b ≡ 0
    → lookup k (shrink fuel h max_results d) ≡ some b
unfolding shrink
shrink_keeps zero h max_results d k b u n e z = e
shrink_keeps (suc fuel) h max_results d k b u n e z = ground (
  arith,
  lookup-empty d n,
  find_oldest_time h d "" 0 k b u,
  lookup-erase k (find_oldest h d "" 0) d,
  shrink_keeps fuel h max_results (erase (find_oldest h d "" 0) d) k b
      (erase-NodupKeys (find_oldest h d "" 0) d u)
      (AllEntries-erase HasId (find_oldest h d "" 0) d n),
)

-- Nor does it add or change an entry.
pub shrink_old :
    (fuel : ℕ) (h : Heap) (max_results : ℕ) (d : Dict String ℕ) (k : String) (b : ℕ)
    → lookup k (shrink fuel h max_results d) ≡ some b
    → lookup k d ≡ some b
unfolding shrink
shrink_old zero h max_results d k b e = e
shrink_old (suc fuel) h max_results d k b e = ground (
  arith,
  lookup-erase k (find_oldest h d "" 0) d,
  shrink_old fuel h max_results (erase (find_oldest h d "" 0) d) k b,
)

-- In a map with distinct, non-empty ids, a job that `shrink` deletes finished no later than any
-- finished job that it leaves.
pub shrink_oldest_first :
    (fuel : ℕ) (h : Heap) (max_results : ℕ) (d : Dict String ℕ) (k j : String) (b c : ℕ)
    → NodupKeys d
    → AllEntries HasId d
    → lookup k d ≡ some b
    → lookup k (shrink fuel h max_results d) ≡ none
    → lookup j (shrink fuel h max_results d) ≡ some c
    → completed_at h c ≢ 0
    → completed_at h b ≤ completed_at h c
unfolding shrink
shrink_oldest_first zero h max_results d k j b c u n e g l f = ground arith
shrink_oldest_first (suc fuel) h max_results d k j b c u n e g l f = ground (
  arith,
  lookup-empty d n,
  find_oldest_time h d "" 0 k b u,
  oldest_time-le_entry h d "" 0 j c n,
  lookup-erase k (find_oldest h d "" 0) d,
  lookup-erase j (find_oldest h d "" 0) d,
  shrink_old fuel h max_results (erase (find_oldest h d "" 0) d) j c,
  shrink_oldest_first fuel h max_results (erase (find_oldest h d "" 0) d) k j b c
      (erase-NodupKeys (find_oldest h d "" 0) d u)
      (AllEntries-erase HasId (find_oldest h d "" 0) d n),
)

module _ (P : String → ℕ → Type 0) where
  pub AllEntries-shrink :
      (fuel : ℕ) (h : Heap) (max_results : ℕ) (d : Dict String ℕ)
      → AllEntries P d
      → AllEntries P (shrink fuel h max_results d)
  unfolding shrink
  AllEntries-shrink zero h max_results d r = r
  AllEntries-shrink (suc fuel) h max_results d r = ground (
    arith,
    AllEntries-shrink fuel h max_results (erase (find_oldest h d "" 0) d)
        (AllEntries-erase P (find_oldest h d "" 0) d r),
  )

pub shrink-NodupKeys :
    (fuel : ℕ) (h : Heap) (max_results : ℕ) (d : Dict String ℕ)
    → NodupKeys d
    → NodupKeys (shrink fuel h max_results d)
unfolding shrink
shrink-NodupKeys zero h max_results d u = u
shrink-NodupKeys (suc fuel) h max_results d u = ground (
  arith,
  shrink-NodupKeys fuel h max_results (erase (find_oldest h d "" 0) d)
      (erase-NodupKeys (find_oldest h d "" 0) d u),
)

pub length-shrink :
    (fuel : ℕ) (h : Heap) (max_results : ℕ) (d : Dict String ℕ)
    → length (shrink fuel h max_results d) ≤ length d
unfolding shrink
length-shrink zero h max_results d = omega arith
length-shrink (suc fuel) h max_results d = ground (
  arith,
  length-shrink fuel h max_results (erase (find_oldest h d "" 0) d),
  length-erase-le (find_oldest h d "" 0) d,
)
