-- ===== src/Jobs/Oldest.antt =====
-- internal/jobs/manager.go: the search of `pruneCapacityLocked` for the job that finished first.
use windows_llmmanager.Base.{
  ℕ, ◌≤◌, ◌≡◌, ◌≢◌, refl, sym, String, string_eq, [], ◌∷◌, none, some, if◌then◌else◌, arith,
}
use windows_llmmanager.Base.Dict.{Dict, lookup, NodupKeys, AllEntries}
use windows_llmmanager.Jobs.Defs.{Heap}
use windows_llmmanager.Jobs.Ops.{completed_at, replaces_oldest, find_oldest}

abbrev pub HasId : String → ℕ → Type 0
HasId id _ = id ≢ ""

abbrev pub IsUnfinished : Heap → String → ℕ → Type 0
IsUnfinished h _ a = completed_at h a ≡ 0

-- A candidate once found is only given up for another.
pub find_oldest-ne-empty :
    (h : Heap) (d : Dict String ℕ) (id : String) (t : ℕ)
    → id ≢ ""
    → AllEntries HasId d
    → find_oldest h d id t ≢ ""
unfolding find_oldest
find_oldest-ne-empty h [] id t ne _ = ne
find_oldest-ne-empty h ((k, a) ∷ d) id t ne (kn, r) =
    ground (
      arith,
      find_oldest-ne-empty h d id t ne r,
      find_oldest-ne-empty h d k (completed_at h a) kn r,
    )

-- No candidate means that no job in the map has finished.
pub find_oldest-empty :
    (h : Heap) (d : Dict String ℕ)
    → AllEntries HasId d
    → find_oldest h d "" 0 ≡ ""
    → AllEntries (IsUnfinished h) d
unfolding find_oldest replaces_oldest
find_oldest-empty h [] _ e = tt
find_oldest-empty h ((k, a) ∷ d) (kn, r) e =
    ground (arith, find_oldest-empty h d r, find_oldest-ne-empty h d k (completed_at h a) kn r)

-- The finishing time of the job that the search returns.
pub oldest_time : Heap → Dict String ℕ → String → ℕ → ℕ
oldest_time h [] id t = t
oldest_time h ((k, a) ∷ d) id t =
    let newer = oldest_time h d k (completed_at h a) in
    let same = oldest_time h d id t in if replaces_oldest h a id t then newer else same

-- No finished job of the map finished before that time, nor did the candidate so far.
pub oldest_time-le :
    (h : Heap) (d : Dict String ℕ) (id : String) (t : ℕ)
    → id ≢ ""
    → AllEntries HasId d
    → oldest_time h d id t ≤ t
unfolding oldest_time replaces_oldest
oldest_time-le h [] id t ne _ = omega arith
oldest_time-le h ((k, a) ∷ d) id t ne (kn, r) =
    ground (arith, oldest_time-le h d id t ne r, oldest_time-le h d k (completed_at h a) kn r)

pub oldest_time-le_entry :
    (h : Heap) (d : Dict String ℕ) (id : String) (t : ℕ) (k : String) (b : ℕ)
    → AllEntries HasId d
    → lookup k d ≡ some b
    → completed_at h b ≢ 0
    → oldest_time h d id t ≤ completed_at h b
unfolding oldest_time replaces_oldest lookup
oldest_time-le_entry h [] id t k b _ e _ = ground arith
oldest_time-le_entry h ((j, a) ∷ d) id t k b (kn, r) e f = ground (
  arith,
  oldest_time-le h d j (completed_at h a) kn r,
  oldest_time-le h d id t,
  oldest_time-le_entry h d id t k b r,
  oldest_time-le_entry h d j (completed_at h a) k b r,
)

pub find_oldest-ne :
    (h : Heap) (d : Dict String ℕ) (id : String) (t : ℕ) (x : String)
    → lookup x d ≡ none
    → x ≢ id
    → find_oldest h d id t ≢ x
unfolding find_oldest lookup
find_oldest-ne h [] id t x e ne = λ s. ne (sym s)
find_oldest-ne h ((j, a) ∷ d) id t x e ne =
    ground (arith, find_oldest-ne h d id t x, find_oldest-ne h d j (completed_at h a) x)

pub find_oldest_stays :
    (h : Heap) (d : Dict String ℕ) (id : String) (t : ℕ)
    → lookup id d ≡ none
    → find_oldest h d id t ≡ id
    → oldest_time h d id t ≡ t
unfolding find_oldest oldest_time lookup
find_oldest_stays h [] id t e s = refl
find_oldest_stays h ((j, a) ∷ d) id t e s =
    ground (arith, find_oldest_stays h d id t, find_oldest-ne h d j (completed_at h a) id)

pub find_oldest_time :
    (h : Heap) (d : Dict String ℕ) (id : String) (t : ℕ) (k : String) (b : ℕ)
    → NodupKeys d
    → lookup id d ≡ none
    → lookup k d ≡ some b
    → find_oldest h d id t ≡ k
    → (completed_at h b ≡ oldest_time h d id t) × (completed_at h b ≢ 0)
unfolding find_oldest oldest_time replaces_oldest lookup
find_oldest_time h [] id t k b _ _ e s = ground arith
find_oldest_time h ((j, a) ∷ d) id t k b (fresh, u) none_id e s = ground (
  arith,
  find_oldest-ne h d id t j fresh,
  find_oldest_stays h d j (completed_at h a) fresh,
  find_oldest_time h d j (completed_at h a) k b u fresh,
  find_oldest_time h d id t k b u,
)

pub lookup-empty : (d : Dict String ℕ) → AllEntries HasId d → lookup "" d ≡ none
unfolding lookup
lookup-empty [] _ = refl
lookup-empty ((k, a) ∷ d) (kn, r) = ground (arith, lookup-empty d r)

pub lookup-find_oldest :
    (h : Heap) (d : Dict String ℕ) (id : String) (t : ℕ)
    → lookup (find_oldest h d id t) d ≡ none
    → find_oldest h d id t ≡ id
unfolding find_oldest lookup
lookup-find_oldest h [] id t e = refl
lookup-find_oldest h ((j, a) ∷ d) id t e =
    ground (arith, lookup-find_oldest h d id t, lookup-find_oldest h d j (completed_at h a))
