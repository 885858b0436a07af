-- ===== src/Jobs/Expiry.antt =====
-- internal/jobs/manager.go: what `pruneExpiredLocked` deletes.
use windows_llmmanager.Base.Int.{ℤ}
use windows_llmmanager.Base.{
  ℕ, ◌≤◌, ◌≡◌, ◌↔◌, refl, String, string_eq, [], ◌∷◌, false, none, some, length, arith,
}
use windows_llmmanager.Base.Dict.{Dict, lookup, NodupKeys, AllEntries}
use windows_llmmanager.Jobs.Defs.{Heap}
use windows_llmmanager.Jobs.Ops.{is_expired, drop_expired}

module _ (P : String → ℕ → Type 0) where
  pub AllEntries-drop_expired :
      (h : Heap) (now : ℕ) (retention : ℤ) (d : Dict String ℕ)
      → AllEntries P d
      → AllEntries P (drop_expired h now retention d)
  unfolding drop_expired
  AllEntries-drop_expired h now retention [] _ = tt
  AllEntries-drop_expired h now retention ((k, a) ∷ d) (p, r) =
      ground (arith, AllEntries-drop_expired h now retention d r)

-- From a map with distinct keys `pruneExpiredLocked` deletes the jobs whose retention has run out,
-- and nothing else.
pub lookup-drop_expired :
    (h : Heap) (now : ℕ) (retention : ℤ) (d : Dict String ℕ) (k : String) (b : ℕ)
    → NodupKeys d
    → (lookup k (drop_expired h now retention d) ≡ some b)
      ↔ ((lookup k d ≡ some b) × (is_expired h now retention b ≡ false))
unfolding drop_expired lookup
lookup-drop_expired h now retention [] k b _ = (λ e. absurd (cc), λ e. absurd (cc))
lookup-drop_expired h now retention ((j, a) ∷ d) k b (fresh, u) =
    ground (arith, lookup-drop_expired h now retention d k b u)

drop_expired-none :
    (h : Heap) (now : ℕ) (retention : ℤ) (d : Dict String ℕ) (k : String)
    → lookup k d ≡ none
    → lookup k (drop_expired h now retention d) ≡ none
unfolding drop_expired lookup
drop_expired-none h now retention [] k e = refl
drop_expired-none h now retention ((j, a) ∷ d) k e =
    ground (arith, drop_expired-none h now retention d k)

pub drop_expired-NodupKeys :
    (h : Heap) (now : ℕ) (retention : ℤ) (d : Dict String ℕ)
    → NodupKeys d
    → NodupKeys (drop_expired h now retention d)
unfolding drop_expired
drop_expired-NodupKeys h now retention [] _ = tt
drop_expired-NodupKeys h now retention ((j, a) ∷ d) (fresh, u) =
    ground (
      arith,
      drop_expired-none h now retention d j fresh,
      drop_expired-NodupKeys h now retention d u,
    )

pub length-drop_expired :
    (h : Heap) (now : ℕ) (retention : ℤ) (d : Dict String ℕ)
    → length (drop_expired h now retention d) ≤ length d
unfolding drop_expired
length-drop_expired h now retention [] = omega arith
length-drop_expired h now retention ((j, a) ∷ d) =
    ground (arith, length-drop_expired h now retention d)
