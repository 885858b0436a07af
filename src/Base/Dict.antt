-- ===== src/Base/Dict.antt =====
-- Go's maps as association lists: the order of the list is the order in which a `range` loop meets
-- the entries. Proofs elsewhere go by the laws; only tests unfold the operations.
use windows_llmmanager.Base.{
  ◌+◌, ◌≤◌, ◌<◌, ◌≡◌, refl, sym, subst, ◌≢◌, Option, none, some, List, [], ◌∷◌, arith, Eq, ◌==◌,
  length, if◌then◌else◌,
}

abbrev pub Dict {ℓ κ} : Type ℓ → Type κ → Type (ℓ ⊔ κ)
Dict K V = List (K × V)

module _ {ℓ κ} {K : Type ℓ} {V : Type κ} ⦃e : Eq K⦄ where
  -- `v, ok := m[k]`
  unfoldable pub lookup : K → Dict K V → Option V
  lookup k [] = none
  lookup k ((j, v) ∷ d) = if k == j then some v else lookup k d

  -- `m[k] = v`
  unfoldable pub insert : K → V → Dict K V → Dict K V
  insert k v [] = (k, v) ∷ []
  insert k v ((j, w) ∷ d) = if k == j then (k, v) ∷ d else (j, w) ∷ insert k v d

  -- `delete(m, k)`
  unfoldable pub erase : K → Dict K V → Dict K V
  erase k [] = []
  erase k ((j, w) ∷ d) = let rest = erase k d in if k == j then rest else (j, w) ∷ rest

  abbrev pub NodupKeys : Dict K V → Type κ
  NodupKeys [] = Unit
  NodupKeys ((k, _) ∷ d) = (lookup k d ≡ none) × NodupKeys d

  pub lookup-nil : (k : K) → lookup k [] ≡ none
  unfolding lookup
  lookup-nil k = refl

  pub lookup-cons :
      (j k : K) (v : V) (d : Dict K V)
      → lookup j ((k, v) ∷ d) ≡ (if j == k then some v else lookup j d)
  unfolding lookup
  lookup-cons j k v d = refl

  pub lookup-insert :
      (j k : K) (v : V) (d : Dict K V)
      → lookup j (insert k v d) ≡ (if j == k then some v else lookup j d)
  unfolding insert lookup
  lookup-insert j k v [] = refl
  lookup-insert j k v (_ ∷ d) = ground (arith, lookup-insert j k v d)

  pub lookup-insert-ne :
      (j k : K) (v : V) (d : Dict K V) → j ≢ k → lookup j (insert k v d) ≡ lookup j d
  lookup-insert-ne j k v d ne = ground (arith, lookup-insert j k v d)

  pub lookup-erase :
      (j k : K) (d : Dict K V) → lookup j (erase k d) ≡ (if j == k then none else lookup j d)
  unfolding erase lookup
  lookup-erase j k [] = ground arith
  lookup-erase j k (_ ∷ d) = ground (arith, lookup-erase j k d)

  pub lookup-erase-ne : (j k : K) (d : Dict K V) → j ≢ k → lookup j (erase k d) ≡ lookup j d
  lookup-erase-ne j k d ne = ground (arith, lookup-erase j k d)

  pub lookup-insert_self : (k : K) (v : V) (d : Dict K V) → lookup k (insert k v d) ≡ some v
  lookup-insert_self k v d = ground (arith, lookup-insert k k v d)

  pub insert-NodupKeys : (k : K) (v : V) (d : Dict K V) → NodupKeys d → NodupKeys (insert k v d)
  unfolding insert
  insert-NodupKeys k v [] _ = (lookup-nil k, tt)
  insert-NodupKeys k v ((j, _) ∷ d) (fresh, u) =
      ground (arith, insert-NodupKeys k v d u, lookup-insert j k v d)

  pub erase-NodupKeys : (k : K) (d : Dict K V) → NodupKeys d → NodupKeys (erase k d)
  unfolding erase
  erase-NodupKeys k [] _ = tt
  erase-NodupKeys k ((j, _) ∷ d) (fresh, u) =
      ground (arith, erase-NodupKeys k d u, lookup-erase j k d)

  pub length-insert : (k : K) (v : V) (d : Dict K V) → length (insert k v d) ≤ length d + 1
  unfolding insert
  length-insert k v [] = omega arith
  length-insert k v (_ ∷ d) = ground (arith, length-insert k v d)

  pub length-erase-le : (k : K) (d : Dict K V) → length (erase k d) ≤ length d
  unfolding erase
  length-erase-le k [] = omega arith
  length-erase-le k (_ ∷ d) = ground (arith, length-erase-le k d)

  pub length-erase-lt : (k : K) (d : Dict K V) → lookup k d ≢ none → length (erase k d) < length d
  unfolding erase lookup
  length-erase-lt k [] h = absurd (h refl)
  length-erase-lt k (_ ∷ d) h = ground (arith, length-erase-lt k d, length-erase-le k d)

-- A predicate of every entry.
abbrev pub AllEntries {ℓ κ μ} : {K : Type ℓ} {V : Type κ} → (K → V → Type μ) → Dict K V → Type μ
AllEntries P [] = Unit
AllEntries P ((k, v) ∷ d) = P k v × AllEntries P d

module _ {ℓ κ μ} {K : Type ℓ} {V : Type κ} (P : K → V → Type μ) where
  pub AllEntries-mono {ν} :
      (Q : K → V → Type ν) (d : Dict K V)
      → ((k : K) (v : V) → P k v → Q k v)
      → AllEntries P d
      → AllEntries Q d
  AllEntries-mono Q [] f _ = tt
  AllEntries-mono Q ((k, v) ∷ d) f (h, r) = (f k v h, AllEntries-mono Q d f r)

module _ {ℓ κ μ} {K : Type ℓ} {V : Type κ} ⦃e : Eq K⦄ (P : K → V → Type μ) where
  pub AllEntries-insert :
      (k : K) (v : V) (d : Dict K V) → P k v → AllEntries P d → AllEntries P (insert k v d)
  unfolding insert
  AllEntries-insert k v [] h _ = (h, tt)
  AllEntries-insert k v ((j, w) ∷ d) h (p, r) = ground (arith, AllEntries-insert k v d h r)

  pub AllEntries-erase : (k : K) (d : Dict K V) → AllEntries P d → AllEntries P (erase k d)
  unfolding erase
  AllEntries-erase k [] _ = tt
  AllEntries-erase k ((j, w) ∷ d) (p, r) = ground (arith, AllEntries-erase k d r)

  pub AllEntries-lookup :
      (k : K) (d : Dict K V) (v : V) → AllEntries P d → lookup k d ≡ some v → P k v
  unfolding lookup
  AllEntries-lookup k [] v _ h = cc
  AllEntries-lookup k ((j, w) ∷ d) v (p, r) h = elim (e.dec k j) [
    | yes same ↦ subst (λ x. P x v) (sym same) (subst (P j) (ground arith) p)
    | no differ ↦ AllEntries-lookup k d v r (ground arith)
  ]
