-- ===== src/Base/Lists.antt =====
-- Lists measured and indexed by native numbers, under the library's names; a list is also the heap
-- of a component whose objects are shared by pointers (an address is an index).
use mathlib.Core.Bool.{Bool, false, ◌||◌}
use windows_llmmanager.Base.Tests.{eqb}
use Prim.Native.Nat.{ℕ, zero, suc, ◌+◌, ◌<◌, min}
use mathlib.Core.Path.{◌≡◌, refl, ap}
use mathlib.Core.Logic.{◌⊎◌, inl, inr, ◌≢◌}
use mathlib.Core.List.{List, [], ◌∷◌, ◌++◌}
use mathlib.Core.Option.{Option, none, some}
use native.Mathlib.Omega.{arith}

module _ {ℓ} {A : Type ℓ} where
  abbrev pub length : List A → ℕ
  length [] = 0
  length (x ∷ xs) = suc (length xs)

  abbrev pub get_elem? : List A → ℕ → Option A
  get_elem? [] i = none
  get_elem? (x ∷ xs) zero = some x
  get_elem? (x ∷ xs) (suc i) = get_elem? xs i

  -- A write out of bounds changes nothing.
  abbrev pub set : List A → ℕ → A → List A
  set [] i v = []
  set (x ∷ xs) zero v = v ∷ xs
  set (x ∷ xs) (suc i) v = x ∷ set xs i v

  abbrev pub take : ℕ → List A → List A
  take zero xs = []
  take (suc n) [] = []
  take (suc n) (x ∷ xs) = x ∷ take n xs

  abbrev pub drop : ℕ → List A → List A
  drop zero xs = xs
  drop (suc n) [] = []
  drop (suc n) (x ∷ xs) = drop n xs

module _ {ℓ} {A : Type ℓ} where
  pub length-append : (xs ys : List A) → length (xs ++ ys) ≡ length xs + length ys
  length-append [] ys = omega arith
  length-append (x ∷ xs) ys = omega (arith, length-append xs ys)

  pub length-set : (xs : List A) (i : ℕ) (v : A) → length (set xs i v) ≡ length xs
  length-set [] i v = refl
  length-set (x ∷ xs) zero v = refl
  length-set (x ∷ xs) (suc i) v = ap suc (length-set xs i v)

  pub get_elem?-set_self :
      (xs : List A) (i : ℕ) (v w : A) → get_elem? xs i ≡ some w → get_elem? (set xs i v) i ≡ some v
  get_elem?-set_self [] i v w h = ground arith
  get_elem?-set_self (x ∷ xs) zero v w h = refl
  get_elem?-set_self (x ∷ xs) (suc i) v w h = get_elem?-set_self xs i v w h

  pub get_elem?-set_ne :
      (xs : List A) (i j : ℕ) (v : A) → i ≢ j → get_elem? (set xs i v) j ≡ get_elem? xs j
  get_elem?-set_ne [] i j v h = refl
  get_elem?-set_ne (x ∷ xs) zero zero v h = absurd (h refl)
  get_elem?-set_ne (x ∷ xs) zero (suc j) v h = refl
  get_elem?-set_ne (x ∷ xs) (suc i) zero v h = refl
  get_elem?-set_ne (x ∷ xs) (suc i) (suc j) v h = get_elem?-set_ne xs i j v (λ e. h (ap suc e))

  pub get_elem?-set-some :
      (xs : List A) (i j : ℕ) (v w : A)
      → get_elem? (set xs i v) j ≡ some w
      → ((j ≡ i) × (w ≡ v)) ⊎ ((j ≢ i) × (get_elem? xs j ≡ some w))
  get_elem?-set-some [] i j v w h = ground arith
  get_elem?-set-some (x ∷ xs) zero zero v w h = inl (refl, ground arith)
  get_elem?-set-some (x ∷ xs) zero (suc j) v w h = inr ((λ e. absurd (omega arith)), h)
  get_elem?-set-some (x ∷ xs) (suc i) zero v w h = inr ((λ e. absurd (omega arith)), h)
  get_elem?-set-some (x ∷ xs) (suc i) (suc j) v w h =
      ground (arith, get_elem?-set-some xs i j v w h)

  pub get_elem?-append-some :
      (xs : List A) (j : ℕ) (v w : A)
      → get_elem? (xs ++ v ∷ []) j ≡ some w
      → ((j ≡ length xs) × (w ≡ v)) ⊎ (get_elem? xs j ≡ some w)
  get_elem?-append-some [] zero v w h = inl (refl, ground arith)
  get_elem?-append-some [] (suc j) v w h = absurd (ground arith)
  get_elem?-append-some (x ∷ xs) zero v w h = inr h
  get_elem?-append-some (x ∷ xs) (suc j) v w h = ground (arith, get_elem?-append-some xs j v w h)

  pub get_elem?-append_old :
      (xs ys : List A) (i : ℕ) (v : A) → get_elem? xs i ≡ some v → get_elem? (xs ++ ys) i ≡ some v
  get_elem?-append_old [] ys i v h = ground arith
  get_elem?-append_old (x ∷ xs) ys zero v h = h
  get_elem?-append_old (x ∷ xs) ys (suc i) v h = get_elem?-append_old xs ys i v h

  pub get_elem?-append_new : (xs : List A) (v : A) → get_elem? (xs ++ v ∷ []) (length xs) ≡ some v
  get_elem?-append_new [] v = refl
  get_elem?-append_new (x ∷ xs) v = get_elem?-append_new xs v

  pub get_elem?-lt : (xs : List A) (i : ℕ) (v : A) → get_elem? xs i ≡ some v → i < length xs
  get_elem?-lt [] i v h = ground arith
  get_elem?-lt (x ∷ xs) zero v h = omega arith
  get_elem?-lt (x ∷ xs) (suc i) v h = omega (arith, get_elem?-lt xs i v h)

  pub length-take : (n : ℕ) (xs : List A) → length (take n xs) ≡ min n (length xs)
  length-take zero xs = omega arith
  length-take (suc n) [] = omega arith
  length-take (suc n) (x ∷ xs) = omega (arith, length-take n xs)

-- `All P xs`: a predicate by recursion, which the tactics take apart.
module _ {ℓ κ} {A : Type ℓ} (P : A → Type κ) where
  abbrev pub All : List A → Type κ
  All [] = Unit
  All (x ∷ xs) = P x × All xs

  pub All-append : (xs ys : List A) → All xs → All ys → All (xs ++ ys)
  All-append [] ys hx hy = hy
  All-append (x ∷ xs) ys (px, hx) hy = (px, All-append xs ys hx hy)

-- Whether a number is in a list.
abbrev pub is_listed : ℕ → List ℕ → Bool
is_listed b [] = false
is_listed b (a ∷ rest) = eqb b a || is_listed b rest
