-- ===== src/Updater/EqualBytes.antt =====
-- internal/updater/verify.go: the comparison of digests by exclusive or.
use windows_llmmanager.Base.{
  ℕ, zero, suc, ◌+◌, ◌*◌, ◌<◌, ◌≡◌, ◌↔◌, inl, inr, refl, ap, subst, string_eq, [], ◌∷◌, Bool, true,
  false, not, length, eqb, if◌then◌else◌, Bool-cases, arith, All, ◌/◌, ◌%◌,
}
use windows_llmmanager.Api.{Bytes}

-- `a ^ b` and `a | b` on the low `w` bits.
unfoldable pub xor_bits : ℕ → ℕ → ℕ → ℕ
xor_bits zero a b = 0
xor_bits (suc w) a b = (a + b) % 2 + 2 * xor_bits w (a / 2) (b / 2)

unfoldable pub or_bits : ℕ → ℕ → ℕ → ℕ
or_bits zero a b = 0
or_bits (suc w) a b = (if eqb (a % 2 + b % 2) 0 then 0 else 1) + 2 * or_bits w (a / 2) (b / 2)

-- The loop `for i := range a`, where `b` is as long as `a`.
unfoldable pub fold_diff : Bytes → Bytes → ℕ → ℕ
unfolding xor_bits or_bits
fold_diff [] b diff = diff
fold_diff (x ∷ a) [] diff = diff
fold_diff (x ∷ a) (y ∷ b) diff = fold_diff a b (or_bits 8 diff (xor_bits 8 x y))

unfoldable pub equal_bytes : Bytes → Bytes → Bool
unfolding fold_diff
equal_bytes a b = if not (eqb (length a) (length b)) then false else eqb (fold_diff a b 0) 0

abbrev pub IsByte : ℕ → Type 0
IsByte x = x < 256

-- `x` has no bit from `w` on.
Fits : ℕ → ℕ → Type 0
Fits zero x = x ≡ 0
Fits (suc w) x = Fits w (x / 2)

IsByte-Fits : (x : ℕ) → IsByte x → Fits 8 x
unfolding Fits
IsByte-Fits x h = omega arith

xor_bits-zero : (w a b : ℕ) → Fits w a → Fits w b → (xor_bits w a b ≡ 0) ↔ (a ≡ b)
unfolding xor_bits Fits
xor_bits-zero zero a b f g = ground arith
xor_bits-zero (suc w) a b f g = ground (arith, xor_bits-zero w (a / 2) (b / 2) f g)

xor_bits-Fits : (w a b : ℕ) → Fits w (xor_bits w a b)
unfolding xor_bits Fits
xor_bits-Fits zero a b = refl
xor_bits-Fits (suc w) a b = subst (Fits w) (omega arith) (xor_bits-Fits w (a / 2) (b / 2))

or_bits-zero : (w a b : ℕ) → Fits w a → Fits w b → (or_bits w a b ≡ 0) ↔ ((a ≡ 0) × (b ≡ 0))
unfolding or_bits Fits
or_bits-zero zero a b f g = ground arith
or_bits-zero (suc w) a b f g = ground (arith, or_bits-zero w (a / 2) (b / 2) f g)

or_bits-Fits : (w a b : ℕ) → Fits w (or_bits w a b)
unfolding or_bits Fits
or_bits-Fits zero a b = refl
or_bits-Fits (suc w) a b = subst (Fits w) (ground arith) (or_bits-Fits w (a / 2) (b / 2))

fold_diff-step :
    (x y : ℕ) (a b : Bytes) (diff : ℕ)
    → (or_bits 8 diff (xor_bits 8 x y) ≡ 0) ↔ ((diff ≡ 0) × (xor_bits 8 x y ≡ 0))
    → (xor_bits 8 x y ≡ 0) ↔ (x ≡ y)
    → (fold_diff a b (or_bits 8 diff (xor_bits 8 x y)) ≡ 0)
      ↔ ((or_bits 8 diff (xor_bits 8 x y) ≡ 0) × (a ≡ b))
    → (fold_diff (x ∷ a) (y ∷ b) diff ≡ 0) ↔ ((diff ≡ 0) × (x ∷ a ≡ y ∷ b))
unfolding fold_diff
fold_diff-step x y a b diff zero_or zero_xor ih = iff_of (xor_bits 8 x y) zero_or zero_xor ih
  where
    iff_of :
        (z : ℕ) {o r : ℕ}
        → (o ≡ 0) ↔ ((diff ≡ 0) × (z ≡ 0))
        → (z ≡ 0) ↔ (x ≡ y)
        → (r ≡ 0) ↔ ((o ≡ 0) × (a ≡ b))
        → (r ≡ 0) ↔ ((diff ≡ 0) × (x ∷ a ≡ y ∷ b))
    iff_of z i j k = ground arith

fold_diff-zero :
    (a b : Bytes) (diff : ℕ)
    → All IsByte a
    → All IsByte b
    → length a ≡ length b
    → Fits 8 diff
    → (fold_diff a b diff ≡ 0) ↔ ((diff ≡ 0) × (a ≡ b))
unfolding fold_diff
fold_diff-zero [] [] diff _ _ _ _ = ground arith
fold_diff-zero [] (y ∷ b) diff _ _ e _ = absurd (omega arith)
fold_diff-zero (x ∷ a) [] diff _ _ e _ = absurd (omega arith)
fold_diff-zero (x ∷ a) (y ∷ b) diff (p, ps) (q, qs) e f =
    fold_diff-step x y a b diff (or_bits-zero 8 diff (xor_bits 8 x y) f (xor_bits-Fits 8 x y))
      (xor_bits-zero 8 x y (IsByte-Fits x p) (IsByte-Fits y q))
      (fold_diff-zero a b (or_bits 8 diff (xor_bits 8 x y)) ps qs (omega arith)
        (or_bits-Fits 8 diff (xor_bits 8 x y)))

-- On bytes, the comparison by exclusive or accepts exactly equal slices.
pub equal_bytes_iff :
    (a b : Bytes) → All IsByte a → All IsByte b → (equal_bytes a b ≡ true) ↔ (a ≡ b)
unfolding equal_bytes
equal_bytes_iff a b p q = elim (Bool-cases (eqb (length a) (length b))) [
  | inl e ↦
      rw e (ground (arith, fold_diff-zero a b 0 p q (ground arith) (IsByte-Fits 0 (omega arith))))
  | inr e ↦ rw e (
    λ t. absurd (cc),
    λ a_b. absurd (let same : length a ≡ length b = ap length a_b in ground arith),
  )
]
