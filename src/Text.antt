-- ===== src/Text.antt =====
-- The functions of Go's packages `strings`, `bytes` and `crypto/subtle` that the program calls, on the
-- bytes of a text. White space is that of ASCII: a byte from 128 on is none.
use Prim.Native.Char.{code}
use windows_llmmanager.Base.{
  ℕ, ◌≡◌, ◌↔◌, inl, inr, refl, ap, String, string_eq, List, [], ◌∷◌, ◌++◌, Bool, true, false, ◌&&◌,
  ◌||◌, Option, none, some, eqb, leb, if◌then◌else◌, Bool-cases, arith,
}
use windows_llmmanager.Api.{Bytes}

-- The code points of a literal, which are its bytes, since it is ASCII.
abbrev pub codes : String → Bytes
codes String.[] = []
codes (String.◌∷◌ c s) = code c ∷ codes s

abbrev pub is_space : ℕ → Bool
is_space c = eqb c 32 || (leb 9 c && leb c 13)

unfoldable pub trim_left : Bytes → Bytes
trim_left [] = []
trim_left (c ∷ s) = if is_space c then trim_left s else c ∷ s

abbrev pub cons_unless_blank : ℕ → Bytes → Bytes
cons_unless_blank c [] = if is_space c then [] else c ∷ []
cons_unless_blank c (d ∷ s) = c ∷ d ∷ s

unfoldable pub trim_right : Bytes → Bytes
trim_right [] = []
trim_right (c ∷ s) = cons_unless_blank c (trim_right s)

unfoldable pub trim_space : Bytes → Bytes
unfolding trim_left trim_right
trim_space s = trim_right (trim_left s)

-- `strings.CutPrefix`: `HasPrefix` and `TrimPrefix` in one.
unfoldable pub cut_prefix : Bytes → Bytes → Option Bytes
cut_prefix [] s = some s
cut_prefix (p ∷ ps) [] = none
cut_prefix (p ∷ ps) (c ∷ s) = if eqb p c then cut_prefix ps s else none

unfoldable pub trim_prefix : Bytes → Bytes → Bytes
unfolding cut_prefix
trim_prefix p s = elim (cut_prefix p s) [ none ↦ s | some rest ↦ rest ]

unfoldable pub bytes_equal : Bytes → Bytes → Bool
bytes_equal [] [] = true
bytes_equal (a ∷ s) (b ∷ t) = eqb a b && bytes_equal s t
bytes_equal _ _ = false

-- `strings.Split` at a separator of one byte.
unfoldable pub cut_at : ℕ → Bytes → Bytes × List Bytes
cut_at sep [] = ([], [])
cut_at sep (c ∷ s) =
    let (first, others) = cut_at sep s in
    if eqb c sep then ([], first ∷ others) else (c ∷ first, others)

unfoldable pub split : ℕ → Bytes → List Bytes
unfolding cut_at
split sep s = let (first, others) = cut_at sep s in first ∷ others

-- The text before the first byte `sep`, as `s[:index]` behind `strings.IndexByte`.
unfoldable pub before : ℕ → Bytes → Bytes
before sep [] = []
before sep (c ∷ s) = if eqb c sep then [] else c ∷ before sep s

pub bytes_equal_iff : (s t : Bytes) → (bytes_equal s t ≡ true) ↔ (s ≡ t)
unfolding bytes_equal
bytes_equal_iff [] [] = (λ _. refl, λ _. refl)
bytes_equal_iff [] (b ∷ t) = (λ e. absurd (cc), λ e. absurd (cc))
bytes_equal_iff (a ∷ s) [] = (λ e. absurd (cc), λ e. absurd (cc))
bytes_equal_iff (a ∷ s) (b ∷ t) = ground (arith, bytes_equal_iff s t)

pub cut_prefix_iff : (p s rest : Bytes) → (cut_prefix p s ≡ some rest) ↔ (s ≡ p ++ rest)
unfolding cut_prefix
cut_prefix_iff [] s rest = (λ e. ground arith, λ e. ground arith)
cut_prefix_iff (a ∷ p) [] rest = (λ e. absurd (cc), λ e. absurd (cc))
cut_prefix_iff (a ∷ p) (c ∷ s) rest = ground (arith, cut_prefix_iff p s rest)

trim_right-cons :
    (c : ℕ) (t : Bytes)
    → trim_right t ≡ t
    → trim_right (cons_unless_blank c t) ≡ cons_unless_blank c t
unfolding trim_right
trim_right-cons c [] e = ground arith
trim_right-cons c (d ∷ s) e = rw (e, cons_unless_blank) refl

trim_right_idem : (s : Bytes) → trim_right (trim_right s) ≡ trim_right s
unfolding trim_right
trim_right_idem [] = refl
trim_right_idem (c ∷ s) = trim_right-cons c (trim_right s) (trim_right_idem s)

trim_left-cons :
    (c : ℕ) (t : Bytes)
    → is_space c ≡ false
    → trim_left (cons_unless_blank c t) ≡ cons_unless_blank c t
unfolding trim_left
trim_left-cons c [] e = ground arith
trim_left-cons c (d ∷ s) e = ground arith

trim_left-trim_right : (s : Bytes) → trim_left (trim_right (trim_left s)) ≡ trim_right (trim_left s)
unfolding trim_left trim_right
trim_left-trim_right [] = refl
trim_left-trim_right (c ∷ s) = elim (Bool-cases (is_space c)) [
  | inl e ↦ rw e (trim_left-trim_right s)
  | inr e ↦ rw e (trim_left-cons c (trim_right s) e)
]

pub trim_space_idem : (s : Bytes) → trim_space (trim_space s) ≡ trim_space s
unfolding trim_space
trim_space_idem s = rw (trim_left-trim_right s) (trim_right_idem (trim_left s))

-- `strings.TrimSuffix(s, "\r")`
unfoldable pub trim_cr : Bytes → Bytes
trim_cr [] = []
trim_cr (c ∷ []) = if eqb c 13 then [] else c ∷ []
trim_cr (c ∷ d ∷ s) = c ∷ trim_cr (d ∷ s)

pub trim_cr-append : (s : Bytes) → trim_cr (s ++ 13 ∷ []) ≡ s
unfolding trim_cr
trim_cr-append [] = refl
trim_cr-append (c ∷ []) = refl
trim_cr-append (c ∷ d ∷ s) = ap (◌∷◌ c) (trim_cr-append (d ∷ s))
