-- ===== src/Powershell/Lines.antt =====
-- internal/powershell/runner.go: `splitLines` gives back the lines that a child process prints, with
-- either of the ends of a line.
use mathlib.Core.List.{append_assoc}
use windows_llmmanager.Base.{
  ℕ, ◌≡◌, ◌≢◌, refl, ap, ◌∙◌, List, [], ◌∷◌, ◌++◌, Bool, true, false, not, ◌&&◌, ◌||◌, eqb, arith,
  All,
}
use windows_llmmanager.Api.{Bytes}
use windows_llmmanager.Text.{cut_at, split}
use windows_llmmanager.Powershell.Results.{
  replace_crlf, trim_newline, split_unless_empty, split_lines,
}

-- Neither of the bytes of an end of a line.
abbrev pub is_clean : Bytes → Bool
is_clean [] = true
is_clean (c ∷ s) = not (eqb c 10 || eqb c 13) && is_clean s

abbrev pub Clean : Bytes → Type 0
Clean s = is_clean s ≡ true

-- The lines, each with its end.
abbrev pub ended : Bytes → List Bytes → Bytes
ended eol [] = []
ended eol (line ∷ lines) = line ++ (eol ++ ended eol lines)

abbrev pub lf : Bytes
lf = 10 ∷ []

abbrev pub crlf : Bytes
crlf = 13 ∷ 10 ∷ []

replace_crlf-cons :
    (c : ℕ) (s : Bytes) → eqb c 13 ≡ false → replace_crlf (c ∷ s) ≡ c ∷ replace_crlf s
unfolding replace_crlf
replace_crlf-cons c [] e = refl
replace_crlf-cons c (d ∷ s) e = ground arith

replace_crlf-append :
    (line s : Bytes) → Clean line → replace_crlf (line ++ s) ≡ line ++ replace_crlf s
replace_crlf-append [] s h = refl
replace_crlf-append (c ∷ line) s h =
    ground (arith, replace_crlf-cons c (line ++ s), replace_crlf-append line s)

-- Both ends of a line come to the one.
replace_crlf-ended :
    (lines : List Bytes)
    → All Clean lines
    → (replace_crlf (ended crlf lines) ≡ ended lf lines)
      × (replace_crlf (ended lf lines) ≡ ended lf lines)
unfolding replace_crlf
replace_crlf-ended [] h = (refl, refl)
replace_crlf-ended (line ∷ lines) (h, r) = ground (
  arith,
  replace_crlf-append line (crlf ++ ended crlf lines) h,
  replace_crlf-append line (lf ++ ended lf lines) h,
  replace_crlf-cons 10 (ended lf lines),
  replace_crlf-ended lines r,
)

trim_newline-append : (s : Bytes) → trim_newline (s ++ lf) ≡ s
unfolding trim_newline
trim_newline-append [] = refl
trim_newline-append (c ∷ []) = refl
trim_newline-append (c ∷ d ∷ s) = ap (◌∷◌ c) (trim_newline-append (d ∷ s))

-- The lines with an end between each two.
abbrev joined : Bytes → List Bytes → Bytes
joined line [] = line
joined line (next ∷ lines) = line ++ (10 ∷ joined next lines)

ended-joined :
    (line : Bytes) (lines : List Bytes) → ended lf (line ∷ lines) ≡ joined line lines ++ lf
ended-joined line [] = refl
ended-joined line (next ∷ lines) = simp (ended-joined next lines, append_assoc)

cut_at-append :
    (line s : Bytes)
    → Clean line
    → cut_at 10 (line ++ 10 ∷ s) ≡ (line, (cut_at 10 s).0 ∷ (cut_at 10 s).1)
unfolding cut_at
cut_at-append [] s h = refl
cut_at-append (c ∷ line) s h = ground (arith, cut_at-append line s)

cut_at-Clean : (line : Bytes) → Clean line → cut_at 10 line ≡ (line, [])
unfolding cut_at
cut_at-Clean [] h = refl
cut_at-Clean (c ∷ line) h = ground (arith, cut_at-Clean line)

split-joined :
    (line : Bytes) (lines : List Bytes)
    → Clean line
    → All Clean lines
    → split 10 (joined line lines) ≡ line ∷ lines
unfolding split
split-joined line [] h r = ground (arith, cut_at-Clean line)
split-joined line (next ∷ lines) h (n, r) =
    ground (arith, cut_at-append line (joined next lines), split-joined next lines n r)

split_unless_empty-joined :
    (line : Bytes) (lines : List Bytes)
    → line ∷ lines ≢ [] ∷ []
    → split_unless_empty (joined line lines) ≡ split 10 (joined line lines)
split_unless_empty-joined [] [] ne = absurd (ne refl)
split_unless_empty-joined [] (_ ∷ _) ne = refl
split_unless_empty-joined (_ ∷ _) [] ne = refl
split_unless_empty-joined (_ ∷ _) (_ ∷ _) ne = refl

split_lines-replaced :
    (s : Bytes) (lines : List Bytes)
    → All Clean lines
    → lines ≢ [] ∷ []
    → replace_crlf s ≡ ended lf lines
    → split_lines s ≡ lines
unfolding split_lines
split_lines-replaced s [] h ne e = rw (e, split_lines) (unfold trim_newline in refl)
split_lines-replaced s (line ∷ lines) (h, r) ne e =
    rw (e, split_lines)
      (rw (ended-joined line lines) (
        rw (trim_newline-append (joined line lines))
          (split_unless_empty-joined line lines ne ∙ split-joined line lines h r)))

-- `splitLines` gives back the lines of a text in which each line ends in a line feed, or each in a
-- carriage return and a line feed, where no line holds one of these; only the text of a single empty
-- line, which it takes for none, is left out.
pub split_lines-ended :
    (lines : List Bytes)
    → All Clean lines
    → lines ≢ [] ∷ []
    → (split_lines (ended crlf lines) ≡ lines) × (split_lines (ended lf lines) ≡ lines)
split_lines-ended lines h ne = (
  split_lines-replaced (ended crlf lines) lines h ne (replace_crlf-ended lines h).0,
  split_lines-replaced (ended lf lines) lines h ne (replace_crlf-ended lines h).1,
)
