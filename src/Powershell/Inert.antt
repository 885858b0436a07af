-- ===== src/Powershell/Inert.antt =====
-- internal/powershell/wrapper.go: whatever command is wrapped, the text around it is the same, the
-- command stands in it as base64 between single quotes, and the whole is one line.
use mathlib.Core.List.{append_assoc}
use windows_llmmanager.Base.{
  ℕ, ◌+◌, ◌/◌, ◌%◌, ◌≡◌, refl, String, string_eq, ◌==◌, List, [], ◌∷◌, ◌++◌, Bool, true, not, ◌&&◌,
  eqb, leb, Bool-cases, inl, inr, arith, zero, suc,
}
use windows_llmmanager.Base.Int.{ℤ, pos, negsuc}
use windows_llmmanager.Api.{Bytes, format_json}
use windows_llmmanager.Text.{codes}
use windows_llmmanager.Powershell.Frame.{begin_line, end_line}
use windows_llmmanager.Powershell.Wrapper.{
  digits_after, decimal, sprintf, join, char64, encode64, Part, chunk_emitter, cleanup_variables,
  buffer_part, command_template, command_part, parts_between, part_for_format, parts_after,
  print_parts, build_wrapper,
}

-- A printed character of ASCII, so no end of a line.
abbrev pub is_plain : ℕ → Bool
is_plain c = leb 32 c && leb c 126

unfoldable pub all_plain : Bytes → Bool
all_plain [] = true
all_plain (c ∷ s) = is_plain c && all_plain s

-- No single quote, which ends a literal of PowerShell.
unfoldable pub quote_free : Bytes → Bool
quote_free [] = true
quote_free (c ∷ s) = not (eqb c 39) && quote_free s

abbrev texts_plain : List Bytes → Bool
texts_plain [] = true
texts_plain (s ∷ ss) = all_plain s && texts_plain ss

abbrev parts_plain : List Part → Bool
parts_plain [] = true
parts_plain ((template, args) ∷ parts) =
    (all_plain template && texts_plain args) && parts_plain parts

all_plain-append : (s t : Bytes) → all_plain (s ++ t) ≡ (all_plain s && all_plain t)
unfolding all_plain
all_plain-append [] t = refl
all_plain-append (c ∷ s) t = ground (arith, all_plain-append s t)

all_plain-sprintf :
    (template : Bytes) (args : List Bytes)
    → (all_plain template && texts_plain args) ≡ true
    → all_plain (sprintf template args) ≡ true
unfolding all_plain sprintf
all_plain-sprintf [] args h = refl
all_plain-sprintf (c ∷ []) args h = ground arith
all_plain-sprintf (c ∷ d ∷ s) [] h = ground (arith, all_plain-sprintf (d ∷ s) [])
all_plain-sprintf (c ∷ d ∷ s) (a ∷ args) h = ground (
  arith,
  all_plain-append a (sprintf s args),
  all_plain-sprintf s args,
  all_plain-sprintf (d ∷ s) (a ∷ args),
)

texts_plain-print_parts :
    (parts : List Part) → parts_plain parts ≡ true → texts_plain (print_parts parts) ≡ true
unfolding print_parts
texts_plain-print_parts [] h = refl
texts_plain-print_parts ((template, args) ∷ parts) h =
    ground (arith, all_plain-sprintf template args, texts_plain-print_parts parts)

all_plain-join :
    (sep : Bytes) (texts : List Bytes)
    → all_plain sep ≡ true
    → texts_plain texts ≡ true
    → all_plain (join sep texts) ≡ true
unfolding join all_plain
all_plain-join sep [] p h = refl
all_plain-join sep (a ∷ []) p h = ground arith
all_plain-join sep (a ∷ b ∷ rest) p h = ground (
  arith,
  all_plain-append a (sep ++ join sep (b ∷ rest)),
  all_plain-append sep (join sep (b ∷ rest)),
  all_plain-join sep (b ∷ rest) p,
)

-- A character of base64: printed, and no quote.
is_inert : ℕ → Bool
is_inert c = is_plain c && not (eqb c 39)

all_inert : Bytes → Bool
all_inert [] = true
all_inert (c ∷ s) = is_inert c && all_inert s

char64-inert : (n : ℕ) → is_inert (char64 n) ≡ true
unfolding is_inert char64
char64-inert n = ground arith

pad-inert : is_inert b'=' ≡ true
unfolding is_inert
pad-inert = refl

encode64-inert : (s : Bytes) → all_inert (encode64 s) ≡ true
unfolding encode64 all_inert
encode64-inert [] = refl
encode64-inert (a ∷ []) = simp (char64-inert, pad-inert)
encode64-inert (a ∷ b ∷ []) = simp (char64-inert, pad-inert)
encode64-inert (a ∷ b ∷ c ∷ rest) = simp (char64-inert, encode64-inert rest)

plain_of_inert : (s : Bytes) → all_inert s ≡ true → (all_plain s ≡ true) × (quote_free s ≡ true)
unfolding all_inert is_inert all_plain quote_free
plain_of_inert [] h = (refl, refl)
plain_of_inert (c ∷ s) h = ground (arith, plain_of_inert s)

digits_after-plain :
    (fuel n : ℕ) (rest : Bytes)
    → all_plain rest ≡ true
    → all_plain (digits_after fuel n rest) ≡ true
unfolding digits_after all_plain
digits_after-plain zero n rest h = h
digits_after-plain (suc fuel) n rest h =
    ground (arith, digits_after-plain fuel (n / 10) ((b'0' + n % 10) ∷ rest))

decimal-plain : (n : ℤ) → all_plain (decimal n) ≡ true
unfolding decimal all_plain
decimal-plain (pos n) = digits_after-plain (suc n) n [] refl
decimal-plain (negsuc n) = digits_after-plain (suc (suc n)) (suc n) [] refl

module _ (format : String) (id : Bytes) (max_bytes : ℕ) (named : all_plain (codes format) ≡ true)
    (hex : all_plain id ≡ true) where
  between-plain : parts_plain (parts_between id) ≡ true
  unfolding parts_between all_plain
  between-plain = simp (hex, all_plain-append)

  format-plain : parts_plain (part_for_format format id ∷ []) ≡ true
  unfolding part_for_format all_plain
  format-plain = elim (Bool-cases (format == format_json)) [
    | inl e ↦ rw (e, part_for_format) (simp hex)
    | inr e ↦ rw (e, part_for_format) (simp hex)
  ]

  after-plain : parts_plain (parts_after format id max_bytes) ≡ true
  unfolding parts_after all_plain chunk_emitter cleanup_variables begin_line end_line
  after-plain = simp (hex, named, all_plain-append, decimal-plain)

parts_plain-append :
    (ps qs : List Part)
    → parts_plain ps ≡ true
    → parts_plain qs ≡ true
    → parts_plain (ps ++ qs) ≡ true
parts_plain-append [] qs p q = q
parts_plain-append ((template, args) ∷ ps) qs p q = ground (arith, parts_plain-append ps qs)

-- The wrapper is one line, whatever the command is.
build_wrapper-plain :
    (command : Bytes) (format : String) (id : Bytes) (max_bytes : ℕ)
    → all_plain (codes format) ≡ true
    → all_plain id ≡ true
    → all_plain (build_wrapper command format id max_bytes) ≡ true
unfolding build_wrapper all_plain buffer_part command_part
build_wrapper-plain command format id max_bytes named hex =
    all_plain-join (codes ";") (print_parts parts) refl (texts_plain-print_parts parts whole)
  where
    last : List Part
    last = part_for_format format id ∷ parts_after format id max_bytes

    parts : List Part
    parts = buffer_part id ∷ command_part id (encode64 command) ∷ (parts_between id ++ last)

    last-plain : parts_plain last ≡ true
    last-plain = ground (
      arith,
      format-plain format id max_bytes named hex,
      after-plain format id max_bytes named hex,
    )

    whole : parts_plain parts ≡ true
    whole =
        simp (hex, (plain_of_inert (encode64 command) (encode64-inert command)).0)
          (parts_plain-append (parts_between id) last (between-plain format id max_bytes named hex)
            last-plain)

abbrev decoding : Bytes
decoding = codes "=[Text.Encoding]::UTF8.GetString([Convert]::FromBase64String("

-- The part that holds the command.
sprintf-command_part :
    (id encoded : Bytes)
    → sprintf command_template (id ∷ encoded ∷ [])
      ≡ codes "$__wlm_cmd_" ++ (id ++ (decoding ++ (39 ∷ (encoded ++ (39 ∷ codes "))")))))
unfolding sprintf
sprintf-command_part id encoded = refl

-- What stands in front of the command's literal.
head_of : Bytes → Bytes
head_of id =
    sprintf (buffer_part id).0 (buffer_part id).1 ++ (codes ";$__wlm_cmd_" ++ (id ++ decoding))

-- What stands behind it.
tail_of : String → Bytes → ℕ → Bytes
tail_of format id max_bytes =
    codes "));"
    ++ join (codes ";") (
        print_parts
          (parts_between id ++ (part_for_format format id ∷ parts_after format id max_bytes)))

build_wrapper_split :
    (command : Bytes) (format : String) (id : Bytes) (max_bytes : ℕ)
    → build_wrapper command format id max_bytes
      ≡ head_of id ++ (39 ∷ (encode64 command ++ (39 ∷ tail_of format id max_bytes)))
unfolding build_wrapper head_of tail_of join print_parts parts_between command_part
build_wrapper_split command format id max_bytes = simp (sprintf-command_part, append_assoc)

-- Where the id and the format are printed characters of ASCII: the text around a command is the same
-- for every command, the command stands in it as a literal between single quotes that holds no such
-- quote, and the wrapper is one line.
pub build_wrapper-inert :
    (format : String) (id : Bytes) (max_bytes : ℕ)
    → all_plain (codes format) ≡ true
    → all_plain id ≡ true
    → (head : Bytes) × (tail : Bytes) × ((command : Bytes)
        → (build_wrapper command format id max_bytes
            ≡ head ++ (39 ∷ (encode64 command ++ (39 ∷ tail))))
          × (quote_free (encode64 command) ≡ true)
          × (all_plain (build_wrapper command format id max_bytes) ≡ true))
build_wrapper-inert format id max_bytes named hex = (
  head_of id,
  tail_of format id max_bytes,
  λ command. (
    build_wrapper_split command format id max_bytes,
    (plain_of_inert (encode64 command) (encode64-inert command)).1,
    build_wrapper-plain command format id max_bytes named hex,
  ),
)
