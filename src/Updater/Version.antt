-- ===== src/Updater/Version.antt =====
-- internal/updater/version.go: release tags and their order.
use windows_llmmanager.Base.Int.{ℤ, pos, negsuc}
use windows_llmmanager.Base.Outcome.{Outcome, ok, err, ◌>>=◌}
use windows_llmmanager.Api.{Bytes}
use windows_llmmanager.Text.{trim_space, trim_prefix, before, split, codes}
use windows_llmmanager.Base.{
  ℕ, zero, suc, ◌+◌, ◌-◌, ◌*◌, string_eq, List, [], ◌∷◌, Bool, true, false, not, ◌&&◌, Option, none,
  some, eqb, leb, ltb, if◌then◌else◌,
}

pub record Version : Type 0 where
  pub major : ℕ
  pub minor : ℕ
  pub patch : ℕ

pub data VersionError : Type 0 where
  not_three_parts not_numeric bad_current bad_release : VersionError

-- `strconv.Atoi`, where an `int` has 64 bits: a sign, then one or more decimal digits.
unfoldable pub digits_value : Bytes → ℕ → Option ℕ
digits_value [] n = some n
digits_value (c ∷ s) n =
    let rest = digits_value s (n * 10 + (c - 48)) in if leb 48 c && leb c 57 then rest else none

unfoldable pub unsigned_value : Bytes → Option ℕ
unfolding digits_value
unsigned_value [] = none
unsigned_value (c ∷ s) = digits_value (c ∷ s) 0

abbrev pub max_int : ℕ
max_int = 9223372036854775807

unfoldable pub signed_value : Bool → Option ℕ → Option ℤ
signed_value minus none = none
signed_value false (some n) = if leb n max_int then some (pos n) else none
signed_value true (some zero) = some (pos 0)
signed_value true (some (suc n)) = if leb n max_int then some (negsuc n) else none

unfoldable pub atoi : Bytes → Option ℤ
unfolding unsigned_value signed_value
atoi [] = none
atoi (c ∷ s) =
    if eqb c 45
    then signed_value true (unsigned_value s)
    else if eqb c 43
    then signed_value false (unsigned_value s)
    else signed_value false (unsigned_value (c ∷ s))

-- One round of the loop over the parts.
unfoldable pub component : Bytes → Outcome VersionError ℕ
unfolding atoi
component part = elim (atoi part) [
  | none ↦ err not_numeric
  | some n ↦ elim n [ pos k ↦ ok k | negsuc k ↦ err not_numeric ]
]

unfoldable pub from_parts : List Bytes → Outcome VersionError Version
unfolding component
from_parts (a ∷ b ∷ c ∷ []) = do
  major ← component a
  minor ← component b
  patch ← component c
  ok (record { major = major; minor = minor; patch = patch })
from_parts _ = err not_three_parts

unfoldable pub parse_version : Bytes → Outcome VersionError Version
unfolding from_parts trim_space trim_prefix before split
parse_version value = from_parts (split 46 (before 45 (trim_prefix (codes "v") (trim_space value))))

-- The loop of `newerVersion` over the three components.
unfoldable pub newer_components : Version → Version → Bool
newer_components c n =
    if not (eqb n.major c.major)
    then ltb c.major n.major
    else if not (eqb n.minor c.minor)
    then ltb c.minor n.minor
    else if not (eqb n.patch c.patch)
    then ltb c.patch n.patch
    else false

abbrev pub as_error {ℓ} :
    {A : Type ℓ} → VersionError → Outcome VersionError A → Outcome VersionError A
as_error e (ok a) = ok a
as_error e (err _) = err e

unfoldable pub newer_version : Bytes → Bytes → Outcome VersionError Bool
unfolding parse_version newer_components
newer_version current candidate = do
  c ← as_error bad_current (parse_version current)
  n ← as_error bad_release (parse_version candidate)
  ok (newer_components c n)

unfoldable pub versions_equal : Bytes → Bytes → Bool
unfolding parse_version
versions_equal a b = elim (parse_version a) [
  | err _ ↦ false
  | ok v ↦ elim (parse_version b) [
    | err _ ↦ false
    | ok w ↦ eqb v.major w.major && eqb v.minor w.minor && eqb v.patch w.patch
  ]
]
