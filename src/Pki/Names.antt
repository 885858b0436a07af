-- ===== src/Pki/Names.antt =====
-- cmd/pki/main.go: `splitCSV` and `uniqueStrings`, which prepare the names of a certificate. The map
-- `seen` is a list of its keys.
use windows_llmmanager.Base.{
  ◌≡◌, List, [], ◌∷◌, Bool, true, false, not, ◌&&◌, ◌||◌, if◌then◌else◌, arith, map, ◌∙◌,
}
use windows_llmmanager.Api.{Bytes}
use windows_llmmanager.Text.{trim_space, split, bytes_equal, bytes_equal_iff}

abbrev pub is_blank : Bytes → Bool
is_blank [] = true
is_blank (_ ∷ _) = false

-- The items of a list, trimmed, that are not empty.
unfoldable pub trimmed_items : List Bytes → List Bytes
trimmed_items [] = []
trimmed_items (item ∷ items) =
    let rest = trimmed_items items in
    if is_blank (trim_space item) then rest else trim_space item ∷ rest

-- `splitCSV`
unfoldable pub split_csv : Bytes → List Bytes
unfolding trimmed_items split
split_csv value = trimmed_items (split b',' value)

unfoldable pub contains : List Bytes → Bytes → Bool
contains [] s = false
contains (t ∷ ts) s = bytes_equal s t || contains ts s

-- The loop of `uniqueStrings`.
unfoldable pub unique_after : List Bytes → List Bytes → List Bytes
unfolding contains
unique_after seen [] = []
unique_after seen (value ∷ values) =
    let v = trim_space value in
    let skipped = unique_after seen values in
    let taken = unique_after (v ∷ seen) values in
    if not (is_blank v) && not (contains seen v) then v ∷ taken else skipped

unfoldable pub unique_strings : List Bytes → List Bytes
unfolding unique_after
unique_strings values = unique_after [] values

-- No text stands twice.
abbrev pub NoRepeats : List Bytes → Type 0
NoRepeats [] = Unit
NoRepeats (v ∷ vs) = (contains vs v ≡ false) × NoRepeats vs

contains-unique_after :
    (seen values : List Bytes) (s : Bytes)
    → contains (unique_after seen values) s
      ≡ (not (is_blank s) && not (contains seen s) && contains (map trim_space values) s)
unfolding unique_after contains
contains-unique_after seen [] s = ground arith
contains-unique_after seen (value ∷ values) s =
    let v = trim_space value in
    ground (
      arith,
      contains-unique_after seen values s,
      contains-unique_after (v ∷ seen) values s,
      bytes_equal_iff s v,
    )

unique_after-NoRepeats : (seen values : List Bytes) → NoRepeats (unique_after seen values)
unfolding unique_after contains
unique_after-NoRepeats seen [] = tt
unique_after-NoRepeats seen (value ∷ values) =
    let v = trim_space value in
    ground (
      arith,
      unique_after-NoRepeats seen values,
      unique_after-NoRepeats (v ∷ seen) values,
      contains-unique_after (v ∷ seen) values v,
      bytes_equal_iff v v,
    )

-- `uniqueStrings` returns no text twice, and returns exactly the texts that are not empty and stand,
-- trimmed, among its arguments.
pub unique_strings_lem :
    (values : List Bytes)
    → NoRepeats (unique_strings values)
      × ((s : Bytes)
          → contains (unique_strings values) s
            ≡ (not (is_blank s) && contains (map trim_space values) s))
unfolding unique_strings
unique_strings_lem values = (
  unique_after-NoRepeats [] values,
  λ s. unfold contains in (contains-unique_after [] values s ∙ ground arith),
)
