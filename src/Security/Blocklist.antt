-- ===== src/Security/Blocklist.antt =====
-- internal/security/blocklist.go. Every method holds the mutex for its whole body. Attempts are
-- counted without a bound.
use windows_llmmanager.Base.{
  ℕ, ◌+◌, String, string_eq, [], Bool, true, false, Option, none, some, leb, if◌then◌else◌, List,
  ◌∷◌, ltb, eqb, ◌||◌, ◌&&◌,
}
use windows_llmmanager.Api.{Bytes}
use windows_llmmanager.Text.{codes}
use windows_llmmanager.Base.Dict.{Dict, lookup, insert, erase}

pub record BlockEntry : Type 0 where
  pub ip : String
  pub blocked_at : ℕ
  pub failed_attempts : ℕ

pub record Blocklist : Type 0 where
  pub threshold : ℕ
  pub failures : Dict String ℕ
  pub blocked : Dict String BlockEntry

unfoldable pub new_blocklist : ℕ → Blocklist
new_blocklist threshold = record { threshold = threshold; failures = []; blocked = [] }

abbrev pub is_some {ℓ} : {A : Type ℓ} → Option A → Bool
is_some none = false
is_some (some _) = true

-- A missing key of a `map[string]int` reads as 0.
abbrev pub or_zero : Option ℕ → ℕ
or_zero none = 0
or_zero (some n) = n

unfoldable pub is_blocked : Blocklist → String → Bool
is_blocked b ip = is_some (lookup ip b.blocked)

unfoldable pub count_failure : String → ℕ → Blocklist → Blocklist × ℕ × Bool
count_failure ip now b =
    let count = or_zero (lookup ip b.failures) + 1 in
    let failures = insert ip count b.failures in
    if leb b.threshold count
    then (
      record b {
        failures = erase ip failures;
        blocked =
            insert ip (record { ip = ip; blocked_at = now; failed_attempts = count }) b.blocked;
      },
      count,
      true,
    )
    else (record b { failures = failures }, count, false)

unfoldable pub record_failure : String → ℕ → Blocklist → Blocklist × ℕ × Bool
unfolding count_failure
record_failure ip now b = elim (lookup ip b.blocked) [
  | some entry ↦ (b, entry.failed_attempts, true)
  | none ↦ count_failure ip now b
]

unfoldable pub record_success : String → Blocklist → Blocklist
record_success ip b = record b { failures = erase ip b.failures }

unfoldable pub remove : String → Blocklist → Blocklist × Bool
remove ip b = (
  record b { blocked = erase ip b.blocked; failures = erase ip b.failures },
  is_some (lookup ip b.blocked),
)

-- Go's `<` on texts, by their bytes.
unfoldable pub lt_text : Bytes → Bytes → Bool
lt_text [] [] = false
lt_text [] (_ ∷ _) = true
lt_text (_ ∷ _) [] = false
lt_text (c ∷ s) (d ∷ t) = ltb c d || (eqb c d && lt_text s t)

abbrev pub entry_lt : BlockEntry → BlockEntry → Bool
entry_lt a b = lt_text (codes a.ip) (codes b.ip)

-- An entry in its place among those that are sorted.
unfoldable pub insert_entry : BlockEntry → List BlockEntry → List BlockEntry
unfolding lt_text
insert_entry a [] = a ∷ []
insert_entry a (b ∷ entries) =
    let rest = insert_entry a entries in if entry_lt a b then a ∷ b ∷ entries else b ∷ rest

-- The entries of the map by `sort.Slice`: their addresses differ, so the order is determined.
unfoldable pub sorted_entries : Dict String BlockEntry → List BlockEntry
unfolding insert_entry
sorted_entries [] = []
sorted_entries ((_, entry) ∷ d) = insert_entry entry (sorted_entries d)

-- `List`
unfoldable pub list : Blocklist → List BlockEntry
unfolding sorted_entries
list b = sorted_entries b.blocked
