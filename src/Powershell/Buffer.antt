-- ===== src/Powershell/Buffer.antt =====
-- internal/powershell/buffer.go: the buffer that keeps the first `max` bytes of what a child writes.
-- It never holds more than `max`, so `b.max - len(b.b)` is not negative.
use windows_llmmanager.Base.{
  ℕ, zero, suc, ◌-◌, ◌≤◌, ◌≡◌, inl, inr, refl, sym, ap, ◌∙◌, subst, string_eq, List, [], ◌∷◌, ◌++◌,
  Bool, false, ◌||◌, length, take, ltb, if◌then◌else◌, Bool-cases, arith, length-append,
  length-take,
}
use windows_llmmanager.Api.{Bytes}
use mathlib.Core.List.{append-nil, append_assoc}

pub record Buffer : Type 0 where
  pub b : Bytes
  pub max : ℕ
  pub truncated : Bool

unfoldable pub new_buffer : ℕ → Buffer
new_buffer max = record { b = []; max = max; truncated = false }

abbrev pub smaller : ℕ → ℕ → ℕ
smaller m n = if ltb n m then n else m

-- `Write` returns `len(p)` in every case.
unfoldable pub write : Bytes → Buffer → Buffer
write p buf =
    let room = buf.max - length buf.b in
    let remaining = if ltb 0 room then smaller room (length p) else room in
    record buf {
      b = if ltb 0 room then buf.b ++ take remaining p else buf.b;
      truncated = buf.truncated || ltb remaining (length p);
    }

pub write_all : List Bytes → Buffer → Buffer
write_all [] buf = buf
write_all (p ∷ ps) buf = write_all ps (write p buf)

unfoldable pub concat : List Bytes → Bytes
concat [] = []
concat (p ∷ ps) = p ++ concat ps

take-append {ℓ} :
    {A : Type ℓ} (n : ℕ) (xs ys : List A) → take n (xs ++ ys) ≡ take n xs ++ take (n - length xs) ys
take-append zero [] ys = refl
take-append (suc n) [] ys = let e : suc n - 0 ≡ suc n = omega arith in rw e refl
take-append zero (x ∷ xs) ys = let e : 0 - suc (length xs) ≡ 0 = omega arith in rw e refl
take-append (suc n) (x ∷ xs) ys =
    let e : suc n - suc (length xs) ≡ n - length xs = omega arith in
    rw e (ap (◌∷◌ x) (take-append n xs ys))

take_all {ℓ} : {A : Type ℓ} (n : ℕ) (xs : List A) → length xs ≤ n → take n xs ≡ xs
take_all zero [] h = refl
take_all zero (x ∷ xs) h = absurd (omega arith)
take_all (suc n) [] h = refl
take_all (suc n) (x ∷ xs) h = ap (◌∷◌ x) (take_all n xs (omega arith))

take-smaller : (n : ℕ) (p : Bytes) → take (smaller n (length p)) p ≡ take n p
take-smaller n p = elim (Bool-cases (ltb (length p) n)) [
  | inl e ↦ rw e (take_all (length p) p (omega arith) ∙ sym (take_all n p (ground arith)))
  | inr e ↦ rw e refl
]

-- What a buffer should be after the bytes `all`.
abbrev Holds : Bytes → Buffer → Type 0
Holds all buf = (buf.b ≡ take buf.max all) × (buf.truncated ≡ ltb buf.max (length all))

length-b :
    (all : Bytes) (buf : Buffer) → Holds all buf → buf.max - length buf.b ≡ buf.max - length all
length-b all buf (e, f) = omega (arith, ap length e, length-take buf.max all)

write-b : (p all : Bytes) (buf : Buffer) → Holds all buf → (write p buf).b ≡ take buf.max (all ++ p)
unfolding write
write-b p all buf h = rw (length-b all buf h) (elim (Bool-cases (ltb 0 (buf.max - length all))) [
  | inl e ↦ rw e (rw (take-smaller (buf.max - length all) p, h.0) (sym (take-append buf.max all p)))
  | inr e ↦ rw e (
      let z : buf.max - length all ≡ 0 = ground arith in
      h.0 ∙ sym (append-nil (take buf.max all)) ∙ sym (take-append buf.max all p ∙ rw z refl))
])

write-Holds : (p all : Bytes) (buf : Buffer) → Holds all buf → Holds (all ++ p) (write p buf)
unfolding write
write-Holds p all buf h =
    (write-b p all buf h, ground (arith, length-b all buf h, length-append all p, h.1))

write_all-Holds :
    (ps : List Bytes) (all : Bytes) (buf : Buffer)
    → Holds all buf
    → Holds (all ++ concat ps) (write_all ps buf)
unfolding write_all concat
write_all-Holds [] all buf h = rw append-nil h
write_all-Holds (p ∷ ps) all buf h =
    rw (← append_assoc) (write_all-Holds ps (all ++ p) (write p buf) (write-Holds p all buf h))

max-write_all : (ps : List Bytes) (buf : Buffer) → (write_all ps buf).max ≡ buf.max
unfolding write_all write
max-write_all [] buf = refl
max-write_all (p ∷ ps) buf = max-write_all ps (write p buf)

-- However the output is cut into writes, the buffer holds its first `max` bytes, and is marked as
-- truncated exactly if there were more.
pub write_all-new_buffer :
    (max : ℕ) (ps : List Bytes)
    → let buf = write_all ps (new_buffer max) in
      (buf.b ≡ take max (concat ps)) × (buf.truncated ≡ ltb max (length (concat ps)))
unfolding new_buffer
write_all-new_buffer max ps =
    subst (λ m. (buf.b ≡ take m (concat ps)) × (buf.truncated ≡ ltb m (length (concat ps))))
      (max-write_all ps (new_buffer max))
      (write_all-Holds ps [] (new_buffer max) (sym (take_all max [] (omega arith)), ground arith))
  where
    buf : Buffer
    buf = write_all ps (new_buffer max)
