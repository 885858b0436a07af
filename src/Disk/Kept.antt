-- ===== src/Disk/Kept.antt =====
-- What the calls of Disk keep: a file that is kept has the content that it had.
use windows_llmmanager.Base.{
  take, ◌⊎◌, inl, inr, Bool-cases, Option-cases, ◌≡◌, refl, ◌≢◌, ◌∙◌, String, string_eq, [], ◌++◌,
  true, none, some, arith,
}
use windows_llmmanager.Base.Dict.{
  lookup, lookup-insert, lookup-insert-ne, lookup-insert_self, lookup-erase-ne,
}
use windows_llmmanager.Api.{Bytes}
use windows_llmmanager.Disk.{
  Faults, Disk, OpenMode, exclusive, truncating, appending, opened, open_file, append, remove,
  truncate,
}

-- Every file but the one at `path` is as it was.
abbrev pub SameBut : String → Disk → Disk → Type 0
SameBut path d e = (q : String) → q ≢ path → lookup q e.files ≡ lookup q d.files

-- Every file that is there keeps its content.
abbrev pub Keeps : Disk → Disk → Type 0
Keeps d e =
    (q : String) (content : Bytes)
    → lookup q d.files ≡ some content
    → lookup q e.files ≡ some content

pub Keeps-trans : (d e f : Disk) → Keeps d e → Keeps e f → Keeps d f
Keeps-trans d e f k l q content h = l q content (k q content h)

-- What is done to a path that was free keeps every file.
pub Keeps-free :
    (path : String) (d e : Disk) → lookup path d.files ≡ none → SameBut path d e → Keeps d e
Keeps-free path d e free s q content h = s q (λ same. ground arith) ∙ h

pub SameBut-trans :
    (path : String) (d e f : Disk) → SameBut path d e → SameBut path e f → SameBut path d f
SameBut-trans path d e f s t q differ = t q differ ∙ s q differ

module _ (faults : Faults) where
  pub open_file-SameBut :
      (mode : OpenMode) (path : String) (d : Disk) → SameBut path d (open_file faults mode path d).0
  unfolding open_file
  open_file-SameBut mode path d q differ = grind (arith, lookup-insert-ne)

  pub append-SameBut :
      (path : String) (bytes : Bytes) (d : Disk) → SameBut path d (append faults path bytes d).0
  unfolding append
  append-SameBut path bytes d q differ = grind (arith, lookup-insert-ne)

  pub truncate-SameBut : (path : String) (d : Disk) → SameBut path d (truncate faults path d).0
  unfolding truncate
  truncate-SameBut path d q differ = grind (arith, lookup-insert-ne)

  pub remove-SameBut : (path : String) (d : Disk) → SameBut path d (remove faults path d)
  unfolding remove
  remove-SameBut path d q differ = ground (arith, lookup-erase-ne q path d.files differ)

  -- A file that the flags keep from being opened, or that they open at its end, is kept.
  pub open_file-Keeps :
      (mode : OpenMode) (path : String) (d : Disk)
      → mode ≢ truncating
      → Keeps d (open_file faults mode path d).0
  unfolding open_file opened
  open_file-Keeps truncating path d ne q content h = absurd (ne refl)
  open_file-Keeps exclusive path d ne q content h = grind (arith, lookup-insert)
  open_file-Keeps appending path d ne q content h = grind (arith, lookup-insert)

  -- What opens exclusively was free, and is then an empty file.
  pub open_exclusive :
      (path : String) (d : Disk)
      → (open_file faults exclusive path d).1 ≡ true
      → (lookup path d.files ≡ none)
        × (lookup path (open_file faults exclusive path d).0.files ≡ some [])
  unfolding open_file opened
  open_exclusive path d h = grind (arith, lookup-insert_self)

  -- So does what is opened to be truncated.
  pub open_truncating :
      (path : String) (d : Disk)
      → (open_file faults truncating path d).1 ≡ true
      → lookup path (open_file faults truncating path d).0.files ≡ some []
  unfolding open_file opened
  open_truncating path d h = grind (arith, lookup-insert_self)

  pub append_ok :
      (path : String) (bytes old : Bytes) (d : Disk)
      → lookup path d.files ≡ some old
      → (append faults path bytes d).1 ≡ true
      → lookup path (append faults path bytes d).0.files ≡ some (old ++ bytes)
  unfolding append
  append_ok path bytes old d e h = grind (arith, lookup-insert_self)

  -- Emptying a file leaves it empty, or leaves every file as it was.
  pub truncate-cases :
      (path : String) (d : Disk)
      → ((truncate faults path d).0.files ≡ d.files)
        ⊎ (lookup path (truncate faults path d).0.files ≡ some [])
  unfolding truncate
  truncate-cases path d = elim (Bool-cases (faults.fails d.calls)) [
    | inl e ↦ inl (ground arith)
    | inr e ↦ elim (Option-cases (lookup path d.files)) [
      | inl n ↦ inl (ground arith)
      | inr (c, n) ↦ inr (ground (arith, lookup-insert_self path [] d.files))
    ]
  ]

  pub truncate_ok :
      (path : String) (d : Disk)
      → (truncate faults path d).1 ≡ true
      → lookup path (truncate faults path d).0.files ≡ some []
  unfolding truncate
  truncate_ok path d h = grind (arith, lookup-insert_self)

  -- What is there stays in front of what a write adds, or of the part of it that is written.
  pub append_longer :
      (path : String) (bytes old : Bytes) (d : Disk)
      → lookup path d.files ≡ some old
      → (more : Bytes) × (lookup path (append faults path bytes d).0.files ≡ some (old ++ more))
  unfolding append
  append_longer path bytes old d e = elim (Bool-cases (faults.fails d.calls)) [
    | inl f ↦ (take (faults.written d.calls) bytes, grind (arith, lookup-insert_self))
    | inr f ↦ (bytes, grind (arith, lookup-insert_self))
  ]

  -- A file that is opened at its end holds what it held, or nothing if it is new.
  pub open_appending :
      (path : String) (d : Disk)
      → (open_file faults appending path d).1 ≡ true
      → (old : Bytes) × (lookup path (open_file faults appending path d).0.files ≡ some old)
        × ((lookup path d.files ≡ some old) ⊎ ((lookup path d.files ≡ none) × (old ≡ [])))
  unfolding open_file opened
  open_appending path d h = elim (Option-cases (lookup path d.files)) [
    | inl e ↦ ([], grind (arith, lookup-insert_self), inr (e, refl))
    | inr (old, e) ↦ (old, grind (arith, lookup-insert_self), inl e)
  ]
