-- ===== src/Audit/Rotation.antt =====
-- What a rotation of the audit log does to the files, whichever calls fail.
use windows_llmmanager.Base.{
  ℕ, ◌+◌, ◌<◌, ◌≡◌, ◌≢◌, refl, ◌∙◌, sym, ◌⊎◌, inl, inr, String, string_eq, [], Bool, true, false,
  none, some, length, ltb, Bool-cases, Option-cases, arith,
}
use windows_llmmanager.Base.Dict.{Dict, lookup, lookup-insert-ne, lookup-insert_self}
use windows_llmmanager.Api.{Bytes}
use windows_llmmanager.Disk.{Faults, Disk, exclusive, tick, attempt, read_file, open_file}
use windows_llmmanager.Disk.Kept.{
  SameBut, SameBut-trans, Keeps, Keeps-free, open_file-SameBut, remove-SameBut, open_file-Keeps,
  open_exclusive, truncate-SameBut, truncate-cases, truncate_ok,
}
use windows_llmmanager.Audit.{Logger, Formats, copy_log, close_archive, rotate, rotate_if_needed}

module _ (faults : Faults) (formats : Formats) (l : Logger) where
  -- The content of the log has gone into a new archive, the log is empty, and no other file differs.
  pub record Moved (d e : Dict String Bytes) : Type 0 where
    pub archive : String
    pub content : Bytes
    pub apart : archive ≢ l.path
    pub free : lookup archive d ≡ none
    pub was : lookup l.path d ≡ some content
    pub packed : lookup archive e ≡ some (formats.zip content)
    pub emptied : lookup l.path e ≡ some []
    pub others : (q : String) → q ≢ archive → q ≢ l.path → lookup q e ≡ lookup q d

  -- The copy changes the archive only.
  copy_log-SameBut : (p : String) (d : Disk) → SameBut p d (copy_log faults formats l p d).0
  unfolding copy_log attempt read_file tick
  copy_log-SameBut p d q differ = grind (arith, lookup-insert-ne)

  -- A copy that succeeds fills it with what the log holds.
  copy_log_ok :
      (p : String) (d : Disk)
      → lookup p d.files ≡ some []
      → (copy_log faults formats l p d).1 ≡ true
      → (c : Bytes) × (lookup l.path d.files ≡ some c)
        × (lookup p (copy_log faults formats l p d).0.files ≡ some (formats.zip c))
  unfolding copy_log attempt read_file tick
  copy_log_ok p d empty h = elim (Option-cases (lookup l.path d.files)) [
    | inl e ↦ absurd (ground arith)
    | inr (c, e) ↦ (c, e, ground (arith, lookup-insert_self p (formats.zip c) d.files))
  ]

  -- The end of a rotation changes the archive only, or it empties the log.
  close_archive-cases :
      (p : String) (copied : Bool) (d : Disk)
      → SameBut p d (close_archive faults formats l p copied d).0
        ⊎ ((copied ≡ true)
            × SameBut l.path d (close_archive faults formats l p copied d).0
            × (lookup l.path (close_archive faults formats l p copied d).0.files ≡ some []))
  unfolding close_archive attempt tick
  close_archive-cases p false d = inl (remove-SameBut faults p (tick (tick d)))
  close_archive-cases p true d = elim (Bool-cases (faults.fails d.calls)) [
    | inl a ↦ inl (rw (a, close_archive) (remove-SameBut faults p (tick (tick d))))
    | inr a ↦ elim (Bool-cases (faults.fails (d.calls + 1))) [
      | inl b ↦ inl (rw (a, b, close_archive) (remove-SameBut faults p (tick (tick d))))
      | inr b ↦ elim (truncate-cases faults l.path (tick (tick d))) [
        | inl same ↦ inl (rw (a, b, close_archive) (λ q differ. rw same refl))
        | inr emptied ↦ inr (
          refl,
          rw (a, b, close_archive) (truncate-SameBut faults l.path (tick (tick d))),
          rw (a, b, close_archive) emptied,
        )
      ]
    ]
  ]

  -- A rotation keeps every file, or moves the content of the log.
  pub rotate-cases :
      ((n : ℕ) → formats.archive_path n ≢ l.path)
      → (d : Disk)
      → Keeps d (rotate faults formats l d).0 ⊎ Moved d.files (rotate faults formats l d).0.files
  unfolding rotate
  rotate-cases apart d = elim (Bool-cases (open_file faults exclusive p d).1) [
    | inr e ↦ inl (rw (e, rotate) (open_file-Keeps faults exclusive p d (λ c. cc)))
    | inl e ↦ rw (e, rotate) (opens (open_exclusive faults p d e))
  ]
    where
      p : String
      p = formats.archive_path d.calls

      d1 : Disk
      d1 = (open_file faults exclusive p d).0

      copied : Disk × Bool
      copied = copy_log faults formats l p d1

      upto : SameBut p d copied.0
      upto =
          SameBut-trans p d d1 copied.0 (open_file-SameBut faults exclusive p d)
            (copy_log-SameBut p d1)

      opens :
          (lookup p d.files ≡ none) × (lookup p d1.files ≡ some [])
          → Keeps d (close_archive faults formats l p copied.1 copied.0).0
            ⊎ Moved d.files (close_archive faults formats l p copied.1 copied.0).0.files
      opens (free, empty) = elim (close_archive-cases p copied.1 copied.0) [
        | inl same ↦ inl (
            Keeps-free p d (close_archive faults formats l p copied.1 copied.0).0 free (
              SameBut-trans p d copied.0 (close_archive faults formats l p copied.1 copied.0).0 upto
                same))
        | inr (done, same, emptied) ↦
            let (c, was, packed) = copy_log_ok p d1 empty done in
            inr (record {
              archive = p;
              content = c;
              apart = apart d.calls;
              free = free;
              was =
                  sym (open_file-SameBut faults exclusive p d l.path (λ x. apart d.calls (sym x)))
                  ∙ was;
              packed = same p (apart d.calls) ∙ packed;
              emptied = emptied;
              others = λ q ne nl. same q nl ∙ upto q ne;
            })
      ]

  close_archive_emptied :
      (p : String) (copied : Bool) (d : Disk)
      → (close_archive faults formats l p copied d).1 ≡ none
      → lookup l.path (close_archive faults formats l p copied d).0.files ≡ some []
  unfolding close_archive attempt tick
  close_archive_emptied p copied d h = ground (arith, truncate_ok faults l.path (tick (tick d)))

  rotate_emptied :
      (d : Disk)
      → (rotate faults formats l d).1 ≡ none
      → lookup l.path (rotate faults formats l d).0.files ≡ some []
  unfolding rotate
  rotate_emptied d h =
      let p = formats.archive_path d.calls in
      let d1 = (open_file faults exclusive p d).0 in
      let copied = copy_log faults formats l p d1 in
      ground (arith, close_archive_emptied p copied.1 copied.0)

  -- The log that a rotation without an error leaves is shorter than the bound.
  pub rotate_if_needed-room :
      (d : Disk) (c : Bytes)
      → 0 < l.max_bytes
      → (rotate_if_needed faults formats l d).1 ≡ none
      → lookup l.path (rotate_if_needed faults formats l d).0.files ≡ some c
      → length c < l.max_bytes
  unfolding rotate_if_needed tick
  rotate_if_needed-room d c pos h e = ground (arith, rotate_emptied (tick d))

  pub rotate_if_needed-cases :
      ((n : ℕ) → formats.archive_path n ≢ l.path)
      → (d : Disk)
      → Keeps d (rotate_if_needed faults formats l d).0
        ⊎ Moved d.files (rotate_if_needed faults formats l d).0.files
  unfolding rotate_if_needed tick
  rotate_if_needed-cases apart d = elim (Bool-cases (faults.fails d.calls)) [
    | inl f ↦ inl (λ q content h. rw (f, rotate_if_needed) h)
    | inr f ↦ elim (Option-cases (lookup l.path d.files)) [
      | inl n ↦ inl (λ q content h. rw (f, n, rotate_if_needed) h)
      | inr (c, n) ↦ elim (Bool-cases (ltb (length c) l.max_bytes)) [
        | inl small ↦ inl (λ q content h. rw (f, n, small, rotate_if_needed) h)
        | inr full ↦ rw (f, n, full, rotate_if_needed) (rotate-cases apart (tick d))
      ]
    ]
  ]
