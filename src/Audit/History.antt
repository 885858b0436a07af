-- ===== src/Audit/History.antt =====
-- An event that has been written to the audit log stays there, or in an archive, for ever.
use mathlib.Core.List.{append_assoc, append-nil}
use windows_llmmanager.Base.{
  ℕ, ◌+◌, ◌<◌, ◌≡◌, ◌≢◌, ◌∙◌, sym, ap, ◌⊎◌, inl, inr, String, string_eq, List, [], ◌∷◌, ◌++◌, Bool,
  Option, none, some, length, Bool-cases, Option-cases, arith, length-append,
}
use windows_llmmanager.Base.Dict.{Dict, lookup}
use windows_llmmanager.Api.{Bytes}
use windows_llmmanager.Disk.{Faults, Disk, appending, tick, attempt, open_file, append}
use windows_llmmanager.Disk.Kept.{
  SameBut, Keeps, append-SameBut, open_file-Keeps, append_longer, append_ok, open_appending,
}
use windows_llmmanager.Audit.{
  Event, Logger, AuditError, Formats, stamped, rotate_if_needed, add_line, write_event,
}
use windows_llmmanager.Audit.Rotation.{Moved, rotate_if_needed-cases, rotate_if_needed-room}

-- The text stands somewhere in the content.
abbrev Within : Bytes → Bytes → Type 0
Within line content = (pre : Bytes) × (post : Bytes) × (content ≡ pre ++ (line ++ post))

Within-append : (line c more : Bytes) → Within line c → Within line (c ++ more)
Within-append line c more (pre, post, e) = (pre, post ++ more, simp (e, append_assoc))

module _ (faults : Faults) (formats : Formats) (l : Logger) where
  -- The line stands in the log, or in the content of an archive.
  pub data Holds (line : Bytes) (files : Dict String Bytes) : Type 0 where
    in_log : (c : Bytes) → lookup l.path files ≡ some c → Within line c → Holds line files
    in_archive :
        (p : String) (c : Bytes)
        → p ≢ l.path
        → lookup p files ≡ some (formats.zip c)
        → Within line c
        → Holds line files

  Holds-Keeps : (line : Bytes) (d e : Disk) → Keeps d e → Holds line d.files → Holds line e.files
  Holds-Keeps line d e k (in_log c at w) = in_log c (k l.path c at) w
  Holds-Keeps line d e k (in_archive p c ne at w) = in_archive p c ne (k p (formats.zip c) at) w

  Holds-Moved :
      (line : Bytes) (d e : Disk)
      → Moved faults formats l d.files e.files
      → Holds line d.files
      → Holds line e.files
  Holds-Moved line d e m (in_log c at w) =
      in_archive m.archive c m.apart
        (m.packed ∙ ap (λ x. some (formats.zip x)) (ground (arith, m.was))) w
  Holds-Moved line d e m (in_archive p c ne at w) =
      in_archive p c ne (m.others p (λ same. ground (arith, m.free)) ne ∙ at) w

  -- The log gets longer at its end, and no other file differs.
  record Grows (d e : Disk) : Type 0 where
    same : SameBut l.path d e
    longer :
        (c : Bytes)
        → lookup l.path d.files ≡ some c
        → (more : Bytes) × (lookup l.path e.files ≡ some (c ++ more))

  Holds-Grows : (line : Bytes) (d e : Disk) → Grows d e → Holds line d.files → Holds line e.files
  Holds-Grows line d e g (in_log c at w) =
      let (more, later) = g.longer c at in in_log (c ++ more) later (Within-append line c more w)
  Holds-Grows line d e g (in_archive p c ne at w) = in_archive p c ne (g.same p ne ∙ at) w

  append-Grows : (bytes : Bytes) (d : Disk) → Grows d (append faults l.path bytes d).0
  append-Grows bytes d = record {
    same = append-SameBut faults l.path bytes d;
    longer = λ c. append_longer faults l.path bytes c d;
  }

  module _ (line : Bytes) (event : Event) (d : Disk) (h : Holds line d.files) where
    abbrev opened_log : Disk × Bool
    opened_log = open_file faults appending l.path d

    opened_log-Holds : Holds line opened_log.0.files
    opened_log-Holds =
        Holds-Keeps line d opened_log.0 (open_file-Keeps faults appending l.path d (λ c. cc)) h

    add_line-Holds : Holds line (add_line faults formats l event d).0.files
    unfolding add_line attempt tick
    add_line-Holds = elim (Bool-cases opened_log.1) [
      | inr e ↦ rw (e, add_line) opened_log-Holds
      | inl e ↦ elim (Option-cases (formats.encode event)) [
        | inl n ↦ rw (e, n, add_line) opened_log-Holds
        | inr (new, n) ↦
            let written = append faults l.path new opened_log.0 in
            let kept =
              Holds-Grows line opened_log.0 written.0 (append-Grows new opened_log.0)
                opened_log-Holds in
            elim (Bool-cases written.1) [
              | inl w ↦ rw (e, n, w, add_line) kept
              | inr w ↦ rw (e, n, w, add_line) kept
            ]
      ]
    ]

  -- A line that is added is there.
  add_line_ok :
      (event : Event) (d : Disk)
      → (add_line faults formats l event d).1 ≡ none
      → (line : Bytes) × (formats.encode event ≡ some line)
        × ((old : Bytes) × (lookup l.path (add_line faults formats l event d).0.files
              ≡ some (old ++ line))
            × ((lookup l.path d.files ≡ some old) ⊎ ((lookup l.path d.files ≡ none) × (old ≡ []))))
  unfolding add_line attempt tick
  add_line_ok event d h =
      let opened = open_file faults appending l.path d in
      elim (Bool-cases opened.1) [
        | inr e ↦ absurd (ground arith)
        | inl e ↦ elim (Option-cases (formats.encode event)) [
          | inl n ↦ absurd (ground arith)
          | inr (line, n) ↦ elim (Bool-cases (append faults l.path line opened.0).1) [
            | inr w ↦ absurd (ground arith)
            | inl w ↦
                let (old, now, before) = open_appending faults l.path d e in
                (
                  line,
                  n,
                  (
                    old,
                    rw (e, n, w, add_line) (append_ok faults l.path line old opened.0 now w),
                    before,
                  ),
                )
          ]
        ]
      ]

  -- Calls of `Write`, whether they fail or not.
  unfoldable pub write_events : List Event → Disk → Disk
  write_events [] d = d
  write_events (event ∷ events) d = write_events events (write_event faults formats l event d).0

  module _ (apart : (n : ℕ) → formats.archive_path n ≢ l.path) where
    rotate_if_needed-Holds :
        (line : Bytes) (d : Disk)
        → Holds line d.files
        → Holds line (rotate_if_needed faults formats l d).0.files
    rotate_if_needed-Holds line d h = elim (rotate_if_needed-cases faults formats l apart d) [
      | inl k ↦ Holds-Keeps line d (rotate_if_needed faults formats l d).0 k h
      | inr m ↦ Holds-Moved line d (rotate_if_needed faults formats l d).0 m h
    ]

    write_event-Holds :
        (line : Bytes) (event : Event) (d : Disk)
        → Holds line d.files
        → Holds line (write_event faults formats l event d).0.files
    unfolding write_event
    write_event-Holds line event d h =
        let turned = rotate_if_needed faults formats l d in
        let kept = rotate_if_needed-Holds line d h in
        elim (Option-cases turned.1) [
          | inl e ↦
              rw (e, write_event)
                (add_line-Holds line (stamped faults formats event d) turned.0 kept)
          | inr (x, e) ↦ rw (e, write_event) kept
        ]

    write_events-Holds :
        (line : Bytes) (events : List Event) (d : Disk)
        → Holds line d.files
        → Holds line (write_events events d).files
    unfolding write_events
    write_events-Holds line [] d h = h
    write_events-Holds line (event ∷ events) d h =
        write_events-Holds line events (write_event faults formats l event d).0
          (write_event-Holds line event d h)

    write_event_ok :
        (event : Event) (d : Disk)
        → (write_event faults formats l event d).1 ≡ none
        → (line : Bytes) × (formats.encode (stamped faults formats event d) ≡ some line)
          × Holds line (write_event faults formats l event d).0.files
    unfolding write_event
    write_event_ok event d h =
        let turned = rotate_if_needed faults formats l d in
        elim (Option-cases turned.1) [
          | inr (x, e) ↦ absurd (ground arith)
          | inl e ↦
              let (line, encoded, (old, there, _)) =
                add_line_ok (stamped faults formats event d) turned.0 (ground arith) in
              (
                line,
                encoded,
                rw (e, write_event)
                    (in_log (old ++ line) there
                      (old, [], ap (λ x. old ++ x) (sym (append-nil line)))),
              )
        ]

    -- Where no archive has the log's own name: the line of an event that `Write` has written without an
    -- error stands in the log or in an archive, however many calls of `Write` follow and whichever
    -- calls of the system fail in them, also in the middle of a rotation.
    pub write_event-kept :
        (event : Event) (later : List Event) (d : Disk)
        → (write_event faults formats l event d).1 ≡ none
        → (line : Bytes) × (formats.encode (stamped faults formats event d) ≡ some line)
          × Holds line (write_events later (write_event faults formats l event d).0).files
    write_event-kept event later d h =
        let (line, encoded, holds) = write_event_ok event d h in
        (
          line,
          encoded,
          write_events-Holds line later (write_event faults formats l event d).0 holds,
        )

  -- The log that `Write` leaves, where it reports no error, is shorter than the bound and the new line
  -- together.
  pub write_event_bound :
      (event : Event) (d : Disk) (line content : Bytes)
      → 0 < l.max_bytes
      → formats.encode (stamped faults formats event d) ≡ some line
      → (write_event faults formats l event d).1 ≡ none
      → lookup l.path (write_event faults formats l event d).0.files ≡ some content
      → length content < l.max_bytes + length line
  unfolding write_event
  write_event_bound event d line content pos encoded h at = elim (Option-cases turned.1) [
    | inr (x, e) ↦ absurd (ground arith)
    | inl e ↦
        let (new, same, (old, there, before)) =
          add_line_ok (stamped faults formats event d) turned.0 (ground arith) in
        elim before [
          | inl b ↦
              ground
                (arith, length-append old new, rotate_if_needed-room faults formats l d old pos e b)
          | inr (n, z) ↦ ground (arith, length-append old new)
        ]
  ]
    where
      turned : Disk × Option AuditError
      turned = rotate_if_needed faults formats l d
