-- ===== src/Audit.antt =====
-- internal/audit/logger.go: the audit log, a file of lines that is moved into an archive where it has
-- grown to its bound. Encoding an event, packing an archive, and the time in the name of an archive and
-- in an event are parameters; `Write` holds the mutex for its whole body.
pub mod Rotation
pub mod History
use windows_llmmanager.Base.{
  ℕ, String, string_eq, ◌==◌, Bool, true, false, not, ◌&&◌, Option, none, some, length, ltb,
  if◌then◌else◌,
}
use windows_llmmanager.Base.Dict.{lookup}
use windows_llmmanager.Base.Int.{ℤ}
use windows_llmmanager.Api.{Bytes}
use windows_llmmanager.Disk.{
  Faults, Disk, exclusive, appending, tick, attempt, read_file, open_file, append, remove, truncate,
}

-- `Details` is the JSON text of a map.
pub record Event : Type 0 where
  pub timestamp : String
  pub kind : String
  pub request_id : String
  pub source_ip : String
  pub token_fingerprint : Bytes
  pub mode : String
  pub session_id : String
  pub command : Bytes
  pub success : Option Bool
  pub exit_code : Option ℤ
  pub details : Bytes

pub record Logger : Type 0 where
  pub path : String
  pub max_bytes : ℕ

pub data AuditError : Type 0 where
  no_directory not_statted no_archive not_archived not_closed not_truncated : AuditError
  not_opened not_encoded not_written not_synced : AuditError

-- `os.Stat` of the log: its size, or one of two errors.
pub data Size : Type 0 where
  missing unknown : Size
  size : ℕ → Size

-- What the logger takes from elsewhere: a time and the name of an archive by the number of the call
-- that asks for it, the line of an event, and the archive of a file.
pub record Formats : Type 0 where
  pub time_stamp : ℕ → String
  pub archive_path : ℕ → String
  pub encode : Event → Option Bytes
  pub zip : Bytes → Bytes

module _ (faults : Faults) (formats : Formats) where
  open formats use {time_stamp, archive_path, encode, zip}

  -- `New`
  unfoldable pub new_logger : String → ℕ → Disk → Disk × Option Logger
  unfolding attempt
  new_logger path max_bytes d =
      let (d', made) = attempt faults d in
      (d', if made then some (record { path = path; max_bytes = max_bytes }) else none)

  unfoldable pub stat : String → Disk → Disk × Size
  unfolding tick
  stat path d = (
    tick d,
    if faults.fails d.calls
        then unknown
        else elim (lookup path d.files) [ none ↦ missing | some content ↦ size (length content) ],
  )

  -- The copy of the log into the archive.
  unfoldable pub copy_log : Logger → String → Disk → Disk × Bool
  unfolding attempt read_file append
  copy_log l zip_path d =
      let (d1, created) = attempt faults d in
      if not created
      then (d1, false)
      else let (d2, content) = read_file faults l.path d1 in
        elim content [ none ↦ (d2, false) | some c ↦ append faults zip_path (zip c) d2 ]

  -- The archive is closed, taken away where anything failed, and else the log is emptied.
  unfoldable pub close_archive : Logger → String → Bool → Disk → Disk × Option AuditError
  unfolding attempt
  close_archive l zip_path copied d =
      let (d1, zip_closed) = attempt faults d in
      let (d2, file_closed) = attempt faults d1 in
      if not copied
      then (remove faults zip_path d2, some not_archived)
      else if not (zip_closed && file_closed)
      then (remove faults zip_path d2, some not_closed)
      else let (d3, emptied) = truncate faults l.path d2 in
        (d3, if emptied then none else some not_truncated)

  unfoldable pub rotate : Logger → Disk → Disk × Option AuditError
  rotate l d =
      let zip_path = archive_path d.calls in
      let (d1, made) = open_file faults exclusive zip_path d in
      if not made
      then (d1, some no_archive)
      else let (d2, copied) = copy_log l zip_path d1 in close_archive l zip_path copied d2

  unfoldable pub rotate_if_needed : Logger → Disk → Disk × Option AuditError
  unfolding stat
  rotate_if_needed l d =
      let (d1, found) = stat l.path d in
      elim found [
        | missing ↦ (d1, none)
        | unknown ↦ (d1, some not_statted)
        | size n ↦ if ltb n l.max_bytes then (d1, none) else rotate l d1
      ]

  unfoldable pub stamped : Event → Disk → Event
  stamped event d =
      if event.timestamp == "" then record event { timestamp = time_stamp d.calls } else event

  -- `Write` behind the rotation.
  unfoldable pub add_line : Logger → Event → Disk → Disk × Option AuditError
  unfolding attempt
  add_line l event d =
      let (d1, there) = open_file faults appending l.path d in
      if not there then (d1, some not_opened) else elim (encode event) [
        | none ↦ (d1, some not_encoded)
        | some line ↦
            let (d2, wrote) = append faults l.path line d1 in
            if not wrote
            then (d2, some not_written)
            else let (d3, synced) = attempt faults d2 in
              (d3, if synced then none else some not_synced)
      ]

  unfoldable pub write_event : Logger → Event → Disk → Disk × Option AuditError
  unfolding stamped
  write_event l event d =
      let stamped_event = stamped event d in
      let (d1, error) = rotate_if_needed l d in
      elim error [ some e ↦ (d1, some e) | none ↦ add_line l stamped_event d1 ]
