-- ===== src/Tests/Audit.antt =====
-- Concrete runs of the audit log.
use text.Mathlib.TextEquality.{eq_iff}
use windows_llmmanager.Base.{ℕ, ◌≡◌, ◌≢◌, refl, string_eq, [], ◌∷◌, false, none, some, arith}
use windows_llmmanager.Base.Dict.{lookup, insert}
use windows_llmmanager.Api.{Bytes}
use windows_llmmanager.Disk.{Faults, Disk, open_file, append, truncate}
use windows_llmmanager.Audit.{
  Event, Logger, Formats, stamped, copy_log, close_archive, rotate, rotate_if_needed, add_line,
  write_event,
}
use windows_llmmanager.Audit.History.{Holds, write_events, write_event-kept}

abbrev formats : Formats
formats = record {
  time_stamp = λ n. "now";
  archive_path = λ n. "old.zip";
  encode = λ event. some (65 ∷ 10 ∷ []);
  zip = λ c. 80 ∷ c;
}

abbrev logger : Logger
logger = record { path = "audit.jsonl"; max_bytes = 3 }

abbrev no_faults : Faults
no_faults = record { fails = λ n. false; written = λ n. 0 }

abbrev event : Event
event = record {
  timestamp = "";
  kind = "killswitch_armed";
  request_id = "";
  source_ip = "";
  token_fingerprint = [];
  mode = "";
  session_id = "";
  command = [];
  success = none;
  exit_code = none;
  details = [];
}

-- A log of four bytes is over the bound.
abbrev full : Disk
full = record { calls = 0; files = ("audit.jsonl", 1 ∷ 2 ∷ 3 ∷ 4 ∷ []) ∷ [] }

rotates :
    (write_event no_faults formats logger event full).0.files
    ≡ ("audit.jsonl", 65 ∷ 10 ∷ []) ∷ ("old.zip", 80 ∷ 1 ∷ 2 ∷ 3 ∷ 4 ∷ []) ∷ []
unfolding write_event rotate_if_needed rotate copy_log close_archive add_line open_file append
    truncate lookup insert string_eq
rotates = refl

no_error : (write_event no_faults formats logger event full).1 ≡ none
unfolding write_event rotate_if_needed rotate copy_log close_archive add_line open_file append
    truncate lookup insert string_eq
no_error = refl

named_apart : (n : ℕ) → formats.archive_path n ≢ logger.path
named_apart n = ground (arith, eq_iff "old.zip" "audit.jsonl")

write_event-kept_example :
    (line : Bytes) × (formats.encode (stamped no_faults formats event full) ≡ some line)
    × Holds no_faults formats logger line
        (write_events no_faults formats logger
          (event ∷ [])
          (write_event no_faults formats logger event full).0).files
write_event-kept_example =
    write_event-kept no_faults formats logger named_apart event (event ∷ []) full no_error

logged :
    lookup "audit.jsonl" (write_event no_faults formats logger event full).0.files
    ≡ some (65 ∷ 10 ∷ [])
unfolding write_event rotate_if_needed rotate copy_log close_archive add_line open_file append
    truncate lookup insert string_eq
logged = refl
