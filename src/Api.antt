-- ===== src/Api.antt =====
-- internal/api/types.go: the values that cross the HTTP interface. A Go string is a `String` where
-- the program only compares it, and its bytes where the program walks them or only passes them on.
use windows_llmmanager.Base.{ℕ, String, List, Bool}
use windows_llmmanager.Base.Int.{ℤ}

abbrev pub Bytes : Type 0
Bytes = List ℕ

abbrev pub format_json : String
format_json = "json_object"

abbrev pub format_lines : String
format_lines = "lines"

pub record ExecRequest : Type 0 where
  pub command : Bytes
  pub format : String

pub record JobRequest : Type 0 where
  pub command : Bytes
  pub format : String
  pub timeout_sec : ℤ

-- `Output` is a `json.RawMessage`, that is, the bytes of a JSON text.
pub record ExecutionResult : Type 0 where
  pub success : Bool
  pub exit_code : ℤ
  pub format : String
  pub output : Bytes
  pub raw_output : Bytes
  pub stderr : List Bytes
  pub truncated : Bool
  pub timed_out : Bool
  pub duration_ms : ℕ
  pub session_restarted : Bool
