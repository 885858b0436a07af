-- ===== src/Powershell/Frame.antt =====
-- internal/powershell/frame.go, with the metadata of wrapper.go: the reader of the framed result that
-- the wrapper prints. The lines are what `bufio.Scanner` yields, with the error that ended them;
-- base64 and the decoding of the metadata are parameters.
use windows_llmmanager.Base.{
  ℕ, ◌+◌, ◌*◌, String, string_eq, ◌==◌, List, [], ◌∷◌, ◌++◌, Bool, true, false, Option, none, some,
  length, ltb, if◌then◌else◌, ◌/◌,
}
use windows_llmmanager.Base.Int.{ℤ}
use windows_llmmanager.Base.Int
use windows_llmmanager.Api.{Bytes}
use windows_llmmanager.Text.{codes, cut_prefix, bytes_equal, trim_cr}

pub record FrameMeta : Type 0 where
  pub success : Bool
  pub exit_code : ℤ
  pub format : String
  pub truncated : Bool

abbrev pub no_meta : FrameMeta
no_meta = record { success = false; exit_code = Int.pos 0; format = ""; truncated = false }

pub record FramedResult : Type 0 where
  pub meta : FrameMeta
  pub output : Bytes
  pub stderr : Bytes
  pub raw_prelude : Bytes

pub data FrameError : Type 0 where
  no_metadata bad_output bad_stderr bad_metadata invalid_line scan_error unexpected_eof : FrameError

pub data FrameResult : Type 0 where
  framed : FramedResult → FrameResult
  failed : FrameError → FrameResult

-- The variables of the loop.
pub record Reading : Type 0 where
  pub in_frame : Bool
  pub meta : FrameMeta
  pub output64 : Bytes
  pub stderr64 : Bytes
  pub raw_prelude : Bytes

-- What the `switch` on the mark of a line makes of it.
pub data Marked : Type 0 where
  bad_meta invalid : Marked
  goes_on : Reading → Marked

abbrev pub frame_chunk_chars : ℕ
frame_chunk_chars = 3072

-- `base64.StdEncoding.EncodedLen`
abbrev pub encoded_len : ℕ → ℕ
encoded_len n = (n + 2) / 3 * 4

abbrev pub output_mark : Bytes
output_mark = codes "O:"

abbrev pub stderr_mark : Bytes
stderr_mark = codes "E:"

abbrev pub meta_mark : Bytes
meta_mark = codes "M:"

unfoldable pub begin_line : Bytes → Bytes
begin_line id = codes "___WLM_BEGIN_" ++ id ++ codes "___"

unfoldable pub end_line : Bytes → Bytes
end_line id = codes "___WLM_END_" ++ id ++ codes "___"

-- A line before the frame.
unfoldable pub add_prelude : ℕ → Bytes → Bytes → Bytes
add_prelude max_bytes line prelude = elim prelude [
  | [] ↦ line
  | c ∷ rest ↦ if ltb (length (c ∷ rest)) max_bytes then (c ∷ rest) ++ 10 ∷ line else c ∷ rest
]

unfoldable pub add_chunk : ℕ → Bytes → Bytes → Bytes
add_chunk max_bytes chunk sofar =
    if ltb (length sofar) (encoded_len max_bytes + frame_chunk_chars) then sofar ++ chunk else sofar

module _ (decode64 : Bytes → Option Bytes) (decode_meta : Bytes → Option FrameMeta) where
  -- What the end line returns.
  unfoldable pub finish : Reading → FrameResult
  finish r = if r.meta.format == "" then failed no_metadata else elim (decode64 r.output64) [
    | none ↦ failed bad_output
    | some output ↦ elim (decode64 r.stderr64) [
      | none ↦ failed bad_stderr
      | some stderr ↦
          framed (record {
            meta = r.meta;
            output = output;
            stderr = stderr;
            raw_prelude = r.raw_prelude;
          })
    ]
  ]

  -- The `switch` on the mark of a line.
  unfoldable pub marked : ℕ → Bytes → Reading → Marked
  unfolding add_chunk
  marked max_bytes line r = elim (cut_prefix meta_mark line) [
    | some text ↦ elim (decode_meta text) [
      | none ↦ bad_meta
      | some meta ↦ goes_on (record r { meta = meta })
    ]
    | none ↦ elim (cut_prefix output_mark line) [
      | some chunk ↦ goes_on (record r { output64 = add_chunk max_bytes chunk r.output64 })
      | none ↦ elim (cut_prefix stderr_mark line) [
        | some chunk ↦ goes_on (record r { stderr64 = add_chunk max_bytes chunk r.stderr64 })
        | none ↦ invalid
      ]
    ]
  ]

  unfoldable pub read_lines : Bytes → ℕ → Bool → List Bytes → Reading → FrameResult
  read_lines id max_bytes scan_failed [] r =
      failed (if scan_failed then scan_error else unexpected_eof)
  read_lines id max_bytes scan_failed (raw ∷ rest) r =
      let line = trim_cr raw in
      elim r.in_frame [
        | false ↦ read_lines id max_bytes scan_failed rest (
            if bytes_equal line (begin_line id)
            then record r { in_frame = true }
            else record r { raw_prelude = add_prelude max_bytes line r.raw_prelude })
        | true ↦ elim (bytes_equal line (end_line id)) [
          | true ↦ finish r
          | false ↦ elim (marked max_bytes line r) [
            | bad_meta ↦ failed bad_metadata
            | invalid ↦ failed invalid_line
            | goes_on r' ↦ read_lines id max_bytes scan_failed rest r'
          ]
        ]
      ]

  unfoldable pub read_frame : Bytes → ℕ → List Bytes → Bool → FrameResult
  unfolding read_lines
  read_frame id max_bytes lines scan_failed =
      read_lines id max_bytes scan_failed lines (record {
        in_frame = false;
        meta = no_meta;
        output64 = [];
        stderr64 = [];
        raw_prelude = [];
      })
