-- ===== src/Powershell/Results.antt =====
-- internal/powershell/runner.go and session.go: what a run of a command returns: `Runner.Run` between
-- its critical sections, `Session.Exec`, and the results that they build. A result is returned beside
-- an error, as in Go. Validating and printing JSON are parameters.
use windows_llmmanager.Base.{
  ℕ, ◌≡◌, ◌↔◌, ◌⊎◌, inl, inr, refl, String, string_eq, ◌==◌, List, [], ◌∷◌, Bool, true, false, not,
  ◌&&◌, Option, none, some, eqb, if◌then◌else◌, arith,
}
use windows_llmmanager.Base.Int.{pos, negsuc}
use windows_llmmanager.Api.{Bytes, ExecutionResult, format_json, format_lines}
use windows_llmmanager.Text.{codes, split}
use windows_llmmanager.Powershell.Frame.{FramedResult, FrameError, FrameResult, framed, failed}

-- `strings.ReplaceAll(s, "\r\n", "\n")`
unfoldable pub replace_crlf : Bytes → Bytes
replace_crlf [] = []
replace_crlf (c ∷ []) = c ∷ []
replace_crlf (c ∷ d ∷ s) =
    let replaced = 10 ∷ replace_crlf s in
    let kept = c ∷ replace_crlf (d ∷ s) in if eqb c 13 && eqb d 10 then replaced else kept

-- `strings.TrimSuffix(s, "\n")`
unfoldable pub trim_newline : Bytes → Bytes
trim_newline [] = []
trim_newline (c ∷ []) = if eqb c 10 then [] else c ∷ []
trim_newline (c ∷ d ∷ s) = c ∷ trim_newline (d ∷ s)

abbrev pub split_unless_empty : Bytes → List Bytes
split_unless_empty [] = []
split_unless_empty (c ∷ s) = split 10 (c ∷ s)

unfoldable pub split_lines : Bytes → List Bytes
unfolding replace_crlf trim_newline split
split_lines s = split_unless_empty (trim_newline (replace_crlf s))

abbrev pub null_text : Bytes
null_text = codes "null"

unfoldable pub timeout_result : String → ℕ → Bool → ExecutionResult
timeout_result format elapsed_ms restarted = record {
  success = false;
  exit_code = negsuc 0;
  format = format;
  output = null_text;
  raw_output = [];
  stderr = [];
  truncated = false;
  timed_out = true;
  duration_ms = elapsed_ms;
  session_restarted = restarted;
}

unfoldable pub shell_exited_result : String → ℕ → Bool → ExecutionResult
shell_exited_result format elapsed_ms restarted = record {
  success = false;
  exit_code = negsuc 0;
  format = format;
  output = null_text;
  raw_output = [];
  stderr = [];
  truncated = false;
  timed_out = false;
  duration_ms = elapsed_ms;
  session_restarted = restarted;
}

-- `api.ExecutionResult{}`
abbrev pub empty_result : ExecutionResult
empty_result = record {
  success = false;
  exit_code = pos 0;
  format = "";
  output = [];
  raw_output = [];
  stderr = [];
  truncated = false;
  timed_out = false;
  duration_ms = 0;
  session_restarted = false;
}

pub data RunnerError : Type 0 where
  shell_exited timed_out blocked no_id not_started not_written : RunnerError

-- What the `select` of a run meets: the end of its context, or the frame.
pub data Selected : Type 0 where
  context_done : Selected
  frame_read : FrameResult → Selected

Selected-cases :
    (s : Selected)
    → (s ≡ context_done)
      ⊎ (((e : FrameError) × (s ≡ frame_read (failed e)))
          ⊎ ((r : FramedResult) × (s ≡ frame_read (framed r))))
Selected-cases context_done = inl refl
Selected-cases (frame_read (failed e)) = inr (inl (e, refl))
Selected-cases (frame_read (framed r)) = inr (inr (r, refl))

-- What a run of `Runner.Run` meets on its way: whether its context has ended before it, the two tests
-- of `blocked`, the id, the child's start, the write of the wrapper, the `select` on the frame, and
-- whether the context ends before the child does.
pub record Course : Type 0 where
  pub expired : Bool
  pub blocked_first : Bool
  pub id : Option Bytes
  pub starts : Bool
  pub blocked_later : Bool
  pub writes : Bool
  pub selected : Selected
  pub context_first : Bool
  pub elapsed_ms : ℕ

module _ (json_valid : Bytes → Bool) (marshal_lines : List Bytes → Bytes) where
  -- `Output` and `RawOutput`.
  unfoldable pub outputs : FramedResult → Bytes × Bytes
  unfolding split_lines
  outputs r =
      if r.meta.format == format_json && not r.meta.truncated && json_valid r.output
      then (r.output, [])
      else if r.meta.format == format_lines
      then (marshal_lines (split_lines r.output), [])
      else (null_text, r.output)

  unfoldable pub to_api_result : FramedResult → ℕ → Bool → ExecutionResult
  to_api_result r elapsed_ms restarted = record {
    success = r.meta.success;
    exit_code = r.meta.exit_code;
    format = r.meta.format;
    output = (outputs r).0;
    raw_output = (outputs r).1;
    stderr = split_lines r.stderr;
    truncated = r.meta.truncated;
    timed_out = false;
    duration_ms = elapsed_ms;
    session_restarted = restarted;
  }

  -- The `select` of `Runner.Run`, and what it returns.
  unfoldable pub select_result : String → Course → ExecutionResult × Option RunnerError
  unfolding timeout_result to_api_result
  select_result format c = elim c.selected [
    | context_done ↦ (timeout_result format c.elapsed_ms false, some timed_out)
    | frame_read f ↦ elim f [
      | failed e ↦ (empty_result, some shell_exited)
      | framed r ↦
          if c.context_first
          then (timeout_result format c.elapsed_ms false, some timed_out)
          else (to_api_result r c.elapsed_ms false, none)
    ]
  ]

  -- `Runner.Run`
  unfoldable pub run_command : String → Course → ExecutionResult × Option RunnerError
  unfolding select_result timeout_result
  run_command format c =
      if c.expired
      then (timeout_result format c.elapsed_ms false, some timed_out)
      else if c.blocked_first
      then (empty_result, some blocked)
      else elim c.id [
        | none ↦ (empty_result, some no_id)
        | some id ↦
            if not c.starts
            then (empty_result, some not_started)
            else if c.blocked_later
            then (empty_result, some blocked)
            else if not c.writes
            then (empty_result, some not_written)
            else select_result format c
      ]

  -- A framed result is passed on whole, and its output is a JSON text: what the child printed where
  -- that is one, the list of its lines, or null beside the raw text. What validates JSON has to accept
  -- null and what is printed for a list of lines.
  pub to_api_result-output :
      (r : FramedResult) (elapsed_ms : ℕ) (restarted : Bool)
      → json_valid null_text ≡ true
      → ((lines : List Bytes) → json_valid (marshal_lines lines) ≡ true)
      → let a = to_api_result r elapsed_ms restarted in
        (json_valid a.output ≡ true)
        × (((a.output ≡ r.output) × (a.raw_output ≡ []))
            ⊎ (((a.output ≡ marshal_lines (split_lines r.output)) × (a.raw_output ≡ []))
                ⊎ ((a.output ≡ null_text) × (a.raw_output ≡ r.output))))
  unfolding to_api_result outputs
  to_api_result-output r elapsed_ms restarted n m = ground (arith, m (split_lines r.output))

  run_command-timed_out :
      (format : String) (c : Course)
      → ((run_command format c).1 ≡ some timed_out) ↔ ((run_command format c).0.timed_out ≡ true)
  unfolding run_command to_api_result
  run_command-timed_out format c = elim (Selected-cases c.selected) [
    | inl e ↦ ground arith
    | inr (inl (x, e)) ↦ ground arith
    | inr (inr (r, e)) ↦ ground arith
  ]

  run_command-none :
      (format : String) (c : Course)
      → (run_command format c).1 ≡ none
      → (r : FramedResult) × (c.selected ≡ frame_read (framed r))
        × ((run_command format c).0 ≡ to_api_result r c.elapsed_ms false)
        × (c.blocked_first ≡ false)
        × (c.blocked_later ≡ false)
        × (c.starts ≡ true)
  unfolding run_command
  run_command-none format c h = elim (Selected-cases c.selected) [
    | inl e ↦ absurd (ground arith)
    | inr (inl (x, e)) ↦ absurd (ground arith)
    | inr (inr (r, e)) ↦ (r, e, ground arith, ground arith, ground arith, ground arith)
  ]

  -- A run reports the timeout by its error exactly if it does by its result, and a run without an
  -- error is one that found the runner unblocked twice, started its child and read a frame.
  pub run_command_lem :
      (format : String) (c : Course)
      → (((run_command format c).1 ≡ some timed_out) ↔ ((run_command format c).0.timed_out ≡ true))
        × ((run_command format c).1 ≡ none
            → (r : FramedResult) × (c.selected ≡ frame_read (framed r))
              × ((run_command format c).0 ≡ to_api_result r c.elapsed_ms false)
              × (c.blocked_first ≡ false)
              × (c.blocked_later ≡ false)
              × (c.starts ≡ true))
  run_command_lem format c = (run_command-timed_out format c, run_command-none format c)
