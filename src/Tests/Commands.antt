-- ===== src/Tests/Commands.antt =====
-- internal/powershell at concrete inputs: the wrapper of a command, and what becomes of its output.
use windows_llmmanager.Base.{
  ◌≡◌, ◌≢◌, ◌↔◌, refl, string_eq, List, [], ◌∷◌, ◌++◌, Bool, true, false, none, some,
}
use windows_llmmanager.Base.Int.{pos}
use windows_llmmanager.Api.{Bytes}
use windows_llmmanager.Text.{codes}
use windows_llmmanager.Powershell.Frame.{FramedResult, framed}
use windows_llmmanager.Powershell.Wrapper.{encode64, char64, decimal, build_wrapper}
use windows_llmmanager.Powershell.Inert.{all_plain, quote_free, build_wrapper-inert}
use windows_llmmanager.Powershell.Results.{
  split_lines, to_api_result, Course, timed_out, frame_read, run_command, run_command_lem,
}
use windows_llmmanager.Powershell.Lines.{ended, crlf, lf, split_lines-ended}

base64_test : encode64 (codes "any carnal pleas") ≡ codes "YW55IGNhcm5hbCBwbGVhcw=="
unfolding encode64 char64
base64_test = refl

decimal_test : decimal (pos 4194303) ≡ codes "4194303"
unfolding decimal
decimal_test = refl

lines_plain : all_plain (codes "lines") ≡ true
unfolding all_plain
lines_plain = refl

id_plain : all_plain (codes "0af3") ≡ true
unfolding all_plain
id_plain = refl

build_wrapper-inert_example :
    (head : Bytes) × (tail : Bytes) × ((command : Bytes)
      → (build_wrapper command "lines" (codes "0af3") 4096
          ≡ head ++ (39 ∷ (encode64 command ++ (39 ∷ tail))))
        × (quote_free (encode64 command) ≡ true)
        × (all_plain (build_wrapper command "lines" (codes "0af3") 4096) ≡ true))
build_wrapper-inert_example = build_wrapper-inert "lines" (codes "0af3") 4096 lines_plain id_plain

abbrev two_lines : List Bytes
two_lines = codes "a" ∷ codes "bc" ∷ []

two_lines-ne : two_lines ≢ [] ∷ []
two_lines-ne e = cc

split_lines-ended_example :
    (split_lines (ended crlf two_lines) ≡ two_lines)
    × (split_lines (ended lf two_lines) ≡ two_lines)
split_lines-ended_example = split_lines-ended two_lines (refl, (refl, tt)) two_lines-ne

blank_lines :
    split_lines (codes "a" ++ (13 ∷ 10 ∷ 13 ∷ 10 ∷ codes "b")) ≡ codes "a" ∷ [] ∷ codes "b" ∷ []
unfolding split_lines
blank_lines = refl

abbrev any_json : Bytes → Bool
any_json b = true

abbrev marshal : List Bytes → Bytes
marshal lines = codes "[]"

abbrev result : FramedResult
result = record {
  meta = record { success = true; exit_code = pos 0; format = "lines"; truncated = false };
  output = codes "a";
  stderr = [];
  raw_prelude = [];
}

abbrev course : Course
course = record {
  expired = false;
  blocked_first = false;
  id = some (codes "0af3");
  starts = true;
  blocked_later = false;
  writes = true;
  selected = frame_read (framed result);
  context_first = false;
  elapsed_ms = 5;
}

run_command_lem_example :
    (((run_command any_json marshal "lines" course).1 ≡ some timed_out)
      ↔ ((run_command any_json marshal "lines" course).0.timed_out ≡ true))
    × ((run_command any_json marshal "lines" course).1 ≡ none
        → (r : FramedResult) × (course.selected ≡ frame_read (framed r))
          × ((run_command any_json marshal "lines" course).0
              ≡ to_api_result any_json marshal r course.elapsed_ms false)
          × (course.blocked_first ≡ false)
          × (course.blocked_later ≡ false)
          × (course.starts ≡ true))
run_command_lem_example = run_command_lem any_json marshal "lines" course
