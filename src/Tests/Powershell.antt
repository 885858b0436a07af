-- ===== src/Tests/Powershell.antt =====
-- internal/powershell and internal/updatescheduler at concrete inputs.
use windows_llmmanager.Base.{
  is_listed, ℕ, ◌+◌, ◌≤◌, ◌<◌, ◌≡◌, ◌≢◌, ◌⊎◌, refl, string_eq, ◌==◌, List, [], ◌∷◌, true, false,
  Option, none, some, length, take, ltb, arith, All,
}
use windows_llmmanager.Base.Int.{pos}
use windows_llmmanager.Base.Dict.{lookup, insert, erase, lookup-nil, lookup-insert_self}
use windows_llmmanager.Base.{nat_eq}
use windows_llmmanager.Base.Int
use windows_llmmanager.Api.{Bytes}
use windows_llmmanager.Text.{codes}
use windows_llmmanager.Powershell.Runner
use windows_llmmanager.Powershell.RunnerBlock
use windows_llmmanager.Scheduler
use windows_llmmanager.Powershell.Buffer.{concat, write_all, new_buffer, write_all-new_buffer}
use windows_llmmanager.Powershell.Frame.{
  FrameMeta, framed, begin_line, read_frame, encoded_len, frame_chunk_chars,
}
use windows_llmmanager.Powershell.Framing.{stream, prelude_of, read_frame-stream}
use windows_llmmanager.Powershell.Session.{
  SessionManager, new_session_manager, new_session, create, close_session, start_child,
}
use windows_llmmanager.Powershell.Owned.{IsAlive, Owner}
use windows_llmmanager.Powershell.Unlisted.{
  Unlocked, unlist, unlist_all, close_doomed, Reach, here, next, creates, unlists, closes,
}
use windows_llmmanager.Powershell.Unlisted.Through.{abort_each, unlist_all-through}
use windows_llmmanager.Powershell.Unlisted.Owners.{new_unlocked, Reach-owned}

write_all-new_buffer_example :
    let buf = write_all (codes "abc" ∷ codes "de" ∷ []) (new_buffer 4) in
    (buf.b ≡ take 4 (concat (codes "abc" ∷ codes "de" ∷ [])))
    × (buf.truncated ≡ ltb 4 (length (concat (codes "abc" ∷ codes "de" ∷ []))))
write_all-new_buffer_example = write_all-new_buffer 4 (codes "abc" ∷ codes "de" ∷ [])

-- A base64 that changes nothing, and metadata that are always the same.
abbrev decode64 : Bytes → Option Bytes
decode64 s = some s

abbrev meta : FrameMeta
meta = record { success = true; exit_code = Int.pos 0; format = "lines"; truncated = false }

abbrev decode_meta : Bytes → Option FrameMeta
decode_meta s = some meta

abbrev id : Bytes
id = codes "7f"

abbrev banner : List Bytes
banner = codes "PS>" ∷ []

abbrev outs : List Bytes
outs = codes "aGk" ∷ codes "hh" ∷ []

abbrev errs : List Bytes
errs = codes "b" ∷ []

banner-apart : All (λ line. line ≢ begin_line id) banner
unfolding begin_line
banner-apart = ((λ e. absurd (cc)), tt)

meta-named : meta.format == "" ≡ false
unfolding string_eq
meta-named = refl

outs-fit : length (concat outs) < encoded_len 10 + frame_chunk_chars
unfolding concat
outs-fit = omega arith

errs-fit : length (concat errs) < encoded_len 10 + frame_chunk_chars
unfolding concat
errs-fit = omega arith

read_frame-stream_example :
    read_frame decode64 decode_meta id 10 (stream id banner (codes "{}") outs errs []) false
    ≡ framed (record {
      meta = meta;
      output = concat outs;
      stderr = concat errs;
      raw_prelude = prelude_of 10 banner [];
    })
read_frame-stream_example =
    read_frame-stream decode64 decode_meta id 10 false banner (codes "{}") outs errs [] meta
      (concat outs) (concat errs) banner-apart refl meta-named outs-fit errs-fit refl refl

abbrev none_open : SessionManager
none_open = new_session_manager 2 (pos 1000)

none_open-fresh : lookup "s1" none_open.sessions ≡ none
unfolding new_session_manager lookup
none_open-fresh = refl

abbrev unlocked : Unlocked
unlocked = new_unlocked 2 (pos 1000)

-- A session is made and taken out of the map; it lives until the abort.
abbrev with_session : Unlocked
with_session = record unlocked { manager = (create (some "s1") true 5 unlocked.manager).0 }

to_session : Reach unlocked with_session
to_session = next here (creates "s1" true 5 none_open-fresh (lookup-nil {V = ℕ} "s1"))

unlist_all-through_example :
    let w = unlist_all with_session in
    let v = abort_each w.doomed w in
    (v.manager.sessions ≡ [])
    × (v.doomed ≡ [])
    × (v.dying ≡ [])
    × ((p : ℕ) → ¬ IsAlive v.manager.machine p)
unlist_all-through_example = unlist_all-through 2 (pos 1000) with_session to_session

-- A session that is deleted, where its process is still to be killed.
abbrev taken_out : Unlocked
taken_out = close_doomed "s1" (unlist "s1" with_session)

to_taken_out : Reach unlocked taken_out
to_taken_out = next (next to_session (unlists "s1")) (closes "s1")

still_lives : IsAlive taken_out.manager.machine 0
unfolding unlist close_doomed close_session create new_session lookup erase insert string_eq IsAlive
    new_session_manager start_child
still_lives = refl

Reach-owned_example :
    (length taken_out.manager.sessions ≤ taken_out.manager.max_sessions)
    × ((p : ℕ)
        → IsAlive taken_out.manager.machine p
        → Owner taken_out.manager.sessions taken_out.manager.machine p
          ⊎ (Owner taken_out.doomed taken_out.manager.machine p
              ⊎ (is_listed p taken_out.dying ≡ true)))
    × (taken_out.manager.sessions ≡ []
        → taken_out.doomed ≡ []
        → taken_out.dying ≡ []
        → (p : ℕ) → ¬ IsAlive taken_out.manager.machine p)
Reach-owned_example = Reach-owned 2 (pos 1000) taken_out to_taken_out

abbrev one_process : Scheduler.Scheduler
one_process = Scheduler.finish_launch true (Scheduler.begin_launch Scheduler.new_scheduler)

is_launching : (Scheduler.begin_launch Scheduler.new_scheduler).launching ≡ true
unfolding Scheduler.begin_launch Scheduler.new_scheduler
is_launching = refl

is_idle : Scheduler.new_scheduler.launching ≡ false
unfolding Scheduler.new_scheduler
is_idle = refl

to_one_process : Scheduler.Reach Scheduler.new_scheduler one_process
to_one_process =
    Scheduler.next (Scheduler.next (Scheduler.here _) (Scheduler.begins _ is_idle))
      (Scheduler.finishes true _ is_launching)

Reach-one_process_example :
    (one_process.processes ≤ 1)
    × ((0 < one_process.processes) → Scheduler.begin_launch one_process ≡ one_process)
Reach-one_process_example = Scheduler.Reach-one_process to_one_process

abbrev checked_once : Runner.Runner
checked_once = (Runner.check_blocked Runner.new_runner).0

abbrev started_once : Runner.Runner
started_once = Runner.start true checked_once

once_cleared : 0 < checked_once.cleared
unfolding Runner.check_blocked Runner.new_runner
once_cleared = omega arith

to_started : RunnerBlock.Reach Runner.new_runner started_once
to_started =
    RunnerBlock.next
      (RunnerBlock.next (RunnerBlock.here Runner.new_runner) (RunnerBlock.checks Runner.new_runner))
      (RunnerBlock.starts true checked_once once_cleared)

-- The child that is starting while the runner is blocked.
child_starting : lookup 0 (Runner.block_and_kill_all started_once).starting ≡ some tt
unfolding Runner.block_and_kill_all Runner.kill_active Runner.start Runner.check_blocked
    Runner.new_runner
child_starting = lookup-insert_self 0 tt []

abbrev entered : Runner.Runner
entered = (Runner.enter 0 (Runner.block_and_kill_all started_once)).0

block_and_kill_all-final_example :
    ((Runner.check_blocked entered).1 ≡ false)
    × ((p : ℕ) → RunnerBlock.IsAlive entered p → lookup p entered.starting ≡ some tt)
    × ((p : ℕ)
        → ((Runner.enter p entered).1 ≡ false) × ¬ RunnerBlock.IsAlive (Runner.enter p entered).0 p)
block_and_kill_all-final_example = RunnerBlock.block_and_kill_all-final to_started (
    RunnerBlock.next (RunnerBlock.here (Runner.block_and_kill_all started_once))
      (RunnerBlock.enters 0 (Runner.block_and_kill_all started_once) child_starting))
