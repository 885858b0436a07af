-- ===== src/Powershell/Session.antt =====
-- internal/powershell/session.go: the persistent sessions and their manager. Sessions are shared
-- objects: the map and the callers hold addresses in a heap. A child process is a number, and the
-- machine says of each number whether it is alive; starting one may fail. Every method is one step:
-- it holds the mutex of what it reads and writes. Times are in nanoseconds.
use windows_llmmanager.Base.{
  ℕ, ◌*◌, ◌/◌, ◌<◌, ◌≤◌, arith, String, string_eq, List, [], ◌∷◌, ◌++◌, Bool, true, false, not,
  Option, none, some, get_elem?, set, length, leb, ltb, if◌then◌else◌,
}
use windows_llmmanager.Base.Dict.{Dict, lookup, insert, erase}
use windows_llmmanager.Base.Int.{ℤ, pos, pos_part, sub_ℕ, ltb_ℤ}
use windows_llmmanager.Base.Outcome.{Outcome, ok, err}
use windows_llmmanager.Config.{second}

pub data SessionError : Type 0 where
  session_not_found session_limit random_failed start_failed : SessionError
  shell_exited exec_timed_out : Bool → SessionError

pub record Session : Type 0 where
  pub id : String
  pub created_at : ℕ
  pub process : Option ℕ
  pub last_used : ℕ
  pub busy : Bool
  pub closed : Bool

-- The sessions in memory, and which child processes live.
pub record Machine : Type 0 where
  pub heap : List Session
  pub alive : List Bool

pub record SessionManager : Type 0 where
  pub sessions : Dict String ℕ
  pub max_sessions : ℕ
  pub idle_timeout : ℤ
  pub machine : Machine

unfoldable pub new_session_manager : ℕ → ℤ → SessionManager
new_session_manager max_sessions idle_timeout = record {
  sessions = [];
  max_sessions = max_sessions;
  idle_timeout = idle_timeout;
  machine = record { heap = []; alive = [] };
}

-- `startChild`, where it does not fail: the number of the new process.
unfoldable pub start_child : Machine → Machine × ℕ
start_child m = (record m { alive = m.alive ++ true ∷ [] }, length m.alive)

unfoldable pub kill : ℕ → Machine → Machine
kill p m = record m { alive = set m.alive p false }

abbrev pub kill_process : Option ℕ → Machine → Machine
kill_process none m = m
kill_process (some p) m = kill p m

-- `newSession`, where the child starts.
unfoldable pub new_session : String → ℕ → ℕ → Session
new_session id now p = record {
  id = id;
  created_at = now;
  process = some p;
  last_used = now;
  busy = false;
  closed = false;
}

-- `Create`, given what `randomID` returns and whether the child starts.
unfoldable pub create :
    Option String → Bool → ℕ → SessionManager → SessionManager × Outcome SessionError ℕ
unfolding start_child new_session
create id starts now m =
    if leb m.max_sessions (length m.sessions) then (m, err session_limit) else elim id [
      | none ↦ (m, err random_failed)
      | some name ↦
          if not starts
          then (m, err start_failed)
          else let (machine, p) = start_child m.machine in
            let a = length machine.heap in
            (
              record m {
                sessions = insert name a m.sessions;
                machine = record machine { heap = machine.heap ++ new_session name now p ∷ [] };
              },
              ok a,
            )
    ]

-- `Get`
unfoldable pub get_session : String → SessionManager → Outcome SessionError ℕ
get_session id m = elim (lookup id m.sessions) [ none ↦ err session_not_found | some a ↦ ok a ]

-- `Abort` of the session at an address, up to the unlocking of its state, with the process that it
-- kills behind that.
unfoldable pub close_session : ℕ → Machine → Machine × Option ℕ
close_session a m = elim (get_elem? m.heap a) [
  | none ↦ (m, none)
  | some s ↦ if s.closed then (m, none) else (
    record m { heap = set m.heap a (record s { closed = true; process = none }) },
    s.process,
  )
]

-- `Abort`, where no other call comes between; Unlisted has it in its two halves.
unfoldable pub abort : ℕ → Machine → Machine
unfolding close_session kill
abort a m = let (closed, process) = close_session a m in kill_process process closed

-- `Delete`
unfoldable pub delete : String → SessionManager → SessionManager × Bool
unfolding abort
delete id m = elim (lookup id m.sessions) [
  | none ↦ (m, false)
  | some a ↦ (record m { sessions = erase id m.sessions; machine = abort a m.machine }, true)
]

unfoldable pub abort_all : Dict String ℕ → Machine → Machine
unfolding abort
abort_all [] m = m
abort_all ((_, a) ∷ d) m = abort_all d (abort a m)

unfoldable pub kill_all : SessionManager → SessionManager
unfolding abort_all
kill_all m = record m { sessions = []; machine = abort_all m.sessions m.machine }

-- `restartLocked` of the session at an address, given whether the child starts.
unfoldable pub restart_locked : ℕ → Bool → ℕ → Machine → Machine × Bool
unfolding kill start_child
restart_locked a starts now m = elim (get_elem? m.heap a) [
  | none ↦ (m, false)
  | some s ↦
      if s.closed
      then (m, false)
      else let killed = kill_process s.process m in
        if not starts
        then (record killed { heap = set killed.heap a (record s { process = none }) }, false)
        else let (started, p) = start_child killed in
          (
            record started {
              heap = set started.heap a (record s { process = some p; last_used = now });
            },
            true,
          )
]

-- `Exec` up to the write of the command: the process that it writes to.
unfoldable pub begin_exec : ℕ → ℕ → Machine → Machine × Outcome SessionError ℕ
begin_exec a now m = elim (get_elem? m.heap a) [
  | none ↦ (m, err session_not_found)
  | some s ↦ if s.closed then (m, err session_not_found) else elim s.process [
    | none ↦ (m, err session_not_found)
    | some p ↦ (record m { heap = set m.heap a (record s { busy = true; last_used = now }) }, ok p)
  ]
]

-- The deferred end of `Exec`.
unfoldable pub end_exec : ℕ → ℕ → Machine → Machine
end_exec a now m = elim (get_elem? m.heap a) [
  | none ↦ m
  | some s ↦ record m { heap = set m.heap a (record s { busy = false; last_used = now }) }
]

-- What a write and the frame come to.
pub data ExecEvent : Type 0 where
  write_failed timed_out frame_failed framed : ExecEvent

-- `Exec` from the write on, to the process that `begin_exec` found. A failed write restarts without
-- killing first, since `restartLocked` kills.
unfoldable pub settle_exec : ℕ → ℕ → ExecEvent → Bool → ℕ → Machine → Machine × Option SessionError
unfolding restart_locked kill
settle_exec a p write_failed starts now m =
    let (m1, restarted) = restart_locked a starts now m in (m1, some (shell_exited restarted))
settle_exec a p timed_out starts now m =
    let (m1, restarted) = restart_locked a starts now (kill p m) in
    (m1, some (exec_timed_out restarted))
settle_exec a p frame_failed starts now m =
    let (m1, restarted) = restart_locked a starts now (kill p m) in
    (m1, some (shell_exited restarted))
settle_exec a p framed starts now m = (m, none)

-- `IdleFor`, which is negative where the clock of the tick is behind.
unfoldable pub idle_for : Session → ℕ → ℤ
idle_for s now = if s.busy then pos 0 else sub_ℕ now s.last_used

-- A tick of `reapLoop`: the identifiers that it collects, and the deletions.
unfoldable pub idle_ids : ℕ → ℤ → List Session → Dict String ℕ → List String
unfolding idle_for
idle_ids now idle_timeout heap [] = []
idle_ids now idle_timeout heap ((id, a) ∷ d) =
    let rest = idle_ids now idle_timeout heap d in
    elim (get_elem? heap a) [
      | none ↦ rest
      | some s ↦ if ltb_ℤ idle_timeout (idle_for s now) then id ∷ rest else rest
    ]

unfoldable pub delete_all : List String → SessionManager → SessionManager
unfolding delete
delete_all [] m = m
delete_all (id ∷ ids) m = delete_all ids (delete id m).0

unfoldable pub reap : ℕ → SessionManager → SessionManager
unfolding idle_ids delete_all
reap now m = delete_all (idle_ids now m.idle_timeout m.machine.heap m.sessions) m

-- The time between two ticks of `reapLoop`: half the idle timeout, from a second to a minute. A negative
-- timeout counts as 0 here, since its half is below a second either way.
unfoldable pub reap_interval : ℤ → ℕ
reap_interval idle_timeout =
    let half = pos_part idle_timeout / 2 in
    let capped = if ltb (60 * second) half then 60 * second else half in
    if ltb capped second then second else capped

-- The interval is positive, as a ticker needs it, at most a minute, and at most half the timeout where
-- that is at least two seconds.
pub reap_interval_bounds :
    (idle_timeout : ℤ)
    → (0 < reap_interval idle_timeout)
      × (reap_interval idle_timeout ≤ 60 * second)
      × (2 * second ≤ pos_part idle_timeout
          → 2 * reap_interval idle_timeout ≤ pos_part idle_timeout)
unfolding reap_interval
reap_interval_bounds idle_timeout = ground arith
