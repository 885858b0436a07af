-- ===== src/Agent/Service.antt =====
-- cmd/agent/main_windows.go: the Windows service, `Execute`, and the console. The requests of the
-- service manager and the end of the HTTP server come with the server as they find it.
use windows_llmmanager.Base.Int.{ℤ}
use windows_llmmanager.Base.{
  ℕ, ◌≡◌, refl, String, string_eq, List, [], ◌∷◌, Bool, true, false, not, ◌||◌, Option, none, some,
  length, if◌then◌else◌, All,
}
use windows_llmmanager.Base.Dict.{lookup}
use windows_llmmanager.Base.Outcome.{Outcome, ok, err}
use windows_llmmanager.Api.{Bytes}
use windows_llmmanager.Text.{codes, cut_prefix}
use windows_llmmanager.Config.{Config}
use windows_llmmanager.Config.Bounds.{IsUsable}
use windows_llmmanager.Jobs.Ops.{submit, running_at, close}
use windows_llmmanager.Jobs.Defs.{blocked}
use windows_llmmanager.Jobs.Defs
use windows_llmmanager.Jobs.Steady
use windows_llmmanager.Jobs.Steps
use windows_llmmanager.Jobs.Blocked.{runs_on_at, block_and_cancel_all_final}
use windows_llmmanager.Powershell.Owned.{IsAlive}
use windows_llmmanager.Powershell.Leaks
use windows_llmmanager.Security.Blocklist.{is_some}
use windows_llmmanager.Updater.Host.{Stat}
use windows_llmmanager.Server.Requests.{State}
use windows_llmmanager.Server.Serve.{Server}
use windows_llmmanager.Server.Sound.{IsSound}
use windows_llmmanager.Server.Start.{
  StartError, ListenError, new_server, close_jobs, close_sessions, kill_runs,
}
use windows_llmmanager.Server.Steps.{Step, Step-IsSound, Reach, Reach-IsSound, Step-jobs}
use windows_llmmanager.Server.Life.{new_server-IsSound}

-- The commands of the service manager.
pub data Command : Type 0 where
  interrogate stop shut_down other : Command

-- What the service reports; `current` is the status that an interrogation brings with it.
pub data ServiceStatus : Type 0 where
  start_pending running stop_pending current : ServiceStatus

pub data ServiceEvent : Type 0 where
  server_ended : Option Bytes → ServiceEvent
  requested : Command → ServiceEvent

-- The exit code, and the server that `Shutdown` was called on before the exit, if it was.
pub record Exit : Type 0 where
  pub code : ℕ
  pub shuts_down : Option Server

-- `strings.Contains`
unfoldable pub contains_text : Bytes → Bytes → Bool
unfolding cut_prefix
contains_text [] sub = is_some (cut_prefix sub [])
contains_text (c ∷ s) sub = is_some (cut_prefix sub (c ∷ s)) || contains_text s sub

abbrev pub exit_code : Option Bytes → ℕ
exit_code none = 0
exit_code (some e) = if not (contains_text e (codes "Server closed")) then 1 else 0

-- The loop of `Execute`.
unfoldable pub service_loop : List (Server × ServiceEvent) → List ServiceStatus × Option Exit
unfolding contains_text
service_loop [] = ([], none)
service_loop ((s, server_ended e) ∷ later) =
    ([], some (record { code = exit_code e; shuts_down = none }))
service_loop ((s, requested interrogate) ∷ later) =
    let (statuses, exit) = service_loop later in (current ∷ statuses, exit)
service_loop ((s, requested stop) ∷ later) =
    (stop_pending ∷ [], some (record { code = 0; shuts_down = some s }))
service_loop ((s, requested shut_down) ∷ later) =
    (stop_pending ∷ [], some (record { code = 0; shuts_down = some s }))
service_loop ((s, requested other) ∷ later) = service_loop later

abbrev failed_start : List ServiceStatus × Option Exit
failed_start = (start_pending ∷ [], some (record { code = 1; shuts_down = none }))

-- `Execute`, given what `New` and `Start` return.
unfoldable pub execute :
    Outcome StartError Server
    → Option ListenError
    → List (Server × ServiceEvent)
    → List ServiceStatus × Option Exit
unfolding service_loop
execute (err e) failed events = failed_start
execute (ok s) (some e) events = failed_start
execute (ok s) none events =
    let (statuses, exit) = service_loop events in (start_pending ∷ running ∷ statuses, exit)

is_stop_pending : ServiceStatus → Bool
is_stop_pending stop_pending = true
is_stop_pending _ = false

-- The service has reported that it stops.
unfoldable pub reports_stop : List ServiceStatus → Bool
reports_stop [] = false
reports_stop (stop_pending ∷ statuses) = true
reports_stop (_ ∷ statuses) = reports_stop statuses

-- How far `Shutdown` has come, to the call of `httpServer.Shutdown` and beyond.
pub data Phase : Type 0 where
  jobs_closed sessions_closed runs_killed : Phase

-- Each job that the manager holds has ended, or it is being cancelled and its context is cancelled, a
-- job is refused, and no job has come to those of `s`.
abbrev pub IsClosed : Server → Server → Type 0
IsClosed s q =
    ((id : String) (a : ℕ)
      → lookup id q.state.jobs.jobs ≡ some a
      → (running_at q.state.jobs.heap a ≡ false) × (runs_on_at q.state.jobs.heap a ≡ false))
    × ((id : String) (now : ℕ) (timeout : ℤ) (has_on_done : Bool)
        → (submit (some id) now timeout has_on_done q.state.jobs).1 ≡ Defs.err blocked)
    × (length q.state.jobs.heap ≡ length s.state.jobs.heap)

close_sessions_jobs : (s : State) → (close_sessions s).jobs ≡ s.jobs
unfolding close_sessions
close_sessions_jobs s = refl

kill_runs_jobs : (s : State) → (kill_runs s).jobs ≡ s.jobs
unfolding kill_runs
kill_runs_jobs s = refl

module _ (json_valid : Bytes → Bool) (marshal_lines : List Bytes → Bytes)
    (sha256 : Bytes → Bytes) where
  -- `Shutdown` of a server, which serves requests all the while, also behind its calls.
  pub data ShuttingDown (s : Server) : Phase → Server → Type 0 where
    closes_jobs : ShuttingDown s jobs_closed (record s { state = close_jobs s.state })
    closes_sessions :
        {p : Server}
        → ShuttingDown s jobs_closed p
        → ShuttingDown s sessions_closed (record p { state = close_sessions p.state })
    kills_runs :
        {p : Server}
        → ShuttingDown s sessions_closed p
        → ShuttingDown s runs_killed (record p { state = kill_runs p.state })
    goes_on :
        {phase : Phase} {p q : Server}
        → ShuttingDown s phase p
        → Step json_valid marshal_lines sha256 true p q
        → ShuttingDown s phase q

  ShuttingDown-Reach :
      {s : Server} {phase : Phase} {p : Server}
      → ShuttingDown s phase p
      → Steps.Reach (close s.state.jobs) p.state.jobs
  ShuttingDown-Reach closes_jobs = unfold close_jobs in Steps.here
  ShuttingDown-Reach (closes_sessions {p} r) =
      rw (close_sessions_jobs p.state) (ShuttingDown-Reach r)
  ShuttingDown-Reach (kills_runs {p} r) = rw (kill_runs_jobs p.state) (ShuttingDown-Reach r)
  ShuttingDown-Reach {s} (goes_on r t) =
      Step-jobs json_valid marshal_lines sha256 (close s.state.jobs) (ShuttingDown-Reach r) t

  ShuttingDown-IsClosed :
      {s : Server} {phase : Phase} {q : Server}
      → IsSound s.state
      → ShuttingDown s phase q
      → IsClosed s q
  unfolding close
  ShuttingDown-IsClosed {s} v r =
      let (refused, heap, none_runs) =
        block_and_cancel_all_final "server_shutdown" s.state.jobs v.jobs (ShuttingDown-Reach r) in
      (none_runs, refused, heap)

  ShuttingDown-IsSound :
      {s : Server} {phase : Phase} {q : Server}
      → IsSound s.state
      → ShuttingDown s phase q
      → IsSound q.state
  unfolding close_jobs close_sessions kill_runs close
  ShuttingDown-IsSound v closes_jobs = record {
    jobs = Steady.Step-IsSteady v.jobs (Steps.blocks "server_shutdown");
    sessions = v.sessions;
  }
  ShuttingDown-IsSound v (closes_sessions {p} r) =
      let w = ShuttingDown-IsSound v r in
      record {
        jobs = w.jobs;
        sessions = Leaks.Step-IsValid (Leaks.kills_all p.state.sessions) w.sessions;
      }
  ShuttingDown-IsSound v (kills_runs r) =
      let w = ShuttingDown-IsSound v r in record { jobs = w.jobs; sessions = w.sessions }
  ShuttingDown-IsSound v (goes_on r t) =
      Step-IsSound json_valid marshal_lines sha256 (ShuttingDown-IsSound v r) t

  -- The sessions are closed where the jobs are, and then none of their processes lives.
  close_sessions-none :
      {s q : Server}
      → IsSound s.state
      → ShuttingDown s jobs_closed q
      → (process : ℕ) → ¬ IsAlive (close_sessions q.state).sessions.machine process
  unfolding close_sessions
  close_sessions-none {s} {q} v r =
      (Leaks.kill_all_lem q.state.sessions (ShuttingDown-IsSound v r).sessions).0

  -- Whatever comes first, a loop that reports the stop ends with code 0 and calls `Shutdown` on the
  -- server of one of its events.
  service_loop-stops :
      (events : List (Server × ServiceEvent))
      → All (λ e. IsSound e.0.state) events
      → reports_stop (service_loop events).0 ≡ true
      → (s : Server) × ((service_loop events).1 ≡ some (record { code = 0; shuts_down = some s }))
        × IsSound s.state
  unfolding service_loop reports_stop
  service_loop-stops [] v h = absurd (cc)
  service_loop-stops ((s, server_ended e) ∷ later) v h = absurd (cc)
  service_loop-stops ((s, requested interrogate) ∷ later) v h = service_loop-stops later v.1 h
  service_loop-stops ((s, requested stop) ∷ later) v h = (s, refl, v.0)
  service_loop-stops ((s, requested shut_down) ∷ later) v h = (s, refl, v.0)
  service_loop-stops ((s, requested other) ∷ later) v h = service_loop-stops later v.1 h

  All-IsSound :
      (s : Server) (events : List (Server × ServiceEvent))
      → IsSound s.state
      → All (λ e. Reach json_valid marshal_lines sha256 true s e.0) events
      → All (λ e. IsSound e.0.state) events
  All-IsSound s [] v r = tt
  All-IsSound s (e ∷ events) v r =
      (Reach-IsSound json_valid marshal_lines sha256 v r.0, All-IsSound s events v r.1)

  -- Under a usable configuration, where every event finds the server in a state that it has come to
  -- since its start: a service that reports that it stops ends with code 0 and calls `Shutdown`. From
  -- then on, whatever requests are served between the calls of `Shutdown` and behind them, and whatever
  -- the local operator does, every job that the manager holds has ended or is being cancelled with its
  -- context cancelled, a job is refused, and none is made; and the call that closes the sessions leaves
  -- none of their processes alive.
  pub execute-stops :
      (c : Config) (token : Option Bytes) (audit_log : Bool) (kill_file : Stat) (now : ℕ)
      (failed : Option ListenError) (s : Server) (events : List (Server × ServiceEvent))
      → IsUsable c
      → new_server sha256 c token audit_log kill_file now ≡ ok s
      → All (λ e. Reach json_valid marshal_lines sha256 true s e.0) events
      → reports_stop (execute (ok s) failed events).0 ≡ true
      → (p : Server) × ((execute (ok s) failed events).1
          ≡ some (record { code = 0; shuts_down = some p }))
        × ((phase : Phase) (q : Server) → ShuttingDown p phase q → IsClosed p q)
        × ((q : Server)
            → ShuttingDown p jobs_closed q
            → (process : ℕ) → ¬ IsAlive (close_sessions q.state).sessions.machine process)
  unfolding execute reports_stop
  execute-stops c token audit_log kill_file now (some l) s events u e r h = absurd (cc)
  execute-stops c token audit_log kill_file now none s events u e r h =
      let start = new_server-IsSound sha256 c token audit_log kill_file now s u e in
      let (p, exit, v) = service_loop-stops events (All-IsSound s events start r) h in
      (p, exit, (λ phase q d. ShuttingDown-IsClosed v d), (λ q d. close_sessions-none v d))
