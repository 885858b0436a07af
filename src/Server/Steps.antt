-- ===== src/Server/Steps.antt =====
-- internal/server/server.go: the server as it runs: requests, jobs that end, ticks of the sessions'
-- reaper and what the local operator does to the kill switch's file, in any order.
use windows_llmmanager.Base.{
  ℕ, ◌<◌, ◌≡◌, refl, List, [], Bool, true, false, Option, none, some, arith,
}
use windows_llmmanager.Api.{Bytes, ExecutionResult}
use windows_llmmanager.Jobs.Defs.{Snapshot, Manager, RunError}
use windows_llmmanager.Jobs.Ops.{active_at, run}
use windows_llmmanager.Jobs.Steady
use windows_llmmanager.Jobs.Steps
use windows_llmmanager.Powershell.Session.{SessionManager, reap, idle_ids, delete_all}
use windows_llmmanager.Powershell.Leaks
use windows_llmmanager.Server.Requests.{State}
use windows_llmmanager.Server.Handlers.{on_job_done}
use windows_llmmanager.Updater.Host.{Stat, not_there}
use windows_llmmanager.Server.Serve.{
  Request, post_exec, post_job, get_job, delete_job, post_session, post_session_exec,
  post_session_restart, get_session_info, delete_session, get_health, get_blocklist,
  delete_blocklist, post_kill_switch, Server, handle, Incoming, serve, serve-state,
}
use windows_llmmanager.Server.Sound.{IsSound, Drawn, handle-IsSound}
use windows_llmmanager.Server.Braked.{IsBraked, starts_something, handle-IsBraked}
use windows_llmmanager.Server.Blocked.{IsBlocked, handle-Reach, handle-runner}

abbrev pub reported : Option Snapshot → State → State
reported none s = s
reported (some final) s = on_job_done final s

-- A job's goroutine ends, and calls back.
unfoldable pub finished : ℕ → ExecutionResult → Option RunError → ℕ → State → State
unfolding run on_job_done
finished a result run_err now s =
    let (jobs, final) = run a result run_err now s.jobs in reported final (record s { jobs = jobs })

unfoldable pub reaped : ℕ → State → State
unfolding reap
reaped now s = record s { sessions = reap now s.sessions }

finished_parts :
    (a : ℕ) (result : ExecutionResult) (run_err : Option RunError) (now : ℕ) (s : State)
    → ((finished a result run_err now s).sessions ≡ s.sessions)
      × ((finished a result run_err now s).jobs ≡ (run a result run_err now s.jobs).0)
      × ((finished a result run_err now s).kill_file ≡ s.kill_file)
      × ((finished a result run_err now s).runner ≡ s.runner)
unfolding finished on_job_done
finished_parts a result run_err now s = ground arith

reap_none : (now : ℕ) (m : SessionManager) → m.sessions ≡ [] → reap now m ≡ m
unfolding reap idle_ids delete_all
reap_none now m e = rw e refl

module _ (json_valid : Bytes → Bool) (marshal_lines : List Bytes → Bytes)
    (sha256 : Bytes → Bytes) where
  -- A handler that has found the kill switch off goes on, whatever has happened since.
  unfoldable pub resumed : Request → ℕ → Server → Server
  unfolding handle
  resumed request now s =
      let p =
        (handle json_valid marshal_lines request now
          (record s { state = record s.state { kill_file = not_there } })).0 in
      record p { state = record p.state { kill_file = s.state.kill_file } }

  -- What happens to a server. A goroutine ends once, so its job is still active, and the clock is past
  -- Go's zero time. Only where the server is `disturbed`, the local operator makes or removes the file
  -- of the kill switch, and requests that have passed the test of the kill switch go on.
  pub data Step (disturbed : Bool) (s : Server) : Server → Type 0 where
    serves :
        (req : Incoming)
        → Drawn req.request s.state
        → Step disturbed s (serve json_valid marshal_lines sha256 req s).0
    finishes :
        (a : ℕ) (result : ExecutionResult) (run_err : Option RunError) (now : ℕ)
        → active_at s.state.jobs.heap a ≡ true
        → 0 < now
        → Step disturbed s (record s { state = finished a result run_err now s.state })
    reaps : (now : ℕ) → Step disturbed s (record s { state = reaped now s.state })
    alters :
        (kill_file : Stat)
        → disturbed ≡ true
        → Step disturbed s (record s { state = record s.state { kill_file = kill_file } })
    resumes :
        (request : Request) (now : ℕ)
        → disturbed ≡ true
        → starts_something request ≡ true
        → Drawn request s.state
        → Step disturbed s (resumed request now s)

  pub data Reach (disturbed : Bool) (s : Server) : Server → Type 0 where
    here : Reach disturbed s s
    next : {p q : Server} → Reach disturbed s p → Step disturbed p q → Reach disturbed s q

  IsSound-file :
      {s : State} → IsSound s → (kill_file : Stat) → IsSound (record s { kill_file = kill_file })
  IsSound-file v kill_file = record { jobs = v.jobs; sessions = v.sessions }

  Drawn-file :
      (request : Request) (s : State) (kill_file : Stat)
      → Drawn request s
      → Drawn request (record s { kill_file = kill_file })
  Drawn-file (post_exec body c) s kill_file d = d
  Drawn-file (post_job body id) s kill_file d = d
  Drawn-file (get_job id) s kill_file d = d
  Drawn-file (delete_job id) s kill_file d = d
  Drawn-file (post_session (some id) starts) s kill_file d = d
  Drawn-file (post_session none starts) s kill_file d = d
  Drawn-file (post_session_exec id body c starts elapsed_ms) s kill_file d = d
  Drawn-file (post_session_restart id starts) s kill_file d = d
  Drawn-file (get_session_info id) s kill_file d = d
  Drawn-file (delete_session id) s kill_file d = d
  Drawn-file get_health s kill_file d = d
  Drawn-file get_blocklist s kill_file d = d
  Drawn-file (delete_blocklist ip) s kill_file d = d
  Drawn-file (post_kill_switch writes) s kill_file d = d

  pub Step-IsSound :
      {disturbed : Bool} {s p : Server} → IsSound s.state → Step disturbed s p → IsSound p.state
  Step-IsSound {s = s} v (serves req d) =
      serve-state json_valid marshal_lines sha256 IsSound req s v (λ g e.
        handle-IsSound json_valid marshal_lines req.request req.now (record s { gate = g }) d v)
  Step-IsSound {s = s} v (finishes a result run_err now active t) =
      let (e, j, _, _) = finished_parts a result run_err now s.state in
      record {
        jobs = rw j (Steady.Step-IsSteady v.jobs (Steps.finishes a result run_err now active t));
        sessions = rw e v.sessions;
      }
  Step-IsSound {s = s} v (reaps now) =
      unfold reaped in
      record {
        jobs = v.jobs;
        sessions = Leaks.Step-IsValid (Leaks.reaps now s.state.sessions) v.sessions;
      }
  Step-IsSound v (alters kill_file _) = IsSound-file v kill_file
  Step-IsSound {s = s} v (resumes request now _ _ d) =
      unfold resumed in
      IsSound-file
        (handle-IsSound json_valid marshal_lines request now
          (record s { state = record s.state { kill_file = not_there } })
          (Drawn-file request s.state not_there d) (IsSound-file v not_there))
        s.state.kill_file

  -- Whatever happens to a server with well-formed jobs and sessions, they stay so.
  pub Reach-IsSound :
      {disturbed : Bool} {s p : Server} → IsSound s.state → Reach disturbed s p → IsSound p.state
  Reach-IsSound v here = v
  Reach-IsSound v (next r t) = Step-IsSound (Reach-IsSound v r) t

  IsBlocked-file :
      {m : Manager} {s : State}
      → IsBlocked m s
      → (kill_file : Stat) → IsBlocked m (record s { kill_file = kill_file })
  IsBlocked-file b kill_file = record { runner_blocked = b.runner_blocked; reached = b.reached }

  -- Whatever happens, the jobs change as by methods of their manager.
  pub Step-jobs :
      (m : Manager) {disturbed : Bool} {s p : Server}
      → Steps.Reach m s.state.jobs
      → Step disturbed s p
      → Steps.Reach m p.state.jobs
  Step-jobs m {s = s} r (serves req d) =
      serve-state json_valid marshal_lines sha256 (λ p. Steps.Reach m p.jobs) req s r
        (λ g e.
          handle-Reach json_valid marshal_lines m req.request req.now (record s { gate = g }) d r)
  Step-jobs m {s = s} r (finishes a result run_err now active t) =
      let (_, j, _, _) = finished_parts a result run_err now s.state in
      rw j (Steps.next r (Steps.finishes a result run_err now active t))
  Step-jobs m r (reaps now) = unfold reaped in r
  Step-jobs m r (alters kill_file _) = r
  Step-jobs m {s = s} r (resumes request now _ _ d) =
      unfold resumed in
      handle-Reach json_valid marshal_lines m request now
        (record s { state = record s.state { kill_file = not_there } })
        (Drawn-file request s.state not_there d) r

  Step-runner :
      {disturbed : Bool} {s p : Server}
      → s.state.runner.blocked ≡ true
      → Step disturbed s p
      → p.state.runner.blocked ≡ true
  Step-runner {s = s} b (serves req d) =
      serve-state json_valid marshal_lines sha256 (λ p. p.runner.blocked ≡ true) req s b
        (λ g e.
          handle-runner json_valid marshal_lines req.request req.now (record s { gate = g }) b)
  Step-runner {s = s} b (finishes a result run_err now active t) =
      let (_, _, _, r) = finished_parts a result run_err now s.state in rw r b
  Step-runner b (reaps now) = unfold reaped in b
  Step-runner b (alters kill_file _) = b
  Step-runner {s = s} b (resumes request now _ _ d) =
      unfold resumed in
      handle-runner json_valid marshal_lines request now
        (record s { state = record s.state { kill_file = not_there } }) b

  pub Reach-IsBlocked :
      (m : Manager) {disturbed : Bool} {s p : Server}
      → IsBlocked m s.state
      → Reach disturbed s p
      → IsBlocked m p.state
  Reach-IsBlocked m b here = b
  Reach-IsBlocked m b (next r t) =
      let before = Reach-IsBlocked m b r in
      record {
        runner_blocked = Step-runner before.runner_blocked t;
        reached = Step-jobs m before.reached t;
      }

  Step-IsBraked :
      (m : Manager) {s p : Server} → IsBraked m s.state → Step false s p → IsBraked m p.state
  Step-IsBraked m {s} b (serves req d) =
      serve-state json_valid marshal_lines sha256 (IsBraked m) req s b (λ g e.
        handle-IsBraked json_valid marshal_lines m req.request req.now (record s { gate = g }) b)
  Step-IsBraked m {s} b (finishes a result run_err now active t) =
      let (e, j, k, r) = finished_parts a result run_err now s.state in
      record {
        killed = rw k b.killed;
        runner_blocked = rw r b.runner_blocked;
        reached = rw j (Steps.next b.reached (Steps.finishes a result run_err now active t));
        no_sessions = rw e b.no_sessions;
        none_alive = rw e b.none_alive;
      }
  Step-IsBraked m {s} b (reaps now) =
      unfold reaped in
      record {
        killed = b.killed;
        runner_blocked = b.runner_blocked;
        reached = b.reached;
        no_sessions = rw (reap_none now s.state.sessions b.no_sessions) b.no_sessions;
        none_alive = rw (reap_none now s.state.sessions b.no_sessions) b.none_alive;
      }
  Step-IsBraked m b (alters kill_file d) = absurd (cc)
  Step-IsBraked m b (resumes request now d _ _) = absurd (cc)

  pub Reach-IsBraked :
      (m : Manager) {s p : Server} → IsBraked m s.state → Reach false s p → IsBraked m p.state
  Reach-IsBraked m b here = b
  Reach-IsBraked m b (next r t) = Step-IsBraked m (Reach-IsBraked m b r) t
