-- ===== src/Server/Life.antt =====
-- internal/server/server.go: the server from its start on, and behind the kill switch.
use windows_llmmanager.Base.{
  ℕ, ◌≤◌, ◌≡◌, inl, inr, String, string_eq, List, Bool, true, false, Option, some, Bool-cases,
  arith,
}
use windows_llmmanager.Base.Dict.{lookup}
use windows_llmmanager.Base.Int.{ℤ, pos, negsuc, pos_part, ◌≤ℤ◌}
use windows_llmmanager.Base.Outcome.{ok}
use windows_llmmanager.Api.{Bytes}
use windows_llmmanager.Config.{Config, job_retention, idle_timeout}
use windows_llmmanager.Config.Bounds.{IsUsable}
use windows_llmmanager.Jobs.Defs.{new_manager, blocked, err}
use windows_llmmanager.Jobs.Ops.{submit, running_at}
use windows_llmmanager.Jobs.Steps
use windows_llmmanager.Jobs.Steady
use windows_llmmanager.Jobs.Blocked.{runs_on_at}
use windows_llmmanager.Powershell.Owned.{IsAlive}
use windows_llmmanager.Powershell.Leaks
use windows_llmmanager.Updater.Host.{Stat}
use windows_llmmanager.Server.Requests.{is_killed, killswitch_active}
use windows_llmmanager.Server.Serve.{Request, Server, handle}
use windows_llmmanager.Server.Sound.{IsSound}
use windows_llmmanager.Server.Braked.{starts_something}
use windows_llmmanager.Server.Start.{new_state, new_server}

pos_part_mono : (a b : ℤ) → a ≤ℤ b → pos_part a ≤ pos_part b
pos_part_mono (pos n) (pos k) h = omega arith
pos_part_mono (pos n) (negsuc k) h = omega arith
pos_part_mono (negsuc n) (pos k) h = omega arith
pos_part_mono (negsuc n) (negsuc k) h = omega arith

new_server-state :
    (sha256 : Bytes → Bytes) (c : Config) (token : Option Bytes) (audit_log : Bool)
    (kill_file : Stat) (now : ℕ) (s : Server)
    → new_server sha256 c token audit_log kill_file now ≡ ok s
    → s.state ≡ new_state c kill_file
unfolding new_server
new_server-state sha256 c token true kill_file now s e = ground arith
new_server-state sha256 c token false kill_file now s e = ground arith

new_state-IsSound : (c : Config) (kill_file : Stat) → IsUsable c → IsSound (new_state c kill_file)
unfolding new_state
new_state-IsSound c kill_file u = record {
  jobs = elim (Bool-cases (is_killed kill_file)) [
    | inl k ↦ rw k (Steady.Step-IsSteady fresh (Steps.blocks "kill_switch"))
    | inr k ↦ rw k fresh
  ];
  sessions = Leaks.new_session_manager-IsValid (pos_part c.max_sessions) (idle_timeout c);
}
  where
    fresh :
        Steady.IsSteady
          (new_manager (pos_part c.max_async_jobs) (pos_part c.max_job_results) (job_retention c))
    fresh =
        Steady.new_manager-IsSteady _ _ _
          (pos_part_mono c.max_async_jobs c.max_job_results u.jobs.2)

pub new_server-IsSound :
    (sha256 : Bytes → Bytes) (c : Config) (token : Option Bytes) (audit_log : Bool)
    (kill_file : Stat) (now : ℕ) (s : Server)
    → IsUsable c
    → new_server sha256 c token audit_log kill_file now ≡ ok s
    → IsSound s.state
new_server-IsSound sha256 c token audit_log kill_file now s u e =
    rw (new_server-state sha256 c token audit_log kill_file now s e)
      (new_state-IsSound c kill_file u)

-- The runner is blocked, each job that the manager holds has ended, or it is being cancelled and its
-- context is cancelled, and a job is refused.
abbrev pub Contained : Server → Type 0
Contained q =
    (q.state.runner.blocked ≡ true)
    × ((id : String) (a : ℕ)
        → lookup id q.state.jobs.jobs ≡ some a
        → (running_at q.state.jobs.heap a ≡ false) × (runs_on_at q.state.jobs.heap a ≡ false))
    × ((id : String) (now : ℕ) (timeout : ℤ) (has_on_done : Bool)
        → (submit (some id) now timeout has_on_done q.state.jobs).1 ≡ err blocked)

module _ (json_valid : Bytes → Bool) (marshal_lines : List Bytes → Bytes)
    (sha256 : Bytes → Bytes) where
  -- The kill switch is armed, no child process of a session lives, and every request that would start
  -- something is answered 423.
  abbrev pub Stopped : Server → Type 0
  Stopped q =
      (is_killed q.state.kill_file ≡ true)
      × ((process : ℕ) → ¬ IsAlive q.state.sessions.machine process)
      × ((request : Request) (now : ℕ)
          → starts_something request ≡ true
          → (handle json_valid marshal_lines request now q).1 ≡ killswitch_active)
