-- ===== src/Agent/Run.antt =====
-- cmd/agent/main_windows.go: the command line of the agent, its log, and the console. The flags, the
-- configuration's file and what the service manager says are parameters.
use windows_llmmanager.Base.{
  String, string_eq, [], ◌∷◌, Bool, false, not, ◌&&◌, Option, none, some, if◌then◌else◌,
}
use windows_llmmanager.Base.Outcome.{Outcome, ok, err}
use windows_llmmanager.Api.{Bytes}
use windows_llmmanager.Disk.{Faults, Disk, appending, attempt, open_file}
use windows_llmmanager.Config.{Host, Config, ConfigError, loaded, refused, load}
use windows_llmmanager.Server.Serve.{Server}
use windows_llmmanager.Server.Start.{StartError, ListenError}
use windows_llmmanager.Agent.Token.{GenerateError, generate_token}

pub data AgentError : Type 0 where
  no_executable bad_flags no_logger no_service_mode : AgentError
  no_token : GenerateError → AgentError
  bad_config : ConfigError → AgentError

-- The command line: the paths and flags, and the file of the configuration.
pub record Invocation (Text : Type 0) : Type 0 where
  pub knows_path : Bool
  pub base_dir : String
  pub parses : Bool
  pub show_version : Bool
  pub gen_token : Bool
  pub force : Bool
  pub token_output : String
  pub console : Bool
  pub file : Option Text

-- What the command goes on with.
pub data Action : Type 0 where
  prints_version : Action
  prints_token : Bytes → Action
  runs_service runs_console : Config → Action

module _ (faults : Faults) (host : Host) where
  open host use {join}

  -- `makeLogger`
  unfoldable pub make_logger : String → Disk → Disk × Bool
  unfolding attempt open_file
  make_logger base_dir d =
      let (d1, made) = attempt faults d in
      if not made
      then (d1, false)
      else open_file faults appending (join (base_dir ∷ "logs" ∷ "agent.log" ∷ [])) d1

  -- `svc.IsWindowsService`, if it knows, and the choice behind it.
  unfoldable pub choose : Bool → Option Bool → Config → Outcome AgentError Action
  choose console none c = err no_service_mode
  choose console (some is_service) c =
      if is_service && not console then ok (runs_service c) else ok (runs_console c)

  module _ {Text : Type 0} (trim_bom : Text → Text)
      (decode : Config → Text → Option (Config × Bool)) where
    -- `run`, up to the service or the console.
    unfoldable pub run :
        Invocation Text → Option Bytes → Option Bool → Disk → Disk × Outcome AgentError Action
    unfolding generate_token make_logger choose load
    run i random service d =
        if not i.knows_path
        then (d, err no_executable)
        else if not i.parses
        then (d, err bad_flags)
        else if i.show_version
        then (d, ok prints_version)
        else if i.gen_token
        then (let (d1, token) = generate_token faults i.token_output i.force random d in
            (d1, elim token [ ok t ↦ ok (prints_token t) | err e ↦ err (no_token e) ]))
        else elim (load host trim_bom decode i.base_dir i.file) [
          | refused e ↦ (d, err (bad_config e))
          | loaded c ↦
              let (d1, logs) = make_logger i.base_dir d in
              (d1, if logs then choose i.console service c else err no_logger)
        ]

-- How the console ends: the HTTP server ends, or a signal comes, with the error of the `Shutdown` that
-- follows, if it has one.
pub data ConsoleEvent : Type 0 where
  server_ended : Option Bytes → ConsoleEvent
  interrupted : Option Bytes → ConsoleEvent

pub data ConsoleError : Type 0 where
  not_made : StartError → ConsoleError
  not_started : ListenError → ConsoleError
  server_failed not_shut_down : Bytes → ConsoleError

abbrev pub console_error : Option Bytes → Option ConsoleError
console_error none = none
console_error (some e) = some (server_failed e)

abbrev pub shutdown_error : Option Bytes → Option ConsoleError
shutdown_error none = none
shutdown_error (some e) = some (not_shut_down e)

-- `runConsole`, given what `New` and `Start` return, and the server as the event finds it: its
-- error, and the server that `Shutdown` is called on, if it is.
unfoldable pub run_console :
    Outcome StartError Server
    → Option ListenError
    → Server × ConsoleEvent
    → Option ConsoleError × Option Server
run_console (err e) failed event = (some (not_made e), none)
run_console (ok s) (some e) event = (some (not_started e), none)
run_console (ok s) none (p, server_ended e) = (console_error e, none)
run_console (ok s) none (p, interrupted e) = (shutdown_error e, some p)
