-- ===== src/Lib.antt =====
-- WindowsLLMManager: an agent that runs PowerShell commands on a Windows machine for remote clients,
-- and an updater that replaces it.
--
-- The parts and how they meet. A request comes in through the middleware of internal/server/server.go,
-- which asks the blocklist, the rate limiter and the token authentication of internal/security. Behind
-- it, handlers run commands with internal/powershell/runner.go, submit jobs to
-- internal/jobs/manager.go and open sessions with internal/powershell/session.go, and write what they
-- did to the log of internal/audit/logger.go. A command goes to its child process inside the text of
-- internal/powershell/wrapper.go; the output is read as a frame by internal/powershell/frame.go, error
-- text is kept within bounds by internal/powershell/buffer.go. The limits of all of them come from
-- internal/config/config.go. The kill switch blocks jobs and the runner and ends sessions. The
-- certificate that the server presents comes from cmd/pki/main.go.
-- internal/updatescheduler/scheduler.go starts the updater from time to time, and
-- internal/updater/update.go checks for a release, verifies it and installs it. cmd/agent/main_windows.go
-- and cmd/updater/main.go start the two.
--
-- Which file models which part:
--   Base, Base/*             shared helpers, no code of the repository
--   Text                     the functions of strings, bytes and crypto/subtle that are called
--   Api                      internal/api/types.go
--   Config, Config/Bounds    internal/config/config.go
--   Disk, Disk/Kept          files, where every call of the system may fail
--   Agent/Token              generateToken of cmd/agent/main_windows.go
--   Agent/Service, Run       its service, Execute, its command line and its console
--   Audit                    internal/audit/logger.go: Write is `write_event`, rotateIfNeeded
--                            `rotate_if_needed`
--   Audit/Rotation, History  what one call of Write leaves, and what many leave
--   Pki/Names                splitCSV and uniqueStrings of cmd/pki/main.go
--   Pki/Defs, Output, Commands        the commands of cmd/pki/main.go: initCA is `init_ca`
--   Pki/Keeping, Overwrite, Chain     what the commands keep and what they leave
--   Jobs/Defs, Jobs/Ops      internal/jobs/manager.go: Submit, run, Get, Cancel, CancelAll,
--                            BlockAndCancelAll and the prunings are `submit`, `run`, `get`, `cancel`,
--                            `cancel_all`, `block_and_cancel_all`, `prune_expired_locked` and
--                            `prune_capacity_locked`; the other files of Jobs prove
--   Powershell/Buffer        internal/powershell/buffer.go
--   Powershell/Frame         internal/powershell/frame.go: readFrame is `read_frame`
--   Powershell/Framing       the reader against what the wrapper prints
--   Powershell/Wrapper       internal/powershell/wrapper.go: buildWrapper is `build_wrapper`
--   Powershell/Inert         how a command stands in the wrapper
--   Powershell/Results       Run of internal/powershell/runner.go as one call, toAPIResult, splitLines
--   Powershell/Lines         splitLines against the lines of a text
--   Powershell/Session       internal/powershell/session.go: Create, Delete, KillAll, restartLocked,
--                            Abort, Exec and a tick of reapLoop
--   Powershell/Owned, Killed, Leaks   the owners of the child processes
--   Powershell/Unlisted      Delete, KillAll and Abort in halves, before and after each unlocking;
--                            Unlisted/Kept, Owners and Through prove
--   Powershell/Runner, RunnerBlock    internal/powershell/runner.go: the sections of Run under the
--                            mutex, KillAll and BlockAndKillAll
--   Scheduler                internal/updatescheduler/scheduler.go
--   Security/Blocklist, Standing      internal/security/blocklist.go and its specification
--   Security/RateLimiter, Rates       internal/security/ratelimit.go
--   Security/Auth            internal/security/auth.go
--   Security/ClientIp        internal/security/clientip.go
--   Server/Gate              securityMiddleware of internal/server/server.go
--   Server/Requests          bodies, answers and the state behind the middleware
--   Server/Handlers, Brake   handlers of jobs, of the sessions' life and of the kill switch
--   Server/Exec              handlers of commands, of restart and info, of health and the blocklist,
--                            with Exec and Info of internal/powershell/session.go
--   Server/Serve             a request on its way to its handler
--   Server/Start             New, Start and the calls of Shutdown
--   Server/Parts, Sound      what a handler changes, and that jobs and sessions stay well-formed
--   Server/Braked, Blocked   what a handler does once the kill switch is armed
--   Server/Steps, Life       requests, jobs that end, reaped sessions and what becomes of the kill
--                            switch's file in any order, from New on
--   Updater/Config           internal/updater/config.go
--   Updater/Run              cmd/updater/main.go
--   Updater/Version, Ordering         internal/updater/version.go
--   Updater/EqualBytes, Verify        internal/updater/verify.go
--   Updater/Host             the files and the service of the machine
--   Updater/Update, Check    internal/updater/update.go and the download of github.go
--   Updater/Moves, Rollback, Install, Files, Fetched, Accepts, Safety, Newer   what an update leaves
--   Tests/*                  concrete runs
--
-- Conventions. State is passed explicitly. An object that goroutines share is an address in a heap (jobs,
-- sessions), and what goroutines do is a step of a relation, one step for each stretch under a lock.
-- For the sessions' `Delete`, `KillAll` and `Abort` Powershell/Unlisted does so; elsewhere they and what
-- they do after unlocking are one step, as are the jobs' `Cancel` and the call of the cancel function. A
-- map of Go is an association list whose order is that of a `range` loop, and the results hold for every
-- order.
-- Times are numbers of nanoseconds. Numbers that the code keeps non-negative are naturals; durations
-- wrap around as an int64 does; the rate limiter counts exact billionths of a token, not a float64.
-- White space is that of ASCII.
--
-- Fuel. `shrink`, the loop of pruneCapacityLocked, has fuel, one more than the size of the map: a round
-- that goes on deletes an entry. `digits_after`, which prints a number n in base ten, has n + 1: a digit
-- divides the number by ten. Every other loop is structural recursion.
--
-- Failures. The n-th call of the system fails where a function of n says so, and a failed write leaves
-- what another such function says, so a theorem covers every pattern of failures.
--
-- Parameters. SHA-256, signatures, certificates and their encodings, zip, decoding of base64 and JSON,
-- the package net, the flag package, the network, the output of child processes, the clock and
-- randomness are arguments. Random names and identifiers are taken to be new where a theorem says so.
-- The encoding in base64 and Sprintf, as the wrapper uses them, are written out.
--
-- Not modelled: the TLS listener and the HTTP server under the handlers, the texts of error messages, time limits on whole runs, and the glue to Windows services and
-- processes. Server/Steps takes requests one by one, but for those that go on behind their test of the
-- kill switch, and the local operator may set or remove its file between any two steps; handlers that run
-- at the same time come no closer there. The managers under it are modelled as interleaved steps.
mod Base
pub mod Text
pub mod Api
pub mod Agent
pub mod Audit
pub mod Disk
pub mod Config
pub mod Jobs
pub mod Pki
pub mod Powershell
pub mod Scheduler
pub mod Security
pub mod Server
pub mod Updater
mod Tests
