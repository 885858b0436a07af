-- ===== src/Updater/Host.antt =====
-- The Windows machine that internal/updater runs on: files, the agent's service, and what can go wrong.
-- Package `os` is modelled as far as the updater calls it. Every call has a number, and the record
-- Environment says of each number what the calls and the other processes of the machine do then.
use windows_llmmanager.Base.{
  ℕ, ◌+◌, String, string_eq, List, Bool, true, false, Option, none, some, if◌then◌else◌,
}
use windows_llmmanager.Base.Dict.{Dict, lookup, insert, erase}
use windows_llmmanager.Api.{Bytes}

-- internal/updater/github.go
pub record ReleaseAsset : Type 0 where
  pub name : String
  pub url : String

pub record Release : Type 0 where
  pub tag_name : Bytes
  pub assets : List ReleaseAsset

-- `os.Stat` of the kill switch's file: it is there, it is not, or the call fails in another way.
pub data Stat : Type 0 where
  there not_there stat_fails : Stat

-- By the number of the call: whether a system call fails, the state of the service behind a call to
-- its manager that failed, the kill switch, the answers of the network, the output of a binary run
-- with --version, the prefix that is drawn for the names of a download, and the time in a name.
pub record Environment : Type 0 where
  pub fails : ℕ → Bool
  pub left_running : ℕ → Bool
  pub kill_switch : ℕ → Stat
  pub latest_release : ℕ → Option Release
  pub body : ℕ → String → Option Bytes
  pub is_https : String → Bool
  pub version_output : ℕ → Bytes → Option Bytes
  pub temporary : ℕ → Option String
  pub time_stamp : ℕ → String

pub record World : Type 0 where
  pub calls : ℕ
  pub files : Dict String Bytes
  pub running : Bool

unfoldable pub tick : World → World
tick w = record w { calls = w.calls + 1 }

module _ (env : Environment) where
  unfoldable pub read_file : String → World → World × Option Bytes
  unfolding tick
  read_file path w = (tick w, if env.fails w.calls then none else lookup path w.files)

  -- `_ = os.Remove(path)`
  unfoldable pub remove : String → World → World
  unfolding tick
  remove path w =
      if env.fails w.calls then tick w else tick (record w { files = erase path w.files })

  -- `os.Rename`, which replaces a file of the new name.
  unfoldable pub rename : String → String → World → World × Bool
  unfolding tick
  rename old new w = if env.fails w.calls then (tick w, false) else elim (lookup old w.files) [
    | none ↦ (tick w, false)
    | some content ↦ (tick (record w { files = insert new content (erase old w.files) }), true)
  ]

  -- internal/updater/service_windows.go, as far as its caller sees it.
  unfoldable pub stop_service : World → World × Bool
  unfolding tick
  stop_service w =
      if env.fails w.calls
      then (tick (record w { running = env.left_running w.calls }), false)
      else (tick (record w { running = false }), true)

  unfoldable pub start_service : World → World × Bool
  unfolding tick
  start_service w =
      if env.fails w.calls
      then (tick (record w { running = env.left_running w.calls }), false)
      else (tick (record w { running = true }), true)

  -- `isKilled`
  unfoldable pub is_killed : World → World × Bool
  unfolding tick
  is_killed w = (
    tick w,
    elim (env.kill_switch w.calls) [ there ↦ true | not_there ↦ false | stat_fails ↦ true ],
  )
