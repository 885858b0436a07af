-- ===== src/Tests/Updater.antt =====
-- internal/updater at concrete inputs.
use windows_llmmanager.Base.{
  ℕ, zero, suc, ◌≡◌, ◌↔◌, ◌⊎◌, refl, subst, String, string_eq, ◌==◌, [], ◌∷◌, Bool, Option, true,
  false, none, some, length, eqb, if◌then◌else◌, arith, All,
}
use windows_llmmanager.Base.Dict.{lookup, insert, erase}
use windows_llmmanager.Base.Outcome.{ok}
use windows_llmmanager.Api.{Bytes}
use windows_llmmanager.Text.{
  codes, trim_space, trim_left, trim_right, trim_prefix, cut_prefix, before, split, cut_at,
}
use windows_llmmanager.Config.{Host}
use windows_llmmanager.Updater.Config.{Config, IsComplete}
use windows_llmmanager.Updater.Run.{Invocation, no_action, run, Ran, run_lem}
use windows_llmmanager.Updater.Version.{
  Version, parse_version, from_parts, component, atoi, unsigned_value, signed_value, digits_value,
  newer_version, newer_components, versions_equal,
}
use windows_llmmanager.Updater.Ordering.{◌≺◌, newer_version_iff}
use windows_llmmanager.Updater.EqualBytes.{IsByte, equal_bytes, equal_bytes_iff}
use windows_llmmanager.Updater.Host.{Environment, World, Release, ReleaseAsset, there, not_there}
use windows_llmmanager.Updater.Verify.{Crypto}
use windows_llmmanager.Updater.Update.{UpdaterConfig, paths_of, backup_path, install_verified}
use windows_llmmanager.Updater.Check.{check_and_update}
use windows_llmmanager.Updater.Moves.{at}
use windows_llmmanager.Updater.Rollback.{Left}
use windows_llmmanager.Updater.Install.{install_verified-Left}
use windows_llmmanager.Updater.Files.{Apart}
use windows_llmmanager.Updater.Host
use windows_llmmanager.Updater.Update
use windows_llmmanager.Updater.Check
use windows_llmmanager.Updater.Verify
use windows_llmmanager.Updater.EqualBytes
use windows_llmmanager.Updater.Newer.{Outdated, check_and_update-newer}
use windows_llmmanager.Updater.Safety.{IsSafe, check_and_update-IsSafe}

abbrev v1 : Version
v1 = record { major = 1; minor = 2; patch = 3 }

abbrev v2 : Version
v2 = record { major = 1; minor = 10; patch = 0 }

abbrev text1 : Bytes
text1 = codes "1.2.3"

abbrev text2 : Bytes
text2 = codes " v1.10.0-rc1"

abbrev text3 : Bytes
text3 = codes "2.0.0"

text1-parses : parse_version text1 ≡ ok v1
unfolding parse_version from_parts component atoi unsigned_value signed_value digits_value
    trim_space trim_left trim_right trim_prefix cut_prefix before split cut_at
text1-parses = refl

text2-parses : parse_version text2 ≡ ok v2
unfolding parse_version from_parts component atoi unsigned_value signed_value digits_value
    trim_space trim_left trim_right trim_prefix cut_prefix before split cut_at
text2-parses = refl

newer_version_iff_example : (newer_version text1 text2 ≡ ok true) ↔ (v1 ≺ v2)
newer_version_iff_example = newer_version_iff text1 text2 v1 v2 text1-parses text2-parses

bytes-IsByte : All IsByte (1 ∷ 255 ∷ [])
bytes-IsByte = (omega arith, (omega arith, tt))

equal_bytes_iff_example :
    (equal_bytes (1 ∷ 255 ∷ []) (1 ∷ 255 ∷ []) ≡ true)
    ↔ (◌≡◌ {A = Bytes} (1 ∷ 255 ∷ []) (1 ∷ 255 ∷ []))
equal_bytes_iff_example = equal_bytes_iff (1 ∷ 255 ∷ []) (1 ∷ 255 ∷ []) bytes-IsByte bytes-IsByte

-- A machine on which every call succeeds but the start of a service, the first time.
abbrev env : Environment
env = record {
  fails = λ n. eqb n 5;
  left_running = λ n. false;
  kill_switch = λ n. not_there;
  latest_release = λ n. none;
  body = λ n url. none;
  is_https = λ url. true;
  version_output = λ n binary. some text1;
  temporary = λ n. some "C:/agent/.update-0";
  time_stamp = λ n. "20250101-000000";
}

abbrev cfg : UpdaterConfig
cfg = record {
  agent_path = "C:/agent/agent.exe";
  agent_asset_name = "agent.exe";
  public_key = 1 ∷ [];
}

abbrev world : World
world = record {
  calls = 0;
  files = ("C:/agent/agent.exe", 1 ∷ []) ∷ ("C:/agent/new.exe", 2 ∷ []) ∷ [];
  running = true;
}

agent-there : at cfg.agent_path world ≡ some (1 ∷ [])
unfolding at lookup string_eq
agent-there = refl

no-backup : at (backup_path cfg) world ≡ none
unfolding at lookup string_eq
no-backup = refl

new-there : at "C:/agent/new.exe" world ≡ some (2 ∷ [])
unfolding at lookup string_eq
new-there = refl

install_verified-Left_example :
    Left env cfg
      (1 ∷ [])
      (2 ∷ [])
      none
      (install_verified env cfg "C:/agent/new.exe" world).0
      (install_verified env cfg "C:/agent/new.exe" world).1
install_verified-Left_example =
    install_verified-Left env cfg (1 ∷ []) (2 ∷ []) none "C:/agent/new.exe" world agent-there
      no-backup new-there (λ e. absurd (cc)) (λ e. absurd (cc))

-- A machine on which nothing fails, with a release that is newer and properly signed.
abbrev zeros : ℕ → ℕ → Bytes
zeros c zero = []
zeros c (suc n) = c ∷ zeros c n

abbrev crypto : Crypto
crypto = record {
  sha256 = λ s. zeros 0 32;
  decode64 = λ s. some s;
  loads_key = λ key. true;
  verify = λ key signature payload. eqb (length payload) 1;
}

abbrev release : Release
release = record {
  tag_name = codes "v2.0.0";
  assets =
      record { name = "agent.exe"; url = "bin" }
      ∷ record { name = "agent.exe.sha256"; url = "sum" }
      ∷ record { name = "agent.exe.sig"; url = "sig" }
      ∷ [];
}

abbrev version_of : Bytes → Bytes
version_of [] = []
version_of (b ∷ _) = if eqb b 1 then text1 else text3

abbrev quiet : Environment
quiet = record env {
  fails = λ n. false;
  latest_release = λ n. some release;
  body = λ n url. some (if url == "sum" then zeros 48 64 else 2 ∷ []);
  version_output = λ n binary. some (version_of binary);
}

abbrev drawn : String
drawn = "C:/agent/.update-0"

names-fresh :
    (n : ℕ) (prefix : String)
    → quiet.temporary n ≡ some prefix
    → Apart cfg.agent_path (paths_of prefix) × Apart (backup_path cfg) (paths_of prefix)
unfolding Apart
names-fresh n prefix e =
    subst (λ p. Apart cfg.agent_path (paths_of p) × Apart (backup_path cfg) (paths_of p))
      (some_inj drawn prefix e)
      (((λ x. cc), (λ x. cc), (λ x. cc)), ((λ x. cc), (λ x. cc), (λ x. cc)))
  where
    some_inj : (a b : String) → some a ≡ some b → a ≡ b
    some_inj a b h = cc

check_and_update-IsSafe_example :
    IsSafe quiet crypto cfg (1 ∷ []) (check_and_update quiet crypto cfg world)
check_and_update-IsSafe_example =
    check_and_update-IsSafe quiet crypto cfg (1 ∷ []) names-fresh world agent-there

world-updated : (check_and_update quiet crypto cfg world).result.updated ≡ true
unfolding check_and_update Host.is_killed Host.tick Update.binary_version Check.update_to
    Update.required_assets Update.find_assets Check.download_and_verify Check.download_all
    Update.download Check.verify_all Verify.verify_checksum Verify.check_digest Verify.word
    Verify.decode_hex Verify.hex_value Verify.verify_cosign_blob Host.read_file Update.cleanup
    Host.remove Check.install_if_unkilled install_verified Host.stop_service Host.start_service
    Host.rename Update.replace_agent EqualBytes.equal_bytes EqualBytes.fold_diff EqualBytes.xor_bits
    EqualBytes.or_bits lookup insert erase string_eq newer_version newer_components versions_equal
    parse_version from_parts component atoi unsigned_value signed_value digits_value trim_space
    trim_left trim_right trim_prefix cut_prefix before split cut_at
world-updated = refl

check_and_update-newer_example :
    Outdated quiet crypto cfg world (check_and_update quiet crypto cfg world).result
check_and_update-newer_example = check_and_update-newer quiet crypto cfg world world-updated

abbrev host : Host
host = record {
  splits_host_port = λ address. true;
  parses_ip = λ address. true;
  join = λ names. "C:/agent/agent.exe";
}

-- A decoder of the one file that names a repository.
abbrev decode : Config → String → Option (Config × Bool)
decode c text = some (record c { github_owner = "owner"; github_repository = "agent" }, false)

abbrev invocation : Invocation String
invocation = record {
  knows_path = true;
  base_dir = "C:/agent";
  show_version = false;
  check_only = true;
  file = some "{}";
  makes_directory = true;
  opens_log = true;
  embedded_key = some (1 ∷ []);
}

run_lem_example :
    ((run host (λ text. text) decode "agent" (λ c. quiet) crypto invocation world).0 ≡ world)
    ⊎ ((c : Config) × (key : Bytes) × IsComplete c
        × Ran host (λ text. text) decode "agent" (λ c. quiet) crypto invocation world c key)
run_lem_example = run_lem host (λ text. text) decode "agent" (λ c. quiet) crypto invocation world

-- Without --check-only the command does nothing, and says so.
idle_run :
    run host
      (λ text. text)
      decode
      "agent"
      (λ c. quiet)
      crypto
      (record invocation { check_only = false })
      world
    ≡ (world, some no_action)
unfolding run
idle_run = refl
