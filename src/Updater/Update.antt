-- ===== src/Updater/Update.antt =====
-- internal/updater/update.go, with the download of github.go: from the latest release to the agent's
-- file. A state-passing function for each of the source's; what is logged is left out.
use Prim.Native.String
use windows_llmmanager.Base.{
  ℕ, ◌+◌, String, string_eq, ◌==◌, List, [], ◌∷◌, Bool, true, false, not, ◌||◌, Option, none, some,
  length, take, ltb, if◌then◌else◌,
}
use windows_llmmanager.Base.Dict.{Dict, lookup, insert}
use windows_llmmanager.Api.{Bytes}
use windows_llmmanager.Text.{trim_space}
use windows_llmmanager.Updater.Host.{
  ReleaseAsset, Release, Environment, World, tick, remove, rename, stop_service, start_service,
  is_killed,
}
use windows_llmmanager.Updater.Verify.{VerifyError}

pub record UpdaterConfig : Type 0 where
  pub agent_path : String
  pub agent_asset_name : String
  pub public_key : Bytes

pub data InstallError : Type 0 where
  stop_fails armed_before_replacing backup_fails install_fails : InstallError
  restore_fails rolled_back rolled_back_not_started : InstallError

pub data UpdateError : Type 0 where
  no_current_version no_release bad_version missing_asset : UpdateError
  no_random_name download_fails no_downloaded_version version_differs : UpdateError
  not_verified : VerifyError → UpdateError
  not_installed : InstallError → UpdateError

pub record UpdateResult : Type 0 where
  pub updated : Bool
  pub skipped_killed : Bool
  pub current_version : Bytes
  pub latest_version : Bytes

pub record AssetUrls : Type 0 where
  pub binary : String
  pub checksum : String
  pub signature : String

pub record DownloadedPaths : Type 0 where
  pub binary : String
  pub checksum : String
  pub signature : String

-- The loop that fills `found`: the last asset of a name counts.
unfoldable pub find_assets :
    List String → List ReleaseAsset → Dict String String → Dict String String
find_assets names [] found = found
find_assets names (asset ∷ rest) found =
    find_assets names rest
      (if is_needed names asset.name then insert asset.name asset.url found else found)
  where
    is_needed : List String → String → Bool
    is_needed [] name = false
    is_needed (n ∷ ns) name = n == name || is_needed ns name

-- `found[name]`, which is empty where there is none.
abbrev pub url_of : String → Dict String String → String
url_of name found = elim (lookup name found) [ none ↦ "" | some url ↦ url ]

unfoldable pub required_assets : UpdaterConfig → Release → Option AssetUrls
unfolding find_assets
required_assets cfg rel =
    let name = cfg.agent_asset_name in
    let sha_name = String.◌++◌ name ".sha256" in
    let sig_name = String.◌++◌ name ".sig" in
    let found = find_assets (name ∷ sha_name ∷ sig_name ∷ []) rel.assets [] in
    if url_of name found == "" || url_of sha_name found == "" || url_of sig_name found == ""
    then none
    else some (record {
      binary = url_of name found;
      checksum = url_of sha_name found;
      signature = url_of sig_name found;
    })

abbrev pub backup_path : UpdaterConfig → String
backup_path cfg = String.◌++◌ cfg.agent_path ".bak"

abbrev pub paths_of : String → DownloadedPaths
paths_of prefix = record {
  binary = String.◌++◌ prefix ".exe";
  checksum = String.◌++◌ prefix ".sha256";
  signature = String.◌++◌ prefix ".sig";
}

module _ (env : Environment) where
  -- `download`: the response is written to a new file of that name, up to `max_bytes`.
  unfoldable pub download : String → String → ℕ → World → World × Bool
  unfolding tick remove
  download url destination max_bytes w =
      if not (env.is_https url) then (w, false) else elim (env.body w.calls url) [
        | none ↦ (tick w, false)
        | some body ↦ elim (lookup destination w.files) [
          | some _ ↦ (tick w, false)
          | none ↦
              if env.fails w.calls || ltb max_bytes (length body)
              then (
                remove env destination (
                    tick (record w {
                      files = insert destination (take (max_bytes + 1) body) w.files;
                    })),
                false,
              )
              else (tick (record w { files = insert destination body w.files }), true)
        ]
      ]

  unfoldable pub cleanup : DownloadedPaths → World → World
  unfolding remove
  cleanup paths w =
      remove env paths.signature (remove env paths.checksum (remove env paths.binary w))

  unfoldable pub binary_version : String → World → World × Option Bytes
  unfolding tick trim_space
  binary_version path w = elim (lookup path w.files) [
    | none ↦ (tick w, none)
    | some binary ↦ elim (env.version_output w.calls binary) [
      | none ↦ (tick w, none)
      | some out ↦ (tick w, elim (trim_space out) [ [] ↦ none | c ∷ version ↦ some (c ∷ version) ])
    ]
  ]

  -- What `installVerified` does once the new agent has failed to start.
  unfoldable pub roll_back : UpdaterConfig → World → World × Option InstallError
  unfolding stop_service rename start_service
  roll_back cfg w =
      let (w1, _) = stop_service env w in
      let failed_path =
        String.◌++◌ cfg.agent_path (String.◌++◌ ".failed-" (env.time_stamp w1.calls)) in
      let (w2, _) = rename env cfg.agent_path failed_path w1 in
      let (w3, restored) = rename env (backup_path cfg) cfg.agent_path w2 in
      if not restored
      then (w3, some restore_fails)
      else let (w4, started) = start_service env w3 in
        (w4, some (if started then rolled_back else rolled_back_not_started))

  -- What `installVerified` does from the backup on.
  unfoldable pub replace_agent : UpdaterConfig → String → World → World × Option InstallError
  unfolding remove rename start_service roll_back
  replace_agent cfg downloaded w =
      let w1 = remove env (backup_path cfg) w in
      let (w2, backed_up) = rename env cfg.agent_path (backup_path cfg) w1 in
      if not backed_up
      then (let (w3, _) = start_service env w2 in (w3, some backup_fails))
      else let (w3, installed) = rename env downloaded cfg.agent_path w2 in
        if not installed
        then (let (w4, _) = rename env (backup_path cfg) cfg.agent_path w3 in
            let (w5, _) = start_service env w4 in (w5, some install_fails))
        else let (w4, started) = start_service env w3 in
          if started then (w4, none) else roll_back cfg w4

  unfoldable pub install_verified : UpdaterConfig → String → World → World × Option InstallError
  unfolding stop_service is_killed start_service replace_agent
  install_verified cfg downloaded w =
      let (w1, stopped) = stop_service env w in
      if not stopped
      then (w1, some stop_fails)
      else let (w2, killed) = is_killed env w1 in
        if killed
        then (let (w3, _) = start_service env w2 in (w3, some armed_before_replacing))
        else replace_agent cfg downloaded w2
