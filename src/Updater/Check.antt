-- ===== src/Updater/Check.antt =====
-- internal/updater/update.go: `downloadAndVerify` and `CheckAndUpdate`.
use windows_llmmanager.Base.{
  string_eq, [], Bool, true, false, not, Option, none, some, if◌then◌else◌,
}
use windows_llmmanager.Base.Outcome.{Outcome, ok, err}
use windows_llmmanager.Api.{Bytes}
use windows_llmmanager.Updater.Version.{newer_version, versions_equal}
use windows_llmmanager.Updater.Host.{Environment, Release, World, tick, is_killed}
use windows_llmmanager.Updater.Verify.{Crypto, VerifyError, verify_checksum, verify_cosign_blob}
use windows_llmmanager.Updater.Update.{
  UpdaterConfig, UpdateError, UpdateResult, no_current_version, no_release, bad_version,
  missing_asset, no_random_name, download_fails, no_downloaded_version, version_differs,
  not_verified, not_installed, AssetUrls, DownloadedPaths, required_assets, paths_of, download,
  cleanup, binary_version, install_verified,
}

-- What a call of `CheckAndUpdate` leaves and returns.
pub record Checked : Type 0 where
  pub world : World
  pub result : UpdateResult
  pub error : Option UpdateError

abbrev pub result_of : Bytes → Bytes → UpdateResult
result_of current latest = record {
  updated = false;
  skipped_killed = false;
  current_version = current;
  latest_version = latest;
}

abbrev pub checked : World → UpdateResult → Option UpdateError → Checked
checked w result error = record { world = w; result = result; error = error }

module _ (env : Environment) (crypto : Crypto) where
  -- The three downloads, in order, up to the first that fails.
  unfoldable pub download_all : AssetUrls → DownloadedPaths → World → World × Bool
  unfolding download
  download_all assets paths w =
      let (w1, got_binary) = download env assets.binary paths.binary 209715200 w in
      if not got_binary
      then (w1, false)
      else let (w2, got_checksum) = download env assets.checksum paths.checksum 4096 w1 in
        if not got_checksum
        then (w2, false)
        else download env assets.signature paths.signature 1048576 w2

  -- The two checks, in order.
  unfoldable pub verify_all : Bytes → DownloadedPaths → World → World × Option VerifyError
  unfolding verify_checksum verify_cosign_blob
  verify_all key paths w =
      let (w1, bad_checksum) = verify_checksum crypto env paths.binary paths.checksum w in
      elim bad_checksum [
        | some e ↦ (w1, some e)
        | none ↦ verify_cosign_blob crypto env paths.binary paths.signature key w1
      ]

  unfoldable pub download_and_verify :
      UpdaterConfig → AssetUrls → World → World × Outcome UpdateError DownloadedPaths
  unfolding download_all verify_all cleanup tick
  download_and_verify cfg assets w = elim (env.temporary w.calls) [
    | none ↦ (tick w, err no_random_name)
    | some prefix ↦
        let paths = paths_of prefix in
        let (w1, got_all) = download_all assets paths (tick w) in
        if not got_all
        then (cleanup env paths w1, err download_fails)
        else let (w2, bad) = verify_all cfg.public_key paths w1 in
          elim bad [ some e ↦ (cleanup env paths w2, err (not_verified e)) | none ↦ (w2, ok paths) ]
  ]

  -- `CheckAndUpdate` behind the verification, before the deferred cleanup.
  unfoldable pub install_if_unkilled :
      UpdaterConfig → UpdateResult → DownloadedPaths → World → Checked
  unfolding binary_version is_killed install_verified
  install_if_unkilled cfg result paths w =
      let (w1, downloaded) = binary_version env paths.binary w in
      elim downloaded [
        | none ↦ checked w1 result (some no_downloaded_version)
        | some version ↦
            if not (versions_equal version result.latest_version)
            then checked w1 result (some version_differs)
            else let (w2, killed) = is_killed env w1 in
              if killed
              then checked w2 (record result { skipped_killed = true }) none
              else let (w3, failed) = install_verified env cfg paths.binary w2 in
                elim failed [
                  | some e ↦ checked w3 result (some (not_installed e))
                  | none ↦ checked w3 (record result { updated = true }) none
                ]
      ]

  -- `CheckAndUpdate` behind the comparison of the versions.
  unfoldable pub update_to : UpdaterConfig → UpdateResult → Release → World → Checked
  unfolding required_assets download_and_verify install_if_unkilled cleanup
  update_to cfg result rel w = elim (required_assets cfg rel) [
    | none ↦ checked w result (some missing_asset)
    | some assets ↦
        let (w1, verified) = download_and_verify cfg assets w in
        elim verified [
          | err e ↦ checked w1 result (some e)
          | ok paths ↦
              let c = install_if_unkilled cfg result paths w1 in
              record c { world = cleanup env paths c.world }
        ]
  ]

  unfoldable pub check_and_update : UpdaterConfig → World → Checked
  unfolding is_killed binary_version update_to tick newer_version
  check_and_update cfg w =
      let (w1, killed) = is_killed env w in
      if killed
      then checked w1 (record (result_of [] []) { skipped_killed = true }) none
      else let (w2, installed) = binary_version env cfg.agent_path w1 in
        elim installed [
          | none ↦ checked w2 (result_of [] []) (some no_current_version)
          | some current ↦ elim (env.latest_release w2.calls) [
            | none ↦ checked (tick w2) (result_of current []) (some no_release)
            | some rel ↦
                let result = result_of current rel.tag_name in
                elim (newer_version current rel.tag_name) [
                  | err _ ↦ checked (tick w2) result (some bad_version)
                  | ok newer ↦
                      if not newer
                      then checked (tick w2) result none
                      else update_to cfg result rel (tick w2)
                ]
          ]
        ]
