-- ===== src/Updater/Newer.antt =====
-- internal/updater/update.go: `CheckAndUpdate` updates only to a newer release, and not while the kill
-- switch is armed.
use windows_llmmanager.Base.{
  ◌≡◌, ◌≢◌, inl, inr, refl, sym, ap, ◌∙◌, subst, string_eq, Bool, true, false, Option, some,
  Bool-cases, Option-cases,
}
use windows_llmmanager.Base.Outcome.{ok, Outcome-cases}
use windows_llmmanager.Api.{Bytes}
use windows_llmmanager.Updater.Version.{newer_version, versions_equal}
use windows_llmmanager.Updater.Host.{Environment, Release, World, tick, is_killed}
use windows_llmmanager.Updater.Verify.{Crypto}
use windows_llmmanager.Updater.Update.{
  UpdaterConfig, UpdateResult, DownloadedPaths, required_assets, binary_version, install_verified,
}
use windows_llmmanager.Updater.Check.{
  result_of, download_and_verify, install_if_unkilled, update_to, check_and_update,
}

-- The versions that a result names.
SameVersions : UpdateResult → UpdateResult → Type 0
SameVersions r s = (r.current_version ≡ s.current_version) × (r.latest_version ≡ s.latest_version)

module _ (env : Environment) (crypto : Crypto) (cfg : UpdaterConfig) where
  install_if_unkilled-SameVersions :
      (result : UpdateResult) (paths : DownloadedPaths) (w : World)
      → SameVersions (install_if_unkilled env crypto cfg result paths w).result result
  unfolding install_if_unkilled SameVersions
  install_if_unkilled-SameVersions result paths w = elim (Option-cases w1.1) [
    | inl n ↦ rw (install_if_unkilled, n) (refl, refl)
    | inr (version, e) ↦ elim (Bool-cases (versions_equal version result.latest_version)) [
      | inr d ↦ rw (install_if_unkilled, e, d) (refl, refl)
      | inl d ↦ elim (Bool-cases (is_killed env w1.0).1) [
        | inl k ↦ rw (install_if_unkilled, e, d, k) (refl, refl)
        | inr k ↦
            elim (Option-cases (install_verified env cfg paths.binary (is_killed env w1.0).0).1) [
              | inr (x, f) ↦ rw (install_if_unkilled, e, d, k, f) (refl, refl)
              | inl f ↦ rw (install_if_unkilled, e, d, k, f) (refl, refl)
            ]
      ]
    ]
  ]
    where
      w1 : World × Option Bytes
      w1 = binary_version env paths.binary w

  update_to-SameVersions :
      (result : UpdateResult) (rel : Release) (w : World)
      → SameVersions (update_to env crypto cfg result rel w).result result
  unfolding update_to SameVersions
  update_to-SameVersions result rel w = elim (Option-cases (required_assets cfg rel)) [
    | inl n ↦ rw (update_to, n) (refl, refl)
    | inr (assets, a) ↦ elim (Outcome-cases (download_and_verify env crypto cfg assets w).1) [
      | inr (e, f) ↦ rw (update_to, a, f) (refl, refl)
      | inl (paths, f) ↦
          rw (update_to, a, f)
            (install_if_unkilled-SameVersions result paths
              (download_and_verify env crypto cfg assets w).0)
    ]
  ]

  -- What a run that reports an update has met: the kill switch is off at its start, the agent's binary
  -- answers with the version that the result calls current, the latest release has the tag that the
  -- result calls latest, and that tag is newer than that version.
  unfoldable pub Outdated : World → UpdateResult → Type 0
  Outdated w result =
      let (w1, killed) = is_killed env w in
      let (w2, installed) = binary_version env cfg.agent_path w1 in
      (killed ≡ false)
      × (installed ≡ some result.current_version)
      × (rel : Release) × (env.latest_release w2.calls ≡ some rel)
      × (rel.tag_name ≡ result.latest_version)
      × (newer_version result.current_version result.latest_version ≡ ok true)

  SameVersions-Outdated :
      (w : World) (r s : UpdateResult) → SameVersions r s → Outdated w s → Outdated w r
  unfolding SameVersions Outdated
  SameVersions-Outdated w r s (c, l) o = rw (c, l) o

  -- A run that reports an update found the kill switch off at its start, and the tag of the latest
  -- release, which its result names, newer than the version that the agent's binary, run with
  -- --version, answered, which its result names too.
  pub check_and_update-newer :
      (w : World)
      → let c = check_and_update env crypto cfg w in c.result.updated ≡ true → Outdated w c.result
  unfolding check_and_update
  check_and_update-newer w h = elim (Bool-cases w1.1) [
    | inl k ↦ absurd (false-ne-true (sym (rw (check_and_update, k) refl) ∙ h))
    | inr k ↦ elim (Option-cases w2.1) [
      | inl n ↦ absurd (false-ne-true (sym (rw (check_and_update, k, n) refl) ∙ h))
      | inr (current, e) ↦ elim (Option-cases (env.latest_release w2.0.calls)) [
        | inl n ↦ absurd (false-ne-true (sym (rw (check_and_update, k, e, n) refl) ∙ h))
        | inr (rel, r) ↦ elim (Outcome-cases (newer_version current rel.tag_name)) [
          | inr (x, v) ↦ absurd (false-ne-true (sym (rw (check_and_update, k, e, r, v) refl) ∙ h))
          | inl (newer, v) ↦ elim (Bool-cases newer) [
            | inr b ↦ absurd (false-ne-true (sym (rw (check_and_update, k, e, r, v, b) refl) ∙ h))
            | inl b ↦
                (let found = result_of current rel.tag_name in
                  let reaches : check_and_update env crypto cfg w
                      ≡ update_to env crypto cfg found rel (tick w2.0) =
                    rw (check_and_update, k, e, r, v, b) refl in
                  SameVersions-Outdated w (check_and_update env crypto cfg w).result found
                    (subst (λ c. SameVersions c.result found) (sym reaches)
                      (update_to-SameVersions found rel (tick w2.0)))
                    (unfold Outdated in (k, e, rel, r, refl, v ∙ ap ok b)))
          ]
        ]
      ]
    ]
  ]
    where
      w1 : World × Bool
      w1 = is_killed env w

      w2 : World × Option Bytes
      w2 = binary_version env cfg.agent_path w1.0

      false-ne-true : false ≢ true
      false-ne-true x = cc
