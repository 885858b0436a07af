-- ===== src/Updater/Safety.antt =====
-- internal/updater/update.go: `CheckAndUpdate` puts nothing unverified in the place of the agent.
use windows_llmmanager.Base.{
  ℕ, ◌≡◌, ◌≢◌, ◌⊎◌, inl, inr, refl, sym, ◌∙◌, subst, String, string_eq, Bool, true, false, Option,
  none, some, Bool-cases, Option-cases,
}
use windows_llmmanager.Base.Outcome.{ok, Outcome-cases}
use windows_llmmanager.Api.{Bytes}
use windows_llmmanager.Updater.Version.{newer_version, versions_equal}
use windows_llmmanager.Updater.Host.{Environment, Release, World, tick, is_killed}
use windows_llmmanager.Updater.Verify.{Crypto}
use windows_llmmanager.Updater.Update.{
  AssetUrls, UpdaterConfig, UpdateResult, InstallError, stop_fails, armed_before_replacing,
  backup_fails, install_fails, restore_fails, rolled_back, rolled_back_not_started, DownloadedPaths,
  backup_path, paths_of, required_assets, cleanup, binary_version, install_verified,
}
use windows_llmmanager.Updater.Check.{
  Checked, result_of, download_and_verify, install_if_unkilled, update_to, check_and_update,
}
use windows_llmmanager.Updater.Moves.{at, at-is_killed}
use windows_llmmanager.Updater.Rollback.{Left}
use windows_llmmanager.Updater.Install.{install_verified-Left}
use windows_llmmanager.Updater.Files.{
  Apart, Passed, IsVerified, at-cleanup, running-cleanup, at-binary_version,
}
use windows_llmmanager.Updater.Accepts.{at-download_and_verify, download_and_verify-accepts}

module _ (env : Environment) (crypto : Crypto) (cfg : UpdaterConfig) where
  -- The agent is a verified binary.
  unfoldable pub HasVerified : World → Type 0
  HasVerified w =
      (binary : Bytes) × IsVerified env crypto cfg binary × (at cfg.agent_path w ≡ some binary)

  -- No update: the agent is the old one, or is that of a verified binary that did not start, or is
  -- missing, and then the old one is the backup.
  unfoldable pub Kept : Bytes → World → Type 0
  Kept old w =
      (at cfg.agent_path w ≡ some old)
      ⊎ ((at (backup_path cfg) w ≡ some old) × ((at cfg.agent_path w ≡ none) ⊎ HasVerified w))

  -- An update: a verified agent runs, and the old one is the backup.
  unfoldable pub Updated : Bytes → World → Type 0
  Updated old w = (w.running ≡ true) × (at (backup_path cfg) w ≡ some old) × HasVerified w

  unfoldable pub IsSafe : Bytes → Checked → Type 0
  IsSafe old c =
      ((c.result.updated ≡ false) × Kept old c.world)
      ⊎ ((c.result.updated ≡ true) × Updated old c.world)

  Left-Kept :
      (old new : Bytes) (before : Option Bytes) (w : World) (e : InstallError)
      → IsVerified env crypto cfg new
      → Left env cfg old new before w (some e)
      → Kept old w
  unfolding Left Kept HasVerified
  Left-Kept old new before w stop_fails v l = inl l.0
  Left-Kept old new before w armed_before_replacing v l = inl l.0
  Left-Kept old new before w backup_fails v l = inl l.0
  Left-Kept old new before w install_fails v (inl l) = inl l.0
  Left-Kept old new before w install_fails v (inr (gone, held)) = inr (held, inl gone)
  Left-Kept old new before w restore_fails v (held, inl put) = inr (held, inr (new, v, put))
  Left-Kept old new before w restore_fails v (held, inr gone) = inr (held, inl gone)
  Left-Kept old new before w rolled_back v l = inl l.0
  Left-Kept old new before w rolled_back_not_started v l = inl l.0

  IsSafe-same :
      (old : Bytes) (c : Checked) (w : World)
      → at cfg.agent_path w ≡ at cfg.agent_path c.world
      → at (backup_path cfg) w ≡ at (backup_path cfg) c.world
      → w.running ≡ c.world.running
      → IsSafe old c
      → IsSafe old (record c { world = w })
  unfolding IsSafe Kept Updated HasVerified
  IsSafe-same old c w a b r safe = rw (a, b, r) safe

  install_if_unkilled-IsSafe :
      (result : UpdateResult) (paths : DownloadedPaths) (w : World) (old new : Bytes)
      → result.updated ≡ false
      → at cfg.agent_path w ≡ some old
      → at paths.binary w ≡ some new
      → IsVerified env crypto cfg new
      → paths.binary ≢ cfg.agent_path
      → paths.binary ≢ backup_path cfg
      → IsSafe old (install_if_unkilled env crypto cfg result paths w)
  unfolding install_if_unkilled IsSafe Kept Updated HasVerified Left
  install_if_unkilled-IsSafe result paths w old new u held there v p_a p_b =
      elim (Option-cases w1.1) [
        | inl n ↦ rw (install_if_unkilled, n) (inl (u, inl seen))
        | inr (version, e) ↦ elim (Bool-cases (versions_equal version result.latest_version)) [
          | inr d ↦ rw (install_if_unkilled, e, d) (inl (u, inl seen))
          | inl d ↦ elim (Bool-cases w2.1) [
            | inl k ↦ rw (install_if_unkilled, e, d, k) (inl (u, inl unkilled))
            | inr k ↦ elim (Option-cases w3.1) [
              | inr (x, f) ↦
                  rw (install_if_unkilled, e, d, k, f)
                    (inl (
                      u,
                      Left-Kept old new (at (backup_path cfg) w2.0) w3.0 x v
                          (subst (Left env cfg old new (at (backup_path cfg) w2.0) w3.0) f left),
                    ))
              | inl f ↦
                  (let (put, kept, runs) =
                      subst (Left env cfg old new (at (backup_path cfg) w2.0) w3.0) f left in
                    rw (install_if_unkilled, e, d, k, f) (inr (refl, (runs, kept, (new, v, put)))))
            ]
          ]
        ]
      ]
    where
      w1 : World × Option Bytes
      w1 = binary_version env paths.binary w

      w2 : World × Bool
      w2 = is_killed env w1.0

      w3 : World × Option InstallError
      w3 = install_verified env cfg paths.binary w2.0

      seen : at cfg.agent_path w1.0 ≡ some old
      seen = at-binary_version env paths.binary cfg.agent_path w ∙ held

      unkilled : at cfg.agent_path w2.0 ≡ some old
      unkilled = at-is_killed env cfg.agent_path w1.0 ∙ seen

      left : Left env cfg old new (at (backup_path cfg) w2.0) w3.0 w3.1
      left =
          install_verified-Left env cfg old new (at (backup_path cfg) w2.0) paths.binary w2.0
            unkilled refl
            (at-is_killed env paths.binary w1.0
              ∙ at-binary_version env paths.binary paths.binary w
              ∙ there)
            p_a p_b

  module _ (old : Bytes)
      (fresh : (n : ℕ) (prefix : String)
        → env.temporary n ≡ some prefix
        → Apart cfg.agent_path (paths_of prefix) × Apart (backup_path cfg) (paths_of prefix)) where
    update_to-IsSafe :
        (result : UpdateResult) (rel : Release) (n : ℕ) (w : World)
        → env.latest_release n ≡ some rel
        → result.updated ≡ false
        → at cfg.agent_path w ≡ some old
        → IsSafe old (update_to env crypto cfg result rel w)
    unfolding update_to IsSafe Kept Apart IsVerified
    update_to-IsSafe result rel m w latest u held = elim (Option-cases (required_assets cfg rel)) [
      | inl n ↦ rw (update_to, n) (inl (u, inl held))
      | inr (assets, a) ↦
          (let w1 = download_and_verify env crypto cfg assets w in
            let seen =
              at-download_and_verify env crypto cfg assets cfg.agent_path w
                (λ n prefix t. (fresh n prefix t).0)
              ∙ held in
            elim (Outcome-cases w1.1) [
              | inr (e, f) ↦ rw (update_to, a, f) (inl (u, inl seen))
              | inl (paths, f) ↦
                  rw (update_to, a, f)
                    (cleaned result paths assets w u seen f λ new p. (m, rel, latest, assets, a, p))
            ])
    ]
      where
        cleaned :
            (result : UpdateResult) (paths : DownloadedPaths) (assets : AssetUrls) (w : World)
            → result.updated ≡ false
            → at cfg.agent_path (download_and_verify env crypto cfg assets w).0 ≡ some old
            → (download_and_verify env crypto cfg assets w).1 ≡ ok paths
            → ((new : Bytes)
                → Passed env crypto cfg.public_key assets new
                → IsVerified env crypto cfg new)
            → let c =
                install_if_unkilled env crypto cfg result paths
                  (download_and_verify env crypto cfg assets w).0 in
              IsSafe old (record c { world = cleanup env paths c.world })
        cleaned result paths assets w u seen f verifies =
            (let (new, there, v, prefix, t, same) =
                download_and_verify-accepts env crypto cfg assets paths w f in
              let w1 = (download_and_verify env crypto cfg assets w).0 in
              let c = install_if_unkilled env crypto cfg result paths w1 in
              let apart_a = subst (Apart cfg.agent_path) (sym same) (fresh w.calls prefix t).0 in
              let apart_b = subst (Apart (backup_path cfg)) (sym same) (fresh w.calls prefix t).1 in
              IsSafe-same old c (cleanup env paths c.world)
                (at-cleanup env paths cfg.agent_path c.world apart_a)
                (at-cleanup env paths (backup_path cfg) c.world apart_b)
                (running-cleanup env paths c.world)
                (install_if_unkilled-IsSafe result paths w1 old new u seen there (verifies new v)
                  (λ e. apart_a.0 (sym e)) (λ e. apart_b.0 (sym e))))

    -- The agent is replaced only by a binary that passed both checks: it was served for the asset of
    -- that name of a release that was the latest, and it has the digest and, under the configured key,
    -- the signature that were served for the release's other two assets. Where the agent is `old`, and
    -- the names drawn for downloads are none of the agent and its backup: a run that reports an
    -- update leaves a verified agent running and `old` as the backup; any other leaves `old` in its
    -- place, or as the backup of a verified agent that failed or of a place left empty.
    pub check_and_update-IsSafe :
        (w : World)
        → at cfg.agent_path w ≡ some old
        → IsSafe old (check_and_update env crypto cfg w)
    unfolding check_and_update IsSafe Kept at tick
    check_and_update-IsSafe w held = elim (Bool-cases w1.1) [
      | inl k ↦ rw (check_and_update, k) (inl (refl, inl unkilled))
      | inr k ↦ elim (Option-cases w2.1) [
        | inl n ↦ rw (check_and_update, k, n) (inl (refl, inl seen))
        | inr (current, e) ↦ elim (Option-cases (env.latest_release w2.0.calls)) [
          | inl n ↦ rw (check_and_update, k, e, n) (inl (refl, inl seen))
          | inr (rel, r) ↦ elim (Outcome-cases (newer_version current rel.tag_name)) [
            | inr (x, v) ↦ rw (check_and_update, k, e, r, v) (inl (refl, inl seen))
            | inl (newer, v) ↦ elim (Bool-cases newer) [
              | inr b ↦ rw (check_and_update, k, e, r, v, b) (inl (refl, inl seen))
              | inl b ↦
                  rw (check_and_update, k, e, r, v, b)
                    (update_to-IsSafe (result_of current rel.tag_name) rel w2.0.calls (tick w2.0) r
                      refl seen)
            ]
          ]
        ]
      ]
    ]
      where
        w1 : World × Bool
        w1 = is_killed env w

        w2 : World × Option Bytes
        w2 = binary_version env cfg.agent_path w1.0

        unkilled : at cfg.agent_path w1.0 ≡ some old
        unkilled = at-is_killed env cfg.agent_path w ∙ held

        seen : at cfg.agent_path w2.0 ≡ some old
        seen = at-binary_version env cfg.agent_path cfg.agent_path w1.0 ∙ unkilled
