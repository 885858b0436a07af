-- ===== src/Updater/Install.antt =====
-- internal/updater/update.go: what `installVerified` leaves in the place of the agent.
use windows_llmmanager.Base.{
  ◌≡◌, ◌≢◌, ◌⊎◌, inl, inr, ◌∙◌, String, string_eq, Bool, true, false, Option, none, some,
  Bool-cases, arith,
}
use windows_llmmanager.Api.{Bytes}
use windows_llmmanager.Updater.Host.{
  Environment, World, remove, rename, stop_service, start_service, is_killed,
}
use windows_llmmanager.Updater.Update.{UpdaterConfig, backup_path, replace_agent, install_verified}
use windows_llmmanager.Updater.Moves.{
  at, agent-ne-backup, running-start_service, at-rename, at-remove, at-remove_self,
  at-start_service, at-stop_service, at-is_killed,
}
use windows_llmmanager.Updater.Rollback.{Left, roll_back-Left}

module _ (env : Environment) where
  module _ (cfg : UpdaterConfig) where
    module _ (old new : Bytes) (before : Option Bytes) where
      replace_agent-Left :
          (downloaded : String) (w : World)
          → at cfg.agent_path w ≡ some old
          → at (backup_path cfg) w ≡ before
          → at downloaded w ≡ some new
          → downloaded ≢ cfg.agent_path
          → downloaded ≢ backup_path cfg
          → Left env cfg old new before
              (replace_agent env cfg downloaded w).0
              (replace_agent env cfg downloaded w).1
      unfolding replace_agent Left
      replace_agent-Left downloaded w held backup fetched d_a d_b = elim (Bool-cases w2.1) [
        | inr e ↦ rw e (
            ground (
              arith,
              at-start_service env cfg.agent_path w2.0,
              at-start_service env (backup_path cfg) w2.0,
              not_moved e,
            ))
        | inl e ↦ elim (Bool-cases w3.1) [
          | inr i ↦
              rw (e, i)
                (ground (
                  arith,
                  agent-ne-backup cfg,
                  at-start_service env cfg.agent_path w4.0,
                  at-start_service env (backup_path cfg) w4.0,
                  undone e i,
                ))
          | inl i ↦ elim (Bool-cases (start_service env w3.0).1) [
            | inl s ↦
                rw (e, i, s)
                  (ground (
                    arith,
                    agent-ne-backup cfg,
                    running-start_service env w3.0,
                    at-start_service env cfg.agent_path w3.0,
                    at-start_service env (backup_path cfg) w3.0,
                    replaced e i,
                  ))
            | inr s ↦
                rw (e, i, s)
                  (roll_back-Left env cfg old new before (start_service env w3.0).0
                    (at-start_service env (backup_path cfg) w3.0 ∙ (replaced e i).1)
                    (at-start_service env cfg.agent_path w3.0 ∙ (replaced e i).0))
          ]
        ]
      ]
        where
          w1 : World
          w1 = remove env (backup_path cfg) w

          w2 : World × Bool
          w2 = rename env cfg.agent_path (backup_path cfg) w1

          w3 : World × Bool
          w3 = rename env downloaded cfg.agent_path w2.0

          w4 : World × Bool
          w4 = rename env (backup_path cfg) cfg.agent_path w3.0

          not_moved :
              w2.1 ≡ false
              → (at cfg.agent_path w2.0 ≡ some old)
                × ((at (backup_path cfg) w2.0 ≡ none) ⊎ (at (backup_path cfg) w2.0 ≡ before))
          not_moved e = ground (
            arith,
            agent-ne-backup cfg,
            at-rename env cfg.agent_path (backup_path cfg) cfg.agent_path w1,
            at-rename env cfg.agent_path (backup_path cfg) (backup_path cfg) w1,
            at-remove_self env (backup_path cfg) w,
            backup,
            at-remove env (backup_path cfg) cfg.agent_path w (agent-ne-backup cfg),
          )

          moved :
              w2.1 ≡ true
              → (at (backup_path cfg) w2.0 ≡ some old)
                × (at cfg.agent_path w2.0 ≡ none)
                × (at downloaded w2.0 ≡ some new)
          moved e = ground (
            arith,
            agent-ne-backup cfg,
            at-rename env cfg.agent_path (backup_path cfg) cfg.agent_path w1,
            at-rename env cfg.agent_path (backup_path cfg) (backup_path cfg) w1,
            at-rename env cfg.agent_path (backup_path cfg) downloaded w1,
            at-remove env (backup_path cfg) cfg.agent_path w (agent-ne-backup cfg),
            at-remove env (backup_path cfg) downloaded w d_b,
          )

          replaced :
              w2.1 ≡ true
              → w3.1 ≡ true
              → (at cfg.agent_path w3.0 ≡ some new) × (at (backup_path cfg) w3.0 ≡ some old)
          replaced e i =
              let (kept, _, there) = moved e in
              ground (
                arith,
                agent-ne-backup cfg,
                at-rename env downloaded cfg.agent_path cfg.agent_path w2.0,
                at-rename env downloaded cfg.agent_path (backup_path cfg) w2.0,
              )

          undone :
              w2.1 ≡ true
              → w3.1 ≡ false
              → ((at cfg.agent_path w4.0 ≡ some old) × (at (backup_path cfg) w4.0 ≡ none))
                ⊎ ((at cfg.agent_path w4.0 ≡ none) × (at (backup_path cfg) w4.0 ≡ some old))
          undone e i =
              let (kept, gone, _) = moved e in
              ground (
                arith,
                agent-ne-backup cfg,
                at-rename env downloaded cfg.agent_path cfg.agent_path w2.0,
                at-rename env downloaded cfg.agent_path (backup_path cfg) w2.0,
                at-rename env (backup_path cfg) cfg.agent_path cfg.agent_path w3.0,
                at-rename env (backup_path cfg) cfg.agent_path (backup_path cfg) w3.0,
              )

      -- What `installVerified` leaves in the place of the agent and of its backup, by the error that it
      -- returns: the new agent running, with the old one as the backup, where there is none; agent and
      -- backup as they were if the service does not stop or the kill switch is armed; the old agent, and
      -- the earlier backup or none, if the agent cannot be moved; the old agent in its place without a
      -- backup, or as the backup with none in its place, if the download cannot be moved; the old agent in
      -- its place without a backup behind a rollback, running where it started again; and the old agent as
      -- the backup if the rollback fails. The download is neither the agent nor its backup.
      pub install_verified-Left :
          (downloaded : String) (w : World)
          → at cfg.agent_path w ≡ some old
          → at (backup_path cfg) w ≡ before
          → at downloaded w ≡ some new
          → downloaded ≢ cfg.agent_path
          → downloaded ≢ backup_path cfg
          → Left env cfg old new before
              (install_verified env cfg downloaded w).0
              (install_verified env cfg downloaded w).1
      unfolding install_verified Left
      install_verified-Left downloaded w held backup fetched d_a d_b = elim (Bool-cases w1.1) [
        | inr e ↦ rw e (kept cfg.agent_path ∙ held, kept (backup_path cfg) ∙ backup)
        | inl e ↦ elim (Bool-cases w2.1) [
          | inl k ↦
              rw (e, k)
                (
                  at-start_service env cfg.agent_path w2.0 ∙ unmoved cfg.agent_path ∙ held,
                  at-start_service env (backup_path cfg) w2.0 ∙ unmoved (backup_path cfg) ∙ backup,
                )
          | inr k ↦
              rw (e, k)
                (replace_agent-Left downloaded w2.0 (unmoved cfg.agent_path ∙ held)
                  (unmoved (backup_path cfg) ∙ backup) (unmoved downloaded ∙ fetched) d_a d_b)
        ]
      ]
        where
          w1 : World × Bool
          w1 = stop_service env w

          w2 : World × Bool
          w2 = is_killed env w1.0

          kept : (p : String) → at p w1.0 ≡ at p w
          kept p = at-stop_service env p w

          unmoved : (p : String) → at p w2.0 ≡ at p w
          unmoved p = at-is_killed env p w1.0 ∙ kept p
