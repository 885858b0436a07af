-- ===== src/Updater/Rollback.antt =====
-- internal/updater/update.go: what may stand in the place of the agent behind an installation, and what
-- its rollback leaves there.
use Prim.Native.String
use windows_llmmanager.Base.{
  ◌≡◌, ◌⊎◌, inl, inr, String, string_eq, Bool, true, Option, none, some, Bool-cases, arith,
}
use windows_llmmanager.Api.{Bytes}
use windows_llmmanager.Updater.Host.{Environment, World, rename, stop_service, start_service}
use windows_llmmanager.Updater.Update.{
  UpdaterConfig, InstallError, stop_fails, armed_before_replacing, backup_fails, install_fails,
  restore_fails, rolled_back, rolled_back_not_started, backup_path, roll_back,
}
use windows_llmmanager.Updater.Moves.{
  at, agent-ne-backup, backup-ne-failed, agent-ne-failed, running-start_service, at-rename,
  at-start_service, at-stop_service,
}

module _ (env : Environment) where
  module _ (cfg : UpdaterConfig) where
    -- What an install that ends in `error` leaves, where the agent was `old`, the download `new` and
    -- the backup `before`.
    unfoldable pub Left : Bytes → Bytes → Option Bytes → World → Option InstallError → Type 0
    Left old new before w none =
        (at cfg.agent_path w ≡ some new) × (at (backup_path cfg) w ≡ some old) × (w.running ≡ true)
    Left old new before w (some stop_fails) =
        (at cfg.agent_path w ≡ some old) × (at (backup_path cfg) w ≡ before)
    Left old new before w (some armed_before_replacing) =
        (at cfg.agent_path w ≡ some old) × (at (backup_path cfg) w ≡ before)
    Left old new before w (some backup_fails) =
        (at cfg.agent_path w ≡ some old)
        × ((at (backup_path cfg) w ≡ none) ⊎ (at (backup_path cfg) w ≡ before))
    Left old new before w (some install_fails) =
        ((at cfg.agent_path w ≡ some old) × (at (backup_path cfg) w ≡ none))
        ⊎ ((at cfg.agent_path w ≡ none) × (at (backup_path cfg) w ≡ some old))
    Left old new before w (some restore_fails) =
        (at (backup_path cfg) w ≡ some old)
        × ((at cfg.agent_path w ≡ some new) ⊎ (at cfg.agent_path w ≡ none))
    Left old new before w (some rolled_back) =
        (at cfg.agent_path w ≡ some old) × (at (backup_path cfg) w ≡ none) × (w.running ≡ true)
    Left old new before w (some rolled_back_not_started) =
        (at cfg.agent_path w ≡ some old) × (at (backup_path cfg) w ≡ none)

    module _ (old new : Bytes) (before : Option Bytes) where
      pub roll_back-Left :
          (w : World)
          → at (backup_path cfg) w ≡ some old
          → at cfg.agent_path w ≡ some new
          → Left old new before (roll_back env cfg w).0 (roll_back env cfg w).1
      unfolding roll_back Left
      roll_back-Left w held put = elim (Bool-cases w3.1) [
        | inl e ↦ elim (Bool-cases (start_service env w3.0).1) [
          | inl s ↦
              rw (e, s)
                (ground (
                  arith,
                  agent-ne-backup cfg,
                  running-start_service env w3.0,
                  at-start_service env cfg.agent_path w3.0,
                  at-start_service env (backup_path cfg) w3.0,
                  restored,
                ))
          | inr s ↦
              rw (e, s)
                (ground (
                  arith,
                  agent-ne-backup cfg,
                  at-start_service env cfg.agent_path w3.0,
                  at-start_service env (backup_path cfg) w3.0,
                  restored,
                ))
        ]
        | inr e ↦ rw e (
            ground (
              arith,
              agent-ne-backup cfg,
              at-rename env (backup_path cfg) cfg.agent_path (backup_path cfg) w2.0,
              at-rename env (backup_path cfg) cfg.agent_path cfg.agent_path w2.0,
              kept,
              moved,
            ))
      ]
        where
          w1 : World × Bool
          w1 = stop_service env w

          failed_path : String
          failed_path =
              String.◌++◌ cfg.agent_path (String.◌++◌ ".failed-" (env.time_stamp w1.0.calls))

          w2 : World × Bool
          w2 = rename env cfg.agent_path failed_path w1.0

          w3 : World × Bool
          w3 = rename env (backup_path cfg) cfg.agent_path w2.0

          kept : at (backup_path cfg) w2.0 ≡ some old
          kept = ground (
            arith,
            agent-ne-backup cfg,
            at-rename env cfg.agent_path failed_path (backup_path cfg) w1.0,
            at-stop_service env (backup_path cfg) w,
            backup-ne-failed cfg (env.time_stamp w1.0.calls),
          )

          moved : (at cfg.agent_path w2.0 ≡ some new) ⊎ (at cfg.agent_path w2.0 ≡ none)
          moved = ground (
            arith,
            at-rename env cfg.agent_path failed_path cfg.agent_path w1.0,
            at-stop_service env cfg.agent_path w,
            agent-ne-failed cfg (env.time_stamp w1.0.calls),
          )

          restored :
              w3.1 ≡ true → (at cfg.agent_path w3.0 ≡ some old) × (at (backup_path cfg) w3.0 ≡ none)
          restored e = ground (
            arith,
            agent-ne-backup cfg,
            at-rename env (backup_path cfg) cfg.agent_path cfg.agent_path w2.0,
            at-rename env (backup_path cfg) cfg.agent_path (backup_path cfg) w2.0,
            kept,
          )
