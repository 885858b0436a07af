-- ===== src/Updater/Moves.antt =====
-- internal/updater/update.go: the effect of the calls of the machine on one path.
use Prim.Native.String
use text.Mathlib.TextLemmas.{append_cancel_left, append-nil, length-append}
use windows_llmmanager.Base.{
  ◌+◌, ◌≡◌, ◌≢◌, ◌⊎◌, inl, inr, refl, ap, ◌∙◌, String, string_eq, ◌==◌, true, false, Option, none,
  some, if◌then◌else◌, Bool-cases, Option-cases, arith,
}
use windows_llmmanager.Base.Dict.{lookup, insert, erase, lookup-insert, lookup-erase}
use windows_llmmanager.Api.{Bytes}
use windows_llmmanager.Updater.Host.{
  Environment, World, tick, remove, rename, stop_service, start_service, is_killed,
}
use windows_llmmanager.Updater.Update.{UpdaterConfig, backup_path}

-- The names that the updater makes up of the agent's are all different.
pub agent-ne-backup : (cfg : UpdaterConfig) → cfg.agent_path ≢ backup_path cfg
agent-ne-backup cfg e =
    nil-ne-bak (append_cancel_left cfg.agent_path "" ".bak" (append-nil cfg.agent_path ∙ e))
  where
    nil-ne-bak : ◌≢◌ {A = String} "" ".bak"
    nil-ne-bak h = cc

pub backup-ne-failed :
    (cfg : UpdaterConfig) (stamp : String)
    → backup_path cfg ≢ String.◌++◌ cfg.agent_path (String.◌++◌ ".failed-" stamp)
backup-ne-failed cfg stamp e =
    bak-ne-failed (append_cancel_left cfg.agent_path ".bak" (String.◌++◌ ".failed-" stamp) e)
  where
    bak-ne-failed : ".bak" ≢ String.◌++◌ ".failed-" stamp
    bak-ne-failed h =
        let longer : 4 ≡ 8 + String.count stamp =
          ap String.count h ∙ length-append ".failed-" stamp in
        absurd (omega arith)

pub agent-ne-failed :
    (cfg : UpdaterConfig) (stamp : String)
    → cfg.agent_path ≢ String.◌++◌ cfg.agent_path (String.◌++◌ ".failed-" stamp)
agent-ne-failed cfg stamp e = nil-ne-failed (
    append_cancel_left cfg.agent_path "" (String.◌++◌ ".failed-" stamp)
      (append-nil cfg.agent_path ∙ e))
  where
    nil-ne-failed : "" ≢ String.◌++◌ ".failed-" stamp
    nil-ne-failed h =
        let longer : 0 ≡ 8 + String.count stamp =
          ap String.count h ∙ length-append ".failed-" stamp in
        absurd (omega arith)

-- The content of a path.
unfoldable pub at : String → World → Option Bytes
at path w = lookup path w.files

module _ (env : Environment) where
  files-start_service : (w : World) → (start_service env w).0.files ≡ w.files
  unfolding start_service tick
  files-start_service w = ground arith

  files-stop_service : (w : World) → (stop_service env w).0.files ≡ w.files
  unfolding stop_service tick
  files-stop_service w = ground arith

  pub running-start_service :
      (w : World) → (start_service env w).1 ≡ true → (start_service env w).0.running ≡ true
  unfolding start_service tick
  running-start_service w = ground arith

  rename_cases :
      (old new : String) (w : World)
      → (((rename env old new w).1 ≡ false) × ((rename env old new w).0.files ≡ w.files))
        ⊎ ((content : Bytes) × ((rename env old new w).1 ≡ true)
            × (at old w ≡ some content)
            × ((rename env old new w).0.files ≡ insert new content (erase old w.files)))
  unfolding rename tick at
  rename_cases old new w = elim (Bool-cases (env.fails w.calls)) [
    | inl e ↦ rw e (inl (refl, refl))
    | inr e ↦ elim (Option-cases (lookup old w.files)) [
      | inl n ↦ rw (e, n) (inl (refl, refl))
      | inr (content, s) ↦ rw (e, s) (inr (content, refl, refl, refl))
    ]
  ]

  -- What a path holds behind a rename.
  pub at-rename :
      (old new p : String) (w : World)
      → at p (rename env old new w).0 ≡ (
          if (rename env old new w).1
          then (if p == new then at old w else if p == old then none else at p w)
          else at p w)
  unfolding at
  at-rename old new p w = elim (rename_cases old new w) [
    | inl (e, same) ↦ rw (e, same) refl
    | inr (content, e, held, changed) ↦
        rw
          (
            e,
            changed,
            lookup-insert p new content (erase old w.files),
            lookup-erase p old w.files,
            held,
          )
          refl
  ]

  pub at-remove : (path p : String) (w : World) → p ≢ path → at p (remove env path w) ≡ at p w
  unfolding at remove tick
  at-remove path p w ne = ground (arith, lookup-erase p path w.files)

  pub at-remove_self :
      (path : String) (w : World)
      → (at path (remove env path w) ≡ none) ⊎ (at path (remove env path w) ≡ at path w)
  unfolding at remove tick
  at-remove_self path w = ground (arith, lookup-erase path path w.files)

  pub at-start_service : (p : String) (w : World) → at p (start_service env w).0 ≡ at p w
  unfolding at
  at-start_service p w = ap (lookup p) (files-start_service w)

  pub at-stop_service : (p : String) (w : World) → at p (stop_service env w).0 ≡ at p w
  unfolding at
  at-stop_service p w = ap (lookup p) (files-stop_service w)

  pub at-is_killed : (p : String) (w : World) → at p (is_killed env w).0 ≡ at p w
  unfolding at is_killed tick
  at-is_killed p w = refl
