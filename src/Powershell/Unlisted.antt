-- ===== src/Powershell/Unlisted.antt =====
-- internal/powershell/session.go: `Delete` and `KillAll` as they run: the map is unlocked before the
-- sessions are aborted, and a session's state before its process is killed, so that other calls come
-- between.
pub mod Kept
pub mod Owners
pub mod Through
use windows_llmmanager.Base.{
  ℕ, ◌≡◌, String, string_eq, List, [], ◌∷◌, ◌++◌, Bool, not, eqb, Option, none, some, is_listed,
  if◌then◌else◌,
}
use windows_llmmanager.Base.Dict.{Dict, lookup, insert, erase}
use windows_llmmanager.Powershell.Session.{
  Machine, SessionManager, create, kill, close_session, restart_locked, begin_exec, end_exec,
  ExecEvent, settle_exec,
}

-- The manager, and the sessions that running calls of `Delete` and `KillAll` have taken out of its map
-- and have not closed yet, and the processes of those that are closed and not killed yet.
pub record Unlocked : Type 0 where
  pub manager : SessionManager
  pub doomed : Dict String ℕ
  pub dying : List ℕ

-- `Delete` up to the unlocking.
unfoldable pub unlist : String → Unlocked → Unlocked
unlist id u = elim (lookup id u.manager.sessions) [
  | none ↦ u
  | some a ↦
      let m = u.manager in
      record {
        manager = record m { sessions = erase id m.sessions };
        doomed = insert id a u.doomed;
        dying = u.dying;
      }
]

-- `KillAll` up to the unlocking.
unfoldable pub unlist_all : Unlocked → Unlocked
unlist_all u =
    let m = u.manager in
    record {
      manager = record m { sessions = [] };
      doomed = m.sessions ++ u.doomed;
      dying = u.dying;
    }

abbrev pub add_process : Option ℕ → List ℕ → List ℕ
add_process none ps = ps
add_process (some p) ps = p ∷ ps

-- One call of `Abort` behind it, up to the unlocking of the session's state.
unfoldable pub close_doomed : String → Unlocked → Unlocked
unfolding close_session
close_doomed id u = elim (lookup id u.doomed) [
  | none ↦ u
  | some a ↦
      let m = u.manager in
      let (machine, process) = close_session a m.machine in
      record {
        manager = record m { machine = machine };
        doomed = erase id u.doomed;
        dying = add_process process u.dying;
      }
]

unfoldable pub without : ℕ → List ℕ → List ℕ
without p [] = []
without p (q ∷ rest) = let kept = without p rest in if eqb p q then kept else q ∷ kept

-- And its end, which kills the process.
unfoldable pub kill_dying : ℕ → Unlocked → Unlocked
unfolding kill without
kill_dying p u =
    if not (is_listed p u.dying)
    then u
    else let m = u.manager in
      record u { manager = record m { machine = kill p m.machine }; dying = without p u.dying }

abbrev pub at_machine : Machine → Unlocked → Unlocked
at_machine machine u = let m = u.manager in record u { manager = record m { machine = machine } }

-- The identifiers that `randomID` draws are new.
pub data Step (u : Unlocked) : Unlocked → Type 0 where
  creates :
      (id : String) (starts : Bool) (now : ℕ)
      → lookup id u.manager.sessions ≡ none
      → lookup id u.doomed ≡ none
      → Step u (record u { manager = (create (some id) starts now u.manager).0 })
  unlists : (id : String) → Step u (unlist id u)
  unlists_all : Step u (unlist_all u)
  closes : (id : String) → Step u (close_doomed id u)
  kills : (p : ℕ) → Step u (kill_dying p u)
  restarts :
      (a : ℕ) (starts : Bool) (now : ℕ)
      → Step u (at_machine (restart_locked a starts now u.manager.machine).0 u)
  begins : (a now : ℕ) → Step u (at_machine (begin_exec a now u.manager.machine).0 u)
  settles :
      (a p : ℕ) (event : ExecEvent) (starts : Bool) (now : ℕ)
      → Step u (at_machine (settle_exec a p event starts now u.manager.machine).0 u)
  ends : (a now : ℕ) → Step u (at_machine (end_exec a now u.manager.machine) u)

pub data Reach (u : Unlocked) : Unlocked → Type 0 where
  here : Reach u u
  next : {v w : Unlocked} → Reach u v → Step v w → Reach u w
