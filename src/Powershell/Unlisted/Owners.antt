-- ===== src/Powershell/Unlisted/Owners.antt =====
-- internal/powershell/session.go: the child processes' owners in every state that is reached.
use windows_llmmanager.Base.Int.{ℤ}
use windows_llmmanager.Base.{
  Bool-cases, is_listed, true, ap, ℕ, ◌≤◌, ◌≡◌, ◌⊎◌, inl, inr, string_eq, [], length, arith,
}
use windows_llmmanager.Base.Dict.{lookup-nil}
use windows_llmmanager.Powershell.Session.{
  new_session_manager, restart_locked, begin_exec, end_exec, settle_exec,
}
use windows_llmmanager.Powershell.Owned.{IsAlive, Owner, restart-IsOwned}
use windows_llmmanager.Powershell.Leaks.{
  begin-IsOwned, end-IsOwned, settle-IsOwned, IsValid, new_session_manager-IsValid,
}
use windows_llmmanager.Powershell.Unlisted.{
  Unlocked, Step, creates, unlists, unlists_all, closes, kills, restarts, begins, settles, ends,
  Reach, here, next,
}
use windows_llmmanager.Powershell.Unlisted.Kept.{
  IsKept, machine-IsKept, unlist-IsKept, unlist_all-IsKept, close-IsKept, kill-IsKept,
  create-IsKept,
}

Step-IsKept : {u v : Unlocked} → IsKept u → Step u v → IsKept v
Step-IsKept {u} k (creates id starts now fresh undoomed) =
    create-IsKept id starts now u fresh undoomed k
Step-IsKept {u} k (unlists id) = unlist-IsKept id u k
Step-IsKept {u} k unlists_all = unlist_all-IsKept u k
Step-IsKept {u} k (closes id) = close-IsKept id u k
Step-IsKept {u} k (kills p) = kill-IsKept p u k
Step-IsKept {u} k (restarts a starts now) =
    machine-IsKept u (restart_locked a starts now u.manager.machine).0 k
      (restart-IsOwned k.all a starts now u.manager.machine k.owned)
Step-IsKept {u} k (begins a now) =
    machine-IsKept u (begin_exec a now u.manager.machine).0 k
      (begin-IsOwned k.all a now u.manager.machine k.owned)
Step-IsKept {u} k (settles a p event starts now) =
    machine-IsKept u (settle_exec a p event starts now u.manager.machine).0 k
      (settle-IsOwned k.all a p event starts now u.manager.machine k.owned)
Step-IsKept {u} k (ends a now) =
    machine-IsKept u (end_exec a now u.manager.machine) k
      (end-IsOwned k.all a now u.manager.machine k.owned)

Reach-IsKept : {u v : Unlocked} → IsKept u → Reach u v → IsKept v
Reach-IsKept k here = k
Reach-IsKept k (next r t) = Step-IsKept (Reach-IsKept k r) t

abbrev pub new_unlocked : ℕ → ℤ → Unlocked
new_unlocked max_sessions idle_timeout = record {
  manager = new_session_manager max_sessions idle_timeout;
  doomed = [];
  dying = [];
}

new_unlocked-IsKept :
    (max_sessions : ℕ) (idle_timeout : ℤ) → IsKept (new_unlocked max_sessions idle_timeout)
unfolding new_session_manager
new_unlocked-IsKept max_sessions idle_timeout = record {
  all = [];
  owned = unfold IsValid in (new_session_manager-IsValid max_sessions idle_timeout).0;
  listed = λ i b h. h;
  held = λ i b h. h;
  apart = λ i b h. lookup-nil i;
  covered = λ i b h. inl h;
  bound = omega arith;
}

-- With `Delete` and `KillAll` interleaved with every other call, also between their unlocking of the map,
-- that of a session's state, and the kill of its process, and all identifiers new: there are never more
-- than `max_sessions` in the map; every live child process belongs to an open session that is in the map
-- or that a running call is about to close, or a running call is about to kill it; and once the map is
-- empty and those calls are through, no child process lives.
pub Reach-owned :
    (max_sessions : ℕ) (idle_timeout : ℤ) (u : Unlocked)
    → Reach (new_unlocked max_sessions idle_timeout) u
    → (length u.manager.sessions ≤ u.manager.max_sessions)
      × ((p : ℕ)
          → IsAlive u.manager.machine p
          → Owner u.manager.sessions u.manager.machine p
            ⊎ (Owner u.doomed u.manager.machine p ⊎ (is_listed p u.dying ≡ true)))
      × (u.manager.sessions ≡ []
          → u.doomed ≡ []
          → u.dying ≡ []
          → (p : ℕ) → ¬ IsAlive u.manager.machine p)
unfolding Owner
Reach-owned max_sessions idle_timeout u r = (k.bound, owner, λ e f g p h. gone e f g (owner p h))
  where
    k : IsKept u
    k = Reach-IsKept (new_unlocked-IsKept max_sessions idle_timeout) r

    Held : ℕ → Type 0
    Held p =
        Owner u.manager.sessions u.manager.machine p
        ⊎ (Owner u.doomed u.manager.machine p ⊎ (is_listed p u.dying ≡ true))

    owner : (p : ℕ) → IsAlive u.manager.machine p → Held p
    owner p h = elim (Bool-cases (is_listed p u.dying)) [
      | inl d ↦ inr (inr d)
      | inr d ↦
          let (id, a, s, l, g, runs, opens) = k.owned.owner p h d in
          elim (k.covered id a l) [
            | inl m ↦ inl (id, a, s, m, g, runs, opens)
            | inr m ↦ inr (inl (id, a, s, m, g, runs, opens))
          ]
    ]

    gone : {p : ℕ} → u.manager.sessions ≡ [] → u.doomed ≡ [] → u.dying ≡ [] → Held p → ⊥
    gone e f g (inl (id, a, s, m, _, _, _)) = absurd (ground (arith, lookup-nil {V = ℕ} id))
    gone e f g (inr (inl (id, a, s, m, _, _, _))) = absurd (ground (arith, lookup-nil {V = ℕ} id))
    gone {p} e f g (inr (inr d)) = absurd (cc (ap (is_listed p) g))
