-- ===== src/Powershell/Unlisted/Through.antt =====
-- internal/powershell/session.go: `KillAll` comes through.
use windows_llmmanager.Base.Int.{ℤ}
use windows_llmmanager.Base.{
  ℕ, ◌≡◌, inl, inr, refl, ◌∙◌, String, string_eq, List, [], ◌∷◌, false, not, ◌&&◌, eqb, none, some,
  is_listed, Bool-cases, Option-cases, arith,
}
use windows_llmmanager.Base.Dict.{Dict, lookup, lookup-erase}
use windows_llmmanager.Powershell.Owned.{IsAlive}
use windows_llmmanager.Powershell.Unlisted.{
  Unlocked, unlist_all, close_doomed, kill_dying, unlists_all, closes, kills, Reach, here, next,
}
use windows_llmmanager.Powershell.Unlisted.Kept.{is_listed-without}
use windows_llmmanager.Powershell.Unlisted.Owners.{new_unlocked, Reach-owned}

-- The kills of processes, one after another.
unfoldable pub kill_each : List ℕ → Unlocked → Unlocked
kill_each [] u = u
kill_each (p ∷ ps) u = kill_each ps (kill_dying p u)

-- `KillAll` behind the unlocking: the loop over its sessions, each of which is closed and its process
-- killed. The kills that other calls have still to make come with them.
unfoldable pub abort_each : Dict String ℕ → Unlocked → Unlocked
unfolding kill_each
abort_each [] u = kill_each u.dying u
abort_each ((id, _) ∷ d) u =
    let closed = close_doomed id u in abort_each d (kill_each closed.dying closed)

Reach-trans : {u v w : Unlocked} → Reach u v → Reach v w → Reach u w
Reach-trans r here = r
Reach-trans r (next t s) = next (Reach-trans r t) s

kill_parts :
    (p : ℕ) (u : Unlocked)
    → ((kill_dying p u).manager.sessions ≡ u.manager.sessions)
      × ((kill_dying p u).doomed ≡ u.doomed)
      × ((q : ℕ) → is_listed q (kill_dying p u).dying ≡ is_listed q u.dying && not (eqb q p))
unfolding kill_dying
kill_parts p u = elim (Bool-cases (is_listed p u.dying)) [
  | inl l ↦ rw (l, kill_dying) (refl, refl, λ q. is_listed-without q p u.dying)
  | inr n ↦
      rw (n, kill_dying)
        (
          refl,
          refl,
          λ q. elim (Bool-cases (eqb q p)) [ inl e ↦ ground arith | inr e ↦ ground arith ],
        )
]

kill_each-Reach : (ps : List ℕ) (u : Unlocked) → Reach u (kill_each ps u)
unfolding kill_each
kill_each-Reach [] u = here
kill_each-Reach (p ∷ ps) u = Reach-trans (next here (kills p)) (kill_each-Reach ps (kill_dying p u))

kill_each_parts :
    (ps : List ℕ) (u : Unlocked)
    → ((kill_each ps u).manager.sessions ≡ u.manager.sessions)
      × ((kill_each ps u).doomed ≡ u.doomed)
      × ((q : ℕ) → is_listed q (kill_each ps u).dying ≡ is_listed q u.dying && not (is_listed q ps))
unfolding kill_each
kill_each_parts [] u = (refl, refl, λ q. ground arith)
kill_each_parts (p ∷ ps) u =
    let (sessions, doomed, dying) = kill_parts p u in
    let (sessions', doomed', dying') = kill_each_parts ps (kill_dying p u) in
    (sessions' ∙ sessions, doomed' ∙ doomed, λ q. ground (arith, dying q, dying' q))

none_listed : (ps : List ℕ) → ((q : ℕ) → is_listed q ps ≡ false) → ps ≡ []
none_listed [] h = refl
none_listed (p ∷ ps) h = absurd (ground (arith, h p))

none_held : (d : Dict String ℕ) → ((id : String) (a : ℕ) → lookup id d ≡ some a → ⊥) → d ≡ []
unfolding lookup
none_held [] h = refl
none_held ((id, a) ∷ d) h = absurd (h id a (ground arith))

close_parts :
    (k : String) (u : Unlocked)
    → ((close_doomed k u).manager.sessions ≡ u.manager.sessions)
      × ((id : String) (a : ℕ)
          → lookup id (close_doomed k u).doomed ≡ some a
          → (lookup id u.doomed ≡ some a) × ((x : ℕ) → lookup id ((k, x) ∷ []) ≡ none))
unfolding close_doomed lookup
close_parts k u = elim (Option-cases (lookup k u.doomed)) [
  | inl n ↦ rw (n, close_doomed) (refl, λ id a h. (h, λ x. ground arith))
  | inr (b, l) ↦
      rw (l, close_doomed)
        (
          refl,
          λ id a h. (
            ground (arith, lookup-erase id k u.doomed),
            λ x. ground (arith, lookup-erase id k u.doomed),
          ),
        )
]

-- The loop is a run of closes and kills, which leaves the map as it is, what it aborts not doomed, and
-- nothing to kill.
abort_each_lem :
    (d : Dict String ℕ) (u : Unlocked)
    → let v = abort_each d u in
      Reach u v
      × (v.manager.sessions ≡ u.manager.sessions)
      × ((id : String) (a : ℕ)
          → lookup id v.doomed ≡ some a
          → (lookup id u.doomed ≡ some a) × (lookup id d ≡ none))
      × ((q : ℕ) → is_listed q v.dying ≡ false)
unfolding abort_each lookup
abort_each_lem [] u =
    let (sessions, doomed, dying) = kill_each_parts u.dying u in
    (
      kill_each-Reach u.dying u,
      sessions,
      λ id a h. (rw (← doomed) h, refl),
      λ q. ground (arith, dying q),
    )
abort_each_lem ((k, b) ∷ d) u =
    let closed = close_doomed k u in
    let (same, held) = close_parts k u in
    let (sessions, doomed, _) = kill_each_parts closed.dying closed in
    let (r, sessions', held', through) = abort_each_lem d (kill_each closed.dying closed) in
    (
      Reach-trans (Reach-trans (next here (closes k)) (kill_each-Reach closed.dying closed)) r,
      sessions' ∙ sessions ∙ same,
      λ id a h.
          (let (l, absent) = held' id a h in
            let (l', other) = held id a (rw (← doomed) l) in (l', ground (arith, other b))),
      through,
    )

-- From every state that the sessions have come to since the start, `KillAll` run to its end, with the
-- closes and kills that other calls have still to make, leaves no session, no call under way, and no
-- child process alive.
pub unlist_all-through :
    (max_sessions : ℕ) (idle_timeout : ℤ) (u : Unlocked)
    → Reach (new_unlocked max_sessions idle_timeout) u
    → let w = unlist_all u in
      let v = abort_each w.doomed w in
      (v.manager.sessions ≡ [])
      × (v.doomed ≡ [])
      × (v.dying ≡ [])
      × ((p : ℕ) → ¬ IsAlive v.manager.machine p)
unfolding unlist_all
unlist_all-through max_sessions idle_timeout u r =
    let w = unlist_all u in
    let v = abort_each w.doomed w in
    let (t, same, held, through) = abort_each_lem w.doomed w in
    let doomed = none_held v.doomed λ id a h. (let (l, n) = held id a h in ground arith) in
    let dying = none_listed v.dying through in
    let (_, _, gone) =
      Reach-owned max_sessions idle_timeout v (Reach-trans (next r unlists_all) t) in
    (same, doomed, dying, gone same doomed dying)
