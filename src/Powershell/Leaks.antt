-- ===== src/Powershell/Leaks.antt =====
-- internal/powershell/session.go: whatever happens to the sessions, no child process is left behind.
use windows_llmmanager.Base.Int.{ℤ}
use windows_llmmanager.Base.{
  ℕ, ◌≤◌, ◌≡◌, ◌≢◌, inl, inr, refl, subst, String, string_eq, List, [], ◌∷◌, Bool, false, Option,
  none, some, get_elem?, length, leb, Bool-cases, Option-cases, arith, nat_eq,
}
use windows_llmmanager.Base.Dict.{Dict, lookup, length-insert, length-erase-le}
use windows_llmmanager.Powershell.Session.{
  Session, Machine, SessionManager, new_session_manager, start_child, kill, create, abort, delete,
  abort_all, kill_all, restart_locked, begin_exec, end_exec, ExecEvent, write_failed, timed_out,
  frame_failed, framed, settle_exec, idle_ids, delete_all, reap,
}
use windows_llmmanager.Powershell.Owned.{
  IsAlive, Owner, IsOwned, kill-IsOwned, set-IsOwned, restart-IsOwned,
}
use windows_llmmanager.Powershell.Killed.{add-IsOwned, drop-IsOwned, abort_lem}

-- The steps of the manager, of the callers that hold a session, and of the reaper. An identifier that
-- `randomID` draws is new.
pub data Step : SessionManager → SessionManager → Type 0 where
  creates :
      (id : String) (starts : Bool) (now : ℕ) (m : SessionManager)
      → lookup id m.sessions ≡ none
      → Step m (create (some id) starts now m).0
  deletes : (id : String) (m : SessionManager) → Step m (delete id m).0
  kills_all : (m : SessionManager) → Step m (kill_all m)
  restarts :
      (a : ℕ) (starts : Bool) (now : ℕ) (m : SessionManager)
      → Step m (record m { machine = (restart_locked a starts now m.machine).0 })
  begins :
      (a now : ℕ) (m : SessionManager)
      → Step m (record m { machine = (begin_exec a now m.machine).0 })
  settles :
      (a p : ℕ) (event : ExecEvent) (starts : Bool) (now : ℕ) (m : SessionManager)
      → Step m (record m { machine = (settle_exec a p event starts now m.machine).0 })
  ends : (a now : ℕ) (m : SessionManager) → Step m (record m { machine = end_exec a now m.machine })
  reaps : (now : ℕ) (m : SessionManager) → Step m (reap now m)

pub data Reach : SessionManager → SessionManager → Type 0 where
  here : (m : SessionManager) → Reach m m
  next : {m p q : SessionManager} → Reach m p → Step p q → Reach m q

unfoldable pub IsValid : SessionManager → Type 0
IsValid m = IsOwned [] m.sessions m.machine × (length m.sessions ≤ m.max_sessions)

delete-IsValid : (id : String) (m : SessionManager) → IsValid m → IsValid (delete id m).0
unfolding IsValid delete
delete-IsValid id m (o, bound) = elim (Option-cases (lookup id m.sessions)) [
  | inl n ↦ rw (delete, n) (o, bound)
  | inr (a, l) ↦
      (let (back, forth, lives) = abort_lem a m.machine in
        rw (delete, l)
          (
            drop-IsOwned m.sessions m.machine (abort a m.machine) id a o l back forth
                (λ q h d. ((lives q h).0, d, (lives q h).1)),
            omega (arith, length-erase-le id m.sessions),
          ))
]

create-IsValid :
    (id : String) (starts : Bool) (now : ℕ) (m : SessionManager)
    → lookup id m.sessions ≡ none
    → IsValid m
    → IsValid (create (some id) starts now m).0
unfolding IsValid create start_child
create-IsValid id starts now m fresh (o, bound) =
    elim (Bool-cases (leb m.max_sessions (length m.sessions))) [
      | inl f ↦ rw (create, f) (o, bound)
      | inr f ↦ elim (Bool-cases starts) [
        | inr s ↦ rw (create, f, s) (o, bound)
        | inl s ↦
            rw (create, f, s)
              (
                add-IsOwned m.sessions m.machine id now fresh o,
                ground (arith, length-insert id (length m.machine.heap) m.sessions),
              )
      ]
    ]

delete_all-IsValid :
    (ids : List String) (m : SessionManager) → IsValid m → IsValid (delete_all ids m)
unfolding delete_all
delete_all-IsValid [] m v = v
delete_all-IsValid (id ∷ ids) m v = delete_all-IsValid ids (delete id m).0 (delete-IsValid id m v)

pub begin-IsOwned :
    {dying : List ℕ} (sessions : Dict String ℕ) (a now : ℕ) (m : Machine)
    → IsOwned dying sessions m
    → IsOwned dying sessions (begin_exec a now m).0
unfolding begin_exec
begin-IsOwned sessions a now m o = elim (Option-cases (get_elem? m.heap a)) [
  | inl n ↦ rw (begin_exec, n) o
  | inr (s, e) ↦ elim (Bool-cases s.closed) [
    | inl c ↦ rw (begin_exec, e, c) o
    | inr c ↦ elim (Option-cases s.process) [
      | inl n ↦ rw (begin_exec, e, c, n) o
      | inr (p, r) ↦ rw (begin_exec, e, c, r) (set-IsOwned sessions m a s _ e refl refl o)
    ]
  ]
]

pub end-IsOwned :
    {dying : List ℕ} (sessions : Dict String ℕ) (a now : ℕ) (m : Machine)
    → IsOwned dying sessions m
    → IsOwned dying sessions (end_exec a now m)
unfolding end_exec
end-IsOwned sessions a now m o = elim (Option-cases (get_elem? m.heap a)) [
  | inl n ↦ rw (end_exec, n) o
  | inr (s, e) ↦ rw (end_exec, e) (set-IsOwned sessions m a s _ e refl refl o)
]

pub settle-IsOwned :
    {dying : List ℕ} (sessions : Dict String ℕ) (a p : ℕ) (event : ExecEvent) (starts : Bool)
    (now : ℕ) (m : Machine)
    → IsOwned dying sessions m
    → IsOwned dying sessions (settle_exec a p event starts now m).0
unfolding settle_exec
settle-IsOwned sessions a p write_failed starts now m o = restart-IsOwned sessions a starts now m o
settle-IsOwned sessions a p timed_out starts now m o =
    restart-IsOwned sessions a starts now (kill p m) (kill-IsOwned sessions m p o)
settle-IsOwned sessions a p frame_failed starts now m o =
    restart-IsOwned sessions a starts now (kill p m) (kill-IsOwned sessions m p o)
settle-IsOwned sessions a p framed starts now m o = o

abort_all-IsAlive :
    (d : Dict String ℕ) (m : Machine) (p : ℕ) → IsAlive (abort_all d m) p → IsAlive m p
unfolding abort_all
abort_all-IsAlive [] m p h = h
abort_all-IsAlive ((_, b) ∷ d) m p h = ((abort_lem b m).2 p (abort_all-IsAlive d (abort b m) p h)).0

-- What is open behind the loop was so before, and was none of its sessions.
abort_all-open :
    (d : Dict String ℕ) (m : Machine) (b : ℕ) (r : Session)
    → get_elem? (abort_all d m).heap b ≡ some r
    → r.closed ≡ false
    → (get_elem? m.heap b ≡ some r) × ((id : String) → lookup id d ≢ some b)
unfolding abort_all lookup
abort_all-open [] m b r g opens = (g, λ id l. none-ne-some b l)
  where
    none-ne-some : (b : ℕ) → ◌≢◌ {A = Option ℕ} none (some b)
    none-ne-some b e = cc
abort_all-open ((k, a) ∷ d) m b r g opens =
    let (g', absent) = abort_all-open d (abort a m) b r g opens in
    let (ne, g'') = (abort_lem a m).0 b r g' opens in (g'', λ id. ground (arith, absent id, ne))

-- The owner of a process that lives behind the loop is none of its sessions.
abort_all-owner :
    (d : Dict String ℕ) (m : Machine) (p a : ℕ) (s : Session) (id : String)
    → IsAlive (abort_all d m) p
    → get_elem? m.heap a ≡ some s
    → s.process ≡ some p
    → s.closed ≡ false
    → lookup id d ≢ some a
unfolding abort_all lookup
abort_all-owner [] m p a s id h g runs opens l = none-ne-some a l
  where
    none-ne-some : (b : ℕ) → ◌≢◌ {A = Option ℕ} none (some b)
    none-ne-some b e = cc
abort_all-owner ((k, b) ∷ d) m p a s id h g runs opens l = elim (nat_eq.dec a b) [
  | yes a_b ↦
      ((abort_lem b m).2 p (abort_all-IsAlive d (abort b m) p h)).1 s
        (subst (λ x. get_elem? m.heap x ≡ some s) a_b g) opens runs
  | no ne ↦
      (let rest =
          abort_all-owner d (abort b m) p a s id h ((abort_lem b m).1 a s ne g) runs opens in
        absurd (ground arith))
]

-- `KillAll` kills every child process there is, and leaves no session.
pub kill_all_lem :
    (m : SessionManager)
    → IsValid m
    → ((p : ℕ) → ¬ IsAlive (kill_all m).machine p) × ((kill_all m).sessions ≡ [])
unfolding kill_all IsValid Owner
kill_all_lem m (o, bound) = (
  λ p h.
      (let (id, a, s, l, g, runs, opens) =
          o.owner p (abort_all-IsAlive m.sessions m.machine p h) refl in
        abort_all-owner m.sessions m.machine p a s id h g runs opens l),
  refl,
)

kill_all-IsValid : (m : SessionManager) → IsValid m → IsValid (kill_all m)
unfolding kill_all IsValid
kill_all-IsValid m v = (
  record {
    owner = λ p h d. absurd ((kill_all_lem m v).0 p h);
    listed = λ b r g opens.
        (let (g', absent) = abort_all-open m.sessions m.machine b r g opens in
          let (id, l) = v.0.listed b r g' opens in absurd (absent id l));
  },
  omega arith,
)

-- Every step keeps the invariant: a live child process belongs to an open session of the map, and
-- there are no more sessions than allowed.
pub Step-IsValid : {m p : SessionManager} → Step m p → IsValid m → IsValid p
unfolding IsValid reap
Step-IsValid (creates id starts now m fresh) v = create-IsValid id starts now m fresh v
Step-IsValid (deletes id m) v = delete-IsValid id m v
Step-IsValid (kills_all m) v = kill_all-IsValid m v
Step-IsValid (restarts a starts now m) v =
    (restart-IsOwned m.sessions a starts now m.machine v.0, v.1)
Step-IsValid (begins a now m) v = (begin-IsOwned m.sessions a now m.machine v.0, v.1)
Step-IsValid (settles a p event starts now m) v =
    (settle-IsOwned m.sessions a p event starts now m.machine v.0, v.1)
Step-IsValid (ends a now m) v = (end-IsOwned m.sessions a now m.machine v.0, v.1)
Step-IsValid (reaps now m) v =
    delete_all-IsValid (idle_ids now m.idle_timeout m.machine.heap m.sessions) m v

Reach-IsValid : {m p : SessionManager} → Reach m p → IsValid m → IsValid p
Reach-IsValid (here m) v = v
Reach-IsValid (next r s) v = Step-IsValid s (Reach-IsValid r v)

pub new_session_manager-IsValid :
    (max_sessions : ℕ) (idle_timeout : ℤ) → IsValid (new_session_manager max_sessions idle_timeout)
unfolding IsValid new_session_manager IsAlive
new_session_manager-IsValid max_sessions idle_timeout = (
  record { owner = λ p h d. absurd (ground arith); listed = λ a s g _. absurd (ground arith) },
  omega arith,
)

-- In whatever state the sessions have come to since the start, there are at most `max_sessions`, every
-- live child process belongs to an open one of them, and `KillAll` leaves none alive.
pub Reach-no_leak :
    (max_sessions : ℕ) (idle_timeout : ℤ) {m : SessionManager}
    → Reach (new_session_manager max_sessions idle_timeout) m
    → (length m.sessions ≤ m.max_sessions)
      × ((p : ℕ) → IsAlive m.machine p → Owner m.sessions m.machine p)
      × ((p : ℕ) → ¬ IsAlive (kill_all m).machine p)
unfolding IsValid
Reach-no_leak max_sessions idle_timeout {m} r =
    let v = Reach-IsValid r (new_session_manager-IsValid max_sessions idle_timeout) in
    (v.1, (λ p h. v.0.owner p h refl), (kill_all_lem m v).0)
