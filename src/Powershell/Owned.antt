-- ===== src/Powershell/Owned.antt =====
-- internal/powershell/session.go: a child process that lives belongs to a session of the map.
use windows_llmmanager.Base.{
  ℕ, ◌≡◌, ◌≢◌, ◌⊎◌, inl, inr, refl, sym, ap, ◌∙◌, subst, String, string_eq, List, [], ◌∷◌, ◌++◌,
  Bool, true, false, Option, none, some, get_elem?, set, Bool-cases, Option-cases, arith,
  get_elem?-set_self, get_elem?-set_ne, get_elem?-set-some, get_elem?-append-some, nat_eq,
  is_listed,
}
use windows_llmmanager.Base.Dict.{Dict, lookup}
use windows_llmmanager.Powershell.Session.{
  Session, Machine, start_child, kill, kill_process, restart_locked,
}

unfoldable pub IsAlive : Machine → ℕ → Type 0
IsAlive m p = get_elem? m.alive p ≡ some true

-- A session of the map that is open and runs the process.
unfoldable pub Owner : Dict String ℕ → Machine → ℕ → Type 0
Owner sessions m p =
    (id : String) × (a : ℕ) × (s : Session) × (lookup id sessions ≡ some a)
    × (get_elem? m.heap a ≡ some s)
    × (s.process ≡ some p)
    × (s.closed ≡ false)

-- Every live process that is not about to be killed has an owner, and every open session is in the map.
pub record IsOwned (dying : List ℕ) (sessions : Dict String ℕ) (m : Machine) : Type 0 where
  pub owner : (p : ℕ) → IsAlive m p → is_listed p dying ≡ false → Owner sessions m p
  pub listed :
      (a : ℕ) (s : Session)
      → get_elem? m.heap a ≡ some s
      → s.closed ≡ false
      → (id : String) × (lookup id sessions ≡ some a)

pub IsAlive-kill : (m : Machine) (p q : ℕ) → IsAlive (kill p m) q → (q ≢ p) × IsAlive m q
unfolding IsAlive kill
IsAlive-kill m p q h = ground (arith, get_elem?-set-some m.alive p q false true h)

pub kill-IsOwned :
    {dying : List ℕ} (sessions : Dict String ℕ) (m : Machine) (p : ℕ)
    → IsOwned dying sessions m
    → IsOwned dying sessions (kill p m)
unfolding kill Owner
kill-IsOwned sessions m p o = record {
  owner = λ q h d. o.owner q (IsAlive-kill m p q h).1 d;
  listed = o.listed;
}

-- A session that is replaced by one with the same process and the same end.
set-Owner :
    (sessions : Dict String ℕ) (m : Machine) (a : ℕ) (s t : Session) (p : ℕ)
    → get_elem? m.heap a ≡ some s
    → ((s.process ≡ some p) → t.process ≡ some p)
    → (s.closed ≡ false → t.closed ≡ false)
    → Owner sessions m p
    → Owner sessions (record m { heap = set m.heap a t }) p
unfolding Owner
set-Owner sessions m a s t p e same_p same_c (id, b, r, l, g, runs, opens) = elim (nat_eq.dec b a) [
  | yes b_a ↦ (
    id,
    a,
    t,
    subst (λ x. lookup id sessions ≡ some x) b_a l,
    get_elem?-set_self m.heap a t s e,
    same_p (ground arith),
    same_c (ground arith),
  )
  | no ne ↦ (id, b, r, l, get_elem?-set_ne m.heap a b t (λ x. ne (sym x)) ∙ g, runs, opens)
]

pub set-IsOwned :
    {dying : List ℕ} (sessions : Dict String ℕ) (m : Machine) (a : ℕ) (s t : Session)
    → get_elem? m.heap a ≡ some s
    → t.process ≡ s.process
    → t.closed ≡ s.closed
    → IsOwned dying sessions m
    → IsOwned dying sessions (record m { heap = set m.heap a t })
unfolding IsAlive
set-IsOwned sessions m a s t e same_p same_c o = record {
  owner =
      λ p h d. set-Owner sessions m a s t p e (λ x. same_p ∙ x) (λ x. same_c ∙ x) (o.owner p h d);
  listed = λ b r g opens. elim (get_elem?-set-some m.heap a b t r g) [
    | inl (b_a, r_t) ↦
        subst (λ x. (id : String) × (lookup id sessions ≡ some x)) (sym b_a)
          (o.listed a s e (sym same_c ∙ ground arith))
    | inr (_, h) ↦ o.listed b r h opens
  ];
}

-- The address of a process is free to be killed where it is that of a session.
pub kill_process-Owner :
    (sessions : Dict String ℕ) (m : Machine) (process : Option ℕ) (q : ℕ)
    → IsAlive (kill_process process m) q
    → (process ≢ some q) × IsAlive m q
kill_process-Owner sessions m none q h = ((λ e. cc), h)
kill_process-Owner sessions m (some p) q h =
    let (ne, alive) = IsAlive-kill m p q h in ((λ e. ne (ground arith)), alive)

pub heap-kill_process : (process : Option ℕ) (m : Machine) → (kill_process process m).heap ≡ m.heap
unfolding kill
heap-kill_process none m = refl
heap-kill_process (some p) m = refl

-- An open session is replaced by an open one, where what lives runs in the new one, or lived before
-- and did not run in the old one.
replace-IsOwned :
    {dying : List ℕ} (sessions : Dict String ℕ) (m : Machine) (a : ℕ) (s t : Session)
    (alive : List Bool)
    → IsOwned dying sessions m
    → get_elem? m.heap a ≡ some s
    → s.closed ≡ false
    → t.closed ≡ false
    → ((q : ℕ)
        → get_elem? alive q ≡ some true
        → (t.process ≡ some q) ⊎ ((s.process ≢ some q) × IsAlive m q))
    → IsOwned dying sessions (record { heap = set m.heap a t; alive = alive })
unfolding IsAlive Owner
replace-IsOwned sessions m a s t alive o e open_s open_t lives = record {
  owner = λ q h d. elim (lives q h) [
    | inl runs ↦
        (let (id, l) = o.listed a s e open_s in
          (id, a, t, l, get_elem?-set_self m.heap a t s e, runs, open_t))
    | inr (ne, h') ↦ elsewhere q ne (o.owner q h' d)
  ];
  listed = λ b r g opens. elim (get_elem?-set-some m.heap a b t r g) [
    | inl (b_a, _) ↦
        subst (λ x. (id : String) × (lookup id sessions ≡ some x)) (sym b_a) (o.listed a s e open_s)
    | inr (_, h) ↦ o.listed b r h opens
  ];
}
  where
    elsewhere :
        (q : ℕ)
        → s.process ≢ some q
        → Owner sessions m q
        → Owner sessions (record { heap = set m.heap a t; alive = alive }) q
    elsewhere q ne (id, b, r, l, g, runs, opens) = elim (nat_eq.dec b a) [
      | yes b_a ↦ absurd (ne (ground arith))
      | no b_ne ↦ (id, b, r, l, get_elem?-set_ne m.heap a b t (λ x. b_ne (sym x)) ∙ g, runs, opens)
    ]

-- `restartLocked`, with and without a new process.
pub restart-IsOwned :
    {dying : List ℕ} (sessions : Dict String ℕ) (a : ℕ) (starts : Bool) (now : ℕ) (m : Machine)
    → IsOwned dying sessions m
    → IsOwned dying sessions (restart_locked a starts now m).0
unfolding restart_locked start_child IsAlive
restart-IsOwned sessions a starts now m o = elim (Option-cases (get_elem? m.heap a)) [
  | inl n ↦ rw (restart_locked, n) o
  | inr (s, e) ↦ elim (Bool-cases s.closed) [
    | inl c ↦ rw (restart_locked, e, c) o
    | inr c ↦ elim (Bool-cases starts) [
      | inr f ↦
          rw (restart_locked, e, c, f, heap-kill_process s.process m)
            (replace-IsOwned sessions m a s _ (kill_process s.process m).alive o e c refl
              (λ q h. inr (kill_process-Owner sessions m s.process q h)))
      | inl f ↦
          rw (restart_locked, e, c, f, heap-kill_process s.process m)
            (replace-IsOwned sessions m a s _ ((kill_process s.process m).alive ++ true ∷ []) o e c
              refl
              (λ q h. elim (get_elem?-append-some (kill_process s.process m).alive q true true h) [
                | inl (q_new, _) ↦ inl (ap some (sym q_new))
                | inr h' ↦ inr (kill_process-Owner sessions m s.process q h')
              ]))
    ]
  ]
]
