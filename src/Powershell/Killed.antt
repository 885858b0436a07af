-- ===== src/Powershell/Killed.antt =====
-- internal/powershell/session.go: what adding, dropping and ending a session does to the owners of the
-- child processes.
use windows_llmmanager.Base.{
  ℕ, ◌≡◌, ◌≢◌, inl, inr, refl, sym, ap, ◌∙◌, subst, String, string_eq, [], ◌∷◌, ◌++◌, true, false,
  Option, none, some, get_elem?, length, Bool-cases, Option-cases, arith, get_elem?-set_ne,
  get_elem?-append_old, get_elem?-append_new, get_elem?-set-some, get_elem?-append-some, nat_eq,
  List, is_listed,
}
use windows_llmmanager.Base.Dict.{
  Dict, lookup, insert, erase, lookup-insert-ne, lookup-erase-ne, lookup-insert_self,
}
use windows_llmmanager.Powershell.Session.{Session, Machine, new_session, close_session, abort}
use windows_llmmanager.Powershell.Owned.{
  IsAlive, Owner, IsOwned, heap-kill_process, kill_process-Owner,
}

pub add-IsOwned :
    {dying : List ℕ} (sessions : Dict String ℕ) (m : Machine) (name : String) (now : ℕ)
    → lookup name sessions ≡ none
    → IsOwned dying sessions m
    → IsOwned dying (insert name (length m.heap) sessions) (record {
      heap = m.heap ++ new_session name now (length m.alive) ∷ [];
      alive = m.alive ++ true ∷ [];
    })
unfolding IsAlive Owner new_session
add-IsOwned sessions m name now fresh o = record {
  owner = λ q h d. elim (get_elem?-append-some m.alive q true true h) [
    | inl (q_new, _) ↦ (
      name,
      length m.heap,
      new_session name now (length m.alive),
      lookup-insert_self name (length m.heap) sessions,
      get_elem?-append_new m.heap _,
      ap some (sym q_new),
      refl,
    )
    | inr h' ↦
        (let (id, b, r, l, g, runs, opens) = o.owner q h' d in
          (id, b, r, other id b l, get_elem?-append_old m.heap _ b r g, runs, opens))
  ];
  listed = λ b r g opens. elim (get_elem?-append-some m.heap b _ r g) [
    | inl (b_new, _) ↦
        (name, lookup-insert_self name (length m.heap) sessions ∙ ap some (sym b_new))
    | inr h ↦ (let (id, l) = o.listed b r h opens in (id, other id b l))
  ];
}
  where
    none-ne-some : (b : ℕ) → ◌≢◌ {A = Option ℕ} none (some b)
    none-ne-some b e = cc

    other :
        (id : String) (b : ℕ)
        → lookup id sessions ≡ some b
        → lookup id (insert name (length m.heap) sessions) ≡ some b
    other id b l =
        lookup-insert-ne id name (length m.heap) sessions
          (λ e. absurd (none-ne-some b (sym fresh ∙ ap (λ k. lookup k sessions) (sym e) ∙ l)))
        ∙ l

-- An entry is dropped, and its session ended.
pub drop-IsOwned :
    {dying dying' : List ℕ} (sessions : Dict String ℕ) (m m' : Machine) (id : String) (a : ℕ)
    → IsOwned dying sessions m
    → lookup id sessions ≡ some a
    → ((b : ℕ) (r : Session)
        → get_elem? m'.heap b ≡ some r
        → r.closed ≡ false
        → (b ≢ a) × (get_elem? m.heap b ≡ some r))
    → ((b : ℕ) (r : Session) → b ≢ a → get_elem? m.heap b ≡ some r → get_elem? m'.heap b ≡ some r)
    → ((q : ℕ)
        → IsAlive m' q
        → is_listed q dying' ≡ false
        → IsAlive m q
          × (is_listed q dying ≡ false)
          × ((r : Session) → get_elem? m.heap a ≡ some r → r.closed ≡ false → r.process ≢ some q))
    → IsOwned dying' (erase id sessions) m'
unfolding IsAlive Owner
drop-IsOwned sessions m m' id a o here back forth lives = record {
  owner = λ q h d.
      (let (alive, spared, ne) = lives q h d in
        let (k, b, r, l, g, runs, opens) = o.owner q alive spared in
        elim (nat_eq.dec b a) [
          | yes b_a ↦ absurd (ne r (subst (λ x. get_elem? m.heap x ≡ some r) b_a g) opens runs)
          | no b_ne ↦ (k, b, r, other k b l b_ne, forth b r b_ne g, runs, opens)
        ]);
  listed = λ b r g opens.
      (let (b_ne, h) = back b r g opens in
        let (k, l) = o.listed b r h opens in (k, other k b l b_ne));
}
  where
    some_inj : {x y : ℕ} → some x ≡ some y → x ≡ y
    some_inj e = cc

    other :
        (k : String) (b : ℕ)
        → lookup k sessions ≡ some b
        → b ≢ a
        → lookup k (erase id sessions) ≡ some b
    other k b l b_ne =
        lookup-erase-ne k id sessions
          (λ e. b_ne (some_inj (sym l ∙ ap (λ x. lookup x sessions) e ∙ here)))
        ∙ l

ended : Session → Session
ended s = record s { closed = true; process = none }

-- `Abort` closes the session, and then has the process of an open one to kill.
pub close_session_lem :
    (a : ℕ) (m : Machine)
    → let (m', process) = close_session a m in
      ((b : ℕ) (r : Session)
        → get_elem? m'.heap b ≡ some r
        → r.closed ≡ false
        → (b ≢ a) × (get_elem? m.heap b ≡ some r))
      × ((b : ℕ) (r : Session) → b ≢ a → get_elem? m.heap b ≡ some r → get_elem? m'.heap b ≡ some r)
      × (m'.alive ≡ m.alive)
      × ((q : ℕ)
          → process ≢ some q
          → (r : Session) → get_elem? m.heap a ≡ some r
          → r.closed ≡ false
          → r.process ≢ some q)
unfolding close_session ended
close_session_lem a m = elim (Option-cases (get_elem? m.heap a)) [
  | inl n ↦
      rw (close_session, n)
        (
          λ b r g opens. ((λ e. absurd (ground arith)), g),
          λ b r ne g. g,
          refl,
          λ q h r g. absurd (ground arith),
        )
  | inr (s, e) ↦ elim (Bool-cases s.closed) [
    | inl c ↦
        rw (close_session, e, c)
          (
            λ b r g opens. ((λ b_a. absurd (ground arith)), g),
            λ b r ne g. g,
            refl,
            λ q h r g opens. absurd (ground arith),
          )
    | inr c ↦
        rw (close_session, e, c)
          (
            λ b r g opens. elim (get_elem?-set-some m.heap a b (ended s) r g) [
              | inl (_, r_ended) ↦ absurd (true-ne-false (sym (ap Session.closed r_ended) ∙ opens))
              | inr (ne, h) ↦ (ne, h)
            ],
            λ b r ne g. get_elem?-set_ne m.heap a b (ended s) (λ x. ne (sym x)) ∙ g,
            refl,
            λ q ne r g opens runs.
                ne (ap Session.process (some_inj (record s { closed = false }) r g) ∙ runs),
          )
  ]
]
  where
    true-ne-false : true ≢ false
    true-ne-false x = cc

    some_inj : (s r : Session) → some s ≡ some r → s ≡ r
    some_inj s r x = cc

-- So the whole of `Abort` ends the session, and the process of an open one.
pub abort_lem :
    (a : ℕ) (m : Machine)
    → ((b : ℕ) (r : Session)
        → get_elem? (abort a m).heap b ≡ some r
        → r.closed ≡ false
        → (b ≢ a) × (get_elem? m.heap b ≡ some r))
      × ((b : ℕ) (r : Session)
          → b ≢ a
          → get_elem? m.heap b ≡ some r
          → get_elem? (abort a m).heap b ≡ some r)
      × ((q : ℕ)
          → IsAlive (abort a m) q
          → IsAlive m q
            × ((r : Session) → get_elem? m.heap a ≡ some r → r.closed ≡ false → r.process ≢ some q))
unfolding abort IsAlive
abort_lem a m =
    let (m', process) = close_session a m in
    let (back, forth, same, ends) = close_session_lem a m in
    rw (heap-kill_process process m') (
      back,
      forth,
      λ q h.
          (let (ne, lived) = kill_process-Owner [] m' process q h in
            (ap (λ x. get_elem? x q) (sym same) ∙ lived, ends q ne)),
    )
