-- ===== src/Powershell/Unlisted/Kept.antt =====
-- internal/powershell/session.go: what the calls, interleaved, keep of the sessions.
use windows_llmmanager.Base.{
  ℕ, ◌≤◌, ◌≡◌, ◌⊎◌, inl, inr, refl, String, string_eq, [], ◌∷◌, ◌++◌, Bool, false, not, ◌&&◌, eqb,
  ◌≢◌, ap, sym, ◌∙◌, List, Option, get_elem?, is_listed, none, some, length, leb, Bool-cases,
  Option-cases, arith,
}
use windows_llmmanager.Base.Dict.{
  Dict, lookup, insert, erase, lookup-insert, lookup-erase, lookup-nil, length-insert,
  length-erase-le,
}
use windows_llmmanager.Powershell.Session.{Machine, start_child, create, kill, close_session}
use windows_llmmanager.Powershell.Owned.{IsAlive, Owner, IsAlive-kill, IsOwned}
use windows_llmmanager.Powershell.Killed.{add-IsOwned, drop-IsOwned, close_session_lem}
use windows_llmmanager.Powershell.Unlisted.{
  Unlocked, unlist, unlist_all, add_process, without, close_doomed, kill_dying, at_machine,
}

-- The sessions that are listed and those that are doomed are together a map `all` that owns every
-- process, and no identifier is in both.
pub record IsKept (u : Unlocked) : Type 0 where
  pub all : Dict String ℕ
  pub owned : IsOwned u.dying all u.manager.machine
  pub listed :
      (id : String) (a : ℕ) → lookup id u.manager.sessions ≡ some a → lookup id all ≡ some a
  pub held : (id : String) (a : ℕ) → lookup id u.doomed ≡ some a → lookup id all ≡ some a
  pub apart :
      (id : String) (a : ℕ) → lookup id u.doomed ≡ some a → lookup id u.manager.sessions ≡ none
  pub covered :
      (id : String) (a : ℕ)
      → lookup id all ≡ some a
      → (lookup id u.manager.sessions ≡ some a) ⊎ (lookup id u.doomed ≡ some a)
  pub bound : length u.manager.sessions ≤ u.manager.max_sessions

pub machine-IsKept :
    (u : Unlocked) (machine : Machine) (k : IsKept u)
    → IsOwned u.dying k.all machine
    → IsKept (at_machine machine u)
machine-IsKept u machine k o = record {
  all = k.all;
  owned = o;
  listed = k.listed;
  held = k.held;
  apart = k.apart;
  covered = k.covered;
  bound = k.bound;
}

lookup-append :
    (id : String) (d e : Dict String ℕ)
    → lookup id (d ++ e) ≡ (elim (lookup id d) [ none ↦ lookup id e | some a ↦ some a ])
unfolding lookup
lookup-append id [] e = refl
lookup-append id ((k, a) ∷ d) e = ground (arith, lookup-append id d e)

pub unlist-IsKept : (id : String) (u : Unlocked) → IsKept u → IsKept (unlist id u)
unfolding unlist
unlist-IsKept id u k = elim (Option-cases (lookup id u.manager.sessions)) [
  | inl n ↦ rw (n, unlist) k
  | inr (a, l) ↦
      rw (l, unlist)
        (record {
          all = k.all;
          owned = k.owned;
          listed = λ i b h. k.listed i b (ground (arith, lookup-erase i id u.manager.sessions));
          held =
              λ i b h. ground (arith, lookup-insert i id a u.doomed, k.held i b, k.listed id a l);
          apart = λ i b h. ground (
            arith,
            lookup-insert i id a u.doomed,
            lookup-erase i id u.manager.sessions,
            k.apart i b,
          );
          covered = λ i b h. ground (
            arith,
            lookup-insert i id a u.doomed,
            lookup-erase i id u.manager.sessions,
            k.covered i b h,
            k.listed id a l,
          );
          bound = omega (arith, length-erase-le id u.manager.sessions);
        })
]

pub unlist_all-IsKept : (u : Unlocked) → IsKept u → IsKept (unlist_all u)
unfolding unlist_all
unlist_all-IsKept u k = record {
  all = k.all;
  owned = k.owned;
  listed = λ i b h. absurd (ground (arith, lookup-nil {V = ℕ} i));
  held = λ i b h. held i b (Option-cases (lookup i u.manager.sessions)) h;
  apart = λ i b h. lookup-nil i;
  covered = λ i b h.
      inr
        (ground (arith, lookup-append i u.manager.sessions u.doomed, k.covered i b h, k.apart i b));
  bound = omega arith;
}
  where
    held :
        (i : String) (b : ℕ)
        → (lookup i u.manager.sessions ≡ none) ⊎ ((a : ℕ) × (lookup i u.manager.sessions ≡ some a))
        → lookup i (u.manager.sessions ++ u.doomed) ≡ some b
        → lookup i k.all ≡ some b
    held i b (inl n) h = k.held i b (ground (arith, lookup-append i u.manager.sessions u.doomed))
    held i b (inr (a, l)) h =
        k.listed i b (ground (arith, lookup-append i u.manager.sessions u.doomed))

add_process-listed :
    (q : ℕ) (process : Option ℕ) (ps : List ℕ)
    → is_listed q (add_process process ps) ≡ false
    → (process ≢ some q) × (is_listed q ps ≡ false)
add_process-listed q none ps h = ((λ e. cc), h)
add_process-listed q (some p) ps h = ((λ e. absurd (ground arith)), ground arith)

pub close-IsKept : (id : String) (u : Unlocked) → IsKept u → IsKept (close_doomed id u)
unfolding close_doomed IsAlive
close-IsKept id u k = elim (Option-cases (lookup id u.doomed)) [
  | inl n ↦ rw (n, close_doomed) k
  | inr (a, l) ↦
      let (machine, process) = close_session a u.manager.machine in
      let (back, forth, same, ends) = close_session_lem a u.manager.machine in
      rw (l, close_doomed)
        (record {
          all = erase id k.all;
          owned =
              drop-IsOwned k.all u.manager.machine machine id a k.owned (k.held id a l) back forth
                λ q h d.
                  (let (ne, spared) = add_process-listed q process u.dying d in
                    (ap (λ x. get_elem? x q) (sym same) ∙ h, spared, ends q ne));
          listed = λ i b h. ground (arith, lookup-erase i id k.all, k.listed i b h, k.apart id a l);
          held = λ i b h.
              ground (arith, lookup-erase i id k.all, lookup-erase i id u.doomed, k.held i b);
          apart = λ i b h. k.apart i b (ground (arith, lookup-erase i id u.doomed));
          covered = λ i b h.
              ground (arith, lookup-erase i id k.all, lookup-erase i id u.doomed, k.covered i b);
          bound = k.bound;
        })
]

pub is_listed-without :
    (q p : ℕ) (ps : List ℕ) → is_listed q (without p ps) ≡ is_listed q ps && not (eqb q p)
unfolding without
is_listed-without q p [] = refl
is_listed-without q p (x ∷ ps) = ground (arith, is_listed-without q p ps)

pub kill-IsKept : (p : ℕ) (u : Unlocked) → IsKept u → IsKept (kill_dying p u)
unfolding kill_dying
kill-IsKept p u k = elim (Bool-cases (is_listed p u.dying)) [
  | inr n ↦ rw (n, kill_dying) k
  | inl l ↦
      rw (l, kill_dying)
        (record {
          all = k.all;
          owned = record {
            owner = λ q h d.
                (let (ne, lived) = IsAlive-kill u.manager.machine p q h in
                  unfold kill Owner in
                  k.owned.owner q lived (ground (arith, is_listed-without q p u.dying)));
            listed = unfold kill in k.owned.listed;
          };
          listed = k.listed;
          held = k.held;
          apart = k.apart;
          covered = k.covered;
          bound = k.bound;
        })
]

pub create-IsKept :
    (id : String) (starts : Bool) (now : ℕ) (u : Unlocked)
    → lookup id u.manager.sessions ≡ none
    → lookup id u.doomed ≡ none
    → IsKept u
    → IsKept (record u { manager = (create (some id) starts now u.manager).0 })
unfolding create start_child
create-IsKept id starts now u fresh undoomed k =
    elim (Bool-cases (leb u.manager.max_sessions (length u.manager.sessions))) [
      | inl f ↦ rw (create, f) k
      | inr f ↦ elim (Bool-cases starts) [
        | inr s ↦ rw (create, f, s) k
        | inl s ↦
            let a = length u.manager.machine.heap in
            rw (create, f, s)
              (record {
                all = insert id a k.all;
                owned = add-IsOwned k.all u.manager.machine id now free k.owned;
                listed = λ i b h. ground (
                  arith,
                  lookup-insert i id a u.manager.sessions,
                  lookup-insert i id a k.all,
                  k.listed i b,
                );
                held = λ i b h. ground (arith, lookup-insert i id a k.all, k.held i b h, undoomed);
                apart = λ i b h.
                    ground
                      (arith, lookup-insert i id a u.manager.sessions, k.apart i b h, undoomed);
                covered = λ i b h. ground (
                  arith,
                  lookup-insert i id a u.manager.sessions,
                  lookup-insert i id a k.all,
                  k.covered i b,
                );
                bound = ground (arith, length-insert id a u.manager.sessions);
              })
      ]
    ]
  where
    free : lookup id k.all ≡ none
    free = elim (Option-cases (lookup id k.all)) [
      | inl n ↦ n
      | inr (b, l) ↦ absurd (ground (arith, k.covered id b l))
    ]
