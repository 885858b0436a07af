-- ===== src/Pki/Keeping.antt =====
-- cmd/pki/main.go: the parts of the tool that change no file that is there.
use windows_llmmanager.Base.{
  ℕ, ◌∙◌, inl, inr, String, string_eq, Bool, true, false, Option, none, some, Bool-cases,
}
use windows_llmmanager.Base.Outcome.{Outcome, Outcome-cases}
use windows_llmmanager.Api.{Bytes}
use windows_llmmanager.Disk.{Faults, Disk, exclusive, tick, attempt, open_file, append}
use windows_llmmanager.Disk.Kept.{
  SameBut, SameBut-trans, Keeps, Keeps-free, open_file-SameBut, append-SameBut, open_file-Keeps,
  open_exclusive,
}
use windows_llmmanager.Pki.Defs.{
  PkiError, M, pure, fail, ◌>>=◌, ◌>>◌, attempted, or_fail, guard, no_directory,
}
use windows_llmmanager.Pki.Output.{
  open_output, write_and_close, write_pem_exclusive, write_both, write_chain,
}
use windows_llmmanager.Pki.Commands.{drawn, lifted}

-- A part of the tool that changes no file that is there.
pub record Keeping {A : Type 0} (m : M A) : Type 0 where
  pub keeps : (d : Disk) → Keeps d (m d).0

-- A part of the tool that changes at most the file at a path.
abbrev pub Writing : {A : Type 0} → String → M A → Type 0
Writing path m = (d : Disk) → SameBut path d (m d).0

module _ {A B : Type 0} (m : M A) (f : A → M B) where
  pub bind-Keeps :
      (d e : Disk)
      → Keeps d (m e).0
      → ((a : A) (x : Disk) → Keeps x (f a x).0)
      → Keeps d ((m >>= f) e).0
  unfolding ◌>>=◌
  bind-Keeps d e k l q content h = elim (Outcome-cases (m e).1) [
    | inl (a, p) ↦ rw (p, ◌>>=◌) (l a (m e).0 q content (k q content h))
    | inr (x, p) ↦ rw (p, ◌>>=◌) (k q content h)
  ]

  pub Keeping-bind : Keeping m → ((a : A) → Keeping (f a)) → Keeping (m >>= f)
  Keeping-bind k l = record { keeps = λ d. bind-Keeps d d (k.keeps d) (λ a. (l a).keeps) }

module _ {A : Type 0} where
  pub Keeping-pure : (a : A) → Keeping (pure a)
  unfolding pure
  Keeping-pure a = record { keeps = λ d q content h. h }

  pub Keeping-fail : (e : PkiError) → Keeping (fail {A = A} e)
  unfolding fail
  Keeping-fail e = record { keeps = λ d q content h. h }

  pub Keeping-or_fail : (e : PkiError) (o : Option A) → Keeping (or_fail e o)
  unfolding or_fail
  Keeping-or_fail e none = record { keeps = λ d q content h. h }
  Keeping-or_fail e (some a) = record { keeps = λ d q content h. h }

  pub Keeping-drawn : (e : PkiError) (f : ℕ → Option A) → Keeping (drawn e f)
  unfolding drawn tick
  Keeping-drawn e f = record { keeps = λ d. (Keeping-or_fail e (f d.calls)).keeps (tick d) }

  pub Keeping-lifted : (r : Outcome PkiError A) → Keeping (lifted r)
  unfolding lifted
  Keeping-lifted r = record { keeps = λ d q content h. h }

pub Keeping-guard : (e : PkiError) (b : Bool) → Keeping (guard e b)
unfolding guard
Keeping-guard e true = record { keeps = λ d q content h. h }
Keeping-guard e false = record { keeps = λ d q content h. h }

pub ruleset keeping = (
  Keeping-bind, Keeping-pure, Keeping-fail, Keeping-or_fail, Keeping-drawn, Keeping-lifted,
  Keeping-guard,
)

module _ (faults : Faults) where
  pub write_and_close-Writing :
      (path : String) (bytes : Bytes) → Writing path (write_and_close faults path bytes)
  unfolding write_and_close attempt tick
  write_and_close-Writing path bytes d q differ = append-SameBut faults path bytes d q differ

  pub write_both-Writing :
      (path : String) (leaf parent : Bytes) → Writing path (write_both faults path leaf parent)
  unfolding write_both attempt tick
  write_both-Writing path leaf parent d q differ =
      let first = append faults path leaf d in
      elim (Bool-cases first.1) [
        | inl e ↦
            rw (e, write_both)
              (append-SameBut faults path parent first.0 q differ
                ∙ append-SameBut faults path leaf d q differ)
        | inr e ↦ rw (e, write_both) (append-SameBut faults path leaf d q differ)
      ]

  -- Opening a file without `--force`, and a write to it.
  pub fresh_file :
      {A : Type 0} (path : String) (m : M A)
      → Writing path m
      → Keeping (open_output faults false path >> m)
  unfolding open_output ◌>>=◌ attempted
  fresh_file {A} path m w = record { keeps = opens }
    where
      opens : (d : Disk) → Keeps d ((open_output faults false path >> m) d).0
      opens d = elim (Bool-cases (open_file faults exclusive path d).1) [
        | inl e ↦
            rw (e, ◌>>=◌)
              (let opened = (open_file faults exclusive path d).0 in
                Keeps-free path d (m opened).0 (open_exclusive faults path d e).0 (
                  SameBut-trans path d opened (m opened).0
                    (open_file-SameBut faults exclusive path d) (w opened)))
        | inr e ↦ rw (e, ◌>>=◌) (open_file-Keeps faults exclusive path d (λ c. cc))
      ]

  pub Keeping-attempt : (e : PkiError) → Keeping (attempted e (attempt faults))
  unfolding attempted attempt tick
  Keeping-attempt e = record { keeps = λ d q content h. h }

  pub Keeping-write_pem_exclusive :
      (pem : String → Bytes → Bytes) (path kind : String) (der : Bytes)
      → Keeping (write_pem_exclusive faults pem path kind der false)
  unfolding write_pem_exclusive
  Keeping-write_pem_exclusive pem path kind der =
      Keeping-bind (attempted no_directory (attempt faults))
        (λ _. open_output faults false path >> write_and_close faults path (pem kind der))
        (Keeping-attempt no_directory)
        (λ _.
          fresh_file path (write_and_close faults path (pem kind der))
            (write_and_close-Writing path (pem kind der)))

  pub Keeping-write_chain :
      (pem : String → Bytes → Bytes) (path : String) (leaf parent : Bytes)
      → Keeping (write_chain faults pem path leaf parent false)
  unfolding write_chain
  Keeping-write_chain pem path leaf parent =
      let l = pem "CERTIFICATE" leaf in
      let p = pem "CERTIFICATE" parent in
      Keeping-bind (attempted no_directory (attempt faults))
        (λ _. open_output faults false path >> write_both faults path l p)
        (Keeping-attempt no_directory)
        (λ _. fresh_file path (write_both faults path l p) (write_both-Writing path l p))
