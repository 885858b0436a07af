-- ===== src/Pki/Overwrite.antt =====
-- cmd/pki/main.go: no command that runs without `--force` changes a file that is there.
use windows_llmmanager.Base.{◌≡◌, ◌∙◌, inl, inr, String, string_eq, Bool, false, none, some, arith}
use windows_llmmanager.Base.Dict.{lookup}
use windows_llmmanager.Base.Outcome.{ok, Outcome-cases}
use windows_llmmanager.Api.{Bytes}
use windows_llmmanager.Disk.{Faults, Disk, tick, attempt, exists, read_file}
use windows_llmmanager.Disk.Kept.{Keeps, remove-SameBut, open_exclusive}
use windows_llmmanager.Pki.Keeping.{
  Keeping, keeping, bind-Keeps, Keeping-pure, Keeping-fail, Keeping-or_fail,
  Keeping-write_pem_exclusive, Keeping-write_chain,
}
use windows_llmmanager.Pki.Defs.{
  Crypto, PkiError, not_read, usage, unknown_command, bad_flags, InitOptions, IssueOptions,
  Arguments, nothing, other, init_ca_args, issue_args, fingerprint_args, M, pure, fail, ◌>>=◌, ◌>>◌,
  attempted, or_fail,
}
use windows_llmmanager.Pki.Output.{open_output, write_pem_exclusive, either_exists}
use windows_llmmanager.Pki.Commands.{
  reading_clock, read_or_fail, refuse_existing, write_ca_cert, init_ca, decode_pem, load_ca, issue,
  fingerprint, run,
}

-- The arguments ask for `--force`.
abbrev pub is_forced : Arguments → Bool
is_forced (init_ca_args (some o)) = o.force
is_forced (issue_args (some o)) = o.force
is_forced _ = false

module _ (faults : Faults) where
  module _ (crypto : Crypto) where
    Keeping-refuse_existing :
        (e : PkiError) (force : Bool) (cert_path key_path : String)
        → Keeping (refuse_existing faults crypto e force cert_path key_path)
    unfolding refuse_existing either_exists exists tick
    Keeping-refuse_existing e force cert_path key_path = record {
      keeps = λ d q content h. ground arith;
    }

    Keeping-read_or_fail : (path : String) → Keeping (read_or_fail faults crypto path)
    unfolding read_or_fail read_file tick or_fail
    Keeping-read_or_fail path = record {
      keeps = λ d. (Keeping-or_fail not_read (read_file faults path d).1).keeps (tick d);
    }

    Keeping-decode_pem :
        (e : PkiError) (content : Bytes) → Keeping (decode_pem faults crypto e content)
    unfolding decode_pem
    Keeping-decode_pem e content = Keeping-or_fail e (crypto.pem_decode content)

    Keeping-clock : Keeping (reading_clock faults crypto)
    unfolding reading_clock
    Keeping-clock = record { keeps = λ d q content h. h }

    Keeping-load_ca :
        (cert_path key_path : String) → Keeping (load_ca faults crypto cert_path key_path)
    unfolding load_ca
    Keeping-load_ca cert_path key_path = search (keeping, Keeping-read_or_fail) depth 40

    Keeping-fingerprint : (path : String) → Keeping (fingerprint faults crypto path)
    unfolding fingerprint
    Keeping-fingerprint path = search (keeping, Keeping-read_or_fail)

    Keeping-issue : (o : IssueOptions) → o.force ≡ false → Keeping (issue faults crypto o)
    unfolding issue
    Keeping-issue o e =
        rw (e, issue)
          (search
            (
              keeping, Keeping-load_ca, Keeping-refuse_existing, Keeping-clock,
              Keeping-write_pem_exclusive, Keeping-write_chain,
            )
            depth 40)

    -- The two writes of `init-ca`. What it takes away again it has made itself.
    write_ca_cert-Keeps :
        (cert_path key_path : String) (der : Bytes) (d e : Disk)
        → lookup key_path d.files ≡ none
        → Keeps d e
        → Keeps d (write_ca_cert faults crypto cert_path key_path der false e).0
    unfolding write_ca_cert
    write_ca_cert-Keeps cert_path key_path der d e free k q content h =
        let write =
          write_pem_exclusive faults crypto.pem_encode cert_path "CERTIFICATE" der false in
        let kept =
          (Keeping-write_pem_exclusive faults crypto.pem_encode cert_path "CERTIFICATE" der).keeps e
            q content (k q content h) in
        elim (Outcome-cases (write e).1) [
          | inl (a, p) ↦ rw (p, write_ca_cert) kept
          | inr (x, p) ↦
              rw (p, write_ca_cert)
                (remove-SameBut faults key_path (write e).0 q (λ same. ground arith) ∙ kept)
        ]

    write_pem_exclusive-free :
        (path kind : String) (der : Bytes) (d : Disk) (a : Unit {0})
        → (write_pem_exclusive faults crypto.pem_encode path kind der false d).1 ≡ ok a
        → lookup path d.files ≡ none
    unfolding write_pem_exclusive open_output ◌>>=◌ attempted attempt tick
    write_pem_exclusive-free path kind der d a p =
        ground (arith, open_exclusive faults path (tick d))

    Keeping-write_ca_pair :
        {A : Type 0} (cert_path key_path : String) (key_der der : Bytes) (a : A)
        → Keeping (
            write_pem_exclusive faults crypto.pem_encode key_path "PRIVATE KEY" key_der false
            >> (write_ca_cert faults crypto cert_path key_path der false >> pure a))
    unfolding ◌>>=◌
    Keeping-write_ca_pair cert_path key_path key_der der a = record { keeps = keeps }
      where
        write_key : M (Unit {0})
        write_key =
            write_pem_exclusive faults crypto.pem_encode key_path "PRIVATE KEY" key_der false

        write_cert : M (Unit {0})
        write_cert = write_ca_cert faults crypto cert_path key_path der false

        kept : (d : Disk) → Keeps d (write_key d).0
        kept =
            (Keeping-write_pem_exclusive faults crypto.pem_encode key_path "PRIVATE KEY"
              key_der).keeps

        keeps : (d : Disk) → Keeps d ((write_key >> (write_cert >> pure a)) d).0
        keeps d = elim (Outcome-cases (write_key d).1) [
          | inr (x, p) ↦ rw (p, ◌>>=◌) (kept d)
          | inl (b, p) ↦
              rw (p, ◌>>=◌)
                (bind-Keeps write_cert (λ _. pure a) d (write_key d).0
                  (write_ca_cert-Keeps cert_path key_path der d (write_key d).0
                    (write_pem_exclusive-free key_path "PRIVATE KEY" key_der d b p) (kept d))
                  (λ b. (Keeping-pure a).keeps))
        ]

    Keeping-init_ca : (o : InitOptions) → o.force ≡ false → Keeping (init_ca faults crypto o)
    unfolding init_ca
    Keeping-init_ca o e =
        rw (e, init_ca)
          (search (Keeping-write_ca_pair, keeping, Keeping-refuse_existing, Keeping-clock) depth 40)

    Keeping-run : (args : Arguments) → is_forced args ≡ false → Keeping (run faults crypto args)
    unfolding run or_fail ◌>>=◌ pure fail
    Keeping-run nothing e = Keeping-fail usage
    Keeping-run other e = Keeping-fail unknown_command
    Keeping-run (init_ca_args none) e = Keeping-fail bad_flags
    Keeping-run (init_ca_args (some o)) e = Keeping-init_ca o e
    Keeping-run (issue_args none) e = Keeping-fail bad_flags
    Keeping-run (issue_args (some o)) e = Keeping-issue o e
    Keeping-run (fingerprint_args none) e = Keeping-fail bad_flags
    Keeping-run (fingerprint_args (some path)) e = Keeping-fingerprint path

    -- Without `--force` no command changes or removes a file that was there before, whichever calls
    -- fail and wherever the command stops.
    pub run-Keeps :
        (args : Arguments) (d : Disk)
        → is_forced args ≡ false
        → Keeps d (run faults crypto args d).0
    run-Keeps args d e = (Keeping-run args e).keeps d
