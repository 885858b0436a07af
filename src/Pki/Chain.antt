-- ===== src/Pki/Chain.antt =====
-- cmd/pki/main.go: what stands in the files when a command reports success.
use windows_llmmanager.Base.{
  ℕ, refl, Option, ◌+◌, ◌≡◌, ◌≢◌, ◌∙◌, String, string_eq, [], Bool, true, false, none, some, take,
  inl, inr, if◌then◌else◌, arith,
}
use windows_llmmanager.Base.Dict.{lookup, insert, lookup-insert_self}
use windows_llmmanager.Base.Outcome.{ok, Outcome-cases}
use windows_llmmanager.Api.{Bytes}
use windows_llmmanager.Disk.{
  Faults, Disk, exclusive, truncating, tick, opened, attempt, open_file, append,
}
use windows_llmmanager.Disk.Kept.{
  SameBut, open_file-SameBut, append-SameBut, open_exclusive, open_truncating, append_ok,
}
use windows_llmmanager.Pki.Defs.{
  Crypto, InitOptions, Template, PkiError, itself, M, pure, ◌>>=◌, ◌>>◌, attempted, or_fail,
}
use windows_llmmanager.Pki.Output.{
  open_output, write_and_close, write_pem_exclusive, write_both, write_chain,
}
use windows_llmmanager.Pki.Commands.{
  print_fingerprint, ca_template, drawn, reading_clock, write_ca_cert, init_ca,
}

-- A part of the tool whose successful results meet a condition.
record Returning {A : Type 0} (P : A → Disk → Type 0) (m : M A) : Type 0 where
  returns : (d : Disk) (a : A) → (m d).1 ≡ ok a → P a (m d).0

module _ {A B : Type 0} (P : B → Disk → Type 0) (m : M A) (f : A → M B) where
  bind-returns :
      ((a : A) → Returning P (f a))
      → (d : Disk) (b : B) → ((m >>= f) d).1 ≡ ok b
      → P b ((m >>= f) d).0
  unfolding ◌>>=◌
  bind-returns r d b = elim (Outcome-cases (m d).1) [
    | inl (a, e) ↦ rw (e, ◌>>=◌) ((r a).returns (m d).0 b)
    | inr (x, e) ↦ rw (e, ◌>>=◌) (λ h. cc)
  ]

  Returning-bind : ((a : A) → Returning P (f a)) → Returning P (m >>= f)
  Returning-bind r = record { returns = bind-returns r }

-- What comes behind a value meets the condition, if it does for each value that can come.
module _ {A B : Type 0} (P : B → Disk → Type 0) (e : PkiError) (g : A → M B) where
  or_fail-returns :
      (o : Option A) (d : Disk) (b : B)
      → ((a : A) → o ≡ some a → Returning P (g a))
      → ((or_fail e o >>= g) d).1 ≡ ok b
      → P b ((or_fail e o >>= g) d).0
  unfolding or_fail ◌>>=◌
  or_fail-returns none d b r h = absurd (cc)
  or_fail-returns (some a) d b r h = (r a refl).returns d b h

  Returning-or_fail :
      (o : Option A) → ((a : A) → o ≡ some a → Returning P (g a)) → Returning P (or_fail e o >>= g)
  Returning-or_fail o r = record { returns = λ d b h. or_fail-returns o d b r h }

  Returning-drawn :
      (f : ℕ → Option A)
      → ((n : ℕ) (a : A) → f n ≡ some a → Returning P (g a))
      → Returning P (drawn e f >>= g)
  unfolding drawn ◌>>=◌
  Returning-drawn f r = record {
    returns = λ d b h. or_fail-returns (f d.calls) (tick d) b (r d.calls) h;
  }

module _ (faults : Faults) where
  open_output_empty :
      (force : Bool) (path : String) (d : Disk) (a : Unit {0})
      → (open_output faults force path d).1 ≡ ok a
      → lookup path (open_output faults force path d).0.files ≡ some []
  unfolding open_output attempted
  open_output_empty true path d a h = ground (arith, open_truncating faults path d)
  open_output_empty false path d a h = ground (arith, open_exclusive faults path d)

  write_and_close_ok :
      (path : String) (bytes : Bytes) (d : Disk) (a : Unit {0})
      → lookup path d.files ≡ some []
      → (write_and_close faults path bytes d).1 ≡ ok a
      → lookup path (write_and_close faults path bytes d).0.files ≡ some bytes
  unfolding write_and_close attempt tick
  write_and_close_ok path bytes d a e h = ground (arith, append_ok faults path bytes [] d e)

  module _ (pem : String → Bytes → Bytes) (path kind : String) (der : Bytes) (force : Bool) where
    write_pem_exclusive_ok :
        (d : Disk) (a : Unit {0})
        → (write_pem_exclusive faults pem path kind der force d).1 ≡ ok a
        → lookup path (write_pem_exclusive faults pem path kind der force d).0.files
          ≡ some (pem kind der)
    unfolding write_pem_exclusive ◌>>=◌ attempted attempt
    write_pem_exclusive_ok d a h = ground (
      arith,
      open_output_empty force path (tick d) tt,
      write_and_close_ok path (pem kind der) (open_output faults force path (tick d)).0 a,
    )

    write_pem_exclusive-SameBut :
        (d : Disk) → SameBut path d (write_pem_exclusive faults pem path kind der force d).0
    unfolding write_pem_exclusive ◌>>=◌ attempted attempt open_output write_and_close tick
    write_pem_exclusive-SameBut d q differ =
        let mode = if force then truncating else exclusive in
        let (opened, done) = open_file faults mode path (tick d) in
        ground (
          arith,
          open_file-SameBut faults mode path (tick d) q differ,
          append-SameBut faults path (pem kind der) opened q differ,
        )

  write_both-unwritten :
      (path : String) (leaf parent : Bytes) (d : Disk)
      → lookup path d.files ≡ some []
      → faults.fails d.calls ≡ true
      → faults.fails (d.calls + 1) ≡ false
      → ((write_both faults path leaf parent d).1 ≡ ok tt)
        × (lookup path (write_both faults path leaf parent d).0.files
            ≡ some (take (faults.written d.calls) leaf))
  unfolding write_both attempt tick append
  write_both-unwritten path leaf parent d empty fails closes =
      ground (arith, lookup-insert_self path (take (faults.written d.calls) leaf) d.files)

  -- Where the first of the two writes of `issue`'s certificate fails, but opening and closing the file
  -- do not, the command goes on as if the chain were written: the file holds what the failed write
  -- left, without the certificate that signed it.
  pub write_chain-unwritten :
      (pem : String → Bytes → Bytes) (path : String) (leaf parent : Bytes) (d : Disk)
      → lookup path d.files ≡ none
      → faults.fails d.calls ≡ false
      → faults.fails (d.calls + 1) ≡ false
      → faults.fails (d.calls + 1 + 1) ≡ true
      → faults.fails (d.calls + 1 + 1 + 1) ≡ false
      → ((write_chain faults pem path leaf parent false d).1 ≡ ok tt)
        × (lookup path (write_chain faults pem path leaf parent false d).0.files
            ≡ some (take (faults.written (d.calls + 1 + 1)) (pem "CERTIFICATE" leaf)))
  unfolding write_chain open_output attempt attempted ◌>>=◌ tick open_file opened
  write_chain-unwritten pem path leaf parent d free made opens unwritten closes =
      let l = pem "CERTIFICATE" leaf in
      let p = pem "CERTIFICATE" parent in
      let e : Disk = record { calls = d.calls + 1 + 1; files = insert path [] d.files } in
      ground (arith, lookup-insert_self path [] d.files, write_both-unwritten path l p e)

  module _ (crypto : Crypto) where
    -- `der` is a certificate over the public key of a generated key that has signed it, and `key_der` is
    -- that key. Its template is that of an authority of the given name, with a drawn serial number, that
    -- lasts ten years and is none of a server.
    unfoldable pub CaMade : InitOptions → Bytes → Bytes → Type 0
    CaMade o der key_der =
        (key : crypto.Key) × (drawn_at : ℕ) × (crypto.generate_key drawn_at ≡ some key)
        × (template : Template) × (template.is_ca ≡ true)
        × (template.server_auth ≡ false)
        × (template.common_name ≡ o.common_name)
        × (serial_at : ℕ) × (crypto.random_serial serial_at ≡ some template.serial)
        × (read_at : ℕ) × (template.not_after ≡ crypto.years_later (crypto.now read_at) 10)
        × (signed_at : ℕ) × (crypto.create_certificate signed_at template itself (crypto.public key)
              key
            ≡ some der)
        × (crypto.marshal_key key ≡ some key_der)

    -- The CA's files hold such a certificate and its key, whole, and `fp` is the fingerprint of the
    -- certificate.
    abbrev pub CaWritten : InitOptions → Bytes → Disk → Type 0
    CaWritten o fp d =
        (der : Bytes) × (key_der : Bytes) × CaMade o der key_der
        × (fp ≡ print_fingerprint faults crypto der)
        × (lookup o.cert_path d.files ≡ some (crypto.pem_encode "CERTIFICATE" der))
        × (lookup o.key_path d.files ≡ some (crypto.pem_encode "PRIVATE KEY" key_der))

    write_ca_cert_ok :
        (cert_path key_path : String) (der : Bytes) (force : Bool) (d : Disk) (a : Unit {0})
        → (write_ca_cert faults crypto cert_path key_path der force d).1 ≡ ok a
        → (lookup cert_path (write_ca_cert faults crypto cert_path key_path der force d).0.files
            ≡ some (crypto.pem_encode "CERTIFICATE" der))
          × SameBut cert_path d (write_ca_cert faults crypto cert_path key_path der force d).0
    unfolding write_ca_cert
    write_ca_cert_ok cert_path key_path der force d a h = elim (Outcome-cases (write d).1) [
      | inr (x, p) ↦ absurd (ground arith)
      | inl (b, p) ↦
          rw (p, write_ca_cert)
            (
              write_pem_exclusive_ok crypto.pem_encode cert_path "CERTIFICATE" der force d b p,
              write_pem_exclusive-SameBut crypto.pem_encode cert_path "CERTIFICATE" der force d,
            )
    ]
      where
        write : M (Unit {0})
        write = write_pem_exclusive faults crypto.pem_encode cert_path "CERTIFICATE" der force

    ca_pair_written :
        (o : InitOptions) (key_der der : Bytes)
        → CaMade o der key_der
        → o.key_path ≢ o.cert_path
        → Returning (CaWritten o) (
            write_pem_exclusive faults crypto.pem_encode o.key_path "PRIVATE KEY" key_der o.force
            >> (write_ca_cert faults crypto o.cert_path o.key_path der o.force
                >> pure (print_fingerprint faults crypto der)))
    unfolding ◌>>=◌ pure
    ca_pair_written o key_der der made differ = record { returns = returns }
      where
        write_key : M (Unit {0})
        write_key =
            write_pem_exclusive faults crypto.pem_encode o.key_path "PRIVATE KEY" key_der o.force

        write_cert : M (Unit {0})
        write_cert = write_ca_cert faults crypto o.cert_path o.key_path der o.force

        fp : Bytes
        fp = print_fingerprint faults crypto der

        returns :
            (d : Disk) (a : Bytes)
            → ((write_key >> (write_cert >> pure fp)) d).1 ≡ ok a
            → CaWritten o a ((write_key >> (write_cert >> pure fp)) d).0
        returns d a = elim (Outcome-cases (write_key d).1) [
          | inr (x, p) ↦ rw (p, ◌>>=◌) (λ h. cc)
          | inl (b, p) ↦ elim (Outcome-cases (write_cert (write_key d).0).1) [
            | inr (x, q) ↦ rw (p, q, ◌>>=◌) (λ h. cc)
            | inl (c, q) ↦
                rw (p, q, ◌>>=◌)
                  (λ h.
                    let (cert, rest) =
                      write_ca_cert_ok o.cert_path o.key_path der o.force (write_key d).0 c q in
                    (
                      der,
                      key_der,
                      made,
                      cc,
                      cert,
                      rest o.key_path differ
                          ∙ write_pem_exclusive_ok crypto.pem_encode o.key_path "PRIVATE KEY"
                              key_der o.force d b p,
                    ))
          ]
        ]

    Returning-clock :
        {B : Type 0} (P : B → Disk → Type 0) (g : ℕ → M B)
        → ((n : ℕ) → Returning P (g (crypto.now n)))
        → Returning P (reading_clock faults crypto >>= g)
    unfolding reading_clock ◌>>=◌
    Returning-clock P g r = record { returns = λ d b h. (r d.calls).returns d b h }

    Returning-init_ca :
        (o : InitOptions)
        → o.key_path ≢ o.cert_path
        → Returning (CaWritten o) (init_ca faults crypto o)
    unfolding init_ca ca_template CaMade
    Returning-init_ca o differ = Returning-bind (CaWritten o) _ _ λ _.
        Returning-drawn (CaWritten o) _ _ crypto.generate_key λ drawn_at key generated.
          Returning-drawn (CaWritten o) _ _ crypto.random_serial λ serial_at serial drew.
            Returning-clock (CaWritten o) _ λ read_at.
              Returning-drawn (CaWritten o) _ _ _ λ signed_at der created.
                Returning-or_fail (CaWritten o) _ _ (crypto.marshal_key key) λ key_der marshalled.
                  ca_pair_written o key_der der
                    (
                      key,
                      drawn_at,
                      generated,
                      ca_template faults crypto serial o.common_name (crypto.now read_at) key,
                      refl,
                      refl,
                      refl,
                      serial_at,
                      drew,
                      read_at,
                      refl,
                      signed_at,
                      created,
                      marshalled,
                    )
                    differ

    -- If `init-ca`, with two different paths, reports success, the file of the key holds the private
    -- key that was generated, whole, the file of the certificate holds a certificate over its public key,
    -- of an authority of the given name for ten years, signed by that key, whole, and the fingerprint of
    -- that certificate is printed.
    pub init_ca_ok :
        (o : InitOptions) (d : Disk) (fp : Bytes)
        → o.key_path ≢ o.cert_path
        → (init_ca faults crypto o d).1 ≡ ok fp
        → CaWritten o fp (init_ca faults crypto o d).0
    init_ca_ok o d fp differ = (Returning-init_ca o differ).returns d fp
