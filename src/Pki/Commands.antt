-- ===== src/Pki/Commands.antt =====
-- cmd/pki/main.go: the commands `init-ca`, `issue` and `fingerprint`. A command returns the line that it
-- prints.
use windows_llmmanager.Base.{
  ℕ, ◌-◌, ◌*◌, String, string_eq, ◌==◌, List, [], ◌∷◌, ◌++◌, map, Bool, true, false, not, ◌&&◌,
  Option, none, some, take, leb, if◌then◌else◌,
}
use windows_llmmanager.Base.Outcome.{Outcome, ok, err}
use windows_llmmanager.Api.{Bytes}
use windows_llmmanager.Text.{trim_space}
use windows_llmmanager.Security.Auth.{hex}
use windows_llmmanager.Disk.{Faults, tick, read_file, remove}
use windows_llmmanager.Pki.Names.{is_blank, split_csv, unique_strings}
use windows_llmmanager.Pki.Defs.{
  cert_sign, crl_sign, digital_signature, key_encipherment, Template, Certificate, itself, by,
  Crypto, PkiError, usage, unknown_command, bad_flags, ca_exists, leaf_exists, name_required,
  no_entropy, not_created, not_marshalled, not_read, invalid_cert_pem, invalid_key_pem,
  bad_certificate, bad_key, not_ecdsa, no_match, invalid_ip, InitOptions, IssueOptions, Arguments,
  nothing, other, init_ca_args, issue_args, fingerprint_args, M, pure, fail, ◌>>=◌, ◌>>◌, or_fail,
  guard,
}
use windows_llmmanager.Pki.Output.{write_pem_exclusive, either_exists, write_chain}

-- `strings.ToUpper` of a letter of ASCII.
abbrev pub upper : ℕ → ℕ
upper c = if leb b'a' c && leb c b'z' then c - 32 else c

-- The parsed addresses of `--ip`, or the first text that is none.
unfoldable pub parse_ips : (Bytes → Option Bytes) → List Bytes → Outcome PkiError (List Bytes)
parse_ips parse_ip [] = ok []
parse_ips parse_ip (raw ∷ rest) = elim (parse_ip raw) [
  | none ↦ err (invalid_ip raw)
  | some ip ↦ elim (parse_ips parse_ip rest) [ err e ↦ err e | ok ips ↦ ok (ip ∷ ips) ]
]

-- The DNS names and the addresses of `--name` and `--dns`.
unfoldable pub san_names : (Bytes → Option Bytes) → Bytes → Bytes → List Bytes × List Bytes
unfolding split_csv unique_strings
san_names parse_ip name dns = elim (parse_ip name) [
  | some ip ↦ (unique_strings (split_csv dns), ip ∷ [])
  | none ↦ (unique_strings (name ∷ split_csv dns), [])
]

unfoldable pub lifted : {A : Type 0} → Outcome PkiError A → M A
lifted r d = (d, r)

-- A value that depends on randomness.
unfoldable pub drawn : {A : Type 0} → PkiError → (ℕ → Option A) → M A
unfolding or_fail tick
drawn e f d = or_fail e (f d.calls) (tick d)

module _ (faults : Faults) (crypto : Crypto) where
  open crypto use {
    Key, Public, public, same_public, generate_key, random_serial, now, years_later,
    create_certificate, marshal_key, marshal_public, parse_certificate, parse_key, sha256,
    pem_encode, pem_decode, parse_ip,
  }

  unfoldable pub read_or_fail : String → M Bytes
  unfolding read_file or_fail
  read_or_fail path d = let (d', content) = read_file faults path d in or_fail not_read content d'

  unfoldable pub reading_clock : M ℕ
  reading_clock d = (d, ok (now d.calls))

  -- `printFingerprint`
  unfoldable pub print_fingerprint : Bytes → Bytes
  unfolding hex
  print_fingerprint der = map upper (hex (sha256 der))

  unfoldable pub subject_key_id : Public → Bytes
  subject_key_id p = take 20 (sha256 (marshal_public p))

  -- `!*force && (exists(*certPath) || exists(*keyPath))`
  unfoldable pub refuse_existing : PkiError → Bool → String → String → M (Unit {0})
  unfolding either_exists
  refuse_existing e force cert_path key_path d =
      if force
      then (d, ok tt)
      else let (d', there) = either_exists faults cert_path key_path d in
        (d', if there then err e else ok tt)

  unfoldable pub ca_template : ℕ → Bytes → ℕ → Key → Template
  unfolding subject_key_id
  ca_template serial common_name time key = record {
    serial = serial;
    common_name = common_name;
    not_before = time - 5 * 60;
    not_after = years_later time 10;
    key_usage = cert_sign ∷ crl_sign ∷ digital_signature ∷ [];
    server_auth = false;
    is_ca = true;
    dns_names = [];
    ip_addresses = [];
    authority_key_id = [];
    subject_key_id = subject_key_id (public key);
  }

  -- The write of the CA's certificate, which takes the key away if it fails.
  unfoldable pub write_ca_cert : String → String → Bytes → Bool → M (Unit {0})
  write_ca_cert cert_path key_path der force d =
      let (d', r) = write_pem_exclusive faults pem_encode cert_path "CERTIFICATE" der force d in
      elim r [ ok _ ↦ (d', ok tt) | err e ↦ (remove faults key_path d', err e) ]

  unfoldable pub init_ca : InitOptions → M Bytes
  init_ca o = do
    refuse_existing ca_exists o.force o.cert_path o.key_path
    key ← drawn no_entropy generate_key
    serial ← drawn no_entropy random_serial
    time ← reading_clock
    der ← drawn not_created (λ n.
        create_certificate n (ca_template serial o.common_name time key) itself (public key) key)
    key_der ← or_fail not_marshalled (marshal_key key)
    write_pem_exclusive faults pem_encode o.key_path "PRIVATE KEY" key_der o.force
    write_ca_cert o.cert_path o.key_path der o.force
    pure (print_fingerprint der)

  unfoldable pub decode_pem : PkiError → Bytes → M (String × Bytes)
  unfolding or_fail
  decode_pem e content = or_fail e (pem_decode content)

  -- `loadCA`
  unfoldable pub load_ca : String → String → M (Certificate Public × Key)
  unfolding ◌>>=◌ pure or_fail guard read_or_fail decode_pem
  load_ca cert_path key_path = do
    cert_pem ← read_or_fail cert_path
    cert_block ← decode_pem invalid_cert_pem cert_pem
    cert ← or_fail bad_certificate (parse_certificate cert_block.1)
    key_pem ← read_or_fail key_path
    key_block ← decode_pem invalid_key_pem key_pem
    parsed ← or_fail bad_key (parse_key key_block.1)
    key ← or_fail not_ecdsa parsed
    guard no_match (same_public (public key) cert.public_key)
    pure (cert, key)

  unfoldable pub leaf_template :
      ℕ → Bytes → ℕ → List Bytes → List Bytes → Certificate Public → Key → Template
  unfolding subject_key_id
  leaf_template serial name time dns ips ca key = record {
    serial = serial;
    common_name = name;
    not_before = time - 5 * 60;
    not_after = years_later time 2;
    key_usage = digital_signature ∷ key_encipherment ∷ [];
    server_auth = true;
    is_ca = false;
    dns_names = dns;
    ip_addresses = ips;
    authority_key_id = ca.key_id;
    subject_key_id = subject_key_id (public key);
  }

  unfoldable pub issue : IssueOptions → M Bytes
  issue o = do
    guard name_required (not (is_blank (trim_space o.name)))
    refuse_existing leaf_exists o.force o.cert_path o.key_path
    ca ← load_ca o.ca_cert_path o.ca_key_path
    key ← drawn no_entropy generate_key
    serial ← drawn no_entropy random_serial
    let names = san_names parse_ip o.name o.dns
    ips ← lifted (parse_ips parse_ip (split_csv o.ip))
    time ← reading_clock
    let template = leaf_template serial o.name time names.0 (names.1 ++ ips) ca.0 key
    der ← drawn not_created (λ n. create_certificate n template (by ca.0) (public key) ca.1)
    key_der ← or_fail not_marshalled (marshal_key key)
    write_pem_exclusive faults pem_encode o.key_path "PRIVATE KEY" key_der o.force
    write_chain faults pem_encode o.cert_path der ca.0.raw o.force
    pure (print_fingerprint ca.0.raw)

  unfoldable pub fingerprint : String → M Bytes
  unfolding ◌>>=◌ pure or_fail guard read_or_fail print_fingerprint
  fingerprint cert_path = do
    content ← read_or_fail cert_path
    block ← or_fail invalid_cert_pem (pem_decode content)
    guard invalid_cert_pem (block.0 == "CERTIFICATE")
    pure (print_fingerprint block.1)

  -- `run`
  unfoldable pub run : Arguments → M Bytes
  run nothing = fail usage
  run other = fail unknown_command
  run (init_ca_args o) = or_fail bad_flags o >>= init_ca
  run (issue_args o) = or_fail bad_flags o >>= issue
  run (fingerprint_args o) = or_fail bad_flags o >>= fingerprint
