-- ===== src/Tests/Pki.antt =====
-- Concrete runs of the certificate tool, with a toy of the crypto packages.
use text.Mathlib.TextEquality.{eq_iff}
use windows_llmmanager.Base.{
  ℕ, ◌+◌, ◌≡◌, ◌≢◌, refl, string_eq, [], ◌∷◌, false, none, some, eqb, arith,
}
use windows_llmmanager.Base.Dict.{lookup, insert}
use windows_llmmanager.Base.Outcome.{ok, err}
use windows_llmmanager.Text.{codes, trim_space, bytes_equal}
use windows_llmmanager.Disk.{Faults, Disk, tick, opened, attempt, exists, open_file, append}
use windows_llmmanager.Disk.Kept.{Keeps}
use windows_llmmanager.Pki.Names.{contains, split_csv, unique_strings}
use windows_llmmanager.Pki.Defs.{
  Crypto, InitOptions, init_ca_args, pure, ◌>>=◌, attempted, or_fail, ca_exists,
}
use windows_llmmanager.Pki.Output.{
  open_output, write_and_close, write_pem_exclusive, either_exists, write_chain,
}
use windows_llmmanager.Pki.Commands.{
  drawn, reading_clock, refuse_existing, ca_template, write_ca_cert, init_ca, run,
  print_fingerprint,
}
use windows_llmmanager.Pki.Overwrite.{run-Keeps}
use windows_llmmanager.Pki.Chain.{CaWritten, write_chain-unwritten, init_ca_ok}

-- A key is a number, and a certificate's bytes are its public key.
abbrev toy_crypto : Crypto
toy_crypto = record {
  Key = ℕ;
  Public = ℕ;
  public = λ k. k;
  same_public = eqb;
  generate_key = λ n. some n;
  random_serial = λ n. some n;
  now = λ n. 1000;
  years_later = λ t n. t + n;
  create_certificate = λ n t p k s. some (k ∷ []);
  marshal_key = λ k. some (k ∷ []);
  marshal_public = λ p. p ∷ [];
  parse_certificate = λ b. some (record { raw = b; key_id = []; public_key = 2 });
  parse_key = λ b. some (some 2);
  sha256 = λ b. 10 ∷ [];
  pem_encode = λ kind b. 80 ∷ b;
  pem_decode = λ b. some ("CERTIFICATE", b);
  parse_ip = λ b. none;
}

abbrev no_faults : Faults
no_faults = record { fails = λ n. false; written = λ n. 0 }

-- The third call fails, and leaves one byte.
abbrev third_fails : Faults
third_fails = record { fails = λ n. eqb n 2; written = λ n. 1 }

abbrev empty_disk : Disk
empty_disk = record { calls = 0; files = [] }

abbrev ca_options : InitOptions
ca_options = record {
  cert_path = "ca.crt";
  key_path = "ca.key";
  common_name = codes "CA";
  force = false;
}

abbrev ca_disk : Disk
ca_disk = record { calls = 0; files = ("ca.crt", 1 ∷ []) ∷ [] }

init_ca_runs : (init_ca no_faults toy_crypto ca_options empty_disk).1 ≡ ok (codes "0A")
unfolding init_ca ◌>>=◌ pure or_fail drawn reading_clock refuse_existing ca_template write_ca_cert
    write_pem_exclusive print_fingerprint lookup insert string_eq open_output write_and_close
    attempt attempted tick open_file opened append exists either_exists
init_ca_runs = refl

init_ca_refuses : (init_ca no_faults toy_crypto ca_options ca_disk).1 ≡ err ca_exists
unfolding init_ca ◌>>=◌ refuse_existing lookup string_eq tick exists either_exists
init_ca_refuses = refl

run-Keeps_example :
    Keeps ca_disk (run third_fails toy_crypto (init_ca_args (some ca_options)) ca_disk).0
run-Keeps_example = run-Keeps third_fails toy_crypto (init_ca_args (some ca_options)) ca_disk refl

paths_differ : ca_options.key_path ≢ ca_options.cert_path
paths_differ = ground (arith, eq_iff "ca.key" "ca.crt")

init_ca_ok_example :
    CaWritten no_faults toy_crypto ca_options
      (codes "0A")
      (init_ca no_faults toy_crypto ca_options empty_disk).0
init_ca_ok_example =
    init_ca_ok no_faults toy_crypto ca_options empty_disk (codes "0A") paths_differ init_ca_runs

write_chain-unwritten_example :
    ((write_chain third_fails toy_crypto.pem_encode "tls.pem" (7 ∷ []) (8 ∷ []) false empty_disk).1
      ≡ ok tt)
    × (lookup "tls.pem"
          (write_chain third_fails toy_crypto.pem_encode "tls.pem"
            (7 ∷ [])
            (8 ∷ [])
            false
            empty_disk).0.files
        ≡ some (80 ∷ []))
unfolding lookup
write_chain-unwritten_example =
    write_chain-unwritten third_fails toy_crypto.pem_encode "tls.pem" (7 ∷ []) (8 ∷ []) empty_disk
      refl refl refl refl refl

split_names : unique_strings (split_csv (codes "a, b,,a")) ≡ codes "a" ∷ codes "b" ∷ []
unfolding unique_strings split_csv trim_space contains bytes_equal
split_names = refl
