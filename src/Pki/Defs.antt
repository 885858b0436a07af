-- ===== src/Pki/Defs.antt =====
-- cmd/pki/main.go: its options, the certificates that it asks for, and what it takes from Go's crypto
-- packages, `encoding/pem`, `flag` and `net`, which are parameters.
use windows_llmmanager.Base.{
  ℕ, String, string_eq, List, Bool, true, false, Option, none, some, if◌then◌else◌,
}
use windows_llmmanager.Api.{Bytes}
use windows_llmmanager.Disk.{Disk}
use windows_llmmanager.Base.Outcome.{Outcome, ok, err}

pub data KeyUsage : Type 0 where
  cert_sign crl_sign digital_signature key_encipherment : KeyUsage

-- `x509.Certificate` as far as the tool fills it in. Times are in seconds, and an address is its text.
pub record Template : Type 0 where
  pub serial : ℕ
  pub common_name : Bytes
  pub not_before : ℕ
  pub not_after : ℕ
  pub key_usage : List KeyUsage
  pub server_auth : Bool
  pub is_ca : Bool
  pub dns_names : List Bytes
  pub ip_addresses : List Bytes
  pub authority_key_id : Bytes
  pub subject_key_id : Bytes

-- A parsed certificate: `Raw`, `SubjectKeyId` and `PublicKey`.
pub record Certificate (Public : Type 0) : Type 0 where
  pub raw : Bytes
  pub key_id : Bytes
  pub public_key : Public

-- Who signs: the template's own key, or a CA.
pub data Parent (Public : Type 0) : Type 0 where
  itself : Parent Public
  by : Certificate Public → Parent Public

-- What the number of a call stands for is the randomness or the time that the call finds.
pub record Crypto : Type 1 where
  pub Key : Type 0
  pub Public : Type 0
  pub public : Key → Public
  pub same_public : Public → Public → Bool
  pub generate_key : ℕ → Option Key
  pub random_serial : ℕ → Option ℕ
  pub now : ℕ → ℕ
  pub years_later : ℕ → ℕ → ℕ
  pub create_certificate : ℕ → Template → Parent Public → Public → Key → Option Bytes
  pub marshal_key : Key → Option Bytes
  pub marshal_public : Public → Bytes
  pub parse_certificate : Bytes → Option (Certificate Public)
  pub parse_key : Bytes → Option (Option Key)
  pub sha256 : Bytes → Bytes
  pub pem_encode : String → Bytes → Bytes
  pub pem_decode : Bytes → Option (String × Bytes)
  pub parse_ip : Bytes → Option Bytes

pub data PkiError : Type 0 where
  usage unknown_command bad_flags ca_exists leaf_exists name_required no_entropy : PkiError
  not_created not_marshalled no_directory not_opened not_written not_closed not_read : PkiError
  invalid_cert_pem invalid_key_pem bad_certificate bad_key not_ecdsa no_match : PkiError
  invalid_ip : Bytes → PkiError

-- The options of `init-ca`, `issue` and `fingerprint`, as package `flag` reads them.
pub record InitOptions : Type 0 where
  pub cert_path : String
  pub key_path : String
  pub common_name : Bytes
  pub force : Bool

pub record IssueOptions : Type 0 where
  pub ca_cert_path : String
  pub ca_key_path : String
  pub cert_path : String
  pub key_path : String
  pub name : Bytes
  pub dns : Bytes
  pub ip : Bytes
  pub force : Bool

-- The command line: its first argument, and what `fs.Parse` makes of the others.
pub data Arguments : Type 0 where
  nothing other : Arguments
  init_ca_args : Option InitOptions → Arguments
  issue_args : Option IssueOptions → Arguments
  fingerprint_args : Option String → Arguments

-- A part of the tool: it changes the disk, and returns a value or an error.
abbrev pub M : Type 0 → Type 0
M A = Disk → Disk × Outcome PkiError A

unfoldable pub pure : {A : Type 0} → A → M A
pure a d = (d, ok a)

unfoldable pub fail : {A : Type 0} → PkiError → M A
fail e d = (d, err e)

infixl 5 ◌>>=◌ ◌>>◌
unfoldable pub ◌>>=◌ : {A B : Type 0} → M A → (A → M B) → M B
◌>>=◌ m f d = let (d', r) = m d in elim r [ ok a ↦ f a d' | err e ↦ (d', err e) ]

abbrev pub ◌>>◌ : {B : Type 0} → M (Unit {0}) → M B → M B
m >> k = m >>= λ _. k

-- `if err := call; err != nil { return err }`
unfoldable pub attempted : PkiError → (Disk → Disk × Bool) → M (Unit {0})
attempted e call d = let (d', done) = call d in (d', if done then ok tt else err e)

unfoldable pub or_fail : {A : Type 0} → PkiError → Option A → M A
unfolding pure fail
or_fail e none = fail e
or_fail e (some a) = pure a

unfoldable pub guard : PkiError → Bool → M (Unit {0})
unfolding pure fail
guard e true = pure tt
guard e false = fail e
