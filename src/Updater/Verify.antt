-- ===== src/Updater/Verify.antt =====
-- internal/updater/verify.go, and the download of github.go: what a download must pass before it is
-- installed. SHA-256, base64, the loading of a public key and the check of a signature are parameters.
use windows_llmmanager.Base.{
  ℕ, ◌+◌, ◌-◌, ◌*◌, String, string_eq, [], ◌∷◌, Bool, not, ◌&&◌, Option, none, some, length, eqb,
  leb, if◌then◌else◌,
}
use windows_llmmanager.Api.{Bytes}
use windows_llmmanager.Text.{is_space, trim_left, trim_space}
use windows_llmmanager.Updater.EqualBytes.{equal_bytes}
use windows_llmmanager.Updater.Host.{Environment, World, read_file}

-- The packages the verification calls: `key` is a PEM text, `verify key signature payload`.
pub record Crypto : Type 0 where
  pub sha256 : Bytes → Bytes
  pub decode64 : Bytes → Option Bytes
  pub loads_key : Bytes → Bool
  pub verify : Bytes → Bytes → Bytes → Bool

pub data VerifyError : Type 0 where
  cannot_read checksum_empty checksum_invalid checksum_mismatch : VerifyError
  no_public_key bad_public_key bad_signature_text bad_signature : VerifyError

-- The first of `strings.Fields`, where there is one.
unfoldable pub word : Bytes → Bytes
word [] = []
word (c ∷ s) = if is_space c then [] else c ∷ word s

-- `hex.DecodeString`
unfoldable pub hex_value : ℕ → Option ℕ
hex_value c =
    if leb 48 c && leb c 57
    then some (c - 48)
    else if leb 97 c && leb c 102
    then some (c - 87)
    else if leb 65 c && leb c 70
    then some (c - 55)
    else none

unfoldable pub decode_hex : Bytes → Option Bytes
unfolding hex_value
decode_hex [] = some []
decode_hex (c ∷ []) = none
decode_hex (c ∷ d ∷ s) = elim (hex_value c) [
  | none ↦ none
  | some high ↦ elim (hex_value d) [
    | none ↦ none
    | some low ↦ elim (decode_hex s) [ none ↦ none | some rest ↦ some ((16 * high + low) ∷ rest) ]
  ]
]

module _ (crypto : Crypto) where
  -- `verifyChecksum` behind its reads.
  unfoldable pub check_digest : Bytes → Bytes → Option VerifyError
  unfolding word decode_hex trim_left equal_bytes
  check_digest binary checksum_file = elim (word (trim_left checksum_file)) [
    | [] ↦ some checksum_empty
    | c ∷ field ↦ elim (decode_hex (c ∷ field)) [
      | none ↦ some checksum_invalid
      | some expected ↦
          if not (eqb (length expected) 32)
          then some checksum_invalid
          else if equal_bytes (crypto.sha256 binary) expected
          then none
          else some checksum_mismatch
    ]
  ]

  unfoldable pub verify_checksum :
      Environment → String → String → World → World × Option VerifyError
  unfolding check_digest read_file
  verify_checksum env binary_path checksum_path w =
      let (w1, binary) = read_file env binary_path w in
      elim binary [
        | none ↦ (w1, some cannot_read)
        | some content ↦
            let (w2, checksum) = read_file env checksum_path w1 in
            elim checksum [
              | none ↦ (w2, some cannot_read)
              | some text ↦ (w2, check_digest content text)
            ]
      ]

  unfoldable pub verify_cosign_blob :
      Environment → String → String → Bytes → World → World × Option VerifyError
  unfolding read_file trim_space
  verify_cosign_blob env binary_path signature_path key w =
      if eqb (length key) 0
      then (w, some no_public_key)
      else if not (crypto.loads_key key)
      then (w, some bad_public_key)
      else let (w1, payload) = read_file env binary_path w in
        elim payload [
          | none ↦ (w1, some cannot_read)
          | some content ↦
              let (w2, signature) = read_file env signature_path w1 in
              elim signature [
                | none ↦ (w2, some cannot_read)
                | some text ↦ elim (crypto.decode64 (trim_space text)) [
                  | none ↦ (w2, some bad_signature_text)
                  | some raw ↦
                      (w2, if crypto.verify key raw content then none else some bad_signature)
                ]
              ]
        ]
