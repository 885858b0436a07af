-- ===== src/Tests/Agent.antt =====
-- cmd/agent at concrete inputs.
use windows_llmmanager.Base.{◌≡◌, refl, string_eq, [], ◌∷◌, ◌++◌, true, false, none, some}
use windows_llmmanager.Base.Dict.{lookup, insert}
use windows_llmmanager.Base.Outcome.{ok, err}
use windows_llmmanager.Api.{Bytes}
use windows_llmmanager.Text.{codes, cut_prefix}
use windows_llmmanager.Disk.{Faults, Disk, tick, opened, attempt, open_file, append}
use windows_llmmanager.Powershell.Wrapper.{char64}
use windows_llmmanager.Security.Auth.{loaded, token_auth, load_token, bearer, authenticate}
use windows_llmmanager.Agent.Service.{contains_text}
use windows_llmmanager.Agent.Token.{
  token_exists, url_char64, encode_raw_url, crlf, stat_file, write_file, store_token,
  generate_token, generate_token_ok,
}

abbrev no_faults : Faults
no_faults = record { fails = λ n. false; written = λ n. 0 }

abbrev empty_disk : Disk
empty_disk = record { calls = 0; files = [] }

abbrev random : Bytes
random =
    0 ∷ 16 ∷ 131 ∷ 16 ∷ 81 ∷ 135 ∷ 32 ∷ 146 ∷ 139 ∷ 48 ∷ 211 ∷ 143 ∷ 65 ∷ 20 ∷ 147 ∷ 81 ∷ 85 ∷ 151
    ∷ 97 ∷ 150 ∷ 155 ∷ 113 ∷ 215 ∷ 159 ∷ 130 ∷ 24 ∷ 163 ∷ 146 ∷ 89 ∷ 167 ∷ 251 ∷ 255 ∷ []

-- The alphabet stands in it in order, up to the last two bytes.
token_text : encode_raw_url random ≡ codes "ABCDEFGHIJKLMNOPQRSTUVWXYZabcdefghijklmn-_8"
unfolding encode_raw_url url_char64 char64
token_text = refl

generated :
    (generate_token no_faults "token.txt" false (some random) empty_disk).1
    ≡ ok (encode_raw_url random)
unfolding generate_token stat_file store_token write_file attempt open_file append tick opened
    lookup insert string_eq
generated = refl

-- A second run without --force refuses.
refused_again :
    (generate_token no_faults "token.txt" false
      (some random)
      (generate_token no_faults "token.txt" false (some random) empty_disk).0).1
    ≡ err token_exists
unfolding generate_token stat_file store_token write_file attempt open_file append tick opened
    lookup insert string_eq
refused_again = refl

server_closed : contains_text (codes "http: Server closed") (codes "Server closed") ≡ true
unfolding contains_text cut_prefix
server_closed = refl

generate_token_ok_example :
    let d = (generate_token no_faults "token.txt" false (some random) empty_disk).0 in
    let token = encode_raw_url random in
    (lookup "token.txt" d.files ≡ some (token ++ crlf))
    × (false ≡ false → lookup "token.txt" empty_disk.files ≡ none)
    × (load_token (λ b. b) (some (token ++ crlf)) ≡ loaded (token_auth (λ b. b) token))
    × (authenticate (λ b. b) (token_auth (λ b. b) token) (bearer (λ b. b) ++ token) ≡ true)
generate_token_ok_example =
    generate_token_ok no_faults (λ b. b) "token.txt" false random empty_disk (encode_raw_url random)
      refl generated
