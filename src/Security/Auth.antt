-- ===== src/Security/Auth.antt =====
-- internal/security/auth.go. SHA-256 is a parameter of the model.
use windows_llmmanager.Base.{
  ℕ, ◌+◌, ◌-◌, ◌/◌, ◌%◌, ◌<◌, ◌≡◌, ◌↔◌, ◌⊎◌, inl, inr, refl, sym, ap, string_eq, [], ◌∷◌, ◌++◌,
  Bool, true, false, Option, none, some, length, take, ltb, if◌then◌else◌, Bool-cases, Option-cases,
  arith,
}
use windows_llmmanager.Api.{Bytes}
use windows_llmmanager.Text.{
  codes, trim_space, cut_prefix, bytes_equal, bytes_equal_iff, cut_prefix_iff, trim_space_idem,
}

pub record TokenAuth : Type 0 where
  pub hash : Bytes
  pub fingerprint : Bytes

pub data TokenError : Type 0 where
  read_token token_too_short : TokenError

pub data LoadResult : Type 0 where
  loaded : TokenAuth → LoadResult
  refused : TokenError → LoadResult

abbrev pub hex_digit : ℕ → ℕ
hex_digit n = if ltb n 10 then b'0' + n else b'a' + (n - 10)

-- `%x` of a byte slice.
unfoldable pub hex : Bytes → Bytes
hex [] = []
hex (b ∷ bs) = hex_digit (b / 16) ∷ hex_digit (b % 16) ∷ hex bs

module _ (sha256 : Bytes → Bytes) where
  unfoldable pub token_auth : Bytes → TokenAuth
  unfolding hex
  token_auth token = record { hash = sha256 token; fingerprint = hex (take 8 (sha256 token)) }

  -- `LoadToken`, given what `os.ReadFile` returns.
  unfoldable pub load_token : Option Bytes → LoadResult
  unfolding token_auth
  load_token none = refused read_token
  load_token (some b) =
      let token = trim_space b in
      if ltb (length token) 43 then refused token_too_short else loaded (token_auth token)

  abbrev pub bearer : Bytes
  bearer = codes "Bearer "

  unfoldable pub authenticate : TokenAuth → Bytes → Bool
  authenticate a header = elim (cut_prefix bearer header) [
    | none ↦ false
    | some rest ↦ bytes_equal a.hash (sha256 (trim_space rest))
  ]

  -- A header is accepted exactly if it is "Bearer " and a text that, trimmed, has the hash of the
  -- token.
  pub authenticate_iff :
      (a : TokenAuth) (header : Bytes)
      → (authenticate a header ≡ true)
        ↔ ((rest : Bytes) × (header ≡ bearer ++ rest) × (a.hash ≡ sha256 (trim_space rest)))
  unfolding authenticate
  authenticate_iff a header = (forth (Option-cases (cut_prefix bearer header)), back)
    where
      forth :
          (cut_prefix bearer header ≡ none)
            ⊎ ((rest : Bytes) × (cut_prefix bearer header ≡ some rest))
          → authenticate a header ≡ true
          → (rest : Bytes) × (header ≡ bearer ++ rest) × (a.hash ≡ sha256 (trim_space rest))
      forth (inl e) t = absurd (ground arith)
      forth (inr (rest, e)) t =
          (rest, (cut_prefix_iff bearer header rest).0 e, (bytes_equal_iff _ _).0 (ground arith))

      back :
          (rest : Bytes) × (header ≡ bearer ++ rest) × (a.hash ≡ sha256 (trim_space rest))
          → authenticate a header ≡ true
      back (rest, e, f) =
          rw ((cut_prefix_iff bearer header rest).1 e, authenticate) ((bytes_equal_iff _ _).1 f)

  accepts :
      (a : TokenAuth) (header rest : Bytes)
      → header ≡ bearer ++ rest
      → a.hash ≡ sha256 (trim_space rest)
      → authenticate a header ≡ true
  accepts a header rest e f = (authenticate_iff a header).1 (rest, e, f)

  -- A token file whose text is long enough once trimmed is loaded, and the text then opens the door
  -- as it stands in the file, and trimmed; a shorter one is refused.
  pub authenticate-load_token :
      (file : Bytes)
      → ((length (trim_space file) < 43) × (load_token (some file) ≡ refused token_too_short))
        ⊎ ((a : TokenAuth) × (load_token (some file) ≡ loaded a)
            × (authenticate a (bearer ++ file) ≡ true)
            × (authenticate a (bearer ++ trim_space file) ≡ true))
  unfolding load_token
  authenticate-load_token file = elim (Bool-cases (ltb (length (trim_space file)) 43)) [
    | inl short ↦ inl (ground arith, rw short)
    | inr long ↦ inr (
      token_auth (trim_space file),
      rw long,
      accepts (token_auth (trim_space file)) (bearer ++ file) file refl (unfold token_auth in refl),
      accepts (token_auth (trim_space file)) (bearer ++ trim_space file) (trim_space file) refl
          (unfold token_auth in ap sha256 (sym (trim_space_idem file))),
    )
  ]
