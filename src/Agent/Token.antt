-- ===== src/Agent/Token.antt =====
-- cmd/agent/main_windows.go: `generateToken`, on a disk where any call may fail.
use windows_llmmanager.Base.{
  ℕ, ◌+◌, ◌*◌, ◌/◌, ◌%◌, ◌≡◌, inl, inr, refl, sym, ap, ◌∙◌, String, string_eq, [], ◌∷◌, ◌++◌, Bool,
  true, false, not, ◌&&◌, Option, none, some, length, eqb, ltb, if◌then◌else◌, Bool-cases, arith,
  Option-cases,
}
use windows_llmmanager.Base.Dict.{lookup, insert, lookup-insert_self}
use windows_llmmanager.Base.Outcome.{Outcome, ok, err}
use windows_llmmanager.Api.{Bytes}
use windows_llmmanager.Text.{is_space, trim_left, trim_right, trim_space}
use windows_llmmanager.Disk.{Faults, Disk, truncating, tick, opened, attempt, open_file, append}
use windows_llmmanager.Updater.Host.{Stat, there, not_there, stat_fails}
use windows_llmmanager.Powershell.Wrapper.{char64}
use windows_llmmanager.Security.Auth.{
  loaded, token_auth, load_token, bearer, authenticate, authenticate_iff,
}

pub data GenerateError : Type 0 where
  token_exists token_not_statted no_random no_directory token_not_written : GenerateError

-- The alphabet of `base64.RawURLEncoding`.
unfoldable pub url_char64 : ℕ → ℕ
unfolding char64
url_char64 n = if ltb n 62 then char64 n else if eqb n 62 then b'-' else b'_'

-- `base64.RawURLEncoding.EncodeToString`
unfoldable pub encode_raw_url : Bytes → Bytes
encode_raw_url [] = []
encode_raw_url (a ∷ []) = url_char64 (a / 4) ∷ url_char64 (a % 4 * 16) ∷ []
encode_raw_url (a ∷ b ∷ []) =
    url_char64 (a / 4) ∷ url_char64 (a % 4 * 16 + b / 16) ∷ url_char64 (b % 16 * 4) ∷ []
encode_raw_url (a ∷ b ∷ c ∷ rest) =
    url_char64 (a / 4)
    ∷ url_char64 (a % 4 * 16 + b / 16)
    ∷ url_char64 (b % 16 * 4 + c / 64)
    ∷ url_char64 (c % 64)
    ∷ encode_raw_url rest

abbrev pub crlf : Bytes
crlf = 13 ∷ 10 ∷ []

module _ (faults : Faults) where
  -- `os.Stat`
  unfoldable pub stat_file : String → Disk → Disk × Stat
  unfolding tick
  stat_file path d = (
    tick d,
    if faults.fails d.calls
        then stat_fails
        else elim (lookup path d.files) [ none ↦ not_there | some _ ↦ there ],
  )

  -- `os.WriteFile`, which opens, writes and closes.
  unfoldable pub write_file : String → Bytes → Disk → Disk × Bool
  unfolding open_file append attempt
  write_file path bytes d =
      let (d1, is_open) = open_file faults truncating path d in
      if not is_open
      then (d1, false)
      else let (d2, wrote) = append faults path bytes d1 in
        let (d3, closed) = attempt faults d2 in (d3, wrote && closed)

  -- From the random bytes on, if they could be drawn.
  unfoldable pub store_token : String → Option Bytes → Disk → Disk × Outcome GenerateError Bytes
  unfolding attempt write_file encode_raw_url
  store_token path none d = (d, err no_random)
  store_token path (some bytes) d =
      let token = encode_raw_url bytes in
      let (d1, made) = attempt faults d in
      if not made
      then (d1, err no_directory)
      else let (d2, wrote) = write_file path (token ++ crlf) d1 in
        (d2, if wrote then ok token else err token_not_written)

  -- `generateToken`, which prints the token that it returns here.
  unfoldable pub generate_token :
      String → Bool → Option Bytes → Disk → Disk × Outcome GenerateError Bytes
  unfolding stat_file store_token
  generate_token path true random d = store_token path random d
  generate_token path false random d =
      let (d1, found) = stat_file path d in
      elim found [
        | there ↦ (d1, err token_exists)
        | stat_fails ↦ (d1, err token_not_statted)
        | not_there ↦ store_token path random d1
      ]

-- No white space.
unfoldable spaceless : Bytes → Bool
spaceless [] = true
spaceless (c ∷ s) = not (is_space c) && spaceless s

url_char64-spaceless : (n : ℕ) → is_space (url_char64 n) ≡ false
unfolding url_char64 char64
url_char64-spaceless n = ground arith

encode_raw_url-spaceless : (s : Bytes) → spaceless (encode_raw_url s) ≡ true
unfolding encode_raw_url spaceless
encode_raw_url-spaceless [] = refl
encode_raw_url-spaceless (a ∷ []) = simp (url_char64-spaceless)
encode_raw_url-spaceless (a ∷ b ∷ []) = simp (url_char64-spaceless)
encode_raw_url-spaceless (a ∷ b ∷ c ∷ rest) =
    simp (url_char64-spaceless, encode_raw_url-spaceless rest)

length-encode_raw_url : (s : Bytes) → length (encode_raw_url s) ≡ (length s * 4 + 2) / 3
unfolding encode_raw_url
length-encode_raw_url [] = refl
length-encode_raw_url (a ∷ []) = refl
length-encode_raw_url (a ∷ b ∷ []) = refl
length-encode_raw_url (a ∷ b ∷ c ∷ rest) = omega (arith, length-encode_raw_url rest)

trim_right-spaceless :
    (s : Bytes) → spaceless s ≡ true → (trim_right (s ++ crlf) ≡ s) × (trim_right s ≡ s)
unfolding trim_right spaceless
trim_right-spaceless [] h = (refl, refl)
trim_right-spaceless (c ∷ []) h = ground arith
trim_right-spaceless (c ∷ d ∷ s) h = ground (arith, trim_right-spaceless (d ∷ s))

trim_space-spaceless :
    (s : Bytes) → spaceless s ≡ true → (trim_space (s ++ crlf) ≡ s) × (trim_space s ≡ s)
unfolding trim_space trim_left spaceless
trim_space-spaceless [] h = (unfold trim_right in refl, unfold trim_right in refl)
trim_space-spaceless (c ∷ s) h = ground (arith, trim_right-spaceless (c ∷ s))

-- A text without white space that is long enough is a token that LoadToken reads from its line.
token_opens :
    (sha256 : Bytes → Bytes) (token : Bytes)
    → spaceless token ≡ true
    → length token ≡ 43
    → (load_token sha256 (some (token ++ crlf)) ≡ loaded (token_auth sha256 token))
      × (authenticate sha256 (token_auth sha256 token) (bearer sha256 ++ token) ≡ true)
unfolding load_token token_auth
token_opens sha256 token clean size =
    let (line, plain) = trim_space-spaceless token clean in
    (
      rw (line, size) refl,
      (authenticate_iff sha256 (token_auth sha256 token) (bearer sha256 ++ token)).1
          (token, refl, ap sha256 (sym plain)),
    )

module _ (faults : Faults) where
  write_file_ok :
      (path : String) (bytes : Bytes) (d : Disk)
      → (write_file faults path bytes d).1 ≡ true
      → lookup path (write_file faults path bytes d).0.files ≡ some bytes
  unfolding write_file open_file opened append attempt tick
  write_file_ok path bytes d h = ground (
    arith,
    lookup-insert_self path [] d.files,
    lookup-insert_self path bytes (insert path [] d.files),
  )

  store_token_ok :
      (path : String) (random : Option Bytes) (d : Disk) (token : Bytes)
      → (store_token faults path random d).1 ≡ ok token
      → (bytes : Bytes) × (random ≡ some bytes)
        × (token ≡ encode_raw_url bytes)
        × (lookup path (store_token faults path random d).0.files ≡ some (token ++ crlf))
  unfolding store_token
  store_token_ok path none d token h = absurd (ground arith)
  store_token_ok path (some bytes) d token h =
      let d1 = (attempt faults d).0 in
      (
        bytes,
        refl,
        ground arith,
        ground (arith, write_file_ok path (encode_raw_url bytes ++ crlf) d1),
      )

  generated_ok :
      (path : String) (force : Bool) (random : Option Bytes) (d : Disk) (token : Bytes)
      → (generate_token faults path force random d).1 ≡ ok token
      → (bytes : Bytes) × (random ≡ some bytes)
        × (token ≡ encode_raw_url bytes)
        × (lookup path (generate_token faults path force random d).0.files ≡ some (token ++ crlf))
        × (force ≡ false → lookup path d.files ≡ none)
  unfolding generate_token stat_file tick
  generated_ok path true random d token h =
      let (bytes, r, t, l) = store_token_ok path random d token h in
      (bytes, r, t, l, λ e. absurd (cc))
  generated_ok path false random d token h = elim (Bool-cases (faults.fails d.calls)) [
    | inl f ↦ absurd (ground arith)
    | inr f ↦ elim (Option-cases (lookup path d.files)) [
      | inr (content, l) ↦ absurd (ground arith)
      | inl l ↦
          let (bytes, r, t, w) = store_token_ok path random (tick d) token (ground arith) in
          (bytes, r, t, ground arith, λ e. l)
    ]
  ]

  -- Where `--gen-token` draws 32 random bytes and reports no error: the file holds the token that it
  -- prints and the end of a line, it was not there before unless --force is given, LoadToken accepts
  -- it, and the printed token then opens the door.
  pub generate_token_ok :
      (sha256 : Bytes → Bytes) (path : String) (force : Bool) (bytes : Bytes) (d : Disk)
      (token : Bytes)
      → length bytes ≡ 32
      → (generate_token faults path force (some bytes) d).1 ≡ ok token
      → (lookup path (generate_token faults path force (some bytes) d).0.files
          ≡ some (token ++ crlf))
        × (force ≡ false → lookup path d.files ≡ none)
        × (load_token sha256 (some (token ++ crlf)) ≡ loaded (token_auth sha256 token))
        × (authenticate sha256 (token_auth sha256 token) (bearer sha256 ++ token) ≡ true)
  generate_token_ok sha256 path force bytes d token size h =
      let (drawn, r, t, l, fresh) = generated_ok path force (some bytes) d token h in
      let (loads, opens) =
        token_opens sha256 token (rw t (encode_raw_url-spaceless drawn))
          (rw t (length-encode_raw_url drawn ∙ ap (λ n. (n * 4 + 2) / 3) (drawn_size drawn r))) in
      (l, fresh, loads, opens)
    where
      drawn_size :
          (drawn : Bytes) → ◌≡◌ {A = Option Bytes} (some bytes) (some drawn) → length drawn ≡ 32
      drawn_size drawn r = ground arith
