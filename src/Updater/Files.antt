-- ===== src/Updater/Files.antt =====
-- internal/updater/update.go: which files the steps before the installation touch.
use windows_llmmanager.Base.{
  ℕ, ◌≡◌, ◌≢◌, ◌⊎◌, inl, inr, refl, sym, ◌∙◌, String, string_eq, true, false, ◌||◌, Option, none,
  some, length, ltb, Bool-cases, Option-cases, arith,
}
use windows_llmmanager.Base.Dict.{lookup, lookup-insert-ne, lookup-insert_self}
use windows_llmmanager.Api.{Bytes}
use windows_llmmanager.Text.{trim_space}
use windows_llmmanager.Updater.Host.{Environment, Release, World, tick, read_file, remove}
use windows_llmmanager.Updater.Verify.{Crypto, VerifyError, check_digest}
use windows_llmmanager.Updater.Update.{
  AssetUrls, UpdaterConfig, required_assets, DownloadedPaths, download, cleanup, binary_version,
}
use windows_llmmanager.Updater.Moves.{at, at-remove}

-- A path that is none of those of a download.
unfoldable pub Apart : String → DownloadedPaths → Type 0
Apart p paths = (p ≢ paths.binary) × (p ≢ paths.checksum) × (p ≢ paths.signature)

-- What the network serves under an address, at some call.
abbrev pub Served : Environment → String → Bytes → Type 0
Served env url content = (n : ℕ) × (env.body n url ≡ some content)

-- A binary that was served under the address of the first asset, has the digest in the text that was
-- served under that of the second, and under the key the signature in the text that was served under
-- that of the third.
unfoldable pub Passed : Environment → Crypto → Bytes → AssetUrls → Bytes → Type 0
Passed env crypto key assets binary =
    Served env assets.binary binary
    × ((checksum_file : Bytes) × Served env assets.checksum checksum_file
        × (check_digest crypto binary checksum_file ≡ none))
    × ((text : Bytes) × (signature : Bytes) × Served env assets.signature text
        × (crypto.decode64 (trim_space text) ≡ some signature)
        × (crypto.verify key signature binary ≡ true))

-- A binary that passed so with the assets of a release that the network gave as the latest.
unfoldable pub IsVerified : Environment → Crypto → UpdaterConfig → Bytes → Type 0
unfolding Passed
IsVerified env crypto cfg binary =
    (n : ℕ) × (rel : Release) × (env.latest_release n ≡ some rel)
    × (assets : AssetUrls) × (required_assets cfg rel ≡ some assets)
    × Passed env crypto cfg.public_key assets binary

module _ (env : Environment) where
  pub at-download :
      (url destination p : String) (max_bytes : ℕ) (w : World)
      → p ≢ destination
      → at p (download env url destination max_bytes w).0 ≡ at p w
  unfolding at download tick
  at-download url destination p max_bytes w ne = elim (Bool-cases (env.is_https url)) [
    | inr e ↦ rw e refl
    | inl e ↦ elim (Option-cases (env.body w.calls url)) [
      | inl n ↦ rw (e, n) refl
      | inr (body, b) ↦ elim (Option-cases (lookup destination w.files)) [
        | inr (_, l) ↦ rw (e, b, l) refl
        | inl l ↦ elim (Bool-cases (env.fails w.calls || ltb max_bytes (length body))) [
          | inl f ↦
              rw (e, b, l, f)
                (at-remove env destination p _ ne ∙ lookup-insert-ne p destination _ w.files ne)
          | inr f ↦ rw (e, b, l, f) (lookup-insert-ne p destination body w.files ne)
        ]
      ]
    ]
  ]

  -- A download that succeeds leaves what was served in a new file.
  pub download-Served :
      (url destination : String) (max_bytes : ℕ) (w : World)
      → (download env url destination max_bytes w).1 ≡ true
      → (content : Bytes) × Served env url content
        × (at destination w ≡ none)
        × (at destination (download env url destination max_bytes w).0 ≡ some content)
  unfolding at download tick
  download-Served url destination max_bytes w h = elim (Bool-cases (env.is_https url)) [
    | inr e ↦ absurd (false-ne-true (sym (rw (download, e) refl) ∙ h))
    | inl e ↦ elim (Option-cases (env.body w.calls url)) [
      | inl n ↦ absurd (false-ne-true (sym (rw (download, e, n) refl) ∙ h))
      | inr (body, b) ↦ elim (Option-cases (lookup destination w.files)) [
        | inr (_, l) ↦ absurd (false-ne-true (sym (rw (download, e, b, l) refl) ∙ h))
        | inl l ↦ elim (Bool-cases (env.fails w.calls || ltb max_bytes (length body))) [
          | inl f ↦ absurd (false-ne-true (sym (rw (download, e, b, l, f) refl) ∙ h))
          | inr f ↦ (
            body,
            (w.calls, b),
            l,
            rw (download, e, b, l, f) (lookup-insert_self destination body w.files),
          )
        ]
      ]
    ]
  ]
    where
      false-ne-true : false ≢ true
      false-ne-true x = cc

  pub at-cleanup :
      (paths : DownloadedPaths) (p : String) (w : World)
      → Apart p paths
      → at p (cleanup env paths w) ≡ at p w
  unfolding cleanup Apart
  at-cleanup paths p w (b, c, s) =
      at-remove env paths.signature p (remove env paths.checksum (remove env paths.binary w)) s
      ∙ at-remove env paths.checksum p (remove env paths.binary w) c
      ∙ at-remove env paths.binary p w b

  running-remove : (path : String) (w : World) → (remove env path w).running ≡ w.running
  unfolding remove tick
  running-remove path w = ground arith

  pub running-cleanup :
      (paths : DownloadedPaths) (w : World) → (cleanup env paths w).running ≡ w.running
  unfolding cleanup
  running-cleanup paths w =
      running-remove paths.signature (remove env paths.checksum (remove env paths.binary w))
      ∙ running-remove paths.checksum (remove env paths.binary w)
      ∙ running-remove paths.binary w

  pub at-binary_version :
      (path p : String) (w : World) → at p (binary_version env path w).0 ≡ at p w
  unfolding at binary_version tick
  at-binary_version path p w = elim (Option-cases (lookup path w.files)) [
    | inl n ↦ rw (binary_version, n) refl
    | inr (binary, e) ↦ elim (Option-cases (env.version_output w.calls binary)) [
      | inl n ↦ rw (binary_version, e, n) refl
      | inr (out, f) ↦ rw (binary_version, e, f) refl
    ]
  ]

  pub binary_version-there :
      (path : String) (w : World) (version : Bytes)
      → (binary_version env path w).1 ≡ some version
      → (binary : Bytes) × (at path w ≡ some binary)
  unfolding at binary_version tick
  binary_version-there path w version h = elim (Option-cases (lookup path w.files)) [
    | inl n ↦ absurd (none-ne-some (sym (rw (binary_version, n) refl) ∙ h))
    | inr (binary, e) ↦ (binary, e)
  ]
    where
      none-ne-some : ◌≢◌ {A = Option Bytes} none (some version)
      none-ne-some e = cc

  pub read_cases :
      (p : String) (w : World)
      → ((read_file env p w).1 ≡ none)
        ⊎ ((content : Bytes) × ((read_file env p w).1 ≡ some content) × (at p w ≡ some content))
  unfolding at read_file
  read_cases p w = elim (Bool-cases (env.fails w.calls)) [
    | inl e ↦ rw e (inl refl)
    | inr e ↦ elim (Option-cases (lookup p w.files)) [
      | inl n ↦ rw (e, n) (inl refl)
      | inr (content, s) ↦ rw (e, s) (inr (content, refl, refl))
    ]
  ]

  pub at-read_file : (q p : String) (w : World) → at p (read_file env q w).0 ≡ at p w
  unfolding at read_file tick
  at-read_file q p w = refl

  pub some-ne-none : (e : VerifyError) → some e ≢ none
  some-ne-none e h = cc
