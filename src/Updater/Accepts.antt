-- ===== src/Updater/Accepts.antt =====
-- internal/updater/update.go: what `downloadAndVerify` leaves, and what has passed its checks.
use windows_llmmanager.Base.{
  ℕ, ◌≡◌, ◌≢◌, inl, inr, refl, sym, ◌∙◌, subst, String, string_eq, true, Option, none, some, length,
  eqb, Bool-cases, Option-cases, arith,
}
use windows_llmmanager.Base.Outcome.{Outcome, ok, err}
use windows_llmmanager.Api.{Bytes}
use windows_llmmanager.Text.{trim_space}
use windows_llmmanager.Updater.Host.{Environment, World, tick, read_file}
use windows_llmmanager.Updater.Verify.{
  Crypto, VerifyError, cannot_read, no_public_key, bad_public_key, bad_signature_text,
  bad_signature, check_digest, verify_checksum, verify_cosign_blob,
}
use windows_llmmanager.Updater.Update.{
  UpdaterConfig, UpdateError, no_random_name, download_fails, not_verified, AssetUrls,
  DownloadedPaths, paths_of,
}
use windows_llmmanager.Updater.Check.{download_all, verify_all, download_and_verify}
use windows_llmmanager.Updater.Moves.{at}
use windows_llmmanager.Updater.Files.{
  Apart, Passed, read_cases, at-read_file, some-ne-none, at-cleanup,
}
use windows_llmmanager.Updater.Fetched.{at-download_all, Fetched, download_all-Fetched}

module _ (env : Environment) where
  module _ (crypto : Crypto) where
    at-verify_checksum :
        (b c p : String) (w : World) → at p (verify_checksum crypto env b c w).0 ≡ at p w
    unfolding at verify_checksum read_file tick
    at-verify_checksum b c p w = ground arith

    verify_checksum-accepts :
        (b c : String) (w : World)
        → (verify_checksum crypto env b c w).1 ≡ none
        → (binary : Bytes) × (checksum_file : Bytes) × (at b w ≡ some binary)
          × (at c w ≡ some checksum_file)
          × (check_digest crypto binary checksum_file ≡ none)
    unfolding at verify_checksum read_file tick
    verify_checksum-accepts b c w h = elim (read_cases env b w) [
      | inl n ↦ absurd (some-ne-none env cannot_read (sym (rw (verify_checksum, n) refl) ∙ h))
      | inr (binary, e, held) ↦ elim (read_cases env c (read_file env b w).0) [
        | inl n ↦ absurd (some-ne-none env cannot_read (sym (rw (verify_checksum, e, n) refl) ∙ h))
        | inr (text, f, found) ↦ (
          binary,
          text,
          held,
          sym (at-read_file env b c w) ∙ found,
          sym (rw (verify_checksum, e, f) refl) ∙ h,
        )
      ]
    ]

    verify_cosign-accepts :
        (b s : String) (key : Bytes) (w : World)
        → (verify_cosign_blob crypto env b s key w).1 ≡ none
        → (binary : Bytes) × (text : Bytes) × (signature : Bytes) × (at b w ≡ some binary)
          × (at s w ≡ some text)
          × (crypto.decode64 (trim_space text) ≡ some signature)
          × (crypto.verify key signature binary ≡ true)
    unfolding at verify_cosign_blob read_file tick
    verify_cosign-accepts b s key w h = elim (Bool-cases (eqb (length key) 0)) [
      | inl k ↦ absurd (some-ne-none env no_public_key (sym (rw (verify_cosign_blob, k) refl) ∙ h))
      | inr k ↦ elim (Bool-cases (crypto.loads_key key)) [
        | inr l ↦
            absurd (some-ne-none env bad_public_key (sym (rw (verify_cosign_blob, k, l) refl) ∙ h))
        | inl l ↦ elim (read_cases env b w) [
          | inl n ↦
              absurd
                (some-ne-none env cannot_read (sym (rw (verify_cosign_blob, k, l, n) refl) ∙ h))
          | inr (binary, e, held) ↦ elim (read_cases env s (read_file env b w).0) [
            | inl n ↦
                absurd (
                  some-ne-none env cannot_read (sym (rw (verify_cosign_blob, k, l, e, n) refl) ∙ h))
            | inr (text, f, found) ↦ elim (Option-cases (crypto.decode64 (trim_space text))) [
              | inl n ↦ absurd (
                  some-ne-none env bad_signature_text
                    (sym (rw (verify_cosign_blob, k, l, e, f, n) refl) ∙ h))
              | inr (raw, d) ↦ elim (Bool-cases (crypto.verify key raw binary)) [
                | inl v ↦ (binary, text, raw, held, sym (at-read_file env b s w) ∙ found, d, v)
                | inr v ↦ absurd (
                    some-ne-none env bad_signature
                      (sym (rw (verify_cosign_blob, k, l, e, f, d, v) refl) ∙ h))
              ]
            ]
          ]
        ]
      ]
    ]

    at-verify_cosign_blob :
        (b s p : String) (key : Bytes) (w : World)
        → at p (verify_cosign_blob crypto env b s key w).0 ≡ at p w
    unfolding at verify_cosign_blob read_file tick
    at-verify_cosign_blob b s p key w = ground arith

    at-verify_all :
        (key : Bytes) (paths : DownloadedPaths) (p : String) (w : World)
        → at p (verify_all env crypto key paths w).0 ≡ at p w
    unfolding verify_all
    at-verify_all key paths p w = elim (Option-cases w1.1) [
      | inr (e, f) ↦ rw (verify_all, f) same
      | inl n ↦
          rw (verify_all, n) (at-verify_cosign_blob paths.binary paths.signature p key w1.0 ∙ same)
    ]
      where
        w1 : World × Option VerifyError
        w1 = verify_checksum crypto env paths.binary paths.checksum w

        same : at p w1.0 ≡ at p w
        same = at-verify_checksum paths.binary paths.checksum p w

    some_inj : {a b : Bytes} → some a ≡ some b → a ≡ b
    some_inj e = cc

    verify_all-accepts :
        (key : Bytes) (assets : AssetUrls) (paths : DownloadedPaths) (w : World)
        → Fetched env crypto assets paths w
        → (verify_all env crypto key paths w).1 ≡ none
        → (binary : Bytes) × (at paths.binary w ≡ some binary) × Passed env crypto key assets binary
    unfolding verify_all Passed Fetched
    verify_all-accepts key assets paths w ((b, sb, hb), (c, sc, hc), (t, st, ht)) h =
        elim (Option-cases w1.1) [
          | inr (e, f) ↦ absurd (some-ne-none env e (sym (rw (verify_all, f) refl) ∙ h))
          | inl n ↦
              (let (binary, checksum_file, held, listed, digest) =
                  verify_checksum-accepts paths.binary paths.checksum w n in
                let (binary', text, signature, held', kept, decoded, signed) =
                  verify_cosign-accepts paths.binary paths.signature key w1.0
                    (sym (rw (verify_all, n) refl) ∙ h) in
                let same : b ≡ binary = some_inj (sym hb ∙ held) in
                let same' : b ≡ binary' = some_inj (sym hb ∙ sym (seen paths.binary) ∙ held') in
                let same_c : c ≡ checksum_file = some_inj (sym hc ∙ listed) in
                let same_t : t ≡ text = some_inj (sym ht ∙ sym (seen paths.signature) ∙ kept) in
                (
                  b,
                  hb,
                  (
                    sb,
                    (c, sc, rw (same, same_c) digest),
                    (t, signature, st, rw same_t decoded, rw same' signed),
                  ),
                ))
        ]
      where
        w1 : World × Option VerifyError
        w1 = verify_checksum crypto env paths.binary paths.checksum w

        seen : (p : String) → at p w1.0 ≡ at p w
        seen p = at-verify_checksum paths.binary paths.checksum p w

    ticked : (p : String) (w : World) → at p (tick w) ≡ at p w
    unfolding at tick
    ticked p w = refl

    err-ne-ok :
        (e : UpdateError) (paths : DownloadedPaths)
        → ◌≢◌ {A = Outcome UpdateError DownloadedPaths} (err e) (ok paths)
    err-ne-ok e paths h = cc

    ok_inj :
        (p q : DownloadedPaths)
        → ◌≡◌ {A = Outcome UpdateError DownloadedPaths} (ok p) (ok q)
        → p ≡ q
    ok_inj p q h = cc

    pub at-download_and_verify :
        (cfg : UpdaterConfig) (assets : AssetUrls) (p : String) (w : World)
        → ((n : ℕ) (prefix : String) → env.temporary n ≡ some prefix → Apart p (paths_of prefix))
        → at p (download_and_verify env crypto cfg assets w).0 ≡ at p w
    unfolding download_and_verify
    at-download_and_verify cfg assets p w apart = elim (Option-cases (env.temporary w.calls)) [
      | inl n ↦ rw (download_and_verify, n) (ticked p w)
      | inr (prefix, t) ↦
          (let paths = paths_of prefix in
            let ok_p = apart w.calls prefix t in
            let w1 = download_all env crypto assets paths (tick w) in
            let got = at-download_all env crypto assets paths p (tick w) ok_p ∙ ticked p w in
            elim (Bool-cases w1.1) [
              | inr e ↦ rw (download_and_verify, t, e) (at-cleanup env paths p w1.0 ok_p ∙ got)
              | inl e ↦
                  (let w2 = verify_all env crypto cfg.public_key paths w1.0 in
                    let seen = at-verify_all cfg.public_key paths p w1.0 ∙ got in
                    elim (Option-cases w2.1) [
                      | inr (_, f) ↦
                          rw (download_and_verify, t, e, f)
                            (at-cleanup env paths p w2.0 ok_p ∙ seen)
                      | inl f ↦ rw (download_and_verify, t, e, f) seen
                    ])
            ])
    ]

    pub download_and_verify-accepts :
        (cfg : UpdaterConfig) (assets : AssetUrls) (paths : DownloadedPaths) (w : World)
        → (download_and_verify env crypto cfg assets w).1 ≡ ok paths
        → (binary : Bytes) × (at paths.binary (download_and_verify env crypto cfg assets w).0
            ≡ some binary)
          × Passed env crypto cfg.public_key assets binary
          × (prefix : String) × (env.temporary w.calls ≡ some prefix)
          × (paths ≡ paths_of prefix)
    unfolding download_and_verify
    download_and_verify-accepts cfg assets paths w h = elim (Option-cases (env.temporary w.calls)) [
      | inl n ↦ absurd (err-ne-ok no_random_name paths (sym (rw (download_and_verify, n) refl) ∙ h))
      | inr (prefix, t) ↦
          (let drawn = paths_of prefix in
            let w1 = download_all env crypto assets drawn (tick w) in
            elim (Bool-cases w1.1) [
              | inr e ↦
                  absurd
                    (err-ne-ok download_fails paths (sym (rw (download_and_verify, t, e) refl) ∙ h))
              | inl e ↦
                  (let w2 = verify_all env crypto cfg.public_key drawn w1.0 in
                    elim (Option-cases w2.1) [
                      | inr (x, f) ↦ absurd (
                          err-ne-ok (not_verified x) paths
                            (sym (rw (download_and_verify, t, e, f) refl) ∙ h))
                      | inl f ↦
                          (let same =
                              ok_inj drawn paths
                                (sym (rw (download_and_verify, t, e, f) refl) ∙ h) in
                            let (binary, held, verified) =
                              verify_all-accepts cfg.public_key assets drawn w1.0
                                (download_all-Fetched env crypto assets drawn (tick w) e) f in
                            (
                              binary,
                              subst
                                  (λ q.
                                    at q.binary (download_and_verify env crypto cfg assets w).0
                                    ≡ some binary)
                                  same
                                  (rw (download_and_verify, t, e, f)
                                    (at-verify_all cfg.public_key drawn drawn.binary w1.0 ∙ held)),
                              verified,
                              prefix,
                              t,
                              sym same,
                            ))
                    ])
            ])
    ]
