-- ===== src/Updater/Fetched.antt =====
-- internal/updater/update.go: what the three downloads leave.
use windows_llmmanager.Base.{
  ◌≡◌, ◌≢◌, inl, inr, refl, sym, ap, ◌∙◌, String, string_eq, Bool, true, false, none, some,
  Bool-cases,
}
use windows_llmmanager.Api.{Bytes}
use windows_llmmanager.Updater.Host.{Environment, World}
use windows_llmmanager.Updater.Verify.{Crypto}
use windows_llmmanager.Updater.Update.{AssetUrls, DownloadedPaths, download}
use windows_llmmanager.Updater.Check.{download_all}
use windows_llmmanager.Updater.Moves.{at}
use windows_llmmanager.Updater.Files.{Apart, Served, at-download, download-Served}

module _ (env : Environment) where
  module _ (crypto : Crypto) where
    pub at-download_all :
        (assets : AssetUrls) (paths : DownloadedPaths) (p : String) (w : World)
        → Apart p paths
        → at p (download_all env crypto assets paths w).0 ≡ at p w
    unfolding download_all Apart
    at-download_all assets paths p w (b, c, s) = elim (Bool-cases w1.1) [
      | inr e ↦ rw e got_1
      | inl e ↦ elim (Bool-cases w2.1) [
        | inr f ↦ rw (e, f) (got_2 ∙ got_1)
        | inl f ↦
            rw (e, f)
              (at-download env assets.signature paths.signature p 1048576 w2.0 s ∙ got_2 ∙ got_1)
      ]
    ]
      where
        w1 : World × Bool
        w1 = download env assets.binary paths.binary 209715200 w

        w2 : World × Bool
        w2 = download env assets.checksum paths.checksum 4096 w1.0

        got_1 : at p w1.0 ≡ at p w
        got_1 = at-download env assets.binary paths.binary p 209715200 w b

        got_2 : at p w2.0 ≡ at p w1.0
        got_2 = at-download env assets.checksum paths.checksum p 4096 w1.0 c

    -- What was served for the three assets stands at the three paths.
    unfoldable pub Fetched : AssetUrls → DownloadedPaths → World → Type 0
    Fetched assets paths w =
        ((b : Bytes) × Served env assets.binary b × (at paths.binary w ≡ some b))
        × ((c : Bytes) × Served env assets.checksum c × (at paths.checksum w ≡ some c))
        × ((t : Bytes) × Served env assets.signature t × (at paths.signature w ≡ some t))

    -- A download makes a new file, so it is none of those that are there.
    ne_of_new :
        (p q : String) (content : Bytes) (w : World) → at p w ≡ some content → at q w ≡ none → p ≢ q
    ne_of_new p q content w held new e = absurd (cc (ap (λ x. at x w) e))

    pub download_all-Fetched :
        (assets : AssetUrls) (paths : DownloadedPaths) (w : World)
        → (download_all env crypto assets paths w).1 ≡ true
        → Fetched assets paths (download_all env crypto assets paths w).0
    unfolding download_all Fetched
    download_all-Fetched assets paths w h = elim (Bool-cases w1.1) [
      | inr e ↦ absurd (false-ne-true (sym (rw (download_all, e) refl) ∙ h))
      | inl e ↦ elim (Bool-cases w2.1) [
        | inr f ↦ absurd (false-ne-true (sym (rw (download_all, e, f) refl) ∙ h))
        | inl f ↦
            (let w3 = download env assets.signature paths.signature 1048576 w2.0 in
              let (b, served_b, _, held_b) =
                download-Served env assets.binary paths.binary 209715200 w e in
              let (c, served_c, new_c, held_c) =
                download-Served env assets.checksum paths.checksum 4096 w1.0 f in
              let (t, served_t, new_t, held_t) =
                download-Served env assets.signature paths.signature 1048576 w2.0
                  (sym (rw (download_all, e, f) refl) ∙ h) in
              let kept_b =
                at-download env assets.checksum paths.checksum paths.binary 4096 w1.0
                  (ne_of_new paths.binary paths.checksum b w1.0 held_b new_c)
                ∙ held_b in
              rw (e, f)
                (
                  (
                    b,
                    served_b,
                    at-download env assets.signature paths.signature paths.binary 1048576 w2.0
                          (ne_of_new paths.binary paths.signature b w2.0 kept_b new_t)
                        ∙ kept_b,
                  ),
                  (
                    c,
                    served_c,
                    at-download env assets.signature paths.signature paths.checksum 1048576 w2.0
                          (ne_of_new paths.checksum paths.signature c w2.0 held_c new_t)
                        ∙ held_c,
                  ),
                  (t, served_t, held_t),
                ))
      ]
    ]
      where
        w1 : World × Bool
        w1 = download env assets.binary paths.binary 209715200 w

        w2 : World × Bool
        w2 = download env assets.checksum paths.checksum 4096 w1.0

        false-ne-true : false ≢ true
        false-ne-true x = cc
