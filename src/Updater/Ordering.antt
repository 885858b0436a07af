-- ===== src/Updater/Ordering.antt =====
-- internal/updater/version.go: the order of the releases.
use windows_llmmanager.Base.{
  ◌<◌, ◌≡◌, ◌≢◌, ◌↔◌, ◌⊎◌, inl, inr, refl, sym, ◌∙◌, subst, string_eq, Bool, true, false, ◌&&◌, eqb,
  arith,
}
use windows_llmmanager.Base.Outcome.{Outcome, ok, err, Outcome-cases}
use windows_llmmanager.Api.{Bytes}
use windows_llmmanager.Updater.Version.{
  Version, VersionError, bad_current, bad_release, parse_version, newer_components, newer_version,
  versions_equal,
}

infix 50 ◌≺◌
-- The order of `major.minor.patch`: the first component that differs decides.
abbrev pub ◌≺◌ : Version → Version → Type 0
v ≺ w =
    (v.major < w.major)
    ⊎ ((v.major ≡ w.major) × ((v.minor < w.minor) ⊎ ((v.minor ≡ w.minor) × (v.patch < w.patch))))

newer_components_iff : (v w : Version) → (newer_components v w ≡ true) ↔ (v ≺ w)
unfolding newer_components
newer_components_iff v w = ground arith

newer_version-parsed :
    (a b : Bytes) (v w : Version)
    → parse_version a ≡ ok v
    → parse_version b ≡ ok w
    → newer_version a b ≡ ok (newer_components v w)
unfolding newer_version
newer_version-parsed a b v w e f = rw (e, f) refl

-- Of two texts that parse, the second is newer exactly if its version comes later in the order of
-- major, minor and patch.
pub newer_version_iff :
    (a b : Bytes) (v w : Version)
    → parse_version a ≡ ok v
    → parse_version b ≡ ok w
    → (newer_version a b ≡ ok true) ↔ (v ≺ w)
newer_version_iff a b v w e f =
    rw (newer_version-parsed a b v w e f) (ground (arith, newer_components_iff v w))

bad_first :
    (a b : Bytes) (x : VersionError) → parse_version a ≡ err x → newer_version a b ≡ err bad_current
unfolding newer_version
bad_first a b x e = rw e refl

bad_candidate :
    (a b : Bytes) (v : Version) (x : VersionError)
    → parse_version a ≡ ok v
    → parse_version b ≡ err x
    → newer_version a b ≡ err bad_release
unfolding newer_version
bad_candidate a b v x e f = rw (e, f) refl

newer_version-true :
    (a b : Bytes)
    → newer_version a b ≡ ok true
    → (v : Version) × (w : Version) × (parse_version a ≡ ok v) × (parse_version b ≡ ok w) × (v ≺ w)
newer_version-true a b h = elim (Outcome-cases (parse_version a)) [
  | inl (v, e) ↦ elim (Outcome-cases (parse_version b)) [
    | inl (w, f) ↦ (v, w, e, f, (newer_version_iff a b v w e f).0 h)
    | inr (_, f) ↦ absurd (ok-ne-err (sym h ∙ bad_candidate a b v _ e f))
  ]
  | inr (_, e) ↦ absurd (ok-ne-err (sym h ∙ bad_first a b _ e))
]
  where
    ok-ne-err : {x : Bool} {e : VersionError} → ok x ≢ err e
    ok-ne-err h = cc

-- What is newer than a newer version is newer.
pub newer_version_trans :
    (a b c : Bytes)
    → newer_version a b ≡ ok true
    → newer_version b c ≡ ok true
    → newer_version a c ≡ ok true
newer_version_trans a b c h k =
    let (u, v, e, f, u_v) = newer_version-true a b h in
    let (v', w, f', g, v_w) = newer_version-true b c k in
    (newer_version_iff a c u w e g).1
      (≺_trans u v w u_v (subst (λ x. x ≺ w) (ok_inj (sym f' ∙ f)) v_w))
  where
    ≺_trans : (u v w : Version) → u ≺ v → v ≺ w → u ≺ w
    ≺_trans u v w h k = ground arith

    ok_inj : {v w : Version} → ◌≡◌ {A = Outcome VersionError Version} (ok v) (ok w) → v ≡ w
    ok_inj h = cc

versions_equal-parsed :
    (a b : Bytes) (v w : Version)
    → parse_version a ≡ ok v
    → parse_version b ≡ ok w
    → versions_equal a b ≡ (eqb v.major w.major && eqb v.minor w.minor && eqb v.patch w.patch)
unfolding versions_equal
versions_equal-parsed a b v w e f = rw (versions_equal, e, f) refl

compare_components :
    (v w : Version)
    → let v_w : Outcome VersionError Bool = ok (newer_components v w) in
      let w_v : Outcome VersionError Bool = ok (newer_components w v) in
      let same = eqb v.major w.major && eqb v.minor w.minor && eqb v.patch w.patch in
      ((v_w ≡ ok true) × (w_v ≡ ok false) × (same ≡ false))
      ⊎ ((v_w ≡ ok false) × (w_v ≡ ok true) × (same ≡ false))
      ⊎ ((v_w ≡ ok false) × (w_v ≡ ok false) × (same ≡ true))
unfolding newer_components
compare_components v w = ground arith

-- Of two texts that parse, exactly one is the newer, or neither is and the versions are equal.
pub newer_version_total :
    (a b : Bytes) (v w : Version)
    → parse_version a ≡ ok v
    → parse_version b ≡ ok w
    → ((newer_version a b ≡ ok true)
        × (newer_version b a ≡ ok false)
        × (versions_equal a b ≡ false))
      ⊎ ((newer_version a b ≡ ok false)
          × (newer_version b a ≡ ok true)
          × (versions_equal a b ≡ false))
      ⊎ ((newer_version a b ≡ ok false)
          × (newer_version b a ≡ ok false)
          × (versions_equal a b ≡ true))
newer_version_total a b v w e f =
    rw
      (
        newer_version-parsed a b v w e f,
        newer_version-parsed b a w v f e,
        versions_equal-parsed a b v w e f,
      )
      (compare_components v w)
