-- ===== src/Nevra.antt =====
-- The version in the NEVRA (name, epoch, version, release and architecture) of an rpm package, as
-- `record_rpm_packages` of mkosi/manifest.py reads it.
use mkosi.Base.{
  ◌≡◌, Bool, if◌then◌else◌, ◌≢◌, refl, inl, inr, true, false, some, [], ◌∷◌, ◌++◌, Bool-cases,
  ==_refl,
}
use mkosi.Base.Text.{
  Text, lit, text_eq, text_eq_iff, starts_with, strip_prefix, remove_prefix, remove_suffix,
}
use mkosi.Base.Suffix.{ends_with, ends_with-append, ends_with-behind, remove_suffix-append}
use mkosi.Base.Result.{Result, ok, failed, assertion_error}

-- `assert test`, and what comes behind it
abbrev pub check {ℓ} : {T : Type ℓ} → Bool → Result T → Result T
check test behind = if test then behind else failed assertion_error

-- Version and architecture of a package with this NEVRA, name and architecture.
unfoldable pub evr_and_arch : (nevra name arch : Text) → Result (Text × Text)
unfolding text_eq starts_with ends_with remove_prefix remove_suffix
evr_and_arch nevra name arch =
    let evra = remove_prefix nevra (name ++ lit "-") in
    check (starts_with nevra (name ++ lit "-")) (
      if text_eq arch (lit "(none)")
      then ok (evra, [])
      else check (ends_with nevra (b'.' ∷ arch)) (ok (remove_suffix evra (b'.' ∷ arch), arch)))

starts_with-append : (p s : Text) → starts_with (p ++ s) p ≡ true
unfolding starts_with
starts_with-append [] s = refl
starts_with-append (c ∷ p) s = rw ==_refl (starts_with-append p s)

strip_prefix-append : (p s : Text) → strip_prefix (p ++ s) p ≡ some s
unfolding strip_prefix
strip_prefix-append [] s = refl
strip_prefix-append (c ∷ p) s = rw ==_refl (strip_prefix-append p s)

remove_prefix-append : (p s : Text) → remove_prefix (p ++ s) p ≡ s
unfolding remove_prefix
remove_prefix-append p s = rw (strip_prefix-append p s, remove_prefix) refl

-- From the NEVRA of a package, made of its name, its epoch, version and release, and its architecture,
-- and the name and architecture, the epoch, version and release are read back, whatever hyphens and
-- dots they have, for every architecture but "(none)".
pub evr_and_arch-nevra :
    (name evr arch : Text)
    → arch ≢ lit "(none)"
    → evr_and_arch ((name ++ lit "-") ++ (evr ++ b'.' ∷ arch)) name arch ≡ ok (evr, arch)
unfolding evr_and_arch
evr_and_arch-nevra name evr arch h =
    rw
      (
        starts_with-append (name ++ lit "-") (evr ++ b'.' ∷ arch),
        remove_prefix-append (name ++ lit "-") (evr ++ b'.' ∷ arch),
        is_there,
        ends_with-behind (name ++ lit "-") (evr ++ b'.' ∷ arch) (b'.' ∷ arch)
            (ends_with-append evr (b'.' ∷ arch)),
        remove_suffix-append evr b'.' arch,
      )
      refl
  where
    is_there : text_eq arch (lit "(none)") ≡ false
    is_there = elim (Bool-cases (text_eq arch (lit "(none)"))) [
      | inl e ↦ elim (h ((text_eq_iff arch (lit "(none)")).0 e)) [ ]
      | inr e ↦ e
    ]
