-- ===== src/Config/Load/Checked.antt =====
-- What a loaded configuration is checked for: `load_config` of mkosi/config.py.
use mkosi.Base.{◌≡◌, refl, Bool, true, false, not, ◌&&◌, ◌||◌, List, [], ◌∷◌, arith, All}
use mkosi.Base.Text.{Text, lit}
use mkosi.VersionComp.{lt}
use mkosi.Base.Result.{ok}
use mkosi.Base.Result.Post.{Post, raises, returns, Post-ok, bind-Post, own-Post}
use mkosi.Config.Enums.{Verb}
use mkosi.Config.Families.{is_dnf_distribution, is_apt_distribution}
use mkosi.Config.Loading.{Host, Loading, is_some, is_nonempty}
use mkosi.Config.Load.{
  is_genkey, is_arch, die_on, load_checks, check_loaded, loaded, load_config, load_credentials,
}

abbrev pub is_supported : Loading → Bool
is_supported c =
    is_dnf_distribution c.distribution
    || is_apt_distribution c.distribution
    || is_arch c.distribution

-- Signing makes checksums, secure boot has both its files, there is a package manager for the
-- repositories, an overlay has a tree below it, an incremental build has a cache, and the kernel can
-- mount what an unprivileged build needs.
abbrev pub IsConsistent : Host → (genkey : Bool) → Loading → Type 0
IsConsistent host genkey c =
    (c.sign ≡ true → c.checksum ≡ true)
    × (c.secure_boot ≡ true
        → genkey ≡ false
        → (is_some c.secure_boot_key ≡ true) × (is_some c.secure_boot_certificate ≡ true))
    × (is_nonempty c.repositories ≡ true → is_supported c ≡ true)
    × (c.overlay ≡ true → is_nonempty c.base_trees ≡ true)
    × (c.incremental ≡ true → is_some c.cache_dir ≡ true)
    × ((is_nonempty c.build_scripts || is_nonempty c.base_trees) ≡ true
        → lt host.release (lit "5.11") ≡ true
        → host.is_superuser ≡ true)

die_on-Post :
    {P : Loading → Type 0} (cs : List (Bool × Text)) (c : Loading)
    → (All (λ p. p.0 ≡ false) cs → P c)
    → Post P (die_on cs c)
unfolding die_on
die_on-Post [] c k = returns (k tt)
die_on-Post ((true, message) ∷ cs) c k = raises
die_on-Post ((false, message) ∷ cs) c k = die_on-Post cs c (λ a. k (refl, a))

implied : (a b : Bool) → (a && not b) ≡ false → a ≡ true → b ≡ true
implied a b h e = ground (arith, h, e)

implied_twice : (a b d : Bool) → (a && b && not d) ≡ false → a ≡ true → b ≡ true → d ≡ true
implied_twice a b d h e f = ground (arith, h, e, f)

signed_by : (a g b : Bool) → ((a && not g) && not b) ≡ false → a ≡ true → g ≡ false → b ≡ true
signed_by a g b h e f = ground (arith, h, e, f)

check_loaded-IsConsistent :
    (host : Host) (genkey : Bool) (c : Loading)
    → (c.sign ≡ true → c.checksum ≡ true)
    → Post (IsConsistent host genkey) (check_loaded host genkey c)
unfolding check_loaded
check_loaded-IsConsistent host genkey c s =
    die_on-Post (load_checks host genkey c) c (λ (_, (k, (t, (r, (o, (i, (b, _))))))). (
      s,
      (λ e f. (
        signed_by c.secure_boot genkey (is_some c.secure_boot_key) k e f,
        signed_by c.secure_boot genkey (is_some c.secure_boot_certificate) t e f,
      )),
      implied (is_nonempty c.repositories) (is_supported c) r,
      implied c.overlay (is_nonempty c.base_trees) o,
      implied c.incremental (is_some c.cache_dir) i,
      implied_twice (is_nonempty c.build_scripts || is_nonempty c.base_trees)
          (lt host.release (lit "5.11")) host.is_superuser b,
    ))

-- A configuration that load_config returns makes checksums if it signs, has the key and certificate of
-- secure boot unless the verb is genkey, has repositories only for pacman, dnf and apt, an overlay only
-- on a base tree, and a cache directory if it is incremental; and a build with scripts or base trees
-- that is not root's has a kernel not lower than 5.11.
pub load_config-IsConsistent :
    (host : Host) (verb : Verb) (c d : Loading)
    → load_config host verb c ≡ ok d
    → IsConsistent host (is_genkey verb) d
unfolding load_config loaded
load_config-IsConsistent host verb c d h =
    Post-ok (IsConsistent host (is_genkey verb))
      (bind-Post (own-Post (load_credentials host c)) (λ credentials _.
        check_loaded-IsConsistent host (is_genkey verb) (loaded host c credentials)
          (λ e. ground (arith, e))))
      h
