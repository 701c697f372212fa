-- ===== src/Distributions/Agreement.antt =====
-- What the families, the packages and the tools trees of distributions have in common.
use mkosi.Base.{◌≡◌, refl, sym, Bool, true, false, some}
use mkosi.Base.Text.{text_eq}
use mkosi.Base.Dict.{contains}
use mkosi.Base.Dict.Distinct.{distinct}
use mkosi.Config.Enums.{Distribution, PackageType}
use mkosi.Config.Families.{is_apt_distribution, is_dnf_distribution}
use mkosi.Distributions.{
  PackageManager, installer, default_tools_tree_distribution, architecture_names,
}

abbrev is_deb : PackageType → Bool
is_deb PackageType.deb = true
is_deb _ = false

pub record Agrees (d : Distribution) : Type 0 where
  -- Apt is for the distributions with deb packages.
  pub apt : is_apt_distribution d ≡ is_deb (installer d).package_type
  pub dnf : is_dnf_distribution d ≡ true → (installer d).package_type ≡ PackageType.rpm
  pub manager :
      is_dnf_distribution d ≡ true → (installer d).package_manager false ≡ PackageManager.dnf
  -- The tools tree of a tools tree's distribution is of the same distribution.
  pub tools :
      (t : Distribution)
      → default_tools_tree_distribution d ≡ some t
      → default_tools_tree_distribution t ≡ some t
  -- No two architectures have the same name.
  pub names : distinct (architecture_names d) ≡ true

own_tools :
    (d t : Distribution)
    → default_tools_tree_distribution d ≡ some d
    → some d ≡ some t
    → default_tools_tree_distribution t ≡ some t
own_tools d t e h = let q : d ≡ t = value h in rw (sym q) e
  where
    value : {B : Type 0} {x y : B} → some x ≡ some y → x ≡ y
    value p = cc p

tools_same :
    (d t : Distribution)
    → default_tools_tree_distribution d ≡ some t
    → default_tools_tree_distribution t ≡ some t
unfolding default_tools_tree_distribution
tools_same Distribution.fedora t h = own_tools _ t refl h
tools_same Distribution.debian t h = own_tools _ t refl h
tools_same Distribution.ubuntu t h = own_tools _ t refl h
tools_same Distribution.arch t h = own_tools _ t refl h
tools_same Distribution.opensuse t h = own_tools _ t refl h
tools_same Distribution.mageia t h = own_tools _ t refl h
tools_same Distribution.centos t h = own_tools _ t refl h
tools_same Distribution.rhel t h = own_tools _ t refl h
tools_same Distribution.rhel_ubi t h = own_tools _ t refl h
tools_same Distribution.openmandriva t h = own_tools _ t refl h
tools_same Distribution.rocky t h = own_tools _ t refl h
tools_same Distribution.alma t h = own_tools _ t refl h
tools_same Distribution.custom t h = cc h

names_distinct : (d : Distribution) → distinct (architecture_names d) ≡ true
unfolding architecture_names distinct contains text_eq
names_distinct Distribution.fedora = refl
names_distinct _ = refl

families :
    (d : Distribution)
    → (is_apt_distribution d ≡ is_deb (installer d).package_type)
      × (is_dnf_distribution d ≡ true → (installer d).package_type ≡ PackageType.rpm)
      × (is_dnf_distribution d ≡ true → (installer d).package_manager false ≡ PackageManager.dnf)
unfolding installer is_apt_distribution is_dnf_distribution
families Distribution.fedora = (refl, (λ h. refl), λ h. refl)
families Distribution.debian = (refl, (λ h. cc h), λ h. cc h)
families Distribution.ubuntu = (refl, (λ h. cc h), λ h. cc h)
families Distribution.arch = (refl, (λ h. cc h), λ h. cc h)
families Distribution.opensuse = (refl, (λ h. refl), λ h. refl)
families Distribution.mageia = (refl, (λ h. refl), λ h. refl)
families Distribution.centos = (refl, (λ h. refl), λ h. refl)
families Distribution.rhel = (refl, (λ h. refl), λ h. refl)
families Distribution.rhel_ubi = (refl, (λ h. refl), λ h. refl)
families Distribution.openmandriva = (refl, (λ h. refl), λ h. refl)
families Distribution.rocky = (refl, (λ h. refl), λ h. refl)
families Distribution.alma = (refl, (λ h. refl), λ h. refl)
families Distribution.custom = (refl, (λ h. cc h), λ h. cc h)

-- For every distribution: it is of the apt family just if its packages are deb packages; in the dnf
-- family packages are rpm packages and the package manager is Dnf; the default tools tree of its
-- default tools tree is of the same distribution; and no two architectures have the same name.
pub installer-Agrees : (d : Distribution) → Agrees d
installer-Agrees d =
    let f = families d in
    record { apt = f.0; dnf = f.1; manager = f.2; tools = tools_same d; names = names_distinct d }
