-- ===== src/Distributions.antt =====
-- mkosi/distributions: what each distribution's `Installer` says of its packages, and the methods of
-- `Distribution` that ask it. A class that is derived from another one is that one with changes.
pub mod Agreement
use mkosi.Base.{
  ◌≡◌, refl, sym, Bool, true, false, Option, none, some, List, [], ◌∷◌, map, if◌then◌else◌,
}
use mkosi.Base.Text.{Text, lit}
use mkosi.Base.Result.{Result, ok, failed, die}
use mkosi.Config.Enums.{Distribution, Architecture, PackageType}
use mkosi.Config.StrEnum.{architecture_value, architecture_enum}

pub data PackageManager : Type 0 where
  base pacman dnf apt zypper : PackageManager

pub record Installer : Type 0 where
  -- `none` where the method is not implemented
  pub pretty_name : Option Text
  pub filesystem : Text
  pub package_type : PackageType
  pub default_release : Text
  pub default_tools_tree_distribution : Option Distribution
  pub grub_prefix : Text
  -- `find_binary("zypper", root=config.tools())` decides it
  pub package_manager : (zypper : Bool) → PackageManager
  pub architecture : Architecture → Option Text

-- `DistributionInstaller`
abbrev pub base_installer : Installer
base_installer = record {
  pretty_name = none;
  filesystem = lit "ext4";
  package_type = PackageType.none;
  default_release = [];
  default_tools_tree_distribution = none;
  grub_prefix = lit "grub";
  package_manager = λ zypper. PackageManager.base;
  architecture = λ a. none;
}

abbrev pub arch_architecture : Architecture → Option Text
arch_architecture Architecture.x86_64 = some (lit "x86_64")
arch_architecture Architecture.arm64 = some (lit "aarch64")
arch_architecture Architecture.arm = some (lit "armv7h")
arch_architecture _ = none

abbrev pub centos_architecture : Architecture → Option Text
centos_architecture Architecture.x86_64 = some (lit "x86_64")
centos_architecture Architecture.ppc64_le = some (lit "ppc64le")
centos_architecture Architecture.s390x = some (lit "s390x")
centos_architecture Architecture.arm64 = some (lit "aarch64")
centos_architecture _ = none

abbrev pub debian_architecture : Architecture → Option Text
debian_architecture Architecture.arm64 = some (lit "arm64")
debian_architecture Architecture.arm = some (lit "armhf")
debian_architecture Architecture.alpha = some (lit "alpha")
debian_architecture Architecture.x86_64 = some (lit "amd64")
debian_architecture Architecture.x86 = some (lit "i386")
debian_architecture Architecture.ia64 = some (lit "ia64")
debian_architecture Architecture.loongarch64 = some (lit "loongarch64")
debian_architecture Architecture.mips64_le = some (lit "mips64el")
debian_architecture Architecture.mips_le = some (lit "mipsel")
debian_architecture Architecture.parisc = some (lit "hppa")
debian_architecture Architecture.ppc64_le = some (lit "ppc64el")
debian_architecture Architecture.ppc64 = some (lit "ppc64")
debian_architecture Architecture.riscv64 = some (lit "riscv64")
debian_architecture Architecture.s390x = some (lit "s390x")
debian_architecture Architecture.s390 = some (lit "s390")
debian_architecture _ = none

abbrev pub fedora_architecture : Architecture → Option Text
fedora_architecture Architecture.arm64 = some (lit "aarch64")
fedora_architecture Architecture.mips64_le = some (lit "mips64el")
fedora_architecture Architecture.mips_le = some (lit "mipsel")
fedora_architecture Architecture.ppc64_le = some (lit "ppc64le")
fedora_architecture Architecture.riscv64 = some (lit "riscv64")
fedora_architecture Architecture.s390x = some (lit "s390x")
fedora_architecture Architecture.x86_64 = some (lit "x86_64")
fedora_architecture _ = none

abbrev pub mageia_architecture : Architecture → Option Text
mageia_architecture Architecture.x86_64 = some (lit "x86_64")
mageia_architecture Architecture.arm64 = some (lit "aarch64")
mageia_architecture _ = none

abbrev pub openmandriva_architecture : Architecture → Option Text
openmandriva_architecture Architecture.x86_64 = some (lit "x86_64")
openmandriva_architecture Architecture.arm64 = some (lit "aarch64")
openmandriva_architecture Architecture.riscv64 = some (lit "riscv64")
openmandriva_architecture _ = none

abbrev pub opensuse_architecture : Architecture → Option Text
opensuse_architecture Architecture.x86_64 = some (lit "x86_64")
opensuse_architecture _ = none

abbrev pub arch_installer : Installer
arch_installer = record base_installer {
  pretty_name = some (lit "Arch Linux");
  filesystem = lit "ext4";
  package_type = PackageType.pkg;
  default_release = lit "rolling";
  default_tools_tree_distribution = some Distribution.arch;
  package_manager = λ zypper. PackageManager.pacman;
  architecture = arch_architecture;
}

abbrev pub centos_installer : Installer
centos_installer = record base_installer {
  pretty_name = some (lit "CentOS");
  filesystem = lit "xfs";
  package_type = PackageType.rpm;
  default_release = lit "9";
  default_tools_tree_distribution = some Distribution.fedora;
  package_manager = λ zypper. PackageManager.dnf;
  grub_prefix = lit "grub2";
  architecture = centos_architecture;
}

abbrev pub debian_installer : Installer
debian_installer = record base_installer {
  pretty_name = some (lit "Debian");
  filesystem = lit "ext4";
  package_type = PackageType.deb;
  default_release = lit "testing";
  default_tools_tree_distribution = some Distribution.debian;
  package_manager = λ zypper. PackageManager.apt;
  architecture = debian_architecture;
}

abbrev pub fedora_installer : Installer
fedora_installer = record base_installer {
  pretty_name = some (lit "Fedora Linux");
  filesystem = lit "btrfs";
  package_type = PackageType.rpm;
  default_release = lit "39";
  default_tools_tree_distribution = some Distribution.fedora;
  grub_prefix = lit "grub2";
  package_manager = λ zypper. PackageManager.dnf;
  architecture = fedora_architecture;
}

abbrev pub mageia_installer : Installer
mageia_installer = record fedora_installer {
  pretty_name = some (lit "Mageia");
  filesystem = lit "ext4";
  default_release = lit "cauldron";
  default_tools_tree_distribution = some Distribution.mageia;
  architecture = mageia_architecture;
}

abbrev pub openmandriva_installer : Installer
openmandriva_installer = record fedora_installer {
  pretty_name = some (lit "OpenMandriva");
  filesystem = lit "ext4";
  default_release = lit "cooker";
  default_tools_tree_distribution = some Distribution.openmandriva;
  architecture = openmandriva_architecture;
}

abbrev pub opensuse_installer : Installer
opensuse_installer = record base_installer {
  pretty_name = some (lit "openSUSE");
  filesystem = lit "btrfs";
  package_type = PackageType.rpm;
  default_release = lit "tumbleweed";
  default_tools_tree_distribution = some Distribution.opensuse;
  grub_prefix = lit "grub2";
  package_manager = λ zypper. if zypper then PackageManager.zypper else PackageManager.dnf;
  architecture = opensuse_architecture;
}

abbrev pub ubuntu_installer : Installer
ubuntu_installer = record debian_installer {
  pretty_name = some (lit "Ubuntu");
  default_release = lit "noble";
  default_tools_tree_distribution = some Distribution.ubuntu;
}

abbrev pub rhel_installer : Installer
rhel_installer = record centos_installer { pretty_name = some (lit "RHEL") }

abbrev pub rhel_ubi_installer : Installer
rhel_ubi_installer = record centos_installer { pretty_name = some (lit "RHEL UBI") }

abbrev pub alma_installer : Installer
alma_installer = record centos_installer { pretty_name = some (lit "AlmaLinux") }

abbrev pub rocky_installer : Installer
rocky_installer = record centos_installer { pretty_name = some (lit "Rocky Linux") }

abbrev pub custom_installer : Installer
custom_installer = record base_installer { architecture = λ a. some (architecture_value a) }

-- `Distribution.installer`
unfoldable pub installer : Distribution → Installer
installer Distribution.fedora = fedora_installer
installer Distribution.debian = debian_installer
installer Distribution.ubuntu = ubuntu_installer
installer Distribution.arch = arch_installer
installer Distribution.opensuse = opensuse_installer
installer Distribution.mageia = mageia_installer
installer Distribution.centos = centos_installer
installer Distribution.rhel = rhel_installer
installer Distribution.rhel_ubi = rhel_ubi_installer
installer Distribution.openmandriva = openmandriva_installer
installer Distribution.rocky = rocky_installer
installer Distribution.alma = alma_installer
installer Distribution.custom = custom_installer

-- `Distribution.default_release` and `Distribution.default_tools_tree_distribution`
unfoldable pub default_release : Distribution → Text
unfolding installer
default_release d = (installer d).default_release

unfoldable pub default_tools_tree_distribution : Distribution → Option Distribution
unfolding installer
default_tools_tree_distribution d = (installer d).default_tools_tree_distribution

abbrev or_die : Option Text → Result Text
or_die none = failed (die (lit "Architecture is not supported"))
or_die (some s) = ok s

-- `Distribution.architecture`
unfoldable pub architecture : Distribution → Architecture → Result Text
unfolding installer
architecture d a = or_die ((installer d).architecture a)

-- The names that a distribution has for the architectures that it supports.
unfoldable pub architecture_names : Distribution → List Text
unfolding installer
architecture_names d = each architecture_enum.members
  where
    each : List Architecture → List Text
    each [] = []
    each (a ∷ rest) = elim ((installer d).architecture a) [
      | none ↦ each rest
      | some s ↦ s ∷ each rest
    ]
