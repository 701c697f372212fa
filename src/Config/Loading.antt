-- ===== src/Config/Loading.antt =====
-- What `load_config` of mkosi/config.py works on: the settings it uses, and what the host says.
pub mod KernelCommandLine
pub mod Environment
use mkosi.Base.{
  ℕ, Bool, true, false, not, ◌&&◌, ◌||◌, Option, none, some, List, [], ◌∷◌, ◌++◌, map, any,
  if◌then◌else◌, ◌==◌,
}
use mkosi.Base.Text.{Text, lit, text_eq, starts_with}
use mkosi.Base.Split.{partition}
use mkosi.Base.Dict.{Dict, lookup, insert, merge}
use mkosi.Base.Result.{Result, ok, failed, die, ◌>>=◌}
use mkosi.VersionComp.{lt}
use mkosi.Config.Enums.{Verb, Distribution, Architecture}
use mkosi.Config.StrEnum.{distribution_enum, architecture_enum}
use mkosi.Config.Families.{needs_credentials, is_dnf_distribution, is_apt_distribution}
use mkosi.Config.Architecture.{default_serial_tty}
use mkosi.Config.Value.Sequence.{parse_environment}

-- What is asked of the host: variables of the environment, the size of the terminal, the kernel's
-- release, `os.geteuid() == 0`, and what timedatectl, openssl and ssh-keygen print.
pub record Host : Type 0 where
  pub getenv : Text → Option Text
  pub columns : Text
  pub lines : Text
  pub release : Text
  pub is_superuser : Bool
  -- the files of mkosi.credentials with their contents or outputs, in the order of `iterdir`
  pub credential_files : Dict Text
  -- nothing if there is no timedatectl
  pub timezone : Option Text
  pub ssh_public_key : Text → Result Text

-- The settings that `load_config` uses. Files of the environment are given by their lines.
pub record Loading : Type 0 where
  pub verb : Verb
  pub has_directory : Bool
  pub distribution : Distribution
  pub release : Text
  pub architecture : Architecture
  pub build_dir : Option Text
  pub sign : Bool
  pub checksum : Bool
  pub credentials : Dict Text
  pub kernel_command_line_extra : List Text
  pub environment : Dict Text
  pub environment_files : List (List Text)
  pub image_id : Option Text
  pub image_version : Option Text
  -- its `str`
  pub source_date_epoch : Option Text
  pub ssh : Bool
  pub ssh_certificate : Option Text
  pub qemu_cdrom : Bool
  pub qemu_gui : Bool
  pub secure_boot : Bool
  pub secure_boot_key : Option Text
  pub secure_boot_certificate : Option Text
  pub repositories : List Text
  pub overlay : Bool
  pub base_trees : List Text
  pub build_scripts : List Text
  pub incremental : Bool
  pub cache_dir : Option Text

abbrev pub is_some : Option Text → Bool
is_some none = false
is_some (some v) = true

abbrev pub is_nonempty : List Text → Bool
is_nonempty [] = false
is_nonempty (v ∷ vs) = true

-- `d[key] = value` where there is a value, or where it is not empty
abbrev pub set_some : Text → Option Text → Dict Text → Dict Text
set_some key none d = d
set_some key (some v) d = insert key v d

abbrev pub set_nonempty : Text → Option Text → Dict Text → Dict Text
set_nonempty key none d = d
set_nonempty key (some []) d = d
set_nonempty key (some (c ∷ s)) d = insert key (c ∷ s) d
