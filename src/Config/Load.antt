-- ===== src/Config/Load.antt =====
-- mkosi/config.py, `load_config`: the checks of a configuration that was read, and the credentials, the
-- kernel command line and the environment that it gets.
pub mod Credentials
pub mod Checked
use mkosi.Base.{
  ℕ, Bool, true, false, not, ◌&&◌, ◌||◌, Option, none, some, List, [], ◌∷◌, ◌++◌, map, any,
  if◌then◌else◌, ◌==◌,
}
use mkosi.Base.Text.{Text, lit, text_eq, starts_with}
use mkosi.Base.Split.{partition}
use mkosi.Base.Dict.{Dict, lookup, insert, merge}
use mkosi.Base.Result.{Result, ok, failed, die, ◌>>=◌}
use mkosi.VersionComp.{lt}
use mkosi.Config.Enums.{Verb, Distribution, Architecture}
use mkosi.Config.StrEnum.{distribution_enum, architecture_enum}
use mkosi.Config.Families.{needs_credentials, is_dnf_distribution, is_apt_distribution}
use mkosi.Config.Architecture.{default_serial_tty}
use mkosi.Config.Value.Sequence.{parse_environment}
use mkosi.Config.Loading.{Host, Loading, is_some, is_nonempty, set_some, set_nonempty}
use mkosi.Config.Loading.KernelCommandLine.{load_kernel_command_line_extra}
use mkosi.Config.Loading.Environment.{load_environment}

abbrev pub default_credentials : Dict Text
default_credentials = (lit "agetty.autologin", lit "root") ∷ (lit "login.noauth", lit "yes") ∷ []

abbrev pub with_timezone : Host → Dict Text → Dict Text
with_timezone host d =
    if is_some (lookup (lit "firstboot.timezone") d)
    then d
    else set_nonempty (lit "firstboot.timezone") host.timezone d

abbrev pub with_locale : Dict Text → Dict Text
with_locale d =
    if is_some (lookup (lit "firstboot.locale") d)
    then d
    else insert (lit "firstboot.locale") (lit "C.UTF-8") d

-- The certificate's public key, if it is given and not empty.
abbrev pub ssh_key : Host → (ssh : Bool) → Option Text → Dict Text → Result (Dict Text)
ssh_key host ssh (some (c ∷ s)) d =
    host.ssh_public_key (c ∷ s) >>= λ key. ok (insert (lit "ssh.authorized_keys.root") key d)
ssh_key host ssh _ d =
    if ssh then failed (die (lit "Ssh= is enabled but no SSH certificate was found")) else ok d

abbrev pub with_ssh_key : Host → Loading → Dict Text → Result (Dict Text)
with_ssh_key host c d =
    if is_some (lookup (lit "ssh.authorized_keys.root") d)
    then ok d
    else ssh_key host c.ssh c.ssh_certificate d

unfoldable pub load_credentials : Host → Loading → Result (Dict Text)
unfolding needs_credentials lookup insert merge
load_credentials host c =
    let files =
      if c.has_directory
      then merge default_credentials host.credential_files
      else default_credentials in
    if not (needs_credentials c.verb)
    then ok []
    else with_ssh_key host c (with_locale (with_timezone host (merge files c.credentials)))

abbrev pub is_genkey : Verb → Bool
is_genkey Verb.genkey = true
is_genkey _ = false

abbrev pub is_arch : Distribution → Bool
is_arch Distribution.arch = true
is_arch _ = false

-- A path, with `build_dir / f"{distribution}~{release}~{architecture}"` for a build directory.
abbrev build_dir_of : Loading → Option Text → Option Text
build_dir_of c none = none
build_dir_of c (some d) = some (
    d
    ++ b'/'
      ∷ (distribution_enum.value c.distribution
          ++ b'~' ∷ (c.release ++ b'~' ∷ architecture_enum.value c.architecture)))

-- The checks that load_config makes, in their order, each with the message of `die`.
abbrev pub load_checks : Host → (genkey : Bool) → Loading → List (Bool × Text)
load_checks host genkey c =
    let signs = c.secure_boot && not genkey in
    let is_supported =
      is_dnf_distribution c.distribution
      || is_apt_distribution c.distribution
      || is_arch c.distribution in
    (
      signs && not (is_some c.secure_boot_key) && not (is_some c.secure_boot_certificate),
      lit "UEFI SecureBoot enabled, but couldn't find the certificate and private key.",
    )
    ∷ (
      signs && not (is_some c.secure_boot_key),
      lit "UEFI SecureBoot enabled, certificate was found, but not the private key.",
    )
    ∷ (
      signs && not (is_some c.secure_boot_certificate),
      lit "UEFI SecureBoot enabled, private key was found, but not the certificate.",
    )
    ∷ (
      is_nonempty c.repositories && not is_supported,
      lit
          "Sorry, the --repositories option is only supported on pacman, dnf and apt based distributions",
    )
    ∷ (
      c.overlay && not (is_nonempty c.base_trees),
      lit "--overlay can only be used with --base-tree",
    )
    ∷ (
      c.incremental && not (is_some c.cache_dir),
      lit "A cache directory must be configured in order to use --incremental",
    )
    ∷ (
      (is_nonempty c.build_scripts || is_nonempty c.base_trees)
          && lt host.release (lit "5.11")
          && not host.is_superuser,
      lit "This unprivileged build configuration requires at least Linux v5.11",
    )
    ∷ []

-- The first condition that holds is fatal.
unfoldable pub die_on : List (Bool × Text) → Loading → Result Loading
die_on [] c = ok c
die_on ((holds, message) ∷ cs) c =
    let rest = die_on cs c in if holds then failed (die message) else rest

unfoldable pub check_loaded : Host → (genkey : Bool) → Loading → Result Loading
unfolding die_on is_dnf_distribution is_apt_distribution lt
check_loaded host genkey c = die_on (load_checks host genkey c) c

-- What is assigned before the checks.
unfoldable pub loaded : Host → Loading → (credentials : Dict Text) → Loading
unfolding load_kernel_command_line_extra load_environment
loaded host c credentials = record c {
  build_dir = build_dir_of c c.build_dir;
  checksum = c.sign || c.checksum;
  credentials = credentials;
  kernel_command_line_extra = load_kernel_command_line_extra host c;
  environment = load_environment host c;
}

-- `verb` is `args.verb`, that of the command line.
unfoldable pub load_config : Host → (verb : Verb) → Loading → Result Loading
unfolding load_credentials loaded check_loaded
load_config host verb c = load_credentials host c >>= λ credentials.
    check_loaded host (is_genkey verb) (loaded host c credentials)
