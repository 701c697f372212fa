-- ===== src/Tests/Loads.antt =====
-- An incremental, signed image for Fedora that is loaded to be run in a virtual machine.
use mkosi.Base.{◌≡◌, refl, true, false, some, none, ◌∷◌, []}
use mkosi.Base.Text.{Text, lit, text_eq}
use mkosi.Base.Dict.{Dict, lookup}
use mkosi.Base.Result.{ok}
use mkosi.Config.Enums.{Verb, Distribution, Architecture}
use mkosi.Config.Families.{needs_credentials}
use mkosi.Base.Dict.Distinct.{distinct}
use mkosi.VersionComp.{round, separator, rstrip_invalid_version_chars, ended, digits, int_from}
use mkosi.Config.Loading.{Host, Loading}
use mkosi.Config.Load.{load_credentials, loaded, load_config}
use mkosi.Config.Load.Credentials.{load_credentials-own}
use mkosi.Config.Load.Checked.{IsConsistent, load_config-IsConsistent}

abbrev host : Host
host = record {
  getenv = λ key. none;
  columns = lit "80";
  lines = lit "24";
  release = lit "6.5.6-300.fc39.x86_64";
  is_superuser = false;
  credential_files = (lit "firstboot.locale", lit "de_DE.UTF-8") ∷ [];
  timezone = some (lit "Europe/Berlin");
  ssh_public_key = λ certificate. ok (lit "ssh-rsa AAAA");
}

abbrev image : Loading
image = record {
  verb = Verb.qemu;
  has_directory = true;
  distribution = Distribution.fedora;
  release = lit "39";
  architecture = Architecture.x86_64;
  build_dir = none;
  sign = true;
  checksum = false;
  credentials = (lit "firstboot.locale", lit "fr_FR.UTF-8") ∷ [];
  kernel_command_line_extra = lit "loglevel=7" ∷ [];
  environment = [];
  environment_files = [];
  image_id = some (lit "base");
  image_version = none;
  source_date_epoch = none;
  ssh = false;
  ssh_certificate = some (lit "mkosi.crt");
  qemu_cdrom = false;
  qemu_gui = false;
  secure_boot = true;
  secure_boot_key = some (lit "mkosi.key");
  secure_boot_certificate = some (lit "mkosi.crt");
  repositories = lit "updates" ∷ [];
  overlay = false;
  base_trees = [];
  build_scripts = lit "mkosi.build" ∷ [];
  incremental = true;
  cache_dir = some (lit "mkosi.cache");
}

abbrev credentials : Dict Text
credentials =
    (lit "agetty.autologin", lit "root")
    ∷ (lit "login.noauth", lit "yes")
    ∷ (lit "firstboot.locale", lit "fr_FR.UTF-8")
    ∷ (lit "firstboot.timezone", lit "Europe/Berlin")
    ∷ (lit "ssh.authorized_keys.root", lit "ssh-rsa AAAA")
    ∷ []

loads_credentials : load_credentials host image ≡ ok credentials
unfolding load_credentials text_eq
loads_credentials = refl

load_credentials-own_example :
    lookup (lit "firstboot.locale") credentials ≡ some (lit "fr_FR.UTF-8")
unfolding lookup needs_credentials distinct text_eq
load_credentials-own_example =
    load_credentials-own host image (lit "firstboot.locale") (lit "fr_FR.UTF-8") credentials refl
      refl refl loads_credentials

loads_image : load_config host Verb.build image ≡ ok (loaded host image credentials)
unfolding load_config text_eq round separator rstrip_invalid_version_chars ended digits int_from
loads_image = refl

load_config-IsConsistent_example : IsConsistent host false (loaded host image credentials)
load_config-IsConsistent_example =
    load_config-IsConsistent host Verb.build image (loaded host image credentials) loads_image
