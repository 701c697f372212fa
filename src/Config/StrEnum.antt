-- ===== src/Config/StrEnum.antt =====
-- `StrEnum` of mkosi/util.py: `str(constant)`, and `type(value)`, which finds the constant of a string.
pub mod Laws
use mkosi.Base.{◌≡◌, refl, Option, some, List, [], ◌∷◌, if◌then◌else◌}
use mathlib.Core.Option
use mkosi.Base.Text.{Text, lit, text_eq, text_eq_refl}
use mkosi.Config.Enums.{
  Verb, ConfigFeature, SecureBootSignTool, OutputFormat, ManifestFormat, Compression, DocFormat,
  Bootloader, BiosBootloader, ShimBootloader, Cacheonly, QemuFirmware, Network, Architecture,
  PackageType, Distribution,
}

pub record StrEnum (T : Type 0) : Type 0 where
  pub members : List T
  pub value : T → Text

module _ {T : Type 0} where
  unfoldable pub find_member : (T → Text) → List T → Text → Option T
  find_member value [] s = Option.none
  find_member value (t ∷ ts) s = if text_eq (value t) s then some t else find_member value ts s

  -- `type(s)`
  unfoldable pub of_value : StrEnum T → Text → Option T
  unfolding find_member
  of_value e s = find_member e.value e.members s

abbrev pub verb_value : Verb → Text
verb_value Verb.build = lit "build"
verb_value Verb.clean = lit "clean"
verb_value Verb.summary = lit "summary"
verb_value Verb.shell = lit "shell"
verb_value Verb.boot = lit "boot"
verb_value Verb.qemu = lit "qemu"
verb_value Verb.ssh = lit "ssh"
verb_value Verb.serve = lit "serve"
verb_value Verb.bump = lit "bump"
verb_value Verb.help = lit "help"
verb_value Verb.genkey = lit "genkey"
verb_value Verb.documentation = lit "documentation"
verb_value Verb.journalctl = lit "journalctl"
verb_value Verb.coredumpctl = lit "coredumpctl"
verb_value Verb.burn = lit "burn"
verb_value Verb.vmspawn = lit "vmspawn"

abbrev pub verb_enum : StrEnum Verb
verb_enum = record {
  members =
      Verb.build ∷ Verb.clean ∷ Verb.summary ∷ Verb.shell ∷ Verb.boot ∷ Verb.qemu ∷ Verb.ssh
      ∷ Verb.serve ∷ Verb.bump ∷ Verb.help ∷ Verb.genkey ∷ Verb.documentation ∷ Verb.journalctl
      ∷ Verb.coredumpctl ∷ Verb.burn ∷ Verb.vmspawn ∷ [];
  value = verb_value;
}

abbrev pub config_feature_value : ConfigFeature → Text
config_feature_value ConfigFeature.auto = lit "auto"
config_feature_value ConfigFeature.enabled = lit "enabled"
config_feature_value ConfigFeature.disabled = lit "disabled"

abbrev pub config_feature_enum : StrEnum ConfigFeature
config_feature_enum = record {
  members = ConfigFeature.auto ∷ ConfigFeature.enabled ∷ ConfigFeature.disabled ∷ [];
  value = config_feature_value;
}

abbrev pub secure_boot_sign_tool_value : SecureBootSignTool → Text
secure_boot_sign_tool_value SecureBootSignTool.auto = lit "auto"
secure_boot_sign_tool_value SecureBootSignTool.sbsign = lit "sbsign"
secure_boot_sign_tool_value SecureBootSignTool.pesign = lit "pesign"

abbrev pub secure_boot_sign_tool_enum : StrEnum SecureBootSignTool
secure_boot_sign_tool_enum = record {
  members = SecureBootSignTool.auto ∷ SecureBootSignTool.sbsign ∷ SecureBootSignTool.pesign ∷ [];
  value = secure_boot_sign_tool_value;
}

abbrev pub output_format_value : OutputFormat → Text
output_format_value OutputFormat.confext = lit "confext"
output_format_value OutputFormat.cpio = lit "cpio"
output_format_value OutputFormat.directory = lit "directory"
output_format_value OutputFormat.disk = lit "disk"
output_format_value OutputFormat.esp = lit "esp"
output_format_value OutputFormat.none = lit "none"
output_format_value OutputFormat.portable = lit "portable"
output_format_value OutputFormat.sysext = lit "sysext"
output_format_value OutputFormat.tar = lit "tar"
output_format_value OutputFormat.uki = lit "uki"

abbrev pub output_format_enum : StrEnum OutputFormat
output_format_enum = record {
  members =
      OutputFormat.confext ∷ OutputFormat.cpio ∷ OutputFormat.directory ∷ OutputFormat.disk
      ∷ OutputFormat.esp ∷ OutputFormat.none ∷ OutputFormat.portable ∷ OutputFormat.sysext
      ∷ OutputFormat.tar ∷ OutputFormat.uki ∷ [];
  value = output_format_value;
}

abbrev pub manifest_format_value : ManifestFormat → Text
manifest_format_value ManifestFormat.json = lit "json"
manifest_format_value ManifestFormat.changelog = lit "changelog"

abbrev pub manifest_format_enum : StrEnum ManifestFormat
manifest_format_enum = record {
  members = ManifestFormat.json ∷ ManifestFormat.changelog ∷ [];
  value = manifest_format_value;
}

abbrev pub compression_value : Compression → Text
compression_value Compression.none = lit "none"
compression_value Compression.zstd = lit "zstd"
compression_value Compression.xz = lit "xz"
compression_value Compression.bz2 = lit "bz2"
compression_value Compression.gz = lit "gz"
compression_value Compression.lz4 = lit "lz4"
compression_value Compression.lzma = lit "lzma"

abbrev pub compression_enum : StrEnum Compression
compression_enum = record {
  members =
      Compression.none ∷ Compression.zstd ∷ Compression.xz ∷ Compression.bz2 ∷ Compression.gz
      ∷ Compression.lz4 ∷ Compression.lzma ∷ [];
  value = compression_value;
}

abbrev pub doc_format_value : DocFormat → Text
doc_format_value DocFormat.auto = lit "auto"
doc_format_value DocFormat.markdown = lit "markdown"
doc_format_value DocFormat.man = lit "man"
doc_format_value DocFormat.pandoc = lit "pandoc"
doc_format_value DocFormat.system = lit "system"

abbrev pub doc_format_enum : StrEnum DocFormat
doc_format_enum = record {
  members =
      DocFormat.auto ∷ DocFormat.markdown ∷ DocFormat.man ∷ DocFormat.pandoc ∷ DocFormat.system
      ∷ [];
  value = doc_format_value;
}

abbrev pub bootloader_value : Bootloader → Text
bootloader_value Bootloader.none = lit "none"
bootloader_value Bootloader.uki = lit "uki"
bootloader_value Bootloader.systemd_boot = lit "systemd-boot"
bootloader_value Bootloader.grub = lit "grub"

abbrev pub bootloader_enum : StrEnum Bootloader
bootloader_enum = record {
  members = Bootloader.none ∷ Bootloader.uki ∷ Bootloader.systemd_boot ∷ Bootloader.grub ∷ [];
  value = bootloader_value;
}

abbrev pub bios_bootloader_value : BiosBootloader → Text
bios_bootloader_value BiosBootloader.none = lit "none"
bios_bootloader_value BiosBootloader.grub = lit "grub"

abbrev pub bios_bootloader_enum : StrEnum BiosBootloader
bios_bootloader_enum = record {
  members = BiosBootloader.none ∷ BiosBootloader.grub ∷ [];
  value = bios_bootloader_value;
}

abbrev pub shim_bootloader_value : ShimBootloader → Text
shim_bootloader_value ShimBootloader.none = lit "none"
shim_bootloader_value ShimBootloader.signed = lit "signed"
shim_bootloader_value ShimBootloader.unsigned = lit "unsigned"

abbrev pub shim_bootloader_enum : StrEnum ShimBootloader
shim_bootloader_enum = record {
  members = ShimBootloader.none ∷ ShimBootloader.signed ∷ ShimBootloader.unsigned ∷ [];
  value = shim_bootloader_value;
}

abbrev pub cacheonly_value : Cacheonly → Text
cacheonly_value Cacheonly.always = lit "always"
cacheonly_value Cacheonly.none = lit "none"
cacheonly_value Cacheonly.metadata = lit "metadata"

abbrev pub cacheonly_enum : StrEnum Cacheonly
cacheonly_enum = record {
  members = Cacheonly.always ∷ Cacheonly.none ∷ Cacheonly.metadata ∷ [];
  value = cacheonly_value;
}

abbrev pub qemu_firmware_value : QemuFirmware → Text
qemu_firmware_value QemuFirmware.auto = lit "auto"
qemu_firmware_value QemuFirmware.linux = lit "linux"
qemu_firmware_value QemuFirmware.uefi = lit "uefi"
qemu_firmware_value QemuFirmware.bios = lit "bios"

abbrev pub qemu_firmware_enum : StrEnum QemuFirmware
qemu_firmware_enum = record {
  members = QemuFirmware.auto ∷ QemuFirmware.linux ∷ QemuFirmware.uefi ∷ QemuFirmware.bios ∷ [];
  value = qemu_firmware_value;
}

abbrev pub network_value : Network → Text
network_value Network.interface = lit "interface"
network_value Network.user = lit "user"
network_value Network.none = lit "none"

abbrev pub network_enum : StrEnum Network
network_enum = record {
  members = Network.interface ∷ Network.user ∷ Network.none ∷ [];
  value = network_value;
}

abbrev pub architecture_value : Architecture → Text
architecture_value Architecture.alpha = lit "alpha"
architecture_value Architecture.arc = lit "arc"
architecture_value Architecture.arm = lit "arm"
architecture_value Architecture.arm64 = lit "arm64"
architecture_value Architecture.ia64 = lit "ia64"
architecture_value Architecture.loongarch64 = lit "loongarch64"
architecture_value Architecture.mips_le = lit "mips-le"
architecture_value Architecture.mips64_le = lit "mips64-le"
architecture_value Architecture.parisc = lit "parisc"
architecture_value Architecture.ppc = lit "ppc"
architecture_value Architecture.ppc64 = lit "ppc64"
architecture_value Architecture.ppc64_le = lit "ppc64-le"
architecture_value Architecture.riscv32 = lit "riscv32"
architecture_value Architecture.riscv64 = lit "riscv64"
architecture_value Architecture.s390 = lit "s390"
architecture_value Architecture.s390x = lit "s390x"
architecture_value Architecture.tilegx = lit "tilegx"
architecture_value Architecture.x86 = lit "x86"
architecture_value Architecture.x86_64 = lit "x86-64"

abbrev pub architecture_enum : StrEnum Architecture
architecture_enum = record {
  members =
      Architecture.alpha ∷ Architecture.arc ∷ Architecture.arm ∷ Architecture.arm64
      ∷ Architecture.ia64 ∷ Architecture.loongarch64 ∷ Architecture.mips_le ∷ Architecture.mips64_le
      ∷ Architecture.parisc ∷ Architecture.ppc ∷ Architecture.ppc64 ∷ Architecture.ppc64_le
      ∷ Architecture.riscv32 ∷ Architecture.riscv64 ∷ Architecture.s390 ∷ Architecture.s390x
      ∷ Architecture.tilegx ∷ Architecture.x86 ∷ Architecture.x86_64 ∷ [];
  value = architecture_value;
}

abbrev pub package_type_value : PackageType → Text
package_type_value PackageType.none = lit "none"
package_type_value PackageType.rpm = lit "rpm"
package_type_value PackageType.deb = lit "deb"
package_type_value PackageType.pkg = lit "pkg"
package_type_value PackageType.ebuild = lit "ebuild"

abbrev pub package_type_enum : StrEnum PackageType
package_type_enum = record {
  members =
      PackageType.none ∷ PackageType.rpm ∷ PackageType.deb ∷ PackageType.pkg ∷ PackageType.ebuild
      ∷ [];
  value = package_type_value;
}

abbrev pub distribution_value : Distribution → Text
distribution_value Distribution.fedora = lit "fedora"
distribution_value Distribution.debian = lit "debian"
distribution_value Distribution.ubuntu = lit "ubuntu"
distribution_value Distribution.arch = lit "arch"
distribution_value Distribution.opensuse = lit "opensuse"
distribution_value Distribution.mageia = lit "mageia"
distribution_value Distribution.centos = lit "centos"
distribution_value Distribution.rhel = lit "rhel"
distribution_value Distribution.rhel_ubi = lit "rhel-ubi"
distribution_value Distribution.openmandriva = lit "openmandriva"
distribution_value Distribution.rocky = lit "rocky"
distribution_value Distribution.alma = lit "alma"
distribution_value Distribution.custom = lit "custom"

abbrev pub distribution_enum : StrEnum Distribution
distribution_enum = record {
  members =
      Distribution.fedora ∷ Distribution.debian ∷ Distribution.ubuntu ∷ Distribution.arch
      ∷ Distribution.opensuse ∷ Distribution.mageia ∷ Distribution.centos ∷ Distribution.rhel
      ∷ Distribution.rhel_ubi ∷ Distribution.openmandriva ∷ Distribution.rocky ∷ Distribution.alma
      ∷ Distribution.custom ∷ [];
  value = distribution_value;
}
