-- ===== src/Config/Enums.antt =====
-- The enumerations of mkosi/config.py and mkosi/distributions/__init__.py, with their constants as
-- constructors, and the string of each constant.

pub data Verb : Type 0 where
  build clean summary shell boot qemu ssh serve bump help genkey documentation : Verb
  journalctl coredumpctl burn vmspawn : Verb

pub data ConfigFeature : Type 0 where
  auto enabled disabled : ConfigFeature

pub data SecureBootSignTool : Type 0 where
  auto sbsign pesign : SecureBootSignTool

pub data OutputFormat : Type 0 where
  confext cpio directory disk esp none portable sysext tar uki : OutputFormat

pub data ManifestFormat : Type 0 where
  json changelog : ManifestFormat

pub data Compression : Type 0 where
  none zstd xz bz2 gz lz4 lzma : Compression

pub data DocFormat : Type 0 where
  auto markdown man pandoc system : DocFormat

pub data Bootloader : Type 0 where
  none uki systemd_boot grub : Bootloader

pub data BiosBootloader : Type 0 where
  none grub : BiosBootloader

pub data ShimBootloader : Type 0 where
  none signed unsigned : ShimBootloader

pub data Cacheonly : Type 0 where
  always none metadata : Cacheonly

pub data QemuFirmware : Type 0 where
  auto linux uefi bios : QemuFirmware

pub data Network : Type 0 where
  interface user none : Network

pub data Architecture : Type 0 where
  alpha arc arm arm64 ia64 loongarch64 mips_le mips64_le parisc ppc ppc64 ppc64_le : Architecture
  riscv32 riscv64 s390 s390x tilegx x86 x86_64 : Architecture

pub data PackageType : Type 0 where
  none rpm deb pkg ebuild : PackageType

pub data Distribution : Type 0 where
  fedora debian ubuntu arch opensuse mageia centos rhel rhel_ubi openmandriva rocky : Distribution
  alma custom : Distribution
