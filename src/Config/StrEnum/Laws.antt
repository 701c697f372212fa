-- ===== src/Config/StrEnum/Laws.antt =====
-- The string of a constant is found as that constant.
use mkosi.Base.{◌≡◌, refl, some}
use mkosi.Base.Text.{text_eq}
use mkosi.Config.Enums.{
  Verb, ConfigFeature, SecureBootSignTool, OutputFormat, ManifestFormat, Compression, DocFormat,
  Bootloader, BiosBootloader, ShimBootloader, Cacheonly, QemuFirmware, Network, Architecture,
  PackageType, Distribution,
}
use mkosi.Config.StrEnum.{
  StrEnum, of_value, verb_enum, config_feature_enum, secure_boot_sign_tool_enum, output_format_enum,
  manifest_format_enum, compression_enum, doc_format_enum, bootloader_enum, bios_bootloader_enum,
  shim_bootloader_enum, cacheonly_enum, qemu_firmware_enum, network_enum, architecture_enum,
  package_type_enum, distribution_enum,
}

-- Each constant is found by its string, so no two constants of the type share one.
pub record IsFaithful {T : Type 0} (e : StrEnum T) : Type 0 where
  pub found : (t : T) → of_value e (e.value t) ≡ some t

verb_found : (t : Verb) → of_value verb_enum (verb_enum.value t) ≡ some t
unfolding of_value text_eq
verb_found Verb.build = refl
verb_found _ = refl

pub verb_enum-IsFaithful : IsFaithful verb_enum
verb_enum-IsFaithful = record { found = verb_found }

config_feature_found :
    (t : ConfigFeature) → of_value config_feature_enum (config_feature_enum.value t) ≡ some t
unfolding of_value text_eq
config_feature_found ConfigFeature.auto = refl
config_feature_found _ = refl

pub config_feature_enum-IsFaithful : IsFaithful config_feature_enum
config_feature_enum-IsFaithful = record { found = config_feature_found }

secure_boot_sign_tool_found :
    (t : SecureBootSignTool)
    → of_value secure_boot_sign_tool_enum (secure_boot_sign_tool_enum.value t) ≡ some t
unfolding of_value text_eq
secure_boot_sign_tool_found SecureBootSignTool.auto = refl
secure_boot_sign_tool_found _ = refl

pub secure_boot_sign_tool_enum-IsFaithful : IsFaithful secure_boot_sign_tool_enum
secure_boot_sign_tool_enum-IsFaithful = record { found = secure_boot_sign_tool_found }

output_format_found :
    (t : OutputFormat) → of_value output_format_enum (output_format_enum.value t) ≡ some t
unfolding of_value text_eq
output_format_found OutputFormat.confext = refl
output_format_found _ = refl

pub output_format_enum-IsFaithful : IsFaithful output_format_enum
output_format_enum-IsFaithful = record { found = output_format_found }

manifest_format_found :
    (t : ManifestFormat) → of_value manifest_format_enum (manifest_format_enum.value t) ≡ some t
unfolding of_value text_eq
manifest_format_found ManifestFormat.json = refl
manifest_format_found _ = refl

pub manifest_format_enum-IsFaithful : IsFaithful manifest_format_enum
manifest_format_enum-IsFaithful = record { found = manifest_format_found }

compression_found :
    (t : Compression) → of_value compression_enum (compression_enum.value t) ≡ some t
unfolding of_value text_eq
compression_found Compression.none = refl
compression_found _ = refl

pub compression_enum-IsFaithful : IsFaithful compression_enum
compression_enum-IsFaithful = record { found = compression_found }

doc_format_found : (t : DocFormat) → of_value doc_format_enum (doc_format_enum.value t) ≡ some t
unfolding of_value text_eq
doc_format_found DocFormat.auto = refl
doc_format_found _ = refl

pub doc_format_enum-IsFaithful : IsFaithful doc_format_enum
doc_format_enum-IsFaithful = record { found = doc_format_found }

bootloader_found : (t : Bootloader) → of_value bootloader_enum (bootloader_enum.value t) ≡ some t
unfolding of_value text_eq
bootloader_found Bootloader.none = refl
bootloader_found _ = refl

pub bootloader_enum-IsFaithful : IsFaithful bootloader_enum
bootloader_enum-IsFaithful = record { found = bootloader_found }

bios_bootloader_found :
    (t : BiosBootloader) → of_value bios_bootloader_enum (bios_bootloader_enum.value t) ≡ some t
unfolding of_value text_eq
bios_bootloader_found BiosBootloader.none = refl
bios_bootloader_found _ = refl

pub bios_bootloader_enum-IsFaithful : IsFaithful bios_bootloader_enum
bios_bootloader_enum-IsFaithful = record { found = bios_bootloader_found }

shim_bootloader_found :
    (t : ShimBootloader) → of_value shim_bootloader_enum (shim_bootloader_enum.value t) ≡ some t
unfolding of_value text_eq
shim_bootloader_found ShimBootloader.none = refl
shim_bootloader_found _ = refl

pub shim_bootloader_enum-IsFaithful : IsFaithful shim_bootloader_enum
shim_bootloader_enum-IsFaithful = record { found = shim_bootloader_found }

cacheonly_found : (t : Cacheonly) → of_value cacheonly_enum (cacheonly_enum.value t) ≡ some t
unfolding of_value text_eq
cacheonly_found Cacheonly.always = refl
cacheonly_found _ = refl

pub cacheonly_enum-IsFaithful : IsFaithful cacheonly_enum
cacheonly_enum-IsFaithful = record { found = cacheonly_found }

qemu_firmware_found :
    (t : QemuFirmware) → of_value qemu_firmware_enum (qemu_firmware_enum.value t) ≡ some t
unfolding of_value text_eq
qemu_firmware_found QemuFirmware.auto = refl
qemu_firmware_found _ = refl

pub qemu_firmware_enum-IsFaithful : IsFaithful qemu_firmware_enum
qemu_firmware_enum-IsFaithful = record { found = qemu_firmware_found }

network_found : (t : Network) → of_value network_enum (network_enum.value t) ≡ some t
unfolding of_value text_eq
network_found Network.interface = refl
network_found _ = refl

pub network_enum-IsFaithful : IsFaithful network_enum
network_enum-IsFaithful = record { found = network_found }

architecture_found :
    (t : Architecture) → of_value architecture_enum (architecture_enum.value t) ≡ some t
unfolding of_value text_eq
architecture_found Architecture.alpha = refl
architecture_found _ = refl

pub architecture_enum-IsFaithful : IsFaithful architecture_enum
architecture_enum-IsFaithful = record { found = architecture_found }

package_type_found :
    (t : PackageType) → of_value package_type_enum (package_type_enum.value t) ≡ some t
unfolding of_value text_eq
package_type_found PackageType.none = refl
package_type_found _ = refl

pub package_type_enum-IsFaithful : IsFaithful package_type_enum
package_type_enum-IsFaithful = record { found = package_type_found }

distribution_found :
    (t : Distribution) → of_value distribution_enum (distribution_enum.value t) ≡ some t
unfolding of_value text_eq
distribution_found Distribution.fedora = refl
distribution_found _ = refl

pub distribution_enum-IsFaithful : IsFaithful distribution_enum
distribution_enum-IsFaithful = record { found = distribution_found }
