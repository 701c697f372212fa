-- ===== src/Config/Architecture.antt =====
-- What the source knows of architectures: the methods of `Architecture` in mkosi/config.py.
use mkosi.Base.{Bool, true, false, ◌&&◌, ◌||◌, Option, none, some, [], ◌∷◌, if◌then◌else◌}
use mkosi.Base.Text.{Text, lit, text_eq}
use mkosi.Base.Dict.{Dict, lookup}
use mkosi.Base.Result.{Result, ok, failed, die}
use mkosi.Config.Enums.{Architecture, QemuFirmware}

abbrev found_or_die {ℓ} : {A : Type ℓ} → Option A → Result A
found_or_die none = failed (die (lit "is not supported"))
found_or_die (some a) = ok a

abbrev unames : Dict Architecture
unames =
    (lit "aarch64", Architecture.arm64)
    ∷ (lit "aarch64_be", Architecture.arm64)
    ∷ (lit "armv8l", Architecture.arm)
    ∷ (lit "armv8b", Architecture.arm)
    ∷ (lit "armv7ml", Architecture.arm)
    ∷ (lit "armv7mb", Architecture.arm)
    ∷ (lit "armv7l", Architecture.arm)
    ∷ (lit "armv7b", Architecture.arm)
    ∷ (lit "armv6l", Architecture.arm)
    ∷ (lit "armv6b", Architecture.arm)
    ∷ (lit "armv5tl", Architecture.arm)
    ∷ (lit "armv5tel", Architecture.arm)
    ∷ (lit "armv5tejl", Architecture.arm)
    ∷ (lit "armv5tejb", Architecture.arm)
    ∷ (lit "armv5teb", Architecture.arm)
    ∷ (lit "armv5tb", Architecture.arm)
    ∷ (lit "armv4tl", Architecture.arm)
    ∷ (lit "armv4tb", Architecture.arm)
    ∷ (lit "armv4l", Architecture.arm)
    ∷ (lit "armv4b", Architecture.arm)
    ∷ (lit "alpha", Architecture.alpha)
    ∷ (lit "arc", Architecture.arc)
    ∷ (lit "arceb", Architecture.arc)
    ∷ (lit "x86_64", Architecture.x86_64)
    ∷ (lit "i686", Architecture.x86)
    ∷ (lit "i586", Architecture.x86)
    ∷ (lit "i486", Architecture.x86)
    ∷ (lit "i386", Architecture.x86)
    ∷ (lit "ia64", Architecture.ia64)
    ∷ (lit "parisc64", Architecture.parisc)
    ∷ (lit "parisc", Architecture.parisc)
    ∷ (lit "loongarch64", Architecture.loongarch64)
    ∷ (lit "mips64", Architecture.mips64_le)
    ∷ (lit "mips", Architecture.mips_le)
    ∷ (lit "ppc64le", Architecture.ppc64_le)
    ∷ (lit "ppc64", Architecture.ppc64)
    ∷ (lit "ppc", Architecture.ppc)
    ∷ (lit "riscv64", Architecture.riscv64)
    ∷ (lit "riscv32", Architecture.riscv32)
    ∷ (lit "riscv", Architecture.riscv64)
    ∷ (lit "s390x", Architecture.s390x)
    ∷ (lit "s390", Architecture.s390)
    ∷ (lit "tilegx", Architecture.tilegx)
    ∷ []

-- `Architecture.from_uname`
unfoldable pub from_uname : Text → Result Architecture
unfolding lookup text_eq
from_uname s = found_or_die (lookup s unames)

unfoldable pub to_efi : Architecture → Option Text
to_efi Architecture.x86_64 = some (lit "x64")
to_efi Architecture.x86 = some (lit "ia32")
to_efi Architecture.arm64 = some (lit "aa64")
to_efi Architecture.arm = some (lit "arm")
to_efi Architecture.riscv64 = some (lit "riscv64")
to_efi Architecture.loongarch64 = some (lit "loongarch64")
to_efi _ = none

unfoldable pub to_qemu : Architecture → Result Text
to_qemu Architecture.alpha = ok (lit "alpha")
to_qemu Architecture.arm = ok (lit "arm")
to_qemu Architecture.arm64 = ok (lit "aarch64")
to_qemu Architecture.loongarch64 = ok (lit "loongarch64")
to_qemu Architecture.mips64_le = ok (lit "mips")
to_qemu Architecture.mips_le = ok (lit "mips")
to_qemu Architecture.parisc = ok (lit "hppa")
to_qemu Architecture.ppc = ok (lit "ppc")
to_qemu Architecture.ppc64 = ok (lit "ppc64")
to_qemu Architecture.ppc64_le = ok (lit "ppc64")
to_qemu Architecture.riscv32 = ok (lit "riscv32")
to_qemu Architecture.riscv64 = ok (lit "riscv64")
to_qemu Architecture.s390x = ok (lit "s390x")
to_qemu Architecture.x86 = ok (lit "i386")
to_qemu Architecture.x86_64 = ok (lit "x86_64")
to_qemu _ = failed (die (lit "is not supported by qemu"))

unfoldable pub default_qemu_machine : Architecture → Result Text
default_qemu_machine Architecture.x86 = ok (lit "q35")
default_qemu_machine Architecture.x86_64 = ok (lit "q35")
default_qemu_machine Architecture.arm = ok (lit "virt")
default_qemu_machine Architecture.arm64 = ok (lit "virt")
default_qemu_machine Architecture.s390 = ok (lit "s390-ccw-virtio")
default_qemu_machine Architecture.s390x = ok (lit "s390-ccw-virtio")
default_qemu_machine Architecture.ppc = ok (lit "pseries")
default_qemu_machine Architecture.ppc64 = ok (lit "pseries")
default_qemu_machine Architecture.ppc64_le = ok (lit "pseries")
default_qemu_machine _ = failed (die (lit "is not supported by qemu"))

unfoldable pub default_serial_tty : Architecture → Text
default_serial_tty Architecture.arm = lit "ttyAMA0"
default_serial_tty Architecture.arm64 = lit "ttyAMA0"
default_serial_tty Architecture.s390 = lit "ttysclp0"
default_serial_tty Architecture.s390x = lit "ttysclp0"
default_serial_tty Architecture.ppc = lit "hvc0"
default_serial_tty Architecture.ppc64 = lit "hvc0"
default_serial_tty Architecture.ppc64_le = lit "hvc0"
default_serial_tty _ = lit "ttyS0"

unfoldable pub default_qemu_nic_model : Architecture → Text
default_qemu_nic_model Architecture.s390 = lit "virtio"
default_qemu_nic_model Architecture.s390x = lit "virtio"
default_qemu_nic_model _ = lit "virtio-net-pci"

unfoldable pub is_x86_variant : Architecture → Bool
is_x86_variant Architecture.x86 = true
is_x86_variant Architecture.x86_64 = true
is_x86_variant _ = false

unfoldable pub is_arm_variant : Architecture → Bool
is_arm_variant Architecture.arm = true
is_arm_variant Architecture.arm64 = true
is_arm_variant _ = false

abbrev is_uefi : QemuFirmware → Bool
is_uefi QemuFirmware.uefi = true
is_uefi _ = false

unfoldable pub supports_smbios : Architecture → QemuFirmware → Bool
unfolding is_x86_variant is_arm_variant
supports_smbios a firmware = if is_x86_variant a then true else is_arm_variant a && is_uefi firmware

unfoldable pub supports_fw_cfg : Architecture → Bool
unfolding is_x86_variant is_arm_variant
supports_fw_cfg a = is_x86_variant a || is_arm_variant a

unfoldable pub supports_smm : Architecture → Bool
unfolding is_x86_variant
supports_smm a = is_x86_variant a
