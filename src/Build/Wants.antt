-- ===== src/Build/Wants.antt =====
-- Which boot loaders, initrds and signatures a build makes.
pub mod Dies
use mkosi.Base.{
  ◌≡◌, refl, Bool, true, false, not, ◌&&◌, ◌||◌, Option, none, some, List, [], ◌∷◌, any,
  if◌then◌else◌,
}
use mkosi.Base.Text.{Text, lit, text_eq, starts_with}
use mkosi.Base.Result.{Result, ok, failed, die, ◌>>=◌}
use mkosi.Config.Enums.{ConfigFeature, OutputFormat, Bootloader, BiosBootloader}
use mkosi.Config.Value.Boolean.{feature_eq}
use mkosi.Config.Architecture.{to_efi}
use mkosi.Config.Output.{is_extension_image}
use mkosi.Build.{Config, System}

abbrev pub is_auto : ConfigFeature → Bool
is_auto f = feature_eq f ConfigFeature.auto

abbrev pub is_enabled : ConfigFeature → Bool
is_enabled f = feature_eq f ConfigFeature.enabled

abbrev pub is_disabled : ConfigFeature → Bool
is_disabled f = feature_eq f ConfigFeature.disabled

abbrev pub is_uki_or_esp : OutputFormat → Bool
is_uki_or_esp OutputFormat.uki = true
is_uki_or_esp OutputFormat.esp = true
is_uki_or_esp _ = false

abbrev pub is_disk : OutputFormat → Bool
is_disk OutputFormat.disk = true
is_disk _ = false

abbrev pub is_cpio : OutputFormat → Bool
is_cpio OutputFormat.cpio = true
is_cpio _ = false

abbrev is_disk_or_directory : OutputFormat → Bool
is_disk_or_directory OutputFormat.disk = true
is_disk_or_directory OutputFormat.directory = true
is_disk_or_directory _ = false

abbrev pub no_bootloader : Bootloader → Bool
no_bootloader Bootloader.none = true
no_bootloader _ = false

abbrev pub is_grub : Bootloader → Bool
is_grub Bootloader.grub = true
is_grub _ = false

abbrev pub is_bios_grub : BiosBootloader → Bool
is_bios_grub BiosBootloader.grub = true
is_bios_grub _ = false

abbrev pub is_none : Option Text → Bool
is_none none = true
is_none (some s) = false

-- `die` if the image is to be bootable in any case, and `False` otherwise.
abbrev pub unless_enabled : Config → Text → Result Bool
unless_enabled c message = if is_enabled c.bootable then failed (die message) else ok false

unfoldable pub want_efi : Config → Result Bool
unfolding to_efi is_extension_image feature_eq
want_efi c =
    let f = c.names.output_format in
    if is_uki_or_esp f
    then ok true
    else if is_disabled c.bootable
    then ok false
    else if no_bootloader c.bootloader
    then ok false
    else if (is_cpio f || is_extension_image f || c.overlay) && is_auto c.bootable
    then ok false
    else if is_none (to_efi c.architecture)
    then unless_enabled c (lit "Cannot make image bootable on UEFI")
    else ok true

-- `installed` is `any((context.root / "efi").rglob("grub*.efi"))`.
unfoldable pub want_grub_efi : (installed : Bool) → Config → Result Bool
unfolding is_extension_image feature_eq
want_grub_efi installed c =
    if is_disabled c.bootable
    then ok false
    else if not (is_grub c.bootloader)
    then ok false
    else if c.overlay || is_extension_image c.names.output_format
    then ok false
    else if not installed
    then unless_enabled c (lit "grub for EFI is not installed in /efi")
    else ok true

-- The types of the partitions; `have` is `find_grub_bios_directory(context) is not None`, and `grub`
-- is `find_grub_binary` for a name.
abbrev pub is_root : Text → Bool
is_root t = starts_with t (lit "root") || starts_with t (lit "usr")

abbrev pub grub_boot_partition_uuid : Text
grub_boot_partition_uuid = lit "21686148-6449-6e6f-744e-656564454649"

abbrev pub no_partitions : List Text → Bool
no_partitions [] = true
no_partitions (t ∷ ts) = false

-- A requirement on partitions, where there are any.
abbrev pub require : Config → List Text → Bool → Text → Result Bool → Result Bool
require c ts met message rest =
    if not (no_partitions ts) && not met && is_enabled c.bootable
    then failed (die message)
    else rest

unfoldable pub have_binaries : (Text → Bool) → Config → List Text → Result Bool
unfolding feature_eq
have_binaries grub c [] = ok true
have_binaries grub c (b ∷ binaries) =
    let rest = have_binaries grub c binaries in
    if grub b
    then rest
    else if is_enabled c.bootable
    then failed (die (lit "was not found"))
    else (rest >>= λ _. ok false)

unfoldable pub want_grub_bios :
    (have : Bool) (grub : Text → Bool) → Config → List Text → Result Bool
unfolding feature_eq have_binaries starts_with text_eq
want_grub_bios have grub c partitions =
    let bios = any (λ t. text_eq t grub_boot_partition_uuid) partitions in
    let esp = any (λ t. text_eq t (lit "esp")) partitions in
    let root = any is_root partitions in
    if is_disabled c.bootable
    then ok false
    else if not (is_disk c.names.output_format)
    then ok false
    else if not (is_bios_grub c.bios_bootloader)
    then ok false
    else if c.overlay
    then ok false
    else if not have && is_enabled c.bootable
    then failed (die (lit "grub for BIOS is not installed"))
    else require c partitions bios (lit "no BIOS Boot Partition was configured") (
        require c partitions esp (lit "no ESP partition was configured") (
          require c partitions root (lit "no root or usr partition was configured") (
            have_binaries grub c (lit "mkimage" ∷ lit "bios-setup" ∷ []) >>= λ installed.
            ok (
              if no_partitions partitions
              then have
              else have && bios && esp && root && installed))))

-- `kernels` is `any(gen_kernel_images(context))`.
unfoldable pub want_initrd : (kernels : Bool) → Config → Bool
unfolding feature_eq
want_initrd kernels c =
    if is_disabled c.bootable
    then false
    else if not (is_disk_or_directory c.names.output_format)
    then false
    else kernels

unfoldable pub want_signed_pcrs : System → Config → Bool
unfolding feature_eq
want_signed_pcrs system c =
    is_enabled c.sign_expected_pcr
    || (is_auto c.sign_expected_pcr
        && not (
            is_none (
              system.find_binary
                (lit "systemd-measure" ∷ lit "/usr/lib/systemd/systemd-measure" ∷ []))))

-- `bool(config.build_scripts and (config.build_packages or config.prepare_scripts))`
abbrev pub is_given : {A : Type 0} → List A → Bool
is_given [] = false
is_given (x ∷ xs) = true

unfoldable pub need_build_overlay : Config → Bool
need_build_overlay c =
    is_given c.build_scripts && (is_given c.build_packages || is_given c.prepare_scripts)
