-- ===== src/Build/Wants/Dies.antt =====
-- When the choice of the boot loaders fails.
use mkosi.Base.{
  ◌≡◌, refl, inl, inr, Bool, true, false, not, ◌&&◌, ◌||◌, List, [], ◌∷◌, any, if◌then◌else◌,
  Bool-cases,
}
use mkosi.Base.Text.{Text, lit, text_eq}
use mkosi.Base.Result.{Result, ok, failed, die, ◌>>=◌}
use mkosi.Config.Architecture.{to_efi}
use mkosi.Config.Output.{is_extension_image}
use mkosi.Build.{Config}
use mkosi.Build.Wants.{
  is_enabled, is_auto, is_cpio, is_disk, is_none, is_grub, is_bios_grub, is_root, no_bootloader,
  grub_boot_partition_uuid, is_disabled, is_uki_or_esp, unless_enabled, require, have_binaries,
  want_efi, want_grub_efi, want_grub_bios, no_partitions,
}

-- The choice returns.
abbrev pub Decides : Result Bool → Type 0
Decides r = (b : Bool) × (r ≡ ok b)

if-Decides : (b : Bool) (r q : Result Bool) → Decides r → Decides q → Decides (if b then r else q)
if-Decides true r q h k = h
if-Decides false r q h k = k

module _ (c : Config) (n : is_enabled c.bootable ≡ false) where
  unless-Decides : (m : Text) → Decides (unless_enabled c m)
  unless-Decides m = rw n (false, refl)

  require-Decides :
      (ts : List Text) (met : Bool) (m : Text) (r : Result Bool)
      → Decides r
      → Decides (require c ts met m r)
  require-Decides ts met m r h = elim (Bool-cases (not (no_partitions ts) && not met)) [
    | inl e ↦ rw (e, n) h
    | inr e ↦ rw e h
  ]

  have_binaries-Decides : (grub : Text → Bool) (bs : List Text) → Decides (have_binaries grub c bs)
  unfolding have_binaries
  have_binaries-Decides grub [] = (true, refl)
  have_binaries-Decides grub (b ∷ bs) =
      let (r, e) = have_binaries-Decides grub bs in
      if-Decides (grub b) _ _ (r, e) (rw (n, e) (false, refl))

  efi-Decides : Decides (want_efi c)
  unfolding want_efi
  efi-Decides =
      let f = c.names.output_format in
      if-Decides (is_uki_or_esp f) _ _ (true, refl)
        (if-Decides (is_disabled c.bootable) _ _ (false, refl)
          (if-Decides (no_bootloader c.bootloader) _ _ (false, refl)
            (if-Decides ((is_cpio f || is_extension_image f || c.overlay) && is_auto c.bootable) _ _
              (false, refl)
              (if-Decides (is_none (to_efi c.architecture)) _ _
                (unless-Decides (lit "Cannot make image bootable on UEFI")) (true, refl)))))

  grub_efi-Decides : (installed : Bool) → Decides (want_grub_efi installed c)
  unfolding want_grub_efi
  grub_efi-Decides installed =
      if-Decides (is_disabled c.bootable) _ _ (false, refl)
        (if-Decides (not (is_grub c.bootloader)) _ _ (false, refl)
          (if-Decides (c.overlay || is_extension_image c.names.output_format) _ _ (false, refl)
            (if-Decides (not installed) _ _
              (unless-Decides (lit "grub for EFI is not installed in /efi")) (true, refl))))

  missing-Decides :
      (have : Bool) (m : Text) (r : Result Bool)
      → Decides r
      → Decides (if not have && is_enabled c.bootable then failed (die m) else r)
  missing-Decides true m r h = h
  missing-Decides false m r h = rw n h

  bound-Decides : (r : Result Bool) (f : Bool → Bool) → Decides r → Decides (r >>= λ b. ok (f b))
  bound-Decides r f (b, e) = rw e (f b, refl)

  grub_bios-Decides :
      (have : Bool) (grub : Text → Bool) (partitions : List Text)
      → Decides (want_grub_bios have grub c partitions)
  unfolding want_grub_bios
  grub_bios-Decides have grub partitions =
      let binaries = lit "mkimage" ∷ lit "bios-setup" ∷ [] in
      let bios = any (λ t. text_eq t grub_boot_partition_uuid) partitions in
      let esp = any (λ t. text_eq t (lit "esp")) partitions in
      let root = any is_root partitions in
      if-Decides (is_disabled c.bootable) _ _ (false, refl)
        (if-Decides (not (is_disk c.names.output_format)) _ _ (false, refl)
          (if-Decides (not (is_bios_grub c.bios_bootloader)) _ _ (false, refl)
            (if-Decides c.overlay _ _ (false, refl)
              (missing-Decides have (lit "grub for BIOS is not installed") _ (
                require-Decides partitions bios (lit "no BIOS Boot Partition was configured") _ (
                  require-Decides partitions esp (lit "no ESP partition was configured") _ (
                    require-Decides partitions root (lit "no root or usr partition was configured")
                      _
                      (bound-Decides (have_binaries grub c binaries)
                        (λ installed.
                          if no_partitions partitions
                          then have
                          else have && bios && esp && root && installed)
                        (have_binaries-Decides grub binaries)))))))))

  -- If Bootable= is not enabled, the choice of the boot loaders, for EFI and for BIOS, never fails:
  -- whatever is missing only means that the image has no such boot loader.
  pub wants-Decides :
      (installed have : Bool) (grub : Text → Bool) (partitions : List Text)
      → Decides (want_efi c)
        × Decides (want_grub_efi installed c)
        × Decides (want_grub_bios have grub c partitions)
  wants-Decides installed have grub partitions =
      (efi-Decides, grub_efi-Decides installed, grub_bios-Decides have grub partitions)
