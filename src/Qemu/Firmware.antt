-- ===== src/Qemu/Firmware.antt =====
-- The firmware of virtual machines: `find_ovmf_firmware` and `find_ovmf_vars` of mkosi/qemu.py. `exists`
-- says whether a path is there below the tools tree.
use mkosi.Base.{
  ◌≡◌, refl, sym, inl, inr, Bool, true, false, Option, none, some, List, [], ◌∷◌, ◌++◌, any,
  if◌then◌else◌, Bool-cases, Option-cases,
}
use mkosi.Base.Text.{Text, lit}
use mkosi.Base.Result.{Result, ok, failed, die}
use mkosi.Config.Enums.{Architecture}

unfoldable pub secure_firmware : Architecture → List Text
secure_firmware Architecture.x86_64 =
    lit "usr/share/ovmf/x64/OVMF_CODE.secboot.fd"
    ∷ lit "usr/share/qemu/ovmf-x86_64.smm.bin"
    ∷ lit "usr/share/edk2/x64/OVMF_CODE.secboot.4m.fd"
    ∷ lit "usr/share/edk2/x64/OVMF_CODE.secboot.fd"
    ∷ []
secure_firmware Architecture.x86 =
    lit "usr/share/edk2/ovmf-ia32/OVMF_CODE.secboot.fd"
    ∷ lit "usr/share/OVMF/OVMF32_CODE_4M.secboot.fd"
    ∷ lit "usr/share/edk2/ia32/OVMF_CODE.secboot.4m.fd"
    ∷ lit "usr/share/edk2/ia32/OVMF_CODE.secboot.fd"
    ∷ []
secure_firmware _ = []

unfoldable pub plain_firmware : Architecture → List Text
plain_firmware Architecture.x86_64 =
    lit "usr/share/ovmf/ovmf_code_x64.bin"
    ∷ lit "usr/share/ovmf/x64/OVMF_CODE.fd"
    ∷ lit "usr/share/qemu/ovmf-x86_64.bin"
    ∷ lit "usr/share/edk2/x64/OVMF_CODE.4m.fd"
    ∷ lit "usr/share/edk2/x64/OVMF_CODE.fd"
    ∷ []
plain_firmware Architecture.x86 =
    lit "usr/share/ovmf/ovmf_code_ia32.bin"
    ∷ lit "usr/share/edk2/ovmf-ia32/OVMF_CODE.fd"
    ∷ lit "usr/share/edk2/ia32/OVMF_CODE.4m.fd"
    ∷ lit "usr/share/edk2/ia32/OVMF_CODE.fd"
    ∷ []
plain_firmware Architecture.arm64 = lit "usr/share/AAVMF/AAVMF_CODE.fd" ∷ []
plain_firmware Architecture.arm = lit "usr/share/AAVMF/AAVMF32_CODE.fd" ∷ []
plain_firmware _ = []

abbrev pub generic_secure_firmware : List Text
generic_secure_firmware =
    lit "usr/share/edk2/ovmf/OVMF_CODE.secboot.fd"
    ∷ lit "usr/share/edk2-ovmf/OVMF_CODE.secboot.fd"
    ∷ lit "usr/share/qemu/OVMF_CODE.secboot.fd"
    ∷ lit "usr/share/ovmf/OVMF.secboot.fd"
    ∷ lit "usr/share/OVMF/OVMF_CODE_4M.secboot.fd"
    ∷ lit "usr/share/OVMF/OVMF_CODE.secboot.fd"
    ∷ []

abbrev pub generic_firmware : List Text
generic_firmware =
    lit "usr/share/edk2/ovmf/OVMF_CODE.fd"
    ∷ lit "usr/share/edk2-ovmf/OVMF_CODE.fd"
    ∷ lit "usr/share/qemu/OVMF_CODE.fd"
    ∷ lit "usr/share/ovmf/OVMF.fd"
    ∷ lit "usr/share/OVMF/OVMF_CODE_4M.fd"
    ∷ lit "usr/share/OVMF/OVMF_CODE.fd"
    ∷ []

unfoldable pub arch_vars : Architecture → List Text
arch_vars Architecture.x86_64 =
    lit "usr/share/ovmf/x64/OVMF_VARS.fd"
    ∷ lit "usr/share/qemu/ovmf-x86_64-vars.bin"
    ∷ lit "usr/share/edk2/x64/OVMF_VARS.4m.fd"
    ∷ lit "usr/share/edk2/x64/OVMF_VARS.fd"
    ∷ []
arch_vars Architecture.x86 =
    lit "usr/share/edk2/ovmf-ia32/OVMF_VARS.fd"
    ∷ lit "usr/share/OVMF/OVMF32_VARS_4M.fd"
    ∷ lit "usr/share/edk2/ia32/OVMF_VARS.4m.fd"
    ∷ lit "usr/share/edk2/ia32/OVMF_VARS.fd"
    ∷ []
arch_vars Architecture.arm = lit "usr/share/AAVMF/AAVMF32_VARS.fd" ∷ []
arch_vars Architecture.arm64 = lit "usr/share/AAVMF/AAVMF_VARS.fd" ∷ []
arch_vars _ = []

abbrev pub generic_vars : List Text
generic_vars =
    lit "usr/share/edk2/ovmf/OVMF_VARS.fd"
    ∷ lit "usr/share/edk2-ovmf/OVMF_VARS.fd"
    ∷ lit "usr/share/qemu/OVMF_VARS.fd"
    ∷ lit "usr/share/ovmf/OVMF_VARS.fd"
    ∷ lit "usr/share/OVMF/OVMF_VARS_4M.fd"
    ∷ lit "usr/share/OVMF/OVMF_VARS.fd"
    ∷ []

-- The first of the locations that is there.
unfoldable pub first_existing : (Text → Bool) → List Text → Option Text
first_existing exists [] = none
first_existing exists (l ∷ ls) = if exists l then some l else first_existing exists ls

abbrev or_next : Bool → Option Text → Result (Text × Bool) → Result (Text × Bool)
or_next secure none rest = rest
or_next secure (some l) rest = ok (b'/' ∷ l, secure)

-- The firmware, and whether it supports secure boot.
unfoldable pub find_ovmf_firmware : (Text → Bool) → Architecture → Result (Text × Bool)
unfolding first_existing secure_firmware plain_firmware
find_ovmf_firmware exists a = or_next true (first_existing exists (secure_firmware a)) (
    or_next false (first_existing exists (plain_firmware a)) (
      or_next true (first_existing exists generic_secure_firmware) (
        or_next false (first_existing exists generic_firmware)
          (failed (die (lit "Couldn't find OVMF UEFI firmware blob."))))))

abbrev vars_or_die : Option Text → Result Text
vars_or_die none = failed (die (lit "Couldn't find OVMF UEFI variables file."))
vars_or_die (some l) = ok l

-- Below the tools tree.
unfoldable pub find_ovmf_vars : (Text → Bool) → Architecture → Result Text
unfolding first_existing arch_vars
find_ovmf_vars exists a = vars_or_die (first_existing exists (arch_vars a ++ generic_vars))

first_existing-exists :
    (exists : Text → Bool) (ls : List Text) (l : Text)
    → first_existing exists ls ≡ some l
    → exists l ≡ true
unfolding first_existing
first_existing-exists exists [] l h = cc h
first_existing-exists exists (k ∷ ls) l h = elim (Bool-cases (exists k)) [
  | inl e ↦ rw (sym (value (rw e at h))) e
  | inr e ↦ first_existing-exists exists ls l (rw e at h)
]
  where
    value : {B : Type 0} {x y : B} → some x ≡ some y → x ≡ y
    value p = cc p

first_existing-none :
    (exists : Text → Bool) (ls : List Text)
    → first_existing exists ls ≡ none
    → any exists ls ≡ false
unfolding first_existing
first_existing-none exists [] h = refl
first_existing-none exists (k ∷ ls) h = elim (Bool-cases (exists k)) [
  | inl e ↦ cc (rw e at h)
  | inr e ↦ rw e (first_existing-none exists ls (rw e at h))
]

-- The firmware is there, and it is one without secure boot only if the architecture has none with it
-- that is there.
abbrev pub IsChosen : (Text → Bool) → Architecture → Text × Bool → Type 0
IsChosen exists a f =
    (l : Text) × (f.0 ≡ b'/' ∷ l)
    × (exists l ≡ true)
    × (f.1 ≡ false → any exists (secure_firmware a) ≡ false)

or_next-IsChosen :
    (exists : Text → Bool) (a : Architecture) (secure : Bool) (ls : List Text)
    (rest : Result (Text × Bool)) (f : Text × Bool)
    → (secure ≡ false → any exists (secure_firmware a) ≡ false)
    → (any exists ls ≡ false → rest ≡ ok f → IsChosen exists a f)
    → or_next secure (first_existing exists ls) rest ≡ ok f
    → IsChosen exists a f
or_next-IsChosen exists a secure ls rest f n k h = elim (Option-cases (first_existing exists ls)) [
  | inl e ↦ k (first_existing-none exists ls e) (rw e at h)
  | inr (l, e) ↦
      let q = value (rw e at h) in rw (sym q) (l, refl, first_existing-exists exists ls l e, n)
]
  where
    value : {B : Type 0} {x y : B} → ok x ≡ ok y → x ≡ y
    value p = cc p

-- The firmware that is found is there, and it is one without secure boot only if no firmware with
-- secure boot of the architecture is there.
pub find_ovmf_firmware-IsChosen :
    (exists : Text → Bool) (a : Architecture) (f : Text × Bool)
    → find_ovmf_firmware exists a ≡ ok f
    → IsChosen exists a f
unfolding find_ovmf_firmware
find_ovmf_firmware-IsChosen exists a f h =
    or_next-IsChosen exists a true (secure_firmware a) _ f (λ q. cc q)
      (λ s.
        or_next-IsChosen exists a false (plain_firmware a) _ f (λ q. s)
          (λ _.
            or_next-IsChosen exists a true generic_secure_firmware _ f (λ q. cc q)
              (λ _. or_next-IsChosen exists a false generic_firmware _ f (λ q. s) (λ _ q. cc q))))
      h
