-- ===== src/Qemu.antt =====
-- mkosi/qemu.py: VSock connection IDs and what a virtual machine is started with.
pub mod Firmware
use mkosi.Base.{
  ℕ, zero, suc, ◌+◌, ◌-◌, ◌*◌, ◌/◌, ◌%◌, ◌^◌, ◌≤◌, ◌<◌, ◌≡◌, refl, sym, inl, inr, ◌⊎◌, Bool, true,
  false, not, ◌&&◌, ◌||◌, Option, none, some, List, [], ◌∷◌, ◌++◌, map, ltb, if◌then◌else◌, arith,
  Bool-cases, Option-cases,
}
use mkosi.Base.Text.{Text, lit}
use mkosi.Base.Result.{Result, ok, failed, die, ◌>>=◌}
use mkosi.Config.Enums.{ConfigFeature, OutputFormat, QemuFirmware, Architecture, Distribution}
use mkosi.Config.Value.Boolean.{feature_eq}
use mkosi.Config.Architecture.{to_efi, to_qemu}
use mkosi.Distributions.{installer}

-- `int.from_bytes(bytes, byteorder='little')`, and `i.to_bytes(length, byteorder='little')`
unfoldable pub from_bytes : List ℕ → ℕ
from_bytes [] = 0
from_bytes (b ∷ bs) = b + 256 * from_bytes bs

unfoldable pub to_bytes : ℕ → ℕ → List ℕ
to_bytes zero i = []
to_bytes (suc n) i = i % 256 ∷ to_bytes n (i / 256)

abbrev take : ℕ → List ℕ → List ℕ
take zero bs = []
take (suc n) [] = []
take (suc n) (b ∷ bs) = b ∷ take n bs

abbrev smaller : ℕ → ℕ → ℕ
smaller a b = if ltb b a then b else a

abbrev larger : ℕ → ℕ → ℕ
larger a b = if ltb a b then b else a

-- `hash_to_vsock_cid` of a hash with the digest
unfoldable pub hash_to_vsock_cid : List ℕ → ℕ
unfolding from_bytes
hash_to_vsock_cid digest = larger 3 (smaller (from_bytes (take 4 digest)) (0xFFFFFFFF - 1))

-- `hashlib` as the digest of a hash and its update, `vsock_cid_in_use`, and the numbers that
-- `random.randint(0, 0xFFFFFFFF - 1)` returns.
module _ {Hash : Type 0} (digest : Hash → List ℕ) (update : Hash → List ℕ → Hash)
    (in_use : ℕ → Bool) where
  unfoldable pub find_hashed : (left i : ℕ) → Hash → Option ℕ
  unfolding hash_to_vsock_cid to_bytes
  find_hashed zero i hash = none
  find_hashed (suc left) i hash =
      let cid = hash_to_vsock_cid (digest hash) in
      let rest = find_hashed left (i + 1) (update hash (to_bytes 4 i)) in
      if in_use cid then rest else some cid

  unfoldable pub find_random : (left i : ℕ) → (ℕ → ℕ) → Option ℕ
  find_random zero i random = none
  find_random (suc left) i random =
      let rest = find_random left (i + 1) random in
      if in_use (random i) then rest else some (random i)

  abbrev or_cid : Option ℕ → Result ℕ → Result ℕ
  or_cid none rest = rest
  or_cid (some cid) rest = ok cid

  unfoldable pub find_unused_vsock_cid : Hash → (ℕ → ℕ) → Result ℕ
  unfolding find_hashed find_random
  find_unused_vsock_cid hash random = or_cid (find_hashed 64 0 hash) (
      or_cid (find_random 64 0 random)
        (failed (die (lit "Failed to find an unused VSock connection ID"))))

  hash_bounds : (bs : List ℕ) → (3 ≤ hash_to_vsock_cid bs) × (hash_to_vsock_cid bs < 0xFFFFFFFF)
  unfolding hash_to_vsock_cid
  hash_bounds bs = (ground arith, ground arith)

  find_hashed_bounds :
      (left i : ℕ) (hash : Hash) (cid : ℕ)
      → find_hashed left i hash ≡ some cid
      → (in_use cid ≡ false) × (3 ≤ cid) × (cid < 0xFFFFFFFF)
  unfolding find_hashed
  find_hashed_bounds zero i hash cid h = cc h
  find_hashed_bounds (suc left) i hash cid h =
      elim (Bool-cases (in_use (hash_to_vsock_cid (digest hash)))) [
        | inl e ↦ find_hashed_bounds left (i + 1) (update hash (to_bytes 4 i)) cid (rw e at h)
        | inr e ↦ let b = hash_bounds (digest hash) in rw (sym (value (rw e at h))) (e, b.0, b.1)
      ]
    where
      value : {x y : ℕ} → some x ≡ some y → x ≡ y
      value p = cc p

  find_random_bounds :
      (left i : ℕ) (random : ℕ → ℕ) (cid : ℕ)
      → ((j : ℕ) → random j < 0xFFFFFFFF)
      → find_random left i random ≡ some cid
      → (in_use cid ≡ false) × (cid < 0xFFFFFFFF)
  unfolding find_random
  find_random_bounds zero i random cid r h = cc h
  find_random_bounds (suc left) i random cid r h = elim (Bool-cases (in_use (random i))) [
    | inl e ↦ find_random_bounds left (i + 1) random cid r (rw e at h)
    | inr e ↦ rw (sym (value (rw e at h))) (e, r i)
  ]
    where
      value : {x y : ℕ} → some x ≡ some y → x ≡ y
      value p = cc p

  -- Where the random numbers are below 0xFFFFFFFF, a connection ID that is found is not in use and
  -- below 0xFFFFFFFF; it is at least 3, so none of the well-known ones, if one of the 64 that are made
  -- of the hash is not in use.
  pub find_unused_vsock_cid_bounds :
      (hash : Hash) (random : ℕ → ℕ) (cid : ℕ)
      → ((j : ℕ) → random j < 0xFFFFFFFF)
      → find_unused_vsock_cid hash random ≡ ok cid
      → (in_use cid ≡ false) × (cid < 0xFFFFFFFF) × ((find_hashed 64 0 hash ≡ none) ⊎ (3 ≤ cid))
  unfolding find_unused_vsock_cid
  find_unused_vsock_cid_bounds hash random cid r h = elim (Option-cases (find_hashed 64 0 hash)) [
    | inl e ↦ elim (Option-cases (find_random 64 0 random)) [
      | inl f ↦ cc (rw f at (rw e at h))
      | inr (c, f) ↦
          let b = find_random_bounds 64 0 random c r f in
          rw (sym (value (rw f at (rw e at h)))) (b.0, b.1, inl e)
    ]
    | inr (c, e) ↦
        let b = find_hashed_bounds 64 0 hash c e in rw (sym (value (rw e at h))) (b.0, b.2, inr b.1)
  ]
    where
      value : {x y : ℕ} → ok x ≡ ok y → x ≡ y
      value p = cc p

-- The names of `find_qemu_binary`; `is_there` is `find_binary(name, root=config.tools()) is not None`.
abbrev pub first_there : (Text → Bool) → List Text → Result Text
first_there is_there [] = failed (die (lit "Couldn't find QEMU/KVM binary"))
first_there is_there (b ∷ bs) = if is_there b then ok b else first_there is_there bs

unfoldable pub find_qemu_binary :
    (is_there : Text → Bool) (is_native : Bool) → Architecture → Result Text
unfolding to_qemu
find_qemu_binary is_there is_native a = to_qemu a >>= λ name.
    first_there is_there
      ((lit "qemu-system-" ++ name) ∷ (if is_native then lit "qemu" ∷ lit "qemu-kvm" ∷ [] else []))

unfoldable pub want_scratch : (is_there : Text → Bool) → ConfigFeature → Distribution → Bool
unfolding installer feature_eq
want_scratch is_there runtime_scratch d =
    feature_eq runtime_scratch ConfigFeature.enabled
    || (feature_eq runtime_scratch ConfigFeature.auto
        && is_there (lit "mkfs." ++ (installer d).filesystem))

abbrev no_disk : OutputFormat → Bool
no_disk OutputFormat.cpio = true
no_disk OutputFormat.directory = true
no_disk _ = false

abbrev no_efi : Option Text → Bool
no_efi none = true
no_efi (some name) = false

-- `kernel` is, for a kernel that is given, whether its type is known.
abbrev auto_firmware : (kernel : Option Bool) → OutputFormat → Architecture → QemuFirmware
auto_firmware (some known) f a = if known then QemuFirmware.uefi else QemuFirmware.linux
auto_firmware none f a =
    if no_disk f || no_efi (to_efi a) then QemuFirmware.linux else QemuFirmware.uefi

unfoldable pub finalize_qemu_firmware :
    QemuFirmware → (kernel : Option Bool) → OutputFormat → Architecture → QemuFirmware
unfolding to_efi
finalize_qemu_firmware QemuFirmware.auto kernel f a = auto_firmware kernel f a
finalize_qemu_firmware firmware kernel f a = firmware
