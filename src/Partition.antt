-- ===== src/Partition.antt =====
-- mkosi/partition.py: partitions as systemd-repart describes them, and the root of a kernel command
-- line.
use mkosi.Base.{
  ◌≡◌, refl, sym, ◌∙◌, Option-cases, inl, inr, Bool, not, ◌&&◌, ◌||◌, Option, none, some, List, [],
  ◌∷◌, ◌++◌, if◌then◌else◌, Bool-cases,
}
use mkosi.Base.Text.{Text, lit, text_eq, starts_with}
use mkosi.Base.Dict.{Dict, lookup}
use mkosi.Base.Result.{Result, ok, failed, die, key_error, value_error, Result-cases, ◌>>=◌}
use mkosi.Config.Value.Number.{ℤ, int, given}

pub record Partition : Type 0 where
  pub type : Text
  pub uuid : Text
  pub partno : Option ℤ
  pub split_path : Option Text
  pub roothash : Option Text

abbrev required_key : Option Text → Result Text
required_key none = failed key_error
required_key (some v) = ok v

abbrev partno_or_raise : Option ℤ → Result (Option ℤ)
partno_or_raise none = failed value_error
partno_or_raise (some n) = ok (some n)

-- `int(partno) if (partno := dict.get("partno")) else None`
abbrev number_of : Option Text → Result (Option ℤ)
number_of none = ok none
number_of (some s) = partno_or_raise (int s)

abbrev path_of : Option Text → Option Text
path_of none = none
path_of (some p) = if text_eq p (lit "-") then none else some p

-- `Partition.from_dict`
unfoldable pub from_dict : Dict Text → Result Partition
unfolding lookup int
from_dict d = required_key (lookup (lit "type") d) >>= λ type.
    required_key (lookup (lit "uuid") d) >>= λ uuid.
    number_of (given (lookup (lit "partno") d)) >>= λ partno. ok (record {
      type = type;
      uuid = uuid;
      partno = partno;
      split_path = path_of (given (lookup (lit "split_path") d));
      roothash = lookup (lit "roothash") d;
    })

abbrev pub is_usr_partition : Partition → Bool
is_usr_partition p = starts_with p.type (lit "usr")

abbrev pub is_root_partition : Partition → Bool
is_root_partition p = starts_with p.type (lit "root")

-- `roothash or h`
abbrev or_hash : Option Text → Text → Option Text
or_hash none h = some h
or_hash (some []) h = some h
or_hash (some (c ∷ s)) h = some (c ∷ s)

-- The loop of `finalize_roothash`: the hashes for root and for usr so far.
unfoldable pub find_hashes :
    List Partition → Option Text → Option Text → Result (Option Text × Option Text)
unfolding starts_with
find_hashes [] root usr = ok (root, usr)
find_hashes (p ∷ ps) root usr =
    let to_usr = λ (h : Text). find_hashes ps root (or_hash usr h) in
    let to_root = λ (h : Text). find_hashes ps (or_hash root h) usr in
    let rest = find_hashes ps root usr in
    elim p.roothash [
      | none ↦ rest
      | some h ↦
          if not (is_usr_partition p || is_root_partition p)
          then failed (die (lit "Found roothash property on unexpected partition type"))
          else if is_usr_partition p
          then to_usr h
          else to_root h
    ]

-- `f"roothash={roothash}" if roothash else f"usrhash={usrhash}" if usrhash else None`
abbrev argument : Text → Option Text → Option Text → Option Text
argument name none rest = rest
argument name (some []) rest = rest
argument name (some (c ∷ s)) rest = some (name ++ (c ∷ s))

unfoldable pub finalize_roothash : List Partition → Result (Option Text)
unfolding find_hashes
finalize_roothash ps = find_hashes ps none none >>= λ r.
    ok (argument (lit "roothash=") r.0 (argument (lit "usrhash=") r.1 none))

abbrev first_uuid : (Partition → Bool) → List Partition → Option Text
first_uuid test [] = none
first_uuid test (p ∷ ps) = if test p then some p.uuid else first_uuid test ps

abbrev prefixed : Text → Option Text → Option Text
prefixed name none = none
prefixed name (some u) = some (name ++ u)

abbrev or_uuid : Option Text → Option Text → Option Text
or_uuid none rest = rest
or_uuid (some r) rest = some r

unfoldable pub finalize_root : List Partition → Result (Option Text)
unfolding finalize_roothash starts_with
finalize_root ps = finalize_roothash ps >>= λ r. ok (
    or_uuid r (
      or_uuid (prefixed (lit "root=PARTUUID=") (first_uuid is_root_partition ps))
        (prefixed (lit "mount.usr=PARTUUID=") (first_uuid is_usr_partition ps))))

abbrev pub nonempty : Option Text → Option Text → Option Text
nonempty none rest = rest
nonempty (some []) rest = rest
nonempty (some (c ∷ s)) rest = some (c ∷ s)

-- The hash of the first partition that passes the test and has one that is not empty.
unfoldable pub first_hash : (Partition → Bool) → List Partition → Option Text
first_hash test [] = none
first_hash test (p ∷ ps) =
    let rest = first_hash test ps in if test p then nonempty p.roothash rest else rest

abbrev pub is_only_root : Partition → Bool
is_only_root p = not (is_usr_partition p) && is_root_partition p

-- The argument for the hashes that were found first.
abbrev pub root_argument : List Partition → Option Text
root_argument ps =
    argument (lit "roothash=") (first_hash is_only_root ps)
      (argument (lit "usrhash=") (first_hash is_usr_partition ps) none)

nonempty-or_hash :
    (x : Option Text) (h : Text) (rest : Option Text)
    → nonempty (or_hash x h) rest ≡ nonempty x (nonempty (some h) rest)
nonempty-or_hash none h rest = refl
nonempty-or_hash (some []) h rest = refl
nonempty-or_hash (some (c ∷ s)) h rest = refl

argument-nonempty :
    (name : Text) (x rest : Option Text)
    → argument name x rest ≡ argument name (nonempty x none) rest
argument-nonempty name none rest = refl
argument-nonempty name (some []) rest = refl
argument-nonempty name (some (c ∷ s)) rest = refl

first_hash-skip :
    (test : Partition → Bool) (p : Partition) (ps : List Partition)
    → p.roothash ≡ none
    → first_hash test (p ∷ ps) ≡ first_hash test ps
unfolding first_hash
first_hash-skip test p ps h = elim (Bool-cases (test p)) [
  | inl e ↦ rw (e, h) refl
  | inr e ↦ rw e refl
]

-- What the loop has found is what it had found before, or the first hash behind it.
find_hashes-found :
    (ps : List Partition) (root usr : Option Text) (r : Option Text × Option Text)
    → find_hashes ps root usr ≡ ok r
    → (nonempty r.0 none ≡ nonempty root (first_hash is_only_root ps))
      × (nonempty r.1 none ≡ nonempty usr (first_hash is_usr_partition ps))
unfolding find_hashes first_hash
find_hashes-found [] root usr r h = rw (sym (value h)) (refl, refl)
  where
    value : {x y : Option Text × Option Text} → ok x ≡ ok y → x ≡ y
    value p = cc p
find_hashes-found (p ∷ ps) root usr r h = elim (Option-cases p.roothash) [
  | inl e ↦
      let q = find_hashes-found ps root usr r (rw e at h) in
      rw (first_hash-skip is_only_root p ps e, first_hash-skip is_usr_partition p ps e) q
  | inr (t, e) ↦ elim (Bool-cases (is_usr_partition p)) [
    | inl u ↦
        let q = find_hashes-found ps root (or_hash usr t) r (rw u at (rw e at h)) in
        rw (u, e) (q.0, q.1 ∙ nonempty-or_hash usr t (first_hash is_usr_partition ps))
    | inr u ↦ elim (Bool-cases (is_root_partition p)) [
      | inl o ↦
          let q = find_hashes-found ps (or_hash root t) usr r (rw (u, o) at (rw e at h)) in
          rw (u, o, e) (q.0 ∙ nonempty-or_hash root t (first_hash is_only_root ps), q.1)
      | inr o ↦ cc (rw (u, o) at (rw e at h))
    ]
  ]
]

found_argument :
    (ps : List Partition) (r : Option Text × Option Text)
    → find_hashes ps none none ≡ ok r
    → argument (lit "roothash=") r.0 (argument (lit "usrhash=") r.1 none) ≡ root_argument ps
found_argument ps r h =
    let q = find_hashes-found ps none none r h in
    argument-nonempty (lit "roothash=") r.0 (argument (lit "usrhash=") r.1 none)
    ∙ rw (argument-nonempty (lit "usrhash=") r.1 none, q.0, q.1) refl

-- What finalize_roothash returns is the argument for the first root partition with a verity hash,
-- or, if there is none, for the first such usr partition.
pub finalize_roothash-first :
    (ps : List Partition) (r : Option Text) → finalize_roothash ps ≡ ok r → r ≡ root_argument ps
unfolding finalize_roothash
finalize_roothash-first ps r h = elim (Result-cases (find_hashes ps none none)) [
  | inl (e, f) ↦ cc (rw f at h)
  | inr (q, f) ↦ sym (value (rw f at h)) ∙ found_argument ps q f
]
  where
    value : {x y : Option Text} → ok x ≡ ok y → x ≡ y
    value p = cc p
