-- ===== src/Config/Value/Parts.antt =====
-- `make_tree_parser` and `parse_drive`: values that are made of parts.
use mkosi.Base.{
  ℕ, zero, suc, ◌≡◌, refl, ap, ◌∙◌, all, ◌==◌, Bool, true, false, not, Option, none, some, List, [],
  ◌∷◌, ◌++◌, if◌then◌else◌,
}
use mkosi.Base.Text.{Text, lit}
use mkosi.Base.Split.{Partition, partition}
use mkosi.Base.Result.{Result, ok, failed, die, ◌>>=◌}
use mkosi.Ini.Lines.{partition-clean}
use mkosi.Config.Value.Number.{ℤ}
use mkosi.Config.Value.Size.{parse_bytes}
use mkosi.Config.Value.Path.{Os, PathOptions, parse_path}
use mkosi.Config.Value.Name.{is_valid_filename}

abbrev pub path_options : PathOptions
path_options = record {
  required = true;
  resolve = true;
  expanduser = true;
  expandvars = true;
  secret = false;
  absolute = false;
  constants = [];
}

pub record ConfigTree : Type 0 where
  pub source : Text
  pub target : Option Text

-- `parse_path` of a part that is there
abbrev optional {ℓ} : {A : Type ℓ} → (Text → Result A) → Option Text → Result (Option A)
optional parse none = ok none
optional parse (some s) = parse s >>= λ a. ok (some a)

module _ (os : Os) where
  abbrev tree_of : Bool → Partition → Result ConfigTree
  tree_of absolute p =
      parse_path os (record path_options { required = false }) p.before >>= λ source.
      optional
        (parse_path os (record path_options {
          required = false;
          resolve = false;
          expanduser = false;
          absolute = absolute;
        }))
        p.behind
      >>= λ target. ok (record { source = source; target = target })

  -- `make_tree_parser(absolute)`
  unfoldable pub parse_tree : Bool → Text → Result ConfigTree
  unfolding partition parse_path
  parse_tree absolute value = tree_of absolute (partition b':' value)

-- `ConfigTree.with_prefix`, where `in_prefix` is `prefix / os.fspath(target).lstrip("/")`
unfoldable pub with_prefix : Text → (Text → Text) → ConfigTree → Text × Text
with_prefix prefix in_prefix t =
    (t.source, elim t.target [ none ↦ prefix | some target ↦ in_prefix target ])

pub record QemuDrive : Type 0 where
  pub id : Text
  pub size : ℕ
  pub directory : Option Text
  pub options : Option Text

-- `value.split(":", maxsplit=n)`
unfoldable pub split_at_most : ℕ → Text → List Text
unfolding partition
split_at_most zero value = value ∷ []
split_at_most (suc n) value =
    let p = partition b':' value in
    elim p.behind [ none ↦ value ∷ [] | some rest ↦ p.before ∷ split_at_most n rest ]

abbrev nonempty : Text → Option Text
nonempty [] = none
nonempty (c ∷ s) = some (c ∷ s)

module _ (os : Os) (ceil_scaled : Text → ℕ → Option ℤ) where
  abbrev drive : Text → Text → Option Text → Option Text → Result QemuDrive
  drive id size directory options =
      if not (is_valid_filename id)
      then failed (die (lit "Unsupported path character in drive id"))
      else parse_bytes ceil_scaled size >>= λ size.
          optional (parse_path os path_options) directory >>= λ directory.
          ok (record { id = id; size = size; directory = directory; options = options })

  -- The parts are four at most, so the source's check of that never fails.
  abbrev drive_of : List Text → Result QemuDrive
  drive_of [] = failed (die (lit "No ID specified for drive"))
  drive_of ([] ∷ parts) = failed (die (lit "No ID specified for drive"))
  drive_of ((c ∷ id) ∷ []) = failed (die (lit "Missing size in drive"))
  drive_of ((c ∷ id) ∷ size ∷ []) = drive (c ∷ id) size none none
  drive_of ((c ∷ id) ∷ size ∷ directory ∷ []) = drive (c ∷ id) size (nonempty directory) none
  drive_of ((c ∷ id) ∷ size ∷ directory ∷ options ∷ []) =
      drive (c ∷ id) size (nonempty directory) (nonempty options)
  drive_of ((c ∷ id) ∷ size ∷ directory ∷ options ∷ more ∷ parts) =
      failed (die (lit "Too many components in drive"))

  unfoldable pub parse_drive : Text → Result QemuDrive
  unfolding split_at_most parse_bytes parse_path is_valid_filename
  parse_drive value = drive_of (split_at_most 3 value)

  split-part :
      (n : ℕ) (s rest : Text)
      → all (λ c. not (c == b':')) s ≡ true
      → split_at_most (suc n) (s ++ (b':' ∷ rest)) ≡ s ∷ split_at_most n rest
  unfolding split_at_most
  split-part n s rest h =
      rw (partition-clean b':' s rest h, split_at_most) (rw (partition-clean b':' s rest h) refl)

  split-parts :
      (id size directory options : Text)
      → all (λ c. not (c == b':')) id ≡ true
      → all (λ c. not (c == b':')) size ≡ true
      → all (λ c. not (c == b':')) directory ≡ true
      → split_at_most 3 (id ++ (b':' ∷ (size ++ (b':' ∷ (directory ++ (b':' ∷ options))))))
        ≡ id ∷ size ∷ directory ∷ options ∷ []
  unfolding split_at_most
  split-parts id size directory options h k l =
      split-part 2 id (size ++ (b':' ∷ (directory ++ (b':' ∷ options)))) h
      ∙ ap (λ r. id ∷ r) (split-part 1 size (directory ++ (b':' ∷ options)) k)
      ∙ ap (λ r. id ∷ size ∷ r) (split-part 0 directory options l)

  -- The four parts of a drive are read as its ID, its size, its directory and its options, which may
  -- have further colons; no part is empty, and the first three have none.
  pub parse_drive-parts :
      (c : ℕ) (id size : Text) (d : ℕ) (directory : Text) (o : ℕ) (options : Text)
      → all (λ c. not (c == b':')) (c ∷ id) ≡ true
      → all (λ c. not (c == b':')) size ≡ true
      → all (λ c. not (c == b':')) (d ∷ directory) ≡ true
      → is_valid_filename (c ∷ id) ≡ true
      → parse_drive
          ((c ∷ id) ++ (b':' ∷ (size ++ (b':' ∷ ((d ∷ directory) ++ (b':' ∷ (o ∷ options)))))))
        ≡ (parse_bytes ceil_scaled size >>= λ n. parse_path os path_options (d ∷ directory) >>= λ p.
            ok (record { id = c ∷ id; size = n; directory = some p; options = some (o ∷ options) }))
  unfolding parse_drive
  parse_drive-parts c id size d directory o options h k l v =
      rw (split-parts (c ∷ id) size (d ∷ directory) (o ∷ options) h k l, v)
        (same (parse_bytes ceil_scaled size) (parse_path os path_options (d ∷ directory)))
    where
      with_directory : ℕ → Option Text → QemuDrive
      with_directory n p = record {
        id = c ∷ id;
        size = n;
        directory = p;
        options = some (o ∷ options);
      }

      same :
          (r : Result ℕ) (q : Result Text)
          → (r >>= λ n. (q >>= λ a. ok (some a)) >>= λ p. ok (with_directory n p))
            ≡ (r >>= λ n. q >>= λ p. ok (with_directory n (some p)))
      same (failed e) q = refl
      same (ok n) (failed e) = refl
      same (ok n) (ok p) = refl
