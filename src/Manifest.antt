-- ===== src/Manifest.antt =====
-- mkosi/manifest.py: the manifest of the packages that are installed in an image.
pub mod Sources
use mkosi.Base.{
  ℕ, zero, suc, ◌+◌, ◌*◌, Bool, true, false, not, ◌&&◌, ◌||◌, Option, none, some, List, [], ◌∷◌,
  ◌++◌, if◌then◌else◌, any,
}
use mkosi.Base.Text.{Text, lit, text_eq, starts_with, remove_prefix, remove_suffix}
use mkosi.Base.Split.{split}
use mkosi.Base.Whitespace.{strip}
use mkosi.Base.Dict.{Dict, lookup, insert}
use mkosi.Base.Result.{Result, ok, failed, value_error, assertion_error, stop_iteration, ◌>>=◌}
use mkosi.Nevra.{evr_and_arch}
use mkosi.Config.Enums.{PackageType}
use mkosi.Config.Value.Number.{ℤ, pos, negsuc, int}

pub record PackageManifest : Type 0 where
  pub type : Text
  pub name : Text
  pub version : Text
  pub architecture : Text
  pub size : ℤ

-- `PackageManifest.as_dict`
abbrev pub as_dict : PackageManifest → Dict Text
as_dict p =
    (lit "type", p.type)
    ∷ (lit "name", p.name)
    ∷ (lit "version", p.version)
    ∷ (lit "architecture", p.architecture)
    ∷ []

pub record SourcePackageManifest : Type 0 where
  pub name : Text
  pub changelog : Option Text
  pub packages : List PackageManifest

-- `SourcePackageManifest.add`
abbrev pub add : PackageManifest → SourcePackageManifest → SourcePackageManifest
add p s = record { name = s.name; changelog = s.changelog; packages = s.packages ++ p ∷ [] }

-- The state of `Manifest`.
pub record Manifest : Type 0 where
  pub packages : List PackageManifest
  pub source_packages : Dict SourcePackageManifest

abbrev pub empty_manifest : Manifest
empty_manifest = record { packages = []; source_packages = [] }

-- Name, version, base and architecture of a package of pacman.
pub record Desc : Type 0 where
  pub name : Text
  pub version : Text
  pub base : Text
  pub arch : Text

abbrev is_field : Text → Bool
is_field tag =
    text_eq tag (lit "%NAME%")
    || text_eq tag (lit "%VERSION%")
    || text_eq tag (lit "%BASE%")
    || text_eq tag (lit "%ARCH%")

abbrev with_field : Text → Text → Desc → Desc
with_field tag v d =
    if text_eq tag (lit "%NAME%")
    then record { name = v; version = d.version; base = d.base; arch = d.arch }
    else if text_eq tag (lit "%VERSION%")
    then record { name = d.name; version = v; base = d.base; arch = d.arch }
    else if text_eq tag (lit "%BASE%")
    then record { name = d.name; version = d.version; base = v; arch = d.arch }
    else record { name = d.name; version = d.version; base = d.base; arch = v }

-- The loop of `parse_pkg_desc` over the lines; `next(desc)` takes a line or raises.
unfoldable pub desc_lines : List Text → Desc → Result Desc
unfolding text_eq strip
desc_lines [] d = ok d
desc_lines (l ∷ []) d = if is_field (strip l) then failed stop_iteration else ok d
desc_lines (l ∷ v ∷ ls) d =
    let set = with_field (strip l) (strip v) d in
    let behind_value = desc_lines ls set in
    let next_line = desc_lines (v ∷ ls) d in
    if not (is_field (strip l))
    then next_line
    else if text_eq (strip l) (lit "%ARCH%")
    then ok set
    else behind_value

unfoldable pub parse_pkg_desc : List Text → Result Desc
unfolding desc_lines
parse_pkg_desc ls = desc_lines ls (record { name = []; version = []; base = []; arch = [] })

-- `self.packages.append(manifest)`
abbrev pub append_package : PackageManifest → Manifest → Manifest
append_package p m = record { packages = m.packages ++ p ∷ []; source_packages = m.source_packages }

abbrev pub with_sources : Manifest → Dict SourcePackageManifest → Manifest
with_sources m d = record { packages = m.packages; source_packages = d }

-- The source package with the key, which is made with the changelog if there is none, gets the
-- package.
unfoldable pub add_source :
    Text
    → Result (Option Text)
    → PackageManifest
    → Dict SourcePackageManifest
    → Result (Dict SourcePackageManifest)
unfolding lookup insert
add_source key changelog p d = elim (lookup key d) [
  | none ↦ changelog >>= λ text.
      ok (insert key (add p (record { name = key; changelog = text; packages = [] })) d)
  | some source ↦ ok (insert key (add p source) d)
]

-- The end of each turn of the two loops: whether the package is older than this build and the image
-- has base trees, whether source packages are needed, and the package with its source.
unfoldable pub record_package :
    (is_old need_source_info : Bool)
    → Text
    → Result (Option Text)
    → PackageManifest
    → Manifest
    → Result Manifest
unfolding add_source
record_package is_old need_source_info key changelog p m =
    if is_old
    then ok m
    else if not need_source_info
    then ok (append_package p m)
    else add_source key changelog p m.source_packages >>= λ d.
        ok (with_sources (append_package p m) d)

abbrev pub int_or_raise : Option ℤ → Result ℤ
int_or_raise none = failed value_error
int_or_raise (some n) = ok n

pub data Fields : Type 0 where
  six_fields : (a b c d e f : Text) → Fields

-- `package.split("\t")` for six names
abbrev pub unpack : List Text → Result Fields
unpack (a ∷ b ∷ c ∷ d ∷ e ∷ f ∷ []) = ok (six_fields a b c d e f)
unpack _ = failed value_error

-- `datetime.fromtimestamp(t) < self._init_timestamp`, whether there are base trees, `need_source_info`,
-- and the changelog that rpm or apt print for a package.
pub record Surroundings : Type 0 where
  pub is_before_init : ℤ → Result Bool
  pub has_base_trees : Bool
  pub need_source_info : Bool
  pub changelog : Text → Result Text

abbrev pub printed_changelog : Surroundings → Text → Result (Option Text)
printed_changelog w name = w.changelog name >>= λ text. ok (some (strip text))

-- The body of the loop of `record_rpm_packages`.
unfoldable pub record_rpm : Surroundings → Fields → Manifest → Result Manifest
unfolding evr_and_arch record_package int strip
record_rpm w (six_fields nevra srpm name arch size installtime) m =
    evr_and_arch nevra name arch >>= λ v. int_or_raise (int size) >>= λ bytes.
    int_or_raise (int installtime) >>= λ time. w.is_before_init time >>= λ is_before.
    record_package (w.has_base_trees && is_before) w.need_source_info srpm
      (printed_changelog w nevra)
      (record { type = lit "rpm"; name = name; version = v.0; architecture = v.1; size = bytes }) m

abbrev pub times_1024 : ℤ → ℤ
times_1024 (pos n) = pos (n * 1024)
times_1024 (negsuc n) = negsuc (n * 1024 + 1023)

-- `int(text) if text else 0`
abbrev pub int_or_0 : Text → Result ℤ
int_or_0 [] = ok (pos 0)
int_or_0 (c ∷ s) = int_or_raise (int (c ∷ s))

-- The body of the loop of `record_deb_packages`.
unfoldable pub record_deb : Surroundings → Fields → Manifest → Result Manifest
unfolding record_package int strip
record_deb w (six_fields name source version arch size installtime) m =
    int_or_0 size >>= λ kilobytes. int_or_0 installtime >>= λ time.
    w.is_before_init time >>= λ is_before.
    record_package (w.has_base_trees && is_before) w.need_source_info source
      (printed_changelog w name)
      (record {
        type = lit "deb";
        name = name;
        version = version;
        architecture = arch;
        size = times_1024 kilobytes;
      })
      m

-- The two loops over the lines that the package manager prints, which are sorted.
unfoldable pub record_lines :
    (Fields → Manifest → Result Manifest) → List Text → Manifest → Result Manifest
unfolding split
record_lines step [] m = ok m
record_lines step (l ∷ ls) m =
    unpack (split b'\t' l) >>= λ fields. step fields m >>= λ n. record_lines step ls n

unfoldable pub record_rpm_packages : Surroundings → List Text → Manifest → Result Manifest
unfolding record_lines record_rpm
record_rpm_packages w ls m = record_lines (record_rpm w) ls m

unfoldable pub record_deb_packages : Surroundings → List Text → Manifest → Result Manifest
unfolding record_lines record_deb
record_deb_packages w ls m = record_lines (record_deb w) ls m

-- The loop over the files, given by their lines.
unfoldable pub record_pkg_packages : List (List Text) → Manifest → Result Manifest
unfolding parse_pkg_desc record_package
record_pkg_packages [] m = ok m
record_pkg_packages (f ∷ fs) m = parse_pkg_desc f >>= λ d.
    record_package false true d.base (ok none)
      (record {
        type = lit "pkg";
        name = d.name;
        version = d.version;
        architecture = d.arch;
        size = pos 0;
      })
      m
    >>= λ n. record_pkg_packages fs n

-- `record_packages`: `printed` is what the package manager prints as sorted lines, `descs` the files
-- of pacman.
unfoldable pub record_packages :
    Surroundings
    → PackageType
    → (printed : List Text) → (descs : List (List Text)) → Manifest
    → Result Manifest
unfolding record_rpm_packages record_deb_packages record_pkg_packages
record_packages w PackageType.rpm printed descs m = record_rpm_packages w printed m
record_packages w PackageType.deb printed descs m = record_deb_packages w printed m
record_packages w PackageType.pkg printed descs m = record_pkg_packages descs m
record_packages w _ printed descs m = ok m
