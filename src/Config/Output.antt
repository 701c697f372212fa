-- ===== src/Config/Output.antt =====
-- The names of the files that a build writes: `OutputFormat`, `Compression` and the `output_*`
-- properties of `Config` in mkosi/config.py.
use mkosi.Base.{
  ◌≡◌, ◌≢◌, refl, ap, ◌∙◌, Bool, true, false, ◌&&◌, ◌||◌, List, [], ◌∷◌, ◌++◌, map, if◌then◌else◌,
  arith, ==_refl,
}
use mkosi.Base.Text.{Text, lit, text_eq}
use mkosi.Base.Dict.{contains}
use mkosi.Base.Dict.Distinct.{distinct}
use mkosi.Config.Enums.{OutputFormat, Compression}
use mkosi.Config.StrEnum.{compression_value}

unfoldable pub extension : OutputFormat → Text
extension OutputFormat.confext = lit ".raw"
extension OutputFormat.cpio = lit ".cpio"
extension OutputFormat.disk = lit ".raw"
extension OutputFormat.esp = lit ".raw"
extension OutputFormat.portable = lit ".raw"
extension OutputFormat.sysext = lit ".raw"
extension OutputFormat.tar = lit ".tar"
extension OutputFormat.uki = lit ".efi"
extension _ = []

unfoldable pub is_extension_image : OutputFormat → Bool
is_extension_image OutputFormat.sysext = true
is_extension_image OutputFormat.confext = true
is_extension_image OutputFormat.portable = true
is_extension_image _ = false

unfoldable pub is_archive_or_disk : OutputFormat → Bool
is_archive_or_disk OutputFormat.tar = true
is_archive_or_disk OutputFormat.cpio = true
is_archive_or_disk OutputFormat.disk = true
is_archive_or_disk _ = false

unfoldable pub use_outer_compression : OutputFormat → Bool
unfolding is_extension_image is_archive_or_disk
use_outer_compression f = is_archive_or_disk f || is_extension_image f

-- `Compression.__bool__`
unfoldable pub is_compression : Compression → Bool
is_compression Compression.none = false
is_compression _ = true

unfoldable pub compression_extension : Compression → Text
compression_extension Compression.zstd = lit ".zst"
compression_extension c = b'.' ∷ compression_value c

-- The fields of `Config` that the names are made of.
pub record Output : Type 0 where
  pub output : Text
  pub output_format : OutputFormat
  pub compress_output : Compression

unfoldable pub output_with_format : Output → Text
unfolding extension
output_with_format c = c.output ++ extension c.output_format

abbrev outer_extension : OutputFormat → Compression → Text
outer_extension f c =
    if is_compression c && use_outer_compression f then compression_extension c else []

unfoldable pub output_with_compression : Output → Text
unfolding output_with_format use_outer_compression is_compression compression_extension
output_with_compression c =
    output_with_format c ++ outer_extension c.output_format c.compress_output

abbrev pub output_split_uki : Output → Text
output_split_uki c = c.output ++ lit ".efi"

abbrev pub output_split_kernel : Output → Text
output_split_kernel c = c.output ++ lit ".vmlinuz"

abbrev pub output_split_initrd : Output → Text
output_split_initrd c = c.output ++ lit ".initrd"

abbrev pub output_nspawn_settings : Output → Text
output_nspawn_settings c = c.output ++ lit ".nspawn"

abbrev pub output_checksum : Output → Text
output_checksum c = c.output ++ lit ".SHA256SUMS"

abbrev pub output_signature : Output → Text
output_signature c = c.output ++ lit ".SHA256SUMS.gpg"

abbrev pub output_manifest : Output → Text
output_manifest c = c.output ++ lit ".manifest"

abbrev pub output_changelog : Output → Text
output_changelog c = c.output ++ lit ".changelog"

abbrev pub output_names : Output → List Text
output_names c =
    output_with_compression c
    ∷ output_split_uki c
    ∷ output_split_kernel c
    ∷ output_split_initrd c
    ∷ output_nspawn_settings c
    ∷ output_checksum c
    ∷ output_signature c
    ∷ output_manifest c
    ∷ output_changelog c
    ∷ []

abbrev suffixes : OutputFormat → Compression → List Text
suffixes f c =
    (extension f ++ outer_extension f c)
    ∷ lit ".efi"
    ∷ lit ".vmlinuz"
    ∷ lit ".initrd"
    ∷ lit ".nspawn"
    ∷ lit ".SHA256SUMS"
    ∷ lit ".SHA256SUMS.gpg"
    ∷ lit ".manifest"
    ∷ lit ".changelog"
    ∷ []

suffixes-distinct :
    (f : OutputFormat) (c : Compression) → f ≢ OutputFormat.uki → distinct (suffixes f c) ≡ true
unfolding distinct contains text_eq extension is_compression use_outer_compression
    compression_extension
suffixes-distinct OutputFormat.uki c n = absurd (n refl)
suffixes-distinct OutputFormat.disk Compression.none n = refl
suffixes-distinct f Compression.none n = refl
suffixes-distinct f Compression.zstd n = refl
suffixes-distinct f Compression.xz n = refl
suffixes-distinct f Compression.bz2 n = refl
suffixes-distinct f Compression.gz n = refl
suffixes-distinct f Compression.lz4 n = refl
suffixes-distinct f Compression.lzma n = refl

text_eq-append : (s a b : Text) → text_eq (s ++ a) (s ++ b) ≡ text_eq a b
unfolding text_eq
text_eq-append [] a b = refl
text_eq-append (d ∷ s) a b = ground (arith, ==_refl d, text_eq-append s a b)

contains-append_each :
    (s : Text) (ks : List Text) (k : Text)
    → contains (map (λ a. s ++ a) ks) (s ++ k) ≡ contains ks k
unfolding contains
contains-append_each s [] k = refl
contains-append_each s (j ∷ ks) k = rw (text_eq-append s j k, contains-append_each s ks k) refl

distinct-append_each : (s : Text) (ks : List Text) → distinct (map (λ a. s ++ a) ks) ≡ distinct ks
unfolding distinct
distinct-append_each s [] = refl
distinct-append_each s (k ∷ ks) = rw (contains-append_each s ks k, distinct-append_each s ks) refl

append_assoc : (s a b : Text) → (s ++ a) ++ b ≡ s ++ (a ++ b)
append_assoc [] a b = refl
append_assoc (d ∷ s) a b = ap (λ r. d ∷ r) (append_assoc s a b)

names_same :
    (c : Output)
    → output_names c ≡ map (λ a. c.output ++ a) (suffixes c.output_format c.compress_output)
unfolding output_with_compression output_with_format
names_same c =
    ap
      (λ first.
        first
        ∷ output_split_uki c
        ∷ output_split_kernel c
        ∷ output_split_initrd c
        ∷ output_nspawn_settings c
        ∷ output_checksum c
        ∷ output_signature c
        ∷ output_manifest c
        ∷ output_changelog c
        ∷ [])
      (append_assoc c.output (extension c.output_format)
        (outer_extension c.output_format c.compress_output))

-- For every format but uki, whose file is named like the split UKI, no two of the names of what a
-- build writes are the same.
pub output_names-distinct :
    (c : Output) → c.output_format ≢ OutputFormat.uki → distinct (output_names c) ≡ true
unfolding output_with_compression output_with_format
output_names-distinct c n =
    ap distinct (names_same c)
    ∙ distinct-append_each c.output (suffixes c.output_format c.compress_output)
    ∙ suffixes-distinct c.output_format c.compress_output n
