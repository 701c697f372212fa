-- ===== src/Config/Value/Boolean.antt =====
-- Booleans, features and compressions.
pub mod Laws
use mkosi.Base.{ℕ, ◌+◌, Bool, true, false, ◌&&◌, Option, List, [], ◌∷◌, map, leb, if◌then◌else◌}
use mathlib.Core.Option
use mkosi.Base.Text.{Text, lit, text_eq}
use mkosi.Base.Dict.{contains}
use mkosi.Base.Result.{Result, ok, failed, die, ◌>>=◌}
use mkosi.Config.Enums.{ConfigFeature, Compression}
use mkosi.Config.Value.Number.{given}

-- `str.lower` on the ASCII letters, which decide whether a text is one of the words below.
unfoldable pub lower : Text → Text
lower = map (λ c. if leb b'A' c && leb c b'Z' then c + 32 else c)

abbrev pub true_words : List Text
true_words = lit "1" ∷ lit "true" ∷ lit "yes" ∷ lit "y" ∷ lit "t" ∷ lit "on" ∷ lit "always" ∷ []

abbrev pub false_words : List Text
false_words = lit "0" ∷ lit "false" ∷ lit "no" ∷ lit "n" ∷ lit "f" ∷ lit "off" ∷ lit "never" ∷ []

unfoldable pub parse_boolean : Text → Result Bool
unfolding lower
parse_boolean s =
    if contains true_words (lower s)
    then ok true
    else if contains false_words (lower s)
    then ok false
    else failed (die (lit "Invalid boolean literal"))

abbrev map_some {ℓ κ} : {A : Type ℓ} {B : Type κ} → (A → B) → Result A → Result (Option B)
map_some f r = r >>= λ a. ok (Option.some (f a))

unfoldable pub config_parse_boolean : Option Text → Option Bool → Result (Option Bool)
unfolding parse_boolean
config_parse_boolean Option.none old = ok (Option.some false)
config_parse_boolean (Option.some []) old = ok Option.none
config_parse_boolean (Option.some (c ∷ s)) old = map_some (λ b. b) (parse_boolean (c ∷ s))

unfoldable pub parse_feature : Text → Result ConfigFeature
unfolding parse_boolean
parse_feature s =
    if text_eq s (lit "auto")
    then ok ConfigFeature.auto
    else parse_boolean s >>= λ b. ok (if b then ConfigFeature.enabled else ConfigFeature.disabled)

unfoldable pub config_parse_feature :
    Option Text → Option ConfigFeature → Result (Option ConfigFeature)
unfolding parse_feature
config_parse_feature Option.none old = ok (Option.some ConfigFeature.auto)
config_parse_feature (Option.some []) old = ok Option.none
config_parse_feature (Option.some (c ∷ s)) old = map_some (λ f. f) (parse_feature (c ∷ s))

unfoldable pub feature_eq : ConfigFeature → ConfigFeature → Bool
feature_eq ConfigFeature.auto ConfigFeature.auto = true
feature_eq ConfigFeature.enabled ConfigFeature.enabled = true
feature_eq ConfigFeature.disabled ConfigFeature.disabled = true
feature_eq _ _ = false

unfoldable pub config_match_feature : Text → ConfigFeature → Result Bool
unfolding parse_feature feature_eq
config_match_feature match value = parse_feature match >>= λ f. ok (feature_eq value f)

-- `ConfigFeature.to_tristate`
unfoldable pub to_tristate : ConfigFeature → Text
to_tristate ConfigFeature.enabled = lit "yes"
to_tristate ConfigFeature.disabled = lit "no"
to_tristate ConfigFeature.auto = []

-- `Compression[value]`: by the constant's name, of which "zst" is a second one for `zstd`.
unfoldable pub compression_named : Text → Option Compression
compression_named s =
    if text_eq s (lit "none")
    then Option.some Compression.none
    else if text_eq s (lit "zstd")
    then Option.some Compression.zstd
    else if text_eq s (lit "zst")
    then Option.some Compression.zstd
    else if text_eq s (lit "xz")
    then Option.some Compression.xz
    else if text_eq s (lit "bz2")
    then Option.some Compression.bz2
    else if text_eq s (lit "gz")
    then Option.some Compression.gz
    else if text_eq s (lit "lz4")
    then Option.some Compression.lz4
    else if text_eq s (lit "lzma")
    then Option.some Compression.lzma
    else Option.none

abbrev compression_or : Option Compression → Result Bool → Result (Option Compression)
compression_or (Option.some c) fallback = ok (Option.some c)
compression_or Option.none fallback =
    map_some (λ b. if b then Compression.zstd else Compression.none) fallback

unfoldable pub config_parse_compression :
    Option Text → Option Compression → Result (Option Compression)
unfolding parse_boolean compression_named
config_parse_compression Option.none old = ok Option.none
config_parse_compression (Option.some []) old = ok Option.none
config_parse_compression (Option.some (c ∷ s)) old =
    compression_or (compression_named (c ∷ s)) (parse_boolean (c ∷ s))
