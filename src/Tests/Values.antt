-- ===== src/Tests/Values.antt =====
-- Values of settings: runs of their parsers, and their theorems at concrete values.
use mkosi.Base.Split.{partition}
use mkosi.Config.Value.Number.{config_parse_source_date_epoch}
use mkosi.Config.Value.Sequence.{parse_environment}
use mkosi.Config.Value.Epoch.{
  config_default_source_date_epoch, config_default_source_date_epoch-keys,
}
use mkosi.Base.{
  ℕ, ◌≡◌, refl, ◌≤◌, ◌<◌, ◌+◌, ◌%◌, true, false, not, Option, some, none, List, ◌∷◌, [], all, ◌||◌,
  if◌then◌else◌, ◌&&◌, ◌==◌,
}
use mkosi.Base.Text.{Text, lit, text_eq}
use mkosi.Base.Whitespace.{is_space, strip}
use mkosi.Base.Result.{Result, ok, failed, value_error, ◌>>=◌}
use mkosi.Ini.{is_empty}
use mkosi.Config.Value.Number.{
  ℤ, pos, negsuc, int, sector_size, is_power_of_2, config_parse_sector_size, vsock_cid,
  config_parse_vsock_cid, digits,
}
use mkosi.Config.Value.Size.{parse_bytes, whole_pages, size_factor, parse_bytes_bounds}
use mkosi.Config.Value.Sequence.Laws.{IsItem, read, list_parser-append}

accepts_2048 : config_parse_sector_size (some (lit " 2_048")) none ≡ ok (some 2048)
unfolding config_parse_sector_size int digits strip is_space sector_size is_power_of_2
accepts_2048 = refl

abbrev half_page : ℕ
half_page = 2048

accepts_hash : config_parse_vsock_cid (some (lit "hash")) none ≡ ok (some (negsuc 1))
unfolding config_parse_vsock_cid vsock_cid text_eq
accepts_hash = refl

-- A scaling that knows one size.
unfoldable ceil_scaled : Text → ℕ → Option ℤ
unfolding text_eq
ceil_scaled s factor = if text_eq s (lit "5") && factor == 1024 then some (pos 5120) else none

accepts_size : parse_bytes ceil_scaled (lit "5K") ≡ ok 8192
unfolding parse_bytes whole_pages size_factor ceil_scaled
accepts_size = refl

parse_bytes_bounds_example :
    (r : ℕ) × (ceil_scaled (lit "5") 1024 ≡ some (pos r))
    × (0 < r)
    × (r ≤ 8192)
    × (8192 < r + 4096)
    × (8192 % 4096 ≡ 0)
unfolding size_factor
parse_bytes_bounds_example = parse_bytes_bounds ceil_scaled (lit "5K") 8192 accepts_size

abbrev parse_item : Text → Result Text
parse_item t = if text_eq t (lit "bad") then failed value_error else ok t

abbrev lexer : ℕ → Text → Result (List Text)
lexer d t = ok (t ∷ [])

abbrev packages : List Text → Option (List Text) → Result (List Text)
packages items = read lexer b',' true parse_item items

item :
    (t : Text) → is_empty t ≡ false → all (λ c. not (c == b',' || c == 10)) t ≡ true → IsItem b',' t
item t e w = record { nonempty = e; whole = w }

list_parser-append_example :
    (packages (lit "a" ∷ lit "b" ∷ []) (some (lit "z" ∷ [])) >>= λ xs.
    packages (lit "c" ∷ []) (some xs))
    ≡ packages (lit "a" ∷ lit "b" ∷ lit "c" ∷ []) (some (lit "z" ∷ []))
list_parser-append_example =
    list_parser-append lexer b',' true parse_item (lit "a") (lit "b" ∷ []) (lit "c") []
      (some (lit "z" ∷ [])) (item (lit "a") refl refl, (item (lit "b") refl refl, tt))
      (item (lit "c") refl refl, tt)

config_default_source_date_epoch-keys_example :
    config_default_source_date_epoch (lit "SOURCE_DATE_EPOCH" ∷ []) (some (lit "7"))
    ≡ config_parse_source_date_epoch (some (lit "7")) none
unfolding parse_environment partition strip is_space
config_default_source_date_epoch-keys_example =
    config_default_source_date_epoch-keys (λ k. []) (lit "SOURCE_DATE_EPOCH=1" ∷ [])
      (some (lit "7"))
