-- ===== src/Tests/System.antt =====
-- IDs of users and kernel modules: runs, and the theorems at concrete inputs.
use mkosi.Base.{ℕ, ◌+◌, ◌≤◌, ◌<◌, ◌≡◌, ◌≢◌, ◌↔◌, ◌⊎◌, refl, true, some, none, List, ◌∷◌, [], ◌++◌}
use mkosi.Base.Text.{Text, lit, text_eq}
use mkosi.Base.Whitespace.{strip, is_space}
use mkosi.Base.Split.{split, splitlines, partition}
use mkosi.Base.Dict.{contains, lookup, insert}
use mkosi.Base.Dict.Unvisited.{unvisited}
use mkosi.Base.Result.{ok}
use mkosi.Config.Value.Number.{pos, int, digits}
use mkosi.User.{subrange, id_map, outside_id, invoking_id}
use mkosi.User.Subrange.{
  read_subrange, find_line, subrange_line, is_own, IsRange, read_subrange-IsRange,
}
use mkosi.User.Laws.{id_map-cases}
use mkosi.Kmod.{
  Info, Required, read_info, read_lines, info_line, key_value, normalized, normalize_module_name,
  require_all, require, required_modules, get_list,
}
use mkosi.Kmod.Reach.{Requires, firmware_of, required_modules-Requires}

abbrev own : ℕ
own = 1000

abbrev start : ℕ
start = 100000

id_map-cases_example :
    ((own ≡ invoking_id) × (outside_id (id_map start own) own ≡ some own))
    ⊎ ((own ≢ invoking_id)
        × (own < subrange)
        × (outside_id (id_map start own) own ≡ some (start + own)))
    ⊎ ((subrange ≤ own) × (outside_id (id_map start own) own ≡ none))
id_map-cases_example = id_map-cases start own own

maps_invoking : outside_id (id_map start own) invoking_id ≡ some own
unfolding outside_id id_map
maps_invoking = refl

abbrev subuid : Text
subuid = lit "root:0:1\nmax:100000:65536\n"

reads_subuid : read_subrange (lit "1000") (some (lit "max")) subuid ≡ ok (pos 100000)
unfolding read_subrange find_line subrange_line is_own int digits split splitlines text_eq strip
    is_space
reads_subuid = refl

read_subrange-IsRange_example :
    IsRange (lit "1000") (some (lit "max")) (splitlines subuid) (pos 100000)
read_subrange-IsRange_example =
    read_subrange-IsRange (lit "1000") (some (lit "max")) subuid (pos 100000) reads_subuid

-- Two modules that need each other, and one file of firmware.
abbrev modules : Info
modules = record {
  moddep = (lit "a-b", lit "c" ∷ []) ∷ (lit "c", lit "a-b" ∷ []) ∷ [];
  firmwaredep = (lit "a-b", []) ∷ (lit "c", lit "c.bin" ∷ []) ∷ [];
  depends = [];
  firmware = [];
}

abbrev glob : Text → List Text
glob value = (value ++ lit ".bin") ∷ []

reads_info :
    read_info glob (
      lit "depends:c"
      ++ (0 ∷ lit "name:a_b"
          ++ (0 ∷ lit "depends:a_b" ++ (0 ∷ lit "firmware:c" ++ (0 ∷ lit "name=c")))))
    ≡ record {
      moddep = (lit "a-b", lit "c" ∷ []) ∷ (lit "c", lit "a-b" ∷ []) ∷ [];
      firmwaredep = (lit "a-b", []) ∷ (lit "c", lit "c.bin" ∷ []) ∷ [];
      depends = [];
      firmware = [];
    }
unfolding read_info read_lines info_line key_value normalized normalize_module_name split partition
    strip is_space insert text_eq
reads_info = refl

abbrev found : Required
found = record { todo = []; mods = lit "x" ∷ lit "c" ∷ lit "a-b" ∷ []; firmware = lit "c.bin" ∷ [] }

finds : required_modules modules (lit "x" ∷ []) (lit "a-b" ∷ []) ≡ ok found
unfolding required_modules require_all require get_list contains lookup unvisited text_eq
finds = refl

required_modules-Requires_example :
    ((k : Text) → (contains found.mods k ≡ true) ↔ Requires modules (lit "x" ∷ lit "a-b" ∷ []) k)
    × (found.firmware ≡ firmware_of modules found.mods)
required_modules-Requires_example =
    required_modules-Requires modules (lit "x" ∷ []) (lit "a-b" ∷ []) found finds
