-- ===== src/Kmod.antt =====
-- mkosi/kmod.py: what `modinfo` says of the kernel modules, and the modules and firmware that a list
-- of modules requires. Globs and regular expressions are parameters.
pub mod Fuel
pub mod Reach
use mkosi.Base.{
  ℕ, zero, suc, ◌+◌, Bool, true, false, ◌&&◌, ◌||◌, Option, none, some, List, [], ◌∷◌, ◌++◌, map,
  any, length, ◌==◌, if◌then◌else◌,
}
use mkosi.Base.Text.{Text, lit, text_eq}
use mkosi.Base.Whitespace.{strip}
use mkosi.Base.Split.{Partition, partition, split}
use mkosi.Base.Dict.{Dict, contains, lookup, insert}
use mkosi.Base.Dict.Unvisited.{unvisited}
use mkosi.Base.Result.{Result, ok, failed, out_of_fuel}
use mkosi.Ini.{is_empty}

-- name.replace("_", "-")
unfoldable pub normalize_module_name : Text → Text
normalize_module_name name = map (λ c. if c == b'_' then b'-' else c) name

-- `module_path_to_name`, of the last component of the path
unfoldable pub module_path_to_name : Text → Text
unfolding normalize_module_name partition
module_path_to_name name = normalize_module_name (partition b'.' name).before

-- `filter_kernel_modules` on the paths below modules/<version>/kernel, for what the two regular
-- expressions find: none where `include` or `exclude` is empty.
abbrev searches : Option (Text → Bool) → Text → Bool
searches none rel = false
searches (some search) rel = search rel

unfoldable pub filter_kernel_modules :
    Option (Text → Bool) → Option (Text → Bool) → List Text → List Text
filter_kernel_modules include exclude [] = []
filter_kernel_modules include exclude (rel ∷ modules) =
    let rest = filter_kernel_modules include exclude modules in
    if not (searches include rel) && searches exclude rel then rest else rel ∷ rest
  where
    not : Bool → Bool
    not b = if b then false else true

-- The local variables of the loop over what `modinfo` printed.
pub record Info : Type 0 where
  pub moddep : Dict (List Text)
  pub firmwaredep : Dict (List Text)
  pub depends : List Text
  pub firmware : List Text

-- Key and value: by the first ":", else by the first "=".
abbrev or_equals : Text → Partition → Text × Text
or_equals line p = elim p.behind [ none ↦ by_equals (partition b'=' line) | some v ↦ (p.before, v) ]
  where
    by_equals : Partition → Text × Text
    by_equals q = elim q.behind [ none ↦ (q.before, []) | some v ↦ (q.before, v) ]

unfoldable pub key_value : Text → Text × Text
unfolding partition
key_value line = or_equals line (partition b':' line)

-- `[normalize_module_name(d) for d in value.strip().split(",") if d]`
unfoldable pub normalized : List Text → List Text
unfolding normalize_module_name
normalized [] = []
normalized (d ∷ ds) = if is_empty d then normalized ds else normalize_module_name d ∷ normalized ds

-- `glob value` is `(root / "usr/lib/firmware").glob(f"{value}*")`.
module _ (glob : Text → List Text) where
  unfoldable pub info_line : Text × Text → Info → Info
  unfolding normalized split strip insert
  info_line (key, value) i =
      if text_eq key (lit "depends") || text_eq key (lit "softdep")
      then record i { depends = i.depends ++ normalized (split b',' (strip value)) }
      else if text_eq key (lit "firmware")
      then record i { firmware = i.firmware ++ glob (strip value) }
      else if text_eq key (lit "name")
      then record {
        moddep = insert (normalize_module_name (strip value)) i.depends i.moddep;
        firmwaredep = insert (normalize_module_name (strip value)) i.firmware i.firmwaredep;
        depends = [];
        firmware = [];
      }
      else i

  unfoldable pub read_lines : List Text → Info → Info
  unfolding info_line key_value
  read_lines [] i = i
  read_lines (line ∷ lines) i = read_lines lines (info_line (key_value line) i)

  unfoldable pub read_info : Text → Info
  unfolding read_lines
  read_info info =
      read_lines (split 0 info)
        (record { moddep = []; firmwaredep = []; depends = []; firmware = [] })

-- `d.get(m, [])`
unfoldable pub get_list : Dict (List Text) → Text → List Text
unfolding lookup
get_list d m = elim (lookup m d) [ none ↦ [] | some xs ↦ xs ]

-- The variables of `while todo`; `todo` has its end, from which it is popped, in front.
pub record Required : Type 0 where
  pub todo : List Text
  pub mods : List Text
  pub firmware : List Text

abbrev pub onto : List Text → List Text → List Text
onto [] todo = todo
onto (d ∷ ds) todo = onto ds (d ∷ todo)

unfoldable pub require : Info → Text → List Text → List Text → List Text → Required
unfolding get_list contains
require i m todo mods firmware =
    if contains mods m then record { todo = todo; mods = mods; firmware = firmware } else record {
      todo = onto (get_list i.moddep m) todo;
      mods = m ∷ mods;
      firmware = get_list i.firmwaredep m ++ firmware;
    }

unfoldable pub require_all : ℕ → Info → (todo mods firmware : List Text) → Result Required
unfolding require
require_all fuel i [] mods firmware = ok (record { todo = []; mods = mods; firmware = firmware })
require_all zero i (m ∷ todo) mods firmware = failed out_of_fuel
require_all (suc fuel) i (m ∷ todo) mods firmware =
    let r = require i m todo mods firmware in require_all fuel i r.todo r.mods r.firmware

-- `todo`, from `[*builtin, *modules]` on, with as many rounds as there are names to put into it.
unfoldable pub required_modules : Info → List Text → List Text → Result Required
unfolding require_all
required_modules i builtin modules =
    require_all (length (onto (builtin ++ modules) []) + unvisited i.moddep []) i
      (onto (builtin ++ modules) []) [] []

-- The files of the modules that have one.
unfoldable pub files_of : Dict Text → List Text → List Text
unfolding lookup
files_of nametofile [] = []
files_of nametofile (m ∷ mods) =
    let rest = files_of nametofile mods in
    elim (lookup m nametofile) [ none ↦ rest | some f ↦ f ∷ rest ]

-- `resolve_module_dependencies`, from the names of the built-in modules, the files by their names,
-- and what `modinfo` printed
unfoldable pub resolve_module_dependencies :
    (Text → List Text) → List Text → Dict Text → Text → List Text → Result (List Text × List Text)
unfolding required_modules read_info files_of
resolve_module_dependencies glob builtin nametofile info modules =
    elim (required_modules (read_info glob info) builtin modules) [
      | failed e ↦ failed e
      | ok r ↦ ok (files_of nametofile r.mods, r.firmware)
    ]
