-- ===== src/Match/Meaning.antt =====
-- What the match sections of a file say, after the formula of mkosi/resources/mkosi.md:
-- (⋀ᵢ Matchᵢ) ∧ (⋁ᵢ TriggerMatchᵢ), where a section's normal conditions are joined by a logical AND,
-- its triggering conditions by a logical OR, and no sections or conditions of a kind are true.
use mkosi.Base.{Bool, true, false, not, ◌&&◌, ◌||◌, List, [], ◌∷◌, ◌++◌, map, all, any, ◌≡◌}
use mkosi.Base.Text.{Text, lit}
use mkosi.Ini.{Entry, is_empty}
use mkosi.Match.{condition, negated, is_match_section, is_trigger_section}

pub data Kind : Type 0 where
  match trigger_match : Kind

abbrev pub kind_name : Kind → Text
kind_name match = lit "Match"
kind_name trigger_match = lit "TriggerMatch"

abbrev pub is_trigger_kind : Kind → Bool
is_trigger_kind match = false
is_trigger_kind trigger_match = true

-- One line `setting=value`.
pub record Line : Type 0 where
  pub setting : Text
  pub value : Text

pub record Group : Type 0 where
  pub kind : Kind
  pub lines : List Line

abbrev pub IsNamed : Line → Type 0
IsNamed l = is_empty l.setting ≡ false

abbrev pub line_entry : Kind → Line → Entry
line_entry k l = record { section = kind_name k; setting = l.setting; value = l.value }

abbrev pub group_end : Kind → Entry
group_end k = record { section = kind_name k; setting = []; value = [] }

abbrev pub group_entries : Group → List Entry
group_entries g = map (line_entry g.kind) g.lines

-- The end of a section, which `parse_ini` yields for sections that are not match sections too.
abbrev pub section_of : Text → Entry
section_of name = record { section = name; setting = []; value = [] }

abbrev pub IsOther : Text → Type 0
IsOther name = (is_match_section name ≡ false) × (is_trigger_section name ≡ false)

-- A match section with its end, or the end of another section, whose settings the filter hides.
pub data Block : Type 0 where
  ended : Group → Block
  other : (name : Text) → IsOther name → Block

abbrev pub block_entries : List Block → List Entry
block_entries [] = []
block_entries (ended g ∷ bs) = group_entries g ++ (group_end g.kind ∷ block_entries bs)
block_entries (other name o ∷ bs) = section_of name ∷ block_entries bs

abbrev pub groups : List Block → List Group
groups [] = []
groups (ended g ∷ bs) = g ∷ groups bs
groups (other name o ∷ bs) = groups bs

abbrev pub triggers : Line → Bool
triggers l = (condition l.value).trigger

-- `holds section setting value` is what a condition without "|" and "!" says.
module _ (holds : Text → Text → Text → Bool) where
  abbrev pub is_met : Kind → Line → Bool
  is_met k l =
      negated (condition l.value).negate (holds (kind_name k) l.setting (condition l.value).value)

  abbrev pub normal_hold : Kind → List Line → Bool
  normal_hold k = all (λ l. triggers l || is_met k l)

  abbrev pub triggers_hold : Kind → List Line → Bool
  triggers_hold k ls = not (any triggers ls) || any (λ l. triggers l && is_met k l) ls

  abbrev pub group_holds : Group → Bool
  group_holds g = normal_hold g.kind g.lines && triggers_hold g.kind g.lines

  unfoldable pub meaning : List Group → Bool
  meaning gs =
      all (λ g. is_trigger_kind g.kind || group_holds g) gs
      && (not (any (λ g. is_trigger_kind g.kind) gs)
          || any (λ g. is_trigger_kind g.kind && group_holds g) gs)
