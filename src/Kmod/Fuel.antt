-- ===== src/Kmod/Fuel.antt =====
-- The rounds of `while todo` in `resolve_module_dependencies`.
use mkosi.Base.{
  ℕ, zero, suc, ◌+◌, ◌≤◌, ◌≡◌, ◌≢◌, false, List, [], ◌∷◌, ◌++◌, length, inl, inr, Bool-cases,
  Option-cases, arith,
}
use mkosi.Base.Text.{Text}
use mkosi.Base.Dict.{Dict, contains, lookup}
use mkosi.Base.Dict.Unvisited.{unvisited, unvisited_mono, unvisited-visit}
use mkosi.Base.Result.{failed, out_of_fuel}
use mkosi.Kmod.{Info, get_list, onto, require, require_all, required_modules}

length-onto : (ds todo : List Text) → length (onto ds todo) ≡ length ds + length todo
length-onto [] todo = omega arith
length-onto (d ∷ ds) todo = omega (arith, length-onto ds (d ∷ todo))

unvisited-get_list :
    (graph : Dict (List Text)) (m : Text) (mods : List Text)
    → contains mods m ≡ false
    → unvisited graph (m ∷ mods) + length (get_list graph m) ≤ unvisited graph mods
unfolding get_list
unvisited-get_list graph m mods n = elim (Option-cases (lookup m graph)) [
  | inl l ↦ rw (l, get_list) (omega (arith, unvisited_mono graph m mods))
  | inr (ds, l) ↦ rw (l, get_list) (unvisited-visit graph m mods l n)
]

require_all-ends :
    (fuel : ℕ) (i : Info) (todo mods fw : List Text)
    → length todo + unvisited i.moddep mods ≤ fuel
    → require_all fuel i todo mods fw ≢ failed out_of_fuel
unfolding require_all require
require_all-ends fuel i [] mods fw h = λ q. cc q
require_all-ends zero i (m ∷ todo) mods fw h = absurd (omega (arith, h))
require_all-ends (suc n) i (m ∷ todo) mods fw h = elim (Bool-cases (contains mods m)) [
  | inl c ↦ rw (c, require_all) (require_all-ends n i todo mods fw (omega (arith, h)))
  | inr c ↦
      rw (c, require_all)
        (require_all-ends n i (onto (get_list i.moddep m) todo) (m ∷ mods)
          (get_list i.firmwaredep m ++ fw)
          (omega (
            arith,
            h,
            length-onto (get_list i.moddep m) todo,
            unvisited-get_list i.moddep m mods c,
          )))
]

-- The loop over the modules ends within the rounds that the model gives it, also where modules
-- depend on each other.
pub required_modules-ends :
    (i : Info) (builtin modules : List Text)
    → required_modules i builtin modules ≢ failed out_of_fuel
unfolding required_modules
required_modules-ends i builtin modules =
    require_all-ends (length (onto (builtin ++ modules) []) + unvisited i.moddep []) i
      (onto (builtin ++ modules) []) [] [] (omega arith)
