-- ===== src/Config/Images/Fuel.antt =====
-- The rounds that the queue of `resolve_deps` takes.
use mkosi.Base.{
  ℕ, zero, suc, ◌+◌, ◌≤◌, ◌≢◌, List, [], ◌∷◌, ◌++◌, length, length-append, inl, inr, Bool-cases,
  Option-cases, arith,
}
use mkosi.Base.Text.{Text}
use mkosi.Base.Dict.{contains, lookup}
use mkosi.Base.Result.{failed, out_of_fuel}
use mkosi.Config.Images.{Graph, visit, visit_all, included}
use mkosi.Base.Dict.Unvisited.{unvisited, unvisited-visit}

-- Each round leaves less in the queue and to visit, so the loop ends.
visit_all-ends :
    (fuel : ℕ) (graph : Graph) (queue deps : List Text)
    → length queue + unvisited graph deps ≤ fuel
    → visit_all fuel graph queue deps ≢ failed out_of_fuel
unfolding visit_all visit
visit_all-ends fuel graph [] deps h = λ q. cc q
visit_all-ends zero graph (i ∷ queue) deps h = absurd (omega (arith, h))
visit_all-ends (suc n) graph (i ∷ queue) deps h = elim (Bool-cases (contains deps i)) [
  | inl c ↦ rw c (visit_all-ends n graph queue deps (omega (arith, h)))
  | inr c ↦ elim (Option-cases (lookup i graph)) [
    | inl e ↦ rw (c, e) (λ q. cc q)
    | inr (ds, e) ↦
        rw (c, e)
          (visit_all-ends n graph (queue ++ ds) (i ∷ deps)
            (omega (arith, h, length-append queue ds, unvisited-visit graph i deps e c)))
  ]
]

-- The queue of `resolve_deps` is worked off in as many rounds as there are names that can be put
-- into it, also where the dependencies have cycles.
pub included-ends :
    (graph : Graph) (include : List Text) → included graph include ≢ failed out_of_fuel
unfolding included
included-ends graph include =
    visit_all-ends (length include + unvisited graph []) graph include [] (omega arith)
