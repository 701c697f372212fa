-- ===== src/Config/Images.antt =====
-- `resolve_deps` of mkosi/config.py: which images are built, and in which order. The order itself is
-- that of `graphlib.TopologicalSorter`, a parameter.
pub mod Fuel
pub mod Reach
pub mod Order
use mkosi.Base.{
  ℕ, zero, suc, ◌+◌, ◌<◌, Bool, true, false, not, ◌&&◌, ◌||◌, Option, none, some, List, [], ◌∷◌,
  ◌++◌, map, all, length, ◌==◌, ltb, leb, if◌then◌else◌,
}
use mkosi.Base.Text.{Text, lit, text_eq}
use mkosi.Base.Dict.{Dict, contains, lookup, merge}
use mkosi.Base.Dict.Unvisited.{unvisited}
use mkosi.Base.Result.{Result, ok, failed, die, key_error, value_error, out_of_fuel, ◌>>=◌}

-- `image` and `dependencies` of a namespace.
pub record Image : Type 0 where
  pub image : Text
  pub dependencies : List Text

abbrev pub Graph : Type 0
Graph = Dict (List Text)

-- `{config.image: config.dependencies for config in images}`
unfoldable pub graph_of : List Image → Graph
unfolding merge
graph_of images = merge [] (map (λ i. (i.image, i.dependencies)) images)

-- A round of `while queue`: the queue and the set behind it.
unfoldable pub visit : Graph → Text → List Text → List Text → Result (List Text × List Text)
unfolding contains lookup
visit graph image queue deps =
    if contains deps image then ok (queue, deps) else elim (lookup image graph) [
      | none ↦ failed key_error
      | some ds ↦ ok (queue ++ ds, image ∷ deps)
    ]

unfoldable pub visit_all : ℕ → Graph → List Text → List Text → Result (List Text)
unfolding visit
visit_all fuel graph [] deps = ok deps
visit_all zero graph (image ∷ queue) deps = failed out_of_fuel
visit_all (suc fuel) graph (image ∷ queue) deps =
    visit graph image queue deps >>= λ s. visit_all fuel graph s.0 s.1

-- `deps`: as many rounds as there are names to put into the queue.
unfoldable pub included : Graph → List Text → Result (List Text)
unfolding visit_all unvisited
included graph include = visit_all (length include + unvisited graph []) graph include []

abbrev pub selected : List Text → List Image → List Image
selected deps [] = []
selected deps (i ∷ images) =
    if contains deps i.image then i ∷ selected deps images else selected deps images

unfoldable pub select_images : List Image → List Text → Result (List Image)
unfolding included graph_of
select_images images [] = ok images
select_images images (i ∷ include) =
    if all (λ j. contains (map (λ e. e.0) (graph_of images)) j) (i ∷ include)
    then (included (graph_of images) (i ∷ include) >>= λ deps. ok (selected deps images))
    else failed (die (lit "No image found with name"))

-- `order.index(name)`
unfoldable pub index : List Text → Text → Option ℕ
index [] name = none
index (x ∷ xs) name =
    if text_eq x name then some 0 else elim (index xs name) [ none ↦ none | some n ↦ some (suc n) ]

-- The images with their keys.
unfoldable pub keyed : List Text → List Image → Result (List (ℕ × Image))
unfolding index
keyed order [] = ok []
keyed order (i ∷ images) = elim (index order i.image) [
  | none ↦ failed value_error
  | some n ↦ keyed order images >>= λ rest. ok ((n, i) ∷ rest)
]

-- `sorted(images, key=...)`: a stable insertion.
unfoldable pub insert_keyed : ℕ × Image → List (ℕ × Image) → List (ℕ × Image)
insert_keyed i [] = i ∷ []
insert_keyed i (j ∷ js) = if leb i.0 j.0 then i ∷ j ∷ js else j ∷ insert_keyed i js

unfoldable pub sort_keyed : List (ℕ × Image) → List (ℕ × Image)
unfolding insert_keyed
sort_keyed [] = []
sort_keyed (i ∷ is) = insert_keyed i (sort_keyed is)

-- `list(graphlib.TopologicalSorter(graph).static_order())`, where `none` is its `CycleError`
module _ (static_order : Graph → Option (List Text)) where
  unfoldable pub ordered : List Image → Result (List Image)
  unfolding graph_of keyed sort_keyed
  ordered images = elim (static_order (graph_of images)) [
    | none ↦ failed (die (lit "Image dependency cycle detected"))
    | some order ↦ keyed order images >>= λ is. ok (map (λ i. i.1) (sort_keyed is))
  ]

  unfoldable pub resolve_deps : List Image → List Text → Result (List Image)
  unfolding select_images ordered
  resolve_deps images include = select_images images include >>= ordered
