-- ===== src/Tests/Images.antt =====
-- `resolve_deps` of two images, in an order that is checked.
use mkosi.Base.{
  ℕ, ◌<◌, ◌≡◌, ◌↔◌, refl, sym, Bool, true, false, ◌&&◌, Option, some, none, List, ◌∷◌, [], all, ltb,
  inl, inr, Bool-cases, Option-cases, if◌then◌else◌, arith,
}
use mkosi.Base.Text.{Text, lit, text_eq, text_eq_iff}
use mkosi.Base.Dict.{contains, lookup, merge, insert}
use mkosi.Base.Dict.Distinct.{distinct}
use mkosi.Base.Result.{ok}
use mkosi.Config.Images.{
  Image, Graph, graph_of, index, included, visit_all, visit, select_images, ordered, keyed,
  sort_keyed, insert_keyed, resolve_deps,
}
use mkosi.Base.Dict.Unvisited.{unvisited}
use mkosi.Config.Images.Reach.{Reachable, included-Reachable}
use mkosi.Config.Images.Order.{IsTopological, DependenciesFirst, resolve_deps-DependenciesFirst}

-- Both have an index, and that of `k` is the lower one.
unfoldable lower_index : List Text → Text → Text → Bool
unfolding index
lower_index order j k = elim (index order k) [
  | none ↦ false
  | some a ↦ elim (index order j) [ none ↦ false | some b ↦ ltb a b ]
]

unfoldable has_order : List Text → Graph → Bool
unfolding lower_index
has_order order [] = true
has_order order ((j, ds) ∷ graph) = all (lower_index order j) ds && has_order order graph

abbrev base_first : List Text
base_first = lit "base" ∷ lit "app" ∷ []

-- The order of the two images, for the graphs that it fits.
unfoldable two_images : Graph → Option (List Text)
unfolding has_order
two_images graph = if has_order base_first graph then some base_first else none

lower_index_cases :
    (order : List Text) (j k : Text)
    → lower_index order j k ≡ true
    → (a : ℕ) × (b : ℕ) × (index order k ≡ some a) × (index order j ≡ some b) × (a < b)
unfolding lower_index
lower_index_cases order j k h = elim (Option-cases (index order k)) [
  | inl n ↦ absurd (ground (arith, rw (n, lower_index) at h))
  | inr (a, p) ↦ elim (Option-cases (index order j)) [
    | inl n ↦ absurd (ground (arith, rw (p, n, lower_index) at h))
    | inr (b, q) ↦ (a, b, p, q, ground (arith, rw (p, q, lower_index) at h))
  ]
]

all_contained :
    (p : Text → Bool) (ks : List Text) (k : Text)
    → all p ks ≡ true
    → contains ks k ≡ true
    → p k ≡ true
unfolding contains
all_contained p [] k h c = ground (arith, c)
all_contained p (j ∷ ks) k h c = elim (Bool-cases (text_eq j k)) [
  | inl e ↦ rw (sym ((text_eq_iff j k).0 e)) (ground (arith, h))
  | inr e ↦ all_contained p ks k (ground (arith, h)) (rw e at c)
]

order-lookup :
    (order : List Text) (graph : Graph) (j : Text) {ds : List Text}
    → has_order order graph ≡ true
    → lookup j graph ≡ some ds
    → all (lower_index order j) ds ≡ true
unfolding has_order lookup
order-lookup order [] j h l = cc l
order-lookup order ((i, es) ∷ graph) j h l = elim (Bool-cases (text_eq i j)) [
  | inl e ↦ rw (sym ((text_eq_iff i j).0 e), sym (value (rw e at l))) (ground (arith, h))
  | inr e ↦ order-lookup order graph j (ground (arith, h)) (rw e at l)
]
  where
    value : {a b : List Text} → some a ≡ some b → a ≡ b
    value q = cc q

two_images-IsTopological : IsTopological two_images
unfolding two_images
two_images-IsTopological = record { before = λ graph j k o l c. before graph j k o l c }
  where
    before :
        (graph : Graph) {order : List Text} (j k : Text) {ds : List Text}
        → two_images graph ≡ some order
        → lookup j graph ≡ some ds
        → contains ds k ≡ true
        → (a : ℕ) × (b : ℕ) × (index order k ≡ some a) × (index order j ≡ some b) × (a < b)
    before graph {order} j k {ds} o l c = elim (Bool-cases (has_order base_first graph)) [
      | inl h ↦ rw (sym (value (rw (h, two_images) at o))) (
          lower_index_cases base_first j k
            (all_contained (lower_index base_first j) ds k (order-lookup base_first graph j h l) c))
      | inr h ↦ absurd (cc (rw (h, two_images) at o))
    ]
      where
        value : {a b : List Text} → some a ≡ some b → a ≡ b
        value q = cc q

abbrev app : Image
app = record { image = lit "app"; dependencies = lit "base" ∷ [] }

abbrev base : Image
base = record { image = lit "base"; dependencies = [] }

abbrev other : Image
other = record { image = lit "other"; dependencies = [] }

resolves : resolve_deps two_images (app ∷ other ∷ base ∷ []) (lit "app" ∷ []) ≡ ok (base ∷ app ∷ [])
unfolding resolve_deps select_images ordered keyed sort_keyed insert_keyed graph_of included
    visit_all visit unvisited contains lookup merge insert two_images has_order lower_index index
    text_eq
resolves = refl

distinct_images : distinct (lit "app" ∷ lit "other" ∷ lit "base" ∷ []) ≡ true
unfolding distinct text_eq
distinct_images = refl

resolve_deps-DependenciesFirst_example : DependenciesFirst (base ∷ app ∷ [])
resolve_deps-DependenciesFirst_example =
    resolve_deps-DependenciesFirst two_images two_images-IsTopological (app ∷ other ∷ base ∷ [])
      (lit "app" ∷ []) (base ∷ app ∷ []) distinct_images resolves

abbrev cycle : Graph
cycle = (lit "a", lit "b" ∷ []) ∷ (lit "b", lit "a" ∷ []) ∷ (lit "c", []) ∷ []

includes_both : included cycle (lit "a" ∷ []) ≡ ok (lit "b" ∷ lit "a" ∷ [])
unfolding included visit_all visit unvisited contains lookup text_eq
includes_both = refl

included-Reachable_example :
    (contains (lit "b" ∷ lit "a" ∷ []) (lit "c") ≡ true) ↔ Reachable cycle (lit "a" ∷ []) (lit "c")
included-Reachable_example =
    included-Reachable cycle (lit "a" ∷ []) (lit "b" ∷ lit "a" ∷ []) includes_both (lit "c")
