-- ===== src/Config/Images/Order.antt =====
-- The order of the images that `resolve_deps` returns.
use mkosi.Base.{
  ℕ, ◌≤◌, ◌<◌, ◌≡◌, refl, sym, ap, ◌∙◌, true, false, Option, some, List, [], ◌∷◌, map, All, leb,
  inl, inr, Bool-cases, Option-cases, arith, all,
}
use mkosi.Base.Text.{Text}
use mkosi.Base.Dict.{contains, lookup, merge}
use mkosi.Base.Dict.Distinct.{distinct, keys, dict_found}
use mkosi.Base.Result.{Result, ok, failed, ◌>>=◌}
use mkosi.Config.Images.{
  Image, Graph, graph_of, index, keyed, insert_keyed, sort_keyed, ordered, selected, select_images,
  resolve_deps, included,
}

abbrev pub names_of_images : List Image → List Text
names_of_images images = map (λ i. i.image) images

-- No image stands before one of its dependencies.
abbrev pub DependenciesFirst : List Image → Type 0
DependenciesFirst [] = Unit
DependenciesFirst (i ∷ is) =
    All (λ j. contains i.dependencies j.image ≡ false) is × DependenciesFirst is

-- What `graphlib` documents of `static_order`: the dependencies of a node come before the node.
pub record IsTopological (static_order : Graph → Option (List Text)) : Type 0 where
  pub before :
      (graph : Graph) {order : List Text} (j k : Text) {ds : List Text}
      → static_order graph ≡ some order
      → lookup j graph ≡ some ds
      → contains ds k ≡ true
      → (a : ℕ) × (b : ℕ) × (index order k ≡ some a) × (index order j ≡ some b) × (a < b)

abbrev Ascending : List (ℕ × Image) → Type 0
Ascending [] = Unit
Ascending (i ∷ is) = All (λ j. i.0 ≤ j.0) is × Ascending is

module _ (P : ℕ × Image → Type 0) where
  insert_keyed-All :
      (i : ℕ × Image) (is : List (ℕ × Image)) → P i → All P is → All P (insert_keyed i is)
  unfolding insert_keyed
  insert_keyed-All i [] p h = (p, tt)
  insert_keyed-All i (j ∷ js) p h = elim (Bool-cases (leb i.0 j.0)) [
    | inl e ↦ rw e (p, h)
    | inr e ↦ rw e (h.0, insert_keyed-All i js p h.1)
  ]

  sort_keyed-All : (is : List (ℕ × Image)) → All P is → All P (sort_keyed is)
  unfolding sort_keyed
  sort_keyed-All [] h = tt
  sort_keyed-All (i ∷ is) h = insert_keyed-All i (sort_keyed is) h.0 (sort_keyed-All is h.1)

All-weaken :
    (m n : ℕ) (is : List (ℕ × Image)) → m ≤ n → All (λ j. n ≤ j.0) is → All (λ j. m ≤ j.0) is
All-weaken m n [] l h = tt
All-weaken m n (i ∷ is) l h = (omega (arith, l, h.0), All-weaken m n is l h.1)

insert_keyed-Ascending :
    (i : ℕ × Image) (is : List (ℕ × Image)) → Ascending is → Ascending (insert_keyed i is)
unfolding insert_keyed
insert_keyed-Ascending i [] h = (tt, tt)
insert_keyed-Ascending i (j ∷ js) h = elim (Bool-cases (leb i.0 j.0)) [
  | inl e ↦ rw e ((ground (arith, e), All-weaken i.0 j.0 js (ground (arith, e)) h.0), h)
  | inr e ↦ rw e (
    insert_keyed-All (λ k. j.0 ≤ k.0) i js (ground (arith, e)) h.0,
    insert_keyed-Ascending i js h.1,
  )
]

sort_keyed-Ascending : (is : List (ℕ × Image)) → Ascending (sort_keyed is)
unfolding sort_keyed
sort_keyed-Ascending [] = tt
sort_keyed-Ascending (i ∷ is) = insert_keyed-Ascending i (sort_keyed is) (sort_keyed-Ascending is)

module _ (graph : Graph) (order : List Text) where
  -- The key is the index, and the image is the one that the graph has under its name.
  abbrev IsKeyed : ℕ × Image → Type 0
  IsKeyed p = (index order p.1.image ≡ some p.0) × (lookup p.1.image graph ≡ some p.1.dependencies)

  keyed-All :
      (images : List Image) {is : List (ℕ × Image)}
      → All (λ i. lookup i.image graph ≡ some i.dependencies) images
      → keyed order images ≡ ok is
      → All IsKeyed is
  unfolding keyed
  keyed-All [] h e = rw (sym (value e)) tt
    where
      value : {a b : List (ℕ × Image)} → ok a ≡ ok b → a ≡ b
      value p = cc p
  keyed-All (i ∷ images) h e = elim (Option-cases (index order i.image)) [
    | inl n ↦ absurd (cc (rw (n, keyed) at e))
    | inr (m, n) ↦
        push m n (keyed order images) (λ rest k. keyed-All images h.1 k) (rw (n, keyed) at e)
  ]
    where
      value : {a b : List (ℕ × Image)} → ok a ≡ ok b → a ≡ b
      value q = cc q

      push :
          (m : ℕ)
          → index order i.image ≡ some m
          → (r : Result (List (ℕ × Image)))
          → ((rest : List (ℕ × Image)) → r ≡ ok rest → All IsKeyed rest)
          → {is : List (ℕ × Image)} → (r >>= λ rest. ok ((m, i) ∷ rest)) ≡ ok is
          → All IsKeyed is
      push m n (failed q) k p = cc p
      push m n (ok rest) k p = rw (sym (value p)) ((n, h.0), k rest refl)

  module _ (static_order : Graph → Option (List Text)) (topological : IsTopological static_order)
      (is_order : static_order graph ≡ some order) where
    not_before :
        (i j : ℕ × Image)
        → IsKeyed i
        → IsKeyed j
        → i.0 ≤ j.0
        → contains i.1.dependencies j.1.image ≡ false
    not_before i j h k l = elim (Bool-cases (contains i.1.dependencies j.1.image)) [
      | inl c ↦
          let b = topological.before graph i.1.image j.1.image is_order h.1 c in
          absurd (ground (arith, l, b, h, k))
      | inr c ↦ c
    ]

    none_before :
        (i : ℕ × Image) (is : List (ℕ × Image))
        → IsKeyed i
        → All IsKeyed is
        → All (λ j. i.0 ≤ j.0) is
        → All (λ j. contains i.1.dependencies j.image ≡ false) (map (λ p. p.1) is)
    none_before i [] h k l = tt
    none_before i (j ∷ js) h k l = (not_before i j h k.0 l.0, none_before i js h k.1 l.1)

    Ascending-DependenciesFirst :
        (is : List (ℕ × Image))
        → All IsKeyed is
        → Ascending is
        → DependenciesFirst (map (λ p. p.1) is)
    Ascending-DependenciesFirst [] h l = tt
    Ascending-DependenciesFirst (i ∷ is) h l =
        (none_before i is h.0 h.1 l.0, Ascending-DependenciesFirst is h.1 l.1)

images_found :
    (images : List Image)
    → distinct (names_of_images images) ≡ true
    → All (λ i. lookup i.image (graph_of images) ≡ some i.dependencies) images
unfolding graph_of
images_found images h =
    apart (merge [] (map (λ i. (i.image, i.dependencies)) images)) images
      (dict_found (map (λ i. (i.image, i.dependencies)) images) (ap distinct (same images) ∙ h))
  where
    same : (is : List Image) → keys (map (λ i. (i.image, i.dependencies)) is) ≡ names_of_images is
    same [] = refl
    same (i ∷ is) = ap (λ ks. i.image ∷ ks) (same is)

    apart :
        (g : Graph) (is : List Image)
        → All
            (λ (p : Text × List Text). lookup p.0 g ≡ some p.1)
            (map (λ i. (i.image, i.dependencies)) is)
        → All (λ i. lookup i.image g ≡ some i.dependencies) is
    apart g [] h = tt
    apart g (i ∷ is) h = (h.0, apart g is h.1)

selected-contains :
    (deps : List Text) (images : List Image) (k : Text)
    → contains (names_of_images images) k ≡ false
    → contains (names_of_images (selected deps images)) k ≡ false
unfolding contains
selected-contains deps [] k h = refl
selected-contains deps (i ∷ images) k h = ground (arith, h, selected-contains deps images k)

selected-distinct :
    (deps : List Text) (images : List Image)
    → distinct (names_of_images images) ≡ true
    → distinct (names_of_images (selected deps images)) ≡ true
unfolding distinct
selected-distinct deps [] h = refl
selected-distinct deps (i ∷ images) h =
    ground (arith, h, selected-contains deps images i.image, selected-distinct deps images)

module _ (static_order : Graph → Option (List Text))
    (topological : IsTopological static_order) where
  ordered-DependenciesFirst :
      (images out : List Image)
      → distinct (names_of_images images) ≡ true
      → ordered static_order images ≡ ok out
      → DependenciesFirst out
  unfolding ordered
  ordered-DependenciesFirst images out d e = elim (Option-cases (static_order (graph_of images))) [
    | inl n ↦ absurd (cc (rw (n, ordered) at e))
    | inr (order, o) ↦ sorted order o (keyed order images) refl (rw (o, ordered) at e)
  ]
    where
      value : {a b : List Image} → ok a ≡ ok b → a ≡ b
      value q = cc q

      sorted :
          (order : List Text)
          → static_order (graph_of images) ≡ some order
          → (r : Result (List (ℕ × Image))) → keyed order images ≡ r
          → (r >>= λ is. ok (map (λ i. i.1) (sort_keyed is))) ≡ ok out
          → DependenciesFirst out
      sorted order o (failed q) k p = cc p
      sorted order o (ok is) k p =
          let h = keyed-All (graph_of images) order images (images_found images d) k in
          rw (sym (value p)) (
            Ascending-DependenciesFirst (graph_of images) order static_order topological o
              (sort_keyed is) (sort_keyed-All (IsKeyed (graph_of images) order) is h)
              (sort_keyed-Ascending is))

  -- With an order in which dependencies come first, and no name that two images share, no image that
  -- `resolve_deps` returns stands before one of its dependencies.
  pub resolve_deps-DependenciesFirst :
      (images : List Image) (include : List Text) (out : List Image)
      → distinct (names_of_images images) ≡ true
      → resolve_deps static_order images include ≡ ok out
      → DependenciesFirst out
  unfolding resolve_deps select_images
  resolve_deps-DependenciesFirst images [] out d e = ordered-DependenciesFirst images out d e
  resolve_deps-DependenciesFirst images (i ∷ include) out d e =
      elim (Bool-cases (all (λ j. contains (map (λ e. e.0) (graph_of images)) j) (i ∷ include))) [
        | inl a ↦ from (included (graph_of images) (i ∷ include)) (rw a at e)
        | inr a ↦ absurd (cc (rw a at e))
      ]
    where
      from :
          (r : Result (List Text))
          → ((r >>= λ deps. ok (selected deps images)) >>= ordered static_order) ≡ ok out
          → DependenciesFirst out
      from (failed q) p = cc p
      from (ok deps) p =
          ordered-DependenciesFirst (selected deps images) out (selected-distinct deps images d) p
