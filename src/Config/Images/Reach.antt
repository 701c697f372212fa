-- ===== src/Config/Images/Reach.antt =====
-- Which images `resolve_deps` selects.
use mkosi.Base.{
  ℕ, zero, suc, ◌+◌, ◌≡◌, ◌↔◌, sym, true, ◌||◌, some, List, [], ◌∷◌, ◌++◌, length, inl, inr,
  Bool-cases, Option-cases, arith,
}
use mkosi.Base.Text.{Text, text_eq, text_eq_iff, text_eq_refl}
use mkosi.Base.Dict.{contains, lookup}
use mkosi.Base.Dict.Distinct.{contains-append}
use mkosi.Base.Result.{ok}
use mkosi.Config.Images.{Graph, visit, visit_all, included}
use mkosi.Base.Dict.Unvisited.{unvisited}

-- The names that one gets to from the included ones by dependencies.
pub data Reachable (graph : Graph) (include : List Text) : Text → Type 0 where
  root : {k : Text} → contains include k ≡ true → Reachable graph include k
  edge :
      {j k : Text} {ds : List Text}
      → Reachable graph include j
      → lookup j graph ≡ some ds
      → contains ds k ≡ true
      → Reachable graph include k

module _ (graph : Graph) (include : List Text) where
  abbrev AreReachable : List Text → Type 0
  AreReachable ks = (k : Text) → contains ks k ≡ true → Reachable graph include k

  dependencies-AreReachable :
      (i : Text) {ds : List Text}
      → Reachable graph include i
      → lookup i graph ≡ some ds
      → AreReachable ds
  dependencies-AreReachable i r e k h = edge r e h

  append-AreReachable :
      (js ks : List Text) → AreReachable js → AreReachable ks → AreReachable (js ++ ks)
  append-AreReachable js ks h l k e = elim (Bool-cases (contains js k)) [
    | inl c ↦ h k c
    | inr c ↦ l k (ground (arith, contains-append js ks k, e, c))
  ]

  cons-AreReachable :
      (i : Text) (ks : List Text)
      → Reachable graph include i
      → AreReachable ks
      → AreReachable (i ∷ ks)
  unfolding contains
  cons-AreReachable i ks r h k e = elim (Bool-cases (text_eq i k)) [
    | inl c ↦ rw (sym ((text_eq_iff i k).0 c)) r
    | inr c ↦ h k (rw c at e)
  ]

  visit_all-AreReachable :
      (fuel : ℕ) (queue deps : List Text) {r : List Text}
      → AreReachable queue
      → AreReachable deps
      → visit_all fuel graph queue deps ≡ ok r
      → AreReachable r
  unfolding visit_all visit contains
  visit_all-AreReachable fuel [] deps q d e = rw (sym (value e)) d
    where
      value : {a b : List Text} → ok a ≡ ok b → a ≡ b
      value p = cc p
  visit_all-AreReachable zero (i ∷ queue) deps q d e = cc e
  visit_all-AreReachable (suc n) (i ∷ queue) deps q d e = elim (Bool-cases (contains deps i)) [
    | inl c ↦ visit_all-AreReachable n queue deps (λ k h. q k (ground (arith, h))) d (rw c at e)
    | inr c ↦ elim (Option-cases (lookup i graph)) [
      | inl l ↦ absurd (cc (rw (c, l) at e))
      | inr (ds, l) ↦
          visit_all-AreReachable n (queue ++ ds) (i ∷ deps)
            (append-AreReachable queue ds (λ k h. q k (ground (arith, h)))
              (dependencies-AreReachable i (q i (ground (arith, text_eq_refl i))) l))
            (cons-AreReachable i deps (q i (ground (arith, text_eq_refl i))) d) (rw (c, l) at e)
    ]
  ]

  -- The set and the queue hold what is included, and the dependencies of what is in the set.
  record IsCovered (queue deps : List Text) : Type 0 where
    roots : (k : Text) → contains include k ≡ true → (contains deps k || contains queue k) ≡ true
    closed :
        (j k : Text) {ds : List Text}
        → contains deps j ≡ true
        → lookup j graph ≡ some ds
        → contains ds k ≡ true
        → (contains deps k || contains queue k) ≡ true

  skip-IsCovered :
      (i : Text) (queue deps : List Text)
      → contains deps i ≡ true
      → IsCovered (i ∷ queue) deps
      → IsCovered queue deps
  unfolding contains
  skip-IsCovered i queue deps c h = record {
    roots = λ k r. ground (arith, h.roots k r, c, text_eq_iff i k);
    closed = λ j k d l e. ground (arith, h.closed j k d l e, c, text_eq_iff i k);
  }

  visit-IsCovered :
      (i : Text) (queue deps : List Text) (ds : List Text)
      → lookup i graph ≡ some ds
      → IsCovered (i ∷ queue) deps
      → IsCovered (queue ++ ds) (i ∷ deps)
  unfolding contains
  visit-IsCovered i queue deps ds l h = record {
    roots = λ k r. ground (arith, h.roots k r, contains-append queue ds k);
    closed = λ j k d m e. elim (Bool-cases (text_eq i j)) [
      | inl c ↦ ground (arith, contains-append queue ds k, own j k c m e)
      | inr c ↦ ground (arith, h.closed j k (rw c at d) m e, contains-append queue ds k)
    ];
  }
    where
      own :
          (j k : Text) {es : List Text}
          → text_eq i j ≡ true
          → lookup j graph ≡ some es
          → contains es k ≡ true
          → contains ds k ≡ true
      own j k c m e = cc ((text_eq_iff i j).0 c, l, m, e)

  visit_all-IsCovered :
      (fuel : ℕ) (queue deps : List Text) {r : List Text}
      → IsCovered queue deps
      → visit_all fuel graph queue deps ≡ ok r
      → IsCovered [] r
  unfolding visit_all visit
  visit_all-IsCovered fuel [] deps h e = rw (sym (value e)) h
    where
      value : {a b : List Text} → ok a ≡ ok b → a ≡ b
      value p = cc p
  visit_all-IsCovered zero (i ∷ queue) deps h e = cc e
  visit_all-IsCovered (suc n) (i ∷ queue) deps h e = elim (Bool-cases (contains deps i)) [
    | inl c ↦ visit_all-IsCovered n queue deps (skip-IsCovered i queue deps c h) (rw c at e)
    | inr c ↦ elim (Option-cases (lookup i graph)) [
      | inl l ↦ absurd (cc (rw (c, l) at e))
      | inr (ds, l) ↦
          visit_all-IsCovered n (queue ++ ds) (i ∷ deps) (visit-IsCovered i queue deps ds l h)
            (rw (c, l) at e)
    ]
  ]

  covered-Reachable :
      (r : List Text) (k : Text) → IsCovered [] r → Reachable graph include k → contains r k ≡ true
  unfolding contains
  covered-Reachable r k h (root c) = ground (arith, h.roots k c)
  covered-Reachable r k h (edge {j} p l e) =
      ground (arith, h.closed j k (covered-Reachable r j h p) l e)

  -- The set of `resolve_deps` holds just the names that one gets to from the included ones.
  pub included-Reachable :
      (deps : List Text)
      → included graph include ≡ ok deps
      → (k : Text) → (contains deps k ≡ true) ↔ Reachable graph include k
  unfolding included contains
  included-Reachable deps e k = (
    visit_all-AreReachable (length include + unvisited graph []) include [] (λ k h. root h)
        (λ k h. absurd (ground (arith, h))) e k,
    covered-Reachable deps k (
        visit_all-IsCovered (length include + unvisited graph []) include []
          (record { roots = λ k h. h; closed = λ j k d l e. absurd (ground (arith, d)) }) e),
  )
