-- ===== src/Base/Dict/Unvisited.antt =====
-- What a worklist can still be given, by a dictionary of the names that each name adds to it.
use mkosi.Base.{
  ℕ, ◌+◌, ◌≤◌, ◌≡◌, false, some, List, [], ◌∷◌, length, inl, inr, Bool-cases, if◌then◌else◌, arith,
}
use mkosi.Base.Text.{Text, text_eq, text_eq_iff}
use mkosi.Base.Dict.{Dict, contains, lookup}

-- The names that the names outside the set add.
unfoldable pub unvisited : Dict (List Text) → List Text → ℕ
unfolding contains
unvisited [] deps = 0
unvisited ((k, ds) ∷ graph) deps = (if contains deps k then 0 else length ds) + unvisited graph deps

-- One name more in the set leaves no more to visit.
pub unvisited_mono :
    (graph : Dict (List Text)) (i : Text) (deps : List Text)
    → unvisited graph (i ∷ deps) ≤ unvisited graph deps
unfolding unvisited contains
unvisited_mono [] i deps = omega arith
unvisited_mono ((k, ds) ∷ graph) i deps = ground (arith, unvisited_mono graph i deps)

pub unvisited-visit :
    (graph : Dict (List Text)) (i : Text) (deps : List Text) {ds : List Text}
    → lookup i graph ≡ some ds
    → contains deps i ≡ false
    → unvisited graph (i ∷ deps) + length ds ≤ unvisited graph deps
unfolding unvisited lookup contains
unvisited-visit [] i deps h n = cc h
unvisited-visit ((k, es) ∷ graph) i deps h n = elim (Bool-cases (text_eq k i)) [
  | inl e ↦ ground (arith, h, n, e, text_eq_iff k i, unvisited_mono graph i deps)
  | inr e ↦
      ground (
        arith,
        h,
        n,
        e,
        text_eq_iff k i,
        text_eq_iff i k,
        unvisited-visit graph i deps (rw e at h) n,
      )
]
