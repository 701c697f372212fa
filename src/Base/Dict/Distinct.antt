-- ===== src/Base/Dict/Distinct.antt =====
-- Dictionaries made of pairs with distinct keys.
use mkosi.Base.{
  ◌≡◌, refl, sym, ap, ◌∙◌, Bool, true, false, not, ◌&&◌, ◌||◌, some, List, [], ◌∷◌, ◌++◌, map,
  arith, All,
}
use mkosi.Base.Text.{Text, text_eq_iff, text_eq_refl}
use mkosi.Base.Dict.{Dict, lookup, merge, insert, contains}

-- No key stands twice.
unfoldable pub distinct : List Text → Bool
unfolding contains
distinct [] = true
distinct (k ∷ ks) = not (contains ks k) && distinct ks

abbrev pub keys {ℓ} : {V : Type ℓ} → Dict V → List Text
keys d = map (λ e. e.0) d

pub contains-append :
    (ks ls : List Text) (k : Text) → contains (ks ++ ls) k ≡ (contains ks k || contains ls k)
unfolding contains
contains-append [] ls k = refl
contains-append (j ∷ ks) ls k = ground (arith, contains-append ks ls k)

distinct-append :
    (ks : List Text) (k : Text) (ls : List Text)
    → distinct (ks ++ (k ∷ ls)) ≡ true
    → contains ks k ≡ false
unfolding distinct contains
distinct-append [] k ls h = refl
distinct-append (j ∷ ks) k ls h = ground (
  arith,
  h,
  contains-append ks (k ∷ ls) j,
  text_eq_iff j k,
  text_eq_refl k,
  distinct-append ks k ls,
)

module _ {ℓ} {V : Type ℓ} where
  insert-new :
      (k : Text) (v : V) (d : Dict V)
      → contains (keys d) k ≡ false
      → insert k v d ≡ d ++ ((k, v) ∷ [])
  unfolding insert contains
  insert-new k v [] h = refl
  insert-new k v ((j, w) ∷ d) h = ground (arith, h, insert-new k v d)

  append_assoc : (d : Dict V) (e f : Dict V) → (d ++ e) ++ f ≡ d ++ (e ++ f)
  append_assoc [] e f = refl
  append_assoc (p ∷ d) e f = ap (λ r. p ∷ r) (append_assoc d e f)

  keys-append : (d e : Dict V) → keys (d ++ e) ≡ keys d ++ keys e
  keys-append [] e = refl
  keys-append (p ∷ d) e = ap (λ r. p.0 ∷ r) (keys-append d e)

  -- Pairs whose keys are distinct are added at the end.
  pub merge-distinct : (d e : Dict V) → distinct (keys (d ++ e)) ≡ true → merge d e ≡ d ++ e
  unfolding merge
  merge-distinct d [] h = append_nil d
    where
      append_nil : (d : Dict V) → d ≡ d ++ []
      append_nil [] = refl
      append_nil (p ∷ d) = ap (λ r. p ∷ r) (append_nil d)
  merge-distinct d ((k, v) ∷ e) h =
      let new =
        insert-new k v d
          (distinct-append (keys d) k (keys e) (rw (sym (keys-append d ((k, v) ∷ e))) h)) in
      rw (new) (
        merge-distinct (d ++ ((k, v) ∷ [])) e (rw (append_assoc d ((k, v) ∷ []) e) h)
        ∙ append_assoc d ((k, v) ∷ []) e)

  found_behind :
      (k : Text) (v : V) (d e : Dict V)
      → contains (keys e) k ≡ false
      → All (λ p. lookup p.0 d ≡ some p.1) e
      → All (λ p. lookup p.0 ((k, v) ∷ d) ≡ some p.1) e
  unfolding lookup contains
  found_behind k v d [] h f = tt
  found_behind k v d ((j, w) ∷ e) h f = (
    ground (arith, h, f.0, text_eq_iff k j, text_eq_refl k),
    found_behind k v d e (ground (arith, h)) f.1,
  )

  each_found : (d : Dict V) → distinct (keys d) ≡ true → All (λ p. lookup p.0 d ≡ some p.1) d
  unfolding lookup distinct
  each_found [] h = tt
  each_found ((k, v) ∷ d) h = (
    rw (text_eq_refl k),
    found_behind k v d d (ground (arith, h)) (each_found d (ground (arith, h))),
  )

  -- In the dictionary of pairs with distinct keys, each key has its value.
  pub dict_found :
      (d : Dict V) → distinct (keys d) ≡ true → All (λ p. lookup p.0 (merge [] d) ≡ some p.1) d
  dict_found d h = rw (merge-distinct [] d h) (each_found d h)
