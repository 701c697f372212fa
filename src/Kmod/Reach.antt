-- ===== src/Kmod/Reach.antt =====
-- Which modules and firmware files `resolve_module_dependencies` finds.
use mkosi.Base.{
  ℕ, zero, suc, ◌+◌, ◌≡◌, ◌↔◌, refl, sym, true, ◌||◌, List, [], ◌∷◌, ◌++◌, length, inl, inr,
  Bool-cases, arith,
}
use mkosi.Base.Text.{Text, text_eq, text_eq_iff, text_eq_refl}
use mkosi.Base.Dict.{contains}
use mkosi.Base.Dict.Unvisited.{unvisited}
use mkosi.Base.Result.{ok}
use mkosi.Kmod.{Info, Required, get_list, onto, require, require_all, required_modules}

-- The modules that one gets to from the roots by dependencies.
pub data Requires (i : Info) (roots : List Text) : Text → Type 0 where
  root : {m : Text} → contains roots m ≡ true → Requires i roots m
  depends :
      {m d : Text}
      → Requires i roots m
      → contains (get_list i.moddep m) d ≡ true
      → Requires i roots d

contains-onto :
    (ds todo : List Text) (k : Text)
    → contains (onto ds todo) k ≡ (contains ds k || contains todo k)
unfolding contains
contains-onto [] todo k = refl
contains-onto (d ∷ ds) todo k = ground (arith, contains-onto ds (d ∷ todo) k)

-- The firmware of modules, the last one first.
abbrev pub firmware_of : Info → List Text → List Text
firmware_of i [] = []
firmware_of i (m ∷ mods) = get_list i.firmwaredep m ++ firmware_of i mods

module _ (i : Info) (roots : List Text) where
  -- What holds at the start of each round.
  record IsRound (todo mods fw : List Text) : Type 0 where
    todo_required : (k : Text) → contains todo k ≡ true → Requires i roots k
    mods_required : (k : Text) → contains mods k ≡ true → Requires i roots k
    roots_found : (k : Text) → contains roots k ≡ true → (contains mods k || contains todo k) ≡ true
    closed :
        (j k : Text)
        → contains mods j ≡ true
        → contains (get_list i.moddep j) k ≡ true
        → (contains mods k || contains todo k) ≡ true
    firmware : fw ≡ firmware_of i mods

  skip-IsRound :
      (m : Text) (todo mods fw : List Text)
      → contains mods m ≡ true
      → IsRound (m ∷ todo) mods fw
      → IsRound todo mods fw
  unfolding contains
  skip-IsRound m todo mods fw c h = record {
    todo_required = λ k e. h.todo_required k (ground (arith, e));
    mods_required = h.mods_required;
    roots_found = λ k e. ground (arith, h.roots_found k e, c, text_eq_iff m k);
    closed = λ j k d e. ground (arith, h.closed j k d e, c, text_eq_iff m k);
    firmware = h.firmware;
  }

  new-IsRound :
      (m : Text) (todo mods fw : List Text)
      → IsRound (m ∷ todo) mods fw
      → IsRound (onto (get_list i.moddep m) todo) (m ∷ mods) (get_list i.firmwaredep m ++ fw)
  unfolding contains
  new-IsRound m todo mods fw h = record {
    todo_required = λ k e. elim (Bool-cases (contains (get_list i.moddep m) k)) [
      | inl d ↦ depends here d
      | inr d ↦ h.todo_required k (ground (arith, contains-onto (get_list i.moddep m) todo k, e, d))
    ];
    mods_required = λ k e. elim (Bool-cases (text_eq m k)) [
      | inl d ↦ rw (sym ((text_eq_iff m k).0 d)) here
      | inr d ↦ h.mods_required k (rw d at e)
    ];
    roots_found =
        λ k e. ground (arith, h.roots_found k e, contains-onto (get_list i.moddep m) todo k);
    closed = λ j k d e. elim (Bool-cases (text_eq m j)) [
      | inl c ↦ ground (arith, contains-onto (get_list i.moddep m) todo k, own j k c e)
      | inr c ↦
          ground (arith, h.closed j k (rw c at d) e, contains-onto (get_list i.moddep m) todo k)
    ];
    firmware = rw h.firmware refl;
  }
    where
      here : Requires i roots m
      here = h.todo_required m (ground (arith, text_eq_refl m))

      own :
          (j k : Text)
          → text_eq m j ≡ true
          → contains (get_list i.moddep j) k ≡ true
          → contains (get_list i.moddep m) k ≡ true
      own j k c e = rw ((text_eq_iff m j).0 c) e

  rounds-IsRound :
      (fuel : ℕ) (todo mods fw : List Text) {r : Required}
      → IsRound todo mods fw
      → require_all fuel i todo mods fw ≡ ok r
      → IsRound [] r.mods r.firmware
  unfolding require_all require
  rounds-IsRound fuel [] mods fw h e = rw (sym (value e)) h
    where
      value : {a b : Required} → ok a ≡ ok b → a ≡ b
      value q = cc q
  rounds-IsRound zero (m ∷ todo) mods fw h e = cc e
  rounds-IsRound (suc n) (m ∷ todo) mods fw h e = elim (Bool-cases (contains mods m)) [
    | inl c ↦
        rounds-IsRound n todo mods fw (skip-IsRound m todo mods fw c h) (rw (c, require_all) at e)
    | inr c ↦
        rounds-IsRound n (onto (get_list i.moddep m) todo) (m ∷ mods)
          (get_list i.firmwaredep m ++ fw) (new-IsRound m todo mods fw h) (rw (c, require_all) at e)
  ]

  found-Requires :
      (mods fw : List Text) (k : Text)
      → IsRound [] mods fw
      → Requires i roots k
      → contains mods k ≡ true
  unfolding contains
  found-Requires mods fw k h (root c) = ground (arith, h.roots_found k c)
  found-Requires mods fw k h (depends {m} p d) =
      ground (arith, h.closed m k (found-Requires mods fw m h p) d)

-- The modules that are found are just the built-in ones, the given ones, and those that one gets to
-- from them by dependencies, and the firmware is that of the modules that are found.
pub required_modules-Requires :
    (i : Info) (builtin modules : List Text) (r : Required)
    → required_modules i builtin modules ≡ ok r
    → ((k : Text) → (contains r.mods k ≡ true) ↔ Requires i (builtin ++ modules) k)
      × (r.firmware ≡ firmware_of i r.mods)
unfolding required_modules contains
required_modules-Requires i builtin modules r e = (
  (λ k. (last.mods_required k, found-Requires i (builtin ++ modules) r.mods r.firmware k last)),
  last.firmware,
)
  where
    in_todo :
        (k : Text) → contains (onto (builtin ++ modules) []) k ≡ contains (builtin ++ modules) k
    in_todo k = ground (arith, contains-onto (builtin ++ modules) [] k)

    first : IsRound i (builtin ++ modules) (onto (builtin ++ modules) []) [] []
    first = record {
      todo_required = λ k h. root (ground (arith, in_todo k, h));
      mods_required = λ k h. absurd (ground (arith, h));
      roots_found = λ k h. ground (arith, in_todo k, h);
      closed = λ j k d h. absurd (ground (arith, d));
      firmware = refl;
    }

    last : IsRound i (builtin ++ modules) [] r.mods r.firmware
    last =
        rounds-IsRound i (builtin ++ modules)
          (length (onto (builtin ++ modules) []) + unvisited i.moddep [])
          (onto (builtin ++ modules) []) [] [] first e
