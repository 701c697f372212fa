-- ===== src/Match/Steps.antt =====
-- What the lines of one match section, with its end, do in `match_config`.
use mkosi.Base.{
  Bool, true, false, ◌&&◌, ◌||◌, Option, none, some, List, [], ◌∷◌, map, ◌≡◌, ◌∙◌, refl, All, inl,
  inr, Bool-cases, if◌then◌else◌,
}
use mkosi.Base.Text.{Text, text_eq}
use mkosi.Base.Result.{Result, ok}
use mkosi.Ini.{Entry, Entries, yield, yield_all}
use mkosi.Match.{
  Progress, is_set, is_not_false, condition, Flow, continues, section_end, apply_result, match_step,
  match_entries, resume,
}
use mkosi.Match.Meaning.{
  Kind, match, trigger_match, kind_name, Line, IsNamed, line_entry, group_end, IsOther, section_of,
  triggers, is_met, normal_hold,
}

abbrev pub progress : Option Bool → Option Bool → Bool → Progress
progress ct mt skip = record { condition_triggered = ct; match_triggered = mt; skip = skip }

-- The result is `b`, in whatever state.
abbrev pub Gives {ℓ} : {S : Type ℓ} → Result (Bool × S) → Bool → Type ℓ
Gives {S} m b = (t : S) × (m ≡ ok (b, t))

-- `condition_triggered` after the lines.
unfoldable pub triggered :
    (Text → Text → Text → Bool) → Kind → Option Bool → List Line → Option Bool
triggered holds k ct [] = ct
triggered holds k ct (l ∷ ls) =
    triggered holds k (if triggers l then some (is_set ct || is_met holds k l) else ct) ls

module _ {S : Type 0} (evaluate : Text → Text → Text → S → Result (Bool × S))
    (holds : Text → Text → Text → Bool) (Q : S → Type 0) where
  -- The condition of the line can be evaluated in the states of `Q`, in which it leaves the state, with
  -- the result that `holds` says.
  abbrev pub IsEvaluable : Kind → Line → Type 0
  IsEvaluable k l =
      IsNamed l
      × ((s : S)
          → Q s
          → (t : S) × (evaluate (kind_name k) l.setting (condition l.value).value s
              ≡ ok (holds (kind_name k) l.setting (condition l.value).value, t))
            × Q t)

  -- The state behind the line.
  abbrev pub after_line : (k : Kind) (l : Line) → IsEvaluable k l → (s : S) → Q s → S
  after_line k l f s q = (f.1 s q).0

  pub line_step :
      (k : Kind) (l : Line) (p : Progress) (f : IsEvaluable k l) (s : S) (q : Q s)
      → p.skip ≡ false
      → match_step evaluate (line_entry k l) p s
        ≡ ok (apply_result (kind_name k) p (triggers l) (is_met holds k l) (after_line k l f s q))
  unfolding match_step
  line_step k l p f s q h = rw (f.0, h, (f.1 s q).1) refl

  pub skip_step :
      (k : Kind) (l : Line) (p : Progress) (s : S)
      → IsNamed l
      → p.skip ≡ true
      → match_step evaluate (line_entry k l) p s ≡ ok (continues p s)
  unfolding match_step
  skip_step k l p s n h = rw (n, h)

  pub end_step :
      (k : Kind) (p : Progress) (s : S)
      → match_step evaluate (group_end k) p s ≡ ok (section_end (kind_name k) p s)
  unfolding match_step
  end_step k p s = refl

  pub entries_step :
      (e : Entry) (rest : Entries) (p : Progress) (s : S) {f : Flow S}
      → match_step evaluate e p s ≡ ok f
      → match_entries evaluate (yield e rest) p s ≡ resume evaluate (match_entries evaluate rest) f
  unfolding match_entries
  entries_step e rest p s h = rw h

  pub line_runs :
      (k : Kind) (l : Line) (rest : Entries) (p : Progress) (f : IsEvaluable k l) (s : S) (q : Q s)
      → p.skip ≡ false
      → match_entries evaluate (yield (line_entry k l) rest) p s
        ≡ resume evaluate
            (match_entries evaluate rest)
            (apply_result (kind_name k) p (triggers l) (is_met holds k l) (after_line k l f s q))
  line_runs k l rest p f s q h = entries_step (line_entry k l) rest p s (line_step k l p f s q h)

  pub skip_runs :
      (k : Kind) (l : Line) (rest : Entries) (p : Progress) (s : S)
      → IsNamed l
      → p.skip ≡ true
      → match_entries evaluate (yield (line_entry k l) rest) p s ≡ match_entries evaluate rest p s
  skip_runs k l rest p s n h = entries_step (line_entry k l) rest p s (skip_step k l p s n h)

  -- The end of another section changes nothing between two match sections.
  pub other_end :
      (name : Text) (rest : Entries) (mt : Option Bool) (s : S)
      → IsOther name
      → match_entries evaluate (yield (section_of name) rest) (progress none mt false) s
        ≡ match_entries evaluate rest (progress none mt false) s
  unfolding match_step section_end
  other_end name rest mt s o =
      entries_step (section_of name) rest (progress none mt false) s
        {f = section_end name (progress none mt false) s} refl
      ∙ rw (section_end, o.0, o.1) refl

  abbrev pub run : List Line → Kind → Entries → Progress → S → Result (Bool × S)
  run ls k rest =
      match_entries evaluate (yield_all (map (line_entry k) ls) (yield (group_end k) rest))

  module _ (mt : Option Bool) (rest : Entries) (b : Bool)
      (go_on : (t : S)
        → Q t
        → Gives (match_entries evaluate rest (progress none mt false) t) b) where
    match_end :
        (ct : Option Bool) (s : S)
        → Q s
        → Gives (run [] match rest (progress ct mt false) s) (is_not_false ct && b)
    unfolding section_end text_eq
    match_end ct s q =
        rw (entries_step (group_end match) rest (progress ct mt false) s (end_step match _ s))
          (cases ct)
      where
        cases :
            (ct : Option Bool)
            → Gives
                (resume evaluate
                  (match_entries evaluate rest)
                  (section_end (kind_name match) (progress ct mt false) s))
                (is_not_false ct && b)
        cases none = go_on s q
        cases (some true) = go_on s q
        cases (some false) = (s, refl)

    pub match_lines :
        (ls : List Line) (ct : Option Bool) (s : S)
        → Q s
        → All (IsEvaluable match) ls
        → Gives
            (run ls match rest (progress ct mt false) s)
            (normal_hold holds match ls && (is_not_false (triggered holds match ct ls) && b))
    unfolding triggered apply_result text_eq
    match_lines [] ct s q n = match_end ct s q
    match_lines (l ∷ ls) ct s q n =
        rw
          (entries_step (line_entry match l) _ (progress ct mt false) s
            (line_step match l _ n.0 s q refl))
          (elim (Bool-cases (triggers l)) [
            | inl t ↦ rw (t, apply_result) (match_lines ls _ _ (n.0.1 s q).2 n.1)
            | inr t ↦ elim (Bool-cases (is_met holds match l)) [
              | inl m ↦ rw (t, m, apply_result) (match_lines ls _ _ (n.0.1 s q).2 n.1)
              | inr m ↦ rw (t, m, apply_result) (after_line match l n.0 s q, refl)
            ]
          ])

  module _ (mt : Option Bool) (rest : Entries) (b r : Bool)
      (go_on : (t : S)
        → Q t
        → Gives
            (match_entries evaluate rest (progress none (some (is_set mt || r)) false) t)
            b) where
    trigger_end :
        (ct : Option Bool) (skip : Bool) (s : S)
        → Q s
        → is_not_false ct ≡ r
        → Gives (run [] trigger_match rest (progress ct mt skip) s) b
    unfolding section_end text_eq
    trigger_end ct skip s q h =
        rw
          (
            entries_step (group_end trigger_match) rest (progress ct mt skip) s
                (end_step trigger_match _ s),
            h,
          )
          (go_on s q)

    skipped_lines :
        (ls : List Line) (ct : Option Bool) (s : S)
        → Q s
        → All (IsEvaluable trigger_match) ls
        → is_not_false ct ≡ r
        → Gives (run ls trigger_match rest (progress ct mt true) s) b
    skipped_lines [] ct s q n h = trigger_end ct true s q h
    skipped_lines (l ∷ ls) ct s q n h =
        rw
          (entries_step (line_entry trigger_match l) _ (progress ct mt true) s
            (skip_step trigger_match l _ s n.0.0 refl))
          (skipped_lines ls ct s q n.1 h)

    pub trigger_lines :
        (ls : List Line) (ct : Option Bool) (s : S)
        → Q s
        → All (IsEvaluable trigger_match) ls
        → (normal_hold holds trigger_match ls && is_not_false (triggered holds trigger_match ct ls))
          ≡ r
        → Gives (run ls trigger_match rest (progress ct mt false) s) b
    unfolding triggered apply_result text_eq
    trigger_lines [] ct s q n h = trigger_end ct false s q h
    trigger_lines (l ∷ ls) ct s q n h =
        rw
          (entries_step (line_entry trigger_match l) _ (progress ct mt false) s
            (line_step trigger_match l _ n.0 s q refl))
          (elim (Bool-cases (triggers l)) [
            | inl t ↦ rw (t, apply_result) (trigger_lines ls _ _ (n.0.1 s q).2 n.1 (rw t at h))
            | inr t ↦ elim (Bool-cases (is_met holds trigger_match l)) [
              | inl m ↦
                  rw (t, m, apply_result) (trigger_lines ls _ _ (n.0.1 s q).2 n.1 (rw (t, m) at h))
              | inr m ↦
                  rw (t, m, apply_result)
                    (skipped_lines ls (some false) _ (n.0.1 s q).2 n.1 (rw (t, m) at h))
            ]
          ])
