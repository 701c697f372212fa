-- ===== src/Match/LastSection.antt =====
-- A match section that no other section follows: `parse_ini` yields no end for it.
use mkosi.Base.{
  Bool, true, false, ◌&&◌, Option, none, List, [], ◌∷◌, map, ◌≡◌, refl, ap, sym, All, inl, inr,
  Bool-cases, if◌then◌else◌,
}
use mkosi.Base.Text.{Text, text_eq}
use mkosi.Base.Result.{Result, ok}
use mkosi.Ini.{Entries, stop, yield_all}
use mkosi.Match.{start, is_not_false, apply_result, match_entries}
use mkosi.Match.Meaning.{
  Kind, match, trigger_match, is_trigger_kind, Line, Group, line_entry, Block, block_entries,
  groups, group_entries, triggers, is_met, normal_hold, meaning,
}
use mkosi.Match.Steps.{progress, Gives, IsEvaluable, after_line, line_runs, skip_runs}
use mkosi.Match.Refines.{AllEvaluable, match_entries-ended, and_true}

and_false : (a : Bool) → false ≡ (a && false)
and_false true = refl
and_false false = refl

module _ {S : Type 0} (evaluate : Text → Text → Text → S → Result (Bool × S))
    (holds : Text → Text → Text → Bool) (Q : S → Type 0) where
  -- Its normal conditions count, and its triggering ones do not.
  unended_match :
      (ls : List Line) (ct mt : Option Bool) (s : S)
      → Q s
      → All (IsEvaluable evaluate holds Q match) ls
      → Gives
          (match_entries evaluate
            (yield_all (map (line_entry match) ls) stop)
            (progress ct mt false)
            s)
          (is_not_false mt && normal_hold holds match ls)
  unfolding match_entries text_eq
  unended_match [] ct mt s q n =
      (s, ap (λ (b : Bool). ok (b, s)) (sym (and_true (is_not_false mt))))
  unended_match (l ∷ ls) ct mt s q n =
      rw (line_runs evaluate holds Q match l (rest ls) (progress ct mt false) n.0 s q refl)
        (elim (Bool-cases (triggers l)) [
          | inl t ↦ rw (t, apply_result) (unended_match ls _ mt _ (n.0.1 s q).2 n.1)
          | inr t ↦ elim (Bool-cases (is_met holds match l)) [
            | inl m ↦ rw (t, m, apply_result) (unended_match ls _ mt _ (n.0.1 s q).2 n.1)
            | inr m ↦
                rw (t, m, apply_result)
                  (
                    _,
                    ap (λ (b : Bool). ok (b, after_line evaluate holds Q match l n.0 s q))
                        (and_false (is_not_false mt)),
                  )
          ]
        ])
    where
      rest : List Line → Entries
      rest ls = yield_all (map (line_entry match) ls) stop

  -- Nothing of a triggering section counts.
  unended_skipped :
      (ls : List Line) (ct mt : Option Bool) (s : S)
      → Q s
      → All (IsEvaluable evaluate holds Q trigger_match) ls
      → Gives
          (match_entries evaluate
            (yield_all (map (line_entry trigger_match) ls) stop)
            (progress ct mt true)
            s)
          (is_not_false mt)
  unfolding match_entries
  unended_skipped [] ct mt s q n = (s, refl)
  unended_skipped (l ∷ ls) ct mt s q n =
      rw (skip_runs evaluate holds Q trigger_match l _ (progress ct mt true) s n.0.0 refl)
        (unended_skipped ls ct mt s q n.1)

  unended_trigger :
      (ls : List Line) (ct mt : Option Bool) (s : S)
      → Q s
      → All (IsEvaluable evaluate holds Q trigger_match) ls
      → Gives
          (match_entries evaluate
            (yield_all (map (line_entry trigger_match) ls) stop)
            (progress ct mt false)
            s)
          (is_not_false mt)
  unfolding match_entries text_eq
  unended_trigger [] ct mt s q n = (s, refl)
  unended_trigger (l ∷ ls) ct mt s q n =
      rw (line_runs evaluate holds Q trigger_match l _ (progress ct mt false) n.0 s q refl)
        (elim (Bool-cases (triggers l)) [
          | inl t ↦ rw (t, apply_result) (unended_trigger ls _ mt _ (n.0.1 s q).2 n.1)
          | inr t ↦ elim (Bool-cases (is_met holds trigger_match l)) [
            | inl m ↦ rw (t, m, apply_result) (unended_trigger ls _ mt _ (n.0.1 s q).2 n.1)
            | inr m ↦ rw (t, m, apply_result) (unended_skipped ls _ mt _ (n.0.1 s q).2 n.1)
          ]
        ])

  -- What counts of a last section that has no end.
  abbrev pub unended_holds : Group → Bool
  unended_holds g = if is_trigger_kind g.kind then true else normal_hold holds g.kind g.lines

  unended_group :
      (k : Kind) (ls : List Line) (mt : Option Bool) (s : S)
      → Q s
      → All (IsEvaluable evaluate holds Q k) ls
      → Gives
          (match_entries evaluate
            (yield_all (map (line_entry k) ls) stop)
            (progress none mt false)
            s)
          (is_not_false mt && unended_holds (record { kind = k; lines = ls }))
  unended_group match ls mt s q n = unended_match ls none mt s q n
  unended_group trigger_match ls mt s q n = rw and_true (unended_trigger ls none mt s q n)

  -- Where the last section of the file is a match section, its triggering conditions do not count if
  -- it is a [Match], and it does not count at all if it is a [TriggerMatch]: `match_entries` returns
  -- the meaning of the sections before it, and the normal conditions of a last [Match], where each
  -- condition can be evaluated from the given state on, with a result that does not depend on which of
  -- the states it is that the conditions lead to.
  pub match_entries-unended :
      (bs : List Block) (g : Group) (s : S)
      → Q s
      → AllEvaluable evaluate holds Q bs
      → All (IsEvaluable evaluate holds Q g.kind) g.lines
      → Gives
          (match_entries evaluate
            (yield_all (block_entries bs) (yield_all (group_entries g) stop))
            start
            s)
          (meaning holds (groups bs) && unended_holds g)
  match_entries-unended bs g s q n h =
      match_entries-ended evaluate holds Q (unended_holds g) (yield_all (group_entries g) stop)
        (λ mt t r. unended_group g.kind g.lines mt t r h) bs s q n
