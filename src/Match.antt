-- ===== src/Match.antt =====
-- The loop of `match_config` in mkosi/config.py over what `parse_ini` yields. What one condition says
-- of the configuration is a parameter here; Config/Parse/Condition.antt has the one of the source.
pub mod Meaning
pub mod Steps
pub mod Refines
pub mod LastSection
use mkosi.Base.{
  Bool, true, false, not, ◌&&◌, ◌||◌, Option, none, some, List, [], ◌∷◌, ◌==◌, if◌then◌else◌,
}
use mkosi.Base.Text.{Text, lit, text_eq}
use mkosi.Base.Result.{Error, Result, ok, failed, ◌>>=◌}
use mkosi.Ini.{Entry, Entries, stop, raise, yield, is_empty}

-- The local variables of the loop.
pub record Progress : Type 0 where
  pub condition_triggered : Option Bool
  pub match_triggered : Option Bool
  pub skip : Bool

abbrev pub start : Progress
start = record { condition_triggered = none; match_triggered = none; skip = false }

-- bool(b) for an `Optional[bool]`
abbrev pub is_set : Option Bool → Bool
is_set none = false
is_set (some b) = b

-- `b is not False`
abbrev pub is_not_false : Option Bool → Bool
is_not_false none = true
is_not_false (some b) = b

abbrev pub is_match_section : Text → Bool
is_match_section s = text_eq s (lit "Match")

abbrev pub is_trigger_section : Text → Bool
is_trigger_section s = text_eq s (lit "TriggerMatch")

-- A value with its "|" and "!" taken off the front, in that order.
pub record Condition : Type 0 where
  pub trigger : Bool
  pub negate : Bool
  pub value : Text

unfoldable pub negation : Bool → Text → Condition
negation trigger [] = record { trigger = trigger; negate = false; value = [] }
negation trigger (c ∷ v) =
    if c == b'!'
    then record { trigger = trigger; negate = true; value = v }
    else record { trigger = trigger; negate = false; value = c ∷ v }

unfoldable pub condition : Text → Condition
unfolding negation
condition [] = negation false []
condition (c ∷ v) = if c == b'|' then negation true v else negation false (c ∷ v)

-- What one entry does: `match_config` returns, or goes on.
pub data Flow {ℓ} (S : Type ℓ) : Type ℓ where
  returns : Bool → S → Flow S
  continues : Progress → S → Flow S

abbrev pub negated : Bool → Bool → Bool
negated negate result = if negate then not result else result

module _ {ℓ} {S : Type ℓ} where
  -- The end of a section.
  unfoldable pub section_end : Text → Progress → S → Flow S
  section_end section p s =
      if is_match_section section && not (is_not_false p.condition_triggered)
      then returns false s
      else continues
          (record {
            condition_triggered = none;
            match_triggered =
                if is_trigger_section section
                then some (is_set p.match_triggered || is_not_false p.condition_triggered)
                else p.match_triggered;
            skip = false;
          })
          s

  -- A condition that came out as `result`.
  unfoldable pub apply_result : Text → Progress → Bool → Bool → S → Flow S
  apply_result section p trigger result s =
      if not trigger && not result
      then (if is_trigger_section section
          then continues (record p { skip = true; condition_triggered = some false }) s
          else returns false s)
      else if trigger
      then continues
          (record p { condition_triggered = some (is_set p.condition_triggered || result) }) s
      else continues p s

  -- `evaluate` is everything from the expansion of specifiers to `result`.
  module _ (evaluate : Text → Text → Text → S → Result (Bool × S)) where
    unfoldable pub match_step : Entry → Progress → S → Result (Flow S)
    unfolding section_end apply_result condition
    match_step e p s =
        if is_empty e.setting && is_empty e.value
        then ok (section_end e.section p s)
        else if p.skip
        then ok (continues p s)
        else let c = condition e.value in
          evaluate e.section e.setting c.value s >>= λ r.
          ok (apply_result e.section p c.trigger (negated c.negate r.0) r.1)

    abbrev pub resume : (Progress → S → Result (Bool × S)) → Flow S → Result (Bool × S)
    resume rest (returns b s) = ok (b, s)
    resume rest (continues p s) = rest p s

    unfoldable pub match_entries : Entries → Progress → S → Result (Bool × S)
    unfolding match_step
    match_entries stop p s = ok (is_not_false p.match_triggered, s)
    match_entries (raise e) p s = failed e
    match_entries (yield e rest) p s = match_step e p s >>= resume (match_entries rest)
