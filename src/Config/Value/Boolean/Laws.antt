-- ===== src/Config/Value/Boolean/Laws.antt =====
-- The words that are booleans, in any case.
use mkosi.Base.{◌≡◌, ◌↔◌, refl, true, [], ◌∷◌, arith}
use mkosi.Base.Text.{Text}
use mkosi.Base.Result.{Result, ok, failed, ◌>>=◌}
use mkosi.Config.Enums.{ConfigFeature}
use mkosi.Config.Value.Boolean.{
  lower, parse_boolean, parse_feature, config_match_feature, feature_eq,
}

lower_idem : (s : Text) → lower (lower s) ≡ lower s
unfolding lower
lower_idem [] = refl
lower_idem (c ∷ s) = ground (arith, lower_idem s)

-- The case of the letters does not matter.
pub parse_boolean-lower : (s : Text) → parse_boolean (lower s) ≡ parse_boolean s
unfolding parse_boolean
parse_boolean-lower s = rw (lower_idem s)

feature_eq_iff : (f g : ConfigFeature) → (feature_eq f g ≡ true) ↔ (f ≡ g)
unfolding feature_eq
feature_eq_iff f g = ground arith

match_parsed :
    (r : Result ConfigFeature) (f : ConfigFeature)
    → ((r >>= λ g. ok (feature_eq f g)) ≡ ok true) ↔ (r ≡ ok f)
match_parsed (failed e) f = (λ h. cc, λ h. cc)
match_parsed (ok g) f = ground (arith, feature_eq_iff f g)

-- A [Match] condition on a feature holds exactly where its text is read as the feature's value.
pub config_match_feature_iff :
    (text : Text) (f : ConfigFeature)
    → (config_match_feature text f ≡ ok true) ↔ (parse_feature text ≡ ok f)
unfolding config_match_feature
config_match_feature_iff text f = match_parsed (parse_feature text) f
