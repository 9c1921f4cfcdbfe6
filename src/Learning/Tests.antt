-- ===== src/Learning/Tests.antt =====
-- The theorems of the learned adjustments at an active and a shadow factor.
use equity_research_agent.Prelude.{String, ◌≡◌, refl, some, List, [], ◌∷◌, keep, map, lookup}
use equity_research_agent.Prelude.Int.{ℤ}
use equity_research_agent.Float.{◌≼◌}
use equity_research_agent.Float.Micros.{micros, micros-FloatLaws}
use equity_research_agent.Learning.{
  LearningFactorRecord, LearningAdjustments, build_learning_adjustments, score_cap,
}
use equity_research_agent.Learning.Bounds.{learning-bounds}
use equity_research_agent.Learning.Shadow.{learning-active_only, is_active, is_shadow}

abbrev boost : LearningFactorRecord
boost = record {
  factor_key = "f-1";
  scope = "strategy";
  status = "active";
  strategy_id = some "swing";
  effect_tags = "increase_score" ∷ [];
}

abbrev trial : LearningFactorRecord
trial = record boost {
  factor_key = "f-2";
  scope = "risk";
  status = "shadow";
  effect_tags = "reduce_exposure" ∷ [];
}

abbrev factors : List LearningFactorRecord
factors = boost ∷ trial ∷ []

learning-bounds_example :
    let a : LearningAdjustments ℤ = build_learning_adjustments factors in
    (micros.lit 5 1 ≼ a.risk_budget_multiplier)
    × (a.risk_budget_multiplier ≼ score_cap)
    × ((strategy : String) (x : ℤ)
        → lookup strategy a.strategy_score_multiplier ≡ some x
        → x ≼ score_cap)
learning-bounds_example = learning-bounds micros-FloatLaws factors refl

learning-active_only_example :
    let a : LearningAdjustments ℤ = build_learning_adjustments factors in
    let b : LearningAdjustments ℤ = build_learning_adjustments (keep is_active factors) in
    (a.strategy_score_multiplier ≡ b.strategy_score_multiplier)
    × (a.risk_budget_multiplier ≡ b.risk_budget_multiplier)
    × (a.applied_factor_keys ≡ b.applied_factor_keys)
    × (a.shadow_factor_keys
        ≡ map (λ (f : LearningFactorRecord). f.factor_key) (keep is_shadow factors))
learning-active_only_example = learning-active_only factors
