-- ===== src/Learning.antt =====
-- trading/learning/apply.py: what the learned factors do to scores and to the risk budget.
pub mod Bounds
pub mod Shadow
mod Tests
use equity_research_agent.Prelude.{
  String, ◌==◌, Bool, true, false, ◌&&◌, ◌||◌, List, [], ◌∷◌, ◌++◌, foldl, Option, none, some,
  if◌then◌else◌, any_of, contains, or_else, truthy, Dict, lookup, insert,
}
use equity_research_agent.Float.{Float, one_f, min_of, max_of}

-- the fields of `LearningFactorRecord` that are read
pub record LearningFactorRecord : Type 0 where
  pub factor_key : String
  pub scope : String
  pub status : String
  pub strategy_id : Option String
  pub effect_tags : List String

-- `LearningAdjustments`, also while it is built
pub record LearningAdjustments (F : Type 0) : Type 0 where
  pub strategy_score_multiplier : Dict F
  pub risk_budget_multiplier : F
  pub applied_factor_keys : List String
  pub shadow_factor_keys : List String

-- `_RISK_TIGHTENING_EFFECT_TAGS`
abbrev pub risk_tightening_effect_tags : List String
risk_tightening_effect_tags =
    "reduce_exposure" ∷ "require_confirmation" ∷ "block_stale_data" ∷ "lower_confidence"
    ∷ "tighten_exit_rules" ∷ []

abbrev pub raises_score : LearningFactorRecord → Bool
raises_score factor =
    factor.scope == "strategy"
    && truthy factor.strategy_id
    && contains factor.effect_tags "increase_score"

abbrev pub concerns_risk : LearningFactorRecord → Bool
concerns_risk factor = factor.scope == "risk" || factor.scope == "portfolio"

abbrev pub tightens : LearningFactorRecord → Bool
tightens factor =
    concerns_risk factor && any_of (contains risk_tightening_effect_tags) factor.effect_tags

abbrev pub loosens : LearningFactorRecord → Bool
loosens factor = concerns_risk factor && contains factor.effect_tags "increase_risk_budget"

module _ {F : Type 0} ⦃fl : Float F⦄ where
  abbrev pub score_cap : F
  score_cap = fl.lit 125 2

  abbrev pub with_score : LearningFactorRecord → Dict F → Dict F
  with_score factor scores =
      let strategy = or_else factor.strategy_id "" in
      let current = or_else (lookup strategy scores) one_f in
      if raises_score factor
      then insert strategy (min_of score_cap (fl.times current (fl.lit 110 2))) scores
      else scores

  abbrev pub with_budget : LearningFactorRecord → F → F
  with_budget factor budget =
      let tightened = if tightens factor then fl.times budget (fl.lit 85 2) else budget in
      if loosens factor then fl.times tightened (fl.lit 110 2) else tightened

  -- an active factor
  unfoldable pub apply_factor : LearningFactorRecord → LearningAdjustments F → LearningAdjustments F
  apply_factor factor a = record a {
    strategy_score_multiplier = with_score factor a.strategy_score_multiplier;
    risk_budget_multiplier = with_budget factor a.risk_budget_multiplier;
    applied_factor_keys =
        if raises_score factor || tightens factor || loosens factor
        then a.applied_factor_keys ++ factor.factor_key ∷ []
        else a.applied_factor_keys;
  }

  -- the body of the loop
  unfoldable pub add_factor : LearningAdjustments F → LearningFactorRecord → LearningAdjustments F
  add_factor a factor =
      if factor.status == "shadow"
      then record a { shadow_factor_keys = a.shadow_factor_keys ++ factor.factor_key ∷ [] }
      else if factor.status == "active"
      then apply_factor factor a
      else a

  abbrev pub no_adjustments : LearningAdjustments F
  no_adjustments = record {
    strategy_score_multiplier = [];
    risk_budget_multiplier = one_f;
    applied_factor_keys = [];
    shadow_factor_keys = [];
  }

  -- `max(0.5, min(1.25, x))`
  abbrev pub clamped : F → F
  clamped x = max_of (fl.lit 5 1) (min_of score_cap x)

  -- `build_learning_adjustments`
  unfoldable pub build_learning_adjustments : List LearningFactorRecord → LearningAdjustments F
  build_learning_adjustments factors =
      let a = foldl add_factor no_adjustments factors in
      record a { risk_budget_multiplier = clamped a.risk_budget_multiplier }
