-- ===== src/Risk/Config.antt =====
-- trading/risk/config.py: the limits that a risk appetite gives for one decision window.
use equity_research_agent.Prelude.{
  String, ◌==◌, Bool, true, false, Option, none, some, if◌then◌else◌,
}
use equity_research_agent.Float.{Float, zero_f, one_f, max_of, min_of}
use equity_research_agent.Risk.Context.{PortfolioContext}

pub record RiskLimitConfig (F : Type 0) : Type 0 where
  pub risk_appetite : String
  pub resolver_version : String
  pub margin_model_profile : String
  pub margin_model_version : String
  pub macro_risk_budget_multiplier : F
  pub max_single_name_weight : F
  pub max_sector_weight : F
  pub max_total_margin_ratio : F
  pub max_buying_power_usage_ratio : F
  pub max_liquidity_weight : F
  pub strategy_budget_weight : F
  pub target_volatility : F
  pub option_defined_risk_preferred : Bool
  pub assignment_concentration_limit : F
  pub allow_short_stock : Bool

-- one preset of the dictionary in `resolve`
pub record Preset (F : Type 0) : Type 0 where
  pub max_single_name_weight : F
  pub max_sector_weight : F
  pub max_total_margin_ratio : F
  pub max_buying_power_usage_ratio : F
  pub max_liquidity_weight : F
  pub strategy_budget_weight : F
  pub target_volatility : F
  pub assignment_concentration_limit : F
  pub option_defined_risk_preferred : Bool

-- `s or d`
abbrev text_or : String → String → String
text_or s d = if s == "" then d else s

module _ {F : Type 0} ⦃fl : Float F⦄ where
  abbrev pub conservative : Preset F
  conservative = record {
    max_single_name_weight = fl.lit 5 2;
    max_sector_weight = fl.lit 22 2;
    max_total_margin_ratio = fl.lit 35 2;
    max_buying_power_usage_ratio = fl.lit 45 2;
    max_liquidity_weight = fl.lit 15 3;
    strategy_budget_weight = fl.lit 8 2;
    target_volatility = fl.lit 3 2;
    assignment_concentration_limit = fl.lit 10 2;
    option_defined_risk_preferred = true;
  }

  abbrev pub balanced : Preset F
  balanced = record {
    max_single_name_weight = fl.lit 8 2;
    max_sector_weight = fl.lit 30 2;
    max_total_margin_ratio = fl.lit 50 2;
    max_buying_power_usage_ratio = fl.lit 60 2;
    max_liquidity_weight = fl.lit 25 3;
    strategy_budget_weight = fl.lit 10 2;
    target_volatility = fl.lit 4 2;
    assignment_concentration_limit = fl.lit 15 2;
    option_defined_risk_preferred = true;
  }

  abbrev pub aggressive : Preset F
  aggressive = record {
    max_single_name_weight = fl.lit 12 2;
    max_sector_weight = fl.lit 38 2;
    max_total_margin_ratio = fl.lit 65 2;
    max_buying_power_usage_ratio = fl.lit 75 2;
    max_liquidity_weight = fl.lit 4 2;
    strategy_budget_weight = fl.lit 14 2;
    target_volatility = fl.lit 5 2;
    assignment_concentration_limit = fl.lit 22 2;
    option_defined_risk_preferred = false;
  }

  -- `none` is the `ValueError` on an appetite that is no preset
  unfoldable pub preset_for : String → Option (Preset F)
  preset_for appetite =
      if appetite == "conservative"
      then some conservative
      else if appetite == "balanced"
      then some balanced
      else if appetite == "aggressive"
      then some aggressive
      else none

  -- what the current margin usage leaves of the budget
  unfoldable pub margin_penalty : PortfolioContext F → F
  margin_penalty context =
      let ratio =
        if fl.lt zero_f context.account_equity
        then fl.over context.total_margin_requirement context.account_equity
        else one_f in
      if fl.le ratio (fl.lit 5 1)
      then one_f
      else max_of (fl.lit 5 1) (fl.minus one_f (fl.minus ratio (fl.lit 5 1)))

  abbrev pub limits : String → PortfolioContext F → F → Preset F → RiskLimitConfig F
  limits appetite context multiplier preset = record {
    risk_appetite = appetite;
    resolver_version = "risk_config_resolver_v1";
    margin_model_profile =
        text_or context.margin_model_profile "estimated_fidelity_like_conservative_v1";
    margin_model_version = text_or context.margin_model_version "v1";
    macro_risk_budget_multiplier =
        fl.times (max_of (fl.lit 25 2) (min_of (fl.lit 125 2) multiplier)) (margin_penalty context);
    max_single_name_weight = preset.max_single_name_weight;
    max_sector_weight = preset.max_sector_weight;
    max_total_margin_ratio = preset.max_total_margin_ratio;
    max_buying_power_usage_ratio = preset.max_buying_power_usage_ratio;
    max_liquidity_weight = preset.max_liquidity_weight;
    strategy_budget_weight = preset.strategy_budget_weight;
    target_volatility = preset.target_volatility;
    option_defined_risk_preferred = preset.option_defined_risk_preferred;
    assignment_concentration_limit = preset.assignment_concentration_limit;
    allow_short_stock = false;
  }

  -- `RiskConfigResolver.resolve`
  unfoldable pub resolve : String → PortfolioContext F → F → Option (RiskLimitConfig F)
  unfolding preset_for margin_penalty
  resolve appetite context multiplier = elim (preset_for appetite) [
    | none ↦ none
    | some preset ↦ some (limits appetite context multiplier preset)
  ]
