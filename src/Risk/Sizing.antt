-- ===== src/Risk/Sizing.antt =====
-- `PositionSizer.size_position` of trading/risk/sizing.py.
pub mod Caps
use equity_research_agent.Prelude.{
  String, ◌==◌, Bool, List, [], ◌∷◌, ◌++◌, get_last?, if◌then◌else◌,
}
use equity_research_agent.Float.{Float, zero_f, one_f, max_of, min_of}
use equity_research_agent.Strategies.{experimental_strategy_weight_cap}
use equity_research_agent.Risk.Context.{
  PortfolioContext, TradeRiskRequest, PositionSizingDecisionRecord,
}
use equity_research_agent.Risk.Config.{RiskLimitConfig}

-- `applied_caps.append(name)` under its test
abbrev pub cap_if : Bool → String → List String
cap_if b name = if b then name ∷ [] else []

module _ {F : Type 0} ⦃fl : Float F⦄ where
  -- the budget share that score, confidence and macro state leave, and the cap on a strategy that
  -- is experimental
  unfoldable pub base_weight : TradeRiskRequest F → RiskLimitConfig F → F
  base_weight r config =
      let c = r.candidate in
      let budget = min_of r.target_weight (
        fl.times
          (fl.times (fl.times config.strategy_budget_weight c.candidate_score)
            (max_of zero_f (min_of one_f r.confidence)))
          config.macro_risk_budget_multiplier) in
      if c.strategy_lifecycle_status == "experimental"
      then min_of budget (experimental_strategy_weight_cap config.strategy_budget_weight)
      else budget

  unfoldable pub volatility_adjusted_weight : TradeRiskRequest F → RiskLimitConfig F → F → F
  volatility_adjusted_weight r config base =
      if fl.lt zero_f r.atr_pct
      then min_of base (fl.times base (fl.over config.target_volatility r.atr_pct))
      else base

  unfoldable pub size_position :
      String
      → TradeRiskRequest F
      → PortfolioContext F
      → RiskLimitConfig F
      → PositionSizingDecisionRecord F
  unfolding base_weight volatility_adjusted_weight
  size_position fresh r context config =
      let base = base_weight r config in
      let volatile = volatility_adjusted_weight r config base in
      let liquid = min_of volatile config.max_liquidity_weight in
      let final = min_of liquid config.max_single_name_weight in
      let caps =
        cap_if (fl.lt volatile base) "volatility_cap"
        ++ (cap_if (fl.lt liquid volatile) "liquidity_cap"
            ++ cap_if (fl.lt final liquid) "single_name_cap") in
      record {
        position_sizing_decision_id = fresh;
        candidate_score_id = r.candidate.candidate_score_id;
        trade_classification_id = r.classification.trade_classification_id;
        ticker = r.candidate.ticker;
        risk_appetite = config.risk_appetite;
        base_weight = base;
        volatility_adjusted_weight = volatile;
        liquidity_capped_weight = liquid;
        final_weight = final;
        final_notional = fl.times final context.account_equity;
        applied_caps = caps;
        binding_constraint = get_last? caps;
        decision_time = r.candidate.decision_time;
        metadata_json = record {
          atr_pct = r.atr_pct;
          target_volatility = config.target_volatility;
          average_daily_dollar_volume = r.average_daily_dollar_volume;
          strategy_lifecycle_status = r.candidate.strategy_lifecycle_status;
        };
      }
