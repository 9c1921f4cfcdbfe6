-- ===== src/Risk/Gate.antt =====
-- `RiskManager.evaluate` of trading/risk/manager.py: the final gate of a trade. What each of its
-- returns hands to `_decision` is the verdict; the proofs are in the modules below.
pub mod Bounds
pub mod Blocks
pub mod Passes
use equity_research_agent.Prelude.{
  String, ◌==◌, Bool, false, not, ◌&&◌, ◌||◌, List, [], ◌∷◌, Option, none, some, if◌then◌else◌,
  contains, truthy, filled, either, is_none, or_else,
}
use equity_research_agent.Float.{Float, zero_f, max_of, min_of}
use equity_research_agent.Risk.Context.{
  PortfolioContext, TradeRiskRequest, PositionSizingDecisionRecord, PositionRiskActionRecord,
  PortfolioRiskIntentRecord,
}
use equity_research_agent.Risk.Config.{RiskLimitConfig}
use equity_research_agent.Risk.Exposure.{build_portfolio_risk_snapshot}
use equity_research_agent.Risk.Signals.{has_missing_or_stale_signals, is_macro_only_bearish}
use equity_research_agent.Risk.Intent.{
  matching_planner_position_action, generated_hedge_action, hedge_risk_source,
}
use equity_research_agent.Risk.Decision.{
  Verdict, RiskDecisionRecord, sector_weight, effective_sector_cap, decision,
}

module _ {F : Type 0} ⦃fl : Float F⦄ where
  -- a return with `status="rejected"` and `approved_weight=0.0`
  abbrev pub reject : String → String → Option String → Option String → Verdict F
  reject reason rule binding source = record {
    status = "rejected";
    reason_code = reason;
    approved_weight = zero_f;
    applied_rules = rule ∷ [];
    binding_constraint = binding;
    lookahead_risk_source = source;
    generated_hedge_action = none;
  }

  -- the weight after a `reduce` or `force_reduce` of the planner
  unfoldable pub reduced_weight : PositionRiskActionRecord F → F → F
  reduced_weight a final =
      if a.action == "reduce" || a.action == "force_reduce"
      then elim a.max_allowed_weight_override [ none ↦ final | some cap ↦ min_of final cap ]
      else final

  unfoldable pub planner_weight : Option (PositionRiskActionRecord F) → F → F
  planner_weight none final = final
  planner_weight (some a) final = reduced_weight a final

  abbrev pub planner_reason_code : Option (PositionRiskActionRecord F) → Option String
  planner_reason_code none = none
  planner_reason_code (some a) = some a.reason_code

  abbrev pub planner_risk_source : Option (PositionRiskActionRecord F) → Option String
  planner_risk_source none = none
  planner_risk_source (some a) = some a.risk_source

  abbrev pub blocks_open : Option (PositionRiskActionRecord F) → Bool
  blocks_open none = false
  blocks_open (some a) = a.action == "block_open"

  -- the return under the sector cap
  unfoldable pub over_cap : F → F → Option (PortfolioRiskIntentRecord F) → Option String → Verdict F
  over_cap current cap intent source =
      let approved = max_of zero_f (fl.minus cap current) in
      record {
        status = if fl.lt zero_f approved then "reduced" else "rejected";
        reason_code = "sector_concentration_cap";
        approved_weight = approved;
        applied_rules = "sector_concentration_check" ∷ [];
        binding_constraint = some "sector_concentration_cap";
        lookahead_risk_source = source;
        generated_hedge_action = generated_hedge_action intent;
      }

  -- the last return
  unfoldable pub within_limits :
      F → F → Option (PositionRiskActionRecord F) → Option (PortfolioRiskIntentRecord F) → Verdict F
  within_limits weight final action intent =
      let less = fl.lt weight final in
      let reason = or_else (filled (planner_reason_code action)) "portfolio_risk_intent_reduce" in
      record {
        status = if less then "reduced" else "approved";
        reason_code = if less then reason else "within_limits";
        approved_weight = weight;
        applied_rules =
            if less
            then "portfolio_risk_intent" ∷ "single_name_limit_ok" ∷ "sector_concentration_ok" ∷ []
            else "single_name_limit_ok" ∷ "sector_concentration_ok" ∷ [];
        binding_constraint = if less then some reason else none;
        lookahead_risk_source = either (planner_risk_source action) (hedge_risk_source intent);
        generated_hedge_action = generated_hedge_action intent;
      }

  -- the tests of the gate
  abbrev pub unapproved_core : TradeRiskRequest F → PortfolioContext F → Bool
  unapproved_core r context =
      r.classification.trade_identity == "core_holding"
      && not (contains context.approved_core_tickers r.candidate.ticker)

  abbrev pub no_margin_estimate : TradeRiskRequest F → Bool
  no_margin_estimate r =
      is_none r.estimated_margin_requirement || is_none r.estimated_buying_power_effect

  abbrev pub exceeds_sector_cap :
      TradeRiskRequest F → PortfolioContext F → RiskLimitConfig F → F → Bool
  exceeds_sector_cap r context config weight =
      truthy r.sector
      && fl.lt (effective_sector_cap r config) (fl.plus (sector_weight r.sector context) weight)

  unfoldable pub verdict :
      TradeRiskRequest F
      → F
      → PortfolioContext F
      → RiskLimitConfig F
      → Option (PortfolioRiskIntentRecord F)
      → Option (PositionRiskActionRecord F)
      → Verdict F
  verdict r final context config intent action =
      let source = planner_risk_source action in
      let weight = planner_weight action final in
      if blocks_open action
      then reject (or_else (planner_reason_code action) "") "portfolio_risk_intent"
          (planner_reason_code action) source
      else if unapproved_core r context
      then reject "core_holding_requires_portfolio_intent" "core_holding_intent_check" none source
      else if has_missing_or_stale_signals r
      then reject "missing_or_stale_signals" "signal_freshness_check" none source
      else if r.instrument_type == "stock" && is_macro_only_bearish r
      then reject "macro_only_bearish_single_name_blocked" "bearish_evidence_gate" none source
      else if no_margin_estimate r
      then reject "unestimable_margin_requirement" "margin_estimation_check" none source
      else if r.instrument_type == "option" && not r.option_risk_metadata_complete
      then reject "missing_option_risk_metadata" "option_metadata_check" none source
      else if exceeds_sector_cap r context config weight
      then over_cap (sector_weight r.sector context) (effective_sector_cap r config) intent source
      else within_limits weight final action intent

  -- `evaluate`; the ids of the snapshot and of the decision are what `uuid4` gives
  unfoldable pub evaluate :
      String
      → String
      → TradeRiskRequest F
      → PositionSizingDecisionRecord F
      → PortfolioContext F
      → RiskLimitConfig F
      → Option (PortfolioRiskIntentRecord F)
      → RiskDecisionRecord F
  evaluate snapshot_uuid fresh r sizing context config intent =
      let snapshot = build_portfolio_risk_snapshot snapshot_uuid context config in
      let action =
        matching_planner_position_action intent r.candidate.ticker
          r.classification.trade_identity in
      decision fresh r sizing context config intent (some snapshot.portfolio_risk_snapshot_id)
        (verdict r sizing.final_weight context config intent action)
