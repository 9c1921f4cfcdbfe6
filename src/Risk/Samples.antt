-- ===== src/Risk/Samples.antt =====
-- Test data of the risk layer: one account, one request and one event, at millionths.
use equity_research_agent.Prelude.{ℕ, true, false, [], ◌∷◌, none, some}
use equity_research_agent.Prelude.Int.{ℤ}
use equity_research_agent.Float.Micros.{micros}
use equity_research_agent.Strategies.{CandidateScoreRecord, TradeClassificationRecord}
use equity_research_agent.Risk.Context.{
  PortfolioPosition, PortfolioContext, TradeRiskRequest, PositionSizingDecisionRecord,
}
use equity_research_agent.Risk.Config.{RiskLimitConfig, balanced, limits}
use equity_research_agent.Risk.Drafts.{PendingTradeRiskRecord, PortfolioHedgePlannerRequest}
use equity_research_agent.Events.{PortfolioEventRiskAssessmentRecord}

abbrev pub dollars : ℕ → ℤ
dollars n = micros.lit n 0

abbrev pub held : PortfolioPosition ℤ
held = record {
  ticker = "MSFT";
  quantity = dollars 50;
  market_value = dollars 28000;
  notional_exposure = dollars 28000;
  trade_identity = "core_holding";
  direction = "long";
  sector = some "Technology";
  strategy_id = none;
  intended_horizon = some "months";
  beta_bucket = some "medium";
  volatility_bucket = none;
  liquidity_bucket = none;
  event_type = none;
  macro_sensitivity = none;
  margin_requirement = dollars 0;
  option_margin_requirement = dollars 0;
  assignment_notional = dollars 0;
}

abbrev pub account : PortfolioContext ℤ
account = record {
  as_of = 5;
  account_equity = dollars 100000;
  cash_balance = dollars 72000;
  buying_power = dollars 72000;
  excess_liquidity = dollars 72000;
  positions = held ∷ [];
  stock_margin_requirement = dollars 0;
  option_margin_requirement = dollars 0;
  total_margin_requirement = dollars 0;
  initial_margin_requirement = none;
  maintenance_margin_requirement = none;
  approved_core_tickers = "MSFT" ∷ [];
  margin_model_profile = "";
  margin_model_version = "v1";
  margin_requirement_source = "estimated";
}

abbrev pub candidate : CandidateScoreRecord ℤ
candidate = record {
  candidate_score_id = "score-1";
  ticker = "AAPL";
  strategy_id = "catalyst_breakout_v1";
  strategy_version = "v1";
  candidate_score = micros.lit 9 1;
  core_signal_evidence = [];
  selection_reason = "";
  direction = "bullish";
  action = "enter_long";
  missing_required_signals = [];
  unsupported_missing_signal_families = [];
  macro_compatibility = "aligned";
  rejection_reason = none;
  decision_time = 5;
  candidate_status = "actionable";
  actionable_score_threshold = micros.lit 6 1;
  strategy_lifecycle_status = "experimental";
}

abbrev pub classification : TradeClassificationRecord
classification = record {
  trade_classification_id = "class-1";
  candidate_score_id = "score-1";
  ticker = "AAPL";
  trade_identity = "tactical_stock_trade";
  direction = "bullish";
  intended_horizon = "days";
  result_status = "classified";
  decision_time = 5;
  expression_bucket_id = "long_stock";
  expression_bucket_version = "v1";
  selected_expression_bucket_id = none;
  fallback_expression_bucket_ids = [];
}

abbrev pub request : TradeRiskRequest ℤ
request = record {
  candidate = candidate;
  classification = classification;
  instrument_type = "stock";
  target_weight = micros.lit 5 2;
  confidence = micros.lit 8 1;
  sector = some "Technology";
  beta_bucket = some "high";
  volatility_bucket = none;
  liquidity_bucket = none;
  price = dollars 200;
  atr_pct = micros.lit 2 2;
  average_daily_dollar_volume = dollars 1000000;
  signal_freshness = ("technical", "fresh") ∷ ("insider", "missing") ∷ [];
  estimated_margin_requirement = some (dollars 100);
  estimated_buying_power_effect = some (dollars 200);
  assignment_notional = dollars 0;
  direct_company_negative_evidence = false;
  bearish_signal_sources = [];
  option_risk_metadata_complete = true;
}

abbrev pub stale_request : TradeRiskRequest ℤ
stale_request = record request {
  signal_freshness = ("insider", "fresh") ∷ ("technical", "stale") ∷ [];
}

abbrev pub config : RiskLimitConfig ℤ
config = limits "balanced" account (dollars 1) balanced

abbrev pub sizing : PositionSizingDecisionRecord ℤ
sizing = record {
  position_sizing_decision_id = "size-1";
  candidate_score_id = "score-1";
  trade_classification_id = "class-1";
  ticker = "AAPL";
  risk_appetite = "balanced";
  base_weight = micros.lit 2 2;
  volatility_adjusted_weight = micros.lit 2 2;
  liquidity_capped_weight = micros.lit 2 2;
  final_weight = micros.lit 2 2;
  final_notional = dollars 2000;
  applied_caps = [];
  binding_constraint = none;
  decision_time = 5;
  metadata_json = record {
    atr_pct = micros.lit 2 2;
    target_volatility = micros.lit 4 2;
    average_daily_dollar_volume = dollars 1000000;
    strategy_lifecycle_status = "experimental";
  };
}

abbrev pub earnings : PortfolioEventRiskAssessmentRecord ℤ
earnings = record {
  ticker = "AAPL";
  risk_source = "own_event";
  severity = "high";
  event_type = "earnings";
  days_until_event = some 2;
  affects_existing_position = false;
  affects_pending_trade = true;
  portfolio_event_risk_assessment_id = "assessment-1";
  calendar_event_id = "event-1";
  portfolio_risk_snapshot_id = none;
  decision_time = 5;
  available_for_decision_at = 4;
  recommended_action = "block_open";
  rationale = "";
  metadata_json = record {
    position_notional = dollars 0;
    candidate_score_id = some "score-1";
    relationship_context = none;
    why_visible = "pending_trade";
    default_visibility = "show";
    summary_bucket = "own_event";
  };
}

abbrev pub pending : PendingTradeRiskRecord
pending = record {
  ticker = "AAPL";
  trade_identity = "tactical_stock_trade";
  sector = none;
  event_type = some "earnings";
  macro_sensitivity = none;
}

abbrev pub planner_request : PortfolioHedgePlannerRequest ℤ
planner_request = record {
  decision_time = 5;
  risk_window = "1-5d";
  portfolio_context = account;
  event_assessments = earnings ∷ [];
  pending_trades = pending ∷ [];
  macro_risk_state = some "watch";
  macro_snapshot = none;
}
