-- ===== src/Risk/Context.antt =====
-- trading/risk/context.py and lookahead.py: what the risk layer reads and writes.
-- `metadata_json` is a record of the keys that the code writes; where it is always `{}` it is left out.
use equity_research_agent.Prelude.{ℕ, String, Bool, List, Option}
use equity_research_agent.Strategies.{CandidateScoreRecord, TradeClassificationRecord}

pub record PortfolioPosition (F : Type 0) : Type 0 where
  pub ticker : String
  pub quantity : F
  pub market_value : F
  pub notional_exposure : F
  pub trade_identity : String
  pub direction : String
  pub sector : Option String
  pub strategy_id : Option String
  pub intended_horizon : Option String
  pub beta_bucket : Option String
  pub volatility_bucket : Option String
  pub liquidity_bucket : Option String
  pub event_type : Option String
  pub macro_sensitivity : Option String
  pub margin_requirement : F
  pub option_margin_requirement : F
  pub assignment_notional : F

pub record RiskFactorExposureRecord (F : Type 0) : Type 0 where
  pub factor_type : String
  pub factor_value : String
  pub gross_exposure : F
  pub net_exposure : F
  pub long_exposure : F
  pub short_exposure : F
  pub position_count : ℕ

pub record PortfolioContext (F : Type 0) : Type 0 where
  pub as_of : ℕ
  pub account_equity : F
  pub cash_balance : F
  pub buying_power : F
  pub excess_liquidity : F
  pub positions : List (PortfolioPosition F)
  pub stock_margin_requirement : F
  pub option_margin_requirement : F
  pub total_margin_requirement : F
  pub initial_margin_requirement : Option F
  pub maintenance_margin_requirement : Option F
  pub approved_core_tickers : List String
  pub margin_model_profile : String
  pub margin_model_version : String
  pub margin_requirement_source : String

pub record TradeRiskRequest (F : Type 0) : Type 0 where
  pub candidate : CandidateScoreRecord F
  pub classification : TradeClassificationRecord
  pub instrument_type : String
  pub target_weight : F
  pub confidence : F
  pub sector : Option String
  pub beta_bucket : Option String
  pub volatility_bucket : Option String
  pub liquidity_bucket : Option String
  pub price : F
  pub atr_pct : F
  pub average_daily_dollar_volume : F
  pub signal_freshness : List (String × String)
  pub estimated_margin_requirement : Option F
  pub estimated_buying_power_effect : Option F
  pub assignment_notional : F
  pub direct_company_negative_evidence : Bool
  pub bearish_signal_sources : List String
  pub option_risk_metadata_complete : Bool

pub record SizingMetadata (F : Type 0) : Type 0 where
  pub atr_pct : F
  pub target_volatility : F
  pub average_daily_dollar_volume : F
  pub strategy_lifecycle_status : String

pub record PositionSizingDecisionRecord (F : Type 0) : Type 0 where
  pub position_sizing_decision_id : String
  pub candidate_score_id : String
  pub trade_classification_id : String
  pub ticker : String
  pub risk_appetite : String
  pub base_weight : F
  pub volatility_adjusted_weight : F
  pub liquidity_capped_weight : F
  pub final_weight : F
  pub final_notional : F
  pub applied_caps : List String
  pub binding_constraint : Option String
  pub decision_time : ℕ
  pub metadata_json : SizingMetadata F

pub record PortfolioRiskSnapshotRecord (F : Type 0) : Type 0 where
  pub portfolio_risk_snapshot_id : String
  pub decision_time : ℕ
  pub risk_appetite : String
  pub resolver_version : String
  pub margin_model_profile : String
  pub margin_model_version : String
  pub account_equity : F
  pub cash_balance : F
  pub buying_power : F
  pub excess_liquidity : F
  pub stock_margin_requirement : F
  pub option_margin_requirement : F
  pub total_margin_requirement : F
  pub initial_margin_requirement : Option F
  pub maintenance_margin_requirement : Option F
  pub margin_requirement_source : String
  pub net_exposure : F
  pub gross_exposure : F
  pub beta_adjusted_net_exposure : F
  pub concentration_flags : List String

-- the keys that the planner writes into an action's `metadata_json`
pub record ActionMetadata : Type 0 where
  pub days_until_event : Option ℕ
  pub sector : Option String

pub record PositionRiskActionRecord (F : Type 0) : Type 0 where
  pub ticker : String
  pub trade_identity : String
  pub action : String
  pub risk_source : String
  pub severity : String
  pub max_allowed_weight_override : Option F
  pub reason_code : String
  pub metadata_json : ActionMetadata

pub record HedgeMetadata : Type 0 where
  pub risk_window : Option String
  pub sector : Option String

-- also the payload of `_hedge_action_payload`, a dictionary of the same keys
pub record HedgeActionRecord (F : Type 0) : Type 0 where
  pub action : String
  pub risk_source : String
  pub severity : String
  pub target_underlier : String
  pub target_exposure_type : String
  pub coverage_ratio : F
  pub reason_code : String
  pub metadata_json : HedgeMetadata

pub record HedgePosture (F : Type 0) : Type 0 where
  pub action : String
  pub risk_source : String
  pub target_underlier : String
  pub coverage_ratio : F
  pub severity : String

pub record IntentMetadata (F : Type 0) : Type 0 where
  pub macro_snapshot_id : Option String
  pub top_risk_sources : List String
  pub hedge_posture : Option (HedgePosture F)
  pub data_availability_issues : List String

pub record PortfolioRiskIntentRecord (F : Type 0) : Type 0 where
  pub portfolio_risk_intent_id : String
  pub portfolio_risk_snapshot_id : Option String
  pub decision_time : ℕ
  pub risk_window : String
  pub aggregate_risk_state : String
  pub position_actions : List (PositionRiskActionRecord F)
  pub hedge_actions : List (HedgeActionRecord F)
  pub binding_constraints : List String
  pub metadata_json : IntentMetadata F
