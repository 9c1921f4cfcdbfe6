-- ===== src/Execution/Attempts.antt =====
-- trading/execution/attempts.py: the record of one attempt to execute a decision, and trading/decision/pipeline.py: the
-- fields of a decision that the execution reads. The id and the time of an attempt are given to it; its
-- `metadata_json` is empty here.
use equity_research_agent.Prelude.{ℕ, String, Bool, List, Option, none, some, either, Dict}

-- an entry of the `expression_fallback_plan` of a decision's `classification_context`
pub record PlanEntry : Type 0 where
  pub expression_bucket_id : Option String
  pub expression_bucket_version : Option String
  pub trade_identity : Option String
  pub instrument_type : Option String
  pub decision_action : Option String
  pub rank : ℕ
  pub is_selected : Bool

-- `TradingDecisionRecord`. The keys of its `metadata_json` stand beside its fields, from `manual_request_mode` on; the
-- payload of an option strategy is its text.
pub record TradingDecisionRecord : Type 0 where
  pub trading_decision_id : String
  pub risk_decision_id : Option String
  pub ticker : String
  pub decision : String
  pub strategy_id : String
  pub expression_bucket_id : String
  pub expression_bucket_version : String
  pub trade_identity : String
  pub instrument_type : String
  pub manual_request_id : Option String
  pub paper_trade_authorized : Bool
  pub expression_fallback_plan : List PlanEntry
  pub manual_request_mode : Option String
  pub option_strategy_fallbacks : Dict String
  pub option_strategy : Option String
  pub execution_fallback_from : Option String
  pub execution_fallback_to : Option String

-- `ExecutionAttemptRecord`
pub record ExecutionAttemptRecord : Type 0 where
  pub execution_attempt_id : String
  pub trading_decision_id : String
  pub risk_decision_id : Option String
  pub paper_order_id : Option String
  pub paper_option_order_id : Option String
  pub ticker : String
  pub strategy_id : String
  pub trade_identity : String
  pub instrument_type : String
  pub phase : String
  pub action : String
  pub outcome : String
  pub reason_code : String
  pub detail : Option String
  pub created_at : ℕ

-- the id and the time that `create` takes
pub record Stamp : Type 0 where
  pub attempt_id : String
  pub at : ℕ

abbrev attempt_of :
    TradingDecisionRecord
    → String
    → String
    → String
    → Option String
    → Option String
    → Stamp
    → ExecutionAttemptRecord
attempt_of d phase outcome reason_code risk_decision_id paper_order_id stamp = record {
  execution_attempt_id = stamp.attempt_id;
  trading_decision_id = d.trading_decision_id;
  risk_decision_id = either risk_decision_id d.risk_decision_id;
  paper_order_id = paper_order_id;
  paper_option_order_id = none;
  ticker = d.ticker;
  strategy_id = d.strategy_id;
  trade_identity = d.trade_identity;
  instrument_type = d.instrument_type;
  phase = phase;
  action = d.decision;
  outcome = outcome;
  reason_code = reason_code;
  detail = none;
  created_at = stamp.at;
}

-- `skipped`
abbrev pub skipped :
    TradingDecisionRecord → String → String → Option String → Stamp → ExecutionAttemptRecord
skipped d phase reason_code risk_decision_id stamp =
    attempt_of d phase "skipped" reason_code risk_decision_id none stamp

-- `submitted`
abbrev pub submitted :
    TradingDecisionRecord → String → String → String → Stamp → ExecutionAttemptRecord
submitted d phase paper_order_id risk_decision_id stamp =
    attempt_of d phase "submitted" "submitted" (some risk_decision_id) (some paper_order_id) stamp
