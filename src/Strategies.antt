-- ===== src/Strategies.antt =====
-- trading/strategies: the records that selection hands to the risk layer, and when a candidate can
-- go on. A `datetime` is a number, its position on the time line.
use equity_research_agent.Prelude.{
  ℕ, String, Bool, List, Option, ◌==◌, ◌&&◌, not, is_none, is_empty, Dict,
}
use equity_research_agent.Float.{Float, min_of}

-- a value of `core_signal_evidence`: a bool, a number, or another value by its truth
pub data Evidence (F : Type 0) : Type 0 where
  flag : Bool → Evidence F
  number : F → Evidence F
  other : Bool → Evidence F

-- the fields that the selection, risk and execution layers read
pub record CandidateScoreRecord (F : Type 0) : Type 0 where
  pub candidate_score_id : String
  pub ticker : String
  pub strategy_id : String
  pub strategy_version : String
  pub candidate_score : F
  pub direction : String
  pub action : String
  pub core_signal_evidence : Dict (Evidence F)
  pub missing_required_signals : List String
  pub unsupported_missing_signal_families : List String
  pub macro_compatibility : String
  pub selection_reason : String
  pub rejection_reason : Option String
  pub decision_time : ℕ
  pub candidate_status : String
  pub actionable_score_threshold : F
  pub strategy_lifecycle_status : String

-- the fields that the risk and decision layers read, with the ids of its `selected_strategy_context_json`
pub record TradeClassificationRecord : Type 0 where
  pub trade_classification_id : String
  pub candidate_score_id : String
  pub ticker : String
  pub trade_identity : String
  pub direction : String
  pub intended_horizon : String
  pub result_status : String
  pub decision_time : ℕ
  pub expression_bucket_id : String
  pub expression_bucket_version : String
  pub selected_expression_bucket_id : Option String
  pub fallback_expression_bucket_ids : List String

module _ {F : Type 0} ⦃fl : Float F⦄ where
  -- the property `CandidateScoreRecord.is_actionable`
  unfoldable pub is_actionable : CandidateScoreRecord F → Bool
  is_actionable c =
      c.candidate_status == "actionable"
      && is_none c.rejection_reason
      && is_empty c.missing_required_signals
      && not (c.action == "no_trade")
      && not (c.macro_compatibility == "blocked")
      && fl.le c.actionable_score_threshold c.candidate_score

  -- `experimental_strategy_weight_cap`
  unfoldable pub experimental_strategy_weight_cap : F → F
  experimental_strategy_weight_cap base_cap = min_of (fl.times base_cap (fl.lit 25 2)) (fl.lit 2 2)
