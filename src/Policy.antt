-- ===== src/Policy.antt =====
-- trading/decision/option_strategy_builder/policy.py: in which order a decision tries its expressions, and what it does for
-- each of them.
pub mod Ordered
pub mod ReadBack
pub mod Allowed
pub mod Terms
mod Tests
use equity_research_agent.Prelude.{
  ℕ, zero, suc, String, ◌==◌, Bool, true, false, not, ◌&&◌, ◌||◌, List, [], ◌∷◌, Option, none, some,
  if◌then◌else◌, is_empty, contains, first, keep, filled, or_else, same_text, Dict, lookup,
}
use equity_research_agent.Prelude.Text.{strip, lower}
use equity_research_agent.Strategies.{CandidateScoreRecord, TradeClassificationRecord}
use equity_research_agent.Selection.Expressions.{StrategyDefinitionRecord}
use equity_research_agent.Execution.Attempts.{PlanEntry}

-- `_instrument_type_from_trade_identity`
unfoldable pub instrument_type_from_trade_identity : String → String
instrument_type_from_trade_identity identity =
    if identity == "watch_only"
    then "watch"
    else if identity == "tactical_option_trade"
    then "option"
    else "stock"

-- `_instrument_type_for_expression_definition`
unfoldable pub instrument_type_for_expression_definition :
    StrategyDefinitionRecord → String → String
instrument_type_for_expression_definition definition identity =
    if contains definition.config_json.allowed_instruments "paper_option_strategy"
    then "option"
    else if contains definition.config_json.allowed_instruments "common_stock"
    then "stock"
    else instrument_type_from_trade_identity identity

-- `_decision_action_for_expression`
unfoldable pub decision_action_for_expression : String → String → String → String
decision_action_for_expression candidate_action instrument identity =
    if instrument == "option" || identity == "tactical_option_trade"
    then "open_option_strategy"
    else let action = lower (strip candidate_action) in
      if action == "trim"
      then "reduce"
      else if action == "add"
      then "enter_long"
      else if contains ("enter_long" ∷ "enter_short" ∷ "reduce" ∷ "exit" ∷ "no_trade" ∷ "hold" ∷ [])
          action
      then action
      else "enter_long"

-- the expression that the selection chose, or else the one of the classification
abbrev pub selected_id : TradeClassificationRecord → String
selected_id c = or_else (filled c.selected_expression_bucket_id) c.expression_bucket_id

-- the other expressions, without the selected one
abbrev pub fallback_ids : TradeClassificationRecord → List String
fallback_ids c = keep (λ item. not (item == selected_id c)) c.fallback_expression_bucket_ids

-- an entry of the plan from its parts
abbrev pub entry_of : String → String → String → String → String → ℕ → Bool → PlanEntry
entry_of candidate_action id version identity instrument rank chosen = record {
  expression_bucket_id = some id;
  expression_bucket_version = some version;
  trade_identity = some identity;
  instrument_type = some instrument;
  decision_action = some (decision_action_for_expression candidate_action instrument identity);
  rank = rank;
  is_selected = chosen;
}

-- the entry of an expression, by its definition where there is one
unfoldable pub plan_entry :
    String
    → TradeClassificationRecord
    → Bool
    → ℕ
    → String
    → Option StrategyDefinitionRecord
    → PlanEntry
plan_entry candidate_action c chosen rank id none =
    let identity = if chosen then c.trade_identity else "" in
    entry_of candidate_action id (if chosen then c.expression_bucket_version else "unknown")
      identity (instrument_type_from_trade_identity identity) rank chosen
plan_entry candidate_action c chosen rank id (some definition) =
    let identity =
      or_else (filled definition.config_json.default_trade_identity)
        (if chosen then c.trade_identity else "") in
    entry_of candidate_action id definition.version identity
      (instrument_type_for_expression_definition definition identity) rank chosen

-- the entries of the fallback expressions
unfoldable pub fallback_entries :
    String
    → TradeClassificationRecord
    → Dict StrategyDefinitionRecord
    → ℕ
    → List String
    → List PlanEntry
fallback_entries candidate_action c definitions rank [] = []
fallback_entries candidate_action c definitions rank (id ∷ ids) =
    plan_entry candidate_action c false rank id (lookup id definitions)
    ∷ fallback_entries candidate_action c definitions (suc rank) ids

-- `_resolve_expression_fallback_plan`
unfoldable pub resolve_expression_fallback_plan :
    {F : Type 0}
    → CandidateScoreRecord F
    → TradeClassificationRecord
    → Dict StrategyDefinitionRecord
    → List PlanEntry
resolve_expression_fallback_plan candidate c definitions =
    plan_entry candidate.action c true 0 (selected_id c) (lookup (selected_id c) definitions)
    ∷ fallback_entries candidate.action c definitions 1 (fallback_ids c)

-- the option strategies that an expression may use, by its own list or by that of its name
unfoldable pub allowed_types : String → StrategyDefinitionRecord → List String
allowed_types id definition =
    if is_empty definition.config_json.allowed_option_strategy_types
    then or_else
        (lookup id (
          ("defined_risk_directional_option", "long_call" ∷ "long_put" ∷ [])
          ∷ ("defined_risk_income_spread", "put_credit_spread" ∷ "call_credit_spread" ∷ [])
          ∷ ("volatility_event_option", "long_straddle" ∷ "long_strangle" ∷ [])
          ∷ []))
        []
    else definition.config_json.allowed_option_strategy_types

-- `preferred_by_direction`
unfoldable pub preferred_type : String → String → Option String
preferred_type direction id =
    if direction == "bullish"
    then lookup id (
        ("defined_risk_directional_option", "long_call")
        ∷ ("defined_risk_income_spread", "put_credit_spread")
        ∷ ("volatility_event_option", "long_strangle")
        ∷ [])
    else if direction == "bearish"
    then lookup id (
        ("defined_risk_directional_option", "long_put")
        ∷ ("defined_risk_income_spread", "call_credit_spread")
        ∷ ("volatility_event_option", "long_strangle")
        ∷ [])
    else none

-- the choice where no preference is allowed
unfoldable pub unpreferred : String → String → List String → Option String
unpreferred id direction allowed =
    if id == "volatility_event_option"
      && contains allowed "long_straddle"
      && not (contains ("bullish" ∷ "bearish" ∷ []) direction)
    then some "long_straddle"
    else first allowed

-- the choice among the allowed strategies
unfoldable pub choose_among : String → String → Bool → List String → Option String → Option String
choose_among id direction event_through_expiry allowed none = unpreferred id direction allowed
choose_among id direction event_through_expiry allowed (some preferred) =
    if contains allowed preferred
    then if id == "volatility_event_option"
        && event_through_expiry
        && contains allowed "long_straddle"
      then some "long_straddle"
      else some preferred
    else unpreferred id direction allowed

-- `_choose_option_strategy_type`
unfoldable pub choose_option_strategy_type :
    String → StrategyDefinitionRecord → String → Bool → Option String
choose_option_strategy_type id definition direction event_through_expiry =
    choose_among id (lower direction) event_through_expiry (allowed_types id definition)
      (preferred_type (lower direction) id)

-- the fields of an option payload that the earnings policy changes
pub record OptionPayload : Type 0 where
  pub status : String
  pub rejection_reason : Option String
  pub policy_rejection : Option (Option String × Bool)

-- `_expression_earnings_policy`
unfoldable pub expression_earnings_policy : String → StrategyDefinitionRecord → Option String
expression_earnings_policy id definition = elim (filled definition.config_json.earnings_policy) [
  | some value ↦ some value
  | none ↦ lookup id (
      ("defined_risk_directional_option", "avoid_unpriced_high_risk_events")
      ∷ ("defined_risk_income_spread", "avoid_holding_through_unapproved_binary_events")
      ∷ ("volatility_event_option", "event_through_expiry_must_be_explicit")
      ∷ [])
]

-- whether the policy blocks an option that is held through an event, or one that is not
abbrev pub is_blocked : Option String → Bool → Bool
is_blocked policy event_through_expiry =
    ((same_text policy "avoid_unpriced_high_risk_events"
        || same_text policy "avoid_holding_through_unapproved_binary_events")
      && event_through_expiry)
    || (same_text policy "event_through_expiry_must_be_explicit" && not event_through_expiry)

-- `_apply_expression_policy_to_option_payload`
unfoldable pub apply_expression_policy_to_option_payload :
    OptionPayload → String → StrategyDefinitionRecord → Bool → OptionPayload
apply_expression_policy_to_option_payload payload id definition event_through_expiry =
    let policy = expression_earnings_policy id definition in
    if is_blocked policy event_through_expiry
    then record {
      status = "rejected";
      rejection_reason = some "earnings_policy_blocked";
      policy_rejection = some (policy, event_through_expiry);
    }
    else payload
