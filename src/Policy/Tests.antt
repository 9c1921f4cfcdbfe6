-- ===== src/Policy/Tests.antt =====
-- The theorems on the policy of a decision at a call with a spread and stock behind it.
use equity_research_agent.Prelude.{
  ℕ, suc, zero, String, ◌≡◌, refl, true, false, List, [], ◌∷◌, none, some, map, or_else, Dict,
  lookup,
}
use equity_research_agent.Prelude.Int.{ℤ, pos}
use equity_research_agent.Float.Micros.{micros}
use equity_research_agent.Prelude.Text.{lower, strip}
use equity_research_agent.Strategies.{TradeClassificationRecord}
use equity_research_agent.Risk.Samples.{candidate, classification}
use equity_research_agent.Selection.Expressions.{StrategyDefinitionRecord}
use equity_research_agent.Execution.Attempts.{PlanEntry, TradingDecisionRecord}
use equity_research_agent.Execution.Fallback.{
  next_expression_decision, next_from, fallback_for, continue_if, with_payload,
  remaining_fallback_expression_bucket_ids,
}
use equity_research_agent.Execution.Fallback.Chains.{repeat_next}
use equity_research_agent.Policy.{
  OptionPayload, selected_id, fallback_ids, instrument_type_from_trade_identity,
  instrument_type_for_expression_definition, decision_action_for_expression, plan_entry,
  fallback_entries, resolve_expression_fallback_plan, allowed_types, preferred_type, unpreferred,
  choose_among, choose_option_strategy_type, expression_earnings_policy,
  apply_expression_policy_to_option_payload,
}
use equity_research_agent.Policy.Terms.{
  expression_option_policy, expression_requires_implied_volatility, option_days_to_expiry,
  option_profit_target_pct, option_max_loss_rule, option_roll_conditions,
}
use equity_research_agent.Policy.Ordered.{resolved-Ends}
use equity_research_agent.Policy.ReadBack.{after, remaining-resolved}
use equity_research_agent.Policy.Allowed.{IsChosen, Prefers, choose_option_strategy_type-IsChosen}

abbrev directional : StrategyDefinitionRecord
directional = record {
  strategy_id = "defined_risk_directional_option";
  version = "v2";
  strategy_layer = "expression_bucket";
  config_json = record {
    allowed_expression_bucket_ids = [];
    eligible_expression_bucket_ids = [];
    suitability = record {
      prefers_stock_when_entry_clean = false;
      prefers_defined_risk = true;
      requires_directional_clarity = false;
      prefers_event_volatility = false;
      penalize_binary_event_through_horizon = false;
    };
    default_trade_identity = some "tactical_option_trade";
    allowed_instruments = "paper_option_strategy" ∷ [];
    allowed_option_strategy_types = [];
    earnings_policy = none;
  };
  is_active = true;
}

abbrev stock : StrategyDefinitionRecord
stock = record directional {
  strategy_id = "long_stock";
  config_json = record directional.config_json {
    default_trade_identity = some "tactical_stock_trade";
    allowed_instruments = "common_stock" ∷ [];
  };
}

abbrev definitions : Dict StrategyDefinitionRecord
definitions = ("defined_risk_directional_option", directional) ∷ ("long_stock", stock) ∷ []

-- the selected expression among its own fallbacks, and one without a definition
abbrev call_first : TradeClassificationRecord
call_first = record classification {
  expression_bucket_id = "defined_risk_directional_option";
  selected_expression_bucket_id = some "defined_risk_directional_option";
  fallback_expression_bucket_ids =
      "retired" ∷ "defined_risk_directional_option" ∷ "long_stock" ∷ [];
}

abbrev call_decision : TradingDecisionRecord
call_decision = record {
  trading_decision_id = "t-1";
  risk_decision_id = some "d";
  ticker = "AAPL";
  decision = "open_option_strategy";
  strategy_id = "swing";
  expression_bucket_id = "defined_risk_directional_option";
  expression_bucket_version = "v2";
  trade_identity = "tactical_option_trade";
  instrument_type = "option";
  manual_request_id = none;
  paper_trade_authorized = true;
  expression_fallback_plan = resolve_expression_fallback_plan candidate call_first definitions;
  manual_request_mode = none;
  option_strategy_fallbacks = [];
  option_strategy = some "call";
  execution_fallback_from = none;
  execution_fallback_to = none;
}

resolved-Ends_example : repeat_next 4 call_decision ≡ none
resolved-Ends_example =
    resolved-Ends candidate call_first definitions call_decision
      (record {
        selected_named = refl;
        fallback_named = (refl, (refl, (refl, tt)));
        fallback_unique = (refl, (refl, (refl, tt)));
      })
      refl

remaining-resolved_example :
    remaining_fallback_expression_bucket_ids
      (record call_decision { expression_bucket_id = "retired" })
    ≡ after "retired" (selected_id call_first ∷ fallback_ids call_first)
remaining-resolved_example =
    remaining-resolved candidate call_first definitions
      (record call_decision { expression_bucket_id = "retired" }) refl (refl, (refl, (refl, tt)))
      refl

stock_remains :
    after "retired" (selected_id call_first ∷ fallback_ids call_first) ≡ "long_stock" ∷ []
stock_remains = refl

choose_option_strategy_type-IsChosen_example :
    let allowed = allowed_types "defined_risk_directional_option" directional in
    let answer =
      choose_option_strategy_type "defined_risk_directional_option" directional "Bearish" false in
    IsChosen allowed answer
    × Prefers "defined_risk_directional_option" allowed
        (preferred_type (lower "Bearish") "defined_risk_directional_option")
        answer
choose_option_strategy_type-IsChosen_example =
    choose_option_strategy_type-IsChosen "defined_risk_directional_option" directional "Bearish"
      false

abbrev actions_of : List PlanEntry → List String
actions_of = map λ p. or_else p.decision_action ""

resolved_actions :
    actions_of call_decision.expression_fallback_plan
    ≡ "open_option_strategy" ∷ "enter_long" ∷ "enter_long" ∷ []
unfolding resolve_expression_fallback_plan fallback_entries plan_entry
    decision_action_for_expression instrument_type_for_expression_definition
    instrument_type_from_trade_identity lookup lower strip
resolved_actions = refl

bearish_is_put :
    choose_option_strategy_type "defined_risk_directional_option" directional "Bearish" false
    ≡ some "long_put"
unfolding choose_option_strategy_type choose_among unpreferred allowed_types preferred_type lookup
    lower
bearish_is_put = refl

abbrev open_payload : OptionPayload
open_payload = record { status = "open"; rejection_reason = none; policy_rejection = none }

event_blocks :
    (apply_expression_policy_to_option_payload open_payload "defined_risk_directional_option"
      directional true).status
    ≡ "rejected"
unfolding apply_expression_policy_to_option_payload expression_earnings_policy lookup
event_blocks = refl

-- a straddle over an event, by the policy of its name
volatility_terms :
    let policy = expression_option_policy {F = ℤ} none "volatility_event_option" in
    (option_days_to_expiry policy true ≡ pos 7)
    × (option_days_to_expiry policy false ≡ pos 21)
    × (option_profit_target_pct policy ≡ micros.lit 35 2)
    × (option_max_loss_rule "long_straddle" policy ≡ "net_debit")
    × (option_roll_conditions "long_straddle" policy ≡ "event_window_only" ∷ [])
    × (expression_requires_implied_volatility {F = ℤ} none "volatility_event_option" ≡ true)
unfolding expression_option_policy option_days_to_expiry option_profit_target_pct
    option_max_loss_rule option_roll_conditions expression_requires_implied_volatility lookup
volatility_terms = (refl, refl, refl, refl, refl, refl)

-- a decision on an option whose plan has its fallback twice
abbrev twice : PlanEntry
twice = record {
  expression_bucket_id = some "spread";
  expression_bucket_version = some "v1";
  trade_identity = some "tactical_option_trade";
  instrument_type = some "option";
  decision_action = some "open_option_strategy";
  rank = 1;
  is_selected = false;
}

abbrev doubled : TradingDecisionRecord
doubled = record call_decision {
  expression_bucket_id = "spread";
  expression_bucket_version = "v1";
  expression_fallback_plan =
      record twice { expression_bucket_id = some "call" } ∷ twice ∷ twice ∷ [];
  option_strategy_fallbacks = ("spread", "legs") ∷ [];
  option_strategy = some "legs";
  execution_fallback_from = some "spread";
  execution_fallback_to = some "spread";
}

doubled_again : next_expression_decision doubled ≡ some doubled
unfolding next_expression_decision next_from fallback_for continue_if with_payload lookup strip
doubled_again = refl

-- it moves on to itself, however often
doubled_stays : (n : ℕ) → repeat_next n doubled ≡ some doubled
unfolding repeat_next
doubled_stays zero = refl
doubled_stays (suc n) = rw (repeat_next, doubled_again) (doubled_stays n)
