-- ===== src/Selection/Tests.antt =====
-- The theorems on the selection at two candidates of one ticker.
use equity_research_agent.Prelude.{
  none, ◌≡◌, refl, true, false, [], ◌∷◌, some, map, All, lookup, insert, List, String,
}
use equity_research_agent.Prelude.Int.{ℤ, ◌+ℤ◌, ◌-ℤ◌}
use equity_research_agent.Prelude.Sorting.{sorted, insert_sorted}
use equity_research_agent.Float.Micros.{micros, micros-FloatLaws}
use equity_research_agent.Strategies.{CandidateScoreRecord, flag, is_actionable}
use equity_research_agent.Risk.Samples.{candidate}
use equity_research_agent.Selection.Expressions.{
  StrategyDefinitionRecord, allowed_expression_bucket_ids, by_id, join_reasons, plan_of,
  evidence_bool, expression_rank, rank_from, rank_allowed_expressions, select_expression,
}
use equity_research_agent.Selection.Choice.{
  SelectedTradeRecord, max_by, max_of_list, add_to_group, group_candidates, choose_actionable,
  add_actionable, add_group, add_groups, select,
}
use equity_research_agent.Selection.Best.{IsBest, select-AreBest}
use equity_research_agent.Selection.Plans.{Answers, select_expression-Answers}

abbrev clean : CandidateScoreRecord ℤ
clean = record candidate {
  strategy_id = "swing";
  core_signal_evidence = ("entry_signal.stock_entry_clean", flag true) ∷ [];
}

abbrev better : CandidateScoreRecord ℤ
better = record clean { candidate_score_id = "score-2"; candidate_score = micros.lit 95 2 }

abbrev swing : StrategyDefinitionRecord
swing = record {
  strategy_id = "swing";
  version = "v1";
  strategy_layer = "tactical_pattern";
  config_json = record {
    allowed_expression_bucket_ids = "defined_risk" ∷ "long_stock" ∷ [];
    eligible_expression_bucket_ids = [];
    default_trade_identity = none;
    allowed_instruments = [];
    allowed_option_strategy_types = [];
    earnings_policy = none;
    suitability = record {
      prefers_stock_when_entry_clean = false;
      prefers_defined_risk = false;
      requires_directional_clarity = false;
      prefers_event_volatility = false;
      penalize_binary_event_through_horizon = false;
    };
  };
  is_active = true;
}

abbrev defined_risk : StrategyDefinitionRecord
defined_risk = record swing { strategy_id = "defined_risk"; strategy_layer = "expression_bucket" }

abbrev long_stock : StrategyDefinitionRecord
long_stock = record defined_risk {
  strategy_id = "long_stock";
  config_json = record swing.config_json {
    suitability = record swing.config_json.suitability { prefers_stock_when_entry_clean = true };
  };
}

abbrev definitions : List StrategyDefinitionRecord
definitions = swing ∷ defined_risk ∷ long_stock ∷ []

select-AreBest_example :
    All
      (λ (t : SelectedTradeRecord ℤ). IsBest micros-FloatLaws (clean ∷ better ∷ []) t.candidate)
      (select (λ n. "w") (clean ∷ better ∷ []) definitions).selected_trades
select-AreBest_example =
    select-AreBest micros-FloatLaws (λ n. "w") (clean ∷ better ∷ []) definitions (refl, (refl, tt))

select_expression-Answers_example :
    Answers clean
      (by_id "expression_bucket" definitions [])
      (allowed_expression_bucket_ids swing)
      (select_expression clean (some swing) (by_id "expression_bucket" definitions []))
select_expression-Answers_example =
    select_expression-Answers clean (by_id "expression_bucket" definitions []) swing

abbrev outcome_of : SelectedTradeRecord ℤ → String × String
outcome_of t = (t.candidate.candidate_score_id, t.selected_expression_bucket_id)

-- the better candidate is selected, as a stock since its entry is clean
selected_stock :
    map outcome_of (select (λ n. "w") (clean ∷ better ∷ []) definitions).selected_trades
    ≡ ("score-2", "long_stock") ∷ []
unfolding select by_id add_groups group_candidates add_to_group choose_actionable max_of_list max_by
    add_group add_actionable select_expression plan_of rank_allowed_expressions rank_from
    expression_rank evidence_bool allowed_expression_bucket_ids join_reasons sorted insert_sorted
    lookup insert is_actionable ◌+ℤ◌ ◌-ℤ◌
selected_stock = refl
