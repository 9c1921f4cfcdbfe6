-- ===== src/Selection/Choice.antt =====
-- trading/strategies/selector.py: `PrimaryStrategySelector.select` and `advance_selected_trade_expression`. The ids of
-- `uuid4` are an argument. The `benchmark_context` that is copied into a context is left out.
use equity_research_agent.Prelude.{
  ℕ, String, ◌==◌, Bool, false, true, not, ◌&&◌, ◌||◌, List, [], ◌∷◌, ◌++◌, map, Option, none, some,
  if◌then◌else◌, is_none, is_empty, keep, same_text, contains, ltb, eqb, length, Dict, lookup,
}
use equity_research_agent.Float.{Float, one_f, zero_f}
use equity_research_agent.Strategies.{
  Evidence, flag, number, other, CandidateScoreRecord, is_actionable,
}
use equity_research_agent.Selection.Expressions.{
  Config, StrategyDefinitionRecord, ExpressionSelectionPlan, by_id, select_expression,
}

-- `_selection_context`
pub record SelectionContext (F : Type 0) : Type 0 where
  pub candidate_score_id : String
  pub candidate_score : F
  pub strategy_id : String
  pub strategy_version : String
  pub candidate_status : String
  pub rejection_reason : Option String
  pub selection_reason : String

-- `SelectedTradeRecord`; the keys that `advance_selected_trade_expression` writes over the context stand beside it
pub record SelectedTradeRecord (F : Type 0) : Type 0 where
  pub candidate : CandidateScoreRecord F
  pub selected_expression_bucket_id : String
  pub selected_expression_bucket_version : String
  pub selected_expression_bucket_config : Config
  pub fallback_expression_bucket_ids : List String
  pub expression_selection_context : ExpressionSelectionPlan
  pub advanced_from_expression_bucket_id : Option String
  pub selection_context : SelectionContext F

-- `WatchCandidateRecord`
pub record WatchCandidateRecord (F : Type 0) : Type 0 where
  pub watch_candidate_id : String
  pub candidate : CandidateScoreRecord F
  pub watch_strategy_id : String
  pub watch_strategy_version : String
  pub watch_type : Option String
  pub result_status : String
  pub watch_reason : String
  pub selection_context : SelectionContext F

-- `PrimarySelectionResult`
pub record PrimarySelectionResult (F : Type 0) : Type 0 where
  pub selected_trades : List (SelectedTradeRecord F)
  pub watch_candidates : List (WatchCandidateRecord F)

-- `max(xs, key=...)` of a list that begins with `best`: the first item that no other exceeds
unfoldable pub max_by : {A : Type 0} → (A → A → Bool) → A → List A → A
max_by less best [] = best
max_by less best (x ∷ xs) = max_by less (if less best x then x else best) xs

unfoldable pub max_of_list : {A : Type 0} → (A → A → Bool) → List A → Option A
max_of_list less [] = none
max_of_list less (x ∷ xs) = some (max_by less x xs)

-- the candidates of one ticker and action
abbrev pub Group : Type 0 → Type 0
Group F = (String × String) × List (CandidateScoreRecord F)

module _ {F : Type 0} where
  -- whether a candidate has the key of a group
  abbrev pub in_group : String × String → CandidateScoreRecord F → Bool
  in_group key c = c.ticker == key.0 && c.action == key.1

  -- `grouped.setdefault((ticker, action), []).append(candidate)`
  unfoldable pub add_to_group : CandidateScoreRecord F → List (Group F) → List (Group F)
  add_to_group c [] = ((c.ticker, c.action), c ∷ []) ∷ []
  add_to_group c (g ∷ gs) =
      if in_group g.0 c then (g.0, g.1 ++ c ∷ []) ∷ gs else g ∷ add_to_group c gs

  -- `_group_candidates`, on top of the groups so far
  unfoldable pub group_candidates : List (CandidateScoreRecord F) → List (Group F) → List (Group F)
  group_candidates [] groups = groups
  group_candidates (c ∷ cs) groups = group_candidates cs (add_to_group c groups)

  -- `_selection_context`
  abbrev pub selection_context : CandidateScoreRecord F → SelectionContext F
  selection_context c = record {
    candidate_score_id = c.candidate_score_id;
    candidate_score = c.candidate_score;
    strategy_id = c.strategy_id;
    strategy_version = c.strategy_version;
    candidate_status = c.candidate_status;
    rejection_reason = c.rejection_reason;
    selection_reason = c.selection_reason;
  }

module _ {F : Type 0} ⦃fl : Float F⦄ where
  -- the keys of `max` in `_choose_actionable`
  abbrev pub scores_less : CandidateScoreRecord F → CandidateScoreRecord F → Bool
  scores_less a b = fl.lt a.candidate_score b.candidate_score

  -- `_choose_actionable`
  unfoldable pub choose_actionable : List (CandidateScoreRecord F) → Option (CandidateScoreRecord F)
  choose_actionable candidates = max_of_list scores_less (keep is_actionable candidates)

  -- a value of the evidence that is an `int` or a `float`: a bool is one or zero
  unfoldable pub numeric : Option (Evidence F) → Option F
  numeric none = none
  numeric (some (flag true)) = some one_f
  numeric (some (flag false)) = some zero_f
  numeric (some (number x)) = some x
  numeric (some (other truth)) = none

  abbrev pub at_least : F → Option F → Bool
  at_least bound none = false
  at_least bound (some x) = fl.le bound x

  -- `_has_high_move_potential`
  unfoldable pub has_high_move_potential : CandidateScoreRecord F → Bool
  has_high_move_potential c =
      at_least (fl.lit 75 2)
        (numeric (lookup "events_news.catalyst_quality_score" c.core_signal_evidence))
      || (at_least one_f
            (numeric (lookup "events_news.high_signal_news_count_24h" c.core_signal_evidence))
          && fl.le (fl.lit 55 2) c.candidate_score)

  -- the priority in `_watch_sort_key`
  unfoldable pub watch_priority : CandidateScoreRecord F → ℕ
  watch_priority c =
      if same_text c.rejection_reason "no_clean_entry" && has_high_move_potential c
      then 4
      else if same_text c.rejection_reason "unsupported_missing_signal_family"
      then 0
      else if same_text c.rejection_reason "direct_negative_catalyst"
          || same_text c.rejection_reason "macro_regime_blocked"
      then 2
      else if c.action == "no_trade"
      then 3
      else 1

  -- the comparison of two pairs of `_watch_sort_key`
  abbrev pub watch_less : CandidateScoreRecord F → CandidateScoreRecord F → Bool
  watch_less a b =
      ltb (watch_priority a) (watch_priority b)
      || (eqb (watch_priority a) (watch_priority b) && scores_less a b)

  abbrev pub is_watchable : CandidateScoreRecord F → Bool
  is_watchable c =
      contains ("watch" ∷ "blocked" ∷ []) c.candidate_status
      || not (is_none c.rejection_reason)
      || c.action == "no_trade"

  -- `_choose_watch_candidate`
  unfoldable pub choose_watch_candidate :
      List (CandidateScoreRecord F) → Option (CandidateScoreRecord F)
  choose_watch_candidate candidates = max_of_list watch_less (keep is_watchable candidates)

  -- `_watch_state_for_candidate`: the type, the status and the reason
  unfoldable pub watch_state_for_candidate : CandidateScoreRecord F → String × String × String
  watch_state_for_candidate c =
      if same_text c.rejection_reason "unsupported_missing_signal_family"
      then (
        "ordinary_watch", "blocked_by_missing_data",
        "required source family is missing or unsupported",
      )
      else if same_text c.rejection_reason "no_clean_entry" && has_high_move_potential c
      then (
        "catalyst_watch", "catalyst_watch",
        "move potential is high but direction or entry is uncertain",
      )
      else if same_text c.rejection_reason "direct_negative_catalyst"
      then ("ordinary_watch", "no_trade", "direct negative catalyst blocks the candidate")
      else if same_text c.rejection_reason "macro_regime_blocked"
      then ("ordinary_watch", "no_trade", "macro regime blocks the strategy")
      else if not (is_empty c.missing_required_signals)
      then (
        "ordinary_watch", "blocked_by_missing_data",
        "required decision-time signals are still missing",
      )
      else if c.action == "no_trade"
      then (
        "ordinary_watch", "ordinary_watch",
        "candidate is intentionally retained as a no-trade watch",
      )
      else ("ordinary_watch", "ordinary_watch", "candidate is not trade-eligible")

  -- `_watch_candidate_for_candidate`, with the state of the candidate or a given one
  abbrev pub watch_candidate :
      String → CandidateScoreRecord F → String × String × String → WatchCandidateRecord F
  watch_candidate id c (type, status, reason) = record {
    watch_candidate_id = id;
    candidate = c;
    watch_strategy_id = c.strategy_id;
    watch_strategy_version = c.strategy_version;
    watch_type = some type;
    result_status = status;
    watch_reason = reason;
    selection_context = selection_context c;
  }

  -- the trade of a candidate and a plan
  abbrev pub trade_of : CandidateScoreRecord F → ExpressionSelectionPlan → SelectedTradeRecord F
  trade_of c plan = record {
    candidate = c;
    selected_expression_bucket_id = plan.selected_expression.strategy_id;
    selected_expression_bucket_version = plan.selected_expression.version;
    selected_expression_bucket_config = plan.selected_expression.config_json;
    fallback_expression_bucket_ids = map (λ e. e.strategy_id) plan.fallback_expressions;
    expression_selection_context = plan;
    advanced_from_expression_bucket_id = none;
    selection_context = selection_context c;
  }

  module _ (uuid4 : ℕ → String) (tactical expressions : Dict StrategyDefinitionRecord) where
    abbrev pub add_trade :
        SelectedTradeRecord F → PrimarySelectionResult F → PrimarySelectionResult F
    add_trade trade r = record r { selected_trades = r.selected_trades ++ trade ∷ [] }

    -- a watch entry; each takes one id
    abbrev pub add_watch :
        CandidateScoreRecord F
        → String × String × String
        → PrimarySelectionResult F
        → PrimarySelectionResult F
    add_watch c state r = record r {
      watch_candidates =
          r.watch_candidates ++ watch_candidate (uuid4 (length r.watch_candidates)) c state ∷ [];
    }

    -- the outcome of an actionable candidate, with its plan if it has one
    unfoldable pub add_actionable :
        CandidateScoreRecord F
        → Option ExpressionSelectionPlan
        → PrimarySelectionResult F
        → PrimarySelectionResult F
    add_actionable c (some plan) r = add_trade (trade_of c plan) r
    add_actionable c none r =
        add_watch c
          (
            "ordinary_watch", "ordinary_watch",
            "strategy has no eligible active expression bucket mapping",
          )
          r

    -- the outcome of a group without an actionable candidate
    unfoldable pub add_watchable :
        Option (CandidateScoreRecord F) → PrimarySelectionResult F → PrimarySelectionResult F
    add_watchable none r = r
    add_watchable (some c) r = add_watch c (watch_state_for_candidate c) r

    -- the outcome of a group, given its actionable candidate
    unfoldable pub add_group :
        List (CandidateScoreRecord F)
        → Option (CandidateScoreRecord F)
        → PrimarySelectionResult F
        → PrimarySelectionResult F
    add_group group (some c) r =
        add_actionable c (select_expression c (lookup c.strategy_id tactical) expressions) r
    add_group group none r = add_watchable (choose_watch_candidate group) r

    -- the loop over the groups
    unfoldable pub add_groups : List (Group F) → PrimarySelectionResult F → PrimarySelectionResult F
    add_groups [] r = r
    add_groups (g ∷ gs) r = add_groups gs (add_group g.1 (choose_actionable g.1) r)

  -- `PrimaryStrategySelector.select`
  unfoldable pub select :
      (ℕ → String)
      → List (CandidateScoreRecord F)
      → List StrategyDefinitionRecord
      → PrimarySelectionResult F
  select uuid4 candidates definitions =
      add_groups uuid4 (by_id "tactical_pattern" definitions [])
        (by_id "expression_bucket" definitions []) (group_candidates candidates [])
        (record { selected_trades = []; watch_candidates = [] })

  -- the trade after it moved on to an expression
  abbrev pub advanced :
      SelectedTradeRecord F → StrategyDefinitionRecord → List String → SelectedTradeRecord F
  advanced trade next remaining = record trade {
    selected_expression_bucket_id = next.strategy_id;
    selected_expression_bucket_version = next.version;
    selected_expression_bucket_config = next.config_json;
    fallback_expression_bucket_ids = remaining;
    advanced_from_expression_bucket_id = some trade.selected_expression_bucket_id;
  }

  -- the loop of `advance_selected_trade_expression`
  unfoldable pub advance_through :
      SelectedTradeRecord F
      → Dict StrategyDefinitionRecord
      → List String
      → Option (SelectedTradeRecord F)
  advance_through trade expressions [] = none
  advance_through trade expressions (id ∷ ids) =
      let rest = advance_through trade expressions ids in
      elim (lookup id expressions) [ none ↦ rest | some next ↦ some (advanced trade next ids) ]

  -- `advance_selected_trade_expression`
  unfoldable pub advance_selected_trade_expression :
      SelectedTradeRecord F → List StrategyDefinitionRecord → Option (SelectedTradeRecord F)
  advance_selected_trade_expression trade definitions =
      advance_through trade (by_id "expression_bucket" definitions [])
        trade.fallback_expression_bucket_ids
