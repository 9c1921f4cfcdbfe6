-- ===== src/Selection/Expressions.antt =====
-- trading/strategies/selector.py: the ranking of the expressions that a strategy allows. A definition has of its
-- `config_json` the keys that are read: the flags of `suitability` by their truth.
use Prim.Native.String.{◌++◌ as concat}
use equity_research_agent.Prelude.{
  ℕ, ◌+◌, String, ◌==◌, Bool, false, ◌&&◌, List, [], ◌∷◌, ◌++◌, map, Option, none, some,
  if◌then◌else◌, is_empty, Dict, lookup, insert,
}
use equity_research_agent.Prelude.Int.{ℤ, pos, negsuc, ◌+ℤ◌, ◌-ℤ◌, scale, leb_ℤ}
use equity_research_agent.Prelude.Sorting.{sorted}
use equity_research_agent.Float.{Float, zero_f}
use equity_research_agent.Strategies.{Evidence, flag, number, other, CandidateScoreRecord}

pub record Suitability : Type 0 where
  pub prefers_stock_when_entry_clean : Bool
  pub prefers_defined_risk : Bool
  pub requires_directional_clarity : Bool
  pub prefers_event_volatility : Bool
  pub penalize_binary_event_through_horizon : Bool

-- `config_json`, with the lists of its `selection_policy`, and of its own keys those that the policy of a decision reads
pub record Config : Type 0 where
  pub allowed_expression_bucket_ids : List String
  pub eligible_expression_bucket_ids : List String
  pub suitability : Suitability
  pub default_trade_identity : Option String
  pub allowed_instruments : List String
  pub allowed_option_strategy_types : List String
  pub earnings_policy : Option String

-- `StrategyDefinitionRecord`
pub record StrategyDefinitionRecord : Type 0 where
  pub strategy_id : String
  pub version : String
  pub strategy_layer : String
  pub config_json : Config
  pub is_active : Bool

-- an item of `_rank_allowed_expressions`
pub record Ranked : Type 0 where
  pub expression : StrategyDefinitionRecord
  pub score : ℤ
  pub reason : String

-- `ExpressionSelectionPlan`, with the entries of its context
pub record ExpressionSelectionPlan : Type 0 where
  pub selected_expression : StrategyDefinitionRecord
  pub fallback_expressions : List StrategyDefinitionRecord
  pub allowed_expression_bucket_ids : List String
  pub ranking_reasons : Dict String
  pub ranking_scores : Dict ℤ
  pub selected_score : ℤ
  pub selected_reason : String

-- `_allowed_expression_bucket_ids`
unfoldable pub allowed_expression_bucket_ids : StrategyDefinitionRecord → List String
allowed_expression_bucket_ids d =
    if is_empty d.config_json.allowed_expression_bucket_ids
    then d.config_json.eligible_expression_bucket_ids
    else d.config_json.allowed_expression_bucket_ids

-- the active definitions of a layer by their id: the last one of an id counts, in the place of the first
unfoldable pub by_id :
    String
    → List StrategyDefinitionRecord
    → Dict StrategyDefinitionRecord
    → Dict StrategyDefinitionRecord
by_id layer [] d = d
by_id layer (x ∷ xs) d =
    by_id layer xs
      (if x.strategy_layer == layer && x.is_active then insert x.strategy_id x d else d)

-- the points of a wish: what it adds where it is met, and what it takes where it is not
abbrev pub points : Bool → Bool → ℤ → ℤ → ℤ
points wished met plus minus = if wished then if met then plus else minus else pos 0

abbrev pub note : Bool → String → List String
note said text = if said then text ∷ [] else []

-- `", ".join(reasons)`, and the text where there is none
unfoldable pub join_reasons : List String → String
join_reasons [] = "declared order fallback"
join_reasons (x ∷ []) = x
join_reasons (x ∷ y ∷ ys) = concat x (concat ", " (join_reasons (y ∷ ys)))

-- two dictionaries of the context
unfoldable pub reasons_of : List Ranked → Dict String → Dict String
reasons_of [] d = d
reasons_of (x ∷ xs) d = reasons_of xs (insert x.expression.strategy_id x.reason d)

unfoldable pub scores_of : List Ranked → Dict ℤ → Dict ℤ
scores_of [] d = d
scores_of (x ∷ xs) d = scores_of xs (insert x.expression.strategy_id x.score d)

-- the order of the ranking: by the score, the highest first
abbrev pub ranks_before : Ranked → Ranked → Bool
ranks_before a b = leb_ℤ b.score a.score

-- the plan of a ranking
unfoldable pub plan_of : List String → List Ranked → Option ExpressionSelectionPlan
plan_of allowed [] = none
plan_of allowed (best ∷ rest) = some (record {
  selected_expression = best.expression;
  fallback_expressions = map (λ x. x.expression) rest;
  allowed_expression_bucket_ids = allowed;
  ranking_reasons = reasons_of (best ∷ rest) [];
  ranking_scores = scores_of (best ∷ rest) [];
  selected_score = best.score;
  selected_reason = best.reason;
})

module _ {F : Type 0} ⦃fl : Float F⦄ where
  -- `_evidence_bool`
  unfoldable pub evidence_bool : Option (Evidence F) → Bool
  evidence_bool none = false
  evidence_bool (some (flag b)) = b
  evidence_bool (some (number x)) = fl.lt zero_f x
  evidence_bool (some (other truth)) = truth

  abbrev pub has_evidence : CandidateScoreRecord F → String → Bool
  has_evidence c name = evidence_bool (lookup name c.core_signal_evidence)

  -- `_expression_rank`
  unfoldable pub expression_rank : CandidateScoreRecord F → StrategyDefinitionRecord → ℤ × String
  expression_rank c expression =
      let s = expression.config_json.suitability in
      let stock_entry_clean = has_evidence c "entry_signal.stock_entry_clean" in
      let directional_clarity = has_evidence c "signal_direction.directional_clarity" in
      let defined_risk = has_evidence c "risk_shape.defined_risk_preferred" in
      let binary_event = has_evidence c "event_context.binary_event_in_horizon" in
      let event_setup = binary_event && has_evidence c "event_context.event_volatility_matters" in
      (
        points s.prefers_stock_when_entry_clean stock_entry_clean (pos 4) (negsuc 1)
            +ℤ points s.prefers_defined_risk defined_risk (pos 3) (pos 0)
            +ℤ points s.requires_directional_clarity directional_clarity (pos 2) (negsuc 2)
            +ℤ points s.prefers_event_volatility event_setup (pos 5) (negsuc 0)
            +ℤ points s.penalize_binary_event_through_horizon binary_event (negsuc 3) (pos 0)
            +ℤ points (expression.strategy_id == "long_stock") stock_entry_clean (pos 0) (negsuc 0)
            +ℤ points (expression.strategy_id == "volatility_event_option") event_setup (pos 1)
                (pos 0),
        join_reasons (
            note (s.prefers_stock_when_entry_clean && stock_entry_clean) "clean stock entry"
            ++ note (s.prefers_defined_risk && defined_risk) "defined risk preferred"
            ++ note (s.requires_directional_clarity && directional_clarity)
                "directional clarity present"
            ++ note (s.prefers_event_volatility && event_setup) "event volatility setup"),
      )

  -- the item of an expression at its place among the allowed ones
  abbrev pub ranked_at : CandidateScoreRecord F → ℕ → StrategyDefinitionRecord → Ranked
  ranked_at c index expression = record {
    expression = expression;
    score = scale (expression_rank c expression).0 100 1 -ℤ pos index;
    reason = (expression_rank c expression).1;
  }

  -- the loop of `_rank_allowed_expressions`; an id without an active expression is passed over
  unfoldable pub rank_from :
      CandidateScoreRecord F → Dict StrategyDefinitionRecord → ℕ → List String → List Ranked
  rank_from c expressions index [] = []
  rank_from c expressions index (id ∷ ids) =
      let rest = rank_from c expressions (index + 1) ids in
      elim (lookup id expressions) [
        | none ↦ rest
        | some expression ↦ ranked_at c index expression ∷ rest
      ]

  -- `_rank_allowed_expressions`
  unfoldable pub rank_allowed_expressions :
      CandidateScoreRecord F → List String → Dict StrategyDefinitionRecord → List Ranked
  rank_allowed_expressions c allowed expressions =
      sorted ranks_before (rank_from c expressions 0 allowed)

  -- `ExpressionSelector.select`
  unfoldable pub select_expression :
      CandidateScoreRecord F
      → Option StrategyDefinitionRecord
      → Dict StrategyDefinitionRecord
      → Option ExpressionSelectionPlan
  select_expression c none expressions = none
  select_expression c (some definition) expressions =
      let allowed = allowed_expression_bucket_ids definition in
      if is_empty allowed
      then none
      else plan_of allowed (rank_allowed_expressions c allowed expressions)
