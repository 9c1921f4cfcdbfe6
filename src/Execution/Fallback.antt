-- ===== src/Execution/Fallback.antt =====
-- trading/execution/paper_execution.py: `_next_expression_decision`, which moves a decision that was not executed on to the
-- next expression of its plan.
pub mod Chains
use equity_research_agent.Prelude.{
  String, ◌==◌, Bool, false, true, not, ◌&&◌, List, [], ◌∷◌, Option, none, some, if◌then◌else◌,
  contains, filled, or_else, lookup,
}
use equity_research_agent.Prelude.Text.{strip}
use equity_research_agent.Execution.Attempts.{PlanEntry, TradingDecisionRecord}
use equity_research_agent.Execution.Stock.{executable_actions}

abbrev pub option_actions : List String
option_actions =
    "open_option_strategy" ∷ "close_option_strategy" ∷ "roll_option_strategy"
    ∷ "adjust_option_strategy" ∷ []

-- `str(value or "").strip()`
abbrev pub stripped : Option String → String
stripped value = strip (or_else (filled value) "")

-- `_fallback_option_strategy_payload`
abbrev pub fallback_option_strategy_payload : TradingDecisionRecord → String → Option String
fallback_option_strategy_payload d id = lookup id d.option_strategy_fallbacks

-- the id of an entry: one without an id stands for the decision's own expression
abbrev pub entry_id : TradingDecisionRecord → PlanEntry → String
entry_id d p = or_else (filled p.expression_bucket_id) d.expression_bucket_id

-- the decision for another expression, with its payload if it is an option
abbrev pub moved :
    TradingDecisionRecord → PlanEntry → String → String → Option String → TradingDecisionRecord
moved d p action instrument payload = record d {
  decision = action;
  expression_bucket_id = entry_id d p;
  expression_bucket_version =
      or_else (filled p.expression_bucket_version) d.expression_bucket_version;
  trade_identity = or_else (filled p.trade_identity) d.trade_identity;
  instrument_type = instrument;
  option_strategy = payload;
  execution_fallback_from = some d.expression_bucket_id;
  execution_fallback_to = some (entry_id d p);
}

-- an option needs a payload
unfoldable pub with_payload :
    TradingDecisionRecord
    → PlanEntry
    → String
    → String
    → Option String
    → Option TradingDecisionRecord
with_payload d p action instrument none = none
with_payload d p action instrument (some payload) =
    some (moved d p action instrument (some payload))

-- a test whose branch is a `continue`
unfoldable pub continue_if : Bool → Option TradingDecisionRecord → Option TradingDecisionRecord
continue_if true next = none
continue_if false next = next

-- what the loop makes of an entry behind the current one; `none` is a `continue`
unfoldable pub fallback_for :
    TradingDecisionRecord → PlanEntry → String → String → Option TradingDecisionRecord
fallback_for d p action instrument =
    continue_if (instrument == "stock" && not (contains executable_actions action)) (
      continue_if (instrument == "option" && not (contains option_actions action)) (
        continue_if (not (contains ("stock" ∷ "option" ∷ []) instrument)) (
          if instrument == "option"
          then with_payload d p action instrument
              (fallback_option_strategy_payload d (entry_id d p))
          else some (moved d p action instrument d.option_strategy))))

-- the loop, with whether the current expression was met
unfoldable pub next_from :
    TradingDecisionRecord → Bool → List PlanEntry → Option TradingDecisionRecord
next_from d matched [] = none
next_from d false (p ∷ ps) = next_from d (entry_id d p == d.expression_bucket_id) ps
next_from d true (p ∷ ps) =
    let rest = next_from d true ps in
    elim (fallback_for d p (stripped p.decision_action) (stripped p.instrument_type)) [
      | none ↦ rest
      | some next ↦ some next
    ]

-- `_next_expression_decision`
unfoldable pub next_expression_decision : TradingDecisionRecord → Option TradingDecisionRecord
next_expression_decision d = next_from d false d.expression_fallback_plan

-- the loop of `_remaining_fallback_expression_bucket_ids`
unfoldable pub remaining_from : String → Bool → List PlanEntry → List String
remaining_from current matched [] = []
remaining_from current false (p ∷ ps) =
    remaining_from current (or_else (filled p.expression_bucket_id) "" == current) ps
remaining_from current true (p ∷ ps) = elim (filled p.expression_bucket_id) [
  | none ↦ remaining_from current true ps
  | some id ↦ id ∷ remaining_from current true ps
]

-- `_remaining_fallback_expression_bucket_ids`
unfoldable pub remaining_fallback_expression_bucket_ids : TradingDecisionRecord → List String
remaining_fallback_expression_bucket_ids d =
    remaining_from d.expression_bucket_id false d.expression_fallback_plan
