-- ===== src/Risk/Intent.antt =====
-- What the gate of trading/risk/manager.py reads from the planner's intent.
use equity_research_agent.Prelude.{
  ℕ, String, ◌==◌, Bool, ◌&&◌, not, List, [], ◌∷◌, ◌++◌, Option, none, some, if◌then◌else◌, keep,
  first, leb, contains,
}
use equity_research_agent.Prelude.Sorting.{sorted}
use equity_research_agent.Risk.Context.{
  PositionRiskActionRecord, HedgeActionRecord, HedgePosture, PortfolioRiskIntentRecord,
}

-- the dictionary `priority`, with its default
unfoldable pub priority : String → ℕ
priority action =
    if action == "block_open"
    then 0
    else if action == "force_reduce"
    then 1
    else if action == "reduce"
    then 2
    else if action == "allow"
    then 3
    else 99

module _ {F : Type 0} where
  abbrev pub concerns : String → String → PositionRiskActionRecord F → Bool
  concerns ticker trade_identity a = a.ticker == ticker && a.trade_identity == trade_identity

  abbrev pub more_urgent : PositionRiskActionRecord F → PositionRiskActionRecord F → Bool
  more_urgent a b = leb (priority a.action) (priority b.action)

  -- `_matching_planner_position_action`
  unfoldable pub matching_planner_position_action :
      Option (PortfolioRiskIntentRecord F) → String → String → Option (PositionRiskActionRecord F)
  matching_planner_position_action none ticker trade_identity = none
  matching_planner_position_action (some intent) ticker trade_identity =
      first (sorted more_urgent (keep (concerns ticker trade_identity) intent.position_actions))

  -- `_generated_hedge_action`: the payload has the action's own fields
  unfoldable pub generated_hedge_action :
      Option (PortfolioRiskIntentRecord F) → Option (HedgeActionRecord F)
  generated_hedge_action none = none
  generated_hedge_action (some intent) = first intent.hedge_actions

  -- `_hedge_risk_source`
  unfoldable pub hedge_risk_source : Option (PortfolioRiskIntentRecord F) → Option String
  hedge_risk_source none = none
  hedge_risk_source (some intent) = elim (first intent.hedge_actions) [
    | none ↦ none
    | some a ↦ some a.risk_source
  ]

  -- `_top_risk_sources_for_decision`
  unfoldable pub top_risk_sources_for_decision :
      Option (PortfolioRiskIntentRecord F) → Option String → List String
  top_risk_sources_for_decision intent source =
      let known : List String = elim intent [
        | none ↦ []
        | some i ↦ i.metadata_json.top_risk_sources
      ] in
      keep (λ s. not (s == ""))
        (elim source [
          | none ↦ known
          | some s ↦ if not (s == "") && not (contains known s) then known ++ s ∷ [] else known
        ])

  -- `_hedge_posture_metadata`
  unfoldable pub hedge_posture_metadata :
      Option (PortfolioRiskIntentRecord F) → Option (HedgePosture F)
  hedge_posture_metadata none = none
  hedge_posture_metadata (some intent) = intent.metadata_json.hedge_posture

  -- `_data_availability_issues`
  unfoldable pub data_availability_issues : Option (PortfolioRiskIntentRecord F) → List String
  data_availability_issues none = []
  data_availability_issues (some intent) =
      keep (λ s. not (s == "")) intent.metadata_json.data_availability_issues
