-- ===== src/Risk/Planner.antt =====
-- `PortfolioHedgePlanner.plan` of trading/risk/planner.py: deterministic actions and hedges for the risk
-- of the next days.
pub mod Actions
pub mod Blocked
use Prim.Native.String.{◌++◌ as concat}
use equity_research_agent.Prelude.{
  ℕ, String, ◌==◌, Bool, true, false, not, ◌&&◌, ◌||◌, List, [], ◌∷◌, ◌++◌, Option, none, some,
  foldl, map, if◌then◌else◌, or_else, filled, contains, any_of, first_where, truthy, either,
  is_empty, keep,
}
use equity_research_agent.Prelude.Text.{lower}
use equity_research_agent.Float.{Float, one_f}
use equity_research_agent.Risk.Context.{
  PortfolioPosition, PositionRiskActionRecord, HedgeActionRecord, HedgePosture,
  PortfolioRiskIntentRecord,
}
use equity_research_agent.Events.{PortfolioEventRiskAssessmentRecord}
use equity_research_agent.Risk.Drafts.{
  PendingTradeRiskRecord, MacroSnapshot, PortfolioHedgePlannerRequest, Draft, empty_draft,
  add_hedge, act_on_positions, apply_own_event_rules,
}

-- `_sector_underlier`
unfoldable pub sector_underlier : String → Option String
sector_underlier sector =
    if sector == "Technology"
    then some "XLK"
    else if sector == "Financials"
    then some "XLF"
    else if sector == "Energy"
    then some "XLE"
    else if sector == "Semiconductors"
    then some "SMH"
    else none

-- `_macro_risk_state_from_snapshot`
unfoldable pub macro_risk_state_from_snapshot : Option MacroSnapshot → Option String
macro_risk_state_from_snapshot none = none
macro_risk_state_from_snapshot (some m) =
    let regime = lower (or_else m.regime "") in
    if regime == "risk_off"
    then some "high"
    else if regime == "unavailable"
    then some "watch"
    else none

-- the macro states that open an overlay
abbrev pub overlay_states : List String
overlay_states = "watch" ∷ "high" ∷ "critical" ∷ []

abbrev pub is_overlay_state : Option String → Bool
is_overlay_state none = false
is_overlay_state (some s) = contains overlay_states s

-- `_data_availability_issues`
unfoldable pub data_availability_issues : Option MacroSnapshot → List String
data_availability_issues none = []
data_availability_issues (some m) = keep (λ s. not (s == "")) m.availability_issues

abbrev technology : Option String → Bool
technology none = false
technology (some s) = contains ("Technology" ∷ "Semiconductors" ∷ []) s

-- `if x not in values: values.append(x)`
abbrev add_new : List String → String → List String
add_new values x = if contains values x then values else values ++ x ∷ []

module _ {F : Type 0} where
  -- `_sector_for_ticker`
  unfoldable pub sector_for_ticker : String → PortfolioHedgePlannerRequest F → Option String
  sector_for_ticker ticker q =
      elim (first_where (λ (p : PortfolioPosition F). p.ticker == ticker && truthy p.sector)
        q.portfolio_context.positions) [
          | some p ↦ p.sector
          | none ↦
              elim (first_where
                (λ (t : PendingTradeRiskRecord). t.ticker == ticker && truthy t.sector)
                q.pending_trades) [ some t ↦ t.sector | none ↦ none ]
        ]

  abbrev pub is_overlay : PortfolioPosition F → Bool
  is_overlay p = p.trade_identity == "risk_hedge_overlay"

  -- `_hedge_overlay_action`
  unfoldable pub hedge_overlay_action : PortfolioHedgePlannerRequest F → String → String
  hedge_overlay_action q underlier =
      if any_of (λ (p : PortfolioPosition F). is_overlay p && p.ticker == underlier)
        q.portfolio_context.positions
      then "adjust_hedge"
      else "open_hedge"

  -- `_broad_underlier`, with `_sector_values`
  unfoldable pub broad_underlier : PortfolioHedgePlannerRequest F → String
  broad_underlier q =
      if any_of (λ (p : PortfolioPosition F). technology p.sector) q.portfolio_context.positions
        || any_of (λ (t : PendingTradeRiskRecord). technology t.sector) q.pending_trades
      then "QQQ"
      else "SPY"

  -- `_aggregate_risk_state`
  unfoldable pub aggregate_risk_state : Draft F → Option String → String
  aggregate_risk_state d macro_state =
      if any_of (λ (a : PositionRiskActionRecord F). a.risk_source == "own_event")
        d.position_actions
      then "mixed_risk"
      else if any_of (λ (h : HedgeActionRecord F). h.risk_source == "sector_event_cluster")
          d.hedge_actions
      then "event_cluster_risk"
      else elim macro_state [
        | none ↦ "risk_normalized"
        | some s ↦
            if s == "watch"
            then "macro_watch"
            else if contains ("high" ∷ "critical" ∷ []) s
            then "macro_high_risk"
            else "risk_normalized"
      ]

  -- `_top_risk_sources`
  unfoldable pub top_risk_sources :
      List (PortfolioEventRiskAssessmentRecord F)
      → List (HedgeActionRecord F)
      → Option String
      → List String
  top_risk_sources assessments hedges macro_state =
      let values =
        foldl add_new
          (foldl add_new []
            (map (λ (a : PortfolioEventRiskAssessmentRecord F). a.risk_source) assessments))
          (map (λ (h : HedgeActionRecord F). h.risk_source) hedges) in
      if is_overlay_state macro_state then add_new values "macro" else values

  -- `_hedge_posture`
  unfoldable pub hedge_posture : List (HedgeActionRecord F) → Option (HedgePosture F)
  hedge_posture [] = none
  hedge_posture (h ∷ hs) = some (record {
    action = h.action;
    risk_source = h.risk_source;
    target_underlier = h.target_underlier;
    coverage_ratio = h.coverage_ratio;
    severity = h.severity;
  })

module _ {F : Type 0} ⦃fl : Float F⦄ where
  -- `_coverage_ratio`
  unfoldable pub coverage_ratio : String → F
  coverage_ratio severity =
      if severity == "high"
      then fl.lit 50 2
      else if severity == "critical"
      then fl.lit 75 2
      else fl.lit 25 2

  abbrev hedge :
      String
      → String
      → String
      → String
      → String
      → F
      → String
      → Option String
      → Option String
      → HedgeActionRecord F
  hedge action source severity underlier exposure ratio reason window sector = record {
    action = action;
    risk_source = source;
    severity = severity;
    target_underlier = underlier;
    target_exposure_type = exposure;
    coverage_ratio = ratio;
    reason_code = reason;
    metadata_json = record { risk_window = window; sector = sector };
  }

  abbrev pub sector_hedge :
      PortfolioHedgePlannerRequest F
      → PortfolioEventRiskAssessmentRecord F
      → String
      → String
      → HedgeActionRecord F
  sector_hedge q a sector u =
      hedge (hedge_overlay_action q u) "sector_event_cluster" a.severity u "sector"
        (coverage_ratio a.severity) "sector_cluster_hedge" none (some sector)

  -- the hedge of a sector's cluster, if the sector has an underlier
  unfoldable pub hedge_sector :
      PortfolioHedgePlannerRequest F
      → PortfolioEventRiskAssessmentRecord F
      → String
      → Draft F
      → Draft F
  hedge_sector q a sector d = elim (sector_underlier sector) [
    | none ↦ d
    | some u ↦ add_hedge (sector_hedge q a sector u) d
  ]

  -- `_apply_cluster_rules`
  unfoldable pub apply_cluster_rules :
      PortfolioHedgePlannerRequest F → PortfolioEventRiskAssessmentRecord F → Draft F → Draft F
  apply_cluster_rules q a d =
      if not (contains ("sector_event_cluster" ∷ "event_cluster" ∷ []) a.risk_source)
      then d
      else elim (sector_for_ticker a.ticker q) [
        | none ↦ d
        | some sector ↦ hedge_sector q a sector (
            act_on_positions "reduce" "cluster_reduce" "cluster_core_holding_allow"
              "sector_event_cluster" (some sector) a q.portfolio_context.positions d)
      ]

  unfoldable pub own_events :
      PortfolioHedgePlannerRequest F
      → List (PortfolioEventRiskAssessmentRecord F)
      → Draft F
      → Draft F
  own_events q [] d = d
  own_events q (a ∷ rest) d = own_events q rest (apply_own_event_rules q a d)

  unfoldable pub clusters :
      PortfolioHedgePlannerRequest F
      → List (PortfolioEventRiskAssessmentRecord F)
      → Draft F
      → Draft F
  clusters q [] d = d
  clusters q (a ∷ rest) d = clusters q rest (apply_cluster_rules q a d)

  -- `request.macro_risk_state or _macro_risk_state_from_snapshot(request.macro_snapshot)`
  unfoldable pub macro_state : PortfolioHedgePlannerRequest F → Option String
  macro_state q = either q.macro_risk_state (macro_risk_state_from_snapshot q.macro_snapshot)

  -- the overlay on the broad market, or the end of one that no risk asks for
  unfoldable pub overlay : PortfolioHedgePlannerRequest F → Option String → Draft F → Draft F
  overlay q state d =
      let severity = or_else state "" in
      let underlier = broad_underlier q in
      if is_overlay_state state
      then add_hedge
          (hedge (hedge_overlay_action q underlier) "macro" severity underlier "broad_market"
            (coverage_ratio severity) (concat "macro_" (concat severity "_overlay"))
            (some q.risk_window) none)
          d
      else if is_empty d.hedge_actions
      then elim (first_where is_overlay q.portfolio_context.positions) [
        | none ↦ d
        | some p ↦
            add_hedge
              (hedge "close_hedge" "risk_normalized" "watch" p.ticker "broad_market" one_f
                "risk_overlay_normalized" (some q.risk_window) none)
              d
      ]
      else d

  -- the lists at the end of `plan`
  unfoldable pub draft : PortfolioHedgePlannerRequest F → Draft F
  draft q =
      overlay q (macro_state q)
        (clusters q q.event_assessments (own_events q q.event_assessments empty_draft))

  -- `PortfolioHedgePlanner.plan`; `fresh` is the new id, from `uuid4`
  unfoldable pub plan : String → PortfolioHedgePlannerRequest F → PortfolioRiskIntentRecord F
  plan fresh q =
      let d = draft q in
      record {
        portfolio_risk_intent_id = fresh;
        portfolio_risk_snapshot_id = none;
        decision_time = q.decision_time;
        risk_window = q.risk_window;
        aggregate_risk_state = aggregate_risk_state d (macro_state q);
        position_actions = d.position_actions;
        hedge_actions = d.hedge_actions;
        binding_constraints = d.binding_constraints;
        metadata_json = record {
          macro_snapshot_id = elim q.macro_snapshot [ none ↦ none | some m ↦ m.macro_snapshot_id ];
          top_risk_sources = top_risk_sources q.event_assessments d.hedge_actions (macro_state q);
          hedge_posture = hedge_posture d.hedge_actions;
          data_availability_issues = data_availability_issues q.macro_snapshot;
        };
      }
