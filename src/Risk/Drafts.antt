-- ===== src/Risk/Drafts.antt =====
-- trading/risk/planner.py: what the planner reads, and its rules for single positions and pending
-- trades. The three lists that `plan` appends to are the fields of a `Draft`.
use equity_research_agent.Prelude.{
  ℕ, String, ◌==◌, Bool, false, not, ◌&&◌, ◌||◌, List, [], ◌∷◌, ◌++◌, Option, none, some,
  if◌then◌else◌, ltb,
}
use text.Mathlib.Text.{starts_with}
use equity_research_agent.Risk.Context.{
  PortfolioPosition, PortfolioContext, PositionRiskActionRecord, HedgeActionRecord,
}
use equity_research_agent.Events.{PortfolioEventRiskAssessmentRecord}

pub record PendingTradeRiskRecord : Type 0 where
  pub ticker : String
  pub trade_identity : String
  pub sector : Option String
  pub event_type : Option String
  pub macro_sensitivity : Option String

-- the attributes that the planner reads of a macro snapshot
pub record MacroSnapshot : Type 0 where
  pub macro_snapshot_id : Option String
  pub regime : Option String
  pub availability_issues : List String

pub record PortfolioHedgePlannerRequest (F : Type 0) : Type 0 where
  pub decision_time : ℕ
  pub risk_window : String
  pub portfolio_context : PortfolioContext F
  pub event_assessments : List (PortfolioEventRiskAssessmentRecord F)
  pub pending_trades : List PendingTradeRiskRecord
  pub macro_risk_state : Option String
  pub macro_snapshot : Option MacroSnapshot

pub record Draft (F : Type 0) : Type 0 where
  pub position_actions : List (PositionRiskActionRecord F)
  pub hedge_actions : List (HedgeActionRecord F)
  pub binding_constraints : List String

module _ {F : Type 0} where
  abbrev pub empty_draft : Draft F
  empty_draft = record { position_actions = []; hedge_actions = []; binding_constraints = [] }

  -- an action and its entry among the binding constraints
  abbrev pub add_action : PositionRiskActionRecord F → Draft F → Draft F
  add_action a d = record d {
    position_actions = d.position_actions ++ a ∷ [];
    binding_constraints = d.binding_constraints ++ a.reason_code ∷ [];
  }

  abbrev pub add_hedge : HedgeActionRecord F → Draft F → Draft F
  add_hedge h d = record d {
    hedge_actions = d.hedge_actions ++ h ∷ [];
    binding_constraints = d.binding_constraints ++ h.reason_code ∷ [];
  }

  -- `assessment.days_until_event is not None and assessment.days_until_event > 5`
  abbrev pub far_away : PortfolioEventRiskAssessmentRecord F → Bool
  far_away a = elim a.days_until_event [ none ↦ false | some n ↦ ltb 5 n ]

  abbrev pub own_block :
      PortfolioEventRiskAssessmentRecord F → PendingTradeRiskRecord → PositionRiskActionRecord F
  own_block a t = record {
    ticker = t.ticker;
    trade_identity = t.trade_identity;
    action = "block_open";
    risk_source = "own_event";
    severity = a.severity;
    max_allowed_weight_override = none;
    reason_code = "own_event_block";
    metadata_json = record { days_until_event = a.days_until_event; sector = none };
  }

  -- the loop over pending trades
  unfoldable pub block_pending :
      PortfolioEventRiskAssessmentRecord F → List PendingTradeRiskRecord → Draft F → Draft F
  block_pending a [] d = d
  block_pending a (t ∷ ts) d = block_pending a ts (
      if t.ticker == a.ticker && a.affects_pending_trade && starts_with t.trade_identity "tactical_"
      then add_action (own_block a t) d
      else d)

  abbrev pub position_action :
      String
      → String
      → String
      → Option String
      → PortfolioEventRiskAssessmentRecord F
      → PortfolioPosition F
      → PositionRiskActionRecord F
  position_action action reason source sector a p = record {
    ticker = p.ticker;
    trade_identity = p.trade_identity;
    action = action;
    risk_source = source;
    severity = a.severity;
    max_allowed_weight_override = none;
    reason_code = reason;
    metadata_json = record {
      days_until_event = elim sector [ none ↦ a.days_until_event | some _ ↦ none ];
      sector = sector;
    };
  }

  -- the two loops over positions: a core holding is allowed, any other position is cut by `cut`
  unfoldable pub act_on_positions :
      String
      → String
      → String
      → String
      → Option String
      → PortfolioEventRiskAssessmentRecord F
      → List (PortfolioPosition F)
      → Draft F
      → Draft F
  act_on_positions cut cut_reason core_reason source sector a [] d = d
  act_on_positions cut cut_reason core_reason source sector a (p ∷ ps) d =
      act_on_positions cut cut_reason core_reason source sector a ps (
        if p.ticker == a.ticker && a.affects_existing_position
        then if p.trade_identity == "core_holding"
          then add_action (position_action "allow" core_reason source sector a p) d
          else add_action (position_action cut cut_reason source sector a p) d
        else d)

  -- `_apply_own_event_rules`
  unfoldable pub apply_own_event_rules :
      PortfolioHedgePlannerRequest F → PortfolioEventRiskAssessmentRecord F → Draft F → Draft F
  apply_own_event_rules q a d =
      if not (a.risk_source == "own_event") || far_away a
      then d
      else act_on_positions "force_reduce" "own_event_force_reduce" "core_holding_event_review"
          "own_event" none a q.portfolio_context.positions (block_pending a q.pending_trades d)
