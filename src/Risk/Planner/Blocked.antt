-- ===== src/Risk/Planner/Blocked.antt =====
-- An own event within five days blocks a tactical trade, from the planner through to the gate.
use text.Mathlib.Text.{starts_with}
use equity_research_agent.Prelude.{
  String, ◌==◌, ◌≡◌, refl, sym, subst, ◌∙◌, Bool, true, false, ◌&&◌, List, [], ◌∷◌, ◌++◌, none,
  some, if◌then◌else◌, arith, Occurs, Occurs-append, eq_refl,
}
use equity_research_agent.Float.{Float, zero_f}
use equity_research_agent.Risk.Context.{
  PortfolioContext, PositionRiskActionRecord, TradeRiskRequest, PositionSizingDecisionRecord,
}
use equity_research_agent.Risk.Config.{RiskLimitConfig}
use equity_research_agent.Events.{PortfolioEventRiskAssessmentRecord}
use equity_research_agent.Risk.Drafts.{
  PendingTradeRiskRecord, PortfolioHedgePlannerRequest, Draft, add_action, own_block, block_pending,
  apply_own_event_rules, far_away, empty_draft,
}
use equity_research_agent.Risk.Planner.{own_events, draft, plan}
use equity_research_agent.Risk.Planner.Actions.{
  Grows, block_pending-Grows, act_on_positions-Grows, own_events-Grows, clusters-Grows,
  overlay-actions,
}
use equity_research_agent.Risk.Gate.{evaluate}
use equity_research_agent.Risk.Gate.Blocks.{block_open_wins}

abbrev is_tactical : PendingTradeRiskRecord → Bool
is_tactical t = starts_with t.trade_identity "tactical_"

module _ {F : Type 0} ⦃fl : Float F⦄ where
  abbrev Has : PositionRiskActionRecord F → Draft F → Type 0
  Has b d = Occurs b d.position_actions

  Has-Grows : (b : PositionRiskActionRecord F) (d d' : Draft F) → Grows d d' → Has b d → Has b d'
  Has-Grows b d d' g h =
      let (pre, post, e) = Occurs-append b d.position_actions g.new h in (pre, post, g.appended ∙ e)

  module _ (a : PortfolioEventRiskAssessmentRecord F) (t : PendingTradeRiskRecord)
      (meets : (t.ticker == a.ticker) ≡ true) (pending : a.affects_pending_trade ≡ true)
      (tactical : is_tactical t ≡ true) where
    block_pending-Has :
        (pre post : List PendingTradeRiskRecord) (d : Draft F)
        → Has (own_block a t) (block_pending a (pre ++ t ∷ post) d)
    unfolding block_pending
    block_pending-Has [] post d =
        let e : (t.ticker == a.ticker && a.affects_pending_trade && is_tactical t) ≡ true =
          ground arith in
        let blocked = add_action (own_block a t) d in
        subst (λ b. Has (own_block a t) (block_pending a post (if b then blocked else d))) (sym e)
          (Has-Grows (own_block a t) blocked _ (block_pending-Grows a post blocked)
            (d.position_actions, [], refl))
    block_pending-Has (u ∷ pre) post d = block_pending-Has pre post _

    module _ (q : PortfolioHedgePlannerRequest F) (own : (a.risk_source == "own_event") ≡ true)
        (near : far_away a ≡ false) (trade : Occurs t q.pending_trades) where
      own_event-Has : (d : Draft F) → Has (own_block a t) (apply_own_event_rules q a d)
      unfolding apply_own_event_rules
      own_event-Has d =
          let (pre, post, e) = trade in
          let blocked = block_pending a q.pending_trades d in
          rw (own, near)
            (Has-Grows (own_block a t) blocked _
              (act_on_positions-Grows "force_reduce" "own_event_force_reduce"
                "core_holding_event_review" "own_event" none a q.portfolio_context.positions
                blocked)
              (rw e (block_pending-Has pre post d)))

      own_events-Has :
          (pre post : List (PortfolioEventRiskAssessmentRecord F)) (d : Draft F)
          → Has (own_block a t) (own_events q (pre ++ a ∷ post) d)
      unfolding own_events
      own_events-Has [] post d =
          Has-Grows (own_block a t) (apply_own_event_rules q a d) _
            (own_events-Grows q post (apply_own_event_rules q a d)) (own_event-Has d)
      own_events-Has (b ∷ pre) post d = own_events-Has pre post (apply_own_event_rules q b d)

      -- An own event at most five days away, which affects the pending trades, blocks each pending trade in its
      -- ticker whose identity is tactical: the plan has the action `block_open` for it.
      pub plan-blocks :
          (fresh : String)
          → Occurs a q.event_assessments
          → Occurs (own_block a t) (plan fresh q).position_actions
      unfolding plan draft
      plan-blocks fresh (pre, post, e) =
          let own_draft = own_events q q.event_assessments empty_draft in
          rw overlay-actions (
            Has-Grows (own_block a t) own_draft _ (clusters-Grows q q.event_assessments own_draft) (
              subst (λ es. Has (own_block a t) (own_events q es empty_draft)) (sym e)
                (own_events-Has pre post empty_draft)))

      -- Say an own event is at most five days away and affects the pending trades, among them a tactical one in
      -- its ticker. Given the plan, the gate rejects every trade of this ticker and identity with the weight 0.0,
      -- whatever its size, the portfolio and the limits.
      pub own_event_rejects :
          (planned snapshot_uuid fresh : String) (r : TradeRiskRequest F)
          (sizing : PositionSizingDecisionRecord F) (context : PortfolioContext F)
          (config : RiskLimitConfig F)
          → Occurs a q.event_assessments
          → r.candidate.ticker ≡ t.ticker
          → r.classification.trade_identity ≡ t.trade_identity
          → let d = evaluate snapshot_uuid fresh r sizing context config (some (plan planned q)) in
            (d.status ≡ "rejected") × (d.approved_weight ≡ zero_f)
      own_event_rejects planned snapshot_uuid fresh r sizing context config event same_ticker
            same_identity =
          let (pre, post, e) = plan-blocks planned event in
          let (status, weight, _) =
            block_open_wins snapshot_uuid fresh r sizing context config (plan planned q) pre post
              (own_block a t) e
              (rw (same_ticker, same_identity, eq_refl) (eq_refl t.trade_identity)) refl in
          (status, weight)
