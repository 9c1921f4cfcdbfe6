-- ===== src/Risk/Gate/Blocks.antt =====
-- Two rules that no other rule of `RiskManager.evaluate` can overrule: a `block_open` of the planner, and a
-- signal that is missing, stale or failed.
use equity_research_agent.Prelude.{
  String, ◌==◌, ◌≡◌, refl, Bool, true, false, List, [], ◌∷◌, ◌++◌, Option, some, arith, keep,
  any_of-keep, any_of-append,
}
use equity_research_agent.Prelude.Sorting.{sorted-head}
use equity_research_agent.Float.{Float, zero_f}
use equity_research_agent.Risk.Context.{
  PortfolioContext, TradeRiskRequest, PositionSizingDecisionRecord, PositionRiskActionRecord,
  PortfolioRiskIntentRecord,
}
use equity_research_agent.Risk.Config.{RiskLimitConfig}
use equity_research_agent.Risk.Intent.{
  matching_planner_position_action, priority, concerns, more_urgent,
}
use equity_research_agent.Risk.Signals.{has_missing_or_stale_signals, blocks}
use equity_research_agent.Risk.Decision.{decision}
use equity_research_agent.Risk.Gate.{verdict, evaluate}

module _ {F : Type 0} where
  abbrev is_block : PositionRiskActionRecord F → Bool
  is_block a = a.action == "block_open"

  block_first : (a b : PositionRiskActionRecord F) → is_block a ≡ true → more_urgent a b ≡ true
  unfolding priority
  block_first a b h = ground arith

  block_before :
      (a b : PositionRiskActionRecord F)
      → is_block a ≡ false
      → is_block b ≡ true
      → more_urgent a b ≡ false
  unfolding priority
  block_before a b h k = ground arith

  -- the planner's action for a trade is a block, if one of the actions for it is
  matching-block :
      (intent : PortfolioRiskIntentRecord F) (ticker identity : String)
      (pre post : List (PositionRiskActionRecord F)) (a : PositionRiskActionRecord F)
      → intent.position_actions ≡ pre ++ a ∷ post
      → concerns ticker identity a ≡ true
      → is_block a ≡ true
      → (b : PositionRiskActionRecord F) × (matching_planner_position_action
            (some intent)
            ticker
            identity
          ≡ some b)
        × (is_block b ≡ true)
  unfolding matching_planner_position_action
  matching-block intent ticker identity pre post a e h block =
      sorted-head more_urgent is_block block_first block_before
        (keep (concerns ticker identity) intent.position_actions)
        (rw e (any_of-keep is_block (concerns ticker identity) a pre post block h))

stale :
    {F : Type 0} (r : TradeRiskRequest F) (pre post : List (String × String))
    (entry : String × String)
    → r.signal_freshness ≡ pre ++ entry ∷ post
    → blocks r entry ≡ true
    → has_missing_or_stale_signals r ≡ true
unfolding has_missing_or_stale_signals
stale r pre post entry e h = rw e (ground (arith, any_of-append (blocks r) entry pre post h))

module _ {F : Type 0} ⦃fl : Float F⦄ (snapshot_uuid fresh : String) (r : TradeRiskRequest F)
    (sizing : PositionSizingDecisionRecord F) (context : PortfolioContext F)
    (config : RiskLimitConfig F) where
  -- If the intent holds, anywhere among its actions, a `block_open` for the trade's ticker and
  -- identity, the trade is rejected with the weight 0.0, by the rule `portfolio_risk_intent`.
  pub block_open_wins :
      (intent : PortfolioRiskIntentRecord F) (pre post : List (PositionRiskActionRecord F))
      (a : PositionRiskActionRecord F)
      → intent.position_actions ≡ pre ++ a ∷ post
      → concerns r.candidate.ticker r.classification.trade_identity a ≡ true
      → (a.action == "block_open") ≡ true
      → let d = evaluate snapshot_uuid fresh r sizing context config (some intent) in
        (d.status ≡ "rejected")
        × (d.approved_weight ≡ zero_f)
        × (d.applied_rules ≡ "portfolio_risk_intent" ∷ [])
  unfolding evaluate decision verdict
  block_open_wins intent pre post a e h block =
      let (b, found, blocking) =
        matching-block intent r.candidate.ticker r.classification.trade_identity pre post a e h
          block in
      rw (found, blocking) (refl, refl, refl)

  -- If one entry of the trade's signal freshness is a status that blocks, for a signal family that the trade
  -- needs, the trade is rejected with the weight 0.0, whatever the planner and the portfolio say.
  pub stale_signal_blocks :
      (intent : Option (PortfolioRiskIntentRecord F)) (pre post : List (String × String))
      (entry : String × String)
      → r.signal_freshness ≡ pre ++ entry ∷ post
      → blocks r entry ≡ true
      → let d = evaluate snapshot_uuid fresh r sizing context config intent in
        (d.status ≡ "rejected") × (d.approved_weight ≡ zero_f)
  unfolding evaluate decision verdict
  stale_signal_blocks intent pre post entry e h = ground (arith, stale r pre post entry e h)
