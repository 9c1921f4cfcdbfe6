-- ===== src/Risk/Planner/Actions.antt =====
-- What every position action of a plan satisfies, and that actions are only ever appended.
use text.Mathlib.Text.{starts_with}
use equity_research_agent.Prelude.{
  String, ◌==◌, eq_iff, ◌≡◌, refl, sym, ap, ◌∙◌, Bool, true, false, not, ◌&&◌, ◌||◌, List, [], ◌∷◌,
  ◌++◌, Option, none, some, if◌then◌else◌, arith, Bool-cases, inl, inr, All, All-append, false≢true,
  contains, append-nil, append_assoc, if_cases,
}
use equity_research_agent.Float.{Float}
use equity_research_agent.Risk.Context.{PortfolioPosition, PositionRiskActionRecord}
use equity_research_agent.Events.{PortfolioEventRiskAssessmentRecord}
use equity_research_agent.Risk.Drafts.{
  PendingTradeRiskRecord, PortfolioHedgePlannerRequest, Draft, add_action, add_hedge, own_block,
  block_pending, position_action, act_on_positions, apply_own_event_rules, far_away, empty_draft,
}
use equity_research_agent.Risk.Planner.{
  hedge_sector, sector_hedge, sector_underlier, apply_cluster_rules, own_events, clusters, overlay,
  draft, plan, sector_for_ticker,
}

not_core : (x : String) → starts_with x "tactical_" ≡ true → (x == "core_holding") ≡ false
not_core x h = elim (Bool-cases (x == "core_holding")) [
  | inl core ↦ absurd (false≢true (rw ((eq_iff x "core_holding").0 core) at h))
  | inr other ↦ other
]

module _ {F : Type 0} ⦃fl : Float F⦄ where
  -- a core holding is only ever allowed
  abbrev pub SparesCore : PositionRiskActionRecord F → Type 0
  SparesCore a = (a.trade_identity == "core_holding") ≡ true → (a.action == "allow") ≡ true

  -- `d'` has the actions of `d` and behind them new ones that spare core holdings
  pub record Grows (d d' : Draft F) : Type 0 where
    pub new : List (PositionRiskActionRecord F)
    pub appended : d'.position_actions ≡ d.position_actions ++ new
    pub spared : All SparesCore new

  Grows-refl : (d : Draft F) → Grows d d
  Grows-refl d = record { new = []; appended = sym (append-nil d.position_actions); spared = tt }

  pub Grows-trans : (d e f : Draft F) → Grows d e → Grows e f → Grows d f
  Grows-trans d e f g h = record {
    new = g.new ++ h.new;
    appended =
        h.appended ∙ ap (λ l. l ++ h.new) g.appended ∙ append_assoc d.position_actions g.new h.new;
    spared = All-append SparesCore g.new h.new g.spared h.spared;
  }

  Grows-add :
      (a : PositionRiskActionRecord F) (d : Draft F) → SparesCore a → Grows d (add_action a d)
  Grows-add a d s = record { new = a ∷ []; appended = refl; spared = (s, tt) }

  Grows-if :
      (b : Bool) (d e f : Draft F)
      → (b ≡ true → Grows d e)
      → (b ≡ false → Grows d f)
      → Grows d (if b then e else f)
  Grows-if b d = if_cases (Grows d) b

  pub block_pending-Grows :
      (a : PortfolioEventRiskAssessmentRecord F) (ts : List PendingTradeRiskRecord) (d : Draft F)
      → Grows d (block_pending a ts d)
  unfolding block_pending
  block_pending-Grows a [] d = Grows-refl d
  block_pending-Grows a (t ∷ ts) d =
      Grows-trans d _ _
        (Grows-if _ d _ _
          (λ tactical.
            Grows-add (own_block a t) d λ core. ground (arith, not_core t.trade_identity))
          (λ _. Grows-refl d))
        (block_pending-Grows a ts _)

  pub act_on_positions-Grows :
      (cut cut_reason core_reason source : String) (sector : Option String)
      (a : PortfolioEventRiskAssessmentRecord F) (ps : List (PortfolioPosition F)) (d : Draft F)
      → Grows d (act_on_positions cut cut_reason core_reason source sector a ps d)
  unfolding act_on_positions
  act_on_positions-Grows cut cut_reason core_reason source sector a [] d = Grows-refl d
  act_on_positions-Grows cut cut_reason core_reason source sector a (p ∷ ps) d =
      Grows-trans d _ _
        (Grows-if (p.ticker == a.ticker && a.affects_existing_position) d _ d
          (λ _.
            Grows-if (p.trade_identity == "core_holding") d _ _
              (λ _. Grows-add (position_action "allow" core_reason source sector a p) d (λ _. refl))
              (λ other.
                Grows-add (position_action cut cut_reason source sector a p) d
                  (λ core. ground arith)))
          (λ _. Grows-refl d))
        (act_on_positions-Grows cut cut_reason core_reason source sector a ps _)

  module _ (q : PortfolioHedgePlannerRequest F) where
    pub apply_own_event_rules-Grows :
        (a : PortfolioEventRiskAssessmentRecord F) (d : Draft F)
        → Grows d (apply_own_event_rules q a d)
    unfolding apply_own_event_rules
    apply_own_event_rules-Grows a d =
        let blocked = block_pending a q.pending_trades d in
        let ps = q.portfolio_context.positions in
        Grows-if (not (a.risk_source == "own_event") || far_away a) d d
          (act_on_positions "force_reduce" "own_event_force_reduce" "core_holding_event_review"
            "own_event" none a ps blocked)
          (λ _. Grows-refl d)
          λ _. Grows-trans d blocked _ (block_pending-Grows a q.pending_trades d) (
            act_on_positions-Grows "force_reduce" "own_event_force_reduce"
              "core_holding_event_review" "own_event" none a ps blocked)

    -- a hedge leaves the position actions alone
    hedge_sector-Grows :
        (a : PortfolioEventRiskAssessmentRecord F) (sector : String) (d : Draft F)
        → Grows d (hedge_sector q a sector d)
    unfolding hedge_sector
    hedge_sector-Grows a sector d =
        elim (sector_underlier sector)
          as (λ u.
            Grows d (elim u [ none ↦ d | some v ↦ add_hedge (sector_hedge q a sector v) d ])) [
              | none ↦ Grows-refl d
              | some u ↦ record {
                new = [];
                appended = sym (append-nil d.position_actions);
                spared = tt;
              }
            ]

    apply_cluster_rules-Grows :
        (a : PortfolioEventRiskAssessmentRecord F) (d : Draft F)
        → Grows d (apply_cluster_rules q a d)
    unfolding apply_cluster_rules
    apply_cluster_rules-Grows a d =
        Grows-if (not (contains ("sector_event_cluster" ∷ "event_cluster" ∷ []) a.risk_source)) d d
          _ (λ _. Grows-refl d)
          λ _.
            elim (sector_for_ticker a.ticker q)
              as (λ o. Grows d (elim o [
                | none ↦ d
                | some sector ↦ hedge_sector q a sector (
                    act_on_positions "reduce" "cluster_reduce" "cluster_core_holding_allow"
                      "sector_event_cluster" (some sector) a q.portfolio_context.positions d)
              ])) [
                | none ↦ Grows-refl d
                | some sector ↦
                    let reduced =
                      act_on_positions "reduce" "cluster_reduce" "cluster_core_holding_allow"
                        "sector_event_cluster" (some sector) a q.portfolio_context.positions d in
                    Grows-trans d reduced _
                      (act_on_positions-Grows "reduce" "cluster_reduce" "cluster_core_holding_allow"
                        "sector_event_cluster" (some sector) a q.portfolio_context.positions d)
                      (hedge_sector-Grows a sector reduced)
              ]

    pub own_events-Grows :
        (es : List (PortfolioEventRiskAssessmentRecord F)) (d : Draft F)
        → Grows d (own_events q es d)
    unfolding own_events
    own_events-Grows [] d = Grows-refl d
    own_events-Grows (a ∷ rest) d =
        Grows-trans d _ _ (apply_own_event_rules-Grows a d)
          (own_events-Grows rest (apply_own_event_rules q a d))

    pub clusters-Grows :
        (es : List (PortfolioEventRiskAssessmentRecord F)) (d : Draft F) → Grows d (clusters q es d)
    unfolding clusters
    clusters-Grows [] d = Grows-refl d
    clusters-Grows (a ∷ rest) d =
        Grows-trans d _ _ (apply_cluster_rules-Grows a d)
          (clusters-Grows rest (apply_cluster_rules q a d))

    -- the overlay touches the hedges only
    pub overlay-actions :
        (state : Option String) (d : Draft F)
        → (overlay q state d).position_actions ≡ d.position_actions
    unfolding overlay
    overlay-actions state d = ground arith

    -- Whatever the events, the sectors and the macro state, every position action that a plan holds for a core holding
    -- is `allow`.
    pub plan-SparesCore : (fresh : String) → All SparesCore (plan fresh q).position_actions
    unfolding plan draft
    plan-SparesCore fresh =
        let own = own_events q q.event_assessments empty_draft in
        let g =
          Grows-trans empty_draft own _ (own_events-Grows q.event_assessments empty_draft)
            (clusters-Grows q.event_assessments own) in
        rw (overlay-actions, g.appended) g.spared
