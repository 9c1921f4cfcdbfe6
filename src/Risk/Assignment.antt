-- ===== src/Risk/Assignment.antt =====
-- trading/risk/options.py: the assignment risk of an option strategy. An expiry is its ISO text.
pub mod Limits
use equity_research_agent.Prelude.{
  String, ◌==◌, Bool, false, ◌&&◌, List, [], ◌∷◌, map, Option, none, some, if◌then◌else◌, keep,
  any_of, contains, filled, is_none, not,
}
use equity_research_agent.Prelude.Int.{ℤ}
use equity_research_agent.Float.{Float, zero_f, one_f, max_of, abs_of, sum_of}
use equity_research_agent.Risk.Context.{PortfolioPosition, PortfolioContext}
use equity_research_agent.Risk.Config.{RiskLimitConfig}

-- `OptionLegRiskInput`
pub record OptionLegRiskInput (F : Type 0) : Type 0 where
  pub option_type : String
  pub side : String
  pub quantity : ℤ
  pub strike : F
  pub expiry : String
  pub delta : F
  pub gamma : F
  pub theta : F
  pub vega : F
  pub premium : F

-- `OptionRiskInput`
pub record OptionRiskInput (F : Type 0) : Type 0 where
  pub ticker : String
  pub trade_identity : String
  pub option_strategy_type : String
  pub underlying_price : F
  pub sector : Option String
  pub event_type : Option String
  pub event_through_expiry : Bool
  pub margin_requirement : F
  pub buying_power_effect : F
  pub max_loss : F
  pub max_profit : Option F
  pub net_debit_or_credit : F
  pub legs : List (OptionLegRiskInput F)

-- the `metadata_json` of an assessment, by the return that writes it
pub data AssignmentMetadata (F : Type 0) : Type 0 where
  event_through_expiry : F → Option String → Bool → AssignmentMetadata F
  sector_after_assignment : F → Option String → F → F → AssignmentMetadata F
  assignment_notional_basis : F → F → AssignmentMetadata F
  within_limits : F → Option String → F → F → AssignmentMetadata F

-- `OptionRiskAssessment`
pub record OptionRiskAssessment (F : Type 0) : Type 0 where
  pub status : String
  pub reason_code : String
  pub worst_case_assignment_notional : F
  pub portfolio_delta : F
  pub portfolio_gamma : F
  pub portfolio_theta : F
  pub portfolio_vega : F
  pub metadata_json : AssignmentMetadata F

module _ {F : Type 0} ⦃fl : Float F⦄ where
  abbrev pub is_sold : OptionLegRiskInput F → Bool
  is_sold leg = leg.side == "sell"

  -- what the sold legs are worth when they are assigned
  unfoldable pub assignment_notional : List (OptionLegRiskInput F) → F
  assignment_notional legs = sum_of (
      map
        (λ (leg : OptionLegRiskInput F).
          fl.times (fl.times leg.strike (fl.of_int leg.quantity)) (fl.lit 100 0))
        (keep is_sold legs))

  -- the sum of a Greek: a leg that is not bought counts negative
  unfoldable pub total_of : (OptionLegRiskInput F → F) → List (OptionLegRiskInput F) → F
  total_of greek legs = sum_of (
      map
        (λ (leg : OptionLegRiskInput F).
          fl.times (fl.times (greek leg) (fl.of_int leg.quantity))
            (if leg.side == "buy" then one_f else fl.neg one_f))
        legs)

  -- `_blocks_short_premium_through_event`
  unfoldable pub blocks_short_premium_through_event : OptionRiskInput F → Bool
  blocks_short_premium_through_event r =
      if not r.event_through_expiry
      then false
      else if not
          (contains ("put_credit_spread" ∷ "call_credit_spread" ∷ []) r.option_strategy_type)
      then false
      else any_of is_sold r.legs

  -- the exposure of the positions in a sector
  abbrev pub current_sector_exposure : String → List (PortfolioPosition F) → F
  current_sector_exposure sector positions = sum_of (
      map (λ (p : PortfolioPosition F). fl.plus (abs_of p.notional_exposure) p.assignment_notional)
        (keep (λ (p : PortfolioPosition F). elim p.sector [ none ↦ false | some s ↦ s == sector ])
          positions))

  -- `_sector_exposure_after_assignment`
  unfoldable pub sector_exposure_after_assignment : PortfolioContext F → Option String → F → F
  sector_exposure_after_assignment context sector notional = elim (filled sector) [
    | none ↦ zero_f
    | some s ↦ fl.plus (current_sector_exposure s context.positions) (max_of notional zero_f)
  ]

  -- the share of the equity, and all of it where there is none
  abbrev pub ratio_of : PortfolioContext F → F → F
  ratio_of context x =
      if fl.lt zero_f context.account_equity then fl.over x context.account_equity else one_f

  abbrev pub assignment_ratio : OptionRiskInput F → PortfolioContext F → F
  assignment_ratio r context = ratio_of context (
      fl.plus (assignment_notional r.legs)
        (sum_of (map (λ (p : PortfolioPosition F). p.assignment_notional) context.positions)))

  abbrev pub sector_ratio : OptionRiskInput F → PortfolioContext F → F
  sector_ratio r context =
      ratio_of context
        (sector_exposure_after_assignment context r.sector (assignment_notional r.legs))

  -- an assessment with the sums over the legs
  abbrev pub assessment :
      OptionRiskInput F → String → String → AssignmentMetadata F → OptionRiskAssessment F
  assessment r status reason metadata = record {
    status = status;
    reason_code = reason;
    worst_case_assignment_notional = assignment_notional r.legs;
    portfolio_delta = total_of (λ leg. leg.delta) r.legs;
    portfolio_gamma = total_of (λ leg. leg.gamma) r.legs;
    portfolio_theta = total_of (λ leg. leg.theta) r.legs;
    portfolio_vega = total_of (λ leg. leg.vega) r.legs;
    metadata_json = metadata;
  }

  -- whether the sector cap stops the assignment
  abbrev pub over_assignment_sector_cap :
      OptionRiskInput F → PortfolioContext F → RiskLimitConfig F → Bool
  over_assignment_sector_cap r context config =
      not (is_none (filled r.sector))
      && fl.lt zero_f (assignment_notional r.legs)
      && fl.lt config.max_sector_weight (sector_ratio r context)

  -- `OptionRiskManager.evaluate_assignment_risk`
  unfoldable pub evaluate_assignment_risk :
      OptionRiskInput F → PortfolioContext F → RiskLimitConfig F → OptionRiskAssessment F
  evaluate_assignment_risk r context config =
      let ratio = assignment_ratio r context in
      let exposure =
        sector_exposure_after_assignment context r.sector (assignment_notional r.legs) in
      if blocks_short_premium_through_event r
      then assessment r "rejected" "event_through_expiry_short_premium_blocked"
          (event_through_expiry ratio r.event_type r.event_through_expiry)
      else if over_assignment_sector_cap r context config
      then assessment r "rejected" "assignment_sector_concentration_cap"
          (sector_after_assignment ratio r.sector exposure (sector_ratio r context))
      else if fl.lt config.assignment_concentration_limit ratio
      then assessment r "rejected" "assignment_concentration_cap"
          (assignment_notional_basis ratio config.assignment_concentration_limit)
      else assessment r "approved" "within_limits"
          (within_limits ratio r.sector exposure (sector_ratio r context))
