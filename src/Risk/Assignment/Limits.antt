-- ===== src/Risk/Assignment/Limits.antt =====
-- What `evaluate_assignment_risk` guarantees of an option strategy that it approves.
use equity_research_agent.Prelude.{
  String, ◌==◌, ◌≡◌, refl, ap, ◌⊎◌, true, false, Bool, some, any_of, if◌then◌else◌, filled, arith,
  eq_iff, false≢true,
}
use equity_research_agent.Float.{Float, zero_f, one_f}
use equity_research_agent.Risk.Context.{PortfolioContext}
use equity_research_agent.Risk.Config.{RiskLimitConfig}
use equity_research_agent.Risk.Assignment.{
  OptionRiskInput, OptionRiskAssessment, assignment_notional, is_sold,
  blocks_short_premium_through_event, assignment_ratio, sector_ratio, over_assignment_sector_cap,
  evaluate_assignment_risk,
}

not_rejected : {A : Type 0} → ◌≡◌ {A = String} "rejected" "approved" → A
not_rejected e = absurd (false≢true (ap (λ s. s == "approved") e))

module _ {F : Type 0} ⦃fl : Float F⦄ where
  -- the last of four branches was taken if the status is that of no other
  all_false :
      (a b c : Bool) (x y z w : OptionRiskAssessment F)
      → (x.status ≡ "approved" → a ≡ false)
      → (y.status ≡ "approved" → b ≡ false)
      → (z.status ≡ "approved" → c ≡ false)
      → (if a then x else if b then y else if c then z else w).status ≡ "approved"
      → (a ≡ false) × (b ≡ false) × (c ≡ false)
  all_false true b c x y z w h k l e = absurd (false≢true (cc (h e)))
  all_false false true c x y z w h k l e = absurd (false≢true (cc (k e)))
  all_false false false true x y z w h k l e = absurd (false≢true (cc (l e)))
  all_false false false false x y z w h k l e = (refl, refl, refl)

  -- A strategy that keeps the limits of the configuration.
  pub record KeepsLimits (r : OptionRiskInput F) (context : PortfolioContext F)
      (config : RiskLimitConfig F) : Type 0 where
    -- a credit spread over an event has no sold leg
    pub no_event :
        r.event_through_expiry ≡ true
        → (r.option_strategy_type ≡ "put_credit_spread")
          ⊎ (r.option_strategy_type ≡ "call_credit_spread")
        → any_of is_sold r.legs ≡ false
    pub keeps_concentration :
        fl.lt config.assignment_concentration_limit (assignment_ratio r context) ≡ false
    pub keeps_sector :
        (sector : String)
        → filled r.sector ≡ some sector
        → fl.lt zero_f (assignment_notional r.legs) ≡ true
        → fl.lt config.max_sector_weight (sector_ratio r context) ≡ false
    -- below a limit of one there is equity
    pub has_equity :
        fl.lt config.assignment_concentration_limit one_f ≡ true
        → fl.lt zero_f context.account_equity ≡ true

  tests_passed :
      (r : OptionRiskInput F) (context : PortfolioContext F) (config : RiskLimitConfig F)
      → (evaluate_assignment_risk r context config).status ≡ "approved"
      → (blocks_short_premium_through_event r ≡ false)
        × (over_assignment_sector_cap r context config ≡ false)
        × (fl.lt config.assignment_concentration_limit (assignment_ratio r context) ≡ false)
  unfolding evaluate_assignment_risk
  tests_passed r context config approved =
      all_false (blocks_short_premium_through_event r) (over_assignment_sector_cap r context config)
        (fl.lt config.assignment_concentration_limit (assignment_ratio r context)) _ _ _ _
        not_rejected not_rejected not_rejected approved

  -- An option strategy is approved only if its limits hold: no sold leg of a credit spread over an event, the share
  -- of the equity that all assignments would take within the concentration limit, and, where it has a sector and
  -- may be assigned, the exposure of the sector within the sector cap. If the concentration limit is below one,
  -- nothing is approved without equity.
  pub approved-KeepsLimits :
      (r : OptionRiskInput F) (context : PortfolioContext F) (config : RiskLimitConfig F)
      → (evaluate_assignment_risk r context config).status ≡ "approved"
      → KeepsLimits r context config
  unfolding blocks_short_premium_through_event
  approved-KeepsLimits r context config approved =
      let (event, sector, concentration) = tests_passed r context config approved in
      record {
        no_event = λ through spread. ground (
          arith,
          eq_iff "put_credit_spread" r.option_strategy_type,
          eq_iff "call_credit_spread" r.option_strategy_type,
        );
        keeps_concentration = concentration;
        keeps_sector = λ s named assigned. ground (arith, sector, named, assigned);
        has_equity = λ below. ground (arith, concentration, below);
      }
