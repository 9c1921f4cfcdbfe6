-- ===== src/Risk/Gate/Bounds.antt =====
-- How much weight `RiskManager.evaluate` can approve.
use equity_research_agent.Prelude.{
  String, ◌==◌, ◌≡◌, ◌≢◌, refl, true, false, ◌⊎◌, inl, inr, Option, none, some, truthy, arith,
  Option-cases, if_cases, not, ◌&&◌,
}
use equity_research_agent.Float.{Float, FloatLaws, IsNumber, ◌≼◌, zero_f}
use equity_research_agent.Risk.Context.{
  PortfolioContext, TradeRiskRequest, PositionSizingDecisionRecord, PositionRiskActionRecord,
  PortfolioRiskIntentRecord,
}
use equity_research_agent.Risk.Config.{RiskLimitConfig}
use equity_research_agent.Risk.Signals.{has_missing_or_stale_signals, is_macro_only_bearish}
use equity_research_agent.Risk.Decision.{
  Verdict, RiskDecisionRecord, decision, sector_weight, effective_sector_cap,
}
use equity_research_agent.Risk.Gate.{
  verdict, evaluate, over_cap, within_limits, planner_weight, reduced_weight, reject, blocks_open,
  planner_risk_source, unapproved_core, no_margin_estimate, exceeds_sector_cap,
}

module _ {F : Type 0} ⦃fl : Float F⦄ where
  -- `rejected` approves nothing; `approved` approves all that was asked for, with no constraint;
  -- `reduced` names the constraint that binds, and approves something or less than was asked for.
  abbrev pub IsOutcome : F → Verdict F → Type 0
  IsOutcome final v =
      ((v.status ≡ "rejected") × (v.approved_weight ≡ zero_f))
      ⊎ ((v.status ≡ "approved")
          × (v.approved_weight ≡ final)
          × (v.reason_code ≡ "within_limits")
          × (v.binding_constraint ≡ none))
      ⊎ ((v.status ≡ "reduced")
          × (v.binding_constraint ≡ some v.reason_code)
          × ((fl.lt zero_f v.approved_weight ≡ true) ⊎ (fl.lt v.approved_weight final ≡ true)))

  planner_weight-eq :
      (action : Option (PositionRiskActionRecord F)) (final : F)
      → fl.lt (planner_weight action final) final ≡ false
      → planner_weight action final ≡ final
  unfolding planner_weight reduced_weight
  planner_weight-eq none final h = refl
  planner_weight-eq (some a) final h = ground arith

  planner_weight-le :
      FloatLaws F
      → (action : Option (PositionRiskActionRecord F)) (final : F) → IsNumber final
      → planner_weight action final ≼ final
  unfolding planner_weight reduced_weight
  planner_weight-le laws none final number = number
  planner_weight-le laws (some a) final number = elim (Option-cases a.max_allowed_weight_override) [
    | inl unset ↦ ground arith
    | inr (c, limit) ↦ ground (arith, laws.le_of_lt c final)
  ]

  over_cap-IsOutcome :
      (current cap final : F) (intent : Option (PortfolioRiskIntentRecord F))
      (source : Option String)
      → IsOutcome final (over_cap current cap intent source)
  unfolding over_cap
  over_cap-IsOutcome current cap final intent source = ground arith

  within_limits-IsOutcome :
      (action : Option (PositionRiskActionRecord F)) (final : F)
      (intent : Option (PortfolioRiskIntentRecord F))
      → IsOutcome final (within_limits (planner_weight action final) final action intent)
  unfolding within_limits
  within_limits-IsOutcome action final intent = ground (arith, planner_weight-eq action final)

  reject-IsOutcome :
      (final : F) (reason rule : String) (binding source : Option String)
      → IsOutcome final (reject reason rule binding source)
  reject-IsOutcome final reason rule binding source = inl (refl, refl)

  module _ (r : TradeRiskRequest F) (final : F) (context : PortfolioContext F)
      (config : RiskLimitConfig F) (intent : Option (PortfolioRiskIntentRecord F))
      (action : Option (PositionRiskActionRecord F)) where
    abbrev weight : F
    weight = planner_weight action final

    abbrev current : F
    current = sector_weight r.sector context

    abbrev cap : F
    cap = effective_sector_cap r config

    -- What holds of every rejection, of the sector cap's return and of the last return holds of the verdict.
    verdict_cases :
        (P : Verdict F → Type 0)
        → ((reason rule : String) (binding source : Option String)
            → P (reject reason rule binding source))
        → (exceeds_sector_cap r context config weight ≡ true
            → P (over_cap current cap intent (planner_risk_source action)))
        → (exceeds_sector_cap r context config weight ≡ false
            → P (within_limits weight final action intent))
        → P (verdict r final context config intent action)
    unfolding verdict
    verdict_cases P rejected capped passed =
        if_cases P (blocks_open action) _ _ (λ _. rejected _ _ _ _)
          λ _.
            if_cases P (unapproved_core r context) _ _ (λ _. rejected _ _ _ _)
              λ _.
                if_cases P (has_missing_or_stale_signals r) _ _ (λ _. rejected _ _ _ _)
                  λ _.
                    if_cases P (r.instrument_type == "stock" && is_macro_only_bearish r) _ _
                      (λ _. rejected _ _ _ _)
                      λ _.
                        if_cases P (no_margin_estimate r) _ _ (λ _. rejected _ _ _ _)
                          λ _.
                            if_cases P
                              (r.instrument_type == "option" && not r.option_risk_metadata_complete)
                              _ _ (λ _. rejected _ _ _ _)
                              λ _.
                                if_cases P (exceeds_sector_cap r context config weight) _ _ capped
                                  passed

    verdict-IsOutcome : IsOutcome final (verdict r final context config intent action)
    verdict-IsOutcome =
        verdict_cases (IsOutcome final) (reject-IsOutcome final)
          (λ _. over_cap-IsOutcome current cap final intent (planner_risk_source action))
          (λ _. within_limits-IsOutcome action final intent)

    -- with a sector, what is approved keeps under the cap or is the room below it
    abbrev pub KeepsSectorCap : Verdict F → Type 0
    KeepsSectorCap v =
        truthy r.sector ≡ true
        → v.status ≢ "rejected"
        → (fl.lt cap (fl.plus current v.approved_weight) ≡ false)
          ⊎ ((v.reason_code ≡ "sector_concentration_cap")
              × (v.approved_weight ≡ fl.minus cap current))

    module _ (laws : FloatLaws F) where
      open laws use {le_trans, sub_le_of_lt_add, lt-eq-not-le, lit-IsNumber}

      verdict-KeepsSectorCap : KeepsSectorCap (verdict r final context config intent action)
      unfolding over_cap within_limits
      verdict-KeepsSectorCap =
          let zero_number = lit-IsNumber 0 0 in
          verdict_cases KeepsSectorCap (λ _ _ _ _ _ ne. absurd (ne refl))
            (λ exceeds _ ne. ground (arith, lt-eq-not-le zero_f zero_f zero_number zero_number))
            (λ passes sector _. ground arith)

      approved-le :
          IsNumber final
          → zero_f ≼ final
          → (verdict r final context config intent action).approved_weight ≼ final
      unfolding over_cap within_limits
      approved-le number nonneg =
          let below = planner_weight-le laws action final number in
          verdict_cases (λ v. v.approved_weight ≼ final) (λ _ _ _ _. nonneg)
            (λ exceeds. ground (
              arith,
              sub_le_of_lt_add cap current weight,
              le_trans (fl.minus cap current) weight final,
            ))
            (λ _. below)

  module _ (snapshot_uuid fresh : String) (r : TradeRiskRequest F)
      (sizing : PositionSizingDecisionRecord F) (context : PortfolioContext F)
      (config : RiskLimitConfig F) (intent : Option (PortfolioRiskIntentRecord F)) where
    abbrev pub decided : RiskDecisionRecord F
    decided = evaluate snapshot_uuid fresh r sizing context config intent

    -- Every decision is one of three: `rejected` with the weight 0.0; `approved` with exactly the weight
    -- that was asked for, the reason `within_limits` and no binding constraint; `reduced`, where
    -- the binding constraint is the reason and the weight is above 0.0 or below what was asked for.
    pub evaluate-outcome :
        let d = decided in
        ((d.status ≡ "rejected") × (d.approved_weight ≡ zero_f))
        ⊎ ((d.status ≡ "approved")
            × (d.approved_weight ≡ sizing.final_weight)
            × (d.reason_code ≡ "within_limits")
            × (d.binding_constraint ≡ none))
        ⊎ ((d.status ≡ "reduced")
            × (d.binding_constraint ≡ some d.reason_code)
            × ((fl.lt zero_f d.approved_weight ≡ true)
                ⊎ (fl.lt d.approved_weight sizing.final_weight ≡ true)))
    unfolding evaluate decision
    evaluate-outcome = verdict-IsOutcome r sizing.final_weight context config intent _

    -- If the weight asked for is a number and is not negative, no decision approves more than it.
    pub approved-le-requested :
        FloatLaws F
        → IsNumber sizing.final_weight
        → zero_f ≼ sizing.final_weight
        → decided.approved_weight ≼ sizing.final_weight
    unfolding evaluate decision
    approved-le-requested laws = approved-le r sizing.final_weight context config intent _ laws

    -- A trade in a named sector that is not rejected keeps the sector under its cap, or gets exactly the room
    -- that is left below the cap, with the reason `sector_concentration_cap`.
    pub sector_cap_kept :
        FloatLaws F
        → truthy r.sector ≡ true
        → decided.status ≢ "rejected"
        → let current = sector_weight r.sector context in
          let cap = effective_sector_cap r config in
          (fl.lt cap (fl.plus current decided.approved_weight) ≡ false)
          ⊎ ((decided.reason_code ≡ "sector_concentration_cap")
              × (decided.approved_weight ≡ fl.minus cap current))
    unfolding evaluate decision
    sector_cap_kept laws = verdict-KeepsSectorCap r sizing.final_weight context config intent _ laws
