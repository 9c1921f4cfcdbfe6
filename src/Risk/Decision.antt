-- ===== src/Risk/Decision.antt =====
-- `RiskManager._decision` of trading/risk/manager.py: the record of a decision with its quantities and
-- its metadata.
use Prim.Native.String.{◌++◌ as concat}
use equity_research_agent.Prelude.{
  ℕ, String, ◌==◌, Bool, false, ◌&&◌, List, [], ◌∷◌, ◌++◌, map, Option, none, some, if◌then◌else◌,
  keep, truthy, same_text,
}
use equity_research_agent.Float.{Float, zero_f, max_of, abs_of, sum_of, or_zero}
use equity_research_agent.Risk.Context.{
  PortfolioContext, TradeRiskRequest, PositionSizingDecisionRecord, HedgeActionRecord, HedgePosture,
  PortfolioRiskIntentRecord,
}
use equity_research_agent.Risk.Config.{RiskLimitConfig}
use equity_research_agent.Risk.Intent.{
  top_risk_sources_for_decision, hedge_posture_metadata, data_availability_issues,
}

pub record RuleCheck : Type 0 where
  pub label : String
  pub observed : String
  pub cap : String
  pub passed : Bool

pub record ExposureUsage (F : Type 0) : Type 0 where
  pub sector_weight_before : F
  pub sector_weight_after : F
  pub sector_cap : F
  pub account_equity : F

-- the keys that only an option decision has
pub record OptionAmounts (F : Type 0) : Type 0 where
  pub approved_strategy_units : F
  pub approved_margin_exposure : F
  pub approved_buying_power_effect : F
  pub approved_assignment_notional : F
  pub approved_premium_notional : F

pub record RiskDecisionMetadata (F : Type 0) : Type 0 where
  pub approved_capital_notional : F
  pub approved_quantity_basis : String
  pub approved_quantity_unit_cost : F
  pub macro_risk_budget_multiplier : F
  pub binding_constraints : List String
  pub top_risk_sources : List String
  pub hedge_posture : Option (HedgePosture F)
  pub data_availability_issues : List String
  pub exposure_usage : ExposureUsage F
  pub rule_checks : List RuleCheck
  pub binding_constraint : Option String
  pub option_amounts : Option (OptionAmounts F)

pub record RiskDecisionRecord (F : Type 0) : Type 0 where
  pub risk_decision_id : String
  pub candidate_score_id : String
  pub trade_classification_id : String
  pub position_sizing_decision_id : String
  pub ticker : String
  pub status : String
  pub reason_code : String
  pub approved_weight : F
  pub approved_notional : F
  pub approved_quantity : F
  pub portfolio_risk_snapshot_id : Option String
  pub applied_rules : List String
  pub generated_hedge_action : Option (HedgeActionRecord F)
  pub decision_time : ℕ
  pub binding_constraint : Option String
  pub lookahead_risk_source : Option String
  pub metadata_json : RiskDecisionMetadata F

-- the arguments in which the calls of `_decision` differ
pub record Verdict (F : Type 0) : Type 0 where
  pub status : String
  pub reason_code : String
  pub approved_weight : F
  pub applied_rules : List String
  pub binding_constraint : Option String
  pub lookahead_risk_source : Option String
  pub generated_hedge_action : Option (HedgeActionRecord F)

module _ {F : Type 0} ⦃fl : Float F⦄ where
  -- `_current_sector_weight`, and `_sector_weight_for_request`, which has the same body
  unfoldable pub sector_weight : Option String → PortfolioContext F → F
  sector_weight none context = zero_f
  sector_weight (some sector) context =
      if sector == ""
      then zero_f
      else if fl.le context.account_equity zero_f
      then zero_f
      else fl.over
          (sum_of (
            map (λ p. abs_of p.notional_exposure)
              (keep (λ p. same_text p.sector sector) context.positions)))
          context.account_equity

  abbrev cut_if : Bool → F → F
  cut_if b cap = if b then fl.minus cap (fl.lit 1 2) else cap

  -- `_effective_sector_cap`
  unfoldable pub effective_sector_cap : TradeRiskRequest F → RiskLimitConfig F → F
  effective_sector_cap r config = max_of (fl.lit 5 2) (
      cut_if (same_text r.liquidity_bucket "thin") (
        cut_if (same_text r.volatility_bucket "high")
          (cut_if (same_text r.beta_bucket "high") config.max_sector_weight)))

  -- `x and x > 0` on a value of `float | None`
  abbrev positive : Option F → Bool
  positive none = false
  positive (some x) = fl.lt zero_f x

  -- `_approved_quantity_basis`
  unfoldable pub approved_quantity_basis : TradeRiskRequest F → String × F
  approved_quantity_basis r =
      if r.instrument_type == "option" && positive r.estimated_margin_requirement
      then ("estimated_margin_requirement", or_zero r.estimated_margin_requirement)
      else if r.instrument_type == "option" && positive r.estimated_buying_power_effect
      then ("estimated_buying_power_effect", or_zero r.estimated_buying_power_effect)
      else ("price", if fl.lt zero_f r.price then r.price else zero_f)

  -- `_format_rule_pct`
  abbrev format_rule_pct : F → String
  format_rule_pct x = concat (fl.one_decimal (fl.times x (fl.lit 100 0))) "%"

  abbrev within : F → F → Bool
  within x cap = fl.le x (fl.plus cap (fl.lit 1 9))

  -- `_risk_rule_checks`
  unfoldable pub risk_rule_checks :
      TradeRiskRequest F → F → F → F → F → RiskLimitConfig F → List RuleCheck
  risk_rule_checks r requested approved before cap config =
      record {
        label = "Single-name size";
        observed = format_rule_pct requested;
        cap = concat (format_rule_pct config.max_single_name_weight) " cap";
        passed = within requested config.max_single_name_weight;
      }
      ∷ ((if truthy r.sector
            then record {
              label = "Sector concentration";
              observed = format_rule_pct (fl.plus before requested);
              cap = concat (format_rule_pct cap) " cap";
              passed = within (fl.plus before requested) cap;
            }
              ∷ []
            else [])
          ++ (if fl.lt approved requested
              then record {
                label = "Approved size";
                observed = format_rule_pct approved;
                cap = concat (format_rule_pct requested) " requested";
                passed = false;
              }
                ∷ []
              else []))

  -- `_risk_decision_metadata`
  unfoldable pub risk_decision_metadata :
      TradeRiskRequest F
      → F
      → F
      → String × F
      → F
      → PortfolioContext F
      → RiskLimitConfig F
      → Option (PortfolioRiskIntentRecord F)
      → Verdict F
      → RiskDecisionMetadata F
  risk_decision_metadata r notional quantity basis requested context config intent v =
      let before = sector_weight r.sector context in
      let cap = effective_sector_cap r config in
      record {
        approved_capital_notional = notional;
        approved_quantity_basis = basis.0;
        approved_quantity_unit_cost = basis.1;
        macro_risk_budget_multiplier = config.macro_risk_budget_multiplier;
        binding_constraints = elim intent [ none ↦ [] | some i ↦ i.binding_constraints ];
        top_risk_sources = top_risk_sources_for_decision intent v.lookahead_risk_source;
        hedge_posture = hedge_posture_metadata intent;
        data_availability_issues = data_availability_issues intent;
        exposure_usage = record {
          sector_weight_before = before;
          sector_weight_after =
              if truthy r.sector && fl.lt zero_f context.account_equity
              then fl.plus before (fl.over notional context.account_equity)
              else before;
          sector_cap = cap;
          account_equity = context.account_equity;
        };
        rule_checks = risk_rule_checks r requested v.approved_weight before cap config;
        binding_constraint = v.binding_constraint;
        option_amounts =
            if r.instrument_type == "option"
            then some (record {
              approved_strategy_units = quantity;
              approved_margin_exposure = fl.times quantity (or_zero r.estimated_margin_requirement);
              approved_buying_power_effect =
                  fl.times quantity (or_zero r.estimated_buying_power_effect);
              approved_assignment_notional = fl.times quantity r.assignment_notional;
              approved_premium_notional = fl.times quantity r.price;
            })
            else none;
      }

  -- `_decision`; `fresh` is the new id, from `uuid4`
  unfoldable pub decision :
      String
      → TradeRiskRequest F
      → PositionSizingDecisionRecord F
      → PortfolioContext F
      → RiskLimitConfig F
      → Option (PortfolioRiskIntentRecord F)
      → Option String
      → Verdict F
      → RiskDecisionRecord F
  decision fresh r sizing context config intent snapshot_id v =
      let notional =
        if fl.lt zero_f sizing.final_weight
        then fl.times v.approved_weight (fl.over sizing.final_notional sizing.final_weight)
        else zero_f in
      let basis = approved_quantity_basis r in
      let quantity = if fl.lt zero_f basis.1 then fl.over notional basis.1 else zero_f in
      record {
        risk_decision_id = fresh;
        candidate_score_id = r.candidate.candidate_score_id;
        trade_classification_id = r.classification.trade_classification_id;
        position_sizing_decision_id = sizing.position_sizing_decision_id;
        ticker = r.candidate.ticker;
        status = v.status;
        reason_code = v.reason_code;
        approved_weight = v.approved_weight;
        approved_notional = notional;
        approved_quantity = quantity;
        portfolio_risk_snapshot_id = snapshot_id;
        applied_rules = v.applied_rules;
        generated_hedge_action = v.generated_hedge_action;
        decision_time = r.candidate.decision_time;
        binding_constraint = v.binding_constraint;
        lookahead_risk_source = v.lookahead_risk_source;
        metadata_json =
            risk_decision_metadata r notional quantity basis sizing.final_weight context config
              intent v;
      }
