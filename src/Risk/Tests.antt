-- ===== src/Risk/Tests.antt =====
-- The theorems of the risk layer at the sample account, and runs of its operations.
use equity_research_agent.Prelude.{
  ◌≡◌, refl, true, false, ◌⊎◌, [], ◌∷◌, none, some, All, keep, false≢true, eq_iff,
}
use equity_research_agent.Prelude.Int.{ℤ, pos, ◌+ℤ◌, ◌-ℤ◌}
use equity_research_agent.Float.{◌≼◌, zero_f}
use equity_research_agent.Float.Micros.{micros, micros-FloatLaws}
use equity_research_agent.Risk.Exposure.{compute_factor_exposures}
use equity_research_agent.Risk.Exposure.Sums.{has_factor, expected}
use equity_research_agent.Risk.Exposure.Totals.{exposure_at, exposure_totals}
use equity_research_agent.Risk.Sizing.{size_position}
use equity_research_agent.Risk.Sizing.Caps.{size_position-caps}
use equity_research_agent.Risk.Signals.{
  has_missing_or_stale_signals, is_macro_only_bearish, is_blocking_signal_family,
}
use equity_research_agent.Risk.Decision.{sector_weight, effective_sector_cap, decision}
use equity_research_agent.Risk.Gate.{evaluate, verdict, planner_weight, over_cap}
use equity_research_agent.Risk.Gate.Passes.{IsPassed, evaluate-IsPassed}
use equity_research_agent.Risk.Gate.Bounds.{
  evaluate-outcome, approved-le-requested, sector_cap_kept,
}
use equity_research_agent.Risk.Planner.{plan}
use equity_research_agent.Risk.Intent.{matching_planner_position_action}
use equity_research_agent.Risk.Planner.Actions.{SparesCore, plan-SparesCore}
use equity_research_agent.Risk.Planner.Blocked.{own_event_rejects}
use equity_research_agent.Risk.Assignment.{
  OptionRiskInput, evaluate_assignment_risk, assignment_notional, total_of,
  blocks_short_premium_through_event, sector_exposure_after_assignment,
}
use equity_research_agent.Risk.Assignment.Limits.{KeepsLimits, approved-KeepsLimits}
use equity_research_agent.Risk.Samples.{
  account, request, config, sizing, earnings, pending, planner_request,
}

-- 28% of the account is in the sector and the cap is 29% for a high beta: of the 2% asked for, 1% is left
capped : (evaluate "s" "d" request sizing account config none).approved_weight ≡ micros.lit 1 2
unfolding evaluate verdict decision matching_planner_position_action has_missing_or_stale_signals
    is_blocking_signal_family is_macro_only_bearish effective_sector_cap ◌-ℤ◌ ◌+ℤ◌ sector_weight
    planner_weight over_cap
capped = refl

evaluate-IsPassed_example : IsPassed request account none
unfolding evaluate verdict decision matching_planner_position_action has_missing_or_stale_signals
    is_blocking_signal_family is_macro_only_bearish effective_sector_cap ◌-ℤ◌ ◌+ℤ◌ sector_weight
    planner_weight over_cap
evaluate-IsPassed_example = evaluate-IsPassed "s" "d" request sizing account config none refl

evaluate-outcome_example :
    let d = evaluate "s" "d" request sizing account config none in
    ((d.status ≡ "rejected") × (d.approved_weight ≡ zero_f))
    ⊎ ((d.status ≡ "approved")
        × (d.approved_weight ≡ sizing.final_weight)
        × (d.reason_code ≡ "within_limits")
        × (d.binding_constraint ≡ none))
    ⊎ ((d.status ≡ "reduced")
        × (d.binding_constraint ≡ some d.reason_code)
        × ((micros.lt zero_f d.approved_weight ≡ true)
            ⊎ (micros.lt d.approved_weight sizing.final_weight ≡ true)))
evaluate-outcome_example = evaluate-outcome "s" "d" request sizing account config none

approved-le-requested_example :
    (evaluate "s" "d" request sizing account config none).approved_weight ≼ sizing.final_weight
approved-le-requested_example =
    approved-le-requested "s" "d" request sizing account config none micros-FloatLaws refl refl

sector_cap_kept_example :
    let d = evaluate "s" "d" request sizing account config none in
    let current = sector_weight request.sector account in
    let cap = effective_sector_cap request config in
    (micros.lt cap (micros.plus current d.approved_weight) ≡ false)
    ⊎ ((d.reason_code ≡ "sector_concentration_cap")
        × (d.approved_weight ≡ micros.minus cap current))
unfolding evaluate verdict decision matching_planner_position_action has_missing_or_stale_signals
    is_blocking_signal_family is_macro_only_bearish effective_sector_cap ◌-ℤ◌ ◌+ℤ◌ sector_weight
    planner_weight over_cap
sector_cap_kept_example =
    sector_cap_kept "s" "d" request sizing account config none micros-FloatLaws refl
      (λ same. false≢true ((eq_iff "reduced" "rejected").1 same))

own_event_rejects_example :
    let d = evaluate "s" "d" request sizing account config (some (plan "p" planner_request)) in
    (d.status ≡ "rejected") × (d.approved_weight ≡ zero_f)
own_event_rejects_example =
    own_event_rejects earnings pending refl refl refl planner_request refl refl ([], [], refl) "p"
      "s" "d" request sizing account config ([], [], refl) refl refl

plan-SparesCore_example : All SparesCore (plan "p" planner_request).position_actions
plan-SparesCore_example = plan-SparesCore planner_request "p"

exposure_totals_example :
    exposure_at ("sector", "Technology") (compute_factor_exposures account)
    ≡ expected
        ("sector", "Technology")
        (keep (has_factor ("sector", "Technology")) account.positions)
exposure_totals_example = exposure_totals ("sector", "Technology") account

size_position-caps_example :
    let w = (size_position "z" request account config).final_weight in
    (w ≼ request.target_weight)
    × (w ≼ config.max_liquidity_weight)
    × (w ≼ config.max_single_name_weight)
size_position-caps_example =
    size_position-caps micros-FloatLaws request config refl "z" account refl refl

-- a put credit spread of one contract, which may be assigned for 5,000 dollars
abbrev put_spread : OptionRiskInput ℤ
put_spread = record {
  ticker = "XOM";
  trade_identity = "option_trade";
  option_strategy_type = "put_credit_spread";
  underlying_price = micros.lit 55 0;
  sector = some "Energy";
  event_type = none;
  event_through_expiry = false;
  margin_requirement = micros.lit 500 0;
  buying_power_effect = micros.lit 500 0;
  max_loss = micros.lit 400 0;
  max_profit = some (micros.lit 100 0);
  net_debit_or_credit = micros.lit 100 0;
  legs =
      record {
        option_type = "put";
        side = "sell";
        quantity = pos 1;
        strike = micros.lit 50 0;
        expiry = "2026-06-19";
        delta = micros.lit 3 1;
        gamma = micros.lit 1 2;
        theta = micros.lit 1 2;
        vega = micros.lit 1 1;
        premium = micros.lit 2 0;
      }
      ∷ [];
}

approved-KeepsLimits_example : KeepsLimits put_spread account config
unfolding evaluate_assignment_risk assignment_notional total_of blocks_short_premium_through_event
    sector_exposure_after_assignment ◌-ℤ◌ ◌+ℤ◌
approved-KeepsLimits_example = approved-KeepsLimits put_spread account config refl

-- over an event the spread is rejected
over_event :
    (evaluate_assignment_risk
      (record put_spread { event_through_expiry = true })
      account
      config).reason_code
    ≡ "event_through_expiry_short_premium_blocked"
unfolding evaluate_assignment_risk blocks_short_premium_through_event
over_event = refl
