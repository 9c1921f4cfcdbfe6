-- ===== src/Policy/Terms.antt =====
-- The terms of an option strategy, by the option policy of its expression: trading/decision/option_strategy_builder/policy.py.
-- The `option_policy` of a definition is given; a key with a value of another kind counts as missing, as it does there.
use equity_research_agent.Prelude.{
  String, ◌==◌, Bool, true, false, ◌||◌, List, [], ◌∷◌, Option, none, some, if◌then◌else◌, is_empty,
  filled, or_else, contains, Dict, lookup,
}
use equity_research_agent.Prelude.Int.{ℤ, pos, ltb_ℤ}
use equity_research_agent.Float.{Float, zero_f}

-- the keys of an `option_policy`; `figures` are the strikes and deltas of its legs, and `wishes` what it prefers in a chain
pub record OptionPolicy (F : Type 0) : Type 0 where
  pub max_loss_source : Option String
  pub requires_implied_volatility : Option Bool
  pub profit_target_pct : Option F
  pub non_event_dte_days : Option ℤ
  pub event_dte_days : Option ℤ
  pub figures : Dict F
  pub wishes : Dict Bool
  pub close_conditions : List String
  pub roll_conditions : List String
  pub assignment_plan : Option String
  pub strategy_pairing_method : Option String

abbrev pub credit_spreads : List String
credit_spreads = "put_credit_spread" ∷ "call_credit_spread" ∷ []

-- the days of a policy where they are positive, or else the given ones
abbrev pub days_or : Option ℤ → ℤ → ℤ
days_or none default = default
days_or (some days) default = if ltb_ℤ (pos 0) days then days else default

module _ {F : Type 0} where
  abbrev pub no_policy : OptionPolicy F
  no_policy = record {
    max_loss_source = none;
    requires_implied_volatility = none;
    profit_target_pct = none;
    non_event_dte_days = none;
    event_dte_days = none;
    figures = [];
    wishes = [];
    close_conditions = [];
    roll_conditions = [];
    assignment_plan = none;
    strategy_pairing_method = none;
  }

  -- `_option_roll_conditions`
  unfoldable pub option_roll_conditions : String → OptionPolicy F → List String
  option_roll_conditions type policy =
      if is_empty policy.roll_conditions
      then if contains credit_spreads type then "7_dte_if_otm" ∷ [] else "delta_drops" ∷ []
      else policy.roll_conditions

  -- `_option_close_conditions`
  unfoldable pub option_close_conditions : String → OptionPolicy F → List String
  option_close_conditions type policy =
      if is_empty policy.close_conditions
      then if contains credit_spreads type then "take_profit_50pct" ∷ [] else "take_profit" ∷ []
      else policy.close_conditions

  -- `_option_max_loss_rule`
  unfoldable pub option_max_loss_rule : String → OptionPolicy F → String
  option_max_loss_rule type policy = or_else (filled policy.max_loss_source) (
      if contains ("long_call" ∷ "long_put" ∷ []) type
      then "premium_paid"
      else if contains ("long_straddle" ∷ "long_strangle" ∷ []) type
      then "net_debit"
      else "close_at_2x_credit")

  -- `_option_strategy_pairing_method`
  unfoldable pub option_strategy_pairing_method : String → OptionPolicy F → String
  option_strategy_pairing_method type policy =
      or_else (filled policy.strategy_pairing_method)
        (if contains credit_spreads type then "vertical_by_expiry_and_width" else "single_leg")

  -- `_option_assignment_plan`
  unfoldable pub option_assignment_plan : String → OptionPolicy F → Option String
  option_assignment_plan type policy = elim (filled policy.assignment_plan) [
    | some plan ↦ some plan
    | none ↦
        if contains credit_spreads type then some "close_or_roll_before_expiry_if_itm" else none
  ]

  -- `_option_days_to_expiry`
  unfoldable pub option_days_to_expiry : OptionPolicy F → Bool → ℤ
  option_days_to_expiry policy event_through_expiry =
      if event_through_expiry
      then days_or policy.event_dte_days (pos 10)
      else days_or policy.non_event_dte_days (pos 21)

module _ {F : Type 0} ⦃fl : Float F⦄ where
  -- `_option_profit_target_pct`
  unfoldable pub option_profit_target_pct : OptionPolicy F → F
  option_profit_target_pct policy = elim policy.profit_target_pct [
    | none ↦ fl.lit 5 1
    | some value ↦ if fl.lt zero_f value then value else fl.lit 5 1
  ]

  abbrev pub directional_policy : OptionPolicy F
  directional_policy = record no_policy {
    max_loss_source = some "premium_paid";
    requires_implied_volatility = some false;
    profit_target_pct = some (fl.lit 65 2);
    non_event_dte_days = some (pos 28);
    figures =
        ("long_call_strike_pct_above_spot", fl.lit 2 2)
        ∷ ("long_put_strike_pct_below_spot", fl.lit 2 2)
        ∷ ("long_call_target_delta", fl.lit 42 2)
        ∷ ("long_put_target_delta", fl.neg (fl.lit 42 2))
        ∷ [];
    close_conditions = "take_profit_65pct" ∷ "time_stop_10d" ∷ [];
  }

  abbrev pub income_policy : OptionPolicy F
  income_policy = record no_policy {
    profit_target_pct = some (fl.lit 5 1);
    non_event_dte_days = some (pos 28);
    figures =
        ("short_put_strike_pct_below_spot", fl.lit 3 2)
        ∷ ("long_put_strike_pct_below_spot", fl.lit 8 2)
        ∷ ("short_call_strike_pct_above_spot", fl.lit 3 2)
        ∷ ("long_call_strike_pct_above_spot", fl.lit 8 2)
        ∷ ("short_leg_target_delta_abs", fl.lit 28 2)
        ∷ ("long_leg_target_delta_abs", fl.lit 12 2)
        ∷ [];
    close_conditions = "take_profit_50pct" ∷ [];
    roll_conditions = "7_dte_if_otm" ∷ [];
    assignment_plan = some "close_or_roll_before_expiry_if_itm";
    strategy_pairing_method = some "vertical_by_expiry_and_width";
  }

  abbrev pub volatility_policy : OptionPolicy F
  volatility_policy = record no_policy {
    max_loss_source = some "net_debit";
    requires_implied_volatility = some true;
    profit_target_pct = some (fl.lit 35 2);
    event_dte_days = some (pos 7);
    figures =
        ("straddle_target_delta_abs", fl.lit 24 2)
        ∷ ("strangle_call_strike_pct_above_spot_bullish", fl.lit 4 2)
        ∷ ("strangle_call_strike_pct_above_spot_default", fl.lit 3 2)
        ∷ ("strangle_put_strike_pct_below_spot_bearish", fl.lit 4 2)
        ∷ ("strangle_put_strike_pct_below_spot_default", fl.lit 3 2)
        ∷ ("strangle_call_target_delta", fl.lit 26 2)
        ∷ ("strangle_put_target_delta", fl.neg (fl.lit 14 2))
        ∷ [];
    wishes = ("prefer_higher_vega", true) ∷ ("prefer_higher_implied_volatility", true) ∷ [];
    close_conditions = "event_exit_after_reaction" ∷ "premium_stop" ∷ [];
    roll_conditions = "event_window_only" ∷ [];
    strategy_pairing_method = some "same_expiry_long_vol";
  }

  -- `_expression_option_policy`: a policy of its own, or that of its name
  unfoldable pub expression_option_policy : Option (OptionPolicy F) → String → OptionPolicy F
  expression_option_policy (some policy) id = policy
  expression_option_policy none id =
      or_else
        (lookup id (
          ("defined_risk_directional_option", directional_policy)
          ∷ ("defined_risk_income_spread", income_policy)
          ∷ ("volatility_event_option", volatility_policy)
          ∷ []))
        no_policy

  -- `_expression_requires_implied_volatility`
  unfoldable pub expression_requires_implied_volatility : Option (OptionPolicy F) → String → Bool
  expression_requires_implied_volatility configured id =
      or_else (expression_option_policy configured id).requires_implied_volatility
        (id == "volatility_event_option")

-- `_event_through_expiry`, of the truth of the three keys of `events_news`
abbrev pub event_through_expiry : Bool → Bool → Bool → Bool
event_through_expiry own_earnings_event regulatory_news guidance_news =
    own_earnings_event || regulatory_news || guidance_news

-- `_classification_instrument_type`, of a trade identity
abbrev pub classification_instrument_type : String → String
classification_instrument_type identity =
    if identity == "watch_only"
    then "watch"
    else if identity == "tactical_option_trade"
    then "option"
    else "stock"
