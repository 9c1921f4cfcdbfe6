-- ===== src/Risk/Sizing/Caps.antt =====
-- The caps on a position's size hold together.
use equity_research_agent.Prelude.{String, ◌==◌, ◌≡◌, true, inl, inr, none, arith, Bool-cases}
use equity_research_agent.Float.{Float, FloatLaws, IsNumber, ◌≼◌, min_of, zero_f}
use equity_research_agent.Float.Order.{min-le-left, min-le-right, min-IsNumber}
use equity_research_agent.Strategies.{experimental_strategy_weight_cap}
use equity_research_agent.Risk.Context.{PortfolioContext, TradeRiskRequest}
use equity_research_agent.Risk.Config.{RiskLimitConfig}
use equity_research_agent.Risk.Sizing.{base_weight, volatility_adjusted_weight, size_position}

module _ {F : Type 0} ⦃fl : Float F⦄ where
  module _ (laws : FloatLaws F) (r : TradeRiskRequest F) (config : RiskLimitConfig F)
      (target : IsNumber r.target_weight) where
    open laws use {le_trans, numbers_of_le, le_of_lt}

    base_weight-le : base_weight r config ≼ r.target_weight
    unfolding base_weight
    base_weight-le = elim (Bool-cases (r.candidate.strategy_lifecycle_status == "experimental")) [
      | inl experimental ↦ rw experimental (
          le_trans _ _ _ (min-le-left laws _ _ (min-IsNumber laws _ _ target))
            (min-le-left laws _ _ target))
      | inr other ↦ rw other (min-le-left laws _ _ target)
    ]

    base_weight-cap :
        (r.candidate.strategy_lifecycle_status == "experimental") ≡ true
        → IsNumber (experimental_strategy_weight_cap config.strategy_budget_weight)
        → base_weight r config ≼ experimental_strategy_weight_cap config.strategy_budget_weight
    unfolding base_weight
    base_weight-cap experimental cap =
        rw experimental (min-le-right laws _ _ (min-IsNumber laws _ _ target) cap)

    volatility-le : (base : F) → IsNumber base → volatility_adjusted_weight r config base ≼ base
    unfolding volatility_adjusted_weight
    volatility-le base h = elim (Bool-cases (fl.lt zero_f r.atr_pct)) [
      | inl volatile ↦ rw volatile (min-le-left laws _ _ h)
      | inr calm ↦ rw calm h
    ]

    -- The final weight of a position is at most the target weight, the liquidity cap and the single-name
    -- cap, each of them being a number.
    pub size_position-caps :
        (fresh : String) (context : PortfolioContext F)
        → IsNumber config.max_liquidity_weight
        → IsNumber config.max_single_name_weight
        → let w = (size_position fresh r context config).final_weight in
          (w ≼ r.target_weight)
          × (w ≼ config.max_liquidity_weight)
          × (w ≼ config.max_single_name_weight)
    unfolding size_position
    size_position-caps fresh context liquidity single =
        let base = base_weight r config in
        let volatile = volatility_adjusted_weight r config base in
        let liquid = min_of volatile config.max_liquidity_weight in
        let base_number = (numbers_of_le base r.target_weight base_weight-le).0 in
        let volatile_le = volatility-le base base_number in
        let number = (numbers_of_le volatile base volatile_le).0 in
        let final_le =
          min-le-left laws liquid config.max_single_name_weight (min-IsNumber laws _ _ number) in
        let liquid_le = min-le-left laws volatile config.max_liquidity_weight number in
        (
          le_trans _ _ _ (le_trans _ _ _ (le_trans _ _ _ final_le liquid_le) volatile_le)
              base_weight-le,
          le_trans _ _ _ final_le
              (min-le-right laws volatile config.max_liquidity_weight number liquidity),
          min-le-right laws liquid config.max_single_name_weight (min-IsNumber laws _ _ number)
              single,
        )

    -- An experimental strategy gets at most 0.02 of the account, where the quarter of the strategy budget is
    -- a number.
    pub size_position-experimental :
        (fresh : String) (context : PortfolioContext F)
        → (r.candidate.strategy_lifecycle_status == "experimental") ≡ true
        → IsNumber (fl.times config.strategy_budget_weight (fl.lit 25 2))
        → (size_position fresh r context config).final_weight ≼ fl.lit 2 2
    unfolding size_position experimental_strategy_weight_cap
    size_position-experimental fresh context experimental quarter =
        let cap = experimental_strategy_weight_cap config.strategy_budget_weight in
        let base = base_weight r config in
        let volatile = volatility_adjusted_weight r config base in
        let liquid = min_of volatile config.max_liquidity_weight in
        let base_number = (numbers_of_le base r.target_weight base_weight-le).0 in
        let volatile_le = volatility-le base base_number in
        let number = (numbers_of_le volatile base volatile_le).0 in
        let final_le =
          min-le-left laws liquid config.max_single_name_weight (min-IsNumber laws _ _ number) in
        let liquid_le = min-le-left laws volatile config.max_liquidity_weight number in
        let cap_le = min-le-right laws _ (fl.lit 2 2) quarter (laws.lit-IsNumber 2 2) in
        le_trans _ _ _ (le_trans _ _ _ (le_trans _ _ _ final_le liquid_le) volatile_le)
          (le_trans base cap _ (base_weight-cap experimental (numbers_of_le _ _ cap_le).0) cap_le)

  -- A sizing decision with no binding constraint has kept the base weight.
  pub size_position-unbound :
      (fresh : String) (r : TradeRiskRequest F) (context : PortfolioContext F)
      (config : RiskLimitConfig F)
      → (size_position fresh r context config).binding_constraint ≡ none
      → (size_position fresh r context config).final_weight
        ≡ (size_position fresh r context config).base_weight
  unfolding size_position volatility_adjusted_weight
  size_position-unbound fresh r context config h = ground arith
