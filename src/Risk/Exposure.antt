-- ===== src/Risk/Exposure.antt =====
-- `RiskManager.compute_factor_exposures` and `build_portfolio_risk_snapshot` of
-- trading/risk/manager.py: positions added up by factor, in the order of the portfolio.
pub mod Buckets
pub mod Totals
pub mod Sums
use equity_research_agent.Prelude.{
  ℕ, ◌+◌, String, ◌==◌, Bool, ◌&&◌, List, [], ◌∷◌, map, Option, none, some, if◌then◌else◌, or_else,
  keep, text_le,
}
use Prim.Native.String.{◌++◌ as concat}
use equity_research_agent.Prelude.Sorting.{sorted}
use equity_research_agent.Prelude.Text.{lower}
use equity_research_agent.Float.{Float, zero_f, one_f, abs_of, sum_of}
use equity_research_agent.Risk.Context.{
  PortfolioPosition, RiskFactorExposureRecord, PortfolioContext, PortfolioRiskSnapshotRecord,
}
use equity_research_agent.Risk.Config.{RiskLimitConfig}

-- the key of a bucket: factor type and factor value
abbrev pub Factor : Type 0
Factor = String × String

abbrev pub same_factor : Factor → Factor → Bool
same_factor j k = j.0 == k.0 && j.1 == k.1

-- tuples compare by their first component that differs
abbrev pub factor_le : Factor → Factor → Bool
factor_le j k = if j.0 == k.0 then text_le j.1 k.1 else text_le j.0 k.0

pub record Bucket (F : Type 0) : Type 0 where
  pub gross_exposure : F
  pub net_exposure : F
  pub long_exposure : F
  pub short_exposure : F
  pub position_count : ℕ

module _ {F : Type 0} ⦃fl : Float F⦄ where
  -- what `defaultdict` makes for a new key
  abbrev pub empty_bucket : Bucket F
  empty_bucket = record {
    gross_exposure = zero_f;
    net_exposure = zero_f;
    long_exposure = zero_f;
    short_exposure = zero_f;
    position_count = 0;
  }

  unfoldable pub signed_exposure : PortfolioPosition F → F
  signed_exposure p =
      if p.direction == "short" then fl.neg p.notional_exposure else p.notional_exposure

  -- the additions of `_accumulate_factor`
  unfoldable pub add_position : Bucket F → PortfolioPosition F → Bucket F
  add_position b p =
      let short = p.direction == "short" in
      let size = abs_of p.notional_exposure in
      record {
        gross_exposure = fl.plus b.gross_exposure size;
        net_exposure = fl.plus b.net_exposure (signed_exposure p);
        long_exposure = if short then b.long_exposure else fl.plus b.long_exposure size;
        short_exposure = if short then fl.plus b.short_exposure size else b.short_exposure;
        position_count = b.position_count + 1;
      }

  -- the dictionary of buckets, in the order in which their keys first came
  pub bucket_at : Factor → List (Factor × Bucket F) → Option (Bucket F)
  bucket_at k [] = none
  bucket_at k ((j, b) ∷ d) = if same_factor j k then some b else bucket_at k d

  pub put_position :
      Factor → PortfolioPosition F → List (Factor × Bucket F) → List (Factor × Bucket F)
  put_position k p [] = (k, add_position empty_bucket p) ∷ []
  put_position k p ((j, b) ∷ d) =
      if same_factor j k then (j, add_position b p) ∷ d else (j, b) ∷ put_position k p d

  -- `_accumulate_factor`
  pub accumulate_factor :
      String
      → Option String
      → PortfolioPosition F
      → List (Factor × Bucket F)
      → List (Factor × Bucket F)
  accumulate_factor factor_type none p d = d
  accumulate_factor factor_type (some v) p d =
      if v == "" then d else put_position (factor_type, v) p d

  -- the nine factors of a position, in the order in which the loop takes them
  abbrev pub factors : PortfolioPosition F → List (String × Option String)
  factors p =
      ("sector", p.sector)
      ∷ ("strategy", p.strategy_id)
      ∷ ("horizon", p.intended_horizon)
      ∷ ("direction", some p.direction)
      ∷ ("beta_bucket", p.beta_bucket)
      ∷ ("volatility_bucket", p.volatility_bucket)
      ∷ ("liquidity_bucket", p.liquidity_bucket)
      ∷ ("event_type", p.event_type)
      ∷ ("macro_sensitivity", p.macro_sensitivity)
      ∷ []

  pub accumulate_factors :
      PortfolioPosition F
      → List (String × Option String)
      → List (Factor × Bucket F)
      → List (Factor × Bucket F)
  accumulate_factors p [] d = d
  accumulate_factors p ((t, v) ∷ fs) d = accumulate_factors p fs (accumulate_factor t v p d)

  pub buckets : List (PortfolioPosition F) → List (Factor × Bucket F) → List (Factor × Bucket F)
  buckets [] d = d
  buckets (p ∷ ps) d = buckets ps (accumulate_factors p (factors p) d)

  abbrev pub exposure_record : Factor × Bucket F → RiskFactorExposureRecord F
  exposure_record (k, b) = record {
    factor_type = k.0;
    factor_value = k.1;
    gross_exposure = b.gross_exposure;
    net_exposure = b.net_exposure;
    long_exposure = b.long_exposure;
    short_exposure = b.short_exposure;
    position_count = b.position_count;
  }

  unfoldable pub compute_factor_exposures : PortfolioContext F → List (RiskFactorExposureRecord F)
  unfolding buckets
  compute_factor_exposures context =
      map exposure_record (sorted (λ x y. factor_le x.0 y.0) (buckets context.positions []))

  -- `_beta_multiplier`
  unfoldable pub beta_multiplier : Option String → F
  beta_multiplier beta_bucket =
      let bucket = lower (or_else beta_bucket "") in
      if bucket == "low" then fl.lit 75 2 else if bucket == "high" then fl.lit 12 1 else one_f

  abbrev beta_term : PortfolioPosition F → F
  beta_term p =
      fl.times (fl.times p.notional_exposure (beta_multiplier p.beta_bucket))
        (if p.direction == "short" then fl.neg one_f else one_f)

  abbrev over_sector_cap :
      PortfolioContext F → RiskLimitConfig F → RiskFactorExposureRecord F → Bool
  over_sector_cap context config e =
      e.factor_type == "sector"
      && fl.lt zero_f context.account_equity
      && fl.lt config.max_sector_weight (fl.over e.gross_exposure context.account_equity)

  -- `build_portfolio_risk_snapshot`; `fresh` is what `uuid4` gives
  unfoldable pub build_portfolio_risk_snapshot :
      String → PortfolioContext F → RiskLimitConfig F → PortfolioRiskSnapshotRecord F
  build_portfolio_risk_snapshot fresh context config = record {
    portfolio_risk_snapshot_id = fresh;
    decision_time = context.as_of;
    risk_appetite = config.risk_appetite;
    resolver_version = config.resolver_version;
    margin_model_profile = config.margin_model_profile;
    margin_model_version = config.margin_model_version;
    account_equity = context.account_equity;
    cash_balance = context.cash_balance;
    buying_power = context.buying_power;
    excess_liquidity = context.excess_liquidity;
    stock_margin_requirement = context.stock_margin_requirement;
    option_margin_requirement = context.option_margin_requirement;
    total_margin_requirement = context.total_margin_requirement;
    initial_margin_requirement = context.initial_margin_requirement;
    maintenance_margin_requirement = context.maintenance_margin_requirement;
    margin_requirement_source = context.margin_requirement_source;
    net_exposure = sum_of (map signed_exposure context.positions);
    gross_exposure = sum_of (map (λ p. abs_of p.notional_exposure) context.positions);
    beta_adjusted_net_exposure = sum_of (map beta_term context.positions);
    concentration_flags =
        map (λ e. concat "sector:" e.factor_value)
          (keep (over_sector_cap context config) (compute_factor_exposures context));
  }
