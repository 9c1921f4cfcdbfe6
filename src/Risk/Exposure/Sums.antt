-- ===== src/Risk/Exposure/Sums.antt =====
-- What an exposure report should say of a factor, written as sums over the positions that have it, and the bucket that
-- the additions of `_accumulate_factor` leave.
use equity_research_agent.Prelude.{
  suc, ◌+◌, String, ◌==◌, ◌≡◌, refl, ap, ◌∙◌, not, Bool, true, false, ◌&&◌, List, [], ◌∷◌, map,
  foldl, keep, length, Option, none, some, if◌then◌else◌, same_text, arith, eq_iff, Bool-cases, inl,
  inr,
}
use equity_research_agent.Float.{Float, abs_of, sum_of}
use equity_research_agent.Risk.Context.{PortfolioPosition, RiskFactorExposureRecord}
use equity_research_agent.Risk.Exposure.{Factor, Bucket, signed_exposure, add_position, factors}
use equity_research_agent.Risk.Exposure.Buckets.{hit, hits, lacks, Distinct, counts}

-- the value of the first entry with the name
abbrev found : String → List (String × Option String) → Option String
found t [] = none
found t ((u, v) ∷ fs) = if t == u then v else found t fs

-- a value that is not empty and is the given one
abbrev pub has_value : Option String → String → Bool
has_value v text = not (text == "") && same_text v text

hit-has_value :
    (k : Factor) (t : String) (v : Option String)
    → hit k t v ≡ (if k.0 == t then has_value v k.1 else false)
hit-has_value k t none = ground arith
hit-has_value k t (some v) =
    ground (arith, eq_iff k.0 t, eq_iff t k.0, eq_iff v k.1, eq_iff v "", eq_iff k.1 "")

missed :
    (k : Factor) (t : String) (fs : List (String × Option String))
    → (k.0 == t) ≡ true
    → lacks t fs ≡ true
    → hits k fs ≡ false
missed k t [] e l = refl
missed k t ((u, v) ∷ fs) e l =
    ground (arith, missed k t fs, hit-has_value k u v, eq_iff k.0 t, eq_iff k.0 u, eq_iff t u)

hits-found :
    (k : Factor) (fs : List (String × Option String))
    → Distinct fs
    → hits k fs ≡ has_value (found k.0 fs) k.1
hits-found k [] h = ground arith
hits-found k ((t, v) ∷ fs) (new, rest) =
    ground (arith, hits-found k fs rest, hit-has_value k t v, missed k t fs)

module _ {F : Type 0} ⦃fl : Float F⦄ where
  -- the field of a position behind a factor type
  abbrev pub value_of : String → PortfolioPosition F → Option String
  value_of t p =
      if t == "sector"
      then p.sector
      else if t == "strategy"
      then p.strategy_id
      else if t == "horizon"
      then p.intended_horizon
      else if t == "direction"
      then some p.direction
      else if t == "beta_bucket"
      then p.beta_bucket
      else if t == "volatility_bucket"
      then p.volatility_bucket
      else if t == "liquidity_bucket"
      then p.liquidity_bucket
      else if t == "event_type"
      then p.event_type
      else if t == "macro_sensitivity"
      then p.macro_sensitivity
      else none

  -- a position has a factor if the field of its type has its value, which is not empty
  abbrev pub has_factor : Factor → PortfolioPosition F → Bool
  has_factor k p = has_value (value_of k.0 p) k.1

  pub counts-has_factor : (k : Factor) (p : PortfolioPosition F) → counts k p ≡ has_factor k p
  counts-has_factor k p =
      hits-found k (factors p)
        (refl, (refl, (refl, (refl, (refl, (refl, (refl, (refl, (refl, tt)))))))))

  abbrev pub is_short : PortfolioPosition F → Bool
  is_short p = p.direction == "short"

  abbrev pub size : PortfolioPosition F → F
  size p = abs_of p.notional_exposure

  -- what the position adds to the net exposure
  abbrev pub net_of : PortfolioPosition F → F
  net_of p = if is_short p then fl.neg p.notional_exposure else p.notional_exposure

  -- The report on positions: the sums of their sizes, of their signed exposures, and of the sizes of the long and of
  -- the short ones, each from the left in the order of the portfolio, and how many they are.
  abbrev pub sums : Factor → List (PortfolioPosition F) → RiskFactorExposureRecord F
  sums k ps = record {
    factor_type = k.0;
    factor_value = k.1;
    gross_exposure = sum_of (map size ps);
    net_exposure = sum_of (map net_of ps);
    long_exposure = sum_of (map size (keep (λ p. not (is_short p)) ps));
    short_exposure = sum_of (map size (keep is_short ps));
    position_count = length ps;
  }

  -- no position, no report
  abbrev pub expected : Factor → List (PortfolioPosition F) → Option (RiskFactorExposureRecord F)
  expected k [] = none
  expected k (p ∷ ps) = some (sums k (p ∷ ps))

  -- a bucket after some positions
  abbrev pub after_all : Bucket F → List (PortfolioPosition F) → Bucket F
  after_all b ps = record {
    gross_exposure = foldl fl.plus b.gross_exposure (map size ps);
    net_exposure = foldl fl.plus b.net_exposure (map net_of ps);
    long_exposure = foldl fl.plus b.long_exposure (map size (keep (λ p. not (is_short p)) ps));
    short_exposure = foldl fl.plus b.short_exposure (map size (keep is_short ps));
    position_count = b.position_count + length ps;
  }

  add_position-after_all :
      (b : Bucket F) (p : PortfolioPosition F) (ps : List (PortfolioPosition F))
      → after_all (add_position b p) ps ≡ after_all b (p ∷ ps)
  unfolding add_position signed_exposure
  add_position-after_all b p ps =
      let one_more : (b.position_count + 1) + length ps ≡ b.position_count + suc (length ps) =
        omega arith in
      elim (Bool-cases (is_short p)) [
        | inl short ↦ rw (short, one_more) refl
        | inr long ↦ rw (long, one_more) refl
      ]

  pub foldl-after_all :
      (b : Bucket F) (ps : List (PortfolioPosition F)) → foldl add_position b ps ≡ after_all b ps
  foldl-after_all b [] = ap (λ n. record b { position_count = n }) (omega arith)
  foldl-after_all b (p ∷ ps) = foldl-after_all (add_position b p) ps ∙ add_position-after_all b p ps
