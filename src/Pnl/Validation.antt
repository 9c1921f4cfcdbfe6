-- ===== src/Pnl/Validation.antt =====
-- trading/portfolio/pnl.py: the start of the tracked period, the comparison with the broker's positions, and the
-- snapshot with its profit and loss.
use equity_research_agent.Prelude.{
  ℕ, String, ◌==◌, Bool, not, ◌&&◌, List, [], ◌∷◌, ◌++◌, map, foldl, Option, none, some,
  if◌then◌else◌, ltb, eqb, any_of, text_le, keep, length, Dict, lookup, insert,
}
use equity_research_agent.Prelude.Text.{upper}
use equity_research_agent.Prelude.Sorting.{sorted}
use equity_research_agent.Float.{Float, zero_f, abs_of, sum_of}
use equity_research_agent.Pnl.Replay.{
  StockFillEvent, OpenCostBasis, StockPnlReplay, missing_clean_reset, quantity_mismatch,
  average_cost_mismatch, Checked, ok, error, and_then, check, replay_stock_fills, zero_tolerance,
}

-- `PortfolioPnlPoint`
pub record PortfolioPnlPoint (F : Type 0) : Type 0 where
  pub snapshot_time : ℕ
  pub account_equity : F
  pub stock_market_value : F
  pub option_market_value : F

-- the fields of `StockPosition` that the comparison reads
pub record StockPosition (F : Type 0) : Type 0 where
  pub ticker : String
  pub quantity : F
  pub average_cost : F

-- an entry of `pnl_cost_basis_diagnostics`
pub record Diagnostic (F : Type 0) : Type 0 where
  pub ticker : String
  pub broker_average_cost : F
  pub replayed_average_cost : F
  pub difference : F

-- the keys that the enrichment writes into `metadata_json`, less the fixed method and tolerances
pub record PnlMetadata (F : Type 0) : Type 0 where
  pub pnl_starting_equity : F
  pub pnl_tracking_started_at : ℕ
  pub pnl_reconciliation_residual : F
  pub pnl_reconciled : Bool
  pub pnl_fill_count : ℕ
  pub pnl_excluded_pre_boundary_fill_count : ℕ
  pub pnl_excluded_pre_boundary_snapshot_count : ℕ
  pub pnl_cost_basis_diagnostics : List (Diagnostic F)

-- `PortfolioSnapshot`, whose other fields and metadata stand in `rest`
pub record PortfolioSnapshot (F M : Type 0) : Type 0 where
  pub as_of : ℕ
  pub account_equity : F
  pub stock_market_value : F
  pub realized_pnl : F
  pub unrealized_pnl : F
  pub pnl_metadata : Option (PnlMetadata F)
  pub rest : M

module _ {F : Type 0} ⦃fl : Float F⦄ where
  abbrev pub quantity_tolerance : F
  quantity_tolerance = fl.lit 1 6

  abbrev pub cent : F
  cent = fl.lit 1 2

  -- a snapshot of a flat account with the starting equity, at no time of a fill
  abbrev pub is_clean : List (StockFillEvent F) → F → PortfolioPnlPoint F → Bool
  is_clean fills starting_equity point =
      fl.le (abs_of (fl.minus point.account_equity starting_equity)) cent
      && fl.le (abs_of point.stock_market_value) cent
      && fl.le (abs_of point.option_market_value) cent
      && not (any_of (λ (fill : StockFillEvent F). eqb fill.executed_at point.snapshot_time) fills)

  -- `max` of the times
  abbrev pub latest : List (PortfolioPnlPoint F) → Checked F ℕ
  latest [] = error missing_clean_reset
  latest (point ∷ points) = ok (
      foldl (λ t (p : PortfolioPnlPoint F). if ltb t p.snapshot_time then p.snapshot_time else t)
        point.snapshot_time points)

  -- `select_active_lifecycle_boundary`, with the default tolerance
  unfoldable pub select_active_lifecycle_boundary :
      List (PortfolioPnlPoint F) → List (StockFillEvent F) → F → Checked F ℕ
  select_active_lifecycle_boundary points fills starting_equity =
      latest (keep (is_clean fills starting_equity) points)

  -- `broker_by_ticker`: the last position of a ticker counts
  unfoldable pub broker_by_ticker : List (StockPosition F) → Dict (StockPosition F)
  broker_by_ticker = foldl (λ d (p : StockPosition F). insert (upper p.ticker) p d) []

  abbrev pub quantity_of_position : Option (StockPosition F) → F
  quantity_of_position none = zero_f
  quantity_of_position (some p) = p.quantity

  abbrev pub quantity_of_basis : Option (OpenCostBasis F) → F
  quantity_of_basis none = zero_f
  quantity_of_basis (some b) = b.quantity

  abbrev pub exceeds : F → F → Bool
  exceeds x tolerance = fl.lt tolerance (abs_of x)

  -- the comparison of the average costs, where both sides have a position
  unfoldable pub compare_costs :
      String → Option (StockPosition F) → Option (OpenCostBasis F) → Checked F (List (Diagnostic F))
  compare_costs ticker none basis = ok []
  compare_costs ticker (some p) none = ok []
  compare_costs ticker (some p) (some b) =
      let difference = fl.minus p.average_cost b.average_cost in
      if fl.le b.quantity quantity_tolerance
      then ok []
      else check (exceeds difference (fl.plus cent zero_tolerance))
          (average_cost_mismatch ticker p.average_cost b.average_cost)
          (ok (
            if exceeds difference zero_tolerance
            then record {
              ticker = ticker;
              broker_average_cost = p.average_cost;
              replayed_average_cost = b.average_cost;
              difference = difference;
            }
              ∷ []
            else []))

  -- the body of the loop of `_validate_positions`
  unfoldable pub validate_ticker :
      Dict (StockPosition F) → Dict (OpenCostBasis F) → String → Checked F (List (Diagnostic F))
  validate_ticker broker open_cost_basis ticker =
      let position = lookup ticker broker in
      let basis = lookup ticker open_cost_basis in
      let held = quantity_of_position position in
      let replayed = quantity_of_basis basis in
      check (exceeds (fl.minus held replayed) quantity_tolerance)
        (quantity_mismatch ticker held replayed) (compare_costs ticker position basis)

  unfoldable pub validate_tickers :
      Dict (StockPosition F)
      → Dict (OpenCostBasis F)
      → List String
      → Checked F (List (Diagnostic F))
  validate_tickers broker open_cost_basis [] = ok []
  validate_tickers broker open_cost_basis (ticker ∷ tickers) =
      let rest = validate_tickers broker open_cost_basis tickers in
      and_then (validate_ticker broker open_cost_basis ticker)
        (λ here. and_then rest (λ later. ok (here ++ later)))

  -- the union of the keys of both dictionaries, in order
  abbrev pub all_tickers : Dict (StockPosition F) → Dict (OpenCostBasis F) → List String
  all_tickers broker open_cost_basis =
      let held = map (λ (e : String × StockPosition F). e.0) broker in
      let open_tickers = map (λ (e : String × OpenCostBasis F). e.0) open_cost_basis in
      sorted text_le (held ++ keep (λ t. not (any_of (λ h. h == t) held)) open_tickers)

  -- `_validate_positions`
  unfoldable pub validate_positions :
      List (StockPosition F) → Dict (OpenCostBasis F) → Checked F (List (Diagnostic F))
  validate_positions positions open_cost_basis =
      let broker = broker_by_ticker positions in
      validate_tickers broker open_cost_basis (all_tickers broker open_cost_basis)

  abbrev pub open_cost : StockPnlReplay F → F
  open_cost replay = sum_of (
      map (λ (e : String × OpenCostBasis F). fl.times e.1.quantity e.1.average_cost)
        replay.open_cost_basis)

  module _ {M : Type 0} where
    -- the snapshot that `enrich_snapshot_with_stock_pnl` returns
    abbrev pub with_pnl :
        PortfolioSnapshot F M
        → List (PortfolioPnlPoint F)
        → List (StockFillEvent F)
        → F
        → ℕ
        → StockPnlReplay F
        → List (Diagnostic F)
        → PortfolioSnapshot F M
    with_pnl snapshot points fills starting_equity started_at replay diagnostics =
        let unrealized = fl.minus snapshot.stock_market_value (open_cost replay) in
        let total = fl.minus snapshot.account_equity starting_equity in
        let residual = fl.minus (fl.minus total replay.realized_pnl) unrealized in
        record snapshot {
          realized_pnl = replay.realized_pnl;
          unrealized_pnl = unrealized;
          pnl_metadata = some (record {
            pnl_starting_equity = starting_equity;
            pnl_tracking_started_at = started_at;
            pnl_reconciliation_residual = residual;
            pnl_reconciled = fl.le (abs_of residual) cent;
            pnl_fill_count = replay.fill_count;
            pnl_excluded_pre_boundary_fill_count =
                length (keep (λ (f : StockFillEvent F). ltb f.executed_at started_at) fills);
            pnl_excluded_pre_boundary_snapshot_count =
                length (keep (λ (p : PortfolioPnlPoint F). ltb p.snapshot_time started_at) points);
            pnl_cost_basis_diagnostics = diagnostics;
          });
        }

    -- `enrich_snapshot_with_stock_pnl`
    unfoldable pub enrich_snapshot_with_stock_pnl :
        PortfolioSnapshot F M
        → List (StockPosition F)
        → List (PortfolioPnlPoint F)
        → List (StockFillEvent F)
        → F
        → Checked F (PortfolioSnapshot F M)
    enrich_snapshot_with_stock_pnl snapshot positions points fills starting_equity =
        and_then (select_active_lifecycle_boundary points fills starting_equity) (λ started_at.
          and_then (replay_stock_fills fills started_at snapshot.as_of) (λ replay.
            and_then (validate_positions positions replay.open_cost_basis) (λ diagnostics.
              ok (with_pnl snapshot points fills starting_equity started_at replay diagnostics))))
