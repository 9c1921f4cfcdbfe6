-- ===== src/Pnl/Tests.antt =====
-- The theorems of the profit and loss at a purchase and a partial sale.
use equity_research_agent.Prelude.{ℕ, ◌==◌, refl, true, none, [], ◌∷◌, List, keep, lookup, insert}
use equity_research_agent.Prelude.Int.{ℤ, ◌+ℤ◌, ◌-ℤ◌}
use equity_research_agent.Prelude.Text.{strip, upper, lower}
use equity_research_agent.Prelude.Sorting.{sorted, insert_sorted}
use equity_research_agent.Float.Micros.{micros}
use equity_research_agent.Pnl.Replay.{
  StockFillEvent, Checked, ok, start, apply_fills, replay_stock_fills, validate_fill, apply_at,
  apply_fill, active_candidates, replay_normalized,
}
use equity_research_agent.Pnl.Validation.{
  PortfolioPnlPoint, StockPosition, PortfolioSnapshot, select_active_lifecycle_boundary,
  enrich_snapshot_with_stock_pnl, is_clean, validate_positions, validate_tickers, validate_ticker,
  compare_costs, broker_by_ticker,
}
use equity_research_agent.Pnl.Accounts.{SameIn, apply_fills-SameIn}
use equity_research_agent.Pnl.Boundary.{IsLatest, select-IsLatest}
use equity_research_agent.Pnl.Agreement.{Enriched, enrich-Enriched}

abbrev dollars : ℕ → ℤ
dollars n = micros.lit n 0

abbrev bought : StockFillEvent ℤ
bought = record {
  execution_id = "e-1";
  ticker = "aapl";
  executed_at = 200;
  has_timezone = true;
  action = "enter_long";
  quantity = dollars 10;
  fill_price = dollars 100;
}

abbrev trimmed : StockFillEvent ℤ
trimmed = record bought {
  execution_id = "e-2";
  executed_at = 300;
  action = "reduce";
  quantity = dollars 4;
  fill_price = dollars 110;
}

abbrev fills : List (StockFillEvent ℤ)
fills = trimmed ∷ bought ∷ []

abbrev flat : PortfolioPnlPoint ℤ
flat = record {
  snapshot_time = 100;
  account_equity = dollars 5000;
  stock_market_value = dollars 0;
  option_market_value = dollars 0;
}

abbrev position : StockPosition ℤ
position = record { ticker = "AAPL"; quantity = dollars 6; average_cost = dollars 100 }

abbrev snapshot : PortfolioSnapshot ℤ ℕ
snapshot = record {
  as_of = 400;
  account_equity = dollars 5100;
  stock_market_value = dollars 660;
  realized_pnl = dollars 0;
  unrealized_pnl = dollars 0;
  pnl_metadata = none;
  rest = 0;
}

abbrev snapshot_of : Checked ℤ (PortfolioSnapshot ℤ ℕ) → PortfolioSnapshot ℤ ℕ
snapshot_of (ok z) = z
snapshot_of e = snapshot

abbrev enriched : PortfolioSnapshot ℤ ℕ
enriched =
    snapshot_of
      (enrich_snapshot_with_stock_pnl snapshot (position ∷ []) (flat ∷ []) fills (dollars 5000))

enrich-Enriched_example :
    Enriched snapshot (position ∷ []) (flat ∷ []) fills (dollars 5000) enriched
unfolding enrich_snapshot_with_stock_pnl select_active_lifecycle_boundary replay_stock_fills
    active_candidates validate_fill replay_normalized apply_fills apply_fill apply_at sorted
    insert_sorted validate_positions validate_tickers validate_ticker compare_costs broker_by_ticker
    lookup insert strip upper lower ◌-ℤ◌ ◌+ℤ◌
enrich-Enriched_example =
    enrich-Enriched snapshot (position ∷ []) (flat ∷ []) fills (dollars 5000) enriched refl

select-IsLatest_example : IsLatest (is_clean fills (dollars 5000)) 100 (flat ∷ [])
unfolding select_active_lifecycle_boundary ◌-ℤ◌ ◌+ℤ◌
select-IsLatest_example = select-IsLatest (flat ∷ []) fills (dollars 5000) 100 refl

apply_fills-SameIn_example : SameIn "aapl" (apply_fills (bought ∷ trimmed ∷ []) start) (
    apply_fills
      (keep (λ (fill : StockFillEvent ℤ). fill.ticker == "aapl") (bought ∷ trimmed ∷ []))
      start)
apply_fills-SameIn_example = apply_fills-SameIn "aapl" (bought ∷ trimmed ∷ []) start start refl
