-- ===== src/Execution/Reconcile.antt =====
-- `_reconcile_late_stock_order_fills` of trading/portfolio/sync.py, with which a portfolio sync starts: the stored orders
-- that are not terminal are refreshed, and a fill that came late is stored.
use equity_research_agent.Prelude.{
  ℕ, String, List, [], ◌∷◌, Option, none, some, if◌then◌else◌, Dict, insert,
}
use equity_research_agent.Prelude.Text.{upper}
use equity_research_agent.Float.{Float}
use equity_research_agent.StockBroker.Records.{
  PaperOrderRecord, PaperExecutionRecord, Service, Settings, Broker,
}
use equity_research_agent.StockBroker.Orders.{
  Answer, answered, raised, refresh_order, find_execution_by_order_id,
}
use equity_research_agent.Execution.Store.{
  Repository, save_paper_order, has_paper_execution_for_order_id, save_paper_execution,
  persist_late_stock_fill, load_refreshable_paper_orders,
}

-- the metadata of a late fill
pub record LateFill : Type 0 where
  pub strategy_id : String
  pub trade_identity : String
  pub opened_at : ℕ

-- what the loop changes
pub record Books (F : Type 0) : Type 0 where
  pub broker : Broker F
  pub repository : Repository F
  pub metadata_by_ticker : Dict LateFill

-- how the loop ends: with its result, or with an exception
pub data Run (F : Type 0) : Type 0 where
  finished : Books F → Run F
  stopped : Books F → Run F

abbrev pub books_of : {F : Type 0} → Run F → Books F
books_of (finished b) = b
books_of (stopped b) = b

module _ {F : Type 0} ⦃fl : Float F⦄ (service : Service F) (settings : Settings F) where
  abbrev pub late_fill : PaperOrderRecord F → PaperExecutionRecord F → LateFill
  late_fill order execution = record {
    strategy_id = order.strategy_id;
    trade_identity = "tactical_stock_trade";
    opened_at = execution.executed_at;
  }

  -- the repository with a fill that it did not have
  abbrev pub save_late_fill :
      PaperOrderRecord F → PaperExecutionRecord F → Repository F → Repository F
  save_late_fill order execution repository =
      save_paper_execution execution
        (save_paper_order order (persist_late_stock_fill order execution repository))

  -- what the loop does with a refreshed order and its execution
  unfoldable pub keep_late :
      PaperOrderRecord F → Option (PaperExecutionRecord F) → Books F → Books F
  keep_late order none b = record b { repository = save_paper_order order b.repository }
  keep_late order (some execution) b =
      if has_paper_execution_for_order_id order.paper_order_id b.repository
      then record b { repository = save_paper_order order b.repository }
      else record b {
        repository = save_late_fill order execution b.repository;
        metadata_by_ticker =
            insert (upper order.ticker) (late_fill order execution) b.metadata_by_ticker;
      }

  -- goes on after a refresh, which may raise
  unfoldable pub after_late : (Books F → Run F) → Answer F × Broker F → Books F → Run F
  after_late next (raised, broker) b = stopped (record b { broker = broker })
  after_late next (answered order, broker) b = next (
      keep_late order (find_execution_by_order_id order.paper_order_id broker)
        (record b { broker = broker }))

  -- the loop
  unfoldable pub reconcile_each : List (PaperOrderRecord F) → Books F → Run F
  reconcile_each [] b = finished b
  reconcile_each (order ∷ orders) b =
      after_late (reconcile_each orders) (refresh_order service settings order b.broker) b

  -- `_reconcile_late_stock_order_fills`
  unfoldable pub reconcile_late_stock_order_fills : Broker F → Repository F → Run F
  reconcile_late_stock_order_fills broker repository =
      reconcile_each (load_refreshable_paper_orders repository)
        (record { broker = broker; repository = repository; metadata_by_ticker = [] })
