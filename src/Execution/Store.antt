-- ===== src/Execution/Store.antt =====
-- trading/repositories/in_memory.py: the orders, executions and attempts of the in-memory repository.
use equity_research_agent.Prelude.{
  String, ◌==◌, Bool, not, List, [], ◌∷◌, ◌++◌, if◌then◌else◌, keep, any_of, contains,
}
use equity_research_agent.Prelude.Text.{lower}
use equity_research_agent.StockBroker.Records.{PaperOrderRecord, PaperExecutionRecord}
use equity_research_agent.Execution.Attempts.{ExecutionAttemptRecord}

pub record Repository (F : Type 0) : Type 0 where
  pub paper_orders : List (PaperOrderRecord F)
  pub paper_executions : List (PaperExecutionRecord F)
  pub execution_attempts : List ExecutionAttemptRecord

module _ {F : Type 0} where
  -- `save_paper_order`
  unfoldable pub save_paper_order : PaperOrderRecord F → Repository F → Repository F
  save_paper_order order s = record s {
    paper_orders =
        keep (λ (item : PaperOrderRecord F). not (item.paper_order_id == order.paper_order_id))
          s.paper_orders
        ++ order ∷ [];
  }

  -- `has_paper_execution`
  abbrev pub has_paper_execution : String → Repository F → Bool
  has_paper_execution id s =
      any_of (λ (item : PaperExecutionRecord F). item.paper_execution_id == id) s.paper_executions

  -- `has_paper_execution_for_order_id`
  abbrev pub has_paper_execution_for_order_id : String → Repository F → Bool
  has_paper_execution_for_order_id id s =
      any_of (λ (item : PaperExecutionRecord F). item.paper_order_id == id) s.paper_executions

  -- `save_paper_execution`
  unfoldable pub save_paper_execution : PaperExecutionRecord F → Repository F → Repository F
  save_paper_execution execution s = record s {
    paper_executions =
        if has_paper_execution execution.paper_execution_id s
        then s.paper_executions
        else s.paper_executions ++ execution ∷ [];
  }

  -- `save_execution_attempt`
  unfoldable pub save_execution_attempt : ExecutionAttemptRecord → Repository F → Repository F
  save_execution_attempt attempt s = record s {
    execution_attempts =
        keep
          (λ (item : ExecutionAttemptRecord).
            not (item.execution_attempt_id == attempt.execution_attempt_id))
          s.execution_attempts
        ++ attempt ∷ [];
  }

  -- `persist_irreversible_stock_order`
  abbrev pub persist_irreversible_stock_order : PaperOrderRecord F → Repository F → Repository F
  persist_irreversible_stock_order order s = save_paper_order order s

  -- `persist_irreversible_stock_fill` with an attempt
  abbrev pub persist_irreversible_stock_fill :
      PaperOrderRecord F
      → PaperExecutionRecord F
      → ExecutionAttemptRecord
      → Repository F
      → Repository F
  persist_irreversible_stock_fill order execution attempt s =
      save_execution_attempt attempt (save_paper_execution execution (save_paper_order order s))

  -- and without one
  abbrev pub persist_late_stock_fill :
      PaperOrderRecord F → PaperExecutionRecord F → Repository F → Repository F
  persist_late_stock_fill order execution s =
      save_paper_execution execution (save_paper_order order s)

  abbrev pub is_refreshable : PaperOrderRecord F → Bool
  is_refreshable order = not (
      contains ("filled" ∷ "canceled" ∷ "cancelled" ∷ "expired" ∷ "rejected" ∷ [])
        (lower order.status))

  -- `load_refreshable_paper_orders`
  unfoldable pub load_refreshable_paper_orders : Repository F → List (PaperOrderRecord F)
  load_refreshable_paper_orders s = keep is_refreshable s.paper_orders
