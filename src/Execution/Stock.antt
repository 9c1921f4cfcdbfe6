-- ===== src/Execution/Stock.antt =====
-- trading/execution/paper_execution.py: `_execute_stock_decision` up to the portfolio sync that follows a fill. Its
-- broker is the paper stock broker, and its repository the in-memory one.
use equity_research_agent.Prelude.{
  ℕ, ◌+◌, String, ◌==◌, not, ◌&&◌, List, [], ◌∷◌, ◌++◌, Option, none, some, if◌then◌else◌, is_none,
  first_where, contains,
}
use equity_research_agent.Float.{Float}
use equity_research_agent.Risk.Decision.{RiskDecisionRecord}
use equity_research_agent.StockBroker.Records.{
  PaperOrderRequest, PaperOrderRecord, PaperExecutionRecord, Service, Settings, Broker,
}
use equity_research_agent.StockBroker.Orders.{
  Answer, answered, raised, submit_order, refresh_order, find_execution_by_order_id,
}
use equity_research_agent.ManualReview.{ManualTickerRequest, RequestService, load_active}
use equity_research_agent.Execution.Attempts.{
  TradingDecisionRecord, ExecutionAttemptRecord, Stamp, skipped, submitted,
}
use equity_research_agent.Execution.Store.{
  Repository, save_paper_order, has_paper_execution, save_paper_execution, save_execution_attempt,
  persist_irreversible_stock_order, persist_irreversible_stock_fill,
}

-- What the workflow works with: `stamp n` is the id and the time of its attempt number `n`.
pub record Environment (F : Type 0) : Type 0 where
  pub service : Service F
  pub settings : Settings F
  pub stamp : ℕ → Stamp
  pub manual_request_service : Option RequestService
  pub phase : String
  pub trade_date : String

-- What its calls change: the broker, the repository, and the lists that `run` collects. `stamps` counts the attempts.
pub record Workflow (F : Type 0) : Type 0 where
  pub broker : Broker F
  pub repository : Repository F
  pub orders : List (PaperOrderRecord F)
  pub attempts : List ExecutionAttemptRecord
  pub stamps : ℕ

-- how a call ends: it returns, it goes on to sync the portfolio for a new fill, or it raises
pub data StockEnding (F : Type 0) : Type 0 where
  returned : StockEnding F
  syncs : PaperExecutionRecord F → StockEnding F
  aborted : StockEnding F

-- what the tests in front of the broker give: the reason of a skip, with the id of a risk decision, or the decision
pub data Gate (F : Type 0) : Type 0 where
  blocked : String → Option String → Gate F
  passed : RiskDecisionRecord F → Gate F

-- the mode of the request with the id
abbrev pub mode_of : List ManualTickerRequest → String → Option String → Option String
mode_of requests id fallback = elim (first_where (λ r. r.request_id == id) requests) [
  | none ↦ fallback
  | some r ↦ some r.mode
]

-- `_manual_request_mode`
unfoldable pub manual_request_mode :
    Option RequestService → Option String → Option String → Option String
manual_request_mode requests none fallback = fallback
manual_request_mode none (some id) fallback = fallback
manual_request_mode (some requests) (some id) fallback = mode_of (load_active requests) id fallback

abbrev pub executable_actions : List String
executable_actions = "enter_long" ∷ "reduce" ∷ "exit" ∷ "enter_short" ∷ []

module _ {F : Type 0} ⦃fl : Float F⦄ where
  -- `from_trading_decision`
  abbrev pub from_trading_decision :
      TradingDecisionRecord → RiskDecisionRecord F → String → Option String → PaperOrderRequest F
  from_trading_decision d risk trade_date mode = record {
    trading_decision_id = d.trading_decision_id;
    risk_decision_id = risk.risk_decision_id;
    ticker = d.ticker;
    strategy_id = d.strategy_id;
    action = d.decision;
    trade_date = trade_date;
    quantity = risk.approved_quantity;
    manual_request_mode = mode;
  }

  -- the last two tests
  abbrev pub risk_gate : Option (RiskDecisionRecord F) → Gate F
  risk_gate none = blocked "risk_missing" none
  risk_gate (some risk) =
      if contains ("approved" ∷ "reduced" ∷ []) risk.status
      then passed risk
      else blocked "risk_rejected" (some risk.risk_decision_id)

  -- the tests of `_execute_stock_decision` in their order
  unfoldable pub gate : TradingDecisionRecord → Option (RiskDecisionRecord F) → Gate F
  gate d risk =
      if not (d.instrument_type == "stock")
      then blocked "instrument_mismatch" none
      else if not (contains executable_actions d.decision)
      then blocked "not_executable_action" none
      else if not d.paper_trade_authorized && is_none d.manual_request_id
      then blocked "not_authorized" none
      else risk_gate risk

  -- `_save_execution_attempt`
  unfoldable pub save_attempt : ExecutionAttemptRecord → Workflow F → Workflow F
  save_attempt attempt s = record s {
    repository = save_execution_attempt attempt s.repository;
    attempts = s.attempts ++ attempt ∷ [];
    stamps = s.stamps + 1;
  }

  -- `orders[-1] = order`
  unfoldable pub replace_last :
      PaperOrderRecord F → List (PaperOrderRecord F) → List (PaperOrderRecord F)
  replace_last order [] = []
  replace_last order (x ∷ []) = order ∷ []
  replace_last order (x ∷ y ∷ ys) = x ∷ replace_last order (y ∷ ys)

  abbrev pub with_submitted : PaperOrderRecord F → Broker F → Workflow F → Workflow F
  with_submitted order broker s = record s { broker = broker; orders = s.orders ++ order ∷ [] }

  abbrev pub with_refreshed : PaperOrderRecord F → Broker F → Workflow F → Workflow F
  with_refreshed order broker s = record s { broker = broker; orders = replace_last order s.orders }

module _ {F : Type 0} ⦃fl : Float F⦄ (env : Environment F) (d : TradingDecisionRecord) where
  abbrev pub skip : String → Option String → Workflow F → Workflow F
  skip reason risk_id s = save_attempt (skipped d env.phase reason risk_id (env.stamp s.stamps)) s

  abbrev pub submitted_attempt :
      RiskDecisionRecord F → PaperOrderRecord F → Workflow F → ExecutionAttemptRecord
  submitted_attempt risk order s =
      submitted d env.phase order.paper_order_id risk.risk_decision_id (env.stamp s.stamps)

  abbrev pub on_repository : (Repository F → Repository F) → Workflow F → Workflow F
  on_repository change s = record s { repository = change s.repository }

  -- what follows when an execution of the order is known
  unfoldable pub keep_fill :
      RiskDecisionRecord F
      → PaperOrderRecord F
      → PaperExecutionRecord F
      → Workflow F
      → StockEnding F × Workflow F
  keep_fill risk order execution s =
      let attempt = submitted_attempt risk order s in
      if has_paper_execution execution.paper_execution_id s.repository
      then (returned, save_attempt attempt (on_repository (save_paper_order order) s))
      else (
        syncs execution,
        save_attempt attempt (
            on_repository
              (λ repository. save_paper_execution execution (
                save_paper_order order
                  (persist_irreversible_stock_fill order execution attempt repository)))
              s),
      )

  -- what follows after a refresh
  unfoldable pub keep_refreshed :
      RiskDecisionRecord F
      → PaperOrderRecord F
      → Option (PaperExecutionRecord F)
      → Workflow F
      → StockEnding F × Workflow F
  keep_refreshed risk order (some execution) s = keep_fill risk order execution s
  keep_refreshed risk order none s = (
    returned,
    skip "no_fill" (some risk.risk_decision_id) (
        on_repository
          (λ repository. save_paper_order order (persist_irreversible_stock_order order repository))
          s),
  )

  -- the end of `_refresh_stock_order`: `refresh_order` gives a new record, so it is never the old one
  unfoldable pub after_refresh :
      RiskDecisionRecord F → Answer F × Broker F → Workflow F → StockEnding F × Workflow F
  after_refresh risk (raised, broker) s = (aborted, record s { broker = broker })
  after_refresh risk (answered order, broker) s =
      keep_refreshed risk order (find_execution_by_order_id order.paper_order_id broker)
        (with_refreshed order broker s)

  -- the search for an execution of the order
  unfoldable pub find_fill :
      RiskDecisionRecord F
      → PaperOrderRecord F
      → Option (PaperExecutionRecord F)
      → Workflow F
      → StockEnding F × Workflow F
  find_fill risk order (some execution) s = keep_fill risk order execution s
  find_fill risk order none s =
      after_refresh risk (refresh_order env.service env.settings order s.broker) s

  -- the end of `submit_order`
  unfoldable pub after_submit :
      RiskDecisionRecord F → Answer F × Broker F → Workflow F → StockEnding F × Workflow F
  after_submit risk (raised, broker) s = (aborted, record s { broker = broker })
  after_submit risk (answered order, broker) s =
      find_fill risk order (find_execution_by_order_id order.paper_order_id broker)
        (with_submitted order broker s)

  -- the request for a decision that passed
  abbrev pub request_for : RiskDecisionRecord F → PaperOrderRequest F
  request_for risk =
      from_trading_decision d risk env.trade_date
        (manual_request_mode env.manual_request_service d.manual_request_id d.manual_request_mode)

  unfoldable pub pass_gate : Gate F → Workflow F → StockEnding F × Workflow F
  pass_gate (blocked reason risk_id) s = (returned, skip reason risk_id s)
  pass_gate (passed risk) s =
      after_submit risk (submit_order env.service env.settings (request_for risk) s.broker) s

  -- `_execute_stock_decision` before the sync
  unfoldable pub execute_stock_decision :
      Option (RiskDecisionRecord F) → Workflow F → StockEnding F × Workflow F
  execute_stock_decision risk s = pass_gate (gate d risk) s
