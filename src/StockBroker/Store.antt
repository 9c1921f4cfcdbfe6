-- ===== src/StockBroker/Store.antt =====
-- trading/brokers/paper_stock.py: `_store_local_order`, and what it reads of an order object.
use equity_research_agent.Prelude.{
  ℕ, ◌+◌, String, ◌==◌, Bool, ◌&&◌, List, [], ◌∷◌, ◌++◌, map, Option, none, some, if◌then◌else◌,
  is_none, or_else, filled, lookup, insert,
}
use equity_research_agent.Float.{Float, zero_f}
use equity_research_agent.StockBroker.Records.{
  PaperOrderRequest, PaperOrderRecord, PaperExecutionRecord, Json, null, number, text, Payload,
  Service, Broker, Report, stock_fill_cash_effect, is_nonzero,
}

-- the items with the order in the place of each one of its key
abbrev pub replace_order :
    {F : Type 0} → PaperOrderRecord F → List (PaperOrderRecord F) → List (PaperOrderRecord F)
replace_order order =
    map (λ item. if item.client_order_id == order.client_order_id then order else item)

module _ {F : Type 0} ⦃fl : Float F⦄ (service : Service F) where
  -- `_float_or_none`
  unfoldable pub float_or_none : Json F → Option F
  float_or_none null = none
  float_or_none (number x) = some x
  float_or_none (text t) = service.float_of t

  -- `_datetime_or_none`
  unfoldable pub datetime_or_none : Option String → Option ℕ
  datetime_or_none value = elim (filled value) [ none ↦ none | some t ↦ service.datetime_of t ]

  -- a call of `_now`: its reading, and the state after it
  abbrev pub reading : Broker F → ℕ
  reading s = service.now s.readings

  abbrev pub tick : Broker F → Broker F
  tick s = record s { readings = s.readings + 1 }

  -- a call of `uuid4`
  abbrev pub new_id : Broker F → String
  new_id s = service.uuid4 s.fresh

  abbrev pub take_id : Broker F → Broker F
  take_id s = record s { fresh = s.fresh + 1 }

  -- the order id of `_store_local_order`: the one given, that of the stored order, or a new one
  abbrev pub chosen_id : Option String → Option (PaperOrderRecord F) → Broker F → String
  chosen_id given existing s = elim (filled given) [
    | some id ↦ id
    | none ↦ elim existing [ some order ↦ order.paper_order_id | none ↦ new_id s ]
  ]

  -- the state after that choice
  abbrev pub with_id : Option String → Option (PaperOrderRecord F) → Broker F → Broker F
  with_id given existing s = record s {
    fresh = if is_none (filled given) && is_none existing then s.fresh + 1 else s.fresh;
  }

  abbrev pub order_of : PaperOrderRequest F → String → Report F → String → PaperOrderRecord F
  order_of r key report id = record {
    paper_order_id = id;
    broker_order_id = report.broker_order_id;
    client_order_id = key;
    trading_decision_id = r.trading_decision_id;
    risk_decision_id = r.risk_decision_id;
    ticker = r.ticker;
    strategy_id = r.strategy_id;
    action = r.action;
    trade_date = r.trade_date;
    quantity = r.quantity;
    limit_price = report.filled_avg_price;
    status = report.status;
    rejection_reason = report.rejection_reason;
    created_at = report.submitted_at;
  }

  abbrev pub execution_of : PaperOrderRecord F → Report F → F → F → String → PaperExecutionRecord F
  execution_of order report quantity price id = record {
    paper_execution_id = id;
    paper_order_id = order.paper_order_id;
    broker_order_id = report.broker_order_id;
    ticker = order.ticker;
    quantity = quantity;
    fill_price = price;
    trade_date = order.trade_date;
    executed_at = or_else report.filled_at report.submitted_at;
    net_cash_effect = stock_fill_cash_effect order.action quantity price;
  }

  -- the orders with the new one
  unfoldable pub put_order : PaperOrderRecord F → Broker F → Broker F
  put_order order s = record s {
    orders =
        if is_none (lookup order.client_order_id s.orders_by_key)
        then s.orders ++ order ∷ []
        else replace_order order s.orders;
    orders_by_key = insert order.client_order_id order s.orders_by_key;
  }

  -- whether `_store_local_order` records an execution
  abbrev pub is_new_fill : PaperOrderRecord F → Report F → Broker F → Bool
  is_new_fill order report s =
      report.status == "filled"
      && is_nonzero report.filled_qty
      && is_nonzero report.filled_avg_price
      && is_none (lookup order.paper_order_id s.executions_by_order_id)

  -- the execution that it would record
  abbrev pub new_execution : PaperOrderRecord F → Report F → Broker F → PaperExecutionRecord F
  new_execution order report s =
      execution_of order report (or_else report.filled_qty zero_f)
        (or_else report.filled_avg_price zero_f) (new_id s)

  unfoldable pub put_execution : PaperOrderRecord F → Report F → Broker F → Broker F
  put_execution order report s =
      let execution = new_execution order report s in
      if is_new_fill order report s
      then record (take_id s) {
        executions = s.executions ++ execution ∷ [];
        executions_by_order_id = insert order.paper_order_id execution s.executions_by_order_id;
      }
      else s

  -- `_store_local_order`
  unfoldable pub store_local_order :
      PaperOrderRequest F
      → String
      → Report F
      → Option String
      → Broker F
      → PaperOrderRecord F × Broker F
  store_local_order r key report given s =
      let existing = lookup key s.orders_by_key in
      let order = order_of r key report (chosen_id given existing s) in
      (order, put_execution order report (put_order order (with_id given existing s)))

  -- the report of an order object
  abbrev pub report_of : Payload F → String → ℕ → Report F
  report_of p default_status fallback = record {
    broker_order_id = p.id;
    status = or_else p.status default_status;
    rejection_reason = p.reject_reason;
    filled_avg_price = float_or_none p.filled_avg_price;
    filled_qty = float_or_none p.filled_qty;
    submitted_at = or_else (datetime_or_none p.submitted_at) fallback;
    filled_at = datetime_or_none p.filled_at;
  }

  -- the report of an order that is rejected before it is sent
  abbrev pub local_report : String → ℕ → Report F
  local_report reason at = record {
    broker_order_id = none;
    status = "rejected";
    rejection_reason = some reason;
    filled_avg_price = none;
    filled_qty = none;
    submitted_at = at;
    filled_at = none;
  }
