-- ===== src/StockBroker/Orders.antt =====
-- trading/brokers/paper_stock.py: `submit_order`, `refresh_order` and the polling. A call returns the broker with its
-- answer or with the fact that it raises.
use equity_research_agent.Prelude.{
  ℕ, suc, zero, ◌+◌, String, Bool, ◌&&◌, ◌||◌, [], ◌∷◌, ◌++◌, Option, none, some, if◌then◌else◌,
  ltb, or_else, truthy, contains, lookup,
}
use equity_research_agent.Float.{Float, zero_f}
use equity_research_agent.StockBroker.Records.{
  PaperOrderRequest, PaperOrderRecord, PaperExecutionRecord, Payload, Service, Settings, Broker,
  terminal_order_statuses, rejection_reason, idempotency_key, side_for_action,
}
use equity_research_agent.StockBroker.Store.{
  reading, tick, store_local_order, report_of, local_report,
}

-- how a call ends: with an order, or with an exception
pub data Answer (F : Type 0) : Type 0 where
  answered : PaperOrderRecord F → Answer F
  raised : Answer F

-- goes on with an order object; an exception ends the loop
abbrev pub carry_on :
    {F : Type 0}
    → (Payload F → Broker F → Option (Payload F) × Broker F)
    → Option (Payload F)
    → Broker F
    → Option (Payload F) × Broker F
carry_on next none s = (none, s)
carry_on next (some payload) s = next payload s

module _ {F : Type 0} ⦃fl : Float F⦄ (service : Service F) (settings : Settings F) where
  -- `_auth_headers` raises without both keys
  abbrev pub has_credentials : Bool
  has_credentials = truthy settings.api_key && truthy settings.secret_key

  -- a GET of an order; `none` is an exception
  abbrev pub fetch : Broker F → Option (Payload F) × Broker F
  fetch s = (
    if has_credentials then service.response s.requests else none,
    record s { requests = if has_credentials then s.requests + 1 else s.requests },
  )

  -- the wait before the attempt
  abbrev pub wait : ℕ → Broker F → Broker F
  wait attempts s = record s {
    sleeps =
        if ltb 0 attempts || fl.lt zero_f settings.poll_interval_seconds
        then s.sleeps + 1
        else s.sleeps;
  }

  -- the loop of `_poll_until_terminal`, with the attempts that are left and those that were made
  unfoldable pub poll : ℕ → ℕ → Payload F → Broker F → Option (Payload F) × Broker F
  poll zero attempts latest s = (some latest, s)
  poll (suc left) attempts latest s =
      let (got, after) = fetch (wait attempts s) in
      let rest = carry_on (poll left (attempts + 1)) got after in
      if contains terminal_order_statuses (or_else latest.status "") then (some latest, s) else rest

  -- `response.raise_for_status()` and `_poll_until_terminal`
  unfoldable pub poll_until_terminal : Option (Payload F) → Broker F → Option (Payload F) × Broker F
  poll_until_terminal none s = (none, s)
  poll_until_terminal (some payload) s = poll settings.max_poll_attempts 0 payload s

  -- the end of `submit_order`
  unfoldable pub keep_submitted :
      PaperOrderRequest F → Option (Payload F) → Broker F → Answer F × Broker F
  keep_submitted r none s = (raised, s)
  keep_submitted r (some payload) s =
      let report = report_of service payload "accepted" (reading service s) in
      let (order, after) =
        store_local_order service r (idempotency_key r) report none (tick service s) in
      (answered order, after)

  abbrev pub post : PaperOrderRequest F → String → Broker F → Broker F
  post r side s = record s {
    posts =
        s.posts
        ++ record {
          symbol = r.ticker;
          qty = r.quantity;
          side = side;
          client_order_id = idempotency_key r;
        }
          ∷ [];
    requests = s.requests + 1;
  }

  -- the part of `submit_order` that sends the order
  unfoldable pub send_order : PaperOrderRequest F → Option String → Broker F → Answer F × Broker F
  send_order r none s = (raised, s)
  send_order r (some side) s =
      if has_credentials
      then (let (latest, after) =
            poll_until_terminal (service.response s.requests) (post r side s) in
          keep_submitted r latest after)
      else (raised, s)

  -- the part of `submit_order` after the check for a known order
  unfoldable pub submit_new : PaperOrderRequest F → Option String → Broker F → Answer F × Broker F
  submit_new r none s = send_order r (side_for_action r.action) s
  submit_new r (some reason) s =
      let (order, after) =
        store_local_order service r (idempotency_key r)
          (local_report service reason (reading service s)) none (tick service s) in
      (answered order, after)

  unfoldable pub submit_or_find :
      PaperOrderRequest F → Option (PaperOrderRecord F) → Broker F → Answer F × Broker F
  submit_or_find r (some order) s = (answered order, s)
  submit_or_find r none s = submit_new r (rejection_reason r) s

  -- `submit_order`
  unfoldable pub submit_order : PaperOrderRequest F → Broker F → Answer F × Broker F
  submit_order r s = submit_or_find r (lookup (idempotency_key r) s.orders_by_key) s

  -- the request that `refresh_order` makes of an order
  abbrev pub request_of : PaperOrderRecord F → PaperOrderRequest F
  request_of order = record {
    trading_decision_id = order.trading_decision_id;
    risk_decision_id = order.risk_decision_id;
    ticker = order.ticker;
    strategy_id = order.strategy_id;
    action = order.action;
    trade_date = order.trade_date;
    quantity = order.quantity;
    manual_request_mode = none;
  }

  unfoldable pub keep_refreshed :
      PaperOrderRecord F → Option (Payload F) → Broker F → Answer F × Broker F
  keep_refreshed order none s = (raised, s)
  keep_refreshed order (some payload) s =
      let report = report_of service payload order.status order.created_at in
      let (refreshed, after) =
        store_local_order service (request_of order) order.client_order_id report
          (some order.paper_order_id) s in
      (answered refreshed, after)

  -- `refresh_order`
  unfoldable pub refresh_order : PaperOrderRecord F → Broker F → Answer F × Broker F
  refresh_order order s =
      let (got, asked) = fetch s in
      let (latest, after) = poll_until_terminal got asked in keep_refreshed order latest after

-- `find_execution_by_order_id`
abbrev pub find_execution_by_order_id :
    {F : Type 0} → String → Broker F → Option (PaperExecutionRecord F)
find_execution_by_order_id id s = lookup id s.executions_by_order_id
