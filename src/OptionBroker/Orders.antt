-- ===== src/OptionBroker/Orders.antt =====
-- trading/brokers/paper_option.py: `submit_order` of `LocalPaperOptionBroker` and of `PaperOptionBroker`, the polling
-- and `_store_local_order`. A call returns the broker with its answer or with the fact that it raises.
use equity_research_agent.Prelude.{
  ℕ, suc, zero, ◌+◌, String, ◌==◌, Bool, ◌&&◌, ◌||◌, [], ◌∷◌, ◌++◌, Option, none, some,
  if◌then◌else◌, ltb, or_else, truthy, contains, lookup, insert,
}
use equity_research_agent.Prelude.Int.{ℤ}
use equity_research_agent.Float.{Float, zero_f}
use equity_research_agent.StockBroker.Records.{
  Payload, Service, Report, terminal_order_statuses, is_nonzero,
}
use equity_research_agent.StockBroker.Store.{report_of, local_report}
use equity_research_agent.OptionBroker.Records.{
  PaperOptionOrderRequest, PaperOptionOrderRecord, PaperOptionExecutionRecord, OrderPayload,
  OptionSettings, Wire, OptionBroker,
}
use equity_research_agent.OptionBroker.Payloads.{
  idempotency_key, rejection_reason, signed_fill_price, alpaca_order_payload,
}

-- how a call ends: with an order, or with an exception
pub data Answer (F : Type 0) : Type 0 where
  answered : PaperOptionOrderRecord F → Answer F
  raised : Answer F

-- how the `try` block of `submit_order` ends: with the last order object, or with the reason that its handlers give
pub data Reply (F : Type 0) : Type 0 where
  replied : Payload F → Reply F
  failed : String → Reply F

module _ {F : Type 0} ⦃fl : Float F⦄ (service : Service F) where
  abbrev pub order_of :
      PaperOptionOrderRequest F → String → Report F → String → PaperOptionOrderRecord F
  order_of r key report id = record {
    paper_option_order_id = id;
    trading_decision_id = r.trading_decision_id;
    risk_decision_id = r.risk_decision_id;
    option_strategy_decision_id = r.option_strategy_decision_id;
    ticker = r.ticker;
    strategy_id = r.strategy_id;
    option_strategy_type = r.option_strategy_type;
    action = r.action;
    trade_identity = r.trade_identity;
    trade_date = r.trade_date;
    quantity = r.quantity;
    limit_price = r.limit_price;
    status = report.status;
    rejection_reason = report.rejection_reason;
    margin_requirement = r.margin_requirement;
    buying_power_effect = r.buying_power_effect;
    created_at = report.submitted_at;
    broker_order_id = report.broker_order_id;
    client_order_id = some key;
    order_class = r.order_class;
  }

  -- the order appended and stored under its key; its id was taken before
  unfoldable pub put_order : String → PaperOptionOrderRecord F → OptionBroker F → OptionBroker F
  put_order key order s = record s {
    orders = s.orders ++ order ∷ [];
    orders_by_key = insert key order s.orders_by_key;
    fresh = s.fresh + 1;
  }

  unfoldable pub put_execution : PaperOptionExecutionRecord F → OptionBroker F → OptionBroker F
  put_execution execution s = record s {
    executions = s.executions ++ execution ∷ [];
    executions_by_order_id =
        insert execution.paper_option_order_id execution s.executions_by_order_id;
    fresh = s.fresh + 1;
  }

  -- the execution of an order that the service filled
  abbrev pub execution_of :
      PaperOptionOrderRecord F → Report F → ℤ → OptionBroker F → PaperOptionExecutionRecord F
  execution_of order report quantity s =
      let price = signed_fill_price order.limit_price (or_else report.filled_avg_price zero_f) in
      record {
        paper_option_execution_id = service.uuid4 s.fresh;
        paper_option_order_id = order.paper_option_order_id;
        ticker = order.ticker;
        quantity = quantity;
        fill_price = price;
        trade_date = order.trade_date;
        executed_at = or_else report.filled_at report.submitted_at;
        net_cash_effect = fl.neg (fl.times (fl.times (fl.of_int quantity) price) (fl.lit 100 0));
        broker_order_id = report.broker_order_id;
      }

  -- the fill of a stored order, given `int(round(float(filled_qty)))`, which may raise
  unfoldable pub put_fill :
      PaperOptionOrderRecord F → Report F → Option ℤ → OptionBroker F → Answer F × OptionBroker F
  put_fill order report none s = (raised, record s { fresh = s.fresh + 1 })
  put_fill order report (some quantity) s =
      (answered order, put_execution (execution_of order report quantity s) s)

  -- whether `_store_local_order` goes on to record an execution
  abbrev pub is_fill : Report F → Bool
  is_fill report =
      report.status == "filled"
      && is_nonzero report.filled_qty
      && is_nonzero report.filled_avg_price

  -- `_store_local_order`
  unfoldable pub store_local_order :
      PaperOptionOrderRequest F → String → Report F → OptionBroker F → Answer F × OptionBroker F
  store_local_order r key report s =
      let order = order_of r key report (service.uuid4 s.fresh) in
      if is_fill report
      then put_fill order report (fl.round_int (or_else report.filled_qty zero_f))
          (put_order key order s)
      else (answered order, put_order key order s)

  -- `_now()`, whose reading the report of a local order takes
  abbrev pub tick : OptionBroker F → OptionBroker F
  tick s = record s { readings = s.readings + 1 }

  -- the report of an order that the local broker fills at its limit
  abbrev pub filled_report : ℕ → Report F
  filled_report at = record {
    broker_order_id = none;
    status = "filled";
    rejection_reason = none;
    filled_avg_price = none;
    filled_qty = none;
    submitted_at = at;
    filled_at = none;
  }

  -- the execution of an order that the local broker fills
  abbrev pub local_execution :
      PaperOptionOrderRecord F → ℕ → OptionBroker F → PaperOptionExecutionRecord F
  local_execution order at s = record {
    paper_option_execution_id = service.uuid4 s.fresh;
    paper_option_order_id = order.paper_option_order_id;
    ticker = order.ticker;
    quantity = order.quantity;
    fill_price = order.limit_price;
    trade_date = order.trade_date;
    executed_at = at;
    net_cash_effect =
        fl.neg (fl.times (fl.times order.limit_price (fl.lit 100 0)) (fl.of_int order.quantity));
    broker_order_id = order.broker_order_id;
  }

  unfoldable pub local_new :
      PaperOptionOrderRequest F → Option String → OptionBroker F → Answer F × OptionBroker F
  local_new r (some reason) s =
      let key = idempotency_key r in
      let order =
        order_of r key (local_report service reason (service.now s.readings))
          (service.uuid4 s.fresh) in
      (answered order, put_order key order (tick s))
  local_new r none s =
      let key = idempotency_key r in
      let at = service.now s.readings in
      let order = order_of r key (filled_report at) (service.uuid4 s.fresh) in
      let stored = put_order key order (tick s) in
      (answered order, put_execution (local_execution order at stored) stored)

  unfoldable pub local_or_find :
      PaperOptionOrderRequest F
      → Option (PaperOptionOrderRecord F)
      → OptionBroker F
      → Answer F × OptionBroker F
  local_or_find r (some order) s = (answered order, s)
  local_or_find r none s = local_new r (rejection_reason r) s

  -- `submit_order` of `LocalPaperOptionBroker`
  unfoldable pub local_submit_order :
      PaperOptionOrderRequest F → OptionBroker F → Answer F × OptionBroker F
  local_submit_order r s = local_or_find r (lookup (idempotency_key r) s.orders_by_key) s

-- goes on with an order object; an exception ends the loop and is a `broker_error`
abbrev pub carry_on :
    {F : Type 0}
    → (Payload F → Wire F → Reply F × Wire F)
    → Option (Payload F)
    → Wire F
    → Reply F × Wire F
carry_on next none w = (failed "broker_error", w)
carry_on next (some payload) w = next payload w

module _ {F : Type 0} ⦃fl : Float F⦄ (service : Service F) (settings : OptionSettings F) where
  -- `_auth_headers` raises without both keys
  abbrev pub has_credentials : Bool
  has_credentials = truthy settings.api_key && truthy settings.secret_key

  -- the wait before the attempt, and the request
  abbrev pub ask : ℕ → Wire F → Wire F
  ask attempts w = record w {
    requests = w.requests + 1;
    sleeps =
        if ltb 0 attempts || fl.lt zero_f settings.poll_interval_seconds
        then w.sleeps + 1
        else w.sleeps;
  }

  -- the loop of `_poll_until_terminal`, with the attempts that are left and those that were made; the keys were
  -- there for the POST
  unfoldable pub poll : ℕ → ℕ → Payload F → Wire F → Reply F × Wire F
  poll zero attempts latest w = (replied latest, w)
  poll (suc left) attempts latest w =
      let rest =
        carry_on (poll left (attempts + 1)) (service.response w.requests) (ask attempts w) in
      if contains terminal_order_statuses (or_else latest.status "")
      then (replied latest, w)
      else rest

  -- the POST of an order, and the polling after it
  abbrev pub post_and_poll : OrderPayload F → Wire F → Reply F × Wire F
  post_and_poll payload w =
      carry_on (poll settings.max_poll_attempts 0) (service.response w.requests)
        (record w { posts = w.posts ++ payload ∷ []; requests = w.requests + 1 })

  -- the `try` block of `submit_order`, given the order object that it sends: the order object is made before the
  -- headers
  unfoldable pub send : Option (OrderPayload F) → Wire F → Reply F × Wire F
  send none w = (failed "broker_error", w)
  send (some payload) w =
      if has_credentials then post_and_poll payload w else (failed "missing_credentials", w)

  -- the report that `submit_order` stores for a reply
  abbrev pub reply_report : Reply F → ℕ → Report F
  reply_report (failed reason) at = local_report service reason at
  reply_report (replied payload) at = report_of service payload "accepted" at

  unfoldable pub broker_new :
      PaperOptionOrderRequest F → Option String → OptionBroker F → Answer F × OptionBroker F
  broker_new r (some reason) s =
      store_local_order service r (idempotency_key r)
        (local_report service reason (service.now s.readings)) (tick service s)
  broker_new r none s =
      let key = idempotency_key r in
      let (reply, wire) = send (alpaca_order_payload r key) s.wire in
      store_local_order service r key (reply_report reply (service.now s.readings))
        (record (tick service s) { wire = wire })

  unfoldable pub broker_or_find :
      PaperOptionOrderRequest F
      → Option (PaperOptionOrderRecord F)
      → OptionBroker F
      → Answer F × OptionBroker F
  broker_or_find r (some order) s = (answered order, s)
  broker_or_find r none s = broker_new r (rejection_reason r) s

  -- `use_broker` of `__init__`
  abbrev pub uses_broker : Bool
  uses_broker = settings.client_given || has_credentials

  -- `submit_order` of `PaperOptionBroker`
  unfoldable pub submit_order :
      PaperOptionOrderRequest F → OptionBroker F → Answer F × OptionBroker F
  submit_order r s =
      if uses_broker
      then broker_or_find r (lookup (idempotency_key r) s.orders_by_key) s
      else local_submit_order service r s

-- `find_execution_by_order_id`
unfoldable pub find_execution_by_order_id :
    {F : Type 0} → String → OptionBroker F → Option (PaperOptionExecutionRecord F)
find_execution_by_order_id id s = lookup id s.executions_by_order_id
