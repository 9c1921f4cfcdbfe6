-- ===== src/StockBroker/Tests.antt =====
-- The theorems of the paper stock broker at an order that is filled at the second poll.
use equity_research_agent.Prelude.{◌+◌, ◌≡◌, refl, none, some, eqb, if◌then◌else◌, lookup, insert}
use equity_research_agent.Prelude.Int.{ℤ}
use equity_research_agent.Float.Micros.{micros}
use equity_research_agent.StockBroker.Records.{
  PaperOrderRequest, PaperOrderRecord, Payload, null, number, Service, Settings, Broker, initial,
  rejection_reason, side_for_action,
}
use equity_research_agent.StockBroker.Store.{
  store_local_order, put_order, put_execution, float_or_none, datetime_or_none,
}
use equity_research_agent.StockBroker.Orders.{
  answered, submit_order, submit_or_find, submit_new, send_order, keep_submitted, poll,
  poll_until_terminal, refresh_order,
}
use equity_research_agent.StockBroker.Ledger.{
  IsLedger, Reachable.starts, Reachable.submits, Reachable-IsLedger,
}
use equity_research_agent.StockBroker.Posts.{
  Sends, submit_order-Sends, Settles, refresh_order-Settles,
}
use equity_research_agent.StockBroker.Idempotency.{submit_again}

abbrev accepted : Payload ℤ
accepted = record {
  id = some "b-1";
  status = some "accepted";
  reject_reason = none;
  filled_avg_price = null;
  filled_qty = null;
  submitted_at = none;
  filled_at = none;
}

abbrev filled_payload : Payload ℤ
filled_payload = record accepted {
  status = some "filled";
  filled_avg_price = number (micros.lit 100 0);
  filled_qty = number (micros.lit 2 0);
}

abbrev service : Service ℤ
service = record {
  response = λ n. some (if eqb n 2 then filled_payload else accepted);
  now = λ n. 1000 + n;
  uuid4 = λ n. if eqb n 0 then "order" else "execution";
  float_of = λ t. none;
  datetime_of = λ t. none;
}

abbrev settings : Settings ℤ
settings = record {
  api_key = some "key";
  secret_key = some "secret";
  max_poll_attempts = 5;
  poll_interval_seconds = micros.lit 0 0;
}

abbrev buy : PaperOrderRequest ℤ
buy = record {
  trading_decision_id = "t-1";
  risk_decision_id = "r-1";
  ticker = "AAPL";
  strategy_id = "swing";
  action = "enter_long";
  trade_date = "2026-05-01";
  quantity = micros.lit 2 0;
  manual_request_mode = none;
}

abbrev bought : PaperOrderRecord ℤ
bought = record {
  paper_order_id = "order";
  broker_order_id = some "b-1";
  client_order_id = "2026-05-01:AAPL:swing:enter_long";
  trading_decision_id = "t-1";
  risk_decision_id = "r-1";
  ticker = "AAPL";
  strategy_id = "swing";
  action = "enter_long";
  trade_date = "2026-05-01";
  quantity = micros.lit 2 0;
  limit_price = some (micros.lit 100 0);
  status = "filled";
  rejection_reason = none;
  created_at = 1000;
}

abbrev after : Broker ℤ
after = (submit_order service settings buy initial).1

Reachable-IsLedger_example : IsLedger after
Reachable-IsLedger_example = Reachable-IsLedger (submits service settings buy starts)

submit_again_example :
    submit_order service settings (record buy { quantity = micros.lit 9 0 }) after
    ≡ (answered bought, after)
unfolding submit_order submit_or_find submit_new send_order keep_submitted poll poll_until_terminal
    store_local_order put_order put_execution rejection_reason side_for_action lookup insert
    float_or_none datetime_or_none
submit_again_example =
    submit_again service settings buy (record buy { quantity = micros.lit 9 0 }) bought initial
      after refl refl service settings

submit_order-Sends_example : Sends service settings buy initial after
submit_order-Sends_example = submit_order-Sends service settings buy initial

refresh_order-Settles_example :
    Settles service settings after (refresh_order service settings bought after)
refresh_order-Settles_example = refresh_order-Settles service settings bought after
