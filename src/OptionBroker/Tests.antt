-- ===== src/OptionBroker/Tests.antt =====
-- The theorems of the paper option broker at a spread that the service fills at the first poll.
use equity_research_agent.Prelude.{
  ◌≡◌, refl, true, [], ◌∷◌, none, some, eqb, if◌then◌else◌, lookup, insert,
}
use equity_research_agent.Prelude.Int.{ℤ, pos, negsuc}
use equity_research_agent.Float.Micros.{micros}
use equity_research_agent.StockBroker.Records.{Payload, null, number, Service}
use equity_research_agent.StockBroker.Store.{float_or_none, datetime_or_none}
use equity_research_agent.OptionBroker.Records.{PaperOptionOrderRequest, OptionSettings, no_orders}
use equity_research_agent.OptionBroker.Payloads.{
  idempotency_key, rejection_reason, instrument_of, alpaca_order_payload,
}
use equity_research_agent.OptionBroker.Orders.{
  submit_order, broker_or_find, broker_new, send, poll, store_local_order, put_order, put_fill,
  put_execution,
}
use equity_research_agent.OptionBroker.Book.{
  view, ServesAll, Call, submit_all, submit_all-ServesAll,
}
use equity_research_agent.OptionBroker.Lasting.{GivesOrRaises, GivesAgain, answer_lasts}
use equity_research_agent.OptionBroker.Refusals.{IsSent, submit_order-Ends}

abbrev accepted : Payload ℤ
accepted = record {
  id = some "b-1";
  status = some "accepted";
  reject_reason = none;
  filled_avg_price = null;
  filled_qty = null;
  submitted_at = none;
  filled_at = none;
}

abbrev service : Service ℤ
service = record {
  response = λ n. some (
      if eqb n 0 then accepted else record accepted {
        status = some "filled";
        filled_avg_price = number (micros.lit 150 2);
        filled_qty = number (micros.lit 2 0);
      });
  now = λ n. 1000;
  uuid4 = λ n. if eqb n 0 then "order" else "execution";
  float_of = λ t. none;
  datetime_of = λ t. none;
}

abbrev settings : OptionSettings ℤ
settings = record {
  client_given = true;
  api_key = some "key";
  secret_key = some "secret";
  max_poll_attempts = 5;
  poll_interval_seconds = micros.lit 0 0;
}

abbrev spread : PaperOptionOrderRequest ℤ
spread = record {
  trading_decision_id = "t-1";
  risk_decision_id = "r-1";
  option_strategy_decision_id = "o-1";
  ticker = "AAPL";
  strategy_id = "swing";
  option_strategy_type = "bull_put_spread";
  action = "open_option_strategy";
  trade_date = "2026-05-01";
  quantity = pos 2;
  limit_price = negsuc 1499999;
  max_loss = micros.lit 500 0;
  margin_requirement = micros.lit 500 0;
  buying_power_effect = micros.lit 500 0;
  trade_identity = "option";
  contract_symbol = none;
  position_intent = none;
  order_class = "mleg";
  legs =
      record {
        contract_symbol = "AAPL260619P00180000";
        ratio_qty = pos 1;
        position_intent = some "sell_to_open";
      }
      ∷ record {
        contract_symbol = "AAPL260619P00175000";
        ratio_qty = pos 1;
        position_intent = none;
      }
      ∷ [];
}

-- the same key with another quantity
abbrev larger : PaperOptionOrderRequest ℤ
larger = record spread { quantity = pos 9 }

abbrev call : PaperOptionOrderRequest ℤ → Call ℤ
call r = record { service = service; settings = settings; request = r }

submit_all-ServesAll_example :
    let (log, z) = submit_all (call spread ∷ call larger ∷ []) no_orders in
    ServesAll (view no_orders) log (view z)
submit_all-ServesAll_example = submit_all-ServesAll (call spread ∷ call larger ∷ []) no_orders

answer_lasts_example :
    let first = (submit_order service settings spread no_orders).0 in
    let after = (submit_order service settings spread no_orders).1 in
    (order : _) × GivesOrRaises first order
    × GivesAgain
        (idempotency_key spread)
        order
        ((larger, (submit_order service settings larger after).0) ∷ [])
unfolding submit_all
answer_lasts_example =
    answer_lasts (call spread ∷ call larger ∷ []) no_orders []
      ((
        larger,
        (submit_order service settings larger (submit_order service settings spread no_orders).1).0,
      )
        ∷ [])
      spread (submit_order service settings spread no_orders).0 refl

submit_order-Ends_example :
    IsSent service settings spread no_orders (submit_order service settings spread no_orders)
unfolding rejection_reason lookup
submit_order-Ends_example = submit_order-Ends service settings spread no_orders refl refl

-- the net credit of the spread: two contracts at 1.50
spread_credit :
    (submit_order service settings spread no_orders).1.executions
    ≡ record {
      paper_option_execution_id = "execution";
      paper_option_order_id = "order";
      ticker = "AAPL";
      quantity = pos 2;
      fill_price = negsuc 1499999;
      trade_date = "2026-05-01";
      executed_at = 1000;
      net_cash_effect = micros.lit 300 0;
      broker_order_id = some "b-1";
    }
      ∷ []
unfolding submit_order broker_or_find broker_new send poll store_local_order put_order put_fill
    put_execution rejection_reason instrument_of alpaca_order_payload lookup insert float_or_none
    datetime_or_none
spread_credit = refl
