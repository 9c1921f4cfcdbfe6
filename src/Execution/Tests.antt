-- ===== src/Execution/Tests.antt =====
-- The theorems on the execution of stock decisions at a long entry that the service fills at once, and at a decision that
-- the risk manager rejected.
use equity_research_agent.Prelude.{
  ◌≡◌, refl, String, true, false, Option, [], ◌∷◌, none, some, eqb, if◌then◌else◌, lookup, insert,
}
use equity_research_agent.Prelude.Int.{ℤ, ◌+ℤ◌, ◌-ℤ◌}
use equity_research_agent.Float.Micros.{micros}
use equity_research_agent.Risk.Decision.{
  RiskDecisionRecord, decision, approved_quantity_basis, sector_weight, effective_sector_cap,
}
use equity_research_agent.Risk.Signals.{
  has_missing_or_stale_signals, is_macro_only_bearish, is_blocking_signal_family,
}
use equity_research_agent.Risk.Intent.{matching_planner_position_action}
use equity_research_agent.Risk.Gate.{evaluate, verdict, planner_weight, over_cap}
use equity_research_agent.Risk.Samples.{request, stale_request, sizing, account, config}
use equity_research_agent.StockBroker.Records.{
  Payload, number, Service, initial, rejection_reason, side_for_action,
}
use equity_research_agent.StockBroker.Store.{
  store_local_order, put_order, put_execution, float_or_none, datetime_or_none,
}
use equity_research_agent.StockBroker.Orders.{
  submit_order, submit_or_find, submit_new, send_order, keep_submitted, poll, poll_until_terminal,
}
use equity_research_agent.Prelude.Text.{strip}
use equity_research_agent.Execution.Attempts.{PlanEntry, TradingDecisionRecord}
use equity_research_agent.Execution.Fallback.{
  next_expression_decision, next_from, fallback_for, continue_if, with_payload,
}
use equity_research_agent.Execution.Fallback.Chains.{repeat_next}
use equity_research_agent.Execution.Stock.{
  Environment, Workflow, execute_stock_decision, pass_gate, gate, after_submit, find_fill,
  keep_fill, save_attempt, manual_request_mode,
}
use equity_research_agent.Execution.Gate.{SendsGated, execute_stock_decision-SendsGated}
use equity_research_agent.Execution.Audit.{EndsGated, execute_stock_decision-EndsGated}
use equity_research_agent.Execution.Ledger.{
  HasUniqueIds, Extends, Reaches.stays, Reaches.executes, Reaches.reconciles, Reaches-keeps,
  reconcile_workflow,
}

abbrev payload : Payload ℤ
payload = record {
  id = some "b-1";
  status = some "filled";
  reject_reason = none;
  filled_avg_price = number (micros.lit 100 0);
  filled_qty = number (micros.lit 10 0);
  submitted_at = none;
  filled_at = none;
}

abbrev service : Service ℤ
service = record {
  response = λ n. some payload;
  now = λ n. 1000;
  uuid4 = λ n. if eqb n 0 then "order" else "execution";
  float_of = λ t. none;
  datetime_of = λ t. none;
}

abbrev env : Environment ℤ
env = record {
  service = service;
  settings = record {
    api_key = some "key";
    secret_key = some "secret";
    max_poll_attempts = 5;
    poll_interval_seconds = micros.lit 0 0;
  };
  stamp = λ n. record { attempt_id = if eqb n 0 then "a-0" else "a-1"; at = 1000 };
  manual_request_service = none;
  phase = "preopen";
  trade_date = "2026-05-01";
}

abbrev entry : TradingDecisionRecord
entry = record {
  trading_decision_id = "t-1";
  risk_decision_id = some "d";
  ticker = "AAPL";
  decision = "enter_long";
  strategy_id = "swing";
  expression_bucket_id = "long_stock";
  expression_bucket_version = "v1";
  trade_identity = "tactical_stock_trade";
  instrument_type = "stock";
  manual_request_id = none;
  paper_trade_authorized = true;
  expression_fallback_plan = [];
  manual_request_mode = none;
  option_strategy_fallbacks = [];
  option_strategy = none;
  execution_fallback_from = none;
  execution_fallback_to = none;
}

abbrev nothing_done : Workflow ℤ
nothing_done = record {
  broker = initial;
  repository = record { paper_orders = []; paper_executions = []; execution_attempts = [] };
  orders = [];
  attempts = [];
  stamps = 0;
}

-- what the risk manager decided on the sample request
abbrev reduced : RiskDecisionRecord ℤ
reduced = evaluate "s" "d" request sizing account config none

execute_stock_decision-SendsGated_example :
    SendsGated env entry
      (some reduced)
      nothing_done
      (execute_stock_decision env entry (some reduced) nothing_done).1
execute_stock_decision-SendsGated_example =
    execute_stock_decision-SendsGated env entry (some reduced) nothing_done

execute_stock_decision-EndsGated_example :
    EndsGated
      (gate entry (some reduced))
      nothing_done
      (execute_stock_decision env entry (some reduced) nothing_done)
execute_stock_decision-EndsGated_example =
    execute_stock_decision-EndsGated env entry (some reduced) nothing_done

abbrev executed : Workflow ℤ
executed = (execute_stock_decision env entry (some reduced) nothing_done).1

Reaches-keeps_example :
    let z = reconcile_workflow service env.settings executed in
    HasUniqueIds z.repository × Extends nothing_done.repository z.repository
Reaches-keeps_example =
    Reaches-keeps (record { orders_unique = tt; executions_unique = tt; attempts_unique = tt })
      (reconciles service env.settings (executes env entry (some reduced) stays))

-- the reduced trade is bought for the approved quantity
bought :
    executed.broker.posts
    ≡ record {
      symbol = "AAPL";
      qty = reduced.approved_quantity;
      side = "buy";
      client_order_id = "2026-05-01:AAPL:swing:enter_long";
    }
      ∷ []
unfolding execute_stock_decision pass_gate gate after_submit find_fill keep_fill save_attempt
    manual_request_mode submit_order submit_or_find submit_new send_order keep_submitted poll
    poll_until_terminal store_local_order put_order put_execution rejection_reason side_for_action
    lookup insert float_or_none datetime_or_none evaluate verdict decision
    matching_planner_position_action has_missing_or_stale_signals is_blocking_signal_family
    is_macro_only_bearish effective_sector_cap ◌-ℤ◌ ◌+ℤ◌ sector_weight planner_weight over_cap
    approved_quantity_basis
bought = refl

-- a rejected trade is skipped and not sent
skipped_rejected :
    let z =
      (execute_stock_decision env entry
        (some (evaluate "s" "d" stale_request sizing account config none))
        nothing_done).1 in
    (z.broker.posts ≡ []) × (z.orders ≡ [])
unfolding execute_stock_decision pass_gate gate save_attempt evaluate verdict decision
    has_missing_or_stale_signals is_blocking_signal_family matching_planner_position_action
skipped_rejected = (refl, refl)

-- a plan of an option, an option without a payload, and stock
abbrev option_entry : String → PlanEntry
option_entry id = record {
  expression_bucket_id = some id;
  expression_bucket_version = some "v1";
  trade_identity = none;
  instrument_type = some "option";
  decision_action = some "open_option_strategy";
  rank = 0;
  is_selected = false;
}

abbrev stock_entry : PlanEntry
stock_entry = record (option_entry "long_stock") {
  instrument_type = some "stock";
  decision_action = some " enter_long ";
}

abbrev planned : TradingDecisionRecord
planned = record entry {
  decision = "open_option_strategy";
  expression_bucket_id = "long_call";
  instrument_type = "option";
  expression_fallback_plan =
      option_entry "long_call"
      ∷ option_entry "call_spread"
      ∷ option_entry "collar"
      ∷ stock_entry
      ∷ [];
  option_strategy_fallbacks = ("collar", "legs") ∷ [];
}

abbrev id_reached : Option TradingDecisionRecord → String
id_reached none = ""
id_reached (some d) = d.expression_bucket_id

-- the spread has no payload, and the last fallback is the stock
moves :
    (id_reached (repeat_next 1 planned) ≡ "collar")
    × (id_reached (repeat_next 2 planned) ≡ "long_stock")
unfolding repeat_next next_expression_decision next_from fallback_for continue_if with_payload
    lookup strip
moves = (refl, refl)
