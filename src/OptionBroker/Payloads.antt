-- ===== src/OptionBroker/Payloads.antt =====
-- trading/brokers/paper_option.py: the checks of a request, its key, and the order object that is sent for it.
use Prim.Native.String.{◌++◌ as concat}
use equity_research_agent.Prelude.{
  String, ◌==◌, not, map, Option, none, some, if◌then◌else◌, is_empty, or_else, filled, contains,
}
use equity_research_agent.Prelude.Int.{ℤ, pos, leb_ℤ, ltb_ℤ}
use equity_research_agent.Float.{Float, zero_f, abs_of}
use equity_research_agent.OptionBroker.Records.{
  PaperOptionOrderLeg, PaperOptionOrderRequest, LegPayload, Instrument, mleg, contract,
  OrderPayload, supported_actions,
}

-- `_format_int_quantity`, as the number whose text it is
abbrev pub format_int_quantity : ℤ → ℤ
format_int_quantity quantity = if ltb_ℤ (pos 1) quantity then quantity else pos 1

abbrev pub leg_payload : PaperOptionOrderLeg → LegPayload
leg_payload leg = record {
  symbol = leg.contract_symbol;
  ratio_qty = leg.ratio_qty;
  position_intent = or_else (filled leg.position_intent) "buy_to_open";
}

-- `_default_position_intent`; `none` is the `ValueError`
unfoldable pub default_position_intent : String → Option String
default_position_intent action =
    if action == "open_option_strategy"
    then some "buy_to_open"
    else if action == "close_option_strategy"
    then some "sell_to_close"
    else none

-- the contract of a single order, with `request.position_intent or _default_position_intent(request)`
unfoldable pub single_contract : Option String → Option String → String → Option Instrument
single_contract none intent action = none
single_contract (some symbol) (some intent) action = some (contract symbol intent)
single_contract (some symbol) none action = elim (default_position_intent action) [
  | none ↦ none
  | some intent ↦ some (contract symbol intent)
]

module _ {F : Type 0} where
  -- what `_alpaca_order_payload` asks for; `none` is a `ValueError`
  unfoldable pub instrument_of : PaperOptionOrderRequest F → Option Instrument
  instrument_of r =
      if r.order_class == "mleg"
      then if is_empty r.legs then none else some (mleg (map leg_payload r.legs))
      else single_contract (filled r.contract_symbol) (filled r.position_intent) r.action

  -- `_idempotency_key`
  abbrev pub idempotency_key : PaperOptionOrderRequest F → String
  idempotency_key r = concat r.trade_date (
      concat ":" (
        concat r.ticker (
          concat ":" (
            concat r.strategy_id
              (concat ":" (concat r.option_strategy_type (concat ":" r.action)))))))

  -- `_rejection_reason`
  unfoldable pub rejection_reason : PaperOptionOrderRequest F → Option String
  rejection_reason r =
      if not (contains supported_actions r.action)
      then some "unsupported_option_action"
      else if leb_ℤ r.quantity (pos 0)
      then some "non_positive_quantity"
      else if r.action == "avoid_event_option"
      then some "event_risk_blocked"
      else none

module _ {F : Type 0} ⦃fl : Float F⦄ where
  -- `_signed_fill_price`
  abbrev pub signed_fill_price : F → F → F
  signed_fill_price limit_price filled_avg_price =
      if fl.lt limit_price zero_f then fl.neg (abs_of filled_avg_price) else abs_of filled_avg_price

  -- `_alpaca_order_payload`; `_format_limit_price` writes the absolute value with at most eight decimals
  unfoldable pub alpaca_order_payload : PaperOptionOrderRequest F → String → Option (OrderPayload F)
  alpaca_order_payload r key = elim (instrument_of r) [
    | none ↦ none
    | some instrument ↦ some (record {
      qty = format_int_quantity r.quantity;
      limit_price = abs_of r.limit_price;
      client_order_id = key;
      instrument = instrument;
    })
  ]
