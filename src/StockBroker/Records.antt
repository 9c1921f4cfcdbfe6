-- ===== src/StockBroker/Records.antt =====
-- trading/brokers/paper_stock.py: the records of the paper stock broker, its state, and its checks of a request.
-- What the service answers stands in `Service`: its responses one by one, the readings of `_now`, and the ids
-- that `uuid4` gives. Times are whole microseconds, and a trade date is its ISO text.
use Prim.Native.String.{◌++◌ as concat}
use equity_research_agent.Prelude.{
  ℕ, String, ◌==◌, Bool, false, not, ◌&&◌, ◌||◌, List, [], ◌∷◌, Option, none, some, if◌then◌else◌,
  same_text, contains, Dict,
}
use equity_research_agent.Float.{Float, zero_f}

-- `PaperOrderRequest`
pub record PaperOrderRequest (F : Type 0) : Type 0 where
  pub trading_decision_id : String
  pub risk_decision_id : String
  pub ticker : String
  pub strategy_id : String
  pub action : String
  pub trade_date : String
  pub quantity : F
  pub manual_request_mode : Option String

-- `PaperOrderRecord`
pub record PaperOrderRecord (F : Type 0) : Type 0 where
  pub paper_order_id : String
  pub broker_order_id : Option String
  pub client_order_id : String
  pub trading_decision_id : String
  pub risk_decision_id : String
  pub ticker : String
  pub strategy_id : String
  pub action : String
  pub trade_date : String
  pub quantity : F
  pub limit_price : Option F
  pub status : String
  pub rejection_reason : Option String
  pub created_at : ℕ

-- `PaperExecutionRecord`
pub record PaperExecutionRecord (F : Type 0) : Type 0 where
  pub paper_execution_id : String
  pub paper_order_id : String
  pub broker_order_id : Option String
  pub ticker : String
  pub quantity : F
  pub fill_price : F
  pub trade_date : String
  pub executed_at : ℕ
  pub net_cash_effect : F

-- a value of a JSON object: missing or null, a number, or a text
pub data Json (F : Type 0) : Type 0 where
  null : Json F
  number : F → Json F
  text : String → Json F

-- the members of the service's order object that the broker reads. `status` is `none` where the key is missing;
-- the ids and the reason are texts or null.
pub record Payload (F : Type 0) : Type 0 where
  pub id : Option String
  pub status : Option String
  pub reject_reason : Option String
  pub filled_avg_price : Json F
  pub filled_qty : Json F
  pub submitted_at : Option String
  pub filled_at : Option String

-- the JSON object of a POST to `/v2/orders`, whose quantity is sent as its text
pub record Post (F : Type 0) : Type 0 where
  pub symbol : String
  pub qty : F
  pub side : String
  pub client_order_id : String

-- `response n` is what the request number `n` gets: an order object, or an exception of the client or of
-- `raise_for_status`. `float_of` is `float` on a text, and `datetime_of` parses a non-empty ISO text to UTC.
pub record Service (F : Type 0) : Type 0 where
  pub response : ℕ → Option (Payload F)
  pub now : ℕ → ℕ
  pub uuid4 : ℕ → String
  pub float_of : String → Option F
  pub datetime_of : String → Option ℕ

pub record Settings (F : Type 0) : Type 0 where
  pub api_key : Option String
  pub secret_key : Option String
  pub max_poll_attempts : ℕ
  pub poll_interval_seconds : F

-- the attributes that calls change, and what the broker sent; `requests`, `readings` and `fresh` count the
-- requests, the readings of the clock and the ids so far
pub record Broker (F : Type 0) : Type 0 where
  pub orders : List (PaperOrderRecord F)
  pub executions : List (PaperExecutionRecord F)
  pub orders_by_key : Dict (PaperOrderRecord F)
  pub executions_by_order_id : Dict (PaperExecutionRecord F)
  pub posts : List (Post F)
  pub requests : ℕ
  pub sleeps : ℕ
  pub readings : ℕ
  pub fresh : ℕ

-- the attributes as `__init__` leaves them
abbrev pub initial : {F : Type 0} → Broker F
initial = record {
  orders = [];
  executions = [];
  orders_by_key = [];
  executions_by_order_id = [];
  posts = [];
  requests = 0;
  sleeps = 0;
  readings = 0;
  fresh = 0;
}

-- what `_store_local_order` is given besides the request, the key and the order id
pub record Report (F : Type 0) : Type 0 where
  pub broker_order_id : Option String
  pub status : String
  pub rejection_reason : Option String
  pub filled_avg_price : Option F
  pub filled_qty : Option F
  pub submitted_at : ℕ
  pub filled_at : Option ℕ

abbrev pub terminal_order_statuses : List String
terminal_order_statuses = "filled" ∷ "canceled" ∷ "expired" ∷ "rejected" ∷ []

module _ {F : Type 0} ⦃fl : Float F⦄ where
  -- `_stock_fill_cash_effect`
  unfoldable pub stock_fill_cash_effect : String → F → F → F
  stock_fill_cash_effect action quantity fill_price =
      let notional = fl.times quantity fill_price in
      if action == "reduce" || action == "exit" then notional else fl.neg notional

  -- `_rejection_reason`
  unfoldable pub rejection_reason : PaperOrderRequest F → Option String
  rejection_reason r =
      if same_text r.manual_request_mode "review_only"
      then some "manual_request_review_only"
      else if r.action == "enter_short"
      then some "long_only_common_stock_v2"
      else if not (contains ("enter_long" ∷ "reduce" ∷ "exit" ∷ []) r.action)
      then some "unsupported_stock_action"
      else if fl.le r.quantity zero_f
      then some "non_positive_quantity"
      else none

  -- `_idempotency_key`
  abbrev pub idempotency_key : PaperOrderRequest F → String
  idempotency_key r =
      concat r.trade_date
        (concat ":" (concat r.ticker (concat ":" (concat r.strategy_id (concat ":" r.action)))))

  -- `x not in (None, 0)`
  abbrev pub is_nonzero : Option F → Bool
  is_nonzero none = false
  is_nonzero (some x) = not (fl.le x zero_f && fl.le zero_f x)

-- `_side_for_action`; `none` is the `ValueError`
unfoldable pub side_for_action : String → Option String
side_for_action action =
    if action == "enter_long"
    then some "buy"
    else if action == "reduce" || action == "exit"
    then some "sell"
    else none
