-- ===== src/OptionBroker/Records.antt =====
-- trading/brokers/paper_option.py: the records of the paper option broker and its state. The service and its order
-- objects are those of the stock broker. Times are whole microseconds, and a trade date is its ISO text.
use equity_research_agent.Prelude.{ℕ, String, Bool, List, [], ◌∷◌, Option, Dict}
use equity_research_agent.Prelude.Int.{ℤ}

-- `PaperOptionOrderLeg`
pub record PaperOptionOrderLeg : Type 0 where
  pub contract_symbol : String
  pub ratio_qty : ℤ
  pub position_intent : Option String

-- `PaperOptionOrderRequest`
pub record PaperOptionOrderRequest (F : Type 0) : Type 0 where
  pub trading_decision_id : String
  pub risk_decision_id : String
  pub option_strategy_decision_id : String
  pub ticker : String
  pub strategy_id : String
  pub option_strategy_type : String
  pub action : String
  pub trade_date : String
  pub quantity : ℤ
  pub limit_price : F
  pub max_loss : F
  pub margin_requirement : F
  pub buying_power_effect : F
  pub trade_identity : String
  pub contract_symbol : Option String
  pub position_intent : Option String
  pub order_class : String
  pub legs : List PaperOptionOrderLeg

-- `PaperOptionOrderRecord`
pub record PaperOptionOrderRecord (F : Type 0) : Type 0 where
  pub paper_option_order_id : String
  pub trading_decision_id : String
  pub risk_decision_id : String
  pub option_strategy_decision_id : String
  pub ticker : String
  pub strategy_id : String
  pub option_strategy_type : String
  pub action : String
  pub trade_identity : String
  pub trade_date : String
  pub quantity : ℤ
  pub limit_price : F
  pub status : String
  pub rejection_reason : Option String
  pub margin_requirement : F
  pub buying_power_effect : F
  pub created_at : ℕ
  pub broker_order_id : Option String
  pub client_order_id : Option String
  pub order_class : String

-- `PaperOptionExecutionRecord`
pub record PaperOptionExecutionRecord (F : Type 0) : Type 0 where
  pub paper_option_execution_id : String
  pub paper_option_order_id : String
  pub ticker : String
  pub quantity : ℤ
  pub fill_price : F
  pub trade_date : String
  pub executed_at : ℕ
  pub net_cash_effect : F
  pub broker_order_id : Option String

-- a leg of a POST
pub record LegPayload : Type 0 where
  pub symbol : String
  pub ratio_qty : ℤ
  pub position_intent : String

-- what a POST asks for: several legs (`order_class` is then `mleg`), or one contract
pub data Instrument : Type 0 where
  mleg : List LegPayload → Instrument
  contract : String → String → Instrument

-- the JSON object of a POST to `/v2/orders`: a limit order for the day. The quantity and the price are sent as
-- their texts.
pub record OrderPayload (F : Type 0) : Type 0 where
  pub qty : ℤ
  pub limit_price : F
  pub client_order_id : String
  pub instrument : Instrument

-- the attributes that `__init__` sets once; `client_given` says that it got a client
pub record OptionSettings (F : Type 0) : Type 0 where
  pub client_given : Bool
  pub api_key : Option String
  pub secret_key : Option String
  pub max_poll_attempts : ℕ
  pub poll_interval_seconds : F

-- what went to the service: the posts, the count of requests, and the waits between them
pub record Wire (F : Type 0) : Type 0 where
  pub posts : List (OrderPayload F)
  pub requests : ℕ
  pub sleeps : ℕ

-- the attributes that calls change; `readings` and `fresh` count the readings of the clock and the ids so far
pub record OptionBroker (F : Type 0) : Type 0 where
  pub orders : List (PaperOptionOrderRecord F)
  pub executions : List (PaperOptionExecutionRecord F)
  pub orders_by_key : Dict (PaperOptionOrderRecord F)
  pub executions_by_order_id : Dict (PaperOptionExecutionRecord F)
  pub wire : Wire F
  pub readings : ℕ
  pub fresh : ℕ

-- the attributes as `__init__` leaves them
abbrev pub no_orders : {F : Type 0} → OptionBroker F
no_orders = record {
  orders = [];
  executions = [];
  orders_by_key = [];
  executions_by_order_id = [];
  wire = record { posts = []; requests = 0; sleeps = 0 };
  readings = 0;
  fresh = 0;
}

abbrev pub supported_actions : List String
supported_actions =
    "open_option_strategy" ∷ "close_option_strategy" ∷ "roll_option_strategy"
    ∷ "adjust_option_strategy" ∷ "avoid_event_option" ∷ []
