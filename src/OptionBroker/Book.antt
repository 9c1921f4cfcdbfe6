-- ===== src/OptionBroker/Book.antt =====
-- What the paper option broker promises its callers: a book with one order for a key, which `submit_order` refines
-- whether it runs against the service or as a local simulation.
use mathlib.Core.Path.{fun_ext}
use equity_research_agent.Prelude.{
  String, ◌==◌, ◌≡◌, refl, ◌⊎◌, inl, inr, List, [], ◌∷◌, Option, none, some, if◌then◌else◌, lookup,
  lookup-insert, if_cases,
}
use equity_research_agent.Prelude.Int.{ℤ}
use equity_research_agent.Float.{Float}
use equity_research_agent.StockBroker.Records.{Service, Report}
use equity_research_agent.StockBroker.Store.{local_report}
use equity_research_agent.OptionBroker.Records.{
  PaperOptionOrderRequest, PaperOptionOrderRecord, OptionSettings, OptionBroker,
}
use equity_research_agent.OptionBroker.Payloads.{idempotency_key, rejection_reason}
use equity_research_agent.OptionBroker.Orders.{
  Answer, answered, raised, order_of, tick, filled_report, put_order, put_execution, put_fill,
  is_fill, store_local_order, local_new, local_or_find, local_submit_order, broker_new,
  broker_or_find, uses_broker, submit_order,
}

-- the order of a key, where it has one
abbrev pub Book : Type 0 → Type 0
Book F = String → Option (PaperOptionOrderRecord F)

module _ {F : Type 0} where
  -- the book of a broker
  abbrev pub view : OptionBroker F → Book F
  view s key = lookup key s.orders_by_key

  abbrev pub learn : Book F → String → PaperOptionOrderRecord F → Book F
  learn b key order j = if key == j then some order else b j

  -- An order that answers the request: it repeats the request, and where a rule forbids the request it is rejected
  -- with the reason of that rule.
  pub record IsOrderFor (r : PaperOptionOrderRequest F) (order : PaperOptionOrderRecord F)
      : Type 0 where
    pub same_key : order.client_order_id ≡ some (idempotency_key r)
    pub same_decision : order.option_strategy_decision_id ≡ r.option_strategy_decision_id
    pub same_ticker : order.ticker ≡ r.ticker
    pub same_action : order.action ≡ r.action
    pub same_quantity : order.quantity ≡ r.quantity
    pub same_limit : order.limit_price ≡ r.limit_price
    pub ruled :
        (reason : String)
        → rejection_reason r ≡ some reason
        → (order.status ≡ "rejected") × (order.rejection_reason ≡ some reason)

  -- the order enters the book under the key of the request
  abbrev pub Enters :
      Book F → PaperOptionOrderRequest F → PaperOptionOrderRecord F → Book F → Type 0
  Enters b r order b' = IsOrderFor r order × (b' ≡ learn b (idempotency_key r) order)

  -- A new key gets an order, which is the answer unless the call raises.
  abbrev pub Learns : Book F → PaperOptionOrderRequest F → Answer F → Book F → Type 0
  Learns b r (answered order) b' = Enters b r order b'
  Learns b r raised b' = (order : PaperOptionOrderRecord F) × Enters b r order b'

  -- One call: a known key gives its order and changes nothing, and a new key is learned.
  abbrev pub Serves : Book F → PaperOptionOrderRequest F → Answer F → Book F → Type 0
  Serves b r answer b' =
      ((order : PaperOptionOrderRecord F) × (b (idempotency_key r) ≡ some order)
        × (answer ≡ answered order)
        × (b' ≡ b))
      ⊎ ((b (idempotency_key r) ≡ none) × Learns b r answer b')

  abbrev pub ServesAll : Book F → List (PaperOptionOrderRequest F × Answer F) → Book F → Type 0
  ServesAll b [] b' = b' ≡ b
  ServesAll b ((r, answer) ∷ log) b' =
      (next : Book F) × Serves b r answer next × ServesAll next log b'

module _ {F : Type 0} ⦃fl : Float F⦄ (service : Service F) where
  -- the order of a report is one for the request if the report follows the rules
  abbrev FollowsRules : PaperOptionOrderRequest F → Report F → Type 0
  FollowsRules r report =
      (reason : String)
      → rejection_reason r ≡ some reason
      → (report.status ≡ "rejected") × (report.rejection_reason ≡ some reason)

  put_order-Enters :
      (r : PaperOptionOrderRequest F) (report : Report F) (id : String) (s : OptionBroker F)
      → FollowsRules r report
      → let order = order_of service r (idempotency_key r) report id in
        Enters (view s) r order (view (put_order service (idempotency_key r) order s))
  unfolding put_order
  put_order-Enters r report id s rules = (
    record {
      same_key = refl;
      same_decision = refl;
      same_ticker = refl;
      same_action = refl;
      same_quantity = refl;
      same_limit = refl;
      ruled = rules;
    },
    fun_ext λ j. lookup-insert (idempotency_key r) j _ s.orders_by_key,
  )

  put_fill-Learns :
      (r : PaperOptionOrderRequest F) (order : PaperOptionOrderRecord F) (report : Report F)
      (quantity : Option ℤ) (b : Book F) (s : OptionBroker F)
      → Enters b r order (view s)
      → let (answer, z) = put_fill service order report quantity s in Learns b r answer (view z)
  unfolding put_fill put_execution
  put_fill-Learns r order report none b s h = (order, h)
  put_fill-Learns r order report (some quantity) b s h = h

  store_local_order-Learns :
      (r : PaperOptionOrderRequest F) (report : Report F) (s : OptionBroker F)
      → FollowsRules r report
      → let (answer, z) = store_local_order service r (idempotency_key r) report s in
        Learns (view s) r answer (view z)
  unfolding store_local_order
  store_local_order-Learns r report s rules =
      let entered = put_order-Enters r report (service.uuid4 s.fresh) s rules in
      if_cases (λ (out : Answer F × OptionBroker F). Learns (view s) r out.0 (view out.1))
        (is_fill service report) _ _ (λ filled. put_fill-Learns r _ report _ (view s) _ entered)
        λ open_order. entered

  local_new-Learns :
      (r : PaperOptionOrderRequest F) (reason : Option String) (s : OptionBroker F)
      → rejection_reason r ≡ reason
      → let (answer, z) = local_new service r reason s in Learns (view s) r answer (view z)
  unfolding local_new put_execution
  local_new-Learns r (some reason) s e =
      put_order-Enters r (local_report service reason (service.now s.readings))
        (service.uuid4 s.fresh) (tick service s) λ other h. (refl, cc (e, h))
  local_new-Learns r none s e =
      put_order-Enters r (filled_report service (service.now s.readings)) (service.uuid4 s.fresh)
        (tick service s) λ other h. absurd cc

  local_or_find-Serves :
      (r : PaperOptionOrderRequest F) (known : Option (PaperOptionOrderRecord F))
      (s : OptionBroker F)
      → lookup (idempotency_key r) s.orders_by_key ≡ known
      → let (answer, z) = local_or_find service r known s in Serves (view s) r answer (view z)
  unfolding local_or_find
  local_or_find-Serves r (some order) s e = inl (order, e, refl, refl)
  local_or_find-Serves r none s e = inr (e, local_new-Learns r _ s refl)

module _ {F : Type 0} ⦃fl : Float F⦄ (service : Service F) (settings : OptionSettings F) where
  broker_new-Learns :
      (r : PaperOptionOrderRequest F) (reason : Option String) (s : OptionBroker F)
      → rejection_reason r ≡ reason
      → let (answer, z) = broker_new service settings r reason s in
        Learns (view s) r answer (view z)
  unfolding broker_new
  broker_new-Learns r (some reason) s e =
      store_local_order-Learns service r _ _ λ other h. (refl, cc (e, h))
  broker_new-Learns r none s e = store_local_order-Learns service r _ _ λ other h. absurd cc

  broker_or_find-Serves :
      (r : PaperOptionOrderRequest F) (known : Option (PaperOptionOrderRecord F))
      (s : OptionBroker F)
      → lookup (idempotency_key r) s.orders_by_key ≡ known
      → let (answer, z) = broker_or_find service settings r known s in
        Serves (view s) r answer (view z)
  unfolding broker_or_find
  broker_or_find-Serves r (some order) s e = inl (order, e, refl, refl)
  broker_or_find-Serves r none s e = inr (e, broker_new-Learns r _ s refl)

  pub submit_order-Serves :
      (r : PaperOptionOrderRequest F) (s : OptionBroker F)
      → let (answer, z) = submit_order service settings r s in Serves (view s) r answer (view z)
  unfolding submit_order local_submit_order
  submit_order-Serves r s =
      if_cases (λ (out : Answer F × OptionBroker F). Serves (view s) r out.0 (view out.1))
        (uses_broker service settings) _ _ (λ broker. broker_or_find-Serves r _ s refl)
        λ local. local_or_find-Serves service r _ s refl

-- a call of `submit_order`: the service may answer each one otherwise
pub record Call (F : Type 0) : Type 0 where
  pub service : Service F
  pub settings : OptionSettings F
  pub request : PaperOptionOrderRequest F

module _ {F : Type 0} ⦃fl : Float F⦄ where
  -- a sequence of calls, and what each one asked and got
  unfoldable pub submit_all :
      List (Call F) → OptionBroker F → List (PaperOptionOrderRequest F × Answer F) × OptionBroker F
  submit_all [] s = ([], s)
  submit_all (call ∷ calls) s =
      let (answer, after) = submit_order call.service call.settings call.request s in
      let (log, last) = submit_all calls after in ((call.request, answer) ∷ log, last)

  -- Any sequence of calls, against any services and also where some raise, is one of the abstract book: a known key
  -- gives its order and changes nothing, and a new key gets one order for its request, rejected with the reason
  -- of the rule if a rule forbids it.
  pub submit_all-ServesAll :
      (calls : List (Call F)) (s : OptionBroker F)
      → let (log, z) = submit_all calls s in ServesAll (view s) log (view z)
  unfolding submit_all
  submit_all-ServesAll [] s = refl
  submit_all-ServesAll (call ∷ calls) s = (
    _,
    submit_order-Serves call.service call.settings call.request s,
    submit_all-ServesAll calls _,
  )
