-- ===== src/OptionBroker/Refusals.antt =====
-- How `submit_order` of the paper option broker ends for a new key when it runs against the service: what it
-- refuses by itself, what it sends, and when it raises.
use equity_research_agent.Prelude.{
  ℕ, sym, ◌+◌, ◌≤◌, String, ◌==◌, ◌≡◌, refl, subst, ◌∙◌, ap, Bool, true, not, ◌&&◌, ◌||◌, [], ◌∷◌,
  ◌++◌, Option, none, some, if◌then◌else◌, is_empty, is_none, truthy, filled, lookup, arith,
  both_cases,
}
use equity_research_agent.Float.{Float}
use equity_research_agent.StockBroker.Records.{Payload, Service, Report}
use equity_research_agent.StockBroker.Store.{report_of, local_report}
use equity_research_agent.OptionBroker.Records.{
  PaperOptionOrderRequest, PaperOptionOrderRecord, OrderPayload, OptionSettings, Wire, OptionBroker,
}
use equity_research_agent.OptionBroker.Payloads.{
  idempotency_key, rejection_reason, instrument_of, single_contract, default_position_intent,
  alpaca_order_payload,
}
use equity_research_agent.OptionBroker.Orders.{
  Answer, answered, Reply, put_order, store_local_order, tick, has_credentials, poll, post_and_poll,
  send, reply_report, broker_new, broker_or_find, uses_broker, submit_order,
}
use equity_research_agent.OptionBroker.Polling.{
  reply_of, carry_on-Asked, poll-Asked, carry_on-IsLast, poll-IsLast,
}
use equity_research_agent.OptionBroker.Filling.{IsStored, store_local_order-IsStored}

single_contract-named :
    (symbol intent : Option String) (action : String)
    → not (is_none (single_contract (filled symbol) (filled intent) action)) ≡ (
        truthy symbol
        && (truthy intent || action == "open_option_strategy" || action == "close_option_strategy"))
unfolding single_contract default_position_intent
single_contract-named none intent action = refl
single_contract-named (some symbol) none action = ground arith
single_contract-named (some symbol) (some intent) action = ground arith

module _ {F : Type 0} where
  -- A request names an instrument: a multi-leg order has legs; any other order has a contract symbol, and a
  -- position intent or an action that implies one.
  abbrev pub names_instrument : PaperOptionOrderRequest F → Bool
  names_instrument r =
      if r.order_class == "mleg"
      then not (is_empty r.legs)
      else truthy r.contract_symbol
        && (truthy r.position_intent
            || r.action == "open_option_strategy"
            || r.action == "close_option_strategy")

  instrument_of-named :
      (r : PaperOptionOrderRequest F) → not (is_none (instrument_of r)) ≡ names_instrument r
  unfolding instrument_of
  instrument_of-named r =
      ground (arith, single_contract-named r.contract_symbol r.position_intent r.action)

module _ {F : Type 0} ⦃fl : Float F⦄ (service : Service F) (settings : OptionSettings F) where
  -- the reason for which a request that no rule forbids is not sent, if there is one
  abbrev pub unsendable : Bool → Option String
  unsendable named =
      if named
      then if has_credentials service settings then none else some "missing_credentials"
      else some "broker_error"

  -- the reason for which a request for a new key is refused without asking the service, if there is one
  abbrev pub refusal : Option String → PaperOptionOrderRequest F → Option String
  refusal (some reason) r = some reason
  refusal none r = unsendable (names_instrument r)

  -- a refused order is rejected for the reason; nothing is sent or filled
  abbrev pub IsRefused : String → OptionBroker F → Answer F × OptionBroker F → Type 0
  IsRefused reason s out =
      (order : PaperOptionOrderRecord F) × (out.0 ≡ answered order)
      × (order.status ≡ "rejected")
      × (order.rejection_reason ≡ some reason)
      × (out.1.wire ≡ s.wire)
      × (out.1.executions ≡ s.executions)

  -- the report on an answer of the service: an exception is a rejection
  abbrev pub report_on : Option (Payload F) → ℕ → Report F
  report_on none at = local_report service "broker_error" at
  report_on (some payload) at = report_of service payload "accepted" at

  -- exactly one order was sent, with at most one request more than the poll attempts, and what is stored is the report
  -- on the answer to the last request
  abbrev pub IsSent :
      PaperOptionOrderRequest F → OptionBroker F → Answer F × OptionBroker F → Type 0
  IsSent r s out =
      (payload : OrderPayload F) × (alpaca_order_payload r (idempotency_key r) ≡ some payload)
      × (out.1.wire.posts ≡ s.wire.posts ++ payload ∷ [])
      × (out.1.wire.requests ≤ s.wire.requests + 1 + settings.max_poll_attempts)
      × ((k : ℕ) × (k + 1 ≡ out.1.wire.requests)
          × IsStored r (report_on (service.response k) (service.now s.readings)) s out)

  abbrev pub Ends :
      PaperOptionOrderRequest F
      → OptionBroker F
      → Option String
      → Answer F × OptionBroker F
      → Type 0
  Ends r s none out = IsSent r s out
  Ends r s (some reason) out = IsRefused reason s out

  store_local_order-IsRefused :
      (r : PaperOptionOrderRequest F) (reason key : String) (at : ℕ) (s : OptionBroker F)
      → IsRefused reason s (store_local_order service r key (local_report service reason at) s)
  unfolding store_local_order put_order
  store_local_order-IsRefused r reason key at s = (_, refl, refl, refl, refl, refl)

  alpaca_order_payload-named :
      (r : PaperOptionOrderRequest F) (key : String)
      → not (is_none (alpaca_order_payload r key)) ≡ names_instrument r
  unfolding alpaca_order_payload
  alpaca_order_payload-named r key = ground (arith, instrument_of-named r)

  -- what `submit_order` does with the end of its `try` block
  abbrev store_reply :
      PaperOptionOrderRequest F → OptionBroker F → Reply F × Wire F → Answer F × OptionBroker F
  store_reply r s out =
      store_local_order service r (idempotency_key r)
        (reply_report service settings out.0 (service.now s.readings))
        (record (tick service s) { wire = out.1 })

  reply_report-report_on :
      (got : Option (Payload F)) (at : ℕ)
      → reply_report service settings (reply_of got) at ≡ report_on got at
  reply_report-report_on none at = refl
  reply_report-report_on (some payload) at = refl

  store_reply-IsStored :
      (r : PaperOptionOrderRequest F) (s : OptionBroker F) (out : Reply F × Wire F)
      (got : Option (Payload F))
      → out.0 ≡ reply_of got
      → let (answer, z) = store_reply r s out in
        IsStored r (report_on got (service.now s.readings)) s (answer, z) × (z.wire ≡ out.1)
  store_reply-IsStored r s out got e =
      let at = service.now s.readings in
      let (stored, wire) =
        store_local_order-IsStored service r (idempotency_key r)
          (reply_report service settings out.0 at) (record (tick service s) { wire = out.1 }) in
      (
        subst (λ report. IsStored r report s (store_reply r s out))
            (ap (λ reply. reply_report service settings reply at) e ∙ reply_report-report_on got at)
            stored,
        wire,
      )

  post_and_poll-IsSent :
      (r : PaperOptionOrderRequest F) (s : OptionBroker F) (payload : OrderPayload F)
      → alpaca_order_payload r (idempotency_key r) ≡ some payload
      → IsSent r s (store_reply r s (post_and_poll service settings payload s.wire))
  post_and_poll-IsSent r s payload made =
      let posted = record s.wire {
        posts = s.wire.posts ++ payload ∷ [];
        requests = s.wire.requests + 1;
      } in
      let first = service.response s.wire.requests in
      let go = poll service settings settings.max_poll_attempts 0 in
      let (posts, requests) =
        carry_on-Asked service settings settings.max_poll_attempts go first posted
          (λ p. poll-Asked service settings settings.max_poll_attempts 0 p posted) in
      let (k, last, replied_with) =
        carry_on-IsLast service settings go s.wire.requests first posted refl refl (λ p answer.
          poll-IsLast service settings settings.max_poll_attempts 0 p posted s.wire.requests refl
            answer) in
      let (stored, wire) =
        store_reply-IsStored r s (post_and_poll service settings payload s.wire)
          (service.response k) replied_with in
      let asked = ap (λ (w : Wire F). w.requests) wire in
      (
        payload,
        made,
        ap (λ (w : Wire F). w.posts) wire ∙ posts,
        omega (arith, asked, requests),
        (k, last ∙ sym asked, stored),
      )

  send-Ends :
      (r : PaperOptionOrderRequest F) (s : OptionBroker F) (payload : Option (OrderPayload F))
      → alpaca_order_payload r (idempotency_key r) ≡ payload
      → Ends r s
          (unsendable (not (is_none payload)))
          (store_reply r s (send service settings payload s.wire))
  unfolding send
  send-Ends r s none made = store_local_order-IsRefused r "broker_error" (idempotency_key r) _ _
  send-Ends r s (some payload) made =
      both_cases (λ reason out. Ends r s reason (store_reply r s out))
        (has_credentials service settings) (λ known. post_and_poll-IsSent r s payload made)
        λ unknown.
          store_local_order-IsRefused r "missing_credentials" (idempotency_key r) _
            (record (tick service s) { wire = s.wire })

  broker_new-Ends :
      (r : PaperOptionOrderRequest F) (reason : Option String) (s : OptionBroker F)
      → Ends r s (refusal reason r) (broker_new service settings r reason s)
  unfolding broker_new
  broker_new-Ends r (some reason) s =
      store_local_order-IsRefused r reason (idempotency_key r) _ (tick service s)
  broker_new-Ends r none s =
      subst
        (λ named. Ends r s (unsendable named) (
          store_reply r s
            (send service settings (alpaca_order_payload r (idempotency_key r)) s.wire)))
        (alpaca_order_payload-named r (idempotency_key r)) (send-Ends r s _ refl)

  -- A call for a new key against the service always ends. Where a rule forbids the request, where it names no
  -- instrument or where a key of the service is missing, tested in this order, the answer is an order that is
  -- rejected with the reason, and nothing is sent or filled. Otherwise exactly one order is sent, with at most
  -- one request more than the poll attempts. An order is stored with the status and the reason of the service's answer
  -- to the last request; a request that raises counts as a rejection for `broker_error`. Where that answer is filled,
  -- with a quantity and a price that are not zero, one execution of the order is booked, over the reported quantity
  -- rounded to an integer and at the reported price with the sign of the limit; the call raises exactly where that
  -- quantity has no integer, with no execution. Any other answer books no execution. Where it does not raise, the call
  -- gives the stored order.
  pub submit_order-Ends :
      (r : PaperOptionOrderRequest F) (s : OptionBroker F)
      → uses_broker service settings ≡ true
      → lookup (idempotency_key r) s.orders_by_key ≡ none
      → Ends r s (refusal (rejection_reason r) r) (submit_order service settings r s)
  unfolding submit_order broker_or_find
  submit_order-Ends r s remote new = rw (remote, new) (broker_new-Ends r _ s)
