-- ===== src/StockBroker/Idempotency.antt =====
-- `submit_order` of the paper stock broker, called again with the same idempotency key.
use equity_research_agent.Prelude.{
  String, ◌≡◌, refl, subst, ◌∙◌, ap, Option, none, some, lookup, lookup-insert, if_cases, eq_refl,
}
use equity_research_agent.Float.{Float}
use equity_research_agent.StockBroker.Records.{
  PaperOrderRequest, PaperOrderRecord, Payload, Service, Settings, Broker, Report, idempotency_key,
}
use equity_research_agent.StockBroker.Store.{
  put_order, put_execution, store_local_order, is_new_fill,
}
use equity_research_agent.StockBroker.Orders.{
  Answer, answered, raised, submit_order, submit_or_find, submit_new, send_order, keep_submitted,
  has_credentials,
}

-- an order that was answered is the one that its key has
abbrev Knows : {F : Type 0} → String → Answer F × Broker F → Type 0
Knows key (raised, z) = Unit
Knows key (answered order, z) = lookup key z.orders_by_key ≡ some order

module _ {F : Type 0} ⦃fl : Float F⦄ (service : Service F) where
  put_execution-keeps_orders :
      (order : PaperOrderRecord F) (report : Report F) (s : Broker F)
      → (put_execution service order report s).orders_by_key ≡ s.orders_by_key
  unfolding put_execution
  put_execution-keeps_orders order report s =
      if_cases (λ (z : Broker F). z.orders_by_key ≡ s.orders_by_key)
        (is_new_fill service order report s) _ s (λ new. refl) λ old. refl

  store_local_order-Knows :
      (r : PaperOrderRequest F) (key : String) (report : Report F) (given : Option String)
      (s : Broker F)
      → let (order, z) = store_local_order service r key report given s in
        lookup key z.orders_by_key ≡ some order
  unfolding store_local_order put_order
  store_local_order-Knows r key report given s =
      ap (lookup key) (put_execution-keeps_orders _ report _)
      ∙ lookup-insert key key _ s.orders_by_key
      ∙ rw (eq_refl key) refl

module _ {F : Type 0} ⦃fl : Float F⦄ (service : Service F) (settings : Settings F) where
  keep_submitted-Knows :
      (r : PaperOrderRequest F) (got : Option (Payload F)) (s : Broker F)
      → Knows (idempotency_key r) (keep_submitted service settings r got s)
  unfolding keep_submitted
  keep_submitted-Knows r none s = tt
  keep_submitted-Knows r (some p) s = store_local_order-Knows service r (idempotency_key r) _ none _

  send_order-Knows :
      (r : PaperOrderRequest F) (side : Option String) (s : Broker F)
      → Knows (idempotency_key r) (send_order service settings r side s)
  unfolding send_order
  send_order-Knows r none s = tt
  send_order-Knows r (some side) s =
      if_cases (Knows (idempotency_key r)) (has_credentials service settings) _ _
        (λ known. keep_submitted-Knows r _ _) λ unknown. tt

  submit_new-Knows :
      (r : PaperOrderRequest F) (reason : Option String) (s : Broker F)
      → Knows (idempotency_key r) (submit_new service settings r reason s)
  unfolding submit_new
  submit_new-Knows r none s = send_order-Knows r _ s
  submit_new-Knows r (some reason) s =
      store_local_order-Knows service r (idempotency_key r) _ none _

  submit_or_find-Knows :
      (r : PaperOrderRequest F) (known : Option (PaperOrderRecord F)) (s : Broker F)
      → lookup (idempotency_key r) s.orders_by_key ≡ known
      → Knows (idempotency_key r) (submit_or_find service settings r known s)
  unfolding submit_or_find
  submit_or_find-Knows r none s e = submit_new-Knows r _ s
  submit_or_find-Knows r (some order) s e = e

  -- Once `submit_order` gave an order, each later call with the same date, ticker, strategy and action gives the
  -- very same order and changes nothing: nothing is sent or stored, whatever quantity it asks for and whatever
  -- the service would answer by then.
  pub submit_again :
      (r again : PaperOrderRequest F) (order : PaperOrderRecord F) (s z : Broker F)
      → submit_order service settings r s ≡ (answered order, z)
      → idempotency_key again ≡ idempotency_key r
      → (later : Service F) (changed : Settings F)
      → submit_order later changed again z ≡ (answered order, z)
  unfolding submit_order submit_or_find
  submit_again r again order s z ended same later changed =
      let known = subst (Knows (idempotency_key r)) ended (submit_or_find-Knows r _ s refl) in
      ap (λ (known : Option (PaperOrderRecord F)). submit_or_find later changed again known z)
        (ap (λ key. lookup key z.orders_by_key) same ∙ known)
