-- ===== src/StockBroker/Posts.antt =====
-- What `submit_order` of the paper stock broker sends to the service, and how often it and `refresh_order` ask.
use equity_research_agent.Prelude.{
  ◌+◌, ◌≤◌, String, ◌≡◌, refl, ◌∙◌, ap, ◌⊎◌, inl, inr, true, false, [], ◌∷◌, ◌++◌, Option, none,
  some, or_else, contains, lookup, arith, if_cases, eq_iff, same_text, false≢true,
}
use equity_research_agent.Float.{Float, zero_f}
use equity_research_agent.StockBroker.Records.{
  PaperOrderRequest, PaperOrderRecord, Payload, Service, Settings, Broker, Report, idempotency_key,
  rejection_reason, side_for_action, terminal_order_statuses,
}
use equity_research_agent.StockBroker.Store.{
  put_order, put_execution, store_local_order, is_new_fill, report_of,
}
use equity_research_agent.StockBroker.Polling.{Polled, StopsWell, poll_until_terminal-Stops}
use equity_research_agent.StockBroker.Orders.{
  Answer, answered, raised, submit_order, submit_or_find, submit_new, send_order, keep_submitted,
  has_credentials, post, poll_until_terminal, fetch, refresh_order, keep_refreshed, request_of,
}

module _ {F : Type 0} ⦃fl : Float F⦄ where
  -- an order that may be sent, and its side: a long entry is bought, a reduction or an exit is sold
  abbrev pub IsAllowed : PaperOrderRequest F → String → Type 0
  IsAllowed r side =
      (same_text r.manual_request_mode "review_only" ≡ false)
      × (((r.action ≡ "enter_long") × (side ≡ "buy"))
          ⊎ ((r.action ≡ "reduce" ⊎ (r.action ≡ "exit")) × (side ≡ "sell")))
      × (fl.le r.quantity zero_f ≡ false)

  passed-IsAllowed :
      (r : PaperOrderRequest F) (side : String)
      → rejection_reason r ≡ none
      → side_for_action r.action ≡ some side
      → IsAllowed r side
  unfolding rejection_reason side_for_action
  passed-IsAllowed r side passed sided =
      ground (arith, eq_iff r.action "enter_long", eq_iff r.action "reduce", eq_iff r.action "exit")

  -- nothing was sent, or one allowed order
  abbrev pub SendsAllowed : PaperOrderRequest F → Broker F → Broker F → Type 0
  SendsAllowed r s z =
      (z.posts ≡ s.posts)
      ⊎ ((side : String) × IsAllowed r side
          × (lookup (idempotency_key r) s.orders_by_key ≡ none)
          × (z.posts
              ≡ s.posts
                ++ record {
                  symbol = r.ticker;
                  qty = r.quantity;
                  side = side;
                  client_order_id = idempotency_key r;
                }
                  ∷ []))

settled :
    (o : Option String) (default : String) {P Q : Type 0}
    → ((contains terminal_order_statuses (or_else o "") ≡ true) ⊎ P)
    → (P → Q)
    → (contains terminal_order_statuses (or_else o default) ≡ true) ⊎ Q
settled none default (inl h) f = absurd (false≢true h)
settled (some status) default (inl h) f = inl h
settled o default (inr p) f = inr (f p)

module _ {F : Type 0} ⦃fl : Float F⦄ (service : Service F) where
  put_execution-sends_nothing :
      (order : PaperOrderRecord F) (report : Report F) (s : Broker F)
      → let z = put_execution service order report s in
        (z.posts ≡ s.posts) × (z.requests ≡ s.requests)
  unfolding put_execution
  put_execution-sends_nothing order report s =
      if_cases (λ (z : Broker F). (z.posts ≡ s.posts) × (z.requests ≡ s.requests))
        (is_new_fill service order report s) _ s (λ new. (refl, refl)) λ old. (refl, refl)

  store_local_order-sends_nothing :
      (r : PaperOrderRequest F) (key : String) (report : Report F) (given : Option String)
      (s : Broker F)
      → let z = (store_local_order service r key report given s).1 in
        (z.posts ≡ s.posts) × (z.requests ≡ s.requests)
  unfolding store_local_order put_order
  store_local_order-sends_nothing r key report given s = put_execution-sends_nothing _ report _

module _ {F : Type 0} ⦃fl : Float F⦄ (service : Service F) (settings : Settings F) where
  abbrev pub Sends : PaperOrderRequest F → Broker F → Broker F → Type 0
  Sends r s z = SendsAllowed r s z × (z.requests ≤ s.requests + 1 + settings.max_poll_attempts)

  keep_submitted-sends_nothing :
      (r : PaperOrderRequest F) (got : Option (Payload F)) (s : Broker F)
      → let z = (keep_submitted service settings r got s).1 in
        (z.posts ≡ s.posts) × (z.requests ≡ s.requests)
  unfolding keep_submitted
  keep_submitted-sends_nothing r none s = (refl, refl)
  keep_submitted-sends_nothing r (some p) s = store_local_order-sends_nothing service r _ _ none _

  send_order-Sends :
      (r : PaperOrderRequest F) (side : Option String) (s : Broker F)
      → rejection_reason r ≡ none
      → lookup (idempotency_key r) s.orders_by_key ≡ none
      → side_for_action r.action ≡ side
      → Sends r s (send_order service settings r side s).1
  unfolding send_order
  send_order-Sends r none s passed new sided = (inl refl, omega arith)
  send_order-Sends r (some side) s passed new sided =
      if_cases (λ (out : Answer F × Broker F). Sends r s out.1) (has_credentials service settings) _
        _
        (λ known.
          let polled =
            (poll_until_terminal-Stops service settings (service.response s.requests)
              (post service settings r side s)).0 in
          let (posts, requests) = keep_submitted-sends_nothing r _ _ in
          (
            inr (side, passed-IsAllowed r side passed sided, new, posts ∙ polled.posts_kept),
            omega (arith, requests, polled.requests_bounded),
          ))
        λ unknown. (inl refl, omega arith)

  submit_new-Sends :
      (r : PaperOrderRequest F) (reason : Option String) (s : Broker F)
      → rejection_reason r ≡ reason
      → lookup (idempotency_key r) s.orders_by_key ≡ none
      → Sends r s (submit_new service settings r reason s).1
  unfolding submit_new
  submit_new-Sends r none s e new = send_order-Sends r _ s e new refl
  submit_new-Sends r (some reason) s e new =
      let (posts, requests) = store_local_order-sends_nothing service r _ _ none _ in
      (inl posts, omega (arith, requests))

  submit_or_find-Sends :
      (r : PaperOrderRequest F) (known : Option (PaperOrderRecord F)) (s : Broker F)
      → lookup (idempotency_key r) s.orders_by_key ≡ known
      → Sends r s (submit_or_find service settings r known s).1
  unfolding submit_or_find
  submit_or_find-Sends r none s e = submit_new-Sends r _ s refl e
  submit_or_find-Sends r (some order) s e = (inl refl, omega arith)

  -- A call sends nothing, or exactly one order. It is sent only for a key that has no order yet, never for a
  -- request that is `review_only`, and only with a quantity that is not `<= 0`. An `enter_long` is bought and a
  -- `reduce` or an `exit` is sold; no other action is sent. The call makes at most one request more than the poll
  -- attempts.
  pub submit_order-Sends :
      (r : PaperOrderRequest F) (s : Broker F) → Sends r s (submit_order service settings r s).1
  unfolding submit_order
  submit_order-Sends r s = submit_or_find-Sends r _ s refl

  -- how `refresh_order` ends: with a terminal status or after the last attempt
  abbrev pub Settles : Broker F → Answer F × Broker F → Type 0
  Settles s (raised, z) = z.requests ≤ s.requests + 1 + settings.max_poll_attempts
  Settles s (answered order, z) =
      (z.requests ≤ s.requests + 1 + settings.max_poll_attempts)
      × ((contains terminal_order_statuses order.status ≡ true)
          ⊎ (z.requests ≡ s.requests + 1 + settings.max_poll_attempts))

  keep_refreshed-Settles :
      (order : PaperOrderRecord F) (s y : Broker F) (out : Option (Payload F) × Broker F)
      → y.requests ≤ s.requests + 1
      → Polled settings.max_poll_attempts y out.1
      → StopsWell settings.max_poll_attempts y out
      → ((out.0 ≡ none) ⊎ (y.requests ≡ s.requests + 1))
      → Settles s (keep_refreshed service settings order out.0 out.1)
  unfolding keep_refreshed store_local_order
  keep_refreshed-Settles order s y (none, z) one polled stops counted =
      omega (arith, polled.requests_bounded)
  keep_refreshed-Settles order s y (some p, z) one polled stops (inl nothing) = absurd (cc nothing)
  keep_refreshed-Settles order s y (some p, z) one polled stops (inr counted) =
      let (posts, requests) =
        store_local_order-sends_nothing service (request_of service settings order)
          order.client_order_id (report_of service p order.status order.created_at)
          (some order.paper_order_id) z in
      (
        omega (arith, requests, polled.requests_bounded),
        settled p.status order.status stops (λ last. omega (arith, requests)),
      )

  unanswered :
      (got : Option (Payload F)) (asked : Broker F) {P : Type 0}
      → ((got ≡ none) ⊎ P)
      → ((poll_until_terminal service settings got asked).0 ≡ none) ⊎ P
  unfolding poll_until_terminal
  unanswered got asked (inl e) =
      inl (ap (λ (g : Option (Payload F)). (poll_until_terminal service settings g asked).0) e)
  unanswered got asked (inr p) = inr p

  -- A call of `refresh_order` ends, with at most one request more than the poll attempts. If it gives an order, the
  -- status of the order is terminal, or all poll attempts were used.
  pub refresh_order-Settles :
      (order : PaperOrderRecord F) (s : Broker F)
      → Settles s (refresh_order service settings order s)
  unfolding refresh_order
  refresh_order-Settles order s =
      let (got, asked) = fetch service settings s in
      let (polled, stops) = poll_until_terminal-Stops service settings got asked in
      keep_refreshed-Settles order s asked (poll_until_terminal service settings got asked)
        (ground arith) polled stops (unanswered got asked (ground arith))

  keep_refreshed-posts :
      (order : PaperOrderRecord F) (got : Option (Payload F)) (s : Broker F)
      → (keep_refreshed service settings order got s).1.posts ≡ s.posts
  unfolding keep_refreshed
  keep_refreshed-posts order none s = refl
  keep_refreshed-posts order (some p) s =
      (store_local_order-sends_nothing service (request_of service settings order) _ _ _ s).0

  -- a refresh sends no order
  pub refresh_order-posts :
      (order : PaperOrderRecord F) (s : Broker F)
      → (refresh_order service settings order s).1.posts ≡ s.posts
  unfolding refresh_order
  refresh_order-posts order s =
      let (got, asked) = fetch service settings s in
      keep_refreshed-posts order _ _
      ∙ (poll_until_terminal-Stops service settings got asked).0.posts_kept
