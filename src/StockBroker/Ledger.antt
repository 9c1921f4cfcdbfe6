-- ===== src/StockBroker/Ledger.antt =====
-- The books of the paper stock broker: its lists agree with its dictionaries after any calls.
use equity_research_agent.Prelude.{
  ℕ, String, ◌≡◌, refl, subst, sym, ◌∙◌, ap, true, List, [], ◌∷◌, ◌++◌, Option, none, some,
  if◌then◌else◌, is_none, Dict, lookup, insert, arith, inl, inr, if_cases, Option-cases,
}
use equity_research_agent.Prelude.Dicts.{
  values, Distinct, IsKeyed, insert-Distinct, insert-IsKeyed, values-insert_new, values-insert_old,
}
use equity_research_agent.Float.{Float}
use equity_research_agent.StockBroker.Records.{
  PaperOrderRequest, PaperOrderRecord, PaperExecutionRecord, Payload, Service, Settings, Broker,
  Report, initial,
}
use equity_research_agent.StockBroker.Store.{
  put_order, put_execution, store_local_order, replace_order, is_new_fill, new_execution,
}
use equity_research_agent.StockBroker.Polling.{Polled, poll_until_terminal-Stops}
use equity_research_agent.StockBroker.Orders.{
  post, has_credentials, Answer, submit_order, submit_or_find, submit_new, send_order,
  keep_submitted, refresh_order, keep_refreshed, poll_until_terminal, fetch,
}

abbrev pub order_key : {F : Type 0} → PaperOrderRecord F → String
order_key order = order.client_order_id

abbrev pub execution_key : {F : Type 0} → PaperExecutionRecord F → String
execution_key execution = execution.paper_order_id

-- The list of orders is the values of the dictionary, in its order, and each stands under its own client order
-- id, which no other order has. So too the executions, by the id of their order.
pub record AreBooks {F : Type 0} (orders : List (PaperOrderRecord F))
    (orders_by_key : Dict (PaperOrderRecord F)) (executions : List (PaperExecutionRecord F))
    (executions_by_order_id : Dict (PaperExecutionRecord F)) : Type 0 where
  pub orders_agree : orders ≡ values orders_by_key
  pub orders_keyed : IsKeyed order_key orders_by_key
  pub orders_distinct : Distinct orders_by_key
  pub executions_agree : executions ≡ values executions_by_order_id
  pub executions_keyed : IsKeyed execution_key executions_by_order_id
  pub executions_distinct : Distinct executions_by_order_id

abbrev pub IsLedger : {F : Type 0} → Broker F → Type 0
IsLedger s = AreBooks s.orders s.orders_by_key s.executions s.executions_by_order_id

put_order-agree :
    {F : Type 0} (order : PaperOrderRecord F) (orders : List (PaperOrderRecord F))
    (d : Dict (PaperOrderRecord F))
    → orders ≡ values d
    → IsKeyed order_key d
    → Distinct d
    → (if is_none (lookup order.client_order_id d)
        then orders ++ order ∷ []
        else replace_order order orders)
      ≡ values (insert order.client_order_id order d)
put_order-agree order orders d agree keyed distinct =
    elim (Option-cases (lookup order.client_order_id d)) [
      | inl absent ↦ rw absent (
          ap (λ l. l ++ order ∷ []) agree
          ∙ sym (values-insert_new order.client_order_id order d absent))
      | inr (old, found) ↦ rw found (
          ap (replace_order order) agree
          ∙ values-insert_old order_key order old d keyed distinct found)
    ]

Polled-IsLedger : {F : Type 0} (n : ℕ) (s z : Broker F) → Polled n s z → IsLedger s → IsLedger z
Polled-IsLedger n s z p h = record {
  orders_agree = p.orders_kept ∙ h.orders_agree ∙ ap values (sym p.orders_by_key_kept);
  orders_keyed = subst (IsKeyed order_key) (sym p.orders_by_key_kept) h.orders_keyed;
  orders_distinct = subst Distinct (sym p.orders_by_key_kept) h.orders_distinct;
  executions_agree =
      p.executions_kept ∙ h.executions_agree ∙ ap values (sym p.executions_by_order_id_kept);
  executions_keyed =
      subst (IsKeyed execution_key) (sym p.executions_by_order_id_kept) h.executions_keyed;
  executions_distinct = subst Distinct (sym p.executions_by_order_id_kept) h.executions_distinct;
}

module _ {F : Type 0} ⦃fl : Float F⦄ (service : Service F) where
  put_order-IsLedger :
      (order : PaperOrderRecord F) (s : Broker F)
      → IsLedger s
      → IsLedger (put_order service order s)
  unfolding put_order
  put_order-IsLedger order s h = record {
    orders_agree =
        put_order-agree order s.orders s.orders_by_key h.orders_agree h.orders_keyed
          h.orders_distinct;
    orders_keyed = insert-IsKeyed order_key order s.orders_by_key h.orders_keyed;
    orders_distinct = insert-Distinct order.client_order_id order s.orders_by_key h.orders_distinct;
    executions_agree = h.executions_agree;
    executions_keyed = h.executions_keyed;
    executions_distinct = h.executions_distinct;
  }

  new_fill-absent :
      (order : PaperOrderRecord F) (report : Report F) (s : Broker F)
      → is_new_fill service order report s ≡ true
      → lookup order.paper_order_id s.executions_by_order_id ≡ none
  new_fill-absent order report s new =
      elim (Option-cases (lookup order.paper_order_id s.executions_by_order_id)) [
        | inl absent ↦ absent
        | inr (old, found) ↦ absurd (ground arith)
      ]

  put_execution-IsLedger :
      (order : PaperOrderRecord F) (report : Report F) (s : Broker F)
      → IsLedger s
      → IsLedger (put_execution service order report s)
  unfolding put_execution
  put_execution-IsLedger order report s h =
      if_cases IsLedger (is_new_fill service order report s) _ s
        (λ new. record {
          orders_agree = h.orders_agree;
          orders_keyed = h.orders_keyed;
          orders_distinct = h.orders_distinct;
          executions_agree =
              ap (λ l. l ++ new_execution service order report s ∷ []) h.executions_agree
              ∙ sym (
                  values-insert_new order.paper_order_id (new_execution service order report s)
                    s.executions_by_order_id (new_fill-absent order report s new));
          executions_keyed =
              insert-IsKeyed execution_key (new_execution service order report s)
                s.executions_by_order_id h.executions_keyed;
          executions_distinct =
              insert-Distinct order.paper_order_id _ s.executions_by_order_id h.executions_distinct;
        })
        λ old. h

  store_local_order-IsLedger :
      (r : PaperOrderRequest F) (key : String) (report : Report F) (given : Option String)
      (s : Broker F)
      → IsLedger s
      → IsLedger (store_local_order service r key report given s).1
  unfolding store_local_order
  store_local_order-IsLedger r key report given s h =
      put_execution-IsLedger _ report _ (put_order-IsLedger _ _ h)

module _ {F : Type 0} ⦃fl : Float F⦄ (service : Service F) (settings : Settings F) where
  polled-IsLedger :
      (got : Option (Payload F)) (s : Broker F)
      → IsLedger s
      → IsLedger (poll_until_terminal service settings got s).1
  polled-IsLedger got s h =
      Polled-IsLedger settings.max_poll_attempts s _
        (poll_until_terminal-Stops service settings got s).0 h

  keep_submitted-IsLedger :
      (r : PaperOrderRequest F) (got : Option (Payload F)) (s : Broker F)
      → IsLedger s
      → IsLedger (keep_submitted service settings r got s).1
  unfolding keep_submitted
  keep_submitted-IsLedger r none s h = h
  keep_submitted-IsLedger r (some p) s h = store_local_order-IsLedger service r _ _ none _ h

  send_order-IsLedger :
      (r : PaperOrderRequest F) (side : Option String) (s : Broker F)
      → IsLedger s
      → IsLedger (send_order service settings r side s).1
  unfolding send_order
  send_order-IsLedger r none s h = h
  send_order-IsLedger r (some side) s h =
      if_cases (λ (out : Answer F × Broker F). IsLedger out.1) (has_credentials service settings) _
        _
        (λ known.
          keep_submitted-IsLedger r _ _
            (polled-IsLedger (service.response s.requests) (post service settings r side s) h))
        λ unknown. h

  submit_new-IsLedger :
      (r : PaperOrderRequest F) (reason : Option String) (s : Broker F)
      → IsLedger s
      → IsLedger (submit_new service settings r reason s).1
  unfolding submit_new
  submit_new-IsLedger r none s h = send_order-IsLedger r _ s h
  submit_new-IsLedger r (some reason) s h = store_local_order-IsLedger service r _ _ none _ h

  submit_or_find-IsLedger :
      (r : PaperOrderRequest F) (known : Option (PaperOrderRecord F)) (s : Broker F)
      → IsLedger s
      → IsLedger (submit_or_find service settings r known s).1
  unfolding submit_or_find
  submit_or_find-IsLedger r none s h = submit_new-IsLedger r _ s h
  submit_or_find-IsLedger r (some order) s h = h

  submit_order-IsLedger :
      (r : PaperOrderRequest F) (s : Broker F)
      → IsLedger s
      → IsLedger (submit_order service settings r s).1
  unfolding submit_order
  submit_order-IsLedger r s h = submit_or_find-IsLedger r _ s h

  keep_refreshed-IsLedger :
      (order : PaperOrderRecord F) (got : Option (Payload F)) (s : Broker F)
      → IsLedger s
      → IsLedger (keep_refreshed service settings order got s).1
  unfolding keep_refreshed
  keep_refreshed-IsLedger order none s h = h
  keep_refreshed-IsLedger order (some p) s h = store_local_order-IsLedger service _ _ _ _ _ h

  refresh_order-IsLedger :
      (order : PaperOrderRecord F) (s : Broker F)
      → IsLedger s
      → IsLedger (refresh_order service settings order s).1
  unfolding refresh_order
  refresh_order-IsLedger order s h =
      keep_refreshed-IsLedger order _ _ (polled-IsLedger _ (fetch service settings s).1 h)

-- The brokers that a program can have: a fresh one, and what calls make of it. The service may answer each
-- call otherwise.
pub data Reachable {F : Type 0} ⦃fl : Float F⦄ : Broker F → Type 0 where
  starts : Reachable initial
  submits :
      {s : Broker F}
      → (service : Service F) (settings : Settings F) (r : PaperOrderRequest F) → Reachable s
      → Reachable (submit_order service settings r s).1
  refreshes :
      {s : Broker F}
      → (service : Service F) (settings : Settings F) (order : PaperOrderRecord F) → Reachable s
      → Reachable (refresh_order service settings order s).1

-- After any sequence of `submit_order` and `refresh_order` calls, also where some of them raised, the books agree:
-- the orders and the executions are the values of their dictionaries, in the same order. No two orders have
-- the same client order id, and no order has two executions.
pub Reachable-IsLedger : {F : Type 0} ⦃fl : Float F⦄ {s : Broker F} → Reachable s → IsLedger s
Reachable-IsLedger starts = record {
  orders_agree = refl;
  orders_keyed = tt;
  orders_distinct = tt;
  executions_agree = refl;
  executions_keyed = tt;
  executions_distinct = tt;
}
Reachable-IsLedger (submits {s} service settings r before) =
    submit_order-IsLedger service settings r s (Reachable-IsLedger before)
Reachable-IsLedger (refreshes {s} service settings order before) =
    refresh_order-IsLedger service settings order s (Reachable-IsLedger before)
