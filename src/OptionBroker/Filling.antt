-- ===== src/OptionBroker/Filling.antt =====
-- What `_store_local_order` of the paper option broker stores and books for a report.
use equity_research_agent.Prelude.{
  false, List, String, ◌==◌, ◌≡◌, refl, subst, ap, ◌⊎◌, inl, inr, Bool, true, ◌&&◌, [], ◌∷◌, ◌++◌,
  Option, none, some, or_else, arith, if_cases,
}
use equity_research_agent.Prelude.Int.{ℤ}
use equity_research_agent.Float.{Float, zero_f}
use equity_research_agent.StockBroker.Records.{Service, Report, is_nonzero}
use equity_research_agent.OptionBroker.Records.{
  PaperOptionOrderRequest, PaperOptionOrderRecord, PaperOptionExecutionRecord, OptionBroker,
}
use equity_research_agent.OptionBroker.Payloads.{signed_fill_price}
use equity_research_agent.OptionBroker.Orders.{
  Answer, answered, raised, order_of, execution_of, put_order, put_execution, put_fill, is_fill,
  store_local_order,
}

module _ {F : Type 0} ⦃fl : Float F⦄ where
  -- The books after a fill, given the integer of the reported quantity: without one the call raises and no execution
  -- is booked; else one execution of the order is, over that integer and at the price with the sign of the limit.
  abbrev pub BooksFill :
      PaperOptionOrderRecord F
      → F
      → Option ℤ
      → List (PaperOptionExecutionRecord F)
      → Answer F × OptionBroker F
      → Type 0
  BooksFill order price none booked out = (out.0 ≡ raised) × (out.1.executions ≡ booked)
  BooksFill order price (some n) booked out =
      (e : PaperOptionExecutionRecord F) × (out.0 ≡ answered order)
      × (out.1.executions ≡ booked ++ e ∷ [])
      × (e.paper_option_order_id ≡ order.paper_option_order_id)
      × (e.quantity ≡ n)
      × (e.fill_price ≡ signed_fill_price order.limit_price price)
      × (e.net_cash_effect ≡ fl.neg (fl.times (fl.times (fl.of_int n) e.fill_price) (fl.lit 100 0)))

  -- whether a report has the status `filled` and a quantity and a price that are not zero
  abbrev pub reports_fill : Report F → Bool
  reports_fill report =
      report.status == "filled"
      && is_nonzero report.filled_qty
      && is_nonzero report.filled_avg_price

  -- a fill is booked by its reported quantity and price, and any other report books no execution
  abbrev pub BooksReport :
      PaperOptionOrderRecord F → Report F → OptionBroker F → Answer F × OptionBroker F → Type 0
  BooksReport order report s out =
      ((reports_fill report ≡ false) × (out.0 ≡ answered order) × (out.1.executions ≡ s.executions))
      ⊎ ((reports_fill report ≡ true)
          × ((quantity : F) × (price : F) × (report.filled_qty ≡ some quantity)
              × (report.filled_avg_price ≡ some price)
              × BooksFill order price (fl.round_int quantity) s.executions out))

  -- the order with the status and the reason of the report, stored even where the call raises
  abbrev pub IsStored :
      PaperOptionOrderRequest F → Report F → OptionBroker F → Answer F × OptionBroker F → Type 0
  IsStored r report s out =
      (order : PaperOptionOrderRecord F) × (out.1.orders ≡ s.orders ++ order ∷ [])
      × (order.quantity ≡ r.quantity)
      × (order.status ≡ report.status)
      × (order.rejection_reason ≡ report.rejection_reason)
      × BooksReport order report s out

module _ {F : Type 0} ⦃fl : Float F⦄ (service : Service F) where
  nonzero-some : (o : Option F) → is_nonzero o ≡ true → (x : F) × (o ≡ some x)
  nonzero-some none h = absurd (ground arith)
  nonzero-some (some x) h = (x, refl)

  -- a fill, given the integer of its quantity
  put_fill-BooksFill :
      (order : PaperOptionOrderRecord F) (report : Report F) (price : F) (rounded : Option ℤ)
      (s : OptionBroker F)
      → report.filled_avg_price ≡ some price
      → BooksFill order price rounded s.executions (put_fill service order report rounded s)
  unfolding put_fill put_execution
  put_fill-BooksFill order report price none s e = (refl, refl)
  put_fill-BooksFill order report price (some n) s e = (
    execution_of service order report n s,
    refl,
    refl,
    refl,
    refl,
    ap (λ o. signed_fill_price order.limit_price (or_else o zero_f)) e,
    refl,
  )

  put_fill-keeps :
      (order : PaperOptionOrderRecord F) (report : Report F) (rounded : Option ℤ)
      (s : OptionBroker F)
      → let (answer, z) = put_fill service order report rounded s in
        (z.wire ≡ s.wire) × (z.orders ≡ s.orders)
  unfolding put_fill put_execution
  put_fill-keeps order report none s = (refl, refl)
  put_fill-keeps order report (some n) s = (refl, refl)

  filled-BooksReport :
      (order : PaperOptionOrderRecord F) (report : Report F) (s : OptionBroker F)
      → is_fill service report ≡ true
      → BooksReport order report s
          (put_fill service order report (fl.round_int (or_else report.filled_qty zero_f)) s)
  filled-BooksReport order report s h =
      let (quantity, known) = nonzero-some report.filled_qty (ground arith) in
      let (price, priced) = nonzero-some report.filled_avg_price (ground arith) in
      let out = put_fill service order report (fl.round_int (or_else report.filled_qty zero_f)) s in
      inr (
        h,
        (
          quantity,
          price,
          known,
          priced,
          subst (λ o. BooksFill order price (fl.round_int (or_else o zero_f)) s.executions out)
              known
              (put_fill-BooksFill order report price
                (fl.round_int (or_else report.filled_qty zero_f)) s priced),
        ),
      )

  pub store_local_order-IsStored :
      (r : PaperOptionOrderRequest F) (key : String) (report : Report F) (s : OptionBroker F)
      → let (answer, z) = store_local_order service r key report s in
        IsStored r report s (answer, z) × (z.wire ≡ s.wire)
  unfolding store_local_order put_order
  store_local_order-IsStored r key report s =
      let order = order_of service r key report (service.uuid4 s.fresh) in
      let stored = put_order service key order s in
      let rounded = fl.round_int (or_else report.filled_qty zero_f) in
      let (wire, orders) = put_fill-keeps order report rounded stored in
      if_cases
        (λ (out : Answer F × OptionBroker F). IsStored r report s out × (out.1.wire ≡ s.wire))
        (is_fill service report) (put_fill service order report rounded stored)
        (answered order, stored)
        (λ filled.
          ((order, orders, refl, refl, refl, filled-BooksReport order report stored filled), wire))
        λ open_order. ((order, refl, refl, refl, refl, inl (open_order, refl, refl)), refl)
