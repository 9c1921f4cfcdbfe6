-- ===== src/Execution/Audit.antt =====
-- How the execution of a stock decision accounts for itself: the attempt, the order and the fill that it stores.
use equity_research_agent.Prelude.{
  ◌==◌, ◌≡◌, refl, ◌∙◌, ap, ◌⊎◌, inl, inr, true, List, [], ◌∷◌, ◌++◌, Option, none, some, any_of,
  any_of-append, Occurs, if_cases, eq_refl,
}
use equity_research_agent.Float.{Float}
use equity_research_agent.Risk.Decision.{RiskDecisionRecord}
use equity_research_agent.StockBroker.Records.{PaperOrderRecord, PaperExecutionRecord, Broker}
use equity_research_agent.StockBroker.Orders.{
  Answer, answered, raised, refresh_order, find_execution_by_order_id,
}
use equity_research_agent.Execution.Attempts.{TradingDecisionRecord, ExecutionAttemptRecord}
use equity_research_agent.Execution.Store.{
  Repository, save_paper_order, has_paper_execution, save_paper_execution, save_execution_attempt,
  persist_irreversible_stock_fill,
}
use equity_research_agent.Execution.Stock.{
  Environment, Workflow, StockEnding, returned, syncs, aborted, Gate, blocked, passed, gate,
  save_attempt, with_submitted, with_refreshed, submitted_attempt, keep_fill, keep_refreshed,
  after_refresh, find_fill, after_submit, pass_gate, execute_stock_decision,
}

module _ {F : Type 0} where
  -- the order is in the repository
  abbrev pub HasOrder : PaperOrderRecord F → Workflow F → Type 0
  HasOrder order z = Occurs order z.repository.paper_orders

  -- An attempt at an order that was placed: it is submitted where the broker knows an execution of the order, which
  -- the repository then has, and skipped as unfilled where it knows none.
  abbrev pub IsPlaced : Workflow F → ExecutionAttemptRecord → Type 0
  IsPlaced z attempt =
      (order : PaperOrderRecord F) × HasOrder order z
      × (((attempt.outcome ≡ "skipped")
            × (attempt.reason_code ≡ "no_fill")
            × (find_execution_by_order_id order.paper_order_id z.broker ≡ none))
          ⊎ ((execution : PaperExecutionRecord F) × (attempt.outcome ≡ "submitted")
              × (attempt.paper_order_id ≡ some order.paper_order_id)
              × (find_execution_by_order_id order.paper_order_id z.broker ≡ some execution)
              × (has_paper_execution execution.paper_execution_id z.repository ≡ true)))

  -- exactly one attempt was saved, and it is as told
  abbrev pub Saves : (ExecutionAttemptRecord → Type 0) → Workflow F → Workflow F → Type 0
  Saves P s z =
      (attempt : ExecutionAttemptRecord) × (z.attempts ≡ s.attempts ++ attempt ∷ [])
      × Occurs attempt z.repository.execution_attempts
      × P attempt

  abbrev pub IsUnsaved : Workflow F → Workflow F → Type 0
  IsUnsaved s z = (z.attempts ≡ s.attempts) × (z.repository ≡ s.repository)

  -- how a call that passed the tests ends
  abbrev pub EndsPlaced : Workflow F → StockEnding F × Workflow F → Type 0
  EndsPlaced s (aborted, z) = IsUnsaved s z
  EndsPlaced s (returned, z) = Saves (IsPlaced z) s z
  EndsPlaced s (syncs execution, z) = Saves (IsPlaced z) s z

  -- how a call ends, by what the tests in front of the broker give
  abbrev pub EndsGated : Gate F → Workflow F → StockEnding F × Workflow F → Type 0
  EndsGated (blocked reason risk_id) s out =
      (out.0 ≡ returned)
      × (out.1.broker ≡ s.broker)
      × (out.1.repository.paper_orders ≡ s.repository.paper_orders)
      × Saves (λ attempt. (attempt.outcome ≡ "skipped") × (attempt.reason_code ≡ reason)) s out.1
  EndsGated (passed risk) s out = EndsPlaced s out

  save_paper_execution-has :
      (execution : PaperExecutionRecord F) (s : Repository F)
      → has_paper_execution execution.paper_execution_id (save_paper_execution execution s) ≡ true
  unfolding save_paper_execution
  save_paper_execution-has execution s =
      if_cases
        (λ (items : List (PaperExecutionRecord F)).
          any_of
            (λ (item : PaperExecutionRecord F).
              item.paper_execution_id == execution.paper_execution_id)
            items
          ≡ true)
        (has_paper_execution execution.paper_execution_id s) _ _ (λ known. known)
        λ new.
          any_of-append _ execution s.paper_executions [] (eq_refl execution.paper_execution_id)

  save_paper_order-HasOrder :
      (order : PaperOrderRecord F) (s : Repository F)
      → Occurs order (save_paper_order order s).paper_orders
  unfolding save_paper_order
  save_paper_order-HasOrder order s = (_, [], refl)

module _ {F : Type 0} ⦃fl : Float F⦄ (env : Environment F) (d : TradingDecisionRecord) where
  -- the repository before the execution is saved for the second time
  abbrev stored :
      RiskDecisionRecord F → PaperOrderRecord F → PaperExecutionRecord F → Workflow F → Repository F
  stored risk order execution s = save_paper_order order (
      persist_irreversible_stock_fill order execution (submitted_attempt env d risk order s)
        s.repository)

  keep_fill-EndsPlaced :
      (risk : RiskDecisionRecord F) (order : PaperOrderRecord F)
      (execution : PaperExecutionRecord F) (s : Workflow F)
      → find_execution_by_order_id order.paper_order_id s.broker ≡ some execution
      → EndsPlaced s (keep_fill env d risk order execution s)
  unfolding keep_fill save_attempt save_execution_attempt save_paper_order save_paper_execution
  keep_fill-EndsPlaced risk order execution s found =
      if_cases (EndsPlaced s) (has_paper_execution execution.paper_execution_id s.repository) _ _
        (λ known. (
          _,
          refl,
          (_, [], refl),
          (order, (_, [], refl), inr (execution, refl, refl, found, known)),
        ))
        λ new. (
          _,
          refl,
          (_, [], refl),
          (
            order,
            (_, [], refl),
            inr (
              execution,
              refl,
              refl,
              found,
              save_paper_execution-has execution (stored risk order execution s),
            ),
          ),
        )

  keep_refreshed-EndsPlaced :
      (risk : RiskDecisionRecord F) (order : PaperOrderRecord F)
      (execution : Option (PaperExecutionRecord F)) (s : Workflow F)
      → find_execution_by_order_id order.paper_order_id s.broker ≡ execution
      → EndsPlaced s (keep_refreshed env d risk order execution s)
  unfolding keep_refreshed save_attempt save_execution_attempt save_paper_order
  keep_refreshed-EndsPlaced risk order none s found =
      (_, refl, (_, [], refl), (order, (_, [], refl), inl (refl, refl, found)))
  keep_refreshed-EndsPlaced risk order (some execution) s found =
      keep_fill-EndsPlaced risk order execution s found

  -- what a call does to the broker and to the orders, before it saves, leaves the rest alone
  moved-EndsPlaced :
      (s y : Workflow F) (out : StockEnding F × Workflow F)
      → y.attempts ≡ s.attempts
      → y.repository ≡ s.repository
      → EndsPlaced y out
      → EndsPlaced s out
  moved-EndsPlaced s y (aborted, z) e k (same, kept) = (same ∙ e, kept ∙ k)
  moved-EndsPlaced s y (returned, z) e k (attempt, added, saved, placed) =
      (attempt, added ∙ ap (λ l. l ++ attempt ∷ []) e, saved, placed)
  moved-EndsPlaced s y (syncs execution, z) e k (attempt, added, saved, placed) =
      (attempt, added ∙ ap (λ l. l ++ attempt ∷ []) e, saved, placed)

  after_refresh-EndsPlaced :
      (risk : RiskDecisionRecord F) (out : Answer F × Broker F) (s : Workflow F)
      → EndsPlaced s (after_refresh env d risk out s)
  unfolding after_refresh
  after_refresh-EndsPlaced risk (raised, broker) s = (refl, refl)
  after_refresh-EndsPlaced risk (answered order, broker) s =
      moved-EndsPlaced s (with_refreshed order broker s) _ refl refl
        (keep_refreshed-EndsPlaced risk order _ _ refl)

  find_fill-EndsPlaced :
      (risk : RiskDecisionRecord F) (order : PaperOrderRecord F)
      (execution : Option (PaperExecutionRecord F)) (s : Workflow F)
      → find_execution_by_order_id order.paper_order_id s.broker ≡ execution
      → EndsPlaced s (find_fill env d risk order execution s)
  unfolding find_fill
  find_fill-EndsPlaced risk order (some execution) s found =
      keep_fill-EndsPlaced risk order execution s found
  find_fill-EndsPlaced risk order none s found =
      after_refresh-EndsPlaced risk (refresh_order env.service env.settings order s.broker) s

  after_submit-EndsPlaced :
      (risk : RiskDecisionRecord F) (out : Answer F × Broker F) (s : Workflow F)
      → EndsPlaced s (after_submit env d risk out s)
  unfolding after_submit
  after_submit-EndsPlaced risk (raised, broker) s = (refl, refl)
  after_submit-EndsPlaced risk (answered order, broker) s =
      moved-EndsPlaced s (with_submitted order broker s) _ refl refl
        (find_fill-EndsPlaced risk order _ _ refl)

  pass_gate-EndsGated : (g : Gate F) (s : Workflow F) → EndsGated g s (pass_gate env d g s)
  unfolding pass_gate save_attempt save_execution_attempt
  pass_gate-EndsGated (blocked reason risk_id) s =
      (refl, refl, refl, (_, refl, (_, [], refl), (refl, refl)))
  pass_gate-EndsGated (passed risk) s = after_submit-EndsPlaced risk _ s

  -- The execution of a decision saves exactly one attempt unless it raises, and then it saves nothing. A decision that
  -- a test blocks is skipped with the reason of the first such test, and the broker is not touched. For any other the
  -- order is stored; the attempt is submitted if the broker knows an execution of the order, which is stored too,
  -- and skipped as `no_fill` if it knows none.
  pub execute_stock_decision-EndsGated :
      (given : Option (RiskDecisionRecord F)) (s : Workflow F)
      → EndsGated (gate d given) s (execute_stock_decision env d given s)
  unfolding execute_stock_decision
  execute_stock_decision-EndsGated given s = pass_gate-EndsGated (gate d given) s
