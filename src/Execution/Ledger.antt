-- ===== src/Execution/Ledger.antt =====
-- The repository behind the execution of stock decisions and the reconciliation of late fills: no id stands twice, and an
-- execution that was stored stays.
use equity_research_agent.Prelude.{
  ◌≡◌, sym, ◌∙◌, ap, List, [], ◌∷◌, ◌++◌, append-nil, append_assoc, Option, none, some, if_cases,
}
use equity_research_agent.Prelude.Unique.{Unique, replaced-Unique, append-Unique}
use equity_research_agent.Float.{Float}
use equity_research_agent.Risk.Decision.{RiskDecisionRecord}
use equity_research_agent.StockBroker.Records.{
  PaperOrderRecord, PaperExecutionRecord, Service, Settings, Broker,
}
use equity_research_agent.StockBroker.Orders.{Answer, answered, raised, submit_order, refresh_order}
use equity_research_agent.Execution.Attempts.{TradingDecisionRecord, ExecutionAttemptRecord}
use equity_research_agent.Execution.Store.{
  Repository, save_paper_order, has_paper_execution, has_paper_execution_for_order_id,
  save_paper_execution, save_execution_attempt, load_refreshable_paper_orders,
}
use equity_research_agent.Execution.Stock.{
  Environment, Workflow, StockEnding, Gate, blocked, passed, gate, save_attempt, keep_fill,
  keep_refreshed, with_submitted, with_refreshed, after_refresh, find_fill, after_submit,
  request_for, pass_gate, execute_stock_decision,
}
use equity_research_agent.Execution.Reconcile.{
  Books, Run, books_of, keep_late, after_late, reconcile_each, reconcile_late_stock_order_fills,
}

-- No two orders, executions or attempts of the repository have the same id.
pub record HasUniqueIds {F : Type 0} (r : Repository F) : Type 0 where
  pub orders_unique : Unique (λ (o : PaperOrderRecord F). o.paper_order_id) r.paper_orders
  pub executions_unique :
      Unique (λ (e : PaperExecutionRecord F). e.paper_execution_id) r.paper_executions
  pub attempts_unique :
      Unique (λ (a : ExecutionAttemptRecord). a.execution_attempt_id) r.execution_attempts

-- the executions of the first repository are all in the second, in front
abbrev pub Extends : {F : Type 0} → Repository F → Repository F → Type 0
Extends {F} r z =
    (later : List (PaperExecutionRecord F)) × (z.paper_executions ≡ r.paper_executions ++ later)

-- what any saves make of a repository
data Saved {F : Type 0} (r : Repository F) : Repository F → Type 0 where
  unchanged : Saved r r
  order : {z : Repository F} → (o : PaperOrderRecord F) → Saved r z → Saved r (save_paper_order o z)
  execution :
      {z : Repository F}
      → (e : PaperExecutionRecord F) → Saved r z
      → Saved r (save_paper_execution e z)
  attempt :
      {z : Repository F}
      → (a : ExecutionAttemptRecord) → Saved r z
      → Saved r (save_execution_attempt a z)

Saved-trans : {F : Type 0} {r y z : Repository F} → Saved r y → Saved y z → Saved r z
Saved-trans h unchanged = h
Saved-trans h (order o k) = order o (Saved-trans h k)
Saved-trans h (execution e k) = execution e (Saved-trans h k)
Saved-trans h (attempt a k) = attempt a (Saved-trans h k)

save_paper_execution-HasUniqueIds :
    {F : Type 0} (e : PaperExecutionRecord F) (z : Repository F)
    → HasUniqueIds z
    → HasUniqueIds (save_paper_execution e z)
unfolding save_paper_execution
save_paper_execution-HasUniqueIds {F} e z h = record {
  orders_unique = h.orders_unique;
  executions_unique =
      if_cases (Unique (λ (x : PaperExecutionRecord F). x.paper_execution_id))
        (has_paper_execution e.paper_execution_id z) _ _ (λ known. h.executions_unique)
        (λ new. append-Unique _ e z.paper_executions new h.executions_unique);
  attempts_unique = h.attempts_unique;
}

Saved-HasUniqueIds : {F : Type 0} {r z : Repository F} → Saved r z → HasUniqueIds r → HasUniqueIds z
unfolding save_paper_order save_execution_attempt
Saved-HasUniqueIds unchanged h = h
Saved-HasUniqueIds (order {z} o k) h =
    let before = Saved-HasUniqueIds k h in
    record {
      orders_unique = replaced-Unique _ o z.paper_orders before.orders_unique;
      executions_unique = before.executions_unique;
      attempts_unique = before.attempts_unique;
    }
Saved-HasUniqueIds (execution {z} e k) h =
    save_paper_execution-HasUniqueIds e z (Saved-HasUniqueIds k h)
Saved-HasUniqueIds (attempt {z} a k) h =
    let before = Saved-HasUniqueIds k h in
    record {
      orders_unique = before.orders_unique;
      executions_unique = before.executions_unique;
      attempts_unique = replaced-Unique _ a z.execution_attempts before.attempts_unique;
    }

save_paper_execution-Extends :
    {F : Type 0} (e : PaperExecutionRecord F) (r z : Repository F)
    → Extends r z
    → Extends r (save_paper_execution e z)
unfolding save_paper_execution
save_paper_execution-Extends {F} e r z (later, same) =
    if_cases
      (λ (items : List (PaperExecutionRecord F)).
        (more : List (PaperExecutionRecord F)) × (items ≡ r.paper_executions ++ more))
      (has_paper_execution e.paper_execution_id z) _ _ (λ known. (later, same))
      λ new. (
        later ++ e ∷ [],
        ap (λ l. l ++ e ∷ []) same ∙ append_assoc {_} r.paper_executions later (e ∷ []),
      )

Saved-Extends : {F : Type 0} {r z : Repository F} → Saved r z → Extends r z
unfolding save_paper_order save_execution_attempt
Saved-Extends {r} unchanged = ([], sym (append-nil {_} r.paper_executions))
Saved-Extends (order o k) = Saved-Extends k
Saved-Extends {r} (execution {z} e k) = save_paper_execution-Extends e r z (Saved-Extends k)
Saved-Extends (attempt a k) = Saved-Extends k

module _ {F : Type 0} ⦃fl : Float F⦄ (env : Environment F) (d : TradingDecisionRecord) where
  keep_fill-Saved :
      (risk : RiskDecisionRecord F) (o : PaperOrderRecord F) (e : PaperExecutionRecord F)
      (s : Workflow F)
      → Saved s.repository (keep_fill env d risk o e s).1.repository
  unfolding keep_fill save_attempt
  keep_fill-Saved risk o e s =
      if_cases (λ (out : StockEnding F × Workflow F). Saved s.repository out.1.repository)
        (has_paper_execution e.paper_execution_id s.repository) _ _
        (λ known. attempt _ (order o unchanged))
        λ new. attempt _ (execution e (order o (attempt _ (execution e (order o unchanged)))))

  keep_refreshed-Saved :
      (risk : RiskDecisionRecord F) (o : PaperOrderRecord F)
      (found : Option (PaperExecutionRecord F)) (s : Workflow F)
      → Saved s.repository (keep_refreshed env d risk o found s).1.repository
  unfolding keep_refreshed save_attempt
  keep_refreshed-Saved risk o none s = attempt _ (order o (order o unchanged))
  keep_refreshed-Saved risk o (some e) s = keep_fill-Saved risk o e s

  after_refresh-Saved :
      (risk : RiskDecisionRecord F) (out : Answer F × Broker F) (s : Workflow F)
      → Saved s.repository (after_refresh env d risk out s).1.repository
  unfolding after_refresh
  after_refresh-Saved risk (raised, broker) s = unchanged
  after_refresh-Saved risk (answered o, broker) s =
      keep_refreshed-Saved risk o _ (with_refreshed o broker s)

  find_fill-Saved :
      (risk : RiskDecisionRecord F) (o : PaperOrderRecord F)
      (found : Option (PaperExecutionRecord F)) (s : Workflow F)
      → Saved s.repository (find_fill env d risk o found s).1.repository
  unfolding find_fill
  find_fill-Saved risk o (some e) s = keep_fill-Saved risk o e s
  find_fill-Saved risk o none s =
      after_refresh-Saved risk (refresh_order env.service env.settings o s.broker) s

  after_submit-Saved :
      (risk : RiskDecisionRecord F) (out : Answer F × Broker F) (s : Workflow F)
      → Saved s.repository (after_submit env d risk out s).1.repository
  unfolding after_submit
  after_submit-Saved risk (raised, broker) s = unchanged
  after_submit-Saved risk (answered o, broker) s =
      find_fill-Saved risk o _ (with_submitted o broker s)

  pass_gate-Saved :
      (g : Gate F) (s : Workflow F) → Saved s.repository (pass_gate env d g s).1.repository
  unfolding pass_gate save_attempt
  pass_gate-Saved (blocked reason risk_id) s = attempt _ unchanged
  pass_gate-Saved (passed risk) s =
      after_submit-Saved risk
        (submit_order env.service env.settings (request_for env d risk) s.broker) s

  execute_stock_decision-Saved :
      (given : Option (RiskDecisionRecord F)) (s : Workflow F)
      → Saved s.repository (execute_stock_decision env d given s).1.repository
  unfolding execute_stock_decision
  execute_stock_decision-Saved given s = pass_gate-Saved (gate d given) s

module _ {F : Type 0} ⦃fl : Float F⦄ (service : Service F) (settings : Settings F) where
  keep_late-Saved :
      (o : PaperOrderRecord F) (found : Option (PaperExecutionRecord F)) (b : Books F)
      → Saved b.repository (keep_late service settings o found b).repository
  unfolding keep_late
  keep_late-Saved o none b = order o unchanged
  keep_late-Saved o (some e) b =
      if_cases (λ (z : Books F). Saved b.repository z.repository)
        (has_paper_execution_for_order_id o.paper_order_id b.repository) _ _
        (λ known. order o unchanged) λ new. execution e (order o (execution e (order o unchanged)))

  after_late-Saved :
      (next : Books F → Run F) (out : Answer F × Broker F) (b : Books F)
      → ((y : Books F) → Saved y.repository (books_of (next y)).repository)
      → Saved b.repository (books_of (after_late service settings next out b)).repository
  unfolding after_late
  after_late-Saved next (raised, broker) b h = unchanged
  after_late-Saved next (answered o, broker) b h =
      Saved-trans (keep_late-Saved o _ (record b { broker = broker })) (h _)

  reconcile_each-Saved :
      (orders : List (PaperOrderRecord F)) (b : Books F)
      → Saved b.repository (books_of (reconcile_each service settings orders b)).repository
  unfolding reconcile_each
  reconcile_each-Saved [] b = unchanged
  reconcile_each-Saved (o ∷ orders) b =
      after_late-Saved (reconcile_each service settings orders)
        (refresh_order service settings o b.broker) b (reconcile_each-Saved orders)

  reconcile_late_stock_order_fills-Saved :
      (broker : Broker F) (r : Repository F)
      → Saved r (books_of (reconcile_late_stock_order_fills service settings broker r)).repository
  unfolding reconcile_late_stock_order_fills
  reconcile_late_stock_order_fills-Saved broker r =
      reconcile_each-Saved (load_refreshable_paper_orders r)
        (record { broker = broker; repository = r; metadata_by_ticker = [] })

  -- the reconciliation on the workflow's own broker and repository
  abbrev pub reconcile_workflow : Workflow F → Workflow F
  reconcile_workflow s =
      let books =
        books_of (reconcile_late_stock_order_fills service settings s.broker s.repository) in
      record s { broker = books.broker; repository = books.repository }

-- What executions and reconciliations make of a workflow, in any order; each may raise, and the service may answer
-- each one otherwise.
pub data Reaches {F : Type 0} ⦃fl : Float F⦄ (s : Workflow F) : Workflow F → Type 0 where
  stays : Reaches s s
  executes :
      {z : Workflow F}
      → (env : Environment F) (d : TradingDecisionRecord) (given : Option (RiskDecisionRecord F))
      → Reaches s z
      → Reaches s (execute_stock_decision env d given z).1
  reconciles :
      {z : Workflow F}
      → (service : Service F) (settings : Settings F) → Reaches s z
      → Reaches s (reconcile_workflow service settings z)

Reaches-Saved :
    {F : Type 0} ⦃fl : Float F⦄ {s z : Workflow F} → Reaches s z → Saved s.repository z.repository
Reaches-Saved stays = unchanged
Reaches-Saved (executes {z} env d given before) =
    Saved-trans (Reaches-Saved before) (execute_stock_decision-Saved env d given z)
Reaches-Saved (reconciles {z} service settings before) =
    Saved-trans (Reaches-Saved before)
      (reconcile_late_stock_order_fills-Saved service settings z.broker z.repository)

-- From a repository without double ids, any sequence of executions and reconciliations, also where some of them
-- raise, leads to one without double ids: an order that is saved again replaces its former state, and a fill is
-- stored once. The executions that were stored before are still there, unchanged and in the same order.
pub Reaches-keeps :
    {F : Type 0} ⦃fl : Float F⦄ {s z : Workflow F}
    → HasUniqueIds s.repository
    → Reaches s z
    → HasUniqueIds z.repository × Extends s.repository z.repository
Reaches-keeps unique r =
    (Saved-HasUniqueIds (Reaches-Saved r) unique, Saved-Extends (Reaches-Saved r))
