-- ===== src/Execution/Gate.antt =====
-- What the execution of a stock decision sends to the order service.
use equity_research_agent.Prelude.{
  String, ◌==◌, ◌≡◌, refl, ◌∙◌, ap, subst, ◌⊎◌, inl, inr, Bool, true, false, not, ◌&&◌, [], ◌∷◌,
  ◌++◌, Option, none, some, if◌then◌else◌, is_none, contains, arith, if_cases, eq_iff,
}
use equity_research_agent.Float.{Float}
use equity_research_agent.Risk.Decision.{RiskDecisionRecord}
use equity_research_agent.StockBroker.Records.{
  PaperOrderRecord, PaperExecutionRecord, Broker, idempotency_key,
}
use equity_research_agent.StockBroker.Orders.{Answer, answered, raised, submit_order, refresh_order}
use equity_research_agent.StockBroker.Posts.{IsAllowed, submit_order-Sends, refresh_order-posts}
use equity_research_agent.Execution.Attempts.{TradingDecisionRecord}
use equity_research_agent.Execution.Store.{has_paper_execution}
use equity_research_agent.Execution.Stock.{
  Environment, Workflow, StockEnding, Gate, blocked, passed, executable_actions, gate, risk_gate,
  save_attempt, keep_fill, keep_refreshed, after_refresh, find_fill, after_submit, request_for,
  pass_gate, execute_stock_decision,
}

either_authorized :
    (authorized missing : Bool)
    → (not authorized && missing) ≡ false
    → (authorized ≡ true) ⊎ (missing ≡ false)
either_authorized true missing h = inl refl
either_authorized false missing h = inr h

module _ {F : Type 0} ⦃fl : Float F⦄ where
  -- A decision that may become an order: one on a stock, authorized or asked for by hand, with a risk decision that
  -- approved or reduced it.
  pub record IsExecutable (d : TradingDecisionRecord) (given : Option (RiskDecisionRecord F))
      (risk : RiskDecisionRecord F) : Type 0 where
    pub is_stock : d.instrument_type ≡ "stock"
    pub is_authorized : (d.paper_trade_authorized ≡ true) ⊎ (is_none d.manual_request_id ≡ false)
    pub has_risk : given ≡ some risk
    pub is_approved : (risk.status ≡ "approved") ⊎ (risk.status ≡ "reduced")

  -- a test that does not block the decision is false
  not_blocked :
      (test : Bool) (reason : String) (risk_id : Option String) (g : Gate F)
      (risk : RiskDecisionRecord F)
      → (if test then blocked reason risk_id else g) ≡ passed risk
      → (test ≡ false) × (g ≡ passed risk)
  not_blocked true reason risk_id g risk e = absurd cc
  not_blocked false reason risk_id g risk e = (refl, e)

  was_passed :
      (test : Bool) (r risk : RiskDecisionRecord F) (reason : String) (risk_id : Option String)
      → (if test then passed r else blocked reason risk_id) ≡ passed risk
      → (test ≡ true) × (r ≡ risk)
  was_passed true r risk reason risk_id e = (refl, cc e)
  was_passed false r risk reason risk_id e = absurd cc

  approved_or_reduced :
      (risk : RiskDecisionRecord F)
      → contains ("approved" ∷ "reduced" ∷ []) risk.status ≡ true
      → (risk.status ≡ "approved") ⊎ (risk.status ≡ "reduced")
  approved_or_reduced risk h =
      ground (arith, eq_iff "approved" risk.status, eq_iff "reduced" risk.status)

  risk_gate-passed :
      (given : Option (RiskDecisionRecord F)) (risk : RiskDecisionRecord F)
      → risk_gate given ≡ passed risk
      → (given ≡ some risk) × ((risk.status ≡ "approved") ⊎ (risk.status ≡ "reduced"))
  risk_gate-passed none risk e = absurd cc
  risk_gate-passed (some r) risk e =
      let (known, same) =
        was_passed (contains ("approved" ∷ "reduced" ∷ []) r.status) r risk _ _ e in
      (
        ap some same,
        subst (λ (q : RiskDecisionRecord F). (q.status ≡ "approved") ⊎ (q.status ≡ "reduced")) same
            (approved_or_reduced r known),
      )

  gate-IsExecutable :
      (d : TradingDecisionRecord) (given : Option (RiskDecisionRecord F))
      (risk : RiskDecisionRecord F)
      → gate d given ≡ passed risk
      → IsExecutable d given risk
  unfolding gate
  gate-IsExecutable d given risk e =
      let (stock, past_stock) =
        not_blocked (not (d.instrument_type == "stock")) "instrument_mismatch" none _ risk e in
      let (action, past_action) =
        not_blocked (not (contains executable_actions d.decision)) "not_executable_action" none _
          risk past_stock in
      let (authorized, past_authorized) =
        not_blocked (not d.paper_trade_authorized && is_none d.manual_request_id) "not_authorized"
          none _ risk past_action in
      let (has, approved) = risk_gate-passed given risk past_authorized in
      record {
        is_stock = ground (arith, eq_iff d.instrument_type "stock");
        is_authorized =
            either_authorized d.paper_trade_authorized (is_none d.manual_request_id) authorized;
        has_risk = has;
        is_approved = approved;
      }

module _ {F : Type 0} ⦃fl : Float F⦄ (env : Environment F) (d : TradingDecisionRecord) where
  keep_fill-posts :
      (risk : RiskDecisionRecord F) (order : PaperOrderRecord F)
      (execution : PaperExecutionRecord F) (s : Workflow F)
      → (keep_fill env d risk order execution s).1.broker.posts ≡ s.broker.posts
  unfolding keep_fill save_attempt
  keep_fill-posts risk order execution s =
      if_cases (λ (out : StockEnding F × Workflow F). out.1.broker.posts ≡ s.broker.posts)
        (has_paper_execution execution.paper_execution_id s.repository) _ _ (λ known. refl)
        λ new. refl

  keep_refreshed-posts :
      (risk : RiskDecisionRecord F) (order : PaperOrderRecord F)
      (execution : Option (PaperExecutionRecord F)) (s : Workflow F)
      → (keep_refreshed env d risk order execution s).1.broker.posts ≡ s.broker.posts
  unfolding keep_refreshed save_attempt
  keep_refreshed-posts risk order none s = refl
  keep_refreshed-posts risk order (some execution) s = keep_fill-posts risk order execution s

  after_refresh-posts :
      (risk : RiskDecisionRecord F) (out : Answer F × Broker F) (s : Workflow F)
      → (after_refresh env d risk out s).1.broker.posts ≡ out.1.posts
  unfolding after_refresh
  after_refresh-posts risk (raised, broker) s = refl
  after_refresh-posts risk (answered order, broker) s = keep_refreshed-posts risk order _ _

  find_fill-posts :
      (risk : RiskDecisionRecord F) (order : PaperOrderRecord F)
      (execution : Option (PaperExecutionRecord F)) (s : Workflow F)
      → (find_fill env d risk order execution s).1.broker.posts ≡ s.broker.posts
  unfolding find_fill
  find_fill-posts risk order (some execution) s = keep_fill-posts risk order execution s
  find_fill-posts risk order none s =
      after_refresh-posts risk (refresh_order env.service env.settings order s.broker) s
      ∙ refresh_order-posts env.service env.settings order s.broker

  after_submit-posts :
      (risk : RiskDecisionRecord F) (out : Answer F × Broker F) (s : Workflow F)
      → (after_submit env d risk out s).1.broker.posts ≡ out.1.posts
  unfolding after_submit
  after_submit-posts risk (raised, broker) s = refl
  after_submit-posts risk (answered order, broker) s = find_fill-posts risk order _ _

  -- nothing was sent, or the order of an executable decision
  abbrev pub SendsGated : Option (RiskDecisionRecord F) → Workflow F → Workflow F → Type 0
  SendsGated given s z =
      (z.broker.posts ≡ s.broker.posts)
      ⊎ ((risk : RiskDecisionRecord F) × (side : String) × IsExecutable d given risk
          × IsAllowed (request_for env d risk) side
          × (z.broker.posts
              ≡ s.broker.posts
                ++ record {
                  symbol = d.ticker;
                  qty = risk.approved_quantity;
                  side = side;
                  client_order_id = idempotency_key (request_for env d risk);
                }
                  ∷ []))

  pass_gate-SendsGated :
      (given : Option (RiskDecisionRecord F)) (g : Gate F) (s : Workflow F)
      → gate d given ≡ g
      → SendsGated given s (pass_gate env d g s).1
  unfolding pass_gate save_attempt
  pass_gate-SendsGated given (blocked reason risk_id) s e = inl refl
  pass_gate-SendsGated given (passed risk) s e =
      let kept =
        after_submit-posts risk
          (submit_order env.service env.settings (request_for env d risk) s.broker) s in
      elim (submit_order-Sends env.service env.settings (request_for env d risk) s.broker).0 [
        | inl nothing ↦ inl (kept ∙ nothing)
        | inr (side, allowed, new, sent) ↦
            inr (risk, side, gate-IsExecutable d given risk e, allowed, kept ∙ sent)
      ]

  -- The execution of a decision sends nothing to the order service, or one order. It is sent only for a decision on a
  -- stock that is authorized or asked for by hand and that the risk manager approved or reduced, never for a manual
  -- request that is `review_only`. It is for the ticker of the decision and for the approved quantity, which is
  -- not `<= 0`: a long entry is bought, a reduction or an exit is sold.
  pub execute_stock_decision-SendsGated :
      (given : Option (RiskDecisionRecord F)) (s : Workflow F)
      → SendsGated given s (execute_stock_decision env d given s).1
  unfolding execute_stock_decision
  execute_stock_decision-SendsGated given s = pass_gate-SendsGated given _ s refl
