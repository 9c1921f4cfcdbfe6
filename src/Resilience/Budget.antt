-- ===== src/Resilience/Budget.antt =====
-- How many requests `ProviderResiliencePolicy.execute` makes, and that it always ends.
use equity_research_agent.Prelude.{◌+◌, ◌≤◌, String, ◌≡◌, ◌⊎◌, inl, inr, Option, none, some, arith}
use equity_research_agent.Float.{Float}
use equity_research_agent.Resilience.Records.{Settings, Policy, World, Result, failed}
use equity_research_agent.Resilience.{execute, succeed, give_up}
use equity_research_agent.Resilience.Attempts.{Attempted, execute_cases}

module _ {V F : Type 0} ⦃fl : Float F⦄ (settings : Settings F) (world : World V F) where
  -- The call ended, within the budget and within its retries. An exception of the operation passes through
  -- only once the retries or the budget are used up.
  abbrev pub WithinBudget : Policy V F → Option (Result V × Policy V F) → Type 0
  WithinBudget s none = ⊥
  WithinBudget s (some (r, z)) =
      (z.request_count ≤ settings.max_requests)
      × (s.request_count ≤ z.request_count)
      × (z.request_count ≤ s.request_count + settings.max_retries + 1)
      × ((e : String)
          → r ≡ failed e
          → (z.request_count ≡ s.request_count + settings.max_retries + 1)
            ⊎ (z.request_count ≡ settings.max_requests))

  Attempted-WithinBudget :
      (scope : String) (s : Policy V F) (out : Option (Result V × Policy V F))
      → s.request_count ≤ settings.max_requests
      → Attempted settings world scope s out
      → WithinBudget s out
  unfolding succeed give_up
  Attempted-WithinBudget scope s out kept
        (miss, closed, left, (n, k, b, z, at, most, budget, retried, inl (v, e, o))) =
      rw o (ground arith)
  Attempted-WithinBudget scope s out kept
        (miss, closed, left, (n, k, b, z, at, most, budget, retried, inr (x, e, last, o))) =
      rw o (ground arith)

  -- From a state within the budget, a call always ends, and the requests stay within the budget. The call makes
  -- at most `max_retries + 1` of them. If it raises the operation's own exception, it made all of these or
  -- used up the budget.
  pub execute-WithinBudget :
      (scope : String) (s : Policy V F)
      → s.request_count ≤ settings.max_requests
      → WithinBudget s (execute settings world scope s)
  execute-WithinBudget scope s kept =
      execute_cases settings world scope s (WithinBudget s) (λ entry found. ground arith)
        (λ opened. ground arith) (λ closed spent. ground arith)
        (λ out ended. Attempted-WithinBudget scope s out kept ended)
