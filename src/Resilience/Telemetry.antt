-- ===== src/Resilience/Telemetry.antt =====
-- The run records that `ProviderResiliencePolicy.execute` leaves with its recorder.
use equity_research_agent.Prelude.{
  ◌+◌, ◌-◌, String, ◌≡◌, ap, refl, ◌⊎◌, inl, inr, true, false, List, [], ◌∷◌, ◌++◌, Option, none,
  some, arith,
}
use equity_research_agent.Float.{Float}
use equity_research_agent.Resilience.Records.{
  Settings, Policy, World, Result, ok, circuit_open, budget_exceeded, failed, RunRecord,
}
use equity_research_agent.Resilience.{
  execute, succeed, give_up, request, reading, run_record, success_note, failure_note, store,
  count_failure, tick,
}
use equity_research_agent.Resilience.Attempts.{Attempted, execute_cases}

-- the status and the error code that a run has for a result
abbrev pub Reports : {V : Type 0} → Result V → RunRecord → Type 0
Reports (ok v) run =
    (run.error_code ≡ none)
    × (run.degraded_mode ≡ false)
    × (((run.status ≡ "cache_hit") × (run.cache_status ≡ "hit") × (run.request_count ≡ 0))
        ⊎ ((run.status ≡ "succeeded") × (run.cache_status ≡ "miss") × (run.request_count ≡ 1)))
Reports circuit_open run =
    (run.status ≡ "circuit_open")
    × (run.error_code ≡ some "circuit_open")
    × (run.degraded_mode ≡ true)
Reports budget_exceeded run =
    (run.status ≡ "budget_exceeded")
    × (run.error_code ≡ some "budget_exceeded")
    × (run.degraded_mode ≡ true)
Reports (failed e) run =
    (run.status ≡ "failed") × (run.error_code ≡ some e) × (run.degraded_mode ≡ true)

module _ {V F : Type 0} ⦃fl : Float F⦄ (settings : Settings F) (world : World V F) where
  -- the run describes the call that went from `s` to `z`
  abbrev pub Describes : String → Policy V F → Result V → Policy V F → RunRecord → Type 0
  Describes scope s r z run =
      (run.scope ≡ scope)
      × (run.started_at ≡ reading settings world s)
      × (z.request_count ≡ s.request_count + run.request_count + run.retry_count)
      × (run.budget_remaining ≡ settings.max_requests - z.request_count)
      × (run.circuit_state ≡ z.circuit_state)
      × Reports r run

  abbrev pub Recorded : String → Policy V F → Option (Result V × Policy V F) → Type 0
  Recorded scope s none = ⊥
  Recorded scope s (some (r, z)) =
      (run : RunRecord) × (z.runs ≡ s.runs ++ run ∷ []) × Describes scope s r z run

  Attempted-Recorded :
      (scope : String) (s : Policy V F) (out : Option (Result V × Policy V F))
      → Attempted settings world scope s out
      → Recorded scope s out
  unfolding succeed give_up
  Attempted-Recorded scope s out
        (miss, closed, left, (n, k, b, z, at, most, budget, retried, inl (v, e, o))) =
      let stored = store settings world scope v (request settings world z) in
      let start = reading settings world s in
      let run =
        run_record settings world scope start (success_note settings world start k b stored)
          (tick settings world stored) in
      rw o (run, ap (λ (runs : List RunRecord). runs ++ run ∷ []) retried.runs_kept, ground arith)
  Attempted-Recorded scope s out
        (miss, closed, left, (n, k, b, z, at, most, budget, retried, inr (x, e, last, o))) =
      let counted = count_failure settings world (request settings world z) in
      let start = reading settings world s in
      let run =
        run_record settings world scope start (failure_note settings world start k b x counted)
          (tick settings world counted) in
      rw o (run, ap (λ (runs : List RunRecord). runs ++ run ∷ []) retried.runs_kept, ground arith)

  -- Every call ends and adds exactly one run to the telemetry. The run has the scope, the start, and the budget and
  -- the circuit as the call left them; its requests and retries add up to the requests made. Its status,
  -- error code and degraded flag tell how the call ended.
  pub execute-Recorded :
      (scope : String) (s : Policy V F) → Recorded scope s (execute settings world scope s)
  execute-Recorded scope s =
      execute_cases settings world scope s (Recorded scope s)
        (λ entry found. (_, refl, ground arith)) (λ _. (_, refl, ground arith))
        (λ closed spent. (_, refl, ground arith))
        (λ out ended. Attempted-Recorded scope s out ended)
