-- ===== src/Resilience/Retries.antt =====
-- The retries of `ProviderResiliencePolicy.execute`: it goes on to the first request that succeeds.
use equity_research_agent.Prelude.{
  ℕ, zero, suc, ◌+◌, ◌≤◌, ◌<◌, String, ◌==◌, ◌≡◌, refl, subst, sym, false, List, [], ◌∷◌, ◌++◌,
  append-nil, append_assoc, Option, none, some, arith, leb, ◌∙◌, ap,
}
use equity_research_agent.Float.{Float}
use equity_research_agent.Resilience.Records.{Settings, Policy, World, Result, ok, raises, returns}
use equity_research_agent.Resilience.{
  execute, succeed, request, fresh_entry, reading, tick, answer, guarded, attempts, delay, sleep,
  exhausted, budget_remaining,
}
use equity_research_agent.Resilience.Attempts.{attempts-returns, attempts-again}

module _ {V F : Type 0} ⦃fl : Float F⦄ (settings : Settings F) (world : World V F) where
  -- the delays of `n` retries, of which the first has `retry_count` before it
  abbrev pub delays : ℕ → ℕ → List F
  delays retry_count zero = []
  delays retry_count (suc n) = delay settings world retry_count ∷ delays (retry_count + 1) n

  -- The value came after `n` retries, each after its delay; the failures in a row start again at 0.
  abbrev pub Delivers : V → ℕ → ℕ → Policy V F → Option (Result V × Policy V F) → Type 0
  Delivers v retry_count n s none = ⊥
  Delivers v retry_count n s (some (r, z)) =
      (r ≡ ok v)
      × (z.request_count ≡ s.request_count + n + 1)
      × (z.sleeps ≡ s.sleeps ++ delays retry_count n)
      × (z.failure_count ≡ 0)
      × (z.circuit_state ≡ s.circuit_state)

  Delivers-sleep :
      (v : V) (retry_count n : ℕ) (s : Policy V F) (out : Option (Result V × Policy V F))
      → Delivers v
          (retry_count + 1)
          n
          (sleep settings world retry_count (request settings world s))
          out
      → Delivers v retry_count (suc n) s out
  Delivers-sleep v retry_count n s none h = h
  Delivers-sleep v retry_count n s (some (r, z)) (value, requests, sleeps, failures, circuit) = (
    value,
    omega arith,
    sleeps
        ∙ append_assoc s.sleeps (delay settings world retry_count ∷ [])
            (delays (retry_count + 1) n),
    failures,
    circuit,
  )

  attempts-Delivers :
      (n fuel : ℕ) (scope : String) (started_at retry_count backoff : ℕ) (v : V) (s : Policy V F)
      → n < fuel
      → ((i : ℕ) → i < n → (e : String) × (world.operation (retry_count + i) ≡ raises e))
      → world.operation (retry_count + n) ≡ returns v
      → retry_count + n ≤ settings.max_retries
      → s.request_count + n < settings.max_requests
      → Delivers v retry_count n s
          (attempts settings world fuel scope started_at retry_count backoff s)
  unfolding succeed
  attempts-Delivers n zero scope started_at retry_count backoff v s enough failing works retries
        budget =
      absurd (omega arith)
  attempts-Delivers zero (suc fuel) scope started_at retry_count backoff v s enough failing works
        retries budget =
      let works_now : world.operation retry_count ≡ returns v =
        ap world.operation (omega arith) ∙ works in
      rw (attempts-returns settings world fuel scope started_at retry_count backoff s v works_now)
        (refl, omega arith, sym (append-nil s.sleeps), refl, refl)
  attempts-Delivers (suc n) (suc fuel) scope started_at retry_count backoff v s enough failing works
        retries budget =
      let (e, fails) = failing 0 (omega arith) in
      let fails_now : world.operation retry_count ≡ raises e =
        ap world.operation (omega arith) ∙ fails in
      let more : exhausted settings world retry_count (request settings world s) ≡ false =
        ground arith in
      rw
        (attempts-again settings world fuel scope started_at retry_count backoff s e fails_now more)
        (Delivers-sleep v retry_count n s _ (
          attempts-Delivers n fuel scope started_at (retry_count + 1) _ v
            (sleep settings world retry_count (request settings world s)) (omega arith)
            (λ i below.
              let (x, raised) = failing (suc i) (omega arith) in
              (x, ap world.operation (omega arith) ∙ raised))
            (ap world.operation (omega arith) ∙ works) (omega arith) (omega arith)))

  -- Say the scope has no fresh entry, the circuit is not open, and the first `n` requests fail but the next one
  -- returns a value, where `n` is at most `max_retries` and the budget has more than `n` requests left. Then the
  -- call returns this value after `n + 1` requests and the `n` delays of the backoff in their order. The
  -- failures in a row are 0 and the circuit is as it was.
  pub execute-Delivers :
      (n : ℕ) (scope : String) (v : V) (s : Policy V F)
      → fresh_entry settings world scope (reading settings world s) (tick settings world s) ≡ none
      → (s.circuit_state == "open") ≡ false
      → ((i : ℕ) → i < n → (e : String) × (world.operation i ≡ raises e))
      → world.operation n ≡ returns v
      → n ≤ settings.max_retries
      → s.request_count + n < settings.max_requests
      → Delivers v 0 n s (execute settings world scope s)
  unfolding execute answer guarded
  execute-Delivers n scope v s miss closed failing works retries budget =
      let start = reading settings world s in
      let left : leb (budget_remaining settings world (tick settings world s)) 0 ≡ false =
        ground arith in
      subst (λ e. Delivers v 0 n s (answer settings world scope start e (tick settings world s)))
        (sym miss)
        (rw closed (
          rw left (
            attempts-Delivers n (settings.max_retries + 1) scope start 0 0 v (tick settings world s)
              (omega arith)
              (λ i below.
                let (x, raised) = failing i below in (x, ap world.operation (omega arith) ∙ raised))
              (ap world.operation (omega arith) ∙ works) (omega arith) budget)))
