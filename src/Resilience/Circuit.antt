-- ===== src/Resilience/Circuit.antt =====
-- The circuit of `ProviderResiliencePolicy`: it opens at the threshold of failed calls and then stops all requests.
use equity_research_agent.Prelude.{
  ◌<◌, String, ◌≡◌, refl, ◌⊎◌, inl, inr, Option, none, some, arith, eq_iff,
}
use equity_research_agent.Float.{Float}
use equity_research_agent.Resilience.Records.{
  Settings, Policy, World, Result, ok, circuit_open, CacheEntry,
}
use equity_research_agent.Resilience.{execute, succeed, give_up, fresh_entry, reading, tick}
use equity_research_agent.Resilience.Attempts.{Attempted, execute_cases}

module _ {V F : Type 0} ⦃fl : Float F⦄ (settings : Settings F) where
  -- closed below the threshold of failures, open at it
  abbrev pub IsConsistent : Policy V F → Type 0
  IsConsistent s =
      ((s.circuit_state ≡ "closed") × (s.failure_count < settings.circuit_failure_threshold))
      ⊎ ((s.circuit_state ≡ "open") × (s.failure_count ≡ settings.circuit_failure_threshold))

  abbrev pub IsConsistentAfter : Option (Result V × Policy V F) → Type 0
  IsConsistentAfter none = ⊥
  IsConsistentAfter (some (r, z)) = IsConsistent z

module _ {V F : Type 0} ⦃fl : Float F⦄ (settings : Settings F) (world : World V F) where
  Attempted-IsConsistent :
      (scope : String) (s : Policy V F) (out : Option (Result V × Policy V F))
      → 0 < settings.circuit_failure_threshold
      → IsConsistent settings s
      → Attempted settings world scope s out
      → IsConsistentAfter settings out
  unfolding succeed give_up
  Attempted-IsConsistent scope s out positive kept
        (miss, closed, left, (n, k, b, z, at, most, budget, retried, inl (v, e, o))) =
      rw o (ground (arith, eq_iff s.circuit_state "open"))
  Attempted-IsConsistent scope s out positive kept
        (miss, closed, left, (n, k, b, z, at, most, budget, retried, inr (x, e, last, o))) =
      rw o (ground (arith, eq_iff s.circuit_state "open"))

  -- Where the threshold is positive, a call keeps this invariant: the circuit is "closed" with fewer failures in
  -- a row than the threshold, or "open" with exactly the threshold. The call ends.
  pub execute-IsConsistent :
      (scope : String) (s : Policy V F)
      → 0 < settings.circuit_failure_threshold
      → IsConsistent settings s
      → IsConsistentAfter settings (execute settings world scope s)
  execute-IsConsistent scope s positive kept =
      execute_cases settings world scope s (IsConsistentAfter settings) (λ entry found. kept)
        (λ opened. kept) (λ closed spent. kept)
        (λ out ended. Attempted-IsConsistent scope s out positive kept ended)

  -- what a call from an open circuit may do: answer from the cache, or refuse
  abbrev pub Stopped : String → Policy V F → Option (Result V × Policy V F) → Type 0
  Stopped scope s none = ⊥
  Stopped scope s (some (r, z)) =
      (z.circuit_state ≡ "open")
      × (z.request_count ≡ s.request_count)
      × (z.cache ≡ s.cache)
      × ((r ≡ circuit_open)
          ⊎ ((entry : CacheEntry V) × (fresh_entry settings world scope (reading settings world s)
                  (tick settings world s)
                ≡ some entry)
              × (r ≡ ok entry.value)))

  -- Once the circuit is open it stays open: a call makes no request and leaves the cache as it is. It returns
  -- the fresh cached value of the scope, or raises `ProviderCircuitOpen`.
  pub open_circuit_stops :
      (scope : String) (s : Policy V F)
      → s.circuit_state ≡ "open"
      → Stopped scope s (execute settings world scope s)
  open_circuit_stops scope s opened =
      execute_cases settings world scope s (Stopped scope s)
        (λ entry found. (opened, refl, refl, inr (entry, found, refl)))
        (λ _. (opened, refl, refl, inl refl))
        (λ closed spent. absurd (ground (arith, eq_iff s.circuit_state "open")))
        (λ out (miss, closed, left, rest). absurd (ground (arith, eq_iff s.circuit_state "open")))
