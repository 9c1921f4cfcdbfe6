-- ===== src/Resilience/Caching.antt =====
-- The cache of `ProviderResiliencePolicy`: what a call stores serves later calls of its scope.
use equity_research_agent.Prelude.{
  ◌+◌, ◌≤◌, String, ◌==◌, ◌≡◌, refl, subst, sym, inl, inr, Option, none, some, arith, if◌then◌else◌,
  lookup, lookup-insert, eq_refl, ◌∙◌,
}
use equity_research_agent.Float.{Float}
use equity_research_agent.Resilience.Records.{Settings, Policy, World, Result, ok, CacheEntry}
use equity_research_agent.Resilience.{execute, succeed, give_up, fresh_entry, reading, tick, answer}
use equity_research_agent.Resilience.Attempts.{Attempted, execute_cases}

module _ {V F : Type 0} ⦃fl : Float F⦄ (settings : Settings F) (world : World V F) where
  abbrev pub Served : V → Policy V F → Option (Result V × Policy V F) → Type 0
  Served v s none = ⊥
  Served v s (some (r, z)) =
      (r ≡ ok v)
      × (z.request_count ≡ s.request_count)
      × (z.cache ≡ s.cache)
      × (z.circuit_state ≡ s.circuit_state)

  Served-entry :
      (scope : String) (s : Policy V F) (entry : CacheEntry V)
      → lookup scope s.cache ≡ some entry
      → reading settings world s ≤ entry.stored_at + settings.cache_ttl
      → Served entry.value s (execute settings world scope s)
  unfolding execute answer
  Served-entry scope s entry found young =
      let fresh : fresh_entry settings world scope (reading settings world s)
            (tick settings world s)
          ≡ some entry =
        ground arith in
      subst
        (λ e.
          Served entry.value s
            (answer settings world scope (reading settings world s) e (tick settings world s)))
        (sym fresh) (refl, refl, refl, refl)

module _ {V F : Type 0} ⦃fl : Float F⦄ (settings : Settings F) (world : World V F) where
  -- the entry that the success of a call leaves
  abbrev Stores : String → Policy V F → Option (Result V × Policy V F) → Type 0
  Stores scope s none = ⊥
  Stores scope s (some (ok v, z)) =
      (other : String)
      → lookup other z.cache ≡ (
          if scope == other
          then some (record { value = v; stored_at = world.clock (s.readings + 1) })
          else lookup other s.cache)
  Stores scope s (some (other, z)) = z.cache ≡ s.cache

  Attempted-Stores :
      (scope : String) (s : Policy V F) (out : Option (Result V × Policy V F))
      → Attempted settings world scope s out
      → Stores scope s out
  unfolding succeed give_up
  Attempted-Stores scope s out
        (miss, closed, left, (n, k, b, z, at, most, budget, retried, inl (v, e, o))) =
      rw o (λ other. rw (retried.readings_kept, retried.cache_kept) (lookup-insert scope other _ _))
  Attempted-Stores scope s out
        (miss, closed, left, (n, k, b, z, at, most, budget, retried, inr (x, e, last, o))) =
      rw o retried.cache_kept

  execute-Stores :
      (scope : String) (s : Policy V F)
      → fresh_entry settings world scope (reading settings world s) (tick settings world s) ≡ none
      → Stores scope s (execute settings world scope s)
  execute-Stores scope s miss =
      execute_cases settings world scope s (Stores scope s)
        (λ entry found. absurd (cc (found, miss))) (λ opened. refl) (λ closed spent. refl)
        (λ out ended. Attempted-Stores scope s out ended)

  -- Say a call with no fresh entry for its scope returned a value. A next call of the scope that starts within
  -- `cache_ttl` of the time at which the value was stored returns this value, whatever the operation would do
  -- by then. It makes no request and leaves the cache and the circuit as they are.
  pub success_is_Served :
      (scope : String) (s z : Policy V F) (v : V)
      → fresh_entry settings world scope (reading settings world s) (tick settings world s) ≡ none
      → execute settings world scope s ≡ some (ok v, z)
      → (later : World V F)
      → reading settings later z ≤ world.clock (s.readings + 1) + settings.cache_ttl
      → Served settings later v z (execute settings later scope z)
  success_is_Served scope s z v miss ended later young =
      let stored : Stores scope s (some (ok v, z)) =
        subst (Stores scope s) ended (execute-Stores scope s miss) in
      Served-entry settings later scope z
        (record { value = v; stored_at = world.clock (s.readings + 1) })
        (stored scope ∙ rw (eq_refl scope) refl) young
