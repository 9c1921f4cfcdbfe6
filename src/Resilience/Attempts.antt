-- ===== src/Resilience/Attempts.antt =====
-- How the retry loop of `ProviderResiliencePolicy.execute` ends, and the branches of `execute` around it.
use equity_research_agent.Prelude.{
  ℕ, suc, zero, ◌+◌, ◌≤◌, ◌<◌, String, ◌==◌, ◌≡◌, refl, true, false, ◌⊎◌, inl, inr, Option, none,
  some, leb, arith, if◌then◌else◌, subst, sym, ◌∙◌, if_cases, Option-cases, Bool-cases,
}
use equity_research_agent.Float.{Float}
use equity_research_agent.Resilience.Records.{
  Settings, Policy, World, Outcome, returns, raises, Result, ok, circuit_open, budget_exceeded,
  failed, CacheEntry,
}
use equity_research_agent.Resilience.{
  attempts, execute, answer, guarded, succeed, give_up, request, sleep, exhausted, budget_remaining,
  fresh_entry, tick, reading, record_run, quiet, delay,
}

-- the attributes that a retry leaves alone, and the requests that were made
pub record Retried {V F : Type 0} (n : ℕ) (s z : Policy V F) : Type 0 where
  pub cache_kept : z.cache ≡ s.cache
  pub failures_kept : z.failure_count ≡ s.failure_count
  pub circuit_kept : z.circuit_state ≡ s.circuit_state
  pub runs_kept : z.runs ≡ s.runs
  pub readings_kept : z.readings ≡ s.readings
  pub requests : z.request_count ≡ s.request_count + n

Outcome-cases :
    {V : Type 0} (o : Outcome V) → ((v : V) × (o ≡ returns v)) ⊎ ((e : String) × (o ≡ raises e))
Outcome-cases (returns v) = inl (v, refl)
Outcome-cases (raises e) = inr (e, refl)

module _ {V F : Type 0} ⦃fl : Float F⦄ (settings : Settings F) (world : World V F) where
  -- How the loop returned from the state `z` after `k` failed requests: with a value, or with the error that
  -- no retry is left for.
  abbrev pub Ending : String → ℕ → ℕ → ℕ → Policy V F → Option (Result V × Policy V F) → Type 0
  Ending scope started_at k backoff z out =
      ((v : V) × (world.operation k ≡ returns v)
        × (out
            ≡ some (
              ok v,
              succeed settings world scope started_at k backoff v (request settings world z),
            )))
      ⊎ ((e : String) × (world.operation k ≡ raises e)
          × (exhausted settings world k (request settings world z) ≡ true)
          × (out
              ≡ some (
                failed e,
                give_up settings world scope started_at k backoff e (request settings world z),
              )))

  -- The loop, begun in the state `s`, returned after at most `max_retries` retries, each within the budget.
  abbrev pub Ends : String → ℕ → ℕ → Policy V F → Option (Result V × Policy V F) → Type 0
  Ends scope started_at retry_count s out =
      (n : ℕ) × (k : ℕ) × (backoff : ℕ) × (z : Policy V F) × (k ≡ retry_count + n)
      × (k ≤ settings.max_retries)
      × (n ≡ 0 ⊎ z.request_count < settings.max_requests)
      × Retried n s z
      × Ending scope started_at k backoff z out

  Retried-once :
      (retry_count n : ℕ) (s z : Policy V F)
      → Retried n (sleep settings world retry_count (request settings world s)) z
      → Retried (suc n) s z
  Retried-once retry_count n s z h = record {
    cache_kept = h.cache_kept;
    failures_kept = h.failures_kept;
    circuit_kept = h.circuit_kept;
    runs_kept = h.runs_kept;
    readings_kept = h.readings_kept;
    requests = omega (arith, h.requests);
  }

  none-Retried : (s : Policy V F) → Retried 0 s s
  none-Retried s = record {
    cache_kept = refl;
    failures_kept = refl;
    circuit_kept = refl;
    runs_kept = refl;
    readings_kept = refl;
    requests = omega arith;
  }

  module _ (fuel : ℕ) (scope : String) (started_at retry_count backoff : ℕ) (s : Policy V F) where
    abbrev pub round : Option (Result V × Policy V F)
    round = attempts settings world (suc fuel) scope started_at retry_count backoff s

    abbrev pub next_backoff : ℕ
    next_backoff =
        backoff + fl.truncate (fl.times (delay settings world retry_count) (fl.lit 1000 0))

    pub attempts-returns :
        (v : V)
        → world.operation retry_count ≡ returns v
        → round
          ≡ some (
            ok v,
            succeed settings world scope started_at retry_count backoff v
                (request settings world s),
          )
    unfolding attempts
    attempts-returns v e = rw (e, attempts) refl

    attempts-raises :
        (x : String)
        → world.operation retry_count ≡ raises x
        → round ≡ (
            if exhausted settings world retry_count (request settings world s)
            then some (
              failed x,
              give_up settings world scope started_at retry_count backoff x
                  (request settings world s),
            )
            else attempts settings world fuel scope started_at
                (retry_count + 1)
                next_backoff
                (sleep settings world retry_count (request settings world s)))
    unfolding attempts
    attempts-raises x e = rw (e, attempts) refl

    pub attempts-last :
        (x : String)
        → world.operation retry_count ≡ raises x
        → exhausted settings world retry_count (request settings world s) ≡ true
        → round
          ≡ some (
            failed x,
            give_up settings world scope started_at retry_count backoff x
                (request settings world s),
          )
    attempts-last x e last = attempts-raises x e ∙ rw last refl

    pub attempts-again :
        (x : String)
        → world.operation retry_count ≡ raises x
        → exhausted settings world retry_count (request settings world s) ≡ false
        → round
          ≡ attempts settings world fuel scope started_at
              (retry_count + 1)
              next_backoff
              (sleep settings world retry_count (request settings world s))
    attempts-again x e more = attempts-raises x e ∙ rw more refl

  attempts-Ends :
      (fuel : ℕ) (scope : String) (started_at retry_count backoff : ℕ) (s : Policy V F)
      → retry_count ≤ settings.max_retries
      → settings.max_retries < fuel + retry_count
      → Ends scope started_at retry_count s
          (attempts settings world fuel scope started_at retry_count backoff s)
  unfolding attempts
  attempts-Ends zero scope started_at retry_count backoff s bound enough = absurd (omega arith)
  attempts-Ends (suc fuel) scope started_at retry_count backoff s bound enough =
      elim (Outcome-cases (world.operation retry_count)) [
        | inl (v, e) ↦ (
          0,
          retry_count,
          backoff,
          s,
          omega arith,
          bound,
          inl refl,
          none-Retried s,
          inl (v, e, attempts-returns fuel scope started_at retry_count backoff s v e),
        )
        | inr (x, e) ↦
            elim (Bool-cases (exhausted settings world retry_count (request settings world s))) [
              | inl last ↦ (
                0,
                retry_count,
                backoff,
                s,
                omega arith,
                bound,
                inl refl,
                none-Retried s,
                inr (
                  x,
                  e,
                  last,
                  attempts-last fuel scope started_at retry_count backoff s x e last,
                ),
              )
              | inr more ↦
                  let (n, k, b, z, at, most, budget, kept, end) =
                    attempts-Ends fuel scope started_at (retry_count + 1)
                      (backoff
                        + fl.truncate (fl.times (delay settings world retry_count) (fl.lit 1000 0)))
                      (sleep settings world retry_count (request settings world s)) (ground arith)
                      (omega arith) in
                  (
                    suc n,
                    k,
                    b,
                    z,
                    omega arith,
                    most,
                    ground (arith, kept.requests),
                    Retried-once retry_count n s z kept,
                    subst (λ out. Ending scope started_at k b z out)
                        (sym (attempts-again fuel scope started_at retry_count backoff s x e more))
                        end,
                  )
            ]
      ]

  module _ (scope : String) (s : Policy V F) where
    -- the state once `started_at` was read
    abbrev pub begun : Policy V F
    begun = tick settings world s

    abbrev pub started : ℕ
    started = reading settings world s

    -- a call that got past the cache, the circuit and the budget, and how its loop ended
    abbrev pub Attempted : Option (Result V × Policy V F) → Type 0
    Attempted out =
        (fresh_entry settings world scope started begun ≡ none)
        × ((s.circuit_state == "open") ≡ false)
        × (s.request_count < settings.max_requests)
        × Ends scope started 0 begun out

    -- What holds of the four ways through `execute` holds of every call.
    pub execute_cases :
        (P : Option (Result V × Policy V F) → Type 0)
        → ((entry : CacheEntry V)
            → fresh_entry settings world scope started begun ≡ some entry
            → P (
                some (
                  ok entry.value,
                  record_run settings world scope started
                      (quiet settings world "cache_hit" "hit" none false)
                      begun,
                )))
        → ((s.circuit_state == "open") ≡ true
            → P (
                some (
                  circuit_open,
                  record_run settings world scope started
                      (quiet settings world "circuit_open" "miss" (some "circuit_open") true)
                      begun,
                )))
        → ((s.circuit_state == "open") ≡ false
            → settings.max_requests ≤ s.request_count
            → P (
                some (
                  budget_exceeded,
                  record_run settings world scope started
                      (quiet settings world "budget_exceeded" "miss" (some "budget_exceeded") true)
                      begun,
                )))
        → ((out : Option (Result V × Policy V F)) → Attempted out → P out)
        → P (execute settings world scope s)
    unfolding execute answer guarded
    execute_cases P hit opened spent attempted =
        let from_entry =
          λ (entry : Option (CacheEntry V)). P (answer settings world scope started entry begun) in
        elim (Option-cases (fresh_entry settings world scope started begun)) [
          | inl miss ↦ subst from_entry (sym miss) (
              if_cases P (s.circuit_state == "open") _ _ opened λ closed.
                if_cases P (leb (budget_remaining settings world begun) 0) _ _
                  (λ none_left. spent closed (ground arith))
                  (λ left. attempted _ (
                    miss,
                    closed,
                    ground arith,
                    attempts-Ends (settings.max_retries + 1) scope started 0 0 begun (omega arith)
                        (omega arith),
                  )))
          | inr (entry, found) ↦ subst from_entry (sym found) (hit entry found)
        ]
