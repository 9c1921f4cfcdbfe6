-- ===== src/Resilience.antt =====
-- trading/data_sources/provider_resilience.py: the guardrails around a provider call, over the in-memory
-- recorder. Times are whole microseconds.
pub mod Records
pub mod Attempts
pub mod Retries
pub mod Budget
pub mod Circuit
pub mod Telemetry
pub mod Reachable
pub mod Caching
mod Tests
use equity_research_agent.Prelude.{
  ℕ, suc, zero, ◌+◌, ◌-◌, ◌*◌, ◌/◌, ◌^◌, String, ◌==◌, Bool, true, false, ◌||◌, List, [], ◌∷◌, ◌++◌,
  Option, none, some, if◌then◌else◌, leb, Dict, lookup, insert,
}
use equity_research_agent.Float.{Float}
use equity_research_agent.Resilience.Records.{
  RunRecord, CacheEntry, Settings, Policy, initial, Outcome, returns, raises, Result, ok,
  circuit_open, budget_exceeded, failed, World,
}

module _ {V F : Type 0} ⦃fl : Float F⦄ (settings : Settings F) (world : World V F) where
  -- `budget_remaining`: `max(a - b, 0)` on integers
  abbrev pub budget_remaining : Policy V F → ℕ
  budget_remaining s = settings.max_requests - s.request_count

  -- a call of `now`: its reading, and the state after it
  abbrev pub reading : Policy V F → ℕ
  reading s = world.clock s.readings

  abbrev pub tick : Policy V F → Policy V F
  tick s = record s { readings = s.readings + 1 }

  -- the arguments of `_record` that its calls choose
  abbrev pub Note : Type 0
  Note = record {
    status : String;
    cache_status : String;
    request_count : ℕ;
    retry_count : ℕ;
    backoff_ms : ℕ;
    latency_ms : ℕ;
    error_code : Option String;
    degraded_mode : Bool;
  }

  -- the record that `_record` builds
  abbrev pub run_record : String → ℕ → Note → Policy V F → RunRecord
  run_record scope started_at note s = record {
    provider = settings.provider;
    endpoint = settings.endpoint;
    source_family = settings.source_family;
    scope = scope;
    cache_status = note.cache_status;
    request_count = note.request_count;
    budget_remaining = budget_remaining s;
    retry_count = note.retry_count;
    backoff_ms = note.backoff_ms;
    latency_ms = note.latency_ms;
    status = note.status;
    error_code = note.error_code;
    circuit_state = s.circuit_state;
    degraded_mode = note.degraded_mode;
    started_at = started_at;
    completed_at = reading s;
  }

  -- `_record`
  abbrev pub record_run : String → ℕ → Note → Policy V F → Policy V F
  record_run scope started_at note s = record (tick s) {
    runs = s.runs ++ run_record scope started_at note s ∷ [];
  }

  -- a note with no request behind it
  abbrev pub quiet : String → String → Option String → Bool → Note
  quiet status cache_status error_code degraded_mode = record {
    status = status;
    cache_status = cache_status;
    request_count = 0;
    retry_count = 0;
    backoff_ms = 0;
    latency_ms = 0;
    error_code = error_code;
    degraded_mode = degraded_mode;
  }

  -- `_latency_ms`
  abbrev pub latency_ms : ℕ → Policy V F → ℕ
  latency_ms started_at s = (reading s - started_at) / 1000

  -- the cache and the failure count after the operation returned
  abbrev pub store : String → V → Policy V F → Policy V F
  store scope value s = record (tick s) {
    cache = insert scope (record { value = value; stored_at = reading s }) s.cache;
    failure_count = 0;
  }

  abbrev pub success_note : ℕ → ℕ → ℕ → Policy V F → Note
  success_note started_at retry_count backoff_ms s = record {
    status = "succeeded";
    cache_status = "miss";
    request_count = 1;
    retry_count = retry_count;
    backoff_ms = backoff_ms;
    latency_ms = latency_ms started_at s;
    error_code = none;
    degraded_mode = false;
  }

  -- the branch of `execute` after the operation returned
  pub succeed : String → ℕ → ℕ → ℕ → V → Policy V F → Policy V F
  succeed scope started_at retry_count backoff_ms value s =
      let stored = store scope value s in
      record_run scope started_at (success_note started_at retry_count backoff_ms stored)
        (tick stored)

  -- the failure count and the circuit after the last attempt failed
  abbrev pub count_failure : Policy V F → Policy V F
  count_failure s =
      let failures = s.failure_count + 1 in
      record s {
        failure_count = failures;
        circuit_state =
            if leb settings.circuit_failure_threshold failures then "open" else s.circuit_state;
      }

  abbrev pub failure_note : ℕ → ℕ → ℕ → String → Policy V F → Note
  failure_note started_at retry_count backoff_ms error s = record {
    status = "failed";
    cache_status = "miss";
    request_count = 1;
    retry_count = retry_count;
    backoff_ms = backoff_ms;
    latency_ms = latency_ms started_at s;
    error_code = some error;
    degraded_mode = true;
  }

  -- the branch of the handler that raises again
  pub give_up : String → ℕ → ℕ → ℕ → String → Policy V F → Policy V F
  give_up scope started_at retry_count backoff_ms error s =
      let counted = count_failure s in
      record_run scope started_at (failure_note started_at retry_count backoff_ms error counted)
        (tick counted)

  -- the delay before the next attempt
  abbrev pub delay : ℕ → F
  delay retry_count =
      fl.plus (fl.times settings.base_backoff (fl.lit (2 ^ retry_count) 0))
        (world.jitter retry_count)

  -- `retry_count >= self.max_retries or self.budget_remaining <= 0`
  abbrev pub exhausted : ℕ → Policy V F → Bool
  exhausted retry_count s = leb settings.max_retries retry_count || leb (budget_remaining s) 0

  -- `self._request_count += 1`
  abbrev pub request : Policy V F → Policy V F
  request s = record s { request_count = s.request_count + 1 }

  abbrev pub sleep : ℕ → Policy V F → Policy V F
  sleep retry_count s = record s { sleeps = s.sleeps ++ delay retry_count ∷ [] }

  -- `while True:`, with fuel; `none` means that the fuel ran out
  pub attempts : ℕ → String → ℕ → ℕ → ℕ → Policy V F → Option (Result V × Policy V F)
  attempts zero scope started_at retry_count backoff_ms s = none
  attempts (suc fuel) scope started_at retry_count backoff_ms s =
      let again =
        attempts fuel scope started_at (retry_count + 1)
          (backoff_ms + fl.truncate (fl.times (delay retry_count) (fl.lit 1000 0)))
          (sleep retry_count (request s)) in
      elim (world.operation retry_count) [
        | returns v ↦ some (ok v, succeed scope started_at retry_count backoff_ms v (request s))
        | raises e ↦
            if exhausted retry_count (request s)
            then some (failed e, give_up scope started_at retry_count backoff_ms e (request s))
            else again
      ]

  -- the entry of the scope, if it is no older than the cache lets it be
  abbrev pub fresh_entry : String → ℕ → Policy V F → Option (CacheEntry V)
  fresh_entry scope started_at s = elim (lookup scope s.cache) [
    | none ↦ none
    | some entry ↦
        if leb started_at (entry.stored_at + settings.cache_ttl) then some entry else none
  ]

  -- what follows a cache miss
  pub guarded : String → ℕ → Policy V F → Option (Result V × Policy V F)
  guarded scope started_at s =
      if s.circuit_state == "open"
      then some (
        circuit_open,
        record_run scope started_at (quiet "circuit_open" "miss" (some "circuit_open") true) s,
      )
      else if leb (budget_remaining s) 0
      then some (
        budget_exceeded,
        record_run scope started_at (quiet "budget_exceeded" "miss" (some "budget_exceeded") true)
            s,
      )
      else attempts (settings.max_retries + 1) scope started_at 0 0 s

  -- the rest of `execute`, given the fresh entry
  pub answer : String → ℕ → Option (CacheEntry V) → Policy V F → Option (Result V × Policy V F)
  answer scope started_at none s = guarded scope started_at s
  answer scope started_at (some entry) s =
      some (ok entry.value, record_run scope started_at (quiet "cache_hit" "hit" none false) s)

  -- `execute`; the fuel of the loop is one attempt more than the retries
  pub execute : String → Policy V F → Option (Result V × Policy V F)
  execute scope s =
      let started_at = reading s in
      answer scope started_at (fresh_entry scope started_at (tick s)) (tick s)
