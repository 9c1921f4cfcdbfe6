-- ===== src/Resilience/Tests.antt =====
-- The theorems of the provider guardrails at a quote feed that fails once, and a run of it.
use equity_research_agent.Prelude.{
  ℕ, ◌+◌, ◌≡◌, refl, Option, none, some, arith, eqb, if◌then◌else◌, lookup,
}
use equity_research_agent.Prelude.Int.{ℤ}
use equity_research_agent.Float.Micros.{micros}
use equity_research_agent.Resilience.Records.{
  Settings, Policy, World, returns, raises, Result, ok, initial,
}
use equity_research_agent.Resilience.{execute, answer, guarded, attempts, succeed, give_up}
use equity_research_agent.Resilience.Budget.{WithinBudget, execute-WithinBudget}
use equity_research_agent.Resilience.Circuit.{Stopped, open_circuit_stops}
use equity_research_agent.Resilience.Telemetry.{Recorded, execute-Recorded}
use equity_research_agent.Resilience.Caching.{Served, success_is_Served}
use equity_research_agent.Resilience.Retries.{Delivers, execute-Delivers}
use equity_research_agent.Resilience.Reachable.{
  Reachable.starts, Reachable.calls, IsSound, Reachable-IsSound,
}

abbrev feed : Settings ℤ
feed = record {
  provider = "fmp";
  endpoint = "quotes";
  source_family = "quotes";
  max_requests = 3;
  max_retries = 2;
  base_backoff = micros.lit 5 2;
  cache_ttl = 900;
  circuit_failure_threshold = 1;
}

-- the first request times out, and the next ones return 7
abbrev flaky : World ℕ ℤ
flaky = record {
  clock = λ n. 1000 + n;
  jitter = λ n. micros.lit 0 0;
  operation = λ n. if eqb n 0 then raises "TimeoutError" else returns 7;
}

abbrev down : World ℕ ℤ
down = record {
  clock = λ n. 1000 + n;
  jitter = λ n. micros.lit 0 0;
  operation = λ n. raises "TimeoutError";
}

abbrev state_of : Option (Result ℕ × Policy ℕ ℤ) → Policy ℕ ℤ
state_of none = initial
state_of (some (r, s)) = s

abbrev opened : Policy ℕ ℤ
opened = record initial { failure_count = 1; circuit_state = "open" }

abbrev answered : Policy ℕ ℤ
answered = state_of (execute feed flaky "AAPL" initial)

-- three failing requests use up the budget and open the circuit
outage : (state_of (execute feed down "AAPL" initial)).circuit_state ≡ "open"
unfolding execute answer guarded attempts give_up lookup
outage = refl

execute-WithinBudget_example : WithinBudget feed flaky initial (execute feed flaky "AAPL" initial)
execute-WithinBudget_example = execute-WithinBudget feed flaky "AAPL" initial (omega arith)

open_circuit_stops_example : Stopped feed flaky "AAPL" opened (execute feed flaky "AAPL" opened)
open_circuit_stops_example = open_circuit_stops feed flaky "AAPL" opened refl

execute-Recorded_example : Recorded feed flaky "AAPL" initial (execute feed flaky "AAPL" initial)
execute-Recorded_example = execute-Recorded feed flaky "AAPL" initial

success_is_Served_example : Served feed down 7 answered (execute feed down "AAPL" answered)
unfolding execute answer guarded attempts succeed lookup
success_is_Served_example =
    success_is_Served feed flaky "AAPL" initial answered 7 refl refl down (omega arith)

execute-Delivers_example : Delivers feed flaky 7 0 1 initial (execute feed flaky "AAPL" initial)
unfolding lookup
execute-Delivers_example =
    execute-Delivers feed flaky 1 "AAPL" 7 initial refl refl
      (λ i below. ("TimeoutError", ground arith)) refl (omega arith) (omega arith)

Reachable-IsSound_example : IsSound feed answered
unfolding execute answer guarded attempts succeed lookup
Reachable-IsSound_example =
    Reachable-IsSound feed (omega arith) (calls flaky "AAPL" (ok 7) starts refl)
