-- ===== src/Resilience/Records.antt =====
-- trading/data_sources/provider_resilience.py: the records of the guardrails, their state, and what they are given from
-- outside in `World`: the readings of `now` one by one, those of `jitter`, and what each call of the operation does.
use equity_research_agent.Prelude.{ℕ, String, Bool, List, [], Option, Dict}

-- `ProviderRequestRunRecord`
pub record RunRecord : Type 0 where
  pub provider : String
  pub endpoint : String
  pub source_family : String
  pub scope : String
  pub cache_status : String
  pub request_count : ℕ
  pub budget_remaining : ℕ
  pub retry_count : ℕ
  pub backoff_ms : ℕ
  pub latency_ms : ℕ
  pub status : String
  pub error_code : Option String
  pub circuit_state : String
  pub degraded_mode : Bool
  pub started_at : ℕ
  pub completed_at : ℕ

pub record CacheEntry (V : Type 0) : Type 0 where
  pub value : V
  pub stored_at : ℕ

-- the constructor's arguments
pub record Settings (F : Type 0) : Type 0 where
  pub provider : String
  pub endpoint : String
  pub source_family : String
  pub max_requests : ℕ
  pub max_retries : ℕ
  pub base_backoff : F
  pub cache_ttl : ℕ
  pub circuit_failure_threshold : ℕ

-- the attributes that calls change; `readings` counts the calls of `now` so far, and `sleeps` holds the
-- delays that `sleeper` was given
pub record Policy (V F : Type 0) : Type 0 where
  pub cache : Dict (CacheEntry V)
  pub request_count : ℕ
  pub failure_count : ℕ
  pub circuit_state : String
  pub runs : List RunRecord
  pub readings : ℕ
  pub sleeps : List F

-- the attributes as `__init__` leaves them
abbrev pub initial : {V F : Type 0} → Policy V F
initial = record {
  cache = [];
  request_count = 0;
  failure_count = 0;
  circuit_state = "closed";
  runs = [];
  readings = 0;
  sleeps = [];
}

-- one call of the operation returns a value or raises an exception, of which the class name counts
pub data Outcome (V : Type 0) : Type 0 where
  returns : V → Outcome V
  raises : String → Outcome V

-- how a call of `execute` ends
pub data Result (V : Type 0) : Type 0 where
  ok : V → Result V
  circuit_open : Result V
  budget_exceeded : Result V
  failed : String → Result V

pub record World (V F : Type 0) : Type 0 where
  pub clock : ℕ → ℕ
  pub jitter : ℕ → F
  pub operation : ℕ → Outcome V
