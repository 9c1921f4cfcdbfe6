-- ===== src/Resilience/Reachable.antt =====
-- The policies that a program can have: a fresh one, and what calls of `execute` make of it.
use equity_research_agent.Prelude.{
  ℕ, ◌+◌, ◌≤◌, ◌<◌, String, ◌≡◌, refl, ap, inl, subst, List, [], ◌∷◌, ◌++◌, some, arith,
}
use equity_research_agent.Float.{Float}
use equity_research_agent.Resilience.Records.{Settings, Policy, World, Result, RunRecord, initial}
use equity_research_agent.Resilience.{execute}
use equity_research_agent.Resilience.Budget.{WithinBudget, execute-WithinBudget}
use equity_research_agent.Resilience.Circuit.{IsConsistent, IsConsistentAfter, execute-IsConsistent}
use equity_research_agent.Resilience.Telemetry.{Recorded, execute-Recorded}

pub data Reachable {V F : Type 0} ⦃fl : Float F⦄ (settings : Settings F) : Policy V F → Type 0 where
  starts : Reachable settings initial
  calls :
      {s z : Policy V F}
      → (world : World V F) (scope : String) (r : Result V) → Reachable settings s
      → execute settings world scope s ≡ some (r, z)
      → Reachable settings z

-- the requests that the runs account for
abbrev pub requests_of : List RunRecord → ℕ
requests_of [] = 0
requests_of (run ∷ runs) = run.request_count + run.retry_count + requests_of runs

requests_of-append :
    (xs : List RunRecord) (run : RunRecord)
    → requests_of (xs ++ run ∷ []) ≡ requests_of xs + run.request_count + run.retry_count
requests_of-append [] run = omega arith
requests_of-append (x ∷ xs) run = omega (arith, requests_of-append xs run)

module _ {V F : Type 0} ⦃fl : Float F⦄ (settings : Settings F) where
  abbrev pub IsSound : Policy V F → Type 0
  IsSound s =
      (s.request_count ≤ settings.max_requests)
      × IsConsistent settings s
      × (s.request_count ≡ requests_of s.runs)

  IsSound-call :
      (world : World V F) (scope : String) (r : Result V) (s z : Policy V F)
      → 0 < settings.circuit_failure_threshold
      → IsSound s
      → execute settings world scope s ≡ some (r, z)
      → IsSound z
  IsSound-call world scope r s z positive (budget, circuit, runs) ended =
      let (within, grows, most, failing) =
        subst (WithinBudget settings world s) ended
          (execute-WithinBudget settings world scope s budget) in
      let consistent =
        subst (IsConsistentAfter settings) ended
          (execute-IsConsistent settings world scope s positive circuit) in
      let (run, appended, (of_scope, started, counts, left, state, reports)) =
        subst (Recorded settings world scope s) ended (execute-Recorded settings world scope s) in
      (
        within,
        consistent,
        omega (arith, requests_of-append s.runs run, ap requests_of appended, counts),
      )

  -- Where the threshold is positive, three facts hold of a policy after any sequence of calls, whatever the
  -- operations, the clock and the jitter did. Its requests are within the budget. Its circuit is closed below
  -- the threshold of failures in a row, or open at it. And its requests are the sum of the requests and the
  -- retries of all recorded runs.
  pub Reachable-IsSound :
      {s : Policy V F} → 0 < settings.circuit_failure_threshold → Reachable settings s → IsSound s
  Reachable-IsSound positive starts = (omega arith, inl (refl, positive), refl)
  Reachable-IsSound positive (calls {s} {z} world scope r before ended) =
      IsSound-call world scope r s z positive (Reachable-IsSound positive before) ended
