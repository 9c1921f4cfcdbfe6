-- ===== src/Outcomes/Tests.antt =====
-- The order of the checkpoints in a calendar whose sessions are three days in a row.
use equity_research_agent.Prelude.{ℕ, ◌+◌, List, [], ◌∷◌}

abbrev calendar : ℕ → ℕ → List ℕ
calendar first last = first ∷ (first + 1) ∷ (first + 2) ∷ []
