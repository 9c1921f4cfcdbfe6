-- ===== src/Outcomes/Checkpoints.antt =====
-- The order of the sessions at which an outcome is marked.
use equity_research_agent.Prelude.{ℕ, ◌≤◌, ◌<◌, ◌≡◌, List, [], ◌∷◌, All}
use equity_research_agent.Outcomes.{
  OutcomeSessionOffsets, Result, ok, unsupported_horizon, decision_session_not_xnys, index_error,
}

abbrev pub IsAscending : List ℕ → Type 0
IsAscending [] = Unit
IsAscending (x ∷ xs) = All (λ y. x < y) xs × IsAscending xs

-- both marks come after the decision's session, and the interim mark first
abbrev pub IsOrdered : OutcomeSessionOffsets → Type 0
IsOrdered o = (1 ≤ o.interim_session_offset) × (o.interim_session_offset < o.final_session_offset)

module _ (sessions_in_range : ℕ → ℕ → List ℕ) where
  abbrev pub Follows : ℕ → Result → Type 0
  Follows decision_session (ok c) =
      (decision_session < c.interim_session)
      × (c.interim_session < c.final_session)
      × (c.interim_session_offset < c.final_session_offset)
  Follows decision_session (unsupported_horizon h) = Unit
  Follows decision_session (decision_session_not_xnys d) = d ≡ decision_session
  Follows decision_session index_error = Unit
