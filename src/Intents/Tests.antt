-- ===== src/Intents/Tests.antt =====
-- The queries about core holdings at one approved ticker.
use equity_research_agent.Prelude.{ℕ, [], ◌∷◌, ◌⊎◌}
use equity_research_agent.Intents.{PortfolioIntentConfig}
use equity_research_agent.Intents.Active.{Unapproved, Approved, intent_answers}

abbrev held : PortfolioIntentConfig ℕ
held = record {
  ticker = "AAPL";
  intent_type = "core_holding";
  target_weight = 5;
  max_weight = 8;
  lifecycle_status = "active";
  add_rules = [];
  trim_rules = [];
  thesis_invalidators = [];
  allowed_tactical_interactions = "trim" ∷ [];
}

intent_answers_example :
    Unapproved "aapl" (held ∷ [])
    ⊎ ((intent : PortfolioIntentConfig ℕ) × Approved "aapl" (held ∷ []) intent)
intent_answers_example = intent_answers "aapl" (held ∷ [])
