-- ===== src/Intents.antt =====
-- trading/portfolio/intents.py: which holdings the user approved as core holdings.
pub mod Active
mod Tests
use equity_research_agent.Prelude.{
  String, ◌==◌, Bool, false, not, ◌&&◌, List, [], Option, none, some, first_where, is_none,
  contains,
}
use equity_research_agent.Prelude.Text.{normalize_ticker}

-- `PortfolioIntentConfig`
pub record PortfolioIntentConfig (F : Type 0) : Type 0 where
  pub ticker : String
  pub intent_type : String
  pub target_weight : F
  pub max_weight : F
  pub lifecycle_status : String
  pub add_rules : List String
  pub trim_rules : List String
  pub thesis_invalidators : List String
  pub allowed_tactical_interactions : List String

module _ {F : Type 0} where
  -- `__post_init__`: a new configuration has its ticker normalized
  abbrev pub configured : PortfolioIntentConfig F → PortfolioIntentConfig F
  configured intent = record intent { ticker = normalize_ticker intent.ticker }

  abbrev pub is_active_intent : String → PortfolioIntentConfig F → Bool
  is_active_intent normalized_ticker intent =
      intent.ticker == normalized_ticker && intent.lifecycle_status == "active"

  -- `find_active_portfolio_intent`
  unfoldable pub find_active_portfolio_intent :
      String → List (PortfolioIntentConfig F) → Option (PortfolioIntentConfig F)
  find_active_portfolio_intent ticker = first_where (is_active_intent (normalize_ticker ticker))

  abbrev pub max_weight_of : Option (PortfolioIntentConfig F) → Option F
  max_weight_of none = none
  max_weight_of (some intent) = some intent.max_weight

  abbrev pub interactions_of : Option (PortfolioIntentConfig F) → List String
  interactions_of none = []
  interactions_of (some intent) = intent.allowed_tactical_interactions

  -- `is_core_holding_approved`
  unfoldable pub is_core_holding_approved : String → List (PortfolioIntentConfig F) → Bool
  is_core_holding_approved ticker intents =
      not (is_none (find_active_portfolio_intent ticker intents))

  -- `max_weight_for_ticker`
  unfoldable pub max_weight_for_ticker : String → List (PortfolioIntentConfig F) → Option F
  max_weight_for_ticker ticker intents = max_weight_of (find_active_portfolio_intent ticker intents)

  -- `allowed_tactical_interactions_for_ticker`
  unfoldable pub allowed_tactical_interactions_for_ticker :
      String → List (PortfolioIntentConfig F) → List String
  allowed_tactical_interactions_for_ticker ticker intents =
      interactions_of (find_active_portfolio_intent ticker intents)

  -- `tactical_interaction_allowed`
  unfoldable pub tactical_interaction_allowed :
      String → List (PortfolioIntentConfig F) → String → Bool
  tactical_interaction_allowed ticker intents interaction =
      contains (allowed_tactical_interactions_for_ticker ticker intents) interaction
