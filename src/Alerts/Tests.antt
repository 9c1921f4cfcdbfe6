-- ===== src/Alerts/Tests.antt =====
-- The theorems of the news alerts at two items of one key.
use equity_research_agent.Prelude.{ℕ, String, some, none, List, [], ◌∷◌, All, eqb, if◌then◌else◌}
use equity_research_agent.Prelude.Int.{ℤ}
use equity_research_agent.Float.Micros.{micros}
use equity_research_agent.Alerts.{AlertSourceItem, Affected, build_alerts}
use equity_research_agent.Alerts.Dedupe.{AllNew, Covered, keys_of, build_alerts-covers}

abbrev ids : ℕ → String
ids n = if eqb n 0 then "alert-0" else "alert"

abbrev nothing : Affected
nothing = record { positions_by_ticker = []; candidates_by_ticker = []; themes_by_ticker = [] }

abbrev report : AlertSourceItem ℤ
report = record {
  alert_item_id = "n-1";
  ticker = "aapl";
  source_ticker = none;
  source_family = "events_news";
  alert_type = "earnings";
  sentiment = none;
  importance = some "high";
  importance_score = none;
  headline = none;
  summary = none;
  provider = "wire";
  dedupe_key = "aapl-earnings";
  published_at = 20;
  available_for_decision_at = 25;
  strategy_relevance = [];
  theme_tags = [];
}

abbrev items : List (AlertSourceItem ℤ)
items = report ∷ record report { alert_item_id = "n-0"; published_at = 10 } ∷ []

build_alerts-covers_example :
    let alerts = build_alerts ids nothing items [] in
    AllNew [] (keys_of alerts) × All (Covered ids nothing [] alerts) items
build_alerts-covers_example = build_alerts-covers ids nothing items []
