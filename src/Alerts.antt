-- ===== src/Alerts.antt =====
-- trading/phases/intraday/news_alerts.py: the alerts of an intraday phase. The ids of `uuid4` are an argument; of
-- an item's metadata the two keys that the code reads are fields.
pub mod Dedupe
mod Tests
use equity_research_agent.Prelude.{
  ℕ, ◌+◌, String, ◌==◌, Bool, true, false, not, ◌&&◌, ◌||◌, List, [], ◌∷◌, ◌++◌, foldl, Option,
  none, some, if◌then◌else◌, ltb, eqb, text_le, contains, or_else, same_text, Dict, lookup,
}
use equity_research_agent.Prelude.Text.{strip, lower, normalize_ticker, is_infix}
use equity_research_agent.Prelude.Sorting.{sorted}
use equity_research_agent.Float.{Float}

-- `AlertSourceItem`
pub record AlertSourceItem (F : Type 0) : Type 0 where
  pub alert_item_id : String
  pub ticker : String
  pub source_ticker : Option String
  pub source_family : String
  pub alert_type : String
  pub sentiment : Option String
  pub importance : Option String
  pub importance_score : Option F
  pub headline : Option String
  pub summary : Option String
  pub provider : String
  pub dedupe_key : String
  pub published_at : ℕ
  pub available_for_decision_at : ℕ
  pub strategy_relevance : List String
  pub theme_tags : List String

-- `NewsAlertRecord`, with the keys that the code writes into its metadata
pub record NewsAlertRecord (F : Type 0) : Type 0 where
  pub news_alert_id : String
  pub ticker : String
  pub source_ticker : Option String
  pub alert_type : String
  pub sentiment : Option String
  pub severity : String
  pub source : String
  pub published_at : ℕ
  pub headline : Option String
  pub summary : Option String
  pub strategy_relevance : List String
  pub affected_positions : List String
  pub affected_candidates : List String
  pub affected_themes : List String
  pub readthrough_source_ticker : Option String
  pub action_required : Bool
  pub dedupe_key : String
  pub event_news_item_id : Option String
  pub source_family : String
  pub source_record_id : String
  pub importance_score : Option F
  pub created_at : ℕ

-- the three arguments of `build_alerts` that say what a ticker affects
pub record Affected : Type 0 where
  pub positions_by_ticker : Dict (List String)
  pub candidates_by_ticker : Dict (List String)
  pub themes_by_ticker : Dict (List String)

-- one value of `_merge_themes`
abbrev pub add_theme : List String → String → List String
add_theme merged value =
    let normalized = strip value in
    if not (normalized == "") && not (contains merged normalized)
    then merged ++ normalized ∷ []
    else merged

-- `_merge_themes` on two sequences
abbrev pub merge_themes : List String → List String → List String
merge_themes left right = foldl add_theme (foldl add_theme [] left) right

module _ {F : Type 0} ⦃fl : Float F⦄ where
  abbrev pub scores_at_least : F → Option F → Bool
  scores_at_least bound none = false
  scores_at_least bound (some x) = fl.le bound x

  -- `classify_source_item_severity`
  unfoldable pub classify_source_item_severity : AlertSourceItem F → String
  classify_source_item_severity item =
      let importance = lower (or_else item.importance "") in
      if importance == "critical" || is_infix "bankruptcy" (lower item.alert_type)
      then "critical"
      else if importance == "high"
      then "high"
      else if importance == "medium"
      then "medium"
      else if scores_at_least (fl.lit 85 2) item.importance_score
      then "high"
      else if scores_at_least (fl.lit 5 1) item.importance_score
      then "medium"
      else "low"

  module _ (uuid4 : ℕ → String) (affected : Affected) where
    -- the record of one item
    abbrev pub alert_of : ℕ → AlertSourceItem F → NewsAlertRecord F
    alert_of n item =
        let ticker = normalize_ticker item.ticker in
        let severity = classify_source_item_severity item in
        record {
          news_alert_id = uuid4 n;
          ticker = ticker;
          source_ticker = item.source_ticker;
          alert_type = item.alert_type;
          sentiment = item.sentiment;
          severity = severity;
          source = item.provider;
          published_at = item.published_at;
          headline = item.headline;
          summary = item.summary;
          strategy_relevance = item.strategy_relevance;
          affected_positions = or_else (lookup ticker affected.positions_by_ticker) [];
          affected_candidates = or_else (lookup ticker affected.candidates_by_ticker) [];
          affected_themes =
              merge_themes (or_else (lookup ticker affected.themes_by_ticker) []) item.theme_tags;
          readthrough_source_ticker =
              if same_text item.source_ticker ticker then none else item.source_ticker;
          action_required = severity == "critical" || severity == "high";
          dedupe_key = item.dedupe_key;
          event_news_item_id =
              if item.source_family == "events_news" then some item.alert_item_id else none;
          source_family = item.source_family;
          source_record_id = item.alert_item_id;
          importance_score = item.importance_score;
          created_at = item.available_for_decision_at;
        }

    -- the loop of `build_alerts`, with the keys seen and the ids taken so far
    unfoldable pub alerts_of : List String → ℕ → List (AlertSourceItem F) → List (NewsAlertRecord F)
    alerts_of seen n [] = []
    alerts_of seen n (item ∷ items) =
        let known = contains seen item.dedupe_key in
        let rest =
          alerts_of (if known then seen else item.dedupe_key ∷ seen) (if known then n else n + 1)
            items in
        if known then rest else alert_of n item ∷ rest

    abbrev pub item_le : AlertSourceItem F → AlertSourceItem F → Bool
    item_le a b =
        ltb a.published_at b.published_at
        || eqb a.published_at b.published_at && text_le a.alert_item_id b.alert_item_id

    -- `build_alerts`
    unfoldable pub build_alerts : List (AlertSourceItem F) → List String → List (NewsAlertRecord F)
    build_alerts source_items existing_dedupe_keys =
        alerts_of existing_dedupe_keys 0 (sorted item_le source_items)
