-- ===== src/Events.antt =====
-- trading/events/risk.py: assessments of calendar events against a portfolio and pending candidates.
-- A `datetime` is a number of microseconds, and its `date()` the number of the day.
use Prim.Native.Nat.{◌/◌, ◌-◌}
use Prim.Native.String.{◌++◌ as concat}
use equity_research_agent.Prelude.{
  ℕ, String, ◌==◌, Bool, true, false, not, ◌&&◌, ◌||◌, List, [], ◌∷◌, Option, none, some, foldl,
  if◌then◌else◌, leb, or_else, filled, contains, is_none, Dict, lookup, insert, is_empty,
}
use equity_research_agent.Prelude.Text.{strip, upper, lower}
use equity_research_agent.Float.{Float, zero_f}
use equity_research_agent.Risk.Context.{PortfolioPosition, PortfolioContext}

abbrev pub microseconds_per_day : ℕ
microseconds_per_day = 86400000000

unfoldable pub date : ℕ → ℕ
date t = t / microseconds_per_day

-- the attributes that the code reads of a calendar event
pub record CalendarEvent : Type 0 where
  pub event_key : String
  pub calendar_event_id : String
  pub ticker : Option String
  pub event_type : String
  pub event_time : ℕ
  pub available_for_decision_at : ℕ
  pub severity_hint : Option String
  pub title : String
  pub relationship_context : Option String

pub record PendingCandidate : Type 0 where
  pub ticker : String
  pub candidate_score_id : Option String

pub record AssessmentMetadata (F : Type 0) : Type 0 where
  pub position_notional : F
  pub candidate_score_id : Option String
  pub relationship_context : Option String
  pub why_visible : String
  pub default_visibility : String
  pub summary_bucket : String

-- `ticker` is stripped and put in capitals by `__post_init__`
pub record PortfolioEventRiskAssessmentRecord (F : Type 0) : Type 0 where
  pub ticker : String
  pub risk_source : String
  pub severity : String
  pub event_type : String
  pub days_until_event : Option ℕ
  pub affects_existing_position : Bool
  pub affects_pending_trade : Bool
  pub portfolio_event_risk_assessment_id : String
  pub calendar_event_id : String
  pub portfolio_risk_snapshot_id : Option String
  pub decision_time : ℕ
  pub available_for_decision_at : ℕ
  pub recommended_action : String
  pub rationale : String
  pub metadata_json : AssessmentMetadata F

-- `_risk_source`
unfoldable pub risk_source : CalendarEvent → String
risk_source e =
    let t = e.event_type in
    if t == "earnings"
    then "own_event"
    else if t == "readthrough"
    then "readthrough"
    else if t == "macro"
    then "macro"
    else if t == "option_expiry"
    then "option_expiry"
    else "company_specific"

abbrev pub severities : List String
severities = "low" ∷ "medium" ∷ "high" ∷ "critical" ∷ "watch" ∷ []

-- `_severity`
unfoldable pub severity : CalendarEvent → String
severity e =
    let s = lower (or_else (filled e.severity_hint) "medium") in
    if contains severities s then s else "medium"

-- whole days from the decision to the event, 0 for one that is past
unfoldable pub days_between : CalendarEvent → ℕ → ℕ
unfolding date
days_between e decision_time = date e.event_time - date decision_time

-- `_is_relevant_event`
unfoldable pub is_relevant_event : CalendarEvent → Bool → Bool → Bool → ℕ → Bool
is_relevant_event e position pending exposed decision_time =
    if position || pending
    then true
    else if e.event_type == "macro"
    then exposed
      && contains ("high" ∷ "critical" ∷ []) (severity e)
      && leb (days_between e decision_time) 3
    else false

-- `_recommended_action`
unfoldable pub recommended_action : String → ℕ → Bool → Bool → String
recommended_action source days position pending =
    if source == "own_event" && pending && leb days 5
    then "block_open"
    else if contains ("macro" ∷ "option_expiry" ∷ []) source
    then "tighten_risk"
    else if position
    then "review_position"
    else "monitor"

-- `_why_visible`
unfoldable pub why_visible : Bool → Bool → String
why_visible position pending =
    if position && pending
    then "existing_position_and_pending_trade"
    else if position
    then "existing_position"
    else if pending
    then "pending_trade"
    else "portfolio_context"

-- a dictionary by ticker in capitals: a later item takes the place of an earlier one
unfoldable pub by_ticker {ℓ} : {A : Type ℓ} → (A → String) → List A → Dict A
by_ticker ticker = foldl (λ d a. insert (upper (ticker a)) a d) []

-- `symbol in d if symbol else False`
unfoldable pub known {ℓ} : {A : Type ℓ} → Option String → Dict A → Bool
known none d = false
known (some s) d = if s == "" then false else not (is_none (lookup s d))

-- `_rationale`, with the digits of the number of days
abbrev rationale : (ℕ → String) → String → String → ℕ → String
rationale digits source title days =
    concat title (
      concat " maps to " (concat source (concat " risk within " (concat (digits days) " day(s)."))))

-- what `uuid5` makes of a name, and the decimal digits of a number of days
module _ {F : Type 0} ⦃fl : Float F⦄ (uuid5 : String → String) (digits : ℕ → String) where
  unfoldable pub assess :
      CalendarEvent
      → Dict (PortfolioPosition F)
      → Dict PendingCandidate
      → ℕ
      → Option String
      → PortfolioEventRiskAssessmentRecord F
  assess e positions candidates decision_time snapshot_id =
      let symbol : Option String = elim e.ticker [ none ↦ none | some t ↦ some (upper t) ] in
      let position = known symbol positions in
      let pending = known symbol candidates in
      let source = risk_source e in
      let days = days_between e decision_time in
      let name = or_else (filled symbol) "macro" in
      record {
        ticker = upper (strip (or_else (filled symbol) "PORTFOLIO"));
        risk_source = source;
        severity = severity e;
        event_type = e.event_type;
        days_until_event = some days;
        affects_existing_position = position;
        affects_pending_trade = pending;
        portfolio_event_risk_assessment_id =
            uuid5 (concat e.event_key (concat "|" (concat name (concat "|" source))));
        calendar_event_id = e.calendar_event_id;
        portfolio_risk_snapshot_id = snapshot_id;
        decision_time = decision_time;
        available_for_decision_at = e.available_for_decision_at;
        recommended_action = recommended_action source days position pending;
        rationale = rationale digits source e.title days;
        metadata_json = record {
          position_notional = elim (lookup (or_else symbol "") positions) [
            | none ↦ zero_f
            | some p ↦ p.notional_exposure
          ];
          candidate_score_id = elim (lookup (or_else symbol "") candidates) [
            | none ↦ none
            | some c ↦ c.candidate_score_id
          ];
          relationship_context = e.relationship_context;
          why_visible = why_visible position pending;
          default_visibility = "show";
          summary_bucket = source;
        };
      }

  unfoldable pub assess_all :
      List CalendarEvent
      → Dict (PortfolioPosition F)
      → Dict PendingCandidate
      → ℕ
      → Option String
      → List (PortfolioEventRiskAssessmentRecord F)
  assess_all [] positions candidates decision_time snapshot_id = []
  assess_all (e ∷ es) positions candidates decision_time snapshot_id =
      let rest = assess_all es positions candidates decision_time snapshot_id in
      let a = assess e positions candidates decision_time snapshot_id in
      let exposed = not (is_empty positions) || not (is_empty candidates) in
      if is_relevant_event e a.affects_existing_position a.affects_pending_trade exposed
        decision_time
      then a ∷ rest
      else rest

  -- `PortfolioEventRiskAssessmentPipeline.build_assessments`
  unfoldable pub build_assessments :
      List CalendarEvent
      → PortfolioContext F
      → List PendingCandidate
      → ℕ
      → Option String
      → List (PortfolioEventRiskAssessmentRecord F)
  build_assessments events context candidates decision_time snapshot_id =
      assess_all events (by_ticker (λ (p : PortfolioPosition F). p.ticker) context.positions)
        (by_ticker (λ (c : PendingCandidate). c.ticker) candidates) decision_time snapshot_id
