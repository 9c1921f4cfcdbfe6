-- ===== src/Risk/Signals.antt =====
-- The signal tests of trading/risk/manager.py: which missing or stale evidence blocks a trade.
use equity_research_agent.Prelude.{
  String, ◌==◌, Bool, false, not, ◌&&◌, ◌||◌, List, [], ◌∷◌, contains, any_of, all_of, is_empty,
  if◌then◌else◌,
}
use equity_research_agent.Risk.Context.{TradeRiskRequest}

abbrev blocking_signal_statuses : List String
blocking_signal_statuses = "missing" ∷ "stale" ∷ "failed" ∷ []

abbrev insider_required_strategies : List String
insider_required_strategies = "insider_accumulation_momentum_v1" ∷ []

abbrev events_news_required_strategies : List String
events_news_required_strategies =
    "catalyst_breakout_v1" ∷ "strong_theme_catalyst_continuation_v1"
    ∷ "strong_theme_no_clear_near_term_entry_v1" ∷ "earnings_drift_v1" ∷ []

abbrev fundamental_required_strategies : List String
fundamental_required_strategies =
    "valuation_repair_quality_software_v1" ∷ "core_accumulation_on_pullback_v1" ∷ []

-- the signal sources that justify no bearish trade of one name by themselves
abbrev blocked_sources : List String
blocked_sources = "macro" ∷ "valuation" ∷ "rsi" ∷ "generic_extended_stock" ∷ []

module _ {F : Type 0} where
  -- `_is_blocking_signal_family`
  unfoldable pub is_blocking_signal_family : TradeRiskRequest F → String → Bool
  is_blocking_signal_family r family =
      let strategy_id = r.candidate.strategy_id in
      if family == "technical"
      then r.instrument_type == "stock" || r.instrument_type == "option"
      else if family == "option_chain"
      then r.instrument_type == "option"
      else if family == "insider"
      then contains insider_required_strategies strategy_id
      else if family == "events_news"
      then contains events_news_required_strategies strategy_id
      else if family == "fundamental"
      then contains fundamental_required_strategies strategy_id
      else false

  abbrev pub blocks : TradeRiskRequest F → String × String → Bool
  blocks r (family, status) =
      contains blocking_signal_statuses status && is_blocking_signal_family r family

  -- `_has_missing_or_stale_signals`
  unfoldable pub has_missing_or_stale_signals : TradeRiskRequest F → Bool
  has_missing_or_stale_signals r =
      not (is_empty r.candidate.missing_required_signals)
      || not (is_empty r.candidate.unsupported_missing_signal_families)
      || any_of (blocks r) r.signal_freshness

  -- `_is_macro_only_bearish`
  unfoldable pub is_macro_only_bearish : TradeRiskRequest F → Bool
  is_macro_only_bearish r =
      r.candidate.direction == "bearish"
      && not (is_empty r.bearish_signal_sources)
      && all_of (contains blocked_sources) r.bearish_signal_sources
      && not r.direct_company_negative_evidence
