-- ===== src/Risk/Gate/Passes.antt =====
-- What a trade has passed that `RiskManager.evaluate` does not reject.
use equity_research_agent.Prelude.{
  String, ◌==◌, ◌≡◌, refl, ◌∙◌, sym, ap, not, Bool, true, false, ◌&&◌, List, [], ◌∷◌, ◌++◌, Option,
  none, some, ◌⊎◌, inl, inr, contains, keep, any_of, is_empty, is_none, Bool-cases, arith, All,
  false≢true, if◌then◌else◌,
}
use equity_research_agent.Float.{Float}
use equity_research_agent.Risk.Context.{
  PortfolioContext, TradeRiskRequest, PositionSizingDecisionRecord, PositionRiskActionRecord,
  PortfolioRiskIntentRecord,
}
use equity_research_agent.Risk.Config.{RiskLimitConfig}
use equity_research_agent.Risk.Intent.{concerns, matching_planner_position_action}
use equity_research_agent.Risk.Signals.{has_missing_or_stale_signals, blocks, is_macro_only_bearish}
use equity_research_agent.Risk.Decision.{Verdict, decision}
use equity_research_agent.Risk.Gate.{
  verdict, evaluate, blocks_open, unapproved_core, no_margin_estimate,
}
use equity_research_agent.Risk.Gate.Blocks.{block_open_wins}

module _ {F : Type 0} where
  -- the actions of the planner on a trade that block it
  abbrev pub blocking_actions :
      TradeRiskRequest F → Option (PortfolioRiskIntentRecord F) → List (PositionRiskActionRecord F)
  blocking_actions r none = []
  blocking_actions r (some intent) =
      keep
        (λ a.
          concerns r.candidate.ticker r.classification.trade_identity a && a.action == "block_open")
        intent.position_actions

  -- A trade that may go on: no action of the planner blocks it, a core holding is approved, every signal that it
  -- needs is there and current, a stock is not sold on macro evidence alone, the margin is estimated, and an option has its metadata.
  pub record IsPassed (r : TradeRiskRequest F) (context : PortfolioContext F)
      (intent : Option (PortfolioRiskIntentRecord F)) : Type 0 where
    pub unblocked : blocking_actions r intent ≡ []
    pub core_approved :
        ((r.classification.trade_identity == "core_holding") ≡ false)
        ⊎ (contains context.approved_core_tickers r.candidate.ticker ≡ true)
    pub signals_present :
        (r.candidate.missing_required_signals ≡ [])
        × (r.candidate.unsupported_missing_signal_families ≡ [])
    pub signals_current : All (λ entry. blocks r entry ≡ false) r.signal_freshness
    pub evidence : (r.instrument_type == "stock" && is_macro_only_bearish r) ≡ false
    pub estimated :
        (is_none r.estimated_margin_requirement ≡ false)
        × (is_none r.estimated_buying_power_effect ≡ false)
    pub option_complete :
        ((r.instrument_type == "option") ≡ false) ⊎ (r.option_risk_metadata_complete ≡ true)

  all_current :
      (r : TradeRiskRequest F) (entries : List (String × String))
      → any_of (blocks r) entries ≡ false
      → All (λ entry. blocks r entry ≡ false) entries
  all_current r [] h = tt
  all_current r (entry ∷ entries) h = (ground arith, all_current r entries (ground arith))

empty_if : {A : Type 0} (xs : List A) → not (is_empty xs) ≡ false → xs ≡ []
empty_if [] h = refl
empty_if (x ∷ xs) h = absurd (ground arith)

either_of : (a b : Bool) → (a && not b) ≡ false → (a ≡ false) ⊎ (b ≡ true)
either_of true true h = inr refl
either_of false b h = inl refl
either_of true false h = absurd (ground arith)

-- a kept item stands in the list
kept_or_none :
    {A : Type 0} (test : A → Bool) (xs : List A)
    → (keep test xs ≡ [])
      ⊎ ((pre : List A) × (a : A) × (post : List A) × (xs ≡ pre ++ a ∷ post) × (test a ≡ true))
kept_or_none test [] = inl refl
kept_or_none test (x ∷ xs) = elim (Bool-cases (test x)) [
  | inl here ↦ inr ([], x, xs, refl, here)
  | inr there ↦ elim (kept_or_none test xs) [
    | inl nothing ↦ inl (rw there nothing)
    | inr (pre, a, post, e, h) ↦ inr (x ∷ pre, a, post, ap (λ l. x ∷ l) e, h)
  ]
]

module _ {F : Type 0} ⦃fl : Float F⦄ where
  -- behind a test that rejects, a verdict that is no rejection
  behind_test :
      (test : Bool) (x v : Verdict F)
      → (x.status == "rejected") ≡ true
      → ((if test then x else v).status == "rejected") ≡ false
      → (test ≡ false) × ((v.status == "rejected") ≡ false)
  behind_test true x v e h = absurd (false≢true (sym h ∙ e))
  behind_test false x v e h = (refl, h)

  -- a verdict that is no rejection has passed these tests
  verdict-tests :
      (r : TradeRiskRequest F) (final : F) (context : PortfolioContext F)
      (config : RiskLimitConfig F) (intent : Option (PortfolioRiskIntentRecord F))
      (action : Option (PositionRiskActionRecord F))
      → ((verdict r final context config intent action).status == "rejected") ≡ false
      → (unapproved_core r context ≡ false)
        × (has_missing_or_stale_signals r ≡ false)
        × ((r.instrument_type == "stock" && is_macro_only_bearish r) ≡ false)
        × (no_margin_estimate r ≡ false)
        × ((r.instrument_type == "option" && not r.option_risk_metadata_complete) ≡ false)
  unfolding verdict
  verdict-tests r final context config intent action h =
      let (open_allowed, h1) = behind_test (blocks_open action) _ _ refl h in
      let (core, h2) = behind_test (unapproved_core r context) _ _ refl h1 in
      let (signals, h3) = behind_test (has_missing_or_stale_signals r) _ _ refl h2 in
      let (evidence, h4) =
        behind_test (r.instrument_type == "stock" && is_macro_only_bearish r) _ _ refl h3 in
      let (margin, h5) = behind_test (no_margin_estimate r) _ _ refl h4 in
      let (metadata, h6) =
        behind_test (r.instrument_type == "option" && not r.option_risk_metadata_complete) _ _ refl
          h5 in
      (core, signals, evidence, margin, metadata)

module _ {F : Type 0} ⦃fl : Float F⦄ (snapshot_uuid fresh : String) (r : TradeRiskRequest F)
    (sizing : PositionSizingDecisionRecord F) (context : PortfolioContext F)
    (config : RiskLimitConfig F) where
  unblocked_if :
      (intent : Option (PortfolioRiskIntentRecord F))
      → ((evaluate snapshot_uuid fresh r sizing context config intent).status == "rejected") ≡ false
      → blocking_actions r intent ≡ []
  unblocked_if none h = refl
  unblocked_if (some intent) h =
      let ticker = r.candidate.ticker in
      let identity = r.classification.trade_identity in
      elim (kept_or_none (λ a. concerns ticker identity a && a.action == "block_open")
        intent.position_actions) [
          | inl nothing ↦ nothing
          | inr (pre, a, post, e, test) ↦
              let (rejected, weight, rules) =
                block_open_wins snapshot_uuid fresh r sizing context config intent pre post a e
                  (ground arith) (ground arith) in
              absurd (false≢true (sym h ∙ ap (λ s. s == "rejected") rejected))
        ]

  -- A trade that the gate does not reject, whatever the planner and the portfolio say, has passed all of these: no
  -- action of the planner for its ticker and identity is `block_open`, a core holding is an approved one, no required
  -- signal is missing, no signal family that the trade needs is missing, stale or failed, a stock does not have
  -- macro-only bearish evidence, both margin estimates are there, and an option has its risk metadata.
  pub evaluate-IsPassed :
      (intent : Option (PortfolioRiskIntentRecord F))
      → ((evaluate snapshot_uuid fresh r sizing context config intent).status == "rejected") ≡ false
      → IsPassed r context intent
  unfolding evaluate decision has_missing_or_stale_signals
  evaluate-IsPassed intent h =
      let action =
        matching_planner_position_action intent r.candidate.ticker
          r.classification.trade_identity in
      let (core, signals, evidence, margin, metadata) =
        verdict-tests r sizing.final_weight context config intent action h in
      record {
        unblocked = unblocked_if intent h;
        core_approved =
            either_of (r.classification.trade_identity == "core_holding")
              (contains context.approved_core_tickers r.candidate.ticker) core;
        signals_present = (
          empty_if r.candidate.missing_required_signals (ground arith),
          empty_if r.candidate.unsupported_missing_signal_families (ground arith),
        );
        signals_current = all_current r r.signal_freshness (ground arith);
        evidence = evidence;
        estimated = (ground arith, ground arith);
        option_complete =
            either_of (r.instrument_type == "option") r.option_risk_metadata_complete metadata;
      }
