-- ===== src/Policy/ReadBack.antt =====
-- The fallbacks of a resolved plan, as the execution reads them back when it keeps the expression that it resolved to.
use equity_research_agent.Prelude.{
  ℕ, suc, String, ◌==◌, ◌≡◌, refl, ◌∙◌, ap, true, false, List, [], ◌∷◌, map, if◌then◌else◌, All,
  not, Dict, lookup, Bool-cases, inl, inr,
}
use equity_research_agent.Prelude.Kept.{All-keep}
use equity_research_agent.Strategies.{CandidateScoreRecord, TradeClassificationRecord}
use equity_research_agent.Selection.Expressions.{StrategyDefinitionRecord}
use equity_research_agent.Execution.Attempts.{PlanEntry, TradingDecisionRecord}
use equity_research_agent.Execution.Fallback.{
  remaining_from, remaining_fallback_expression_bucket_ids,
}
use equity_research_agent.Execution.Fallback.Chains.{HasId, id_of}
use equity_research_agent.Policy.{
  selected_id, fallback_ids, fallback_entries, resolve_expression_fallback_plan,
}
use equity_research_agent.Policy.Ordered.{entry-HasId, entries-HasId, entry-id_of}

-- the ids behind the first place of an id
abbrev pub after : String → List String → List String
after k [] = []
after k (id ∷ ids) = if id == k then ids else after k ids

matched-ids :
    (current : String) (ps : List PlanEntry)
    → All HasId ps
    → remaining_from current true ps ≡ map id_of ps
unfolding remaining_from
matched-ids current [] h = refl
matched-ids current (p ∷ ps) ((id, e), rest) =
    rw (remaining_from, e) (ap (λ ids. id ∷ ids) (matched-ids current ps rest))

remaining-after :
    (current : String) (ps : List PlanEntry)
    → All HasId ps
    → remaining_from current false ps ≡ after current (map id_of ps)
unfolding remaining_from
remaining-after current [] h = refl
remaining-after current (p ∷ ps) (named, rest) = elim (Bool-cases (id_of p == current)) [
  | inl here ↦ rw here (matched-ids current ps rest)
  | inr there ↦ rw there (remaining-after current ps rest)
]

entries-ids :
    (action : String) (c : TradeClassificationRecord) (definitions : Dict StrategyDefinitionRecord)
    (rank : ℕ) (ids : List String)
    → All (λ id. (id == "") ≡ false) ids
    → map id_of (fallback_entries action c definitions rank ids) ≡ ids
unfolding fallback_entries
entries-ids action c definitions rank [] h = refl
entries-ids action c definitions rank (id ∷ ids) (named, rest) =
    rw
      (
        entry-id_of action c definitions false rank id (lookup id definitions) named,
        entries-ids action c definitions (suc rank) ids rest,
      )
      refl

-- For a decision with the plan that is resolved from its classification, where the selected and
-- all fallback expressions have an id: the fallback ids that the execution reads back from the
-- plan are those behind the decision's own expression in the order of the classification, the
-- selected one first and its fallbacks without it.
pub remaining-resolved :
    {F : Type 0} (candidate : CandidateScoreRecord F) (c : TradeClassificationRecord)
    (definitions : Dict StrategyDefinitionRecord) (d : TradingDecisionRecord)
    → (selected_id c == "") ≡ false
    → All (λ id. (id == "") ≡ false) c.fallback_expression_bucket_ids
    → d.expression_fallback_plan ≡ resolve_expression_fallback_plan candidate c definitions
    → remaining_fallback_expression_bucket_ids d
      ≡ after d.expression_bucket_id (selected_id c ∷ fallback_ids c)
unfolding remaining_fallback_expression_bucket_ids resolve_expression_fallback_plan
remaining-resolved candidate c definitions d selected named e =
    let kept =
      All-keep (λ item. not (item == selected_id c)) (λ id. (id == "") ≡ false)
        c.fallback_expression_bucket_ids named in
    let action = candidate.action in
    let found = lookup (selected_id c) definitions in
    ap (λ plan. remaining_from d.expression_bucket_id false plan) e
    ∙ (remaining-after d.expression_bucket_id
          (resolve_expression_fallback_plan candidate c definitions)
          (
            entry-HasId action c definitions true 0 (selected_id c) found selected,
            entries-HasId action c definitions 1 (fallback_ids c) kept,
          )
        ∙ rw
            (
              entry-id_of action c definitions true 0 (selected_id c) found selected,
              entries-ids action c definitions 1 (fallback_ids c) kept,
            )
            refl)
