-- ===== src/Policy/Ordered.antt =====
-- The resolved plan of a decision, as the execution walks through it.
use equity_research_agent.Prelude.{
  ℕ, suc, ◌≤◌, ◌<◌, String, ◌==◌, ◌≡◌, refl, sym, subst, ap, Bool, true, false, not, List, [], ◌∷◌,
  Option, none, some, length, All, keep, Dict, lookup, arith, if_cases,
}
use equity_research_agent.Prelude.Unique.{Unique, has_key, gone, without-Unique}
use equity_research_agent.Prelude.Kept.{All-keep}
use equity_research_agent.Strategies.{CandidateScoreRecord, TradeClassificationRecord}
use equity_research_agent.Selection.Expressions.{StrategyDefinitionRecord}
use equity_research_agent.Execution.Attempts.{TradingDecisionRecord}
use equity_research_agent.Execution.Fallback.Chains.{
  HasId, HasDistinctIds, id_of, repeat_next, repeat_next-ends, behind, behind-length,
}
use equity_research_agent.Policy.{
  selected_id, fallback_ids, plan_entry, fallback_entries, resolve_expression_fallback_plan,
}

-- the ids of a classification are texts, and no fallback stands twice
pub record IsDistinct (c : TradeClassificationRecord) : Type 0 where
  pub selected_named : (selected_id c == "") ≡ false
  pub fallback_named : All (λ id. (id == "") ≡ false) c.fallback_expression_bucket_ids
  pub fallback_unique : Unique (λ id. id) c.fallback_expression_bucket_ids

module _ (action : String) (c : TradeClassificationRecord)
    (definitions : Dict StrategyDefinitionRecord) where
  entry-id :
      (chosen : Bool) (rank : ℕ) (id : String) (found : Option StrategyDefinitionRecord)
      → (plan_entry action c chosen rank id found).expression_bucket_id ≡ some id
  unfolding plan_entry
  entry-id chosen rank id none = refl
  entry-id chosen rank id (some definition) = refl

  pub entry-HasId :
      (chosen : Bool) (rank : ℕ) (id : String) (found : Option StrategyDefinitionRecord)
      → (id == "") ≡ false
      → HasId (plan_entry action c chosen rank id found)
  entry-HasId chosen rank id found h = (id, rw (entry-id chosen rank id found, h) refl)

  pub entry-id_of :
      (chosen : Bool) (rank : ℕ) (id : String) (found : Option StrategyDefinitionRecord)
      → (id == "") ≡ false
      → id_of (plan_entry action c chosen rank id found) ≡ id
  entry-id_of chosen rank id found h = rw (entry-id chosen rank id found, h) refl

  pub entries-HasId :
      (rank : ℕ) (ids : List String)
      → All (λ id. (id == "") ≡ false) ids
      → All HasId (fallback_entries action c definitions rank ids)
  unfolding fallback_entries
  entries-HasId rank [] h = tt
  entries-HasId rank (id ∷ ids) (named, rest) =
      (entry-HasId false rank id (lookup id definitions) named, entries-HasId (suc rank) ids rest)

  entries-has_key :
      (k : String) (rank : ℕ) (ids : List String)
      → All (λ id. (id == "") ≡ false) ids
      → has_key id_of k (fallback_entries action c definitions rank ids) ≡ has_key (λ id. id) k ids
  unfolding fallback_entries
  entries-has_key k rank [] h = refl
  entries-has_key k rank (id ∷ ids) (named, rest) =
      rw
        (
          entry-id_of false rank id (lookup id definitions) named,
          entries-has_key k (suc rank) ids rest,
        )
        refl

  entries-Unique :
      (rank : ℕ) (ids : List String)
      → All (λ id. (id == "") ≡ false) ids
      → Unique (λ id. id) ids
      → Unique id_of (fallback_entries action c definitions rank ids)
  unfolding fallback_entries
  entries-Unique rank [] h u = tt
  entries-Unique rank (id ∷ ids) (named, rest) (new, others) = (
    rw
        (
          entry-id_of false rank id (lookup id definitions) named,
          entries-has_key id (suc rank) ids rest,
        )
        new,
    entries-Unique (suc rank) ids rest others,
  )

  entries-length :
      (rank : ℕ) (ids : List String)
      → length (fallback_entries action c definitions rank ids) ≡ length ids
  unfolding fallback_entries
  entries-length rank [] = refl
  entries-length rank (id ∷ ids) = ap suc (entries-length (suc rank) ids)

keep-length : (test : String → Bool) (ids : List String) → length (keep test ids) ≤ length ids
keep-length test [] = omega arith
keep-length test (id ∷ ids) = ground (arith, keep-length test ids)

resolved-HasDistinctIds :
    {F : Type 0} (candidate : CandidateScoreRecord F) (c : TradeClassificationRecord)
    (definitions : Dict StrategyDefinitionRecord)
    → IsDistinct c
    → HasDistinctIds (resolve_expression_fallback_plan candidate c definitions)
unfolding resolve_expression_fallback_plan
resolved-HasDistinctIds candidate c definitions h =
    let ids = fallback_ids c in
    let named =
      All-keep (λ item. not (item == selected_id c)) (λ id. (id == "") ≡ false)
        c.fallback_expression_bucket_ids h.fallback_named in
    let selected = lookup (selected_id c) definitions in
    record {
      named = (
        entry-HasId candidate.action c definitions true 0 (selected_id c) selected h.selected_named,
        entries-HasId candidate.action c definitions 1 ids named,
      );
      distinct = (
        rw
            (
              entry-id_of candidate.action c definitions true 0 (selected_id c) selected
                  h.selected_named,
              entries-has_key candidate.action c definitions (selected_id c) 1 ids named,
            )
            (gone (λ id. id) (selected_id c) c.fallback_expression_bucket_ids),
        entries-Unique candidate.action c definitions 1 ids named (
            without-Unique (λ id. id) (selected_id c) c.fallback_expression_bucket_ids
              h.fallback_unique),
      );
    }

-- behind an id of the plan are at most the fallbacks
resolved-fits :
    {F : Type 0} (candidate : CandidateScoreRecord F) (c : TradeClassificationRecord)
    (definitions : Dict StrategyDefinitionRecord) (id : String)
    → length (behind id (resolve_expression_fallback_plan candidate c definitions))
      ≤ length c.fallback_expression_bucket_ids
unfolding resolve_expression_fallback_plan
resolved-fits candidate c definitions id =
    let kept = keep-length (λ item. not (item == selected_id c)) c.fallback_expression_bucket_ids in
    let entries = fallback_entries candidate.action c definitions 1 (fallback_ids c) in
    let chosen =
      plan_entry candidate.action c true 0 (selected_id c) (lookup (selected_id c) definitions) in
    let same = entries-length candidate.action c definitions 1 (fallback_ids c) in
    let rest = behind-length id entries in
    if_cases (λ l. length l ≤ length c.fallback_expression_bucket_ids) (id_of chosen == id) entries
      (behind id entries) (λ here. omega arith) λ there. omega arith

-- A decision with the plan that is resolved from its classification, where the selected and all
-- fallback expressions have an id and no fallback stands twice, moves on at most once for each
-- fallback: one move more finds no next expression.
pub resolved-Ends :
    {F : Type 0} (candidate : CandidateScoreRecord F) (c : TradeClassificationRecord)
    (definitions : Dict StrategyDefinitionRecord) (d : TradingDecisionRecord)
    → IsDistinct c
    → d.expression_fallback_plan ≡ resolve_expression_fallback_plan candidate c definitions
    → repeat_next (suc (length c.fallback_expression_bucket_ids)) d ≡ none
resolved-Ends candidate c definitions d h e =
    repeat_next-ends (suc (length c.fallback_expression_bucket_ids)) d
      (subst HasDistinctIds (sym e) (resolved-HasDistinctIds candidate c definitions h))
      (let fits = resolved-fits candidate c definitions d.expression_bucket_id in
        subst
          (λ plan.
            length (behind d.expression_bucket_id plan)
            < suc (length c.fallback_expression_bucket_ids))
          (sym e) (omega arith))
