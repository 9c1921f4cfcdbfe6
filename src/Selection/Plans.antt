-- ===== src/Selection/Plans.antt =====
-- What `ExpressionSelector.select` guarantees of the expression that it chooses and of its fallbacks.
use equity_research_agent.Prelude.{
  String, ◌≡◌, refl, subst, sym, ◌∙◌, ap, true, false, List, [], ◌∷◌, map, Option, none, some,
  length, All, Occurs, is_empty, keep, lookup, Dict, arith, if◌then◌else◌,
}
use equity_research_agent.Prelude.Int.{leb_ℤ}
use equity_research_agent.Prelude.Sorting.{
  sorted, sorted-All, IsSorted, sorted-IsSorted, sorted-keeps, length-sorted,
}
use equity_research_agent.Float.{Float}
use equity_research_agent.Strategies.{CandidateScoreRecord}
use equity_research_agent.Selection.Expressions.{
  StrategyDefinitionRecord, Ranked, ExpressionSelectionPlan, ranks_before, plan_of, rank_from,
  rank_allowed_expressions, allowed_expression_bucket_ids, select_expression,
}
use equity_research_agent.Selection.Ranking.{
  IsRanked, Covers, is_active, rank_from-Covers, rank_from-IsRanked, length-rank_from, none_active,
}
use equity_research_agent.Prelude.Kept.{Occurs-all}

ranks_before_total : (a b : Ranked) → ranks_before a b ≡ false → ranks_before b a ≡ true
ranks_before_total a b h = ground arith

ranks_before_trans :
    (a b c : Ranked) → ranks_before a b ≡ true → ranks_before b c ≡ true → ranks_before a c ≡ true
ranks_before_trans a b c h k = ground arith

-- sorting loses no item
sorted-Occurs : (xs : List Ranked) → All (λ r. Occurs r (sorted ranks_before xs)) xs
sorted-Occurs xs =
    sorted-All (λ r. Occurs r (sorted ranks_before xs)) ranks_before xs
      (Occurs-all [] (sorted ranks_before xs))

module _ {F : Type 0} ⦃fl : Float F⦄ (c : CandidateScoreRecord F)
    (expressions : Dict StrategyDefinitionRecord) where
  -- A plan for the allowed ids: its items, the chosen one first and then the fallbacks, fall in score. They are items of
  -- active allowed expressions, each place with an active one has its item, and they are as many as those places.
  pub record IsPlan (allowed : List String) (plan : ExpressionSelectionPlan) : Type 0 where
    pub best : Ranked
    pub rest : List Ranked
    pub selected :
        (plan.selected_expression ≡ best.expression)
        × (plan.selected_score ≡ best.score)
        × (plan.selected_reason ≡ best.reason)
    pub fallbacks : plan.fallback_expressions ≡ map (λ (r : Ranked). r.expression) rest
    pub falling : IsSorted (λ (a b : Ranked). leb_ℤ b.score a.score) (best ∷ rest)
    pub sound : All (IsRanked c expressions allowed) (best ∷ rest)
    pub complete : Covers c expressions 0 allowed (best ∷ rest)
    pub counted : length (best ∷ rest) ≡ length (keep (is_active c expressions) allowed)

  -- what an answer is for the allowed ids: a plan, or nothing where no allowed id has an active expression
  abbrev pub Answers : List String → Option ExpressionSelectionPlan → Type 0
  Answers allowed none = All (λ id. lookup id expressions ≡ none) allowed
  Answers allowed (some plan) = IsPlan allowed plan

  -- the items that are ordered
  abbrev ranking : List String → List Ranked
  ranking allowed = rank_from c expressions 0 allowed

  ordered-length :
      (allowed : List String)
      → length (sorted ranks_before (ranking allowed))
        ≡ length (keep (is_active c expressions) allowed)
  ordered-length allowed =
      length-sorted ranks_before ranks_before_total ranks_before_trans (ranking allowed)
      ∙ length-rank_from c expressions 0 allowed

  plan_of-Answers :
      (allowed : List String) (ordered : List Ranked)
      → sorted ranks_before (ranking allowed) ≡ ordered
      → Answers allowed (plan_of allowed ordered)
  unfolding plan_of
  plan_of-Answers allowed [] e =
      none_active c expressions allowed (sym (ordered-length allowed) ∙ ap length e)
  plan_of-Answers allowed (best ∷ rest) e = record {
    best = best;
    rest = rest;
    selected = (refl, refl, refl);
    fallbacks = refl;
    falling =
        subst (IsSorted ranks_before) e
          (sorted-IsSorted ranks_before ranks_before_total ranks_before_trans (ranking allowed));
    sound = subst (All (IsRanked c expressions allowed)) e (
        sorted-keeps ranks_before ranks_before_total ranks_before_trans
          (IsRanked c expressions allowed) (ranking allowed)
          (rank_from-IsRanked c expressions [] allowed));
    complete = subst (Covers c expressions 0 allowed) e (
        rank_from-Covers c expressions 0 allowed (sorted ranks_before (ranking allowed))
          (sorted-Occurs (ranking allowed)));
    counted = ap length (sym e) ∙ ordered-length allowed;
  }

  allowed-Answers :
      (allowed : List String)
      → Answers allowed (
          if is_empty allowed
          then none
          else plan_of allowed (rank_allowed_expressions c allowed expressions))
  unfolding rank_allowed_expressions
  allowed-Answers [] = tt
  allowed-Answers (id ∷ ids) = plan_of-Answers (id ∷ ids) _ refl

  -- The plan for a strategy goes through all its allowed ids. There is none only where none of them has an active
  -- expression. Else the chosen expression and its fallbacks are those of the ids that have one, each place among the
  -- ids once: a place counts with a hundred times the rank of its expression less the place, and the expressions stand
  -- by falling score, the chosen one first, with its score and its reason in the plan.
  pub select_expression-Answers :
      (definition : StrategyDefinitionRecord)
      → Answers
          (allowed_expression_bucket_ids definition)
          (select_expression c (some definition) expressions)
  unfolding select_expression
  select_expression-Answers definition = allowed-Answers (allowed_expression_bucket_ids definition)
