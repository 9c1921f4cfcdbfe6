-- ===== src/Learning/Bounds.antt =====
-- How far learned factors can move scores and the risk budget.
use equity_research_agent.Prelude.{
  String, ◌==◌, ◌≡◌, List, [], ◌∷◌, foldl, some, if_cases, Bool-cases, inl, inr, or_else, Dict,
  lookup, lookup-insert, arith,
}
use equity_research_agent.Float.{Float, FloatLaws, ◌≼◌, one_f, min_of}
use equity_research_agent.Float.Order.{min-le-left}
use equity_research_agent.Learning.{
  LearningFactorRecord, LearningAdjustments, raises_score, score_cap, with_score, apply_factor,
  add_factor, no_adjustments, clamped, build_learning_adjustments,
}

module _ {F : Type 0} ⦃fl : Float F⦄ where
  abbrev pub ScoresCapped : LearningAdjustments F → Type 0
  ScoresCapped a =
      (strategy : String) (x : F)
      → lookup strategy a.strategy_score_multiplier ≡ some x
      → x ≼ score_cap

  module _ (laws : FloatLaws F) where
    open laws use {lit-IsNumber, le_of_lt}

    with_score-capped :
        (factor : LearningFactorRecord) (scores : Dict F) (strategy : String) (x : F)
        → ((y : F) → lookup strategy scores ≡ some y → y ≼ score_cap)
        → lookup strategy (with_score factor scores) ≡ some x
        → x ≼ score_cap
    with_score-capped factor scores strategy x before found =
        let key = or_else factor.strategy_id "" in
        let raised =
          min_of score_cap (fl.times (or_else (lookup key scores) one_f) (fl.lit 110 2)) in
        let below : raised ≼ score_cap = min-le-left laws score_cap _ (lit-IsNumber 125 2) in
        elim (Bool-cases (raises_score factor)) [
          | inl raises ↦
              ground (
                arith,
                below,
                lookup-insert key strategy raised scores,
                before x,
                rw raises at found,
              )
          | inr keeps ↦ before x (rw keeps at found)
        ]

    add_factor-ScoresCapped :
        (a : LearningAdjustments F) (factor : LearningFactorRecord)
        → ScoresCapped a
        → ScoresCapped (add_factor a factor)
    unfolding add_factor apply_factor
    add_factor-ScoresCapped a factor h =
        if_cases ScoresCapped (factor.status == "shadow") _ _ (λ _. h)
          λ _.
            if_cases ScoresCapped (factor.status == "active") _ _
              (λ _ strategy x found.
                with_score-capped factor a.strategy_score_multiplier strategy x (h strategy) found)
              λ _. h

    foldl-ScoresCapped :
        (factors : List LearningFactorRecord) (a : LearningAdjustments F)
        → ScoresCapped a
        → ScoresCapped (foldl add_factor a factors)
    foldl-ScoresCapped [] a h = h
    foldl-ScoresCapped (factor ∷ factors) a h =
        foldl-ScoresCapped factors (add_factor a factor) (add_factor-ScoresCapped a factor h)

    clamped-between :
        (x : F) → fl.lit 5 1 ≼ score_cap → (fl.lit 5 1 ≼ clamped x) × (clamped x ≼ score_cap)
    clamped-between x half =
        let below = min-le-left laws score_cap x (lit-IsNumber 125 2) in
        (
          ground (arith, le_of_lt (fl.lit 5 1) (min_of score_cap x), lit-IsNumber 5 1),
          ground (arith, below),
        )

    -- Where 0.5 is at most 1.25, the risk budget multiplier is between the two for any factors, and no strategy has
    -- a score multiplier above 1.25.
    pub learning-bounds :
        (factors : List LearningFactorRecord)
        → fl.lit 5 1 ≼ score_cap
        → let a : LearningAdjustments F = build_learning_adjustments factors in
          (fl.lit 5 1 ≼ a.risk_budget_multiplier)
          × (a.risk_budget_multiplier ≼ score_cap)
          × ((strategy : String) (x : F)
              → lookup strategy a.strategy_score_multiplier ≡ some x
              → x ≼ score_cap)
    unfolding build_learning_adjustments lookup
    learning-bounds factors half =
        let a = foldl add_factor no_adjustments factors in
        let (least, most) = clamped-between a.risk_budget_multiplier half in
        (
          least,
          most,
          foldl-ScoresCapped factors no_adjustments (λ strategy x found. absurd (cc found)),
        )
