-- ===== src/Learning/Shadow.antt =====
-- Factors that are not active change nothing but the list of shadow factors.
use equity_research_agent.Prelude.{
  String, ◌==◌, ◌≡◌, refl, sym, ◌∙◌, ap, Bool, false, ◌||◌, List, [], ◌∷◌, ◌++◌, append-nil,
  append_assoc, foldl, map, if◌then◌else◌, both_cases, if_cases, keep,
}
use equity_research_agent.Float.{Float}
use equity_research_agent.Learning.{
  LearningFactorRecord, LearningAdjustments, apply_factor, with_score, with_budget, raises_score,
  tightens, loosens, add_factor, no_adjustments, build_learning_adjustments, clamped,
}

abbrev pub is_active : LearningFactorRecord → Bool
is_active factor = factor.status == "active"

abbrev pub is_shadow : LearningFactorRecord → Bool
is_shadow factor = factor.status == "shadow"

abbrev keys_of : List LearningFactorRecord → List String
keys_of = map (λ (f : LearningFactorRecord). f.factor_key)

keys_of-shadow :
    (factor : LearningFactorRecord) (factors : List LearningFactorRecord) (keys : List String)
    → (if is_shadow factor then keys ++ factor.factor_key ∷ [] else keys)
        ++ keys_of (keep is_shadow factors)
      ≡ keys ++ keys_of (keep is_shadow (factor ∷ factors))
keys_of-shadow factor factors keys =
    both_cases
      (λ (l : List String) (kept : List LearningFactorRecord).
        l ++ keys_of (keep is_shadow factors) ≡ keys ++ keys_of kept)
      (is_shadow factor) (λ _. append_assoc keys (factor.factor_key ∷ []) _) λ _. refl

module _ {F : Type 0} ⦃fl : Float F⦄ where
  abbrev pub SameEffects : LearningAdjustments F → LearningAdjustments F → Type 0
  SameEffects a b =
      (a.strategy_score_multiplier ≡ b.strategy_score_multiplier)
      × (a.risk_budget_multiplier ≡ b.risk_budget_multiplier)
      × (a.applied_factor_keys ≡ b.applied_factor_keys)

  add_factor-SameEffects :
      (factor : LearningFactorRecord) (a b : LearningAdjustments F)
      → SameEffects a b
      → SameEffects (add_factor a factor) (add_factor b factor)
  unfolding add_factor apply_factor
  add_factor-SameEffects factor a b (scores, budget, applied) =
      both_cases SameEffects (is_shadow factor) (λ _. (scores, budget, applied))
        λ _.
          both_cases SameEffects (is_active factor)
            (λ _. (
              ap (with_score factor) scores,
              ap (with_budget factor) budget,
              ap
                  (λ (keys : List String).
                    if raises_score factor || tightens factor || loosens factor
                    then keys ++ factor.factor_key ∷ []
                    else keys)
                  applied,
            ))
            λ _. (scores, budget, applied)

  add_factor-inert :
      (factor : LearningFactorRecord) (a b : LearningAdjustments F)
      → is_active factor ≡ false
      → SameEffects a b
      → SameEffects (add_factor a factor) b
  unfolding add_factor
  add_factor-inert factor a b inactive same =
      if_cases (λ z. SameEffects z b) (is_shadow factor) _ _ (λ _. same)
        λ _.
          if_cases (λ z. SameEffects z b) (is_active factor) _ _
            (λ active. absurd (cc (active, inactive))) λ _. same

  foldl-SameEffects :
      (factors : List LearningFactorRecord) (a b : LearningAdjustments F)
      → SameEffects a b
      → SameEffects (foldl add_factor a factors) (foldl add_factor b (keep is_active factors))
  foldl-SameEffects [] a b same = same
  foldl-SameEffects (factor ∷ factors) a b same =
      let P = λ (kept : List LearningFactorRecord).
        SameEffects (foldl add_factor (add_factor a factor) factors) (foldl add_factor b kept) in
      if_cases P (is_active factor) (factor ∷ keep is_active factors) (keep is_active factors)
        (λ active. foldl-SameEffects factors _ _ (add_factor-SameEffects factor a b same))
        λ inactive. foldl-SameEffects factors _ b (add_factor-inert factor a b inactive same)

  add_factor-shadow :
      (factor : LearningFactorRecord) (a : LearningAdjustments F)
      → (add_factor a factor).shadow_factor_keys ≡ (
          if is_shadow factor
          then a.shadow_factor_keys ++ factor.factor_key ∷ []
          else a.shadow_factor_keys)
  unfolding add_factor apply_factor
  add_factor-shadow factor a =
      both_cases (λ (z : LearningAdjustments F) keys. z.shadow_factor_keys ≡ keys)
        (is_shadow factor) (λ _. refl)
        λ _.
          if_cases (λ (z : LearningAdjustments F). z.shadow_factor_keys ≡ a.shadow_factor_keys)
            (is_active factor) _ _ (λ _. refl) λ _. refl

  foldl-shadow :
      (factors : List LearningFactorRecord) (a : LearningAdjustments F)
      → (foldl add_factor a factors).shadow_factor_keys
        ≡ a.shadow_factor_keys ++ keys_of (keep is_shadow factors)
  foldl-shadow [] a = sym (append-nil a.shadow_factor_keys)
  foldl-shadow (factor ∷ factors) a =
      foldl-shadow factors (add_factor a factor)
      ∙ ap (λ (l : List String). l ++ keys_of (keep is_shadow factors)) (add_factor-shadow factor a)
      ∙ keys_of-shadow factor factors a.shadow_factor_keys

  -- The effects of some factors are those of the active ones alone: the same score multipliers, the same risk
  -- budget and the same applied keys. The shadow keys are those of the factors with status `shadow`, in order.
  pub learning-active_only :
      (factors : List LearningFactorRecord)
      → let a : LearningAdjustments F = build_learning_adjustments factors in
        let b : LearningAdjustments F = build_learning_adjustments (keep is_active factors) in
        (a.strategy_score_multiplier ≡ b.strategy_score_multiplier)
        × (a.risk_budget_multiplier ≡ b.risk_budget_multiplier)
        × (a.applied_factor_keys ≡ b.applied_factor_keys)
        × (a.shadow_factor_keys
            ≡ map (λ (f : LearningFactorRecord). f.factor_key) (keep is_shadow factors))
  unfolding build_learning_adjustments
  learning-active_only factors =
      let (scores, budget, applied) =
        foldl-SameEffects factors no_adjustments no_adjustments (refl, refl, refl) in
      (scores, ap clamped budget, applied, foldl-shadow factors no_adjustments)
