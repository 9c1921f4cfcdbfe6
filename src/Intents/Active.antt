-- ===== src/Intents/Active.antt =====
-- The queries about core holdings answer from one intent, the first active one of the ticker.
use equity_research_agent.Prelude.{
  String, ◌≡◌, sym, ap, ◌∙◌, ◌⊎◌, inl, inr, Bool, true, false, not, List, [], ◌∷◌, ◌++◌, Option,
  none, some, first_where, is_none, contains, All, Bool-cases, Option-cases, arith,
}
use equity_research_agent.Prelude.Text.{normalize_ticker}
use equity_research_agent.Intents.{
  PortfolioIntentConfig, is_active_intent, find_active_portfolio_intent, is_core_holding_approved,
  max_weight_for_ticker, allowed_tactical_interactions_for_ticker, tactical_interaction_allowed,
  max_weight_of, interactions_of,
}

-- the first item that passes a test, with those before it
abbrev FirstOf : {A : Type 0} → (A → Bool) → A → List A → Type 0
FirstOf {A} test x xs =
    (pre : List A) × (post : List A) × (xs ≡ pre ++ x ∷ post)
    × (test x ≡ true)
    × All (λ y. test y ≡ false) pre

first_where-FirstOf :
    {A : Type 0} (test : A → Bool) (xs : List A) (x : A)
    → first_where test xs ≡ some x
    → FirstOf test x xs
first_where-FirstOf test [] x e = absurd (cc e)
first_where-FirstOf {A} test (y ∷ ys) x e = elim (Bool-cases (test y)) [
  | inl passes ↦
      let same : y ≡ x = ground arith in
      ([], ys, ap (λ z. z ∷ ys) same, ap test (sym same) ∙ passes, tt)
  | inr fails ↦
      let (pre, post, at, passes, before) = first_where-FirstOf test ys x (ground arith) in
      (y ∷ pre, post, ap (λ (zs : List A). y ∷ zs) at, passes, (fails, before))
]

first_where-none :
    {A : Type 0} (test : A → Bool) (xs : List A)
    → first_where test xs ≡ none
    → All (λ y. test y ≡ false) xs
first_where-none test [] e = tt
first_where-none test (y ∷ ys) e = elim (Bool-cases (test y)) [
  | inl passes ↦ absurd (ground arith)
  | inr fails ↦ (fails, first_where-none test ys (ground arith))
]

module _ {F : Type 0} (ticker : String) (intents : List (PortfolioIntentConfig F)) where
  -- the answers where the ticker has no active intent
  abbrev pub Unapproved : Type 0
  Unapproved =
      (is_core_holding_approved ticker intents ≡ false)
      × (max_weight_for_ticker ticker intents ≡ none)
      × ((interaction : String) → tactical_interaction_allowed ticker intents interaction ≡ false)
      × All (λ (i : PortfolioIntentConfig F). is_active_intent (normalize_ticker ticker) i ≡ false)
          intents

  -- the answers where an intent is the first active one of the ticker
  abbrev pub Approved : PortfolioIntentConfig F → Type 0
  Approved intent =
      (is_core_holding_approved ticker intents ≡ true)
      × (max_weight_for_ticker ticker intents ≡ some intent.max_weight)
      × ((interaction : String)
          → tactical_interaction_allowed ticker intents interaction
            ≡ contains intent.allowed_tactical_interactions interaction)
      × FirstOf (is_active_intent (normalize_ticker ticker)) intent intents

  -- The queries about a ticker agree. Either it has no active intent: then it is not approved, has no maximal
  -- weight and allows no interaction. Or all answers are those of its first active intent.
  pub intent_answers : Unapproved ⊎ ((intent : PortfolioIntentConfig F) × Approved intent)
  unfolding is_core_holding_approved max_weight_for_ticker tactical_interaction_allowed
      allowed_tactical_interactions_for_ticker find_active_portfolio_intent
  intent_answers =
      let test = is_active_intent {F = F} (normalize_ticker ticker) in
      elim (Option-cases (first_where test intents)) [
        | inl e ↦ inl (
          ap (λ (o : Option (PortfolioIntentConfig F)). not (is_none o)) e,
          ap max_weight_of e,
          (λ i. ap (λ (o : Option (PortfolioIntentConfig F)). contains (interactions_of o) i) e),
          first_where-none test intents e,
        )
        | inr (intent, e) ↦ inr (
          intent,
          (
            ap (λ (o : Option (PortfolioIntentConfig F)). not (is_none o)) e,
            ap max_weight_of e,
            (λ i. ap (λ (o : Option (PortfolioIntentConfig F)). contains (interactions_of o) i) e),
            first_where-FirstOf test intents intent e,
          ),
        )
      ]
