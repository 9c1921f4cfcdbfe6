-- ===== src/Policy/Allowed.antt =====
-- Which option strategy a decision uses for an expression.
use equity_research_agent.Prelude.{
  String, ◌==◌, ◌≡◌, refl, Bool, true, false, not, ◌&&◌, List, [], ◌∷◌, Option, none, some, first,
  if◌then◌else◌, contains, arith, if_cases, eq_refl,
}
use equity_research_agent.Prelude.Text.{lower}
use equity_research_agent.Selection.Expressions.{StrategyDefinitionRecord}
use equity_research_agent.Policy.{
  allowed_types, preferred_type, unpreferred, choose_among, choose_option_strategy_type,
}

-- an answer is allowed, and there is none only where nothing is
abbrev pub IsChosen : List String → Option String → Type 0
IsChosen allowed none = allowed ≡ []
IsChosen allowed (some type) = contains allowed type ≡ true

-- the preferred strategy is the answer where it is allowed and the expression is not on volatility
abbrev pub Prefers : String → List String → Option String → Option String → Type 0
Prefers id allowed none answer = Unit
Prefers id allowed (some preferred) answer =
    contains allowed preferred ≡ true
    → (id == "volatility_event_option") ≡ false
    → answer ≡ some preferred

first-IsChosen : (allowed : List String) → IsChosen allowed (first allowed)
first-IsChosen [] = refl
first-IsChosen (x ∷ xs) = rw (eq_refl x) refl

unpreferred-IsChosen :
    (id direction : String) (allowed : List String)
    → IsChosen allowed (unpreferred id direction allowed)
unfolding unpreferred
unpreferred-IsChosen id direction allowed =
    if_cases (IsChosen allowed)
      (id == "volatility_event_option"
        && contains allowed "long_straddle"
        && not (contains ("bullish" ∷ "bearish" ∷ []) direction))
      (some "long_straddle") (first allowed) (λ straddle. ground arith)
      λ other. first-IsChosen allowed

among-IsChosen :
    (id direction : String) (event : Bool) (allowed : List String) (preferred : Option String)
    → IsChosen allowed (choose_among id direction event allowed preferred)
unfolding choose_among
among-IsChosen id direction event allowed none = unpreferred-IsChosen id direction allowed
among-IsChosen id direction event allowed (some preferred) =
    if_cases (IsChosen allowed) (contains allowed preferred)
      (if id == "volatility_event_option" && event && contains allowed "long_straddle"
        then some "long_straddle"
        else some preferred)
      (unpreferred id direction allowed)
      (λ is_allowed.
        if_cases (IsChosen allowed)
          (id == "volatility_event_option" && event && contains allowed "long_straddle")
          (some "long_straddle") (some preferred) (λ straddle. ground arith) λ other. is_allowed)
      λ forbidden. unpreferred-IsChosen id direction allowed

among-Prefers :
    (id direction : String) (event : Bool) (allowed : List String) (preferred : Option String)
    → Prefers id allowed preferred (choose_among id direction event allowed preferred)
unfolding choose_among
among-Prefers id direction event allowed none = tt
among-Prefers id direction event allowed (some preferred) =
    λ is_allowed other. rw (is_allowed, other) refl

-- Whatever the expression, its definition, the direction and an event before expiry: the strategy
-- that is chosen is one of the allowed ones, and none is chosen only where none is allowed. The
-- one preferred for the direction is chosen where it is allowed, unless the expression is the
-- volatility one.
pub choose_option_strategy_type-IsChosen :
    (id : String) (definition : StrategyDefinitionRecord) (direction : String) (event : Bool)
    → let allowed = allowed_types id definition in
      let answer = choose_option_strategy_type id definition direction event in
      IsChosen allowed answer × Prefers id allowed (preferred_type (lower direction) id) answer
unfolding choose_option_strategy_type
choose_option_strategy_type-IsChosen id definition direction event =
    let allowed = allowed_types id definition in
    let preferred = preferred_type (lower direction) id in
    (
      among-IsChosen id (lower direction) event allowed preferred,
      among-Prefers id (lower direction) event allowed preferred,
    )
