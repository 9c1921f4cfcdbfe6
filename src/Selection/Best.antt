-- ===== src/Selection/Best.antt =====
-- What `PrimaryStrategySelector.select` guarantees of the trades that it selects.
use equity_research_agent.Prelude.{
  ℕ, String, ◌≡◌, refl, sym, ◌∙◌, ap, subst, Bool, true, List, [], ◌∷◌, Option, none, some,
  if◌then◌else◌, keep, All, All-append, Occurs, Dict, arith, if_cases,
}
use equity_research_agent.Prelude.Kept.{All-keep, passed, of_kept, All-map, Occurs-all}
use equity_research_agent.Float.{Float, FloatLaws, IsNumber, ◌≼◌}
use equity_research_agent.Strategies.{CandidateScoreRecord, is_actionable}
use equity_research_agent.Selection.Expressions.{
  StrategyDefinitionRecord, ExpressionSelectionPlan, by_id,
}
use equity_research_agent.Selection.Choice.{
  Group, in_group, group_candidates, max_by, max_of_list, scores_less, choose_actionable,
  choose_watch_candidate, SelectedTradeRecord, PrimarySelectionResult, trade_of, add_actionable,
  add_watchable, add_group, add_groups, select,
}
use equity_research_agent.Selection.Groups.{IsComplete, group_candidates-IsGrouping}

module _ {A : Type 0} where
  -- a maximum is one of the items
  max_by-from :
      (P : A → Type 0) (less : A → A → Bool) (best : A) (xs : List A)
      → P best
      → All P xs
      → P (max_by less best xs)
  unfolding max_by
  max_by-from P less best [] h k = h
  max_by-from P less best (x ∷ xs) h (here, rest) =
      max_by-from P less (if less best x then x else best) xs
        (if_cases P (less best x) x best (λ new. here) λ old. h) rest

module _ {F : Type 0} ⦃fl : Float F⦄ (laws : FloatLaws F) where
  open laws use {le_trans, le_total, le_of_lt, lt-eq-not-le}

  abbrev pub HasScore : CandidateScoreRecord F → Type 0
  HasScore c = IsNumber c.candidate_score

  abbrev ScoresAtMost : CandidateScoreRecord F → CandidateScoreRecord F → Type 0
  ScoresAtMost best c = c.candidate_score ≼ best.candidate_score

  -- the better of two is above both
  next-best :
      (best x : CandidateScoreRecord F)
      → HasScore best
      → HasScore x
      → let next = if scores_less best x then x else best in
        HasScore next × ScoresAtMost next best × ScoresAtMost next x
  next-best best x h k =
      if_cases
        (λ (next : CandidateScoreRecord F).
          HasScore next × ScoresAtMost next best × ScoresAtMost next x)
        (scores_less best x) x best
        (λ less. (k, le_of_lt best.candidate_score x.candidate_score less, k))
        λ more.
          (h, h, ground (arith, lt-eq-not-le best.candidate_score x.candidate_score h k, more))

  max_by-best :
      (best : CandidateScoreRecord F) (xs : List (CandidateScoreRecord F))
      → HasScore best
      → All HasScore xs
      → let m = max_by scores_less best xs in ScoresAtMost m best × All (ScoresAtMost m) xs
  unfolding max_by
  max_by-best best [] h k = (h, tt)
  max_by-best best (x ∷ xs) h (here, rest) =
      let next = if scores_less best x then x else best in
      let (number, from_best, from_x) = next-best best x h here in
      let (above, others) = max_by-best next xs number rest in
      (le_trans _ _ _ from_best above, (le_trans _ _ _ from_x above, others))

  max_of_list-best :
      (P : CandidateScoreRecord F → Type 0) (xs : List (CandidateScoreRecord F))
      (best : CandidateScoreRecord F)
      → max_of_list scores_less xs ≡ some best
      → All HasScore xs
      → All P xs
      → P best × All (ScoresAtMost best) xs
  unfolding max_of_list
  max_of_list-best P [] best e h k = absurd cc
  max_of_list-best P (x ∷ xs) best e (number, numbers) (here, rest) =
      let is_best : max_by scores_less x xs ≡ best = cc e in
      subst (λ m. P m × All (ScoresAtMost m) (x ∷ xs)) is_best
        (max_by-from P scores_less x xs here rest, max_by-best x xs number numbers)

  -- The candidate is one of the actionable ones, and none of its ticker and action has a higher score.
  abbrev pub IsBest : List (CandidateScoreRecord F) → CandidateScoreRecord F → Type 0
  IsBest candidates best =
      (is_actionable best ≡ true)
      × Occurs best candidates
      × All
          (λ (c : CandidateScoreRecord F).
            c.ticker ≡ best.ticker
            → c.action ≡ best.action
            → is_actionable c ≡ true
            → ScoresAtMost best c)
          candidates

  choose_actionable-IsBest :
      (candidates : List (CandidateScoreRecord F)) (key : String × String)
      (best : CandidateScoreRecord F)
      → All HasScore candidates
      → choose_actionable (keep (in_group key) candidates) ≡ some best
      → IsBest candidates best
  unfolding choose_actionable
  choose_actionable-IsBest candidates key best numbers chosen =
      let group = keep (in_group key) candidates in
      let scored =
        All-keep is_actionable HasScore group
          (All-keep (in_group key) HasScore candidates numbers) in
      let (actionable, above) =
        max_of_list-best (λ c. is_actionable c ≡ true) (keep is_actionable group) best chosen scored
          (passed is_actionable group) in
      let (grouped, again) =
        max_of_list-best (λ c. in_group key c ≡ true) (keep is_actionable group) best chosen scored
          (All-keep is_actionable (λ c. in_group key c ≡ true) group
            (passed (in_group key) candidates)) in
      let (occurs, also) =
        max_of_list-best (λ c. Occurs c candidates) (keep is_actionable group) best chosen scored
          (All-keep is_actionable (λ c. Occurs c candidates) group
            (All-keep (in_group key) (λ c. Occurs c candidates) candidates
              (Occurs-all [] candidates))) in
      (
        actionable,
        occurs,
        All-map (λ c. in_group key c ≡ true → is_actionable c ≡ true → ScoresAtMost best c) _
            candidates (λ c bounded ticker action. bounded (rw (ticker, action) grouped))
            (of_kept (in_group key) _ candidates (of_kept is_actionable _ group above)),
      )

  module _ (candidates : List (CandidateScoreRecord F)) (numbers : All HasScore candidates)
      (uuid4 : ℕ → String) (tactical expressions : Dict StrategyDefinitionRecord) where
    abbrev AreBest : PrimarySelectionResult F → Type 0
    AreBest r = All (λ (t : SelectedTradeRecord F). IsBest candidates t.candidate) r.selected_trades

    add_actionable-AreBest :
        (best : CandidateScoreRecord F) (plan : Option ExpressionSelectionPlan)
        (r : PrimarySelectionResult F)
        → IsBest candidates best
        → AreBest r
        → AreBest (add_actionable uuid4 tactical expressions best plan r)
    unfolding add_actionable
    add_actionable-AreBest best none r h k = k
    add_actionable-AreBest best (some plan) r h k =
        All-append _ r.selected_trades (trade_of best plan ∷ []) k (h, tt)

    add_watchable-AreBest :
        (watched : Option (CandidateScoreRecord F)) (r : PrimarySelectionResult F)
        → AreBest r
        → AreBest (add_watchable uuid4 tactical expressions watched r)
    unfolding add_watchable
    add_watchable-AreBest none r k = k
    add_watchable-AreBest (some c) r k = k

    add_group-AreBest :
        (group : List (CandidateScoreRecord F)) (chosen : Option (CandidateScoreRecord F))
        (r : PrimarySelectionResult F)
        → ((best : CandidateScoreRecord F) → chosen ≡ some best → IsBest candidates best)
        → AreBest r
        → AreBest (add_group uuid4 tactical expressions group chosen r)
    unfolding add_group
    add_group-AreBest group none r h k = add_watchable-AreBest (choose_watch_candidate group) r k
    add_group-AreBest group (some best) r h k = add_actionable-AreBest best _ r (h best refl) k

    add_groups-AreBest :
        (groups : List (Group F)) (r : PrimarySelectionResult F)
        → All (IsComplete candidates) groups
        → AreBest r
        → AreBest (add_groups uuid4 tactical expressions groups r)
    unfolding add_groups
    add_groups-AreBest [] r h k = k
    add_groups-AreBest (g ∷ gs) r (complete, rest) k = add_groups-AreBest gs _ rest (
        add_group-AreBest g.1 (choose_actionable g.1) r
          (λ best chosen.
            choose_actionable-IsBest candidates g.0 best numbers
              (ap choose_actionable (sym complete) ∙ chosen))
          k)

  -- Each selected trade is of an actionable candidate, and no other actionable candidate of the same ticker and action
  -- has a higher score, if the scores are numbers.
  pub select-AreBest :
      (uuid4 : ℕ → String) (candidates : List (CandidateScoreRecord F))
      (definitions : List StrategyDefinitionRecord)
      → All HasScore candidates
      → All
          (λ (t : SelectedTradeRecord F). IsBest candidates t.candidate)
          (select uuid4 candidates definitions).selected_trades
  unfolding select
  select-AreBest uuid4 candidates definitions numbers =
      add_groups-AreBest candidates numbers uuid4 (by_id "tactical_pattern" definitions [])
        (by_id "expression_bucket" definitions []) (group_candidates candidates []) _
        (group_candidates-IsGrouping candidates [] []
          (record { complete = tt; distinct = tt; covers = λ k absent. refl })).complete
        tt
