-- ===== src/Selection/Ranking.antt =====
-- The ranking of the allowed expressions of a strategy, place by place among the allowed ids.
use equity_research_agent.Prelude.{
  ℕ, ◌+◌, String, ◌≡◌, refl, subst, not, Bool, List, [], ◌∷◌, ◌++◌, append_assoc, Option, none,
  some, length, keep, All, Occurs, is_none, Dict, lookup, arith, if◌then◌else◌, Option-cases, inl,
  inr,
}
use equity_research_agent.Prelude.Int.{pos, scale, ◌-ℤ◌}
use equity_research_agent.Float.{Float}
use equity_research_agent.Strategies.{CandidateScoreRecord}
use equity_research_agent.Selection.Expressions.{
  StrategyDefinitionRecord, Ranked, expression_rank, ranked_at, rank_from,
}

length-snoc : (pre : List String) (id : String) → length (pre ++ id ∷ []) ≡ length pre + 1
length-snoc [] id = omega arith
length-snoc (x ∷ pre) id = let h = length-snoc pre id in omega arith

module _ {F : Type 0} ⦃fl : Float F⦄ (c : CandidateScoreRecord F)
    (expressions : Dict StrategyDefinitionRecord) where
  -- the item of an expression at a place: a hundred times its rank, less its place
  abbrev pub IsRankedAt : ℕ → StrategyDefinitionRecord → Ranked → Type 0
  IsRankedAt n e r =
      (r.expression ≡ e)
      × (r.score ≡ scale (expression_rank c e).0 100 1 -ℤ pos n)
      × (r.reason ≡ (expression_rank c e).1)

  -- an item is that of an active expression at one of the places
  abbrev pub IsRanked : List String → Ranked → Type 0
  IsRanked allowed r =
      (pre : List String) × (id : String) × (post : List String) × (e : StrategyDefinitionRecord)
      × (allowed ≡ pre ++ id ∷ post)
      × (lookup id expressions ≡ some e)
      × IsRankedAt (length pre) e r

  abbrev pub Covered : ℕ → Option StrategyDefinitionRecord → List Ranked → Type 0
  Covered n none ranking = Unit
  Covered n (some e) ranking = (r : Ranked) × Occurs r ranking × IsRankedAt n e r

  -- every place with an active expression has its item, from the place `n` on
  abbrev pub Covers : ℕ → List String → List Ranked → Type 0
  Covers n [] ranking = Unit
  Covers n (id ∷ ids) ranking =
      Covered n (lookup id expressions) ranking × Covers (n + 1) ids ranking

  abbrev pub is_active : String → Bool
  is_active id = not (is_none (lookup id expressions))

  -- the loop at one id
  abbrev at_id : ℕ → Option StrategyDefinitionRecord → List Ranked → List Ranked
  at_id n o rest = elim o [ none ↦ rest | some e ↦ ranked_at c n e ∷ rest ]

  covered :
      (n : ℕ) (o : Option StrategyDefinitionRecord) (rest ranking : List Ranked)
      → All (λ r. Occurs r ranking) (at_id n o rest)
      → Covered n o ranking × All (λ r. Occurs r ranking) rest
  covered n none rest ranking h = (tt, h)
  covered n (some e) rest ranking (here, others) =
      ((ranked_at c n e, here, (refl, refl, refl)), others)

  pub rank_from-Covers :
      (n : ℕ) (ids : List String) (ranking : List Ranked)
      → All (λ r. Occurs r ranking) (rank_from c expressions n ids)
      → Covers n ids ranking
  unfolding rank_from
  rank_from-Covers n [] ranking h = tt
  rank_from-Covers n (id ∷ ids) ranking h =
      let (here, rest) =
        covered n (lookup id expressions) (rank_from c expressions (n + 1) ids) ranking h in
      (here, rank_from-Covers (n + 1) ids ranking rest)

  sound_at :
      (pre : List String) (id : String) (post : List String) (o : Option StrategyDefinitionRecord)
      (rest : List Ranked)
      → lookup id expressions ≡ o
      → All (IsRanked (pre ++ id ∷ post)) rest
      → All (IsRanked (pre ++ id ∷ post)) (at_id (length pre) o rest)
  sound_at pre id post none rest e h = h
  sound_at pre id post (some x) rest e h = ((pre, id, post, x, refl, e, (refl, refl, refl)), h)

  pub rank_from-IsRanked :
      (pre ids : List String)
      → All (IsRanked (pre ++ ids)) (rank_from c expressions (length pre) ids)
  unfolding rank_from
  rank_from-IsRanked pre [] = tt
  rank_from-IsRanked pre (id ∷ ids) =
      sound_at pre id ids (lookup id expressions) (rank_from c expressions (length pre + 1) ids)
        refl
        (subst (λ n. All (IsRanked (pre ++ id ∷ ids)) (rank_from c expressions n ids))
          (length-snoc pre id)
          (subst (λ l. All (IsRanked l) (rank_from c expressions (length (pre ++ id ∷ [])) ids))
            (append_assoc {_} pre (id ∷ []) ids) (rank_from-IsRanked (pre ++ id ∷ []) ids)))

  length-at_id :
      (n : ℕ) (id : String) (o : Option StrategyDefinitionRecord) (rest : List Ranked)
      (kept : List String)
      → length rest ≡ length kept
      → length (at_id n o rest) ≡ length (if not (is_none o) then id ∷ kept else kept)
  length-at_id n id none rest kept h = h
  length-at_id n id (some e) rest kept h = omega (arith, h)

  pub length-rank_from :
      (n : ℕ) (ids : List String)
      → length (rank_from c expressions n ids) ≡ length (keep is_active ids)
  unfolding rank_from
  length-rank_from n [] = refl
  length-rank_from n (id ∷ ids) =
      length-at_id n id (lookup id expressions) (rank_from c expressions (n + 1) ids)
        (keep is_active ids) (length-rank_from (n + 1) ids)

  pub none_active :
      (ids : List String)
      → length (keep is_active ids) ≡ 0
      → All (λ id. lookup id expressions ≡ none) ids
  none_active [] h = tt
  none_active (id ∷ ids) h = elim (Option-cases (lookup id expressions)) [
    | inl e ↦ (e, none_active ids (rw e at h))
    | inr (x, e) ↦
        let full : length (id ∷ keep is_active ids) ≡ 0 = rw e at h in absurd (omega (arith, full))
  ]
