-- ===== src/Risk/Exposure/Totals.antt =====
-- What `compute_factor_exposures` reports of one factor, against a sum over the positions that have it.
use mathlib.Core.Option
use equity_research_agent.Prelude.{
  suc, ◌+◌, length, String, eq_iff, ◌≡◌, refl, ap, ◌∙◌, Bool, true, List, [], ◌∷◌, Option, none,
  some, map, keep, if◌then◌else◌, arith, Bool-cases, inl, inr,
}
use equity_research_agent.Prelude.Sorting.{sorted, insert_sorted}
use equity_research_agent.Float.{Float}
use equity_research_agent.Risk.Context.{
  PortfolioPosition, RiskFactorExposureRecord, PortfolioContext,
}
use equity_research_agent.Risk.Exposure.{
  Factor, same_factor, factor_le, Bucket, empty_bucket, bucket_at, put_position, accumulate_factor,
  accumulate_factors, factors, buckets, exposure_record, compute_factor_exposures,
}
use equity_research_agent.Risk.Exposure.Sums.{
  has_factor, counts-has_factor, sums, expected, foldl-after_all,
}
use equity_research_agent.Risk.Exposure.Buckets.{bucket_at-put, counts, total, buckets-total}

same_factor_meet :
    (i j k : Factor) → same_factor i k ≡ true → same_factor j k ≡ true → same_factor i j ≡ true
same_factor_meet i j k h h' = ground (
  arith,
  eq_iff i.0 k.0,
  eq_iff i.1 k.1,
  eq_iff j.0 k.0,
  eq_iff j.1 k.1,
  eq_iff i.0 j.0,
  eq_iff i.1 j.1,
)

-- the step of a lookup behind the key `i`, where `j` is new
keys {ℓ} :
    {A : Type ℓ} (ij ik jk : Bool) (b c : A) (o x y : Option A)
    → (ik ≡ true → jk ≡ true → ij ≡ true)
    → (if ij then some c else o) ≡ none
    → (o ≡ none → x ≡ (if jk then some b else y))
    → (if ik then some c else x) ≡ (if jk then some b else if ik then some c else y)
keys ij ik jk b c o x y meet new rest = ground arith

module _ {F : Type 0} ⦃fl : Float F⦄ where
  -- no key comes twice
  abbrev UniqueKeys : List (Factor × Bucket F) → Type 0
  UniqueKeys [] = Unit
  UniqueKeys ((j, b) ∷ d) = (bucket_at j d ≡ none) × UniqueKeys d

  put-UniqueKeys :
      (j : Factor) (p : PortfolioPosition F) (d : List (Factor × Bucket F))
      → UniqueKeys d
      → UniqueKeys (put_position j p d)
  unfolding put_position bucket_at
  put-UniqueKeys j p [] u = (refl, tt)
  put-UniqueKeys j p ((i, b) ∷ d) (new, u) = ground (
    arith,
    put-UniqueKeys j p d u,
    bucket_at-put i j p d,
    eq_iff i.0 j.0,
    eq_iff i.1 j.1,
    eq_iff j.0 i.0,
    eq_iff j.1 i.1,
  )

  accumulate-UniqueKeys :
      (t : String) (v : Option String) (p : PortfolioPosition F) (d : List (Factor × Bucket F))
      → UniqueKeys d
      → UniqueKeys (accumulate_factor t v p d)
  unfolding accumulate_factor
  accumulate-UniqueKeys t none p d u = u
  accumulate-UniqueKeys t (some v) p d u = ground (arith, put-UniqueKeys (t, v) p d u)

  factors-UniqueKeys :
      (p : PortfolioPosition F) (fs : List (String × Option String)) (d : List (Factor × Bucket F))
      → UniqueKeys d
      → UniqueKeys (accumulate_factors p fs d)
  unfolding accumulate_factors
  factors-UniqueKeys p [] d u = u
  factors-UniqueKeys p ((t, v) ∷ fs) d u =
      factors-UniqueKeys p fs (accumulate_factor t v p d) (accumulate-UniqueKeys t v p d u)

  buckets-UniqueKeys :
      (ps : List (PortfolioPosition F)) (d : List (Factor × Bucket F))
      → UniqueKeys d
      → UniqueKeys (buckets ps d)
  unfolding buckets
  buckets-UniqueKeys [] d u = u
  buckets-UniqueKeys (p ∷ ps) d u =
      buckets-UniqueKeys ps (accumulate_factors p (factors p) d)
        (factors-UniqueKeys p (factors p) d u)

  abbrev by_key : Factor × Bucket F → Factor × Bucket F → Bool
  by_key x y = factor_le x.0 y.0

  -- sorting moves no bucket to another key, whatever the order
  module _ (le : Factor × Bucket F → Factor × Bucket F → Bool) where
    bucket_at-insert_sorted :
        (k j : Factor) (b : Bucket F) (d : List (Factor × Bucket F))
        → bucket_at j d ≡ none
        → bucket_at k (insert_sorted le (j, b) d)
          ≡ (if same_factor j k then some b else bucket_at k d)
    unfolding insert_sorted bucket_at
    bucket_at-insert_sorted k j b [] new = refl
    bucket_at-insert_sorted k j b ((i, c) ∷ d) new = elim (Bool-cases (le (j, b) (i, c))) [
      | inl before ↦ rw before
      | inr after ↦ rw after (
          keys (same_factor i j) (same_factor i k) (same_factor j k) b c (bucket_at j d) _ _
            (same_factor_meet i j k) new (bucket_at-insert_sorted k j b d))
    ]

    bucket_at-sorted :
        (k : Factor) (d : List (Factor × Bucket F))
        → UniqueKeys d
        → bucket_at k (sorted le d) ≡ bucket_at k d
    unfolding sorted bucket_at
    bucket_at-sorted k [] u = refl
    bucket_at-sorted k ((j, b) ∷ d) (new, u) =
        bucket_at-insert_sorted k j b (sorted le d) (bucket_at-sorted j d u ∙ new)
        ∙ ap (λ o. if same_factor j k then some b else o) (bucket_at-sorted k d u)

  -- the report on one factor
  abbrev pub exposure_at :
      Factor → List (RiskFactorExposureRecord F) → Option (RiskFactorExposureRecord F)
  exposure_at k [] = none
  exposure_at k (e ∷ es) =
      if same_factor (e.factor_type, e.factor_value) k then some e else exposure_at k es

  exposure_at-map :
      (k : Factor) (d : List (Factor × Bucket F))
      → exposure_at k (map exposure_record d)
        ≡ Option.map (λ b. exposure_record (k, b)) (bucket_at k d)
  unfolding bucket_at
  exposure_at-map k [] = refl
  exposure_at-map k ((j, b) ∷ d) =
      ground (arith, exposure_at-map k d, eq_iff j.0 k.0, eq_iff j.1 k.1)

  keep-has_factor :
      (k : Factor) (ps : List (PortfolioPosition F)) → keep (counts k) ps ≡ keep (has_factor k) ps
  keep-has_factor k [] = refl
  keep-has_factor k (p ∷ ps) =
      rw (counts-has_factor k p)
        (ap (λ rest. if has_factor k p then p ∷ rest else rest) (keep-has_factor k ps))

  total-expected :
      (k : Factor) (ps : List (PortfolioPosition F))
      → Option.map (λ b. exposure_record (k, b)) (total ps) ≡ expected k ps
  total-expected k [] = refl
  total-expected k (p ∷ ps) =
      let counted : 0 + suc (length ps) ≡ suc (length ps) = omega arith in
      ap (λ b. some (exposure_record (k, b))) (foldl-after_all empty_bucket (p ∷ ps))
      ∙ ap (λ n. some (record (sums k (p ∷ ps)) { position_count = n })) counted

  -- For every factor type and value, the report has an entry exactly if some position has that value, not empty, in the
  -- field of that type. Its gross exposure is the sum of the sizes of these positions, its net exposure that of their
  -- exposures with a minus for the short ones, its long and short exposures the sums of the sizes of the long and the
  -- short ones, each in the order of the portfolio, and its count is how many they are.
  pub exposure_totals :
      (k : Factor) (context : PortfolioContext F)
      → exposure_at k (compute_factor_exposures context)
        ≡ expected k (keep (has_factor k) context.positions)
  unfolding compute_factor_exposures
  exposure_totals k context =
      let d = buckets context.positions [] in
      exposure_at-map k (sorted by_key d)
      ∙ (ap (Option.map (λ b. exposure_record (k, b))) (
            bucket_at-sorted by_key k d (buckets-UniqueKeys context.positions [] tt)
            ∙ buckets-total k context.positions)
          ∙ (total-expected k (keep (counts k) context.positions)
              ∙ ap (expected k) (keep-has_factor k context.positions)))
