-- ===== src/Risk/Exposure/Buckets.antt =====
-- The dictionary of buckets of `compute_factor_exposures`, key by key.
use equity_research_agent.Prelude.{
  String, ◌==◌, eq_iff, ◌≡◌, refl, ap, ◌∙◌, not, Bool, true, false, ◌&&◌, ◌||◌, List, [], ◌∷◌,
  Option, none, some, if◌then◌else◌, or_else, arith, foldl, keep, Bool-cases, inl, inr,
}
use equity_research_agent.Float.{Float}
use equity_research_agent.Risk.Context.{PortfolioPosition}
use equity_research_agent.Risk.Exposure.{
  Factor, same_factor, Bucket, empty_bucket, add_position, bucket_at, put_position,
  accumulate_factor, accumulate_factors, factors, buckets,
}

-- whether one pair of the loop is the key `k`; an empty value is skipped
abbrev pub hit : Factor → String → Option String → Bool
hit k t none = false
hit k t (some v) = if v == "" then false else same_factor (t, v) k

abbrev pub hits : Factor → List (String × Option String) → Bool
hits k [] = false
hits k ((t, v) ∷ fs) = hit k t v || hits k fs

abbrev pub lacks : String → List (String × Option String) → Bool
lacks t [] = true
lacks t ((u, v) ∷ fs) = not (t == u) && lacks t fs

-- no factor type comes twice
abbrev pub Distinct : List (String × Option String) → Type 0
Distinct [] = Unit
Distinct ((t, v) ∷ fs) = (lacks t fs ≡ true) × Distinct fs

hit_once :
    (k : Factor) (t : String) (v : Option String) (fs : List (String × Option String))
    → lacks t fs ≡ true
    → hit k t v ≡ true
    → hits k fs ≡ false
hit_once k t v [] l h = refl
hit_once k t (some v) ((u, none) ∷ fs) l h = ground (arith, hit_once k t (some v) fs)
hit_once k t (some v) ((u, some w) ∷ fs) l h =
    ground (arith, hit_once k t (some v) fs, eq_iff t u, eq_iff t k.0, eq_iff u k.0)
hit_once k t none (f ∷ fs) l h = absurd (ground arith)

module _ {F : Type 0} ⦃fl : Float F⦄ where
  abbrev pub add_to : Option (Bucket F) → PortfolioPosition F → Bucket F
  add_to o p = add_position (or_else o empty_bucket) p

  pub bucket_at-put :
      (k j : Factor) (p : PortfolioPosition F) (d : List (Factor × Bucket F))
      → bucket_at k (put_position j p d)
        ≡ (if same_factor j k then some (add_to (bucket_at k d) p) else bucket_at k d)
  unfolding bucket_at put_position
  bucket_at-put k j p [] = refl
  bucket_at-put k j p ((i, b) ∷ d) = ground (
    arith,
    bucket_at-put k j p d,
    eq_iff i.0 j.0,
    eq_iff i.1 j.1,
    eq_iff i.0 k.0,
    eq_iff i.1 k.1,
    eq_iff j.0 k.0,
    eq_iff j.1 k.1,
  )

  bucket_at-accumulate :
      (k : Factor) (t : String) (v : Option String) (p : PortfolioPosition F)
      (d : List (Factor × Bucket F))
      → bucket_at k (accumulate_factor t v p d)
        ≡ (if hit k t v then some (add_to (bucket_at k d) p) else bucket_at k d)
  unfolding accumulate_factor
  bucket_at-accumulate k t none p d = refl
  bucket_at-accumulate k t (some v) p d = ground (arith, bucket_at-put k (t, v) p d)

  bucket_at-factors :
      (k : Factor) (p : PortfolioPosition F) (fs : List (String × Option String))
      (d : List (Factor × Bucket F))
      → Distinct fs
      → bucket_at k (accumulate_factors p fs d)
        ≡ (if hits k fs then some (add_to (bucket_at k d) p) else bucket_at k d)
  unfolding accumulate_factors
  bucket_at-factors k p [] d h = refl
  bucket_at-factors k p ((t, v) ∷ fs) d (new, h) = ground (
    arith,
    bucket_at-factors k p fs (accumulate_factor t v p d) h,
    bucket_at-accumulate k t v p d,
    hit_once k t v fs new,
  )

  -- whether a position counts for the key
  abbrev pub counts : Factor → PortfolioPosition F → Bool
  counts k p = hits k (factors p)

  abbrev step : Factor → Option (Bucket F) → PortfolioPosition F → Option (Bucket F)
  step k o p = if counts k p then some (add_to o p) else o

  factors-Distinct : (p : PortfolioPosition F) → Distinct (factors p)
  factors-Distinct p = (refl, (refl, (refl, (refl, (refl, (refl, (refl, (refl, (refl, tt)))))))))

  bucket_at-buckets :
      (k : Factor) (ps : List (PortfolioPosition F)) (d : List (Factor × Bucket F))
      → bucket_at k (buckets ps d) ≡ foldl (step k) (bucket_at k d) ps
  unfolding buckets
  bucket_at-buckets k [] d = refl
  bucket_at-buckets k (p ∷ ps) d =
      bucket_at-buckets k ps (accumulate_factors p (factors p) d)
      ∙ ap (λ o. foldl (step k) o ps) (bucket_at-factors k p (factors p) d (factors-Distinct p))

  -- the bucket of a key whose positions are `ps`, in the order of the portfolio
  abbrev pub total : List (PortfolioPosition F) → Option (Bucket F)
  total [] = none
  total (p ∷ ps) = some (foldl add_position (add_position empty_bucket p) ps)

  steps_some :
      (k : Factor) (b : Bucket F) (ps : List (PortfolioPosition F))
      → foldl (step k) (some b) ps ≡ some (foldl add_position b (keep (counts k) ps))
  steps_some k b [] = refl
  steps_some k b (p ∷ ps) = elim (Bool-cases (counts k p)) [
    | inl yes_p ↦ rw yes_p (steps_some k (add_position b p) ps)
    | inr no_p ↦ rw no_p (steps_some k b ps)
  ]

  steps_none :
      (k : Factor) (ps : List (PortfolioPosition F))
      → foldl (step k) none ps ≡ total (keep (counts k) ps)
  steps_none k [] = refl
  steps_none k (p ∷ ps) = elim (Bool-cases (counts k p)) [
    | inl yes_p ↦ rw yes_p (steps_some k (add_position empty_bucket p) ps)
    | inr no_p ↦ rw no_p (steps_none k ps)
  ]

  pub buckets-total :
      (k : Factor) (ps : List (PortfolioPosition F))
      → bucket_at k (buckets ps []) ≡ total (keep (counts k) ps)
  unfolding bucket_at
  buckets-total k ps = bucket_at-buckets k ps [] ∙ steps_none k ps
