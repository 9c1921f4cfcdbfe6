-- ===== src/Pnl/Agreement.antt =====
-- `_validate_positions` accepts the broker's positions only where they agree with the replay.
use equity_research_agent.Prelude.{
  ℕ, String, ◌==◌, ◌≡◌, refl, subst, ◌∙◌, ap, ◌⊎◌, inl, inr, Bool, true, false, not, List, [], ◌∷◌,
  ◌++◌, map, some, keep, All, any_of, text_le, Dict, lookup, arith, Bool-cases, eq_iff, if_cases,
}
use equity_research_agent.Prelude.Sorting.{sorted-All}
use equity_research_agent.Float.{Float}
use equity_research_agent.Pnl.Replay.{
  StockFillEvent, OpenCostBasis, StockPnlReplay, ok, and_then_ok, replay_stock_fills,
}
use equity_research_agent.Pnl.Validation.{
  PortfolioPnlPoint, StockPosition, PortfolioSnapshot, Diagnostic, select_active_lifecycle_boundary,
  broker_by_ticker, quantity_of_position, quantity_of_basis, exceeds, quantity_tolerance,
  validate_ticker, validate_tickers, all_tickers, validate_positions, with_pnl,
  enrich_snapshot_with_stock_pnl,
}

module _ {A : Type 0} (P : A → Type 0) where
  All-left : (xs ys : List A) → All P (xs ++ ys) → All P xs
  All-left [] ys h = tt
  All-left (x ∷ xs) ys (here, rest) = (here, All-left xs ys rest)

  All-right : (xs ys : List A) → All P (xs ++ ys) → All P ys
  All-right [] ys h = h
  All-right (x ∷ xs) ys (here, rest) = All-right xs ys rest

  keep-All : (test : A → Bool) (xs : List A) → All P xs → All P (keep test xs)
  keep-All test [] h = h
  keep-All test (x ∷ xs) (here, rest) =
      if_cases (All P) (test x) (x ∷ keep test xs) (keep test xs)
        (λ _. (here, keep-All test xs rest)) λ _. keep-All test xs rest

module _ (P : String → Type 0) where
  keys-All :
      {V : Type 0} (test : String → Bool) (t : String) (v : V) (d : Dict V)
      → All P (keep test (map (λ (e : String × V). e.0) d))
      → lookup t d ≡ some v
      → test t ≡ true
      → P t
  unfolding lookup
  keys-All test t v [] h found passes = absurd (cc found)
  keys-All test t v ((j, w) ∷ d) h found passes = elim (Bool-cases (j == t)) [
    | inl same ↦
        let e : j ≡ t = ground (arith, eq_iff j t) in subst P e (rw (ap test e ∙ passes) at h).0
    | inr other ↦
        let found_later : lookup t d ≡ some v = ground arith in
        elim (Bool-cases (test j)) [
          | inl kept ↦ keys-All test t v d (rw kept at h).1 found_later passes
          | inr dropped ↦ keys-All test t v d (rw dropped at h) found_later passes
        ]
  ]

  any_of-All :
      (t : String) (held : List String) → any_of (λ h. h == t) held ≡ true → All P held → P t
  any_of-All t [] h all = absurd (cc h)
  any_of-All t (x ∷ held) h (here, rest) = elim (Bool-cases (x == t)) [
    | inl same ↦ let e : x ≡ t = ground (arith, eq_iff x t) in subst P e here
    | inr other ↦ any_of-All t held (ground arith) rest
  ]

module _ {F : Type 0} ⦃fl : Float F⦄ (broker : Dict (StockPosition F))
    (open_cost_basis : Dict (OpenCostBasis F)) where
  abbrev pub Agrees : String → Type 0
  Agrees ticker =
      exceeds
        (fl.minus (quantity_of_position (lookup ticker broker))
          (quantity_of_basis (lookup ticker open_cost_basis)))
        quantity_tolerance
      ≡ false

  validate_ticker-Agrees :
      (ticker : String) (d : List (Diagnostic F))
      → validate_ticker broker open_cost_basis ticker ≡ ok d
      → Agrees ticker
  unfolding validate_ticker
  validate_ticker-Agrees ticker d h = ground arith

  validate_tickers-All :
      (tickers : List String) (d : List (Diagnostic F))
      → validate_tickers broker open_cost_basis tickers ≡ ok d
      → All Agrees tickers
  unfolding validate_tickers
  validate_tickers-All [] d h = tt
  validate_tickers-All (ticker ∷ tickers) d h =
      let (here, e, h2) = and_then_ok (validate_ticker broker open_cost_basis ticker) _ d h in
      let (later, e2, h3) = and_then_ok (validate_tickers broker open_cost_basis tickers) _ d h2 in
      (validate_ticker-Agrees ticker here e, validate_tickers-All tickers later e2)

  -- a ticker that the broker or the replay has
  abbrev pub IsPresent : String → Type 0
  IsPresent ticker =
      ((p : StockPosition F) × (lookup ticker broker ≡ some p))
      ⊎ ((b : OpenCostBasis F) × (lookup ticker open_cost_basis ≡ some b))

  present-All :
      (P : String → Type 0) (ticker : String)
      → All P (all_tickers broker open_cost_basis)
      → IsPresent ticker
      → P ticker
  present-All P ticker h present =
      let held = map (λ (e : String × StockPosition F). e.0) broker in
      let opened = map (λ (e : String × OpenCostBasis F). e.0) open_cost_basis in
      let fresh : String → Bool = λ t. not (any_of (λ h. h == t) held) in
      let both = sorted-All P text_le (held ++ keep fresh opened) h in
      let left = All-left P held (keep fresh opened) both in
      elim present [
        | inl (p, found) ↦
            keys-All P (λ t. true) ticker p broker (keep-All P (λ t. true) held left) found refl
        | inr (b, found) ↦ elim (Bool-cases (any_of (λ h. h == ticker) held)) [
          | inl known ↦ any_of-All P ticker held known left
          | inr unknown ↦
              keys-All P fresh ticker b open_cost_basis (All-right P held (keep fresh opened) both)
                found (rw unknown refl)
        ]
      ]

module _ {F M : Type 0} ⦃fl : Float F⦄ where
  -- the parts that an enriched snapshot was made of
  abbrev pub Enriched :
      PortfolioSnapshot F M
      → List (StockPosition F)
      → List (PortfolioPnlPoint F)
      → List (StockFillEvent F)
      → F
      → PortfolioSnapshot F M
      → Type 0
  Enriched snapshot positions points fills starting_equity z =
      (started_at : ℕ) × (replay : StockPnlReplay F) × (diagnostics : List (Diagnostic F))
      × (select_active_lifecycle_boundary points fills starting_equity ≡ ok started_at)
      × (replay_stock_fills fills started_at snapshot.as_of ≡ ok replay)
      × (z ≡ with_pnl snapshot points fills starting_equity started_at replay diagnostics)
      × ((ticker : String)
          → IsPresent (broker_by_ticker positions) replay.open_cost_basis ticker
          → Agrees (broker_by_ticker positions) replay.open_cost_basis ticker)

  -- An enriched snapshot is made from the replay of the fills since the clean start, and only if the broker agrees:
  -- for each ticker that the broker's positions or the replay have, the two quantities differ by at most the
  -- tolerance, where a missing one counts as zero.
  pub enrich-Enriched :
      (snapshot : PortfolioSnapshot F M) (positions : List (StockPosition F))
      (points : List (PortfolioPnlPoint F)) (fills : List (StockFillEvent F)) (starting_equity : F)
      (z : PortfolioSnapshot F M)
      → enrich_snapshot_with_stock_pnl snapshot positions points fills starting_equity ≡ ok z
      → Enriched snapshot positions points fills starting_equity z
  unfolding enrich_snapshot_with_stock_pnl validate_positions
  enrich-Enriched snapshot positions points fills starting_equity z h =
      let (started_at, selected, h1) =
        and_then_ok (select_active_lifecycle_boundary points fills starting_equity) _ z h in
      let (replay, replayed, h2) =
        and_then_ok (replay_stock_fills fills started_at snapshot.as_of) _ z h1 in
      let (diagnostics, validated, h3) =
        and_then_ok (validate_positions positions replay.open_cost_basis) _ z h2 in
      let broker = broker_by_ticker positions in
      let all = validate_tickers-All broker replay.open_cost_basis _ diagnostics validated in
      (
        started_at,
        replay,
        diagnostics,
        selected,
        replayed,
        cc h3,
        λ ticker present.
            present-All broker replay.open_cost_basis (Agrees broker replay.open_cost_basis) ticker
              all present,
      )
