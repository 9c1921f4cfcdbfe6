-- ===== src/Pnl/Boundary.antt =====
-- `select_active_lifecycle_boundary` gives the latest clean snapshot.
use equity_research_agent.Prelude.{
  ℕ, ◌≤◌, ◌≡◌, refl, subst, sym, ◌⊎◌, inl, inr, Bool, true, List, [], ◌∷◌, foldl, if◌then◌else◌,
  keep, All, ltb, arith, any_of, eqb, ◌&&◌, Bool-cases,
}
use equity_research_agent.Float.{Float}
use equity_research_agent.Pnl.Replay.{StockFillEvent, ok}
use equity_research_agent.Pnl.Validation.{
  PortfolioPnlPoint, is_clean, latest, select_active_lifecycle_boundary,
}

module _ {F : Type 0} where
  abbrev later_of : ℕ → PortfolioPnlPoint F → ℕ
  later_of t p = if ltb t p.snapshot_time then p.snapshot_time else t

  abbrev pub NotAfter : ℕ → PortfolioPnlPoint F → Type 0
  NotAfter t p = p.snapshot_time ≤ t

  abbrev pub at_time : ℕ → PortfolioPnlPoint F → Bool
  at_time t p = eqb p.snapshot_time t

  weaken :
      (t u : ℕ) (points : List (PortfolioPnlPoint F))
      → t ≤ u
      → All (NotAfter t) points
      → All (NotAfter u) points
  weaken t u [] le h = h
  weaken t u (p ∷ points) le (first, rest) = (omega arith, weaken t u points le rest)

  foldl-NotAfter :
      (t : ℕ) (points : List (PortfolioPnlPoint F))
      → (t ≤ foldl later_of t points) × All (NotAfter (foldl later_of t points)) points
  foldl-NotAfter t [] = (omega arith, tt)
  foldl-NotAfter t (p ∷ points) =
      let (least, rest) = foldl-NotAfter (later_of t p) points in
      (ground (arith, least), (ground (arith, least), rest))

  foldl-at_time :
      (t : ℕ) (points : List (PortfolioPnlPoint F))
      → (foldl later_of t points ≡ t) ⊎ (any_of (at_time (foldl later_of t points)) points ≡ true)
  foldl-at_time t [] = inl refl
  foldl-at_time t (p ∷ points) = ground (arith, foldl-at_time (later_of t p) points)

  module _ (test : PortfolioPnlPoint F → Bool) (t : ℕ) where
    -- no point that passes is later, and one that passes has the time
    abbrev pub IsLatest : List (PortfolioPnlPoint F) → Type 0
    IsLatest points =
        All (λ p. test p ≡ true → p.snapshot_time ≤ t) points
        × (any_of (λ p. test p && at_time t p) points ≡ true)

    kept-NotAfter :
        (points : List (PortfolioPnlPoint F))
        → All (NotAfter t) (keep test points)
        → All (λ p. test p ≡ true → p.snapshot_time ≤ t) points
    kept-NotAfter [] h = h
    kept-NotAfter (p ∷ points) h = elim (Bool-cases (test p)) [
      | inl passes ↦ let (here, rest) = rw passes at h in ((λ _. here), kept-NotAfter points rest)
      | inr fails ↦ ((λ passes. absurd (cc (fails, passes))), kept-NotAfter points (rw fails at h))
    ]

    kept-at_time :
        (points : List (PortfolioPnlPoint F))
        → any_of (at_time t) (keep test points) ≡ true
        → any_of (λ p. test p && at_time t p) points ≡ true
    kept-at_time [] h = h
    kept-at_time (p ∷ points) h = ground (arith, kept-at_time points)

module _ {F : Type 0} ⦃fl : Float F⦄ where
  latest-IsLatest :
      (test : PortfolioPnlPoint F → Bool) (t : ℕ) (points kept : List (PortfolioPnlPoint F))
      → keep test points ≡ kept
      → latest kept ≡ ok t
      → IsLatest test t points
  latest-IsLatest test t points [] e h = absurd (cc h)
  latest-IsLatest test t points (p ∷ later) e h =
      let last : foldl later_of p.snapshot_time later ≡ t = cc h in
      let (least, rest) = foldl-NotAfter p.snapshot_time later in
      let times = foldl-at_time p.snapshot_time later in
      (
        kept-NotAfter test t points (
            subst (All (NotAfter t)) (sym e)
              (subst (λ t. All (NotAfter t) (p ∷ later)) last (least, rest))),
        kept-at_time test t points
            (subst (λ kept. any_of (at_time t) kept ≡ true) (sym e) (ground (arith, last, times))),
      )

  -- The start of the tracked period is the time of a clean snapshot, and no clean snapshot is later. Clean are
  -- the snapshots within a cent of the starting equity and of no stocks and options, at no time of a fill.
  pub select-IsLatest :
      (points : List (PortfolioPnlPoint F)) (fills : List (StockFillEvent F)) (starting_equity : F)
      (t : ℕ)
      → select_active_lifecycle_boundary points fills starting_equity ≡ ok t
      → IsLatest (is_clean fills starting_equity) t points
  unfolding select_active_lifecycle_boundary
  select-IsLatest points fills starting_equity t h =
      latest-IsLatest (is_clean fills starting_equity) t points _ refl h
