-- ===== src/Pnl/Accounts.antt =====
-- The replay keeps the tickers apart: what is open in one depends only on the fills of this ticker.
use equity_research_agent.Prelude.{
  both_cases, String, ◌==◌, ◌≡◌, refl, subst, sym, ◌∙◌, ap, inl, inr, true, false, List, [], ◌∷◌,
  Option, none, some, if◌then◌else◌, keep, or_else, Dict, lookup, insert, lookup-insert, arith,
  if_cases, Bool-cases, eq_iff, eq_refl,
}
use equity_research_agent.Float.{Float}
use equity_research_agent.Pnl.Replay.{
  StockFillEvent, OpenCostBasis, Checked, ok, error, and_then, Tally, remove, apply_fill,
  apply_fills, apply_at, after_sale, current_basis, zero_tolerance, empty_basis,
}

insert-found : {V : Type 0} (k : String) (v : V) (d : Dict V) → lookup k (insert k v d) ≡ some v
insert-found k v d = lookup-insert k k v d ∙ rw (eq_refl k) refl

lookup-remove :
    {V : Type 0} (k j : String) (d : Dict V)
    → lookup j (remove k d) ≡ (if k == j then none else lookup j d)
unfolding lookup
lookup-remove k j [] = ground arith
lookup-remove k j ((i, w) ∷ d) =
    ground (arith, eq_iff k j, eq_iff i k, eq_iff i j, lookup-remove k j d)

module _ {F : Type 0} ⦃fl : Float F⦄ where
  abbrev pub open_in : String → Tally F → Option (OpenCostBasis F)
  open_in ticker s = lookup ticker s.basis

  -- the entry of the ticker after the fill
  abbrev sold : StockFillEvent F → OpenCostBasis F → Option (OpenCostBasis F)
  sold fill current =
      let remaining = fl.minus current.quantity fill.quantity in
      if fl.le remaining zero_tolerance
      then none
      else some (record current { quantity = remaining })

  after_sale-lookup :
      (ticker : String) (fill : StockFillEvent F) (current : OpenCostBasis F)
      (d : Dict (OpenCostBasis F))
      → lookup ticker (after_sale fill current d)
        ≡ (if fill.ticker == ticker then sold fill current else lookup ticker d)
  after_sale-lookup ticker fill current d =
      let remaining = fl.minus current.quantity fill.quantity in
      ground (
        arith,
        lookup-remove fill.ticker ticker d,
        lookup-insert fill.ticker ticker (record current { quantity = remaining }) d,
      )

  after_sale-sold :
      (fill : StockFillEvent F) (current : OpenCostBasis F) (d : Dict (OpenCostBasis F))
      → lookup fill.ticker (after_sale fill current d) ≡ sold fill current
  after_sale-sold fill current d =
      after_sale-lookup fill.ticker fill current d ∙ rw (eq_refl fill.ticker) refl

  -- both states agree on the ticker
  abbrev pub SameIn : String → Checked F (Tally F) → Checked F (Tally F) → Type 0
  SameIn ticker (ok s) (ok z) = open_in ticker s ≡ open_in ticker z
  SameIn ticker (ok s) (error e) = ⊥
  SameIn ticker (error e) out = Unit

  apply_at-other :
      (ticker : String) (fill : StockFillEvent F) (current : OpenCostBasis F) (s z : Tally F)
      → (fill.ticker == ticker) ≡ false
      → open_in ticker s ≡ open_in ticker z
      → SameIn ticker (apply_at fill current s) (ok z)
  unfolding apply_at
  apply_at-other ticker fill current s z other same =
      let P = λ (out : Checked F (Tally F)). SameIn ticker out (ok z) in
      if_cases P (fill.action == "enter_long") _ _
        (λ _. lookup-insert fill.ticker ticker _ s.basis ∙ rw other same)
        λ _.
          if_cases P (fl.lt (fl.plus current.quantity zero_tolerance) fill.quantity) _ _ (λ _. tt)
            λ _. after_sale-lookup ticker fill current s.basis ∙ rw other same

  apply_at-same :
      (fill : StockFillEvent F) (current : OpenCostBasis F) (s z : Tally F)
      → SameIn fill.ticker (apply_at fill current s) (apply_at fill current z)
  unfolding apply_at
  apply_at-same fill current s z =
      both_cases (SameIn fill.ticker) (fill.action == "enter_long")
        (λ _. insert-found fill.ticker _ s.basis ∙ sym (insert-found fill.ticker _ z.basis))
        λ _.
          both_cases (SameIn fill.ticker)
            (fl.lt (fl.plus current.quantity zero_tolerance) fill.quantity) (λ _. tt)
            λ _. after_sale-sold fill current s.basis ∙ sym (after_sale-sold fill current z.basis)

  apply_fill-same :
      (ticker : String) (fill : StockFillEvent F) (s z : Tally F)
      → (fill.ticker == ticker) ≡ true
      → open_in ticker s ≡ open_in ticker z
      → SameIn ticker (apply_fill fill s) (apply_fill fill z)
  unfolding apply_fill
  apply_fill-same ticker fill s z here same =
      let e : fill.ticker ≡ ticker = ground (arith, eq_iff fill.ticker ticker) in
      let currents : current_basis fill s ≡ current_basis fill z =
        ap (λ (o : Option (OpenCostBasis F)). or_else o empty_basis)
          (subst (λ t. open_in t s ≡ open_in t z) (sym e) same) in
      subst (λ t. SameIn t (apply_fill fill s) (apply_fill fill z)) e
        (subst
          (λ c. SameIn fill.ticker (apply_at fill (current_basis fill s) s) (apply_at fill c z))
          currents (apply_at-same fill (current_basis fill s) s z))

  and_then-SameIn :
      (ticker : String) (out other : Checked F (Tally F))
      (next later : Tally F → Checked F (Tally F))
      → SameIn ticker out other
      → ((s z : Tally F) → open_in ticker s ≡ open_in ticker z → SameIn ticker (next s) (later z))
      → SameIn ticker (and_then out next) (and_then other later)
  and_then-SameIn ticker (ok s) (ok z) next later h k = k s z h
  and_then-SameIn ticker (ok s) (error e) next later h k = absurd h
  and_then-SameIn ticker (error e) other next later h k = tt

  -- If the loop ends well over some fills, it does so over those of one ticker alone, and the open quantity and
  -- average cost of this ticker are the same. The two runs may begin in different states, as long as these agree on
  -- the ticker.
  pub apply_fills-SameIn :
      (ticker : String) (fills : List (StockFillEvent F)) (s z : Tally F)
      → open_in ticker s ≡ open_in ticker z
      → SameIn ticker
          (apply_fills fills s)
          (apply_fills (keep (λ (fill : StockFillEvent F). fill.ticker == ticker) fills) z)
  unfolding apply_fills apply_fill
  apply_fills-SameIn ticker [] s z same = same
  apply_fills-SameIn ticker (fill ∷ fills) s z same = elim (Bool-cases (fill.ticker == ticker)) [
    | inl here ↦ rw here (
        and_then-SameIn ticker (apply_fill fill s) (apply_fill fill z) _ _
          (apply_fill-same ticker fill s z here same) (apply_fills-SameIn ticker fills))
    | inr other ↦ rw other (
        and_then-SameIn ticker (apply_fill fill s) (ok z) _
          (apply_fills (keep (λ (f : StockFillEvent F). f.ticker == ticker) fills))
          (apply_at-other ticker fill (current_basis fill s) s z other same)
          (apply_fills-SameIn ticker fills))
  ]
