-- ===== src/Pnl/Replay.antt =====
-- trading/portfolio/pnl.py: the checks of a fill and the replay of the fills of a window.
use equity_research_agent.Prelude.{
  ℕ, String, ◌==◌, ◌≡◌, refl, Bool, false, not, ◌&&◌, ◌||◌, List, [], ◌∷◌, map, if◌then◌else◌, ltb,
  leb, eqb, text_le, contains, length, or_else, Dict, lookup, insert,
}
use equity_research_agent.Prelude.Text.{strip, upper, lower}
use equity_research_agent.Prelude.Sorting.{sorted}
use equity_research_agent.Float.{Float, zero_f}

-- `StockFillEvent`; `has_timezone` is false where `executed_at.tzinfo` is `None`
pub record StockFillEvent (F : Type 0) : Type 0 where
  pub execution_id : String
  pub ticker : String
  pub executed_at : ℕ
  pub has_timezone : Bool
  pub action : String
  pub quantity : F
  pub fill_price : F

-- `OpenCostBasis`
pub record OpenCostBasis (F : Type 0) : Type 0 where
  pub quantity : F
  pub average_cost : F

-- `StockPnlReplay`
pub record StockPnlReplay (F : Type 0) : Type 0 where
  pub realized_pnl : F
  pub open_cost_basis : Dict (OpenCostBasis F)
  pub fill_count : ℕ

-- `PortfolioPnlValidationError`, by its texts
pub data PnlError (F : Type 0) : Type 0 where
  missing_clean_reset : PnlError F
  through_before_started_at : PnlError F
  executed_at_timezone : String → PnlError F
  bad_execution_id : PnlError F
  bad_ticker : String → PnlError F
  bad_action : String → String → PnlError F
  bad_quantity : String → F → PnlError F
  bad_fill_price : String → F → PnlError F
  duplicate_execution_id : PnlError F
  oversell : String → String → F → F → PnlError F
  quantity_mismatch : String → F → F → PnlError F
  average_cost_mismatch : String → F → F → PnlError F

pub data Checked (F A : Type 0) : Type 0 where
  ok : A → Checked F A
  error : PnlError F → Checked F A

abbrev pub and_then : {F A B : Type 0} → Checked F A → (A → Checked F B) → Checked F B
and_then (ok a) next = next a
and_then (error e) next = error e

pub and_then_ok :
    {F A B : Type 0} (c : Checked F A) (next : A → Checked F B) (b : B)
    → and_then c next ≡ ok b
    → (a : A) × (c ≡ ok a) × (next a ≡ ok b)
and_then_ok (ok a) next b h = (a, refl, h)
and_then_ok (error e) next b h = absurd (cc h)

-- `test` fails with the error
abbrev pub check : {F A : Type 0} → Bool → PnlError F → Checked F A → Checked F A
check fails e rest = if fails then error e else rest

-- `tuple(f(x) for x in xs)`, which ends at the first error
abbrev pub check_all : {F A B : Type 0} → (A → Checked F B) → List A → Checked F (List B)
check_all f [] = ok []
check_all f (x ∷ xs) =
    let rest = check_all f xs in and_then (f x) (λ y. and_then rest (λ ys. ok (y ∷ ys)))

-- the loop's state: `open_cost_basis` and `realized_pnl`
pub record Tally (F : Type 0) : Type 0 where
  pub basis : Dict (OpenCostBasis F)
  pub realized : F

-- `d.pop(k, None)`
abbrev pub remove {ℓ} : {V : Type ℓ} → String → Dict V → Dict V
remove k [] = []
remove k ((j, v) ∷ d) = let rest = remove k d in if j == k then rest else (j, v) ∷ rest

-- `len(set(xs)) != len(xs)`
abbrev pub has_duplicate : List String → Bool
has_duplicate [] = false
has_duplicate (x ∷ xs) = contains xs x || has_duplicate xs

abbrev pub supported_actions : List String
supported_actions = "enter_long" ∷ "reduce" ∷ "exit" ∷ []

module _ {F : Type 0} ⦃fl : Float F⦄ where
  -- `_ZERO_TOLERANCE`
  abbrev pub zero_tolerance : F
  zero_tolerance = fl.lit 1 12

  -- `not isfinite(x) or x <= 0`
  abbrev pub is_unusable : F → Bool
  is_unusable x = not (fl.is_finite x) || fl.le x zero_f

  -- `_validate_fill`
  unfoldable pub validate_fill : StockFillEvent F → Checked F (StockFillEvent F)
  validate_fill fill =
      let execution_id = strip fill.execution_id in
      let ticker = upper (strip fill.ticker) in
      let action = lower (strip fill.action) in
      check (execution_id == "") bad_execution_id (
        check (ticker == "") (bad_ticker execution_id) (
          check (not (contains supported_actions action)) (bad_action execution_id action) (
            check (is_unusable fill.quantity) (bad_quantity execution_id fill.quantity) (
              check (is_unusable fill.fill_price) (bad_fill_price execution_id fill.fill_price) (
                check (not fill.has_timezone) (executed_at_timezone execution_id) (
                  ok (record fill {
                    execution_id = execution_id;
                    ticker = ticker;
                    action = action;
                  })))))))

  abbrev pub empty_basis : OpenCostBasis F
  empty_basis = record { quantity = zero_f; average_cost = zero_f }

  abbrev pub current_basis : StockFillEvent F → Tally F → OpenCostBasis F
  current_basis fill s = or_else (lookup fill.ticker s.basis) empty_basis

  -- the entry after a buy
  abbrev pub bought : StockFillEvent F → OpenCostBasis F → OpenCostBasis F
  bought fill current =
      let quantity = fl.plus current.quantity fill.quantity in
      let cost =
        fl.plus (fl.times current.quantity current.average_cost)
          (fl.times fill.quantity fill.fill_price) in
      record { quantity = quantity; average_cost = fl.over cost quantity }

  -- the entries after a sale that leaves the quantity
  abbrev pub after_sale :
      StockFillEvent F → OpenCostBasis F → Dict (OpenCostBasis F) → Dict (OpenCostBasis F)
  after_sale fill current basis =
      let remaining = fl.minus current.quantity fill.quantity in
      if fl.le remaining zero_tolerance
      then remove fill.ticker basis
      else insert fill.ticker (record current { quantity = remaining }) basis

  -- the body of the loop, given the current entry
  unfoldable pub apply_at : StockFillEvent F → OpenCostBasis F → Tally F → Checked F (Tally F)
  apply_at fill current s =
      if fill.action == "enter_long"
      then ok (record s { basis = insert fill.ticker (bought fill current) s.basis })
      else check (fl.lt (fl.plus current.quantity zero_tolerance) fill.quantity)
          (oversell fill.execution_id fill.ticker fill.quantity current.quantity)
          (ok (record {
            basis = after_sale fill current s.basis;
            realized =
                fl.plus s.realized
                  (fl.times fill.quantity (fl.minus fill.fill_price current.average_cost));
          }))

  -- the body of the loop
  unfoldable pub apply_fill : StockFillEvent F → Tally F → Checked F (Tally F)
  apply_fill fill s = apply_at fill (current_basis fill s) s

  -- the loop
  unfoldable pub apply_fills : List (StockFillEvent F) → Tally F → Checked F (Tally F)
  apply_fills [] s = ok s
  apply_fills (fill ∷ fills) s = and_then (apply_fill fill s) (apply_fills fills)

  -- the choice of the fills of the window
  unfoldable pub active_candidates :
      ℕ → ℕ → List (StockFillEvent F) → Checked F (List (StockFillEvent F))
  active_candidates started_at through [] = ok []
  active_candidates started_at through (fill ∷ fills) =
      let rest = active_candidates started_at through fills in
      check (not fill.has_timezone) (executed_at_timezone fill.execution_id) (
        and_then rest (λ later. ok (
          if leb started_at fill.executed_at && leb fill.executed_at through
          then fill ∷ later
          else later)))

  abbrev pub fill_le : StockFillEvent F → StockFillEvent F → Bool
  fill_le a b =
      ltb a.executed_at b.executed_at
      || eqb a.executed_at b.executed_at && text_le a.execution_id b.execution_id

  abbrev pub start : Tally F
  start = record { basis = []; realized = zero_f }

  -- the part of `replay_stock_fills` after the checks of the fills
  unfoldable pub replay_normalized : List (StockFillEvent F) → Checked F (StockPnlReplay F)
  replay_normalized normalized =
      let active = sorted fill_le normalized in
      check (has_duplicate (map (λ fill. fill.execution_id) normalized)) duplicate_execution_id (
        and_then (apply_fills active start) (λ s. ok (record {
          realized_pnl = s.realized;
          open_cost_basis = sorted (λ a b. text_le a.0 b.0) s.basis;
          fill_count = length active;
        })))

  -- `replay_stock_fills`
  unfoldable pub replay_stock_fills : List (StockFillEvent F) → ℕ → ℕ → Checked F (StockPnlReplay F)
  replay_stock_fills fills started_at through =
      check (ltb through started_at) through_before_started_at (
        and_then (active_candidates started_at through fills)
          (λ candidates. and_then (check_all validate_fill candidates) replay_normalized))
