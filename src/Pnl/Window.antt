-- ===== src/Pnl/Window.antt =====
-- Which fills `replay_stock_fills` counts.
use equity_research_agent.Prelude.{
  ℕ, ◌≡◌, refl, sym, ◌∙◌, ap, Bool, true, ◌&&◌, List, [], ◌∷◌, keep, All, leb, ltb, arith,
}
use equity_research_agent.Float.{Float}
use equity_research_agent.Pnl.Replay.{
  StockFillEvent, Checked, ok, and_then, check, check_all, validate_fill, active_candidates,
  replay_normalized, replay_stock_fills, through_before_started_at,
}

module _ {F : Type 0} ⦃fl : Float F⦄ where
  abbrev pub in_window : ℕ → ℕ → StockFillEvent F → Bool
  in_window started_at through fill =
      leb started_at fill.executed_at && leb fill.executed_at through

  abbrev pub HasTimezone : StockFillEvent F → Type 0
  HasTimezone fill = fill.has_timezone ≡ true

  active_candidates-keep :
      (started_at through : ℕ) (fills : List (StockFillEvent F))
      → All HasTimezone fills
      → active_candidates started_at through fills ≡ ok (keep (in_window started_at through) fills)
  unfolding active_candidates
  active_candidates-keep started_at through [] zones = refl
  active_candidates-keep started_at through (fill ∷ fills) (zone, zones) =
      ground (arith, zone, active_candidates-keep started_at through fills zones)

  keep-HasTimezone :
      (test : StockFillEvent F → Bool) (fills : List (StockFillEvent F))
      → All HasTimezone fills
      → All HasTimezone (keep test fills)
  keep-HasTimezone test [] zones = zones
  keep-HasTimezone test (fill ∷ fills) (zone, zones) =
      ground (arith, zone, keep-HasTimezone test fills zones)

  keep-keep :
      (test : StockFillEvent F → Bool) (fills : List (StockFillEvent F))
      → keep test (keep test fills) ≡ keep test fills
  keep-keep test [] = refl
  keep-keep test (fill ∷ fills) = ground (arith, keep-keep test fills)

  -- Where every fill has a time zone, the replay of a window is the same as without the fills before its start
  -- and after its end.
  pub replay-in_window :
      (fills : List (StockFillEvent F)) (started_at through : ℕ)
      → All HasTimezone fills
      → replay_stock_fills fills started_at through
        ≡ replay_stock_fills (keep (in_window started_at through) fills) started_at through
  unfolding replay_stock_fills
  replay-in_window fills started_at through zones =
      let test = in_window started_at through in
      let rest = λ (c : Checked F (List (StockFillEvent F))).
        check (ltb through started_at) through_before_started_at (
          and_then c
            (λ candidates. and_then (check_all validate_fill candidates) replay_normalized)) in
      ap rest (
        active_candidates-keep started_at through fills zones
        ∙ sym (
            active_candidates-keep started_at through (keep test fills)
              (keep-HasTimezone test fills zones)
            ∙ ap ok (keep-keep test fills)))
