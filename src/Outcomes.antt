-- ===== src/Outcomes.antt =====
-- trading/outcomes/horizons.py and trading/outcomes/finalization.py: when the outcome of a candidate is marked and
-- when it is final. A date is the number of its day and a time a number of microseconds. The exchange calendar is
-- an argument, the function that lists its sessions in a range of days.
pub mod Checkpoints
pub mod Finalization
mod Tests
use equity_research_agent.Prelude.{
  ℕ, zero, suc, ◌+◌, ◌*◌, String, ◌==◌, Bool, ◌&&◌, List, [], ◌∷◌, Option, none, some,
  if◌then◌else◌, ltb, eqb, contains, Dict, lookup,
}

-- `OutcomeSessionOffsets`
pub record OutcomeSessionOffsets : Type 0 where
  pub interim_session_offset : ℕ
  pub final_session_offset : ℕ

-- `OutcomeCheckpoints`
pub record OutcomeCheckpoints : Type 0 where
  pub interim_session_offset : ℕ
  pub final_session_offset : ℕ
  pub interim_session : ℕ
  pub final_session : ℕ

-- checkpoints, or the exception
pub data Result : Type 0 where
  ok : OutcomeCheckpoints → Result
  unsupported_horizon : String → Result
  decision_session_not_xnys : ℕ → Result
  index_error : Result

abbrev pub offsets : ℕ → ℕ → OutcomeSessionOffsets
offsets interim final = record { interim_session_offset = interim; final_session_offset = final }

-- `_OFFSETS`
unfoldable pub offset_table : Dict OutcomeSessionOffsets
offset_table =
    ("intraday-2d", offsets 1 2)
    ∷ ("intraday-3d", offsets 1 3)
    ∷ ("1d-2w", offsets 1 10)
    ∷ ("2d-3w", offsets 2 15)
    ∷ ("2d-4w", offsets 2 20)
    ∷ ("3d-4w", offsets 3 20)
    ∷ ("1-6w", offsets 5 30)
    ∷ ("1-8w", offsets 5 40)
    ∷ ("2-8w", offsets 10 40)
    ∷ ("2w-8w", offsets 10 40)
    ∷ ("2w-3m", offsets 10 63)
    ∷ ("1-3m", offsets 21 63)
    ∷ ("2-12w", offsets 10 60)
    ∷ ("intraday-3m", offsets 1 63)
    ∷ ("intraday-4w", offsets 1 20)
    ∷ ("multi-month+", offsets 63 126)
    ∷ []

-- `xs.index(d)`
abbrev pub index_of : ℕ → List ℕ → Option ℕ
index_of d [] = none
index_of d (x ∷ xs) =
    let rest = index_of d xs in
    if eqb x d then some 0 else elim rest [ none ↦ none | some i ↦ some (i + 1) ]

-- `xs[i]`
abbrev pub get_elem? : List ℕ → ℕ → Option ℕ
get_elem? [] i = none
get_elem? (x ∷ xs) zero = some x
get_elem? (x ∷ xs) (suc i) = get_elem? xs i

module _ (sessions_in_range : ℕ → ℕ → List ℕ) where
  -- the two look-ups of `checkpoints_for`
  unfoldable pub marks : OutcomeSessionOffsets → Option ℕ → Option ℕ → Result
  marks o none final = index_error
  marks o (some interim) none = index_error
  marks o (some interim) (some final) = ok (record {
    interim_session_offset = o.interim_session_offset;
    final_session_offset = o.final_session_offset;
    interim_session = interim;
    final_session = final;
  })

  unfoldable pub checkpoints_at : OutcomeSessionOffsets → ℕ → List ℕ → Option ℕ → Result
  checkpoints_at o decision_session sessions none = decision_session_not_xnys decision_session
  checkpoints_at o decision_session sessions (some i) =
      marks o (get_elem? sessions (i + o.interim_session_offset))
        (get_elem? sessions (i + o.final_session_offset))

  -- the sessions that `checkpoints_for` asks for
  abbrev pub sessions_for : OutcomeSessionOffsets → ℕ → List ℕ
  sessions_for o decision_session =
      sessions_in_range decision_session (decision_session + (o.final_session_offset + 20) * 2)

  unfoldable pub checkpoints_with : String → ℕ → Option OutcomeSessionOffsets → Result
  checkpoints_with typical_horizon decision_session none = unsupported_horizon typical_horizon
  checkpoints_with typical_horizon decision_session (some o) =
      let sessions = sessions_for o decision_session in
      checkpoints_at o decision_session sessions (index_of decision_session sessions)

  -- `offsets_for` and `checkpoints_for`
  unfoldable pub checkpoints_for : String → ℕ → Result
  checkpoints_for typical_horizon decision_session =
      checkpoints_with typical_horizon decision_session (lookup typical_horizon offset_table)

-- `OutcomeFinalization`
pub record OutcomeFinalization : Type 0 where
  pub horizon_end_at : ℕ
  pub reason : String

-- `selected_identity`
abbrev pub is_selected : String → Bool
is_selected =
    contains (
      "core_holding" ∷ "tactical_stock_trade" ∷ "tactical_option_trade" ∷ "risk_hedge_overlay" ∷ [])

-- `resolve_finalization`
unfoldable pub resolve_finalization : String → Bool → Option ℕ → ℕ → OutcomeFinalization
resolve_finalization trade_identity has_complete_close complete_close_at horizon_end_at =
    let expired : OutcomeFinalization = record {
      horizon_end_at = horizon_end_at;
      reason = "horizon_expired";
    } in
    elim complete_close_at [
      | none ↦ expired
      | some close ↦
          if is_selected trade_identity && has_complete_close && ltb close horizon_end_at
          then record { horizon_end_at = close; reason = "trade_closed" }
          else expired
    ]
