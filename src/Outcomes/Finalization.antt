-- ===== src/Outcomes/Finalization.antt =====
-- When `resolve_finalization` ends an outcome before its horizon.
use equity_research_agent.Prelude.{
  ℕ, ◌≤◌, ◌<◌, String, ◌≡◌, refl, ◌⊎◌, inl, inr, Bool, true, false, ◌&&◌, Option, none, some,
  if_cases, ltb, arith,
}
use equity_research_agent.Outcomes.{OutcomeFinalization, is_selected, resolve_finalization}

too_late :
    (s closed : Bool) (c horizon : ℕ)
    → (s && closed && ltb c horizon) ≡ false
    → (s ≡ false)
      ⊎ (closed ≡ false)
      ⊎ (some c ≡ none)
      ⊎ ((d : ℕ) × (some c ≡ some d) × (horizon ≤ d))
too_late false closed c horizon late = inl refl
too_late true false c horizon late = inr (inl refl)
too_late true true c horizon late = inr (inr (inr (c, refl, ground arith)))

-- the end and the reason for an outcome with this horizon
abbrev pub IsFinal : String → Bool → Option ℕ → ℕ → OutcomeFinalization → Type 0
IsFinal trade_identity closed close horizon z =
    ((z.reason ≡ "trade_closed")
      × (is_selected trade_identity ≡ true)
      × (closed ≡ true)
      × (close ≡ some z.horizon_end_at)
      × (z.horizon_end_at < horizon))
    ⊎ ((z.reason ≡ "horizon_expired")
        × (z.horizon_end_at ≡ horizon)
        × ((is_selected trade_identity ≡ false)
            ⊎ (closed ≡ false)
            ⊎ (close ≡ none)
            ⊎ ((c : ℕ) × (close ≡ some c) × (horizon ≤ c))))

-- An outcome ends at the complete close of its trade exactly if the trade was selected and closed before the horizon,
-- with the reason `trade_closed`. Otherwise it ends at the horizon, with the reason `horizon_expired`.
pub resolve_finalization-IsFinal :
    (trade_identity : String) (closed : Bool) (close : Option ℕ) (horizon : ℕ)
    → IsFinal trade_identity closed close horizon
        (resolve_finalization trade_identity closed close horizon)
unfolding resolve_finalization
resolve_finalization-IsFinal trade_identity closed none horizon =
    inr (refl, refl, inr (inr (inl refl)))
resolve_finalization-IsFinal trade_identity closed (some c) horizon =
    if_cases (IsFinal trade_identity closed (some c) horizon)
      (is_selected trade_identity && closed && ltb c horizon) _ _
      (λ early. inl (refl, ground arith, ground arith, refl, ground arith))
      λ late. inr (refl, refl, too_late (is_selected trade_identity) closed c horizon late)
