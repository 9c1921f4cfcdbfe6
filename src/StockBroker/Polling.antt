-- ===== src/StockBroker/Polling.antt =====
-- `_poll_until_terminal` of the paper stock broker: what it leaves alone, how often it asks, and when it stops.
use equity_research_agent.Prelude.{
  ℕ, suc, zero, ◌+◌, ◌≤◌, ◌≡◌, refl, subst, ◌∙◌, ◌⊎◌, inl, inr, Bool, true, Option, none, some,
  or_else, contains, arith, if_cases,
}
use equity_research_agent.Float.{Float}
use equity_research_agent.StockBroker.Records.{
  Payload, Service, Settings, Broker, terminal_order_statuses,
}
use equity_research_agent.StockBroker.Orders.{poll, poll_until_terminal, fetch, wait, carry_on}

abbrev pub is_terminal : {F : Type 0} → Payload F → Bool
is_terminal p = contains terminal_order_statuses (or_else p.status "")

-- Only the counts of requests and waits changed, and there were at most `n` requests.
pub record Polled {F : Type 0} (n : ℕ) (s z : Broker F) : Type 0 where
  pub orders_kept : z.orders ≡ s.orders
  pub orders_by_key_kept : z.orders_by_key ≡ s.orders_by_key
  pub executions_kept : z.executions ≡ s.executions
  pub executions_by_order_id_kept : z.executions_by_order_id ≡ s.executions_by_order_id
  pub posts_kept : z.posts ≡ s.posts
  pub readings_kept : z.readings ≡ s.readings
  pub fresh_kept : z.fresh ≡ s.fresh
  pub requests_bounded : z.requests ≤ s.requests + n
  pub requests_grow : s.requests ≤ z.requests

-- An order object came back that is terminal, or is the last of `n` requests.
abbrev pub StopsWell : {F : Type 0} → ℕ → Broker F → Option (Payload F) × Broker F → Type 0
StopsWell n s (none, z) = Unit
StopsWell n s (some p, z) = (is_terminal p ≡ true) ⊎ (z.requests ≡ s.requests + n)

Polled-none : {F : Type 0} (n : ℕ) (s : Broker F) → Polled n s s
Polled-none n s = record {
  orders_kept = refl;
  orders_by_key_kept = refl;
  executions_kept = refl;
  executions_by_order_id_kept = refl;
  posts_kept = refl;
  readings_kept = refl;
  fresh_kept = refl;
  requests_bounded = omega arith;
  requests_grow = omega arith;
}

Polled-trans :
    {F : Type 0} (n m : ℕ) (s y z : Broker F) → Polled n s y → Polled m y z → Polled (n + m) s z
Polled-trans n m s y z h k = record {
  orders_kept = k.orders_kept ∙ h.orders_kept;
  orders_by_key_kept = k.orders_by_key_kept ∙ h.orders_by_key_kept;
  executions_kept = k.executions_kept ∙ h.executions_kept;
  executions_by_order_id_kept = k.executions_by_order_id_kept ∙ h.executions_by_order_id_kept;
  posts_kept = k.posts_kept ∙ h.posts_kept;
  readings_kept = k.readings_kept ∙ h.readings_kept;
  fresh_kept = k.fresh_kept ∙ h.fresh_kept;
  requests_bounded = omega (arith, h.requests_bounded, k.requests_bounded);
  requests_grow = omega (arith, h.requests_grow, k.requests_grow);
}

StopsWell-suc :
    {F : Type 0} (n : ℕ) (s z : Broker F) (out : Option (Payload F) × Broker F)
    → z.requests ≡ s.requests + 1
    → StopsWell n z out
    → StopsWell (suc n) s out
StopsWell-suc n s z (none, y) counted h = h
StopsWell-suc n s z (some p, y) counted (inl terminal) = inl terminal
StopsWell-suc n s z (some p, y) counted (inr last) = inr (omega arith)

module _ {F : Type 0} ⦃fl : Float F⦄ (service : Service F) (settings : Settings F) where
  abbrev pub Stops : ℕ → Broker F → Option (Payload F) × Broker F → Type 0
  Stops n s out = Polled n s out.1 × StopsWell n s out

  pub fetch-Polled :
      (attempts : ℕ) (s : Broker F)
      → Polled 1 s (fetch service settings (wait service settings attempts s)).1
  fetch-Polled attempts s = record {
    orders_kept = refl;
    orders_by_key_kept = refl;
    executions_kept = refl;
    executions_by_order_id_kept = refl;
    posts_kept = refl;
    readings_kept = refl;
    fresh_kept = refl;
    requests_bounded = ground arith;
    requests_grow = ground arith;
  }

  carry_on-Stops :
      (left : ℕ) (s z : Broker F) (next : Payload F → Broker F → Option (Payload F) × Broker F)
      (got : Option (Payload F))
      → Polled 1 s z
      → ((got ≡ none) ⊎ (z.requests ≡ s.requests + 1))
      → ((p : Payload F) → Stops left z (next p z))
      → Stops (suc left) s (carry_on next got z)
  carry_on-Stops left s z next none asked counted goes_on = (
    subst (λ n. Polled n s z) (omega arith) (Polled-trans 1 left s z z asked (Polled-none left z)),
    tt,
  )
  carry_on-Stops left s z next (some p) asked (inl none_got) goes_on = absurd (cc none_got)
  carry_on-Stops left s z next (some p) asked (inr counted) goes_on = (
    subst (λ n. Polled n s (next p z).1) (omega arith)
        (Polled-trans 1 left s z (next p z).1 asked (goes_on p).0),
    StopsWell-suc left s z (next p z) counted (goes_on p).1,
  )

  poll-Stops :
      (left attempts : ℕ) (latest : Payload F) (s : Broker F)
      → Stops left s (poll service settings left attempts latest s)
  unfolding poll
  poll-Stops zero attempts latest s = (Polled-none 0 s, inr (omega arith))
  poll-Stops (suc left) attempts latest s =
      if_cases (Stops (suc left) s) (is_terminal latest) (some latest, s) _
        (λ terminal. (Polled-none (suc left) s, inl terminal))
        λ more.
          carry_on-Stops left s (fetch service settings (wait service settings attempts s)).1
            (poll service settings left (attempts + 1))
            (fetch service settings (wait service settings attempts s)).0 (fetch-Polled attempts s)
            (ground arith) (λ p. poll-Stops left (attempts + 1) p _)

  pub poll_until_terminal-Stops :
      (got : Option (Payload F)) (s : Broker F)
      → Stops settings.max_poll_attempts s (poll_until_terminal service settings got s)
  unfolding poll_until_terminal
  poll_until_terminal-Stops none s = (Polled-none settings.max_poll_attempts s, tt)
  poll_until_terminal-Stops (some p) s = poll-Stops settings.max_poll_attempts 0 p s
