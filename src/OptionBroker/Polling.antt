-- ===== src/OptionBroker/Polling.antt =====
-- What the polling of the paper option broker asks of the service, and which answer it goes on with.
use equity_research_agent.Prelude.{
  ℕ, suc, zero, ◌+◌, ◌≤◌, ◌≡◌, refl, Option, none, some, or_else, contains, arith, if_cases,
}
use equity_research_agent.Float.{Float}
use equity_research_agent.StockBroker.Records.{Payload, Service, terminal_order_statuses}
use equity_research_agent.OptionBroker.Records.{OptionSettings, Wire}
use equity_research_agent.OptionBroker.Orders.{Reply, replied, failed, carry_on, ask, poll}

-- how a poll or a post goes on with the answer of the service
abbrev pub reply_of : {F : Type 0} → Option (Payload F) → Reply F
reply_of none = failed "broker_error"
reply_of (some payload) = replied payload

-- the requests between two states of the wire are at most `n`, and the posts are unchanged
abbrev pub Asked : {F : Type 0} → ℕ → Wire F → Reply F × Wire F → Type 0
Asked n w out = (out.1.posts ≡ w.posts) × (out.1.requests ≤ w.requests + n)

module _ {F : Type 0} ⦃fl : Float F⦄ (service : Service F) (settings : OptionSettings F) where
  pub carry_on-Asked :
      (n : ℕ) (next : Payload F → Wire F → Reply F × Wire F) (got : Option (Payload F)) (w : Wire F)
      → ((p : Payload F) → Asked n w (next p w))
      → Asked n w (carry_on next got w)
  carry_on-Asked n next none w h = (refl, omega arith)
  carry_on-Asked n next (some p) w h = h p

  pub poll-Asked :
      (left attempts : ℕ) (latest : Payload F) (w : Wire F)
      → Asked left w (poll service settings left attempts latest w)
  unfolding poll
  poll-Asked zero attempts latest w = (refl, omega arith)
  poll-Asked (suc left) attempts latest w =
      if_cases (Asked (suc left) w) (contains terminal_order_statuses (or_else latest.status "")) _
        _ (λ terminal. (refl, omega arith))
        λ more.
          let (posts, requests) =
            carry_on-Asked left (poll service settings left (attempts + 1))
              (service.response w.requests) (ask service settings attempts w)
              (λ p. poll-Asked left (attempts + 1) p _) in
          (posts, omega (arith, requests))

  -- the reply is what the service answered to the last request
  abbrev pub IsLast : Reply F × Wire F → Type 0
  IsLast out = (k : ℕ) × (k + 1 ≡ out.1.requests) × (out.0 ≡ reply_of (service.response k))

  pub carry_on-IsLast :
      (next : Payload F → Wire F → Reply F × Wire F) (k : ℕ) (got : Option (Payload F)) (w : Wire F)
      → k + 1 ≡ w.requests
      → service.response k ≡ got
      → ((p : Payload F) → service.response k ≡ some p → IsLast (next p w))
      → IsLast (carry_on next got w)
  carry_on-IsLast next k none w last e h = (k, last, rw e refl)
  carry_on-IsLast next k (some p) w last e h = h p e

  pub poll-IsLast :
      (left attempts : ℕ) (latest : Payload F) (w : Wire F) (k : ℕ)
      → k + 1 ≡ w.requests
      → service.response k ≡ some latest
      → IsLast (poll service settings left attempts latest w)
  unfolding poll
  poll-IsLast zero attempts latest w k last e = (k, last, rw e refl)
  poll-IsLast (suc left) attempts latest w k last e =
      if_cases IsLast (contains terminal_order_statuses (or_else latest.status "")) _ _
        (λ terminal. (k, last, rw e refl))
        λ more.
          carry_on-IsLast (poll service settings left (attempts + 1)) w.requests
            (service.response w.requests) (ask service settings attempts w) refl refl
            (λ p answer.
              poll-IsLast left (attempts + 1) p (ask service settings attempts w) w.requests refl
                answer)
