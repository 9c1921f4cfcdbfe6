-- ===== src/OptionBroker/Lasting.antt =====
-- The paper option broker, called again with an idempotency key: what follows from its book of orders.
use equity_research_agent.Prelude.{
  String, ◌≡◌, ◌≢◌, refl, ◌∙◌, ap, ◌⊎◌, inl, inr, List, [], ◌∷◌, ◌++◌, some, none, All, arith,
  eq_iff, eq_refl, subst,
}
use equity_research_agent.Float.{Float}
use equity_research_agent.OptionBroker.Records.{
  PaperOptionOrderRequest, PaperOptionOrderRecord, OptionBroker,
}
use equity_research_agent.OptionBroker.Payloads.{idempotency_key}
use equity_research_agent.OptionBroker.Orders.{Answer, answered, raised}
use equity_research_agent.OptionBroker.Book.{
  Book, view, learn, Serves, ServesAll, Call, submit_all, submit_all-ServesAll,
}

module _ {F : Type 0} where
  -- every later call with the key gives the order
  abbrev pub GivesAgain :
      String → PaperOptionOrderRecord F → List (PaperOptionOrderRequest F × Answer F) → Type 0
  GivesAgain key order = All (λ entry. idempotency_key entry.0 ≡ key → entry.1 ≡ answered order)

  -- the call gave the order, or raised
  abbrev pub GivesOrRaises : Answer F → PaperOptionOrderRecord F → Type 0
  GivesOrRaises answer order = (answer ≡ answered order) ⊎ (answer ≡ raised)

  learned :
      (b : Book F) (key : String) (order : PaperOptionOrderRecord F)
      → learn b key order key ≡ some order
  learned b key order = ground (arith, eq_refl key)

  Serves-known :
      (b next : Book F) (r : PaperOptionOrderRequest F) (answer : Answer F)
      → Serves b r answer next
      → (order : PaperOptionOrderRecord F) × (next (idempotency_key r) ≡ some order)
        × GivesOrRaises answer order
  Serves-known b next r answer (inl (order, known, e, same)) =
      (order, ap (λ (f : Book F). f (idempotency_key r)) same ∙ known, inl e)
  Serves-known b next r (answered order) (inr (new, (for_r, same))) = (
    order,
    ap (λ (f : Book F). f (idempotency_key r)) same ∙ learned b (idempotency_key r) order,
    inl refl,
  )
  Serves-known b next r raised (inr (new, (order, (for_r, same)))) = (
    order,
    ap (λ (f : Book F). f (idempotency_key r)) same ∙ learned b (idempotency_key r) order,
    inr refl,
  )

  module _ (key : String) (order : PaperOptionOrderRecord F) where
    Enters-keeps :
        (b next : Book F) (r : PaperOptionOrderRequest F) (entered : PaperOptionOrderRecord F)
        → b key ≡ some order
        → b (idempotency_key r) ≡ none
        → next ≡ learn b (idempotency_key r) entered
        → (next key ≡ some order) × (idempotency_key r ≢ key)
    Enters-keeps b next r entered known new same = (
      ap (λ (f : Book F). f key) same ∙ ground (arith, eq_iff (idempotency_key r) key, known, new),
      λ e. absurd (cc (known, new, e)),
    )

    Serves-keeps :
        (b next : Book F) (r : PaperOptionOrderRequest F) (answer : Answer F)
        → b key ≡ some order
        → Serves b r answer next
        → (next key ≡ some order) × (idempotency_key r ≡ key → answer ≡ answered order)
    Serves-keeps b next r answer known (inl (old, found, e, same)) =
        (ap (λ (f : Book F). f key) same ∙ known, λ h. cc (known, found, e, h))
    Serves-keeps b next r (answered entered) known (inr (new, (for_r, same))) =
        let (kept, other) = Enters-keeps b next r entered known new same in
        (kept, λ h. absurd (other h))
    Serves-keeps b next r raised known (inr (new, (entered, (for_r, same)))) =
        let (kept, other) = Enters-keeps b next r entered known new same in
        (kept, λ h. absurd (other h))

    ServesAll-GivesAgain :
        (log : List (PaperOptionOrderRequest F × Answer F)) (b b' : Book F)
        → b key ≡ some order
        → ServesAll b log b'
        → GivesAgain key order log
    ServesAll-GivesAgain [] b b' known h = tt
    ServesAll-GivesAgain ((r, answer) ∷ log) b b' known (next, served, rest) =
        let (kept, gives) = Serves-keeps b next r answer known served in
        (gives, ServesAll-GivesAgain log next b' kept rest)

  ServesAll-lasts :
      (before rest : List (PaperOptionOrderRequest F × Answer F)) (r : PaperOptionOrderRequest F)
      (answer : Answer F) (b b' : Book F)
      → ServesAll b (before ++ (r, answer) ∷ rest) b'
      → (order : PaperOptionOrderRecord F) × GivesOrRaises answer order
        × GivesAgain (idempotency_key r) order rest
  ServesAll-lasts [] rest r answer b b' (next, served, later) =
      let (order, known, gives) = Serves-known b next r answer served in
      (order, gives, ServesAll-GivesAgain (idempotency_key r) order rest next b' known later)
  ServesAll-lasts ((q, first) ∷ before) rest r answer b b' (next, served, later) =
      ServesAll-lasts before rest r answer next b' later

-- After a call with some key, each later call with that key in the sequence ends with one and the same order,
-- also if the first call raised, whatever the services answer in between. A first call that did not raise gave
-- that order already.
pub answer_lasts :
    {F : Type 0} ⦃fl : Float F⦄ (calls : List (Call F)) (s : OptionBroker F)
    (before rest : List (PaperOptionOrderRequest F × Answer F)) (r : PaperOptionOrderRequest F)
    (answer : Answer F)
    → (submit_all calls s).0 ≡ before ++ (r, answer) ∷ rest
    → (order : PaperOptionOrderRecord F) × GivesOrRaises answer order
      × GivesAgain (idempotency_key r) order rest
answer_lasts calls s before rest r answer logged =
    ServesAll-lasts before rest r answer (view s) (view (submit_all calls s).1) (
      subst (λ log. ServesAll (view s) log (view (submit_all calls s).1)) logged
        (submit_all-ServesAll calls s))
