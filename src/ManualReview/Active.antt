-- ===== src/ManualReview/Active.antt =====
-- `ManualTickerRequestService` keeps at most one active request for each ticker.
use equity_research_agent.Prelude.{
  ◌≤◌, String, ◌==◌, ◌≡◌, refl, subst, sym, ◌∙◌, ap, ◌⊎◌, inl, inr, true, not, List, [], ◌∷◌,
  Option, none, some, keep, length, lookup, insert, lookup-insert, arith, if_cases, Bool-cases,
  eq_iff, eq_refl, or_else, contains, false≢true,
}
use equity_research_agent.Prelude.Text.{strip, normalize_ticker}
use equity_research_agent.Prelude.Sorting.{sorted, insert_sorted}
use equity_research_agent.Prelude.Dicts.{
  values, Distinct, IsKeyed, insert-Distinct, insert-IsKeyed, count, count-insert_failing,
  count-insert_any, count-insert_fewer, count-insert_same, keep-only, found-key, kept-found,
}
use equity_research_agent.ManualReview.{
  ManualTickerRequest, RequestService, initial, Source, Result, done, value_error, key_error,
  is_active_for, active_request_for_ticker, cancel_existing, add_request, create, update, dismiss,
  cancel, record_evaluation, new_request, put, request_modes, reading,
}

abbrev pub key_of : ManualTickerRequest → String
key_of r = r.request_id

abbrev pub active_for : String → RequestService → List ManualTickerRequest
active_for ticker s = keep (is_active_for ticker) (values s.requests)

-- Each request stands under its own id, and each ticker has at most one active request.
pub record IsOrderly (s : RequestService) : Type 0 where
  pub keyed : IsKeyed key_of s.requests
  pub distinct : Distinct s.requests
  pub single : (ticker : String) → length (active_for ticker s) ≤ 1

at_most_one : {A : Type 0} (xs : List A) → length xs ≤ 1 → (xs ≡ []) ⊎ ((x : A) × (xs ≡ x ∷ []))
at_most_one [] h = inl refl
at_most_one (x ∷ []) h = inr (x, refl)
at_most_one (x ∷ y ∷ ys) h = absurd (omega arith)

-- the last of a sorted list with one item or none
active_request-none :
    (ticker : String) (s : RequestService)
    → active_for ticker s ≡ []
    → active_request_for_ticker ticker s ≡ none
unfolding active_request_for_ticker sorted
active_request-none ticker s e = rw e refl

active_request-some :
    (ticker : String) (s : RequestService) (r : ManualTickerRequest)
    → active_for ticker s ≡ r ∷ []
    → active_request_for_ticker ticker s ≡ some r
unfolding active_request_for_ticker sorted insert_sorted
active_request-some ticker s r e = rw e refl

module _ (source : Source) where
  -- a new value under its own id, which is no more active than the old one
  put-IsOrderly :
      (r : ManualTickerRequest) (s : RequestService)
      → IsOrderly s
      → ((ticker : String) → count (is_active_for ticker) (insert r.request_id r s.requests) ≤ 1)
      → IsOrderly (put source r.request_id r s)
  put-IsOrderly r s h few = record {
    keyed = insert-IsKeyed key_of r s.requests h.keyed;
    distinct = insert-Distinct r.request_id r s.requests h.distinct;
    single = few;
  }

  abbrev Clears : String → RequestService → Type 0
  Clears ticker z = IsOrderly z × (count (is_active_for ticker) z.requests ≤ 0)

  cancel_existing-Clears :
      (ticker : String) (s : RequestService)
      → IsOrderly s
      → Clears ticker (cancel_existing source (active_request_for_ticker ticker s) s)
  unfolding cancel_existing
  cancel_existing-Clears ticker s h = elim (at_most_one (active_for ticker s) (h.single ticker)) [
    | inl e ↦ rw (active_request-none ticker s e) (h, omega (arith, ap length e))
    | inr (r, e) ↦
        let cancelled : ManualTickerRequest = record r {
          status = "cancelled";
          cancelled_at = some (reading source s);
        } in
        let (found, active) =
          kept-found key_of (is_active_for ticker) r s.requests h.keyed h.distinct e in
        let fewer =
          count-insert_fewer (is_active_for ticker) r.request_id cancelled r s.requests found active
            refl in
        rw (active_request-some ticker s r e) (
          put-IsOrderly cancelled s h (λ t. omega (
            arith,
            h.single t,
            count-insert_failing (is_active_for t) r.request_id cancelled s.requests refl,
          )),
          omega (arith, h.single ticker, fewer),
        )
  ]

  -- the state after `create` passed its checks
  abbrev pub Adds : String → Result × RequestService → Type 0
  Adds ticker (done r, z) = IsOrderly z × (r.ticker ≡ ticker) × (active_for ticker z ≡ r ∷ [])
  Adds ticker (other, z) = ⊥

  add_request-Adds :
      (ticker reason mode : String) (s : RequestService)
      → IsOrderly s
      → Adds ticker (add_request source ticker reason mode s)
  unfolding add_request
  add_request-Adds ticker reason mode s h =
      let cleared = cancel_existing source (active_request_for_ticker ticker s) s in
      let (orderly, empty) = cancel_existing-Clears ticker s h in
      let r = new_request source ticker reason mode cleared in
      let few : (t : String)
          → count (is_active_for t) (insert r.request_id r cleared.requests) ≤ 1 =
        λ t. elim (Bool-cases (is_active_for t r)) [
          | inl active ↦
              let same : ticker ≡ t = ground (arith, eq_iff ticker t) in
              let none_left =
                subst (λ t. count (is_active_for t) cleared.requests ≤ 0) same empty in
              omega (
                arith,
                count-insert_any (is_active_for t) r.request_id r cleared.requests,
                none_left,
              )
          | inr other ↦ omega (
            arith,
            orderly.single t,
            count-insert_failing (is_active_for t) r.request_id r cleared.requests other,
          )
        ] in
      let next = put-IsOrderly r cleared orderly few in
      (
        record { keyed = next.keyed; distinct = next.distinct; single = next.single },
        refl,
        keep-only (is_active_for ticker) r.request_id r _
            (lookup-insert r.request_id r.request_id r cleared.requests
              ∙ rw (eq_refl r.request_id) refl)
            (rw (eq_refl ticker) refl) (few ticker),
      )

  -- a change that keeps the id, and makes no request active that was not, and moves none to another ticker
  abbrev IsQuiet : (ManualTickerRequest → ManualTickerRequest) → Type 0
  IsQuiet change =
      ((r : ManualTickerRequest) → (change r).request_id ≡ r.request_id)
      × ((t : String) (r : ManualTickerRequest)
          → is_active_for t (change r) ≡ true
          → is_active_for t r ≡ true)

  update-IsOrderly :
      (k : String) (found : Option ManualTickerRequest)
      (change : ManualTickerRequest → ManualTickerRequest) (s : RequestService)
      → IsQuiet change
      → lookup k s.requests ≡ found
      → IsOrderly s
      → IsOrderly (update source k found change s).1
  unfolding update
  update-IsOrderly k none change s quiet e h = h
  update-IsOrderly k (some r) change s (id_kept, less) e h =
      let same : (change r).request_id ≡ k =
        id_kept r ∙ found-key key_of k r s.requests h.keyed e in
      let there : lookup (change r).request_id s.requests ≡ some r =
        ap (λ j. lookup j s.requests) same ∙ e in
      subst (λ j. IsOrderly (put source j (change r) s)) same
        (put-IsOrderly (change r) s h λ t. elim (Bool-cases (is_active_for t (change r))) [
          | inl active ↦ omega (
            arith,
            h.single t,
            count-insert_same (is_active_for t) (change r).request_id (change r) r s.requests there
                (active ∙ sym (less t r active)),
          )
          | inr other ↦ omega (
            arith,
            h.single t,
            count-insert_failing (is_active_for t) (change r).request_id (change r) s.requests
                other,
          )
        ])

  dismiss-IsOrderly :
      (k : String) (s : RequestService) → IsOrderly s → IsOrderly (dismiss source k s).1
  unfolding dismiss
  dismiss-IsOrderly k s h =
      update-IsOrderly k _ _ s ((λ r. refl), λ t r a. absurd (false≢true a)) refl h

  cancel-IsOrderly :
      (k : String) (s : RequestService) → IsOrderly s → IsOrderly (cancel source k s).1
  unfolding cancel
  cancel-IsOrderly k s h =
      update-IsOrderly k _ _ s ((λ r. refl), λ t r a. absurd (false≢true a)) refl h

  record_evaluation-IsOrderly :
      (k status : String) (snapshot : Option String) (s : RequestService)
      → IsOrderly s
      → IsOrderly (record_evaluation source k status snapshot s).1
  unfolding record_evaluation
  record_evaluation-IsOrderly k status snapshot s h =
      update-IsOrderly k _ _ s ((λ r. refl), λ t r a. a) refl h

  -- how `create` ends: with the only active request of its ticker, or with a `ValueError` and no change
  abbrev pub Creates : String → RequestService → Result × RequestService → Type 0
  Creates ticker s (done r, z) =
      IsOrderly z
      × (r.ticker ≡ normalize_ticker ticker)
      × (active_for (normalize_ticker ticker) z ≡ r ∷ [])
  Creates ticker s (value_error e, z) = z ≡ s
  Creates ticker s (key_error e, z) = ⊥

  Adds-Creates :
      (ticker : String) (s : RequestService) (out : Result × RequestService)
      → Adds (normalize_ticker ticker) out
      → Creates ticker s out
  Adds-Creates ticker s (done r, z) h = h
  Adds-Creates ticker s (value_error e, z) h = absurd h
  Adds-Creates ticker s (key_error e, z) h = absurd h

  -- From an orderly service, a `create` that succeeds makes its request the only active one of the normalized
  -- ticker, and the service stays orderly: ids are keys, and each ticker has at most one active request. A
  -- `create` that fails raises a `ValueError` and changes nothing.
  pub create-Creates :
      (ticker : String) (reason : Option String) (mode : String) (s : RequestService)
      → IsOrderly s
      → Creates ticker s (create source ticker reason mode s)
  unfolding create
  create-Creates ticker reason mode s h =
      if_cases (Creates ticker s) (normalize_ticker ticker == "") _ _ (λ _. refl)
        λ _.
          if_cases (Creates ticker s) (strip (or_else reason "") == "") _ _ (λ _. refl)
            λ _.
              if_cases (Creates ticker s) (not (contains request_modes mode)) _ _ (λ _. refl)
                λ _.
                  Adds-Creates ticker s _ (
                    add_request-Adds (normalize_ticker ticker) (strip (or_else reason "")) mode s h)

  Creates-IsOrderly :
      (ticker : String) (s : RequestService) (out : Result × RequestService)
      → IsOrderly s
      → Creates ticker s out
      → IsOrderly out.1
  Creates-IsOrderly ticker s (done r, z) h c = c.0
  Creates-IsOrderly ticker s (value_error e, z) h c = subst IsOrderly (sym c) h
  Creates-IsOrderly ticker s (key_error e, z) h c = absurd c

-- the services that a program can have
pub data Reachable : RequestService → Type 0 where
  starts : Reachable initial
  creates :
      {s : RequestService}
      → (source : Source) (ticker : String) (reason : Option String) (mode : String) → Reachable s
      → Reachable (create source ticker reason mode s).1
  dismisses :
      {s : RequestService}
      → (source : Source) (k : String) → Reachable s
      → Reachable (dismiss source k s).1
  cancels :
      {s : RequestService}
      → (source : Source) (k : String) → Reachable s
      → Reachable (cancel source k s).1
  evaluates :
      {s : RequestService}
      → (source : Source) (k status : String) (snapshot : Option String) → Reachable s
      → Reachable (record_evaluation source k status snapshot s).1

-- After any sequence of `create`, `dismiss`, `cancel` and `record_evaluation`, also where some raised an error, each
-- request stands under its own id, no id stands twice, and each ticker has at most one active request.
pub Reachable-IsOrderly : {s : RequestService} → Reachable s → IsOrderly s
Reachable-IsOrderly starts = record { keyed = tt; distinct = tt; single = λ t. omega arith }
Reachable-IsOrderly (creates {s} source ticker reason mode before) =
    let h = Reachable-IsOrderly before in
    Creates-IsOrderly source ticker s _ h (create-Creates source ticker reason mode s h)
Reachable-IsOrderly (dismisses {s} source k before) =
    dismiss-IsOrderly source k s (Reachable-IsOrderly before)
Reachable-IsOrderly (cancels {s} source k before) =
    cancel-IsOrderly source k s (Reachable-IsOrderly before)
Reachable-IsOrderly (evaluates {s} source k status snapshot before) =
    record_evaluation-IsOrderly source k status snapshot s (Reachable-IsOrderly before)
