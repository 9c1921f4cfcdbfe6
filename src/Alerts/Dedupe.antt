-- ===== src/Alerts/Dedupe.antt =====
-- `NewsAlertService.build_alerts` gives one alert for each new dedupe key.
use equity_research_agent.Prelude.{
  ℕ, ◌+◌, String, ◌≡◌, refl, sym, subst, ◌∙◌, inl, inr, true, false, ◌||◌, List, [], ◌∷◌, ◌++◌, map,
  All, contains, Bool-cases, eq_refl, arith,
}
use equity_research_agent.Prelude.Sorting.{sorted, sorted-All}
use equity_research_agent.Float.{Float}
use equity_research_agent.Alerts.{
  AlertSourceItem, NewsAlertRecord, Affected, alert_of, alerts_of, build_alerts, item_le,
}

abbrev pub keys_of : {F : Type 0} → List (NewsAlertRecord F) → List String
keys_of = map (λ a. a.dedupe_key)

-- no key is one of `seen` or comes twice
abbrev pub AllNew : List String → List String → Type 0
AllNew seen [] = Unit
AllNew seen (k ∷ keys) = (contains seen k ≡ false) × AllNew (k ∷ seen) keys

contains-append :
    (xs ys : List String) (k : String) → contains (xs ++ ys) k ≡ contains xs k || contains ys k
contains-append [] ys k = refl
contains-append (x ∷ xs) ys k = ground (arith, contains-append xs ys k)

All-map :
    {A : Type 0} (P Q : A → Type 0) → ((x : A) → P x → Q x) → (xs : List A) → All P xs → All Q xs
All-map P Q f [] h = tt
All-map P Q f (x ∷ xs) (here, rest) = (f x here, All-map P Q f xs rest)

module _ {F : Type 0} ⦃fl : Float F⦄ (uuid4 : ℕ → String) (affected : Affected) where
  alerts_of-known :
      (item : AlertSourceItem F) (items : List (AlertSourceItem F)) (seen : List String) (n : ℕ)
      → contains seen item.dedupe_key ≡ true
      → alerts_of uuid4 affected seen n (item ∷ items) ≡ alerts_of uuid4 affected seen n items
  unfolding alerts_of
  alerts_of-known item items seen n known = rw (known, alerts_of) refl

  alerts_of-new :
      (item : AlertSourceItem F) (items : List (AlertSourceItem F)) (seen : List String) (n : ℕ)
      → contains seen item.dedupe_key ≡ false
      → alerts_of uuid4 affected seen n (item ∷ items)
        ≡ alert_of uuid4 affected n item
          ∷ alerts_of uuid4 affected (item.dedupe_key ∷ seen) (n + 1) items
  unfolding alerts_of
  alerts_of-new item items seen n new = rw (new, alerts_of) refl

  alerts_of-AllNew :
      (items : List (AlertSourceItem F)) (seen : List String) (n : ℕ)
      → AllNew seen (keys_of (alerts_of uuid4 affected seen n items))
  unfolding alerts_of
  alerts_of-AllNew [] seen n = tt
  alerts_of-AllNew (item ∷ items) seen n = elim (Bool-cases (contains seen item.dedupe_key)) [
    | inl known ↦ rw (alerts_of-known item items seen n known) (alerts_of-AllNew items seen n)
    | inr new ↦
        rw (alerts_of-new item items seen n new)
          (new, alerts_of-AllNew items (item.dedupe_key ∷ seen) (n + 1))
  ]

  -- the key of the item was known or has an alert
  abbrev pub Covered : List String → List (NewsAlertRecord F) → AlertSourceItem F → Type 0
  Covered seen alerts item =
      (contains seen item.dedupe_key || contains (keys_of alerts) item.dedupe_key) ≡ true

  alerts_of-Covered :
      (items : List (AlertSourceItem F)) (seen : List String) (n : ℕ)
      → All (Covered seen (alerts_of uuid4 affected seen n items)) items
  unfolding alerts_of
  alerts_of-Covered [] seen n = tt
  alerts_of-Covered (item ∷ items) seen n =
      let P = λ (alerts : List (NewsAlertRecord F)). All (Covered seen alerts) (item ∷ items) in
      elim (Bool-cases (contains seen item.dedupe_key)) [
        | inl known ↦
            subst P (sym (alerts_of-known item items seen n known))
              (ground (arith, known), alerts_of-Covered items seen n)
        | inr new ↦
            let later = alerts_of uuid4 affected (item.dedupe_key ∷ seen) (n + 1) items in
            let all = alert_of uuid4 affected n item ∷ later in
            subst P (sym (alerts_of-new item items seen n new)) (
              ground (arith, eq_refl item.dedupe_key),
              All-map (Covered (item.dedupe_key ∷ seen) later) (Covered seen all)
                  (λ other h. ground arith) items
                  (alerts_of-Covered items (item.dedupe_key ∷ seen) (n + 1)),
            )
      ]

  alerts_of-none :
      (items : List (AlertSourceItem F)) (seen : List String) (n : ℕ)
      → All (λ (item : AlertSourceItem F). contains seen item.dedupe_key ≡ true) items
      → alerts_of uuid4 affected seen n items ≡ []
  unfolding alerts_of
  alerts_of-none [] seen n h = refl
  alerts_of-none (item ∷ items) seen n (here, rest) =
      alerts_of-known item items seen n here ∙ alerts_of-none items seen n rest

  -- The alerts have keys that no alert had before and that are not repeated, and every item's key was known or
  -- has an alert now.
  pub build_alerts-covers :
      (items : List (AlertSourceItem F)) (existing : List String)
      → let alerts = build_alerts uuid4 affected items existing in
        AllNew existing (keys_of alerts) × All (Covered existing alerts) items
  unfolding build_alerts
  build_alerts-covers items existing =
      let in_order = sorted (item_le uuid4 affected) items in
      (
        alerts_of-AllNew in_order existing 0,
        sorted-All (Covered existing (alerts_of uuid4 affected existing 0 in_order))
            (item_le uuid4 affected) items (alerts_of-Covered in_order existing 0),
      )

  -- Once the keys of the alerts are stored, the same items give no further alert.
  pub build_alerts-again :
      (items : List (AlertSourceItem F)) (existing : List String)
      → build_alerts uuid4 affected items
          (existing ++ keys_of (build_alerts uuid4 affected items existing))
        ≡ []
  unfolding build_alerts
  build_alerts-again items existing =
      let in_order = sorted (item_le uuid4 affected) items in
      let alerts = alerts_of uuid4 affected existing 0 in_order in
      alerts_of-none in_order (existing ++ keys_of alerts) 0 (
        All-map (Covered existing alerts)
          (λ (item : AlertSourceItem F).
            contains (existing ++ keys_of alerts) item.dedupe_key ≡ true)
          (λ item h. contains-append existing (keys_of alerts) item.dedupe_key ∙ h) in_order
          (alerts_of-Covered in_order existing 0))
