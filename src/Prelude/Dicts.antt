-- ===== src/Prelude/Dicts.antt =====
-- Dictionaries whose values carry their own key, beside the list of their values.
use equity_research_agent.Prelude.{
  ℕ, ◌+◌, ◌≤◌, length, keep, Bool, true, false, String, ◌==◌, ◌≡◌, refl, List, [], ◌∷◌, ◌++◌, map,
  none, some, if◌then◌else◌, Dict, lookup, insert, lookup-insert, eq_iff, arith, if_cases,
}

module _ {ℓ} {V : Type ℓ} where
  abbrev pub values : Dict V → List V
  values [] = []
  values ((k, v) ∷ d) = v ∷ values d

  -- no key stands twice
  abbrev pub Distinct : Dict V → Type ℓ
  Distinct [] = Unit
  Distinct ((k, v) ∷ d) = (lookup k d ≡ none) × Distinct d

  pub insert-Distinct : (k : String) (v : V) (d : Dict V) → Distinct d → Distinct (insert k v d)
  unfolding lookup insert
  insert-Distinct k v [] h = (refl, h)
  insert-Distinct k v ((j, w) ∷ d) (absent, rest) =
      if_cases Distinct (j == k) ((j, v) ∷ d) ((j, w) ∷ insert k v d) (λ same. (absent, rest))
        λ other. (
          ground (arith, lookup-insert k j v d, eq_iff j k, eq_iff k j),
          insert-Distinct k v d rest,
        )

  pub values-insert_new :
      (k : String) (v : V) (d : Dict V)
      → lookup k d ≡ none
      → values (insert k v d) ≡ values d ++ v ∷ []
  unfolding lookup insert
  values-insert_new k v [] h = refl
  values-insert_new k v ((j, w) ∷ d) h = ground (arith, values-insert_new k v d)

  -- how many values pass a test
  abbrev pub count : (V → Bool) → Dict V → ℕ
  count test d = length (keep test (values d))

  pub count-insert_failing :
      (test : V → Bool) (k : String) (v : V) (d : Dict V)
      → test v ≡ false
      → count test (insert k v d) ≤ count test d
  unfolding insert
  count-insert_failing test k v [] h = ground arith
  count-insert_failing test k v ((j, w) ∷ d) h = ground (arith, count-insert_failing test k v d)

  pub count-insert_any :
      (test : V → Bool) (k : String) (v : V) (d : Dict V)
      → count test (insert k v d) ≤ count test d + 1
  unfolding insert
  count-insert_any test k v [] = ground arith
  count-insert_any test k v ((j, w) ∷ d) = ground (arith, count-insert_any test k v d)

  -- a value that passes is replaced by one that does not
  pub count-insert_fewer :
      (test : V → Bool) (k : String) (v w : V) (d : Dict V)
      → lookup k d ≡ some w
      → test w ≡ true
      → test v ≡ false
      → count test (insert k v d) + 1 ≡ count test d
  unfolding lookup insert
  count-insert_fewer test k v w [] found h g = absurd (cc found)
  count-insert_fewer test k v w ((j, x) ∷ d) found h g =
      ground (arith, count-insert_fewer test k v w d)

  pub count-insert_same :
      (test : V → Bool) (k : String) (v w : V) (d : Dict V)
      → lookup k d ≡ some w
      → test v ≡ test w
      → count test (insert k v d) ≡ count test d
  unfolding lookup insert
  count-insert_same test k v w [] found h = absurd (cc found)
  count-insert_same test k v w ((j, x) ∷ d) found h = ground (arith, count-insert_same test k v w d)

  count-found :
      (test : V → Bool) (k : String) (w : V) (d : Dict V)
      → lookup k d ≡ some w
      → test w ≡ true
      → 1 ≤ count test d
  unfolding lookup
  count-found test k w [] found h = absurd (cc found)
  count-found test k w ((j, x) ∷ d) found h = ground (arith, count-found test k w d)

  none_kept : (xs : List V) → length xs ≤ 0 → xs ≡ []
  none_kept [] h = refl
  none_kept (x ∷ xs) h = absurd (omega arith)

  -- where no other value passes, a value that is found and passes is all that is kept
  pub keep-only :
      (test : V → Bool) (k : String) (w : V) (d : Dict V)
      → lookup k d ≡ some w
      → test w ≡ true
      → count test d ≤ 1
      → keep test (values d) ≡ w ∷ []
  unfolding lookup
  keep-only test k w [] found h few = absurd (cc found)
  keep-only test k w ((j, x) ∷ d) found h few =
      ground (arith, keep-only test k w d, count-found test k w d, none_kept (keep test (values d)))

  module _ (key : V → String) where
    -- each value has the key that it stands under
    abbrev pub IsKeyed : Dict V → Type ℓ
    IsKeyed [] = Unit
    IsKeyed ((k, v) ∷ d) = (key v ≡ k) × IsKeyed d

    pub insert-IsKeyed : (v : V) (d : Dict V) → IsKeyed d → IsKeyed (insert (key v) v d)
    unfolding insert
    insert-IsKeyed v [] h = (refl, h)
    insert-IsKeyed v ((j, w) ∷ d) (keyed, rest) =
        if_cases IsKeyed (j == key v) ((j, v) ∷ d) ((j, w) ∷ insert (key v) v d)
          (λ same. (ground (arith, eq_iff j (key v)), rest))
          λ other. (keyed, insert-IsKeyed v d rest)

    pub found-key : (k : String) (v : V) (d : Dict V) → IsKeyed d → lookup k d ≡ some v → key v ≡ k
    unfolding lookup
    found-key k v [] h found = absurd (cc found)
    found-key k v ((j, w) ∷ d) h found = ground (arith, found-key k v d, eq_iff j k)

    -- the only value that passes stands under its key
    pub kept-found :
        (test : V → Bool) (e : V) (d : Dict V)
        → IsKeyed d
        → Distinct d
        → keep test (values d) ≡ e ∷ []
        → (lookup (key e) d ≡ some e) × (test e ≡ true)
    unfolding lookup
    kept-found test e [] h distinct kept = absurd (cc kept)
    kept-found test e ((j, w) ∷ d) h distinct kept =
        ground (arith, kept-found test e d, eq_iff j (key e), eq_iff (key w) (key e))

    abbrev pub replace_value : V → List V → List V
    replace_value v = map (λ item. if key item == key v then v else item)

    replace_absent :
        (v : V) (d : Dict V)
        → IsKeyed d
        → lookup (key v) d ≡ none
        → replace_value v (values d) ≡ values d
    unfolding lookup
    replace_absent v [] h absent = refl
    replace_absent v ((j, w) ∷ d) h absent =
        ground (arith, replace_absent v d, eq_iff j (key v), eq_iff (key w) (key v))

    pub values-insert_old :
        (v w : V) (d : Dict V)
        → IsKeyed d
        → Distinct d
        → lookup (key v) d ≡ some w
        → replace_value v (values d) ≡ values (insert (key v) v d)
    unfolding lookup insert
    values-insert_old v w [] h distinct found = absurd (cc found)
    values-insert_old v w ((j, x) ∷ d) h distinct found = ground (
      arith,
      values-insert_old v w d,
      replace_absent v d,
      eq_iff j (key v),
      eq_iff (key x) (key v),
    )
