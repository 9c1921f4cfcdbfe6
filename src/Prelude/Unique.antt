-- ===== src/Prelude/Unique.antt =====
-- Lists whose items carry a key that no other item has.
use equity_research_agent.Prelude.{
  String, ◌==◌, ◌≡◌, refl, Bool, false, not, List, [], ◌∷◌, ◌++◌, keep, any_of, arith, if_cases,
  eq_iff,
}

module _ {A : Type 0} (key : A → String) where
  abbrev pub has_key : String → List A → Bool
  has_key k = any_of (λ item. key item == k)

  -- no key stands twice
  abbrev pub Unique : List A → Type 0
  Unique [] = Unit
  Unique (x ∷ xs) = (has_key (key x) xs ≡ false) × Unique xs

  abbrev pub without : String → List A → List A
  without k = keep (λ item. not (key item == k))

  pub other_key :
      (k : String) (pre : List A) (a : A) (post : List A)
      → has_key k (pre ++ a ∷ post) ≡ false
      → (key a == k) ≡ false
  other_key k [] a post h = ground arith
  other_key k (x ∷ pre) a post h = other_key k pre a post (ground arith)

  has_key-without :
      (k j : String) (xs : List A) → has_key j xs ≡ false → has_key j (without k xs) ≡ false
  has_key-without k j [] h = refl
  has_key-without k j (x ∷ xs) h = ground (arith, has_key-without k j xs)

  pub gone : (k : String) (xs : List A) → has_key k (without k xs) ≡ false
  gone k [] = refl
  gone k (x ∷ xs) = ground (arith, gone k xs)

  pub without-Unique : (k : String) (xs : List A) → Unique xs → Unique (without k xs)
  without-Unique k [] h = h
  without-Unique k (x ∷ xs) (new, rest) =
      if_cases Unique (not (key x == k)) (x ∷ without k xs) (without k xs)
        (λ other. (has_key-without k (key x) xs new, without-Unique k xs rest))
        λ same. without-Unique k xs rest

  has_key-append :
      (j : String) (a : A) (xs : List A)
      → has_key j xs ≡ false
      → (key a == j) ≡ false
      → has_key j (xs ++ a ∷ []) ≡ false
  has_key-append j a [] h k = ground arith
  has_key-append j a (x ∷ xs) h k = ground (arith, has_key-append j a xs)

  pub append-Unique :
      (a : A) (xs : List A) → has_key (key a) xs ≡ false → Unique xs → Unique (xs ++ a ∷ [])
  append-Unique a [] h u = (refl, tt)
  append-Unique a (x ∷ xs) h (new, rest) = (
    has_key-append (key x) a xs new
        (ground (arith, eq_iff (key a) (key x), eq_iff (key x) (key a))),
    append-Unique a xs (ground arith) rest,
  )

  -- an item in the place of those with its key
  pub replaced-Unique : (a : A) (xs : List A) → Unique xs → Unique (without (key a) xs ++ a ∷ [])
  replaced-Unique a xs h =
      append-Unique a (without (key a) xs) (gone (key a) xs) (without-Unique (key a) xs h)
