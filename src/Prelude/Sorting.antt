-- ===== src/Prelude/Sorting.antt =====
-- `sorted(xs, key=...)`: a stable sort by insertion, over a Boolean order on the items.
use equity_research_agent.Prelude.{
  ◌≡◌, refl, ◌+◌, Bool, true, false, List, [], ◌∷◌, some, if◌then◌else◌, any_of, first, All, length,
  if_cases, arith, Bool-cases, inl, inr,
}

module _ {ℓ} {A : Type ℓ} (le : A → A → Bool) where
  -- `x` goes before the first item that is not below it, so equal items keep their order
  unfoldable pub insert_sorted : A → List A → List A
  insert_sorted x [] = x ∷ []
  insert_sorted x (y ∷ ys) = if le x y then x ∷ y ∷ ys else y ∷ insert_sorted x ys

  unfoldable pub sorted : List A → List A
  unfolding insert_sorted
  sorted [] = []
  sorted (x ∷ xs) = insert_sorted x (sorted xs)

  -- Where the items with `p` come before all others, and there is one, the head of the sorted list has `p`.
  module _ (p : A → Bool) (low : (x y : A) → p x ≡ true → le x y ≡ true)
      (high : (x y : A) → p x ≡ false → p y ≡ true → le x y ≡ false) where
    abbrev pub HeadHas : List A → Type ℓ
    HeadHas xs = (b : A) × (first xs ≡ some b) × (p b ≡ true)

    insert_sorted-head : (x : A) (ys : List A) → p x ≡ true → HeadHas (insert_sorted x ys)
    unfolding insert_sorted
    insert_sorted-head x [] h = (x, refl, h)
    insert_sorted-head x (y ∷ ys) h = (x, ground (arith, low x y h), h)

    insert_sorted-under :
        (x : A) (ys : List A) → p x ≡ false → HeadHas ys → HeadHas (insert_sorted x ys)
    unfolding insert_sorted
    insert_sorted-under x [] h (b, e, hb) = absurd (ground arith)
    insert_sorted-under x (y ∷ ys) h (b, e, hb) = (y, ground (arith, high x y h), ground arith)

    pub sorted-head : (xs : List A) → any_of p xs ≡ true → HeadHas (sorted xs)
    unfolding sorted
    sorted-head [] h = absurd (ground arith)
    sorted-head (x ∷ xs) h = elim (Bool-cases (p x)) [
      | inl here ↦ insert_sorted-head x (sorted xs) here
      | inr there ↦ insert_sorted-under x (sorted xs) there (sorted-head xs (ground arith))
    ]

module _ {ℓ κ} {A : Type ℓ} (P : A → Type κ) where
  insert_sorted-All :
      (le : A → A → Bool) (x : A) (ys : List A) → All P (insert_sorted le x ys) → P x × All P ys
  unfolding insert_sorted
  insert_sorted-All le x [] h = h
  insert_sorted-All le x (y ∷ ys) h = elim (Bool-cases (le x y)) [
    | inl before ↦ rw before at h
    | inr after ↦
        let (here, rest) = rw after at h in
        let (first, others) = insert_sorted-All le x ys rest in (first, (here, others))
  ]

  pub sorted-All : (le : A → A → Bool) (xs : List A) → All P (sorted le xs) → All P xs
  unfolding sorted
  sorted-All le [] h = h
  sorted-All le (x ∷ xs) h =
      let (first, rest) = insert_sorted-All le x (sorted le xs) h in (first, sorted-All le xs rest)

-- each item goes before all later ones
abbrev pub IsSorted {ℓ} : {A : Type ℓ} → (A → A → Bool) → List A → Type ℓ
IsSorted le [] = Unit
IsSorted le (x ∷ xs) = All (λ y. le x y ≡ true) xs × IsSorted le xs

-- Over a total and transitive order, `sorted` gives a list in which each item goes before all later ones.
module _ {ℓ} {A : Type ℓ} (le : A → A → Bool) (total : (x y : A) → le x y ≡ false → le y x ≡ true)
    (trans : (x y z : A) → le x y ≡ true → le y z ≡ true → le x z ≡ true) where
  insert_sorted-keeps :
      (P : A → Type 0) (x : A) (ys : List A) → P x → All P ys → All P (insert_sorted le x ys)
  unfolding insert_sorted
  insert_sorted-keeps P x [] h k = (h, tt)
  insert_sorted-keeps P x (y ∷ ys) h (here, rest) =
      if_cases (All P) (le x y) _ _ (λ before. (h, (here, rest)))
        λ after. (here, insert_sorted-keeps P x ys h rest)

  under_all :
      (x y : A) (ys : List A)
      → le x y ≡ true
      → All (λ z. le y z ≡ true) ys
      → All (λ z. le x z ≡ true) ys
  under_all x y [] h k = k
  under_all x y (z ∷ zs) h (here, rest) = (trans x y z h here, under_all x y zs h rest)

  insert_sorted-IsSorted :
      (x : A) (ys : List A) → IsSorted le ys → IsSorted le (insert_sorted le x ys)
  unfolding insert_sorted
  insert_sorted-IsSorted x [] h = (tt, tt)
  insert_sorted-IsSorted x (y ∷ ys) (first, rest) =
      if_cases (IsSorted le) (le x y) _ _
        (λ before. ((before, under_all x y ys before first), (first, rest)))
        λ after. (
          insert_sorted-keeps (λ z. le y z ≡ true) x ys (total x y after) first,
          insert_sorted-IsSorted x ys rest,
        )

  pub sorted-IsSorted : (xs : List A) → IsSorted le (sorted le xs)
  unfolding sorted
  sorted-IsSorted [] = tt
  sorted-IsSorted (x ∷ xs) = insert_sorted-IsSorted x (sorted le xs) (sorted-IsSorted xs)

  pub sorted-keeps : (P : A → Type 0) (xs : List A) → All P xs → All P (sorted le xs)
  unfolding sorted
  sorted-keeps P [] h = h
  sorted-keeps P (x ∷ xs) (here, rest) =
      insert_sorted-keeps P x (sorted le xs) here (sorted-keeps P xs rest)

  length-insert_sorted : (x : A) (ys : List A) → length (insert_sorted le x ys) ≡ length ys + 1
  unfolding insert_sorted
  length-insert_sorted x [] = refl
  length-insert_sorted x (y ∷ ys) = ground (arith, length-insert_sorted x ys)

  pub length-sorted : (xs : List A) → length (sorted le xs) ≡ length xs
  unfolding sorted
  length-sorted [] = refl
  length-sorted (x ∷ xs) = ground (arith, length-insert_sorted x (sorted le xs), length-sorted xs)
