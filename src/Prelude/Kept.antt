-- ===== src/Prelude/Kept.antt =====
-- What holds of all items of a list, and of those that a test keeps.
use equity_research_agent.Prelude.{
  ◌≡◌, refl, sym, ◌∙◌, subst, Bool, true, List, [], ◌∷◌, ◌++◌, append_assoc, keep, All, Occurs,
  if_cases, Bool-cases, inl, inr, false≢true,
}

module _ {A : Type 0} (test : A → Bool) where
  pub All-keep : (P : A → Type 0) (xs : List A) → All P xs → All P (keep test xs)
  All-keep P [] h = h
  All-keep P (x ∷ xs) (here, rest) =
      if_cases (All P) (test x) (x ∷ keep test xs) (keep test xs)
        (λ kept. (here, All-keep P xs rest)) λ dropped. All-keep P xs rest

  pub passed : (xs : List A) → All (λ x. test x ≡ true) (keep test xs)
  passed [] = tt
  passed (x ∷ xs) =
      if_cases (All (λ x. test x ≡ true)) (test x) (x ∷ keep test xs) (keep test xs)
        (λ kept. (kept, passed xs)) λ dropped. passed xs

  -- what holds of the kept items holds of those that pass the test
  pub of_kept :
      (P : A → Type 0) (xs : List A) → All P (keep test xs) → All (λ x. test x ≡ true → P x) xs
  of_kept P [] h = h
  of_kept P (x ∷ xs) h = elim (Bool-cases (test x)) [
    | inl kept ↦ let (here, rest) = rw kept at h in (λ e. here, of_kept P xs rest)
    | inr dropped ↦ (λ e. absurd (false≢true (sym dropped ∙ e)), of_kept P xs (rw dropped at h))
  ]

module _ {A : Type 0} where
  pub All-map : (P Q : A → Type 0) (xs : List A) → ((x : A) → P x → Q x) → All P xs → All Q xs
  All-map P Q [] f h = h
  All-map P Q (x ∷ xs) f (here, rest) = (f x here, All-map P Q xs f rest)

  pub Occurs-all : (pre xs : List A) → All (λ x. Occurs x (pre ++ xs)) xs
  Occurs-all pre [] = tt
  Occurs-all pre (x ∷ xs) = (
    (pre, xs, refl),
    subst (λ l. All (λ y. Occurs y l) xs) (append_assoc {_} pre (x ∷ []) xs)
        (Occurs-all (pre ++ x ∷ []) xs),
  )
