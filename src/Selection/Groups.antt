-- ===== src/Selection/Groups.antt =====
-- `_group_candidates`: each group holds all candidates of its ticker and action, in order, and no key stands twice.
use equity_research_agent.Prelude.{
  String, ◌==◌, ◌≡◌, refl, sym, ◌∙◌, ap, subst, Bool, true, false, ◌&&◌, ◌||◌, List, [], ◌∷◌, ◌++◌,
  append-nil, append_assoc, keep, keep-append, any_of, All, arith, if_cases, eq_iff, eq_refl,
  Bool-cases, inl, inr,
}
use equity_research_agent.Strategies.{CandidateScoreRecord}
use equity_research_agent.Selection.Choice.{Group, in_group, add_to_group, group_candidates}

abbrev pub Key : Type 0
Key = String × String

abbrev pub same_key : Key → Key → Bool
same_key a b = a.0 == b.0 && a.1 == b.1

same_key_comm : (a b : Key) → same_key a b ≡ same_key b a
same_key_comm a b = ground (arith, eq_iff a.0 b.0, eq_iff a.1 b.1, eq_iff b.0 a.0, eq_iff b.1 a.1)

same_key_trans : (a b c : Key) → same_key a b ≡ true → same_key a c ≡ same_key b c
same_key_trans a b c h = ground (arith, eq_iff a.0 b.0, eq_iff a.1 b.1)

same_key-eq : (a b : Key) → same_key a b ≡ true → a ≡ b
same_key-eq (a, x) (b, y) h =
    ap (λ t. (t, x)) (ground (arith, eq_iff a b)) ∙ ap (λ t. (b, t)) (ground (arith, eq_iff x y))

neither : (p q : Bool) → p ≡ false → q ≡ false → (p || q) ≡ false
neither p q h k = ground arith

both_false : (p q : Bool) → (p || q) ≡ false → (p ≡ false) × (q ≡ false)
both_false p q h = (ground arith, ground arith)

module _ {F : Type 0} where
  abbrev pub key_of : CandidateScoreRecord F → Key
  key_of c = (c.ticker, c.action)

  abbrev has_group : Key → List (Group F) → Bool
  has_group k = any_of (λ (g : Group F). same_key g.0 k)

  abbrev pub DistinctGroups : List (Group F) → Type 0
  DistinctGroups [] = Unit
  DistinctGroups (g ∷ gs) = (has_group g.0 gs ≡ false) × DistinctGroups gs

  -- the group has the candidates of its key
  abbrev pub IsComplete : List (CandidateScoreRecord F) → Group F → Type 0
  IsComplete seen g = g.1 ≡ keep (in_group g.0) seen

  -- what holds of the groups of some candidates
  pub record IsGrouping (seen : List (CandidateScoreRecord F)) (groups : List (Group F))
      : Type 0 where
    pub complete : All (IsComplete seen) groups
    pub distinct : DistinctGroups groups
    pub covers : (k : Key) → has_group k groups ≡ false → keep (in_group k) seen ≡ []

  own_group : (c : CandidateScoreRecord F) → in_group (key_of c) c ≡ true
  own_group c = ground (arith, eq_refl c.ticker, eq_refl c.action)

  has_group-add :
      (k : Key) (c : CandidateScoreRecord F) (groups : List (Group F))
      → has_group k (add_to_group c groups) ≡ (same_key (key_of c) k || has_group k groups)
  unfolding add_to_group
  has_group-add k c [] = refl
  has_group-add k c (g ∷ gs) = elim (Bool-cases (in_group g.0 c)) [
    | inl same ↦ ground (arith, same, same_key_trans (key_of c) g.0 k)
    | inr other ↦ ground (arith, other, has_group-add k c gs)
  ]

  add-DistinctGroups :
      (c : CandidateScoreRecord F) (groups : List (Group F))
      → DistinctGroups groups
      → DistinctGroups (add_to_group c groups)
  unfolding add_to_group
  add-DistinctGroups c [] h = (refl, tt)
  add-DistinctGroups c (g ∷ gs) (new, rest) =
      if_cases DistinctGroups (in_group g.0 c) _ _ (λ same. (new, rest))
        λ other. (has_group-add g.0 c gs ∙ neither _ _ other new, add-DistinctGroups c gs rest)

  -- a candidate with the key is kept last, and one without is not kept
  keep-last :
      (k : Key) (c : CandidateScoreRecord F) (seen : List (CandidateScoreRecord F))
      → in_group k c ≡ true
      → keep (in_group k) (seen ++ c ∷ []) ≡ keep (in_group k) seen ++ c ∷ []
  keep-last k c seen h = keep-append (in_group k) seen (c ∷ []) ∙ rw h refl

  keep-other :
      (k : Key) (c : CandidateScoreRecord F) (seen : List (CandidateScoreRecord F))
      → in_group k c ≡ false
      → keep (in_group k) (seen ++ c ∷ []) ≡ keep (in_group k) seen
  keep-other k c seen h =
      keep-append (in_group k) seen (c ∷ []) ∙ rw h (append-nil {_} (keep (in_group k) seen))

  untouched :
      (c : CandidateScoreRecord F) (seen : List (CandidateScoreRecord F)) (groups : List (Group F))
      → All (IsComplete seen) groups
      → has_group (key_of c) groups ≡ false
      → All (IsComplete (seen ++ c ∷ [])) groups
  untouched c seen [] h new = tt
  untouched c seen (g ∷ gs) (complete, rest) new = (
    complete ∙ sym (keep-other g.0 c seen (same_key_comm (key_of c) g.0 ∙ (both_false _ _ new).0)),
    untouched c seen gs rest (both_false (same_key g.0 (key_of c)) _ new).1,
  )

  add-IsComplete :
      (c : CandidateScoreRecord F) (seen : List (CandidateScoreRecord F)) (groups : List (Group F))
      → All (IsComplete seen) groups
      → DistinctGroups groups
      → (has_group (key_of c) groups ≡ false → keep (in_group (key_of c)) seen ≡ [])
      → All (IsComplete (seen ++ c ∷ [])) (add_to_group c groups)
  unfolding add_to_group
  add-IsComplete c seen [] h distinct covered =
      (sym (keep-last (key_of c) c seen (own_group c) ∙ ap (λ l. l ++ c ∷ []) (covered refl)), tt)
  add-IsComplete c seen (g ∷ gs) (complete, rest) (new, distinct) covered =
      if_cases (All (IsComplete (seen ++ c ∷ []))) (in_group g.0 c) _ _
        (λ same. (
          ap (λ l. l ++ c ∷ []) complete ∙ sym (keep-last g.0 c seen same),
          untouched c seen gs rest
              (ap (λ k. has_group k gs) (same_key-eq (key_of c) g.0 same) ∙ new),
        ))
        λ other. (
          complete ∙ sym (keep-other g.0 c seen other),
          add-IsComplete c seen gs rest distinct
              (λ absent. covered (neither _ _ (same_key_comm g.0 (key_of c) ∙ other) absent)),
        )

  add-IsGrouping :
      (c : CandidateScoreRecord F) (seen : List (CandidateScoreRecord F)) (groups : List (Group F))
      → IsGrouping seen groups
      → IsGrouping (seen ++ c ∷ []) (add_to_group c groups)
  add-IsGrouping c seen groups h = record {
    complete = add-IsComplete c seen groups h.complete h.distinct (h.covers (key_of c));
    distinct = add-DistinctGroups c groups h.distinct;
    covers = λ k absent.
        let (other, before) =
          both_false (same_key (key_of c) k) _ (sym (has_group-add k c groups) ∙ absent) in
        keep-other k c seen other ∙ h.covers k before;
  }

  -- all candidates, in groups
  pub group_candidates-IsGrouping :
      (candidates seen : List (CandidateScoreRecord F)) (groups : List (Group F))
      → IsGrouping seen groups
      → IsGrouping (seen ++ candidates) (group_candidates candidates groups)
  unfolding group_candidates
  group_candidates-IsGrouping [] seen groups h =
      subst (λ l. IsGrouping l groups) (sym (append-nil {_} seen)) h
  group_candidates-IsGrouping (c ∷ cs) seen groups h =
      subst (λ l. IsGrouping l (group_candidates cs (add_to_group c groups)))
        (append_assoc {_} seen (c ∷ []) cs)
        (group_candidates-IsGrouping cs (seen ++ c ∷ []) (add_to_group c groups)
          (add-IsGrouping c seen groups h))
