-- ===== src/Execution/Fallback/Chains.antt =====
-- How long the execution can move a decision on from expression to expression.
use equity_research_agent.Prelude.{
  ℕ, suc, zero, ◌≤◌, ◌<◌, String, ◌==◌, ◌≡◌, refl, sym, ◌∙◌, ap, subst, inl, inr, Bool, true, false,
  List, [], ◌∷◌, ◌++◌, Option, none, some, if◌then◌else◌, length, All, filled, or_else, arith,
  if_cases, eq_iff, eq_refl, Bool-cases, Option-cases, append_assoc,
}
use equity_research_agent.Prelude.Unique.{Unique, other_key}
use equity_research_agent.Execution.Attempts.{PlanEntry, TradingDecisionRecord}
use equity_research_agent.Execution.Fallback.{
  stripped, entry_id, moved, with_payload, continue_if, fallback_for, next_from,
  next_expression_decision, fallback_option_strategy_payload,
}

-- the id of an entry, where it has one
abbrev pub id_of : PlanEntry → String
id_of p = or_else (filled p.expression_bucket_id) ""

abbrev pub HasId : PlanEntry → Type 0
HasId p = (id : String) × (filled p.expression_bucket_id ≡ some id)

-- every entry has an id, and no two have the same
pub record HasDistinctIds (plan : List PlanEntry) : Type 0 where
  pub named : All HasId plan
  pub distinct : Unique id_of plan

-- the entries behind the first one with the id
abbrev pub behind : String → List PlanEntry → List PlanEntry
behind id [] = []
behind id (p ∷ ps) = if id_of p == id then ps else behind id ps

-- a decision that moved on to an entry of the list keeps its plan
abbrev MovesInto : TradingDecisionRecord → List PlanEntry → Option TradingDecisionRecord → Type 0
MovesInto d ps none = Unit
MovesInto d ps (some next) =
    (pre : List PlanEntry) × (p : PlanEntry) × (post : List PlanEntry) × (ps ≡ pre ++ p ∷ post)
    × (next.expression_bucket_id ≡ entry_id d p)
    × (next.expression_fallback_plan ≡ d.expression_fallback_plan)

abbrev IsMoved : TradingDecisionRecord → PlanEntry → Option TradingDecisionRecord → Type 0
IsMoved d p none = Unit
IsMoved d p (some next) =
    (next.expression_bucket_id ≡ entry_id d p)
    × (next.expression_fallback_plan ≡ d.expression_fallback_plan)

with_payload-IsMoved :
    (d : TradingDecisionRecord) (p : PlanEntry) (action instrument : String)
    (payload : Option String)
    → IsMoved d p (with_payload d p action instrument payload)
unfolding with_payload
with_payload-IsMoved d p action instrument none = tt
with_payload-IsMoved d p action instrument (some payload) = (refl, refl)

continue_if-IsMoved :
    (d : TradingDecisionRecord) (p : PlanEntry) (test : Bool) (o : Option TradingDecisionRecord)
    → IsMoved d p o
    → IsMoved d p (continue_if test o)
unfolding continue_if
continue_if-IsMoved d p true o h = tt
continue_if-IsMoved d p false o h = h

first-MovesInto :
    (d : TradingDecisionRecord) (p : PlanEntry) (ps : List PlanEntry)
    (here later : Option TradingDecisionRecord)
    → IsMoved d p here
    → MovesInto d ps later
    → MovesInto d (p ∷ ps) (elim here [ none ↦ later | some next ↦ some next ])
first-MovesInto d p ps none none h k = tt
first-MovesInto d p ps none (some next) h (pre, q, post, e, id, plan) =
    (p ∷ pre, q, post, ap (λ l. p ∷ l) e, id, plan)
first-MovesInto d p ps (some next) later (id, plan) k = ([], p, ps, refl, id, plan)

fallback_for-IsMoved :
    (d : TradingDecisionRecord) (p : PlanEntry) (action instrument : String)
    → IsMoved d p (fallback_for d p action instrument)
unfolding fallback_for
fallback_for-IsMoved d p action instrument = continue_if-IsMoved d p _ _ (
    continue_if-IsMoved d p _ _ (
      continue_if-IsMoved d p _ _ (
        if_cases (IsMoved d p) (instrument == "option")
          (with_payload d p action instrument (fallback_option_strategy_payload d (entry_id d p)))
          (some (moved d p action instrument d.option_strategy))
          (λ option.
            with_payload-IsMoved d p action instrument
              (fallback_option_strategy_payload d (entry_id d p)))
          λ stock. (refl, refl))))

next_from-MovesInto :
    (d : TradingDecisionRecord) (ps : List PlanEntry) → MovesInto d ps (next_from d true ps)
unfolding next_from
next_from-MovesInto d [] = tt
next_from-MovesInto d (p ∷ ps) =
    first-MovesInto d p ps
      (fallback_for d p (stripped p.decision_action) (stripped p.instrument_type)) _
      (fallback_for-IsMoved d p (stripped p.decision_action) (stripped p.instrument_type))
      (next_from-MovesInto d ps)

-- every entry is its own
named_entry : (d : TradingDecisionRecord) (p : PlanEntry) → HasId p → entry_id d p ≡ id_of p
named_entry d p (id, e) = rw e refl

next_from-behind :
    (d : TradingDecisionRecord) (ps : List PlanEntry)
    → All HasId ps
    → next_from d false ps ≡ next_from d true (behind d.expression_bucket_id ps)
unfolding next_from
next_from-behind d [] h = refl
next_from-behind d (p ∷ ps) (named, rest) = elim (Bool-cases (id_of p == d.expression_bucket_id)) [
  | inl here ↦ rw (named_entry d p named, here) refl
  | inr there ↦ rw (named_entry d p named, there) (next_from-behind d ps rest)
]

other_id : (x p : PlanEntry) → (id_of p == id_of x) ≡ false → (id_of x == id_of p) ≡ false
other_id x p h = ground (arith, eq_iff (id_of p) (id_of x), eq_iff (id_of x) (id_of p))

-- where the ids differ, behind an entry are the entries after it
behind-entry :
    (pre : List PlanEntry) (p : PlanEntry) (post : List PlanEntry)
    → Unique id_of (pre ++ p ∷ post)
    → behind (id_of p) (pre ++ p ∷ post) ≡ post
behind-entry [] p post h = rw (eq_refl (id_of p)) refl
behind-entry (x ∷ pre) p post (new, rest) =
    rw (other_id x p (other_key id_of (id_of x) pre p post new)) (behind-entry pre p post rest)

-- the entries behind some id are the end of the plan
behind-suffix :
    (id : String) (ps : List PlanEntry) → (pre : List PlanEntry) × (ps ≡ pre ++ behind id ps)
behind-suffix id [] = ([], refl)
behind-suffix id (p ∷ ps) =
    if_cases (λ l. (pre : List PlanEntry) × ((p ∷ ps) ≡ pre ++ l)) (id_of p == id) ps (behind id ps)
      (λ here. (p ∷ [], refl))
      λ there. let (pre, e) = behind-suffix id ps in (p ∷ pre, ap (λ l. p ∷ l) e)

-- the entries that the decision may still move on to
abbrev pub ahead : TradingDecisionRecord → List PlanEntry
ahead d = behind d.expression_bucket_id d.expression_fallback_plan

-- fewer entries are ahead of a decision that moved on
abbrev MovesAhead : TradingDecisionRecord → Option TradingDecisionRecord → Type 0
MovesAhead d none = Unit
MovesAhead d (some next) =
    (next.expression_fallback_plan ≡ d.expression_fallback_plan)
    × (length (ahead next) < length (ahead d))

All-at :
    (P : PlanEntry → Type 0) (pre : List PlanEntry) (p : PlanEntry) (post : List PlanEntry)
    → All P (pre ++ p ∷ post)
    → P p
All-at P [] p post (here, rest) = here
All-at P (x ∷ pre) p post (here, rest) = All-at P pre p post rest

shorter :
    (pre : List PlanEntry) (p : PlanEntry) (post : List PlanEntry)
    → length post < length (pre ++ p ∷ post)
shorter [] p post = omega arith
shorter (x ∷ pre) p post = let h = shorter pre p post in omega arith

-- behind the entry at a place of the plan are the entries after that place
behind_at :
    (id : String) (plan front pre : List PlanEntry) (p : PlanEntry) (post : List PlanEntry)
    → HasDistinctIds plan
    → plan ≡ front ++ (pre ++ p ∷ post)
    → id ≡ id_of p
    → behind id plan ≡ post
behind_at id plan front pre p post h e named =
    let split = e ∙ sym (append_assoc front pre (p ∷ post)) in
    rw (named, split)
      (behind-entry (front ++ pre) p post (subst (λ l. Unique id_of l) split h.distinct))

entry-MovesAhead :
    (d next : TradingDecisionRecord) (front pre : List PlanEntry) (p : PlanEntry)
    (post : List PlanEntry)
    → HasDistinctIds d.expression_fallback_plan
    → ahead d ≡ pre ++ p ∷ post
    → d.expression_fallback_plan ≡ front ++ (pre ++ p ∷ post)
    → next.expression_bucket_id ≡ entry_id d p
    → next.expression_fallback_plan ≡ d.expression_fallback_plan
    → length (ahead next) < length (ahead d)
entry-MovesAhead d next front pre p post h e split id same =
    let named =
      All-at HasId (front ++ pre) p post
        (subst (All HasId) (split ∙ sym (append_assoc front pre (p ∷ post))) h.named) in
    let after =
      ap (λ plan. behind next.expression_bucket_id plan) same
      ∙ behind_at next.expression_bucket_id d.expression_fallback_plan front pre p post h split
          (id ∙ named_entry d p named) in
    rw (after, e) (shorter pre p post)

into-MovesAhead :
    (d : TradingDecisionRecord) (o : Option TradingDecisionRecord) (front : List PlanEntry)
    → HasDistinctIds d.expression_fallback_plan
    → d.expression_fallback_plan ≡ front ++ ahead d
    → MovesInto d (ahead d) o
    → MovesAhead d o
into-MovesAhead d none front h start m = tt
into-MovesAhead d (some next) front h start (pre, p, post, e, id, same) =
    (same, entry-MovesAhead d next front pre p post h e (start ∙ ap (λ l. front ++ l) e) id same)

next-MovesAhead :
    (d : TradingDecisionRecord)
    → HasDistinctIds d.expression_fallback_plan
    → MovesAhead d (next_expression_decision d)
unfolding next_expression_decision
next-MovesAhead d h =
    let (front, start) = behind-suffix d.expression_bucket_id d.expression_fallback_plan in
    into-MovesAhead d (next_expression_decision d) front h start (
      subst (MovesInto d (ahead d)) (sym (next_from-behind d d.expression_fallback_plan h.named))
        (next_from-MovesInto d (ahead d)))

-- the decision that some moves reach, if it may move so often
unfoldable pub repeat_next : ℕ → TradingDecisionRecord → Option TradingDecisionRecord
repeat_next zero d = some d
repeat_next (suc n) d = elim (next_expression_decision d) [
  | none ↦ none
  | some next ↦ repeat_next n next
]

pub repeat_next-ends :
    (n : ℕ) (d : TradingDecisionRecord)
    → HasDistinctIds d.expression_fallback_plan
    → length (ahead d) < n
    → repeat_next n d ≡ none
unfolding repeat_next
repeat_next-ends zero d h enough = ground arith
repeat_next-ends (suc n) d h enough = elim (Option-cases (next_expression_decision d)) [
  | inl e ↦ rw (repeat_next, e) refl
  | inr (next, e) ↦
      let (same, less) = subst (MovesAhead d) e (next-MovesAhead d h) in
      rw (repeat_next, e)
        (repeat_next-ends n next (subst HasDistinctIds (sym same) h) (omega (less, enough, arith)))
]

pub behind-length : (id : String) (ps : List PlanEntry) → length (behind id ps) ≤ length ps
behind-length id [] = omega arith
behind-length id (p ∷ ps) =
    let h = behind-length id ps in
    if_cases (λ l. length l ≤ suc (length ps)) (id_of p == id) ps (behind id ps)
      (λ here. omega arith) λ there. omega arith
