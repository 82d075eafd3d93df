-- ===== src/Change/Minimize/Strongest.antt =====
-- The order of the matches of a test, and the match that is selected.
use code_suit.Base.{
  ℕ, String, Bool, true, ◌||◌, Option, none, some, List, [], ◌∷◌, ◌≡◌, refl, sym, subst, In,
  string_eq, inl, arith,
}
use code_suit.Base.Order.{
  sorted, IsSorted, IsTotalOrder, sorted-IsSorted, str_le-IsTotalOrder, str_le_antisym,
}
use code_suit.Base.Sorting.{In-sorted, In-of-sorted, IsSorted-first}
use code_suit.Change.{RelatedTest}
use code_suit.Change.Minimize.{
  specificity_rank, confidence_rank, reason_text, matched_text, by_number, by_text, match_le,
  strongest,
}

by_number_total :
    (m n : ℕ) (p q : Bool) → (p || q) ≡ true → (by_number m n p || by_number n m q) ≡ true
by_number_total m n p q h = ground arith

by_number_trans :
    (l m n : ℕ) (p q r : Bool)
    → (p ≡ true → q ≡ true → r ≡ true)
    → by_number l m p ≡ true
    → by_number m n q ≡ true
    → by_number l n r ≡ true
by_number_trans l m n p q r k h h' = ground (arith, k)

by_text_total :
    (s t : String) (p q : Bool) → (p || q) ≡ true → (by_text s t p || by_text t s q) ≡ true
unfolding by_text
by_text_total s t p q h = ground (arith, str_le-IsTotalOrder.total s t)

by_text_trans :
    (s t u : String) (p q r : Bool)
    → (p ≡ true → q ≡ true → r ≡ true)
    → by_text s t p ≡ true
    → by_text t u q ≡ true
    → by_text s u r ≡ true
unfolding by_text
by_text_trans s t u p q r k h h' =
    ground (arith, k, str_le-IsTotalOrder.trans s t u, str_le_antisym s t)

pub match_le-IsTotalOrder : IsTotalOrder match_le
unfolding match_le
match_le-IsTotalOrder = record {
  total = λ a b. by_number_total (specificity_rank a) (specificity_rank b) _ _ (
      by_number_total (confidence_rank a) (confidence_rank b) _ _ (
        by_text_total (reason_text a.relation_reason) (reason_text b.relation_reason) _ _
          (str_le-IsTotalOrder.total (matched_text a) (matched_text b))));
  trans = λ a b c.
      by_number_trans (specificity_rank a) (specificity_rank b) (specificity_rank c) _ _ _ (
        by_number_trans (confidence_rank a) (confidence_rank b) (confidence_rank c) _ _ _ (
          by_text_trans (reason_text a.relation_reason) (reason_text b.relation_reason)
            (reason_text c.relation_reason) _ _ _
            (str_le-IsTotalOrder.trans (matched_text a) (matched_text b) (matched_text c))));
}

-- The selected match is one of the candidates and not above any; without one there are none.
abbrev pub Least : List RelatedTest → Option RelatedTest → Type 0
Least ms none = ms ≡ []
Least ms (some m) = In m ms × ((c : RelatedTest) → In c ms → match_le m c ≡ true)

pub strongest-Least : (ms : List RelatedTest) → Least ms (strongest ms)
unfolding strongest
strongest-Least ms = go (sorted match_le ms) refl
  where
    go :
        (out : List RelatedTest)
        → sorted match_le ms ≡ out
        → Least ms (elim out [ [] ↦ none | m ∷ _ ↦ some m ])
    go [] e = empty ms (λ c m. subst (In c) e (In-sorted match_le c ms m))
      where
        empty : (ms : List RelatedTest) → ((c : RelatedTest) → In c ms → ⊥) → ms ≡ []
        empty [] h = refl
        empty (m ∷ ms) h = absurd (h m (inl refl))
    go (m ∷ rest) e =
        let order =
          subst (IsSorted match_le) e (sorted-IsSorted match_le match_le-IsTotalOrder ms) in
        (
          In-of-sorted match_le m ms (subst (In m) (sym e) (inl refl)),
          λ c there.
              IsSorted-first match_le match_le-IsTotalOrder m rest order c
                (subst (In c) e (In-sorted match_le c ms there)),
        )
