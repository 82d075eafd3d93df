-- ===== src/Change/Minimize/Kept.antt =====
-- What `minimize_tests` keeps and what it excludes.
use code_suit.Base.{
  String, Bool, true, false, not, ◌&&◌, ◌||◌, List, [], ◌∷◌, ◌++◌, ◌≡◌, refl, sym, subst, ap, ◌∙◌,
  ◌==◌, All, All-of_In, In, In-of_All, In-filter, In-of-filter, any, contains, filter, map, nodup,
  string_eq, eq_of_==, ==-refl, Bool-cases, inl, inr, and-eq-true, arith,
}
use code_suit.Base.Dict.{keys}
use code_suit.Base.Groups.{group_by, contains-keys-group_by, nodup-keys-group_by}
use code_suit.Base.Members.{
  In-of-any, any_of-In, contains-map, contains-map-filter, contains-map-filter-both,
}
use code_suit.Base.Order.{
  sorted, str_le, str_le-IsTotalOrder, IsSorted, IsTotalOrder, sorted-IsSorted, contains-sorted,
}
use code_suit.Base.Result.{Result, Ensures, Ensures-and_then}
use code_suit.Base.Sorting.{nodup-sorted, IsSorted-filter, IsSorted-of-map}
use code_suit.Testing.{TestTargetDescription}
use code_suit.Change.{RelatedTest, Excluded}
use code_suit.Change.Minimize.{
  TestItem, id_of, item_id, is_text, is_specific, match_le, is_dependent, has_specific,
  minimize_groups, drop_broad, without_broad, minimize_tests,
}
use code_suit.Change.Minimize.Items.{
  DescribesAsked, IsItem, AreItems, broad_ids, broad_ids-append, minimize_groups-AreItems,
}
use code_suit.Change.Minimize.Broad.{
  DependentsNamed, stays, stays_iff, AreDropped, drop_broad-AreDropped,
}

abbrev pub by_item_id : TestItem → TestItem → Bool
by_item_id a b = str_le (item_id a) (item_id b)

pub record IsMinimized (is_blank : String → Bool) (matches : List RelatedTest)
    (out : List TestItem × List Excluded) : Type 0 where
  pub items : All (IsItem is_blank matches) (out.0)
  pub in_order : IsSorted by_item_id (out.0)
  pub accounted :
      (id : String)
      → (contains (map item_id (out.0)) id || contains (broad_ids (out.1)) id)
        ≡ contains (map id_of matches) id
  pub never_both :
      (id : String) → (contains (map item_id (out.0)) id && contains (broad_ids (out.1)) id) ≡ false
  pub narrow : any is_specific matches ≡ true → (i : TestItem) → In i (out.0) → stays i ≡ true
  pub wide : any is_specific matches ≡ false → broad_ids (out.1) ≡ []
  pub some_test : out.0 ≡ [] → matches ≡ []

-- The ids that the loop goes through.
record AreIds (matches : List RelatedTest) (ids : List String) : Type 0 where
  cover : (id : String) → contains ids id ≡ contains (map id_of matches) id
  distinct : nodup ids ≡ true
  in_order : IsSorted str_le ids

sorted-keys-AreIds :
    (matches : List RelatedTest) → AreIds matches (sorted str_le (keys (group_by id_of matches)))
sorted-keys-AreIds matches =
    let ids = keys (group_by id_of matches) in
    record {
      cover = λ id.
          contains-sorted str_le id ids
          ∙ contains-keys-group_by id_of id matches
          ∙ sym (contains-map id_of id matches);
      distinct = nodup-sorted str_le ids (nodup-keys-group_by id_of matches);
      in_order = sorted-IsSorted str_le str_le-IsTotalOrder ids;
    }

by_item_id-IsTotalOrder : IsTotalOrder by_item_id
by_item_id-IsTotalOrder = record {
  total = λ a b. str_le-IsTotalOrder.total (item_id a) (item_id b);
  trans = λ a b c. str_le-IsTotalOrder.trans (item_id a) (item_id b) (item_id c);
}

is_text_of :
    (is_blank : String → Bool)
    → is_blank "" ≡ true
    → (s : String) → is_blank s ≡ false
    → is_text s ≡ true
is_text_of is_blank empty String.[] h = cc
is_text_of is_blank empty (String.◌∷◌ c s) h = refl

-- A match that is not below a specific one is specific.
is_specific_of-match_le :
    (m c : RelatedTest) → match_le m c ≡ true → is_specific c ≡ true → is_specific m ≡ true
unfolding match_le
is_specific_of-match_le m c h k = ground arith

and_true : {a b : Bool} → a ≡ true → b ≡ true → (a && b) ≡ true
and_true h k = ground arith

module _ (E : Type 0) (is_blank : String → Bool) (empty : is_blank "" ≡ true)
    (matches : List RelatedTest) (named : DependentsNamed matches) (included : List TestItem)
    (ids : List String) (of_ids : AreIds matches ids)
    (items : All (IsItem is_blank matches) included) (same : map item_id included ≡ ids) where
  -- A match has an item.
  item_of_match :
      (m : RelatedTest) → In m matches → (i : TestItem) × In i included × (item_id i ≡ m.test_id)
  item_of_match m there =
      let present : any (λ i. m.test_id == item_id i) included ≡ true =
        sym (contains-map item_id m.test_id included)
        ∙ ap (λ xs. contains xs m.test_id) same
        ∙ of_ids.cover m.test_id
        ∙ contains-map id_of m.test_id matches
        ∙ any_of-In (λ c. m.test_id == id_of c) m matches there (==-refl m.test_id) in
      let (i, member, e) = In-of-any (λ i. m.test_id == item_id i) included present in
      (i, member, sym (eq_of_== m.test_id (item_id i) e))

  -- The item of a specific match stays.
  stays_of_specific :
      (m : RelatedTest)
      → In m matches
      → is_specific m ≡ true
      → (i : TestItem) → In i included
      → item_id i ≡ m.test_id
      → stays i ≡ true
  stays_of_specific m there specific i member e =
      let is = In-of_All (IsItem is_blank matches) included items i member in
      stays_iff is.chosen i
        (In-of_All (λ c. (is_dependent c.relation_reason && not (is_specific c)) ≡ false) matches
          named is.chosen is.there)
        is.because
      ∙ is_specific_of-match_le is.chosen m (is.least m there (sym e)) specific

  has_specific_of_match : any is_specific matches ≡ true → has_specific matches included ≡ true
  unfolding has_specific
  has_specific_of_match h =
      let (m, there, specific) = In-of-any is_specific matches h in
      let (i, member, e) = item_of_match m there in
      let named_i = (In-of_All (IsItem is_blank matches) included items i member).named in
      any_of-In _ i included member (
        and_true (is_text_of is_blank empty (item_id i) named_i) (
          any_of-In (λ c. c.test_id == item_id i && is_specific c) m matches there
            (and_true (subst (λ j. (m.test_id == j) ≡ true) (sym e) (==-refl m.test_id)) specific)))

  match_of_has_specific : has_specific matches included ≡ true → any is_specific matches ≡ true
  unfolding has_specific
  match_of_has_specific h =
      let (i, member, both) = In-of-any _ included h in
      let (m, there, fits) =
        In-of-any (λ c. c.test_id == item_id i && is_specific c) matches
          ((and-eq-true (is_text (item_id i)) _ both).1) in
      any_of-In is_specific m matches there
        ((and-eq-true (m.test_id == item_id i) (is_specific m) fits).1)

  some_item : included ≡ [] → matches ≡ []
  some_item none_there =
      nothing matches
        (λ m there. let (i, member, e) = item_of_match m there in subst (In i) none_there member)
    where
      nothing : (ms : List RelatedTest) → ((m : RelatedTest) → In m ms → ⊥) → ms ≡ []
      nothing [] h = refl
      nothing (m ∷ ms) h = absurd (h m (inl refl))

  none_stays : has_specific matches included ≡ true → filter stays included ≡ [] → ⊥
  none_stays h e =
      let (m, there, specific) = In-of-any is_specific matches (match_of_has_specific h) in
      let (i, member, same_id) = item_of_match m there in
      subst (In i) e
        (In-filter stays i included member (stays_of_specific m there specific i member same_id))

  without_broad-IsMinimized :
      (gone : List Excluded)
      → broad_ids gone ≡ []
      → Ensures
          (IsMinimized is_blank matches)
          (without_broad {E = E} is_blank matches (included, gone))
  without_broad-IsMinimized gone duplicates = elim (Bool-cases (has_specific matches included)) [
    | inr wide ↦
        rw (wide, Ensures)
          (record {
            items = items;
            in_order = order;
            accounted = λ id. ground (arith, duplicates, same, of_ids.cover id);
            never_both = λ id. ground (arith, duplicates);
            narrow = λ h i member. absurd (cc (has_specific_of_match h, wide));
            wide = λ h. duplicates;
            some_test = some_item;
          })
    | inl narrow ↦
        rw (narrow, Ensures)
          (Ensures-and_then (AreDropped included) (IsMinimized is_blank matches)
            (drop_broad is_blank matches [] included) _
            (drop_broad-AreDropped E is_blank matches named [] included)
            λ (kept, broad) _ (k, b).
              let all_broad : broad_ids (gone ++ broad)
                  ≡ map item_id (filter (λ i. not (stays i)) included) =
                broad_ids-append gone broad ∙ ap (λ xs. xs ++ broad_ids broad) duplicates ∙ b in
              record {
                items = rw k (
                    All-of_In (IsItem is_blank matches) (filter stays included) (λ i m.
                      In-of_All (IsItem is_blank matches) included items i
                        ((In-of-filter stays i included m).0)));
                in_order =
                    rw k (IsSorted-filter by_item_id by_item_id-IsTotalOrder stays included order);
                accounted = λ id.
                    rw (k, all_broad)
                      (contains-map-filter item_id stays id included
                        ∙ ap (λ xs. contains xs id) same
                        ∙ of_ids.cover id);
                never_both = λ id.
                    rw (k, all_broad)
                      (contains-map-filter-both item_id stays id included
                        (rw same of_ids.distinct));
                narrow = λ h i member. (In-of-filter stays i included (subst (In i) k member)).1;
                wide = λ h. absurd (cc (match_of_has_specific narrow, h));
                some_test = λ e. absurd (none_stays narrow (sym k ∙ e));
              })
  ]
    where
      order : IsSorted by_item_id included
      order = IsSorted-of-map str_le item_id included (rw same of_ids.in_order)

-- When the tests are minimized, every test of a match is either kept or excluded as too broad, never
-- both; what is kept is sorted by id, each test with the reason of its strongest match; where a
-- match is specific no broad test is kept, and otherwise none is excluded; and where there are
-- matches something is kept. This needs descriptions of the tests that were asked for, a name in the
-- matches of dependent components, and that the empty text counts as blank.
pub minimize_tests-IsMinimized :
    (E : Type 0) (is_blank : String → Bool) (describe : String → Result E TestTargetDescription)
    (anchor : String) (matches : List RelatedTest)
    → is_blank "" ≡ true
    → DescribesAsked describe
    → DependentsNamed matches
    → Ensures (IsMinimized is_blank matches) (minimize_tests is_blank describe anchor matches)
unfolding minimize_tests
minimize_tests-IsMinimized E is_blank describe anchor matches empty asked named =
    let ids = sorted str_le (keys (group_by id_of matches)) in
    Ensures-and_then (AreItems is_blank matches ids) (IsMinimized is_blank matches)
      (minimize_groups is_blank describe anchor (group_by id_of matches) ids)
      (without_broad is_blank matches)
      (minimize_groups-AreItems E is_blank describe asked anchor matches ids)
      λ (included, gone) _ (items, same, duplicates).
        without_broad-IsMinimized E is_blank empty matches named included ids
          (sorted-keys-AreIds matches) items same gone duplicates
