-- ===== src/Change/Minimize/Items.antt =====
-- The first loop of `minimize_tests`: one item for each test, from its strongest match.
use code_suit.Base.{
  String, Bool, true, false, not, some, List, [], ◌∷◌, ◌++◌, ◌≡◌, refl, sym, subst, ap, ◌∙◌, ◌==◌,
  All, In, In-filter, In-of-filter, filter, map, string_eq, nat_eq, eq_of_==, ==-refl, Option-cases,
  inl, inr, arith,
}
use code_suit.Base.Groups.{group_by, bucket, bucket-group_by}
use code_suit.Base.Result.{
  Result, ok, err, and_then, Ensures, Ensures-and_then, traverse, traverse-Each, Each,
}
use code_suit.Testing.{TestTargetDescription}
use code_suit.Change.{
  RelatedTest, ExclusionReason, duplicate_replaced_by_stronger_match,
  broad_test_replaced_by_specific_tests, test_target, Excluded, raising,
}
use code_suit.Change.Evidence.{test_item}
use code_suit.Change.Evidence.Items.{Holds, Excludes, test_item-Holds, exclusion-Excludes}
use code_suit.Change.Minimize.{
  TestItem, id_of, item_id, human_test_reason, match_le, strongest, duplicate_of, minimize_group,
  minimize_groups,
}
use code_suit.Change.Minimize.Strongest.{Least, strongest-Least}

-- A description is of the test that was asked for.
abbrev pub DescribesAsked : {E : Type 0} → (String → Result E TestTargetDescription) → Type 0
DescribesAsked describe = (id : String) → Ensures (λ d. d.test_id ≡ id) (describe id)

-- The item of a test has the reason of a match of that test, which no match of the test is below.
pub record IsItem (is_blank : String → Bool) (matches : List RelatedTest) (item : TestItem)
    : Type 0 where
  pub chosen : RelatedTest
  pub there : In chosen matches
  pub same : chosen.test_id ≡ item_id item
  pub because : item.inclusion_reason ≡ human_test_reason chosen
  pub least : (c : RelatedTest) → In c matches → c.test_id ≡ item_id item → match_le chosen c ≡ true
  pub named : is_blank (item_id item) ≡ false

-- The tests that are excluded as too broad.
abbrev pub is_broad_reason : ExclusionReason → Bool
is_broad_reason r = elim r [ broad_test_replaced_by_specific_tests ↦ true | _ ↦ false ]

abbrev pub broad_ids : List Excluded → List String
broad_ids [] = []
broad_ids (x ∷ xs) =
    let rest = broad_ids xs in
    elim (is_broad_reason x.reason_code) [ true ↦ x.item_id ∷ rest | false ↦ rest ]

pub broad_ids-append : (xs ys : List Excluded) → broad_ids (xs ++ ys) ≡ broad_ids xs ++ broad_ids ys
broad_ids-append [] ys = refl
broad_ids-append (x ∷ xs) ys = ground (arith, broad_ids-append xs ys)

abbrev IsDuplicate : (String → Bool) → String → RelatedTest → Excluded → Type 0
IsDuplicate is_blank id m = Excludes is_blank id duplicate_replaced_by_stronger_match (id ∷ [])

broad_ids_of_duplicates :
    (is_blank : String → Bool) (id : String) (ms : List RelatedTest) (xs : List Excluded)
    → Each (IsDuplicate is_blank id) ms xs
    → broad_ids xs ≡ []
broad_ids_of_duplicates is_blank id [] [] h = refl
broad_ids_of_duplicates is_blank id [] (x ∷ xs) h = absurd h
broad_ids_of_duplicates is_blank id (m ∷ ms) [] h = absurd h
broad_ids_of_duplicates is_blank id (m ∷ ms) (x ∷ xs) h =
    rw (h.0.reason_code) (broad_ids_of_duplicates is_blank id ms xs h.1)

-- What the loop returns for one test and for several.
abbrev IsGroup : (String → Bool) → List RelatedTest → String → TestItem × List Excluded → Type 0
IsGroup is_blank matches id (item, gone) =
    IsItem is_blank matches item × (item_id item ≡ id) × (broad_ids gone ≡ [])

abbrev pub AreItems :
    (String → Bool) → List RelatedTest → List String → List TestItem × List Excluded → Type 0
AreItems is_blank matches ids (items, gone) =
    All (IsItem is_blank matches) items × (map item_id items ≡ ids) × (broad_ids gone ≡ [])

module _ (E : Type 0) (is_blank : String → Bool)
    (describe : String → Result E TestTargetDescription) (asked : DescribesAsked describe) where
  raising-asked :
      (id : String) (out : Result E TestTargetDescription)
      → Ensures (λ d. d.test_id ≡ id) out
      → Ensures (λ d. d.test_id ≡ id) (raising out)
  raising-asked id (ok d) h = h
  raising-asked id (err e) h = tt

  duplicate_of-Excludes :
      (id : String) (m : RelatedTest)
      → Ensures (IsDuplicate is_blank id m) (duplicate_of {E = E} is_blank id m)
  unfolding duplicate_of
  duplicate_of-Excludes id m =
      exclusion-Excludes E is_blank test_target id duplicate_replaced_by_stronger_match
        "weaker duplicate test match replaced by stronger deterministic match" (id ∷ [])
        m.provenance

  -- The item of the match that is selected.
  chosen-IsItem :
      (matches : List RelatedTest) (id : String) (m : RelatedTest) (d : TestTargetDescription)
      (item : TestItem)
      → In m matches
      → m.test_id ≡ id
      → ((c : RelatedTest) → In c matches → c.test_id ≡ id → match_le m c ≡ true)
      → d.test_id ≡ id
      → Holds is_blank d (human_test_reason m) d.test_id item
      → IsItem is_blank matches item × (item_id item ≡ id)
  chosen-IsItem matches id m d item there same least named holds =
      let of_id : item_id item ≡ id = ap (λ t. t.test_id) holds.target ∙ named in
      (
        record {
          chosen = m;
          there = there;
          same = same ∙ sym of_id;
          because = holds.reason;
          least = λ c k e. least c k (e ∙ of_id);
          named = subst (λ t. is_blank t.test_id ≡ false) (sym holds.target) holds.id_there;
        },
        of_id,
      )

  abbrev of_id : List RelatedTest → String → List RelatedTest
  of_id matches id = filter (λ m. id == id_of m) matches

  minimize_group-IsGroup :
      (anchor id : String) (matches : List RelatedTest)
      → Ensures
          (IsGroup is_blank matches id)
          (minimize_group is_blank describe anchor id (of_id matches id))
  unfolding minimize_group
  minimize_group-IsGroup anchor id matches = elim (Option-cases (strongest (of_id matches id))) [
    | inl nothing ↦ rw (nothing, Ensures) tt
    | inr (m, found) ↦
        rw (found, Ensures)
          (selected m (subst (Least (of_id matches id)) found (strongest-Least (of_id matches id))))
  ]
    where
      selected :
          (m : RelatedTest)
          → Least (of_id matches id) (some m)
          → Ensures (IsGroup is_blank matches id) (
              and_then
                (traverse
                  (duplicate_of is_blank id)
                  (filter (λ c. not (c.object == m.object)) (of_id matches id)))
                λ gone. and_then (raising (describe id)) λ description.
                  and_then
                    (test_item is_blank anchor m description (human_test_reason m))
                    λ item. ok (item, gone))
      selected m least =
          let (there, same) = In-of-filter (λ c. id == id_of c) m matches least.0 in
          let others = filter (λ c. not (c.object == m.object)) (of_id matches id) in
          Ensures-and_then (Each (IsDuplicate is_blank id) others) (IsGroup is_blank matches id)
            (traverse (duplicate_of is_blank id) others) _
            (traverse-Each _ (duplicate_of is_blank id) others (duplicate_of-Excludes id))
            λ gone _ g.
              Ensures-and_then (λ d. d.test_id ≡ id) (IsGroup is_blank matches id)
                (raising (describe id)) _ (raising-asked id (describe id) (asked id))
                λ d _ named.
                  Ensures-and_then (Holds is_blank d (human_test_reason m) d.test_id)
                    (IsGroup is_blank matches id)
                    (test_item is_blank anchor m d (human_test_reason m)) _
                    (test_item-Holds E is_blank anchor m d (human_test_reason m))
                    λ item _ holds.
                      let (is, of) =
                        chosen-IsItem matches id m d item there (sym (eq_of_== id (id_of m) same))
                          (λ c k e. least.1 c (
                            In-filter (λ c. id == id_of c) c matches k
                              (subst (λ j. (id == j) ≡ true) (sym e) (==-refl id))))
                          named holds in
                      (is, of, broad_ids_of_duplicates is_blank id others gone g)

  pub minimize_groups-AreItems :
      (anchor : String) (matches : List RelatedTest) (ids : List String)
      → Ensures
          (AreItems is_blank matches ids)
          (minimize_groups is_blank describe anchor (group_by id_of matches) ids)
  unfolding minimize_groups
  minimize_groups-AreItems anchor matches [] = (tt, refl, refl)
  minimize_groups-AreItems anchor matches (id ∷ ids) =
      Ensures-and_then (IsGroup is_blank matches id) (AreItems is_blank matches (id ∷ ids))
        (minimize_group is_blank describe anchor id (bucket id (group_by id_of matches))) _
        (rw (bucket-group_by id_of id matches) (minimize_group-IsGroup anchor id matches))
        λ (item, gone) _ (is, of, none_broad).
          Ensures-and_then (AreItems is_blank matches ids) (AreItems is_blank matches (id ∷ ids))
            (minimize_groups is_blank describe anchor (group_by id_of matches) ids) _
            (minimize_groups-AreItems anchor matches ids)
            λ (items, more) _ (all_items, same, none_more). (
              (is, all_items),
              cc (of, same),
              broad_ids-append gone more ∙ cc (none_broad, none_more),
            )
