-- ===== src/Change/Evidence/Items.antt =====
-- What an item that the assembler returns holds.
use code_suit.Base.{
  String, Bool, true, false, not, ◌||◌, List, [], ◌∷◌, ◌≡◌, refl, any, nodup, string_eq, Bool-cases,
  inl, inr, arith,
}
use code_suit.Base.Result.{Ensures, Ensures-and_then, Ensures-nothing}
use code_suit.Provenance.{ProvenanceEntry, merge_unique_provenance, preferred_confidence_mode}
use code_suit.Testing.{TestTargetDescription}
use code_suit.Change.{
  RelatedTest, BuildTargetDescription, ItemKind, ExclusionReason, EdgeKind, InclusionReason,
  EvidenceEdge, Included, Excluded, summarized,
}
use code_suit.Change.Evidence.{
  no_entries, edge, item_of, test_item, build_item, dependent_build_item, exclusion,
}

-- The target, the reason and one proof edge to a target that is not blank.
pub record Holds {A : Type 0} (is_blank : String → Bool) (a : A) (because : InclusionReason)
    (name : String) (item : Included A) : Type 0 where
  pub target : item.target ≡ a
  pub reason : item.inclusion_reason ≡ because
  pub id_there : is_blank name ≡ false
  pub entries_there : no_entries item.provenance ≡ false

-- The fields of an exclusion, and what its validators made sure of.
pub record Excludes (is_blank : String → Bool) (name : String) (because : ExclusionReason)
    (replaced_by : List String) (x : Excluded) : Type 0 where
  pub id : x.item_id ≡ name
  pub reason_code : x.reason_code ≡ because
  pub replaced_by_ids : x.replaced_by_ids ≡ replaced_by
  pub id_there : is_blank name ≡ false
  pub distinct : nodup replaced_by ≡ true
  pub entries_there : no_entries x.provenance ≡ false

module _ (E : Type 0) (is_blank : String → Bool) where
  edge_lem :
      (e : EvidenceEdge)
      → Ensures (λ _. is_blank e.target_node_id ≡ false) (edge {E = E} is_blank e)
  unfolding edge
  edge_lem e =
      elim (Bool-cases
        (is_blank e.source_node_id || is_blank e.target_node_id || no_entries e.provenance)) [
          | inl bad ↦ rw (bad, Ensures) tt
          | inr good ↦ rw (good, Ensures) (ground arith)
        ]

  item_of-Holds :
      {A : Type 0} (a : A) (reason : InclusionReason) (e : EvidenceEdge)
      (provenance : List ProvenanceEntry) (id : String)
      → is_blank id ≡ false
      → Ensures (Holds is_blank a reason id) (item_of {E = E} is_blank a reason e provenance)
  unfolding item_of
  item_of-Holds a reason e provenance id h =
      Ensures-and_then (λ _. Unit {0}) (Holds is_blank a reason id)
        (summarized (preferred_confidence_mode provenance)) _
        (Ensures-nothing (summarized (preferred_confidence_mode provenance)))
        (λ mode _ _. elim (Bool-cases (no_entries provenance)) [
          | inl bad ↦ rw (bad, Ensures) tt
          | inr good ↦
              rw (good, Ensures)
                (record { target = refl; reason = refl; id_there = h; entries_there = good })
        ])

  pub test_item-Holds :
      (anchor : String) (m : RelatedTest) (description : TestTargetDescription)
      (reason : InclusionReason)
      → Ensures
          (Holds is_blank description reason description.test_id)
          (test_item {E = E} is_blank anchor m description reason)
  unfolding test_item
  test_item-Holds anchor m description reason =
      Ensures-and_then (λ _. is_blank description.test_id ≡ false) _ (edge is_blank _) _
        (edge_lem _)
        (λ e _ h.
          item_of-Holds description reason e
            (merge_unique_provenance (m.provenance ∷ description.provenance ∷ []))
            description.test_id h)

  pub build_item-Holds :
      (kind id : String) (t : BuildTargetDescription) (reason : InclusionReason)
      (edge_kind : EdgeKind)
      → Ensures
          (Holds is_blank t reason t.action_id)
          (build_item {E = E} is_blank kind id t reason edge_kind)
  unfolding build_item
  build_item-Holds kind id t reason edge_kind =
      Ensures-and_then (λ _. is_blank t.action_id ≡ false) _ (edge is_blank _) _ (edge_lem _)
        (λ e _ h. item_of-Holds t reason e t.provenance t.action_id h)

  pub dependent_build_item-Holds :
      (id : String) (t : BuildTargetDescription) (dependency : List ProvenanceEntry)
      (reason : InclusionReason)
      → Ensures
          (Holds is_blank t reason t.action_id)
          (dependent_build_item {E = E} is_blank id t dependency reason)
  unfolding dependent_build_item
  dependent_build_item-Holds id t dependency reason =
      Ensures-and_then (λ _. is_blank t.action_id ≡ false) _ (edge is_blank _) _ (edge_lem _)
        (λ e _ h.
          item_of-Holds t reason e (merge_unique_provenance (dependency ∷ t.provenance ∷ []))
            t.action_id h)

  pub exclusion-Excludes :
      (kind : ItemKind) (id : String) (code : ExclusionReason) (reason : String)
      (replaced_by : List String) (provenance : List ProvenanceEntry)
      → Ensures
          (Excludes is_blank id code replaced_by)
          (exclusion {E = E} is_blank kind id code reason replaced_by provenance)
  unfolding exclusion
  exclusion-Excludes kind id code reason replaced_by provenance =
      elim (Bool-cases (
        is_blank id
        || is_blank reason
        || any is_blank replaced_by
        || not (nodup replaced_by)
        || no_entries provenance)) [
          | inl bad ↦ rw (bad, Ensures) tt
          | inr good ↦
              rw (good, Ensures)
                (record {
                  id = refl;
                  reason_code = refl;
                  replaced_by_ids = refl;
                  id_there = ground arith;
                  distinct = ground arith;
                  entries_there = ground arith;
                })
        ]
