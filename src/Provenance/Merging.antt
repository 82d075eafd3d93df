-- ===== src/Provenance/Merging.antt =====
-- src/suitcode/core/provenance_summary.py: what merging entries keeps.
use code_suit.Base.{
  nodup, nodup-append_one, Bool, true, ◌||◌, List, [], ◌∷◌, ◌++◌, ◌≡◌, refl, Eq, contains, any,
  arith, contains-append, Bool-cases, inl, inr, string_eq,
}
use code_suit.Provenance.{
  ProvenanceEntry, merge_into, merge_groups, merge_unique_provenance, entry_eq,
}

module _ {A : Type 0} ⦃e : Eq A⦄ where
  pub nodup-merge_into :
      (merged xs : List A) → nodup merged ≡ true → nodup (merge_into merged xs) ≡ true
  unfolding merge_into
  nodup-merge_into merged [] h = h
  nodup-merge_into merged (x ∷ xs) h = elim (Bool-cases (contains merged x)) [
    | inl old ↦ rw old (nodup-merge_into merged xs h)
    | inr new ↦ rw new (nodup-merge_into (merged ++ x ∷ []) xs (nodup-append_one merged x h new))
  ]

  pub contains-merge_into :
      (a : A) (merged xs : List A)
      → contains (merge_into merged xs) a ≡ (contains merged a || contains xs a)
  unfolding merge_into
  contains-merge_into a merged [] = ground arith
  contains-merge_into a merged (x ∷ xs) = elim (Bool-cases (contains merged x)) [
    | inl old ↦ rw old (ground (arith, contains-merge_into a merged xs))
    | inr new ↦ rw new (
        ground
          (arith, contains-merge_into a (merged ++ x ∷ []) xs, contains-append merged (x ∷ []) a))
  ]

-- Does any of the groups hold the entry?
abbrev pub in_groups : List (List ProvenanceEntry) → ProvenanceEntry → Bool
in_groups gs p = any (λ g. contains g p) gs

merge_groups_lem :
    (gs : List (List ProvenanceEntry)) (merged : List ProvenanceEntry)
    → nodup merged ≡ true
    → (nodup (merge_groups merged gs) ≡ true)
      × ((p : ProvenanceEntry)
          → contains (merge_groups merged gs) p ≡ (contains merged p || in_groups gs p))
unfolding merge_groups
merge_groups_lem [] merged h = (h, λ p. ground arith)
merge_groups_lem (g ∷ gs) merged h =
    let (once, all_in) = merge_groups_lem gs (merge_into merged g) (nodup-merge_into merged g h) in
    (once, λ p. ground (arith, all_in p, contains-merge_into p merged g))

-- The merged provenance holds exactly the entries of the groups, each once.
pub merge_unique_provenance_lem :
    (gs : List (List ProvenanceEntry))
    → (nodup (merge_unique_provenance gs) ≡ true)
      × ((p : ProvenanceEntry) → contains (merge_unique_provenance gs) p ≡ in_groups gs p)
unfolding merge_unique_provenance
merge_unique_provenance_lem gs = merge_groups_lem gs [] refl
