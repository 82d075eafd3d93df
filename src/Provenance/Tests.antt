-- ===== src/Provenance/Tests.antt =====
-- Two groups that share an entry, and the theorems at them.
use code_suit.Base.{
  nodup, true, none, List, [], ◌∷◌, ◌≡◌, refl, contains, ◌≤◌, length, String, string_eq,
}
use code_suit.Base.Result.{ok, err, Ensures}
use code_suit.Provenance.{
  ProvenanceEntry, authoritative, derived, manifest, lsp, entry_eq, empty_entries,
  merge_unique_provenance, merge_provenance_paths, preferred_source_kind,
}
use code_suit.Provenance.Merging.{in_groups, merge_unique_provenance_lem}
use code_suit.Provenance.Paths.{in_paths, merge_provenance_paths_lem}

abbrev listed : ProvenanceEntry
listed = record {
  confidence_mode = authoritative;
  source_kind = manifest;
  source_tool = none;
  evidence_summary = "listed";
  evidence_paths = "package.json" ∷ "go.mod" ∷ [];
}

abbrev referenced : ProvenanceEntry
referenced = record {
  confidence_mode = derived;
  source_kind = lsp;
  source_tool = none;
  evidence_summary = "referenced";
  evidence_paths = "go.mod" ∷ [];
}

abbrev groups : List (List ProvenanceEntry)
groups = (listed ∷ []) ∷ (referenced ∷ listed ∷ []) ∷ []

merged_groups : merge_unique_provenance groups ≡ listed ∷ referenced ∷ []
unfolding merge_unique_provenance
merged_groups = refl

best_kind : preferred_source_kind (listed ∷ referenced ∷ []) ≡ ok lsp
unfolding preferred_source_kind
best_kind = refl

no_entries : preferred_source_kind [] ≡ err empty_entries
unfolding preferred_source_kind
no_entries = refl

merge_unique_provenance_lem_example :
    (nodup (merge_unique_provenance groups) ≡ true)
    × ((p : ProvenanceEntry) → contains (merge_unique_provenance groups) p ≡ in_groups groups p)
merge_unique_provenance_lem_example = merge_unique_provenance_lem groups

merge_provenance_paths_lem_example :
    Ensures
      (λ out.
        (length out ≤ 2)
        × (nodup out ≡ true)
        × ((j : String) → contains out j ≡ true → in_paths (listed ∷ referenced ∷ []) j ≡ true))
      (merge_provenance_paths (listed ∷ referenced ∷ []) 2)
merge_provenance_paths_lem_example = merge_provenance_paths_lem (listed ∷ referenced ∷ []) 2
