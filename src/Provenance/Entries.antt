-- ===== src/Provenance/Entries.antt =====
-- core/provenance.py: the validators of `ProvenanceEntry`, which run whenever an entry is made or
-- read back. They change what they accept: texts are stripped, paths are brought to one spelling.
use code_suit.Base.{
  String, Bool, true, false, ◌||◌, Option, none, some, List, [], ◌∷◌, ◌++◌, contains, string_eq,
  if◌then◌else◌,
}
use code_suit.Ids.{Python, is_blank, with_slashes, starts_with, normalize_repository_relative_path}
use code_suit.Provenance.{ProvenanceEntry}

-- `p in s`, for texts
unfoldable pub has_text : String → String → Bool
unfolding starts_with
has_text p String.[] = starts_with p String.[]
has_text p (String.◌∷◌ c s) =
    let later = has_text p s in if starts_with p (String.◌∷◌ c s) then true else later

module _ (py : Python) where
  -- A path of the evidence; one with a scheme or a root is only stripped.
  unfoldable pub evidence_path : String → Option String
  unfolding with_slashes has_text starts_with normalize_repository_relative_path
  evidence_path item =
      let candidate = py.strip (with_slashes item) in
      if is_blank py item
      then none
      else if has_text "://" candidate || starts_with "/" candidate
      then some candidate
      else normalize_repository_relative_path py candidate

  -- None for a path that is refused or there twice.
  unfoldable pub evidence_paths_from : List String → List String → Option (List String)
  unfolding evidence_path string_eq
  evidence_paths_from normalized [] = some normalized
  evidence_paths_from normalized (p ∷ ps) = elim (evidence_path p) [
    | none ↦ none
    | some q ↦ if contains normalized q then none else evidence_paths_from (normalized ++ q ∷ []) ps
  ]

  abbrev pub is_blank_tool : Option String → Bool
  is_blank_tool none = false
  is_blank_tool (some tool) = is_blank py tool

  -- The entry that the class makes of the fields, or none where a validator raises.
  unfoldable pub provenance_entry : ProvenanceEntry → Option ProvenanceEntry
  unfolding evidence_paths_from
  provenance_entry p =
      if is_blank_tool p.source_tool || is_blank py p.evidence_summary
      then none
      else elim (evidence_paths_from [] p.evidence_paths) [
        | none ↦ none
        | some paths ↦
            some
              (record p { evidence_summary = py.strip p.evidence_summary; evidence_paths = paths })
      ]

  -- A tuple of entries.
  unfoldable pub provenance_entries : List ProvenanceEntry → Option (List ProvenanceEntry)
  unfolding provenance_entry
  provenance_entries [] = some []
  provenance_entries (p ∷ ps) = elim (provenance_entry p) [
    | none ↦ none
    | some q ↦ elim (provenance_entries ps) [ none ↦ none | some qs ↦ some (q ∷ qs) ]
  ]
