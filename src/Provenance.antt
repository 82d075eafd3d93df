-- ===== src/Provenance.antt =====
-- src/suitcode/core/provenance.py and core/provenance_summary.py: where a piece of evidence comes
-- from, and how several entries are merged into one.
pub mod Entries
pub mod Merging
pub mod Paths
mod Tests
use code_suit.Base.{
  ℕ, zero, suc, String, Bool, Option, none, some, List, [], ◌∷◌, ◌++◌, Eq, ◌==◌, contains, any,
  take, if◌then◌else◌, str_dec, string_eq,
}
use code_suit.Base.Result.{Result, ok, err, and_then}

pub data ConfidenceMode : Type 0 where
  authoritative derived heuristic : ConfidenceMode

pub data SourceKind : Type 0 where
  manifest document syntax lsp test_tool quality_tool ownership dependency_graph : SourceKind
  heuristic_source : SourceKind

pub record ProvenanceEntry : Type 0 where
  pub confidence_mode : ConfidenceMode
  pub source_kind : SourceKind
  pub source_tool : Option String
  pub evidence_summary : String
  pub evidence_paths : List String

unfoldable pub ConfidenceMode-discrete : Discrete ConfidenceMode
ConfidenceMode-discrete = hlevel

unfoldable pub SourceKind-discrete : Discrete SourceKind
SourceKind-discrete = hlevel

instance unfoldable pub source_kind_eq : Eq SourceKind
unfolding SourceKind-discrete
source_kind_eq = record { dec = SourceKind-discrete }

-- core/provenance_summary.py. The entries of a node are never empty: that raises.
instance unfoldable pub confidence_eq : Eq ConfidenceMode
unfolding ConfidenceMode-discrete
confidence_eq = record { dec = ConfidenceMode-discrete }

pub data SummaryError : Type 0 where
  empty_entries limit_too_small : SummaryError

unfoldable pub ProvenanceEntry-discrete : Discrete ProvenanceEntry
unfolding str_dec SourceKind-discrete ConfidenceMode-discrete
ProvenanceEntry-discrete = hlevel (str_dec, SourceKind-discrete, ConfidenceMode-discrete)

instance unfoldable pub entry_eq : Eq ProvenanceEntry
unfolding ProvenanceEntry-discrete
entry_eq = record { dec = ProvenanceEntry-discrete }

-- `if x not in merged: merged.append(x)`, over a list.
unfoldable pub merge_into : {A : Type 0} ⦃e : Eq A⦄ → List A → List A → List A
merge_into merged [] = merged
merge_into merged (x ∷ xs) = merge_into (if contains merged x then merged else merged ++ x ∷ []) xs

unfoldable pub merge_groups :
    List ProvenanceEntry → List (List ProvenanceEntry) → List ProvenanceEntry
unfolding merge_into entry_eq
merge_groups merged [] = merged
merge_groups merged (g ∷ gs) = merge_groups (merge_into merged g) gs

unfoldable pub merge_unique_provenance : List (List ProvenanceEntry) → List ProvenanceEntry
unfolding merge_groups
merge_unique_provenance = merge_groups []

-- `_as_tuple`
unfoldable pub as_tuple : List ProvenanceEntry → Result SummaryError (List ProvenanceEntry)
as_tuple [] = err empty_entries
as_tuple (p ∷ ps) = ok (p ∷ ps)

unfoldable pub merge_paths : List String → List ProvenanceEntry → List String
unfolding merge_into string_eq
merge_paths merged [] = merged
merge_paths merged (p ∷ ps) = merge_paths (merge_into merged p.evidence_paths) ps

unfoldable pub merge_provenance_paths : List ProvenanceEntry → ℕ → Result SummaryError (List String)
unfolding merge_paths as_tuple
merge_provenance_paths entries zero = err limit_too_small
merge_provenance_paths entries (suc n) =
    and_then (as_tuple entries) (λ ps. ok (take (suc n) (merge_paths [] ps)))

abbrev pub has_mode : ConfidenceMode → ProvenanceEntry → Bool
has_mode m p = p.confidence_mode == m

unfoldable pub is_authoritative_provenance : List ProvenanceEntry → Result SummaryError Bool
unfolding as_tuple confidence_eq
is_authoritative_provenance entries =
    and_then (as_tuple entries) (λ ps. ok (any (has_mode authoritative) ps))

unfoldable pub preferred_confidence_mode : List ProvenanceEntry → Result SummaryError ConfidenceMode
unfolding as_tuple confidence_eq
preferred_confidence_mode entries = and_then (as_tuple entries) λ ps.
    if any (has_mode authoritative) ps
    then ok authoritative
    else if any (has_mode derived) ps
    then ok derived
    else ok heuristic

abbrev pub precedence : List SourceKind
precedence =
    test_tool ∷ quality_tool ∷ lsp ∷ manifest ∷ document ∷ dependency_graph ∷ ownership
    ∷ heuristic_source ∷ []

-- The first kind of the order that occurs, or the first entry's.
unfoldable pub first_in : List SourceKind → List ProvenanceEntry → SourceKind → SourceKind
unfolding source_kind_eq
first_in [] ps default = default
first_in (k ∷ ks) ps default =
    let later = first_in ks ps default in if any (λ p. p.source_kind == k) ps then k else later

unfoldable pub preferred_source_kind : List ProvenanceEntry → Result SummaryError SourceKind
unfolding first_in
preferred_source_kind [] = err empty_entries
preferred_source_kind (p ∷ ps) = ok (first_in precedence (p ∷ ps) p.source_kind)

unfoldable pub first_tool : List ProvenanceEntry → Option String
first_tool [] = none
first_tool (p ∷ ps) = elim p.source_tool [ none ↦ first_tool ps | some t ↦ some t ]

unfoldable pub preferred_source_tool : List ProvenanceEntry → Result SummaryError (Option String)
unfolding first_tool as_tuple
preferred_source_tool entries = and_then (as_tuple entries) (λ ps. ok (first_tool ps))

-- The model that is built is validated by its class, which is not repeated here.
unfoldable pub summarize_related_provenance :
    List ProvenanceEntry → String → Result SummaryError ProvenanceEntry
unfolding is_authoritative_provenance preferred_source_kind preferred_source_tool
    merge_provenance_paths
summarize_related_provenance entries summary =
    and_then (is_authoritative_provenance entries) λ sure.
      and_then (preferred_source_kind entries) λ kind.
        and_then (preferred_source_tool entries) λ tool.
          and_then (merge_provenance_paths entries 10) λ paths. ok (record {
            confidence_mode = if sure then authoritative else derived;
            source_kind = kind;
            source_tool = tool;
            evidence_summary = summary;
            evidence_paths = paths;
          })
