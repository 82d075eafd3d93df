-- ===== src/Change/Quality/Planned.antt =====
-- The quality operations that a plan returns.
use mathlib.Core.List.{append-nil, append_assoc}
use code_suit.Base.{
  String, Bool, true, false, not, ap, subst, ◌∙◌, sym, ◌||◌, Option, none, some, List, [], ◌∷◌,
  ◌++◌, ◌≡◌, refl, contains, nodup, nodup-append_one, string_eq, Bool-cases, Option-cases, inl, inr,
  arith,
}
use code_suit.Base.Result.{ok, err, Each, Ensures, Ensures-and_then, Ensures-nothing}
use code_suit.Ids.{Python, is_blank, normalize_repository_relative_path}
use code_suit.Provenance.{preferred_confidence_mode}
use code_suit.Change.{
  QualityOperation, QualityOperationKind, lint, format, ChangeError, invalid_item, summarized,
}
use code_suit.Change.Evidence.{edge, no_entries}
use code_suit.Change.Quality.{
  distinct_paths, paths_of, shape_ok, quality_operation_of, Plan, lint_plan, format_plan,
  plan_provenance, plan_edge, planned, plan_with, plan_one, build_operations,
}

-- The operation of a provider on the files. Its id, its provider and its tool are not blank, it has
-- proof edges and provenance, and the fields fit its kind. Its paths are those of the files in one
-- spelling, in their order, at least one, and no path twice.
pub record IsOperation (py : Python) (files : List String) (kind : QualityOperationKind)
    (provider : String) (op : QualityOperation) : Type 0 where
  pub same_kind : op.operation ≡ kind
  pub same_provider : op.provider_id ≡ provider
  pub has_id : is_blank py op.id ≡ false
  pub has_provider : is_blank py op.provider_id ≡ false
  pub has_tool : is_blank py op.mcp_tool_name ≡ false
  pub proved : no_entries op.proof_edges ≡ false
  pub cited : no_entries op.provenance ≡ false
  pub shape : shape_ok op.operation op.scope op.mcp_tool_name op.is_fix op.is_mutating ≡ true
  pub some_paths : no_entries op.repository_rel_paths ≡ false
  pub distinct : nodup op.repository_rel_paths ≡ true
  pub normal :
      Each (λ p q. normalize_repository_relative_path py p ≡ some q) files op.repository_rel_paths

-- The paths after `normalized` are the given ones in one spelling.
abbrev AreNormal : Python → List String → List String → Option (List String) → Type 0
AreNormal py normalized paths none = Unit
AreNormal py normalized paths (some out) =
    (nodup out ≡ true)
    × (qs : List String) × (out ≡ normalized ++ qs)
    × Each (λ p q. normalize_repository_relative_path py p ≡ some q) paths qs

distinct_paths-AreNormal :
    (py : Python) (normalized paths : List String)
    → nodup normalized ≡ true
    → AreNormal py normalized paths (distinct_paths py normalized paths)
unfolding distinct_paths
distinct_paths-AreNormal py normalized [] h = (h, [], sym (append-nil normalized), tt)
distinct_paths-AreNormal py normalized (p ∷ ps) h =
    elim (Option-cases (normalize_repository_relative_path py p)) [
      | inl outside ↦ rw (outside, AreNormal) tt
      | inr (q, found) ↦ elim (Bool-cases (contains normalized q)) [
        | inl old ↦ rw (found, AreNormal, old) tt
        | inr new ↦
            rw (found, new)
              (one_more q found (distinct_paths py (normalized ++ q ∷ []) ps) (
                distinct_paths-AreNormal py (normalized ++ q ∷ []) ps
                  (nodup-append_one normalized q h new)))
      ]
    ]
  where
    one_more :
        (q : String)
        → normalize_repository_relative_path py p ≡ some q
        → (o : Option (List String)) → AreNormal py (normalized ++ q ∷ []) ps o
        → AreNormal py normalized (p ∷ ps) o
    one_more q found none k = tt
    one_more q found (some out) (u, qs, e, each) =
        (u, q ∷ qs, e ∙ append_assoc normalized (q ∷ []) qs, (found, each))

-- What `paths_of` gives: never no path at all.
abbrev ArePaths : Python → List String → Option (List String) → Type 0
ArePaths py paths none = Unit
ArePaths py paths (some out) =
    (no_entries out ≡ false)
    × (nodup out ≡ true)
    × Each (λ p q. normalize_repository_relative_path py p ≡ some q) paths out

paths_of-ArePaths : (py : Python) (paths : List String) → ArePaths py paths (paths_of py paths)
unfolding paths_of
paths_of-ArePaths py [] = tt
paths_of-ArePaths py (p ∷ ps) =
    at (distinct_paths py [] (p ∷ ps)) (distinct_paths-AreNormal py [] (p ∷ ps) refl)
  where
    at : (o : Option (List String)) → AreNormal py [] (p ∷ ps) o → ArePaths py (p ∷ ps) o
    at none k = tt
    at (some out) (u, [], e, each) = absurd each
    at (some out) (u, q ∷ qs, e, each) = (
      ap no_entries e,
      u,
      subst (Each (λ p q. normalize_repository_relative_path py p ≡ some q) (p ∷ ps)) (sym e) each,
    )

none_holds :
    (a b c d e f : Bool)
    → (a || b || c || d || e || not f) ≡ false
    → (a ≡ false) × (b ≡ false) × (c ≡ false) × (d ≡ false) × (e ≡ false) × (f ≡ true)
none_holds a b c d e f h =
    (ground arith, ground arith, ground arith, ground arith, ground arith, ground arith)

-- One operation of a kind for each provider, in their order.
abbrev pub AreOperations :
    Python → List String → QualityOperationKind → List String → List QualityOperation → Type 0
AreOperations py files kind = Each (IsOperation py files kind)

module _ (E : Type 0) (py : Python) where
  quality_operation_of-IsOperation :
      (op : QualityOperation)
      → Ensures
          (IsOperation py op.repository_rel_paths op.operation op.provider_id)
          (quality_operation_of {E = E} py op)
  unfolding quality_operation_of
  quality_operation_of-IsOperation op = elim (Bool-cases refused) [
    | inl bad ↦ rw (bad, Ensures) tt
    | inr good ↦ rw good (
        with_paths (paths_of py op.repository_rel_paths)
          (paths_of-ArePaths py op.repository_rel_paths) good)
  ]
    where
      fits : Bool
      fits = shape_ok op.operation op.scope op.mcp_tool_name op.is_fix op.is_mutating

      refused : Bool
      refused =
          is_blank py op.id
          || is_blank py op.provider_id
          || is_blank py op.mcp_tool_name
          || no_entries op.proof_edges
          || no_entries op.provenance
          || not fits

      with_paths :
          (paths : Option (List String))
          → ArePaths py op.repository_rel_paths paths
          → refused ≡ false
          → Ensures {E = ChangeError E}
              (IsOperation py op.repository_rel_paths op.operation op.provider_id)
              (elim paths [
                | none ↦ err invalid_item
                | some paths ↦ ok (record op { repository_rel_paths = paths })
              ])
      with_paths none h k = tt
      with_paths (some ps) (some_paths, distinct, normal) k =
          let (id, provider, tool, edges, entries, shape) =
            none_holds (is_blank py op.id) (is_blank py op.provider_id)
              (is_blank py op.mcp_tool_name) (no_entries op.proof_edges) (no_entries op.provenance)
              fits k in
          record {
            same_kind = refl;
            same_provider = refl;
            has_id = id;
            has_provider = provider;
            has_tool = tool;
            proved = edges;
            cited = entries;
            shape = shape;
            some_paths = some_paths;
            distinct = distinct;
            normal = normal;
          }

  plan_one-IsOperation :
      (plan : Plan) (anchor : String) (files : List String) (p : String)
      → Ensures (IsOperation py files plan.operation p) (plan_one {E = E} py plan anchor files p)
  unfolding plan_one plan_with
  plan_one-IsOperation plan anchor files p =
      Ensures-and_then (λ _. Unit {0}) (IsOperation py files plan.operation p)
        (plan_provenance py plan files p) _
        (Ensures-nothing (plan_provenance {E = E} py plan files p))
        λ provenance _ _.
          Ensures-and_then (λ _. Unit {0}) (IsOperation py files plan.operation p)
            (summarized (preferred_confidence_mode provenance)) _
            (Ensures-nothing (summarized {E = E} (preferred_confidence_mode provenance)))
            λ mode _ _.
              Ensures-and_then (λ _. Unit {0}) (IsOperation py files plan.operation p)
                (edge (is_blank py) (plan_edge plan anchor p provenance)) _
                (Ensures-nothing (edge (is_blank py) (plan_edge plan anchor p provenance)))
                λ e _ _. quality_operation_of-IsOperation (planned plan files p provenance mode e)

  -- A plan that is returned has one lint and one format operation for each provider, in the order of
  -- the providers. The id, the provider and the tool of an operation are not blank, it has proof
  -- edges and provenance, and its scope, tool and flags fit its kind; its paths are the given files
  -- in one spelling, in their order, at least one, and distinct.
  pub build_operations-AreOperations :
      (anchor : String) (files ps : List String)
      → Ensures
          (λ out. AreOperations py files lint ps (out.0) × AreOperations py files format ps (out.1))
          (build_operations {E = E} py anchor files ps)
  unfolding build_operations
  build_operations-AreOperations anchor files [] = (tt, tt)
  build_operations-AreOperations anchor files (p ∷ ps) =
      Ensures-and_then (IsOperation py files lint p) _ (plan_one py lint_plan anchor files p) _
        (plan_one-IsOperation lint_plan anchor files p)
        λ l _ is_lint.
          Ensures-and_then (IsOperation py files format p) _
            (plan_one py format_plan anchor files p) _
            (plan_one-IsOperation format_plan anchor files p)
            λ f _ is_format.
              Ensures-and_then
                (λ out.
                  AreOperations py files lint ps (out.0) × AreOperations py files format ps (out.1))
                _ (build_operations py anchor files ps) _
                (build_operations-AreOperations anchor files ps)
                (λ rest _ (ls, fs). ((is_lint, ls), (is_format, fs)))
