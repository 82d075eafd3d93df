-- ===== src/Graph/Tests.antt =====
-- A small graph, what the code does on it, and the theorems at it.
use code_suit.Base.{
  ℕ, ◌++◌, ◌≢◌, ◌↔◌, all, String, true, none, some, Option, List, [], ◌∷◌, ◌≡◌, refl, string_eq,
  nat_eq, ◌==◌, if◌then◌else◌,
}
use code_suit.Base.Dict.{lookup, insert, keys, values, select}
use code_suit.Base.Order.{sorted, is_sorted, str_le, codes}
use code_suit.Base.Int.{pos}
use code_suit.Base.Result.{ok, err, Ensures}
use code_suit.Provenance.{ProvenanceEntry, authoritative, manifest}
use code_suit.Graph.Types.{component}
use code_suit.Graph.Types.{
  GraphNode, Edge, Evidence, file_info, depends_on, integrity_error, operational_error,
  not_found_error, store_error, node_ok, edge_key_eq,
}
use code_suit.Graph.Rows.{Codec, IsFaithful, Tables, parse_node, parse_edge}
use code_suit.Graph.Tables.{
  put_node, put_edge, read_node, edges_query, parse_all, referenced, scope_evidence_ids,
  scope_node_ids, scope_edge_keys,
}
use code_suit.Graph.Store
use code_suit.Graph.Store.{purge_connection}
use code_suit.Graph.Store.Transactions.{opened, rested}
use code_suit.Graph.Scope.{scope_valid, name_char}
use code_suit.Graph.Scope.Pattern.{scope_valid_iff}
use code_suit.Graph.Update.{Script, WriterCall, run_refresh, refresh_body, Seen}
use code_suit.Graph.Update.Atomic.{run_refresh-atomic}
use code_suit.Graph.Update.Replaces.{HasUniqueKeys, RowsReplaced, SawRows, run_refresh-replaces}
use code_suit.Graph.Update.Rows.{node_rows, edge_rows, evidence_rows}
use code_suit.Graph.WellFormed.{IsWellFormed, put_node-IsWellFormed, put_edge-IsWellFormed}
use code_suit.Graph.WellFormed.Keeps.{IsSound, store}
use code_suit.Graph.WellFormed.Calls.{StoreCall, serve, serve-IsSound}
use code_suit.Graph.WellFormed.Reads.{Outcome, IsValidNode, get_node_outcomes}
use code_suit.Graph.WellFormed.Entries.{reread}
use code_suit.Ids.{Python, starts_with}
use code_suit.Provenance.Entries.{provenance_entries}
use Prim.Native.Char.{code}
use code_suit.Graph.Query.{query_subgraph_bfs}
use code_suit.Graph.Query.Answers.{Answers, query_subgraph_bfs-Answers}
use code_suit.Graph.Workspace.{
  add_or_update_node, get_node, run_query, reader, query_subgraph, remove_edge, remove_node,
}
use code_suit.Graph.Workspace.Components.{query_components, OfListed, query_components-OfListed}
use code_suit.Graph.Store.{list_nodes}
use code_suit.Graph.Workspace.Updates.{
  get_node-add_or_update_node, run_refresh-remove_edge_missing, run_refresh-remove_node_missing,
}

-- Texts without blanks at their end, and paths in one spelling.
unfoldable lstrip : String → String
unfolding nat_eq
lstrip String.[] = String.[]
lstrip (String.◌∷◌ c s) = let rest = lstrip s in if code c == 32 then rest else String.◌∷◌ c s

abbrev plain : Python
plain = record { strip = lstrip; posix_path = λ s. s; lower = λ s. s }

-- A document is the model that it was made from.
data Document : Type 0 where
  node_document : GraphNode → Document
  edge_document : Edge → Document
  evidence_document : Evidence → Document

load_node : Document → Option GraphNode
load_node (node_document n) = some n
load_node (edge_document _) = none
load_node (evidence_document _) = none

load_edge : Document → Option Edge
load_edge (edge_document e) = some e
load_edge (node_document _) = none
load_edge (evidence_document _) = none

load_evidence : Document → Option Evidence
load_evidence (evidence_document v) = some v
load_evidence (node_document _) = none
load_evidence (edge_document _) = none

abbrev documents : Codec Document
documents = record {
  python = plain;
  node_json = node_document;
  load_node = load_node;
  edge_json = edge_document;
  load_edge = load_edge;
  evidence_json = evidence_document;
  load_evidence = load_evidence;
  digest = λ _. "digest";
}

documents-IsFaithful : IsFaithful documents
unfolding load_node load_edge load_evidence
documents-IsFaithful = record {
  load_node_json = λ n. refl;
  load_edge_json = λ e. refl;
  load_evidence_json = λ v. refl;
}

abbrev found_in_manifest : ProvenanceEntry
found_in_manifest = record {
  confidence_mode = authoritative;
  source_kind = manifest;
  source_tool = none;
  evidence_summary = "listed";
  evidence_paths = [];
}

-- What the reading of entries runs.
entries_of_node : Unit {0}
unfolding provenance_entries lstrip nat_eq string_eq codes starts_with
entries_of_node = tt

abbrev with_paths : List String → ProvenanceEntry
with_paths paths = record found_in_manifest { evidence_paths = paths }

-- The validators do not accept what they made: the path "./ a" is stored as " a" and read as "a".
stored_with_blank :
    (provenance_entries plain (with_paths ("./ a" ∷ []) ∷ []) ≡ some (with_paths (" a" ∷ []) ∷ []))
    × (provenance_entries plain (with_paths (" a" ∷ []) ∷ []) ≡ some (with_paths ("a" ∷ []) ∷ []))
unfolding entries_of_node
stored_with_blank = (refl, refl)

-- Two such paths are stored and then refused, as the same one.
refused_when_read :
    (provenance_entries plain (with_paths ("./ a" ∷ "a" ∷ []) ∷ [])
      ≡ some (with_paths (" a" ∷ "a" ∷ []) ∷ []))
    × (provenance_entries plain (with_paths (" a" ∷ "a" ∷ []) ∷ []) ≡ none)
unfolding entries_of_node
refused_when_read = (refl, refl)

abbrev file : String → GraphNode
file id = record {
  id = id;
  name = id;
  evidence_ids = [];
  provenance = found_in_manifest ∷ [];
  detail = file_info id none "component";
}

abbrev link : String → String → Edge
link a b = record { kind = depends_on; src = a; dst = b; evidence_ids = [] }

abbrev empty : Tables Document
empty = record { metadata = none; nodes = []; edges = []; evidence = [] }

abbrev scope : String
scope = "provider:npm:default"

abbrev first_script : Script
first_script = record {
  calls =
      WriterCall.node "t1" (file "a")
      ∷ WriterCall.node "t1" (file "b")
      ∷ WriterCall.edge "t1" (link "a" "b")
      ∷ [];
  failure = none;
}

abbrev failing_script : Script
failing_script = record {
  calls = WriterCall.node "t2" (file "c") ∷ [];
  failure = some integrity_error;
}

-- The tables after the first refresh.
filled : Tables Document
unfolding put_node put_edge
filled =
    put_edge documents "t1" (link "a" "b") scope
      (put_node documents "t1" (file "b") scope (put_node documents "t1" (file "a") scope empty))

-- What the tests run.
program : Unit {0}
unfolding run_refresh run_query scope_valid refresh_body purge_connection scope_evidence_ids
    scope_node_ids scope_edge_keys sorted keys values lookup select insert put_node put_edge
    read_node parse_node node_ok edges_query parse_all parse_edge is_sorted str_le load_node
    load_edge lstrip provenance_entries
program = tt

scope_is_valid : scope_valid scope ≡ true
unfolding scope_valid name_char
scope_is_valid = refl

-- A refresh of one scope, and of another scope with an edge to a node that is not there.
refresh_filled :
    (run_refresh documents scope first_script (opened "/repo" empty (rested empty))).1
    ≡ opened "/repo" filled (rested filled)
unfolding program filled
refresh_filled = refl

-- A query by way of an edge whose end is missing is refused by the subgraph's validator, though
-- the search passes over the missing node.
abbrev dangling : Tables Document
dangling =
    put_edge documents "t1" (link "a" "b") scope (put_node documents "t1" (file "a") scope empty)

query_dangling :
    run_query documents
      (query_subgraph ("a" ∷ []) (pos 1) none none (pos 10) (pos 10))
      (opened "/repo" dangling (rested dangling))
    ≡ some (err integrity_error)
unfolding program
query_dangling = refl

query_whole :
    (run_query documents
      (query_subgraph ("a" ∷ []) (pos 1) none none (pos 10) (pos 10))
      (opened "/repo" filled (rested filled)))
    ≡ some (
        ok (record {
          nodes = ("a", file "a") ∷ ("b", file "b") ∷ [];
          edges = link "a" "b" ∷ [];
          evidence = [];
        }))
unfolding program filled
query_whole = refl

empty-HasUniqueKeys : HasUniqueKeys empty
empty-HasUniqueKeys = record { node_keys = tt; edge_keys = tt; evidence_keys = tt }

empty-IsWellFormed : IsWellFormed documents empty
unfolding lookup
empty-IsWellFormed = record {
  node_keys = tt;
  edge_keys = tt;
  evidence_keys = tt;
  node_rows = λ k v e. absurd (cc);
  edge_rows = λ k v e. absurd (cc);
  evidence_rows = λ k v e. absurd (cc);
}

file-is_ok : (id : String) → node_ok (file id).provenance (file id).detail ≡ true
unfolding node_ok
file-is_ok id = refl

filled-IsWellFormed : IsWellFormed documents filled
unfolding filled
filled-IsWellFormed = put_edge-IsWellFormed documents "t1" (link "a" "b") scope _ (
    put_node-IsWellFormed documents "t1" (file "b") scope _ (file-is_ok "b") (
      put_node-IsWellFormed documents "t1" (file "a") scope empty (file-is_ok "a")
        empty-IsWellFormed))

abbrev calls : List StoreCall
calls =
    StoreCall.initialize_call "t0"
    ∷ StoreCall.refresh_call scope first_script
    ∷ StoreCall.delete_node_call "a"
    ∷ StoreCall.delete_edge_call ("x", depends_on, "y")
    ∷ StoreCall.purge_call scope
    ∷ []

serve-IsSound_example : IsSound documents (serve documents calls (store "/repo" empty none))
serve-IsSound_example =
    serve-IsSound documents calls (store "/repo" empty none)
      (tt, ((file-is_ok "a", (file-is_ok "b", (tt, tt))), (tt, (tt, (tt, tt)))))
      (record { file = empty-IsWellFormed; tables = tt })

get_node_outcomes_example :
    Outcome documents "a" filled
      (Store.get_node documents "a" (store "/repo" filled (some (rested filled)))).0
    × Ensures
        (IsValidNode "a")
        (Store.get_node documents "a" (store "/repo" filled (some (rested filled)))).0
    × ((Store.get_node documents "a" (store "/repo" filled (some (rested filled)))).1
        ≡ store "/repo" filled (some (rested filled)))
    × ((Store.get_node documents "a" (store "/repo" filled none)).0 ≡ err store_error)
get_node_outcomes_example =
    get_node_outcomes documents "a" "/repo" filled (rested filled) documents-IsFaithful
      (record { file = filled-IsWellFormed; tables = filled-IsWellFormed })

run_refresh-atomic_example :
    run_refresh documents scope failing_script (opened "/repo" filled (rested filled))
    ≡ (err integrity_error, opened "/repo" filled (rested filled))
run_refresh-atomic_example =
    run_refresh-atomic documents scope failing_script "/repo" filled integrity_error scope_is_valid
      refl

run_refresh-replaces_example :
    (seen : Seen) × (new : Tables Document) × (run_refresh documents scope first_script
        (opened "/repo" empty (rested empty))
      ≡ (ok seen, opened "/repo" new (rested new)))
    × RowsReplaced
        (λ r. r.scope)
        scope
        (node_rows documents scope first_script.calls)
        empty.nodes
        new.nodes
    × RowsReplaced
        (λ r. r.scope)
        scope
        (edge_rows documents scope first_script.calls)
        empty.edges
        new.edges
    × RowsReplaced
        (λ r. r.scope)
        scope
        (evidence_rows documents scope first_script.calls)
        empty.evidence
        new.evidence
    × SawRows seen.node_ids (node_rows documents scope first_script.calls)
    × SawRows seen.edge_keys (edge_rows documents scope first_script.calls)
    × SawRows seen.evidence_ids (evidence_rows documents scope first_script.calls)
run_refresh-replaces_example =
    run_refresh-replaces documents scope first_script "/repo" empty empty-HasUniqueKeys
      scope_is_valid refl

get_node-add_or_update_node_example :
    ((get_node documents "a" none
        (add_or_update_node documents "t"
          (file "a")
          scope
          (opened "/repo" empty (rested empty))).1).0
      ≡ (if ◌==◌ {A = String} "a" "a"
          then reread (file "a") (provenance_entries plain (file "a").provenance)
          else (get_node documents "a" none (opened "/repo" empty (rested empty))).0))
    × ((add_or_update_node documents "t" (file "a") scope (opened "/repo" empty (rested empty))).1
        ≡ opened "/repo"
            (put_node documents "t" (file "a") scope empty)
            (rested (put_node documents "t" (file "a") scope empty)))
get_node-add_or_update_node_example =
    get_node-add_or_update_node documents "/repo" "t" scope (file "a") empty (rested empty) "a"
      documents-IsFaithful scope_is_valid (file-is_ok "a")

run_refresh-remove_edge_missing_example :
    ((remove_edge ("x", depends_on, "y") (opened "/repo" empty (rested empty))).0
      ≡ err not_found_error)
    × ((run_refresh documents scope first_script
          (remove_edge ("x", depends_on, "y") (opened "/repo" empty (rested empty))).1).0
        ≡ err operational_error)
unfolding lookup
run_refresh-remove_edge_missing_example =
    run_refresh-remove_edge_missing documents "/repo" scope first_script ("x", depends_on, "y")
      empty scope_is_valid refl

run_refresh-remove_node_missing_example :
    ((remove_node "x" (opened "/repo" empty (rested empty))).0 ≡ err not_found_error)
    × ((run_refresh documents scope first_script
          (remove_node "x" (opened "/repo" empty (rested empty))).1).0
        ≡ err operational_error)
unfolding lookup referenced
run_refresh-remove_node_missing_example =
    run_refresh-remove_node_missing documents "/repo" scope first_script "x" empty scope_is_valid
      refl refl

query_subgraph_bfs-Answers_example :
    Answers
      (reader documents (opened "/repo" filled (rested filled)))
      (query_subgraph ("a" ∷ []) (pos 1) none none (pos 10) (pos 10))
      (query_subgraph_bfs
        (reader documents (opened "/repo" filled (rested filled)))
        (query_subgraph ("a" ∷ []) (pos 1) none none (pos 10) (pos 10)))
query_subgraph_bfs-Answers_example =
    query_subgraph_bfs-Answers (reader documents (opened "/repo" filled (rested filled)))
      (query_subgraph ("a" ∷ []) (pos 1) none none (pos 10) (pos 10))

scope_valid_iff_example : (scope_valid scope ≡ true) ↔ (
    (name profile : List ℕ) × (codes scope ≡ codes "provider:" ++ name ++ b':' ∷ profile)
    × (name ≢ [])
    × (profile ≢ [])
    × (all name_char name ≡ true)
    × (all name_char profile ≡ true))
scope_valid_iff_example = scope_valid_iff scope

query_components-OfListed_example :
    OfListed
      (pos 5)
      (list_nodes documents (some component) 5 (opened "/repo" filled (rested filled))).0
      (query_components documents (opened "/repo" filled (rested filled)) (pos 5))
query_components-OfListed_example =
    query_components-OfListed documents (opened "/repo" filled (rested filled)) (pos 5)
