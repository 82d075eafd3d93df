-- ===== src/Graph/WellFormed/Reads.antt =====
-- What a read of a node finds in well-formed tables.
use code_suit.Base.{
  String, true, none, some, ◌≡◌, refl, ap, subst, string_eq, Option-cases, inl, inr, ◌⊎◌, ◌∙◌,
}
use code_suit.Base.Dict.{lookup}
use code_suit.Base.Result.{Result, err, Ensures}
use code_suit.Provenance.Entries.{provenance_entries}
use code_suit.Graph.Types.{GraphNode, GraphError, node_ok, not_found_error, store_error}
use code_suit.Graph.Rows.{Codec, IsFaithful, NodeRow, Tables, Connection, parse_node}
use code_suit.Graph.Tables.{read_node}
use code_suit.Graph.Store.{get_node}
use code_suit.Graph.WellFormed.{IsWellFormed}
use code_suit.Graph.WellFormed.Keeps.{store, IsSound}
use code_suit.Graph.WellFormed.Entries.{reread, validate_node-reread, reread-Ensures}

-- A read finds no row; or it finds the row of a valid node with the id, and returns that node with
-- the entries that the validators make of its own, or raises the validation error.
pub record IsRead {Json : Type 0} (codec : Codec Json) (id : String) (t : Tables Json)
    (r : Result GraphError GraphNode) : Type 0 where
  row : NodeRow Json
  found : lookup id t.nodes ≡ some row
  model : GraphNode
  key : model.id ≡ id
  valid : node_ok model.provenance model.detail ≡ true
  payload : row.payload_json ≡ codec.node_json model
  read : r ≡ reread model (provenance_entries codec.python model.provenance)

abbrev pub Outcome :
    {Json : Type 0} → Codec Json → String → Tables Json → Result GraphError GraphNode → Type 0
Outcome codec id t r =
    ((r ≡ err not_found_error) × (lookup id t.nodes ≡ none)) ⊎ IsRead codec id t r

abbrev pub IsValidNode : String → GraphNode → Type 0
IsValidNode id n = (n.id ≡ id) × (node_ok n.provenance n.detail ≡ true)

module _ {Json : Type 0} (codec : Codec Json) where
  pub parse_node-reread :
      (n : GraphNode)
      → IsFaithful codec
      → node_ok n.provenance n.detail ≡ true
      → parse_node codec (codec.node_json n)
        ≡ reread n (provenance_entries codec.python n.provenance)
  unfolding parse_node
  parse_node-reread n f valid =
      rw (parse_node, f.load_node_json n) (validate_node-reread codec.python n valid)

  read_node-Outcome :
      (id : String) (t : Tables Json)
      → IsFaithful codec
      → IsWellFormed codec t
      → Outcome codec id t (read_node codec t id) × Ensures (IsValidNode id) (read_node codec t id)
  unfolding read_node
  read_node-Outcome id t f w = elim (Option-cases (lookup id t.nodes)) [
    | inl absent ↦ (inl (rw (absent, read_node) refl, absent), rw (absent, Ensures) tt)
    | inr (row, present) ↦
        let stored = w.node_rows id row present in
        let model = stored.model in
        let read : parse_node codec row.payload_json
            ≡ reread model (provenance_entries codec.python model.provenance) =
          ap (parse_node codec) stored.payload ∙ parse_node-reread model f stored.valid in
        let is : read_node codec t id
            ≡ reread model (provenance_entries codec.python model.provenance) =
          rw (present, read_node) read in
        (
          inr (record {
            row = row;
            found = present;
            model = model;
            key = stored.key;
            valid = stored.valid;
            payload = stored.payload;
            read = is;
          }),
          rw is (
              subst
                (λ i.
                  Ensures (IsValidNode i)
                    (reread model (provenance_entries codec.python model.provenance)))
                stored.key (reread-Ensures codec.python model stored.valid)),
        )
  ]

  -- On a connected sound store, by a codec that gives back the fields that it dumped, a read of a
  -- node raises the not-found error where the connection sees no such row. Where it sees one, the
  -- row is the document of a valid node with that id, and the read returns this node with the
  -- entries that their validators make of its own, or raises the validation error where they refuse
  -- them. What is returned is a valid node with that id; the read changes nothing. On a store that
  -- is not connected it raises the store error.
  pub get_node_outcomes :
      (id root : String) (file : Tables Json) (c : Connection Json)
      → IsFaithful codec
      → IsSound codec (store root file (some c))
      → Outcome codec id c.tables (get_node codec id (store root file (some c))).0
        × Ensures (IsValidNode id) (get_node codec id (store root file (some c))).0
        × ((get_node codec id (store root file (some c))).1 ≡ store root file (some c))
        × ((get_node codec id (store root file none)).0 ≡ err store_error)
  unfolding get_node
  get_node_outcomes id root file c f h =
      let (outcome, valid) = read_node-Outcome id c.tables f h.tables in
      (outcome, valid, refl, refl)
