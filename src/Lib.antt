-- ===== src/Lib.antt =====
-- The verification library of code-suit.
--
-- code-suit reads a repository by its providers (npm, Go, Python and others), keeps what they find
-- in a graph of nodes, edges and evidence in an SQLite file, and answers an agent's questions from
-- it over MCP. The parts that are modelled, and the file that models each:
--
--   src/suitcode/core/models/graph_types.py, nodes.py, edges.py, errors.py
--     Graph/Types: the kinds, the ten node classes with their validators, evidence, edges, and the
--     exceptions, which are the data type GraphError.
--   src/suitcode/core/models/serialization.py and parse_node
--     Graph/Rows: JSON is a parameter, the record Codec, since pydantic, json and hashlib are not
--     code of the repository. IsFaithful states that loading gives back the fields that were dumped.
--     The validators of the repository run on these fields: validate_node, and for the entries of
--     the provenance Provenance/Entries.
--   src/suitcode/core/models/store (sqlite_store.py, migrations.py, interfaces.py)
--     Graph/Tables: the tables as dictionaries by primary key, and one function per SQL statement.
--     Graph/Store: SQLiteGraphStore. A Store is the committed file and an optional connection; the
--     connection sees its own tables, and knows whether it is in a transaction. sqlite3 opens one
--     before an INSERT, UPDATE or DELETE; BEGIN IMMEDIATE inside one is an operational error; a
--     commit makes the file the connection's tables, a rollback the reverse. An operation is a
--     function from a store to a result and a store: what raises keeps what it changed.
--     Graph/WellFormed: the invariant of the tables, kept by every operation.
--   src/suitcode/core/models/provider_contract.py
--     Graph/Scope: the regular expression of a scope as a matcher over characters.
--   src/suitcode/core/models/update.py
--     Graph/Update: GraphWriter and run_refresh. A provider's callback is the list of the calls that
--     it makes on the writer, and the exception that it ends with, if any.
--   src/suitcode/core/models/subgraph.py, queries.py
--     Graph/Subgraph, Graph/Query: the breadth-first search, over any store that answers reads. Its
--     loop runs on fuel, max_nodes rounds: a round takes one id off the queue, an id enters the
--     queue once and with its node, and more nodes than max_nodes raise.
--   src/suitcode/core/models/workspace_graph.py
--     Graph/Workspace: the operations that commit one at a time, and the queries by id.
--     Graph/Workspace/Components: the queries by component and by name. LIKE is a parameter.
--   src/suitcode/core/provenance.py, provenance_summary.py
--     Provenance: the entries of a node's provenance and how several are summarized.
--   src/suitcode/core/tests (test_intelligence.py, provenance.py, models.py), core/validation.py
--     Testing: the tests that the providers find, with the two caches of TestIntelligence;
--     Testing/Runs: a run of several tests, grouped by provider. A provider is a record of its
--     answers. Validation: the checks of a caller's arguments.
--   src/suitcode/core/minimum_verified_change_set_service.py, minimum_verified_change_set_models.py
--     Change: the models; Change/Evidence: the items with their proof; Change/Quality: the quality
--     operations; Change/Resolve: the target and the candidates; Change/Minimize: which tests and,
--     in Change/Minimize/Builds, which builds are enough; Change/Surfaces and Change/Explain: why
--     there are no tests; Change/Plan: get_minimum_verified_change_set. The repository is the record
--     Repository of what the service asks of it; any answer may be an exception.
--   src/suitcode/core/workspace.py, repository.py (root_candidate), src/suitcode/mcp/state.py
--     Workspaces: the root of a repository, workspaces and the ids of their repositories; the search
--     for an id runs on fuel, one round more than there are ids. Workspaces/Registry:
--     WorkspaceRegistry. The file system is the record Disk, given to each call, so that it may
--     change from call to call. A call holds the registry's lock and is one step.
--   src/suitcode/core/ownership_index.py
--     Ownership: the index of owners and files.
--   src/suitcode/analytics/inefficiency.py
--     Analytics: the findings on wasteful sequences of recorded calls.
--   src/suitcode/core/models/ids.py
--     Ids: relative paths. strip, PurePosixPath and lower are the record Python of parameters.
--   src/suitcode/mcp/pagination.py
--     Mcp/Pagination: the pages of a list result.
--   src/suitcode/runtime/coordinator.py (_ManagedLspSession)
--     Runtime/Session, Runtime/Warm: one language server's session. An operation is a function of
--     the session, the clock's readings and what the server answers. Runtime/Probe: which symbol the
--     warm-up asks about. Runtime/Consistent: the invariant. The operations run one after the other;
--     warm, which gives up the lock between its steps, is also tested with a shutdown among them.
--     Runtime/Coordinator: the state that is published for the sessions.
--
-- Strings are sorted by their character codes (Base/Order), as Python does; an id's kind is sorted
-- by its value. Times and hashes are strings that the model is given. Base holds the lists, the
-- dictionaries, the integers and the result monad that the parts share.
--
-- Not modelled: the table of runs, which nothing uses; a second process on the same file; the
-- choice of the file that a warm-up asks about; get_related_tests; the registry of read-only
-- repositories, which compares times and sizes of files; the providers, the language servers' protocol,
-- the other analytics and the evaluation, which read the files and logs of other programs.
pub mod Analytics
pub mod Base
pub mod Change
pub mod Graph
pub mod Ids
pub mod Mcp
pub mod Ownership
pub mod Provenance
pub mod Runtime
pub mod Testing
pub mod Validation
pub mod Workspaces
