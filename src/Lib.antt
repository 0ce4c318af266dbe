-- ===== src/Lib.antt =====
-- Verification of aderyn, a static analyser for Solidity: the control flow graph and the call graphs
-- that its detectors walk, the router that says which definition a call runs, and the statistics of the
-- source files that its reports give.
--
-- The parts.
--
-- The control flow graph of a body (aderyn_core/src/context/flow.rs and flow/) starts as a skeleton:
-- a start node, the block of the body, an end node. `add_node` queues each node that stands for a
-- statement with an inside, and the loop of `from_function_body` and `from_modifier_body` takes such a
-- node off the queue and puts a small graph in its place, whose nodes may be queued in turn. When the
-- queue is empty, the jumps are calibrated: each `break`, `continue` and `return` gets the one
-- successor that it leads to.
--
--   Flow/Ast         the statements of ast/ast_nodes.rs, as far as the graph reads them; an expression
--                    is the id that `Expression::get_node_id` gives
--   Flow/Node        `CfgStartNode`, `CfgEndNode` (voids.rs), `CfgNodeDescriptor`, `CfgNode` (flow.rs)
--                    and `kind` (kind.rs); a primitive or reducible keeps the id of its statement
--   Flow/Cfg         the record `Cfg` and the methods on its edges and nodes. A method that mutates the
--                    graph is a function from a graph to an optional result and graph: `none` is a
--                    panic, or fuel that has run out. A hash map is an association list with one
--                    entry for a key; the theorems ask for the entries by key, and for edges by a test
--   Flow/Voids, Flow/Primitives, Flow/Reducibles
--                    one function for each method of the file of that name
--   Flow/Reduce      `Cfg::reduce` and the reduction loop, `reduce_all`
--   Flow/Jumps       `discover_jump_sources`, `find_jump_dest` and `calibrate` (utils.rs), and
--                    `calibrate_jump_statements_in_body` (flow.rs)
--   Flow/Build       `from_function_body` and `from_modifier_body`
--   Flow/Reflect     `reflect` (utils.rs) and `CfgNode::children` (flow.rs)
--
-- The workspace (aderyn_core/src/context/workspace.rs) holds the nodes of all files by id, with links to
-- their parents. The router (context/router.rs and router/) has for each deployable contract three tables:
-- where an internal call, a modifier and an external call lead when that contract runs. The call graphs
-- (context/graph.rs and graph/) are built from it, one for each deployable contract and its reverse; an
-- older one for the whole workspace takes calls by the declaration they refer to. A `CallGraphConsumer`
-- has points that it derives from some nodes, and takes a visitor along the graphs from these.
--
--   Workspace/Ast        the declarations and calls of ast/ast_nodes.rs and the methods of
--                        ast/impls/own/utils.rs on them. A node carries what the extractors of
--                        ast/extract.rs collect from it. An id is only ever compared, so it is a
--                        number that stands for the signed one
--   Workspace/TextMap    a map with keys that are texts, filled where it is vacant
--   Workspace/Context    the record `WorkspaceContext`, the tables in it, and the linearised order of a
--                        contract: `c3`, `next_in` and `is_in` of ast/impls/ctx/utils.rs
--   Workspace/Ancestors  the walks along the parents: ast/impls/ctx/getters.rs and context/browser
--   Workspace/Location   where a node stands in its file: the sort key and the comparison of two nodes in
--                        ast/impls/ctx/getters.rs, `source_line`, and context/browser/location.rs
--   Workspace/Siblings   children, sort by position and siblings: context/browser/immediate_children.rs,
--                        sort_nodes.rs and siblings.rs
--   Workspace/Peek       slices of the source text: context/browser/peek.rs, peek_over.rs, peek_under.rs
--   Router/Suspects      what a call refers to by its declaration (ast/impls/ctx/utils.rs)
--   Router/Build         the three tables, and `Router::build`
--   Router/Resolve       the lookups; Router/Ask the methods of `WorkspaceContext` that ask the router
--   Graph/Raw            connections and nodes of a `RawCallGraph`; Graph/Reverse its `reverse`
--   Graph/Search         the state of a search and what both ways to build a graph aim at
--   Graph/Legacy         `from_context` and `dfs_to_create_graph` (preprocess/legacy.rs)
--   Graph/New            `WorkspaceCallGraphs::build` and `_create_raw_callgraph` (preprocess/new.rs)
--   Graph/Consumer       the consumer, its errors and its visitor (graph.rs, callgraph.rs, traits.rs)
--   Graph/Visit          `_accept` and the visits (callgraph/visit.rs)
--   Graph/Surface        the points (callgraph/legacy.rs, callgraph/new.rs, callgraph/utils.rs)
--
-- The statistics (aderyn_core/src/stats.rs and stats/) read a source file once: `tokenize` cuts it into
-- comments, quoted code and other code, `count_code_lines` counts the lines with code, and
-- `get_lines_to_ignore` reads the markers in the comments.
--
--   Stats/Text          what is used of `str`; a text is the list of its code points
--   Stats/CodeIterator  the iterator of stats/util.rs
--   Stats/Token         `tokenize` of stats/token.rs
--   Stats/Insight       the insights, groups and contributions of stats/token.rs
--   Stats/Cloc          `count_code_lines` of stats/cloc.rs
--   Stats/Ignore        `get_lines_to_ignore` of stats/ignore.rs; what the regular expression captures
--                       is a parameter, since it is another package's
--   Stats/Collect       `get_stats` of stats.rs
--
-- Prelude has the tests, lists, association lists and integers that the parts share, the paths in a graph
-- (Leads) and the measure by which a search ends (Unvisited). The tests and one use of each theorem are
-- below Flow/Tests, and in Stats/Tests, Workspace/Tests, Router/Tests and Graph/Tests.
--
-- How the proofs go. A reducer is proved to build a template (Flow/Cfg/Template): the nodes, edges and
-- lookup entries by numbers that are counted from the next free id. Flow/Cfg/Rules has one rule for
-- each operation of a reducer, so that a reducer's proof is the list of its operations. In Flow/Reduce,
-- Replace proves from these that `reduce` replaces a node by its template; Invariant, Work, Shape and
-- Path prove what a replacement keeps, and Total and Flow/Build/Body put the loop together.
--
-- The call graphs. A search is proved to be done from its roots (Graph/Search): it has visited what they
-- lead to, and connected each visited node to what it uses. Graph/Visit/Order proves that a visit along a
-- graph is a run of calls in one order, whatever the visitor does, and Graph/Visit/Accept puts the three
-- searches together. The lookups along the parents end where the links do not go round, which Graph/New
-- and Graph/Surface take as a hypothesis (`IsForest`).
--
-- Bounds. `reduce_all` has fuel for each turn; a turn takes exactly one reduction off the work that the
-- queue stands for (`queue_work`), so the number of reducible statements of the body is enough. The
-- loops of `tokenize` have one more than the characters of the text, since each round reads one. The
-- searches of Flow/Jumps have one more than the nodes of the graph, since each call visits a new node;
-- so do those of Graph/Legacy and Graph/Visit. The stack of Graph/New has one more round than the nodes have
-- calls, and a walk along the parents one more step than there are links.
-- Ids, lines and counts are natural numbers: they count nodes in memory and lines of a file, far below
-- the 64 bits of `usize`. Where the source subtracts, the model has `none` for a result below 0.
-- An offset in a file is parsed as a `usize`: one of 2 ^ 64 or more is not read, and a sum of two offsets
-- that reaches it is a panic, as it is in a debug build.
--
-- Not modelled. The visitors of the AST, which macros generate, and so how the workspace and the lists of
-- the extractors are filled; the detectors, the two files of the browser that
-- ask visitors (storage_vars.rs and external_calls.rs), the driver and the command line; the
-- display of graphs; `collect_stats`, which reads the files of a workspace in parallel. The tables of the
-- router are built in parallel by the code and in order by the model: they do not depend on one another.
-- A hash map or set is walked in some order, and the model walks it in the order of insertion.
-- The sort of the standard library is an insertion sort, which like it keeps the order of equal nodes.
-- That the lookup maps of a reduced graph have what `find_jump_dest` asks for is not proved: its theorem
-- takes it as a hypothesis.
pub mod Prelude
pub mod Stats
pub mod Workspace
pub mod Graph
pub mod Router
pub mod Flow
