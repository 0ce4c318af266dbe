-- ===== src/Graph/New/Transposed.antt =====
-- `WorkspaceCallGraphs::build` keeps the outward graphs the reverses of the inward ones.
use aderyn.Prelude.{
  ℕ, Option, none, some, >>=-eq-some, List, [], ◌∷◌, ◌≡◌, refl, ◌∙◌, ◌==◌, Bool-cases, inl, inr,
  subst,
}
use aderyn.Prelude.Assoc.{lookup, lookup-insert}
use aderyn.Workspace.Ast.{ContractDefinition}
use aderyn.Workspace.Context.{WorkspaceContext, RawCallGraph, WorkspaceCallGraphs}
use aderyn.Router.Build.{deployable_contracts}
use aderyn.Graph.Reverse.{reverse}
use aderyn.Graph.New.{create_raw_callgraph, add_callgraphs, for_contracts, build}

abbrev pub reversed : Option RawCallGraph → Option RawCallGraph
reversed none = none
reversed (some g) = some (reverse g)

-- both maps have a graph for the same contracts, and one is the reverse of the other
abbrev IsTransposed : WorkspaceCallGraphs → Type 0
IsTransposed w =
    (id : ℕ) → lookup id w.outward_callgraphs ≡ reversed (lookup id w.inward_callgraphs)

add_callgraphs-IsTransposed :
    (c : ℕ) (g : Option RawCallGraph) (w : WorkspaceCallGraphs)
    → IsTransposed w
    → IsTransposed (add_callgraphs c g w)
unfolding add_callgraphs
add_callgraphs-IsTransposed c none w h id = h id
add_callgraphs-IsTransposed c (some g) w h id =
    lookup-insert c id (reverse g) w.outward_callgraphs
    ∙ rw (lookup-insert c id g w.inward_callgraphs)
        (elim (Bool-cases (c == id)) [ inl same ↦ rw same refl | inr other ↦ rw other (h id) ])

for_contracts-IsTransposed :
    (ctx : WorkspaceContext) (cs : List ContractDefinition) (w w' : WorkspaceCallGraphs)
    → IsTransposed w
    → for_contracts ctx cs w ≡ some w'
    → IsTransposed w'
unfolding for_contracts
for_contracts-IsTransposed ctx [] w w' h e = subst IsTransposed {x = w} {y = w'} (cc) h
for_contracts-IsTransposed ctx (c ∷ cs) w w' h e =
    let (g, run, e') = >>=-eq-some (create_raw_callgraph ctx c) _ e in
    for_contracts-IsTransposed ctx cs (add_callgraphs c.id g w) w'
      (add_callgraphs-IsTransposed c.id g w h) e'

-- Of the call graphs that `WorkspaceCallGraphs::build` returns, the outward graph of a contract is the
-- reverse of its inward graph, and where one of the two is missing so is the other.
pub build-reversed :
    (ctx : WorkspaceContext) (w : WorkspaceCallGraphs)
    → build ctx ≡ some w
    → (id : ℕ) → lookup id w.outward_callgraphs ≡ reversed (lookup id w.inward_callgraphs)
unfolding build
build-reversed ctx w e =
    for_contracts-IsTransposed ctx (deployable_contracts ctx)
      (record { inward_callgraphs = []; outward_callgraphs = [] }) w (λ id. unfold lookup in refl) e
