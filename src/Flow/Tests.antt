-- ===== src/Flow/Tests.antt =====
-- Small bodies and their graphs. The modules below use each theorem once.
mod Reductions
mod Reducers
mod Searches
use aderyn.Prelude.{
  Option, none, some, [], ◌∷◌, ◌≡◌, refl, ap, subst, arith, if◌then◌else◌, ◌==◌, inl, inr,
  Bool-cases,
}
use aderyn.Prelude.Assoc.{lookup, insert}
use aderyn.Flow.Ast
use aderyn.Flow.Ast.{
  Statement, nil, cons, block_of, while_of, Context, Block, AstNode, block_node, while_node,
  Expression,
}
use aderyn.Flow.Node.{start_function_body, end_function_body, start_node, end_node, block}
use aderyn.Flow.Cfg.{
  Cfg, new, ◌>>=◌, ◌>>◌, pure, add_node, add_raw_node, add_flow_edge, add_raw_directed_edge,
  raw_successors, insert_start_end,
}
use aderyn.Flow.Cfg.Returns.{Returns, returns}
use aderyn.Flow.Cfg.Built.{Built}
use aderyn.Flow.Reduce.Work.{IsClosed, ChildrenHeld}
use aderyn.Flow.Reduce.Invariant.{IsReducing}
use aderyn.Flow.Build.{skeleton}
use aderyn.Flow.Build.Body.{body_template, skeleton-Built, Built-IsReducing}

-- { while (c) { break; } }
abbrev inner : Block
inner = block_of (cons (Statement.break_statement 4) nil) 3

abbrev condition : Expression
condition = record { node_id = some 9 }

abbrev the_while : Ast.WhileStatement
the_while = while_of condition (Ast.block_body inner) 2

abbrev outer : Block
outer = block_of (cons (Statement.while_statement the_while) nil) 1

abbrev sample : Context
sample i =
    if i == 1
    then some (block_node outer)
    else if i == 2
    then some (while_node the_while)
    else if i == 3
    then some (block_node inner)
    else none

or_else : AstNode → Option AstNode → AstNode
or_else n none = n
or_else n (some m) = m

some_injective : (m n : AstNode) → some m ≡ some n → m ≡ n
unfolding or_else
some_injective m n e = ap (or_else n) e

sample-IsClosed : IsClosed sample
sample-IsClosed i n e = elim (Bool-cases (i == 1)) [
  | inl a ↦ subst (ChildrenHeld sample) (some_injective _ n (rw a at e)) (refl, tt)
  | inr a ↦ elim (Bool-cases (i == 2)) [
    | inl b ↦ subst (ChildrenHeld sample) (some_injective _ n (rw (a, b) at e)) refl
    | inr b ↦ elim (Bool-cases (i == 3)) [
      | inl c ↦ subst (ChildrenHeld sample) (some_injective _ n (rw (a, b, c) at e)) (tt, tt)
      | inr c ↦ ground (arith, rw (a, b, c) at e)
    ]
  ]
]

-- the skeleton of that body
abbrev skeleton_graph : Cfg
skeleton_graph = record new {
  nodes =
      (0, record { id = 0; nd = start_node (start_function_body 7) })
      ∷ (1, record { id = 1; nd = end_node (end_function_body 7) })
      ∷ (2, record { id = 2; nd = block 1 })
      ∷ [];
  adj_list = (0, 2 ∷ []) ∷ (2, 1 ∷ []) ∷ [];
  next_available_id = 3;
  reduction_queue = 2 ∷ [];
  start_end_pairs = (0, 1) ∷ [];
}

skeleton_runs :
    skeleton
      (add_node (start_node (start_function_body 7)))
      (add_node (end_node (end_function_body 7)))
      outer
      new
    ≡ some ((0, 1), skeleton_graph)
unfolding skeleton ◌>>=◌ pure add_node add_raw_node lookup insert insert_start_end add_flow_edge
    add_raw_directed_edge raw_successors
skeleton_runs = refl

returned : {A : Type 0} {Q : A → Cfg → Type 0} {a : A} {g : Cfg} → Returns Q (some (a, g)) → Q a g
returned (returns q) = q

skeleton_graph-Built :
    Built new (body_template (start_function_body 7) (end_function_body 7) 1) skeleton_graph
skeleton_graph-Built =
    (returned (
      subst (Returns _) skeleton_runs
        (skeleton-Built (start_function_body 7) (end_function_body 7) outer))).1

skeleton_graph-IsReducing : IsReducing skeleton_graph
skeleton_graph-IsReducing = Built-IsReducing _ _ outer skeleton_graph skeleton_graph-Built
