-- ===== src/Flow/Reduce/Work.antt =====
-- How many reductions a reducible node takes: one for each reducible statement in it.
use aderyn.Prelude.{ℕ, suc, ◌+◌, Option, some, List, [], ◌∷◌, ◌++◌, ◌≡◌, refl, arith}
use aderyn.Flow.Ast.{
  Statement, Statements, nil, cons, Block, block_of, UncheckedBlock, unchecked_of, Body, block_body,
  statement_body, OptionalBody, no_body, some_body, if_of, while_of, for_of, do_while_of, AstNode,
  block_node, unchecked_block_node, if_node, while_node, for_node, do_while_node, other, Context,
  block_id, unchecked_id, if_id, while_id, for_id, do_while_id, IfStatement, WhileStatement,
  ForStatement, DoWhileStatement,
}
use aderyn.Flow.Node
use aderyn.Flow.Node.{CfgNodeDescriptor, is_reducible}
use aderyn.Flow.Cfg.Template.{Template, with_desc, with_edge}
use aderyn.Flow.Reducibles.Chain.{descriptor, body_statement, chained}

unfoldable mutual
  pub cost : Statement → ℕ
  cost (Statement.block b) = cost_block b
  cost (Statement.unchecked_block b) = cost_unchecked b
  cost (Statement.if_statement s) = cost_if s
  cost (Statement.while_statement s) = cost_while s
  cost (Statement.for_statement s) = cost_for s
  cost (Statement.do_while_statement s) = cost_do_while s
  cost s = 0

  pub cost_all : Statements → ℕ
  cost_all nil = 0
  cost_all (cons s ss) = cost s + cost_all ss

  pub cost_block : Block → ℕ
  cost_block (block_of ss i) = suc (cost_all ss)

  pub cost_unchecked : UncheckedBlock → ℕ
  cost_unchecked (unchecked_of ss i) = suc (cost_all ss)

  pub cost_body : Body → ℕ
  cost_body (block_body b) = cost_block b
  cost_body (statement_body s) = cost s

  pub cost_optional : OptionalBody → ℕ
  cost_optional no_body = 0
  cost_optional (some_body b) = cost_body b

  pub cost_if : IfStatement → ℕ
  cost_if (if_of c t f i) = suc (cost_body t + cost_optional f)

  pub cost_while : WhileStatement → ℕ
  cost_while (while_of c b i) = suc (cost_body b)

  pub cost_for : ForStatement → ℕ
  cost_for (for_of n c e b i) = suc (cost_body b)

  pub cost_do_while : DoWhileStatement → ℕ
  cost_do_while (do_while_of b c i) = suc (cost_block b)

-- The map of the AST has the reducible statement under its id.
abbrev pub Held : Context → Statement → Type 0
Held nodes (Statement.block b) = nodes (block_id b) ≡ some (block_node b)
Held nodes (Statement.unchecked_block b) = nodes (unchecked_id b) ≡ some (unchecked_block_node b)
Held nodes (Statement.if_statement s) = nodes (if_id s) ≡ some (if_node s)
Held nodes (Statement.while_statement s) = nodes (while_id s) ≡ some (while_node s)
Held nodes (Statement.for_statement s) = nodes (for_id s) ≡ some (for_node s)
Held nodes (Statement.do_while_statement s) = nodes (do_while_id s) ≡ some (do_while_node s)
Held nodes s = Unit

abbrev pub AllHeld : Context → Statements → Type 0
AllHeld nodes nil = Unit
AllHeld nodes (cons s ss) = Held nodes s × AllHeld nodes ss

abbrev pub OptionalHeld : Context → OptionalBody → Type 0
OptionalHeld nodes no_body = Unit
OptionalHeld nodes (some_body b) = Held nodes (body_statement b)

-- It has the statements directly below a node.
abbrev pub ChildrenHeld : Context → AstNode → Type 0
ChildrenHeld nodes (block_node (block_of ss i)) = AllHeld nodes ss
ChildrenHeld nodes (unchecked_block_node (unchecked_of ss i)) = AllHeld nodes ss
ChildrenHeld nodes (if_node (if_of c t f i)) = Held nodes (body_statement t) × OptionalHeld nodes f
ChildrenHeld nodes (while_node (while_of c b i)) = Held nodes (body_statement b)
ChildrenHeld nodes (for_node (for_of n c e b i)) = Held nodes (body_statement b)
ChildrenHeld nodes (do_while_node (do_while_of b c i)) = Held nodes (Statement.block b)
ChildrenHeld nodes other = Unit

abbrev pub IsClosed : Context → Type 0
IsClosed nodes = (i : ℕ) (n : AstNode) → nodes i ≡ some n → ChildrenHeld nodes n

abbrev block_work : Option AstNode → ℕ
block_work (some (block_node b)) = cost_block b
block_work _ = 1

abbrev unchecked_work : Option AstNode → ℕ
unchecked_work (some (unchecked_block_node b)) = cost_unchecked b
unchecked_work _ = 1

abbrev if_work : Option AstNode → ℕ
if_work (some (if_node s)) = cost_if s
if_work _ = 1

abbrev while_work : Option AstNode → ℕ
while_work (some (while_node s)) = cost_while s
while_work _ = 1

abbrev for_work : Option AstNode → ℕ
for_work (some (for_node s)) = cost_for s
for_work _ = 1

abbrev do_while_work : Option AstNode → ℕ
do_while_work (some (do_while_node s)) = cost_do_while s
do_while_work _ = 1

-- The reductions that a node takes; a statement that the AST lacks takes one.
abbrev pub work : Context → CfgNodeDescriptor → ℕ
work nodes (Node.block i) = block_work (nodes i)
work nodes (Node.unchecked_block i) = unchecked_work (nodes i)
work nodes (Node.if_statement i) = if_work (nodes i)
work nodes (Node.while_statement i) = while_work (nodes i)
work nodes (Node.for_statement i) = for_work (nodes i)
work nodes (Node.do_while_statement i) = do_while_work (nodes i)
work nodes d = 0

abbrev pub works : Context → List CfgNodeDescriptor → ℕ
works nodes [] = 0
works nodes (d ∷ ds) = work nodes d + works nodes ds

pub work-descriptor :
    (nodes : Context) (s : Statement) → Held nodes s → work nodes (descriptor s) ≡ cost s
unfolding cost
work-descriptor nodes (Statement.block b) h = rw h refl
work-descriptor nodes (Statement.unchecked_block b) h = rw h refl
work-descriptor nodes (Statement.if_statement b) h = rw h refl
work-descriptor nodes (Statement.while_statement b) h = rw h refl
work-descriptor nodes (Statement.for_statement b) h = rw h refl
work-descriptor nodes (Statement.do_while_statement b) h = rw h refl
work-descriptor nodes s h = refl

pub work-body :
    (nodes : Context) (b : Body)
    → Held nodes (body_statement b)
    → work nodes (descriptor (body_statement b)) ≡ cost_body b
unfolding cost_body
work-body nodes (block_body b) h = rw h refl
work-body nodes (statement_body s) h = work-descriptor nodes s h

works-append :
    (nodes : Context) (ds es : List CfgNodeDescriptor)
    → works nodes (ds ++ es) ≡ works nodes ds + works nodes es
works-append nodes [] es = omega arith
works-append nodes (d ∷ ds) es = omega (arith, works-append nodes ds es)

pub works-chained :
    (nodes : Context) (t : Template) (last : ℕ) (ss : Statements)
    → AllHeld nodes ss
    → works nodes (chained t last ss).nodes ≡ works nodes t.nodes + cost_all ss
unfolding cost_all
works-chained nodes t last nil h = omega arith
works-chained nodes t last (cons s ss) h = omega (
  arith,
  works-chained nodes (with_edge (with_desc t (descriptor s)) last _) _ ss h.1,
  works-append nodes t.nodes (descriptor s ∷ []),
  work-descriptor nodes s h.0,
)
