-- ===== src/Flow/Reduce/Fewer.antt =====
-- The nodes of a template take one reduction less than the node they replace.
use aderyn.Prelude.{ℕ, suc, Option, none, some, List, ◌≡◌, refl, arith, true}
use aderyn.Flow.Ast.{
  no_body, some_body, block_of, unchecked_of, if_of, while_of, for_of, do_while_of, AstNode,
  block_node, unchecked_block_node, if_node, while_node, for_node, do_while_node, other, Context,
  Expression, LoopInit, init_expression, init_variable_declaration,
}
use aderyn.Flow.Node
use aderyn.Flow.Node.{
  CfgNodeDescriptor, CfgStartNode, CfgEndNode, start_node, end_node, is_reducible,
}
use aderyn.Flow.Reducibles.For.{part, init_descriptor, cond_descriptor, loop_descriptor}
use aderyn.Flow.Reduce.Work.{
  cost_block, cost_unchecked, cost_optional, cost_if, cost_while, cost_for, cost_do_while, IsClosed,
  work, works, work-body, works-chained,
}
use aderyn.Flow.Reduce.Descriptor.{template_of}

-- The parts of a `for` besides the body take none.
module _ (nodes : Context) (s : CfgStartNode) (e : CfgEndNode) (rest : List CfgNodeDescriptor) where
  works-init :
      (o : Option LoopInit)
      → works nodes (part (start_node s) (end_node e) (init_descriptor o) rest) ≡ works nodes rest
  works-init none = omega arith
  works-init (some (init_expression i)) = omega arith
  works-init (some (init_variable_declaration i)) = omega arith

  works-cond :
      (o : Option Expression)
      → works nodes (part (start_node s) (end_node e) (cond_descriptor o) rest) ≡ works nodes rest
  works-cond none = omega arith
  works-cond (some c) = omega arith

  works-loop :
      (o : Option ℕ)
      → works nodes (part (start_node s) (end_node e) (loop_descriptor o) rest) ≡ works nodes rest
  works-loop none = omega arith
  works-loop (some i) = omega arith

module _ (nodes : Context) (closed : IsClosed nodes) where
  -- one equation for each kind of node; `o` is what the AST has
  abbrev Fewer : CfgNodeDescriptor → Type 0
  Fewer d = suc (works nodes (template_of nodes d).nodes) ≡ work nodes d

  block-Fewer : (i : ℕ) (o : Option AstNode) → nodes i ≡ o → Fewer (Node.block i)
  unfolding cost_block
  block-Fewer i (some (block_node (block_of ss j))) e =
      let h = closed i _ e in rw e (omega (arith, works-chained nodes _ 0 ss h))
  block-Fewer i none e = rw e (omega arith)
  block-Fewer i (some (unchecked_block_node b)) e = rw e (omega arith)
  block-Fewer i (some (if_node b)) e = rw e (omega arith)
  block-Fewer i (some (while_node b)) e = rw e (omega arith)
  block-Fewer i (some (for_node b)) e = rw e (omega arith)
  block-Fewer i (some (do_while_node b)) e = rw e (omega arith)
  block-Fewer i (some other) e = rw e (omega arith)

  unchecked-Fewer : (i : ℕ) (o : Option AstNode) → nodes i ≡ o → Fewer (Node.unchecked_block i)
  unfolding cost_unchecked
  unchecked-Fewer i (some (unchecked_block_node (unchecked_of ss j))) e =
      let h = closed i _ e in rw e (omega (arith, works-chained nodes _ 0 ss h))
  unchecked-Fewer i none e = rw e (omega arith)
  unchecked-Fewer i (some (block_node b)) e = rw e (omega arith)
  unchecked-Fewer i (some (if_node b)) e = rw e (omega arith)
  unchecked-Fewer i (some (while_node b)) e = rw e (omega arith)
  unchecked-Fewer i (some (for_node b)) e = rw e (omega arith)
  unchecked-Fewer i (some (do_while_node b)) e = rw e (omega arith)
  unchecked-Fewer i (some other) e = rw e (omega arith)

  if-Fewer : (i : ℕ) (o : Option AstNode) → nodes i ≡ o → Fewer (Node.if_statement i)
  unfolding cost_if cost_optional
  if-Fewer i (some (if_node (if_of c t no_body j))) e =
      let h = closed i _ e in rw e (omega (arith, work-body nodes t h.0))
  if-Fewer i (some (if_node (if_of c t (some_body f) j))) e =
      let h = closed i _ e in rw e (omega (arith, work-body nodes t h.0, work-body nodes f h.1))
  if-Fewer i none e = rw e (omega arith)
  if-Fewer i (some (block_node b)) e = rw e (omega arith)
  if-Fewer i (some (unchecked_block_node b)) e = rw e (omega arith)
  if-Fewer i (some (while_node b)) e = rw e (omega arith)
  if-Fewer i (some (for_node b)) e = rw e (omega arith)
  if-Fewer i (some (do_while_node b)) e = rw e (omega arith)
  if-Fewer i (some other) e = rw e (omega arith)

  while-Fewer : (i : ℕ) (o : Option AstNode) → nodes i ≡ o → Fewer (Node.while_statement i)
  unfolding cost_while
  while-Fewer i (some (while_node (while_of c b j))) e =
      let h = closed i _ e in rw e (omega (arith, work-body nodes b h))
  while-Fewer i none e = rw e (omega arith)
  while-Fewer i (some (block_node b)) e = rw e (omega arith)
  while-Fewer i (some (unchecked_block_node b)) e = rw e (omega arith)
  while-Fewer i (some (if_node b)) e = rw e (omega arith)
  while-Fewer i (some (for_node b)) e = rw e (omega arith)
  while-Fewer i (some (do_while_node b)) e = rw e (omega arith)
  while-Fewer i (some other) e = rw e (omega arith)

  for-Fewer : (i : ℕ) (o : Option AstNode) → nodes i ≡ o → Fewer (Node.for_statement i)
  unfolding cost_for
  for-Fewer i (some (for_node (for_of n c x b j))) e =
      let h = closed i _ e in
      rw e (
        omega (
          arith,
          work-body nodes b h,
          works-init nodes _ _ _ n,
          works-cond nodes _ _ _ c,
          works-loop nodes _ _ _ x,
        ))
  for-Fewer i none e = rw e (omega arith)
  for-Fewer i (some (block_node b)) e = rw e (omega arith)
  for-Fewer i (some (unchecked_block_node b)) e = rw e (omega arith)
  for-Fewer i (some (if_node b)) e = rw e (omega arith)
  for-Fewer i (some (while_node b)) e = rw e (omega arith)
  for-Fewer i (some (do_while_node b)) e = rw e (omega arith)
  for-Fewer i (some other) e = rw e (omega arith)

  do_while-Fewer : (i : ℕ) (o : Option AstNode) → nodes i ≡ o → Fewer (Node.do_while_statement i)
  unfolding cost_do_while
  do_while-Fewer i (some (do_while_node (do_while_of b c j))) e =
      let h = closed i _ e in rw e (rw h (omega arith))
  do_while-Fewer i none e = rw e (omega arith)
  do_while-Fewer i (some (block_node b)) e = rw e (omega arith)
  do_while-Fewer i (some (unchecked_block_node b)) e = rw e (omega arith)
  do_while-Fewer i (some (if_node b)) e = rw e (omega arith)
  do_while-Fewer i (some (while_node b)) e = rw e (omega arith)
  do_while-Fewer i (some (for_node b)) e = rw e (omega arith)
  do_while-Fewer i (some other) e = rw e (omega arith)

  pub template_of-Fewer : (d : CfgNodeDescriptor) → is_reducible d ≡ true → Fewer d
  template_of-Fewer (Node.block i) r = block-Fewer i (nodes i) refl
  template_of-Fewer (Node.unchecked_block i) r = unchecked-Fewer i (nodes i) refl
  template_of-Fewer (Node.if_statement i) r = if-Fewer i (nodes i) refl
  template_of-Fewer (Node.while_statement i) r = while-Fewer i (nodes i) refl
  template_of-Fewer (Node.for_statement i) r = for-Fewer i (nodes i) refl
  template_of-Fewer (Node.do_while_statement i) r = do_while-Fewer i (nodes i) refl
  template_of-Fewer d r = cc
