-- ===== src/Flow/Reduce/Descriptor.antt =====
-- What step 5 of `Cfg::reduce` builds for each kind of reducible node.
use aderyn.Prelude.{ℕ, Option, none, some, ◌≡◌, refl, true}
use aderyn.Flow.Ast.{
  AstNode, if_node, while_node, for_node, do_while_node, if_of, while_of, for_of, do_while_of,
  Context, block_node, unchecked_block_node, other,
}
use aderyn.Flow.Node.{
  CfgNodeDescriptor, start_node, end_node, start_if, end_if, start_while, end_while, start_for,
  end_for, start_do_while, end_do_while, block, unchecked_block, if_statement, while_statement,
  for_statement, do_while_statement, is_reducible,
}
use aderyn.Flow.Cfg.{Cfg, add_node, ◌>>=◌, ◌>>◌, insert_start_end}
use aderyn.Flow.Cfg.Returns.{Returns}
use aderyn.Flow.Cfg.Template.{Template, with_edge, empty}
use aderyn.Flow.Cfg.Built.{Built-empty, IsFresh}
use aderyn.Flow.Cfg.Rules.{build_node, build_start_end}
use aderyn.Flow.Reducibles.{
  block_statements, unchecked_statements, reduce_if_statement, reduce_while_statement,
  reduce_for_statement, reduce_do_while_statement, skip,
}
use aderyn.Flow.Reducibles.Chain.{descriptor, body_statement}
use aderyn.Flow.Reducibles.Blocks.{
  Builds, ends_template, block_template, unchecked_template, reduce_block-Built,
  reduce_unchecked_block-Built, skip-Built,
}
use aderyn.Flow.Reducibles.If.{if_template, reduce_if_statement-Built}
use aderyn.Flow.Reducibles.While.{while_template, reduce_while_statement-Built}
use aderyn.Flow.Reducibles.For.{
  for_template, init_descriptor, cond_descriptor, loop_descriptor, reduce_for_statement-Built,
}
use aderyn.Flow.Reducibles.DoWhile.{do_while_template, reduce_do_while_statement-Built}
use aderyn.Flow.Reduce.{reduce_descriptor}

-- A start and an end with nothing between: the AST has no such statement.
abbrev pub missing_template : CfgNodeDescriptor → CfgNodeDescriptor → Template
missing_template s e = with_edge (ends_template s e) 0 1

abbrev if_node_template : ℕ → Option AstNode → Template
if_node_template id (some (if_node (if_of condition true_body false_body i))) =
    if_template id condition true_body false_body
if_node_template id _ = missing_template (start_node (start_if id)) (end_node (end_if id))

abbrev while_node_template : ℕ → Option AstNode → Template
while_node_template id (some (while_node (while_of condition body i))) =
    while_template id condition body
while_node_template id _ = missing_template (start_node (start_while id)) (end_node (end_while id))

abbrev for_node_template : ℕ → Option AstNode → Template
for_node_template id (some (for_node (for_of init condition exp body i))) =
    for_template id (init_descriptor init) (cond_descriptor condition) (loop_descriptor exp)
      (descriptor (body_statement body))
for_node_template id _ = missing_template (start_node (start_for id)) (end_node (end_for id))

abbrev do_while_node_template : ℕ → Option AstNode → Template
do_while_node_template id (some (do_while_node (do_while_of body condition i))) =
    do_while_template id body condition
do_while_node_template id _ =
    missing_template (start_node (start_do_while id)) (end_node (end_do_while id))

-- The template of a reducible node, from its statement in the AST.
abbrev pub template_of : Context → CfgNodeDescriptor → Template
template_of nodes (block id) = block_template id (block_statements (nodes id))
template_of nodes (unchecked_block id) = unchecked_template id (unchecked_statements (nodes id))
template_of nodes (if_statement id) = if_node_template id (nodes id)
template_of nodes (while_statement id) = while_node_template id (nodes id)
template_of nodes (for_statement id) = for_node_template id (nodes id)
template_of nodes (do_while_statement id) = do_while_node_template id (nodes id)
template_of nodes _ = empty

module _ (nodes : Context) (id : ℕ) (g : Cfg) (fresh : IsFresh g) where
  -- The methods agree where the AST has no such statement.
  missing-Built :
      (s e : CfgNodeDescriptor)
      → Returns (Builds g (missing_template s e)) (
          (add_node s >>= λ start_id.
          add_node e >>= λ end_id. insert_start_end start_id end_id >> skip start_id end_id)
            g)
  missing-Built s e =
      build_node (Built-empty g fresh) _ _
        λ _ b. build_node b _ _ λ _ b. build_start_end b 0 1 _ λ _ b. skip-Built b

  if_case :
      (o : Option AstNode)
      → nodes id ≡ o
      → Returns (Builds g (if_node_template id o)) (reduce_if_statement nodes id g)
  unfolding reduce_if_statement
  if_case (some (if_node (if_of condition true_body false_body i))) e =
      reduce_if_statement-Built nodes id i condition true_body false_body g e fresh
  if_case none e = rw e (missing-Built _ _)
  if_case (some (block_node b)) e = rw e (missing-Built _ _)
  if_case (some (unchecked_block_node b)) e = rw e (missing-Built _ _)
  if_case (some (while_node s)) e = rw e (missing-Built _ _)
  if_case (some (for_node s)) e = rw e (missing-Built _ _)
  if_case (some (do_while_node s)) e = rw e (missing-Built _ _)
  if_case (some other) e = rw e (missing-Built _ _)

  while_case :
      (o : Option AstNode)
      → nodes id ≡ o
      → Returns (Builds g (while_node_template id o)) (reduce_while_statement nodes id g)
  unfolding reduce_while_statement
  while_case (some (while_node (while_of condition body i))) e =
      reduce_while_statement-Built nodes id i condition body g e fresh
  while_case none e = rw e (missing-Built _ _)
  while_case (some (block_node b)) e = rw e (missing-Built _ _)
  while_case (some (unchecked_block_node b)) e = rw e (missing-Built _ _)
  while_case (some (if_node s)) e = rw e (missing-Built _ _)
  while_case (some (for_node s)) e = rw e (missing-Built _ _)
  while_case (some (do_while_node s)) e = rw e (missing-Built _ _)
  while_case (some other) e = rw e (missing-Built _ _)

  for_case :
      (o : Option AstNode)
      → nodes id ≡ o
      → Returns (Builds g (for_node_template id o)) (reduce_for_statement nodes id g)
  unfolding reduce_for_statement
  for_case (some (for_node (for_of init condition exp body i))) e =
      reduce_for_statement-Built nodes id i init condition exp body g e fresh
  for_case none e = rw e (missing-Built _ _)
  for_case (some (block_node b)) e = rw e (missing-Built _ _)
  for_case (some (unchecked_block_node b)) e = rw e (missing-Built _ _)
  for_case (some (if_node s)) e = rw e (missing-Built _ _)
  for_case (some (while_node s)) e = rw e (missing-Built _ _)
  for_case (some (do_while_node s)) e = rw e (missing-Built _ _)
  for_case (some other) e = rw e (missing-Built _ _)

  do_while_case :
      (o : Option AstNode)
      → nodes id ≡ o
      → Returns (Builds g (do_while_node_template id o)) (reduce_do_while_statement nodes id g)
  unfolding reduce_do_while_statement
  do_while_case (some (do_while_node (do_while_of body condition i))) e =
      reduce_do_while_statement-Built nodes id i body condition g e fresh
  do_while_case none e = rw e (missing-Built _ _)
  do_while_case (some (block_node b)) e = rw e (missing-Built _ _)
  do_while_case (some (unchecked_block_node b)) e = rw e (missing-Built _ _)
  do_while_case (some (if_node s)) e = rw e (missing-Built _ _)
  do_while_case (some (while_node s)) e = rw e (missing-Built _ _)
  do_while_case (some (for_node s)) e = rw e (missing-Built _ _)
  do_while_case (some other) e = rw e (missing-Built _ _)

-- Each reducible node gets the template of its statement.
pub reduce_descriptor-Built :
    (nodes : Context) (d : CfgNodeDescriptor) (g : Cfg)
    → is_reducible d ≡ true
    → IsFresh g
    → Returns (Builds g (template_of nodes d)) (reduce_descriptor nodes d g)
unfolding reduce_descriptor
reduce_descriptor-Built nodes (block id) g r fresh = reduce_block-Built nodes id g fresh
reduce_descriptor-Built nodes (unchecked_block id) g r fresh =
    reduce_unchecked_block-Built nodes id g fresh
reduce_descriptor-Built nodes (if_statement id) g r fresh = if_case nodes id g fresh (nodes id) refl
reduce_descriptor-Built nodes (while_statement id) g r fresh =
    while_case nodes id g fresh (nodes id) refl
reduce_descriptor-Built nodes (for_statement id) g r fresh =
    for_case nodes id g fresh (nodes id) refl
reduce_descriptor-Built nodes (do_while_statement id) g r fresh =
    do_while_case nodes id g fresh (nodes id) refl
reduce_descriptor-Built nodes d g r fresh = cc
