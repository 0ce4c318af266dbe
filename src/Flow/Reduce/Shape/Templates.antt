-- ===== src/Flow/Reduce/Shape/Templates.antt =====
-- The shape of the template of each reducible node.
use aderyn.Prelude.{
  ℕ, Bool, true, ◌&&◌, Option, none, some, List, [], ◌∷◌, ◌≡◌, refl, arith, length, ltb, ltb→lt,
}
use aderyn.Flow.Ast.{
  no_body, some_body, if_of, while_of, for_of, do_while_of, AstNode, block_node,
  unchecked_block_node, if_node, while_node, for_node, do_while_node, other, Context,
}
use aderyn.Flow.Node
use aderyn.Flow.Node.{CfgNodeDescriptor, is_reducible}
use aderyn.Flow.Cfg.Template.{Template}
use aderyn.Flow.Reducibles.{block_statements, unchecked_statements}
use aderyn.Flow.Reducibles.For.{for_template}
use aderyn.Flow.Reduce.Descriptor.{template_of, missing_template}
use aderyn.Prelude.Leads.{Leads, here, step}
use aderyn.Flow.Reduce.Shape.{joins, InRange, Wired, row_template-Wired}

abbrev in_range_test : ℕ → List (ℕ × ℕ) → Bool
in_range_test n [] = true
in_range_test n ((i, j) ∷ es) = (ltb i n && ltb j n) && in_range_test n es

in_range_test-InRange : (n : ℕ) (es : List (ℕ × ℕ)) → in_range_test n es ≡ true → InRange n es
in_range_test-InRange n [] h = tt
in_range_test-InRange n ((i, j) ∷ es) h = (ground arith, in_range_test-InRange n es (ground arith))

-- a template that is written out
wired :
    {t : Template}
    → in_range_test (length t.nodes) t.edges ≡ true
    → ltb 1 (length t.nodes) ≡ true
    → Leads (joins t.edges) 0 1
    → Wired t
wired {t} h e p = record {
  in_range = in_range_test-InRange (length t.nodes) t.edges h;
  ends = ltb→lt 1 _ e;
  through = p;
}

abbrev HasWired : Context → CfgNodeDescriptor → Type 0
HasWired nodes d = Wired (template_of nodes d)

missing-Wired : (s e : CfgNodeDescriptor) → Wired (missing_template s e)
missing-Wired s e = wired refl refl (step refl here)

for-Wired :
    (id : ℕ) (n c x : Option CfgNodeDescriptor) (b : CfgNodeDescriptor)
    → Wired (for_template id n c x b)
for-Wired id none none none b =
    wired refl refl (
      step {b = 2} refl
        (step {b = 3} refl (step {b = 4} refl (step {b = 5} refl (step refl here)))))
for-Wired id none none (some x) b =
    wired refl refl (
      step {b = 2} refl
        (step {b = 3} refl (step {b = 4} refl (step {b = 5} refl (step refl here)))))
for-Wired id none (some c) none b = wired refl refl (
    step {b = 2} refl (
      step {b = 3} refl
        (step {b = 4} refl (step {b = 6} refl (step {b = 5} refl (step refl here))))))
for-Wired id none (some c) (some x) b = wired refl refl (
    step {b = 2} refl (
      step {b = 3} refl
        (step {b = 4} refl (step {b = 6} refl (step {b = 5} refl (step refl here))))))
for-Wired id (some n) none none b = wired refl refl (
    step {b = 2} refl (
      step {b = 4} refl
        (step {b = 3} refl (step {b = 5} refl (step {b = 6} refl (step refl here))))))
for-Wired id (some n) none (some x) b = wired refl refl (
    step {b = 2} refl (
      step {b = 4} refl
        (step {b = 3} refl (step {b = 5} refl (step {b = 6} refl (step refl here))))))
for-Wired id (some n) (some c) none b = wired refl refl (
    step {b = 2} refl (
      step {b = 4} refl (
        step {b = 3} refl
          (step {b = 5} refl (step {b = 7} refl (step {b = 6} refl (step refl here)))))))
for-Wired id (some n) (some c) (some x) b = wired refl refl (
    step {b = 2} refl (
      step {b = 4} refl (
        step {b = 3} refl
          (step {b = 5} refl (step {b = 7} refl (step {b = 6} refl (step refl here)))))))

module _ (nodes : Context) (i : ℕ) where
  if-Wired : (o : Option AstNode) → nodes i ≡ o → HasWired nodes (Node.if_statement i)
  if-Wired (some (if_node (if_of c t no_body j))) e = rw e (
      wired refl refl (
        step {b = 2} refl (
          step {b = 4} refl (
            step {b = 3} refl
              (step {b = 5} refl (step {b = 7} refl (step {b = 6} refl (step refl here))))))))
  if-Wired (some (if_node (if_of c t (some_body f) j))) e = rw e (
      wired refl refl (
        step {b = 2} refl (
          step {b = 4} refl (
            step {b = 3} refl
              (step {b = 5} refl (step {b = 7} refl (step {b = 6} refl (step refl here))))))))
  if-Wired none e = rw e (missing-Wired _ _)
  if-Wired (some (block_node b)) e = rw e (missing-Wired _ _)
  if-Wired (some (unchecked_block_node b)) e = rw e (missing-Wired _ _)
  if-Wired (some (while_node b)) e = rw e (missing-Wired _ _)
  if-Wired (some (for_node b)) e = rw e (missing-Wired _ _)
  if-Wired (some (do_while_node b)) e = rw e (missing-Wired _ _)
  if-Wired (some other) e = rw e (missing-Wired _ _)

  while-Wired : (o : Option AstNode) → nodes i ≡ o → HasWired nodes (Node.while_statement i)
  while-Wired (some (while_node (while_of c b j))) e =
      rw e (
        wired refl refl
          (step {b = 2} refl (step {b = 4} refl (step {b = 3} refl (step refl here)))))
  while-Wired none e = rw e (missing-Wired _ _)
  while-Wired (some (block_node b)) e = rw e (missing-Wired _ _)
  while-Wired (some (unchecked_block_node b)) e = rw e (missing-Wired _ _)
  while-Wired (some (if_node b)) e = rw e (missing-Wired _ _)
  while-Wired (some (for_node b)) e = rw e (missing-Wired _ _)
  while-Wired (some (do_while_node b)) e = rw e (missing-Wired _ _)
  while-Wired (some other) e = rw e (missing-Wired _ _)

  for_node-Wired : (o : Option AstNode) → nodes i ≡ o → HasWired nodes (Node.for_statement i)
  for_node-Wired (some (for_node (for_of n c x b j))) e = rw e (for-Wired i _ _ _ _)
  for_node-Wired none e = rw e (missing-Wired _ _)
  for_node-Wired (some (block_node b)) e = rw e (missing-Wired _ _)
  for_node-Wired (some (unchecked_block_node b)) e = rw e (missing-Wired _ _)
  for_node-Wired (some (if_node b)) e = rw e (missing-Wired _ _)
  for_node-Wired (some (while_node b)) e = rw e (missing-Wired _ _)
  for_node-Wired (some (do_while_node b)) e = rw e (missing-Wired _ _)
  for_node-Wired (some other) e = rw e (missing-Wired _ _)

  do_while-Wired : (o : Option AstNode) → nodes i ≡ o → HasWired nodes (Node.do_while_statement i)
  do_while-Wired (some (do_while_node (do_while_of b c j))) e = rw e (
      wired refl refl (
        step {b = 2} refl (
          step {b = 4} refl (
            step {b = 3} refl
              (step {b = 5} refl (step {b = 7} refl (step {b = 6} refl (step refl here))))))))
  do_while-Wired none e = rw e (missing-Wired _ _)
  do_while-Wired (some (block_node b)) e = rw e (missing-Wired _ _)
  do_while-Wired (some (unchecked_block_node b)) e = rw e (missing-Wired _ _)
  do_while-Wired (some (if_node b)) e = rw e (missing-Wired _ _)
  do_while-Wired (some (while_node b)) e = rw e (missing-Wired _ _)
  do_while-Wired (some (for_node b)) e = rw e (missing-Wired _ _)
  do_while-Wired (some other) e = rw e (missing-Wired _ _)

pub template_of-Wired :
    (nodes : Context) (d : CfgNodeDescriptor) → is_reducible d ≡ true → HasWired nodes d
template_of-Wired nodes (Node.block i) r = row_template-Wired _ _ (block_statements (nodes i))
template_of-Wired nodes (Node.unchecked_block i) r =
    row_template-Wired _ _ (unchecked_statements (nodes i))
template_of-Wired nodes (Node.if_statement i) r = if-Wired nodes i (nodes i) refl
template_of-Wired nodes (Node.while_statement i) r = while-Wired nodes i (nodes i) refl
template_of-Wired nodes (Node.for_statement i) r = for_node-Wired nodes i (nodes i) refl
template_of-Wired nodes (Node.do_while_statement i) r = do_while-Wired nodes i (nodes i) refl
template_of-Wired nodes d r = cc
