-- ===== src/Flow/Reducibles/Chain.antt =====
-- The nodes that statements and bodies become, and the chain of the statements of a block.
use aderyn.Prelude.{ℕ, ◌+◌, ◌≡◌, refl, length}
use aderyn.Flow.Ast.{
  Statement, Statements, nil, cons, Body, block_body, statement_body, block_id, unchecked_id, if_id,
  while_id, for_id, do_while_id,
}
use aderyn.Flow.Node
use aderyn.Flow.Node.{CfgNodeDescriptor}
use aderyn.Flow.Cfg.{Cfg, add_node}
use aderyn.Flow.Cfg.Returns.{Returns, Returns-pure}
use aderyn.Flow.Cfg.Template.{Template, with_desc, with_edge}
use aderyn.Flow.Cfg.Built.{Built}
use aderyn.Flow.Cfg.Rules.{build_node, build_edge}
use aderyn.Flow.Primitives.{add_statement_node, add_body_node}
use aderyn.Flow.Reducibles.{link_statements}

-- the descriptor of a statement's node
abbrev pub descriptor : Statement → CfgNodeDescriptor
descriptor (Statement.block b) = Node.block (block_id b)
descriptor (Statement.unchecked_block b) = Node.unchecked_block (unchecked_id b)
descriptor (Statement.if_statement s) = Node.if_statement (if_id s)
descriptor (Statement.while_statement s) = Node.while_statement (while_id s)
descriptor (Statement.for_statement s) = Node.for_statement (for_id s)
descriptor (Statement.do_while_statement s) = Node.do_while_statement (do_while_id s)
descriptor (Statement.break_statement i) = Node.break_statement i
descriptor (Statement.continue_statement i) = Node.continue_statement i
descriptor (Statement.return_statement i) = Node.return_statement i
descriptor (Statement.placeholder_statement i) = Node.placeholder_statement i
descriptor (Statement.emit_statement i) = Node.emit_statement i
descriptor (Statement.revert_statement i) = Node.revert_statement i
descriptor (Statement.try_statement i) = Node.try_statement i
descriptor (Statement.inline_assembly i) = Node.inline_assembly i
descriptor (Statement.variable_declaration_statement i) = Node.variable_declaration_statement i
descriptor (Statement.expression_statement i) = Node.expression_statement i

abbrev pub body_statement : Body → Statement
body_statement (block_body b) = Statement.block b
body_statement (statement_body s) = s

pub add_statement_node-descriptor : (s : Statement) → add_statement_node s ≡ add_node (descriptor s)
unfolding add_statement_node
add_statement_node-descriptor (Statement.block b) = refl
add_statement_node-descriptor s = refl

pub add_body_node-descriptor :
    (b : Body) → add_body_node b ≡ add_node (descriptor (body_statement b))
unfolding add_body_node
add_body_node-descriptor (block_body b) = refl
add_body_node-descriptor (statement_body s) = add_statement_node-descriptor s

-- The statements in a row behind the node with number `last`, and the number of the last one.
abbrev pub chained : Template → ℕ → Statements → Template
chained t last nil = t
chained t last (cons s ss) =
    chained (with_edge (with_desc t (descriptor s)) last (length t.nodes)) (length t.nodes) ss

abbrev pub chain_end : Template → ℕ → Statements → ℕ
chain_end t last nil = last
chain_end t last (cons s ss) =
    chain_end (with_edge (with_desc t (descriptor s)) last (length t.nodes)) (length t.nodes) ss

pub link_statements-Built :
    (ss : Statements) {g0 : Cfg} {t : Template} {g : Cfg} (last : ℕ)
    → Built g0 t g
    → Returns
        (λ a h. (a ≡ g0.next_available_id + chain_end t last ss) × Built g0 (chained t last ss) h)
        (link_statements (g0.next_available_id + last) ss g)
unfolding link_statements
link_statements-Built nil last b = Returns-pure _ _ (refl, b)
link_statements-Built (cons s ss) {t = t} last b = rw (add_statement_node-descriptor s) (
    build_node b (descriptor s) _ λ h b'.
      build_edge b' last (length t.nodes) _ λ h' b''. link_statements-Built ss (length t.nodes) b'')
