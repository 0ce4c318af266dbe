-- ===== src/Flow/Tests/Reducers.antt =====
-- One use of the theorem of each reducer.
use aderyn.Prelude.{none, some, refl}
use aderyn.Flow.Ast
use aderyn.Flow.Ast.{
  Statement, Statements, nil, cons, block_of, while_of, Context, Block, AstNode, block_node,
  while_node, Expression, Body,
}
use aderyn.Flow.Node.{block}
use aderyn.Flow.Cfg.Returns.{Returns}
use aderyn.Flow.Reducibles.Blocks.{
  Builds, block_template, unchecked_template, reduce_block-Built, reduce_unchecked_block-Built,
}
use aderyn.Flow.Reducibles.{
  reduce_block, reduce_unchecked_block, reduce_while_statement, block_statements,
  unchecked_statements, reduce_if_statement, reduce_for_statement, reduce_do_while_statement,
}
use aderyn.Flow.Reducibles.While.{while_template, reduce_while_statement-Built}
use aderyn.Flow.Reducibles.If.{if_template, reduce_if_statement-Built}
use aderyn.Flow.Reducibles.For.{
  for_template, init_descriptor, cond_descriptor, loop_descriptor, reduce_for_statement-Built,
}
use aderyn.Flow.Reducibles.DoWhile.{do_while_template, reduce_do_while_statement-Built}
use aderyn.Flow.Tests.{inner, condition, sample, skeleton_graph, skeleton_graph-IsReducing}

reduce_block-Built_example :
    Returns
      (Builds skeleton_graph (block_template 1 (block_statements (sample 1))))
      (reduce_block sample 1 skeleton_graph)
reduce_block-Built_example =
    reduce_block-Built sample 1 skeleton_graph skeleton_graph-IsReducing.fresh

reduce_while_statement-Built_example :
    Returns
      (Builds skeleton_graph (while_template 2 condition (Ast.block_body inner)))
      (reduce_while_statement sample 2 skeleton_graph)
reduce_while_statement-Built_example =
    reduce_while_statement-Built sample 2 2 condition (Ast.block_body inner) skeleton_graph refl
      skeleton_graph-IsReducing.fresh

-- the other statements, one in each context
abbrev only : AstNode → Context
only n i = some n

abbrev the_if : Ast.IfStatement
the_if =
    Ast.if_of condition (Ast.block_body inner)
      (Ast.some_body (Ast.statement_body (Statement.return_statement 5))) 2

reduce_if_statement-Built_example :
    Returns
      (Builds skeleton_graph (
        if_template 2 condition
          (Ast.block_body inner)
          (Ast.some_body (Ast.statement_body (Statement.return_statement 5)))))
      (reduce_if_statement (only (Ast.if_node the_if)) 2 skeleton_graph)
reduce_if_statement-Built_example =
    reduce_if_statement-Built (only (Ast.if_node the_if)) 2 2 condition (Ast.block_body inner)
      (Ast.some_body (Ast.statement_body (Statement.return_statement 5))) skeleton_graph refl
      skeleton_graph-IsReducing.fresh

-- for (; c; i++) { break; }
abbrev the_for : Ast.ForStatement
the_for = Ast.for_of none (some condition) (some 8) (Ast.block_body inner) 2

reduce_for_statement-Built_example :
    Returns
      (Builds skeleton_graph (
        for_template 2
          (init_descriptor none)
          (cond_descriptor (some condition))
          (loop_descriptor (some 8))
          (block 3)))
      (reduce_for_statement (only (Ast.for_node the_for)) 2 skeleton_graph)
reduce_for_statement-Built_example =
    reduce_for_statement-Built (only (Ast.for_node the_for)) 2 2 none (some condition) (some 8)
      (Ast.block_body inner) skeleton_graph refl skeleton_graph-IsReducing.fresh

reduce_do_while_statement-Built_example :
    Returns (Builds skeleton_graph (do_while_template 2 inner condition)) (
      reduce_do_while_statement
        (only (Ast.do_while_node (Ast.do_while_of inner condition 2)))
        2
        skeleton_graph)
reduce_do_while_statement-Built_example =
    reduce_do_while_statement-Built (only (Ast.do_while_node (Ast.do_while_of inner condition 2))) 2
      2 inner condition skeleton_graph refl skeleton_graph-IsReducing.fresh

reduce_unchecked_block-Built_example :
    Returns
      (Builds skeleton_graph (
        unchecked_template 2 (
          unchecked_statements (
            some (
              Ast.unchecked_block_node
                (Ast.unchecked_of (cons (Statement.return_statement 5) nil) 2))))))
      (reduce_unchecked_block
        (only
          (Ast.unchecked_block_node (Ast.unchecked_of (cons (Statement.return_statement 5) nil) 2)))
        2
        skeleton_graph)
reduce_unchecked_block-Built_example =
    reduce_unchecked_block-Built
      (only
        (Ast.unchecked_block_node (Ast.unchecked_of (cons (Statement.return_statement 5) nil) 2)))
      2 skeleton_graph skeleton_graph-IsReducing.fresh
