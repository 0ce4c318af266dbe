-- ===== src/Flow/Reducibles/DoWhile.antt =====
-- What `CfgDoWhileStatement::reduce` builds.
use aderyn.Prelude.{ℕ, some, [], ◌∷◌, ◌≡◌, refl}
use aderyn.Flow.Ast.{Expression, Block, block_id, Context, do_while_node, do_while_of}
use aderyn.Flow.Node.{
  start_node, end_node, start_do_while, end_do_while, start_do_while_cond, end_do_while_cond,
  start_do_while_body, end_do_while_body, do_while_statement_condition, block,
}
use aderyn.Flow.Cfg.{Cfg}
use aderyn.Flow.Cfg.Returns.{Returns, Returns-pure}
use aderyn.Flow.Cfg.Template.{Template, start_end, start_cond, cond_start}
use aderyn.Flow.Cfg.Built.{Built-empty, IsFresh}
use aderyn.Flow.Cfg.Rules.{
  build_node, build_edge, build_start_end, build_start_cond, build_cond_start,
}
use aderyn.Flow.Reducibles.{reduce_do_while_statement}
use aderyn.Flow.Reducibles.Blocks.{Builds}

-- 0 and 1 are the start and the end, 2 to 4 the body, 5 to 7 the condition.
abbrev pub do_while_template : ℕ → Block → Expression → Template
do_while_template id body condition = record {
  nodes =
      start_node (start_do_while id)
      ∷ end_node (end_do_while id)
      ∷ start_node start_do_while_body
      ∷ end_node end_do_while_body
      ∷ block (block_id body)
      ∷ start_node start_do_while_cond
      ∷ end_node end_do_while_cond
      ∷ do_while_statement_condition condition.node_id
      ∷ [];
  edges = (0, 2) ∷ (2, 4) ∷ (4, 3) ∷ (3, 5) ∷ (5, 7) ∷ (7, 6) ∷ (6, 2) ∷ (6, 1) ∷ [];
  pairs =
      (start_end, 0, 1)
      ∷ (start_end, 2, 3)
      ∷ (start_end, 5, 6)
      ∷ (start_cond, 0, 5)
      ∷ (cond_start, 6, 0)
      ∷ [];
}

-- Where no node has the next id or a later one and the AST has the `do while`, `CfgDoWhileStatement::reduce`
-- returns: it builds exactly the nodes, edges and lookup entries of the template behind the last id, and
-- gives the ids of the start and the end.
pub reduce_do_while_statement-Built :
    (nodes : Context) (id i : ℕ) (body : Block) (condition : Expression) (g : Cfg)
    → nodes id ≡ some (do_while_node (do_while_of body condition i))
    → IsFresh g
    → Returns
        (Builds g (do_while_template id body condition))
        (reduce_do_while_statement nodes id g)
unfolding reduce_do_while_statement
reduce_do_while_statement-Built nodes id i body condition g e fresh = rw e (
    build_node (Built-empty g fresh) _ _ λ _ b. build_node b _ _ λ _ b.
      build_start_end b 0 1 _ λ _ b. build_node b _ _ λ _ b. build_node b _ _ λ _ b.
        build_start_end b 2 3 _ λ _ b. build_node b _ _ λ _ b. build_edge b 0 2 _ λ _ b.
          build_edge b 2 4 _ λ _ b. build_edge b 4 3 _ λ _ b. build_node b _ _ λ _ b.
            build_node b _ _ λ _ b. build_start_end b 5 6 _ λ _ b. build_start_cond b 0 5 _ λ _ b.
              build_cond_start b 6 0 _ λ _ b. build_node b _ _ λ _ b. build_edge b 3 5 _ λ _ b.
                build_edge b 5 7 _ λ _ b. build_edge b 7 6 _ λ _ b.
                  build_edge b 6 2 _ λ _ b. build_edge b 6 1 _ λ _ b. Returns-pure _ _ (refl, b))
