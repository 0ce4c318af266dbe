-- ===== src/Flow/Reducibles/While.antt =====
-- What `CfgWhileStatement::reduce` builds.
use aderyn.Prelude.{ℕ, ◌+◌, some, [], ◌∷◌, ◌≡◌, refl}
use aderyn.Flow.Ast.{Expression, Body, Context, while_node, while_of}
use aderyn.Flow.Node.{
  start_node, end_node, start_while, end_while, start_while_cond, end_while_cond, start_while_body,
  end_while_body, while_statement_condition,
}
use aderyn.Flow.Cfg.{Cfg}
use aderyn.Flow.Cfg.Returns.{Returns, Returns-pure}
use aderyn.Flow.Cfg.Template.{Template, start_end, start_cond, cond_start}
use aderyn.Flow.Cfg.Built.{Built, Built-empty, IsFresh}
use aderyn.Flow.Cfg.Rules.{
  build_node, build_edge, build_start_end, build_start_cond, build_cond_start,
}
use aderyn.Flow.Reducibles.{reduce_while_statement}
use aderyn.Flow.Reducibles.Chain.{descriptor, body_statement, add_body_node-descriptor}

-- 0 and 1 are the start and the end, 2 to 4 the condition, 5 to 7 the body.
abbrev pub while_template : ℕ → Expression → Body → Template
while_template id condition body = record {
  nodes =
      start_node (start_while id)
      ∷ end_node (end_while id)
      ∷ start_node start_while_cond
      ∷ end_node end_while_cond
      ∷ while_statement_condition condition.node_id
      ∷ start_node start_while_body
      ∷ end_node end_while_body
      ∷ descriptor (body_statement body)
      ∷ [];
  edges = (0, 2) ∷ (2, 4) ∷ (4, 3) ∷ (3, 1) ∷ (3, 5) ∷ (5, 7) ∷ (7, 6) ∷ (6, 2) ∷ [];
  pairs =
      (start_end, 0, 1)
      ∷ (start_end, 2, 3)
      ∷ (start_cond, 0, 2)
      ∷ (cond_start, 3, 0)
      ∷ (start_end, 5, 6)
      ∷ [];
}

-- Where no node has the next id or a later one and the AST has the `while`, `CfgWhileStatement::reduce`
-- returns: it builds exactly the nodes, edges and lookup entries of the template behind the last id, and
-- gives the ids of the start and the end.
pub reduce_while_statement-Built :
    (nodes : Context) (id i : ℕ) (condition : Expression) (body : Body) (g : Cfg)
    → nodes id ≡ some (while_node (while_of condition body i))
    → IsFresh g
    → Returns
        (λ a h.
          (a ≡ (g.next_available_id + 0, g.next_available_id + 1))
          × Built g (while_template id condition body) h)
        (reduce_while_statement nodes id g)
unfolding reduce_while_statement
reduce_while_statement-Built nodes id i condition body g e fresh = rw e (
    build_node (Built-empty g fresh) _ _ λ _ b. build_node b _ _ λ _ b.
      build_start_end b 0 1 _ λ _ b. build_node b _ _ λ _ b. build_node b _ _ λ _ b.
        build_start_end b 2 3 _ λ _ b. build_start_cond b 0 2 _ λ _ b.
          build_cond_start b 3 0 _ λ _ b. build_node b _ _ λ _ b. build_edge b 0 2 _ λ _ b.
            build_edge b 2 4 _ λ _ b. build_edge b 4 3 _ λ _ b. build_edge b 3 1 _ λ _ b.
              build_node b _ _ λ _ b. build_node b _ _ λ _ b. build_start_end b 5 6 _ λ _ b.
                rw (add_body_node-descriptor body) (
                  build_node b _ _ λ _ b. build_edge b 3 5 _ λ _ b. build_edge b 5 7 _ λ _ b.
                    build_edge b 7 6 _ λ _ b. build_edge b 6 2 _ λ _ b. Returns-pure _ _ (refl, b)))
