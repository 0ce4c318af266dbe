-- ===== src/Flow/Reducibles/If.antt =====
-- What `CfgIfStatement::reduce` builds.
use aderyn.Prelude.{ℕ, ◌+◌, some, List, [], ◌∷◌, ◌≡◌, refl}
use aderyn.Flow.Ast.{Expression, Body, OptionalBody, no_body, some_body, Context, if_node, if_of}
use aderyn.Flow.Node.{
  CfgNodeDescriptor, start_node, end_node, start_if, end_if, start_if_cond, end_if_cond,
  start_if_true, end_if_true, start_if_false, end_if_false, if_statement_condition,
}
use aderyn.Flow.Cfg.{Cfg}
use aderyn.Flow.Cfg.Returns.{Returns, Returns-pure}
use aderyn.Flow.Cfg.Template.{Template, start_end}
use aderyn.Flow.Cfg.Built.{Built, Built-empty, IsFresh}
use aderyn.Flow.Cfg.Rules.{build_node, build_edge, build_start_end}
use aderyn.Flow.Reducibles.{reduce_if_statement, if_false_branch}
use aderyn.Flow.Reducibles.Blocks.{Builds}
use aderyn.Flow.Reducibles.Chain.{descriptor, body_statement, add_body_node-descriptor}

-- 0 and 1 are the start and the end, 2 to 4 the condition, 5 to 7 the true branch, 8 and 9 the ends of
-- the false branch, and 10 its body, if there is one.
abbrev pub if_nodes : ℕ → Expression → Body → List CfgNodeDescriptor → List CfgNodeDescriptor
if_nodes id condition true_body rest =
    start_node (start_if id)
    ∷ end_node (end_if id)
    ∷ start_node start_if_cond
    ∷ end_node end_if_cond
    ∷ if_statement_condition condition.node_id
    ∷ start_node start_if_true
    ∷ end_node end_if_true
    ∷ descriptor (body_statement true_body)
    ∷ start_node start_if_false
    ∷ end_node end_if_false
    ∷ rest

abbrev pub if_edges : List (ℕ × ℕ) → List (ℕ × ℕ)
if_edges rest = (0, 2) ∷ (2, 4) ∷ (4, 3) ∷ (3, 5) ∷ (5, 7) ∷ (7, 6) ∷ (6, 1) ∷ (3, 8) ∷ rest

abbrev pub if_template : ℕ → Expression → Body → OptionalBody → Template
if_template id condition true_body (some_body false_body) = record {
  nodes = if_nodes id condition true_body (descriptor (body_statement false_body) ∷ []);
  edges = if_edges ((8, 10) ∷ (10, 9) ∷ (9, 1) ∷ []);
  pairs = (start_end, 0, 1) ∷ (start_end, 0, 1) ∷ (start_end, 5, 6) ∷ (start_end, 8, 9) ∷ [];
}
if_template id condition true_body no_body = record {
  nodes = if_nodes id condition true_body [];
  edges = if_edges ((8, 9) ∷ (9, 1) ∷ []);
  pairs = (start_end, 0, 1) ∷ (start_end, 0, 1) ∷ (start_end, 5, 6) ∷ (start_end, 8, 9) ∷ [];
}

-- what stands when the false branch begins
abbrev if_true_template : ℕ → Expression → Body → Template
if_true_template id condition true_body = record {
  nodes =
      start_node (start_if id)
      ∷ end_node (end_if id)
      ∷ start_node start_if_cond
      ∷ end_node end_if_cond
      ∷ if_statement_condition condition.node_id
      ∷ start_node start_if_true
      ∷ end_node end_if_true
      ∷ descriptor (body_statement true_body)
      ∷ [];
  edges = (0, 2) ∷ (2, 4) ∷ (4, 3) ∷ (3, 5) ∷ (5, 7) ∷ (7, 6) ∷ (6, 1) ∷ [];
  pairs = (start_end, 0, 1) ∷ (start_end, 0, 1) ∷ (start_end, 5, 6) ∷ [];
}

if_false_branch-Built :
    (id : ℕ) (condition : Expression) (true_body : Body) (false_body : OptionalBody) {g0 g : Cfg}
    → Built g0 (if_true_template id condition true_body) g
    → Returns (Builds g0 (if_template id condition true_body false_body)) (
        if_false_branch
          (g0.next_available_id + 0)
          (g0.next_available_id + 1)
          (g0.next_available_id + 3)
          false_body
          g)
unfolding if_false_branch
if_false_branch-Built id condition true_body (some_body false_body) b = build_node b _ _ λ _ b.
    build_node b _ _ λ _ b. build_start_end b 8 9 _ λ _ b.
      rw (add_body_node-descriptor false_body) (
        build_node b _ _ λ _ b. build_edge b 3 8 _ λ _ b.
          build_edge b 8 10 _
            λ _ b. build_edge b 10 9 _ λ _ b. build_edge b 9 1 _ λ _ b. Returns-pure _ _ (refl, b))
if_false_branch-Built id condition true_body no_body b = build_node b _ _ λ _ b.
    build_node b _ _ λ _ b. build_start_end b 8 9 _ λ _ b.
      build_edge b 3 8 _
        λ _ b. build_edge b 8 9 _ λ _ b. build_edge b 9 1 _ λ _ b. Returns-pure _ _ (refl, b)

-- Where no node has the next id or a later one and the AST has the `if`, `CfgIfStatement::reduce` returns:
-- it builds exactly the nodes, edges and lookup entries of the template behind the last id, and gives the
-- ids of the start and the end. The start of the condition gets no end in the lookup map.
pub reduce_if_statement-Built :
    (nodes : Context) (id i : ℕ) (condition : Expression) (true_body : Body)
    (false_body : OptionalBody) (g : Cfg)
    → nodes id ≡ some (if_node (if_of condition true_body false_body i))
    → IsFresh g
    → Returns
        (Builds g (if_template id condition true_body false_body))
        (reduce_if_statement nodes id g)
unfolding reduce_if_statement
reduce_if_statement-Built nodes id i condition true_body false_body g e fresh = rw e (
    build_node (Built-empty g fresh) _ _ λ _ b. build_node b _ _ λ _ b.
      build_start_end b 0 1 _ λ _ b. build_node b _ _ λ _ b. build_node b _ _ λ _ b.
        build_start_end b 0 1 _ λ _ b. build_node b _ _ λ _ b. build_edge b 0 2 _ λ _ b.
          build_edge b 2 4 _ λ _ b. build_edge b 4 3 _ λ _ b. build_node b _ _ λ _ b.
            build_node b _ _ λ _ b. build_start_end b 5 6 _ λ _ b.
              rw (add_body_node-descriptor true_body) (
                build_node b _ _ λ _ b. build_edge b 3 5 _ λ _ b. build_edge b 5 7 _ λ _ b.
                  build_edge b 7 6 _ λ _ b.
                    build_edge b 6 1 _
                      λ _ b. if_false_branch-Built id condition true_body false_body b))
