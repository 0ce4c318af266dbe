-- ===== src/Flow/Reducibles/For.antt =====
-- What `CfgForStatement::reduce` builds.
use aderyn.Prelude.{ℕ, ◌+◌, Option, none, some, List, [], ◌∷◌, ◌≡◌, refl, length}
use aderyn.Flow.Ast.{
  Expression, Body, LoopInit, init_expression, init_variable_declaration, Context, for_node, for_of,
}
use aderyn.Flow.Node.{
  CfgNodeDescriptor, start_node, end_node, start_for, end_for, start_for_init_exp, end_for_init_exp,
  start_for_cond, end_for_cond, start_for_body, end_for_body, start_for_loop_exp, end_for_loop_exp,
  for_statement_condition, expression_statement, variable_declaration_statement,
}
use aderyn.Flow.Cfg.{Cfg}
use aderyn.Flow.Cfg.Returns.{Returns, Returns-pure, Returns-bind}
use aderyn.Flow.Cfg.Template.{
  Template, start_end, start_cond, start_loop, loop_start, with_desc, with_edge, with_pair,
}
use aderyn.Flow.Cfg.Built.{Built, Built-empty, IsFresh}
use aderyn.Flow.Cfg.Rules.{
  build_node, build_edge, build_edge_last, build_start_end, build_start_cond, build_start_loop,
  build_loop_start,
}
use aderyn.Flow.Reducibles.{reduce_for_statement, for_init, for_cond, for_loop_exp}
use aderyn.Flow.Reducibles.Blocks.{Builds, ends_template}
use aderyn.Flow.Reducibles.Chain.{descriptor, body_statement, add_body_node-descriptor}

-- the nodes of the parts that may be left out
abbrev pub init_descriptor : Option LoopInit → Option CfgNodeDescriptor
init_descriptor none = none
init_descriptor (some (init_expression i)) = some (expression_statement i)
init_descriptor (some (init_variable_declaration i)) = some (variable_declaration_statement i)

abbrev pub cond_descriptor : Option Expression → Option CfgNodeDescriptor
cond_descriptor none = none
cond_descriptor (some e) = some (for_statement_condition e.node_id)

abbrev pub loop_descriptor : Option ℕ → Option CfgNodeDescriptor
loop_descriptor none = none
loop_descriptor (some i) = some (expression_statement i)

-- a part between the numbers `i` and `j`, or the edge between them
abbrev optional : Template → ℕ → ℕ → Option CfgNodeDescriptor → Template
optional t i j none = with_edge t i j
optional t i j (some d) =
    with_edge (with_edge (with_desc t d) i (length t.nodes)) (length t.nodes) j

module _ {g0 : Cfg} {t : Template} {g : Cfg} (b : Built g0 t g) (i j : ℕ) where
  for_init-Built :
      (init : Option LoopInit)
      → Returns
          (λ _ h. Built g0 (optional t i j (init_descriptor init)) h)
          (for_init (g0.next_available_id + i) (g0.next_available_id + j) init g)
  unfolding for_init
  for_init-Built none = build_edge_last b i j
  for_init-Built (some (init_expression s)) =
      build_node b _ _ λ _ b. build_edge b _ _ _ λ _ b. build_edge_last b _ _
  for_init-Built (some (init_variable_declaration s)) =
      build_node b _ _ λ _ b. build_edge b _ _ _ λ _ b. build_edge_last b _ _

  for_cond-Built :
      (condition : Option Expression)
      → Returns
          (λ _ h. Built g0 (optional t i j (cond_descriptor condition)) h)
          (for_cond (g0.next_available_id + i) (g0.next_available_id + j) condition g)
  unfolding for_cond
  for_cond-Built none = build_edge_last b i j
  for_cond-Built (some s) = build_node b _ _ λ _ b. build_edge b _ _ _ λ _ b. build_edge_last b _ _

  for_loop_exp-Built :
      (exp : Option ℕ)
      → Returns
          (λ _ h. Built g0 (optional t i j (loop_descriptor exp)) h)
          (for_loop_exp (g0.next_available_id + i) (g0.next_available_id + j) exp g)
  unfolding for_loop_exp
  for_loop_exp-Built none = build_edge_last b i j
  for_loop_exp-Built (some s) =
      build_node b _ _ λ _ b. build_edge b _ _ _ λ _ b. build_edge_last b _ _

-- 0 and 1 are the start and the end, 2 and 3 those of the initialisation. Those of the condition are
-- `c` and `c + 1`, of the body `b` and `b + 1`, of the update `u` and `u + 1`; the node of a part that
-- is there stands behind its ends.
abbrev pub part :
    CfgNodeDescriptor
    → CfgNodeDescriptor
    → Option CfgNodeDescriptor
    → List CfgNodeDescriptor
    → List CfgNodeDescriptor
part s e none rest = s ∷ e ∷ rest
part s e (some d) rest = s ∷ e ∷ d ∷ rest

abbrev pub part_edges : ℕ → Option CfgNodeDescriptor → List (ℕ × ℕ) → List (ℕ × ℕ)
part_edges i none rest = (i, i + 1) ∷ rest
part_edges i (some d) rest = (i, i + 2) ∷ (i + 2, i + 1) ∷ rest

abbrev pub behind : ℕ → Option CfgNodeDescriptor → ℕ
behind i none = i + 2
behind i (some d) = i + 3

abbrev pub for_template :
    ℕ
    → Option CfgNodeDescriptor
    → Option CfgNodeDescriptor
    → Option CfgNodeDescriptor
    → CfgNodeDescriptor
    → Template
for_template id init condition exp body =
    let c = behind 2 init in
    let b = behind c condition in
    let u = b + 3 in
    record {
      nodes =
          start_node (start_for id)
          ∷ end_node (end_for id)
          ∷ part (start_node start_for_init_exp) (end_node end_for_init_exp) init (
              part (start_node start_for_cond) (end_node end_for_cond) condition (
                start_node start_for_body
                ∷ end_node end_for_body
                ∷ body
                ∷ part (start_node start_for_loop_exp) (end_node end_for_loop_exp) exp []));
      edges = part_edges 2 init (
          part_edges c condition (
            (b, b + 2)
            ∷ (b + 2, b + 1)
            ∷ part_edges u exp
                ((0, 2) ∷ (3, c) ∷ (c + 1, b) ∷ (b + 1, u) ∷ (u + 1, c) ∷ (c + 1, 1) ∷ [])));
      pairs =
          (start_end, 0, 1)
          ∷ (start_end, 2, 3)
          ∷ (start_end, c, c + 1)
          ∷ (start_cond, 0, c)
          ∷ (start_end, b, b + 1)
          ∷ (start_end, u, u + 1)
          ∷ (start_loop, 0, u)
          ∷ (loop_start, u + 1, 0)
          ∷ [];
    }

-- the same, in the order in which the method builds it
abbrev with_ends : Template → CfgNodeDescriptor → CfgNodeDescriptor → Template
with_ends t s e =
    with_pair (with_desc (with_desc t s) e) start_end (length t.nodes)
      (length (with_desc t s).nodes)

abbrev for_built :
    ℕ
    → Option CfgNodeDescriptor
    → Option CfgNodeDescriptor
    → Option CfgNodeDescriptor
    → CfgNodeDescriptor
    → Template
for_built id init condition exp body =
    let t0 =
      with_ends (ends_template (start_node (start_for id)) (end_node (end_for id)))
        (start_node start_for_init_exp) (end_node end_for_init_exp) in
    let t1 = optional t0 2 3 init in
    let c = length t1.nodes in
    let c' = length (with_desc t1 (start_node start_for_cond)).nodes in
    let t2 =
      with_pair (with_ends t1 (start_node start_for_cond) (end_node end_for_cond)) start_cond 0 c in
    let t3 = optional t2 c c' condition in
    let b = length t3.nodes in
    let b' = length (with_desc t3 (start_node start_for_body)).nodes in
    let t4 = with_ends t3 (start_node start_for_body) (end_node end_for_body) in
    let i = length t4.nodes in
    let t5 = with_edge (with_edge (with_desc t4 body) b i) i b' in
    let u = length t5.nodes in
    let u' = length (with_desc t5 (start_node start_for_loop_exp)).nodes in
    let t6 =
      with_pair
        (with_pair (with_ends t5 (start_node start_for_loop_exp) (end_node end_for_loop_exp))
          start_loop 0 u)
        loop_start u' 0 in
    let t7 = optional t6 u u' exp in
    with_edge (with_edge (with_edge (with_edge (with_edge (with_edge t7 0 2) 3 c) c' b) b' u) u' c)
      c' 1

for_built-template :
    (id : ℕ) (init condition exp : Option CfgNodeDescriptor) (body : CfgNodeDescriptor)
    → for_built id init condition exp body ≡ for_template id init condition exp body
for_built-template id none none none body = refl
for_built-template id none none (some x) body = refl
for_built-template id none (some c) none body = refl
for_built-template id none (some c) (some x) body = refl
for_built-template id (some i) none none body = refl
for_built-template id (some i) none (some x) body = refl
for_built-template id (some i) (some c) none body = refl
for_built-template id (some i) (some c) (some x) body = refl

-- Where no node has the next id or a later one and the AST has the `for`, `CfgForStatement::reduce` returns,
-- whichever of the three clauses are left out: it builds exactly the nodes, edges and lookup entries of the
-- template behind the last id, and gives the ids of the start and the end.
pub reduce_for_statement-Built :
    (nodes : Context) (id i : ℕ) (init : Option LoopInit) (condition : Option Expression)
    (exp : Option ℕ) (body : Body) (g : Cfg)
    → nodes id ≡ some (for_node (for_of init condition exp body i))
    → IsFresh g
    → Returns
        (Builds g (
          for_template id
            (init_descriptor init)
            (cond_descriptor condition)
            (loop_descriptor exp)
            (descriptor (body_statement body))))
        (reduce_for_statement nodes id g)
unfolding reduce_for_statement
reduce_for_statement-Built nodes id i init condition exp body g e fresh =
    rw
      (
        e,
        ← for_built-template id (init_descriptor init) (cond_descriptor condition)
            (loop_descriptor exp) (descriptor (body_statement body)),
      )
      (build_node (Built-empty g fresh) _ _ λ _ b. build_node b _ _ λ _ b.
        build_start_end b 0 1 _ λ _ b. build_node b _ _ λ _ b. build_node b _ _ λ _ b.
          build_start_end b 2 3 _ λ _ b. Returns-bind _ _ _ (for_init-Built b 2 3 init) λ _ _ b.
            build_node b _ _ λ _ b. build_node b _ _ λ _ b. build_start_end b _ _ _ λ _ b.
              build_start_cond b 0 _ _ λ _ b.
                Returns-bind _ _ _ (for_cond-Built b _ _ condition) λ _ _ b. build_node b _ _ λ _ b.
                  build_node b _ _ λ _ b. build_start_end b _ _ _ λ _ b.
                    rw (add_body_node-descriptor body) (
                      build_node b _ _ λ _ b. build_edge b _ _ _ λ _ b. build_edge b _ _ _ λ _ b.
                        build_node b _ _ λ _ b. build_node b _ _ λ _ b.
                          build_start_end b _ _ _ λ _ b. build_start_loop b 0 _ _ λ _ b.
                            build_loop_start b _ 0 _ λ _ b.
                              Returns-bind _ _ _ (for_loop_exp-Built b _ _ exp) λ _ _ b.
                                build_edge b 0 2 _ λ _ b. build_edge b 3 _ _ λ _ b.
                                  build_edge b _ _ _ λ _ b. build_edge b _ _ _ λ _ b.
                                    build_edge b _ _ _
                                      λ _ b. build_edge b _ 1 _ λ _ b. Returns-pure _ _ (refl, b)))
