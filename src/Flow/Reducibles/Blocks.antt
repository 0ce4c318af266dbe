-- ===== src/Flow/Reducibles/Blocks.antt =====
-- What `CfgBlock::reduce` and `CfgUncheckedBlock::reduce` build, and a statement that the AST lacks.
use aderyn.Prelude.{ℕ, ◌+◌, [], ◌∷◌, ◌≡◌, refl}
use aderyn.Flow.Ast.{Statements, Context}
use aderyn.Flow.Node.{
  CfgNodeDescriptor, start_node, end_node, start_block, end_block, start_unchecked_block,
  end_unchecked_block,
}
use aderyn.Flow.Cfg.{Cfg}
use aderyn.Flow.Cfg.Returns.{Returns, Returns-pure, Returns-bind}
use aderyn.Flow.Cfg.Template.{Template, start_end, with_edge}
use aderyn.Flow.Cfg.Built.{Built, Built-empty, IsFresh}
use aderyn.Flow.Cfg.Rules.{build_node, build_edge, build_start_end}
use aderyn.Flow.Reducibles.{
  reduce_block, reduce_unchecked_block, block_statements, unchecked_statements, skip,
}
use aderyn.Flow.Reducibles.Chain.{chained, chain_end, link_statements-Built}

-- 0 and 1 are the start and the end.
abbrev pub ends_template : CfgNodeDescriptor → CfgNodeDescriptor → Template
ends_template s e = record { nodes = s ∷ e ∷ []; edges = []; pairs = (start_end, 0, 1) ∷ [] }

-- The statements stand in a row between the two.
abbrev pub row_template : CfgNodeDescriptor → CfgNodeDescriptor → Statements → Template
row_template s e ss =
    with_edge (chained (ends_template s e) 0 ss) (chain_end (ends_template s e) 0 ss) 1

abbrev pub block_template : ℕ → Statements → Template
block_template id = row_template (start_node (start_block id)) (end_node (end_block id))

abbrev pub unchecked_template : ℕ → Statements → Template
unchecked_template id =
    row_template (start_node (start_unchecked_block id)) (end_node (end_unchecked_block id))

-- The method returns the first two ids, and has built the template.
abbrev pub Builds : Cfg → Template → ℕ × ℕ → Cfg → Type 0
Builds g t a h = (a ≡ (g.next_available_id + 0, g.next_available_id + 1)) × Built g t h

module _ (nodes : Context) (id : ℕ) (g : Cfg) (fresh : IsFresh g) where
  -- Where no node has the next id or a later one, `CfgBlock::reduce` returns: it builds a start, an end and
  -- a node for each statement of the block, in a row, and gives the ids of the start and the end. A block
  -- that the AST lacks has no statements.
  pub reduce_block-Built :
      Returns (Builds g (block_template id (block_statements (nodes id)))) (reduce_block nodes id g)
  unfolding reduce_block
  reduce_block-Built = build_node (Built-empty g fresh) _ _ λ _ b. build_node b _ _ λ _ b.
      build_start_end b 0 1 _ λ _ b.
        Returns-bind _ _ _ (link_statements-Built (block_statements (nodes id)) 0 b)
          λ a h (e, b). rw e (build_edge b _ 1 _ λ _ b. Returns-pure _ _ (refl, b))

  -- Where no node has the next id or a later one, `CfgUncheckedBlock::reduce` returns: it builds a start, an
  -- end and a node for each statement of the block, in a row, and gives the ids of the start and the end.
  pub reduce_unchecked_block-Built :
      Returns
        (Builds g (unchecked_template id (unchecked_statements (nodes id))))
        (reduce_unchecked_block nodes id g)
  unfolding reduce_unchecked_block
  reduce_unchecked_block-Built = build_node (Built-empty g fresh) _ _ λ _ b. build_node b _ _ λ _ b.
      build_start_end b 0 1 _ λ _ b.
        Returns-bind _ _ _ (link_statements-Built (unchecked_statements (nodes id)) 0 b)
          λ a h (e, b). rw e (build_edge b _ 1 _ λ _ b. Returns-pure _ _ (refl, b))

pub skip-Built :
    {g0 : Cfg} {t : Template} {g : Cfg}
    → Built g0 t g
    → Returns
        (Builds g0 (with_edge t 0 1))
        (skip (g0.next_available_id + 0) (g0.next_available_id + 1) g)
unfolding skip
skip-Built b = build_edge b 0 1 _ λ _ b'. Returns-pure _ _ (refl, b')
