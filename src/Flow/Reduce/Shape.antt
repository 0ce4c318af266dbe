-- ===== src/Flow/Reduce/Shape.antt =====
-- The shape of a template: its edges join its own nodes, and its start leads to its end.
pub mod Templates
use aderyn.Prelude.{
  ℕ, ◌+◌, ◌<◌, Bool, true, false, ◌&&◌, ◌||◌, none, List, [], ◌∷◌, ◌++◌, ◌≡◌, refl, arith, ◌==◌,
  length, length-append, All, All-append, All-map,
}
use aderyn.Prelude.Leads.{Leads, here, step, Leads-map, Leads-along, Leads-append}
use aderyn.Flow.Ast.{Statements, nil, cons}
use aderyn.Flow.Node
use aderyn.Flow.Node.{CfgNodeDescriptor}
use aderyn.Flow.Cfg.Template.{Template, with_desc, with_edge}
use aderyn.Flow.Reducibles.Chain.{descriptor, chained, chain_end}
use aderyn.Flow.Reducibles.Blocks.{row_template}

abbrev pub joins : List (ℕ × ℕ) → ℕ → ℕ → Bool
joins [] i j = false
joins ((k, l) ∷ es) i j = (k == i && l == j) || joins es i j

joins-append :
    (es fs : List (ℕ × ℕ)) (i j : ℕ) → joins (es ++ fs) i j ≡ (joins es i j || joins fs i j)
joins-append [] fs i j = refl
joins-append ((k, l) ∷ es) fs i j = ground (arith, joins-append es fs i j)

-- Both ends of each edge are nodes of the template.
abbrev pub InRange : ℕ → List (ℕ × ℕ) → Type 0
InRange n es = All (λ e. (e.0 < n) × (e.1 < n)) es

pub record Wired (t : Template) : Type 0 where
  pub in_range : InRange (length t.nodes) t.edges
  pub ends : 1 < length t.nodes
  pub through : Leads (joins t.edges) 0 1

-- a template in the making, whose start leads to the node `last`
record Growing (t : Template) (last : ℕ) : Type 0 where
  in_range : InRange (length t.nodes) t.edges
  ends : 1 < length t.nodes
  inside : last < length t.nodes
  reached : Leads (joins t.edges) 0 last

Growing-edge :
    (t : Template) (last next : ℕ)
    → Growing t last
    → next < length t.nodes
    → Growing (with_edge t last next) next
Growing-edge t last next g h = record {
  in_range = All-append _ t.edges ((last, next) ∷ []) g.in_range ((g.inside, h), tt);
  ends = g.ends;
  inside = h;
  reached =
      Leads-append
        (Leads-map (λ i j e. rw (joins-append t.edges ((last, next) ∷ []) i j, e) refl) g.reached)
        (step (rw (joins-append t.edges ((last, next) ∷ []) last next) (ground arith)) here);
}

Growing-desc :
    (t : Template) (d : CfgNodeDescriptor) (last : ℕ)
    → Growing t last
    → Growing (with_desc t d) last
Growing-desc t d last g =
    let more : length (t.nodes ++ d ∷ []) ≡ length t.nodes + 1 = length-append t.nodes (d ∷ []) in
    record {
      in_range =
          All-map (λ e h. (omega (arith, h.0, more), omega (arith, h.1, more))) t.edges g.in_range;
      ends = omega (arith, more, g.ends);
      inside = omega (arith, more, g.inside);
      reached = g.reached;
    }

Growing-chained :
    (ss : Statements) (t : Template) (last : ℕ)
    → Growing t last
    → Growing (chained t last ss) (chain_end t last ss)
Growing-chained nil t last g = g
Growing-chained (cons s ss) t last g = Growing-chained ss _ _ (
    Growing-edge (with_desc t (descriptor s)) last (length t.nodes)
      (Growing-desc t (descriptor s) last g)
      (omega (arith, length-append t.nodes (descriptor s ∷ []))))

row_template-Wired : (s e : CfgNodeDescriptor) (ss : Statements) → Wired (row_template s e ss)
row_template-Wired s e ss =
    let g =
      Growing-chained ss _ 0
        (record { in_range = tt; ends = omega arith; inside = omega arith; reached = here }) in
    let w = Growing-edge (chained _ 0 ss) (chain_end _ 0 ss) 1 g g.ends in
    record { in_range = w.in_range; ends = w.ends; through = w.reached }
