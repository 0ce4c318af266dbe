-- ===== src/Flow/Cfg/Template.antt =====
-- A part of a graph that is built from scratch: its nodes by their numbers 0, 1, …, its edges and the
-- entries of the lookup maps, by those numbers.
use aderyn.Prelude.{
  ℕ, suc, ◌+◌, Bool, true, false, ◌&&◌, Option, some, List, [], ◌∷◌, ◌++◌, ◌==◌, if◌then◌else◌,
}
use aderyn.Flow.Node.{CfgNode, CfgNodeDescriptor, is_reducible}
use aderyn.Flow.Cfg.{Cfg}

-- the five lookup maps
pub data PairMap : Type 0 where
  start_end start_cond start_loop loop_start cond_start : PairMap

abbrev pub pairs_of : PairMap → Cfg → List (ℕ × ℕ)
pairs_of start_end g = g.start_end_pairs
pairs_of start_cond g = g.start_cond_pairs
pairs_of start_loop g = g.start_loop_expr
pairs_of loop_start g = g.loop_expr_start
pairs_of cond_start g = g.cond_start_pairs

abbrev pub same_map : PairMap → PairMap → Bool
same_map start_end start_end = true
same_map start_cond start_cond = true
same_map start_loop start_loop = true
same_map loop_start loop_start = true
same_map cond_start cond_start = true
same_map _ _ = false

pub record Template : Type 0 where
  pub nodes : List CfgNodeDescriptor
  pub edges : List (ℕ × ℕ)
  pub pairs : List (PairMap × ℕ × ℕ)

abbrev pub empty : Template
empty = record { nodes = []; edges = []; pairs = [] }

abbrev pub with_desc : Template → CfgNodeDescriptor → Template
with_desc t d = record t { nodes = t.nodes ++ d ∷ [] }

abbrev pub with_edge : Template → ℕ → ℕ → Template
with_edge t i j = record t { edges = t.edges ++ (i, j) ∷ [] }

abbrev pub with_pair : Template → PairMap → ℕ → ℕ → Template
with_pair t p i j = record t { pairs = t.pairs ++ (p, i, j) ∷ [] }

-- The template's entries where its number 0 is the id `n`, over what was there before.
abbrev pub nodes_over : ℕ → ℕ → List CfgNodeDescriptor → Option CfgNode → Option CfgNode
nodes_over n k [] old = old
nodes_over n k (d ∷ ds) old =
    nodes_over (suc n) k ds (if n == k then some (record { id = n; nd = d }) else old)

abbrev pub targets : ℕ → ℕ → List (ℕ × ℕ) → List ℕ
targets n a [] = []
targets n a ((i, j) ∷ es) = if n + i == a then (n + j) ∷ targets n a es else targets n a es

abbrev pub pairs_over : PairMap → ℕ → ℕ → List (PairMap × ℕ × ℕ) → Option ℕ → Option ℕ
pairs_over p n k [] old = old
pairs_over p n k ((q, i, j) ∷ ps) old =
    pairs_over p n k ps (if same_map q p && n + i == k then some (n + j) else old)

abbrev pub queue_of : ℕ → List CfgNodeDescriptor → List ℕ
queue_of n [] = []
queue_of n (d ∷ ds) = if is_reducible d then n ∷ queue_of (suc n) ds else queue_of (suc n) ds

abbrev pub set_pairs : PairMap → List (ℕ × ℕ) → Cfg → Cfg
set_pairs start_end m g = record g { start_end_pairs = m }
set_pairs start_cond m g = record g { start_cond_pairs = m }
set_pairs start_loop m g = record g { start_loop_expr = m }
set_pairs loop_start m g = record g { loop_expr_start = m }
set_pairs cond_start m g = record g { cond_start_pairs = m }
