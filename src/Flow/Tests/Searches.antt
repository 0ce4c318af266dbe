-- ===== src/Flow/Tests/Searches.antt =====
-- One use of each theorem on jumps.
use aderyn.Prelude.{
  some_inj, subst, Bool-cases, inl, inr, ◌==◌, Option, some, List, [], ◌∷◌, ◌≡◌, refl, arith, true,
  ℕ, ◌+◌, false, length,
}
use aderyn.Prelude.Assoc.{lookup}
use aderyn.Flow.Node.{
  CfgNode, break_statement, end_while_cond, start_function_body, end_function_body, start_node,
  end_node, return_statement,
}
use aderyn.Flow.Cfg.{raw_successors, Cfg, has_node}
use aderyn.Flow.Jumps.{
  JumpDestination, find_jump_dest, Calibration, break_should_flow_to,
  return_should_flow_to_end_node, while_loop, calibrate, Sources, discover_jump_sources, no_sources,
  calibrate_jump_statements_in_body,
}
use aderyn.Flow.Jumps.Walk.{Walk, Filled, role, JumpFound, find_jump_dest-JumpFound}
use aderyn.Flow.Reduce.Invariant.{IsReducing, node_at}
use aderyn.Flow.Jumps.Destination.{past_while, returning, Calibrated, calibrate-Calibrated}
use aderyn.Flow.Jumps.Discover.{
  Discovered, discover_jump_sources-Discovered, jump_at, continues, breaks,
}
use aderyn.Flow.Jumps.Leaves.{Leaving, calibrate_jump_statements_in_body-Leaving}
use aderyn.Flow.Tests.{skeleton_graph}

-- A `return` in node 0, and a `break` in node 2 of the loop that starts at 0 and ends at 1.
abbrev jumps : List Calibration
jumps = break_should_flow_to 2 (while_loop 0) ∷ return_should_flow_to_end_node 0 ∷ []

calibrate-Calibrated_example :
    (h : Cfg) × (calibrate jumps 1 skeleton_graph ≡ some h) × Calibrated skeleton_graph 1 jumps h
unfolding lookup
calibrate-Calibrated_example =
    calibrate-Calibrated jumps 1 skeleton_graph ((1, past_while refl), ((1, returning), tt))

-- a start, a `return` and an end, in a row
abbrev return_graph : Cfg
return_graph = record skeleton_graph {
  nodes =
      (0, record { id = 0; nd = start_node (start_function_body 7) })
      ∷ (1, record { id = 1; nd = end_node (end_function_body 7) })
      ∷ (2, record { id = 2; nd = return_statement 5 })
      ∷ [];
  reduction_queue = [];
}

return_graph-IsReducing : IsReducing return_graph
unfolding lookup raw_successors
return_graph-IsReducing = record {
  fresh = record { unused = λ k h. ground arith; keyed = (refl, (refl, tt)) };
  own_ids = λ k node p. ground arith;
  attached = λ a b p. ground arith;
  queued = omega arith;
  complete = λ k node p r. ground arith;
}

return_graph-start : has_node return_graph 0 ≡ true
unfolding lookup
return_graph-start = refl

return_graph-calm :
    (k : ℕ) → (jump_at continues return_graph k ≡ false) × (jump_at breaks return_graph k ≡ false)
unfolding lookup
return_graph-calm k = (ground arith, ground arith)

discover_jump_sources-Discovered_example :
    (s : Sources) × (discover_jump_sources return_graph (length return_graph.nodes + 1) 0 no_sources
      ≡ some s)
    × Discovered return_graph 0 s
discover_jump_sources-Discovered_example =
    discover_jump_sources-Discovered return_graph return_graph-IsReducing 0 return_graph-start

calibrate_jump_statements_in_body-Leaving_example :
    (h : Cfg) × (calibrate_jump_statements_in_body 0 1 return_graph ≡ some h)
    × Leaving return_graph 0 1 h
calibrate_jump_statements_in_body-Leaving_example =
    calibrate_jump_statements_in_body-Leaving return_graph return_graph-IsReducing 0 1
      return_graph-start (λ k p. return_graph-calm k)

-- a `break`, and the end of the condition of the loop that starts at 5
abbrev loop_graph : Cfg
loop_graph = record skeleton_graph {
  nodes =
      (0, record { id = 0; nd = break_statement 4 })
      ∷ (1, record { id = 1; nd = end_node end_while_cond })
      ∷ [];
  adj_list = (0, 1 ∷ []) ∷ [];
  cond_start_pairs = (1, 5) ∷ [];
  next_available_id = 2;
  reduction_queue = [];
}

loop_graph-IsReducing : IsReducing loop_graph
unfolding lookup raw_successors
loop_graph-IsReducing = record {
  fresh = record { unused = λ k h. ground arith; keyed = (refl, tt) };
  own_ids = λ k node p. ground arith;
  attached = λ a b p. ground arith;
  queued = omega arith;
  complete = λ k node p r. ground arith;
}

loop_graph-start : has_node loop_graph 0 ≡ true
unfolding lookup
loop_graph-start = refl

loop_graph-Filled :
    (k : ℕ)
    → Walk loop_graph 0 k
    → (node : CfgNode) → node_at loop_graph k ≡ some node
    → Filled loop_graph k (role node.nd)
unfolding lookup
loop_graph-Filled k w node at = elim (Bool-cases (0 == k)) [
  | inl zero ↦ subst (λ n. Filled loop_graph k (role n.nd)) (some_inj (rw zero at at)) tt
  | inr other ↦ elim (Bool-cases (1 == k)) [
    | inl one ↦
        subst (λ n. Filled loop_graph k (role n.nd)) (some_inj (rw (other, one) at at))
          (5, rw one refl)
    | inr third ↦ cc (rw (other, third) at at)
  ]
]

find_jump_dest-JumpFound_example :
    (r : Option JumpDestination) × (v : List ℕ) × (find_jump_dest loop_graph
        (length loop_graph.nodes + 1)
        0
        []
      ≡ some (r, v))
    × JumpFound loop_graph 0 r
find_jump_dest-JumpFound_example =
    find_jump_dest-JumpFound loop_graph 0 loop_graph-IsReducing loop_graph-start loop_graph-Filled
