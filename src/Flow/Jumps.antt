-- ===== src/Flow/Jumps.antt =====
-- The calibration of jumps: aderyn_core/src/context/flow/utils.rs, and
-- `calibrate_jump_statements_in_body` of flow.rs.
pub mod Calibrate
pub mod Destination
pub mod Find
pub mod Walk
pub mod Leaves
pub mod Discover
use aderyn.Prelude.{
  ℕ, zero, suc, ◌+◌, Option, none, some, List, [], ◌∷◌, ◌++◌, map, if◌then◌else◌, contains, length,
  ◌>>=◌,
}
use aderyn.Prelude.Assoc.{lookup}
use aderyn.Flow.Node.{
  CfgNodeDescriptor, start_node, end_node, continue_statement, break_statement, return_statement,
  end_while_cond, end_do_while_cond, end_for_loop_exp,
}
use aderyn.Flow.Cfg.{Cfg, raw_successors, reset_raw_successors}

-- the set of visited nodes, and the jumps found so far
pub record Sources : Type 0 where
  pub visited : List ℕ
  pub continue_statements : List ℕ
  pub break_statements : List ℕ
  pub return_statements : List ℕ

abbrev pub note_jump : CfgNodeDescriptor → ℕ → Sources → Sources
note_jump (continue_statement i) id s = record s {
  continue_statements = s.continue_statements ++ id ∷ [];
}
note_jump (break_statement i) id s = record s { break_statements = s.break_statements ++ id ∷ [] }
note_jump (return_statement i) id s = record s {
  return_statements = s.return_statements ++ id ∷ [];
}
note_jump _ id s = s

-- `for child in children`
unfoldable pub for_children {ℓ} : {S : Type ℓ} → (ℕ → S → Option S) → List ℕ → S → Option S
for_children visit [] s = some s
for_children visit (child ∷ children) s = do s' ← visit child s; for_children visit children s'

-- `none` is a node id that is not in the graph, or fuel that has run out
unfoldable pub discover_jump_sources : Cfg → ℕ → ℕ → Sources → Option Sources
discover_jump_sources cfg zero curr s = none
discover_jump_sources cfg (suc fuel) curr s =
    let entered = (do
      node ← lookup curr cfg.nodes
      for_children (discover_jump_sources cfg fuel) (raw_successors cfg node.id)
          (note_jump node.nd node.id (record s { visited = curr ∷ s.visited }))) in
    if contains s.visited curr then some s else entered

pub data JumpDestination : Type 0 where
  default_site : JumpDestination
  for_loop do_while_loop while_loop : ℕ → JumpDestination

-- the end of a loop's condition, or of the update of a `for`, leads to the loop; a missing pair is a
-- panic
abbrev pub loop_of : Cfg → ℕ → CfgNodeDescriptor → Option (Option JumpDestination)
loop_of cfg id (end_node end_while_cond) = do
  loop ← lookup id cfg.cond_start_pairs
  some (some (while_loop loop))
loop_of cfg id (end_node end_do_while_cond) = do
  loop ← lookup id cfg.cond_start_pairs
  some (some (do_while_loop loop))
loop_of cfg id (end_node end_for_loop_exp) = do
  loop ← lookup id cfg.loop_expr_start
  some (some (for_loop loop))
loop_of cfg id _ = some none

-- a start node leads to its end, any other node to its successors
abbrev pub jump_children : Cfg → ℕ → CfgNodeDescriptor → Option (List ℕ)
jump_children cfg id (start_node n) = do ending ← lookup id cfg.start_end_pairs; some (ending ∷ [])
jump_children cfg id _ = some (raw_successors cfg id)

-- the first child that finds a destination; the visited set goes on from child to child
unfoldable pub first_dest :
    (ℕ → List ℕ → Option (Option JumpDestination × List ℕ))
    → List ℕ
    → List ℕ
    → Option (Option JumpDestination × List ℕ)
first_dest find [] visited = some (none, visited)
first_dest find (child ∷ children) visited = do
  (found, visited') ← find child visited
  elim found [ none ↦ first_dest find children visited' | some dest ↦ some (some dest, visited') ]

unfoldable pub find_jump_dest : Cfg → ℕ → ℕ → List ℕ → Option (Option JumpDestination × List ℕ)
find_jump_dest cfg zero curr visited = none
find_jump_dest cfg (suc fuel) curr visited =
    let entered = (do
      node ← lookup curr cfg.nodes
      at_loop ← loop_of cfg node.id node.nd
      elim at_loop [
        | some dest ↦ some (some dest, curr ∷ visited)
        | none ↦ do
          children ← jump_children cfg node.id node.nd
          first_dest (find_jump_dest cfg fuel) children (curr ∷ visited)
      ]) in
    if contains visited curr then some (none, visited) else entered

pub data Calibration : Type 0 where
  continue_should_flow_to break_should_flow_to : ℕ → JumpDestination → Calibration
  return_should_flow_to_end_node : ℕ → Calibration

abbrev pub find_ending_counter_part : Cfg → ℕ → Option ℕ
find_ending_counter_part cfg id = lookup id cfg.start_end_pairs

abbrev pub find_condition_node : Cfg → ℕ → Option ℕ
find_condition_node cfg id = lookup id cfg.start_cond_pairs

abbrev pub find_loop_expression_node : Cfg → ℕ → Option ℕ
find_loop_expression_node cfg id = lookup id cfg.start_loop_expr

-- the `match` of `calibrate`: the jump, and where it flows
abbrev pub calibrated : Cfg → ℕ → Calibration → Option (ℕ × ℕ)
calibrated cfg end_id (continue_should_flow_to c (for_loop l)) = do
  dest ← find_loop_expression_node cfg l
  some (c, dest)
calibrated cfg end_id (continue_should_flow_to c (while_loop l)) = do
  dest ← find_condition_node cfg l
  some (c, dest)
calibrated cfg end_id (continue_should_flow_to c (do_while_loop l)) = do
  dest ← find_condition_node cfg l
  some (c, dest)
calibrated cfg end_id (continue_should_flow_to c default_site) = some (c, end_id)
calibrated cfg end_id (break_should_flow_to b default_site) = some (b, end_id)
calibrated cfg end_id (break_should_flow_to b (for_loop l)) = do
  dest ← find_ending_counter_part cfg l
  some (b, dest)
calibrated cfg end_id (break_should_flow_to b (while_loop l)) = do
  dest ← find_ending_counter_part cfg l
  some (b, dest)
calibrated cfg end_id (break_should_flow_to b (do_while_loop l)) = do
  dest ← find_ending_counter_part cfg l
  some (b, dest)
calibrated cfg end_id (return_should_flow_to_end_node r) = some (r, end_id)

unfoldable pub calibrate : List Calibration → ℕ → Cfg → Option Cfg
calibrate [] end_id cfg = some cfg
calibrate (c ∷ cs) end_id cfg = do
  (target, dest) ← calibrated cfg end_id c
  calibrate cs end_id (reset_raw_successors target dest cfg)

-- `find_jump_dest(…).unwrap_or_default()` with a new visited set
abbrev pub dest_of : Cfg → ℕ → ℕ → Option JumpDestination
dest_of cfg fuel jump = do
  (found, visited) ← find_jump_dest cfg fuel jump []
  elim found [ none ↦ some default_site | some dest ↦ some dest ]

unfoldable pub propose :
    (ℕ → JumpDestination → Calibration) → Cfg → ℕ → List ℕ → Option (List Calibration)
propose kind cfg fuel [] = some []
propose kind cfg fuel (jump ∷ jumps) = do
  dest ← dest_of cfg fuel jump
  rest ← propose kind cfg fuel jumps
  some (kind jump dest ∷ rest)

abbrev pub no_sources : Sources
no_sources = record {
  visited = [];
  continue_statements = [];
  break_statements = [];
  return_statements = [];
}

-- Each call goes to a node that has not been visited, so one more than there are nodes are enough.
unfoldable pub calibrate_jump_statements_in_body : ℕ → ℕ → Cfg → Option Cfg
unfolding discover_jump_sources propose calibrate
calibrate_jump_statements_in_body start_id end_id cfg = do
  let fuel = length cfg.nodes + 1
  s ← discover_jump_sources cfg fuel start_id no_sources
  continues ← propose continue_should_flow_to cfg fuel s.continue_statements
  breaks ← propose break_should_flow_to cfg fuel s.break_statements
  calibrate (continues ++ (breaks ++ map return_should_flow_to_end_node s.return_statements)) end_id
      cfg
