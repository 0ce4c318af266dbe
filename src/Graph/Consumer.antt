-- ===== src/Graph/Consumer.antt =====
-- `CallGraphConsumer`, its directions, its errors and its visitor: aderyn_core/src/context/graph.rs,
-- graph/callgraph.rs and graph/traits.rs.
use aderyn.Prelude.{ℕ, Bool, true, false, Option, List}
use aderyn.Workspace.Ast.{AstNode, FunctionDefinition, ModifierDefinition}

pub data Error : Type 0 where
  inward_callgraph_not_available outward_callgraph_not_available : Error
  unidentified_entry_point_node : AstNode → Error
  invalid_entry_point_id : ℕ → Error
  entry_point_visit_error : Error
  outward_function_definition_visit_error outward_modifier_definition_visit_error : Error
  inward_function_definition_visit_error inward_modifier_definition_visit_error : Error
  outward_side_effect_function_definition_visit_error : Error
  outward_side_effect_modifier_definition_visit_error : Error

pub data CallGraphDirection : Type 0 where
  inward outward both_ways : CallGraphDirection

-- `CurrentDFSVector`
pub data CurrentDfsVector : Type 0 where
  inward outward outward_side_effect : CurrentDfsVector

pub record CallGraphConsumer : Type 0 where
  pub entry_points : List ℕ
  pub inward_surface_points : List ℕ
  pub outward_surface_points : List ℕ
  pub direction : CallGraphDirection
  pub base_contract : Option ℕ

-- A `Result<(), Error>` with what the call has made of the mutable state, which stays after an error.
pub data Outcome (A : Type 0) : Type 0 where
  ok : A → Outcome A
  err : Error → A → Outcome A

-- `?`: an error ends the sequence
infixl 5 ◌>=>◌
abbrev pub ◌>=>◌ : {A : Type 0} → Outcome A → (A → Outcome A) → Outcome A
ok a >=> f = f a
err e a >=> f = err e a

-- A visitor with the state `S`: each method gives the state it leaves, and whether it returned `Ok`.
pub record CallGraphVisitor (S : Type 0) : Type 0 where
  pub visit_entry_point : AstNode → S → S × Bool
  pub visit_inward_function_definition : FunctionDefinition → S → S × Bool
  pub visit_outward_function_definition : FunctionDefinition → S → S × Bool
  pub visit_inward_modifier_definition : ModifierDefinition → S → S × Bool
  pub visit_outward_modifier_definition : ModifierDefinition → S → S × Bool
  pub visit_outward_side_effect_function_definition : FunctionDefinition → S → S × Bool
  pub visit_outward_side_effect_modifier_definition : ModifierDefinition → S → S × Bool

-- `map_err(|_| e)`
abbrev pub map_err : {A : Type 0} → Error → A × Bool → Outcome A
map_err e (a, true) = ok a
map_err e (a, false) = err e a
