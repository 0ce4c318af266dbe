-- ===== src/Flow/Build.antt =====
-- `from_function_body` and `from_modifier_body` of aderyn_core/src/context/flow.rs.
pub mod Body
use aderyn.Prelude.{ℕ, Option, none, some}
use aderyn.Flow.Ast.{Block, Context}
use aderyn.Flow.Cfg.{Cfg, M, new, pure, ◌>>=◌, ◌>>◌, add_flow_edge, insert_start_end}
use aderyn.Flow.Voids
use aderyn.Flow.Primitives.{add_block_node}
use aderyn.Flow.Reduce.{reduce_all}
use aderyn.Flow.Jumps.{calibrate_jump_statements_in_body}

-- what is read of a `FunctionDefinition` or a `ModifierDefinition`
pub record Definition : Type 0 where
  pub id : ℕ
  pub body : Option Block

unfoldable pub calibrate_jumps : ℕ → ℕ → M (Unit {0})
calibrate_jumps start end_id g = elim (calibrate_jump_statements_in_body start end_id g) [
  | none ↦ none
  | some h ↦ some (tt, h)
]

-- the skeleton: the block between a start and an end
unfoldable pub skeleton : M ℕ → M ℕ → Block → M (ℕ × ℕ)
skeleton add_start add_end body = do
  start ← add_start
  end_id ← add_end
  insert_start_end start end_id
  block ← add_block_node body
  add_flow_edge start block
  add_flow_edge block end_id
  pure (start, end_id)

-- the reduction step and the calibration step
unfoldable pub finish : ℕ → Context → ℕ × ℕ → M (ℕ × ℕ)
finish fuel nodes (start, end_id) = do
  reduce_all fuel nodes
  calibrate_jumps start end_id
  pure (start, end_id)

-- a graph with its start and end node, for a body that is there
unfoldable pub from_body : M ℕ → M ℕ → ℕ → Context → Option Block → Option (Option ((ℕ × ℕ) × Cfg))
from_body add_start add_end fuel nodes none = some none
from_body add_start add_end fuel nodes (some body) =
    elim ((skeleton add_start add_end body >>= finish fuel nodes) new) [
      | none ↦ none
      | some built ↦ some (some built)
    ]

-- `Cfg::from_function_body`; the outer `none` is a panic, or fuel that has run out
unfoldable pub from_function_body : ℕ → Context → Definition → Option (Option ((ℕ × ℕ) × Cfg))
unfolding from_body
from_function_body fuel nodes f =
    from_body (Voids.add_start_function_body_node f.id) (Voids.add_end_function_body_node f.id) fuel
      nodes f.body

-- `Cfg::from_modifier_body`
unfoldable pub from_modifier_body : ℕ → Context → Definition → Option (Option ((ℕ × ℕ) × Cfg))
unfolding from_body
from_modifier_body fuel nodes f =
    from_body (Voids.add_start_modifier_body_node f.id) (Voids.add_end_modifier_body_node f.id) fuel
      nodes f.body
