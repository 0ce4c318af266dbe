-- ===== src/Flow/Voids.antt =====
-- aderyn_core/src/context/flow/voids.rs: a method for each start and end node.
use aderyn.Prelude.{ℕ}
use aderyn.Flow.Node.{
  end, end_block, end_do_while, end_do_while_body, end_do_while_cond, end_for, end_for_body,
  end_for_cond, end_for_init_exp, end_for_loop_exp, end_function_body, end_if, end_if_cond,
  end_if_false, end_if_true, end_modifier_body, end_node, end_unchecked_block, end_while,
  end_while_body, end_while_cond, start, start_block, start_do_while, start_do_while_body,
  start_do_while_cond, start_for, start_for_body, start_for_cond, start_for_init_exp,
  start_for_loop_exp, start_function_body, start_if, start_if_cond, start_if_false, start_if_true,
  start_modifier_body, start_node, start_unchecked_block, start_while, start_while_body,
  start_while_cond,
}
use aderyn.Flow.Cfg.{M, add_node}

abbrev pub add_start_node : M ℕ
add_start_node = add_node (start_node start)

abbrev pub add_end_node : M ℕ
add_end_node = add_node (end_node end)

abbrev pub add_start_block_node : ℕ → M ℕ
add_start_block_node block = add_node (start_node (start_block block))

abbrev pub add_end_block_node : ℕ → M ℕ
add_end_block_node block = add_node (end_node (end_block block))

abbrev pub add_start_if_node : ℕ → M ℕ
add_start_if_node if_stmt = add_node (start_node (start_if if_stmt))

abbrev pub add_start_if_cond_node : M ℕ
add_start_if_cond_node = add_node (start_node start_if_cond)

abbrev pub add_start_if_true_branch_node : M ℕ
add_start_if_true_branch_node = add_node (start_node start_if_true)

abbrev pub add_start_if_false_branch_node : M ℕ
add_start_if_false_branch_node = add_node (start_node start_if_false)

abbrev pub add_end_if_node : ℕ → M ℕ
add_end_if_node if_stmt = add_node (end_node (end_if if_stmt))

abbrev pub add_end_if_cond_node : M ℕ
add_end_if_cond_node = add_node (end_node end_if_cond)

abbrev pub add_end_if_true_branch_node : M ℕ
add_end_if_true_branch_node = add_node (end_node end_if_true)

abbrev pub add_end_if_false_branch_node : M ℕ
add_end_if_false_branch_node = add_node (end_node end_if_false)

abbrev pub add_start_while_node : ℕ → M ℕ
add_start_while_node while_stmt = add_node (start_node (start_while while_stmt))

abbrev pub add_start_while_cond_node : M ℕ
add_start_while_cond_node = add_node (start_node start_while_cond)

abbrev pub add_start_while_body_node : M ℕ
add_start_while_body_node = add_node (start_node start_while_body)

abbrev pub add_end_while_node : ℕ → M ℕ
add_end_while_node while_stmt = add_node (end_node (end_while while_stmt))

abbrev pub add_end_while_cond_node : M ℕ
add_end_while_cond_node = add_node (end_node end_while_cond)

abbrev pub add_end_while_body_node : M ℕ
add_end_while_body_node = add_node (end_node end_while_body)

abbrev pub add_start_for_node : ℕ → M ℕ
add_start_for_node for_stmt = add_node (start_node (start_for for_stmt))

abbrev pub add_start_for_init_exp_node : M ℕ
add_start_for_init_exp_node = add_node (start_node start_for_init_exp)

abbrev pub add_start_for_cond_node : M ℕ
add_start_for_cond_node = add_node (start_node start_for_cond)

abbrev pub add_start_for_exp_node : M ℕ
add_start_for_exp_node = add_node (start_node start_for_loop_exp)

abbrev pub add_start_for_body_node : M ℕ
add_start_for_body_node = add_node (start_node start_for_body)

abbrev pub add_end_for_node : ℕ → M ℕ
add_end_for_node for_stmt = add_node (end_node (end_for for_stmt))

abbrev pub add_end_for_init_exp_node : M ℕ
add_end_for_init_exp_node = add_node (end_node end_for_init_exp)

abbrev pub add_end_for_cond_node : M ℕ
add_end_for_cond_node = add_node (end_node end_for_cond)

abbrev pub add_end_for_exp_node : M ℕ
add_end_for_exp_node = add_node (end_node end_for_loop_exp)

abbrev pub add_end_for_body_node : M ℕ
add_end_for_body_node = add_node (end_node end_for_body)

abbrev pub add_start_do_while_node : ℕ → M ℕ
add_start_do_while_node do_while_stmt = add_node (start_node (start_do_while do_while_stmt))

abbrev pub add_start_do_while_cond_node : M ℕ
add_start_do_while_cond_node = add_node (start_node start_do_while_cond)

abbrev pub add_start_do_while_body_node : M ℕ
add_start_do_while_body_node = add_node (start_node start_do_while_body)

abbrev pub add_end_do_while_node : ℕ → M ℕ
add_end_do_while_node do_while_stmt = add_node (end_node (end_do_while do_while_stmt))

abbrev pub add_end_do_while_cond_node : M ℕ
add_end_do_while_cond_node = add_node (end_node end_do_while_cond)

abbrev pub add_end_do_while_body_node : M ℕ
add_end_do_while_body_node = add_node (end_node end_do_while_body)

abbrev pub add_start_unchecked_block_node : ℕ → M ℕ
add_start_unchecked_block_node unchecked_block =
    add_node (start_node (start_unchecked_block unchecked_block))

abbrev pub add_end_unchecked_block_node : ℕ → M ℕ
add_end_unchecked_block_node unchecked_block =
    add_node (end_node (end_unchecked_block unchecked_block))

abbrev pub add_start_function_body_node : ℕ → M ℕ
add_start_function_body_node function_definition_id =
    add_node (start_node (start_function_body function_definition_id))

abbrev pub add_end_function_body_node : ℕ → M ℕ
add_end_function_body_node function_definition_id =
    add_node (end_node (end_function_body function_definition_id))

abbrev pub add_start_modifier_body_node : ℕ → M ℕ
add_start_modifier_body_node modifier_definition_id =
    add_node (start_node (start_modifier_body modifier_definition_id))

abbrev pub add_end_modifier_body_node : ℕ → M ℕ
add_end_modifier_body_node modifier_definition_id =
    add_node (end_node (end_modifier_body modifier_definition_id))
