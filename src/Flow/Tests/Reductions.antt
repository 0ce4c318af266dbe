-- ===== src/Flow/Tests/Reductions.antt =====
-- One use of each theorem on reductions, edges and the walk over the graph.
use aderyn.Prelude.{some, List, [], ◌≡◌, refl, arith, ◌==◌, contains, not, ◌&&◌}
use aderyn.Prelude.Assoc.{lookup}
use aderyn.Flow.Node.{CfgNode, start_function_body, end_function_body, start_node, end_node, block}
use aderyn.Flow.Cfg.{
  new, ◌>>=◌, ◌>>◌, pure, add_node, raw_successors, remove_raw_edges_involving, raw_predecessors,
}
use aderyn.Flow.Cfg.Returns.{Returns}
use aderyn.Flow.Cfg.Edges.{edge, edge-remove_involving, contains-raw_predecessors}
use aderyn.Flow.Reduce.{reduce, reduce_all}
use aderyn.Flow.Reduce.Replace.{Replaced}
use aderyn.Flow.Reduce.Replace.Run.{reduce-Replaced}
use aderyn.Flow.Reduce.Descriptor.{template_of}
use aderyn.Flow.Reduce.Work.{cost_block}
use aderyn.Flow.Reduce.Invariant.{dequeued}
use aderyn.Flow.Reduce.Total.{Turn, Reduced, reduce-Turn, reduce_all-Reduced}
use aderyn.Flow.Reflect.{children}
use aderyn.Flow.Reflect.Children.{ids_of, children-returns}
use aderyn.Flow.Build.{skeleton}
use aderyn.Flow.Build.Body.{Assembled, assemble_body-Assembled}
use aderyn.Flow.Tests.{outer, sample, sample-IsClosed, skeleton_graph, skeleton_graph-IsReducing}

reduce-Replaced_example :
    Returns
      (λ _ h. Replaced skeleton_graph 2 (template_of sample (block 1)) h)
      (reduce sample 2 skeleton_graph)
reduce-Replaced_example =
    reduce-Replaced sample 2 (block 1) skeleton_graph skeleton_graph-IsReducing.fresh
      (unfold lookup in refl) refl

reduce-Turn_example :
    Returns (λ _ h. Turn sample skeleton_graph h) (reduce sample 2 (dequeued [] skeleton_graph))
reduce-Turn_example =
    reduce-Turn sample sample-IsClosed skeleton_graph 2 [] skeleton_graph-IsReducing refl

reduce_all-Reduced_example :
    Returns (λ _ h. Reduced skeleton_graph h) (reduce_all 3 sample skeleton_graph)
unfolding lookup cost_block
reduce_all-Reduced_example =
    reduce_all-Reduced sample sample-IsClosed 3 skeleton_graph skeleton_graph-IsReducing
      (omega arith)

assemble_body-Assembled_example :
    Returns (Assembled (start_function_body 7) (end_function_body 7) outer) (
      (skeleton
            (add_node (start_node (start_function_body 7)))
            (add_node (end_node (end_function_body 7)))
            outer
          >>= λ ends. reduce_all 3 sample >> pure ends)
        new)
unfolding cost_block
assemble_body-Assembled_example =
    assemble_body-Assembled (start_function_body 7) (end_function_body 7) outer sample 3
      sample-IsClosed refl (omega arith)

contains-raw_predecessors_example :
    contains (raw_predecessors skeleton_graph 1) 2 ≡ edge skeleton_graph 2 1
contains-raw_predecessors_example =
    contains-raw_predecessors 1 2 skeleton_graph skeleton_graph-IsReducing.fresh.keyed

edge-remove_involving_example :
    edge (remove_raw_edges_involving 2 skeleton_graph) 2 1
    ≡ (edge skeleton_graph 2 1 && (not (2 == 2) && not (2 == 1)))
edge-remove_involving_example = edge-remove_involving 2 2 1 skeleton_graph

children-returns_example :
    (ns : List CfgNode) × (children skeleton_graph (record { id = 2; nd = block 1 }) ≡ some ns)
    × (ids_of ns ≡ raw_successors skeleton_graph 2)
children-returns_example =
    children-returns skeleton_graph skeleton_graph-IsReducing (record { id = 2; nd = block 1 })
