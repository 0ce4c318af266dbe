-- ===== src/Graph/New/Total.antt =====
-- `_create_raw_callgraph` returns: the call graph of what the entry points of a contract lead to.
use aderyn.Prelude.{
  ℕ, zero, suc, ◌+◌, ◌≤◌, false, ◌||◌, Option, none, some, ◌>>=◌, List, [], ◌∷◌, ◌++◌, ◌≡◌, refl,
  ap, ◌∙◌, arith, ◌==◌, if◌then◌else◌, Bool-cases, inl, inr, ==_iff, contains, contains-append,
  length, length-append, append-nil,
}
use aderyn.Prelude.Assoc.{lookup}
use aderyn.Workspace.Ast.{
  AstNode, FunctionCall, ModifierInvocation, FunctionDefinition, ContractDefinition, extracted,
}
use aderyn.Workspace.Context.{WorkspaceContext, RawCallGraph}
use aderyn.Workspace.Ancestors.Line.{IsForest}
use aderyn.Router.Ask.{entrypoint_functions, resolve_internal_call, resolve_modifier_call}
use aderyn.Router.Resolve.Total.{resolve_internal_call-Returns, resolve_modifier_call-Returns}
use aderyn.Graph.Search.{
  Search, fresh, connecting, Done, Done-fresh, IsCallGraph, Done-IsCallGraph, Done-same,
}
use aderyn.Graph.New.{
  Pending, from_entrypoints, push_target, function_id, modifier_id, visiting, calls_in, call_count,
  for_function_calls, for_modifier_calls, for_calls, while_pop, for_entrypoints,
  create_raw_callgraph,
}
use aderyn.Graph.New.Stack.{
  has_key, connect_all, push_all, connect_all-append, push_all-append, connect_all-visited, Open,
  IsKeyed, Done-IsKeyed, Open-seen, Open-visit, Done-Open, Open-Done,
}

-- the calls in the nodes that were not visited
abbrev pending : List (ℕ × AstNode) → List ℕ → ℕ
pending [] v = 0
pending ((k, n) ∷ m) v = (if contains v k then 0 else calls_in n) + pending m v

pending-le : (m : List (ℕ × AstNode)) (v : List ℕ) (c : ℕ) → pending m (c ∷ v) ≤ pending m v
pending-le [] v c = omega arith
pending-le ((k, n) ∷ m) v c = ground (arith, pending-le m v c)

pending-visit :
    (m : List (ℕ × AstNode)) (v : List ℕ) (c : ℕ) (n : AstNode)
    → lookup c m ≡ some n
    → contains v c ≡ false
    → pending m (c ∷ v) + calls_in n ≤ pending m v
unfolding lookup
pending-visit [] v c n at unseen = cc
pending-visit ((k, n') ∷ m) v c n at unseen = elim (Bool-cases (k == c)) [
  | inl same ↦
      let e : some n' ≡ some n = rw same at at in
      let w : calls_in n' ≡ calls_in n = ap calls_in {x = n'} {y = n} (cc) in
      ground (arith, same, rw (← (==_iff k c).0 same) at unseen, pending-le m v c, w)
  | inr other ↦ ground (arith, other, pending-visit m v c n (rw other at at) unseen)
]

pending-le-call_count : (m : List (ℕ × AstNode)) (v : List ℕ) → pending m v ≤ call_count m
pending-le-call_count [] v = omega arith
pending-le-call_count ((k, n) ∷ m) v = ground (arith, pending-le-call_count m v)

length-push_all : (ts current : List ℕ) → length (push_all ts current) ≡ length ts + length current
length-push_all [] current = omega arith
length-push_all (t ∷ ts) current = omega (arith, length-push_all ts (t ∷ current))

abbrev pub ids : List FunctionDefinition → List ℕ
ids [] = []
ids (f ∷ fs) = f.id ∷ ids fs

abbrev pub flat : {A : Type 0} → Option (Option A) → Option A
flat none = none
flat (some o) = o

abbrev pub onto : Option ℕ → List ℕ → List ℕ
onto none ts = ts
onto (some t) ts = t ∷ ts

length-onto : (o : Option ℕ) (ts : List ℕ) (n : ℕ) → length ts ≤ n → length (onto o ts) ≤ suc n
length-onto none ts n l = omega (arith, l)
length-onto (some t) ts n l = omega (arith, l)

-- one target, and then those that the loop adds
push_target-eq-some :
    (id : ℕ) (loop : Pending → Option Pending) (ts : List ℕ)
    → ((s : Search) (current : List ℕ)
        → loop (s, current) ≡ some (connect_all id ts s, push_all ts current))
    → (o : Option ℕ) (s : Search) (current : List ℕ)
    → loop (push_target id o (s, current))
      ≡ some (connect_all id (onto o ts) s, push_all (onto o ts) current)
unfolding push_target connect_all
push_target-eq-some id loop ts h none s current = h s current
push_target-eq-some id loop ts h (some t) s current = h (connecting id t s) (t ∷ current)

module _ (ctx : WorkspaceContext) (contract : ContractDefinition) where
  -- what the calls and the invocations resolve to
  unfoldable pub function_targets : List FunctionCall → List ℕ
  function_targets [] = []
  function_targets (c ∷ cs) =
      onto (function_id (flat (resolve_internal_call ctx contract c))) (function_targets cs)

  unfoldable pub modifier_targets : List ModifierInvocation → List ℕ
  modifier_targets [] = []
  modifier_targets (c ∷ cs) =
      onto (modifier_id (flat (resolve_modifier_call ctx contract c))) (modifier_targets cs)

  unfoldable pub resolved_in : Option AstNode → List ℕ
  unfolding function_targets modifier_targets
  resolved_in none = []
  resolved_in (some n) =
      function_targets (extracted n).function_calls
      ++ modifier_targets (extracted n).modifier_invocations

  -- what a node uses when `contract` is the one that runs
  unfoldable pub resolved : ℕ → List ℕ
  unfolding resolved_in
  resolved a = resolved_in (lookup a ctx.nodes)

  length-function_targets : (cs : List FunctionCall) → length (function_targets cs) ≤ length cs
  unfolding function_targets
  length-function_targets [] = omega arith
  length-function_targets (c ∷ cs) =
      length-onto (function_id (flat (resolve_internal_call ctx contract c))) (function_targets cs)
        (length cs) (length-function_targets cs)

  length-modifier_targets :
      (cs : List ModifierInvocation) → length (modifier_targets cs) ≤ length cs
  unfolding modifier_targets
  length-modifier_targets [] = omega arith
  length-modifier_targets (c ∷ cs) =
      length-onto (modifier_id (flat (resolve_modifier_call ctx contract c))) (modifier_targets cs)
        (length cs) (length-modifier_targets cs)

  module _ (forest : IsForest ctx) where
    for_function_calls-eq-some :
        (id : ℕ) (cs : List FunctionCall) (s : Search) (current : List ℕ)
        → for_function_calls ctx contract id cs (s, current)
          ≡ some (connect_all id (function_targets cs) s, push_all (function_targets cs) current)
    unfolding for_function_calls function_targets
    for_function_calls-eq-some id [] s current = unfold connect_all in refl
    for_function_calls-eq-some id (c ∷ cs) s current =
        let (f, e) = resolve_internal_call-Returns ctx forest contract c in
        rw e (
          push_target-eq-some id (for_function_calls ctx contract id cs) (function_targets cs)
            (for_function_calls-eq-some id cs) (function_id f) s current)

    for_modifier_calls-eq-some :
        (id : ℕ) (cs : List ModifierInvocation) (s : Search) (current : List ℕ)
        → for_modifier_calls ctx contract id cs (s, current)
          ≡ some (connect_all id (modifier_targets cs) s, push_all (modifier_targets cs) current)
    unfolding for_modifier_calls modifier_targets
    for_modifier_calls-eq-some id [] s current = unfold connect_all in refl
    for_modifier_calls-eq-some id (c ∷ cs) s current =
        let (m, e) = resolve_modifier_call-Returns ctx forest contract c in
        rw e (
          push_target-eq-some id (for_modifier_calls ctx contract id cs) (modifier_targets cs)
            (for_modifier_calls-eq-some id cs) (modifier_id m) s current)

    for_calls-eq-some :
        (id : ℕ) (o : Option AstNode) (s : Search) (current : List ℕ)
        → for_calls ctx contract id o (s, current)
          ≡ some (connect_all id (resolved_in o) s, push_all (resolved_in o) current)
    unfolding for_calls resolved_in
    for_calls-eq-some id none s current = unfold connect_all in refl
    for_calls-eq-some id (some n) s current =
        let fs = function_targets (extracted n).function_calls in
        let ms = modifier_targets (extracted n).modifier_invocations in
        ap (λ o. o >>= for_modifier_calls ctx contract id (extracted n).modifier_invocations)
          (for_function_calls-eq-some id (extracted n).function_calls s current)
        ∙ for_modifier_calls-eq-some id (extracted n).modifier_invocations (connect_all id fs s)
            (push_all fs current)
        ∙ rw (connect_all-append id fs ms s, push_all-append fs ms current) refl

    -- what a visit pushes was pending
    pending-visited :
        (v : List ℕ) (c : ℕ) (o : Option AstNode)
        → lookup c ctx.nodes ≡ o
        → contains v c ≡ false
        → pending ctx.nodes (c ∷ v) + length (resolved_in o) ≤ pending ctx.nodes v
    unfolding resolved_in
    pending-visited v c none at unseen = omega (arith, pending-le ctx.nodes v c)
    pending-visited v c (some n) at unseen = omega (
      arith,
      pending-visit ctx.nodes v c n at unseen,
      length-append (function_targets (extracted n).function_calls)
          (modifier_targets (extracted n).modifier_invocations),
      length-function_targets (extracted n).function_calls,
      length-modifier_targets (extracted n).modifier_invocations,
    )

    while_pop-Open :
        (fuel : ℕ) (roots : List ℕ) (s : Search) (current : List ℕ)
        → Open resolved roots s current
        → pending ctx.nodes s.visited + length current ≤ fuel
        → (s' : Search) × (while_pop ctx contract fuel s current ≡ some s')
          × Open resolved roots s' []
    unfolding while_pop
    while_pop-Open fuel roots s [] o l = (s, refl, o)
    while_pop-Open zero roots s (c ∷ current) o l = absurd (omega (arith, l))
    while_pop-Open (suc fuel) roots s (c ∷ current) o l = elim (Bool-cases (contains s.visited c)) [
      | inl seen ↦
          let (s', run, o') =
            while_pop-Open fuel roots s current (Open-seen resolved seen o) (omega (arith, l)) in
          (s', rw seen run, o')
      | inr unseen ↦
          let ts = resolved_in (lookup c ctx.nodes) in
          let next = connect_all c ts (visiting c s) in
          let (s', run, o') =
            while_pop-Open fuel roots next (push_all ts current)
              (Open-visit resolved roots s c current ts (unfold resolved in refl) unseen o)
              (omega (
                arith,
                l,
                pending-visited s.visited c (lookup c ctx.nodes) refl unseen,
                length-push_all ts current,
                ap (pending ctx.nodes)
                    (connect_all-visited c ts (visiting c s) ∙ unfold visiting in refl),
              )) in
          (s', rw (unseen, for_calls-eq-some c (lookup c ctx.nodes) (visiting c s) current) run, o')
    ]

    abbrev Keyed : Search → Type 0
    Keyed s = (k : ℕ) → has_key s.raw_callgraph k ≡ contains s.visited k

    for_entrypoints-Done :
        (fs : List FunctionDefinition) (roots : List ℕ) (s : Search)
        → Done resolved roots s
        → Keyed s
        → (s' : Search) × (for_entrypoints ctx contract fs s ≡ some s')
          × Done resolved (ids fs ++ roots) s'
          × Keyed s'
    unfolding for_entrypoints
    for_entrypoints-Done [] roots s d keyed = (s, refl, d, keyed)
    for_entrypoints-Done (f ∷ fs) roots s d keyed =
        let (s1, run, o) =
          while_pop-Open (call_count ctx.nodes + 1) (f.id ∷ roots) s (f.id ∷ [])
            (Done-Open resolved f.id d keyed)
            (omega (arith, pending-le-call_count ctx.nodes s.visited)) in
        let (s2, run', d', keyed') =
          for_entrypoints-Done fs (f.id ∷ roots) s1 (Open-Done resolved o) o.keys in
        (
          s2,
          rw run run',
          Done-same resolved (ids fs ++ f.id ∷ roots) (f.id ∷ ids fs ++ roots) (swapped fs f roots)
              d',
          keyed',
        )
      where
        swapped :
            (fs : List FunctionDefinition) (f : FunctionDefinition) (roots : List ℕ) (k : ℕ)
            → contains (ids fs ++ f.id ∷ roots) k ≡ (f.id == k || contains (ids fs ++ roots) k)
        swapped fs f roots k =
            contains-append (ids fs) (f.id ∷ roots) k
            ∙ rw (contains-append (ids fs) roots k) (ground arith)

    -- In a workspace whose parent links do not go round, and for a contract with entry points, one more round
    -- than the nodes have calls and invocations is enough for each entry point: `_create_raw_callgraph`
    -- returns the graph that connects exactly each node that the entry points lead to with what its
    -- calls and invocations resolve to in that contract. Its keys are exactly those nodes, and each
    -- target is listed once.
    pub create_raw_callgraph-IsCallGraph :
        (fs : List FunctionDefinition)
        → entrypoint_functions ctx contract ≡ some fs
        → (g : RawCallGraph) × (create_raw_callgraph ctx contract ≡ some (some g))
          × IsCallGraph resolved (ids fs) g
          × IsKeyed resolved (ids fs) g
    unfolding create_raw_callgraph from_entrypoints
    create_raw_callgraph-IsCallGraph fs at =
        let (s, run, d, keyed) =
          for_entrypoints-Done fs [] fresh (Done-fresh resolved) (λ k. unfold lookup in refl) in
        let d' =
          Done-same resolved (ids fs ++ []) (ids fs)
            (λ k. ap (λ l. contains l k) (append-nil (ids fs))) d in
        (
          s.raw_callgraph,
          ap (from_entrypoints ctx contract) at ∙ rw run refl,
          Done-IsCallGraph resolved s d',
          Done-IsKeyed resolved s d' keyed,
        )
