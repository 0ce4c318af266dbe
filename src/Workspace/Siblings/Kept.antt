-- ===== src/Workspace/Siblings/Kept.antt =====
-- What each sort keeps, whatever the nodes: how often an id stands in the list, and what holds of every
-- node.
use Prim.Native.Nat.{Ordering}
use aderyn.Prelude.{
  some_inj, ℕ, ◌+◌, Option, none, some, ◌>>=◌, List, [], ◌∷◌, ◌≡◌, refl, arith, All, inl, inr, ◌==◌,
  if◌then◌else◌, >>=-eq-some, subst, Bool-cases, ◌∙◌,
}
use aderyn.Workspace.Ast.{AstNode, node_id}
use aderyn.Workspace.Context.{WorkspaceContext}
use aderyn.Workspace.Siblings.{
  compare_nodes, insert_sorted, sort_by, sort_by_src_position, have_ids, paths_of, same_file,
}

-- how many nodes have the id
abbrev pub count_id : ℕ → List AstNode → ℕ
count_id j [] = 0
count_id j (n ∷ ns) =
    (elim (node_id n) [ none ↦ 0 | some i ↦ if i == j then 1 else 0 ]) + count_id j ns

pub record Kept {κ} (P : AstNode → Type κ) (ns zs : List AstNode) : Type κ where
  pub count : (j : ℕ) → count_id j zs ≡ count_id j ns
  pub all : All P ns → All P zs

module _ {κ} (P : AstNode → Type κ) (ctx : WorkspaceContext) where
  Kept-stays : (ns : List AstNode) → Kept P ns ns
  Kept-stays ns = record { count = λ j. refl; all = λ h. h }

  Kept-swap :
      (x y : AstNode) (ys zs : List AstNode) → Kept P (x ∷ ys) zs → Kept P (x ∷ y ∷ ys) (y ∷ zs)
  Kept-swap x y ys zs k = record {
    count = λ j. omega (arith, k.count j);
    all = λ h. (h.1.0, k.all (h.0, h.1.1));
  }

  inserted :
      (x y : AstNode) (ys zs : List AstNode)
      → ((ws : List AstNode) → insert_sorted ctx x ys ≡ some ws → Kept P (x ∷ ys) ws)
      → (c : Option Ordering)
      → Path
          (Option (List AstNode))
          (elim c [
            | none ↦ none
            | some Ordering.gt ↦ insert_sorted ctx x ys >>= λ r. some (y ∷ r)
            | some _ ↦ some (x ∷ y ∷ ys)
          ])
          (some zs)
      → Kept P (x ∷ y ∷ ys) zs
  inserted x y ys zs ih none h = cc
  inserted x y ys zs ih (some Ordering.lt) h =
      subst (Kept P (x ∷ y ∷ ys)) (some_inj h) (Kept-stays (x ∷ y ∷ ys))
  inserted x y ys zs ih (some Ordering.eq) h =
      subst (Kept P (x ∷ y ∷ ys)) (some_inj h) (Kept-stays (x ∷ y ∷ ys))
  inserted x y ys zs ih (some Ordering.gt) h =
      let (ws, e, s) = >>=-eq-some (insert_sorted ctx x ys) (λ r. some (y ∷ r)) h in
      subst (Kept P (x ∷ y ∷ ys)) (some_inj s) (Kept-swap x y ys ws (ih ws e))

  insert_sorted-Kept :
      (x : AstNode) (ys zs : List AstNode) → insert_sorted ctx x ys ≡ some zs → Kept P (x ∷ ys) zs
  unfolding insert_sorted
  insert_sorted-Kept x [] zs h = subst (Kept P (x ∷ [])) (some_inj h) (Kept-stays (x ∷ []))
  insert_sorted-Kept x (y ∷ ys) zs h =
      inserted x y ys zs (insert_sorted-Kept x ys) (compare_nodes ctx x y) h

  sort_by-Kept : (ns zs : List AstNode) → sort_by ctx ns ≡ some zs → Kept P ns zs
  unfolding sort_by
  sort_by-Kept [] zs h = subst (Kept P []) (some_inj h) (Kept-stays [])
  sort_by-Kept (n ∷ ns) zs h =
      let (ys, e, i) = >>=-eq-some (sort_by ctx ns) (insert_sorted ctx n) h in
      let k = sort_by-Kept ns ys e in
      let l = insert_sorted-Kept n ys zs i in
      record {
        count = λ j. omega (arith, k.count j, l.count j);
        all = λ (p, ps). l.all (p, k.all ps);
      }

  pub sort_by_src_position-Kept :
      (ns zs : List AstNode) → sort_by_src_position ctx ns ≡ some (some zs) → Kept P ns zs
  unfolding sort_by_src_position
  sort_by_src_position-Kept ns zs h = elim (Bool-cases (have_ids ns)) [
    | inr no_id ↦ cc (rw no_id at h)
    | inl all_have ↦
        let (ps, at, e) =
          >>=-eq-some (paths_of ctx ns)
            (λ paths.
              if same_file paths
              then (sort_by ctx ns >>= λ sorted. some (some sorted))
              else some none)
            (rw all_have at h) in
        elim (Bool-cases (same_file ps)) [
          | inr other ↦ cc (rw other at e)
          | inl same ↦
              let (ws, sorts, r) =
                >>=-eq-some (sort_by ctx ns) (λ sorted. some (some sorted)) (rw same at e) in
              sort_by-Kept ns zs (sorts ∙ some_inj r)
        ]
  ]
