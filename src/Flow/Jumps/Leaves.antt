-- ===== src/Flow/Jumps/Leaves.antt =====
-- The calibration of a graph whose only jumps are `return`s.
use aderyn.Prelude.{
  ℕ, Bool, true, false, ◌&&◌, none, some, List, [], ◌∷◌, ◌≡◌, refl, ◌∙◌, arith, if◌then◌else◌,
  is_some, Bool-cases, ap, inl, inr, All, contains, map,
}
use aderyn.Flow.Cfg.{Cfg, raw_successors, has_node}
use aderyn.Flow.Cfg.Edges.{edge}
use aderyn.Prelude.Leads.{Leads}
use aderyn.Flow.Reduce.Invariant.{IsReducing}
use aderyn.Flow.Jumps.{
  Sources, return_should_flow_to_end_node, calibrated, propose, calibrate_jump_statements_in_body,
}
use aderyn.Flow.Jumps.Calibrate.{assigned, calibrate-Assigned}
use aderyn.Flow.Jumps.Discover.{
  continues, breaks, returning, jump_at, Discovered, discover_jump_sources-Discovered,
}

nil_of : (xs : List ℕ) → ((k : ℕ) → contains xs k ≡ false) → xs ≡ []
nil_of [] f = refl
nil_of (x ∷ xs) f = ground (arith, f x)

module _ (g : Cfg) (end_id : ℕ) where
  returns-resolved :
      (rs : List ℕ)
      → All (λ c. is_some (calibrated g end_id c) ≡ true) (map return_should_flow_to_end_node rs)
  returns-resolved [] = tt
  returns-resolved (r ∷ rs) = (refl, returns-resolved rs)

  returns-assigned :
      (rs : List ℕ) (a : ℕ)
      → assigned g end_id (map return_should_flow_to_end_node rs) a
        ≡ (if contains rs a then some end_id else none)
  returns-assigned [] a = refl
  returns-assigned (r ∷ rs) a = elim (Bool-cases (contains rs a)) [
    | inl later ↦ rw (returns-assigned rs a, later) (ground (arith, later))
    | inr not_later ↦ rw (returns-assigned rs a, not_later) (ground (arith, not_later))
  ]

-- What the calibration makes of the `return`s that `start` leads to, and of every other node.
pub record Leaving (g : Cfg) (start end_id : ℕ) (h : Cfg) : Type 0 where
  pub nodes : h.nodes ≡ g.nodes
  pub leaves :
      (k : ℕ)
      → Leads (edge g) start k
      → jump_at returning g k ≡ true
      → raw_successors h k ≡ end_id ∷ []
  pub stays :
      (k : ℕ)
      → (Leads (edge g) start k → jump_at returning g k ≡ false)
      → raw_successors h k ≡ raw_successors g k

-- In a graph that satisfies the invariant of the reduction, where the start is a node that leads to no
-- `continue` and no `break`, `calibrate_jump_statements_in_body` returns: each `return` that the start
-- leads to has the end node as its one successor, and every other node keeps its successors, a `return`
-- that the start does not lead to among them.
pub calibrate_jump_statements_in_body-Leaving :
    (g : Cfg)
    → IsReducing g
    → (start end_id : ℕ) → has_node g start ≡ true
    → ((k : ℕ)
        → Leads (edge g) start k
        → (jump_at continues g k ≡ false) × (jump_at breaks g k ≡ false))
    → (h : Cfg) × (calibrate_jump_statements_in_body start end_id g ≡ some h)
      × Leaving g start end_id h
unfolding calibrate_jump_statements_in_body propose
calibrate_jump_statements_in_body-Leaving g i start end_id there calm =
    let (s, run, d) = discover_jump_sources-Discovered g i start there in
    let no_continue : s.continue_statements ≡ [] =
      nil_of _ (λ k. d.jumps continues k ∙ calm_at d k (λ p. (calm k p).0)) in
    let no_break : s.break_statements ≡ [] =
      nil_of _ (λ k. d.jumps breaks k ∙ calm_at d k (λ p. (calm k p).1)) in
    let (h, flows, r) =
      calibrate-Assigned (map return_should_flow_to_end_node s.return_statements) end_id g
        (returns-resolved g end_id s.return_statements) in
    (
      h,
      rw (run, no_continue, no_break) flows,
      record {
        nodes = ap (λ c. c.nodes) r.others;
        leaves = λ k p j.
            r.successors k
            ∙ rw
                (
                  returns-assigned g end_id s.return_statements k,
                  d.jumps returning k,
                  d.led_to k p,
                  j,
                )
                refl;
        stays = λ k j.
            r.successors k
            ∙ rw
                (
                  returns-assigned g end_id s.return_statements k,
                  d.jumps returning k,
                  calm_at d k j,
                )
                refl;
      },
    )
  where
    calm_at :
        {s : Sources} {p : Bool}
        → Discovered g start s
        → (k : ℕ) → (Leads (edge g) start k → p ≡ false)
        → (contains s.visited k && p) ≡ false
    calm_at {s} {p} d k f = elim (Bool-cases (contains s.visited k)) [
      | inl v ↦ rw v (f (d.only k v))
      | inr u ↦ rw u refl
    ]
