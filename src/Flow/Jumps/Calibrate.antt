-- ===== src/Flow/Jumps/Calibrate.antt =====
-- `calibrate` of aderyn_core/src/context/flow/utils.rs gives each jump one successor.
use aderyn.Prelude.{
  ℕ, true, Option, none, some, List, [], ◌∷◌, ◌≡◌, refl, ap, ◌∙◌, arith, ◌==◌, if◌then◌else◌,
  is_some, Bool-cases, Option-cases, inl, inr, All, All-map, append-nil,
}
use aderyn.Prelude.Assoc.{remove, lookup-remove}
use aderyn.Flow.Cfg.{Cfg, or_nil, raw_successors, add_raw_directed_edge, reset_raw_successors}
use aderyn.Flow.Cfg.Built.{raw_successors-edge}
use aderyn.Flow.Jumps.{
  Calibration, calibrated, calibrate, continue_should_flow_to, break_should_flow_to,
  return_should_flow_to_end_node, default_site, for_loop, while_loop, do_while_loop,
}

-- The destination that the list gives to the node `a`: the last entry for it counts.
abbrev pub assigned_by : Option ℕ → Option (ℕ × ℕ) → ℕ → Option ℕ
assigned_by (some d) c a = some d
assigned_by none none a = none
assigned_by none (some (target, dest)) a = if target == a then some dest else none

abbrev pub assigned : Cfg → ℕ → List Calibration → ℕ → Option ℕ
assigned cfg end_id [] a = none
assigned cfg end_id (c ∷ cs) a = assigned_by (assigned cfg end_id cs a) (calibrated cfg end_id c) a

abbrev pub successors_of : Option ℕ → List ℕ → List ℕ
successors_of none old = old
successors_of (some dest) old = dest ∷ []

-- `h` is `cfg` with those destinations: nothing but the edges differs, a node with a destination has it as
-- its one successor, and any other node keeps its successors.
pub record Assigned (cfg : Cfg) (end_id : ℕ) (cs : List Calibration) (h : Cfg) : Type 0 where
  pub others : record h { adj_list = [] } ≡ record cfg { adj_list = [] }
  pub successors :
      (a : ℕ) → raw_successors h a ≡ successors_of (assigned cfg end_id cs a) (raw_successors cfg a)

module _ (id to : ℕ) (g : Cfg) where
  reset_raw_successors-successors :
      (a : ℕ)
      → raw_successors (reset_raw_successors id to g) a
        ≡ (if id == a then to ∷ [] else raw_successors g a)
  unfolding reset_raw_successors raw_successors
  reset_raw_successors-successors a =
      raw_successors-edge id to a (record g { adj_list = remove id g.adj_list })
      ∙ elim (Bool-cases (id == a)) [
        | inl same ↦ rw (same, ap or_nil (lookup-remove id a g.adj_list), same) refl
        | inr other ↦
            rw (other, ap or_nil (lookup-remove id a g.adj_list), other)
              (append-nil (raw_successors g a))
      ]

  reset_raw_successors-others :
      record (reset_raw_successors id to g) { adj_list = [] } ≡ record g { adj_list = [] }
  unfolding reset_raw_successors add_raw_directed_edge
  reset_raw_successors-others = refl

  -- the destinations do not depend on the edges
  reset-calibrated :
      (end_id : ℕ) (c : Calibration)
      → calibrated (reset_raw_successors id to g) end_id c ≡ calibrated g end_id c
  unfolding reset_raw_successors add_raw_directed_edge
  reset-calibrated end_id (continue_should_flow_to c (for_loop l)) = refl
  reset-calibrated end_id (continue_should_flow_to c (while_loop l)) = refl
  reset-calibrated end_id (continue_should_flow_to c (do_while_loop l)) = refl
  reset-calibrated end_id (continue_should_flow_to c default_site) = refl
  reset-calibrated end_id (break_should_flow_to b default_site) = refl
  reset-calibrated end_id (break_should_flow_to b (for_loop l)) = refl
  reset-calibrated end_id (break_should_flow_to b (while_loop l)) = refl
  reset-calibrated end_id (break_should_flow_to b (do_while_loop l)) = refl
  reset-calibrated end_id (return_should_flow_to_end_node r) = refl

  reset-assigned :
      (end_id : ℕ) (cs : List Calibration) (a : ℕ)
      → assigned (reset_raw_successors id to g) end_id cs a ≡ assigned g end_id cs a
  reset-assigned end_id [] a = refl
  reset-assigned end_id (c ∷ cs) a = rw (reset-assigned end_id cs a, reset-calibrated end_id c) refl

assigned_by-successors :
    (o : Option ℕ) (target dest a : ℕ) (old : List ℕ)
    → successors_of o (if target == a then dest ∷ [] else old)
      ≡ successors_of (assigned_by o (some (target, dest)) a) old
assigned_by-successors none target dest a old = elim (Bool-cases (target == a)) [
  | inl same ↦ rw same refl
  | inr other ↦ rw other refl
]
assigned_by-successors (some d) target dest a old = refl

pub calibrate-Assigned :
    (cs : List Calibration) (end_id : ℕ) (cfg : Cfg)
    → All (λ c. is_some (calibrated cfg end_id c) ≡ true) cs
    → (h : Cfg) × (calibrate cs end_id cfg ≡ some h) × Assigned cfg end_id cs h
unfolding calibrate
calibrate-Assigned [] end_id cfg all = (cfg, refl, record { others = refl; successors = λ a. refl })
calibrate-Assigned (c ∷ cs) end_id cfg all = elim (Option-cases (calibrated cfg end_id c)) [
  | inl missing ↦ ground (arith, missing, all.0)
  | inr ((target, dest), e) ↦
      let (h, runs, r) =
        calibrate-Assigned cs end_id (reset_raw_successors target dest cfg) (
          All-map (λ c' p. ap is_some (reset-calibrated target dest cfg end_id c') ∙ p) cs all.1) in
      (
        h,
        rw e runs,
        record {
          others = r.others ∙ reset_raw_successors-others target dest cfg;
          successors = λ a.
              r.successors a
              ∙ rw
                  (
                    reset-assigned target dest cfg end_id cs a,
                    reset_raw_successors-successors target dest cfg a,
                    e,
                  )
                  (assigned_by-successors (assigned cfg end_id cs a) target dest a
                    (raw_successors cfg a));
        },
      )
]
