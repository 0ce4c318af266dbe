-- ===== src/Flow/Jumps/Destination.antt =====
-- Where `calibrate` of aderyn_core/src/context/flow/utils.rs lets each jump flow.
use aderyn.Prelude.{
  ℕ, Option, none, some, List, [], ◌∷◌, ◌≡◌, refl, ap, ◌==◌, if◌then◌else◌, is_some, Bool-cases,
  inl, inr, All, All-map, subst, sym,
}
use aderyn.Prelude.Assoc.{lookup}
use aderyn.Flow.Cfg.{Cfg, raw_successors}
use aderyn.Flow.Jumps.{
  Calibration, calibrated, calibrate, continue_should_flow_to, break_should_flow_to,
  return_should_flow_to_end_node, default_site, for_loop, while_loop, do_while_loop,
}
use aderyn.Flow.Jumps.Calibrate.{assigned, assigned_by, successors_of, calibrate-Assigned}

-- the node of a jump
abbrev pub jump_of : Calibration → ℕ
jump_of (continue_should_flow_to c dest) = c
jump_of (break_should_flow_to b dest) = b
jump_of (return_should_flow_to_end_node r) = r

-- Where a jump flows: a `continue` to the update of a `for` and to the condition of the other loops, a
-- `break` to the end of its loop, and to the end node what leaves no loop.
pub data FlowsTo (cfg : Cfg) (end_id : ℕ) : Calibration → ℕ → Type 0 where
  to_update :
      {c l d : ℕ}
      → lookup l cfg.start_loop_expr ≡ some d
      → FlowsTo cfg end_id (continue_should_flow_to c (for_loop l)) d
  to_while_condition :
      {c l d : ℕ}
      → lookup l cfg.start_cond_pairs ≡ some d
      → FlowsTo cfg end_id (continue_should_flow_to c (while_loop l)) d
  to_do_while_condition :
      {c l d : ℕ}
      → lookup l cfg.start_cond_pairs ≡ some d
      → FlowsTo cfg end_id (continue_should_flow_to c (do_while_loop l)) d
  past_for :
      {b l d : ℕ}
      → lookup l cfg.start_end_pairs ≡ some d
      → FlowsTo cfg end_id (break_should_flow_to b (for_loop l)) d
  past_while :
      {b l d : ℕ}
      → lookup l cfg.start_end_pairs ≡ some d
      → FlowsTo cfg end_id (break_should_flow_to b (while_loop l)) d
  past_do_while :
      {b l d : ℕ}
      → lookup l cfg.start_end_pairs ≡ some d
      → FlowsTo cfg end_id (break_should_flow_to b (do_while_loop l)) d
  continue_outside : {c : ℕ} → FlowsTo cfg end_id (continue_should_flow_to c default_site) end_id
  break_outside : {b : ℕ} → FlowsTo cfg end_id (break_should_flow_to b default_site) end_id
  returning : {r : ℕ} → FlowsTo cfg end_id (return_should_flow_to_end_node r) end_id

abbrev pub HasDestination : Cfg → ℕ → Calibration → Type 0
HasDestination cfg end_id c = (d : ℕ) × FlowsTo cfg end_id c d

-- the last calibration of the node
abbrev later_or : Option Calibration → Calibration → ℕ → Option Calibration
later_or (some c) first a = some c
later_or none first a = if jump_of first == a then some first else none

abbrev pub last_for : ℕ → List Calibration → Option Calibration
last_for a [] = none
last_for a (c ∷ cs) = later_or (last_for a cs) c a

-- the successors of a node, from what they were and its last calibration
abbrev pub Flows : Cfg → ℕ → Option Calibration → List ℕ → List ℕ → Type 0
Flows cfg end_id none old new = new ≡ old
Flows cfg end_id (some c) old new = (d : ℕ) × FlowsTo cfg end_id c d × (new ≡ d ∷ [])

-- Only the edges of `h` differ from those of `cfg`, and each node flows where its last calibration says.
pub record Calibrated (cfg : Cfg) (end_id : ℕ) (cs : List Calibration) (h : Cfg) : Type 0 where
  pub others : record h { adj_list = [] } ≡ record cfg { adj_list = [] }
  pub flows : (a : ℕ) → Flows cfg end_id (last_for a cs) (raw_successors cfg a) (raw_successors h a)

module _ (cfg : Cfg) (end_id : ℕ) where
  calibrated-FlowsTo :
      (c : Calibration) (d : ℕ)
      → FlowsTo cfg end_id c d
      → calibrated cfg end_id c ≡ some (jump_of c, d)
  calibrated-FlowsTo c d (to_update e) = rw e refl
  calibrated-FlowsTo c d (to_while_condition e) = rw e refl
  calibrated-FlowsTo c d (to_do_while_condition e) = rw e refl
  calibrated-FlowsTo c d (past_for e) = rw e refl
  calibrated-FlowsTo c d (past_while e) = rw e refl
  calibrated-FlowsTo c d (past_do_while e) = rw e refl
  calibrated-FlowsTo c d continue_outside = refl
  calibrated-FlowsTo c d break_outside = refl
  calibrated-FlowsTo c d returning = refl

  -- what a node is assigned is where its last calibration flows
  abbrev Meant : Option Calibration → Option ℕ → Type 0
  Meant none o = o ≡ none
  Meant (some c) o = (d : ℕ) × FlowsTo cfg end_id c d × (o ≡ some d)

  assigned-Meant :
      (cs : List Calibration) (a : ℕ)
      → All (HasDestination cfg end_id) cs
      → Meant (last_for a cs) (assigned cfg end_id cs a)
  assigned-Meant [] a all = refl
  assigned-Meant (c ∷ cs) a ((d, f), all) =
      rw (calibrated-FlowsTo c d f)
        (after (last_for a cs) (assigned cfg end_id cs a) (assigned-Meant cs a all))
    where
      after :
          (o : Option Calibration) (p : Option ℕ)
          → Meant o p
          → Meant (later_or o c a) (assigned_by p (some (jump_of c, d)) a)
      after none p e = rw e (elim (Bool-cases (jump_of c == a)) [
        | inl here ↦ rw here (d, f, refl)
        | inr other ↦ rw other refl
      ])
      after (some c') p (d', f', e) = rw e (d', f', refl)

  Meant-Flows :
      (o : Option Calibration) (p : Option ℕ) (old : List ℕ)
      → Meant o p
      → Flows cfg end_id o old (successors_of p old)
  Meant-Flows none p old e = ap (λ q. successors_of q old) e
  Meant-Flows (some c) p old (d, f, e) = (d, f, ap (λ q. successors_of q old) e)

-- Where each calibration has a destination (its loop's entry in the lookup map, if it has a loop),
-- `calibrate` returns a graph in which nothing but the edges has changed: a node flows only to the
-- destination of its last calibration, and a node that has none keeps its successors.
pub calibrate-Calibrated :
    (cs : List Calibration) (end_id : ℕ) (cfg : Cfg)
    → All (HasDestination cfg end_id) cs
    → (h : Cfg) × (calibrate cs end_id cfg ≡ some h) × Calibrated cfg end_id cs h
calibrate-Calibrated cs end_id cfg all =
    let (h, runs, r) =
      calibrate-Assigned cs end_id cfg
        (All-map (λ c (d, f). ap is_some (calibrated-FlowsTo cfg end_id c d f)) cs all) in
    (
      h,
      runs,
      record {
        others = r.others;
        flows = λ a.
            subst (Flows cfg end_id (last_for a cs) (raw_successors cfg a)) (sym (r.successors a)) (
              Meant-Flows cfg end_id (last_for a cs) (assigned cfg end_id cs a)
                (raw_successors cfg a) (assigned-Meant cfg end_id cs a all));
      },
    )
