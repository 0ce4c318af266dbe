-- ===== src/Flow/Cfg/Edges.antt =====
-- The edges of the graph, as a test, and what each raw operation does to them.
use aderyn.Prelude.{
  ℕ, Bool, false, not, ◌&&◌, ◌||◌, List, [], ◌∷◌, ◌≡◌, refl, ap, ◌∙◌, arith, ◌==◌, if◌then◌else◌,
  contains, is_some, ==_iff, contains-append,
}
use aderyn.Prelude.Assoc.{lookup, remove, lookup-remove, IsMap, remove-IsMap}
use aderyn.Flow.Cfg.{
  Cfg, or_nil, raw_successors, raw_predecessors, pointing_to, retain_ne, retain_all,
  add_raw_directed_edge, remove_raw_edges_involving,
}
use aderyn.Flow.Cfg.Built.{raw_successors-edge}

abbrev pub edge : Cfg → ℕ → ℕ → Bool
edge g a b = contains (raw_successors g a) b

pub contains-retain_ne :
    (t : ℕ) (xs : List ℕ) (b : ℕ) → contains (retain_ne t xs) b ≡ (contains xs b && not (t == b))
unfolding retain_ne
contains-retain_ne t [] b = refl
contains-retain_ne t (x ∷ xs) b = ground (arith, contains-retain_ne t xs b)

pub edge-add :
    (from to a b : ℕ) (g : Cfg)
    → edge (add_raw_directed_edge from to g) a b ≡ (edge g a b || (from == a && to == b))
edge-add from to a b g =
    ap (λ l. contains l b) (raw_successors-edge from to a g)
    ∙ contains-append (raw_successors g a) (if from == a then to ∷ [] else []) b
    ∙ ground arith

pub lookup-retain_all :
    (c a : ℕ) (m : List (ℕ × List ℕ))
    → or_nil (lookup a (retain_all c m)) ≡ retain_ne c (or_nil (lookup a m))
unfolding lookup retain_all retain_ne
lookup-retain_all c a [] = refl
lookup-retain_all c a ((k, l) ∷ m) = ground (arith, lookup-retain_all c a m)

is_some-retain_all :
    (c a : ℕ) (m : List (ℕ × List ℕ)) → is_some (lookup a (retain_all c m)) ≡ is_some (lookup a m)
unfolding lookup retain_all
is_some-retain_all c a [] = refl
is_some-retain_all c a ((k, l) ∷ m) = ground (arith, is_some-retain_all c a m)

retain_all-IsMap : (c : ℕ) (m : List (ℕ × List ℕ)) → IsMap m → IsMap (retain_all c m)
unfolding retain_all
retain_all-IsMap c [] h = tt
retain_all-IsMap c ((k, l) ∷ m) h = (is_some-retain_all c k m ∙ h.0, retain_all-IsMap c m h.1)

-- Removing the edges that involve `c` leaves exactly the edges that neither start nor end at `c`.
pub edge-remove_involving :
    (c a b : ℕ) (g : Cfg)
    → edge (remove_raw_edges_involving c g) a b ≡ (edge g a b && (not (c == a) && not (c == b)))
unfolding raw_successors remove_raw_edges_involving
edge-remove_involving c a b g =
    ap (λ l. contains l b) (lookup-retain_all c a (remove c g.adj_list))
    ∙ contains-retain_ne c (or_nil (lookup a (remove c g.adj_list))) b
    ∙ ap (λ o. contains (or_nil o) b && not (c == b)) (lookup-remove c a g.adj_list)
    ∙ ground arith

pub keyed-remove_involving :
    (c : ℕ) (g : Cfg) → IsMap g.adj_list → IsMap (remove_raw_edges_involving c g).adj_list
unfolding remove_raw_edges_involving
keyed-remove_involving c g h =
    retain_all-IsMap c (remove c g.adj_list) (remove-IsMap c g.adj_list h)

contains-pointing_to_missing :
    (c a : ℕ) (m : List (ℕ × List ℕ))
    → is_some (lookup a m) ≡ false
    → contains (pointing_to c m) a ≡ false
unfolding lookup pointing_to
contains-pointing_to_missing c a [] h = refl
contains-pointing_to_missing c a ((k, l) ∷ m) h = ground (arith, contains-pointing_to_missing c a m)

-- The predecessors are the nodes with an edge to `c`.
contains-pointing_to :
    (c a : ℕ) (m : List (ℕ × List ℕ))
    → IsMap m
    → contains (pointing_to c m) a ≡ contains (or_nil (lookup a m)) c
unfolding lookup pointing_to
contains-pointing_to c a [] h = refl
contains-pointing_to c a ((k, l) ∷ m) h =
    ground
      (arith, contains-pointing_to c a m h.1, contains-pointing_to_missing c k m h.0, ==_iff k a)

-- Where each node has one vector of successors, the predecessors of `c` are exactly the nodes whose
-- successors contain `c`.
pub contains-raw_predecessors :
    (c a : ℕ) (g : Cfg) → IsMap g.adj_list → contains (raw_predecessors g c) a ≡ edge g a c
unfolding raw_predecessors raw_successors
contains-raw_predecessors c a g h = contains-pointing_to c a g.adj_list h
