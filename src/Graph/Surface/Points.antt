-- ===== src/Graph/Surface/Points.antt =====
-- The points of a contract, and how they are added.
use aderyn.Prelude.{
  ℕ, Bool, true, false, ◌&&◌, ◌||◌, Option, none, some, List, [], ◌∷◌, ◌≡◌, refl, ap, ◌∙◌, arith,
  ◌==◌, if◌then◌else◌, Bool-cases, inl, inr, ==_iff, contains,
}
use aderyn.Prelude.Assoc.{lookup, insert, lookup-insert}
use aderyn.Graph.New.Total.{onto}
use aderyn.Graph.Surface.{
  GraphPoints, GraphPointType, ExplorationPoints, no_points, put, put_point, add_at, add, add_if,
}

abbrev pub of_type : GraphPointType → GraphPoints → List ℕ
of_type GraphPointType.entry o = o.entry
of_type GraphPointType.inward o = o.inward
of_type GraphPointType.outward o = o.outward

abbrev pub is_type : GraphPointType → GraphPointType → Bool
is_type GraphPointType.entry GraphPointType.entry = true
is_type GraphPointType.inward GraphPointType.inward = true
is_type GraphPointType.outward GraphPointType.outward = true
is_type _ _ = false

abbrev pub at_contract : GraphPointType → Option GraphPoints → List ℕ
at_contract t none = []
at_contract t (some o) = of_type t o

-- whether `p` is a point of the contract `c`
abbrev pub is_point : GraphPointType → ℕ → ℕ → ExplorationPoints → Bool
is_point t c p points = contains (at_contract t (lookup c points)) p

contains-put : (p q : ℕ) (ps : List ℕ) → contains (put p ps) q ≡ (contains ps q || p == q)
contains-put p q ps = elim (Bool-cases (contains ps p)) [
  | inl old ↦ elim (Bool-cases (p == q)) [
    | inl same ↦ rw old (ground (arith, same, rw ((==_iff p q).0 same) at old))
    | inr other ↦ rw old (ground (arith, other))
  ]
  | inr new ↦ rw new (ground arith)
]

contains-put_point :
    (t u : GraphPointType) (p q : ℕ) (o : GraphPoints)
    → contains (of_type u (put_point t p o)) q
      ≡ (contains (of_type u o) q || (is_type t u && p == q))
unfolding put_point
contains-put_point GraphPointType.entry GraphPointType.entry p q o = contains-put p q o.entry
contains-put_point GraphPointType.inward GraphPointType.inward p q o = contains-put p q o.inward
contains-put_point GraphPointType.outward GraphPointType.outward p q o = contains-put p q o.outward
contains-put_point GraphPointType.entry GraphPointType.inward p q o = ground arith
contains-put_point GraphPointType.entry GraphPointType.outward p q o = ground arith
contains-put_point GraphPointType.inward GraphPointType.entry p q o = ground arith
contains-put_point GraphPointType.inward GraphPointType.outward p q o = ground arith
contains-put_point GraphPointType.outward GraphPointType.entry p q o = ground arith
contains-put_point GraphPointType.outward GraphPointType.inward p q o = ground arith

abbrev or_none : Option GraphPoints → GraphPoints
or_none none = no_points
or_none (some o) = o

lookup-add_at :
    (o : Option GraphPoints) (t : GraphPointType) (c p d : ℕ) (points : ExplorationPoints)
    → lookup c points ≡ o
    → lookup d (add_at o t c p points)
      ≡ (if c == d then some (put_point t p (or_none o)) else lookup d points)
unfolding add_at
lookup-add_at (some o) t c p d points at = lookup-insert c d (put_point t p o) points
lookup-add_at none t c p d points at =
    lookup-insert c d (put_point t p no_points) (insert c no_points points)
    ∙ rw (lookup-insert c d no_points points) (ground arith)

no_points-empty :
    (u : GraphPointType) (o : Option GraphPoints) → at_contract u o ≡ of_type u (or_none o)
no_points-empty GraphPointType.entry none = refl
no_points-empty GraphPointType.inward none = refl
no_points-empty GraphPointType.outward none = refl
no_points-empty u (some o) = refl

-- To add a point makes it a point of its type and contract, and changes no other.
pub is_point-add :
    (t u : GraphPointType) (c d p q : ℕ) (points : ExplorationPoints)
    → is_point u d q (add t c p points)
      ≡ (is_point u d q points || ((is_type t u && c == d) && p == q))
unfolding add
is_point-add t u c d p q points =
    ap (λ o. contains (at_contract u o) q) (lookup-add_at (lookup c points) t c p d points refl)
    ∙ elim (Bool-cases (c == d)) [
      | inl same ↦ rw same (
          contains-put_point t u p q (or_none (lookup c points))
          ∙ rw (← no_points-empty u (lookup c points)) (rw ((==_iff c d).0 same) (ground arith)))
      | inr other ↦ ground (arith, other)
    ]

-- the points that a list of calls adds
unfoldable pub add_all : GraphPointType → ℕ → List ℕ → ExplorationPoints → ExplorationPoints
add_all t c [] points = points
add_all t c (p ∷ ps) points = add_all t c ps (add t c p points)

pub is_point-add_all :
    (t u : GraphPointType) (c d q : ℕ) (ps : List ℕ) (points : ExplorationPoints)
    → is_point u d q (add_all t c ps points)
      ≡ (is_point u d q points || ((is_type t u && c == d) && contains ps q))
unfolding add_all
is_point-add_all t u c d q [] points = ground arith
is_point-add_all t u c d q (p ∷ ps) points =
    is_point-add_all t u c d q ps (add t c p points)
    ∙ rw (is_point-add t u c d p q points) (ground arith)

abbrev pub is_id : Option ℕ → ℕ → Bool
is_id none p = false
is_id (some i) p = i == p

pub is_point-add_if :
    (t u : GraphPointType) (c d q : ℕ) (o : Option ℕ) (points : ExplorationPoints)
    → is_point u d q (add_if t c o points)
      ≡ (is_point u d q points || ((is_type t u && c == d) && is_id o q))
is_point-add_if t u c d q none points = ground arith
is_point-add_if t u c d q (some p) points = is_point-add t u c d p q points

pub add_all-onto :
    (t : GraphPointType) (c : ℕ) (o : Option ℕ) (ps : List ℕ) (points : ExplorationPoints)
    → add_all t c ps (add_if t c o points) ≡ add_all t c (onto o ps) points
unfolding add_all
add_all-onto t c none ps points = refl
add_all-onto t c (some p) ps points = refl
