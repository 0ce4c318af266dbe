-- ===== src/Graph/Reverse.antt =====
-- `Transpose::reverse` of aderyn_core/src/context/graph/preprocess/legacy.rs.
use aderyn.Prelude.{
  ℕ, Bool, false, ◌&&◌, ◌||◌, List, [], ◌∷◌, ◌≡◌, refl, ◌∙◌, arith, ◌==◌, is_some, Bool-cases, inl,
  inr, ==_iff, contains,
}
use aderyn.Prelude.Assoc.{lookup, IsMap}
use aderyn.Workspace.Context.{RawCallGraph}
use aderyn.Graph.Raw.{
  create_connection_if_not_exists, connected, IsSimple, IsSimple-empty, connected-create_connection,
  create_connection-IsSimple,
}

-- the inner loop: each target gets the connection back
connect_back : ℕ → List ℕ → RawCallGraph → RawCallGraph
connect_back from [] g = g
connect_back from (to ∷ tos) g = connect_back from tos (create_connection_if_not_exists to from g)

connect_all_back : List (ℕ × List ℕ) → RawCallGraph → RawCallGraph
unfolding connect_back
connect_all_back [] g = g
connect_all_back ((from, tos) ∷ entries) g = connect_all_back entries (connect_back from tos g)

unfoldable pub reverse : RawCallGraph → RawCallGraph
unfolding connect_all_back
reverse g = connect_all_back g []

connected-connect_back :
    (from : ℕ) (tos : List ℕ) (g : RawCallGraph) (a b : ℕ)
    → connected (connect_back from tos g) a b ≡ (connected g a b || (contains tos a && from == b))
unfolding connect_back
connected-connect_back from [] g a b = ground arith
connected-connect_back from (to ∷ tos) g a b =
    connected-connect_back from tos (create_connection_if_not_exists to from g) a b
    ∙ rw (connected-create_connection to from g a b) (ground arith)

-- whether some entry of `from` lists `to`
listed_in : List (ℕ × List ℕ) → ℕ → ℕ → Bool
listed_in [] from to = false
listed_in ((k, tos) ∷ m) from to = (contains tos to && k == from) || listed_in m from to

connected-connect_all_back :
    (entries : List (ℕ × List ℕ)) (g : RawCallGraph) (a b : ℕ)
    → connected (connect_all_back entries g) a b ≡ (connected g a b || listed_in entries b a)
unfolding connect_all_back listed_in
connected-connect_all_back [] g a b = ground arith
connected-connect_all_back ((from, tos) ∷ entries) g a b =
    connected-connect_all_back entries (connect_back from tos g) a b
    ∙ rw (connected-connect_back from tos g a b) (ground arith)

absent-listed_in :
    (m : List (ℕ × List ℕ)) (from to : ℕ)
    → is_some (lookup from m) ≡ false
    → listed_in m from to ≡ false
unfolding lookup listed_in
absent-listed_in [] from to h = refl
absent-listed_in ((k, tos) ∷ m) from to h = ground (arith, absent-listed_in m from to, h)

-- with one entry for a key, the entries list what the map gives
listed_in-eq-connected :
    (m : List (ℕ × List ℕ)) → IsMap m → (from to : ℕ) → listed_in m from to ≡ connected m from to
unfolding lookup listed_in
listed_in-eq-connected [] one from to = refl
listed_in-eq-connected ((k, tos) ∷ m) (new, one) from to = elim (Bool-cases (k == from)) [
  | inl same ↦
      rw (same, absent-listed_in m from to (rw (← (==_iff k from).0 same) new)) (ground arith)
  | inr other ↦ rw other (ground (arith, listed_in-eq-connected m one from to))
]

-- Of a graph with one entry for each node, the reverse connects exactly the pairs that the graph connects
-- the other way round.
pub connected-reverse :
    (g : RawCallGraph) → IsMap g → (a b : ℕ) → connected (reverse g) a b ≡ connected g b a
unfolding reverse
connected-reverse g one a b =
    connected-connect_all_back g [] a b ∙ unfold lookup in listed_in-eq-connected g one b a

connect_back-IsSimple :
    (from : ℕ) (tos : List ℕ) (g : RawCallGraph) → IsSimple g → IsSimple (connect_back from tos g)
unfolding connect_back
connect_back-IsSimple from [] g s = s
connect_back-IsSimple from (to ∷ tos) g s =
    connect_back-IsSimple from tos (create_connection_if_not_exists to from g)
      (create_connection-IsSimple to from g s)

connect_all_back-IsSimple :
    (entries : List (ℕ × List ℕ)) (g : RawCallGraph)
    → IsSimple g
    → IsSimple (connect_all_back entries g)
unfolding connect_all_back
connect_all_back-IsSimple [] g s = s
connect_all_back-IsSimple ((from, tos) ∷ entries) g s =
    connect_all_back-IsSimple entries (connect_back from tos g) (connect_back-IsSimple from tos g s)

pub reverse-IsSimple : (g : RawCallGraph) → IsSimple (reverse g)
unfolding reverse
reverse-IsSimple g = connect_all_back-IsSimple g [] IsSimple-empty

-- To reverse a graph with one entry for each node twice gives a graph with the same connections, with one
-- entry for each node that lists each of its targets once.
pub reverse-reverse :
    (g : RawCallGraph)
    → IsMap g
    → ((a b : ℕ) → connected (reverse (reverse g)) a b ≡ connected g a b)
      × IsSimple (reverse (reverse g))
reverse-reverse g one =
    let s = reverse-IsSimple g in
    (
      λ a b. connected-reverse (reverse g) s.one_entry a b ∙ connected-reverse g one b a,
      reverse-IsSimple (reverse g),
    )
