-- ===== src/Evidence/Closures/Ends.antt =====
-- The rounds of the `while` loop of semanticClosure, counted by the ends of edges that were not
-- seen.
use allas_code_blueprint.Prelude.{
  String, ◌≡◌, refl, true, false, some, List, [], ◌∷◌, ◌++◌, ℕ, zero, suc, ◌+◌, ◌*◌, ◌≤◌, arith,
  ◌==◌, eq_iff, eq_refl, if◌then◌else◌, length, length-append, includes, All,
}
use allas_code_blueprint.Prelude.Sets.{includes-append}
use allas_code_blueprint.Graph.{SemanticGraphEdge, SemanticGraph}
use allas_code_blueprint.Evidence.Closures.{
  neighbour, Search, visit, visit_edges, visit_front, rounds, rounds_fuel, search_from,
}

-- The ends of all edges.
abbrev ends : List SemanticGraphEdge → List String
ends [] = []
ends (edge ∷ edges) = edge.from ∷ edge.target ∷ ends edges

-- How many of the texts are not seen.
abbrev unseen : (seen texts : List String) → ℕ
unseen seen [] = 0
unseen seen (x ∷ xs) = if includes seen x then unseen seen xs else suc (unseen seen xs)

unseen_le : (seen texts : List String) → unseen seen texts ≤ length texts
unseen_le seen [] = omega arith
unseen_le seen (x ∷ xs) = ground (arith, unseen_le seen xs)

unseen-append_le :
    (seen : List String) (n : String) (texts : List String)
    → unseen (seen ++ (n ∷ [])) texts ≤ unseen seen texts
unseen-append_le seen n [] = omega arith
unseen-append_le seen n (x ∷ xs) =
    ground (arith, includes-append seen (n ∷ []) x, unseen-append_le seen n xs)

unseen-append :
    (seen : List String) (n : String) (texts : List String)
    → includes seen n ≡ false
    → includes texts n ≡ true
    → unseen (seen ++ (n ∷ [])) texts + 1 ≤ unseen seen texts
unseen-append seen n [] new inside = cc
unseen-append seen n (x ∷ xs) new inside = ground (
  arith,
  includes-append seen (n ∷ []) x,
  eq_iff n x,
  eq_iff x n,
  unseen-append_le seen n xs,
  unseen-append seen n xs new,
)

length-ends : (edges : List SemanticGraphEdge) → length (ends edges) ≡ 2 * length edges
length-ends [] = omega arith
length-ends (edge ∷ edges) = omega (arith, length-ends edges)

module _ (texts : List String) where
  abbrev IsInside : SemanticGraphEdge → Type 0
  IsInside edge = (includes texts edge.from ≡ true) × (includes texts edge.target ≡ true)

  -- What a part of a round takes from the texts that are not seen is more work for the next round.
  abbrev Falls : Search → Search → Type 0
  Falls s t = unseen t.seen texts + length t.next ≤ unseen s.seen texts + length s.next

  neighbour_inside :
      (id : String) (edge : SemanticGraphEdge)
      → IsInside edge
      → (neighbour id edge == "") ≡ false
      → includes texts (neighbour id edge) ≡ true
  unfolding neighbour
  neighbour_inside id edge inside given = ground (arith, eq_iff (neighbour id edge) "")

  visit-Falls :
      (id : String) (edge : SemanticGraphEdge) (s : Search)
      → IsInside edge
      → Falls s (visit id edge s)
  unfolding visit
  visit-Falls id edge s inside = ground (
    arith,
    length-append s.next (neighbour id edge ∷ []),
    neighbour_inside id edge,
    unseen-append s.seen (neighbour id edge) texts,
  )

  visit_edges-Falls :
      (id : String) (edges : List SemanticGraphEdge) (s : Search)
      → All IsInside edges
      → Falls s (visit_edges id edges s)
  unfolding visit_edges
  visit_edges-Falls id [] s inside = omega arith
  visit_edges-Falls id (edge ∷ edges) s (here, inside) =
      omega (arith, visit-Falls id edge s here, visit_edges-Falls id edges (visit id edge s) inside)

  visit_front-Falls :
      (edges : List SemanticGraphEdge) (front : List String) (s : Search)
      → All IsInside edges
      → Falls s (visit_front edges front s)
  unfolding visit_front
  visit_front-Falls edges [] s inside = omega arith
  visit_front-Falls edges (id ∷ front) s inside = omega (
    arith,
    visit_edges-Falls id edges s inside,
    visit_front-Falls edges front (visit_edges id edges s) inside,
  )

  rounds_end :
      (edges : List SemanticGraphEdge) (fuel : ℕ) (front seen : List String)
      → All IsInside edges
      → unseen seen texts + length front + 1 ≤ fuel
      → (found : List String) × (rounds edges fuel front seen ≡ some found)
  unfolding rounds
  rounds_end edges zero front seen inside enough = absurd (omega arith)
  rounds_end edges (suc fuel) [] seen inside enough = (seen, refl)
  rounds_end edges (suc fuel) (id ∷ front) seen inside enough =
      let s : Search = record { seen = seen; next = [] } in
      let falls = visit_front-Falls edges (id ∷ front) s inside in
      rounds_end edges fuel (visit_front edges (id ∷ front) s).next
        (visit_front edges (id ∷ front) s).seen inside (omega arith)

IsInside-more :
    (texts more : List String) (edges : List SemanticGraphEdge)
    → ((x : String) → includes texts x ≡ true → includes more x ≡ true)
    → All (IsInside texts) edges
    → All (IsInside more) edges
IsInside-more texts more [] wider inside = tt
IsInside-more texts more (edge ∷ edges) wider ((from, target), inside) =
    ((wider edge.from from, wider edge.target target), IsInside-more texts more edges wider inside)

ends-IsInside : (edges : List SemanticGraphEdge) → All (IsInside (ends edges)) edges
ends-IsInside [] = tt
ends-IsInside (edge ∷ edges) =
    let wider : (x : String)
        → includes (ends edges) x ≡ true
        → includes (ends (edge ∷ edges)) x ≡ true =
      λ x h. ground arith in
    (
      (ground (arith, eq_refl edge.from), ground (arith, eq_refl edge.target)),
      IsInside-more (ends edges) (ends (edge ∷ edges)) edges wider (ends-IsInside edges),
    )

-- The fuel of the search is enough: it always ends.
pub search_from_ends :
    (graph : SemanticGraph) (seed : String)
    → (found : List String) × (search_from graph seed ≡ some found)
unfolding search_from
search_from_ends graph seed =
    rounds_end (ends graph.edges) graph.edges (rounds_fuel graph.edges) (seed ∷ []) (seed ∷ [])
      (ends-IsInside graph.edges)
      (omega (arith, unseen_le (seed ∷ []) (ends graph.edges), length-ends graph.edges))
