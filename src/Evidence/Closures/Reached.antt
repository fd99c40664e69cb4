-- ===== src/Evidence/Closures/Reached.antt =====
-- What the closure of an action holds.

use allas_code_blueprint.Prelude.{
  String, ◌≡◌, refl, sym, subst, true, false, ◌||◌, some, List, [], ◌∷◌, ℕ, zero, suc, arith, ◌==◌,
  eq_iff, eq_refl, includes, All, ◌⊎◌, inl, inr, ◌↔◌, Bool-cases,
}
use allas_code_blueprint.Prelude.Members.{All-at, All-mem, All-includes}
use allas_code_blueprint.Prelude.Sets.{
  includes-append, insert_sorted, sort, text_before, sort_texts,
}
use allas_code_blueprint.Graph.{SemanticGraphEdge, SemanticGraph}
use allas_code_blueprint.Evidence.{Category}
use allas_code_blueprint.Evidence.Closures.{
  is_local, is_allowed, neighbour, Search, visit, visit_edges, visit_front, rounds, rounds_fuel,
  search_from, semantic_closure,
}
use allas_code_blueprint.Evidence.Closures.Ends.{search_from_ends}
use allas_code_blueprint.Evidence.Closures.Walks.{
  Reaches, here, along, neighbour-Joins, rounds_sound,
}

-- The end of an edge at `id` is seen.
abbrev Covers : List String → String → SemanticGraphEdge → Type 0
Covers seen id edge =
    is_allowed edge ≡ true
    → (neighbour id edge == "") ≡ false
    → includes seen (neighbour id edge) ≡ true

abbrev Wider : List String → List String → Type 0
Wider seen more = (x : String) → includes seen x ≡ true → includes more x ≡ true

-- What was seen was in `old` or is new work.
abbrev IsBehind : List String → Search → Type 0
IsBehind old s =
    (x : String) → includes s.seen x ≡ true → (includes old x ≡ true) ⊎ (includes s.next x ≡ true)

visit-Wider :
    (id : String) (edge : SemanticGraphEdge) (s : Search) → Wider s.seen (visit id edge s).seen
unfolding visit
visit-Wider id edge s x h = ground (arith, includes-append s.seen (neighbour id edge ∷ []) x)

visit-Covers :
    (id : String) (edge : SemanticGraphEdge) (s : Search) → Covers (visit id edge s).seen id edge
unfolding visit
visit-Covers id edge s ok given = ground (
  arith,
  eq_refl (neighbour id edge),
  includes-append s.seen (neighbour id edge ∷ []) (neighbour id edge),
)

visit-IsBehind :
    (old : List String) (id : String) (edge : SemanticGraphEdge) (s : Search)
    → IsBehind old s
    → IsBehind old (visit id edge s)
unfolding visit
visit-IsBehind old id edge s h x m = ground (
  arith,
  h x,
  includes-append s.seen (neighbour id edge ∷ []) x,
  includes-append s.next (neighbour id edge ∷ []) x,
)

Wider-Covers :
    (seen more : List String) (id : String) (edges : List SemanticGraphEdge)
    → Wider seen more
    → All (Covers seen id) edges
    → All (Covers more id) edges
Wider-Covers seen more id [] wider h = tt
Wider-Covers seen more id (edge ∷ edges) wider (h, rest) =
    (λ ok given. wider (neighbour id edge) (h ok given), Wider-Covers seen more id edges wider rest)

visit_edges-Wider :
    (id : String) (edges : List SemanticGraphEdge) (s : Search)
    → Wider s.seen (visit_edges id edges s).seen
unfolding visit_edges
visit_edges-Wider id [] s x h = h
visit_edges-Wider id (edge ∷ edges) s x h =
    visit_edges-Wider id edges (visit id edge s) x (visit-Wider id edge s x h)

visit_edges-Covers :
    (id : String) (edges : List SemanticGraphEdge) (s : Search)
    → All (Covers (visit_edges id edges s).seen id) edges
unfolding visit_edges
visit_edges-Covers id [] s = tt
visit_edges-Covers id (edge ∷ edges) s = (
  λ ok given.
      visit_edges-Wider id edges (visit id edge s) (neighbour id edge)
        (visit-Covers id edge s ok given),
  visit_edges-Covers id edges (visit id edge s),
)

visit_edges-IsBehind :
    (old : List String) (id : String) (edges : List SemanticGraphEdge) (s : Search)
    → IsBehind old s
    → IsBehind old (visit_edges id edges s)
unfolding visit_edges
visit_edges-IsBehind old id [] s h = h
visit_edges-IsBehind old id (edge ∷ edges) s h =
    visit_edges-IsBehind old id edges (visit id edge s) (visit-IsBehind old id edge s h)

module _ (edges : List SemanticGraphEdge) where
  visit_front-Wider :
      (front : List String) (s : Search) → Wider s.seen (visit_front edges front s).seen
  unfolding visit_front
  visit_front-Wider [] s x h = h
  visit_front-Wider (id ∷ front) s x h =
      visit_front-Wider front (visit_edges id edges s) x (visit_edges-Wider id edges s x h)

  visit_front-IsBehind :
      (old front : List String) (s : Search)
      → IsBehind old s
      → IsBehind old (visit_front edges front s)
  unfolding visit_front
  visit_front-IsBehind old [] s h = h
  visit_front-IsBehind old (id ∷ front) s h =
      visit_front-IsBehind old front (visit_edges id edges s)
        (visit_edges-IsBehind old id edges s h)

  visit_front-Covers :
      (front : List String) (s : Search) (x : String)
      → includes front x ≡ true
      → All (Covers (visit_front edges front s).seen x) edges
  unfolding visit_front
  visit_front-Covers [] s x m = cc
  visit_front-Covers (id ∷ front) s x m = elim (Bool-cases (id == x)) [
    | inl is ↦
        subst (λ y. All (Covers (visit_front edges front (visit_edges id edges s)).seen y) edges)
          ((eq_iff id x).0 is)
          (Wider-Covers (visit_edges id edges s).seen _ id edges
            (visit_front-Wider front (visit_edges id edges s)) (visit_edges-Covers id edges s))
    | inr other ↦ visit_front-Covers front (visit_edges id edges s) x (ground arith)
  ]

  -- Everything seen is in the front, or all its ends are seen.
  abbrev IsClosed : (front seen : List String) → Type 0
  IsClosed front seen =
      (x : String) → includes seen x ≡ true → (includes front x ≡ true) ⊎ All (Covers seen x) edges

  front-IsClosed :
      (front seen : List String)
      → IsClosed front seen
      → let t = visit_front edges front (record { seen = seen; next = [] }) in
        IsClosed t.next t.seen
  front-IsClosed front seen h x m =
      let s : Search = record { seen = seen; next = [] } in
      let behind = visit_front-IsBehind seen front s (λ y n. inl n) x m in
      elim behind [
        | inr new ↦ inl new
        | inl before ↦ elim (h x before) [
          | inl now ↦ inr (visit_front-Covers front s x now)
          | inr covered ↦ inr (Wider-Covers seen _ x edges (visit_front-Wider front s) covered)
        ]
      ]

  rounds-IsClosed :
      (fuel : ℕ) (front seen found : List String)
      → IsClosed front seen
      → rounds edges fuel front seen ≡ some found
      → IsClosed [] found × Wider seen found
  unfolding rounds
  rounds-IsClosed zero [] seen found h e =
      let same : seen ≡ found = cc in subst (λ l. IsClosed [] l × Wider seen l) same (h, λ x m. m)
  rounds-IsClosed zero (id ∷ front) seen found h e = cc
  rounds-IsClosed (suc fuel) [] seen found h e =
      let same : seen ≡ found = cc in subst (λ l. IsClosed [] l × Wider seen l) same (h, λ x m. m)
  rounds-IsClosed (suc fuel) (id ∷ front) seen found h e =
      let s : Search = record { seen = seen; next = [] } in
      let (closed, wider) =
        rounds-IsClosed fuel (visit_front edges (id ∷ front) s).next
          (visit_front edges (id ∷ front) s).seen found (front-IsClosed (id ∷ front) seen h) e in
      (closed, λ x m. wider x (visit_front-Wider (id ∷ front) s x m))

includes-insert_sorted :
    (x : String) (xs : List String) (y : String)
    → includes (insert_sorted text_before x xs) y ≡ (x == y) || includes xs y
unfolding insert_sorted
includes-insert_sorted x [] y = refl
includes-insert_sorted x (z ∷ xs) y = ground (arith, includes-insert_sorted x xs y)

includes-sort_texts : (xs : List String) (y : String) → includes (sort_texts xs) y ≡ includes xs y
unfolding sort
includes-sort_texts [] y = refl
includes-sort_texts (x ∷ xs) y =
    ground (arith, includes-insert_sorted x (sort_texts xs) y, includes-sort_texts xs y)

found_complete :
    (edges : List SemanticGraphEdge) (seed : String) (found : List String)
    → includes found seed ≡ true
    → IsClosed edges [] found
    → (x : String) → Reaches edges seed x
    → includes found x ≡ true
found_complete edges seed found start closed x here = start
found_complete edges seed found start closed x (along {id} {n} {edge} from m ok j given) =
    let e = neighbour-Joins id n edge j in
    let before = found_complete edges seed found start closed id from in
    elim (closed id before) [
      | inl never ↦ cc
      | inr covered ↦
          let covers = All-at (Covers found id) edges edge covered m in
          subst (λ y. includes found y ≡ true) e
            (covers ok (subst (λ y. (y == "") ≡ false) (sym e) given))
    ]

search_from_exact :
    (graph : SemanticGraph) (seed : String) (found : List String)
    → search_from graph seed ≡ some found
    → (x : String) → (includes found x ≡ true) ↔ Reaches graph.edges seed x
unfolding search_from
search_from_exact graph seed found e x =
    let members = All-mem graph.edges graph.edges (λ y m. m) in
    let sound =
      rounds_sound graph.edges seed (rounds_fuel graph.edges) (seed ∷ []) (seed ∷ []) found members
        (here, tt) (here, tt) e in
    let (closed, wider) =
      rounds-IsClosed graph.edges (rounds_fuel graph.edges) (seed ∷ []) (seed ∷ []) found
        (λ y m. inl m) e in
    (
      λ m. All-includes (Reaches graph.edges seed) found x sound m,
      found_complete graph.edges seed found (wider seed (ground (arith, eq_refl seed))) closed x,
    )

-- For a category that is not local (integration, e2e and security) semanticClosure always ends, and it
-- holds a node exactly when edges of the nine allowed types, followed in either direction, lead from
-- the action to it.
pub semantic_closure-exact :
    (graph : SemanticGraph) (seed : String) (category : Category)
    → is_local category ≡ false
    → (x : String)
    → (includes (semantic_closure graph seed category) x ≡ true) ↔ Reaches graph.edges seed x
unfolding semantic_closure
semantic_closure-exact graph seed category wide x =
    let (found, e) = search_from_ends graph seed in
    let exact = search_from_exact graph seed found e x in
    let same = includes-sort_texts found x in rw (wide, e, same) exact
