-- ===== src/Evidence/Closures/Walks.antt =====
-- Walks along the edges around an action.
use mathlib.Core.List.{Memᴰ}
use allas_code_blueprint.Prelude.{
  String, ◌≡◌, ◌∙◌, refl, sym, subst, true, false, not, ◌||◌, some, List, [], ◌∷◌, ℕ, zero, suc,
  arith, ◌==◌, eq_iff, eq_refl, includes, All, All-append, ◌⊎◌, inl, inr, Bool-cases,
}
use allas_code_blueprint.Graph.{SemanticGraphEdge}
use allas_code_blueprint.Evidence.Closures.{
  is_allowed, neighbour, Search, visit, visit_edges, visit_front, rounds,
}

-- The two ends of an edge, in either direction.
abbrev pub Joins : String → String → SemanticGraphEdge → Type 0
Joins id n edge = ((edge.from ≡ id) × (edge.target ≡ n)) ⊎ ((edge.target ≡ id) × (edge.from ≡ n))

Joins-neighbour :
    (id n : String) (edge : SemanticGraphEdge)
    → neighbour id edge ≡ n
    → (n == "") ≡ false
    → Joins id n edge
unfolding neighbour
Joins-neighbour id n edge e given = elim (Bool-cases (edge.from == id)) [
  | inl from ↦ inl ((eq_iff edge.from id).0 from, ground arith)
  | inr away ↦ elim (Bool-cases (edge.target == id)) [
    | inl at ↦ inr ((eq_iff edge.target id).0 at, ground arith)
    | inr apart ↦
        let gone : neighbour id edge ≡ "" = ground arith in
        let blank = subst (λ y. (y == "") ≡ false) (sym e ∙ gone) given in
        absurd (ground (arith, blank, eq_refl ""))
  ]
]

pub neighbour-Joins :
    (id n : String) (edge : SemanticGraphEdge) → Joins id n edge → neighbour id edge ≡ n
unfolding neighbour
neighbour-Joins id n edge (inl (from, at)) = ground (arith, eq_iff edge.from id)
neighbour-Joins id n edge (inr (at, from)) =
    ground (arith, eq_iff edge.from id, eq_iff edge.target id)

-- A walk along edges of the allowed types, in either direction.
pub data Reaches (edges : List SemanticGraphEdge) (seed : String) : String → Type 0 where
  here : Reaches edges seed seed
  along :
      {id n : String} {edge : SemanticGraphEdge}
      → Reaches edges seed id
      → Memᴰ edge edges
      → is_allowed edge ≡ true
      → Joins id n edge
      → (n == "") ≡ false
      → Reaches edges seed n

module _ (all : List SemanticGraphEdge) (seed : String) where
  record IsSound (s : Search) : Type 0 where
    seen : All (Reaches all seed) s.seen
    next : All (Reaches all seed) s.next

  visit-IsSound :
      (id : String) (edge : SemanticGraphEdge) (s : Search)
      → Reaches all seed id
      → Memᴰ edge all
      → IsSound s
      → IsSound (visit id edge s)
  unfolding visit
  visit-IsSound id edge s from m h =
      elim (Bool-cases (
        not (is_allowed edge)
        || (neighbour id edge == "")
        || includes s.seen (neighbour id edge))) [
          | inl stays ↦ rw stays h
          | inr goes ↦
              let new : Reaches all seed (neighbour id edge) =
                along from m (ground arith)
                  (Joins-neighbour id (neighbour id edge) edge refl (ground arith))
                  (ground arith) in
              rw goes (record {
                seen =
                    All-append (Reaches all seed) s.seen (neighbour id edge ∷ []) h.seen (new, tt);
                next =
                    All-append (Reaches all seed) s.next (neighbour id edge ∷ []) h.next (new, tt);
              })
        ]

  visit_edges-IsSound :
      (id : String) (edges : List SemanticGraphEdge) (s : Search)
      → Reaches all seed id
      → All (λ edge. Memᴰ edge all) edges
      → IsSound s
      → IsSound (visit_edges id edges s)
  unfolding visit_edges
  visit_edges-IsSound id [] s from m h = h
  visit_edges-IsSound id (edge ∷ edges) s from (m, rest) h =
      visit_edges-IsSound id edges (visit id edge s) from rest (visit-IsSound id edge s from m h)

  visit_front-IsSound :
      (front : List String) (s : Search)
      → All (λ edge. Memᴰ edge all) all
      → All (Reaches all seed) front
      → IsSound s
      → IsSound (visit_front all front s)
  unfolding visit_front
  visit_front-IsSound [] s m from h = h
  visit_front-IsSound (id ∷ front) s m (first, from) h =
      visit_front-IsSound front (visit_edges id all s) m from
        (visit_edges-IsSound id all s first m h)

  pub rounds_sound :
      (fuel : ℕ) (front seen found : List String)
      → All (λ edge. Memᴰ edge all) all
      → All (Reaches all seed) front
      → All (Reaches all seed) seen
      → rounds all fuel front seen ≡ some found
      → All (Reaches all seed) found
  unfolding rounds
  rounds_sound zero [] seen found m from h e = subst (All (Reaches all seed)) (cc) h
  rounds_sound zero (id ∷ front) seen found m from h e = cc
  rounds_sound (suc fuel) [] seen found m from h e = subst (All (Reaches all seed)) (cc) h
  rounds_sound (suc fuel) (id ∷ front) seen found m from h e =
      let s : Search = record { seen = seen; next = [] } in
      let after = visit_front-IsSound (id ∷ front) s m from (record { seen = h; next = tt }) in
      rounds_sound fuel (visit_front all (id ∷ front) s).next (visit_front all (id ∷ front) s).seen
        found m after.next after.seen e
