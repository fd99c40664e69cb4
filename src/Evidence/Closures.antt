-- ===== src/Evidence/Closures.antt =====
-- `semanticClosure` of runtime/content-addressed-evidence.ts: what lies around an action along the
-- edges of nine types, in both directions. A round of the `while` loop takes one unit of fuel, and
-- `none` means that it ran out; twice the number of edges and two more is enough.
pub mod Ends
pub mod Walks
pub mod Reached
use allas_code_blueprint.Prelude.{
  String, Bool, true, false, not, ◌&&◌, ◌||◌, Option, none, some, List, [], ◌∷◌, ◌++◌, ℕ, zero, suc,
  ◌+◌, ◌*◌, ◌==◌, if◌then◌else◌, length, includes, is_empty,
}
use allas_code_blueprint.Prelude.Sets.{sort_texts}
use allas_code_blueprint.Graph.{SemanticGraphEdge, SemanticGraph}
use allas_code_blueprint.Evidence.{
  Category, unit, integration, e2e, security, benchmark, load, stress, chaos,
}

unfoldable pub is_local : Category → Bool
is_local unit = true
is_local benchmark = true
is_local load = true
is_local stress = true
is_local chaos = true
is_local integration = false
is_local e2e = false
is_local security = false

abbrev pub allowed_types : List String
allowed_types =
    "ACTION_OWNER" ∷ "ACCEPTS_ACTION" ∷ "ALLOWS_ACTION" ∷ "FLOW_CALLS_ACTION" ∷ "PRESERVES"
    ∷ "GOVERNED_BY" ∷ "CONSTRAINED_BY" ∷ "REQUIRES" ∷ "VALIDATED_BY" ∷ []

unfoldable pub is_allowed : SemanticGraphEdge → Bool
is_allowed edge = includes allowed_types edge.type

-- The other end of an edge at `id`, where `undefined` and "" both end the step.
unfoldable pub neighbour : String → SemanticGraphEdge → String
neighbour id edge =
    if edge.from == id then edge.target else if edge.target == id then edge.from else ""

-- The state of a round: the members of `seen` in the order of insertion, and `next`.
pub record Search : Type 0 where
  pub seen : List String
  pub next : List String

unfoldable pub visit : String → SemanticGraphEdge → Search → Search
visit id edge s =
    let n = neighbour id edge in
    if not (is_allowed edge) || (n == "") || includes s.seen n
    then s
    else record { seen = s.seen ++ (n ∷ []); next = s.next ++ (n ∷ []) }

-- `for (const e of graph.edges)`.
unfoldable pub visit_edges : String → List SemanticGraphEdge → Search → Search
visit_edges id [] s = s
visit_edges id (edge ∷ edges) s = visit_edges id edges (visit id edge s)

-- `for (const id of front)`.
unfoldable pub visit_front : List SemanticGraphEdge → List String → Search → Search
visit_front edges [] s = s
visit_front edges (id ∷ front) s = visit_front edges front (visit_edges id edges s)

-- `while (front.length)`.
unfoldable pub rounds :
    List SemanticGraphEdge → ℕ → (front seen : List String) → Option (List String)
rounds edges zero front seen = if is_empty front then some seen else none
rounds edges (suc fuel) front seen =
    let s = visit_front edges front (record { seen = seen; next = [] }) in
    let rest = rounds edges fuel s.next s.seen in if is_empty front then some seen else rest

abbrev pub rounds_fuel : List SemanticGraphEdge → ℕ
rounds_fuel edges = 2 * length edges + 2

unfoldable pub search_from : SemanticGraph → String → Option (List String)
search_from graph seed = rounds graph.edges (rounds_fuel graph.edges) (seed ∷ []) (seed ∷ [])

-- The closure; `[]` would be a search without fuel, which does not happen.
unfoldable pub semantic_closure : SemanticGraph → String → Category → List String
semantic_closure graph seed category =
    if is_local category
    then seed ∷ []
    else elim (search_from graph seed) [ none ↦ [] | some seen ↦ sort_texts seen ]
