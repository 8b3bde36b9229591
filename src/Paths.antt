-- ===== src/Paths.antt =====
-- pathserver/graph.h, graph.cpp and dijkstra.cpp: shortest paths with a queue of (distance, vertex)
-- pairs in which old entries stay. Weights are the non-negative values of `int`.
pub mod Relax
pub mod Search
pub mod Walks
pub mod Closed
pub mod Shortest
pub mod Parents
pub mod Back
pub mod Distances
pub mod Ints
mod Tests
use canna.Prelude.{
  ℕ, zero, suc, ◌+◌, Bool, true, false, List, [], ◌∷◌, ◌++◌, Option, none, some, if◌then◌else◌, ltb,
  ◌==◌, ◌&&◌, ◌||◌, get_or, set, replicate, length,
}

-- `m_edges[u]` lists the (target, weight) pairs of the vertex `u`; `m_size` is the length.
abbrev pub Graph : Type 0
Graph = List (List (ℕ × ℕ))

abbrev pub edges : Graph → ℕ → List (ℕ × ℕ)
edges g u = get_or g u []

-- `Graph(int sz)`
unfoldable pub make_graph : ℕ → Graph
make_graph size = replicate size []

-- `AddEdge`: one edge each way.
unfoldable pub add_edge : Graph → ℕ → ℕ → ℕ → Graph
add_edge g u v w =
    let g' = set g u (edges g u ++ (v, w) ∷ []) in set g' v (edges g' v ++ (u, w) ∷ [])

-- `INF`
abbrev pub inf : ℕ
inf = 2016062613

-- `std::priority_queue` under `std::greater<pair_t>`, as the list of its entries in order.
abbrev pub before : ℕ × ℕ → ℕ × ℕ → Bool
before (d, u) (e, v) = ltb d e || (d == e && ltb u v)

unfoldable pub push : ℕ × ℕ → List (ℕ × ℕ) → List (ℕ × ℕ)
push e [] = e ∷ []
push e (f ∷ q) = if before e f then e ∷ f ∷ q else f ∷ push e q

pub record State : Type 0 where
  pub dist : List ℕ
  pub path : List ℕ
  pub queue : List (ℕ × ℕ)

abbrev pub dist_of : State → ℕ → ℕ
dist_of s v = get_or s.dist v inf

-- INT_MAX + 1: a sum that reaches this overflows.
abbrev pub int_limit : ℕ
int_limit = 2147483648

-- The body of the inner loop of `GetPath`, for the edge from `u` to `v` of weight `w`; `none` where
-- the sum overflows, which is undefined.
unfoldable pub relax : ℕ → State → ℕ × ℕ → Option State
relax u s (v, w) =
    if ltb (dist_of s u + w) int_limit
    then some (
        if ltb (dist_of s u + w) (dist_of s v)
        then record {
          dist = set s.dist v (dist_of s u + w);
          path = set s.path v u;
          queue = push (dist_of s u + w, v) s.queue;
        }
        else s)
    else none

unfoldable pub scan : ℕ → List (ℕ × ℕ) → State → Option State
scan u [] s = some s
scan u (e ∷ es) s = elim (relax u s e) [ none ↦ none | some t ↦ scan u es t ]

-- The outer loop with the rounds allowed; `none` if it is still running, or where a sum overflows.
unfoldable pub search : ℕ → Graph → State → Option State
search zero g s = elim s.queue [ [] ↦ some s | e ∷ rest ↦ none ]
search (suc fuel) g s = elim s.queue [
  | [] ↦ some s
  | e ∷ rest ↦ elim (scan e.1 (edges g e.1) (record s { queue = rest })) [
    | none ↦ none
    | some t ↦ search fuel g t
  ]
]

-- The state before the loop.
unfoldable pub start : Graph → ℕ → State
start g src = record {
  dist = set (replicate (length g) inf) src 0;
  path = replicate (length g) inf;
  queue = (0, src) ∷ [];
}

-- The loop that `ShortPath` and `GetPath` share; `ShortPath` keeps the distances only.
unfoldable pub get_path : ℕ → Graph → ℕ → Option State
get_path fuel g src = search fuel g (start g src)

-- The same loops over sums that never overflow.
unfoldable pub plain_relax : ℕ → State → ℕ × ℕ → State
plain_relax u s (v, w) =
    if ltb (dist_of s u + w) (dist_of s v)
    then record {
      dist = set s.dist v (dist_of s u + w);
      path = set s.path v u;
      queue = push (dist_of s u + w, v) s.queue;
    }
    else s

unfoldable pub plain_scan : ℕ → List (ℕ × ℕ) → State → State
plain_scan u [] s = s
plain_scan u (e ∷ es) s = plain_scan u es (plain_relax u s e)

unfoldable pub plain_search : ℕ → Graph → State → Option State
plain_search zero g s = elim s.queue [ [] ↦ some s | e ∷ rest ↦ none ]
plain_search (suc fuel) g s = elim s.queue [
  | [] ↦ some s
  | e ∷ rest ↦ plain_search fuel g (plain_scan e.1 (edges g e.1) (record s { queue = rest }))
]

unfoldable pub plain_get_path : ℕ → Graph → ℕ → Option State
plain_get_path fuel g src = plain_search fuel g (start g src)

-- `while (path[index] != INF)`, with the rounds allowed: the vertices before `index` on its path,
-- from the source on, as the stack prints them.
unfoldable pub walk_back : ℕ → List ℕ → ℕ → List ℕ → Option (List ℕ)
walk_back zero path index found = none
walk_back (suc fuel) path index found =
    let parent : ℕ = get_or path index inf in
    let more = walk_back fuel path parent (parent ∷ found) in
    if parent == inf then some found else more
