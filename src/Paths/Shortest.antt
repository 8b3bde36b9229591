-- ===== src/Paths/Shortest.antt =====
-- Dijkstra is right: every distance is that of a shortest walk.
use canna.Prelude.{
  ℕ, ◌+◌, ◌*◌, ◌≤◌, ◌<◌, ◌≡◌, ◌∙◌, ◌⊎◌, inl, inr, [], some, arith, length, replicate, length-set,
  length-replicate, ==_iff, Bool-cases, get_or-replicate, ◌==◌, if◌then◌else◌,
}
use canna.Paths.{Graph, edges, inf, State, dist_of, start, plain_get_path}
use canna.Paths.Relax.{HasEdge, get_or-set}
use canna.Paths.Search.{IsGraph}
use canna.Paths.Walks.{Walk, here, along, plain_get_path_walks}
use canna.Paths.Closed.{IsClosed, plain_search-IsClosed}

start-dist :
    (g : Graph) (src v : ℕ)
    → src < length g
    → dist_of (start g src) v ≡ (if src == v then 0 else inf)
unfolding start
start-dist g src v p =
    get_or-set (replicate (length g) inf) src v 0 inf (rw (length-replicate (length g) inf) p)
    ∙ ground (arith, get_or-replicate (length g) v inf)

start-IsClosed : (g : Graph) (src : ℕ) → src < length g → IsClosed g src [] (start g src)
start-IsClosed g src p x y w edge = elim (Bool-cases (src == x)) [
  | inl same ↦ inl (unfold start in inl ((==_iff src x).0 same))
  | inr other ↦ inr (inl (ground (arith, start-dist g src x p, start-dist g src y p)))
]

-- Distances that no edge can shorten bound every walk.
Walk-ge :
    (g : Graph) (src : ℕ) (t : State) {v d : ℕ}
    → ((x y w : ℕ) → HasEdge y w (edges g x) → dist_of t y ≤ dist_of t x + w)
    → dist_of t src ≤ 0
    → Walk g src v d
    → dist_of t v ≤ d
Walk-ge g src t short zero_at here = zero_at
Walk-ge g src t short zero_at (along {u} {d} v w walk edge) =
    omega (arith, short u v w edge, Walk-ge g src t short zero_at walk)

-- What holds of the distances when the search has returned.
pub record IsDone (g : Graph) (src : ℕ) (t : State) : Type 0 where
  pub short : (x y w : ℕ) → HasEdge y w (edges g x) → dist_of t y ≤ dist_of t x + w
  pub origin : dist_of t src ≤ 0
  pub small : (x : ℕ) → dist_of t x ≤ inf

pub plain_get_path-IsDone :
    (fuel : ℕ) (g : Graph) (src : ℕ) (t : State)
    → IsGraph g
    → src < length g
    → plain_get_path fuel g src ≡ some t
    → IsDone g src t
unfolding plain_get_path
plain_get_path-IsDone fuel g src t v p made =
    let (short, le) =
      plain_search-IsClosed fuel g src (start g src) t v
        (unfold start in
          (length-set (replicate (length g) inf) src 0 ∙ length-replicate (length g) inf))
        (start-IsClosed g src p) made in
    record {
      short = short;
      origin = ground (arith, le src, start-dist g src src p);
      small = λ x. ground (arith, le x, start-dist g src x p);
    }

-- From a vertex of a graph whose edges lead to its vertices, the search returns within the rounds
-- that the distances allow. Every distance is then INF or the weight of a walk from the source, and
-- no walk from the source to the vertex weighs less.
pub plain_get_path_shortest :
    (fuel : ℕ) (g : Graph) (src : ℕ)
    → IsGraph g
    → src < length g
    → length g * inf + 1 ≤ fuel
    → (t : State) × (plain_get_path fuel g src ≡ some t)
      × ((v : ℕ) → (dist_of t v ≡ inf) ⊎ Walk g src v (dist_of t v))
      × ((v d : ℕ) → Walk g src v d → dist_of t v ≤ d)
plain_get_path_shortest fuel g src v p enough =
    let (t, made, walks) = plain_get_path_walks fuel g src v p enough in
    let done = plain_get_path-IsDone fuel g src t v p made in
    (t, made, walks, λ x d walk. Walk-ge g src t done.short done.origin walk)
