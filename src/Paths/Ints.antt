-- ===== src/Paths/Ints.antt =====
-- The search over the values of `int`, where no sum overflows.
use canna.Prelude.{
  ℕ, zero, suc, ◌+◌, ◌*◌, ◌≤◌, ◌<◌, ◌≡◌, ◌≢◌, ◌⊎◌, refl, ◌∙◌, inl, inr, List, [], ◌∷◌, some, arith,
  length, length-set, length-replicate, get_or-replicate, replicate, List-cases, lt→ltb,
}
use canna.Paths.{
  Graph, edges, inf, int_limit, State, dist_of, relax, scan, search, start, get_path, plain_relax,
  plain_scan, plain_search, plain_get_path, walk_back,
}
use canna.Paths.Relax.{HasEdge, plain_relax-work, get_or-set}
use canna.Paths.Search.{TargetsBelow, IsGraph, plain_scan-work}
use canna.Paths.Closed.{plain_relax-le, plain_scan-le}
use canna.Paths.Walks.{Walk}
use canna.Paths.Shortest.{plain_get_path_shortest}
use canna.Paths.Back.{Trail, IsPositive, plain_walk_back_shortest}

-- Every weight can be added to INF without an overflow: it is below 131421035.
abbrev pub IsSmall : Graph → Type 0
IsSmall g = (u v w : ℕ) → HasEdge v w (edges g u) → inf + w < int_limit

abbrev IsBounded : State → Type 0
IsBounded s = (x : ℕ) → dist_of s x ≤ inf

relax-plain_relax :
    (u v w : ℕ) (s : State)
    → dist_of s u ≤ inf
    → inf + w < int_limit
    → relax u s (v, w) ≡ some (plain_relax u s (v, w))
unfolding relax plain_relax
relax-plain_relax u v w s near small =
    rw (lt→ltb (dist_of s u + w) int_limit (omega (arith, near, small))) refl

scan-plain_scan :
    (u : ℕ) (es : List (ℕ × ℕ)) (s : State)
    → TargetsBelow (length s.dist) es
    → ((v w : ℕ) → HasEdge v w es → inf + w < int_limit)
    → IsBounded s
    → scan u es s ≡ some (plain_scan u es s)
unfolding scan plain_scan
scan-plain_scan u [] s below small near = refl
scan-plain_scan u ((v, w) ∷ es) s below small near =
    let t = plain_relax u s (v, w) in
    let (less, same) = plain_relax-work u v w s below.0 in
    rw (scan, relax-plain_relax u v w s (near u) (small v w (inl (refl, refl))))
      (scan-plain_scan u es t (rw same below.1) (λ x y e. small x y (inr e))
        (λ x. omega (arith, near x, plain_relax-le u v w s x below.0)))

search-plain_search :
    (fuel : ℕ) (g : Graph) (s : State)
    → IsGraph g
    → IsSmall g
    → length s.dist ≡ length g
    → IsBounded s
    → search fuel g s ≡ plain_search fuel g s
unfolding search plain_search
search-plain_search zero g s v small n near = refl
search-plain_search (suc fuel) g s v small n near = elim (List-cases s.queue) [
  | inl e ↦ rw e refl
  | inr (e, rest, q) ↦
      let popped : State = record s { queue = rest } in
      let below : TargetsBelow (length s.dist) (edges g e.1) = rw n (v e.1) in
      let (less, same) = plain_scan-work e.1 (edges g e.1) popped below in
      rw (q, search, plain_search, scan-plain_scan e.1 (edges g e.1) popped below (small e.1) near)
        (search-plain_search fuel g (plain_scan e.1 (edges g e.1) popped) v small (same ∙ n)
          (λ x. omega (arith, near x, plain_scan-le e.1 (edges g e.1) popped x below)))
]

start-IsBounded :
    (g : Graph) (src : ℕ)
    → src < length g
    → (length (start g src).dist ≡ length g) × IsBounded (start g src)
unfolding start
start-IsBounded g src p =
    let size = length-replicate (length g) inf in
    (
      length-set (replicate (length g) inf) src 0 ∙ size,
      λ x. ground (
        arith,
        get_or-set (replicate (length g) inf) src x 0 inf (rw size p),
        get_or-replicate (length g) x inf,
      ),
    )

get_path-plain_get_path :
    (fuel : ℕ) (g : Graph) (src : ℕ)
    → IsGraph g
    → IsSmall g
    → src < length g
    → get_path fuel g src ≡ plain_get_path fuel g src
unfolding get_path plain_get_path
get_path-plain_get_path fuel g src v small p =
    let (size, near) = start-IsBounded g src p in
    search-plain_search fuel g (start g src) v small size near

-- From a vertex of a graph whose edges lead to its vertices, where every weight can be added to INF
-- without an overflow of `int`, no sum of the search overflows, and it returns within the rounds that
-- the distances allow. Every distance is then INF or the weight of a walk from the source, and no
-- walk from the source to the vertex weighs less.
pub get_path_shortest :
    (fuel : ℕ) (g : Graph) (src : ℕ)
    → IsGraph g
    → IsSmall g
    → src < length g
    → length g * inf + 1 ≤ fuel
    → (t : State) × (get_path fuel g src ≡ some t)
      × ((v : ℕ) → (dist_of t v ≡ inf) ⊎ Walk g src v (dist_of t v))
      × ((v d : ℕ) → Walk g src v d → dist_of t v ≤ d)
get_path_shortest fuel g src v small p enough =
    rw (get_path-plain_get_path fuel g src v small p)
      (plain_get_path_shortest fuel g src v p enough)

-- Where all weights are positive and can be added to INF without an overflow of `int`, and INF is no
-- vertex, no sum of `GetPath` overflows, and it returns from its search; and for every vertex that it
-- reached the loop that walks back ends, and prints the vertices before it on a walk from the source
-- whose weight is its distance, with the source first.
pub walk_back_shortest :
    (fuel back : ℕ) (g : Graph) (src : ℕ)
    → IsGraph g
    → IsPositive g
    → IsSmall g
    → length g ≤ inf
    → src < length g
    → length g * inf + 1 ≤ fuel
    → inf ≤ back
    → (t : State) × (get_path fuel g src ≡ some t)
      × ((v : ℕ)
          → dist_of t v ≢ inf
          → (l : List ℕ) × (walk_back back t.path v [] ≡ some l) × Trail g src l v (dist_of t v))
walk_back_shortest fuel back g src v pos small few p enough backs =
    rw (get_path-plain_get_path fuel g src v small p)
      (plain_walk_back_shortest fuel back g src v pos few p enough backs)
