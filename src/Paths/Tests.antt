-- ===== src/Paths/Tests.antt =====
-- Shortest paths on a small graph.
use canna.Prelude.{
  List, ◌≤◌, ◌≢◌, ℕ, ◌⊎◌, zero, suc, ◌+◌, ◌*◌, ◌≡◌, refl, [], ◌∷◌, some, none, arith,
}
use canna.Paths.{
  plain_get_path, dist_of, Graph, State, make_graph, add_edge, push, relax, scan, search, start,
  get_path, walk_back, inf,
}
use canna.Paths.Distances.{
  relax_distance, scan_distances, search_distances, short_path, main_graph, printed,
  short_path-get_path,
}
use canna.Paths.Back.{Trail, IsPositive}
use canna.Paths.Ints.{IsSmall, get_path_shortest, walk_back_shortest}
use canna.Paths.Walks.{Walk, plain_get_path_walks}
use canna.Paths.Search.{IsGraph, plain_get_path_ends}

-- The edges 0 - 1 of weight 4, 0 - 2 of weight 1 and 2 - 1 of weight 2.
abbrev triangle : Graph
triangle = add_edge (add_edge (add_edge (make_graph 3) 0 1 4) 0 2 1) 2 1 2

distances :
    get_path 9 triangle 0
    ≡ some (record { dist = 0 ∷ 3 ∷ 1 ∷ []; path = inf ∷ 2 ∷ 0 ∷ []; queue = [] })
unfolding get_path search scan relax push start add_edge make_graph
distances = refl

path_to_one : walk_back 3 (inf ∷ 2 ∷ 0 ∷ []) 1 [] ≡ some (0 ∷ 2 ∷ [])
unfolding walk_back
path_to_one = refl

triangle-IsGraph : IsGraph triangle
unfolding add_edge make_graph
triangle-IsGraph zero = (omega arith, (omega arith, tt))
triangle-IsGraph (suc zero) = (omega arith, (omega arith, tt))
triangle-IsGraph (suc (suc zero)) = (omega arith, (omega arith, tt))
triangle-IsGraph (suc (suc (suc u))) = tt

plain_get_path_ends_test :
    (t : State) × (plain_get_path (3 * inf + 1) triangle 0 ≡ some t) × (t.queue ≡ [])
plain_get_path_ends_test =
    plain_get_path_ends (3 * inf + 1) triangle 0 triangle-IsGraph
      (unfold add_edge make_graph in omega arith) (unfold add_edge make_graph in omega arith)

plain_get_path_walks_test :
    (t : State) × (plain_get_path (3 * inf + 1) triangle 0 ≡ some t)
    × ((v : ℕ) → (dist_of t v ≡ inf) ⊎ Walk triangle 0 v (dist_of t v))
plain_get_path_walks_test =
    plain_get_path_walks (3 * inf + 1) triangle 0 triangle-IsGraph
      (unfold add_edge make_graph in omega arith) (unfold add_edge make_graph in omega arith)

triangle-IsSmall : IsSmall triangle
unfolding add_edge make_graph
triangle-IsSmall zero v w h = ground arith
triangle-IsSmall (suc zero) v w h = ground arith
triangle-IsSmall (suc (suc zero)) v w h = ground arith
triangle-IsSmall (suc (suc (suc u))) v w h = absurd h

get_path_shortest_example :
    (t : State) × (get_path (3 * inf + 1) triangle 0 ≡ some t)
    × ((v : ℕ) → (dist_of t v ≡ inf) ⊎ Walk triangle 0 v (dist_of t v))
    × ((v d : ℕ) → Walk triangle 0 v d → dist_of t v ≤ d)
get_path_shortest_example =
    get_path_shortest (3 * inf + 1) triangle 0 triangle-IsGraph triangle-IsSmall
      (unfold add_edge make_graph in omega arith) (unfold add_edge make_graph in omega arith)

triangle-IsPositive : IsPositive triangle
unfolding add_edge make_graph
triangle-IsPositive zero v w h = ground arith
triangle-IsPositive (suc zero) v w h = ground arith
triangle-IsPositive (suc (suc zero)) v w h = ground arith
triangle-IsPositive (suc (suc (suc u))) v w h = absurd h

walk_back_shortest_example :
    (t : State) × (get_path (3 * inf + 1) triangle 0 ≡ some t)
    × ((v : ℕ)
        → dist_of t v ≢ inf
        → (l : List ℕ) × (walk_back inf t.path v [] ≡ some l) × Trail triangle 0 l v (dist_of t v))
walk_back_shortest_example =
    walk_back_shortest (3 * inf + 1) inf triangle 0 triangle-IsGraph triangle-IsPositive
      triangle-IsSmall (unfold add_edge make_graph in omega arith)
      (unfold add_edge make_graph in omega arith) (unfold add_edge make_graph in omega arith)
      (omega arith)

short_path-get_path_test : short_path 9 triangle 0 ≡ printed (get_path 9 triangle 0)
short_path-get_path_test = short_path-get_path 9 triangle 0

-- The run of main.cpp.
main_distances :
    short_path 40 main_graph 0
    ≡ some
        ((0, 0) ∷ (1, 4) ∷ (2, 12) ∷ (3, 19) ∷ (4, 21) ∷ (5, 11) ∷ (6, 9) ∷ (7, 8) ∷ (8, 14) ∷ [])
unfolding short_path main_graph search_distances scan_distances relax_distance push add_edge
    make_graph canna.Paths.Distances.lines_from
main_distances = refl

main_way :
    elim (get_path 40 main_graph 0) [ none ↦ none | some t ↦ walk_back 10 t.path 4 [] ]
    ≡ some (0 ∷ 7 ∷ 6 ∷ 5 ∷ [])
unfolding get_path main_graph search scan relax push start add_edge make_graph walk_back
main_way = refl

-- A sum of 2000000000 and 2000000000 overflows.
abbrev long_way : Graph
long_way = add_edge (add_edge (make_graph 3) 0 1 2000000000) 1 2 2000000000

long_way_overflows : get_path 9 long_way 0 ≡ none
unfolding get_path search scan relax push start add_edge make_graph
long_way_overflows = refl
