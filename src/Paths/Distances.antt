-- ===== src/Paths/Distances.antt =====
-- pathserver/dijkstra.cpp: ShortPath, which keeps the distances only, and what both print of them;
-- and the graph of pathserver/main.cpp.
use canna.Prelude.{
  ℕ, zero, suc, ◌+◌, ◌≡◌, refl, ap, ◌∙◌, inl, inr, List, [], ◌∷◌, Option, none, some, if◌then◌else◌,
  ltb, Bool-cases, Option-cases, List-cases, get_or, set, replicate, length,
}
use canna.Paths.{
  Graph, edges, make_graph, add_edge, inf, int_limit, push, State, relax, scan, search, start,
  get_path,
}

-- The variables of `ShortPath`.
pub record Distances : Type 0 where
  pub dist : List ℕ
  pub queue : List (ℕ × ℕ)

abbrev pub distance_of : Distances → ℕ → ℕ
distance_of s v = get_or s.dist v inf

-- The body of its inner loop; `none` where the sum overflows.
unfoldable pub relax_distance : ℕ → Distances → ℕ × ℕ → Option Distances
relax_distance u s (v, w) =
    if ltb (distance_of s u + w) int_limit
    then some (
        if ltb (distance_of s u + w) (distance_of s v)
        then record {
          dist = set s.dist v (distance_of s u + w);
          queue = push (distance_of s u + w, v) s.queue;
        }
        else s)
    else none

unfoldable pub scan_distances : ℕ → List (ℕ × ℕ) → Distances → Option Distances
scan_distances u [] s = some s
scan_distances u (e ∷ es) s = elim (relax_distance u s e) [
  | none ↦ none
  | some t ↦ scan_distances u es t
]

-- Its outer loop, with the rounds allowed; `none` if it is still running, or where a sum overflows.
unfoldable pub search_distances : ℕ → Graph → Distances → Option Distances
search_distances zero g s = elim s.queue [ [] ↦ some s | e ∷ rest ↦ none ]
search_distances (suc fuel) g s = elim s.queue [
  | [] ↦ some s
  | e ∷ rest ↦ elim (scan_distances e.1 (edges g e.1) (record s { queue = rest })) [
    | none ↦ none
    | some t ↦ search_distances fuel g t
  ]
]

-- The lines printed: each vertex with its distance.
unfoldable pub lines_from : ℕ → List ℕ → List (ℕ × ℕ)
lines_from i [] = []
lines_from i (d ∷ dist) = (i, d) ∷ lines_from (suc i) dist

abbrev lines_of : Option Distances → Option (List (ℕ × ℕ))
lines_of none = none
lines_of (some s) = some (lines_from 0 s.dist)

-- `ShortPath`, with the rounds allowed: what it prints.
unfoldable pub short_path : ℕ → Graph → ℕ → Option (List (ℕ × ℕ))
short_path fuel g src = lines_of (
    search_distances fuel g
      (record { dist = set (replicate (length g) inf) src 0; queue = (0, src) ∷ [] }))

-- The graph of pathserver/main.cpp.
unfoldable pub main_graph : Graph
main_graph =
    let g1 = add_edge (add_edge (make_graph 9) 0 1 4) 0 7 8 in
    let g2 = add_edge (add_edge g1 1 2 8) 1 7 11 in
    let g3 = add_edge (add_edge (add_edge g2 2 3 7) 2 8 2) 2 5 4 in
    let g4 = add_edge (add_edge g3 3 4 9) 3 5 14 in
    let g5 = add_edge (add_edge g4 4 5 10) 5 6 2 in
    add_edge (add_edge (add_edge g5 6 7 1) 6 8 6) 7 8 7

-- The variables of `GetPath` without the path.
abbrev forget : State → Distances
forget s = record { dist = s.dist; queue = s.queue }

abbrev forgotten : Option State → Option Distances
forgotten none = none
forgotten (some s) = some (forget s)

relax-forget :
    (u : ℕ) (s : State) (e : ℕ × ℕ) → relax_distance u (forget s) e ≡ forgotten (relax u s e)
unfolding relax relax_distance
relax-forget u s (v, w) = elim (Bool-cases (ltb (get_or s.dist u inf + w) int_limit)) [
  | inr e ↦ rw e refl
  | inl e ↦ rw e (elim (Bool-cases (ltb (get_or s.dist u inf + w) (get_or s.dist v inf))) [
    | inl f ↦ rw f refl
    | inr f ↦ rw f refl
  ])
]

scan-forget :
    (u : ℕ) (es : List (ℕ × ℕ)) (s : State)
    → scan_distances u es (forget s) ≡ forgotten (scan u es s)
unfolding scan scan_distances
scan-forget u [] s = refl
scan-forget u (e ∷ es) s =
    rw (scan_distances, relax-forget u s e)
      (elim (Option-cases (relax u s e)) [
        | inl f ↦ rw (f, scan) refl
        | inr (t, f) ↦ rw (f, scan) (scan-forget u es t)
      ])

search-forget :
    (fuel : ℕ) (g : Graph) (s : State)
    → search_distances fuel g (forget s) ≡ forgotten (search fuel g s)
unfolding search search_distances
search-forget zero g s = elim (List-cases s.queue) [
  | inl e ↦ rw e refl
  | inr (x, rest, e) ↦ rw e refl
]
search-forget (suc fuel) g s = elim (List-cases s.queue) [
  | inl e ↦ rw e refl
  | inr (x, rest, e) ↦
      let t = record s { queue = rest } in
      rw (e, search_distances, search, scan-forget x.1 (edges g x.1) t)
        (elim (Option-cases (scan x.1 (edges g x.1) t)) [
          | inl f ↦ rw f refl
          | inr (u, f) ↦ rw f (search-forget fuel g u)
        ])
]

-- What `GetPath` prints of the distances.
abbrev pub printed : Option State → Option (List (ℕ × ℕ))
printed none = none
printed (some s) = some (lines_from 0 s.dist)

-- `ShortPath` makes as many rounds as `GetPath` and prints the same distances.
pub short_path-get_path :
    (fuel : ℕ) (g : Graph) (src : ℕ) → short_path fuel g src ≡ printed (get_path fuel g src)
unfolding short_path get_path start
short_path-get_path fuel g src =
    ap lines_of (search-forget fuel g (start g src))
    ∙ lines_of-forgotten (search fuel g (start g src))
  where
    lines_of-forgotten : (o : Option State) → lines_of (forgotten o) ≡ printed o
    lines_of-forgotten none = refl
    lines_of-forgotten (some t) = refl
