-- ===== src/Paths/Back.antt =====
-- The path that GetPath prints is a shortest one.
use canna.Prelude.{
  ℕ, zero, suc, ◌+◌, ◌*◌, ◌≤◌, ◌<◌, ◌≡◌, ◌≢◌, refl, sym, ap, ◌∙◌, inl, inr, List, [], ◌∷◌, ◌++◌,
  some, arith, length, append_assoc, append-nil, ◌==◌, false, subst,
}
use canna.Paths.{Graph, edges, inf, State, dist_of, plain_get_path, walk_back, start}
use canna.Paths.Relax.{HasEdge}
use canna.Paths.Search.{IsGraph}
use canna.Paths.Walks.{plain_get_path_walks}
use canna.Paths.Shortest.{IsDone, plain_get_path-IsDone}
use canna.Paths.Parents.{parent_of, IsRooted, plain_search-IsRooted, start-IsRooted}

-- The vertices before `v` on a walk from the source, and its weight.
pub data Trail (g : Graph) (src : ℕ) : List ℕ → ℕ → ℕ → Type 0 where
  begin : Trail g src [] src 0
  more :
      {l : List ℕ} {u d : ℕ} (v w : ℕ)
      → Trail g src l u d
      → HasEdge v w (edges g u)
      → Trail g src (l ++ u ∷ []) v (d + w)

abbrev pub IsPositive : Graph → Type 0
IsPositive g = (u v w : ℕ) → HasEdge v w (edges g u) → 0 < w

begin_at : (g : Graph) (src v d : ℕ) → v ≡ src → d ≡ 0 → Trail g src [] v d
begin_at g src v d e f =
    subst (λ k. Trail g src [] k d) (sym e) (subst (Trail g src [] src) (sym f) begin)

module _ (g : Graph) (src : ℕ) (t : State) where
  walk_back-Trail :
      (fuel v : ℕ) (found : List ℕ)
      → IsPositive g
      → IsDone g src t
      → ((x : ℕ) → IsRooted g src t x)
      → dist_of t v ≢ inf
      → dist_of t v < fuel
      → (l : List ℕ) × (walk_back fuel t.path v found ≡ some (l ++ found))
        × Trail g src l v (dist_of t v)
  unfolding walk_back
  walk_back-Trail zero v found pos done rooted near enough = absurd (omega arith)
  walk_back-Trail (suc fuel) v found pos done rooted near enough = elim (rooted v) [
    | inl (bare, inl same) ↦ (
      [],
      rw bare refl,
      begin_at g src v (dist_of t v) same
          (subst (λ k. dist_of t k ≡ 0) (sym same) (omega (arith, done.origin))),
    )
    | inl (bare, inr gone) ↦ absurd (near gone)
    | inr (far, (w, edge, le)) ↦
        let p : ℕ = parent_of t v in
        let (l, made, trail) =
          walk_back-Trail fuel p (p ∷ found) pos done rooted
            (λ e. near (omega (arith, done.small v))) (omega (arith, pos p v w edge)) in
        let weight : dist_of t p + w ≡ dist_of t v = omega (arith, done.short p v w edge) in
        let stops : (p == inf) ≡ false = ground arith in
        (
          l ++ p ∷ [],
          rw stops (made ∙ ap some (sym (append_assoc l (p ∷ []) found))),
          subst (Trail g src (l ++ p ∷ []) v) weight (more v w trail edge),
        )
  ]

-- Where all weights are positive and INF is no vertex, `GetPath` returns from its search, and for
-- every vertex that it reached the loop that walks back ends, and prints the vertices before it on
-- a walk from the source whose weight is its distance, with the source first.
pub plain_walk_back_shortest :
    (fuel back : ℕ) (g : Graph) (src : ℕ)
    → IsGraph g
    → IsPositive g
    → length g ≤ inf
    → src < length g
    → length g * inf + 1 ≤ fuel
    → inf ≤ back
    → (t : State) × (plain_get_path fuel g src ≡ some t)
      × ((v : ℕ)
          → dist_of t v ≢ inf
          → (l : List ℕ) × (walk_back back t.path v [] ≡ some l) × Trail g src l v (dist_of t v))
plain_walk_back_shortest fuel back g src v pos small p enough backs =
    let (t, made, walks) = plain_get_path_walks fuel g src v p enough in
    let done = plain_get_path-IsDone fuel g src t v p made in
    let (size, first) = start-IsRooted g src p in
    let rooted =
      plain_search-IsRooted fuel g src (start g src) t small v size first
        (unfold plain_get_path in made) in
    (
      t,
      made,
      λ x near.
          let (l, printed, trail) =
            walk_back-Trail g src t back x [] pos done rooted near (omega (arith, done.small x)) in
          (l, printed ∙ ap some (append-nil l), trail),
    )
