-- ===== src/Paths/Parents.antt =====
-- The predecessors that GetPath records: each one lies on a shortest walk.
use canna.Prelude.{
  ℕ, zero, suc, ◌+◌, ◌≤◌, ◌<◌, ◌≡◌, ◌≢◌, refl, ◌∙◌, ◌⊎◌, inl, inr, List, [], ◌∷◌, some, arith,
  length, get_or, replicate, length-set, length-replicate, get_or-replicate, ltb, ◌==◌,
  if◌then◌else◌, Bool-cases, List-cases, ==_iff, some_inj, none-ne-some, subst,
}
use canna.Paths.{Graph, edges, inf, State, dist_of, plain_relax, plain_scan, plain_search, start}
use canna.Paths.Relax.{HasEdge, plain_relax-dist, get_or-set}
use canna.Paths.Search.{TargetsBelow, IsGraph}
use canna.Paths.Closed.{plain_relax-le}

abbrev pub parent_of : State → ℕ → ℕ
parent_of s x = get_or s.path x inf

-- The vertex has no predecessor, being the source or not reached, or an edge from its predecessor
-- leads to it and accounts for its distance.
abbrev pub IsRooted : Graph → ℕ → State → ℕ → Type 0
IsRooted g src s x =
    ((parent_of s x ≡ inf) × ((x ≡ src) ⊎ (dist_of s x ≡ inf)))
    ⊎ ((parent_of s x ≢ inf)
        × ((w : ℕ) × HasEdge x w (edges g (parent_of s x))
            × (dist_of s (parent_of s x) + w ≤ dist_of s x)))

-- Only a vertex of the graph has edges.
pub edges-lt : (g : Graph) (u v w : ℕ) → HasEdge v w (edges g u) → u < length g
edges-lt [] u v w h = absurd h
edges-lt (es ∷ g) zero v w h = omega arith
edges-lt (es ∷ g) (suc u) v w h = omega (arith, edges-lt g u v w h)

-- The distances and the predecessors are as many as the vertices.
abbrev pub IsSized : Graph → State → Type 0
IsSized g s = (length s.dist ≡ length g) × (length s.path ≡ length g)

plain_relax-IsSized :
    (g : Graph) (u v w : ℕ) (s : State) → IsSized g s → IsSized g (plain_relax u s (v, w))
unfolding plain_relax
plain_relax-IsSized g u v w s (m, n) =
    ground (arith, length-set s.dist v (dist_of s u + w), length-set s.path v u)

plain_relax-parent :
    (u v w : ℕ) (s : State) (x : ℕ)
    → v < length s.path
    → parent_of (plain_relax u s (v, w)) x ≡ (
        if v == x
        then (if ltb (dist_of s u + w) (dist_of s v) then u else parent_of s x)
        else parent_of s x)
unfolding plain_relax
plain_relax-parent u v w s x h = ground (arith, get_or-set s.path v x u inf)

-- A vertex that the edge does not improve.
plain_relax-kept :
    (g : Graph) (src u v w : ℕ) (s : State) (x : ℕ)
    → v < length s.dist
    → dist_of (plain_relax u s (v, w)) x ≡ dist_of s x
    → parent_of (plain_relax u s (v, w)) x ≡ parent_of s x
    → IsRooted g src s x
    → IsRooted g src (plain_relax u s (v, w)) x
plain_relax-kept g src u v w s x h d p (inl (bare, why)) = inl (p ∙ bare, ground arith)
plain_relax-kept g src u v w s x h d p (inr (found, (w', edge, le))) =
    inr (rw p (found, (w', edge, omega (arith, plain_relax-le u v w s (parent_of s x) h))))

-- The vertex that the edge improves.
plain_relax-improved :
    (g : Graph) (src u v w : ℕ) (s : State) (x : ℕ)
    → length g ≤ inf
    → v < length s.dist
    → v ≡ x
    → HasEdge v w (edges g u)
    → dist_of (plain_relax u s (v, w)) x ≡ dist_of s u + w
    → parent_of (plain_relax u s (v, w)) x ≡ u
    → IsRooted g src (plain_relax u s (v, w)) x
plain_relax-improved g src u v w s x small h same edge d p = inr (
    rw p (
      λ far. absurd (omega (arith, edges-lt g u v w edge)),
      (
        w,
        subst (λ k. HasEdge k w (edges g u)) same edge,
        omega (arith, plain_relax-le u v w s u h),
      ),
    ))

plain_relax-IsRooted :
    (g : Graph) (src u v w : ℕ) (s : State)
    → length g ≤ inf
    → IsSized g s
    → v < length g
    → HasEdge v w (edges g u)
    → ((x : ℕ) → IsRooted g src s x)
    → (x : ℕ) → IsRooted g src (plain_relax u s (v, w)) x
plain_relax-IsRooted g src u v w s small (m, n) h edge rooted x =
    let dist' = plain_relax-dist u v w s x (omega arith) in
    let parent' = plain_relax-parent u v w s x (omega arith) in
    elim (Bool-cases (v == x)) [
      | inr other ↦
          plain_relax-kept g src u v w s x (omega arith) (rw other at dist') (rw other at parent')
            (rooted x)
      | inl same ↦ elim (Bool-cases (ltb (dist_of s u + w) (dist_of s v))) [
        | inr long ↦
            plain_relax-kept g src u v w s x (omega arith) (rw (same, long) at dist')
              (rw (same, long) at parent') (rooted x)
        | inl short ↦
            plain_relax-improved g src u v w s x small (omega arith) ((==_iff v x).0 same) edge
              (rw (same, short) at dist') (rw (same, short) at parent')
      ]
    ]

plain_scan-IsRooted :
    (g : Graph) (src u : ℕ) (es : List (ℕ × ℕ)) (s : State)
    → length g ≤ inf
    → IsSized g s
    → TargetsBelow (length g) es
    → ((v w : ℕ) → HasEdge v w es → HasEdge v w (edges g u))
    → ((x : ℕ) → IsRooted g src s x)
    → ((x : ℕ) → IsRooted g src (plain_scan u es s) x) × IsSized g (plain_scan u es s)
unfolding plain_scan
plain_scan-IsRooted g src u [] s small size below own rooted = (rooted, size)
plain_scan-IsRooted g src u ((v, w) ∷ es) s small size below own rooted =
    plain_scan-IsRooted g src u es (plain_relax u s (v, w)) small
      (plain_relax-IsSized g u v w s size) below.1 (λ x y e. own x y (inr e))
      (plain_relax-IsRooted g src u v w s small size below.0 (own v w (inl (refl, refl))) rooted)

pub plain_search-IsRooted :
    (fuel : ℕ) (g : Graph) (src : ℕ) (s t : State)
    → length g ≤ inf
    → IsGraph g
    → IsSized g s
    → ((x : ℕ) → IsRooted g src s x)
    → plain_search fuel g s ≡ some t
    → (x : ℕ) → IsRooted g src t x
unfolding plain_search
plain_search-IsRooted zero g src s t small v size rooted h x = elim (List-cases s.queue) [
  | inl e ↦ subst (λ (r : State). IsRooted g src r x) (some_inj (rw e at h)) (rooted x)
  | inr (e, rest, q) ↦ absurd (none-ne-some (rw q at h))
]
plain_search-IsRooted (suc fuel) g src s t small v size rooted h x = elim (List-cases s.queue) [
  | inl e ↦ subst (λ (r : State). IsRooted g src r x) (some_inj (rw e at h)) (rooted x)
  | inr (e, rest, q) ↦
      let popped : State = record s { queue = rest } in
      let (rooted', size') =
        plain_scan-IsRooted g src e.1 (edges g e.1) popped small size (v e.1) (λ y w k. k) rooted in
      plain_search-IsRooted fuel g src (plain_scan e.1 (edges g e.1) popped) t small v size' rooted'
        (rw q at h) x
]

pub start-IsRooted :
    (g : Graph) (src : ℕ)
    → src < length g
    → IsSized g (start g src) × ((x : ℕ) → IsRooted g src (start g src) x)
unfolding start
start-IsRooted g src p =
    let size = length-replicate (length g) inf in
    (
      (length-set (replicate (length g) inf) src 0 ∙ size, size),
      λ x. inl (
        get_or-replicate (length g) x inf,
        ground (
          arith,
          get_or-set (replicate (length g) inf) src x 0 inf (rw size p),
          get_or-replicate (length g) x inf,
        ),
      ),
    )
