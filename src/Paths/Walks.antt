-- ===== src/Paths/Walks.antt =====
-- The distances that the search finds are the weights of walks.
use canna.Prelude.{
  ℕ, zero, suc, ◌+◌, ◌*◌, ◌≤◌, ◌<◌, ◌≡◌, refl, subst, ◌∙◌, ◌⊎◌, inl, inr, true, List, [], ◌∷◌, some,
  arith, length, replicate, length-set, length-replicate, ltb, ◌==◌, Bool-cases, List-cases, ==_iff,
  get_or-replicate, some_inj, none-ne-some,
}
use canna.Paths.{
  Graph, edges, inf, State, dist_of, plain_relax, plain_scan, plain_search, start, plain_get_path,
}
use canna.Paths.Relax.{HasEdge, plain_relax-dist, plain_relax-work, get_or-set}
use canna.Paths.Search.{TargetsBelow, IsGraph, plain_scan-work, plain_get_path_ends}

-- A walk from the source to a vertex, and the sum of its weights.
pub data Walk (g : Graph) (src : ℕ) : ℕ → ℕ → Type 0 where
  here : Walk g src src 0
  along : {u d : ℕ} (v w : ℕ) → Walk g src u d → HasEdge v w (edges g u) → Walk g src v (d + w)

abbrev pub Reached : Graph → ℕ → ℕ → ℕ → Type 0
Reached g src v d = (d ≤ inf) × ((d ≡ inf) ⊎ Walk g src v d)

abbrev pub IsSound : Graph → ℕ → State → Type 0
IsSound g src s = (v : ℕ) → Reached g src v (dist_of s v)

plain_relax-IsSound :
    (g : Graph) (src u v w : ℕ) (s : State)
    → v < length s.dist
    → HasEdge v w (edges g u)
    → IsSound g src s
    → IsSound g src (plain_relax u s (v, w))
plain_relax-IsSound g src u v w s h edge sound x =
    rw (plain_relax-dist u v w s x h) (elim (Bool-cases (v == x)) [
      | inr other ↦ rw other (sound x)
      | inl same ↦ rw same (elim (Bool-cases (ltb (dist_of s u + w) (dist_of s v))) [
        | inr long ↦ rw long (sound x)
        | inl short ↦ rw short (shorter ((==_iff v x).0 same) short (sound u).1)
      ])
    ])
  where
    shorter :
        v ≡ x
        → ltb (dist_of s u + w) (dist_of s v) ≡ true
        → (dist_of s u ≡ inf) ⊎ Walk g src u (dist_of s u)
        → Reached g src x (dist_of s u + w)
    shorter e short (inl far) = absurd (ground (arith, (sound v).0))
    shorter e short (inr walk) = (
      ground (arith, (sound v).0),
      inr (subst (λ y. Walk g src y (dist_of s u + w)) e (along v w walk edge)),
    )

plain_scan-IsSound :
    (g : Graph) (src u : ℕ) (es : List (ℕ × ℕ)) (s : State)
    → TargetsBelow (length s.dist) es
    → ((v w : ℕ) → HasEdge v w es → HasEdge v w (edges g u))
    → IsSound g src s
    → IsSound g src (plain_scan u es s)
unfolding plain_scan
plain_scan-IsSound g src u [] s below own sound = sound
plain_scan-IsSound g src u ((v, w) ∷ es) s below own sound =
    let (less, same) = plain_relax-work u v w s below.0 in
    plain_scan-IsSound g src u es (plain_relax u s (v, w)) (rw same below.1)
      (λ x y e. own x y (inr e))
      (plain_relax-IsSound g src u v w s below.0 (own v w (inl (refl, refl))) sound)

plain_search-IsSound :
    (fuel : ℕ) (g : Graph) (src : ℕ) (s t : State)
    → IsGraph g
    → length s.dist ≡ length g
    → IsSound g src s
    → plain_search fuel g s ≡ some t
    → IsSound g src t
unfolding plain_search
plain_search-IsSound zero g src s t v n sound h = elim (List-cases s.queue) [
  | inl e ↦ subst (IsSound g src) (some_inj (rw e at h)) sound
  | inr (e, rest, q) ↦ absurd (none-ne-some (rw q at h))
]
plain_search-IsSound (suc fuel) g src s t v n sound h = elim (List-cases s.queue) [
  | inl e ↦ subst (IsSound g src) (some_inj (rw e at h)) sound
  | inr (e, rest, q) ↦
      let popped : State = record s { queue = rest } in
      let below : TargetsBelow (length s.dist) (edges g e.1) = rw n (v e.1) in
      let (less, same) = plain_scan-work e.1 (edges g e.1) popped below in
      plain_search-IsSound fuel g src (plain_scan e.1 (edges g e.1) popped) t v (same ∙ n)
        (plain_scan-IsSound g src e.1 (edges g e.1) popped below (λ x y k. k) sound) (rw q at h)
]

start-IsSound : (g : Graph) (src : ℕ) → src < length g → IsSound g src (start g src)
unfolding start
start-IsSound g src p v =
    rw (get_or-set (replicate (length g) inf) src v 0 inf (rw (length-replicate (length g) inf) p))
      (elim (Bool-cases (src == v)) [
        | inl same ↦
            rw same (omega arith, inr (subst (λ y. Walk g src y 0) ((==_iff src v).0 same) here))
        | inr other ↦ rw (other, get_or-replicate (length g) v inf) (omega arith, inl refl)
      ])

-- From a vertex of a graph whose edges lead to its vertices, the search returns within the rounds
-- that the distances allow, and every distance is then INF or the weight of a walk from the source.
pub plain_get_path_walks :
    (fuel : ℕ) (g : Graph) (src : ℕ)
    → IsGraph g
    → src < length g
    → length g * inf + 1 ≤ fuel
    → (t : State) × (plain_get_path fuel g src ≡ some t)
      × ((v : ℕ) → (dist_of t v ≡ inf) ⊎ Walk g src v (dist_of t v))
plain_get_path_walks fuel g src v p enough =
    let (t, made, empty) = plain_get_path_ends fuel g src v p enough in
    let sound =
      plain_search-IsSound fuel g src (start g src) t v
        (unfold start in
          (length-set (replicate (length g) inf) src 0 ∙ length-replicate (length g) inf))
        (start-IsSound g src p) (unfold plain_get_path in made) in
    (t, made, λ x. (sound x).1)
