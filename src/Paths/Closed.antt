-- ===== src/Paths/Closed.antt =====
-- What the search leaves: an edge can shorten a distance only while the vertex it leaves from waits.
use canna.Prelude.{
  ℕ, zero, suc, ◌+◌, ◌≤◌, ◌<◌, ◌≡◌, sym, ◌∙◌, ◌⊎◌, inl, inr, List, [], ◌∷◌, some, arith, length,
  List-cases, ==_iff, some_inj, none-ne-some, subst,
}
use canna.Paths.{Graph, edges, State, dist_of, plain_relax, plain_scan, plain_search}
use canna.Paths.Relax.{HasEdge, InQueue, plain_relax-dist, plain_relax-queue, plain_relax-work}
use canna.Paths.Search.{TargetsBelow, IsGraph, plain_scan-work}

-- The edge from `x` to `y` of weight `w` is used up, or will be: `x` waits, or it is among the
-- edges of `u` that are still to be read.
abbrev pub Settled : ℕ → List (ℕ × ℕ) → State → ℕ → ℕ → ℕ → Type 0
Settled u es s x y w =
    InQueue x s.queue ⊎ ((dist_of s y ≤ dist_of s x + w) ⊎ ((x ≡ u) × HasEdge y w es))

abbrev pub IsClosed : Graph → ℕ → List (ℕ × ℕ) → State → Type 0
IsClosed g u es s = (x y w : ℕ) → HasEdge y w (edges g x) → Settled u es s x y w

pub plain_relax-le :
    (u v w : ℕ) (s : State) (x : ℕ)
    → v < length s.dist
    → dist_of (plain_relax u s (v, w)) x ≤ dist_of s x
plain_relax-le u v w s x h = ground (arith, plain_relax-dist u v w s x h, ==_iff v x)

plain_relax-Settled :
    (u v w : ℕ) (es : List (ℕ × ℕ)) (s : State) (x y w' : ℕ)
    → v < length s.dist
    → Settled u ((v, w) ∷ es) s x y w'
    → Settled u es (plain_relax u s (v, w)) x y w'
plain_relax-Settled u v w es s x y w' h settled = ground (
  arith,
  plain_relax-dist u v w s x h,
  plain_relax-dist u v w s y h,
  (plain_relax-queue u v w s x).1,
)

-- Reading all the edges of `u`.
plain_scan-IsClosed :
    (g : Graph) (u : ℕ) (es : List (ℕ × ℕ)) (s : State)
    → TargetsBelow (length s.dist) es
    → IsClosed g u es s
    → IsClosed g u [] (plain_scan u es s)
unfolding plain_scan
plain_scan-IsClosed g u [] s below closed = closed
plain_scan-IsClosed g u ((v, w) ∷ es) s below closed =
    let (less, same) = plain_relax-work u v w s below.0 in
    plain_scan-IsClosed g u es (plain_relax u s (v, w)) (rw same below.1)
      (λ x y w' e. plain_relax-Settled u v w es s x y w' below.0 (closed x y w' e))

pub plain_scan-le :
    (u : ℕ) (es : List (ℕ × ℕ)) (s : State) (x : ℕ)
    → TargetsBelow (length s.dist) es
    → dist_of (plain_scan u es s) x ≤ dist_of s x
unfolding plain_scan
plain_scan-le u [] s x below = omega arith
plain_scan-le u ((v, w) ∷ es) s x below =
    let (less, same) = plain_relax-work u v w s below.0 in
    let later = plain_scan-le u es (plain_relax u s (v, w)) x (rw same below.1) in
    omega (arith, plain_relax-le u v w s x below.0, later)

-- Taking `u` from the queue turns its waiting into edges to be read.
popped-IsClosed :
    (g : Graph) (s : State) (e : ℕ × ℕ) (rest : List (ℕ × ℕ)) (u : ℕ)
    → s.queue ≡ e ∷ rest
    → IsClosed g u [] s
    → IsClosed g e.1 (edges g e.1) (record s { queue = rest })
popped-IsClosed g s e rest u q closed x y w edge =
    let old = rw q at (closed x y w edge) in
    elim old [
      | inl (inl same) ↦ inr (inr (sym same, subst (λ k. HasEdge y w (edges g k)) (sym same) edge))
      | inl (inr waits) ↦ inl waits
      | inr (inl short) ↦ inr (inl short)
      | inr (inr (same, none_left)) ↦ absurd none_left
    ]

ended :
    (g : Graph) (u : ℕ) (s t : State)
    → s.queue ≡ []
    → IsClosed g u [] s
    → record s { queue = [] } ≡ t
    → ((x y w : ℕ) → HasEdge y w (edges g x) → dist_of t y ≤ dist_of t x + w)
      × ((x : ℕ) → dist_of t x ≤ dist_of s x)
ended g u s t q closed e =
    subst
      (λ (r : State).
        ((x y w : ℕ) → HasEdge y w (edges g x) → dist_of r y ≤ dist_of r x + w)
        × ((x : ℕ) → dist_of r x ≤ dist_of s x))
      e (λ x y w edge. short x y w (rw q at (closed x y w edge)), λ x. omega arith)
  where
    short :
        (x y w : ℕ)
        → InQueue x [] ⊎ ((dist_of s y ≤ dist_of s x + w) ⊎ ((x ≡ u) × HasEdge y w []))
        → dist_of s y ≤ dist_of s x + w
    short x y w (inl waits) = absurd waits
    short x y w (inr (inl h)) = h
    short x y w (inr (inr (same, none_left))) = absurd none_left

-- Where the search returns, no edge can shorten a distance, and none has grown.
pub plain_search-IsClosed :
    (fuel : ℕ) (g : Graph) (u : ℕ) (s t : State)
    → IsGraph g
    → length s.dist ≡ length g
    → IsClosed g u [] s
    → plain_search fuel g s ≡ some t
    → ((x y w : ℕ) → HasEdge y w (edges g x) → dist_of t y ≤ dist_of t x + w)
      × ((x : ℕ) → dist_of t x ≤ dist_of s x)
unfolding plain_search
plain_search-IsClosed zero g u s t v n closed h = elim (List-cases s.queue) [
  | inl e ↦ ended g u s t e closed (some_inj (rw e at h))
  | inr (e, rest, q) ↦ absurd (none-ne-some (rw q at h))
]
plain_search-IsClosed (suc fuel) g u s t v n closed h = elim (List-cases s.queue) [
  | inl e ↦ ended g u s t e closed (some_inj (rw e at h))
  | inr (e, rest, q) ↦
      let popped : State = record s { queue = rest } in
      let below : TargetsBelow (length s.dist) (edges g e.1) = rw n (v e.1) in
      let (less, same) = plain_scan-work e.1 (edges g e.1) popped below in
      let (short, le) =
        plain_search-IsClosed fuel g e.1 (plain_scan e.1 (edges g e.1) popped) t v (same ∙ n)
          (plain_scan-IsClosed g e.1 (edges g e.1) popped below
            (popped-IsClosed g s e rest u q closed))
          (rw q at h) in
      (short, λ x. omega (arith, le x, plain_scan-le e.1 (edges g e.1) popped x below))
]
