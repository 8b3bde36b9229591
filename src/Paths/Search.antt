-- ===== src/Paths/Search.antt =====
-- The search ends: each entry that is pushed makes the distances smaller.
use canna.Prelude.{
  ℕ, zero, suc, ◌+◌, ◌*◌, ◌≤◌, ◌<◌, ◌≡◌, refl, List, [], ◌∷◌, some, arith, length, replicate,
  length-set, length-replicate, ◌∙◌, ap, inl, inr, List-cases,
}
use canna.Paths.{
  Graph, edges, inf, State, plain_relax, plain_scan, plain_search, start, plain_get_path,
}
use canna.Paths.Relax.{total, work, plain_relax-work, total-set}

-- Every edge of the list leads to a vertex below `n`.
abbrev pub TargetsBelow : ℕ → List (ℕ × ℕ) → Type 0
TargetsBelow n [] = Unit
TargetsBelow n (e ∷ es) = (e.0 < n) × TargetsBelow n es

-- The edges of the graph lead to its vertices.
abbrev pub IsGraph : Graph → Type 0
IsGraph g = (u : ℕ) → TargetsBelow (length g) (edges g u)

pub plain_scan-work :
    (u : ℕ) (es : List (ℕ × ℕ)) (s : State)
    → TargetsBelow (length s.dist) es
    → (work (plain_scan u es s) ≤ work s) × (length (plain_scan u es s).dist ≡ length s.dist)
unfolding plain_scan
plain_scan-work u [] s v = (omega arith, refl)
plain_scan-work u ((t, w) ∷ es) s v =
    let (less, same) = plain_relax-work u t w s v.0 in
    let (less', same') = plain_scan-work u es (plain_relax u s (t, w)) (rw same v.1) in
    (omega arith, same' ∙ same)

-- A search returns within as many rounds as there is work.
pub plain_search_ends :
    (fuel : ℕ) (g : Graph) (s : State)
    → IsGraph g
    → length s.dist ≡ length g
    → work s ≤ fuel
    → (t : State) × (plain_search fuel g s ≡ some t) × (t.queue ≡ [])
unfolding plain_search
plain_search_ends zero g s v n enough = elim (List-cases s.queue) [
  | inl e ↦ (s, rw e refl, e)
  | inr (e, rest, h) ↦ absurd (omega (arith, ap length h))
]
plain_search_ends (suc fuel) g s v n enough = elim (List-cases s.queue) [
  | inl e ↦ (s, rw e refl, e)
  | inr (e, rest, h) ↦
      let popped : State = record s { queue = rest } in
      let (less, same) = plain_scan-work e.1 (edges g e.1) popped (rw n (v e.1)) in
      rw h (
        plain_search_ends fuel g (plain_scan e.1 (edges g e.1) popped) v (same ∙ n)
          (omega (arith, ap length h)))
]

total-replicate : (n : ℕ) → total (replicate n inf) ≡ n * inf
total-replicate zero = refl
total-replicate (suc n) = omega (arith, total-replicate n)

-- From a vertex of a graph whose edges lead to its vertices, the search returns, and with an empty
-- queue, within as many rounds as the distances that it starts from add up to, and one.
pub plain_get_path_ends :
    (fuel : ℕ) (g : Graph) (src : ℕ)
    → IsGraph g
    → src < length g
    → length g * inf + 1 ≤ fuel
    → (t : State) × (plain_get_path fuel g src ≡ some t) × (t.queue ≡ [])
unfolding plain_get_path start
plain_get_path_ends fuel g src v p enough =
    let size = length-replicate (length g) inf in
    plain_search_ends fuel g (start g src) v (length-set (replicate (length g) inf) src 0 ∙ size) (
      omega (
        arith,
        total-set (replicate (length g) inf) src 0 inf (omega (arith, size)),
        total-replicate (length g),
      ))
