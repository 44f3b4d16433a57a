-- ===== src/Frame/Graph/Edges.antt =====
-- Edges of a graph, counted; paths from the root; orders in which every node follows its inputs.
use graphize.Common.{ℕ, ◌≤◌, ◌<◌, List, [], ◌∷◌, arith}
use graphize.Common.Bag.{count, diff, total, IsWithin, total-diff, le-total, count-diff}

module _ (out : ℕ → List ℕ) where
  -- The number of edges from the listed nodes to `v`.
  abbrev pub edges : List ℕ → ℕ → ℕ
  edges us v = total (λ u. count v (out u)) us

  -- `v` can be reached from the root along edges.
  pub data Reaches (root : ℕ) : ℕ → Type 0 where
    start : Reaches root root
    along : (u v : ℕ) → Reaches root u → 0 < count v (out u) → Reaches root v

  -- Every node of the list, the last one first, stands behind all its inputs among `nodes`.
  abbrev pub IsOrdered : List ℕ → List ℕ → Type 0
  IsOrdered nodes [] = Unit {0}
  IsOrdered nodes (v ∷ vs) =
      ((u : ℕ) → 0 < count u nodes → 0 < count v (out u) → 0 < count u vs) × IsOrdered nodes vs

  -- If no edge into `v` is left outside `us`, its inputs all are in `us`.
  pub inputs_within :
      (nodes us : List ℕ) (v : ℕ)
      → IsWithin us nodes
      → edges nodes v ≤ edges us v
      → (u : ℕ) → 0 < count u nodes
      → 0 < count v (out u)
      → 0 < count u us
  inputs_within nodes us v sub all u m e = ground (
    arith,
    total-diff (λ w. count v (out w)) us nodes sub,
    le-total (λ w. count v (out w)) u (diff us nodes),
    count-diff u us nodes sub,
  )
