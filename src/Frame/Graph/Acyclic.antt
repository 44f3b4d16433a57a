-- ===== src/Frame/Graph/Acyclic.antt =====
-- Graphs without cycles: all nodes stand in an order behind their inputs, so no walk comes back.
use graphize.Common.{
  ℕ, suc, ◌≤◌, ◌<◌, inl, inr, List, [], ◌∷◌, arith, length, Bool-cases, if◌then◌else◌, ◌==◌,
}
use graphize.Common.Bag.{count, contains}
use graphize.Frame.Graph.Edges.{IsOrdered, Reaches}
use graphize.Frame.Graph.Bfs.{IsClosed}

module _ (out : ℕ → List ℕ) where
  -- A path of one edge or more.
  pub data Walk : ℕ → ℕ → Type 0 where
    edge : (u v : ℕ) → 0 < count v (out u) → Walk u v
    more : (u v w : ℕ) → Walk u v → 0 < count w (out v) → Walk u w

  module _ (nodes : List ℕ) where
    -- Some order holds every node, each behind its inputs.
    pub record IsAcyclic : Type 0 where
      pub order : List ℕ
      pub ordered : IsOrdered out nodes order
      pub covers : (v : ℕ) → 0 < count v nodes → 0 < count v order

    -- The place of the oldest entry of `v`.
    rank : ℕ → List ℕ → ℕ
    rank v [] = 0
    rank v (x ∷ xs) =
        let rest = rank v xs in
        if contains v xs then rest else if v == x then suc (length xs) else 0

    rank-le : (v : ℕ) (xs : List ℕ) → rank v xs ≤ length xs
    unfolding rank
    rank-le v [] = omega arith
    rank-le v (x ∷ xs) = ground (arith, rank-le v xs)

    rank-lt :
        (u v : ℕ) (xs : List ℕ)
        → IsOrdered out nodes xs
        → 0 < count u nodes
        → 0 < count v (out u)
        → 0 < count v xs
        → (0 < count u xs) × (rank u xs < rank v xs)
    unfolding rank
    rank-lt u v [] o m e h = absurd (omega arith)
    rank-lt u v (x ∷ xs) o m e h = elim (Bool-cases (contains v xs)) [
      | inl again ↦
          let (m', lt) = rank-lt u v xs o.1 m e (ground arith) in (omega arith, ground arith)
      | inr first ↦ ground (arith, rank-le u xs, o.0 u m)
    ]

    -- A walk within the graph only goes up in the order.
    Walk-lt :
        (a : IsAcyclic)
        → IsClosed out nodes
        → (u v : ℕ) → Walk u v
        → 0 < count u nodes
        → (0 < count v nodes) × (rank u a.order < rank v a.order)
    Walk-lt a shut u v (edge _ _ e) m =
        let m' = shut u v m e in (m', (rank-lt u v a.order a.ordered m e (a.covers v m')).1)
    Walk-lt a shut u w (more _ v _ p e) m =
        let (mv, lt) = Walk-lt a shut u v p m in
        let mw = shut v w mv e in
        (mw, omega (arith, (rank-lt v w a.order a.ordered mv e (a.covers w mw)).1))

    pub no_cycle : IsAcyclic → IsClosed out nodes → (v : ℕ) → 0 < count v nodes → ¬ Walk v v
    no_cycle a shut v m p = omega (arith, (Walk-lt a shut v v p m).1)

  -- What is reached without being the root is reached by a walk.
  pub Walk-snoc : (root u v : ℕ) → Reaches out root u → 0 < count v (out u) → Walk root v
  Walk-snoc root u v Reaches.start e = edge root v e
  Walk-snoc root u v (Reaches.along w _ r e') e = more root u v (Walk-snoc root w u r e') e
