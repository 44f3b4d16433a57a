-- ===== src/Frame/Graph/Bfs.antt =====
-- The breadth-first loop of Graph::init (src/frame/graph.h).
use graphize.Common.{
  ℕ, zero, suc, ◌+◌, ◌++◌, ◌≤◌, ◌<◌, ◌≡◌, refl, ◌⊎◌, inl, inr, List, [], ◌∷◌, arith, some,
  Bool-cases, length, length-append, subst,
}
use graphize.Common.Bag.{
  count, contains, diff, total, IsNodup, IsNodup-IsWithin, total-diff, count-append, total-append,
  total-one,
}
use graphize.Frame.Node.{Heap}
use graphize.Frame.Graph.{bfs}
use graphize.Frame.Graph.Edges.{Reaches}

abbrev outputs : Heap → ℕ → List ℕ
outputs h v = (h v).out_nodes

-- A list of nodes that edges do not leave.
abbrev pub IsClosed : (ℕ → List ℕ) → List ℕ → Type 0
IsClosed out us = (v w : ℕ) → 0 < count v us → 0 < count w (out v) → 0 < count w us

module _ (h : Heap) (universe : List ℕ) (root : ℕ) where
  record BfsInv (q nodes : List ℕ) : Type 0 where
    once : IsNodup nodes
    known : (v : ℕ) → 0 < count v nodes + count v q → 0 < count v universe
    reached : (v : ℕ) → 0 < count v nodes + count v q → Reaches (outputs h) root v
    closed :
        (v w : ℕ) → 0 < count v nodes → 0 < count w (h v).out_nodes → 0 < count w nodes + count w q
    rooted : 0 < count root nodes + count root q

  -- What the loop may still push.
  abbrev unseen : List ℕ → ℕ
  unseen nodes = total (λ u. length (h u).out_nodes) (diff nodes universe)

  skip-Inv :
      (cur : ℕ) (q nodes : List ℕ) → 0 < count cur nodes → BfsInv (cur ∷ q) nodes → BfsInv q nodes
  skip-Inv cur q nodes seen i = record {
    once = i.once;
    known = λ v m. i.known v (omega arith);
    reached = λ v m. i.reached v (omega arith);
    closed = λ v w m e. ground (arith, i.closed v w m e);
    rooted = ground (arith, i.rooted);
  }

  visit_cases :
      (cur : ℕ) (q nodes : List ℕ) (v : ℕ)
      → 0 < count v (nodes ++ cur ∷ []) + count v (q ++ (h cur).out_nodes)
      → (0 < count v nodes + count v (cur ∷ q)) ⊎ (0 < count v (h cur).out_nodes)
  visit_cases cur q nodes v m =
      ground (arith, count-append v nodes (cur ∷ []), count-append v q (h cur).out_nodes)

  visit-closed :
      (cur : ℕ) (q nodes : List ℕ)
      → BfsInv (cur ∷ q) nodes
      → (v w : ℕ) → 0 < count v (nodes ++ cur ∷ [])
      → 0 < count w (h v).out_nodes
      → 0 < count w (nodes ++ cur ∷ []) + count w (q ++ (h cur).out_nodes)
  visit-closed cur q nodes i v w m e = ground (
    arith,
    count-append v nodes (cur ∷ []),
    count-append w nodes (cur ∷ []),
    count-append w q (h cur).out_nodes,
    i.closed v w,
  )

  visit-Inv :
      (cur : ℕ) (q nodes : List ℕ)
      → IsClosed (outputs h) universe
      → count cur nodes ≤ 0
      → BfsInv (cur ∷ q) nodes
      → BfsInv (q ++ (h cur).out_nodes) (nodes ++ cur ∷ [])
  visit-Inv cur q nodes shut new i = record {
    once = λ v. ground (arith, count-append v nodes (cur ∷ []), i.once v);
    known = λ v m. elim (visit_cases cur q nodes v m) [
      | inl old ↦ i.known v old
      | inr out ↦ shut cur v (i.known cur (ground arith)) out
    ];
    reached = λ v m. elim (visit_cases cur q nodes v m) [
      | inl old ↦ i.reached v old
      | inr out ↦ Reaches.along cur v (i.reached cur (ground arith)) out
    ];
    closed = visit-closed cur q nodes i;
    rooted = ground (
      arith,
      count-append root nodes (cur ∷ []),
      count-append root q (h cur).out_nodes,
      i.rooted,
    );
  }

  nodes-within : (q nodes : List ℕ) → BfsInv q nodes → (a : ℕ) → count a nodes ≤ count a universe
  nodes-within q nodes i = IsNodup-IsWithin nodes universe i.once (λ a m. i.known a (omega arith))

  -- A visit takes the outputs of the node off what may still be pushed.
  unseen-visit :
      (cur : ℕ) (q nodes : List ℕ)
      → BfsInv (cur ∷ q) nodes
      → BfsInv (q ++ (h cur).out_nodes) (nodes ++ cur ∷ [])
      → unseen (nodes ++ cur ∷ []) + length (h cur).out_nodes ≡ unseen nodes
  unseen-visit cur q nodes i i' =
      let w = λ (u : ℕ). length (h u).out_nodes in
      omega (
        arith,
        total-diff w nodes universe (nodes-within _ _ i),
        total-diff w (nodes ++ cur ∷ []) universe (nodes-within _ _ i'),
        total-append w nodes (cur ∷ []),
        total-one w cur,
      )

  -- With enough fuel the loop ends, and its invariant holds.
  bfs-Inv :
      IsClosed (outputs h) universe
      → (fuel : ℕ) (q nodes : List ℕ) → length q + unseen nodes ≤ fuel
      → BfsInv q nodes
      → (found : List ℕ) × (bfs fuel h q nodes ≡ some found) × BfsInv [] found
  unfolding bfs
  bfs-Inv shut zero [] nodes room i = (nodes, refl, i)
  bfs-Inv shut (suc fuel) [] nodes room i = (nodes, refl, i)
  bfs-Inv shut zero (cur ∷ q) nodes room i = absurd (omega arith)
  bfs-Inv shut (suc fuel) (cur ∷ q) nodes room i = elim (Bool-cases (contains cur nodes)) [
    | inl seen ↦
        rw (seen, bfs)
          (bfs-Inv shut fuel q nodes (omega arith) (skip-Inv cur q nodes (ground arith) i))
    | inr new ↦
        let i' = visit-Inv cur q nodes shut (ground arith) i in
        rw (new, bfs)
          (bfs-Inv shut fuel (q ++ (h cur).out_nodes) (nodes ++ cur ∷ [])
            (omega (arith, length-append q (h cur).out_nodes, unseen-visit cur q nodes i i')) i')
  ]

-- What the loop leaves in `all_nodes`: each node that the root reaches, once.
pub record IsReachable (out : ℕ → List ℕ) (root : ℕ) (nodes : List ℕ) : Type 0 where
  pub once : IsNodup nodes
  pub sound : (v : ℕ) → 0 < count v nodes → Reaches out root v
  pub complete : (v : ℕ) → Reaches out root v → 0 < count v nodes

Reaches-found :
    (h : Heap) (universe : List ℕ) (root : ℕ) (nodes : List ℕ)
    → BfsInv h universe root [] nodes
    → (v : ℕ) → Reaches (outputs h) root v
    → 0 < count v nodes
Reaches-found h universe root nodes i v Reaches.start = omega (arith, i.rooted)
Reaches-found h universe root nodes i v (Reaches.along u w r e) =
    omega (arith, i.closed u w (Reaches-found h universe root nodes i u r) e)

-- From the root, in a heap whose nodes are all listed, fuel for the root and every edge suffices,
-- and the nodes found are exactly the reachable ones, without repetition.
pub bfs-IsReachable :
    (h : Heap) (universe : List ℕ) (root fuel : ℕ)
    → IsClosed (λ v. (h v).out_nodes) universe
    → 0 < count root universe
    → 1 + total (λ u. length (h u).out_nodes) universe ≤ fuel
    → (nodes : List ℕ) × (bfs fuel h (root ∷ []) [] ≡ some nodes)
      × IsReachable (λ v. (h v).out_nodes) root nodes
unfolding diff
bfs-IsReachable h universe root fuel shut m room =
    let (nodes, e, i) = bfs-Inv h universe root shut fuel (root ∷ []) [] room begin in
    (
      nodes,
      e,
      record {
        once = i.once;
        sound = λ v p. i.reached v (omega arith);
        complete = Reaches-found h universe root nodes i;
      },
    )
  where
    begin : BfsInv h universe root (root ∷ []) []
    begin = record {
      once = λ v. omega arith;
      known = λ v p. ground arith;
      reached = λ v p. subst (Reaches (outputs h) root) (ground arith) Reaches.start;
      closed = λ v w p e. absurd (omega arith);
      rooted = ground arith;
    }
