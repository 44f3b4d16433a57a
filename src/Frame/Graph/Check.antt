-- ===== src/Frame/Graph/Check.antt =====
-- Graph::check (src/frame/graph.h): the loop that removes nodes without inputs.
use graphize.Common.{
  ℕ, zero, suc, ◌+◌, ◌-◌, ◌++◌, ◌≤◌, ◌<◌, ◌≡◌, refl, subst, fun_ext, List, [], ◌∷◌, arith, some,
  length, pos, decrement, is_zero, if◌then◌else◌,
}
use graphize.Common.Bag.{
  count, same, total, IsNodup, IsWithin, IsNodup-IsWithin, count-append, total-diff, length-le,
}
use graphize.Frame.Node.{Heap, update}
use graphize.Frame.Graph.{remove_edges, remove_nodes}
use graphize.Frame.Graph.Edges.{edges, IsOrdered, inputs_within}
use graphize.Frame.Graph.Bfs.{IsClosed}

-- The edges `out`, the nodes of the graph, and for each node the number of its inputs (`inputs`).
module _ (out : ℕ → List ℕ) (nodes : List ℕ) (inputs : ℕ → ℕ) where
  -- The loop has taken off `sent v` of the inputs of `v`. The nodes that have none left are those
  -- already deleted and those in the queue.
  pub record KahnInv (sent : ℕ → ℕ) (h : Heap) (q deleted : List ℕ) : Type 0 where
    pub same_out : (v : ℕ) → (h v).out_nodes ≡ out v
    pub left : (v : ℕ) → 0 < count v nodes → (h v).input_num_4_check ≡ pos (inputs v - sent v)
    pub once : (v : ℕ) → count v deleted + count v q ≤ 1
    pub known : (v : ℕ) → 0 < count v deleted + count v q → 0 < count v nodes
    pub empty : (v : ℕ) → 0 < count v deleted + count v q → inputs v ≤ sent v
    pub full : (v : ℕ) → 0 < count v nodes → inputs v ≤ sent v → 0 < count v deleted + count v q

  abbrev after_one : (ℕ → ℕ) → ℕ → ℕ → ℕ
  after_one sent n v = sent v + same v n

  -- One edge into `n` is taken off.
  remove_edge-Inv :
      (sent : ℕ → ℕ) (h : Heap) (q deleted : List ℕ) (n : ℕ)
      → 0 < count n nodes
      → sent n < inputs n
      → KahnInv sent h q deleted
      → let left = decrement (h n).input_num_4_check in
        KahnInv
          (after_one sent n)
          (update h n (record (h n) { input_num_4_check = left }))
          (if is_zero left then q ++ n ∷ [] else q)
          deleted
  remove_edge-Inv sent h q deleted n m room i = record {
    same_out = λ v. ground (arith, i.same_out v, i.same_out n);
    left = λ v p. ground (arith, i.left v, i.left n);
    once = λ v. ground (arith, i.left n, i.once v, i.empty v, count-append v q (n ∷ []));
    known = λ v p. ground (arith, i.left n, i.known v, count-append v q (n ∷ []));
    empty = λ v p. ground (arith, i.left n, i.empty v, count-append v q (n ∷ []));
    full = λ v p e. ground (arith, i.left n, i.full v, count-append v q (n ∷ []));
  }

  KahnInv-cong :
      {sent sent' : ℕ → ℕ} {h : Heap} {q deleted : List ℕ}
      → ((v : ℕ) → sent v ≡ sent' v)
      → KahnInv sent h q deleted
      → KahnInv sent' h q deleted
  KahnInv-cong {h} {q} {deleted} e i = subst (λ s. KahnInv s h q deleted) (fun_ext e) i

  remove_edges-Inv :
      (ns : List ℕ) (sent : ℕ → ℕ) (h : Heap) (q deleted : List ℕ)
      → ((v : ℕ) → 0 < count v ns → 0 < count v nodes)
      → ((v : ℕ) → 0 < count v ns → sent v + count v ns ≤ inputs v)
      → KahnInv sent h q deleted
      → KahnInv (λ v. sent v + count v ns) (remove_edges h ns q).0 (remove_edges h ns q).1 deleted
  unfolding remove_edges
  remove_edges-Inv [] sent h q deleted inside room i =
      KahnInv-cong {sent = sent} (λ v. omega arith) i
  remove_edges-Inv (n ∷ ns) sent h q deleted inside room i =
      KahnInv-cong {sent = λ v. after_one sent n v + count v ns} (λ v. omega arith)
        (remove_edges-Inv ns (after_one sent n) _ _ deleted (λ v m. inside v (omega arith))
          (λ v m. omega (arith, room v))
          (remove_edge-Inv sent h q deleted n (ground (arith, inside n)) (ground (arith, room n))
            i))

  -- The node at the front of the queue is flagged.
  pop-Inv :
      {sent : ℕ → ℕ} {h : Heap} (r : ℕ) (q deleted : List ℕ)
      → KahnInv sent h (r ∷ q) deleted
      → KahnInv sent h q (r ∷ deleted)
  pop-Inv r q deleted i = record {
    same_out = i.same_out;
    left = i.left;
    once = λ v. omega (arith, i.once v);
    known = λ v m. i.known v (omega arith);
    empty = λ v m. i.empty v (omega arith);
    full = λ v m e. omega (arith, i.full v m e);
  }

  module _ (unique : IsNodup nodes) (closed : IsClosed out nodes)
      (enough : (v : ℕ) → edges out nodes v ≤ inputs v) where
    deleted-IsWithin :
        {sent : ℕ → ℕ} {h : Heap} (q deleted : List ℕ)
        → KahnInv sent h q deleted
        → IsWithin deleted nodes
    deleted-IsWithin q deleted i =
        IsNodup-IsWithin deleted nodes (λ a. omega (arith, i.once a))
          (λ a m. i.known a (omega arith))

    abbrev pub Loop : Heap → List ℕ → List ℕ → Type 0
    Loop h q deleted = KahnInv (edges out deleted) h q deleted × IsOrdered out nodes deleted

    round-Loop :
        (h : Heap) (r : ℕ) (q deleted : List ℕ)
        → Loop h (r ∷ q) deleted
        → Loop
            (remove_edges h (h r).out_nodes q).0
            (remove_edges h (h r).out_nodes q).1
            (r ∷ deleted)
    unfolding total
    round-Loop h r q deleted (i, ordered) =
        let i' = pop-Inv r q deleted i in
        let within = deleted-IsWithin q (r ∷ deleted) i' in
        (
          rw (i.same_out r) (
              KahnInv-cong {sent = λ v. edges out deleted v + count v (out r)} (λ v. omega arith)
                (remove_edges-Inv (out r) (edges out deleted) h q (r ∷ deleted)
                  (λ v m. closed r v (i.known r (ground arith)) m)
                  (λ v m.
                    omega (
                      arith,
                      total-diff (λ u. count v (out u)) (r ∷ deleted) nodes within,
                      enough v,
                    ))
                  i')),
          (
            λ u m e.
                inputs_within out nodes deleted r (deleted-IsWithin (r ∷ q) deleted i)
                  (omega (arith, enough r, i.empty r (ground arith))) u m e,
            ordered,
          ),
        )

    -- The loop ends within its fuel, one round for each node.
    pub remove_nodes-Loop :
        (fuel : ℕ) (h : Heap) (q deleted : List ℕ)
        → length nodes ≤ length deleted + fuel
        → Loop h q deleted
        → (h' : Heap) × (deleted' : List ℕ) × (remove_nodes fuel h q deleted ≡ some (h', deleted'))
          × Loop h' [] deleted'
    unfolding remove_nodes
    remove_nodes-Loop zero h [] deleted room l = (h, deleted, refl, l)
    remove_nodes-Loop (suc fuel) h [] deleted room l = (h, deleted, refl, l)
    remove_nodes-Loop zero h (r ∷ q) deleted room l = absurd (
        omega (
          arith,
          length-le (r ∷ deleted) nodes
              (deleted-IsWithin q (r ∷ deleted) (pop-Inv r q deleted l.0)),
        ))
    remove_nodes-Loop (suc fuel) h (r ∷ q) deleted room l =
        remove_nodes-Loop fuel _ _ (r ∷ deleted) (omega arith) (round-Loop h r q deleted l)
