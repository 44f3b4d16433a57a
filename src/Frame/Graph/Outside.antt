-- ===== src/Frame/Graph/Outside.antt =====
-- What Graph::init leaves alone: the objects that no edge of the graph leads to, and the nodes that its
-- loop collects, whatever the fuel (src/frame/graph.h).
use graphize.Common.{
  ℕ, zero, suc, ◌+◌, ◌++◌, ◌<◌, ◌≡◌, refl, ap, sym, subst, ◌∙◌, List, [], ◌∷◌, Option, none, some,
  Bool, arith, length, if◌then◌else◌, decrement, is_zero, Bool-cases, inl, inr, ◌⊎◌, none≢some,
  some-injective,
}
use graphize.Common.Bag.{count, contains, count-append}
use graphize.Frame.Node.{Node, Heap, update, update_past}
use graphize.Frame.Graph.{Graph, bfs, remove_edges, remove_nodes, verdict, check_root}
use graphize.Frame.Graph.Bfs.{IsClosed}
use graphize.Frame.Graph.Kept.{remove_edges-Same}

-- More fuel does not change what the loop collects.
pub bfs_more :
    (fuel more : ℕ) (h : Heap) (q nodes found : List ℕ)
    → bfs fuel h q nodes ≡ some found
    → bfs (fuel + more) h q nodes ≡ some found
unfolding bfs
bfs_more zero zero h [] nodes found e = e
bfs_more zero (suc more) h [] nodes found e = e
bfs_more zero more h (cur ∷ q) nodes found e = absurd (none≢some e)
bfs_more (suc fuel) more h [] nodes found e =
    let next : suc (fuel + more) ≡ suc fuel + more = omega arith in
    subst (λ k. bfs k h [] nodes ≡ some found) next e
bfs_more (suc fuel) more h (cur ∷ q) nodes found e =
    let next : suc (fuel + more) ≡ suc fuel + more = omega arith in
    subst (λ k. bfs k h (cur ∷ q) nodes ≡ some found) next
      (bfs_more fuel more h (if contains cur nodes then q else q ++ (h cur).out_nodes)
        (if contains cur nodes then nodes else nodes ++ cur ∷ []) found e)

-- Two runs that end collect the same.
pub bfs_unique :
    (fuel fuel' : ℕ) (h : Heap) (q nodes found found' : List ℕ)
    → bfs fuel h q nodes ≡ some found
    → bfs fuel' h q nodes ≡ some found'
    → found ≡ found'
bfs_unique fuel fuel' h q nodes found found' e e' =
    let order : fuel' + fuel ≡ fuel + fuel' = omega arith in
    some-injective (
      sym (bfs_more fuel fuel' h q nodes found e)
      ∙ ap (λ k. bfs k h q nodes) (sym order)
      ∙ bfs_more fuel' fuel h q nodes found' e')

remove_edges_outside :
    (ns q : List ℕ) (h : Heap) (v : ℕ) → count v ns ≡ 0 → (remove_edges h ns q).0 v ≡ h v
unfolding remove_edges
remove_edges_outside [] q h v past = refl
remove_edges_outside (n ∷ ns) q h v past =
    let left = decrement (h n).input_num_4_check in
    let x : Node = record (h n) { input_num_4_check = left } in
    remove_edges_outside ns (if is_zero left then q ++ n ∷ [] else q) (update h n x) v (omega arith)
    ∙ update_past h n v x (λ e. ground (arith, past, e))

remove_edges_queue :
    (ns q : List ℕ) (h : Heap) (w : ℕ)
    → 0 < count w (remove_edges h ns q).1
    → (0 < count w q) ⊎ (0 < count w ns)
unfolding remove_edges
remove_edges_queue [] q h w m = inl m
remove_edges_queue (n ∷ ns) q h w m =
    let left = decrement (h n).input_num_4_check in
    let x : Node = record (h n) { input_num_4_check = left } in
    elim (remove_edges_queue ns (if is_zero left then q ++ n ∷ [] else q) (update h n x) w m) [
      | inl here ↦ from_push (is_zero left) here
      | inr later ↦ inr (omega arith)
    ]
  where
    from_push :
        (b : Bool)
        → 0 < count w (if b then q ++ n ∷ [] else q)
        → (0 < count w q) ⊎ (0 < count w (n ∷ ns))
    from_push b here = ground (arith, count-append w q (n ∷ []))

verdict_at :
    (g : Graph) (h : Heap) (r : Option (Heap × List ℕ)) (v : ℕ) (valid : Bool) (h' : Heap)
    → ((h1 : Heap) (d : List ℕ) → r ≡ some (h1, d) → h1 v ≡ h v)
    → verdict g r ≡ some (valid, h')
    → h' v ≡ h v
unfolding verdict
verdict_at g h none v valid h' each e = absurd (none≢some e)
verdict_at g h (some (h1, d)) v valid h' each e =
    ap (λ r. r.1 v) (sym (some-injective e)) ∙ each h1 d refl

module _ (us : List ℕ) where
  remove_nodes_outside :
      (fuel : ℕ) (h : Heap) (q deleted : List ℕ) (h' : Heap) (d : List ℕ) (v : ℕ)
      → IsClosed (λ u. (h u).out_nodes) us
      → ((u : ℕ) → 0 < count u q → 0 < count u us)
      → count v us ≡ 0
      → remove_nodes fuel h q deleted ≡ some (h', d)
      → h' v ≡ h v
  unfolding remove_nodes
  remove_nodes_outside zero h [] deleted h' d v shut inside past e =
      ap (λ r. r.0 v) (sym (some-injective e))
  remove_nodes_outside (suc fuel) h [] deleted h' d v shut inside past e =
      ap (λ r. r.0 v) (sym (some-injective e))
  remove_nodes_outside zero h (r ∷ q) deleted h' d v shut inside past e = absurd (none≢some e)
  remove_nodes_outside (suc fuel) h (r ∷ q) deleted h' d v shut inside past e =
      let one = remove_edges h (h r).out_nodes q in
      let kept = remove_edges-Same (h r).out_nodes q h in
      let at_r : 0 < count r us = inside r (ground arith) in
      let not_out : count v (h r).out_nodes ≡ 0 = ground (arith, shut r v at_r, past) in
      remove_nodes_outside fuel one.0 one.1 (r ∷ deleted) h' d v
        (λ u w m n. shut u w m (subst (λ o. 0 < count w o) (kept.outs u) n))
        (λ u m. elim (remove_edges_queue (h r).out_nodes q h u m) [
          | inl waiting ↦ inside u (ground (arith, waiting))
          | inr pushed ↦ shut r u at_r pushed
        ])
        past e
      ∙ remove_edges_outside (h r).out_nodes q h v not_out

  -- Graph::check changes no object outside a closed list with the root.
  pub check_root_outside :
      (h : Heap) (g : Graph) (root : ℕ) (valid : Bool) (h' : Heap) (v : ℕ)
      → IsClosed (λ u. (h u).out_nodes) us
      → 0 < count root us
      → count v us ≡ 0
      → check_root h g (some root) ≡ some (valid, h')
      → h' v ≡ h v
  unfolding check_root
  check_root_outside h g root valid h' v shut at_root past e =
      elim (Bool-cases (is_zero (h root).input_num_4_check)) [
        | inr some_input ↦ let f = rw some_input at e in ap (λ r. r.1 v) (sym (some-injective f))
        | inl no_input ↦
            let f = rw no_input at e in
            verdict_at g h (remove_nodes (length g.all_nodes) h (root ∷ []) []) v valid h'
              (λ h1 d run.
                remove_nodes_outside (length g.all_nodes) h (root ∷ []) [] h1 d v shut
                  (λ u m. ground (arith, at_root, m)) past run)
              f
      ]
