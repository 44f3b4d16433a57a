-- ===== src/Frame/Run/Start.antt =====
-- The start of Graph::run (src/frame/graph.h): the counters of the request are filled, and the root
-- is about to run.
use Prim.Native.String.{String}
use graphize.Common.{
  ℕ, ◌+◌, ◌≤◌, ◌<◌, ◌≡◌, refl, sym, ap, subst, ◌∙◌, ◌⊎◌, inl, inr, List, [], ◌∷◌, arith, pos, some,
  length, get_elem?, set, length-set, length-replicate, get_elem?-set_self, get_elem?-set_ne, none,
  Option, ℕ_discrete, lt→ltb,
}
use graphize.Common.Bag.{count, total, le-total, total_pos}
use graphize.Frame.Node.{Heap}
use graphize.Frame.Graph.{Graph}
use graphize.Frame.Graph.Edges.{edges, Reaches}
use graphize.Frame.Graph.Bfs.{IsReachable}
use graphize.Frame.Graph.Acyclic.{IsAcyclic, no_cycle, Walk-snoc}
use graphize.Frame.Graph.Verdict.{IsReachable-closed}
use graphize.Frame.Run.{
  Context, fill_context, empty_context, entering, running, run, run_from, start_root,
}
use graphize.Frame.Run.Ledger.{IsNumbered, Ledger}

-- A graph that is ready to run: what GraphManager::init and Graph::init establish.
pub record IsReady (h : Heap) (g : Graph) (root : ℕ) : Type 0 where
  pub rooted : g.root_node ≡ some root
  pub reachable : IsReachable (λ v. (h v).out_nodes) root g.all_nodes
  pub acyclic : IsAcyclic (λ v. (h v).out_nodes) g.all_nodes
  pub counted :
      (v : ℕ)
      → 0 < count v g.all_nodes
      → (h v).input_num ≡ pos (edges (λ u. (h u).out_nodes) g.all_nodes v)
  pub numbered : IsNumbered (λ v. (h v).id) g.all_nodes
  pub room : length g.all_nodes ≤ g.max_node_id + 1

module _ (h : Heap) (nodes : List ℕ) (numbered : IsNumbered (λ v. (h v).id) nodes) where
  abbrev Filled : Context → ℕ → Type 0
  Filled c v = get_elem? c.node_input_num_map (h v).id ≡ some (some (h v).input_num)

  record HasRoom (c : Context) : Type 0 where
    counters : length c.node_input_num_map ≡ length nodes
    contexts : length nodes ≤ length c.node_service_context_vec

  abbrev write : Context → ℕ → Context
  write c n = record c {
    node_input_num_map = set c.node_input_num_map (h n).id (some (h n).input_num);
    node_service_context_vec = set c.node_service_context_vec (h n).id (some (h n).class);
  }

  write-HasRoom : (c : Context) (n : ℕ) → HasRoom c → HasRoom (write c n)
  write-HasRoom c n r = record {
    counters = length-set c.node_input_num_map (h n).id _ ∙ r.counters;
    contexts =
        subst (λ k. length nodes ≤ k) (sym (length-set c.node_service_context_vec (h n).id _))
          r.contexts;
  }

  -- After a write the node is filled, and the others are as they were.
  write-Filled :
      (c : Context) (n v : ℕ)
      → HasRoom c
      → 0 < count n nodes
      → 0 < count v nodes
      → (n ≡ v) ⊎ Filled c v
      → Filled (write c n) v
  write-Filled c n v r m m' f = elim (ℕ_discrete n v) [
    | yes hit ↦ subst (Filled (write c n)) hit (
        get_elem?-set_self c.node_input_num_map (h n).id _
          (omega (arith, r.counters, numbered.small n m)))
    | no miss ↦ elim f [
      | inl hit ↦ absurd (miss hit)
      | inr old ↦
          get_elem?-set_ne c.node_input_num_map _ (λ e. miss (numbered.distinct n v m m' e)) ∙ old
    ]
  ]

  written :
      (c : Context) (n : ℕ) (ns : List ℕ)
      → HasRoom c
      → 0 < count n nodes
      → fill_context h (n ∷ ns) c ≡ fill_context h ns (write c n)
  unfolding fill_context
  written c n ns r m =
      let small = numbered.small n m in
      rw (
        lt→ltb (h n).id (length c.node_input_num_map) (omega (arith, r.counters)),
        lt→ltb (h n).id (length c.node_service_context_vec) (omega (arith, r.contexts)),
      )

  still-Filled :
      (c : Context) (n : ℕ) (ns : List ℕ) (v : ℕ)
      → HasRoom c
      → 0 < count n nodes
      → 0 < count v nodes
      → (0 < count v (n ∷ ns)) ⊎ Filled c v
      → (0 < count v ns) ⊎ Filled (write c n) v
  still-Filled c n ns v r m m' (inr old) = inr (write-Filled c n v r m m' (inr old))
  still-Filled c n ns v r m m' (inl here) = elim (ℕ_discrete n v) [
    | yes hit ↦ inr (write-Filled c n v r m m' (inl hit))
    | no miss ↦ inl (ground arith)
  ]

  fill-Filled :
      (ns : List ℕ) (c : Context)
      → HasRoom c
      → ((v : ℕ) → 0 < count v ns → 0 < count v nodes)
      → ((v : ℕ) → 0 < count v nodes → (0 < count v ns) ⊎ Filled c v)
      → (c' : Context) × (fill_context h ns c ≡ some c')
        × ((v : ℕ) → 0 < count v nodes → Filled c' v)
  unfolding fill_context
  fill-Filled [] c r inside f =
      (c, refl, λ v m. elim (f v m) [ inl none_left ↦ absurd (omega arith) | inr old ↦ old ])
  fill-Filled (n ∷ ns) c r inside f =
      let m : 0 < count n nodes = ground (arith, inside n) in
      let (c', e, filled) =
        fill-Filled ns (write c n) (write-HasRoom c n r) (λ v m'. inside v (omega arith))
          (λ v m'. still-Filled c n ns v r m m' (f v m')) in
      (c', written c n ns r m ∙ e, filled)

-- No edge leads back to the root of a graph without cycles.
root-no_inputs :
    (h : Heap) (g : Graph) (root : ℕ)
    → IsReady h g root
    → edges (λ u. (h u).out_nodes) g.all_nodes root ≤ 0
root-no_inputs h g root r = elim (ℕ_discrete (edges out g.all_nodes root) 0) [
  | yes z ↦ omega arith
  | no some_input ↦
      let (u, m, e) = total_pos (λ x. count root (out x)) g.all_nodes (omega arith) in
      absurd (
        no_cycle out g.all_nodes r.acyclic (IsReachable-closed out root g.all_nodes r.reachable)
          root (r.reachable.complete root Reaches.start)
          (Walk-snoc out root u root (r.reachable.sound u m) e))
]
  where
    out : ℕ → List ℕ
    out v = (h v).out_nodes

only_root :
    (h : Heap) (g : Graph) (root : ℕ)
    → IsReady h g root
    → (v : ℕ) → Reaches (λ u. (h u).out_nodes) root v
    → edges (λ u. (h u).out_nodes) g.all_nodes v ≤ 0
    → 0 < count v (root ∷ [])
only_root h g root r v Reaches.start e = ground arith
only_root h g root r v (Reaches.along u w p m) e = absurd (
    omega (arith, le-total (λ x. count w (h x).out_nodes) u g.all_nodes (r.reachable.complete u p)))

-- A graph that is ready starts, and the books of its request are right.
pub run-starts :
    (h : Heap) (g : Graph) (root : ℕ)
    → IsReady h g root
    → (c : Context) × (run h g
        ≡ running (record { context = c; threads = entering root ∷ []; completed = [] }))
      × Ledger
          (λ v. (h v).out_nodes)
          (λ v. (h v).id)
          g.all_nodes
          c.node_input_num_map
          (λ v. 0)
          (λ v. count v (root ∷ []))
          []
unfolding run start_root total
run-starts h g root r =
    let (c, e, filled) =
      fill-Filled h g.all_nodes r.numbered g.all_nodes (empty_context g)
        (record {
          counters = length-replicate _ _;
          contexts =
              omega
                (arith, r.room, length-replicate {0} {A = Option String} (g.max_node_id + 1) none);
        })
        (λ v m. m) (λ v m. inl m) in
    (
      c,
      ap (run_from h g) r.rooted ∙ ap (start_root root) e,
      record {
        left = λ v m. filled v m ∙ ground (arith, r.counted v m);
        once = λ v. ground arith;
        known = λ v m.
            subst (λ x. 0 < count x g.all_nodes) (ground arith)
              (r.reachable.complete root Reaches.start);
        owed_known = λ v m. absurd (omega arith);
        empty = λ v m.
            subst (λ x. edges (λ u. (h u).out_nodes) g.all_nodes x + 0 ≤ 0) {x = root}
              (ground arith) (omega (arith, root-no_inputs h g root r));
        full = λ v m e. omega (arith, only_root h g root r v (r.reachable.sound v m) (omega arith));
      },
    )
