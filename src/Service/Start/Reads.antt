-- ===== src/Service/Start/Reads.antt =====
-- What DoneService reads of StartService, under any interleaving (src/service/done.cpp,
-- src/service/start_service.cpp).
use Prim.Native.String.{String}
use text.Mathlib.Text.{◌==◌}
use graphize.Common.{
  ℕ, zero, suc, ◌<◌, ◌≡◌, ◌≢◌, ◌⊎◌, refl, sym, ap, ◌∙◌, subst, List, [], ◌∷◌, ◌++◌, Option, some,
  Bool, true, false, ◌&&◌, map, some-injective, none≢some, Bool-cases, inl, inr, arith, get_elem?,
  set, get_elem?-set_self, get_elem?-set_ne, lt_of_get_elem?, ℕ_discrete, not_both, ◌>>=◌, length,
}
use graphize.Common.Bag.{count}
use graphize.Frame.Node.{Node, Heap}
use graphize.Frame.Graph.{Graph}
use graphize.Frame.Graph.Edges.{IsOrdered}
use graphize.Frame.Run.{System, Thread, serving, running, run, execute}
use graphize.Frame.Run.Start.{IsReady}
use graphize.Frame.Run.Invariant.{execute-Inv, started-Inv}
use graphize.Frame.Run.Schedule.{execute-IsOrdered, execute_inputs}
use graphize.Frame.Run.Contexts.{run-Has}
use graphize.Service.Start.{
  RequestData, created, new_data, append, start_do_service, done_do_service, serve_node,
  serve_nodes, get_context, write_context,
}

-- A StartService of the name "start".
unfoldable pub IsStart : Node → Type 0
IsStart node = (node.class == "StartService") && (node.name == "start") ≡ true

both_of : (a b : Bool) → a && b ≡ true → (a ≡ true) × (b ≡ true)
both_of a b e = ground arith

get_elem?-created :
    (vec : List (Option String)) (id : ℕ) (class : String)
    → get_elem? vec id ≡ some (some class)
    → get_elem? (map created vec) id ≡ some (some "")
get_elem?-created [] id class e = absurd (none≢some e)
get_elem?-created (c ∷ vec) zero class e = ap (λ o. some (created o)) (some-injective e)
get_elem?-created (c ∷ vec) (suc id) class e = get_elem?-created vec id class e

module _ (skips : ℕ → Bool) (h : Heap) (nodes : List ℕ) (u : ℕ) (in_nodes : 0 < count u nodes)
    (starts : IsStart (h u)) (runs_start : skips u ≡ false)
    (only : (v : ℕ) → 0 < count v nodes → IsStart (h v) → u ≡ v)
    (behind : (v : ℕ)
      → 0 < count v nodes
      → (h v).class == "DoneService" ≡ true
      → 0 < count v (h u).out_nodes) where
  abbrev stamp : Node → String
  stamp node = append node.name " set request_id"

  -- All nodes have a context; and the start node's is the one that was written.
  abbrev Filled : RequestData → Type 0
  Filled d =
      (v : ℕ)
      → 0 < count v nodes
      → (request_id : String) × (get_elem? d.node_service_context_vec (h v).id
          ≡ some (some request_id))

  record Wrote (n : ℕ) (d : RequestData) : Type 0 where
    id_set : d.start_context ≡ (h n).id
    text_set : get_elem? d.node_service_context_vec (h n).id ≡ some (some (stamp (h n)))

  Filled-set :
      (d : RequestData) (id start_context : ℕ) (request_id : String)
      → Filled d
      → Filled (record {
        start_context = start_context;
        node_service_context_vec = set d.node_service_context_vec id (some request_id);
      })
  Filled-set d id start_context request_id filled v m = elim (ℕ_discrete id (h v).id) [
    | yes here ↦ (
      request_id,
      subst
          (λ i.
            get_elem? (set d.node_service_context_vec id (some request_id)) i
            ≡ some (some request_id))
          here
          (get_elem?-set_self d.node_service_context_vec id (some request_id) (
            subst (λ i. i < length d.node_service_context_vec) (sym here)
              (lt_of_get_elem? d.node_service_context_vec (h v).id (filled v m).1))),
    )
    | no there ↦ (
      (filled v m).0,
      get_elem?-set_ne d.node_service_context_vec (some request_id) there ∙ (filled v m).1,
    )
  ]

  start_at :
      (n : ℕ) → n ≡ u → ((h n).class == "StartService" ≡ true) × ((h n).name == "start" ≡ true)
  unfolding IsStart
  start_at n e =
      both_of ((h n).class == "StartService") ((h n).name == "start")
        (subst (λ w. IsStart (h w)) (sym e) starts)

  -- One node: it writes, or leaves all as it is.
  serve_node-Filled :
      (n : ℕ) (d : RequestData)
      → 0 < count n nodes
      → Filled d
      → ((h n).class == "DoneService" ≡ true → Wrote u d)
      → (d' : RequestData) × (serve_node skips h n d ≡ some d')
        × Filled d'
        × (((n ≡ u) × Wrote n d') ⊎ ((n ≢ u) × (d' ≡ d)))
  unfolding serve_node start_do_service done_do_service get_context write_context IsStart
  serve_node-Filled n d m filled reads = elim (Bool-cases (skips n)) [
    | inl skipped ↦
        (d, rw skipped refl, filled, inr (λ e. not_both skipped (ap skips e ∙ runs_start), refl))
    | inr not_skipped ↦ elim (Bool-cases ((h n).class == "StartService")) [
      | inr other ↦ elim (Bool-cases ((h n).class == "DoneService")) [
        | inl done ↦ (
          d,
          rw (not_skipped, other, done, (reads done).id_set, (reads done).text_set) refl,
          filled,
          inr (λ e. not_both (start_at n e).0 other, refl),
        )
        | inr neither ↦ (
          d,
          rw (not_skipped, other, neither) refl,
          filled,
          inr (λ e. not_both (start_at n e).0 other, refl),
        )
      ]
      | inl class ↦ elim (Bool-cases ((h n).name == "start")) [
        | inr other ↦ (
          d,
          rw (not_skipped, class, (filled n m).1, other) refl,
          filled,
          inr (λ e. not_both (start_at n e).1 other, refl),
        )
        | inl named ↦ (
          _,
          rw (not_skipped, class, (filled n m).1, named) refl,
          Filled-set d (h n).id (h n).id (stamp (h n)) filled,
          inl (
            sym (only n m (rw (class, named) refl)),
            record {
              id_set = refl;
              text_set =
                  get_elem?-set_self d.node_service_context_vec (h n).id _
                    (lt_of_get_elem? d.node_service_context_vec (h n).id (filled n m).1);
            },
          ),
        )
      ]
    ]
  ]

  -- Behind any nodes of the graph, of which the start node is one.
  serve_nodes-Wrote :
      (ns : List ℕ) (d : RequestData)
      → ((v : ℕ) → 0 < count v ns → 0 < count v nodes)
      → IsOrdered (λ v. (h v).out_nodes) nodes ns
      → Filled d
      → (d' : RequestData) × (serve_nodes skips h ns d ≡ some d')
        × Filled d'
        × (0 < count u ns → Wrote u d')
  unfolding serve_nodes
  serve_nodes-Wrote [] d inside order filled = (d, refl, filled, λ m. absurd (omega (arith, m)))
  serve_nodes-Wrote (n ∷ ns) d inside order filled =
      let (d1, e1, filled1, wrote1) =
        serve_nodes-Wrote ns d (λ v m. inside v (omega (arith, m))) order.1 filled in
      let (d2, e2, filled2, change) =
        serve_node-Filled n d1 (inside n (ground arith)) filled1
          (λ done. wrote1 (order.0 u in_nodes (behind n (inside n (ground arith)) done))) in
      (
        d2,
        ap (λ o. o >>= serve_node skips h n) e1 ∙ e2,
        filled2,
        λ m. elim change [
          | inl (same, wrote) ↦ subst (λ w. Wrote w d2) same wrote
          | inr (other, kept) ↦ subst (Wrote u) (sym kept) (wrote1 (ground (arith, m)))
        ],
      )

-- If in a graph that is ready exactly one node is a StartService of the name "start", it is not skipped, and every
-- DoneService is one of its outputs: in every state that an execution of the graph reaches, under any interleaving, in
-- which an output of the start node is about to run its service, DoneService reads the text that the start node wrote;
-- and of the services of both classes that have run, no call of get_context went past the end or met a null pointer.
pub done_do_service-reads :
    (h : Heap) (skips : ℕ → Bool) (g : Graph) (root : ℕ) (ready : IsReady h g root) (s s' : System)
    (schedule : List ℕ) (before after : List Thread) (u d start_context : ℕ)
    → run h g ≡ running s
    → execute h skips s schedule ≡ some s'
    → s'.threads ≡ before ++ (serving d ∷ after)
    → 0 < count u g.all_nodes
    → 0 < count d (h u).out_nodes
    → IsStart (h u)
    → skips u ≡ false
    → ((v : ℕ) → 0 < count v g.all_nodes → IsStart (h v) → u ≡ v)
    → ((v : ℕ)
        → 0 < count v g.all_nodes
        → (h v).class == "DoneService" ≡ true
        → 0 < count v (h u).out_nodes)
    → (context : RequestData) × (serve_nodes skips h s'.completed (new_data start_context s.context)
        ≡ some context)
      × (done_do_service context ≡ some (append (h u).name " set request_id"))
unfolding done_do_service get_context
done_do_service-reads h skips g root ready s s' schedule before after u d start_context begins runs
      at_d in_graph edge starts not_skipped only behind =
    let inv =
      execute-Inv h skips g root ready schedule 0 s s' runs
        (started-Inv h skips g root ready s begins) in
    let (context, served, filled, wrote) =
      serve_nodes-Wrote skips h g.all_nodes u in_graph starts not_skipped only behind s'.completed
        (new_data start_context s.context) (λ v m. inv.books.known v (omega (arith, m)))
        (execute-IsOrdered h skips g root ready s s' schedule begins runs).1
        (λ v m.
          let (class, e) = run-Has h g root s v ready begins m in
          ("", get_elem?-created s.context.node_service_context_vec (h v).id class e)) in
    let done = wrote (
      execute_inputs h skips g root ready s s' schedule begins runs before after d at_d u in_graph
        edge) in
    (context, served, rw done.id_set (ap (λ o. o >>= (λ r. r)) done.text_set))
