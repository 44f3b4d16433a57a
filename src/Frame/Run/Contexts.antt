-- ===== src/Frame/Run/Contexts.antt =====
-- Graph::run makes a context for each node (src/frame/graph.h).
use Prim.Native.String.{String}
use graphize.Common.{
  ℕ, ◌<◌, ◌≡◌, ◌⊎◌, sym, ap, ◌∙◌, subst, List, [], ◌∷◌, Option, none, some, none≢some,
  some-injective, Option-cases, Bool-cases, inl, inr, arith, ltb, length, get_elem?, set,
  get_elem?-set_self, get_elem?-set_ne, ℕ_discrete, lt_of_get_elem?,
}
use graphize.Common.Bag.{count}
use graphize.Frame.Node.{Heap}
use graphize.Frame.Graph.{Graph}
use graphize.Frame.Run.{
  Context, System, running, fill_context, empty_context, start_root, run_from, run,
}
use graphize.Frame.Run.Start.{IsReady}
use graphize.Frame.Run.Invariant.{running-injective}

-- The node of an id has a context.
abbrev pub Has : List (Option String) → ℕ → Type 0
Has vec id = (class : String) × (get_elem? vec id ≡ some (some class))

Has-set :
    (vec : List (Option String)) (id k : ℕ) (class : String)
    → Has vec id
    → Has (set vec k (some class)) id
Has-set vec id k class (old, e) = elim (ℕ_discrete k id) [
  | yes here ↦ (
    class,
    subst (λ i. get_elem? (set vec k (some class)) i ≡ some (some class)) here
        (get_elem?-set_self vec k (some class)
          (subst (λ i. i < length vec) (sym here) (lt_of_get_elem? vec id e))),
  )
  | no there ↦ (old, get_elem?-set_ne vec (some class) there ∙ e)
]

module _ (h : Heap) where
  -- One round of the loop, which was not past the end.
  filled_next :
      (n : ℕ) (ns : List ℕ) (c c' : Context)
      → fill_context h (n ∷ ns) c ≡ some c'
      → (fill_context h ns (record c {
        node_input_num_map = set c.node_input_num_map (h n).id (some (h n).input_num);
        node_service_context_vec = set c.node_service_context_vec (h n).id (some (h n).class);
      })
          ≡ some c')
        × ((h n).id < length c.node_service_context_vec)
  unfolding fill_context
  filled_next n ns c c' e = elim (Bool-cases (ltb (h n).id (length c.node_input_num_map))) [
    | inr past ↦ absurd (none≢some (rw past at e))
    | inl counted ↦ elim (Bool-cases (ltb (h n).id (length c.node_service_context_vec))) [
      | inr past ↦ absurd (none≢some (rw (counted, past) at e))
      | inl fits ↦ (rw (counted, fits) at e, ground arith)
    ]
  ]

  fill-Has :
      (ns : List ℕ) (c c' : Context) (v : ℕ)
      → fill_context h ns c ≡ some c'
      → (0 < count v ns) ⊎ Has c.node_service_context_vec (h v).id
      → Has c'.node_service_context_vec (h v).id
  unfolding fill_context
  fill-Has [] c c' v e (inl in_none) = absurd (omega arith)
  fill-Has [] c c' v e (inr has) =
      subst (λ x. Has x.node_service_context_vec (h v).id) (some-injective e) has
  fill-Has (n ∷ ns) c c' v e here =
      let (rest, lt) = filled_next n ns c c' e in
      fill-Has ns _ c' v rest (elim (ℕ_discrete n v) [
        | yes same ↦ inr (
          (h n).class,
          subst
              (λ w.
                get_elem? (set c.node_service_context_vec (h n).id (some (h n).class)) (h w).id
                ≡ some (some (h n).class))
              same (get_elem?-set_self c.node_service_context_vec (h n).id _ lt),
        )
        | no other ↦ elim here [
          | inl later ↦ inl (ground arith)
          | inr has ↦ inr (Has-set c.node_service_context_vec (h v).id (h n).id (h n).class has)
        ]
      ])

no_start : (root : ℕ) (s : System) → start_root root none ≡ running s → ⊥
unfolding start_root
no_start root s e = cc

-- Every node of a graph that has started has a context.
pub run-Has :
    (h : Heap) (g : Graph) (root : ℕ) (s : System) (v : ℕ)
    → IsReady h g root
    → run h g ≡ running s
    → 0 < count v g.all_nodes
    → Has s.context.node_service_context_vec (h v).id
unfolding run run_from start_root
run-Has h g root s v ready begins m =
    let at_root : start_root root (fill_context h g.all_nodes (empty_context g)) ≡ running s =
      ap (run_from h g) (sym ready.rooted) ∙ begins in
    elim (Option-cases (fill_context h g.all_nodes (empty_context g))) [
      | inl past ↦ absurd (no_start root s (ap (start_root root) (sym past) ∙ at_root))
      | inr (c, e) ↦
          subst (λ x. Has x.context.node_service_context_vec (h v).id)
            (running-injective (ap (start_root root) (sym e) ∙ at_root))
            (fill-Has h g.all_nodes (empty_context g) c v e (inl m))
    ]
