-- ===== src/Frame/Manager/Loops.antt =====
-- The loops of GraphManager::init keep the nodes and edges in order (src/frame/graph_manager.cpp).
use Prim.Native.String.{String}
use text.Mathlib.Text
use graphize.Common.{
  ℕ, ◌≤◌, ◌<◌, ◌≡◌, ◌≢◌, refl, sym, subst, List, [], ◌∷◌, Option, none, some, Bool, true, false,
  arith, if◌then◌else◌, Bool-cases, inl, inr, some-injective, none≢some, Option-cases,
}
use graphize.Common.Bag.{contains}
use graphize.Frame.Node.{Heap, add_output_past}
use graphize.Frame.Manager.{
  NodeConf, Strings, Registry, Builder, find, create_service_if_not_exist, connect, connect_child,
  connect_parent, add_children, add_parents, add_edges, add_nodes, pieces, new_builder,
}
use graphize.Frame.Manager.Built.{In, Built, connect-Built}
use graphize.Frame.Manager.Created.{Grown, Grown-trans, Made, Grown-self, create_service-Made}

allocated-connect : (p q : ℕ) (b : Builder) → (connect p q b).allocated ≡ b.allocated
unfolding connect
allocated-connect p q b = ground arith

-- The other nodes are as they were.
connect_past : (p q : ℕ) (b : Builder) (v : ℕ) → p ≢ v → q ≢ v → (connect p q b).heap v ≡ b.heap v
unfolding connect
connect_past p q b v not_p not_q = elim (Bool-cases (contains q (b.heap p).out_nodes)) [
  | inl there ↦ rw there refl
  | inr new ↦ rw new (add_output_past b.heap p q v not_p not_q)
]

connect-Grown :
    (start : ℕ) (b : Builder) (p q : ℕ)
    → Built start b
    → In start b p
    → In start b q
    → Grown start b (connect p q b)
connect-Grown start b p q i at_p at_q = record {
  built = connect-Built start b p q i at_p at_q;
  more = omega (arith, allocated-connect p q b);
  old = λ v below_start.
      connect_past p q b v (λ e. omega (arith, e, at_p)) (λ e. omega (arith, e, at_q));
}

-- An edge between `service` and the node of another name.
child-Grown :
    (start service : ℕ) (b : Builder) (r : Builder × Option ℕ)
    → Made start b r
    → In start b service
    → Grown start b (connect_child service r)
unfolding connect_child
child-Grown start service b (b', none) m at_s = m.grown
child-Grown start service b (b', some child) m at_s = Grown-trans start b b' _ m.grown (
    connect-Grown start b' service child m.grown.built (omega (arith, at_s, m.grown.more))
      (m.inside child refl))

parent-Grown :
    (start service : ℕ) (b : Builder) (r : Builder × Option ℕ)
    → Made start b r
    → In start b service
    → Grown start b (connect_parent service r)
unfolding connect_parent
parent-Grown start service b (b', none) m at_s = m.grown
parent-Grown start service b (b', some parent) m at_s = Grown-trans start b b' _ m.grown (
    connect-Grown start b' parent service m.grown.built (m.inside parent refl)
      (omega (arith, at_s, m.grown.more)))

module _ (reg : Registry) (str : Strings) (start : ℕ) where
  add_children-Grown :
      (service : ℕ) (child_vec : List String) (b : Builder)
      → Built start b
      → In start b service
      → Grown start b (add_children reg str service child_vec b)
  unfolding add_children
  add_children-Grown service [] b i at_s = Grown-self start b i
  add_children-Grown service (c ∷ child_vec) b i at_s = elim (Bool-cases (Text.◌==◌ c "")) [
    | inl empty ↦ rw empty (add_children-Grown service child_vec b i at_s)
    | inr piece ↦
        let one =
          child-Grown start service b (create_service_if_not_exist reg (str.trim c) b)
            (create_service-Made reg (str.trim c) start b i) at_s in
        rw piece (
          Grown-trans start b _ _ one
            (add_children-Grown service child_vec _ one.built (omega (arith, at_s, one.more))))
  ]

  add_parents-Grown :
      (service : ℕ) (p_vec : List String) (b : Builder)
      → Built start b
      → In start b service
      → Grown start b (add_parents reg str service p_vec b)
  unfolding add_parents
  add_parents-Grown service [] b i at_s = Grown-self start b i
  add_parents-Grown service (p ∷ p_vec) b i at_s =
      let one =
        parent-Grown start service b (create_service_if_not_exist reg (str.trim p) b)
          (create_service-Made reg (str.trim p) start b i) at_s in
      Grown-trans start b _ _ one
        (add_parents-Grown service p_vec _ one.built (omega (arith, at_s, one.more)))

  add_edges-Grown :
      (conf : NodeConf) (service : ℕ) (b : Builder)
      → Built start b
      → In start b service
      → Grown start b (add_edges reg str conf service b)
  unfolding add_edges
  add_edges-Grown conf service b i at_s =
      let one = add_children-Grown service (pieces str conf.children) b i at_s in
      Grown-trans start b _ _ one (
        add_parents-Grown service (pieces str conf.parents) _ one.built
          (omega (arith, at_s, one.more)))

  abbrev IsMade : Builder → Builder × Option ℕ → Type 0
  IsMade b0 (b, root) = Grown start b0 b × ((p : ℕ) → root ≡ some p → In start b p)

  IsMade-Grown :
      (b b1 : Builder) {b2 : Builder} (r : Builder × Option ℕ)
      → Grown start b b1
      → Grown start b1 b2
      → IsMade b2 r
      → IsMade b r
  IsMade-Grown b b1 {b2} r first next (rest, at_root) =
      (Grown-trans start b b1 r.0 first (Grown-trans start b1 b2 r.0 next rest), at_root)

  root-In :
      (b b' : Builder) (is_root : Bool) (service : ℕ) (root : Option ℕ)
      → ((p : ℕ) → root ≡ some p → In start b p)
      → b.allocated ≤ b'.allocated
      → In start b' service
      → (p : ℕ) → (if is_root then some service else root) ≡ some p
      → In start b' p
  root-In b b' true service root old more at_s p e = subst (In start b') (some-injective e) at_s
  root-In b b' false service root old more at_s p e = omega (arith, old p e, more)

  add_nodes-IsMade :
      (confs : List NodeConf) (b : Builder) (root : Option ℕ)
      → Built start b
      → ((p : ℕ) → root ≡ some p → In start b p)
      → IsMade b (add_nodes reg str confs b root)
  unfolding add_nodes
  add_nodes-IsMade [] b root i at_root = (Grown-self start b i, at_root)
  add_nodes-IsMade (conf ∷ confs) b root i at_root =
      let r = create_service_if_not_exist reg conf.node_name b in
      let m = create_service-Made reg conf.node_name start b i in
      let kept : (p : ℕ) → root ≡ some p → In start r.0 p =
        λ p e. omega (arith, at_root p e, m.grown.more) in
      elim (Option-cases r.1) [
        | inl e ↦
            subst
              (λ o. IsMade b (elim o [
                | none ↦ (r.0, root)
                | some service ↦
                    add_nodes reg str confs (add_edges reg str conf service r.0)
                      (if conf.root then some service else root)
              ]))
              (sym e) (m.grown, kept)
        | inr (service, e) ↦
            let at_s = m.inside service e in
            let g = add_edges-Grown conf service r.0 m.grown.built at_s in
            subst
              (λ o. IsMade b (elim o [
                | none ↦ (r.0, root)
                | some s ↦
                    add_nodes reg str confs (add_edges reg str conf s r.0)
                      (if conf.root then some s else root)
              ]))
              (sym e)
              (IsMade-Grown b r.0 _ m.grown g (
                add_nodes-IsMade confs (add_edges reg str conf service r.0)
                  (if conf.root then some service else root) g.built
                  (root-In r.0 (add_edges reg str conf service r.0) conf.root service root kept
                    g.more (omega (arith, at_s, g.more)))))
      ]

  new-Built :
      (heap : Heap) (graph_node_vec : List (String × String))
      → Built start (new_builder heap start graph_node_vec)
  unfolding find
  new-Built heap graph_node_vec = record {
    in_order = omega arith;
    ids = λ v m. absurd (omega (arith, m));
    closed = λ u w m e. absurd (omega (arith, m));
    once = λ u w m. absurd (omega (arith, m));
    nums = λ v m. absurd (omega (arith, m));
    checks = λ v m. absurd (omega (arith, m));
    mapped = λ name p e. absurd (none≢some e);
  }

  -- The root, if there is one, is a node of the graph.
  abbrev pub RootIn : Builder → Option ℕ → Type 0
  RootIn b none = Unit {0}
  RootIn b (some p) = In start b p

  made-RootIn :
      (b : Builder) (root : Option ℕ) → ((p : ℕ) → root ≡ some p → In start b p) → RootIn b root
  made-RootIn b none h = tt
  made-RootIn b (some p) h = h p refl

  -- Whatever the configuration says, GraphManager::init numbers the nodes of a graph in the order of
  -- their creation, adds no edge twice, and leaves counters that count the edges into each node.
  pub add_nodes-Built :
      (confs : List NodeConf) (heap : Heap) (graph_node_vec : List (String × String))
      → (let (b, root) = add_nodes reg str confs (new_builder heap start graph_node_vec) none in
          Built start b × RootIn b root)
  add_nodes-Built confs heap graph_node_vec =
      let r = add_nodes reg str confs (new_builder heap start graph_node_vec) none in
      let (g, at_root) =
        add_nodes-IsMade confs (new_builder heap start graph_node_vec) none
          (new-Built heap graph_node_vec) (λ p e. absurd (none≢some e)) in
      (g.built, made-RootIn r.0 r.1 at_root)

  -- The objects that were there before are not changed.
  pub add_nodes_old :
      (confs : List NodeConf) (heap : Heap) (graph_node_vec : List (String × String)) (v : ℕ)
      → v < start
      → (add_nodes reg str confs (new_builder heap start graph_node_vec) none).0.heap v ≡ heap v
  add_nodes_old confs heap graph_node_vec v below_start =
      let (g, at_root) =
        add_nodes-IsMade confs (new_builder heap start graph_node_vec) none
          (new-Built heap graph_node_vec) (λ p e. absurd (none≢some e)) in
      g.old v below_start

  pub add_nodes_more :
      (confs : List NodeConf) (heap : Heap) (graph_node_vec : List (String × String))
      → start ≤ (add_nodes reg str confs (new_builder heap start graph_node_vec) none).0.allocated
  add_nodes_more confs heap graph_node_vec =
      let (g, at_root) =
        add_nodes-IsMade confs (new_builder heap start graph_node_vec) none
          (new-Built heap graph_node_vec) (λ p e. absurd (none≢some e)) in
      g.more
