-- ===== src/Frame/Setup/EachGraph.antt =====
-- What GraphManager::init has done when it returns true (src/frame/graph_manager.cpp).
use Prim.Native.String.{String}
use graphize.Common.{
  ℕ, zero, suc, ◌≡◌, refl, ap, ◌∙◌, subst, List, [], ◌∷◌, Option, none, some, none≢some,
  some-injective, some_of_bind, Bool, true, false, get_elem?, Bool-cases, inl, inr,
}
use graphize.Common.Maps.{insert_new, IsIn, insert_new-IsIn, IsIn-insert_new}
use graphize.Frame.Graph.{InitResult, init}
use graphize.Frame.Manager.{NodeConf, Registry, Strings, Builder, add_nodes, new_builder}
use graphize.Frame.Setup.{Graphs, add_graph, init_next, init_graphs}
use graphize.Frame.Setup.EachNode.{false≢true}

-- What a round of init_graphs does to the map.
add_graph-IsIn :
    (name : String) (b : Builder) (result : Option InitResult) (graphs graphs' : Graphs)
    (valid : Bool)
    → add_graph name b result graphs ≡ some (valid, graphs')
    → ((key : String) → IsIn key graphs.graph_map → IsIn key graphs'.graph_map)
      × (valid ≡ true → IsIn name graphs'.graph_map)
unfolding add_graph
add_graph-IsIn name b none graphs graphs' valid e = absurd (none≢some e)
add_graph-IsIn name b (some InitResult.null_root) graphs graphs' valid e = absurd (none≢some e)
add_graph-IsIn name b (some (InitResult.returned true graph heap)) graphs graphs' valid e =
    let map : insert_new name graph graphs.graph_map ≡ graphs'.graph_map =
      ap (λ r. r.1.graph_map) (some-injective e) in
    (
      λ key h. subst (IsIn key) map (IsIn-insert_new key name graph graphs.graph_map h),
      λ v. subst (IsIn name) map (insert_new-IsIn name graph graphs.graph_map),
    )
add_graph-IsIn name b (some (InitResult.returned false graph heap)) graphs graphs' valid e =
    let map : graphs.graph_map ≡ graphs'.graph_map = ap (λ r. r.1.graph_map) (some-injective e) in
    (
      λ key h. subst (IsIn key) map h,
      λ v. absurd (false≢true (ap (λ r. r.0) (some-injective e) ∙ v)),
    )

module _ (fuel : ℕ) (reg : Registry) (str : Strings) where
  init_next-IsIn :
      (name : String) (confs : List NodeConf) (graphs graphs' : Graphs) (valid : Bool)
      → init_next fuel reg str name confs graphs ≡ some (valid, graphs')
      → ((key : String) → IsIn key graphs.graph_map → IsIn key graphs'.graph_map)
        × (valid ≡ true → IsIn name graphs'.graph_map)
  unfolding init_next
  init_next-IsIn name confs graphs graphs' valid e =
      let (b, root) = add_nodes reg str confs (new_builder graphs.heap graphs.nodes []) none in
      add_graph-IsIn name b (init fuel b.heap b.node_id_gen root) graphs graphs' valid e

  -- A round of init_graphs behind which true is returned.
  pub init_graphs_next :
      (name : String) (confs : List NodeConf) (more : List (String × List NodeConf))
      (graphs graphs' : Graphs)
      → init_graphs fuel reg str ((name, confs) ∷ more) graphs ≡ some (true, graphs')
      → (graphs1 : Graphs) × (init_next fuel reg str name confs graphs ≡ some (true, graphs1))
        × (init_graphs fuel reg str more graphs1 ≡ some (true, graphs'))
  unfolding init_graphs
  init_graphs_next name confs more graphs graphs' e =
      let ((valid, graphs1), made, rest) =
        some_of_bind (init_next fuel reg str name confs graphs) _ e in
      elim (Bool-cases valid) [
        | inl yes_valid ↦
            (graphs1, made ∙ ap (λ v. some (v, graphs1)) yes_valid, rw yes_valid at rest)
        | inr no_valid ↦ absurd (false≢true (ap (λ r. r.0) (some-injective (rw no_valid at rest))))
      ]

  init_graphs-IsIn :
      (confs : List (String × List NodeConf)) (graphs graphs' : Graphs) (key : String)
      → init_graphs fuel reg str confs graphs ≡ some (true, graphs')
      → IsIn key graphs.graph_map
      → IsIn key graphs'.graph_map
  unfolding init_graphs
  init_graphs-IsIn [] graphs graphs' key e h =
      subst (λ g. IsIn key g.graph_map) (ap (λ r. r.1) (some-injective e)) h
  init_graphs-IsIn ((name, conf) ∷ confs) graphs graphs' key e h =
      let (graphs1, made, rest) = init_graphs_next name conf confs graphs graphs' e in
      init_graphs-IsIn confs graphs1 graphs' key rest
        ((init_next-IsIn name conf graphs graphs1 true made).0 key h)

  pub init_graphs-true :
      (confs : List (String × List NodeConf)) (graphs graphs' : Graphs) (i : ℕ) (name : String)
      (conf : List NodeConf)
      → init_graphs fuel reg str confs graphs ≡ some (true, graphs')
      → get_elem? confs i ≡ some (name, conf)
      → IsIn name graphs'.graph_map
  init_graphs-true [] graphs graphs' i name conf e at = absurd (none≢some at)
  init_graphs-true ((key, c) ∷ confs) graphs graphs' zero name conf e at =
      let (graphs1, made, rest) = init_graphs_next key c confs graphs graphs' e in
      init_graphs-IsIn confs graphs1 graphs' name rest (
        subst (λ n. IsIn n graphs1.graph_map) (ap (λ p. p.0) (some-injective at))
          ((init_next-IsIn key c graphs graphs1 true made).1 refl))
  init_graphs-true ((key, c) ∷ confs) graphs graphs' (suc i) name conf e at =
      let (graphs1, made, rest) = init_graphs_next key c confs graphs graphs' e in
      init_graphs-true confs graphs1 graphs' i name conf rest at
