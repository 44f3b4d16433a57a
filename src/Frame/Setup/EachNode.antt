-- ===== src/Frame/Setup/EachNode.antt =====
-- What NodeManager::init has done when it returns true (src/frame/node_manager.cpp).
use Prim.Native.String.{String}
use text.Mathlib.Text.{◌==◌}
use graphize.Common.{
  ℕ, zero, suc, ◌≡◌, ◌≢◌, refl, sym, ap, ◌∙◌, subst, List, [], ◌∷◌, ◌||◌, some, none≢some,
  some-injective, true, false, get_elem?, Bool-cases, inl, inr,
}
use graphize.Common.Maps.{lookup, insert_new, IsIn, insert_new-IsIn, IsIn-insert_new}
use graphize.Frame.Setup.{
  NodeEntry, Graphs, Managers, get_client, get_transport, is_there, is_resolved, init_nodes,
}

-- What init_nodes leaves as it is.
pub record SameMaps (m m' : Managers) : Type 0 where
  pub clients : m'.client_map ≡ m.client_map
  pub transports : m'.downstream_map ≡ m.downstream_map
  pub graphs : m'.graphs ≡ m.graphs

pub init_nodes-SameMaps :
    (confs : List (String × NodeEntry)) (m : Managers) → SameMaps m (init_nodes confs m).1
unfolding init_nodes
init_nodes-SameMaps [] m = record { clients = refl; transports = refl; graphs = refl }
init_nodes-SameMaps ((name, node) ∷ confs) m = elim (Bool-cases (is_resolved m node)) [
  | inr missing ↦ rw missing (record { clients = refl; transports = refl; graphs = refl })
  | inl there ↦
      let s =
        init_nodes-SameMaps confs (record m { nodes_map = insert_new name node m.nodes_map }) in
      rw there (record { clients = s.clients; transports = s.transports; graphs = s.graphs })
]

init_nodes-IsIn :
    (confs : List (String × NodeEntry)) (m : Managers) (name : String)
    → IsIn name m.nodes_map
    → IsIn name (init_nodes confs m).1.nodes_map
unfolding init_nodes
init_nodes-IsIn [] m name h = h
init_nodes-IsIn ((key, node) ∷ confs) m name h = elim (Bool-cases (is_resolved m node)) [
  | inr missing ↦ rw missing (IsIn-insert_new name key node m.nodes_map h)
  | inl there ↦ rw there (
      init_nodes-IsIn confs (record m { nodes_map = insert_new key node m.nodes_map }) name
        (IsIn-insert_new name key node m.nodes_map h))
]

pub false≢true : false ≢ true
false≢true e = cc

is_resolved_same :
    (m : Managers) (node : NodeEntry) (nodes : List (String × NodeEntry))
    → is_resolved (record m { nodes_map = nodes }) node ≡ is_resolved m node
unfolding is_resolved get_client get_transport
is_resolved_same m node nodes = refl

-- If init_nodes returns true, then each node is there, and its downstream was found.
pub init_nodes-true :
    (confs : List (String × NodeEntry)) (m : Managers) (j : ℕ) (name : String) (node : NodeEntry)
    → (init_nodes confs m).0 ≡ true
    → get_elem? confs j ≡ some (name, node)
    → (is_resolved m node ≡ true) × IsIn name (init_nodes confs m).1.nodes_map
unfolding init_nodes
init_nodes-true [] m j name node e at = absurd (none≢some at)
init_nodes-true ((key, entry) ∷ confs) m zero name node e at =
    elim (Bool-cases (is_resolved m entry)) [
      | inr missing ↦ absurd (false≢true (rw missing at e))
      | inl there ↦
          let same : (key, entry) ≡ (name, node) = some-injective at in
          (
            ap (λ p. is_resolved m p.1) (sym same) ∙ there,
            rw there (
                init_nodes-IsIn confs (record m { nodes_map = insert_new key entry m.nodes_map })
                  name
                  (subst (λ p. IsIn p.0 (insert_new key entry m.nodes_map)) same
                    (insert_new-IsIn key entry m.nodes_map))),
          )
    ]
init_nodes-true ((key, entry) ∷ confs) m (suc j) name node e at =
    elim (Bool-cases (is_resolved m entry)) [
      | inr missing ↦ absurd (false≢true (rw missing at e))
      | inl there ↦
          let later =
            init_nodes-true confs (record m { nodes_map = insert_new key entry m.nodes_map }) j name
              node (rw there at e) at in
          (
            sym (is_resolved_same m node (insert_new key entry m.nodes_map)) ∙ later.0,
            rw there later.1,
          )
    ]

pub is_resolved_of :
    (m m' : Managers) (graphs : Graphs) (node : NodeEntry)
    → SameMaps m m'
    → is_resolved (record m' { graphs = graphs }) node ≡ is_resolved m node
unfolding is_resolved get_client get_transport
is_resolved_of m m' graphs node s =
    ap
      (λ c.
        node.downstream == ""
        || (is_there (lookup node.downstream m'.downstream_map)
            || is_there (lookup node.downstream c)))
      s.clients
    ∙ ap
        (λ t.
          node.downstream == ""
          || (is_there (lookup node.downstream t)
              || is_there (lookup node.downstream m.client_map)))
        s.transports
