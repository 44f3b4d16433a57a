-- ===== src/Frame/Manager/Examples.antt =====
-- The graph of src/unittest/graph_frame/conf/graph.conf, `start` to `mid1` and `mid2` and these to
-- `done`, built from its configuration.
use text.Mathlib.Text
use graphize.Common.{
  ℕ, zero, suc, ◌+◌, ◌≤◌, ◌<◌, ◌≡◌, ◌↔◌, refl, ap, List, [], ◌∷◌, arith, some, none, Bool, true,
  false, if◌then◌else◌, pos, length,
}
use graphize.Common.Bag.{count, total}
use graphize.Frame.Node.{Heap, cpu, add_output}
use graphize.Frame.Graph.{Graph, init, returned}
use graphize.Frame.Graph.Edges.{Reaches}
use graphize.Frame.Run.Start.{IsReady}
use graphize.Frame.Manager.{
  NodeConf, Strings, Registry, Builder, new_builder, add_nodes, create_service_if_not_exist,
  add_edges, add_children, add_parents, connect, create, find,
}
use graphize.Frame.Manager.Built.{In, out_of, created, Built}
use graphize.Frame.Manager.Loops.{RootIn, add_nodes-Built}
use graphize.Frame.Manager.Ready.{init-IsReady}

abbrev str : Strings
str = record {
  trim = λ text. text;
  split = λ text. if Text.◌==◌ text "mid1,mid2" then "mid1" ∷ "mid2" ∷ [] else text ∷ [];
}

abbrev reg : Registry
reg = record { class_of = λ name. some "StartService"; kind_of = λ clazz. some cpu }

abbrev confs : List NodeConf
confs =
    record { node_name = "start"; root = true; children = "mid1,mid2"; parents = "" }
    ∷ record { node_name = "done"; root = false; children = ""; parents = "mid1,mid2" }
    ∷ record { node_name = "mid1"; root = false; children = "done"; parents = "start" }
    ∷ []

abbrev empty : Heap
empty p = record {
  name = "";
  class = "";
  id = 0;
  kind = cpu;
  input_num = pos 0;
  input_num_4_check = pos 0;
  out_nodes = [];
}

built : Builder
unfolding add_nodes
built = (add_nodes reg str confs (new_builder empty 0 []) none).0

add_nodes-Built_example :
    Built 0 (add_nodes reg str confs (new_builder empty 0 []) none).0
    × RootIn reg str 0
        (add_nodes reg str confs (new_builder empty 0 []) none).0
        (add_nodes reg str confs (new_builder empty 0 []) none).1
add_nodes-Built_example = add_nodes-Built reg str 0 confs empty []

-- Four nodes; `done` is the last that is created.
outputs :
    (built.allocated ≡ 4)
    × (out_of built 0 ≡ 1 ∷ 2 ∷ [])
    × (out_of built 1 ≡ 3 ∷ [])
    × (out_of built 2 ≡ 3 ∷ [])
unfolding built add_nodes create_service_if_not_exist add_edges add_children add_parents connect
    create find add_output
outputs = (refl, refl, refl, refl)

built-Built : Built 0 built
unfolding built
built-Built = (add_nodes-Built reg str 0 confs empty []).0

four : built.allocated ≡ 4
four = outputs.0

edge_01 : 0 < count 1 (out_of built 0)
edge_01 = omega (arith, ap (count 1) outputs.1)

edge_02 : 0 < count 2 (out_of built 0)
edge_02 = omega (arith, ap (count 2) outputs.1)

edge_13 : 0 < count 3 (out_of built 1)
edge_13 = omega (arith, ap (count 3) outputs.2)

reached : (v : ℕ) → In 0 built v → Reaches (out_of built) 0 v
reached zero m = Reaches.start
reached (suc zero) m = Reaches.along 0 1 Reaches.start edge_01
reached (suc (suc zero)) m = Reaches.along 0 2 Reaches.start edge_02
reached (suc (suc (suc zero))) m =
    Reaches.along 1 3 (Reaches.along 0 1 Reaches.start edge_01) edge_13
reached (suc (suc (suc (suc v)))) m = absurd (omega (arith, m, four))

enough : 1 + total (λ u. length (out_of built u)) (created 0 built.node_id_gen) ≤ 5
unfolding built add_nodes create_service_if_not_exist add_edges add_children add_parents connect
    create find add_output total created
enough = omega arith

init-IsReady_example :
    (valid : Bool) × (g : Graph) × (h' : Heap) × (init 5 built.heap built.node_id_gen (some 0)
      ≡ some (returned valid g h'))
    × ((valid ≡ true) ↔ IsReady h' g 0)
init-IsReady_example = init-IsReady 0 0 built built-Built (omega (arith, four)) reached 5 enough
