-- ===== src/Frame/Manager/Built.antt =====
-- What GraphManager::init keeps true of the nodes that it creates (src/frame/graph_manager.cpp).
use Prim.Native.String.{String}
use graphize.Common.{
  ℕ, zero, suc, ◌+◌, ◌-◌, ◌≤◌, ◌<◌, ◌≡◌, ◌≢◌, refl, ap, ◌∙◌, List, [], ◌∷◌, ◌++◌, some, Bool, true,
  false, arith, ◌==◌, if◌then◌else◌, ℤ, pos, increment, Bool-cases, inl, inr, ==_iff, ℕ_discrete,
}
use graphize.Common.Bag.{count, same, contains, count-append, total_differ}
use graphize.Frame.Node.{Node, Heap, update, add_output, update_past}
use graphize.Frame.Graph.Edges.{edges}
use graphize.Frame.Manager.{Builder, find, connect}

-- So many nodes from `start` on, the last one first.
unfoldable pub created : ℕ → ℕ → List ℕ
created start zero = []
created start (suc n) = (start + n) ∷ created start n

created_past : (start n v : ℕ) → start + n ≤ v → count v (created start n) ≡ 0
unfolding created
created_past start zero v h = refl
created_past start (suc n) v h = ground (arith, created_past start n v)

pub created_in : (start n v : ℕ) → start ≤ v → v < start + n → count v (created start n) ≡ 1
unfolding created
created_in start zero v h l = absurd (omega arith)
created_in start (suc n) v h l = elim (ℕ_discrete v (start + n)) [
  | yes e ↦ ground (arith, created_past start n v)
  | no ne ↦ ground (arith, created_in start n v h)
]

pub created_only : (start n v : ℕ) → 0 < count v (created start n) → (start ≤ v) × (v < start + n)
unfolding created
created_only start zero v m = absurd (omega arith)
created_only start (suc n) v m = elim (ℕ_discrete v (start + n)) [
  | yes e ↦ omega arith
  | no ne ↦ ground (arith, created_only start n v)
]

-- What add_output changes: the outputs of the one node, the counters of the other.
abbrev with_output : Heap → ℕ → ℕ → Heap
with_output h p q = update h p (record (h p) { out_nodes = (h p).out_nodes ++ q ∷ [] })

out_nodes-with_output :
    (h : Heap) (p q v : ℕ)
    → (with_output h p q v).out_nodes
      ≡ (if p == v then (h v).out_nodes ++ q ∷ [] else (h v).out_nodes)
out_nodes-with_output h p q v = elim (ℕ_discrete p v) [
  | yes e ↦ rw ((==_iff p v).1 e) (ap (λ u. (h u).out_nodes ++ q ∷ []) e)
  | no ne ↦ ap (λ x. x.out_nodes) (update_past h p v _ ne) ∙ ground arith
]

record Added (q v : ℕ) (n n' : Node) : Type 0 where
  same_id : n'.id ≡ n.id
  more_num : n'.input_num ≡ (if q == v then increment n.input_num else n.input_num)
  more_check :
      n'.input_num_4_check ≡ (if q == v then increment n.input_num_4_check else n.input_num_4_check)

-- The node `p` itself is as it was, but for its outputs.
with_output-id : (h : Heap) (p q v : ℕ) → (with_output h p q v).id ≡ (h v).id
with_output-id h p q v = elim (ℕ_discrete p v) [
  | yes e ↦ rw ((==_iff p v).1 e) (ap (λ u. (h u).id) e)
  | no ne ↦ ap (λ x. x.id) (update_past h p v _ ne)
]

with_output-num : (h : Heap) (p q v : ℕ) → (with_output h p q v).input_num ≡ (h v).input_num
with_output-num h p q v = elim (ℕ_discrete p v) [
  | yes e ↦ rw ((==_iff p v).1 e) (ap (λ u. (h u).input_num) e)
  | no ne ↦ ap (λ x. x.input_num) (update_past h p v _ ne)
]

with_output-check :
    (h : Heap) (p q v : ℕ) → (with_output h p q v).input_num_4_check ≡ (h v).input_num_4_check
with_output-check h p q v = elim (ℕ_discrete p v) [
  | yes e ↦ rw ((==_iff p v).1 e) (ap (λ u. (h u).input_num_4_check) e)
  | no ne ↦ ap (λ x. x.input_num_4_check) (update_past h p v _ ne)
]

add_output-Added : (h : Heap) (p q v : ℕ) → Added q v (h v) (add_output h p q v)
unfolding add_output
add_output-Added h p q v = elim (ℕ_discrete q v) [
  | yes e ↦ rw ((==_iff q v).1 e) (record {
    same_id = ap (λ u. (with_output h p q u).id) e ∙ with_output-id h p q v;
    more_num =
        ap (λ u. increment (with_output h p q u).input_num) e
        ∙ ap increment (with_output-num h p q v)
        ∙ ground arith;
    more_check =
        ap (λ u. increment (with_output h p q u).input_num_4_check) e
        ∙ ap increment (with_output-check h p q v)
        ∙ ground arith;
  })
  | no ne ↦
      let past = update_past (with_output h p q) q v _ ne in
      record {
        same_id = ap (λ x. x.id) past ∙ with_output-id h p q v;
        more_num = ap (λ x. x.input_num) past ∙ with_output-num h p q v ∙ ground arith;
        more_check = ap (λ x. x.input_num_4_check) past ∙ with_output-check h p q v ∙ ground arith;
      }
]

out_nodes-add_output :
    (h : Heap) (p q v : ℕ)
    → (add_output h p q v).out_nodes
      ≡ (if p == v then (h v).out_nodes ++ q ∷ [] else (h v).out_nodes)
unfolding add_output
out_nodes-add_output h p q v = elim (ℕ_discrete q v) [
  | yes e ↦
      rw ((==_iff q v).1 e) (ap (λ u. (with_output h p q u).out_nodes) e)
      ∙ out_nodes-with_output h p q v
  | no ne ↦
      ap (λ x. x.out_nodes) (update_past (with_output h p q) q v _ ne)
      ∙ out_nodes-with_output h p q v
]

abbrev pub In : ℕ → Builder → ℕ → Type 0
In start b v = (start ≤ v) × (v < b.allocated)

abbrev pub out_of : Builder → ℕ → List ℕ
out_of b v = (b.heap v).out_nodes

-- The number of edges into a node from those of the graph.
abbrev pub inputs_of : ℕ → Builder → ℕ → ℕ
inputs_of start b v = edges (out_of b) (created start b.node_id_gen) v

-- The nodes of one graph, created from `start` on: numbered in the order of their creation, with
-- edges among themselves, no edge twice, and counters that count the edges.
pub record Built (start : ℕ) (b : Builder) : Type 0 where
  pub in_order : b.allocated ≡ start + b.node_id_gen
  pub ids : (v : ℕ) → In start b v → (b.heap v).id ≡ v - start
  pub closed : (u w : ℕ) → In start b u → 0 < count w (out_of b u) → In start b w
  pub once : (u w : ℕ) → In start b u → count w (out_of b u) ≤ 1
  pub nums : (v : ℕ) → In start b v → (b.heap v).input_num ≡ pos (inputs_of start b v)
  pub checks : (v : ℕ) → In start b v → (b.heap v).input_num_4_check ≡ pos (inputs_of start b v)
  pub mapped : (name : String) (p : ℕ) → find name b.nodes_map ≡ some p → In start b p

-- One edge more.
inputs_of-connect :
    (start : ℕ) (b : Builder) (p q v : ℕ)
    → In start b p
    → b.allocated ≡ start + b.node_id_gen
    → edges (λ u. (add_output b.heap p q u).out_nodes) (created start b.node_id_gen) v
      ≡ inputs_of start b v + same v q
inputs_of-connect start b p q v (lo, hi) order =
    let w : ℕ → ℕ = λ u. count v (out_of b u) in
    let w' : ℕ → ℕ = λ u. count v (add_output b.heap p q u).out_nodes in
    let other : (u : ℕ) → p ≢ u → w' u ≡ w u =
      λ u ne. ap (count v) (out_nodes-add_output b.heap p q u ∙ ground arith) in
    let here : w' p ≡ w p + same v q =
      ap (count v) (out_nodes-add_output b.heap p q p ∙ ground arith)
      ∙ count-append v (out_of b p) (q ∷ [])
      ∙ ground arith in
    omega (
      arith,
      total_differ w' w p (created start b.node_id_gen) other
          (created_in start b.node_id_gen p lo (omega arith)),
      here,
    )

count-if :
    (w q : ℕ) (here : Bool) (xs : List ℕ)
    → count w (if here then xs ++ q ∷ [] else xs) ≡ count w xs + (if here then same w q else 0)
count-if w q true xs = count-append w xs (q ∷ []) ∙ ground arith
count-if w q false xs = omega arith

one_more :
    (q v : ℕ) (z : ℤ) (n n' : ℕ)
    → z ≡ pos n
    → n' ≡ n + same v q
    → (if q == v then increment z else z) ≡ pos n'
one_more q v z n n' e more = elim (Bool-cases (q == v)) [
  | inl at_v ↦ rw (at_v, e) (ap pos (ground arith))
  | inr past ↦ rw past (e ∙ ap pos (ground arith))
]

pub connect-Built :
    (start : ℕ) (b : Builder) (p q : ℕ)
    → Built start b
    → In start b p
    → In start b q
    → Built start (connect p q b)
unfolding connect
connect-Built start b p q i at_p at_q = elim (Bool-cases (contains q (out_of b p))) [
  | inl there ↦ rw there i
  | inr new ↦
      let h' = add_output b.heap p q in
      let outs : (u : ℕ)
          → (h' u).out_nodes ≡ (if p == u then out_of b u ++ q ∷ [] else out_of b u) =
        λ u. out_nodes-add_output b.heap p q u in
      let counts : (u w : ℕ)
          → count w (h' u).out_nodes ≡ count w (out_of b u) + (if p == u then same w q else 0) =
        λ u w. ap (count w) (outs u) ∙ count-if w q (p == u) (out_of b u) in
      let added : (v : ℕ) → Added q v (b.heap v) (h' v) = λ v. add_output-Added b.heap p q v in
      let inputs : (v : ℕ)
          → edges (λ u. (h' u).out_nodes) (created start b.node_id_gen) v
            ≡ inputs_of start b v + same v q =
        λ v. inputs_of-connect start b p q v at_p i.in_order in
      rw new (record {
        in_order = i.in_order;
        ids = λ v m. (added v).same_id ∙ i.ids v m;
        closed = λ u w m e. ground (arith, counts u w, i.closed u w m);
        once = λ u w m. ground (arith, counts u w, i.once u w m);
        nums = λ v m. (added v).more_num ∙ one_more q v _ _ _ (i.nums v m) (inputs v);
        checks = λ v m. (added v).more_check ∙ one_more q v _ _ _ (i.checks v m) (inputs v);
        mapped = i.mapped;
      })
]
