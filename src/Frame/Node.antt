-- ===== src/Frame/Node.antt =====
-- src/frame/graph.h, class Node: the process-wide node objects and the edges between them.
-- A `Node*` is a number, and the objects are a function from numbers to records.
use Prim.Native.String.{String}
use graphize.Common.{
  ℕ, ◌++◌, List, [], ◌∷◌, ◌==◌, if◌then◌else◌, ℤ, increment, ◌≡◌, ◌≢◌, refl, ◌∙◌, ==_iff,
  Bool-cases, inl, inr,
}

-- What `type()` returns: the run of a "cpu" node notifies its outputs when `do_service` returns,
-- an "io" node does so itself, from a callback.
pub data Kind : Type 0 where
  cpu io : Kind

pub record Node : Type 0 where
  pub name : String
  pub class : String
  pub id : ℕ
  pub kind : Kind
  pub input_num : ℤ
  pub input_num_4_check : ℤ
  pub out_nodes : List ℕ

abbrev pub Heap : Type 0
Heap = ℕ → Node

abbrev pub update : Heap → ℕ → Node → Heap
update h a n b = if a == b then n else h b

pub update_at : (h : Heap) (a : ℕ) (n : Node) → update h a n a ≡ n
update_at h a n = rw ((==_iff a a).1 refl) refl

pub update_past : (h : Heap) (a b : ℕ) (n : Node) → a ≢ b → update h a n b ≡ h b
update_past h a b n ne = elim (Bool-cases (a == b)) [
  | inl same_place ↦ absurd (ne ((==_iff a b).0 same_place))
  | inr other ↦ rw other refl
]

-- Node::add_output: the edge is appended, and the two counters of the target go up.
unfoldable pub add_output : Heap → ℕ → ℕ → Heap
add_output h n m =
    let h1 = update h n (record (h n) { out_nodes = (h n).out_nodes ++ m ∷ [] }) in
    update h1 m (record (h1 m) {
      input_num_4_check = increment (h1 m).input_num_4_check;
      input_num = increment (h1 m).input_num;
    })

-- The other nodes are as they were.
pub add_output_past : (h : Heap) (n m v : ℕ) → n ≢ v → m ≢ v → add_output h n m v ≡ h v
unfolding add_output
add_output_past h n m v not_n not_m =
    let h1 : Heap = update h n (record (h n) { out_nodes = (h n).out_nodes ++ m ∷ [] }) in
    update_past h1 m v
      (record (h1 m) {
        input_num_4_check = increment (h1 m).input_num_4_check;
        input_num = increment (h1 m).input_num;
      })
      not_m
    ∙ update_past h n v (record (h n) { out_nodes = (h n).out_nodes ++ m ∷ [] }) not_n
