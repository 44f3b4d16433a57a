-- ===== src/Frame/Manager/Created.antt =====
-- A node that GraphManager::create_service_if_not_exist makes keeps the graph in order
-- (src/frame/graph_manager.cpp).
use Prim.Native.String.{String}
use text.Mathlib.Text
use graphize.Common.{
  ℕ, ◌+◌, ◌-◌, ◌≤◌, ◌<◌, ◌≡◌, ◌≢◌, refl, ap, sym, subst, ◌∙◌, [], Option, none, some, arith,
  if◌then◌else◌, pos, Bool-cases, inl, inr, ℕ_discrete, some-injective, none≢some, Option-cases,
}
use graphize.Common.Bag.{count, total, total-cong, total_pos}
use graphize.Frame.Node.{Kind, update_at, update_past}
use graphize.Frame.Graph.Edges.{edges}
use graphize.Frame.Manager.{
  Registry, Builder, find, create, create_kind, create_class, create_new,
  create_service_if_not_exist,
}
use graphize.Frame.Manager.Built.{created, created_only, In, out_of, inputs_of, Built}

module _ (start : ℕ) (b : Builder) (i : Built start b) (name clazz : String) (kind : Kind) where
  abbrev b' : Builder
  b' = (create b name clazz kind).0

  new_out : out_of b' b.allocated ≡ []
  unfolding create
  new_out = ap (λ x. x.out_nodes) (update_at b.heap b.allocated _)

  old_node : (v : ℕ) → In start b v → b'.heap v ≡ b.heap v
  unfolding create
  old_node v m = update_past b.heap b.allocated v _ (λ e. omega (arith, m))

  old_or_new : (v : ℕ) → In start b' v → (v ≢ b.allocated) → In start b v
  unfolding create
  old_or_new v m ne = ground (arith, m)

  inputs_kept : (v : ℕ) → inputs_of start b' v ≡ inputs_of start b v
  unfolding create created total
  inputs_kept v =
      let same_old : edges (out_of b') (created start b.node_id_gen) v ≡ inputs_of start b v =
        total-cong (λ u. count v (out_of b' u)) (λ u. count v (out_of b u))
          (created start b.node_id_gen)
          (λ u m.
            ap (λ x. count v x.out_nodes)
              (old_node u (omega (arith, created_only start b.node_id_gen u m, i.in_order)))) in
      let nothing : count v (out_of b' (start + b.node_id_gen)) ≡ 0 =
        ap (λ k. count v (out_of b' k)) (sym i.in_order) ∙ ap (count v) new_out in
      omega (arith, same_old, nothing)

  none_into_new : inputs_of start b b.allocated ≡ 0
  none_into_new = elim (ℕ_discrete (inputs_of start b b.allocated) 0) [
    | yes e ↦ e
    | no ne ↦
        let (u, m, e) =
          total_pos (λ u. count b.allocated (out_of b u)) (created start b.node_id_gen)
            (omega arith) in
        let at_u = created_only start b.node_id_gen u m in
        let inside = i.closed u b.allocated (omega (arith, at_u, i.in_order)) e in
        absurd (omega (arith, inside))
  ]

  -- What holds of the new node and of the old ones holds of all.
  by_age :
      (P : ℕ → Type 0)
      → P b.allocated
      → ((v : ℕ) → In start b v → P v)
      → (v : ℕ) → In start b' v
      → P v
  by_age P new old v m = elim (ℕ_discrete v b.allocated) [
    | yes e ↦ subst P (sym e) new
    | no ne ↦ old v (old_or_new v m ne)
  ]

  later : (v : ℕ) → In start b v → In start b' v
  unfolding create
  later v m = omega (arith, m)

  found-In : (key : String) (p : ℕ) → find key b'.nodes_map ≡ some p → In start b' p
  unfolding create find
  found-In key p e = elim (Bool-cases (Text.◌==◌ key name)) [
    | inl same_name ↦
        let e' : some b.allocated ≡ some p =
          ap (λ t. if t then some b.allocated else find key b.nodes_map) (sym same_name) ∙ e in
        subst (In start b') (some-injective e') (omega (arith, i.in_order))
    | inr other ↦ later p (
        i.mapped key p
          (ap (λ t. if t then some b.allocated else find key b.nodes_map) (sym other) ∙ e))
  ]

  create-Built : Built start b' × In start b' b.allocated
  unfolding create
  create-Built = (
    record {
      in_order = omega (arith, i.in_order);
      ids =
          by_age (λ v. (b'.heap v).id ≡ v - start)
            (ap (λ x. x.id) (update_at b.heap b.allocated _) ∙ omega (arith, i.in_order))
            (λ v m. ap (λ x. x.id) (old_node v m) ∙ i.ids v m);
      closed = λ u w m.
          by_age (λ x. 0 < count w (out_of b' x) → In start b' w)
            (λ e. absurd (omega (arith, ap (count w) new_out)))
            (λ x n e.
              later w (i.closed x w n (subst (λ y. 0 < count w y.out_nodes) (old_node x n) e)))
            u m;
      once = λ u w m.
          by_age (λ x. count w (out_of b' x) ≤ 1) (omega (arith, ap (count w) new_out))
            (λ x n. omega (arith, ap (λ y. count w y.out_nodes) (old_node x n), i.once x w n)) u m;
      nums =
          by_age (λ v. (b'.heap v).input_num ≡ pos (inputs_of start b' v))
            (ap (λ x. x.input_num) (update_at b.heap b.allocated _)
              ∙ ap pos (sym (inputs_kept b.allocated ∙ none_into_new)))
            (λ v m.
              ap (λ x. x.input_num) (old_node v m) ∙ i.nums v m ∙ ap pos (sym (inputs_kept v)));
      checks =
          by_age (λ v. (b'.heap v).input_num_4_check ≡ pos (inputs_of start b' v))
            (ap (λ x. x.input_num_4_check) (update_at b.heap b.allocated _)
              ∙ ap pos (sym (inputs_kept b.allocated ∙ none_into_new)))
            (λ v m.
              ap (λ x. x.input_num_4_check) (old_node v m)
              ∙ i.checks v m
              ∙ ap pos (sym (inputs_kept v)));
      mapped = found-In;
    },
    omega (arith, i.in_order),
  )

-- A builder that is in order, with more nodes than one before, and the node that was asked for.
pub record Grown (start : ℕ) (b b' : Builder) : Type 0 where
  pub built : Built start b'
  pub more : b.allocated ≤ b'.allocated
  pub old : (v : ℕ) → v < start → b'.heap v ≡ b.heap v

pub Grown-trans :
    (start : ℕ) (b b' b'' : Builder) → Grown start b b' → Grown start b' b'' → Grown start b b''
Grown-trans start b b' b'' g g' = record {
  built = g'.built;
  more = omega (arith, g.more, g'.more);
  old = λ v below_start. g'.old v below_start ∙ g.old v below_start;
}

pub record Made (start : ℕ) (b : Builder) (r : Builder × Option ℕ) : Type 0 where
  pub grown : Grown start b r.0
  pub inside : (p : ℕ) → r.1 ≡ some p → In start r.0 p

pub Grown-self : (start : ℕ) (b : Builder) → Built start b → Grown start b b
Grown-self start b i = record { built = i; more = omega arith; old = λ v below_start. refl }

unmade : (start : ℕ) (b : Builder) → Built start b → Made start b (b, none)
unmade start b i = record { grown = Grown-self start b i; inside = λ p e. absurd (none≢some e) }

create-Made :
    (start : ℕ) (b : Builder) (name clazz : String) (kind : Kind)
    → Built start b
    → Made start b (create b name clazz kind)
unfolding create
create-Made start b name clazz kind i =
    let (built, inside) = create-Built start b i name clazz kind in
    record {
      grown = record {
        built = built;
        more = omega arith;
        old =
            λ v below_start. update_past b.heap b.allocated v _ (λ e. omega (arith, e, i.in_order));
      };
      inside = λ p e. subst (In start (create b name clazz kind).0) (some-injective e) inside;
    }

create_kind-Made :
    (name clazz : String) (start : ℕ) (b : Builder) (kind : Option Kind)
    → Built start b
    → Made start b (create_kind name clazz b kind)
unfolding create_kind
create_kind-Made name clazz start b none i = unmade start b i
create_kind-Made name clazz start b (some kind) i = create-Made start b name clazz kind i

create_class-Made :
    (reg : Registry) (name : String) (start : ℕ) (b : Builder) (clazz : Option String)
    → Built start b
    → Made start b (create_class reg name b clazz)
unfolding create_class
create_class-Made reg name start b none i = unmade start b i
create_class-Made reg name start b (some clazz) i =
    create_kind-Made name clazz start b (reg.kind_of clazz) i

pub create_service-Made :
    (reg : Registry) (name : String) (start : ℕ) (b : Builder)
    → Built start b
    → Made start b (create_service_if_not_exist reg name b)
unfolding create_service_if_not_exist create_new
create_service-Made reg name start b i = elim (Option-cases (find name b.nodes_map)) [
  | inl e ↦ rw e (create_class-Made reg name start b (reg.class_of name) i)
  | inr (p, e) ↦ rw e (record {
    grown = Grown-self start b i;
    inside = λ q e'. subst (In start b) (some-injective e') (i.mapped name p e);
  })
]
