-- ===== src/Frame/Graph/Kept.antt =====
-- What Graph::check leaves of the nodes (src/frame/graph.cpp).
use graphize.Common.{
  ℕ, zero, suc, ◌≡◌, refl, ap, sym, subst, ◌∙◌, List, [], ◌∷◌, ◌++◌, Option, none, some, Bool,
  false, if◌then◌else◌, decrement, is_zero, Bool-cases, inl, inr, ℕ_discrete, some-injective,
  none≢some, length,
}
use graphize.Frame.Node.{Node, Heap, update, update_at, update_past}
use graphize.Frame.Graph.{Graph, remove_edges, remove_nodes, verdict, check_root}

-- What Graph::check leaves of a node: all but the counter that it takes down.
pub record Same (h h' : Heap) : Type 0 where
  pub outs : (v : ℕ) → (h' v).out_nodes ≡ (h v).out_nodes
  pub ids : (v : ℕ) → (h' v).id ≡ (h v).id
  pub nums : (v : ℕ) → (h' v).input_num ≡ (h v).input_num

Same-trans : (h h' h'' : Heap) → Same h h' → Same h' h'' → Same h h''
Same-trans h h' h'' s s' = record {
  outs = λ v. s'.outs v ∙ s.outs v;
  ids = λ v. s'.ids v ∙ s.ids v;
  nums = λ v. s'.nums v ∙ s.nums v;
}

Same-self : (h : Heap) → Same h h
Same-self h = record { outs = λ v. refl; ids = λ v. refl; nums = λ v. refl }

update-Same :
    (h : Heap) (n : ℕ) (x : Node)
    → x.out_nodes ≡ (h n).out_nodes
    → x.id ≡ (h n).id
    → x.input_num ≡ (h n).input_num
    → Same h (update h n x)
update-Same h n x o d m = record {
  outs = λ v. at (λ y. y.out_nodes) o v;
  ids = λ v. at (λ y. y.id) d v;
  nums = λ v. at (λ y. y.input_num) m v;
}
  where
    at : {A : Type 0} (f : Node → A) → f x ≡ f (h n) → (v : ℕ) → f (update h n x v) ≡ f (h v)
    at f e v = elim (ℕ_discrete n v) [
      | yes p ↦ subst (λ u. f (update h n x u) ≡ f (h u)) p (ap f (update_at h n x) ∙ e)
      | no ne ↦ ap f (update_past h n v x ne)
    ]

pub remove_edges-Same : (ns q : List ℕ) (h : Heap) → Same h (remove_edges h ns q).0
unfolding remove_edges
remove_edges-Same [] q h = Same-self h
remove_edges-Same (n ∷ ns) q h =
    let left = decrement (h n).input_num_4_check in
    let x : Node = record (h n) { input_num_4_check = left } in
    Same-trans h (update h n x) _ (update-Same h n x refl refl refl)
      (remove_edges-Same ns (if is_zero left then q ++ n ∷ [] else q) (update h n x))

remove_nodes-Same :
    (fuel : ℕ) (h : Heap) (q deleted : List ℕ) (h' : Heap) (d : List ℕ)
    → remove_nodes fuel h q deleted ≡ some (h', d)
    → Same h h'
unfolding remove_nodes
remove_nodes-Same zero h [] deleted h' d e =
    subst (Same h) (ap (λ x. x.0) (some-injective e)) (Same-self h)
remove_nodes-Same (suc fuel) h [] deleted h' d e =
    subst (Same h) (ap (λ x. x.0) (some-injective e)) (Same-self h)
remove_nodes-Same zero h (r ∷ q) deleted h' d e = absurd (none≢some e)
remove_nodes-Same (suc fuel) h (r ∷ q) deleted h' d e =
    let one = remove_edges h (h r).out_nodes q in
    Same-trans h one.0 h' (remove_edges-Same (h r).out_nodes q h)
      (remove_nodes-Same fuel one.0 one.1 (r ∷ deleted) h' d e)

verdict-Same :
    (g : Graph) (h : Heap) (r : Option (Heap × List ℕ)) (valid : Bool) (h' : Heap)
    → ((h1 : Heap) (d : List ℕ) → r ≡ some (h1, d) → Same h h1)
    → verdict g r ≡ some (valid, h')
    → Same h h'
unfolding verdict
verdict-Same g h none valid h' s e = absurd (none≢some e)
verdict-Same g h (some (h1, d)) valid h' s e =
    subst (Same h) (ap (λ x. x.1) (some-injective e)) (s h1 d refl)

pub check_root-Same :
    (h : Heap) (g : Graph) (root : Option ℕ) (valid : Bool) (h' : Heap)
    → check_root h g root ≡ some (valid, h')
    → Same h h'
unfolding check_root
check_root-Same h g none valid h' e =
    subst (Same h) (ap (λ x. x.1) (some-injective e)) (Same-self h)
check_root-Same h g (some root) valid h' e =
    elim (Bool-cases (is_zero (h root).input_num_4_check)) [
      | inl no_input ↦
          verdict-Same g h (remove_nodes (length g.all_nodes) h (root ∷ []) []) valid h'
            (λ h1 d f. remove_nodes-Same (length g.all_nodes) h (root ∷ []) [] h1 d f)
            (ap
                (λ t.
                  if t
                  then verdict g (remove_nodes (length g.all_nodes) h (root ∷ []) [])
                  else some (false, h))
                (sym no_input)
              ∙ e)
      | inr some_input ↦
          subst (Same h)
            (ap (λ x. x.1)
              (some-injective (
                ap
                  (λ t.
                    if t
                    then verdict g (remove_nodes (length g.all_nodes) h (root ∷ []) [])
                    else some (false, h))
                  (sym some_input)
                ∙ e)))
            (Same-self h)
    ]
