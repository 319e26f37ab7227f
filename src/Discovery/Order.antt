-- ===== src/Discovery/Order.antt =====
-- crates/caelix-core/src/module.rs: `order` of `discover_from`, which puts the index of each module
-- behind those of its imports.
use caelix.Prelude.{
  ℕ, zero, suc, ◌≤◌, ◌≡◌, refl, sym, subst, ap, ◌∙◌, inl, inr, true, false, some, List, [], ◌∷◌,
  arith, length, get_elem?, In, In-append_right, All, Bool-cases, ==_iff, ◌==◌,
}
use caelix.Errors.{Outcome, done}
use caelix.Metadata.{ModuleDef, ModuleMetadata}
use caelix.Graph.{ModuleNode}
use caelix.Discovery.{Placing, insert_seen, push_ordered, order_children, order}
use caelix.Discovery.Imports.{types, Resolves, Good, Sorted}
use caelix.Discovery.Placed.{AreOrdered, Tidy, Steps, Steps-refl, Steps-trans, pushed}

pub node_at :
    (nodes : List ModuleNode) (i t : ℕ)
    → get_elem? (types nodes) i ≡ some t
    → (node : ModuleNode) × (get_elem? nodes i ≡ some node) × (node.type_id ≡ t)
node_at [] i t e = cc e
node_at (node ∷ nodes) zero t e = (node, refl, cc e)
node_at (node ∷ nodes) (suc i) t e = node_at nodes i t e

pub All-at :
    (P : ModuleNode → Type 0) (nodes : List ModuleNode) (i : ℕ) (node : ModuleNode)
    → All P nodes
    → get_elem? nodes i ≡ some node
    → P node
All-at P [] i node h e = cc e
All-at P (n ∷ nodes) zero node (p, h) e = let same : n ≡ node = cc e in subst P same p
All-at P (n ∷ nodes) (suc i) node (p, h) e = All-at P nodes i node h e

module _ (nodes : List ModuleNode) where
  -- The module of the index is finished, and so among `finish`.
  abbrev IsAmong : List ℕ → ℕ → Type 0
  IsAmong finish i = (t : ℕ) × (get_elem? (types nodes) i ≡ some t) × In t finish

  abbrev IsReady : List ℕ → Placing → Type 0
  IsReady finish w = (j : ℕ) → w.seen j ≡ true → IsAmong finish j → In j w.ordered

  IsReady-Steps :
      (finish : List ℕ) (w w' : Placing) → Steps nodes w w' → IsReady finish w → IsReady finish w'
  IsReady-Steps finish w w' a r j e i = elim (a.news j e) [
    | inl e0 ↦ a.keeps j (r j e0 i)
    | inr k ↦ k
  ]

  abbrev Orders : List ℕ → (ℕ → Placing → Outcome Placing) → Type 0
  Orders finish order =
      (i : ℕ) (w : Placing)
      → IsAmong finish i
      → Tidy nodes w
      → IsReady finish w
      → (w' : Placing) × (order i w ≡ done w') × Steps nodes w w' × In i w'.ordered

  order_children-Steps :
      (finish : List ℕ) (order : ℕ → Placing → Outcome Placing)
      → Orders finish order
      → (cs : List ℕ) (w : Placing) → All (IsAmong finish) cs
      → Tidy nodes w
      → IsReady finish w
      → (w' : Placing) × (order_children order cs w ≡ done w')
        × Steps nodes w w'
        × All (λ c. In c w'.ordered) cs
  unfolding order_children
  order_children-Steps finish order os [] w a t r = (w, refl, Steps-refl nodes w t, tt)
  order_children-Steps finish order os (c ∷ cs) w (i, is) t r =
      let (w1, e1, s1, in1) = os c w i t r in
      let (w2, e2, s2, in2) =
        order_children-Steps finish order os cs w1 is s1.tidy (IsReady-Steps finish w w1 s1 r) in
      (w2, rw e1 e2, Steps-trans nodes w w1 w2 s1 s2, (s2.keeps c in1, in2))

  resolved-IsAmong :
      (finish is : List ℕ) (ds : List ModuleDef)
      → Resolves (types nodes) is ds
      → All (λ d. In d.type_id finish) ds
      → All (IsAmong finish) is
  resolved-IsAmong finish [] ds r a = tt
  resolved-IsAmong finish (i ∷ is) [] r a = absurd r
  resolved-IsAmong finish (i ∷ is) (d ∷ ds) (e, r) (k, a) =
      ((d.type_id, e, k), resolved-IsAmong finish is ds r a)

  module _ (metadata_of : ℕ → ModuleMetadata) (u : List ℕ)
      (good : All (Good metadata_of u (types nodes)) nodes) where
    -- The visit of the module that finished last of `finish`.
    order_last :
        (x : ℕ) (finish : List ℕ) (fuel : ℕ)
        → Sorted metadata_of (x ∷ finish)
        → Orders finish (order fuel nodes)
        → (i : ℕ) (w : Placing) → get_elem? (types nodes) i ≡ some x
        → Tidy nodes w
        → IsReady (x ∷ finish) w
        → (w' : Placing) × (order (suc fuel) nodes i w ≡ done w')
          × Steps nodes w w'
          × In i w'.ordered
    unfolding order
    order_last x finish fuel (new, behind, s) os i w at t r = elim (Bool-cases (w.seen i)) [
      | inl was ↦ (w, rw was refl, Steps-refl nodes w t, r i was (x, at, inl refl))
      | inr unseen ↦
          let (node, e, f) = node_at nodes i x at in
          let (known, m, resolved) =
            All-at (Good metadata_of u (types nodes)) nodes i node good e in
          let among =
            resolved-IsAmong finish node.imports (metadata_of node.type_id).imports resolved (
              subst (λ t. All (λ d. In d.type_id finish) (metadata_of t).imports) (sym f) behind) in
          let w0 = insert_seen i w in
          let tidy0 : Tidy nodes w0 = record {
            ordered = t.ordered;
            within = λ j k. ground (arith, t.within j k);
          } in
          let ready0 : IsReady finish w0 = λ j g (s, at', k). elim (Bool-cases (i == j)) [
            | inl same ↦
                let eq : some x ≡ some s =
                  sym at ∙ (ap (get_elem? (types nodes)) ((==_iff i j).0 same) ∙ at') in
                absurd (new (subst (λ y. In y finish) (cc eq) k))
            | inr other ↦ r j (rw other at g) (s, at', inr k)
          ] in
          let (w1, e1, s1, in1) =
            order_children-Steps finish (order fuel nodes) os node.imports w0 among tidy0 ready0 in
          (
            push_ordered i w1,
            rw (unseen, e) (rw e1 refl),
            pushed nodes i w w1 node e unseen t s1 in1,
            In-append_right i w1.ordered (i ∷ []) (inl refl),
          )
    ]

    order-Orders :
        (finish : List ℕ) (fuel : ℕ)
        → Sorted metadata_of finish
        → length finish ≤ fuel
        → Orders finish (order fuel nodes)
    order-Orders [] fuel s h i w (t, at, k) tidy r = absurd k
    order-Orders (x ∷ finish) zero s h i w a tidy r = absurd (omega (arith, h))
    order-Orders (x ∷ finish) (suc fuel) s h i w (t, at, inl e) tidy r =
        order_last x finish fuel s (order-Orders finish fuel s.2 (omega (arith, h))) i w
          (at ∙ ap some e) tidy r
    order-Orders (x ∷ finish) (suc fuel) s h i w (t, at, inr k) tidy r =
        order-Orders finish (suc fuel) s.2 (omega (arith, h)) i w (t, at, k) tidy
          (λ j e (y, f, l). r j e (y, f, inr l))

    -- From nothing: the module of the index is among the ordered ones.
    pub order-ends :
        (finish : List ℕ) (i t : ℕ)
        → Sorted metadata_of finish
        → length finish ≤ length nodes
        → get_elem? (types nodes) i ≡ some t
        → In t finish
        → (w' : Placing) × (order
              (length nodes)
              nodes
              i
              (record { seen = λ _. false; ordered = [] })
            ≡ done w')
          × AreOrdered nodes [] w'.ordered
          × In i w'.ordered
    order-ends finish i t s h at k =
        let nothing : Placing = record { seen = λ _. false; ordered = [] } in
        let (w', e, steps, there) =
          order-Orders finish (length nodes) s h i nothing (t, at, k)
            (record { ordered = tt; within = λ j k. absurd k }) (λ j e a. cc e) in
        (w', e, steps.tidy.ordered, there)
