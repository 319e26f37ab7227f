-- ===== src/Discovery/Placed.antt =====
-- crates/caelix-core/src/module.rs: what `order` of `discover_from` has placed.
use caelix.Prelude.{
  ℕ, ◌≡◌, sym, subst, ◌⊎◌, inl, inr, true, false, ◌||◌, some, List, [], ◌∷◌, ◌++◌, append-nil,
  append_assoc, arith, get_elem?, In, In-append_left, In-append_right, In-append_cases, All,
  Bool-cases, ==_iff, ◌==◌,
}
use caelix.Graph.{ModuleNode}
use caelix.Discovery.{Placing, insert_seen, push_ordered}

module _ (nodes : List ModuleNode) where
  -- The node of the index, with imports among the earlier indices, of which it is none.
  abbrev pub Stands : List ℕ → ℕ → Type 0
  Stands earlier j =
      (node : ModuleNode) × (get_elem? nodes j ≡ some node)
      × All (λ c. In c earlier) node.imports
      × (In j earlier → ⊥)

  abbrev pub AreOrdered : List ℕ → List ℕ → Type 0
  AreOrdered earlier [] = Unit
  AreOrdered earlier (j ∷ js) = Stands earlier j × AreOrdered (earlier ++ j ∷ []) js

  AreOrdered-concat :
      (earlier js : List ℕ) (j : ℕ)
      → AreOrdered earlier js
      → Stands (earlier ++ js) j
      → AreOrdered earlier (js ++ j ∷ [])
  AreOrdered-concat earlier [] j a s = (rw (append-nil earlier) at s, tt)
  AreOrdered-concat earlier (k ∷ js) j (h, a) s =
      (h, AreOrdered-concat (earlier ++ k ∷ []) js j a (rw (append_assoc earlier (k ∷ []) js) s))

  pub record Tidy (w : Placing) : Type 0 where
    pub ordered : AreOrdered [] w.ordered
    pub within : (j : ℕ) → In j w.ordered → w.seen j ≡ true

  -- What is seen anew is ordered, and what is ordered anew was not seen.
  pub record Steps (w w' : Placing) : Type 0 where
    pub tidy : Tidy w'
    pub keeps : (j : ℕ) → In j w.ordered → In j w'.ordered
    pub sees : (j : ℕ) → w.seen j ≡ true → w'.seen j ≡ true
    pub news : (j : ℕ) → w'.seen j ≡ true → (w.seen j ≡ true) ⊎ In j w'.ordered
    pub fresh : (j : ℕ) → In j w'.ordered → In j w.ordered ⊎ (w.seen j ≡ false)

  pub Steps-refl : (w : Placing) → Tidy w → Steps w w
  Steps-refl w t = record {
    tidy = t;
    keeps = λ j i. i;
    sees = λ j e. e;
    news = λ j e. inl e;
    fresh = λ j i. inl i;
  }

  pub Steps-trans : (w w1 w2 : Placing) → Steps w w1 → Steps w1 w2 → Steps w w2
  Steps-trans w w1 w2 a b = record {
    tidy = b.tidy;
    keeps = λ j i. b.keeps j (a.keeps j i);
    sees = λ j e. b.sees j (a.sees j e);
    news = λ j e. elim (b.news j e) [
      | inl e1 ↦ elim (a.news j e1) [ inl e0 ↦ inl e0 | inr i ↦ inr (b.keeps j i) ]
      | inr i ↦ inr i
    ];
    fresh = λ j i. elim (b.fresh j i) [
      | inl i1 ↦ a.fresh j i1
      | inr e ↦ elim (Bool-cases (w.seen j)) [
        | inl was ↦ cc (e, a.sees j was)
        | inr no_yet ↦ inr no_yet
      ]
    ];
  }

  pub pushed :
      (i : ℕ) (w w1 : Placing) (node : ModuleNode)
      → get_elem? nodes i ≡ some node
      → w.seen i ≡ false
      → Tidy w
      → Steps (insert_seen i w) w1
      → All (λ c. In c w1.ordered) node.imports
      → Steps w (push_ordered i w1)
  pushed i w w1 node e unseen t s all =
      let self : (i == i || w.seen i) ≡ true = ground (arith, ==_iff i i) in
      let absent : In i w1.ordered → ⊥ =
        λ k. elim (s.fresh i k) [ inl k0 ↦ cc (unseen, t.within i k0) | inr f ↦ cc (f, self) ] in
      record {
        tidy = record {
          ordered = AreOrdered-concat [] w1.ordered i s.tidy.ordered (node, e, all, absent);
          within = λ j k. elim (In-append_cases j w1.ordered (i ∷ []) k) [
            | inl k1 ↦ s.tidy.within j k1
            | inr (inl f) ↦ subst (λ x. w1.seen x ≡ true) (sym f) (s.sees i self)
            | inr (inr k2) ↦ absurd k2
          ];
        };
        keeps = λ j k. In-append_left j w1.ordered (i ∷ []) (s.keeps j k);
        sees = λ j f. s.sees j (ground (arith, f));
        news = λ j f. elim (s.news j f) [
          | inl g ↦ elim (Bool-cases (i == j)) [
            | inl same ↦
                inr (In-append_right j w1.ordered (i ∷ []) (inl (sym ((==_iff i j).0 same))))
            | inr other ↦ inl (rw other at g)
          ]
          | inr k ↦ inr (In-append_left j w1.ordered (i ∷ []) k)
        ];
        fresh = λ j k. elim (In-append_cases j w1.ordered (i ∷ []) k) [
          | inl k1 ↦ elim (s.fresh j k1) [ inl k0 ↦ inl k0 | inr f ↦ inr (ground (arith, f)) ]
          | inr (inl f) ↦ inr (subst (λ x. w.seen x ≡ false) (sym f) unseen)
          | inr (inr k2) ↦ absurd k2
        ];
      }
