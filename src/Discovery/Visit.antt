-- ===== src/Discovery/Visit.antt =====
-- crates/caelix-core/src/module.rs: the walk of `discover_from` ends, with the nodes of the modules
-- that the root imports, or with a reason.
use caelix.Prelude.{
  ℕ, zero, suc, ◌<◌, ◌≡◌, refl, sym, subst, ◌∙◌, ap, inl, inr, Option, none, some, List, [], ◌∷◌,
  ◌++◌, arith, length, In, All, append-nil, append_assoc,
}
use caelix.Errors.{Outcome, done, fail, panicked, out_of_fuel, Returns}
use caelix.Metadata.{ModuleDef, ModuleMetadata}
use caelix.Graph.{ModuleNode}
use caelix.Schedule.{Mark, entered, finished}
use caelix.Schedule.Total.{count_open, count_open-le, count_open-update}
use caelix.Preflight.Guarantees.{All-map}
use caelix.Discovery.{
  Found, Visitor, new_node, enter, visit_imports, visit_def, visit, validate_controllers,
}
use caelix.Discovery.Marks.{enter-Well}
use caelix.Discovery.Imports.{
  types, Ends, Ends-bind, Ends-weaken, types-append, types-imports, push_import-eq, IsReason, Well,
}
use caelix.Discovery.Visited.{
  Visited, Grown, WellFound, IsOpen, same_state, Grown-first, position-In, opened, All-types,
  visited,
}

module _ (metadata_of : ℕ → ModuleMetadata) (u : List ℕ)
    (closed : (t : ℕ) → In t u → All (λ d. In d.type_id u) (metadata_of t).imports)
    (valid : (t : ℕ) → In t u → Returns (validate_controllers (metadata_of t).controllers)) where
  abbrev pub Visits : ℕ → Visitor metadata_of → Type 0
  Visits n visit =
      (d : ModuleDef) (w : Found) (finish : List ℕ)
      → WellFound metadata_of u finish w
      → In d.type_id u
      → IsOpen metadata_of u w d.type_id
      → count_open u w.states < n
      → Ends (IsReason metadata_of u) (visit d w) (λ (i, w'). Visited metadata_of u d w finish i w')

  module _ (n : ℕ) (visit : Visitor metadata_of) (visits : Visits n visit) where
    visit_imports-Grown :
        (pre : List ModuleNode) (node : ModuleNode) (post : List ModuleNode) (ds : List ModuleDef)
        (w : Found) (finish : List ℕ)
        → w.nodes ≡ pre ++ node ∷ post
        → WellFound metadata_of u finish w
        → All (λ d. In d.type_id u) ds
        → All (λ d. IsOpen metadata_of u w d.type_id) ds
        → count_open u w.states < n
        → Ends
            (IsReason metadata_of u)
            (visit_imports metadata_of visit (length pre) ds w)
            (Grown metadata_of u pre node post ds w finish)
    unfolding visit_imports
    visit_imports-Grown pre node post [] w finish e s i o h = record {
      after = same_state metadata_of u w finish s;
      are_finished = tt;
      indices = [];
      resolved = tt;
      more = [];
      appended = rw (append-nil node.imports, append-nil post) e;
      good = tt;
    }
    visit_imports-Grown pre node post (d ∷ ds) w finish e s (i, is) (o, os) h =
        Ends-bind (IsReason metadata_of u) (λ (c, w1). Visited metadata_of u d w finish c w1)
          (Grown metadata_of u pre node post (d ∷ ds) w finish) (visit d w) _
          (visits d w finish s i o h)
          (λ (c, w1) a.
            let e1 : w1.nodes ≡ pre ++ node ∷ (post ++ a.more) =
              a.appended ∙ (ap (λ l. l ++ a.more) e ∙ append_assoc pre (node ∷ post) a.more) in
            rw (push_import-eq w1 pre node (post ++ a.more) c e1) (
              let node2 = record node { imports = node.imports ++ c ∷ [] } in
              let q = post ++ a.more in
              let w2 : Found = record w1 { nodes = pre ++ node2 ∷ q } in
              let same : types w2.nodes ≡ types w1.nodes =
                types-imports pre node node2.imports q ∙ sym (ap types e1) in
              Ends-weaken (IsReason metadata_of u)
                (Grown metadata_of u pre node2 q ds w2 a.after.more_finish)
                (Grown metadata_of u pre node post (d ∷ ds) w finish)
                (visit_imports metadata_of visit (length pre) ds w2)
                (visit_imports-Grown pre node2 q ds w2 a.after.more_finish refl
                  (subst (λ ts. Well metadata_of a.after.more_finish ts w1.states) (sym same)
                    a.after.well)
                  is
                  (All-map (λ x. IsOpen metadata_of u w x.type_id)
                    (λ x. IsOpen metadata_of u w2 x.type_id) (λ x o t e. o t (a.after.left t e)) ds
                    os)
                  (omega (arith, count_open-le u w.states w1.states a.after.extends, h)))
                (λ w' b.
                  Grown-first metadata_of u pre node post d ds w finish c w1 a w2 w' e1 refl refl
                    b)))

  refused :
      (t : ℕ) (r : Outcome (Unit {0}))
      → In t u
      → Returns r
      → validate_controllers (metadata_of t).controllers ≡ r
      → Ends (IsReason metadata_of u) r (λ _. Unit)
  refused t (done a) i h e = tt
  refused t (fail x) i h e = inr (t, i, e)
  refused t panicked i h e = h
  refused t out_of_fuel i h e = h

  module _ (n : ℕ) (visit : Visitor metadata_of) (visits : Visits n visit) where
    visit_def-Visited :
        (d : ModuleDef) (o : Option Mark) (w : Found) (finish : List ℕ)
        → w.states d.type_id ≡ o
        → WellFound metadata_of u finish w
        → In d.type_id u
        → IsOpen metadata_of u w d.type_id
        → count_open u w.states < suc n
        → Ends
            (IsReason metadata_of u)
            (visit_def metadata_of visit d o w)
            (λ (i, w'). Visited metadata_of u d w finish i w')
    unfolding visit_def
    visit_def-Visited d (some finished) w finish st s i o h =
        let (k, e, f) =
          position-In metadata_of u w.nodes d.type_id (s.listed d.type_id finished st) in
        rw e (record {
          after = same_state metadata_of u w finish s;
          is_finished = st;
          found_at = f;
          more = [];
          appended = sym (append-nil w.nodes);
          good = tt;
        })
    visit_def-Visited d (some entered) w finish st s i o h =
        inl (d.type_id, i, o d.type_id st, (w.path ++ d.type_name ∷ [], refl))
    visit_def-Visited d none w finish st s i o h =
        let m = metadata_of d.type_id in
        let checks = validate_controllers m.controllers in
        let w0 = enter d m w in
        Ends-bind (IsReason metadata_of u) (λ _. Unit)
          (λ (j, w'). Visited metadata_of u d w finish j w') checks _
          (refused d.type_id checks i (valid d.type_id i) refl)
          (λ _ _.
            Ends-bind (IsReason metadata_of u)
              (Grown metadata_of u w.nodes (new_node d m) [] m.imports w0 finish)
              (λ (j, w'). Visited metadata_of u d w finish j w')
              (visit_imports metadata_of visit (length w.nodes) m.imports w0) _
              (visit_imports-Grown n visit visits w.nodes (new_node d m) [] m.imports w0 finish refl
                (rw (types-append w.nodes (new_node d m ∷ []))
                  (enter-Well metadata_of finish (types w.nodes) w.states s d st))
                (closed d.type_id i)
                (All-types metadata_of u (IsOpen metadata_of u w0) m.imports
                  (opened metadata_of u w d st o))
                (omega (arith, count_open-update u w.states d.type_id entered st i, h)))
              (λ w1 g. visited metadata_of u d w finish w1 st i s g))

  pub visit-Visits : (fuel : ℕ) → Visits fuel (visit metadata_of fuel)
  unfolding visit
  visit-Visits zero d w finish s i o h = absurd (omega (arith, h))
  visit-Visits (suc fuel) d w finish s i o h =
      visit_def-Visited fuel (visit metadata_of fuel) (visit-Visits fuel) d (w.states d.type_id) w
        finish refl s i o h
