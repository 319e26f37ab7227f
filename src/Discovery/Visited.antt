-- ===== src/Discovery/Visited.antt =====
-- crates/caelix-core/src/module.rs: what a visit of a module and the loop over its imports leave, in
-- the walk of `discover_from`.
use caelix.Prelude.{
  ℕ, suc, ◌+◌, ◌≤◌, ◌≡◌, refl, sym, subst, ◌∙◌, ap, inl, inr, none, some, List, [], ◌∷◌, ◌++◌,
  arith, length, get_elem?, In, All, All-append, length-append, Bool-cases, ==_iff, ◌==◌,
  append_assoc,
}
use caelix.Metadata.{ModuleDef, ModuleMetadata}
use caelix.Graph.{ModuleNode}
use caelix.Schedule.{Mark, entered, finished}
use caelix.Schedule.Order.{update_self, update_ne}
use caelix.Schedule.Total.{update-Extends}
use caelix.Discovery.{Found, new_node, enter, leave, position}
use caelix.Discovery.Marks.{other_mark, leave-Well}
use caelix.Discovery.Imports.{
  types, import_types, length-types, get_elem?-middle, Resolves, get_elem?-append_left,
  types-append, types-imports, Good, Good-append, Reaches, direct, through, Well,
}

module _ (metadata_of : ℕ → ModuleMetadata) (u : List ℕ) where
  abbrev pub WellFound : List ℕ → Found → Type 0
  WellFound finish w = Well metadata_of finish (types w.nodes) w.states

  -- The state behind a visit: what was marked stays so, and nothing else is left entered.
  pub record After (w : Found) (finish : List ℕ) (w' : Found) : Type 0 where
    pub more_finish : List ℕ
    pub well : WellFound more_finish w'
    pub extends : (t : ℕ) (m : Mark) → w.states t ≡ some m → w'.states t ≡ some m
    pub left : (t : ℕ) → w'.states t ≡ some entered → w.states t ≡ some entered
    pub growth :
        length more_finish + length (types w.nodes) ≤ length finish + length (types w'.nodes)

  pub record Visited (d : ModuleDef) (w : Found) (finish : List ℕ) (i : ℕ) (w' : Found)
      : Type 0 where
    pub after : After w finish w'
    pub is_finished : w'.states d.type_id ≡ some finished
    pub found_at : get_elem? (types w'.nodes) i ≡ some d.type_id
    pub more : List ModuleNode
    pub appended : w'.nodes ≡ w.nodes ++ more
    pub good : All (Good metadata_of u (types w'.nodes)) more

  pub record Grown (pre : List ModuleNode) (node : ModuleNode) (post : List ModuleNode)
      (ds : List ModuleDef) (w : Found) (finish : List ℕ) (w' : Found) : Type 0 where
    pub after : After w finish w'
    pub are_finished : All (λ d. w'.states d.type_id ≡ some finished) ds
    pub indices : List ℕ
    pub resolved : Resolves (types w'.nodes) indices ds
    pub more : List ModuleNode
    pub appended :
        w'.nodes ≡ pre ++ record node { imports = node.imports ++ indices } ∷ (post ++ more)
    pub good : All (Good metadata_of u (types w'.nodes)) more

  -- Modules that are entered import the module that is visited.
  abbrev pub IsOpen : Found → ℕ → Type 0
  IsOpen w s = (t : ℕ) → w.states t ≡ some entered → Reaches metadata_of t s

  After-trans :
      (w : Found) (finish : List ℕ) (w1 : Found) (a : After w finish w1) (w2 : Found)
      → After w1 a.more_finish w2
      → After w finish w2
  After-trans w finish w1 a w2 b = record {
    more_finish = b.more_finish;
    well = b.well;
    extends = λ t m e. b.extends t m (a.extends t m e);
    left = λ t e. a.left t (b.left t e);
    growth = omega (arith, a.growth, b.growth);
  }

  types-grown :
      (pre : List ModuleNode) (node : ModuleNode) (is : List ℕ) (post more : List ModuleNode)
      → types (pre ++ record node { imports = is } ∷ (post ++ more))
        ≡ types (pre ++ node ∷ post) ++ types more
  types-grown pre node is post more =
      types-imports pre node is (post ++ more)
      ∙ (ap types (sym (append_assoc pre (node ∷ post) more))
          ∙ types-append (pre ++ node ∷ post) more)

  After-same :
      (w v : Found) (finish : List ℕ) (w' : Found)
      → types v.nodes ≡ types w.nodes
      → v.states ≡ w.states
      → After v finish w'
      → After w finish w'
  After-same w v finish w' e f a = record {
    more_finish = a.more_finish;
    well = a.well;
    extends = λ t m h. a.extends t m (subst (λ s. s t ≡ some m) (sym f) h);
    left = λ t h. subst (λ s. s t ≡ some entered) f (a.left t h);
    growth =
        subst (λ ts. length a.more_finish + length ts ≤ length finish + length (types w'.nodes)) e
          a.growth;
  }

  -- A visited import before the others.
  pub Grown-first :
      (pre : List ModuleNode) (node : ModuleNode) (post : List ModuleNode) (d : ModuleDef)
      (ds : List ModuleDef) (w : Found) (finish : List ℕ) (i : ℕ) (w1 : Found)
      (a : Visited d w finish i w1) (w2 w' : Found)
      → w1.nodes ≡ pre ++ node ∷ (post ++ a.more)
      → w2.nodes ≡ pre ++ record node { imports = node.imports ++ i ∷ [] } ∷ (post ++ a.more)
      → w2.states ≡ w1.states
      → Grown pre
          (record node { imports = node.imports ++ i ∷ [] })
          (post ++ a.more)
          ds
          w2
          a.after.more_finish
          w'
      → Grown pre node post (d ∷ ds) w finish w'
  Grown-first pre node post d ds w finish i w1 a w2 w' e1 e2 f b =
      let node2 = record node { imports = node.imports ++ i ∷ [] } in
      let q = post ++ a.more in
      let same : types w2.nodes ≡ types w1.nodes =
        ap types e2 ∙ (types-imports pre node (node.imports ++ i ∷ []) q ∙ sym (ap types e1)) in
      let all : types w'.nodes ≡ types w1.nodes ++ types b.more =
        ap types b.appended
        ∙ (types-grown pre node2 (node2.imports ++ b.indices) q b.more
            ∙ ap (λ l. l ++ types b.more) (ap types (sym e2) ∙ same)) in
      record {
        after =
            After-trans w finish w1 a.after w'
              (After-same w1 w2 a.after.more_finish w' same f b.after);
        are_finished = (
          b.after.extends d.type_id finished
              (subst (λ s. s d.type_id ≡ some finished) (sym f) a.is_finished),
          b.are_finished,
        );
        indices = i ∷ b.indices;
        resolved = (
          subst (λ ts. get_elem? ts i ≡ some d.type_id) (sym all)
              (get_elem?-append_left (types w1.nodes) (types b.more) i a.found_at),
          b.resolved,
        );
        more = a.more ++ b.more;
        appended =
            rw (append_assoc node.imports (i ∷ []) b.indices, append_assoc post a.more b.more) at
              b.appended;
        good =
            All-append (Good metadata_of u (types w'.nodes)) a.more b.more
              (subst (λ ts. All (Good metadata_of u ts) a.more) (sym all)
                (Good-append metadata_of u (types w1.nodes) (types b.more) a.more a.good))
              b.good;
      }

  pub same_state : (w : Found) (finish : List ℕ) → WellFound finish w → After w finish w
  same_state w finish s = record {
    more_finish = finish;
    well = s;
    extends = λ t m e. e;
    left = λ t e. e;
    growth = omega arith;
  }

  pub position-In :
      (nodes : List ModuleNode) (t : ℕ)
      → In t (types nodes)
      → (i : ℕ) × (position nodes t ≡ some i) × (get_elem? (types nodes) i ≡ some t)
  position-In [] t i = absurd i
  position-In (node ∷ nodes) t i = elim (Bool-cases (node.type_id == t)) [
    | inl same ↦ (0, rw same refl, ap some ((==_iff node.type_id t).0 same))
    | inr other ↦ elim i [
      | inl e ↦ cc (rw ((==_iff node.type_id t).1 (sym e)) at other)
      | inr j ↦ let (k, e, f) = position-In nodes t j in (suc k, rw (other, e) refl, f)
    ]
  ]

  pub opened :
      (w : Found) (d : ModuleDef)
      → w.states d.type_id ≡ none
      → IsOpen w d.type_id
      → (s : ℕ) → In s (import_types (metadata_of d.type_id).imports)
      → IsOpen (enter d (metadata_of d.type_id) w) s
  opened w d none_yet o s i t e = elim (Bool-cases (d.type_id == t)) [
    | inl same ↦ subst (λ x. Reaches metadata_of x s) ((==_iff d.type_id t).0 same) (direct i)
    | inr other ↦ through (o t (rw other at e)) i
  ]

  pub All-types :
      (P : ℕ → Type 0) (ds : List ModuleDef)
      → ((s : ℕ) → In s (import_types ds) → P s)
      → All (λ d. P d.type_id) ds
  All-types P [] f = tt
  All-types P (d ∷ ds) f = (f d.type_id (inl refl), All-types P ds (λ s i. f s (inr i)))

  left_open :
      (d : ModuleDef) (w : Found) (finish : List ℕ) (w1 : Found)
      → w.states d.type_id ≡ none
      → WellFound finish w
      → (g : Grown w.nodes
          (new_node d (metadata_of d.type_id))
          []
          (metadata_of d.type_id).imports
          (enter d (metadata_of d.type_id) w)
          finish
          w1)
      → After w finish (leave d w1)
  left_open d w finish w1 none_yet s g =
      let m = metadata_of d.type_id in
      let open_yet : w1.states d.type_id ≡ some entered =
        g.after.extends d.type_id entered (update_self w.states d.type_id entered) in
      record {
        more_finish = d.type_id ∷ g.after.more_finish;
        well =
            leave-Well metadata_of g.after.more_finish (types w1.nodes) w1.states g.after.well d
              open_yet g.are_finished;
        extends = λ t k e.
            update_ne w1.states d.type_id t finished
              (λ f. cc (e, subst (λ x. w.states x ≡ none) f none_yet))
            ∙ g.after.extends t k (update-Extends w.states d.type_id entered none_yet t k e);
        left = λ t e.
            let (ne, e1) = other_mark w1.states d.type_id t finished entered e (λ f. cc f) in
            sym (update_ne w.states d.type_id t entered ne) ∙ g.after.left t e1;
        growth = omega (
          arith,
          g.after.growth,
          length-append (types w.nodes) (d.type_id ∷ []),
          ap length (types-append w.nodes (new_node d m ∷ [])),
        );
      }

  pub visited :
      (d : ModuleDef) (w : Found) (finish : List ℕ) (w1 : Found)
      → w.states d.type_id ≡ none
      → In d.type_id u
      → WellFound finish w
      → Grown w.nodes
          (new_node d (metadata_of d.type_id))
          []
          (metadata_of d.type_id).imports
          (enter d (metadata_of d.type_id) w)
          finish
          w1
      → Visited d w finish (length w.nodes) (leave d w1)
  visited d w finish w1 none_yet known s g =
      let node = record (new_node d (metadata_of d.type_id)) { imports = g.indices } in
      record {
        after = left_open d w finish w1 none_yet s g;
        is_finished = update_self w1.states d.type_id finished;
        found_at =
            rw (g.appended, types-append w.nodes (node ∷ g.more), sym (length-types w.nodes))
              (get_elem?-middle (types w.nodes) (types g.more) d.type_id);
        more = node ∷ g.more;
        appended = g.appended;
        good = ((known, refl, g.resolved), g.good);
      }
