-- ===== src/Discovery/Result.antt =====
-- crates/caelix-core/src/module.rs: the result of `discover_from`.
use caelix.Visibility.Sets.{AreBelow, AreInBounds}
use caelix.Prelude.{
  length_of_get_elem?, length-append, ◌+◌, ℕ, zero, suc, ◌<◌, ◌≤◌, ◌≡◌, refl, sym, subst, ap, ◌∙◌,
  inl, inr, Option, none, some, List, [], ◌∷◌, ◌++◌, append_assoc, arith, length, get_elem?, set,
  In, In-append_right, All, AllDistinct,
}
use caelix.Errors.{done, Returns}
use caelix.Metadata.{ModuleDef, ModuleMetadata}
use caelix.Graph.{ModuleNode, ModuleGraph}
use caelix.Schedule.Total.{count_open-le-length}
use caelix.Discovery.{
  Found, nothing_found, visit, remap_from, rebuild, slots_of, in_order, discover_from,
  validate_controllers,
}
use caelix.Discovery.Imports.{Resolves, types, length-types, Ends, Ends-bind, Good, IsReason}
use caelix.Discovery.Visited.{Visited}
use caelix.Discovery.Visit.{visit-Visits}
use caelix.Discovery.Placed.{AreOrdered}
use caelix.Discovery.Order.{All-at, order-ends}
use caelix.Discovery.Rebuilt.{
  IsRemap, remap_from-IsRemap, later_absent, set_other, In-index, at_injective, ArePaired,
  paired_concat, paired_In, remapped,
}

-- Each node is of a module of `u`, has the metadata that the module declares and a type that no earlier
-- node has, and its imports are the earlier nodes of the modules that the metadata imports.
abbrev pub AreImported : (ℕ → ModuleMetadata) → (u earlier : List ℕ) → List ModuleNode → Type 0
AreImported metadata_of u earlier [] = Unit
AreImported metadata_of u earlier (node ∷ nodes) =
    Good metadata_of u earlier node
    × (In node.type_id earlier → ⊥)
    × AreImported metadata_of u (earlier ++ node.type_id ∷ []) nodes

-- The slots of the indices have their nodes yet.
abbrev AreLeft : List ModuleNode → List ℕ → List (Option ModuleNode) → Type 0
AreLeft nodes js slots =
    (j : ℕ) (node : ModuleNode)
    → In j js
    → get_elem? nodes j ≡ some node
    → get_elem? slots j ≡ some (some node)

slots_of-AreLeft : (nodes : List ModuleNode) (js : List ℕ) → AreLeft nodes js (slots_of nodes)
slots_of-AreLeft nodes js j node i e = slot nodes j node e
  where
    slot :
        (nodes : List ModuleNode) (j : ℕ) (node : ModuleNode)
        → get_elem? nodes j ≡ some node
        → get_elem? (slots_of nodes) j ≡ some (some node)
    slot [] j node e = cc e
    slot (n ∷ nodes) zero node e = ap some e
    slot (n ∷ nodes) (suc j) node e = slot nodes j node e

type_at :
    (nodes : List ModuleNode) (i : ℕ) (node : ModuleNode)
    → get_elem? nodes i ≡ some node
    → get_elem? (types nodes) i ≡ some node.type_id
type_at [] i node e = cc e
type_at (n ∷ nodes) zero node e = let same : n ≡ node = cc e in ap (λ n. some n.type_id) same
type_at (n ∷ nodes) (suc i) node e = type_at nodes i node e

module _ (metadata_of : ℕ → ModuleMetadata) (u : List ℕ) (nodes : List ModuleNode)
    (remap : ℕ → Option ℕ) (good : All (Good metadata_of u (types nodes)) nodes)
    (distinct : AllDistinct (types nodes)) where
  rebuild-AreImported :
      (earlier js us : List ℕ) (slots : List (Option ModuleNode))
      → IsRemap remap (earlier ++ js)
      → AreOrdered nodes earlier js
      → ArePaired (types nodes) us earlier
      → AreLeft nodes js slots
      → (result : List ModuleNode) × (rebuild remap js slots ≡ done result)
        × AreImported metadata_of u us result
        × ((j t : ℕ) → In j js → get_elem? (types nodes) j ≡ some t → In t (types result))
  unfolding rebuild
  rebuild-AreImported earlier [] us slots m a p l = ([], refl, tt, λ j t i e. absurd i)
  rebuild-AreImported earlier (x ∷ js) us slots m ((node, e, behind, new), a) p l =
      let (known, declared, resolved) =
        All-at (Good metadata_of u (types nodes)) nodes x node good e in
      let at = type_at nodes x node e in
      let (ks, f, r) =
        remapped (types nodes) us earlier (x ∷ js) remap node.imports
          (metadata_of node.type_id).imports p m behind resolved in
      let left : AreLeft nodes js (set slots x none) = λ j n i g.
        set_other slots x j none (λ same.
          later_absent nodes (earlier ++ x ∷ []) js j a
            (In-append_right j earlier (x ∷ []) (inl (sym same))) i)
        ∙ l j n (inr i) g in
      let (rest, g, imported, listed) =
        rebuild-AreImported (earlier ++ x ∷ []) js (us ++ node.type_id ∷ []) (set slots x none)
          (rw (append_assoc earlier (x ∷ []) js) m) a
          (paired_concat (types nodes) us earlier node.type_id x p at) left in
      (
        record node { imports = ks } ∷ rest,
        rw (l x node (inl refl) e, f, g) refl,
        (
          (known, declared, r),
          (λ i.
              let (j, k, h) = paired_In (types nodes) us earlier node.type_id p i in
              new (
                subst (λ y. In y earlier)
                  (at_injective (types nodes) j x node.type_id distinct h at) k)),
          imported,
        ),
        (λ j t i h. elim i [
          | inl same ↦ inl (cc (h, at, ap (get_elem? (types nodes)) same))
          | inr k ↦ inr (listed j t k h)
        ]),
      )

-- Modules of `u`, each behind its imports, and the root among them.
abbrev pub IsGraph : (ℕ → ModuleMetadata) → List ℕ → ModuleDef → ModuleGraph → Type 0
IsGraph metadata_of u root g =
    AreImported metadata_of u [] g.nodes × In root.type_id (types g.nodes)

module _ (metadata_of : ℕ → ModuleMetadata) (u : List ℕ)
    (closed : (t : ℕ) → In t u → All (λ d. In d.type_id u) (metadata_of t).imports)
    (valid : (t : ℕ) → In t u → Returns (validate_controllers (metadata_of t).controllers)) where
  in_order-IsGraph :
      (root : ModuleDef) (i : ℕ) (w : Found)
      → Visited metadata_of u root nothing_found [] i w
      → (g : ModuleGraph) × (in_order w.nodes i ≡ done g) × IsGraph metadata_of u root g
  unfolding in_order
  in_order-IsGraph root i w v =
      let well = v.after.well in
      let good = subst (λ l. All (Good metadata_of u (types w.nodes)) l) (sym v.appended) v.good in
      let fits : length v.after.more_finish ≤ length w.nodes =
        omega (arith, v.after.growth, length-types w.nodes) in
      let (p, e, a, there) =
        order-ends w.nodes metadata_of u good v.after.more_finish i root.type_id well.sorted fits
          v.found_at (well.finished_in root.type_id v.is_finished) in
      let remap = remap_from 0 p.ordered (λ _. none) in
      let is_remap : IsRemap remap p.ordered = remap_from-IsRemap w.nodes p.ordered a in
      let (result, f, imported, listed) =
        rebuild-AreImported metadata_of u w.nodes remap good well.distinct [] p.ordered []
          (slots_of w.nodes) is_remap a tt (slots_of-AreLeft w.nodes p.ordered) in
      let (k, at) = In-index p.ordered i there in
      (
        record { nodes = result },
        rw (e, f, is_remap k i at) refl,
        (imported, listed i root.type_id there v.found_at),
      )

resolved_below :
    (ts is : List ℕ) (ds : List ModuleDef) (n : ℕ)
    → Resolves ts is ds
    → length ts ≤ n
    → AreBelow n is
resolved_below ts [] ds n r h = tt
resolved_below ts (i ∷ is) [] n r h = absurd r
resolved_below ts (i ∷ is) (d ∷ ds) n (e, r) h =
    let below = length_of_get_elem? ts i d.type_id e in
    (omega (arith, below, h), resolved_below ts is ds n r h)

AreImported-AreBelow :
    (metadata_of : ℕ → ModuleMetadata) (u earlier : List ℕ) (nodes : List ModuleNode) (n : ℕ)
    → AreImported metadata_of u earlier nodes
    → length earlier + length nodes ≤ n
    → All (λ node. AreBelow n node.imports) nodes
AreImported-AreBelow metadata_of u earlier [] n a h = tt
AreImported-AreBelow metadata_of u earlier (node ∷ nodes) n ((i, m, r), fresh, a) h = (
  resolved_below earlier node.imports (metadata_of node.type_id).imports n r (omega arith),
  AreImported-AreBelow metadata_of u (earlier ++ node.type_id ∷ []) nodes n a
      (omega (arith, length-append earlier (node.type_id ∷ []))),
)

-- The imports of a graph that discovery makes are modules of the graph.
pub IsGraph-AreInBounds :
    (metadata_of : ℕ → ModuleMetadata) (u : List ℕ) (root : ModuleDef) (g : ModuleGraph)
    → IsGraph metadata_of u root g
    → AreInBounds g
IsGraph-AreInBounds metadata_of u root g (a, there) =
    AreImported-AreBelow metadata_of u [] g.nodes (length g.nodes) a (omega arith)

-- For a root in a finite set of module types that is closed under imports, of which the least has the
-- modules that the root reaches, where the routes of no controller panic: with fuel beyond the size of
-- the set discovery ends, with a graph that has the root, in which each module is of the set, stands
-- once, behind its imports, and has its declared metadata; or with an error, which is that a module of
-- the set imports itself, directly or not, or that the routes of one of its controllers are refused.
pub discover_from-Ends :
    (metadata_of : ℕ → ModuleMetadata) (u : List ℕ) (fuel : ℕ) (root : ModuleDef)
    → ((t : ℕ) → In t u → All (λ d. In d.type_id u) (metadata_of t).imports)
    → ((t : ℕ) → In t u → Returns (validate_controllers (metadata_of t).controllers))
    → In root.type_id u
    → length u < fuel
    → Ends
        (IsReason metadata_of u)
        (discover_from metadata_of fuel root)
        (IsGraph metadata_of u root)
unfolding discover_from
discover_from-Ends metadata_of u fuel root closed valid i h =
    Ends-bind (IsReason metadata_of u) (λ (j, w). Visited metadata_of u root nothing_found [] j w)
      (IsGraph metadata_of u root) (visit metadata_of fuel root nothing_found) _
      (visit-Visits metadata_of u closed valid fuel root nothing_found []
        (record {
          distinct = tt;
          listed = λ t m e. cc e;
          marked = λ t k. absurd k;
          sorted = tt;
          finished_in = λ t e. cc e;
          in_finished = λ t k. absurd k;
        })
        i (λ t e. cc e) (omega (arith, count_open-le-length u nothing_found.states, h)))
      (λ (j, w) v.
        let (g, e, graph) = in_order-IsGraph metadata_of u closed valid root j w v in rw e graph)
