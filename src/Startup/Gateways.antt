-- ===== src/Startup/Gateways.antt =====
-- crates/caelix-core/src/module.rs: what `validate_gateway_paths_in_graph` accepts.
use caelix.Prelude.{
  String, ◌≡◌, ◌↔◌, refl, sym, ap, subst, ◌∙◌, inl, inr, Bool, true, false, not, ◌&&◌, ◌||◌, List,
  [], ◌∷◌, ◌++◌, All, Bool-cases, and-eq-true, str_eq, str_eq_iff, starts_with, arith,
}
use caelix.Errors.{
  bad_gateway_path, duplicate_gateway_path, Outcome, done, fail, panicked, out_of_fuel, ◌>>=◌, ◌>>◌,
  fail_if, >>=-eq-done, fail_if-eq-done,
}
use caelix.Metadata.{GatewayDef}
use caelix.Graph.{ModuleNode, ModuleGraph}
use caelix.Startup.{
  is_websocket, same_bool, has_path, validate_gateways, validate_nodes,
  validate_gateway_paths_in_graph,
}

-- The gateways of the modules, in order.
abbrev pub gateways_of : List ModuleNode → List GatewayDef
gateways_of [] = []
gateways_of (node ∷ nodes) = node.metadata.gateways ++ gateways_of nodes

abbrev pub Rooted : GatewayDef → Type 0
Rooted a = starts_with b'/' a.path ≡ true

abbrev pub SamePlace : GatewayDef → GatewayDef → Type 0
SamePlace a b = (a.path ≡ b.path) × (is_websocket a ≡ is_websocket b)

-- No later gateway has the path and the transport of an earlier one.
abbrev pub Apart : List GatewayDef → Type 0
Apart [] = Unit
Apart (a ∷ bs) = All (λ b. SamePlace a b → ⊥) bs × Apart bs

same_bool_refl : (b : Bool) → same_bool b b ≡ true
same_bool_refl true = refl
same_bool_refl false = refl

same_bool-eq : (a b : Bool) → same_bool a b ≡ true → a ≡ b
same_bool-eq true b e = sym e
same_bool-eq false true e = cc e
same_bool-eq false false e = refl

-- The gateways that the set of paths lets pass.
abbrev Free : List (String × Bool) → List GatewayDef → Type 0
Free paths gs = All (λ b. has_path paths b.path (is_websocket b) ≡ false) gs

abbrev with_gateway : GatewayDef → List (String × Bool) → List (String × Bool)
with_gateway a paths = (a.path, is_websocket a) ∷ paths

false_of_or : (a b : Bool) → (a || b) ≡ false → (a ≡ false) × (b ≡ false)
false_of_or a b h = ground arith

same_place : GatewayDef → GatewayDef → Bool
same_place a b = str_eq a.path b.path && same_bool (is_websocket a) (is_websocket b)

same_place-SamePlace : (a b : GatewayDef) → same_place a b ≡ true → SamePlace a b
unfolding same_place
same_place-SamePlace a b e =
    let (p, w) =
      and-eq-true (str_eq a.path b.path) (same_bool (is_websocket a) (is_websocket b)) e in
    ((str_eq_iff a.path b.path).0 p, same_bool-eq (is_websocket a) (is_websocket b) w)

SamePlace-same_place : (a b : GatewayDef) → SamePlace a b → same_place a b ≡ true
unfolding same_place
SamePlace-same_place a b (p, w) =
    let e : str_eq a.path b.path ≡ true = (str_eq_iff a.path b.path).1 p in
    let f : same_bool (is_websocket a) (is_websocket b) ≡ true =
      subst (λ x. same_bool (is_websocket a) x ≡ true) w (same_bool_refl (is_websocket a)) in
    rw (e, f)

Free-with_gateway :
    (a : GatewayDef) (paths : List (String × Bool)) (gs : List GatewayDef)
    → Free (with_gateway a paths) gs
    → All (λ b. SamePlace a b → ⊥) gs × Free paths gs
unfolding same_place
Free-with_gateway a paths [] h = (tt, tt)
Free-with_gateway a paths (b ∷ bs) (e, h) =
    let (ne, rest) = false_of_or (same_place a b) (has_path paths b.path (is_websocket b)) e in
    let (apart, free) = Free-with_gateway a paths bs h in
    (((λ s. cc (ne, SamePlace-same_place a b s)), apart), (rest, free))

with_gateway-Free :
    (a : GatewayDef) (paths : List (String × Bool)) (gs : List GatewayDef)
    → All (λ b. SamePlace a b → ⊥) gs
    → Free paths gs
    → Free (with_gateway a paths) gs
unfolding same_place
with_gateway-Free a paths [] h k = tt
with_gateway-Free a paths (b ∷ bs) (n, h) (e, k) =
    let ne : same_place a b ≡ false = elim (Bool-cases (same_place a b)) [
      | inl s ↦ absurd (n (same_place-SamePlace a b s))
      | inr s ↦ s
    ] in
    (rw (ne, e), with_gateway-Free a paths bs h k)

not-eq-false : (a : Bool) → not a ≡ false → a ≡ true
not-eq-false a h = ground arith

validate_gateways_sound :
    (paths rest : List (String × Bool)) (gs : List GatewayDef)
    → validate_gateways paths gs ≡ done rest
    → All Rooted gs × Free paths gs × Apart gs
unfolding validate_gateways
validate_gateways_sound paths rest [] e = (tt, tt, tt)
validate_gateways_sound paths rest (a ∷ gs) e =
    let slash = starts_with b'/' a.path in
    let taken = has_path paths a.path (is_websocket a) in
    let next = validate_gateways (with_gateway a paths) gs in
    let (u, e1, r1) =
      >>=-eq-done (fail_if (not slash) (bad_gateway_path a.path))
        (λ _. fail_if taken (duplicate_gateway_path a.path) >> next) e in
    let (v, e2, r2) = >>=-eq-done (fail_if taken (duplicate_gateway_path a.path)) (λ _. next) r1 in
    let (s, f, d) = validate_gateways_sound (with_gateway a paths) rest gs r2 in
    let (apart, free) = Free-with_gateway a paths gs f in
    (
      (not-eq-false slash (fail_if-eq-done (not slash) (bad_gateway_path a.path) e1), s),
      (fail_if-eq-done taken (duplicate_gateway_path a.path) e2, free),
      (apart, d),
    )

validate_gateways_complete :
    (paths : List (String × Bool)) (gs : List GatewayDef)
    → All Rooted gs
    → Free paths gs
    → Apart gs
    → (rest : List (String × Bool)) × (validate_gateways paths gs ≡ done rest)
unfolding validate_gateways
validate_gateways_complete paths [] s f d = (paths, refl)
validate_gateways_complete paths (a ∷ gs) (e, s) (f, fs) (d, ds) =
    let (rest, r) =
      validate_gateways_complete (with_gateway a paths) gs s (with_gateway-Free a paths gs d fs)
        ds in
    (rest, rw (e, f) r)

validate_gateways-concat :
    (paths : List (String × Bool)) (xs ys : List GatewayDef)
    → validate_gateways paths (xs ++ ys)
      ≡ (validate_gateways paths xs >>= λ q. validate_gateways q ys)
unfolding validate_gateways
validate_gateways-concat paths [] ys = refl
validate_gateways-concat paths (a ∷ xs) ys = elim (Bool-cases (starts_with b'/' a.path)) [
  | inl s ↦ elim (Bool-cases (has_path paths a.path (is_websocket a))) [
    | inl t ↦ rw (s, t)
    | inr t ↦ rw (s, t) (validate_gateways-concat (with_gateway a paths) xs ys)
  ]
  | inr s ↦ rw s
]

validate_nodes-flat :
    (paths : List (String × Bool)) (nodes : List ModuleNode)
    → validate_nodes paths nodes ≡ (validate_gateways paths (gateways_of nodes) >>= λ _. done tt)
unfolding validate_nodes validate_gateways
validate_nodes-flat paths [] = refl
validate_nodes-flat paths (node ∷ nodes) =
    after (λ q. validate_nodes-flat q nodes) (validate_gateways paths node.metadata.gateways)
    ∙ ap (λ m. m >>= λ _. done tt)
        (sym (validate_gateways-concat paths node.metadata.gateways (gateways_of nodes)))
  where
    after :
        ((q : List (String × Bool))
          → validate_nodes q nodes ≡ (validate_gateways q (gateways_of nodes) >>= λ _. done tt))
        → (m : Outcome (List (String × Bool)))
        → (m >>= λ q. validate_nodes q nodes)
          ≡ ((m >>= λ q. validate_gateways q (gateways_of nodes)) >>= λ _. done tt)
    after flat (done q) = flat q
    after flat (fail e) = refl
    after flat panicked = refl
    after flat out_of_fuel = refl

All-Free : (gs : List GatewayDef) → Free [] gs
All-Free [] = tt
All-Free (a ∷ gs) = (refl, All-Free gs)

-- Gateway paths are accepted exactly when each starts with `/` and no two gateways of the graph share
-- both their path and their kind of transport.
pub validate_gateway_paths_iff :
    (g : ModuleGraph)
    → (validate_gateway_paths_in_graph g ≡ done tt)
      ↔ (All Rooted (gateways_of g.nodes) × Apart (gateways_of g.nodes))
unfolding validate_gateway_paths_in_graph
validate_gateway_paths_iff g =
    let gs = gateways_of g.nodes in
    let flat = validate_nodes-flat [] g.nodes in
    (
      (λ e.
          let (rest, r, _) = >>=-eq-done (validate_gateways [] gs) (λ _. done tt) (sym flat ∙ e) in
          let (s, f, d) = validate_gateways_sound [] rest gs r in (s, d)),
      (λ p.
          let (rest, r) = validate_gateways_complete [] gs p.0 (All-Free gs) p.1 in
          flat ∙ ap (λ m. m >>= λ _. done tt) r),
    )
