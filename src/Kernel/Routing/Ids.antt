-- ===== src/Kernel/Routing/Ids.antt =====
-- How `Router::node_for` of crates/neoncore-kernel/src/routing.rs finds a node by its id.

use neon_core_atlas.Kernel.Routing.{find_node, has_id}
use neon_core_atlas.Kernel.Routing.Decide.{First, First-cons}
use neon_core_atlas.Kernel.Session.{KernelNode}
use neon_core_atlas.Prelude.{
  All, ◌≡◌, true, some, List, [], ◌∷◌, ◌++◌, Bool-cases, refl, sym, ap, ◌∙◌, inl, inr, Option, none,
  some_eq, ◌↔◌, Bool, false,
}
use neon_core_atlas.Std.Bytes.{bytes_eq_iff}
use neon_core_atlas.Std.Text.{Text}

has_id→eq : (id : Text) (o : Option Text) → has_id id o ≡ true → o ≡ some id
unfolding has_id
has_id→eq id none e = cc
has_id→eq id (some i) e = ap some ((bytes_eq_iff i id).0 e)

eq→has_id : (id : Text) (o : Option Text) → o ≡ some id → has_id id o ≡ true
unfolding has_id
eq→has_id id none e = cc
eq→has_id id (some i) e = (bytes_eq_iff i id).1 (some_eq e)

module _ {Json : Type 0} where
  -- The node has this id.
  abbrev pub HasId : Text → KernelNode Json → Type 0
  HasId id n = n.id ≡ some id

  pub find_node-First :
      (id : Text) (nodes : List (KernelNode Json)) (n : KernelNode Json)
      → find_node id nodes ≡ some n
      → First (HasId id) n nodes
  unfolding find_node
  find_node-First id [] n e = cc
  find_node-First id (m ∷ nodes) n e = elim (Bool-cases (has_id id m.id)) [
    | inl hit ↦
        let same : m ≡ n = some_eq (rw hit at e) in
        (
          [],
          nodes,
          ap (λ (k : KernelNode Json). k ∷ nodes) same,
          tt,
          ap (λ (k : KernelNode Json). k.id) (sym same) ∙ has_id→eq id m.id hit,
        )
    | inr miss ↦
        First-cons (HasId id) n m nodes (λ h. other (sym (eq→has_id id m.id h) ∙ miss))
          (find_node-First id nodes n (rw miss at e))
  ]
    where
      other : ◌≡◌ {A = Bool} true false → ⊥
      other e = cc

  pub find_node_first :
      (id : Text) (before after : List (KernelNode Json)) (n : KernelNode Json)
      → All (λ m. ¬ HasId id m) before
      → HasId id n
      → find_node id (before ++ (n ∷ after)) ≡ some n
  unfolding find_node
  find_node_first id [] after n misses hit = rw (eq→has_id id n.id hit)
  find_node_first id (m ∷ before) after n (miss, misses) hit = elim (Bool-cases (has_id id m.id)) [
    | inl h ↦ absurd (miss (has_id→eq id m.id h))
    | inr h ↦ rw h (find_node_first id before after n misses hit)
  ]

  pub find_node-none :
      (id : Text) (nodes : List (KernelNode Json))
      → (find_node id nodes ≡ none) ↔ All (λ m. ¬ HasId id m) nodes
  unfolding find_node
  find_node-none id [] = (λ e. tt, λ h. refl)
  find_node-none id (m ∷ nodes) = elim (Bool-cases (has_id id m.id)) [
    | inl hit ↦
        (λ e. absurd (found (rw hit at e)), λ (miss, misses). absurd (miss (has_id→eq id m.id hit)))
    | inr miss ↦ (
      λ e. (
        λ h. other (sym (eq→has_id id m.id h) ∙ miss),
        (find_node-none id nodes).0 (rw miss at e),
      ),
      λ (h, misses). rw miss ((find_node-none id nodes).1 misses),
    )
  ]
    where
      found : ◌≡◌ {A = Option (KernelNode Json)} (some m) none → ⊥
      found e = cc

      other : ◌≡◌ {A = Bool} true false → ⊥
      other e = cc
