-- ===== src/Kernel/Routing/Nodes.antt =====
-- The nodes that `Router::decide` of crates/neoncore-kernel/src/routing.rs sends targets to.

use neon_core_atlas.Kernel.Routing.{
  RouteDecision, Router, decide, apply_action, node_for, by_rule, decide_by, unknown_node,
  RouteError,
}
use neon_core_atlas.Kernel.Routing.Decide.{
  First, find_rule-First, find_rule-none, decide-apply_action, Applies,
}
use neon_core_atlas.Kernel.Routing.Ids.{HasId, find_node-First, find_node-none, find_node_first}
use neon_core_atlas.Kernel.Session.{
  KernelNode, KernelRoutingMode, KernelRouteRule, TargetAddress, KernelRouteAction,
}
use neon_core_atlas.Prelude.{
  All, ok, ◌≡◌, some, [], ◌∷◌, ◌++◌, >>=-ok, ok-injective, ok_or-eq-ok, refl, sym, ap, ◌∙◌, inl,
  inr, Option, none, ◌↔◌, subst, ok_or, map_ok, Outcome, err,
}
use neon_core_atlas.Std.Text.{Text}

module _ {Json : Type 0} where
  -- Why a target is sent to a node: the mode, or the first rule that applies, if there is one. A rule that
  -- names a node means the first of the session's with that id, the selected one being the last.
  pub data SentTo (router : Router Json) (target : TargetAddress) (n : KernelNode Json)
      : Type 0 where
    globally :
        router.config.mode ≡ KernelRoutingMode.global
        → router.selected_node ≡ n
        → SentTo router target n
    unmatched :
        router.config.mode ≡ KernelRoutingMode.rule
        → All (λ r. ¬ Applies target r) router.config.rules
        → router.selected_node ≡ n
        → SentTo router target n
    unnamed :
        (r : KernelRouteRule)
        → router.config.mode ≡ KernelRoutingMode.rule
        → First (Applies target) r router.config.rules
        → r.action ≡ KernelRouteAction.proxy none
        → router.selected_node ≡ n
        → SentTo router target n
    named :
        (r : KernelRouteRule) (id : Text)
        → router.config.mode ≡ KernelRoutingMode.rule
        → First (Applies target) r router.config.rules
        → r.action ≡ KernelRouteAction.proxy (some id)
        → First (HasId id) n (router.nodes ++ (router.selected_node ∷ []))
        → SentTo router target n

  proxy-injective : {m n : KernelNode Json} → RouteDecision.proxy m ≡ RouteDecision.proxy n → m ≡ n
  proxy-injective e = cc

  apply_action-SentTo :
      (router : Router Json) (target : TargetAddress) (n : KernelNode Json) (r : KernelRouteRule)
      → router.config.mode ≡ KernelRoutingMode.rule
      → First (Applies target) r router.config.rules
      → (action : KernelRouteAction) → r.action ≡ action
      → apply_action router action ≡ ok (RouteDecision.proxy n)
      → SentTo router target n
  unfolding apply_action node_for
  apply_action-SentTo router target n r mode first (KernelRouteAction.proxy none) a e =
      unnamed r mode first a (proxy-injective (ok-injective e))
  apply_action-SentTo router target n r mode first (KernelRouteAction.proxy (some id)) a e =
      let (m, f, g) = >>=-ok (node_for router (some id)) (λ a. ok (RouteDecision.proxy a)) e in
      let same : m ≡ n = proxy-injective (ok-injective g) in
      named r id mode first a (
        find_node-First id (router.nodes ++ (router.selected_node ∷ [])) n
          (ok_or-eq-ok _ (unknown_node id) m f ∙ ap some same))
  apply_action-SentTo router target n r mode first KernelRouteAction.direct a e = cc
  apply_action-SentTo router target n r mode first KernelRouteAction.reject a e = cc

  decide_by-SentTo :
      (router : Router Json) (target : TargetAddress) (n : KernelNode Json)
      (mode : KernelRoutingMode)
      → router.config.mode ≡ mode
      → decide_by mode router target ≡ ok (RouteDecision.proxy n)
      → SentTo router target n
  unfolding decide_by by_rule
  decide_by-SentTo router target n KernelRoutingMode.global m e =
      globally m (proxy-injective (ok-injective e))
  decide_by-SentTo router target n KernelRoutingMode.direct m e = cc
  decide_by-SentTo router target n KernelRoutingMode.rule m e =
      elim (find_rule-First target router.config.rules) [
        | inl (r, f, first) ↦
            apply_action-SentTo router target n r m first r.action refl
              (ap (by_rule router) (sym f) ∙ e)
        | inr (f, misses) ↦
            unmatched m misses (proxy-injective (ok-injective (ap (by_rule router) (sym f) ∙ e)))
      ]

  SentTo-decide :
      (router : Router Json) (target : TargetAddress) (n : KernelNode Json)
      → SentTo router target n
      → decide router target ≡ ok (RouteDecision.proxy n)
  unfolding decide decide_by by_rule apply_action node_for
  SentTo-decide router target n (globally m s) = rw (m, s)
  SentTo-decide router target n (unmatched m misses s) =
      rw (m, find_rule-none target router.config.rules misses, s)
  SentTo-decide router target n (unnamed r m (before, after, rules, misses, hit) a s) =
      decide-apply_action router target before after r m rules misses hit ∙ rw (a, s)
  SentTo-decide router target n
        (named r id m (before, after, rules, misses, hit) a (b, c, nodes, others, has)) =
      decide-apply_action router target before after r m rules misses hit
      ∙ rw (a, nodes, find_node_first id b c n others has)

  -- The first rule that applies names a node that the session does not have.
  pub record Unresolved (router : Router Json) (target : TargetAddress) (id : Text) : Type 0 where
    pub rule : KernelRouteRule
    pub in_rule_mode : router.config.mode ≡ KernelRoutingMode.rule
    pub first : First (Applies target) rule router.config.rules
    pub names : rule.action ≡ KernelRouteAction.proxy (some id)
    pub absent : All (λ m. ¬ HasId id m) (router.nodes ++ (router.selected_node ∷ []))

  node_for-err :
      (router : Router Json) (i id : Text) (o : Option (KernelNode Json))
      → map_ok RouteDecision.proxy (ok_or o (unknown_node i)) ≡ err (unknown_node id)
      → (o ≡ none) × (i ≡ id)
  node_for-err router i id none e = (refl, cc)
  node_for-err router i id (some m) e = cc

  apply_action-Unresolved :
      (router : Router Json) (target : TargetAddress) (id : Text) (r : KernelRouteRule)
      → router.config.mode ≡ KernelRoutingMode.rule
      → First (Applies target) r router.config.rules
      → (action : KernelRouteAction) → r.action ≡ action
      → apply_action router action ≡ err (unknown_node id)
      → Unresolved router target id
  unfolding apply_action node_for
  apply_action-Unresolved router target id r mode first (KernelRouteAction.proxy none) a e = cc
  apply_action-Unresolved router target id r mode first (KernelRouteAction.proxy (some i)) a e =
      let (f, same) = node_for-err router i id _ e in
      record {
        rule = r;
        in_rule_mode = mode;
        first = first;
        names = a ∙ ap (λ (t : Text). KernelRouteAction.proxy (some t)) same;
        absent =
            subst
              (λ (t : Text). All (λ m. ¬ HasId t m) (router.nodes ++ (router.selected_node ∷ [])))
              same ((find_node-none i (router.nodes ++ (router.selected_node ∷ []))).0 f);
      }
  apply_action-Unresolved router target id r mode first KernelRouteAction.direct a e = cc
  apply_action-Unresolved router target id r mode first KernelRouteAction.reject a e = cc

  decide_by-Unresolved :
      (router : Router Json) (target : TargetAddress) (id : Text) (mode : KernelRoutingMode)
      → router.config.mode ≡ mode
      → decide_by mode router target ≡ err (unknown_node id)
      → Unresolved router target id
  unfolding decide_by by_rule
  decide_by-Unresolved router target id KernelRoutingMode.global m e = cc
  decide_by-Unresolved router target id KernelRoutingMode.direct m e = cc
  decide_by-Unresolved router target id KernelRoutingMode.rule m e =
      elim (find_rule-First target router.config.rules) [
        | inl (r, f, first) ↦
            apply_action-Unresolved router target id r m first r.action refl
              (ap (by_rule router) (sym f) ∙ e)
        | inr (f, misses) ↦ absurd (sent (ap (by_rule router) (sym f) ∙ e))
      ]
    where
      sent :
          {n : KernelNode Json}
          → ◌≡◌ {A = Outcome RouteError (RouteDecision Json)}
              (ok (RouteDecision.proxy n))
              (err (unknown_node id))
          → ⊥
      sent e = cc

  Unresolved-decide :
      (router : Router Json) (target : TargetAddress) (id : Text)
      → Unresolved router target id
      → decide router target ≡ err (unknown_node id)
  unfolding apply_action node_for
  Unresolved-decide router target id u =
      let (before, after, rules, misses, hit) = u.first in
      decide-apply_action router target before after u.rule u.in_rule_mode rules misses hit
      ∙ rw (u.names, (find_node-none id (router.nodes ++ (router.selected_node ∷ []))).1 u.absent)

  -- A target is sent to a node exactly for one of the reasons of `SentTo`: in global mode, and in rule
  -- mode if no enabled rule matches or the first one that does names no node, it is the selected node; if
  -- that rule names a node, it is the first of the session with that id. Deciding gives the error for an
  -- unknown id exactly when that rule names this id and no node of the session has it.
  pub decide-SentTo :
      (router : Router Json) (target : TargetAddress) (n : KernelNode Json) (id : Text)
      → ((decide router target ≡ ok (RouteDecision.proxy n)) ↔ SentTo router target n)
        × ((decide router target ≡ err (unknown_node id)) ↔ Unresolved router target id)
  unfolding decide
  decide-SentTo router target n id = (
    (decide_by-SentTo router target n router.config.mode refl, SentTo-decide router target n),
    (
      decide_by-Unresolved router target id router.config.mode refl,
      Unresolved-decide router target id,
    ),
  )
