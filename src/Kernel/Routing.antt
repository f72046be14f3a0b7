-- ===== src/Kernel/Routing.antt =====
-- crates/neoncore-kernel/src/routing.rs: the route of a target by its host.
pub mod Matching
pub mod Decide
pub mod Ids
pub mod Nodes
use neon_core_atlas.Cidr.{matches_cidr}
use neon_core_atlas.Kernel.Session.{
  KernelNode, KernelRoutingMode, KernelRuleMatcher, KernelRouteAction, KernelRouteRule,
  KernelRoutingConfig, KernelSession, TargetAddress, domain, domain_suffix, domain_keyword,
}
use neon_core_atlas.Prelude.{
  if◌then◌else◌, ok_or, map_ok, Outcome, ok, Bool, false, ◌&&◌, Option, none, some, List, [], ◌∷◌,
  ◌++◌,
}
use neon_core_atlas.Std.Bytes.{bytes_eq}
use neon_core_atlas.Std.Net.{parse_ip}
use neon_core_atlas.Std.Text.{Text, eq_ignore_ascii_case, ends_with, to_ascii_lowercase, contains}

pub data RouteDecision (Json : Type 0) : Type 0 where
  proxy : KernelNode Json → RouteDecision Json
  direct reject : RouteDecision Json

-- `anyhow!("route references unknown node: {node_id}")`
pub data RouteError : Type 0 where
  unknown_node : Text → RouteError

pub record Router (Json : Type 0) : Type 0 where
  pub selected_node : KernelNode Json
  pub nodes : List (KernelNode Json)
  pub config : KernelRoutingConfig

unfoldable pub matches_host_cidr : Text → Text → Bool
matches_host_cidr host cidr = elim (parse_ip host) [ none ↦ false | some ip ↦ matches_cidr ip cidr ]

unfoldable pub matches_rule : KernelRuleMatcher → TargetAddress → Bool
matches_rule (domain value) target = eq_ignore_ascii_case target.host value
matches_rule (domain_suffix value) target =
    ends_with (to_ascii_lowercase target.host) (to_ascii_lowercase value)
matches_rule (domain_keyword value) target =
    contains (to_ascii_lowercase target.host) (to_ascii_lowercase value)
matches_rule (KernelRuleMatcher.cidr value) target = matches_host_cidr target.host value

-- `rules.iter().filter(|rule| rule.enabled)`, up to the first that matches
unfoldable pub find_rule : TargetAddress → List KernelRouteRule → Option KernelRouteRule
find_rule target [] = none
find_rule target (r ∷ rules) =
    if r.enabled && matches_rule r.matcher target then some r else find_rule target rules

-- `node.id.as_deref() == Some(node_id)`
unfoldable pub has_id : Text → Option Text → Bool
has_id node_id none = false
has_id node_id (some id) = bytes_eq id node_id

module _ {Json : Type 0} where
  -- `Router::new`
  unfoldable pub new_router : KernelSession Json → Router Json
  new_router session = record {
    selected_node = session.selected_node;
    nodes = session.nodes;
    config = session.routing;
  }

  unfoldable pub find_node : Text → List (KernelNode Json) → Option (KernelNode Json)
  find_node node_id [] = none
  find_node node_id (n ∷ nodes) = if has_id node_id n.id then some n else find_node node_id nodes

  unfoldable pub node_for : Router Json → Option Text → Outcome RouteError (KernelNode Json)
  node_for router none = ok router.selected_node
  node_for router (some node_id) =
      ok_or (find_node node_id (router.nodes ++ (router.selected_node ∷ []))) (unknown_node node_id)

  unfoldable pub apply_action :
      Router Json → KernelRouteAction → Outcome RouteError (RouteDecision Json)
  apply_action router KernelRouteAction.direct = ok RouteDecision.direct
  apply_action router KernelRouteAction.reject = ok RouteDecision.reject
  apply_action router (KernelRouteAction.proxy node_id) =
      map_ok RouteDecision.proxy (node_for router node_id)

  unfoldable pub by_rule :
      Router Json → Option KernelRouteRule → Outcome RouteError (RouteDecision Json)
  by_rule router none = ok (RouteDecision.proxy router.selected_node)
  by_rule router (some r) = apply_action router r.action

  unfoldable pub decide_by :
      KernelRoutingMode → Router Json → TargetAddress → Outcome RouteError (RouteDecision Json)
  decide_by KernelRoutingMode.direct router target = ok RouteDecision.direct
  decide_by KernelRoutingMode.global router target = ok (RouteDecision.proxy router.selected_node)
  decide_by KernelRoutingMode.rule router target =
      by_rule router (find_rule target router.config.rules)

  unfoldable pub decide : Router Json → TargetAddress → Outcome RouteError (RouteDecision Json)
  decide router target = decide_by router.config.mode router target
