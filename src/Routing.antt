-- ===== src/Routing.antt =====
-- crates/neoncore-routing/src/lib.rs: the rule table of the packet path.
pub mod Decide
use neon_core_atlas.Cidr.{matches_cidr}
use neon_core_atlas.IpStack.{FlowProtocol, Flow}
use neon_core_atlas.Prelude.{
  ◌==◌, if◌then◌else◌, Bool, true, false, ◌&&◌, Option, none, some, List, ◌∷◌, ℕ, [],
}
use neon_core_atlas.Std.Net.{IpAddr, ip_eq}
use neon_core_atlas.Std.Text.{Text}

pub data RoutingMode : Type 0 where
  global rule direct : RoutingMode

pub data RouteProtocol : Type 0 where
  tcp udp : RouteProtocol

pub data RouteMatcher : Type 0 where
  ip : IpAddr → RouteMatcher
  cidr : Text → RouteMatcher
  port : ℕ → RouteMatcher
  protocol : RouteProtocol → RouteMatcher

pub data RouteAction : Type 0 where
  proxy direct reject : RouteAction

pub record RoutingRule : Type 0 where
  pub id : Text
  pub matcher : RouteMatcher
  pub action : RouteAction
  pub enabled : Bool

pub record RoutingTable : Type 0 where
  pub mode : RoutingMode
  pub rules : List RoutingRule

unfoldable pub same_protocol : RouteProtocol → FlowProtocol → Bool
same_protocol RouteProtocol.tcp FlowProtocol.tcp = true
same_protocol RouteProtocol.tcp FlowProtocol.udp = false
same_protocol RouteProtocol.udp FlowProtocol.tcp = false
same_protocol RouteProtocol.udp FlowProtocol.udp = true

unfoldable pub matches_rule : RouteMatcher → Flow → Bool
unfolding ip_eq matches_cidr same_protocol
matches_rule (ip value) flow = ip_eq flow.destination.address value
matches_rule (cidr value) flow = matches_cidr flow.destination.address value
matches_rule (port value) flow = flow.destination.port == value
matches_rule (protocol value) flow = same_protocol value flow.protocol

-- `rules.iter().filter(|rule| rule.enabled).find(…)`
unfoldable pub find_rule : Flow → List RoutingRule → Option RoutingRule
find_rule flow [] = none
find_rule flow (r ∷ rules) =
    if r.enabled && matches_rule r.matcher flow then some r else find_rule flow rules

unfoldable pub rule_action : Option RoutingRule → RouteAction
rule_action none = proxy
rule_action (some r) = r.action

unfoldable pub decide_by : RoutingMode → List RoutingRule → Flow → RouteAction
unfolding rule_action
decide_by RoutingMode.direct rules flow = RouteAction.direct
decide_by RoutingMode.global rules flow = proxy
decide_by RoutingMode.rule rules flow = rule_action (find_rule flow rules)

unfoldable pub decide : RoutingTable → Flow → RouteAction
unfolding decide_by
decide table flow = decide_by table.mode table.rules flow
