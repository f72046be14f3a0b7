-- ===== src/Tests/Kernel.antt =====
-- The theorems on routing, name resolution and SOCKS in the kernel, at concrete inputs.
use neon_core_atlas.Kernel.Routing.{
  decide, Router, RouteDecision, apply_action, matches_rule, decide_by, by_rule, node_for,
  find_node, has_id, find_rule, unknown_node,
}
use neon_core_atlas.Kernel.Routing.Decide.{Applies, decide-apply_action}
use neon_core_atlas.Kernel.Routing.Matching.{Accepts, matches_rule_iff}
use neon_core_atlas.Kernel.Routing.Nodes.{decide-SentTo, SentTo, Unresolved}
use neon_core_atlas.Kernel.Session.{
  KernelNode, KernelRouteRule, KernelRuleMatcher, KernelRouteAction, KernelRoutingMode,
  TargetAddress,
}
use neon_core_atlas.Prelude.{All, ok, ◌≡◌, refl, ◌↔◌, true, some, [], ◌∷◌, err}
use neon_core_atlas.Std.Bytes.{bytes_eq}
use neon_core_atlas.Std.Text.{ends_with, lower_byte, Text, ascii}

abbrev node : Text → KernelNode (Unit {0})
node name = record {
  id = some name;
  protocol = ascii "direct";
  server = name;
  server_port = 443;
  user_id = [];
  parameters = tt;
}

abbrev rule_on : Text → Text → KernelRouteRule
rule_on suffix to = record {
  id = suffix;
  matcher = KernelRuleMatcher.domain_suffix suffix;
  action = KernelRouteAction.proxy (some to);
  enabled = true;
}

abbrev router : Router (Unit {0})
router = record {
  selected_node = node (ascii "a");
  nodes = node (ascii "b") ∷ [];
  config = record {
    mode = KernelRoutingMode.rule;
    rules = rule_on (ascii ".net") (ascii "a") ∷ rule_on (ascii ".org") (ascii "b") ∷ [];
  };
}

abbrev site : TargetAddress
site = record { host = ascii "X.ORG"; port = 443 }

misses : All (λ q. ¬ Applies site q) (rule_on (ascii ".net") (ascii "a") ∷ [])
unfolding matches_rule ends_with bytes_eq lower_byte
misses = ((λ h. cc), tt)

hits : Applies site (rule_on (ascii ".org") (ascii "b"))
unfolding matches_rule ends_with bytes_eq lower_byte
hits = (refl, refl)

decide-apply_action_example :
    decide router site ≡ apply_action router (KernelRouteAction.proxy (some (ascii "b")))
decide-apply_action_example =
    decide-apply_action router site (rule_on (ascii ".net") (ascii "a") ∷ []) []
      (rule_on (ascii ".org") (ascii "b")) refl refl misses hits

to_b : decide router site ≡ ok (RouteDecision.proxy (node (ascii "b")))
unfolding decide decide_by by_rule apply_action node_for find_node has_id find_rule matches_rule
    ends_with bytes_eq lower_byte
to_b = refl

reason_b : SentTo router site (node (ascii "b"))
reason_b = (decide-SentTo router site (node (ascii "b")) (ascii "b")).0.0 to_b

decide-SentTo_example :
    ((decide router site ≡ ok (RouteDecision.proxy (node (ascii "b"))))
      ↔ SentTo router site (node (ascii "b")))
    × ((decide router site ≡ err (unknown_node (ascii "b"))) ↔ Unresolved router site (ascii "b"))
decide-SentTo_example = decide-SentTo router site (node (ascii "b")) (ascii "b")

matches_rule_iff_example :
    (matches_rule (KernelRuleMatcher.domain_keyword (ascii "rg")) site ≡ true)
    ↔ Accepts (KernelRuleMatcher.domain_keyword (ascii "rg")) site.host
matches_rule_iff_example = matches_rule_iff (KernelRuleMatcher.domain_keyword (ascii "rg")) site
