-- ===== src/Routing/Decide.antt =====
-- What `RoutingTable::decide` of crates/neoncore-routing/src/lib.rs promises.

use neon_core_atlas.IpStack.{Flow}
use neon_core_atlas.Prelude.{
  if◌then◌else◌, All, ◌≡◌, refl, ap, true, none, some, List, [], ◌∷◌, ◌++◌, arith,
}
use neon_core_atlas.Routing.{
  RoutingMode, RouteAction, RoutingRule, matches_rule, find_rule, decide, rule_action, proxy,
}

-- An enabled rule whose matcher holds for the flow.
abbrev pub Applies : Flow → RoutingRule → Type 0
Applies flow r = (r.enabled ≡ true) × (matches_rule r.matcher flow ≡ true)

find_rule-first :
    (flow : Flow) (before after : List RoutingRule) (r : RoutingRule)
    → All (λ q. ¬ Applies flow q) before
    → Applies flow r
    → find_rule flow (before ++ (r ∷ after)) ≡ some r
unfolding find_rule
find_rule-first flow [] after r none_before hit = rw (hit.0, hit.1)
find_rule-first flow (q ∷ before) after r (miss, misses) hit =
    ground (arith, find_rule-first flow before after r misses hit, miss')
  where
    miss' : (q.enabled ≡ true) → (matches_rule q.matcher flow ≡ true) → ⊥
    miss' e m = miss (e, m)

find_rule-none :
    (flow : Flow) (rules : List RoutingRule)
    → All (λ q. ¬ Applies flow q) rules
    → find_rule flow rules ≡ none
unfolding find_rule
find_rule-none flow [] h = refl
find_rule-none flow (q ∷ rules) (miss, misses) =
    ground (arith, find_rule-none flow rules misses, miss')
  where
    miss' : (q.enabled ≡ true) → (matches_rule q.matcher flow ≡ true) → ⊥
    miss' e m = miss (e, m)

-- In rule mode the first rule that applies decides: rules before it that are disabled or do not match
-- do not count, and neither does anything behind it.
pub decide-first :
    (flow : Flow) (before after : List RoutingRule) (r : RoutingRule)
    → All (λ q. ¬ Applies flow q) before
    → Applies flow r
    → decide (record { mode = RoutingMode.rule; rules = before ++ (r ∷ after) }) flow ≡ r.action
unfolding decide
decide-first flow before after r misses hit = rw (find_rule-first flow before after r misses hit)

-- A flow to which no rule applies goes to the proxy in rule mode and in global mode, and direct in direct
-- mode.
pub decide_otherwise :
    (flow : Flow) (rules : List RoutingRule)
    → All (λ q. ¬ Applies flow q) rules
    → (decide (record { mode = RoutingMode.rule; rules = rules }) flow ≡ proxy)
      × (decide (record { mode = RoutingMode.global; rules = rules }) flow ≡ proxy)
      × (decide (record { mode = RoutingMode.direct; rules = rules }) flow ≡ RouteAction.direct)
unfolding decide
decide_otherwise flow rules misses = (rw (find_rule-none flow rules misses), refl, refl)

-- The rules without the disabled ones.
abbrev pub enabled_rules : List RoutingRule → List RoutingRule
enabled_rules [] = []
enabled_rules (r ∷ rules) = if r.enabled then r ∷ enabled_rules rules else enabled_rules rules

find_rule-enabled :
    (flow : Flow) (rules : List RoutingRule)
    → find_rule flow (enabled_rules rules) ≡ find_rule flow rules
unfolding find_rule
find_rule-enabled flow [] = refl
find_rule-enabled flow (r ∷ rules) = ground (arith, find_rule-enabled flow rules)

-- Removing the disabled rules changes no decision, in any mode.
pub decide-enabled_rules :
    (mode : RoutingMode) (flow : Flow) (rules : List RoutingRule)
    → decide (record { mode = mode; rules = enabled_rules rules }) flow
      ≡ decide (record { mode = mode; rules = rules }) flow
unfolding decide
decide-enabled_rules RoutingMode.global flow rules = refl
decide-enabled_rules RoutingMode.rule flow rules = ap rule_action (find_rule-enabled flow rules)
decide-enabled_rules RoutingMode.direct flow rules = refl
