-- ===== src/Kernel/Routing/Decide.antt =====
-- What `Router::decide` of crates/neoncore-kernel/src/routing.rs promises.

use neon_core_atlas.Kernel.Routing.{
  Router, matches_rule, find_rule, decide, apply_action, by_rule, decide_by,
}
use neon_core_atlas.Kernel.Session.{KernelRoutingMode, KernelRouteRule, TargetAddress}
use neon_core_atlas.Prelude.{
  All, ◌≡◌, true, some, List, [], ◌∷◌, ◌++◌, arith, Bool-cases, refl, ap, ◌∙◌, inl, inr, none, ◌⊎◌,
  false, ◌&&◌,
}

abbrev pub Applies : TargetAddress → KernelRouteRule → Type 0
Applies target r = (r.enabled ≡ true) × (matches_rule r.matcher target ≡ true)

find_rule-first :
    (target : TargetAddress) (before after : List KernelRouteRule) (r : KernelRouteRule)
    → All (λ q. ¬ Applies target q) before
    → Applies target r
    → find_rule target (before ++ (r ∷ after)) ≡ some r
unfolding find_rule
find_rule-first target [] after r misses hit = rw (hit.0, hit.1)
find_rule-first target (q ∷ before) after r (miss, misses) hit =
    ground (arith, find_rule-first target before after r misses hit, miss')
  where
    miss' : (q.enabled ≡ true) → (matches_rule q.matcher target ≡ true) → ⊥
    miss' e m = miss (e, m)

-- The first element with a property.
abbrev pub First : {A : Type 0} → (A → Type 0) → A → List A → Type 0
First {A} P a xs =
    (before : List A) × (after : List A) × (xs ≡ before ++ (a ∷ after))
    × All (λ b. ¬ P b) before
    × P a

pub First-cons :
    {A : Type 0} (P : A → Type 0) (a x : A) (xs : List A)
    → ¬ P x
    → First P a xs
    → First P a (x ∷ xs)
First-cons P a x xs miss (before, after, e, misses, hit) =
    (x ∷ before, after, ap (◌∷◌ x) e, (miss, misses), hit)

-- Either a first rule applies, or none does.
pub find_rule-First :
    (target : TargetAddress) (rules : List KernelRouteRule)
    → ((r : KernelRouteRule) × (find_rule target rules ≡ some r) × First (Applies target) r rules)
      ⊎ ((find_rule target rules ≡ none) × All (λ r. ¬ Applies target r) rules)
unfolding find_rule
find_rule-First target [] = inr (refl, tt)
find_rule-First target (q ∷ rules) =
    elim (Bool-cases (q.enabled && matches_rule q.matcher target)) [
      | inl hit ↦ inl (q, rw hit, ([], rules, refl, tt, (ground (arith, hit), ground (arith, hit))))
      | inr miss ↦ elim (find_rule-First target rules) [
        | inl (r, f, first) ↦
            inl (r, rw miss f, First-cons (Applies target) r q rules (other miss) first)
        | inr (f, misses) ↦ inr (rw miss f, (other miss, misses))
      ]
    ]
  where
    other : (q.enabled && matches_rule q.matcher target) ≡ false → ¬ Applies target q
    other miss (on, matches) = ground (arith, miss, on, matches)

pub find_rule-none :
    (target : TargetAddress) (rules : List KernelRouteRule)
    → All (λ r. ¬ Applies target r) rules
    → find_rule target rules ≡ none
unfolding find_rule
find_rule-none target [] misses = refl
find_rule-none target (q ∷ rules) (miss, misses) =
    elim (Bool-cases (q.enabled && matches_rule q.matcher target)) [
      | inl hit ↦ absurd (miss (ground (arith, hit), ground (arith, hit)))
      | inr h ↦ rw h (find_rule-none target rules misses)
    ]

module _ {Json : Type 0} where
  -- In rule mode the first enabled rule that matches decides, by its action alone, when the rules before
  -- it are disabled or do not match.
  pub decide-apply_action :
      (router : Router Json) (target : TargetAddress) (before after : List KernelRouteRule)
      (r : KernelRouteRule)
      → router.config.mode ≡ KernelRoutingMode.rule
      → router.config.rules ≡ before ++ (r ∷ after)
      → All (λ q. ¬ Applies target q) before
      → Applies target r
      → decide router target ≡ apply_action router r.action
  unfolding decide decide_by by_rule
  decide-apply_action router target before after r mode rules misses hit =
      ap (λ (m : KernelRoutingMode). decide_by m router target) mode
      ∙ ap (by_rule router)
          (ap (find_rule target) rules ∙ find_rule-first target before after r misses hit)
