-- ===== src/Kernel/Routing/Matching.antt =====
-- What the text matchers of crates/neoncore-kernel/src/routing.rs accept.

use neon_core_atlas.Cidr.{matches_cidr}
use neon_core_atlas.Kernel.Routing.{matches_rule, matches_host_cidr}
use neon_core_atlas.Kernel.Session.{
  KernelRuleMatcher, TargetAddress, domain, domain_suffix, domain_keyword,
}
use neon_core_atlas.Prelude.{
  ◌==◌, ◌≡◌, refl, ap, ◌↔◌, inl, inr, true, some, [], ◌∷◌, ◌++◌, arith, &&_iff, ||_cases, ==_iff,
  ap₂, ℕ, Option, none,
}
use neon_core_atlas.Std.Bytes.{bytes_eq_refl, bytes_eq_iff, bytes_eq}
use neon_core_atlas.Std.Net.{IpAddr, parse_ip}
use neon_core_atlas.Std.Text.{Text, starts_with, contains, ends_with, to_ascii_lowercase}

starts_with-split : (s p : Text) → starts_with s p ≡ true → (back : Text) × (s ≡ p ++ back)
unfolding starts_with
starts_with-split s [] e = (s, refl)
starts_with-split [] (c ∷ p) e = cc
starts_with-split (d ∷ s) (c ∷ p) e =
    let both = (&&_iff (d == c) (starts_with s p)).0 e in
    let (back, t) = starts_with-split s p both.1 in
    (back, ap₂ (λ (x : ℕ) (xs : Text). x ∷ xs) ((==_iff d c).0 both.0) t)

starts_with-append : (p back : Text) → starts_with (p ++ back) p ≡ true
unfolding starts_with
starts_with-append [] [] = refl
starts_with-append [] (c ∷ back) = refl
starts_with-append (c ∷ p) back =
    (&&_iff (c == c) (starts_with (p ++ back) p)).1 ((==_iff c c).1 refl, starts_with-append p back)

ends_with-split : (s p : Text) → ends_with s p ≡ true → (front : Text) × (s ≡ front ++ p)
unfolding ends_with
ends_with-split [] p e = ([], (bytes_eq_iff [] p).0 e)
ends_with-split (c ∷ s) p e = elim (||_cases (bytes_eq (c ∷ s) p) (ends_with s p) e) [
  | inl here ↦ ([], (bytes_eq_iff (c ∷ s) p).0 here)
  | inr later ↦ let (front, t) = ends_with-split s p later in (c ∷ front, ap (◌∷◌ c) t)
]

ends_with-append : (front p : Text) → ends_with (front ++ p) p ≡ true
unfolding ends_with
ends_with-append [] [] = bytes_eq_refl []
ends_with-append [] (c ∷ p) = rw (bytes_eq_refl (c ∷ p))
ends_with-append (c ∷ front) p = ground (arith, ends_with-append front p)

contains-split :
    (s p : Text) → contains s p ≡ true → (front : Text) × (back : Text) × (s ≡ front ++ (p ++ back))
unfolding contains
contains-split [] p e = let (back, t) = starts_with-split [] p e in ([], back, t)
contains-split (c ∷ s) p e = elim (||_cases (starts_with (c ∷ s) p) (contains s p) e) [
  | inl here ↦ let (back, t) = starts_with-split (c ∷ s) p here in ([], back, t)
  | inr later ↦ let (front, back, t) = contains-split s p later in (c ∷ front, back, ap (◌∷◌ c) t)
]

contains_prefix : (s p : Text) → starts_with s p ≡ true → contains s p ≡ true
unfolding contains
contains_prefix [] p e = e
contains_prefix (c ∷ s) p e = rw e

contains-append : (front p back : Text) → contains (front ++ (p ++ back)) p ≡ true
unfolding contains
contains-append [] p back = contains_prefix (p ++ back) p (starts_with-append p back)
contains-append (c ∷ front) p back = ground (arith, contains-append front p back)

-- What each kind of text rule says of a host and a value, letter case aside.
abbrev pub Accepts : KernelRuleMatcher → Text → Type 0
Accepts (domain value) host = to_ascii_lowercase host ≡ to_ascii_lowercase value
Accepts (domain_suffix value) host =
    (front : Text) × (to_ascii_lowercase host ≡ front ++ to_ascii_lowercase value)
Accepts (domain_keyword value) host =
    (front : Text) × (back : Text) × (to_ascii_lowercase host
      ≡ front ++ (to_ascii_lowercase value ++ back))
Accepts (KernelRuleMatcher.cidr value) host =
    (ip : IpAddr) × (parse_ip host ≡ some ip) × (matches_cidr ip value ≡ true)

matches_host_cidr_iff :
    (host value : Text)
    → (matches_host_cidr host value ≡ true)
      ↔ ((ip : IpAddr) × (parse_ip host ≡ some ip) × (matches_cidr ip value ≡ true))
unfolding matches_host_cidr
matches_host_cidr_iff host value =
    (go (parse_ip host) refl, λ (ip, p, m). rw (p, matches_host_cidr) m)
  where
    go :
        (o : Option IpAddr)
        → parse_ip host ≡ o
        → matches_host_cidr host value ≡ true
        → (ip : IpAddr) × (parse_ip host ≡ some ip) × (matches_cidr ip value ≡ true)
    go none p e = cc (rw (p, matches_host_cidr) at e)
    go (some ip) p e = (ip, p, rw (p, matches_host_cidr) at e)

-- A rule matches a target exactly when the host, upper and lower case aside, equals the value, ends in
-- it or holds it, or when it is an address that `matches_cidr` puts in the network; the port plays no
-- part.
pub matches_rule_iff :
    (matcher : KernelRuleMatcher) (target : TargetAddress)
    → (matches_rule matcher target ≡ true) ↔ Accepts matcher target.host
unfolding matches_rule
matches_rule_iff (domain value) target = bytes_eq_iff _ _
matches_rule_iff (domain_suffix value) target = (
  ends_with-split (to_ascii_lowercase target.host) (to_ascii_lowercase value),
  λ (front, e). rw e (ends_with-append front (to_ascii_lowercase value)),
)
matches_rule_iff (domain_keyword value) target = (
  contains-split (to_ascii_lowercase target.host) (to_ascii_lowercase value),
  λ (front, back, e). rw e (contains-append front (to_ascii_lowercase value) back),
)
matches_rule_iff (KernelRuleMatcher.cidr value) target = matches_host_cidr_iff target.host value
