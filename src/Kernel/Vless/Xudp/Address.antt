-- ===== src/Kernel/Vless/Xudp/Address.antt =====
-- Addresses are read without an index out of range (crates/neoncore-kernel/src/adapter/vless.rs).

use neon_core_atlas.Kernel.Socks.{ipv4_at, Anyhow}
use neon_core_atlas.Kernel.Vless.Xudp.{
  decode_domain, decode_ipv6, decode_ipv4, decode_address, decode_port_then_address, meta_target,
}
use neon_core_atlas.Prelude.{
  length, panic, ◌≤◌, ◌≢◌, [], ◌∷◌, arith, index_lem, ltb, ◌==◌, Bool-cases, get_or, drop, ok_or,
  ◌>>◌, fail_if, >>=-ne-panic, ◌+◌, inl, inr, Option, none, some, slice_lem, ℕ, slice_from_lem,
  ltb→le, take, ◌-◌, map_ok,
}
use neon_core_atlas.Std.Bytes.{Bytes}
use neon_core_atlas.Std.Text.{Text, from_utf8}

ipv4_at-ne-panic : (input : Bytes) → 5 ≤ length input → ipv4_at input 1 ≢ panic
unfolding ipv4_at
ipv4_at-ne-panic input h =
    rw
      (
        index_lem {E = Text} input 1 0 (omega arith),
        index_lem {E = Text} input 2 0 (omega arith),
        index_lem {E = Text} input 3 0 (omega arith),
        index_lem {E = Text} input 4 0 (omega arith),
      )
      (λ p. cc)

-- A guard of the code: what comes after it may count on the length.
pub guarded :
    {A : Type 0} (input : Bytes) (n : ℕ) (message : Text) (rest : Anyhow A)
    → (n ≤ length input → rest ≢ panic)
    → (fail_if (ltb (length input) n) message >> rest) ≢ panic
guarded input n message rest h = elim (Bool-cases (ltb (length input) n)) [
  | inl e ↦ rw e (λ p. cc)
  | inr e ↦ rw e (h (ltb→le _ _ e))
]

decode_ipv4-ne-panic : (input : Bytes) → decode_ipv4 input ≢ panic
unfolding decode_ipv4
decode_ipv4-ne-panic input =
    guarded input 5 _ _ (λ h. >>=-ne-panic _ _ (ipv4_at-ne-panic input h) (λ host e p. cc))

decode_ipv6-ne-panic : (input : Bytes) → decode_ipv6 input ≢ panic
unfolding decode_ipv6
decode_ipv6-ne-panic input =
    guarded input 17 _ _ (λ h. rw (slice_lem {E = Text} input 1 17 (omega arith) h) (λ p. cc))

ok_or-ne-panic : {A : Type 0} (o : Option A) (e : Text) → ok_or o e ≢ panic
ok_or-ne-panic none e = λ p. cc
ok_or-ne-panic (some a) e = λ p. cc

read_name-ne-panic :
    (bytes : Bytes) (message : Text) (n : ℕ)
    → map_ok {B = Text × ℕ} (λ host. (host, n)) (ok_or (from_utf8 bytes) message) ≢ panic
read_name-ne-panic bytes message n =
    >>=-ne-panic (ok_or (from_utf8 bytes) message) _ (ok_or-ne-panic (from_utf8 bytes) message)
      (λ host e p. cc)

decode_domain-ne-panic : (input : Bytes) → decode_domain input ≢ panic
unfolding decode_domain
decode_domain-ne-panic input = guarded input 2 _ _ (λ h.
    rw (index_lem {E = Text} input 1 0 (omega arith)) (
      guarded input (2 + get_or input 1 0) _ _ (λ k.
        rw (slice_lem {E = Text} input 2 (2 + get_or input 1 0) (omega arith) k)
          (read_name-ne-panic (take (2 + get_or input 1 0 - 2) (drop 2 input)) _ _))))

decode_address-ne-panic : (input : Bytes) → decode_address input ≢ panic
unfolding decode_address
decode_address-ne-panic [] = λ p. cc
decode_address-ne-panic (atyp ∷ rest) = elim (Bool-cases (atyp == 1)) [
  | inl e ↦ rw e (decode_ipv4-ne-panic (atyp ∷ rest))
  | inr e ↦ elim (Bool-cases (atyp == 2)) [
    | inl f ↦ rw (e, f) (decode_domain-ne-panic (atyp ∷ rest))
    | inr f ↦ elim (Bool-cases (atyp == 3)) [
      | inl g ↦ rw (e, f, g) (decode_ipv6-ne-panic (atyp ∷ rest))
      | inr g ↦ rw (e, f, g) (λ p. cc)
    ]
  ]
]

decode_port_then_address-ne-panic : (input : Bytes) → decode_port_then_address input ≢ panic
unfolding decode_port_then_address
decode_port_then_address-ne-panic input = guarded input 3 _ _ (λ h.
    rw
      (
        index_lem {E = Text} input 0 0 (omega arith),
        index_lem {E = Text} input 1 0 (omega arith),
        slice_from_lem {E = Text} input 2 (omega arith),
      )
      (>>=-ne-panic _ _ (decode_address-ne-panic (drop 2 input)) (λ r e p. cc)))

pub meta_target-ne-panic : (meta : Bytes) → meta_target meta ≢ panic
unfolding meta_target
meta_target-ne-panic [] = λ p. cc
meta_target-ne-panic (a ∷ []) = λ p. cc
meta_target-ne-panic (a ∷ b ∷ []) = λ p. cc
meta_target-ne-panic (a ∷ b ∷ c ∷ []) = λ p. cc
meta_target-ne-panic (a ∷ b ∷ c ∷ d ∷ []) = λ p. cc
meta_target-ne-panic (a ∷ b ∷ c ∷ d ∷ network ∷ rest) = elim (Bool-cases (network == 2)) [
  | inl e ↦ rw e (>>=-ne-panic _ _ (decode_port_then_address-ne-panic rest) (λ r f p. cc))
  | inr e ↦ rw e (λ p. cc)
]
