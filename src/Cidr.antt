-- ===== src/Cidr.antt =====
-- The network test that crates/neoncore-routing/src/lib.rs and
-- crates/neoncore-kernel/src/routing.rs share: `matches_cidr` behind the parse of the address.
pub mod Prefix
use neon_core_atlas.Prelude.{
  leb, ◌==◌, if◌then◌else◌, ◌-◌, ◌*◌, ◌%◌, ◌^◌, bit_and, Bool, false, ◌&&◌, Option, none, some, ℕ,
}
use neon_core_atlas.Std.Bytes.{Bytes}
use neon_core_atlas.Std.Net.{IpAddr, ip_bits, parse_ip}
use neon_core_atlas.Std.Number.{parse_unsigned, parse_u8}
use neon_core_atlas.Std.Text.{Text, split_once}

-- `u32::MAX << (32 - prefix)` and `u128::MAX << (128 - prefix)`, at a width; 0 for prefix 0.
unfoldable pub mask : ℕ → ℕ → ℕ
mask width prefix = if prefix == 0 then 0 else (2 ^ width - 1) * 2 ^ (width - prefix) % 2 ^ width

unfoldable pub same_network : ℕ → ℕ → Bytes → Bytes → Bool
unfolding mask
same_network width prefix ip base =
    bit_and (ip_bits ip) (mask width prefix) == bit_and (ip_bits base) (mask width prefix)

-- The match over the two families.
unfoldable pub ip_in : ℕ → IpAddr → IpAddr → Bool
ip_in prefix (IpAddr.v4 ip) (IpAddr.v4 base) = leb prefix 32 && same_network 32 prefix ip base
ip_in prefix (IpAddr.v4 ip) (IpAddr.v6 base) = false
ip_in prefix (IpAddr.v6 ip) (IpAddr.v4 base) = false
ip_in prefix (IpAddr.v6 ip) (IpAddr.v6 base) = leb prefix 128 && same_network 128 prefix ip base

-- `split_once('/')`, then `parse::<u8>()` of what follows, then `parse::<IpAddr>()` of the base.
unfoldable pub parse_cidr : Text → Option (IpAddr × ℕ)
unfolding split_once parse_unsigned parse_ip
parse_cidr cidr = elim (split_once b'/' cidr) [
  | none ↦ none
  | some (base, prefix) ↦ elim (parse_u8 prefix) [
    | none ↦ none
    | some p ↦ elim (parse_ip base) [ none ↦ none | some b ↦ some (b, p) ]
  ]
]

unfoldable pub matches_cidr : IpAddr → Text → Bool
unfolding parse_cidr ip_in same_network
matches_cidr ip cidr = elim (parse_cidr cidr) [
  | none ↦ false
  | some (base, prefix) ↦ ip_in prefix ip base
]
