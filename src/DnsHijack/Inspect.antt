-- ===== src/DnsHijack/Inspect.antt =====
-- What `DnsHijackConfig::inspect` and `looks_like_dns_query` of crates/neoncore-dns/src/lib.rs promise.

use neon_core_atlas.DnsHijack.{DnsHijackConfig, contains_ip, inspect, looks_like_dns_query, hijack}
use neon_core_atlas.IpStack.{FlowProtocol, Flow}
use neon_core_atlas.Prelude.{
  if◌then◌else◌, length, get_or, All, All-get_or, ◌+◌, ◌*◌, ◌≤◌, ◌<◌, ◌≡◌, ◌↔◌, ◌⊎◌, true, List, [],
  ◌∷◌, arith, ℕ, Among,
}
use neon_core_atlas.Prelude.Bits.{bit_and-pow}
use neon_core_atlas.Std.Bytes.{IsByte, Bytes, u16_be}
use neon_core_atlas.Std.Net.{IpAddr, is_ipv4, ip_eq_iff}

contains_ip_iff : (xs : List IpAddr) (ip : IpAddr) → (contains_ip xs ip ≡ true) ↔ Among ip xs
unfolding contains_ip
contains_ip_iff [] ip = (λ e. cc, absurd)
contains_ip_iff (x ∷ xs) ip = ground (arith, ip_eq_iff x ip, contains_ip_iff xs ip)

-- The servers that count for a destination: those of its family.
abbrev pub servers_for : DnsHijackConfig → IpAddr → List IpAddr
servers_for config ip = if is_ipv4 ip then config.ipv4_servers else config.ipv6_servers

-- What makes a flow DNS: hijacking is on, the flow is UDP to the configured port, and either no
-- server at all is listed or the destination is listed for its family.
abbrev pub IsDns : DnsHijackConfig → Flow → Type 0
IsDns config flow =
    (config.enabled ≡ true)
    × (flow.protocol ≡ FlowProtocol.udp)
    × (flow.destination.port ≡ config.port)
    × (((config.ipv4_servers ≡ []) × (config.ipv6_servers ≡ []))
        ⊎ Among flow.destination.address (servers_for config flow.destination.address))

-- `inspect` hijacks exactly the DNS flows, and then to the destination of the flow itself.
pub inspect_iff :
    (config : DnsHijackConfig) (flow : Flow) (address : IpAddr) (port : ℕ)
    → (inspect config flow ≡ hijack address port)
      ↔ (IsDns config flow × (address ≡ flow.destination.address) × (port ≡ flow.destination.port))
unfolding inspect
inspect_iff config flow address port =
    ground (
      arith,
      contains_ip_iff (servers_for config flow.destination.address) flow.destination.address,
    )

-- A DNS message with at least one question and the query bit of RFC 1035 clear.
abbrev pub IsQuery : Bytes → Type 0
IsQuery payload =
    (12 ≤ length payload)
    × (get_or payload 2 0 < 128)
    × (0 < get_or payload 4 0 * 256 + get_or payload 5 0)

-- `looks_like_dns_query` holds exactly of messages of twelve bytes or more, with the response bit
-- clear and a question count above 0.
pub looks_like_dns_query_iff :
    (payload : Bytes) → All IsByte payload → (looks_like_dns_query payload ≡ true) ↔ IsQuery payload
unfolding looks_like_dns_query
looks_like_dns_query_iff payload h = ground (
  arith,
  All-get_or IsByte payload 2 0 h,
  All-get_or IsByte payload 3 0 h,
  bit_and-pow 15 (u16_be (get_or payload 2 0) (get_or payload 3 0)),
)
