-- ===== src/Tests/Packets.antt =====
-- The theorems on packets and on the rules of the packet path, at concrete inputs.

use neon_core_atlas.Cidr.{ip_in}
use neon_core_atlas.Cidr.Prefix.{InNetwork, ip_in_iff}
use neon_core_atlas.DnsHijack.{inspect, looks_like_dns_query, default_config, hijack}
use neon_core_atlas.DnsHijack.Inspect.{IsDns, inspect_iff}
use neon_core_atlas.IpStack.{FlowProtocol}
use neon_core_atlas.IpStack.Flows.{flow_from_packet-udp, flow_from_packet-tcp, ip_wire, flow_of}
use neon_core_atlas.IpStack.Parse.{flow_from_packet}
use neon_core_atlas.IpStack.Safety.{flow_from_packet-ne-panic}
use neon_core_atlas.IpStack.Wire.{quad}
use neon_core_atlas.IpStack.WireTransport.{udp_wire, tcp_wire}
use neon_core_atlas.Prelude.{All, ok, panic, ◌≡◌, refl, ◌≢◌, ◌↔◌, true, false, [], ◌∷◌, ◌++◌, arith}
use neon_core_atlas.Routing.{matches_rule, decide, RoutingMode, RouteAction}
use neon_core_atlas.Routing.Decide.{Applies, decide-first}
use neon_core_atlas.Std.Net.{IpAddr}
use neon_core_atlas.Tests.Data.{
  udp_header, tcp_header, syn, query, reject_all, dns_flow, rule_for, client, server,
}
use neon_core_atlas.Tun.{inspect_packet, intercept_dns}
use neon_core_atlas.Tun.Inspect.{Explains, inspect_packet-Explains, inspect_packet-dns}

flow_from_packet-ne-panic_example : flow_from_packet (69 ∷ 0 ∷ []) ≢ panic
flow_from_packet-ne-panic_example = flow_from_packet-ne-panic (69 ∷ 0 ∷ [])

flow_from_packet-udp_example :
    flow_from_packet (ip_wire udp_header (udp_wire 5353 53 0 0 query) ++ (7 ∷ [])) ≡ ok dns_flow
flow_from_packet-udp_example =
    flow_from_packet-udp udp_header 5353 53 0 0 query (7 ∷ []) refl (omega arith, refl, omega arith)

flow_from_packet-tcp_example :
    flow_from_packet (ip_wire tcp_header (tcp_wire syn 40000 443 0 [] []) ++ [])
    ≡ ok (flow_of tcp_header FlowProtocol.tcp 40000 443)
flow_from_packet-tcp_example =
    flow_from_packet-tcp tcp_header syn 40000 443 0 [] [] [] refl refl refl (omega arith)
      (omega arith) refl (omega arith, refl, omega arith)

inspect_packet-Explains_example :
    Explains reject_all (69 ∷ []) (inspect_packet reject_all (69 ∷ []))
inspect_packet-Explains_example = inspect_packet-Explains reject_all (69 ∷ [])

is_query : looks_like_dns_query query ≡ true
unfolding looks_like_dns_query
is_query = refl

inspect_packet-dns_example :
    inspect_packet reject_all (ip_wire udp_header (udp_wire 5353 53 0 0 query) ++ [])
    ≡ intercept_dns dns_flow
inspect_packet-dns_example =
    inspect_packet-dns reject_all udp_header 5353 0 0 query [] refl refl refl refl
      (omega arith, refl, omega arith) is_query

disabled_misses : All (λ q. ¬ Applies dns_flow q) (rule_for 53 RouteAction.direct false ∷ [])
disabled_misses = ((λ h. cc), tt)

applies : Applies dns_flow (rule_for 53 RouteAction.reject true)
unfolding matches_rule
applies = (refl, refl)

decide-first_example :
    decide
      (record {
        mode = RoutingMode.rule;
        rules = rule_for 53 RouteAction.direct false ∷ rule_for 53 RouteAction.reject true ∷ [];
      })
      dns_flow
    ≡ RouteAction.reject
decide-first_example =
    decide-first dns_flow (rule_for 53 RouteAction.direct false ∷ []) []
      (rule_for 53 RouteAction.reject true) disabled_misses applies

ip_in_iff_example :
    (ip_in 8 (IpAddr.v4 (quad client)) (IpAddr.v4 (10 ∷ 9 ∷ 9 ∷ 9 ∷ [])) ≡ true)
    ↔ InNetwork 8 (IpAddr.v4 (quad client)) (IpAddr.v4 (10 ∷ 9 ∷ 9 ∷ 9 ∷ []))
ip_in_iff_example =
    ip_in_iff 8 (IpAddr.v4 (quad client)) (IpAddr.v4 (10 ∷ 9 ∷ 9 ∷ 9 ∷ []))
      (refl, (omega arith, (omega arith, (omega arith, (omega arith, tt)))))
      (refl, (omega arith, (omega arith, (omega arith, (omega arith, tt)))))

inspect_iff_example : (inspect default_config dns_flow ≡ hijack (IpAddr.v4 (quad server)) 53) ↔ (
    IsDns default_config dns_flow
    × (IpAddr.v4 (quad server) ≡ dns_flow.destination.address)
    × (53 ≡ dns_flow.destination.port))
inspect_iff_example = inspect_iff default_config dns_flow (IpAddr.v4 (quad server)) 53
