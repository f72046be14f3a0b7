-- ===== src/IpStack/Safety.antt =====
-- No packet makes a parser of crates/neoncore-ip-stack/src/lib.rs panic.
use neon_core_atlas.Prelude.{◌≢◌, arith, panic, >>=-ne-panic}
use neon_core_atlas.Std.Bytes.{Bytes}
use neon_core_atlas.IpStack.{TransportProtocol, IpPacket}
use neon_core_atlas.IpStack.Parse.{
  parse_ipv4, parse_ipv6, parse_ip_packet, parse_tcp, parse_udp, parse_transport, ip_flow,
  flow_from_packet,
}
use neon_core_atlas.IpStack.Fields.{
  parse_ipv4_total, parse_ipv6_total, parse_tcp_total, parse_udp_total,
}

parse_ipv4-ne-panic : (packet : Bytes) → parse_ipv4 packet ≢ panic
parse_ipv4-ne-panic packet = ground (arith, parse_ipv4_total packet)

parse_ipv6-ne-panic : (packet : Bytes) → parse_ipv6 packet ≢ panic
parse_ipv6-ne-panic packet = ground (arith, parse_ipv6_total packet)

parse_tcp-ne-panic : (payload : Bytes) → parse_tcp payload ≢ panic
parse_tcp-ne-panic payload = ground (arith, parse_tcp_total payload)

parse_udp-ne-panic : (payload : Bytes) → parse_udp payload ≢ panic
parse_udp-ne-panic payload = ground (arith, parse_udp_total payload)

pub parse_ip_packet-ne-panic : (packet : Bytes) → parse_ip_packet packet ≢ panic
unfolding parse_ip_packet
parse_ip_packet-ne-panic packet =
    ground (arith, parse_ipv4-ne-panic packet, parse_ipv6-ne-panic packet)

pub parse_transport-ne-panic :
    (protocol : TransportProtocol) (payload : Bytes) → parse_transport protocol payload ≢ panic
unfolding parse_transport
parse_transport-ne-panic TransportProtocol.tcp payload = ground (arith, parse_tcp-ne-panic payload)
parse_transport-ne-panic TransportProtocol.udp payload = ground (arith, parse_udp-ne-panic payload)
parse_transport-ne-panic _ payload = λ e. cc

ip_flow-ne-panic : (ip : IpPacket) → ip_flow ip ≢ panic
unfolding ip_flow
ip_flow-ne-panic (IpPacket.v4 ip) = ground (arith, parse_transport-ne-panic ip.protocol ip.payload)
ip_flow-ne-panic (IpPacket.v6 ip) =
    ground (arith, parse_transport-ne-panic ip.next_header ip.payload)

-- Whatever the bytes of a packet, `flow_from_packet` returns a flow or an error: no index and no
-- slice of the IPv4, IPv6, TCP and UDP parsers is out of range.
pub flow_from_packet-ne-panic : (packet : Bytes) → flow_from_packet packet ≢ panic
unfolding flow_from_packet
flow_from_packet-ne-panic packet =
    >>=-ne-panic (parse_ip_packet packet) ip_flow (parse_ip_packet-ne-panic packet)
      (λ ip e. ip_flow-ne-panic ip)
