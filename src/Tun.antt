-- ===== src/Tun.antt =====
-- crates/neoncore-tun/src/lib.rs: the decision for each packet of the tunnel.
pub mod Inspect
use neon_core_atlas.DnsHijack.{DnsHijackConfig, DnsInterception, inspect, looks_like_dns_query}
use neon_core_atlas.IpStack.{IpPacket, TransportPacket, FlowProtocol, Flow}
use neon_core_atlas.IpStack.Parse.{Parsed, parse_transport, flow_from_packet, parse_ip_packet}
use neon_core_atlas.Prelude.{if◌then◌else◌, ok, err, panic, Bool, true, false, not}
use neon_core_atlas.Routing.{RouteAction, RoutingTable, decide}
use neon_core_atlas.Std.Bytes.{Bytes}

pub record TunConfig : Type 0 where
  pub routing : RoutingTable
  pub dns_hijack : DnsHijackConfig

pub data DropReason : Type 0 where
  unsupported_packet route_rejected unsupported_transport : DropReason

pub data TunDecision : Type 0 where
  forward_tcp forward_udp : Flow → RouteAction → TunDecision
  intercept_dns : Flow → TunDecision
  drop_packet : DropReason → TunDecision

abbrev pub is_hijack : DnsInterception → Bool
is_hijack (DnsInterception.hijack address port) = true
is_hijack DnsInterception.pass = false

unfoldable pub is_dns_payload : Parsed TransportPacket → Bool
is_dns_payload (ok (TransportPacket.udp datagram)) = looks_like_dns_query datagram.payload
is_dns_payload _ = false

unfoldable pub packet_transport : IpPacket → Parsed TransportPacket
packet_transport (IpPacket.v4 ip) = parse_transport ip.protocol ip.payload
packet_transport (IpPacket.v6 ip) = parse_transport ip.next_header ip.payload

-- Parsing does not panic, so the match has the two cases of the source.
unfoldable pub is_dns_hijack : TunConfig → Bytes → Flow → Bool
unfolding is_dns_payload packet_transport
is_dns_hijack config packet flow =
    let dns : Bool = elim (parse_ip_packet packet) [
      | ok ip ↦ is_dns_payload (packet_transport ip)
      | err e ↦ false
      | panic ↦ false
    ] in
    if not (is_hijack (inspect config.dns_hijack flow)) then false else dns

unfoldable pub forward_by : FlowProtocol → Flow → RouteAction → TunDecision
forward_by FlowProtocol.tcp flow action = forward_tcp flow action
forward_by FlowProtocol.udp flow action = forward_udp flow action

unfoldable pub forward : Flow → RouteAction → TunDecision
unfolding forward_by
forward flow RouteAction.reject = drop_packet route_rejected
forward flow action = forward_by flow.protocol flow action

unfoldable pub decide_flow : TunConfig → Bytes → Flow → TunDecision
unfolding forward
decide_flow config packet flow =
    if is_dns_hijack config packet flow
    then intercept_dns flow
    else forward flow (decide config.routing flow)

unfoldable pub inspect_packet : TunConfig → Bytes → TunDecision
unfolding decide_flow
inspect_packet config packet = elim (flow_from_packet packet) [
  | ok flow ↦ decide_flow config packet flow
  | err e ↦ drop_packet unsupported_packet
  | panic ↦ drop_packet unsupported_packet
]
