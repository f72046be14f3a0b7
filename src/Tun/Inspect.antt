-- ===== src/Tun/Inspect.antt =====
-- What `TunEngine::inspect_packet` of crates/neoncore-tun/src/lib.rs promises.

use neon_core_atlas.DnsHijack.{looks_like_dns_query, inspect, hijack}
use neon_core_atlas.DnsHijack.Inspect.{inspect_iff}
use neon_core_atlas.IpStack.{FlowProtocol, Flow, IpStackError}
use neon_core_atlas.IpStack.Flows.{
  Fits, flow_from_packet-udp, IpHeader, next_protocol, ip_wire, flow_of, parse_ip_packet-wire,
  parse_transport-udp, Fits-udp, packet_of,
}
use neon_core_atlas.IpStack.Parse.{flow_from_packet, parse_transport, protocol_from_number}
use neon_core_atlas.IpStack.Safety.{flow_from_packet-ne-panic}
use neon_core_atlas.IpStack.WireTransport.{udp_wire}
use neon_core_atlas.Prelude.{
  Bool-cases, Outcome-cases, ok, err, ◌≡◌, refl, ◌≢◌, inl, inr, true, false, length, ◌+◌, [], ◌++◌,
  ℕ,
}
use neon_core_atlas.Routing.{RouteAction, decide}
use neon_core_atlas.Std.Bytes.{Bytes}
use neon_core_atlas.Tun.{
  TunConfig, TunDecision, forward_by, forward, decide_flow, inspect_packet, forward_tcp,
  is_dns_hijack, forward_udp, intercept_dns, drop_packet, unsupported_packet, route_rejected,
  unsupported_transport, packet_transport,
}

-- The four decisions, with what led to each.
abbrev pub Explains : TunConfig → Bytes → TunDecision → Type 0
Explains config packet (forward_tcp flow action) =
    (flow_from_packet packet ≡ ok flow)
    × (flow.protocol ≡ FlowProtocol.tcp)
    × (is_dns_hijack config packet flow ≡ false)
    × (decide config.routing flow ≡ action)
    × (action ≢ RouteAction.reject)
Explains config packet (forward_udp flow action) =
    (flow_from_packet packet ≡ ok flow)
    × (flow.protocol ≡ FlowProtocol.udp)
    × (is_dns_hijack config packet flow ≡ false)
    × (decide config.routing flow ≡ action)
    × (action ≢ RouteAction.reject)
Explains config packet (intercept_dns flow) =
    (flow_from_packet packet ≡ ok flow) × (is_dns_hijack config packet flow ≡ true)
Explains config packet (drop_packet unsupported_packet) =
    (e : IpStackError) × (flow_from_packet packet ≡ err e)
Explains config packet (drop_packet route_rejected) =
    (flow : Flow) × (flow_from_packet packet ≡ ok flow)
    × (is_dns_hijack config packet flow ≡ false)
    × (decide config.routing flow ≡ RouteAction.reject)
Explains config packet (drop_packet unsupported_transport) = ⊥

forward_by-Explains :
    (config : TunConfig) (packet : Bytes) (flow : Flow) (action : RouteAction)
    (protocol : FlowProtocol)
    → flow_from_packet packet ≡ ok flow
    → flow.protocol ≡ protocol
    → is_dns_hijack config packet flow ≡ false
    → decide config.routing flow ≡ action
    → action ≢ RouteAction.reject
    → Explains config packet (forward_by protocol flow action)
unfolding forward_by
forward_by-Explains config packet flow action FlowProtocol.tcp f e d a r = (f, e, d, a, r)
forward_by-Explains config packet flow action FlowProtocol.udp f e d a r = (f, e, d, a, r)

forward-Explains :
    (config : TunConfig) (packet : Bytes) (flow : Flow) (action : RouteAction)
    → flow_from_packet packet ≡ ok flow
    → is_dns_hijack config packet flow ≡ false
    → decide config.routing flow ≡ action
    → Explains config packet (forward flow action)
unfolding forward
forward-Explains config packet flow RouteAction.reject f d a = (flow, f, d, a)
forward-Explains config packet flow RouteAction.proxy f d a =
    forward_by-Explains config packet flow RouteAction.proxy flow.protocol f refl d a (λ x. cc)
forward-Explains config packet flow RouteAction.direct f d a =
    forward_by-Explains config packet flow RouteAction.direct flow.protocol f refl d a (λ x. cc)

decide_flow-Explains :
    (config : TunConfig) (packet : Bytes) (flow : Flow)
    → flow_from_packet packet ≡ ok flow
    → Explains config packet (decide_flow config packet flow)
unfolding decide_flow
decide_flow-Explains config packet flow f = elim (Bool-cases (is_dns_hijack config packet flow)) [
  | inl hit ↦ rw (hit, decide_flow) (f, hit)
  | inr miss ↦
      rw miss (forward-Explains config packet flow (decide config.routing flow) f miss refl)
]

-- Every decision has its reason. A packet is forwarded only with its own flow and protocol, under
-- the action that routing decides, which is not `reject`, and only if it is no DNS query to hijack;
-- it is intercepted only as one; it is dropped only if it does not parse or routing rejects its flow.
-- `unsupported_transport` is never the reason.
pub inspect_packet-Explains :
    (config : TunConfig) (packet : Bytes) → Explains config packet (inspect_packet config packet)
unfolding inspect_packet
inspect_packet-Explains config packet = elim (Outcome-cases (flow_from_packet packet)) [
  | inl (flow, f) ↦ rw (f, inspect_packet) (decide_flow-Explains config packet flow f)
  | inr (inl (e, f)) ↦ rw (f, inspect_packet) (e, f)
  | inr (inr f) ↦ absurd (flow_from_packet-ne-panic packet f)
]

packet_transport-packet :
    (h : IpHeader) (payload : Bytes)
    → packet_transport (packet_of h payload)
      ≡ parse_transport (protocol_from_number (next_protocol h)) payload
unfolding packet_transport
packet_transport-packet (IpHeader.v4 g s d words options) payload = refl
packet_transport-packet (IpHeader.v6 g s d) payload = refl

is_dns_hijack-query :
    (config : TunConfig) (h : IpHeader) (source destination check0 check1 : ℕ)
    (query trailing : Bytes) (flow : Flow)
    → next_protocol h ≡ 17
    → Fits h (8 + length query)
    → looks_like_dns_query query ≡ true
    → inspect config.dns_hijack flow ≡ hijack flow.destination.address flow.destination.port
    → is_dns_hijack config
        (ip_wire h (udp_wire source destination check0 check1 query) ++ trailing)
        flow
      ≡ true
unfolding is_dns_hijack
is_dns_hijack-query config h source destination check0 check1 query trailing flow e fits dns hit =
    rw
      (
        hit,
        parse_ip_packet-wire h (udp_wire source destination check0 check1 query) trailing
            (Fits-udp h source destination check0 check1 query fits),
        packet_transport-packet h (udp_wire source destination check0 check1 query),
        parse_transport-udp h source destination check0 check1 query e fits,
      )
      dns

-- The header and the ports of a UDP datagram whose payload is a DNS query, sent to the port that the
-- configuration hijacks, with no list of servers: whatever the routing table says, even in
-- direct mode or under a rule that rejects the flow, the packet is intercepted.
pub inspect_packet-dns :
    (config : TunConfig) (h : IpHeader) (source check0 check1 : ℕ) (query trailing : Bytes)
    → config.dns_hijack.enabled ≡ true
    → config.dns_hijack.ipv4_servers ≡ []
    → config.dns_hijack.ipv6_servers ≡ []
    → next_protocol h ≡ 17
    → Fits h (8 + length query)
    → looks_like_dns_query query ≡ true
    → inspect_packet config
        (ip_wire h (udp_wire source config.dns_hijack.port check0 check1 query) ++ trailing)
      ≡ intercept_dns (flow_of h FlowProtocol.udp source config.dns_hijack.port)
unfolding inspect_packet
inspect_packet-dns config h source check0 check1 query trailing on no4 no6 e fits dns =
    rw
      (
        flow_from_packet-udp h source config.dns_hijack.port check0 check1 query trailing e fits,
        inspect_packet,
      )
      (rw (hit, decide_flow))
  where
    packet : Bytes
    packet = ip_wire h (udp_wire source config.dns_hijack.port check0 check1 query) ++ trailing

    flow : Flow
    flow = flow_of h FlowProtocol.udp source config.dns_hijack.port

    hit :
        is_dns_hijack config packet (flow_of h FlowProtocol.udp source config.dns_hijack.port)
        ≡ true
    hit =
        is_dns_hijack-query config h source config.dns_hijack.port check0 check1 query trailing flow
          e fits dns
          ((inspect_iff config.dns_hijack flow _ _).1
            ((on, refl, refl, inl (no4, no6)), refl, refl))
