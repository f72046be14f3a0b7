-- ===== src/IpStack/Flows.antt =====
-- The flow that crates/neoncore-ip-stack/src/lib.rs reads from a packet in wire format.
use neon_core_atlas.IpStack.{Flow, FlowProtocol, IpPacket, TransportPacket, Ipv4Packet, Ipv6Packet}
use neon_core_atlas.IpStack.Parse.{
  parse_transport, flow_from_packet, protocol_from_number, parse_ip_packet, parse_udp,
  transport_flow, ip_flow, tcp_flags, parse_ipv4, parse_ipv6,
}
use neon_core_atlas.IpStack.Wire.{
  Ipv4Header, Ipv6Header, Quad, quad, ipv4_wire, ipv6_wire, first-ipv4_wire, parse_ipv4-wire,
  first-ipv6_wire, parse_ipv6-wire,
}
use neon_core_atlas.IpStack.WireTransport.{
  udp_wire, length-udp_wire, parse_udp-wire, length-tcp_wire, parse_tcp-wire, TcpHeader, tcp_wire,
}
use neon_core_atlas.Prelude.{
  ℕ, sym, [], ◌+◌, ◌*◌, ◌<◌, ◌≤◌, ◌≡◌, ◌++◌, length, ok, subst, append-nil, arith, get_elem?, ◌/◌,
  some,
}
use neon_core_atlas.Std.Bytes.{Bytes}
use neon_core_atlas.Std.Net.{IpAddr}

-- An IP header around a payload, in either family: the addresses, and how the payload is wrapped.
pub data IpHeader : Type 0 where
  v4 : Ipv4Header → Quad → Quad → (words : ℕ) → Bytes → IpHeader
  v6 : Ipv6Header → Bytes → Bytes → IpHeader

pub ip_wire : IpHeader → Bytes → Bytes
ip_wire (v4 h s d words options) payload = ipv4_wire h s d words options payload
ip_wire (v6 h s d) payload = ipv6_wire h s d payload

-- What the header's own fields have to satisfy for a payload of a length.
abbrev pub Fits : IpHeader → ℕ → Type 0
Fits (v4 h s d words options) len =
    (words ≤ 10) × (length options ≡ 4 * words) × (20 + 4 * words + len < 65536)
Fits (v6 h s d) len = (h.class_high < 16) × (length s ≡ 16) × (length d ≡ 16) × (len < 65536)

abbrev pub next_protocol : IpHeader → ℕ
next_protocol (v4 h s d words options) = h.protocol
next_protocol (v6 h s d) = h.next_header

abbrev pub family : IpHeader → Bytes → IpAddr
family (v4 h s d words options) = IpAddr.v4
family (v6 h s d) = IpAddr.v6

abbrev pub source_octets : IpHeader → Bytes
source_octets (v4 h s d words options) = quad s
source_octets (v6 h s d) = s

abbrev pub destination_octets : IpHeader → Bytes
destination_octets (v4 h s d words options) = quad d
destination_octets (v6 h s d) = d

abbrev pub flow_of : IpHeader → FlowProtocol → ℕ → ℕ → Flow
flow_of h protocol source destination = record {
  source = record { address = family h (source_octets h); port = source };
  destination = record { address = family h (destination_octets h); port = destination };
  protocol = protocol;
}

abbrev pub packet_of : IpHeader → Bytes → IpPacket
packet_of (v4 h s d words options) payload = IpPacket.v4 (record {
  source = quad s;
  destination = quad d;
  protocol = protocol_from_number h.protocol;
  payload = payload;
})
packet_of (v6 h s d) payload = IpPacket.v6 (record {
  source = s;
  destination = d;
  next_header = protocol_from_number h.next_header;
  payload = payload;
})

parse_ip_packet-v4 :
    (packet : Bytes) (first : ℕ) (ip : Ipv4Packet)
    → get_elem? packet 0 ≡ some first
    → first / 16 ≡ 4
    → parse_ipv4 packet ≡ ok ip
    → parse_ip_packet packet ≡ ok (IpPacket.v4 ip)
unfolding parse_ip_packet
parse_ip_packet-v4 packet first ip e v p = ground arith

parse_ip_packet-v6 :
    (packet : Bytes) (first : ℕ) (ip : Ipv6Packet)
    → get_elem? packet 0 ≡ some first
    → first / 16 ≡ 6
    → parse_ipv6 packet ≡ ok ip
    → parse_ip_packet packet ≡ ok (IpPacket.v6 ip)
unfolding parse_ip_packet
parse_ip_packet-v6 packet first ip e v p = ground arith

pub parse_ip_packet-wire :
    (h : IpHeader) (payload trailing : Bytes)
    → Fits h (length payload)
    → parse_ip_packet (ip_wire h payload ++ trailing) ≡ ok (packet_of h payload)
unfolding ip_wire
parse_ip_packet-wire (v4 h s d words options) payload trailing (hw, ho, ht) =
    parse_ip_packet-v4 _ (69 + words) _ (first-ipv4_wire h s d words options payload trailing)
      (omega arith) (parse_ipv4-wire h s d words options payload trailing hw ho ht)
parse_ip_packet-wire (v6 h s d) payload trailing (hc, hs, hd, hp) =
    parse_ip_packet-v6 _ (96 + h.class_high) _ (first-ipv6_wire h s d payload trailing)
      (omega arith) (parse_ipv6-wire h s d payload trailing hs hd hp)

ip_flow-packet :
    (h : IpHeader) (payload : Bytes) (t : TransportPacket)
    → parse_transport (protocol_from_number (next_protocol h)) payload ≡ ok t
    → ip_flow (packet_of h payload)
      ≡ ok (transport_flow (family h) (source_octets h) (destination_octets h) t)
unfolding ip_flow
ip_flow-packet (v4 h s d words options) payload t e = rw e
ip_flow-packet (v6 h s d) payload t e = rw e

-- What the transport header says, with the addresses of the IP header.
flow_from_packet-wire :
    (h : IpHeader) (payload trailing : Bytes) (t : TransportPacket)
    → Fits h (length payload)
    → parse_transport (protocol_from_number (next_protocol h)) payload ≡ ok t
    → flow_from_packet (ip_wire h payload ++ trailing)
      ≡ ok (transport_flow (family h) (source_octets h) (destination_octets h) t)
unfolding flow_from_packet
flow_from_packet-wire h payload trailing t fits e =
    rw (parse_ip_packet-wire h payload trailing fits) (ip_flow-packet h payload t e)

pub parse_transport-udp :
    (h : IpHeader) (source destination check0 check1 : ℕ) (payload : Bytes)
    → next_protocol h ≡ 17
    → Fits h (8 + length payload)
    → parse_transport
        (protocol_from_number (next_protocol h))
        (udp_wire source destination check0 check1 payload)
      ≡ ok (
          TransportPacket.udp
            (record { source_port = source; destination_port = destination; payload = payload }))
parse_transport-udp h source destination check0 check1 payload e fits =
    rw e (unfold parse_transport protocol_from_number in rw (rw append-nil at read))
  where
    small : (k : IpHeader) → Fits k (8 + length payload) → 8 + length payload < 65536
    small (v4 g s d words options) f = omega arith
    small (v6 g s d) f = omega arith

    read :
        parse_udp (udp_wire source destination check0 check1 payload ++ [])
        ≡ ok (record { source_port = source; destination_port = destination; payload = payload })
    read = parse_udp-wire source destination check0 check1 payload [] (small h fits)

pub Fits-udp :
    (h : IpHeader) (source destination check0 check1 : ℕ) (payload : Bytes)
    → Fits h (8 + length payload)
    → Fits h (length (udp_wire source destination check0 check1 payload))
Fits-udp h source destination check0 check1 payload =
    subst (Fits h) (sym (length-udp_wire source destination check0 check1 payload))

-- A UDP datagram in an IPv4 packet (with any options) or an IPv6 packet, with any bytes behind the
-- packet, gives the flow between the header's addresses and the datagram's ports.
pub flow_from_packet-udp :
    (h : IpHeader) (source destination check0 check1 : ℕ) (payload trailing : Bytes)
    → next_protocol h ≡ 17
    → Fits h (8 + length payload)
    → flow_from_packet (ip_wire h (udp_wire source destination check0 check1 payload) ++ trailing)
      ≡ ok (flow_of h FlowProtocol.udp source destination)
unfolding transport_flow
flow_from_packet-udp h source destination check0 check1 payload trailing e fits =
    flow_from_packet-wire h (udp_wire source destination check0 check1 payload) trailing _
      (Fits-udp h source destination check0 check1 payload fits)
      (parse_transport-udp h source destination check0 check1 payload e fits)

-- A TCP segment in an IPv4 packet (with any options) or an IPv6 packet, with any bytes behind the
-- packet, gives the flow between the header's addresses and the segment's ports.
pub flow_from_packet-tcp :
    (h : IpHeader) (t : TcpHeader) (source destination words : ℕ) (options payload trailing : Bytes)
    → next_protocol h ≡ 6
    → length t.sequence ≡ 8
    → length t.window ≡ 6
    → t.reserved < 16
    → words ≤ 10
    → length options ≡ 4 * words
    → Fits h (20 + 4 * words + length payload)
    → flow_from_packet (ip_wire h (tcp_wire t source destination words options payload) ++ trailing)
      ≡ ok (flow_of h FlowProtocol.tcp source destination)
unfolding transport_flow
flow_from_packet-tcp h t source destination words options payload trailing e hs hw hr h10 ho fits =
    flow_from_packet-wire h segment trailing _
      (subst (Fits h) (sym (length-tcp_wire t source destination words options payload hs hw ho))
        fits)
      parsed
  where
    segment : Bytes
    segment = tcp_wire t source destination words options payload

    parsed :
        parse_transport (protocol_from_number (next_protocol h)) segment
        ≡ ok (
            TransportPacket.tcp (record {
              source_port = source;
              destination_port = destination;
              flags = tcp_flags t.flag_byte;
              payload = payload;
            }))
    parsed = rw e (
        unfold parse_transport protocol_from_number in
        rw (parse_tcp-wire t source destination words options payload hs hw hr h10 ho))
