-- ===== src/IpStack/Parse.antt =====
-- The parsers of crates/neoncore-ip-stack/src/lib.rs.
use neon_core_atlas.Prelude.{
  ℕ, ◌+◌, ◌*◌, ◌/◌, Bool, ◌||◌, not, bit_and, ltb, ◌==◌, if◌then◌else◌, length, get_elem?, Outcome,
  ok, err, ◌>>=◌, ◌>>◌, fail_if, ok_or, map_ok, index, slice, slice_from,
}
use neon_core_atlas.Std.Bytes.{Bytes, u16_be}
use neon_core_atlas.Std.Net.{IpAddr}
use neon_core_atlas.IpStack.{
  TransportProtocol, Ipv4Packet, Ipv6Packet, IpPacket, TcpFlags, TcpSegment, UdpDatagram,
  TransportPacket, FlowProtocol, SocketEndpoint, Flow, IpStackError, packet_too_short,
  unsupported_ip_version, invalid_ipv4_header, invalid_ipv6_header, unsupported_transport_protocol,
  invalid_transport_header,
}

abbrev pub Parsed : Type 0 → Type 0
Parsed A = Outcome IpStackError A

unfoldable pub protocol_from_number : ℕ → TransportProtocol
protocol_from_number value =
    if value == 1
    then TransportProtocol.icmp
    else if value == 6
    then TransportProtocol.tcp
    else if value == 17
    then TransportProtocol.udp
    else if value == 58
    then TransportProtocol.icmpv6
    else TransportProtocol.other value

-- `packet[i..i + n]` for the constants `i` and `n` of an address, octet by octet.
unfoldable pub octets : Bytes → ℕ → ℕ → Parsed Bytes
octets packet i n = slice packet i (i + n)

unfoldable pub parse_ipv4 : Bytes → Parsed Ipv4Packet
unfolding protocol_from_number octets
parse_ipv4 packet = do
  fail_if (ltb (length packet) 20) packet_too_short
  b0 ← index packet 0
  let ihl = bit_and b0 0x0f * 4
  fail_if (ltb ihl 20 || ltb (length packet) ihl) invalid_ipv4_header
  b2 ← index packet 2
  b3 ← index packet 3
  let total_len = u16_be b2 b3
  fail_if (ltb total_len ihl || ltb (length packet) total_len) invalid_ipv4_header
  source ← octets packet 12 4
  destination ← octets packet 16 4
  b9 ← index packet 9
  payload ← slice packet ihl total_len
  ok (record {
    source = source;
    destination = destination;
    protocol = protocol_from_number b9;
    payload = payload;
  })

unfoldable pub parse_ipv6 : Bytes → Parsed Ipv6Packet
unfolding protocol_from_number octets
parse_ipv6 packet = do
  fail_if (ltb (length packet) 40) packet_too_short
  b4 ← index packet 4
  b5 ← index packet 5
  let payload_len = u16_be b4 b5
  fail_if (ltb (length packet) (40 + payload_len)) invalid_ipv6_header
  source ← octets packet 8 16
  destination ← octets packet 24 16
  b6 ← index packet 6
  payload ← slice packet 40 (40 + payload_len)
  ok (record {
    source = source;
    destination = destination;
    next_header = protocol_from_number b6;
    payload = payload;
  })

unfoldable pub parse_ip_packet : Bytes → Parsed IpPacket
unfolding parse_ipv4 parse_ipv6
parse_ip_packet packet = do
  first ← ok_or (get_elem? packet 0) packet_too_short
  let version = first / 16
  if version == 4
      then map_ok IpPacket.v4 (parse_ipv4 packet)
      else if version == 6
      then map_ok IpPacket.v6 (parse_ipv6 packet)
      else err (unsupported_ip_version version)

abbrev pub is_set : ℕ → ℕ → Bool
is_set byte mask = not (bit_and byte mask == 0)

unfoldable pub tcp_flags : ℕ → TcpFlags
tcp_flags flag_byte = record {
  fin = is_set flag_byte 0x01;
  syn = is_set flag_byte 0x02;
  rst = is_set flag_byte 0x04;
  psh = is_set flag_byte 0x08;
  ack = is_set flag_byte 0x10;
  urg = is_set flag_byte 0x20;
}

unfoldable pub parse_tcp : Bytes → Parsed TcpSegment
unfolding tcp_flags
parse_tcp payload = do
  fail_if (ltb (length payload) 20) invalid_transport_header
  b12 ← index payload 12
  let data_offset = b12 / 16 * 4
  fail_if (ltb data_offset 20 || ltb (length payload) data_offset) invalid_transport_header
  flag_byte ← index payload 13
  b0 ← index payload 0
  b1 ← index payload 1
  b2 ← index payload 2
  b3 ← index payload 3
  rest ← slice_from payload data_offset
  ok (record {
    source_port = u16_be b0 b1;
    destination_port = u16_be b2 b3;
    flags = tcp_flags flag_byte;
    payload = rest;
  })

unfoldable pub parse_udp : Bytes → Parsed UdpDatagram
parse_udp payload = do
  fail_if (ltb (length payload) 8) invalid_transport_header
  b4 ← index payload 4
  b5 ← index payload 5
  let len = u16_be b4 b5
  fail_if (ltb len 8 || ltb (length payload) len) invalid_transport_header
  b0 ← index payload 0
  b1 ← index payload 1
  b2 ← index payload 2
  b3 ← index payload 3
  rest ← slice payload 8 len
  ok (record { source_port = u16_be b0 b1; destination_port = u16_be b2 b3; payload = rest })

unfoldable pub parse_transport : TransportProtocol → Bytes → Parsed TransportPacket
unfolding parse_tcp parse_udp
parse_transport TransportProtocol.tcp payload = map_ok TransportPacket.tcp (parse_tcp payload)
parse_transport TransportProtocol.udp payload = map_ok TransportPacket.udp (parse_udp payload)
parse_transport _ payload = err unsupported_transport_protocol

abbrev endpoint : IpAddr → ℕ → SocketEndpoint
endpoint address port = record { address = address; port = port }

-- The two inner matches of `flow_from_packet` differ in the family of the addresses only.
unfoldable pub transport_flow : (Bytes → IpAddr) → Bytes → Bytes → TransportPacket → Flow
transport_flow family source destination (TransportPacket.tcp segment) = record {
  source = endpoint (family source) segment.source_port;
  destination = endpoint (family destination) segment.destination_port;
  protocol = FlowProtocol.tcp;
}
transport_flow family source destination (TransportPacket.udp datagram) = record {
  source = endpoint (family source) datagram.source_port;
  destination = endpoint (family destination) datagram.destination_port;
  protocol = FlowProtocol.udp;
}

unfoldable pub ip_flow : IpPacket → Parsed Flow
unfolding parse_transport transport_flow
ip_flow (IpPacket.v4 ip) =
    map_ok (transport_flow IpAddr.v4 ip.source ip.destination)
      (parse_transport ip.protocol ip.payload)
ip_flow (IpPacket.v6 ip) =
    map_ok (transport_flow IpAddr.v6 ip.source ip.destination)
      (parse_transport ip.next_header ip.payload)

unfoldable pub flow_from_packet : Bytes → Parsed Flow
unfolding parse_ip_packet ip_flow
flow_from_packet packet = parse_ip_packet packet >>= ip_flow
