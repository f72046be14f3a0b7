-- ===== src/IpStack/Fields.antt =====
-- The parsers of crates/neoncore-ip-stack/src/lib.rs branch by branch, with every field by its
-- position in the packet and no read that can fail.
use neon_core_atlas.Prelude.{
  ℕ, ◌+◌, ◌-◌, ◌*◌, ◌/◌, ◌≤◌, ◌≡◌, ◌||◌, ltb, arith, length, get_or, take, drop, bit_and, err, ok,
  index_lem, slice_lem, slice_from_lem, if◌then◌else◌,
}
use neon_core_atlas.Std.Bytes.{Bytes, u16_be}
use neon_core_atlas.IpStack.{
  IpStackError, Ipv4Packet, Ipv6Packet, TcpSegment, UdpDatagram, packet_too_short,
  invalid_ipv4_header, invalid_ipv6_header, invalid_transport_header,
}
use neon_core_atlas.IpStack.Parse.{
  parse_ipv4, parse_ipv6, parse_tcp, parse_udp, protocol_from_number, tcp_flags,
}

abbrev pub at : Bytes → ℕ → ℕ
at packet i = get_or packet i 0

abbrev pub word : Bytes → ℕ → ℕ
word packet i = u16_be (at packet i) (at packet (i + 1))

abbrev pub header_len : Bytes → ℕ
header_len packet = bit_and (at packet 0) 0x0f * 4

abbrev pub ipv4_fields : Bytes → Ipv4Packet
ipv4_fields packet = record {
  source = take 4 (drop 12 packet);
  destination = take 4 (drop 16 packet);
  protocol = protocol_from_number (at packet 9);
  payload = take (word packet 2 - header_len packet) (drop (header_len packet) packet);
}

pub parse_ipv4_total :
    (packet : Bytes)
    → parse_ipv4 packet ≡ (
        if ltb (length packet) 20
        then err packet_too_short
        else if ltb (header_len packet) 20 || ltb (length packet) (header_len packet)
        then err invalid_ipv4_header
        else if ltb (word packet 2) (header_len packet) || ltb (length packet) (word packet 2)
        then err invalid_ipv4_header
        else ok (ipv4_fields packet))
unfolding parse_ipv4
parse_ipv4_total packet = ground (
  arith,
  index_lem {E = IpStackError} packet 0 0,
  index_lem {E = IpStackError} packet 2 0,
  index_lem {E = IpStackError} packet 3 0,
  index_lem {E = IpStackError} packet 9 0,
  slice_lem {E = IpStackError} packet 12 16,
  slice_lem {E = IpStackError} packet 16 20,
  slice_lem {E = IpStackError} packet (header_len packet) (word packet 2),
)

pub parse_ipv4_ok :
    (packet : Bytes)
    → 20 ≤ header_len packet
    → header_len packet ≤ word packet 2
    → word packet 2 ≤ length packet
    → parse_ipv4 packet ≡ ok (ipv4_fields packet)
parse_ipv4_ok packet h w l = ground (arith, parse_ipv4_total packet)

abbrev pub ipv6_fields : Bytes → Ipv6Packet
ipv6_fields packet = record {
  source = take 16 (drop 8 packet);
  destination = take 16 (drop 24 packet);
  next_header = protocol_from_number (at packet 6);
  payload = take (40 + word packet 4 - 40) (drop 40 packet);
}

pub parse_ipv6_total :
    (packet : Bytes)
    → parse_ipv6 packet ≡ (
        if ltb (length packet) 40
        then err packet_too_short
        else if ltb (length packet) (40 + word packet 4)
        then err invalid_ipv6_header
        else ok (ipv6_fields packet))
unfolding parse_ipv6
parse_ipv6_total packet = ground (
  arith,
  index_lem {E = IpStackError} packet 4 0,
  index_lem {E = IpStackError} packet 5 0,
  index_lem {E = IpStackError} packet 6 0,
  slice_lem {E = IpStackError} packet 8 24,
  slice_lem {E = IpStackError} packet 24 40,
  slice_lem {E = IpStackError} packet 40 (40 + word packet 4),
)

pub parse_ipv6_ok :
    (packet : Bytes)
    → 40 + word packet 4 ≤ length packet
    → parse_ipv6 packet ≡ ok (ipv6_fields packet)
parse_ipv6_ok packet l = ground (arith, parse_ipv6_total packet)

abbrev pub data_offset : Bytes → ℕ
data_offset payload = at payload 12 / 16 * 4

abbrev pub tcp_fields : Bytes → TcpSegment
tcp_fields payload = record {
  source_port = word payload 0;
  destination_port = word payload 2;
  flags = tcp_flags (at payload 13);
  payload = drop (data_offset payload) payload;
}

pub parse_tcp_total :
    (payload : Bytes)
    → parse_tcp payload ≡ (
        if ltb (length payload) 20
        then err invalid_transport_header
        else if ltb (data_offset payload) 20 || ltb (length payload) (data_offset payload)
        then err invalid_transport_header
        else ok (tcp_fields payload))
unfolding parse_tcp
parse_tcp_total payload = ground (
  arith,
  index_lem {E = IpStackError} payload 0 0,
  index_lem {E = IpStackError} payload 1 0,
  index_lem {E = IpStackError} payload 2 0,
  index_lem {E = IpStackError} payload 3 0,
  index_lem {E = IpStackError} payload 12 0,
  index_lem {E = IpStackError} payload 13 0,
  slice_from_lem {E = IpStackError} payload (data_offset payload),
)

pub parse_tcp_ok :
    (payload : Bytes)
    → 20 ≤ data_offset payload
    → data_offset payload ≤ length payload
    → parse_tcp payload ≡ ok (tcp_fields payload)
parse_tcp_ok payload h l = ground (arith, parse_tcp_total payload)

abbrev pub udp_fields : Bytes → UdpDatagram
udp_fields payload = record {
  source_port = word payload 0;
  destination_port = word payload 2;
  payload = take (word payload 4 - 8) (drop 8 payload);
}

pub parse_udp_total :
    (payload : Bytes)
    → parse_udp payload ≡ (
        if ltb (length payload) 8
        then err invalid_transport_header
        else if ltb (word payload 4) 8 || ltb (length payload) (word payload 4)
        then err invalid_transport_header
        else ok (udp_fields payload))
unfolding parse_udp
parse_udp_total payload = ground (
  arith,
  index_lem {E = IpStackError} payload 0 0,
  index_lem {E = IpStackError} payload 1 0,
  index_lem {E = IpStackError} payload 2 0,
  index_lem {E = IpStackError} payload 3 0,
  index_lem {E = IpStackError} payload 4 0,
  index_lem {E = IpStackError} payload 5 0,
  slice_lem {E = IpStackError} payload 8 (word payload 4),
)

pub parse_udp_ok :
    (payload : Bytes)
    → 8 ≤ word payload 4
    → word payload 4 ≤ length payload
    → parse_udp payload ≡ ok (udp_fields payload)
parse_udp_ok payload h l = ground (arith, parse_udp_total payload)
