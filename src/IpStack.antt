-- ===== src/IpStack.antt =====
-- crates/neoncore-ip-stack/src/lib.rs: IPv4, IPv6, TCP and UDP headers, and the flow of a packet.
-- A slice of a packet is the list of its bytes. An index or a slice out of range is `panic`.
pub mod Parse
pub mod Fields
pub mod Safety
pub mod Wire
pub mod WireTransport
pub mod Flows
use neon_core_atlas.Prelude.{ℕ, Bool}
use neon_core_atlas.Std.Bytes.{Bytes}
use neon_core_atlas.Std.Net.{IpAddr}

pub data TransportProtocol : Type 0 where
  tcp udp icmp icmpv6 : TransportProtocol
  other : ℕ → TransportProtocol

pub record Ipv4Packet : Type 0 where
  pub source : Bytes
  pub destination : Bytes
  pub protocol : TransportProtocol
  pub payload : Bytes

pub record Ipv6Packet : Type 0 where
  pub source : Bytes
  pub destination : Bytes
  pub next_header : TransportProtocol
  pub payload : Bytes

pub data IpPacket : Type 0 where
  v4 : Ipv4Packet → IpPacket
  v6 : Ipv6Packet → IpPacket

pub record TcpFlags : Type 0 where
  pub fin : Bool
  pub syn : Bool
  pub rst : Bool
  pub psh : Bool
  pub ack : Bool
  pub urg : Bool

pub record TcpSegment : Type 0 where
  pub source_port : ℕ
  pub destination_port : ℕ
  pub flags : TcpFlags
  pub payload : Bytes

pub record UdpDatagram : Type 0 where
  pub source_port : ℕ
  pub destination_port : ℕ
  pub payload : Bytes

pub data TransportPacket : Type 0 where
  tcp : TcpSegment → TransportPacket
  udp : UdpDatagram → TransportPacket

pub data FlowProtocol : Type 0 where
  tcp udp : FlowProtocol

pub record SocketEndpoint : Type 0 where
  pub address : IpAddr
  pub port : ℕ

pub record Flow : Type 0 where
  pub source : SocketEndpoint
  pub destination : SocketEndpoint
  pub protocol : FlowProtocol

pub data IpStackError : Type 0 where
  packet_too_short : IpStackError
  unsupported_ip_version : ℕ → IpStackError
  invalid_ipv4_header invalid_ipv6_header : IpStackError
  unsupported_transport_protocol invalid_transport_header : IpStackError
