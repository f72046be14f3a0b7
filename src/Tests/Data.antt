-- ===== src/Tests/Data.antt =====
-- Packets, rules and requests that the examples use.

use neon_core_atlas.DnsHijack.{default_config}
use neon_core_atlas.IpStack.{FlowProtocol, Flow}
use neon_core_atlas.IpStack.Flows.{IpHeader, flow_of}
use neon_core_atlas.IpStack.Wire.{Ipv4Header, Quad}
use neon_core_atlas.IpStack.WireTransport.{TcpHeader}
use neon_core_atlas.Prelude.{replicate, Bool, true, [], ◌∷◌, ℕ}
use neon_core_atlas.Routing.{RoutingMode, RouteMatcher, RouteAction, RoutingRule}
use neon_core_atlas.Std.Bytes.{Bytes}
use neon_core_atlas.Std.Text.{ascii}
use neon_core_atlas.Tun.{TunConfig}

abbrev pub header : Ipv4Header
header = record {
  service = 0;
  id0 = 0;
  id1 = 1;
  frag0 = 0;
  frag1 = 0;
  ttl = 64;
  protocol = 17;
  check0 = 0;
  check1 = 0;
}

abbrev pub client : Quad
client = record { a = 10; b = 0; c = 0; d = 2 }

abbrev pub server : Quad
server = record { a = 1; b = 1; c = 1; d = 1 }

abbrev pub udp_header : IpHeader
udp_header = IpHeader.v4 header client server 0 []

abbrev pub tcp_header : IpHeader
tcp_header = IpHeader.v4 (record header { protocol = 6 }) client server 0 []

abbrev pub syn : TcpHeader
syn = record { sequence = replicate 8 0; reserved = 0; flag_byte = 2; window = replicate 6 0 }

-- One question, and the query bit.
abbrev pub query : Bytes
query = 0 ∷ 1 ∷ 1 ∷ 0 ∷ 0 ∷ 1 ∷ replicate 6 0

abbrev pub rule_for : ℕ → RouteAction → Bool → RoutingRule
rule_for number action on = record {
  id = ascii "r";
  matcher = RouteMatcher.port number;
  action = action;
  enabled = on;
}

abbrev pub reject_all : TunConfig
reject_all = record {
  routing = record { mode = RoutingMode.rule; rules = rule_for 53 RouteAction.reject true ∷ [] };
  dns_hijack = default_config;
}

abbrev pub dns_flow : Flow
dns_flow = flow_of udp_header FlowProtocol.udp 5353 53
