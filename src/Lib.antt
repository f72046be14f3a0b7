-- ===== src/Lib.antt =====
-- NeonCore Atlas, a proxy client: the packet path and the kernel.
--
-- The packet path takes the packets of a tunnel. crates/neoncore-ip-stack/src/lib.rs reads headers and
-- the flow of a packet (IpStack for the data, IpStack/Parse for the parsers), crates/neoncore-dns/src/lib.rs
-- says which flows are DNS (DnsHijack), crates/neoncore-routing/src/lib.rs decides by rules (Routing, with
-- Cidr for `matches_cidr`), and crates/neoncore-tun/src/lib.rs puts the three together (Tun:
-- `inspect_packet` is `TunEngine::inspect_packet`, the configuration is its argument).
--
-- The kernel, crates/neoncore-kernel/src, serves local clients. session.rs is Kernel/Session, routing.rs
-- is Kernel/Routing (`Router::decide` and `Router::node_for` are `decide` and `node_for`), dns.rs is
-- Kernel/Dns for the resolver of proxy servers (`ProxyServerResolver::resolve` is `resolve`) and
-- Kernel/Resolver for that of direct targets (`DnsResolver::resolve` is `resolve_host`). Of main.rs, the
-- SOCKS5 addresses and datagrams are Kernel/Socks, and the check of a session and the reading of HTTP
-- requests Kernel/Inbound. adapter/hysteria2.rs is Kernel/Hysteria2 for its wire formats,
-- adapter/anytls.rs is Kernel/AnyTls for frames, padding and UDP over TCP packets, and packet_session.rs
-- is PacketSession: replies of a packet connection are handed to the requests that wait. Its abstract view
-- is the list of waiting requests, oldest first (PacketSession/Spec), and the operations implement it.
--
-- adapter/vless.rs is Kernel/Vless: protobuf varints (Varint), gRPC hunks (Grpc), XUDP frames and the
-- addresses (Xudp), the request and the response header (Request), the pool of HTTP/2 connections (Xmux:
-- `XHttpH2XmuxManager::get_client` is `get_client`), the connection limited to TLS records (RecordLimit:
-- `RecordLimitedTcp::poll_read` is `poll_read`), the hosts and paths of the transports (Config), and the
-- Vision padding (Vision: `push` is `VisionUnpaddingState::push`; Vision/Uplink:
-- `command_for` and the uplink loop of `bridge_vless_stream`, `bridge_uplink`). Stream
-- is what the decoders of streams share: a loop takes items off what is pending.
--
-- How code becomes definitions. Numbers are the native numbers, and what a width cuts off is written
-- out. Bytes and text are lists of numbers (Std/Bytes, Std/Text); the functions of the standard library
-- that the code calls are written in Std. Code that can fail returns an `Outcome`: a value, an error, or
-- a panic where an index or a slice is out of range. A stream that is read is the list of the bytes to
-- come. State is a record that an operation takes and returns; what an operation sends is a log in that
-- record. A map is an association list, and nothing depends on its order. Loops are recursion on the
-- list they walk or on a count of what is left to read. The loops that take frames off a buffer have the
-- length of the buffer as fuel, which is enough since a frame takes a byte at least; ten rounds are enough
-- for a varint of 64 bits.
--
-- Parameters: the JSON of a node (Kernel/Session), the HTTPS exchange with a DNS server and the resolver
-- of the system (Kernel/Dns and Kernel/Resolver, with the readings of the clock as arguments), the check
-- of a node by its adapter (Kernel/Inbound), and the hash and the random salt of the Salamander
-- obfuscation (Kernel/Hysteria2). The padding sizes of AnyTLS are given, not drawn. Whether a connection of
-- the HTTP/2 pool opens, and what happens to it later, is the environment's choice (Kernel/Vless/Xmux).
--
-- Not modelled: sockets, tasks and timers, the rewriting of HTTP requests, the sessions of AnyTLS, the
-- reading of the configuration, the sockets and TLS of the transports and the mux worker of VLESS, the
-- adapters other than Hysteria2, AnyTLS and VLESS, the QUIC client, the serialised form of sessions, the core
-- types, the daemon, the command line, the updater, the apps, and the vendored libraries. A poisoned lock is
-- not modelled either.

pub mod Prelude
pub mod Std
pub mod Stream
pub mod IpStack
pub mod Cidr
pub mod Routing
pub mod DnsHijack
pub mod Tun
pub mod PacketSession
pub mod Kernel
pub mod Tests
