-- ===== src/Kernel/Socks.antt =====
-- The SOCKS5 datagrams and addresses of crates/neoncore-kernel/src/main.rs. A `TcpStream` that is read is
-- the list of the bytes that will arrive; `read_exact` fails when they end too soon.
pub mod RoundTrip
use neon_core_atlas.Kernel.Session.{TargetAddress}
use neon_core_atlas.Prelude.{
  ltb, leb, ◌==◌, if◌then◌else◌, length, get_or, take, drop, ◌>>=◌, ◌>>◌, fail_if, ok_or, index,
  slice, slice_from, Outcome, ok, err, ◌+◌, ◌%◌, Bool, true, not, ◌||◌, none, some, [], ◌∷◌, ◌++◌,
  map_ok, ℕ,
}
use neon_core_atlas.Std.Bytes.{Bytes, u16_bytes, u16_be}
use neon_core_atlas.Std.Net.{parse_ipv4, parse_ipv6}
use neon_core_atlas.Std.Net.Show.{show_ipv4, show_ipv6}
use neon_core_atlas.Std.Text.{Text, ascii, from_utf8}

-- `anyhow::Result`, by its message
abbrev pub Anyhow : Type 0 → Type 0
Anyhow A = Outcome Text A

-- `Ipv4Addr::new(packet[index], ..., packet[index + 3]).to_string()`
unfoldable pub ipv4_at : Bytes → ℕ → Anyhow Text
ipv4_at packet i = do
  a ← index packet i
  b ← index packet (i + 1)
  c ← index packet (i + 2)
  d ← index packet (i + 3)
  ok (show_ipv4 (a ∷ b ∷ c ∷ d ∷ []))

-- The three arms of the host at `index`, with the index behind it.
unfoldable pub parse_host_ipv4 : Bytes → ℕ → Anyhow (Text × ℕ)
parse_host_ipv4 packet i = do
  fail_if (ltb (length packet) (i + 4)) (ascii "truncated SOCKS UDP IPv4 address")
  host ← ipv4_at packet i
  ok (host, i + 4)

unfoldable pub parse_host_domain : Bytes → ℕ → Anyhow (Text × ℕ)
parse_host_domain packet i = do
  fail_if (ltb (length packet) (i + 1)) (ascii "truncated SOCKS UDP domain length")
  len ← index packet i
  fail_if (ltb (length packet) (i + 1 + len)) (ascii "truncated SOCKS UDP domain")
  bytes ← slice packet (i + 1) (i + 1 + len)
  host ← ok_or (from_utf8 bytes) (ascii "invalid utf-8")
  ok (host, i + 1 + len)

unfoldable pub parse_host_ipv6 : Bytes → ℕ → Anyhow (Text × ℕ)
parse_host_ipv6 packet i = do
  fail_if (ltb (length packet) (i + 16)) (ascii "truncated SOCKS UDP IPv6 address")
  octets ← slice packet i (i + 16)
  ok (show_ipv6 octets, i + 16)

unfoldable pub parse_host : Bytes → ℕ → ℕ → Anyhow (Text × ℕ)
parse_host packet atyp i =
    if atyp == 0x01
    then parse_host_ipv4 packet i
    else if atyp == 0x03
    then parse_host_domain packet i
    else if atyp == 0x04
    then parse_host_ipv6 packet i
    else err (ascii "unsupported SOCKS UDP address type")

-- The port at `index` and the payload behind it.
unfoldable pub parse_port : Bytes → Text × ℕ → Anyhow (TargetAddress × Bytes)
parse_port packet (host, i) = do
  fail_if (ltb (length packet) (i + 2)) (ascii "truncated SOCKS UDP port")
  a ← index packet i
  b ← index packet (i + 1)
  payload ← slice_from packet (i + 2)
  ok (record { host = host; port = u16_be a b }, payload)

-- `packet.len() < 4 || packet[0] != 0 || packet[1] != 0 || packet[2] != 0`
unfoldable pub bad_header : Bytes → Bool
bad_header (a ∷ b ∷ c ∷ d ∷ rest) = not (a == 0) || not (b == 0) || not (c == 0)
bad_header packet = true

unfoldable pub parse_socks_udp_packet : Bytes → Anyhow (TargetAddress × Bytes)
parse_socks_udp_packet packet = do
  fail_if (bad_header packet) (ascii "invalid SOCKS UDP header")
  atyp ← index packet 3
  host ← parse_host packet atyp 4
  parse_port packet host

-- The address type and the address of a reply.
unfoldable pub build_host : Text → Anyhow Bytes
build_host host = elim (parse_ipv4 host) [
  | some octets ↦ ok (0x01 ∷ octets)
  | none ↦ elim (parse_ipv6 host) [
    | some octets ↦ ok (0x04 ∷ octets)
    | none ↦ do
      fail_if (ltb 255 (length host)) (ascii "SOCKS UDP response domain is too long")
      ok (0x03 ∷ length host % 256 ∷ host)
  ]
]

unfoldable pub build_socks_udp_packet : TargetAddress → Bytes → Anyhow Bytes
build_socks_udp_packet target payload = do
  host ← build_host target.host
  ok ((0 ∷ 0 ∷ 0 ∷ host) ++ (u16_bytes target.port ++ payload))

-- `AsyncReadExt::read_exact`: the bytes read, and those that will follow.
abbrev pub read_exact : ℕ → Bytes → Anyhow (Bytes × Bytes)
read_exact n stream =
    if leb n (length stream) then ok (take n stream, drop n stream) else err (ascii "early eof")

unfoldable pub read_domain : Bytes → Anyhow (Text × Bytes)
read_domain stream = do
  l ← read_exact 1 stream
  r ← read_exact (get_or l.0 0 0) l.1
  host ← ok_or (from_utf8 r.0) (ascii "invalid utf-8")
  ok (host, r.1)

unfoldable pub read_socks_host : ℕ → Bytes → Anyhow (Text × Bytes)
read_socks_host atyp stream =
    if atyp == 0x01
    then map_ok (λ r. (show_ipv4 r.0, r.1)) (read_exact 4 stream)
    else if atyp == 0x03
    then read_domain stream
    else if atyp == 0x04
    then map_ok (λ r. (show_ipv6 r.0, r.1)) (read_exact 16 stream)
    else err (ascii "unsupported SOCKS address type")

unfoldable pub read_socks_target : Bytes → ℕ → Anyhow (TargetAddress × Bytes)
read_socks_target stream atyp = do
  h ← read_socks_host atyp stream
  p ← read_exact 2 h.1
  ok (record { host = h.0; port = u16_be (get_or p.0 0 0) (get_or p.0 1 0) }, p.1)
