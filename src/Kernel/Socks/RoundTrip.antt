-- ===== src/Kernel/Socks/RoundTrip.antt =====
-- What `parse_socks_udp_packet` reads from what `build_socks_udp_packet` writes
-- (crates/neoncore-kernel/src/main.rs).

use neon_core_atlas.Kernel.Session.{TargetAddress}
use neon_core_atlas.Kernel.Socks.{
  parse_host, parse_port, parse_host_ipv4, parse_host_domain, parse_host_ipv6, ipv4_at,
  parse_socks_udp_packet, build_socks_udp_packet, bad_header, build_host,
}
use neon_core_atlas.Prelude.{
  length, length-append, take-append_length, ok, ◌+◌, ◌%◌, ◌≤◌, ◌<◌, ◌≡◌, refl, true, none, some,
  [], ◌∷◌, ◌++◌, arith, ℕ, get_elem?-append, drop-append, le→ltb, Option-cases, ◌>>=◌, inl, inr,
}
use neon_core_atlas.Std.Bytes.{Bytes, u16_bytes}
use neon_core_atlas.Std.Net.{parse_ipv4, parse_ipv6}
use neon_core_atlas.Std.Net.Lengths.{parse_ipv4-length, parse_ipv6-length}
use neon_core_atlas.Std.Net.Show.{show_ipv6, show_ipv4}
use neon_core_atlas.Std.Text.{Text, is_utf8}

-- A name as the client gets it back: an address in its standard text, any other name as it is.
unfoldable pub standard_host : Text → Text
standard_host host = elim (parse_ipv4 host) [
  | some octets ↦ show_ipv4 octets
  | none ↦ elim (parse_ipv6 host) [ some octets ↦ show_ipv6 octets | none ↦ host ]
]

parse_port-back :
    (front payload : Bytes) (host : Text) (port n : ℕ)
    → length front ≡ n
    → port < 65536
    → parse_port (front ++ (u16_bytes port ++ payload)) (host, n)
      ≡ ok (record { host = host; port = port }, payload)
unfolding parse_port
parse_port-back front payload host port n e p = ground (
  arith,
  length-append front (u16_bytes port ++ payload),
  get_elem?-append n 0 front (u16_bytes port ++ payload) e,
  get_elem?-append n 1 front (u16_bytes port ++ payload) e,
  drop-append n 2 front (u16_bytes port ++ payload) e,
)
  where
    packet : Bytes
    packet = front ++ (u16_bytes port ++ payload)

parse_host-ipv4 :
    (octets rest : Bytes)
    → length octets ≡ 4
    → parse_host ((0 ∷ 0 ∷ 0 ∷ 1 ∷ octets) ++ rest) 1 4 ≡ ok (show_ipv4 octets, 8)
unfolding parse_host parse_host_ipv4 ipv4_at
parse_host-ipv4 (a ∷ b ∷ c ∷ d ∷ []) rest e = ground arith
parse_host-ipv4 [] rest e = absurd (omega arith)
parse_host-ipv4 (a ∷ []) rest e = absurd (omega arith)
parse_host-ipv4 (a ∷ b ∷ []) rest e = absurd (omega arith)
parse_host-ipv4 (a ∷ b ∷ c ∷ []) rest e = absurd (omega arith)
parse_host-ipv4 (a ∷ b ∷ c ∷ d ∷ f ∷ g) rest e = absurd (omega arith)

parse_host-ipv6 :
    (octets rest : Bytes)
    → length octets ≡ 16
    → parse_host ((0 ∷ 0 ∷ 0 ∷ 4 ∷ octets) ++ rest) 4 4 ≡ ok (show_ipv6 octets, 20)
unfolding parse_host parse_host_ipv6
parse_host-ipv6 octets rest e =
    ground (arith, take-append_length 16 octets rest e, length-append octets rest)

parse_host-domain :
    (host rest : Bytes)
    → length host ≤ 255
    → is_utf8 host ≡ true
    → parse_host ((0 ∷ 0 ∷ 0 ∷ 3 ∷ length host % 256 ∷ host) ++ rest) 3 4
      ≡ ok (host, 5 + length host)
unfolding parse_host parse_host_domain
parse_host-domain host rest h u =
    ground (arith, take-append_length (length host) host rest refl, length-append host rest)

-- A packet with a good header, once its host is read.
parse-front :
    (front payload : Bytes) (atyp n : ℕ) (host : Text) (port : ℕ) (tail : Bytes)
    → front ≡ 0 ∷ 0 ∷ 0 ∷ atyp ∷ tail
    → length front ≡ n
    → port < 65536
    → parse_host (front ++ (u16_bytes port ++ payload)) atyp 4 ≡ ok (host, n)
    → parse_socks_udp_packet (front ++ (u16_bytes port ++ payload))
      ≡ ok (record { host = host; port = port }, payload)
unfolding parse_socks_udp_packet bad_header
parse-front front payload atyp n host port tail f e p h =
    rw f (rw (rw f at h) (rw f at (parse_port-back front payload host port n e p)))

-- A packet whose host was written with this address type and these bytes.
assembled :
    (target : TargetAddress) (payload : Bytes) (atyp n : ℕ) (host : Text) (tail : Bytes)
    → build_host target.host ≡ ok (atyp ∷ tail)
    → standard_host target.host ≡ host
    → 4 + length tail ≡ n
    → target.port < 65536
    → parse_host ((0 ∷ 0 ∷ 0 ∷ atyp ∷ tail) ++ (u16_bytes target.port ++ payload)) atyp 4
      ≡ ok (host, n)
    → (build_socks_udp_packet target payload >>= parse_socks_udp_packet)
      ≡ ok (record { host = standard_host target.host; port = target.port }, payload)
unfolding build_socks_udp_packet
assembled target payload atyp n host tail b s e p h =
    rw (b, s, build_socks_udp_packet)
      (parse-front (0 ∷ 0 ∷ 0 ∷ atyp ∷ tail) payload atyp n host target.port tail refl
        (omega (arith, e)) p h)

module _ (host : Text) where
  written_ipv4 :
      (a : Bytes)
      → parse_ipv4 host ≡ some a
      → (build_host host ≡ ok (1 ∷ a)) × (standard_host host ≡ show_ipv4 a)
  unfolding build_host standard_host
  written_ipv4 a e = (rw (e, build_host) refl, rw (e, standard_host) refl)

  written_ipv6 :
      (a : Bytes)
      → parse_ipv4 host ≡ none
      → parse_ipv6 host ≡ some a
      → (build_host host ≡ ok (4 ∷ a)) × (standard_host host ≡ show_ipv6 a)
  unfolding build_host standard_host
  written_ipv6 a e f = (rw (e, f, build_host) refl, rw (e, f, standard_host) refl)

  written_domain :
      parse_ipv4 host ≡ none
      → parse_ipv6 host ≡ none
      → length host ≤ 255
      → (build_host host ≡ ok (3 ∷ length host % 256 ∷ host)) × (standard_host host ≡ host)
  unfolding build_host standard_host
  written_domain e f l =
      (rw (e, f, le→ltb 255 (length host) l, build_host) refl, rw (e, f, standard_host) refl)

-- What the relay writes for a client reads back as the same port and payload, and as the same host, an
-- address of which is in its standard text, whenever the host is UTF-8 text of at most 255 bytes and
-- the port a 16-bit number.
pub parse_socks_udp_packet-build :
    (target : TargetAddress) (payload : Bytes)
    → target.port < 65536
    → is_utf8 target.host ≡ true
    → length target.host ≤ 255
    → (build_socks_udp_packet target payload >>= parse_socks_udp_packet)
      ≡ ok (record { host = standard_host target.host; port = target.port }, payload)
parse_socks_udp_packet-build target payload p u l = elim (Option-cases (parse_ipv4 host)) [
  | inr (a, e) ↦
      let (b, s) = written_ipv4 host a e in
      let n = parse_ipv4-length host a e in
      assembled target payload 1 8 _ a b s (omega (arith, n)) p (parse_host-ipv4 a _ n)
  | inl e ↦ elim (Option-cases (parse_ipv6 host)) [
    | inr (a, f) ↦
        let (b, s) = written_ipv6 host a e f in
        let n = parse_ipv6-length host a f in
        assembled target payload 4 20 _ a b s (omega (arith, n)) p (parse_host-ipv6 a _ n)
    | inl f ↦
        let (b, s) = written_domain host e f l in
        assembled target payload 3 (5 + length host) _ _ b s (omega arith) p
          (parse_host-domain host _ l u)
  ]
]
  where
    host : Text
    host = target.host
