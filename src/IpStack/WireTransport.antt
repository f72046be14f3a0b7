-- ===== src/IpStack/WireTransport.antt =====
-- The wire formats of UDP (RFC 768) and TCP (RFC 9293), written independently of the parsers of
-- crates/neoncore-ip-stack/src/lib.rs, and what the parsers return on them.
use neon_core_atlas.IpStack.Fields.{parse_tcp_ok, parse_udp_ok, word, data_offset, at}
use neon_core_atlas.IpStack.Parse.{parse_tcp, parse_udp, tcp_flags}
use neon_core_atlas.IpStack.Wire.{middle}
use neon_core_atlas.Prelude.{
  ℕ, ◌+◌, ◌-◌, ◌*◌, ◌/◌, ◌%◌, ◌<◌, ◌≤◌, ◌≡◌, refl, ◌∙◌, [], ◌∷◌, ◌++◌, arith, length, take, drop,
  length-append, get_or-append, drop-append_length, ok, append_assoc, subst,
}
use neon_core_atlas.Std.Bytes.{Bytes}

-- `check` is the checksum, which the parser skips.
abbrev pub udp_fixed : ℕ → ℕ → ℕ → ℕ → ℕ → Bytes
udp_fixed source destination len check0 check1 =
    source / 256
    ∷ source % 256
    ∷ destination / 256
    ∷ destination % 256
    ∷ len / 256
    ∷ len % 256
    ∷ check0
    ∷ check1
    ∷ []

pub udp_wire : ℕ → ℕ → ℕ → ℕ → Bytes → Bytes
udp_wire source destination check0 check1 payload =
    udp_fixed source destination (8 + length payload) check0 check1 ++ payload

pub length-udp_wire :
    (source destination check0 check1 : ℕ) (payload : Bytes)
    → length (udp_wire source destination check0 check1 payload) ≡ 8 + length payload
unfolding udp_wire
length-udp_wire source destination check0 check1 payload = omega arith

pub parse_udp-wire :
    (source destination check0 check1 : ℕ) (payload trailing : Bytes)
    → 8 + length payload < 65536
    → parse_udp (udp_wire source destination check0 check1 payload ++ trailing)
      ≡ ok (record { source_port = source; destination_port = destination; payload = payload })
unfolding udp_wire
parse_udp-wire source destination check0 check1 payload trailing h =
    parse_udp_ok packet (omega arith) (omega (arith, length-append payload trailing))
    ∙ ground (arith, rest)
  where
    fixed : Bytes
    fixed = udp_fixed source destination (8 + length payload) check0 check1

    packet : Bytes
    packet = (fixed ++ payload) ++ trailing

    rest : take (word packet 4 - 8) (drop 8 packet) ≡ payload
    rest = middle (word packet 4 - 8) 8 fixed payload trailing refl (omega arith)

-- The fields of a TCP header that the parser skips.
pub record TcpHeader : Type 0 where
  pub sequence : Bytes
  pub reserved : ℕ
  pub flag_byte : ℕ
  pub window : Bytes

-- `words` option words stand behind the 20 bytes of the fixed header; `sequence` holds the two
-- numbers, of eight bytes, and `window` the last six bytes of the fixed header.
pub tcp_wire : TcpHeader → ℕ → ℕ → ℕ → Bytes → Bytes → Bytes
tcp_wire h source destination words options payload =
    (source / 256 ∷ source % 256 ∷ destination / 256 ∷ destination % 256 ∷ h.sequence)
    ++ (((5 + words) * 16 + h.reserved) ∷ h.flag_byte ∷ (h.window ++ (options ++ payload)))

pub length-tcp_wire :
    (h : TcpHeader) (source destination words : ℕ) (options payload : Bytes)
    → length h.sequence ≡ 8
    → length h.window ≡ 6
    → length options ≡ 4 * words
    → length (tcp_wire h source destination words options payload) ≡ 20 + 4 * words + length payload
unfolding tcp_wire
length-tcp_wire h source destination words options payload hs hw ho = omega (
  arith,
  length-append h.sequence
      (((5 + words) * 16 + h.reserved) ∷ h.flag_byte ∷ (h.window ++ (options ++ payload))),
  length-append h.window (options ++ payload),
  length-append options payload,
)

pub parse_tcp-wire :
    (h : TcpHeader) (source destination words : ℕ) (options payload : Bytes)
    → length h.sequence ≡ 8
    → length h.window ≡ 6
    → h.reserved < 16
    → words ≤ 10
    → length options ≡ 4 * words
    → parse_tcp (tcp_wire h source destination words options payload)
      ≡ ok (record {
        source_port = source;
        destination_port = destination;
        flags = tcp_flags h.flag_byte;
        payload = payload;
      })
unfolding tcp_wire
parse_tcp-wire h source destination words options payload hs hw hr h10 ho =
    parse_tcp_ok packet (omega (arith, offset)) (omega (arith, offset, size))
    ∙ ground (arith, rest, flags)
  where
    ports : Bytes
    ports = source / 256 ∷ source % 256 ∷ destination / 256 ∷ destination % 256 ∷ []

    tail : Bytes
    tail = ((5 + words) * 16 + h.reserved) ∷ h.flag_byte ∷ (h.window ++ (options ++ payload))

    packet : Bytes
    packet = (ports ++ h.sequence) ++ tail

    fixed : Bytes
    fixed =
        (ports ++ h.sequence)
        ++ (((5 + words) * 16 + h.reserved) ∷ h.flag_byte ∷ (h.window ++ options))

    size : length packet ≡ 20 + 4 * words + length payload
    size = omega (
      arith,
      length-append h.sequence tail,
      length-append h.window (options ++ payload),
      length-append options payload,
    )

    byte12 : at packet 12 ≡ (5 + words) * 16 + h.reserved
    byte12 = get_or-append 12 0 0 (ports ++ h.sequence) tail (omega arith)

    flags : at packet 13 ≡ h.flag_byte
    flags = get_or-append 12 1 0 (ports ++ h.sequence) tail (omega arith)

    offset : data_offset packet ≡ 20 + 4 * words
    offset = omega (arith, byte12)

    regroup : fixed ++ payload ≡ packet
    regroup = simp append_assoc

    fixed_size : length fixed ≡ 20 + 4 * words
    fixed_size = omega (
      arith,
      length-append h.sequence
          (((5 + words) * 16 + h.reserved) ∷ h.flag_byte ∷ (h.window ++ options)),
      length-append h.window options,
    )

    rest : drop (data_offset packet) packet ≡ payload
    rest =
        subst (λ (l : Bytes). drop (data_offset packet) l ≡ payload) regroup
          (drop-append_length (data_offset packet) fixed payload
            (omega (arith, offset, fixed_size)))
