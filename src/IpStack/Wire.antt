-- ===== src/IpStack/Wire.antt =====
-- The wire formats of RFC 791, 8200, 768 and 9293, written independently of the parsers of
-- crates/neoncore-ip-stack/src/lib.rs, and what the parsers return on them.
use neon_core_atlas.IpStack.Fields.{parse_ipv4_ok, parse_ipv6_ok, ipv4_fields, header_len, word}
use neon_core_atlas.IpStack.Parse.{parse_ipv4, parse_ipv6, protocol_from_number}
use neon_core_atlas.Prelude.{
  ℕ, ◌+◌, ◌-◌, ◌*◌, ◌/◌, ◌%◌, ◌<◌, ◌≤◌, ◌≡◌, ◌∙◌, ap, [], ◌∷◌, ◌++◌, arith, length, take, drop,
  length-append, take-append_length, drop-append_length, ok, append_assoc, bit_and, subst,
  get_elem?, refl, some,
}
use neon_core_atlas.Prelude.Bits.{bit_and_ones}
use neon_core_atlas.Std.Bytes.{Bytes}

-- The header fields that the parsers skip are carried along, so that every header can be written.
pub record Ipv4Header : Type 0 where
  pub service : ℕ
  pub id0 : ℕ
  pub id1 : ℕ
  pub frag0 : ℕ
  pub frag1 : ℕ
  pub ttl : ℕ
  pub protocol : ℕ
  pub check0 : ℕ
  pub check1 : ℕ

-- Four octets, and sixteen.
pub record Quad : Type 0 where
  pub a : ℕ
  pub b : ℕ
  pub c : ℕ
  pub d : ℕ

abbrev pub quad : Quad → Bytes
quad q = q.a ∷ q.b ∷ q.c ∷ q.d ∷ []

-- `words` is the number of option words behind the 20 bytes of the fixed header.
abbrev pub ipv4_fixed : Ipv4Header → Quad → Quad → ℕ → ℕ → Bytes
ipv4_fixed h s d words total =
    (69 + words)
    ∷ h.service
    ∷ total / 256
    ∷ total % 256
    ∷ h.id0
    ∷ h.id1
    ∷ h.frag0
    ∷ h.frag1
    ∷ h.ttl
    ∷ h.protocol
    ∷ h.check0
    ∷ h.check1
    ∷ s.a
    ∷ s.b
    ∷ s.c
    ∷ s.d
    ∷ d.a
    ∷ d.b
    ∷ d.c
    ∷ d.d
    ∷ []

pub ipv4_wire : Ipv4Header → Quad → Quad → ℕ → Bytes → Bytes → Bytes
ipv4_wire h s d words options payload =
    ipv4_fixed h s d words (20 + 4 * words + length payload) ++ (options ++ payload)

pub first-ipv4_wire :
    (h : Ipv4Header) (s d : Quad) (words : ℕ) (options payload trailing : Bytes)
    → get_elem? (ipv4_wire h s d words options payload ++ trailing) 0 ≡ some (69 + words)
unfolding ipv4_wire
first-ipv4_wire h s d words options payload trailing = refl

mask_low : (words : ℕ) → words ≤ 10 → bit_and (69 + words) 0x0f ≡ 5 + words
mask_low words h = omega (arith, bit_and_ones 4 (69 + words))

-- The bytes between a prefix of known length and the end that a length field gives.
pub middle :
    (m n : ℕ) (front payload trailing : Bytes)
    → length front ≡ n
    → length payload ≡ m
    → take m (drop n (front ++ (payload ++ trailing))) ≡ payload
middle m n front payload trailing hn hm =
    rw (drop-append_length n front (payload ++ trailing) hn)
      (take-append_length m payload trailing hm)

-- A header with up to ten option words reads back field by field, and the payload ends where the
-- total length says, whatever follows it.
pub parse_ipv4-wire :
    (h : Ipv4Header) (s d : Quad) (words : ℕ) (options payload trailing : Bytes)
    → words ≤ 10
    → length options ≡ 4 * words
    → 20 + 4 * words + length payload < 65536
    → parse_ipv4 (ipv4_wire h s d words options payload ++ trailing)
      ≡ ok (record {
        source = quad s;
        destination = quad d;
        protocol = protocol_from_number h.protocol;
        payload = payload;
      })
unfolding ipv4_wire
parse_ipv4-wire h s d words options payload trailing hw ho ht =
    parse_ipv4_ok packet (omega (arith, mask_low words)) (omega (arith, mask_low words))
      (omega (arith, size))
    ∙ ap (λ (t : Bytes). ok (record (ipv4_fields packet) { payload = t })) rest
  where
    total : ℕ
    total = 20 + 4 * words + length payload

    packet : Bytes
    packet = (ipv4_fixed h s d words total ++ (options ++ payload)) ++ trailing

    size : length packet ≡ total + length trailing
    size = omega (arith, length-append options payload, length-append (options ++ payload) trailing)

    rest : take (word packet 2 - header_len packet) (drop (header_len packet) packet) ≡ payload
    rest =
        subst
          (λ (l : Bytes).
            take (word packet 2 - header_len packet) (drop (header_len packet) l) ≡ payload)
          (simp append_assoc)
          (middle (word packet 2 - header_len packet) (header_len packet)
            (ipv4_fixed h s d words total ++ options) payload trailing
            (omega (arith, mask_low words)) (omega (arith, mask_low words)))

-- The first word of an IPv6 header without its version, the hop limit and the next header.
pub record Ipv6Header : Type 0 where
  pub class_high : ℕ
  pub label0 : ℕ
  pub label1 : ℕ
  pub label2 : ℕ
  pub next_header : ℕ
  pub hop_limit : ℕ

abbrev pub ipv6_fixed : Ipv6Header → ℕ → Bytes
ipv6_fixed h len =
    (96 + h.class_high)
    ∷ h.label0
    ∷ h.label1
    ∷ h.label2
    ∷ len / 256
    ∷ len % 256
    ∷ h.next_header
    ∷ h.hop_limit
    ∷ []

pub ipv6_wire : Ipv6Header → Bytes → Bytes → Bytes → Bytes
ipv6_wire h s d payload = ipv6_fixed h (length payload) ++ (s ++ (d ++ payload))

pub first-ipv6_wire :
    (h : Ipv6Header) (s d payload trailing : Bytes)
    → get_elem? (ipv6_wire h s d payload ++ trailing) 0 ≡ some (96 + h.class_high)
unfolding ipv6_wire
first-ipv6_wire h s d payload trailing = refl

pub parse_ipv6-wire :
    (h : Ipv6Header) (s d payload trailing : Bytes)
    → length s ≡ 16
    → length d ≡ 16
    → length payload < 65536
    → parse_ipv6 (ipv6_wire h s d payload ++ trailing)
      ≡ ok (record {
        source = s;
        destination = d;
        next_header = protocol_from_number h.next_header;
        payload = payload;
      })
unfolding ipv6_wire
parse_ipv6-wire h s d payload trailing hs hd hp =
    parse_ipv6_ok packet (omega (arith, size)) ∙ ground (arith, source, destination, rest)
  where
    len : ℕ
    len = length payload

    packet : Bytes
    packet = (ipv6_fixed h len ++ (s ++ (d ++ payload))) ++ trailing

    size : length packet ≡ 40 + len + length trailing
    size = omega (
      arith,
      length-append s (d ++ payload),
      length-append d payload,
      length-append (s ++ (d ++ payload)) trailing,
    )

    source : take 16 (drop 8 packet) ≡ s
    source = simp append_assoc (take-append_length 16 s (d ++ (payload ++ trailing)) hs)

    at_destination : (ipv6_fixed h len ++ s) ++ (d ++ (payload ++ trailing)) ≡ packet
    at_destination = simp append_assoc

    destination : take 16 (drop 24 packet) ≡ d
    destination =
        subst (λ (l : Bytes). take 16 (drop 24 l) ≡ d) at_destination
          (middle 16 24 (ipv6_fixed h len ++ s) d (payload ++ trailing) (omega arith) hd)

    at_rest : (ipv6_fixed h len ++ (s ++ d)) ++ (payload ++ trailing) ≡ packet
    at_rest = simp append_assoc

    rest : take (40 + word packet 4 - 40) (drop 40 packet) ≡ payload
    rest =
        subst (λ (l : Bytes). take (40 + word packet 4 - 40) (drop 40 l) ≡ payload) at_rest
          (middle (40 + word packet 4 - 40) 40 (ipv6_fixed h len ++ (s ++ d)) payload trailing
            (omega (arith, length-append s d)) (omega arith))
