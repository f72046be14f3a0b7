-- ===== src/Kernel/Vless/Xudp/RoundTrip.antt =====
-- The packets that `encode_xudp_packet` writes, read back by `take_xudp_packet`
-- (crates/neoncore-kernel/src/adapter/vless.rs).

use neon_core_atlas.Kernel.Session.{TargetAddress}
use neon_core_atlas.Kernel.Socks.RoundTrip.{standard_host}
use neon_core_atlas.Kernel.Vless.Xudp.{
  decode_port_then_address, xudp_round, meta_target, emit, xudp_meta, encode_xudp_packet,
  encode_port_then_address, take_xudp_packet, take_rounds, take_after, XudpPacket, packet,
}
use neon_core_atlas.Kernel.Vless.Xudp.Frames.{
  encode_address-ReadsBack, decode_port_then_address-back, frame-back,
}
use neon_core_atlas.Prelude.{
  le→ltb, length, length-append, ok, ◌≤◌, ◌≡◌, refl, true, [], ◌∷◌, ◌++◌, arith, get_elem?, ◌<◌,
  Option, some, ℕ, sym, ap, ◌∙◌, false, append_assoc, if◌then◌else◌, replicate, ◌>>=◌, Bool,
  append-nil,
}
use neon_core_atlas.Std.Bytes.{Bytes, u16_bytes}
use neon_core_atlas.Std.Text.{is_utf8}

-- What a packet reads back as: an address in its standard text, any other host as it is.
abbrev pub standard : TargetAddress → TargetAddress
standard to = record { host = standard_host to.host; port = to.port }

-- A target reads back from the bytes that are written for it.
pub decode-encode_port_then_address :
    (to : TargetAddress)
    → to.port < 65536
    → is_utf8 to.host ≡ true
    → length to.host ≤ 255
    → (out : Bytes) × (encode_port_then_address to ≡ ok out)
      × (decode_port_then_address out ≡ ok (standard to, length out))
unfolding encode_port_then_address
decode-encode_port_then_address to p u l =
    let (out, e, back, low, high) = encode_address-ReadsBack to.host u l in
    (
      u16_bytes to.port ++ out,
      rw (e, encode_port_then_address) refl,
      ap (λ (t : Bytes). decode_port_then_address (u16_bytes to.port ++ t)) (sym (append-nil out))
          ∙ decode_port_then_address-back to.port (length out) out [] (standard_host to.host) p low
              (back [])
          ∙ ap (λ (n : ℕ). ok (standard to, n)) (omega arith),
    )

-- The metadata as it is written names the target again.
abbrev MetaReadsBack : TargetAddress → Bool → Type 0
MetaReadsBack to first_packet =
    (meta : Bytes) × (xudp_meta to first_packet ≡ ok meta)
    × (meta_target meta ≡ ok (some (standard to)))
    × (4 ≤ length meta)
    × (length meta < 65536)
    × (get_elem? meta 2 ≡ some (if first_packet then 1 else 2))
    × (get_elem? meta 3 ≡ some 1)

xudp_meta-ReadsBack :
    (to : TargetAddress) (first_packet : Bool)
    → to.port < 65536
    → is_utf8 to.host ≡ true
    → length to.host ≤ 255
    → MetaReadsBack to first_packet
unfolding xudp_meta encode_port_then_address meta_target
xudp_meta-ReadsBack to first_packet p u l =
    let (out, e, back, low, high) = encode_address-ReadsBack to.host u l in
    let pad : Bytes = if first_packet then replicate 8 0 else [] in
    (
      0 ∷ 0 ∷ (if first_packet then 1 else 2) ∷ 1 ∷ 2 ∷ ((u16_bytes to.port ++ out) ++ pad),
      rw (e, xudp_meta, encode_port_then_address) refl,
      rw
          (decode_port_then_address-back to.port (length out) out pad (standard_host to.host) p low
            (back pad))
          refl,
      omega arith,
      ground (arith, high, length-append out pad),
      refl,
      refl,
    )

take_one :
    (buffer : Bytes) (p : XudpPacket) (rest : Bytes)
    → 0 < length buffer
    → xudp_round buffer ≡ ok (packet p rest)
    → take_xudp_packet buffer ≡ ok (some p, rest)
unfolding take_xudp_packet take_rounds take_after
take_one [] p rest h e = absurd (omega arith)
take_one (x ∷ buffer) p rest h e = rw e refl

emits :
    (first_packet : Bool) (to : Option TargetAddress) (data_bytes rest : Bytes)
    → 0 < length data_bytes
    → emit (if first_packet then 1 else 2) 1 to data_bytes rest
      ≡ packet (record { target = to; payload = data_bytes }) rest
unfolding emit
emits first_packet to [] rest h = absurd (omega arith)
emits true to (x ∷ data_bytes) rest h = ground arith
emits false to (x ∷ data_bytes) rest h = ground arith

-- A packet reads back with its payload and its target, an address of which is in its standard text, from
-- in front of any bytes, and these stay in the buffer, if the payload has 1 to 65535 bytes and the host
-- is UTF-8 text of at most 255.
pub take_xudp_packet-encode :
    (to : TargetAddress) (data_bytes rest : Bytes) (first_packet : Bool)
    → to.port < 65536
    → is_utf8 to.host ≡ true
    → length to.host ≤ 255
    → 0 < length data_bytes
    → length data_bytes < 65536
    → (encode_xudp_packet to data_bytes first_packet >>= λ out. take_xudp_packet (out ++ rest))
      ≡ ok (some (record { target = some (standard to); payload = data_bytes }), rest)
unfolding encode_xudp_packet
take_xudp_packet-encode to data_bytes rest first_packet p u l n h =
    let (meta, e, names, low, high, s, o) = xudp_meta-ReadsBack to first_packet p u l in
    rw
      (
        le→ltb 65535 (length data_bytes) (omega arith),
        e,
        le→ltb 65535 (length meta) (omega (arith, high)),
        encode_xudp_packet,
        grouped meta,
      )
      (take_one _ _ rest (omega arith) (
        frame-back meta data_bytes rest (if first_packet then 1 else 2) 1 (some (standard to)) low
          high h s o names
        ∙ ap ok (emits first_packet (some (standard to)) data_bytes rest n)))
  where
    grouped :
        (meta : Bytes)
        → ((u16_bytes (length meta) ++ meta) ++ u16_bytes (length data_bytes)) ++ data_bytes ++ rest
          ≡ u16_bytes (length meta)
            ++ (meta ++ (u16_bytes (length data_bytes) ++ (data_bytes ++ rest)))
    grouped meta = simp append_assoc
