-- ===== src/Kernel/Hysteria2.antt =====
-- The wire formats of crates/neoncore-kernel/src/adapter/hysteria2.rs: QUIC variable-length integers, TCP
-- requests and responses, UDP messages, and the Salamander obfuscation. `hash` is Blake2b-256 over the
-- bytes that the hasher was fed; `salt` is what the random generator filled in.
pub mod Varint
pub mod Messages
pub mod Salamander
use neon_core_atlas.Kernel.Socks.{Anyhow}
use neon_core_atlas.Prelude.{
  ltb, leb, ◌==◌, if◌then◌else◌, length, get_or, ◌>>=◌, ◌>>◌, fail_if, ok_or, map_ok, index, slice,
  slice_from, ok, err, zero, suc, ◌+◌, ◌/◌, ◌%◌, ◌^◌, bit_and, bit_or, bit_xor, Bool, true, false,
  ◌||◌, [], ◌∷◌, ◌++◌, ℕ,
}
use neon_core_atlas.Std.Bytes.{Bytes, u32_bytes, u16_bytes}
use neon_core_atlas.Std.Net.{be_number}
use neon_core_atlas.Std.Text.{Text, ascii, from_utf8}

-- `value.to_be_bytes()` of a u64
abbrev pub u64_bytes : ℕ → Bytes
u64_bytes n = u32_bytes (n / 2 ^ 32) ++ u32_bytes n

-- `value` is a u64.
unfoldable pub write_quic_varint : ℕ → Bytes
write_quic_varint value =
    if leb value 63
    then value % 2 ^ 8 ∷ []
    else if leb value 16383
    then u16_bytes (bit_or (value % 2 ^ 16) 0x4000)
    else if leb value 1073741823
    then u32_bytes (bit_or (value % 2 ^ 32) 0x80000000)
    else u64_bytes (bit_or value 0xC000000000000000)

unfoldable pub varint_len : ℕ → ℕ
varint_len first =
    let tag : ℕ = first / 2 ^ 6 in
    if tag == 0 then 1 else if tag == 1 then 2 else if tag == 2 then 4 else 8

unfoldable pub varint_value : Bytes → ℕ → ℕ → ℕ → Anyhow ℕ
varint_value input offset first len =
    if len == 1
    then ok (bit_and first 0x3f)
    else if len == 2
    then map_ok (λ b. bit_and (be_number 0 b) 0x3fff) (slice input offset (offset + 2))
    else if len == 4
    then map_ok (λ b. bit_and (be_number 0 b) 0x3fffffff) (slice input offset (offset + 4))
    else map_ok (λ b. bit_and (be_number 0 b) 0x3fffffffffffffff) (slice input offset (offset + 8))

-- The value, and the offset behind it.
unfoldable pub read_quic_varint : Bytes → ℕ → Anyhow (ℕ × ℕ)
read_quic_varint input offset = do
  fail_if (leb (length input) offset) (ascii "QUIC varint is truncated")
  first ← index input offset
  let len = varint_len first
  fail_if (ltb (length input) (offset + len)) (ascii "QUIC varint is truncated")
  value ← varint_value input offset first len
  ok (value, offset + len)

unfoldable pub build_tcp_request : Text → Bytes → Bytes
build_tcp_request address padding =
    write_quic_varint 0x401
    ++ (write_quic_varint (length address)
        ++ (address ++ (write_quic_varint (length padding) ++ padding)))

pub record Hy2TcpResponse : Type 0 where
  pub is_ok : Bool
  pub message : Text

pub record Hy2UdpMessage : Type 0 where
  pub session_id : ℕ
  pub packet_id : ℕ
  pub fragment_id : ℕ
  pub fragment_count : ℕ
  pub address : Text
  pub payload : Bytes

unfoldable pub response_status : ℕ → Anyhow Bool
response_status zero = ok true
response_status (suc zero) = ok false
response_status (suc (suc value)) = err (ascii "invalid Hysteria2 TCP response status")

-- A length-prefixed field at an offset: the field and the offset behind it.
unfoldable pub read_field : Bytes → ℕ → Text → Anyhow (Bytes × ℕ)
read_field input offset truncated = do
  l ← read_quic_varint input offset
  fail_if (ltb (length input) (l.1 + l.0)) truncated
  field ← slice input l.1 (l.1 + l.0)
  ok (field, l.1 + l.0)

unfoldable pub parse_tcp_response : Bytes → Anyhow Hy2TcpResponse
parse_tcp_response input = do
  fail_if (length input == 0) (ascii "Hysteria2 TCP response is empty")
  first ← index input 0
  status ← response_status first
  field ← read_field input 1 (ascii "Hysteria2 TCP response message is truncated")
  message ← ok_or (from_utf8 field.0) (ascii "invalid utf-8")
  padding ← read_quic_varint input field.1
  fail_if (ltb (length input) (padding.1 + padding.0))
      (ascii "Hysteria2 TCP response padding is truncated")
  ok (record { is_ok = status; message = message })

unfoldable pub build_udp_message : Hy2UdpMessage → Bytes
build_udp_message message =
    u32_bytes message.session_id
    ++ (u16_bytes message.packet_id
        ++ (message.fragment_id
            ∷ message.fragment_count
            ∷ (write_quic_varint (length message.address) ++ (message.address ++ message.payload))))

unfoldable pub parse_udp_message : Bytes → Anyhow Hy2UdpMessage
parse_udp_message input = do
  fail_if (ltb (length input) 8) (ascii "Hysteria2 UDP message is too short")
  session_id ← slice input 0 4
  packet_id ← slice input 4 6
  fragment_id ← index input 6
  fragment_count ← index input 7
  fail_if (fragment_count == 0 || leb fragment_count fragment_id)
      (ascii "Hysteria2 UDP fragment metadata is invalid")
  field ← read_field input 8 (ascii "Hysteria2 UDP address is truncated")
  address ← ok_or (from_utf8 field.0) (ascii "invalid utf-8")
  payload ← slice_from input field.1
  ok (record {
    session_id = be_number 0 session_id;
    packet_id = be_number 0 packet_id;
    fragment_id = fragment_id;
    fragment_count = fragment_count;
    address = address;
    payload = payload;
  })

-- `salamander_xor` from an index on: `hash[index % hash.len()]` panics on an empty hash only.
unfoldable pub xor_from : ℕ → Bytes → Bytes → Bytes
xor_from index key [] = []
xor_from index key (byte ∷ payload) =
    bit_xor byte (get_or key (index % length key) 0) ∷ xor_from (suc index) key payload

module _ (hash : Bytes → Bytes) where
  unfoldable pub salamander_xor : Bytes → Bytes → Bytes → Bytes
  salamander_xor payload key salt = xor_from 0 (hash (key ++ salt)) payload

  unfoldable pub salamander_obfuscate : Bytes → Bytes → Bytes → Bytes
  salamander_obfuscate salt packet key = salt ++ salamander_xor packet key salt

  unfoldable pub salamander_deobfuscate : Bytes → Bytes → Anyhow Bytes
  salamander_deobfuscate datagram key = do
    fail_if (ltb (length datagram) 8) (ascii "Salamander datagram is too short")
    salt ← slice datagram 0 8
    payload ← slice_from datagram 8
    ok (salamander_xor payload key salt)
