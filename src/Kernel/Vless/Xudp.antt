-- ===== src/Kernel/Vless/Xudp.antt =====
-- XUDP packets of crates/neoncore-kernel/src/adapter/vless.rs: the packets of a UDP session in mux frames
-- of one stream, and the addresses that they and the request carry. The `BytesMut` that the reader fills
-- is the list of the bytes that it holds.

pub mod Frames
pub mod RoundTrip
pub mod Address
pub mod Safety
pub mod Waits
use neon_core_atlas.Kernel.AnyTls.{encode_host}
use neon_core_atlas.Kernel.Session.{TargetAddress}
use neon_core_atlas.Kernel.Socks.{Anyhow, ipv4_at}
use neon_core_atlas.Prelude.{
  ltb, ◌==◌, if◌then◌else◌, length, replicate, ◌>>=◌, ok_or, ◌>>◌, fail_if, map_ok, index, slice,
  slice_from, ok, err, ◌+◌, Bool, Option, none, some, [], ◌∷◌, ◌++◌, take, drop, zero, suc, bit_and,
  ◌||◌, ℕ,
}
use neon_core_atlas.Std.Bytes.{Bytes, u16_be, u16_bytes}
use neon_core_atlas.Std.Net.Show.{show_ipv6}
use neon_core_atlas.Std.Text.{Text, ascii, from_utf8}

unfoldable pub encode_address : Text → Anyhow Bytes
encode_address host =
    encode_host 1 3 2 (ascii "domain name is too long for VLESS address encoding") host

unfoldable pub encode_port_then_address : TargetAddress → Anyhow Bytes
encode_port_then_address target = do
  address ← encode_address target.host
  ok (u16_bytes target.port ++ address)

-- The arms of `decode_address`, with the number of bytes that the address takes.
unfoldable pub decode_domain : Bytes → Anyhow (Text × ℕ)
decode_domain input = do
  fail_if (ltb (length input) 2) (ascii "VLESS domain address is truncated")
  len ← index input 1
  fail_if (ltb (length input) (2 + len)) (ascii "VLESS domain address is truncated")
  bytes ← slice input 2 (2 + len)
  host ← ok_or (from_utf8 bytes) (ascii "invalid utf-8")
  ok (host, 2 + len)

unfoldable pub decode_ipv6 : Bytes → Anyhow (Text × ℕ)
decode_ipv6 input = do
  fail_if (ltb (length input) 17) (ascii "VLESS IPv6 address is truncated")
  octets ← slice input 1 17
  ok (show_ipv6 octets, 17)

unfoldable pub decode_ipv4 : Bytes → Anyhow (Text × ℕ)
decode_ipv4 input = do
  fail_if (ltb (length input) 5) (ascii "VLESS IPv4 address is truncated")
  host ← ipv4_at input 1
  ok (host, 5)

unfoldable pub decode_address : Bytes → Anyhow (Text × ℕ)
decode_address [] = err (ascii "VLESS address is empty")
decode_address (atyp ∷ rest) =
    if atyp == 1
    then decode_ipv4 (atyp ∷ rest)
    else if atyp == 2
    then decode_domain (atyp ∷ rest)
    else if atyp == 3
    then decode_ipv6 (atyp ∷ rest)
    else err (ascii "invalid VLESS address type")

unfoldable pub decode_port_then_address : Bytes → Anyhow (TargetAddress × ℕ)
decode_port_then_address input = do
  fail_if (ltb (length input) 3) (ascii "XUDP target address is truncated")
  a ← index input 0
  b ← index input 1
  rest ← slice_from input 2
  (host, address_len) ← decode_address rest
  ok (record { host = host; port = u16_be a b }, address_len + 2)

pub record XudpPacket : Type 0 where
  pub target : Option TargetAddress
  pub payload : Bytes

-- The metadata of a packet, behind its length.
unfoldable pub xudp_meta : TargetAddress → Bool → Anyhow Bytes
xudp_meta to first_packet = do
  address ← encode_port_then_address to
  ok (
      (0 ∷ 0 ∷ (if first_packet then 1 else 2) ∷ 1 ∷ 2 ∷ [])
      ++ address
      ++ (if first_packet then replicate 8 0 else []))

unfoldable pub encode_xudp_packet : TargetAddress → Bytes → Bool → Anyhow Bytes
encode_xudp_packet to data_bytes first_packet = do
  fail_if (ltb 65535 (length data_bytes)) (ascii "XUDP payload is too large")
  meta ← xudp_meta to first_packet
  fail_if (ltb 65535 (length meta)) (ascii "XUDP metadata is too large")
  ok (u16_bytes (length meta) ++ meta ++ u16_bytes (length data_bytes) ++ data_bytes)

-- The target that the metadata names, if it is long enough and of the network UDP.
unfoldable pub meta_target : Bytes → Anyhow (Option TargetAddress)
meta_target (a ∷ b ∷ c ∷ d ∷ network ∷ rest) =
    if network == 2 then map_ok (λ r. some r.0) (decode_port_then_address rest) else ok none
meta_target meta = ok none

-- One round of the loop in `take_xudp_packet` ends it with nothing, drops a frame, or gives a packet; a
-- frame goes off the front of the buffer.
pub data Round : Type 0 where
  wait : Round
  skip : Bytes → Round
  packet : XudpPacket → Bytes → Round

-- `if status == 4 { continue; }` and the test of the option and the payload
unfoldable pub emit : ℕ → ℕ → Option TargetAddress → Bytes → Bytes → Round
emit status option to data_bytes rest =
    if (status == 4) || (bit_and option 1 == 0) || (length data_bytes == 0)
    then skip rest
    else packet (record { target = to; payload = data_bytes }) rest

-- `buffer.split_to(frame_len)`, once the frame is whole.
unfoldable pub complete : Bytes → ℕ → ℕ → ℕ → Option TargetAddress → ℕ → Anyhow Round
complete buffer offset status option to frame_len =
    if ltb (length buffer) frame_len
    then ok wait
    else map_ok (λ data_bytes. emit status option to data_bytes (drop frame_len buffer))
        (slice_from (take frame_len buffer) (offset + 2))

-- The frame whose metadata ends at `offset`.
unfoldable pub split_frame : Bytes → ℕ → ℕ → ℕ → Option TargetAddress → Anyhow Round
split_frame buffer offset status option to = do
  a ← index buffer offset
  b ← index buffer (offset + 1)
  complete buffer offset status option to (offset + 2 + u16_be a b)

unfoldable pub read_frame : Bytes → ℕ → Anyhow Round
read_frame buffer meta_len = do
  meta ← slice buffer 2 (2 + meta_len)
  status ← index meta 2
  option ← index meta 3
  to ← meta_target meta
  split_frame buffer (2 + meta_len) status option to

-- The metadata length is known.
unfoldable pub sized_round : Bytes → ℕ → Anyhow Round
sized_round buffer meta_len = do
  fail_if (ltb meta_len 4) (ascii "invalid XUDP metadata length")
  if ltb (length buffer) (2 + meta_len + 2) then ok wait else read_frame buffer meta_len

unfoldable pub xudp_round : Bytes → Anyhow Round
xudp_round buffer =
    if ltb (length buffer) 2
    then ok wait
    else do a ← index buffer 0; b ← index buffer 1; sized_round buffer (u16_be a b)

-- The loop; a round that goes on takes bytes off the buffer, so their number is fuel enough.
unfoldable pub take_after :
    (Bytes → Anyhow (Option XudpPacket × Bytes))
    → Bytes
    → Round
    → Anyhow (Option XudpPacket × Bytes)
take_after again buffer wait = ok (none, buffer)
take_after again buffer (skip rest) = again rest
take_after again buffer (packet p rest) = ok (some p, rest)

unfoldable pub take_rounds : ℕ → Bytes → Anyhow (Option XudpPacket × Bytes)
take_rounds zero buffer = ok (none, buffer)
take_rounds (suc n) buffer = xudp_round buffer >>= λ r. take_after (take_rounds n) buffer r

unfoldable pub take_xudp_packet : Bytes → Anyhow (Option XudpPacket × Bytes)
take_xudp_packet buffer = take_rounds (length buffer) buffer
