-- ===== src/Kernel/AnyTls.antt =====
-- The frames, the padding and the addresses of crates/neoncore-kernel/src/adapter/anytls.rs. A buffer that
-- is consumed from its front is the list of the bytes left in it.
pub mod Frames
pub mod Uot
pub mod Socks
pub mod Padding
use neon_core_atlas.Kernel.Session.{TargetAddress}
use neon_core_atlas.Kernel.Socks.{read_exact, read_domain, Anyhow}
use neon_core_atlas.Prelude.{
  ltb, ◌==◌, if◌then◌else◌, length, get_elem?, get_or, take, drop, replicate, ◌>>=◌, ◌>>◌, fail_if,
  map_ok, ok, err, ◌+◌, ◌-◌, ◌%◌, ◌^◌, Bool, true, false, Option, none, some, List, [], ◌∷◌, ◌++◌,
  ℕ,
}
use neon_core_atlas.Std.Bytes.{Bytes, u16_be, u16_bytes, u32_bytes}
use neon_core_atlas.Std.Net.{parse_ipv4, parse_ipv6, be_number}
use neon_core_atlas.Std.Net.Show.{show_ipv4, show_ipv6}
use neon_core_atlas.Std.Text.{Text, ascii}

abbrev pub cmd_waste : ℕ
cmd_waste = 0

abbrev pub header_len : ℕ
header_len = 7

pub record Frame : Type 0 where
  pub cmd : ℕ
  pub stream_id : ℕ
  pub data_bytes : Bytes

-- The seven bytes in front of the data of a frame, once they are there.
unfoldable pub decode_body : ℕ → ℕ → ℕ → Bytes → Option (Frame × Bytes)
decode_body cmd stream_id data_len buffer =
    if ltb (length buffer) (header_len + data_len)
    then none
    else some (
      record {
        cmd = cmd;
        stream_id = stream_id;
        data_bytes = take data_len (drop header_len buffer);
      },
      drop data_len (drop header_len buffer),
    )

-- The frame, and what is left in the buffer; with no frame the buffer stays as it is.
unfoldable pub decode_frame : Bytes → Option (Frame × Bytes)
decode_frame buffer =
    if ltb (length buffer) header_len
    then none
    else decode_body (get_or buffer 0 0) (be_number 0 (take 4 (drop 1 buffer)))
        (u16_be (get_or buffer 5 0) (get_or buffer 6 0)) buffer

unfoldable pub append_frame : Bytes → ℕ → ℕ → Bytes → Anyhow Bytes
append_frame out cmd stream_id data_bytes =
    if ltb 65535 (length data_bytes)
    then err (ascii "AnyTLS frame is too large")
    else ok (out ++ (cmd ∷ (u32_bytes stream_id ++ (u16_bytes (length data_bytes) ++ data_bytes))))

pub data PaddingSize : Type 0 where
  payload : ℕ → PaddingSize
  check : PaddingSize

-- The frame header that pads what is left of the buffer up to a size.
unfoldable pub pad_to : ℕ → Bytes → Bytes
pad_to size buffer =
    let padding_len : ℕ = size - (length buffer + header_len) in
    if ltb 0 padding_len
    then buffer
      ++ (cmd_waste
          ∷ (u32_bytes 0 ++ (u16_bytes (padding_len % 2 ^ 16) ++ replicate padding_len 0)))
    else buffer

-- The loop over the sizes of a packet: what has been written, then what is left in the buffer.
unfoldable pub write_sizes : List PaddingSize → Bytes → Bytes → Anyhow (Bytes × Bytes)
write_sizes [] written buffer = ok (written, buffer)
write_sizes (check ∷ sizes) written buffer =
    if length buffer == 0 then ok (written, buffer) else write_sizes sizes written buffer
write_sizes (payload size ∷ sizes) written buffer =
    if ltb size (length buffer)
    then write_sizes sizes (written ++ take size buffer) (drop size buffer)
    else if ltb 0 (length buffer)
    then write_sizes sizes (written ++ pad_to size buffer) []
    else append_frame [] cmd_waste 0 (replicate size 0) >>= λ waste.
        write_sizes sizes (written ++ waste) buffer

pub record PaddingFactory : Type 0 where
  pub md5 : Text
  pub stop : ℕ
  pub entries : List (List PaddingSize)

-- `PaddingFactory::sizes`
unfoldable pub sizes : PaddingFactory → ℕ → List PaddingSize
sizes padding packet = elim (get_elem? padding.entries packet) [ none ↦ [] | some entry ↦ entry ]

-- Everything that one call writes; `packet` is the number that the session's counter gave it.
unfoldable pub write_with_padding : PaddingFactory → ℕ → Bytes → Anyhow Bytes
write_with_padding padding packet buffer =
    (if ltb packet padding.stop
      then write_sizes (sizes padding packet) [] buffer
      else ok ([], buffer))
    >>= λ r. ok (r.0 ++ r.1)

-- The address type and the address, with the three numbers of the types and the error for long names.
unfoldable pub encode_host : ℕ → ℕ → ℕ → Text → Text → Anyhow Bytes
encode_host v4_type v6_type name_type too_long host = elim (parse_ipv4 host) [
  | some octets ↦ ok (v4_type ∷ octets)
  | none ↦ elim (parse_ipv6 host) [
    | some octets ↦ ok (v6_type ∷ octets)
    | none ↦
        if ltb 255 (length host) then err too_long else ok (name_type ∷ length host % 256 ∷ host)
  ]
]

unfoldable pub encode_socks_address : TargetAddress → Anyhow Bytes
encode_socks_address target = do
  host ← encode_host 0x01 0x04 0x03 (ascii "AnyTLS target domain is too long") target.host
  ok (host ++ u16_bytes target.port)

unfoldable pub encode_uot_address : TargetAddress → Anyhow Bytes
encode_uot_address target = do
  host ← encode_host 0x00 0x01 0x02 (ascii "UoT target domain is too long") target.host
  ok (host ++ u16_bytes target.port)

unfoldable pub encode_uot_packet : TargetAddress → Bytes → Anyhow Bytes
encode_uot_packet target data_bytes = do
  fail_if (ltb 65535 (length data_bytes)) (ascii "UoT payload is too large")
  out ← encode_uot_address target
  ok (out ++ (u16_bytes (length data_bytes) ++ data_bytes))

unfoldable pub read_uot_host : ℕ → Bytes → Anyhow (Text × Bytes)
read_uot_host atyp stream =
    if atyp == 0x00
    then map_ok (λ r. (show_ipv4 r.0, r.1)) (read_exact 4 stream)
    else if atyp == 0x01
    then map_ok (λ r. (show_ipv6 r.0, r.1)) (read_exact 16 stream)
    else if atyp == 0x02
    then read_domain stream
    else err (ascii "unsupported UoT address type")

unfoldable pub read_uot_address : Bytes → Anyhow (TargetAddress × Bytes)
read_uot_address stream = do
  t ← read_exact 1 stream
  h ← read_uot_host (get_or t.0 0 0) t.1
  p ← read_exact 2 h.1
  ok (record { host = h.0; port = u16_be (get_or p.0 0 0) (get_or p.0 1 0) }, p.1)

unfoldable pub read_uot_payload :
    Option TargetAddress → Bytes → Anyhow ((Option TargetAddress × Bytes) × Bytes)
read_uot_payload destination stream = do
  l ← read_exact 2 stream
  p ← read_exact (u16_be (get_or l.0 0 0) (get_or l.0 1 0)) l.1
  ok ((destination, p.0), p.1)

-- The packet, and what the stream holds behind it.
unfoldable pub read_uot_packet : Bool → Bytes → Anyhow ((Option TargetAddress × Bytes) × Bytes)
read_uot_packet true stream = read_uot_payload none stream
read_uot_packet false stream = read_uot_address stream >>= λ a. read_uot_payload (some a.0) a.1
