-- ===== src/Kernel/Vless/Request.antt =====
-- The VLESS request and the header of the response (crates/neoncore-kernel/src/adapter/vless.rs).

pub mod Fields
pub mod Stripping
use neon_core_atlas.Kernel.Session.{TargetAddress}
use neon_core_atlas.Kernel.Socks.{Anyhow, read_exact}
use neon_core_atlas.Kernel.Vless.Varint.{write_protobuf_varint}
use neon_core_atlas.Kernel.Vless.Xudp.{encode_port_then_address}
use neon_core_atlas.Prelude.{
  ltb, ◌==◌, if◌then◌else◌, length, get_or, drop, ◌>>=◌, ok_or, ◌>>◌, fail_if, map_ok, ok, ◌+◌, ◌*◌,
  ◌%◌, Bool, true, false, not, ◌&&◌, ◌||◌, Option, none, some, [], ◌∷◌, ◌++◌, ℕ, leb,
}
use neon_core_atlas.Std.Bytes.{Bytes, bytes_eq, u16_be, u16_bytes}
use neon_core_atlas.Std.Number.{to_digit}
use neon_core_atlas.Std.Text.{Text, ascii}

pub data VlessCommand : Type 0 where
  tcp udp mux : VlessCommand

-- `VlessCommand::code`
unfoldable pub code : VlessCommand → ℕ
code tcp = 1
code udp = 2
code mux = 3

-- `value.chars().filter(|char| *char != '-').collect()`
unfoldable pub without_dashes : Text → Text
without_dashes [] = []
without_dashes (c ∷ cs) = if c == b'-' then without_dashes cs else c ∷ without_dashes cs

-- `char::is_ascii_hexdigit`
unfoldable pub is_ascii_hexdigit : ℕ → Bool
is_ascii_hexdigit c =
    (leb b'0' c && leb c b'9') || (leb b'A' c && leb c b'F') || (leb b'a' c && leb c b'f')

unfoldable pub all_hexdigits : Text → Bool
all_hexdigits [] = true
all_hexdigits (c ∷ cs) = is_ascii_hexdigit c && all_hexdigits cs

-- `u8::from_str_radix(&compact[index * 2..index * 2 + 2], 16)?` for each pair
unfoldable pub hex_pairs : Text → Anyhow Bytes
hex_pairs (a ∷ b ∷ rest) = do
  high ← ok_or (to_digit 16 a) (ascii "invalid digit found in string")
  low ← ok_or (to_digit 16 b) (ascii "invalid digit found in string")
  bytes ← hex_pairs rest
  ok ((high * 16 + low) ∷ bytes)
hex_pairs rest = ok []

unfoldable pub parse_uuid : Text → Anyhow Bytes
parse_uuid value = do
  let compact : Text = without_dashes value
  fail_if (not (length compact == 32) || not (all_hexdigits compact))
      (ascii "VLESS requires a valid UUID")
  hex_pairs compact

-- `flow.filter(|value| !value.is_empty())` with `None` for the empty list
unfoldable pub build_addon : Option Text → Bytes
build_addon none = []
build_addon (some []) = []
build_addon (some (c ∷ flow)) = 0x0a ∷ write_protobuf_varint (length (c ∷ flow)) ++ (c ∷ flow)

-- The port and the address, which a mux request does not have.
unfoldable pub request_target : VlessCommand → TargetAddress → Anyhow Bytes
request_target mux to = ok []
request_target command to = encode_port_then_address to

unfoldable pub build_request : Text → Option Text → VlessCommand → TargetAddress → Anyhow Bytes
build_request uuid flow command to = do
  id ← parse_uuid uuid
  let addon : Bytes = build_addon flow
  fail_if (ltb 255 (length addon)) (ascii "VLESS addon is too large")
  address ← request_target command to
  ok ((0 ∷ id) ++ ((length addon % 256 ∷ addon) ++ (code command ∷ address)))

unfoldable pub build_tcp_request : Text → Option Text → TargetAddress → Anyhow Bytes
build_tcp_request uuid flow to = build_request uuid flow tcp to

unfoldable pub is_vision_flow : Option Text → Bool
is_vision_flow none = false
is_vision_flow (some flow) =
    bytes_eq flow (ascii "xtls-rprx-vision") || bytes_eq flow (ascii "xtls-rprx-vision-udp443")

-- `if header[1] > 0 { ... }`
unfoldable pub read_addon : ℕ → Bytes → Anyhow Bytes
read_addon len stream = if ltb 0 len then map_ok (λ r. r.1) (read_exact len stream) else ok stream

-- The header of the response is read off the stream.
unfoldable pub read_vless_response_header : Bytes → Anyhow Bytes
read_vless_response_header stream = do
  (header, rest) ← read_exact 2 stream
  fail_if (not (get_or header 0 0 == 0)) (ascii "unsupported VLESS response version")
  read_addon (get_or header 1 0) rest

unfoldable pub read_udp_packet : Bytes → Anyhow (Bytes × Bytes)
read_udp_packet stream = do
  (len, rest) ← read_exact 2 stream
  read_exact (u16_be (get_or len 0 0) (get_or len 1 0)) rest

-- What `send_udp_packet` writes.
unfoldable pub udp_packet : Bytes → Bytes → Anyhow Bytes
udp_packet request data_bytes = do
  fail_if (ltb 65535 (length data_bytes)) (ascii "VLESS UDP payload is too large")
  ok (request ++ (u16_bytes (length data_bytes) ++ data_bytes))

-- `VlessResponseHeaderStripper`
pub record Stripper : Type 0 where
  pub pending : Bytes
  pub done : Bool

-- The header is looked for in what is pending.
unfoldable pub strip_pending : Bytes → Option Bytes × Stripper
strip_pending [] = (none, record { pending = []; done = false })
strip_pending (version ∷ []) = (none, record { pending = version ∷ []; done = false })
strip_pending (version ∷ len ∷ rest) =
    if not (version == 0)
    then (some (version ∷ len ∷ rest), record { pending = []; done = true })
    else if ltb (length rest) len
    then (none, record { pending = version ∷ len ∷ rest; done = false })
    else (some (drop len rest), record { pending = []; done = true })

-- `VlessResponseHeaderStripper::push`
unfoldable pub strip : Stripper → Bytes → Option Bytes × Stripper
strip s bytes = if s.done then (some bytes, s) else strip_pending (s.pending ++ bytes)
