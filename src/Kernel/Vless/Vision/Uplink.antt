-- ===== src/Kernel/Vless/Vision/Uplink.antt =====
-- What Vision writes to the server (crates/neoncore-kernel/src/adapter/vless.rs): the filter that looks
-- for TLS in the first packets, the command of each block, and the stream of blocks.

use neon_core_atlas.Kernel.Vless.Vision.{xtls_padding}
use neon_core_atlas.Prelude.{
  ltb, leb, ◌==◌, if◌then◌else◌, length, get_or, drop, zero, suc, ◌+◌, ◌-◌, Bool, true, false, not,
  ◌&&◌, ◌||◌, Option, none, some, List, [], ◌∷◌, ◌++◌, ℕ,
}
use neon_core_atlas.Std.Bytes.{Bytes, u16_be}
use neon_core_atlas.Std.Text.{starts_with, contains}

pub record VisionLinkState : Type 0 where
  pub padding : Bool
  pub direct_copy : Bool
  pub direct_sent : Bool

-- `remaining_server_hello` is -1 until a ServerHello was seen, here `none`.
pub record VisionTrafficState : Type 0 where
  pub packet_filter_remaining : ℕ
  pub is_tls : Bool
  pub is_tls12_or_above : Bool
  pub is_tls13 : Bool
  pub remaining_server_hello : Option ℕ
  pub uplink : VisionLinkState
  pub downlink : VisionLinkState

abbrev pub new_link : VisionLinkState
new_link = record { padding = true; direct_copy = false; direct_sent = false }

-- `VisionTrafficState::new`, the state of a new `VisionUplinkState`
abbrev pub new_traffic : VisionTrafficState
new_traffic = record {
  packet_filter_remaining = 8;
  is_tls = false;
  is_tls12_or_above = false;
  is_tls13 = false;
  remaining_server_hello = none;
  uplink = new_link;
  downlink = new_link;
}

unfoldable pub is_tls_handshake : Bytes → Bool
is_tls_handshake bytes = starts_with bytes (0x16 ∷ 0x03 ∷ [])

-- The ServerHello arm: `data[3]`, `data[4]` and `data[5]` are there, since six bytes are.
unfoldable pub server_hello : VisionTrafficState → Bytes → VisionTrafficState
server_hello s bytes =
    let seen = record s {
      is_tls = true;
      is_tls12_or_above = true;
      remaining_server_hello = some (u16_be (get_or bytes 3 0) (get_or bytes 4 0) + 5);
    } in
    if contains bytes (0x00 ∷ 0x2b ∷ 0x00 ∷ 0x02 ∷ 0x03 ∷ 0x04 ∷ [])
    then record seen { is_tls13 = true; packet_filter_remaining = 0 }
    else seen

unfoldable pub filter_tls : VisionTrafficState → Bytes → VisionTrafficState
filter_tls s bytes =
    let s' = record s { packet_filter_remaining = s.packet_filter_remaining - 1 } in
    if leb s.packet_filter_remaining 0
    then s
    else if ltb (length bytes) 6
    then s'
    else if starts_with bytes (0x16 ∷ 0x03 ∷ [])
    then record s' { is_tls = true }
    else if starts_with bytes (0x16 ∷ 0x03 ∷ 0x03 ∷ []) && (get_or bytes 5 0 == 0x02)
    then server_hello s' bytes
    else s'

-- The loop over the records, from an offset on; each takes five bytes at least.
unfoldable pub complete_records : ℕ → Bytes → Bool
complete_records zero bytes = length bytes == 0
complete_records (suc n) [] = true
complete_records (suc n) (t ∷ major ∷ minor ∷ a ∷ b ∷ rest) =
    let more = complete_records n (drop (u16_be a b) rest) in
    if not (t == 0x17) || not (major == 0x03) || not (minor == 0x03)
    then false
    else if ltb (length rest) (u16_be a b)
    then false
    else more
complete_records (suc n) bytes = false

unfoldable pub is_complete_tls_application_data : Bytes → Bool
is_complete_tls_application_data bytes = complete_records (length bytes) bytes

pub record VisionUplinkDecision : Type 0 where
  pub command : ℕ
  pub direct : Bool

-- The test for the order to copy directly.
unfoldable pub may_copy : VisionTrafficState → Bytes → Bool → Bool
may_copy s bytes peer_direct_confirmed =
    s.is_tls
    && not s.uplink.direct_sent
    && starts_with bytes (0x17 ∷ 0x03 ∷ 0x03 ∷ [])
    && (peer_direct_confirmed || leb 8192 (length bytes))
    && is_complete_tls_application_data bytes

-- `VisionUplinkState::command_for` behind `filter_tls`
unfoldable pub decide_command :
    VisionTrafficState → Bytes → Bool → VisionUplinkDecision × VisionTrafficState
decide_command s bytes peer_direct_confirmed =
    if is_tls_handshake bytes
    then (record { command = 0; direct = false }, s)
    else if may_copy s bytes peer_direct_confirmed
    then (
      record { command = 2; direct = true },
      record s { uplink = record { padding = false; direct_copy = true; direct_sent = true } },
    )
    else if not s.is_tls
    then (
      record { command = 1; direct = false },
      record s { uplink = record s.uplink { padding = false } },
    )
    else (record { command = 0; direct = false }, s)

unfoldable pub command_for :
    VisionTrafficState → Bytes → Bool → VisionUplinkDecision × VisionTrafficState
command_for s bytes peer_direct_confirmed =
    decide_command (filter_tls s bytes) bytes peer_direct_confirmed

-- The loop of `bridge_vless_stream` over what the local side sends behind its first payload.
unfoldable pub vision_uplink : VisionTrafficState → List Bytes → Bytes
vision_uplink s [] = []
vision_uplink s (bytes ∷ rest) =
    let (decision, s') = command_for s bytes false in
    let padded = xtls_padding (some bytes) decision.command none true ++ vision_uplink s' rest in
    let plain = bytes ++ vision_uplink s rest in if s.uplink.padding then padded else plain

-- All that it writes with Vision: the request, the first payload, if one came in time, and the rest.
unfoldable pub bridge_uplink : Bytes → Bytes → Option Bytes → List Bytes → Bytes
bridge_uplink uuid request first_payload rest =
    request ++ (xtls_padding first_payload 0 (some uuid) true ++ vision_uplink new_traffic rest)
