-- ===== src/Tests/Vless.antt =====
-- The theorems on the VLESS adapter, at concrete inputs.

use neon_core_atlas.Kernel.Session.{TargetAddress}
use neon_core_atlas.Kernel.Vless.Grpc.{encode_grpc_hunk}
use neon_core_atlas.Kernel.Vless.RecordLimit.{new_limited}
use neon_core_atlas.Kernel.Vless.RecordLimit.Boundaries.{poll_all-new_limited, poll_all}
use neon_core_atlas.Kernel.Vless.RecordLimit.Records.{IsAt}
use neon_core_atlas.Kernel.Vless.Request.{
  mux, code, parse_uuid, build_addon, build_request, read_vless_response_header, without_dashes,
  read_addon, all_hexdigits, is_ascii_hexdigit, hex_pairs,
}
use neon_core_atlas.Kernel.Vless.Request.Fields.{Names, read_request-build_request, read_request}
use neon_core_atlas.Kernel.Vless.Request.Stripping.{
  fresh, gone, strip_all-read_vless_response_header, strip_all,
}
use neon_core_atlas.Kernel.Vless.Varint.{write_protobuf_varint, write_varint_groups}
use neon_core_atlas.Kernel.Vless.Vision.{
  padding, unknown, round, again, xtls_padding, new_unpadding,
}
use neon_core_atlas.Kernel.Vless.Vision.Blocks.{chunk_of, xtls_padding_long}
use neon_core_atlas.Kernel.Vless.Vision.Direct.{command_for-directed, Directs, directed}
use neon_core_atlas.Kernel.Vless.Vision.Loop.{unpad}
use neon_core_atlas.Kernel.Vless.Vision.Orders.{Orders}
use neon_core_atlas.Kernel.Vless.Vision.Records.{
  Whole, is_complete_tls_application_data-Whole, filter_tls-unseen,
}
use neon_core_atlas.Kernel.Vless.Vision.Rounds.{view}
use neon_core_atlas.Kernel.Vless.Vision.Tunnel.{bridge_uplink-push_chunks, Delivers}
use neon_core_atlas.Kernel.Vless.Vision.Unpadding.{push_chunks-unpad, push_chunks}
use neon_core_atlas.Kernel.Vless.Vision.Uplink.{
  VisionTrafficState, new_traffic, filter_tls, is_complete_tls_application_data, command_for,
  bridge_uplink, decide_command, vision_uplink, may_copy, is_tls_handshake, complete_records,
}
use neon_core_atlas.Kernel.Vless.Xmux.{XHttpXmuxConfig, get_client}
use neon_core_atlas.Kernel.Vless.Xmux.Reuse.{Reach-bounded}
use neon_core_atlas.Kernel.Vless.Xmux.Uses.{start, step, get, new_pool, count, record_get, Pool}
use neon_core_atlas.Kernel.Vless.Xudp.{
  wait, complete, emit, encode_xudp_packet, xudp_round, take_xudp_packet, take_rounds, take_after,
  sized_round, read_frame, split_frame, meta_target,
}
use neon_core_atlas.Kernel.Vless.Xudp.RoundTrip.{take_xudp_packet-encode, standard}
use neon_core_atlas.Kernel.Vless.Xudp.Safety.{take_xudp_packet-ne-panic}
use neon_core_atlas.Kernel.Vless.Xudp.Waits.{take_xudp_packet-waits}
use neon_core_atlas.Prelude.{
  take, length, drop, replicate, All, length-replicate, ◌>>=◌, ok, panic, ◌%◌, ◌≤◌, ◌<◌, ◌≡◌, refl,
  ◌≢◌, ◌↔◌, true, false, none, some, List, [], ◌∷◌, ◌++◌, arith, ℕ, ◌⊎◌, Bool,
}
use neon_core_atlas.Std.Bytes.{IsByte, Bytes}
use neon_core_atlas.Std.Number.{to_digit}
use neon_core_atlas.Std.Text.{Text, ascii, is_utf8_from, lead, is_utf8, starts_with}
use neon_core_atlas.Stream.{flatten}

abbrev user : Bytes
user = replicate 16 7

abbrev later_chunks : List Bytes
later_chunks = (4 ∷ 5 ∷ []) ∷ (6 ∷ []) ∷ []

abbrev wire : Bytes
wire = bridge_uplink user (1 ∷ 2 ∷ []) (some (3 ∷ [])) later_chunks

abbrev arrived : List Bytes
arrived = drop 2 (take 9 wire) ∷ drop 9 wire ∷ []

all_there : (1 ∷ 2 ∷ []) ++ flatten arrived ≡ wire
unfolding bridge_uplink xtls_padding vision_uplink command_for decide_command filter_tls may_copy
    is_tls_handshake starts_with flatten
all_there = refl

bridge_uplink-push_chunks_example :
    Delivers (push_chunks (new_unpadding user) arrived) ((3 ∷ []) ++ flatten later_chunks)
bridge_uplink-push_chunks_example =
    bridge_uplink-push_chunks user (1 ∷ 2 ∷ []) (some (3 ∷ [])) later_chunks arrived refl
      (omega arith) (omega arith, (omega arith, tt)) all_there

abbrev halves : List Bytes
halves = (user ++ (0 ∷ 0 ∷ [])) ∷ (1 ∷ 0 ∷ 1 ∷ 9 ∷ 0 ∷ 2 ∷ []) ∷ []

push_chunks-unpad_example :
    push_chunks (new_unpadding user) halves ≡ view (unpad user unknown (flatten halves))
push_chunks-unpad_example = push_chunks-unpad user halves

abbrev twice : XHttpXmuxConfig
twice = record {
  max_concurrency = 1;
  max_connections = 0;
  c_max_reuse_times = 2;
  h_max_request_times = 0;
  h_max_reusable_secs = 0;
}

abbrev asked : Pool
asked = record_get 0 [] (get_client 5 0 true (record { config = twice; clients = [] }))

Reach-bounded_example : count 0 asked.handed ≤ 2
Reach-bounded_example =
    Reach-bounded twice asked (omega arith) (step start (get (new_pool twice) 5 true)) 0

abbrev site : TargetAddress
site = record { host = ascii "x.org"; port = 443 }

is_text : is_utf8 (ascii "x.org") ≡ true
unfolding is_utf8_from lead
is_text = refl

take_xudp_packet-encode_example :
    (encode_xudp_packet site (1 ∷ 2 ∷ []) true >>= λ out. take_xudp_packet (out ++ (9 ∷ [])))
    ≡ ok (some (record { target = some (standard site); payload = 1 ∷ 2 ∷ [] }), 9 ∷ [])
take_xudp_packet-encode_example =
    take_xudp_packet-encode site (1 ∷ 2 ∷ []) (9 ∷ []) true (omega arith) is_text (omega arith)
      (omega arith) (omega arith)

take_xudp_packet-ne-panic_example : take_xudp_packet (0 ∷ 4 ∷ 0 ∷ 0 ∷ 1 ∷ 1 ∷ 0 ∷ []) ≢ panic
take_xudp_packet-ne-panic_example = take_xudp_packet-ne-panic (0 ∷ 4 ∷ 0 ∷ 0 ∷ 1 ∷ 1 ∷ 0 ∷ [])

-- A keepalive, and a byte of the next frame.
abbrev held : Bytes
held = 0 ∷ 4 ∷ 0 ∷ 0 ∷ 4 ∷ 0 ∷ 0 ∷ 0 ∷ 5 ∷ []

waits_here : take_xudp_packet held ≡ ok (none, 5 ∷ [])
unfolding take_xudp_packet take_rounds take_after xudp_round sized_round read_frame split_frame
    complete emit meta_target
waits_here = refl

take_xudp_packet-waits_example : xudp_round (5 ∷ []) ≡ ok wait
take_xudp_packet-waits_example = take_xudp_packet-waits held (5 ∷ []) waits_here

abbrev hunks : List Bytes
hunks = (1 ∷ 2 ∷ []) ∷ [] ∷ []

abbrev cut : List Bytes
cut =
    take 3 (encode_grpc_hunk (1 ∷ 2 ∷ []))
    ∷ (drop 3 (encode_grpc_hunk (1 ∷ 2 ∷ [])) ++ encode_grpc_hunk [])
    ∷ []

abbrev one_record : Bytes
one_record = 0x17 ∷ 0x03 ∷ 0x03 ∷ 0 ∷ 1 ∷ 9 ∷ []

bytes_only : All IsByte one_record
bytes_only =
    (omega arith, (omega arith, (omega arith, (omega arith, (omega arith, (omega arith, tt))))))

is_complete_tls_application_data-Whole_example :
    (is_complete_tls_application_data one_record ≡ true) ↔ Whole one_record
is_complete_tls_application_data-Whole_example =
    is_complete_tls_application_data-Whole one_record bytes_only

abbrev in_tls : VisionTrafficState
in_tls = record new_traffic { is_tls = true }

-- Two more chunks follow, and one of them would do as well.
abbrev chunks : List (Bytes × Bool)
chunks = (one_record, true) ∷ (0x16 ∷ [], true) ∷ (one_record, true) ∷ []

directed_first : directed in_tls chunks ≡ (one_record, true) ∷ []
unfolding directed command_for decide_command filter_tls may_copy is_tls_handshake starts_with
    is_complete_tls_application_data complete_records
directed_first = refl

command_for-directed_example :
    (((command_for in_tls one_record true).0.direct ≡ true) ↔ Orders in_tls one_record true)
    × ((directed in_tls chunks ≡ []) ⊎ Directs in_tls chunks)
command_for-directed_example =
    command_for-directed in_tls one_record true chunks bytes_only
      (bytes_only, ((omega arith, tt), (bytes_only, tt)))

abbrev hello : Bytes
hello = 0x16 ∷ 0x03 ∷ 0x03 ∷ 0 ∷ 1 ∷ 2 ∷ []

filter_tls-unseen_example :
    ((filter_tls new_traffic hello).is_tls12_or_above ≡ false)
    × ((filter_tls new_traffic hello).is_tls13 ≡ false)
    × ((filter_tls new_traffic hello).remaining_server_hello ≡ none)
filter_tls-unseen_example = filter_tls-unseen new_traffic hello

abbrev user_text : Text
user_text = ascii "00112233-4455-6677-8899-aabbccddeeff"

abbrev user_id : Bytes
user_id =
    0x00 ∷ 0x11 ∷ 0x22 ∷ 0x33 ∷ 0x44 ∷ 0x55 ∷ 0x66 ∷ 0x77 ∷ 0x88 ∷ 0x99 ∷ 0xaa ∷ 0xbb ∷ 0xcc ∷ 0xdd
    ∷ 0xee ∷ 0xff ∷ []

user_read : parse_uuid user_text ≡ ok user_id
unfolding parse_uuid without_dashes all_hexdigits is_ascii_hexdigit hex_pairs to_digit
user_read = refl

short_addon : length (build_addon (some (ascii "xtls-rprx-vision"))) < 256
unfolding build_addon write_protobuf_varint write_varint_groups
short_addon = omega arith

read_request-build_request_example :
    (address : Bytes) × Names mux site address
    × ((build_request user_text (some (ascii "xtls-rprx-vision")) mux site >>= λ out.
          ok (read_request out))
        ≡ ok (
            some (record {
              id = user_id;
              addon = build_addon (some (ascii "xtls-rprx-vision"));
              command = code mux;
              address = address;
            })))
read_request-build_request_example =
    read_request-build_request user_text user_id (some (ascii "xtls-rprx-vision")) mux site
      user_read short_addon (omega arith) is_text (omega arith)

abbrev response : List Bytes
response = (0 ∷ []) ∷ (1 ∷ 9 ∷ 5 ∷ []) ∷ []

header_read : read_vless_response_header (flatten response) ≡ ok (5 ∷ [])
unfolding read_vless_response_header read_addon flatten
header_read = refl

strip_all-read_vless_response_header_example : strip_all fresh response ≡ (5 ∷ [], gone)
strip_all-read_vless_response_header_example =
    strip_all-read_vless_response_header response (5 ∷ []) header_read

abbrev long_chunk : Bytes
long_chunk = replicate 65536 5

xtls_padding_long_example :
    round user padding (xtls_padding (some long_chunk) 0 none true ++ [])
    ≡ again
        (chunk_of (take (length long_chunk % 65536) long_chunk))
        padding
        (drop (length long_chunk % 65536) long_chunk ++ [])
xtls_padding_long_example =
    xtls_padding_long user long_chunk [] (omega (arith, length-replicate {A = ℕ} 65536 5))

poll_all-new_limited_example :
    IsAt
      (poll_all new_limited (9 ∷ 9 ∷ 9 ∷ 9 ∷ []) (23 ∷ 3 ∷ 3 ∷ 0 ∷ 1 ∷ 9 ∷ 23 ∷ [])).2
      (poll_all new_limited (9 ∷ 9 ∷ 9 ∷ 9 ∷ []) (23 ∷ 3 ∷ 3 ∷ 0 ∷ 1 ∷ 9 ∷ 23 ∷ [])).0
poll_all-new_limited_example =
    poll_all-new_limited (9 ∷ 9 ∷ 9 ∷ 9 ∷ []) (23 ∷ 3 ∷ 3 ∷ 0 ∷ 1 ∷ 9 ∷ 23 ∷ [])
