-- ===== src/Kernel/Vless/Grpc.antt =====
-- gRPC hunks of crates/neoncore-kernel/src/adapter/vless.rs: a payload in a protobuf field of bytes, in a
-- frame with a length, and the decoder of a stream of frames.

use neon_core_atlas.Kernel.Vless.Varint.{write_protobuf_varint, read_protobuf_varint}
use neon_core_atlas.Prelude.{
  ltb, leb, ◌==◌, if◌then◌else◌, length, take, drop, ◌+◌, ◌%◌, ◌^◌, ◌&&◌, Option, none, some, List,
  [], ◌∷◌, ◌++◌, length-append, ◌<◌, ◌≡◌, arith, ℕ, length-drop, take-append-le, drop-append-le,
}
use neon_core_atlas.Std.Bytes.{Bytes, u32_bytes}
use neon_core_atlas.Std.Net.{be_number}
use neon_core_atlas.Stream.{run, IsFraming}

unfoldable pub encode_grpc_message : Bytes → Bytes
encode_grpc_message payload = 0x0a ∷ write_protobuf_varint (length payload) ++ payload

unfoldable pub encode_grpc_hunk : Bytes → Bytes
encode_grpc_hunk payload =
    let message = encode_grpc_message payload in 0 ∷ u32_bytes (length message % 2 ^ 32) ++ message

-- The payload behind the field's length, whose end `checked_add` computes.
unfoldable pub grpc_payload : Bytes → ℕ × ℕ → Option Bytes
grpc_payload message (len, offset) =
    let end = 1 + offset + len in
    if ltb end (2 ^ 64) && leb end (length message)
    then some (take len (drop (1 + offset) message))
    else none

unfoldable pub decode_grpc_hunk_message : Bytes → Option Bytes
decode_grpc_hunk_message [] = none
decode_grpc_hunk_message (tag ∷ message) =
    if tag == 0x0a
    then elim (read_protobuf_varint message) [
      | none ↦ none
      | some read ↦ grpc_payload (tag ∷ message) read
    ]
    else none

unfoldable pub option_list : Option Bytes → List Bytes
option_list none = []
option_list (some payload) = payload ∷ []

-- One round of the loop in `GrpcHunkDecoder::push`: the payload of a whole frame, and what is behind it.
unfoldable pub next_hunk : Bytes → Option (List Bytes × Bytes)
next_hunk (compressed ∷ a ∷ b ∷ c ∷ d ∷ pending) =
    let len = be_number 0 (a ∷ b ∷ c ∷ d ∷ []) in
    if (compressed == 0) && leb len (length pending)
    then some (option_list (decode_grpc_hunk_message (take len pending)), drop len pending)
    else none
next_hunk pending = none

-- `GrpcHunkDecoder::push`: the payloads that are whole, and what stays pending.
unfoldable pub push_hunks : Bytes → Bytes → List Bytes × Bytes
push_hunks pending bytes = run next_hunk (pending ++ bytes)

next_hunk-stable :
    (b : Bytes) (out : List Bytes) (rest d : Bytes)
    → next_hunk b ≡ some (out, rest)
    → next_hunk (b ++ d) ≡ some (out, rest ++ d)
unfolding next_hunk
next_hunk-stable (x ∷ a ∷ b ∷ c ∷ e ∷ pending) out rest d h = ground (
  arith,
  h,
  length-append pending d,
  take-append-le (be_number 0 (a ∷ b ∷ c ∷ e ∷ [])) pending d,
  drop-append-le (be_number 0 (a ∷ b ∷ c ∷ e ∷ [])) pending d,
)
next_hunk-stable b out rest d h = absurd (ground (arith, h))

next_hunk-shrinks :
    (b : Bytes) (out : List Bytes) (rest : Bytes)
    → next_hunk b ≡ some (out, rest)
    → length rest < length b
unfolding next_hunk
next_hunk-shrinks (x ∷ a ∷ b ∷ c ∷ e ∷ pending) out rest h =
    ground (arith, h, length-drop (be_number 0 (a ∷ b ∷ c ∷ e ∷ [])) pending)
next_hunk-shrinks b out rest h = absurd (ground (arith, h))

pub next_hunk-IsFraming : IsFraming next_hunk
next_hunk-IsFraming = record { stable = next_hunk-stable; shrinks = next_hunk-shrinks }
