-- ===== src/Kernel/AnyTls/Frames.antt =====
-- Frames and padding of crates/neoncore-kernel/src/adapter/anytls.rs.

use neon_core_atlas.Kernel.AnyTls.{append_frame, decode_frame, decode_body}
use neon_core_atlas.Kernel.Hysteria2.Varint.{be_number-u32}
use neon_core_atlas.Prelude.{
  length, length-append, take-append_length, drop-append_length, ◌>>=◌, ok, ◌^◌, ◌<◌, ◌≡◌, refl,
  some, [], ◌++◌, arith, ℕ,
}
use neon_core_atlas.Std.Bytes.{Bytes}

-- A frame with at most 65535 bytes of data and a 32-bit stream number, written behind nothing, reads back
-- as it was, and the bytes behind it stay in the buffer.
pub decode_frame-append_frame :
    (cmd stream_id : ℕ) (data_bytes rest : Bytes)
    → stream_id < 2 ^ 32
    → length data_bytes < 65536
    → (append_frame [] cmd stream_id data_bytes >>= λ out. ok (decode_frame (out ++ rest)))
      ≡ ok (some (record { cmd = cmd; stream_id = stream_id; data_bytes = data_bytes }, rest))
unfolding append_frame decode_frame decode_body
decode_frame-append_frame cmd stream_id data_bytes rest s h = ground (
  arith,
  be_number-u32 0 stream_id,
  take-append_length (length data_bytes) data_bytes rest refl,
  drop-append_length (length data_bytes) data_bytes rest refl,
  length-append data_bytes rest,
)
