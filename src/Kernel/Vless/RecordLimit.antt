-- ===== src/Kernel/Vless/RecordLimit.antt =====
-- `RecordLimitedTcp` of crates/neoncore-kernel/src/adapter/vless.rs: a connection that is read no further
-- than to the end of a TLS record at a time. The five bytes of `header` and their count `header_len` are
-- the list of those that were read.

pub mod Boundaries
pub mod Records
use neon_core_atlas.Prelude.{
  ◌==◌, if◌then◌else◌, length, get_or, take, drop, ◌-◌, min, Bool, true, false, ◌||◌, Option, none,
  some, [], ◌++◌, ℕ,
}
use neon_core_atlas.Std.Bytes.{Bytes, u16_be}

pub record RecordLimitedTcp : Type 0 where
  pub header : Bytes
  pub remaining_body : Option ℕ
  pub pending_yield : Bool

-- `RecordLimitedTcp::new`
abbrev pub new_limited : RecordLimitedTcp
new_limited = record { header = []; remaining_body = none; pending_yield = false }

-- How much may be read: the rest of the body or of the header, and what the two buffers hold.
unfoldable pub read_limit : RecordLimitedTcp → ℕ → ℕ
read_limit s room =
    let limit : ℕ = elim s.remaining_body [
      | some remaining ↦ min remaining room
      | none ↦ min (5 - length s.header) room
    ] in
    min limit 16384

-- The end of a record.
abbrev pub next_record : RecordLimitedTcp
next_record = record { header = []; remaining_body = none; pending_yield = true }

-- What was read belongs to the body, of which so much remained.
unfoldable pub read_body : Bytes → ℕ → ℕ → RecordLimitedTcp
read_body header remaining count = if remaining - count == 0 then next_record else record {
  header = header;
  remaining_body = some (remaining - count);
  pending_yield = false;
}

-- The header as far as it was read; the last two of its five bytes are the length of the body.
unfoldable pub read_header : Bytes → RecordLimitedTcp
read_header header =
    let body_len : ℕ = u16_be (get_or header 3 0) (get_or header 4 0) in
    if length header == 5
    then if body_len == 0
      then next_record
      else record { header = header; remaining_body = some body_len; pending_yield = false }
    else record { header = header; remaining_body = none; pending_yield = false }

unfoldable pub after_read : RecordLimitedTcp → Bytes → RecordLimitedTcp
after_read s bytes = elim s.remaining_body [
  | some remaining ↦ read_body s.header remaining (length bytes)
  | none ↦ read_header (s.header ++ bytes)
]

-- `poll_read`, where the connection has these bytes ready: what the caller gets, or `none` for
-- `Poll::Pending`, with the bytes that stay in the connection. A connection with nothing ready is at its
-- end or pending itself, and neither changes the state.
unfoldable pub poll_read : RecordLimitedTcp → ℕ → Bytes → Option Bytes × Bytes × RecordLimitedTcp
poll_read s room tcp =
    let limit : ℕ = read_limit s room in
    if s.pending_yield
    then (none, tcp, record s { pending_yield = false })
    else if (room == 0) || (length (take limit tcp) == 0)
    then (some [], tcp, s)
    else (some (take limit tcp), drop limit tcp, after_read s (take limit tcp))
