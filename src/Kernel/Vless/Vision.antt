-- ===== src/Kernel/Vless/Vision.antt =====
-- XTLS Vision framing of crates/neoncore-kernel/src/adapter/vless.rs: blocks of content and padding, and
-- the state that takes the padding off a stream again. A `VisionChunk` is its bytes, whether the code
-- borrows or owns them.
pub mod Loop
pub mod Rounds
pub mod Unpadding
pub mod Blocks
pub mod Uplink
pub mod Tunnel
pub mod Records
pub mod Orders
pub mod Direct
use neon_core_atlas.Prelude.{
  ltb, ◌==◌, if◌then◌else◌, length, take, drop, replicate, zero, suc, ◌+◌, ◌-◌, Bool, false, ◌&&◌,
  Option, none, some, List, [], ◌∷◌, ◌++◌, ℕ,
}
use neon_core_atlas.Std.Bytes.{Bytes, bytes_eq, u16_be, u16_bytes}

unfoldable pub xtls_padding : Option Bytes → ℕ → Option Bytes → Bool → Bytes
xtls_padding content command uuid long =
    let content : Bytes = elim content [ none ↦ [] | some bytes ↦ bytes ] in
    let padding_len : ℕ = if long && ltb (length content) 900 then 900 - length content else 0 in
    let front : Bytes = elim uuid [ none ↦ [] | some bytes ↦ bytes ] in
    front
    ++ (command ∷ u16_bytes (length content)
        ++ u16_bytes padding_len
        ++ content
        ++ replicate padding_len 0)

pub data VisionUnpaddingMode : Type 0 where
  unknown padding raw : VisionUnpaddingMode

pub record VisionUnpaddingState : Type 0 where
  pub uuid : Bytes
  pub pending : Bytes
  pub mode : VisionUnpaddingMode

-- `VisionUnpaddingState::new`
unfoldable pub new_unpadding : Bytes → VisionUnpaddingState
new_unpadding uuid = record { uuid = uuid; pending = []; mode = unknown }

-- `VisionPushResult`, with the mode and the bytes that the state is left with.
pub record VisionPushResult : Type 0 where
  pub chunks : List Bytes
  pub direct : Bool
  pub mode : VisionUnpaddingMode
  pub pending : Bytes

-- A round of the loop leaves it with a result, or goes on with a mode and the bytes that are left.
pub data Round : Type 0 where
  break : VisionPushResult → Round
  again : List Bytes → VisionUnpaddingMode → Bytes → Round

-- `if !chunk.is_empty() { output.push(chunk) }`
unfoldable pub unless_empty : Bytes → List Bytes
unless_empty [] = []
unless_empty (b ∷ bytes) = (b ∷ bytes) ∷ []

-- Nothing more is read now.
unfoldable pub idle : VisionUnpaddingMode → Bytes → VisionPushResult
idle mode pending = record { chunks = []; direct = false; mode = mode; pending = pending }

-- From here on the stream is raw.
unfoldable pub to_raw : List Bytes → Bool → VisionPushResult
to_raw chunks direct = record { chunks = chunks; direct = direct; mode = raw; pending = [] }

-- The arms of the loop in `VisionUnpaddingState::push`.
unfoldable pub unknown_round : Bytes → Bytes → Round
unknown_round uuid pending =
    if ltb (length pending) 16
    then break (idle unknown pending)
    else if bytes_eq (take 16 pending) uuid
    then again [] padding (drop 16 pending)
    else break (to_raw (pending ∷ []) false)

-- What follows the content of a block: another block, or the end of the padding.
unfoldable pub end_block : ℕ → List Bytes → Bytes → Round
end_block command out left =
    if command == 0
    then again out padding left
    else break (to_raw (out ++ unless_empty left) (command == 2))

unfoldable pub padding_round : Bytes → Round
padding_round (command ∷ a ∷ b ∷ c ∷ d ∷ rest) =
    let pending : Bytes = command ∷ a ∷ b ∷ c ∷ d ∷ rest in
    let content_len : ℕ = u16_be a b in
    let block_len : ℕ = 5 + content_len + u16_be c d in
    if ltb 2 command
    then break (to_raw (pending ∷ []) false)
    else if ltb (length pending) block_len
    then break (idle padding pending)
    else end_block command
        (if ltb 0 content_len then take content_len (drop 5 pending) ∷ [] else [])
        (drop block_len pending)
padding_round pending = break (idle padding pending)

unfoldable pub raw_round : Bytes → Round
raw_round pending = break (to_raw (unless_empty pending) false)

unfoldable pub round : Bytes → VisionUnpaddingMode → Bytes → Round
round uuid unknown pending = unknown_round uuid pending
round uuid padding pending = padding_round pending
round uuid raw pending = raw_round pending

unfoldable pub with_chunks : List Bytes → VisionPushResult → VisionPushResult
with_chunks out r = record r { chunks = out ++ r.chunks }

unfoldable pub after : (VisionUnpaddingMode → Bytes → VisionPushResult) → Round → VisionPushResult
after rounds (break r) = r
after rounds (again out mode left) = with_chunks out (rounds mode left)

-- The loop over what is pending. A round that goes on takes bytes, so their number is fuel enough.
unfoldable pub push_loop : Bytes → ℕ → VisionUnpaddingMode → Bytes → VisionPushResult
push_loop uuid zero mode pending = idle mode pending
push_loop uuid (suc n) mode pending = after (push_loop uuid n) (round uuid mode pending)

-- The loop of `push_without_pending` over the input from an offset on.
unfoldable pub borrowed_blocks : ℕ → VisionUnpaddingMode → Bytes → VisionPushResult
borrowed_blocks zero mode input = idle mode []
borrowed_blocks (suc n) mode [] = idle mode []
borrowed_blocks (suc n) mode (command ∷ a ∷ b ∷ c ∷ d ∷ rest) =
    let input : Bytes = command ∷ a ∷ b ∷ c ∷ d ∷ rest in
    let content_len : ℕ = u16_be a b in
    let block_len : ℕ = 5 + content_len + u16_be c d in
    let out : List Bytes = if ltb 0 content_len then take content_len (drop 5 input) ∷ [] else [] in
    let left : Bytes = drop block_len input in
    let blocks : VisionPushResult = borrowed_blocks n mode left in
    if ltb 2 command
    then to_raw (input ∷ []) false
    else if ltb (length input) block_len
    then idle mode input
    else if command == 0
    then with_chunks out blocks
    else to_raw (out ++ unless_empty left) (command == 2)
borrowed_blocks (suc n) mode input = idle mode input

unfoldable pub push_without_pending : Bytes → VisionUnpaddingMode → Bytes → VisionPushResult
push_without_pending uuid unknown input =
    if ltb (length input) 16
    then idle unknown input
    else if bytes_eq (take 16 input) uuid
    then borrowed_blocks (length input) padding (drop 16 input)
    else to_raw (input ∷ []) false
push_without_pending uuid mode input = borrowed_blocks (length input) mode input

-- `VisionUnpaddingState::push`
unfoldable pub push_with : Bytes → VisionUnpaddingMode → Bytes → Bytes → VisionPushResult
push_with uuid raw pending bytes = record {
  chunks = bytes ∷ [];
  direct = false;
  mode = raw;
  pending = pending;
}
push_with uuid mode [] bytes = push_without_pending uuid mode bytes
push_with uuid mode pending bytes =
    push_loop uuid (length (pending ++ bytes)) mode (pending ++ bytes)

unfoldable pub push : VisionUnpaddingState → Bytes → VisionPushResult × VisionUnpaddingState
push s bytes =
    let r = push_with s.uuid s.mode s.pending bytes in
    (r, record { uuid = s.uuid; pending = r.pending; mode = r.mode })
