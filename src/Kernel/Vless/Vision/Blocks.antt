-- ===== src/Kernel/Vless/Vision/Blocks.antt =====
-- The blocks that `xtls_padding` writes, as the loop reads them
-- (crates/neoncore-kernel/src/adapter/vless.rs).

use neon_core_atlas.Kernel.Vless.Vision.{
  unknown, again, round, break, end_block, padding, raw, padding_round, to_raw, unless_empty,
  xtls_padding, unknown_round, with_chunks,
}
use neon_core_atlas.Kernel.Vless.Vision.Loop.{unpad, unpad_again, unpad_break}
use neon_core_atlas.Kernel.Vless.Vision.Rounds.{join, View, view, flatten-unless_empty}
use neon_core_atlas.Kernel.Vless.Vision.Unpadding.{view-with_chunks}
use neon_core_atlas.Prelude.{
  ltb, if◌then◌else◌, length, ◌≤◌, ◌<◌, ◌≡◌, Option, none, some, [], ◌∷◌, ◌++◌, ℕ, ◌==◌, le→ltb,
  Bool-cases, take, length-append, take-append_length, drop-append_length, ◌+◌, ◌/◌, ◌%◌, refl, ap,
  ◌∙◌, inl, inr, false, arith, append_assoc, lt→ltb, suc, true, List, ap₂, replicate,
  length-replicate, ◌-◌, subst, drop, length-take, take-append-drop, sym, append-nil,
}
use neon_core_atlas.Std.Bytes.{Bytes, u16_bytes, u16_be, bytes_eq_refl}
use neon_core_atlas.Stream.{flatten, flatten-append, flatten_one}

-- The content that a block carries.
abbrev pub content_of : Option Bytes → Bytes
content_of none = []
content_of (some bytes) = bytes

-- One block in front of the stream: its content, and what follows as another block or raw.
block_reads :
    (uuid content pad rest : Bytes) (command : ℕ)
    → length content < 65536
    → length pad < 65536
    → command ≤ 2
    → padding_round
        (command ∷ u16_bytes (length content) ++ u16_bytes (length pad) ++ content ++ pad ++ rest)
      ≡ end_block command (if ltb 0 (length content) then content ∷ [] else []) rest
unfolding round padding_round
block_reads uuid content pad rest command h k c =
    rw
      (
        words (length content) h,
        words (length pad) k,
        le→ltb 2 command c,
        whole,
        taken,
        drop-append_length (5 + length content + length pad) block rest
            (omega (arith, length-append content pad)),
      )
      refl
  where
    words : (n : ℕ) → n < 65536 → u16_be (n / 256 % 256) (n % 256) ≡ n
    words n l = omega arith

    block : Bytes
    block = command ∷ u16_bytes (length content) ++ u16_bytes (length pad) ++ content ++ pad

    whole : ltb (length (block ++ rest)) (5 + length content + length pad) ≡ false
    whole =
        le→ltb _ _ (omega (arith, length-append (content ++ pad) rest, length-append content pad))

    taken : take (length content) (content ++ pad ++ rest) ≡ content
    taken =
        ap (take (length content)) (append_assoc content pad rest)
        ∙ take-append_length (length content) content (pad ++ rest) refl

-- What a block gives: the content, and then more blocks, or the rest as it is.
unfoldable pub after_block : Bytes → ℕ → Bytes → Bytes → View
after_block uuid command content rest =
    if command == 0
    then join (content, false, padding, []) (view (unpad uuid padding rest))
    else (content ++ rest, command == 2, raw, [])

-- `if content_len > 0 { output.push(content) }`
abbrev pub chunk_of : Bytes → List Bytes
chunk_of content = if ltb 0 (length content) then content ∷ [] else []

content_chunk : (content : Bytes) → flatten (chunk_of content) ≡ content
unfolding flatten
content_chunk [] = refl
content_chunk (x ∷ content) =
    rw (lt→ltb 0 (suc (length content)) (omega arith)) (flatten_one (x ∷ content))

end_block_more :
    (command : ℕ) (out : List Bytes) (rest : Bytes)
    → (command == 0) ≡ true
    → end_block command out rest ≡ again out padding rest
unfolding end_block
end_block_more command out rest e = rw e refl

end_block_raw :
    (command : ℕ) (out : List Bytes) (rest : Bytes)
    → (command == 0) ≡ false
    → end_block command out rest ≡ break (to_raw (out ++ unless_empty rest) (command == 2))
unfolding end_block
end_block_raw command out rest e = rw e refl

block_view :
    (uuid content pad rest : Bytes) (command : ℕ)
    → length content < 65536
    → length pad < 65536
    → command ≤ 2
    → view (
        unpad uuid padding (
          command ∷ u16_bytes (length content) ++ u16_bytes (length pad) ++ content ++ pad ++ rest))
      ≡ after_block uuid command content rest
unfolding after_block join view to_raw round
block_view uuid content pad rest command h k c = elim (Bool-cases (command == 0)) [
  | inl e ↦
      rw
        (
          unpad_again uuid padding padding _ rest (chunk_of content)
              (reads ∙ end_block_more command (chunk_of content) rest e),
          e,
        )
        (view-with_chunks (chunk_of content) (unpad uuid padding rest)
          ∙ ap (λ (o : Bytes). join (o, false, padding, []) (view (unpad uuid padding rest)))
              (content_chunk content))
  | inr e ↦
      rw (unpad_break uuid padding _ _ (reads ∙ end_block_raw command (chunk_of content) rest e), e)
        (ap (λ (o : Bytes). (o, command == 2, raw, []))
          (flatten-append (chunk_of content) (unless_empty rest)
            ∙ ap₂ ◌++◌ (content_chunk content) (flatten-unless_empty rest)))
]
  where
    reads :
        round uuid padding
          (command ∷ u16_bytes (length content) ++ u16_bytes (length pad) ++ content ++ pad ++ rest)
        ≡ end_block command (chunk_of content) rest
    reads = block_reads uuid content pad rest command h k c

pub xtls_padding-view :
    (uuid content rest : Bytes) (command : ℕ)
    → length content < 65536
    → command ≤ 2
    → view (unpad uuid padding (xtls_padding (some content) command none true ++ rest))
      ≡ after_block uuid command content rest
unfolding xtls_padding
xtls_padding-view uuid content rest command h c =
    subst
      (λ (n : ℕ).
        view (
          unpad uuid padding (
            command ∷ u16_bytes (length content)
            ++ u16_bytes n
            ++ content
            ++ replicate pad 0
            ++ rest))
        ≡ after_block uuid command content rest)
      (length-replicate {A = ℕ} pad 0)
      (block_view uuid content (replicate pad 0) rest command h small c)
  where
    pad : ℕ
    pad = if ltb (length content) 900 then 900 - length content else 0

    small : length (replicate {A = ℕ} pad 0) < 65536
    small = ground (arith, length-replicate {A = ℕ} pad 0)

-- The first block names the user, and the blocks are read from there on.
pub unpad_named :
    (uuid rest : Bytes)
    → length uuid ≡ 16
    → unpad uuid unknown (uuid ++ rest) ≡ unpad uuid padding rest
unfolding round unknown_round with_chunks
unpad_named uuid rest h = unpad_again uuid unknown padding (uuid ++ rest) rest [] here
  where
    long : ltb (length (uuid ++ rest)) 16 ≡ false
    long = le→ltb _ _ (omega (arith, length-append uuid rest))

    here : unknown_round uuid (uuid ++ rest) ≡ again [] padding rest
    here =
        rw
          (
            long,
            take-append_length 16 uuid rest h,
            bytes_eq_refl uuid,
            drop-append_length 16 uuid rest h,
            unknown_round,
          )
          refl

pub xtls_padding_named :
    (uuid : Bytes) (content : Option Bytes) (rest : Bytes)
    → xtls_padding content 0 (some uuid) true ++ rest
      ≡ uuid ++ (xtls_padding (some (content_of content)) 0 none true ++ rest)
unfolding xtls_padding
xtls_padding_named uuid none rest = append_assoc uuid _ rest
xtls_padding_named uuid (some content) rest = append_assoc uuid _ rest

-- The length of the content is written as 16 bits. Of a chunk of 65536 bytes or more the reader takes
-- only what is over a multiple of 65536 for the content, and reads the rest as further blocks.
pub xtls_padding_long :
    (uuid content rest : Bytes)
    → 65536 ≤ length content
    → round uuid padding (xtls_padding (some content) 0 none true ++ rest)
      ≡ again
          (chunk_of (take (length content % 65536) content))
          padding
          (drop (length content % 65536) content ++ rest)
unfolding xtls_padding round
xtls_padding_long uuid content rest h = rw (le→ltb (length content) 900 (omega arith)) (
    ap (round uuid padding) same
    ∙ block_reads uuid front [] (drop k content ++ rest) 0 (omega (arith, size)) (omega arith)
        (omega arith)
    ∙ end_block_more 0 (chunk_of front) (drop k content ++ rest) refl)
  where
    k : ℕ
    k = length content % 65536

    front : Bytes
    front = take k content

    size : length front ≡ k
    size = omega (arith, length-take k content)

    heads :
        0 ∷ u16_bytes (length content) ++ u16_bytes 0 ≡ 0 ∷ u16_bytes (length front) ++ u16_bytes 0
    heads = ground (arith, size)

    bodies : content ++ [] ++ rest ≡ front ++ [] ++ (drop k content ++ rest)
    bodies =
        simp
          (append-nil, sym (append_assoc front (drop k content) rest), take-append-drop k content)

    same :
        0 ∷ u16_bytes (length content) ++ u16_bytes 0 ++ content ++ [] ++ rest
        ≡ 0 ∷ u16_bytes (length front) ++ u16_bytes 0 ++ front ++ [] ++ (drop k content ++ rest)
    same = ap₂ ◌++◌ heads bodies
