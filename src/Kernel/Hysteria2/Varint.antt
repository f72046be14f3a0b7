-- ===== src/Kernel/Hysteria2/Varint.antt =====
-- QUIC variable-length integers of crates/neoncore-kernel/src/adapter/hysteria2.rs read back.

use neon_core_atlas.Kernel.Hysteria2.{
  u64_bytes, read_quic_varint, varint_len, varint_value, write_quic_varint,
}
use neon_core_atlas.Prelude.{
  length, take, length-append, take-append_length, drop-append_length, get_elem?-append, slice, ok,
  suc, ◌+◌, ◌*◌, ◌/◌, ◌%◌, ◌^◌, ◌<◌, ◌≡◌, refl, ap, ◌∙◌, [], ◌∷◌, ◌++◌, arith, ℕ, slice_lem, ap₂,
  ◌≤◌, bit_or, leb, leb→le, Bool-cases, inl, inr,
}
use neon_core_atlas.Prelude.Bits.{bit_or-tag, bit_and_ones}
use neon_core_atlas.Std.Bytes.{Bytes, u16_bytes, u32_bytes}
use neon_core_atlas.Std.Net.{be_number}
use neon_core_atlas.Std.Text.{Text}

pub be_number-u16 : (acc w : ℕ) → w < 2 ^ 16 → be_number acc (u16_bytes w) ≡ acc * 2 ^ 16 + w
unfolding be_number
be_number-u16 acc w h = omega arith

pub be_number-u32 : (acc w : ℕ) → be_number acc (u32_bytes w) ≡ acc * 2 ^ 32 + w % 2 ^ 32
unfolding be_number
be_number-u32 acc w = omega arith

be_number-append :
    (acc : ℕ) (xs ys : Bytes) → be_number acc (xs ++ ys) ≡ be_number (be_number acc xs) ys
unfolding be_number
be_number-append acc [] ys = refl
be_number-append acc (x ∷ xs) ys = be_number-append (acc * 256 + x) xs ys

be_number-u64 : (w : ℕ) → w < 2 ^ 64 → be_number 0 (u64_bytes w) ≡ w
be_number-u64 w h =
    be_number-append 0 (u32_bytes (w / 2 ^ 32)) (u32_bytes w)
    ∙ be_number-u32 (be_number 0 (u32_bytes (w / 2 ^ 32))) w
    ∙ omega (arith, be_number-u32 0 (w / 2 ^ 32))

-- Reading at the length of `front`, when the first byte announces the length of what stands there.
module _ (front rest : Bytes) (n : ℕ) (here : length front ≡ n) where
  reads :
      (b v : ℕ) (bs : Bytes)
      → varint_len b ≡ suc (length bs)
      → varint_value (front ++ (b ∷ bs ++ rest)) n b (suc (length bs)) ≡ ok v
      → read_quic_varint (front ++ (b ∷ bs ++ rest)) n ≡ ok (v, n + suc (length bs))
  unfolding read_quic_varint
  reads b v bs l e = ground (
    arith,
    l,
    e,
    length-append front (b ∷ bs ++ rest),
    length-append bs rest,
    get_elem?-append n 0 front (b ∷ bs ++ rest) here,
  )

  pub slices :
      (k : ℕ) (bytes : Bytes)
      → length bytes ≡ k
      → slice {E = Text} (front ++ (bytes ++ rest)) n (n + k) ≡ ok bytes
  slices k bytes e =
      slice_lem (front ++ (bytes ++ rest)) n (n + k) (omega arith)
        (omega (arith, length-append front (bytes ++ rest), length-append bytes rest))
      ∙ ap ok (
          ap₂ take (omega arith) (drop-append_length n front (bytes ++ rest) here)
          ∙ take-append_length k bytes rest e)

  read_one : (v : ℕ) → v ≤ 63 → read_quic_varint (front ++ (v % 2 ^ 8 ∷ rest)) n ≡ ok (v, n + 1)
  unfolding varint_len varint_value
  read_one v h = reads (v % 2 ^ 8) v [] (ground arith) (ground (arith, bit_and_ones 6 (v % 2 ^ 8)))

  read_two :
      (v : ℕ)
      → v < 2 ^ 14
      → read_quic_varint (front ++ (u16_bytes (bit_or (v % 2 ^ 16) 0x4000) ++ rest)) n
        ≡ ok (v, n + 2)
  unfolding varint_len varint_value
  read_two v h = reads (w / 256 % 256) v (w % 256 ∷ []) (ground (arith, tagged)) (
      ground (
        arith,
        tagged,
        slices 2 (u16_bytes w) refl,
        be_number-u16 0 w (omega (arith, tagged)),
        bit_and_ones 14 w,
      ))
    where
      w : ℕ
      w = bit_or (v % 2 ^ 16) 0x4000

      tagged : w ≡ 0x4000 + v
      tagged = omega (arith, bit_or-tag 14 1 (v % 2 ^ 16) (omega arith))

  read_four :
      (v : ℕ)
      → v < 2 ^ 30
      → read_quic_varint (front ++ (u32_bytes (bit_or (v % 2 ^ 32) 0x80000000) ++ rest)) n
        ≡ ok (v, n + 4)
  unfolding varint_len varint_value
  read_four v h =
      reads (w / 2 ^ 24 % 256) v (w / 2 ^ 16 % 256 ∷ w / 2 ^ 8 % 256 ∷ w % 256 ∷ [])
        (ground (arith, tagged))
        (ground (arith, tagged, slices 4 (u32_bytes w) refl, be_number-u32 0 w, bit_and_ones 30 w))
    where
      w : ℕ
      w = bit_or (v % 2 ^ 32) 0x80000000

      tagged : w ≡ 0x80000000 + v
      tagged = omega (arith, bit_or-tag 30 2 (v % 2 ^ 32) (omega arith))

  read_eight :
      (v : ℕ)
      → v < 2 ^ 62
      → read_quic_varint (front ++ (u64_bytes (bit_or v 0xC000000000000000) ++ rest)) n
        ≡ ok (v, n + 8)
  unfolding varint_len varint_value
  read_eight v h =
      reads (w / 2 ^ 32 / 2 ^ 24 % 256) v
        (w / 2 ^ 32 / 2 ^ 16 % 256 ∷ w / 2 ^ 32 / 2 ^ 8 % 256 ∷ w / 2 ^ 32 % 256 ∷ u32_bytes w)
        (ground (arith, tagged))
        (ground (
          arith,
          tagged,
          slices 8 (u64_bytes w) refl,
          be_number-u64 w (omega (arith, tagged)),
          bit_and_ones 62 w,
        ))
    where
      w : ℕ
      w = bit_or v 0xC000000000000000

      tagged : w ≡ 0xC000000000000000 + v
      tagged = omega (arith, bit_or-tag 62 3 v h)

-- A number below 2^62 reads back wherever it was written, and the offset moves behind it.
pub read_quic_varint-write :
    (front rest : Bytes) (n v : ℕ)
    → length front ≡ n
    → v < 2 ^ 62
    → read_quic_varint (front ++ (write_quic_varint v ++ rest)) n
      ≡ ok (v, n + length (write_quic_varint v))
unfolding write_quic_varint
read_quic_varint-write front rest n v here h = elim (Bool-cases (leb v 63)) [
  | inl a ↦ rw (a, write_quic_varint) (read_one front rest n here v (leb→le v 63 a))
  | inr a ↦ elim (Bool-cases (leb v 16383)) [
    | inl b ↦
        rw (a, b, write_quic_varint)
          (read_two front rest n here v (omega (arith, leb→le v 16383 b)))
    | inr b ↦ elim (Bool-cases (leb v 1073741823)) [
      | inl c ↦
          rw (a, b, c, write_quic_varint)
            (read_four front rest n here v (omega (arith, leb→le v 1073741823 c)))
      | inr c ↦ rw (a, b, c, write_quic_varint) (read_eight front rest n here v h)
    ]
  ]
]
