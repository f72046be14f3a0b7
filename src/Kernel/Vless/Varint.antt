-- ===== src/Kernel/Vless/Varint.antt =====
-- Protobuf variable-length integers of crates/neoncore-kernel/src/adapter/vless.rs. A u64 has at most ten
-- groups of seven bits: ten rounds of the writing loop are enough, and the reading loop stops there.

use native.Mathlib.Nat.{add-mul, mod-eq_of_lt, mul-le-mul_right, mul_assoc}
use native.Mathlib.Numerals.{towards_suc}
use neon_core_atlas.Prelude.{
  leb, ◌==◌, if◌then◌else◌, true, false, zero, suc, ◌+◌, ◌*◌, ◌/◌, ◌%◌, ◌^◌, ◌<◌, bit_and, bit_or,
  ◌≡◌, Option, none, some, [], ◌∷◌, arith, ℕ, ap, ◌∙◌, Bool-cases, length, ◌≤◌, inl, inr, ◌++◌,
  refl, subst, ap₂,
}
use neon_core_atlas.Prelude.Bits.{bit_and-pow, bit_or-tag, bit_and_ones}
use neon_core_atlas.Std.Bytes.{Bytes}

unfoldable pub write_varint_groups : ℕ → ℕ → Bytes
write_varint_groups zero value = []
write_varint_groups (suc rounds) value =
    let more = write_varint_groups rounds (value / 2 ^ 7) in
    if value / 2 ^ 7 == 0 then bit_and value 0x7f ∷ [] else bit_or (bit_and value 0x7f) 0x80 ∷ more

unfoldable pub write_protobuf_varint : ℕ → Bytes
write_protobuf_varint value = write_varint_groups 10 value

-- The loop from an index on, with the value so far.
unfoldable pub read_varint_groups : ℕ → ℕ → Bytes → Option (ℕ × ℕ)
read_varint_groups i value [] = none
read_varint_groups i value (byte ∷ bytes) =
    let value' = bit_or value (bit_and byte 0x7f * 2 ^ (i * 7) % 2 ^ 64) in
    let rest = read_varint_groups (i + 1) value' bytes in
    if bit_and byte 0x80 == 0 then some (value', i + 1) else if leb 9 i then none else rest

unfoldable pub read_protobuf_varint : Bytes → Option (ℕ × ℕ)
read_protobuf_varint bytes = read_varint_groups 0 0 bytes

-- One group: its low bits, and whether more follow.
last_group : (c : ℕ) → c < 128 → (bit_and c 0x7f ≡ c) × (bit_and c 0x80 ≡ 0)
last_group c h = (omega (arith, bit_and_ones 7 c), omega (arith, bit_and-pow 7 c))

more_group :
    (c : ℕ) → c < 128 → (bit_and (bit_or c 0x80) 0x7f ≡ c) × (bit_and (bit_or c 0x80) 0x80 ≡ 128)
more_group c h = (
  omega (arith, bit_and_ones 7 (bit_or c 0x80), bit_or-tag 7 1 c h),
  omega (arith, bit_and-pow 7 (bit_or c 0x80), bit_or-tag 7 1 c h),
)

next_power : (i : ℕ) → 2 ^ ((i + 1) * 7) ≡ 128 * 2 ^ (i * 7)
next_power i = ap (λ (t : ℕ). 2 ^ t) shape ∙ simp towards_suc (omega arith)
  where
    shape : (i + 1) * 7 ≡ i * 7 + 7
    shape = omega arith

regroup : (q c p : ℕ) → (q * 128 + c) * p ≡ c * p + q * (128 * p)
regroup q c p = omega (arith, add-mul (q * 128) c p, mul_assoc q 128 p)

-- A group more: the low seven bits join the value so far.
joined :
    (i acc v : ℕ)
    → acc < 2 ^ (i * 7)
    → acc + v * 2 ^ (i * 7) < 2 ^ 64
    → bit_or acc (v % 128 * 2 ^ (i * 7) % 2 ^ 64) ≡ acc + v % 128 * 2 ^ (i * 7)
joined i acc v h k =
    ap (bit_or acc) (mod-eq_of_lt small) ∙ bit_or-tag (i * 7) (v % 128) acc h ∙ omega arith
  where
    small : v % 128 * 2 ^ (i * 7) < 2 ^ 64
    small = omega (arith, mul-le-mul_right {m = v % 128} {n = v} (2 ^ (i * 7)) (omega arith))

-- The last group: nothing is left above it.
read_varint_groups-last :
    (rounds i acc v : ℕ) (rest : Bytes)
    → v < 128
    → acc < 2 ^ (i * 7)
    → acc + v * 2 ^ (i * 7) < 2 ^ 64
    → read_varint_groups i acc (write_varint_groups (suc rounds) v ++ rest)
      ≡ some (acc + v * 2 ^ (i * 7), i + length (write_varint_groups (suc rounds) v))
unfolding read_varint_groups write_varint_groups
read_varint_groups-last rounds i acc v rest hv ha hw =
    rw
      (
        done,
        write_varint_groups,
        read_varint_groups,
        bit_and_ones 7 v,
        small,
        (last_group v hv).0,
        (last_group v hv).1,
        grown,
      )
      refl
  where
    small : v % 128 ≡ v
    small = omega arith

    done : (v / 128 == 0) ≡ true
    done = ground arith

    grown : bit_or acc (v * 2 ^ (i * 7) % 2 ^ 64) ≡ acc + v * 2 ^ (i * 7)
    grown =
        subst (λ (t : ℕ). bit_or acc (t * 2 ^ (i * 7) % 2 ^ 64) ≡ acc + t * 2 ^ (i * 7)) small
          (joined i acc v ha hw)

-- Another group: the rest of the number is read behind it.
read_varint_groups-more :
    (rounds i acc v : ℕ) (tail : Bytes)
    → i < 9
    → (v / 128 == 0) ≡ false
    → acc < 2 ^ (i * 7)
    → acc + v * 2 ^ (i * 7) < 2 ^ 64
    → read_varint_groups i acc (write_varint_groups (suc rounds) v ++ tail)
      ≡ read_varint_groups
          (i + 1)
          (acc + v % 128 * 2 ^ (i * 7))
          (write_varint_groups rounds (v / 128) ++ tail)
unfolding read_varint_groups write_varint_groups
read_varint_groups-more rounds i acc v tail hi e ha hw =
    rw
      (
        e,
        write_varint_groups,
        read_varint_groups,
        bit_and_ones 7 v,
        (more_group (v % 128) (omega arith)).0,
        (more_group (v % 128) (omega arith)).1,
        joined i acc v ha hw,
        room,
        if◌then◌else◌,
      )
      refl
  where
    room : leb 9 i ≡ false
    room = ground arith

length_more :
    (rounds v : ℕ)
    → (v / 128 == 0) ≡ false
    → length (write_varint_groups (suc rounds) v)
      ≡ suc (length (write_varint_groups rounds (v / 128)))
unfolding write_varint_groups
length_more rounds v e = rw (e, write_varint_groups) refl

stays :
    (i acc v : ℕ)
    → acc + v % 128 * 2 ^ (i * 7) + v / 128 * 2 ^ ((i + 1) * 7) ≡ acc + v * 2 ^ (i * 7)
stays i acc v = rw (next_power i) (
    omega (arith, regroup (v / 128) (v % 128) (2 ^ (i * 7)), ap (λ (t : ℕ). t * 2 ^ (i * 7)) whole))
  where
    whole : v / 128 * 128 + v % 128 ≡ v
    whole = omega arith

grows : (i acc c : ℕ) → acc < 2 ^ (i * 7) → c < 128 → acc + c * 2 ^ (i * 7) < 2 ^ ((i + 1) * 7)
grows i acc c h k = rw (next_power i) (
    omega
      (arith, mul-le-mul_right {m = suc c} {n = 128} (2 ^ (i * 7)) k, add-mul c 1 (2 ^ (i * 7))))

read_varint_groups-write :
    (rounds i acc v : ℕ) (rest : Bytes)
    → i + suc rounds ≤ 10
    → v < 2 ^ (suc rounds * 7)
    → acc < 2 ^ (i * 7)
    → acc + v * 2 ^ (i * 7) < 2 ^ 64
    → read_varint_groups i acc (write_varint_groups (suc rounds) v ++ rest)
      ≡ some (acc + v * 2 ^ (i * 7), i + length (write_varint_groups (suc rounds) v))
read_varint_groups-write zero i acc v rest hi hv ha hw =
    read_varint_groups-last 0 i acc v rest (omega arith) ha hw
read_varint_groups-write (suc n) i acc v rest hi hv ha hw = elim (Bool-cases (v / 128 == 0)) [
  | inl e ↦ read_varint_groups-last (suc n) i acc v rest (ground (arith, e)) ha hw
  | inr e ↦
      read_varint_groups-more (suc n) i acc v rest (omega arith) e ha hw
      ∙ read_varint_groups-write n (i + 1) (acc + v % 128 * 2 ^ (i * 7)) (v / 128) rest
          (omega arith) (below n v hv) (grows i acc (v % 128) ha (omega arith))
          (omega (arith, stays i acc v))
      ∙ rw (stays i acc v, length_more (suc n) v e)
          (ap (λ (t : ℕ). some (acc + v * 2 ^ (i * 7), t)) (omega arith))
]
  where
    shape : (n : ℕ) → (suc n + 1) * 7 ≡ suc (suc n) * 7
    shape n = omega arith

    below : (n v : ℕ) → v < 2 ^ (suc (suc n) * 7) → v / 128 < 2 ^ (suc n * 7)
    below n v h = omega (arith, next_power (suc n), ap (λ (t : ℕ). 2 ^ t) (shape n))

-- A u64 reads back from its groups, whatever follows, and the offset is their number.
pub read_protobuf_varint-write :
    (v : ℕ) (rest : Bytes)
    → v < 2 ^ 64
    → read_protobuf_varint (write_protobuf_varint v ++ rest)
      ≡ some (v, length (write_protobuf_varint v))
unfolding read_protobuf_varint write_protobuf_varint
read_protobuf_varint-write v rest h =
    read_varint_groups-write 9 0 0 v rest (omega arith) (omega arith) (omega arith) (omega arith)
    ∙ ap₂ (λ (t n : ℕ). some (t, n)) (omega arith) (omega arith)

-- At most ten groups, and at least one.
length-write_varint_groups : (rounds v : ℕ) → length (write_varint_groups rounds v) ≤ rounds
unfolding write_varint_groups
length-write_varint_groups zero v = omega arith
length-write_varint_groups (suc n) v = elim (Bool-cases (v / 128 == 0)) [
  | inl e ↦ rw (e, write_varint_groups) (omega arith)
  | inr e ↦ rw (e, write_varint_groups) (omega (arith, length-write_varint_groups n (v / 128)))
]

pub length-write_protobuf_varint : (v : ℕ) → length (write_protobuf_varint v) ≤ 10
unfolding write_protobuf_varint
length-write_protobuf_varint v = length-write_varint_groups 10 v
