-- ===== src/Kernel/Vless/Vision/Rounds.antt =====
-- A round of the Vision loop when more bytes follow (crates/neoncore-kernel/src/adapter/vless.rs).

use neon_core_atlas.Kernel.Vless.Vision.{
  break, round, again, padding, padding_round, end_block, VisionUnpaddingMode, VisionPushResult,
  unknown_round, raw_round, idle, unknown, to_raw, raw, unless_empty,
}
use neon_core_atlas.Kernel.Vless.Vision.Loop.{unpad, break_injective}
use neon_core_atlas.Prelude.{
  length, ◌≡◌, refl, [], ◌∷◌, arith, ℕ, drop, ◌+◌, ◌⊎◌, inl, inr, List, ltb, Bool-cases, take, sym,
  ap, ◌∙◌, ◌≢◌, Bool, false, ◌||◌, ◌++◌, append-nil, append_assoc, ◌==◌, if◌then◌else◌, ltb→le,
  le→ltb, length-append, take-append-le, drop-append-le,
}
use neon_core_atlas.Std.Bytes.{Bytes, u16_be, bytes_eq}
use neon_core_atlas.Stream.{flatten, flatten-append, flatten_one}

-- The bytes of a result, and what it leaves.
abbrev pub View : Type 0
View = Bytes × Bool × VisionUnpaddingMode × Bytes

unfoldable pub view : VisionPushResult → View
view r = (flatten r.chunks, r.direct, r.mode, r.pending)

-- More bytes come after the loop was left: where it waited it goes on, and raw bytes pass through.
unfoldable pub continue : Bytes → VisionUnpaddingMode → Bytes → Bytes → View
continue uuid raw pending bytes = (bytes, false, raw, pending)
continue uuid mode pending bytes = view (unpad uuid mode (pending ++ bytes))

unfoldable pub join : View → View → View
join (out, direct, mode, pending) (more, direct', mode', pending') =
    (out ++ more, direct || direct', mode', pending')

abbrev pub Waits : Bytes → VisionUnpaddingMode → Bytes → Type 0
Waits uuid mode b = round uuid mode b ≡ break (idle mode b)

-- Where a round ends the loop, it waits for more bytes, or what follows comes out raw.
abbrev pub Ends : Bytes → VisionUnpaddingMode → Bytes → Bytes → VisionPushResult → Type 0
Ends uuid mode b d r =
    ((r ≡ idle mode b) × (mode ≢ raw))
    ⊎ ((chunks : List Bytes) × (direct : Bool) × (r ≡ to_raw chunks direct)
        × (chunks' : List Bytes) × (round uuid mode (b ++ d) ≡ break (to_raw chunks' direct))
        × (flatten chunks' ≡ flatten chunks ++ d))

pub flatten-unless_empty : (b : Bytes) → flatten (unless_empty b) ≡ b
unfolding flatten unless_empty
flatten-unless_empty [] = refl
flatten-unless_empty (x ∷ b) = ap (◌∷◌ x) (append-nil b)

unknown_round-Ends :
    (uuid b d : Bytes) (r : VisionPushResult)
    → round uuid unknown b ≡ break r
    → Ends uuid unknown b d r
unfolding round unknown_round
unknown_round-Ends uuid b d r e = elim (Bool-cases (ltb (length b) 16)) [
  | inl f ↦ inl (sym (break_injective (rw f at e)), λ q. cc)
  | inr f ↦ elim (Bool-cases (bytes_eq (take 16 b) uuid)) [
    | inl g ↦ absurd (ground (arith, f, g, e))
    | inr g ↦ inr (
      b ∷ [],
      false,
      sym (break_injective (rw (f, g) at e)),
      (b ++ d) ∷ [],
      rw (longer f, take-append-le 16 b d (ltb→le _ _ f), g, unknown_round) refl,
      flatten_one (b ++ d) ∙ ap (λ (t : Bytes). t ++ d) (sym (flatten_one b)),
    )
  ]
]
  where
    longer : ltb (length b) 16 ≡ false → ltb (length (b ++ d)) 16 ≡ false
    longer f = le→ltb _ _ (omega (arith, ltb→le _ _ f, length-append b d))

-- The end of the padding, with the block's content and what is behind the block.
end_block-Ends :
    (uuid b d : Bytes) (command : ℕ) (out : List Bytes) (left : Bytes) (r : VisionPushResult)
    → end_block command out left ≡ break r
    → round uuid padding (b ++ d) ≡ end_block command out (left ++ d)
    → Ends uuid padding b d r
unfolding end_block
end_block-Ends uuid b d command out left r e more = elim (Bool-cases (command == 0)) [
  | inl f ↦ absurd (ground (arith, f, e))
  | inr f ↦ inr (
    out ++ unless_empty left,
    command == 2,
    sym (break_injective (rw f at e)),
    out ++ unless_empty (left ++ d),
    rw (more, f, end_block) refl,
    flatten-append out (unless_empty (left ++ d))
        ∙ ap (◌++◌ (flatten out)) (flatten-unless_empty (left ++ d))
        ∙ sym (
            ap (λ (t : Bytes). t ++ d)
              (flatten-append out (unless_empty left)
                ∙ ap (◌++◌ (flatten out)) (flatten-unless_empty left))
            ∙ append_assoc (flatten out) left d),
  )
]

-- A whole block is read in the same way, whatever follows it.
block_append :
    (uuid : Bytes) (command x y z w : ℕ) (rest d : Bytes)
    → ltb 2 command ≡ false
    → ltb (length (command ∷ x ∷ y ∷ z ∷ w ∷ rest)) (5 + u16_be x y + u16_be z w) ≡ false
    → padding_round (command ∷ x ∷ y ∷ z ∷ w ∷ rest ++ d)
      ≡ end_block command
          (if ltb 0 (u16_be x y) then take (u16_be x y) rest ∷ [] else [])
          (drop (5 + u16_be x y + u16_be z w) (command ∷ x ∷ y ∷ z ∷ w ∷ rest) ++ d)
unfolding padding_round
block_append uuid command x y z w rest d f g =
    rw
      (
        f,
        longer,
        take-append-le (u16_be x y) rest d (omega (arith, ltb→le _ _ g)),
        sym (
            drop-append-le (5 + u16_be x y + u16_be z w) (command ∷ x ∷ y ∷ z ∷ w ∷ rest) d
              (ltb→le _ _ g)),
      )
      refl
  where
    longer :
        ltb (length (command ∷ x ∷ y ∷ z ∷ w ∷ rest ++ d)) (5 + u16_be x y + u16_be z w) ≡ false
    longer = le→ltb _ _ (omega (arith, ltb→le _ _ g, length-append rest d))

padding_round-Ends :
    (uuid b d : Bytes) (r : VisionPushResult)
    → round uuid padding b ≡ break r
    → Ends uuid padding b d r
unfolding round padding_round
padding_round-Ends uuid (command ∷ x ∷ y ∷ z ∷ w ∷ rest) d r e = elim (Bool-cases (ltb 2 command)) [
  | inl f ↦ inr (
    b ∷ [],
    false,
    sym (break_injective (rw f at e)),
    (b ++ d) ∷ [],
    rw (f, padding_round) refl,
    flatten_one (b ++ d) ∙ ap (λ (t : Bytes). t ++ d) (sym (flatten_one b)),
  )
  | inr f ↦ elim (Bool-cases (ltb (length b) block_len)) [
    | inl g ↦ inl (sym (break_injective (rw (f, g) at e)), λ q. cc)
    | inr g ↦
        end_block-Ends uuid b d command out (drop block_len b) r (rw (f, g) at e)
          (block_append uuid command x y z w rest d f g)
  ]
]
  where
    b : Bytes
    b = command ∷ x ∷ y ∷ z ∷ w ∷ rest

    block_len : ℕ
    block_len = 5 + u16_be x y + u16_be z w

    out : List Bytes
    out = if ltb 0 (u16_be x y) then take (u16_be x y) rest ∷ [] else []
padding_round-Ends uuid [] d r e = inl (sym (break_injective e), λ q. cc)
padding_round-Ends uuid (x ∷ []) d r e = inl (sym (break_injective e), λ q. cc)
padding_round-Ends uuid (x ∷ y ∷ []) d r e = inl (sym (break_injective e), λ q. cc)
padding_round-Ends uuid (x ∷ y ∷ z ∷ []) d r e = inl (sym (break_injective e), λ q. cc)
padding_round-Ends uuid (x ∷ y ∷ z ∷ w ∷ []) d r e = inl (sym (break_injective e), λ q. cc)

pub round-Ends :
    (uuid : Bytes) (mode : VisionUnpaddingMode) (b d : Bytes) (r : VisionPushResult)
    → round uuid mode b ≡ break r
    → Ends uuid mode b d r
unfolding round raw_round
round-Ends uuid unknown b d r e = unknown_round-Ends uuid b d r e
round-Ends uuid padding b d r e = padding_round-Ends uuid b d r e
round-Ends uuid raw b d r e = inr (
  unless_empty b,
  false,
  sym (break_injective e),
  unless_empty (b ++ d),
  refl,
  flatten-unless_empty (b ++ d) ∙ ap (λ (t : Bytes). t ++ d) (sym (flatten-unless_empty b)),
)

end_block_again :
    (command : ℕ) (out : List Bytes) (m : VisionUnpaddingMode) (left d : Bytes)
    (content : List Bytes) (behind : Bytes)
    → end_block command content behind ≡ again out m left
    → end_block command content (behind ++ d) ≡ again out m (left ++ d)
unfolding end_block
end_block_again command out m left d content behind e = ground (arith, e)

unknown_round-stable :
    (uuid : Bytes) (m : VisionUnpaddingMode) (b left d : Bytes) (out : List Bytes)
    → unknown_round uuid b ≡ again out m left
    → unknown_round uuid (b ++ d) ≡ again out m (left ++ d)
unfolding unknown_round
unknown_round-stable uuid m b left d out e = elim (Bool-cases (ltb (length b) 16)) [
  | inl f ↦ absurd (ground (arith, f, e))
  | inr f ↦
      rw (longer f, take-append-le 16 b d (ltb→le _ _ f), drop-append-le 16 b d (ltb→le _ _ f))
        (known f)
]
  where
    longer : ltb (length b) 16 ≡ false → ltb (length (b ++ d)) 16 ≡ false
    longer f = le→ltb _ _ (omega (arith, ltb→le _ _ f, length-append b d))

    known :
        ltb (length b) 16 ≡ false
        → (if bytes_eq (take 16 b) uuid
            then again [] padding (drop 16 b ++ d)
            else break (to_raw ((b ++ d) ∷ []) false))
          ≡ again out m (left ++ d)
    known f = elim (Bool-cases (bytes_eq (take 16 b) uuid)) [
      | inl g ↦ ground (arith, f, g, e)
      | inr g ↦ absurd (ground (arith, f, g, e))
    ]

padding_round-stable :
    (uuid : Bytes) (m : VisionUnpaddingMode) (b left d : Bytes) (out : List Bytes)
    → padding_round b ≡ again out m left
    → padding_round (b ++ d) ≡ again out m (left ++ d)
unfolding padding_round
padding_round-stable uuid m (command ∷ x ∷ y ∷ z ∷ w ∷ rest) left d out e =
    elim (Bool-cases (ltb 2 command)) [
      | inl f ↦ absurd (ground (arith, e, f))
      | inr f ↦
          elim (Bool-cases
            (ltb (length (command ∷ x ∷ y ∷ z ∷ w ∷ rest)) (5 + u16_be x y + u16_be z w))) [
              | inl g ↦ absurd (ground (arith, e, f, g))
              | inr g ↦
                  block_append uuid command x y z w rest d f g
                  ∙ end_block_again command out m left d _ _ (rw (f, g) at e)
            ]
    ]
padding_round-stable uuid m [] left d out e = absurd (ground (arith, e))
padding_round-stable uuid m (x ∷ []) left d out e = absurd (ground (arith, e))
padding_round-stable uuid m (x ∷ y ∷ []) left d out e = absurd (ground (arith, e))
padding_round-stable uuid m (x ∷ y ∷ z ∷ []) left d out e = absurd (ground (arith, e))
padding_round-stable uuid m (x ∷ y ∷ z ∷ w ∷ []) left d out e = absurd (ground (arith, e))

-- A round that goes on does the same, whatever follows.
pub round-stable :
    (uuid : Bytes) (mode m : VisionUnpaddingMode) (b left d : Bytes) (out : List Bytes)
    → round uuid mode b ≡ again out m left
    → round uuid mode (b ++ d) ≡ again out m (left ++ d)
unfolding round raw_round
round-stable uuid unknown m b left d out e = unknown_round-stable uuid m b left d out e
round-stable uuid padding m b left d out e = padding_round-stable uuid m b left d out e
round-stable uuid raw m b left d out e = cc
