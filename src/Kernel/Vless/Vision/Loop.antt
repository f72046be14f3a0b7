-- ===== src/Kernel/Vless/Vision/Loop.antt =====
-- The two loops of `VisionUnpaddingState::push`, and how the loop over what is pending runs
-- (crates/neoncore-kernel/src/adapter/vless.rs).

use neon_core_atlas.Kernel.Vless.Vision.{
  Round, break, round, again, after, padding, borrowed_blocks, push_loop, padding_round, end_block,
  VisionUnpaddingMode, VisionPushResult, unknown_round, with_chunks, raw_round, idle, unknown,
  to_raw, raw, unless_empty,
}
use neon_core_atlas.Prelude.{
  length, zero, suc, ◌≤◌, ◌≡◌, refl, [], ◌∷◌, arith, ℕ, drop, length-drop, ◌+◌, ◌<◌, ◌⊎◌, inl, inr,
  List, sym, ◌∙◌,
}
use neon_core_atlas.Std.Bytes.{Bytes, u16_be}

-- The two loops do the same: the one over what is pending is the reference.
pub borrowed_blocks-push_loop :
    (uuid : Bytes) (n : ℕ) (input : Bytes)
    → length input ≤ n
    → borrowed_blocks n padding input ≡ push_loop uuid n padding input
unfolding borrowed_blocks push_loop after round padding_round end_block
borrowed_blocks-push_loop uuid zero [] h = refl
borrowed_blocks-push_loop uuid zero (x ∷ input) h = absurd (omega arith)
borrowed_blocks-push_loop uuid (suc n) [] h = refl
borrowed_blocks-push_loop uuid (suc n) (a ∷ []) h = refl
borrowed_blocks-push_loop uuid (suc n) (a ∷ b ∷ []) h = refl
borrowed_blocks-push_loop uuid (suc n) (a ∷ b ∷ c ∷ []) h = refl
borrowed_blocks-push_loop uuid (suc n) (a ∷ b ∷ c ∷ d ∷ []) h = refl
borrowed_blocks-push_loop uuid (suc n) (command ∷ a ∷ b ∷ c ∷ d ∷ rest) h = ground (
  arith,
  borrowed_blocks-push_loop uuid n
      (drop (5 + u16_be a b + u16_be c d) (command ∷ a ∷ b ∷ c ∷ d ∷ rest)),
  length-drop (5 + u16_be a b + u16_be c d) (command ∷ a ∷ b ∷ c ∷ d ∷ rest),
)

-- The loop on as much fuel as there are bytes.
unfoldable pub unpad : Bytes → VisionUnpaddingMode → Bytes → VisionPushResult
unpad uuid mode b = push_loop uuid (length b) mode b

pub round-shrinks :
    (uuid : Bytes) (mode m : VisionUnpaddingMode) (b left : Bytes) (out : List Bytes)
    → round uuid mode b ≡ again out m left
    → length left < length b
unfolding round unknown_round padding_round raw_round end_block
round-shrinks uuid unknown m b left out e = ground (arith, e, length-drop 16 b)
round-shrinks uuid raw m b left out e = absurd (ground (arith, e))
round-shrinks uuid padding m (command ∷ a ∷ b ∷ c ∷ d ∷ rest) left out e =
    ground (arith, e, length-drop (5 + u16_be a b + u16_be c d) (command ∷ a ∷ b ∷ c ∷ d ∷ rest))
round-shrinks uuid padding m [] left out e = absurd (ground (arith, e))
round-shrinks uuid padding m (a ∷ []) left out e = absurd (ground (arith, e))
round-shrinks uuid padding m (a ∷ b ∷ []) left out e = absurd (ground (arith, e))
round-shrinks uuid padding m (a ∷ b ∷ c ∷ []) left out e = absurd (ground (arith, e))
round-shrinks uuid padding m (a ∷ b ∷ c ∷ d ∷ []) left out e = absurd (ground (arith, e))

pub Round-cases :
    (r : Round)
    → ((p : VisionPushResult) × (r ≡ break p))
      ⊎ ((out : List Bytes) × (m : VisionUnpaddingMode) × (left : Bytes) × (r ≡ again out m left))
Round-cases (break p) = inl (p, refl)
Round-cases (again out m left) = inr (out, m, left, refl)

-- Nothing comes of no bytes.
pub round-nil :
    (uuid : Bytes) (mode : VisionUnpaddingMode) → round uuid mode [] ≡ break (idle mode [])
unfolding round unknown_round padding_round raw_round idle to_raw unless_empty
round-nil uuid unknown = refl
round-nil uuid padding = refl
round-nil uuid raw = refl

pub push_loop-enough :
    (uuid : Bytes) (n m : ℕ) (mode : VisionUnpaddingMode) (b : Bytes)
    → length b ≤ n
    → length b ≤ m
    → push_loop uuid n mode b ≡ push_loop uuid m mode b
unfolding push_loop after
push_loop-enough uuid zero zero mode b h k = refl
push_loop-enough uuid zero (suc m) mode [] h k = rw (round-nil uuid mode) refl
push_loop-enough uuid zero (suc m) mode (x ∷ b) h k = absurd (omega arith)
push_loop-enough uuid (suc n) zero mode [] h k = rw (round-nil uuid mode) refl
push_loop-enough uuid (suc n) zero mode (x ∷ b) h k = absurd (omega arith)
push_loop-enough uuid (suc n) (suc m) mode b h k = elim (Round-cases (round uuid mode b)) [
  | inl (p, e) ↦ rw e refl
  | inr (out, m', left, e) ↦
      rw
        (
          e,
          push_loop-enough uuid n m m' left (omega (arith, round-shrinks uuid mode m' b left out e))
              (omega (arith, round-shrinks uuid mode m' b left out e)),
        )
        refl
]

pub break_injective : {p q : VisionPushResult} → ◌≡◌ {A = Round} (break p) (break q) → p ≡ q
break_injective e = cc

pub unpad_break :
    (uuid : Bytes) (mode : VisionUnpaddingMode) (b : Bytes) (r : VisionPushResult)
    → round uuid mode b ≡ break r
    → unpad uuid mode b ≡ r
unfolding unpad push_loop after
unpad_break uuid mode [] r e = break_injective (sym (round-nil uuid mode) ∙ e)
unpad_break uuid mode (x ∷ b) r e = rw e refl

pub unpad_again :
    (uuid : Bytes) (mode m : VisionUnpaddingMode) (b left : Bytes) (out : List Bytes)
    → round uuid mode b ≡ again out m left
    → unpad uuid mode b ≡ with_chunks out (unpad uuid m left)
unfolding unpad push_loop after
unpad_again uuid mode m [] left out e =
    absurd (omega (arith, round-shrinks uuid mode m [] left out e))
unpad_again uuid mode m (x ∷ b) left out e =
    rw
      (
        e,
        push_loop-enough uuid (length b) (length left) m left
            (omega (arith, round-shrinks uuid mode m (x ∷ b) left out e)) (omega arith),
      )
      refl
