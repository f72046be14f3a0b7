-- ===== src/Kernel/Vless/Xudp/Safety.antt =====
-- The loop that takes XUDP packets off the buffer (crates/neoncore-kernel/src/adapter/vless.rs).

use neon_core_atlas.Kernel.Session.{TargetAddress}
use neon_core_atlas.Kernel.Socks.{Anyhow}
use neon_core_atlas.Kernel.Vless.Xudp.{
  meta_target, Round, complete, split_frame, read_frame, xudp_round, take_rounds, take_xudp_packet,
  take_after, wait, skip, XudpPacket, packet, sized_round,
}
use neon_core_atlas.Kernel.Vless.Xudp.Address.{meta_target-ne-panic}
use neon_core_atlas.Prelude.{
  length, panic, ◌≤◌, ◌≢◌, arith, index_lem, ltb, Bool-cases, drop, >>=-ne-panic, ◌+◌, inl, inr,
  Option, slice_lem, ℕ, slice_from_lem, ltb→le, take, length-take, length-drop, zero, suc, ◌-◌, ◌≡◌,
}
use neon_core_atlas.Std.Bytes.{Bytes}
use neon_core_atlas.Std.Text.{Text}

complete-ne-panic :
    (buffer : Bytes) (offset status option frame_len : ℕ) (to : Option TargetAddress)
    → offset + 2 ≤ frame_len
    → complete buffer offset status option to frame_len ≢ panic
unfolding complete
complete-ne-panic buffer offset status option frame_len to h =
    elim (Bool-cases (ltb (length buffer) frame_len)) [
      | inl e ↦ rw e (λ p. cc)
      | inr e ↦
          rw
            (
              e,
              slice_from_lem {E = Text} (take frame_len buffer) (offset + 2)
                  (omega (arith, length-take frame_len buffer, ltb→le _ _ e)),
            )
            (λ p. cc)
    ]

split_frame-ne-panic :
    (buffer : Bytes) (offset status option : ℕ) (to : Option TargetAddress)
    → offset + 2 ≤ length buffer
    → split_frame buffer offset status option to ≢ panic
unfolding split_frame
split_frame-ne-panic buffer offset status option to h =
    rw
      (
        index_lem {E = Text} buffer offset 0 (omega arith),
        index_lem {E = Text} buffer (offset + 1) 0 (omega arith),
      )
      (complete-ne-panic buffer offset status option _ to (omega arith))

read_frame-ne-panic :
    (buffer : Bytes) (meta_len : ℕ)
    → 4 ≤ meta_len
    → 2 + meta_len + 2 ≤ length buffer
    → read_frame buffer meta_len ≢ panic
unfolding read_frame
read_frame-ne-panic buffer meta_len h k =
    rw
      (
        slice_lem {E = Text} buffer 2 (2 + meta_len) (omega arith) (omega arith),
        index_lem {E = Text} meta 2 0 (omega (arith, size)),
        index_lem {E = Text} meta 3 0 (omega (arith, size)),
      )
      (>>=-ne-panic (meta_target meta) _ (meta_target-ne-panic meta)
        (λ to e. split_frame-ne-panic buffer (2 + meta_len) _ _ to (omega arith)))
  where
    meta : Bytes
    meta = take (2 + meta_len - 2) (drop 2 buffer)

    size : length meta ≡ meta_len
    size = omega (arith, length-take (2 + meta_len - 2) (drop 2 buffer), length-drop 2 buffer)

sized_round-ne-panic : (buffer : Bytes) (n : ℕ) → sized_round buffer n ≢ panic
unfolding sized_round
sized_round-ne-panic buffer n = elim (Bool-cases (ltb n 4)) [
  | inl e ↦ rw e (λ p. cc)
  | inr e ↦ elim (Bool-cases (ltb (length buffer) (2 + n + 2))) [
    | inl f ↦ rw (e, f) (λ p. cc)
    | inr f ↦ rw (e, f) (read_frame-ne-panic buffer n (ltb→le _ _ e) (ltb→le _ _ f))
  ]
]

xudp_round-ne-panic : (buffer : Bytes) → xudp_round buffer ≢ panic
unfolding xudp_round
xudp_round-ne-panic buffer = elim (Bool-cases (ltb (length buffer) 2)) [
  | inl e ↦ rw e (λ p. cc)
  | inr e ↦
      rw
        (
          e,
          index_lem {E = Text} buffer 0 0 (omega (arith, ltb→le _ _ e)),
          index_lem {E = Text} buffer 1 0 (omega (arith, ltb→le _ _ e)),
        )
        (sized_round-ne-panic buffer _)
]

take_after-ne-panic :
    (again : Bytes → Anyhow (Option XudpPacket × Bytes)) (buffer : Bytes) (r : Round)
    → ((b : Bytes) → again b ≢ panic)
    → take_after again buffer r ≢ panic
unfolding take_after
take_after-ne-panic again buffer wait h = λ p. cc
take_after-ne-panic again buffer (skip rest) h = h rest
take_after-ne-panic again buffer (packet p rest) h = λ q. cc

take_rounds-ne-panic : (n : ℕ) (buffer : Bytes) → take_rounds n buffer ≢ panic
unfolding take_rounds
take_rounds-ne-panic zero buffer = λ p. cc
take_rounds-ne-panic (suc n) buffer =
    >>=-ne-panic (xudp_round buffer) _ (xudp_round-ne-panic buffer)
      (λ r e. take_after-ne-panic (take_rounds n) buffer r (take_rounds-ne-panic n))

-- Whatever the peer sends, taking a packet off the buffer does not index out of range.
pub take_xudp_packet-ne-panic : (buffer : Bytes) → take_xudp_packet buffer ≢ panic
unfolding take_xudp_packet
take_xudp_packet-ne-panic buffer = take_rounds-ne-panic (length buffer) buffer
