-- ===== src/Kernel/Vless/Xudp/Waits.antt =====
-- The loop that takes XUDP packets off the buffer ends because nothing whole is left
-- (crates/neoncore-kernel/src/adapter/vless.rs).

use neon_core_atlas.Kernel.Session.{TargetAddress}
use neon_core_atlas.Kernel.Socks.{Anyhow}
use neon_core_atlas.Kernel.Vless.Xudp.{
  meta_target, Round, complete, split_frame, read_frame, xudp_round, take_rounds, take_xudp_packet,
  take_after, wait, skip, XudpPacket, emit, packet, sized_round,
}
use neon_core_atlas.Prelude.{
  length, ◌≤◌, [], ◌∷◌, arith, ltb, Bool-cases, ◌>>◌, fail_if, ◌+◌, inl, inr, Option, none, ℕ,
  ltb→le, length-drop, ok, zero, suc, ◌≡◌, ◌<◌, index, slice, >>=-ok, refl, Bool, true, false,
  subst,
}
use neon_core_atlas.Std.Bytes.{Bytes, u16_be}
use neon_core_atlas.Std.Text.{Text}

-- A round that takes a frame off the buffer takes at least the two lengths with it.
complete-shrinks :
    (buffer : Bytes) (offset status option frame_len : ℕ) (to : Option TargetAddress) (rest : Bytes)
    → 0 < frame_len
    → 0 < length buffer
    → complete buffer offset status option to frame_len ≡ ok (skip rest)
    → length rest < length buffer
unfolding complete emit
complete-shrinks buffer offset status option frame_len to rest h k e =
    ground (arith, length-drop frame_len buffer, e)

guard-ok :
    {A : Type 0} (failed : Bool) (e : Text) (rest : Anyhow A) (r : A)
    → (fail_if failed e >> rest) ≡ ok r
    → (failed ≡ false) × (rest ≡ ok r)
guard-ok true e rest r h = cc
guard-ok false e rest r h = (refl, h)

split_frame-shrinks :
    (buffer : Bytes) (offset status option : ℕ) (to : Option TargetAddress) (rest : Bytes)
    → 0 < length buffer
    → split_frame buffer offset status option to ≡ ok (skip rest)
    → length rest < length buffer
unfolding split_frame
split_frame-shrinks buffer offset status option to rest k e =
    let (a, ea, e') = >>=-ok (index buffer offset) _ e in
    let (b, eb, e'') = >>=-ok (index buffer (offset + 1)) _ e' in
    complete-shrinks buffer offset status option _ to rest (omega arith) k e''

read_frame-shrinks :
    (buffer : Bytes) (meta_len : ℕ) (rest : Bytes)
    → 0 < length buffer
    → read_frame buffer meta_len ≡ ok (skip rest)
    → length rest < length buffer
unfolding read_frame
read_frame-shrinks buffer meta_len rest k e =
    let (meta, em, e1) = >>=-ok (slice buffer 2 (2 + meta_len)) _ e in
    let (status, es, e2) = >>=-ok (index meta 2) _ e1 in
    let (option, eo, e3) = >>=-ok (index meta 3) _ e2 in
    let (to, et, e4) = >>=-ok (meta_target meta) _ e3 in
    split_frame-shrinks buffer (2 + meta_len) status option to rest k e4

sized_round-shrinks :
    (buffer : Bytes) (n : ℕ) (rest : Bytes)
    → 0 < length buffer
    → sized_round buffer n ≡ ok (skip rest)
    → length rest < length buffer
unfolding sized_round
sized_round-shrinks buffer n rest k e = elim (Bool-cases (ltb (length buffer) (2 + n + 2))) [
  | inl f ↦ absurd (ground (arith, f, (guard-ok (ltb n 4) _ _ _ e).1))
  | inr f ↦ read_frame-shrinks buffer n rest k (rw f at (guard-ok (ltb n 4) _ _ _ e).1)
]

xudp_round-shrinks :
    (buffer rest : Bytes) → xudp_round buffer ≡ ok (skip rest) → length rest < length buffer
unfolding xudp_round
xudp_round-shrinks buffer rest e = elim (Bool-cases (ltb (length buffer) 2)) [
  | inl f ↦ absurd (ground (arith, e, f))
  | inr f ↦
      let (a, ea, e1) = >>=-ok (index buffer 0) _ (rw f at e) in
      let (b, eb, e2) = >>=-ok (index buffer 1) _ e1 in
      sized_round-shrinks buffer (u16_be a b) rest (omega (arith, ltb→le _ _ f)) e2
]

nothing_held : xudp_round [] ≡ ok wait
unfolding xudp_round
nothing_held = refl

stopped :
    (b left : Bytes)
    → ◌≡◌ {A = Anyhow (Option XudpPacket × Bytes)} (ok (none, b)) (ok (none, left))
    → b ≡ left
stopped b left e = cc

waits_after :
    (again : Bytes → Anyhow (Option XudpPacket × Bytes)) (buffer left : Bytes) (r : Round)
    → xudp_round buffer ≡ ok r
    → ((rest : Bytes)
        → length rest < length buffer
        → again rest ≡ ok (none, left)
        → xudp_round left ≡ ok wait)
    → take_after again buffer r ≡ ok (none, left)
    → xudp_round left ≡ ok wait
unfolding take_after
waits_after again buffer left wait h rec e =
    subst (λ (b : Bytes). xudp_round b ≡ ok wait) (stopped buffer left e) h
waits_after again buffer left (skip rest) h rec e = rec rest (xudp_round-shrinks buffer rest h) e
waits_after again buffer left (packet p rest) h rec e = cc

take_rounds-waits :
    (n : ℕ) (buffer left : Bytes)
    → length buffer ≤ n
    → take_rounds n buffer ≡ ok (none, left)
    → xudp_round left ≡ ok wait
unfolding take_rounds
take_rounds-waits zero [] left h e =
    subst (λ (b : Bytes). xudp_round b ≡ ok wait) (stopped [] left e) nothing_held
take_rounds-waits zero (x ∷ buffer) left h e = absurd (omega arith)
take_rounds-waits (suc n) buffer left h e =
    let (r, er, e') = >>=-ok (xudp_round buffer) _ e in
    waits_after (take_rounds n) buffer left r er
      (λ rest short. take_rounds-waits n rest left (omega arith)) e'

-- The length of the buffer is fuel enough for the loop: where it gives no packet, what it leaves in the
-- buffer holds no whole frame.
pub take_xudp_packet-waits :
    (buffer left : Bytes) → take_xudp_packet buffer ≡ ok (none, left) → xudp_round left ≡ ok wait
unfolding take_xudp_packet
take_xudp_packet-waits buffer left e = take_rounds-waits (length buffer) buffer left (omega arith) e
