-- ===== src/Kernel/Vless/Vision/Unpadding.antt =====
-- Taking the padding off a stream, however it arrives (crates/neoncore-kernel/src/adapter/vless.rs).

use neon_core_atlas.Kernel.Vless.Vision.{
  push, round, padding, VisionUnpaddingMode, VisionPushResult, with_chunks, idle, unknown, to_raw,
  raw, VisionUnpaddingState, break, push_without_pending, unknown_round, push_with, new_unpadding,
}
use neon_core_atlas.Kernel.Vless.Vision.Loop.{
  Round-cases, unpad, unpad_break, round-shrinks, round-nil, unpad_again, borrowed_blocks-push_loop,
  push_loop-enough,
}
use neon_core_atlas.Kernel.Vless.Vision.Rounds.{
  join, continue, View, Ends, round-Ends, view, Waits, round-stable,
}
use neon_core_atlas.Prelude.{
  length, ◌≤◌, ◌≡◌, refl, [], ◌∷◌, ℕ, inl, inr, List, ap, ◌∙◌, ◌≢◌, false, ◌||◌, ◌++◌, append_assoc,
  zero, suc, sym, Bool, true, arith, ap₂, ltb, Bool-cases, take, drop, length-drop, subst,
  append-nil,
}
use neon_core_atlas.Std.Bytes.{Bytes, bytes_eq}
use neon_core_atlas.Stream.{flatten, flatten-append, flatten_one}

-- The writers of the local side get what the chunks of the stream give, one after the other.
unfoldable pub push_chunks : VisionUnpaddingState → List Bytes → View
push_chunks s [] = ([], false, s.mode, s.pending)
push_chunks s (chunk ∷ chunks) = let (r, s') = push s chunk in join (view r) (push_chunks s' chunks)

join-view :
    (out : List Bytes) (r : VisionPushResult) (v : View)
    → join (view (with_chunks out r)) v
      ≡ join (flatten out, false, r.mode, r.pending) (join (view r) v)
unfolding view join with_chunks
join-view out r v =
    ap (λ (o : Bytes). (o, r.direct || v.1, v.2, v.3))
      (ap (λ (t : Bytes). t ++ v.0) (flatten-append out r.chunks)
        ∙ append_assoc (flatten out) (flatten r.chunks) v.0)

pub view-with_chunks :
    (out : List Bytes) (r : VisionPushResult)
    → view (with_chunks out r) ≡ join (flatten out, false, r.mode, r.pending) (view r)
unfolding view join with_chunks
view-with_chunks out r =
    ap (λ (o : Bytes). (o, r.direct, r.mode, r.pending)) (flatten-append out r.chunks)

continue-idle :
    (uuid b d : Bytes) (mode : VisionUnpaddingMode)
    → mode ≢ raw
    → view (unpad uuid mode (b ++ d)) ≡ join (view (idle mode b)) (continue uuid mode b d)
unfolding view join continue idle flatten
continue-idle uuid b d unknown h = refl
continue-idle uuid b d padding h = refl
continue-idle uuid b d raw h = absurd (h refl)

ended :
    (uuid : Bytes) (mode : VisionUnpaddingMode) (b d : Bytes) (p : VisionPushResult)
    → Ends uuid mode b d p
    → view (unpad uuid mode (b ++ d)) ≡ join (view p) (continue uuid p.mode p.pending d)
unfolding idle to_raw view join continue
ended uuid mode b d p (inl (e, k)) = rw e (continue-idle uuid b d mode k)
ended uuid mode b d p (inr (chunks, direct, e, chunks', e', f)) =
    rw (e, unpad_break uuid mode (b ++ d) (to_raw chunks' direct) e')
      (ap₂ (λ (o : Bytes) (t : Bool). (o, t, raw, [])) f (sym (or_false direct)))
  where
    or_false : (t : Bool) → t || false ≡ t
    or_false true = refl
    or_false false = refl

-- The bytes that come later change nothing of what was read already.
unpad-append :
    (n : ℕ) (uuid : Bytes) (mode : VisionUnpaddingMode) (b d : Bytes)
    → length b ≤ n
    → view (unpad uuid mode (b ++ d))
      ≡ join
          (view (unpad uuid mode b))
          (continue uuid (unpad uuid mode b).mode (unpad uuid mode b).pending d)
unfolding with_chunks join
unpad-append zero uuid mode (x ∷ b) d h = absurd (omega arith)
unpad-append zero uuid mode [] d h =
    rw (unpad_break uuid mode [] (idle mode []) (round-nil uuid mode))
      (ended uuid mode [] d (idle mode []) (round-Ends uuid mode [] d _ (round-nil uuid mode)))
unpad-append (suc n) uuid mode b d h = elim (Round-cases (round uuid mode b)) [
  | inl (p, e) ↦
      rw (unpad_break uuid mode b p e) (ended uuid mode b d p (round-Ends uuid mode b d p e))
  | inr (out, m, left, e) ↦
      rw
        (
          unpad_again uuid mode m b left out e,
          unpad_again uuid mode m (b ++ d) (left ++ d) out
              (round-stable uuid mode m b left d out e),
        )
        (view-with_chunks out (unpad uuid m (left ++ d))
          ∙ ap (join (flatten out, false, m, []))
              (unpad-append n uuid m left d (omega (arith, round-shrinks uuid mode m b left out e)))
          ∙ sym (join-view out (unpad uuid m left) _))
]

-- The state waits for more bytes, or is raw with none pending.
ended-Waits :
    (uuid : Bytes) (mode : VisionUnpaddingMode) (b : Bytes) (p : VisionPushResult)
    → round uuid mode b ≡ break p
    → Ends uuid mode b [] p
    → Waits uuid p.mode p.pending
unfolding idle to_raw
ended-Waits uuid mode b p e (inl (f, k)) = rw f (e ∙ ap break f)
ended-Waits uuid mode b p e (inr (chunks, direct, f, chunks', e', g)) = rw f (round-nil uuid raw)

unpad-Waits :
    (n : ℕ) (uuid : Bytes) (mode : VisionUnpaddingMode) (b : Bytes)
    → length b ≤ n
    → Waits uuid (unpad uuid mode b).mode (unpad uuid mode b).pending
unfolding with_chunks
unpad-Waits zero uuid mode (x ∷ b) h = absurd (omega arith)
unpad-Waits zero uuid mode [] h =
    rw (unpad_break uuid mode [] (idle mode []) (round-nil uuid mode)) (
      ended-Waits uuid mode [] (idle mode []) (round-nil uuid mode)
        (round-Ends uuid mode [] [] _ (round-nil uuid mode)))
unpad-Waits (suc n) uuid mode b h = elim (Round-cases (round uuid mode b)) [
  | inl (p, e) ↦
      rw (unpad_break uuid mode b p e) (ended-Waits uuid mode b p e (round-Ends uuid mode b [] p e))
  | inr (out, m, left, e) ↦
      rw (unpad_again uuid mode m b left out e)
        (unpad-Waits n uuid m left (omega (arith, round-shrinks uuid mode m b left out e)))
]

-- The fast path, with nothing pending, does what the loop does.
push_without_pending-unpad :
    (uuid : Bytes) (mode : VisionUnpaddingMode) (input : Bytes)
    → mode ≢ raw
    → push_without_pending uuid mode input ≡ unpad uuid mode input
unfolding push_without_pending unpad round unknown_round with_chunks
push_without_pending-unpad uuid raw input h = absurd (h refl)
push_without_pending-unpad uuid padding input h =
    borrowed_blocks-push_loop uuid (length input) input (omega arith)
push_without_pending-unpad uuid unknown input h = elim (Bool-cases (ltb (length input) 16)) [
  | inl e ↦
      rw e (sym (unpad_break uuid unknown input (idle unknown input) (rw (e, unknown_round) refl)))
  | inr e ↦ elim (Bool-cases (bytes_eq (take 16 input) uuid)) [
    | inl f ↦
        rw (e, f)
          (borrowed_blocks-push_loop uuid (length input) (drop 16 input) shorter
            ∙ push_loop-enough uuid (length input) (length (drop 16 input)) padding (drop 16 input)
                shorter (omega arith)
            ∙ sym (
                unpad_again uuid unknown padding input (drop 16 input) []
                  (rw (e, f, unknown_round) refl)))
    | inr f ↦
        rw (e, f)
          (sym (
            unpad_break uuid unknown input (to_raw (input ∷ []) false)
              (rw (e, f, unknown_round) refl)))
  ]
]
  where
    shorter : length (drop 16 input) ≤ length input
    shorter = omega (arith, length-drop 16 input)

push_with-continue :
    (uuid : Bytes) (mode : VisionUnpaddingMode) (pending bytes : Bytes)
    → view (push_with uuid mode pending bytes) ≡ continue uuid mode pending bytes
unfolding push_with continue view unpad
push_with-continue uuid raw pending bytes =
    ap (λ (o : Bytes). (o, false, raw, pending)) (flatten_one bytes)
push_with-continue uuid padding [] bytes =
    ap view (push_without_pending-unpad uuid padding bytes (λ q. cc))
push_with-continue uuid unknown [] bytes =
    ap view (push_without_pending-unpad uuid unknown bytes (λ q. cc))
push_with-continue uuid padding (x ∷ pending) bytes = refl
push_with-continue uuid unknown (x ∷ pending) bytes = refl

continue-Waits :
    (uuid : Bytes) (mode : VisionUnpaddingMode) (pending bytes : Bytes)
    → Waits uuid mode pending
    → Waits uuid (continue uuid mode pending bytes).2 (continue uuid mode pending bytes).3
unfolding continue view
continue-Waits uuid raw pending bytes w = w
continue-Waits uuid unknown pending bytes w =
    unpad-Waits (length (pending ++ bytes)) uuid unknown (pending ++ bytes) (omega arith)
continue-Waits uuid padding pending bytes w =
    unpad-Waits (length (pending ++ bytes)) uuid padding (pending ++ bytes) (omega arith)

-- One chunk and then the next are the two in one.
continue-append :
    (uuid : Bytes) (mode : VisionUnpaddingMode) (pending b d : Bytes)
    → continue uuid mode pending (b ++ d)
      ≡ join
          (continue uuid mode pending b)
          (continue uuid (continue uuid mode pending b).2 (continue uuid mode pending b).3 d)
unfolding continue join view
continue-append uuid raw pending b d = refl
continue-append uuid unknown pending b d =
    ap (λ (t : Bytes). view (unpad uuid unknown t)) (sym (append_assoc pending b d))
    ∙ unpad-append (length (pending ++ b)) uuid unknown (pending ++ b) d (omega arith)
continue-append uuid padding pending b d =
    ap (λ (t : Bytes). view (unpad uuid padding t)) (sym (append_assoc pending b d))
    ∙ unpad-append (length (pending ++ b)) uuid padding (pending ++ b) d (omega arith)

continue_nothing :
    (uuid : Bytes) (mode : VisionUnpaddingMode) (pending : Bytes)
    → Waits uuid mode pending
    → continue uuid mode pending [] ≡ ([], false, mode, pending)
unfolding continue view idle flatten
continue_nothing uuid raw pending h = refl
continue_nothing uuid unknown pending h =
    ap (λ (t : Bytes). view (unpad uuid unknown t)) (append-nil pending)
    ∙ ap view (unpad_break uuid unknown pending (idle unknown pending) h)
continue_nothing uuid padding pending h =
    ap (λ (t : Bytes). view (unpad uuid padding t)) (append-nil pending)
    ∙ ap view (unpad_break uuid padding pending (idle padding pending) h)

push_chunks-continue :
    (uuid : Bytes) (mode : VisionUnpaddingMode) (pending : Bytes) (chunks : List Bytes)
    → Waits uuid mode pending
    → push_chunks (record { uuid = uuid; pending = pending; mode = mode }) chunks
      ≡ continue uuid mode pending (flatten chunks)
unfolding push_chunks flatten push view
push_chunks-continue uuid mode pending [] h = sym (continue_nothing uuid mode pending h)
push_chunks-continue uuid mode pending (chunk ∷ chunks) h =
    ap (join v) (push_chunks-continue uuid v.2 v.3 chunks kept)
    ∙ ap (λ (t : View). join t (continue uuid t.2 t.3 (flatten chunks))) here
    ∙ sym (continue-append uuid mode pending chunk (flatten chunks))
  where
    v : View
    v = view (push_with uuid mode pending chunk)

    here : v ≡ continue uuid mode pending chunk
    here = push_with-continue uuid mode pending chunk

    kept : Waits uuid v.2 v.3
    kept =
        subst (λ (t : View). Waits uuid t.2 t.3) (sym here)
          (continue-Waits uuid mode pending chunk h)

-- However a stream is cut into chunks, the bytes that come out, the order to read the rest directly, the
-- mode and the bytes that are kept are those of the whole stream read at once.
pub push_chunks-unpad :
    (uuid : Bytes) (chunks : List Bytes)
    → push_chunks (new_unpadding uuid) chunks ≡ view (unpad uuid unknown (flatten chunks))
unfolding new_unpadding continue
push_chunks-unpad uuid chunks = push_chunks-continue uuid unknown [] chunks (round-nil uuid unknown)
