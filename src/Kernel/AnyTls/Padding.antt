-- ===== src/Kernel/AnyTls/Padding.antt =====
-- What `write_with_padding` of crates/neoncore-kernel/src/adapter/anytls.rs adds to a buffer.

use neon_core_atlas.Kernel.AnyTls.{
  PaddingSize, pad_to, payload, cmd_waste, check, header_len, write_sizes, append_frame,
  PaddingFactory, write_with_padding, sizes,
}
use neon_core_atlas.Kernel.Socks.{Anyhow}
use neon_core_atlas.Prelude.{
  ltb, ltb→le, Bool-cases, length, replicate, ok, ◌+◌, ◌-◌, ◌^◌, ◌<◌, ◌≡◌, refl, sym, ap, ◌∙◌, inl,
  inr, false, List, [], ◌∷◌, ◌++◌, append-nil, arith, ℕ, append_assoc, ◌==◌, take, drop, All,
  take-append-drop, ◌%◌, subst, le→ltb, length-replicate,
}
use neon_core_atlas.Std.Bytes.{Bytes, u32_bytes, u16_bytes}

-- A frame of waste, and any number of them.
abbrev pub waste_frame : ℕ → Bytes
waste_frame n = cmd_waste ∷ (u32_bytes 0 ++ (u16_bytes n ++ replicate n 0))

abbrev pub waste_frames : List ℕ → Bytes
waste_frames [] = []
waste_frames (n ∷ ns) = waste_frame n ++ waste_frames ns

-- A size that the length field of a frame can hold.
abbrev pub IsSmall : PaddingSize → Type 0
IsSmall (payload size) = size < 65536
IsSmall check = Unit {0}

-- What was written and what is left are what there was, and waste behind it.
abbrev Pads : Bytes → Bytes → Anyhow (Bytes × Bytes) → Type 0
Pads written buffer m =
    (ns : List ℕ) × (r : Bytes × Bytes) × (m ≡ ok r)
    × (r.0 ++ r.1 ≡ written ++ (buffer ++ waste_frames ns))

pad_to-waste :
    (size : ℕ) (buffer : Bytes)
    → size < 65536
    → (ms : List ℕ) × (pad_to size buffer ≡ buffer ++ waste_frames ms)
unfolding pad_to
pad_to-waste size buffer h = elim (Bool-cases (ltb 0 p)) [
  | inl e ↦ (
    p ∷ [],
    rw (e, pad_to)
        (ap (λ (t : ℕ). buffer ++ (cmd_waste ∷ (u32_bytes 0 ++ (u16_bytes t ++ replicate p 0))))
            fits
          ∙ ap (◌++◌ buffer) (sym (append-nil (waste_frame p)))),
  )
  | inr e ↦ ([], rw (e, pad_to) (sym (append-nil buffer)))
]
  where
    p : ℕ
    p = size - (length buffer + header_len)

    fits : p % 2 ^ 16 ≡ p
    fits = omega arith

waste_frames-append :
    (ms ns : List ℕ) → waste_frames ms ++ waste_frames ns ≡ waste_frames (ms ++ ns)
waste_frames-append [] ns = refl
waste_frames-append (m ∷ ms) ns =
    append_assoc (waste_frame m) (waste_frames ms) (waste_frames ns)
    ∙ ap (◌++◌ (waste_frame m)) (waste_frames-append ms ns)

nil_of : (buffer : Bytes) → ltb 0 (length buffer) ≡ false → buffer ≡ []
nil_of [] h = refl
nil_of (b ∷ bs) h = absurd (omega (arith, ltb→le 0 (length (b ∷ bs)) h))

waste_frame_written :
    (n : ℕ) → n < 65536 → append_frame [] cmd_waste 0 (replicate n 0) ≡ ok (waste_frame n)
unfolding append_frame
waste_frame_written n h =
    rw (le→ltb 65535 (length zeros) (omega (arith, counted)), append_frame)
      (ap (λ (k : ℕ). ok (cmd_waste ∷ (u32_bytes 0 ++ (u16_bytes k ++ zeros)))) counted)
  where
    zeros : Bytes
    zeros = replicate n 0

    counted : length zeros ≡ n
    counted = length-replicate {A = ℕ} n 0

-- With nothing left, the waste stands behind what was written.
behind : (w b f t : Bytes) → b ≡ [] → (w ++ f) ++ (b ++ t) ≡ w ++ (b ++ (f ++ t))
behind w b f t e = rw e (append_assoc w f t)

write_sizes-Pads :
    (sizes : List PaddingSize) (written buffer : Bytes)
    → All IsSmall sizes
    → Pads written buffer (write_sizes sizes written buffer)
unfolding write_sizes
write_sizes-Pads [] written buffer h =
    ([], (written, buffer), refl, ap (◌++◌ written) (sym (append-nil buffer)))
write_sizes-Pads (check ∷ sizes) written buffer (h, hs) = elim (Bool-cases (length buffer == 0)) [
  | inl e ↦
      ([], (written, buffer), rw (e, write_sizes) refl, ap (◌++◌ written) (sym (append-nil buffer)))
  | inr e ↦
      subst (Pads written buffer) (rw (e, write_sizes) refl)
        (write_sizes-Pads sizes written buffer hs)
]
write_sizes-Pads (payload size ∷ sizes) written buffer (h, hs) =
    elim (Bool-cases (ltb size (length buffer))) [
      | inl e ↦
          let (ns, r, m, eq) =
            write_sizes-Pads sizes (written ++ take size buffer) (drop size buffer) hs in
          (ns, r, rw (e, write_sizes) m, eq ∙ split written size buffer (waste_frames ns))
      | inr e ↦ elim (Bool-cases (ltb 0 (length buffer))) [
        | inl f ↦
            let (ms, p) = pad_to-waste size buffer h in
            let (ns, r, m, eq) = write_sizes-Pads sizes (written ++ pad_to size buffer) [] hs in
            (
              ms ++ ns,
              r,
              rw (e, f, write_sizes) m,
              eq ∙ padded written (pad_to size buffer) buffer ms ns p,
            )
        | inr f ↦
            let (ns, r, m, eq) = write_sizes-Pads sizes (written ++ waste_frame size) buffer hs in
            (
              size ∷ ns,
              r,
              rw (e, f, write_sizes, waste_frame_written size h) m,
              eq ∙ behind written buffer (waste_frame size) (waste_frames ns) (nil_of buffer f),
            )
      ]
    ]
  where
    split : (w : Bytes) (n : ℕ) (b t : Bytes) → (w ++ take n b) ++ (drop n b ++ t) ≡ w ++ (b ++ t)
    split w n b t =
        append_assoc w (take n b) (drop n b ++ t)
        ∙ ap (◌++◌ w) (
            sym (append_assoc (take n b) (drop n b) t)
            ∙ ap (λ (x : Bytes). x ++ t) (take-append-drop n b))

    padded :
        (w q b : Bytes) (ms ns : List ℕ)
        → q ≡ b ++ waste_frames ms
        → (w ++ q) ++ waste_frames ns ≡ w ++ (b ++ waste_frames (ms ++ ns))
    padded w q b ms ns e =
        append_assoc w q (waste_frames ns)
        ∙ ap (◌++◌ w) (
            ap (λ (x : Bytes). x ++ waste_frames ns) e
            ∙ append_assoc b (waste_frames ms) (waste_frames ns)
            ∙ ap (◌++◌ b) (waste_frames-append ms ns))

-- When every size of the padding scheme fits the length field of a frame, a packet is written in full and
-- in order, whatever its number, and what the padding adds are whole frames of waste behind it.
pub write_with_padding-waste :
    (padding : PaddingFactory) (packet : ℕ) (buffer : Bytes)
    → All IsSmall (sizes padding packet)
    → (ns : List ℕ) × (write_with_padding padding packet buffer ≡ ok (buffer ++ waste_frames ns))
unfolding write_with_padding
write_with_padding-waste padding packet buffer h = elim (Bool-cases (ltb packet padding.stop)) [
  | inl e ↦
      let (ns, r, m, eq) = write_sizes-Pads (sizes padding packet) [] buffer h in
      (ns, rw (e, write_with_padding, m) (ap ok eq))
  | inr e ↦ ([], rw (e, write_with_padding) (ap ok (sym (append-nil buffer))))
]
