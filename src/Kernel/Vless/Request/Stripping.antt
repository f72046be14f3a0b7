-- ===== src/Kernel/Vless/Request/Stripping.antt =====
-- The response header in front of a stream that arrives in chunks
-- (crates/neoncore-kernel/src/adapter/vless.rs).

use neon_core_atlas.Kernel.Socks.{Anyhow}
use neon_core_atlas.Kernel.Vless.Request.{
  Stripper, strip_pending, strip, read_addon, read_vless_response_header,
}
use neon_core_atlas.Prelude.{
  ◌≡◌, refl, ◌⊎◌, true, false, none, List, [], ◌∷◌, ◌++◌, ltb, ◌==◌, ltb→le, le→ltb, Bool-cases,
  length, drop, length-append, drop-append-le, inl, inr, Option, some, append-nil, arith, ok, sym,
  ap, ◌∙◌, append_assoc, ℕ, zero, suc,
}
use neon_core_atlas.Std.Bytes.{Bytes}
use neon_core_atlas.Stream.{flatten}

-- `VlessResponseHeaderStripper::default()`
abbrev pub fresh : Stripper
fresh = record { pending = []; done = false }

-- Nothing is passed on until the header is gone.
unfoldable pub given : Option Bytes → Bytes
given none = []
given (some bytes) = bytes

-- What the chunks of a stream give.
unfoldable pub strip_all : Stripper → List Bytes → Bytes × Stripper
strip_all s [] = ([], s)
strip_all s (chunk ∷ chunks) =
    let (out, s') = strip s chunk in
    let (more, end) = strip_all s' chunks in (given out ++ more, end)

abbrev kept : Bytes → Stripper
kept b = record { pending = b; done = false }

abbrev pub gone : Stripper
gone = record { pending = []; done = true }

strip_all-gone : (chunks : List Bytes) → strip_all gone chunks ≡ (flatten chunks, gone)
unfolding strip_all strip flatten given
strip_all-gone [] = refl
strip_all-gone (chunk ∷ chunks) = rw (strip_all-gone chunks) refl

-- A header that is not whole is kept; behind a whole one, all that comes later passes.
abbrev Strips : Bytes → Type 0
Strips b =
    (strip_pending b ≡ (none, kept b))
    ⊎ ((out : Bytes) × ((d : Bytes) → strip_pending (b ++ d) ≡ (some (out ++ d), gone)))

strip_pending-Strips : (b : Bytes) → Strips b
unfolding strip_pending
strip_pending-Strips [] = inl refl
strip_pending-Strips (version ∷ []) = inl refl
strip_pending-Strips (version ∷ len ∷ rest) = elim (Bool-cases (version == 0)) [
  | inr e ↦ inr (version ∷ len ∷ rest, λ d. rw e refl)
  | inl e ↦ elim (Bool-cases (ltb (length rest) len)) [
    | inl f ↦ inl (rw (e, f) refl)
    | inr f ↦
        inr (drop len rest, λ d. rw (e, longer d f, drop-append-le len rest d (ltb→le _ _ f)) refl)
  ]
]
  where
    longer : (d : Bytes) → ltb (length rest) len ≡ false → ltb (length (rest ++ d)) len ≡ false
    longer d f = le→ltb _ _ (omega (arith, ltb→le _ _ f, length-append rest d))

strip_all-kept :
    (b : Bytes) (chunks : List Bytes)
    → strip_pending b ≡ (none, kept b)
    → strip_all (kept b) chunks
      ≡ (given (strip_pending (b ++ flatten chunks)).0, (strip_pending (b ++ flatten chunks)).1)
unfolding strip_all strip flatten given
strip_all-kept b [] h = rw (append-nil b, h) refl
strip_all-kept b (chunk ∷ chunks) h = elim (strip_pending-Strips (b ++ chunk)) [
  | inl e ↦ rw (e, strip_all-kept (b ++ chunk) chunks e, append_assoc b chunk (flatten chunks)) refl
  | inr (out, e) ↦
      rw
        (
          whole out e,
          strip_all-gone chunks,
          sym (append_assoc b chunk (flatten chunks)),
          e (flatten chunks),
        )
        refl
]
  where
    whole :
        (out : Bytes)
        → ((d : Bytes) → strip_pending (b ++ chunk ++ d) ≡ (some (out ++ d), gone))
        → strip_pending (b ++ chunk) ≡ (some out, gone)
    whole out e =
        ap strip_pending (sym (append-nil (b ++ chunk)))
        ∙ e []
        ∙ ap (λ (t : Bytes). (some t, gone)) (append-nil out)

read_addon-drop :
    (len : ℕ) (stream left : Bytes)
    → read_addon len stream ≡ ok left
    → (ltb (length stream) len ≡ false) × (drop len stream ≡ left)
unfolding read_addon
read_addon-drop len stream left e = elim (Bool-cases (ltb 0 len)) [
  | inl f ↦ ground (arith, e, f)
  | inr f ↦ (le→ltb _ _ (omega (arith, ltb→le _ _ f)), none_dropped len f (rw f at e))
]
  where
    none_dropped :
        (n : ℕ)
        → ltb 0 n ≡ false
        → ◌≡◌ {A = Anyhow Bytes} (ok stream) (ok left)
        → drop n stream ≡ left
    none_dropped zero g k = cc
    none_dropped (suc n) g k = absurd (ground (arith, g))

nothing_held : strip_pending [] ≡ (none, kept [])
unfolding strip_pending
nothing_held = refl

read_header-strip :
    (b left : Bytes)
    → read_vless_response_header b ≡ ok left
    → ◌≡◌ {A = Bytes × Stripper} (given (strip_pending b).0, (strip_pending b).1) (left, gone)
unfolding read_vless_response_header strip_pending given
read_header-strip [] left e = cc
read_header-strip (x ∷ []) left e = cc
read_header-strip (version ∷ len ∷ rest) left e = elim (Bool-cases (version == 0)) [
  | inr f ↦ absurd (ground (arith, e, f))
  | inl f ↦
      let (whole, same) = read_addon-drop len rest left (ground (arith, e, f)) in
      rw (f, whole) (ap (λ (t : Bytes). (t, gone)) same)
]

-- However the stream is cut into chunks, what is passed on is what reading the header off the whole
-- stream leaves, wherever that succeeds.
pub strip_all-read_vless_response_header :
    (chunks : List Bytes) (left : Bytes)
    → read_vless_response_header (flatten chunks) ≡ ok left
    → strip_all fresh chunks ≡ (left, gone)
strip_all-read_vless_response_header chunks left h =
    strip_all-kept [] chunks nothing_held ∙ read_header-strip (flatten chunks) left h
