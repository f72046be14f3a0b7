-- ===== src/Kernel/Vless/Vision/Records.antt =====
-- The TLS records that the Vision filter looks at (crates/neoncore-kernel/src/adapter/vless.rs).

use neon_core_atlas.Kernel.Vless.Vision.Uplink.{
  VisionTrafficState, filter_tls, complete_records, is_complete_tls_application_data,
}
use neon_core_atlas.Prelude.{
  ltb, ◌==◌, le→ltb, length, take, drop, All, length-append, length-take, drop-append_length, zero,
  suc, ◌/◌, ◌%◌, ◌≤◌, ◌<◌, ◌≡◌, refl, ◌↔◌, true, false, not, ◌||◌, List, [], ◌∷◌, ◌++◌, map, arith,
  ℕ, ltb→le, Bool-cases, take-append-drop, sym, ap, ◌∙◌, inl, inr, ap₂,
}
use neon_core_atlas.Std.Bytes.{IsByte, Bytes, u16_bytes, u16_be}
use neon_core_atlas.Std.Text.{starts_with}
use neon_core_atlas.Stream.{flatten}

-- A record of application data of TLS 1.2 or above.
abbrev pub application_data : Bytes → Bytes
application_data body = 0x17 ∷ 0x03 ∷ 0x03 ∷ u16_bytes (length body) ++ body

abbrev pub Short : Bytes → Type 0
Short body = length body < 65536

-- Nothing but whole records of application data.
abbrev pub Whole : Bytes → Type 0
Whole bytes =
    (bodies : List Bytes) × All Short bodies × (bytes ≡ flatten (map application_data bodies))

complete_records-enough :
    (n : ℕ) (bodies : List Bytes)
    → All Short bodies
    → length (flatten (map application_data bodies)) ≤ n
    → complete_records n (flatten (map application_data bodies)) ≡ true
unfolding complete_records flatten
complete_records-enough zero [] h k = refl
complete_records-enough (suc n) [] h k = refl
complete_records-enough zero (body ∷ bodies) h k = absurd (omega arith)
complete_records-enough (suc n) (body ∷ bodies) (h, hs) k =
    rw (word, whole, drop-append_length (length body) body rest refl)
      (complete_records-enough n bodies hs (omega (arith, length-append body rest)))
  where
    rest : Bytes
    rest = flatten (map application_data bodies)

    word : u16_be (length body / 256 % 256) (length body % 256) ≡ length body
    word = omega arith

    whole : ltb (length (body ++ rest)) (length body) ≡ false
    whole = le→ltb _ _ (omega (arith, length-append body rest))

one_more :
    (t major minor a b : ℕ) (rest : Bytes)
    → All IsByte (t ∷ major ∷ minor ∷ a ∷ b ∷ rest)
    → (not (t == 0x17) || not (major == 0x03) || not (minor == 0x03)) ≡ false
    → u16_be a b ≤ length rest
    → Whole (drop (u16_be a b) rest)
    → Whole (t ∷ major ∷ minor ∷ a ∷ b ∷ rest)
unfolding flatten
one_more t major minor a b rest (ht, (hm, (hi, (ha, (hb, hr))))) e h (bodies, s, w) = (
  take (u16_be a b) rest ∷ bodies,
  (omega (arith, size), s),
  ap₂ ◌++◌ head (sym (take-append-drop (u16_be a b) rest) ∙ ap (◌++◌ (take (u16_be a b) rest)) w),
)
  where
    size : length (take (u16_be a b) rest) ≡ u16_be a b
    size = omega (arith, length-take (u16_be a b) rest)

    head :
        t ∷ major ∷ minor ∷ a ∷ b ∷ []
        ≡ 0x17 ∷ 0x03 ∷ 0x03 ∷ u16_bytes (length (take (u16_be a b) rest))
    head = ground (arith, e, size)

All-drop : (n : ℕ) (xs : Bytes) → All IsByte xs → All IsByte (drop n xs)
All-drop zero xs h = h
All-drop (suc n) [] h = h
All-drop (suc n) (x ∷ xs) (h, hs) = All-drop n xs hs

complete_records-Whole :
    (n : ℕ) (bytes : Bytes) → All IsByte bytes → complete_records n bytes ≡ true → Whole bytes
unfolding complete_records flatten
complete_records-Whole zero [] h e = ([], tt, refl)
complete_records-Whole zero (x ∷ bytes) h e = absurd (ground (arith, e))
complete_records-Whole (suc n) [] h e = ([], tt, refl)
complete_records-Whole (suc n) (t ∷ []) h e = cc
complete_records-Whole (suc n) (t ∷ u ∷ []) h e = cc
complete_records-Whole (suc n) (t ∷ u ∷ v ∷ []) h e = cc
complete_records-Whole (suc n) (t ∷ u ∷ v ∷ a ∷ []) h e = cc
complete_records-Whole (suc n) (t ∷ u ∷ v ∷ a ∷ b ∷ rest) h e =
    elim (Bool-cases (not (t == 0x17) || not (u == 0x03) || not (v == 0x03))) [
      | inl f ↦ absurd (ground (arith, e, f))
      | inr f ↦ elim (Bool-cases (ltb (length rest) (u16_be a b))) [
        | inl g ↦ absurd (ground (arith, e, f, g))
        | inr g ↦ one_more t u v a b rest h f (ltb→le _ _ g) (
            complete_records-Whole n (drop (u16_be a b) rest)
              (All-drop (u16_be a b) rest h.1.1.1.1.1) (ground (arith, e, f, g)))
      ]
    ]

-- The test holds of whole records of application data, and of nothing else.
pub is_complete_tls_application_data-Whole :
    (bytes : Bytes)
    → All IsByte bytes
    → (is_complete_tls_application_data bytes ≡ true) ↔ Whole bytes
unfolding is_complete_tls_application_data
is_complete_tls_application_data-Whole bytes h = (
  complete_records-Whole (length bytes) bytes h,
  λ (bodies, s, e). rw e (
      complete_records-enough (length (flatten (map application_data bodies))) bodies s
        (omega arith)),
)

starts_with-shorter :
    (bytes : Bytes)
    → starts_with bytes (0x16 ∷ 0x03 ∷ 0x03 ∷ []) ≡ true
    → starts_with bytes (0x16 ∷ 0x03 ∷ []) ≡ true
unfolding starts_with
starts_with-shorter [] h = cc
starts_with-shorter (a ∷ []) h = ground (arith, h)
starts_with-shorter (a ∷ b ∷ bytes) h = ground (arith, h)

-- The filter never takes note of a ServerHello, nor of TLS 1.3: what begins like one begins like a
-- handshake, and the test for that stands first.
pub filter_tls-unseen :
    (s : VisionTrafficState) (bytes : Bytes)
    → ((filter_tls s bytes).is_tls12_or_above ≡ s.is_tls12_or_above)
      × ((filter_tls s bytes).is_tls13 ≡ s.is_tls13)
      × ((filter_tls s bytes).remaining_server_hello ≡ s.remaining_server_hello)
unfolding filter_tls
filter_tls-unseen s bytes = ground (arith, starts_with-shorter bytes)
