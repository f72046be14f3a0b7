-- ===== src/Kernel/Inbound/Head.antt =====
-- What `read_http_head` and `split_authority_path` of crates/neoncore-kernel/src/main.rs return.

use neon_core_atlas.Kernel.Inbound.{read_http_head, head_end}
use neon_core_atlas.Kernel.Socks.{Anyhow}
use neon_core_atlas.Prelude.{
  length, ok, ◌≤◌, ◌≡◌, true, [], ◌∷◌, ◌++◌, ltb, ltb→lt, Bool-cases, length-append, ok-injective,
  err, subst, ◌∙◌, inl, inr, arith, append_assoc,
}
use neon_core_atlas.Std.Bytes.{Bytes}
use neon_core_atlas.Std.Text.{ends_with, Text}

refused : {m : Text} {r : Bytes × Bytes} → ◌≡◌ {A = Anyhow (Bytes × Bytes)} (err m) (ok r) → ⊥
refused e = cc

-- The head that is read and the bytes left are the bytes that came, the head ends in the blank line and
-- is no longer than the limit.
pub read_http_head-split :
    (buffer stream head rest : Bytes)
    → read_http_head buffer stream ≡ ok (head, rest)
    → (head ++ rest ≡ buffer ++ stream) × (ends_with head head_end ≡ true) × (length head ≤ 65536)
unfolding read_http_head
read_http_head-split buffer [] head rest e = elim (Bool-cases (ltb (length buffer) 65536)) [
  | inl h ↦ absurd (refused (rw (h, read_http_head) at e))
  | inr h ↦ absurd (refused (rw (h, read_http_head) at e))
]
read_http_head-split buffer (b ∷ stream) head rest e =
    elim (Bool-cases (ltb (length buffer) 65536)) [
      | inl h ↦ elim (Bool-cases (ends_with (buffer ++ (b ∷ [])) head_end)) [
        | inl d ↦ complete h d (ok-injective (rw (h, d, read_http_head) at e))
        | inr d ↦
            let (whole, end, short) =
              read_http_head-split (buffer ++ (b ∷ [])) stream head rest
                (rw (h, d, read_http_head) at e) in
            (whole ∙ append_assoc buffer (b ∷ []) stream, end, short)
      ]
      | inr h ↦ absurd (refused (rw (h, read_http_head) at e))
    ]
  where
    complete :
        ltb (length buffer) 65536 ≡ true
        → ends_with (buffer ++ (b ∷ [])) head_end ≡ true
        → ◌≡◌ {A = Bytes × Bytes} (buffer ++ (b ∷ []), stream) (head, rest)
        → (head ++ rest ≡ buffer ++ (b ∷ stream))
          × (ends_with head head_end ≡ true)
          × (length head ≤ 65536)
    complete h d e =
        subst
          (λ (r : Bytes × Bytes).
            (r.0 ++ r.1 ≡ buffer ++ (b ∷ stream))
            × (ends_with r.0 head_end ≡ true)
            × (length r.0 ≤ 65536))
          e
          (
            append_assoc buffer (b ∷ []) stream,
            d,
            omega (arith, length-append buffer (b ∷ []), ltb→lt (length buffer) 65536 h),
          )
