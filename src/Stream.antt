-- ===== src/Stream.antt =====
-- Decoders that keep what they cannot read yet: a loop takes items off the front of the bytes that are
-- pending until none is whole, and the chunks of a stream are pushed one after the other.

use neon_core_atlas.Prelude.{
  Option-cases, length, zero, suc, ◌≤◌, ◌<◌, ◌≡◌, refl, sym, ◌∙◌, inl, inr, Option, none, some,
  List, [], ◌∷◌, ◌++◌, ap, arith, ℕ, append_assoc, map, append-nil, All,
}
use neon_core_atlas.Std.Bytes.{Bytes}

module _ {A : Type 0} (next : Bytes → Option (List A × Bytes)) where
  -- `loop { match next { None => break, Some(item) => out.push(item) } }`, with fuel for the items
  unfoldable pub drain : ℕ → Bytes → List A × Bytes
  drain zero b = ([], b)
  drain (suc n) b = elim (next b) [
    | none ↦ ([], b)
    | some (out, rest) ↦ let (more, left) = drain n rest in (out ++ more, left)
  ]

  unfoldable pub run : Bytes → List A × Bytes
  run b = drain (length b) b

  -- One chunk after the other, with what is pending.
  unfoldable pub push_all : Bytes → List Bytes → List A × Bytes
  push_all pending [] = ([], pending)
  push_all pending (chunk ∷ chunks) =
      let (out, left) = run (pending ++ chunk) in
      let (more, end) = push_all left chunks in (out ++ more, end)

-- What a decoder of items owes: an item is read off the front whatever follows it, and takes a byte.
pub record IsFraming {A : Type 0} (next : Bytes → Option (List A × Bytes)) : Type 0 where
  pub stable :
      (b : Bytes) (out : List A) (rest d : Bytes)
      → next b ≡ some (out, rest)
      → next (b ++ d) ≡ some (out, rest ++ d)
  pub shrinks :
      (b : Bytes) (out : List A) (rest : Bytes) → next b ≡ some (out, rest) → length rest < length b

unfoldable pub flatten {ℓ} : {A : Type ℓ} → List (List A) → List A
flatten [] = []
flatten (xs ∷ xss) = xs ++ flatten xss

pub flatten-append : (xs ys : List Bytes) → flatten (xs ++ ys) ≡ flatten xs ++ flatten ys
unfolding flatten
flatten-append [] ys = refl
flatten-append (x ∷ xs) ys =
    ap (◌++◌ x) (flatten-append xs ys) ∙ sym (append_assoc x (flatten xs) (flatten ys))

pub flatten_one : (b : Bytes) → flatten (b ∷ []) ≡ b
unfolding flatten
flatten_one b = append-nil b

module _ {A : Type 0} (next : Bytes → Option (List A × Bytes)) (f : IsFraming next) where
  -- The length of the bytes is fuel enough: more of it changes nothing.
  drain-enough :
      (n m : ℕ) (b : Bytes) → length b ≤ n → length b ≤ m → drain next n b ≡ drain next m b
  unfolding drain
  drain-enough zero zero b h k = refl
  drain-enough zero (suc m) b h k = elim (Option-cases (next b)) [
    | inl e ↦ rw (e, drain) refl
    | inr ((out, rest), e) ↦ absurd (omega (arith, f.shrinks b out rest e))
  ]
  drain-enough (suc n) zero b h k = elim (Option-cases (next b)) [
    | inl e ↦ rw (e, drain) refl
    | inr ((out, rest), e) ↦ absurd (omega (arith, f.shrinks b out rest e))
  ]
  drain-enough (suc n) (suc m) b h k = elim (Option-cases (next b)) [
    | inl e ↦ rw (e, drain) refl
    | inr ((out, rest), e) ↦
        rw
          (
            e,
            drain,
            drain-enough n m rest (omega (arith, f.shrinks b out rest e))
                (omega (arith, f.shrinks b out rest e)),
          )
          refl
  ]

  run_stop : (b : Bytes) → next b ≡ none → run next b ≡ ([], b)
  unfolding run drain
  run_stop [] e = refl
  run_stop (x ∷ b) e = rw (e, drain) refl

  run_item :
      (b : Bytes) (out : List A) (rest : Bytes)
      → next b ≡ some (out, rest)
      → run next b ≡ (out ++ (run next rest).0, (run next rest).1)
  unfolding run drain
  run_item [] out rest e = absurd (omega (arith, f.shrinks [] out rest e))
  run_item (x ∷ b) out rest e =
      rw
        (
          e,
          drain,
          drain-enough (length b) (length rest) rest (omega (arith, f.shrinks (x ∷ b) out rest e))
              (omega arith),
        )
        refl

  -- Bytes that come later change nothing of what was read already.
  run-append :
      (n : ℕ) (b d : Bytes)
      → length b ≤ n
      → run next (b ++ d)
        ≡ ((run next b).0 ++ (run next ((run next b).1 ++ d)).0, (run next ((run next b).1 ++ d)).1)
  run-append zero b d h = elim (Option-cases (next b)) [
    | inl e ↦ rw (run_stop b e) refl
    | inr ((out, rest), e) ↦ absurd (omega (arith, f.shrinks b out rest e))
  ]
  run-append (suc n) b d h = elim (Option-cases (next b)) [
    | inl e ↦ rw (run_stop b e) refl
    | inr ((out, rest), e) ↦
        run_item (b ++ d) out (rest ++ d) (f.stable b out rest d e)
        ∙ rw (run_item b out rest e) (
            ap (λ (r : List A × Bytes). (out ++ r.0, r.1))
              (run-append n rest d (omega (arith, f.shrinks b out rest e)))
            ∙ ap (λ (l : List A). (l, (run next ((run next rest).1 ++ d)).1))
                (sym (append_assoc out (run next rest).0 (run next ((run next rest).1 ++ d)).0)))
  ]

  -- The loop ends because nothing more is whole.
  run_idle : (n : ℕ) (b : Bytes) → length b ≤ n → next (run next b).1 ≡ none
  run_idle zero b h = elim (Option-cases (next b)) [
    | inl e ↦ rw (run_stop b e) e
    | inr ((out, rest), e) ↦ absurd (omega (arith, f.shrinks b out rest e))
  ]
  run_idle (suc n) b h = elim (Option-cases (next b)) [
    | inl e ↦ rw (run_stop b e) e
    | inr ((out, rest), e) ↦
        rw (run_item b out rest e) (run_idle n rest (omega (arith, f.shrinks b out rest e)))
  ]

  -- However a stream is cut into chunks, the items are those of the whole.
  pub push_all-flatten :
      (pending : Bytes) (chunks : List Bytes)
      → next pending ≡ none
      → push_all next pending chunks ≡ run next (pending ++ flatten chunks)
  unfolding push_all flatten
  push_all-flatten pending [] idle =
      sym (ap (run next) (append-nil pending) ∙ run_stop pending idle)
  push_all-flatten pending (chunk ∷ chunks) idle =
      rw
        (push_all-flatten (run next (pending ++ chunk)).1 chunks
          (run_idle (length (pending ++ chunk)) (pending ++ chunk) (omega arith)))
        (sym (
            run-append (length (pending ++ chunk)) (pending ++ chunk) (flatten chunks)
              (omega arith))
          ∙ ap (run next) (append_assoc pending chunk (flatten chunks)))

  -- Items that stand one behind the other are read in order, and nothing is left.
  pub run-items :
      {B : Type 0} (P : B → Type 0) (encode : B → Bytes) (item : B → List A)
      → ((b : B) (rest : Bytes) → P b → next (encode b ++ rest) ≡ some (item b, rest))
      → next [] ≡ none
      → (bs : List B) → All P bs
      → run next (flatten (map encode bs)) ≡ (flatten (map item bs), [])
  unfolding flatten
  run-items P encode item reads empty [] h = run_stop [] empty
  run-items P encode item reads empty (b ∷ bs) (h, hs) =
      run_item (encode b ++ flatten (map encode bs)) (item b) (flatten (map encode bs))
        (reads b (flatten (map encode bs)) h)
      ∙ rw (run-items P encode item reads empty bs hs) refl
