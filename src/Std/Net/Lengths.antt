-- ===== src/Std/Net/Lengths.antt =====
-- The readers of addresses return four and sixteen octets.

use neon_core_atlas.Prelude.{
  length, zero, suc, ◌*◌, ◌≤◌, ◌≡◌, refl, ap, false, Option, none, some, List, [], ◌∷◌, arith, ℕ,
  ltb, if◌then◌else◌, replicate, ◌+◌, ◌-◌, Bool, true, ◌++◌, ltb→lt, Bool-cases, length-append,
  length-replicate, inl, inr, ◌==◌, ==_iff,
}
use neon_core_atlas.Std.Bytes.{Bytes}
use neon_core_atlas.Std.Net.{
  separated, read_parts, groups_of, octets_of, read_groups, read_number, read_ipv4, read_char,
  read_tail, is_empty, read_ipv6, parse_ipv4, parse_ipv6,
}
use neon_core_atlas.Std.Text.{Text}

-- What is read, if anything is, has this length.
abbrev pub Reads : ℕ → Option (Bytes × Text) → Type 0
Reads n none = Unit {0}
Reads n (some r) = length r.0 ≡ n

after_part :
    (n b : ℕ) (o : Option (Bytes × Text))
    → Reads n o
    → Reads (suc n) (elim o [ none ↦ none | some r ↦ some (b ∷ r.0, r.1) ])
after_part n b none h = tt
after_part n b (some r) h = ap suc h

read_parts-Reads : (n i : ℕ) (s : Text) → Reads n (read_parts n i s)
unfolding read_parts
read_parts-Reads zero i s = refl
read_parts-Reads (suc n) i s =
    elim (separated b'.' i (read_number 10 255 3 false) s)
      as (λ o. Reads (suc n) (elim o [
        | none ↦ none
        | some p ↦ elim (read_parts n (suc i) p.1) [ none ↦ none | some r ↦ some (p.0 ∷ r.0, r.1) ]
      ])) [
        | none ↦ tt
        | some p ↦ after_part n p.0 (read_parts n (suc i) p.1) (read_parts-Reads n (suc i) p.1)
      ]

length-groups_of : (bs : Bytes) → length bs ≡ 4 → length (groups_of bs) ≡ 2
unfolding groups_of
length-groups_of (a ∷ b ∷ c ∷ d ∷ []) h = refl
length-groups_of [] h = absurd (omega arith)
length-groups_of (a ∷ []) h = absurd (omega arith)
length-groups_of (a ∷ b ∷ []) h = absurd (omega arith)
length-groups_of (a ∷ b ∷ c ∷ []) h = absurd (omega arith)
length-groups_of (a ∷ b ∷ c ∷ d ∷ e ∷ f) h = absurd (omega arith)

length-octets_of : (gs : List ℕ) → length (octets_of gs) ≡ length gs * 2
unfolding octets_of
length-octets_of [] = refl
length-octets_of (g ∷ gs) = omega (arith, length-octets_of gs)

separated-Reads : (i : ℕ) (s : Text) → Reads 4 (separated b':' i read_ipv4 s)
unfolding separated read_ipv4
separated-Reads zero s = read_parts-Reads 4 0 s
separated-Reads (suc i) s =
    elim (read_char b':' s)
      as (λ o. Reads 4 (elim o [ none ↦ none | some rest ↦ read_ipv4 rest ])) [
        | none ↦ tt
        | some rest ↦ read_parts-Reads 4 0 rest
      ]

-- A dotted address needs two slots, and fills them.
chosen :
    (n : ℕ) (b : Bool) (o : Option (Bytes × Text)) (hex : List ℕ × Bool × Text)
    → Reads 4 o
    → (b ≡ true → 1 ≤ n)
    → length hex.0 ≤ suc n
    → length
        (elim (if b then o else none) as (λ x. List ℕ × Bool × Text) [
          | none ↦ hex
          | some r ↦ (groups_of r.0, true, r.1)
        ]).0
      ≤ suc n
chosen n false o hex d h k = k
chosen n true none hex d h k = k
chosen n true (some r) hex d h k = omega (arith, length-groups_of r.0 d, h refl)

module _ (n i : ℕ) (s : Text) (rest : (t : Text) → length (read_groups n (suc i) t).0 ≤ n) where
  hex_length :
      (o : Option (ℕ × Text))
      → length
          (elim o as (λ x. List ℕ × Bool × Text) [
            | none ↦ ([], false, s)
            | some r ↦ (
              r.0 ∷ (read_groups n (suc i) r.1).0,
              (read_groups n (suc i) r.1).1,
              (read_groups n (suc i) r.1).2,
            )
          ]).0
        ≤ suc n
  hex_length none = omega arith
  hex_length (some r) = omega (arith, rest r.1)

read_groups-length : (n i : ℕ) (s : Text) → length (read_groups n i s).0 ≤ n
unfolding read_groups
read_groups-length zero i s = omega arith
read_groups-length (suc n) i s =
    chosen n (ltb 0 n) (separated b':' i read_ipv4 s) _ (separated-Reads i s) (λ h. ltb→lt 0 n h)
      (hex_length n i s (read_groups-length n (suc i))
        (separated b':' i (read_number 16 65535 4 true) s))

octets-length :
    (front back : List ℕ)
    → length front ≤ 8
    → length back ≤ 8 - (length front + 1)
    → length (octets_of (front ++ replicate (8 - length front - length back) 0 ++ back)) ≡ 16
octets-length front back h k = omega (
  arith,
  length-octets_of (front ++ zeros ++ back),
  length-append (front ++ zeros) back,
  length-append front zeros,
  length-replicate {A = ℕ} (8 - length front - length back) 0,
)
  where
    zeros : List ℕ
    zeros = replicate (8 - length front - length back) 0

Reads-if :
    (n : ℕ) (b : Bool) (t e : Option (Bytes × Text))
    → (b ≡ true → Reads n t)
    → Reads n e
    → Reads n (if b then t else e)
Reads-if n true t e h k = h refl
Reads-if n false t e h k = k

read_tail-Reads : (front : List ℕ) (s : Text) → length front ≤ 8 → Reads 16 (read_tail front s)
unfolding read_tail
read_tail-Reads front s h = first (read_char b':' s)
  where
    behind : Text → Option (Bytes × Text)
    behind t =
        let (back, dotted, end) = read_groups (8 - (length front + 1)) 0 t in
        some (octets_of (front ++ replicate (8 - length front - length back) 0 ++ back), end)

    second : (o : Option Text) → Reads 16 (elim o [ none ↦ none | some t ↦ behind t ])
    second none = tt
    second (some t) =
        octets-length front (read_groups (8 - (length front + 1)) 0 t).0 h
          (read_groups-length _ 0 t)

    first :
        (o : Option Text)
        → Reads 16 (elim o [
          | none ↦ none
          | some t ↦ elim (read_char b':' t) [ none ↦ none | some u ↦ behind u ]
        ])
    first none = tt
    first (some t) = second (read_char b':' t)

read_ipv6-Reads : (s : Text) → Reads 16 (read_ipv6 s)
unfolding read_ipv6
read_ipv6-Reads s =
    let (front, dotted, rest) = read_groups 8 0 s in
    Reads-if 16 (length front == 8) (some (octets_of front, rest)) _
      (λ h. omega (arith, length-octets_of front, (==_iff (length front) 8).0 h))
      (Reads-if 16 dotted none _ (λ h. tt) (read_tail-Reads front rest (read_groups-length 8 0 s)))

parse_with-Reads :
    (n : ℕ) (o : Option (Bytes × Text)) (a : Bytes)
    → Reads n o
    → (elim o as (λ _. Option Bytes) [
      | none ↦ none
      | some r ↦ if is_empty r.1 then some r.0 else none
    ])
      ≡ some a
    → length a ≡ n
parse_with-Reads n none a h e = cc
parse_with-Reads n (some r) a h e = ground arith

pub parse_ipv4-length : (s : Text) (a : Bytes) → parse_ipv4 s ≡ some a → length a ≡ 4
unfolding parse_ipv4
parse_ipv4-length s a e = elim (Bool-cases (ltb 15 (length s))) [
  | inl h ↦ absurd (cc)
  | inr h ↦ parse_with-Reads 4 (read_ipv4 s) a (read_parts-Reads 4 0 s) (rw h at e)
]

pub parse_ipv6-length : (s : Text) (a : Bytes) → parse_ipv6 s ≡ some a → length a ≡ 16
unfolding parse_ipv6
parse_ipv6-length s a e = parse_with-Reads 16 (read_ipv6 s) a (read_ipv6-Reads s) e
