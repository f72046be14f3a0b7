-- ===== src/Kernel/Vless/RecordLimit/Records.antt =====
-- Where a limited connection stands in the TLS records, and what the bytes of a header and of a body
-- change about it (crates/neoncore-kernel/src/adapter/vless.rs).

use neon_core_atlas.Kernel.Vless.RecordLimit.{RecordLimitedTcp, next_record, read_body, read_header}
use neon_core_atlas.Prelude.{
  length, get_or, All, All-append, ◌+◌, ◌≤◌, ◌<◌, ◌≡◌, refl, sym, ap, ◌∙◌, true, false, Option,
  none, some, List, [], ◌∷◌, ◌++◌, arith, ℕ, append_assoc, ◌==◌, Bool-cases, length-append, ◌-◌,
  subst, inl, inr, append-nil,
}
use neon_core_atlas.Std.Bytes.{Bytes, u16_be}
use neon_core_atlas.Stream.{flatten, flatten-append, flatten_one}

abbrev pub body_len : Bytes → ℕ
body_len header = u16_be (get_or header 3 0) (get_or header 4 0)

-- Five bytes of header, and the body of the length that stands in them.
abbrev pub IsRecord : Bytes → Type 0
IsRecord bytes =
    (header : Bytes) × (body : Bytes) × (bytes ≡ header ++ body)
    × (length header ≡ 5)
    × (length body ≡ body_len header)

-- The part of a record that was read: some of the header, or the header and some of the body.
abbrev pub Part : Option ℕ → Bytes → Bytes → Type 0
Part none header part = (part ≡ header) × (length header < 5)
Part (some remaining) header part =
    (body : Bytes) × (part ≡ header ++ body)
    × (length header ≡ 5)
    × (0 < remaining)
    × (length body + remaining ≡ body_len header)

-- What was read are whole records and the part that the state is in, which is none before a pause.
pub record IsAt (s : RecordLimitedTcp) (seen : Bytes) : Type 0 where
  pub records : List Bytes
  pub part : Bytes
  pub whole : All IsRecord records
  pub joined : seen ≡ flatten records ++ part
  pub here : Part s.remaining_body s.header part
  pub pause : s.pending_yield ≡ true → part ≡ []

-- The record that is read becomes whole.
completes :
    (s : RecordLimitedTcp) (seen chunk : Bytes) (a : IsAt s seen)
    → IsRecord (a.part ++ chunk)
    → IsAt next_record (seen ++ chunk)
completes s seen chunk a r = record {
  records = a.records ++ ((a.part ++ chunk) ∷ []);
  part = [];
  whole = All-append IsRecord a.records _ a.whole (r, tt);
  joined =
      ap (λ (b : Bytes). b ++ chunk) a.joined
      ∙ append_assoc (flatten a.records) a.part chunk
      ∙ sym (
          append-nil (flatten (a.records ++ ((a.part ++ chunk) ∷ [])))
          ∙ flatten-append a.records ((a.part ++ chunk) ∷ [])
          ∙ ap (◌++◌ (flatten a.records)) (flatten_one (a.part ++ chunk)));
  here = (refl, omega arith);
  pause = λ e. refl;
}

-- The record goes on.
goes_on :
    (s t : RecordLimitedTcp) (seen chunk : Bytes) (a : IsAt s seen)
    → t.pending_yield ≡ false
    → Part t.remaining_body t.header (a.part ++ chunk)
    → IsAt t (seen ++ chunk)
goes_on s t seen chunk a y p = record {
  records = a.records;
  part = a.part ++ chunk;
  whole = a.whole;
  joined = ap (λ (b : Bytes). b ++ chunk) a.joined ∙ append_assoc (flatten a.records) a.part chunk;
  here = p;
  pause = λ e. cc;
}

pub read_header-IsAt :
    (s : RecordLimitedTcp) (seen chunk : Bytes) (a : IsAt s seen)
    → s.remaining_body ≡ none
    → length (s.header ++ chunk) ≤ 5
    → IsAt (read_header (s.header ++ chunk)) (seen ++ chunk)
unfolding read_header
read_header-IsAt s seen chunk a e h = elim (Bool-cases (length (s.header ++ chunk) == 5)) [
  | inl f ↦ elim (Bool-cases (body_len (s.header ++ chunk) == 0)) [
    | inl g ↦
        rw (f, g)
          (completes s seen chunk a (
            s.header ++ chunk,
            [],
            part ∙ sym (append-nil _),
            ground (arith, f),
            ground (arith, g),
          ))
    | inr g ↦
        rw (f, g)
          (goes_on s _ seen chunk a refl
            ([], part ∙ sym (append-nil _), ground (arith, f), ground (arith, g), omega arith))
  ]
  | inr f ↦ rw f (goes_on s _ seen chunk a refl (part, ground (arith, f, h)))
]
  where
    part : a.part ++ chunk ≡ s.header ++ chunk
    part =
        ap (λ (b : Bytes). b ++ chunk) (subst (λ (o : Option ℕ). Part o s.header a.part) e a.here).0

pub read_body-IsAt :
    (s : RecordLimitedTcp) (seen chunk : Bytes) (a : IsAt s seen) (remaining : ℕ)
    → s.remaining_body ≡ some remaining
    → length chunk ≤ remaining
    → IsAt (read_body s.header remaining (length chunk)) (seen ++ chunk)
unfolding read_body
read_body-IsAt s seen chunk a remaining e h =
    let (body, p, five, more, sum) = subst (λ (o : Option ℕ). Part o s.header a.part) e a.here in
    elim (Bool-cases (remaining - length chunk == 0)) [
      | inl f ↦ rw f (
          completes s seen chunk a (
            s.header,
            body ++ chunk,
            longer body p,
            five,
            ground (arith, f, sum, length-append body chunk),
          ))
      | inr f ↦ rw f (
          goes_on s _ seen chunk a refl (
            body ++ chunk,
            longer body p,
            five,
            ground (arith, f),
            omega (arith, sum, length-append body chunk),
          ))
    ]
  where
    longer :
        (body : Bytes) → a.part ≡ s.header ++ body → a.part ++ chunk ≡ s.header ++ (body ++ chunk)
    longer body p = ap (λ (b : Bytes). b ++ chunk) p ∙ append_assoc s.header body chunk
