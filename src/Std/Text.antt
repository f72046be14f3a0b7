-- ===== src/Std/Text.antt =====
-- `str`: text as its UTF-8 bytes.
use Prim.Native.Char.{code}
use Prim.Native.String.{String}
use neon_core_atlas.Prelude.{
  ℕ, zero, suc, ◌+◌, Bool, true, false, ◌&&◌, ◌||◌, Option, none, some, [], ◌∷◌, map, ◌==◌, leb,
  if◌then◌else◌,
}
use neon_core_atlas.Std.Bytes.{Bytes, bytes_eq}

abbrev pub Text : Type 0
Text = Bytes

-- The bytes of an ASCII literal.
abbrev pub ascii : String → Text
ascii String.[] = []
ascii (String.◌∷◌ c s) = code c ∷ ascii s

-- `u8::to_ascii_lowercase` and `str::to_ascii_lowercase`
unfoldable pub lower_byte : ℕ → ℕ
lower_byte b = if leb b'A' b && leb b b'Z' then b + 32 else b

abbrev pub to_ascii_lowercase : Text → Text
to_ascii_lowercase = map lower_byte

abbrev pub eq_ignore_ascii_case : Text → Text → Bool
eq_ignore_ascii_case s t = bytes_eq (to_ascii_lowercase s) (to_ascii_lowercase t)

-- `str::starts_with`
unfoldable pub starts_with : Text → Text → Bool
starts_with s [] = true
starts_with [] (p ∷ ps) = false
starts_with (c ∷ s) (p ∷ ps) = c == p && starts_with s ps

-- `str::contains`
unfoldable pub contains : Text → Text → Bool
contains [] p = starts_with [] p
contains (c ∷ s) p = starts_with (c ∷ s) p || contains s p

-- `str::ends_with`
unfoldable pub ends_with : Text → Text → Bool
ends_with [] p = bytes_eq [] p
ends_with (c ∷ s) p = bytes_eq (c ∷ s) p || ends_with s p

-- `str::split_once` at one ASCII character
unfoldable pub split_once : ℕ → Text → Option (Text × Text)
split_once c [] = none
split_once c (x ∷ xs) =
    let rest : Option (Text × Text) = elim (split_once c xs) [
      | none ↦ none
      | some (a, b) ↦ some (x ∷ a, b)
    ] in
    if x == c then some ([], xs) else rest

-- The continuation bytes that a leading byte of UTF-8 asks for, and the range of the first of them
-- (no overlong forms, no surrogates, nothing above U+10FFFF).
pub record Lead : Type 0 where
  pub more : ℕ
  pub low : ℕ
  pub high : ℕ

unfoldable pub lead : ℕ → Option Lead
lead b =
    if leb b 0x7f
    then some (record { more = 0; low = 0; high = 0 })
    else if leb b 0xc1
    then none
    else if leb b 0xdf
    then some (record { more = 1; low = 0x80; high = 0xbf })
    else if b == 0xe0
    then some (record { more = 2; low = 0xa0; high = 0xbf })
    else if b == 0xed
    then some (record { more = 2; low = 0x80; high = 0x9f })
    else if leb b 0xef
    then some (record { more = 2; low = 0x80; high = 0xbf })
    else if b == 0xf0
    then some (record { more = 3; low = 0x90; high = 0xbf })
    else if leb b 0xf3
    then some (record { more = 3; low = 0x80; high = 0xbf })
    else if b == 0xf4
    then some (record { more = 3; low = 0x80; high = 0x8f })
    else none

-- `String::from_utf8(bytes).is_ok()`: `more` continuation bytes are due, the next in `low..=high`.
unfoldable pub is_utf8_from : ℕ → ℕ → ℕ → Bytes → Bool
unfolding lead
is_utf8_from zero low high [] = true
is_utf8_from (suc more) low high [] = false
is_utf8_from zero low high (b ∷ bs) = elim (lead b) [
  | none ↦ false
  | some l ↦ is_utf8_from l.more l.low l.high bs
]
is_utf8_from (suc more) low high (b ∷ bs) =
    leb low b && leb b high && is_utf8_from more 0x80 0xbf bs

abbrev pub is_utf8 : Bytes → Bool
is_utf8 = is_utf8_from 0 0 0

-- `String::from_utf8`
abbrev pub from_utf8 : Bytes → Option Text
from_utf8 bs = if is_utf8 bs then some bs else none
