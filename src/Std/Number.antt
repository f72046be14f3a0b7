-- ===== src/Std/Number.antt =====
-- Numbers in text: `str::parse::<u8>`, and decimal and hexadecimal digits.
use neon_core_atlas.Prelude.{
  ℕ, ◌+◌, ◌-◌, ◌*◌, ◌/◌, ◌%◌, ◌&&◌, Option, none, some, [], ◌∷◌, ltb, leb, ◌==◌, if◌then◌else◌, max,
}
use neon_core_atlas.Std.Text.{Text}

-- `char::to_digit(radix)`, for a radix up to 16
unfoldable pub to_digit : ℕ → ℕ → Option ℕ
to_digit radix c =
    let d : ℕ =
      if leb b'0' c && leb c b'9'
      then c - b'0'
      else if leb b'a' c && leb c b'f'
      then c - b'a' + 10
      else if leb b'A' c && leb c b'F'
      then c - b'A' + 10
      else 16 in
    if ltb d radix then some d else none

-- The digits of a number that must not pass `max` on the way.
unfoldable pub parse_digits : ℕ → ℕ → Text → Option ℕ
unfolding to_digit
parse_digits max acc [] = some acc
parse_digits max acc (c ∷ cs) = elim (to_digit 10 c) [
  | none ↦ none
  | some d ↦ if leb (acc * 10 + d) max then parse_digits max (acc * 10 + d) cs else none
]

-- `str::parse` at an unsigned type: one `+` may stand in front, and at least one digit must follow.
unfoldable pub parse_unsigned : ℕ → Text → Option ℕ
unfolding parse_digits
parse_unsigned max [] = none
parse_unsigned max (c ∷ []) = parse_digits max 0 (c ∷ [])
parse_unsigned max (c ∷ d ∷ cs) =
    if c == b'+' then parse_digits max 0 (d ∷ cs) else parse_digits max 0 (c ∷ d ∷ cs)

abbrev pub parse_u8 : Text → Option ℕ
parse_u8 = parse_unsigned 255

abbrev pub digit_char : ℕ → ℕ
digit_char d = if ltb d 10 then b'0' + d else b'a' + (d - 10)

-- `{}` of a u8
unfoldable pub show_u8 : ℕ → Text
show_u8 n =
    if ltb n 10
    then digit_char n ∷ []
    else if ltb n 100
    then digit_char (n / 10) ∷ digit_char (n % 10) ∷ []
    else digit_char (n / 100) ∷ digit_char (n / 10 % 10) ∷ digit_char (n % 10) ∷ []

-- `{:x}` of a u16
unfoldable pub show_hex : ℕ → Text
show_hex n =
    if ltb n 16
    then digit_char n ∷ []
    else if ltb n 256
    then digit_char (n / 16) ∷ digit_char (n % 16) ∷ []
    else if ltb n 4096
    then digit_char (n / 256) ∷ digit_char (n / 16 % 16) ∷ digit_char (n % 16) ∷ []
    else digit_char (n / 4096)
      ∷ digit_char (n / 256 % 16)
      ∷ digit_char (n / 16 % 16)
      ∷ digit_char (n % 16)
      ∷ []

-- `{}` of a u16
unfoldable pub show_u16 : ℕ → Text
unfolding show_u8
show_u16 n =
    if ltb n 256
    then show_u8 n
    else if ltb n 1000
    then digit_char (n / 100) ∷ digit_char (n / 10 % 10) ∷ digit_char (n % 10) ∷ []
    else if ltb n 10000
    then digit_char (n / 1000)
      ∷ digit_char (n / 100 % 10)
      ∷ digit_char (n / 10 % 10)
      ∷ digit_char (n % 10)
      ∷ []
    else digit_char (n / 10000)
      ∷ digit_char (n / 1000 % 10)
      ∷ digit_char (n / 100 % 10)
      ∷ digit_char (n / 10 % 10)
      ∷ digit_char (n % 10)
      ∷ []
