-- ===== src/Std/Net.antt =====
-- `std::net`: addresses, and their text as `FromStr` reads it; `Show` writes it.
pub mod Show
pub mod Lengths
use neon_core_atlas.Prelude.{
  ℕ, zero, suc, ◌+◌, ◌-◌, ◌*◌, ◌/◌, ◌%◌, ◌≡◌, ◌↔◌, Bool, true, false, not, ◌&&◌, Option, none, some,
  List, [], ◌∷◌, ◌++◌, arith, ltb, leb, ◌==◌, if◌then◌else◌, length, replicate, max,
}
use neon_core_atlas.Std.Bytes.{Bytes, u16_be, bytes_eq, bytes_eq_iff}
use neon_core_atlas.Std.Number.{to_digit}
use neon_core_atlas.Std.Text.{Text}

abbrev is_some : {A : Type 0} → Option A → Bool
is_some none = false
is_some (some a) = true

abbrev pub is_empty : Text → Bool
is_empty [] = true
is_empty (c ∷ s) = false

-- An address by its octets, four or sixteen.
pub data IpAddr : Type 0 where
  v4 : Bytes → IpAddr
  v6 : Bytes → IpAddr

-- `==` of `IpAddr`
unfoldable pub ip_eq : IpAddr → IpAddr → Bool
ip_eq (v4 a) (v4 b) = bytes_eq a b
ip_eq (v4 a) (v6 b) = false
ip_eq (v6 a) (v4 b) = false
ip_eq (v6 a) (v6 b) = bytes_eq a b

pub ip_eq_iff : (a b : IpAddr) → (ip_eq a b ≡ true) ↔ (a ≡ b)
unfolding ip_eq
ip_eq_iff (v4 a) (v4 b) = ground (arith, bytes_eq_iff a b)
ip_eq_iff (v4 a) (v6 b) = ground arith
ip_eq_iff (v6 a) (v4 b) = ground arith
ip_eq_iff (v6 a) (v6 b) = ground (arith, bytes_eq_iff a b)

abbrev pub is_ipv4 : IpAddr → Bool
is_ipv4 (v4 a) = true
is_ipv4 (v6 a) = false

abbrev pub is_ipv6 : IpAddr → Bool
is_ipv6 (v4 a) = false
is_ipv6 (v6 a) = true

-- `u32::from(ip)` and `u128::from(ip)`: the octets as a big-endian number.
unfoldable pub be_number : ℕ → Bytes → ℕ
be_number acc [] = acc
be_number acc (b ∷ bs) = be_number (acc * 256 + b) bs

abbrev pub ip_bits : Bytes → ℕ
ip_bits = be_number 0

-- Readers return what they read with the text that follows, or fail without consuming.
abbrev pub Reader : Type 0 → Type 0
Reader A = Text → Option (A × Text)

-- The digits of `read_number`: `left` more may come, and `seen` says whether one was read.
read_digits : ℕ → ℕ → ℕ → ℕ → Bool → Text → Option (ℕ × Text)
unfolding to_digit
read_digits radix max left acc seen [] = if seen then some (acc, []) else none
read_digits radix max left acc seen (c ∷ cs) = elim (to_digit radix c) [
  | none ↦ if seen then some (acc, c ∷ cs) else none
  | some d ↦ elim left [
    | zero ↦ none
    | suc k ↦
        if leb (acc * radix + d) max
        then read_digits radix max k (acc * radix + d) true cs
        else none
  ]
]

-- `read_number`: digits of a radix, at most so many, with or without a leading zero.
pub read_number : ℕ → ℕ → ℕ → Bool → Reader ℕ
unfolding read_digits to_digit
read_number radix max digits zeros (c ∷ d ∷ cs) =
    if not zeros && c == b'0' && is_some (to_digit radix d)
    then none
    else read_digits radix max digits 0 false (c ∷ d ∷ cs)
read_number radix max digits zeros cs = read_digits radix max digits 0 false cs

-- `read_given_char`
pub read_char : ℕ → Text → Option Text
read_char c [] = none
read_char c (x ∷ xs) = if x == c then some xs else none

-- `read_separator` at a position: the separator stands in front of all but the first.
pub separated : {A : Type 0} → ℕ → ℕ → Reader A → Reader A
separated c zero inner s = inner s
separated c (suc i) inner s = elim (read_char c s) [ none ↦ none | some rest ↦ inner rest ]

-- The last `n` of the four parts of a dotted address, of which part `i` is next.
unfoldable pub read_parts : ℕ → ℕ → Reader Bytes
read_parts zero i s = some ([], s)
read_parts (suc n) i s = elim (separated b'.' i (read_number 10 255 3 false) s) [
  | none ↦ none
  | some (b, rest) ↦ elim (read_parts n (suc i) rest) [
    | none ↦ none
    | some (bs, end) ↦ some (b ∷ bs, end)
  ]
]

unfoldable pub read_ipv4 : Reader Bytes
unfolding read_parts separated read_char read_number
read_ipv4 = read_parts 4 0

-- Two octets to a group.
unfoldable pub groups_of : Bytes → List ℕ
groups_of (a ∷ b ∷ rest) = u16_be a b ∷ groups_of rest
groups_of rest = []

unfoldable pub octets_of : List ℕ → Bytes
octets_of [] = []
octets_of (g ∷ gs) = g / 256 ∷ g % 256 ∷ octets_of gs

-- `read_groups`: groups of hexadecimal digits for `n` slots, of which slot `i` is next. With two slots
-- left a dotted address may end the groups, and the flag says that it did.
unfoldable pub read_groups : ℕ → ℕ → Text → List ℕ × Bool × Text
read_groups zero i s = ([], false, s)
read_groups (suc n) i s =
    let dotted : Option (Bytes × Text) = if ltb 0 n then separated b':' i read_ipv4 s else none in
    let hex : List ℕ × Bool × Text = elim (separated b':' i (read_number 16 65535 4 true) s) [
      | none ↦ ([], false, s)
      | some (g, rest) ↦ (
        g ∷ (read_groups n (suc i) rest).0,
        (read_groups n (suc i) rest).1,
        (read_groups n (suc i) rest).2,
      )
    ] in
    elim dotted [ some (bs, rest) ↦ (groups_of bs, true, rest) | none ↦ hex ]

-- The groups behind `::`, and the zeros that it stands for.
unfoldable pub read_tail : List ℕ → Reader Bytes
unfolding read_groups
read_tail front s = elim (read_char b':' s) [
  | none ↦ none
  | some s' ↦ elim (read_char b':' s') [
    | none ↦ none
    | some s'' ↦
        let (back, dotted, end) = read_groups (8 - (length front + 1)) 0 s'' in
        some (octets_of (front ++ replicate (8 - length front - length back) 0 ++ back), end)
  ]
]

unfoldable pub read_ipv6 : Reader Bytes
unfolding read_groups read_tail octets_of groups_of read_ipv4
read_ipv6 s =
    let (front, dotted, rest) = read_groups 8 0 s in
    if length front == 8
    then some (octets_of front, rest)
    else if dotted
    then none
    else read_tail front rest

-- The whole text must be read.
abbrev pub parse_with : {A : Type 0} → Reader A → Text → Option A
parse_with read s = elim (read s) [
  | none ↦ none
  | some (a, rest) ↦ if is_empty rest then some a else none
]

-- `parse::<Ipv4Addr>`, `parse::<Ipv6Addr>` and `parse::<IpAddr>`
unfoldable pub parse_ipv4 : Text → Option Bytes
unfolding read_ipv4
parse_ipv4 s = if ltb 15 (length s) then none else parse_with read_ipv4 s

unfoldable pub parse_ipv6 : Text → Option Bytes
unfolding read_ipv6
parse_ipv6 s = parse_with read_ipv6 s

unfoldable pub parse_ip : Text → Option IpAddr
unfolding read_ipv4 read_ipv6
parse_ip s = elim (read_ipv4 s) [
  | some (a, rest) ↦ if is_empty rest then some (v4 a) else none
  | none ↦ elim (parse_with read_ipv6 s) [ none ↦ none | some a ↦ some (v6 a) ]
]
