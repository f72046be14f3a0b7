-- ===== src/Tests/Std.antt =====
-- Addresses in text, read and written.
use neon_core_atlas.Prelude.{◌≡◌, refl, some, none, []}
use neon_core_atlas.Prelude.{List, ◌∷◌, ℕ, replicate, ◌++◌}
use neon_core_atlas.Std.Text.{ascii, split_once}
use neon_core_atlas.Std.Text.{is_utf8, is_utf8_from, lead}
use neon_core_atlas.Std.Bytes.{bytes_eq}
use neon_core_atlas.Std.Net.{v4, v6, parse_ip}
use neon_core_atlas.Std.Net.Show.{show_ipv4, show_ipv6}
use mathlib.Core.Bool.{true, false}

abbrev loopback : List ℕ
loopback = replicate 15 0 ++ 1 ∷ []

parse_ip_v4 : parse_ip (ascii "10.0.200.3") ≡ some (v4 (10 ∷ 0 ∷ 200 ∷ 3 ∷ []))
unfolding parse_ip
parse_ip_v4 = refl

parse_ip_leading_zero : parse_ip (ascii "10.0.01.3") ≡ none
unfolding parse_ip
parse_ip_leading_zero = refl

parse_ip-loopback : parse_ip (ascii "::1") ≡ some (v6 loopback)
unfolding parse_ip
parse_ip-loopback = refl

parse_ip_mapped :
    parse_ip (ascii "::ffff:1.2.3.4")
    ≡ some (v6 (replicate 10 0 ++ 0xff ∷ 0xff ∷ 1 ∷ 2 ∷ 3 ∷ 4 ∷ []))
unfolding parse_ip
parse_ip_mapped = refl

show_loopback : show_ipv6 loopback ≡ ascii "::1"
unfolding show_ipv6 bytes_eq
show_loopback = refl

show_ipv4_example : show_ipv4 (10 ∷ 0 ∷ 200 ∷ 3 ∷ []) ≡ ascii "10.0.200.3"
unfolding show_ipv4
show_ipv4_example = refl

split_once_slash : split_once b'/' (ascii "10.0.0.0/8") ≡ some (ascii "10.0.0.0", ascii "8")
unfolding split_once
split_once_slash = refl

utf8_euro : is_utf8 (0xe2 ∷ 0x82 ∷ 0xac ∷ []) ≡ true
unfolding is_utf8_from lead
utf8_euro = refl

utf8_surrogate : is_utf8 (0xed ∷ 0xa0 ∷ 0x80 ∷ []) ≡ false
unfolding is_utf8_from lead
utf8_surrogate = refl
