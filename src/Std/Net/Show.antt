-- ===== src/Std/Net/Show.antt =====
-- `Display` of addresses.
use neon_core_atlas.Prelude.{ℕ, ◌+◌, List, [], ◌∷◌, ◌++◌, ltb, ◌==◌, if◌then◌else◌, take, drop}
use neon_core_atlas.Std.Bytes.{Bytes, u16_be, bytes_eq}
use neon_core_atlas.Std.Text.{Text, ascii}
use neon_core_atlas.Std.Number.{show_u8, show_hex}

-- `Ipv4Addr::to_string`
unfoldable pub show_ipv4 : Bytes → Text
unfolding show_u8
show_ipv4 [] = []
show_ipv4 (b ∷ []) = show_u8 b
show_ipv4 (b ∷ c ∷ bs) = show_u8 b ++ (b'.' ∷ show_ipv4 (c ∷ bs))

show_groups : List ℕ → Text
unfolding show_hex
show_groups [] = []
show_groups (g ∷ []) = show_hex g
show_groups (g ∷ h ∷ gs) = show_hex g ++ (b':' ∷ show_groups (h ∷ gs))

pub record Span : Type 0 where
  pub start : ℕ
  pub len : ℕ

-- The first of the longest runs of zero groups: `i` is the next position.
longest_zeros : ℕ → Span → Span → List ℕ → Span
longest_zeros i longest current [] = longest
longest_zeros i longest current (g ∷ gs) =
    let start : ℕ = if current.len == 0 then i else current.start in
    let grown : Span =
      if g == 0
      then record { start = start; len = current.len + 1 }
      else record { start = 0; len = 0 } in
    longest_zeros (i + 1) (if ltb longest.len grown.len then grown else longest) grown gs

groups_of : Bytes → List ℕ
groups_of (a ∷ b ∷ rest) = u16_be a b ∷ groups_of rest
groups_of rest = []

show_segments : List ℕ → Text
unfolding show_groups longest_zeros
show_segments gs =
    let none_yet : Span = record { start = 0; len = 0 } in
    let z = longest_zeros 0 none_yet none_yet gs in
    if ltb 1 z.len
    then show_groups (take z.start gs) ++ (ascii "::" ++ show_groups (drop (z.start + z.len) gs))
    else show_groups gs

-- `Ipv6Addr::to_string`: an IPv4-mapped address keeps its dotted form.
unfoldable pub show_ipv6 : Bytes → Text
unfolding show_segments groups_of show_ipv4
show_ipv6 a =
    if bytes_eq (take 12 a) (0 ∷ 0 ∷ 0 ∷ 0 ∷ 0 ∷ 0 ∷ 0 ∷ 0 ∷ 0 ∷ 0 ∷ 0xff ∷ 0xff ∷ [])
    then ascii "::ffff:" ++ show_ipv4 (drop 12 a)
    else show_segments (groups_of a)
