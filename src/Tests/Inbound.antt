-- ===== src/Tests/Inbound.antt =====
-- The theorem on the head of an HTTP request, at a concrete input.
use neon_core_atlas.Kernel.Inbound.{read_http_head, head_end}
use neon_core_atlas.Kernel.Inbound.Head.{read_http_head-split}
use neon_core_atlas.Prelude.{length, ok, ◌≤◌, ◌≡◌, refl, true, [], ◌++◌}
use neon_core_atlas.Std.Bytes.{bytes_eq, Bytes}
use neon_core_atlas.Std.Text.{ends_with, ascii}

abbrev request : Bytes
request = ascii "G" ++ (head_end ++ ascii "x")

read_request : read_http_head [] request ≡ ok (ascii "G" ++ head_end, ascii "x")
unfolding read_http_head ends_with bytes_eq
read_request = refl

read_http_head-split_example :
    ((ascii "G" ++ head_end) ++ ascii "x" ≡ [] ++ request)
    × (ends_with (ascii "G" ++ head_end) head_end ≡ true)
    × (length (ascii "G" ++ head_end) ≤ 65536)
read_http_head-split_example =
    read_http_head-split [] request (ascii "G" ++ head_end) (ascii "x") read_request
