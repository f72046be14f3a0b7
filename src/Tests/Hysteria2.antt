-- ===== src/Tests/Hysteria2.antt =====
-- The theorems on the wire formats of Hysteria2, at concrete inputs.

use neon_core_atlas.Kernel.Hysteria2.{
  Hy2UdpMessage, read_quic_varint, parse_udp_message, salamander_deobfuscate, write_quic_varint,
  build_udp_message, salamander_obfuscate,
}
use neon_core_atlas.Kernel.Hysteria2.Messages.{parse_udp_message-build}
use neon_core_atlas.Kernel.Hysteria2.Salamander.{salamander_deobfuscate-obfuscate}
use neon_core_atlas.Kernel.Hysteria2.Varint.{read_quic_varint-write}
use neon_core_atlas.Prelude.{length, replicate, ok, ◌+◌, ◌%◌, ◌≡◌, refl, true, [], ◌∷◌, ◌++◌, arith}
use neon_core_atlas.Std.Bytes.{Bytes}
use neon_core_atlas.Std.Text.{ascii, is_utf8_from, lead, is_utf8}

read_quic_varint-write_example :
    read_quic_varint ((9 ∷ []) ++ (write_quic_varint 16384 ++ (7 ∷ []))) 1
    ≡ ok (16384, 1 + length (write_quic_varint 16384))
read_quic_varint-write_example = read_quic_varint-write (9 ∷ []) (7 ∷ []) 1 16384 refl (omega arith)

abbrev message : Hy2UdpMessage
message = record {
  session_id = 0x11223344;
  packet_id = 7;
  fragment_id = 0;
  fragment_count = 1;
  address = ascii "a:443";
  payload = 1 ∷ 2 ∷ [];
}

is_text : is_utf8 (ascii "a:443") ≡ true
unfolding is_utf8_from lead
is_text = refl

parse_udp_message-build_example : parse_udp_message (build_udp_message message) ≡ ok message
parse_udp_message-build_example =
    parse_udp_message-build message
      (omega arith, omega arith, omega arith, omega arith, omega arith, is_text)

-- A hash that answers with two bytes.
abbrev hash_two : Bytes → Bytes
hash_two bytes = length bytes % 256 ∷ 0x5a ∷ []

salamander_deobfuscate-obfuscate_example :
    salamander_deobfuscate hash_two
      (salamander_obfuscate hash_two (replicate 8 3) (1 ∷ 2 ∷ 3 ∷ []) (4 ∷ []))
      (4 ∷ [])
    ≡ ok (1 ∷ 2 ∷ 3 ∷ [])
salamander_deobfuscate-obfuscate_example =
    salamander_deobfuscate-obfuscate hash_two (replicate 8 3) (1 ∷ 2 ∷ 3 ∷ []) (4 ∷ []) refl
