-- ===== src/Tests/AnyTls.antt =====
-- The theorems on the AnyTLS adapter, at concrete inputs.
use neon_core_atlas.Kernel.AnyTls.{
  payload, sizes, PaddingFactory, encode_uot_packet, write_with_padding, read_uot_packet, check,
}
use neon_core_atlas.Kernel.AnyTls.Padding.{IsSmall, write_with_padding-waste, waste_frames}
use neon_core_atlas.Kernel.AnyTls.Uot.{read_uot_packet-encode}
use neon_core_atlas.Kernel.Session.{TargetAddress}
use neon_core_atlas.Kernel.Socks.RoundTrip.{standard_host}
use neon_core_atlas.Prelude.{
  All, ◌>>=◌, ok, ◌≡◌, refl, true, false, some, List, [], ◌∷◌, ◌++◌, arith, ℕ,
}
use neon_core_atlas.Std.Text.{ascii, is_utf8_from, lead, is_utf8}

abbrev scheme : PaddingFactory
scheme = record {
  md5 = [];
  stop = 8;
  entries = (payload 30 ∷ []) ∷ (payload 2 ∷ check ∷ payload 500 ∷ []) ∷ [];
}

small : All IsSmall (sizes scheme 1)
unfolding sizes
small = (omega arith, (tt, (omega arith, tt)))

write_with_padding-waste_example :
    (ns : List ℕ) × (write_with_padding scheme 1 (5 ∷ 6 ∷ 7 ∷ [])
      ≡ ok ((5 ∷ 6 ∷ 7 ∷ []) ++ waste_frames ns))
write_with_padding-waste_example = write_with_padding-waste scheme 1 (5 ∷ 6 ∷ 7 ∷ []) small

abbrev site : TargetAddress
site = record { host = ascii "x.org"; port = 443 }

is_text : is_utf8 (ascii "x.org") ≡ true
unfolding is_utf8_from lead
is_text = refl

read_uot_packet-encode_example :
    (encode_uot_packet site (1 ∷ 2 ∷ []) >>= λ out. read_uot_packet false (out ++ (9 ∷ [])))
    ≡ ok ((some (record { host = standard_host (ascii "x.org"); port = 443 }), 1 ∷ 2 ∷ []), 9 ∷ [])
read_uot_packet-encode_example =
    read_uot_packet-encode site (1 ∷ 2 ∷ []) (9 ∷ []) (omega arith) is_text (omega arith)
      (omega arith)
