-- ===== src/Kernel/AnyTls/Uot.antt =====
-- UDP over TCP packets of crates/neoncore-kernel/src/adapter/anytls.rs read back.
use neon_core_atlas.Kernel.AnyTls.{
  encode_uot_packet, read_uot_host, read_uot_address, read_uot_payload, encode_host,
  encode_uot_address, read_uot_packet,
}
use neon_core_atlas.Kernel.Session.{TargetAddress}
use neon_core_atlas.Kernel.Socks.{read_exact, read_domain}
use neon_core_atlas.Kernel.Socks.RoundTrip.{standard_host}
use neon_core_atlas.Prelude.{
  le→ltb, le→leb, Option-cases, length, length-append, take-append_length, drop-append_length,
  ◌>>=◌, ok, ◌%◌, ◌≤◌, ◌<◌, ◌≡◌, refl, ap, ◌∙◌, inl, inr, true, false, Option, some, [], ◌∷◌, ◌++◌,
  arith, ℕ, ap₂, append_assoc,
}
use neon_core_atlas.Std.Bytes.{Bytes, u16_bytes}
use neon_core_atlas.Std.Net.{parse_ipv4, parse_ipv6}
use neon_core_atlas.Std.Net.Lengths.{parse_ipv4-length, parse_ipv6-length}
use neon_core_atlas.Std.Text.{Text, is_utf8, ascii}

pub read_exact-append :
    (n : ℕ) (xs ys : Bytes) → length xs ≡ n → read_exact n (xs ++ ys) ≡ ok (xs, ys)
read_exact-append n xs ys e =
    rw (le→leb n (length (xs ++ ys)) (omega (arith, length-append xs ys))) (
      ap ok (
        ap₂ (λ (a b : Bytes). (a, b)) (take-append_length n xs ys e)
          (drop-append_length n xs ys e)))

-- A host as it is written, and as it reads back from in front of any bytes.
abbrev pub ReadsBack : Text → Type 0
ReadsBack host =
    (atyp : ℕ) × (body : Bytes) × (encode_host 0 1 2 (ascii "UoT target domain is too long") host
      ≡ ok (atyp ∷ body))
    × ((s : Bytes) → read_uot_host atyp (body ++ s) ≡ ok (standard_host host, s))

pub read_domain-back :
    (host s : Bytes)
    → length host ≤ 255
    → is_utf8 host ≡ true
    → read_domain ((length host % 256 ∷ host) ++ s) ≡ ok (host, s)
unfolding read_domain
read_domain-back host s l u = ground (arith, u, read_exact-append (length host) host s refl)

encode_host-ReadsBack : (host : Text) → is_utf8 host ≡ true → length host ≤ 255 → ReadsBack host
unfolding read_uot_host encode_host standard_host read_domain
encode_host-ReadsBack host u l = elim (Option-cases (parse_ipv4 host)) [
  | inr (a, e) ↦ (
    0,
    a,
    rw (e, encode_host) refl,
    λ s. rw (e, standard_host, read_exact-append 4 a s (parse_ipv4-length host a e)) refl,
  )
  | inl e ↦ elim (Option-cases (parse_ipv6 host)) [
    | inr (a, f) ↦ (
      1,
      a,
      rw (e, f, encode_host) refl,
      λ s. rw (e, f, standard_host, read_exact-append 16 a s (parse_ipv6-length host a f)) refl,
    )
    | inl f ↦ (
      2,
      length host % 256 ∷ host,
      rw (e, f, le→ltb 255 (length host) l, encode_host) refl,
      λ s. rw (e, f, standard_host) (read_domain-back host s l u),
    )
  ]
]

read_uot_address-back :
    (atyp port : ℕ) (body s : Bytes) (host : Text)
    → port < 65536
    → read_uot_host atyp (body ++ (u16_bytes port ++ s)) ≡ ok (host, u16_bytes port ++ s)
    → read_uot_address (atyp ∷ (body ++ (u16_bytes port ++ s)))
      ≡ ok (record { host = host; port = port }, s)
unfolding read_uot_address
read_uot_address-back atyp port body s host p e = ground (
  arith,
  e,
  read_exact-append 1 (atyp ∷ []) (body ++ (u16_bytes port ++ s)) refl,
  read_exact-append 2 (u16_bytes port) s refl,
)

read_uot_payload-back :
    (to : Option TargetAddress) (data_bytes rest : Bytes)
    → length data_bytes < 65536
    → read_uot_payload to (u16_bytes (length data_bytes) ++ (data_bytes ++ rest))
      ≡ ok ((to, data_bytes), rest)
unfolding read_uot_payload
read_uot_payload-back to data_bytes rest h =
    ground (arith, read_exact-append (length data_bytes) data_bytes rest refl)

-- A packet of at most 65535 bytes for a host of at most 255 bytes of UTF-8 text reads back with its
-- target, an address of which is in its standard text, and leaves the stream behind it untouched.
pub read_uot_packet-encode :
    (target : TargetAddress) (data_bytes rest : Bytes)
    → target.port < 65536
    → is_utf8 target.host ≡ true
    → length target.host ≤ 255
    → length data_bytes < 65536
    → (encode_uot_packet target data_bytes >>= λ out. read_uot_packet false (out ++ rest))
      ≡ ok (
        (some (record { host = standard_host target.host; port = target.port }), data_bytes),
        rest,
      )
unfolding encode_uot_packet encode_uot_address read_uot_packet
read_uot_packet-encode target data_bytes rest p u l h =
    let (atyp, body, e, back) = encode_host-ReadsBack target.host u l in
    rw (le→ltb 65535 (length data_bytes) (omega arith), e, encode_uot_packet, encode_uot_address)
      (ap (λ (s : Bytes). read_uot_packet false (atyp ∷ s)) (grouped body)
        ∙ rw
            (read_uot_address-back atyp target.port body framed (standard_host target.host) p
              (back (u16_bytes target.port ++ framed)))
            (read_uot_payload-back _ data_bytes rest h))
  where
    framed : Bytes
    framed = u16_bytes (length data_bytes) ++ (data_bytes ++ rest)

    grouped :
        (body : Bytes)
        → ((body ++ u16_bytes target.port) ++ (u16_bytes (length data_bytes) ++ data_bytes)) ++ rest
          ≡ body ++ (u16_bytes target.port ++ framed)
    grouped body =
        ap (λ (t : Bytes). t ++ rest)
          (append_assoc body (u16_bytes target.port) (u16_bytes (length data_bytes) ++ data_bytes))
        ∙ append_assoc body (u16_bytes target.port ++ (u16_bytes (length data_bytes) ++ data_bytes))
            rest
