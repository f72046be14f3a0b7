-- ===== src/Kernel/AnyTls/Socks.antt =====
-- The SOCKS address that crates/neoncore-kernel/src/adapter/anytls.rs writes, read by the SOCKS inbound of
-- crates/neoncore-kernel/src/main.rs.
use neon_core_atlas.Kernel.AnyTls.{encode_socks_address, encode_host}
use neon_core_atlas.Kernel.AnyTls.Uot.{read_exact-append, read_domain-back}
use neon_core_atlas.Kernel.Session.{TargetAddress}
use neon_core_atlas.Kernel.Socks.{read_socks_host, read_socks_target, read_domain}
use neon_core_atlas.Kernel.Socks.RoundTrip.{standard_host}
use neon_core_atlas.Prelude.{
  le→ltb, Option-cases, length, get_or, drop, ◌>>=◌, ok, ◌%◌, ◌≤◌, ◌<◌, ◌≡◌, refl, ap, ◌∙◌, inl,
  inr, true, ◌∷◌, ◌++◌, arith, ℕ, append_assoc,
}
use neon_core_atlas.Std.Bytes.{Bytes, u16_bytes}
use neon_core_atlas.Std.Net.{parse_ipv4, parse_ipv6}
use neon_core_atlas.Std.Net.Lengths.{parse_ipv4-length, parse_ipv6-length}
use neon_core_atlas.Std.Text.{Text, is_utf8, ascii}

-- A host as it is written, and as it reads back from in front of any bytes.
abbrev ReadsBack : Text → Type 0
ReadsBack host =
    (atyp : ℕ) × (body : Bytes) × (encode_host 0x01 0x04 0x03
        (ascii "AnyTLS target domain is too long") host
      ≡ ok (atyp ∷ body))
    × ((s : Bytes) → read_socks_host atyp (body ++ s) ≡ ok (standard_host host, s))

encode_host-ReadsBack : (host : Text) → is_utf8 host ≡ true → length host ≤ 255 → ReadsBack host
unfolding read_socks_host encode_host standard_host read_domain
encode_host-ReadsBack host u l = elim (Option-cases (parse_ipv4 host)) [
  | inr (a, e) ↦ (
    1,
    a,
    rw (e, encode_host) refl,
    λ s. rw (e, standard_host, read_exact-append 4 a s (parse_ipv4-length host a e)) refl,
  )
  | inl e ↦ elim (Option-cases (parse_ipv6 host)) [
    | inr (a, f) ↦ (
      4,
      a,
      rw (e, f, encode_host) refl,
      λ s. rw (e, f, standard_host, read_exact-append 16 a s (parse_ipv6-length host a f)) refl,
    )
    | inl f ↦ (
      3,
      length host % 256 ∷ host,
      rw (e, f, le→ltb 255 (length host) l, encode_host) refl,
      λ s. rw (e, f, standard_host) (read_domain-back host s l u),
    )
  ]
]

port_behind :
    (atyp port : ℕ) (body rest : Bytes) (host : Text)
    → port < 65536
    → read_socks_host atyp (body ++ (u16_bytes port ++ rest)) ≡ ok (host, u16_bytes port ++ rest)
    → read_socks_target (body ++ (u16_bytes port ++ rest)) atyp
      ≡ ok (record { host = host; port = port }, rest)
unfolding read_socks_target
port_behind atyp port body rest host p e =
    ground (arith, e, read_exact-append 2 (u16_bytes port) rest refl)

-- The address that the AnyTLS adapter writes for a host of at most 255 bytes of UTF-8 text is what the
-- SOCKS inbound reads back, behind the byte of the address type: the same port, and the same host, an
-- address of which is in its standard text.
pub read_socks_target-encode :
    (target : TargetAddress) (rest : Bytes)
    → target.port < 65536
    → is_utf8 target.host ≡ true
    → length target.host ≤ 255
    → (encode_socks_address target >>= λ out.
        read_socks_target (drop 1 out ++ rest) (get_or out 0 0))
      ≡ ok (record { host = standard_host target.host; port = target.port }, rest)
unfolding encode_socks_address
read_socks_target-encode target rest p u l =
    let (atyp, body, e, back) = encode_host-ReadsBack target.host u l in
    rw (e, encode_socks_address)
      (ap (λ (s : Bytes). read_socks_target s atyp) (append_assoc body (u16_bytes target.port) rest)
        ∙ port_behind atyp target.port body rest (standard_host target.host) p
            (back (u16_bytes target.port ++ rest)))
