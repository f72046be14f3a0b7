-- ===== src/Kernel/Vless/Xudp/Frames.antt =====
-- The addresses and the frames of XUDP, read back from in front of any bytes
-- (crates/neoncore-kernel/src/adapter/vless.rs).

use neon_core_atlas.Kernel.AnyTls.{encode_host}
use neon_core_atlas.Kernel.Hysteria2.Varint.{slices}
use neon_core_atlas.Kernel.Session.{TargetAddress}
use neon_core_atlas.Kernel.Socks.{ipv4_at, Anyhow}
use neon_core_atlas.Kernel.Socks.RoundTrip.{standard_host}
use neon_core_atlas.Kernel.Vless.Xudp.{
  encode_address, decode_address, decode_domain, decode_ipv6, decode_ipv4, decode_port_then_address,
  xudp_round, read_frame, split_frame, complete, meta_target, emit, sized_round,
}
use neon_core_atlas.Prelude.{
  le→ltb, Option-cases, length, length-append, take-append_length, ok, ◌+◌, ◌%◌, ◌≤◌, ◌≡◌, refl,
  inl, inr, true, [], ◌∷◌, ◌++◌, arith, get_elem?, ◌<◌, Option, some, ℕ, ltb, drop-append_length,
  get_elem?-append, slice_from, suc, sym, ap, ◌∙◌, false, slice_from_lem, append_assoc, ◌/◌,
}
use neon_core_atlas.Std.Bytes.{Bytes, u16_bytes, u16_be}
use neon_core_atlas.Std.Net.{parse_ipv4, parse_ipv6}
use neon_core_atlas.Std.Net.Lengths.{parse_ipv4-length, parse_ipv6-length}
use neon_core_atlas.Std.Net.Show.{show_ipv6, show_ipv4}
use neon_core_atlas.Std.Text.{Text, is_utf8}

decode_ipv4-back :
    (octets s : Bytes)
    → length octets ≡ 4
    → decode_address (1 ∷ octets ++ s) ≡ ok (show_ipv4 octets, 5)
unfolding decode_address decode_ipv4 ipv4_at
decode_ipv4-back (a ∷ b ∷ c ∷ d ∷ []) s e = ground arith
decode_ipv4-back [] s e = absurd (omega arith)
decode_ipv4-back (a ∷ []) s e = absurd (omega arith)
decode_ipv4-back (a ∷ b ∷ []) s e = absurd (omega arith)
decode_ipv4-back (a ∷ b ∷ c ∷ []) s e = absurd (omega arith)
decode_ipv4-back (a ∷ b ∷ c ∷ d ∷ f ∷ g) s e = absurd (omega arith)

decode_ipv6-back :
    (octets s : Bytes)
    → length octets ≡ 16
    → decode_address (3 ∷ octets ++ s) ≡ ok (show_ipv6 octets, 17)
unfolding decode_address decode_ipv6
decode_ipv6-back octets s e =
    ground (arith, take-append_length 16 octets s e, length-append octets s)

decode_domain-back :
    (host s : Bytes)
    → length host ≤ 255
    → is_utf8 host ≡ true
    → decode_address (2 ∷ length host % 256 ∷ host ++ s) ≡ ok (host, 2 + length host)
unfolding decode_address decode_domain
decode_domain-back host s h u =
    ground (arith, take-append_length (length host) host s refl, length-append host s)

-- An address as it is written, and as it reads back from in front of any bytes.
abbrev pub ReadsBack : Text → Type 0
ReadsBack host =
    (out : Bytes) × (encode_address host ≡ ok out)
    × ((s : Bytes) → decode_address (out ++ s) ≡ ok (standard_host host, length out))
    × (1 ≤ length out)
    × (length out ≤ 257)

pub encode_address-ReadsBack :
    (host : Text) → is_utf8 host ≡ true → length host ≤ 255 → ReadsBack host
unfolding encode_address encode_host standard_host
encode_address-ReadsBack host u l = elim (Option-cases (parse_ipv4 host)) [
  | inr (a, e) ↦
      let n = parse_ipv4-length host a e in
      (
        1 ∷ a,
        rw (e, encode_host) refl,
        λ s. rw (e, standard_host, n) (decode_ipv4-back a s n),
        omega arith,
        omega (arith, n),
      )
  | inl e ↦ elim (Option-cases (parse_ipv6 host)) [
    | inr (a, f) ↦
        let n = parse_ipv6-length host a f in
        (
          3 ∷ a,
          rw (e, f, encode_host) refl,
          λ s. rw (e, f, standard_host, n) (decode_ipv6-back a s n),
          omega arith,
          omega (arith, n),
        )
    | inl f ↦ (
      2 ∷ length host % 256 ∷ host,
      rw (e, f, le→ltb 255 (length host) l, encode_host) refl,
      λ s. rw (e, f, standard_host) (decode_domain-back host s l u ∙ two),
      omega arith,
      omega arith,
    )
  ]
]
  where
    two :
        ◌≡◌ {A = Anyhow (Text × ℕ)}
          (ok (host, 2 + length host))
          (ok (host, suc (suc (length host))))
    two = ap (λ (n : ℕ). ok (host, n)) (omega arith)

pub decode_port_then_address-back :
    (port n : ℕ) (out s : Bytes) (host : Text)
    → port < 65536
    → 1 ≤ length out
    → decode_address (out ++ s) ≡ ok (host, n)
    → decode_port_then_address (u16_bytes port ++ (out ++ s))
      ≡ ok (record { host = host; port = port }, n + 2)
unfolding decode_port_then_address
decode_port_then_address-back port n out s host p l e = ground (arith, e, length-append out s)

complete-back :
    (front data_bytes rest : Bytes) (offset status option frame_len : ℕ) (to : Option TargetAddress)
    → length front ≡ offset + 2
    → frame_len ≡ offset + 2 + length data_bytes
    → complete (front ++ (data_bytes ++ rest)) offset status option to frame_len
      ≡ ok (emit status option to data_bytes rest)
unfolding complete
complete-back front data_bytes rest offset status option frame_len to e f =
    rw (sym (append_assoc front data_bytes rest)) (
      rw
        (
          whole,
          take-append_length frame_len (front ++ data_bytes) rest size,
          drop-append_length frame_len (front ++ data_bytes) rest size,
          payload,
        )
        refl)
  where
    size : length (front ++ data_bytes) ≡ frame_len
    size = omega (arith, length-append front data_bytes)

    whole : ltb (length ((front ++ data_bytes) ++ rest)) frame_len ≡ false
    whole = le→ltb _ _ (omega (arith, size, length-append (front ++ data_bytes) rest))

    payload : slice_from {E = Text} (front ++ data_bytes) (offset + 2) ≡ ok data_bytes
    payload =
        slice_from_lem (front ++ data_bytes) (offset + 2) (omega (arith, size))
        ∙ ap ok (drop-append_length (offset + 2) front data_bytes e)

split_frame-back :
    (front data_bytes rest : Bytes) (offset status option : ℕ) (to : Option TargetAddress)
    → length front ≡ offset
    → length data_bytes < 65536
    → split_frame
        (front ++ (u16_bytes (length data_bytes) ++ (data_bytes ++ rest)))
        offset
        status
        option
        to
      ≡ ok (emit status option to data_bytes rest)
unfolding split_frame
split_frame-back front data_bytes rest offset status option to e h =
    rw (first, second)
      (rw (sym (append_assoc front (u16_bytes (length data_bytes)) (data_bytes ++ rest))) (
        complete-back (front ++ u16_bytes (length data_bytes)) data_bytes rest offset status option
          _ to (omega (arith, length-append front (u16_bytes (length data_bytes)))) (omega arith)))
  where
    tail : Bytes
    tail = u16_bytes (length data_bytes) ++ (data_bytes ++ rest)

    here : offset ≡ offset + 0
    here = omega arith

    first : get_elem? (front ++ tail) offset ≡ some (length data_bytes / 256 % 256)
    first = ap (get_elem? (front ++ tail)) here ∙ get_elem?-append offset 0 front tail e

    second : get_elem? (front ++ tail) (offset + 1) ≡ some (length data_bytes % 256)
    second = get_elem?-append offset 1 front tail e

read_frame-back :
    (head meta data_bytes rest : Bytes) (status option : ℕ) (to : Option TargetAddress)
    → length head ≡ 2
    → length data_bytes < 65536
    → get_elem? meta 2 ≡ some status
    → get_elem? meta 3 ≡ some option
    → meta_target meta ≡ ok to
    → read_frame
        (head ++ (meta ++ (u16_bytes (length data_bytes) ++ (data_bytes ++ rest))))
        (length meta)
      ≡ ok (emit status option to data_bytes rest)
unfolding read_frame
read_frame-back head meta data_bytes rest status option to e l s o t =
    rw
      (
        slices head (u16_bytes (length data_bytes) ++ (data_bytes ++ rest)) 2 e (length meta) meta
            refl,
        s,
        o,
        t,
        sym (append_assoc head meta (u16_bytes (length data_bytes) ++ (data_bytes ++ rest))),
      )
      (split_frame-back (head ++ meta) data_bytes rest (2 + length meta) status option to
        (omega (arith, length-append head meta)) l)

-- A whole frame in front of the buffer is read, whatever follows it.
pub frame-back :
    (meta data_bytes rest : Bytes) (status option : ℕ) (to : Option TargetAddress)
    → 4 ≤ length meta
    → length meta < 65536
    → length data_bytes < 65536
    → get_elem? meta 2 ≡ some status
    → get_elem? meta 3 ≡ some option
    → meta_target meta ≡ ok to
    → xudp_round (
        u16_bytes (length meta)
        ++ (meta ++ (u16_bytes (length data_bytes) ++ (data_bytes ++ rest))))
      ≡ ok (emit status option to data_bytes rest)
unfolding xudp_round sized_round
frame-back meta data_bytes rest status option to h k l s o t = ground (
  arith,
  h,
  k,
  length-append meta tail,
  read_frame-back (u16_bytes (length meta)) meta data_bytes rest status option to refl l s o t,
  ap (read_frame (u16_bytes (length meta) ++ (meta ++ tail))) word,
)
  where
    m : ℕ
    m = length meta

    tail : Bytes
    tail = u16_bytes (length data_bytes) ++ (data_bytes ++ rest)

    word : u16_be (m / 256 % 256) (m % 256) ≡ m
    word = omega arith
