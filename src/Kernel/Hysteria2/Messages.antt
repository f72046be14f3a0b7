-- ===== src/Kernel/Hysteria2/Messages.antt =====
-- Hysteria2 messages of crates/neoncore-kernel/src/adapter/hysteria2.rs read back.
use neon_core_atlas.Kernel.Hysteria2.{
  write_quic_varint, read_field, Hy2UdpMessage, parse_udp_message, build_udp_message,
  parse_tcp_response, response_status, read_quic_varint,
}
use neon_core_atlas.Kernel.Hysteria2.Varint.{
  slices, read_quic_varint-write, be_number-u16, be_number-u32,
}
use neon_core_atlas.Prelude.{
  length, drop, length-append, slice, ok, ◌+◌, ◌^◌, ◌<◌, ◌≡◌, refl, sym, ap, ◌∙◌, ◌++◌, arith, ℕ,
  append_assoc, drop-append_length, true, [], ◌∷◌, ◌==◌, zero, suc,
}
use neon_core_atlas.Std.Bytes.{Bytes, u32_bytes, u16_bytes}
use neon_core_atlas.Std.Text.{Text, is_utf8, ascii}

-- A length-prefixed field behind `front` reads back, and the offset moves behind it.
module _ (front field rest : Bytes) (n : ℕ) (here : length front ≡ n)
    (fits : length field < 2 ^ 62) where
  abbrev prefix : Bytes
  prefix = write_quic_varint (length field)

  field_here :
      slice {E = Text}
        (front ++ (prefix ++ (field ++ rest)))
        (n + length prefix)
        (n + length prefix + length field)
      ≡ ok field
  field_here =
      ap (λ (s : Bytes). slice {E = Text} s (n + length prefix) (n + length prefix + length field))
        (sym (append_assoc front prefix (field ++ rest)))
      ∙ slices (front ++ prefix) rest (n + length prefix)
          (omega (arith, length-append front prefix)) (length field) field refl

  pub read_field-back :
      (truncated : Text)
      → read_field (front ++ (write_quic_varint (length field) ++ (field ++ rest))) n truncated
        ≡ ok (field, n + length (write_quic_varint (length field)) + length field)
  unfolding read_field
  read_field-back truncated = ground (
    arith,
    read_quic_varint-write front (field ++ rest) n (length field) here fits,
    field_here,
    length-append front (prefix ++ (field ++ rest)),
    length-append prefix (field ++ rest),
    length-append field rest,
  )

  pub rest_here :
      drop
        (n + length (write_quic_varint (length field)) + length field)
        (front ++ (write_quic_varint (length field) ++ (field ++ rest)))
      ≡ rest
  rest_here =
      ap (drop (n + length prefix + length field)) (sym regroup)
      ∙ drop-append_length (n + length prefix + length field) (front ++ prefix ++ field) rest
          (omega (arith, length-append (front ++ prefix) field, length-append front prefix))
    where
      regroup : front ++ prefix ++ field ++ rest ≡ front ++ (prefix ++ (field ++ rest))
      regroup =
          append_assoc (front ++ prefix) field rest ∙ append_assoc front prefix (field ++ rest)

  pub length_behind :
      length (front ++ (write_quic_varint (length field) ++ (field ++ rest)))
      ≡ n + length (write_quic_varint (length field)) + length field + length rest
  length_behind = omega (
    arith,
    length-append front (prefix ++ (field ++ rest)),
    length-append prefix (field ++ rest),
    length-append field rest,
  )

-- The ranges of the fields, and a fragment that is one of its message's.
abbrev pub IsMessage : Hy2UdpMessage → Type 0
IsMessage m =
    (m.session_id < 2 ^ 32)
    × (m.packet_id < 2 ^ 16)
    × (m.fragment_id < m.fragment_count)
    × (m.fragment_count < 256)
    × (length m.address < 2 ^ 62)
    × (is_utf8 m.address ≡ true)

-- A UDP message whose fields are in range, whose fragment number is below the count and whose address is
-- UTF-8 text reads back as it was.
pub parse_udp_message-build :
    (m : Hy2UdpMessage) → IsMessage m → parse_udp_message (build_udp_message m) ≡ ok m
unfolding parse_udp_message build_udp_message
parse_udp_message-build m (s, p, f, c, l, u) = ground (
  arith,
  be_number-u32 0 m.session_id,
  be_number-u16 0 m.packet_id p,
  read_field-back front m.address m.payload 8 refl l (ascii "Hysteria2 UDP address is truncated"),
  rest_here front m.address m.payload 8 refl l,
  length_behind front m.address m.payload 8 refl l,
)
  where
    front : Bytes
    front =
        u32_bytes m.session_id ++ (u16_bytes m.packet_id ++ (m.fragment_id ∷ m.fragment_count ∷ []))

-- A TCP response, as the protocol lays it out.
abbrev pub tcp_response_wire : ℕ → Text → Bytes → Bytes
tcp_response_wire status message padding =
    status
    ∷ (write_quic_varint (length message)
        ++ (message ++ (write_quic_varint (length padding) ++ padding)))

-- A response with status 0 for success or 1 for failure, a message that is UTF-8 text and any padding
-- reads back with its status and its message.
pub parse_tcp_response-wire :
    (status : ℕ) (message : Text) (padding : Bytes)
    → status < 2
    → length message < 2 ^ 62
    → length padding < 2 ^ 62
    → is_utf8 message ≡ true
    → parse_tcp_response (tcp_response_wire status message padding)
      ≡ ok (record { is_ok = status == 0; message = message })
unfolding parse_tcp_response response_status
parse_tcp_response-wire status message padding known m p u = accepted status known
  where
    rest : Bytes
    rest = write_quic_varint (length padding) ++ padding

    w : Bytes
    w = write_quic_varint (length message)

    n : ℕ
    n = 1 + length w + length message

    padded :
        (s : ℕ)
        → read_quic_varint (s ∷ (w ++ (message ++ rest))) n
          ≡ ok (length padding, n + length (write_quic_varint (length padding)))
    padded s =
        ap (λ (t : Bytes). read_quic_varint (s ∷ t) n) (sym (append_assoc w message rest))
        ∙ read_quic_varint-write (s ∷ (w ++ message)) padding n (length padding)
            (omega (arith, length-append w message)) p

    accepted :
        (s : ℕ)
        → s < 2
        → parse_tcp_response (tcp_response_wire s message padding)
          ≡ ok (record { is_ok = s == 0; message = message })
    accepted zero h = ground (
      arith,
      read_field-back (0 ∷ []) message rest 1 refl m
          (ascii "Hysteria2 TCP response message is truncated"),
      padded 0,
      length_behind (0 ∷ []) message rest 1 refl m,
      length-append (write_quic_varint (length padding)) padding,
    )
    accepted (suc zero) h = ground (
      arith,
      read_field-back (1 ∷ []) message rest 1 refl m
          (ascii "Hysteria2 TCP response message is truncated"),
      padded 1,
      length_behind (1 ∷ []) message rest 1 refl m,
      length-append (write_quic_varint (length padding)) padding,
    )
    accepted (suc (suc s)) h = absurd (omega arith)
