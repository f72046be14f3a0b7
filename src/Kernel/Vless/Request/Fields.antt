-- ===== src/Kernel/Vless/Request/Fields.antt =====
-- What a VLESS request holds (crates/neoncore-kernel/src/adapter/vless.rs).

use neon_core_atlas.Kernel.Session.{TargetAddress}
use neon_core_atlas.Kernel.Vless.Request.{
  tcp, udp, is_ascii_hexdigit, all_hexdigits, hex_pairs, parse_uuid, without_dashes, VlessCommand,
  build_request, build_addon, request_target, code, mux,
}
use neon_core_atlas.Kernel.Vless.Xudp.{decode_port_then_address}
use neon_core_atlas.Kernel.Vless.Xudp.RoundTrip.{decode-encode_port_then_address, standard}
use neon_core_atlas.Prelude.{
  ltb, ◌==◌, if◌then◌else◌, length, All, ok_or, >>=-ok, ok, zero, suc, ◌+◌, ◌-◌, ◌*◌, ◌/◌, ◌%◌, ◌<◌,
  ◌≡◌, refl, ap, true, some, [], ◌∷◌, arith, ℕ, Bool-cases, take, drop, ◌>>=◌, ok-injective, ◌≤◌,
  sym, ◌∙◌, inl, inr, Option, none, le→ltb, take-append_length, drop-append_length, ◌++◌,
}
use neon_core_atlas.Std.Bytes.{IsByte, Bytes}
use neon_core_atlas.Std.Number.{to_digit}
use neon_core_atlas.Std.Text.{Text, is_utf8}

-- Two hexadecimal digits to a byte, in small letters.
unfoldable pub hex_digit : ℕ → ℕ
hex_digit d = if ltb d 10 then b'0' + d else b'a' + (d - 10)

unfoldable pub hex_text : Bytes → Text
hex_text [] = []
hex_text (b ∷ bytes) = hex_digit (b / 16) ∷ hex_digit (b % 16) ∷ hex_text bytes

to_digit-hex_digit : (d : ℕ) → d < 16 → to_digit 16 (hex_digit d) ≡ some d
unfolding to_digit hex_digit
to_digit-hex_digit d h = ground arith

hex_digit-is_ascii_hexdigit : (d : ℕ) → d < 16 → is_ascii_hexdigit (hex_digit d) ≡ true
unfolding is_ascii_hexdigit hex_digit
hex_digit-is_ascii_hexdigit d h = ground arith

hex_pairs-hex_text : (bytes : Bytes) → All IsByte bytes → hex_pairs (hex_text bytes) ≡ ok bytes
unfolding hex_pairs hex_text
hex_pairs-hex_text [] h = refl
hex_pairs-hex_text (b ∷ bytes) (h, hs) =
    rw
      (
        to_digit-hex_digit (b / 16) (omega arith),
        to_digit-hex_digit (b % 16) (omega arith),
        hex_pairs-hex_text bytes hs,
      )
      (ap (λ (t : ℕ). ok (t ∷ bytes)) (omega arith))

all_hexdigits-hex_text : (bytes : Bytes) → All IsByte bytes → all_hexdigits (hex_text bytes) ≡ true
unfolding all_hexdigits hex_text
all_hexdigits-hex_text [] h = refl
all_hexdigits-hex_text (b ∷ bytes) (h, hs) =
    rw
      (
        hex_digit-is_ascii_hexdigit (b / 16) (omega arith),
        hex_digit-is_ascii_hexdigit (b % 16) (omega arith),
      )
      (all_hexdigits-hex_text bytes hs)

length-hex_text : (bytes : Bytes) → length (hex_text bytes) ≡ 2 * length bytes
unfolding hex_text
length-hex_text [] = refl
length-hex_text (b ∷ bytes) = omega (arith, length-hex_text bytes)

-- An id in hexadecimal digits is read, wherever the dashes stand.
pub parse_uuid-hex_text :
    (value : Text) (bytes : Bytes)
    → length bytes ≡ 16
    → All IsByte bytes
    → without_dashes value ≡ hex_text bytes
    → parse_uuid value ≡ ok bytes
unfolding parse_uuid
parse_uuid-hex_text value bytes h hs e =
    rw (e, all_hexdigits-hex_text bytes hs, size) (hex_pairs-hex_text bytes hs)
  where
    size : (length (hex_text bytes) == 32) ≡ true
    size = ground (arith, length-hex_text bytes)

-- Every id has 16 bytes.
hex_pairs-length :
    (n : ℕ) (text : Text) (bytes : Bytes)
    → length text ≡ 2 * n
    → hex_pairs text ≡ ok bytes
    → length bytes ≡ n
unfolding hex_pairs
hex_pairs-length n [] bytes h e = sym (ap (λ (t : Bytes). length t) (ok-injective e)) ∙ omega arith
hex_pairs-length n (a ∷ []) bytes h e = absurd (omega arith)
hex_pairs-length zero (a ∷ b ∷ rest) bytes h e = absurd (omega arith)
hex_pairs-length (suc n) (a ∷ b ∷ rest) bytes h e =
    let (high, eh, e1) = >>=-ok (ok_or (to_digit 16 a) _) _ e in
    let (low, el, e2) = >>=-ok (ok_or (to_digit 16 b) _) _ e1 in
    let (tail, et, e3) = >>=-ok (hex_pairs rest) _ e2 in
    sym (ap (λ (t : Bytes). length t) (ok-injective e3))
    ∙ ap suc (hex_pairs-length n rest tail (omega arith) et)

pub parse_uuid-length :
    (value : Text) (bytes : Bytes) → parse_uuid value ≡ ok bytes → length bytes ≡ 16
unfolding parse_uuid
parse_uuid-length value bytes e = elim (Bool-cases (length (without_dashes value) == 32)) [
  | inl f ↦ elim (Bool-cases (all_hexdigits (without_dashes value))) [
    | inl g ↦ hex_pairs-length 16 (without_dashes value) bytes (ground (arith, f)) (rw (f, g) at e)
    | inr g ↦ absurd (ground (arith, e, f, g))
  ]
  | inr f ↦ absurd (ground (arith, e, f))
]

-- What a server takes a request apart into.
pub record Request : Type 0 where
  pub id : Bytes
  pub addon : Bytes
  pub command : ℕ
  pub address : Bytes

unfoldable pub read_command : Bytes → Bytes → Bytes → Option Request
read_command id addon [] = none
read_command id addon (c ∷ rest) =
    some (record { id = id; addon = addon; command = c; address = rest })

unfoldable pub read_fields : Bytes → Bytes → Option Request
read_fields id [] = none
read_fields id (len ∷ rest) = read_command id (take len rest) (drop len rest)

unfoldable pub read_request : Bytes → Option Request
read_request [] = none
read_request (version ∷ rest) =
    if version == 0 then read_fields (take 16 rest) (drop 16 rest) else none

read_request-assembled :
    (id addon address : Bytes) (c : ℕ)
    → length id ≡ 16
    → length addon < 256
    → read_request ((0 ∷ id) ++ ((length addon % 256 ∷ addon) ++ (c ∷ address)))
      ≡ some (record { id = id; addon = addon; command = c; address = address })
unfolding read_request read_fields read_command
read_request-assembled id addon address c h k =
    rw
      (
        take-append_length 16 id ((length addon % 256 ∷ addon) ++ (c ∷ address)) h,
        drop-append_length 16 id ((length addon % 256 ∷ addon) ++ (c ∷ address)) h,
        take-append_length (length addon % 256) addon (c ∷ address) (omega arith),
        drop-append_length (length addon % 256) addon (c ∷ address) (omega arith),
      )
      refl

-- The port and the address read back as the target, an address in its standard text; a request for a
-- mux has none.
abbrev pub Names : VlessCommand → TargetAddress → Bytes → Type 0
Names mux to address = address ≡ []
Names command to address = decode_port_then_address address ≡ ok (standard to, length address)

request_target-Names :
    (command : VlessCommand) (to : TargetAddress)
    → to.port < 65536
    → is_utf8 to.host ≡ true
    → length to.host ≤ 255
    → (address : Bytes) × (request_target command to ≡ ok address) × Names command to address
unfolding request_target
request_target-Names mux to p t l = ([], refl, refl)
request_target-Names tcp to p t l = decode-encode_port_then_address to p t l
request_target-Names udp to p t l = decode-encode_port_then_address to p t l

-- A request reads back as the id, the flow's addon and the command, with the bytes that name the target,
-- if the addon has at most 255 bytes and the host is UTF-8 text of at most 255.
pub read_request-build_request :
    (uuid : Text) (id : Bytes) (flow : Option Text) (command : VlessCommand) (to : TargetAddress)
    → parse_uuid uuid ≡ ok id
    → length (build_addon flow) < 256
    → to.port < 65536
    → is_utf8 to.host ≡ true
    → length to.host ≤ 255
    → (address : Bytes) × Names command to address
      × ((build_request uuid flow command to >>= λ out. ok (read_request out))
          ≡ ok (
              some (record {
                id = id;
                addon = build_addon flow;
                command = code command;
                address = address;
              })))
unfolding build_request
read_request-build_request uuid id flow command to u a p t l =
    let (address, e, names) = request_target-Names command to p t l in
    (
      address,
      names,
      rw (u, le→ltb 255 (length (build_addon flow)) (omega arith), e, build_request)
          (ap ok (
            read_request-assembled id (build_addon flow) address (code command)
              (parse_uuid-length uuid id u) a)),
    )
