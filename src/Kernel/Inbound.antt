-- ===== src/Kernel/Inbound.antt =====
-- How crates/neoncore-kernel/src/main.rs checks a session and reads the requests of an HTTP client.
-- `validate_node` stands for the check of the adapter that a node names, with its message.
pub mod Head
use neon_core_atlas.Kernel.Session.{KernelNode, KernelSession, TargetAddress}
use neon_core_atlas.Kernel.Socks.{Anyhow}
use neon_core_atlas.Prelude.{
  ltb, ◌==◌, if◌then◌else◌, length, ok_or, map_ok, ok, err, ◌/◌, not, ◌||◌, Option, none, some,
  List, [], ◌∷◌, ◌++◌, ℕ,
}
use neon_core_atlas.Std.Bytes.{Bytes, bytes_eq}
use neon_core_atlas.Std.Number.{parse_unsigned}
use neon_core_atlas.Std.Text.{Text, ascii, contains, ends_with, split_once}

module _ {Json : Type 0} (validate_node : KernelNode Json → Option Text) where
  unfoldable pub validate_nodes : List (KernelNode Json) → Option Text
  validate_nodes [] = none
  validate_nodes (n ∷ nodes) = elim (validate_node n) [
    | some message ↦ some message
    | none ↦ validate_nodes nodes
  ]

  -- `none` when the session is valid, else the message.
  unfoldable pub validate_session : KernelSession Json → Option Text
  validate_session session =
      if not (bytes_eq session.listen_host (ascii "127.0.0.1"))
      then some (ascii "kernel currently only listens on loopback")
      else if length session.selected_node.server == 0 || session.selected_node.server_port == 0
      then some (ascii "selected node endpoint is invalid")
      else validate_nodes (session.selected_node ∷ session.nodes)

-- What `handle_client` does with the first byte.
pub data InboundProtocol : Type 0 where
  socks5 http unsupported : InboundProtocol

unfoldable pub inbound_protocol : ℕ → InboundProtocol
inbound_protocol first =
    if first == 0x05
    then socks5
    else if first == b'C'
        || first == b'G'
        || first == b'P'
        || first == b'H'
        || first == b'D'
        || first == b'O'
        || first == b'T'
    then http
    else unsupported

abbrev pub head_end : Bytes
head_end = 13 ∷ 10 ∷ 13 ∷ 10 ∷ []

-- `read_http_head`: one byte at a time, until the blank line or the limit; the head and the bytes behind.
unfoldable pub read_http_head : Bytes → Bytes → Anyhow (Bytes × Bytes)
read_http_head buffer [] =
    if ltb (length buffer) 65536
    then err (ascii "early eof")
    else err (ascii "HTTP request header is too large")
read_http_head buffer (b ∷ stream) =
    let rest = read_http_head (buffer ++ (b ∷ [])) stream in
    if ltb (length buffer) 65536
    then (if ends_with (buffer ++ (b ∷ [])) head_end then ok (buffer ++ (b ∷ []), stream) else rest)
    else err (ascii "HTTP request header is too large")

-- `value.find('/')` and the two slices
unfoldable pub split_authority_path : Text → Text × Text
split_authority_path [] = ([], ascii "/")
split_authority_path (c ∷ value) =
    let rest = split_authority_path value in
    if c == b'/' then ([], c ∷ value) else (c ∷ rest.0, rest.1)

-- `rsplit_once(':')`
unfoldable pub rsplit_once : ℕ → Text → Option (Text × Text)
rsplit_once c [] = none
rsplit_once c (x ∷ xs) = elim (rsplit_once c xs) [
  | some (a, b) ↦ some (x ∷ a, b)
  | none ↦ if x == c then some ([], xs) else none
]

-- The port behind the bracket of an IPv6 address.
unfoldable pub bracket_port : Text → ℕ → Anyhow ℕ
bracket_port [] default_port = ok default_port
bracket_port (c ∷ text) default_port =
    if c == b':' then ok_or (parse_unsigned 65535 text) (ascii "invalid port") else ok default_port

unfoldable pub parse_plain : Text → ℕ → Anyhow TargetAddress
parse_plain value default_port = elim (rsplit_once b':' value) [
  | none ↦ ok (record { host = value; port = default_port })
  | some (host, port) ↦
      if contains host (ascii ":")
      then ok (record { host = value; port = default_port })
      else map_ok (λ p. record { host = host; port = p })
          (ok_or (parse_unsigned 65535 port) (ascii "invalid port"))
]

unfoldable pub parse_bracketed : Text → ℕ → Anyhow TargetAddress
parse_bracketed stripped default_port = elim (split_once b']' stripped) [
  | none ↦ err (ascii "invalid IPv6 authority")
  | some (host, rest) ↦
      map_ok (λ p. record { host = host; port = p }) (bracket_port rest default_port)
]

unfoldable pub parse_host_port : Text → ℕ → Anyhow TargetAddress
parse_host_port [] default_port = parse_plain [] default_port
parse_host_port (c ∷ value) default_port =
    if c == b'[' then parse_bracketed value default_port else parse_plain (c ∷ value) default_port
