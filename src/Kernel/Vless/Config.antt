-- ===== src/Kernel/Vless/Config.antt =====
-- The configuration of the VLESS adapter as the transports read it: hosts and paths
-- (crates/neoncore-kernel/src/adapter/vless.rs).

pub mod Paths
use neon_core_atlas.Kernel.Vless.Xmux.{XHttpXmuxConfig}
use neon_core_atlas.Prelude.{
  ◌==◌, if◌then◌else◌, ◌/◌, Bool, not, ◌||◌, Option, none, some, [], ◌∷◌, ◌++◌, ℕ,
}
use neon_core_atlas.Std.Bytes.{Bytes}
use neon_core_atlas.Std.Number.{show_u16}
use neon_core_atlas.Std.Text.{Text, ascii, starts_with, ends_with}

pub data VlessSecurity : Type 0 where
  plain tls : VlessSecurity
  reality : (public_key short_id : Text) (fingerprint : Option Text) → VlessSecurity

pub data VlessTransportKind : Type 0 where
  raw_tcp web_socket grpc h2 http_upgrade x_http : VlessTransportKind

pub data XHttpMode : Type 0 where
  auto stream_one stream_up packet_up : XHttpMode

pub data XHttpVersion : Type 0 where
  auto_version http1 http2 http3 : XHttpVersion

pub record VlessTransport : Type 0 where
  pub kind : VlessTransportKind
  pub host : Option Text
  pub path : Text
  pub service_name : Text
  pub authority : Option Text
  pub mode : XHttpMode
  pub http_version : XHttpVersion
  pub sc_max_each_post_bytes : ℕ
  pub sc_min_posts_interval_ms : ℕ
  pub xmux : XHttpXmuxConfig

pub record VlessConfig : Type 0 where
  pub server : Text
  pub server_port : ℕ
  pub uuid : Bytes
  pub sni : Option Text
  pub flow : Option Text
  pub security : VlessSecurity
  pub transport : VlessTransport
  pub insecure : Bool

unfoldable pub resolved_xhttp_mode : VlessConfig → XHttpMode
resolved_xhttp_mode config = elim config.transport.mode [
  | auto ↦ elim config.security [
    | reality public_key short_id fingerprint ↦ stream_one
    | plain ↦ packet_up
    | tls ↦ packet_up
  ]
  | stream_one ↦ stream_one
  | stream_up ↦ stream_up
  | packet_up ↦ packet_up
]

unfoldable transport_host : VlessConfig → Option Text
transport_host config = elim config.transport.host [
  | some host ↦ some host
  | none ↦ elim config.transport.authority [ some authority ↦ some authority | none ↦ config.sni ]
]

unfoldable default_port : VlessSecurity → ℕ
default_port plain = 80
default_port tls = 443
default_port (reality public_key short_id fingerprint) = 443

unfoldable transport_authority : VlessConfig → Bool → Text
transport_authority config always_port =
    let host : Text = elim (transport_host config) [ none ↦ config.server | some host ↦ host ] in
    if always_port || not (config.server_port == default_port config.security)
    then host ++ (b':' ∷ show_u16 config.server_port)
    else host

unfoldable pub normalized_path : Text → Text
normalized_path [] = ascii "/"
normalized_path (c ∷ path) =
    if starts_with (c ∷ path) (ascii "/") then c ∷ path else b'/' ∷ c ∷ path

unfoldable pub xhttp_path : VlessConfig → Text
xhttp_path config =
    let path : Text = normalized_path config.transport.path in
    if ends_with path (ascii "/") then path else path ++ ascii "/"

-- `rsplitn(2, c)`: what stands behind the last such character and before it.
unfoldable pub rsplit_once : ℕ → Text → Option (Text × Text)
rsplit_once c [] = none
rsplit_once c (x ∷ xs) = elim (rsplit_once c xs) [
  | some (before, behind) ↦ some (x ∷ before, behind)
  | none ↦ if x == c then some ([], xs) else none
]

-- `str::trim_start_matches` of one character
unfoldable pub trim_start_matches : ℕ → Text → Text
trim_start_matches c [] = []
trim_start_matches c (x ∷ xs) =
    let rest : Text = trim_start_matches c xs in if x == c then rest else x ∷ xs

unfoldable pub method_path : Text → Text → Text
method_path [] method = b'/' ∷ method
method_path (c ∷ service) method = b'/' ∷ (c ∷ service ++ (b'/' ∷ method))

unfoldable pub grpc_path : Text → Text
grpc_path service_name =
    if starts_with service_name (ascii "/")
    then elim (rsplit_once b'/' service_name) [
      | some (service, method) ↦ method_path (trim_start_matches b'/' service) method
      | none ↦ method_path [] service_name
    ]
    else b'/' ∷ (service_name ++ ascii "/Tun")
