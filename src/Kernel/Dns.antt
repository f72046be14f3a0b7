-- ===== src/Kernel/Dns.antt =====
-- The resolver of proxy servers of crates/neoncore-kernel/src/dns.rs. Time is in seconds; the two readings
-- of the clock in `resolve` are `now` and `later`. The cache is an explicit state. `fetch` stands for the
-- HTTPS GET of a URL with its status check and the decoding of its JSON body, `to_socket_addrs` for the
-- resolver of the system.
pub mod Usable
pub mod Caching
use neon_core_atlas.Kernel.Session.{KernelHostMapping, KernelDnsConfig, TargetAddress, default_dns}
use neon_core_atlas.Kernel.Socks.{Anyhow}
use neon_core_atlas.Prelude.{
  ltb, leb, ◌==◌, if◌then◌else◌, length, get_or, take, drop, replicate, ◌>>=◌, ◌>>◌, fail_if, ok_or,
  map_ok, ok, err, panic, ◌+◌, min, max, bit_and, Bool, true, false, not, ◌&&◌, ◌||◌, Option, none,
  some, List, [], ◌∷◌, ◌++◌, ℕ,
}
use neon_core_atlas.Std.Bytes.{Bytes, bytes_eq, u16_be}
use neon_core_atlas.Std.Map.{lookup, insert}
use neon_core_atlas.Std.Net.{IpAddr, is_ipv6, parse_ip, is_ipv4}
use neon_core_atlas.Std.Net.Show.{show_ipv4, show_ipv6}
use neon_core_atlas.Std.Number.{show_u16}
use neon_core_atlas.Std.Text.{Text, ascii, to_ascii_lowercase, eq_ignore_ascii_case}

abbrev pub dns_cache_ttl : ℕ
dns_cache_ttl = 300

abbrev pub min_proxy_ttl : ℕ
min_proxy_ttl = 30

abbrev pub max_proxy_ttl : ℕ
max_proxy_ttl = 3600

pub record SocketAddr : Type 0 where
  pub ip : IpAddr
  pub port : ℕ

pub record ProxyDnsCacheEntry : Type 0 where
  pub expires_at : ℕ
  pub addresses : List SocketAddr
  pub source : Text

pub record BootstrapLookup : Type 0 where
  pub addresses : List IpAddr
  pub ttl : ℕ
  pub source : Text

pub record DohAnswer : Type 0 where
  pub record_type : ℕ
  pub ttl : Option ℕ
  pub data_text : Text

-- `DohResponse`, by its only field
abbrev pub DohResponse : Type 0
DohResponse = Option (List DohAnswer)

abbrev pub Cache : Type 0
Cache = List (Text × ProxyDnsCacheEntry)

-- `ip.to_ipv4_mapped()`: `::ffff:a.b.c.d` becomes `a.b.c.d`.
unfoldable pub normalize_ip : IpAddr → IpAddr
normalize_ip (IpAddr.v4 octets) = IpAddr.v4 octets
normalize_ip (IpAddr.v6 octets) =
    if bytes_eq (take 12 octets) (0 ∷ 0 ∷ 0 ∷ 0 ∷ 0 ∷ 0 ∷ 0 ∷ 0 ∷ 0 ∷ 0 ∷ 0xff ∷ 0xff ∷ [])
    then IpAddr.v4 (drop 12 octets)
    else IpAddr.v6 octets

-- `Display` of `IpAddr`
abbrev pub show_ip : IpAddr → Text
show_ip (IpAddr.v4 octets) = show_ipv4 octets
show_ip (IpAddr.v6 octets) = show_ipv6 octets

-- One cidr of `fake_ip_cidrs`: only this text is understood.
unfoldable pub is_fake_ip : Bytes → Text → Bool
is_fake_ip octets cidr =
    bytes_eq cidr (ascii "198.18.0.0/15")
    && get_or octets 0 0 == 198
    && (get_or octets 1 0 == 18 || get_or octets 1 0 == 19)

unfoldable pub none_fake : Bytes → List Text → Bool
none_fake octets [] = true
none_fake octets (cidr ∷ cidrs) = if is_fake_ip octets cidr then false else none_fake octets cidrs

-- `is_unspecified`, `is_link_local` and `is_broadcast` of an IPv4 address
abbrev pub is_unspecified : Bytes → Bool
is_unspecified octets = bytes_eq octets (0 ∷ 0 ∷ 0 ∷ 0 ∷ [])

abbrev pub is_link_local : Bytes → Bool
is_link_local octets = get_or octets 0 0 == 169 && get_or octets 1 0 == 254

abbrev pub is_broadcast : Bytes → Bool
is_broadcast octets = bytes_eq octets (255 ∷ 255 ∷ 255 ∷ 255 ∷ [])

unfoldable pub is_usable_ipv4 : Bytes → List Text → Bool
is_usable_ipv4 octets fake_ip_cidrs =
    if is_unspecified octets || is_link_local octets || is_broadcast octets
    then false
    else none_fake octets fake_ip_cidrs

-- `is_unspecified` and `is_unicast_link_local` of an IPv6 address
unfoldable pub is_usable_ipv6 : Bytes → Bool
is_usable_ipv6 octets = not (
    bytes_eq octets (replicate 16 0)
    || bit_and (u16_be (get_or octets 0 0) (get_or octets 1 0)) 0xffc0 == 0xfe80)

unfoldable pub is_usable_ip : KernelDnsConfig → IpAddr → Bool
is_usable_ip config (IpAddr.v4 octets) = is_usable_ipv4 octets config.fake_ip_cidrs
is_usable_ip config (IpAddr.v6 octets) = is_usable_ipv6 octets

-- `sort_by_key`, which keeps the order of elements with the same key
unfoldable pub insert_by_key : (SocketAddr → ℕ) → SocketAddr → List SocketAddr → List SocketAddr
insert_by_key key x [] = x ∷ []
insert_by_key key x (y ∷ ys) =
    if leb (key x) (key y) then x ∷ y ∷ ys else y ∷ insert_by_key key x ys

unfoldable pub sort_by_key : (SocketAddr → ℕ) → List SocketAddr → List SocketAddr
sort_by_key key [] = []
sort_by_key key (x ∷ xs) = insert_by_key key x (sort_by_key key xs)

abbrev pub address_key : Bool → SocketAddr → ℕ
address_key prefer_ipv6 a =
    if prefer_ipv6 then (if is_ipv6 a.ip then 0 else 1) else (if is_ipv4 a.ip then 0 else 1)

unfoldable pub sort_addresses : Bool → List SocketAddr → List SocketAddr
sort_addresses prefer_ipv6 addresses = sort_by_key (address_key prefer_ipv6) addresses

unfoldable pub normalize_ttl : ℕ → ℕ
normalize_ttl value = min (max value min_proxy_ttl) max_proxy_ttl

-- The `filter_map` over the answers, with the `ttl` that it assigns.
unfoldable pub read_answers : ℕ → List DohAnswer → List IpAddr × ℕ
read_answers ttl [] = ([], ttl)
read_answers ttl (answer ∷ answers) =
    let is_a = answer.record_type == 1 in
    let seen : ℕ =
      if is_a then (elim answer.ttl [ none ↦ ttl | some value ↦ normalize_ttl value ]) else ttl in
    let (addresses, last) = read_answers seen answers in
    let kept : List IpAddr = elim (parse_ip answer.data_text) [
      | none ↦ addresses
      | some ip ↦ ip ∷ addresses
    ] in
    (if is_a then kept else addresses, last)

-- `trim_end_matches('/')`
unfoldable pub trim_slashes : Text → Text
trim_slashes [] = []
trim_slashes (c ∷ s) = elim (trim_slashes s) [
  | [] ↦ if c == b'/' then [] else c ∷ []
  | d ∷ t ↦ c ∷ d ∷ t
]

unfoldable pub bootstrap_endpoints : KernelDnsConfig → List Text
bootstrap_endpoints config = elim config.proxy_bootstrap_nameservers [
  | [] ↦ default_dns.proxy_bootstrap_nameservers
  | n ∷ ns ↦ n ∷ ns
]

unfoldable pub find_host : Text → List KernelHostMapping → Option KernelHostMapping
find_host host [] = none
find_host host (entry ∷ hosts) =
    if eq_ignore_ascii_case entry.hostname host then some entry else find_host host hosts

unfoldable pub cache_key : TargetAddress → Text
cache_key target = to_ascii_lowercase target.host ++ (b':' ∷ show_u16 target.port)

-- The literal and the mapped address: usable after `normalize_ip`, or refused.
unfoldable pub admit : KernelDnsConfig → Text → ℕ → IpAddr → Anyhow (List SocketAddr)
admit config blocked port ip =
    if is_usable_ip config (normalize_ip ip)
    then ok (record { ip = normalize_ip ip; port = port } ∷ [])
    else err (blocked ++ show_ip (normalize_ip ip))

-- `map(normalize_ip)`, `filter(is_usable_ip)` and `map(SocketAddr::new)`
unfoldable pub usable_addresses : KernelDnsConfig → ℕ → List IpAddr → List SocketAddr
usable_addresses config port [] = []
usable_addresses config port (ip ∷ ips) =
    let rest = usable_addresses config port ips in
    if is_usable_ip config (normalize_ip ip)
    then record { ip = normalize_ip ip; port = port } ∷ rest
    else rest

-- A cached answer that has not expired.
unfoldable pub cached : Cache → ℕ → Text → Option (List SocketAddr)
cached cache now key = elim (lookup key cache) [
  | none ↦ none
  | some entry ↦ if ltb now entry.expires_at then some entry.addresses else none
]

module _ (fetch : Text → Anyhow DohResponse) (to_socket_addrs : Text → Anyhow (List IpAddr)) where
  unfoldable pub lookup_doh_endpoint : Text → Text → Anyhow BootstrapLookup
  lookup_doh_endpoint endpoint host = do
    let trimmed = trim_slashes endpoint
    response ← fetch (trimmed ++ (ascii "?name=" ++ (host ++ ascii "&type=A")))
    let answers : List DohAnswer = elim response [ none ↦ [] | some a ↦ a ]
    let read = read_answers dns_cache_ttl answers
    fail_if (length read.0 == 0) (ascii "DoH endpoint returned no A records: " ++ trimmed)
    ok (record { addresses = read.0; ttl = read.1; source = trimmed })

  -- The loop over the endpoints, with the last error so far.
  unfoldable pub lookup_endpoints : Text → Text → List Text → Anyhow BootstrapLookup
  lookup_endpoints host last [] = err last
  lookup_endpoints host last (endpoint ∷ endpoints) = elim (lookup_doh_endpoint endpoint host) [
    | ok found ↦ ok found
    | err e ↦ lookup_endpoints host e endpoints
    | panic ↦ panic
  ]

  unfoldable pub lookup_bootstrap : KernelDnsConfig → Text → Anyhow BootstrapLookup
  lookup_bootstrap config host =
      lookup_endpoints host (ascii "no proxy bootstrap DNS endpoints") (bootstrap_endpoints config)

  unfoldable pub lookup_system : Text → Anyhow BootstrapLookup
  lookup_system host = do
    addresses ← to_socket_addrs host
    fail_if (length addresses == 0) (ascii "system DNS returned no records")
    ok (record { addresses = addresses; ttl = dns_cache_ttl; source = ascii "system-dns" })

  unfoldable pub lookup_any : KernelDnsConfig → Text → Anyhow BootstrapLookup
  lookup_any config host = elim (lookup_bootstrap config host) [
    | ok found ↦ ok found
    | err e ↦ lookup_system host
    | panic ↦ panic
  ]

  -- What follows a miss in the cache.
  unfoldable pub resolve_miss :
      KernelDnsConfig → Cache → ℕ → TargetAddress → Anyhow (List SocketAddr × Cache)
  resolve_miss config cache later target = do
    found ← lookup_any config target.host
    let addresses =
        sort_addresses config.prefer_ipv6 (usable_addresses config target.port found.addresses)
    fail_if (length addresses == 0) (ascii "no usable proxy server address for " ++ target.host)
    ok (
      addresses,
      insert (cache_key target)
          (record { expires_at = later + found.ttl; addresses = addresses; source = found.source })
          cache,
    )

  -- `ProxyServerResolver::resolve`, with the cache that it leaves; a failure leaves the cache as it was.
  unfoldable pub resolve :
      KernelDnsConfig → Cache → ℕ → ℕ → TargetAddress → Anyhow (List SocketAddr × Cache)
  resolve config cache now later target = elim (parse_ip target.host) [
    | some ip ↦
        map_ok (λ a. (a, cache))
          (admit config (ascii "proxy server resolved to blocked address: ") target.port ip)
    | none ↦ elim (find_host target.host config.hosts) [
      | some entry ↦ ok_or (parse_ip entry.address) (ascii "invalid IP address syntax") >>= λ ip.
          map_ok (λ a. (a, cache))
            (admit config (ascii "proxy server host mapping points to blocked address: ")
              target.port ip)
      | none ↦ elim (cached cache now (cache_key target)) [
        | some addresses ↦ ok (addresses, cache)
        | none ↦ resolve_miss config cache later target
      ]
    ]
  ]
