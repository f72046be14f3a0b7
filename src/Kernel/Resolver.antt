-- ===== src/Kernel/Resolver.antt =====
-- `DnsResolver` of crates/neoncore-kernel/src/dns.rs, the resolver of direct targets. `lookup_host` stands
-- for the resolver of the system; `now` and `later` are the two readings of the clock.
pub mod Hosts
use neon_core_atlas.Kernel.Dns.{
  find_host, cache_key, dns_cache_ttl, sort_by_key, address_key, SocketAddr,
}
use neon_core_atlas.Kernel.Session.{KernelDnsConfig, TargetAddress}
use neon_core_atlas.Kernel.Socks.{Anyhow}
use neon_core_atlas.Prelude.{
  ltb, if◌then◌else◌, ◌>>=◌, ok_or, ◌>>◌, map_ok, ok, ◌+◌, true, Option, none, some, List, [], ◌∷◌,
  ℕ,
}
use neon_core_atlas.Std.Map.{lookup, insert}
use neon_core_atlas.Std.Net.{parse_ip}
use neon_core_atlas.Std.Text.{Text, ascii}

pub record DnsCacheEntry : Type 0 where
  pub expires_at : ℕ
  pub addresses : List SocketAddr

abbrev pub HostCache : Type 0
HostCache = List (Text × DnsCacheEntry)

unfoldable pub fresh : HostCache → ℕ → Text → Option (List SocketAddr)
fresh cache now key = elim (lookup key cache) [
  | none ↦ none
  | some entry ↦ if ltb now entry.expires_at then some entry.addresses else none
]

-- What follows a miss in the cache.
unfoldable pub look_up :
    (TargetAddress → Anyhow (List SocketAddr))
    → KernelDnsConfig
    → HostCache
    → ℕ
    → TargetAddress
    → Anyhow (List SocketAddr × HostCache)
look_up lookup_host config cache later target = do
  found ← lookup_host target
  let addresses : List SocketAddr =
      if config.prefer_ipv6 then sort_by_key (address_key true) found else found
  ok (
    addresses,
    insert (cache_key target) (record { expires_at = later + dns_cache_ttl; addresses = addresses })
        cache,
  )

-- `DnsResolver::resolve`, with the cache that it leaves.
unfoldable pub resolve_host :
    (TargetAddress → Anyhow (List SocketAddr))
    → KernelDnsConfig
    → HostCache
    → ℕ
    → ℕ
    → TargetAddress
    → Anyhow (List SocketAddr × HostCache)
resolve_host lookup_host config cache now later target = elim (parse_ip target.host) [
  | some ip ↦ ok (record { ip = ip; port = target.port } ∷ [], cache)
  | none ↦ elim (find_host target.host config.hosts) [
    | some entry ↦
        map_ok (λ ip. (record { ip = ip; port = target.port } ∷ [], cache))
          (ok_or (parse_ip entry.address) (ascii "invalid IP address syntax"))
    | none ↦ elim (fresh cache now (cache_key target)) [
      | some addresses ↦ ok (addresses, cache)
      | none ↦ look_up lookup_host config cache later target
    ]
  ]
]
