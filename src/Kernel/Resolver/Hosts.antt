-- ===== src/Kernel/Resolver/Hosts.antt =====
-- What `DnsResolver` of crates/neoncore-kernel/src/dns.rs answers a second time.

use neon_core_atlas.Kernel.Dns.{SocketAddr, cache_key, find_host}
use neon_core_atlas.Kernel.Resolver.{HostCache, DnsCacheEntry, fresh, look_up, resolve_host}
use neon_core_atlas.Kernel.Session.{KernelDnsConfig, TargetAddress}
use neon_core_atlas.Kernel.Socks.{Anyhow}
use neon_core_atlas.Prelude.{
  ltb, if◌then◌else◌, lt→ltb, >>=-ok, ok-injective, ok, ◌+◌, ◌<◌, ◌≡◌, refl, subst, ◌∙◌, none, some,
  List, ℕ,
}
use neon_core_atlas.Std.Bytes.{bytes_eq_refl}
use neon_core_atlas.Std.Map.{lookup-insert, insert}
use neon_core_atlas.Std.Net.{parse_ip}
use neon_core_atlas.Std.Text.{Text}

fresh-insert :
    (cache : HostCache) (key : Text) (entry : DnsCacheEntry) (t : ℕ)
    → fresh (insert key entry cache) t key
      ≡ (if ltb t entry.expires_at then some entry.addresses else none)
unfolding fresh
fresh-insert cache key entry t =
    rw (lookup-insert key key entry cache, bytes_eq_refl key, fresh) refl

look_up-fresh :
    (lookup_host : TargetAddress → Anyhow (List SocketAddr)) (config : KernelDnsConfig)
    (cache : HostCache) (later : ℕ) (target : TargetAddress) (found : List SocketAddr × HostCache)
    → look_up lookup_host config cache later target ≡ ok found
    → (t : ℕ) → t < later + 300
    → fresh found.1 t (cache_key target) ≡ some found.0
unfolding look_up
look_up-fresh lookup_host config cache later target found e t h =
    let (l, f, g) = >>=-ok (lookup_host target) _ e in
    subst (λ (r : List SocketAddr × HostCache). fresh r.1 t (cache_key target) ≡ some r.0)
      (ok-injective {E = Text} g)
      (fresh-insert cache (cache_key target) _ t ∙ rw (lt→ltb t (later + 300) h) refl)

-- A name that the system resolved is answered from the cache for five minutes, with the same addresses
-- and whatever the system would say then, when it is neither an address nor in the table of hosts.
pub resolve_host-again :
    (lookup_host other : TargetAddress → Anyhow (List SocketAddr)) (config : KernelDnsConfig)
    (cache : HostCache) (now later : ℕ) (target : TargetAddress)
    (found : List SocketAddr × HostCache)
    → parse_ip target.host ≡ none
    → find_host target.host config.hosts ≡ none
    → fresh cache now (cache_key target) ≡ none
    → resolve_host lookup_host config cache now later target ≡ ok found
    → (t later' : ℕ) → t < later + 300
    → resolve_host other config found.1 t later' target ≡ ok found
unfolding resolve_host
resolve_host-again lookup_host other config cache now later target found named unmapped miss e t
      later' h =
    rw
      (
        named,
        unmapped,
        look_up-fresh lookup_host config cache later target found
            (rw (named, unmapped, miss, resolve_host) at e) t h,
        resolve_host,
      )
      refl
