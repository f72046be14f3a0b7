-- ===== src/Tests/Hosts.antt =====
-- The theorem on the resolver of direct targets, at a concrete input.
use neon_core_atlas.Kernel.Dns.{find_host, cache_key, SocketAddr}
use neon_core_atlas.Kernel.Resolver.{fresh, look_up, resolve_host, HostCache}
use neon_core_atlas.Kernel.Session.{TargetAddress, default_dns}
use neon_core_atlas.Kernel.Socks.{Anyhow}
use neon_core_atlas.Prelude.{ok, err, ◌≡◌, refl, none, List, [], ◌∷◌}
use neon_core_atlas.Std.Map.{lookup, insert, remove}
use neon_core_atlas.Std.Net.{parse_ip, IpAddr}
use neon_core_atlas.Std.Text.{ascii}

abbrev site : TargetAddress
site = record { host = ascii "x.org"; port = 443 }

abbrev address : SocketAddr
address = record { ip = IpAddr.v4 (9 ∷ 9 ∷ 9 ∷ 9 ∷ []); port = 443 }

abbrev system : TargetAddress → Anyhow (List SocketAddr)
system target = ok (address ∷ [])

abbrev offline : TargetAddress → Anyhow (List SocketAddr)
offline target = err (ascii "offline")

abbrev after : HostCache
after = (cache_key site, record { expires_at = 1300; addresses = address ∷ [] }) ∷ []

resolved : resolve_host system default_dns [] 1000 1000 site ≡ ok (address ∷ [], after)
unfolding resolve_host look_up fresh parse_ip find_host lookup insert remove
resolved = refl

not_literal : parse_ip site.host ≡ none
unfolding parse_ip
not_literal = refl

not_mapped : find_host site.host default_dns.hosts ≡ none
unfolding find_host
not_mapped = refl

not_cached : fresh [] 1000 (cache_key site) ≡ none
unfolding fresh lookup
not_cached = refl
