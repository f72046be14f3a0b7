-- ===== src/Tests/Names.antt =====
-- The theorems on name resolution and on the SOCKS datagrams of the kernel, at concrete inputs.

use neon_core_atlas.Kernel.Dns.{
  normalize_ttl, resolve_miss, lookup_any, lookup_bootstrap, lookup_endpoints, lookup_doh_endpoint,
  read_answers, sort_addresses, sort_by_key, insert_by_key, usable_addresses, is_usable_ip,
  is_usable_ipv4, none_fake, is_fake_ip, normalize_ip, cached, find_host, trim_slashes,
  bootstrap_endpoints, resolve, cache_key, DohResponse, Cache, SocketAddr,
}
use neon_core_atlas.Kernel.Dns.Caching.{resolve-again, resolve-expires}
use neon_core_atlas.Kernel.Dns.Usable.{IsAnswer, CacheIsUsable, resolve-IsAnswer}
use neon_core_atlas.Kernel.Session.{TargetAddress, default_dns}
use neon_core_atlas.Kernel.Socks.{Anyhow, build_socks_udp_packet, parse_socks_udp_packet}
use neon_core_atlas.Kernel.Socks.RoundTrip.{parse_socks_udp_packet-build, standard_host}
use neon_core_atlas.Prelude.{◌>>=◌, ok, err, ◌≡◌, refl, true, none, some, List, [], ◌∷◌, arith}
use neon_core_atlas.Std.Bytes.{bytes_eq}
use neon_core_atlas.Std.Map.{lookup, insert, remove}
use neon_core_atlas.Std.Net.{parse_ip, read_ipv4, read_ipv6, IpAddr}
use neon_core_atlas.Std.Number.{to_digit}
use neon_core_atlas.Std.Text.{Text, ascii, is_utf8_from, lead, is_utf8}

abbrev site : TargetAddress
site = record { host = ascii "x.org"; port = 443 }

-- One answer that may be kept for ten seconds, and one that may not be used.
abbrev fetch_one : Text → Anyhow DohResponse
fetch_one url = ok (
    some (
      record { record_type = 1; ttl = some 10; data_text = ascii "9.9.9.9" }
      ∷ record { record_type = 1; ttl = none; data_text = ascii "198.18.0.1" }
      ∷ []))

abbrev no_system : Text → Anyhow (List IpAddr)
no_system host = err (ascii "no system resolver")

abbrev answer : List SocketAddr
answer = record { ip = IpAddr.v4 (9 ∷ 9 ∷ 9 ∷ 9 ∷ []); port = 443 } ∷ []

abbrev after : Cache
after =
    (
      cache_key site,
      record { expires_at = 1030; addresses = answer; source = ascii "https://1.1.1.1/dns-query" },
    )
    ∷ []

resolved : resolve fetch_one no_system default_dns [] 1000 1000 site ≡ ok (answer, after)
unfolding resolve resolve_miss lookup_any lookup_bootstrap lookup_endpoints lookup_doh_endpoint
    read_answers normalize_ttl parse_ip read_ipv4 read_ipv6 sort_addresses sort_by_key insert_by_key
    usable_addresses is_usable_ip is_usable_ipv4 none_fake is_fake_ip normalize_ip cached lookup
    insert remove find_host trim_slashes bootstrap_endpoints bytes_eq to_digit
resolved = refl

empty_usable : CacheIsUsable default_dns []
unfolding lookup
empty_usable key entry h = cc

resolve-IsAnswer_example : IsAnswer default_dns answer × CacheIsUsable default_dns after
resolve-IsAnswer_example =
    resolve-IsAnswer default_dns fetch_one no_system [] 1000 1000 site (answer, after) empty_usable
      resolved

not_literal : parse_ip site.host ≡ none
unfolding parse_ip
not_literal = refl

not_mapped : find_host site.host default_dns.hosts ≡ none
unfolding find_host
not_mapped = refl

not_cached : cached [] 1000 (cache_key site) ≡ none
unfolding cached lookup
not_cached = refl

abbrev no_network : Text → Anyhow DohResponse
no_network url = err (ascii "unreachable")

resolve-again_example :
    resolve no_network no_system default_dns after 1029 1029 site ≡ ok (answer, after)
resolve-again_example =
    resolve-again fetch_one no_system default_dns site not_literal not_mapped [] 1000 1000
      (answer, after) not_cached resolved no_network no_system 1029 1029 (omega arith)

resolve-expires_example : cached after 4600 (cache_key site) ≡ none
resolve-expires_example =
    resolve-expires fetch_one no_system default_dns site not_literal not_mapped [] 1000 1000
      (answer, after) not_cached resolved 4600 (omega arith)

is_text : is_utf8 (ascii "x.org") ≡ true
unfolding is_utf8_from lead
is_text = refl

parse_socks_udp_packet-build_example :
    (build_socks_udp_packet site (1 ∷ 2 ∷ []) >>= parse_socks_udp_packet)
    ≡ ok (record { host = standard_host (ascii "x.org"); port = 443 }, 1 ∷ 2 ∷ [])
parse_socks_udp_packet-build_example =
    parse_socks_udp_packet-build site (1 ∷ 2 ∷ []) (omega arith) is_text (omega arith)
