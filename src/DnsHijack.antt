-- ===== src/DnsHijack.antt =====
-- crates/neoncore-dns/src/lib.rs: which flows are DNS and go to the resolver of the kernel.
pub mod Inspect
use neon_core_atlas.IpStack.{FlowProtocol, Flow}
use neon_core_atlas.Prelude.{
  ltb, ◌==◌, if◌then◌else◌, length, get_or, bit_and, Bool, true, false, not, ◌&&◌, ◌||◌, List, ◌∷◌,
  ℕ, [],
}
use neon_core_atlas.Std.Bytes.{Bytes, u16_be}
use neon_core_atlas.Std.Net.{IpAddr, ip_eq, is_ipv4}

pub record DnsHijackConfig : Type 0 where
  pub enabled : Bool
  pub port : ℕ
  pub ipv4_servers : List IpAddr
  pub ipv6_servers : List IpAddr

-- `Default`
abbrev pub default_config : DnsHijackConfig
default_config = record { enabled = true; port = 53; ipv4_servers = []; ipv6_servers = [] }

pub data DnsInterception : Type 0 where
  hijack : IpAddr → ℕ → DnsInterception
  pass : DnsInterception

unfoldable pub contains_ip : List IpAddr → IpAddr → Bool
unfolding ip_eq
contains_ip [] ip = false
contains_ip (x ∷ xs) ip = ip_eq x ip || contains_ip xs ip

abbrev pub is_udp : FlowProtocol → Bool
is_udp FlowProtocol.tcp = false
is_udp FlowProtocol.udp = true

abbrev pub is_nil : List IpAddr → Bool
is_nil [] = true
is_nil (x ∷ xs) = false

unfoldable pub inspect : DnsHijackConfig → Flow → DnsInterception
inspect config flow =
    let to = flow.destination in
    let hit = hijack to.address to.port in
    let servers : List IpAddr =
      if is_ipv4 to.address then config.ipv4_servers else config.ipv6_servers in
    if not config.enabled || not (is_udp flow.protocol) || not (to.port == config.port)
    then pass
    else if is_nil config.ipv4_servers && is_nil config.ipv6_servers
    then hit
    else if contains_ip servers to.address
    then hit
    else pass

-- The two reads of `looks_like_dns_query` stand behind the length test.
unfoldable pub looks_like_dns_query : Bytes → Bool
looks_like_dns_query payload =
    let flags = u16_be (get_or payload 2 0) (get_or payload 3 0) in
    let question_count = u16_be (get_or payload 4 0) (get_or payload 5 0) in
    if ltb (length payload) 12 then false else bit_and flags 0x8000 == 0 && ltb 0 question_count
