-- ===== src/Kernel/Dns/Caching.antt =====
-- How long the resolver of proxy servers in crates/neoncore-kernel/src/dns.rs keeps an answer.

use neon_core_atlas.Kernel.Dns.{
  DohResponse, BootstrapLookup, DohAnswer, normalize_ttl, read_answers, lookup_doh_endpoint,
  lookup_endpoints, dns_cache_ttl, min_proxy_ttl, max_proxy_ttl, lookup_system, lookup_any,
  trim_slashes, lookup_bootstrap, bootstrap_endpoints, Cache, SocketAddr, ProxyDnsCacheEntry,
  cached, find_host, cache_key, resolve, resolve_miss,
}
use neon_core_atlas.Kernel.Session.{KernelDnsConfig, TargetAddress}
use neon_core_atlas.Kernel.Socks.{Anyhow}
use neon_core_atlas.Prelude.{
  ◌==◌, if◌then◌else◌, fail_if, >>=-ok, Outcome-cases, ok-injective, ok, ◌≤◌, ◌≡◌, subst, ◌∙◌, inl,
  inr, Bool, true, false, Option, none, some, List, [], ◌∷◌, arith, ℕ, length, ◌>>◌, panic, refl,
  ◌++◌, ltb, lt→ltb, le→ltb, ◌+◌, ◌<◌,
}
use neon_core_atlas.Std.Bytes.{bytes_eq_refl}
use neon_core_atlas.Std.Map.{lookup-insert, insert}
use neon_core_atlas.Std.Net.{IpAddr, parse_ip}
use neon_core_atlas.Std.Text.{Text, ascii}

-- What the source calls the minimum and the maximum.
abbrev pub InLimits : ℕ → Type 0
InLimits ttl = (min_proxy_ttl ≤ ttl) × (ttl ≤ max_proxy_ttl)

normalize_ttl-InLimits : (value : ℕ) → InLimits (normalize_ttl value)
unfolding normalize_ttl
normalize_ttl-InLimits value = (omega arith, omega arith)

read_answers-InLimits :
    (answers : List DohAnswer) (ttl : ℕ) → InLimits ttl → InLimits (read_answers ttl answers).1
unfolding read_answers
read_answers-InLimits [] ttl h = h
read_answers-InLimits (a ∷ answers) ttl h =
    read_answers-InLimits answers _ (kept (a.record_type == 1) a.ttl)
  where
    kept :
        (b : Bool) (o : Option ℕ)
        → InLimits (if b then (elim o [ none ↦ ttl | some value ↦ normalize_ttl value ]) else ttl)
    kept false o = h
    kept true none = h
    kept true (some value) = normalize_ttl-InLimits value

checked :
    (b : Bool) (message : Text) (l : BootstrapLookup) (m : Anyhow BootstrapLookup)
    → InLimits l.ttl
    → (fail_if b message >> ok l) ≡ m
    → (found : BootstrapLookup) → m ≡ ok found
    → InLimits found.ttl
checked true message l m h e found f = absurd cc
checked false message l m h e found f =
    subst (λ (x : BootstrapLookup). InLimits x.ttl) (ok-injective {E = Text} (e ∙ f)) h

module _ (fetch : Text → Anyhow DohResponse) (to_socket_addrs : Text → Anyhow (List IpAddr)) where
  doh_InLimits :
      (endpoint host : Text) (l : BootstrapLookup)
      → lookup_doh_endpoint fetch to_socket_addrs endpoint host ≡ ok l
      → InLimits l.ttl
  unfolding lookup_doh_endpoint
  doh_InLimits endpoint host l e =
      let (response, f, g) = >>=-ok (fetch _) _ e in
      let answers : List DohAnswer = elim response [ none ↦ [] | some a ↦ a ] in
      let read : List IpAddr × ℕ = read_answers dns_cache_ttl answers in
      checked (length read.0 == 0)
        (ascii "DoH endpoint returned no A records: " ++ trim_slashes endpoint)
        (record { addresses = read.0; ttl = read.1; source = trim_slashes endpoint }) _
        (read_answers-InLimits answers dns_cache_ttl (omega arith, omega arith)) refl l g

  system_InLimits :
      (host : Text) (l : BootstrapLookup)
      → lookup_system fetch to_socket_addrs host ≡ ok l
      → InLimits l.ttl
  unfolding lookup_system
  system_InLimits host l e =
      let (addresses, f, g) = >>=-ok (to_socket_addrs host) _ e in
      checked (length addresses == 0) (ascii "system DNS returned no records")
        (record { addresses = addresses; ttl = dns_cache_ttl; source = ascii "system-dns" }) _
        (omega arith, omega arith) refl l g

  endpoints_InLimits :
      (host last : Text) (endpoints : List Text) (l : BootstrapLookup)
      → lookup_endpoints fetch to_socket_addrs host last endpoints ≡ ok l
      → InLimits l.ttl
  unfolding lookup_endpoints
  endpoints_InLimits host last [] l e = absurd cc
  endpoints_InLimits host last (endpoint ∷ endpoints) l e =
      elim (Outcome-cases (lookup_doh_endpoint fetch to_socket_addrs endpoint host)) [
        | inl (m, h) ↦ doh_InLimits endpoint host l (h ∙ rw (h, lookup_endpoints) at e)
        | inr (inl (m, h)) ↦ endpoints_InLimits host m endpoints l (rw (h, lookup_endpoints) at e)
        | inr (inr h) ↦ absurd (panicked (rw (h, lookup_endpoints) at e))
      ]
    where
      panicked : {x : BootstrapLookup} → ◌≡◌ {A = Anyhow BootstrapLookup} panic (ok x) → ⊥
      panicked e = cc

  any_InLimits :
      (config : KernelDnsConfig) (host : Text) (l : BootstrapLookup)
      → lookup_any fetch to_socket_addrs config host ≡ ok l
      → InLimits l.ttl
  unfolding lookup_any lookup_bootstrap
  any_InLimits config host l e =
      elim (Outcome-cases (lookup_bootstrap fetch to_socket_addrs config host)) [
        | inl (m, h) ↦
            endpoints_InLimits host _ (bootstrap_endpoints config) l (h ∙ rw (h, lookup_any) at e)
        | inr (inl (m, h)) ↦ system_InLimits host l (rw (h, lookup_any) at e)
        | inr (inr h) ↦ absurd (panicked (rw (h, lookup_any) at e))
      ]
    where
      panicked : {x : BootstrapLookup} → ◌≡◌ {A = Anyhow BootstrapLookup} panic (ok x) → ⊥
      panicked e = cc

-- The answer of a cache for the key just written.
cached-insert :
    (cache : Cache) (key : Text) (entry : ProxyDnsCacheEntry) (t : ℕ)
    → cached (insert key entry cache) t key
      ≡ (if ltb t entry.expires_at then some entry.addresses else none)
unfolding cached
cached-insert cache key entry t =
    rw (lookup-insert key key entry cache, bytes_eq_refl key, cached) refl

-- What a pass through the network leaves.
abbrev pub Keeps : ℕ → TargetAddress → List SocketAddr × Cache → Type 0
Keeps later target found =
    (t : ℕ)
    → ((t < later + min_proxy_ttl → cached found.1 t (cache_key target) ≡ some found.0)
        × (later + max_proxy_ttl ≤ t → cached found.1 t (cache_key target) ≡ none))

written_Keeps :
    (b : Bool) (message : Text) (cache : Cache) (later : ℕ) (target : TargetAddress)
    (entry : ProxyDnsCacheEntry) (found : List SocketAddr × Cache)
    → (later + min_proxy_ttl ≤ entry.expires_at) × (entry.expires_at ≤ later + max_proxy_ttl)
    → (fail_if b message >> ok (entry.addresses, insert (cache_key target) entry cache)) ≡ ok found
    → Keeps later target found
written_Keeps true message cache later target entry found h e = absurd cc
written_Keeps false message cache later target entry found (low, high) e =
    subst (Keeps later target) (ok-injective {E = Text} e) (λ t. (
      (λ h.
          cached-insert cache (cache_key target) entry t
          ∙ rw (lt→ltb t entry.expires_at (omega arith)) refl),
      (λ h.
          cached-insert cache (cache_key target) entry t
          ∙ rw (le→ltb t entry.expires_at (omega arith)) refl),
    ))

-- Whatever the network would say, an answer in the cache is taken.
by_cache :
    (config : KernelDnsConfig) (target : TargetAddress)
    → parse_ip target.host ≡ none
    → find_host target.host config.hosts ≡ none
    → (cache : Cache) (now : ℕ) (l : List SocketAddr) → cached cache now (cache_key target) ≡ some l
    → (fetch : Text → Anyhow DohResponse) (to_socket_addrs : Text → Anyhow (List IpAddr))
      (later : ℕ)
    → resolve fetch to_socket_addrs config cache now later target ≡ ok (l, cache)
unfolding resolve
by_cache config target named unmapped cache now l h fetch to_socket_addrs later =
    rw (named, unmapped, h, resolve) refl

module _ (fetch : Text → Anyhow DohResponse) (to_socket_addrs : Text → Anyhow (List IpAddr))
    (config : KernelDnsConfig) (target : TargetAddress) (named : parse_ip target.host ≡ none)
    (unmapped : find_host target.host config.hosts ≡ none) where
  miss_Keeps :
      (cache : Cache) (now later : ℕ) (found : List SocketAddr × Cache)
      → cached cache now (cache_key target) ≡ none
      → resolve fetch to_socket_addrs config cache now later target ≡ ok found
      → Keeps later target found
  unfolding resolve resolve_miss
  miss_Keeps cache now later found miss e =
      let (l, f, g) =
        >>=-ok (lookup_any fetch to_socket_addrs config target.host) _
          (rw (named, unmapped, miss, resolve) at e) in
      let (low, high) = any_InLimits fetch to_socket_addrs config target.host l f in
      written_Keeps _ _ cache later target
        (record { expires_at = later + l.ttl; addresses = _; source = l.source }) found
        (omega arith, omega arith) g

  -- A name that took the network is answered from the cache, with the same addresses and the cache left
  -- as it is, for the next thirty seconds at least, when it is neither a literal address nor in the table
  -- of hosts. Whatever the network and the resolver of the system say then, failures included, makes no
  -- difference.
  pub resolve-again :
      (cache : Cache) (now later : ℕ) (found : List SocketAddr × Cache)
      → cached cache now (cache_key target) ≡ none
      → resolve fetch to_socket_addrs config cache now later target ≡ ok found
      → (fetch' : Text → Anyhow DohResponse) (to_socket_addrs' : Text → Anyhow (List IpAddr))
      → (t later' : ℕ) → t < later + 30
      → resolve fetch' to_socket_addrs' config found.1 t later' target ≡ ok found
  resolve-again cache now later found miss e fetch' to_socket_addrs' t later' h =
      by_cache config target named unmapped found.1 t found.0
        ((miss_Keeps cache now later found miss e t).0 h) fetch' to_socket_addrs' later'

  -- An answer that took the network is not served from the cache any more an hour later, whatever
  -- lifetime the network claimed for it, when the name is neither a literal address nor in the table of
  -- hosts.
  pub resolve-expires :
      (cache : Cache) (now later : ℕ) (found : List SocketAddr × Cache)
      → cached cache now (cache_key target) ≡ none
      → resolve fetch to_socket_addrs config cache now later target ≡ ok found
      → (t : ℕ) → later + 3600 ≤ t
      → cached found.1 t (cache_key target) ≡ none
  resolve-expires cache now later found miss e t h = (miss_Keeps cache now later found miss e t).1 h
