-- ===== src/Kernel/Dns/Usable.antt =====
-- What the resolver of proxy servers in crates/neoncore-kernel/src/dns.rs may answer.

use neon_core_atlas.Kernel.Dns.{
  Cache, SocketAddr, ProxyDnsCacheEntry, is_usable_ip, insert_by_key, sort_by_key, admit,
  usable_addresses, cached, normalize_ip, DohResponse, resolve_miss, resolve, sort_addresses,
  find_host, lookup_any, cache_key,
}
use neon_core_atlas.Kernel.Session.{KernelDnsConfig, TargetAddress}
use neon_core_atlas.Kernel.Socks.{Anyhow}
use neon_core_atlas.Prelude.{
  leb, Bool-cases, length, All, ok-injective, ok, ◌<◌, ◌≡◌, subst, inl, inr, true, some, List, [],
  ◌∷◌, arith, ℕ, ltb, if◌then◌else◌, err, refl, sym, ◌∙◌, Option, none, some_eq, ◌==◌, Option-cases,
  ◌>>◌, fail_if, ok_or, map_ok, >>=-ok, ◌+◌, ap,
}
use neon_core_atlas.Std.Bytes.{bytes_eq}
use neon_core_atlas.Std.Map.{lookup, insert, lookup-insert}
use neon_core_atlas.Std.Net.{IpAddr, parse_ip}
use neon_core_atlas.Std.Text.{Text}

module _ (config : KernelDnsConfig) where
  abbrev pub IsUsable : SocketAddr → Type 0
  IsUsable a = is_usable_ip config a.ip ≡ true

  -- An answer: at least one address, all of them usable.
  abbrev pub IsAnswer : List SocketAddr → Type 0
  IsAnswer found = (0 < length found) × All IsUsable found

  abbrev pub CacheIsUsable : Cache → Type 0
  CacheIsUsable cache =
      (key : Text) (entry : ProxyDnsCacheEntry)
      → lookup key cache ≡ some entry
      → IsAnswer entry.addresses

  usable_addresses-IsUsable :
      (port : ℕ) (ips : List IpAddr) → All IsUsable (usable_addresses config port ips)
  unfolding usable_addresses
  usable_addresses-IsUsable port [] = tt
  usable_addresses-IsUsable port (ip ∷ ips) =
      elim (Bool-cases (is_usable_ip config (normalize_ip ip))) [
        | inl h ↦ rw (h) (h, usable_addresses-IsUsable port ips)
        | inr h ↦ rw (h) (usable_addresses-IsUsable port ips)
      ]

  insert_by_key-IsUsable :
      (key : SocketAddr → ℕ) (x : SocketAddr) (ys : List SocketAddr)
      → IsUsable x
      → All IsUsable ys
      → All IsUsable (insert_by_key key x ys)
  unfolding insert_by_key
  insert_by_key-IsUsable key x [] h k = (h, tt)
  insert_by_key-IsUsable key x (y ∷ ys) h (k, ks) = elim (Bool-cases (leb (key x) (key y))) [
    | inl e ↦ rw (e) (h, (k, ks))
    | inr e ↦ rw (e) (k, insert_by_key-IsUsable key x ys h ks)
  ]

  sort_by_key-IsUsable :
      (key : SocketAddr → ℕ) (xs : List SocketAddr)
      → All IsUsable xs
      → All IsUsable (sort_by_key key xs)
  unfolding sort_by_key
  sort_by_key-IsUsable key [] h = tt
  sort_by_key-IsUsable key (x ∷ xs) (h, hs) =
      insert_by_key-IsUsable key x (sort_by_key key xs) h (sort_by_key-IsUsable key xs hs)

  refused : {e : Text} {l : List SocketAddr} → ◌≡◌ {A = Anyhow (List SocketAddr)} (err e) (ok l) → ⊥
  refused e = cc

  admit-IsAnswer :
      (blocked : Text) (port : ℕ) (ip : IpAddr) (found : List SocketAddr)
      → admit config blocked port ip ≡ ok found
      → IsAnswer found
  unfolding admit
  admit-IsAnswer blocked port ip found e =
      elim (Bool-cases (is_usable_ip config (normalize_ip ip))) [
        | inl h ↦ subst IsAnswer (ok-injective (rw h at e)) (omega arith, (h, tt))
        | inr h ↦ absurd (refused (rw h at e))
      ]

  cached_cases :
      (now : ℕ) (o : Option ProxyDnsCacheEntry) (found : List SocketAddr)
      → ((entry : ProxyDnsCacheEntry) → o ≡ some entry → IsAnswer entry.addresses)
      → (elim o as (λ _. Option (List SocketAddr)) [
        | none ↦ none
        | some entry ↦ if ltb now entry.expires_at then some entry.addresses else none
      ])
        ≡ some found
      → IsAnswer found
  cached_cases now none found good e = absurd cc
  cached_cases now (some entry) found good e = elim (Bool-cases (ltb now entry.expires_at)) [
    | inl h ↦ subst IsAnswer (some_eq (rw h at e)) (good entry refl)
    | inr h ↦ absurd (none_found (rw h at e))
  ]
    where
      none_found : {l : List SocketAddr} → none ≡ some l → ⊥
      none_found e = cc

  cached-IsAnswer :
      (cache : Cache) (now : ℕ) (key : Text) (found : List SocketAddr)
      → CacheIsUsable cache
      → cached cache now key ≡ some found
      → IsAnswer found
  unfolding cached
  cached-IsAnswer cache now key found good e =
      cached_cases now (lookup key cache) found (good key) e

  insert-CacheIsUsable :
      (cache : Cache) (key : Text) (entry : ProxyDnsCacheEntry)
      → CacheIsUsable cache
      → IsAnswer entry.addresses
      → CacheIsUsable (insert key entry cache)
  insert-CacheIsUsable cache key entry good h k e l = elim (Bool-cases (bytes_eq key k)) [
    | inl y ↦ subst (λ (x : ProxyDnsCacheEntry). IsAnswer x.addresses) (some_eq (rw y at looked)) h
    | inr n ↦ good k e (rw n at looked)
  ]
    where
      looked : (if bytes_eq key k then some entry else lookup k cache) ≡ some e
      looked = sym (lookup-insert key k entry cache) ∙ l

  miss_IsAnswer :
      (cache : Cache) (key : Text) (entry : ProxyDnsCacheEntry) (message : Text)
      (found : List SocketAddr × Cache)
      → CacheIsUsable cache
      → All IsUsable entry.addresses
      → (fail_if (length entry.addresses == 0) message
          >> ok (entry.addresses, insert key entry cache))
        ≡ ok found
      → IsAnswer found.0 × CacheIsUsable found.1
  miss_IsAnswer cache key entry message found good usable e =
      elim (Bool-cases (length entry.addresses == 0)) [
        | inl h ↦ absurd (refused_pair (rw h at e))
        | inr h ↦
            subst (λ (r : List SocketAddr × Cache). IsAnswer r.0 × CacheIsUsable r.1)
              (ok-injective {E = Text} (rw h at e))
              (
                (ground arith, usable),
                insert-CacheIsUsable cache key entry good (ground arith, usable),
              )
      ]
    where
      refused_pair :
          {m : Text} {r : List SocketAddr × Cache}
          → ◌≡◌ {A = Anyhow (List SocketAddr × Cache)} (err m) (ok r)
          → ⊥
      refused_pair e = cc

  module _ (fetch : Text → Anyhow DohResponse) (to_socket_addrs : Text → Anyhow (List IpAddr)) where
    resolve_miss-IsAnswer :
        (cache : Cache) (later : ℕ) (target : TargetAddress) (found : List SocketAddr × Cache)
        → CacheIsUsable cache
        → resolve_miss fetch to_socket_addrs config cache later target ≡ ok found
        → IsAnswer found.0 × CacheIsUsable found.1
    unfolding resolve_miss sort_addresses
    resolve_miss-IsAnswer cache later target found good e =
        let (l, f, g) = >>=-ok (lookup_any fetch to_socket_addrs config target.host) _ e in
        miss_IsAnswer cache (cache_key target)
          (record {
            expires_at = later + l.ttl;
            addresses =
                sort_addresses config.prefer_ipv6 (usable_addresses config target.port l.addresses);
            source = l.source;
          })
          _ found good
          (sort_by_key-IsUsable _ _ (usable_addresses-IsUsable target.port l.addresses)) g

    unchanged :
        (cache : Cache) (m : Anyhow (List SocketAddr)) (found : List SocketAddr × Cache)
        → CacheIsUsable cache
        → ((l : List SocketAddr) → m ≡ ok l → IsAnswer l)
        → map_ok (λ a. (a, cache)) m ≡ ok found
        → IsAnswer found.0 × CacheIsUsable found.1
    unchanged cache m found good answers e =
        let (l, f, g) = >>=-ok m (λ a. ok (a, cache)) e in
        subst (λ (r : List SocketAddr × Cache). IsAnswer r.0 × CacheIsUsable r.1)
          (ok-injective {E = Text} g) (answers l f, good)

    -- Whatever the network answers, a host name, a mapping or a literal resolves to at least one address,
    -- and only to usable ones, and the cache keeps that promise for the next calls.
    pub resolve-IsAnswer :
        (cache : Cache) (now later : ℕ) (target : TargetAddress) (found : List SocketAddr × Cache)
        → CacheIsUsable cache
        → resolve fetch to_socket_addrs config cache now later target ≡ ok found
        → IsAnswer found.0 × CacheIsUsable found.1
    unfolding resolve
    resolve-IsAnswer cache now later target found good e =
        elim (Option-cases (parse_ip target.host)) [
          | inr (ip, h) ↦
              unchanged cache _ found good (admit-IsAnswer _ target.port ip) (rw (h, resolve) at e)
          | inl h ↦ elim (Option-cases (find_host target.host config.hosts)) [
            | inr (entry, i) ↦
                let (ip, f, g) =
                  >>=-ok (ok_or (parse_ip entry.address) _) _ (rw (h, i, resolve) at e) in
                unchanged cache _ found good (admit-IsAnswer _ target.port ip) g
            | inl i ↦ elim (Option-cases (cached cache now (cache_key target))) [
              | inr (l, j) ↦
                  unchanged cache (ok l) found good
                    (λ k f.
                      cached-IsAnswer cache now (cache_key target) k good
                        (j ∙ ap some (ok-injective f)))
                    (rw (h, i, j, resolve) at e)
              | inl j ↦
                  resolve_miss-IsAnswer cache later target found good (rw (h, i, j, resolve) at e)
            ]
          ]
        ]
