-- ===== src/Kernel/Session.antt =====
-- crates/neoncore-kernel/src/session.rs. `Json` stands for `serde_json::Value`, which only the adapters
-- look into.

use neon_core_atlas.Prelude.{Bool, false, Option, List, [], ◌∷◌, ℕ}
use neon_core_atlas.Std.Text.{Text, ascii}

pub record KernelNode (Json : Type 0) : Type 0 where
  pub id : Option Text
  pub protocol : Text
  pub server : Text
  pub server_port : ℕ
  pub user_id : Text
  pub parameters : Json

pub data KernelRoutingMode : Type 0 where
  global rule direct : KernelRoutingMode

pub data KernelRuleMatcher : Type 0 where
  domain domain_suffix domain_keyword cidr : Text → KernelRuleMatcher

pub data KernelRouteAction : Type 0 where
  proxy : Option Text → KernelRouteAction
  direct reject : KernelRouteAction

pub record KernelRouteRule : Type 0 where
  pub id : Text
  pub matcher : KernelRuleMatcher
  pub action : KernelRouteAction
  pub enabled : Bool

pub record KernelRoutingConfig : Type 0 where
  pub mode : KernelRoutingMode
  pub rules : List KernelRouteRule

pub record KernelHostMapping : Type 0 where
  pub hostname : Text
  pub address : Text

pub record KernelDnsConfig : Type 0 where
  pub hosts : List KernelHostMapping
  pub prefer_ipv6 : Bool
  pub proxy_bootstrap_nameservers : List Text
  pub fake_ip_cidrs : List Text

-- `Default`, with `default_proxy_bootstrap_nameservers` and `default_fake_ip_cidrs`
abbrev pub default_dns : KernelDnsConfig
default_dns = record {
  hosts = [];
  prefer_ipv6 = false;
  proxy_bootstrap_nameservers =
      ascii "https://1.1.1.1/dns-query"
      ∷ ascii "https://1.0.0.1/dns-query"
      ∷ ascii "https://8.8.8.8/resolve"
      ∷ [];
  fake_ip_cidrs = ascii "198.18.0.0/15" ∷ [];
}

pub record KernelSession (Json : Type 0) : Type 0 where
  pub listen_host : Text
  pub listen_port : ℕ
  pub selected_node : KernelNode Json
  pub nodes : List (KernelNode Json)
  pub routing : KernelRoutingConfig
  pub dns : KernelDnsConfig

pub record TargetAddress : Type 0 where
  pub host : Text
  pub port : ℕ
