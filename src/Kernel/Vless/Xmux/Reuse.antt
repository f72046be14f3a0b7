-- ===== src/Kernel/Vless/Xmux/Reuse.antt =====
-- How often a pooled connection is handed out (crates/neoncore-kernel/src/adapter/vless.rs).

use neon_core_atlas.Kernel.Vless.Xmux.{
  XHttpXmuxConfig, XHttpH2XmuxClient, XHttpH2XmuxManager, retain, get_client,
  consume_connection_reuse, has_usage, new_client, new_counters, is_usable,
  should_open_more_connections, reuse_or_open, candidate, under_limit,
}
use neon_core_atlas.Kernel.Vless.Xmux.Uses.{
  start, step, get, change, new_pool, count, record_get, Spent, All-retain, is_usable-has_usage,
  All-min, Spent-consume, Spent-open, Spent-later, Spent-change, Pool, Step, Reach, IsCounted,
  retained, count_self, count_other, count_le, has_usage_pos,
}
use neon_core_atlas.Prelude.{
  ◌==◌, Bool-cases, All, suc, ◌+◌, ◌≤◌, ◌<◌, ◌≡◌, subst, inl, inr, Bool, true, some, List, ◌∷◌,
  arith, ℕ, ◌-◌, refl, ◌∙◌, false, lt→ltb, All-append, sym, Option-cases, length, ◌||◌,
}

module _ (config : XHttpXmuxConfig) (limited : 0 < config.c_max_reuse_times) where
  fresh-Spent :
      (now next : ℕ) (handed : List ℕ) (c : XHttpXmuxConfig)
      → c ≡ config
      → count next handed ≡ 0
      → Spent config.c_max_reuse_times (suc next) (next ∷ handed) (new_counters c now next)
  unfolding new_counters
  fresh-Spent now next handed c e h =
      subst
        (λ (d : XHttpXmuxConfig).
          Spent config.c_max_reuse_times (suc next) (next ∷ handed) (new_counters d now next))
        (sym e)
        (
          config.c_max_reuse_times - 1,
          rw (lt→ltb 0 config.c_max_reuse_times limited) refl,
          omega (arith, count_self next handed),
          omega arith,
        )

  opened-bounded :
      (p : Pool) (a : ℕ)
      → IsCounted config p
      → count a (p.next ∷ p.handed) ≤ config.c_max_reuse_times
  opened-bounded p a h = elim (Bool-cases (p.next == a)) [
    | inl e ↦ omega (arith, count_le a p.next p.handed, h.unused a (ground (arith, e)))
    | inr e ↦ omega (arith, count_other a p.next p.handed e, h.bounded a)
  ]

  new_client-IsCounted :
      (p : Pool) (now : ℕ) (opened : Bool)
      → IsCounted config p
      → IsCounted config (record_get p.next p.handed (new_client now p.next opened p.manager))
  unfolding new_client record_get
  new_client-IsCounted p now false h = record {
    same = h.same;
    spent = Spent-later config.c_max_reuse_times p.next p.handed p.manager.clients h.spent;
    bounded = h.bounded;
    unused = λ a k. h.unused a (omega arith);
  }
  new_client-IsCounted p now true h = record {
    same = h.same;
    spent =
        All-append (Spent config.c_max_reuse_times (suc p.next) (p.next ∷ p.handed))
          p.manager.clients _
          (Spent-open config.c_max_reuse_times p.next p.handed p.manager.clients h.spent)
          (
            fresh-Spent now p.next p.handed p.manager.config h.same (h.unused p.next (omega arith)),
            tt,
          );
    bounded = λ a. opened-bounded p a h;
    unused = λ a k. count_other a p.next p.handed (ground (arith, k)) ∙ h.unused a (omega arith);
  }

  reused-bounded :
      (p : Pool) (c : XHttpH2XmuxClient) (k a : ℕ)
      → IsCounted config p
      → count c.arc p.handed + k ≤ config.c_max_reuse_times
      → 1 ≤ k
      → count a (c.arc ∷ p.handed) ≤ config.c_max_reuse_times
  reused-bounded p c k a h l j = elim (Bool-cases (c.arc == a)) [
    | inl e ↦
        subst (λ (x : ℕ). count x (c.arc ∷ p.handed) ≤ config.c_max_reuse_times) (same_arc e)
          (omega (arith, count_self c.arc p.handed))
    | inr e ↦ omega (arith, count_other a c.arc p.handed e, h.bounded a)
  ]
    where
      same_arc : (c.arc == a) ≡ true → c.arc ≡ a
      same_arc e = ground (arith, e)

  -- A usable client is handed out again.
  reuse-IsCounted :
      (p : Pool) (c : XHttpH2XmuxClient)
      → IsCounted config p
      → All (λ (d : XHttpH2XmuxClient). has_usage d.left_usage ≡ true) p.manager.clients
      → Spent config.c_max_reuse_times p.next p.handed c
      → has_usage c.left_usage ≡ true
      → IsCounted config (
          record_get p.next p.handed (
            some c.arc,
            record p.manager { clients = consume_connection_reuse c.arc p.manager.clients },
          ))
  unfolding record_get
  reuse-IsCounted p c h us (k, e, l, f) u = record {
    same = h.same;
    spent =
        Spent-later config.c_max_reuse_times p.next (c.arc ∷ p.handed) _ (
          Spent-consume config.c_max_reuse_times p.next c.arc p.handed p.manager.clients h.spent
            us);
    bounded = λ a. reused-bounded p c k a h l (has_usage_pos k (rw e at u));
    unused = λ a j. count_other a c.arc p.handed (ground (arith, f, j)) ∙ h.unused a (omega arith);
  }

  -- The clients that are left after the unusable ones are dropped.
  usable_pool : Pool → ℕ → Pool
  usable_pool p now = record p {
    manager = record p.manager { clients = retain (is_usable now) p.manager.clients };
  }

  usable_pool-IsCounted :
      (p : Pool) (now : ℕ) → IsCounted config p → IsCounted config (usable_pool p now)
  unfolding usable_pool
  usable_pool-IsCounted p now h = record {
    same = h.same;
    spent = All-retain _ (is_usable now) p.manager.clients h.spent;
    bounded = h.bounded;
    unused = h.unused;
  }

  chosen-IsCounted :
      (p : Pool) (now : ℕ) (opened : Bool)
      → IsCounted config p
      → All (λ (d : XHttpH2XmuxClient). has_usage d.left_usage ≡ true) p.manager.clients
      → IsCounted config (
          record_get p.next p.handed
            (reuse_or_open now p.next opened p.manager (candidate p.manager)))
  unfolding reuse_or_open candidate
  chosen-IsCounted p now opened h us = elim (Option-cases (candidate p.manager)) [
    | inl e ↦ rw (e, reuse_or_open) (new_client-IsCounted p now opened h)
    | inr (c, e) ↦
        rw (e, reuse_or_open)
          (reuse-IsCounted p c h us
            (All-min _ (retain limit p.manager.clients) c
              (All-retain _ limit p.manager.clients h.spent) e)
            (All-min (λ (d : XHttpH2XmuxClient). has_usage d.left_usage ≡ true)
              (retain limit p.manager.clients) c (All-retain _ limit p.manager.clients us) e))
  ]
    where
      limit : XHttpH2XmuxClient → Bool
      limit = under_limit p.manager.config

  get_client-IsCounted :
      (p : Pool) (now : ℕ) (opened : Bool)
      → IsCounted config p
      → IsCounted config (record_get p.next p.handed (get_client now p.next opened p.manager))
  unfolding get_client usable_pool
  get_client-IsCounted p now opened h = elim (Bool-cases (more (usable_pool p now).manager)) [
    | inl e ↦
        rw e (new_client-IsCounted (usable_pool p now) now opened (usable_pool-IsCounted p now h))
    | inr e ↦ rw e (
        chosen-IsCounted (usable_pool p now) now opened (usable_pool-IsCounted p now h)
          (retained _ (is_usable now) (is_usable-has_usage now) p.manager.clients))
  ]
    where
      more : XHttpH2XmuxManager → Bool
      more m = (length m.clients == 0) || should_open_more_connections m

  Step-IsCounted : {p q : Pool} → Step p q → IsCounted config p → IsCounted config q
  Step-IsCounted (get p now opened) h = get_client-IsCounted p now opened h
  Step-IsCounted (change p f keeps) h = record {
    same = h.same;
    spent = Spent-change config.c_max_reuse_times p.next p.handed f keeps p.manager.clients h.spent;
    bounded = h.bounded;
    unused = h.unused;
  }

  Reach-IsCounted : {p q : Pool} → IsCounted config p → Reach p q → IsCounted config q
  Reach-IsCounted h start = h
  Reach-IsCounted h (step r s) = Step-IsCounted s (Reach-IsCounted h r)

-- Where a limit is set, no connection is handed out more often than the limit allows, whatever happens
-- to the connections between the requests for one.
pub Reach-bounded :
    (config : XHttpXmuxConfig) (p : Pool)
    → 0 < config.c_max_reuse_times
    → Reach (new_pool config) p
    → (arc : ℕ) → count arc p.handed ≤ config.c_max_reuse_times
unfolding count
Reach-bounded config p limited r arc = (Reach-IsCounted config limited begin r).bounded arc
  where
    begin : IsCounted config (new_pool config)
    begin = record { same = refl; spent = tt; bounded = λ a. omega arith; unused = λ a k. refl }
