-- ===== src/Kernel/Vless/Xmux/Uses.antt =====
-- A pool with its clients asked for and changed, and the uses that its clients have left (crates/neoncore-kernel/src/adapter/vless.rs).

use neon_core_atlas.Kernel.Vless.Xmux.{
  XHttpXmuxConfig, XHttpH2XmuxClient, XHttpH2XmuxManager, retain, least, min_by_open_usage,
  get_client, consume_connection_reuse, has_usage, consume_left, is_usable,
}
use neon_core_atlas.Prelude.{
  ltb, ◌==◌, if◌then◌else◌, Bool-cases, All, suc, ◌+◌, ◌≤◌, ◌<◌, ◌≡◌, subst, inl, inr, Bool, true,
  Option, none, some, List, [], ◌∷◌, arith, ℕ, some_eq, ◌-◌, refl, ◌∙◌, false,
}

unfoldable pub count : ℕ → List ℕ → ℕ
count a [] = 0
count a (x ∷ xs) = if x == a then suc (count a xs) else count a xs

-- The manager, the number of the next connection, and the clients that were handed out.
pub record Pool : Type 0 where
  pub manager : XHttpH2XmuxManager
  pub next : ℕ
  pub handed : List ℕ

unfoldable pub record_get : ℕ → List ℕ → Option ℕ × XHttpH2XmuxManager → Pool
record_get next handed (none, m) = record { manager = m; next = suc next; handed = handed }
record_get next handed (some arc, m) = record {
  manager = m;
  next = suc next;
  handed = arc ∷ handed;
}

unfoldable pub change_all :
    (XHttpH2XmuxClient → XHttpH2XmuxClient) → List XHttpH2XmuxClient → List XHttpH2XmuxClient
change_all f [] = []
change_all f (client ∷ clients) = f client ∷ change_all f clients

-- Connections are asked for, and in between streams open and close, requests are spent and connections
-- die: those change a client, but neither which one it is nor how often it may be used again.
pub data Step : Pool → Pool → Type 0 where
  get :
      (p : Pool) (now : ℕ) (opened : Bool)
      → Step p (record_get p.next p.handed (get_client now p.next opened p.manager))
  change :
      (p : Pool) (f : XHttpH2XmuxClient → XHttpH2XmuxClient)
      → ((c : XHttpH2XmuxClient) → ((f c).arc ≡ c.arc) × ((f c).left_usage ≡ c.left_usage))
      → Step p
          (record p { manager = record p.manager { clients = change_all f p.manager.clients } })

pub data Reach (p : Pool) : Pool → Type 0 where
  start : Reach p p
  step : {q r : Pool} → Reach p q → Step q r → Reach p r

abbrev pub new_pool : XHttpXmuxConfig → Pool
new_pool config = record {
  manager = record { config = config; clients = [] };
  next = 0;
  handed = [];
}

-- A client in the list may be handed out as often as its counter says.
abbrev pub Spent : ℕ → ℕ → List ℕ → XHttpH2XmuxClient → Type 0
Spent limit next handed c =
    (k : ℕ) × (c.left_usage ≡ some k) × (count c.arc handed + k ≤ limit) × (c.arc < next)

pub record IsCounted (config : XHttpXmuxConfig) (p : Pool) : Type 0 where
  pub same : p.manager.config ≡ config
  pub spent : All (Spent config.c_max_reuse_times p.next p.handed) p.manager.clients
  pub bounded : (a : ℕ) → count a p.handed ≤ config.c_max_reuse_times
  pub unused : (a : ℕ) → p.next ≤ a → count a p.handed ≡ 0

pub All-retain :
    (P : XHttpH2XmuxClient → Type 0) (keep : XHttpH2XmuxClient → Bool) (cs : List XHttpH2XmuxClient)
    → All P cs
    → All P (retain keep cs)
unfolding retain
All-retain P keep [] h = tt
All-retain P keep (c ∷ cs) (h, hs) = elim (Bool-cases (keep c)) [
  | inl e ↦ rw (e, retain) (h, All-retain P keep cs hs)
  | inr e ↦ rw (e, retain) (All-retain P keep cs hs)
]

-- What a test tells of a client holds of all that are kept by it.
pub retained :
    (Q : XHttpH2XmuxClient → Type 0) (keep : XHttpH2XmuxClient → Bool)
    → ((c : XHttpH2XmuxClient) → keep c ≡ true → Q c)
    → (cs : List XHttpH2XmuxClient) → All Q (retain keep cs)
unfolding retain
retained Q keep tells [] = tt
retained Q keep tells (c ∷ cs) = elim (Bool-cases (keep c)) [
  | inl e ↦ rw (e, retain) (tells c e, retained Q keep tells cs)
  | inr e ↦ rw (e, retain) (retained Q keep tells cs)
]

pub is_usable-has_usage :
    (now : ℕ) (c : XHttpH2XmuxClient) → is_usable now c ≡ true → has_usage c.left_usage ≡ true
unfolding is_usable
is_usable-has_usage now c e = ground (arith, e)

pub All-least :
    (P : XHttpH2XmuxClient → Type 0) (c : XHttpH2XmuxClient) (cs : List XHttpH2XmuxClient)
    → P c
    → All P cs
    → P (least c cs)
unfolding least
All-least P c [] h hs = h
All-least P c (d ∷ cs) h (k, hs) = elim (Bool-cases (ltb d.open_usage c.open_usage)) [
  | inl e ↦ rw (e, least) (All-least P d cs k hs)
  | inr e ↦ rw (e, least) (All-least P c cs h hs)
]

pub All-min :
    (P : XHttpH2XmuxClient → Type 0) (cs : List XHttpH2XmuxClient) (c : XHttpH2XmuxClient)
    → All P cs
    → min_by_open_usage cs ≡ some c
    → P c
unfolding min_by_open_usage
All-min P [] c h e = absurd (ground (arith, e))
All-min P (d ∷ cs) c (h, hs) e = subst P (some_eq e) (All-least P d cs h hs)

pub count_self : (a : ℕ) (xs : List ℕ) → count a (a ∷ xs) ≡ suc (count a xs)
unfolding count
count_self a xs = ground arith

pub count_other : (a b : ℕ) (xs : List ℕ) → (b == a) ≡ false → count a (b ∷ xs) ≡ count a xs
unfolding count
count_other a b xs e = rw e refl

pub count_le : (a b : ℕ) (xs : List ℕ) → count a (b ∷ xs) ≤ suc (count a xs)
unfolding count
count_le a b xs = ground arith

pub has_usage_pos : (k : ℕ) → has_usage (some k) ≡ true → 1 ≤ k
unfolding has_usage
has_usage_pos k h = ground (arith, h)

-- A client that is handed out spends one use, and every other keeps its own.
pub Spent-consume :
    (limit next arc : ℕ) (handed : List ℕ) (cs : List XHttpH2XmuxClient)
    → All (Spent limit next handed) cs
    → All (λ (c : XHttpH2XmuxClient). has_usage c.left_usage ≡ true) cs
    → All (Spent limit next (arc ∷ handed)) (consume_connection_reuse arc cs)
unfolding consume_connection_reuse has_usage consume_left
Spent-consume limit next arc handed [] h u = tt
Spent-consume limit next arc handed (c ∷ cs) ((k, e, l, f), hs) (u, us) =
    elim (Bool-cases (c.arc == arc)) [
      | inl g ↦ rw g (
        (
          k - 1,
          rw e refl,
          omega (arith, count_le c.arc arc handed, has_usage_pos k (rw e at u)),
          f,
        ),
        Spent-consume limit next arc handed cs hs us,
      )
      | inr g ↦ rw g (
        (k, e, omega (arith, count_other c.arc arc handed (ground (arith, g))), f),
        Spent-consume limit next arc handed cs hs us,
      )
    ]

-- Another client handed out changes nothing for those of smaller numbers.
pub Spent-open :
    (limit next : ℕ) (handed : List ℕ) (cs : List XHttpH2XmuxClient)
    → All (Spent limit next handed) cs
    → All (Spent limit (suc next) (next ∷ handed)) cs
Spent-open limit next handed [] h = tt
Spent-open limit next handed (c ∷ cs) ((k, e, l, f), hs) = (
  (k, e, omega (arith, count_other c.arc next handed (ground (arith, f))), omega arith),
  Spent-open limit next handed cs hs,
)

pub Spent-later :
    (limit next : ℕ) (handed : List ℕ) (cs : List XHttpH2XmuxClient)
    → All (Spent limit next handed) cs
    → All (Spent limit (suc next) handed) cs
Spent-later limit next handed [] h = tt
Spent-later limit next handed (c ∷ cs) ((k, e, l, f), hs) =
    ((k, e, l, omega arith), Spent-later limit next handed cs hs)

pub Spent-change :
    (limit next : ℕ) (handed : List ℕ) (f : XHttpH2XmuxClient → XHttpH2XmuxClient)
    → ((c : XHttpH2XmuxClient) → ((f c).arc ≡ c.arc) × ((f c).left_usage ≡ c.left_usage))
    → (cs : List XHttpH2XmuxClient) → All (Spent limit next handed) cs
    → All (Spent limit next handed) (change_all f cs)
unfolding change_all
Spent-change limit next handed f keeps [] h = tt
Spent-change limit next handed f keeps (c ∷ cs) ((k, e, l, g), hs) = (
  (k, (keeps c).1 ∙ e, rw ((keeps c).0) l, rw ((keeps c).0) g),
  Spent-change limit next handed f keeps cs hs,
)
