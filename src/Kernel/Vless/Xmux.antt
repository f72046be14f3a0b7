-- ===== src/Kernel/Vless/Xmux.antt =====
-- The pool of HTTP/2 connections of crates/neoncore-kernel/src/adapter/vless.rs. A limit is an i32 of
-- which a negative value counts like 0. An `Arc<XHttpH2XmuxClient>` is known by a number, and the
-- manager's list holds its counters, which every holder shares.
pub mod Uses
pub mod Reuse
use neon_core_atlas.Prelude.{
  ltb, leb, ◌==◌, if◌then◌else◌, length, ◌+◌, ◌-◌, Bool, true, false, not, ◌&&◌, ◌||◌, Option, none,
  some, List, [], ◌∷◌, ◌++◌, ℕ,
}

pub record XHttpXmuxConfig : Type 0 where
  pub max_concurrency : ℕ
  pub max_connections : ℕ
  pub c_max_reuse_times : ℕ
  pub h_max_request_times : ℕ
  pub h_max_reusable_secs : ℕ

-- `left_usage` is -1 without a limit, here `none`; `left_requests` stops at 0, below which no test tells
-- its values apart.
pub record XHttpH2XmuxClient : Type 0 where
  pub arc : ℕ
  pub open_usage : ℕ
  pub left_usage : Option ℕ
  pub left_requests : ℕ
  pub reusable_until : Option ℕ
  pub closed : Bool

pub record XHttpH2XmuxManager : Type 0 where
  pub config : XHttpXmuxConfig
  pub clients : List XHttpH2XmuxClient

unfoldable pub in_time : ℕ → Option ℕ → Bool
in_time now none = true
in_time now (some deadline) = leb now deadline

unfoldable pub has_usage : Option ℕ → Bool
has_usage none = true
has_usage (some left) = not (left == 0)

unfoldable pub is_usable : ℕ → XHttpH2XmuxClient → Bool
is_usable now client =
    not client.closed
    && has_usage client.left_usage
    && ltb 0 client.left_requests
    && in_time now client.reusable_until

-- `Vec::retain` and `Iterator::filter`
unfoldable pub retain : (XHttpH2XmuxClient → Bool) → List XHttpH2XmuxClient → List XHttpH2XmuxClient
retain keep [] = []
retain keep (client ∷ clients) =
    if keep client then client ∷ retain keep clients else retain keep clients

unfoldable pub should_open_more_connections : XHttpH2XmuxManager → Bool
should_open_more_connections m =
    ltb 0 m.config.max_connections && ltb (length m.clients) m.config.max_connections

-- `min_by_key`: the first of the least
unfoldable pub least : XHttpH2XmuxClient → List XHttpH2XmuxClient → XHttpH2XmuxClient
least best [] = best
least best (client ∷ clients) =
    if ltb client.open_usage best.open_usage then least client clients else least best clients

unfoldable pub min_by_open_usage : List XHttpH2XmuxClient → Option XHttpH2XmuxClient
min_by_open_usage [] = none
min_by_open_usage (client ∷ clients) = some (least client clients)

unfoldable pub under_limit : XHttpXmuxConfig → XHttpH2XmuxClient → Bool
under_limit config client =
    leb config.max_concurrency 0 || ltb client.open_usage config.max_concurrency

unfoldable pub candidate : XHttpH2XmuxManager → Option XHttpH2XmuxClient
candidate m = min_by_open_usage (retain (under_limit m.config) m.clients)

-- `XHttpH2XmuxClient::consume_connection_reuse`
unfoldable pub consume_left : Option ℕ → Option ℕ
consume_left none = none
consume_left (some left) = some (left - 1)

-- It changes the counter of one client, which the list shares.
unfoldable pub consume_connection_reuse : ℕ → List XHttpH2XmuxClient → List XHttpH2XmuxClient
consume_connection_reuse arc [] = []
consume_connection_reuse arc (client ∷ clients) =
    (if client.arc == arc
      then record client { left_usage = consume_left client.left_usage }
      else client)
    ∷ consume_connection_reuse arc clients

-- The counters of a new connection.
unfoldable pub new_counters : XHttpXmuxConfig → ℕ → ℕ → XHttpH2XmuxClient
new_counters config now arc = record {
  arc = arc;
  open_usage = 0;
  left_usage = if ltb 0 config.c_max_reuse_times then some (config.c_max_reuse_times - 1) else none;
  left_requests =
      if ltb 0 config.h_max_request_times then config.h_max_request_times else 2147483647;
  reusable_until =
      if ltb 0 config.h_max_reusable_secs then some (now + config.h_max_reusable_secs) else none;
  closed = false;
}

-- `new_client`, where the connection and its handshake succeed or fail.
unfoldable pub new_client : ℕ → ℕ → Bool → XHttpH2XmuxManager → Option ℕ × XHttpH2XmuxManager
new_client now arc opened m =
    if opened
    then (some arc, record m { clients = m.clients ++ (new_counters m.config now arc ∷ []) })
    else (none, m)

unfoldable pub reuse_or_open :
    ℕ → ℕ → Bool → XHttpH2XmuxManager → Option XHttpH2XmuxClient → Option ℕ × XHttpH2XmuxManager
reuse_or_open now arc opened m none = new_client now arc opened m
reuse_or_open now arc opened m (some client) =
    (some client.arc, record m { clients = consume_connection_reuse client.arc m.clients })

-- `get_client`: the client that it hands out, if opening a connection did not fail.
unfoldable pub get_client : ℕ → ℕ → Bool → XHttpH2XmuxManager → Option ℕ × XHttpH2XmuxManager
get_client now arc opened m =
    let m' : XHttpH2XmuxManager = record m { clients = retain (is_usable now) m.clients } in
    if (length m'.clients == 0) || should_open_more_connections m'
    then new_client now arc opened m'
    else reuse_or_open now arc opened m' (candidate m')
