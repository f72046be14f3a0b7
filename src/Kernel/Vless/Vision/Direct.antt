-- ===== src/Kernel/Vless/Vision/Direct.antt =====
-- The order to copy directly over the chunks of a connection (`VisionUplinkState::command_for` of
-- crates/neoncore-kernel/src/adapter/vless.rs).

use neon_core_atlas.Kernel.Vless.Vision.Orders.{command_for-Orders, Orders}
use neon_core_atlas.Kernel.Vless.Vision.Records.{Whole}
use neon_core_atlas.Kernel.Vless.Vision.Tunnel.{filter_tls-uplink}
use neon_core_atlas.Kernel.Vless.Vision.Uplink.{
  VisionLinkState, VisionTrafficState, filter_tls, decide_command, command_for, may_copy,
}
use neon_core_atlas.Prelude.{
  ap, length, All, ◌≤◌, ◌≡◌, refl, sym, ◌∙◌, ◌↔◌, ◌⊎◌, inl, inr, Bool, true, false, [], ◌∷◌, arith,
  if◌then◌else◌, Bool-cases, List,
}
use neon_core_atlas.Std.Bytes.{IsByte, Bytes}

-- The chunks of a connection, each with whether the peer copies directly by then, and the state behind
-- them.
pub after_chunks : VisionTrafficState → List (Bytes × Bool) → VisionTrafficState
after_chunks s [] = s
after_chunks s ((bytes, confirmed) ∷ chunks) = after_chunks (command_for s bytes confirmed).1 chunks

-- The chunks for which the order is given.
unfoldable pub directed : VisionTrafficState → List (Bytes × Bool) → List (Bytes × Bool)
directed s [] = []
directed s ((bytes, confirmed) ∷ chunks) =
    let (decision, s') = command_for s bytes confirmed in
    let rest = directed s' chunks in if decision.direct then (bytes, confirmed) ∷ rest else rest

-- The order was sent, and the padding has ended.
abbrev pub Ended : VisionTrafficState → Type 0
Ended s = (s.uplink.direct_sent ≡ true) × (s.uplink.padding ≡ false)

decide_command-Ended :
    (s : VisionTrafficState) (bytes : Bytes) (confirmed : Bool)
    → Ended s
    → ((decide_command s bytes confirmed).0.direct ≡ false)
      × Ended (decide_command s bytes confirmed).1
unfolding decide_command may_copy
decide_command-Ended s bytes confirmed (sent, ended) =
    (ground (arith, sent), (ground (arith, sent), ground (arith, ended)))

filter_tls-Ended : (s : VisionTrafficState) (bytes : Bytes) → Ended s → Ended (filter_tls s bytes)
filter_tls-Ended s bytes (sent, ended) = (
  ap (λ (l : VisionLinkState). l.direct_sent) (filter_tls-uplink s bytes) ∙ sent,
  ap (λ (l : VisionLinkState). l.padding) (filter_tls-uplink s bytes) ∙ ended,
)

command_for-Ended :
    (s : VisionTrafficState) (bytes : Bytes) (confirmed : Bool)
    → Ended s
    → ((command_for s bytes confirmed).0.direct ≡ false) × Ended (command_for s bytes confirmed).1
unfolding command_for
command_for-Ended s bytes confirmed h =
    decide_command-Ended (filter_tls s bytes) bytes confirmed (filter_tls-Ended s bytes h)

directed-Ended :
    (s : VisionTrafficState) (chunks : List (Bytes × Bool))
    → Ended s
    → (directed s chunks ≡ []) × Ended (after_chunks s chunks)
unfolding directed after_chunks
directed-Ended s [] h = (refl, h)
directed-Ended s ((bytes, confirmed) ∷ chunks) h =
    let (undirected, ended) = command_for-Ended s bytes confirmed h in
    let (no_more, last) = directed-Ended (command_for s bytes confirmed).1 chunks ended in
    (rw undirected no_more, last)

-- What an order does, and what stays without one.
decide_command_step :
    (s : VisionTrafficState) (bytes : Bytes) (confirmed : Bool)
    → ((decide_command s bytes confirmed).0.direct ≡ true
        → Ended (decide_command s bytes confirmed).1)
      × ((decide_command s bytes confirmed).0.direct ≡ false
          → (decide_command s bytes confirmed).1.uplink.direct_sent ≡ s.uplink.direct_sent)
unfolding decide_command
decide_command_step s bytes confirmed =
    ((λ e. (ground (arith, e), ground (arith, e))), (λ e. ground (arith, e)))

-- The chunk that the order was given for, with what holds before and behind it.
pub record Directs (s : VisionTrafficState) (chunks : List (Bytes × Bool)) : Type 0 where
  pub bytes : Bytes
  pub confirmed : Bool
  pub only : directed s chunks ≡ (bytes, confirmed) ∷ []
  pub whole : Whole bytes
  pub reason : (confirmed ≡ true) ⊎ (8192 ≤ length bytes)
  pub unsent : s.uplink.direct_sent ≡ false
  pub ended : Ended (after_chunks s chunks)

directed_once :
    (s : VisionTrafficState) (chunks : List (Bytes × Bool))
    → All (λ chunk. All IsByte chunk.0) chunks
    → (directed s chunks ≡ []) ⊎ Directs s chunks
unfolding directed after_chunks command_for
directed_once s [] h = inl refl
directed_once s ((bytes, confirmed) ∷ chunks) (h, hs) =
    elim (Bool-cases (command_for s bytes confirmed).0.direct) [
      | inl d ↦
          let o = (command_for-Orders s bytes confirmed h).0 d in
          let (no_more, last) =
            directed-Ended (command_for s bytes confirmed).1 chunks
              ((decide_command_step (filter_tls s bytes) bytes confirmed).0 d) in
          inr (record {
            bytes = bytes;
            confirmed = confirmed;
            only = rw (d, no_more) refl;
            whole = o.whole;
            reason = o.reason;
            unsent = o.unsent;
            ended = last;
          })
      | inr d ↦ elim (directed_once (command_for s bytes confirmed).1 chunks hs) [
        | inl no_more ↦ inl (rw d no_more)
        | inr later ↦ inr (record {
          bytes = later.bytes;
          confirmed = later.confirmed;
          only = rw d later.only;
          whole = later.whole;
          reason = later.reason;
          unsent =
              sym (
                (decide_command_step (filter_tls s bytes) bytes confirmed).1 d
                ∙ ap (λ (l : VisionLinkState). l.direct_sent) (filter_tls-uplink s bytes))
              ∙ later.unsent;
          ended = later.ended;
        })
      ]
    ]

-- The order to copy directly is given exactly where TLS was seen, no order was sent yet, the bytes are
-- whole records of application data, one at least, and the peer copies directly itself or the bytes are
-- 8192 at least. Over any sequence of chunks of bytes it is given at most once, only if none was sent
-- before, on such records and for such a reason, and behind them the padding has ended.
pub command_for-directed :
    (s : VisionTrafficState) (bytes : Bytes) (confirmed : Bool) (chunks : List (Bytes × Bool))
    → All IsByte bytes
    → All (λ chunk. All IsByte chunk.0) chunks
    → (((command_for s bytes confirmed).0.direct ≡ true) ↔ Orders s bytes confirmed)
      × ((directed s chunks ≡ []) ⊎ Directs s chunks)
command_for-directed s bytes confirmed chunks h hs =
    (command_for-Orders s bytes confirmed h, directed_once s chunks hs)
