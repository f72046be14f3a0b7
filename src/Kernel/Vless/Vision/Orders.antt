-- ===== src/Kernel/Vless/Vision/Orders.antt =====
-- When a chunk of a Vision stream gets the order to copy directly (`VisionUplinkState::command_for` of
-- crates/neoncore-kernel/src/adapter/vless.rs).

use neon_core_atlas.Kernel.Vless.Vision.Records.{Whole, is_complete_tls_application_data-Whole}
use neon_core_atlas.Kernel.Vless.Vision.Tunnel.{filter_tls-uplink}
use neon_core_atlas.Kernel.Vless.Vision.Uplink.{
  VisionLinkState, VisionTrafficState, filter_tls, decide_command, command_for, may_copy,
  is_tls_handshake, is_complete_tls_application_data,
}
use neon_core_atlas.Prelude.{
  ap, leb, length, All, ◌≤◌, ◌<◌, ◌≡◌, refl, sym, ◌∙◌, ◌↔◌, ◌⊎◌, inl, inr, Bool, true, false, ◌||◌,
  [], ◌∷◌, arith, ℕ,
}
use neon_core_atlas.Std.Bytes.{IsByte, Bytes}
use neon_core_atlas.Std.Text.{starts_with}
use neon_core_atlas.Stream.{flatten}

abbrev pub application_prefix : Bytes
application_prefix = 0x17 ∷ 0x03 ∷ 0x03 ∷ []

not_handshake :
    (bytes : Bytes)
    → starts_with bytes application_prefix ≡ true
    → (starts_with bytes (0x16 ∷ 0x03 ∷ []) ≡ false)
      × (starts_with bytes (0x16 ∷ 0x03 ∷ 0x03 ∷ []) ≡ false)
unfolding starts_with
not_handshake [] h = cc
not_handshake (t ∷ bytes) h = (ground (arith, h), ground (arith, h))

-- Application data tells the filter nothing about TLS.
filter_tls-is_tls :
    (s : VisionTrafficState) (bytes : Bytes)
    → starts_with bytes application_prefix ≡ true
    → (filter_tls s bytes).is_tls ≡ s.is_tls
unfolding filter_tls
filter_tls-is_tls s bytes h = ground (arith, not_handshake bytes h)

-- Whether TLS was seen and no order was sent yet, the bytes are whole records of application data, and
-- the peer copies directly itself or the bytes are many.
pub record Orders (s : VisionTrafficState) (bytes : Bytes) (confirmed : Bool) : Type 0 where
  pub tls : s.is_tls ≡ true
  pub unsent : s.uplink.direct_sent ≡ false
  pub whole : Whole bytes
  pub some_bytes : 0 < length bytes
  pub reason : (confirmed ≡ true) ⊎ (8192 ≤ length bytes)

may_copy_parts :
    (s : VisionTrafficState) (bytes : Bytes) (confirmed : Bool)
    → (decide_command s bytes confirmed).0.direct ≡ true
    → (s.is_tls ≡ true)
      × (s.uplink.direct_sent ≡ false)
      × (starts_with bytes application_prefix ≡ true)
      × ((confirmed || leb 8192 (length bytes)) ≡ true)
      × (is_complete_tls_application_data bytes ≡ true)
unfolding decide_command may_copy
may_copy_parts s bytes confirmed e = ground (arith, e)

starts_with_some : (bytes : Bytes) → starts_with bytes application_prefix ≡ true → 0 < length bytes
unfolding starts_with
starts_with_some [] h = cc
starts_with_some (t ∷ bytes) h = omega arith

many :
    (confirmed : Bool) (n : ℕ) → (confirmed || leb 8192 n) ≡ true → (confirmed ≡ true) ⊎ (8192 ≤ n)
many true n h = inl refl
many false n h = inr (ground (arith, h))

many-back :
    (confirmed : Bool) (n : ℕ) → (confirmed ≡ true) ⊎ (8192 ≤ n) → (confirmed || leb 8192 n) ≡ true
many-back true n h = refl
many-back false n (inl h) = cc
many-back false n (inr h) = ground arith

Whole-starts_with :
    (bytes : Bytes) → Whole bytes → 0 < length bytes → starts_with bytes application_prefix ≡ true
unfolding starts_with flatten
Whole-starts_with bytes ([], short, e) h = absurd (omega (arith, ap length e))
Whole-starts_with bytes (body ∷ bodies, short, e) h = rw e refl

decide_command_back :
    (s : VisionTrafficState) (bytes : Bytes) (confirmed : Bool)
    → s.is_tls ≡ true
    → s.uplink.direct_sent ≡ false
    → starts_with bytes application_prefix ≡ true
    → (confirmed || leb 8192 (length bytes)) ≡ true
    → is_complete_tls_application_data bytes ≡ true
    → (decide_command s bytes confirmed).0.direct ≡ true
unfolding decide_command may_copy is_tls_handshake
decide_command_back s bytes confirmed tls unsent prefix reason complete =
    ground (arith, not_handshake bytes prefix)

-- The order is given exactly where `Orders` holds.
pub command_for-Orders :
    (s : VisionTrafficState) (bytes : Bytes) (confirmed : Bool)
    → All IsByte bytes
    → ((command_for s bytes confirmed).0.direct ≡ true) ↔ Orders s bytes confirmed
unfolding command_for
command_for-Orders s bytes confirmed h = (
  λ e.
      let (tls, unsent, prefix, reason, complete) =
        may_copy_parts (filter_tls s bytes) bytes confirmed e in
      record {
        tls = sym (filter_tls-is_tls s bytes prefix) ∙ tls;
        unsent =
            sym (ap (λ (l : VisionLinkState). l.direct_sent) (filter_tls-uplink s bytes)) ∙ unsent;
        whole = (is_complete_tls_application_data-Whole bytes h).0 complete;
        some_bytes = starts_with_some bytes prefix;
        reason = many confirmed (length bytes) reason;
      },
  λ o.
      let prefix = Whole-starts_with bytes o.whole o.some_bytes in
      decide_command_back (filter_tls s bytes) bytes confirmed
        (filter_tls-is_tls s bytes prefix ∙ o.tls)
        (ap (λ (l : VisionLinkState). l.direct_sent) (filter_tls-uplink s bytes) ∙ o.unsent) prefix
        (many-back confirmed (length bytes) o.reason)
        ((is_complete_tls_application_data-Whole bytes h).1 o.whole),
)
