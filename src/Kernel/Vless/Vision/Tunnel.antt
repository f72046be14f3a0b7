-- ===== src/Kernel/Vless/Vision/Tunnel.antt =====
-- What Vision writes to the server is what the server reads (crates/neoncore-kernel/src/adapter/vless.rs).

use neon_core_atlas.Kernel.Vless.Vision.{idle, unknown, padding, xtls_padding, new_unpadding}
use neon_core_atlas.Kernel.Vless.Vision.Blocks.{
  xtls_padding-view, content_of, after_block, xtls_padding_named, unpad_named,
}
use neon_core_atlas.Kernel.Vless.Vision.Loop.{unpad, unpad_break, round-nil}
use neon_core_atlas.Kernel.Vless.Vision.Rounds.{join, View, view}
use neon_core_atlas.Kernel.Vless.Vision.Unpadding.{push_chunks-unpad, push_chunks}
use neon_core_atlas.Kernel.Vless.Vision.Uplink.{
  VisionTrafficState, VisionUplinkDecision, filter_tls, command_for, server_hello, decide_command,
  VisionLinkState, vision_uplink, bridge_uplink, new_traffic,
}
use neon_core_atlas.Prelude.{
  if◌then◌else◌, length, ◌≤◌, ◌<◌, ◌≡◌, Option, none, some, [], ◌∷◌, ◌++◌, ℕ, ◌==◌, Bool-cases,
  refl, ap, ◌∙◌, inl, inr, false, arith, true, List, subst, Bool, All, sym, append_cancel,
}
use neon_core_atlas.Std.Bytes.{Bytes}
use neon_core_atlas.Stream.{flatten}

pub filter_tls-uplink : (s : VisionTrafficState) (b : Bytes) → (filter_tls s b).uplink ≡ s.uplink
unfolding filter_tls server_hello
filter_tls-uplink s b = ground arith

-- Padding goes on after a command 0, and only then.
abbrev Keeps : VisionUplinkDecision × VisionTrafficState → Type 0
Keeps r = (r.0.command ≤ 2) × ((r.0.command == 0) ≡ r.1.uplink.padding)

decide_command-Keeps :
    (s : VisionTrafficState) (b : Bytes) (confirmed : Bool)
    → s.uplink.padding ≡ true
    → Keeps (decide_command s b confirmed)
unfolding decide_command
decide_command-Keeps s b confirmed h = ground arith

command_for-Keeps :
    (s : VisionTrafficState) (b : Bytes) (confirmed : Bool)
    → s.uplink.padding ≡ true
    → Keeps (command_for s b confirmed)
unfolding command_for
command_for-Keeps s b confirmed h =
    decide_command-Keeps (filter_tls s b) b confirmed
      (ap (λ (l : VisionLinkState). l.padding) (filter_tls-uplink s b) ∙ h)

vision_uplink_padded :
    (s : VisionTrafficState) (b : Bytes) (chunks : List Bytes)
    → s.uplink.padding ≡ true
    → vision_uplink s (b ∷ chunks)
      ≡ xtls_padding (some b) (command_for s b false).0.command none true
        ++ vision_uplink (command_for s b false).1 chunks
unfolding vision_uplink
vision_uplink_padded s b chunks h =
    ap
      (λ (t : Bool).
        if t
        then xtls_padding (some b) (command_for s b false).0.command none true
          ++ vision_uplink (command_for s b false).1 chunks
        else b ++ vision_uplink s chunks)
      h

-- Once the padding has ended, the bytes go out as they are.
vision_uplink_plain :
    (s : VisionTrafficState) (chunks : List Bytes)
    → s.uplink.padding ≡ false
    → vision_uplink s chunks ≡ flatten chunks
unfolding vision_uplink flatten
vision_uplink_plain s [] h = refl
vision_uplink_plain s (b ∷ chunks) h =
    ap
      (λ (t : Bool).
        if t
        then xtls_padding (some b) (command_for s b false).0.command none true
          ++ vision_uplink (command_for s b false).1 chunks
        else b ++ vision_uplink s chunks)
      h
    ∙ ap (◌++◌ b) (vision_uplink_plain s chunks h)

-- The content comes out, and nothing is kept back.
abbrev pub Delivers : View → Bytes → Type 0
Delivers v content = (v.0 ≡ content) × (v.3 ≡ [])

after_block-Delivers :
    (uuid content rest tail : Bytes) (command : ℕ)
    → ((command == 0) ≡ true → Delivers (view (unpad uuid padding rest)) tail)
    → ((command == 0) ≡ false → rest ≡ tail)
    → Delivers (after_block uuid command content rest) (content ++ tail)
unfolding after_block join
after_block-Delivers uuid content rest tail command h k = elim (Bool-cases (command == 0)) [
  | inl e ↦ rw e (ap (◌++◌ content) (h e).0, (h e).1)
  | inr e ↦ rw e (ap (◌++◌ content) (k e), refl)
]

idle-Delivers : (uuid : Bytes) → Delivers (view (unpad uuid padding [])) []
unfolding view idle flatten
idle-Delivers uuid =
    rw (unpad_break uuid padding [] (idle padding []) (round-nil uuid padding)) (refl, refl)

vision_uplink-Delivers :
    (uuid : Bytes) (s : VisionTrafficState) (chunks : List Bytes)
    → All (λ (b : Bytes). length b < 65536) chunks
    → s.uplink.padding ≡ true
    → Delivers (view (unpad uuid padding (vision_uplink s chunks))) (flatten chunks)
unfolding flatten vision_uplink
vision_uplink-Delivers uuid s [] h p = idle-Delivers uuid
vision_uplink-Delivers uuid s (b ∷ chunks) (h, hs) p =
    let (small, keeps) = command_for-Keeps s b false p in
    let s' : VisionTrafficState = (command_for s b false).1 in
    subst (λ (wire : Bytes). Delivers (view (unpad uuid padding wire)) (b ++ flatten chunks))
      (sym (vision_uplink_padded s b chunks p))
      (rw (xtls_padding-view uuid b (vision_uplink s' chunks) _ h small) (
        after_block-Delivers uuid b (vision_uplink s' chunks) (flatten chunks) _
          (λ e. vision_uplink-Delivers uuid s' chunks hs (sym keeps ∙ e))
          (λ e. vision_uplink_plain s' chunks (sym keeps ∙ e))))

-- The stream of the blocks of a connection: the first payload, and the rest as the filter decides.
tunnel-Delivers :
    (uuid : Bytes) (first_payload : Option Bytes) (chunks : List Bytes)
    → length (content_of first_payload) < 65536
    → All (λ (b : Bytes). length b < 65536) chunks
    → Delivers
        (view (
          unpad uuid padding (
            xtls_padding (some (content_of first_payload)) 0 none true
            ++ vision_uplink new_traffic chunks)))
        (content_of first_payload ++ flatten chunks)
tunnel-Delivers uuid first_payload chunks h hs =
    rw
      (xtls_padding-view uuid (content_of first_payload) (vision_uplink new_traffic chunks) 0 h
        (omega arith))
      (after_block-Delivers uuid (content_of first_payload) (vision_uplink new_traffic chunks)
        (flatten chunks) 0 (λ e. vision_uplink-Delivers uuid new_traffic chunks hs refl) (λ e. cc))

-- What a server reads that takes the padding off what comes behind the request, however it arrives, is
-- the first payload and then the chunks, and nothing stays pending, if the user's id has 16 bytes and no
-- chunk has more than 65535.
pub bridge_uplink-push_chunks :
    (uuid request : Bytes) (first_payload : Option Bytes) (chunks arrived : List Bytes)
    → length uuid ≡ 16
    → length (content_of first_payload) < 65536
    → All (λ (b : Bytes). length b < 65536) chunks
    → request ++ flatten arrived ≡ bridge_uplink uuid request first_payload chunks
    → Delivers
        (push_chunks (new_unpadding uuid) arrived)
        (content_of first_payload ++ flatten chunks)
unfolding bridge_uplink
bridge_uplink-push_chunks uuid request first_payload chunks arrived u h hs e =
    subst (λ (v : View). Delivers v (content_of first_payload ++ flatten chunks)) (sym read)
      (tunnel-Delivers uuid first_payload chunks h hs)
  where
    wire : Bytes
    wire =
        xtls_padding (some (content_of first_payload)) 0 none true
        ++ vision_uplink new_traffic chunks

    read : push_chunks (new_unpadding uuid) arrived ≡ view (unpad uuid padding wire)
    read =
        push_chunks-unpad uuid arrived
        ∙ ap (λ (b : Bytes). view (unpad uuid unknown b))
            (append_cancel request e
              ∙ xtls_padding_named uuid first_payload (vision_uplink new_traffic chunks))
        ∙ ap view (unpad_named uuid wire u)
