-- ===== src/PacketSession/Spec.antt =====
-- The requests of crates/neoncore-kernel/src/packet_session.rs that wait, oldest first: what
-- `PacketSessionDemux` is for, without its queues.

use neon_core_atlas.PacketSession.{PacketWaiter, Demux}
use neon_core_atlas.Prelude.{
  ◌==◌, if◌then◌else◌, ◌≡◌, Bool, false, ◌&&◌, Option, none, some, List, [], ◌∷◌, ℕ,
}
use neon_core_atlas.Std.Bytes.{bytes_eq}
use neon_core_atlas.Std.Map.{lookup}
use neon_core_atlas.Std.Text.{Text}

pub record Entry : Type 0 where
  pub key : Text
  pub waiter : PacketWaiter

abbrev pub is_for : Text → Entry → Bool
is_for k e = bytes_eq e.key k

-- The waiters of one key, oldest first.
unfoldable pub queue_of : Text → List Entry → List PacketWaiter
queue_of k [] = []
queue_of k (e ∷ es) = if is_for k e then e.waiter ∷ queue_of k es else queue_of k es

unfoldable pub keys : List Entry → List (Text × ℕ)
keys [] = []
keys (e ∷ es) = (e.key, e.waiter.request_id) ∷ keys es

-- The oldest entry of a key leaves.
unfoldable pub drop_first : Text → List Entry → List Entry
drop_first k [] = []
drop_first k (e ∷ es) = if is_for k e then es else e ∷ drop_first k es

-- The entry with a key and a number leaves.
unfoldable pub drop_id : Text → ℕ → List Entry → List Entry
drop_id k i [] = []
drop_id k i (e ∷ es) =
    if is_for k e && e.waiter.request_id == i then drop_id k i es else e ∷ drop_id k i es

-- No entry has this key and this number.
abbrev pub Fresh : Text → ℕ → List Entry → Type 0
Fresh k i [] = Unit {0}
Fresh k i (e ∷ es) = ((is_for k e && e.waiter.request_id == i) ≡ false) × Fresh k i es

-- A key and a number name one entry.
abbrev pub Distinct : List Entry → Type 0
Distinct [] = Unit {0}
Distinct (e ∷ es) = Fresh e.key e.waiter.request_id es × Distinct es

-- A queue as the map stores it: an empty one is not there.
unfoldable pub stored : List PacketWaiter → Option (List PacketWaiter)
stored [] = none
stored (w ∷ ws) = some (w ∷ ws)

-- The queues and the FIFO of the demultiplexer hold exactly these entries, in this order.
pub record Holds (es : List Entry) (d : Demux) : Type 0 where
  pub queues : (k : Text) → lookup k d.pending ≡ stored (queue_of k es)
  pub order : d.fifo ≡ keys es
  pub distinct : Distinct es
