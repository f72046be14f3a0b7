-- ===== src/PacketSession/Queues.antt =====
-- How the queues of crates/neoncore-kernel/src/packet_session.rs follow the list of entries.

use neon_core_atlas.PacketSession.{PacketWaiter, put_queue, retain_fifo, retain_queue}
use neon_core_atlas.PacketSession.Spec.{
  Fresh, Distinct, Entry, queue_of, keys, is_for, drop_first, drop_id, stored,
}
use neon_core_atlas.Prelude.{
  ◌==◌, if◌then◌else◌, ◌≡◌, refl, ap, false, ◌&&◌, List, [], ◌∷◌, ◌++◌, arith, ℕ,
}
use neon_core_atlas.Std.Bytes.{bytes_eq_iff, bytes_eq}
use neon_core_atlas.Std.Map.{lookup-remove, lookup-insert, lookup}
use neon_core_atlas.Std.Text.{Text}

pub queue_of-append :
    (k : Text) (es fs : List Entry) → queue_of k (es ++ fs) ≡ queue_of k es ++ queue_of k fs
unfolding queue_of
queue_of-append k [] fs = refl
queue_of-append k (e ∷ es) fs = ground (arith, queue_of-append k es fs)

pub keys-append : (es fs : List Entry) → keys (es ++ fs) ≡ keys es ++ keys fs
unfolding keys
keys-append [] fs = refl
keys-append (e ∷ es) fs = ap (◌∷◌ (e.key, e.waiter.request_id)) (keys-append es fs)

pub Fresh-append :
    (k : Text) (i : ℕ) (es : List Entry) (e : Entry)
    → Fresh k i es
    → (is_for k e && e.waiter.request_id == i) ≡ false
    → Fresh k i (es ++ (e ∷ []))
Fresh-append k i [] e h n = (n, tt)
Fresh-append k i (f ∷ es) e (h, hs) n = (h, Fresh-append k i es e hs n)

pub Distinct-append :
    (es : List Entry) (e : Entry)
    → Distinct es
    → Fresh e.key e.waiter.request_id es
    → Distinct (es ++ (e ∷ []))
Distinct-append [] e d f = (tt, tt)
Distinct-append (g ∷ es) e (h, hs) (f, fs) = (
  Fresh-append g.key g.waiter.request_id es e h
      (ground (arith, bytes_eq_iff g.key e.key, bytes_eq_iff e.key g.key)),
  Distinct-append es e hs fs,
)

pub lookup-put_queue :
    (k j : Text) (q : List PacketWaiter) (m : List (Text × List PacketWaiter))
    → lookup j (put_queue k q m) ≡ (if bytes_eq k j then stored q else lookup j m)
unfolding put_queue stored
lookup-put_queue k j [] m = lookup-remove k j m
lookup-put_queue k j (w ∷ q) m = lookup-insert k j (w ∷ q) m

-- Dropping the oldest entry of a key takes the front of its queue, and no other queue changes.
pub queue_of-drop_first :
    (k j : Text) (es : List Entry) (w : PacketWaiter) (q : List PacketWaiter)
    → queue_of k es ≡ w ∷ q
    → queue_of j (drop_first k es) ≡ (if bytes_eq k j then q else queue_of j es)
unfolding queue_of drop_first
queue_of-drop_first k j [] w q e = cc
queue_of-drop_first k j (x ∷ es) w q e = ground (
  arith,
  queue_of-drop_first k j es w q,
  bytes_eq_iff x.key k,
  bytes_eq_iff x.key j,
  bytes_eq_iff k j,
)

retain_fifo-Fresh :
    (k : Text) (i : ℕ) (es : List Entry) → Fresh k i es → retain_fifo k i (keys es) ≡ keys es
unfolding retain_fifo keys
retain_fifo-Fresh k i [] h = refl
retain_fifo-Fresh k i (e ∷ es) (h, hs) = ground (arith, retain_fifo-Fresh k i es hs)

pub keys-drop_first :
    (k : Text) (es : List Entry) (w : PacketWaiter) (q : List PacketWaiter)
    → Distinct es
    → queue_of k es ≡ w ∷ q
    → retain_fifo k w.request_id (keys es) ≡ keys (drop_first k es)
unfolding queue_of drop_first keys retain_fifo
keys-drop_first k [] w q d e = cc
keys-drop_first k (x ∷ es) w q (f, d) e = ground (
  arith,
  keys-drop_first k es w q d,
  retain_fifo-Fresh x.key x.waiter.request_id es f,
  bytes_eq_iff x.key k,
)

pub retain_fifo-drop_id :
    (k : Text) (i : ℕ) (es : List Entry) → retain_fifo k i (keys es) ≡ keys (drop_id k i es)
unfolding retain_fifo keys drop_id
retain_fifo-drop_id k i [] = refl
retain_fifo-drop_id k i (e ∷ es) = ground (arith, retain_fifo-drop_id k i es)

pub queue_of-drop_id :
    (k j : Text) (i : ℕ) (es : List Entry)
    → queue_of j (drop_id k i es)
      ≡ (if bytes_eq k j then retain_queue i (queue_of k es) else queue_of j es)
unfolding queue_of drop_id retain_queue
queue_of-drop_id k j i [] = ground arith
queue_of-drop_id k j i (e ∷ es) =
    ground (
      arith,
      queue_of-drop_id k j i es,
      bytes_eq_iff k j,
      bytes_eq_iff e.key k,
      bytes_eq_iff e.key j,
    )
