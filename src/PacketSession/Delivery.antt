-- ===== src/PacketSession/Delivery.antt =====
-- What `deliver` and `deliver_next` of crates/neoncore-kernel/src/packet_session.rs promise.

use neon_core_atlas.PacketSession.{
  Reply, PacketWaiter, Demux, send_to, deliver, find_waiter, deliver_next, put_queue, retain_fifo,
  deliver_loop,
}
use neon_core_atlas.PacketSession.Queues.{lookup-put_queue, queue_of-drop_first, keys-drop_first}
use neon_core_atlas.PacketSession.Spec.{
  Fresh, Distinct, Entry, Holds, queue_of, drop_first, keys, stored,
}
use neon_core_atlas.Prelude.{◌≡◌, refl, ap, ◌∙◌, true, false, some, List, [], ◌∷◌, arith, ℕ, sym}
use neon_core_atlas.Std.Bytes.{bytes_eq_refl}
use neon_core_atlas.Std.Text.{Text}

Fresh-drop_first :
    (key k : Text) (i : ℕ) (es : List Entry) → Fresh k i es → Fresh k i (drop_first key es)
unfolding drop_first
Fresh-drop_first key k i [] f = tt
Fresh-drop_first key k i (e ∷ es) (f, fs) = ground (arith, Fresh-drop_first key k i es fs)

Distinct-drop_first : (key : Text) (es : List Entry) → Distinct es → Distinct (drop_first key es)
unfolding drop_first
Distinct-drop_first key [] d = tt
Distinct-drop_first key (e ∷ es) (f, d) =
    ground
      (arith, Distinct-drop_first key es d, Fresh-drop_first key e.key e.waiter.request_id es f)

-- The state after the oldest waiter of a key was answered.
abbrev answered : Text → Reply → PacketWaiter → List PacketWaiter → Demux → Demux
answered key reply w q d =
    send_to w.sender reply
      (record d { pending = put_queue key q d.pending; fifo = retain_fifo key w.request_id d.fifo })

deliver_some :
    (es : List Entry) (d : Demux) (key : Text) (reply : Reply) (w : PacketWaiter)
    (q : List PacketWaiter)
    → Holds es d
    → queue_of key es ≡ w ∷ q
    → deliver key reply d ≡ (true, answered key reply w q d)
unfolding deliver stored
deliver_some es d key reply w q h e = rw (h.queues key, e, deliver)

answered-Holds :
    (es : List Entry) (d : Demux) (key : Text) (reply : Reply) (w : PacketWaiter)
    (q : List PacketWaiter)
    → Holds es d
    → queue_of key es ≡ w ∷ q
    → Holds (drop_first key es) (answered key reply w q d)
answered-Holds es d key reply w q h e = record {
  queues = λ k.
      ground
        (arith, lookup-put_queue key k q d.pending, queue_of-drop_first key k es w q e, h.queues k);
  order = ap (retain_fifo key w.request_id) h.order ∙ keys-drop_first key es w q h.distinct e;
  distinct = Distinct-drop_first key es h.distinct;
}

-- A reply for a key answers the oldest request of that key, once, and that request alone leaves the
-- list; the requests of other keys are untouched.
pub deliver-oldest :
    (es : List Entry) (d : Demux) (key : Text) (reply : Reply) (w : PacketWaiter)
    (q : List PacketWaiter)
    → Holds es d
    → queue_of key es ≡ w ∷ q
    → ((deliver key reply d).0 ≡ true)
      × ((deliver key reply d).1.sent ≡ (w.sender, reply) ∷ d.sent)
      × Holds (drop_first key es) (deliver key reply d).1
deliver-oldest es d key reply w q h e =
    rw (deliver_some es d key reply w q h e) (refl, refl, answered-Holds es d key reply w q h e)

-- A reply for a key that nobody waits for is discarded: the caller is told, and nothing changes.
pub deliver_nobody :
    (es : List Entry) (d : Demux) (key : Text) (reply : Reply)
    → Holds es d
    → queue_of key es ≡ []
    → deliver key reply d ≡ (false, d)
unfolding deliver stored
deliver_nobody es d key reply h e = rw (h.queues key, e, deliver)

next_queue : (e : Entry) (es : List Entry) → queue_of e.key (e ∷ es) ≡ e.waiter ∷ queue_of e.key es
unfolding queue_of
next_queue e es = rw (bytes_eq_refl e.key)

drop_first-next : (e : Entry) (es : List Entry) → drop_first e.key (e ∷ es) ≡ es
unfolding drop_first
drop_first-next e es = rw (bytes_eq_refl e.key)

find_waiter-next :
    (e : Entry) (es : List Entry) (d : Demux)
    → Holds (e ∷ es) d
    → find_waiter e.key e.waiter.request_id d.pending ≡ some (e.waiter, queue_of e.key es)
unfolding find_waiter stored
find_waiter-next e es d h = rw (h.queues e.key, next_queue e es, find_waiter) (ground arith)

deliver_loop_found :
    (key : Text) (id : ℕ) (fifo : List (Text × ℕ)) (d : Demux) (reply : Reply) (w : PacketWaiter)
    (others : List PacketWaiter)
    → find_waiter key id d.pending ≡ some (w, others)
    → deliver_loop reply ((key, id) ∷ fifo) d ≡ (
      true,
      send_to w.sender reply (record d { pending = put_queue key others d.pending; fifo = fifo }),
    )
unfolding deliver_loop
deliver_loop_found key id fifo d reply w others e = rw (e, deliver_loop)

abbrev answered_next : Entry → List Entry → Reply → Demux → Demux
answered_next e es reply d =
    send_to e.waiter.sender reply
      (record d { pending = put_queue e.key (queue_of e.key es) d.pending; fifo = keys es })

deliver_next_some :
    (e : Entry) (es : List Entry) (d : Demux) (reply : Reply)
    → Holds (e ∷ es) d
    → deliver_next reply d ≡ (true, answered_next e es reply d)
unfolding deliver_next keys
deliver_next_some e es d reply h =
    ap (λ (l : List (Text × ℕ)). deliver_loop reply l d) h.order
    ∙ deliver_loop_found e.key e.waiter.request_id (keys es) d reply e.waiter (queue_of e.key es)
        (find_waiter-next e es d h)

answered_next-Holds :
    (e : Entry) (es : List Entry) (d : Demux) (reply : Reply)
    → Holds (e ∷ es) d
    → Holds es (answered_next e es reply d)
answered_next-Holds e es d reply h = record {
  queues = λ k. ground (
    arith,
    lookup-put_queue e.key k (queue_of e.key es) d.pending,
    h.queues k,
    queue_of-drop_first e.key k (e ∷ es) e.waiter (queue_of e.key es) (next_queue e es),
    drop_first-next e es,
  );
  order = refl;
  distinct = h.distinct.1;
}

-- A reply with no target answers the request that has waited longest of all, once, and it alone
-- leaves the list.
pub deliver_next-oldest :
    (e : Entry) (es : List Entry) (d : Demux) (reply : Reply)
    → Holds (e ∷ es) d
    → ((deliver_next reply d).0 ≡ true)
      × ((deliver_next reply d).1.sent ≡ (e.waiter.sender, reply) ∷ d.sent)
      × Holds es (deliver_next reply d).1
deliver_next-oldest e es d reply h =
    rw (deliver_next_some e es d reply h) (refl, refl, answered_next-Holds e es d reply h)

-- With nobody waiting, a reply with no target is discarded: the caller is told, and nothing changes.
pub deliver_next_nobody :
    (d : Demux) (reply : Reply) → Holds [] d → deliver_next reply d ≡ (false, d)
unfolding deliver_next deliver_loop keys
deliver_next_nobody d reply h =
    ap (λ (l : List (Text × ℕ)). deliver_loop reply l d) h.order
    ∙ ap (λ (l : List (Text × ℕ)). (false, record d { fifo = l })) (sym h.order)
